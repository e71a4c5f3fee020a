-- ===== src/Chain/Refine.antt =====
-- The list of 12-tcp_stack/include/list.h as the sequence of its entries.
use mathlib.Core.Path.{subst}
use computer_net_ucas.Common.{
  ℕ, ◌≡◌, ◌≢◌, sym, ap, refl, inl, inr, ◌⊎◌, List, [], ◌∷◌, ◌++◌, ◌==◌, if◌then◌else◌, Bool-cases,
  ==→eq, arith,
}
use computer_net_ucas.Chain.{Store, list_add_head, list_add_tail, list_delete_entry}
use computer_net_ucas.Chain.Links.{Absent, Represents}
use computer_net_ucas.Chain.Operations.{
  list_add_head-Represents, list_add_tail-Represents, list_delete_entry-Represents,
}

-- A call on one list.
pub data Op : Type 0 where
  add_head add_tail delete : ℕ → Op

abbrev pub perform : ℕ → Op → Store → Store
perform head (add_head n) s = list_add_head n head s
perform head (add_tail n) s = list_add_tail n head s
perform head (delete n) s = list_delete_entry n s

abbrev pub perform_all : ℕ → List Op → Store → Store
perform_all head [] s = s
perform_all head (o ∷ os) s = perform_all head os (perform head o s)

abbrev pub without : ℕ → List ℕ → List ℕ
without n [] = []
without n (x ∷ xs) = if x == n then xs else x ∷ without n xs

-- The same call on the sequence of the entries.
abbrev pub change : Op → List ℕ → List ℕ
change (add_head n) xs = n ∷ xs
change (add_tail n) xs = xs ++ n ∷ []
change (delete n) xs = without n xs

abbrev pub Has : ℕ → List ℕ → Type 0
Has n [] = ⊥
Has n (x ∷ xs) = (x ≡ n) ⊎ Has n xs

-- What the callers see to: a node that is added is not in the list, one that is deleted is.
abbrev pub IsLegal : ℕ → List Op → List ℕ → Type 0
IsLegal head [] xs = Unit
IsLegal head (add_head n ∷ os) xs = (n ≢ head) × Absent n xs × IsLegal head os (n ∷ xs)
IsLegal head (add_tail n ∷ os) xs = (n ≢ head) × Absent n xs × IsLegal head os (xs ++ n ∷ [])
IsLegal head (delete n ∷ os) xs = Has n xs × IsLegal head os (without n xs)

abbrev pub change_all : List Op → List ℕ → List ℕ
change_all [] xs = xs
change_all (o ∷ os) xs = change_all os (change o xs)

split :
    (n : ℕ) (xs : List ℕ)
    → Has n xs
    → (ys : List ℕ) × (zs : List ℕ) × (xs ≡ ys ++ n ∷ zs) × (without n xs ≡ ys ++ zs)
split n [] h = absurd h
split n (x ∷ xs) h = elim (Bool-cases (x == n)) [
  | inl here ↦ ([], xs, ap (λ y. y ∷ xs) (==→eq x n here), rw here refl)
  | inr there ↦ elim h [
    | inl same ↦ absurd (ground arith)
    | inr later ↦
        let (ys, zs, whole, cut) = split n xs later in
        (x ∷ ys, zs, ap (λ l. x ∷ l) whole, rw there (ap (λ l. x ∷ l) cut))
  ]
]

-- Through any legal calls on a store that represents a list, the store represents the list that the
-- same calls make of the sequence of its entries.
pub perform_all-Represents :
    (head : ℕ) (os : List Op) (s : Store) (xs : List ℕ)
    → Represents s head xs
    → IsLegal head os xs
    → Represents (perform_all head os s) head (change_all os xs)
perform_all-Represents head [] s xs h legal = h
perform_all-Represents head (add_head n ∷ os) s xs h legal =
    perform_all-Represents head os _ _ (list_add_head-Represents s head n xs h legal.0 legal.1)
      legal.2
perform_all-Represents head (add_tail n ∷ os) s xs h legal =
    perform_all-Represents head os _ _ (list_add_tail-Represents s head n xs h legal.0 legal.1)
      legal.2
perform_all-Represents head (delete n ∷ os) s xs h legal =
    let (ys, zs, whole, cut) = split n xs legal.0 in
    let h' = list_delete_entry-Represents s head n ys zs (subst (Represents s head) whole h) in
    perform_all-Represents head os _ _
      (subst (Represents (list_delete_entry n s) head) (sym cut) h') legal.1

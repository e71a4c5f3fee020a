-- ===== src/Chain/Links.antt =====
-- The chain of nodes that a list of 12-tcp_stack/include/list.h is in the store.
use computer_net_ucas.Common.{ℕ, ◌≡◌, ◌≢◌, ◌∙◌, sym, List, [], ◌∷◌, ◌++◌}
use computer_net_ucas.Chain.{Store}

-- From `a` through the nodes to `b`, each pointer of `next` has its opposite in `prev`.
abbrev pub Linked : Store → ℕ → List ℕ → ℕ → Type 0
Linked s a [] b = (s.next a ≡ b) × (s.prev b ≡ a)
Linked s a (x ∷ xs) b = (s.next a ≡ x) × (s.prev x ≡ a) × Linked s x xs b

abbrev pub Absent : ℕ → List ℕ → Type 0
Absent x [] = Unit
Absent x (y ∷ ys) = (x ≢ y) × Absent x ys

abbrev pub NoTwice : List ℕ → Type 0
NoTwice [] = Unit
NoTwice (x ∷ xs) = Absent x xs × NoTwice xs

-- The list with its head, which is no entry.
pub record Represents (s : Store) (head : ℕ) (xs : List ℕ) : Type 0 where
  pub linked : Linked s head xs head
  pub headless : Absent head xs
  pub distinct : NoTwice xs

abbrev pub last : ℕ → List ℕ → ℕ
last a [] = a
last a (x ∷ xs) = last x xs

abbrev pub first_of : List ℕ → ℕ → ℕ
first_of [] b = b
first_of (x ∷ xs) b = x

pub last-ne : (a x : ℕ) (xs : List ℕ) → a ≢ x → Absent a xs → a ≢ last x xs
last-ne a x [] ne abs = ne
last-ne a x (y ∷ ys) ne abs = last-ne a y ys abs.0 abs.1

pub Absent-split : (a : ℕ) (xs ys : List ℕ) → Absent a (xs ++ ys) → Absent a xs × Absent a ys
Absent-split a [] ys h = (tt, h)
Absent-split a (x ∷ xs) ys h = let (l, r) = Absent-split a xs ys h.1 in ((h.0, l), r)

pub first_of-ne : (x : ℕ) (ys : List ℕ) (b : ℕ) → x ≢ b → Absent x ys → x ≢ first_of ys b
first_of-ne x [] b ne abs = ne
first_of-ne x (y ∷ ys) b ne abs = abs.0

pub next-first_of :
    (s : Store) (a : ℕ) (xs : List ℕ) (b : ℕ) → Linked s a xs b → s.next a ≡ first_of xs b
next-first_of s a [] b h = h.0
next-first_of s a (x ∷ xs) b h = h.0

pub prev-last : (s : Store) (a : ℕ) (xs : List ℕ) (b : ℕ) → Linked s a xs b → s.prev b ≡ last a xs
prev-last s a [] b h = h.1
prev-last s a (x ∷ xs) b h = prev-last s x xs b h.2

pub Linked-split :
    (s : Store) (a : ℕ) (xs : List ℕ) (n : ℕ) (ys : List ℕ) (b : ℕ)
    → Linked s a (xs ++ n ∷ ys) b
    → Linked s a xs n × Linked s n ys b
Linked-split s a [] n ys b h = ((h.0, h.1), h.2)
Linked-split s a (x ∷ xs) n ys b h =
    let (l, r) = Linked-split s x xs n ys b h.2 in ((h.0, h.1, l), r)

-- Stores that differ in `next` at `p` and `n` only, and in `prev` at `q` and `n` only.
pub record Agrees (s t : Store) (p q n : ℕ) : Type 0 where
  pub nexts : (i : ℕ) → i ≢ p → i ≢ n → t.next i ≡ s.next i
  pub prevs : (i : ℕ) → i ≢ q → i ≢ n → t.prev i ≡ s.prev i

module _ (s t : Store) (p q n : ℕ) (same : Agrees s t p q n) where
  -- A chain on which the differences do not lie.
  Linked-Agrees :
      (a : ℕ) (xs : List ℕ) (b : ℕ)
      → (p ≢ a) × Absent p xs
      → (q ≢ b) × Absent q xs
      → (n ≢ a) × Absent n xs × (n ≢ b)
      → Linked s a xs b
      → Linked t a xs b
  Linked-Agrees a [] b hp hq hn h = (
    same.nexts a (λ e. hp.0 (sym e)) (λ e. hn.0 (sym e)) ∙ h.0,
    same.prevs b (λ e. hq.0 (sym e)) (λ e. hn.2 (sym e)) ∙ h.1,
  )
  Linked-Agrees a (x ∷ xs) b hp hq hn h = (
    same.nexts a (λ e. hp.0 (sym e)) (λ e. hn.0 (sym e)) ∙ h.0,
    same.prevs x (λ e. hq.1.0 (sym e)) (λ e. hn.1.0 (sym e)) ∙ h.1,
    Linked-Agrees x xs b hp.1 (hq.0, hq.1.1) (hn.1.0, hn.1.1, hn.2) h.2,
  )

  -- What the nodes from `a` to `b` must be for a splice.
  abbrev IsPlain : ℕ → List ℕ → ℕ → Type 0
  IsPlain a zs b = Absent a zs × Absent b zs × NoTwice zs × (n ≢ a) × Absent n zs × (n ≢ b)

  -- The first link of a chain, where the splice lies behind it.
  first_link :
      (a x : ℕ) (xs ys : List ℕ) (b : ℕ)
      → p ≡ last x xs
      → q ≡ first_of ys b
      → IsPlain a (x ∷ xs ++ ys) b
      → (s.next a ≡ x) × (s.prev x ≡ a)
      → (t.next a ≡ x) × (t.prev x ≡ a)
  first_link a x xs ys b ep eq (na, nb, nt, n0, n1, n2) h =
      let ax = Absent-split a xs ys na.1 in
      let xy = Absent-split x xs ys nt.0 in
      (
        same.nexts a (rw ep (last-ne a x xs na.0 ax.0)) (λ e. n0 (sym e)) ∙ h.0,
        same.prevs x (rw eq (first_of-ne x ys b (λ e. nb.0 (sym e)) xy.1)) (λ e. n1.0 (sym e))
            ∙ h.1,
      )

  -- Behind the splice: the chain from `first_of ys b` on.
  pub insert-Linked :
      (a : ℕ) (xs ys : List ℕ) (b : ℕ)
      → p ≡ last a xs
      → q ≡ first_of ys b
      → IsPlain a (xs ++ ys) b
      → (t.next p ≡ n) × (t.next n ≡ q) × (t.prev q ≡ n) × (t.prev n ≡ p)
      → Linked s a (xs ++ ys) b
      → Linked t a (xs ++ n ∷ ys) b
  insert-Linked a [] [] b ep eq plain w h = (rw (← ep) w.0, w.3 ∙ ep, (w.1 ∙ eq, rw (← eq) w.2))
  insert-Linked a [] (y ∷ ys) b ep eq (na, nb, nt, n0, n1, n2) w h = (
    rw (← ep) w.0,
    w.3 ∙ ep,
    (
      w.1 ∙ eq,
      rw (← eq) w.2,
      Linked-Agrees y ys b (rw ep na) (rw eq (λ e. nb.0 (sym e)), rw eq nt.0) (n1.0, n1.1, n2) h.2,
    ),
  )
  insert-Linked a (x ∷ xs) ys b ep eq (na, nb, nt, n0, n1, n2) w h =
      let link = first_link a x xs ys b ep eq (na, nb, nt, n0, n1, n2) (h.0, h.1) in
      (link.0, link.1, insert-Linked x xs ys b ep eq (nt.0, nb.1, nt.1, n1.0, n1.1, n2) w h.2)

  pub delete-Linked :
      (a : ℕ) (xs ys : List ℕ) (b : ℕ)
      → p ≡ last a xs
      → q ≡ first_of ys b
      → IsPlain a (xs ++ ys) b
      → (t.next p ≡ q) × (t.prev q ≡ p)
      → Linked s a (xs ++ n ∷ ys) b
      → Linked t a (xs ++ ys) b
  delete-Linked a [] [] b ep eq plain w h = (rw (← ep) w.0 ∙ eq, rw (← eq) w.1 ∙ ep)
  delete-Linked a [] (y ∷ ys) b ep eq (na, nb, nt, n0, n1, n2) w h = (
    rw (← ep) w.0 ∙ eq,
    rw (← eq) w.1 ∙ ep,
    Linked-Agrees y ys b (rw ep na) (rw eq (λ e. nb.0 (sym e)), rw eq nt.0) (n1.0, n1.1, n2) h.2.2,
  )
  delete-Linked a (x ∷ xs) ys b ep eq (na, nb, nt, n0, n1, n2) w h =
      let link = first_link a x xs ys b ep eq (na, nb, nt, n0, n1, n2) (h.0, h.1) in
      (link.0, link.1, delete-Linked x xs ys b ep eq (nt.0, nb.1, nt.1, n1.0, n1.1, n2) w h.2)

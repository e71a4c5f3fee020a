-- ===== src/Chain/Operations.antt =====
-- The operations of 12-tcp_stack/include/list.h on a store that represents a list.
use mathlib.Core.List.{append-nil}
use computer_net_ucas.Common.{
  ℕ, zero, suc, ◌≡◌, ◌≢◌, ◌∙◌, sym, refl, ◌↔◌, ◌<◌, true, List, [], ◌∷◌, ◌++◌, ◌==◌, length, arith,
}
use computer_net_ucas.Chain.{
  Store, init_list_head, list_empty, list_insert, list_add_head, list_add_tail, list_delete_entry,
  for_each,
}
use computer_net_ucas.Chain.Links.{
  Linked, Absent, NoTwice, Represents, last, first_of, last-ne, first_of-ne, Absent-split,
  next-first_of, prev-last, Linked-split, Agrees, insert-Linked, delete-Linked,
}

module _ (s : Store) (p q n : ℕ) where
  list_insert-writes :
      p ≢ n
      → q ≢ n
      → let t = list_insert n p q s in
        (t.next p ≡ n) × (t.next n ≡ q) × (t.prev q ≡ n) × (t.prev n ≡ p)
  unfolding list_insert
  list_insert-writes hp hq = (ground arith, ground arith, ground arith, ground arith)

  list_insert-Agrees : Agrees s (list_insert n p q s) p q n
  unfolding list_insert
  list_insert-Agrees = record { nexts = λ i a b. ground arith; prevs = λ i a b. ground arith }

Absent-append : (a : ℕ) (xs ys : List ℕ) → Absent a xs → Absent a ys → Absent a (xs ++ ys)
Absent-append a [] ys h k = k
Absent-append a (x ∷ xs) ys h k = (h.0, Absent-append a xs ys h.1 k)

NoTwice-snoc : (xs : List ℕ) (n : ℕ) → NoTwice xs → Absent n xs → NoTwice (xs ++ n ∷ [])
NoTwice-snoc [] n h k = (tt, tt)
NoTwice-snoc (x ∷ xs) n h k =
    (Absent-append x xs (n ∷ []) h.0 (λ e. k.0 (sym e), tt), NoTwice-snoc xs n h.1 k.1)

Absent-delete :
    (a : ℕ) (xs : List ℕ) (n : ℕ) (ys : List ℕ)
    → Absent a (xs ++ n ∷ ys)
    → (a ≢ n) × Absent a (xs ++ ys)
Absent-delete a [] n ys h = h
Absent-delete a (x ∷ xs) n ys h = let (ne, rest) = Absent-delete a xs n ys h.1 in (ne, (h.0, rest))

NoTwice-delete :
    (xs : List ℕ) (n : ℕ) (ys : List ℕ)
    → NoTwice (xs ++ n ∷ ys)
    → NoTwice (xs ++ ys) × Absent n (xs ++ ys)
NoTwice-delete [] n ys h = (h.1, h.0)
NoTwice-delete (x ∷ xs) n ys h =
    let (rest, away) = NoTwice-delete xs n ys h.1 in
    let (ne, abs) = Absent-delete x xs n ys h.0 in ((abs, rest), (λ e. ne (sym e), away))

pub init_list_head-Represents : (head : ℕ) (s : Store) → Represents (init_list_head head s) head []
unfolding init_list_head
init_list_head-Represents head s = record {
  linked = (ground arith, ground arith);
  headless = tt;
  distinct = tt;
}

module _ (s : Store) (head : ℕ) (n : ℕ) where
  pub list_add_head-Represents :
      (xs : List ℕ)
      → Represents s head xs
      → n ≢ head
      → Absent n xs
      → Represents (list_add_head n head s) head (n ∷ xs)
  unfolding list_add_head
  list_add_head-Represents xs h ne abs =
      let q = s.next head in
      let eq : q ≡ first_of xs head = next-first_of s head xs head h.linked in
      let away : q ≢ n = λ e. first_of-ne n xs head ne abs (sym e ∙ eq) in
      record {
        linked =
            insert-Linked s (list_insert n head q s) head q n (list_insert-Agrees s head q n) head
              [] xs head refl eq (h.headless, h.headless, h.distinct, ne, abs, ne)
              (list_insert-writes s head q n (λ e. ne (sym e)) away) h.linked;
        headless = (λ e. ne (sym e), h.headless);
        distinct = (abs, h.distinct);
      }

  pub list_add_tail-Represents :
      (xs : List ℕ)
      → Represents s head xs
      → n ≢ head
      → Absent n xs
      → Represents (list_add_tail n head s) head (xs ++ n ∷ [])
  unfolding list_add_tail
  list_add_tail-Represents xs h ne abs =
      let p = s.prev head in
      let ep : p ≡ last head xs = prev-last s head xs head h.linked in
      let away : p ≢ n = λ e. last-ne n head xs ne abs (sym e ∙ ep) in
      let whole : xs ++ [] ≡ xs = append-nil xs in
      record {
        linked =
            insert-Linked s (list_insert n p head s) p head n (list_insert-Agrees s p head n) head
              xs [] head ep refl (rw whole (h.headless, h.headless, h.distinct, ne, abs, ne))
              (list_insert-writes s p head n away (λ e. ne (sym e))) (rw whole h.linked);
        headless = Absent-append head xs (n ∷ []) h.headless (λ e. ne (sym e), tt);
        distinct = NoTwice-snoc xs n h.distinct abs;
      }

  list_delete_entry-writes :
      n ≢ s.next n
      → let t = list_delete_entry n s in
        (t.next (s.prev n) ≡ s.next n)
        × (t.prev (s.next n) ≡ s.prev n)
        × Agrees s t (s.prev n) (s.next n) n
  unfolding list_delete_entry
  list_delete_entry-writes ne = (
    ground arith,
    ground arith,
    record { nexts = λ i a b. ground arith; prevs = λ i a b. ground arith },
  )

  pub list_delete_entry-Represents :
      (xs ys : List ℕ)
      → Represents s head (xs ++ n ∷ ys)
      → Represents (list_delete_entry n s) head (xs ++ ys)
  list_delete_entry-Represents xs ys h =
      let (left, right) = Linked-split s head xs n ys head h.linked in
      let (ne, away) = Absent-delete head xs n ys h.headless in
      let (rest, gone) = NoTwice-delete xs n ys h.distinct in
      let ep : s.prev n ≡ last head xs = prev-last s head xs n left in
      let eq : s.next n ≡ first_of ys head = next-first_of s n ys head right in
      let off : n ≢ head = λ e. ne (sym e) in
      let own : n ≢ s.next n =
        λ e. first_of-ne n ys head off (Absent-split n xs ys gone).1 (e ∙ eq) in
      let (w0, w1, same) = list_delete_entry-writes own in
      record {
        linked =
            delete-Linked s (list_delete_entry n s) (s.prev n) (s.next n) n same head xs ys head ep
              eq (away, away, rest, off, gone, off) (w0, w1) h.linked;
        headless = away;
        distinct = rest;
      }

-- The walk over a list visits its entries in order, and ends: one round for each and one for the head
-- are enough.
for_each-Linked :
    (s : Store) (a : ℕ) (xs : List ℕ) (head fuel : ℕ)
    → length xs < fuel
    → Linked s a xs head
    → Absent head xs
    → for_each fuel s head (s.next a) ≡ xs
unfolding for_each
for_each-Linked s a xs head zero le h abs = absurd (omega arith)
for_each-Linked s a [] head (suc fuel) le h abs = rw h.0 (ground arith)
for_each-Linked s a (x ∷ xs) head (suc fuel) le h abs =
    let rest = for_each-Linked s x xs head fuel (omega arith) h.2 abs.1 in
    let off = abs.0 in rw h.0 (ground arith)

-- On a store that represents a list, the walk visits the entries in their order and ends: one round
-- for each and one for the head are enough, and more change nothing. The list is empty for
-- `list_empty` exactly where there is no entry.
pub for_each-Represents :
    (s : Store) (head fuel : ℕ) (xs : List ℕ)
    → Represents s head xs
    → length xs < fuel
    → (for_each fuel s head (s.next head) ≡ xs) × ((list_empty head s ≡ true) ↔ (xs ≡ []))
unfolding list_empty
for_each-Represents s head fuel xs h le =
    (for_each-Linked s head xs head fuel le h.linked h.headless, empty xs h)
  where
    empty : (xs : List ℕ) → Represents s head xs → ((s.next head == head) ≡ true) ↔ (xs ≡ [])
    empty [] h = (λ e. refl, λ e. ground (arith, h.linked))
    empty (x ∷ xs) h = (λ e. absurd (ground (arith, h.linked, h.headless)), λ e. absurd (cc))

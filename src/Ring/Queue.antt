-- ===== src/Ring/Queue.antt =====
-- A client of the ring buffer cannot tell it from a bounded queue of bytes.
use computer_net_ucas.Common.{
  ℕ, zero, suc, ◌+◌, ◌-◌, ◌≤◌, ◌<◌, ◌≡◌, refl, sym, ap, ap₂, ◌∙◌, ◌⊎◌, inl, inr, Bool, true, false,
  ◌&&◌, Option, none, some, List, [], ◌∷◌, ◌++◌, ltb, leb, if◌then◌else◌, length, take, drop, min,
  Bool-cases, arith,
}
use computer_net_ucas.Ring.{
  Ring, ring_buffer_used, ring_buffer_free, read_ring_buffer, write_ring_buffer,
}
use computer_net_ucas.Ring.Copy.{length-tabulate}
use computer_net_ucas.Ring.Refine.{IsValid, at_index, contents, used-lt, read_ring_buffer_lem}
use computer_net_ucas.Ring.Write.{write_ring_buffer_lem, write_ring_buffer_abort}

-- What a client does: write some bytes, or read up to a number of bytes.
pub data Op : Type 0 where
  put : List ℕ → Op
  get : ℕ → Op

-- A read's result in front of the later ones.
unfoldable pub prepend : List ℕ → Option (List (List ℕ)) → Option (List (List ℕ))
prepend bytes none = none
prepend bytes (some rest) = some (bytes ∷ rest)

-- The results of the reads, until the calls end or a write aborts.
unfoldable pub run : Ring → List Op → Option (List (List ℕ))
run r [] = some []
run r (put bs ∷ ops) = elim (write_ring_buffer r bs) [ none ↦ none | some r' ↦ run r' ops ]
run r (get n ∷ ops) = let (len, bytes, r') = read_ring_buffer r n in prepend bytes (run r' ops)

-- The same calls on a queue of at most `cap` bytes.
unfoldable pub run_queue : ℕ → List ℕ → List Op → Option (List (List ℕ))
run_queue cap q [] = some []
run_queue cap q (put bs ∷ ops) =
    let rest = run_queue cap (q ++ bs) ops in
    if ltb 0 (length bs) && leb (length q + length bs) cap then rest else none
run_queue cap q (get n ∷ ops) = prepend (take n q) (run_queue cap (drop n q) ops)

take-append :
    (xs ys : List ℕ) (n : ℕ) → length xs ≡ min (length (xs ++ ys)) n → take n (xs ++ ys) ≡ xs
take-append [] [] zero e = refl
take-append [] [] (suc n) e = refl
take-append [] (y ∷ ys) zero e = refl
take-append [] (y ∷ ys) (suc n) e = absurd (omega arith)
take-append (x ∷ xs) ys zero e = absurd (omega arith)
take-append (x ∷ xs) ys (suc n) e = ap (λ t. x ∷ t) (take-append xs ys n (omega arith))

drop-append :
    (xs ys : List ℕ) (n : ℕ) → length xs ≡ min (length (xs ++ ys)) n → drop n (xs ++ ys) ≡ ys
drop-append [] [] zero e = refl
drop-append [] [] (suc n) e = refl
drop-append [] (y ∷ ys) zero e = refl
drop-append [] (y ∷ ys) (suc n) e = absurd (omega arith)
drop-append (x ∷ xs) ys zero e = absurd (omega arith)
drop-append (x ∷ xs) ys (suc n) e = drop-append xs ys n (omega arith)

size-write : (r r' : Ring) (bs : List ℕ) → write_ring_buffer r bs ≡ some r' → r'.size ≡ r.size
unfolding write_ring_buffer
size-write r r' bs e = ground arith

size-read : (r : Ring) (n : ℕ) → (read_ring_buffer r n).2.size ≡ r.size
unfolding read_ring_buffer
size-read r n = ground arith

-- The test of the queue, by the length of the contents.
abbrev room : Ring → List ℕ → Bool
room r bs = ltb 0 (length bs) && leb (length (contents r) + length bs) (r.size - 1)

room-true :
    (r : Ring) (bs : List ℕ)
    → IsValid r
    → room r bs ≡ true
    → (0 < length bs) × (length bs ≤ ring_buffer_free r)
unfolding ring_buffer_free
room-true r bs v h = ground (arith, length-tabulate (ring_buffer_used r) (at_index r), used-lt r v)

room-false :
    (r : Ring) (bs : List ℕ)
    → IsValid r
    → room r bs ≡ false
    → (bs ≡ []) ⊎ (ring_buffer_free r < length bs)
unfolding ring_buffer_free
room-false r [] v h = inl refl
room-false r (b ∷ bs) v h =
    inr (ground (arith, length-tabulate (ring_buffer_used r) (at_index r), used-lt r v))

-- Every sequence of writes and reads gives on a valid ring buffer the bytes, or the abort, that it
-- gives on a queue of capacity `size - 1` holding the same bytes.
pub run-run_queue :
    (ops : List Op) (r : Ring) → IsValid r → run r ops ≡ run_queue (r.size - 1) (contents r) ops
unfolding run run_queue
run-run_queue [] r v = refl
run-run_queue (put bs ∷ ops) r v = elim (Bool-cases (room r bs)) [
  | inl fits ↦
      let (r', done, v', grown) =
        write_ring_buffer_lem r bs v (room-true r bs v fits).0 (room-true r bs v fits).1 in
      rw (done, run, fits)
        (run-run_queue ops r' v'
          ∙ ap₂ (λ c q. run_queue c q ops) (ap (λ n. n - 1) (size-write r r' bs done)) grown)
  | inr full ↦ rw (write_ring_buffer_abort r bs (room-false r bs v full), run, full)
]
run-run_queue (get n ∷ ops) r v =
    let (v', count, len, parts) = read_ring_buffer_lem r n v in
    let bytes = (read_ring_buffer r n).1 in
    let left = contents (read_ring_buffer r n).2 in
    let front : length bytes ≡ min (length (bytes ++ left)) n =
      len ∙ count ∙ ap (λ q. min (length q) n) parts in
    ap₂ prepend (sym (ap (take n) parts ∙ take-append bytes left n front)) (
      run-run_queue ops _ v'
      ∙ ap₂ (λ c q. run_queue c q ops) (ap (λ c. c - 1) (size-read r n))
          (sym (ap (drop n) parts ∙ drop-append bytes left n front)))

-- ===== src/Ring/Refine.antt =====
-- The ring buffer as a bounded queue of bytes.
use native.Mathlib.Nat.{mod-eq_of_lt, mod-eq-sub-mod, mod-add-mod}
use native.Mathlib.Decide.{dec_lt}
use computer_net_ucas.Common.{
  ℕ, ◌+◌, ◌-◌, ◌%◌, ◌≤◌, ◌<◌, ◌≡◌, refl, sym, ap, ap₂, ◌∙◌, inl, inr, List, ◌++◌, ltb, leb,
  if◌then◌else◌, length, get_or, min, Bool-cases, ltb→lt, arith,
}
use computer_net_ucas.Ring.{Ring, ring_buffer_used, read_len, read_bytes, read_ring_buffer}
use computer_net_ucas.Ring.Copy.{
  tabulate, length-tabulate, tabulate-ext, tabulate-append, slice-tabulate,
}

pub record IsValid (r : Ring) : Type 0 where
  pub storage : length r.buf ≡ r.size
  pub head_in : r.head < r.size
  pub tail_in : r.tail < r.size

-- The `k`-th unread byte, and all of them, oldest first.
abbrev pub at_index : Ring → ℕ → ℕ
at_index r k = get_or r.buf ((r.head + k) % r.size) 0

abbrev pub contents : Ring → List ℕ
contents r = tabulate (ring_buffer_used r) (at_index r)

pub wrap : (x m : ℕ) → x < m + m → x % m ≡ (if ltb x m then x else x - m)
wrap x m h = elim (dec_lt x m) [
  | yes p ↦ ground (arith, mod-eq_of_lt p)
  | no p ↦ ground (
    arith,
    mod-eq-sub-mod {n = x} {m = m} (omega arith),
    mod-eq_of_lt {n = x - m} {m = m} (omega arith),
  )
]

-- The distance from head to tail round the ring.
pub used_cases :
    (r : Ring)
    → IsValid r
    → ring_buffer_used r ≡ (if leb r.head r.tail then r.tail - r.head else r.tail + r.size - r.head)
unfolding ring_buffer_used
used_cases r v = ground (arith, wrap (r.tail + r.size - r.head) r.size (omega arith))

pub used-lt : (r : Ring) → IsValid r → ring_buffer_used r < r.size
used-lt r v = ground (arith, used_cases r v)

-- What is read is the front of the contents.
read_bytes-tabulate :
    (r : Ring) (len : ℕ) → IsValid r → len < r.size → read_bytes r len ≡ tabulate len (at_index r)
unfolding read_bytes
read_bytes-tabulate r len v h = elim (Bool-cases (ltb r.size (r.head + len))) [
  | inr one ↦ rw one (
      slice-tabulate r.buf r.head len (ground (arith, v.storage))
      ∙ tabulate-ext len _ _
          (λ k lt. ap (λ i. get_or r.buf i 0) (sym (mod-eq_of_lt (ground arith)))))
  | inl two ↦ rw two (
      ap₂ ◌++◌
        (slice-tabulate r.buf r.head (r.size - r.head) (ground (arith, v.storage))
          ∙ tabulate-ext (r.size - r.head) _ _
              (λ k lt. ap (λ i. get_or r.buf i 0) (sym (mod-eq_of_lt (omega arith)))))
        (slice-tabulate r.buf 0 (len - (r.size - r.head)) (ground (arith, v.storage))
          ∙ tabulate-ext (len - (r.size - r.head)) _ _
              (λ k lt. ap (λ i. get_or r.buf i 0) (round_end k (ltb→lt _ _ two) lt)))
      ∙ sym (tabulate-append (r.size - r.head) (len - (r.size - r.head)) (at_index r))
      ∙ ap (λ n. tabulate n (at_index r)) (whole (ltb→lt _ _ two)))
]
  where
    whole : r.size < r.head + len → r.size - r.head + (len - (r.size - r.head)) ≡ len
    whole far = omega (arith, v.head_in)

    round_end :
        (k : ℕ)
        → r.size < r.head + len
        → k < len - (r.size - r.head)
        → 0 + k ≡ (r.head + (r.size - r.head + k)) % r.size
    round_end k far lt =
        ground (
          arith,
          v.head_in,
          wrap (r.head + (r.size - r.head + k)) r.size (omega (arith, v.head_in)),
        )

read_len_lem : (r : Ring) (n : ℕ) → read_len r n ≡ min (ring_buffer_used r) n
unfolding read_len
read_len_lem r n = ground arith

-- After reading `len` bytes the buffer is valid and holds the rest.
advance : Ring → ℕ → Ring
advance r len = record r { head = (r.head + len) % r.size }

advance-IsValid : (r : Ring) (len : ℕ) → IsValid r → IsValid (advance r len)
unfolding advance
advance-IsValid r len v = record {
  storage = v.storage;
  head_in = omega (arith, v.head_in);
  tail_in = v.tail_in;
}

advance-used :
    (r : Ring) (len : ℕ)
    → IsValid r
    → len ≤ ring_buffer_used r
    → ring_buffer_used (advance r len) ≡ ring_buffer_used r - len
unfolding advance
advance-used r len v h = ground (
  arith,
  v.head_in,
  used_cases r v,
  used-lt r v,
  used_cases (advance r len) (advance-IsValid r len v),
  wrap (r.head + len) r.size (omega (arith, v.head_in, used-lt r v)),
)

advance-contents :
    (r : Ring) (len : ℕ)
    → IsValid r
    → len ≤ ring_buffer_used r
    → contents r ≡ tabulate len (at_index r) ++ contents (advance r len)
unfolding advance
advance-contents r len v h =
    let e : ring_buffer_used r ≡ len + (ring_buffer_used r - len) = omega arith in
    ap (λ n. tabulate n (at_index r)) e
    ∙ tabulate-append len (ring_buffer_used r - len) (at_index r)
    ∙ ap (λ t. tabulate len (at_index r) ++ t)
        (tabulate-ext (ring_buffer_used r - len) _ _ (λ k lt. ap (λ i. get_or r.buf i 0) (shift k))
          ∙ ap (λ n. tabulate n (at_index (advance r len))) (sym (advance-used r len v h)))
  where
    shift : (k : ℕ) → (r.head + (len + k)) % r.size ≡ ((r.head + len) % r.size + k) % r.size
    shift k = rw mod-add-mod (ap (λ x. x % r.size) (omega arith))

-- `read_ring_buffer` returns as many bytes as there are, up to the caller's limit, copies exactly
-- the oldest ones in their order, and leaves a valid buffer with the rest.
pub read_ring_buffer_lem :
    (r : Ring) (n : ℕ)
    → IsValid r
    → let (len, bytes, r') = read_ring_buffer r n in
      IsValid r'
      × (len ≡ min (length (contents r)) n)
      × (length bytes ≡ len)
      × (contents r ≡ bytes ++ contents r')
unfolding read_ring_buffer advance
read_ring_buffer_lem r n v = elim (Bool-cases (ltb 0 (read_len r n))) [
  | inl some_bytes ↦
      let low : read_len r n ≤ ring_buffer_used r = omega (arith, read_len_lem r n) in
      let bytes = read_bytes-tabulate r (read_len r n) v (omega (arith, used-lt r v)) in
      rw some_bytes (
        advance-IsValid r (read_len r n) v,
        count,
        ap length bytes ∙ length-tabulate (read_len r n) (at_index r),
        advance-contents r (read_len r n) v low
            ∙ ap (λ t. t ++ contents (advance r (read_len r n))) (sym bytes),
      )
  | inr none_left ↦ rw none_left (v, count, ground arith, refl)
]
  where
    count : read_len r n ≡ min (length (contents r)) n
    count = omega (arith, read_len_lem r n, length-tabulate (ring_buffer_used r) (at_index r))

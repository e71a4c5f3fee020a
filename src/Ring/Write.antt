-- ===== src/Ring/Write.antt =====
-- Writing to the ring buffer: every byte lands behind the unread ones, and none of these is touched.
use computer_net_ucas.Common.{
  ℕ, ◌+◌, ◌-◌, ◌%◌, ◌≤◌, ◌<◌, ◌≡◌, ap, ap₂, ◌∙◌, ◌⊎◌, inl, inr, ◌&&◌, none, some, List, [], ◌∷◌,
  ◌++◌, ltb, leb, if◌then◌else◌, length, get_or, take, drop, length-replicate, length-take,
  Bool-cases, arith,
}
use computer_net_ucas.Ring.{
  Ring, memcpy, alloc_ring_buffer, ring_buffer_used, ring_buffer_free, write_bytes,
  write_ring_buffer,
}
use computer_net_ucas.Ring.Copy.{
  length-memcpy, get_or-memcpy, get_or-take, get_or-drop, length-drop, tabulate, tabulate-ext,
  tabulate-append, tabulate-get_or,
}
use computer_net_ucas.Ring.Refine.{IsValid, at_index, contents, wrap, used_cases, used-lt}

length-write_bytes : (r : Ring) (bs : List ℕ) → length (write_bytes r bs) ≡ length r.buf
unfolding write_bytes
length-write_bytes r bs = ground (
  arith,
  length-memcpy r.buf r.tail bs,
  length-memcpy r.buf r.tail (take (r.size - r.tail) bs),
  length-memcpy (memcpy r.buf r.tail (take (r.size - r.tail) bs)) 0 (drop (r.size - r.tail) bs),
)

-- The storage after a write, at index `i`.
get_or-write_bytes :
    (r : Ring) (bs : List ℕ) (i : ℕ)
    → IsValid r
    → length bs < r.size
    → i < r.size
    → get_or (write_bytes r bs) i 0 ≡ (
        if leb r.tail i && ltb i (r.tail + length bs)
        then get_or bs (i - r.tail) 0
        else if ltb (i + r.size) (r.tail + length bs)
        then get_or bs (r.size - r.tail + i) 0
        else get_or r.buf i 0)
unfolding write_bytes
get_or-write_bytes r bs i v h hi = elim (Bool-cases (ltb r.size (r.tail + length bs))) [
  | inr one ↦
      rw one
        (get_or-memcpy r.buf r.tail bs i (ground (arith, v.storage)) ∙ ground (arith, v.tail_in))
  | inl two ↦ rw two (
      ground (
        arith,
        v.storage,
        v.tail_in,
        length-take right bs,
        length-drop right bs,
        length-memcpy r.buf r.tail (take right bs),
        get_or-memcpy (memcpy r.buf r.tail (take right bs)) 0 (drop right bs) i,
        get_or-memcpy r.buf r.tail (take right bs) i,
        get_or-drop right (i - 0) bs,
        get_or-take right (i - r.tail) bs,
      ))
]
  where
    right : ℕ
    right = r.size - r.tail

-- A byte that was unread before the write is what it was.
old_byte :
    (r : Ring) (bs : List ℕ) (k : ℕ)
    → IsValid r
    → ring_buffer_used r + length bs < r.size
    → k < ring_buffer_used r
    → get_or (write_bytes r bs) ((r.head + k) % r.size) 0 ≡ at_index r k
old_byte r bs k v h hk = ground (
  arith,
  v.head_in,
  v.tail_in,
  used_cases r v,
  wrap (r.head + k) r.size (omega (arith, v.head_in)),
  get_or-write_bytes r bs ((r.head + k) % r.size) v,
)

-- The `j`-th byte written stands behind the bytes that were unread.
new_byte :
    (r : Ring) (bs : List ℕ) (j : ℕ)
    → IsValid r
    → ring_buffer_used r + length bs < r.size
    → j < length bs
    → get_or (write_bytes r bs) ((r.head + (ring_buffer_used r + j)) % r.size) 0 ≡ get_or bs j 0
new_byte r bs j v h hj =
    ap (λ i. get_or (write_bytes r bs) i 0) place
    ∙ ground (
      arith,
      v.tail_in,
      wrap (r.tail + j) r.size (omega (arith, v.tail_in)),
      get_or-write_bytes r bs ((r.tail + j) % r.size) v,
    )
  where
    place : (r.head + (ring_buffer_used r + j)) % r.size ≡ (r.tail + j) % r.size
    place = ground (
      arith,
      v.head_in,
      v.tail_in,
      used_cases r v,
      wrap (r.tail + j) r.size (omega (arith, v.tail_in)),
      wrap (r.head + (ring_buffer_used r + j)) r.size (omega (arith, v.head_in)),
    )

advance_tail : Ring → List ℕ → Ring
advance_tail r bs = record r { buf = write_bytes r bs; tail = (r.tail + length bs) % r.size }

advance_tail-IsValid :
    (r : Ring) (bs : List ℕ) → IsValid r → length bs < r.size → IsValid (advance_tail r bs)
unfolding advance_tail
advance_tail-IsValid r bs v h = record {
  storage = length-write_bytes r bs ∙ v.storage;
  head_in = v.head_in;
  tail_in = omega (arith, v.head_in);
}

advance_tail-used :
    (r : Ring) (bs : List ℕ)
    → IsValid r
    → ring_buffer_used r + length bs < r.size
    → ring_buffer_used (advance_tail r bs) ≡ ring_buffer_used r + length bs
unfolding advance_tail
advance_tail-used r bs v h = ground (
  arith,
  v.head_in,
  v.tail_in,
  used_cases r v,
  used_cases (advance_tail r bs) (advance_tail-IsValid r bs v (omega arith)),
  wrap (r.tail + length bs) r.size (omega (arith, v.tail_in)),
)

advance_tail-contents :
    (r : Ring) (bs : List ℕ)
    → IsValid r
    → ring_buffer_used r + length bs < r.size
    → contents (advance_tail r bs) ≡ contents r ++ bs
unfolding advance_tail
advance_tail-contents r bs v h =
    ap (λ n. tabulate n (at_index (advance_tail r bs))) (advance_tail-used r bs v h)
    ∙ tabulate-append (ring_buffer_used r) (length bs) (at_index (advance_tail r bs))
    ∙ ap₂ ◌++◌ (tabulate-ext (ring_buffer_used r) _ _ (λ k lt. old_byte r bs k v h lt))
        (tabulate-ext (length bs) _ _ (λ j lt. new_byte r bs j v h lt) ∙ tabulate-get_or bs)

-- `write_ring_buffer` of at least one byte, for which there is room, does not abort, keeps the
-- buffer valid and appends exactly those bytes to its contents.
pub write_ring_buffer_lem :
    (r : Ring) (bs : List ℕ)
    → IsValid r
    → 0 < length bs
    → length bs ≤ ring_buffer_free r
    → (r' : Ring) × (write_ring_buffer r bs ≡ some r')
      × IsValid r'
      × (contents r' ≡ contents r ++ bs)
unfolding write_ring_buffer advance_tail
write_ring_buffer_lem r bs v pos room =
    let fits : ring_buffer_used r + length bs < r.size = omega (arith, used-lt r v) in
    (
      advance_tail r bs,
      ground arith,
      advance_tail-IsValid r bs v (omega arith),
      advance_tail-contents r bs v fits,
    )

-- `write_ring_buffer` of no bytes, or of more bytes than there is room for, aborts.
pub write_ring_buffer_abort :
    (r : Ring) (bs : List ℕ)
    → (bs ≡ []) ⊎ (ring_buffer_free r < length bs)
    → write_ring_buffer r bs ≡ none
unfolding write_ring_buffer
write_ring_buffer_abort r [] h = ground arith
write_ring_buffer_abort r (b ∷ bs) (inl e) = absurd (cc)
write_ring_buffer_abort r (b ∷ bs) (inr h) = ground arith

-- A buffer allocated for `size` bytes is valid and empty, and has room for `size` bytes.
pub alloc_ring_buffer_lem :
    (size : ℕ)
    → IsValid (alloc_ring_buffer size)
      × (contents (alloc_ring_buffer size) ≡ [])
      × (ring_buffer_free (alloc_ring_buffer size) ≡ size)
unfolding alloc_ring_buffer ring_buffer_free
alloc_ring_buffer_lem size =
    let v : IsValid (alloc_ring_buffer size) = record {
      storage = length-replicate (size + 1) 0;
      head_in = omega arith;
      tail_in = omega arith;
    } in
    let e : ring_buffer_used (alloc_ring_buffer size) ≡ 0 = ground (arith, used_cases _ v) in
    (v, ap (λ n. tabulate n (at_index (alloc_ring_buffer size))) e, omega arith)

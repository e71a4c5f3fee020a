-- ===== src/Ring.antt =====
-- 12-tcp_stack/include/ring_buffer.h (10-tcp_stack has the same file): the receive buffer of a
-- socket. One byte of the storage is never used, which tells a full buffer from an empty one.
pub mod Copy
pub mod Refine
pub mod Write
pub mod Queue
mod Tests
use computer_net_ucas.Common.{
  ℕ, zero, suc, ◌+◌, ◌-◌, ◌%◌, Bool, true, false, ◌&&◌, Option, none, some, List, [], ◌∷◌, ◌++◌,
  ltb, leb, ◌==◌, if◌then◌else◌, length, set, take, drop, replicate,
}

-- `struct ring_buffer`. Its fields are of type `int`; the sums below fit one for a size of at most
-- 2 ^ 30, and the sockets have 65535.
pub record Ring : Type 0 where
  pub size : ℕ
  pub head : ℕ
  pub tail : ℕ
  pub buf : List ℕ

-- `memcpy(buf + off, bytes, length bytes)`; a write out of bounds changes nothing.
unfoldable pub memcpy : List ℕ → ℕ → List ℕ → List ℕ
memcpy buf off [] = buf
memcpy buf off (b ∷ bs) = memcpy (set buf off b) (off + 1) bs

-- The `n` bytes that `memcpy` reads from `buf + off`.
abbrev pub slice : List ℕ → ℕ → ℕ → List ℕ
slice buf off n = take n (drop off buf)

unfoldable pub alloc_ring_buffer : ℕ → Ring
alloc_ring_buffer size = record {
  size = size + 1;
  head = 0;
  tail = 0;
  buf = replicate (size + 1) 0;
}

-- `(tail - head + size) % size`, the sum in an order that does not go below 0.
unfoldable pub ring_buffer_used : Ring → ℕ
ring_buffer_used r = (r.tail + r.size - r.head) % r.size

unfoldable pub ring_buffer_free : Ring → ℕ
unfolding ring_buffer_used
ring_buffer_free r = r.size - ring_buffer_used r - 1

unfoldable pub ring_buffer_empty : Ring → Bool
unfolding ring_buffer_used
ring_buffer_empty r = ring_buffer_used r == 0

unfoldable pub ring_buffer_full : Ring → Bool
unfolding ring_buffer_free
ring_buffer_full r = ring_buffer_free r == 0

-- `min(ring_buffer_used(rbuf), size)`.
unfoldable pub read_len : Ring → ℕ → ℕ
read_len r size = if ltb (ring_buffer_used r) size then ring_buffer_used r else size

-- The bytes that `read_ring_buffer` copies out: in one piece, or in two round the end.
unfoldable pub read_bytes : Ring → ℕ → List ℕ
read_bytes r len =
    if ltb r.size (r.head + len)
    then (let right = r.size - r.head in slice r.buf r.head right ++ slice r.buf 0 (len - right))
    else slice r.buf r.head len

-- The length returned, the bytes copied to the caller, and the buffer afterwards.
unfoldable pub read_ring_buffer : Ring → ℕ → ℕ × List ℕ × Ring
unfolding read_len read_bytes
read_ring_buffer r size =
    let len = read_len r size in
    if ltb 0 len
    then (len, read_bytes r len, record r { head = (r.head + len) % r.size })
    else (len, [], r)

-- The storage after the bytes have been copied in, in one piece or in two round the end.
unfoldable pub write_bytes : Ring → List ℕ → List ℕ
write_bytes r bs =
    if ltb r.size (r.tail + length bs)
    then (let right = r.size - r.tail in
        memcpy (memcpy r.buf r.tail (take right bs)) 0 (drop right bs))
    else memcpy r.buf r.tail bs

-- `none` is the abort of the assertion.
unfoldable pub write_ring_buffer : Ring → List ℕ → Option Ring
unfolding write_bytes ring_buffer_free
write_ring_buffer r bs =
    if ltb 0 (length bs) && leb (length bs) (ring_buffer_free r)
    then some (record r { buf = write_bytes r bs; tail = (r.tail + length bs) % r.size })
    else none

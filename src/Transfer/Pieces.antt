-- ===== src/Transfer/Pieces.antt =====
-- What it is for a packet to be a piece of a stream of bytes, and for a receiver to have its front.
use mathlib.Core.Path.{subst}
use mathlib.Core.List.{append_assoc}
use computer_net_ucas.Common.{
  All, ℕ, zero, suc, ◌+◌, ◌%◌, ◌≤◌, ◌<◌, ◌≡◌, ◌∙◌, sym, ap, ap₂, refl, inl, inr, some, List, [],
  ◌∷◌, ◌++◌, length, take, drop, some-eq, Option-cases, arith,
}
use computer_net_ucas.Word.{u32_mod, add32}
use computer_net_ucas.Ring.{Ring, write_ring_buffer}
use computer_net_ucas.Ring.Refine.{IsValid, contents}
use computer_net_ucas.Ring.Write.{write_ring_buffer_lem}
use computer_net_ucas.Transfer.{DataPacket, Peer, deliver}

pub take-nil {ℓ} : {A : Type ℓ} (n : ℕ) → take {A = A} n [] ≡ []
take-nil zero = refl
take-nil (suc n) = refl

pub take-add {ℓ} :
    {A : Type ℓ} (m n : ℕ) (xs : List A) → take (m + n) xs ≡ take m xs ++ take n (drop m xs)
take-add zero n xs = ap (λ k. take k xs) (omega arith)
take-add (suc m) n [] = take-nil (suc m + n) ∙ sym (take-nil n)
take-add (suc m) n (x ∷ xs) =
    let e : suc m + n ≡ suc (m + n) = omega arith in
    ap (λ k. take k (x ∷ xs)) e ∙ ap (λ ys. x ∷ ys) (take-add m n xs)

module _ (stream : List ℕ) (base : ℕ) where
  -- The packet carries the bytes of the stream from an offset on, and some.
  pub record IsPiece (p : DataPacket) : Type 0 where
    pub offset : ℕ
    pub inside : offset + length p.payload ≤ length stream
    pub some_bytes : 0 < length p.payload
    pub numbered : p.seq ≡ (base + offset) % u32_mod
    pub genuine : p.payload ≡ take (length p.payload) (drop offset stream)

  -- What the application has read, and what it can read, are the front of the stream up to an offset,
  -- the sequence number of which the receiver expects; the packets kept are pieces.
  pub record HasFront (read : List ℕ) (r : Peer) : Type 0 where
    pub offset : ℕ
    pub inside : offset ≤ length stream
    pub valid : IsValid r.rcv_buf
    pub expected : r.rcv_nxt ≡ (base + offset) % u32_mod
    pub front : read ++ contents r.rcv_buf ≡ take offset stream
    pub kept : All IsPiece r.rcv_ofo_buf

  -- The offset of a piece at the sequence number that the receiver expects.
  same_offset :
      (read : List ℕ) (r : Peer) (p : DataPacket) (h : HasFront read r) (q : IsPiece p)
      → length stream < u32_mod
      → p.seq ≡ r.rcv_nxt
      → q.offset ≡ h.offset
  same_offset read r p h q small e =
      omega (arith, h.expected, q.numbered, h.inside, q.inside, q.some_bytes)

  -- A buffer that takes bytes had room for them, and has them behind the others.
  write-contents :
      (b : Ring) (bs : List ℕ) (b' : Ring)
      → IsValid b
      → write_ring_buffer b bs ≡ some b'
      → IsValid b' × (contents b' ≡ contents b ++ bs)
  unfolding write_ring_buffer
  write-contents b bs b' v e =
      let (b'', done, v', grown) = write_ring_buffer_lem b bs v (ground arith) (ground arith) in
      let same : b'' ≡ b' = some-eq b'' b' (sym done ∙ e) in
      subst (λ c. IsValid c × (contents c ≡ contents b ++ bs)) same (v', grown)

  pub deliver-HasFront :
      (read : List ℕ) (r r' : Peer) (p : DataPacket)
      → length stream < u32_mod
      → HasFront read r
      → IsPiece p
      → p.seq ≡ r.rcv_nxt
      → deliver p.payload r ≡ some r'
      → HasFront read r' × (r'.rcv_ofo_buf ≡ r.rcv_ofo_buf)
  unfolding deliver
  deliver-HasFront read r r' p small h q at e =
      elim (Option-cases (write_ring_buffer r.rcv_buf p.payload)) [
        | inl full ↦ absurd (ground arith)
        | inr (b, done) ↦
            let here = same_offset read r p h q small at in
            let (v, grown) = write-contents r.rcv_buf p.payload b h.valid done in
            let n = length p.payload in
            let t : Peer = record r { rcv_buf = b; rcv_nxt = add32 r.rcv_nxt n } in
            let bytes : p.payload ≡ take n (drop h.offset stream) = rw (← here) q.genuine in
            let front : HasFront read t = record {
              offset = h.offset + n;
              inside = omega (arith, q.inside, here);
              valid = v;
              expected = omega (arith, h.expected);
              front = rw grown (
                  sym (append_assoc read (contents r.rcv_buf) p.payload)
                  ∙ ap₂ (λ xs ys. xs ++ ys) h.front bytes
                  ∙ sym (take-add h.offset n stream));
              kept = h.kept;
            } in
            let same : t ≡ r' = some-eq t r' (ground arith) in
            subst (λ (t : Peer). HasFront read t × (t.rcv_ofo_buf ≡ r.rcv_ofo_buf)) same
              (front, refl)
      ]

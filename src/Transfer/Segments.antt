-- ===== src/Transfer/Segments.antt =====
-- `tcp_sock_write` of 12-tcp_stack/tcp_sock.c: how it cuts a buffer into packets.
use mathlib.Core.Path.{subst}
use computer_net_ucas.Common.{
  ℕ, zero, suc, ◌+◌, ◌-◌, ◌%◌, ◌^◌, ◌≤◌, ◌<◌, ◌≡◌, ◌∙◌, sym, ap, refl, inl, inr, false, List, [],
  ◌∷◌, ◌++◌, ltb, length, length-take, take, drop, ltb→lt, Bool-cases, arith,
}
use computer_net_ucas.Word.{u32_mod, add32, sub32}
use computer_net_ucas.Transfer.{
  DataPacket, Peer, tcp_send_packet, data_len, write_from, tcp_sock_write,
}
use computer_net_ucas.Transfer.Pieces.{IsPiece}

length-drop {ℓ} : {A : Type ℓ} (n : ℕ) (xs : List A) → length (drop n xs) ≡ length xs - n
length-drop zero xs = omega arith
length-drop (suc n) [] = omega arith
length-drop (suc n) (x ∷ xs) = omega (arith, length-drop n xs)

drop-nil {ℓ} : {A : Type ℓ} (n : ℕ) → drop {A = A} n [] ≡ []
drop-nil zero = refl
drop-nil (suc n) = refl

drop-add {ℓ} : {A : Type ℓ} (m n : ℕ) (xs : List A) → drop (m + n) xs ≡ drop n (drop m xs)
drop-add zero n xs = ap (λ k. drop k xs) (omega arith)
drop-add (suc m) n [] = drop-nil (suc m + n) ∙ sym (drop-nil n)
drop-add (suc m) n (x ∷ xs) =
    let e : suc m + n ≡ suc (m + n) = omega arith in ap (λ k. drop k (x ∷ xs)) e ∙ drop-add m n xs

take-drop {ℓ} : {A : Type ℓ} (n : ℕ) (xs : List A) → take n xs ++ drop n xs ≡ xs
take-drop zero xs = refl
take-drop (suc n) [] = refl
take-drop (suc n) (x ∷ xs) = ap (λ ys. x ∷ ys) (take-drop n xs)

drop_all {ℓ} : {A : Type ℓ} (n : ℕ) (xs : List A) → length xs ≤ n → drop n xs ≡ []
drop_all n [] h = drop-nil n
drop_all zero (x ∷ xs) h = absurd (omega arith)
drop_all (suc n) (x ∷ xs) h = drop_all n xs (omega arith)

ltb-ge : (a b : ℕ) → ltb a b ≡ false → b ≤ a
ltb-ge a b h = ground arith

-- The data of packets, one after the other.
abbrev pub joined : List DataPacket → List ℕ
joined [] = []
joined (p ∷ ps) = p.payload ++ joined ps

-- The packets of a buffer from an offset on: pieces of it with at most `data_len` bytes, each where
-- the one before ends.
abbrev pub Follow : List ℕ → ℕ → ℕ → List DataPacket → Type 0
Follow buf seq off [] = off ≡ length buf
Follow buf seq off (p ∷ ps) =
    ((q : IsPiece buf seq p) × (q.offset ≡ off))
    × (length p.payload ≤ data_len)
    × Follow buf seq (off + length p.payload) ps

module _ (push : List DataPacket → DataPacket → List DataPacket) (buf : List ℕ) (seq : ℕ)
    (word : seq < u32_mod) (small : length buf < u32_mod) where
  abbrev bytes : Peer → ℕ → List ℕ
  bytes r size = take size (drop (sub32 r.snd_nxt seq) buf)

  abbrev packet : Peer → ℕ → DataPacket
  packet r size = record { seq = r.snd_nxt; ack = r.rcv_nxt; payload = bytes r size }

  module _ (r : Peer) (off size : ℕ) (at : r.snd_nxt ≡ (seq + off) % u32_mod) (pos : 0 < size)
      (room : off + size ≤ length buf) where
    offset_back : sub32 r.snd_nxt seq ≡ off
    offset_back = omega (arith, at, word)

    length-bytes : length (bytes r size) ≡ size
    length-bytes =
        rw offset_back (omega (arith, length-take size (drop off buf), length-drop off buf))

    packet-IsPiece : (q : IsPiece buf seq (packet r size)) × (q.offset ≡ off)
    packet-IsPiece = (
      record {
        offset = off;
        inside = omega (arith, length-bytes);
        some_bytes = omega (arith, length-bytes);
        numbered = at;
        genuine = rw length-bytes (ap (λ k. take size (drop k buf)) offset_back);
      },
      refl,
    )

  -- The state after a packet goes on where it ends.
  next_at :
      (r : Peer) (off size : ℕ)
      → r.snd_nxt ≡ (seq + off) % u32_mod
      → add32 r.snd_nxt size ≡ (seq + (off + size)) % u32_mod
  next_at r off size at = omega (arith, at)

  write_from-Follow :
      (fuel len off : ℕ) (r : Peer)
      → r.snd_nxt ≡ (seq + off) % u32_mod
      → off + len ≡ length buf
      → 0 < len
      → len ≤ fuel
      → let (ps, t) = write_from push fuel buf seq len r in
        Follow buf seq off ps × (t.snd_nxt ≡ (seq + length buf) % u32_mod)
  unfolding write_from tcp_send_packet
  write_from-Follow zero len off r at whole pos enough = absurd (omega arith)
  write_from-Follow (suc fuel) len off r at whole pos enough =
      elim (Bool-cases (ltb data_len len)) [
        | inl more ↦
            let lt : data_len < len = ltb→lt data_len len more in
            let room : off + data_len ≤ length buf = omega arith in
            let count = length-bytes r off data_len at (omega arith) room in
            let r' : Peer = (tcp_send_packet push (bytes r data_len) r).1 in
            let at' : r'.snd_nxt ≡ (seq + (off + data_len)) % u32_mod =
              rw count (next_at r off data_len at) in
            let (rest, last) =
              write_from-Follow fuel (len - data_len) (off + data_len) r' at' (omega arith)
                (omega arith) (omega arith) in
            let ps = (write_from push fuel buf seq (len - data_len) r').0 in
            let follow = subst (λ n. Follow buf seq (off + n) ps) (sym count) rest in
            rw more (
              (packet-IsPiece r off data_len at (omega arith) room, omega (arith, count), follow),
              last,
            )
        | inr last ↦
            let le : len ≤ data_len = ltb-ge data_len len last in
            let count = length-bytes r off len at pos (omega arith) in
            rw (last, count)
              (
                (packet-IsPiece r off len at pos (omega arith), le, whole),
                omega (arith, next_at r off len at, whole),
              )
      ]

-- Packets that follow one another up to the end carry the bytes of the buffer.
pub Follow-joined :
    (buf : List ℕ) (seq off : ℕ) (ps : List DataPacket)
    → Follow buf seq off ps
    → joined ps ≡ drop off buf
Follow-joined buf seq off [] e = sym (drop_all off buf (omega arith))
Follow-joined buf seq off (p ∷ ps) h =
    let (piece, here) = h.0 in
    let load : p.payload ≡ take (length p.payload) (drop off buf) = rw (← here) piece.genuine in
    ap (λ xs. xs ++ joined ps) load
    ∙ ap (λ xs. take (length p.payload) (drop off buf) ++ xs)
        (Follow-joined buf seq (off + length p.payload) ps h.2
          ∙ drop-add off (length p.payload) buf)
    ∙ take-drop (length p.payload) (drop off buf)

-- `tcp_sock_write` sends the buffer, which is not empty and shorter than 2 ^ 31 bytes, in packets of
-- at most 1460 bytes: they are pieces of it from the current sequence number on, each where the one
-- before ends, and carry the whole buffer; the sequence number goes to its end.
pub tcp_sock_write-joined :
    (push : List DataPacket → DataPacket → List DataPacket) (buf : List ℕ) (r : Peer)
    → r.snd_nxt < u32_mod
    → length buf < 2 ^ 31
    → 0 < length buf
    → let (ps, t) = tcp_sock_write push buf r in
      Follow buf r.snd_nxt 0 ps
      × (joined ps ≡ buf)
      × (t.snd_nxt ≡ (r.snd_nxt + length buf) % u32_mod)
unfolding tcp_sock_write
tcp_sock_write-joined push buf r word small pos =
    let (follow, last) =
      write_from-Follow push buf r.snd_nxt word (omega arith) (length buf) (length buf) 0 r
        (omega arith) (omega arith) pos (omega arith) in
    (follow, Follow-joined buf r.snd_nxt 0 _ follow, last)

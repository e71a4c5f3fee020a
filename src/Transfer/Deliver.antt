-- ===== src/Transfer/Deliver.antt =====
-- `handle_rcv_data` and `tcp_sock_read` of 12-tcp_stack/tcp_sock.c on the pieces of a stream: the
-- application reads its bytes, each once and in order.
use mathlib.Core.Path.{subst}
use computer_net_ucas.Common.{
  All, ℕ, suc, ◌≡◌, refl, inl, inr, Option, none, some, List, [], ◌∷◌, ◌++◌, ◌==◌, length, ==→eq,
  some-eq, Bool-cases, Option-cases, arith,
}
use computer_net_ucas.Transfer.{
  DataPacket, Peer, take_next, drain, drained, handle_rcv_data, tcp_sock_read,
}
use computer_net_ucas.Transfer.Pieces.{IsPiece}

-- What the walk takes out has the number, and what is left is shorter by it.
pub take_next_lem {ℓ} :
    (P : DataPacket → Type ℓ) (seq : ℕ) (ps : List DataPacket) (r : DataPacket × List DataPacket)
    → All P ps
    → take_next seq ps ≡ some r
    → P r.0 × (r.0.seq ≡ seq) × All P r.1 × (length ps ≡ suc (length r.1))
unfolding take_next
take_next_lem P seq [] r h e = absurd (cc)
take_next_lem P seq (p ∷ ps) r h e = elim (Bool-cases (p.seq == seq)) [
  | inl hit ↦
      subst
        (λ (r : DataPacket × List DataPacket).
          P r.0 × (r.0.seq ≡ seq) × All P r.1 × (suc (length ps) ≡ suc (length r.1)))
        (some-eq (p, ps) r (ground arith)) (h.0, ==→eq p.seq seq hit, h.1, refl)
  | inr miss ↦ elim (Option-cases (take_next seq ps)) [
    | inl missing ↦ absurd (ground arith)
    | inr (q, found) ↦
        let (pq, at, rest, count) = take_next_lem P seq ps q h.1 found in
        subst
          (λ (r : DataPacket × List DataPacket).
            P r.0 × (r.0.seq ≡ seq) × All P r.1 × (suc (length ps) ≡ suc (length r.1)))
          (some-eq (q.0, p ∷ q.1) r (ground arith)) (pq, at, (h.0, rest), omega arith)
  ]
]

pub drained_lem : (r t : Peer) → drained r ≡ some t → drain (length r.rcv_ofo_buf) r ≡ some t
drained_lem r t e = ground arith

-- A packet that arrives, or a call of `tcp_sock_read`, which sleeps where there is nothing.
pub data Event : Type 0 where
  arrive : DataPacket → Event
  read : ℕ → Event

-- What the application has read after the events.
unfoldable pub run :
    (List DataPacket → ℕ → List DataPacket) → List Event → List ℕ → Peer → Option (List ℕ × Peer)
unfolding handle_rcv_data tcp_sock_read
run delete [] got r = some (got, r)
run delete (arrive p ∷ es) got r = elim (handle_rcv_data delete p r) [
  | none ↦ none
  | some (out, t) ↦ run delete es got t
]
run delete (read n ∷ es) got r = elim (tcp_sock_read n r) [
  | none ↦ run delete es got r
  | some (bytes, t) ↦ run delete es (got ++ bytes) t
]

abbrev pub OnlyPieces : List ℕ → ℕ → Event → Type 0
OnlyPieces stream base (arrive p) = IsPiece stream base p
OnlyPieces stream base (read n) = Unit

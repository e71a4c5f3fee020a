-- ===== src/Mospf/Spread.antt =====
-- `update_rtable` of 07-mospf/mospf_daemon.c as a whole: the routes that it adds.
use mathlib.Core.Path.{subst}
use computer_net_ucas.Common.{
  All, ℕ, zero, suc, ◌+◌, ◌≡◌, refl, inl, inr, ◌⊎◌, some, List, [], ◌∷◌, length, get_or, arith,
}
use computer_net_ucas.Packet.{Iface}
use computer_net_ucas.Mospf.{Nbr}
use computer_net_ucas.Mospf.Places.{IsBelow}
use computer_net_ucas.Mospf.Found.{Has, IsVisited, IsSearch, trues-le}
use computer_net_ucas.Mospf.Sweep.{Looked, reach_row-total}
use computer_net_ucas.Mospf.Routes.{mn, RNode, Search, search}

List-cases {ℓ} : {A : Type ℓ} (xs : List A) → (xs ≡ []) ⊎ ((x : A) × (ys : List A) × (xs ≡ x ∷ ys))
List-cases [] = inl refl
List-cases (x ∷ xs) = inr (x, xs, refl)

row-IsBelow :
    (n i : ℕ) (rows : List (List ℕ))
    → All (All (IsBelow n)) rows
    → All (IsBelow n) (get_or rows i [])
row-IsBelow n i [] h = tt
row-IsBelow n zero (r ∷ rows) h = h.0
row-IsBelow n (suc i) (r ∷ rows) h = row-IsBelow n i rows h.1

module _ (junk : RNode) (nbrs : List (Iface × Nbr)) (ns : List RNode) (rows : List (List ℕ))
    (below : All (All (IsBelow (length ns))) rows) where
  abbrev Holds : Search → Type 0
  Holds = IsSearch junk nbrs ns rows

  -- A node is in the queue, or what it advertises is visited.
  abbrev IsClosed : Search → Type 0
  IsClosed s =
      (k : ℕ)
      → IsVisited s k
      → Has k s.pending ⊎ ((j : ℕ) → Has j (get_or rows k []) → IsVisited s j)

  round-IsClosed :
      (th : ℕ) (rest : List ℕ) (s t : Search)
      → s.pending ≡ th ∷ rest
      → IsClosed s
      → Looked junk nbrs ns rows (get_or rows th []) (record s { pending = rest }) t
      → IsClosed t
  round-IsClosed th rest s t e closed looked k v = elim (looked.extends.waiting k v) [
    | inr queued ↦ inl queued
    | inl before ↦ elim (closed k before) [
      | inr done ↦ inr (λ j has. looked.extends.kept j (done j has))
      | inl queued ↦ from_queue (rw e at queued)
    ]
  ]
    where
      from_queue :
          Has k (th ∷ rest) → Has k t.pending ⊎ ((j : ℕ) → Has j (get_or rows k []) → IsVisited t j)
      from_queue (inl same) =
          inr (
            subst (λ k. (j : ℕ) → Has j (get_or rows k []) → IsVisited t j) same looked.all_visited)
      from_queue (inr later) = inl (looked.extends.still k later)

  pop-Holds :
      (th : ℕ) (rest : List ℕ) (s : Search)
      → s.pending ≡ th ∷ rest
      → Holds s
      → Holds (record s { pending = rest })
  pop-Holds th rest s e h = record {
    nodes_length = h.nodes_length;
    visit_length = h.visit_length;
    small = h.small;
    rids = h.rids;
    networks = h.networks;
    masks = h.masks;
    tail_count = h.tail_count;
    queued = (rw e at h.queued).1;
    reached = h.reached;
    linked = h.linked;
    served = h.served;
    routed = h.routed;
  }

  pub search-total :
      (fuel : ℕ) (s : Search)
      → Holds s
      → IsClosed s
      → fuel + s.tail ≡ mn + length s.pending
      → (t : Search) × (search junk rows fuel s ≡ some t)
        × Holds t
        × IsClosed t
        × (t.pending ≡ [])
        × ((k : ℕ) → IsVisited s k → IsVisited t k)
  unfolding search
  search-total zero s h closed e = elim (List-cases s.pending) [
    | inl done ↦ (s, rw done, h, closed, done, λ k v. v)
    | inr (th, rest, more) ↦
        absurd (ground (arith, trues-le s.visit, h.tail_count, h.small, h.visit_length))
  ]
  search-total (suc fuel) s h closed e = elim (List-cases s.pending) [
    | inl done ↦ (s, rw done, h, closed, done, λ k v. v)
    | inr (th, rest, more) ↦
        let popped = pop-Holds th rest s more h in
        let seen : IsVisited s th = (rw more at h.queued).0.1 in
        let (t, one, looked) =
          reach_row-total junk nbrs ns rows th (get_or rows th []) (record s { pending = rest })
            popped seen (λ k has. has) (row-IsBelow (length ns) th rows below) in
        let left : fuel + t.tail ≡ mn + length t.pending = ground (arith, looked.extends.backlog) in
        let (u, all, valid, closed', empty, kept) =
          search-total fuel t looked.valid (round-IsClosed th rest s t more closed looked) left in
        (u, ground arith, valid, closed', empty, λ k v. kept k (looked.extends.kept k v))
  ]

-- ===== src/Mospf/Table.antt =====
-- `update_rtable` of 07-mospf/mospf_daemon.c as a whole: it ends without a write past its arrays, and
-- the routes that it adds are those to the nodes that the graph links to a neighbour.
use mathlib.Core.Path.{subst}
use computer_net_ucas.Common.{
  All, ℕ, zero, suc, ◌<◌, ◌≡◌, ◌≢◌, ◌∙◌, sym, refl, inl, inr, ◌⊎◌, Bool, false, none, some, List,
  [], ◌∷◌, ◌++◌, ◌==◌, length, length-replicate, get_or, keep, replicate, some-eq, arith,
}
use computer_net_ucas.Packet.{Iface}
use computer_net_ucas.Forward.{RtEntry}
use computer_net_ucas.Mospf.{Nbr, MospfIface, DbEntry}
use computer_net_ucas.Mospf.Places.{IsPlaced, graph_of-IsPlaced, Fits, graph_of-total}
use computer_net_ucas.Mospf.Found.{
  Has, IsRouted, IsServed, IsNbr, AllKnown, Distinct, IsVisited, Linked, IsSearch, trues,
}
use computer_net_ucas.Mospf.Seeds.{AllFresh, seed_all-total}
use computer_net_ucas.Mospf.Routes.{
  mn, Graph, RNode, Search, all_nbrs, start, seed_all, graph_of, search, update_rtable,
}
use computer_net_ucas.Mospf.Spread.{search-total}

known_after :
    (x : Iface × Nbr) (nbrs xs : List (Iface × Nbr)) → AllKnown nbrs xs → AllKnown (x ∷ nbrs) xs
known_after x nbrs [] h = tt
known_after x nbrs (y ∷ ys) h = ((inr h.0.0, inr h.0.1), known_after x nbrs ys h.1)

all_known : (nbrs : List (Iface × Nbr)) → AllKnown nbrs nbrs
all_known [] = tt
all_known (x ∷ xs) = ((inl (refl, refl), inl refl), known_after x xs xs (all_known xs))

replicate-false : (n k : ℕ) → get_or (replicate n false) k false ≡ false
replicate-false zero k = refl
replicate-false (suc n) zero = refl
replicate-false (suc n) (suc k) = replicate-false n k

replicate-trues : (n : ℕ) → trues (replicate n false) ≡ 0
replicate-trues zero = refl
replicate-trues (suc n) = omega (arith, replicate-trues n)

module _ (junk : RNode) (nbrs : List (Iface × Nbr)) (g : Graph) (placed : IsPlaced g) where
  unseen {ℓ} : {P : Type ℓ} (k : ℕ) → IsVisited (start g.nodes) k → P
  unseen k v = absurd (cc (replicate-false (length g.nodes) k))

  start-IsSearch : IsSearch junk nbrs g.nodes g.rows (start g.nodes)
  start-IsSearch = record {
    nodes_length = refl;
    visit_length = length-replicate (length g.nodes) false;
    small = placed.1;
    rids = λ k. refl;
    networks = λ k. refl;
    masks = λ k. refl;
    tail_count = sym (replicate-trues (length g.nodes));
    queued = tt;
    reached = λ k v. unseen k v;
    linked = λ k v. unseen k v;
    served = λ k v. unseen k v;
    routed = tt;
  }

  -- The arrays after the search: every linked node is visited.
  spread :
      Distinct nbrs
      → (s t : Search) × (seed_all junk nbrs (start g.nodes) ≡ some s)
        × (search junk g.rows mn s ≡ some t)
        × IsSearch junk nbrs g.nodes g.rows t
        × ((k : ℕ) → Linked junk nbrs g.nodes g.rows k → IsVisited t k)
  spread distinct =
      let (s, seeds, valid, more, found) =
        seed_all-total junk nbrs g.nodes g.rows nbrs (start g.nodes) start-IsSearch (all_known nbrs)
          distinct (all_fresh nbrs) in
      let (t, rounds, valid', closed, empty, kept) =
        search-total junk nbrs g.nodes g.rows placed.0 mn s valid
          (λ k v. elim (more.waiting k v) [
            | inl before ↦ unseen k before
            | inr queued ↦ inl queued
          ])
          (omega (arith, more.backlog)) in
      (s, t, seeds, rounds, valid', reach t (λ k lt is. kept k (found k lt is)) closed empty)
    where
      reach :
          (t : Search)
          → ((k : ℕ) → k < length g.nodes → IsNbr nbrs (get_or g.nodes k junk).rid → IsVisited t k)
          → ((k : ℕ)
              → IsVisited t k
              → Has k t.pending ⊎ ((j : ℕ) → Has j (get_or g.rows k []) → IsVisited t j))
          → t.pending ≡ []
          → (k : ℕ) → Linked junk nbrs g.nodes g.rows k
          → IsVisited t k
      reach t seeds closed empty k (Linked.nbr inside is) = seeds k inside is
      reach t seeds closed empty k (Linked.hop {i} from has) =
          elim (closed i (reach t seeds closed empty i from)) [
            | inl queued ↦ absurd (rw empty at queued)
            | inr done ↦ done k has
          ]

      all_fresh : (xs : List (Iface × Nbr)) → AllFresh junk nbrs g.nodes g.rows (start g.nodes) xs
      all_fresh [] = tt
      all_fresh (x ∷ xs) = (λ k le same. replicate-false (length g.nodes) k, all_fresh xs)

abbrev pub is_direct : RtEntry → Bool
is_direct e = e.gw == 0

module _ (junk : RNode) (ifaces : List MospfIface) (db : List DbEntry) (rtable : List RtEntry)
    (fits : Fits db) (distinct : Distinct (all_nbrs ifaces)) where
  -- The run of `update_rtable`, with the graph and the arrays at its end.
  run :
      (g : Graph) × (t : Search) × (graph_of junk db ≡ some g)
      × (update_rtable junk ifaces db rtable ≡ some (keep is_direct rtable ++ t.added))
      × IsSearch junk (all_nbrs ifaces) g.nodes g.rows t
      × ((k : ℕ) → Linked junk (all_nbrs ifaces) g.nodes g.rows k → IsVisited t k)
  unfolding update_rtable
  run =
      let (g, built) = graph_of-total junk db fits in
      let (s, t, seeds, rounds, valid, linked) =
        spread junk (all_nbrs ifaces) g (graph_of-IsPlaced junk db g built) distinct in
      (g, t, built, ground arith, valid, linked)

  -- Where the topology fits the arrays and no router is twice among the neighbours, the update ends
  -- after at most `mn` rounds and without a write past an array.
  pub update_rtable-total : update_rtable junk ifaces db rtable ≢ none
  update_rtable-total e = let (g, t, built, done, valid, linked) = run in absurd (cc)

  -- Where the topology fits the arrays and no router is twice among the neighbours, an update that
  -- ends keeps the direct routes and adds others: each goes by a neighbour, on its interface and
  -- with its address as the gateway, to the network of a node that the graph links to a neighbour;
  -- and each such node is that of a neighbour or has a route to its network.
  pub update_rtable-routes :
      (g : Graph) (rt : List RtEntry)
      → graph_of junk db ≡ some g
      → update_rtable junk ifaces db rtable ≡ some rt
      → (new : List RtEntry) × (rt ≡ keep is_direct rtable ++ new)
        × All (IsRouted junk (all_nbrs ifaces) g.nodes g.rows) new
        × ((k : ℕ)
            → Linked junk (all_nbrs ifaces) g.nodes g.rows k
            → IsServed junk (all_nbrs ifaces) g.nodes g.rows new k)
  update_rtable-routes g rt built done =
      let (g', t, built', done', valid, linked) = run in
      let same : g' ≡ g = some-eq g' g (sym built' ∙ built) in
      (
        t.added,
        some-eq _ _ (sym done ∙ done'),
        subst (λ (g : Graph). All (IsRouted junk (all_nbrs ifaces) g.nodes g.rows) t.added) same
            valid.routed,
        subst
            (λ (g : Graph).
              (k : ℕ)
              → Linked junk (all_nbrs ifaces) g.nodes g.rows k
              → IsServed junk (all_nbrs ifaces) g.nodes g.rows t.added k)
            same (λ k link. valid.served k (linked k link)),
      )

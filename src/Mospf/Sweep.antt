-- ===== src/Mospf/Sweep.antt =====
-- The last loop of `update_rtable` of 07-mospf/mospf_daemon.c: it ends within its rounds, and visits
-- every node that the graph links to a neighbour.
use mathlib.Core.Path.{subst}
use computer_net_ucas.Common.{
  All, All-append, ℕ, ◌<◌, ◌≡◌, refl, inl, inr, ◌⊎◌, false, some, List, [], ◌∷◌, ◌++◌, length,
  get_or, set, Bool-cases, arith,
}
use computer_net_ucas.Packet.{Iface}
use computer_net_ucas.Forward.{RtEntry, new_rt_entry}
use computer_net_ucas.Mospf.{Nbr}
use computer_net_ucas.Mospf.Places.{IsBelow}
use computer_net_ucas.Mospf.Found.{Has, LeadsTo, HasRoute, IsVisited, Linked, IsSearch}
use computer_net_ucas.Mospf.Rounds.{
  mark, mark-Extends, enqueue-mark, mark_self, mark-IsSearch, Extends, Extends-refl, Extends-trans,
}
use computer_net_ucas.Mospf.Routes.{RNode, Search, enqueue, node_at, via, reach_row}

pub HasRoute-append :
    (n : RNode) (es fs : List RtEntry) → HasRoute n es ⊎ HasRoute n fs → HasRoute n (es ++ fs)
HasRoute-append n [] fs (inl h) = absurd h
HasRoute-append n [] fs (inr h) = h
HasRoute-append n (e ∷ es) fs (inl (inl h)) = inl h
HasRoute-append n (e ∷ es) fs (inl (inr h)) = inr (HasRoute-append n es fs (inl h))
HasRoute-append n (e ∷ es) fs (inr h) = inr (HasRoute-append n es fs (inr h))

module _ (junk : RNode) (nbrs : List (Iface × Nbr)) (ns : List RNode) (rows : List (List ℕ)) where
  abbrev Holds : Search → Type 0
  Holds = IsSearch junk nbrs ns rows

  -- After the nodes of `row` were looked at from node `th`.
  pub record Looked (row : List ℕ) (s t : Search) : Type 0 where
    pub valid : Holds t
    pub extends : Extends s t
    pub all_visited : (k : ℕ) → Has k row → IsVisited t k

  module _ (th : ℕ) (s : Search) (h : Holds s) (seen : IsVisited s th) (next : ℕ)
      (linked : Has next (get_or rows th [])) (inside : next < length ns)
      (new : get_or s.visit next false ≡ false) where
    abbrev route : RtEntry
    route =
        new_rt_entry (node_at junk s next).network (node_at junk s next).mask (node_at junk s th).gw
          (node_at junk s th).iface

    abbrev routes : List RtEntry
    routes = s.added ++ (route ∷ [])

    abbrev hopped : Search
    hopped =
        mark junk next (node_at junk s th).iface (node_at junk s th).gw (s.added ++ (route ∷ [])) s

    hop-Holds : Holds hopped
    hop-Holds =
        let link = Linked.hop (h.linked th seen) linked in
        let fields : LeadsTo (get_or ns next junk) route = (h.networks next, h.masks next) in
        mark-IsSearch junk nbrs ns rows s h next inside new (node_at junk s th).iface
          (node_at junk s th).gw routes (h.reached th seen) link
          (inr (HasRoute-append (get_or ns next junk) s.added (route ∷ []) (inr (inl fields))))
          (λ k old. elim old [
            | inl near ↦ inl near
            | inr far ↦ inr (HasRoute-append (get_or ns k junk) s.added (route ∷ []) (inl far))
          ])
          (All-append _ s.added (route ∷ []) h.routed
            ((h.reached th seen, (next, link, fields)), tt))

    hop-enqueue :
        enqueue next (record s {
          nodes =
              set s.nodes next
                (via (node_at junk s th).iface (node_at junk s th).gw (node_at junk s next));
          added = s.added ++ (route ∷ []);
        })
        ≡ some hopped
    hop-enqueue =
        enqueue-mark junk nbrs ns rows s h next inside new (node_at junk s th).iface
          (node_at junk s th).gw routes

    hop-Looked : (row : List ℕ) (t : Search) → Looked row hopped t → Looked (next ∷ row) s t
    hop-Looked row t rest = record {
      valid = rest.valid;
      extends =
          Extends-trans s hopped t
            (mark-Extends junk nbrs ns rows s h next inside new (node_at junk s th).iface
              (node_at junk s th).gw routes)
            rest.extends;
      all_visited = λ k has. elim has [
        | inl same ↦ subst (IsVisited t) same (
            rest.extends.kept next (
              mark_self junk nbrs ns rows s h next inside new (node_at junk s th).iface
                (node_at junk s th).gw routes))
        | inr later ↦ rest.all_visited k later
      ];
    }

  old_Looked :
      (row : List ℕ) (s t : Search) (next : ℕ)
      → IsVisited s next
      → Looked row s t
      → Looked (next ∷ row) s t
  old_Looked row s t next old rest = record {
    valid = rest.valid;
    extends = rest.extends;
    all_visited = λ k has. elim has [
      | inl same ↦ subst (IsVisited t) same (rest.extends.kept next old)
      | inr later ↦ rest.all_visited k later
    ];
  }

  pub reach_row-total :
      (th : ℕ) (row : List ℕ) (s : Search)
      → Holds s
      → IsVisited s th
      → ((k : ℕ) → Has k row → Has k (get_or rows th []))
      → All (IsBelow (length ns)) row
      → (t : Search) × (reach_row junk th row s ≡ some t) × Looked row s t
  unfolding reach_row
  reach_row-total th [] s h seen linked below =
      (s, refl, record { valid = h; extends = Extends-refl s; all_visited = λ k no. absurd no })
  reach_row-total th (next ∷ row) s h seen linked below =
      elim (Bool-cases (get_or s.visit next false)) [
        | inl old ↦
            let (t, done, rest) =
              reach_row-total th row s h seen (λ k has. linked k (inr has)) below.1 in
            (t, ground arith, old_Looked row s t next old rest)
        | inr new ↦
            let to_next = linked next (inl refl) in
            let s' : Search = hopped th s h seen next to_next below.0 new in
            let marked = hop-enqueue th s h seen next to_next below.0 new in
            let seen' =
              (mark-Extends junk nbrs ns rows s h next below.0 new (node_at junk s th).iface
                  (node_at junk s th).gw (routes th s h seen next to_next below.0 new)).kept
                th seen in
            let (t, done, rest) =
              reach_row-total th row s' (hop-Holds th s h seen next to_next below.0 new) seen'
                (λ k has. linked k (inr has)) below.1 in
            (t, ground arith, hop-Looked th s h seen next to_next below.0 new row t rest)
      ]

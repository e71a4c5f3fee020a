-- ===== src/Mospf/Routes.antt =====
-- 07-mospf/mospf_daemon.c: `update_rtable`. The arrays on the stack hold what has been written to
-- them so far; a write past their end is a fault, as is a row of more than 5 advertisements. What
-- the stack left in a field is an argument. The array of an entry has `nadv` advertisements. The
-- removal and the addition of routes are functions of libipstack.a, taken at their names.
use computer_net_ucas.Common.{
  ℕ, zero, suc, ◌+◌, Bool, true, false, Option, none, some, List, [], ◌∷◌, ◌++◌, ltb, ◌==◌,
  if◌then◌else◌, length, get_or, set, keep, replicate, map,
}
use computer_net_ucas.Packet.{Iface}
use computer_net_ucas.Forward.{RtEntry, new_rt_entry}
use computer_net_ucas.Mospf.{Nbr, MospfIface, Lsa, DbEntry}

-- `MN` and `MNBR`.
abbrev pub mn : ℕ
mn = 25

abbrev pub mnbr : ℕ
mnbr = 5

-- `rnode_t`.
pub record RNode : Type 0 where
  pub rid : ℕ
  pub gw : ℕ
  pub mask : ℕ
  pub network : ℕ
  pub nadv : ℕ
  pub iface : Iface

-- The arrays `rnode` and `graph`; row `i` is that of the `i`-th entry of the database.
pub record Graph : Type 0 where
  pub nodes : List RNode
  pub rows : List (List ℕ)

-- The first loop: a node for each entry.
abbrev pub entry_nodes : RNode → List DbEntry → List RNode
entry_nodes junk = map λ e. record junk { nadv = e.nadv; rid = e.rid }

abbrev pub or_index : Option ℕ → ℕ → ℕ
or_index none i = i
or_index (some j) i = j

-- The inner loop: every node with the identification of the advertisement takes its mask and
-- network, and the last one is its place in the graph.
unfoldable pub last_match : ℕ → Lsa → List RNode → Option ℕ
last_match l a [] = none
last_match l a (n ∷ ns) =
    let rest = last_match (l + 1) a ns in if n.rid == a.rid then some (or_index rest l) else rest

abbrev pub name_node : Lsa → RNode → RNode
name_node a n = if n.rid == a.rid then record n { mask = a.mask; network = a.network } else n

-- A node of its own for what no node matches.
abbrev pub stub_node : RNode → Lsa → RNode
stub_node junk a = record junk { rid = a.network; mask = a.mask; network = a.network; nadv = 0 }

-- The place of an advertisement in the graph, and the nodes after it.
unfoldable pub place_lsa : RNode → Lsa → List RNode → Option (ℕ × List RNode)
unfolding last_match
place_lsa junk a ns = elim (last_match 0 a ns) [
  | some l ↦ some (l, map (name_node a) ns)
  | none ↦ if ltb (length ns) mn then some (length ns, ns ++ (stub_node junk a ∷ [])) else none
]

-- The row of an entry, from slot `j` on.
unfoldable pub place_row : RNode → ℕ → List Lsa → List RNode → Option (List ℕ × List RNode)
unfolding place_lsa
place_row junk j [] ns = some ([], ns)
place_row junk j (a ∷ ads) ns =
    if ltb j mnbr
    then elim (place_lsa junk a ns) [
      | none ↦ none
      | some (l, ns') ↦ elim (place_row junk (j + 1) ads ns') [
        | none ↦ none
        | some (row, ns'') ↦ some (l ∷ row, ns'')
      ]
    ]
    else none

-- The second loop, over the entries.
unfoldable pub place_rows : RNode → List DbEntry → List RNode → Option Graph
unfolding place_row
place_rows junk [] ns = some (record { nodes = ns; rows = [] })
place_rows junk (e ∷ es) ns = elim (place_row junk 0 e.array ns) [
  | none ↦ none
  | some (row, ns') ↦ elim (place_rows junk es ns') [
    | none ↦ none
    | some g ↦ some (record g { rows = row ∷ g.rows })
  ]
]

unfoldable pub graph_of : RNode → List DbEntry → Option Graph
unfolding place_rows
graph_of junk db = if ltb mn (length db) then none else place_rows junk db (entry_nodes junk db)

-- `visit`, the rest of `queue` that is still to be read, how much of it has been written, and the
-- routes added.
pub record Search : Type 0 where
  pub nodes : List RNode
  pub visit : List Bool
  pub pending : List ℕ
  pub tail : ℕ
  pub added : List RtEntry

abbrev pub enqueue : ℕ → Search → Option Search
enqueue i s =
    if ltb s.tail mn
    then some (record s {
      visit = set s.visit i true;
      pending = s.pending ++ (i ∷ []);
      tail = s.tail + 1;
    })
    else none

abbrev pub node_at : RNode → Search → ℕ → RNode
node_at junk s i = get_or s.nodes i junk

abbrev pub via : Iface → ℕ → RNode → RNode
via iface gw n = record n { iface = iface; gw = gw }

-- The third loop: the nodes of the neighbours, of which there are `n` from index `i` on.
unfoldable pub seed_from : RNode → Iface → Nbr → ℕ → ℕ → Search → Option Search
seed_from junk iface nbr zero i s = some s
seed_from junk iface nbr (suc n) i s =
    if (node_at junk s i).rid == nbr.nbr_id
    then elim (enqueue i
        (record s { nodes = set s.nodes i (via iface nbr.nbr_ip (node_at junk s i)) })) [
          | none ↦ none
          | some t ↦ seed_from junk iface nbr n (i + 1) t
        ]
    else seed_from junk iface nbr n (i + 1) s

-- The neighbours in the order of the loops, each with its interface.
abbrev pub all_nbrs : List MospfIface → List (Iface × Nbr)
all_nbrs [] = []
all_nbrs (i ∷ is) = map (λ n. (i.iface, n)) i.nbr_list ++ all_nbrs is

unfoldable pub seed_all : RNode → List (Iface × Nbr) → Search → Option Search
unfolding seed_from
seed_all junk [] s = some s
seed_all junk ((iface, nbr) ∷ ns) s = elim (seed_from junk iface nbr (length s.nodes) 0 s) [
  | none ↦ none
  | some t ↦ seed_all junk ns t
]

-- One advertised node, seen from node `th`.
unfoldable pub reach_node : RNode → RNode → ℕ → Search → Option Search
reach_node junk th next s =
    if get_or s.visit next false
    then some s
    else enqueue next (record s {
      nodes = set s.nodes next (via th.iface th.gw (node_at junk s next));
      added =
          s.added
          ++ (new_rt_entry (node_at junk s next).network (node_at junk s next).mask th.gw th.iface
              ∷ []);
    })

unfoldable pub reach_row : RNode → ℕ → List ℕ → Search → Option Search
unfolding reach_node
reach_row junk th [] s = some s
reach_row junk th (next ∷ row) s = elim (reach_node junk (node_at junk s th) next s) [
  | none ↦ none
  | some t ↦ reach_row junk th row t
]

-- The last loop, for at most `fuel` rounds; none is also that there were more.
unfoldable pub search : RNode → List (List ℕ) → ℕ → Search → Option Search
unfolding reach_row
search junk rows zero s = elim s.pending [ [] ↦ some s | th ∷ rest ↦ none ]
search junk rows (suc fuel) s = elim s.pending [
  | [] ↦ some s
  | th ∷ rest ↦ elim (reach_row junk th (get_or rows th []) (record s { pending = rest })) [
    | none ↦ none
    | some t ↦ search junk rows fuel t
  ]
]

abbrev pub start : List RNode → Search
start ns = record {
  nodes = ns;
  visit = replicate (length ns) false;
  pending = [];
  tail = 0;
  added = [];
}

-- `update_rtable` removes the entries with a gateway and adds the routes found.
unfoldable pub update_rtable :
    RNode → List MospfIface → List DbEntry → List RtEntry → Option (List RtEntry)
unfolding graph_of seed_all search
update_rtable junk ifaces db rtable = elim (graph_of junk db) [
  | none ↦ none
  | some g ↦ elim (seed_all junk (all_nbrs ifaces) (start g.nodes)) [
    | none ↦ none
    | some s ↦ elim (search junk g.rows mn s) [
      | none ↦ none
      | some t ↦ some (keep (λ (e : RtEntry). e.gw == 0) rtable ++ t.added)
    ]
  ]
]

-- ===== src/Mospf/Found.antt =====
-- What the breadth-first search of `update_rtable` of 07-mospf/mospf_daemon.c is about: the nodes that
-- the graph links to a neighbour, and the arrays in the course of the search.
use computer_net_ucas.Common.{
  All, ℕ, zero, suc, ◌+◌, ◌≤◌, ◌<◌, ◌≡◌, ◌≢◌, ◌⊎◌, Bool, true, false, List, [], ◌∷◌, ◌++◌, inl, inr,
  if◌then◌else◌, length, get_or, set, arith,
}
use computer_net_ucas.Packet.{Iface}
use computer_net_ucas.Forward.{RtEntry}
use computer_net_ucas.Mospf.{Nbr}
use computer_net_ucas.Mospf.Routes.{mn, RNode, Search, node_at}

-- An interface and an address that are those of a neighbour.
abbrev pub Among : List (Iface × Nbr) → Iface → ℕ → Type 0
Among [] iface gw = ⊥
Among ((i, n) ∷ ns) iface gw = ((i ≡ iface) × (n.nbr_ip ≡ gw)) ⊎ Among ns iface gw

-- The identification of a neighbour.
abbrev pub IsNbr : List (Iface × Nbr) → ℕ → Type 0
IsNbr [] id = ⊥
IsNbr ((i, n) ∷ ns) id = (n.nbr_id ≡ id) ⊎ IsNbr ns id

abbrev pub AllKnown : List (Iface × Nbr) → List (Iface × Nbr) → Type 0
AllKnown nbrs = All λ (x : Iface × Nbr). Among nbrs x.0 x.1.nbr_ip × IsNbr nbrs x.1.nbr_id

-- No router is twice among neighbours.
abbrev pub Distinct : List (Iface × Nbr) → Type 0
Distinct [] = Unit
Distinct (x ∷ xs) = All (λ (y : Iface × Nbr). x.1.nbr_id ≢ y.1.nbr_id) xs × Distinct xs

abbrev pub Has : ℕ → List ℕ → Type 0
Has k [] = ⊥
Has k (i ∷ is) = (i ≡ k) ⊎ Has k is

pub Has-append : (k : ℕ) (is js : List ℕ) → Has k is ⊎ Has k js → Has k (is ++ js)
Has-append k [] js (inl h) = absurd h
Has-append k [] js (inr h) = h
Has-append k (i ∷ is) js (inl (inl h)) = inl h
Has-append k (i ∷ is) js (inl (inr h)) = inr (Has-append k is js (inl h))
Has-append k (i ∷ is) js (inr h) = inr (Has-append k is js (inr h))

-- A route to the network of a node.
abbrev pub LeadsTo : RNode → RtEntry → Type 0
LeadsTo n e = (e.dest ≡ n.network) × (e.mask ≡ n.mask)

abbrev pub HasRoute : RNode → List RtEntry → Type 0
HasRoute n [] = ⊥
HasRoute n (e ∷ es) = LeadsTo n e ⊎ HasRoute n es

abbrev pub trues : List Bool → ℕ
trues [] = 0
trues (b ∷ bs) = (if b then 1 else 0) + trues bs

pub trues-le : (bs : List Bool) → trues bs ≤ length bs
trues-le [] = omega arith
trues-le (b ∷ bs) = ground (arith, trues-le bs)

pub trues-lt :
    (bs : List Bool) (i : ℕ) → i < length bs → get_or bs i false ≡ false → trues bs < length bs
trues-lt [] i h e = absurd (omega arith)
trues-lt (b ∷ bs) zero h e = ground (arith, trues-le bs)
trues-lt (b ∷ bs) (suc i) h e = ground (arith, trues-lt bs i (omega arith) e)

pub trues-set :
    (bs : List Bool) (i : ℕ)
    → i < length bs
    → get_or bs i false ≡ false
    → trues (set bs i true) ≡ trues bs + 1
trues-set [] i h e = absurd (omega arith)
trues-set (b ∷ bs) zero h e = ground arith
trues-set (b ∷ bs) (suc i) h e = ground (arith, trues-set bs i (omega arith) e)

abbrev pub IsVisited : Search → ℕ → Type 0
IsVisited s i = get_or s.visit i false ≡ true

-- The nodes `ns` and the rows of a graph, and the neighbours.
module _ (junk : RNode) (nbrs : List (Iface × Nbr)) (ns : List RNode) (rows : List (List ℕ)) where
  -- The graph links a node to a neighbour: the node is that of the neighbour, or a linked node
  -- advertises it.
  pub data Linked : ℕ → Type 0 where
    nbr : {k : ℕ} → k < length ns → IsNbr nbrs (get_or ns k junk).rid → Linked k
    hop : {i k : ℕ} → Linked i → Has k (get_or rows i []) → Linked k

  -- A route goes by a neighbour to the network of a linked node.
  abbrev pub IsRouted : RtEntry → Type 0
  IsRouted e = Among nbrs e.iface e.gw × ((k : ℕ) × Linked k × LeadsTo (get_or ns k junk) e)

  -- A node is that of a neighbour, or a route leads to its network.
  abbrev pub IsServed : List RtEntry → ℕ → Type 0
  IsServed added k = IsNbr nbrs (get_or ns k junk).rid ⊎ HasRoute (get_or ns k junk) added

  pub record IsSearch (s : Search) : Type 0 where
    pub nodes_length : length s.nodes ≡ length ns
    pub visit_length : length s.visit ≡ length ns
    pub small : length ns ≤ mn
    pub rids : (k : ℕ) → (node_at junk s k).rid ≡ (get_or ns k junk).rid
    pub networks : (k : ℕ) → (node_at junk s k).network ≡ (get_or ns k junk).network
    pub masks : (k : ℕ) → (node_at junk s k).mask ≡ (get_or ns k junk).mask
    pub tail_count : s.tail ≡ trues s.visit
    pub queued : All (λ i. (i < length ns) × IsVisited s i) s.pending
    pub reached :
        (k : ℕ) → IsVisited s k → Among nbrs (node_at junk s k).iface (node_at junk s k).gw
    pub linked : (k : ℕ) → IsVisited s k → Linked k
    pub served : (k : ℕ) → IsVisited s k → IsServed s.added k
    pub routed : All IsRouted s.added

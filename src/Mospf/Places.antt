-- ===== src/Mospf/Places.antt =====
-- The graph of `update_rtable` of 07-mospf/mospf_daemon.c: every advertisement has the place of a
-- node, and which topologies fit the arrays.
use mathlib.Core.Path.{subst}
use computer_net_ucas.Common.{
  some-eq, All, ℕ, ◌+◌, ◌≤◌, ◌<◌, ◌≡◌, refl, inl, inr, some, List, [], ◌∷◌, ◌++◌, length,
  length-append, ltb, map, Bool-cases, Option-cases, arith,
}
use computer_net_ucas.Mospf.{Lsa, DbEntry}
use computer_net_ucas.Mospf.Counts.{length-map}
use computer_net_ucas.Mospf.Routes.{
  mn, mnbr, RNode, Graph, entry_nodes, last_match, name_node, stub_node, place_lsa, place_row,
  place_rows, graph_of,
}

last_match-lt :
    (l : ℕ) (a : Lsa) (ns : List RNode) (k : ℕ) → last_match l a ns ≡ some k → k < l + length ns
unfolding last_match
last_match-lt l a [] k e = absurd (cc)
last_match-lt l a (n ∷ ns) k e = elim (Option-cases (last_match (l + 1) a ns)) [
  | inl last ↦ ground arith
  | inr (k', later) ↦ ground (arith, last_match-lt (l + 1) a ns k' later)
]

-- What a step of the second loop leaves: the place is that of a node, and the nodes grow by one at most.
Placed : ℕ → List RNode → List RNode → Type 0
Placed l ns ns' =
    (l < length ns')
    × (length ns ≤ length ns')
    × (length ns' ≤ length ns + 1)
    × (length ns ≤ mn → length ns' ≤ mn)

place_lsa-Placed :
    (junk : RNode) (a : Lsa) (ns : List RNode) (r : ℕ × List RNode)
    → place_lsa junk a ns ≡ some r
    → Placed r.0 ns r.1
unfolding place_lsa Placed
place_lsa-Placed junk a ns r e = elim (Option-cases (last_match 0 a ns)) [
  | inl new ↦ ground (arith, length-append ns (stub_node junk a ∷ []))
  | inr (k, old) ↦ ground (arith, last_match-lt 0 a ns k old, length-map (name_node a) ns)
]

place_lsa-total :
    (junk : RNode) (a : Lsa) (ns : List RNode)
    → length ns < mn
    → (r : ℕ × List RNode) × (place_lsa junk a ns ≡ some r)
unfolding place_lsa
place_lsa-total junk a ns h = elim (Option-cases (last_match 0 a ns)) [
  | inl new ↦ ((length ns, ns ++ (stub_node junk a ∷ [])), ground arith)
  | inr (k, old) ↦ ((k, map (name_node a) ns), ground arith)
]

-- Every place of a row is that of a node.
abbrev pub IsBelow : ℕ → ℕ → Type 0
IsBelow n i = i < n

abbrev RowPlaced : List ℕ → List Lsa → List RNode → List RNode → Type 0
RowPlaced row ads ns ns' =
    All (IsBelow (length ns')) row
    × (length ns ≤ length ns')
    × (length ns' ≤ length ns + length ads)
    × (length ns ≤ mn → length ns' ≤ mn)

place_row-inv :
    (junk : RNode) (j : ℕ) (a : Lsa) (ads : List Lsa) (ns : List RNode) (r : List ℕ × List RNode)
    → place_row junk j (a ∷ ads) ns ≡ some r
    → (p : ℕ × List RNode) × (q : List ℕ × List RNode) × (place_lsa junk a ns ≡ some p)
      × (place_row junk (j + 1) ads p.1 ≡ some q)
      × (r ≡ (p.0 ∷ q.0, q.1))
unfolding place_row
place_row-inv junk j a ads ns r e = elim (Option-cases (place_lsa junk a ns)) [
  | inl full ↦ absurd (ground arith)
  | inr (p, placed) ↦ elim (Option-cases (place_row junk (j + 1) ads p.1)) [
    | inl full ↦ absurd (ground arith)
    | inr (q, rest) ↦ (p, q, placed, rest, ground arith)
  ]
]

Below-mono : (m n : ℕ) (is : List ℕ) → m ≤ n → All (IsBelow m) is → All (IsBelow n) is
Below-mono m n [] le h = h
Below-mono m n (i ∷ is) le h = (omega arith, Below-mono m n is le h.1)

place_row-RowPlaced :
    (junk : RNode) (j : ℕ) (ads : List Lsa) (ns : List RNode) (r : List ℕ × List RNode)
    → place_row junk j ads ns ≡ some r
    → RowPlaced r.0 ads ns r.1
unfolding place_row Placed
place_row-RowPlaced junk j [] ns r e =
    subst (λ (q : List ℕ × List RNode). RowPlaced q.0 [] ns q.1) (some-eq ([], ns) r e)
      (tt, omega arith, omega arith, λ h. h)
place_row-RowPlaced junk j (a ∷ ads) ns r e =
    let (p, q, placed, rest, split) = place_row-inv junk j a ads ns r e in
    let one = place_lsa-Placed junk a ns p placed in
    let more = place_row-RowPlaced junk (j + 1) ads p.1 q rest in
    rw split (
      (omega (arith, one.0, more.1), more.0),
      omega (arith, one.1, more.1),
      omega (arith, one.2, more.2),
      λ h. more.3 (one.3 h),
    )

place_rows-inv :
    (junk : RNode) (e : DbEntry) (es : List DbEntry) (ns : List RNode) (g : Graph)
    → place_rows junk (e ∷ es) ns ≡ some g
    → (p : List ℕ × List RNode) × (g' : Graph) × (place_row junk 0 e.array ns ≡ some p)
      × (place_rows junk es p.1 ≡ some g')
      × (g ≡ record g' { rows = p.0 ∷ g'.rows })
unfolding place_rows
place_rows-inv junk e es ns g h = elim (Option-cases (place_row junk 0 e.array ns)) [
  | inl full ↦ absurd (ground arith)
  | inr (p, placed) ↦ elim (Option-cases (place_rows junk es p.1)) [
    | inl full ↦ absurd (ground arith)
    | inr (g', rest) ↦ (p, g', placed, rest, ground arith)
  ]
]

-- A graph whose rows name nodes, of which there are at most `mn`.
abbrev pub IsPlaced : Graph → Type 0
IsPlaced g = All (All (IsBelow (length g.nodes))) g.rows × (length g.nodes ≤ mn)

place_rows-IsPlaced :
    (junk : RNode) (es : List DbEntry) (ns : List RNode) (g : Graph)
    → place_rows junk es ns ≡ some g
    → length ns ≤ mn
    → IsPlaced g × (length ns ≤ length g.nodes)
unfolding place_rows
place_rows-IsPlaced junk [] ns g e h =
    subst (λ (g : Graph). IsPlaced g × (length ns ≤ length g.nodes))
      (some-eq (record { nodes = ns; rows = [] }) g e) ((tt, h), omega arith)
place_rows-IsPlaced junk (x ∷ es) ns g e h =
    let (p, g', placed, rest, split) = place_rows-inv junk x es ns g e in
    let row = place_row-RowPlaced junk 0 x.array ns p placed in
    let (more, grown) = place_rows-IsPlaced junk es p.1 g' rest (row.3 h) in
    rw split ((((Below-mono _ _ p.0 grown row.0, more.0), more.1), omega (arith, row.1, grown)))

pub graph_of-IsPlaced :
    (junk : RNode) (db : List DbEntry) (g : Graph) → graph_of junk db ≡ some g → IsPlaced g
unfolding graph_of
graph_of-IsPlaced junk db g e = elim (Bool-cases (ltb mn (length db))) [
  | inl full ↦ absurd (ground arith)
  | inr fits ↦
      (place_rows-IsPlaced junk db (entry_nodes junk db) g (ground arith) (
        ground
          (arith, length-map (λ (e : DbEntry). record junk { nadv = e.nadv; rid = e.rid }) db))).0
]

-- How many advertisements the database has.
abbrev pub adverts : List DbEntry → ℕ
adverts [] = 0
adverts (e ∷ es) = length e.array + adverts es

place_row-total :
    (junk : RNode) (j : ℕ) (ads : List Lsa) (ns : List RNode)
    → j + length ads ≤ mnbr
    → length ns + length ads ≤ mn
    → (r : List ℕ × List RNode) × (place_row junk j ads ns ≡ some r)
unfolding place_row Placed
place_row-total junk j [] ns row fits = (([], ns), refl)
place_row-total junk j (a ∷ ads) ns row fits =
    let (p, placed) = place_lsa-total junk a ns (omega arith) in
    let one = place_lsa-Placed junk a ns p placed in
    let (q, rest) = place_row-total junk (j + 1) ads p.1 (omega arith) (omega (arith, one.2)) in
    ((p.0 ∷ q.0, q.1), ground arith)

place_rows-total :
    (junk : RNode) (es : List DbEntry) (ns : List RNode)
    → All (λ e. length e.array ≤ mnbr) es
    → length ns + adverts es ≤ mn
    → (g : Graph) × (place_rows junk es ns ≡ some g)
unfolding place_rows
place_rows-total junk [] ns rows fits = (record { nodes = ns; rows = [] }, refl)
place_rows-total junk (e ∷ es) ns rows fits =
    let (p, placed) = place_row-total junk 0 e.array ns (omega (arith, rows.0)) (omega arith) in
    let one = place_row-RowPlaced junk 0 e.array ns p placed in
    let (g, rest) = place_rows-total junk es p.1 rows.1 (omega (arith, one.2)) in
    (record g { rows = p.0 ∷ g.rows }, ground arith)

-- The topologies that fit the arrays: at most `mnbr` advertisements in an entry, and at most `mn`
-- entries and advertisements together.
abbrev pub Fits : List DbEntry → Type 0
Fits db = All (λ e. length e.array ≤ mnbr) db × (length db + adverts db ≤ mn)

pub graph_of-total :
    (junk : RNode) (db : List DbEntry) → Fits db → (g : Graph) × (graph_of junk db ≡ some g)
unfolding graph_of
graph_of-total junk db h =
    let same = length-map (λ (e : DbEntry). record junk { nadv = e.nadv; rid = e.rid }) db in
    let (g, placed) =
      place_rows-total junk db (entry_nodes junk db) h.0 (omega (arith, same, h.1)) in
    (g, ground (arith, h.1))

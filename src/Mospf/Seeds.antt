-- ===== src/Mospf/Seeds.antt =====
-- The third loop of `update_rtable` of 07-mospf/mospf_daemon.c: the nodes of the neighbours.
use computer_net_ucas.Common.{
  All, ℕ, zero, suc, ◌+◌, ◌≤◌, ◌<◌, ◌≡◌, ◌≢◌, ◌∙◌, sym, refl, inl, inr, true, false, some, List, [],
  ◌∷◌, ==→eq, ◌==◌, length, get_or, set, Bool-cases, arith,
}
use computer_net_ucas.Packet.{Iface}
use computer_net_ucas.Mospf.{Nbr}
use computer_net_ucas.Mospf.Found.{Among, IsNbr, AllKnown, Distinct, IsVisited, Linked, IsSearch}
use computer_net_ucas.Mospf.Rounds.{
  mark, mark_other, mark-Extends, enqueue-mark, mark_self, mark-IsSearch, Extends, Extends-refl,
  Extends-trans,
}
use computer_net_ucas.Mospf.Routes.{RNode, Search, enqueue, node_at, via, seed_from, seed_all}

module _ (junk : RNode) (nbrs : List (Iface × Nbr)) (ns : List RNode) (rows : List (List ℕ)) where
  -- No node with an identification is visited, from index `i` on.
  abbrev pub IsFresh : ℕ → ℕ → Search → Type 0
  IsFresh id i s = (k : ℕ) → i ≤ k → (get_or ns k junk).rid ≡ id → get_or s.visit k false ≡ false

  abbrev Holds : Search → Type 0
  Holds = IsSearch junk nbrs ns rows

  -- After a neighbour's nodes from `i` to `i + n` are marked.
  pub record Seeded (id i n : ℕ) (s t : Search) : Type 0 where
    pub valid : Holds t
    pub extends : Extends s t
    pub found : (k : ℕ) → i ≤ k → k < i + n → (get_or ns k junk).rid ≡ id → IsVisited t k
    pub fresh : (other : ℕ) → id ≢ other → IsFresh other 0 s → IsFresh other 0 t

  module _ (iface : Iface) (n : Nbr) (among : Among nbrs iface n.nbr_ip)
      (known : IsNbr nbrs n.nbr_id) where
    module _ (m i : ℕ) (s : Search) (e : i + suc m ≡ length ns) (h : Holds s)
        (f : IsFresh n.nbr_id i s) (hit : ((node_at junk s i).rid == n.nbr_id) ≡ true) where
      own : (get_or ns i junk).rid ≡ n.nbr_id
      own = sym (h.rids i) ∙ ==→eq _ _ hit

      new : get_or s.visit i false ≡ false
      new = f i (omega arith) own

      inside : i < length ns
      inside = omega arith

      abbrev seeded : Search
      seeded = mark junk i iface n.nbr_ip s.added s

      seed-enqueue :
          enqueue i (record s { nodes = set s.nodes i (via iface n.nbr_ip (node_at junk s i)) })
          ≡ some seeded
      seed-enqueue = enqueue-mark junk nbrs ns rows s h i inside new iface n.nbr_ip s.added

      seed-other : (k : ℕ) → (i == k) ≡ false → get_or seeded.visit k false ≡ get_or s.visit k false
      seed-other = mark_other junk nbrs ns rows s h i inside new iface n.nbr_ip s.added

      seed-Holds : Holds seeded
      seed-Holds =
          let known_i : IsNbr nbrs (get_or ns i junk).rid = rw own known in
          mark-IsSearch junk nbrs ns rows s h i inside new iface n.nbr_ip s.added among
            (Linked.nbr inside known_i) (inl known_i) (λ k v. v) h.routed

      seed-IsFresh : IsFresh n.nbr_id (i + 1) seeded
      seed-IsFresh k le same = seed-other k (ground arith) ∙ f k (omega arith) same

      seed-Seeded :
          (t : Search) → Seeded n.nbr_id (i + 1) m seeded t → Seeded n.nbr_id i (suc m) s t
      seed-Seeded t rest = record {
        valid = rest.valid;
        extends =
            Extends-trans s seeded t
              (mark-Extends junk nbrs ns rows s h i inside new iface n.nbr_ip s.added) rest.extends;
        found = λ k lo hi same. elim (Bool-cases (i == k)) [
          | inl at_i ↦ rw (← ==→eq i k at_i) (
              rest.extends.kept i
                (mark_self junk nbrs ns rows s h i inside new iface n.nbr_ip s.added))
          | inr past ↦ rest.found k (ground arith) (omega arith) same
        ];
        fresh = λ o ne g. rest.fresh o ne (λ k le same. elim (Bool-cases (i == k)) [
          | inl at_i ↦ absurd (ne (sym own ∙ rw (==→eq i k at_i) same))
          | inr past ↦ seed-other k past ∙ g k le same
        ]);
      }

    skip-Seeded :
        (m i : ℕ) (s t : Search)
        → Holds s
        → ((node_at junk s i).rid == n.nbr_id) ≡ false
        → Seeded n.nbr_id (i + 1) m s t
        → Seeded n.nbr_id i (suc m) s t
    skip-Seeded m i s t h miss rest = record {
      valid = rest.valid;
      extends = rest.extends;
      found = λ k lo hi same. elim (Bool-cases (i == k)) [
        | inl at_i ↦ absurd (ground (arith, h.rids k))
        | inr past ↦ rest.found k (ground arith) (omega arith) same
      ];
      fresh = rest.fresh;
    }

    seed_from-total :
        (m i : ℕ) (s : Search)
        → i + m ≡ length ns
        → Holds s
        → IsFresh n.nbr_id i s
        → (t : Search) × (seed_from junk iface n m i s ≡ some t) × Seeded n.nbr_id i m s t
    unfolding seed_from
    seed_from-total zero i s e h f = (
      s,
      refl,
      record {
        valid = h;
        extends = Extends-refl s;
        found = λ k lo hi. absurd (omega arith);
        fresh = λ o ne g. g;
      },
    )
    seed_from-total (suc m) i s e h f = elim (Bool-cases ((node_at junk s i).rid == n.nbr_id)) [
      | inl hit ↦
          let s' : Search = seeded m i s e h f hit in
          let marked = seed-enqueue m i s e h f hit in
          let (t, done, rest) =
            seed_from-total m (i + 1) s' (omega arith) (seed-Holds m i s e h f hit)
              (seed-IsFresh m i s e h f hit) in
          (t, ground arith, seed-Seeded m i s e h f hit t rest)
      | inr miss ↦
          let (t, done, rest) =
            seed_from-total m (i + 1) s (omega arith) h (λ k le. f k (omega arith)) in
          (t, ground arith, skip-Seeded m i s t h miss rest)
    ]

  abbrev pub AllFresh : Search → List (Iface × Nbr) → Type 0
  AllFresh s = All λ (x : Iface × Nbr). IsFresh x.1.nbr_id 0 s

  Seeded-AllFresh :
      (id m : ℕ) (s t : Search) (xs : List (Iface × Nbr))
      → Seeded id 0 m s t
      → All (λ (y : Iface × Nbr). id ≢ y.1.nbr_id) xs
      → AllFresh s xs
      → AllFresh t xs
  Seeded-AllFresh id m s t [] h ne f = tt
  Seeded-AllFresh id m s t (x ∷ xs) h ne f =
      (h.fresh x.1.nbr_id ne.0 f.0, Seeded-AllFresh id m s t xs h ne.1 f.1)

  pub seed_all-total :
      (xs : List (Iface × Nbr)) (s : Search)
      → Holds s
      → AllKnown nbrs xs
      → Distinct xs
      → AllFresh s xs
      → (t : Search) × (seed_all junk xs s ≡ some t)
        × Holds t
        × Extends s t
        × ((k : ℕ) → k < length ns → IsNbr xs (get_or ns k junk).rid → IsVisited t k)
  unfolding seed_all
  seed_all-total [] s h known distinct fresh = (s, refl, h, Extends-refl s, λ k lt no. absurd no)
  seed_all-total ((iface, n) ∷ xs) s h known distinct fresh =
      let (t, one, seeded) =
        seed_from-total iface n known.0.0 known.0.1 (length s.nodes) 0 s
          (omega (arith, h.nodes_length)) h fresh.0 in
      let (u, rest, valid, more, found) =
        seed_all-total xs t seeded.valid known.1 distinct.1
          (Seeded-AllFresh n.nbr_id (length s.nodes) s t xs seeded distinct.0 fresh.1) in
      (
        u,
        ground arith,
        valid,
        Extends-trans s t u seeded.extends more,
        λ k lt is. elim is [
          | inl same ↦
              more.kept k (seeded.found k (omega arith) (omega (arith, h.nodes_length)) (sym same))
          | inr later ↦ found k lt later
        ],
      )

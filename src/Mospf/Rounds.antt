-- ===== src/Mospf/Rounds.antt =====
-- The breadth-first search of `update_rtable` of 07-mospf/mospf_daemon.c: what a node that it marks
-- does to the arrays.
use mathlib.Core.Path.{subst}
use computer_net_ucas.Common.{
  All, All-append, ℕ, ◌+◌, ◌<◌, ◌≡◌, ◌∙◌, sym, ap, refl, inl, inr, ◌⊎◌, true, false, some, List, [],
  ◌∷◌, ◌++◌, ==→eq, ◌==◌, if◌then◌else◌, length, length-append, length-set, get_or, get_or-set, set,
  Bool-cases, arith,
}
use computer_net_ucas.Packet.{Iface}
use computer_net_ucas.Forward.{RtEntry}
use computer_net_ucas.Mospf.{Nbr}
use computer_net_ucas.Mospf.Found.{
  Among, Has, Has-append, trues-lt, trues-set, IsVisited, Linked, IsRouted, IsServed, IsSearch,
}
use computer_net_ucas.Mospf.Routes.{RNode, Search, enqueue, node_at, via}

-- A node that is marked takes an interface and a gateway and joins the queue.
abbrev pub mark : RNode → ℕ → Iface → ℕ → List RtEntry → Search → Search
mark junk i iface gw added s = record {
  nodes = set s.nodes i (via iface gw (node_at junk s i));
  visit = set s.visit i true;
  pending = s.pending ++ (i ∷ []);
  tail = s.tail + 1;
  added = added;
}

-- From one state of the search to a later one: what was visited stays so, what was in the queue does,
-- what is visited since is in it, and so is whatever it has grown by.
pub record Extends (s t : Search) : Type 0 where
  pub kept : (k : ℕ) → IsVisited s k → IsVisited t k
  pub still : (k : ℕ) → Has k s.pending → Has k t.pending
  pub waiting : (k : ℕ) → IsVisited t k → IsVisited s k ⊎ Has k t.pending
  pub backlog : t.tail + length s.pending ≡ s.tail + length t.pending

pub Extends-refl : (s : Search) → Extends s s
Extends-refl s = record {
  kept = λ k v. v;
  still = λ k has. has;
  waiting = λ k v. inl v;
  backlog = refl;
}

pub Extends-trans : (s t u : Search) → Extends s t → Extends t u → Extends s u
Extends-trans s t u p q = record {
  kept = λ k v. q.kept k (p.kept k v);
  still = λ k has. q.still k (p.still k has);
  waiting = λ k v. elim (q.waiting k v) [
    | inl before ↦ elim (p.waiting k before) [
      | inl first ↦ inl first
      | inr queued ↦ inr (q.still k queued)
    ]
    | inr queued ↦ inr queued
  ];
  backlog = omega (arith, p.backlog, q.backlog);
}

module _ (junk : RNode) (nbrs : List (Iface × Nbr)) (ns : List RNode) (rows : List (List ℕ))
    (s : Search) (h : IsSearch junk nbrs ns rows s) (i : ℕ) (inside : i < length ns)
    (new : get_or s.visit i false ≡ false) (iface : Iface) (gw : ℕ) (added : List RtEntry) where
  pub enqueue-mark :
      enqueue i
        (record s { nodes = set s.nodes i (via iface gw (node_at junk s i)); added = added })
      ≡ some (mark junk i iface gw added s)
  enqueue-mark =
      ground (arith, trues-lt s.visit i (omega arith) new, h.visit_length, h.tail_count, h.small)

  pub mark-IsVisited : (k : ℕ) → IsVisited s k → IsVisited (mark junk i iface gw added s) k
  mark-IsVisited k v =
      ground (arith, get_or-set s.visit i k true false (omega (arith, h.visit_length)))

  mark-queued :
      (is : List ℕ)
      → All (λ i. (i < length ns) × IsVisited s i) is
      → All (λ k. (k < length ns) × IsVisited (mark junk i iface gw added s) k) is
  mark-queued [] q = tt
  mark-queued (k ∷ ks) q = ((q.0.0, mark-IsVisited k q.0.1), mark-queued ks q.1)

  pub mark_self : IsVisited (mark junk i iface gw added s) i
  mark_self = ground (arith, get_or-set s.visit i i true false (omega (arith, h.visit_length)))

  node_at-mark :
      (k : ℕ)
      → node_at junk (mark junk i iface gw added s) k
        ≡ (if i == k then via iface gw (node_at junk s i) else node_at junk s k)
  node_at-mark k =
      get_or-set s.nodes i k (via iface gw (node_at junk s i)) junk (omega (arith, h.nodes_length))

  -- What a node keeps when it takes an interface and a gateway is that of the graph.
  mark_keeps :
      (f : RNode → ℕ)
      → ((n : RNode) → f (via iface gw n) ≡ f n)
      → ((k : ℕ) → f (node_at junk s k) ≡ f (get_or ns k junk))
      → (k : ℕ) → f (node_at junk (mark junk i iface gw added s) k) ≡ f (get_or ns k junk)
  mark_keeps f keeps old k = elim (Bool-cases (i == k)) [
    | inl same ↦
        rw (node_at-mark k, same)
          (keeps (node_at junk s i) ∙ old i ∙ ap (λ j. f (get_or ns j junk)) (==→eq i k same))
    | inr other ↦ rw (node_at-mark k, other) (old k)
  ]

  mark_reached :
      Among nbrs iface gw
      → (k : ℕ) → IsVisited (mark junk i iface gw added s) k
      → Among nbrs
          (node_at junk (mark junk i iface gw added s) k).iface
          (node_at junk (mark junk i iface gw added s) k).gw
  mark_reached among k v = elim (Bool-cases (i == k)) [
    | inl same ↦ rw (node_at-mark k, same) among
    | inr other ↦
        rw (node_at-mark k, other)
          (h.reached k (
            rw (get_or-set s.visit i k true false (omega (arith, h.visit_length, inside)), other) at
              v))
  ]

  mark_visited {ℓ} :
      {P : ℕ → Type ℓ}
      → P i
      → ((k : ℕ) → IsVisited s k → P k)
      → (k : ℕ) → IsVisited (mark junk i iface gw added s) k
      → P k
  mark_visited {P} self others k v = elim (Bool-cases (i == k)) [
    | inl same ↦ subst P (==→eq i k same) self
    | inr other ↦
        others k (
          rw (get_or-set s.visit i k true false (omega (arith, h.visit_length, inside)), other) at
            v)
  ]

  pub mark-IsSearch :
      Among nbrs iface gw
      → Linked junk nbrs ns rows i
      → IsServed junk nbrs ns rows added i
      → ((k : ℕ) → IsServed junk nbrs ns rows s.added k → IsServed junk nbrs ns rows added k)
      → All (IsRouted junk nbrs ns rows) added
      → IsSearch junk nbrs ns rows (mark junk i iface gw added s)
  mark-IsSearch among link serve more routes = record {
    nodes_length = length-set s.nodes i _ ∙ h.nodes_length;
    visit_length = length-set s.visit i _ ∙ h.visit_length;
    small = h.small;
    rids = mark_keeps (λ n. n.rid) (λ n. refl) h.rids;
    networks = mark_keeps (λ n. n.network) (λ n. refl) h.networks;
    masks = mark_keeps (λ n. n.mask) (λ n. refl) h.masks;
    tail_count =
        omega (arith, trues-set s.visit i (omega (arith, h.visit_length)) new, h.tail_count);
    queued =
        All-append _ s.pending (i ∷ []) (mark-queued s.pending h.queued) ((inside, mark_self), tt);
    reached = λ k v. mark_reached among k v;
    linked = mark_visited link h.linked;
    served = mark_visited serve (λ k v. more k (h.served k v));
    routed = routes;
  }

  pub mark_other :
      (k : ℕ)
      → (i == k) ≡ false
      → get_or (mark junk i iface gw added s).visit k false ≡ get_or s.visit k false
  mark_other k ne =
      rw (get_or-set s.visit i k true false (omega (arith, h.visit_length, inside)), ne) refl

  pub mark-Extends : Extends s (mark junk i iface gw added s)
  mark-Extends = record {
    kept = mark-IsVisited;
    still = λ k has. Has-append k s.pending (i ∷ []) (inl has);
    waiting = λ k v. elim (Bool-cases (i == k)) [
      | inl same ↦ inr (Has-append k s.pending (i ∷ []) (inr (inl (==→eq i k same))))
      | inr other ↦ inl (sym (mark_other k other) ∙ v)
    ];
    backlog = omega (arith, length-append s.pending (i ∷ []));
  }

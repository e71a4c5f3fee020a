-- ===== src/Stp/Election.antt =====
-- The election of the root port: `update_stp_status` of 04_stp/stp.c finds the least vector.
use computer_net_ucas.Common.{
  ℕ, ◌+◌, ◌≤◌, ◌<◌, ◌≡◌, refl, ◌⊎◌, inl, inr, true, false, Option, none, some, List, [], ◌∷◌,
  length, get_elem?, drop, Bool-cases, All, All-get, arith, get_elem?-lt, drop-step, drop-nil,
}
use computer_net_ucas.Word.{add32}
use computer_net_ucas.Stp.{Port, Stp, stp_port_is_designated, port_priority_cmp}
use computer_net_ucas.Stp.Priority.{InRange, port_rank, port_priority_cmp-rank}
use computer_net_ucas.Stp.Update.{challenge, elect, adopt, become_root, update_stp_status}

-- Of the ports below index `n`: all are designated, or `c` is the first of the best of the others.
abbrev pub Best : Stp → ℕ → Option ℕ → Type 0
Best s n none =
    (j : ℕ) (p : Port) → j < n → get_elem? s.ports j ≡ some p → stp_port_is_designated s p ≡ true
Best s n (some c) =
    (q : Port) × (c < n)
    × (get_elem? s.ports c ≡ some q)
    × (stp_port_is_designated s q ≡ false)
    × ((j : ℕ) (p : Port)
        → j < n
        → get_elem? s.ports j ≡ some p
        → stp_port_is_designated s p ≡ false
        → (port_rank q ≤ port_rank p) × (j < c → port_rank q < port_rank p))

lt-suc-cases : (j i : ℕ) → j < i + 1 → (j < i) ⊎ (j ≡ i)
lt-suc-cases j i h = ground arith

module _ (s : Stp) (ranges : All InRange s.ports) where
  range : (j : ℕ) (p : Port) → get_elem? s.ports j ≡ some p → InRange p
  range j p e = All-get InRange s.ports j p ranges e

  unique :
      (j : ℕ) (p q : Port) → get_elem? s.ports j ≡ some p → get_elem? s.ports j ≡ some q → p ≡ q
  unique j p q e f = cc

  challenge-Best :
      (cur : Option ℕ) (i : ℕ) (p : Port)
      → get_elem? s.ports i ≡ some p
      → stp_port_is_designated s p ≡ false
      → Best s i cur
      → Best s (i + 1) (challenge s.ports cur i p)
  unfolding challenge
  challenge-Best none i p e d b = (
    p,
    omega arith,
    e,
    d,
    λ j p' h f nd. elim (lt-suc-cases j i h) [
      | inl lt ↦ cc (b j p' lt f)
      | inr same ↦ rw (unique i p' p (rw same at f) e) (omega arith)
    ],
  )
  challenge-Best (some c) i p e d (q, low, eq, dq, least) =
      elim (Bool-cases (port_priority_cmp q p)) [
        | inl better ↦
            rw (eq, challenge, better)
              (
                p,
                omega arith,
                e,
                d,
                λ j p' h f nd. elim (lt-suc-cases j i h) [
                  | inl lt ↦ ground (arith, won better, least j p' lt f nd)
                  | inr same ↦ rw (unique i p' p (rw same at f) e) (omega arith)
                ],
              )
        | inr worse ↦
            rw (eq, challenge, worse)
              (
                q,
                omega arith,
                eq,
                dq,
                λ j p' h f nd. elim (lt-suc-cases j i h) [
                  | inl lt ↦ least j p' lt f nd
                  | inr same ↦
                      rw (unique i p' p (rw same at f) e) (lost worse, λ h'. absurd (omega arith))
                ],
              )
      ]
    where
      won : port_priority_cmp q p ≡ true → port_rank p < port_rank q
      won h = ground (arith, port_priority_cmp-rank q p (range c q eq) (range i p e))

      lost : port_priority_cmp q p ≡ false → port_rank q ≤ port_rank p
      lost h = ground (arith, port_priority_cmp-rank q p (range c q eq) (range i p e))

  Best-skip :
      (cur : Option ℕ) (i : ℕ) (p : Port)
      → get_elem? s.ports i ≡ some p
      → stp_port_is_designated s p ≡ true
      → Best s i cur
      → Best s (i + 1) cur
  Best-skip none i p e d b = λ j p' h f. elim (lt-suc-cases j i h) [
    | inl lt ↦ b j p' lt f
    | inr same ↦ rw (unique i p' p (rw same at f) e) d
  ]
  Best-skip (some c) i p e d (q, low, eq, dq, least) = (
    q,
    omega arith,
    eq,
    dq,
    λ j p' h f nd. elim (lt-suc-cases j i h) [
      | inl lt ↦ least j p' lt f nd
      | inr same ↦ let clash : p' ≡ p = unique i p' p (rw same at f) e in absurd (cc)
    ],
  )

  Best-all :
      (cur : Option ℕ) (i : ℕ) → length s.ports ≤ i → Best s i cur → Best s (length s.ports) cur
  Best-all none i h b = λ j p lt f. b j p (omega arith) f
  Best-all (some c) i h (q, low, eq, dq, least) =
      (q, get_elem?-lt s.ports c q eq, eq, dq, λ j p lt f nd. least j p (omega arith) f nd)

  elect-Best :
      (ps : List Port) (i : ℕ) (cur : Option ℕ)
      → drop i s.ports ≡ ps
      → Best s i cur
      → Best s (length s.ports) (elect s ps i cur)
  unfolding elect
  elect-Best [] i cur e b = Best-all cur i (drop-nil s.ports i e) b
  elect-Best (p ∷ ps) i cur e b =
      let (hd, tl) = drop-step s.ports i p ps e in
      elim (Bool-cases (stp_port_is_designated s p)) [
        | inl d ↦ rw d (elect-Best ps (i + 1) cur tl (Best-skip cur i p hd d b))
        | inr nd ↦
            rw nd (
              elect-Best ps (i + 1) (challenge s.ports cur i p) tl (challenge-Best cur i p hd nd b))
      ]

  pub elected : Best s (length s.ports) (elect s s.ports 0 none)
  elected = elect-Best s.ports 0 none refl λ j p h f. elim h [ ]

-- What the switch believes afterwards, by the result of the election.
pub update_none : (s : Stp) → elect s s.ports 0 none ≡ none → update_stp_status s ≡ become_root s
unfolding update_stp_status
update_none s e = rw (e, update_stp_status)

pub update_some :
    (s : Stp) (r : ℕ) (q : Port)
    → elect s s.ports 0 none ≡ some r
    → get_elem? s.ports r ≡ some q
    → update_stp_status s ≡ adopt s r q
unfolding update_stp_status
update_some s r q e f = rw (e, update_stp_status, f)

-- The root port chosen by `update_stp_status` is not designated, its vector is the least of all the
-- ports that are not designated, it is the first with that vector, and the switch takes over its
-- root and its cost plus the port's own.
pub root_port_least :
    (s : Stp) (r j : ℕ) (q p : Port)
    → All InRange s.ports
    → (update_stp_status s).root_port ≡ some r
    → get_elem? s.ports r ≡ some q
    → get_elem? s.ports j ≡ some p
    → stp_port_is_designated s p ≡ false
    → (stp_port_is_designated s q ≡ false)
      × (port_rank q ≤ port_rank p)
      × (j < r → port_rank q < port_rank p)
      × ((update_stp_status s).designated_root ≡ q.designated_root)
      × ((update_stp_status s).root_path_cost ≡ add32 q.designated_cost q.path_cost)
unfolding adopt become_root
root_port_least s r j q p ranges chosen eq ep nd =
    go (elect s s.ports 0 none) refl (elected s ranges)
  where
    go :
        (o : Option ℕ)
        → elect s s.ports 0 none ≡ o
        → Best s (length s.ports) o
        → (stp_port_is_designated s q ≡ false)
          × (port_rank q ≤ port_rank p)
          × (j < r → port_rank q < port_rank p)
          × ((update_stp_status s).designated_root ≡ q.designated_root)
          × ((update_stp_status s).root_path_cost ≡ add32 q.designated_cost q.path_cost)
    go none e b = absurd (cc (update_none s e))
    go (some c) e (x, low, ex, dx, least) =
        let found = update_some s c x e ex in
        let same : c ≡ r = cc in
        let port : x ≡ q = cc in
        let (le, lt) = least j p (get_elem?-lt s.ports j p ep) ep nd in
        rw (← port, found) (dx, le, λ h. lt (omega arith), refl, refl)

-- If `update_stp_status` leaves no root port, every port is designated and the switch is its own
-- root at cost 0.
pub no_root_port :
    (s : Stp) (j : ℕ) (p : Port)
    → All InRange s.ports
    → (update_stp_status s).root_port ≡ none
    → get_elem? s.ports j ≡ some p
    → (stp_port_is_designated s p ≡ true)
      × ((update_stp_status s).designated_root ≡ s.switch_id)
      × ((update_stp_status s).root_path_cost ≡ 0)
unfolding adopt become_root
no_root_port s j p ranges chosen ep = go (elect s s.ports 0 none) refl (elected s ranges)
  where
    go :
        (o : Option ℕ)
        → elect s s.ports 0 none ≡ o
        → Best s (length s.ports) o
        → (stp_port_is_designated s p ≡ true)
          × ((update_stp_status s).designated_root ≡ s.switch_id)
          × ((update_stp_status s).root_path_cost ≡ 0)
    go none e b = rw (update_none s e) (b j p (get_elem?-lt s.ports j p ep) ep, refl, refl)
    go (some c) e (x, low, ex, dx, least) = absurd (cc (update_some s c x e ex))

-- ===== src/Stp/Invariant.antt =====
-- What holds of the switch of 04_stp/stp.c in every state that it reaches.
use Prim.Native.Nat.{bit_or}
use computer_net_ucas.Common.{
  ℕ, zero, suc, ◌+◌, ◌≤◌, ◌<◌, ◌≡◌, refl, ap, ◌∙◌, inl, inr, true, false, Option, none, some, List,
  [], ◌∷◌, ltb, ◌==◌, leb, length, get_elem?, set, Bool-cases, Option-cases, All, All-get, All-set,
  arith, get_elem?-lt, get_elem?-set, ==→eq, eq→==, ltb→lt, all_below_sound,
}
use computer_net_ucas.Word.{u16_mod, u32_mod, u64_mod, add32}
use computer_net_ucas.Stp.Timers.{Timer, stp_start_timer, stp_stop_timer, stp_check_timer}
use computer_net_ucas.Stp.{
  Config, Port, Stp, stp_is_root_switch, stp_port_is_root, stp_port_is_designated,
  config_priority_cmp, replace_port_config, stp_handle_hello_timeout, stp_timer_run_once,
}
use computer_net_ucas.Stp.Priority.{InRange, replace_port_config-InRange}
use computer_net_ucas.Stp.Update.{
  Event, packet, tick, adopt, become_root, elect, update_stp_status, update_port, update_round,
  update_rounds, update_port_config, halt_hello, accept_config, stp_handle_config_packet,
  stp_port_handle_packet, init_ports, stp_init, step, run,
}
use computer_net_ucas.Stp.Election.{Best, update_none, update_some, elected}

-- What the switch believes follows from its root port.
abbrev pub Follows : Stp → Option ℕ → Type 0
Follows s none = (s.designated_root ≡ s.switch_id) × (s.root_path_cost ≡ 0)
Follows s (some r) =
    (q : Port) × (get_elem? s.ports r ≡ some q)
    × (stp_port_is_designated s q ≡ false)
    × (s.designated_root ≡ q.designated_root)
    × (s.root_path_cost ≡ add32 q.designated_cost q.path_cost)

pub record Core (s : Stp) : Type 0 where
  pub id : s.switch_id < u64_mod
  pub ranges : All InRange s.ports
  pub follows : Follows s s.root_port

pub record Inv (s : Stp) : Type 0 where
  pub core : Core s
  -- Only the root's hello timer runs.
  pub hello : s.hello_timer.active ≡ true → stp_is_root_switch s ≡ true

pub believed : (s : Stp) → Core s → (s.designated_root < u64_mod) × (s.root_path_cost < u32_mod)
believed s v = go s.root_port v.follows
  where
    go : (o : Option ℕ) → Follows s o → (s.designated_root < u64_mod) × (s.root_path_cost < u32_mod)
    go none (root, cost) = (rw root v.id, omega arith)
    go (some r) (q, e, d, root, cost) =
        (rw root (All-get InRange s.ports r q v.ranges e).root, omega arith)

update_port-InRange : (s : Stp) (p : Port) → Core s → InRange p → InRange (update_port s p)
unfolding update_port
update_port-InRange s p v h = ground (arith, believed s v, v.id)

-- The root port is left as it is.
update_port-root :
    (s : Stp) (r : ℕ) (q : Port)
    → s.root_port ≡ some r
    → get_elem? s.ports r ≡ some q
    → stp_port_is_designated s q ≡ false
    → update_port s q ≡ q
unfolding update_port stp_port_is_root
update_port-root s r q e f d = rw (d, e, stp_port_is_root, f) (ground arith)

update_round-Core : (s : Stp) (i : ℕ) → Core s → Core (update_round s i)
unfolding update_round stp_port_is_designated
update_round-Core s i v = elim (Option-cases (get_elem? s.ports i)) [
  | inl e ↦ rw (e, update_round) v
  | inr (p, e) ↦
      rw (e, update_round)
        (record {
          id = v.id;
          ranges =
              All-set InRange s.ports i (update_port s p) v.ranges
                (update_port-InRange s p v (All-get InRange s.ports i p v.ranges e));
          follows = go p e s.root_port refl v.follows;
        })
]
  where
    go :
        (p : Port)
        → get_elem? s.ports i ≡ some p
        → (o : Option ℕ) → s.root_port ≡ o
        → Follows s o
        → Follows (record s { ports = set s.ports i (update_port s p) }) o
    go p e none f w = w
    go p e (some r) f (q, eq, d, root, cost) = (q, kept, d, root, cost)
      where
        kept : get_elem? (set s.ports i (update_port s p)) r ≡ some q
        kept = elim (Bool-cases (i == r)) [
          | inl hit ↦
              let index : i ≡ r = ==→eq i r hit in
              let same : p ≡ q = cc in
              rw (get_elem?-set s.ports i r (update_port s p) (get_elem?-lt s.ports i p e), hit)
                (ap some (ap (update_port s) same ∙ update_port-root s r q f eq d))
          | inr miss ↦
              rw (get_elem?-set s.ports i r (update_port s p) (get_elem?-lt s.ports i p e), miss) eq
        ]

update_rounds-Core : (n i : ℕ) (s : Stp) → Core s → Core (update_rounds n i s)
unfolding update_rounds
update_rounds-Core zero i s v = v
update_rounds-Core (suc n) i s v =
    update_rounds-Core n (i + 1) (update_round s i) (update_round-Core s i v)

update_stp_status-Core :
    (s : Stp) → s.switch_id < u64_mod → All InRange s.ports → Core (update_stp_status s)
unfolding adopt become_root stp_port_is_designated
update_stp_status-Core s h ranges = go (elect s s.ports 0 none) refl (elected s ranges)
  where
    go :
        (o : Option ℕ)
        → elect s s.ports 0 none ≡ o
        → Best s (length s.ports) o
        → Core (update_stp_status s)
    go none e b = rw (update_none s e) (record { id = h; ranges = ranges; follows = (refl, refl) })
    go (some c) e (q, low, eq, d, least) =
        rw (update_some s c q e eq)
          (record { id = h; ranges = ranges; follows = (q, eq, d, refl, refl) })

pub Core-timer : (s : Stp) (t : Timer) → Core s → Core (record s { hello_timer = t })
unfolding stp_port_is_designated
Core-timer s t v = record { id = v.id; ranges = v.ranges; follows = go s.root_port v.follows }
  where
    go : (o : Option ℕ) → Follows s o → Follows (record s { hello_timer = t }) o
    go none w = w
    go (some r) w = w

halt_hello-Inv : (s : Stp) → Core s → Inv (halt_hello s)
unfolding halt_hello stp_stop_timer stp_is_root_switch
halt_hello-Inv s v = elim (Bool-cases (s.designated_root == s.switch_id)) [
  | inl yes_root ↦
      rw (yes_root, halt_hello, stp_is_root_switch) (record { core = v; hello = λ h. yes_root })
  | inr not_root ↦
      rw (not_root, halt_hello, stp_is_root_switch)
        (record { core = Core-timer s (stp_stop_timer s.hello_timer) v; hello = λ h. cc })
]

pub accept_config-Inv :
    (s : Stp) (i : ℕ) (p : Port) (c : Config)
    → Inv s
    → get_elem? s.ports i ≡ some p
    → Inv (accept_config s i p c)
unfolding accept_config update_port_config
accept_config-Inv s i p c v e = halt_hello-Inv _ (
    update_rounds-Core _ 0 _ (
      update_stp_status-Core _ v.core.id (
        All-set InRange s.ports i (replace_port_config p c) v.core.ranges
          (replace_port_config-InRange p c (All-get InRange s.ports i p v.core.ranges e)))))

timer-Inv : (s : Stp) (now later : ℕ) → Inv s → Inv (stp_timer_run_once s now later).0
unfolding stp_timer_run_once stp_check_timer stp_handle_hello_timeout stp_start_timer
    stp_is_root_switch
timer-Inv s now later v = record {
  core = elim (Bool-cases s.hello_timer.active) [
    | inl on ↦ elim (Bool-cases (leb (s.hello_timer.time + s.hello_timer.timeout) now)) [
      | inl due ↦ rw (on, due) (Core-timer s _ v.core)
      | inr early ↦ rw (on, early) (Core-timer s _ v.core)
    ]
    | inr off ↦ rw off (Core-timer s _ v.core)
  ];
  hello = ground (arith, v.hello);
}

stp_port_handle_packet-Inv :
    (s : Stp) (i : ℕ) (c : Config) → Inv s → Inv (stp_port_handle_packet s i c).0
unfolding stp_port_handle_packet stp_handle_config_packet
stp_port_handle_packet-Inv s i c v = elim (Option-cases (get_elem? s.ports i)) [
  | inl e ↦ rw (e, stp_port_handle_packet) v
  | inr (p, e) ↦ elim (Bool-cases (c.msg_type == 0)) [
    | inr other ↦ rw (e, stp_port_handle_packet, other) v
    | inl config ↦ elim (Bool-cases (config_priority_cmp p c)) [
      | inl better ↦ rw (e, stp_port_handle_packet, config, better) (accept_config-Inv s i p c v e)
      | inr worse ↦ rw (e, stp_port_handle_packet, config, worse) v
    ]
  ]
]

-- Every packet, accepted or not, and every round of the timer thread keep the invariant: the root and
-- the cost of the switch are those that follow from its root port, and the hello timer runs at the
-- root only.
pub step-Inv : (s : Stp) (e : Event) → Inv s → Inv (step s e).0
unfolding step
step-Inv s (packet i c) v = stp_port_handle_packet-Inv s i c v
step-Inv s (tick now later) v = timer-Inv s now later v

run-Inv : (s : Stp) (es : List Event) → Inv s → Inv (run s es)
unfolding run
run-Inv s [] v = v
run-Inv s (e ∷ es) v = run-Inv (step s e).0 es (step-Inv s e v)

-- Port numbers, checked for the 32 ports that `struct stp` has room for.
own_small : (n : ℕ) → n < 32 → bit_or 0x8000 (n + 1) < u16_mod
own_small n h = ltb→lt _ _ (all_below_sound 32 (λ k. ltb (bit_or 0x8000 (k + 1)) u16_mod) n refl h)

init_ports-InRange :
    (id n : ℕ) (macs : List (List ℕ))
    → id < u64_mod
    → n + length macs ≤ 32
    → All InRange (init_ports id n macs)
unfolding init_ports
init_ports-InRange id n [] h k = tt
init_ports-InRange id n (mac ∷ macs) h k = (
  record {
    own = own_small n (omega arith);
    root = h;
    cost = omega arith;
    switch = h;
    port = omega (arith, own_small n (omega arith));
  },
  init_ports-InRange id (n + 1) macs h (omega arith),
)

stp_init-Inv : (macs : List (List ℕ)) (now : ℕ) → length macs ≤ 32 → Inv (stp_init macs now)
unfolding stp_init stp_is_root_switch
stp_init-Inv macs now h = record {
  core = record {
    id = omega arith;
    ranges = init_ports-InRange _ 0 macs (omega arith) (omega arith);
    follows = (refl, refl);
  };
  hello = λ on. eq→== _ _ refl;
}

-- In every state that a switch of at most 32 ports reaches from `stp_init` by packets and rounds
-- of the timer thread, the fields fit their types, the root and the cost that the switch believes
-- in are those of its root port, or its own where it has none, and the hello timer runs at the
-- root only.
pub run-stp_init-Inv :
    (macs : List (List ℕ)) (now : ℕ) (es : List Event)
    → length macs ≤ 32
    → Inv (run (stp_init macs now) es)
run-stp_init-Inv macs now es h = run-Inv _ es (stp_init-Inv macs now h)

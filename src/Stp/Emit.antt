-- ===== src/Stp/Emit.antt =====
-- What the switch of 04_stp/stp.c sends: on which ports, and with which content.
use computer_net_ucas.Common.{
  ℕ, ◌+◌, ◌%◌, ◌^◌, ◌<◌, ◌≡◌, refl, ap, ◌∙◌, ◌⊎◌, inl, inr, true, false, not, ◌&&◌, Option, none,
  some, List, [], ◌∷◌, map, ◌==◌, leb, if◌then◌else◌, get_elem?, drop, drop-step, Bool-cases,
  Option-cases, All, All-append, All-get, arith, eq→==,
}
use computer_net_ucas.Word.{u16_mod, htons, htonl, htonll, htons-htons, htonl-htonl, htonll-htonll}
use computer_net_ucas.Stp.Timers.{stp_check_timer, stp_start_timer}
use computer_net_ucas.Stp.{
  Config, Port, Stp, Frame, is_none, stp_is_root_switch, stp_port_is_designated,
  stp_port_send_packet, port_config, stp_port_send_config, send_from, stp_send_config,
  stp_handle_hello_timeout, stp_timer_run_once, config_priority_cmp,
}
use computer_net_ucas.Stp.Priority.{InRange}
use computer_net_ucas.Stp.Update.{
  Event, packet, tick, stp_handle_config_packet, stp_port_handle_packet, step,
}
use computer_net_ucas.Stp.Invariant.{Core, Core-timer, Inv, Follows, believed, accept_config-Inv}

-- The frame leaves on a port of the switch, and who receives it reads the root, the cost and the
-- name of the switch, and the name of that port.
abbrev pub Says : Stp → Frame → Type 0
Says s f =
    (p : Port) × (get_elem? s.ports f.out ≡ some p)
    × (htonll f.msg.root_id ≡ s.designated_root)
    × (htonl f.msg.root_path_cost ≡ s.root_path_cost)
    × (htonll f.msg.switch_id ≡ s.switch_id)
    × (htons f.msg.port_id ≡ p.port_id)

-- A switch that is not the root has a root port, so it is never silent.
speaks : (s : Stp) → Core s → not (stp_is_root_switch s) && is_none s.root_port ≡ false
unfolding stp_is_root_switch
speaks s v = go s.root_port v.follows
  where
    go : (o : Option ℕ) → Follows s o → not (s.designated_root == s.switch_id) && is_none o ≡ false
    go none (root, cost) = ground arith
    go (some r) w = ground arith

sends_one :
    (s : Stp) (i : ℕ) (p : Port)
    → Core s
    → stp_port_send_config s i p ≡ stp_port_send_packet i p (port_config s p) ∷ []
unfolding stp_port_send_config
sends_one s i p v = rw (speaks s v)

stp_port_send_config-Says :
    (s : Stp) (i : ℕ) (p : Port)
    → Core s
    → get_elem? s.ports i ≡ some p
    → All (Says s) (stp_port_send_config s i p)
unfolding port_config stp_port_send_packet
stp_port_send_config-Says s i p v e =
    let (root, cost) = believed s v in
    let own : p.port_id < u16_mod = (All-get InRange s.ports i p v.ranges e).own in
    let port : p.port_id % 2 ^ 16 ≡ p.port_id = omega arith in
    rw (sends_one s i p v) (
      (
        p,
        e,
        htonll-htonll _ root,
        htonl-htonl _ cost,
        htonll-htonll _ v.id,
        rw port (htons-htons _ own),
      ),
      tt,
    )

send_from-Says :
    (s : Stp) (i : ℕ) (ps : List Port)
    → Core s
    → drop i s.ports ≡ ps
    → All (Says s) (send_from s i ps)
unfolding send_from
send_from-Says s i [] v e = tt
send_from-Says s i (p ∷ ps) v e =
    let (hd, tl) = drop-step s.ports i p ps e in
    All-append (Says s) _ (send_from s (i + 1) ps) (here hd) (send_from-Says s (i + 1) ps v tl)
  where
    here :
        get_elem? s.ports i ≡ some p
        → All (Says s) (if stp_port_is_designated s p then stp_port_send_config s i p else [])
    here hd = elim (Bool-cases (stp_port_is_designated s p)) [
      | inl d ↦ rw d (stp_port_send_config-Says s i p v hd)
      | inr nd ↦ rw nd tt
    ]

-- The indices of the designated ports from `i` on.
abbrev pub designated_from : Stp → ℕ → List Port → List ℕ
designated_from s i [] = []
designated_from s i (p ∷ ps) =
    if stp_port_is_designated s p
    then i ∷ designated_from s (i + 1) ps
    else designated_from s (i + 1) ps

abbrev pub outs : List Frame → List ℕ
outs = map λ f. f.out

send_from-outs :
    (s : Stp) (i : ℕ) (ps : List Port) → Core s → outs (send_from s i ps) ≡ designated_from s i ps
unfolding send_from stp_port_send_packet
send_from-outs s i [] v = refl
send_from-outs s i (p ∷ ps) v = elim (Bool-cases (stp_port_is_designated s p)) [
  | inl d ↦ rw (d, sends_one s i p v) (ap (λ t. i ∷ t) (send_from-outs s (i + 1) ps v))
  | inr nd ↦ rw nd (send_from-outs s (i + 1) ps v)
]

timer-Says :
    (s : Stp) (now later : ℕ)
    → Core s
    → All (Says (stp_timer_run_once s now later).0) (stp_timer_run_once s now later).1
unfolding stp_timer_run_once stp_check_timer stp_handle_hello_timeout stp_start_timer
    stp_send_config
timer-Says s now later v = elim (Bool-cases s.hello_timer.active) [
  | inl on ↦ elim (Bool-cases (leb (s.hello_timer.time + s.hello_timer.timeout) now)) [
    | inl due ↦ rw (on, due) (send_from-Says _ 0 s.ports (Core-timer s _ v) refl)
    | inr early ↦ rw (on, early) tt
  ]
  | inr off ↦ rw off tt
]

-- A config packet that is better than what its port holds is followed by one config on each
-- designated port, in the order of the ports; any other config packet leaves the switch as it is and
-- is answered on its own port alone.
pub stp_port_handle_packet_lem :
    (s : Stp) (i : ℕ) (p : Port) (c : Config)
    → Inv s
    → get_elem? s.ports i ≡ some p
    → c.msg_type ≡ 0
    → let (s', sent) = stp_port_handle_packet s i c in
      (config_priority_cmp p c ≡ true) × (outs sent ≡ designated_from s' 0 s'.ports)
      ⊎ (config_priority_cmp p c ≡ false) × (s' ≡ s) × (outs sent ≡ i ∷ [])
unfolding stp_port_handle_packet stp_handle_config_packet stp_send_config
stp_port_handle_packet_lem s i p c v e config = elim (Bool-cases (config_priority_cmp p c)) [
  | inl better ↦
      rw (e, stp_port_handle_packet, eq→== _ _ config, better)
        (inl (refl, send_from-outs _ 0 _ (accept_config-Inv s i p c v e).core))
  | inr worse ↦
      rw (e, stp_port_handle_packet, eq→== _ _ config, worse)
        (inr (refl, refl, ap outs (sends_one s i p v.core) ∙ sent_on))
]
  where
    sent_on : outs (stp_port_send_packet i p (port_config s p) ∷ []) ≡ i ∷ []
    sent_on = unfold stp_port_send_packet in refl

packet-Says :
    (s : Stp) (i : ℕ) (c : Config)
    → Inv s
    → All (Says (stp_port_handle_packet s i c).0) (stp_port_handle_packet s i c).1
unfolding stp_port_handle_packet stp_handle_config_packet stp_send_config
packet-Says s i c v = elim (Option-cases (get_elem? s.ports i)) [
  | inl e ↦ rw (e, stp_port_handle_packet) tt
  | inr (p, e) ↦ elim (Bool-cases (c.msg_type == 0)) [
    | inr other ↦ rw (e, stp_port_handle_packet, other) tt
    | inl config ↦ elim (Bool-cases (config_priority_cmp p c)) [
      | inl better ↦
          rw (e, stp_port_handle_packet, config, better)
            (send_from-Says _ 0 _ (accept_config-Inv s i p c v e).core refl)
      | inr worse ↦
          rw (e, stp_port_handle_packet, config, worse) (stp_port_send_config-Says s i p v.core e)
    ]
  ]
]

-- Whatever the switch sends, in answer to a packet or when the hello timer fires, tells the receiver
-- the root and the cost that the switch believes in from then on, and leaves on the port it names.
pub step-Says : (s : Stp) (e : Event) → Inv s → All (Says (step s e).0) (step s e).1
unfolding step
step-Says s (packet i c) v = packet-Says s i c v
step-Says s (tick now later) v = timer-Says s now later v.core

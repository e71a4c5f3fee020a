-- ===== src/Stp/Update.antt =====
-- 04_stp/stp.c: the election of the root port, the update of the ports, and the packet handler.
use Prim.Native.Nat.{bit_or}
use computer_net_ucas.Common.{
  ℕ, zero, suc, ◌+◌, ◌*◌, ◌%◌, ◌^◌, Bool, true, false, not, ◌&&◌, Option, none, some, List, [], ◌∷◌,
  ◌==◌, if◌then◌else◌, length, get_elem?, set,
}
use computer_net_ucas.Word.{u64_mod, add32}
use computer_net_ucas.Stp.Timers.{stp_init_timer, stp_start_timer, stp_stop_timer}
use computer_net_ucas.Stp.{
  Config, Port, Stp, Frame, hello_time, stp_is_root_switch, stp_port_is_designated,
  stp_port_is_root, stp_port_send_config, stp_send_config, stp_timer_run_once, config_priority_cmp,
  port_priority_cmp, replace_port_config,
}

-- `cur_root_id` after the non-designated port `p` at index `i` has been compared with it.
unfoldable pub challenge : List Port → Option ℕ → ℕ → Port → Option ℕ
challenge ports none i p = some i
challenge ports (some c) i p = elim (get_elem? ports c) [
  | none ↦ some c
  | some q ↦ if port_priority_cmp q p then some i else some c
]

-- The loop of `update_stp_status` from port `i` on; `none` stands for `cur_root_id == -1`.
unfoldable pub elect : Stp → List Port → ℕ → Option ℕ → Option ℕ
elect s [] i cur = cur
elect s (p ∷ ps) i cur =
    elect s ps (i + 1) (if stp_port_is_designated s p then cur else challenge s.ports cur i p)

-- The switch with the given root port, or as root.
unfoldable pub adopt : Stp → ℕ → Port → Stp
adopt s r q = record s {
  root_port = some r;
  designated_root = q.designated_root;
  root_path_cost = add32 q.designated_cost q.path_cost;
}

unfoldable pub become_root : Stp → Stp
become_root s = record s { root_port = none; designated_root = s.switch_id; root_path_cost = 0 }

unfoldable pub update_stp_status : Stp → Stp
unfolding adopt become_root
update_stp_status s = elim (elect s s.ports 0 none) [
  | none ↦ become_root s
  | some r ↦ elim (get_elem? s.ports r) [ none ↦ become_root s | some q ↦ adopt s r q ]
]

-- The loop of `dp_all_priority_cmp`.
unfoldable pub unbeaten : Stp → Port → List Port → Bool
unbeaten s p [] = true
unbeaten s p (q ∷ qs) =
    if not (stp_port_is_designated s q) && port_priority_cmp p q then false else unbeaten s p qs

unfoldable pub dp_all_priority_cmp : Stp → Port → Bool
unfolding unbeaten
dp_all_priority_cmp s p = unbeaten s p s.ports

-- One round of `update_port_config`, on port `p`.
unfoldable pub update_port : Stp → Port → Port
update_port s p =
    if stp_port_is_designated s p
    then record p { designated_root = s.designated_root; designated_cost = s.root_path_cost }
    else if not (stp_port_is_root s p) && dp_all_priority_cmp s p
    then record p { designated_switch = s.switch_id; designated_port = p.port_id }
    else p

unfoldable pub update_round : Stp → ℕ → Stp
update_round s i = elim (get_elem? s.ports i) [
  | none ↦ s
  | some p ↦ record s { ports = set s.ports i (update_port s p) }
]

-- `n` rounds from port `i` on; each reads the ports as the rounds before have left them.
unfoldable pub update_rounds : ℕ → ℕ → Stp → Stp
update_rounds zero i s = s
update_rounds (suc n) i s = update_rounds n (i + 1) (update_round s i)

unfoldable pub update_port_config : Stp → Stp
update_port_config s = update_rounds (length s.ports) 0 s

unfoldable pub halt_hello : Stp → Stp
halt_hello s =
    if stp_is_root_switch s then s else record s { hello_timer = stp_stop_timer s.hello_timer }

-- The state after a better packet on port `i`, whose record is `p`.
unfoldable pub accept_config : Stp → ℕ → Port → Config → Stp
accept_config s i p c = halt_hello (
    update_port_config
      (update_stp_status (record s { ports = set s.ports i (replace_port_config p c) })))

unfoldable pub stp_handle_config_packet : Stp → ℕ → Port → Config → Stp × List Frame
stp_handle_config_packet s i p c =
    if config_priority_cmp p c
    then (accept_config s i p c, stp_send_config (accept_config s i p c))
    else (s, stp_port_send_config s i p)

-- Topology changes and unknown types are only logged. A packet arrives on a port that exists.
unfoldable pub stp_port_handle_packet : Stp → ℕ → Config → Stp × List Frame
stp_port_handle_packet s i c = elim (get_elem? s.ports i) [
  | none ↦ (s, [])
  | some p ↦ if c.msg_type == 0 then stp_handle_config_packet s i p c else (s, [])
]

-- The loop over the six bytes of the first interface's address.
unfoldable pub mac_value : ℕ → List ℕ → ℕ
mac_value acc [] = acc
mac_value acc (b ∷ bs) = mac_value ((acc * 256 % u64_mod + b) % u64_mod) bs

-- `stp_port_init` on the port at index `n`, where the switch is still its own root.
unfoldable pub stp_port_init : ℕ → ℕ → List ℕ → Port
stp_port_init switch_id n mac = record {
  port_id = bit_or 0x8000 (n + 1);
  mac = mac;
  path_cost = 1;
  designated_root = switch_id;
  designated_switch = switch_id;
  designated_port = bit_or 0x8000 (n + 1);
  designated_cost = 0;
}

unfoldable pub init_ports : ℕ → ℕ → List (List ℕ) → List Port
unfolding stp_port_init
init_ports switch_id n [] = []
init_ports switch_id n (mac ∷ macs) =
    stp_port_init switch_id n mac ∷ init_ports switch_id (n + 1) macs

unfoldable pub first_mac : List (List ℕ) → List ℕ
first_mac [] = []
first_mac (mac ∷ macs) = mac

-- The interfaces are given by their addresses. The priority fills the two upper bytes.
unfoldable pub stp_init : List (List ℕ) → ℕ → Stp
unfolding mac_value first_mac init_ports stp_init_timer stp_start_timer
stp_init macs now =
    let id = bit_or (mac_value 0 (first_mac macs)) (0x8000 * 2 ^ 48) % u64_mod in
    record {
      switch_id = id;
      designated_root = id;
      root_path_cost = 0;
      root_port = none;
      hello_timer = stp_start_timer (stp_init_timer hello_time) now;
      ports = init_ports id 0 macs;
    }

-- What happens to a running switch: a packet on a port, or a round of the timer thread.
pub data Event : Type 0 where
  packet : ℕ → Config → Event
  tick : ℕ → ℕ → Event

unfoldable pub step : Stp → Event → Stp × List Frame
unfolding stp_port_handle_packet stp_timer_run_once
step s (packet i c) = stp_port_handle_packet s i c
step s (tick now later) = stp_timer_run_once s now later

unfoldable pub run : Stp → List Event → Stp
unfolding step
run s [] = s
run s (e ∷ es) = run (step s e).0 es

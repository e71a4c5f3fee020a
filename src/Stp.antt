-- ===== src/Stp.antt =====
-- 04_stp/stp.c: the spanning-tree switch. A port pointer is the port's index in `stp->ports`, the
-- fields of a config packet are kept as they stand on the wire, and what the code hands to
-- `iface_send_packet` is the list of frames that an operation returns.
pub mod Timers
pub mod Priority
pub mod Update
pub mod Election
pub mod Emit
pub mod Invariant
mod Main
mod Tests
use Prim.Native.Nat.{bit_or}
use computer_net_ucas.Common.{
  ℕ, zero, suc, ◌+◌, ◌*◌, ◌%◌, ◌^◌, Bool, true, false, not, ◌&&◌, ◌||◌, Option, none, some, List,
  [], ◌∷◌, ◌++◌, ltb, ◌==◌, if◌then◌else◌, length, get_elem?, set, arith,
}
use computer_net_ucas.Word.{u64_mod, add32, int_ltb, htons, htonl, htonll}
use Timers.{Timer, stp_init_timer, stp_start_timer, stp_stop_timer, stp_check_timer}

-- `struct stp_config` with its header.
pub record Config : Type 0 where
  pub proto_id : ℕ
  pub version : ℕ
  pub msg_type : ℕ
  pub flags : ℕ
  pub root_id : ℕ
  pub root_path_cost : ℕ
  pub switch_id : ℕ
  pub port_id : ℕ
  pub msg_age : ℕ
  pub max_age : ℕ
  pub hello_time : ℕ
  pub fwd_delay : ℕ

-- `struct stp_port`; `mac` is the address of its interface.
pub record Port : Type 0 where
  pub port_id : ℕ
  pub mac : List ℕ
  pub path_cost : ℕ
  pub designated_root : ℕ
  pub designated_switch : ℕ
  pub designated_port : ℕ
  pub designated_cost : ℕ

-- `struct stp`; `nports` is the length of `ports`, and `none` the null `root_port`.
pub record Stp : Type 0 where
  pub switch_id : ℕ
  pub designated_root : ℕ
  pub root_path_cost : ℕ
  pub root_port : Option ℕ
  pub hello_timer : Timer
  pub ports : List Port

-- What leaves through the interface of port `out`: Ethernet header, LLC header and message.
pub record Frame : Type 0 where
  pub out : ℕ
  pub dhost : List ℕ
  pub shost : List ℕ
  pub ether_type : ℕ
  pub dsap : ℕ
  pub ssap : ℕ
  pub cntl : ℕ
  pub msg : Config

pub data Role : Type 0 where
  root designated alternate : Role

abbrev pub eth_stp_addr : List ℕ
eth_stp_addr = 0x01 ∷ 0x80 ∷ 0xC2 ∷ 0x00 ∷ 0x00 ∷ 0x01 ∷ []

abbrev pub hello_time : ℕ
hello_time = 512

-- `LLC_HDR_SIZE` and `sizeof(struct stp_config)`.
abbrev pub msg_size : ℕ
msg_size = 3 + 35

unfoldable pub stp_is_root_switch : Stp → Bool
stp_is_root_switch s = s.designated_root == s.switch_id

unfoldable pub stp_port_is_designated : Stp → Port → Bool
stp_port_is_designated s p = p.designated_switch == s.switch_id && p.designated_port == p.port_id

unfoldable pub stp_port_is_root : Stp → Port → Bool
stp_port_is_root s p = elim s.root_port [
  | none ↦ false
  | some r ↦ elim (get_elem? s.ports r) [ none ↦ false | some q ↦ p.port_id == q.port_id ]
]

unfoldable pub stp_port_state : Stp → Port → Role
unfolding stp_port_is_root stp_port_is_designated
stp_port_state s p =
    if stp_port_is_root s p
    then Role.root
    else if stp_port_is_designated s p
    then Role.designated
    else Role.alternate

unfoldable pub stp_port_send_packet : ℕ → Port → Config → Frame
stp_port_send_packet i p msg = record {
  out = i;
  dhost = eth_stp_addr;
  shost = p.mac;
  ether_type = htons msg_size;
  dsap = 0x42;
  ssap = 0x42;
  cntl = 3;
  msg = msg;
}

-- The config that the switch sends on a port. The ages are 20, 2 and 15 seconds in ticks.
unfoldable pub port_config : Stp → Port → Config
port_config s p = record {
  proto_id = htons 0;
  version = 0;
  msg_type = 0;
  flags = 0;
  root_id = htonll s.designated_root;
  root_path_cost = htonl s.root_path_cost;
  switch_id = htonll s.switch_id;
  port_id = htons (p.port_id % 2 ^ 16);
  msg_age = htons 0;
  max_age = htons 5120;
  hello_time = htons hello_time;
  fwd_delay = htons 3840;
}

abbrev is_none {ℓ} : {A : Type ℓ} → Option A → Bool
is_none none = true
is_none (some _) = false

unfoldable pub stp_port_send_config : Stp → ℕ → Port → List Frame
unfolding stp_is_root_switch stp_port_send_packet
stp_port_send_config s i p =
    if not (stp_is_root_switch s) && is_none s.root_port
    then []
    else stp_port_send_packet i p (port_config s p) ∷ []

-- The loop of `stp_send_config` from port `i` on.
unfoldable pub send_from : Stp → ℕ → List Port → List Frame
send_from s i [] = []
send_from s i (p ∷ ps) =
    (if stp_port_is_designated s p then stp_port_send_config s i p else [])
    ++ send_from s (i + 1) ps

unfoldable pub stp_send_config : Stp → List Frame
unfolding send_from
stp_send_config s = send_from s 0 s.ports

unfoldable pub stp_handle_hello_timeout : Stp → ℕ → Stp × List Frame
unfolding stp_send_config stp_start_timer
stp_handle_hello_timeout s now =
    (record s { hello_timer = stp_start_timer s.hello_timer now }, stp_send_config s)

-- `stp_timer_run_once`: the hello timer is the only one in the list. `later` is the time that the
-- handler reads for itself.
unfoldable pub stp_timer_run_once : Stp → ℕ → ℕ → Stp × List Frame
unfolding stp_check_timer stp_handle_hello_timeout
stp_timer_run_once s now later =
    let (t, fired) = stp_check_timer s.hello_timer now in
    if fired
    then stp_handle_hello_timeout (record s { hello_timer = t }) later
    else (record s { hello_timer = t }, [])

-- Whether the packet's vector is better than the port's: `int`s compare signed, and against an
-- unsigned field unsigned.
unfoldable pub config_priority_cmp : Port → Config → Bool
config_priority_cmp p c =
    if not (p.designated_root == htonll c.root_id)
    then ltb (htonll c.root_id) p.designated_root
    else if not (p.designated_cost == htonl c.root_path_cost)
    then ltb (htonl c.root_path_cost) p.designated_cost
    else if not (p.designated_switch == htonll c.switch_id)
    then ltb (htonll c.switch_id) p.designated_switch
    else if not (p.designated_port == htons c.port_id)
    then int_ltb (htons c.port_id) p.designated_port
    else false

-- Whether the second port's vector is better than the first's.
unfoldable pub port_priority_cmp : Port → Port → Bool
port_priority_cmp p q =
    if not (p.designated_root == q.designated_root)
    then ltb q.designated_root p.designated_root
    else if not (p.designated_cost == q.designated_cost)
    then int_ltb q.designated_cost p.designated_cost
    else if not (p.designated_switch == q.designated_switch)
    then ltb q.designated_switch p.designated_switch
    else if not (p.designated_port == q.designated_port)
    then int_ltb q.designated_port p.designated_port
    else false

unfoldable pub replace_port_config : Port → Config → Port
replace_port_config p c = record p {
  designated_root = htonll c.root_id;
  designated_cost = htonl c.root_path_cost;
  designated_switch = htonll c.switch_id;
  designated_port = htons c.port_id;
}

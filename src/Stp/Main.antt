-- ===== src/Stp/Main.antt =====
-- handle_packet and ustack_run of 04_stp/main.c: the frames of the switch as the bytes that its
-- sockets carry. The loop is the one of Device; `port` is the field of an interface that stp_init
-- sets, as an index.
use computer_net_ucas.Common.{
  All, ℕ, ◌+◌, ◌*◌, ◌/◌, ◌%◌, ◌^◌, ◌<◌, ◌≡◌, refl, sym, ap, ◌∙◌, List, [], ◌∷◌, ◌++◌, ◌==◌,
  if◌then◌else◌, drop, length, map, arith, suc,
}
use computer_net_ucas.Word.{
  u16_mod, u32_mod, u64_mod, bytes16, bytes32, htons-lt, htonl-lt, htonll-lt,
}
use computer_net_ucas.Packet.{Iface}
use computer_net_ucas.Packet.Frame.{byte, load16, load32, join16, join32}
use computer_net_ucas.Stp.{
  Stp, Port, Config, Frame, eth_stp_addr, port_config, stp_port_send_packet,
}
use computer_net_ucas.Stp.Update.{stp_port_handle_packet, Event, packet, step, run}
use computer_net_ucas.Device
use computer_net_ucas.Device.{Device, Poll, fd_of}
use computer_net_ucas.Device.Init.{IsDistinct}
use computer_net_ucas.Device.Loop.{frames_of, handle_all, ustack_run-handle_all}

abbrev pub bytes64 : ℕ → List ℕ
bytes64 w = bytes32 (w % u32_mod) ++ bytes32 (w / u32_mod)

abbrev pub load64 : List ℕ → ℕ → ℕ
load64 bs i = load32 bs i + load32 bs (i + 4) * u32_mod

-- `struct stp_config` in memory.
abbrev pub config_bytes : Config → List ℕ
config_bytes c =
    bytes16 c.proto_id
    ++ (c.version ∷ c.msg_type ∷ c.flags ∷ bytes64 c.root_id
        ++ (bytes32 c.root_path_cost
            ++ (bytes64 c.switch_id
                ++ (bytes16 c.port_id
                    ++ (bytes16 c.msg_age
                        ++ (bytes16 c.max_age ++ (bytes16 c.hello_time ++ bytes16 c.fwd_delay)))))))

-- The bytes that `stp_port_send_packet` of stp.c hands to the interface.
abbrev pub frame_bytes : Frame → List ℕ
frame_bytes f =
    f.dhost
    ++ (f.shost ++ (bytes16 f.ether_type ++ (f.dsap ∷ f.ssap ∷ f.cntl ∷ config_bytes f.msg)))

-- The config behind the Ethernet and LLC headers.
unfoldable pub config_at : List ℕ → Config
config_at bs = record {
  proto_id = load16 bs 0;
  version = byte bs 2;
  msg_type = byte bs 3;
  flags = byte bs 4;
  root_id = load64 bs 5;
  root_path_cost = load32 bs 13;
  switch_id = load64 bs 17;
  port_id = load16 bs 25;
  msg_age = load16 bs 27;
  max_age = load16 bs 29;
  hello_time = load16 bs 31;
  fwd_delay = load16 bs 33;
}

abbrev swapped : Stp × List Frame → List Frame × Stp
swapped (s, out) = (out, s)

-- `handle_packet`: the comparison is of `sizeof(*eth_stp_addr)` bytes, which is one.
unfoldable pub handle_packet :
    {E : Type 0} → (Iface → ℕ) → E → Iface → List ℕ → Stp → List Frame × Stp
unfolding config_at stp_port_handle_packet
handle_packet port env iface frame s =
    if byte frame 0 == byte eth_stp_addr 0
    then swapped (stp_port_handle_packet s (port iface) (config_at (drop (14 + 3) frame)))
    else ([], s)

-- `ustack_run`, whose loop is the one of 06-router.
unfoldable pub ustack_run :
    {E : Type 0} → (Iface → ℕ) → List Device → List ℕ → List (Poll E) → Stp → List Frame × Stp
unfolding handle_packet Device.ustack_run
ustack_run port devices fds polls s = Device.ustack_run (handle_packet port) devices fds polls s

-- The fields of a config fit the struct.
abbrev pub IsPacked : Config → Type 0
IsPacked c =
    (c.proto_id < u16_mod)
    × (c.root_id < u64_mod)
    × (c.root_path_cost < u32_mod)
    × (c.switch_id < u64_mod)
    × (c.port_id < u16_mod)
    × (c.msg_age < u16_mod)
    × (c.max_age < u16_mod)
    × (c.hello_time < u16_mod)
    × (c.fwd_delay < u16_mod)

join64 :
    (w : ℕ)
    → w < u64_mod
    → (w % u32_mod % 256
          + w % u32_mod / 256 % 256 * 256
          + (w % u32_mod / 2 ^ 16 % 256 + w % u32_mod / 2 ^ 24 % 256 * 256) * u16_mod)
        + (w / u32_mod % 256
            + w / u32_mod / 256 % 256 * 256
            + (w / u32_mod / 2 ^ 16 % 256 + w / u32_mod / 2 ^ 24 % 256 * 256) * u16_mod)
          * u32_mod
      ≡ w
join64 w h =
    rw (join32 (w % u32_mod) (omega arith), join32 (w / u32_mod) (omega arith)) (omega arith)

-- What is read from the bytes of a config is the config.
config_at-config_bytes : (c : Config) → IsPacked c → config_at (config_bytes c) ≡ c
unfolding config_at
config_at-config_bytes c (a, b, d, e, f, g, h, i, j) =
    rw
      (
        join16 c.proto_id a,
        join64 c.root_id b,
        join32 c.root_path_cost d,
        join64 c.switch_id e,
        join16 c.port_id f,
        join16 c.msg_age g,
        join16 c.max_age h,
        join16 c.hello_time i,
        join16 c.fwd_delay j,
      )
      refl

port_config-IsPacked : (s : Stp) (p : Port) → IsPacked (port_config s p)
unfolding port_config
port_config-IsPacked s p = (
  htons-lt _,
  htonll-lt _,
  htonl-lt _,
  htonll-lt _,
  htons-lt _,
  htons-lt _,
  htons-lt _,
  htons-lt _,
  htons-lt _,
)

drop-append : (k : ℕ) (xs ys : List ℕ) → drop (length xs + k) (xs ++ ys) ≡ drop k ys
drop-append k [] ys = ap (λ n. drop n ys) none_before
  where
    none_before : 0 + k ≡ k
    none_before = omega arith
drop-append k (x ∷ xs) ys = ap (λ n. drop n (x ∷ xs ++ ys)) same ∙ drop-append k xs ys
  where
    same : length (x ∷ xs) + k ≡ suc (length xs + k)
    same = omega arith

-- A config in flight: the interface that it arrives on, and the switch that sent it with its port.
abbrev pub Flight : Type 0
Flight = Iface × Stp × ℕ × Port

abbrev pub HasMac : Flight → Type 0
HasMac (iface, t, j, p) = length p.mac ≡ 6

handle_packet-port_config :
    {E : Type 0} (port : Iface → ℕ) (env : E) (iface : Iface) (s t : Stp) (j : ℕ) (p : Port)
    → length p.mac ≡ 6
    → handle_packet port env iface (frame_bytes (stp_port_send_packet j p (port_config t p))) s
      ≡ swapped (stp_port_handle_packet s (port iface) (port_config t p))
unfolding handle_packet stp_port_send_packet
handle_packet-port_config port env iface s t j p mac =
    let c = port_config t p in
    let behind =
      drop 12 (frame_bytes (record (stp_port_send_packet j p c) { shost = eth_stp_addr })) in
    let read : drop 11 (p.mac ++ behind) ≡ config_bytes c =
      ap (λ n. drop (n + 5) (p.mac ++ behind)) (sym mac) ∙ drop-append 5 p.mac behind in
    ap (λ bs. swapped (stp_port_handle_packet s (port iface) (config_at bs))) read
    ∙ ap (λ x. swapped (stp_port_handle_packet s (port iface) x))
        (config_at-config_bytes c (port_config-IsPacked t p))

-- The frames of configs in flight, and the steps of the switch that they are.
abbrev pub carried : {E : Type 0} → E → List Flight → List (E × Iface × List ℕ)
carried env [] = []
carried env ((iface, t, j, p) ∷ fs) =
    (env, iface, frame_bytes (stp_port_send_packet j p (port_config t p))) ∷ carried env fs

abbrev pub packets_of : (Iface → ℕ) → List Flight → List Event
packets_of port [] = []
packets_of port ((iface, t, j, p) ∷ fs) = packet (port iface) (port_config t p) ∷ packets_of port fs

handle_all-run :
    {E : Type 0} (port : Iface → ℕ) (env : E) (fs : List Flight) (s : Stp)
    → All HasMac fs
    → (handle_all (handle_packet port) (carried env fs) s).1 ≡ run s (packets_of port fs)
unfolding run step
handle_all-run port env [] s h = refl
handle_all-run port env ((iface, t, j, p) ∷ fs) s (mac, h) =
    ap (λ r. (handle_all (handle_packet port) (carried env fs) r.1).1)
      (handle_packet-port_config port env iface s t j p mac)
    ∙ handle_all-run port env fs _ h

-- What the loop does with the bytes of the configs that other switches send, on the interfaces that
-- its polls find them on, is the run of the switch on those configs, when the descriptors of the
-- interfaces are distinct and addresses have six bytes.
pub ustack_run-run :
    {E : Type 0} (port : Iface → ℕ) (env : E) (devices : List Device) (polls : List (Poll E))
    (fs : List Flight) (s : Stp)
    → IsDistinct (map fd_of devices)
    → All HasMac fs
    → frames_of devices polls ≡ carried env fs
    → (ustack_run port devices (map fd_of devices) polls s).1 ≡ run s (packets_of port fs)
unfolding ustack_run
ustack_run-run port env devices polls fs s distinct macs arrive =
    ap (λ r. r.1) (ustack_run-handle_all (handle_packet port) devices polls s distinct)
    ∙ ap (λ bs. (handle_all (handle_packet port) bs s).1) arrive
    ∙ handle_all-run port env fs s macs

-- ===== src/Stp/Tests.antt =====
-- The switch of 04_stp/stp.c on concrete packets.
use computer_net_ucas.Common.{
  ℕ, ◌^◌, ◌≤◌, ◌<◌, ◌≡◌, ◌⊎◌, refl, true, false, false≢true, none, some, List, [], ◌∷◌, All, arith,
}
use computer_net_ucas.Stp.{
  Config, Port, Stp, Frame, stp_port_is_designated, port_priority_cmp, config_priority_cmp,
  replace_port_config,
}
use computer_net_ucas.Stp.Priority.{InRange, port_rank}
use computer_net_ucas.Stp.Update.{
  Event, packet, tick, update_stp_status, stp_port_handle_packet, stp_init, step, run,
}
use computer_net_ucas.Stp.Election.{root_port_least}
use computer_net_ucas.Stp.Emit.{Says, outs, designated_from, stp_port_handle_packet_lem, step-Says}
use computer_net_ucas.Stp.Invariant.{Inv, run-stp_init-Inv}
use computer_net_ucas.Common.{map}
use computer_net_ucas.Packet.{Iface}
use computer_net_ucas.Device.{Device, Poll, poll_ready, poll_none, quiet, incoming, fd_of}
use computer_net_ucas.Stp.{port_config, stp_port_send_packet}
use computer_net_ucas.Stp.Main.{ustack_run, frame_bytes, packets_of, Flight, ustack_run-run}

-- A switch of two ports as it starts.
abbrev macs : List (List ℕ)
macs = (0 ∷ 0 ∷ 0 ∷ 0 ∷ 0 ∷ 9 ∷ []) ∷ (0 ∷ 0 ∷ 0 ∷ 0 ∷ 0 ∷ 10 ∷ []) ∷ []

-- Switch 1 says that it is the root, in network byte order.
abbrev from_root : Config
from_root = record {
  proto_id = 0;
  version = 0;
  msg_type = 0;
  flags = 0;
  root_id = 2 ^ 56;
  root_path_cost = 0;
  switch_id = 2 ^ 56;
  port_id = 0x180;
  msg_age = 0;
  max_age = 0;
  hello_time = 0;
  fwd_delay = 0;
}

run-stp_init-Inv_example : Inv (run (stp_init macs 0) (packet 1 from_root ∷ tick 600 601 ∷ []))
run-stp_init-Inv_example =
    run-stp_init-Inv macs 0 (packet 1 from_root ∷ tick 600 601 ∷ []) (omega arith)

started-Inv : Inv (run (stp_init macs 0) [])
started-Inv = run-stp_init-Inv macs 0 [] (omega arith)

abbrev own_port : Port
own_port = record {
  port_id = 0x8001;
  mac = [];
  path_cost = 1;
  designated_root = 9;
  designated_switch = 9;
  designated_port = 0x8001;
  designated_cost = 0;
}

abbrev upstream : Port
upstream = record {
  port_id = 0x8002;
  mac = [];
  path_cost = 1;
  designated_root = 1;
  designated_switch = 1;
  designated_port = 0x8001;
  designated_cost = 4;
}

abbrev switch : Stp
switch = record {
  switch_id = 9;
  designated_root = 9;
  root_path_cost = 0;
  root_port = none;
  hello_timer = record { active = false; time = 0; timeout = 512 };
  ports = own_port ∷ upstream ∷ [];
}

abbrev lonely : Stp
lonely = record switch { ports = own_port ∷ [] }

own-InRange : InRange own_port
own-InRange = record {
  own = omega arith;
  root = omega arith;
  cost = omega arith;
  switch = omega arith;
  port = omega arith;
}

upstream-InRange : InRange upstream
upstream-InRange = record {
  own = omega arith;
  root = omega arith;
  cost = omega arith;
  switch = omega arith;
  port = omega arith;
}

lonely-Inv : Inv lonely
lonely-Inv = record {
  core = record { id = omega arith; ranges = (own-InRange, tt); follows = (refl, refl) };
  hello = λ e. absurd (false≢true e);
}

step-Says_example :
    All (Says (step lonely (packet 0 from_root)).0) (step lonely (packet 0 from_root)).1
step-Says_example = step-Says lonely (packet 0 from_root) lonely-Inv

stp_port_handle_packet_lem_example :
    let (s, sent) = stp_port_handle_packet lonely 0 from_root in
    (config_priority_cmp own_port from_root ≡ true) × (outs sent ≡ designated_from s 0 s.ports)
    ⊎ (config_priority_cmp own_port from_root ≡ false) × (s ≡ lonely) × (outs sent ≡ 0 ∷ [])
stp_port_handle_packet_lem_example =
    stp_port_handle_packet_lem lonely 0 own_port from_root lonely-Inv refl refl

chosen : (update_stp_status switch).root_port ≡ some 1
unfolding update_stp_status computer_net_ucas.Stp.Update.elect stp_port_is_designated
    computer_net_ucas.Stp.Update.challenge
chosen = refl

apart : stp_port_is_designated switch upstream ≡ false
unfolding stp_port_is_designated
apart = refl

root_port_least_example :
    (stp_port_is_designated switch upstream ≡ false)
    × (port_rank upstream ≤ port_rank upstream)
    × (1 < 1 → port_rank upstream < port_rank upstream)
    × ((update_stp_status switch).designated_root ≡ 1)
    × ((update_stp_status switch).root_path_cost ≡ 5)
root_port_least_example =
    root_port_least switch 1 1 upstream upstream (own-InRange, (upstream-InRange, tt)) chosen refl
      refl apart

-- A port with a cost of 2 ^ 31, and the packet that it took over.
abbrev costly : Config
costly = record from_root { root_path_cost = 0x80 }

abbrev costly_port : Port
costly_port = replace_port_config upstream costly

-- Two interfaces, and the config of a neighbour that arrives on the second.
abbrev eth0 : Device
eth0 = record { name = 48 ∷ []; fd = 3; iface = record { index = 0; mac = 9; ip = 0 }; mask = 0 }

abbrev eth1 : Device
eth1 = record { name = 49 ∷ []; fd = 4; iface = record { index = 1; mac = 10; ip = 0 }; mask = 0 }

abbrev neighbour : Stp
neighbour = stp_init ((0 ∷ 0 ∷ 0 ∷ 0 ∷ 0 ∷ 5 ∷ []) ∷ []) 0

abbrev neighbour_port : Port
neighbour_port = record own_port { mac = 0 ∷ 0 ∷ 0 ∷ 0 ∷ 0 ∷ 5 ∷ [] }

abbrev flights : List Flight
flights = (eth1.iface, neighbour, 0, neighbour_port) ∷ []

abbrev polls : List (Poll ℕ)
polls =
    poll_none
    ∷ poll_ready (
        quiet
        ∷ incoming 0 (
            frame_bytes
              (stp_port_send_packet 0 neighbour_port (port_config neighbour neighbour_port)))
        ∷ [])
    ∷ []

abbrev port_index : Iface → ℕ
port_index iface = iface.index

ustack_run-run_example :
    (ustack_run port_index
      (eth0 ∷ eth1 ∷ [])
      (map fd_of (eth0 ∷ eth1 ∷ []))
      polls
      (stp_init macs 0)).1
    ≡ run (stp_init macs 0) (packets_of port_index flights)
ustack_run-run_example =
    ustack_run-run port_index 0 (eth0 ∷ eth1 ∷ []) polls flights (stp_init macs 0)
      ((refl, tt), (tt, tt)) (refl, tt) refl

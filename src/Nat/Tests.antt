-- ===== src/Nat/Tests.antt =====
-- The translation table of 08-nat/nat.c with concrete packets.
use computer_net_ucas.Common.{
  List, map, ◌%◌, ◌≤◌, ◌<◌, ◌≡◌, refl, ap, false, some, [], ◌∷◌, first, arith,
}
use computer_net_ucas.Word.{htonl, htons}
use computer_net_ucas.Nat.{nat_port_min, nat_port_max, NatMapping, NatTable, Packet}
use computer_net_ucas.Nat.Table.{
  Outcome, sent, alloc_port, hit_out, translate_in, translate_out, finish, rewrite_out,
  flow_mapping,
}
use computer_net_ucas.Nat.Ports.{PortsOwned, users, users_none, bit}
use computer_net_ucas.Nat.Reach.{packet, sweep, run, run-users-le}
use computer_net_ucas.Nat.Flow.{new_flow, translate_in-translate_out}
use computer_net_ucas.Packet.{Iface}
use computer_net_ucas.Device.{Device}
use computer_net_ucas.Nat.Config.{nat_init}
use computer_net_ucas.Nat.Config.Rules.{Endpoint, rule_of}
use computer_net_ucas.Nat.Config.RoundTrip.{config_file, nat_init-rule_line}
use computer_net_ucas.Nat.Translate.{tcp_total, finish-tcp_total, finish-tcp_total_wrong}

abbrev empty_table : NatTable
empty_table = record {
  nat_mapping_list = λ i. [];
  internal_index = 1;
  external_ip = 0x9fe2271f;
  assigned_ports = λ q. false;
  rules = [];
}

-- From 10.21.0.1:0x1234 to 159.226.39.123:0x0050, with a SYN.
abbrev syn : Packet
syn = record {
  ver_ihl = 0x45;
  tos = 0;
  tot_len = 0x2800;
  id = 1;
  frag_off = 0x40;
  ttl = 64;
  protocol = 6;
  ip_sum = 0;
  saddr = 0x0100150a;
  daddr = 0x7b27e29f;
  options = [];
  sport = 0x3412;
  dport = 0x5000;
  seq = 0;
  ack = 0;
  x2_off = 0x50;
  flags = 2;
  rwnd = 0xffff;
  tcp_sum = 0;
  urp = 0;
  payload = [];
}

run-users-le_example :
    users 12345 (run empty_table (packet (λ ip. some 1) syn 5 ∷ sweep 6 ∷ [])).nat_mapping_list
    ≤ bit ((run empty_table (packet (λ ip. some 1) syn 5 ∷ sweep 6 ∷ [])).assigned_ports 12345)
run-users-le_example =
    run-users-le empty_table (packet (λ ip. some 1) syn 5 ∷ sweep 6 ∷ []) 12345 refl tt
      (omega arith) (omega arith)

finish-tcp_total_example : tcp_total (finish syn) % 65535 ≡ 0
unfolding htons
finish-tcp_total_example = finish-tcp_total syn refl (omega arith)

-- Between two addresses whose sum passes 32 bits.
abbrev far : Packet
far = record syn { saddr = 0x8100150a; daddr = 0xbb27e29f }

finish-tcp_total_wrong_example : tcp_total (finish far) % 65535 ≡ 1
unfolding htons
finish-tcp_total_wrong_example = finish-tcp_total_wrong far refl (omega arith) (omega arith)

empty-PortsOwned : PortsOwned empty_table
empty-PortsOwned q lo hi = omega (arith, users_none q)

abbrev syn_out : Packet
syn_out = rewrite_out (flow_mapping empty_table syn (alloc_port empty_table).0 5) syn

abbrev syn_reply : Packet
syn_reply = record syn {
  saddr = syn.daddr;
  sport = syn.dport;
  daddr = syn_out.saddr;
  dport = syn_out.sport;
  flags = 0x12;
}

translate_in-translate_out_example :
    (empty_table.assigned_ports (htons syn_out.sport) ≡ false)
    × (nat_port_min ≤ htons syn_out.sport)
    × (htons syn_out.sport < nat_port_max)
    × ((translate_in (translate_out empty_table syn 5).0 syn_reply 6).1
        ≡ sent (finish (record syn_reply { dport = 0x3412; daddr = 0x0100150a })))
translate_in-translate_out_example =
    translate_in-translate_out empty_table syn syn_out syn_reply 20000 5 6 empty-PortsOwned
      (omega arith) (omega arith) refl (omega arith) (omega arith) (omega arith) refl
      (ap (λ (x : NatTable × Outcome). x.1) (new_flow empty_table syn 5 refl)) refl refl refl refl

-- A table in which the flow of the SYN is known.
abbrev syn_mapping : NatMapping
syn_mapping = flow_mapping empty_table syn 12345 5

abbrev busy_table : NatTable
busy_table = record empty_table { nat_mapping_list = λ i. syn_mapping ∷ [] }

found : first (hit_out syn) (syn_mapping ∷ []) ≡ some syn_mapping
unfolding htonl htons
found = refl

-- The inner interface is n1, the outer one n2, and the file has two rules.
abbrev inner : Iface
inner = record { index = 1; mac = 77; ip = 0x0a150001 }

abbrev outer : Iface
outer = record { index = 2; mac = 78; ip = 0x9fe2272b }

abbrev devices : List Device
devices =
    record { name = 110 ∷ 49 ∷ []; fd = 3; iface = inner; mask = 0xffffff00 }
    ∷ record { name = 110 ∷ 50 ∷ []; fd = 4; iface = outer; mask = 0xffffff00 }
    ∷ []

abbrev rules : List (Endpoint × Endpoint)
rules =
    (
      record { a = 159; b = 226; c = 39; d = 43; port = 8000 },
      record { a = 10; b = 21; c = 0; d = 1; port = 80 },
    )
    ∷ (
      record { a = 159; b = 226; c = 39; d = 43; port = 65535 },
      record { a = 10; b = 21; c = 0; d = 2; port = 7 },
    )
    ∷ []

nat_init-rule_line_example :
    nat_init devices (some (config_file (110 ∷ 49 ∷ []) (110 ∷ 50 ∷ []) rules))
    ≡ some (record {
      nat_mapping_list = λ i. [];
      internal_iface = some inner;
      external_iface = some outer;
      assigned_ports = λ i. false;
      rules = map rule_of rules;
    })
unfolding computer_net_ucas.Nat.Config.if_name_to_iface
nat_init-rule_line_example =
    nat_init-rule_line devices (110 ∷ 49 ∷ []) (110 ∷ 50 ∷ []) rules
      ((refl, refl), ((refl, refl), tt)) ((refl, refl), ((refl, refl), tt)) (omega arith)
      (omega arith)
      (
        (
          (omega arith, omega arith, omega arith, omega arith, omega arith),
          (omega arith, omega arith, omega arith, omega arith, omega arith),
        ),
        (
          (
            (omega arith, omega arith, omega arith, omega arith, omega arith),
            (omega arith, omega arith, omega arith, omega arith, omega arith),
          ),
          tt,
        ),
      )

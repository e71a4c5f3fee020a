-- ===== src/Nat/Table.antt =====
-- 08-nat/nat.c: the operations on the translation table.
use computer_net_ucas.Common.{
  ℕ, zero, suc, ◌+◌, ◌-◌, ◌*◌, ◌%◌, Bool, true, false, not, ◌&&◌, ◌||◌, Option, none, some, List,
  [], ◌∷◌, ◌++◌, ltb, leb, ◌==◌, if◌then◌else◌, first,
}
use computer_net_ucas.Word.{u8_mod, u32_mod, htons, htonl}
use computer_net_ucas.Nat.{
  NatConnection, NatMapping, DnatRule, NatTable, Packet, nat_port_min, nat_port_max,
  tcp_established_timeout, tcp_fin, tcp_ack, ip_checksum, tcp_checksum, hash8_remote,
}

pub data PacketDir : Type 0 where
  dir_in dir_out dir_invalid : PacketDir

-- What becomes of a packet. A crash is a null pointer that the code follows.
pub data Outcome : Type 0 where
  sent : Packet → Outcome
  dropped host_unreachable crashed : Outcome

-- A write to one place of a table.
abbrev pub update {ℓ} : {A : Type ℓ} → (ℕ → A) → ℕ → A → ℕ → A
update f i v j = if j == i then v else f j

-- The loop of `alloc_port` with `n` ports to go; 0 means that none is free.
unfoldable pub find_port : (ℕ → Bool) → ℕ → ℕ → ℕ
find_port assigned zero i = 0
find_port assigned (suc n) i =
    let rest = find_port assigned n (i + 1) in if assigned i then rest else i

unfoldable pub alloc_port : NatTable → ℕ × NatTable
alloc_port t =
    let i = find_port t.assigned_ports (nat_port_max - nat_port_min) nat_port_min in
    if i == 0 then (0, t) else (i, record t { assigned_ports = update t.assigned_ports i true })

-- The statistics after a packet from outside, and after one from inside.
unfoldable pub conn_in : Packet → NatConnection → NatConnection
conn_in p c = record c {
  external_fin = if p.flags == tcp_fin then tcp_fin else 0;
  external_seq_end =
      if ltb c.external_seq_end (htonl p.seq) then htonl p.seq else c.external_seq_end;
  external_ack =
      if ltb c.external_ack (htonl p.ack) && p.flags == tcp_ack
      then htonl p.ack
      else c.external_ack;
}

unfoldable pub conn_out : Packet → NatConnection → NatConnection
conn_out p c = record c {
  internal_fin = if p.flags == tcp_fin then tcp_fin else c.internal_fin;
  internal_seq_end =
      if ltb c.internal_seq_end (htonl p.seq) then htonl p.seq else c.internal_seq_end;
  internal_ack =
      if ltb c.internal_ack (htonl p.ack) && p.flags == tcp_ack
      then htonl p.ack
      else c.internal_ack;
}

-- `memset(entry, 0, ...)`.
abbrev pub no_traffic : NatConnection
no_traffic = record {
  internal_fin = 0;
  external_fin = 0;
  internal_seq_end = 0;
  external_seq_end = 0;
  internal_ack = 0;
  external_ack = 0;
}

-- Changes the first entry that passes the test: the one that the list walk stops at.
unfoldable pub touch :
    (NatMapping → Bool) → (NatMapping → NatMapping) → List NatMapping → List NatMapping
touch hit f [] = []
touch hit f (e ∷ es) = if hit e then f e ∷ es else e ∷ touch hit f es

-- Both checksums of a rewritten packet; the IP checksum comes last.
unfoldable pub finish : Packet → Packet
finish p = let q = record p { tcp_sum = tcp_checksum p } in record q { ip_sum = ip_checksum q }

unfoldable pub rewrite_in : NatMapping → Packet → Packet
unfolding finish
rewrite_in e p = finish (record p { dport = htons e.internal_port; daddr = htonl e.internal_ip })

unfoldable pub rewrite_out : NatMapping → Packet → Packet
unfolding finish
rewrite_out e p = finish (record p { sport = htons e.external_port; saddr = htonl e.external_ip })

abbrev pub hit_in : Packet → NatMapping → Bool
hit_in p e = e.external_ip == htonl p.daddr && e.external_port == htons p.dport

abbrev pub hit_out : Packet → NatMapping → Bool
hit_out p e = e.internal_ip == htonl p.saddr && e.internal_port == htons p.sport

abbrev pub hit_rule : Packet → DnatRule → Bool
hit_rule p r = htonl p.daddr == r.external_ip && htons p.dport == r.external_port

-- The mapping that a rule makes for the remote end of the packet.
abbrev pub rule_mapping : DnatRule → ℕ → ℕ → ℕ → NatMapping
rule_mapping r rm_ip rm_port now = record {
  remote_ip = rm_ip;
  remote_port = rm_port;
  internal_ip = r.internal_ip;
  internal_port = r.internal_port;
  external_ip = r.external_ip;
  external_port = r.external_port;
  update_time = now;
  conn = no_traffic;
}

abbrev pub with_conn : (NatConnection → NatConnection) → NatMapping → NatMapping
with_conn f e = record e { conn = f e.conn }

-- `list_add_tail` on a bucket.
abbrev pub add_mapping : NatTable → ℕ → NatMapping → NatTable
add_mapping t i e = record t {
  nat_mapping_list = update t.nat_mapping_list i (t.nat_mapping_list i ++ (e ∷ []));
}

abbrev pub touch_mapping :
    NatTable → ℕ → (NatMapping → Bool) → (NatConnection → NatConnection) → NatTable
touch_mapping t i hit f = record t {
  nat_mapping_list = update t.nat_mapping_list i (touch hit (with_conn f) (t.nat_mapping_list i));
}

-- `do_translation` for DIR_IN.
unfoldable pub translate_in : NatTable → Packet → ℕ → NatTable × Outcome
unfolding rewrite_in
translate_in t p now =
    let rm_ip = htonl p.saddr in
    let rm_port = htons p.sport in
    let index = hash8_remote rm_ip rm_port in
    elim (first (hit_in p) (t.nat_mapping_list index)) [
      | some e ↦ (touch_mapping t index (hit_in p) (conn_in p), sent (rewrite_in e p))
      | none ↦ elim (first (hit_rule p) t.rules) [
        | none ↦ (t, dropped)
        | some r ↦ (
          add_mapping t index (with_conn (conn_in p) (rule_mapping r rm_ip rm_port now)),
          sent (rewrite_in (rule_mapping r rm_ip rm_port now) p),
        )
      ]
    ]

-- The mapping for a new flow from inside, with the port that has been allocated.
abbrev pub flow_mapping : NatTable → Packet → ℕ → ℕ → NatMapping
flow_mapping t p port now = record {
  remote_ip = htonl p.daddr;
  remote_port = htons p.dport;
  internal_ip = htonl p.saddr;
  internal_port = htons p.sport;
  external_ip = t.external_ip;
  external_port = port;
  update_time = now;
  conn = no_traffic;
}

-- `do_translation` for DIR_OUT.
unfoldable pub translate_out : NatTable → Packet → ℕ → NatTable × Outcome
unfolding rewrite_out
translate_out t p now =
    let index = hash8_remote (htonl p.daddr) (htons p.dport) in
    elim (first (hit_out p) (t.nat_mapping_list index)) [
      | some e ↦ (touch_mapping t index (hit_out p) (conn_out p), sent (rewrite_out e p))
      | none ↦
          let (port, t') = alloc_port t in
          (
            add_mapping t' index (with_conn (conn_out p) (flow_mapping t p port now)),
            sent (rewrite_out (flow_mapping t p port now) p),
          )
    ]

-- `do_translation`. A packet of another direction would be sent with fresh checksums.
unfoldable pub do_translation : NatTable → Packet → PacketDir → ℕ → NatTable × Outcome
do_translation t p dir_in now = translate_in t p now
do_translation t p dir_out now = translate_out t p now
do_translation t p dir_invalid now = (t, sent (finish p))

-- `route` is the index of the interface to which `longest_prefix_match` of the library leads, and
-- `none` its null pointer.
unfoldable pub get_packet_direction : NatTable → ℕ → PacketDir
get_packet_direction t index = if index == t.internal_index then dir_out else dir_in

unfoldable pub nat_translate_packet : (ℕ → Option ℕ) → NatTable → Packet → ℕ → NatTable × Outcome
unfolding get_packet_direction do_translation
nat_translate_packet route t p now = elim (route (htonl p.saddr)) [
  | none ↦ (t, crashed)
  | some index ↦ elim (get_packet_direction t index) [
    | dir_invalid ↦ (t, host_unreachable)
    | dir ↦ if p.protocol == 6 then do_translation t p dir now else (t, dropped)
  ]
]

unfoldable pub is_flow_finished : NatConnection → Bool
is_flow_finished c =
    (not (c.internal_fin == 0) && not (c.external_fin == 0))
    && (leb c.external_seq_end c.internal_ack && leb c.internal_seq_end c.external_ack)

unfoldable pub is_stale : ℕ → NatMapping → Bool
unfolding is_flow_finished
is_stale now e = is_flow_finished e.conn || ltb (e.update_time + tcp_established_timeout) now

-- One bucket of a sweep of `nat_timeout`: what stays, and the port flags.
unfoldable pub sweep_bucket : ℕ → List NatMapping → (ℕ → Bool) → List NatMapping × (ℕ → Bool)
unfolding is_stale
sweep_bucket now [] ports = ([], ports)
sweep_bucket now (e ∷ es) ports =
    let (rest, ports') =
      sweep_bucket now es (if is_stale now e then update ports e.external_port false else ports) in
    (if is_stale now e then rest else e ∷ rest, ports')

-- One sweep from bucket `i` on, with `n` buckets to go; the clock stands still during it.
unfoldable pub sweep_from : ℕ → ℕ → ℕ → NatTable → NatTable
unfolding sweep_bucket
sweep_from now zero i t = t
sweep_from now (suc n) i t =
    let (rest, ports) = sweep_bucket now (t.nat_mapping_list i) t.assigned_ports in
    sweep_from now n (i + 1)
      (record t { nat_mapping_list = update t.nat_mapping_list i rest; assigned_ports = ports })

unfoldable pub nat_timeout_round : ℕ → NatTable → NatTable
unfolding sweep_from
nat_timeout_round now t = sweep_from now 256 0 t

-- The loop of `nat_exit`, whose counter is a `u8`; `none` means that the fuel has run out.
unfoldable pub nat_exit_from : ℕ → ℕ → NatTable → Option NatTable
nat_exit_from zero i t = none
nat_exit_from (suc fuel) i t =
    let rest =
      nat_exit_from fuel ((i + 1) % u8_mod)
        (record t { nat_mapping_list = update t.nat_mapping_list i [] }) in
    if ltb i 256 then rest else some t

unfoldable pub nat_exit : ℕ → NatTable → Option NatTable
unfolding nat_exit_from
nat_exit fuel t = nat_exit_from fuel 0 t

-- The loop of `ip_tr` over the characters before the terminating zero; `tmp` is an unsigned char.
unfoldable pub ip_tr_from : ℕ → ℕ → List ℕ → ℕ
ip_tr_from ip tmp [] = (ip * 256 + tmp) % u32_mod
ip_tr_from ip tmp (c ∷ cs) =
    if c == b'.'
    then ip_tr_from ((ip * 256 + tmp) % u32_mod) 0 cs
    else ip_tr_from ip ((tmp * 10 + c + u8_mod - b'0') % u8_mod) cs

unfoldable pub ip_tr : List ℕ → ℕ
unfolding ip_tr_from
ip_tr cs = ip_tr_from 0 0 cs

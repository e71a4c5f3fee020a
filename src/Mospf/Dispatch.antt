-- ===== src/Mospf/Dispatch.antt =====
-- handle_ip_packet of 07-mospf/ip.c: the IP packets of a router that are for itself or for all
-- routers of a link, and among them the messages of the daemon, as bytes.
use computer_net_ucas.Common.{
  ℕ, ◌-◌, ◌<◌, ◌≡◌, refl, ap, ◌∙◌, inl, inr, true, Option, none, some, List, [], ◌∷◌, ◌==◌, ◌||◌,
  if◌then◌else◌, drop, length, map, Bool-cases, arith,
}
use computer_net_ucas.Word.{u16_mod, u32_mod, htonl, htons-lt, htonl-lt}
use computer_net_ucas.Checksum.{checksum}
use computer_net_ucas.Packet.{Iface, IpPacket, ip_hdr_size, ipproto_icmp, icmp_echorequest}
use computer_net_ucas.Forward.{icmp_type}
use computer_net_ucas.Mospf.{
  Daemon, Message, Send, load16, load32, message_bytes, mospf_checksum, sign,
}
use computer_net_ucas.Mospf.Neighbours.{array_of, lsu_message}
use computer_net_ucas.Mospf.Database.{handle_mospf_packet}
use computer_net_ucas.Mospf.Fresh.{entry_for}
use computer_net_ucas.Mospf.Wire.{
  IsNewer, host, load16_lem, load32_lem, handle_mospf_packet-lsu_message,
}

abbrev pub ipproto_mospf : ℕ
ipproto_mospf = 90

abbrev pub mospf_all_spf_routers : ℕ
mospf_all_spf_routers = 0xe0000005

-- What the handling of an IP packet leads to: messages of the daemon, an ICMP reply to it, or the
-- call of `ip_forward_packet`, which is in libipstack.a.
pub data Reaction : Type 0 where
  sends : List Send → Reaction
  icmp_echo_reply : IpPacket → Reaction
  ip_forward_packet : ℕ → IpPacket → Reaction

-- The bytes read as a header; none where they end before it does.
unfoldable pub message_of : List ℕ → Option Message
message_of (v ∷ t ∷ a ∷ b ∷ c ∷ d ∷ e ∷ f ∷ g ∷ h ∷ i ∷ j ∷ k ∷ l ∷ m ∷ n ∷ bs) = some (record {
  version = v;
  type = t;
  len = load16 a b;
  rid = load32 c d e f;
  aid = load32 g h i j;
  checksum = load16 k l;
  padding = load16 m n;
  body = bs;
})
message_of bs = none

abbrev taken : Option (List Send × Daemon) → Option (Reaction × Daemon)
taken none = none
taken (some r) = some (sends r.0, r.1)

abbrev read_by : Daemon → ℕ → ℕ → Option Message → Option (Reaction × Daemon)
read_by d k saddr none = none
read_by d k saddr (some m) = taken (handle_mospf_packet d k saddr m)

-- The call of `handle_mospf_packet`, with the header behind the IP header. Its handlers read the body
-- where it is without IP options.
unfoldable pub hand_over : Daemon → ℕ → IpPacket → Option (Reaction × Daemon)
unfolding message_of
hand_over d k p = read_by d k p.saddr (message_of (drop (ip_hdr_size p - 20) p.rest))

-- `handle_ip_packet` on interface `k`, which is `iface`; none where an assertion fails or a message
-- is read past its end.
unfoldable pub handle_ip_packet : Daemon → ℕ → Iface → IpPacket → Option (Reaction × Daemon)
unfolding hand_over
handle_ip_packet d k iface p =
    let daddr = htonl p.daddr in
    if daddr == iface.ip
    then if p.protocol == ipproto_icmp
      then some (if icmp_type p == icmp_echorequest then icmp_echo_reply p else sends [], d)
      else if p.protocol == ipproto_mospf
      then hand_over d k p
      else some (sends [], d)
    else if p.daddr == htonl mospf_all_spf_routers
    then if p.protocol == ipproto_mospf then hand_over d k p else none
    else some (ip_forward_packet daddr p, d)

message_of-message_bytes :
    (m : Message)
    → m.len < u16_mod
    → m.rid < u32_mod
    → m.aid < u32_mod
    → m.checksum < u16_mod
    → m.padding < u16_mod
    → message_of (message_bytes m m.checksum) ≡ some m
unfolding message_of
message_of-message_bytes m len rid aid sum padding =
    rw
      (
        load16_lem m.len len,
        load32_lem m.rid rid,
        load32_lem m.aid aid,
        load16_lem m.checksum sum,
        load16_lem m.padding padding,
      )
      refl

checksum-lt : (bs : List ℕ) (s : ℕ) → checksum bs s < u16_mod
unfolding checksum
checksum-lt bs s = omega arith

message_of-sign :
    (m : Message)
    → m.len < u16_mod
    → m.rid < u32_mod
    → m.aid < u32_mod
    → m.padding < u16_mod
    → message_of (message_bytes (sign m) (sign m).checksum) ≡ some (sign m)
unfolding sign mospf_checksum
message_of-sign m len rid aid padding =
    message_of-message_bytes (sign m) len rid aid (checksum-lt _ 0) padding

-- A packet for this router or for all routers that carries a message reaches the daemon.
dispatched :
    (d : Daemon) (k : ℕ) (iface : Iface) (p : IpPacket)
    → p.protocol ≡ ipproto_mospf
    → ((htonl p.daddr == iface.ip) || (p.daddr == htonl mospf_all_spf_routers)) ≡ true
    → handle_ip_packet d k iface p ≡ hand_over d k p
unfolding handle_ip_packet
dispatched d k iface p mospf here = rw mospf (elim (Bool-cases (htonl p.daddr == iface.ip)) [
  | inl own ↦ rw own refl
  | inr other ↦ rw other (rw (rw other at here) refl)
])

hand_over-message :
    (d : Daemon) (k : ℕ) (p : IpPacket) (m : Message)
    → ip_hdr_size p ≡ 20
    → message_of p.rest ≡ some m
    → hand_over d k p ≡ taken (handle_mospf_packet d k p.saddr m)
unfolding hand_over
hand_over-message d k p m plain read =
    ap (λ n. read_by d k p.saddr (message_of (drop (n - 20) p.rest))) plain
    ∙ ap (read_by d k p.saddr) read

message_of-lsu_message :
    (d : Daemon)
    → let m : Message = lsu_message d (array_of d.ifaces) in
      message_of (message_bytes m m.checksum) ≡ some m
message_of-lsu_message d =
    message_of-sign _ (htons-lt _) (htonl-lt d.router_id) (htonl-lt d.area_id) (omega arith)

-- An update that a router sends reaches the database of a router of its area from the bytes of the
-- IP packet: one of protocol 90 without options, to the address of the interface that it comes in by
-- or to all routers, stores the sequence number and the advertisements of the sender, where the
-- database has no entry for it or an older one. The numbers fit the fields of the message.
pub handle_ip_packet-lsu_message :
    (d e : Daemon) (k : ℕ) (iface : Iface) (p : IpPacket)
    → ip_hdr_size p ≡ 20
    → p.protocol ≡ ipproto_mospf
    → ((htonl p.daddr == iface.ip) || (p.daddr == htonl mospf_all_spf_routers)) ≡ true
    → p.rest
      ≡ message_bytes
          (lsu_message d (array_of d.ifaces))
          (lsu_message d (array_of d.ifaces)).checksum
    → d.area_id ≡ e.area_id
    → d.area_id < u32_mod
    → d.router_id < u32_mod
    → d.sequence_num < u16_mod
    → length (array_of d.ifaces) < u32_mod
    → IsNewer d.router_id d.sequence_num e.mospf_db
    → (sent : List Send) × (after : Daemon) × (handle_ip_packet e k iface p
        ≡ some (sends sent, after))
      × (entry_for d.router_id after.mospf_db
          ≡ some (record {
            rid = d.router_id;
            seq = d.sequence_num;
            nadv = length (array_of d.ifaces);
            alive = 0;
            array = map host (array_of d.ifaces);
          }))
handle_ip_packet-lsu_message d e k iface p plain mospf here carried same area id seq few newer =
    let (r, handled, stored) =
      handle_mospf_packet-lsu_message d e k p.saddr same area id seq few newer in
    let reads = ap message_of carried ∙ message_of-lsu_message d in
    (
      r.0,
      r.1,
      dispatched e k iface p mospf here ∙ hand_over-message e k p _ plain reads ∙ ap taken handled,
      stored,
    )

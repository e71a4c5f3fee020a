-- ===== src/Packet.antt =====
-- The packets of 06-router: struct ether_header, struct iphdr (include/ip.h), struct ether_arp
-- (include/arp.h) and struct icmphdr, with the functions that fill a new one: ip_init_hdr of
-- ip_base.c, arp_send_request and arp_send_reply of arp.c, icmp_send_packet of icmp.c. Fields are
-- kept as they are loaded from memory, in network byte order, and a MAC address is a number.
pub mod Frame
pub mod Icmp
use computer_net_ucas.Common.{
  ℕ, zero, suc, ◌+◌, ◌-◌, ◌*◌, ◌/◌, ◌%◌, ◌^◌, Bool, List, [], ◌∷◌, ◌++◌, ◌==◌, if◌then◌else◌,
  length, take, drop, replicate,
}
use computer_net_ucas.Word.{u16_mod, u32_mod, htons, htonl, bytes16, bytes32}
use computer_net_ucas.Checksum.{checksum}

-- `iface_info_t` (include/base.h), known by its index; `ip` is in host byte order.
pub record Iface : Type 0 where
  pub index : ℕ
  pub mac : ℕ
  pub ip : ℕ

-- An Ethernet frame with an IP packet. `rest` is what follows the first 20 bytes of the IP header.
pub record IpPacket : Type 0 where
  pub ether_dhost : ℕ
  pub ether_shost : ℕ
  pub ether_type : ℕ
  pub ver_ihl : ℕ
  pub tos : ℕ
  pub tot_len : ℕ
  pub id : ℕ
  pub frag_off : ℕ
  pub ttl : ℕ
  pub protocol : ℕ
  pub ip_sum : ℕ
  pub saddr : ℕ
  pub daddr : ℕ
  pub rest : List ℕ

-- An Ethernet frame with a `struct ether_arp`.
pub record ArpPacket : Type 0 where
  pub ether_dhost : ℕ
  pub ether_shost : ℕ
  pub ether_type : ℕ
  pub arp_hrd : ℕ
  pub arp_pro : ℕ
  pub arp_hln : ℕ
  pub arp_pln : ℕ
  pub arp_op : ℕ
  pub arp_sha : ℕ
  pub arp_spa : ℕ
  pub arp_tha : ℕ
  pub arp_tpa : ℕ

abbrev pub eth_p_ip : ℕ
eth_p_ip = 0x0800

abbrev pub eth_p_arp : ℕ
eth_p_arp = 0x0806

abbrev pub ipproto_icmp : ℕ
ipproto_icmp = 1

abbrev pub icmp_echoreply : ℕ
icmp_echoreply = 0

abbrev pub icmp_echorequest : ℕ
icmp_echorequest = 8

abbrev pub icmp_dest_unreach : ℕ
icmp_dest_unreach = 3

abbrev pub icmp_time_exceeded : ℕ
icmp_time_exceeded = 11

abbrev pub arpop_request : ℕ
arpop_request = 1

abbrev pub arpop_reply : ℕ
arpop_reply = 2

abbrev pub broadcast : ℕ
broadcast = 2 ^ 48 - 1

-- `arp_send_request`: the frame that it emits.
unfoldable pub arp_send_request : Iface → ℕ → ArpPacket
arp_send_request iface dst_ip = record {
  ether_dhost = broadcast;
  ether_shost = iface.mac;
  ether_type = htons eth_p_arp;
  arp_hrd = htons 1;
  arp_pro = htons eth_p_ip;
  arp_hln = 6;
  arp_pln = 4;
  arp_op = htons arpop_request;
  arp_sha = iface.mac;
  arp_spa = htonl iface.ip;
  arp_tha = 0;
  arp_tpa = htonl dst_ip;
}

-- `arp_send_reply`: the frame that it emits.
unfoldable pub arp_send_reply : Iface → ArpPacket → ArpPacket
arp_send_reply iface req = record {
  ether_dhost = req.arp_sha;
  ether_shost = iface.mac;
  ether_type = htons eth_p_arp;
  arp_hrd = htons 1;
  arp_pro = htons eth_p_ip;
  arp_hln = 6;
  arp_pln = 4;
  arp_op = htons arpop_reply;
  arp_sha = iface.mac;
  arp_spa = htonl iface.ip;
  arp_tha = req.arp_sha;
  arp_tpa = req.arp_spa;
}

abbrev pub ip_hdr_size : IpPacket → ℕ
ip_hdr_size p = p.ver_ihl % 16 * 4

-- The IP packet in memory, with the given header checksum.
abbrev pub ip_bytes : IpPacket → ℕ → List ℕ
ip_bytes p sum =
    p.ver_ihl ∷ p.tos ∷ bytes16 p.tot_len
    ++ (bytes16 p.id
        ++ (bytes16 p.frag_off
            ++ (p.ttl ∷ p.protocol ∷ bytes16 sum
                ++ (bytes32 p.saddr ++ (bytes32 p.daddr ++ p.rest)))))

unfoldable pub ip_checksum : IpPacket → ℕ
ip_checksum p = checksum (take (ip_hdr_size p) (ip_bytes p 0)) 0

-- `ip_init_hdr`, with the number that `rand` gave for the `id` field.
unfoldable pub ip_init_hdr : ℕ → ℕ → ℕ → ℕ → ℕ → IpPacket → IpPacket
unfolding ip_checksum
ip_init_hdr rand saddr daddr len proto p =
    let q = record p {
      ver_ihl = 0x45;
      tos = 0;
      tot_len = htons (len % u16_mod);
      id = rand % u16_mod;
      frag_off = htons 0x4000;
      ttl = 64;
      protocol = proto;
      saddr = htonl saddr;
      daddr = htonl daddr;
    } in
    record q { ip_sum = ip_checksum q }

-- The ICMP message that `icmp_send_packet` makes, without the checksum: the type and the code, and
-- then a copy of what an echo request carries, or of the start of the packet. `junk` is what
-- `malloc` left in the memory. The message is as long as the code allocates it.
unfoldable pub icmp_body : List ℕ → IpPacket → ℕ → List ℕ
icmp_body junk p type =
    let bytes = ip_bytes p p.ip_sum in
    let hdr = ip_hdr_size p in
    if type == icmp_echoreply
    then take (length bytes - hdr - 4)
        (take (length bytes + 16 - 2 * hdr) (drop (hdr + 4) bytes) ++ junk)
    else 0 ∷ 0 ∷ 0 ∷ 0 ∷ take (hdr + 8) bytes

abbrev pub icmp_message : ℕ → ℕ → ℕ → List ℕ → List ℕ
icmp_message type code sum body = type ∷ code ∷ bytes16 sum ++ body

-- `icmp_send_packet`: the packet that it emits on `iface`.
unfoldable pub icmp_send_packet : ℕ → List ℕ → Iface → IpPacket → ℕ → ℕ → IpPacket
unfolding icmp_body ip_init_hdr
icmp_send_packet rand junk iface p type code =
    let body = icmp_body junk p type in
    let message = icmp_message type code (checksum (icmp_message type code 0 body) 0) body in
    ip_init_hdr rand iface.ip (htonl p.saddr) (20 + length message) ipproto_icmp (record p {
      ether_dhost = p.ether_shost;
      ether_shost = iface.mac;
      ether_type = htons eth_p_ip;
      rest = message;
    })

-- ===== src/Packet/Frame.antt =====
-- The frames of 06-router as the bytes that the sockets carry: packet_to_ip_hdr of include/ip.h,
-- packet_to_arp_hdr of include/arp.h and the struct ether_header in front of both. A MAC address is
-- the number that its six bytes make, the first byte the lowest.
use computer_net_ucas.Common.{
  ℕ, ◌+◌, ◌*◌, ◌/◌, ◌%◌, ◌^◌, ◌<◌, ◌≡◌, refl, List, ◌∷◌, ◌++◌, get_or, drop, arith,
}
use computer_net_ucas.Word.{u16_mod, u32_mod, bytes16, bytes32}
use computer_net_ucas.Packet.{IpPacket, ArpPacket, ip_bytes}

abbrev pub u48_mod : ℕ
u48_mod = 2 ^ 48

-- The bytes of a MAC address in memory.
abbrev pub bytes48 : ℕ → List ℕ
bytes48 w = bytes32 (w % u32_mod) ++ bytes16 (w / u32_mod)

abbrev pub byte : List ℕ → ℕ → ℕ
byte bs i = get_or bs i 0

-- The words that the host loads from the bytes at an offset.
abbrev pub load16 : List ℕ → ℕ → ℕ
load16 bs i = byte bs i + byte bs (i + 1) * 256

abbrev pub load32 : List ℕ → ℕ → ℕ
load32 bs i = load16 bs i + load16 bs (i + 2) * u16_mod

abbrev load48 : List ℕ → ℕ → ℕ
load48 bs i = load32 bs i + load16 bs (i + 4) * u32_mod

-- The type field of the struct ether_header at the start of a frame.
abbrev pub ether_type_of : List ℕ → ℕ
ether_type_of bs = load16 bs 12

-- A frame read as an Ethernet header with a struct iphdr behind it.
unfoldable pub packet_to_ip_hdr : List ℕ → IpPacket
packet_to_ip_hdr bs = record {
  ether_dhost = load48 bs 0;
  ether_shost = load48 bs 6;
  ether_type = load16 bs 12;
  ver_ihl = byte bs 14;
  tos = byte bs 15;
  tot_len = load16 bs 16;
  id = load16 bs 18;
  frag_off = load16 bs 20;
  ttl = byte bs 22;
  protocol = byte bs 23;
  ip_sum = load16 bs 24;
  saddr = load32 bs 26;
  daddr = load32 bs 30;
  rest = drop 34 bs;
}

-- A frame read as an Ethernet header with a struct ether_arp behind it.
unfoldable pub packet_to_arp_hdr : List ℕ → ArpPacket
packet_to_arp_hdr bs = record {
  ether_dhost = load48 bs 0;
  ether_shost = load48 bs 6;
  ether_type = load16 bs 12;
  arp_hrd = load16 bs 14;
  arp_pro = load16 bs 16;
  arp_hln = byte bs 18;
  arp_pln = byte bs 19;
  arp_op = load16 bs 20;
  arp_sha = load48 bs 22;
  arp_spa = load32 bs 28;
  arp_tha = load48 bs 32;
  arp_tpa = load32 bs 38;
}

-- The bytes of a frame with an IP packet.
unfoldable pub ip_frame : IpPacket → List ℕ
ip_frame p =
    bytes48 p.ether_dhost
    ++ (bytes48 p.ether_shost ++ (bytes16 p.ether_type ++ ip_bytes p p.ip_sum))

-- The bytes of a frame with a struct ether_arp.
unfoldable pub arp_frame : ArpPacket → List ℕ
arp_frame a =
    bytes48 a.ether_dhost
    ++ (bytes48 a.ether_shost
        ++ (bytes16 a.ether_type
            ++ (bytes16 a.arp_hrd
                ++ (bytes16 a.arp_pro
                    ++ (a.arp_hln ∷ a.arp_pln ∷ bytes16 a.arp_op
                        ++ (bytes48 a.arp_sha
                            ++ (bytes32 a.arp_spa ++ (bytes48 a.arp_tha ++ bytes32 a.arp_tpa))))))))

-- Every field fits its bytes.
abbrev pub IsIpPacket : IpPacket → Type 0
IsIpPacket p =
    (p.ether_dhost < u48_mod)
    × (p.ether_shost < u48_mod)
    × (p.ether_type < u16_mod)
    × (p.tot_len < u16_mod)
    × (p.id < u16_mod)
    × (p.frag_off < u16_mod)
    × (p.ip_sum < u16_mod)
    × (p.saddr < u32_mod)
    × (p.daddr < u32_mod)

abbrev pub IsArpPacket : ArpPacket → Type 0
IsArpPacket a =
    (a.ether_dhost < u48_mod)
    × (a.ether_shost < u48_mod)
    × (a.ether_type < u16_mod)
    × (a.arp_hrd < u16_mod)
    × (a.arp_pro < u16_mod)
    × (a.arp_op < u16_mod)
    × (a.arp_sha < u48_mod)
    × (a.arp_spa < u32_mod)
    × (a.arp_tha < u48_mod)
    × (a.arp_tpa < u32_mod)

pub join16 : (w : ℕ) → w < u16_mod → w % 256 + w / 256 % 256 * 256 ≡ w
join16 w h = omega arith

pub join32 :
    (w : ℕ)
    → w < u32_mod
    → w % 256 + w / 256 % 256 * 256 + (w / 2 ^ 16 % 256 + w / 2 ^ 24 % 256 * 256) * u16_mod ≡ w
join32 w h = omega arith

join48 :
    (w : ℕ)
    → w < u48_mod
    → w % u32_mod % 256
        + w % u32_mod / 256 % 256 * 256
        + (w % u32_mod / 2 ^ 16 % 256 + w % u32_mod / 2 ^ 24 % 256 * 256) * u16_mod
        + (w / u32_mod % 256 + w / u32_mod / 256 % 256 * 256) * u32_mod
      ≡ w
join48 w h = omega (arith, join32 (w % u32_mod) (omega arith), join16 (w / u32_mod) (omega arith))

-- What is read from the bytes of an IP packet is the packet.
pub packet_to_ip_hdr-ip_frame : (p : IpPacket) → IsIpPacket p → packet_to_ip_hdr (ip_frame p) ≡ p
unfolding packet_to_ip_hdr ip_frame
packet_to_ip_hdr-ip_frame p (a, b, c, d, e, f, g, h, i) =
    rw
      (
        join48 p.ether_dhost a,
        join48 p.ether_shost b,
        join16 p.ether_type c,
        join16 p.tot_len d,
        join16 p.id e,
        join16 p.frag_off f,
        join16 p.ip_sum g,
        join32 p.saddr h,
        join32 p.daddr i,
      )
      refl

-- What is read from the bytes of an ARP packet is the packet.
pub packet_to_arp_hdr-arp_frame :
    (q : ArpPacket) → IsArpPacket q → packet_to_arp_hdr (arp_frame q) ≡ q
unfolding packet_to_arp_hdr arp_frame
packet_to_arp_hdr-arp_frame q (a, b, c, d, e, f, g, h, i, j) =
    rw
      (
        join48 q.ether_dhost a,
        join48 q.ether_shost b,
        join16 q.ether_type c,
        join16 q.arp_hrd d,
        join16 q.arp_pro e,
        join16 q.arp_op f,
        join48 q.arp_sha g,
        join32 q.arp_spa h,
        join48 q.arp_tha i,
        join32 q.arp_tpa j,
      )
      refl

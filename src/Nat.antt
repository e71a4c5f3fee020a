-- ===== src/Nat.antt =====
-- 08-nat/nat.c: address translation. The table is a record; its buckets are a function of the
-- index, as are the port flags. Header fields are kept as they are loaded from the packet, in
-- network byte order, so the code's ntohs and ntohl appear as `htons` and `htonl`. The time and the
-- route of a packet are arguments. Every operation runs under `nat.lock`, hence as a whole.
pub mod Table
pub mod Ports
pub mod Reach
pub mod Flow
pub mod Addresses
pub mod Translate
pub mod Config
mod Tests
use Prim.Native.Nat.{bit_xor}
use computer_net_ucas.Common.{
  ℕ, zero, suc, ◌+◌, ◌-◌, ◌*◌, ◌/◌, ◌%◌, ◌^◌, Bool, true, false, not, ◌&&◌, ◌||◌, Option, none,
  some, List, [], ◌∷◌, ◌++◌, ltb, leb, ◌==◌, if◌then◌else◌, take, keep, first,
}
use computer_net_ucas.Word.{u16_mod, add32, htons, htonl, bytes16, bytes32}
use computer_net_ucas.Checksum.{checksum}

-- The bounds of the port pool, and how many seconds a mapping lives.
abbrev pub nat_port_min : ℕ
nat_port_min = 12345

abbrev pub nat_port_max : ℕ
nat_port_max = 23456

abbrev pub tcp_established_timeout : ℕ
tcp_established_timeout = 60

abbrev pub tcp_fin : ℕ
tcp_fin = 0x01

abbrev pub tcp_ack : ℕ
tcp_ack = 0x10

-- `struct nat_connection`.
pub record NatConnection : Type 0 where
  pub internal_fin : ℕ
  pub external_fin : ℕ
  pub internal_seq_end : ℕ
  pub external_seq_end : ℕ
  pub internal_ack : ℕ
  pub external_ack : ℕ

-- `struct nat_mapping`.
pub record NatMapping : Type 0 where
  pub remote_ip : ℕ
  pub remote_port : ℕ
  pub internal_ip : ℕ
  pub internal_port : ℕ
  pub external_ip : ℕ
  pub external_port : ℕ
  pub update_time : ℕ
  pub conn : NatConnection

-- `struct dnat_rule`.
pub record DnatRule : Type 0 where
  pub external_ip : ℕ
  pub external_port : ℕ
  pub internal_ip : ℕ
  pub internal_port : ℕ

-- `struct nat_table`; the interfaces are known by their index and address.
pub record NatTable : Type 0 where
  pub nat_mapping_list : ℕ → List NatMapping
  pub internal_index : ℕ
  pub external_ip : ℕ
  pub assigned_ports : ℕ → Bool
  pub rules : List DnatRule

-- The headers of a TCP packet as they are loaded from memory, and the bytes behind them: the IP
-- options, and the TCP options with the data.
pub record Packet : Type 0 where
  pub ver_ihl : ℕ
  pub tos : ℕ
  pub tot_len : ℕ
  pub id : ℕ
  pub frag_off : ℕ
  pub ttl : ℕ
  pub protocol : ℕ
  pub ip_sum : ℕ
  pub saddr : ℕ
  pub daddr : ℕ
  pub options : List ℕ
  pub sport : ℕ
  pub dport : ℕ
  pub seq : ℕ
  pub ack : ℕ
  pub x2_off : ℕ
  pub flags : ℕ
  pub rwnd : ℕ
  pub tcp_sum : ℕ
  pub urp : ℕ
  pub payload : List ℕ

abbrev pub ip_hdr_size : Packet → ℕ
ip_hdr_size p = p.ver_ihl % 16 * 4

-- The headers in memory, with the given checksum in its field.
abbrev pub ip_bytes : Packet → ℕ → List ℕ
ip_bytes p sum =
    p.ver_ihl ∷ p.tos ∷ bytes16 p.tot_len
    ++ (bytes16 p.id
        ++ (bytes16 p.frag_off
            ++ (p.ttl ∷ p.protocol ∷ bytes16 sum
                ++ (bytes32 p.saddr ++ (bytes32 p.daddr ++ p.options)))))

abbrev pub tcp_bytes : Packet → ℕ → List ℕ
tcp_bytes p sum =
    bytes16 p.sport
    ++ (bytes16 p.dport
        ++ (bytes32 p.seq
            ++ (bytes32 p.ack
                ++ (p.x2_off ∷ p.flags ∷ bytes16 p.rwnd
                    ++ (bytes16 sum ++ (bytes16 p.urp ++ p.payload))))))

unfoldable pub ip_checksum : Packet → ℕ
ip_checksum p = checksum (take (ip_hdr_size p) (ip_bytes p 0)) 0

abbrev pub tcp_len : Packet → ℕ
tcp_len p = (htons p.tot_len + u16_mod - ip_hdr_size p) % u16_mod

-- The 32-bit sum with which the pseudo header starts the checksum.
abbrev pub pseudo_sum : Packet → ℕ
pseudo_sum p = add32 (add32 (add32 p.saddr p.daddr) (htons p.protocol)) (htons (tcp_len p))

unfoldable pub tcp_checksum : Packet → ℕ
tcp_checksum p = checksum (take (tcp_len p) (tcp_bytes p 0)) (pseudo_sum p)

-- `hash8` of the four bytes of the remote address and the two of its port.
unfoldable pub hash8_remote : ℕ → ℕ → ℕ
hash8_remote ip port =
    bit_xor (ip % 256) (
      bit_xor (ip / 256 % 256) (
        bit_xor (ip / 2 ^ 16 % 256)
          (bit_xor (ip / 2 ^ 24 % 256) (bit_xor (port % 256) (port / 256 % 256)))))
    % 256

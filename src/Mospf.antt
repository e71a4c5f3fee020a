-- ===== src/Mospf.antt =====
-- 07-mospf: the link state routing daemon, with include/mospf_proto.h, mospf_nbr.h and
-- mospf_database.h. A message is kept as its header, loaded from memory in network byte order, and
-- the bytes behind it; the IP header before it has no options. The functions of libipstack.a are not
-- here: what the daemon hands to ip_send_packet and iface_send_packet is returned as a list. A
-- handler is one step, also where the code drops its lock before it sends.
pub mod Neighbours
pub mod Database
pub mod Routes
mod Counts
mod Outcome
mod Fresh
mod Wire
mod Places
mod Found
mod Rounds
mod Seeds
mod Sweep
mod Spread
mod Table
mod Entries
mod Reach
mod Dispatch
mod Tests
use computer_net_ucas.Common.{
  ℕ, zero, suc, ◌+◌, ◌*◌, ◌/◌, ◌%◌, ◌^◌, Bool, Option, none, some, List, [], ◌∷◌, ◌++◌, length,
  take,
}
use computer_net_ucas.Word.{u16_mod, u32_mod, htons, htonl, bytes16, bytes32}
use computer_net_ucas.Checksum.{checksum}
use computer_net_ucas.Packet.{Iface}

abbrev pub mospf_version : ℕ
mospf_version = 2

abbrev pub mospf_type_hello : ℕ
mospf_type_hello = 1

abbrev pub mospf_type_lsu : ℕ
mospf_type_lsu = 4

abbrev pub mospf_default_helloint : ℕ
mospf_default_helloint = 5

abbrev pub mospf_database_timeout : ℕ
mospf_database_timeout = 40

abbrev pub mospf_max_lsu_ttl : ℕ
mospf_max_lsu_ttl = 255

-- `mospf_nbr_t`.
pub record Nbr : Type 0 where
  pub nbr_id : ℕ
  pub nbr_ip : ℕ
  pub nbr_mask : ℕ
  pub alive : ℕ

-- `iface_info_t` of include/base.h with the fields for this daemon.
pub record MospfIface : Type 0 where
  pub iface : Iface
  pub mask : ℕ
  pub num_nbr : ℕ
  pub nbr_list : List Nbr

-- `struct mospf_lsa`.
pub record Lsa : Type 0 where
  pub network : ℕ
  pub mask : ℕ
  pub rid : ℕ

-- `mospf_db_entry_t`.
pub record DbEntry : Type 0 where
  pub rid : ℕ
  pub seq : ℕ
  pub nadv : ℕ
  pub alive : ℕ
  pub array : List Lsa

-- The part of `ustack_t` for this daemon, and the database.
pub record Daemon : Type 0 where
  pub area_id : ℕ
  pub router_id : ℕ
  pub sequence_num : ℕ
  pub ifaces : List MospfIface
  pub mospf_db : List DbEntry

-- `struct mospf_hdr` and the bytes behind it.
pub record Message : Type 0 where
  pub version : ℕ
  pub type : ℕ
  pub len : ℕ
  pub rid : ℕ
  pub aid : ℕ
  pub checksum : ℕ
  pub padding : ℕ
  pub body : List ℕ

-- A message that goes to one address: by `ip_send_packet`, or as a hello to the routers of a link.
pub record Send : Type 0 where
  pub saddr : ℕ
  pub daddr : ℕ
  pub message : Message

-- The message in memory, with the given checksum.
abbrev pub message_bytes : Message → ℕ → List ℕ
message_bytes m sum =
    m.version ∷ m.type ∷ bytes16 m.len
    ++ (bytes32 m.rid ++ (bytes32 m.aid ++ (bytes16 sum ++ (bytes16 m.padding ++ m.body))))

unfoldable pub mospf_checksum : Message → ℕ
mospf_checksum m = checksum (take (htons m.len) (message_bytes m 0)) 0

-- `mospf_init_hdr`, before a body; `len` is a `u16`.
abbrev pub mospf_init_hdr : ℕ → ℕ → ℕ → ℕ → List ℕ → Message
mospf_init_hdr type len rid aid body = record {
  version = mospf_version;
  type = type;
  len = htons (len % u16_mod);
  rid = htonl rid;
  aid = htonl aid;
  checksum = 0;
  padding = 0;
  body = body;
}

unfoldable pub sign : Message → Message
unfolding mospf_checksum
sign m = record m { checksum = mospf_checksum m }

-- `mospf_init_hello`.
abbrev pub mospf_init_hello : ℕ → List ℕ
mospf_init_hello mask =
    bytes32 (htonl mask) ++ (bytes16 (htons mospf_default_helloint) ++ bytes16 0)

-- The array of a link state update in memory; its fields are in network byte order already.
abbrev pub lsa_bytes : List Lsa → List ℕ
lsa_bytes [] = []
lsa_bytes (a ∷ ads) = bytes32 a.network ++ (bytes32 a.mask ++ (bytes32 a.rid ++ lsa_bytes ads))

-- `mospf_init_lsu`, with the array behind it.
abbrev pub mospf_init_lsu : ℕ → ℕ → List ℕ → List ℕ
mospf_init_lsu sequence_num nadv array =
    bytes16 (htons sequence_num) ++ (mospf_max_lsu_ttl ∷ 0 ∷ bytes32 (htonl nadv) ++ array)

-- Words as they are loaded from the bytes of a message.
abbrev pub load16 : ℕ → ℕ → ℕ
load16 a b = a + b * 256

abbrev pub load32 : ℕ → ℕ → ℕ → ℕ → ℕ
load32 a b c d = a + b * 256 + c * 2 ^ 16 + d * 2 ^ 24

-- `struct mospf_lsu`, and what follows it.
pub record Lsu : Type 0 where
  pub seq : ℕ
  pub ttl : ℕ
  pub nadv : ℕ
  pub rest : List ℕ

-- The fields of a body that the handler reads as an update; none where the body ends before.
unfoldable pub lsu_of : List ℕ → Option Lsu
lsu_of (a ∷ b ∷ t ∷ u ∷ c ∷ d ∷ e ∷ f ∷ bs) =
    some (record { seq = load16 a b; ttl = t; nadv = load32 c d e f; rest = bs })
lsu_of bs = none

-- The mask in a body that the handler reads as a hello.
unfoldable pub hello_mask : List ℕ → Option ℕ
hello_mask (a ∷ b ∷ c ∷ d ∷ bs) = some (load32 a b c d)
hello_mask bs = none

abbrev pub put_lsa : Lsa → Option (List Lsa) → Option (List Lsa)
put_lsa a none = none
put_lsa a (some ads) = some (a ∷ ads)

-- The loop that copies `n` advertisements out of the message, in host byte order; none where it
-- reads past the end, since nothing compares `nadv` with the length of the packet.
unfoldable pub lsas_of : ℕ → List ℕ → Option (List Lsa)
lsas_of zero bs = some []
lsas_of (suc n) (a ∷ b ∷ c ∷ d ∷ e ∷ f ∷ g ∷ h ∷ i ∷ j ∷ k ∷ l ∷ bs) =
    put_lsa
      (record {
        network = htonl (load32 a b c d);
        mask = htonl (load32 e f g h);
        rid = htonl (load32 i j k l);
      })
      (lsas_of n bs)
lsas_of (suc n) bs = none

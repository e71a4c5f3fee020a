-- ===== src/Arp.antt =====
-- 06-router/arpcache.c and arp.c: the ARP cache with the packets that wait for an address. The
-- array of entries is a list of `max_arp_size` records, the request list a list. Time is an argument,
-- as is the number that `rand` gives. An operation returns the calls it makes to the rest of the
-- router in their order, and it runs under `arpcache.lock`, hence as a whole.
pub mod Lookup
pub mod Pending
pub mod Retries
pub mod Release
mod Tests
use mathlib.Core.Option
use computer_net_ucas.Common.{
  ℕ, zero, suc, ◌+◌, ◌-◌, Bool, true, false, not, ◌&&◌, Option, none, some, List, [], ◌∷◌, ◌++◌,
  ltb, leb, ◌==◌, if◌then◌else◌, length, get_or, set, first, map, replicate,
}
use computer_net_ucas.Word.{htons, htonl}
use computer_net_ucas.Packet.{
  Iface, IpPacket, ArpPacket, eth_p_ip, arpop_request, arpop_reply, icmp_dest_unreach,
}

abbrev pub max_arp_size : ℕ
max_arp_size = 32

abbrev pub arp_entry_timeout : ℕ
arp_entry_timeout = 15

abbrev pub arp_request_max_retries : ℕ
arp_request_max_retries = 5

-- `struct arp_cache_entry`.
pub record CacheEntry : Type 0 where
  pub ip4 : ℕ
  pub mac : ℕ
  pub added : ℕ
  pub valid : Bool

-- `struct arp_req`.
pub record ArpReq : Type 0 where
  pub iface : Iface
  pub ip4 : ℕ
  pub sent : ℕ
  pub retries : ℕ
  pub cached_packets : List IpPacket

-- `arpcache_t`.
pub record ArpCache : Type 0 where
  pub entries : List CacheEntry
  pub req_list : List ArpReq

-- The calls that the cache makes. `unreachable` is icmp_send_packet with ICMP_HOST_UNREACH; its
-- interface is none where the code's search runs past the end of the list.
pub data Call : Type 0 where
  iface_send_packet : Iface → IpPacket → Call
  send_request : Iface → ℕ → Call
  send_reply : Iface → ArpPacket → Call
  unreachable : Option Iface → IpPacket → Call

unfoldable pub arpcache_init : ArpCache
arpcache_init = record {
  entries = replicate max_arp_size (record { ip4 = 0; mac = 0; added = 0; valid = false });
  req_list = [];
}

abbrev pub mac_of : CacheEntry → ℕ
mac_of e = e.mac

abbrev pub holds : ℕ → CacheEntry → Bool
holds ip4 e = e.valid && (e.ip4 == ip4)

unfoldable pub arpcache_lookup : ArpCache → ℕ → Option ℕ
arpcache_lookup c ip4 = Option.map mac_of (first (holds ip4) c.entries)

abbrev pub same_req : Iface → ℕ → ArpReq → Bool
same_req iface ip4 r = (r.ip4 == ip4) && (r.iface.index == iface.index)

abbrev pub pend : ℕ → IpPacket → ArpReq → ArpReq
pend now p r = record r {
  cached_packets = r.cached_packets ++ (p ∷ []);
  retries = r.retries + 1;
  sent = now;
}

abbrev pub new_req : Iface → ℕ → ArpReq
new_req iface ip4 = record { iface = iface; ip4 = ip4; sent = 0; retries = 0; cached_packets = [] }

-- The walk of `arpcache_append_packet` to the request for the packet, a new one at the tail if
-- there is none, with the packet appended to it.
unfoldable pub pend_from : ℕ → Iface → ℕ → IpPacket → List ArpReq → List ArpReq
pend_from now iface ip4 p [] = pend now p (new_req iface ip4) ∷ []
pend_from now iface ip4 p (r ∷ rs) =
    if same_req iface ip4 r then pend now p r ∷ rs else r ∷ pend_from now iface ip4 p rs

unfoldable pub arpcache_append_packet : ℕ → Iface → ℕ → IpPacket → ArpCache → List Call × ArpCache
arpcache_append_packet now iface ip4 p c =
    (send_request iface ip4 ∷ [], record c { req_list = pend_from now iface ip4 p c.req_list })

-- The loop of `arpcache_insert` over the array, from slot `i` on.
unfoldable pub find_slot : ℕ → ℕ → ℕ → List CacheEntry → ℕ
find_slot ip4 i vid [] = vid
find_slot ip4 i vid (e ∷ es) =
    if not e.valid
    then find_slot ip4 (i + 1) i es
    else if e.ip4 == ip4
    then i
    else find_slot ip4 (i + 1) vid es

-- The packets of a request, each with its Ethernet addresses filled in.
unfoldable pub release : ℕ → Iface → List IpPacket → List Call
release mac iface [] = []
release mac iface (p ∷ ps) =
    iface_send_packet iface (record p { ether_dhost = mac; ether_shost = iface.mac })
    ∷ release mac iface ps

unfoldable pub release_from : ℕ → ℕ → List ArpReq → List Call × List ArpReq
unfolding release
release_from ip4 mac [] = ([], [])
release_from ip4 mac (r ∷ rs) =
    let rest = release_from ip4 mac rs in
    if r.ip4 == ip4
    then (release mac r.iface r.cached_packets ++ rest.0, rest.1)
    else (rest.0, r ∷ rest.1)

-- `rand` is below `max_arp_size`.
unfoldable pub arpcache_insert : ℕ → ℕ → ℕ → ℕ → ArpCache → List Call × ArpCache
unfolding find_slot release_from
arpcache_insert now rand ip4 mac c =
    let vid = find_slot ip4 0 rand c.entries in
    let released = release_from ip4 mac c.req_list in
    (
      released.0,
      record {
        entries = set c.entries vid (record { ip4 = ip4; mac = mac; added = now; valid = true });
        req_list = released.1;
      },
    )

abbrev pub age : ℕ → CacheEntry → CacheEntry
age now e =
    if e.valid && ltb (e.added + arp_entry_timeout) now then record e { valid = false } else e

-- `icmp_send_packet` for each packet that waits, on the interface that it came in by.
unfoldable pub give_up : List Iface → List IpPacket → List Call
give_up ifaces [] = []
give_up ifaces (p ∷ ps) =
    unreachable (first (λ i. p.ether_dhost == i.mac) ifaces) p ∷ give_up ifaces ps

unfoldable pub sweep_from : ℕ → List Iface → List ArpReq → List Call × List ArpReq
unfolding give_up
sweep_from now ifaces [] = ([], [])
sweep_from now ifaces (r ∷ rs) =
    let rest = sweep_from now ifaces rs in
    if leb arp_request_max_retries r.retries
    then (give_up ifaces r.cached_packets ++ rest.0, rest.1)
    else if ltb (r.sent + 1) now
    then (send_request r.iface r.ip4 ∷ rest.0, record r { retries = r.retries + 1 } ∷ rest.1)
    else (rest.0, r ∷ rest.1)

-- One round of `arpcache_sweep`.
unfoldable pub arpcache_sweep : ℕ → List Iface → ArpCache → List Call × ArpCache
unfolding sweep_from
arpcache_sweep now ifaces c =
    let swept = sweep_from now ifaces c.req_list in
    (swept.0, record { entries = map (age now) c.entries; req_list = swept.1 })

unfoldable pub handle_arp_packet : ℕ → ℕ → Iface → ArpPacket → ArpCache → List Call × ArpCache
unfolding arpcache_insert
handle_arp_packet now rand iface a c =
    if htons a.arp_op == arpop_reply
    then arpcache_insert now rand (htonl a.arp_spa) a.arp_sha c
    else if (htons a.arp_op == arpop_request) && (htonl a.arp_tpa == iface.ip)
    then (send_reply iface a ∷ [], c)
    else ([], c)

-- The two branches of `iface_send_packet_by_arp`.
unfoldable pub send_or_pend : ℕ → Iface → ℕ → IpPacket → ArpCache → Option ℕ → List Call × ArpCache
unfolding arpcache_append_packet
send_or_pend now iface dst_ip p c none = arpcache_append_packet now iface dst_ip p c
send_or_pend now iface dst_ip p c (some mac) =
    (iface_send_packet iface (record p { ether_dhost = mac; ether_shost = iface.mac }) ∷ [], c)

unfoldable pub iface_send_packet_by_arp : ℕ → Iface → ℕ → IpPacket → ArpCache → List Call × ArpCache
unfolding arpcache_lookup send_or_pend
iface_send_packet_by_arp now iface dst_ip p c =
    send_or_pend now iface dst_ip (record p { ether_type = htons eth_p_ip }) c
      (arpcache_lookup c dst_ip)

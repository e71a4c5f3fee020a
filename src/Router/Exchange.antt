-- ===== src/Router/Exchange.antt =====
-- Two routers of 06-router on one wire: the request for an address, its answer, and the packets that
-- the answer releases.
use mathlib.Core.List.{Memᴰ}
use mathlib.Core.Path.{subst}
use computer_net_ucas.Common.{
  ℕ, ◌<◌, ◌≡◌, inl, inr, refl, sym, ap, ◌∙◌, Bool, true, false, none, some, List, [], ◌∷◌, ◌++◌,
  ◌==◌, if◌then◌else◌, length, arith, Bool-cases, eq→==,
}
use computer_net_ucas.Word.{u32_mod, htons, htonl, htonl-lt, htonl-htonl}
use computer_net_ucas.Packet.{
  eth_p_arp, ip_checksum, Iface, IpPacket, ArpPacket, arp_send_request, arp_send_reply,
}
use computer_net_ucas.Packet.Frame.{
  u48_mod, packet_to_ip_hdr, packet_to_arp_hdr, arp_frame, ether_type_of, IsArpPacket,
  packet_to_arp_hdr-arp_frame,
}
use computer_net_ucas.Forward.{RtEntry}
use computer_net_ucas.Arp.{
  ArpReq, ArpCache, Call, iface_send_packet, send_reply, same_req, pend_from, release, release_from,
  arpcache_append_packet, arpcache_insert, arpcache_lookup, handle_arp_packet,
}
use computer_net_ucas.Arp.Lookup.{arpcache_insert-arpcache_lookup}
use computer_net_ucas.Router.{Env, Router, handle_frame, handle_packet, emit_all, with_cache}
use computer_net_ucas.Router.Deliver.{IsTransit, IsForwarded, hop_of, route_of, handle_packet-pends}

-- The addresses of an interface fit their fields.
abbrev pub IsIface : Iface → Type 0
IsIface i = (i.mac < u48_mod) × (i.ip < u32_mod)

request-IsArpPacket : (i : Iface) (dst : ℕ) → IsIface i → IsArpPacket (arp_send_request i dst)
unfolding arp_send_request htons
request-IsArpPacket i dst (mac, ip) = (
  omega arith,
  mac,
  omega arith,
  omega arith,
  omega arith,
  omega arith,
  mac,
  htonl-lt i.ip,
  omega arith,
  htonl-lt dst,
)

reply-IsArpPacket :
    (i asker : Iface) (dst : ℕ)
    → IsIface i
    → IsIface asker
    → IsArpPacket (arp_send_reply i (arp_send_request asker dst))
unfolding arp_send_reply arp_send_request htons
reply-IsArpPacket i asker dst (mac, ip) (mac', ip') = (
  mac',
  mac,
  omega arith,
  omega arith,
  omega arith,
  omega arith,
  mac,
  htonl-lt i.ip,
  mac',
  htonl-lt asker.ip,
)

arp_frame-handled :
    (env : Env) (i : Iface) (a : ArpPacket) (r : Router)
    → IsArpPacket a
    → htons a.ether_type ≡ eth_p_arp
    → handle_packet env i (arp_frame a) r
      ≡ with_cache r (handle_arp_packet env.now (env.rand 0) i a r.arpcache)
unfolding handle_packet handle_frame packet_to_arp_hdr
arp_frame-handled env i a r fits arp =
    let read = packet_to_arp_hdr-arp_frame a fits in
    let type : htons (ether_type_of (arp_frame a)) ≡ eth_p_arp =
      ap (λ x. htons x.ether_type) read ∙ arp in
    rw (type, read) refl

same_word : (x : ℕ) → x < u32_mod → (htonl (htonl x) == x) ≡ true
same_word x h = eq→== (htonl (htonl x)) x (htonl-htonl x h)

-- The request for the address of an interface, read by the router that has it, makes that router
-- answer and changes nothing there.
request_answered :
    (env : Env) (i asker : Iface) (r : Router)
    → IsIface i
    → IsIface asker
    → handle_packet env i (arp_frame (arp_send_request asker i.ip)) r
      ≡ (send_reply i (arp_send_request asker i.ip) ∷ [], r)
unfolding handle_arp_packet arp_send_request htons
request_answered env i asker r mine theirs =
    arp_frame-handled env i (arp_send_request asker i.ip) r (request-IsArpPacket asker i.ip theirs)
      refl
    ∙ rw (same_word i.ip mine.1) refl

-- The answer, read by the router that asked, goes into its cache.
reply_inserted :
    (env : Env) (i asker : Iface) (r : Router)
    → IsIface i
    → IsIface asker
    → handle_packet env asker (arp_frame (arp_send_reply i (arp_send_request asker i.ip))) r
      ≡ with_cache r (arpcache_insert env.now (env.rand 0) i.ip i.mac r.arpcache)
unfolding handle_arp_packet arp_send_request arp_send_reply htons
reply_inserted env i asker r mine theirs =
    arp_frame-handled env asker (arp_send_reply i (arp_send_request asker i.ip)) r
      (reply-IsArpPacket i asker i.ip mine theirs) refl
    ∙ rw (htonl-htonl i.ip mine.1) refl

abbrev addressed : ℕ → Iface → IpPacket → IpPacket
addressed mac i q = record q { ether_dhost = mac; ether_shost = i.mac }

Memᴰ-left : {x : Call} (xs ys : List Call) → Memᴰ x xs → Memᴰ x (xs ++ ys)
Memᴰ-left [] ys m = elim m [ ]
Memᴰ-left (y ∷ xs) ys (Memᴰ.head e) = Memᴰ.head e
Memᴰ-left (y ∷ xs) ys (Memᴰ.tail m) = Memᴰ.tail (Memᴰ-left xs ys m)

Memᴰ-right : {x : Call} (xs ys : List Call) → Memᴰ x ys → Memᴰ x (xs ++ ys)
Memᴰ-right [] ys m = m
Memᴰ-right (x ∷ xs) ys m = Memᴰ.tail (Memᴰ-right xs ys m)

last-release :
    (mac : ℕ) (i : Iface) (ps : List IpPacket) (q : IpPacket)
    → Memᴰ (iface_send_packet i (addressed mac i q)) (release mac i (ps ++ (q ∷ [])))
unfolding release
last-release mac i [] q = Memᴰ.head refl
last-release mac i (p ∷ ps) q = Memᴰ.tail (last-release mac i ps q)

same_req_lem :
    (iface : Iface) (ip4 : ℕ) (r : ArpReq)
    → same_req iface ip4 r ≡ true
    → ((r.ip4 == ip4) ≡ true) × (r.iface.index ≡ iface.index)
same_req_lem iface ip4 r h = ground arith

-- A packet that was put to wait for an address is among those that the address releases.
pend_from-release_from :
    (now ip4 mac : ℕ) (iface : Iface) (q : IpPacket) (rs : List ArpReq)
    → (i : Iface) × (i.index ≡ iface.index)
      × Memᴰ
          (iface_send_packet i (addressed mac i q))
          (release_from ip4 mac (pend_from now iface ip4 q rs)).0
unfolding pend_from release_from
pend_from-release_from now ip4 mac iface q [] =
    (iface, refl, rw (eq→== ip4 ip4 refl) (Memᴰ.head refl))
pend_from-release_from now ip4 mac iface q (r ∷ rs) = elim (Bool-cases (same_req iface ip4 r)) [
  | inl same ↦
      let (address, port) = same_req_lem iface ip4 r same in
      (
        r.iface,
        port,
        rw (same, address)
            (Memᴰ-left (release mac r.iface (r.cached_packets ++ (q ∷ [])))
              (release_from ip4 mac rs).0 (last-release mac r.iface r.cached_packets q)),
      )
  | inr other ↦
      let (i, port, inside) = pend_from-release_from now ip4 mac iface q rs in
      (i, port, rw other (further (r.ip4 == ip4) i inside))
]
  where
    further :
        (b : Bool) (i : Iface)
        → Memᴰ
            (iface_send_packet i (addressed mac i q))
            (release_from ip4 mac (pend_from now iface ip4 q rs)).0
        → (let rest : List Call × List ArpReq =
              release_from ip4 mac (pend_from now iface ip4 q rs) in
            let out : List Call × List ArpReq =
              if b
              then (release mac r.iface r.cached_packets ++ rest.0, rest.1)
              else (rest.0, r ∷ rest.1) in
            Memᴰ (iface_send_packet i (addressed mac i q)) out.0)
    further true i m =
        Memᴰ-right (release mac r.iface r.cached_packets)
          (release_from ip4 mac (pend_from now iface ip4 q rs)).0 m
    further false i m = m

-- What the answer does to the cache in which the packet waits.
released :
    (now later rand mac : ℕ) (iface owner : Iface) (q : IpPacket) (c : ArpCache)
    → rand < length c.entries
    → (let waits : List Call × ArpCache = arpcache_append_packet now iface owner.ip q c in
        let done : List Call × ArpCache = arpcache_insert later rand owner.ip mac waits.1 in
        ((i : Iface) × (i.index ≡ iface.index)
          × Memᴰ (iface_send_packet i (addressed mac i q)) done.0)
        × (arpcache_lookup done.1 owner.ip ≡ some mac))
unfolding arpcache_append_packet arpcache_insert
released now later rand mac iface owner q c small = (
  pend_from-release_from now owner.ip mac iface q c.req_list,
  arpcache_insert-arpcache_lookup later rand owner.ip mac
      (arpcache_append_packet now iface owner.ip q c).1 small,
)

-- A frame with an IP packet in transit, with a time to live over 1 and a route whose next hop the
-- cache does not know, leads to one frame, a request on the interface of the route. When the router
-- whose interface has the address of the next hop handles that frame, it sends one frame, its answer,
-- on this interface. When the first router handles the answer on the interface that it asked on, then
-- among what it sends is the packet, addressed to the interface that answered, one hop older, with the
-- checksum of its header and the same data, and from then on the cache knows the next hop.
pub handle_packet-delivers :
    (env answer after : Env) (iface owner : Iface) (bytes : List ℕ) (r other : Router) (e : RtEntry)
    → IsIface owner
    → IsIface e.iface
    → owner.ip ≡ hop_of e bytes
    → IsTransit iface bytes
    → route_of r bytes ≡ some e
    → arpcache_lookup r.arpcache (hop_of e bytes) ≡ none
    → after.rand 0 < length r.arpcache.entries
    → (request reply : List ℕ) × (i : Iface) × (q : IpPacket) × (let asked : List Call × Router =
          handle_packet env iface bytes r in
        let done : List Call × Router = handle_packet after e.iface reply asked.1 in
        (emit_all env 0 asked.0 ≡ (e.iface, request) ∷ [])
        × (emit_all answer 0 (handle_packet answer owner request other).0 ≡ (owner, reply) ∷ [])
        × Memᴰ (iface_send_packet i q) done.0
        × (i.index ≡ e.iface.index)
        × (q.ether_dhost ≡ owner.mac)
        × IsForwarded (packet_to_ip_hdr bytes) q
        × (arpcache_lookup done.1.arpcache (hop_of e bytes) ≡ some owner.mac))
unfolding emit_all arpcache_append_packet ip_checksum
handle_packet-delivers env answer after iface owner bytes r other e mine theirs hop transit route
      unknown small =
    let (q, pends, (older, sum, same)) =
      handle_packet-pends env iface bytes r e transit route unknown in
    let waits : handle_packet env iface bytes r
        ≡ with_cache r (arpcache_append_packet env.now e.iface owner.ip q r.arpcache) =
      rw hop pends in
    let ((i, port, inside), known) =
      released env.now after.now (after.rand 0) owner.mac e.iface owner q r.arpcache small in
    let done =
      ap
        (λ s.
          handle_packet after e.iface
            (arp_frame (arp_send_reply owner (arp_send_request e.iface owner.ip))) s.1)
        waits
      ∙ reply_inserted after owner e.iface
          (with_cache r (arpcache_append_packet env.now e.iface owner.ip q r.arpcache)).1 mine
          theirs in
    (
      arp_frame (arp_send_request e.iface owner.ip),
      arp_frame (arp_send_reply owner (arp_send_request e.iface owner.ip)),
      i,
      addressed owner.mac i q,
      (
        ap (λ s. emit_all env 0 s.0) waits,
        ap (λ s. emit_all answer 0 s.0) (request_answered answer owner e.iface other mine theirs),
        subst (λ s. Memᴰ (iface_send_packet i (addressed owner.mac i q)) s.0) (sym done) inside,
        port,
        refl,
        (older, sum, same),
        rw (← hop) (ap (λ s. arpcache_lookup s.1.arpcache owner.ip) done ∙ known),
      ),
    )

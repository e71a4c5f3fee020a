-- ===== src/Arp/Release.antt =====
-- What `arpcache_insert` of 06-router/arpcache.c does with the packets that wait.
use computer_net_ucas.Common.{
  ℕ, ◌≡◌, refl, ap, Bool, true, false, not, List, [], ◌∷◌, ◌++◌, ◌==◌, if◌then◌else◌, keep, All,
  All-append,
}
use computer_net_ucas.Packet.{Iface, IpPacket}
use computer_net_ucas.Arp.{
  ArpReq, ArpCache, Call, iface_send_packet, send_request, send_reply, unreachable, release,
  release_from, arpcache_insert,
}

-- A packet that leaves with the given destination and the address of its own interface.
abbrev pub IsAddressed : ℕ → Call → Type 0
IsAddressed mac (iface_send_packet i p) = (p.ether_dhost ≡ mac) × (p.ether_shost ≡ i.mac)
IsAddressed mac (send_request i ip4) = ⊥
IsAddressed mac (send_reply i a) = ⊥
IsAddressed mac (unreachable i p) = ⊥

release-IsAddressed :
    (mac : ℕ) (iface : Iface) (ps : List IpPacket) → All (IsAddressed mac) (release mac iface ps)
unfolding release
release-IsAddressed mac iface [] = tt
release-IsAddressed mac iface (p ∷ ps) = ((refl, refl), release-IsAddressed mac iface ps)

release_from-IsAddressed :
    (ip4 mac : ℕ) (rs : List ArpReq) → All (IsAddressed mac) (release_from ip4 mac rs).0
unfolding release_from
release_from-IsAddressed ip4 mac [] = tt
release_from-IsAddressed ip4 mac (r ∷ rs) =
    split (r.ip4 == ip4) (release_from-IsAddressed ip4 mac rs)
  where
    split :
        (b : Bool)
        → All (IsAddressed mac) (release_from ip4 mac rs).0
        → (let rest : List Call × List ArpReq = release_from ip4 mac rs in
            let out : List Call × List ArpReq =
              if b
              then (release mac r.iface r.cached_packets ++ rest.0, rest.1)
              else (rest.0, r ∷ rest.1) in
            All (IsAddressed mac) out.0)
    split true ih =
        All-append (IsAddressed mac) (release mac r.iface r.cached_packets)
          (release_from ip4 mac rs).0 (release-IsAddressed mac r.iface r.cached_packets) ih
    split false ih = ih

keep-release_from :
    (ip4 mac : ℕ) (rs : List ArpReq)
    → (release_from ip4 mac rs).1 ≡ keep (λ r. not (r.ip4 == ip4)) rs
unfolding release_from
keep-release_from ip4 mac [] = refl
keep-release_from ip4 mac (r ∷ rs) = split (r.ip4 == ip4) (keep-release_from ip4 mac rs)
  where
    split :
        (b : Bool)
        → (release_from ip4 mac rs).1 ≡ keep (λ x. not (x.ip4 == ip4)) rs
        → (let rest : List Call × List ArpReq = release_from ip4 mac rs in
            let out : List Call × List ArpReq =
              if b
              then (release mac r.iface r.cached_packets ++ rest.0, rest.1)
              else (rest.0, r ∷ rest.1) in
            out.1 ≡ (
              if not b
              then r ∷ keep (λ x. not (x.ip4 == ip4)) rs
              else keep (λ x. not (x.ip4 == ip4)) rs))
    split true ih = ih
    split false ih = ap (λ xs. r ∷ xs) ih

-- After an insertion no request for the address waits and all others wait in their order; all that
-- the insertion sends are waiting packets, each with the MAC address inserted as its destination and
-- with the address of the interface that it leaves by.
pub arpcache_insert-keep :
    (now rand ip4 mac : ℕ) (c : ArpCache)
    → ((arpcache_insert now rand ip4 mac c).1.req_list ≡ keep (λ r. not (r.ip4 == ip4)) c.req_list)
      × All (IsAddressed mac) (arpcache_insert now rand ip4 mac c).0
unfolding arpcache_insert
arpcache_insert-keep now rand ip4 mac c =
    (keep-release_from ip4 mac c.req_list, release_from-IsAddressed ip4 mac c.req_list)

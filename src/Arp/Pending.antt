-- ===== src/Arp/Pending.antt =====
-- The packets that wait in 06-router/arpcache.c for an address, over whole runs of the cache.
use computer_net_ucas.Common.{
  ℕ, ◌+◌, ◌≡◌, inl, inr, refl, ◌∙◌, Bool, true, false, ◌&&◌, Option, none, some, List, [], ◌∷◌,
  ◌++◌, ltb, leb, ◌==◌, if◌then◌else◌, arith, Bool-cases,
}
use computer_net_ucas.Word.{htons, htonl}
use computer_net_ucas.Packet.{Iface, IpPacket, ArpPacket, eth_p_ip, arpop_reply, arpop_request}
use computer_net_ucas.Arp.{
  ArpReq, ArpCache, Call, iface_send_packet, send_request, send_reply, unreachable,
  arp_request_max_retries, same_req, pend, pend_from, arpcache_append_packet, arpcache_lookup,
  release, release_from, arpcache_insert, give_up, sweep_from, arpcache_sweep, handle_arp_packet,
  send_or_pend, iface_send_packet_by_arp,
}

-- What happens to the cache: a packet to be sent, an ARP packet received, a round of the sweep.
pub data Event : Type 0 where
  send : ℕ → Iface → ℕ → IpPacket → Event
  arp : ℕ → ℕ → Iface → ArpPacket → Event
  tick : ℕ → List Iface → Event

unfoldable pub step : Event → ArpCache → List Call × ArpCache
unfolding iface_send_packet_by_arp handle_arp_packet arpcache_sweep
step (send now iface dst p) c = iface_send_packet_by_arp now iface dst p c
step (arp now rand iface a) c = handle_arp_packet now rand iface a c
step (tick now ifaces) c = arpcache_sweep now ifaces c

unfoldable pub run : List Event → ArpCache → List Call × ArpCache
unfolding step
run [] c = ([], c)
run (e ∷ es) c = let done = step e c in let rest = run es done.1 in (done.0 ++ rest.0, rest.1)

-- Counts of packets, each weighed by its identification and its data, which the cache never writes:
-- those that wait, those that leave in a call, and those handed to the cache.
module _ (w : ℕ → List ℕ → ℕ) where
  abbrev pub waiting_in : List IpPacket → ℕ
  waiting_in [] = 0
  waiting_in (p ∷ ps) = w p.id p.rest + waiting_in ps

  abbrev pub waiting : List ArpReq → ℕ
  waiting [] = 0
  waiting (r ∷ rs) = waiting_in r.cached_packets + waiting rs

  abbrev pub leaving : List Call → ℕ
  leaving [] = 0
  leaving (iface_send_packet i p ∷ cs) = w p.id p.rest + leaving cs
  leaving (unreachable i p ∷ cs) = w p.id p.rest + leaving cs
  leaving (send_request i ip4 ∷ cs) = leaving cs
  leaving (send_reply i a ∷ cs) = leaving cs

  abbrev pub given : List Event → ℕ
  given [] = 0
  given (send now iface dst p ∷ es) = w p.id p.rest + given es
  given (arp now rand iface a ∷ es) = given es
  given (tick now ifaces ∷ es) = given es

  pub leaving-append : (xs ys : List Call) → leaving (xs ++ ys) ≡ leaving xs + leaving ys
  leaving-append [] ys = omega arith
  leaving-append (iface_send_packet i p ∷ xs) ys = omega (arith, leaving-append xs ys)
  leaving-append (unreachable i p ∷ xs) ys = omega (arith, leaving-append xs ys)
  leaving-append (send_request i ip4 ∷ xs) ys = leaving-append xs ys
  leaving-append (send_reply i a ∷ xs) ys = leaving-append xs ys

  waiting_in-append :
      (xs ys : List IpPacket) → waiting_in (xs ++ ys) ≡ waiting_in xs + waiting_in ys
  waiting_in-append [] ys = omega arith
  waiting_in-append (x ∷ xs) ys = omega (arith, waiting_in-append xs ys)

  leaving-release :
      (mac : ℕ) (iface : Iface) (ps : List IpPacket)
      → leaving (release mac iface ps) ≡ waiting_in ps
  unfolding release
  leaving-release mac iface [] = refl
  leaving-release mac iface (p ∷ ps) = omega (arith, leaving-release mac iface ps)

  leaving-give_up :
      (ifaces : List Iface) (ps : List IpPacket) → leaving (give_up ifaces ps) ≡ waiting_in ps
  unfolding give_up
  leaving-give_up ifaces [] = refl
  leaving-give_up ifaces (p ∷ ps) = omega (arith, leaving-give_up ifaces ps)

  release_from-waiting :
      (ip4 mac : ℕ) (rs : List ArpReq)
      → leaving (release_from ip4 mac rs).0 + waiting (release_from ip4 mac rs).1 ≡ waiting rs
  unfolding release_from
  release_from-waiting ip4 mac [] = refl
  release_from-waiting ip4 mac (r ∷ rs) = elim (Bool-cases (r.ip4 == ip4)) [
    | inl hit ↦ rw hit (
        omega (
          arith,
          release_from-waiting ip4 mac rs,
          leaving-release mac r.iface r.cached_packets,
          leaving-append (release mac r.iface r.cached_packets) (release_from ip4 mac rs).0,
        ))
    | inr miss ↦ rw miss (omega (arith, release_from-waiting ip4 mac rs))
  ]

  sweep_from-waiting :
      (now : ℕ) (ifaces : List Iface) (rs : List ArpReq)
      → leaving (sweep_from now ifaces rs).0 + waiting (sweep_from now ifaces rs).1 ≡ waiting rs
  unfolding sweep_from
  sweep_from-waiting now ifaces [] = refl
  sweep_from-waiting now ifaces (r ∷ rs) =
      split (leb arp_request_max_retries r.retries) (ltb (r.sent + 1) now)
        (sweep_from-waiting now ifaces rs)
    where
      split :
          (b k : Bool)
          → leaving (sweep_from now ifaces rs).0 + waiting (sweep_from now ifaces rs).1 ≡ waiting rs
          → (let rest : List Call × List ArpReq = sweep_from now ifaces rs in
              let out : List Call × List ArpReq =
                if b
                then (give_up ifaces r.cached_packets ++ rest.0, rest.1)
                else if k
                then (
                  send_request r.iface r.ip4 ∷ rest.0,
                  record r { retries = r.retries + 1 } ∷ rest.1,
                )
                else (rest.0, r ∷ rest.1) in
              leaving out.0 + waiting out.1 ≡ waiting (r ∷ rs))
      split true k ih = omega (
        arith,
        leaving-give_up ifaces r.cached_packets,
        leaving-append (give_up ifaces r.cached_packets) (sweep_from now ifaces rs).0,
      )
      split false true ih = omega arith
      split false false ih = omega arith

  pend_from-waiting :
      (now : ℕ) (iface : Iface) (ip4 : ℕ) (p : IpPacket) (rs : List ArpReq)
      → waiting (pend_from now iface ip4 p rs) ≡ w p.id p.rest + waiting rs
  unfolding pend_from
  pend_from-waiting now iface ip4 p [] = omega arith
  pend_from-waiting now iface ip4 p (r ∷ rs) =
      split (same_req iface ip4 r) (pend_from-waiting now iface ip4 p rs)
    where
      split :
          (b : Bool)
          → waiting (pend_from now iface ip4 p rs) ≡ w p.id p.rest + waiting rs
          → waiting (if b then pend now p r ∷ rs else r ∷ pend_from now iface ip4 p rs)
            ≡ w p.id p.rest + waiting (r ∷ rs)
      split true ih = omega (arith, waiting_in-append r.cached_packets (p ∷ []))
      split false ih = omega arith

  send-waiting :
      (now : ℕ) (iface : Iface) (dst : ℕ) (p : IpPacket) (c : ArpCache) (found : Option ℕ)
      → leaving (send_or_pend now iface dst p c found).0
          + waiting (send_or_pend now iface dst p c found).1.req_list
        ≡ w p.id p.rest + waiting c.req_list
  unfolding send_or_pend arpcache_append_packet
  send-waiting now iface dst p c none = omega (arith, pend_from-waiting now iface dst p c.req_list)
  send-waiting now iface dst p c (some mac) = omega arith

  arp-waiting :
      (now rand : ℕ) (iface : Iface) (a : ArpPacket) (c : ArpCache)
      → leaving (handle_arp_packet now rand iface a c).0
          + waiting (handle_arp_packet now rand iface a c).1.req_list
        ≡ waiting c.req_list
  unfolding handle_arp_packet arpcache_insert
  arp-waiting now rand iface a c =
      split (htons a.arp_op == arpop_reply)
        ((htons a.arp_op == arpop_request) && (htonl a.arp_tpa == iface.ip))
    where
      split :
          (b k : Bool)
          → (let out : List Call × ArpCache =
                if b
                then arpcache_insert now rand (htonl a.arp_spa) a.arp_sha c
                else if k
                then (send_reply iface a ∷ [], c)
                else ([], c) in
              leaving out.0 + waiting out.1.req_list ≡ waiting c.req_list)
      split true k = release_from-waiting (htonl a.arp_spa) a.arp_sha c.req_list
      split false true = omega arith
      split false false = omega arith

  pub step-waiting :
      (e : Event) (c : ArpCache)
      → leaving (step e c).0 + waiting (step e c).1.req_list ≡ given (e ∷ []) + waiting c.req_list
  unfolding step iface_send_packet_by_arp arpcache_sweep
  step-waiting (send now iface dst p) c =
      send-waiting now iface dst (record p { ether_type = htons eth_p_ip }) c
        (arpcache_lookup c dst)
      ∙ omega arith
  step-waiting (arp now rand iface a) c = omega (arith, arp-waiting now rand iface a c)
  step-waiting (tick now ifaces) c = omega (arith, sweep_from-waiting now ifaces c.req_list)

  given-step : (e : Event) (es : List Event) → given (e ∷ es) ≡ given (e ∷ []) + given es
  given-step (send now iface dst p) es = omega arith
  given-step (arp now rand iface a) es = omega arith
  given-step (tick now ifaces) es = omega arith

  -- No run loses or doubles a packet: weighed by any function of identification and data, what
  -- left in a call and what still waits is what waited at the start and what was handed to the
  -- cache since.
  pub run-waiting :
      (es : List Event) (c : ArpCache)
      → leaving (run es c).0 + waiting (run es c).1.req_list ≡ given es + waiting c.req_list
  unfolding run
  run-waiting [] c = refl
  run-waiting (e ∷ es) c = omega (
    arith,
    leaving-append (step e c).0 (run es (step e c).1).0,
    step-waiting e c,
    run-waiting es (step e c).1,
    given-step e es,
  )

-- ===== src/Arp/Retries.antt =====
-- How long packets wait in 06-router/arpcache.c: the retries of a request, and the sweep.
use computer_net_ucas.Common.{
  ℕ, ◌+◌, ◌≤◌, ◌<◌, ◌≡◌, refl, sym, ap, ◌∙◌, true, ◌&&◌, none, List, [], ◌∷◌, ◌++◌, leb, ◌==◌,
  if◌then◌else◌, length, map, All, arith,
}
use mathlib.Core.Path.{subst}
use computer_net_ucas.Word.{htons}
use computer_net_ucas.Packet.{Iface, IpPacket, eth_p_ip}
use computer_net_ucas.Arp.{
  ArpReq, ArpCache, Call, send_request, unreachable, arp_request_max_retries, same_req, pend,
  new_req, pend_from, arpcache_append_packet, arpcache_lookup, sweep_from, arpcache_sweep,
  send_or_pend, iface_send_packet_by_arp,
}
use computer_net_ucas.Arp.Pending.{send, tick, step, run}

-- Rounds of the sweep at the given times.
unfoldable pub sweeps : List Iface → List ℕ → List ArpReq → List Call × List ArpReq
unfolding sweep_from
sweeps ifaces [] rs = ([], rs)
sweeps ifaces (t ∷ ts) rs =
    let swept = sweep_from t ifaces rs in
    let rest = sweeps ifaces ts swept.1 in (swept.0 ++ rest.0, rest.1)

-- The packets that calls report as unreachable, weighed by identification and data.
abbrev pub refused : (ℕ → List ℕ → ℕ) → List Call → ℕ
refused w [] = 0
refused w (unreachable i p ∷ cs) = w p.id p.rest + refused w cs
refused w (Call.iface_send_packet i p ∷ cs) = refused w cs
refused w (send_request i ip4 ∷ cs) = refused w cs
refused w (Call.send_reply i a ∷ cs) = refused w cs

-- A request that waits, sent for the last time more than a second before all the times to come,
-- and near enough to the limit.
abbrev IsDue : ℕ → List ℕ → ArpReq → Type 0
IsDue k ts r = (arp_request_max_retries ≤ r.retries + k) × All (λ t. r.sent + 1 < t) ts

-- Requests over the limit do not survive the round.
over-sweep_from :
    (t : ℕ) (ifaces : List Iface) (rs : List ArpReq)
    → All (λ r. arp_request_max_retries ≤ r.retries) rs
    → (sweep_from t ifaces rs).1 ≡ []
unfolding sweep_from
over-sweep_from t ifaces [] h = refl
over-sweep_from t ifaces (r ∷ rs) h =
    let over : leb arp_request_max_retries r.retries ≡ true = leb-true h.0 in
    rw over (over-sweep_from t ifaces rs h.1)
  where
    leb-true : {a b : ℕ} → a ≤ b → leb a b ≡ true
    leb-true le = ground arith

abbrev typed : IpPacket → IpPacket
typed p = record p { ether_type = htons eth_p_ip }

-- A packet for an address that is not known joins the requests.
send-joins :
    (now dst : ℕ) (iface : Iface) (p : IpPacket) (c : ArpCache) (rs : List ArpReq)
    → arpcache_lookup c dst ≡ none
    → pend_from now iface dst (typed p) c.req_list ≡ rs
    → (step (send now iface dst p) c).1 ≡ record c { req_list = rs }
unfolding step iface_send_packet_by_arp send_or_pend arpcache_append_packet
send-joins now dst iface p c rs unknown joined =
    ap (λ found. (send_or_pend now iface dst (typed p) c found).1) unknown
    ∙ ap (λ (xs : List ArpReq). record c { req_list = xs }) joined

arpcache_lookup-req :
    (c : ArpCache) (rs : List ArpReq) (dst : ℕ)
    → arpcache_lookup (record c { req_list = rs }) dst ≡ arpcache_lookup c dst
unfolding arpcache_lookup
arpcache_lookup-req c rs dst = refl

pend_from-same :
    (now dst : ℕ) (iface : Iface) (p : IpPacket) (r : ArpReq) (rs : List ArpReq)
    → same_req iface dst r ≡ true
    → rs ≡ r ∷ []
    → pend_from now iface dst p rs ≡ pend now p r ∷ []
unfolding pend_from
pend_from-same now dst iface p r rs same waits =
    ap (pend_from now iface dst p) waits
    ∙ ap (λ b. if b then pend now p r ∷ [] else r ∷ pend_from now iface dst p []) same

burst-joined :
    (now dst : ℕ) (iface : Iface) (ifaces : List Iface) (ps : List IpPacket) (c : ArpCache)
    (r : ArpReq)
    → arp_request_max_retries ≤ r.retries + length ps
    → arpcache_lookup c dst ≡ none
    → same_req iface dst r ≡ true
    → c.req_list ≡ r ∷ []
    → (run (map (send now iface dst) ps ++ (tick now ifaces ∷ [])) c).1.req_list ≡ []
unfolding run step arpcache_sweep
burst-joined now dst iface ifaces [] c r many unknown same waits =
    over-sweep_from now ifaces c.req_list
      (subst (All (λ x. arp_request_max_retries ≤ x.retries)) (sym waits) (omega arith, tt))
burst-joined now dst iface ifaces (p ∷ ps) c r many unknown same waits =
    let joined = pend now (typed p) r in
    let next =
      send-joins now dst iface p c (joined ∷ []) unknown
        (pend_from-same now dst iface (typed p) r c.req_list same waits) in
    subst
      (λ (d : ArpCache).
        (run (map (send now iface dst) ps ++ (tick now ifaces ∷ [])) d).1.req_list ≡ [])
      (sym next)
      (burst-joined now dst iface ifaces ps (record c { req_list = joined ∷ [] }) joined
        (omega arith) (arpcache_lookup-req c (joined ∷ []) dst ∙ unknown) same refl)

-- Each packet counts as a try of the ARP request: when five or more of them come for one unknown
-- address within a second, a sweep in that same second takes them all from the queue.
pub burst_refused :
    (now dst : ℕ) (iface : Iface) (ifaces : List Iface) (p : IpPacket) (ps : List IpPacket)
    (c : ArpCache)
    → 4 ≤ length ps
    → arpcache_lookup c dst ≡ none
    → c.req_list ≡ []
    → (run (map (send now iface dst) (p ∷ ps) ++ (tick now ifaces ∷ [])) c).1.req_list ≡ []
unfolding run pend_from
burst_refused now dst iface ifaces p ps c many unknown empty =
    let first_req = pend now (typed p) (new_req iface dst) in
    let next =
      send-joins now dst iface p c (first_req ∷ []) unknown
        (ap (pend_from now iface dst (typed p)) empty) in
    subst
      (λ (d : ArpCache).
        (run (map (send now iface dst) ps ++ (tick now ifaces ∷ [])) d).1.req_list ≡ [])
      (sym next)
      (burst-joined now dst iface ifaces ps (record c { req_list = first_req ∷ [] }) first_req
        (omega arith) (arpcache_lookup-req c (first_req ∷ []) dst ∙ unknown)
        (same_self dst iface.index) refl)
  where
    same_self : (m n : ℕ) → ((m == m) && (n == n)) ≡ true
    same_self m n = ground arith

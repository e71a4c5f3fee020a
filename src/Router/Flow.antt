-- ===== src/Router/Flow.antt =====
-- What becomes of the packets of 06-router over whole runs of the router: of every packet that is
-- forwarded and of every ICMP message that the router makes.
use computer_net_ucas.Common.{
  ℕ, ◌+◌, ◌≡◌, refl, ap, Bool, true, false, List, [], ◌∷◌, ◌==◌, if◌then◌else◌, arith,
}
use computer_net_ucas.Word.{htons}
use computer_net_ucas.Packet.{Iface, eth_p_ip, eth_p_arp, icmp_send_packet}
use computer_net_ucas.Packet.Frame.{ether_type_of, packet_to_ip_hdr, packet_to_arp_hdr}
use computer_net_ucas.Forward.{RtEntry, Action, handle_ip_packet}
use computer_net_ucas.Forward
use computer_net_ucas.Arp.{ArpCache, Call, handle_arp_packet}
use computer_net_ucas.Arp.Pending.{leaving, waiting, leaving-append, step-waiting, send, arp, tick}
use computer_net_ucas.Arp.Pending
use computer_net_ucas.Router.{
  Env, Router, Event, frame, sweep, perform, handle_frame, handle_packet, step, run,
}

module _ (w : ℕ → List ℕ → ℕ) where
  -- The weight of the packet that the handling of an IP packet hands on: the one it forwards or the
  -- ICMP message it makes.
  abbrev pub handed_on : Env → Action → ℕ
  handed_on env (Forward.icmp_send_packet iface p type code) =
      let q = icmp_send_packet (env.rand 0) env.junk iface p type code in w q.id q.rest
  handed_on env (Forward.iface_send_packet_by_arp iface dst p) = w p.id p.rest
  handed_on env Forward.free_packet = 0

  abbrev pub brought : Event → List RtEntry → ℕ
  brought (frame env iface bytes) rtable =
      if htons (ether_type_of bytes) == eth_p_ip
      then handed_on env (handle_ip_packet rtable iface (packet_to_ip_hdr bytes))
      else 0
  brought (sweep now) rtable = 0

  abbrev pub brought_by : List Event → List RtEntry → ℕ
  brought_by [] rtable = 0
  brought_by (e ∷ es) rtable = brought e rtable + brought_by es rtable

  -- What left and what waits after a step on the cache.
  abbrev weight : List Call × ArpCache → ℕ
  weight done = leaving w done.0 + waiting w done.1.req_list

  perform-waiting :
      (env : Env) (a : Action) (c : ArpCache)
      → weight (perform env a c) ≡ handed_on env a + waiting w c.req_list
  unfolding perform Pending.step
  perform-waiting env (Forward.icmp_send_packet iface p type code) c = omega arith
  perform-waiting env (Forward.iface_send_packet_by_arp iface dst p) c =
      omega (arith, step-waiting w (send env.now iface dst p) c)
  perform-waiting env Forward.free_packet c = omega arith

  handle_frame-waiting :
      (env : Env) (iface : Iface) (bytes : List ℕ) (r : Router)
      → weight (handle_frame env iface bytes r)
        ≡ brought (frame env iface bytes) r.rtable + waiting w r.arpcache.req_list
  unfolding handle_frame Pending.step
  handle_frame-waiting env iface bytes r =
      split (handle_ip_packet r.rtable iface (packet_to_ip_hdr bytes))
        (htons (ether_type_of bytes) == eth_p_ip) (htons (ether_type_of bytes) == eth_p_arp)
    where
      split :
          (action : Action) (ip other : Bool)
          → weight (
              if ip
              then perform env action r.arpcache
              else if other
              then handle_arp_packet env.now (env.rand 0) iface (packet_to_arp_hdr bytes) r.arpcache
              else ([], r.arpcache))
            ≡ (if ip then handed_on env action else 0) + waiting w r.arpcache.req_list
      split action true other = perform-waiting env action r.arpcache
      split action false true =
          step-waiting w (arp env.now (env.rand 0) iface (packet_to_arp_hdr bytes)) r.arpcache
      split action false false = omega arith

  step-brought :
      (e : Event) (r : Router)
      → leaving w (step e r).0 + waiting w (step e r).1.arpcache.req_list
        ≡ brought e r.rtable + waiting w r.arpcache.req_list
  unfolding step handle_packet Pending.step
  step-brought (frame env iface bytes) r = handle_frame-waiting env iface bytes r
  step-brought (sweep now) r = step-waiting w (tick now r.ifaces) r.arpcache

  step-rtable : (e : Event) (r : Router) → (step e r).1.rtable ≡ r.rtable
  unfolding step handle_packet
  step-rtable (frame env iface bytes) r = refl
  step-rtable (sweep now) r = refl

  -- The router neither loses nor doubles a packet that it hands on: weighed by any function of
  -- identification and data, what left in a call and what waits for an address after a run is what
  -- waited before it, what its frames had forwarded and the ICMP messages they had made.
  pub run-brought_by :
      (es : List Event) (r : Router)
      → leaving w (run es r).0 + waiting w (run es r).1.arpcache.req_list
        ≡ brought_by es r.rtable + waiting w r.arpcache.req_list
  unfolding run
  run-brought_by [] r = refl
  run-brought_by (e ∷ es) r = omega (
    arith,
    leaving-append w (step e r).0 (run es (step e r).1).0,
    step-brought e r,
    run-brought_by es (step e r).1,
    ap (brought_by es) (step-rtable e r),
  )

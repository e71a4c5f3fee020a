-- ===== src/Router.antt =====
-- 06-router/main.c with the parts that it joins: a frame that arrives goes by its type to the handling
-- of IP packets (Forward, Packet) or of ARP packets (Arp), and the sweeping thread runs in between.
-- The handling of one frame and a round of the sweep are steps; the routing table does not change.
pub mod Flow
pub mod Deliver
pub mod Exchange
pub mod Main
mod Tests
use computer_net_ucas.Common.{
  ℕ, zero, suc, ◌+◌, Option, none, some, List, [], ◌∷◌, ◌++◌, ◌==◌, if◌then◌else◌,
}
use computer_net_ucas.Word.{htons}
use computer_net_ucas.Packet.{
  Iface, IpPacket, ArpPacket, eth_p_ip, eth_p_arp, icmp_dest_unreach, arp_send_request,
  arp_send_reply,
}
use computer_net_ucas.Packet
use computer_net_ucas.Packet.Frame.{
  ether_type_of, packet_to_ip_hdr, packet_to_arp_hdr, ip_frame, arp_frame,
}
use computer_net_ucas.Forward.{RtEntry, Action, handle_ip_packet}
use computer_net_ucas.Forward
use computer_net_ucas.Arp.{ArpCache, Call, arpcache_sweep, handle_arp_packet}
use computer_net_ucas.Arp

-- What the handling of a frame takes from outside: the time, the numbers that `rand` gives and what
-- `malloc` leaves in the memory of an ICMP message.
pub record Env : Type 0 where
  pub now : ℕ
  pub rand : ℕ → ℕ
  pub junk : List ℕ

pub record Router : Type 0 where
  pub ifaces : List Iface
  pub rtable : List RtEntry
  pub arpcache : ArpCache

-- The call that the handling of an IP packet ends with, carried out.
unfoldable pub perform : Env → Action → ArpCache → List Call × ArpCache
perform env (Forward.icmp_send_packet iface p type code) c = (
  Arp.iface_send_packet iface (Packet.icmp_send_packet (env.rand 0) env.junk iface p type code)
      ∷ [],
  c,
)
perform env (Forward.iface_send_packet_by_arp iface dst p) c =
    Arp.iface_send_packet_by_arp env.now iface dst p c
perform env Forward.free_packet c = ([], c)

unfoldable pub handle_frame : Env → Iface → List ℕ → Router → List Call × ArpCache
unfolding perform
handle_frame env iface frame r =
    let type = htons (ether_type_of frame) in
    if type == eth_p_ip
    then perform env (handle_ip_packet r.rtable iface (packet_to_ip_hdr frame)) r.arpcache
    else if type == eth_p_arp
    then handle_arp_packet env.now (env.rand 0) iface (packet_to_arp_hdr frame) r.arpcache
    else ([], r.arpcache)

abbrev pub with_cache : Router → List Call × ArpCache → List Call × Router
with_cache r done = (done.0, record r { arpcache = done.1 })

-- `handle_packet`, with the calls that it leads to.
unfoldable pub handle_packet : Env → Iface → List ℕ → Router → List Call × Router
unfolding handle_frame
handle_packet env iface frame r = with_cache r (handle_frame env iface frame r)

abbrev host_unreachable : ℕ
host_unreachable = 1

-- The frames that a call puts on the wire, with the interface of each. An unreachable packet whose
-- interface was not found is sent nowhere; `i` counts the calls of `rand`.
abbrev emit : Env → ℕ → Call → List (Iface × List ℕ)
emit env i (Arp.iface_send_packet iface p) = (iface, ip_frame p) ∷ []
emit env i (Arp.send_request iface ip4) = (iface, arp_frame (arp_send_request iface ip4)) ∷ []
emit env i (Arp.send_reply iface a) = (iface, arp_frame (arp_send_reply iface a)) ∷ []
emit env i (Arp.unreachable none p) = []
emit env i (Arp.unreachable (some iface) p) =
    (
      iface,
      ip_frame (
          Packet.icmp_send_packet (env.rand i) env.junk iface p icmp_dest_unreach host_unreachable),
    )
    ∷ []

unfoldable pub emit_all : Env → ℕ → List Call → List (Iface × List ℕ)
emit_all env i [] = []
emit_all env i (c ∷ cs) = emit env i c ++ emit_all env (i + 1) cs

-- A step of the router: a frame that arrives, or a round of the sweeping thread.
pub data Event : Type 0 where
  frame : Env → Iface → List ℕ → Event
  sweep : ℕ → Event

unfoldable pub step : Event → Router → List Call × Router
unfolding handle_packet
step (frame env iface bytes) r = handle_packet env iface bytes r
step (sweep now) r = with_cache r (arpcache_sweep now r.ifaces r.arpcache)

unfoldable pub run : List Event → Router → List Call × Router
unfolding step
run [] r = ([], r)
run (e ∷ es) r = let done = step e r in let rest = run es done.1 in (done.0 ++ rest.0, rest.1)

-- ===== src/Tcp/Wire/Control.antt =====
-- The control packets of 10-tcp_stack/tcp_out.c, from the socket that sends one to the stack that
-- receives it.
use computer_net_ucas.Common.{
  ℕ, ◌+◌, ◌-◌, ◌*◌, ◌%◌, ◌<◌, ◌≡◌, refl, sym, ap, ◌∙◌, true, false, List, [], ◌==◌, if◌then◌else◌,
  drop, eq→==, arith,
}
use computer_net_ucas.Word.{
  u16_mod, u32_mod, add32, htons, htonl, htons-lt, htonl-lt, htons-htons, htonl-htonl,
}
use computer_net_ucas.Packet.{Iface, IpPacket, ipproto_icmp}
use computer_net_ucas.Packet.Frame.{join16, join32}
use computer_net_ucas.Checksum.{checksum}
use computer_net_ucas.Tcp.{TcpCb, Segment, Stack, tcp_syn, tcp_fin, has_flag}
use computer_net_ucas.Tcp.Table.{tcp_sock_lookup}
use computer_net_ucas.Tcp.Process.{tcp_process}
use computer_net_ucas.Tcp.Wire.{
  TcpHdr, tcp_bytes, tcp_at, packet_to_tcp_hdr, tcp_checksum, tcp_init_hdr, ipproto_tcp,
  control_packet, tcp_cb_init, handle_tcp_packet, handle_ip_packet,
}

-- What the stack relies on in `ip_init_hdr`: a header without options that holds its arguments.
abbrev pub IsIpInit : (ℕ → ℕ → ℕ → ℕ → IpPacket → IpPacket) → Type 0
IsIpInit init =
    (saddr daddr len proto : ℕ) (p : IpPacket)
    → len < u16_mod
    → (let q : IpPacket = init saddr daddr len proto p in
        (q.ver_ihl ≡ 0x45)
        × (q.tot_len ≡ htons len)
        × (q.protocol ≡ proto)
        × (q.saddr ≡ htonl saddr)
        × (q.daddr ≡ htonl daddr))

-- The control block of a segment without data.
abbrev pub cb_of : Segment → TcpCb
cb_of sg = record {
  saddr = sg.saddr;
  daddr = sg.daddr;
  sport = sg.sport;
  dport = sg.dport;
  seq = sg.seq;
  seq_end = add32 sg.seq (if has_flag sg.flags (tcp_syn + tcp_fin) then 1 else 0);
  ack = sg.ack;
  rwnd = sg.rwnd;
  flags = sg.flags;
  payload = [];
  pl_len = 0;
}

abbrev pub IsSegment : Segment → Type 0
IsSegment sg =
    (sg.saddr < u32_mod)
    × (sg.daddr < u32_mod)
    × (sg.sport < u16_mod)
    × (sg.dport < u16_mod)
    × (sg.seq < u32_mod)
    × (sg.ack < u32_mod)
    × (sg.rwnd < u16_mod)

abbrev header_of : Segment → TcpHdr
header_of sg = tcp_init_hdr sg.sport sg.dport sg.seq sg.ack sg.flags sg.rwnd

checksum-lt : (bytes : List ℕ) (sum : ℕ) → checksum bytes sum < u16_mod
unfolding checksum
checksum-lt bytes sum = omega arith

-- The header that is read is the one that was written, with its checksum.
tcp_at-tcp_bytes :
    (sg : Segment) (sum : ℕ)
    → sum < u16_mod
    → tcp_at (tcp_bytes (header_of sg) sum) ≡ record (header_of sg) { tcp_sum = sum }
unfolding tcp_at tcp_init_hdr
tcp_at-tcp_bytes sg sum small =
    rw
      (
        join16 (htons sg.sport) (htons-lt sg.sport),
        join16 (htons sg.dport) (htons-lt sg.dport),
        join32 (htonl sg.seq) (htonl-lt sg.seq),
        join32 (htonl sg.ack) (htonl-lt sg.ack),
        join16 (htons sg.rwnd) (htons-lt sg.rwnd),
        join16 sum small,
      )
      refl

tcp_checksum-lt : (p : IpPacket) (h : TcpHdr) → tcp_checksum p h < u16_mod
unfolding tcp_checksum
tcp_checksum-lt p h = checksum-lt _ _

-- The header that the receiver of a control packet reads.
abbrev sealed : (ℕ → ℕ → ℕ → ℕ → IpPacket → IpPacket) → IpPacket → Segment → TcpHdr
sealed init empty sg =
    let p = init sg.saddr sg.daddr 40 ipproto_tcp empty in
    record (header_of sg) { tcp_sum = tcp_checksum p (header_of sg) }

control_packet-read :
    (init : ℕ → ℕ → ℕ → ℕ → IpPacket → IpPacket) (empty : IpPacket) (sg : Segment)
    → IsIpInit init
    → packet_to_tcp_hdr (control_packet init empty sg) ≡ sealed init empty sg
unfolding packet_to_tcp_hdr control_packet
control_packet-read init empty sg documented =
    let p = init sg.saddr sg.daddr 40 ipproto_tcp empty in
    let plain = (documented sg.saddr sg.daddr 40 ipproto_tcp empty (omega arith)).0 in
    ap
      (λ v.
        tcp_at (drop (v % 16 * 4 - 20) (tcp_bytes (header_of sg) (tcp_checksum p (header_of sg)))))
      plain
    ∙ tcp_at-tcp_bytes sg (tcp_checksum p (header_of sg)) (tcp_checksum-lt p (header_of sg))

add32-zero : (x : ℕ) → x < u32_mod → add32 x 0 ≡ x
add32-zero x h = omega arith

control_packet-cb :
    (init : ℕ → ℕ → ℕ → ℕ → IpPacket → IpPacket) (empty : IpPacket) (sg : Segment)
    → IsIpInit init
    → IsSegment sg
    → tcp_cb_init (control_packet init empty sg) (sealed init empty sg) ≡ cb_of sg
unfolding tcp_cb_init control_packet tcp_init_hdr
control_packet-cb init empty sg documented (a, b, c, d, e, f, g) =
    let p = init sg.saddr sg.daddr 40 ipproto_tcp empty in
    let (plain, len, proto, source, dest) =
      documented sg.saddr sg.daddr 40 ipproto_tcp empty (omega arith) in
    rw
      (
        plain,
        len,
        source,
        dest,
        htons-htons 40 (omega arith),
        htonl-htonl sg.saddr a,
        htonl-htonl sg.daddr b,
        htons-htons sg.sport c,
        htons-htons sg.dport d,
        htonl-htonl sg.seq e,
        htonl-htonl sg.ack f,
        htons-htons sg.rwnd g,
        add32-zero sg.seq e,
      )
      refl

mine :
    (init : ℕ → ℕ → ℕ → ℕ → IpPacket → IpPacket) (empty : IpPacket) (sg : Segment) (iface : Iface)
    → (init sg.saddr sg.daddr 40 ipproto_tcp empty).daddr ≡ htonl sg.daddr
    → sg.daddr < u32_mod
    → iface.ip ≡ sg.daddr
    → (htonl (control_packet init empty sg).daddr == iface.ip) ≡ true
unfolding control_packet
mine init empty sg iface dest small here =
    eq→== _ _ (ap htonl dest ∙ htonl-htonl sg.daddr small ∙ sym here)

is_tcp :
    (init : ℕ → ℕ → ℕ → ℕ → IpPacket → IpPacket) (empty : IpPacket) (sg : Segment)
    → (init sg.saddr sg.daddr 40 ipproto_tcp empty).protocol ≡ ipproto_tcp
    → (control_packet init empty sg).protocol ≡ ipproto_tcp
unfolding control_packet
is_tcp init empty sg h = h

right :
    (init : ℕ → ℕ → ℕ → ℕ → IpPacket → IpPacket) (empty : IpPacket) (sg : Segment)
    → (tcp_checksum (control_packet init empty sg) (sealed init empty sg)
        == (sealed init empty sg).tcp_sum)
      ≡ true
unfolding control_packet tcp_checksum tcp_init_hdr
right init empty sg = eq→== _ _ refl

handle_ip_packet-tcp :
    (iss : ℕ) (iface : Iface) (p : IpPacket) (h : TcpHdr) (s : Stack)
    → (htonl p.daddr == iface.ip) ≡ true
    → p.protocol ≡ ipproto_tcp
    → packet_to_tcp_hdr p ≡ h
    → handle_ip_packet iss iface p s ≡ (false, handle_tcp_packet iss p h s)
unfolding handle_ip_packet
handle_ip_packet-tcp iss iface p h s here tcp read =
    let other : (p.protocol == ipproto_icmp) ≡ false = ap (λ x. x == ipproto_icmp) tcp in
    let same : (p.protocol == ipproto_tcp) ≡ true = ap (λ x. x == ipproto_tcp) tcp in
    (rw (here, other, same) refl) ∙ ap (λ x. (false, handle_tcp_packet iss p x s)) read

handle_tcp_packet-right :
    (iss : ℕ) (p : IpPacket) (h : TcpHdr) (cb : TcpCb) (s : Stack)
    → (tcp_checksum p h == h.tcp_sum) ≡ true
    → tcp_cb_init p h ≡ cb
    → handle_tcp_packet iss p h s ≡ tcp_process (tcp_sock_lookup s cb) cb iss s
unfolding handle_tcp_packet
handle_tcp_packet-right iss p h cb s good same =
    rw good (ap (λ c. tcp_process (tcp_sock_lookup s c) c iss s) same)

-- What an interface does with a control packet that another stack made for a segment to its address:
-- it finds the checksum right, and the socket that the table has for the segment processes exactly
-- that segment. `ip_init_hdr` is any function that fills a header without options.
pub control_packet-handle_ip_packet :
    (init : ℕ → ℕ → ℕ → ℕ → IpPacket → IpPacket) (empty : IpPacket) (sg : Segment) (iss : ℕ)
    (iface : Iface) (s : Stack)
    → IsIpInit init
    → IsSegment sg
    → iface.ip ≡ sg.daddr
    → handle_ip_packet iss iface (control_packet init empty sg) s
      ≡ (false, tcp_process (tcp_sock_lookup s (cb_of sg)) (cb_of sg) iss s)
control_packet-handle_ip_packet init empty sg iss iface s documented fits here =
    let q = control_packet init empty sg in
    let (plain, len, proto, source, dest) =
      documented sg.saddr sg.daddr 40 ipproto_tcp empty (omega arith) in
    handle_ip_packet-tcp iss iface q (sealed init empty sg) s
      (mine init empty sg iface dest fits.1 here) (is_tcp init empty sg proto)
      (control_packet-read init empty sg documented)
    ∙ ap (λ x. (false, x))
        (handle_tcp_packet-right iss q (sealed init empty sg) (cb_of sg) s (right init empty sg)
          (control_packet-cb init empty sg documented fits))

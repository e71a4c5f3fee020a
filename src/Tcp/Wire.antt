-- ===== src/Tcp/Wire.antt =====
-- The packets of 10-tcp_stack as bytes: struct tcphdr and tcp_checksum of include/tcp.h, tcp_init_hdr
-- of tcp_out.c, tcp_cb_init and handle_tcp_packet of tcp.c, handle_ip_packet of ip.c. The function
-- ip_init_hdr is in a library without source and is an argument.
pub mod Control
use computer_net_ucas.Common.{
  ℕ, ◌+◌, ◌-◌, ◌*◌, ◌/◌, ◌%◌, Bool, true, false, Option, none, some, List, [], ◌∷◌, ◌++◌, ◌==◌,
  if◌then◌else◌, take, drop,
}
use computer_net_ucas.Word.{u16_mod, u32_mod, add32, htons, htonl, bytes16, bytes32}
use computer_net_ucas.Checksum.{checksum}
use computer_net_ucas.Packet.{
  Iface, IpPacket, ip_hdr_size, ipproto_icmp, icmp_echoreply, icmp_echorequest,
}
use computer_net_ucas.Packet.Frame.{byte, load16, load32}
use computer_net_ucas.Tcp.{TcpCb, Segment, Stack, tcp_syn, tcp_fin, has_flag}
use computer_net_ucas.Tcp.Table.{tcp_sock_lookup}
use computer_net_ucas.Tcp.Process.{tcp_process}

-- `struct tcphdr`, in network byte order; `x2_off` holds x2 and off, and `content` is what follows the
-- first 20 bytes.
pub record TcpHdr : Type 0 where
  pub sport : ℕ
  pub dport : ℕ
  pub seq : ℕ
  pub ack : ℕ
  pub x2_off : ℕ
  pub flags : ℕ
  pub rwnd : ℕ
  pub tcp_sum : ℕ
  pub urp : ℕ
  pub content : List ℕ

-- The bytes of a header and what follows it, with the given checksum.
abbrev pub tcp_bytes : TcpHdr → ℕ → List ℕ
tcp_bytes h sum =
    bytes16 h.sport
    ++ (bytes16 h.dport
        ++ (bytes32 h.seq
            ++ (bytes32 h.ack
                ++ (h.x2_off ∷ h.flags ∷ bytes16 h.rwnd
                    ++ (bytes16 sum ++ (bytes16 h.urp ++ h.content))))))

-- The bytes at an address read as a header.
unfoldable pub tcp_at : List ℕ → TcpHdr
tcp_at bs = record {
  sport = load16 bs 0;
  dport = load16 bs 2;
  seq = load32 bs 4;
  ack = load32 bs 8;
  x2_off = byte bs 12;
  flags = byte bs 13;
  rwnd = load16 bs 14;
  tcp_sum = load16 bs 16;
  urp = load16 bs 18;
  content = drop 20 bs;
}

-- What follows the IP header and its options.
unfoldable pub packet_to_tcp_hdr : IpPacket → TcpHdr
unfolding tcp_at
packet_to_tcp_hdr p = tcp_at (drop (ip_hdr_size p - 20) p.rest)

abbrev pub tcp_hdr_size : TcpHdr → ℕ
tcp_hdr_size h = h.x2_off / 16 * 4

-- `tcp_checksum`; the sum of the pseudo header wraps at 32 bits.
unfoldable pub tcp_checksum : IpPacket → TcpHdr → ℕ
tcp_checksum p h =
    let tcp_len = (htons p.tot_len + u16_mod - ip_hdr_size p) % u16_mod in
    checksum (take tcp_len (tcp_bytes h 0))
      (add32 (add32 (add32 p.saddr p.daddr) (htons p.protocol)) (htons tcp_len))

unfoldable pub tcp_init_hdr : ℕ → ℕ → ℕ → ℕ → ℕ → ℕ → TcpHdr
tcp_init_hdr sport dport seq ack flags rwnd = record {
  sport = htons sport;
  dport = htons dport;
  seq = htonl seq;
  ack = htonl ack;
  x2_off = 5 * 16;
  flags = flags;
  rwnd = htons rwnd;
  tcp_sum = 0;
  urp = 0;
  content = [];
}

abbrev pub ipproto_tcp : ℕ
ipproto_tcp = 6

-- The packet that `tcp_send_control_packet` and `tcp_send_reset` make for a segment.
unfoldable pub control_packet :
    (ℕ → ℕ → ℕ → ℕ → IpPacket → IpPacket) → IpPacket → Segment → IpPacket
unfolding tcp_init_hdr tcp_checksum
control_packet ip_init_hdr empty sg =
    let p = ip_init_hdr sg.saddr sg.daddr (20 + 20) ipproto_tcp empty in
    let h = tcp_init_hdr sg.sport sg.dport sg.seq sg.ack sg.flags sg.rwnd in
    record p { rest = tcp_bytes h (tcp_checksum p h) }

unfoldable pub tcp_cb_init : IpPacket → TcpHdr → TcpCb
tcp_cb_init p h =
    let len = (htons p.tot_len + 2 * u32_mod - ip_hdr_size p - tcp_hdr_size h) % u32_mod in
    record {
      saddr = htonl p.saddr;
      daddr = htonl p.daddr;
      sport = htons h.sport;
      dport = htons h.dport;
      seq = htonl h.seq;
      seq_end =
          add32 (add32 (htonl h.seq) len) (if has_flag h.flags (tcp_syn + tcp_fin) then 1 else 0);
      ack = htonl h.ack;
      rwnd = htons h.rwnd;
      flags = h.flags;
      payload = drop (tcp_hdr_size h - 20) h.content;
      pl_len = len;
    }

unfoldable pub handle_tcp_packet : ℕ → IpPacket → TcpHdr → Stack → Stack
unfolding tcp_process tcp_sock_lookup tcp_cb_init tcp_checksum
handle_tcp_packet iss p h s =
    let cb = tcp_cb_init p h in
    if tcp_checksum p h == h.tcp_sum then tcp_process (tcp_sock_lookup s cb) cb iss s else s

-- What `handle_ip_packet` of ip.c does: the ICMP answer that it asks for, if any, and the stack.
unfoldable pub handle_ip_packet : ℕ → Iface → IpPacket → Stack → Bool × Stack
unfolding handle_tcp_packet packet_to_tcp_hdr
handle_ip_packet iss iface p s =
    if htonl p.daddr == iface.ip
    then if p.protocol == ipproto_icmp
      then (byte (drop (ip_hdr_size p - 20) p.rest) 0 == icmp_echorequest, s)
      else if p.protocol == ipproto_tcp
      then (false, handle_tcp_packet iss p (packet_to_tcp_hdr p) s)
      else (false, s)
    else (false, s)

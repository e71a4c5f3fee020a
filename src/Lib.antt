-- ===== src/Lib.antt =====
-- Verification of the network stack in this repository: a spanning tree switch (04_stp), an IP
-- router with its ARP cache (06-router), address translation (08-nat), a link state routing daemon
-- (07-mospf) and a TCP stack (10-tcp_stack, and 12-tcp_stack with data), with the ring buffer, the
-- list, the waiting structure and the checksum of 12-tcp_stack, of which other directories have
-- copies. Each directory is a program of its own. A packet that comes in on an interface goes to
-- the switch, or to the router, which asks the routing table for the next hop and the ARP cache for
-- its address; the translator rewrites it on the way, and TCP takes it to a socket.
--
-- Common: tests, conditionals, arrays and lists with the lemmas that the components share.
-- Text: strings, with strstr, strtok, atoi and fgets of the C library as the sources use them.
-- Word: wrap-around of machine words and the byte order of a little-endian host.
-- Stp: 04_stp/stp.c and stp_timer.c. Stp.Update has the election (update_stp_status), the port update
--   and the packet handlers; a state is a record and a running switch a sequence of events. Stp.Main is
--   the main.c of 04_stp on the loop of Device, with the frames as bytes.
-- Ring: 12-tcp_stack/include/ring_buffer.h; Ring.Queue has the bounded queue that it implements.
-- Checksum: 12-tcp_stack/include/checksum.h.
-- Nat: 08-nat/nat.c with include/nat.h; Nat.Table has do_translation, the sweep and alloc_port,
--   Nat.Config parse_config and nat_init.
-- Packet: the packets of 06-router, with arp_send_request, arp_send_reply, ip_init_hdr and
--   icmp_send_packet; Packet.Frame has their bytes.
-- Arp: 06-router/arpcache.c and arp.c. Forward: 06-router/rtable.c, ip_base.c and ip.c.
-- Rtable: 06-router/rtable_internal.c, the routes that come from the kernel.
-- Device: 06-router/device_internal.c, and ustack_run of main.c for any handle_packet.
-- Router: handle_packet of 06-router/main.c, which joins Packet, Forward and Arp: a frame of bytes goes
--   to the ARP cache or through the forwarding, whose last call is carried out on the cache, and the
--   calls that come out are frames again. Router.Main is main, on Device and Rtable, with the
--   rounds of the thread that sweeps the ARP cache between the frames; Router.Exchange puts two
--   routers on one wire.
-- Tcp: 10-tcp_stack. Tcp.Table has the hash tables and ports of tcp_sock.c, Tcp.Process the state
--   machine of tcp_in.c, Tcp.Socket the calls of the application and the timer scan,
--   Tcp.Wire the packets as bytes, with tcp.c and ip.c. Tcp.Handshake joins the stacks of two hosts.
-- Mospf: 07-mospf. Mospf has the messages, Mospf.Neighbours and Mospf.Database the handlers and the
--   threads of mospf_daemon.c, Mospf.Routes its update_rtable, Mospf.Dispatch its
--   ip.c with the messages as bytes. handle_mospf_packet gives a message to the neighbours or to the
--   database; the call of update_rtable that follows a change of the database is not part of it.
-- Transfer: handle_rcv_data, tcp_sock_read and tcp_sock_write of 12-tcp_stack/tcp_sock.c, on Ring.
--   The repository has neither a caller of handle_rcv_data nor struct recv_buffer, and does not
--   initialise the list rcv_ofo_buf: the model says when the list has been, and crashes otherwise.
-- Wait: 12-tcp_stack/include/synch_wait.h as steps of threads.
-- Chain: 12-tcp_stack/include/list.h on a store of nodes.
--
-- Conventions. Words are native natural numbers with their wrap-around written out. Header fields are
-- kept as the little-endian host loads them. Time and random numbers are arguments. A linked list is
-- a list, a pointer into an array its index, a socket its address in a store. A thread that holds a
-- lock does one step. What leaves through an interface is returned as a list, or appended to a log.
--
-- Bounds. The carry loop of the checksum runs on three rounds of fuel, and three are enough. The loops
-- over 256 buckets and over the port range run on the number of rounds left. nat_exit runs on any
-- fuel, since its loop has no end. The search of update_rtable runs on as many rounds as its queue has
-- slots, the loop over kept packets on their number, tcp_sock_write on the length of the buffer, and
-- reading the lines of a file on the number of its bytes; the walk over a list takes the number of
-- rounds as an argument.
--
-- Not modelled: 03-hub+switch, whose forwarding is a stub, the retransmission of 12-tcp_stack, which
-- does not compile, the main files but those of 06-router and 04_stp, logging, the memory
-- that is freed, and the library libipstack.a, whose functions are arguments or what a handler
-- returns. tcp_sndbuf_push and delete_send_buf are called but not defined in the repository, and are
-- arguments.
pub mod Common
pub mod Word
pub mod Text
pub mod Stp
pub mod Ring
pub mod Checksum
pub mod Nat
pub mod Packet
pub mod Arp
pub mod Forward
pub mod Tcp
pub mod Mospf
pub mod Transfer
pub mod Wait
pub mod Chain
pub mod Device
pub mod Rtable
pub mod Router

-- ===== src/Device/Tests.antt =====
-- A stack of two interfaces of 06-router/device_internal.c, and its loop with a handling that counts.
use computer_net_ucas.Common.{
  ℕ, ◌+◌, ◌≡◌, refl, true, none, some, List, [], ◌∷◌, ◌==◌, if◌then◌else◌, All, map, keep, length,
}
use computer_net_ucas.Packet.{Iface}
use computer_net_ucas.Device.{
  Device, Ustack, IfAddr, Kernel, quiet, outgoing, incoming, Poll, poll_ready, poll_none,
  poll_error, fd_to_iface, fd_of, is_available, minus_one, init_all_ifaces, ustack_run,
}
use computer_net_ucas.Device.Init.{device_name, name_of, init_all_ifaces-fd_to_iface}
use computer_net_ucas.Device.Loop.{frames_of, handle_all, ustack_run-handle_all}

-- "r1-eth0", "lo" and "r1-eth1".
abbrev eth0_name : List ℕ
eth0_name = 114 ∷ 49 ∷ 45 ∷ 101 ∷ 116 ∷ 104 ∷ 48 ∷ []

abbrev lo_name : List ℕ
lo_name = 108 ∷ 111 ∷ []

abbrev eth1_name : List ℕ
eth1_name = 114 ∷ 49 ∷ 45 ∷ 101 ∷ 116 ∷ 104 ∷ 49 ∷ []

abbrev addrs : List IfAddr
addrs =
    record { family = some 17; ifa_name = lo_name }
    ∷ record { family = some 17; ifa_name = eth0_name }
    ∷ record { family = some 2; ifa_name = eth0_name }
    ∷ record { family = some 17; ifa_name = eth1_name }
    ∷ []

-- The descriptor of an interface is the last letter of its name.
abbrev last_of : List ℕ → ℕ
last_of [] = 0
last_of (x ∷ []) = x
last_of (x ∷ y ∷ ys) = last_of (y ∷ ys)

abbrev kernel : List ℕ → Kernel
kernel name = record {
  socket = some (last_of name);
  get_index = some 1;
  binds = true;
  get_hwaddr = some 7;
  index = last_of name;
  mac = 100 + last_of name;
  get_addr = λ fd. if fd == minus_one then none else some 0x0100000a;
  get_netmask = λ fd. some 0x00ffffff;
}

abbrev eth0 : Device
eth0 = record {
  name = eth0_name;
  fd = 48;
  iface = record { index = 48; mac = 148; ip = 0x0a000001 };
  mask = 0xffffff00;
}

abbrev eth1 : Device
eth1 = record {
  name = eth1_name;
  fd = 49;
  iface = record { index = 49; mac = 149; ip = 0x0a000001 };
  mask = 0xffffff00;
}

abbrev stack : Ustack
stack = record { iface_list = eth0 ∷ eth1 ∷ []; fds = 48 ∷ 49 ∷ [] }

started : init_all_ifaces kernel addrs ≡ some stack
unfolding init_all_ifaces computer_net_ucas.Word.htonl computer_net_ucas.Word.htons
started = refl

init_all_ifaces-fd_to_iface_example :
    (map device_name stack.iface_list ≡ map name_of (keep is_available addrs))
    × (map fd_of stack.iface_list ≡ stack.fds)
    × All (λ d. fd_to_iface stack.iface_list d.fd ≡ some d.iface) stack.iface_list
init_all_ifaces-fd_to_iface_example =
    init_all_ifaces-fd_to_iface kernel addrs stack started ((refl, tt), (tt, tt))

-- What is sent is the index of the interface, and the state counts bytes.
abbrev count : ℕ → Iface → List ℕ → ℕ → List ℕ × ℕ
count env iface bytes n = ((env + iface.index) ∷ [], n + length bytes)

abbrev polls : List (Poll ℕ)
polls =
    poll_ready (outgoing ∷ incoming 1000 (1 ∷ 2 ∷ []) ∷ [])
    ∷ poll_none
    ∷ poll_ready (incoming 2000 (3 ∷ []) ∷ quiet ∷ [])
    ∷ poll_error
    ∷ poll_ready (incoming 3000 (4 ∷ []) ∷ quiet ∷ [])
    ∷ []

ustack_run-handle_all_example :
    ustack_run count stack.iface_list (map fd_of stack.iface_list) polls 0
    ≡ handle_all count (frames_of stack.iface_list polls) 0
ustack_run-handle_all_example =
    ustack_run-handle_all count stack.iface_list polls 0 ((refl, tt), (tt, tt))

counted : handle_all count (frames_of stack.iface_list polls) 0 ≡ (1049 ∷ 2048 ∷ [], 3)
counted = refl

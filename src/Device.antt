-- ===== src/Device.antt =====
-- 06-router/device_internal.c and ustack_run of 06-router/main.c: the interfaces that the stack finds
-- and opens, and the loop that receives frames on them. What the kernel answers is an argument: the
-- addresses of getifaddrs, the result of each socket, bind and ioctl, and of each poll and recvfrom.
-- exit is none, a name is the list of its bytes, and a file descriptor is the pattern of an int.
pub mod Init
pub mod Loop
mod Tests
use mathlib.Core.Option
use computer_net_ucas.Common.{
  ◌>>=◌, ℕ, zero, suc, ◌-◌, Bool, true, false, ◌&&◌, ◌||◌, Option, none, some, List, [], ◌∷◌, ◌++◌,
  ◌==◌, if◌then◌else◌, first, map, length,
}
use computer_net_ucas.Word.{u32_mod, htonl}
use computer_net_ucas.Text.{has_part}
use computer_net_ucas.Packet.{Iface}

-- `iface_info_t` with its descriptor, mask and name.
pub record Device : Type 0 where
  pub name : List ℕ
  pub fd : ℕ
  pub iface : Iface
  pub mask : ℕ

-- `ustack_t`: `fds` holds the descriptors polled, in the order of the interfaces.
pub record Ustack : Type 0 where
  pub iface_list : List Device
  pub fds : List ℕ

abbrev pub iface_of : Device → Iface
iface_of d = d.iface

unfoldable pub fd_to_iface : List Device → ℕ → Option Iface
fd_to_iface devices fd = Option.map iface_of (first (λ d. d.fd == fd) devices)

-- A `struct ifaddrs`: its family, none where ifa_addr is NULL, and its name.
pub record IfAddr : Type 0 where
  pub family : Option ℕ
  pub ifa_name : List ℕ

abbrev af_packet : ℕ
af_packet = 17

-- "-eth".
abbrev eth_suffix : List ℕ
eth_suffix = 45 ∷ 101 ∷ 116 ∷ 104 ∷ []

abbrev is_packet : Option ℕ → Bool
is_packet none = false
is_packet (some family) = family == af_packet

abbrev pub is_available : IfAddr → Bool
is_available a = is_packet a.family && has_part eth_suffix a.ifa_name

-- The names of the interfaces that `find_available_ifaces` appends to the list.
unfoldable pub available : List IfAddr → List (List ℕ)
available [] = []
available (a ∷ rest) =
    let found = available rest in if is_available a then a.ifa_name ∷ found else found

abbrev pub some_found : List (List ℕ) → Option (List (List ℕ))
some_found [] = none
some_found (name ∷ names) = some (name ∷ names)

unfoldable pub find_available_ifaces : List IfAddr → Option (List (List ℕ))
unfolding available
find_available_ifaces addrs = some_found (available addrs)

-- What the kernel answers for one interface. A descriptor that is not open has no address.
pub record Kernel : Type 0 where
  pub socket : Option ℕ
  pub get_index : Option ℕ
  pub binds : Bool
  pub get_hwaddr : Option ℕ
  pub index : ℕ
  pub mac : ℕ
  pub get_addr : ℕ → Option ℕ
  pub get_netmask : ℕ → Option ℕ

-- The `int` -1.
abbrev pub minus_one : ℕ
minus_one = u32_mod - 1

abbrev or_failed : {A : Type 0} → Option A → ℕ → ℕ
or_failed none fd = minus_one
or_failed (some a) fd = fd

abbrev open_socket : Kernel → Option ℕ → ℕ
open_socket k none = minus_one
open_socket k (some sd) =
    or_failed k.get_index (if k.binds then or_failed k.get_hwaddr sd else minus_one)

unfoldable pub open_device : Kernel → ℕ
open_device k = open_socket k k.socket

-- `read_iface_info`: the descriptor is the device's.
unfoldable pub read_iface_info : Kernel → List ℕ → Option Device
unfolding open_device
read_iface_info k name =
    let fd = open_device k in
    do
      ip ← k.get_addr fd
      mask ← k.get_netmask fd
      some (record {
        name = name;
        fd = fd;
        iface = record { index = k.index; mac = k.mac; ip = htonl ip };
        mask = htonl mask;
      })

-- The loop of `init_all_ifaces`.
unfoldable pub read_all : (List ℕ → Kernel) → List (List ℕ) → Option (List Device)
unfolding read_iface_info
read_all kernel [] = some []
read_all kernel (name ∷ names) = do
  d ← read_iface_info (kernel name) name
  ds ← read_all kernel names
  some (d ∷ ds)

abbrev pub fd_of : Device → ℕ
fd_of d = d.fd

unfoldable pub init_all_ifaces : (List ℕ → Kernel) → List IfAddr → Option Ustack
unfolding find_available_ifaces read_all
init_all_ifaces kernel addrs = do
  names ← find_available_ifaces addrs
  devices ← read_all kernel names
  some (record { iface_list = devices; fds = map fd_of devices })

-- What the loop of `ustack_run` meets at a descriptor: no POLLIN, a failed recvfrom, a frame that the
-- host itself sent, a malloc that fails, or a frame, with what its handling takes from outside.
pub data Arrival (E : Type 0) : Type 0 where
  quiet : Arrival E
  recv_error : Arrival E
  outgoing : Arrival E
  no_memory : Arrival E
  incoming : E → List ℕ → Arrival E

-- The result of a poll: an error, nothing, or what arrives at each descriptor.
pub data Poll (E : Type 0) : Type 0 where
  poll_error : Poll E
  poll_none : Poll E
  poll_ready : List (Arrival E) → Poll E

-- The loop over the descriptors and the loop around it, for the `handle_packet` of a program and for
-- its state. Each returns what the handling sends, in order.
module _ {E S O : Type 0} (handle_packet : E → Iface → List ℕ → S → List O × S)
    (devices : List Device) where
  -- Without an interface the frame is dropped.
  abbrev hand_over : E → List ℕ → Option Iface → S → List O × S
  hand_over env frame none s = ([], s)
  hand_over env frame (some iface) s = handle_packet env iface frame s

  abbrev receive : ℕ → Arrival E → S → List O × S
  receive fd quiet s = ([], s)
  receive fd recv_error s = ([], s)
  receive fd outgoing s = ([], s)
  receive fd no_memory s = ([], s)
  receive fd (incoming env frame) s = hand_over env frame (fd_to_iface devices fd) s

  unfoldable pub receive_all : List ℕ → List (Arrival E) → S → List O × S
  receive_all [] more s = ([], s)
  receive_all (fd ∷ fds) [] s = ([], s)
  receive_all (fd ∷ fds) (a ∷ more) s =
      let done = receive fd a s in
      let rest = receive_all fds more done.1 in (done.0 ++ rest.0, rest.1)

  -- `ustack_run` over the results of its polls; after the last of them it waits in poll.
  unfoldable pub ustack_run : List ℕ → List (Poll E) → S → List O × S
  unfolding receive_all
  ustack_run fds [] s = ([], s)
  ustack_run fds (poll_error ∷ ps) s = ([], s)
  ustack_run fds (poll_none ∷ ps) s = ustack_run fds ps s
  ustack_run fds (poll_ready more ∷ ps) s =
      let done = receive_all fds more s in
      let rest = ustack_run fds ps done.1 in (done.0 ++ rest.0, rest.1)

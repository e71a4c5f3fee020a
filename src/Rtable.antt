-- ===== src/Rtable.antt =====
-- 06-router/rtable_internal.c: the routes that the stack loads from the kernel, and remove_rt_entry
-- and clear_rtable of rtable.c. A netlink message is a record, since its layout and the macros that
-- walk it are the kernel's. The names of interfaces by their index are the kernel's too, and the name
-- that if_name holds before it is written is `junk`. exit is none.
pub mod Load
mod Tests
use mathlib.Core.Option
use computer_net_ucas.Common.{
  ◌>>=◌, ℕ, zero, suc, ◌+◌, ◌-◌, ◌*◌, ◌%◌, ◌^◌, Bool, true, false, not, ◌&&◌, Option, none, some,
  List, [], ◌∷◌, ◌++◌, ◌==◌, if◌then◌else◌, first,
}
use computer_net_ucas.Word.{u32_mod, htonl}
use computer_net_ucas.Packet.{Iface}
use computer_net_ucas.Forward.{RtEntry, new_rt_entry, add_rt_entry}
use computer_net_ucas.Device.{Device, iface_of}

-- A `struct rtattr`; addresses are in network byte order.
pub data RtAttr : Type 0 where
  rta_dst : ℕ → RtAttr
  rta_gateway : ℕ → RtAttr
  rta_prefsrc : ℕ → RtAttr
  rta_oif : ℕ → RtAttr
  rta_other : ℕ → RtAttr

-- A message with a `struct rtmsg`.
pub record RtMsg : Type 0 where
  pub rtm_table : ℕ
  pub rtm_dst_len : ℕ
  pub attrs : List RtAttr

-- The variables of the outer loop.
pub record Parsed : Type 0 where
  pub dest : ℕ
  pub mask : ℕ
  pub gw : ℕ
  pub if_name : List ℕ

abbrev pub same_name : List ℕ → List ℕ → Bool
same_name [] [] = true
same_name [] (b ∷ bs) = false
same_name (a ∷ more) [] = false
same_name (a ∷ more) (b ∷ bs) = (a == b) && same_name more bs

unfoldable pub if_name_to_iface : List Device → List ℕ → Option Iface
if_name_to_iface devices if_name =
    Option.map iface_of (first (λ d. same_name d.name if_name) devices)

-- `0xFFFFFFFF << (32 - len)`: the shift takes the low five bits of its count.
abbrev pub mask_of : ℕ → ℕ
mask_of len = (u32_mod - 1) * 2 ^ ((288 - len) % 32) % u32_mod

abbrev named : Parsed → Option (List ℕ) → Option Parsed
named v none = none
named v (some name) = some (record v { if_name = name })

-- One attribute of a route with prefix length `len`.
abbrev parse_attr : (ℕ → Option (List ℕ)) → ℕ → RtAttr → Parsed → Option Parsed
parse_attr if_index_to_name len (rta_dst a) v =
    some (record v { dest = htonl a; mask = mask_of len })
parse_attr if_index_to_name len (rta_gateway a) v = some (record v { gw = htonl a })
parse_attr if_index_to_name len (rta_prefsrc a) v = some v
parse_attr if_index_to_name len (rta_oif i) v = named v (if_index_to_name i)
parse_attr if_index_to_name len (rta_other a) v = some v

-- The inner loop of `parse_routing_info`.
unfoldable pub parse_attrs : (ℕ → Option (List ℕ)) → ℕ → List RtAttr → Parsed → Option Parsed
parse_attrs if_index_to_name len [] v = some v
parse_attrs if_index_to_name len (a ∷ rest) v = do
  w ← parse_attr if_index_to_name len a v
  parse_attrs if_index_to_name len rest w

-- The table and the count after a route has been read.
abbrev pub enter : Option Iface → Parsed → ℕ × List RtEntry → ℕ × List RtEntry
enter none v (n, table) = (n, table)
enter (some iface) v (n, table) =
    (n + 1, add_rt_entry (new_rt_entry v.dest v.mask v.gw iface) table)

abbrev pub main_table : ℕ
main_table = 254

-- The outer loop, with the count and the table so far.
unfoldable pub parse_from :
    (ℕ → Option (List ℕ))
    → List ℕ
    → List Device
    → List RtMsg
    → ℕ × List RtEntry
    → Option (ℕ × List RtEntry)
unfolding parse_attrs if_name_to_iface
parse_from if_index_to_name junk devices [] done = some done
parse_from if_index_to_name junk devices (m ∷ ms) done =
    if not (m.rtm_table == main_table) then parse_from if_index_to_name junk devices ms done else do
      v ←
          parse_attrs if_index_to_name m.rtm_dst_len m.attrs
            (record { dest = 0; mask = 0; gw = 0; if_name = junk })
      parse_from if_index_to_name junk devices ms
          (enter (if_name_to_iface devices v.if_name) v done)

unfoldable pub parse_routing_info :
    (ℕ → Option (List ℕ)) → List ℕ → List Device → List RtMsg → Option (ℕ × List RtEntry)
unfolding parse_from
parse_routing_info if_index_to_name junk devices ms =
    parse_from if_index_to_name junk devices ms (0, [])

-- The entry that stands at the given place.
abbrev pub remove_rt_entry : ℕ → List RtEntry → List RtEntry
remove_rt_entry i [] = []
remove_rt_entry zero (e ∷ es) = es
remove_rt_entry (suc i) (e ∷ es) = e ∷ remove_rt_entry i es

-- The loop removes the first entry until none is left.
unfoldable pub clear_rtable : List RtEntry → List RtEntry
clear_rtable [] = []
clear_rtable (e ∷ es) = clear_rtable es

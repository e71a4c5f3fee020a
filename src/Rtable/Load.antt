-- ===== src/Rtable/Load.antt =====
-- What is in the routing table that 06-router/rtable_internal.c loads.
use mathlib.Core.Path.{subst}
use mathlib.Core.List.{Memᴰ}
use computer_net_ucas.Common.{
  ℕ, ◌-◌, ◌*◌, ◌%◌, ◌^◌, ◌<◌, ◌≡◌, ◌⊎◌, inl, inr, refl, Bool, true, Option, none, some, List, [],
  ◌∷◌, ◌==◌, length, length-append, All, All-append, all_below, all_below_sound, some-eq, ==→eq,
  arith, Bool-cases, Option-cases,
}
use computer_net_ucas.Word.{u32_mod}
use computer_net_ucas.Packet.{Iface}
use computer_net_ucas.Forward.{RtEntry, longest_prefix_match}
use computer_net_ucas.Device.{Device}
use computer_net_ucas.Rtable.{
  RtAttr, rta_dst, rta_gateway, rta_prefsrc, rta_oif, rta_other, RtMsg, Parsed, named, same_name,
  if_name_to_iface, mask_of, parse_attr, parse_attrs, enter, main_table, parse_from,
  parse_routing_info, clear_rtable,
}

-- A mask that starts with ones and ends with zeros.
abbrev pub IsPrefix : ℕ → Type 0
IsPrefix mask = (mask ≡ 0) ⊎ ((k : ℕ) × (k < 32) × (mask ≡ u32_mod - 2 ^ k))

shifted : ℕ → Bool
shifted k = (u32_mod - 1) * 2 ^ k % u32_mod == u32_mod - 2 ^ k

all_shifted : all_below 32 shifted ≡ true
unfolding shifted
all_shifted = refl

mask_of-IsPrefix : (len : ℕ) → IsPrefix (mask_of len)
unfolding shifted
mask_of-IsPrefix len =
    let k : ℕ = (288 - len) % 32 in
    inr (
      k,
      omega arith,
      ==→eq (mask_of len) (u32_mod - 2 ^ k)
          (all_below_sound 32 shifted k all_shifted (omega arith)),
    )

-- A route whose mask is that of a prefix and whose interface is that of a device.
abbrev pub IsRoute : List Device → RtEntry → Type 0
IsRoute devices e = IsPrefix e.mask × ((d : Device) × Memᴰ d devices × (d.iface ≡ e.iface))

parse_attr-IsPrefix :
    (names : ℕ → Option (List ℕ)) (len : ℕ) (a : RtAttr) (v w : Parsed)
    → IsPrefix v.mask
    → parse_attr names len a v ≡ some w
    → IsPrefix w.mask
parse_attr-IsPrefix names len (rta_dst x) v w h e =
    subst (λ u. IsPrefix u.mask) (some-eq _ w e) (mask_of-IsPrefix len)
parse_attr-IsPrefix names len (rta_gateway x) v w h e =
    subst (λ u. IsPrefix u.mask) (some-eq _ w e) h
parse_attr-IsPrefix names len (rta_prefsrc x) v w h e =
    subst (λ u. IsPrefix u.mask) (some-eq v w e) h
parse_attr-IsPrefix names len (rta_other x) v w h e = subst (λ u. IsPrefix u.mask) (some-eq v w e) h
parse_attr-IsPrefix names len (rta_oif i) v w h e = split (names i) e
  where
    split : (o : Option (List ℕ)) → named v o ≡ some w → IsPrefix w.mask
    split none e = absurd (cc)
    split (some name) e = subst (λ u. IsPrefix u.mask) (some-eq _ w e) h

parse_attrs-IsPrefix :
    (names : ℕ → Option (List ℕ)) (len : ℕ) (more : List RtAttr) (v w : Parsed)
    → IsPrefix v.mask
    → parse_attrs names len more v ≡ some w
    → IsPrefix w.mask
unfolding parse_attrs
parse_attrs-IsPrefix names len [] v w h e = subst (λ u. IsPrefix u.mask) (some-eq v w e) h
parse_attrs-IsPrefix names len (a ∷ more) v w h e = elim (Option-cases (parse_attr names len a v)) [
  | inl failed ↦ absurd (cc (rw failed at e))
  | inr (u, done) ↦
      parse_attrs-IsPrefix names len more u w (parse_attr-IsPrefix names len a v u h done)
        (rw done at e)
]

if_name_to_iface-Memᴰ :
    (devices : List Device) (name : List ℕ) (iface : Iface)
    → if_name_to_iface devices name ≡ some iface
    → (d : Device) × Memᴰ d devices × (d.iface ≡ iface)
unfolding if_name_to_iface
if_name_to_iface-Memᴰ [] name iface e = absurd (cc)
if_name_to_iface-Memᴰ (d ∷ ds) name iface e = elim (Bool-cases (same_name d.name name)) [
  | inl hit ↦ (d, Memᴰ.head refl, some-eq d.iface iface (rw hit at e))
  | inr miss ↦
      let (x, inside, same) = if_name_to_iface-Memᴰ ds name iface (rw miss at e) in
      (x, Memᴰ.tail inside, same)
]

-- The count is that of the routes, and each is a route of a device.
abbrev pub IsLoaded : List Device → ℕ × List RtEntry → Type 0
IsLoaded devices done = (done.0 ≡ length done.1) × All (IsRoute devices) done.1

enter-IsLoaded :
    (devices : List Device) (found : Option Iface) (v : Parsed) (done : ℕ × List RtEntry)
    → ((iface : Iface) → found ≡ some iface → (d : Device) × Memᴰ d devices × (d.iface ≡ iface))
    → IsPrefix v.mask
    → IsLoaded devices done
    → IsLoaded devices (enter found v done)
enter-IsLoaded devices none v (n, table) known mask h = h
enter-IsLoaded devices (some iface) v (n, table) known mask h = (
  omega (arith, h.0, length-append table _),
  All-append (IsRoute devices) table _ h.1 ((mask, known iface refl), tt),
)

parse_from-IsLoaded :
    (names : ℕ → Option (List ℕ)) (junk : List ℕ) (devices : List Device) (ms : List RtMsg)
    (done out : ℕ × List RtEntry)
    → IsLoaded devices done
    → parse_from names junk devices ms done ≡ some out
    → IsLoaded devices out
unfolding parse_from
parse_from-IsLoaded names junk devices [] done out h e =
    subst (IsLoaded devices) (some-eq done out e) h
parse_from-IsLoaded names junk devices (m ∷ ms) done out h e =
    elim (Bool-cases (m.rtm_table == main_table)) [
      | inr other ↦ parse_from-IsLoaded names junk devices ms done out h (rw other at e)
      | inl main ↦
          let e' = rw main at e in
          let start : Parsed = record { dest = 0; mask = 0; gw = 0; if_name = junk } in
          elim (Option-cases (parse_attrs names m.rtm_dst_len m.attrs start)) [
            | inl failed ↦ absurd (cc (rw failed at e'))
            | inr (v, parsed) ↦
                parse_from-IsLoaded names junk devices ms
                  (enter (if_name_to_iface devices v.if_name) v done) out
                  (enter-IsLoaded devices (if_name_to_iface devices v.if_name) v done
                    (if_name_to_iface-Memᴰ devices v.if_name)
                    (parse_attrs-IsPrefix names m.rtm_dst_len m.attrs start v (inl refl) parsed) h)
                  (rw parsed at e')
          ]
    ]

-- Of the messages that the kernel sends, whatever they hold, the number of routes that is reported is
-- that of the entries of the table; each entry has the mask of a prefix, ones and then zeros, and the
-- interface of a device of the stack.
pub parse_routing_info-IsRoute :
    (if_index_to_name : ℕ → Option (List ℕ)) (junk : List ℕ) (devices : List Device)
    (ms : List RtMsg) (n : ℕ) (table : List RtEntry)
    → parse_routing_info if_index_to_name junk devices ms ≡ some (n, table)
    → (n ≡ length table) × All (IsRoute devices) table
unfolding parse_routing_info
parse_routing_info-IsRoute names junk devices ms n table e =
    parse_from-IsLoaded names junk devices ms (0, []) (n, table) (refl, tt) e

-- After clear_rtable no address has a route.
pub clear_rtable-longest_prefix_match :
    (table : List RtEntry) (dst : ℕ) → longest_prefix_match (clear_rtable table) dst ≡ none
unfolding clear_rtable longest_prefix_match
clear_rtable-longest_prefix_match [] dst = refl
clear_rtable-longest_prefix_match (e ∷ es) dst = clear_rtable-longest_prefix_match es dst

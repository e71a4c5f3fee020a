-- ===== src/Mospf/Neighbours.antt =====
-- 07-mospf/mospf_daemon.c: initialisation, the neighbours of each interface, the hello messages and
-- the updates that the router sends.
use Prim.Native.Nat.{bit_and}
use computer_net_ucas.Common.{
  ℕ, ◌+◌, ◌-◌, ◌*◌, ◌%◌, Option, none, some, List, [], ◌∷◌, ◌++◌, leb, ◌==◌, if◌then◌else◌, length,
  set, get_elem?, map,
}
use computer_net_ucas.Word.{u8_mod, u16_mod, htonl}
use computer_net_ucas.Packet.{Iface}
use computer_net_ucas.Mospf.{
  Nbr, MospfIface, Lsa, Daemon, Message, Send, mospf_type_hello, mospf_type_lsu,
  mospf_default_helloint, mospf_init_hdr, mospf_init_hello, mospf_init_lsu, lsa_bytes, sign,
  hello_mask,
}

-- `mospf_init`, for interfaces given with their mask; none where there is no interface.
unfoldable pub mospf_init : List (Iface × ℕ) → Option Daemon
mospf_init [] = none
mospf_init ((i, m) ∷ is) = some (record {
  area_id = 0;
  router_id = i.ip;
  sequence_num = 0;
  ifaces =
      map (λ (x : Iface × ℕ). record { iface = x.0; mask = x.1; num_nbr = 0; nbr_list = [] })
        ((i, m) ∷ is);
  mospf_db = [];
})

-- One round of `sending_mospf_hello_thread`: a message for each interface, to 224.0.0.5.
unfoldable pub send_hellos : Daemon → List MospfIface → List Send
unfolding sign
send_hellos d [] = []
send_hellos d (i ∷ is) =
    record {
      saddr = i.iface.ip;
      daddr = 0xe0000005;
      message =
          sign (mospf_init_hdr mospf_type_hello 24 d.router_id d.area_id (mospf_init_hello i.mask));
    }
    ∷ send_hellos d is

-- `broadcast_lsu`.
unfoldable pub broadcast_to : MospfIface → Message → ℕ → List Nbr → List Send
broadcast_to i m ext_rid [] = []
broadcast_to i m ext_rid (n ∷ ns) =
    let rest = broadcast_to i m ext_rid ns in
    if n.nbr_id == ext_rid
    then rest
    else record { saddr = i.iface.ip; daddr = n.nbr_ip; message = m } ∷ rest

unfoldable pub broadcast_lsu : List MospfIface → Message → ℕ → List Send
unfolding broadcast_to
broadcast_lsu [] m ext_rid = []
broadcast_lsu (i ∷ is) m ext_rid = broadcast_to i m ext_rid i.nbr_list ++ broadcast_lsu is m ext_rid

-- The size of the array in `send_mospf_lsu`.
abbrev pub array_size : List MospfIface → ℕ
array_size [] = 0
array_size (i ∷ is) = (if i.num_nbr == 0 then 1 else i.num_nbr) + array_size is

abbrev pub nbr_lsa : Nbr → Lsa
nbr_lsa n = record {
  network = htonl (bit_and n.nbr_ip n.nbr_mask);
  mask = htonl n.nbr_mask;
  rid = htonl n.nbr_id;
}

-- What the second loop writes into the array, from slot 0 on.
unfoldable pub array_of : List MospfIface → List Lsa
array_of [] = []
array_of (i ∷ is) =
    (if i.num_nbr == 0
      then record { network = htonl (bit_and i.iface.ip i.mask); mask = htonl i.mask; rid = 0 } ∷ []
      else map nbr_lsa i.nbr_list)
    ++ array_of is

-- The update that the router sends about itself.
abbrev pub lsu_message : Daemon → List Lsa → Message
lsu_message d array = sign (
    mospf_init_hdr mospf_type_lsu (24 + 12 * length array) d.router_id d.area_id
      (mospf_init_lsu d.sequence_num (length array) (lsa_bytes array)))

-- `send_mospf_lsu`; none where the loop does not write exactly the array.
unfoldable pub send_mospf_lsu : Daemon → Option (List Send × Daemon)
unfolding array_of broadcast_lsu
send_mospf_lsu d =
    if length (array_of d.ifaces) == array_size d.ifaces
    then some (
      broadcast_lsu d.ifaces (lsu_message d (array_of d.ifaces)) 0,
      record d { sequence_num = (d.sequence_num + 1) % u16_mod },
    )
    else none

-- The walk of `handle_mospf_hello` to the sender among the neighbours; none where it is new.
unfoldable pub refresh : ℕ → List Nbr → Option (List Nbr)
refresh id [] = none
refresh id (n ∷ ns) =
    let rest = refresh id ns in
    if n.nbr_id == id
    then some (record n { alive = 0 } ∷ ns)
    else elim rest [ none ↦ none | some ms ↦ some (n ∷ ms) ]

abbrev pub add_nbr : Nbr → MospfIface → MospfIface
add_nbr n i = record i { nbr_list = i.nbr_list ++ (n ∷ []); num_nbr = i.num_nbr + 1 }

-- `handle_mospf_hello` on interface `at` for a sender with id and address. The mask is read from the
-- message for a new neighbour only; none is a read past its end.
unfoldable pub hello_from : Daemon → ℕ → MospfIface → ℕ → ℕ → Option ℕ → Option (List Send × Daemon)
unfolding refresh send_mospf_lsu
hello_from d at i id saddr hello = elim (refresh id i.nbr_list) [
  | some ns ↦ some ([], record d { ifaces = set d.ifaces at (record i { nbr_list = ns }) })
  | none ↦ elim hello [
    | none ↦ none
    | some mask ↦ send_mospf_lsu (record d {
      ifaces =
          set d.ifaces at
            (add_nbr (record { nbr_id = id; nbr_ip = saddr; nbr_mask = htonl mask; alive = 0 }) i);
    })
  ]
]

unfoldable pub handle_mospf_hello : Daemon → ℕ → ℕ → Message → Option (List Send × Daemon)
unfolding hello_from hello_mask
handle_mospf_hello d at saddr m = elim (get_elem? d.ifaces at) [
  | none ↦ none
  | some i ↦ hello_from d at i (htonl m.rid) (htonl saddr) (hello_mask m.body)
]

-- The neighbours that a round of `checking_nbr_thread` leaves, and how many it drops.
unfoldable pub age_nbrs : List Nbr → List Nbr × ℕ
age_nbrs [] = ([], 0)
age_nbrs (n ∷ ns) =
    let rest = age_nbrs ns in
    if leb (3 * mospf_default_helloint) n.alive
    then (rest.0, rest.1 + 1)
    else (record n { alive = (n.alive + 1) % u8_mod } ∷ rest.0, rest.1)

abbrev pub age_iface : MospfIface → MospfIface
age_iface i = record i {
  nbr_list = (age_nbrs i.nbr_list).0;
  num_nbr = i.num_nbr - (age_nbrs i.nbr_list).1;
}

unfoldable pub dropped : List MospfIface → ℕ
unfolding age_nbrs
dropped [] = 0
dropped (i ∷ is) = (age_nbrs i.nbr_list).1 + dropped is

-- One round of `checking_nbr_thread`.
unfoldable pub checking_nbr : Daemon → Option (List Send × Daemon)
unfolding age_nbrs dropped send_mospf_lsu
checking_nbr d =
    let aged = record d { ifaces = map age_iface d.ifaces } in
    if dropped d.ifaces == 0 then some ([], aged) else send_mospf_lsu aged

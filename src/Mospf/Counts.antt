-- ===== src/Mospf/Counts.antt =====
-- The neighbours of the routing daemon in every state that it reaches: the counter of each interface
-- is the length of its list, and a list has one entry for a router.
use computer_net_ucas.Common.{
  All, All-get, All-set, ℕ, ◌+◌, ◌≤◌, ◌≡◌, ◌≢◌, refl, inl, inr, Option, none, some, List, [], ◌∷◌,
  ◌++◌, ◌==◌, if◌then◌else◌, length, length-append, get_elem?, set, map, Bool-cases, Option-cases,
  arith,
}
use computer_net_ucas.Word.{htonl}
use computer_net_ucas.Mospf.{Nbr, MospfIface, Daemon, Message, Send, hello_mask}
use computer_net_ucas.Mospf.Neighbours.{
  array_size, nbr_lsa, array_of, send_mospf_lsu, refresh, add_nbr, hello_from, handle_mospf_hello,
  age_nbrs, age_iface, checking_nbr,
}

-- How many neighbours have an identification.
abbrev pub hits : ℕ → List Nbr → ℕ
hits id [] = 0
hits id (n ∷ ns) = (if n.nbr_id == id then 1 else 0) + hits id ns

abbrev pub IsCounted : MospfIface → Type 0
IsCounted i = (i.num_nbr ≡ length i.nbr_list) × ((id : ℕ) → hits id i.nbr_list ≤ 1)

pub length-map {ℓ κ} :
    {A : Type ℓ} {B : Type κ} (f : A → B) (xs : List A) → length (map f xs) ≡ length xs
length-map f [] = refl
length-map f (x ∷ xs) = omega (arith, length-map f xs)

pub array_of-array_size :
    (is : List MospfIface) → All IsCounted is → length (array_of is) ≡ array_size is
unfolding array_of
array_of-array_size [] h = refl
array_of-array_size (i ∷ is) h = elim (Bool-cases (i.num_nbr == 0)) [
  | inl alone ↦ rw alone (omega (arith, array_of-array_size is h.1))
  | inr linked ↦ rw linked (
      omega (
        arith,
        length-append (map nbr_lsa i.nbr_list) (array_of is),
        length-map nbr_lsa i.nbr_list,
        h.0.0,
        array_of-array_size is h.1,
      ))
]

refresh-length :
    (id : ℕ) (ns : List Nbr) {ms : List Nbr} → refresh id ns ≡ some ms → length ms ≡ length ns
unfolding refresh
refresh-length id [] e = absurd (cc)
refresh-length id (n ∷ ns) e = elim (Option-cases (refresh id ns)) [
  | inl gone ↦ ground arith
  | inr (ms', found) ↦ ground (arith, refresh-length id ns found)
]

refresh-hits :
    (id q : ℕ) (ns : List Nbr) {ms : List Nbr} → refresh id ns ≡ some ms → hits q ms ≡ hits q ns
unfolding refresh
refresh-hits id q [] e = absurd (cc)
refresh-hits id q (n ∷ ns) e = elim (Option-cases (refresh id ns)) [
  | inl gone ↦ ground arith
  | inr (ms', found) ↦ ground (arith, refresh-hits id q ns found)
]

refresh-none : (id : ℕ) (ns : List Nbr) → refresh id ns ≡ none → hits id ns ≡ 0
unfolding refresh
refresh-none id [] e = refl
refresh-none id (n ∷ ns) e = ground (arith, refresh-none id ns)

hits-append : (q : ℕ) (ns ms : List Nbr) → hits q (ns ++ ms) ≡ hits q ns + hits q ms
hits-append q [] ms = omega arith
hits-append q (n ∷ ns) ms = omega (arith, hits-append q ns ms)

age_nbrs-length : (ns : List Nbr) → length (age_nbrs ns).0 + (age_nbrs ns).1 ≡ length ns
unfolding age_nbrs
age_nbrs-length [] = refl
age_nbrs-length (n ∷ ns) = ground (arith, age_nbrs-length ns)

age_nbrs-hits : (q : ℕ) (ns : List Nbr) → hits q (age_nbrs ns).0 ≤ hits q ns
unfolding age_nbrs
age_nbrs-hits q [] = omega arith
age_nbrs-hits q (n ∷ ns) = ground (arith, age_nbrs-hits q ns)

add_nbr-IsCounted :
    (n : Nbr) (i : MospfIface)
    → IsCounted i
    → refresh n.nbr_id i.nbr_list ≡ none
    → IsCounted (add_nbr n i)
add_nbr-IsCounted n i h new = (
  omega (arith, length-append i.nbr_list (n ∷ []), h.0),
  λ q.
      ground
        (arith, hits-append q i.nbr_list (n ∷ []), refresh-none n.nbr_id i.nbr_list new, h.1 q),
)

age_iface-IsCounted : (i : MospfIface) → IsCounted i → IsCounted (age_iface i)
age_iface-IsCounted i h = (
  omega (arith, age_nbrs-length i.nbr_list, h.0),
  λ q. omega (arith, age_nbrs-hits q i.nbr_list, h.1 q),
)

pub map-IsCounted : (is : List MospfIface) → All IsCounted is → All IsCounted (map age_iface is)
map-IsCounted [] h = h
map-IsCounted (i ∷ is) h = (age_iface-IsCounted i h.0, map-IsCounted is h.1)

pub send_mospf_lsu-ifaces :
    (d : Daemon) (r : List Send × Daemon) → send_mospf_lsu d ≡ some r → r.1.ifaces ≡ d.ifaces
unfolding send_mospf_lsu
send_mospf_lsu-ifaces d r e = ground arith

-- On counted interfaces the array of an update is written exactly.
pub send_mospf_lsu-total : (d : Daemon) → All IsCounted d.ifaces → send_mospf_lsu d ≢ none
unfolding send_mospf_lsu
send_mospf_lsu-total d h e = absurd (ground (arith, array_of-array_size d.ifaces h))

pub checking_nbr-ifaces :
    (d : Daemon) (r : List Send × Daemon)
    → checking_nbr d ≡ some r
    → r.1.ifaces ≡ map age_iface d.ifaces
unfolding checking_nbr
checking_nbr-ifaces d r e =
    ground (arith, send_mospf_lsu-ifaces (record d { ifaces = map age_iface d.ifaces }) r)

refreshed-IsCounted :
    (i : MospfIface) (id : ℕ) (ns : List Nbr)
    → IsCounted i
    → refresh id i.nbr_list ≡ some ns
    → IsCounted (record i { nbr_list = ns })
refreshed-IsCounted i id ns h old = (
  omega (arith, h.0, refresh-length id i.nbr_list old),
  λ q. omega (arith, h.1 q, refresh-hits id q i.nbr_list old),
)

-- The interface that a hello leaves in the place of its own.
hello_from-ifaces :
    (d : Daemon) (at : ℕ) (i : MospfIface) (id saddr : ℕ) (hello : Option ℕ)
    (r : List Send × Daemon)
    → IsCounted i
    → hello_from d at i id saddr hello ≡ some r
    → (i' : MospfIface) × (r.1.ifaces ≡ set d.ifaces at i') × IsCounted i'
unfolding hello_from
hello_from-ifaces d at i id saddr none r h e = elim (Option-cases (refresh id i.nbr_list)) [
  | inl new ↦ absurd (ground arith)
  | inr (ns, old) ↦ (record i { nbr_list = ns }, ground arith, refreshed-IsCounted i id ns h old)
]
hello_from-ifaces d at i id saddr (some mask) r h e = elim (Option-cases (refresh id i.nbr_list)) [
  | inl new ↦
      let n : Nbr = record { nbr_id = id; nbr_ip = saddr; nbr_mask = htonl mask; alive = 0 } in
      (
        add_nbr n i,
        send_mospf_lsu-ifaces (record d { ifaces = set d.ifaces at (add_nbr n i) }) r
            (rw (hello_from, new) at e),
        add_nbr-IsCounted n i h new,
      )
  | inr (ns, old) ↦ (record i { nbr_list = ns }, ground arith, refreshed-IsCounted i id ns h old)
]

pub handle_mospf_hello-IsCounted :
    (d : Daemon) (at saddr : ℕ) (m : Message) (r : List Send × Daemon)
    → All IsCounted d.ifaces
    → handle_mospf_hello d at saddr m ≡ some r
    → All IsCounted r.1.ifaces
unfolding handle_mospf_hello
handle_mospf_hello-IsCounted d at saddr m r h e = elim (Option-cases (get_elem? d.ifaces at)) [
  | inl away ↦ absurd (ground arith)
  | inr (i, there) ↦
      let counted = All-get IsCounted d.ifaces at i h there in
      let (i', set_there, counted') =
        hello_from-ifaces d at i (htonl m.rid) (htonl saddr) (hello_mask m.body) r counted
          (ground arith) in
      rw set_there (All-set IsCounted d.ifaces at i' h counted')
]

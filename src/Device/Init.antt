-- ===== src/Device/Init.antt =====
-- What init_all_ifaces of 06-router/device_internal.c leaves behind.
use computer_net_ucas.Common.{
  ℕ, zero, suc, ◌≡◌, refl, sym, ap, ap₂, ◌∙◌, inl, inr, false, none, some, List, [], ◌∷◌, ◌==◌, All,
  map, get_elem?, keep, some-eq, arith, Bool-cases, Option-cases,
}
use mathlib.Core.Path.{subst}
use computer_net_ucas.Device.{
  Device, Ustack, IfAddr, Kernel, fd_to_iface, fd_of, is_available, available,
  find_available_ifaces, minus_one, some_found, open_device, read_iface_info, read_all,
  init_all_ifaces,
}

-- No descriptor stands twice in the list.
abbrev pub IsDistinct : List ℕ → Type 0
IsDistinct [] = Unit
IsDistinct (x ∷ xs) = All (λ y. (x == y) ≡ false) xs × IsDistinct xs

-- The descriptor of a device leads back to its interface.
abbrev pub IsFound : List Device → Device → Type 0
IsFound devices d = fd_to_iface devices d.fd ≡ some d.iface

IsFound-here : (d : Device) (ds : List Device) → IsFound (d ∷ ds) d
unfolding fd_to_iface
IsFound-here d ds = ground arith

IsFound-later :
    (d e : Device) (ds : List Device) → (d.fd == e.fd) ≡ false → IsFound ds e → IsFound (d ∷ ds) e
unfolding fd_to_iface
IsFound-later d e ds other h = rw other h

All-IsFound_later :
    (d : Device) (ds es : List Device)
    → All (λ y. (d.fd == y) ≡ false) (map fd_of es)
    → All (IsFound ds) es
    → All (IsFound (d ∷ ds)) es
All-IsFound_later d ds [] o h = tt
All-IsFound_later d ds (e ∷ es) o h =
    (IsFound-later d e ds o.0 h.0, All-IsFound_later d ds es o.1 h.1)

-- With distinct descriptors, each leads back to its own interface.
pub map-IsDistinct : (ds : List Device) → IsDistinct (map fd_of ds) → All (IsFound ds) ds
map-IsDistinct [] h = tt
map-IsDistinct (d ∷ ds) h =
    (IsFound-here d ds, All-IsFound_later d ds ds h.0 (map-IsDistinct ds h.1))

abbrev pub name_of : IfAddr → List ℕ
name_of a = a.ifa_name

abbrev pub device_name : Device → List ℕ
device_name d = d.name

available-keep : (addrs : List IfAddr) → available addrs ≡ map name_of (keep is_available addrs)
unfolding available
available-keep [] = refl
available-keep (a ∷ addrs) = elim (Bool-cases (is_available a)) [
  | inl found ↦ rw found (ap (λ t. a.ifa_name ∷ t) (available-keep addrs))
  | inr other ↦ rw other (available-keep addrs)
]

read_iface_info-name :
    (k : Kernel) (name : List ℕ) (d : Device) → read_iface_info k name ≡ some d → d.name ≡ name
unfolding read_iface_info
read_iface_info-name k name d h = ground arith

-- The devices that are read are one for the first name and those for the others.
read_all_cases :
    (kernel : List ℕ → Kernel) (name : List ℕ) (names : List (List ℕ)) (ds : List Device)
    → read_all kernel (name ∷ names) ≡ some ds
    → (d : Device) × (rest : List Device) × (read_iface_info (kernel name) name ≡ some d)
      × (read_all kernel names ≡ some rest)
      × (d ∷ rest ≡ ds)
unfolding read_all
read_all_cases kernel name names ds h = elim (Option-cases (read_iface_info (kernel name) name)) [
  | inl failed ↦ absurd (cc (rw failed at h))
  | inr (d, opened) ↦
      let h' = rw opened at h in
      elim (Option-cases (read_all kernel names)) [
        | inl failed ↦ absurd (cc (rw failed at h'))
        | inr (rest, others) ↦ (d, rest, opened, others, some-eq (d ∷ rest) ds (rw others at h'))
      ]
]

read_all-name :
    (kernel : List ℕ → Kernel) (names : List (List ℕ)) (ds : List Device)
    → read_all kernel names ≡ some ds
    → map device_name ds ≡ names
unfolding read_all
read_all-name kernel [] ds h = ap (map device_name) (sym (some-eq [] ds h))
read_all-name kernel (name ∷ names) ds h =
    let (d, rest, opened, others, whole) = read_all_cases kernel name names ds h in
    ap (map device_name) (sym whole)
    ∙ ap₂ (λ x xs. x ∷ xs) (read_iface_info-name (kernel name) name d opened)
        (read_all-name kernel names rest others)

find_available_ifaces-available :
    (addrs : List IfAddr) (names : List (List ℕ))
    → find_available_ifaces addrs ≡ some names
    → names ≡ available addrs
unfolding find_available_ifaces
find_available_ifaces-available addrs names h = split (available addrs) h
  where
    split : (xs : List (List ℕ)) → some_found xs ≡ some names → names ≡ xs
    split [] h = absurd (cc)
    split (x ∷ xs) h = sym (some-eq (x ∷ xs) names h)

-- What is in the stack after a start that did not exit.
init_all_ifaces_cases :
    (kernel : List ℕ → Kernel) (addrs : List IfAddr) (u : Ustack)
    → init_all_ifaces kernel addrs ≡ some u
    → (read_all kernel (available addrs) ≡ some u.iface_list) × (map fd_of u.iface_list ≡ u.fds)
unfolding init_all_ifaces
init_all_ifaces_cases kernel addrs u h = elim (Option-cases (find_available_ifaces addrs)) [
  | inl nothing ↦ absurd (cc (rw nothing at h))
  | inr (names, found) ↦
      let h' = rw found at h in
      elim (Option-cases (read_all kernel names)) [
        | inl failed ↦ absurd (cc (rw failed at h'))
        | inr (ds, opened) ↦
            let same : record { iface_list = ds; fds = map fd_of ds } ≡ u =
              some-eq (record { iface_list = ds; fds = map fd_of ds }) u (rw opened at h') in
            (
              ap (read_all kernel) (sym (find_available_ifaces-available addrs names found))
                  ∙ opened
                  ∙ ap (λ v. some v.iface_list) same,
              ap (λ v. map fd_of v.iface_list) (sym same) ∙ ap (λ v. v.fds) same,
            )
      ]
]

-- A start that does not exit has opened one device for each interface whose family is AF_PACKET and
-- whose name has -eth in it, in their order; the descriptors polled are theirs, and when no two are
-- the same, each leads back to the interface that it was opened for.
pub init_all_ifaces-fd_to_iface :
    (kernel : List ℕ → Kernel) (addrs : List IfAddr) (u : Ustack)
    → init_all_ifaces kernel addrs ≡ some u
    → IsDistinct u.fds
    → (map device_name u.iface_list ≡ map name_of (keep is_available addrs))
      × (map fd_of u.iface_list ≡ u.fds)
      × All (λ d. fd_to_iface u.iface_list d.fd ≡ some d.iface) u.iface_list
init_all_ifaces-fd_to_iface kernel addrs u h distinct =
    let (opened, polled) = init_all_ifaces_cases kernel addrs u h in
    (
      read_all-name kernel (available addrs) u.iface_list opened ∙ available-keep addrs,
      polled,
      map-IsDistinct u.iface_list (rw (← polled) at distinct),
    )

read_all-failed :
    (kernel : List ℕ → Kernel) (names : List (List ℕ)) (i : ℕ) (name : List ℕ)
    → get_elem? names i ≡ some name
    → read_iface_info (kernel name) name ≡ none
    → read_all kernel names ≡ none
unfolding read_all
read_all-failed kernel [] i name at_i failed = absurd (cc)
read_all-failed kernel (x ∷ names) zero name at_i failed =
    let same = some-eq x name at_i in
    rw (subst (λ y. read_iface_info (kernel y) y ≡ none) (sym same) failed) refl
read_all-failed kernel (x ∷ names) (suc i) name at_i failed =
    elim (Option-cases (read_iface_info (kernel x) x)) [
      | inl lost ↦ rw lost refl
      | inr (d, opened) ↦ rw (opened, read_all-failed kernel names i name at_i failed) refl
    ]

unopened-read_iface_info :
    (k : Kernel) (name : List ℕ)
    → open_device k ≡ minus_one
    → k.get_addr minus_one ≡ none
    → read_iface_info k name ≡ none
unfolding read_iface_info
unopened-read_iface_info k name closed gone = rw (closed, gone) refl

-- One interface that cannot be opened ends the program: where open_device gives -1 for an available
-- one, and a descriptor of -1 has no address, the start exits.
pub init_all_ifaces-open_device :
    (kernel : List ℕ → Kernel) (addrs : List IfAddr) (i : ℕ) (name : List ℕ)
    → get_elem? (available addrs) i ≡ some name
    → open_device (kernel name) ≡ minus_one
    → (kernel name).get_addr minus_one ≡ none
    → init_all_ifaces kernel addrs ≡ none
unfolding init_all_ifaces
init_all_ifaces-open_device kernel addrs i name at_i closed gone =
    elim (Option-cases (find_available_ifaces addrs)) [
      | inl nothing ↦ rw nothing refl
      | inr (names, found) ↦
          rw
            (
              found,
              find_available_ifaces-available addrs names found,
              read_all-failed kernel (available addrs) i name at_i
                  (unopened-read_iface_info (kernel name) name closed gone),
            )
            refl
    ]

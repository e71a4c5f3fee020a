-- ===== src/Nat/Ports.antt =====
-- The port pool of 08-nat/nat.c: allocation, and who owns a port.
use computer_net_ucas.Common.{
  ℕ, zero, suc, ◌+◌, ◌≤◌, ◌<◌, ◌≡◌, ◌≢◌, refl, ap, ◌⊎◌, inl, inr, Bool, true, false, List, [], ◌∷◌,
  ◌++◌, ◌==◌, if◌then◌else◌, first, ==→eq, Bool-cases, Option-cases, All, All-first, arith,
}
use computer_net_ucas.Word.{htons, htonl}
use computer_net_ucas.Nat.{
  NatConnection, NatMapping, DnatRule, NatTable, Packet, nat_port_min, nat_port_max, hash8_remote,
}
use computer_net_ucas.Nat.Table.{
  update, find_port, alloc_port, conn_in, conn_out, touch, hit_in, hit_out, hit_rule, rule_mapping,
  with_conn, add_mapping, touch_mapping, translate_in, flow_mapping, translate_out,
}

find_port_lem :
    (assigned : ℕ → Bool) (n i j : ℕ)
    → 0 < i
    → i ≤ j
    → j < i + n
    → assigned j ≡ false
    → (i ≤ find_port assigned n i)
      × (find_port assigned n i ≤ j)
      × (assigned (find_port assigned n i) ≡ false)
unfolding find_port
find_port_lem assigned zero i j pos lo hi free = absurd (omega arith)
find_port_lem assigned (suc n) i j pos lo hi free = elim (Bool-cases (assigned i)) [
  | inr open_port ↦ rw open_port (omega arith, lo, open_port)
  | inl taken ↦
      let later : i ≢ j = λ e. cc in
      let (a, b, c) =
        find_port_lem assigned n (i + 1) j (omega arith) (omega arith) (omega arith) free in
      rw taken (omega arith, b, c)
]

-- If a port of the pool is free, `alloc_port` returns the lowest free one and marks it, and no other.
pub alloc_port_lem :
    (t : NatTable) (j : ℕ)
    → nat_port_min ≤ j
    → j < nat_port_max
    → t.assigned_ports j ≡ false
    → let (port, t') = alloc_port t in
      (nat_port_min ≤ port)
      × (port ≤ j)
      × (t.assigned_ports port ≡ false)
      × (t' ≡ record t { assigned_ports = update t.assigned_ports port true })
unfolding alloc_port
alloc_port_lem t j lo hi free =
    let (a, b, c) =
      find_port_lem t.assigned_ports 11111 12345 j (omega arith) lo (omega arith) free in
    let e : (find_port t.assigned_ports 11111 12345 == 0) ≡ false = ground arith in
    rw e (a, b, c, refl)

-- How many mappings of a list use port `q`, and how many of the buckets below `n`.
abbrev pub count : ℕ → List NatMapping → ℕ
count q [] = 0
count q (e ∷ es) = (if e.external_port == q then 1 else 0) + count q es

total : ℕ → (ℕ → List NatMapping) → ℕ → ℕ
total q f zero = 0
total q f (suc n) = count q (f n) + total q f n

count-append : (q : ℕ) (xs ys : List NatMapping) → count q (xs ++ ys) ≡ count q xs + count q ys
count-append q [] ys = omega arith
count-append q (x ∷ xs) ys = omega (arith, count-append q xs ys)

total-update_ge :
    (q : ℕ) (f : ℕ → List NatMapping) (i n : ℕ) (v : List NatMapping)
    → n ≤ i
    → total q (update f i v) n ≡ total q f n
unfolding total
total-update_ge q f i zero v h = refl
total-update_ge q f i (suc n) v h = ground (arith, total-update_ge q f i n v)

total-update :
    (q : ℕ) (f : ℕ → List NatMapping) (i n : ℕ) (v : List NatMapping)
    → i < n
    → total q (update f i v) n + count q (f i) ≡ total q f n + count q v
unfolding total
total-update q f i zero v h = absurd (omega arith)
total-update q f i (suc n) v h = elim (Bool-cases (n == i)) [
  | inl hit ↦
      let e : n ≡ i = ==→eq n i hit in
      rw hit (omega (arith, total-update_ge q f i n v (omega arith), ap (λ k. count q (f k)) e))
  | inr miss ↦ rw miss (ground (arith, total-update q f i n v))
]

-- The mappings of the table that use port `q`.
pub users : ℕ → (ℕ → List NatMapping) → ℕ
users q f = total q f 256

pub users-update :
    (q : ℕ) (f : ℕ → List NatMapping) (i : ℕ) (v : List NatMapping)
    → i < 256
    → users q (update f i v) + count q (f i) ≡ users q f + count q v
unfolding users
users-update q f i v h = total-update q f i 256 v h

abbrev pub bit : Bool → ℕ
bit true = 1
bit false = 0

-- Every port of the pool is used by one mapping at most, and by none unless it is marked.
abbrev pub PortsOwned : NatTable → Type 0
PortsOwned t =
    (q : ℕ)
    → nat_port_min ≤ q
    → q < nat_port_max
    → users q t.nat_mapping_list ≤ bit (t.assigned_ports q)

-- The ports of the rules are kept out of the pool.
abbrev pub RulesOutside : List DnatRule → Type 0
RulesOutside = All λ r. (r.external_port < nat_port_min) ⊎ (nat_port_max ≤ r.external_port)

pub hash8_remote-lt : (ip port : ℕ) → hash8_remote ip port < 256
unfolding hash8_remote
hash8_remote-lt ip port = omega arith

count-touch :
    (q : ℕ) (hit : NatMapping → Bool) (f : NatConnection → NatConnection) (es : List NatMapping)
    → count q (touch hit (with_conn f) es) ≡ count q es
unfolding touch
count-touch q hit f [] = refl
count-touch q hit f (e ∷ es) = ground (arith, count-touch q hit f es)

touch-PortsOwned :
    (t : NatTable) (i : ℕ) (hit : NatMapping → Bool) (f : NatConnection → NatConnection)
    → i < 256
    → PortsOwned t
    → PortsOwned (touch_mapping t i hit f)
touch-PortsOwned t i hit f h own = λ q lo hi. omega (
  arith,
  own q lo hi,
  count-touch q hit f (t.nat_mapping_list i),
  users-update q t.nat_mapping_list i (touch hit (with_conn f) (t.nat_mapping_list i)) h,
)

add_mapping-users :
    (t : NatTable) (q i : ℕ) (e : NatMapping)
    → i < 256
    → users q (add_mapping t i e).nat_mapping_list
      ≡ users q t.nat_mapping_list + (if e.external_port == q then 1 else 0)
add_mapping-users t q i e h = omega (
  arith,
  count-append q (t.nat_mapping_list i) (e ∷ []),
  users-update q t.nat_mapping_list i (t.nat_mapping_list i ++ (e ∷ [])) h,
)

pub translate_in-PortsOwned :
    (t : NatTable) (p : Packet) (now : ℕ)
    → RulesOutside t.rules
    → PortsOwned t
    → PortsOwned (translate_in t p now).0
unfolding translate_in
translate_in-PortsOwned t p now outside own =
    elim (Option-cases
      (first (hit_in p) (t.nat_mapping_list (hash8_remote (htonl p.saddr) (htons p.sport))))) [
        | inr (e, found) ↦
            rw (found, translate_in)
              (touch-PortsOwned t _ (hit_in p) (conn_in p) (hash8_remote-lt _ _) own)
        | inl missing ↦ elim (Option-cases (first (hit_rule p) t.rules)) [
          | inl none_fits ↦ rw (missing, translate_in, none_fits) own
          | inr (r, fits) ↦
              rw (missing, translate_in, fits)
                (λ q lo hi. ground (
                  arith,
                  own q lo hi,
                  (All-first _ (hit_rule p) t.rules r outside fits).0,
                  add_mapping-users t q (hash8_remote (htonl p.saddr) (htons p.sport))
                      (with_conn (conn_in p) (rule_mapping r (htonl p.saddr) (htons p.sport) now))
                      (hash8_remote-lt _ _),
                ))
        ]
      ]

find_port_cases :
    (assigned : ℕ → Bool) (n i : ℕ)
    → (find_port assigned n i ≡ 0) ⊎ (assigned (find_port assigned n i) ≡ false)
unfolding find_port
find_port_cases assigned zero i = inl refl
find_port_cases assigned (suc n) i = elim (Bool-cases (assigned i)) [
  | inr open_port ↦ rw open_port (inr open_port)
  | inl taken ↦ rw taken (find_port_cases assigned n (i + 1))
]

pub alloc_port-list : (t : NatTable) → (alloc_port t).1.nat_mapping_list ≡ t.nat_mapping_list
unfolding alloc_port
alloc_port-list t = ground arith

-- Whether or not a port is free, at most one mapping more has the port that is returned.
alloc_port-PortsOwned :
    (t : NatTable) (q : ℕ)
    → nat_port_min ≤ q
    → q < nat_port_max
    → PortsOwned t
    → users q t.nat_mapping_list + (if (alloc_port t).0 == q then 1 else 0)
      ≤ bit ((alloc_port t).1.assigned_ports q)
unfolding alloc_port
alloc_port-PortsOwned t q lo hi own = elim (find_port_cases t.assigned_ports 11111 nat_port_min) [
  | inl none_free ↦ rw (none_free, alloc_port) (ground (arith, own q lo hi))
  | inr free ↦ ground (arith, own q lo hi, free)
]

pub translate_out-PortsOwned :
    (t : NatTable) (p : Packet) (now : ℕ) → PortsOwned t → PortsOwned (translate_out t p now).0
unfolding translate_out
translate_out-PortsOwned t p now own =
    elim (Option-cases
      (first (hit_out p) (t.nat_mapping_list (hash8_remote (htonl p.daddr) (htons p.dport))))) [
        | inr (e, found) ↦
            rw (found, translate_out)
              (touch-PortsOwned t _ (hit_out p) (conn_out p) (hash8_remote-lt _ _) own)
        | inl missing ↦
            rw (missing, translate_out)
              (λ q lo hi.
                let added =
                  add_mapping-users (alloc_port t).1 q
                    (hash8_remote (htonl p.daddr) (htons p.dport))
                    (with_conn (conn_out p) (flow_mapping t p (alloc_port t).0 now))
                    (hash8_remote-lt _ _) in
                omega (
                  arith,
                  added,
                  ap (users q) (alloc_port-list t),
                  alloc_port-PortsOwned t q lo hi own,
                ))
      ]

total_none : (q n : ℕ) → total q (λ i. []) n ≡ 0
unfolding total
total_none q zero = refl
total_none q (suc n) = omega (arith, total_none q n)

-- An empty table owes no port.
pub users_none : (q : ℕ) → users q (λ i. []) ≡ 0
unfolding users
users_none q = total_none q 256

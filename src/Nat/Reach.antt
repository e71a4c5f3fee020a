-- ===== src/Nat/Reach.antt =====
-- The ports of the translation table in every state that it reaches: sweeps of `nat_timeout`, and
-- sequences of packets and sweeps. Each runs under the lock of the table.
use computer_net_ucas.Common.{
  ℕ, zero, suc, ◌+◌, ◌-◌, ◌≤◌, ◌<◌, ◌≡◌, refl, inl, inr, Bool, true, false, Option, List, [], ◌∷◌,
  ◌==◌, if◌then◌else◌, Bool-cases, Option-cases, arith,
}
use computer_net_ucas.Word.{htonl}
use computer_net_ucas.Nat.{NatMapping, NatTable, Packet, nat_port_min, nat_port_max}
use computer_net_ucas.Nat.Table.{
  update, alloc_port, translate_in, translate_out, do_translation, get_packet_direction,
  nat_translate_packet, is_stale, sweep_bucket, sweep_from, nat_timeout_round,
}
use computer_net_ucas.Nat.Ports.{
  count, users, users-update, users_none, bit, PortsOwned, RulesOutside, translate_in-PortsOwned,
  translate_out-PortsOwned,
}

bit-le : (b : Bool) → bit b ≤ 1
bit-le true = omega arith
bit-le false = omega arith

sweep_bucket-owned :
    (now q others : ℕ) (es : List NatMapping) (ports : ℕ → Bool)
    → others + count q es ≤ bit (ports q)
    → let (rest, ports') = sweep_bucket now es ports in others + count q rest ≤ bit (ports' q)
unfolding sweep_bucket
sweep_bucket-owned now q others [] ports h = h
sweep_bucket-owned now q others (e ∷ es) ports h = elim (Bool-cases (is_stale now e)) [
  | inl stale ↦ rw stale (
      sweep_bucket-owned now q others es (update ports e.external_port false)
        (ground (arith, bit-le (ports q))))
  | inr live ↦ rw live (
      omega (
        arith,
        sweep_bucket-owned now q (others + (if e.external_port == q then 1 else 0)) es ports
            (omega arith),
      ))
]

sweep_from-PortsOwned :
    (now n i : ℕ) (t : NatTable) → i + n ≤ 256 → PortsOwned t → PortsOwned (sweep_from now n i t)
unfolding sweep_from
sweep_from-PortsOwned now zero i t h own = own
sweep_from-PortsOwned now (suc n) i t h own =
    sweep_from-PortsOwned now n (i + 1) _ (omega arith) (λ q lo hi.
      let es = t.nat_mapping_list i in
      let others = users q t.nat_mapping_list - count q es in
      let cleared = users-update q t.nat_mapping_list i [] (omega arith) in
      let kept = (sweep_bucket now es t.assigned_ports).0 in
      omega (
        arith,
        cleared,
        users-update q t.nat_mapping_list i kept (omega arith),
        sweep_bucket-owned now q others es t.assigned_ports (omega (arith, cleared, own q lo hi)),
      ))

-- What happens to the table: a packet, with the routes and the time of its arrival, or a sweep.
pub data Event : Type 0 where
  packet : (ℕ → Option ℕ) → Packet → ℕ → Event
  sweep : ℕ → Event

unfoldable pub step : NatTable → Event → NatTable
unfolding nat_timeout_round
step t (packet route p now) = (nat_translate_packet route t p now).0
step t (sweep now) = nat_timeout_round now t

unfoldable pub run : NatTable → List Event → NatTable
run t [] = t
run t (e ∷ es) = run (step t e) es

rules-sweep_from : (now n i : ℕ) (t : NatTable) → (sweep_from now n i t).rules ≡ t.rules
unfolding sweep_from
rules-sweep_from now zero i t = refl
rules-sweep_from now (suc n) i t = rules-sweep_from now n (i + 1) _

rules-translate_in :
    (t : NatTable) (p : Packet) (now : ℕ) → (translate_in t p now).0.rules ≡ t.rules
unfolding translate_in
rules-translate_in t p now = ground arith

rules-translate_out :
    (t : NatTable) (p : Packet) (now : ℕ) → (translate_out t p now).0.rules ≡ t.rules
unfolding translate_out alloc_port
rules-translate_out t p now = ground arith

pub record NatOk (t : NatTable) : Type 0 where
  pub owned : PortsOwned t
  pub outside : RulesOutside t.rules

translate_in-NatOk :
    (t : NatTable) (p : Packet) (now : ℕ) → NatOk t → NatOk (translate_in t p now).0
translate_in-NatOk t p now v = record {
  owned = translate_in-PortsOwned t p now v.outside v.owned;
  outside = rw (rules-translate_in t p now) v.outside;
}

translate_out-NatOk :
    (t : NatTable) (p : Packet) (now : ℕ) → NatOk t → NatOk (translate_out t p now).0
translate_out-NatOk t p now v = record {
  owned = translate_out-PortsOwned t p now v.owned;
  outside = rw (rules-translate_out t p now) v.outside;
}

packet-NatOk :
    (route : ℕ → Option ℕ) (t : NatTable) (p : Packet) (now : ℕ)
    → NatOk t
    → NatOk (nat_translate_packet route t p now).0
unfolding nat_translate_packet get_packet_direction do_translation
packet-NatOk route t p now v = elim (Option-cases (route (htonl p.saddr))) [
  | inl lost ↦ rw (lost, nat_translate_packet) v
  | inr (index, found) ↦ elim (Bool-cases (index == t.internal_index)) [
    | inl inside ↦ elim (Bool-cases (p.protocol == 6)) [
      | inl tcp ↦ rw (found, nat_translate_packet, inside, tcp) (translate_out-NatOk t p now v)
      | inr other ↦ rw (found, nat_translate_packet, inside, other) v
    ]
    | inr outside ↦ elim (Bool-cases (p.protocol == 6)) [
      | inl tcp ↦ rw (found, nat_translate_packet, outside, tcp) (translate_in-NatOk t p now v)
      | inr other ↦ rw (found, nat_translate_packet, outside, other) v
    ]
  ]
]

step-NatOk : (t : NatTable) (e : Event) → NatOk t → NatOk (step t e)
unfolding step
step-NatOk t (sweep now) v = record {
  owned = sweep_from-PortsOwned now 256 0 t (omega arith) v.owned;
  outside = rw (rules-sweep_from now 256 0 t) v.outside;
}
step-NatOk t (packet route p now) v = packet-NatOk route t p now v

run-NatOk : (t : NatTable) (es : List Event) → NatOk t → NatOk (run t es)
unfolding run
run-NatOk t [] v = v
run-NatOk t (e ∷ es) v = run-NatOk (step t e) es (step-NatOk t e v)

-- No two mappings of a running table share a port of the pool, and a port in use is marked: in every
-- state that packets and sweeps lead to from an empty table whose rules keep out of the pool.
pub run-users-le :
    (t : NatTable) (es : List Event) (q : ℕ)
    → t.nat_mapping_list ≡ (λ i. [])
    → RulesOutside t.rules
    → nat_port_min ≤ q
    → q < nat_port_max
    → users q (run t es).nat_mapping_list ≤ bit ((run t es).assigned_ports q)
run-users-le t es q e outside lo hi =
    (run-NatOk t es (record { owned = start; outside = outside })).owned q lo hi
  where
    start : PortsOwned t
    start = λ k klo khi. rw e (omega (arith, users_none k))

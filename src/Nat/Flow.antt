-- ===== src/Nat/Flow.antt =====
-- One flow through 08-nat/nat.c: the way out and back, and what the table remembers of it.
use mathlib.Core.Path.{subst}
use computer_net_ucas.Common.{
  ℕ, zero, suc, ◌+◌, ◌%◌, ◌≤◌, ◌<◌, ◌≡◌, ◌≢◌, refl, sym, ap, ap₂, ◌∙◌, inl, inr, Bool, true, false,
  ◌||◌, none, some, List, [], ◌∷◌, map, first, first-append, Bool-cases, eq→==, arith,
}
use computer_net_ucas.Word.{u8_mod, u16_mod, u32_mod, htons, htonl, htons-htons, htonl-htonl}
use computer_net_ucas.Nat.{
  NatConnection, NatMapping, NatTable, Packet, nat_port_min, nat_port_max, hash8_remote, tcp_fin,
}
use computer_net_ucas.Nat.Table.{
  Outcome, sent, update, alloc_port, conn_in, conn_out, touch, finish, rewrite_in, rewrite_out,
  hit_in, hit_out, with_conn, add_mapping, flow_mapping, translate_in, translate_out,
  is_flow_finished, is_stale, nat_exit_from, nat_exit,
}
use computer_net_ucas.Nat.Ports.{
  count, users, users-update, bit, PortsOwned, alloc_port_lem, alloc_port-list, hash8_remote-lt,
}

count-le-users : (q : ℕ) (f : ℕ → List NatMapping) (i : ℕ) → i < 256 → count q (f i) ≤ users q f
count-le-users q f i h = omega (arith, users-update q f i [] h)

-- No mapping with the port that the packet asks for: the walk finds nothing.
first-count_zero :
    (p : Packet) (q : ℕ) (es : List NatMapping)
    → htons p.dport ≡ q
    → count q es ≡ 0
    → first (hit_in p) es ≡ none
first-count_zero p q [] e h = refl
first-count_zero p q (x ∷ es) e h = ground (arith, first-count_zero p q es e)

pub new_flow :
    (t : NatTable) (p : Packet) (now : ℕ)
    → first (hit_out p) (t.nat_mapping_list (hash8_remote (htonl p.daddr) (htons p.dport))) ≡ none
    → translate_out t p now ≡ (
      add_mapping
          (alloc_port t).1
          (hash8_remote (htonl p.daddr) (htons p.dport))
          (with_conn (conn_out p) (flow_mapping t p (alloc_port t).0 now)),
      sent (rewrite_out (flow_mapping t p (alloc_port t).0 now) p),
    )
unfolding translate_out
new_flow t p now missing = rw (missing, translate_out)

rewrite_out_lem :
    (e : NatMapping) (p : Packet)
    → ((rewrite_out e p).saddr ≡ htonl e.external_ip)
      × ((rewrite_out e p).sport ≡ htons e.external_port)
unfolding rewrite_out
rewrite_out_lem e p = (refl, refl)

known_flow :
    (t : NatTable) (r : Packet) (later : ℕ) (e : NatMapping)
    → first (hit_in r) (t.nat_mapping_list (hash8_remote (htonl r.saddr) (htons r.sport))) ≡ some e
    → (translate_in t r later).1 ≡ sent (rewrite_in e r)
unfolding translate_in
known_flow t r later e found = rw (found, translate_in)

-- In the bucket to which mapping `m` is added, with a port that no other mapping has.
first-add_mapping :
    (t : NatTable) (i : ℕ) (m : NatMapping) (r : Packet)
    → count (htons r.dport) (t.nat_mapping_list i) ≡ 0
    → m.external_ip ≡ htonl r.daddr
    → m.external_port ≡ htons r.dport
    → first (hit_in r) ((add_mapping t i m).nat_mapping_list i) ≡ some m
first-add_mapping t i m r fresh ip port = rw (
  eq→== i i refl,
  first-append (hit_in r) (t.nat_mapping_list i) (m ∷ []) (first-count_zero r _ _ refl fresh),
  eq→== _ _ ip,
  eq→== _ _ port,
)

rewrite_in_lem :
    (t : NatTable) (p r : Packet) (port now : ℕ)
    → p.saddr < u32_mod
    → p.sport < u16_mod
    → rewrite_in (with_conn (conn_out p) (flow_mapping t p port now)) r
      ≡ finish (record r { dport = p.sport; daddr = p.saddr })
unfolding rewrite_in
rewrite_in_lem t p r port now ps pp =
    ap₂ (λ a b. finish (record r { dport = a; daddr = b })) (htons-htons p.sport pp)
      (htonl-htonl p.saddr ps)

sent-injective : (p q : Packet) → sent p ≡ sent q → p ≡ q
sent-injective p q e = cc

-- Where each port that is marked as free has no mapping, and a port of the pool is free, the first
-- packet of a flow from inside leaves with a port of the pool that was free, and the packet that
-- answers it from the same remote end to the address and port it was sent from goes back to the host
-- and port inside that it came from, with its other fields unchanged up to the checksums. The
-- addresses and the port of the packet fit their fields.
pub translate_in-translate_out :
    (t : NatTable) (p out r : Packet) (j now later : ℕ)
    → PortsOwned t
    → nat_port_min ≤ j
    → j < nat_port_max
    → t.assigned_ports j ≡ false
    → t.external_ip < u32_mod
    → p.saddr < u32_mod
    → p.sport < u16_mod
    → first (hit_out p) (t.nat_mapping_list (hash8_remote (htonl p.daddr) (htons p.dport))) ≡ none
    → (translate_out t p now).1 ≡ sent out
    → r.saddr ≡ p.daddr
    → r.sport ≡ p.dport
    → r.daddr ≡ out.saddr
    → r.dport ≡ out.sport
    → (t.assigned_ports (htons out.sport) ≡ false)
      × (nat_port_min ≤ htons out.sport)
      × (htons out.sport < nat_port_max)
      × ((translate_in (translate_out t p now).0 r later).1
          ≡ sent (finish (record r { dport = p.sport; daddr = p.saddr })))
translate_in-translate_out t p out r j now later own lo hi free eip ps pp missing went rs rp rd rq =
    let (low, high, unused, after) = alloc_port_lem t j lo hi free in
    let below : (alloc_port t).0 < nat_port_max = omega (arith, high, hi) in
    let whole = new_flow t p now missing in
    let left : rewrite_out (flow_mapping t p (alloc_port t).0 now) p ≡ out =
      sent-injective _ _ (sym (ap (λ o. o.1) whole) ∙ went) in
    let (ip, port) = rewrite_out_lem (flow_mapping t p (alloc_port t).0 now) p in
    let asked_ip : htonl r.daddr ≡ t.external_ip =
      ap htonl (rd ∙ sym (ap (λ (x : Packet). x.saddr) left) ∙ ip)
      ∙ htonl-htonl t.external_ip eip in
    let out_port : htons out.sport ≡ (alloc_port t).0 =
      ap htons (sym (ap (λ (x : Packet). x.sport) left) ∙ port)
      ∙ htons-htons (alloc_port t).0 (omega arith) in
    let asked_port : htons r.dport ≡ (alloc_port t).0 = ap htons rq ∙ out_port in
    let index = hash8_remote (htonl p.daddr) (htons p.dport) in
    let owner = own (alloc_port t).0 low (omega arith) in
    let m = with_conn (conn_out p) (flow_mapping t p (alloc_port t).0 now) in
    let fresh : count (htons r.dport) ((alloc_port t).1.nat_mapping_list index) ≡ 0 =
      rw (asked_port, alloc_port-list t)
        (omega (
          arith,
          ap bit unused,
          owner,
          count-le-users (alloc_port t).0 t.nat_mapping_list index (hash8_remote-lt _ _),
        )) in
    let back =
      known_flow _ r later m (
        rw (rs, rp)
          (first-add_mapping (alloc_port t).1 index m r fresh (sym asked_ip) (sym asked_port)))
      ∙ ap sent (rewrite_in_lem t p r (alloc_port t).0 now ps pp) in
    (
      ap t.assigned_ports out_port ∙ unused,
      subst (λ q. nat_port_min ≤ q) (sym out_port) low,
      subst (λ q. q < nat_port_max) (sym out_port) below,
      ap (λ (o : NatTable × Outcome). (translate_in o.0 r later).1) whole ∙ back,
    )

abbrev pub times : List NatMapping → List ℕ
times = map λ e. e.update_time

times-touch :
    (hit : NatMapping → Bool) (f : NatConnection → NatConnection) (es : List NatMapping)
    → times (touch hit (with_conn f) es) ≡ times es
unfolding touch
times-touch hit f [] = refl
times-touch hit f (e ∷ es) = elim (Bool-cases (hit e)) [
  | inl here ↦ rw here
  | inr there ↦ rw there (ap (λ t. e.update_time ∷ t) (times-touch hit f es))
]

-- A packet from inside that belongs to a known flow does not renew the time of its mapping: the
-- times in the bucket are as before, so a flow is stale 60 seconds after its first packet, however
-- busy it is.
pub translate_out-times :
    (t : NatTable) (p : Packet) (now later : ℕ) (e : NatMapping)
    → first (hit_out p) (t.nat_mapping_list (hash8_remote (htonl p.daddr) (htons p.dport))) ≡ some e
    → e.update_time + 60 < later
    → (times (
          (translate_out t p now).0.nat_mapping_list (hash8_remote (htonl p.daddr) (htons p.dport)))
        ≡ times (t.nat_mapping_list (hash8_remote (htonl p.daddr) (htons p.dport))))
      × (is_stale later (with_conn (conn_out p) e) ≡ true)
unfolding translate_out is_stale
translate_out-times t p now later e found old =
    let index = hash8_remote (htonl p.daddr) (htons p.dport) in
    (
      rw (found, translate_out, eq→== index index refl)
          (times-touch (hit_out p) (conn_out p) (t.nat_mapping_list index)),
      ground (arith, or_true (is_flow_finished (conn_out p e.conn))),
    )
  where
    or_true : (b : Bool) → b || true ≡ true
    or_true true = refl
    or_true false = refl

-- Any packet from outside but a bare FIN makes the flow unfinished again, whatever was seen before.
pub conn_in_unfinished :
    (p : Packet) (c : NatConnection) → p.flags ≢ tcp_fin → is_flow_finished (conn_in p c) ≡ false
unfolding conn_in is_flow_finished
conn_in_unfinished p c h = ground arith

-- The loop of `nat_exit` never ends: its 8-bit counter is always below 256.
pub nat_exit-none : (fuel : ℕ) (t : NatTable) → nat_exit fuel t ≡ none
unfolding nat_exit
nat_exit-none fuel t = go fuel 0 t (omega arith)
  where
    go : (fuel i : ℕ) (t : NatTable) → i < 256 → nat_exit_from fuel i t ≡ none
    go zero i t h = refl
    go (suc fuel) i t h = ground (
      arith,
      go fuel ((i + 1) % u8_mod) (record t { nat_mapping_list = update t.nat_mapping_list i [] }),
    )

-- ===== src/Stp/Priority.antt =====
-- The order of priority vectors: both comparisons of 04_stp/stp.c are one order of numbers.
use computer_net_ucas.Common.{
  ℕ, ◌+◌, ◌*◌, ◌%◌, ◌^◌, ◌≤◌, ◌<◌, ◌≡◌, refl, ◌∙◌, ap, Bool, true, false, not, ltb, ◌==◌,
  if◌then◌else◌, arith,
}
use computer_net_ucas.Word.{
  u16_mod, u32_mod, u64_mod, htons, htonl, htonll, htons-lt, htonl-lt, htonll-lt,
}
use computer_net_ucas.Stp.{
  Config, Port, config_priority_cmp, port_priority_cmp, replace_port_config,
}

-- A vector (root, cost, switch, port) read as one number; the best vector is the least.
abbrev pub vector_rank : ℕ → ℕ → ℕ → ℕ → ℕ
vector_rank root cost switch port = ((root * 2 ^ 32 + cost) * 2 ^ 64 + switch) * 2 ^ 32 + port

-- The ladder of both comparisons, over a vector and a better one.
abbrev ladder : ℕ → ℕ → ℕ → ℕ → ℕ → ℕ → ℕ → ℕ → Bool
ladder r c s p r' c' s' p' =
    if not (r == r')
    then ltb r' r
    else if not (c == c')
    then ltb c' c
    else if not (s == s')
    then ltb s' s
    else if not (p == p')
    then ltb p' p
    else false

ladder-rank :
    (r c s p r' c' s' p' : ℕ)
    → c < u32_mod
    → c' < u32_mod
    → s < u64_mod
    → s' < u64_mod
    → p < u32_mod
    → p' < u32_mod
    → ladder r c s p r' c' s' p' ≡ ltb (vector_rank r' c' s' p') (vector_rank r c s p)
ladder-rank r c s p r' c' s' p' hc hc' hs hs' hp hp' = ground arith

-- The sign bit turned over orders `int` patterns as numbers.
abbrev bias : ℕ → ℕ
bias x = (x + 2 ^ 31) % u32_mod

bias_eq : (a b : ℕ) → a < u32_mod → b < u32_mod → (a == b) ≡ (bias a == bias b)
bias_eq a b ha hb = ground arith

-- The fields of a port fit the types of the source.
pub record InRange (p : Port) : Type 0 where
  pub own : p.port_id < u16_mod
  pub root : p.designated_root < u64_mod
  pub cost : p.designated_cost < u32_mod
  pub switch : p.designated_switch < u64_mod
  pub port : p.designated_port < u32_mod

abbrev pub port_rank : Port → ℕ
port_rank p =
    vector_rank p.designated_root (bias p.designated_cost) p.designated_switch
      (bias p.designated_port)

-- On ports whose fields fit their types, `port_priority_cmp` is the strict order of their vectors:
-- the root first, then the cost, the switch and the port.
pub port_priority_cmp-rank :
    (p q : Port) → InRange p → InRange q → port_priority_cmp p q ≡ ltb (port_rank q) (port_rank p)
unfolding port_priority_cmp
port_priority_cmp-rank p q hp hq =
    rw
      (
        bias_eq p.designated_cost q.designated_cost hp.cost hq.cost,
        bias_eq p.designated_port q.designated_port hp.port hq.port,
      )
      (ladder-rank p.designated_root (bias p.designated_cost) p.designated_switch
        (bias p.designated_port) q.designated_root (bias q.designated_cost) q.designated_switch
        (bias q.designated_port) (omega arith) (omega arith) hp.switch hq.switch (omega arith)
        (omega arith))

-- A packet's vector, and a port's as it is compared with a packet: costs unsigned.
abbrev pub config_rank : Config → ℕ
config_rank c =
    vector_rank (htonll c.root_id) (htonl c.root_path_cost) (htonll c.switch_id)
      (bias (htons c.port_id))

abbrev pub held_rank : Port → ℕ
held_rank p =
    vector_rank p.designated_root p.designated_cost p.designated_switch (bias p.designated_port)

-- A packet on a port is taken over exactly when its vector is below the one that the port holds,
-- in the order of root, cost, switch and port.
pub config_priority_cmp-rank :
    (p : Port) (c : Config)
    → InRange p
    → config_priority_cmp p c ≡ ltb (config_rank c) (held_rank p)
unfolding config_priority_cmp
config_priority_cmp-rank p c h =
    let small : htons c.port_id < u32_mod = omega (arith, htons-lt c.port_id) in
    rw (bias_eq p.designated_port (htons c.port_id) h.port small) (
      ladder-rank p.designated_root p.designated_cost p.designated_switch (bias p.designated_port)
        (htonll c.root_id) (htonl c.root_path_cost) (htonll c.switch_id) (bias (htons c.port_id))
        h.cost (htonl-lt c.root_path_cost) h.switch (htonll-lt c.switch_id) (omega arith)
        (omega arith))

pub held_rank-replace_port_config :
    (p : Port) (c : Config) → held_rank (replace_port_config p c) ≡ config_rank c
unfolding replace_port_config
held_rank-replace_port_config p c = refl

pub replace_port_config-InRange :
    (p : Port) (c : Config) → InRange p → InRange (replace_port_config p c)
unfolding replace_port_config
replace_port_config-InRange p c h = record {
  own = h.own;
  root = htonll-lt c.root_id;
  cost = htonl-lt c.root_path_cost;
  switch = htonll-lt c.switch_id;
  port = omega (arith, htons-lt c.port_id);
}

-- A port that has taken a packet over holds the packet's vector, and does not take the same packet
-- over again.
pub replace_port_config_lem :
    (p : Port) (c : Config)
    → InRange p
    → (held_rank (replace_port_config p c) ≡ config_rank c)
      × (config_priority_cmp (replace_port_config p c) c ≡ false)
replace_port_config_lem p c h = (
  held_rank-replace_port_config p c,
  (config_priority_cmp-rank _ c (replace_port_config-InRange p c h)
      ∙ rw (held_rank-replace_port_config p c) (ltb_irrefl (config_rank c))),
)
  where
    ltb_irrefl : (n : ℕ) → ltb n n ≡ false
    ltb_irrefl n = ground arith

-- Costs from 2 ^ 31 on are ordered in two ways: of two ports that name one root, the one with the
-- huge cost is the better to `port_priority_cmp`, and a packet with its vector is not better to
-- `config_priority_cmp`.
pub huge_cost_lem :
    (p q : Port) (c : Config)
    → q ≡ replace_port_config q c
    → p.designated_root ≡ q.designated_root
    → p.designated_cost < 2 ^ 31
    → 2 ^ 31 ≤ q.designated_cost
    → (port_priority_cmp p q ≡ true) × (config_priority_cmp p c ≡ false)
unfolding port_priority_cmp config_priority_cmp replace_port_config
huge_cost_lem p q c e same small huge =
    let root : q.designated_root ≡ htonll c.root_id = ap (λ (x : Port). x.designated_root) e in
    let cost : q.designated_cost ≡ htonl c.root_path_cost =
      ap (λ (x : Port). x.designated_cost) e in
    ground (arith, root, cost, htonl-lt c.root_path_cost)

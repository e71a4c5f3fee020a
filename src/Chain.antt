-- ===== src/Chain.antt =====
-- 12-tcp_stack/include/list.h (each program has a copy): the circular doubly linked list on which the
-- tables, queues and caches stand. Nodes are addresses; the store gives the two pointers of each.
pub mod Links
pub mod Operations
pub mod Refine
mod Tests
use computer_net_ucas.Common.{ℕ, zero, suc, Bool, List, [], ◌∷◌, ◌==◌, if◌then◌else◌}

-- The `next` and `prev` of every `struct list_head`.
pub record Store : Type 0 where
  pub next : ℕ → ℕ
  pub prev : ℕ → ℕ

abbrev pub at : (ℕ → ℕ) → ℕ → ℕ → ℕ → ℕ
at f i v j = if j == i then v else f j

abbrev pub set_next : ℕ → ℕ → Store → Store
set_next i v s = record s { next = at s.next i v }

abbrev pub set_prev : ℕ → ℕ → Store → Store
set_prev i v s = record s { prev = at s.prev i v }

unfoldable pub init_list_head : ℕ → Store → Store
init_list_head list s = set_next list list (set_prev list list s)

unfoldable pub list_empty : ℕ → Store → Bool
list_empty list s = s.next list == list

-- The four writes, in their order.
unfoldable pub list_insert : ℕ → ℕ → ℕ → Store → Store
list_insert new prev next s =
    set_prev new prev (set_next new next (set_next prev new (set_prev next new s)))

unfoldable pub list_add_head : ℕ → ℕ → Store → Store
unfolding list_insert
list_add_head new head s = list_insert new head (s.next head) s

unfoldable pub list_add_tail : ℕ → ℕ → Store → Store
unfolding list_insert
list_add_tail new head s = list_insert new (s.prev head) head s

-- The second write reads the pointers of the entry after the first.
unfoldable pub list_delete_entry : ℕ → Store → Store
list_delete_entry entry s =
    let t = set_prev (s.next entry) (s.prev entry) s in set_next (t.prev entry) (t.next entry) t

-- The nodes that `list_for_each_entry` visits from `pos` until it is back at the head.
unfoldable pub for_each : ℕ → Store → ℕ → ℕ → List ℕ
for_each zero s head pos = []
for_each (suc fuel) s head pos =
    let rest = for_each fuel s head (s.next pos) in if pos == head then [] else pos ∷ rest

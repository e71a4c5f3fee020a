-- ===== src/Chain/Tests.antt =====
-- The list of 12-tcp_stack/include/list.h with its head at address 1 and nodes at 5 to 7.
use computer_net_ucas.Common.{ℕ, refl, inl, inr, List, [], ◌∷◌, arith}
use computer_net_ucas.Chain.{Store, init_list_head}
use computer_net_ucas.Chain.Links.{Represents}
use computer_net_ucas.Chain.Operations.{init_list_head-Represents}
use computer_net_ucas.Chain.Refine.{
  Op, add_head, add_tail, delete, perform_all, perform_all-Represents, IsLegal,
}

abbrev blank : Store
blank = record { next = λ n. 0; prev = λ n. 0 }

abbrev fresh : Store
fresh = init_list_head 1 blank

abbrev calls : List Op
calls = add_tail 5 ∷ add_head 6 ∷ add_tail 7 ∷ delete 5 ∷ []

abbrev left : List ℕ
left = 6 ∷ 7 ∷ []

calls-IsLegal : IsLegal 1 calls []
calls-IsLegal = (
  λ e. omega arith,
  tt,
  (
    λ e. omega arith,
    (λ e. omega arith, tt),
    (λ e. omega arith, (λ e. omega arith, (λ e. omega arith, tt)), (inr (inl refl), tt)),
  ),
)

perform_all-Represents_example : Represents (perform_all 1 calls fresh) 1 left
perform_all-Represents_example =
    perform_all-Represents 1 calls fresh [] (init_list_head-Represents 1 blank) calls-IsLegal

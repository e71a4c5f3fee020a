-- ===== src/Checksum/Ones.antt =====
-- The checksum of 12-tcp_stack/include/checksum.h against arithmetic modulo 2 ^ 16 - 1.
use computer_net_ucas.Common.{ℕ, ◌+◌, ◌*◌, ◌%◌, ◌<◌, ◌≡◌, refl, ◌∙◌, List, [], ◌∷◌, arith}
use computer_net_ucas.Word.{u16_mod, u32_mod, add32}
use computer_net_ucas.Checksum.{sum_bytes, fold_carries, checksum}

-- The sum of the words, not cut to 32 bits.
abbrev pub true_sum : List ℕ → ℕ
true_sum [] = 0
true_sum (a ∷ []) = a
true_sum (a ∷ b ∷ bs) = a + b * 256 + true_sum bs

pub sum_bytes-true_sum :
    (bs : List ℕ) (s : ℕ) → s < u32_mod → sum_bytes bs s ≡ (s + true_sum bs) % u32_mod
unfolding sum_bytes
sum_bytes-true_sum [] s h = omega arith
sum_bytes-true_sum (a ∷ []) s h = refl
sum_bytes-true_sum (a ∷ b ∷ bs) s h =
    sum_bytes-true_sum bs (add32 s (a + b * 256)) (omega arith) ∙ omega arith

-- The loop over the carries ends within three rounds with a 16-bit number that is the sum modulo
-- 2 ^ 16 - 1, and zero only for zero.
pub fold_carries_lem :
    (s : ℕ)
    → s < u32_mod
    → (fold_carries 3 s < u16_mod)
      × (fold_carries 3 s % 65535 ≡ s % 65535)
      × (fold_carries 3 s ≡ 0 → s ≡ 0)
unfolding fold_carries
fold_carries_lem s h = ground arith

-- The checksum is a 16-bit number and makes the sum of the words and the start value, cut to 32
-- bits, up to a multiple of 2 ^ 16 - 1.
pub checksum_lem :
    (bs : List ℕ) (s : ℕ)
    → s < u32_mod
    → (checksum bs s < u16_mod) × (((s + true_sum bs) % u32_mod + checksum bs s) % 65535 ≡ 0)
unfolding checksum
checksum_lem bs s h =
    rw (sum_bytes-true_sum bs s h)
      (omega (arith, fold_carries_lem ((s + true_sum bs) % u32_mod) (omega arith)))

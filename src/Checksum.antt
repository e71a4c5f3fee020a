-- ===== src/Checksum.antt =====
-- 12-tcp_stack/include/checksum.h (08-nat and 10-tcp_stack have the same file): the Internet
-- checksum of a buffer of bytes, read as 16-bit words of a little-endian host.
pub mod Ones
mod Tests
use computer_net_ucas.Common.{
  ℕ, zero, suc, ◌+◌, ◌-◌, ◌*◌, ◌/◌, ◌%◌, ◌^◌, Bool, List, [], ◌∷◌, ◌==◌, if◌then◌else◌,
}
use computer_net_ucas.Word.{u16_mod, add32}

-- The loop over the words and the odd byte behind them.
unfoldable pub sum_bytes : List ℕ → ℕ → ℕ
sum_bytes [] sum = sum
sum_bytes (a ∷ []) sum = add32 sum a
sum_bytes (a ∷ b ∷ bs) sum = sum_bytes bs (add32 sum (a + b * 256))

-- `while (sum >> 16) sum = (sum >> 16) + (sum & 0xffff)`, with fuel.
unfoldable pub fold_carries : ℕ → ℕ → ℕ
fold_carries zero sum = sum
fold_carries (suc fuel) sum =
    let rest = fold_carries fuel (sum / u16_mod + sum % u16_mod) in
    if sum / u16_mod == 0 then sum else rest

-- `(u16)~sum`. Three rounds are enough for a 32-bit sum.
unfoldable pub checksum : List ℕ → ℕ → ℕ
checksum bytes sum = (u16_mod - 1) - fold_carries 3 (sum_bytes bytes sum) % u16_mod

-- ===== src/Checksum/Tests.antt =====
-- The checksum of 12-tcp_stack/include/checksum.h on concrete bytes.
use computer_net_ucas.Common.{ℕ, ◌+◌, ◌%◌, ◌<◌, ◌≡◌, List, [], ◌∷◌, arith}
use computer_net_ucas.Word.{u16_mod, u32_mod}
use computer_net_ucas.Checksum.{checksum}
use computer_net_ucas.Checksum.Ones.{true_sum, checksum_lem}

abbrev odd_bytes : List ℕ
odd_bytes = 0xff ∷ 0xff ∷ 0x01 ∷ 0x80 ∷ 0x07 ∷ []

checksum_lem_example :
    (checksum odd_bytes 9 < u16_mod)
    × (((9 + true_sum odd_bytes) % u32_mod + checksum odd_bytes 9) % 65535 ≡ 0)
checksum_lem_example = checksum_lem odd_bytes 9 (omega arith)

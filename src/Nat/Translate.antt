-- ===== src/Nat/Translate.antt =====
-- The checksums that 08-nat/nat.c puts on a packet it has rewritten, as its receiver checks them.
use computer_net_ucas.Common.{
  ℕ, zero, suc, ◌+◌, ◌*◌, ◌%◌, ◌≤◌, ◌<◌, ◌≡◌, refl, ap, List, [], ◌∷◌, length, take, arith,
}
use computer_net_ucas.Word.{u16_mod, u32_mod, htons}
use computer_net_ucas.Checksum.{checksum}
use computer_net_ucas.Checksum.Ones.{true_sum, checksum_lem}
use computer_net_ucas.Nat.{
  Packet, ip_hdr_size, ip_bytes, tcp_bytes, tcp_len, pseudo_sum, ip_checksum, tcp_checksum,
}
use computer_net_ucas.Nat.Table.{finish}

take-length : (n : ℕ) (xs : List ℕ) → length xs ≡ n → take n xs ≡ xs
take-length zero [] e = refl
take-length zero (x ∷ xs) e = absurd (omega arith)
take-length (suc n) [] e = absurd (omega arith)
take-length (suc n) (x ∷ xs) e = ap (λ t. x ∷ t) (take-length n xs (omega arith))

-- The sum that a receiver makes of the IP header, and of the TCP segment with its pseudo header;
-- a good packet's is a multiple of 2 ^ 16 - 1.
abbrev pub ip_total : Packet → ℕ
ip_total p = true_sum (ip_bytes p p.ip_sum)

abbrev pub tcp_total : Packet → ℕ
tcp_total p =
    p.saddr + p.daddr + htons p.protocol + htons (tcp_len p) + true_sum (tcp_bytes p p.tcp_sum)

true_sum-ip_bytes :
    (p : Packet) (s : ℕ) → s < u16_mod → true_sum (ip_bytes p s) ≡ true_sum (ip_bytes p 0) + s
true_sum-ip_bytes p s h = omega arith

true_sum-tcp_bytes :
    (p : Packet) (s : ℕ) → s < u16_mod → true_sum (tcp_bytes p s) ≡ true_sum (tcp_bytes p 0) + s
true_sum-tcp_bytes p s h = omega arith

-- The IP checksum of a rewritten packet is right: the sum over its header is a multiple of 2 ^ 16
-- - 1, when the options fill the header and the sum without the checksum is below 2 ^ 32.
pub finish-ip_total :
    (p : Packet)
    → length p.options + 20 ≡ ip_hdr_size p
    → true_sum (ip_bytes p 0) < u32_mod
    → ip_total (finish p) % 65535 ≡ 0
unfolding finish ip_checksum
finish-ip_total p fits small =
    rw (take-length (ip_hdr_size p) (ip_bytes p 0) (omega (arith, fits))) (
      omega (
        arith,
        checksum_lem (ip_bytes p 0) 0 (omega arith),
        true_sum-ip_bytes p (checksum (ip_bytes p 0) 0),
      ))

-- The TCP checksum of a rewritten packet is right: the sum over segment and pseudo header is a
-- multiple of 2 ^ 16 - 1, when the segment is as long as the headers say and the sum without the
-- checksum is below 2 ^ 32.
pub finish-tcp_total :
    (p : Packet)
    → length (tcp_bytes p 0) ≡ tcp_len p
    → p.saddr + p.daddr + htons p.protocol + htons (tcp_len p) + true_sum (tcp_bytes p 0) < u32_mod
    → tcp_total (finish p) % 65535 ≡ 0
unfolding finish tcp_checksum
finish-tcp_total p fits small = rw (take-length (tcp_len p) (tcp_bytes p 0) fits) (
    omega (
      arith,
      checksum_lem (tcp_bytes p 0) (pseudo_sum p) (omega arith),
      true_sum-tcp_bytes p (checksum (tcp_bytes p 0) (pseudo_sum p)),
    ))

-- When that sum is at least 2 ^ 32, and below twice that, the carry is lost: the sum over the
-- rewritten segment and its pseudo header leaves 1 modulo 2 ^ 16 - 1, so the receiver rejects it.
pub finish-tcp_total_wrong :
    (p : Packet)
    → length (tcp_bytes p 0) ≡ tcp_len p
    → u32_mod ≤ p.saddr + p.daddr + htons p.protocol + htons (tcp_len p) + true_sum (tcp_bytes p 0)
    → p.saddr + p.daddr + htons p.protocol + htons (tcp_len p) + true_sum (tcp_bytes p 0)
      < 2 * u32_mod
    → tcp_total (finish p) % 65535 ≡ 1
unfolding finish tcp_checksum
finish-tcp_total_wrong p fits big small = rw (take-length (tcp_len p) (tcp_bytes p 0) fits) (
    omega (
      arith,
      checksum_lem (tcp_bytes p 0) (pseudo_sum p) (omega arith),
      true_sum-tcp_bytes p (checksum (tcp_bytes p 0) (pseudo_sum p)),
    ))

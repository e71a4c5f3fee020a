-- ===== src/Nat/Addresses.antt =====
-- `ip_tr` of 08-nat/nat.c reads dotted decimal addresses.
use computer_net_ucas.Common.{
  ℕ, ◌+◌, ◌*◌, ◌/◌, ◌%◌, ◌^◌, ◌<◌, ◌≡◌, sym, ap, ◌∙◌, List, [], ◌∷◌, ◌++◌, ltb, if◌then◌else◌,
  arith,
}
use mathlib.Core.List.{append-nil}
use computer_net_ucas.Word.{u32_mod}
use computer_net_ucas.Nat.Table.{ip_tr_from, ip_tr}

-- The decimal digits of a byte, without leading zeros, and an address with its dots.
abbrev pub decimal : ℕ → List ℕ
decimal n =
    if ltb n 10
    then (b'0' + n) ∷ []
    else if ltb n 100
    then (b'0' + n / 10) ∷ (b'0' + n % 10) ∷ []
    else (b'0' + n / 100) ∷ (b'0' + n / 10 % 10) ∷ (b'0' + n % 10) ∷ []

abbrev pub dotted : ℕ → ℕ → ℕ → ℕ → List ℕ
dotted a b c d = decimal a ++ (b'.' ∷ decimal b ++ (b'.' ∷ decimal c ++ (b'.' ∷ decimal d)))

read_byte :
    (n ip : ℕ) (rest : List ℕ)
    → n < 256
    → ip_tr_from ip 0 (decimal n ++ rest) ≡ ip_tr_from ip n rest
unfolding ip_tr_from
read_byte n ip rest h = ground arith

-- Every address of four bytes, written in dotted decimal without leading zeros, is read by `ip_tr`
-- as its 32-bit value.
pub ip_tr-dotted :
    (a b c d : ℕ)
    → a < 256
    → b < 256
    → c < 256
    → d < 256
    → ip_tr (dotted a b c d) ≡ a * 2 ^ 24 + b * 2 ^ 16 + c * 2 ^ 8 + d
unfolding ip_tr ip_tr_from
ip_tr-dotted a b c d ha hb hc hd =
    let x : ℕ = (0 * 256 + a) % u32_mod in
    let y : ℕ = (x * 256 + b) % u32_mod in
    let z : ℕ = (y * 256 + c) % u32_mod in
    read_byte a 0 (b'.' ∷ decimal b ++ (b'.' ∷ decimal c ++ (b'.' ∷ decimal d))) ha
    ∙ read_byte b x (b'.' ∷ decimal c ++ (b'.' ∷ decimal d)) hb
    ∙ read_byte c y (b'.' ∷ decimal d) hc
    ∙ ap (ip_tr_from z 0) (sym (append-nil (decimal d)))
    ∙ read_byte d z [] hd
    ∙ omega arith

-- ===== src/Word.antt =====
-- Machine words of the C sources: wrap-around, the int that a pattern stands for, and the byte
-- order of the little-endian host (htons, htonl, and htonll of 04_stp/include/utils.h).

use computer_net_ucas.Common.{
  ℕ, ◌+◌, ◌-◌, ◌*◌, ◌/◌, ◌%◌, ◌^◌, ◌<◌, ◌≡◌, sym, List, [], ◌∷◌, Bool, ltb, arith,
}

abbrev pub u8_mod : ℕ
u8_mod = 2 ^ 8

abbrev pub u16_mod : ℕ
u16_mod = 2 ^ 16

abbrev pub u32_mod : ℕ
u32_mod = 2 ^ 32

abbrev pub u64_mod : ℕ
u64_mod = 2 ^ 64

-- The sum and the difference of 32-bit words. The program is built without optimisation, so an
-- `int` wraps in the same way; such an `int` is kept as its bit pattern.
abbrev pub add32 : ℕ → ℕ → ℕ
add32 a b = (a + b) % u32_mod

abbrev pub sub32 : ℕ → ℕ → ℕ
sub32 a b = (a + u32_mod - b) % u32_mod

-- `a < b` of two `int`s, given by their bit patterns.
abbrev pub int_ltb : ℕ → ℕ → Bool
int_ltb a b = ltb ((a + 2 ^ 31) % u32_mod) ((b + 2 ^ 31) % u32_mod)

-- The bytes of a word in the memory of the host.
abbrev pub bytes16 : ℕ → List ℕ
bytes16 w = w % 256 ∷ w / 256 % 256 ∷ []

abbrev pub bytes32 : ℕ → List ℕ
bytes32 w = w % 256 ∷ w / 256 % 256 ∷ w / 2 ^ 16 % 256 ∷ w / 2 ^ 24 % 256 ∷ []

-- The byte order of a 16-bit and a 32-bit word turned round.
unfoldable pub htons : ℕ → ℕ
htons x = x % 256 * 256 + x / 256 % 256

unfoldable pub htonl : ℕ → ℕ
htonl x = htons (x % u16_mod) * u16_mod + htons (x / u16_mod % u16_mod)

-- `((u64)htonl((x) & 0xFFFFFFFF) << 32) | htonl((x) >> 32)`: the halves do not overlap, so the
-- bitwise or is a sum.
unfoldable pub htonll : ℕ → ℕ
htonll x = htonl (x % u32_mod) * u32_mod + htonl (x / u32_mod)

pub htons-lt : (x : ℕ) → htons x < u16_mod
unfolding htons
htons-lt x = omega arith

pub htons-htons : (x : ℕ) → x < u16_mod → htons (htons x) ≡ x
unfolding htons
htons-htons x h = omega arith

pub htonl-lt : (x : ℕ) → htonl x < u32_mod
unfolding htonl
htonl-lt x = omega (arith, htons-lt (x % u16_mod), htons-lt (x / u16_mod % u16_mod))

pub htonl-htonl : (x : ℕ) → x < u32_mod → htonl (htonl x) ≡ x
unfolding htonl
htonl-htonl x h =
    join (x % u16_mod) (x / u16_mod % u16_mod) (omega arith) (omega arith) (omega arith)
  where
    join :
        (lo hi : ℕ)
        → lo < u16_mod
        → hi < u16_mod
        → x ≡ hi * u16_mod + lo
        → htonl (htons lo * u16_mod + htons hi) ≡ x
    join lo hi hl hh e =
        let low : (htons lo * u16_mod + htons hi) % u16_mod ≡ htons hi =
          omega (arith, htons-lt hi) in
        let high : (htons lo * u16_mod + htons hi) / u16_mod % u16_mod ≡ htons lo =
          omega (arith, htons-lt hi, htons-lt lo) in
        rw (low, high, htons-htons lo hl, htons-htons hi hh) (sym e)

pub htonll-lt : (x : ℕ) → htonll x < u64_mod
unfolding htonll
htonll-lt x = omega (arith, htonl-lt (x % u32_mod), htonl-lt (x / u32_mod))

pub htonll-htonll : (x : ℕ) → x < u64_mod → htonll (htonll x) ≡ x
unfolding htonll
htonll-htonll x h = join (x % u32_mod) (x / u32_mod) (omega arith) (omega arith) (omega arith)
  where
    join :
        (lo hi : ℕ)
        → lo < u32_mod
        → hi < u32_mod
        → x ≡ hi * u32_mod + lo
        → htonll (htonl lo * u32_mod + htonl hi) ≡ x
    join lo hi hl hh e =
        let low : (htonl lo * u32_mod + htonl hi) % u32_mod ≡ htonl hi =
          omega (arith, htonl-lt hi) in
        let high : (htonl lo * u32_mod + htonl hi) / u32_mod ≡ htonl lo =
          omega (arith, htonl-lt hi, htonl-lt lo) in
        rw (low, high, htonl-htonl lo hl, htonl-htonl hi hh) (sym e)

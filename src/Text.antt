-- ===== src/Text.antt =====
-- Strings of the C sources as lists of bytes without the final zero, and the functions of the C
-- library that the sources call on them: strstr, strtok, atoi and fgets.
use computer_net_ucas.Common.{
  ℕ, zero, suc, length, length-append, ◌≤◌, ◌+◌, ◌-◌, ◌*◌, ◌/◌, ◌%◌, ◌<◌, ◌≡◌, inl, inr, refl, ap,
  ◌∙◌, Bool, true, false, ◌&&◌, ◌||◌, Option, none, some, List, [], ◌∷◌, ◌++◌, ltb, leb, ◌==◌,
  if◌then◌else◌, All, arith, Bool-cases,
}
use computer_net_ucas.Word.{u16_mod}

abbrev pub starts_with : List ℕ → List ℕ → Bool
starts_with [] bs = true
starts_with (a ∷ more) [] = false
starts_with (a ∷ more) (b ∷ bs) = (a == b) && starts_with more bs

-- `strstr(s, part) != NULL`.
abbrev pub has_part : List ℕ → List ℕ → Bool
has_part part [] = starts_with part []
has_part part (b ∷ bs) = starts_with part (b ∷ bs) || has_part part bs

-- What `fgets(s, size, fd)` takes for a line, and the bytes behind it: up to a newline, which is part
-- of the line, and at most `room` bytes, which is `size - 1`.
abbrev pub fgets : ℕ → List ℕ → List ℕ × List ℕ
fgets room [] = ([], [])
fgets zero (c ∷ cs) = ([], c ∷ cs)
fgets (suc room) (c ∷ cs) =
    let rest = fgets room cs in if c == b'\n' then (c ∷ [], cs) else (c ∷ rest.0, rest.1)

-- The lines of a file by `fgets`, for at most `fuel` of them; the number of bytes is enough.
abbrev pub fgets_lines : ℕ → ℕ → List ℕ → List (List ℕ)
fgets_lines fuel room [] = []
fgets_lines zero room (c ∷ cs) = []
fgets_lines (suc fuel) room (c ∷ cs) =
    let line = fgets room (c ∷ cs) in line.0 ∷ fgets_lines fuel room line.1

abbrev pub one_of : List ℕ → ℕ → Bool
one_of [] c = false
one_of (d ∷ ds) c = (c == d) || one_of ds c

-- The characters up to the next delimiter, and those after it.
abbrev pub token : List ℕ → List ℕ → List ℕ × List ℕ
token ds [] = ([], [])
token ds (c ∷ cs) = let rest = token ds cs in if one_of ds c then ([], cs) else (c ∷ rest.0, rest.1)

-- `strtok`: the delimiters in front are skipped. The second part is what the next call goes on with.
abbrev pub strtok : List ℕ → List ℕ → Option (List ℕ × List ℕ)
strtok ds [] = none
strtok ds (c ∷ cs) =
    let later = strtok ds cs in if one_of ds c then later else some (token ds (c ∷ cs))

abbrev is_digit : ℕ → Bool
is_digit c = leb b'0' c && leb c b'9'

abbrev digits_from : ℕ → List ℕ → ℕ
digits_from n [] = n
digits_from n (c ∷ cs) =
    let later = digits_from (n * 10 + c - b'0') cs in if is_digit c then later else n

abbrev signed : List ℕ → ℕ
signed [] = 0
signed (c ∷ cs) =
    if c == b'-'
    then (u16_mod - digits_from 0 cs % u16_mod) % u16_mod
    else if c == b'+'
    then digits_from 0 cs % u16_mod
    else digits_from 0 (c ∷ cs) % u16_mod

abbrev is_space : ℕ → Bool
is_space c = (c == 32) || (leb 9 c && leb c 13)

-- `(u16)atoi(s)`, for a number that fits an `int`.
abbrev pub atoi16 : List ℕ → ℕ
atoi16 [] = 0
atoi16 (c ∷ cs) = let later = atoi16 cs in if is_space c then later else signed (c ∷ cs)

-- A string without delimiters in front of one is a token.
pub token_lem :
    (ds xs rest : List ℕ) (d : ℕ)
    → All (λ c. one_of ds c ≡ false) xs
    → one_of ds d ≡ true
    → token ds (xs ++ (d ∷ rest)) ≡ (xs, rest)
token_lem ds [] rest d h end = rw end refl
token_lem ds (x ∷ xs) rest d h end = rw (h.0, token_lem ds xs rest d h.1 end) refl

pub strtok_lem :
    (ds xs rest : List ℕ) (x d : ℕ)
    → All (λ c. one_of ds c ≡ false) (x ∷ xs)
    → one_of ds d ≡ true
    → strtok ds (x ∷ xs ++ (d ∷ rest)) ≡ some (x ∷ xs, rest)
strtok_lem ds xs rest x d h end = rw (h.0, token_lem ds xs rest d h.1 end) refl

-- What is behind a number and is no part of it.
abbrev pub Ends : List ℕ → Type 0
Ends [] = Unit
Ends (c ∷ cs) = is_digit c ≡ false

digits_from-end : (n : ℕ) (rest : List ℕ) → Ends rest → digits_from n rest ≡ n
digits_from-end n [] h = refl
digits_from-end n (c ∷ cs) h = rw h refl

digits_from-step :
    (n d : ℕ) (cs : List ℕ) → d < 10 → digits_from n ((b'0' + d) ∷ cs) ≡ digits_from (n * 10 + d) cs
digits_from-step n d cs h =
    let digit : is_digit (b'0' + d) ≡ true = ground arith in
    rw digit (ap (λ m. digits_from m cs) (omega arith))

-- The value of a row of digits.
abbrev pub value : ℕ → List ℕ → ℕ
value n [] = n
value n (d ∷ ds) = value (n * 10 + d) ds

abbrev pub digit_text : List ℕ → List ℕ
digit_text [] = []
digit_text (d ∷ ds) = (b'0' + d) ∷ digit_text ds

digits_from-value :
    (n : ℕ) (ds rest : List ℕ)
    → All (λ d. d < 10) ds
    → Ends rest
    → digits_from n (digit_text ds ++ rest) ≡ value n ds
digits_from-value n [] rest h e = digits_from-end n rest e
digits_from-value n (d ∷ ds) rest h e =
    digits_from-step n d (digit_text ds ++ rest) h.0 ∙ digits_from-value (n * 10 + d) ds rest h.1 e

-- `atoi` reads a row of digits as its value.
pub atoi16-value :
    (d : ℕ) (ds rest : List ℕ)
    → All (λ x. x < 10) (d ∷ ds)
    → Ends rest
    → atoi16 (digit_text (d ∷ ds) ++ rest) ≡ value 0 (d ∷ ds) % u16_mod
atoi16-value d ds rest h e =
    let space : is_space (b'0' + d) ≡ false = ground (arith, h.0) in
    let minus : ((b'0' + d) == b'-') ≡ false = ground arith in
    let plus : ((b'0' + d) == b'+') ≡ false = ground arith in
    rw (space, minus, plus) (ap (λ n. n % u16_mod) (digits_from-value 0 (d ∷ ds) rest h e))

-- The decimal digits of a 16-bit number, without leading zeros.
abbrev pub digits16 : ℕ → List ℕ
digits16 n =
    if ltb n 10
    then n ∷ []
    else if ltb n 100
    then n / 10 ∷ n % 10 ∷ []
    else if ltb n 1000
    then n / 100 ∷ n / 10 % 10 ∷ n % 10 ∷ []
    else if ltb n 10000
    then n / 1000 ∷ n / 100 % 10 ∷ n / 10 % 10 ∷ n % 10 ∷ []
    else n / 10000 ∷ n / 1000 % 10 ∷ n / 100 % 10 ∷ n / 10 % 10 ∷ n % 10 ∷ []

abbrev pub decimal16 : ℕ → List ℕ
decimal16 n = digit_text (digits16 n)

-- A row of digits below 10 with the value of a number, the first apart.
abbrev IsRow : ℕ → List ℕ → Type 0
IsRow n ds =
    (d : ℕ) × (more : List ℕ) × (ds ≡ d ∷ more)
    × All (λ x. x < 10) (d ∷ more)
    × (value 0 (d ∷ more) ≡ n)

digits16-IsRow : (n : ℕ) → n < u16_mod → IsRow n (digits16 n)
digits16-IsRow n h = elim (Bool-cases (ltb n 10)) [
  | inl one ↦ rw one (n, [], refl, (ground arith, tt), omega arith)
  | inr two ↦ elim (Bool-cases (ltb n 100)) [
    | inl b ↦
        rw (two, b) (n / 10, n % 10 ∷ [], refl, (ground arith, (omega arith, tt)), omega arith)
    | inr three ↦ elim (Bool-cases (ltb n 1000)) [
      | inl b ↦
          rw (two, three, b)
            (
              n / 100,
              n / 10 % 10 ∷ n % 10 ∷ [],
              refl,
              (ground arith, (omega arith, (omega arith, tt))),
              omega arith,
            )
      | inr four ↦ elim (Bool-cases (ltb n 10000)) [
        | inl b ↦
            rw (two, three, four, b)
              (
                n / 1000,
                n / 100 % 10 ∷ n / 10 % 10 ∷ n % 10 ∷ [],
                refl,
                (ground arith, (omega arith, (omega arith, (omega arith, tt)))),
                omega arith,
              )
        | inr five ↦
            rw (two, three, four, five)
              (
                n / 10000,
                n / 1000 % 10 ∷ n / 100 % 10 ∷ n / 10 % 10 ∷ n % 10 ∷ [],
                refl,
                (omega arith, (omega arith, (omega arith, (omega arith, (omega arith, tt))))),
                omega arith,
              )
      ]
    ]
  ]
]

-- `atoi` reads back what was written.
pub atoi16-decimal16 :
    (n : ℕ) (rest : List ℕ) → n < u16_mod → Ends rest → atoi16 (decimal16 n ++ rest) ≡ n
atoi16-decimal16 n rest h e =
    let (d, more, row, small, same) = digits16-IsRow n h in
    ap (λ ds. atoi16 (digit_text ds ++ rest)) row ∙ atoi16-value d more rest small e ∙ omega arith

-- A line without a newline but the one at its end, and of at most `room` bytes, is taken whole.
abbrev pub IsLine : ℕ → List ℕ → Type 0
IsLine room [] = ⊥
IsLine zero (c ∷ cs) = ⊥
IsLine (suc room) (c ∷ []) = c ≡ b'\n'
IsLine (suc room) (c ∷ d ∷ cs) = ((c == b'\n') ≡ false) × IsLine room (d ∷ cs)

fgets-IsLine :
    (room : ℕ) (line rest : List ℕ) → IsLine room line → fgets room (line ++ rest) ≡ (line, rest)
fgets-IsLine room [] rest h = absurd h
fgets-IsLine zero (c ∷ cs) rest h = absurd h
fgets-IsLine (suc room) (c ∷ []) rest h = rw h refl
fgets-IsLine (suc room) (c ∷ d ∷ cs) rest h = rw (h.0, fgets-IsLine room (d ∷ cs) rest h.1) refl

abbrev pub joined_lines : List (List ℕ) → List ℕ
joined_lines [] = []
joined_lines (line ∷ more) = line ++ joined_lines more

-- The lines of a file are read back.
pub fgets_lines-joined_lines :
    (fuel room : ℕ) (lines : List (List ℕ))
    → All (IsLine room) lines
    → length (joined_lines lines) ≤ fuel
    → fgets_lines fuel room (joined_lines lines) ≡ lines
fgets_lines-joined_lines fuel room [] h enough = refl
fgets_lines-joined_lines fuel room ([] ∷ more) h enough = absurd h.0
fgets_lines-joined_lines zero room ((c ∷ cs) ∷ more) h enough = absurd (omega arith)
fgets_lines-joined_lines (suc fuel) room ((c ∷ cs) ∷ more) h enough =
    rw
      (
        fgets-IsLine room (c ∷ cs) (joined_lines more) h.0,
        fgets_lines-joined_lines fuel room more h.1
            (omega (arith, enough, length-append cs (joined_lines more))),
      )
      refl

IsLine-weaken : (r room : ℕ) (line : List ℕ) → r ≤ room → IsLine r line → IsLine room line
IsLine-weaken r room [] le h = absurd h
IsLine-weaken zero room (c ∷ cs) le h = absurd h
IsLine-weaken (suc r) zero (c ∷ cs) le h = absurd (omega arith)
IsLine-weaken (suc r) (suc room) (c ∷ []) le h = h
IsLine-weaken (suc r) (suc room) (c ∷ d ∷ cs) le h =
    (h.0, IsLine-weaken r room (d ∷ cs) (omega arith) h.1)

-- A text without a newline in front of a line.
pub IsLine-append :
    (room r : ℕ) (xs line : List ℕ)
    → All (λ c. (c == b'\n') ≡ false) xs
    → IsLine r line
    → length xs + r ≤ room
    → IsLine room (xs ++ line)
IsLine-append room r [] line plain h le = IsLine-weaken r room line (omega arith) h
IsLine-append zero r (x ∷ xs) line plain h le = absurd (omega arith)
IsLine-append (suc room) r (x ∷ []) [] plain h le = absurd h
IsLine-append (suc room) r (x ∷ []) (y ∷ line) plain h le =
    (plain.0, IsLine-weaken r room (y ∷ line) (omega arith) h)
IsLine-append (suc room) r (x ∷ y ∷ xs) line plain h le =
    (plain.0, IsLine-append room r (y ∷ xs) line plain.1 h (omega arith))

-- ===== src/Nat/Config/Rules.antt =====
-- The parts of a rule in the file that parse_config of 08-nat/nat.c reads, written and read.
use computer_net_ucas.Common.{
  length, length-append, sym, ap, ◌∙◌, ℕ, ◌+◌, ◌*◌, ◌^◌, ◌≤◌, ◌<◌, ◌≡◌, refl, true, false, some,
  List, [], ◌∷◌, ◌++◌, ◌==◌, All, All-append, arith,
}
use mathlib.Core.Path.{subst}
use mathlib.Core.List.{append_assoc, append-nil}
use computer_net_ucas.Text.{
  IsLine, IsLine-append, has_part, one_of, token, strtok, strtok_lem, decimal16, Ends,
  atoi16-decimal16,
}
use computer_net_ucas.Nat.{DnatRule}
use computer_net_ucas.Nat.Addresses.{decimal, dotted, ip_tr-dotted}
use computer_net_ucas.Nat.Config.{
  internal_word, external_word, rules_word, line_room, newline, arrow, colon, endpoint, rule_in,
}

-- An address of four bytes with a port.
pub record Endpoint : Type 0 where
  pub a : ℕ
  pub b : ℕ
  pub c : ℕ
  pub d : ℕ
  pub port : ℕ

abbrev pub IsEndpoint : Endpoint → Type 0
IsEndpoint e = (e.a < 256) × (e.b < 256) × (e.c < 256) × (e.d < 256) × (e.port < 65536)

abbrev pub address_of : Endpoint → ℕ
address_of e = e.a * 2 ^ 24 + e.b * 2 ^ 16 + e.c * 2 ^ 8 + e.d

abbrev pub net_text : Endpoint → List ℕ → List ℕ
net_text e tail = dotted e.a e.b e.c e.d ++ (b':' ∷ decimal16 e.port ++ tail)

-- The lines of a file, as the format has them.
abbrev pub internal_line : List ℕ → List ℕ
internal_line name = internal_word ++ (b':' ∷ b' ' ∷ name ++ newline)

abbrev pub external_line : List ℕ → List ℕ
external_line name = external_word ++ (b':' ∷ b' ' ∷ name ++ newline)

abbrev pub rule_line : Endpoint × Endpoint → List ℕ
rule_line (outer, inner) =
    rules_word
    ++ (b':' ∷ b' ' ∷ net_text outer [] ++ (b' ' ∷ b'-' ∷ b'>' ∷ b' ' ∷ net_text inner newline))

abbrev pub rule_of : Endpoint × Endpoint → DnatRule
rule_of (outer, inner) = record {
  external_ip = address_of outer;
  external_port = outer.port;
  internal_ip = address_of inner;
  internal_port = inner.port;
}

-- The characters of an address with its port.
abbrev pub IsNet : ℕ → Type 0
IsNet c = (b'.' ≤ c) × (c ≤ b':')

abbrev pub IsDot : ℕ → Type 0
IsDot c = (b'.' ≤ c) × (c ≤ b'9')

abbrev pub IsCons : List ℕ → Type 0
IsCons [] = ⊥
IsCons (x ∷ xs) = Unit

pub decimal-IsDot : (n : ℕ) → n < 256 → All IsDot (decimal n)
decimal-IsDot n h = ground arith

pub All-weaken : (P Q : ℕ → Type 0) (xs : List ℕ) → ((c : ℕ) → P c → Q c) → All P xs → All Q xs
All-weaken P Q [] f h = tt
All-weaken P Q (x ∷ xs) f h = (f x h.0, All-weaken P Q xs f h.1)

pub dotted-IsDot : (e : Endpoint) → IsEndpoint e → All IsDot (dotted e.a e.b e.c e.d)
dotted-IsDot e (ha, hb, hc, hd, hp) = All-append IsDot (decimal e.a) _ (decimal-IsDot e.a ha) (
  (omega arith, omega arith),
  All-append IsDot (decimal e.b) _ (decimal-IsDot e.b hb) (
    (omega arith, omega arith),
    All-append IsDot (decimal e.c) _ (decimal-IsDot e.c hc)
        ((omega arith, omega arith), decimal-IsDot e.d hd),
  ),
)

pub decimal16-IsDot : (n : ℕ) → n < 65536 → All IsDot (decimal16 n)
decimal16-IsDot n h = ground arith

pub decimal-IsCons : (n : ℕ) (rest : List ℕ) → IsCons (decimal n ++ rest)
decimal-IsCons n rest = ground arith

pub decimal16-IsCons : (n : ℕ) (rest : List ℕ) → IsCons (decimal16 n ++ rest)
decimal16-IsCons n rest = ground arith

-- A text without delimiters that is followed by one, and one that is the last.
pub strtok_front :
    (ds xs rest : List ℕ) (d : ℕ)
    → IsCons xs
    → All (λ c. one_of ds c ≡ false) xs
    → one_of ds d ≡ true
    → strtok ds (xs ++ (d ∷ rest)) ≡ some (xs, rest)
strtok_front ds [] rest d full h end = absurd full
strtok_front ds (x ∷ xs) rest d full h end = strtok_lem ds xs rest x d h end

pub token_last : (ds xs : List ℕ) → All (λ c. one_of ds c ≡ false) xs → token ds xs ≡ (xs, [])
token_last ds [] h = refl
token_last ds (x ∷ xs) h = rw (h.0, token_last ds xs h.1) refl

pub strtok_last :
    (ds xs : List ℕ) → IsCons xs → All (λ c. one_of ds c ≡ false) xs → strtok ds xs ≡ some (xs, [])
strtok_last ds [] full h = absurd full
strtok_last ds (x ∷ xs) full h = rw (h.0, token_last ds xs h.1) refl

pub has_part-false :
    (p : ℕ) (ps s : List ℕ) → All (λ c. (p == c) ≡ false) s → has_part (p ∷ ps) s ≡ false
has_part-false p ps [] h = refl
has_part-false p ps (c ∷ cs) h = rw h.0 (has_part-false p ps cs h.1)

pub dot_colon : (c : ℕ) → IsDot c → one_of colon c ≡ false
dot_colon c h = ground arith

pub net_arrow : (c : ℕ) → IsNet c → one_of arrow c ≡ false
net_arrow c h = ground arith

pub net_text-All :
    (P : ℕ → Type 0) (e : Endpoint) (tail : List ℕ)
    → IsEndpoint e
    → ((c : ℕ) → IsNet c → P c)
    → All P tail
    → All P (net_text e tail)
net_text-All P e tail h f plain =
    All-append P (dotted e.a e.b e.c e.d) (b':' ∷ decimal16 e.port ++ tail)
      (All-weaken IsDot P (dotted e.a e.b e.c e.d) (λ c d. f c (d.0, omega arith))
        (dotted-IsDot e h))
      (
        f b':' (omega arith, omega arith),
        All-append P (decimal16 e.port) tail
            (All-weaken IsDot P (decimal16 e.port) (λ c d. f c (d.0, omega arith))
              (decimal16-IsDot e.port h.4))
            plain,
      )

pub IsCons-append : (xs ys : List ℕ) → IsCons xs → IsCons (xs ++ ys)
IsCons-append [] ys h = absurd h
IsCons-append (x ∷ xs) ys h = tt

pub net_text-IsCons : (e : Endpoint) (tail : List ℕ) → IsCons (net_text e tail)
net_text-IsCons e tail = IsCons-append (dotted e.a e.b e.c e.d) _ (decimal-IsCons e.a _)

pub endpoint_lem :
    (e : Endpoint) (tail : List ℕ)
    → IsEndpoint e
    → Ends tail
    → All (λ c. one_of colon c ≡ false) tail
    → endpoint (net_text e tail) ≡ some (address_of e, e.port)
unfolding endpoint
endpoint_lem e tail h ends plain =
    let NoColon : ℕ → Type 0 = λ c. one_of colon c ≡ false in
    rw
      (
        strtok_front colon (dotted e.a e.b e.c e.d) (decimal16 e.port ++ tail) b':'
            (decimal-IsCons e.a _)
            (All-weaken IsDot NoColon (dotted e.a e.b e.c e.d) dot_colon (dotted-IsDot e h)) refl,
        strtok_last colon (decimal16 e.port ++ tail) (decimal16-IsCons e.port tail) (
            All-append NoColon (decimal16 e.port) tail
              (All-weaken IsDot NoColon (decimal16 e.port) dot_colon (decimal16-IsDot e.port h.4))
              plain),
        ip_tr-dotted e.a e.b e.c e.d h.0 h.1 h.2 h.3,
        atoi16-decimal16 e.port tail h.4 ends,
      )
      refl

pub rule_in_lem :
    (outer inner : Endpoint)
    → IsEndpoint outer
    → IsEndpoint inner
    → rule_in (rule_line (outer, inner)) ≡ some (rule_of (outer, inner))
unfolding rule_in
rule_in_lem outer inner ho hi =
    let NoArrow : ℕ → Type 0 = λ c. one_of arrow c ≡ false in
    rw
      (
        strtok_front arrow (net_text outer []) (b'-' ∷ b'>' ∷ b' ' ∷ net_text inner newline) b' '
            (net_text-IsCons outer []) (net_text-All NoArrow outer [] ho net_arrow tt) refl,
        strtok_last arrow (net_text inner newline) (net_text-IsCons inner newline)
            (net_text-All NoArrow inner newline hi net_arrow (refl, tt)),
        endpoint_lem outer [] ho tt tt,
        endpoint_lem inner newline hi refl (refl, tt),
      )
      refl

-- No character of a rule behind its first word is a letter.
pub rest_plain :
    (p : ℕ) (ps : List ℕ) (outer inner : Endpoint)
    → 62 < p
    → IsEndpoint outer
    → IsEndpoint inner
    → has_part (p ∷ ps) (net_text outer [] ++ (b' ' ∷ b'-' ∷ b'>' ∷ b' ' ∷ net_text inner newline))
      ≡ false
rest_plain p ps outer inner letter ho hi =
    let Other : ℕ → Type 0 = λ c. (p == c) ≡ false in
    let small : (c : ℕ) → IsNet c → Other c = λ c h. ground arith in
    has_part-false p ps _ (
      All-append Other (net_text outer []) _ (net_text-All Other outer [] ho small tt) (
        ground arith,
        (
          ground arith,
          (
            ground arith,
            (ground arith, net_text-All Other inner newline hi small (ground arith, tt)),
          ),
        ),
      ))

net_text-append : (e : Endpoint) (tail : List ℕ) → net_text e tail ≡ net_text e [] ++ tail
net_text-append e tail =
    let last = decimal16 e.port in
    ap (λ xs. dotted e.a e.b e.c e.d ++ (b':' ∷ xs ++ tail)) (sym (append-nil last))
    ∙ sym (append_assoc (dotted e.a e.b e.c e.d) (b':' ∷ last ++ []) tail)

length-decimal : (n : ℕ) → length (decimal n) ≤ 3
length-decimal n = ground arith

length-decimal16 : (n : ℕ) → length (decimal16 n) ≤ 5
length-decimal16 n = ground arith

length-net_text : (e : Endpoint) → length (net_text e []) ≤ 21
length-net_text e = omega (
  arith,
  length-append (decimal e.a) (b'.' ∷ decimal e.b ++ (b'.' ∷ decimal e.c ++ (b'.' ∷ decimal e.d))),
  length-append (decimal e.b) (b'.' ∷ decimal e.c ++ (b'.' ∷ decimal e.d)),
  length-append (decimal e.c) (b'.' ∷ decimal e.d),
  length-append (dotted e.a e.b e.c e.d) (b':' ∷ decimal16 e.port ++ []),
  length-append (decimal16 e.port) [],
  length-decimal e.a,
  length-decimal e.b,
  length-decimal e.c,
  length-decimal e.d,
  length-decimal16 e.port,
)

-- A rule fits the buffer of parse_config.
pub rule_line-IsLine :
    (outer inner : Endpoint)
    → IsEndpoint outer
    → IsEndpoint inner
    → IsLine line_room (rule_line (outer, inner))
rule_line-IsLine outer inner ho hi =
    let Plain : ℕ → Type 0 = λ c. (c == b'\n') ≡ false in
    let small : (c : ℕ) → IsNet c → Plain c = λ c h. ground arith in
    let last : IsLine 22 (net_text inner newline) =
      subst (IsLine 22) (sym (net_text-append inner newline)) (
        IsLine-append 22 1 (net_text inner []) newline (net_text-All Plain inner [] hi small tt)
          refl (omega (arith, length-net_text inner))) in
    let arrowed =
      IsLine-append 26 22 (b' ' ∷ b'-' ∷ b'>' ∷ b' ' ∷ []) (net_text inner newline)
        (refl, (refl, (refl, (refl, tt)))) last (omega arith) in
    let rule =
      IsLine-append 47 26 (net_text outer []) (b' ' ∷ b'-' ∷ b'>' ∷ b' ' ∷ net_text inner newline)
        (net_text-All Plain outer [] ho small tt) arrowed (omega (arith, length-net_text outer)) in
    IsLine-append line_room 47 (rules_word ++ (b':' ∷ b' ' ∷ []))
      (net_text outer [] ++ (b' ' ∷ b'-' ∷ b'>' ∷ b' ' ∷ net_text inner newline))
      (
        refl,
        (refl, (refl, (refl, (refl, (refl, (refl, (refl, (refl, (refl, (refl, (refl, tt))))))))))),
      )
      rule (omega arith)

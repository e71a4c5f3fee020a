-- ===== src/Nat/Config/RoundTrip.antt =====
-- What parse_config of 08-nat/nat.c reads from a file that was written in its format.
use computer_net_ucas.Common.{
  ◌>>=◌, ℕ, ◌≡◌, ◌≤◌, length, refl, sym, ap, ◌∙◌, false, Option, some, List, [], ◌∷◌, ◌++◌, ◌==◌,
  map, All, All-append, arith,
}
use mathlib.Core.List.{append_assoc, append-nil}
use computer_net_ucas.Device.{Device}
use computer_net_ucas.Text.{
  one_of, token, token_lem, joined_lines, fgets_lines-joined_lines, IsLine, IsLine-append,
}
use computer_net_ucas.Packet.{Iface}
use computer_net_ucas.Nat.Config.{
  internal_word, external_word, line_room, if_name_to_iface, NatStart, newline, name_in, parse_line,
  parse_lines, parse_config, blank, nat_init,
}
use computer_net_ucas.Nat.Config.Rules.{
  Endpoint, IsEndpoint, internal_line, external_line, rule_line, rule_of, has_part-false,
  rule_in_lem, rest_plain, rule_line-IsLine,
}

rule_step :
    (find : List ℕ → Option Iface) (outer inner : Endpoint) (s : NatStart)
    → IsEndpoint outer
    → IsEndpoint inner
    → parse_line find (rule_line (outer, inner)) s
      ≡ some (record s { rules = s.rules ++ (rule_of (outer, inner) ∷ []) })
unfolding parse_line
rule_step find outer inner s ho hi =
    rw
      (
        rest_plain 105
            (110 ∷ 116 ∷ 101 ∷ 114 ∷ 110 ∷ 97 ∷ 108 ∷ 45 ∷ 105 ∷ 102 ∷ 97 ∷ 99 ∷ 101 ∷ []) outer
            inner (omega arith) ho hi,
        rest_plain 101
            (120 ∷ 116 ∷ 101 ∷ 114 ∷ 110 ∷ 97 ∷ 108 ∷ 45 ∷ 105 ∷ 102 ∷ 97 ∷ 99 ∷ 101 ∷ []) outer
            inner (omega arith) ho hi,
        rule_in_lem outer inner ho hi,
      )
      refl

-- The name of an interface, without a newline and without the letter i.
abbrev pub IsName : List ℕ → Type 0
IsName = All (λ c. ((c == b'\n') ≡ false) × ((105 == c) ≡ false))

name_rest : (name : List ℕ) → IsName name → token newline (name ++ newline) ≡ (name, [])
name_rest name h = token_lem newline name [] b'\n' (line name h) refl
  where
    line : (xs : List ℕ) → IsName xs → All (λ c. one_of newline c ≡ false) xs
    line [] h = tt
    line (x ∷ xs) h = (rw h.0.0 refl, line xs h.1)

internal_step :
    (find : List ℕ → Option Iface) (name : List ℕ) (s : NatStart)
    → IsName name
    → parse_line find (internal_line name) s ≡ some (record s { internal_iface = find name })
unfolding parse_line name_in
internal_step find name s h = rw (name_rest name h) refl

external_step :
    (find : List ℕ → Option Iface) (name : List ℕ) (s : NatStart)
    → IsName name
    → parse_line find (external_line name) s ≡ some (record s { external_iface = find name })
unfolding parse_line name_in
external_step find name s h =
    rw
      (
        has_part-false 105
            (110 ∷ 116 ∷ 101 ∷ 114 ∷ 110 ∷ 97 ∷ 108 ∷ 45 ∷ 105 ∷ 102 ∷ 97 ∷ 99 ∷ 101 ∷ [])
            (name ++ newline)
            (All-append (λ c. (105 == c) ≡ false) name newline (plain name h) (refl, tt)),
        name_rest name h,
      )
      refl
  where
    plain : (xs : List ℕ) → IsName xs → All (λ c. (105 == c) ≡ false) xs
    plain [] h = tt
    plain (x ∷ xs) h = (h.0.1, plain xs h.1)

abbrev pub IsRuleText : Endpoint × Endpoint → Type 0
IsRuleText (outer, inner) = IsEndpoint outer × IsEndpoint inner

rules_step :
    (find : List ℕ → Option Iface) (rs : List (Endpoint × Endpoint)) (s : NatStart)
    → All IsRuleText rs
    → parse_lines find (map rule_line rs) s ≡ some (record s { rules = s.rules ++ map rule_of rs })
unfolding parse_lines
rules_step find [] s h = ap (λ xs. some (record s { rules = xs })) (sym (append-nil s.rules))
rules_step find ((outer, inner) ∷ rs) s h =
    let next : NatStart = record s { rules = s.rules ++ (rule_of (outer, inner) ∷ []) } in
    ap (λ o. o >>= parse_lines find (map rule_line rs)) (rule_step find outer inner s h.0.0 h.0.1)
    ∙ rules_step find rs next h.1
    ∙ ap (λ xs. some (record s { rules = xs }))
        (append_assoc s.rules (rule_of (outer, inner) ∷ []) (map rule_of rs))

abbrev config_lines : List ℕ → List ℕ → List (Endpoint × Endpoint) → List (List ℕ)
config_lines inside outside rs = internal_line inside ∷ external_line outside ∷ map rule_line rs

-- The bytes of a file with the internal interface, the external one and any number of rules.
abbrev pub config_file : List ℕ → List ℕ → List (Endpoint × Endpoint) → List ℕ
config_file inside outside rs = joined_lines (config_lines inside outside rs)

word_plain :
    All (λ c. (c == b'\n') ≡ false) (internal_word ++ (b':' ∷ b' ' ∷ []))
    × All (λ c. (c == b'\n') ≡ false) (external_word ++ (b':' ∷ b' ' ∷ []))
word_plain = (
  (
    refl,
    (
      refl,
      (
        refl,
        (
          refl,
          (
            refl,
            (
              refl,
              (refl, (refl, (refl, (refl, (refl, (refl, (refl, (refl, (refl, (refl, tt)))))))))),
            ),
          ),
        ),
      ),
    ),
  ),
  (
    refl,
    (
      refl,
      (
        refl,
        (
          refl,
          (
            refl,
            (
              refl,
              (refl, (refl, (refl, (refl, (refl, (refl, (refl, (refl, (refl, (refl, tt)))))))))),
            ),
          ),
        ),
      ),
    ),
  ),
)

config-IsLine :
    (inside outside : List ℕ) (rs : List (Endpoint × Endpoint))
    → IsName inside
    → IsName outside
    → length inside ≤ 82
    → length outside ≤ 82
    → All IsRuleText rs
    → All (IsLine line_room) (config_lines inside outside rs)
config-IsLine inside outside rs hi ho short_in short_out hr = (
  IsLine-append line_room 83 (internal_word ++ (b':' ∷ b' ' ∷ [])) (inside ++ newline) word_plain.0
      (IsLine-append 83 1 inside newline (plain inside hi) refl (omega arith)) (omega arith),
  (
    IsLine-append line_room 83 (external_word ++ (b':' ∷ b' ' ∷ [])) (outside ++ newline)
        word_plain.1 (IsLine-append 83 1 outside newline (plain outside ho) refl (omega arith))
        (omega arith),
    rules rs hr,
  ),
)
  where
    plain : (xs : List ℕ) → IsName xs → All (λ c. (c == b'\n') ≡ false) xs
    plain [] h = tt
    plain (x ∷ xs) h = (h.0.0, plain xs h.1)

    rules :
        (xs : List (Endpoint × Endpoint))
        → All IsRuleText xs
        → All (IsLine line_room) (map rule_line xs)
    rules [] h = tt
    rules ((outer, inner) ∷ xs) h = (rule_line-IsLine outer inner h.0.0 h.0.1, rules xs h.1)

-- A file with the internal interface, the external one and any number of rules, each with two addresses
-- of four bytes and two ports of 16 bits, is read as it was written: the interfaces are those that the
-- two names stand for, which have at most 82 bytes, no newline and no letter i in them, and the rules
-- are the ones of the file, in their order; nothing is mapped and no port is taken.
pub nat_init-rule_line :
    (devices : List Device) (inside outside : List ℕ) (rs : List (Endpoint × Endpoint))
    → IsName inside
    → IsName outside
    → length inside ≤ 82
    → length outside ≤ 82
    → All IsRuleText rs
    → nat_init devices (some (config_file inside outside rs))
      ≡ some (record {
        nat_mapping_list = λ i. [];
        internal_iface = if_name_to_iface devices inside;
        external_iface = if_name_to_iface devices outside;
        assigned_ports = λ i. false;
        rules = map rule_of rs;
      })
unfolding nat_init parse_config parse_lines
nat_init-rule_line devices inside outside rs hi ho short_in short_out hr =
    let find = if_name_to_iface devices in
    let one : NatStart = record blank { internal_iface = find inside } in
    let two : NatStart = record one { external_iface = find outside } in
    ap (λ lines. parse_lines find lines blank)
      (fgets_lines-joined_lines (length (config_file inside outside rs)) line_room
        (config_lines inside outside rs)
        (config-IsLine inside outside rs hi ho short_in short_out hr) (omega arith))
    ∙ ap (λ o. o >>= parse_lines find (external_line outside ∷ map rule_line rs))
        (internal_step find inside blank hi)
    ∙ ap (λ o. o >>= parse_lines find (map rule_line rs)) (external_step find outside one ho)
    ∙ rules_step find rs two hr

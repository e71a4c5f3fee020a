-- ===== src/Nat/Config.antt =====
-- parse_config, if_name_to_iface and nat_init of 08-nat/nat.c. The file is the list of its bytes, none
-- where it cannot be opened. A null pointer that is followed is none.
pub mod Rules
pub mod RoundTrip
use computer_net_ucas.Common.{
  ◌>>=◌, ℕ, ◌+◌, ◌-◌, Bool, true, false, Option, none, some, List, [], ◌∷◌, ◌++◌, if◌then◌else◌,
  drop, first, length,
}
use mathlib.Core.Option
use computer_net_ucas.Device.{Device, iface_of}
use computer_net_ucas.Rtable.{same_name}
use computer_net_ucas.Text.{fgets_lines, has_part, strtok, atoi16}
use computer_net_ucas.Packet.{Iface}
use computer_net_ucas.Nat.{DnatRule, NatMapping}
use computer_net_ucas.Nat.Table.{ip_tr}

-- `struct nat_table` as it is set up; an interface is none where the pointer is null.
pub record NatStart : Type 0 where
  pub nat_mapping_list : ℕ → List NatMapping
  pub internal_iface : Option Iface
  pub external_iface : Option Iface
  pub assigned_ports : ℕ → Bool
  pub rules : List DnatRule

-- "internal-iface", "external-iface" and "dnat-rules".
abbrev pub internal_word : List ℕ
internal_word = 105 ∷ 110 ∷ 116 ∷ 101 ∷ 114 ∷ 110 ∷ 97 ∷ 108 ∷ 45 ∷ 105 ∷ 102 ∷ 97 ∷ 99 ∷ 101 ∷ []

abbrev pub external_word : List ℕ
external_word = 101 ∷ 120 ∷ 116 ∷ 101 ∷ 114 ∷ 110 ∷ 97 ∷ 108 ∷ 45 ∷ 105 ∷ 102 ∷ 97 ∷ 99 ∷ 101 ∷ []

abbrev pub rules_word : List ℕ
rules_word = 100 ∷ 110 ∷ 97 ∷ 116 ∷ 45 ∷ 114 ∷ 117 ∷ 108 ∷ 101 ∷ 115 ∷ []

-- ": ", "\n", "-> " and ":".
abbrev pub colon_space : List ℕ
colon_space = b':' ∷ b' ' ∷ []

abbrev pub newline : List ℕ
newline = b'\n' ∷ []

abbrev pub arrow : List ℕ
arrow = b'-' ∷ b'>' ∷ b' ' ∷ []

abbrev pub colon : List ℕ
colon = b':' ∷ []

unfoldable pub if_name_to_iface : List Device → List ℕ → Option Iface
if_name_to_iface devices if_name =
    Option.map iface_of (first (λ d. same_name d.name if_name) devices)

-- The name of an interface in its line: the blank in front of it is passed over.
unfoldable pub name_in : List ℕ → Option (List ℕ)
name_in line = do word ← strtok colon_space line; name ← strtok newline word.1; some (drop 1 name.0)

-- An address with its port.
unfoldable pub endpoint : List ℕ → Option (ℕ × ℕ)
endpoint net = do ip ← strtok colon net; port ← strtok colon ip.1; some (ip_tr ip.0, atoi16 port.0)

unfoldable pub rule_in : List ℕ → Option DnatRule
unfolding endpoint
rule_in line = do
  word ← strtok colon_space line
  net1 ← strtok arrow word.1
  net2 ← strtok arrow net1.1
  outer ← endpoint net1.0
  inner ← endpoint net2.0
  some (record {
    external_ip = outer.0;
    external_port = outer.1;
    internal_ip = inner.0;
    internal_port = inner.1;
  })

-- The functions that read the file take `if_name_to_iface` on the list of interfaces as `find`.
unfoldable pub parse_line : (List ℕ → Option Iface) → List ℕ → NatStart → Option NatStart
unfolding name_in rule_in
parse_line find line s =
    if has_part internal_word line
    then (do name ← name_in line; some (record s { internal_iface = find name }))
    else if has_part external_word line
    then (do name ← name_in line; some (record s { external_iface = find name }))
    else if has_part rules_word line
    then (do rule ← rule_in line; some (record s { rules = s.rules ++ (rule ∷ []) }))
    else some s

unfoldable pub parse_lines : (List ℕ → Option Iface) → List (List ℕ) → NatStart → Option NatStart
unfolding parse_line
parse_lines find [] s = some s
parse_lines find (line ∷ lines) s = do t ← parse_line find line s; parse_lines find lines t

-- What `fgets` reads at most into `char line[100]`.
abbrev pub line_room : ℕ
line_room = 99

-- A file that cannot be opened leaves the table as it is.
unfoldable pub parse_config : (List ℕ → Option Iface) → Option (List ℕ) → NatStart → Option NatStart
unfolding parse_lines
parse_config find none s = some s
parse_config find (some bytes) s = parse_lines find (fgets_lines (length bytes) line_room bytes) s

abbrev pub blank : NatStart
blank = record {
  nat_mapping_list = λ i. [];
  internal_iface = none;
  external_iface = none;
  assigned_ports = λ i. false;
  rules = [];
}

unfoldable pub nat_init : List Device → Option (List ℕ) → Option NatStart
unfolding parse_config if_name_to_iface
nat_init devices file = parse_config (if_name_to_iface devices) file blank

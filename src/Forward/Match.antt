-- ===== src/Forward/Match.antt =====
-- The longest prefix match of 06-router/ip_base.c against its meaning.
use computer_net_ucas.Common.{
  ℕ, ◌≤◌, ◌≡◌, inl, inr, refl, Bool, true, false, ◌&&◌, Option, none, some, List, [], ◌∷◌, ltb,
  if◌then◌else◌, All, arith, Bool-cases,
}
use computer_net_ucas.Forward.{RtEntry, matches, beats, longest_from, longest_prefix_match}

-- A result for the table: none where no entry matches; else an entry that matches, and whose mask
-- is the greatest of those that do.
abbrev pub IsLongest : ℕ → Option RtEntry → List RtEntry → Type 0
IsLongest dst none es = All (λ e. matches dst e ≡ false) es
IsLongest dst (some r) es =
    (matches dst r ≡ true) × All (λ e. matches dst e ≡ true → e.mask ≤ r.mask) es

abbrev Holds : ℕ → Option RtEntry → Type 0
Holds dst none = Unit
Holds dst (some b) = matches dst b ≡ true

-- What the loop ends with is as good as what it starts with.
abbrev AtLeast : Option RtEntry → Option RtEntry → Type 0
AtLeast none r = Unit
AtLeast (some b) none = ⊥
AtLeast (some b) (some r) = b.mask ≤ r.mask

AtLeast-trans : (a b c : Option RtEntry) → AtLeast a b → AtLeast b c → AtLeast a c
AtLeast-trans none b c p q = tt
AtLeast-trans (some a) none c p q = absurd p
AtLeast-trans (some a) (some b) none p q = absurd q
AtLeast-trans (some a) (some b) (some c) p q = omega arith

AtLeast-refl : (a : Option RtEntry) → AtLeast a a
AtLeast-refl none = tt
AtLeast-refl (some a) = omega arith

-- One round of the loop.
choose-lem :
    (dst : ℕ) (e : RtEntry) (best : Option RtEntry)
    → Holds dst best
    → (let next : Option RtEntry = if matches dst e && beats e best then some e else best in
        Holds dst next × AtLeast best next × (matches dst e ≡ true → AtLeast (some e) next))
choose-lem dst e none h = split (matches dst e) refl
  where
    split :
        (m : Bool)
        → matches dst e ≡ m
        → (let next : Option RtEntry = if m && true then some e else none in
            Holds dst next × AtLeast none next × (m ≡ true → AtLeast (some e) next))
    split true hit = (hit, tt, λ _. omega arith)
    split false miss = (tt, tt, λ p. absurd (cc))
choose-lem dst e (some b) h = split (matches dst e) (ltb b.mask e.mask) refl refl
  where
    split :
        (m k : Bool)
        → matches dst e ≡ m
        → ltb b.mask e.mask ≡ k
        → (let next : Option RtEntry = if m && k then some e else some b in
            Holds dst next × AtLeast (some b) next × (m ≡ true → AtLeast (some e) next))
    split true true hit better = (hit, ground arith, λ _. omega arith)
    split true false hit worse = (h, omega arith, λ _. ground arith)
    split false k miss _ = (h, omega arith, λ p. absurd (cc))

IsLongest-cons :
    (dst : ℕ) (e : RtEntry) (r : Option RtEntry) (es : List RtEntry)
    → IsLongest dst r es
    → (matches dst e ≡ true → AtLeast (some e) r)
    → IsLongest dst r (e ∷ es)
IsLongest-cons dst e none es h covers = elim (Bool-cases (matches dst e)) [
  | inl hit ↦ absurd (covers hit)
  | inr miss ↦ (miss, h)
]
IsLongest-cons dst e (some r) es h covers = (h.0, (covers, h.1))

longest_from-lem :
    (dst : ℕ) (best : Option RtEntry) (es : List RtEntry)
    → Holds dst best
    → IsLongest dst (longest_from dst best es) es × AtLeast best (longest_from dst best es)
unfolding longest_from
longest_from-lem dst none [] h = (tt, tt)
longest_from-lem dst (some b) [] h = ((h, tt), omega arith)
longest_from-lem dst best (e ∷ es) h =
    let next : Option RtEntry = if matches dst e && beats e best then some e else best in
    let (holds, better, covers) = choose-lem dst e best h in
    let (longest, after) = longest_from-lem dst next es holds in
    (
      IsLongest-cons dst e (longest_from dst next es) es longest
          (λ hit. AtLeast-trans (some e) next (longest_from dst next es) (covers hit) after),
      AtLeast-trans best next (longest_from dst next es) better after,
    )

-- The match finds nothing exactly where no entry matches, and else an entry that matches with the
-- greatest mask.
pub longest_prefix_match_lem :
    (rtable : List RtEntry) (dst : ℕ) → IsLongest dst (longest_prefix_match rtable dst) rtable
unfolding longest_prefix_match
longest_prefix_match_lem rtable dst = (longest_from-lem dst none rtable tt).0

-- ===== src/Arp/Lookup.antt =====
-- The mapping from addresses to MAC addresses in 06-router/arpcache.c.
use mathlib.Core.Option
use computer_net_ucas.Common.{
  ℕ, zero, suc, ◌+◌, ◌-◌, ◌≤◌, ◌<◌, ◌≡◌, ◌≢◌, ◌⊎◌, inl, inr, refl, sym, ap, ◌∙◌, Bool, true, false,
  not, ◌&&◌, none, some, List, [], ◌∷◌, ltb, ◌==◌, if◌then◌else◌, length, set, get_elem?, drop,
  drop-step, some-eq, ==→eq, take, first, map, All, arith, Bool-cases, All-first,
}
use computer_net_ucas.Packet.{Iface}
use mathlib.Core.Path.{subst}
use computer_net_ucas.Arp.{
  CacheEntry, ArpCache, arp_entry_timeout, mac_of, holds, arpcache_lookup, find_slot,
  arpcache_insert, age, arpcache_sweep,
}

before-step :
    (f : CacheEntry → Bool) (e : CacheEntry) (es : List CacheEntry) (n m : ℕ)
    → n - 1 ≡ m
    → f e ≡ false
    → first f (take m es) ≡ none
    → first f (take n (e ∷ es)) ≡ none
before-step f e es zero m h miss rest = refl
before-step f e es (suc n) m h miss rest = let same : n ≡ m = omega arith in rw (miss, same) rest

-- No entry before the chosen slot holds the address.
find_slot-before :
    (ip4 i vid : ℕ) (es : List CacheEntry)
    → first (holds ip4) (take (find_slot ip4 i vid es - i) es) ≡ none
unfolding find_slot
find_slot-before ip4 i vid [] = nothing (vid - i)
  where
    nothing : (n : ℕ) → first (holds ip4) (take n []) ≡ none
    nothing zero = refl
    nothing (suc n) = refl
find_slot-before ip4 i vid (e ∷ es) =
    split e.valid (e.ip4 == ip4) refl refl
      (before-step (holds ip4) e es (find_slot ip4 (i + 1) i es - i)
        (find_slot ip4 (i + 1) i es - (i + 1)) (omega arith))
      (before-step (holds ip4) e es (find_slot ip4 (i + 1) vid es - i)
        (find_slot ip4 (i + 1) vid es - (i + 1)) (omega arith))
      (find_slot-before ip4 (i + 1) i es) (find_slot-before ip4 (i + 1) vid es)
  where
    split :
        (b k : Bool)
        → e.valid ≡ b
        → (e.ip4 == ip4) ≡ k
        → (holds ip4 e ≡ false
            → first (holds ip4) (take (find_slot ip4 (i + 1) i es - (i + 1)) es) ≡ none
            → first (holds ip4) (take (find_slot ip4 (i + 1) i es - i) (e ∷ es)) ≡ none)
        → (holds ip4 e ≡ false
            → first (holds ip4) (take (find_slot ip4 (i + 1) vid es - (i + 1)) es) ≡ none
            → first (holds ip4) (take (find_slot ip4 (i + 1) vid es - i) (e ∷ es)) ≡ none)
        → first (holds ip4) (take (find_slot ip4 (i + 1) i es - (i + 1)) es) ≡ none
        → first (holds ip4) (take (find_slot ip4 (i + 1) vid es - (i + 1)) es) ≡ none
        → first (holds ip4) (
            take
              ((if not b
                  then find_slot ip4 (i + 1) i es
                  else if k
                  then i
                  else find_slot ip4 (i + 1) vid es)
                - i)
              (e ∷ es))
          ≡ none
    split false k invalid _ free full hf hv = free (rw invalid refl) hf
    split true true valid hit free full hf hv = let same : i - i ≡ 0 = omega arith in rw same refl
    split true false valid miss free full hf hv = full (rw (valid, miss) refl) hv

find_slot-lt :
    (ip4 i vid : ℕ) (es : List CacheEntry)
    → vid < i + length es
    → find_slot ip4 i vid es < i + length es
unfolding find_slot
find_slot-lt ip4 i vid [] h = h
find_slot-lt ip4 i vid (e ∷ es) h =
    ground (arith, find_slot-lt ip4 (i + 1) i es, find_slot-lt ip4 (i + 1) vid es)

first-set :
    (f : CacheEntry → Bool) (es : List CacheEntry) (v : ℕ) (new : CacheEntry)
    → v < length es
    → first f (take v es) ≡ none
    → f new ≡ true
    → first f (set es v new) ≡ some new
first-set f [] v new h before hit = absurd (omega arith)
first-set f (e ∷ es) zero new h before hit = rw hit refl
first-set f (e ∷ es) (suc v) new h before hit = elim (Bool-cases (f e)) [
  | inl here ↦ absurd (none≢some e (sym (rw here at before)))
  | inr miss ↦ rw miss (first-set f es v new (omega arith) (rw miss at before) hit)
]
  where
    none≢some : (x : CacheEntry) → none ≡ some x → ⊥
    none≢some x p = cc

-- After an insertion, with a random number inside the array, the address is found with the MAC
-- address inserted, whatever the array held.
pub arpcache_insert-arpcache_lookup :
    (now rand ip4 mac : ℕ) (c : ArpCache)
    → rand < length c.entries
    → arpcache_lookup (arpcache_insert now rand ip4 mac c).1 ip4 ≡ some mac
unfolding arpcache_lookup arpcache_insert
arpcache_insert-arpcache_lookup now rand ip4 mac c h =
    rw
      (first-set (holds ip4) c.entries (find_slot ip4 0 rand c.entries)
        (record { ip4 = ip4; mac = mac; added = now; valid = true })
        (omega (arith, find_slot-lt ip4 0 rand c.entries (omega arith)))
        (subst (λ n. first (holds ip4) (take n c.entries) ≡ none) whole
          (find_slot-before ip4 0 rand c.entries))
        (==-same ip4))
      refl
  where
    whole : find_slot ip4 0 rand c.entries - 0 ≡ find_slot ip4 0 rand c.entries
    whole = omega arith

    ==-same : (n : ℕ) → (n == n) ≡ true
    ==-same n = ground arith

-- The entry in a slot, if there is one, does not hold the address.
abbrev Spares : List CacheEntry → ℕ → ℕ → Type 0
Spares all ip4 v = (e : CacheEntry) → get_elem? all v ≡ some e → holds ip4 e ≡ false

find_slot-Spares :
    (all : List CacheEntry) (ip4 other i vid : ℕ) (es : List CacheEntry)
    → other ≢ ip4
    → drop i all ≡ es
    → Spares all other vid ⊎ (x : CacheEntry) × (first (λ e. not e.valid) es ≡ some x)
    → Spares all other (find_slot ip4 i vid es)
unfolding find_slot
find_slot-Spares all ip4 other i vid [] diff at (inl good) = good
find_slot-Spares all ip4 other i vid [] diff at (inr (x, free)) = absurd (cc)
find_slot-Spares all ip4 other i vid (e ∷ es) diff at good =
    split e.valid (e.ip4 == ip4) refl refl good
      (λ g. find_slot-Spares all ip4 other (i + 1) i es diff (drop-step all i e es at).1 g)
      (λ g. find_slot-Spares all ip4 other (i + 1) vid es diff (drop-step all i e es at).1 g)
  where
    here : holds other e ≡ false → Spares all other i
    here miss x found =
        let same : e ≡ x = some-eq e x (sym (drop-step all i e es at).0 ∙ found) in
        subst (λ z. holds other z ≡ false) same miss

    split :
        (b k : Bool)
        → e.valid ≡ b
        → (e.ip4 == ip4) ≡ k
        → Spares all other vid
          ⊎ (x : CacheEntry) × ((if not b then some e else first (λ y. not y.valid) es) ≡ some x)
        → (Spares all other i ⊎ (x : CacheEntry) × (first (λ y. not y.valid) es ≡ some x)
            → Spares all other (find_slot ip4 (i + 1) i es))
        → (Spares all other vid ⊎ (x : CacheEntry) × (first (λ y. not y.valid) es ≡ some x)
            → Spares all other (find_slot ip4 (i + 1) vid es))
        → Spares all other (
            if not b
            then find_slot ip4 (i + 1) i es
            else if k
            then i
            else find_slot ip4 (i + 1) vid es)
    split false k invalid _ g free full = free (inl (here (rw invalid refl)))
    split true true valid hit g free full = here (rw valid (other_ip (==→eq e.ip4 ip4 hit)))
      where
        other_ip : e.ip4 ≡ ip4 → (e.ip4 == other) ≡ false
        other_ip p = ground arith
    split true false valid miss g free full = full g

first-set-other :
    (f : CacheEntry → Bool) (es : List CacheEntry) (v : ℕ) (new : CacheEntry)
    → ((e : CacheEntry) → get_elem? es v ≡ some e → f e ≡ false)
    → f new ≡ false
    → first f (set es v new) ≡ first f es
first-set-other f [] v new old miss = refl
first-set-other f (e ∷ es) zero new old miss = rw (miss, old e refl) refl
first-set-other f (e ∷ es) (suc v) new old miss =
    ap (λ r. if f e then some e else r) (first-set-other f es v new old miss)

-- With a free slot in the array, an insertion leaves the lookup of every other address as it was.
pub arpcache_insert-other :
    (now rand ip4 mac other : ℕ) (c : ArpCache) (free : CacheEntry)
    → other ≢ ip4
    → first (λ e. not e.valid) c.entries ≡ some free
    → arpcache_lookup (arpcache_insert now rand ip4 mac c).1 other ≡ arpcache_lookup c other
unfolding arpcache_lookup arpcache_insert
arpcache_insert-other now rand ip4 mac other c free diff h = ap (Option.map mac_of) (
    first-set-other (holds other) c.entries (find_slot ip4 0 rand c.entries)
      (record { ip4 = ip4; mac = mac; added = now; valid = true })
      (find_slot-Spares c.entries ip4 other 0 rand c.entries diff refl (inr (free, h)))
      (ground arith))

age-young : (now : ℕ) (e : CacheEntry) → now ≤ e.added + arp_entry_timeout → age now e ≡ e
age-young now e young =
    let test : ltb (e.added + arp_entry_timeout) now ≡ false = ground arith in split e.valid _ test
  where
    split : (b k : Bool) → k ≡ false → (if b && k then record e { valid = false } else e) ≡ e
    split true true h = absurd (cc)
    split true false h = refl
    split false k h = refl

age-miss : (now ip4 : ℕ) (e : CacheEntry) → holds ip4 e ≡ false → holds ip4 (age now e) ≡ false
age-miss now ip4 e h = split (e.valid && ltb (e.added + arp_entry_timeout) now)
  where
    split : (b : Bool) → holds ip4 (if b then record e { valid = false } else e) ≡ false
    split true = refl
    split false = h

-- A valid entry is not over the limit.
abbrev IsFresh : ℕ → CacheEntry → Type 0
IsFresh now e = e.valid ≡ true → now ≤ e.added + arp_entry_timeout

age-IsFresh : (now : ℕ) (e : CacheEntry) → IsFresh now (age now e)
age-IsFresh now e = split e.valid (ltb (e.added + arp_entry_timeout) now) refl refl
  where
    split :
        (b k : Bool)
        → e.valid ≡ b
        → ltb (e.added + arp_entry_timeout) now ≡ k
        → IsFresh now (if b && k then record e { valid = false } else e)
    split true true v old = λ h. absurd (cc)
    split true false v old = λ h. ground arith
    split false k v old = λ h. absurd (cc)

All-age : (now : ℕ) (es : List CacheEntry) → All (IsFresh now) (map (age now) es)
All-age now [] = tt
All-age now (e ∷ es) = (age-IsFresh now e, All-age now es)

-- What is found after a sweep is not older than the limit.
pub arpcache_sweep-fresh :
    (now ip4 : ℕ) (ifaces : List Iface) (c : ArpCache) (e : CacheEntry)
    → first (holds ip4) (arpcache_sweep now ifaces c).1.entries ≡ some e
    → now ≤ e.added + arp_entry_timeout
unfolding arpcache_sweep
arpcache_sweep-fresh now ip4 ifaces c e found =
    let hit =
      All-first (IsFresh now) (holds ip4) (map (age now) c.entries) e (All-age now c.entries)
        found in
    hit.0 (valid e.valid (e.ip4 == ip4) hit.1)
  where
    valid : (b k : Bool) → (b && k) ≡ true → b ≡ true
    valid true k h = refl
    valid false k h = absurd (cc)

-- An entry that is found before a sweep, and not older than the limit, is found after it.
pub arpcache_sweep-young :
    (now ip4 : ℕ) (ifaces : List Iface) (c : ArpCache) (e : CacheEntry)
    → first (holds ip4) c.entries ≡ some e
    → now ≤ e.added + arp_entry_timeout
    → first (holds ip4) (arpcache_sweep now ifaces c).1.entries ≡ some e
unfolding arpcache_sweep
arpcache_sweep-young now ip4 ifaces c e found young = keeps c.entries found
  where
    keeps :
        (es : List CacheEntry)
        → first (holds ip4) es ≡ some e
        → first (holds ip4) (map (age now) es) ≡ some e
    keeps [] p = absurd (cc)
    keeps (x ∷ xs) p = elim (Bool-cases (holds ip4 x)) [
      | inl hit ↦
          let same : x ≡ e = some-eq x e (rw hit at p) in
          let kept : age now x ≡ e =
            subst (λ z. age now z ≡ e) (sym same) (age-young now e young) in
          let found_here : holds ip4 e ≡ true = subst (λ z. holds ip4 z ≡ true) same hit in
          subst
            (λ z. (if holds ip4 z then some z else first (holds ip4) (map (age now) xs)) ≡ some e)
            (sym kept)
            (subst (λ b. (if b then some e else first (holds ip4) (map (age now) xs)) ≡ some e)
              (sym found_here) refl)
      | inr miss ↦
          subst
            (λ b. (if b then some (age now x) else first (holds ip4) (map (age now) xs)) ≡ some e)
            (sym (age-miss now ip4 x miss)) (keeps xs (rw miss at p))
    ]

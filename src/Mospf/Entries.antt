-- ===== src/Mospf/Entries.antt =====
-- The entries of the database of 07-mospf/mospf_daemon.c: one for a router, each with the array that
-- its message announces.
use mathlib.Core.Path.{subst}
use computer_net_ucas.Common.{
  some-eq, All, ℕ, zero, suc, ◌+◌, ◌-◌, ◌≤◌, ◌≡◌, inl, inr, some, List, [], ◌∷◌, ◌==◌,
  if◌then◌else◌, length, Bool-cases, Option-cases, arith, leb,
}
use computer_net_ucas.Word.{htonl}
use computer_net_ucas.Mospf.{Lsa, DbEntry, Daemon, Message, Send, lsas_of, mospf_database_timeout}
use computer_net_ucas.Mospf.Database.{entry_of, store_entry, handle_mospf_lsu, checking_database}
use computer_net_ucas.Mospf.Outcome.{Outcome, ignored, stored, handle_mospf_lsu-Outcome}

-- How many entries of the database are for a router.
abbrev pub holders : ℕ → List DbEntry → ℕ
holders id [] = 0
holders id (e ∷ es) = (if e.rid == id then 1 else 0) + holders id es

-- The array of an entry has as many advertisements as the entry says.
abbrev pub IsSized : DbEntry → Type 0
IsSized e = e.nadv ≡ length e.array

-- Storing an entry adds one only where there was none for its router.
store_entry-holders :
    (e : DbEntry) (id : ℕ) (es : List DbEntry) {es' : List DbEntry}
    → store_entry e es ≡ some es'
    → holders id es' ≤ holders id es + (if e.rid == id then 1 - holders id es else 0)
unfolding store_entry
store_entry-holders e id [] {es'} h = ground arith
store_entry-holders e id (x ∷ xs) {es'} h = elim (Option-cases (store_entry e xs)) [
  | inl stale ↦ ground arith
  | inr (xs', put) ↦ ground (arith, store_entry-holders e id xs put)
]

pub checking_database-holders :
    (id : ℕ) (es : List DbEntry) → holders id (checking_database es) ≤ holders id es
unfolding checking_database
checking_database-holders id [] = omega arith
checking_database-holders id (e ∷ es) = ground (arith, checking_database-holders id es)

store_entry-IsSized :
    (e : DbEntry) (es : List DbEntry) {es' : List DbEntry}
    → IsSized e
    → All IsSized es
    → store_entry e es ≡ some es'
    → All IsSized es'
unfolding store_entry
store_entry-IsSized e [] own h put = subst (All IsSized) (some-eq _ _ put) (own, tt)
store_entry-IsSized e (x ∷ xs) {es'} own h put = elim (Bool-cases (x.rid == e.rid)) [
  | inl same ↦ subst (All IsSized) (some-eq (e ∷ xs) es' (ground arith)) (own, h.1)
  | inr other ↦ elim (Option-cases (store_entry e xs)) [
    | inl stale ↦ absurd (ground arith)
    | inr (xs', more) ↦
        subst (All IsSized) (some-eq (x ∷ xs') es' (ground arith))
          (h.0, store_entry-IsSized e xs own h.1 more)
  ]
]

pub checking_database-IsSized :
    (es : List DbEntry) → All IsSized es → All IsSized (checking_database es)
unfolding checking_database
checking_database-IsSized [] h = h
checking_database-IsSized (e ∷ es) h = elim (Bool-cases (leb mospf_database_timeout e.alive)) [
  | inl old ↦ rw old (checking_database-IsSized es h.1)
  | inr young ↦ rw young (h.0, checking_database-IsSized es h.1)
]

lsas_of-length : (n : ℕ) (bs : List ℕ) (ads : List Lsa) → lsas_of n bs ≡ some ads → n ≡ length ads
unfolding lsas_of
lsas_of-length zero bs ads e = ground arith
lsas_of-length (suc n) (a ∷ b ∷ c ∷ d ∷ e ∷ f ∷ g ∷ h ∷ i ∷ j ∷ k ∷ l ∷ bs) ads q =
    elim (Option-cases (lsas_of n bs)) [
      | inl cut ↦ absurd (ground arith)
      | inr (rest, read) ↦ ground (arith, lsas_of-length n bs rest read)
    ]
lsas_of-length (suc n) bs ads e = absurd (cc)

pub handle_mospf_lsu-IsSized :
    (d : Daemon) (m : Message) (r : List Send × Daemon)
    → All IsSized d.mospf_db
    → Outcome d m r
    → All IsSized r.1.mospf_db
handle_mospf_lsu-IsSized d m r h (ignored same) = rw same h
handle_mospf_lsu-IsSized d m r h (stored u array db full alive read put same) = rw same (
    store_entry-IsSized (entry_of (htonl m.rid) u array) d.mospf_db
      (lsas_of-length (htonl u.nadv) u.rest array read) h put)

pub handle_mospf_lsu-holders :
    (d : Daemon) (m : Message) (r : List Send × Daemon) (id : ℕ)
    → holders id d.mospf_db ≤ 1
    → Outcome d m r
    → holders id r.1.mospf_db ≤ 1
handle_mospf_lsu-holders d m r id h (ignored same) = rw same h
handle_mospf_lsu-holders d m r id h (stored u array db full alive read put same) =
    rw same (ground (arith, store_entry-holders (entry_of (htonl m.rid) u array) id d.mospf_db put))

pub lsu-holders :
    (d : Daemon) (m : Message) (r : List Send × Daemon) (id : ℕ)
    → holders id d.mospf_db ≤ 1
    → handle_mospf_lsu d m ≡ some r
    → holders id r.1.mospf_db ≤ 1
lsu-holders d m r id h e = handle_mospf_lsu-holders d m r id h (handle_mospf_lsu-Outcome d m r e)

pub lsu-IsSized :
    (d : Daemon) (m : Message) (r : List Send × Daemon)
    → All IsSized d.mospf_db
    → handle_mospf_lsu d m ≡ some r
    → All IsSized r.1.mospf_db
lsu-IsSized d m r h e = handle_mospf_lsu-IsSized d m r h (handle_mospf_lsu-Outcome d m r e)

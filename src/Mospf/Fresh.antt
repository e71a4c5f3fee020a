-- ===== src/Mospf/Fresh.antt =====
-- Sequence numbers: what an update does to the database of 07-mospf/mospf_daemon.c, and that flooding
-- ends.
use computer_net_ucas.Common.{
  ℕ, ◌≤◌, ◌<◌, ◌≡◌, sym, refl, ==→eq, ◌⊎◌, inl, inr, false, Option, some, List, [], ◌∷◌, ◌==◌, leb,
  first, Bool-cases, Option-cases, arith,
}
use computer_net_ucas.Word.{htons, htonl}
use computer_net_ucas.Mospf.{DbEntry, Daemon, Message, Send, Lsu, lsu_of}
use computer_net_ucas.Mospf.Database.{entry_of, store_entry, is_stale, handle_mospf_lsu}
use computer_net_ucas.Mospf.Outcome.{Outcome, ignored, stored, handle_mospf_lsu-Outcome}

-- The entry that the database has for a router.
abbrev pub entry_for : ℕ → List DbEntry → Option DbEntry
entry_for id = first λ e. e.rid == id

pub store_entry-other :
    (e : DbEntry) (id : ℕ) (es : List DbEntry) {es' : List DbEntry}
    → (e.rid == id) ≡ false
    → store_entry e es ≡ some es'
    → entry_for id es' ≡ entry_for id es
unfolding store_entry
store_entry-other e id [] {es'} ne h = ground arith
store_entry-other e id (x ∷ xs) {es'} ne h = elim (Option-cases (store_entry e xs)) [
  | inl stale ↦ ground arith
  | inr (xs', put) ↦ ground (arith, store_entry-other e id xs ne put)
]

pub store_entry_self :
    (e : DbEntry) (es : List DbEntry) {es' : List DbEntry}
    → store_entry e es ≡ some es'
    → entry_for e.rid es' ≡ some e
unfolding store_entry
store_entry_self e [] {es'} h = ground arith
store_entry_self e (x ∷ xs) {es'} h = elim (Option-cases (store_entry e xs)) [
  | inl stale ↦ ground arith
  | inr (xs', put) ↦ ground (arith, store_entry_self e xs put)
]

store_entry-newer :
    (e x : DbEntry) (es : List DbEntry) {es' : List DbEntry}
    → store_entry e es ≡ some es'
    → entry_for e.rid es ≡ some x
    → x.seq < e.seq
unfolding store_entry
store_entry-newer e x [] {es'} h k = absurd (cc)
store_entry-newer e x (y ∷ ys) {es'} h k = elim (Option-cases (store_entry e ys)) [
  | inl stale ↦ ground arith
  | inr (ys', put) ↦ ground (arith, store_entry-newer e x ys put)
]

pub is_stale_lem :
    (rid seq : ℕ) (x : DbEntry) (es : List DbEntry)
    → entry_for rid es ≡ some x
    → is_stale rid seq es ≡ leb seq x.seq
unfolding is_stale
is_stale_lem rid seq x [] h = absurd (cc)
is_stale_lem rid seq x (y ∷ ys) h = ground (arith, is_stale_lem rid seq x ys)

-- A handled update never takes the database back: the entry that it has for a router stays or
-- gives way to one with a larger sequence number.
pub handle_mospf_lsu-monotone :
    (d : Daemon) (m : Message) (r : List Send × Daemon) (id : ℕ) (x : DbEntry)
    → handle_mospf_lsu d m ≡ some r
    → entry_for id d.mospf_db ≡ some x
    → (y : DbEntry) × (entry_for id r.1.mospf_db ≡ some y) × ((y ≡ x) ⊎ (x.seq < y.seq))
handle_mospf_lsu-monotone d m r id x e h = go (handle_mospf_lsu-Outcome d m r e)
  where
    go :
        Outcome d m r
        → (y : DbEntry) × (entry_for id r.1.mospf_db ≡ some y) × ((y ≡ x) ⊎ (x.seq < y.seq))
    go (ignored same) = (x, rw same h, inl refl)
    go (stored u array db full alive read put same) = elim (Bool-cases (htonl m.rid == id)) [
      | inl own ↦
          let e : DbEntry = entry_of (htonl m.rid) u array in
          let same_id : id ≡ htonl m.rid = sym (==→eq _ _ own) in
          (
            e,
            rw (same, same_id) (store_entry_self e d.mospf_db put),
            inr (store_entry-newer e x d.mospf_db put (rw (← same_id) h)),
          )
      | inr other ↦ (
        x,
        rw same (rw (store_entry-other (entry_of (htonl m.rid) u array) id d.mospf_db other put) h),
        inl refl,
      )
    ]

-- An update that is not newer than the entry for its router changes nothing and is passed on to
-- nobody, if the message is long enough to hold an update.
pub handle_mospf_lsu-stale :
    (d : Daemon) (m : Message) (u : Lsu) (x : DbEntry)
    → lsu_of m.body ≡ some u
    → entry_for (htonl m.rid) d.mospf_db ≡ some x
    → htons u.seq ≤ x.seq
    → handle_mospf_lsu d m ≡ some ([], d)
unfolding handle_mospf_lsu
handle_mospf_lsu-stale d m u x full h le =
    ground (arith, is_stale_lem (htonl m.rid) (htons u.seq) x d.mospf_db h)

-- Flooding ends: the same update handled a second time changes nothing and is passed on to nobody.
pub handle_mospf_lsu-twice :
    (d : Daemon) (m : Message) (r : List Send × Daemon)
    → handle_mospf_lsu d m ≡ some r
    → handle_mospf_lsu r.1 m ≡ some ([], r.1)
handle_mospf_lsu-twice d m r e = go (handle_mospf_lsu-Outcome d m r e)
  where
    go : Outcome d m r → handle_mospf_lsu r.1 m ≡ some ([], r.1)
    go (ignored same) = rw same (rw (← same) e)
    go (stored u array db full alive read put same) =
        let x : DbEntry = entry_of (htonl m.rid) u array in
        rw same (
          handle_mospf_lsu-stale (record d { mospf_db = db }) m u x full
            (store_entry_self x d.mospf_db put) (omega arith))

-- ===== src/Mospf/Database.antt =====
-- 07-mospf/mospf_daemon.c: the link state database and the messages received.
use computer_net_ucas.Common.{
  ℕ, ◌+◌, ◌-◌, ◌%◌, Bool, Option, none, some, List, [], ◌∷◌, ltb, leb, ◌==◌, if◌then◌else◌, set,
}
use computer_net_ucas.Word.{u8_mod, htons, htonl}
use computer_net_ucas.Mospf.{
  Lsa, DbEntry, Daemon, Message, Send, Lsu, mospf_version, mospf_type_hello, mospf_type_lsu,
  mospf_database_timeout, mospf_checksum, sign, lsu_of, lsas_of,
}
use computer_net_ucas.Mospf.Neighbours.{broadcast_lsu, handle_mospf_hello}

abbrev pub put_entry : DbEntry → Option (List DbEntry) → Option (List DbEntry)
put_entry e none = none
put_entry e (some es) = some (e ∷ es)

-- The database with an entry stored, in place of one for the same router or at the tail; none where
-- the entry there is as new.
unfoldable pub store_entry : DbEntry → List DbEntry → Option (List DbEntry)
store_entry e [] = some (e ∷ [])
store_entry e (x ∷ xs) =
    let rest = put_entry x (store_entry e xs) in
    if x.rid == e.rid then (if leb e.seq x.seq then none else some (e ∷ xs)) else rest

-- The update with its time to live taken down, and a fresh checksum.
abbrev pub relay : ℕ → Message → Message
relay ttl m = sign (record m { body = set m.body 2 ((ttl + u8_mod - 1) % u8_mod) })

abbrev pub entry_of : ℕ → Lsu → List Lsa → DbEntry
entry_of rid u array = record {
  rid = rid;
  seq = htons u.seq;
  nadv = htonl u.nadv;
  alive = 0;
  array = array;
}

-- `handle_mospf_lsu` without the call of `update_rtable`: the database changes exactly when that
-- call is made. None is a read past the end of the packet.
unfoldable pub store_lsu : Daemon → Message → Lsu → List Lsa → List Send × Daemon
unfolding store_entry
store_lsu d m u array = elim (store_entry (entry_of (htonl m.rid) u array) d.mospf_db) [
  | none ↦ ([], d)
  | some db ↦ (
    if ltb 1 u.ttl then broadcast_lsu d.ifaces (relay u.ttl m) (htonl m.rid) else [],
    record d { mospf_db = db },
  )
]

-- The entry that makes the update stale, if there is one; the array is read only where there is none.
unfoldable pub is_stale : ℕ → ℕ → List DbEntry → Bool
is_stale rid seq [] = Bool.false
is_stale rid seq (x ∷ xs) =
    let rest = is_stale rid seq xs in if x.rid == rid then leb seq x.seq else rest

unfoldable pub handle_mospf_lsu : Daemon → Message → Option (List Send × Daemon)
unfolding lsu_of lsas_of is_stale store_lsu
handle_mospf_lsu d m = elim (lsu_of m.body) [
  | none ↦ none
  | some u ↦
      if ltb u.ttl 1
      then some ([], d)
      else if is_stale (htonl m.rid) (htons u.seq) d.mospf_db
      then some ([], d)
      else elim (lsas_of (htonl u.nadv) u.rest) [
        | none ↦ none
        | some array ↦ some (store_lsu d m u array)
      ]
]

-- `handle_mospf_packet` on interface `k`, for an IP packet from `saddr`.
unfoldable pub handle_mospf_packet : Daemon → ℕ → ℕ → Message → Option (List Send × Daemon)
unfolding mospf_checksum handle_mospf_lsu handle_mospf_hello
handle_mospf_packet d k saddr m =
    if m.version == mospf_version
    then if m.checksum == mospf_checksum m
      then if htonl m.aid == d.area_id
        then if m.type == mospf_type_hello
          then handle_mospf_hello d k saddr m
          else if m.type == mospf_type_lsu
          then handle_mospf_lsu d m
          else some ([], d)
        else some ([], d)
      else some ([], d)
    else some ([], d)

-- One round of `checking_database_thread`.
unfoldable pub checking_database : List DbEntry → List DbEntry
checking_database [] = []
checking_database (e ∷ es) =
    let rest = checking_database es in
    if leb mospf_database_timeout e.alive then rest else record e { alive = e.alive + 1 } ∷ rest

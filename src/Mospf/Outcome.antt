-- ===== src/Mospf/Outcome.antt =====
-- What a link state update can do to the daemon, case by case.
use computer_net_ucas.Common.{
  ◌≡◌, inl, inr, false, some, List, [], if◌then◌else◌, Bool-cases, Option-cases, arith, ltb,
}
use computer_net_ucas.Word.{htons, htonl}
use computer_net_ucas.Mospf.{Lsa, DbEntry, Daemon, Message, Send, Lsu, lsu_of, lsas_of}
use computer_net_ucas.Mospf.Neighbours.{broadcast_lsu}
use computer_net_ucas.Mospf.Database.{
  entry_of, relay, store_entry, store_lsu, is_stale, handle_mospf_lsu,
}

-- The database after an update: as it was, or with the entry of the update stored.
pub data Outcome (d : Daemon) (m : Message) (r : List Send × Daemon) : Type 0 where
  ignored : r ≡ ([], d) → Outcome d m r
  stored :
      (u : Lsu) (array : List Lsa) (db : List DbEntry)
      → lsu_of m.body ≡ some u
      → ltb u.ttl 1 ≡ false
      → lsas_of (htonl u.nadv) u.rest ≡ some array
      → store_entry (entry_of (htonl m.rid) u array) d.mospf_db ≡ some db
      → r ≡ (
        if ltb 1 u.ttl then broadcast_lsu d.ifaces (relay u.ttl m) (htonl m.rid) else [],
        record d { mospf_db = db },
      )
      → Outcome d m r

pub handle_mospf_lsu-Outcome :
    (d : Daemon) (m : Message) (r : List Send × Daemon)
    → handle_mospf_lsu d m ≡ some r
    → Outcome d m r
unfolding handle_mospf_lsu store_lsu
handle_mospf_lsu-Outcome d m r e = elim (Option-cases (lsu_of m.body)) [
  | inl short ↦ absurd (ground arith)
  | inr (u, full) ↦ elim (Bool-cases (ltb u.ttl 1)) [
    | inl dead ↦ ignored (ground arith)
    | inr alive ↦ elim (Bool-cases (is_stale (htonl m.rid) (htons u.seq) d.mospf_db)) [
      | inl stale ↦ ignored (ground arith)
      | inr fresh ↦ elim (Option-cases (lsas_of (htonl u.nadv) u.rest)) [
        | inl cut ↦ absurd (ground arith)
        | inr (array, read) ↦
            elim (Option-cases (store_entry (entry_of (htonl m.rid) u array) d.mospf_db)) [
              | inl kept ↦ ignored (ground arith)
              | inr (db, put) ↦ stored u array db full alive read put (ground arith)
            ]
      ]
    ]
  ]
]

pub handle_mospf_lsu-ifaces :
    (d : Daemon) (m : Message) (r : List Send × Daemon)
    → handle_mospf_lsu d m ≡ some r
    → r.1.ifaces ≡ d.ifaces
unfolding handle_mospf_lsu store_lsu
handle_mospf_lsu-ifaces d m r e = ground arith

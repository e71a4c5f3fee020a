-- ===== src/Mospf/Reach.antt =====
-- The states that the routing daemon reaches, from any packets and any rounds of its threads.
use mathlib.Core.Path.{subst}
use computer_net_ucas.Common.{
  some-eq, All, ℕ, ◌≤◌, ◌≡◌, ◌≢◌, refl, none, some, List, [], ◌∷◌, map, arith,
}
use computer_net_ucas.Packet.{Iface}
use computer_net_ucas.Mospf.{Daemon, Message, Send}
use computer_net_ucas.Mospf.Neighbours.{
  hello_from, mospf_init, send_mospf_lsu, handle_mospf_hello, checking_nbr,
}
use computer_net_ucas.Mospf.Database.{handle_mospf_packet, checking_database}
use computer_net_ucas.Mospf.Entries.{
  holders, IsSized, checking_database-holders, checking_database-IsSized, lsu-holders, lsu-IsSized,
}
use computer_net_ucas.Mospf.Outcome.{handle_mospf_lsu-ifaces}
use computer_net_ucas.Mospf.Counts.{
  IsCounted, handle_mospf_hello-IsCounted, checking_nbr-ifaces, map-IsCounted, send_mospf_lsu-total,
  send_mospf_lsu-ifaces,
}

-- One step of one thread, under the lock.
pub data Step : Daemon → Daemon → Type 0 where
  packet :
      {d : Daemon} (k saddr : ℕ) (m : Message) (r : List Send × Daemon)
      → handle_mospf_packet d k saddr m ≡ some r
      → Step d r.1
  neighbours : {d : Daemon} (r : List Send × Daemon) → checking_nbr d ≡ some r → Step d r.1
  update : {d : Daemon} (r : List Send × Daemon) → send_mospf_lsu d ≡ some r → Step d r.1
  database : (d : Daemon) → Step d (record d { mospf_db = checking_database d.mospf_db })

pub data Reach (is : List (Iface × ℕ)) : Daemon → Type 0 where
  start : {d : Daemon} → mospf_init is ≡ some d → Reach is d
  next : {d d' : Daemon} → Reach is d → Step d d' → Reach is d'

handle_mospf_packet-IsCounted :
    (d : Daemon) (k saddr : ℕ) (m : Message) (r : List Send × Daemon)
    → All IsCounted d.ifaces
    → handle_mospf_packet d k saddr m ≡ some r
    → All IsCounted r.1.ifaces
unfolding handle_mospf_packet
handle_mospf_packet-IsCounted d k saddr m r h e =
    ground (arith, handle_mospf_hello-IsCounted d k saddr m r h, handle_mospf_lsu-ifaces d m r)

abbrev pub IsSound : Daemon → Type 0
IsSound d = All IsCounted d.ifaces × ((id : ℕ) → holders id d.mospf_db ≤ 1) × All IsSized d.mospf_db

handle_mospf_hello-db :
    (d : Daemon) (at saddr : ℕ) (m : Message) (r : List Send × Daemon)
    → handle_mospf_hello d at saddr m ≡ some r
    → r.1.mospf_db ≡ d.mospf_db
unfolding handle_mospf_hello hello_from send_mospf_lsu
handle_mospf_hello-db d at saddr m r e = ground arith

checking_nbr-db :
    (d : Daemon) (r : List Send × Daemon) → checking_nbr d ≡ some r → r.1.mospf_db ≡ d.mospf_db
unfolding checking_nbr send_mospf_lsu
checking_nbr-db d r e = ground arith

send_mospf_lsu-db :
    (d : Daemon) (r : List Send × Daemon) → send_mospf_lsu d ≡ some r → r.1.mospf_db ≡ d.mospf_db
unfolding send_mospf_lsu
send_mospf_lsu-db d r e = ground arith

packet-holders :
    (d : Daemon) (k saddr : ℕ) (m : Message) (r : List Send × Daemon) (id : ℕ)
    → holders id d.mospf_db ≤ 1
    → handle_mospf_packet d k saddr m ≡ some r
    → holders id r.1.mospf_db ≤ 1
unfolding handle_mospf_packet
packet-holders d k saddr m r id h e =
    ground (arith, handle_mospf_hello-db d k saddr m r, lsu-holders d m r id h)

packet-IsSized :
    (d : Daemon) (k saddr : ℕ) (m : Message) (r : List Send × Daemon)
    → All IsSized d.mospf_db
    → handle_mospf_packet d k saddr m ≡ some r
    → All IsSized r.1.mospf_db
unfolding handle_mospf_packet
packet-IsSized d k saddr m r h e =
    ground (arith, handle_mospf_hello-db d k saddr m r, lsu-IsSized d m r h)

Step-IsSound : {d d' : Daemon} → Step d d' → IsSound d → IsSound d'
Step-IsSound (packet k saddr m r e) h = (
  handle_mospf_packet-IsCounted _ k saddr m r h.0 e,
  λ id. packet-holders _ k saddr m r id (h.1 id) e,
  packet-IsSized _ k saddr m r h.2 e,
)
Step-IsSound {d} (neighbours r e) h = (
  rw (checking_nbr-ifaces d r e) (map-IsCounted d.ifaces h.0),
  λ id. rw (checking_nbr-db d r e) (h.1 id),
  rw (checking_nbr-db d r e) h.2,
)
Step-IsSound {d} (update r e) h = (
  rw (send_mospf_lsu-ifaces d r e) h.0,
  λ id. rw (send_mospf_lsu-db d r e) (h.1 id),
  rw (send_mospf_lsu-db d r e) h.2,
)
Step-IsSound (database d) h = (
  h.0,
  λ id. omega (arith, checking_database-holders id d.mospf_db, h.1 id),
  checking_database-IsSized d.mospf_db h.2,
)

alone-IsCounted :
    (xs : List (Iface × ℕ))
    → All IsCounted
        (map (λ (x : Iface × ℕ). record { iface = x.0; mask = x.1; num_nbr = 0; nbr_list = [] }) xs)
alone-IsCounted [] = tt
alone-IsCounted (x ∷ xs) = ((refl, λ id. omega arith), alone-IsCounted xs)

-- In every state that the daemon reaches from `mospf_init` through received packets and rounds of
-- its threads that send and age, the counter of each interface is the number of its neighbours, no
-- router is twice among the neighbours of an interface, and none has two entries in the database; the
-- array of an entry has as many advertisements as the entry says.
pub Reach-IsSound : (is : List (Iface × ℕ)) {d : Daemon} → Reach is d → IsSound d
unfolding mospf_init
Reach-IsSound [] (start e) = absurd (cc)
Reach-IsSound (x ∷ xs) (start e) =
    subst IsSound (some-eq _ _ e) (alone-IsCounted (x ∷ xs), λ id. omega arith, tt)
Reach-IsSound is (next r st) = Step-IsSound st (Reach-IsSound is r)

-- In every such state an update can be sent: the array is allocated for exactly the advertisements
-- that are written into it.
pub Reach-send_mospf_lsu :
    (is : List (Iface × ℕ)) {d : Daemon} → Reach is d → send_mospf_lsu d ≢ none
Reach-send_mospf_lsu is {d} r = send_mospf_lsu-total d (Reach-IsSound is r).0

-- ===== src/Mospf/Wire.antt =====
-- From a router to its neighbour: the messages of 07-mospf/mospf_proto.c as mospf_daemon.c reads them.
use computer_net_ucas.Common.{
  All, All-append, ℕ, ◌+◌, ◌*◌, ◌/◌, ◌%◌, ◌^◌, ◌<◌, ◌≡◌, refl, ◌∙◌, inl, inr, false, some, List, [],
  ◌∷◌, ◌==◌, length, map, Bool-cases, arith,
}
use computer_net_ucas.Word.{
  u16_mod, u32_mod, htons, htonl, htons-lt, htonl-lt, htons-htons, htonl-htonl,
}
use computer_net_ucas.Mospf.{
  Nbr, MospfIface, Lsa, DbEntry, Daemon, Message, Send, Lsu, load16, load32, lsa_bytes, lsu_of,
  lsas_of, mospf_init_lsu, sign, mospf_checksum, mospf_version, mospf_type_lsu, mospf_init_hdr,
}
use computer_net_ucas.Mospf.Database.{
  entry_of, store_entry, store_lsu, is_stale, handle_mospf_lsu, handle_mospf_packet, relay,
}
use computer_net_ucas.Mospf.Neighbours.{broadcast_lsu, nbr_lsa, array_of, lsu_message}
use computer_net_ucas.Mospf.Fresh.{entry_for, store_entry_self}

-- The fields of an advertisement are 32 bits wide.
abbrev pub IsWords : Lsa → Type 0
IsWords a = (a.network < u32_mod) × (a.mask < u32_mod) × (a.rid < u32_mod)

-- An advertisement in host byte order.
abbrev pub host : Lsa → Lsa
host a = record { network = htonl a.network; mask = htonl a.mask; rid = htonl a.rid }

pub load16_lem : (w : ℕ) → w < u16_mod → load16 (w % 256) (w / 256 % 256) ≡ w
load16_lem w h = omega arith

pub load32_lem :
    (w : ℕ)
    → w < u32_mod
    → load32 (w % 256) (w / 256 % 256) (w / 2 ^ 16 % 256) (w / 2 ^ 24 % 256) ≡ w
load32_lem w h = omega arith

-- The array of an update is read back as it was written, in host byte order.
pub lsas_of-lsa_bytes :
    (ads : List Lsa) → All IsWords ads → lsas_of (length ads) (lsa_bytes ads) ≡ some (map host ads)
unfolding lsas_of
lsas_of-lsa_bytes [] h = refl
lsas_of-lsa_bytes (a ∷ ads) h = rw (
  load32_lem a.network h.0.0,
  load32_lem a.mask h.0.1,
  load32_lem a.rid h.0.2,
  lsas_of-lsa_bytes ads h.1,
)

nbr_lsa-IsWords : (ns : List Nbr) → All IsWords (map nbr_lsa ns)
nbr_lsa-IsWords [] = tt
nbr_lsa-IsWords (n ∷ ns) =
    ((htonl-lt _, htonl-lt n.nbr_mask, htonl-lt n.nbr_id), nbr_lsa-IsWords ns)

array_of-IsWords : (is : List MospfIface) → All IsWords (array_of is)
unfolding array_of
array_of-IsWords [] = tt
array_of-IsWords (i ∷ is) = elim (Bool-cases (i.num_nbr == 0)) [
  | inl alone ↦ rw alone ((htonl-lt _, htonl-lt i.mask, omega arith), array_of-IsWords is)
  | inr linked ↦ rw linked (
      All-append IsWords (map nbr_lsa i.nbr_list) (array_of is) (nbr_lsa-IsWords i.nbr_list)
        (array_of-IsWords is))
]

lsu_of-mospf_init_lsu :
    (seq n : ℕ) (bs : List ℕ)
    → lsu_of (mospf_init_lsu seq n bs)
      ≡ some (record { seq = htons seq; ttl = 255; nadv = htonl n; rest = bs })
unfolding lsu_of
lsu_of-mospf_init_lsu seq n bs =
    rw (load16_lem (htons seq) (htons-lt seq), load32_lem (htonl n) (htonl-lt n))

-- An entry newer than the one for its router, if there is one, is stored.
abbrev pub IsNewer : ℕ → ℕ → List DbEntry → Type 0
IsNewer id seq db = (x : DbEntry) → entry_for id db ≡ some x → x.seq < seq

store_entry-total :
    (e : DbEntry) (es : List DbEntry)
    → IsNewer e.rid e.seq es
    → (es' : List DbEntry) × (store_entry e es ≡ some es')
unfolding store_entry
store_entry-total e [] h = (e ∷ [], refl)
store_entry-total e (x ∷ xs) h = elim (Bool-cases (x.rid == e.rid)) [
  | inl own ↦ (e ∷ xs, ground (arith, h x))
  | inr other ↦
      let (xs', put) = store_entry-total e xs (λ y k. h y (rw other k)) in (x ∷ xs', ground arith)
]

is_stale-newer : (id seq : ℕ) (es : List DbEntry) → IsNewer id seq es → is_stale id seq es ≡ false
unfolding is_stale
is_stale-newer id seq [] h = refl
is_stale-newer id seq (x ∷ xs) h = elim (Bool-cases (x.rid == id)) [
  | inl own ↦ ground (arith, h x)
  | inr other ↦ rw other (is_stale-newer id seq xs (λ y k. h y (rw other k)))
]

mospf_checksum-sign : (m : Message) → mospf_checksum (sign m) ≡ (sign m).checksum
unfolding mospf_checksum sign
mospf_checksum-sign m = refl

packet-accepted :
    (e : Daemon) (k saddr : ℕ) (m : Message)
    → m.version ≡ mospf_version
    → m.type ≡ mospf_type_lsu
    → mospf_checksum m ≡ m.checksum
    → htonl m.aid ≡ e.area_id
    → handle_mospf_packet e k saddr m ≡ handle_mospf_lsu e m
unfolding handle_mospf_packet
packet-accepted e k saddr m v t c a = rw (v, t, a) (ground (arith, c))

lsu-handled :
    (e : Daemon) (m : Message) (u : Lsu) (array : List Lsa) (db : List DbEntry)
    → lsu_of m.body ≡ some u
    → u.ttl ≡ 255
    → is_stale (htonl m.rid) (htons u.seq) e.mospf_db ≡ false
    → lsas_of (htonl u.nadv) u.rest ≡ some array
    → store_entry (entry_of (htonl m.rid) u array) e.mospf_db ≡ some db
    → handle_mospf_lsu e m
      ≡ some (broadcast_lsu e.ifaces (relay 255 m) (htonl m.rid), record e { mospf_db = db })
unfolding handle_mospf_lsu store_lsu
lsu-handled e m u array db full ttl fresh read put = ground arith

-- An update that a router sends to a router of its area, which has no entry for it or an older one,
-- is accepted: its sequence number and its advertisements are stored as the sender has them. The
-- numbers fit the fields of the message.
pub handle_mospf_packet-lsu_message :
    (d e : Daemon) (k saddr : ℕ)
    → d.area_id ≡ e.area_id
    → d.area_id < u32_mod
    → d.router_id < u32_mod
    → d.sequence_num < u16_mod
    → length (array_of d.ifaces) < u32_mod
    → IsNewer d.router_id d.sequence_num e.mospf_db
    → (r : List Send × Daemon) × (handle_mospf_packet e k saddr (lsu_message d (array_of d.ifaces))
        ≡ some r)
      × (entry_for d.router_id r.1.mospf_db
          ≡ some (record {
            rid = d.router_id;
            seq = d.sequence_num;
            nadv = length (array_of d.ifaces);
            alive = 0;
            array = map host (array_of d.ifaces);
          }))
unfolding sign
handle_mospf_packet-lsu_message d e k saddr same area id seq few newer =
    let ads = array_of d.ifaces in
    let body = mospf_init_lsu d.sequence_num (length ads) (lsa_bytes ads) in
    let bare = mospf_init_hdr mospf_type_lsu (24 + 12 * length ads) d.router_id d.area_id body in
    let m : Message = sign bare in
    let x : DbEntry = record {
      rid = d.router_id;
      seq = d.sequence_num;
      nadv = length ads;
      alive = 0;
      array = map host ads;
    } in
    let u : Lsu = record {
      seq = htons d.sequence_num;
      ttl = 255;
      nadv = htonl (length ads);
      rest = lsa_bytes ads;
    } in
    let (db, put) = store_entry-total x e.mospf_db newer in
    let out = broadcast_lsu e.ifaces (relay 255 m) (htonl m.rid) in
    (
      (out, record e { mospf_db = db }),
      packet-accepted e k saddr m refl refl (mospf_checksum-sign bare)
            (htonl-htonl d.area_id area ∙ same)
          ∙ lsu-handled e m u (map host ads) db
              (lsu_of-mospf_init_lsu d.sequence_num (length ads) (lsa_bytes ads)) refl
              (rw (htonl-htonl d.router_id id, htons-htons d.sequence_num seq)
                (is_stale-newer d.router_id d.sequence_num e.mospf_db newer))
              (rw (htonl-htonl (length ads) few)
                (lsas_of-lsa_bytes ads (array_of-IsWords d.ifaces)))
              (rw
                (
                  htonl-htonl d.router_id id,
                  htons-htons d.sequence_num seq,
                  htonl-htonl (length ads) few,
                )
                put),
      store_entry_self x e.mospf_db put,
    )

-- ===== src/Store/Peers.antt =====
-- internal/store/peers.go, and of reality.go the credentials of the peers.
mod Tests
pub mod Patch
pub mod Deletion
pub mod Kept
pub mod Narrow
pub mod Rotation
pub mod Runtime
pub mod Lookup
pub mod Written
pub mod Access
pub mod Consistent
pub mod Patched
pub mod Revoked
pub mod Snapshot
use razdacha.Prelude.{
  ℕ, suc, Bool, true, false, not, ◌&&◌, ◌||◌, List, [], ◌∷◌, ◌++◌, map, String, ◌==◌, Option, none,
  some, ◌+◌, leb, eqb, if◌then◌else◌, any, length,
}
use razdacha.Store.Text.{contains, trim_space}
use razdacha.Store.Model.{
  Error, Result, ok, err, Rule, Peer, Tunnel, Credential, is_empty, scope_selected, validate_peer,
}
use razdacha.Store.Db.{Db, Tx, ◌>>=◌, ◌>>◌, pure, raise, check, transaction}
use razdacha.Store.Tables.{order_by_priority, check_affected}

-- `validatePeerEgress`.
unfoldable pub validate_peer_egress : Option String → Tx (Unit {0})
unfolding any
validate_peer_egress none db = ok (tt, db)
validate_peer_egress (some id) db =
    if trim_space id == ""
    then err Error.invalid
    else if any (λ t. t.id == id) db.tunnels
    then ok (tt, db)
    else err Error.invalid

-- Another peer has the public key or the address.
unfoldable pub peer_clash : Peer → Peer → Bool
peer_clash p q = (q.public_key == p.public_key) || (q.address == p.address)

-- The foreign key of the exit of a peer.
unfoldable pub egress_exists : List Tunnel → Option String → Bool
unfolding any
egress_exists ts none = true
egress_exists ts (some id) = any (λ t. t.id == id) ts

-- INSERT INTO peers; the table is read in the order of creation, which is not modelled here.
unfoldable pub insert_peer : Peer → Tx (Unit {0})
unfolding any peer_clash
insert_peer p db =
    if any (λ q. (q.id == p.id) || peer_clash p q) db.peers
    then err Error.unique
    else if not (egress_exists db.tunnels p.egress_tunnel_id)
    then err Error.foreign_key
    else ok (tt, record db { peers = db.peers ++ p ∷ [] })

-- UPDATE peers SET … WHERE id = ?, with whether a row was affected.
unfoldable pub overwrite_peer : Peer → Peer → Peer
overwrite_peer p old =
    if old.id == p.id
    then record p {
      id = old.id;
      created_at = old.created_at;
      reality_credential_id = old.reality_credential_id;
      reality_revision = old.reality_revision;
    }
    else old

unfoldable pub update_peer_row : Peer → Tx Bool
unfolding any peer_clash overwrite_peer
update_peer_row p db =
    if any (λ q. q.id == p.id) db.peers && any (λ q. not (q.id == p.id) && peer_clash p q) db.peers
    then err Error.unique
    else if any (λ q. q.id == p.id) db.peers && not (egress_exists db.tunnels p.egress_tunnel_id)
    then err Error.foreign_key
    else ok
        (any (λ q. q.id == p.id) db.peers, record db { peers = map (overwrite_peer p) db.peers })

-- `isUniqueViolation` and `peerConflictErr`.
unfoldable pub wrap_peer_write_err : {A : Type 0} → Tx A → Tx A
wrap_peer_write_err write db = elim (write db) [ err Error.unique ↦ err Error.invalid | r ↦ r ]

-- SELECT … FROM peers WHERE id = ?.
unfoldable pub find_peer : List Peer → String → Option Peer
find_peer [] id = none
find_peer (p ∷ ps) id = let rest = find_peer ps id in if p.id == id then some p else rest

unfoldable pub select_peer : String → Tx Peer
select_peer id db = elim (find_peer db.peers id) [
  | none ↦ err Error.not_found
  | some p ↦ ok (p, db)
]

-- `ensurePeerReality`; the arguments are the two values of `newID()`.
unfoldable pub insert_credential : Credential → Tx (Unit {0})
unfolding any
insert_credential c db =
    if any
      (λ d. (d.peer_id == c.peer_id) || (d.credential_id == c.credential_id) || (d.uuid == c.uuid))
      db.credentials
    then err Error.unique
    else if not (any (λ p. p.id == c.peer_id) db.peers)
    then err Error.foreign_key
    else ok (tt, record db { credentials = db.credentials ++ c ∷ [] })

unfoldable pub record_admission : String → ℕ → String → Peer → Peer
record_admission credential revision id p =
    if p.id == id
    then record p { reality_credential_id = credential; reality_revision = revision }
    else p

unfoldable pub ensure_peer_reality : String → String → Peer → Tx Peer
ensure_peer_reality credential uuid p =
    if not (p.reality_credential_id == "") && leb 1 p.reality_revision
    then pure p
    else insert_credential
        (record { peer_id = p.id; credential_id = credential; revision = 1; uuid = uuid })
      >> λ db. ok (
        record p { reality_credential_id = credential; reality_revision = 1 },
        record db { peers = map (record_admission credential 1 p.id) db.peers },
      )

-- The values that `CreatePeer` makes itself: three of `newID()`, and the time.
pub record Fresh : Type 0 where
  pub id : String
  pub credential : String
  pub uuid : String
  pub now : ℕ

unfoldable pub prepare_peer : Fresh → Peer → Peer
prepare_peer fresh p = record p {
  reality_credential_id = "";
  reality_revision = 0;
  id = if p.id == "" then fresh.id else p.id;
  created_at = elim p.created_at [ none ↦ some fresh.now | some at ↦ some at ];
}

-- The transaction of `CreatePeer`, and `CreatePeer`.
unfoldable pub create_peer_tx : Fresh → Peer → Tx Peer
create_peer_tx fresh p = do
  validate_peer_egress p.egress_tunnel_id
  wrap_peer_write_err (insert_peer p)
  if p.reality_enabled then ensure_peer_reality fresh.credential fresh.uuid p else pure p

unfoldable pub create_peer : Fresh → Peer → Db → Result Peer × Db
create_peer fresh p db = elim (validate_peer p) [
  | some e ↦ (err e, db)
  | none ↦ transaction (create_peer_tx fresh (prepare_peer fresh p)) db
]

-- `==` on Booleans.
abbrev pub eqb_Bool : Bool → Bool → Bool
eqb_Bool true b = b
eqb_Bool false b = not b

-- `updatePeer`.
unfoldable pub update_peer_tx : Peer → Tx (Unit {0})
update_peer_tx p = do
  validate_peer_egress p.egress_tunnel_id
  affected ← wrap_peer_write_err (update_peer_row p)
  check_affected affected

-- `UpdatePeer`: a change of the public access of a client must not come this way.
unfoldable pub update_peer : Peer → Db → Result (Unit {0}) × Db
update_peer p db = elim (validate_peer p) [
  | some e ↦ (err e, db)
  | none ↦
      if p.id == ""
      then (err Error.invalid, db)
      else transaction
          (do
            old ← select_peer p.id
            check (
                if (old.reality_enabled || p.reality_enabled)
                  && (not (eqb_Bool old.reality_enabled p.reality_enabled)
                      || not (eqb_Bool old.enabled p.enabled)
                      || not (eqb_Bool old.wire_guard_disabled p.wire_guard_disabled))
                then some Error.invalid
                else none)
            update_peer_tx p)
          db
]

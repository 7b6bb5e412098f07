-- ===== src/Store/Peers/Written.antt =====
-- internal/store/peers.go and reality.go: what the writes of a transaction that succeeds leave.
use razdacha.Prelude.{
  ℕ, ◌+◌, if◌then◌else◌, ◌≡◌, ◌∙◌, ap, Bool, true, false, [], ◌∷◌, ◌++◌, map, Option, none, some,
  String, arith,
}
use razdacha.Store.Model.{Peer, Credential, Error, Result, ok, err}
use razdacha.Store.Db.{Db, Tx, bind-eq-ok, ◌>>=◌, ◌>>◌, pure, check}
use razdacha.Store.Tables.{check_affected}
use razdacha.Store.Peers.Deletion.{
  PeerDeletion, without_peer, without_credential, delete_peer_row, prune_all_rules,
}
use razdacha.Store.Peers.Patch.{
  rotate_credential, with_revision, store_rotation, stale, rotate_reality_tx,
}
use razdacha.Store.Peers.Rotation.{select_peer-ok}
use razdacha.Store.Peers.{
  select_peer, find_peer, overwrite_peer, update_peer_row, update_peer_tx, wrap_peer_write_err,
  validate_peer_egress, insert_credential,
}

pub insert_credential-ok :
    (c : Credential) (db after : Db) {u : Unit {0}}
    → insert_credential c db ≡ ok (u, after)
    → after ≡ record db { credentials = db.credentials ++ c ∷ [] }
unfolding insert_credential
insert_credential-ok c db after h = ground arith

pub wrap_peer_write_err-ok :
    {A : Type 0} (write : Tx A) (db : Db) {r : A × Db}
    → wrap_peer_write_err write db ≡ ok r
    → write db ≡ ok r
unfolding wrap_peer_write_err
wrap_peer_write_err-ok {A} write db {r} h = go (write db) h
  where
    go :
        (t : Result (A × Db))
        → (elim t as (λ _. Result (A × Db)) [ err Error.unique ↦ err Error.invalid | s ↦ s ]) ≡ ok r
        → t ≡ ok r
    go (ok x) h = h
    go (err Error.unique) h = cc
    go (err e) h = cc

update_peer_row-ok :
    (p : Peer) (db after : Db) {b : Bool}
    → update_peer_row p db ≡ ok (b, after)
    → after ≡ record db { peers = map (overwrite_peer p) db.peers }
unfolding update_peer_row
update_peer_row-ok p db after h = ground arith

pub validate_peer_egress-ok :
    (id : Option String) (db after : Db) {u : Unit {0}}
    → validate_peer_egress id db ≡ ok (u, after)
    → after ≡ db
unfolding validate_peer_egress
validate_peer_egress-ok none db after h = ground arith
validate_peer_egress-ok (some id) db after h = ground arith

pub check_affected-ok :
    (b : Bool) (db after : Db) {u : Unit {0}} → check_affected b db ≡ ok (u, after) → after ≡ db
unfolding check_affected
check_affected-ok true db after h = ground arith
check_affected-ok false db after h = cc

pub update_peer_tx-ok :
    (p : Peer) (db after : Db) {u : Unit {0}}
    → update_peer_tx p db ≡ ok (u, after)
    → after ≡ record db { peers = map (overwrite_peer p) db.peers }
unfolding update_peer_tx
update_peer_tx-ok p db after h =
    let (_, db1, e1, h1) = bind-eq-ok (validate_peer_egress p.egress_tunnel_id) _ db h in
    let (b, db2, e2, h2) =
      bind-eq-ok (wrap_peer_write_err (update_peer_row p)) check_affected db1 h1 in
    let d1 = validate_peer_egress-ok p.egress_tunnel_id db db1 e1 in
    let d2 =
      update_peer_row-ok p db1 db2 {b = b} (wrap_peer_write_err-ok (update_peer_row p) db1 e2) in
    let d3 = check_affected-ok b db2 after h2 in
    d3 ∙ d2 ∙ ap (λ (t : Db). record t { peers = map (overwrite_peer p) t.peers }) d1

pub prune_all_rules-ok :
    (db : Db) {x : PeerDeletion} {after : Db}
    → prune_all_rules db ≡ ok (x, after)
    → (after.peers ≡ db.peers) × (after.credentials ≡ db.credentials)
unfolding prune_all_rules
prune_all_rules-ok db h = (ground arith, ground arith)

-- The body of the transaction of DeletePeerWithEffects.
abbrev pub delete_peer_tx : String → Tx PeerDeletion
delete_peer_tx id = do affected ← delete_peer_row id; check_affected affected; prune_all_rules

pub delete_peer_tx-ok :
    (id : String) (x : PeerDeletion) (db after : Db)
    → delete_peer_tx id db ≡ ok (x, after)
    → (after.peers ≡ without_peer id db.peers)
      × (after.credentials ≡ without_credential id db.credentials)
unfolding delete_peer_row
delete_peer_tx-ok id x db after e =
    let (b, db1, e1, h1) =
      bind-eq-ok (delete_peer_row id) (λ affected. check_affected affected >> prune_all_rules) db
        e in
    let (_, db2, e2, h2) = bind-eq-ok (check_affected b) (λ _. prune_all_rules) db1 h1 in
    let d = check_affected-ok b db1 db2 e2 in
    let (ps, cs) = prune_all_rules-ok db2 {x = x} {after = after} h2 in
    let ps1 : db1.peers ≡ without_peer id db.peers = ground arith in
    let cs1 : db1.credentials ≡ without_credential id db.credentials = ground arith in
    (ps ∙ ap (λ (t : Db). t.peers) d ∙ ps1, cs ∙ ap (λ (t : Db). t.credentials) d ∙ cs1)

pub check-ok :
    (o : Option Error) (db after : Db) {u : Unit {0}} → check o db ≡ ok (u, after) → after ≡ db
check-ok none db after h = ground arith
check-ok (some e) db after h = cc

-- The transaction of RotateReality after its first read.
abbrev rotate : String → ℕ → Peer → Tx Peer
rotate uuid expected old = do
  check (if stale expected old then some Error.conflict else none)
  let p = record old { reality_revision = old.reality_revision + 1 }
  store_rotation uuid p
  pure p

store_rotation-all :
    (uuid : String) (p : Peer) (db after : Db) {u : Unit {0}}
    → store_rotation uuid p db ≡ ok (u, after)
    → after ≡ record db {
      credentials = map (rotate_credential uuid p) db.credentials;
      peers = map (with_revision p.reality_revision p.id) db.peers;
    }
unfolding store_rotation
store_rotation-all uuid p db after h = ground arith

-- The database after a rotation of the peer that was read.
abbrev pub rotated_tables : String → Peer → Db → Db
rotated_tables uuid old db =
    let n = old.reality_revision + 1 in
    record db {
      credentials =
          map (rotate_credential uuid (record old { reality_revision = n })) db.credentials;
      peers = map (with_revision n old.id) db.peers;
    }

rotate-ok :
    (uuid : String) (expected : ℕ) (old x : Peer) (db after : Db)
    → rotate uuid expected old db ≡ ok (x, after)
    → after ≡ rotated_tables uuid old db
rotate-ok uuid expected old x db after e =
    let p = record old { reality_revision = old.reality_revision + 1 } in
    let (_, db1, e1, h1) =
      bind-eq-ok (check (if stale expected old then some Error.conflict else none))
        (λ _. store_rotation uuid p >> pure p) db e in
    let (_, db2, e2, h2) = bind-eq-ok (store_rotation uuid p) (λ _. pure p) db1 h1 in
    let d1 = check-ok (if stale expected old then some Error.conflict else none) db db1 e1 in
    let d2 = store_rotation-all uuid p db1 db2 e2 in
    let d3 : after ≡ db2 = ground arith in d3 ∙ d2 ∙ ap (rotated_tables uuid old) d1

pub rotate_reality_tx-ok :
    (uuid id : String) (expected : ℕ) (x : Peer) (db after : Db)
    → rotate_reality_tx uuid id expected db ≡ ok (x, after)
    → (old : Peer) × (find_peer db.peers id ≡ some old) × (after ≡ rotated_tables uuid old db)
unfolding rotate_reality_tx
rotate_reality_tx-ok uuid id expected x db after e =
    let (old, db1, e1, h1) = bind-eq-ok (select_peer id) (rotate uuid expected) db e in
    let (found, d) = select_peer-ok id db db1 old e1 in
    (old, found, rotate-ok uuid expected old x db1 after h1 ∙ ap (rotated_tables uuid old) d)

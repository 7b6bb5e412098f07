-- ===== src/Store/Peers/Rotation.antt =====
-- `RotateReality` is a compare-and-set of the revision of a credential.
use razdacha.Prelude.{
  ℕ, ◌≡◌, ◌≢◌, ◌+◌, true, false, List, [], ◌∷◌, map, inl, inr, String, ◌==◌, eq_iff, arith,
  Bool-cases, some,
}
use razdacha.Store.Model.{Error, ok, err, Peer}
use razdacha.Store.Db.{Db, transaction, transaction-ok, bind-eq-ok, pure}
use razdacha.Store.Peers.{find_peer, select_peer}
use razdacha.Store.Peers.Patch.{
  with_revision, store_rotation, rotate_reality, rotate_reality_tx, stale,
}

pub find_peer-id : (ps : List Peer) (id : String) {p : Peer} → find_peer ps id ≡ some p → p.id ≡ id
unfolding find_peer
find_peer-id [] id h = cc
find_peer-id (q ∷ qs) id {p} h = elim (Bool-cases (q.id == id)) [
  | inl same ↦ let e = (eq_iff q.id id).0 same in ground (arith, same, e, h)
  | inr other ↦ find_peer-id qs id {p = p} (ground (arith, other, h))
]

find_peer-with_revision :
    (ps : List Peer) (id : String) (n : ℕ) {p : Peer}
    → find_peer ps id ≡ some p
    → find_peer (map (with_revision n id) ps) id ≡ some (record p { reality_revision = n })
unfolding find_peer with_revision
find_peer-with_revision [] id n h = cc
find_peer-with_revision (q ∷ qs) id n {p} h = elim (Bool-cases (q.id == id)) [
  | inl same ↦ ground (arith, same, h)
  | inr other ↦
      let rest = find_peer-with_revision qs id n {p = p} (ground (arith, other, h)) in
      ground (arith, other, rest)
]

pub select_peer-ok :
    (id : String) (db next : Db) (p : Peer)
    → select_peer id db ≡ ok (p, next)
    → (find_peer db.peers id ≡ some p) × (next ≡ db)
unfolding select_peer
select_peer-ok id db next p h = ground arith

store_rotation-ok :
    (uuid : String) (p : Peer) (db next : Db) {u : Unit {0}}
    → store_rotation uuid p db ≡ ok (u, next)
    → next.peers ≡ map (with_revision p.reality_revision p.id) db.peers
unfolding store_rotation
store_rotation-ok uuid p db next h = ground arith

not_stale :
    (expected : ℕ) (p : Peer)
    → stale expected p ≡ false
    → (p.reality_enabled ≡ true) × (p.reality_revision ≡ expected)
unfolding stale
not_stale expected p h = (ground arith, ground arith)

rotated :
    (ps last : List Peer) (old : Peer) (id : String) (expected : ℕ)
    → find_peer ps id ≡ some old
    → old.id ≡ id
    → old.reality_revision ≡ expected
    → last ≡ map (with_revision (old.reality_revision + 1) old.id) ps
    → find_peer last id ≡ some (record old { reality_revision = expected + 1 })
rotated ps last old id expected found same revision e =
    let row = find_peer-with_revision ps id (expected + 1) {p = old} found in
    ground (arith, e, same, revision, row)

-- A rotation that succeeds has found access switched on and the expected revision, and stores the
-- next revision.
pub rotate_reality-ok :
    (uuid id : String) (expected : ℕ) (db : Db) {p : Peer}
    → (rotate_reality uuid id expected db).0 ≡ ok p
    → (old : Peer) × (find_peer db.peers id ≡ some old)
      × (old.reality_enabled ≡ true)
      × (old.reality_revision ≡ expected)
      × (find_peer (rotate_reality uuid id expected db).1.peers id
          ≡ some (record old { reality_revision = expected + 1 }))
unfolding rotate_reality rotate_reality_tx
rotate_reality-ok uuid id expected db {p} h =
    let ran = transaction-ok (rotate_reality_tx uuid id expected) db h in
    let (old, db1, e1, h1) = bind-eq-ok (select_peer id) _ db ran in
    let (found, same_db) = select_peer-ok id db db1 old e1 in
    elim (Bool-cases (stale expected old)) [
      | inl late ↦ absurd (ground (arith, late, h1))
      | inr timely ↦
          let (on, revision) = not_stale expected old timely in
          let same = find_peer-id db.peers id {p = old} found in
          let next = record old { reality_revision = old.reality_revision + 1 } in
          let (_, db2, e2, h2) =
            bind-eq-ok (store_rotation uuid next) (λ _. pure next) db1 (rw timely at h1) in
          let peers = store_rotation-ok uuid next db1 db2 e2 in
          let last : (rotate_reality uuid id expected db).1.peers
              ≡ map (with_revision (old.reality_revision + 1) old.id) db.peers =
            ground (arith, h2, peers, same_db) in
          (old, found, on, revision, rotated db.peers _ old id expected found same revision last)
    ]

rotate_reality-stale :
    (uuid id : String) (expected : ℕ) (db : Db) (p : Peer)
    → find_peer db.peers id ≡ some p
    → p.reality_revision ≢ expected
    → rotate_reality uuid id expected db ≡ (err Error.conflict, db)
unfolding rotate_reality rotate_reality_tx transaction select_peer stale
rotate_reality-stale uuid id expected db p found ne = ground (arith, found)

-- Of two rotations that expect the same revision, only one can succeed: after the first the second
-- is a conflict and changes nothing.
pub rotate_reality-once :
    (uuid next_uuid id : String) (expected : ℕ) (db : Db) {p : Peer}
    → (rotate_reality uuid id expected db).0 ≡ ok p
    → let after = (rotate_reality uuid id expected db).1 in
      rotate_reality next_uuid id expected after ≡ (err Error.conflict, after)
rotate_reality-once uuid next_uuid id expected db {p} h =
    let (old, _, _, _, found) = rotate_reality-ok uuid id expected db {p = p} h in
    rotate_reality-stale next_uuid id expected (rotate_reality uuid id expected db).1 _ found
      (omega arith)

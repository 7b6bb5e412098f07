-- ===== src/Store/Peers/Revoked.antt =====
-- internal/store/reality.go: a client whose access was taken away is let in by no earlier admission.
use razdacha.Prelude.{
  ℕ, ◌+◌, ◌≤◌, ◌<◌, ◌≡◌, inl, inr, refl, sym, ◌∙◌, ap, subst, List, [], ◌∷◌, map, Option, none,
  some, Bool, true, false, ◌&&◌, String, ◌==◌, eqb, eq_iff, any, arith, Bool-cases, Option-cases,
}
use razdacha.Store.Model.{Peer, Credential, ok}
use razdacha.Store.Db.{Db, transaction-ok}
use razdacha.Store.Peers.{find_peer}
use razdacha.Store.Peers.Patch.{
  PeerPatch, bump_credential, patch_peer_tx, patch_peer, rotate_credential, rotate_reality_tx,
  rotate_reality,
}
use razdacha.Store.Peers.Deletion.{PeerDeletion, delete_peer_with_effects, without_credential}
use razdacha.Store.Peers.Rotation.{find_peer-id}
use razdacha.Store.Peers.Runtime.{
  Admission, Admitted, User, admission_of, matches, lets_in, users_of, reality_users,
}
use razdacha.Store.Peers.Written.{
  delete_peer_tx, delete_peer_tx-ok, rotated_tables, rotate_reality_tx-ok,
}
use razdacha.Store.Peers.Patched.{is_issued, patch_peer_tx-revoked}
use razdacha.Store.Peers.Consistent.Calls.{PeerCall, after_peer_call}
use razdacha.Store.Peers.Consistent.{Agrees, AllRows, AllRows-map, IsConsistent}
use razdacha.Store.Peers.Consistent.Steps.{same_owner}
use razdacha.Store.Peers.Consistent.Revisions.{rotate_credential-row, bump_credential-row}

-- The rows of a peer have revisions above `n`.
abbrev pub IsAbove : String → ℕ → List Credential → Type 0
IsAbove id n = AllRows (λ c. (c.peer_id == id) ≡ true → n < c.revision)

-- No admission of the peer is of a revision above `n`.
abbrev pub AdmitsUpTo : String → ℕ → Admitted → Type 0
AdmitsUpTo id n snap = (a : Admission) → admission_of snap.admissions id ≡ some a → a.revision ≤ n

lets_in-above :
    (snap : Admitted) (db : Db) (id : String) (n : ℕ) (c : Credential)
    → AdmitsUpTo id n snap
    → n < c.revision
    → (c.peer_id == id) ≡ true
    → lets_in snap db c ≡ false
unfolding lets_in matches
lets_in-above snap db id n c h above mine =
    elim (Option-cases (admission_of snap.admissions c.peer_id)) [
      | inl gone ↦ ground (arith, gone)
      | inr (a, there) ↦
          let k =
            h a (ap (admission_of snap.admissions) (sym ((eq_iff c.peer_id id).0 mine)) ∙ there) in
          let differs : (a.credential_id == c.credential_id && eqb a.revision c.revision) ≡ false =
            ground arith in
          ground (arith, there, differs)
    ]

users_of-above :
    (snap : Admitted) (db : Db) (id : String) (n : ℕ) (cs : List Credential)
    → AdmitsUpTo id n snap
    → IsAbove id n cs
    → any (λ u. u.peer_id == id) (users_of snap db cs) ≡ false
unfolding users_of any
users_of-above snap db id n [] h k = refl
users_of-above snap db id n (c ∷ cs) h k =
    let rest = users_of-above snap db id n cs h k.1 in
    elim (Bool-cases (c.peer_id == id)) [
      | inl mine ↦ ground (arith, lets_in-above snap db id n c h (k.0 mine) mine, rest)
      | inr other ↦ ground (arith, other, rest)
    ]

without_credential-IsAbove :
    (id : String) (n : ℕ) (cs : List Credential) → IsAbove id n (without_credential id cs)
unfolding without_credential
without_credential-IsAbove id n [] = tt
without_credential-IsAbove id n (c ∷ cs) = elim (Bool-cases (c.peer_id == id)) [
  | inl gone ↦ rw gone (without_credential-IsAbove id n cs)
  | inr kept ↦ rw kept ((λ mine. cc), without_credential-IsAbove id n cs)
]

delete-IsAbove :
    (id : String) (n : ℕ) (db : Db) {x : PeerDeletion}
    → (delete_peer_with_effects id db).0 ≡ ok x
    → IsAbove id n (delete_peer_with_effects id db).1.credentials
unfolding delete_peer_with_effects
delete-IsAbove id n db {x} h =
    let e = transaction-ok (delete_peer_tx id) db h in
    let (ps, cs) = delete_peer_tx-ok id x db (delete_peer_with_effects id db).1 e in
    subst (IsAbove id n) (sym cs) (without_credential-IsAbove id n db.credentials)

some-eq : {A : Type 0} {x y : A} → some x ≡ some y → x ≡ y
some-eq e = cc

rotated_row :
    (uuid id : String) (old : Peer) (ps : List Peer)
    → find_peer ps id ≡ some old
    → (c : Credential) → Agrees ps c
    → let d =
        rotate_credential uuid (record old { reality_revision = old.reality_revision + 1 }) c in
      (d.peer_id == id) ≡ true → old.reality_revision < d.revision
rotated_row uuid id old ps there c (q, found, same, revision) mine =
    let n = old.reality_revision + 1 in
    let (r1, r2, r3) = rotate_credential-row uuid (record old { reality_revision = n }) c in
    let mine' : (c.peer_id == id) ≡ true = ap (λ i. i == id) (sym r1) ∙ mine in
    let t = same_owner c ps id q old found there mine' in
    let i : (c.peer_id == old.id) ≡ true =
      ap (λ x. c.peer_id == x) (find_peer-id ps id {p = old} there) ∙ mine' in
    let k : (c.credential_id == old.reality_credential_id) ≡ true =
      (eq_iff c.credential_id old.reality_credential_id).1
        (same ∙ ap (λ (x : Peer). x.reality_credential_id) t) in
    let v : (rotate_credential uuid (record old { reality_revision = n }) c).revision ≡ n =
      r3 ∙ ground (arith, i, k) in
    omega (arith, v)

rotate-IsAbove :
    (uuid id : String) (expected : ℕ) (db : Db) (old : Peer) {x : Peer}
    → IsConsistent db
    → find_peer db.peers id ≡ some old
    → (rotate_reality uuid id expected db).0 ≡ ok x
    → IsAbove id old.reality_revision (rotate_reality uuid id expected db).1.credentials
unfolding rotate_reality
rotate-IsAbove uuid id expected db old {x} c there h =
    let e = transaction-ok (rotate_reality_tx uuid id expected) db h in
    let (p, found, d) =
      rotate_reality_tx-ok uuid id expected x db (rotate_reality uuid id expected db).1 e in
    let same : p ≡ old = some-eq (sym found ∙ there) in
    let rows : (rotate_reality uuid id expected db).1.credentials
        ≡ map (rotate_credential uuid (record old { reality_revision = old.reality_revision + 1 }))
            db.credentials =
      ap (λ (t : Db). t.credentials) (d ∙ ap (λ q. rotated_tables uuid q db) same) in
    subst (IsAbove id old.reality_revision) (sym rows) (
      AllRows-map (Agrees db.peers)
        (λ c. (c.peer_id == id) ≡ true → old.reality_revision < c.revision) _
        (rotated_row uuid id old db.peers there) db.credentials c)

bumped_row :
    (uuid id : String) (old : Peer) (ps : List Peer)
    → find_peer ps id ≡ some old
    → (c : Credential) → Agrees ps c
    → ((bump_credential uuid id c).peer_id == id) ≡ true
    → old.reality_revision < (bump_credential uuid id c).revision
bumped_row uuid id old ps there c (q, found, same, revision) mine =
    let (r1, r2, r3) = bump_credential-row uuid id c in
    let mine' : (c.peer_id == id) ≡ true = ap (λ i. i == id) (sym r1) ∙ mine in
    let e =
      revision
      ∙ ap (λ (x : Peer). x.reality_revision) (same_owner c ps id q old found there mine') in
    let v : (bump_credential uuid id c).revision ≡ c.revision + 1 = r3 ∙ ground (arith, mine') in
    omega (arith, e, v)

patch-IsAbove :
    (credential uuid next_uuid id : String) (patch : PeerPatch) (db : Db) (old r : Peer)
    → IsConsistent db
    → find_peer db.peers id ≡ some old
    → is_issued old ≡ true
    → (old.enabled && old.reality_enabled) ≡ true
    → (r.enabled && r.reality_enabled) ≡ false
    → (patch_peer credential uuid next_uuid id patch db).0 ≡ ok r
    → IsAbove id old.reality_revision
        (patch_peer credential uuid next_uuid id patch db).1.credentials
unfolding patch_peer
patch-IsAbove credential uuid next_uuid id patch db old r c there issued on off h =
    let e = transaction-ok (patch_peer_tx credential uuid next_uuid id patch) db h in
    let rows =
      patch_peer_tx-revoked credential uuid next_uuid id patch old r db
        (patch_peer credential uuid next_uuid id patch db).1 there issued on off e in
    subst (IsAbove id old.reality_revision) (sym rows) (
      AllRows-map (Agrees db.peers)
        (λ c. (c.peer_id == id) ≡ true → old.reality_revision < c.revision) _
        (bumped_row next_uuid id old db.peers there) db.credentials c)

-- A call that succeeds in taking the access of the peer away: a patch that ends it, the deletion of the
-- peer, or the rotation of its credential.
pub data TakesAway (id : String) (old : Peer) (db : Db) : PeerCall → Type 0 where
  patched :
      {credential uuid next_uuid : String} {patch : PeerPatch} (r : Peer)
      → is_issued old ≡ true
      → (old.enabled && old.reality_enabled) ≡ true
      → (r.enabled && r.reality_enabled) ≡ false
      → (patch_peer credential uuid next_uuid id patch db).0 ≡ ok r
      → TakesAway id old db (PeerCall.change credential uuid next_uuid id patch)
  deleted :
      (x : PeerDeletion)
      → (delete_peer_with_effects id db).0 ≡ ok x
      → TakesAway id old db (PeerCall.delete id)
  rotated :
      {uuid : String} {expected : ℕ} (r : Peer)
      → (rotate_reality uuid id expected db).0 ≡ ok r
      → TakesAway id old db (PeerCall.rotation uuid id expected)

taken-IsAbove :
    (id : String) (old : Peer) (db : Db) {call : PeerCall}
    → IsConsistent db
    → find_peer db.peers id ≡ some old
    → TakesAway id old db call
    → IsAbove id old.reality_revision (after_peer_call call db).credentials
unfolding after_peer_call
taken-IsAbove id old db c there
      (TakesAway.patched {credential} {uuid} {next_uuid} {patch} r issued on off h) =
    patch-IsAbove credential uuid next_uuid id patch db old r c there issued on off h
taken-IsAbove id old db c there (TakesAway.deleted x h) =
    delete-IsAbove id old.reality_revision db {x = x} h
taken-IsAbove id old db c there (TakesAway.rotated {uuid} {expected} r h) =
    rotate-IsAbove uuid id expected db old {x = r} c there h

reality_users-above :
    (enabled : Bool) (identity : Option String) (snap : Admitted) (db : Db) (id : String) (n : ℕ)
    (us : List User)
    → AdmitsUpTo id n snap
    → IsAbove id n db.credentials
    → reality_users enabled identity snap db ≡ some us
    → any (λ u. u.peer_id == id) us ≡ false
unfolding reality_users any
reality_users-above false identity snap db id n us up above h =
    let e : [] ≡ us = ground arith in ap (any (λ u. u.peer_id == id)) (sym e)
reality_users-above true none snap db id n us up above h = cc
reality_users-above true (some i) snap db id n us up above h =
    let e : users_of snap db db.credentials ≡ us = ground arith in
    ap (any (λ u. u.peer_id == id)) (sym e) ∙ users_of-above snap db id n db.credentials up above

-- After a patch that ends the access of a peer with a credential, its deletion, or the rotation of its
-- credential, RealityRuntime lets nobody in for the peer with a policy whose admission of it, if any, has at
-- most the revision before; the tables agree before, and the call succeeds.
pub reality_users-revoked :
    (id : String) (old : Peer) (db : Db) (call : PeerCall) (enabled : Bool)
    (identity : Option String) (snap : Admitted) (us : List User)
    → IsConsistent db
    → find_peer db.peers id ≡ some old
    → TakesAway id old db call
    → AdmitsUpTo id old.reality_revision snap
    → reality_users enabled identity snap (after_peer_call call db) ≡ some us
    → any (λ u. u.peer_id == id) us ≡ false
reality_users-revoked id old db call enabled identity snap us c there taken up h =
    reality_users-above enabled identity snap (after_peer_call call db) id old.reality_revision us
      up (taken-IsAbove id old db {call = call} c there taken) h

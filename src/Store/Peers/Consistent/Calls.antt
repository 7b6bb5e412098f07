-- ===== src/Store/Peers/Consistent/Calls.antt =====
-- internal/store/peers.go and reality.go: the operations on peers keep the tables in agreement.
use mathlib.Core.Bool.{not}
use razdacha.Prelude.{
  ℕ, ◌+◌, ◌≡◌, inl, inr, sym, ◌∙◌, ap, subst, List, [], ◌∷◌, map, Option, none, some, Bool, true,
  false, ◌&&◌, ◌||◌, String, ◌==◌, arith, Bool-cases, Option-cases, if◌then◌else◌,
}
use razdacha.Store.Model.{Peer, Error, Result, ok, err, validate_peer}
use razdacha.Store.Db.{Db, Tx, bind-eq-ok, ◌>>=◌, ◌>>◌, pure, check, transaction, transaction-keeps}
use razdacha.Store.Peers.{
  Fresh, find_peer, select_peer, insert_peer, wrap_peer_write_err, validate_peer_egress,
  ensure_peer_reality, prepare_peer, create_peer_tx, create_peer, update_peer_tx, update_peer,
}
use razdacha.Store.Peers.Patch.{
  PeerPatch, apply_patch, bump_credential, bump_peer, invalidate_reality, patch_peer_tx, patch_peer,
  rotate_reality_tx, rotate_reality,
}
use razdacha.Store.Peers.Deletion.{delete_peer_with_effects, without_peer, without_credential}
use razdacha.Store.Peers.Rotation.{find_peer-id, select_peer-ok}
use razdacha.Store.Peers.Written.{
  delete_peer_tx, delete_peer_tx-ok, rotate_reality_tx-ok, validate_peer_egress-ok,
  wrap_peer_write_err-ok, update_peer_tx-ok,
}
use razdacha.Store.Peers.Consistent.{Agrees, AllRows, IsConsistent}
use razdacha.Store.Peers.Consistent.Steps.{overwritten, inserted, without-Agrees, ensured}
use razdacha.Store.Peers.Consistent.Revisions.{rotated, invalidated}

-- A block keeps the tables in agreement where it succeeds.
abbrev Keeps : {A : Type 0} → Tx A → Type 0
Keeps {A} m =
    (db : Db) (x : A) (after : Db) → m db ≡ ok (x, after) → IsConsistent db → IsConsistent after

bind-Keeps :
    {A B : Type 0} (m : Tx A) (f : A → Tx B) → Keeps m → ((x : A) → Keeps (f x)) → Keeps (m >>= f)
bind-Keeps m f k l db x after e h =
    let (y, next, e1, e2) = bind-eq-ok m f db e in l y next x after e2 (k db y next e1 h)

if-Keeps : {A : Type 0} (b : Bool) (m n : Tx A) → Keeps m → Keeps n → Keeps (if b then m else n)
if-Keeps true m n k l = k
if-Keeps false m n k l = l

pure-Keeps : {A : Type 0} (x : A) → Keeps (pure x)
pure-Keeps x db y after e h = let d : db ≡ after = ground arith in subst IsConsistent d h

check-Keeps : (o : Option Error) → Keeps (check o)
check-Keeps none db x after e h = let d : db ≡ after = ground arith in subst IsConsistent d h
check-Keeps (some y) db x after e h = cc

select_peer-Keeps : (id : String) → Keeps (select_peer id)
select_peer-Keeps id db p after e h = subst IsConsistent (sym (select_peer-ok id db after p e).1) h

validate_peer_egress-Keeps : (id : Option String) → Keeps (validate_peer_egress id)
validate_peer_egress-Keeps id db x after e h =
    subst IsConsistent (sym (validate_peer_egress-ok id db after e)) h

insert_peer-Keeps : (p : Peer) → Keeps (wrap_peer_write_err (insert_peer p))
insert_peer-Keeps p db x after e h =
    inserted p db after (wrap_peer_write_err-ok (insert_peer p) db e) h

ensure_peer_reality-Keeps :
    (credential uuid : String) (p : Peer) → Keeps (ensure_peer_reality credential uuid p)
ensure_peer_reality-Keeps credential uuid p db x after e h =
    ensured credential uuid p x db after e h

update_peer_tx-Keeps : (p : Peer) → Keeps (update_peer_tx p)
update_peer_tx-Keeps p db x after e h =
    subst IsConsistent (sym (update_peer_tx-ok p db after e)) (overwritten p db h)

invalidate_reality-Keeps : (uuid id : String) → Keeps (invalidate_reality uuid id)
unfolding invalidate_reality
invalidate_reality-Keeps uuid id db x after e h =
    let cs = map (bump_credential uuid id) db.credentials in
    let d : record db { credentials = cs; peers = map (bump_peer cs id) db.peers } ≡ after =
      ground arith in
    subst IsConsistent d (invalidated uuid id db h)

apply_patch-Keeps :
    (change : PeerPatch) (old : Peer)
    → Keeps {A = Peer} (λ db. elim (apply_patch change old) [ err e ↦ err e | ok p ↦ ok (p, db) ])
apply_patch-Keeps change old = go (apply_patch change old)
  where
    go : (r : Result Peer) → Keeps {A = Peer} (λ db. elim r [ err e ↦ err e | ok p ↦ ok (p, db) ])
    go (ok p) db x after q h = pure-Keeps p db x after q h
    go (err e) db x after q h = cc

create_peer_tx-Keeps : (fresh : Fresh) (p : Peer) → Keeps (create_peer_tx fresh p)
unfolding create_peer_tx
create_peer_tx-Keeps fresh p =
    bind-Keeps (validate_peer_egress p.egress_tunnel_id) _
      (validate_peer_egress-Keeps p.egress_tunnel_id)
      λ _. bind-Keeps (wrap_peer_write_err (insert_peer p)) _ (insert_peer-Keeps p) λ _.
        if-Keeps p.reality_enabled _ _ (ensure_peer_reality-Keeps fresh.credential fresh.uuid p)
          (pure-Keeps p)

patch_peer_tx-Keeps :
    (credential uuid next_uuid id : String) (change : PeerPatch)
    → Keeps (patch_peer_tx credential uuid next_uuid id change)
unfolding patch_peer_tx
patch_peer_tx-Keeps credential uuid next_uuid id change =
    bind-Keeps (select_peer id) _ (select_peer-Keeps id) λ old.
      bind-Keeps _ _ (apply_patch-Keeps change old) λ next.
        bind-Keeps
          (if next.reality_enabled then ensure_peer_reality credential uuid next else pure next) _
          (if-Keeps next.reality_enabled _ _ (ensure_peer_reality-Keeps credential uuid next)
            (pure-Keeps next))
          λ p. bind-Keeps (update_peer_tx p) _ (update_peer_tx-Keeps p) λ _.
            if-Keeps
              (old.enabled && old.reality_enabled && (not p.enabled || not p.reality_enabled)) _ _
              (bind-Keeps (invalidate_reality next_uuid p.id) _
                (invalidate_reality-Keeps next_uuid p.id) (λ _. pure-Keeps _))
              (pure-Keeps p)

update_peer-body-Keeps :
    (p : Peer) (verdict : Peer → Option Error)
    → Keeps (do old ← select_peer p.id; check (verdict old); update_peer_tx p)
update_peer-body-Keeps p verdict = bind-Keeps (select_peer p.id) _ (select_peer-Keeps p.id) λ old.
    bind-Keeps (check (verdict old)) _ (check-Keeps (verdict old)) λ _. update_peer_tx-Keeps p

same_tables :
    (db after : Db)
    → after.peers ≡ db.peers
    → after.credentials ≡ db.credentials
    → IsConsistent db
    → IsConsistent after
same_tables db after p c h =
    subst (λ ps. AllRows (Agrees ps) after.credentials) (sym p)
      (subst (AllRows (Agrees db.peers)) (sym c) h)

delete_peer-Keeps : (id : String) → Keeps (delete_peer_tx id)
delete_peer-Keeps id db x after e h =
    let (ps, cs) = delete_peer_tx-ok id x db after e in
    same_tables
      (record db {
        peers = without_peer id db.peers;
        credentials = without_credential id db.credentials;
      })
      after ps cs (without-Agrees db.peers id db.credentials h)

rotate_reality_tx-Keeps :
    (uuid id : String) (expected : ℕ) → Keeps (rotate_reality_tx uuid id expected)
rotate_reality_tx-Keeps uuid id expected db x after e h =
    let (old, found, d) = rotate_reality_tx-ok uuid id expected x db after e in
    subst IsConsistent (sym d) (
      rotated uuid old (old.reality_revision + 1) db
        (ap (find_peer db.peers) (find_peer-id db.peers id {p = old} found) ∙ found) h)

-- A call of one of the operations on peers, with the values that it makes itself.
pub data PeerCall : Type 0 where
  create : Fresh → Peer → PeerCall
  update : Peer → PeerCall
  change : (credential uuid next_uuid id : String) → PeerPatch → PeerCall
  delete : (id : String) → PeerCall
  rotation : (uuid id : String) (expected : ℕ) → PeerCall

unfoldable pub after_peer_call : PeerCall → Db → Db
after_peer_call (PeerCall.create fresh p) db = (create_peer fresh p db).1
after_peer_call (PeerCall.update p) db = (update_peer p db).1
after_peer_call (PeerCall.change credential uuid next_uuid id patch) db =
    (patch_peer credential uuid next_uuid id patch db).1
after_peer_call (PeerCall.delete id) db = (delete_peer_with_effects id db).1
after_peer_call (PeerCall.rotation uuid id expected) db = (rotate_reality uuid id expected db).1

unfoldable pub after_peer_calls : List PeerCall → Db → Db
after_peer_calls [] db = db
after_peer_calls (c ∷ cs) db = after_peer_calls cs (after_peer_call c db)

transaction-Keeps :
    {A : Type 0} (m : Tx A) (db : Db)
    → Keeps m
    → IsConsistent db
    → IsConsistent (transaction m db).1
transaction-Keeps m db k h = transaction-keeps IsConsistent m db h (λ x after e. k db x after e h)

after_peer_call-IsConsistent :
    (c : PeerCall) (db : Db) → IsConsistent db → IsConsistent (after_peer_call c db)
unfolding after_peer_call create_peer update_peer patch_peer delete_peer_with_effects rotate_reality
after_peer_call-IsConsistent (PeerCall.create fresh p) db h =
    elim (Option-cases (validate_peer p)) [
      | inr (e, bad) ↦ rw (bad, after_peer_call, create_peer) h
      | inl good ↦
          rw (good, after_peer_call, create_peer)
            (transaction-Keeps (create_peer_tx fresh (prepare_peer fresh p)) db
              (create_peer_tx-Keeps fresh (prepare_peer fresh p)) h)
    ]
after_peer_call-IsConsistent (PeerCall.update p) db h = elim (Option-cases (validate_peer p)) [
  | inr (e, bad) ↦ rw (bad, after_peer_call, update_peer) h
  | inl good ↦ elim (Bool-cases (p.id == "")) [
    | inl blank ↦ rw (good, blank, after_peer_call, update_peer) h
    | inr named ↦
        rw (good, named, after_peer_call, update_peer)
          (transaction-Keeps _ db (update_peer-body-Keeps p _) h)
  ]
]
after_peer_call-IsConsistent (PeerCall.change credential uuid next_uuid id patch) db h =
    transaction-Keeps _ db (patch_peer_tx-Keeps credential uuid next_uuid id patch) h
after_peer_call-IsConsistent (PeerCall.delete id) db h =
    transaction-Keeps _ db (delete_peer-Keeps id) h
after_peer_call-IsConsistent (PeerCall.rotation uuid id expected) db h =
    transaction-Keeps _ db (rotate_reality_tx-Keeps uuid id expected) h

-- After any calls of the operations on peers every credential has its peer, which records its identifier
-- and its revision, if that is so before.
pub after_peer_calls-IsConsistent :
    (cs : List PeerCall) (db : Db) → IsConsistent db → IsConsistent (after_peer_calls cs db)
unfolding after_peer_calls
after_peer_calls-IsConsistent [] db h = h
after_peer_calls-IsConsistent (c ∷ cs) db h =
    after_peer_calls-IsConsistent cs (after_peer_call c db) (after_peer_call-IsConsistent c db h)

-- ===== src/Store/Peers/Patched.antt =====
-- internal/store/peers.go: the parts of the transaction of PatchPeer, and what a patch that ends access writes.
use mathlib.Core.Bool.{not}
use razdacha.Prelude.{
  ◌+◌, ◌≡◌, ◌⊎◌, inl, inr, refl, sym, ◌∙◌, ap, map, Bool, true, false, ◌&&◌, ◌||◌, some, String,
  ◌==◌, leb, arith, Bool-cases, if◌then◌else◌,
}
use razdacha.Store.Model.{Peer, Error, Result, ok, err}
use razdacha.Store.Db.{Db, Tx, bind-eq-ok, ◌>>=◌, ◌>>◌, pure}
use razdacha.Store.Peers.{
  find_peer, select_peer, ensure_peer_reality, update_peer_tx, overwrite_peer,
}
use razdacha.Store.Peers.Patch.{
  PeerPatch, merged, apply_patch, bump_credential, invalidate_reality, patch_peer_tx,
}
use razdacha.Store.Peers.Rotation.{find_peer-id, select_peer-ok}
use razdacha.Store.Peers.Written.{update_peer_tx-ok}

pub apply_patch-ok :
    (patch : PeerPatch) (old next : Peer)
    → apply_patch patch old ≡ ok next
    → next ≡ merged patch old
unfolding apply_patch
apply_patch-ok patch old next h = ground arith

pub merged-id : (patch : PeerPatch) (old : Peer) → (merged patch old).id ≡ old.id
unfolding merged
merged-id patch old = refl

-- The end of the transaction of PatchPeer.
abbrev pub finish : String → Peer → Peer → Tx Peer
finish next_uuid old p =
    if old.enabled && old.reality_enabled && (not p.enabled || not p.reality_enabled)
    then invalidate_reality next_uuid p.id
      >> pure (record p { reality_revision = p.reality_revision + 1 })
    else pure p

-- The transaction after the merge, and from the merge on.
abbrev pub write_patch : String → String → String → Peer → Peer → Tx Peer
write_patch credential uuid next_uuid old next = do
  p ← if next.reality_enabled then ensure_peer_reality credential uuid next else pure next
  update_peer_tx p
  finish next_uuid old p

abbrev pub merge : String → String → String → PeerPatch → Peer → Tx Peer
merge credential uuid next_uuid patch old = do
  next ← λ db. elim (apply_patch patch old) [ err e ↦ err e | ok p ↦ ok (p, db) ]
  write_patch credential uuid next_uuid old next

pub Result-cases :
    {A : Type 0} (r : Result A) → ((e : Error) × (r ≡ err e)) ⊎ ((x : A) × (r ≡ ok x))
Result-cases (err e) = inl (e, refl)
Result-cases (ok x) = inr (x, refl)

pub merge-ok :
    (credential uuid next_uuid : String) (patch : PeerPatch) (old r : Peer) (db last : Db)
    → merge credential uuid next_uuid patch old db ≡ ok (r, last)
    → write_patch credential uuid next_uuid old (merged patch old) db ≡ ok (r, last)
merge-ok credential uuid next_uuid patch old r db last h =
    elim (Result-cases (apply_patch patch old)) [
      | inl (e, bad) ↦ let h' = rw bad at h in cc
      | inr (next, good) ↦
          ap (λ q. write_patch credential uuid next_uuid old q db)
            (sym (apply_patch-ok patch old next good))
          ∙ (rw good at h)
    ]

-- A peer that has been given a credential.
abbrev pub is_issued : Peer → Bool
is_issued p = not (p.reality_credential_id == "") && leb 1 p.reality_revision

ensure-issued :
    (credential uuid : String) (next p : Peer) (db after : Db)
    → is_issued next ≡ true
    → (if next.reality_enabled then ensure_peer_reality credential uuid next else pure next) db
      ≡ ok (p, after)
    → (next ≡ p) × (db ≡ after)
unfolding ensure_peer_reality
ensure-issued credential uuid next p db after i h = go next.reality_enabled h
  where
    go :
        (b : Bool)
        → (if b then ensure_peer_reality credential uuid next else pure next) db ≡ ok (p, after)
        → (next ≡ p) × (db ≡ after)
    go true k = let k' = rw (ensure_peer_reality, i) at k in (ground arith, ground arith)
    go false k = (ground arith, ground arith)

invalidate_reality-ok :
    (uuid id : String) (db after : Db) {u : Unit {0}}
    → invalidate_reality uuid id db ≡ ok (u, after)
    → after.credentials ≡ map (bump_credential uuid id) db.credentials
unfolding invalidate_reality
invalidate_reality-ok uuid id db after h = ground arith

finish-revoked :
    (next_uuid : String) (old p r : Peer) (db last : Db)
    → (old.enabled && old.reality_enabled) ≡ true
    → (r.enabled && r.reality_enabled) ≡ false
    → finish next_uuid old p db ≡ ok (r, last)
    → last.credentials ≡ map (bump_credential next_uuid p.id) db.credentials
finish-revoked next_uuid old p r db last on off h =
    elim (Bool-cases
      (old.enabled && old.reality_enabled && (not p.enabled || not p.reality_enabled))) [
        | inr lasts ↦
            let h' = rw lasts at h in
            let e : p ≡ r = ground arith in
            let k : (p.enabled && p.reality_enabled) ≡ false =
              ap (λ (q : Peer). q.enabled && q.reality_enabled) e ∙ off in
            absurd (ground (arith, lasts, on, k))
        | inl ended ↦
            let h' = rw ended at h in
            let (_, mid, e1, e2) = bind-eq-ok (invalidate_reality next_uuid p.id) _ db h' in
            let d : mid ≡ last = ground arith in
            ap (λ (t : Db). t.credentials) (sym d) ∙ invalidate_reality-ok next_uuid p.id db mid e1
      ]

write_patch-revoked :
    (credential uuid next_uuid : String) (old next r : Peer) (db last : Db)
    → is_issued next ≡ true
    → (old.enabled && old.reality_enabled) ≡ true
    → (r.enabled && r.reality_enabled) ≡ false
    → write_patch credential uuid next_uuid old next db ≡ ok (r, last)
    → last.credentials ≡ map (bump_credential next_uuid next.id) db.credentials
write_patch-revoked credential uuid next_uuid old next r db last i on off h =
    let (p, db1, e1, h1) =
      bind-eq-ok
        (if next.reality_enabled then ensure_peer_reality credential uuid next else pure next)
        (λ p. update_peer_tx p >> finish next_uuid old p) db h in
    let (same, d1) = ensure-issued credential uuid next p db db1 i e1 in
    let (_, db2, e2, h2) = bind-eq-ok (update_peer_tx p) (λ _. finish next_uuid old p) db1 h1 in
    let d2 = update_peer_tx-ok p db1 db2 e2 in
    let cs : db2.credentials ≡ db.credentials =
      ap (λ (t : Db). t.credentials)
        (d2 ∙ ap (λ (t : Db). record t { peers = map (overwrite_peer p) t.peers }) (sym d1)) in
    finish-revoked next_uuid old p r db2 last on off h2
    ∙ ap (map (bump_credential next_uuid p.id)) cs
    ∙ ap (λ (q : Peer). map (bump_credential next_uuid q.id) db.credentials) (sym same)

-- A patch that ends the access of a peer raises the revision of its credential.
pub patch_peer_tx-revoked :
    (credential uuid next_uuid id : String) (patch : PeerPatch) (old r : Peer) (db last : Db)
    → find_peer db.peers id ≡ some old
    → is_issued old ≡ true
    → (old.enabled && old.reality_enabled) ≡ true
    → (r.enabled && r.reality_enabled) ≡ false
    → patch_peer_tx credential uuid next_uuid id patch db ≡ ok (r, last)
    → last.credentials ≡ map (bump_credential next_uuid id) db.credentials
unfolding patch_peer_tx merged
patch_peer_tx-revoked credential uuid next_uuid id patch old r db last there i on off h =
    let (q, db1, e1, h1) =
      bind-eq-ok (select_peer id) (merge credential uuid next_uuid patch) db h in
    let (found, d) = select_peer-ok id db db1 q e1 in
    let s : some q ≡ some old = sym found ∙ there in
    let same : q ≡ old = cc in
    let h2 : merge credential uuid next_uuid patch old db ≡ ok (r, last) =
      (λ j. merge credential uuid next_uuid patch (sym same j) (sym d j)) ∙ h1 in
    write_patch-revoked credential uuid next_uuid old (merged patch old) r db last i on off
      (merge-ok credential uuid next_uuid patch old r db last h2)
    ∙ ap (λ x. map (bump_credential next_uuid x) db.credentials)
        (merged-id patch old ∙ find_peer-id db.peers id {p = old} there)

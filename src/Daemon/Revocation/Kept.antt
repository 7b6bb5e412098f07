-- ===== src/Daemon/Revocation/Kept.antt =====
-- internal/store: a change of a peer that takes no access away keeps every credential in use.
use mathlib.Core.Bool.{not}
use mathlib.Core.List.{Mem}
use razdacha.Prelude.{
  ◌≡◌, inl, inr, sym, ◌∙◌, ap, subst, Bool, true, false, ◌&&◌, ◌||◌, Option, some, String, ◌==◌,
  eq_iff, arith, Bool-cases, if◌then◌else◌,
}
use razdacha.Store.Model.{Peer, Credential, ok}
use razdacha.Store.Db.{Db, ◌>>=◌, ◌>>◌, bind-eq-ok, transaction-keeps, pure}
use razdacha.Store.Peers.{find_peer, select_peer, update_peer_tx, ensure_peer_reality}
use razdacha.Store.Peers.Patch.{PeerPatch, merged, apply_patch, patch_peer, patch_peer_tx}
use razdacha.Store.Peers.Deletion.{PeerDeletion, delete_peer_with_effects}
use razdacha.Store.Peers.Rotation.{find_peer-id, select_peer-ok}
use razdacha.Daemon.Revocation.{says_no, revokes}
use razdacha.Store.Peers.Patched.{apply_patch-ok, merged-id, Result-cases, finish, merge}
use razdacha.Store.Peers.Runtime.{is_active, is_live}
use razdacha.Store.Peers.Lookup.{find_peer-without_peer, mem-without_credential, Stays}
use razdacha.Store.Peers.Access.{
  Ensured, unchanged, ensure_peer_reality-Ensured, overwrite_peer-active,
}
use razdacha.Store.Peers.Written.{delete_peer_tx, delete_peer_tx-ok, update_peer_tx-ok}

merged-active :
    (patch : PeerPatch) (old : Peer)
    → revokes patch old ≡ false
    → (old.enabled && old.reality_enabled) ≡ true
    → ((merged patch old).enabled && (merged patch old).reality_enabled) ≡ true
unfolding merged revokes says_no
merged-active patch old h on = ground arith

some-eq : {A : Type 0} {x y : A} → some x ≡ some y → x ≡ y
some-eq e = cc

active-some :
    (old : Peer) {o : Option Peer}
    → o ≡ some old
    → is_active o ≡ true
    → (old.enabled && old.reality_enabled) ≡ true
unfolding is_active
active-some old e h = ap is_active (sym e) ∙ h

ensured :
    (credential uuid : String) (next p : Peer) (db after : Db)
    → (if next.reality_enabled then ensure_peer_reality credential uuid next else pure next) db
      ≡ ok (p, after)
    → Ensured next p db after
ensured credential uuid next p db after h = go next.reality_enabled h
  where
    go :
        (b : Bool)
        → (if b then ensure_peer_reality credential uuid next else pure next) db ≡ ok (p, after)
        → Ensured next p db after
    go true k = ensure_peer_reality-Ensured credential uuid next p db after k
    go false k =
        let e : next ≡ p = ground arith in
        let d : db ≡ after = ground arith in unchanged next p db after e d

remains :
    (patch : PeerPatch) (old next p : Peer)
    → next ≡ merged patch old
    → p.enabled ≡ next.enabled
    → p.reality_enabled ≡ next.reality_enabled
    → revokes patch old ≡ false
    → (old.enabled && old.reality_enabled) ≡ true
    → (p.enabled && p.reality_enabled) ≡ true
remains patch old next p n e r h on =
    let k = merged-active patch old h on in
    ground (arith, k, ap (λ (q : Peer). q.enabled) n, ap (λ (q : Peer). q.reality_enabled) n)

finish-quiet :
    (next_uuid : String) (old p r : Peer) (db last : Db)
    → ((old.enabled && old.reality_enabled) ≡ true → (p.enabled && p.reality_enabled) ≡ true)
    → finish next_uuid old p db ≡ ok (r, last)
    → db ≡ last
finish-quiet next_uuid old p r db last on h =
    elim (Bool-cases
      (old.enabled && old.reality_enabled && (not p.enabled || not p.reality_enabled))) [
        | inl ended ↦
            let e : (old.enabled && old.reality_enabled) ≡ true = ground arith in
            absurd (ground (arith, ended, on e))
        | inr lasts ↦ let h' = rw lasts at h in ground arith
      ]

-- A change that does not revoke.
module _ (credential uuid next_uuid id : String) (patch : PeerPatch) (old : Peer) (db : Db)
    (c : Credential) (there : find_peer db.peers id ≡ some old)
    (lasting : revokes patch old ≡ false) (stays : Stays db c) where
  write-Stays :
      (next p r : Peer) (db3 last : Db)
      → next ≡ merged patch old
      → Ensured next p db db3
      → (update_peer_tx p >> finish next_uuid old p) db3 ≡ ok (r, last)
      → Stays last c
  write-Stays next p r db3 last n k h =
      let (_, db4, e4, h4) = bind-eq-ok (update_peer_tx p) (λ _. finish next_uuid old p) db3 h in
      let d4 = update_peer_tx-ok p db3 db4 e4 in
      let on = remains patch old next p n k.same_enabled k.same_reality lasting in
      let mem : Mem c db4.credentials =
        subst (λ (t : Db). Mem c t.credentials) (sym d4) (k.credentials c stays.0) in
      let live : is_live db4 c ≡ true =
        ap (λ (t : Db). is_active (find_peer t.peers c.peer_id)) d4
        ∙ overwrite_peer-active p c.peer_id db3.peers (λ same. on (own next p n k same))
            (k.peers c.peer_id ∙ stays.1) in
      subst (λ t. Stays t c) (finish-quiet next_uuid old p r db4 last on h4) (mem, live)
    where
      own :
          (next p : Peer)
          → next ≡ merged patch old
          → Ensured next p db db3
          → (c.peer_id == p.id) ≡ true
          → (old.enabled && old.reality_enabled) ≡ true
      own next p n k same =
          let e : p.id ≡ id =
            k.same_id
            ∙ ap (λ (q : Peer). q.id) n
            ∙ merged-id patch old
            ∙ find_peer-id db.peers id {p = old} there in
          let f : c.peer_id ≡ id = (eq_iff c.peer_id p.id).0 same ∙ e in
          active-some old (subst (λ x. find_peer db.peers x ≡ some old) (sym f) there) stays.1

  ensure-Stays :
      (next r : Peer) (last : Db)
      → next ≡ merged patch old
      → (do
        p ← if next.reality_enabled then ensure_peer_reality credential uuid next else pure next
        update_peer_tx p
        finish next_uuid old p)
          db
        ≡ ok (r, last)
      → Stays last c
  ensure-Stays next r last n h =
      let (p, db3, e3, h3) =
        bind-eq-ok
          (if next.reality_enabled then ensure_peer_reality credential uuid next else pure next)
          (λ p. update_peer_tx p >> finish next_uuid old p) db h in
      write-Stays next p r db3 last n (ensured credential uuid next p db db3 e3) h3

  merge-Stays :
      (r : Peer) (last : Db)
      → merge credential uuid next_uuid patch old db ≡ ok (r, last)
      → Stays last c
  merge-Stays r last e = elim (Result-cases (apply_patch patch old)) [
    | inl (x, bad) ↦ let e' = rw bad at e in cc
    | inr (next, good) ↦
        let e' = rw good at e in ensure-Stays next r last (apply_patch-ok patch old next good) e'
  ]

  patch_peer_tx-Stays :
      (r : Peer) (last : Db)
      → patch_peer_tx credential uuid next_uuid id patch db ≡ ok (r, last)
      → Stays last c
  unfolding patch_peer_tx
  patch_peer_tx-Stays r last e =
      let (old', db1, e1, h1) =
        bind-eq-ok (select_peer id) (merge credential uuid next_uuid patch) db e in
      let (found, d1) = select_peer-ok id db db1 old' e1 in
      let q : old' ≡ old = some-eq (sym found ∙ there) in
      merge-Stays r last (
        subst (λ t. merge credential uuid next_uuid patch old t ≡ ok (r, last)) d1
          (subst (λ t. merge credential uuid next_uuid patch t db1 ≡ ok (r, last)) q h1))

  pub patch_peer-Stays : Stays (patch_peer credential uuid next_uuid id patch db).1 c
  unfolding patch_peer
  patch_peer-Stays =
      transaction-keeps (λ t. Stays t c) (patch_peer_tx credential uuid next_uuid id patch) db stays
        patch_peer_tx-Stays

-- The deletion of a peer without access.
module _ (id : String) (old : Peer) (db : Db) (c : Credential)
    (there : find_peer db.peers id ≡ some old)
    (no_access : (old.reality_enabled && old.enabled) ≡ false) (stays : Stays db c) where
  other_peer : (c.peer_id == id) ≡ false
  unfolding is_active
  other_peer = elim (Bool-cases (c.peer_id == id)) [
    | inr other ↦ other
    | inl same ↦
        let e : is_active (find_peer db.peers id) ≡ true =
          subst (λ x. is_active (find_peer db.peers x) ≡ true) ((eq_iff c.peer_id id).0 same)
            stays.1 in
        let e' = active-some old there e in absurd (ground (arith, no_access, e'))
  ]

  deleted : (r : PeerDeletion) (last : Db) → delete_peer_tx id db ≡ ok (r, last) → Stays last c
  deleted r last e =
      let (ps, cs) = delete_peer_tx-ok id r db last e in
      (
        subst (λ l. Mem c l) (sym cs)
            (mem-without_credential id c db.credentials other_peer stays.0),
        ap (λ l. is_active (find_peer l c.peer_id)) ps
            ∙ ap is_active (find_peer-without_peer id c.peer_id db.peers other_peer)
            ∙ stays.1,
      )

  pub delete_peer_with_effects-Stays : Stays (delete_peer_with_effects id db).1 c
  unfolding delete_peer_with_effects
  delete_peer_with_effects-Stays = transaction-keeps (λ t. Stays t c) _ db stays deleted

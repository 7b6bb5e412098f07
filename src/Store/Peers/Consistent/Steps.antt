-- ===== src/Store/Peers/Consistent/Steps.antt =====
-- internal/store: the writes to the tables of peers and credentials keep them in agreement.
use mathlib.Core.Bool.{not}
use razdacha.Prelude.{
  ℕ, ◌≡◌, inl, inr, refl, sym, ◌∙◌, ap, subst, List, [], ◌∷◌, ◌++◌, map, Option, none, some, Bool,
  true, false, ◌&&◌, ◌||◌, String, ◌==◌, eq_iff, any, arith, Bool-cases, if◌then◌else◌, leb,
}
use razdacha.Store.Model.{Peer, Credential, ok}
use razdacha.Store.Db.{Db, bind-eq-ok}
use razdacha.Store.Peers.{
  find_peer, overwrite_peer, insert_peer, insert_credential, record_admission, ensure_peer_reality,
}
use razdacha.Store.Peers.Deletion.{without_peer, without_credential}
use razdacha.Store.Peers.Rotation.{find_peer-id}
use razdacha.Store.Peers.Lookup.{find_peer-map, find_peer-without_peer, record_admission-id}
use razdacha.Store.Peers.Access.{overwrite_peer-id}
use razdacha.Store.Peers.Written.{insert_credential-ok}
use razdacha.Store.Peers.Consistent.{
  AllRows, AllRows-weaken, AllRows-append, AllRows-any, Agrees, IsConsistent,
}

-- The row of a peer after an update of the rows.
pub find_peer-updated :
    (f : Peer → Peer) (x : String) (ps : List Peer) {p : Peer}
    → ((q : Peer) → (f q).id ≡ q.id)
    → find_peer ps x ≡ some p
    → find_peer (map f ps) x ≡ some (f p)
find_peer-updated f x ps {p} keep e =
    find_peer-map f keep x ps
    ∙ ap (λ (o : Option Peer). elim o as (λ _. Option Peer) [ none ↦ none | some q ↦ some (f q) ]) e

overwrite_peer-admission :
    (p q : Peer)
    → ((overwrite_peer p q).reality_credential_id ≡ q.reality_credential_id)
      × ((overwrite_peer p q).reality_revision ≡ q.reality_revision)
unfolding overwrite_peer
overwrite_peer-admission p q = (ground arith, ground arith)

pub overwritten :
    (p : Peer) (db : Db)
    → IsConsistent db
    → IsConsistent (record db { peers = map (overwrite_peer p) db.peers })
overwritten p db =
    AllRows-weaken _ _
      (λ c (q, found, same, revision).
        let (a, b) = overwrite_peer-admission p q in
        (
          overwrite_peer p q,
          find_peer-updated (overwrite_peer p) c.peer_id db.peers {p = q} (overwrite_peer-id p)
              found,
          same ∙ sym a,
          revision ∙ sym b,
        ))
      db.credentials

-- The identifier of a row of peers that agrees with a credential.
pub owner :
    (c : Credential) (ps : List Peer) (id : String) (q : Peer)
    → find_peer ps c.peer_id ≡ some q
    → (c.peer_id == id) ≡ (q.id == id)
owner c ps id q found = ap (λ x. x == id) (sym (find_peer-id ps c.peer_id {p = q} found))

pub agree :
    (ps : List Peer) (c : Credential) (x : String) (p : Peer)
    → find_peer ps x ≡ some p
    → c.peer_id ≡ x
    → c.credential_id ≡ p.reality_credential_id
    → c.revision ≡ p.reality_revision
    → Agrees ps c
agree ps c x p found same credential revision =
    (p, ap (find_peer ps) same ∙ found, credential, revision)

-- The peer of a credential is the one that was found by the same identifier.
pub same_owner :
    (c : Credential) (ps : List Peer) (id : String) (q p : Peer)
    → find_peer ps c.peer_id ≡ some q
    → find_peer ps id ≡ some p
    → (c.peer_id == id) ≡ true
    → q ≡ p
same_owner c ps id q p found there mine =
    let s : some q ≡ some p =
      sym found ∙ ap (find_peer ps) ((eq_iff c.peer_id id).0 mine) ∙ there in
    cc

find_peer-append :
    (ps qs : List Peer) (x : String) {p : Peer}
    → find_peer ps x ≡ some p
    → find_peer (ps ++ qs) x ≡ some p
unfolding find_peer
find_peer-append [] qs x h = cc
find_peer-append (q ∷ ps) qs x {p} h = elim (Bool-cases (q.id == x)) [
  | inl same ↦ ground (arith, same, h)
  | inr other ↦
      let rest = find_peer-append ps qs x {p = p} (ground (arith, other, h)) in
      ground (arith, other, rest)
]

pub inserted :
    (p : Peer) (db after : Db) {u : Unit {0}}
    → insert_peer p db ≡ ok (u, after)
    → IsConsistent db
    → IsConsistent after
unfolding insert_peer
inserted p db after e h =
    let d : record db { peers = db.peers ++ p ∷ [] } ≡ after = ground arith in
    subst IsConsistent d (
      AllRows-weaken (Agrees db.peers) (Agrees (db.peers ++ p ∷ []))
        (λ c (q, found, same, revision).
          (q, find_peer-append db.peers (p ∷ []) c.peer_id {p = q} found, same, revision))
        db.credentials h)

pub without-Agrees :
    (ps : List Peer) (id : String) (cs : List Credential)
    → AllRows (Agrees ps) cs
    → AllRows (Agrees (without_peer id ps)) (without_credential id cs)
unfolding without_credential
without-Agrees ps id [] h = tt
without-Agrees ps id (c ∷ cs) ((q, found, same, revision), h) =
    elim (Bool-cases (c.peer_id == id)) [
      | inl gone ↦ rw gone (without-Agrees ps id cs h)
      | inr kept ↦ rw kept (
        (q, find_peer-without_peer id c.peer_id ps kept ∙ found, same, revision),
        without-Agrees ps id cs h,
      )
    ]

any-find_peer :
    (ps : List Peer) (id : String)
    → any (λ p. p.id == id) ps ≡ true
    → (p : Peer) × (find_peer ps id ≡ some p)
unfolding any find_peer
any-find_peer [] id h = cc
any-find_peer (q ∷ ps) id h = elim (Bool-cases (q.id == id)) [
  | inl same ↦ (q, rw same refl)
  | inr other ↦ let (p, e) = any-find_peer ps id (ground (arith, other, h)) in (p, rw other e)
]

-- Another credential of the peer.
abbrev clashes : Credential → Credential → Bool
clashes c d = (d.peer_id == c.peer_id) || (d.credential_id == c.credential_id) || (d.uuid == c.uuid)

insert_credential-checks :
    (c : Credential) (db after : Db) {u : Unit {0}}
    → insert_credential c db ≡ ok (u, after)
    → (any (clashes c) db.credentials ≡ false) × (any (λ p. p.id == c.peer_id) db.peers ≡ true)
unfolding insert_credential
insert_credential-checks c db after h = (ground arith, ground arith)

record_admission-row :
    (credential : String) (n : ℕ) (id : String) (q : Peer)
    → ((record_admission credential n id q).reality_credential_id
        ≡ (if q.id == id then credential else q.reality_credential_id))
      × ((record_admission credential n id q).reality_revision
          ≡ (if q.id == id then n else q.reality_revision))
unfolding record_admission
record_admission-row credential n id q = (ground arith, ground arith)

module _ (c : Credential) (ps : List Peer) where
  abbrev recorded : List Peer
  recorded = map (record_admission c.credential_id c.revision c.peer_id) ps

  other-Agrees : (d : Credential) → Agrees ps d × (clashes c d ≡ false) → Agrees recorded d
  other-Agrees d ((q, found, same, revision), apart) =
      let other : (d.peer_id == c.peer_id) ≡ false = ground arith in
      let o : (q.id == c.peer_id) ≡ false = sym (owner d ps c.peer_id q found) ∙ other in
      let (a, b) = record_admission-row c.credential_id c.revision c.peer_id q in
      (
        record_admission c.credential_id c.revision c.peer_id q,
        find_peer-updated (record_admission c.credential_id c.revision c.peer_id) d.peer_id ps
            {p = q} (record_admission-id c.credential_id c.revision c.peer_id) found,
        same ∙ sym (a ∙ ground (arith, o)),
        revision ∙ sym (b ∙ ground (arith, o)),
      )

  new-Agrees : any (λ p. p.id == c.peer_id) ps ≡ true → Agrees recorded c
  new-Agrees there =
      let (q, found) = any-find_peer ps c.peer_id there in
      let o : (q.id == c.peer_id) ≡ true =
        (eq_iff q.id c.peer_id).1 (find_peer-id ps c.peer_id {p = q} found) in
      let (a, b) = record_admission-row c.credential_id c.revision c.peer_id q in
      (
        record_admission c.credential_id c.revision c.peer_id q,
        find_peer-updated (record_admission c.credential_id c.revision c.peer_id) c.peer_id ps
            {p = q} (record_admission-id c.credential_id c.revision c.peer_id) found,
        sym (a ∙ ground (arith, o)),
        sym (b ∙ ground (arith, o)),
      )

pub ensured :
    (credential uuid : String) (p p' : Peer) (db after : Db)
    → ensure_peer_reality credential uuid p db ≡ ok (p', after)
    → IsConsistent db
    → IsConsistent after
unfolding ensure_peer_reality
ensured credential uuid p p' db after e h =
    elim (Bool-cases (not (p.reality_credential_id == "") && leb 1 p.reality_revision)) [
      | inl has_one ↦
          let e' = rw (ensure_peer_reality, has_one) at e in
          let d : db ≡ after = ground arith in subst IsConsistent d h
      | inr none_yet ↦
          let e' = rw (ensure_peer_reality, none_yet) at e in
          let c : Credential = record {
            peer_id = p.id;
            credential_id = credential;
            revision = 1;
            uuid = uuid;
          } in
          let (u, mid, e1, e2) = bind-eq-ok (insert_credential c) _ db e' in
          let d = insert_credential-ok c db mid e1 in
          let (apart, there) = insert_credential-checks c db mid e1 in
          let k : record mid { peers = map (record_admission credential 1 p.id) mid.peers }
              ≡ after =
            ground arith in
          let all : IsConsistent
              (record db { credentials = db.credentials ++ c ∷ []; peers = recorded c db.peers }) =
            AllRows-append (Agrees (recorded c db.peers)) db.credentials (c ∷ [])
              (AllRows-weaken (λ x. Agrees db.peers x × (clashes c x ≡ false))
                (Agrees (recorded c db.peers)) (other-Agrees c db.peers) db.credentials
                (AllRows-any (Agrees db.peers) (clashes c) db.credentials apart h))
              (new-Agrees c db.peers there, tt) in
          subst IsConsistent
            (ap (λ (t : Db). record t { peers = map (record_admission credential 1 p.id) t.peers })
                (sym d)
              ∙ k)
            all
    ]

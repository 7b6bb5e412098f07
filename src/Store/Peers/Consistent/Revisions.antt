-- ===== src/Store/Peers/Consistent/Revisions.antt =====
-- internal/store/reality.go: the changes of revisions keep the tables of peers and credentials in agreement.
use razdacha.Prelude.{
  ℕ, ◌+◌, ◌≡◌, inl, inr, sym, ◌∙◌, ap, List, [], ◌∷◌, map, some, true, false, ◌&&◌, String, ◌==◌,
  eq_iff, any, arith, Bool-cases, Option-cases, if◌then◌else◌,
}
use razdacha.Store.Model.{Peer, Credential}
use razdacha.Store.Db.{Db}
use razdacha.Store.Peers.{find_peer}
use razdacha.Store.Peers.Patch.{
  revision_of, bump_credential, bump_peer, rotate_credential, with_revision,
}
use razdacha.Store.Peers.Consistent.{
  AllRows, AllRows-map, AllRows-weaken, AllRows-any, Agrees, IsConsistent,
}
use razdacha.Store.Peers.Consistent.Steps.{find_peer-updated, owner, agree, same_owner}

with_revision-id : (n : ℕ) (id : String) (q : Peer) → (with_revision n id q).id ≡ q.id
unfolding with_revision
with_revision-id n id q = ground arith

with_revision-row :
    (n : ℕ) (id : String) (q : Peer)
    → ((with_revision n id q).reality_credential_id ≡ q.reality_credential_id)
      × ((with_revision n id q).reality_revision ≡ (if q.id == id then n else q.reality_revision))
unfolding with_revision
with_revision-row n id q = (ground arith, ground arith)

pub rotate_credential-row :
    (uuid : String) (p : Peer) (c : Credential)
    → ((rotate_credential uuid p c).peer_id ≡ c.peer_id)
      × ((rotate_credential uuid p c).credential_id ≡ c.credential_id)
      × ((rotate_credential uuid p c).revision ≡ (
          if (c.peer_id == p.id) && (c.credential_id == p.reality_credential_id)
          then p.reality_revision
          else c.revision))
unfolding rotate_credential
rotate_credential-row uuid p c = (ground arith, ground arith, ground arith)

-- A rotation gives the peer and its credential the same next revision.
rotated-Agrees :
    (uuid : String) (old : Peer) (n : ℕ) (ps : List Peer) (c : Credential)
    → find_peer ps old.id ≡ some old
    → Agrees ps c
    → let p = record old { reality_revision = n } in
      Agrees (map (with_revision n old.id) ps) (rotate_credential uuid p c)
      × ((rotate_credential uuid p c).peer_id ≡ c.peer_id)
      × ((rotate_credential uuid p c).revision ≡ (if c.peer_id == old.id then n else c.revision))
rotated-Agrees uuid old n ps c there (q, found, same, revision) =
    let p = record old { reality_revision = n } in
    let e =
      find_peer-updated (with_revision n old.id) c.peer_id ps {p = q} (with_revision-id n old.id)
        found in
    let (a, b) = with_revision-row n old.id q in
    let (r1, r2, r3) = rotate_credential-row uuid p c in
    let o = owner c ps old.id q found in
    let last : (rotate_credential uuid p c).revision
        ≡ (if c.peer_id == old.id then n else c.revision) =
      elim (Bool-cases (c.peer_id == old.id)) [
        | inr other ↦ r3 ∙ ground (arith, other)
        | inl mine ↦
            let t = same_owner c ps old.id q old found there mine in
            let k : (c.credential_id == old.reality_credential_id) ≡ true =
              (eq_iff c.credential_id old.reality_credential_id).1
                (same ∙ ap (λ (x : Peer). x.reality_credential_id) t) in
            r3 ∙ ground (arith, mine, k)
      ] in
    (
      agree (map (with_revision n old.id) ps) (rotate_credential uuid p c) c.peer_id
          (with_revision n old.id q) e r1 (r2 ∙ same ∙ sym a)
          (last ∙ ground (arith, o, revision) ∙ sym b),
      r1,
      last,
    )

pub rotated :
    (uuid : String) (old : Peer) (n : ℕ) (db : Db)
    → find_peer db.peers old.id ≡ some old
    → IsConsistent db
    → let p = record old { reality_revision = n } in
      IsConsistent (record db {
        credentials = map (rotate_credential uuid p) db.credentials;
        peers = map (with_revision n old.id) db.peers;
      })
rotated uuid old n db there h =
    AllRows-map (Agrees db.peers) _ _ (λ c k. (rotated-Agrees uuid old n db.peers c there k).0)
      db.credentials h

bump_peer-row :
    (cs : List Credential) (id : String) (q : Peer)
    → ((bump_peer cs id q).id ≡ q.id)
      × ((bump_peer cs id q).reality_credential_id ≡ q.reality_credential_id)
      × ((bump_peer cs id q).reality_revision
          ≡ (if q.id == id then revision_of cs q.id else q.reality_revision))
unfolding bump_peer
bump_peer-row cs id q = (ground arith, ground arith, ground arith)

pub bump_credential-row :
    (uuid id : String) (c : Credential)
    → ((bump_credential uuid id c).peer_id ≡ c.peer_id)
      × ((bump_credential uuid id c).credential_id ≡ c.credential_id)
      × ((bump_credential uuid id c).revision
          ≡ (if c.peer_id == id then c.revision + 1 else c.revision))
unfolding bump_credential
bump_credential-row uuid id c = (ground arith, ground arith, ground arith)

-- All rows of a peer have its revision, so the first of them has it after the change, with one added.
revision_of-bump :
    (uuid id : String) (n : ℕ) (cs : List Credential)
    → AllRows (λ c. (c.peer_id == id) ≡ true → c.revision ≡ n) cs
    → any (λ c. c.peer_id == id) cs ≡ true
    → revision_of (map (bump_credential uuid id) cs) id ≡ n + 1
unfolding revision_of bump_credential any
revision_of-bump uuid id n [] h e = cc
revision_of-bump uuid id n (c ∷ cs) h e = elim (Bool-cases (c.peer_id == id)) [
  | inl mine ↦ ground (arith, mine, h.0 mine)
  | inr other ↦ ground (arith, other, revision_of-bump uuid id n cs h.1 (ground (arith, other, e)))
]

module _ (uuid id : String) (ps : List Peer) (cs : List Credential) (n : ℕ) where
  -- The rows of a peer with the next revision.
  bumped-Agrees :
      ((q : Peer) → find_peer ps id ≡ some q → q.reality_revision ≡ n)
      → (c : Credential) → Agrees ps c
      → ((c.peer_id == id) ≡ true → revision_of cs id ≡ n + 1)
      → Agrees (map (bump_peer cs id) ps) (bump_credential uuid id c)
  bumped-Agrees known c (q, found, same, revision) next =
      let e =
        find_peer-updated (bump_peer cs id) c.peer_id ps {p = q} (λ x. (bump_peer-row cs id x).0)
          found in
      let (_, a, b) = bump_peer-row cs id q in
      let (r1, r2, r3) = bump_credential-row uuid id c in
      let o = owner c ps id q found in
      let last : (bump_credential uuid id c).revision ≡ (bump_peer cs id q).reality_revision =
        elim (Bool-cases (c.peer_id == id)) [
          | inr other ↦ r3 ∙ ground (arith, other, o, revision) ∙ sym b
          | inl mine ↦
              let i : q.id ≡ id = (eq_iff q.id id).0 (sym o ∙ mine) in
              let k = known q (ap (find_peer ps) (sym ((eq_iff c.peer_id id).0 mine)) ∙ found) in
              let v : revision_of cs q.id ≡ n + 1 = ap (revision_of cs) i ∙ next mine in
              r3 ∙ ground (arith, mine, o, revision, k, v) ∙ sym b
        ] in
      agree (map (bump_peer cs id) ps) (bump_credential uuid id c) c.peer_id (bump_peer cs id q) e
        r1 (r2 ∙ same ∙ sym a) last

pub invalidated :
    (uuid id : String) (db : Db)
    → IsConsistent db
    → let cs = map (bump_credential uuid id) db.credentials in
      IsConsistent (record db { credentials = cs; peers = map (bump_peer cs id) db.peers })
invalidated uuid id db h =
    let cs = map (bump_credential uuid id) db.credentials in
    elim (Option-cases (find_peer db.peers id)) [
      | inl gone ↦
          AllRows-map (Agrees db.peers) (Agrees (map (bump_peer cs id) db.peers))
            (bump_credential uuid id)
            (λ c k.
              bumped-Agrees uuid id db.peers cs 0 (λ q e. cc (gone, e)) c k
                (λ mine. cc (k.1, ap (find_peer db.peers) ((eq_iff c.peer_id id).0 mine), gone)))
            db.credentials h
      | inr (p, there) ↦ elim (Bool-cases (any (λ c. c.peer_id == id) db.credentials)) [
        | inr no_row ↦
            AllRows-map (λ c. Agrees db.peers c × ((c.peer_id == id) ≡ false))
              (Agrees (map (bump_peer cs id) db.peers)) (bump_credential uuid id)
              (λ c k.
                bumped-Agrees uuid id db.peers cs p.reality_revision
                  (λ q e. let s : some q ≡ some p = sym e ∙ there in cc) c k.0
                  (λ mine. cc (k.1, mine)))
              db.credentials
              (AllRows-any (Agrees db.peers) (λ c. c.peer_id == id) db.credentials no_row h)
        | inl row ↦
            let next =
              revision_of-bump uuid id p.reality_revision db.credentials
                (AllRows-weaken (Agrees db.peers)
                  (λ c. (c.peer_id == id) ≡ true → c.revision ≡ p.reality_revision)
                  (λ c (q, found, same, revision) mine.
                    revision
                    ∙ ap (λ (x : Peer). x.reality_revision)
                        (same_owner c db.peers id q p found there mine))
                  db.credentials h)
                row in
            AllRows-map (Agrees db.peers) (Agrees (map (bump_peer cs id) db.peers))
              (bump_credential uuid id)
              (λ c k.
                bumped-Agrees uuid id db.peers cs p.reality_revision
                  (λ q e. let s : some q ≡ some p = sym e ∙ there in cc) c k (λ mine. next))
              db.credentials h
      ]
    ]

-- ===== src/Store/Peers/Snapshot.antt =====
-- internal/store/snapshot.go: the admissions that a snapshot records, and what RealityRuntime makes of them.
use mathlib.Core.Bool.{not}
use razdacha.Prelude.{
  ◌≡◌, refl, inl, inr, sym, ◌∙◌, ap, List, [], ◌∷◌, Option, none, some, Bool, true, false, ◌&&◌,
  String, ◌==◌, eqb_iff, eq_iff, any, arith, Bool-cases, Option-cases, if◌then◌else◌,
}
use razdacha.Store.Model.{Peer, Credential}
use razdacha.Store.Db.{Db}
use razdacha.Store.Peers.{find_peer}
use razdacha.Store.Peers.Patched.{is_issued}
use razdacha.Store.Peers.Revoked.{AdmitsUpTo}
use razdacha.Store.Peers.Consistent.{Agrees, AllRows, IsConsistent}
use razdacha.Store.Peers.Runtime.{
  Admission, Admitted, User, reality_user_name, is_active, is_live, admission_of, valid_admissions,
  policy_peer, matches, lets_in, users_of, reality_users,
}

-- The loop of Snapshot over the peers.
abbrev pub admission : Peer → Admission
admission p = record {
  peer_id = p.id;
  credential_id = p.reality_credential_id;
  revision = p.reality_revision;
}

unfoldable pub admissions_of : List Peer → List Admission
admissions_of [] = []
admissions_of (p ∷ ps) =
    let rest = admissions_of ps in
    if p.reality_enabled && not (p.reality_credential_id == "") then admission p ∷ rest else rest

-- What RealityRuntime reads of the Snapshot; the identifier of the stored identity is an input.
abbrev pub snapshot : String → Db → Admitted
snapshot identity db = record {
  identity_id = identity;
  admissions = admissions_of db.peers;
  peers = db.peers;
}

-- The identifiers of the peers differ, and a peer with REALITY has an identifier and a credential.
abbrev pub IsIssued : List Peer → Type 0
IsIssued [] = Unit
IsIssued (p ∷ ps) =
    (any (λ q. q.id == p.id) ps ≡ false)
    × (p.reality_enabled ≡ true → ((p.id == "") ≡ false) × (is_issued p ≡ true))
    × IsIssued ps

find_peer-none :
    (ps : List Peer) (id : String) → any (λ q. q.id == id) ps ≡ false → find_peer ps id ≡ none
unfolding find_peer any
find_peer-none [] id h = refl
find_peer-none (p ∷ ps) id h =
    let rest = find_peer-none ps id (ground (arith, h)) in ground (arith, h, rest)

-- The rest of the peers has none with the identifier of the first.
first-only :
    (p : Peer) (ps : List Peer) (id : String)
    → any (λ q. q.id == p.id) ps ≡ false
    → (p.id == id) ≡ true
    → find_peer ps id ≡ none
first-only p ps id h same =
    ap (find_peer ps) (sym ((eq_iff p.id id).0 same)) ∙ find_peer-none ps p.id h

policy_peer-find_peer :
    (ps : List Peer) (id : String) → IsIssued ps → policy_peer ps id ≡ find_peer ps id
unfolding policy_peer find_peer
policy_peer-find_peer [] id h = refl
policy_peer-find_peer (p ∷ ps) id (apart, issued, h) =
    let rest = policy_peer-find_peer ps id h in
    elim (Bool-cases (p.id == id)) [
      | inl same ↦ let gone = first-only p ps id apart same in ground (arith, rest, gone, same)
      | inr other ↦ elim (Option-cases (find_peer ps id)) [
        | inl gone ↦ ground (arith, rest, gone, other)
        | inr (q, there) ↦ ground (arith, rest, there, other)
      ]
    ]

-- The admission of the peer that was found.
abbrev admission_if : Option Peer → Option Admission
admission_if none = none
admission_if (some p) = if p.reality_enabled then some (admission p) else none

admission_of-admissions_of :
    (ps : List Peer) (id : String)
    → IsIssued ps
    → admission_of (admissions_of ps) id ≡ admission_if (find_peer ps id)
unfolding admission_of admissions_of find_peer
admission_of-admissions_of [] id h = refl
admission_of-admissions_of (p ∷ ps) id (apart, issued, h) =
    let rest = admission_of-admissions_of ps id h in
    elim (Bool-cases (p.id == id)) [
      | inl same ↦
          let gone = rest ∙ ap admission_if (first-only p ps id apart same) in
          elim (Bool-cases p.reality_enabled) [
            | inl on ↦ let (_, k) = issued on in ground (arith, on, same, k)
            | inr off ↦ ground (arith, off, same, gone)
          ]
      | inr other ↦ elim (Bool-cases p.reality_enabled) [
        | inl on ↦ let (_, k) = issued on in ground (arith, on, other, k, rest)
        | inr off ↦ ground (arith, off, other, rest)
      ]
    ]

-- No peer has one of the identifiers.
abbrev new_in : List String → List Peer → Bool
new_in seen ps = not (any (λ s. any (λ q. q.id == s) ps) seen)

new_in-cons :
    (seen : List String) (p : Peer) (ps : List Peer)
    → new_in seen (p ∷ ps) ≡ true
    → (any (λ id. id == p.id) seen ≡ false) × (new_in seen ps ≡ true)
unfolding any
new_in-cons [] p ps h = (refl, refl)
new_in-cons (s ∷ seen) p ps h =
    let (a, b) = new_in-cons seen p ps (ground (arith, h)) in
    let apart : (s == p.id) ≡ false = elim (Bool-cases (s == p.id)) [
      | inr other ↦ other
      | inl same ↦
          let k : (p.id == s) ≡ true = (eq_iff p.id s).1 (sym ((eq_iff s p.id).0 same)) in
          absurd (ground (arith, h, k))
    ] in
    (ground (arith, a, apart), ground (arith, h, b))

valid_admissions-admissions_of :
    (seen : List String) (ps : List Peer)
    → new_in seen ps ≡ true
    → IsIssued ps
    → valid_admissions seen (admissions_of ps) ≡ true
unfolding valid_admissions admissions_of any
valid_admissions-admissions_of seen [] new h = refl
valid_admissions-admissions_of seen (p ∷ ps) new (apart, issued, h) =
    let (fresh, new') = new_in-cons seen p ps new in
    elim (Bool-cases p.reality_enabled) [
      | inr off ↦ ground (arith, off, valid_admissions-admissions_of seen ps new' h)
      | inl on ↦
          let (named, k) = issued on in
          let both : new_in (p.id ∷ seen) ps ≡ true = ground (arith, apart, new') in
          ground
            (arith, on, named, k, fresh, valid_admissions-admissions_of (p.id ∷ seen) ps both h)
    ]

lets_in-snapshot :
    (identity : String) (db : Db) (c : Credential)
    → IsIssued db.peers
    → Agrees db.peers c
    → lets_in (snapshot identity db) db c ≡ is_live db c
unfolding lets_in matches is_active
lets_in-snapshot identity db c h (q, found, same, revision) =
    let policy = policy_peer-find_peer db.peers c.peer_id h ∙ found in
    let admitted = admission_of-admissions_of db.peers c.peer_id h ∙ ap admission_if found in
    let e = (eq_iff q.reality_credential_id c.credential_id).1 (sym same) in
    let r = (eqb_iff q.reality_revision c.revision).1 (sym revision) in
    ground (arith, found, policy, admitted, e, r)

-- The users of the credentials in use.
unfoldable pub live_users : Db → List Credential → List User
live_users db [] = []
live_users db (c ∷ cs) =
    let rest = live_users db cs in
    if is_live db c
    then (record { peer_id = c.peer_id; name = reality_user_name c.peer_id; uuid = c.uuid }) ∷ rest
    else rest

users_of-snapshot :
    (identity : String) (db : Db) (cs : List Credential)
    → IsIssued db.peers
    → AllRows (Agrees db.peers) cs
    → users_of (snapshot identity db) db cs ≡ live_users db cs
unfolding users_of live_users
users_of-snapshot identity db [] h k = refl
users_of-snapshot identity db (c ∷ cs) h (k, ks) =
    let same = lets_in-snapshot identity db c h k in
    let rest = users_of-snapshot identity db cs h ks in ground (arith, same, rest)

-- With the snapshot of the same tables RealityRuntime succeeds, and lets in exactly the clients whose
-- credential is in use, each as the table of credentials has it; REALITY is switched on, the identity is
-- stored, the tables agree, the identifiers of the peers differ, and a peer with REALITY has an identifier
-- and a credential.
pub reality_users-snapshot :
    (identity : String) (db : Db)
    → IsConsistent db
    → IsIssued db.peers
    → reality_users true (some identity) (snapshot identity db) db
      ≡ some (live_users db db.credentials)
unfolding reality_users any
reality_users-snapshot identity db c h =
    let i : (identity == identity) ≡ true = (eq_iff identity identity).1 refl in
    let v = valid_admissions-admissions_of [] db.peers refl h in
    ground (arith, i, v, users_of-snapshot identity db db.credentials h c)

-- A snapshot admits a peer with no revision above that of its row.
pub snapshot-AdmitsUpTo :
    (identity : String) (db : Db) (id : String) {old : Peer}
    → IsIssued db.peers
    → find_peer db.peers id ≡ some old
    → AdmitsUpTo id old.reality_revision (snapshot identity db)
snapshot-AdmitsUpTo identity db id {old} h there a e =
    let k = sym e ∙ admission_of-admissions_of db.peers id h ∙ ap admission_if there in
    elim (Bool-cases old.reality_enabled) [
      | inl on ↦
          let r : a ≡ admission old = ground (arith, k, on) in
          omega (arith, ap (λ (x : Admission). x.revision) r)
      | inr off ↦ absurd (ground (arith, k, off))
    ]

-- ===== src/Store/Peers/Access.antt =====
-- internal/store: what the writes of PatchPeer do to who has access.
use mathlib.Core.Bool.{not}
use mathlib.Core.List.{Mem, mem-append_left}
use razdacha.Prelude.{
  leb, ◌≡◌, inl, inr, sym, ◌∙◌, ap, subst, true, ◌&&◌, List, [], ◌∷◌, map, Option, none, some,
  String, ◌==◌, eq_iff, arith, Bool-cases, Option-cases,
}
use razdacha.Store.Model.{Peer, Credential, ok}
use razdacha.Store.Db.{Db, bind-eq-ok}
use razdacha.Store.Peers.{
  find_peer, overwrite_peer, record_admission, insert_credential, ensure_peer_reality,
}
use razdacha.Store.Peers.Rotation.{find_peer-id}
use razdacha.Store.Peers.Runtime.{is_active}
use razdacha.Store.Peers.Lookup.{
  find_peer-map, is_active-map, record_admission-id, record_admission-active,
}
use razdacha.Store.Peers.Written.{insert_credential-ok}

-- What ensurePeerReality leaves as it is.
pub record Ensured (next p : Peer) (db after : Db) : Type 0 where
  pub same_id : p.id ≡ next.id
  pub same_enabled : p.enabled ≡ next.enabled
  pub same_reality : p.reality_enabled ≡ next.reality_enabled
  pub credentials : (c : Credential) → Mem c db.credentials → Mem c after.credentials
  pub peers : (x : String) → is_active (find_peer after.peers x) ≡ is_active (find_peer db.peers x)

pub unchanged : (next p : Peer) (db after : Db) → next ≡ p → db ≡ after → Ensured next p db after
unchanged next p db after e d = record {
  same_id = ap (λ (q : Peer). q.id) (sym e);
  same_enabled = ap (λ (q : Peer). q.enabled) (sym e);
  same_reality = ap (λ (q : Peer). q.reality_enabled) (sym e);
  credentials = λ c m. subst (λ (t : Db). Mem c t.credentials) d m;
  peers = λ x. ap (λ (t : Db). is_active (find_peer t.peers x)) (sym d);
}

pub ensure_peer_reality-Ensured :
    (credential uuid : String) (next p : Peer) (db after : Db)
    → ensure_peer_reality credential uuid next db ≡ ok (p, after)
    → Ensured next p db after
unfolding ensure_peer_reality
ensure_peer_reality-Ensured credential uuid next p db after h =
    elim (Bool-cases (not (next.reality_credential_id == "") && leb 1 next.reality_revision)) [
      | inl has_one ↦
          let h' = rw (ensure_peer_reality, has_one) at h in
          let e : next ≡ p = ground arith in
          let d : db ≡ after = ground arith in unchanged next p db after e d
      | inr none_yet ↦
          let h' = rw (ensure_peer_reality, none_yet) at h in
          let c : Credential = record {
            peer_id = next.id;
            credential_id = credential;
            revision = 1;
            uuid = uuid;
          } in
          let (u, mid, e1, e2) = bind-eq-ok (insert_credential c) _ db h' in
          let d = insert_credential-ok c db mid e1 in
          let e : record next { reality_credential_id = credential; reality_revision = 1 } ≡ p =
            ground arith in
          let k : record mid { peers = map (record_admission credential 1 next.id) mid.peers }
              ≡ after =
            ground arith in
          record {
            same_id = ap (λ (q : Peer). q.id) (sym e);
            same_enabled = ap (λ (q : Peer). q.enabled) (sym e);
            same_reality = ap (λ (q : Peer). q.reality_enabled) (sym e);
            credentials = λ x m.
                subst (λ (t : Db). Mem x t.credentials) k
                  (subst (λ (t : Db). Mem x t.credentials) (sym d) (mem-append_left (c ∷ []) m));
            peers = λ x.
                ap (λ (t : Db). is_active (find_peer t.peers x)) (sym k)
                ∙ is_active-map (record_admission credential 1 next.id) x mid.peers
                    (record_admission-id credential 1 next.id)
                    (record_admission-active credential 1 next.id)
                ∙ ap (λ (t : Db). is_active (find_peer t.peers x)) d;
          }
    ]

pub overwrite_peer-id : (p q : Peer) → (overwrite_peer p q).id ≡ q.id
unfolding overwrite_peer
overwrite_peer-id p q = ground arith

pub overwrite_peer-active :
    (p : Peer) (x : String) (ps : List Peer)
    → ((x == p.id) ≡ true → (p.enabled && p.reality_enabled) ≡ true)
    → is_active (find_peer ps x) ≡ true
    → is_active (find_peer (map (overwrite_peer p) ps) x) ≡ true
unfolding overwrite_peer is_active
overwrite_peer-active p x ps on h = elim (Option-cases (find_peer ps x)) [
  | inl gone ↦ let h' = rw gone at h in cc
  | inr (q, there) ↦
      let same = find_peer-id ps x {p = q} there in
      let h' : (q.enabled && q.reality_enabled) ≡ true = ap is_active (sym there) ∙ h in
      let e : find_peer (map (overwrite_peer p) ps) x ≡ some (overwrite_peer p q) =
        find_peer-map (overwrite_peer p) (λ r. overwrite_peer-id p r) x ps
        ∙ ap
            (λ (o : Option Peer). elim o as (λ _. Option Peer) [
              | none ↦ none
              | some r ↦ some (overwrite_peer p r)
            ])
            there in
      ap is_active e ∙ ground (arith, same, h', on, eq_iff q.id p.id, eq_iff x p.id)
]

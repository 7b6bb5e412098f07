-- ===== src/Daemon/Revocation/Handled.antt =====
-- cmd/razdachad/reality.go: the order of the store and the guard in the three operations.
use mathlib.Core.Bool.{not}
use mathlib.Core.List.{Mem}
use razdacha.Prelude.{
  ℕ, ◌≡◌, ◌⊎◌, inl, inr, refl, sym, subst, Bool, true, false, ◌&&◌, List, [], none, some, String,
  Bool-cases, Option-cases, eqb,
}
use razdacha.Ingress.Endpoints.{IsLawful}
use razdacha.Store.Model.{Peer, Credential, Error, Result, ok, err}
use razdacha.Store.Db.{Db, transaction-err}
use razdacha.Store.Peers.{find_peer}
use razdacha.Store.Peers.Patch.{
  PeerPatch, patch_peer, patch_peer_tx, rotate_reality, rotate_reality_tx,
}
use razdacha.Store.Peers.Deletion.{PeerDeletion, delete_peer_with_effects}
use razdacha.Daemon.World
use razdacha.Daemon.World.{Program, World, Run}
use razdacha.Daemon.Publish.{Answers}
use razdacha.Daemon.Publish.Coherent.{Ends-ok, Ends-err}
use razdacha.Daemon.Revocation.{
  not_closed, Request, Operation, revokes, validate_peer_patch, close_for_revocation, refuse,
  ask_store, under_guard, patch_peer_guarded, delete_peer_guarded, rotate_reality_guarded,
  without_value, handle,
}
use razdacha.Store.Peers.Runtime.{is_live}
use razdacha.Daemon.Revocation.Closed.{
  IsClosedOff, Held, Closes, close_for_revocation-Post, Closes-IsClosedOff,
}
use razdacha.Store.Peers.Lookup.{Stays}
use razdacha.Daemon.Revocation.Kept.{patch_peer-Stays, delete_peer_with_effects-Stays}

Result-cases :
    (r : World.Result (Unit {0})) → ((e : World.Error) × (r ≡ World.err e)) ⊎ (r ≡ World.ok tt)
Result-cases (World.err e) = inl (e, refl)
Result-cases (World.ok _) = inr refl

module _ {P : Program} (closing : Answers P) (after : Db → Answers P) where
  ask_store-asked :
      {A : Type 0} (revoke : Bool) (vs : List (World P)) (w : World P) (t : Result A × Db)
      → ((ask_store closing after revoke vs w t).asked ≡ some w)
        × ((ask_store closing after revoke vs w t).db ≡ t.1)
  unfolding ask_store
  ask_store-asked revoke vs w (err e, db) = (refl, refl)
  ask_store-asked false vs w (ok x, db) = (refl, refl)
  ask_store-asked true vs w (ok x, db) = (refl, refl)

  -- The two ways of an operation: it is refused before the gate does anything, or it is a change under
  -- the guard, which undoes itself where it fails, and keeps the credentials where it does not revoke.
  module _ (G : Operation P (Unit {0}) → Type 0) (w : World P) (db : Db)
      (refused_first : (e : Error) → G (refuse e w db))
      (changed : (A : Type 0) (revoke : Bool) (write : Db → Result A × Db)
        → ((e : Error) → (write db).0 ≡ err e → (write db).1 ≡ db)
        → (revoke ≡ false → (c : Credential) → Stays db c → Stays (write db).1 c)
        → G (without_value (under_guard closing after revoke write w db))) where
    patched :
        (credential uuid next_uuid id : String) (change : PeerPatch)
        → G (
            without_value
              (patch_peer_guarded closing after credential uuid next_uuid id change w db))
    unfolding patch_peer_guarded patch_peer refuse without_value
    patched credential uuid next_uuid id change = elim (Option-cases (find_peer db.peers id)) [
      | inl gone ↦ rw (gone, patch_peer_guarded) (refused_first Error.not_found)
      | inr (old, there) ↦ elim (Option-cases (validate_peer_patch change old db)) [
        | inr (e, bad) ↦ rw (there, bad, patch_peer_guarded) (refused_first e)
        | inl good ↦
            rw (there, good, patch_peer_guarded)
              (changed Peer (revokes change old) (patch_peer credential uuid next_uuid id change)
                (λ e h.
                  transaction-err (patch_peer_tx credential uuid next_uuid id change) db {e = e} h)
                (λ lasting c stays.
                  patch_peer-Stays credential uuid next_uuid id change old db c there lasting
                    stays))
      ]
    ]

    deleted : (id : String) → G (without_value (delete_peer_guarded closing after id w db))
    unfolding delete_peer_guarded delete_peer_with_effects refuse without_value
    deleted id = elim (Option-cases (find_peer db.peers id)) [
      | inl gone ↦ rw (gone, delete_peer_guarded) (refused_first Error.not_found)
      | inr (old, there) ↦
          rw (there, delete_peer_guarded)
            (changed PeerDeletion (old.reality_enabled && old.enabled) (delete_peer_with_effects id)
              (λ e h. transaction-err _ db {e = e} h)
              (λ lasting c stays. delete_peer_with_effects-Stays id old db c there lasting stays))
    ]

    rotated :
        (uuid id : String) (expected : ℕ)
        → G (without_value (rotate_reality_guarded closing after uuid id expected w db))
    unfolding rotate_reality_guarded rotate_reality refuse without_value
    rotated uuid id expected = elim (Option-cases (find_peer db.peers id)) [
      | inl gone ↦ rw (gone, rotate_reality_guarded) (refused_first Error.not_found)
      | inr (old, there) ↦ elim (Bool-cases (not (eqb expected old.reality_revision))) [
        | inl stale_one ↦
            rw (there, stale_one, rotate_reality_guarded) (refused_first Error.conflict)
        | inr timely ↦ elim (Bool-cases (not old.reality_enabled)) [
          | inl off ↦ rw (there, timely, off, rotate_reality_guarded) (refused_first Error.invalid)
          | inr on ↦
              rw (there, timely, on, rotate_reality_guarded)
                (changed Peer true (rotate_reality uuid id expected)
                  (λ e h. transaction-err (rotate_reality_tx uuid id expected) db {e = e} h)
                  (λ f. cc))
        ]
      ]
    ]

    pub handle_any : (request : Request) → G (handle closing after request w db)
    unfolding handle
    handle_any (Request.of_patch credential uuid next_uuid id change) =
        patched credential uuid next_uuid id change
    handle_any (Request.of_deletion id) = deleted id
    handle_any (Request.of_rotation uuid id expected) = rotated uuid id expected

  -- A revoking change: ingress could not be closed, or it was, and then the store was asked.
  pub under_guard_cases :
      {A : Type 0} (write : Db → Result A × Db) (w : World P) (db : Db)
      → ((e : World.Error) × Held closing w (close_for_revocation closing w).last
          × (under_guard closing after true write w db ≡ record {
            visited = (close_for_revocation closing w).visited;
            asked = none;
            last = (close_for_revocation closing w).last;
            db = db;
            value = none;
            failure = some (not_closed e);
          }))
        ⊎ (Closes closing w tt (close_for_revocation closing w).last
            × (under_guard closing after true write w db
                ≡ ask_store closing after true
                    (close_for_revocation closing w).visited
                    (close_for_revocation closing w).last
                    (write db)))
  unfolding under_guard
  under_guard_cases write w db =
      let ends = (close_for_revocation-Post closing w).ends in
      elim (Result-cases (close_for_revocation closing w).result) [
        | inl (e, bad) ↦ inl (
          e,
          Ends-err closing (Closes closing w) (λ _ v. Held closing w v) _ _ e ends bad,
          rw (bad, under_guard) refl,
        )
        | inr good ↦ inr (
          Ends-ok closing (Closes closing w) (λ _ v. Held closing w v) _ _ ends good,
          rw (good, under_guard) refl,
        )
      ]

  -- What the store had before, or the world in which it is asked is closed off.
  abbrev pub Ordered : Db → Credential → Operation P (Unit {0}) → Type 0
  Ordered db c r = Stays r.db c ⊎ ((v : World P) × (r.asked ≡ some v) × IsClosedOff v)

  under_guard-Ordered :
      {A : Type 0} (lawful : IsLawful P.outside.ip) (revoke : Bool) (write : Db → Result A × Db)
      (w : World P) (db : Db) (c : Credential)
      → (revoke ≡ false → Stays (write db).1 c)
      → Stays db c
      → Ordered db c (without_value (under_guard closing after revoke write w db))
  unfolding without_value under_guard
  under_guard-Ordered lawful false write w db c keeps stays =
      inl (subst (λ t. Stays t c) (sym (ask_store-asked false [] w (write db)).1) (keeps refl))
  under_guard-Ordered lawful true write w db c keeps stays = elim (under_guard_cases write w db) [
    | inl (e, h, q) ↦ inl (subst (λ r. Stays r.db c) (sym q) stays)
    | inr (h, q) ↦ inr (
      (close_for_revocation closing w).last,
      subst (λ r. r.asked ≡ some (close_for_revocation closing w).last) (sym q)
          (ask_store-asked true _ (close_for_revocation closing w).last (write db)).0,
      Closes-IsClosedOff closing w lawful (close_for_revocation closing w).last h,
    )
  ]

  -- Where an operation on a peer ends with a credential out of use that was in use before, the store was
  -- asked in a world in which the guard of wg0 is closed, the gate is not sure, the manifest on the disk is
  -- marked, and every listener of the configuration on the disk is dropped.
  pub handle-IsClosedOff :
      (lawful : IsLawful P.outside.ip) (request : Request) (w : World P) (db : Db) (c : Credential)
      → Mem c db.credentials
      → is_live db c ≡ true
      → (Mem c (handle closing after request w db).db.credentials
          × (is_live (handle closing after request w db).db c ≡ true))
        ⊎ ((v : World P) × ((handle closing after request w db).asked ≡ some v) × IsClosedOff v)
  handle-IsClosedOff lawful request w db c m live =
      handle_any (Ordered db c) w db (λ e. inl (unfold refuse in (m, live)))
        (λ A revoke write clean keeps.
          under_guard-Ordered lawful revoke write w db c (λ f. keeps f c (m, live)) (m, live))
        request

-- ===== src/Daemon/Revocation.antt =====
-- cmd/razdachad/reality.go: PatchPeer, DeletePeer and RotateReality, the changes of the store that may
-- take a credential away, under the mutex of the gate. Not here: the epoch of the activity.
pub mod Closed
pub mod Kept
pub mod Handled
pub mod Settled
mod Tests
use mathlib.Core.Bool.{not}
use razdacha.Prelude.{
  ℕ, Bool, true, false, ◌&&◌, ◌||◌, List, [], ◌++◌, Option, none, some, String, eqb, if◌then◌else◌,
}
use razdacha.Store.Model.{Peer, Credential, Error, Result, ok, err}
use razdacha.Store.Db.{Db}
use razdacha.Store.Peers.{find_peer, validate_peer_egress}
use razdacha.Store.Peers.Runtime.{is_active, is_live}
use razdacha.Store.Peers.Patch.{PeerPatch, apply_patch, patch_peer, rotate_reality}
use razdacha.Store.Peers.Deletion.{PeerDeletion, delete_peer_with_effects}
use razdacha.Daemon.World
use razdacha.Daemon.World.{
  Program, World, guarded, Run, M, read, ◌>>=◌, ◌>>◌, proceed, change, require,
}
use razdacha.Daemon.Publish.{Answers, Call, Check, lift, set_guard, stage_public, publish}

-- Why an operation fails: the store refuses, ingress cannot be closed, or what was left could not be
-- published after the change.
pub data Failure : Type 0 where
  store_error : Error → Failure
  not_closed : World.Error → Failure
  still_guarded : Failure

-- A call of PatchPeer, DeletePeer or RotateReality, with the values of newID() that it may use.
pub data Request : Type 0 where
  of_patch : (credential uuid next_uuid id : String) → PeerPatch → Request
  of_deletion : (id : String) → Request
  of_rotation : (uuid id : String) (expected : ℕ) → Request

-- A run of an operation. `asked` is the world in which the store is asked for the change, where it is.
pub record Operation (P : Program) (A : Type 0) : Type 0 where
  pub visited : List (World P)
  pub asked : Option (World P)
  pub last : World P
  pub db : Db
  pub value : Option A
  pub failure : Option Failure

unfoldable pub says_no : Option Bool → Bool
says_no none = false
says_no (some on) = not on

unfoldable pub revokes : PeerPatch → Peer → Bool
revokes patch old =
    old.reality_enabled && old.enabled && (says_no patch.enabled || says_no patch.reality_enabled)

-- ValidatePeerPatch.
unfoldable pub validate_peer_patch : PeerPatch → Peer → Db → Option Error
validate_peer_patch patch old db = elim (apply_patch patch old) [
  | err e ↦ some e
  | ok next ↦ elim (validate_peer_egress next.egress_tunnel_id db) [ err e ↦ some e | ok _ ↦ none ]
]

-- The error of reconcileRevocation.
unfoldable pub left_guarded : World.Result (Unit {0}) → Option Failure
left_guarded (World.ok _) = none
left_guarded (World.err e) = some Failure.still_guarded

module _ {P : Program} where
  unfoldable pub close_for_revocation : Answers P → M P (Unit {0})
  close_for_revocation a = do
    require guarded (a.passes Check.candidate_data)
    current ← read (λ w. w.config)
    config ← lift guarded current
    stage_public a config
    change (λ w. record w { uncertain = true })
    closed ← set_guard a Call.close_guard true
    require guarded closed

  unfoldable pub refuse : {A : Type 0} → Error → World P → Db → Operation P A
  refuse e w db = record {
    visited = [];
    asked = none;
    last = w;
    db = db;
    value = none;
    failure = some (Failure.store_error e);
  }

  -- Whatever an operation returns.
  unfoldable pub without_value : {A : Type 0} → Operation P A → Operation P (Unit {0})
  without_value r = record {
    visited = r.visited;
    asked = r.asked;
    last = r.last;
    db = r.db;
    value = none;
    failure = r.failure;
  }

-- The answers of a publication that reads the peers of the database.
abbrev pub reading : {P : Program} → (Db → Answers P) → Db → Answers P
reading after db = record (after db) { rows = db.peers }

-- `closing` answers closeForRevocation, and `after` the publication of what is left, which reads the
-- credentials and the peers of the database after the change.
module _ {P : Program} (closing : Answers P) (after : Db → Answers P) where
  -- The store is asked, and then reconcileRevocation publishes what is applied again.
  unfoldable pub ask_store :
      {A : Type 0} → Bool → List (World P) → World P → Result A × Db → Operation P A
  ask_store revoke visited w (err e, db) = record {
    visited = visited;
    asked = some w;
    last = w;
    db = db;
    value = none;
    failure = some (Failure.store_error e);
  }
  ask_store false visited w (ok x, db) = record {
    visited = visited;
    asked = some w;
    last = w;
    db = db;
    value = some x;
    failure = none;
  }
  ask_store true visited w (ok x, db) =
      let r = publish (reading after db) w.base true false w in
      record {
        visited = visited ++ r.visited;
        asked = some w;
        last = r.last;
        db = db;
        value = some x;
        failure = left_guarded r.result;
      }

  -- A change of the store; where it revokes, ingress is closed first.
  unfoldable pub under_guard :
      {A : Type 0} → Bool → (Db → Result A × Db) → World P → Db → Operation P A
  under_guard false write w db = ask_store false [] w (write db)
  under_guard true write w db =
      let c = close_for_revocation closing w in
      elim c.result [
        | World.err e ↦ record {
          visited = c.visited;
          asked = none;
          last = c.last;
          db = db;
          value = none;
          failure = some (Failure.not_closed e);
        }
        | World.ok _ ↦ ask_store true c.visited c.last (write db)
      ]

  unfoldable pub patch_peer_guarded :
      String → String → String → String → PeerPatch → World P → Db → Operation P Peer
  patch_peer_guarded credential uuid next_uuid id patch w db = elim (find_peer db.peers id) [
    | none ↦ refuse Error.not_found w db
    | some old ↦ elim (validate_peer_patch patch old db) [
      | some e ↦ refuse e w db
      | none ↦ under_guard (revokes patch old) (patch_peer credential uuid next_uuid id patch) w db
    ]
  ]

  unfoldable pub delete_peer_guarded : String → World P → Db → Operation P PeerDeletion
  delete_peer_guarded id w db = elim (find_peer db.peers id) [
    | none ↦ refuse Error.not_found w db
    | some p ↦ under_guard (p.reality_enabled && p.enabled) (delete_peer_with_effects id) w db
  ]

  unfoldable pub rotate_reality_guarded : String → String → ℕ → World P → Db → Operation P Peer
  rotate_reality_guarded uuid id expected w db = elim (find_peer db.peers id) [
    | none ↦ refuse Error.not_found w db
    | some old ↦
        if not (eqb expected old.reality_revision)
        then refuse Error.conflict w db
        else if not old.reality_enabled
        then refuse Error.invalid w db
        else under_guard true (rotate_reality uuid id expected) w db
  ]

  -- A call of one of the three.
  unfoldable pub handle : Request → World P → Db → Operation P (Unit {0})
  handle (Request.of_patch credential uuid next_uuid id change) w db =
      without_value (patch_peer_guarded credential uuid next_uuid id change w db)
  handle (Request.of_deletion id) w db = without_value (delete_peer_guarded id w db)
  handle (Request.of_rotation uuid id expected) w db =
      without_value (rotate_reality_guarded uuid id expected w db)

-- ===== src/NetworkState.antt =====
-- internal/networkstate/state.go: which records of a generation are read, and how they lose their
-- authority before the database is restored.
pub mod Versions
pub mod Invalidation
mod Tests
use mathlib.Core.Bool.{not}
use razdacha.Prelude.{
  ℕ, Bool, true, false, ◌&&◌, ◌||◌, List, [], ◌∷◌, ◌++◌, Option, none, some, String, ◌==◌, any, eqb,
  ltb, if◌then◌else◌,
}
use razdacha.Ingress.Startup.{Outcome, done, broken, refused}
use razdacha.Store.Model.{Peer}

-- The part of lists.List that a version decides on: its TransportSubnets, and the version of Native.
pub record StoredList : Type 0 where
  pub transport_subnets : List String
  pub native_version : Option ℕ

-- A Generation as it is decoded. `lists` is none for a nil map; a negative version is read as 0, which
-- is refused too.
pub record Stored : Type 0 where
  pub kind : String
  pub version : ℕ
  pub lists : Option (List StoredList)
  pub peers : List Peer
  pub reality_enabled : Bool
  pub reality_identity_id : String
  pub reality_admissions : List String

unfoldable pub known_version : ℕ → Bool
known_version v = eqb v 1 || eqb v 2 || eqb v 3 || eqb v 4 || eqb v 5

-- The test in the first loop over the peers.
unfoldable pub admits_transport : Peer → Bool
admits_transport p =
    p.wire_guard_disabled
    || p.reality_enabled
    || not (p.reality_credential_id == "")
    || not (eqb p.reality_revision 0)

-- The test of the public authentication.
unfoldable pub authenticates : Stored → Bool
authenticates g =
    g.reality_enabled
    || not (g.reality_identity_id == "")
    || (elim g.reality_admissions [ [] ↦ false | _ ∷ _ ↦ true ])

-- The test in the loop over the lists.
unfoldable pub native_transport : StoredList → Bool
native_transport l =
    (elim l.transport_subnets [ [] ↦ false | _ ∷ _ ↦ true ])
    || (elim l.native_version [ none ↦ false | some v ↦ ltb 1 v ])

-- The test in the last loop over the peers.
unfoldable pub routes_peer : Peer → Bool
routes_peer p = elim p.egress_tunnel_id [ none ↦ false | some _ ↦ true ]

unfoldable pub all_lists : Option (List StoredList) → List StoredList
all_lists none = []
all_lists (some ls) = ls

unfoldable pub is_nil : Option (List StoredList) → Bool
is_nil none = true
is_nil (some ls) = false

-- Read, from the decoded record on: whether it is returned without an error.
unfoldable pub accepts : String → Stored → Bool
accepts kind g =
    if not (known_version g.version) || not (g.kind == kind) || is_nil g.lists
    then false
    else if ltb g.version 5 && any admits_transport g.peers
    then false
    else if ltb g.version 5 && authenticates g
    then false
    else if ltb g.version 4 && any native_transport (all_lists g.lists)
    then false
    else if ltb g.version 3 && any routes_peer g.peers
    then false
    else true

-- The two records in the directory, as they are seen, and as they are found after a loss of power when
-- no change has reached the disk by itself.
pub record Directory : Type 0 where
  pub seed : Bool
  pub committed : Bool
  pub durable_seed : Bool
  pub durable_committed : Bool

pub data Name : Type 0 where
  bootstrap_file committed_file : Name

-- How the calls end: Lstat of a name other than with NotExist, rename, and the three calls of syncDir.
pub record Endings : Type 0 where
  pub lstat : Name → Bool
  pub rename : Name → Outcome
  pub sync : Name → Bool
  pub last_sync : Bool

-- The directories after each change, the last one, and whether there was no error.
pub record Swept : Type 0 where
  pub visited : List Directory
  pub last : Directory
  pub succeeded : Bool

unfoldable pub is_present : Name → Directory → Bool
is_present bootstrap_file d = d.seed
is_present committed_file d = d.committed

unfoldable pub renamed : Name → Directory → Directory
renamed bootstrap_file d = record d { seed = false }
renamed committed_file d = record d { committed = false }

unfoldable pub synced : Directory → Directory
synced d = record d { durable_seed = d.seed; durable_committed = d.committed }

-- syncDir. An error leaves open what has reached the disk.
unfoldable pub sync_directory : Bool → Directory → Swept
sync_directory true d = record { visited = synced d ∷ []; last = synced d; succeeded = true }
sync_directory false d = record { visited = []; last = d; succeeded = false }

-- One part, and the next if there was no error.
unfoldable pub and_then : Swept → (Directory → Swept) → Swept
and_then s f = elim s.succeeded [
  | true ↦
      let t = f s.last in
      record { visited = s.visited ++ t.visited; last = t.last; succeeded = t.succeeded }
  | false ↦ s
]

unfoldable pub rename_file : Outcome → Name → Directory → Swept
rename_file done name d = record {
  visited = renamed name d ∷ [];
  last = renamed name d;
  succeeded = true;
}
rename_file broken name d = record {
  visited = renamed name d ∷ [];
  last = renamed name d;
  succeeded = false;
}
rename_file refused name d = record { visited = []; last = d; succeeded = false }

-- The body of the loop of invalidateUsing.
unfoldable pub invalidate_file : Endings → Name → Directory → Swept
invalidate_file e name d =
    if not (e.lstat name)
    then record { visited = []; last = d; succeeded = false }
    else if is_present name d
    then and_then (rename_file (e.rename name) name d) (sync_directory (e.sync name))
    else record { visited = []; last = d; succeeded = true }

unfoldable pub invalidate : Endings → Directory → Swept
invalidate e d =
    and_then (invalidate_file e bootstrap_file d)
      λ d'. and_then (invalidate_file e committed_file d') (sync_directory e.last_sync)

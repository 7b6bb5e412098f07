-- ===== src/NetworkState/Tests.antt =====
-- Records and their invalidation at concrete inputs.
use razdacha.Prelude.{◌≡◌, ◌≢◌, ◌↔◌, ◌≤◌, none, ◌⊎◌, refl, true, false, [], ◌∷◌, some, any}
use razdacha.Ingress.Startup.{done}
use razdacha.Daemon.World.Post.{Each}
use razdacha.NetworkState.{
  Stored, known_version, native_transport, all_lists, is_nil, authenticates, accepts, Directory,
  Endings, is_present, renamed, synced, sync_directory, and_then, rename_file, invalidate_file,
  invalidate,
}
use razdacha.NetworkState.Versions.{needed_version, accepts_iff}
use razdacha.NetworkState.Invalidation.{IsOrdered, invalidate-IsOrdered}

abbrev native_record : Stored
native_record = record {
  kind = "committed";
  version = 3;
  lists = some ((record { transport_subnets = "10.0.0.0/8" ∷ []; native_version = some 2 }) ∷ []);
  peers = [];
  reality_enabled = false;
  reality_identity_id = "";
  reality_admissions = [];
}

-- A native transport needs version 4.
native_refused : accepts "committed" native_record ≡ false
unfolding accepts known_version is_nil any authenticates native_transport all_lists
native_refused = refl

native_read : accepts "committed" (record native_record { version = 4 }) ≡ true
unfolding accepts known_version is_nil any authenticates native_transport all_lists
native_read = refl

accepts_iff_example : (accepts "committed" native_record ≡ true) ↔ (
    (native_record.kind ≡ "committed")
    × (native_record.lists ≢ none)
    × (needed_version native_record ≤ 3)
    × (◌≤◌ 3 5))
accepts_iff_example = accepts_iff "committed" native_record

abbrev all_well : Endings
all_well = record { lstat = λ n. true; rename = λ n. done; sync = λ n. true; last_sync = true }

abbrev both : Directory
both = record { seed = true; committed = true; durable_seed = true; durable_committed = true }

invalidate-IsOrdered_example :
    Each IsOrdered (invalidate all_well both).visited
    × (((invalidate all_well both).succeeded ≡ false)
        ⊎ (((invalidate all_well both).last.seed ≡ false)
            × ((invalidate all_well both).last.durable_seed ≡ false)
            × ((invalidate all_well both).last.committed ≡ false)
            × ((invalidate all_well both).last.durable_committed ≡ false)))
invalidate-IsOrdered_example = invalidate-IsOrdered all_well both refl (unfold synced in refl)

abbrev unsynced : Directory
unsynced = record both { seed = false }

-- A second try after an error of the first syncDir: the committed record is renamed while the removal of
-- the seed has still to reach the disk.
second_try :
    (invalidate all_well unsynced).visited
    ≡ record unsynced { committed = false }
      ∷ record unsynced { committed = false; durable_seed = false; durable_committed = false }
      ∷ record unsynced { committed = false; durable_seed = false; durable_committed = false }
      ∷ []
unfolding invalidate invalidate_file is_present and_then rename_file renamed synced sync_directory
second_try = refl

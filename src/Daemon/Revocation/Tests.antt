-- ===== src/Daemon/Revocation/Tests.antt =====
-- The operations on a peer at concrete inputs: a policy is the name of a configuration.
use mathlib.Core.List.{Mem, mem-cons_self}
use razdacha.Prelude.{◌≡◌, ◌⊎◌, refl, [], ◌∷◌, none, some, true, false, all, any}
use razdacha.Ingress.Distinct
use razdacha.Ingress.Endpoints.{
  same, before, insert_sorted, sort_endpoints, canonical, normalize_endpoints, union,
}
use razdacha.Ingress.Manifest.{
  normalize_manifest, canonical_hash, hash_config, insert_text, sort_texts,
}
use razdacha.Ingress.Startup.{
  Outcome, private_controllers, inbound_endpoints, all_endpoints, config_endpoints, read_manifest,
}
use razdacha.Ingress.Example.{two-IsLawful}
use razdacha.Store.Model.{Peer, Credential}
use razdacha.Store.Db.{Db, transaction}
use razdacha.Store.Peers.{find_peer, select_peer}
use razdacha.Store.Peers.Patch.{rotate_reality, rotate_reality_tx, stale, store_rotation}
use razdacha.Daemon.World
use razdacha.Daemon.World.{World, proceed, recover, change, attempt, require}
use razdacha.Daemon.Publish.Example.{program, program-HasDeepEqual, fine, fresh, fresh-IsRest}
use razdacha.Daemon.Publish.{
  Answers, Call, select, set_guard, set_dropped, write_manifest, manifest_in, verify_active,
  plan_for, consider, known_endpoints, old_endpoints, with_old, staged_hashes, stage_public, rename,
  restart, commit, reconfigure, released_manifest, release_public, perform, publish, public_guarded,
  is_marked,
}
use razdacha.Daemon.Publish.Coherent.{publish-IsRest}
use razdacha.Daemon.Publish.Serving.{IsRest}
use razdacha.Daemon.Revocation.{
  not_closed, still_guarded, Request, close_for_revocation, left_guarded, ask_store, under_guard,
  rotate_reality_guarded, without_value, handle,
}
use razdacha.Store.Peers.Runtime.{is_active, is_live}
use razdacha.Daemon.Revocation.Closed.{IsClosedOff}
use razdacha.Daemon.Revocation.Handled.{handle-IsClosedOff}
use razdacha.Daemon.Revocation.Settled.{handle-clean}

abbrev row : Credential
row = record { peer_id = "x"; credential_id = "c"; revision = 3; uuid = "u" }

abbrev with_access : Peer
with_access = record {
  wire_guard_disabled = false;
  reality_enabled = true;
  reality_credential_id = "c";
  reality_revision = 3;
  egress_tunnel_id = none;
  id = "x";
  name = "peer";
  public_key = "k";
  private_key = "k";
  preshared_key = "p";
  address = "10.0.0.2";
  enabled = true;
  created_at = some 1;
}

abbrev one_peer : Db
one_peer = record { tunnels = []; rules = []; peers = with_access ∷ []; credentials = row ∷ [] }

abbrev serving : World program
serving = (publish fine "vless" false true fresh).last

serving-IsRest : IsRest serving
serving-IsRest = publish-IsRest fine program-HasDeepEqual "vless" false true fresh fresh-IsRest

abbrev rotation : Request
rotation = Request.of_rotation "v" "x" 3

row_live : is_live one_peer row ≡ true
unfolding is_active find_peer
row_live = refl

handle-IsClosedOff_example :
    (Mem row (handle fine (λ db. fine) rotation serving one_peer).db.credentials
      × (is_live (handle fine (λ db. fine) rotation serving one_peer).db row ≡ true))
    ⊎ ((v : World program) × ((handle fine (λ db. fine) rotation serving one_peer).asked ≡ some v)
        × IsClosedOff v)
handle-IsClosedOff_example =
    handle-IsClosedOff fine (λ db. fine) two-IsLawful rotation serving one_peer row mem-cons_self
      row_live

-- The guard of the clients cannot be set.
abbrev stuck : Call → Outcome
stuck Call.close_guard = Outcome.refused
stuck c = Outcome.done

abbrev stuck_guard : Answers program
stuck_guard = record fine { ends = stuck }

rotation_stuck :
    (handle stuck_guard (λ db. fine) rotation serving one_peer).failure
    ≡ some (not_closed World.guarded)
unfolding handle rotate_reality_guarded under_guard ask_store without_value close_for_revocation
    left_guarded rotate_reality rotate_reality_tx stale store_rotation select_peer find_peer
    transaction publish verify_active consider select perform stage_public manifest_in read_manifest
    known_endpoints config_endpoints private_controllers all_endpoints inbound_endpoints
    old_endpoints with_old union normalize_endpoints canonical Distinct.collect Distinct.append_new
    Distinct.has any all same sort_endpoints insert_sorted before staged_hashes hash_config
    write_manifest normalize_manifest canonical_hash sort_texts insert_text set_dropped set_guard
    reconfigure commit rename restart release_public released_manifest plan_for proceed recover
    change attempt require public_guarded is_marked
rotation_stuck = refl

handle-clean_example :
    ((handle stuck_guard (λ db. fine) rotation serving one_peer).db ≡ one_peer)
    ⊎ ((not_closed World.guarded ≡ still_guarded)
        × ((handle stuck_guard (λ db. fine) rotation serving one_peer).last.uncertain ≡ true))
handle-clean_example =
    handle-clean stuck_guard (λ db. fine) two-IsLawful program-HasDeepEqual serving serving-IsRest
      one_peer rotation (not_closed World.guarded) rotation_stuck

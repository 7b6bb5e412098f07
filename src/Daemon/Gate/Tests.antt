-- ===== src/Daemon/Gate/Tests.antt =====
-- The gate at concrete inputs.
use razdacha.Prelude.{false, true, ◌≡◌, refl, [], all, any}
use razdacha.Ingress.Distinct
use razdacha.Ingress.Endpoints.{
  same, before, insert_sorted, sort_endpoints, canonical, normalize_endpoints, union,
}
use razdacha.Ingress.Manifest.{
  normalize_manifest, canonical_hash, hash_config, insert_text, sort_texts,
}
use razdacha.Ingress.Startup.{
  private_controllers, inbound_endpoints, all_endpoints, config_endpoints, read_manifest,
}
use razdacha.Daemon.World.{Generation, World, proceed, recover, change, attempt, require}
use razdacha.Daemon.Publish.Example.{program, program-HasDeepEqual, fine, fresh}
use razdacha.Daemon.Publish.{
  public_guarded, is_marked, select, set_guard, set_dropped, write_manifest, manifest_in,
  verify_active, plan_for, consider, known_endpoints, old_endpoints, with_old, staged_hashes,
  stage_public, rename, restart, commit, reconfigure, released_manifest, release_public, perform,
  publish,
}
use razdacha.Daemon.Publish.Serving.{Served, applied}
use razdacha.Daemon.Publish.Reachable.{Reached}
use razdacha.Ingress.Example.{two-IsLawful}
use razdacha.Daemon.Gate.{serving, network_status}
use razdacha.Daemon.Gate.Recovery.{network_status-Served}

abbrev after : World program
after = (publish fine "vless" false true fresh).last

after-serving : network_status fine after ≡ serving
unfolding network_status public_guarded is_marked publish verify_active consider select perform
    stage_public manifest_in read_manifest known_endpoints config_endpoints private_controllers
    all_endpoints inbound_endpoints old_endpoints with_old union normalize_endpoints canonical
    Distinct.collect Distinct.append_new Distinct.has any all same sort_endpoints insert_sorted
    before staged_hashes hash_config write_manifest normalize_manifest canonical_hash sort_texts
    insert_text set_dropped set_guard reconfigure commit rename restart release_public
    released_manifest plan_for proceed recover change attempt require
after-serving = refl

network_status-Served_example :
    (after.initialized ≡ true) × (after.closed ≡ false) × Served after (applied after)
network_status-Served_example =
    network_status-Served fine two-IsLawful program-HasDeepEqual after
      (Reached.published fresh fine "vless" false true (Reached.start fresh)) after-serving

abbrev seeded : Generation program
seeded = record { policy = "vless"; lists = [] }

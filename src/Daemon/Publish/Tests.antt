-- ===== src/Daemon/Publish/Tests.antt =====
-- publish at concrete inputs: a policy is the name of a configuration.
use razdacha.Prelude.{◌≡◌, ◌≢◌, ◌⊎◌, [], refl, true, false, all, any}
use razdacha.Ingress.Distinct
use razdacha.Ingress.Endpoints.{
  same, before, insert_sorted, sort_endpoints, canonical, normalize_endpoints, union,
}
use razdacha.Ingress.Manifest.{
  normalize_manifest, canonical_hash, hash_config, insert_text, sort_texts,
}
use razdacha.Ingress.Startup.{
  Outcome, private_controllers, inbound_endpoints, all_endpoints, config_endpoints, read_manifest,
}
use razdacha.Ingress.Example.{two-IsLawful}
use razdacha.Store.Db.{Db}
use razdacha.Daemon.Revocation.{Request, handle}
use razdacha.Daemon.World.{Error, guarded, ok, err, proceed, recover, change, attempt, require}
use razdacha.Daemon.Publish.Example.{program, program-HasDeepEqual, fine, fresh, fresh-IsRest}
use razdacha.Daemon.World.Post.{Each}
use razdacha.Daemon.Publish.{
  Answers, Call, select, set_guard, set_dropped, write_manifest, manifest_in, verify_active,
  plan_for, consider, known_endpoints, old_endpoints, with_old, staged_hashes, stage_public, rename,
  restart, commit, reconfigure, released_manifest, release_public, perform, publish,
}
use razdacha.Daemon.Publish.Serving.{IsSafe}
use razdacha.Daemon.Publish.Coherent.{publish-served, publish-refused}
use razdacha.Daemon.Publish.Settling.{ServesAsked}
use razdacha.Daemon.Publish.Reachable.{Reached, Reached-IsSafe}

abbrev no_rows : Db
no_rows = record { tunnels = []; rules = []; peers = []; credentials = [] }

-- nftables fails half way.
abbrev torn : Call → Outcome
torn Call.publish_nft = Outcome.broken
torn c = Outcome.done

abbrev failing : Answers program
failing = record fine { ends = torn }

served : (publish fine "vless" false true fresh).result ≡ ok tt
unfolding publish verify_active consider select perform stage_public manifest_in read_manifest
    known_endpoints config_endpoints private_controllers all_endpoints inbound_endpoints
    old_endpoints with_old union normalize_endpoints canonical Distinct.collect Distinct.append_new
    Distinct.has any all same sort_endpoints insert_sorted before staged_hashes hash_config
    write_manifest normalize_manifest canonical_hash sort_texts insert_text set_dropped set_guard
    reconfigure commit rename restart release_public released_manifest plan_for proceed recover
    change attempt require
served = refl

torn_refused : (publish failing "vless" false true fresh).result ≡ err guarded
unfolding publish verify_active consider select perform stage_public manifest_in read_manifest
    known_endpoints config_endpoints private_controllers all_endpoints inbound_endpoints
    old_endpoints with_old union normalize_endpoints canonical Distinct.collect Distinct.append_new
    Distinct.has any all same sort_endpoints insert_sorted before staged_hashes hash_config
    write_manifest normalize_manifest canonical_hash sort_texts insert_text set_dropped set_guard
    reconfigure commit rename restart release_public released_manifest plan_for proceed recover
    change attempt require
torn_refused = refl

publish-served_example :
    ServesAsked fine "vless" false fresh (publish fine "vless" false true fresh).last
publish-served_example =
    publish-served fine program-HasDeepEqual "vless" false true fresh fresh-IsRest served

publish-refused_example :
    ((guarded ≢ guarded) × ((publish failing "vless" false true fresh).last ≡ fresh))
    ⊎ ((◌≡◌ {A = Error} guarded guarded)
        × ((publish failing "vless" false true fresh).last.uncertain ≡ true))
publish-refused_example =
    publish-refused failing program-HasDeepEqual "vless" false true fresh fresh-IsRest guarded
      torn_refused

Reached-IsSafe_example :
    IsSafe fresh
    × Each IsSafe (publish failing "vless" false true fresh).visited
    × Each IsSafe (handle fine (λ db. failing) (Request.of_deletion "x") fresh no_rows).visited
Reached-IsSafe_example =
    Reached-IsSafe two-IsLawful program-HasDeepEqual failing "vless" false true fine (λ db. failing)
      (Request.of_deletion "x") no_rows (Reached.start fresh)

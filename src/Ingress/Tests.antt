-- ===== src/Ingress/Tests.antt =====
-- The guard of the public listeners at concrete inputs.
use razdacha.Prelude.{
  ◌≡◌, ◌≤◌, refl, [], ◌∷◌, some, true, false, ◌||◌, ◌≢◌, String, any, length, ◌↔◌,
}
use razdacha.Store.Text.{contains, leb_text}
use razdacha.Ingress.Distinct
use razdacha.Ingress.Example.{two_addresses, two-IsLawful, flat_digest, flat-IsDigest, outside}
use razdacha.Ingress.Endpoints.{
  Endpoint, has, same, before, insert_sorted, sort_endpoints, canonical, normalize_endpoints, union,
  covers, max_endpoints,
}
use razdacha.Ingress.Endpoints.Canonical.{IsCanonical, union-covers}
use razdacha.Ingress.Manifest.{
  Manifest, hash_config, canonical_hash, insert_text, sort_texts, normalize_manifest,
}
use razdacha.Ingress.Manifest.Normal.{IsNormal, IsNormal-normalize_manifest}
use razdacha.Ingress.Startup.{
  Verdict, found, done, private_controllers, inbound_endpoints, all_endpoints, config_endpoints,
  is_covered, check_coverage, validate_config, read_manifest, admit, startup_authority,
  startup_state, write_manifest, install, close, startup,
}
use razdacha.Ingress.Startup.Authority.{Approves, validate_config_lem}
use razdacha.Ingress.Startup.Closing.{Ready, startup-Ready}

abbrev web : Endpoint
web = record { address = "1.2.3.4"; port = 443 }

abbrev local : Endpoint
local = record { address = "127.0.0.1"; port = 443 }

abbrev web_manifest : Manifest
web_manifest = record {
  version = 1;
  endpoints = web ∷ [];
  config_hashes = "0000000000000000000000000000000000000000000000000000000000000000" ∷ [];
  guarded = false;
}

union_both : union two_addresses (web ∷ []) (local ∷ web ∷ []) ≡ some (web ∷ local ∷ [])
unfolding union normalize_endpoints canonical Distinct.collect Distinct.append_new Distinct.has any
    same sort_endpoints insert_sorted before leb_text
union_both = refl

canonical-web : canonical two_addresses web ≡ some web
unfolding canonical
canonical-web = refl

web_given : (has (web ∷ []) web || has (local ∷ web ∷ []) web) ≡ true
unfolding Distinct.has any same
web_given = refl

union-covers_example :
    (has (web ∷ local ∷ []) web ≡ true)
    × (length (web ∷ local ∷ []) ≤ max_endpoints)
    × IsCanonical two_addresses web
    × (covers two_addresses web web ≡ some true)
union-covers_example =
    union-covers two_addresses two-IsLawful (web ∷ []) (local ∷ web ∷ []) (web ∷ local ∷ []) web web
      union_both web_given canonical-web

web-normal : normalize_manifest flat_digest two_addresses web_manifest ≡ some web_manifest
unfolding normalize_manifest normalize_endpoints canonical Distinct.collect Distinct.append_new
    Distinct.has any same sort_endpoints insert_sorted before sort_texts insert_text canonical_hash
web-normal = refl

web-IsNormal : IsNormal flat_digest two_addresses web_manifest
web-IsNormal =
    IsNormal-normalize_manifest flat_digest two_addresses two-IsLawful flat-IsDigest web_manifest
      web_manifest web-normal

validate_config_lem_example :
    (validate_config outside "vless" web_manifest ≢ Verdict.panicked)
    × ((validate_config outside "vless" web_manifest ≡ Verdict.accepted)
        ↔ Approves outside web_manifest "vless")
validate_config_lem_example =
    validate_config_lem outside two-IsLawful flat-IsDigest web_manifest web-IsNormal "vless"

started : (startup outside done done (found "vless") (found web_manifest) []).succeeded ≡ true
unfolding startup startup_state config_endpoints private_controllers all_endpoints inbound_endpoints
    startup_authority admit validate_config is_covered check_coverage read_manifest contains
    hash_config covers close write_manifest install normalize_manifest normalize_endpoints canonical
    Distinct.collect Distinct.append_new Distinct.has any same sort_endpoints insert_sorted before
    sort_texts insert_text canonical_hash
started = refl

startup-Ready_example :
    (text : String) × (found "vless" ≡ found text)
    × Ready outside two-IsLawful flat-IsDigest text
        (found web_manifest)
        []
        (startup outside done done (found "vless") (found web_manifest) [])
startup-Ready_example =
    startup-Ready outside two-IsLawful flat-IsDigest done done (found "vless") (found web_manifest)
      [] started

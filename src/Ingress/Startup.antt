-- ===== src/Ingress/Startup.antt =====
-- internal/ingressguard/startup.go: the listeners of a configuration, which configurations may run,
-- and what is closed before the runtime starts.
pub mod Authority
pub mod Closing
use mathlib.Core.Bool.{not}
use razdacha.Prelude.{
  ℕ, suc, Bool, true, false, ◌&&◌, ◌||◌, List, [], ◌∷◌, ◌++◌, Option, none, some, String, ◌==◌,
  length, all, eqb, ltb, if◌then◌else◌,
}
use razdacha.Store.Text.{contains}
use razdacha.Ingress.Endpoints.{Netip, Endpoint, normalize_endpoints, covers}
use razdacha.Ingress.Manifest.{Manifest, Digest, hash_config, normalize_manifest}

pub record Inbound : Type 0 where
  pub kind : String
  pub tag : String
  pub listen : String
  pub listen_port : ℕ
  pub tls_enabled : Bool
  pub reality_enabled : Bool

-- The listeners of a controller.
pub record Controller : Type 0 where
  pub external_controller : String
  pub listen : String

-- The part of a configuration that the guard reads. A service under `experimental` has its name, and
-- what its text decodes to as a controller.
pub record RuntimeConfig : Type 0 where
  pub inbounds : List Inbound
  pub experimental : List (String × Option Controller)

-- What is called: the addresses, the hash, the number of bytes of a text, uniqueJSON with the two
-- calls of json.Unmarshal, and netip.ParseAddrPort.
pub record Outside : Type 1 where
  pub ip : Netip
  pub digest : Digest
  pub size : String → ℕ
  pub decode : String → Option RuntimeConfig
  pub parse_addr_port : String → Option (ip.Addr × ℕ)
  pub broadcast : ip.Addr

abbrev pub max_config_bytes : ℕ
max_config_bytes = 67108864

pub data Verdict : Type 0 where
  accepted refused panicked : Verdict

-- What reading a file gives.
pub data Reading {ℓ} (A : Type ℓ) : Type ℓ where
  found : A → Reading A
  absent unreadable : Reading A

-- How a call that changes something outside ends: with the change, or with an error that leaves it
-- undone or done.
pub data Outcome : Type 0 where
  done refused broken : Outcome

module _ (o : Outside) where
  open o use {ip, digest, size, decode, parse_addr_port, broadcast}

  -- legacyDNSAddress.
  unfoldable pub legacy_dns_address : ip.Addr → Bool
  legacy_dns_address a =
      ip.is4 a
      && not (ip.zoned a)
      && not (ip.is_unspecified a)
      && not (ip.is_multicast a)
      && not (ip.same_addr a broadcast)

  -- One listener of a controller: none at all, or on loopback.
  unfoldable pub private_listener : String → Bool
  private_listener listener = listener == "" || (elim (parse_addr_port listener) [
    | none ↦ false
    | some (a, port) ↦ ip.is_loopback a && not (ip.zoned a) && not (eqb port 0)
  ])

  unfoldable pub private_service : String → Option Controller → Bool
  unfolding private_listener
  private_service name api =
      if name == "cache_file"
      then true
      else if name == "clash_api" || name == "v2ray_api"
      then elim api [
        | none ↦ false
        | some c ↦ private_listener c.external_controller && private_listener c.listen
      ]
      else false

  -- privateControllers.
  unfoldable pub private_controllers : List (String × Option Controller) → Bool
  private_controllers [] = true
  private_controllers ((name, api) ∷ services) =
      private_service name api && private_controllers services

  -- The switch of ConfigEndpoints: what an inbound adds, or `none` for an error.
  unfoldable pub inbound_endpoints : Inbound → Option (List Endpoint)
  inbound_endpoints i =
      if i.kind == "direct"
      then if i.tag == "dns-in" && eqb i.listen_port 53
        then elim (ip.parse_addr i.listen) [
          | none ↦ none
          | some a ↦ if legacy_dns_address a then some [] else none
        ]
        else none
      else if i.kind == "tproxy"
      then if i.tag == "tproxy-in" && not (eqb i.listen_port 0)
        then elim (ip.parse_addr i.listen) [
          | none ↦ none
          | some a ↦ if not (ip.zoned a) && ip.is_loopback a then some [] else none
        ]
        else none
      else if i.kind == "vless"
      then if i.tls_enabled && i.reality_enabled
        then some ((record { address = i.listen; port = i.listen_port }) ∷ [])
        else none
      else none

  unfoldable pub all_endpoints : List Inbound → Option (List Endpoint)
  all_endpoints [] = some []
  all_endpoints (i ∷ inbounds) = elim (inbound_endpoints i) [
    | none ↦ none
    | some es ↦ elim (all_endpoints inbounds) [ none ↦ none | some rest ↦ some (es ++ rest) ]
  ]

  unfoldable pub config_endpoints : String → Option (List Endpoint)
  config_endpoints config =
      if eqb (size config) 0 || ltb max_config_bytes (size config)
      then none
      else elim (decode config) [
        | none ↦ none
        | some c ↦
            if private_controllers c.experimental
            then elim (all_endpoints c.inbounds) [
              | none ↦ none
              | some es ↦ normalize_endpoints ip es
            ]
            else none
      ]

  -- The inner loop of ValidateConfig; `none` is the panic of covers, which is not called once the
  -- endpoint is covered.
  unfoldable pub is_covered : List Endpoint → Bool → Endpoint → Option Bool
  is_covered [] covered e = some covered
  is_covered (a ∷ allowed) true e = is_covered allowed true e
  is_covered (a ∷ allowed) false e = elim (covers ip a e) [
    | none ↦ none
    | some b ↦ is_covered allowed b e
  ]

  unfoldable pub check_coverage : List Endpoint → List Endpoint → Verdict
  check_coverage allowed [] = Verdict.accepted
  check_coverage allowed (e ∷ es) = elim (is_covered allowed false e) [
    | none ↦ Verdict.panicked
    | some false ↦ Verdict.refused
    | some true ↦ check_coverage allowed es
  ]

  unfoldable pub validate_config : String → Manifest → Verdict
  validate_config config manifest = elim (normalize_manifest digest ip manifest) [
    | none ↦ Verdict.refused
    | some m ↦
        if contains m.config_hashes (hash_config digest config)
        then elim (config_endpoints config) [
          | none ↦ Verdict.refused
          | some es ↦ check_coverage m.endpoints es
        ]
        else Verdict.refused
  ]

  -- Read: what is in the file, normalized.
  unfoldable pub read_manifest : Reading Manifest → Reading Manifest
  read_manifest (found m) = elim (normalize_manifest digest ip m) [
    | none ↦ unreadable
    | some n ↦ found n
  ]
  read_manifest absent = absent
  read_manifest unreadable = unreadable

  -- startupState, with the configuration decoded and the manifest read: an error, a configuration that
  -- needs no guard, or the manifest to start from.
  unfoldable pub admit : Verdict → Manifest → Option (Option Manifest)
  admit Verdict.accepted m = some (some m)
  admit Verdict.refused m = none
  admit Verdict.panicked m = none

  unfoldable pub startup_authority :
      String → List Endpoint → Reading Manifest → Option (Option Manifest)
  startup_authority config es (found m) = admit (validate_config config m) m
  startup_authority config es absent = if eqb (length es) 0 then some none else none
  startup_authority config es unreadable = none

  unfoldable pub startup_state : Reading String → Reading Manifest → Option (Option Manifest)
  startup_state (found config) file = elim (config_endpoints config) [
    | none ↦ none
    | some es ↦ startup_authority config es (read_manifest file)
  ]
  startup_state absent file = none
  startup_state unreadable file = none

-- The manifest on the disk, the listeners that the kernel drops, and whether Startup returned nil.
pub record Started : Type 0 where
  pub file : Reading Manifest
  pub dropped : List Endpoint
  pub succeeded : Bool

module _ (o : Outside) where
  -- Write. `happened` says how its calls of the file system end.
  unfoldable pub write_manifest : Outcome → Manifest → Reading Manifest → Reading Manifest × Bool
  write_manifest happened m file = elim (normalize_manifest o.digest o.ip m) [
    | none ↦ (file, false)
    | some n ↦ elim happened [
      | done ↦ (found n, true)
      | broken ↦ (found n, false)
      | refused ↦ (file, false)
    ]
  ]

  -- The installer replaces the set of listeners that the kernel drops.
  unfoldable pub install : Outcome → List Endpoint → List Endpoint → List Endpoint × Bool
  install happened es dropped = elim happened [
    | done ↦ (es, true)
    | broken ↦ (es, false)
    | refused ↦ (dropped, false)
  ]

  -- The end of Startup: `w` and `i` say how the write and the installation end.
  unfoldable pub close : Outcome → Outcome → Reading Manifest → List Endpoint → Manifest → Started
  close w i file dropped m =
      let (file', written) = write_manifest w (record m { guarded = true }) file in
      let (dropped', installed) = install i m.endpoints dropped in
      if written
      then record { file = file'; dropped = dropped'; succeeded = installed }
      else record { file = file'; dropped = dropped; succeeded = false }

  -- Startup, with the lock taken.
  unfoldable pub startup :
      Outcome → Outcome → Reading String → Reading Manifest → List Endpoint → Started
  startup w i config file dropped = elim (startup_state o config file) [
    | none ↦ record { file = file; dropped = dropped; succeeded = false }
    | some none ↦ record { file = file; dropped = dropped; succeeded = true }
    | some (some m) ↦ close w i file dropped m
  ]

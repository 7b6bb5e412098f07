-- ===== src/Daemon/Publish.antt =====
-- cmd/razdachad/network_generation.go and reality.go: publish, with a gate as startApply makes it (it
-- has a store, and its functions are all set). Not here: the epoch of the activity, the log, and the
-- numbers that ApplyResult has.
pub mod Considered
pub mod Serving
pub mod Staged
pub mod Staging
pub mod Reconfigured
pub mod Released
pub mod Settling
pub mod Coherent
pub mod Reachable
pub mod Safety
pub mod Example
mod Tests
use mathlib.Core.Bool.{not}
use razdacha.Prelude.{
  ℕ, Bool, true, false, ◌&&◌, ◌||◌, List, [], ◌∷◌, ◌++◌, Option, none, some, String, ◌==◌, all,
  if◌then◌else◌,
}
use razdacha.Store.Model.{Peer}
use razdacha.Ingress.Endpoints.{Endpoint, has, union}
use razdacha.Ingress.Manifest.{Manifest, version, hash_config, normalize_manifest}
use razdacha.Ingress.Startup.{
  Reading, found, absent, unreadable, Outcome, config_endpoints, read_manifest,
}
use razdacha.Daemon.World.{
  Source, Program, Generation, World, Error, port_busy, rejected, guarded, Result, ok, err, Run, M,
  pure, fail, read, ◌>>=◌, ◌>>◌, proceed, change, attempt, require, otherwise, recover,
}

-- The calls of a publication that change something outside the gate, in their order in the text.
pub data Call : Type 0 where
  emergency_guard emergency_write emergency_drop stage_write stage_drop stage_guard close_guard :
      Call
  configure_wireguard publish_routing rename_config reload publish_nft write_record remove_seed :
      Call
  release_write release_guard release_drop release_mark close_again drop_again close_last : Call

-- What may fail and changes nothing: copying the policy, asking WireGuard, the store and the
-- addresses, reading back the candidate, the context, the lock and the files.
pub data Check : Type 0 where
  copy ask_wireguard ask_store ask_addresses read_mark candidate_data : Check
  context_before context_after context_last : Check
  emergency_lock emergency_read stage_lock stage_read stage_config sync_config : Check
  release_lock release_config : Check

-- When a native artifact is verified: before anything else, as part of the candidate, and at the end.
pub data Moment : Type 0 where
  active candidate final : Moment

-- All that a publication learns from outside. `rows` are the peers of the database that configureLiveWG
-- reads: the policy gives WireGuard its settings only.
pub record Answers (P : Program) : Type 0 where
  pub ends : Call → Outcome
  pub passes : Check → Bool
  pub loaded : List (String × P.Content)
  pub verified : Moment → P.Content → Bool
  pub live : P.Live
  pub rows : List Peer
  pub port_free : Endpoint → Bool

unfoldable pub list_at {ℓ} : {A : Type ℓ} → String → List (String × A) → Option A
list_at url [] = none
list_at url ((key, l) ∷ contents) =
    let rest = list_at url contents in if key == url then some l else rest

-- What publish settles before it changes anything: the lists, the checked configuration, whether
-- that differs from the one on the disk, and whether the runtime has to be restarted.
pub record Plan (P : Program) : Type 0 where
  pub selected : List (String × P.Content)
  pub config : String
  pub changed : Bool
  pub restart : Bool

abbrev pub config_is : Option String → String → Bool
config_is none c = false
config_is (some old) c = old == c

module _ {P : Program} where
  -- An error of the kind given where there is no value.
  abbrev pub lift : {A : Type 0} → Error → Option A → M P A
  lift e none = fail e
  lift e (some x) = pure x

module _ {P : Program} (a : Answers P) where
  open a use {ends, passes, loaded, verified, live, rows, port_free}

  -- A list is plain, or it is native and verifies.
  unfoldable pub intact : Moment → P.Content → Bool
  intact moment l = not (P.is_native l) || verified moment l

  -- The loop over lists.Sources: `none` for a list that is not loaded or is not what it should be.
  unfoldable pub select :
      List (String × P.Content) → List Source → Option (List (String × P.Content))
  select contents [] = some []
  select contents (s ∷ sources) = elim (list_at s.url contents) [
    | none ↦ none
    | some l ↦
        if s.plain || (P.is_native l && verified candidate l)
        then elim (select contents sources) [
          | none ↦ none
          | some selected ↦ some ((s.url, l) ∷ selected)
        ]
        else none
  ]

  unfoldable pub set_guard : Call → Bool → M P Bool
  set_guard call on =
      attempt (ends call) (λ w. record w { closed = on }) (λ w. record w { closed = on })

  unfoldable pub set_dropped : Call → List Endpoint → M P Bool
  set_dropped call es =
      attempt (ends call) (λ w. record w { dropped = es }) (λ w. record w { dropped = es })

  -- ingressguard.Write.
  unfoldable pub write_manifest : Call → Manifest → M P Bool
  write_manifest call m = elim (normalize_manifest P.outside.digest P.outside.ip m) [
    | none ↦ pure false
    | some n ↦
        attempt (ends call) (λ w. record w { manifest = found n })
          (λ w. record w { manifest = found n })
  ]

  -- ingressguard.Read, where the file can be read or is not there.
  unfoldable pub manifest_in : Check → World P → Reading Manifest
  manifest_in check w = if passes check then read_manifest P.outside w.manifest else unreadable

  -- publicGuarded: without a manifest that can be read, the listeners count as closed.
  unfoldable pub is_marked : Reading Manifest → Bool
  is_marked (found m) = m.guarded
  is_marked absent = true
  is_marked unreadable = true

  unfoldable pub public_guarded : World P → Bool
  public_guarded w = is_marked (manifest_in read_mark w)

  -- emergencyPublicGuard, whose error is only joined to another.
  unfoldable pub emergency_public_guard : Reading Manifest → M P (Unit {0})
  emergency_public_guard absent = pure tt
  emergency_public_guard unreadable = pure tt
  emergency_public_guard (found m) = do
    written ← write_manifest emergency_write (record m { guarded = true })
    dropped ← (if written then set_dropped emergency_drop m.endpoints else pure false)
    pure tt

  -- The artifacts in use, if the gate is sure of what is in use. A failure closes at once.
  unfoldable pub verify_active : M P (Unit {0})
  verify_active w =
      if w.initialized && not w.uncertain && not (all (λ c. intact active c.1) w.contents)
      then (do
        closed ← set_guard emergency_guard true
        m ← read (manifest_in emergency_read)
        (if passes emergency_lock then emergency_public_guard m else pure tt)
        change (λ v. record v { uncertain = true })
        fail guarded)
          w
      else pure tt w

  unfoldable pub plan_for : P.Policy → List (String × P.Content) → String → World P → Plan P
  plan_for policy selected config w = record {
    selected = selected;
    config = config;
    changed = not (config_is w.config config);
    restart =
        w.uncertain
        || public_guarded w
        || not (config_is w.config config)
        || not (P.same_policy w.base policy)
        || not (P.same_contents w.contents selected);
  }

  unfoldable pub consider : P.Policy → Bool → M P (Plan P)
  consider policy recovery = do
    require rejected (passes copy && P.valid policy && passes ask_wireguard)
    contents ← read (λ w. if recovery then w.contents else loaded)
    selected ← lift rejected (select contents (P.sources policy))
    require rejected (passes ask_store && passes ask_addresses)
    config ← lift rejected (P.prepare live policy selected)
    read (plan_for policy selected config)

  -- The endpoints that a manifest has so far.
  unfoldable pub known_endpoints : Reading Manifest → M P (List Endpoint)
  known_endpoints (found m) = pure m.endpoints
  known_endpoints absent = pure []
  known_endpoints unreadable = fail guarded

  unfoldable pub old_endpoints : Option String → M P (List Endpoint)
  old_endpoints none = pure []
  old_endpoints (some old) = lift guarded (config_endpoints P.outside old)

  unfoldable pub with_old : Option String → List Endpoint → List Endpoint → M P (List Endpoint)
  with_old none es olds = pure es
  with_old (some old) es olds = lift guarded (union P.outside.ip es olds)

  unfoldable pub staged_hashes : String → Option String → List String
  staged_hashes config none = hash_config P.outside.digest config ∷ []
  staged_hashes config (some old) =
      let new = hash_config P.outside.digest config in
      let last = hash_config P.outside.digest old in
      if last == new then new ∷ [] else new ∷ last ∷ []

  unfoldable pub stage_public : String → M P (Unit {0})
  stage_public config = do
    require guarded (passes stage_lock)
    m ← read (manifest_in stage_read)
    known ← known_endpoints m
    es ← lift guarded (config_endpoints P.outside config)
    require guarded (passes stage_config)
    old ← read (λ w. w.config)
    olds ← old_endpoints old
    both ← with_old old es olds
    require port_busy (all (λ e. has olds e || port_free e) both)
    endpoints ← lift guarded (union P.outside.ip known both)
    written ← write_manifest stage_write (record {
      version = version;
      endpoints = endpoints;
      config_hashes = staged_hashes config old;
      guarded = true;
    })
    require guarded written
    dropped ← set_dropped stage_drop endpoints
    require guarded dropped

  -- The callers of stagePublic: a busy port is an error like those before, any other closes ingress.
  unfoldable pub stage_failed : Error → M P (Unit {0})
  stage_failed port_busy = fail port_busy
  stage_failed e = do
    change (λ w. record w { uncertain = true })
    closed ← set_guard stage_guard true
    fail guarded

  unfoldable pub rename : Bool → String → M P (Unit {0})
  rename false config = pure tt
  rename true config = do
    renamed ←
        attempt (ends rename_config) (λ w. record w { config = some config })
          (λ w. record w { config = some config })
    require guarded renamed

  unfoldable pub restart : Bool → M P (Unit {0})
  restart false = pure tt
  restart true = do
    require guarded (passes sync_config)
    reloaded ←
        attempt (ends reload) (λ w. record w { runtime = w.config })
          (λ w. record w { runtime = none })
    require guarded reloaded

  -- Commit of a prepared configuration.
  unfoldable pub commit : Bool → String → Bool → M P (Unit {0})
  commit changed config force = do rename changed config; restart (changed || force)

  -- From the closing of client ingress to the new record.
  unfoldable pub reconfigure : P.Policy → Plan P → M P (Unit {0})
  reconfigure policy plan = do
    change (λ w. record w { uncertain = true })
    closed ← set_guard close_guard true
    require guarded closed
    configured ←
        attempt (ends configure_wireguard)
          (λ w. record w { wireguard = some (P.settings policy, rows) })
          (λ w. record w { wireguard = none })
    require guarded configured
    routed ←
        attempt (ends publish_routing) (λ w. record w { routed = true })
          (λ w. record w { routed = false })
    require guarded routed
    commit plan.changed plan.config plan.restart
    published ←
        attempt (ends publish_nft)
          (λ w. record w { nft = some (record { policy = policy; lists = plan.selected }) })
          (λ w. record w { nft = none })
    require guarded published
    require guarded (passes context_after && all (λ c. intact final c.1) plan.selected)
    written ←
        attempt (ends write_record)
          (λ w. record w { committed = some (record { policy = policy; lists = plan.selected }) })
          (λ w. record w { committed = some (record { policy = policy; lists = plan.selected }) })
    require guarded written
    removed ←
        attempt (ends remove_seed) (λ w. record w { seed = false }) (λ w. record w { seed = false })
    require guarded removed
    change (λ w. record w { base = policy; contents = plan.selected; initialized = true })
    require guarded (passes context_last)

  -- The branches of releasePublic that close again.
  unfoldable pub close_both : List Endpoint → M P (Unit {0})
  close_both es = do
    closed ← set_guard close_again true
    dropped ← set_dropped drop_again es
    fail guarded

  unfoldable pub released_manifest : String → List Endpoint → Bool → Manifest
  released_manifest config es on = record {
    version = version;
    endpoints = es;
    config_hashes = hash_config P.outside.digest config ∷ [];
    guarded = on;
  }

  unfoldable pub release_public : String → M P (Unit {0})
  release_public config = do
    require guarded (passes release_lock && passes release_config)
    current ← read (λ w. w.config)
    require guarded (config_is current config)
    es ← lift guarded (config_endpoints P.outside config)
    written ← write_manifest release_write (released_manifest config es true)
    require guarded written
    opened ← set_guard release_guard false
    (if opened then pure tt else (do closed ← set_guard close_again true; fail guarded))
    shown ← set_dropped release_drop []
    (if shown then pure tt else close_both es)
    marked ← write_manifest release_mark (released_manifest config es false)
    (if marked then pure tt else close_both es)

  unfoldable pub release_failed : Error → M P (Unit {0})
  release_failed e = do closed ← set_guard close_last true; fail guarded

  unfoldable pub perform : P.Policy → Plan P → M P (Unit {0})
  perform policy plan = do
    require rejected (passes context_before && passes candidate_data)
    otherwise (stage_public plan.config) stage_failed
    reconfigure policy plan
    otherwise (release_public plan.config) release_failed
    change (λ w. record w { uncertain = false })

  unfoldable pub publish : P.Policy → Bool → Bool → M P (Unit {0})
  publish policy recovery repair = do
    verify_active
    plan ← consider policy recovery
    (if not repair && not plan.restart
        then commit plan.changed plan.config false
        else perform policy plan)

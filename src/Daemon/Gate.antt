-- ===== src/Daemon/Gate.antt =====
-- cmd/razdachad/apply.go and network_generation.go: the callers of publish, each with the gate's mutex.
pub mod Recovery
pub mod Pools
mod Tests
use razdacha.Prelude.{
  Bool, true, false, ◌||◌, List, [], ◌∷◌, Option, none, some, String, ◌==◌, any, if◌then◌else◌,
}
use razdacha.Ingress.Startup.{Reading, found, absent, unreadable}
use razdacha.Daemon.World.{
  Program, Generation, World, Error, rejected, Result, Run, M, pure, fail, read, ◌>>=◌, ◌>>◌,
  proceed, change, require,
}
use razdacha.Daemon.Publish.{Answers, publish, public_guarded}
use razdacha.Store.Model.{Tunnel, source_pool}

-- The answers of networkStatus: no error, errNoAppliedGeneration, or the advice to try again.
pub data Status : Type 0 where
  serving no_generation retry : Status

-- The record that recover goes by: the committed one, and the seed only where there is none.
unfoldable pub authority {ℓ} : {A : Type ℓ} → Reading A → Reading A → Reading A
authority (found g) seed = found g
authority unreadable seed = unreadable
authority absent seed = seed

module _ {P : Program} (a : Answers P) where
  unfoldable pub network_status : World P → Status
  network_status w =
      if w.initialized
      then if w.uncertain || public_guarded a w then retry else serving
      else no_generation

  -- What is applied is asked for again.
  unfoldable pub refresh_lists : M P (Unit {0})
  refresh_lists w = if w.initialized then publish a w.base false false w else fail rejected w

  -- applyPools: `merge` is withPoolServers.
  unfoldable pub apply_pools : (P.Policy → P.Policy → P.Policy) → P.Policy → M P (Unit {0})
  apply_pools merge fresh w =
      if w.initialized then publish a (merge w.base fresh) true false w else fail rejected w

  -- recover, with what it read. `legacy` says that the record has version 1 and a source that is not
  -- plain: nothing is published then.
  unfoldable pub recover_generation : Reading (Generation P) → Bool → M P (Unit {0})
  recover_generation absent legacy = pure tt
  recover_generation unreadable legacy = fail rejected
  recover_generation (found g) true = pure tt
  recover_generation (found g) false = do
    change (λ w. record w { base = g.policy; contents = g.lists; initialized = true })
    publish a g.policy true false

-- The map of the pools of the fresh snapshot: the last tunnel with the id.
unfoldable pub pool_at : List Tunnel → String → Option Tunnel
pool_at [] id = none
pool_at (t ∷ tunnels) id = elim (pool_at tunnels id) [
  | some later ↦ some later
  | none ↦ if t.source == source_pool then (if t.id == id then some t else none) else none
]

-- The loop of withPoolServers.
unfoldable pub with_pool_servers : List Tunnel → List Tunnel → List Tunnel
with_pool_servers fresh [] = []
with_pool_servers fresh (t ∷ base) =
    let rest = with_pool_servers fresh base in
    if t.source == source_pool
    then (elim (pool_at fresh t.id) [
      | none ↦ t
      | some f ↦ record t { pool = f.pool; pool_updated_at = f.pool_updated_at }
    ])
      ∷ rest
    else t ∷ rest

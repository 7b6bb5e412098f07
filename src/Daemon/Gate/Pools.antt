-- ===== src/Daemon/Gate/Pools.antt =====
-- cmd/razdachad/apply.go, withPoolServers: the servers of the pools are carried over, and no other edit.
use razdacha.Prelude.{
  arith, ◌≡◌, refl, List, [], ◌∷◌, map, none, ◌==◌, if◌then◌else◌, Bool-cases, Option-cases, inl,
  inr,
}
use razdacha.Store.Model.{Tunnel, source_pool}
use razdacha.Daemon.Gate.{pool_at, with_pool_servers}

-- A tunnel, without what belongs to the servers of a pool.
unfoldable pub without_servers : Tunnel → Tunnel
without_servers t =
    if t.source == source_pool then record t { pool = []; pool_updated_at = none } else t

-- Tunnel by tunnel the result is that which is applied, but for the servers of its pools and their time:
-- no pending edit is published with them.
pub map-with_pool_servers :
    (fresh base : List Tunnel)
    → map without_servers (with_pool_servers fresh base) ≡ map without_servers base
unfolding with_pool_servers without_servers
map-with_pool_servers fresh [] = refl
map-with_pool_servers fresh (t ∷ base) = elim (Bool-cases (t.source == source_pool)) [
  | inr other ↦ rw other (ground (arith, map-with_pool_servers fresh base))
  | inl pool ↦ elim (Option-cases (pool_at fresh t.id)) [
    | inl gone ↦ rw (pool, gone) (ground (arith, map-with_pool_servers fresh base))
    | inr (f, e) ↦ rw (pool, e) (ground (arith, map-with_pool_servers fresh base))
  ]
]

-- ===== src/Store/Tunnels.antt =====
-- internal/store/tunnels.go: the tunnels, what holds them, and the built-in pool.
mod Tests
pub mod Builtin
pub mod References
pub mod Detach
pub mod Single
pub mod Collapse
pub mod Sound
use razdacha.Prelude.{
  ℕ, Bool, true, false, not, ◌&&◌, ◌||◌, List, [], ◌∷◌, ◌++◌, map, String, ◌==◌, Option, none, some,
  if◌then◌else◌, any, leb, ltb, eqb,
}
use razdacha.Store.Text.{leb_text}
use razdacha.Store.Model.{
  Error, Result, ok, err, Tunnel, Rule, Peer, PoolServer, is_empty, source_pool, validate_tunnel,
}
use razdacha.Store.Db.{Db, Tx, ◌>>=◌, ◌>>◌, pure, check, transaction}
use razdacha.Store.Tables.{order_by_priority, check_affected}

-- A rule that names the tunnel in either link of its chain. NULL, here "", is equal to nothing.
unfoldable pub refers_to : String → Rule → Bool
refers_to id r = not (id == "") && ((r.tunnel_id == id) || (r.via_tunnel_id == id))

-- A peer whose exit is the tunnel.
unfoldable pub exits_by : String → Peer → Bool
exits_by id p = elim p.egress_tunnel_id [ none ↦ false | some exit ↦ exit == id ]

-- SELECT builtin FROM tunnels WHERE id = ?.
unfoldable pub find_tunnel : List Tunnel → String → Option Tunnel
find_tunnel [] id = none
find_tunnel (t ∷ ts) id = let rest = find_tunnel ts id in if t.id == id then some t else rest

unfoldable pub select_tunnel : String → Tx Tunnel
select_tunnel id db = elim (find_tunnel db.tunnels id) [
  | none ↦ err Error.not_found
  | some t ↦ ok (t, db)
]

-- DELETE FROM tunnels WHERE id = ?: ON DELETE RESTRICT for the rules and the peers.
unfoldable pub without_tunnel : String → List Tunnel → List Tunnel
without_tunnel id [] = []
without_tunnel id (t ∷ ts) =
    let rest = without_tunnel id ts in if t.id == id then rest else t ∷ rest

unfoldable pub delete_tunnel_row : String → Tx Bool
unfolding any refers_to exits_by without_tunnel
delete_tunnel_row id db =
    if any (λ t. t.id == id) db.tunnels
      && (any (refers_to id) db.rules || any (exits_by id) db.peers)
    then err Error.foreign_key
    else ok (any (λ t. t.id == id) db.tunnels, record db { tunnels = without_tunnel id db.tunnels })

-- `DeleteTunnel`. `ruleNamesByTunnel` and the names of the clients make the message; here only
-- whether there are any.
unfoldable pub delete_tunnel : String → Db → Result (Unit {0}) × Db
delete_tunnel id = transaction do
  t ← select_tunnel id
  check (if t.builtin then some Error.in_use else none)
  λ db. check (if any (exits_by id) db.peers then some Error.in_use else none) db
  λ db. check (if any (refers_to id) db.rules then some Error.in_use else none) db
  affected ← delete_tunnel_row id
  check_affected affected

-- INSERT INTO tunnels.
unfoldable pub insert_tunnel : Tunnel → Tx (Unit {0})
unfolding any
insert_tunnel t db =
    if any (λ u. (u.id == t.id) || (u.name == t.name)) db.tunnels
    then err Error.unique
    else ok (tt, record db { tunnels = db.tunnels ++ t ∷ [] })

-- `isUniqueViolation`: the name is taken.
unfoldable pub wrap_tunnel_write_err : {A : Type 0} → Tx A → Tx A
wrap_tunnel_write_err write db = elim (write db) [ err Error.unique ↦ err Error.invalid | r ↦ r ]

-- `CreateTunnel`; the arguments are `json.Valid`, the value of `newID()` and the time.
unfoldable pub prepare_tunnel : String → ℕ → Tunnel → Tunnel
prepare_tunnel fresh now t = record t {
  id = if t.id == "" then fresh else t.id;
  created_at = elim t.created_at [ none ↦ some now | some at ↦ some at ];
}

unfoldable pub create_tunnel : (String → Bool) → String → ℕ → Tunnel → Db → Result Tunnel × Db
create_tunnel json_valid fresh now t db = elim (validate_tunnel json_valid t) [
  | some e ↦ (err e, db)
  | none ↦
      let made = prepare_tunnel fresh now t in
      transaction (wrap_tunnel_write_err (insert_tunnel made) >> pure made) db
]

-- UPDATE tunnels SET … WHERE id = ?: not the time of creation, the built-in flag or the country.
unfoldable pub overwrite_tunnel : Tunnel → Tunnel → Tunnel
overwrite_tunnel t old =
    if old.id == t.id
    then record t {
      id = old.id;
      created_at = old.created_at;
      builtin = old.builtin;
      country = old.country;
    }
    else old

unfoldable pub update_tunnel_row : Tunnel → Tx Bool
unfolding any overwrite_tunnel
update_tunnel_row t db =
    if any (λ u. u.id == t.id) db.tunnels
      && any (λ u. not (u.id == t.id) && (u.name == t.name)) db.tunnels
    then err Error.unique
    else ok (
      any (λ u. u.id == t.id) db.tunnels,
      record db { tunnels = map (overwrite_tunnel t) db.tunnels },
    )

-- `UpdateTunnel`.
unfoldable pub update_tunnel : (String → Bool) → Tunnel → Db → Result (Unit {0}) × Db
update_tunnel json_valid t db = elim (validate_tunnel json_valid t) [
  | some e ↦ (err e, db)
  | none ↦
      if t.id == ""
      then (err Error.invalid, db)
      else transaction (wrap_tunnel_write_err (update_tunnel_row t) >>= check_affected) db
]

-- `UpdateTunnelPool`.
unfoldable pub set_pool : String → List PoolServer → Option ℕ → Tunnel → Tunnel
set_pool id servers at t =
    if (t.id == id) && (t.source == source_pool)
    then record t { pool = servers; pool_updated_at = at }
    else t

unfoldable pub update_tunnel_pool :
    String → List PoolServer → Option ℕ → Db → Result (Unit {0}) × Db
unfolding any set_pool
update_tunnel_pool id servers at db =
    if any (λ t. (t.id == id) && (t.source == source_pool)) db.tunnels
    then (ok tt, record db { tunnels = map (set_pool id servers at) db.tunnels })
    else (err Error.not_found, db)

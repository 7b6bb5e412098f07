-- ===== src/Store/Tables.antt =====
-- The SQL statements of internal/store/rules.go, peers.go and tunnels.go over the schema of
-- internal/store/migrate.go. A statement that breaks a UNIQUE index or a foreign key fails.
use razdacha.Prelude.{
  ℕ, zero, suc, Bool, true, false, not, ◌&&◌, ◌||◌, List, [], ◌∷◌, ◌++◌, map, String, ◌==◌, Option,
  none, some, if◌then◌else◌, any,
}
use razdacha.Prelude.Int.{ℤ, leb_ℤ, eqb_ℤ}
use razdacha.Store.Model.{Error, Result, ok, err, Tunnel, Rule, Peer}
use razdacha.Store.Db.{Tx, pure, raise}

-- ORDER BY priority.
unfoldable pub insert_by_priority : Rule → List Rule → List Rule
insert_by_priority r [] = r ∷ []
insert_by_priority r (q ∷ qs) =
    if leb_ℤ r.priority q.priority then r ∷ q ∷ qs else q ∷ insert_by_priority r qs

unfoldable pub order_by_priority : List Rule → List Rule
unfolding insert_by_priority
order_by_priority [] = []
order_by_priority (r ∷ rs) = insert_by_priority r (order_by_priority rs)

-- SELECT MAX(priority) FROM rules: NULL when the table is empty.
unfoldable pub max_priority : List Rule → Option ℤ
max_priority [] = none
max_priority (r ∷ rs) = elim (max_priority rs) [
  | none ↦ some r.priority
  | some p ↦ some (if leb_ℤ p r.priority then r.priority else p)
]

-- A reference that the foreign key on tunnels accepts: NULL, or the id of a row.
unfoldable pub tunnel_exists : List Tunnel → String → Bool
unfolding any
tunnel_exists ts id = (id == "") || any (λ t. t.id == id) ts

-- INSERT INTO rules.
unfoldable pub insert_rule : Rule → Tx (Unit {0})
unfolding any tunnel_exists
insert_rule r db =
    if any (λ q. (q.id == r.id) || eqb_ℤ q.priority r.priority) db.rules
    then err Error.unique
    else if not (tunnel_exists db.tunnels r.tunnel_id && tunnel_exists db.tunnels r.via_tunnel_id)
    then err Error.foreign_key
    else ok (tt, record db { rules = db.rules ++ r ∷ [] })

-- UPDATE rules SET priority = ? WHERE id = ?: the UNIQUE index is checked for each row.
unfoldable pub with_priority : ℤ → String → Rule → Rule
with_priority p id r = if r.id == id then record r { priority = p } else r

unfoldable pub update_priority : ℤ → String → List Rule → Result (List Rule)
unfolding any with_priority
update_priority p id rules =
    if any (λ r. r.id == id) rules && any (λ r. not (r.id == id) && eqb_ℤ r.priority p) rules
    then err Error.unique
    else ok (map (with_priority p id) rules)

-- UPDATE rules SET … WHERE id = ?: every column but the id and the priority. It returns whether a
-- row was affected.
unfoldable pub overwrite_rule : Rule → Rule → Rule
overwrite_rule r old =
    if old.id == r.id then record r { id = old.id; priority = old.priority } else old

unfoldable pub update_rule_row : Rule → Tx Bool
unfolding any tunnel_exists overwrite_rule
update_rule_row r db =
    if any (λ q. q.id == r.id) db.rules
      && not (tunnel_exists db.tunnels r.tunnel_id && tunnel_exists db.tunnels r.via_tunnel_id)
    then err Error.foreign_key
    else ok
        (any (λ q. q.id == r.id) db.rules, record db { rules = map (overwrite_rule r) db.rules })

-- DELETE FROM rules WHERE id = ?, with whether a row was affected.
unfoldable pub without_rule : String → List Rule → List Rule
without_rule id [] = []
without_rule id (r ∷ rs) = let rest = without_rule id rs in if r.id == id then rest else r ∷ rest

unfoldable pub delete_rule_row : String → Tx Bool
unfolding any without_rule
delete_rule_row id db =
    ok (any (λ r. r.id == id) db.rules, record db { rules = without_rule id db.rules })

-- SELECT COUNT(*) FROM peers WHERE id = ?.
unfoldable pub count_peers : List Peer → String → ℕ
count_peers [] id = zero
count_peers (p ∷ ps) id = if p.id == id then suc (count_peers ps id) else count_peers ps id

-- `checkAffected`.
unfoldable pub check_affected : Bool → Tx (Unit {0})
check_affected true = pure tt
check_affected false = raise Error.not_found

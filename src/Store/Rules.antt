-- ===== src/Store/Rules.antt =====
-- internal/store/rules.go: the routing rules and their order.
pub mod Rank
pub mod Order
pub mod Assign
pub mod SameSet
pub mod Reorder
pub mod Delete
pub mod NextPriority
pub mod Create
pub mod Update
pub mod Peers
pub mod Refinement
use razdacha.Prelude.{
  ℕ, suc, not, List, [], ◌∷◌, ◌++◌, map, String, ◌==◌, Option, none, some, if◌then◌else◌, length,
  eqb,
}
use razdacha.Prelude.Int.{ℤ, pos, negsuc, ◌+ℤ◌}
use razdacha.Store.Text.{contains}
use razdacha.Store.Model.{Error, Result, ok, err, Rule, Peer, scope_selected, validate_rule}
use razdacha.Store.Db.{Db, Tx, ◌>>=◌, ◌>>◌, pure, check, transaction}
use razdacha.Store.Tables.{
  order_by_priority, max_priority, insert_rule, update_priority, update_rule_row, delete_rule_row,
  count_peers, check_affected,
}

-- `wrapRuleWriteErr`: a broken foreign key is a tunnel that does not exist.
unfoldable pub wrap_rule_write_err : {A : Type 0} → Tx A → Tx A
wrap_rule_write_err write db = elim (write db) [
  | err Error.foreign_key ↦ err Error.not_found
  | r ↦ r
]

-- The loop of `validateRulePeers`. The keys of the map `seen` are those of `selected`.
unfoldable pub select_peers : List Peer → List String → List String → Result (List String)
unfolding contains count_peers
select_peers peers selected [] = ok selected
select_peers peers selected (id ∷ ids) =
    let skipped = select_peers peers selected ids in
    let added = select_peers peers (selected ++ id ∷ []) ids in
    if contains selected id
    then skipped
    else if not (eqb (count_peers peers id) 1)
    then err Error.invalid
    else added

-- `validateRulePeers`: the rule with its peers checked and each named once.
unfoldable pub validate_rule_peers : Rule → Tx Rule
validate_rule_peers r db =
    if not (r.peer_scope == scope_selected)
    then ok (r, db)
    else elim (select_peers db.peers [] r.peer_ids) [
      | err e ↦ err e
      | ok ids ↦ ok (record r { peer_ids = ids }, db)
    ]

unfoldable pub next_priority : Option ℤ → ℤ
unfolding ◌+ℤ◌
next_priority none = pos 0
next_priority (some p) = p +ℤ pos 1

select_max_priority : Tx (Option ℤ)
select_max_priority db = ok (max_priority db.rules, db)

-- The transaction of `CreateRule`.
unfoldable pub create_rule_tx : Rule → Tx Rule
unfolding select_max_priority
create_rule_tx r = do
  checked ← validate_rule_peers r
  top ← select_max_priority
  let placed = record checked { priority = next_priority top }
  wrap_rule_write_err (insert_rule placed)
  pure placed

-- `CreateRule`; `fresh` is the value of `newID()`.
unfoldable pub create_rule : String → Rule → Db → Result Rule × Db
unfolding transaction
create_rule fresh r db = elim (validate_rule r) [
  | some e ↦ (err e, db)
  | none ↦ transaction (create_rule_tx (record r { id = if r.id == "" then fresh else r.id })) db
]

-- The transaction of `UpdateRule`.
unfoldable pub update_rule_tx : Rule → Tx (Unit {0})
update_rule_tx r = do
  checked ← validate_rule_peers r
  affected ← wrap_rule_write_err (update_rule_row checked)
  check_affected affected

-- `UpdateRule`.
unfoldable pub update_rule : Rule → Db → Result (Unit {0}) × Db
update_rule r db = elim (validate_rule r) [
  | some e ↦ (err e, db)
  | none ↦ if r.id == "" then (err Error.invalid, db) else transaction (update_rule_tx r) db
]

abbrev pub ids_of : List Rule → List String
ids_of = map (λ r. r.id)

-- `ruleIDsByPriority`.
unfoldable pub rule_ids_by_priority : List Rule → List String
rule_ids_by_priority rules = ids_of (order_by_priority rules)

-- One loop of `applyOrder`: the i-th id gets the priority `place i`.
unfoldable pub assign_priorities : (ℕ → ℤ) → ℕ → List String → List Rule → Result (List Rule)
assign_priorities place i [] rules = ok rules
assign_priorities place i (id ∷ ids) rules = elim (update_priority (place i) id rules) [
  | err e ↦ err e
  | ok rules' ↦ assign_priorities place (suc i) ids rules'
]

-- `applyOrder`: first -(i + 1), out of the way, and then i.
unfoldable pub apply_order : List String → Tx (Unit {0})
apply_order ids db = elim (assign_priorities negsuc 0 ids db.rules) [
  | err e ↦ err e
  | ok parked ↦ elim (assign_priorities pos 0 ids parked) [
    | err e ↦ err e
    | ok placed ↦ ok (tt, record db { rules = placed })
  ]
]

select_rule_ids : Tx (List String)
select_rule_ids db = ok (rule_ids_by_priority db.rules, db)

-- `DeleteRule`.
unfoldable pub delete_rule : String → Db → Result (Unit {0}) × Db
unfolding delete_rule_row check_affected select_rule_ids transaction
delete_rule id = transaction do
  affected ← delete_rule_row id
  check_affected affected
  order ← select_rule_ids
  apply_order order

-- The loop of `sameSet` over the new order.
unfoldable pub same_set_from : List String → List String → List String → Option Error
unfolding contains
same_set_from current seen [] = none
same_set_from current seen (id ∷ next) =
    let rest = same_set_from current (id ∷ seen) next in
    if not (contains current id)
    then some Error.not_found
    else if contains seen id
    then some Error.invalid
    else rest

-- `sameSet`.
unfoldable pub same_set : List String → List String → Option Error
same_set current next =
    if not (eqb (length current) (length next))
    then some Error.invalid
    else same_set_from current [] next

-- `ReorderRules`.
unfoldable pub reorder_rules : List String → Db → Result (Unit {0}) × Db
unfolding select_rule_ids transaction
reorder_rules ids =
    transaction do current ← select_rule_ids; check (same_set current ids); apply_order ids

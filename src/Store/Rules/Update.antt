-- ===== src/Store/Rules/Update.antt =====
-- `UpdateRule` leaves the order alone.
use mathlib.Core.List.{Mem}
use mathlib.Core.List.Perm
use razdacha.Prelude.{
  ◌≡◌, sym, ◌∙◌, Bool, true, List, map, inl, inr, String, ◌==◌, arith, ◌⊎◌, Option-cases,
  Bool-cases, any, not, ◌&&◌, if◌then◌else◌,
}
use razdacha.Store.Text.{contains_iff}
use razdacha.Store.Model.{Error, ok, err, Rule, validate_rule}
use razdacha.Store.Db.{Db, bind-eq-ok, transaction, transaction-ok, transaction-keeps}
use razdacha.Store.Tables.{check_affected, overwrite_rule, update_rule_row}
use razdacha.Store.Rules.{
  ids_of, update_rule, update_rule_tx, wrap_rule_write_err, validate_rule_peers,
}
use razdacha.Store.Rules.Peers.{validate_rule_peers-ok}
use razdacha.Store.Rules.Create.{refers}
use razdacha.Store.Rules.Reorder.{with_rules}
use razdacha.Store.Rules.Delete.{any_id}
use razdacha.Store.Rules.Order.{IsPlaced, map-IsPlaced}

overwrite_rule-id : (r old : Rule) → (overwrite_rule r old).id ≡ old.id
unfolding overwrite_rule
overwrite_rule-id r old = ground arith

overwrite_rule-priority : (r old : Rule) → (overwrite_rule r old).priority ≡ old.priority
unfolding overwrite_rule
overwrite_rule-priority r old = ground arith

update_rule_row_lem :
    (r : Rule) (db : Db)
    → wrap_rule_write_err (update_rule_row r) db ≡ (
        if any (λ q. q.id == r.id) db.rules && not (refers r db)
        then err Error.not_found
        else ok (any (λ q. q.id == r.id) db.rules, with_rules db (map (overwrite_rule r) db.rules)))
unfolding wrap_rule_write_err update_rule_row
update_rule_row_lem r db =
    elim (Bool-cases (any (λ q. q.id == r.id) db.rules && not (refers r db))) [
      | inl broken ↦ rw (broken, wrap_rule_write_err, update_rule_row)
      | inr sound ↦ rw (sound, wrap_rule_write_err, update_rule_row)
    ]

-- A successful UPDATE has overwritten the row and nothing else.
update_rule_row-ok :
    (r : Rule) (db db' : Db) (affected : Bool)
    → wrap_rule_write_err (update_rule_row r) db ≡ ok (affected, db')
    → (affected ≡ any (λ q. q.id == r.id) db.rules)
      × (db' ≡ with_rules db (map (overwrite_rule r) db.rules))
update_rule_row-ok r db db' affected h =
    let tests = sym (update_rule_row_lem r db) ∙ h in ground arith

update_rule_tx-ok :
    (r : Rule) (db db' : Db) {u : Unit {0}}
    → update_rule_tx r db ≡ ok (u, db')
    → (checked : Rule) × (validate_rule_peers r db ≡ ok (checked, db))
      × (checked.id ≡ r.id)
      × (any (λ q. q.id == checked.id) db.rules ≡ true)
      × (db' ≡ with_rules db (map (overwrite_rule checked) db.rules))
unfolding update_rule_tx check_affected
update_rule_tx-ok r db db' h =
    let (checked, db1, e1, h1) = bind-eq-ok (validate_rule_peers r) _ db h in
    let (same, id) = validate_rule_peers-ok r checked db db1 e1 in
    let (affected, db2, e2, h2) =
      bind-eq-ok (wrap_rule_write_err (update_rule_row checked)) check_affected db
        (rw same at h1) in
    let (hit, stored) = update_rule_row-ok checked db db2 affected e2 in
    (checked, rw same at e1, id, ground (arith, hit, h2), ground (arith, hit, stored, h2))

-- The early returns of `UpdateRule`, or its transaction.
update_rule-cases :
    (r : Rule) (db : Db)
    → ((e : Error) × (update_rule r db ≡ (err e, db)))
      ⊎ (update_rule r db ≡ transaction (update_rule_tx r) db)
unfolding update_rule
update_rule-cases r db = elim (Option-cases (validate_rule r)) [
  | inr (e, invalid) ↦ inl (e, ground (arith, invalid))
  | inl valid ↦ elim (Bool-cases (r.id == "")) [
    | inl unnamed ↦ inl (Error.invalid, ground (arith, valid, unnamed))
    | inr named ↦ inr (ground (arith, valid, named))
  ]
]

module _ {ids : List String} (db : Db) (r : Rule) (h : IsPlaced ids db.rules) where
  -- A successful `UpdateRule` has overwritten the row of that id, whose peers exist, and nothing
  -- else; the row was there.
  pub update_rule-ok :
      (update_rule r db).0 ≡ ok tt
      → (checked : Rule) × (validate_rule_peers r db ≡ ok (checked, db))
        × (Mem r.id ids)
        × ((update_rule r db).1 ≡ with_rules db (map (overwrite_rule checked) db.rules))
  update_rule-ok e = elim (update_rule-cases r db) [
    | inl (x, early) ↦ absurd (ground (arith, early, e))
    | inr late ↦
        let ran = transaction-ok (update_rule_tx r) db (rw late at e) in
        let (checked, peers, id, hit, stored) = update_rule_tx-ok r db _ ran in
        let known =
          (contains_iff (ids_of db.rules) checked.id).0 (sym (any_id checked.id db.rules) ∙ hit) in
        (checked, peers, rw (← id) ((Perm.mem_iff h.perm).0 known), rw late stored)
  ]

  -- Whatever `UpdateRule` returns, the rules are tried in the order in which they were.
  pub update_rule-IsPlaced : IsPlaced ids (update_rule r db).1.rules
  update_rule-IsPlaced = elim (update_rule-cases r db) [
    | inl (x, early) ↦ rw early h
    | inr late ↦ rw late (
        transaction-keeps (λ next. IsPlaced ids next.rules) (update_rule_tx r) db h
          λ u next ran.
            let (checked, peers, id, hit, stored) = update_rule_tx-ok r db next ran in
            rw stored (
              map-IsPlaced (overwrite_rule checked) (overwrite_rule-id checked)
                (overwrite_rule-priority checked) h))
  ]

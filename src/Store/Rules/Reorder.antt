-- ===== src/Store/Rules/Reorder.antt =====
-- `ReorderRules` takes the table from one order to another, or changes nothing.
use mathlib.Core.List.{Mem, Perm}
use mathlib.Core.List.Perm
use razdacha.Prelude.{ℕ, ◌≡◌, List, map, inl, inr, String, none, arith, Option-cases}
use razdacha.Prelude.Int.{pos}
use razdacha.Store.Model.{Error, ok, err, Rule}
use razdacha.Store.Db.{Db, transaction}
use razdacha.Store.Rules.{reorder_rules, select_rule_ids, same_set}
use razdacha.Store.Rules.Rank.{index}
use razdacha.Store.Rules.Order.{IsPlaced, rule_ids_by_priority_placed}
use razdacha.Store.Rules.Assign.{ranked, apply_order-IsPlaced}
use razdacha.Store.Rules.SameSet.{same_set_iff}

abbrev pub with_rules : Db → List Rule → Db
with_rules db rules = record db { rules = rules }

-- The priorities of a placed table are not negative.
pub priority-placed :
    {ids : List String} {rules : List Rule}
    → IsPlaced ids rules
    → (r : Rule) → Mem r rules
    → (n : ℕ) × (r.priority ≡ pos n)
priority-placed {ids} h r m = (index ids r.id, h.at r m)

module _ {current : List String} (db : Db) (h : IsPlaced current db.rules) (ids : List String) where
  accepted : Perm ids current → same_set current ids ≡ none
  accepted p = (same_set_iff current ids h.nodup).1 p

  -- A permutation of the current order is stored: the rules are tried in that order, and nothing
  -- but the priorities changes.
  pub reorder_rules-IsPlaced :
      Perm ids current
      → (reorder_rules ids db ≡ (ok tt, with_rules db (map (ranked ids) db.rules)))
        × IsPlaced ids (map (ranked ids) db.rules)
  unfolding reorder_rules select_rule_ids transaction
  reorder_rules-IsPlaced p =
      let n = Perm.nodup (Perm.symm p) h.nodup in
      let (done, placed) =
        apply_order-IsPlaced ids db n (Perm.trans h.perm (Perm.symm p)) (priority-placed h) in
      (ground (arith, rule_ids_by_priority_placed h, accepted p, done), placed)

  -- Any other list is refused, and the database stays as it was.
  pub reorder_rules-refused :
      ¬ Perm ids current → (e : Error) × (reorder_rules ids db ≡ (err e, db))
  unfolding reorder_rules select_rule_ids transaction
  reorder_rules-refused np = elim (Option-cases (same_set current ids)) [
    | inl none_ ↦ absurd (np ((same_set_iff current ids h.nodup).0 none_))
    | inr (e, refused) ↦ (e, ground (arith, rule_ids_by_priority_placed h, refused))
  ]

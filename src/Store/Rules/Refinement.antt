-- ===== src/Store/Rules/Refinement.antt =====
-- The rule table refines an ordered list of identifiers: each call of rules.go is one step on the
-- list, or none.
use mathlib.Core.List.{Mem, Perm, Nodup-cons, perm_append_singleton}
use mathlib.Core.List.Perm
use razdacha.Prelude.{◌≡◌, refl, List, [], ◌∷◌, ◌++◌, inl, inr, String, Option-cases, Bool-cases}
use razdacha.Store.Text.{contains, contains_iff}
use razdacha.Store.Model.{Result, ok, err, Rule}
use razdacha.Store.Db.{Db}
use razdacha.Store.Rules.{
  create_rule, update_rule, delete_rule, reorder_rules, same_set, rule_ids_by_priority,
}
use razdacha.Store.Rules.Order.{IsPlaced, rule_ids_by_priority_placed}
use razdacha.Store.Rules.SameSet.{same_set_iff}
use razdacha.Store.Rules.Create.{create_rule-IsPlaced, create_rule-failed}
use razdacha.Store.Rules.Update.{update_rule-IsPlaced}
use razdacha.Store.Rules.Delete.{others, delete_rule-IsPlaced, delete_rule-missing}
use razdacha.Store.Rules.Reorder.{reorder_rules-IsPlaced, reorder_rules-refused}

-- A call on the rules. The first argument of `create` is the id that `newID()` makes.
pub data RuleCall : Type 0 where
  create : String → Rule → RuleCall
  update : Rule → RuleCall
  delete : String → RuleCall
  reorder : List String → RuleCall

-- The database after a call.
unfoldable pub after_call : RuleCall → Db → Db
after_call (create fresh r) db = (create_rule fresh r db).1
after_call (update r) db = (update_rule r db).1
after_call (delete id) db = (delete_rule id db).1
after_call (reorder ids) db = (reorder_rules ids db).1

unfoldable pub after_calls : List RuleCall → Db → Db
unfolding after_call
after_calls [] db = db
after_calls (c ∷ cs) db = after_calls cs (after_call c db)

-- What a call may do to the order in which rules are tried.
pub data OrderStep (ids : List String) : List String → Type 0 where
  same : OrderStep ids ids
  added :
      {next : List String} (id : String) → ¬ Mem id ids → next ≡ ids ++ id ∷ [] → OrderStep ids next
  removed :
      {next : List String} (id : String) → Mem id ids → next ≡ others id ids → OrderStep ids next
  permuted : {next : List String} → Perm next ids → OrderStep ids next

abbrev pub Refined : List String → List Rule → Type 0
Refined ids rules = (next : List String) × OrderStep ids next × IsPlaced next rules

module _ {ids : List String} (db : Db) (h : IsPlaced ids db.rules) where
  create-Refined : (fresh : String) (r : Rule) → Refined ids (create_rule fresh r db).1.rules
  create-Refined fresh r = go (create_rule fresh r db).0 refl
    where
      go :
          (result : Result Rule)
          → (create_rule fresh r db).0 ≡ result
          → Refined ids (create_rule fresh r db).1.rules
      go (ok made) e =
          let (stored, placed) = create_rule-IsPlaced db h fresh r made e in
          let (fresh_id, _) =
            Nodup-cons.0 (Perm.nodup (perm_append_singleton made.id ids) placed.nodup) in
          (ids ++ made.id ∷ [], OrderStep.added made.id fresh_id refl, rw stored placed)
      go (err x) e = (ids, OrderStep.same, rw (create_rule-failed fresh r db x e) h)

  delete-Refined : (id : String) → Refined ids (delete_rule id db).1.rules
  delete-Refined id = elim (Bool-cases (contains ids id)) [
    | inl there ↦
        let m = (contains_iff ids id).0 there in
        let (done, placed) = delete_rule-IsPlaced db h id m in
        (others id ids, OrderStep.removed id m refl, rw done placed)
    | inr missing ↦
        let absent : ¬ Mem id ids = λ m. cc (missing, (contains_iff ids id).1 m) in
        (ids, OrderStep.same, rw (delete_rule-missing db h id absent) h)
  ]

  reorder-Refined : (next : List String) → Refined ids (reorder_rules next db).1.rules
  reorder-Refined next = elim (Option-cases (same_set ids next)) [
    | inl accepted ↦
        let p = (same_set_iff ids next h.nodup).0 accepted in
        let (done, placed) = reorder_rules-IsPlaced db h next p in
        (next, OrderStep.permuted p, rw done placed)
    | inr (x, refused) ↦
        let not_perm : ¬ Perm next ids = λ p. cc (refused, (same_set_iff ids next h.nodup).1 p) in
        let (e, stopped) = reorder_rules-refused db h next not_perm in
        (ids, OrderStep.same, rw stopped h)
  ]

  -- Every call on the rules, whether it succeeds or fails, is one step on the ordered list of
  -- identifiers that places the table.
  pub after_call-Refined : (c : RuleCall) → Refined ids (after_call c db).rules
  unfolding after_call
  after_call-Refined (create fresh r) = create-Refined fresh r
  after_call-Refined (update r) = (ids, OrderStep.same, update_rule-IsPlaced db r h)
  after_call-Refined (delete id) = delete-Refined id
  after_call-Refined (reorder next) = reorder-Refined next

-- After any calls on the rules, from a placed table, the table is placed by the order in which it
-- is read: the priorities are 0, 1, … in that order.
pub after_calls-IsPlaced :
    (cs : List RuleCall) (db : Db) {ids : List String}
    → IsPlaced ids db.rules
    → IsPlaced (rule_ids_by_priority (after_calls cs db).rules) (after_calls cs db).rules
unfolding after_calls
after_calls-IsPlaced [] db h = rw (rule_ids_by_priority_placed h) h
after_calls-IsPlaced (c ∷ cs) db h =
    let (next, _, placed) = after_call-Refined db h c in
    after_calls-IsPlaced cs (after_call c db) placed

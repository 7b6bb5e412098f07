-- ===== src/Store/Rules/Delete.antt =====
-- `DeleteRule` takes one identifier out of the order and closes the gap.
use mathlib.Core.List.{Mem, Nodup, Perm, filter, mem-filter, mem-cons, mem-cons_of_mem, Mem-prop}
use mathlib.Core.Logic.{if_pos, if_neg}
use mathlib.Core.Logic.Or
use mathlib.Core.List.Pairwise
use mathlib.Core.List.Perm
use razdacha.Prelude.{
  ◌≡◌, ◌≢◌, refl, sym, ◌∙◌, ap, true, List, [], ◌∷◌, map, inl, inr, String, ◌==◌, eq_iff, arith,
  Bool-cases, any,
}
use razdacha.Store.Text.{contains, contains_iff}
use razdacha.Store.Model.{Error, ok, err, Rule}
use razdacha.Store.Db.{Db}
use razdacha.Store.Tables.{without_rule}
use razdacha.Store.Rules.{ids_of, delete_rule, rule_ids_by_priority}
use razdacha.Store.Rules.Rank.{index, index-injective, Pairwise-index}
use razdacha.Store.Rules.Order.{IsPlaced, rule_ids_by_priority-sorted}
use razdacha.Store.Rules.Assign.{ranked, apply_order-IsPlaced}
use razdacha.Store.Rules.Reorder.{with_rules}

pub dec_other : (id x : String) → Dec (x ≢ id)
dec_other id x = elim (Bool-cases (x == id)) [
  | inl same ↦ no (λ ne. ne ((eq_iff x id).0 same))
  | inr other ↦ yes (λ e. cc (other, (eq_iff x id).1 e))
]

-- An order without one identifier.
abbrev pub others : String → List String → List String
others id = filter (dec_other id)

ids_of-without_rule :
    (id : String) (rules : List Rule) → ids_of (without_rule id rules) ≡ others id (ids_of rules)
unfolding without_rule
ids_of-without_rule id [] = refl
ids_of-without_rule id (r ∷ rs) = elim (Bool-cases (r.id == id)) [
  | inl same ↦
      rw (same, if_neg (dec_other id r.id) (λ ne. ne ((eq_iff r.id id).0 same)))
        (ids_of-without_rule id rs)
  | inr other ↦
      rw (other, if_pos (dec_other id r.id) (λ e. cc (other, (eq_iff r.id id).1 e)))
        (ap (◌∷◌ r.id) (ids_of-without_rule id rs))
]

without_rule-mem :
    (id : String) (rules : List Rule) (r : Rule) → Mem r (without_rule id rules) → Mem r rules
unfolding without_rule
without_rule-mem id [] r m = m
without_rule-mem id (q ∷ qs) r m = elim (Bool-cases (q.id == id)) [
  | inl same ↦ mem-cons_of_mem q (without_rule-mem id qs r (rw same at m))
  | inr other ↦
      Or.elim Mem-prop (mem-cons.0 (rw other at m)) (λ e. mem-cons.1 (Or.inl e))
        (λ t. mem-cons_of_mem q (without_rule-mem id qs r t))
]

pub any_id :
    (id : String) (rules : List Rule) → any (λ r. r.id == id) rules ≡ contains (ids_of rules) id
unfolding contains any
any_id id [] = refl
any_id id (r ∷ rs) = ground (arith, any_id id rs)

module _ {ids : List String} (db : Db) (h : IsPlaced ids db.rules) (id : String) where
  remaining-perm : Perm (ids_of (without_rule id db.rules)) (others id ids)
  remaining-perm = rw ids_of-without_rule (Perm.filter (dec_other id) h.perm)

  remaining-Nodup : Nodup (others id ids)
  remaining-Nodup = Pairwise.filter (dec_other id) h.nodup

  remaining-order : rule_ids_by_priority (without_rule id db.rules) ≡ others id ids
  remaining-order =
      rule_ids_by_priority-sorted (index ids) (others id ids) (without_rule id db.rules)
        (λ a b m n.
          index-injective ids a b ((mem-filter (dec_other id)).0 m).0
            ((mem-filter (dec_other id)).0 n).0)
        (Pairwise.filter (dec_other id) (Pairwise-index ids h.nodup)) remaining-perm
        (λ r m. h.at r (without_rule-mem id db.rules r m))

  found : Mem id ids → any (λ r. r.id == id) db.rules ≡ true
  found m = any_id id db.rules ∙ (contains_iff (ids_of db.rules) id).1 ((Perm.mem_iff h.perm).1 m)

  -- A rule that is there is deleted: the others keep their order, and the gap is closed.
  pub delete_rule-IsPlaced :
      Mem id ids
      → (delete_rule id db
          ≡ (ok tt, with_rules db (map (ranked (others id ids)) (without_rule id db.rules))))
        × IsPlaced (others id ids) (map (ranked (others id ids)) (without_rule id db.rules))
  unfolding delete_rule
  delete_rule-IsPlaced m =
      let (done, placed) =
        apply_order-IsPlaced (others id ids) (with_rules db (without_rule id db.rules))
          remaining-Nodup remaining-perm
          (λ r n. (index ids r.id, h.at r (without_rule-mem id db.rules r n))) in
      (ground (arith, found m, remaining-order, done), placed)

  -- Without such a rule the call fails and the database stays as it was.
  pub delete_rule-missing : ¬ Mem id ids → delete_rule id db ≡ (err Error.not_found, db)
  unfolding delete_rule
  delete_rule-missing absent = elim (Bool-cases (any (λ r. r.id == id) db.rules)) [
    | inl there ↦ absurd (
        absent (
          (Perm.mem_iff h.perm).0
            ((contains_iff (ids_of db.rules) id).0 (sym (any_id id db.rules) ∙ there))))
    | inr missing ↦ ground (arith, missing)
  ]

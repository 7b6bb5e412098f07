-- ===== src/Store/Rules/Order.antt =====
-- The order in which rules are tried. A table is placed by a list of identifiers when its rows are
-- those identifiers, once each, and the priority of each row is its place in the list.
use mathlib.Core.Logic.Or
use mathlib.Core.List.{
  Mem, mem-map, Nodup, Pairwise, Perm, mem-cons, not-mem-nil, Pairwise-cons, Pairwise-map,
}
use mathlib.Core.List.Pairwise
use mathlib.Core.List.Perm
use native.Mathlib.Bridge.{le_prop}
use mathlib.Core.Logic.{∥∥₁_elim}
use razdacha.Prelude.{
  refl, ap₂, ℕ, ◌≤◌, ◌≡◌, sym, ◌∙◌, ap, subst, true, false, List, [], ◌∷◌, inl, inr, map, String,
  arith, Bool-cases,
}
use razdacha.Prelude.Int.{ℤ, pos, ◌≤ℤ◌, leb_ℤ}
use razdacha.Store.Model.{Rule}
use razdacha.Store.Tables.{insert_by_priority, order_by_priority}
use razdacha.Store.Rules.{ids_of, rule_ids_by_priority}
use razdacha.Store.Rules.Rank.{index, index-injective, Pairwise-index, sorted-eq_of_perm}

pub record IsPlaced (ids : List String) (rules : List Rule) : Type 0 where
  pub nodup : Nodup ids
  pub perm : Perm (ids_of rules) ids
  pub at : (r : Rule) → Mem r rules → r.priority ≡ pos (index ids r.id)

insert_by_priority-perm : (r : Rule) (rs : List Rule) → Perm (insert_by_priority r rs) (r ∷ rs)
unfolding insert_by_priority
insert_by_priority-perm r [] = Perm.refl _
insert_by_priority-perm r (q ∷ qs) = elim (Bool-cases (leb_ℤ r.priority q.priority)) [
  | inl first ↦ rw first (Perm.refl _)
  | inr later ↦
      rw later (Perm.trans (Perm.cons q (insert_by_priority-perm r qs)) (Perm.swap r q qs))
]

pub order_by_priority-perm : (rs : List Rule) → Perm (order_by_priority rs) rs
unfolding order_by_priority
order_by_priority-perm [] = Perm.refl _
order_by_priority-perm (r ∷ rs) =
    Perm.trans (insert_by_priority-perm r (order_by_priority rs))
      (Perm.cons r (order_by_priority-perm rs))

abbrev PriorityLe : Rule → Rule → Type 0
PriorityLe a b = a.priority ≤ℤ b.priority

le_of_leb : (a b : ℤ) → leb_ℤ a b ≡ true → a ≤ℤ b
le_of_leb a b h = ground arith

le_of_not_leb : (a b : ℤ) → leb_ℤ a b ≡ false → b ≤ℤ a
le_of_not_leb a b h = ground arith

insert_by_priority-sorted :
    (r : Rule) (rs : List Rule)
    → Pairwise PriorityLe rs
    → Pairwise PriorityLe (insert_by_priority r rs)
unfolding insert_by_priority
insert_by_priority-sorted r [] s = Pairwise.cons (λ a m. absurd (not-mem-nil m)) Pairwise.nil
insert_by_priority-sorted r (q ∷ qs) s =
    let (least, rest) = Pairwise-cons.0 s in
    elim (Bool-cases (leb_ℤ r.priority q.priority)) [
      | inl first ↦
          let below = le_of_leb r.priority q.priority first in
          rw first (
            Pairwise.cons
              (λ a m.
                Or.elim le_prop (mem-cons.0 m) (λ e. rw e below)
                  (λ t. let above = least a t in omega arith))
              s)
      | inr later ↦
          let below = le_of_not_leb r.priority q.priority later in
          rw later (
            Pairwise.cons
              (λ a m.
                Or.elim le_prop (mem-cons.0 ((Perm.mem_iff (insert_by_priority-perm r qs)).0 m))
                  (λ e. rw e below) (least a))
              (insert_by_priority-sorted r qs rest))
    ]

pub order_by_priority-sorted : (rs : List Rule) → Pairwise PriorityLe (order_by_priority rs)
unfolding order_by_priority
order_by_priority-sorted [] = Pairwise.nil
order_by_priority-sorted (r ∷ rs) =
    insert_by_priority-sorted r (order_by_priority rs) (order_by_priority-sorted rs)

-- Reading a table in the order of its priorities gives the one list of its identifiers that is
-- sorted by a key from which the priorities come.
pub rule_ids_by_priority-sorted :
    (key : String → ℕ) (ids : List String) (rules : List Rule)
    → ((a b : String) → Mem a ids → Mem b ids → key a ≡ key b → a ≡ b)
    → Pairwise (λ a b. key a ≤ key b) ids
    → Perm (ids_of rules) ids
    → ((r : Rule) → Mem r rules → r.priority ≡ pos (key r.id))
    → rule_ids_by_priority rules ≡ ids
unfolding rule_ids_by_priority
rule_ids_by_priority-sorted key ids rules inj sorted p at =
    let ordered = order_by_priority-perm rules in
    let rank : (a : Rule) → Mem a (order_by_priority rules) → a.priority ≡ pos (key a.id) =
      λ a m. at a ((Perm.mem_iff ordered).0 m) in
    sorted-eq_of_perm key (ids_of (order_by_priority rules)) ids inj
      ((Pairwise-map (λ a b. le_prop) (λ r. r.id)).1 (
        Pairwise.imp_of_mem (λ a b ma mb s. ground (arith, rank a ma, rank b mb, s))
          (order_by_priority-sorted rules)))
      sorted (Perm.trans (Perm.map (λ r. r.id) ordered) p)

-- Reading a placed table in the order of its priorities gives the list that places it.
pub rule_ids_by_priority_placed :
    {ids : List String} {rules : List Rule} → IsPlaced ids rules → rule_ids_by_priority rules ≡ ids
rule_ids_by_priority_placed {ids} {rules} h =
    rule_ids_by_priority-sorted (index ids) ids rules (index-injective ids)
      (Pairwise-index ids h.nodup) h.perm h.at

pub ids_of-map :
    (f : Rule → Rule) (rules : List Rule)
    → ((r : Rule) → (f r).id ≡ r.id)
    → ids_of (map f rules) ≡ ids_of rules
ids_of-map f [] h = refl
ids_of-map f (r ∷ rs) h = ap₂ ◌∷◌ (h r) (ids_of-map f rs h)

pub ℤ-set : IsSet ℤ
ℤ-set = hlevel

-- A change of rows that leaves identifiers and priorities alone leaves the order alone.
pub map-IsPlaced :
    {ids : List String} {rules : List Rule} (f : Rule → Rule)
    → ((r : Rule) → (f r).id ≡ r.id)
    → ((r : Rule) → (f r).priority ≡ r.priority)
    → IsPlaced ids rules
    → IsPlaced ids (map f rules)
map-IsPlaced {ids} {rules} f same_id same_priority h = record {
  nodup = h.nodup;
  perm = rw (ids_of-map f rules same_id) h.perm;
  at = λ r m. ∥∥₁_elim (mem-map.0 m) (ℤ-set _ _) λ (q, mq, e).
      subst (λ x. x.priority ≡ pos (index ids x.id)) e
        (same_priority q ∙ h.at q mq ∙ ap (λ x. pos (index ids x)) (sym (same_id q)));
}

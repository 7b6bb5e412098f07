-- ===== src/Store/Rules/NextPriority.antt =====
-- The priority that `CreateRule` gives to a new rule.
use mathlib.Core.List
use mathlib.Core.List.{
  Mem, Mem-prop, Nodup, Perm, mem-cons, mem-cons_self, mem-cons_of_mem, not-mem-nil, Nodup-cons,
  mem-append, exists_of_mem-map, mem-map_of_mem, map-append, Nodup-append, perm_append_singleton,
}
use mathlib.Core.List.Perm
use mathlib.Core.Logic.{∥∥₁_elim}
use mathlib.Core.Logic.Or
use native.Mathlib.Bridge.{le_prop}
use razdacha.Prelude.{
  suc, ◌≤◌, ◌≡◌, refl, sym, ap, subst, true, false, List, [], ◌∷◌, inl, inr, String, arith,
  Bool-cases, some, if◌then◌else◌, length,
}
use razdacha.Prelude.Int.{ℤ, pos, ◌≤ℤ◌, leb_ℤ}
use razdacha.Store.Model.{Rule}
use razdacha.Store.Tables.{max_priority}
use razdacha.Store.Rules.{next_priority}
use razdacha.Store.Rules.Rank.{index, index-lt-length, index-head, index-tail}
use razdacha.Store.Rules.Order.{IsPlaced}

-- The last identifier of an order.
last_index :
    (y : String) (ys : List String)
    → Nodup (y ∷ ys)
    → (x : String) × Mem x (y ∷ ys) × (suc (index (y ∷ ys) x) ≡ length (y ∷ ys))
last_index y [] n = (y, mem-cons_self, ap suc (index-head y []))
last_index y (z ∷ zs) n =
    let (fresh, rest) = Nodup-cons.0 n in
    let (x, m, e) = last_index z zs rest in
    (
      x,
      mem-cons_of_mem y m,
      omega (
        arith,
        e,
        index-tail y x (z ∷ zs) (λ same. fresh (subst (λ w. Mem w (z ∷ zs)) (sym same) m)),
      ),
    )

-- MAX(priority) is the priority of a row, and no row has a larger one.
record IsMax (p : ℤ) (rules : List Rule) : Type 0 where
  largest : (r : Rule) → Mem r rules → r.priority ≤ℤ p
  witness : Rule
  there : Mem witness rules
  reached : witness.priority ≡ p

le_of_leb : (a b : ℤ) → leb_ℤ a b ≡ true → a ≤ℤ b
le_of_leb a b h = ground arith

le_of_not_leb : (a b : ℤ) → leb_ℤ a b ≡ false → b ≤ℤ a
le_of_not_leb a b h = ground arith

IsMax-cons :
    (p : ℤ) (r : Rule) (rs : List Rule)
    → IsMax p rs
    → IsMax (if leb_ℤ p r.priority then r.priority else p) (r ∷ rs)
IsMax-cons p r rs h = elim (Bool-cases (leb_ℤ p r.priority)) [
  | inl up ↦
      let above = le_of_leb p r.priority up in
      rw up (record {
        largest = λ q m.
            Or.elim le_prop (mem-cons.0 m) (λ e. rw e (omega arith))
              (λ t. let below = h.largest q t in omega arith);
        witness = r;
        there = mem-cons_self;
        reached = refl;
      })
  | inr down ↦
      let under = le_of_not_leb p r.priority down in
      rw down (record {
        largest = λ q m. Or.elim le_prop (mem-cons.0 m) (λ e. rw e under) (h.largest q);
        witness = h.witness;
        there = mem-cons_of_mem r h.there;
        reached = h.reached;
      })
]

max_priority-IsMax :
    (r : Rule) (rs : List Rule) → (p : ℤ) × (max_priority (r ∷ rs) ≡ some p) × IsMax p (r ∷ rs)
unfolding max_priority
max_priority-IsMax r [] = (
  r.priority,
  refl,
  record {
    largest = λ q m.
        Or.elim le_prop (mem-cons.0 m) (λ e. rw e (omega arith)) (λ t. absurd (not-mem-nil t));
    witness = r;
    there = mem-cons_self;
    reached = refl;
  },
)
max_priority-IsMax r (q ∷ qs) =
    let (p, e, h) = max_priority-IsMax q qs in
    (if leb_ℤ p r.priority then r.priority else p, ground (arith, e), IsMax-cons p r (q ∷ qs) h)

-- The priority of a new rule is the number of the rules there are.
pub next_priority_placed :
    (ids : List String) (rules : List Rule)
    → IsPlaced ids rules
    → next_priority (max_priority rules) ≡ pos (length ids)
unfolding next_priority max_priority
next_priority_placed ids [] h = rw (← Perm.nil-eq h.perm)
next_priority_placed [] (r ∷ rs) h = absurd (List.nil≢cons (sym (Perm.eq-nil h.perm)))
next_priority_placed (y ∷ ys) (r ∷ rs) h =
    let ids = y ∷ ys in
    let (p, e, top) = max_priority-IsMax r rs in
    let at_top = h.at top.witness top.there in
    let below =
      index-lt-length ids top.witness.id
        ((Perm.mem_iff h.perm).0 (mem-map_of_mem (λ (q : Rule). q.id) top.there)) in
    let (x, m, last) = last_index y ys h.nodup in
    let above : length ids ≤ suc (index ids top.witness.id) =
      ∥∥₁_elim (exists_of_mem-map {f = λ (q : Rule). q.id} ((Perm.mem_iff h.perm).1 m)) le_prop
        λ (q, mq, same).
          let at_q = h.at q mq in
          let under = top.largest q mq in
          ground (arith, at_q, under, at_top, top.reached, last, same) in
    ground (arith, e, top.reached, at_top, below, above)

-- ===== src/Store/Rules/Assign.antt =====
-- The two loops of `applyOrder`: no update meets a priority that another row has, and the table ends
-- up placed by the new order.
use mathlib.Core.Logic.Or
use mathlib.Core.List.{
  Mem, Mem-prop, Nodup, Perm, mem-cons, mem-cons_self, mem-cons_of_mem, not-mem-nil, mem-map,
  mem-map_of_mem, Nodup-cons,
}
use mathlib.Core.List.Perm
use mathlib.Core.Logic.{∥∥₁_elim}
use mathlib.Core.HLevel.{⊥_prop, Π_prop}
use native.Mathlib.Nat.{zero-add}
use razdacha.Prelude.{
  ℕ, suc, ◌+◌, ◌≤◌, ◌≡◌, ◌≢◌, refl, sym, ◌∙◌, ap, subst, ap₂, false, not, ◌&&◌, List, [], ◌∷◌, map,
  String, ◌==◌, eq_iff, arith, any, map_id,
}
use razdacha.Prelude.Int.{ℤ, pos, negsuc, eqb_ℤ, eqb_ℤ_iff}
use razdacha.Store.Text.{String-discrete}
use razdacha.Store.Model.{Rule, ok}
use razdacha.Store.Db.{Db}
use razdacha.Store.Tables.{update_priority, with_priority}
use razdacha.Store.Rules.{ids_of, assign_priorities, apply_order}
use razdacha.Store.Rules.Rank.{index, index-head, index-tail}
use razdacha.Store.Rules.Order.{IsPlaced, ℤ-set, ids_of-map}

-- A row with the priority of its place in `ids`.
abbrev pub placed_by : (ℕ → ℤ) → List String → Rule → Rule
placed_by place ids r = record r { priority = place (index ids r.id) }

abbrev pub ranked : List String → Rule → Rule
ranked = placed_by pos

mem-of_ne : {id x : String} {ids : List String} → x ≢ id → Mem x (id ∷ ids) → Mem x ids
mem-of_ne ne m = Or.elim Mem-prop (mem-cons.0 m) (λ e. absurd (ne e)) (λ t. t)

-- What a loop makes of one row.
unfoldable pub assigned : (ℕ → ℤ) → ℕ → List String → Rule → Rule
unfolding with_priority
assigned place i [] r = r
assigned place i (id ∷ ids) r = assigned place (suc i) ids (with_priority (place i) id r)

-- No row has a priority that the loop is still going to use.
abbrev IsClear : (ℕ → ℤ) → ℕ → List Rule → Type 0
IsClear place i rules = (r : Rule) → Mem r rules → (k : ℕ) → i ≤ k → r.priority ≢ place k

clash_free :
    (p : ℤ) (id : String) (rules : List Rule)
    → ((r : Rule) → Mem r rules → r.priority ≢ p)
    → any (λ r. not (r.id == id) && eqb_ℤ r.priority p) rules ≡ false
unfolding any
clash_free p id [] h = refl
clash_free p id (r ∷ rs) h =
    let apart = h r mem-cons_self in
    ground (arith, eqb_ℤ_iff r.priority p, clash_free p id rs (λ q m. h q (mem-cons_of_mem r m)))

update_priority-clear :
    (p : ℤ) (id : String) (rules : List Rule)
    → ((r : Rule) → Mem r rules → r.priority ≢ p)
    → update_priority p id rules ≡ ok (map (with_priority p id) rules)
unfolding update_priority
update_priority-clear p id rules h = ground (arith, clash_free p id rules h)

priority-with_priority :
    (p q : ℤ) (id : String) (r : Rule)
    → r.priority ≢ q
    → p ≢ q
    → (with_priority p id r).priority ≢ q
unfolding with_priority
priority-with_priority p q id r h k = ground arith

with_priority-IsClear :
    (place : ℕ → ℤ) (i : ℕ) (id : String) (rules : List Rule)
    → ((a b : ℕ) → place a ≡ place b → a ≡ b)
    → IsClear place i rules
    → IsClear place (suc i) (map (with_priority (place i) id) rules)
with_priority-IsClear place i id rules inj h r m k lt =
    ∥∥₁_elim (mem-map.0 m) (Π_prop λ _. ⊥_prop) λ (q, mq, e).
      subst (λ x. x.priority ≢ place k) e
        (priority-with_priority (place i) (place k) id q (h q mq k (omega arith))
          (λ same. absurd (let eq = inj i k same in omega arith)))

map-map-assigned :
    (f g : Rule → Rule) (rules : List Rule) → map g (map f rules) ≡ map (λ r. g (f r)) rules
map-map-assigned f g [] = refl
map-map-assigned f g (r ∷ rs) = ap (◌∷◌ (g (f r))) (map-map-assigned f g rs)

-- A loop over a clear table succeeds.
pub assign_priorities-clear :
    (place : ℕ → ℤ) (i : ℕ) (ids : List String) (rules : List Rule)
    → ((a b : ℕ) → place a ≡ place b → a ≡ b)
    → IsClear place i rules
    → assign_priorities place i ids rules ≡ ok (map (assigned place i ids) rules)
unfolding assign_priorities assigned
assign_priorities-clear place i [] rules inj h = ap ok (sym (map_id (λ r. r) rules (λ r. refl)))
assign_priorities-clear place i (id ∷ ids) rules inj h =
    rw (update_priority-clear (place i) id rules (λ r m. h r m i (omega arith)), assign_priorities)
      (assign_priorities-clear place (suc i) ids (map (with_priority (place i) id) rules) inj
          (with_priority-IsClear place i id rules inj h)
        ∙ ap ok (map-map-assigned (with_priority (place i) id) (assigned place (suc i) ids) rules))

with_priority-ne : (p : ℤ) (id : String) (r : Rule) → r.id ≢ id → with_priority p id r ≡ r
unfolding with_priority
with_priority-ne p id r h = ground (arith, eq_iff r.id id)

with_priority-eq :
    (p : ℤ) (id : String) (r : Rule) → r.id ≡ id → with_priority p id r ≡ record r { priority = p }
unfolding with_priority
with_priority-eq p id r h = ground (arith, eq_iff r.id id)

-- A row that the loop does not name keeps its priority.
assigned-absent :
    (place : ℕ → ℤ) (i : ℕ) (ids : List String) (r : Rule)
    → ¬ Mem r.id ids
    → assigned place i ids r ≡ r
unfolding assigned
assigned-absent place i [] r h = refl
assigned-absent place i (id ∷ ids) r h =
    rw (with_priority-ne (place i) id r (λ e. h (mem-cons.1 (Or.inl e))))
      (assigned-absent place (suc i) ids r (λ m. h (mem-cons_of_mem id m)))

-- A row that the loop names gets the priority of its place.
assigned-present :
    (place : ℕ → ℤ) (i : ℕ) (ids : List String) (r : Rule)
    → Nodup ids
    → Mem r.id ids
    → assigned place i ids r ≡ record r { priority = place (i + index ids r.id) }
unfolding assigned
assigned-present place i [] r n m = absurd (not-mem-nil m)
assigned-present place i (id ∷ ids) r n m =
    let (fresh, rest) = Nodup-cons.0 n in
    elim (String-discrete r.id id) [
      | yes e ↦
          let start : i + index (id ∷ ids) r.id ≡ i = rw e (omega (arith, index-head id ids)) in
          rw (with_priority-eq (place i) id r e, start)
            (assigned-absent place (suc i) ids (record r { priority = place i }) (rw e fresh))
      | no ne ↦
          let later : suc i + index ids r.id ≡ i + index (id ∷ ids) r.id =
            omega (arith, index-tail id r.id ids (λ e. ne (sym e))) in
          rw (with_priority-ne (place i) id r ne, ← later)
            (assigned-present place (suc i) ids r rest (mem-of_ne ne m))
    ]

map-eq_of_mem :
    (f g : Rule → Rule) (rules : List Rule)
    → ((r : Rule) → Mem r rules → f r ≡ g r)
    → map f rules ≡ map g rules
map-eq_of_mem f g [] h = refl
map-eq_of_mem f g (r ∷ rs) h =
    ap₂ ◌∷◌ (h r mem-cons_self) (map-eq_of_mem f g rs (λ q m. h q (mem-cons_of_mem r m)))

-- One loop over a clear table, when it names every row.
assign_priorities-all :
    (place : ℕ → ℤ) (ids : List String) (rules : List Rule)
    → ((a b : ℕ) → place a ≡ place b → a ≡ b)
    → Nodup ids
    → Perm (ids_of rules) ids
    → IsClear place 0 rules
    → assign_priorities place 0 ids rules ≡ ok (map (placed_by place ids) rules)
assign_priorities-all place ids rules inj n p clear =
    assign_priorities-clear place 0 ids rules inj clear
    ∙ ap ok (
        map-eq_of_mem _ _ rules (λ r m.
          assigned-present place 0 ids r n
            ((Perm.mem_iff p).0 (mem-map_of_mem (λ (q : Rule). q.id) m))
          ∙ rw zero-add))

-- The table that `ids` places.
pub ranked-IsPlaced :
    (ids : List String) (rules : List Rule)
    → Nodup ids
    → Perm (ids_of rules) ids
    → IsPlaced ids (map (ranked ids) rules)
ranked-IsPlaced ids rules n p = record {
  nodup = n;
  perm = rw (ids_of-map (ranked ids) rules (λ r. refl)) p;
  at = λ r m.
      ∥∥₁_elim (mem-map.0 m) (ℤ-set _ _)
        λ (q, _, e). subst (λ x. x.priority ≡ pos (index ids x.id)) e refl;
}

-- `applyOrder` on a table whose priorities are not negative: it succeeds, changes priorities only,
-- and leaves the table placed by `ids`.
pub apply_order-IsPlaced :
    (ids : List String) (db : Db)
    → Nodup ids
    → Perm (ids_of db.rules) ids
    → ((r : Rule) → Mem r db.rules → (n : ℕ) × (r.priority ≡ pos n))
    → (apply_order ids db ≡ ok (tt, record db { rules = map (ranked ids) db.rules }))
      × IsPlaced ids (map (ranked ids) db.rules)
unfolding apply_order
apply_order-IsPlaced ids db n p h =
    let parked = map (placed_by negsuc ids) db.rules in
    let first =
      assign_priorities-all negsuc ids db.rules (λ a b e. cc) n p
        (λ r m k _ e. let (x, q) = h r m in cc) in
    let clear : (r : Rule) → Mem r parked → (k : ℕ) → 0 ≤ k → r.priority ≢ pos k = λ r m k _.
      ∥∥₁_elim (mem-map.0 m) (Π_prop λ _. ⊥_prop)
        λ (q, _, e). subst (λ x. x.priority ≢ pos k) e (λ c. cc) in
    let same : ids_of parked ≡ ids_of db.rules = ids_of-map _ db.rules (λ r. refl) in
    let second = assign_priorities-all pos ids parked (λ a b e. cc) n (rw same p) clear in
    (
      rw (first, second, apply_order)
          (ap (λ rules. ok (tt, record db { rules = rules })) (map-map-assigned _ _ db.rules)),
      ranked-IsPlaced ids db.rules n p,
    )

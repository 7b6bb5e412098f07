-- ===== src/Qr/Place/Functional.antt =====
-- The skeleton of internal/qr/qr.go marks every module of the format field as functional.
use razdacha.Prelude.{
  ℕ, zero, suc, ◌+◌, ◌-◌, ◌*◌, ◌%◌, ◌/◌, ◌≤◌, ◌<◌, ◌≡◌, ◌⊎◌, refl, ◌∙◌, arith, Bool, true, false,
  ◌||◌, List, [], ◌∷◌, leb, eqb, Bool-cases, inl, inr,
}
use razdacha.Prelude.Int.{ℤ, pos, negsuc, ◌+ℤ◌}
use razdacha.Qr.Matrix.{write, for_each, range}
use razdacha.Qr.Format.{bch_version}
use razdacha.Qr.Skeleton.{
  Drawing, draw, finder, alignment, alignments, timing, reserve_module, reserve, version_module,
  version_field, patterns, skeleton, minus_one_to_seven, minus_two_to_two, finder_on, align,
  align_of, in_corner,
}

-- Drawing goes on from `d` to `e`: the size stays, and what is functional stays so.
pub record After (d e : Drawing) : Type 0 where
  pub same_size : e.size ≡ d.size
  pub grows : (r c : ℕ) → d.functional r c ≡ true → e.functional r c ≡ true

After-self : (d : Drawing) → After d d
After-self d = record { same_size = refl; grows = λ r c h. h }

After-trans : {a b c : Drawing} → After a b → After b c → After a c
After-trans f g = record {
  same_size = g.same_size ∙ f.same_size;
  grows = λ r c h. g.grows r c (f.grows r c h);
}

draw-After : (row col : ℤ) (v : Bool) (d : Drawing) → After d (draw row col v d)
unfolding draw write
draw-After (pos row) (pos col) v d = elim (Bool-cases (leb d.size row || leb d.size col)) [
  | inl outside ↦ rw outside (After-self d)
  | inr inside ↦ rw inside (record { same_size = refl; grows = λ r c h. ground (arith, h) })
]
draw-After (pos row) (negsuc col) v d = After-self d
draw-After (negsuc row) col v d = After-self d

for_each-After :
    {A : Type 0} (xs : List A) (f : A → Drawing → Drawing) (d : Drawing)
    → ((x : A) (e : Drawing) → After e (f x e))
    → After d (for_each xs f d)
unfolding for_each
for_each-After [] f d h = After-self d
for_each-After (x ∷ xs) f d h = After-trans (h x d) (for_each-After xs f (f x d) h)

finder-After : (r c : ℕ) (d : Drawing) → After d (finder r c d)
unfolding finder
finder-After r c d = for_each-After minus_one_to_seven _ d (λ i e.
    for_each-After minus_one_to_seven _ e
      (λ j g. draw-After (pos r +ℤ i) (pos c +ℤ j) (finder_on i j) g))

alignment-After : (r c : ℕ) (d : Drawing) → After d (alignment r c d)
unfolding alignment
alignment-After r c d = elim (Bool-cases (in_corner d.size r c)) [
  | inl corner ↦ rw corner (After-self d)
  | inr clear ↦ rw clear (
      for_each-After minus_two_to_two _ d (λ i e.
        for_each-After minus_two_to_two _ e (λ j g. draw-After (pos r +ℤ i) (pos c +ℤ j) _ g)))
]

alignments-After : (centers : List ℕ) (d : Drawing) → After d (alignments centers d)
unfolding alignments
alignments-After centers d =
    for_each-After centers _ d (λ r e. for_each-After centers _ e (λ c g. alignment-After r c g))

timing-After : (i : ℕ) (d : Drawing) → After d (timing i d)
unfolding timing
timing-After i d = After-trans (draw-After (pos 6) (pos i) _ d) (draw-After (pos i) (pos 6) _ _)

reserve_module-After : (r c : ℕ) (d : Drawing) → After d (reserve_module r c d)
unfolding reserve_module
reserve_module-After r c d = elim (Bool-cases (d.functional r c)) [
  | inl taken ↦ rw taken (After-self d)
  | inr free ↦ rw free (draw-After (pos r) (pos c) false d)
]

reserve-After : (i : ℕ) (d : Drawing) → After d (reserve i d)
unfolding reserve
reserve-After i d = After-trans (reserve_module-After 8 i d) (reserve_module-After i 8 _)

version_field-After : (v : ℕ) (d : Drawing) → After d (version_field v d)
unfolding version_field version_module
version_field-After v d = elim (Bool-cases (leb 7 v)) [
  | inl large ↦ rw large (
      for_each-After (range 0 18) (version_module (bch_version v)) d (λ i e.
        After-trans (draw-After (pos (i / 3)) (pos (i % 3 + e.size - 11)) _ e)
          (draw-After _ _ _ _)))
  | inr small ↦ rw small (After-self d)
]

patterns_size : (v : ℕ) → (patterns v).size ≡ v * 4 + 17
unfolding patterns
patterns_size v =
    (draw-After (pos (v * 4 + 17 - 8)) (pos 8) true _).same_size
    ∙ (for_each-After (range 8 (v * 4 + 17 - 16)) timing _ timing-After).same_size
    ∙ (alignments-After (align_of (v - 1) align) _).same_size
    ∙ (finder-After (v * 4 + 17 - 7) 0 _).same_size
    ∙ (finder-After 0 (v * 4 + 17 - 7) _).same_size
    ∙ (finder-After 0 0 _).same_size

-- A reserved module inside the matrix is functional.
reserve_module_marks :
    (r c : ℕ) (d : Drawing) → r < d.size → c < d.size → (reserve_module r c d).functional r c ≡ true
unfolding reserve_module draw write
reserve_module_marks r c d h k = elim (Bool-cases (d.functional r c)) [
  | inl taken ↦ rw taken taken
  | inr free ↦ rw free (ground arith)
]

-- The two modules of the format field with number i.
pub record Reserved (i : ℕ) (d : Drawing) : Type 0 where
  pub in_row : d.functional 8 i ≡ true
  pub in_column : d.functional i 8 ≡ true

Reserved-After : {d e : Drawing} (i : ℕ) → After d e → Reserved i d → Reserved i e
Reserved-After i a r = record { in_row = a.grows 8 i r.in_row; in_column = a.grows i 8 r.in_column }

reserve-Reserved : (i : ℕ) (d : Drawing) → i < d.size → 8 < d.size → Reserved i (reserve i d)
unfolding reserve
reserve-Reserved i d h k =
    let first : After d (reserve_module 8 i d) = reserve_module-After 8 i d in
    let second : After (reserve_module 8 i d) (reserve i d) =
      unfold reserve in reserve_module-After i 8 (reserve_module 8 i d) in
    record {
      in_row = second.grows 8 i (reserve_module_marks 8 i d k h);
      in_column =
          reserve_module_marks i 8 (reserve_module 8 i d) (rw first.same_size h)
            (rw first.same_size k);
    }

range-Reserved :
    (low count i : ℕ) (d : Drawing)
    → low ≤ i
    → i < low + count
    → i < d.size
    → 8 < d.size
    → Reserved i (for_each (range low count) reserve d)
unfolding for_each range
range-Reserved low zero i d h k l m = absurd (omega arith)
range-Reserved low (suc count) i d h k l m =
    let step : After d (reserve low d) = reserve-After low d in
    elim (Bool-cases (eqb i low)) [
      | inl here ↦
          let e : low ≡ i = ground arith in
          Reserved-After i
            (for_each-After (range (suc low) count) reserve (reserve low d) reserve-After)
            (rw e (reserve-Reserved i d l m))
      | inr later ↦
          range-Reserved (suc low) count i (reserve low d) (ground arith) (omega arith)
            (rw step.same_size l) (rw step.same_size m)
    ]

module _ (v : ℕ) where
  abbrev side : ℕ
  side = v * 4 + 17

  -- After each of the two loops that reserve the format field.
  reserved_low : Drawing
  reserved_low = for_each (range 0 9) reserve (patterns v)

  reserved_high : Drawing
  reserved_high = for_each (range (side - 8) 8) reserve reserved_low

  reserved_low_size : reserved_low.size ≡ side
  unfolding reserved_low
  reserved_low_size =
      (for_each-After (range 0 9) reserve (patterns v) reserve-After).same_size ∙ patterns_size v

  high-After : After reserved_low reserved_high
  unfolding reserved_high
  high-After = for_each-After (range (side - 8) 8) reserve reserved_low reserve-After

  skeleton-After : After reserved_high (skeleton v)
  unfolding skeleton reserved_low reserved_high
  skeleton-After = version_field-After v _

  pub skeleton_size : (skeleton v).size ≡ side
  skeleton_size = skeleton-After.same_size ∙ high-After.same_size ∙ reserved_low_size

  low-Reserved : (i : ℕ) → i < 9 → Reserved i (skeleton v)
  low-Reserved i h = Reserved-After i (After-trans high-After skeleton-After) (
      unfold reserved_low in
      range-Reserved 0 9 i (patterns v) (omega arith) (omega arith) (omega (arith, patterns_size v))
        (omega (arith, patterns_size v)))

  high-Reserved : (i : ℕ) → side - 8 ≤ i → i < side → Reserved i (skeleton v)
  high-Reserved i h k = Reserved-After i skeleton-After (
      unfold reserved_high in
      range-Reserved (side - 8) 8 i reserved_low h (omega arith) (omega (arith, reserved_low_size))
        (omega (arith, reserved_low_size)))

  -- Every module of the format field, in row 8 and in column 8.
  pub skeleton-Reserved :
      (i : ℕ) → (i < 9) ⊎ ((side - 8 ≤ i) × (i < side)) → Reserved i (skeleton v)
  skeleton-Reserved i (inl low) = low-Reserved i low
  skeleton-Reserved i (inr (high, inside)) = high-Reserved i high inside

-- ===== src/Qr/Place/FormatField.antt =====
-- The format field that place of internal/qr/qr.go adds touches no module of the data.
use razdacha.Prelude.{
  ℕ, zero, suc, ◌+◌, ◌-◌, ◌*◌, ◌≤◌, ◌<◌, ◌≡◌, ◌⊎◌, refl, ◌∙◌, arith, Bool, true, false, ◌&&◌, ◌||◌,
  List, ltb, leb, eqb, Bool-cases, inl, inr,
}
use razdacha.Prelude.Int.{pos}
use razdacha.Qr.Matrix.{Grid, Matrix, write, set_module, for_each, range}
use razdacha.Qr.Format.{test_bit, bch_format}
use razdacha.Qr.Stream.Bits.{AreBits}
use razdacha.Qr.Skeleton.{Drawing, skeleton}
use razdacha.Qr.Place.{
  Place, places, place_bits, format_column, format_row, format_bit, format_field, place,
}
use razdacha.Qr.Place.Distinct.{visits-places}
use razdacha.Qr.Place.Functional.{skeleton-Reserved, skeleton_size}
use razdacha.Qr.Place.ReadBack.{
  Once, read_modules, count_free, fit, Once-of-visits, read_modules-place_bits, read_modules-ext,
}

-- From one matrix to another no module changes that is not functional.
Keeps : Grid → Matrix → Matrix → Type 0
Keeps functional m n = (r c : ℕ) → functional r c ≡ false → n.dark r c ≡ m.dark r c

module _ (functional : Grid) where
  Keeps-trans :
      (a b c : Matrix) → Keeps functional a b → Keeps functional b c → Keeps functional a c
  unfolding Keeps
  Keeps-trans a b c f g row col h = g row col h ∙ f row col h

  other_module :
      (row col : ℕ) (v : Bool) (g : Grid) (r c : ℕ)
      → functional row col ≡ true
      → functional r c ≡ false
      → write g row col v r c ≡ g r c
  unfolding write
  other_module row col v g r c taken free = elim (Bool-cases (eqb r row && eqb c col)) [
    | inl same ↦
        let e : r ≡ row = ground arith in
        let f : c ≡ col = ground arith in
        let clash : functional row col ≡ false = rw (← e, ← f) free in cc
    | inr other ↦ rw other refl
  ]

  set_module-Keeps :
      (row col : ℕ) (v : Bool) (m : Matrix)
      → functional row col ≡ true
      → Keeps functional m (set_module (pos row) (pos col) v m)
  unfolding Keeps set_module
  set_module-Keeps row col v m taken r c free =
      elim (Bool-cases (leb m.size row || leb m.size col)) [
        | inl outside ↦ rw outside refl
        | inr inside ↦ rw inside (other_module row col v m.dark r c taken free)
      ]

  for_each-Keeps :
      (low count : ℕ) (f : ℕ → Matrix → Matrix) (m : Matrix)
      → ((i : ℕ) (n : Matrix) → i < low + count → Keeps functional n (f i n))
      → Keeps functional m (for_each (range low count) f m)
  unfolding for_each range
  for_each-Keeps low zero f m h = unfold Keeps in λ r c free. refl
  for_each-Keeps low (suc count) f m h =
      Keeps-trans m (f low m) _ (h low m (omega arith))
        (for_each-Keeps (suc low) count f (f low m) (λ i n k. h i n (omega arith)))

module _ (v : ℕ) where
  abbrev taken : Grid
  taken = (skeleton v).functional

  row_taken : (i : ℕ) → (i < 9) ⊎ ((v * 4 + 17 - 8 ≤ i) × (i < v * 4 + 17)) → taken 8 i ≡ true
  row_taken i h = (skeleton-Reserved v i h).in_row

  column_taken : (i : ℕ) → (i < 9) ⊎ ((v * 4 + 17 - 8 ≤ i) × (i < v * 4 + 17)) → taken i 8 ≡ true
  column_taken i h = (skeleton-Reserved v i h).in_column

  format_column-Keeps :
      (i : ℕ) (on : Bool) (m : Matrix) → i < 15 → Keeps taken m (format_column (v * 4 + 17) i on m)
  unfolding format_column
  format_column-Keeps i on m h = elim (Bool-cases (ltb i 6)) [
    | inl early ↦ rw early (set_module-Keeps taken i 8 on m (column_taken i (inl (ground arith))))
    | inr late ↦ elim (Bool-cases (ltb i 8)) [
      | inl middle ↦
          rw (late, middle)
            (set_module-Keeps taken (i + 1) 8 on m (column_taken (i + 1) (inl (ground arith))))
      | inr last ↦
          rw (late, last)
            (set_module-Keeps taken (v * 4 + 17 - 15 + i) 8 on m
              (column_taken (v * 4 + 17 - 15 + i) (inr (ground arith, ground arith))))
    ]
  ]

  format_row-Keeps :
      (i : ℕ) (on : Bool) (m : Matrix) → i < 15 → Keeps taken m (format_row (v * 4 + 17) i on m)
  unfolding format_row
  format_row-Keeps i on m h = elim (Bool-cases (ltb i 8)) [
    | inl early ↦ rw early (
        set_module-Keeps taken 8 (v * 4 + 17 - i - 1) on m
          (row_taken (v * 4 + 17 - i - 1) (inr (ground arith, ground arith))))
    | inr late ↦ elim (Bool-cases (ltb i 9)) [
      | inl middle ↦
          rw (late, middle)
            (set_module-Keeps taken 8 (15 - i) on m (row_taken (15 - i) (inl (ground arith))))
      | inr last ↦
          rw (late, last)
            (set_module-Keeps taken 8 (14 - i) on m (row_taken (14 - i) (inl (ground arith))))
    ]
  ]

  format_bit-Keeps :
      (format i : ℕ) (m : Matrix) → i < 15 → Keeps taken m (format_bit (v * 4 + 17) format i m)
  unfolding format_bit
  format_bit-Keeps format i m h =
      let on : Bool = test_bit format i in
      Keeps-trans taken m (format_column (v * 4 + 17) i on m) _ (format_column-Keeps i on m h)
        (format_row-Keeps i on (format_column (v * 4 + 17) i on m) h)

  -- The matrix before the format field.
  filled : List ℕ → ℕ → Matrix
  filled stream mask =
      let d = skeleton v in
      record { size = d.size; dark = place_bits d.functional mask (places d.size) stream d.dark }

  place-Keeps :
      (stream : List ℕ) (mask : ℕ) → Keeps taken (filled stream mask) (place v stream mask)
  unfolding filled place
  place-Keeps stream mask =
      let d : Drawing = skeleton v in
      let format : ℕ = bch_format (format_field mask) in
      let m1 : Matrix = for_each (range 0 15) (format_bit d.size format) (filled stream mask) in
      let bits : Keeps taken (filled stream mask) m1 =
        for_each-Keeps taken 0 15 (format_bit d.size format) (filled stream mask)
          (λ i n h. rw (skeleton_size v) (format_bit-Keeps format i n (omega arith))) in
      Keeps-trans taken (filled stream mask) m1 _ bits (
        set_module-Keeps taken (d.size - 8) 8 true m1
          (rw (skeleton_size v) (column_taken (v * 4 + 17 - 8) (inr (omega arith, omega arith)))))

  read_place :
      (ps : List Place) (stream : List ℕ) (mask : ℕ)
      → read_modules taken mask ps (place v stream mask).dark
        ≡ read_modules taken mask ps (filled stream mask).dark
  unfolding Keeps
  read_place ps stream mask =
      read_modules-ext taken mask ps (place v stream mask).dark (filled stream mask).dark
        (place-Keeps stream mask)

  read_filled :
      (stream : List ℕ) (mask : ℕ)
      → 1 ≤ v
      → AreBits stream
      → read_modules taken mask (places (v * 4 + 17)) (filled stream mask).dark
        ≡ fit (count_free taken (places (v * 4 + 17))) stream
  unfolding filled
  read_filled stream mask h b =
      let once : Once (places (v * 4 + 17)) =
        Once-of-visits (places (v * 4 + 17)) (λ r c. ground (arith, visits-places v r c)) in
      rw (skeleton_size v)
        (read_modules-place_bits taken mask (places (v * 4 + 17)) stream (skeleton v).dark once b)

-- In every matrix that place makes, the modules that the skeleton leaves free, read in the order of
-- the zigzag with the mask taken off, are the bits of the stream, with zeros after its end.
pub read_modules-place :
    (v : ℕ) (stream : List ℕ) (mask : ℕ)
    → 1 ≤ v
    → AreBits stream
    → read_modules (skeleton v).functional mask (places (v * 4 + 17)) (place v stream mask).dark
      ≡ fit (count_free (skeleton v).functional (places (v * 4 + 17))) stream
read_modules-place v stream mask h b =
    read_place v (places (v * 4 + 17)) stream mask ∙ read_filled v stream mask h b

-- ===== src/Qr/Skeleton.antt =====
-- skeleton of internal/qr/qr.go: the patterns of a version, and which modules they occupy.
use razdacha.Prelude.{
  ℕ, zero, suc, ◌+◌, ◌-◌, ◌*◌, ◌/◌, ◌%◌, Bool, true, false, ◌&&◌, ◌||◌, List, [], ◌∷◌, ltb, leb,
  eqb, if◌then◌else◌,
}
use mathlib.Core.Bool.{not}
use razdacha.Prelude.Int.{ℤ, pos, negsuc, ◌+ℤ◌, leb_ℤ, eqb_ℤ}
use razdacha.Qr.Matrix.{Grid, blank, write, for_each, range}
use razdacha.Qr.Format.{bch_version, test_bit}

-- `align`: the centres of the alignment patterns, from version 1 on.
abbrev pub align : List (List ℕ)
align =
    []
    ∷ (6 ∷ 18 ∷ [])
    ∷ (6 ∷ 22 ∷ [])
    ∷ (6 ∷ 26 ∷ [])
    ∷ (6 ∷ 30 ∷ [])
    ∷ (6 ∷ 34 ∷ [])
    ∷ (6 ∷ 22 ∷ 38 ∷ [])
    ∷ (6 ∷ 24 ∷ 42 ∷ [])
    ∷ (6 ∷ 26 ∷ 46 ∷ [])
    ∷ (6 ∷ 28 ∷ 50 ∷ [])
    ∷ (6 ∷ 30 ∷ 54 ∷ [])
    ∷ (6 ∷ 32 ∷ 58 ∷ [])
    ∷ (6 ∷ 34 ∷ 62 ∷ [])
    ∷ (6 ∷ 26 ∷ 46 ∷ 66 ∷ [])
    ∷ (6 ∷ 26 ∷ 48 ∷ 70 ∷ [])
    ∷ (6 ∷ 26 ∷ 50 ∷ 74 ∷ [])
    ∷ (6 ∷ 30 ∷ 54 ∷ 78 ∷ [])
    ∷ (6 ∷ 30 ∷ 56 ∷ 82 ∷ [])
    ∷ (6 ∷ 30 ∷ 58 ∷ 86 ∷ [])
    ∷ (6 ∷ 34 ∷ 62 ∷ 90 ∷ [])
    ∷ (6 ∷ 28 ∷ 50 ∷ 72 ∷ 94 ∷ [])
    ∷ (6 ∷ 26 ∷ 50 ∷ 74 ∷ 98 ∷ [])
    ∷ (6 ∷ 30 ∷ 54 ∷ 78 ∷ 102 ∷ [])
    ∷ (6 ∷ 28 ∷ 54 ∷ 80 ∷ 106 ∷ [])
    ∷ (6 ∷ 32 ∷ 58 ∷ 84 ∷ 110 ∷ [])
    ∷ (6 ∷ 30 ∷ 58 ∷ 86 ∷ 114 ∷ [])
    ∷ (6 ∷ 34 ∷ 62 ∷ 90 ∷ 118 ∷ [])
    ∷ (6 ∷ 26 ∷ 50 ∷ 74 ∷ 98 ∷ 122 ∷ [])
    ∷ (6 ∷ 30 ∷ 54 ∷ 78 ∷ 102 ∷ 126 ∷ [])
    ∷ (6 ∷ 26 ∷ 52 ∷ 78 ∷ 104 ∷ 130 ∷ [])
    ∷ (6 ∷ 30 ∷ 56 ∷ 82 ∷ 108 ∷ 134 ∷ [])
    ∷ (6 ∷ 34 ∷ 60 ∷ 86 ∷ 112 ∷ 138 ∷ [])
    ∷ (6 ∷ 30 ∷ 58 ∷ 86 ∷ 114 ∷ 142 ∷ [])
    ∷ (6 ∷ 34 ∷ 62 ∷ 90 ∷ 118 ∷ 146 ∷ [])
    ∷ (6 ∷ 30 ∷ 54 ∷ 78 ∷ 102 ∷ 126 ∷ 150 ∷ [])
    ∷ (6 ∷ 24 ∷ 50 ∷ 76 ∷ 102 ∷ 128 ∷ 154 ∷ [])
    ∷ (6 ∷ 28 ∷ 54 ∷ 80 ∷ 106 ∷ 132 ∷ 158 ∷ [])
    ∷ (6 ∷ 32 ∷ 58 ∷ 84 ∷ 110 ∷ 136 ∷ 162 ∷ [])
    ∷ (6 ∷ 26 ∷ 54 ∷ 82 ∷ 110 ∷ 138 ∷ 166 ∷ [])
    ∷ (6 ∷ 30 ∷ 58 ∷ 86 ∷ 114 ∷ 142 ∷ 170 ∷ [])
    ∷ []

unfoldable pub align_of : ℕ → List (List ℕ) → List ℕ
align_of i [] = []
align_of zero (cs ∷ table) = cs
align_of (suc i) (cs ∷ table) = align_of i table

-- The modules of the matrix, and `functional`.
pub record Drawing : Type 0 where
  pub size : ℕ
  pub dark : Grid
  pub functional : Grid

-- The function `set` of skeleton.
unfoldable pub draw : ℤ → ℤ → Bool → Drawing → Drawing
draw (pos row) (pos col) v d =
    if leb d.size row || leb d.size col
    then d
    else record d { dark = write d.dark row col v; functional = write d.functional row col true }
draw (pos row) (negsuc col) v d = d
draw (negsuc row) col v d = d

abbrev pub minus_one_to_seven : List ℤ
minus_one_to_seven = negsuc 0 ∷ pos 0 ∷ pos 1 ∷ pos 2 ∷ pos 3 ∷ pos 4 ∷ pos 5 ∷ pos 6 ∷ pos 7 ∷ []

abbrev pub minus_two_to_two : List ℤ
minus_two_to_two = negsuc 1 ∷ negsuc 0 ∷ pos 0 ∷ pos 1 ∷ pos 2 ∷ []

unfoldable pub within : ℤ → ℕ → ℕ → Bool
within x low high = leb_ℤ (pos low) x && leb_ℤ x (pos high)

unfoldable pub is_edge : ℤ → Bool
is_edge x = eqb_ℤ x (pos 0) || eqb_ℤ x (pos 6)

-- Which modules of a finder pattern are dark.
unfoldable pub finder_on : ℤ → ℤ → Bool
finder_on r c =
    (within r 0 6 && is_edge c) || ((within c 0 6 && is_edge r) || (within r 2 4 && within c 2 4))

unfoldable pub finder : ℕ → ℕ → Drawing → Drawing
finder base_row base_col d =
    for_each minus_one_to_seven
      (λ r d.
        for_each minus_one_to_seven
          (λ c d. draw (pos base_row +ℤ r) (pos base_col +ℤ c) (finder_on r c) d) d)
      d

-- `absInt`.
unfoldable pub abs_int : ℤ → ℕ
abs_int (pos n) = n
abs_int (negsuc n) = suc n

-- `maxInt`.
unfoldable pub max_int : ℕ → ℕ → ℕ
max_int a b = if ltb b a then a else b

-- The corners are taken by the finder patterns.
unfoldable pub in_corner : ℕ → ℕ → ℕ → Bool
in_corner size r c =
    (leb r 8 && leb c 8) || ((leb r 8 && leb (size - 9) c) || (leb (size - 9) r && leb c 8))

unfoldable pub alignment : ℕ → ℕ → Drawing → Drawing
alignment r c d =
    if in_corner d.size r c
    then d
    else for_each minus_two_to_two
        (λ dr d.
          for_each minus_two_to_two
            (λ dc d.
              draw (pos r +ℤ dr) (pos c +ℤ dc) (not (eqb (max_int (abs_int dr) (abs_int dc)) 1)) d)
            d)
        d

unfoldable pub alignments : List ℕ → Drawing → Drawing
alignments centers d = for_each centers (λ r d. for_each centers (λ c d. alignment r c d) d) d

-- A round of the timing patterns.
unfoldable pub timing : ℕ → Drawing → Drawing
timing i d = draw (pos i) (pos 6) (eqb (i % 2) 0) (draw (pos 6) (pos i) (eqb (i % 2) 0) d)

-- `if !isFunctional(row, col) { set(row, col, false) }`.
unfoldable pub reserve_module : ℕ → ℕ → Drawing → Drawing
reserve_module row col d = if d.functional row col then d else draw (pos row) (pos col) false d

-- A round that reserves the format field.
unfoldable pub reserve : ℕ → Drawing → Drawing
reserve i d = reserve_module i 8 (reserve_module 8 i d)

-- A round of the version field.
unfoldable pub version_module : ℕ → ℕ → Drawing → Drawing
version_module bits i d =
    let on = test_bit bits i in
    draw (pos (i % 3 + d.size - 11)) (pos (i / 3)) on
      (draw (pos (i / 3)) (pos (i % 3 + d.size - 11)) on d)

unfoldable pub version_field : ℕ → Drawing → Drawing
version_field version d =
    if leb 7 version then for_each (range 0 18) (version_module (bch_version version)) d else d

-- The patterns before the format field is reserved.
unfoldable pub patterns : ℕ → Drawing
patterns version =
    let size = version * 4 + 17 in
    let d0 : Drawing = record { size = size; dark = blank; functional = blank } in
    let d1 = finder (size - 7) 0 (finder 0 (size - 7) (finder 0 0 d0)) in
    let d2 = alignments (align_of (version - 1) align) d1 in
    let d3 = for_each (range 8 (size - 16)) timing d2 in draw (pos (size - 8)) (pos 8) true d3

unfoldable pub skeleton : ℕ → Drawing
skeleton version =
    let size = version * 4 + 17 in
    let d4 = for_each (range 0 9) reserve (patterns version) in
    let d5 = for_each (range (size - 8) 8) reserve d4 in version_field version d5

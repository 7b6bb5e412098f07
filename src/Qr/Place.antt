-- ===== src/Qr/Place.antt =====
-- place of internal/qr/qr.go: the stream along the zigzag, under a mask, and the format field.
pub mod Distinct
pub mod Functional
pub mod ReadBack
pub mod FormatField
use razdacha.Prelude.{
  ℕ, zero, suc, ◌+◌, ◌-◌, ◌*◌, bit_xor, bit_or, Bool, true, false, ◌&&◌, ◌||◌, List, [], ◌∷◌, ◌++◌,
  ltb, leb, eqb, if◌then◌else◌,
}
use razdacha.Prelude.Int.{ℤ, pos}
use razdacha.Qr.Matrix.{Grid, write, Matrix, set_module, for_each, range}
use razdacha.Qr.Format.{mask_fn, bch_format, test_bit}
use razdacha.Qr.Skeleton.{Drawing, skeleton}

-- Which way `dir` points, and a place (row, c) of the zigzag.
pub data Direction : Type 0 where
  up down : Direction

pub record Place : Type 0 where
  pub row : ℕ
  pub col : ℕ

-- The inner `for`: the two modules of each row, until the row leaves the matrix.
unfoldable pub walk : ℕ → ℕ → ℕ → Direction → ℕ → List Place
walk zero size col dir row = []
walk (suc rounds) size col Direction.up row =
    record { row = row; col = col }
    ∷ record { row = row; col = col - 1 }
    ∷ elim row [ zero ↦ [] | suc above ↦ walk rounds size col Direction.up above ]
walk (suc rounds) size col Direction.down row =
    record { row = row; col = col }
    ∷ record { row = row; col = col - 1 }
    ∷ (let rest = walk rounds size col Direction.down (suc row) in
        if leb size (suc row) then [] else rest)

-- The loop over the pairs of columns. A walk up ends in row 0 and one down in the last row, where
-- the next starts with the other direction.
unfoldable pub zigzag : ℕ → ℕ → ℕ → Direction → List Place
zigzag zero size col dir = []
zigzag (suc rounds) size col Direction.up =
    let c = if eqb col 6 then col - 1 else col in
    let rest = zigzag rounds size (c - 2) Direction.down in
    if eqb col 0 then [] else walk size size c Direction.up (size - 1) ++ rest
zigzag (suc rounds) size col Direction.down =
    let c = if eqb col 6 then col - 1 else col in
    let rest = zigzag rounds size (c - 2) Direction.up in
    if eqb col 0 then [] else walk size size c Direction.down 0 ++ rest

-- The places in the order of the loops.
unfoldable pub places : ℕ → List Place
places size = zigzag size size (size - 1) Direction.up

-- `stream[idx]` if there is one, and the stream after `idx++`.
unfoldable pub next_bit : List ℕ → ℕ
next_bit [] = 0
next_bit (b ∷ stream) = b

unfoldable pub advance : List ℕ → List ℕ
advance [] = []
advance (b ∷ stream) = stream

-- `if maskFn(mask, row, c) { dark ^= 1 }`, and then `dark == 1`.
unfoldable pub masked : ℕ → Place → ℕ → Bool
masked mask p bit = eqb (if mask_fn mask p.row p.col then bit_xor bit 1 else bit) 1

-- The body of the loops: `stream` is what follows `idx`, and past its end the bit is 0.
unfoldable pub place_bits : Grid → ℕ → List Place → List ℕ → Grid → Grid
place_bits functional mask [] stream dark = dark
place_bits functional mask (p ∷ ps) stream dark =
    let skipped = place_bits functional mask ps stream dark in
    let placed =
      place_bits functional mask ps (advance stream)
        (write dark p.row p.col (masked mask p (next_bit stream))) in
    if functional p.row p.col then skipped else placed

-- The two copies of bit i of the format field.
unfoldable pub format_column : ℕ → ℕ → Bool → Matrix → Matrix
format_column size i on m =
    if ltb i 6
    then set_module (pos i) (pos 8) on m
    else if ltb i 8
    then set_module (pos (i + 1)) (pos 8) on m
    else set_module (pos (size - 15 + i)) (pos 8) on m

unfoldable pub format_row : ℕ → ℕ → Bool → Matrix → Matrix
format_row size i on m =
    if ltb i 8
    then set_module (pos 8) (pos (size - i - 1)) on m
    else if ltb i 9
    then set_module (pos 8) (pos (15 - i)) on m
    else set_module (pos 8) (pos (14 - i)) on m

unfoldable pub format_bit : ℕ → ℕ → ℕ → Matrix → Matrix
format_bit size format i m =
    let on = test_bit format i in format_row size i on (format_column size i on m)

-- `0b01<<3 | mask`.
unfoldable pub format_field : ℕ → ℕ
format_field mask = bit_or 8 mask

unfoldable pub place : ℕ → List ℕ → ℕ → Matrix
place version stream mask =
    let d = skeleton version in
    let m0 : Matrix = record {
      size = d.size;
      dark = place_bits d.functional mask (places d.size) stream d.dark;
    } in
    let m1 = for_each (range 0 15) (format_bit d.size (bch_format (format_field mask))) m0 in
    set_module (pos (d.size - 8)) (pos 8) true m1

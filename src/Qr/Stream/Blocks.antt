-- ===== src/Qr/Stream/Blocks.antt =====
-- The blocks of internal/qr/qr.go and their interleaving, undone.
use native.Mathlib.Nat.{div-add-mod, suc-mul, mod-lt}
use razdacha.Prelude.{
  ℕ, zero, suc, ◌+◌, ◌-◌, ◌*◌, ◌/◌, ◌%◌, ◌≤◌, ◌<◌, ◌≡◌, refl, ap, ap₂, ◌∙◌, List, [], ◌∷◌, ◌++◌,
  map, length, arith, leb, if◌then◌else◌,
}
use razdacha.Qr.Byte.{Byte}
use razdacha.Qr.Stream.{drop, take, data_blocks}
use razdacha.Qr.ReedSolomon.{rs_remainder}
use razdacha.Qr.ReedSolomon.Remainder.{length-rs_remainder}

unfoldable pub join : List (List Byte) → List Byte
join [] = []
join (d ∷ ds) = d ++ join ds

unfoldable pub sum : List ℕ → ℕ
sum [] = 0
sum (n ∷ ns) = n + sum ns

-- How long the blocks of a version are.
unfoldable pub block_lengths : ℕ → ℕ → ℕ → ℕ → List ℕ
block_lengths zero i first_long short_len = []
block_lengths (suc rounds) i first_long short_len =
    (if leb first_long i then short_len + 1 else short_len)
    ∷ block_lengths rounds (i + 1) first_long short_len

take-append-drop : (n : ℕ) (xs : List Byte) → take n xs ++ drop n xs ≡ xs
unfolding take drop
take-append-drop zero xs = refl
take-append-drop (suc n) [] = refl
take-append-drop (suc n) (x ∷ xs) = ap (λ t. x ∷ t) (take-append-drop n xs)

length-take : (n : ℕ) (xs : List Byte) → n ≤ length xs → length (take n xs) ≡ n
unfolding take
length-take zero xs h = refl
length-take (suc n) [] h = absurd (omega arith)
length-take (suc n) (x ∷ xs) h = ap suc (length-take n xs (omega arith))

length-drop : (n : ℕ) (xs : List Byte) → length (drop n xs) ≡ length xs - n
unfolding drop
length-drop zero xs = omega arith
length-drop (suc n) [] = omega arith
length-drop (suc n) (x ∷ xs) = length-drop n xs ∙ omega arith

nil_of_length : (xs : List Byte) → length xs ≡ 0 → [] ≡ xs
nil_of_length [] h = refl
nil_of_length (x ∷ xs) h = absurd (omega arith)

pub join-data_blocks :
    (r i first_long short_len : ℕ) (cw : List Byte)
    → length cw ≡ sum (block_lengths r i first_long short_len)
    → join (data_blocks r i first_long short_len cw) ≡ cw
unfolding join sum block_lengths data_blocks
join-data_blocks zero i f s cw h = nil_of_length cw h
join-data_blocks (suc r) i f s cw h =
    let len : ℕ = if leb f i then s + 1 else s in
    ap (λ t. take len cw ++ t)
      (join-data_blocks r (i + 1) f s (drop len cw) (omega (arith, length-drop len cw)))
    ∙ take-append-drop len cw

pub length-data_blocks :
    (r i first_long short_len : ℕ) (cw : List Byte)
    → length cw ≡ sum (block_lengths r i first_long short_len)
    → map length (data_blocks r i first_long short_len cw) ≡ block_lengths r i first_long short_len
unfolding sum block_lengths data_blocks
length-data_blocks zero i f s cw h = refl
length-data_blocks (suc r) i f s cw h =
    let len : ℕ = if leb f i then s + 1 else s in
    ap₂ (λ a b. a ∷ b) (length-take len cw (omega arith))
      (length-data_blocks r (i + 1) f s (drop len cw) (omega (arith, length-drop len cw)))

sum-block_lengths_from :
    (r i first_long short_len : ℕ)
    → sum (block_lengths r i first_long short_len)
      ≡ r * short_len + ((i + r - first_long) - (i - first_long))
unfolding sum block_lengths
sum-block_lengths_from zero i f s = omega arith
sum-block_lengths_from (suc r) i f s =
    ground (arith, sum-block_lengths_from r (i + 1) f s, suc-mul r s)

-- The lengths of the blocks of a version come to all its data.
pub sum-block_lengths :
    (n words : ℕ) → 0 < n → sum (block_lengths n 0 (n - words % n) (words / n)) ≡ words
sum-block_lengths n words h = omega (
  arith,
  sum-block_lengths_from n 0 (n - words % n) (words / n),
  div-add-mod words n,
  mod-lt words h,
)

-- Every block is at most so long.
abbrev pub Within : ℕ → List ℕ → Type 0
Within r [] = Unit
Within r (n ∷ ns) = (n ≤ r) × Within r ns

pub block_lengths-Within :
    (r i first_long short_len : ℕ) → Within (short_len + 1) (block_lengths r i first_long short_len)
unfolding block_lengths
block_lengths-Within zero i f s = tt
block_lengths-Within (suc r) i f s = (ground arith, block_lengths-Within r (i + 1) f s)

pub length-block_lengths :
    (r i first_long short_len : ℕ) → length (block_lengths r i first_long short_len) ≡ r
unfolding block_lengths
length-block_lengths zero i f s = refl
length-block_lengths (suc r) i f s = ap suc (length-block_lengths r (i + 1) f s)

-- The error correction of each block is as long.
module _ (ec_len : ℕ) where
  pub correction-Within :
      (ds : List (List Byte)) → Within ec_len (map length (map (λ d. rs_remainder d ec_len) ds))
  correction-Within [] = tt
  correction-Within (d ∷ ds) = (omega (arith, length-rs_remainder d ec_len), correction-Within ds)

  pub sum-correction :
      (ds : List (List Byte))
      → sum (map length (map (λ d. rs_remainder d ec_len) ds)) ≡ length ds * ec_len
  unfolding sum
  sum-correction [] = omega arith
  sum-correction (d ∷ ds) =
      omega (arith, length-rs_remainder d ec_len, sum-correction ds, suc-mul (length ds) ec_len)

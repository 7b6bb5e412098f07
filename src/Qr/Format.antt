-- ===== src/Qr/Format.antt =====
-- The masks and the two BCH codes of internal/qr/qr.go.
use razdacha.Prelude.{
  ℕ, zero, suc, ◌+◌, ◌-◌, ◌*◌, ◌/◌, ◌%◌, ◌^◌, ◌<◌, ◌≤◌, ◌≡◌, ◌≢◌, refl, arith, bit_xor, bit_or,
  Bool, true, ◌||◌, leb, eqb, if◌then◌else◌,
}
use razdacha.Qr.Byte.{all_below, all_below_sound}

-- `maskFn`.
unfoldable pub mask_fn : ℕ → ℕ → ℕ → Bool
mask_fn mask row col =
    if eqb mask 0
    then eqb ((row + col) % 2) 0
    else if eqb mask 1
    then eqb (row % 2) 0
    else if eqb mask 2
    then eqb (col % 3) 0
    else if eqb mask 3
    then eqb ((row + col) % 3) 0
    else if eqb mask 4
    then eqb ((row / 2 + col / 3) % 2) 0
    else if eqb mask 5
    then eqb ((row * col) % 2 + (row * col) % 3) 0
    else if eqb mask 6
    then eqb (((row * col) % 2 + (row * col) % 3) % 2) 0
    else eqb (((row + col) % 2 + (row * col) % 3) % 2) 0

-- `(x>>i)&1 == 1`.
unfoldable pub test_bit : ℕ → ℕ → Bool
test_bit x i = eqb ((x / 2 ^ i) % 2) 1

-- The rounds of a BCH loop from i = low + rounds - 1 down to low.
unfoldable pub bch_loop : ℕ → ℕ → ℕ → ℕ → ℕ
bch_loop zero low poly d = d
bch_loop (suc i) low poly d =
    bch_loop i low poly (if test_bit d (low + i) then bit_xor d (poly * 2 ^ i) else d)

unfoldable pub bch_format : ℕ → ℕ
bch_format field = bit_xor (bit_or (field * 2 ^ 10) (bch_loop 5 10 0x537 (field * 2 ^ 10))) 0x5412

unfoldable pub bch_version : ℕ → ℕ
bch_version v = bit_or (v * 2 ^ 12) (bch_loop 6 12 0x1f25 (v * 2 ^ 12))

-- In how many of the lowest n bits two numbers differ.
unfoldable pub distance : ℕ → ℕ → ℕ → ℕ
distance zero a b = 0
distance (suc n) a b = (a + b) % 2 + distance n (a / 2) (b / 2)

abbrev format_apart : ℕ → Bool
format_apart a = all_below 32 (λ b. eqb a b || leb 7 (distance 15 (bch_format a) (bch_format b)))

format_table : all_below 32 format_apart ≡ true
unfolding all_below bch_format bch_loop test_bit distance
format_table = refl

abbrev version_apart : ℕ → Bool
version_apart a =
    all_below 34 (λ b. eqb a b || leb 8 (distance 18 (bch_version (a + 7)) (bch_version (b + 7))))

version_table : all_below 34 version_apart ≡ true
unfolding all_below bch_version bch_loop test_bit distance
version_table = refl

-- Any two different format fields of five bits get codes that differ in at least seven of their
-- fifteen bits, so that three wrong bits leave the right code the nearest.
pub bch_format-far :
    (a b : ℕ) → a < 32 → b < 32 → a ≢ b → 7 ≤ distance 15 (bch_format a) (bch_format b)
bch_format-far a b h k differ =
    let row : format_apart a ≡ true = all_below_sound 32 format_apart a format_table h in
    ground (
      arith,
      all_below_sound 32 (λ b. eqb a b || leb 7 (distance 15 (bch_format a) (bch_format b))) b row
          k,
    )

-- The codes of any two different versions from 7 to 40 differ in at least eight of their eighteen
-- bits.
pub bch_version-far :
    (a b : ℕ)
    → 7 ≤ a
    → a ≤ 40
    → 7 ≤ b
    → b ≤ 40
    → a ≢ b
    → 8 ≤ distance 18 (bch_version a) (bch_version b)
bch_version-far a b la ha lb hb differ =
    let row : version_apart (a - 7) ≡ true =
      all_below_sound 34 version_apart (a - 7) version_table (omega arith) in
    let ea : a - 7 + 7 ≡ a = omega arith in
    let eb : b - 7 + 7 ≡ b = omega arith in
    let cell : (eqb (a - 7) (b - 7) || leb 8 (distance 18 (bch_version a) (bch_version b))) ≡ true =
      rw ea at (
        rw eb at (
          all_below_sound 34
            (λ b.
              eqb (a - 7) b || leb 8 (distance 18 (bch_version (a - 7 + 7)) (bch_version (b + 7))))
            (b - 7) row (omega arith))) in
    ground arith

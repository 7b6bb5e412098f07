-- ===== src/Qr/Version/Fields.antt =====
-- What the tables of internal/qr/qr.go have in common over the versions.
use razdacha.Prelude.{
  ℕ, suc, ◌+◌, ◌*◌, ◌^◌, ◌≤◌, ◌<◌, ◌≡◌, refl, arith, Bool, true, ◌&&◌, some, ltb, leb, eqb,
}
use razdacha.Qr.Byte.{all_below, all_below_sound}
use razdacha.Qr.Version.{
  entry, total, ecc_per_block, blocks, data_codewords, count_bits, fits, pick_version,
}
use razdacha.Qr.Version.Choice.{pick_from-first}

-- There is a block; the data and the error correction make up the whole; the length of any text
-- that fits is a value of its field.
abbrev consistent : ℕ → Bool
consistent i =
    ltb 0 (entry blocks i)
    && (eqb (data_codewords (suc i) + entry blocks i * entry ecc_per_block i) (entry total i)
        && leb (data_codewords (suc i)) (2 ^ count_bits (suc i)))

consistent_table : all_below 40 consistent ≡ true
unfolding all_below data_codewords count_bits entry
consistent_table = refl

pub consistent_lem :
    (i : ℕ)
    → i < 40
    → (0 < entry blocks i)
      × (data_codewords (suc i) + entry blocks i * entry ecc_per_block i ≡ entry total i)
      × (data_codewords (suc i) ≤ 2 ^ count_bits (suc i))
consistent_lem i h = ground (arith, all_below_sound 40 consistent i consistent_table h)

-- The version that is picked is one of the 40, and the text fits it.
pub pick_version-fits :
    (size v : ℕ) → pick_version size ≡ some v → (1 ≤ v) × (v ≤ 40) × (fits size v ≡ true)
unfolding pick_version
pick_version-fits size v e = ground (arith, pick_from-first size 40 1 v e)

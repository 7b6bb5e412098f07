-- ===== src/Qr/Tests.antt =====
-- The QR encoder at concrete inputs.
use razdacha.Prelude.{
  ℕ, ◌+◌, ◌*◌, ◌<◌, ◌≤◌, ◌≡◌, ◌↔◌, refl, arith, map, List, [], ◌∷◌, ◌++◌, length, none, some,
}
use razdacha.Qr.Byte.{Byte, to_byte, zero_byte, ◌⊕◌}
use razdacha.Qr.Galois.{double, power_of, gf_exp, log_loop, gf_log, gf_mul}
use razdacha.Qr.ReedSolomon.{next_gen, gen_poly, rs_remainder}
use razdacha.Qr.ReedSolomon.Evaluation.{eval}
use razdacha.Qr.ReedSolomon.Remainder.{rs_remainder-IsCorrection}
use razdacha.Qr.Version.{entry, data_codewords, count_bits, fits, pick_from, pick_version}
use razdacha.Qr.Version.Choice.{capacities, first_holding, pick_version-first_holding}
use razdacha.Qr.Stream.{bit_stream}
use razdacha.Qr.Stream.Reader.{read_text}
use razdacha.Qr.Format.{bch_format, bch_version, bch_loop, test_bit, distance, bch_version-far}
use razdacha.Prelude.Int.{◌+ℤ◌}
use razdacha.Qr.Matrix.{write, for_each, range}
use razdacha.Qr.Skeleton.{
  skeleton, patterns, finder, finder_on, within, is_edge, in_corner, alignments, alignment,
  align_of, timing, reserve, reserve_module, version_field, draw,
}
use razdacha.Qr.Place.{places, place, zigzag, walk}
use razdacha.Qr.Place.ReadBack.{read_modules, count_free, fit}
use razdacha.Qr.Place.FormatField.{read_modules-place}
use razdacha.Qr.Penalty.{penalty}
use razdacha.Qr.Encode.{encode, encode-least}
use razdacha.Qr.Encode.Readable.{encode-read_text}

abbrev hi : List Byte
hi = to_byte b'h' ∷ to_byte b'i' ∷ []

-- The generator polynomial of degree 2: x² + 3x + 2.
gen_poly_two : map (λ b. b.value) (gen_poly 2) ≡ 1 ∷ 3 ∷ 2 ∷ []
unfolding gen_poly next_gen gf_mul gf_exp gf_log log_loop power_of double to_byte ◌⊕◌
gen_poly_two = refl

-- The format codes of level L with the masks 0 and 7.
bch_format_zero : bch_format 8 ≡ 0x77c4
unfolding bch_format bch_loop test_bit
bch_format_zero = refl

bch_version_seven : bch_version 7 ≡ 0x07c94
unfolding bch_version bch_loop test_bit
bch_version_seven = refl

-- Version 1 leaves room for exactly its 26 code words.
free_modules_one : count_free (skeleton 1).functional (places 21) ≡ 26 * 8
unfolding count_free skeleton patterns finder finder_on within is_edge in_corner alignments
    alignment align_of timing reserve reserve_module version_field draw for_each range write places
    zigzag walk ◌+ℤ◌
free_modules_one = refl

-- Version 2 has an alignment pattern, and seven modules more than it needs.
free_modules_two : count_free (skeleton 2).functional (places 25) ≡ 44 * 8 + 7
unfolding count_free skeleton patterns finder finder_on within is_edge in_corner alignments
    alignment align_of timing reserve reserve_module version_field draw for_each range write places
    zigzag walk ◌+ℤ◌
free_modules_two = refl

hi_version : pick_version (length hi) ≡ some 1
unfolding pick_version pick_from fits data_codewords count_bits entry
hi_version = refl

rs_remainder-IsCorrection_example :
    (length (rs_remainder hi 7) ≡ 7)
    × (eval zero_byte (gf_exp 6) (hi ++ rs_remainder hi 7) ≡ zero_byte)
rs_remainder-IsCorrection_example = rs_remainder-IsCorrection hi 7 6 (omega arith)

pick_version-first_holding_example :
    (pick_version 2953 ≡ first_holding 2953 capacities 1)
    × ((pick_version 2953 ≡ none) ↔ (2953 < 2953))
pick_version-first_holding_example = pick_version-first_holding 2953

bch_version-far_example : 8 ≤ distance 18 (bch_version 7) (bch_version 40)
bch_version-far_example =
    bch_version-far 7 40 (omega arith) (omega arith) (omega arith) (omega arith) (omega arith)

read_modules-place_example :
    read_modules (skeleton 1).functional 3 (places 21) (place 1 (1 ∷ 0 ∷ 1 ∷ []) 3).dark
    ≡ fit (count_free (skeleton 1).functional (places 21)) (1 ∷ 0 ∷ 1 ∷ [])
read_modules-place_example = read_modules-place 1 (1 ∷ 0 ∷ 1 ∷ []) 3 (omega arith) (omega arith)

encode-least_example :
    (mask : ℕ) × (mask < 8)
    × (encode hi ≡ some (place 1 (bit_stream hi 1) mask))
    × (penalty (place 1 (bit_stream hi 1) mask) ≤ penalty (place 1 (bit_stream hi 1) 5))
encode-least_example = encode-least hi 1 5 hi_version (omega arith)

encode-read_text_example :
    (mask : ℕ) × (mask < 8)
    × (encode hi ≡ some (place 1 (bit_stream hi 1) mask))
    × (read_text 1 (
          read_modules
            (skeleton 1).functional
            mask
            (places 21)
            (place 1 (bit_stream hi 1) mask).dark)
        ≡ some hi)
encode-read_text_example =
    encode-read_text hi 1 hi_version (unfold entry in omega (arith, free_modules_one))

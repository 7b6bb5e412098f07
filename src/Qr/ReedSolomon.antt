-- ===== src/Qr/ReedSolomon.antt =====
-- genPoly and rsRemainder of internal/qr/qr.go: the error correction of one block. A polynomial is the
-- list of its coefficients, the highest first.
pub mod Evaluation
pub mod Generator
pub mod Remainder
use razdacha.Prelude.{ℕ, zero, suc, ◌+◌, List, [], ◌∷◌, ◌++◌, eqb, if◌then◌else◌, length}
use razdacha.Qr.Byte.{Byte, zero_byte, ◌⊕◌}
use razdacha.Qr.Galois.{gf_exp, gf_mul}
use razdacha.Qr.Galois.Product.{one_byte}

-- One round of genPoly: `r[j] ^= p[j]; r[j+1] ^= gfMul(p[j], a)` for each j. `carry` is what the
-- round before has written to r[j].
unfoldable pub next_gen : Byte → Byte → List Byte → List Byte
next_gen a carry [] = carry ∷ []
next_gen a carry (p ∷ ps) = (carry ⊕ p) ∷ next_gen a (gf_mul p a) ps

unfoldable pub gen_poly : ℕ → List Byte
gen_poly zero = one_byte ∷ []
gen_poly (suc n) = next_gen (gf_exp n) zero_byte (gen_poly n)

-- `res[i+j] ^= gfMul(gen[j], c)` for each j; the list starts at res[i].
unfoldable pub add_scaled : Byte → List Byte → List Byte → List Byte
add_scaled c [] res = res
add_scaled c (g ∷ gs) [] = []
add_scaled c (g ∷ gs) (r ∷ res) = (r ⊕ gf_mul g c) ∷ add_scaled c gs res

unfoldable pub tail : List Byte → List Byte
tail [] = []
tail (r ∷ res) = res

-- A round of rsRemainder on what is left of res from place i.
unfoldable pub reduce_step : List Byte → List Byte → List Byte
reduce_step gen [] = []
reduce_step gen (c ∷ res) = tail (if eqb c.value 0 then c ∷ res else add_scaled c gen (c ∷ res))

-- The loop: it returns res from place i + rounds on, since no later round reads before its place.
unfoldable pub reduce : List Byte → ℕ → List Byte → List Byte
reduce gen zero res = res
reduce gen (suc rounds) res = reduce gen rounds (reduce_step gen res)

unfoldable pub zeros : ℕ → List Byte
zeros zero = []
zeros (suc n) = zero_byte ∷ zeros n

unfoldable pub rs_remainder : List Byte → ℕ → List Byte
rs_remainder block ec_len = reduce (gen_poly ec_len) (length block) (block ++ zeros ec_len)

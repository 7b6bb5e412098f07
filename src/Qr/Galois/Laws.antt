-- ===== src/Qr/Galois/Laws.antt =====
-- The laws of gfMul in internal/qr/qr.go: with the exclusive or as sum, the bytes are a field.
use native.Mathlib.Nat.{add_comm}
use mathlib.Core.Bool.{or_comm}
use razdacha.Prelude.{
  ◌+◌, ◌-◌, ◌≡◌, ◌≢◌, refl, sym, ap, ◌∙◌, arith, eqb, false, if◌then◌else◌, Bool-cases, inl, inr,
}
use razdacha.Qr.Byte.{Byte, zero_byte, ◌⊕◌}
use razdacha.Qr.Galois.{gf_exp, gf_log, gf_mul}
use razdacha.Qr.Galois.Product.{
  one_byte, times, times-add, times-log, times_255, log-lt, exp-times, scale, scale-⊕, scale_comm,
  gf_mul-scale, gf_mul-zero, zero_of,
}

pub gf_mul_comm : (a b : Byte) → gf_mul a b ≡ gf_mul b a
unfolding gf_mul
gf_mul_comm a b =
    rw (or_comm (eqb a.value 0) (eqb b.value 0), add_comm (gf_log a).value (gf_log b).value) refl

pub gf_mul-⊕ : (x y c : Byte) → gf_mul (x ⊕ y) c ≡ gf_mul x c ⊕ gf_mul y c
gf_mul-⊕ x y c = rw (gf_mul-scale (x ⊕ y) c, gf_mul-scale x c, gf_mul-scale y c) (scale-⊕ c x y)

-- Two factors may be applied in either order.
pub gf_mul_swap : (x b c : Byte) → gf_mul (gf_mul x b) c ≡ gf_mul (gf_mul x c) b
gf_mul_swap x b c =
    rw (gf_mul-scale x b, gf_mul-scale x c, gf_mul-scale (scale b x) c, gf_mul-scale (scale c x) b)
      (scale_comm c b x)

pub gf_mul_assoc : (a b c : Byte) → gf_mul (gf_mul a b) c ≡ gf_mul a (gf_mul b c)
gf_mul_assoc a b c =
    ap (λ t. gf_mul t c) (gf_mul_comm a b) ∙ gf_mul_swap b a c ∙ gf_mul_comm (gf_mul b c) a

gf_mul_by_set : (a b : Byte) → b.value ≢ 0 → gf_mul a b ≡ times (gf_log b).value a
unfolding scale
gf_mul_by_set a b h = let e : eqb b.value 0 ≡ false = ground arith in rw (gf_mul-scale a b, e) refl

pub gf_mul-one : (c : Byte) → gf_mul c one_byte ≡ c
gf_mul-one c = gf_mul_comm c one_byte ∙ elim (Bool-cases (eqb c.value 0)) [
  | inl zero_c ↦ rw (zero_of c zero_c) (gf_mul-zero one_byte)
  | inr c_set ↦ gf_mul_by_set one_byte c (ground arith) ∙ times-log c (ground arith)
]

-- The inverse of a byte other than 0, from the tables.
abbrev pub inverse : Byte → Byte
inverse a = gf_exp (255 - (gf_log a).value)

pub gf_mul-inverse : (a : Byte) → a.value ≢ 0 → gf_mul (inverse a) a ≡ one_byte
gf_mul-inverse a h =
    let e : (gf_log a).value + (255 - (gf_log a).value) ≡ 255 = omega (arith, log-lt a h) in
    rw (gf_mul_by_set (inverse a) a h, exp-times (255 - (gf_log a).value) (omega arith))
      (sym (times-add (gf_log a).value (255 - (gf_log a).value) one_byte) ∙ rw e times_255)

inverse_cases : (a : Byte) → gf_mul (inverse a) a ≡ (if eqb a.value 0 then zero_byte else one_byte)
inverse_cases a = elim (Bool-cases (eqb a.value 0)) [
  | inl zero_a ↦ rw zero_a (ap (gf_mul (inverse a)) (zero_of a zero_a) ∙ gf_mul-zero (inverse a))
  | inr a_set ↦ rw a_set (gf_mul-inverse a (ground arith))
]

-- Exclusive or and gfMul make the bytes a field: the product is commutative and associative, it
-- distributes over the sum, 1 is neutral, and the entry of gfExp at 255 less
-- the logarithm of a byte is its inverse, unless it is 0.
pub gf_mul_field :
    (a b c : Byte)
    → (gf_mul a b ≡ gf_mul b a)
      × (gf_mul (gf_mul a b) c ≡ gf_mul a (gf_mul b c))
      × (gf_mul (a ⊕ b) c ≡ gf_mul a c ⊕ gf_mul b c)
      × (gf_mul a one_byte ≡ a)
      × (gf_mul (inverse a) a ≡ (if eqb a.value 0 then zero_byte else one_byte))
gf_mul_field a b c =
    (gf_mul_comm a b, gf_mul_assoc a b c, gf_mul-⊕ a b c, gf_mul-one a, inverse_cases a)

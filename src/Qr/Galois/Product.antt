-- ===== src/Qr/Galois/Product.antt =====
-- The product gfMul of internal/qr/qr.go as a doubling repeated as often as the logarithm says, and
-- from there its laws.
use native.Mathlib.Nat.{zero-add, suc-add, add_comm}
use razdacha.Prelude.{
  ℕ, zero, suc, ◌+◌, ◌-◌, ◌<◌, ◌≡◌, ◌≢◌, refl, sym, ap, ◌∙◌, arith, true, ltb, eqb, eqb_iff,
  ltb_iff, if◌then◌else◌, Bool-cases, inl, inr,
}
use razdacha.Qr.Byte.{Byte, Byte-ext, to_byte, zero_byte, ◌⊕◌, ⊕_self}
use razdacha.Qr.Galois.{double, power_of, gf_exp, gf_log, gf_mul}
use razdacha.Qr.Galois.Double.{log_loop_lem, power_of_255, double_byte, double_byte-⊕}

abbrev pub one_byte : Byte
one_byte = record { value = 1; bound = omega arith }

unfoldable pub times : ℕ → Byte → Byte
times zero a = a
times (suc k) a = double_byte (times k a)

power-times : (k : ℕ) → (times k one_byte).value ≡ power_of k
unfolding times double_byte power_of
power-times zero = refl
power-times (suc k) = ap double (power-times k)

times-⊕ : (k : ℕ) (a b : Byte) → times k (a ⊕ b) ≡ times k a ⊕ times k b
unfolding times
times-⊕ zero a b = refl
times-⊕ (suc k) a b = rw (times-⊕ k a b) (double_byte-⊕ (times k a) (times k b))

times-zero : (k : ℕ) → times k zero_byte ≡ zero_byte
times-zero k =
    let e : times k (zero_byte ⊕ zero_byte) ≡ zero_byte =
      rw (times-⊕ k zero_byte zero_byte) (⊕_self (times k zero_byte)) in
    rw (⊕_self zero_byte) at e

times-double : (k : ℕ) (a : Byte) → times k (double_byte a) ≡ double_byte (times k a)
unfolding times
times-double zero a = refl
times-double (suc k) a = ap double_byte (times-double k a)

pub times-add : (j k : ℕ) (a : Byte) → times (j + k) a ≡ times j (times k a)
unfolding times
times-add zero k a = rw (zero-add k) refl
times-add (suc j) k a = rw (suc-add j k) (ap double_byte (times-add j k a))

pub times_comm : (j k : ℕ) (a : Byte) → times j (times k a) ≡ times k (times j a)
times_comm j k a = sym (times-add j k a) ∙ rw (add_comm j k) (times-add k j a)

power_of-lt : (k : ℕ) → power_of k < 256
power_of-lt k = rw (← power-times k) (times k one_byte).bound

to_byte-power : (k : ℕ) → to_byte (power_of k) ≡ times k one_byte
unfolding to_byte
to_byte-power k = Byte-ext _ _ (omega (arith, power-times k, power_of-lt k))

-- A logarithm is below 255, and gives its byte back.
pub log-lt : (a : Byte) → a.value ≢ 0 → (gf_log a).value < 255
unfolding gf_log
log-lt a h = (log_loop_lem a.value a.bound h).1

pub times-log : (a : Byte) → a.value ≢ 0 → times (gf_log a).value one_byte ≡ a
unfolding gf_log
times-log a h = Byte-ext _ _ (power-times _ ∙ (log_loop_lem a.value a.bound h).0)

pub times_255 : times 255 one_byte ≡ one_byte
times_255 = Byte-ext _ _ (power-times 255 ∙ power_of_255)

period : (k : ℕ) → times (255 + k) one_byte ≡ times k one_byte
period k = times-add 255 k one_byte ∙ times_comm 255 k one_byte ∙ ap (times k) times_255

pub exp-times : (k : ℕ) → k < 510 → gf_exp k ≡ times k one_byte
unfolding gf_exp
exp-times k h = elim (Bool-cases (ltb k 255)) [
  | inl small ↦ rw small (to_byte-power k)
  | inr large ↦
      let in_second : ltb k 510 ≡ true = (ltb_iff k 510).1 h in
      let e : k ≡ 255 + (k - 255) = ground arith in
      rw (large, in_second)
        (to_byte-power (k - 255) ∙ sym (period (k - 255)) ∙ ap (λ t. times t one_byte) (sym e))
]

-- The product with b as a doubling, repeated.
unfoldable pub scale : Byte → Byte → Byte
scale b a = if eqb b.value 0 then zero_byte else times (gf_log b).value a

pub zero-gf_mul : (b : Byte) → gf_mul zero_byte b ≡ zero_byte
unfolding gf_mul
zero-gf_mul b = refl

pub gf_mul-zero : (a : Byte) → gf_mul a zero_byte ≡ zero_byte
unfolding gf_mul
gf_mul-zero a = ground arith

pub zero_of : (a : Byte) → eqb a.value 0 ≡ true → a ≡ zero_byte
zero_of a e = Byte-ext a zero_byte ((eqb_iff _ _).0 e)

exp-sum :
    (a b : Byte)
    → a.value ≢ 0
    → b.value ≢ 0
    → gf_exp ((gf_log a).value + (gf_log b).value) ≡ times (gf_log b).value a
exp-sum a b h k =
    exp-times _ (omega (arith, log-lt a h, log-lt b k))
    ∙ times-add (gf_log a).value (gf_log b).value one_byte
    ∙ times_comm (gf_log a).value (gf_log b).value one_byte
    ∙ ap (times (gf_log b).value) (times-log a h)

pub gf_mul-scale : (a b : Byte) → gf_mul a b ≡ scale b a
unfolding scale
gf_mul-scale a b = elim (Bool-cases (eqb b.value 0)) [
  | inl zero_b ↦ rw zero_b (rw (zero_of b zero_b) (gf_mul-zero a))
  | inr b_set ↦ elim (Bool-cases (eqb a.value 0)) [
    | inl zero_a ↦
        rw b_set (rw (zero_of a zero_a) (zero-gf_mul b ∙ sym (times-zero (gf_log b).value)))
    | inr a_set ↦
        rw b_set (unfold gf_mul in rw (a_set, b_set) (exp-sum a b (ground arith) (ground arith)))
  ]
]

pub scale-⊕ : (b x y : Byte) → scale b (x ⊕ y) ≡ scale b x ⊕ scale b y
unfolding scale
scale-⊕ b x y = elim (Bool-cases (eqb b.value 0)) [
  | inl zero_b ↦ rw zero_b (sym (⊕_self zero_byte))
  | inr b_set ↦ rw b_set (times-⊕ (gf_log b).value x y)
]

scale-zero : (b : Byte) → scale b zero_byte ≡ zero_byte
unfolding scale
scale-zero b = elim (Bool-cases (eqb b.value 0)) [
  | inl zero_b ↦ rw zero_b
  | inr b_set ↦ rw b_set (times-zero (gf_log b).value)
]

pub scale_comm : (b c x : Byte) → scale b (scale c x) ≡ scale c (scale b x)
scale_comm b c x = elim (Bool-cases (eqb b.value 0)) [
  | inl zero_b ↦ unfold scale in rw zero_b (sym (scale-zero c))
  | inr b_set ↦ elim (Bool-cases (eqb c.value 0)) [
    | inl zero_c ↦ unfold scale in rw (b_set, zero_c) (times-zero (gf_log b).value)
    | inr c_set ↦ unfold scale in rw (b_set, c_set) (times_comm (gf_log b).value (gf_log c).value x)
  ]
]

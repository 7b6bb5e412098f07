-- ===== src/Qr/Galois/Double.antt =====
-- The doubling step of the tables in internal/qr/qr.go, and what the tables hold, by evaluation.
use mathlib.Core.Path.{◌≡⟨◌⟩◌, ◌∎, ap₂}
use razdacha.Prelude.{
  ℕ, zero, suc, ◌*◌, ◌/◌, ◌<◌, ◌≡◌, ◌≢◌, refl, sym, ap, arith, bit_xor, true, ◌||◌, ◌&&◌, ltb, eqb,
  eqb_iff, ltb_iff,
}
use razdacha.Qr.Xor.{bit_xor_comm, bit_xor_assoc, bit_xor_top, bit_xor_twice}
use razdacha.Qr.Byte.{Byte, Byte-ext, to_byte, zero_byte, ◌⊕◌, all_below, all_below_sound}
use razdacha.Qr.Galois.{double, power_of, log_loop}

double_table : all_below 256 (λ x. eqb (double x) (bit_xor (x * 2) (x / 128 * 285))) ≡ true
unfolding all_below double
double_table = refl

double-lt_table : all_below 256 (λ x. ltb (double x) 256) ≡ true
unfolding all_below double
double-lt_table = refl

log_table :
    all_below 256 (λ x.
      eqb x 0
      || eqb (power_of (log_loop 255 0 1 x zero_byte).value) x
        && ltb (log_loop 255 0 1 x zero_byte).value 255)
    ≡ true
unfolding all_below log_loop power_of double to_byte
log_table = refl

pub power_of_255 : power_of 255 ≡ 1
unfolding power_of double
power_of_255 = refl

double_lem : (x : ℕ) → x < 256 → double x ≡ bit_xor (x * 2) (x / 128 * 285)
double_lem x h = (eqb_iff _ _).0 (all_below_sound 256 _ x double_table h)

pub double-lt : (x : ℕ) → x < 256 → double x < 256
double-lt x h = (ltb_iff _ _).0 (all_below_sound 256 _ x double-lt_table h)

bit_times : (t u : ℕ) → t < 2 → u < 2 → bit_xor t u * 285 ≡ bit_xor (t * 285) (u * 285)
bit_times zero zero h k = refl
bit_times zero (suc zero) h k = refl
bit_times (suc zero) zero h k = refl
bit_times (suc zero) (suc zero) h k = refl
bit_times (suc (suc t)) u h k = absurd (omega arith)
bit_times zero (suc (suc u)) h k = absurd (omega arith)
bit_times (suc zero) (suc (suc u)) h k = absurd (omega arith)

-- `double` on bytes.
unfoldable pub double_byte : Byte → Byte
double_byte a = record { value = double a.value; bound = double-lt a.value a.bound }

-- Rearranges two shifted values and their reductions.
xor_swap_middle :
    (a b c d : ℕ) → bit_xor (bit_xor a b) (bit_xor c d) ≡ bit_xor (bit_xor a c) (bit_xor b d)
xor_swap_middle a b c d =
    bit_xor (bit_xor a b) (bit_xor c d)
    ≡⟨ bit_xor_assoc a b (bit_xor c d) ⟩ bit_xor a (bit_xor b (bit_xor c d))
    ≡⟨ ap (bit_xor a) (sym (bit_xor_assoc b c d)) ⟩ bit_xor a (bit_xor (bit_xor b c) d)
    ≡⟨ ap (λ t. bit_xor a (bit_xor t d)) (bit_xor_comm b c) ⟩ bit_xor a (bit_xor (bit_xor c b) d)
    ≡⟨ ap (bit_xor a) (bit_xor_assoc c b d) ⟩ bit_xor a (bit_xor c (bit_xor b d))
    ≡⟨ sym (bit_xor_assoc a c (bit_xor b d)) ⟩ bit_xor (bit_xor a c) (bit_xor b d) ∎

pub double_byte-⊕ : (a b : Byte) → double_byte (a ⊕ b) ≡ double_byte a ⊕ double_byte b
unfolding double_byte ◌⊕◌
double_byte-⊕ a b = Byte-ext _ _ (
    double (bit_xor a.value b.value)
    ≡⟨ double_lem _ (a ⊕ b).bound ⟩
      bit_xor (bit_xor a.value b.value * 2) (bit_xor a.value b.value / 128 * 285)
    ≡⟨ ap (λ t. bit_xor (bit_xor a.value b.value * 2) (t * 285)) (bit_xor_top a.value b.value) ⟩
      bit_xor (bit_xor a.value b.value * 2) (bit_xor (a.value / 128) (b.value / 128) * 285)
    ≡⟨ ap₂ bit_xor (sym (bit_xor_twice a.value b.value))
        (bit_times (a.value / 128) (b.value / 128) (omega arith) (omega arith)) ⟩
      bit_xor (bit_xor (a.value * 2) (b.value * 2))
        (bit_xor (a.value / 128 * 285) (b.value / 128 * 285))
    ≡⟨ xor_swap_middle _ _ _ _ ⟩
      bit_xor (bit_xor (a.value * 2) (a.value / 128 * 285))
        (bit_xor (b.value * 2) (b.value / 128 * 285))
    ≡⟨ ap₂ bit_xor (sym (double_lem a.value a.bound)) (sym (double_lem b.value b.bound)) ⟩
      bit_xor (double a.value) (double b.value) ∎)

pub log_loop_lem :
    (x : ℕ)
    → x < 256
    → x ≢ 0
    → (power_of (log_loop 255 0 1 x zero_byte).value ≡ x)
      × ((log_loop 255 0 1 x zero_byte).value < 255)
log_loop_lem x h k = ground (arith, all_below_sound 256 _ x log_table h)

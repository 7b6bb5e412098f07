-- ===== src/Qr/Byte.antt =====
-- The bytes of internal/qr, and a check of every number below a bound by evaluation.
use mathlib.Core.Path.{◌≡⟨◌⟩◌, ◌∎}
use razdacha.Prelude.{
  ℕ, zero, suc, ◌%◌, ◌<◌, ◌≡◌, sym, ap, arith, bit_xor, Bool, true, ◌&&◌, eqb, eqb_iff, Bool-cases,
  inl, inr,
}
use razdacha.Qr.Xor.{bit_xor-lt, bit_xor_comm, bit_xor_assoc, bit_xor_self, zero-bit_xor}
use std.HLevel.{prop→path_p}
use native.Mathlib.Bridge.{le_prop}

-- A `byte`.
pub record Byte : Type 0 where
  pub value : ℕ
  pub bound : value < 256

pub Byte-ext : (a b : Byte) → a.value ≡ b.value → a ≡ b
Byte-ext a b e = λ i. record {
  value = e i;
  bound = prop→path_p (λ i. e i < 256) (le_prop {n = suc b.value} {m = 256}) a.bound b.bound i;
}

-- `byte(x)`.
unfoldable pub to_byte : ℕ → Byte
to_byte x = record { value = x % 256; bound = omega arith }

-- `a ^ b`.
infixl 65 ◌⊕◌
unfoldable pub ◌⊕◌ : Byte → Byte → Byte
a ⊕ b = record {
  value = bit_xor a.value b.value;
  bound = bit_xor-lt 8 a.value b.value a.bound b.bound;
}

abbrev pub zero_byte : Byte
zero_byte = record { value = 0; bound = omega arith }

pub ⊕_comm : (a b : Byte) → a ⊕ b ≡ b ⊕ a
unfolding ◌⊕◌
⊕_comm a b = Byte-ext _ _ (bit_xor_comm a.value b.value)

pub ⊕_assoc : (a b c : Byte) → a ⊕ b ⊕ c ≡ a ⊕ (b ⊕ c)
unfolding ◌⊕◌
⊕_assoc a b c = Byte-ext _ _ (bit_xor_assoc a.value b.value c.value)

pub ⊕_self : (a : Byte) → a ⊕ a ≡ zero_byte
unfolding ◌⊕◌
⊕_self a = Byte-ext _ _ (bit_xor_self a.value)

pub zero-⊕ : (a : Byte) → zero_byte ⊕ a ≡ a
unfolding ◌⊕◌
zero-⊕ a = Byte-ext _ _ (zero-bit_xor a.value)

pub ⊕-zero : (a : Byte) → a ⊕ zero_byte ≡ a
⊕-zero a = rw (⊕_comm a zero_byte) (zero-⊕ a)

pub ⊕_swap_middle : (a b c d : Byte) → (a ⊕ b) ⊕ (c ⊕ d) ≡ (a ⊕ c) ⊕ (b ⊕ d)
⊕_swap_middle a b c d =
    (a ⊕ b) ⊕ (c ⊕ d)
    ≡⟨ ⊕_assoc a b (c ⊕ d) ⟩ a ⊕ (b ⊕ (c ⊕ d))
    ≡⟨ ap (λ t. a ⊕ t) (sym (⊕_assoc b c d)) ⟩ a ⊕ (b ⊕ c ⊕ d)
    ≡⟨ ap (λ t. a ⊕ (t ⊕ d)) (⊕_comm b c) ⟩ a ⊕ (c ⊕ b ⊕ d)
    ≡⟨ ap (λ t. a ⊕ t) (⊕_assoc c b d) ⟩ a ⊕ (c ⊕ (b ⊕ d))
    ≡⟨ sym (⊕_assoc a c (b ⊕ d)) ⟩ (a ⊕ c) ⊕ (b ⊕ d) ∎

-- Whether the test holds of each number from 0 up to the bound, the bound left out.
unfoldable pub all_below : ℕ → (ℕ → Bool) → Bool
all_below zero test = true
all_below (suc n) test = all_below n test && test n

pub all_below_sound :
    (n : ℕ) (test : ℕ → Bool) (k : ℕ) → all_below n test ≡ true → k < n → test k ≡ true
unfolding all_below
all_below_sound (suc n) test k holds h = elim (Bool-cases (eqb k n)) [
  | inl last ↦ rw ((eqb_iff k n).0 last) (ground arith)
  | inr earlier ↦ all_below_sound n test k (ground arith) (ground arith)
]
all_below_sound zero test k holds h = absurd (omega arith)

-- ===== src/Qr/Xor.antt =====
-- Exclusive or of numbers: a commutative group in which every number is its own inverse.
use Prim.Native.Nat.{digits, differ, bit_xor-bitwise}
use native.Mathlib.Nat.{pow-suc, zero-add, suc-add}
use razdacha.Prelude.{
  ℕ, zero, suc, ◌+◌, ◌-◌, ◌*◌, ◌/◌, ◌%◌, ◌^◌, ◌≤◌, ◌<◌, ◌≡◌, ◌∙◌, refl, arith, bit_xor,
}

differ-bits : (x y : ℕ) → x < 2 → y < 2 → differ x y ≡ (x + y) % 2
differ-bits zero zero h k = refl
differ-bits zero (suc zero) h k = refl
differ-bits (suc zero) zero h k = refl
differ-bits (suc zero) (suc zero) h k = refl
differ-bits (suc (suc x)) y h k = absurd (omega arith)
differ-bits zero (suc (suc y)) h k = absurd (omega arith)
differ-bits (suc zero) (suc (suc y)) h k = absurd (omega arith)

-- The digits that bit_xor goes through, with a count of those still to come.
abbrev xor_digits : ℕ → ℕ → ℕ → ℕ
xor_digits count a b = digits (λ y. y) differ count a b

one_more_digit : (count a b : ℕ) → a ≤ count → xor_digits (suc count) a b ≡ xor_digits count a b
one_more_digit zero zero b h = refl
one_more_digit (suc count) zero b h = refl
one_more_digit zero (suc a) b h = absurd (omega arith)
one_more_digit (suc count) (suc a) b h =
    omega (arith, one_more_digit count (suc a / 2) (b / 2) (omega arith))

-- A larger count changes nothing.
more_digits :
    (extra count a b : ℕ) → a ≤ count → xor_digits (extra + count) a b ≡ xor_digits count a b
more_digits zero count a b h = rw (zero-add count) refl
more_digits (suc extra) count a b h =
    rw (suc-add extra count)
      (one_more_digit (extra + count) a b (omega arith) ∙ more_digits extra count a b h)

pub zero-bit_xor : (b : ℕ) → bit_xor 0 b ≡ b
zero-bit_xor b = bit_xor-bitwise 0 b

half_digits : (a b : ℕ) → xor_digits a (suc a / 2) b ≡ xor_digits (suc a / 2) (suc a / 2) b
half_digits a b =
    let e : a - suc a / 2 + suc a / 2 ≡ a = omega arith in
    rw e at (more_digits (a - suc a / 2) (suc a / 2) (suc a / 2) b (omega arith))

-- The lowest digit, and the rest.
pub bit_xor_step : (a b : ℕ) → bit_xor a b ≡ bit_xor (a / 2) (b / 2) * 2 + (a + b) % 2
bit_xor_step (suc a) b =
    let low : differ (suc a % 2) (b % 2) ≡ (suc a % 2 + b % 2) % 2 =
      differ-bits (suc a % 2) (b % 2) (omega arith) (omega arith) in
    let here : bit_xor (suc a) b ≡ xor_digits (suc a) (suc a) b = bit_xor-bitwise (suc a) b in
    let above : bit_xor (suc a / 2) (b / 2) ≡ xor_digits (suc a / 2) (suc a / 2) (b / 2) =
      bit_xor-bitwise (suc a / 2) (b / 2) in
    omega (arith, low, here, above, half_digits a (b / 2))
bit_xor_step zero b = zero-bit_xor b ∙ omega (arith, zero-bit_xor (b / 2))

comm_below : (n a b : ℕ) → a ≤ n → b ≤ n → bit_xor a b ≡ bit_xor b a
comm_below zero a b p q =
    let e : a ≡ 0 = omega arith in let f : b ≡ 0 = omega arith in rw (e, f) refl
comm_below (suc n) a b p q = omega (
  arith,
  bit_xor_step a b,
  bit_xor_step b a,
  comm_below n (a / 2) (b / 2) (omega arith) (omega arith),
)

pub bit_xor_comm : (a b : ℕ) → bit_xor a b ≡ bit_xor b a
bit_xor_comm a b = comm_below (a + b) a b (omega arith) (omega arith)

pub bit_xor-half : (a b : ℕ) → bit_xor a b / 2 ≡ bit_xor (a / 2) (b / 2)
bit_xor-half a b = omega (arith, bit_xor_step a b)

pub bit_xor_twice : (a b : ℕ) → bit_xor (a * 2) (b * 2) ≡ bit_xor a b * 2
bit_xor_twice a b =
    let e : a * 2 / 2 ≡ a = omega arith in
    let f : b * 2 / 2 ≡ b = omega arith in
    let s : bit_xor (a * 2) (b * 2) ≡ bit_xor a b * 2 + (a * 2 + b * 2) % 2 =
      rw e at (rw f at (bit_xor_step (a * 2) (b * 2))) in
    omega (arith, s)

eighth : (a b : ℕ) → bit_xor a b / 8 ≡ bit_xor (a / 8) (b / 8)
eighth a b =
    let e : a / 2 / 2 / 2 ≡ a / 8 = omega arith in
    let f : b / 2 / 2 / 2 ≡ b / 8 = omega arith in
    rw (← e, ← f)
      (omega (
        arith,
        bit_xor-half a b,
        bit_xor-half (a / 2) (b / 2),
        bit_xor-half (a / 2 / 2) (b / 2 / 2),
      ))

-- The top bit of a byte.
pub bit_xor_top : (a b : ℕ) → bit_xor a b / 128 ≡ bit_xor (a / 128) (b / 128)
bit_xor_top a b =
    let e : a / 8 / 8 / 2 ≡ a / 128 = omega arith in
    let f : b / 8 / 8 / 2 ≡ b / 128 = omega arith in
    rw (← e, ← f)
      (omega (arith, eighth a b, eighth (a / 8) (b / 8), bit_xor-half (a / 8 / 8) (b / 8 / 8)))

left_step :
    (a b c : ℕ)
    → bit_xor (bit_xor a b) c ≡ bit_xor (bit_xor (a / 2) (b / 2)) (c / 2) * 2 + (a + b + c) % 2
left_step a b c =
    let s : bit_xor (bit_xor a b) c
        ≡ bit_xor (bit_xor (a / 2) (b / 2)) (c / 2) * 2 + (bit_xor a b + c) % 2 =
      rw (← bit_xor-half a b) (bit_xor_step (bit_xor a b) c) in
    omega (arith, s, bit_xor_step a b)

assoc_below :
    (n a b c : ℕ) → a ≤ n → b ≤ n → c ≤ n → bit_xor (bit_xor a b) c ≡ bit_xor a (bit_xor b c)
assoc_below zero a b c p q r =
    let e : a ≡ 0 = omega arith in
    let f : b ≡ 0 = omega arith in let g : c ≡ 0 = omega arith in rw (e, f, g) refl
assoc_below (suc n) a b c p q r = omega (
  arith,
  left_step a b c,
  left_step b c a,
  bit_xor_comm a (bit_xor b c),
  bit_xor_comm (a / 2) (bit_xor (b / 2) (c / 2)),
  assoc_below n (a / 2) (b / 2) (c / 2) (omega arith) (omega arith) (omega arith),
)

pub bit_xor_assoc : (a b c : ℕ) → bit_xor (bit_xor a b) c ≡ bit_xor a (bit_xor b c)
bit_xor_assoc a b c = assoc_below (a + b + c) a b c (omega arith) (omega arith) (omega arith)

self_below : (n a : ℕ) → a ≤ n → bit_xor a a ≡ 0
self_below zero a p = let e : a ≡ 0 = omega arith in rw e refl
self_below (suc n) a p = omega (arith, bit_xor_step a a, self_below n (a / 2) (omega arith))

pub bit_xor_self : (a : ℕ) → bit_xor a a ≡ 0
bit_xor_self a = self_below a a (omega arith)

pub bit_xor-lt : (k a b : ℕ) → a < 2 ^ k → b < 2 ^ k → bit_xor a b < 2 ^ k
bit_xor-lt zero a b p q =
    let e : a ≡ 0 = omega arith in let f : b ≡ 0 = omega arith in rw (e, f) (omega arith)
bit_xor-lt (suc k) a b p q = omega (
  arith,
  pow-suc 2 k,
  bit_xor_step a b,
  bit_xor-lt k (a / 2) (b / 2) (omega (arith, pow-suc 2 k)) (omega (arith, pow-suc 2 k)),
)

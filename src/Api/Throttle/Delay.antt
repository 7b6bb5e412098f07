-- ===== src/Api/Throttle/Delay.antt =====
-- The delay of an answer to a failed login, despite the overflow of its computation.
use native.Mathlib.Nat.{pow-suc, one-le-pow, pow-le-pow_right}
use razdacha.Prelude.{
  ◌&&◌, ◌||◌, ltb, eqb, if◌then◌else◌, ℕ, zero, suc, refl, ◌+◌, ◌-◌, ◌*◌, ◌%◌, ◌^◌, ◌≤◌, min, ◌≡◌,
  sym, ◌∙◌, ap, arith, leb, true, false, Bool-cases, inl, inr,
}
use razdacha.Api.Throttle.{login_base_delay, login_max_delay, shifted_delay, delay_after}

power : (j : ℕ) → 2 ^ (j + 25) ≡ 33554432 * 2 ^ j
power zero = refl
power (suc j) =
    let step : 2 ^ (suc j + 25) ≡ 2 ^ suc (j + 25) = ap (λ n. 2 ^ n) (omega arith) in
    omega (arith, step, pow-suc 2 (j + 25), pow-suc 2 j, power j)

-- A shift by 25 or more leaves a multiple of 2^32.
far : (j : ℕ) → shifted_delay (j + 25) ≡ 4294967296 * (1953125 * 2 ^ j % 4294967296)
unfolding shifted_delay
far j = omega (arith, power j)

clamped : (delay : ℕ) → ℕ
clamped delay =
    if (ltb login_max_delay delay && ltb delay (2 ^ 63)) || (eqb delay 0 || leb (2 ^ 63) delay)
    then login_max_delay
    else delay

clamped-far : (n : ℕ) → clamped (4294967296 * n) ≡ login_max_delay
unfolding clamped
clamped-far n = ground arith

below_25 : (k : ℕ) → ltb k 25 ≡ true → k ≤ 24
below_25 k h = ground arith

above_25 : (fails : ℕ) → ltb (fails - 1) 25 ≡ false → fails - 1 ≡ fails - 26 + 25
above_25 fails h = ground arith

long : (j : ℕ) → min (login_base_delay * 2 ^ (j + 25)) login_max_delay ≡ login_max_delay
long j = let low = one-le-pow j 2 (omega arith) in omega (arith, power j)

clamped-near :
    (n : ℕ)
    → 1 ≤ n
    → n ≤ 16777216
    → clamped (login_base_delay * n % 2 ^ 64) ≡ min (login_base_delay * n) login_max_delay
unfolding clamped
clamped-near n low high = ground arith

-- The delay doubles with every failure from 250 ms and is never above 4 s, after any number of
-- failures: where the shift overflows 64 bits the result is never a small positive duration.
pub delay_after-doubles :
    (fails : ℕ) → delay_after fails ≡ min (login_base_delay * 2 ^ (fails - 1)) login_max_delay
unfolding delay_after clamped shifted_delay
delay_after-doubles fails = elim (Bool-cases (ltb (fails - 1) 25)) [
  | inl near ↦
      clamped-near (2 ^ (fails - 1)) (one-le-pow (fails - 1) 2 (omega arith))
        (pow-le-pow_right (omega arith) {i = fails - 1} {j = 24} (below_25 (fails - 1) near))
  | inr over ↦
      let j = fails - 26 in
      let split : fails - 1 ≡ j + 25 = above_25 fails over in
      rw (split, far j) (clamped-far (1953125 * 2 ^ j % 4294967296) ∙ sym (long j))
]

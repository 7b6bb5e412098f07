-- ===== src/Api/Throttle/Sweep.antt =====
-- The clean-up of the entries cannot be noticed.
use razdacha.Prelude.{
  ℕ, ◌≤◌, ◌≡◌, ◌⊎◌, inl, inr, refl, subst, ap, ap₂, arith, true, Bool-cases, Option-cases, List, [],
  ◌∷◌, String, ◌==◌, Option, none, some,
}
use razdacha.Api.Throttle
use razdacha.Api.Throttle.{
  Attempt, Throttle, login_block, fail_window, put, retry_after, failed, delay_after, is_spent,
}

-- A call, with the time at which it reads the clock.
pub data Call : Type 0 where
  ask : String → ℕ → Call
  fail : String → ℕ → Call
  success : String → Call
  sweep : ℕ → Call

-- What the calls return, in their order; `success` and `sweep` return nothing.
unfoldable pub answers : List Call → Throttle → List ℕ
unfolding retry_after
answers [] t = []
answers (ask key now ∷ cs) t = retry_after key now t ∷ answers cs t
answers (Call.fail key now ∷ cs) t =
    let (delay, t') = Throttle.fail key now t in delay ∷ answers cs t'
answers (Call.success key ∷ cs) t = answers cs (Throttle.success key t)
answers (Call.sweep now ∷ cs) t = answers cs (Throttle.sweep now t)

-- The clock does not run backwards.
pub data IsTimed : ℕ → List Call → Type 0 where
  done : {now : ℕ} → IsTimed now []
  ask :
      {now next : ℕ} {key : String} {cs : List Call}
      → now ≤ next
      → IsTimed next cs
      → IsTimed now (Call.ask key next ∷ cs)
  fail :
      {now next : ℕ} {key : String} {cs : List Call}
      → now ≤ next
      → IsTimed next cs
      → IsTimed now (Call.fail key next ∷ cs)
  success :
      {now : ℕ} {key : String} {cs : List Call}
      → IsTimed now cs
      → IsTimed now (Call.success key ∷ cs)
  sweep :
      {now next : ℕ} {cs : List Call}
      → now ≤ next
      → IsTimed next cs
      → IsTimed now (Call.sweep next ∷ cs)

unfoldable pub without_sweeps : List Call → List Call
without_sweeps [] = []
without_sweeps (Call.sweep now ∷ cs) = without_sweeps cs
without_sweeps (c ∷ cs) = c ∷ without_sweeps cs

-- An entry is as before, or gone and spent.
abbrev IsFadedEntry : ℕ → Option Attempt → Option Attempt → Type 0
IsFadedEntry now old new =
    (new ≡ old) ⊎ ((new ≡ none) × (a : Attempt) × (old ≡ some a) × (is_spent now a ≡ true))

abbrev IsFaded : ℕ → Throttle → Throttle → Type 0
IsFaded now t u = (key : String) → IsFadedEntry now (t key) (u key)

is_spent-later :
    (now next : ℕ) (a : Attempt) → now ≤ next → is_spent now a ≡ true → is_spent next a ≡ true
unfolding is_spent
is_spent-later now next a le h = ground arith

later : (now next : ℕ) (t u : Throttle) → now ≤ next → IsFaded now t u → IsFaded next t u
later now next t u le h key = elim (h key) [
  | inl same ↦ inl same
  | inr (gone, a, old, spent) ↦ inr (gone, a, old, is_spent-later now next a le spent)
]

retry_after-faded :
    (now : ℕ) (t u : Throttle) (key : String)
    → IsFaded now t u
    → retry_after key now u ≡ retry_after key now t
unfolding retry_after is_spent
retry_after-faded now t u key h = elim (h key) [
  | inl same ↦ ground (arith, same)
  | inr (gone, a, old, spent) ↦ ground (arith, gone, old, spent)
]

failed-faded :
    (now : ℕ) (t u : Throttle) (key : String)
    → IsFaded now t u
    → failed now (u key) ≡ failed now (t key)
unfolding failed is_spent
failed-faded now t u key h = elim (h key) [
  | inl same ↦ ap (failed now) same
  | inr (gone, a, old, spent) ↦ ground (arith, gone, old, spent)
]

put-faded :
    (now : ℕ) (t u : Throttle) (key : String) {e e' : Option Attempt}
    → e' ≡ e
    → IsFaded now t u
    → IsFaded now (put key e t) (put key e' u)
unfolding put
put-faded now t u key {e} {e'} same h other = elim (Bool-cases (other == key)) [
  | inl here ↦ inl (rw here same)
  | inr there ↦ rw there (h other)
]

sweep-entry :
    (now : ℕ) (t : Throttle) (key : String) → IsFadedEntry now (t key) (Throttle.sweep now t key)
unfolding Throttle.sweep
sweep-entry now t key = elim (Option-cases (t key)) [
  | inl none_ ↦ inl (ground (arith, none_))
  | inr (a, some_) ↦ elim (Bool-cases (is_spent now a)) [
    | inl spent ↦ inr (ground (arith, some_, spent), a, some_, spent)
    | inr kept ↦ inl (ground (arith, some_, kept))
  ]
]

sweep-faded : (now : ℕ) (t u : Throttle) → IsFaded now t u → IsFaded now t (Throttle.sweep now u)
unfolding Throttle.sweep
sweep-faded now t u h key = elim (h key) [
  | inl same ↦
      let entry : IsFadedEntry now (u key) (Throttle.sweep now u key) = sweep-entry now u key in
      subst (λ o. IsFadedEntry now o (Throttle.sweep now u key)) same entry
  | inr (gone, a, old, spent) ↦ inr (ground (arith, gone), a, old, spent)
]

answers-faded :
    (now : ℕ) (cs : List Call) (t u : Throttle)
    → IsTimed now cs
    → IsFaded now t u
    → answers cs u ≡ answers (without_sweeps cs) t
unfolding answers without_sweeps Throttle.fail Throttle.success
answers-faded now [] t u timed h = refl
answers-faded now (Call.ask key next ∷ cs) t u (IsTimed.ask le timed) h =
    ap₂ ◌∷◌ (retry_after-faded next t u key (later now next t u le h))
      (answers-faded next cs t u timed (later now next t u le h))
answers-faded now (Call.fail key next ∷ cs) t u (IsTimed.fail le timed) h =
    let same = failed-faded next t u key (later now next t u le h) in
    ap₂ ◌∷◌ (ap (λ (e : Attempt). delay_after e.fails) same) (
      answers-faded next cs _ _ timed
        (put-faded next t u key (ap some same) (later now next t u le h)))
answers-faded now (Call.success key ∷ cs) t u (IsTimed.success timed) h =
    answers-faded now cs _ _ timed (put-faded now t u key refl h)
answers-faded now (Call.sweep next ∷ cs) t u (IsTimed.sweep le timed) h =
    answers-faded next cs t (Throttle.sweep next u) timed
      (sweep-faded next t u (later now next t u le h))

-- The clean-up cannot be noticed: whatever calls are made, while the clock does not run backwards,
-- every answer is the same as without the clean-ups between them.
pub answers-without_sweeps :
    (now : ℕ) (cs : List Call) (t : Throttle)
    → IsTimed now cs
    → answers cs t ≡ answers (without_sweeps cs) t
answers-without_sweeps now cs t timed = answers-faded now cs t t timed (λ key. inl refl)

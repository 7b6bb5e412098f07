-- ===== src/Api/Throttle/Block.antt =====
-- The block of an address after a series of failures.
use razdacha.Prelude.{
  ℕ, suc, ◌+◌, ◌-◌, ◌≤◌, ◌≡◌, ◌≢◌, refl, ap, ◌∙◌, arith, List, [], ◌∷◌, String, eq_iff, none, some,
  leb, ltb, if◌then◌else◌, length,
}
use razdacha.Api.Throttle.{
  Attempt, Throttle, max_login_fails, login_block, fail_window, put, retry_after, failed, fail,
}

-- Failures at the given times, after one at `last`, none of them more than the window after the
-- one before.
pub data Series : ℕ → List ℕ → Type 0 where
  done : {last : ℕ} → Series last []
  next :
      {last now : ℕ} {times : List ℕ}
      → now ≤ last + fail_window
      → Series now times
      → Series last (now ∷ times)

-- `fail` at each of the times.
unfoldable pub fail_all : String → List ℕ → Throttle → Throttle
unfolding fail
fail_all key [] t = t
fail_all key (now ∷ times) t = fail_all key times (fail key now t).1

-- The last time of a series.
abbrev pub final : ℕ → List ℕ → ℕ
final last [] = last
final last (now ∷ times) = final now times

fail-entry :
    (key : String) (now : ℕ) (t : Throttle) → (fail key now t).1 key ≡ some (failed now (t key))
unfolding fail put
fail-entry key now t = ground (arith, eq_iff key key)

-- Another address is not affected.
pub fail-other :
    (key other : String) (now : ℕ) (t : Throttle) → other ≢ key → (fail key now t).1 other ≡ t other
unfolding fail put
fail-other key other now t ne = ground (arith, eq_iff other key)

-- The block that belongs to a number of failures, the last of them at the given time.
abbrev IsCounted : ℕ → ℕ → Attempt → Type 0
IsCounted fails last e =
    (e.fails ≡ fails)
    × (e.last ≡ last)
    × (e.blocked_until ≡ (if leb max_login_fails fails then last + login_block else 0))

failed-IsCounted :
    (fails last now : ℕ) (e : Attempt)
    → IsCounted fails last e
    → now ≤ last + fail_window
    → IsCounted (suc fails) now (failed now (some e))
unfolding failed
failed-IsCounted fails last now e (n, at, until) near =
    (ground (arith, n, at, near), refl, ground (arith, n, at, until, near))

fail_all-IsCounted :
    (key : String) (fails last : ℕ) (times : List ℕ) (t : Throttle) (e : Attempt)
    → t key ≡ some e
    → IsCounted fails last e
    → Series last times
    → (e' : Attempt) × (fail_all key times t key ≡ some e')
      × IsCounted (fails + length times) (final last times) e'
unfolding fail_all
fail_all-IsCounted key fails last [] t e here counted done = (e, here, ground (arith, counted))
fail_all-IsCounted key fails last (now ∷ times) t e here counted (next near rest) =
    let (e', there, total) =
      fail_all-IsCounted key (suc fails) now times (fail key now t).1 (failed now (some e))
        (fail-entry key now t ∙ ap (λ o. some (failed now o)) here)
        (failed-IsCounted fails last now e counted near) rest in
    (e', there, ground (arith, total))

first-IsCounted : (now : ℕ) → IsCounted 1 now (failed now none)
unfolding failed
first-IsCounted now = ground arith

module _ (key : String) (first : ℕ) (times : List ℕ) (t : Throttle) where
  -- An address without an entry that fails again and again, never more than 15 minutes after the
  -- time before, may try at once after up to four failures; from the fifth on, it has to wait until
  -- 15 minutes after the last.
  pub fail_all-retry_after :
      t key ≡ none
      → Series first times
      → (now : ℕ)
      → retry_after key now (fail_all key (first ∷ times) t)
        ≡ (if ltb (length times) 4 then 0 else final first times + login_block - now)
  unfolding retry_after fail_all
  fail_all-retry_after fresh series now =
      let (e, there, total) =
        fail_all-IsCounted key 1 first times (fail key first t).1 (failed first none)
          (fail-entry key first t ∙ ap (λ o. some (failed first o)) fresh) (first-IsCounted first)
          series in
      let (_, _, until) = total in ground (arith, there, until)

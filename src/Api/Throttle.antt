-- ===== src/Api/Throttle.antt =====
-- internal/api/throttle.go: failed logins by address. A time is a number of nanoseconds since Go's
-- zero time, and a duration a number of nanoseconds. The map of the entries is a function.
pub mod Delay
pub mod Block
pub mod Sweep
use razdacha.Prelude.{
  ℕ, ◌+◌, ◌-◌, ◌*◌, ◌%◌, ◌^◌, Bool, true, false, ◌&&◌, ◌||◌, String, ◌==◌, Option, none, some, ltb,
  leb, eqb, if◌then◌else◌,
}

abbrev pub millisecond : ℕ
millisecond = 1000000

abbrev pub second : ℕ
second = 1000 * millisecond

abbrev pub minute : ℕ
minute = 60 * second

abbrev pub max_login_fails : ℕ
max_login_fails = 5

abbrev pub login_block : ℕ
login_block = 15 * minute

abbrev pub fail_window : ℕ
fail_window = 15 * minute

abbrev pub login_base_delay : ℕ
login_base_delay = 250 * millisecond

abbrev pub login_max_delay : ℕ
login_max_delay = 4 * second

pub record Attempt : Type 0 where
  pub fails : ℕ
  pub last : ℕ
  pub blocked_until : ℕ

-- The zero value of `attempt`.
abbrev pub no_attempt : Attempt
no_attempt = record { fails = 0; last = 0; blocked_until = 0 }

abbrev pub Throttle : Type 0
Throttle = String → Option Attempt

abbrev pub new_throttle : Throttle
new_throttle key = none

-- `t.entries[key] = e`, and `delete`.
unfoldable pub put : String → Option Attempt → Throttle → Throttle
put key e t other = if other == key then e else t other

-- `retryAfter`.
unfoldable pub retry_after : String → ℕ → Throttle → ℕ
retry_after key now t = elim (t key) [ none ↦ 0 | some e ↦ e.blocked_until - now ]

-- `loginBaseDelay << k` of a signed 64-bit duration, as its 64 bits.
unfoldable pub shifted_delay : ℕ → ℕ
shifted_delay k = login_base_delay * 2 ^ k % 2 ^ 64

-- The delay after the given number of failures. A value of 2^63 or above is negative in the source.
unfoldable pub delay_after : ℕ → ℕ
unfolding shifted_delay
delay_after fails =
    let delay = shifted_delay (fails - 1) in
    if (ltb login_max_delay delay && ltb delay (2 ^ 63)) || (eqb delay 0 || leb (2 ^ 63) delay)
    then login_max_delay
    else delay

-- The entry of an address after one more failure.
unfoldable pub failed : ℕ → Option Attempt → Attempt
failed now old =
    let base : Attempt = elim old [
      | none ↦ no_attempt
      | some e ↦ if ltb (e.last + fail_window) now then no_attempt else e
    ] in
    record {
      fails = base.fails + 1;
      last = now;
      blocked_until =
          if leb max_login_fails (base.fails + 1) then now + login_block else base.blocked_until;
    }

-- `fail`.
unfoldable pub fail : String → ℕ → Throttle → ℕ × Throttle
unfolding delay_after failed put
fail key now t = let e = failed now (t key) in (delay_after e.fails, put key (some e) t)

-- `success`.
unfoldable pub success : String → Throttle → Throttle
unfolding put
success key = put key none

-- `sweep`.
unfoldable pub is_spent : ℕ → Attempt → Bool
is_spent now e = ltb e.blocked_until now && ltb (e.last + fail_window) now

unfoldable pub sweep : ℕ → Throttle → Throttle
unfolding is_spent
sweep now t key = elim (t key) [ none ↦ none | some e ↦ if is_spent now e then none else some e ]

-- ===== src/Api/Tests.antt =====
-- The throttle and the schedule of the copies at concrete inputs.
use razdacha.Api.BackupSchedule.{
  BackupConfig, Tick, is_ready, backup_due, too_soon, has_chat, chat_ready, may_send, sends,
  watch_backup,
}
use razdacha.Api.BackupSchedule.Spaced.{Spaced, watch_backup-Spaced}
use razdacha.Prelude.{ℕ, ◌≡◌, ◌*◌, refl, arith, List, [], ◌∷◌, map, true, none, some}
use razdacha.Api.Throttle.{delay_after, login_max_delay, minute, new_throttle, retry_after}
use razdacha.Api.Throttle.Delay.{delay_after-doubles}
use razdacha.Api.Throttle.Block.{Series, fail_all, fail_all-retry_after}
use razdacha.Api.Throttle.Sweep.{Call, IsTimed, answers, without_sweeps, answers-without_sweeps}

abbrev later_failures : List ℕ
later_failures = 2 * minute ∷ 3 * minute ∷ 17 * minute ∷ 18 * minute ∷ []

later_failures-Series : Series minute later_failures
later_failures-Series =
    Series.next (omega arith) (
      Series.next (omega arith) (Series.next (omega arith) (Series.next (omega arith) Series.done)))

fail_all-retry_after_example :
    retry_after "198.51.100.7"
      (20 * minute)
      (fail_all "198.51.100.7" (minute ∷ later_failures) new_throttle)
    ≡ 13 * minute
fail_all-retry_after_example =
    fail_all-retry_after "198.51.100.7" minute later_failures new_throttle refl
      later_failures-Series (20 * minute)

abbrev calls : List Call
calls =
    Call.fail "198.51.100.7" minute
    ∷ Call.sweep (17 * minute)
    ∷ Call.ask "198.51.100.7" (17 * minute)
    ∷ Call.success "198.51.100.7"
    ∷ Call.sweep (18 * minute)
    ∷ []

calls-IsTimed : IsTimed 0 calls
calls-IsTimed = IsTimed.fail (omega arith) (
    IsTimed.sweep (omega arith)
      (IsTimed.ask (omega arith) (IsTimed.success (IsTimed.sweep (omega arith) IsTimed.done))))

answers-without_sweeps_example :
    answers calls new_throttle ≡ answers (without_sweeps calls) new_throttle
answers-without_sweeps_example = answers-without_sweeps 0 calls new_throttle calls-IsTimed

delay_after-doubles_example : delay_after 100 ≡ login_max_delay
delay_after-doubles_example = delay_after-doubles 100

abbrev daily : BackupConfig
daily = record {
  enabled = true;
  interval = 1440 * minute;
  passphrase = "secret";
  last_sent_at = none;
}

abbrev tick : ℕ → Tick
tick now = record {
  config = some daily;
  chat = some (record { token = "t"; chat_id = "1" });
  now = now;
}

-- A copy that does not arrive is sent again after fifteen minutes.
watch_backup_retries :
    map (λ t. t.now) (watch_backup none (tick 0 ∷ tick minute ∷ tick (15 * minute) ∷ []))
    ≡ 0 ∷ 15 * minute ∷ []
unfolding watch_backup sends may_send is_ready chat_ready has_chat backup_due too_soon
watch_backup_retries = refl

watch_backup-Spaced_example : Spaced none (watch_backup none (tick 0 ∷ tick minute ∷ []))
watch_backup-Spaced_example = watch_backup-Spaced none (tick 0 ∷ tick minute ∷ [])

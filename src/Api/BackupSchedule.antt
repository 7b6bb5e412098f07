-- ===== src/Api/BackupSchedule.antt =====
-- internal/api/backup_schedule.go: when a copy of the state is sent. A time is a number of nanoseconds.
pub mod Spaced
use mathlib.Core.Bool.{not}
use razdacha.Prelude.{
  ℕ, suc, ◌+◌, ◌*◌, ◌≤◌, ◌≡◌, refl, arith, Bool, true, false, ◌&&◌, ◌||◌, List, [], ◌∷◌, String,
  ◌==◌, Option, none, some, ltb, leb, if◌then◌else◌, Bool-cases, inl, inr,
}
use razdacha.Api.Throttle.{minute}

abbrev pub backup_retry : ℕ
backup_retry = 15 * minute

-- `store.BackupConfig`, without the last error; `none` is the zero time.
pub record BackupConfig : Type 0 where
  pub enabled : Bool
  pub interval : ℕ
  pub passphrase : String
  pub last_sent_at : Option ℕ

-- The token and the chat of `store.NotifyConfig`.
pub record Chat : Type 0 where
  pub token : String
  pub chat_id : String

-- BackupConfig.Ready.
unfoldable pub is_ready : BackupConfig → Bool
is_ready cfg = cfg.enabled && not (cfg.passphrase == "")

-- backupDue.
unfoldable pub backup_due : BackupConfig → ℕ → Bool
backup_due cfg now = elim cfg.last_sent_at [
  | none ↦ true
  | some at ↦ not (ltb now (at + cfg.interval))
]

-- What a round reads: the settings, `none` for an error of the store, and the time.
pub record Tick : Type 0 where
  pub config : Option BackupConfig
  pub chat : Option Chat
  pub now : ℕ

-- `!lastTry.IsZero() && now.Sub(*lastTry) < backupRetry`.
unfoldable pub too_soon : Option ℕ → ℕ → Bool
too_soon none now = false
too_soon (some last_try) now = ltb now (last_try + backup_retry)

unfoldable pub has_chat : Chat → Bool
has_chat chat = not (chat.token == "" || chat.chat_id == "")

unfoldable pub chat_ready : Option Chat → Bool
chat_ready none = false
chat_ready (some chat) = has_chat chat

-- backupRound up to the call of sendBackup, with the settings: whether it is made.
unfoldable pub may_send : Option ℕ → ℕ → Option Chat → BackupConfig → Bool
may_send last_try now chat cfg =
    if not (is_ready cfg)
    then false
    else if not (chat_ready chat)
    then false
    else if not (backup_due cfg now)
    then false
    else not (too_soon last_try now)

unfoldable pub sends : Option ℕ → Tick → Bool
sends last_try t = elim t.config [ none ↦ false | some cfg ↦ may_send last_try t.now t.chat cfg ]

-- The loop of watchBackup: the rounds that send.
unfoldable pub watch_backup : Option ℕ → List Tick → List Tick
watch_backup last_try [] = []
watch_backup last_try (t ∷ ticks) =
    let quiet = watch_backup last_try ticks in
    let tried = watch_backup (some t.now) ticks in if sends last_try t then t ∷ tried else quiet

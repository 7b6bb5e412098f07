-- ===== src/Api/BackupSchedule/Spaced.antt =====
-- How often internal/api/backup_schedule.go sends.
use mathlib.Core.Bool.{not}
use razdacha.Prelude.{
  ℕ, ◌+◌, ◌≤◌, ◌≡◌, ◌≢◌, refl, String, ◌==◌, eq_iff, ltb, arith, true, false, List, [], ◌∷◌, Option,
  none, some, Bool-cases, Option-cases, inl, inr,
}
use razdacha.Api.BackupSchedule.{
  BackupConfig, Chat, is_ready, chat_ready, has_chat, backup_due, Tick, too_soon, may_send, sends,
  watch_backup,
}

-- So long after a time, if there is one.
IsPast : Option ℕ → ℕ → ℕ → Type 0
IsPast none wait now = Unit
IsPast (some at) wait now = at + wait ≤ now

-- Fifteen minutes, in nanoseconds.
abbrev quarter : ℕ
quarter = 900000000000

-- The settings that a tick has read are switched on with a phrase, and a chat is set; and no copy was sent,
-- or the interval has passed since the last one.
IsDue : Tick → Type 0
IsDue t =
    (cfg : BackupConfig) × (t.config ≡ some cfg)
    × (cfg.enabled ≡ true)
    × (cfg.passphrase ≢ "")
    × ((chat : Chat) × (t.chat ≡ some chat) × (chat.token ≢ "") × (chat.chat_id ≢ ""))
    × IsPast cfg.last_sent_at cfg.interval t.now

-- Each tick is due, and comes fifteen minutes or more after the one before it.
pub Spaced : Option ℕ → List Tick → Type 0
Spaced last [] = Unit
Spaced last (t ∷ ticks) = IsDue t × IsPast last quarter t.now × Spaced (some t.now) ticks

soon_cases : (last : Option ℕ) (now : ℕ) → too_soon last now ≡ false → IsPast last quarter now
unfolding too_soon IsPast
soon_cases none now h = tt
soon_cases (some last) now h = ground arith

due_cases :
    (cfg : BackupConfig) (now : ℕ)
    → backup_due cfg now ≡ true
    → IsPast cfg.last_sent_at cfg.interval now
unfolding backup_due IsPast
due_cases cfg now h = go cfg.last_sent_at h
  where
    go :
        (at : Option ℕ)
        → (elim at [ none ↦ true | some at ↦ not (ltb now (at + cfg.interval)) ]) ≡ true
        → IsPast at cfg.interval now
    go none h = tt
    go (some at) h = ground arith

not_empty : (s : String) → (s == "") ≡ false → s ≢ ""
not_empty s h e = let t = (eq_iff s "").1 e in cc

chat_cases :
    (chat : Option Chat)
    → chat_ready chat ≡ true
    → (c : Chat) × (chat ≡ some c) × (c.token ≢ "") × (c.chat_id ≢ "")
unfolding chat_ready has_chat
chat_cases none h = cc
chat_cases (some c) h =
    (c, refl, not_empty c.token (ground arith), not_empty c.chat_id (ground arith))

ready_cases :
    (cfg : BackupConfig) → is_ready cfg ≡ true → (cfg.enabled ≡ true) × (cfg.passphrase ≢ "")
unfolding is_ready
ready_cases cfg h = (ground arith, not_empty cfg.passphrase (ground arith))

may_send-true :
    (last : Option ℕ) (now : ℕ) (chat : Option Chat) (cfg : BackupConfig)
    → may_send last now chat cfg ≡ true
    → (is_ready cfg ≡ true)
      × (chat_ready chat ≡ true)
      × (backup_due cfg now ≡ true)
      × (too_soon last now ≡ false)
unfolding may_send
may_send-true last now chat cfg h = ground arith

false_not_true : false ≡ true → ⊥
false_not_true e = cc

sends-IsDue :
    (last : Option ℕ) (t : Tick) → sends last t ≡ true → IsDue t × IsPast last quarter t.now
unfolding sends IsDue
sends-IsDue last t h = elim (Option-cases t.config) [
  | inl missing ↦ absurd (false_not_true (rw (missing, sends) at h))
  | inr (cfg, read) ↦
      let (ready, chat, due, late) = may_send-true last t.now t.chat cfg (rw (read, sends) at h) in
      let (on, phrase) = ready_cases cfg ready in
      (
        (cfg, read, on, phrase, chat_cases t.chat chat, due_cases cfg t.now due),
        soon_cases last t.now late,
      )
]

-- Whatever the settings are at each tick, and however the clock goes: the loop of watchBackup sends only
-- where the settings that it has just read are switched on with a phrase and a chat, where by them no copy
-- was sent or the interval has passed since the last one, and at least fifteen minutes after the loop last
-- sent, whether or not that one arrived. A copy that is asked for by hand is not of the loop.
pub watch_backup-Spaced :
    (last : Option ℕ) (ticks : List Tick) → Spaced last (watch_backup last ticks)
unfolding watch_backup Spaced
watch_backup-Spaced last [] = tt
watch_backup-Spaced last (t ∷ ticks) = elim (Bool-cases (sends last t)) [
  | inl now ↦
      let (due, late) = sends-IsDue last t now in
      rw now (due, late, watch_backup-Spaced (some t.now) ticks)
  | inr quiet ↦ rw quiet (watch_backup-Spaced last ticks)
]

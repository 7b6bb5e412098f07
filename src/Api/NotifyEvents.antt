-- ===== src/Api/NotifyEvents.antt =====
-- internal/api/notify_events.go: which change of a tunnel is worth a message. A time is a number of
-- nanoseconds since Go's zero time.
mod Tests
pub mod Confirmed
pub mod Mute
use razdacha.Prelude.{
  ℕ, ◌+◌, ◌*◌, Bool, true, false, ◌&&◌, ◌||◌, not, List, [], ◌∷◌, ◌++◌, String, ◌==◌, Option, none,
  some, ltb, leb, if◌then◌else◌, length,
}
use razdacha.Api.Throttle.{minute}

abbrev pub confirm_checks : ℕ
confirm_checks = 3

abbrev pub unstable_window : ℕ
unstable_window = 60 * minute

abbrev pub unstable_changes : ℕ
unstable_changes = 4

abbrev pub unstable_mute : ℕ
unstable_mute = 60 * minute

abbrev pub event_up : String
event_up = "up"

abbrev pub event_down : String
event_down = "down"

-- `eventFor`: "" is nothing to say.
unfoldable pub event_for : String → String
event_for status =
    if (status == "up") || (status == "slow")
    then event_up
    else if status == "down"
    then event_down
    else ""

-- `tunnelEventState`.
pub record EventState : Type 0 where
  pub candidate : String
  pub streak : ℕ
  pub changes : List ℕ
  pub muted_till : ℕ

abbrev pub new_state : EventState
new_state = record { candidate = ""; streak = 0; changes = []; muted_till = 0 }

-- `tunnelEvents`: the map of the states is a function.
abbrev pub TunnelEvents : Type 0
TunnelEvents = String → Option EventState

abbrev pub new_events : TunnelEvents
new_events id = none

-- The text of a message, by what it says.
pub data Message : Type 0 where
  silent : Message
  up : String → Message
  down : String → Message
  unstable : String → ℕ → Message

pub record Verdict : Type 0 where
  pub confirmed : String
  pub message : Message

-- `pruneBefore` at an hour before `now`.
unfoldable pub prune_before : List ℕ → ℕ → List ℕ
prune_before [] now = []
prune_before (t ∷ ts) now =
    let rest = prune_before ts now in if ltb now (t + unstable_window) then t ∷ rest else rest

-- `eventMessage`.
unfoldable pub event_message : String → String → Message
event_message name state = if state == event_down then Message.down name else Message.up name

-- A confirmed change that is reported.
unfoldable pub report_change : String → String → ℕ → EventState → Verdict × EventState
unfolding prune_before event_message
report_change name got now st =
    let changes = prune_before st.changes now ++ now ∷ [] in
    if not (ltb unstable_changes (length changes))
    then (
      record { confirmed = got; message = event_message name got },
      record st { changes = changes },
    )
    else if ltb now st.muted_till
    then (record { confirmed = got; message = Message.silent }, record st { changes = changes })
    else (
      record { confirmed = got; message = Message.unstable name (length changes) },
      record st { changes = changes; muted_till = now + unstable_mute },
    )

-- The state after one more check that saw `got`.
unfoldable pub counted : String → EventState → EventState
counted got st =
    if got == ""
    then record st { candidate = ""; streak = 0 }
    else if got == st.candidate
    then record st { streak = st.streak + 1 }
    else record st { candidate = got; streak = 1 }

abbrev pub nothing : Verdict
nothing = record { confirmed = ""; message = Message.silent }

unfoldable pub judge : String → String → String → ℕ → EventState → Verdict × EventState
judge name got notified now st =
    let after = counted got st in
    if (got == "") || ltb after.streak confirm_checks
    then (nothing, after)
    else if (got == notified) || ((notified == "") && (got == event_up))
    then (record { confirmed = got; message = Message.silent }, after)
    else report_change name got now after

pub record Check : Type 0 where
  pub id : String
  pub name : String
  pub status : String
  pub notified : String
  pub now : ℕ

abbrev pub state_of : Option EventState → EventState
state_of none = new_state
state_of (some st) = st

-- `observe`.
unfoldable pub observe : Check → TunnelEvents → Verdict × TunnelEvents
unfolding judge event_for
observe c e =
    let (verdict, st) = judge c.name (event_for c.status) c.notified c.now (state_of (e c.id)) in
    (verdict, λ id. if id == c.id then some st else e id)

-- `forget`.
unfoldable pub forget : (String → Bool) → TunnelEvents → TunnelEvents
forget alive e id = if alive id then e id else none

unfoldable pub observe_all : List Check → TunnelEvents → TunnelEvents
unfolding observe
observe_all [] e = e
observe_all (c ∷ cs) e = observe_all cs (observe c e).1

-- ===== src/Api/NotifyEvents/Mute.antt =====
-- What a message says, and how long a tunnel stays quiet.
use razdacha.Prelude.{
  ℕ, ◌+◌, ◌≤◌, ◌≡◌, ◌≢◌, refl, sym, subst, ◌∙◌, arith, Bool, true, false, inl, inr, Bool-cases,
  List, [], ◌∷◌, String, ◌==◌, eq_iff,
}
use razdacha.Api.NotifyEvents.{
  EventState, TunnelEvents, Message, event_for, event_up, event_down, event_message, report_change,
  counted, judge, unstable_mute, Check, state_of, observe, observe_all,
}

-- The message that a tunnel is unstable.
unfoldable pub is_unstable : Message → Bool
is_unstable (Message.unstable name n) = true
is_unstable m = false

-- A message that is sent.
unfoldable pub is_sent : Message → Bool
is_sent Message.silent = false
is_sent m = true

report_change-muted :
    (name got : String) (now : ℕ) (st : EventState)
    → (st.muted_till ≤ (report_change name got now st).1.muted_till)
      × (is_unstable (report_change name got now st).0.message ≡ true
          → (st.muted_till ≤ now)
            × ((report_change name got now st).1.muted_till ≡ now + unstable_mute))
unfolding report_change event_message is_unstable
report_change-muted name got now st = (ground arith, λ h. (ground arith, ground arith))

counted-muted : (got : String) (st : EventState) → (counted got st).muted_till ≡ st.muted_till
unfolding counted
counted-muted got st = ground arith

judge-muted :
    (name got notified : String) (now : ℕ) (st : EventState)
    → (st.muted_till ≤ (judge name got notified now st).1.muted_till)
      × (is_unstable (judge name got notified now st).0.message ≡ true
          → (st.muted_till ≤ now)
            × ((judge name got notified now st).1.muted_till ≡ now + unstable_mute))
unfolding judge is_unstable
judge-muted name got notified now st =
    let (later, said) = report_change-muted name got now (counted got st) in
    let same = counted-muted got st in
    (ground (arith, later, same), λ h. ground (arith, said, same, h))

observe-muted :
    (c : Check) (e : TunnelEvents) (id : String)
    → (state_of (e id)).muted_till ≤ (state_of ((observe c e).1 id)).muted_till
unfolding observe
observe-muted c e id =
    let (later, _) = judge-muted c.name (event_for c.status) c.notified c.now (state_of (e c.id)) in
    elim (Bool-cases (id == c.id)) [
      | inl here ↦ let same = (eq_iff id c.id).0 here in rw (here, same) later
      | inr there ↦ rw there (omega arith)
    ]

observe_all-muted :
    (cs : List Check) (e : TunnelEvents) (id : String)
    → (state_of (e id)).muted_till ≤ (state_of (observe_all cs e id)).muted_till
unfolding observe_all
observe_all-muted [] e id = omega arith
observe_all-muted (c ∷ cs) e id =
    omega (arith, observe-muted c e id, observe_all-muted cs (observe c e).1 id)

-- Two messages that one tunnel is unstable are an hour apart or more, whatever is observed between
-- them.
pub observe-unstable :
    (c d : Check) (cs : List Check) (e : TunnelEvents)
    → c.id ≡ d.id
    → is_unstable (observe c e).0.message ≡ true
    → is_unstable (observe d (observe_all cs (observe c e).1)).0.message ≡ true
    → c.now + unstable_mute ≤ d.now
unfolding observe
observe-unstable c d cs e same first second =
    let (_, said) = judge-muted c.name (event_for c.status) c.notified c.now (state_of (e c.id)) in
    let (_, until) = said first in
    let here : (state_of ((observe c e).1 c.id)).muted_till ≡ c.now + unstable_mute =
      rw ((eq_iff c.id c.id).1 refl) until in
    let (_, said_again) =
      judge-muted d.name (event_for d.status) d.notified d.now
        (state_of (observe_all cs (observe c e).1 d.id)) in
    let (quiet, _) = said_again second in
    let between = observe_all-muted cs (observe c e).1 c.id in
    let meets : (state_of (observe_all cs (observe c e).1 c.id)).muted_till ≤ d.now =
      subst (λ x. (state_of (observe_all cs (observe c e).1 x)).muted_till ≤ d.now) (sym same)
        quiet in
    omega (arith, here, between, meets)

report_change-confirmed :
    (name got : String) (now : ℕ) (st : EventState)
    → (report_change name got now st).0.confirmed ≡ got
unfolding report_change
report_change-confirmed name got now st = ground arith

judge-sent :
    (name got notified : String) (now : ℕ) (st : EventState)
    → is_sent (judge name got notified now st).0.message ≡ true
    → ((judge name got notified now st).0.confirmed ≡ got)
      × (got ≢ "")
      × (got ≢ notified)
      × (notified ≡ "" → got ≢ event_up)
unfolding judge is_sent
judge-sent name got notified now st h = (
  ground (arith, report_change-confirmed name got now (counted got st)),
  ground (arith, eq_iff got ""),
  ground (arith, eq_iff got notified),
  ground (arith, eq_iff got event_up, eq_iff notified ""),
)

bad_news :
    (status : String)
    → event_for status ≢ ""
    → event_for status ≢ event_up
    → event_for status ≡ event_down
unfolding event_for
bad_news status h k = ground arith

-- A message is sent only on a confirmed state other than the one that was reported before; the first
-- one that is reported is bad news.
pub observe-sent :
    (c : Check) (e : TunnelEvents)
    → is_sent (observe c e).0.message ≡ true
    → ((observe c e).0.confirmed ≢ "")
      × ((observe c e).0.confirmed ≢ c.notified)
      × (c.notified ≡ "" → (observe c e).0.confirmed ≡ event_down)
unfolding observe event_for
observe-sent c e h =
    let (confirmed, some_, other, bad) =
      judge-sent c.name (event_for c.status) c.notified c.now (state_of (e c.id)) h in
    (
      rw confirmed some_,
      rw confirmed other,
      λ first. confirmed ∙ bad_news c.status some_ (bad first),
    )

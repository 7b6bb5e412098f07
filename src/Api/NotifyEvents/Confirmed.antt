-- ===== src/Api/NotifyEvents/Confirmed.antt =====
-- A state is confirmed by three checks in a row, and a message needs a confirmed change.
use razdacha.Prelude.{
  ℕ, suc, ◌≡◌, ◌≢◌, refl, sym, ap, ◌∙◌, arith, true, false, ◌||◌, inl, inr, Bool-cases, List, [],
  ◌∷◌, String, ◌==◌, eq_iff, ltb, if◌then◌else◌,
}
use razdacha.Store.Text.{String-discrete}
use razdacha.Api.NotifyEvents.{
  EventState, TunnelEvents, new_events, event_for, report_change, counted, judge, Check, state_of,
  observe, observe_all,
}

-- What the checks of one tunnel saw, the last first: "up", "down", or "" for nothing to say.
unfoldable pub history : String → List String → List Check → List String
unfolding event_for
history id seen [] = seen
history id seen (c ∷ cs) = history id (if c.id == id then event_for c.status ∷ seen else seen) cs

-- What the last check saw, and how many of the last checks saw the given state.
unfoldable pub newest : List String → String
newest [] = ""
newest (g ∷ gs) = g

unfoldable pub run_of : String → List String → ℕ
run_of got [] = 0
run_of got (g ∷ gs) = let rest = run_of got gs in if g == got then suc rest else 0

-- The state that the last three checks agree on.
unfoldable pub agreed : List String → String
unfolding newest run_of
agreed gs = if (newest gs == "") || ltb (run_of (newest gs) gs) 3 then "" else newest gs

abbrev IsCounted : List String → EventState → Type 0
IsCounted gs st =
    (st.candidate ≡ newest gs)
    × (st.streak ≡ (if newest gs == "" then 0 else run_of (newest gs) gs))

run_of-other : (got : String) (gs : List String) → newest gs ≢ got → run_of got gs ≡ 0
unfolding run_of newest
run_of-other got [] k = refl
run_of-other got (g ∷ gs) k = ground (arith, eq_iff g got)

counted-IsCounted :
    (got : String) (gs : List String) (st : EventState)
    → IsCounted gs st
    → IsCounted (got ∷ gs) (counted got st)
unfolding counted newest run_of
counted-IsCounted got gs st (c, n) =
    let again = eq_iff got got in
    elim (String-discrete got "") [
      | yes empty ↦ let t = (eq_iff got "").1 empty in (ground (arith, t, empty), ground (arith, t))
      | no set ↦ elim (String-discrete got (newest gs)) [
        | yes same ↦
            let t = (eq_iff got st.candidate).1 (same ∙ sym c) in
            let u : got == "" ≡ false = ground (arith, set, eq_iff got "") in
            (ground (arith, t, u, same, c), ground (arith, t, u, again, same, n))
        | no other ↦
            let t : got == st.candidate ≡ false =
              ground (arith, other, c, eq_iff got st.candidate) in
            let u : got == "" ≡ false = ground (arith, set, eq_iff got "") in
            let zero_run = run_of-other got gs (λ e. other (sym e)) in
            (ground (arith, t, u), ground (arith, t, u, again, zero_run))
      ]
    ]

judge-streak :
    (name got notified : String) (now : ℕ) (st : EventState)
    → ((judge name got notified now st).1.candidate ≡ (counted got st).candidate)
      × ((judge name got notified now st).1.streak ≡ (counted got st).streak)
unfolding judge report_change
judge-streak name got notified now st = (ground arith, ground arith)

judge-confirmed :
    (name got notified : String) (now : ℕ) (st : EventState)
    → (judge name got notified now st).0.confirmed
      ≡ (if (got == "") || ltb (counted got st).streak 3 then "" else got)
unfolding judge report_change
judge-confirmed name got notified now st = ground arith

observe-here :
    (c : Check) (e : TunnelEvents) (id : String)
    → c.id == id ≡ true
    → state_of ((observe c e).1 id)
      ≡ (judge c.name (event_for c.status) c.notified c.now (state_of (e id))).1
unfolding observe
observe-here c e id h =
    let same = (eq_iff c.id id).0 h in rw (← same, (eq_iff c.id c.id).1 refl) refl

observe-there :
    (c : Check) (e : TunnelEvents) (id : String) → c.id == id ≡ false → (observe c e).1 id ≡ e id
unfolding observe
observe-there c e id h = ground (arith, h, eq_iff c.id id, eq_iff id c.id)

settle :
    (got : String) (gs : List String) (n : ℕ)
    → n ≡ (if newest (got ∷ gs) == "" then 0 else run_of (newest (got ∷ gs)) (got ∷ gs))
    → (if (got == "") || ltb n 3 then "" else got) ≡ agreed (got ∷ gs)
unfolding agreed newest
settle got gs n h = ground (arith, h)

-- The state that the daemon keeps of a tunnel counts the last checks of that tunnel that agree.
observe_all-IsCounted :
    (id : String) (cs : List Check) (gs : List String) (e : TunnelEvents)
    → IsCounted gs (state_of (e id))
    → IsCounted (history id gs cs) (state_of (observe_all cs e id))
unfolding history observe_all
observe_all-IsCounted id [] gs e h = h
observe_all-IsCounted id (c ∷ cs) gs e h = elim (Bool-cases (c.id == id)) [
  | inl here ↦
      let got = event_for c.status in
      let (candidate, streak) = judge-streak c.name got c.notified c.now (state_of (e id)) in
      let (next_candidate, next_streak) = counted-IsCounted got gs (state_of (e id)) h in
      let at = observe-here c e id here in
      rw here (
        observe_all-IsCounted id cs (got ∷ gs) (observe c e).1 (
          ap (λ st. st.candidate) at ∙ candidate ∙ next_candidate,
          ap (λ st. st.streak) at ∙ streak ∙ next_streak,
        ))
  | inr other ↦
      rw other (observe_all-IsCounted id cs gs (observe c e).1 (rw (observe-there c e id other) h))
]

-- After any checks since the start of the daemon, a check confirms a state exactly when it and the
-- two checks of the same tunnel before it saw that state; checks of other tunnels do not matter.
pub observe-confirmed :
    (cs : List Check) (c : Check)
    → (observe c (observe_all cs new_events)).0.confirmed
      ≡ agreed (event_for c.status ∷ history c.id [] cs)
unfolding observe agreed
observe-confirmed cs c =
    let got = event_for c.status in
    let st = state_of (observe_all cs new_events c.id) in
    let before = observe_all-IsCounted c.id cs [] new_events (unfold newest in (refl, refl)) in
    let (_, streak) = counted-IsCounted got (history c.id [] cs) st before in
    judge-confirmed c.name got c.notified c.now st ∙ settle got (history c.id [] cs) _ streak

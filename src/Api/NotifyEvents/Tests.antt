-- ===== src/Api/NotifyEvents/Tests.antt =====
-- The messages about tunnels at concrete inputs.
use razdacha.Prelude.{
  ℕ, ◌+◌, ◌*◌, ◌≡◌, refl, true, List, [], ◌∷◌, ◌++◌, String, ◌==◌, some, none, if◌then◌else◌,
}
use razdacha.Api.Throttle.{minute}
use razdacha.Api.NotifyEvents.{
  TunnelEvents, new_events, Message, Check, event_for, prune_before, event_message, report_change,
  counted, judge, state_of, observe, observe_all,
}
use razdacha.Api.NotifyEvents.Confirmed.{history, agreed, observe-confirmed}
use razdacha.Api.NotifyEvents.Mute.{is_unstable, is_sent}

abbrev check : String → String → ℕ → Check
check status notified at = record {
  id = "t";
  name = "tunnel";
  status = status;
  notified = notified;
  now = at * minute;
}

-- Three checks, two minutes apart.
abbrev thrice : String → String → ℕ → List Check
thrice status notified at =
    check status notified at ∷ check status notified (at + 2) ∷ check status notified (at + 4) ∷ []

-- Five confirmed changes in half an hour, of which the last makes the tunnel unstable.
abbrev flapping : List Check
flapping =
    thrice "down" "" 100
    ++ thrice "up" "down" 106
    ++ thrice "down" "up" 112
    ++ thrice "up" "down" 118
    ++ thrice "down" "up" 124

tunnel_is_muted : (state_of (observe_all flapping new_events "t")).muted_till ≡ 188 * minute
unfolding observe observe_all judge counted report_change prune_before event_message event_for
tunnel_is_muted = refl

-- The tunnel is muted until 188. At 173 only four changes are left in the window, and a message is
-- sent.
muted_tunnel_speaks :
    (observe (check "up" "down" 173) (
      observe_all
        (flapping ++ check "up" "down" 169 ∷ check "up" "down" 171 ∷ [])
        new_events)).0.message
    ≡ Message.up "tunnel"
unfolding observe observe_all judge counted report_change prune_before event_message event_for
muted_tunnel_speaks = refl

observe-confirmed_example :
    (observe
      (check "down" "" 104)
      (observe_all (check "down" "" 100 ∷ check "down" "" 102 ∷ []) new_events)).0.confirmed
    ≡ agreed (event_for "down" ∷ history "t" [] (check "down" "" 100 ∷ check "down" "" 102 ∷ []))
observe-confirmed_example =
    observe-confirmed (check "down" "" 100 ∷ check "down" "" 102 ∷ []) (check "down" "" 104)

-- A tunnel that has been down for two checks, after four changes.
abbrev restless : TunnelEvents
restless id =
    if id == "t"
    then some (record {
      candidate = "down";
      streak = 2;
      changes = 96 * minute ∷ 97 * minute ∷ 98 * minute ∷ 99 * minute ∷ [];
      muted_till = 0;
    })
    else none

abbrev between : List Check
between =
    check "down" "up" 110
    ∷ check "down" "up" 120
    ∷ check "down" "up" 130
    ∷ check "down" "up" 140
    ∷ check "down" "up" 150
    ∷ []

first_unstable : is_unstable (observe (check "down" "up" 100) restless).0.message ≡ true
unfolding is_unstable observe judge counted report_change prune_before event_message event_for
first_unstable = refl

second_unstable :
    is_unstable
      (observe
        (check "down" "up" 160)
        (observe_all between (observe (check "down" "up" 100) restless).1)).0.message
    ≡ true
unfolding is_unstable observe observe_all judge counted report_change prune_before event_message
    event_for
second_unstable = refl

first_sent : is_sent (observe (check "down" "up" 100) restless).0.message ≡ true
unfolding is_sent observe judge counted report_change prune_before event_message event_for
first_sent = refl

abbrev saved : String
saved = "up"

-- ===== src/Clash/ProbeBroker/Tests.antt =====
-- The broker at concrete inputs.
use razdacha.Prelude.{refl, arith, [], ◌∷◌}
use razdacha.Clash.ProbeBroker.{
  Phase, Broker, new_broker, find_job, set_phase, admit, Step, Reachable,
}
use razdacha.Clash.ProbeBroker.Capacity.{IsWithin, Reachable-IsWithin}

abbrev one_queued : Broker
one_queued = record new_broker { jobs = (record { tag = "a"; phase = Phase.queued }) ∷ [] }

abbrev one_running : Broker
one_running = record new_broker {
  jobs = (record { tag = "a"; phase = Phase.running }) ∷ [];
  slots = 1;
}

one_queued-Reachable : Reachable one_queued
unfolding admit find_job
one_queued-Reachable = Reachable.after Reachable.start (Step.call "a")

one_running-Reachable : Reachable one_running
unfolding find_job set_phase
one_running-Reachable = Reachable.after one_queued-Reachable (Step.acquire "a" refl (omega arith))

Reachable-IsWithin_example : IsWithin one_running
Reachable-IsWithin_example = Reachable-IsWithin one_running-Reachable

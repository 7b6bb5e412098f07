-- ===== src/Clash/ProbeBroker/Capacity.antt =====
-- What holds in every state of the broker.
use mathlib.Core.List.{Nodup, Nodup-nil, Nodup-cons, perm_append_singleton}
use mathlib.Core.List.Perm
use razdacha.Prelude.{
  ◌+◌, ◌≤◌, ◌≡◌, ◌≢◌, refl, ap, arith, inl, inr, Bool-cases, Option-cases, false, List, [], ◌∷◌,
  ◌++◌, String, ◌==◌, eq_iff, none, some, length, length-append, leb,
}
use razdacha.Clash.ProbeBroker.{
  max_jobs, max_slots, Phase, Job, Broker, new_broker, find_job, Admission, admit, Step, Reachable,
}
use razdacha.Clash.ProbeBroker.Jobs.{
  holding, tags_of, holding-append, holding-set_phase, holding-delete_job, tags_of-set_phase,
  length-set_phase, length-delete_job, delete_job-Nodup, find_job-absent,
}

-- The capacity of the broker: no tag has two jobs, there are at most 32 jobs, at most two slots are
-- taken, and every taken slot belongs to a probe that runs, a job that still holds its slot, or a
-- goroutine that is about to free it.
pub record IsWithin (b : Broker) : Type 0 where
  pub distinct : Nodup (tags_of b.jobs)
  pub jobs : length b.jobs ≤ max_jobs
  pub slots : b.slots ≤ max_slots
  pub held : b.slots ≡ holding b.jobs + b.leaving

start-IsWithin : IsWithin new_broker
start-IsWithin = record {
  distinct = Nodup-nil;
  jobs = omega arith;
  slots = omega arith;
  held = unfold holding in refl;
}

abbrev queued_at_the_end : String → Broker → Broker
queued_at_the_end tag b = record b {
  jobs = b.jobs ++ (record { tag = tag; phase = Phase.queued }) ∷ [];
}

holding-one : (tag : String) → holding ((record { tag = tag; phase = Phase.queued }) ∷ []) ≡ 0
unfolding holding
holding-one tag = omega arith

tags_of-append : (js ks : List Job) → tags_of (js ++ ks) ≡ tags_of js ++ tags_of ks
tags_of-append [] ks = refl
tags_of-append (j ∷ js) ks = ap (◌∷◌ j.tag) (tags_of-append js ks)

room_left :
    (js : List Job) (j : Job) → leb max_jobs (length js) ≡ false → length (js ++ j ∷ []) ≤ max_jobs
room_left js j h = ground (arith, length-append js (j ∷ []))

append-IsWithin :
    (tag : String) (b : Broker)
    → find_job b.jobs tag ≡ none
    → leb max_jobs (length b.jobs) ≡ false
    → IsWithin b
    → IsWithin (queued_at_the_end tag b)
append-IsWithin tag b new room w = record {
  distinct = rw (tags_of-append b.jobs ((record { tag = tag; phase = Phase.queued }) ∷ [])) (
      Perm.nodup (Perm.symm (perm_append_singleton tag (tags_of b.jobs)))
        (Nodup-cons.1 (find_job-absent b.jobs tag new, w.distinct)));
  jobs = room_left b.jobs (record { tag = tag; phase = Phase.queued }) room;
  slots = w.slots;
  held =
      let l = holding-append b.jobs ((record { tag = tag; phase = Phase.queued }) ∷ []) in
      let h = w.held in let z = holding-one tag in omega (arith, l, h, z);
}

admit-IsWithin : (tag : String) (b : Broker) → IsWithin b → IsWithin (admit tag b).1
unfolding admit
admit-IsWithin tag b w = elim (Option-cases (find_job b.jobs tag)) [
  | inr (phase, there) ↦ let e : (admit tag b).1 ≡ b = ground (arith, there) in rw e w
  | inl new ↦ elim (Bool-cases (leb max_jobs (length b.jobs))) [
    | inl full ↦ let e : (admit tag b).1 ≡ b = ground (arith, new, full) in rw e w
    | inr room ↦
        let e : (admit tag b).1 ≡ queued_at_the_end tag b = ground (arith, new, room) in
        rw e (append-IsWithin tag b new room w)
  ]
]

-- Every step keeps the capacity.
pub Step-IsWithin : {b next : Broker} → IsWithin b → Step b next → IsWithin next
Step-IsWithin {b} w (Step.call tag) = admit-IsWithin tag b w
Step-IsWithin {b} w (Step.acquire tag at room) = record {
  distinct = rw (tags_of-set_phase tag Phase.running b.jobs) w.distinct;
  jobs = rw (length-set_phase tag Phase.running b.jobs) w.jobs;
  slots = omega arith;
  held =
      let l = holding-set_phase tag Phase.running b.jobs {old = Phase.queued} at in
      let h = w.held in omega (arith, l, h);
}
Step-IsWithin {b} w (Step.expire tag at) = record {
  distinct = rw (tags_of-set_phase tag Phase.expired b.jobs) w.distinct;
  jobs = rw (length-set_phase tag Phase.expired b.jobs) w.jobs;
  slots = w.slots;
  held =
      let l = holding-set_phase tag Phase.expired b.jobs {old = Phase.queued} at in
      let h = w.held in omega (arith, l, h);
}
Step-IsWithin {b} w (Step.drop tag at) = record {
  distinct = delete_job-Nodup tag b.jobs w.distinct;
  jobs = let l = length-delete_job tag b.jobs in let h = w.jobs in omega (arith, l, h);
  slots = w.slots;
  held =
      let l = holding-delete_job tag b.jobs {old = Phase.expired} at in
      let h = w.held in omega (arith, l, h);
}
Step-IsWithin {b} w (Step.answer tag at) = record {
  distinct = rw (tags_of-set_phase tag Phase.finished b.jobs) w.distinct;
  jobs = rw (length-set_phase tag Phase.finished b.jobs) w.jobs;
  slots = w.slots;
  held =
      let l = holding-set_phase tag Phase.finished b.jobs {old = Phase.running} at in
      let h = w.held in omega (arith, l, h);
}
Step-IsWithin {b} w (Step.forget tag at) = record {
  distinct = delete_job-Nodup tag b.jobs w.distinct;
  jobs = let l = length-delete_job tag b.jobs in let h = w.jobs in omega (arith, l, h);
  slots = w.slots;
  held =
      let l = holding-delete_job tag b.jobs {old = Phase.finished} at in
      let h = w.held in omega (arith, l, h);
}
Step-IsWithin {b} w (Step.release n some_) = record {
  distinct = w.distinct;
  jobs = w.jobs;
  slots = let h = w.slots in omega (arith, h);
  held = let h = w.held in omega (arith, h, some_);
}

-- In every state that the broker can reach, no tag has two jobs, there are at most 32 jobs, at most
-- two slots are taken, and each slot that is taken is that of a probe that runs or has just run.
pub Reachable-IsWithin : {b : Broker} → Reachable b → IsWithin b
Reachable-IsWithin Reachable.start = start-IsWithin
Reachable-IsWithin (Reachable.after r step) = Step-IsWithin (Reachable-IsWithin r) step

find_job-append :
    (js : List Job) (tag : String)
    → find_job js tag ≡ none
    → find_job (js ++ (record { tag = tag; phase = Phase.queued }) ∷ []) tag ≡ some Phase.queued
unfolding find_job
find_job-append [] tag h = ground (arith, eq_iff tag tag)
find_job-append (j ∷ js) tag h = elim (Bool-cases (j.tag == tag)) [
  | inl here ↦ absurd (ground (arith, here, h))
  | inr there ↦
      let rest = find_job-append js tag (ground (arith, there, h)) in ground (arith, there, rest)
]

-- A caller that is not refused leaves a job to wait for, and a second caller for the same tag shares
-- it and changes nothing.
pub admit_twice :
    (tag : String) (b : Broker)
    → (admit tag b).0 ≢ Admission.full
    → admit tag (admit tag b).1 ≡ (Admission.shared, (admit tag b).1)
unfolding admit
admit_twice tag b h = elim (Option-cases (find_job b.jobs tag)) [
  | inr (phase, there) ↦ ground (arith, there)
  | inl new ↦ elim (Bool-cases (leb max_jobs (length b.jobs))) [
    | inl full ↦ absurd (ground (arith, new, full, h))
    | inr room ↦
        let e : (admit tag b).1 ≡ queued_at_the_end tag b = ground (arith, new, room) in
        let found = find_job-append b.jobs tag new in rw e (ground (arith, found))
  ]
]

-- ===== src/Clash/ProbeBroker.antt =====
-- internal/clash/probe_broker.go: callers that ask for the delay of one tag share a probe, and at
-- most two probes run at once. A step is what one goroutine does without giving way: between a lock
-- and its unlock, or one operation on a channel.
pub mod Jobs
pub mod Capacity
mod Tests
use razdacha.Prelude.{
  ℕ, suc, zero, ◌+◌, ◌-◌, ◌≤◌, ◌<◌, ◌≡◌, Bool, true, false, List, [], ◌∷◌, ◌++◌, map, String, ◌==◌,
  Option, none, some, if◌then◌else◌, length, ltb, leb,
}

abbrev pub max_jobs : ℕ
max_jobs = 32

abbrev pub max_slots : ℕ
max_slots = 2

-- Where the goroutine of a job is: it waits for a slot; its deadline for that has passed; the runtime
-- probes; the answer is there and the slot is still held.
pub data Phase : Type 0 where
  queued expired running finished : Phase

pub record Job : Type 0 where
  pub tag : String
  pub phase : Phase

-- `probeBroker`: the map of the jobs, and how many values are in the channel `slots`. `leaving`
-- counts the goroutines that have deleted their job and not yet freed their slot.
pub record Broker : Type 0 where
  pub jobs : List Job
  pub slots : ℕ
  pub leaving : ℕ

abbrev pub new_broker : Broker
new_broker = record { jobs = []; slots = 0; leaving = 0 }

-- `b.jobs[tag]`.
unfoldable pub find_job : List Job → String → Option Phase
find_job [] tag = none
find_job (j ∷ js) tag = let rest = find_job js tag in if j.tag == tag then some j.phase else rest

unfoldable pub set_phase : String → Phase → List Job → List Job
set_phase tag phase [] = []
set_phase tag phase (j ∷ js) =
    let rest = set_phase tag phase js in
    if j.tag == tag then (record { tag = j.tag; phase = phase }) ∷ js else j ∷ rest

-- `delete(b.jobs, tag)`.
unfoldable pub delete_job : String → List Job → List Job
delete_job tag [] = []
delete_job tag (j ∷ js) = let rest = delete_job tag js in if j.tag == tag then js else j ∷ rest

-- What a caller of `DelayObserved` meets: a job to wait for, its own or another's, or a full queue.
pub data Admission : Type 0 where
  shared started full : Admission

-- `DelayObserved` up to the unlock.
unfoldable pub admit : String → Broker → Admission × Broker
unfolding find_job
admit tag b = elim (find_job b.jobs tag) [
  | some phase ↦ (Admission.shared, b)
  | none ↦ if leb max_jobs (length b.jobs) then (Admission.full, b) else (
    Admission.started,
    record b { jobs = b.jobs ++ (record { tag = tag; phase = Phase.queued }) ∷ [] },
  )
]

-- The steps of the callers and of `runProbe`.
pub data Step (b : Broker) : Broker → Type 0 where
  call : (tag : String) → Step b (admit tag b).1
  -- b.slots <- struct{}{}
  acquire :
      (tag : String)
      → find_job b.jobs tag ≡ some Phase.queued
      → b.slots < max_slots
      → Step b (record b { jobs = set_phase tag Phase.running b.jobs; slots = b.slots + 1 })
  -- The queue timer, and close(job.done) with the error.
  expire :
      (tag : String)
      → find_job b.jobs tag ≡ some Phase.queued
      → Step b (record b { jobs = set_phase tag Phase.expired b.jobs })
  -- delete(b.jobs, tag) of a job that got no slot
  drop :
      (tag : String)
      → find_job b.jobs tag ≡ some Phase.expired
      → Step b (record b { jobs = delete_job tag b.jobs })
  -- c.delay returns, and close(job.done)
  answer :
      (tag : String)
      → find_job b.jobs tag ≡ some Phase.running
      → Step b (record b { jobs = set_phase tag Phase.finished b.jobs })
  -- delete(b.jobs, tag), after the pause that follows an error
  forget :
      (tag : String)
      → find_job b.jobs tag ≡ some Phase.finished
      → Step b (record b { jobs = delete_job tag b.jobs; leaving = b.leaving + 1 })
  -- <-b.slots
  release : (n : ℕ) → b.leaving ≡ suc n → Step b (record b { slots = b.slots - 1; leaving = n })

pub data Reachable : Broker → Type 0 where
  start : Reachable new_broker
  after : {b next : Broker} → Reachable b → Step b next → Reachable next

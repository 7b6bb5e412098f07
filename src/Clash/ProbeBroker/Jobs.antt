-- ===== src/Clash/ProbeBroker/Jobs.antt =====
-- The table of the jobs.
use mathlib.Core.Logic.Or
use mathlib.Core.List.{Mem, Mem-prop, Nodup, Nodup-cons, mem-cons, mem-cons_of_mem, not-mem-nil}
use mathlib.Core.HLevel.{⊥_prop}
use razdacha.Prelude.{
  ℕ, ◌+◌, ◌≤◌, ◌≡◌, refl, arith, inl, inr, Bool-cases, List, [], ◌∷◌, ◌++◌, map, String, ◌==◌,
  eq_iff, none, some, length,
}
use razdacha.Clash.ProbeBroker.{Phase, Job, find_job, set_phase, delete_job}

-- Whether a job in the phase has a value of its own in the channel.
abbrev pub holds : Phase → ℕ
holds Phase.queued = 0
holds Phase.expired = 0
holds Phase.running = 1
holds Phase.finished = 1

unfoldable pub holding : List Job → ℕ
holding [] = 0
holding (j ∷ js) = holds j.phase + holding js

abbrev pub tags_of : List Job → List String
tags_of = map (λ j. j.tag)

pub holding-append : (js ks : List Job) → holding (js ++ ks) ≡ holding js + holding ks
unfolding holding
holding-append [] ks = omega arith
holding-append (j ∷ js) ks = omega (arith, holding-append js ks)

pub holding-set_phase :
    (tag : String) (new : Phase) (js : List Job) {old : Phase}
    → find_job js tag ≡ some old
    → holding (set_phase tag new js) + holds old ≡ holding js + holds new
unfolding find_job set_phase holding
holding-set_phase tag new [] {old} h = cc
holding-set_phase tag new (j ∷ js) {old} h = elim (Bool-cases (j.tag == tag)) [
  | inl here ↦ let same : j.phase ≡ old = ground (arith, here, h) in rw (here, same) (omega arith)
  | inr there ↦
      let rest = holding-set_phase tag new js {old = old} (ground (arith, there, h)) in
      rw there (omega (arith, rest))
]

pub holding-delete_job :
    (tag : String) (js : List Job) {old : Phase}
    → find_job js tag ≡ some old
    → holding (delete_job tag js) + holds old ≡ holding js
unfolding find_job delete_job holding
holding-delete_job tag [] {old} h = cc
holding-delete_job tag (j ∷ js) {old} h = elim (Bool-cases (j.tag == tag)) [
  | inl here ↦ let same : j.phase ≡ old = ground (arith, here, h) in rw (here, same) (omega arith)
  | inr there ↦
      let rest = holding-delete_job tag js {old = old} (ground (arith, there, h)) in
      rw there (omega (arith, rest))
]

pub tags_of-set_phase :
    (tag : String) (new : Phase) (js : List Job) → tags_of (set_phase tag new js) ≡ tags_of js
unfolding set_phase
tags_of-set_phase tag new [] = refl
tags_of-set_phase tag new (j ∷ js) = ground (arith, tags_of-set_phase tag new js)

pub length-set_phase :
    (tag : String) (new : Phase) (js : List Job) → length (set_phase tag new js) ≡ length js
unfolding set_phase
length-set_phase tag new [] = refl
length-set_phase tag new (j ∷ js) = ground (arith, length-set_phase tag new js)

pub length-delete_job : (tag : String) (js : List Job) → length (delete_job tag js) ≤ length js
unfolding delete_job
length-delete_job tag [] = omega arith
length-delete_job tag (j ∷ js) = ground (arith, length-delete_job tag js)

pub mem-delete_job :
    (tag x : String) (js : List Job) → Mem x (tags_of (delete_job tag js)) → Mem x (tags_of js)
unfolding delete_job
mem-delete_job tag x [] m = m
mem-delete_job tag x (j ∷ js) m = elim (Bool-cases (j.tag == tag)) [
  | inl here ↦ mem-cons_of_mem j.tag (rw here at m)
  | inr there ↦
      Or.elim Mem-prop (mem-cons.0 (rw there at m)) (λ e. mem-cons.1 (Or.inl e))
        (λ t. mem-cons_of_mem j.tag (mem-delete_job tag x js t))
]

pub delete_job-Nodup :
    (tag : String) (js : List Job) → Nodup (tags_of js) → Nodup (tags_of (delete_job tag js))
unfolding delete_job
delete_job-Nodup tag [] n = n
delete_job-Nodup tag (j ∷ js) n =
    let (fresh, rest) = Nodup-cons.0 n in
    elim (Bool-cases (j.tag == tag)) [
      | inl here ↦ rw here rest
      | inr there ↦
          rw there (
            Nodup-cons.1 (λ m. fresh (mem-delete_job tag j.tag js m), delete_job-Nodup tag js rest))
    ]

pub find_job-absent :
    (js : List Job) (tag : String) → find_job js tag ≡ none → ¬ Mem tag (tags_of js)
unfolding find_job
find_job-absent [] tag h m = not-mem-nil m
find_job-absent (j ∷ js) tag h m = elim (Bool-cases (j.tag == tag)) [
  | inl here ↦ absurd (ground (arith, here, h))
  | inr there ↦
      Or.elim ⊥_prop (mem-cons.0 m) (λ e. absurd (ground (arith, there, e, eq_iff j.tag tag)))
        (find_job-absent js tag (ground (arith, there, h)))
]

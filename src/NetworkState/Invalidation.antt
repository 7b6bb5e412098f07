-- ===== src/NetworkState/Invalidation.antt =====
-- internal/networkstate/state.go, invalidate: from a directory with a committed record, in which
-- nothing has still to reach the disk, an interruption never leaves the seed in authority.
use razdacha.Prelude.{◌≡◌, ◌⊎◌, inl, inr, refl, sym, ap, ◌∙◌, subst, Bool, true, false, Bool-cases}
use razdacha.Ingress.Startup.{Outcome, done, broken, refused}
use razdacha.Daemon.World.Post.{Each, Each-append}
use razdacha.NetworkState.{
  Directory, Name, bootstrap_file, committed_file, Endings, Swept, is_present, renamed, synced,
  sync_directory, and_then, rename_file, invalidate_file, invalidate,
}

-- Whatever has reached the disk, the seed is there only beside the committed record: recovery does not
-- fall back to it.
abbrev pub IsOrdered : Directory → Type 0
IsOrdered d =
    ((d.seed ≡ false) × (d.durable_seed ≡ false))
    ⊎ ((d.committed ≡ true) × (d.durable_committed ≡ true))

-- `I` holds of all directories that are passed through, and `Q` of the last one if there was no error.
record Sweeps (I Q : Directory → Type 0) (s : Swept) : Type 0 where
  passed : Each I s.visited
  ends : s.succeeded ≡ true → Q s.last

and_then-Sweeps :
    (I Q R : Directory → Type 0) (s : Swept) (f : Directory → Swept)
    → Sweeps I Q s
    → ((d : Directory) → Q d → Sweeps I R (f d))
    → Sweeps I R (and_then s f)
unfolding and_then
and_then-Sweeps I Q R s f h k = elim (Bool-cases s.succeeded) [
  | inl went ↦
      let t = k s.last (h.ends went) in
      rw (and_then, went)
        (record {
          passed = Each-append I s.visited (f s.last).visited h.passed t.passed;
          ends = t.ends;
        })
  | inr stopped ↦ rw (and_then, stopped) (record { passed = h.passed; ends = λ e. cc })
]

sync_directory-Sweeps :
    (I Q : Directory → Type 0) (b : Bool) (d : Directory)
    → I (synced d)
    → Q (synced d)
    → Sweeps I Q (sync_directory b d)
unfolding sync_directory
sync_directory-Sweeps I Q true d i q = record { passed = (i, tt); ends = λ _. q }
sync_directory-Sweeps I Q false d i q = record { passed = tt; ends = λ e. cc }

rename_file-Sweeps :
    (I Q : Directory → Type 0) (o : Outcome) (name : Name) (d : Directory)
    → I (renamed name d)
    → Q (renamed name d)
    → Sweeps I Q (rename_file o name d)
unfolding rename_file
rename_file-Sweeps I Q done name d i q = record { passed = (i, tt); ends = λ _. q }
rename_file-Sweeps I Q broken name d i q = record { passed = (i, tt); ends = λ e. cc }
rename_file-Sweeps I Q refused name d i q = record { passed = tt; ends = λ e. cc }

invalidate_file-Sweeps :
    (I Q : Directory → Type 0) (e : Endings) (name : Name) (d : Directory)
    → (is_present name d ≡ false → Q d)
    → I (renamed name d)
    → I (synced (renamed name d))
    → Q (synced (renamed name d))
    → Sweeps I Q (invalidate_file e name d)
unfolding invalidate_file
invalidate_file-Sweeps I Q e name d q i j k = elim (Bool-cases (e.lstat name)) [
  | inr failed ↦ rw failed (record { passed = tt; ends = λ e. cc })
  | inl seen ↦ elim (Bool-cases (is_present name d)) [
    | inr gone ↦ rw (seen, gone) (record { passed = tt; ends = λ _. q gone })
    | inl here ↦
        rw (seen, here)
          (and_then-Sweeps I (λ c. c ≡ renamed name d) Q (rename_file (e.rename name) name d)
            (sync_directory (e.sync name))
            (rename_file-Sweeps I (λ c. c ≡ renamed name d) (e.rename name) name d i refl)
            λ c p.
              subst (λ c. Sweeps I Q (sync_directory (e.sync name) c)) (sym p)
                (sync_directory-Sweeps I Q (e.sync name) (renamed name d) j k))
  ]
]

module _ (e : Endings) (d : Directory) (committed : d.committed ≡ true)
    (settled : d ≡ synced d) where
  -- The seed is gone for good.
  abbrev IsUnseeded : Directory → Type 0
  IsUnseeded c = (c.seed ≡ false) × (c.durable_seed ≡ false)

  invalidate-Sweeps :
      Sweeps IsOrdered
        (λ c. IsUnseeded c × (c.committed ≡ false) × (c.durable_committed ≡ false))
        (invalidate e d)
  unfolding invalidate synced renamed is_present
  invalidate-Sweeps =
      and_then-Sweeps IsOrdered IsUnseeded _ _ _
        (invalidate_file-Sweeps IsOrdered IsUnseeded e bootstrap_file d
          (λ g. (g, ap (λ (c : Directory). c.durable_seed) settled ∙ g))
          (inr (committed, ap (λ (c : Directory). c.durable_committed) settled ∙ committed))
          (inr (committed, committed)) (refl, refl))
        λ c k.
          and_then-Sweeps IsOrdered (λ b. IsUnseeded b × (b.committed ≡ false)) _ _ _
            (invalidate_file-Sweeps IsOrdered (λ b. IsUnseeded b × (b.committed ≡ false)) e
              committed_file c (λ g. (k, g)) (inl k) (inl (k.0, k.0)) ((k.0, k.0), refl))
            λ b l.
              sync_directory-Sweeps IsOrdered _ e.last_sync b (inl (l.0.0, l.0.0))
                ((l.0.0, l.0.0), l.1, l.1)

  -- From a directory with a committed record, and nothing in it that has still to reach the disk: in every
  -- directory that is passed through, whatever has reached the disk, the seed is there only beside the
  -- committed record; and there is an error, or neither is there, as it is seen or on the disk.
  pub invalidate-IsOrdered :
      Each IsOrdered (invalidate e d).visited
      × (((invalidate e d).succeeded ≡ false)
          ⊎ (((invalidate e d).last.seed ≡ false)
              × ((invalidate e d).last.durable_seed ≡ false)
              × ((invalidate e d).last.committed ≡ false)
              × ((invalidate e d).last.durable_committed ≡ false)))
  invalidate-IsOrdered = (
    invalidate-Sweeps.passed,
    elim (Bool-cases (invalidate e d).succeeded) [
      | inl went ↦ let q = invalidate-Sweeps.ends went in inr (q.0.0, q.0.1, q.1, q.2)
      | inr stopped ↦ inl stopped
    ],
  )

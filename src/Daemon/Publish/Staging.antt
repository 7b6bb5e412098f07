-- ===== src/Daemon/Publish/Staging.antt =====
-- cmd/razdachad/reality.go and network_generation.go: stagePublic, and an error of it, keep the world coherent.
use razdacha.Prelude.{◌≡◌, ◌≢◌, ◌⊎◌, inl, inr, refl, sym, subst, true, String}
use razdacha.Daemon.World.{
  Program, World, Error, port_busy, rejected, guarded, fail, ◌>>=◌, ◌>>◌, recover, change,
}
use razdacha.Daemon.World.Post.{Post, proceed-Post, recover-Post, Post-weaken}
use razdacha.Daemon.Publish.{Answers, Call, set_guard, stage_public, stage_failed}
use razdacha.Daemon.Publish.Serving.{IsCoherent, IsUnsure, IsFramed, Unstaged, IsStaged}
use razdacha.Daemon.Publish.Safety.{
  set_guard-Post, IsCoherent-written, IsCoherent-closed, IsCoherent-uncertain,
}
use razdacha.Daemon.Publish.Staged.{IsMarked, Barred, Stages, Unbarred, stage_public-Stages}

module _ {P : Program} (a : Answers P) (w : World P) (h : IsCoherent w) where
  IsMarked-IsFramed : (v : World P) → IsMarked w v → IsFramed w v
  IsMarked-IsFramed v k =
      let c = IsCoherent-written a k.source k.manifest w k.mark k.normal h in
      subst (IsFramed w) (sym k.framed) (c, refl, refl)

  pub Barred-IsCoherent : (v : World P) → Barred w v → IsCoherent v
  Barred-IsCoherent v (inl e) = subst IsCoherent (sym e) h
  Barred-IsCoherent v (inr k) = (IsMarked-IsFramed v k).0

  Unbarred-Unstaged : (e : Error) (v : World P) → Unbarred w e v → Unstaged w e v
  Unbarred-Unstaged e v (inl t) = inl t
  Unbarred-Unstaged e v (inr (p, k)) = inr (p, Barred-IsCoherent v k)

  -- stagePublic changes the manifest and what is dropped, and neither lets clients in.
  pub stage_public-Post :
      (config : String) → Post IsCoherent (IsStaged w) (Unstaged w) (stage_public a config w)
  stage_public-Post config =
      Post-weaken (IsMarked w) IsCoherent (λ _ v. Stages w config v) (IsStaged w) (Unbarred w)
        (Unstaged w) _ (λ v k. (IsMarked-IsFramed v k).0) (λ _ v k. IsMarked-IsFramed v k.marked)
        Unbarred-Unstaged (stage_public-Stages a w config)

  -- Any error but a busy port closes clients out and leaves the gate unsure.
  abbrev pub Failed : Error → World P → Type 0
  Failed e v = ((e ≢ guarded) × (v ≡ w)) ⊎ ((e ≡ guarded) × IsUnsure v)

  close_staging :
      (v : World P)
      → IsCoherent v
      → Post IsCoherent (IsStaged w) Failed (
          (do
            change (λ w. record w { uncertain = true })
            closed ← set_guard a Call.stage_guard true
            fail guarded)
            v)
  unfolding change
  close_staging v k =
      proceed-Post IsCoherent (λ _ u. IsUnsure u) (IsStaged w) Failed _ _
        (record {
          passed = (IsCoherent-uncertain a v k, tt);
          ends = (IsCoherent-uncertain a v k, refl);
        })
        λ _ v k.
          proceed-Post IsCoherent (λ _ u. IsUnsure u) (IsStaged w) Failed _ _
            (set_guard-Post a IsCoherent IsUnsure Failed Call.stage_guard true v
              (IsCoherent-closed a v k.0) (IsCoherent-closed a v k.0, k.1) k)
            λ closed v k. record { passed = tt; ends = inr (refl, k) }

  stage_failed-Post :
      (e : Error) (v : World P)
      → Unstaged w e v
      → Post IsCoherent (IsStaged w) Failed (stage_failed a e v)
  unfolding stage_failed
  stage_failed-Post port_busy v (inl (p, k)) = record { passed = tt; ends = inl ((λ q. cc), k) }
  stage_failed-Post port_busy v (inr (p, k)) = cc
  stage_failed-Post rejected v (inl (p, k)) = cc
  stage_failed-Post rejected v (inr (p, k)) = cc
  stage_failed-Post guarded v (inl (p, k)) = cc
  stage_failed-Post guarded v (inr (p, k)) = close_staging v k

  pub stage-Post :
      (config : String)
      → Post IsCoherent (IsStaged w) Failed (recover (stage_public a config w) (stage_failed a))
  stage-Post config =
      recover-Post IsCoherent (IsStaged w) Failed (Unstaged w) _ _ (stage_public-Post config)
        stage_failed-Post

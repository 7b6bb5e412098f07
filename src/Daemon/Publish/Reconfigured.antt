-- ===== src/Daemon/Publish/Reconfigured.antt =====
-- cmd/razdachad/network_generation.go: from the closing of the guard of wg0 to the new record.
use razdacha.Prelude.{
  ◌≡◌, inl, refl, sym, subst, ◌∙◌, Bool, true, false, none, some, ◌||◌, ◌&&◌, all,
}
use razdacha.Ingress.Startup.{Outcome}
use razdacha.Daemon.World.{
  Program, Generation, World, guarded, M, ◌>>=◌, ◌>>◌, proceed, change, attempt, require,
}
use razdacha.Daemon.World.Post.{Post, proceed-Post, change-Post, attempt-Post, require-Post}
use razdacha.Daemon.Publish.{
  Answers, Call, Check, Moment, Plan, intact, set_guard, rename, restart, commit, reconfigure,
}
use razdacha.Daemon.Publish.Serving.{Served, IsCoherent, IsUnsure, IsShut, Unsure}

module _ {P : Program} where
  pub IsShut-IsUnsure : (w : World P) → IsShut w → IsUnsure w
  IsShut-IsUnsure w (closed, uncertain) = ((inl closed, λ u. cc), uncertain)

  -- A call that may fail, where an error ends the publication; `A` holds where it succeeds.
  pub call-Post :
      {B : Type 0} (A : World P → Type 0) (Q : B → World P → Type 0) (o : Outcome)
      (f g : World P → World P) (w : World P) (k : M P B)
      → IsUnsure w
      → IsUnsure (f w)
      → IsUnsure (g w)
      → A (f w)
      → ((v : World P) → A v → Post IsCoherent Q Unsure (k v))
      → Post IsCoherent Q Unsure (proceed (attempt o f g w) (λ b. require guarded b >> k))
  call-Post A Q o f g w k u uf ug h rest =
      proceed-Post IsCoherent (λ b v. (b ≡ true → A v) × IsUnsure v) Q Unsure _ _
        (attempt-Post IsCoherent (λ b v. (b ≡ true → A v) × IsUnsure v) Unsure o f g w uf.0 ug.0
          (λ _. h, uf) (λ e. cc, ug) (λ e. cc, u))
        λ b v t.
          proceed-Post IsCoherent (λ _ v. A v) Q Unsure _ _
            (require-Post IsCoherent (λ _ v. A v) Unsure guarded b v t.0 (λ _. (refl, t.1)))
            λ _ v s. rest v s

  -- The same with clients out: `f` and `g` do not let them in.
  pub step-Post :
      {B : Type 0} (A : World P → Type 0) (Q : B → World P → Type 0) (o : Outcome)
      (f g : World P → World P) (w : World P) (k : M P B)
      → IsShut w
      → IsShut (f w)
      → IsShut (g w)
      → A (f w)
      → ((v : World P) → A v → Post IsCoherent Q Unsure (k v))
      → Post IsCoherent Q Unsure (proceed (attempt o f g w) (λ b. require guarded b >> k))
  step-Post A Q o f g w k u uf ug h rest =
      call-Post A Q o f g w k (IsShut-IsUnsure w u) (IsShut-IsUnsure (f w) uf)
        (IsShut-IsUnsure (g w) ug) h rest

  -- The same where nothing follows.
  pub last-Post :
      (A : World P → Type 0) (o : Outcome) (f g : World P → World P) (w : World P)
      → IsShut w
      → IsShut (f w)
      → IsShut (g w)
      → A (f w)
      → Post IsCoherent (λ _ v. A v) Unsure (proceed (attempt o f g w) (λ b. require guarded b))
  last-Post A o f g w u uf ug h =
      proceed-Post IsCoherent (λ b v. (b ≡ true → A v) × IsUnsure v) (λ _ v. A v) Unsure _ _
        (attempt-Post IsCoherent (λ b v. (b ≡ true → A v) × IsUnsure v) Unsure o f g w
          (IsShut-IsUnsure (f w) uf).0 (IsShut-IsUnsure (g w) ug).0
          (λ _. h, IsShut-IsUnsure (f w) uf) (λ e. cc, IsShut-IsUnsure (g w) ug)
          (λ e. cc, IsShut-IsUnsure w u))
        λ b v t. require-Post IsCoherent (λ _ v. A v) Unsure guarded b v t.0 (λ _. (refl, t.1))

  -- A check that may fail.
  pub check-Post :
      {B : Type 0} (A : World P → Type 0) (Q : B → World P → Type 0) (b : Bool) (w : World P)
      (k : M P B)
      → IsShut w
      → (b ≡ true → A w)
      → ((v : World P) → A v → Post IsCoherent Q Unsure (k v))
      → Post IsCoherent Q Unsure (proceed (require guarded b w) (λ _. k))
  check-Post A Q b w k u h rest =
      proceed-Post IsCoherent (λ _ v. A v) Q Unsure _ _
        (require-Post IsCoherent (λ _ v. A v) Unsure guarded b w h
          (λ _. (refl, IsShut-IsUnsure w u)))
        λ _ v s. rest v s

module _ {P : Program} (a : Answers P) (policy : P.Policy) (plan : Plan P) where
  abbrev target : Generation P
  target = record { policy = policy; lists = plan.selected }

  -- The guard of wg0 is closed, WireGuard has the settings of the candidate and the rows, and routing is there.
  abbrev IsTunnelled : World P → Type 0
  IsTunnelled w = IsShut w × (w.wireguard ≡ some (P.settings policy, a.rows)) × (w.routed ≡ true)

  -- The candidate is on the disk and runs.
  abbrev IsRunning : World P → Type 0
  IsRunning w = IsTunnelled w × (w.config ≡ some plan.config) × (w.runtime ≡ some plan.config)

  restart-Post :
      (force : Bool) (w : World P)
      → IsTunnelled w
      → w.config ≡ some plan.config
      → (force ≡ false → w.runtime ≡ some plan.config)
      → Post IsCoherent (λ _ v. IsRunning v) Unsure (restart a force w)
  unfolding restart
  restart-Post false w h c r = record { passed = tt; ends = (h, c, r refl) }
  restart-Post true w h c r =
      check-Post (λ v. IsTunnelled v × (v.config ≡ some plan.config)) (λ _ v. IsRunning v)
        (a.passes Check.sync_config) w _ h.0 (λ _. (h, c))
        λ v k.
          last-Post IsRunning (a.ends Call.reload) (λ w. record w { runtime = w.config })
            (λ w. record w { runtime = none }) v k.0.0 k.0.0 k.0.0 (k.0, k.1, k.1)

  -- The candidate is on the disk after the renaming, or was there before.
  commit-Post :
      (changed force : Bool) (w : World P)
      → IsTunnelled w
      → (changed ≡ false → w.config ≡ some plan.config)
      → ((changed || force) ≡ false → w.runtime ≡ some plan.config)
      → Post IsCoherent (λ _ v. IsRunning v) Unsure (commit a changed plan.config force w)
  unfolding commit rename
  commit-Post false force w h c r =
      proceed-Post IsCoherent (λ _ v. v ≡ w) (λ _ v. IsRunning v) Unsure _ _
        (record { passed = tt; ends = refl })
        λ _ v e.
          subst (λ v. Post IsCoherent (λ _ v. IsRunning v) Unsure (restart a force v)) (sym e)
            (restart-Post force w h (c refl) r)
  commit-Post true force w h c r =
      proceed-Post IsCoherent (λ _ v. IsTunnelled v × (v.config ≡ some plan.config))
        (λ _ v. IsRunning v) Unsure _ _
        (last-Post (λ v. IsTunnelled v × (v.config ≡ some plan.config)) (a.ends Call.rename_config)
          (λ w. record w { config = some plan.config })
          (λ w. record w { config = some plan.config }) w h.0 h.0 h.0 (h, refl))
        λ _ v k. restart-Post true v k.0 k.1 (λ e. cc)

  -- The guard of wg0 is closed, and what Served names is of the candidate.
  abbrev pub IsPublished : World P → Type 0
  IsPublished w =
      IsShut w
      × Served w target
      × (w.base ≡ policy)
      × (w.contents ≡ plan.selected)
      × (w.initialized ≡ true)
      × (w.wireguard ≡ some (P.settings policy, a.rows))

  finish-Post :
      (w : World P)
      → IsRunning w
      → (live : P.Live) → P.prepare live policy plan.selected ≡ some plan.config
      → Post IsCoherent
          (λ _ v. IsPublished v)
          Unsure
          ((do
            published ←
                attempt
                  (a.ends Call.publish_nft)
                  (λ w. record w { nft = some (record { policy = policy; lists = plan.selected }) })
                  (λ w. record w { nft = none })
            require guarded published
            require guarded
                (a.passes Check.context_after && all (λ c. intact a Moment.final c.1) plan.selected)
            written ←
                attempt
                  (a.ends Call.write_record)
                  (λ w. record w {
                    committed = some (record { policy = policy; lists = plan.selected });
                  })
                  (λ w. record w {
                    committed = some (record { policy = policy; lists = plan.selected });
                  })
            require guarded written
            removed ←
                attempt
                  (a.ends Call.remove_seed)
                  (λ w. record w { seed = false })
                  (λ w. record w { seed = false })
            require guarded removed
            change (λ w. record w { base = policy; contents = plan.selected; initialized = true })
            require guarded (a.passes Check.context_last))
            w)
  finish-Post w h live built =
      step-Post (λ v. IsRunning v × (v.nft ≡ some target)) (λ _ v. IsPublished v) _ _ _ w _ h.0.0
        h.0.0 h.0.0 (h, refl)
        λ v k.
          check-Post (λ v. IsRunning v × (v.nft ≡ some target)) (λ _ v. IsPublished v) _ v _ k.0.0.0
            (λ _. k)
            λ v k.
              step-Post (λ v. IsRunning v × (v.nft ≡ some target) × (v.committed ≡ some target))
                (λ _ v. IsPublished v) _ _ _ v _ k.0.0.0 k.0.0.0 k.0.0.0 (k.0, k.1, refl)
                λ v k.
                  step-Post
                    (λ v.
                      IsRunning v
                      × (v.nft ≡ some target)
                      × (v.committed ≡ some target)
                      × (v.seed ≡ false))
                    (λ _ v. IsPublished v) _ _ _ v _ k.0.0.0 k.0.0.0 k.0.0.0 (k.0, k.1, k.2, refl)
                    λ v k.
                      proceed-Post IsCoherent (λ _ v. IsPublished v) (λ _ v. IsPublished v) Unsure _
                        _
                        (change-Post IsCoherent (λ _ v. IsPublished v) Unsure _ v
                          (IsShut-IsUnsure
                            (record v {
                              base = policy;
                              contents = plan.selected;
                              initialized = true;
                            })
                            k.0.0.0).0
                          (
                            k.0.0.0,
                            record {
                              recorded = k.2;
                              unseeded = k.3;
                              filtered = k.1;
                              tunnelled = (a.rows, k.0.0.1);
                              routes = k.0.0.2;
                              text = plan.config;
                              on_disk = k.0.1;
                              running = k.0.2;
                              built = (live, built);
                            },
                            refl,
                            refl,
                            refl,
                            k.0.0.1,
                          ))
                        λ _ v k.
                          require-Post IsCoherent (λ _ v. IsPublished v) Unsure guarded
                            (a.passes Check.context_last) v (λ _. k)
                            (λ _. (refl, IsShut-IsUnsure v k.0))

  abbrev IsKept : World P → World P → Type 0
  IsKept w v = (v.config ≡ w.config) × (v.runtime ≡ w.runtime)

  -- `w` is the world after the staging. Where the configuration is not new, it is the one on the disk;
  -- where there is no restart, it runs.
  pub reconfigure-Post :
      (w : World P)
      → IsCoherent w
      → (plan.changed ≡ false → w.config ≡ some plan.config)
      → ((plan.changed || plan.restart) ≡ false → w.runtime ≡ some plan.config)
      → (live : P.Live) → P.prepare live policy plan.selected ≡ some plan.config
      → Post IsCoherent (λ _ v. IsPublished v) Unsure (reconfigure a policy plan w)
  unfolding reconfigure set_guard
  reconfigure-Post w h c r live built =
      proceed-Post IsCoherent (λ _ v. IsUnsure v × IsKept w v) (λ _ v. IsPublished v) Unsure _ _
        (change-Post IsCoherent (λ _ v. IsUnsure v × IsKept w v) Unsure _ w (h.0, λ u. cc)
          (((h.0, λ u. cc), refl), (refl, refl)))
        λ _ v k.
          call-Post (λ v. IsShut v × IsKept w v) (λ _ v. IsPublished v) _ _ _ v _ k.0
            ((inl refl, λ u. k.0.0.1 u), k.0.1) ((inl refl, λ u. k.0.0.1 u), k.0.1)
            ((refl, k.0.1), k.1)
            λ v k.
              step-Post
                (λ v. IsShut v × IsKept w v × (v.wireguard ≡ some (P.settings policy, a.rows)))
                (λ _ v. IsPublished v) _ _ _ v _ k.0 k.0 k.0 (k.0, k.1, refl)
                λ v k.
                  step-Post (λ v. IsTunnelled v × IsKept w v) (λ _ v. IsPublished v) _ _ _ v _ k.0
                    k.0 k.0 ((k.0, k.2, refl), k.1)
                    λ v k.
                      proceed-Post IsCoherent (λ _ v. IsRunning v) (λ _ v. IsPublished v) Unsure _ _
                        (commit-Post plan.changed plan.restart v k.0 (λ e. k.1.0 ∙ c e)
                          (λ e. k.1.1 ∙ r e))
                        λ _ v k. finish-Post v k live built

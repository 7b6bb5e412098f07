-- ===== src/Daemon/Publish/Settling.antt =====
-- cmd/razdachad/network_generation.go: the steps of publish, put together.
use mathlib.Core.Bool.{not}
use razdacha.Prelude.{
  arith, ◌≡◌, ◌≢◌, ◌⊎◌, inl, inr, refl, sym, ap, subst, ◌∙◌, Bool, true, false, List, Option, none,
  some, String, eq_iff, ◌&&◌, ◌||◌, if◌then◌else◌, Bool-cases,
}
use razdacha.Ingress.Manifest.{Manifest}
use razdacha.Ingress.Startup.{Reading, found, absent, unreadable, read_manifest}
use razdacha.Daemon.World.{Program, World, Error, rejected, guarded, Run, proceed, recover, change}
use razdacha.Daemon.World.Post.{Post, proceed-Post, require-Post, Post-weaken, change-Post}
use razdacha.Daemon.Publish.{
  Answers, Check, Plan, plan_for, select, is_marked, commit, rename, restart, stage_public,
  stage_failed, perform, consider, publish, public_guarded, manifest_in, config_is,
}
use razdacha.Daemon.Publish.Considered.{Considered, Untouched, consider-Post}
use razdacha.Daemon.Publish.Serving.{
  Served, IsCoherent, IsUnguarded, IsRest, IsStaged, applied, Unsure,
}
use razdacha.Daemon.Publish.Safety.{verify_active-Post}
use razdacha.Daemon.Publish.Staging.{Failed, stage-Post}
use razdacha.Daemon.Publish.Reconfigured.{IsPublished, reconfigure-Post}
use razdacha.Daemon.Publish.Released.{IsOpen, release-Post}

-- reflect.DeepEqual finds equal only what is equal.
pub record HasDeepEqual (P : Program) : Type 0 where
  pub same_policy-eq : (x y : P.Policy) → P.same_policy x y ≡ true → x ≡ y
  pub same_contents-eq : (x y : List (String × P.Content)) → P.same_contents x y ≡ true → x ≡ y

all_false :
    (p q r s t : Bool)
    → (p || q || not r || not s || not t) ≡ false
    → (p ≡ false) × (q ≡ false) × (r ≡ true) × (s ≡ true) × (t ≡ true)
all_false p q r s t h = (ground arith, ground arith, ground arith, ground arith, ground arith)

not-false : (b : Bool) → not b ≡ false → b ≡ true
not-false b h = ground arith

module _ {P : Program} (a : Answers P) where
  -- The mark that publish reads as false is false on the disk.
  is_marked-found :
      (r : Reading Manifest)
      → is_marked a r ≡ false
      → (m : Manifest) × (r ≡ found m) × (m.guarded ≡ false)
  unfolding is_marked
  is_marked-found (found m) h = (m, refl, h)
  is_marked-found absent h = cc
  is_marked-found unreadable h = cc

  pub public_guarded-IsUnguarded : (w : World P) → public_guarded a w ≡ false → IsUnguarded w
  unfolding public_guarded manifest_in is_marked
  public_guarded-IsUnguarded w h = elim (Bool-cases (a.passes Check.read_mark)) [
    | inl seen ↦ is_marked-found (read_manifest P.outside w.manifest) (rw seen at h)
    | inr unseen ↦ let h' = rw unseen at h in cc
  ]

  config_is-some : (o : Option String) (c : String) → config_is o c ≡ true → o ≡ some c
  config_is-some none c h = cc
  config_is-some (some old) c h = ap some ((eq_iff old c).0 h)

  -- What publish ends with, without an error and with one.
  abbrev pub ServesAsked : P.Policy → Bool → World P → World P → Type 0
  ServesAsked policy recovery w v =
      (v.uncertain ≡ false)
      × (v.closed ≡ false)
      × ((selected : List (String × P.Content)) × (select a
              (if recovery then w.contents else a.loaded) (P.sources policy)
            ≡ some selected)
          × Served v (record { policy = policy; lists = selected })
          × (v.base ≡ policy)
          × (v.contents ≡ selected))
      × ((v ≡ w) ⊎ (v.wireguard ≡ some (P.settings policy, a.rows)))

  abbrev pub Serves : P.Policy → Bool → World P → Unit {0} → World P → Type 0
  Serves policy recovery w _ v = IsRest v × ServesAsked policy recovery w v

  abbrev pub Refuses : World P → Error → World P → Type 0
  Refuses w e v = IsRest v × (((e ≢ guarded) × (v ≡ w)) ⊎ ((e ≡ guarded) × (v.uncertain ≡ true)))

  Unsure-Refuses : (w : World P) (e : Error) (v : World P) → Unsure e v → Refuses w e v
  Unsure-Refuses w e v h = ((h.1.0, λ u. cc), inr (h.0, h.1.1))

  module _ (policy : P.Policy) (recovery repair : Bool) (w : World P) (h : IsRest w)
      (equal : HasDeepEqual P) where
    abbrev Goal : Run P (Unit {0}) → Type 0
    Goal r = Post IsCoherent (Serves policy recovery w) (Refuses w) r

    refused-Refuses : (e : Error) (v : World P) → e ≢ guarded → v ≡ w → Refuses w e v
    refused-Refuses e v n p = (subst IsRest (sym p) h, inl (n, p))

    module _ (plan : Plan P) (c : Considered a policy recovery w plan) where
      -- Without a need to restart, the gate is sure, and what it has applied is what is asked for.
      unchanged :
          plan.restart ≡ false
          → (w.uncertain ≡ false)
            × IsUnguarded w
            × (w.config ≡ some plan.config)
            × (w.base ≡ policy)
            × (w.contents ≡ plan.selected)
      unfolding plan_for
      unchanged r =
          let (u, m, f, p, l) =
            all_false w.uncertain (public_guarded a w) (config_is w.config plan.config)
              (P.same_policy w.base policy) (P.same_contents w.contents plan.selected)
              (sym (ap (λ (p : Plan P). p.restart) c.0) ∙ r) in
          (
            u,
            public_guarded-IsUnguarded w m,
            config_is-some w.config plan.config f,
            equal.same_policy-eq w.base policy p,
            equal.same_contents-eq w.contents plan.selected l,
          )

      not_changed : plan.changed ≡ false → w.config ≡ some plan.config
      unfolding plan_for
      not_changed r = config_is-some w.config plan.config (
          not-false (config_is w.config plan.config) (sym (ap (λ (p : Plan P). p.changed) c.0) ∙ r))

      changed_restarts : plan.restart ≡ false → plan.changed ≡ false
      unfolding plan_for
      changed_restarts r =
          let (u, m, f, p, l) =
            all_false w.uncertain (public_guarded a w) (config_is w.config plan.config)
              (P.same_policy w.base policy) (P.same_contents w.contents plan.selected)
              (sym (ap (λ (p : Plan P). p.restart) c.0) ∙ r) in
          ap (λ (p : Plan P). p.changed) c.0 ∙ ap not f

      -- What the gate has as applied is what is asked for, and is served.
      Served-already :
          plan.restart ≡ false
          → (w.uncertain ≡ false)
            × (w.closed ≡ false)
            × Served w (record { policy = policy; lists = plan.selected })
            × (w.base ≡ policy)
            × (w.contents ≡ plan.selected)
      Served-already r =
          let (u, m, f, p, l) = unchanged r in
          let e : applied w ≡ record { policy = policy; lists = plan.selected } = ground arith in
          (u, h.1 u m, subst (Served w) e (h.0.1 u m), p, l)

      still-Post : plan.restart ≡ false → Goal (commit a plan.changed plan.config false w)
      unfolding commit rename restart proceed
      still-Post r =
          let (u, o, s, p, l) = Served-already r in
          subst (λ b. Goal (commit a b plan.config false w)) (sym (changed_restarts r))
            (record { passed = tt; ends = (h, (u, o, (plan.selected, c.1, s, p, l), inl refl)) })

      -- What runs where there is no restart: the configuration on the disk, which is the candidate.
      runs_already : (plan.changed || plan.restart) ≡ false → w.runtime ≡ some plan.config
      runs_already r =
          let t : plan.restart ≡ false = ground arith in
          let s = (Served-already t).2 in
          let (u, m, f, p, l) = unchanged t in s.running ∙ sym s.on_disk ∙ f

      perform-Post : Goal (perform a policy plan w)
      unfolding perform
      perform-Post =
          proceed-Post IsCoherent (λ _ v. v ≡ w) (Serves policy recovery w) (Refuses w) _ _
            (require-Post IsCoherent (λ _ v. v ≡ w) (Refuses w) rejected
              (a.passes Check.context_before && a.passes Check.candidate_data) w (λ _. refl)
              (λ _. refused-Refuses rejected w (λ e. cc) refl))
            λ _ v e.
              proceed-Post IsCoherent (IsStaged w) (Serves policy recovery w) (Refuses w) _ _
                (subst
                  (λ v.
                    Post IsCoherent (IsStaged w) (Refuses w)
                      (recover (stage_public a plan.config v) (stage_failed a)))
                  (sym e)
                  (Post-weaken IsCoherent IsCoherent (IsStaged w) (IsStaged w) (Failed a w h.0)
                    (Refuses w) _ (λ v i. i) (λ _ v i. i) Failed-Refuses
                    (stage-Post a w h.0 plan.config)))
                λ _ v k.
                  proceed-Post IsCoherent (λ _ v. IsPublished a policy plan v)
                    (Serves policy recovery w) (Refuses w) _ _
                    (Post-weaken IsCoherent IsCoherent (λ _ v. IsPublished a policy plan v)
                      (λ _ v. IsPublished a policy plan v) Unsure (Refuses w) _ (λ v i. i)
                      (λ _ v i. i) (Unsure-Refuses w)
                      (reconfigure-Post a policy plan v k.0 (λ e. k.1 ∙ not_changed e)
                        (λ e. k.2 ∙ runs_already e) a.live c.2))
                    λ _ v k.
                      proceed-Post IsCoherent (λ _ v. IsOpen a policy plan.selected v)
                        (Serves policy recovery w) (Refuses w) _ _
                        (Post-weaken IsCoherent IsCoherent (λ _ v. IsOpen a policy plan.selected v)
                          (λ _ v. IsOpen a policy plan.selected v) Unsure (Refuses w) _ (λ v i. i)
                          (λ _ v i. i) (Unsure-Refuses w)
                          (release-Post a policy plan.selected plan.config v
                            (k.0.1, k.1, k.2, k.3, k.4, k.5)))
                        λ _ v k. settled-Post v k
        where
          Failed-Refuses : (e : Error) (v : World P) → Failed a w h.0 e v → Refuses w e v
          Failed-Refuses e v (inl (n, p)) = refused-Refuses e v n p
          Failed-Refuses e v (inr (g, u)) = Unsure-Refuses w e v (g, u)

          settled-Post :
              (v : World P)
              → IsOpen a policy plan.selected v
              → Goal (change (λ w. record w { uncertain = false }) v)
          settled-Post v k =
              let s = k.0.1 in
              let e : record { policy = policy; lists = plan.selected } ≡ applied v =
                ground arith in
              let i : IsCoherent (record v { uncertain = false }) = (
                inr (record { policy = policy; lists = plan.selected }, s),
                λ _ _. subst (Served v) e s,
              ) in
              change-Post IsCoherent (Serves policy recovery w) (Refuses w)
                (λ w. record w { uncertain = false }) v i
                ((i, λ _ _. k.1), (refl, k.1, (plan.selected, c.1, s, k.0.2, k.0.3), inr k.0.5))

    branch :
        (still : Bool) (plan : Plan P)
        → Considered a policy recovery w plan
        → (still ≡ true → plan.restart ≡ false)
        → Goal
            ((if still then commit a plan.changed plan.config false else perform a policy plan) w)
    branch true plan c r = still-Post plan c (r refl)
    branch false plan c r = perform-Post plan c

    -- However its calls end, publish passes through coherent worlds only. It ends with all served as
    -- asked, or with an error; that leaves everything as it was, or is of the kind `guarded` and leaves
    -- the gate unsure.
    pub publish-Post : Goal (publish a policy recovery repair w)
    unfolding publish
    publish-Post =
        proceed-Post IsCoherent (λ _ v. v ≡ w) (Serves policy recovery w) (Refuses w) _ _
          (Post-weaken IsCoherent IsCoherent (λ _ v. v ≡ w) (λ _ v. v ≡ w) Unsure (Refuses w) _
            (λ v i. i) (λ _ v i. i) (Unsure-Refuses w) (verify_active-Post a w h.0))
          λ _ v e.
            proceed-Post IsCoherent (λ plan v. (v ≡ w) × Considered a policy recovery w plan)
              (Serves policy recovery w) (Refuses w) _ _
              (subst
                (λ v.
                  Post IsCoherent (λ plan v. (v ≡ w) × Considered a policy recovery w plan)
                    (Refuses w) (consider a policy recovery v))
                (sym e)
                (Post-weaken IsCoherent IsCoherent
                  (λ plan v. (v ≡ w) × Considered a policy recovery w plan)
                  (λ plan v. (v ≡ w) × Considered a policy recovery w plan) (Untouched w)
                  (Refuses w) _ (λ v i. i) (λ _ v i. i)
                  (λ x v i. refused-Refuses x v (λ g. cc (g, i.0)) i.1)
                  (consider-Post IsCoherent a policy recovery w)))
              λ plan v k.
                subst
                  (λ v. Goal (
                    (if not repair && not plan.restart
                        then commit a plan.changed plan.config false
                        else perform a policy plan)
                      v))
                  (sym k.0)
                  (branch (not repair && not plan.restart) plan k.1 (λ still. ground arith))

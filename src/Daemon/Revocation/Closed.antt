-- ===== src/Daemon/Revocation/Closed.antt =====
-- cmd/razdachad/reality.go: closeForRevocation keeps clients out, or changes nothing that serves them.
use razdacha.Prelude.{
  ◌≡◌, ◌⊎◌, inl, inr, refl, sym, ◌∙◌, ap, subst, Bool, true, false, List, some, String, arith,
}
use razdacha.Ingress.Endpoints.{Endpoint, IsLawful, has}
use razdacha.Ingress.Endpoints.Canonical.{union-covers}
use razdacha.Ingress.Manifest.{Manifest}
use razdacha.Ingress.Startup.{found, config_endpoints}
use razdacha.Ingress.Startup.Authority.{config_endpoints-AllCanonical}
use razdacha.Daemon.World.{
  Program, World, Error, guarded, Run, M, ◌>>=◌, ◌>>◌, proceed, change, require,
}
use razdacha.Daemon.World.Post.{Post, proceed-Post, require-Post, attempt-Post, Post-weaken}
use razdacha.Daemon.Publish.{Answers, Call, Check, set_guard, stage_public}
use razdacha.Daemon.Publish.Considered.{lift-Post, read-Post}
use razdacha.Daemon.Publish.Serving.{
  IsUnguarded, IsRest, normalize_manifest-guarded, written-guarded,
}
use razdacha.Daemon.Publish.Staged.{IsMarked, Barred, Stages, Unbarred, stage_public-Stages}
use razdacha.Daemon.Publish.Staging.{Barred-IsCoherent}
use razdacha.Daemon.Revocation.{close_for_revocation}

-- Client ingress is closed, the gate is not sure, the manifest on the disk is marked, and every listener
-- of the configuration on the disk is dropped.
pub record IsClosedOff {P : Program} (v : World P) : Type 0 where
  pub closed : v.closed ≡ true
  pub unsure : v.uncertain ≡ true
  pub manifest : Manifest
  pub on_disk : v.manifest ≡ found manifest
  pub mark : manifest.guarded ≡ true
  pub config : String
  pub listeners : List Endpoint
  pub configured : v.config ≡ some config
  pub listens : config_endpoints P.outside config ≡ some listeners
  pub drops : (e : Endpoint) → has listeners e ≡ true → has v.dropped e ≡ true

module _ {P : Program} (lawful : IsLawful P.outside.ip) (w : World P) where
  Stages-drops :
      (config : String) (v : World P) (k : Stages w config v) (e : Endpoint)
      → has k.listeners e ≡ true
      → has v.dropped e ≡ true
  Stages-drops config v k e m =
      let canonical =
        (config_endpoints-AllCanonical P.outside lawful config k.listeners k.listens).0 e m in
      let among : has k.both e ≡ true = elim k.joined [
        | inl same ↦ subst (λ es. has es e ≡ true) (sym same) m
        | inr (olds, joined) ↦
            (union-covers P.outside.ip lawful k.listeners olds k.both e e joined (ground (arith, m))
              canonical).0
      ] in
      (union-covers P.outside.ip lawful k.known k.both v.dropped e e k.all_dropped
        (ground (arith, among)) canonical).0

module _ {P : Program} (a : Answers P) (w : World P) where
  abbrev pub shut : World P → World P
  shut v = record v { uncertain = true; closed = true }

  abbrev pub doubted : World P → World P
  doubted v = record v { uncertain = true }

  -- What closeForRevocation passes through.
  abbrev pub Held : World P → Type 0
  Held v = (v' : World P) × Barred w v' × ((v ≡ v') ⊎ ((v ≡ doubted v') ⊎ (v ≡ shut v')))

  abbrev pub Closes : Unit {0} → World P → Type 0
  Closes _ v =
      (config : String) × (v' : World P) × (w.config ≡ some config)
      × Stages w config v'
      × (v ≡ shut v')

  unheld : (v : World P) → v ≡ w → Held v
  unheld v e = (w, inl refl, inl e)

  quietly :
      {A : Type 0} (R : A → Type 0) (r : Run P A) (f : A → M P (Unit {0}))
      → Post Held (λ x v. (v ≡ w) × R x) (λ _ v. Held v) r
      → ((x : A) → R x → (v : World P) → v ≡ w → Post Held Closes (λ _ v. Held v) (f x v))
      → Post Held Closes (λ _ v. Held v) (proceed r f)
  quietly R r f h k =
      proceed-Post Held (λ x v. (v ≡ w) × R x) Closes (λ _ v. Held v) r f h (λ x v t. k x t.1 v t.0)

  stage_public-Held :
      (config : String)
      → Post Held (λ _ v. Stages w config v) (λ _ v. Held v) (stage_public a config w)
  stage_public-Held config =
      Post-weaken (IsMarked w) Held (λ _ v. Stages w config v) (λ _ v. Stages w config v)
        (Unbarred w) (λ _ v. Held v) _ (λ v k. (v, inr k, inl refl)) (λ _ _ k. k) unbarred
        (stage_public-Stages a w config)
    where
      unbarred : (e : Error) (v : World P) → Unbarred w e v → Held v
      unbarred e v (inl t) = unheld v t.1
      unbarred e v (inr t) = (v, t.1, inl refl)

  -- The guard of the clients, once what stagePublic does is done.
  guard_closed :
      (config : String) (v : World P)
      → w.config ≡ some config
      → Stages w config v
      → Post Held Closes
          (λ _ v. Held v)
          ((do closed ← set_guard a Call.close_guard true; require guarded closed) (doubted v))
  unfolding set_guard
  guard_closed config v configured k =
      proceed-Post Held Q Closes (λ _ v. Held v) _ _
        (attempt-Post Held Q (λ _ v. Held v) (a.ends Call.close_guard)
          (λ u. record u { closed = true }) (λ u. record u { closed = true }) (doubted v) late late
          (config, v, configured, k, refl) late (v, inr k.marked, inr (inl refl)))
        required
    where
      Q : Bool → World P → Type 0
      Q true u = Closes tt u
      Q false u = Held u

      late : Held (shut v)
      late = (v, inr k.marked, inr (inr refl))

      required :
          (b : Bool) (u : World P) → Q b u → Post Held Closes (λ _ v. Held v) (require guarded b u)
      required true u t = require-Post Held Closes (λ _ v. Held v) guarded true u (λ _. t) (λ p. cc)
      required false u t =
          require-Post Held Closes (λ _ v. Held v) guarded false u (λ p. cc) (λ _. t)

  staged-Closes :
      (config : String)
      → w.config ≡ some config
      → Post Held Closes
          (λ _ v. Held v)
          ((do
            stage_public a config
            change (λ w. record w { uncertain = true })
            closed ← set_guard a Call.close_guard true
            require guarded closed)
            w)
  unfolding change
  staged-Closes config configured =
      proceed-Post Held (λ _ v. Stages w config v) Closes (λ _ v. Held v) _ _
        (stage_public-Held config)
        λ _ v k.
          proceed-Post Held (λ _ u. u ≡ doubted v) Closes (λ _ v. Held v) _ _
            (record { passed = ((v, inr k.marked, inr (inl refl)), tt); ends = refl })
            λ _ u e.
              subst
                (λ u.
                  Post Held Closes (λ _ v. Held v)
                    ((do closed ← set_guard a Call.close_guard true; require guarded closed) u))
                (sym e) (guard_closed config v configured k)

  pub close_for_revocation-Post : Post Held Closes (λ _ v. Held v) (close_for_revocation a w)
  unfolding close_for_revocation
  close_for_revocation-Post =
      quietly (λ _. Unit {0}) _ _
        (require-Post Held (λ _ v. (v ≡ w) × Unit {0}) (λ _ v. Held v) guarded
          (a.passes Check.candidate_data) w (λ _. (refl, tt)) (λ _. unheld w refl))
        λ _ _ v e.
          quietly (λ o. o ≡ w.config) _ _
            (read-Post Held (λ o v. (v ≡ w) × (o ≡ w.config)) (λ _ v. Held v) (λ w. w.config) v
              (e, ap (λ (v : World P). v.config) e))
            λ current same v e.
              quietly (λ config. w.config ≡ some config) _ _
                (lift-Post Held (λ config v. (v ≡ w) × (w.config ≡ some config)) (λ _ v. Held v)
                  guarded current v (λ config p. (e, sym same ∙ p)) (λ _. unheld v e))
                λ config configured v e.
                  subst
                    (λ v.
                      Post Held Closes (λ _ v. Held v)
                        ((do
                          stage_public a config
                          change (λ w. record w { uncertain = true })
                          closed ← set_guard a Call.close_guard true
                          require guarded closed)
                          v))
                    (sym e) (staged-Closes config configured)

  pub Closes-IsClosedOff : IsLawful P.outside.ip → (v : World P) → Closes tt v → IsClosedOff v
  Closes-IsClosedOff lawful v (config, v', configured, k, e) = subst IsClosedOff (sym e) (record {
    closed = refl;
    unsure = refl;
    manifest = k.marked.manifest;
    on_disk = ap (λ (u : World P). u.manifest) k.marked.framed;
    mark =
        normalize_manifest-guarded P.outside.digest P.outside.ip k.marked.source k.marked.manifest
          k.marked.normal
        ∙ k.marked.mark;
    config = config;
    listeners = k.listeners;
    configured = ap (λ (u : World P). u.config) k.marked.framed ∙ configured;
    listens = k.listens;
    drops = Stages-drops lawful w config v' k;
  })

  Barred-IsRest : (v : World P) → IsRest w → Barred w v → IsRest v
  Barred-IsRest v h (inl e) = subst IsRest (sym e) h
  Barred-IsRest v h (inr k) =
      let marked : ¬ IsUnguarded v =
        subst (λ (u : World P). ¬ IsUnguarded u) (sym k.framed)
          (written-guarded P.outside k.source k.manifest k.mark k.normal) in
      (Barred-IsCoherent a w h.0 v (inr k), λ u o. absurd (marked o))

  -- From a world between publications, what is passed through is one too.
  pub Held-IsRest : (v : World P) → IsRest w → Held v → IsRest v
  Held-IsRest v h (v', b, inl e) = subst IsRest (sym e) (Barred-IsRest v' h b)
  Held-IsRest v h (v', b, inr (inl e)) =
      subst IsRest (sym e) (((Barred-IsRest v' h b).0.0, λ u. cc), λ u. cc)
  Held-IsRest v h (v', b, inr (inr e)) = subst IsRest (sym e) ((inl refl, λ u. cc), λ u. cc)

  pub Closes-base : (v : World P) → Closes tt v → v.base ≡ w.base
  Closes-base v (config, v', configured, k, e) =
      ap (λ (u : World P). u.base) e ∙ ap (λ (u : World P). u.base) k.marked.framed

  pub Closes-Held : (v : World P) → Closes tt v → Held v
  Closes-Held v (config, v', configured, k, e) = (v', inr k.marked, inr (inr e))

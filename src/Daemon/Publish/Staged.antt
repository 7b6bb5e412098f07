-- ===== src/Daemon/Publish/Staged.antt =====
-- cmd/razdachad/reality.go: stagePublic and releasePublic leave clients out, or let them in where that
-- is safe.
use razdacha.Prelude.{
  ◌≡◌, ◌⊎◌, inl, inr, refl, sym, ◌∙◌, subst, Bool, true, List, Option, none, some, String, all, ap,
  Option-cases, false, ◌||◌,
}
use razdacha.Ingress.Endpoints.{Endpoint, has, union}
use razdacha.Ingress.Manifest.{version, Manifest, normalize_manifest}
use razdacha.Ingress.Startup.{Reading, found, absent, unreadable, config_endpoints}
use razdacha.Daemon.World.{
  Program, World, Error, port_busy, guarded, Run, M, ◌>>=◌, ◌>>◌, proceed, require,
}
use razdacha.Daemon.World.Post.{Post, proceed-Post, require-Post, attempt-Post, Post-weaken}
use razdacha.Daemon.Publish.{
  Answers, Call, Check, manifest_in, set_dropped, write_manifest, lift, known_endpoints,
  old_endpoints, with_old, stage_public, staged_hashes,
}
use razdacha.Daemon.Publish.Considered.{lift-Post, read-Post}

module _ {P : Program} (w : World P) where
  -- The world with another manifest, which is marked, and other listeners that are dropped.
  pub record IsMarked (v : World P) : Type 0 where
    pub source : Manifest
    pub manifest : Manifest
    pub dropped : List Endpoint
    pub mark : source.guarded ≡ true
    pub normal : normalize_manifest P.outside.digest P.outside.ip source ≡ some manifest
    pub framed : v ≡ record w { manifest = found manifest; dropped = dropped }

  -- Nothing has changed, or the manifest on the disk is marked.
  abbrev pub Barred : World P → Type 0
  Barred v = (v ≡ w) ⊎ IsMarked v

  -- What is dropped is what the old manifest has, with the listeners of the configuration and of that
  -- on the disk.
  pub record Stages (config : String) (v : World P) : Type 0 where
    pub marked : IsMarked v
    pub listeners : List Endpoint
    pub known : List Endpoint
    pub both : List Endpoint
    pub listens : config_endpoints P.outside config ≡ some listeners
    pub joined :
        (both ≡ listeners)
        ⊎ ((olds : List Endpoint) × (union P.outside.ip listeners olds ≡ some both))
    pub all_dropped : union P.outside.ip known both ≡ some v.dropped

  abbrev pub Unbarred : Error → World P → Type 0
  Unbarred e v = ((e ≡ port_busy) × (v ≡ w)) ⊎ ((e ≡ guarded) × Barred v)

module _ {P : Program} (a : Answers P) (w : World P) where
  -- A part that only reads, with what is known of its result.
  abbrev IsQuiet : {A : Type 0} → (A → Type 0) → Run P A → Type 0
  IsQuiet R r = Post (IsMarked w) (λ x v. (v ≡ w) × R x) (Unbarred w) r

  lift-IsQuiet :
      {A : Type 0} (o : Option A) (v : World P)
      → v ≡ w
      → IsQuiet (λ x. o ≡ some x) (lift guarded o v)
  lift-IsQuiet o v e =
      lift-Post (IsMarked w) (λ x v. (v ≡ w) × (o ≡ some x)) (Unbarred w) guarded o v
        (λ x p. (e, p)) (λ _. inr (refl, inl e))

  require-IsQuiet : (b : Bool) (v : World P) → v ≡ w → IsQuiet (λ _. Unit {0}) (require guarded b v)
  require-IsQuiet b v e =
      require-Post (IsMarked w) (λ x v. (v ≡ w) × Unit {0}) (Unbarred w) guarded b v (λ _. (e, tt))
        (λ _. inr (refl, inl e))

  known_endpoints-IsQuiet :
      (m : Reading Manifest) (v : World P) → v ≡ w → IsQuiet (λ _. Unit {0}) (known_endpoints a m v)
  unfolding known_endpoints
  known_endpoints-IsQuiet (found m) v e = record { passed = tt; ends = (e, tt) }
  known_endpoints-IsQuiet absent v e = record { passed = tt; ends = (e, tt) }
  known_endpoints-IsQuiet unreadable v e = record { passed = tt; ends = inr (refl, inl e) }

  old_endpoints-IsQuiet :
      (old : Option String) (v : World P) → v ≡ w → IsQuiet (λ _. Unit {0}) (old_endpoints a old v)
  unfolding old_endpoints
  old_endpoints-IsQuiet none v e = record { passed = tt; ends = (e, tt) }
  old_endpoints-IsQuiet (some old) v e =
      lift-Post (IsMarked w) (λ x v. (v ≡ w) × Unit {0}) (Unbarred w) guarded
        (config_endpoints P.outside old) v (λ _ _. (e, tt)) (λ _. inr (refl, inl e))

  abbrev Joined : List Endpoint → List Endpoint → Type 0
  Joined es both = (both ≡ es) ⊎ ((olds : List Endpoint) × (union P.outside.ip es olds ≡ some both))

  with_old-IsQuiet :
      (old : Option String) (es olds : List Endpoint) (v : World P)
      → v ≡ w
      → IsQuiet (Joined es) (with_old a old es olds v)
  unfolding with_old
  with_old-IsQuiet none es olds v e = record { passed = tt; ends = (e, inl refl) }
  with_old-IsQuiet (some old) es olds v e =
      lift-Post (IsMarked w) (λ x v. (v ≡ w) × Joined es x) (Unbarred w) guarded
        (union P.outside.ip es olds) v (λ x p. (e, inr (olds, p))) (λ _. inr (refl, inl e))

  -- A step that only reads, and the rest.
  quietly :
      {A : Type 0} (R : A → Type 0) (Q : Unit {0} → World P → Type 0) (r : Run P A)
      (f : A → M P (Unit {0}))
      → IsQuiet R r
      → ((x : A) → R x → (v : World P) → v ≡ w → Post (IsMarked w) Q (Unbarred w) (f x v))
      → Post (IsMarked w) Q (Unbarred w) (proceed r f)
  quietly R Q r f h k =
      proceed-Post (IsMarked w) (λ x v. (v ≡ w) × R x) Q (Unbarred w) r f h (λ x v t. k x t.1 v t.0)

  abbrev Wrote : Bool → World P → Type 0
  Wrote true v = IsMarked w v
  Wrote false v = Barred w v

  require_written :
      (b : Bool) (v : World P)
      → Wrote b v
      → Post
          (IsMarked w)
          (λ _ u. IsMarked w u × (u.dropped ≡ v.dropped))
          (Unbarred w)
          (require guarded b v)
  unfolding require
  require_written true v k = record { passed = tt; ends = (k, refl) }
  require_written false v k = record { passed = tt; ends = inr (refl, k) }

  write_staged :
      (m : Manifest)
      → m.guarded ≡ true
      → Post (IsMarked w) Wrote (Unbarred w) (write_manifest a Call.stage_write m w)
  unfolding write_manifest
  write_staged m g = elim (Option-cases (normalize_manifest P.outside.digest P.outside.ip m)) [
    | inl bad ↦ rw (write_manifest, bad) (record { passed = tt; ends = inl refl })
    | inr (n, good) ↦
        let k : IsMarked w (record w { manifest = found n }) = record {
          source = m;
          manifest = n;
          dropped = w.dropped;
          mark = g;
          normal = good;
          framed = refl;
        } in
        rw (write_manifest, good)
          (attempt-Post (IsMarked w) Wrote (Unbarred w) (a.ends Call.stage_write)
            (λ v. record v { manifest = found n }) (λ v. record v { manifest = found n }) w k k k
            (inr k) (inl refl))
  ]

  drop_staged :
      (endpoints : List Endpoint) (v : World P)
      → IsMarked w v
      → Post
          (IsMarked w)
          (λ _ u. IsMarked w u × (u.dropped ≡ endpoints))
          (Unbarred w)
          ((do dropped ← set_dropped a Call.stage_drop endpoints; require guarded dropped) v)
  unfolding set_dropped
  drop_staged endpoints v k =
      let l : IsMarked w (record v { dropped = endpoints }) = record {
        source = k.source;
        manifest = k.manifest;
        dropped = endpoints;
        mark = k.mark;
        normal = k.normal;
        framed = ap (λ (u : World P). record u { dropped = endpoints }) k.framed;
      } in
      proceed-Post (IsMarked w) Dropped (λ _ u. IsMarked w u × (u.dropped ≡ endpoints)) (Unbarred w)
        _ _
        (attempt-Post (IsMarked w) Dropped (Unbarred w) (a.ends Call.stage_drop)
          (λ v. record v { dropped = endpoints }) (λ v. record v { dropped = endpoints }) v l l
          (l, refl) l k)
        required
    where
      Dropped : Bool → World P → Type 0
      Dropped true u = IsMarked w u × (u.dropped ≡ endpoints)
      Dropped false u = IsMarked w u

      required :
          (b : Bool) (u : World P)
          → Dropped b u
          → Post
              (IsMarked w)
              (λ _ t. IsMarked w t × (t.dropped ≡ endpoints))
              (Unbarred w)
              (require guarded b u)
      required true u t =
          require-Post (IsMarked w) (λ _ t. IsMarked w t × (t.dropped ≡ endpoints)) (Unbarred w)
            guarded true u (λ _. t) (λ p. cc)
      required false u t =
          require-Post (IsMarked w) (λ _ t. IsMarked w t × (t.dropped ≡ endpoints)) (Unbarred w)
            guarded false u (λ p. cc) (λ _. inr (refl, inr t))

  -- The writes of stagePublic: the manifest, and then the listeners that are dropped.
  stage_writes :
      (m : Manifest) (endpoints : List Endpoint)
      → m.guarded ≡ true
      → Post
          (IsMarked w)
          (λ _ u. IsMarked w u × (u.dropped ≡ endpoints))
          (Unbarred w)
          ((do
            written ← write_manifest a Call.stage_write m
            require guarded written
            dropped ← set_dropped a Call.stage_drop endpoints
            require guarded dropped)
            w)
  stage_writes m endpoints g =
      let Q = λ (_ : Unit {0}) (u : World P). IsMarked w u × (u.dropped ≡ endpoints) in
      proceed-Post (IsMarked w) Wrote Q (Unbarred w) _ _ (write_staged m g) λ written v k.
        proceed-Post (IsMarked w) (λ _ u. IsMarked w u × (u.dropped ≡ v.dropped)) Q (Unbarred w) _ _
          (require_written written v k) λ _ u t. drop_staged endpoints u t.0

  written-Stages :
      (config : String) (es known both endpoints : List Endpoint) (old : Option String)
      → config_endpoints P.outside config ≡ some es
      → Joined es both
      → union P.outside.ip known both ≡ some endpoints
      → (v : World P) → v ≡ w
      → Post
          (IsMarked w)
          (λ _ v. Stages w config v)
          (Unbarred w)
          ((do
            written ← write_manifest a Call.stage_write (record {
              version = version;
              endpoints = endpoints;
              config_hashes = staged_hashes a config old;
              guarded = true;
            })
            require guarded written
            dropped ← set_dropped a Call.stage_drop endpoints
            require guarded dropped)
            v)
  written-Stages config es known both endpoints old listens joined all_dropped v e =
      let m : Manifest = record {
        version = version;
        endpoints = endpoints;
        config_hashes = staged_hashes a config old;
        guarded = true;
      } in
      Post-weaken (IsMarked w) (IsMarked w) (λ _ u. IsMarked w u × (u.dropped ≡ endpoints))
        (λ _ v. Stages w config v) (Unbarred w) (Unbarred w) _ (λ _ k. k)
        (λ _ u (k, d). record {
          marked = k;
          listeners = es;
          known = known;
          both = both;
          listens = listens;
          joined = joined;
          all_dropped = all_dropped ∙ ap some (sym d);
        })
        (λ _ _ k. k)
        (subst
          (λ u.
            Post (IsMarked w) (λ _ u. IsMarked w u × (u.dropped ≡ endpoints)) (Unbarred w)
              ((do
                written ← write_manifest a Call.stage_write m
                require guarded written
                dropped ← set_dropped a Call.stage_drop endpoints
                require guarded dropped)
                u))
          (sym e) (stage_writes m endpoints refl))

  -- stagePublic changes only the manifest, to one that is marked, and then what is dropped. A busy port
  -- is found before that.
  pub stage_public-Stages :
      (config : String)
      → Post (IsMarked w) (λ _ v. Stages w config v) (Unbarred w) (stage_public a config w)
  unfolding stage_public
  stage_public-Stages config =
      let Q = λ (_ : Unit {0}) (v : World P). Stages w config v in
      quietly _ Q _ _ (require-IsQuiet (a.passes Check.stage_lock) w refl) λ _ _ v e.
        quietly (λ _. Unit {0}) Q _ _
          (read-Post (IsMarked w) (λ _ v. (v ≡ w) × Unit {0}) (Unbarred w)
            (manifest_in a Check.stage_read) v (e, tt))
          λ m _ v e. quietly _ Q _ _ (known_endpoints-IsQuiet m v e) λ known _ v e.
            quietly _ Q _ _ (lift-IsQuiet (config_endpoints P.outside config) v e) λ es listens v e.
              quietly _ Q _ _ (require-IsQuiet (a.passes Check.stage_config) v e) λ _ _ v e.
                quietly (λ _. Unit {0}) Q _ _
                  (read-Post (IsMarked w) (λ _ v. (v ≡ w) × Unit {0}) (Unbarred w) (λ w. w.config) v
                    (e, tt))
                  λ old _ v e. quietly _ Q _ _ (old_endpoints-IsQuiet old v e) λ olds _ v e.
                    quietly _ Q _ _ (with_old-IsQuiet old es olds v e) λ both joined v e.
                      quietly (λ _. Unit {0}) Q _ _
                        (require-Post (IsMarked w) (λ _ v. (v ≡ w) × Unit {0}) (Unbarred w)
                          port_busy (all (λ e. has olds e || a.port_free e) both) v (λ _. (e, tt))
                          (λ _. inl (refl, e)))
                        λ _ _ v e.
                          quietly _ Q _ _ (lift-IsQuiet (union P.outside.ip known both) v e)
                            λ endpoints all_dropped v e.
                              written-Stages config es known both endpoints old listens joined
                                all_dropped v e

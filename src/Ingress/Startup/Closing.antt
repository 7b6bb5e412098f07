-- ===== src/Ingress/Startup/Closing.antt =====
-- internal/ingressguard/startup.go, Startup: what is closed when the runtime may start.
use razdacha.Prelude.{
  arith, ◌≡◌, ◌≢◌, ◌⊎◌, ◌∙◌, subst, sym, ap, inl, inr, refl, true, List, [], ◌∷◌, Option, none,
  some, String, Option-cases,
}
use razdacha.Store.Text.{contains}
use razdacha.Ingress.Endpoints
use razdacha.Ingress.Endpoints.{Endpoint, has}
use razdacha.Ingress.Manifest.{Manifest, IsDigest, hash_config, normalize_manifest}
use razdacha.Ingress.Manifest.Normal.{
  IsNormal, normalize_manifest-IsNormal, IsNormal-normalize_manifest,
}
use razdacha.Ingress.Startup.{
  Outside, Verdict, accepted, panicked, Reading, found, absent, unreadable, Outcome, done, broken,
  config_endpoints, validate_config, read_manifest, admit, startup_authority, startup_state,
  Started, write_manifest, install, close, startup,
}
use razdacha.Ingress.Startup.Authority.{Approves, validate_config_lem}

Reading-cases :
    {A : Type 0} (r : Reading A) → ((a : A) × (r ≡ found a)) ⊎ ((r ≡ absent) ⊎ (r ≡ unreadable))
Reading-cases (found a) = inl (a, refl)
Reading-cases absent = inr (inl refl)
Reading-cases unreadable = inr (inr refl)

module _ (o : Outside) (lawful_ip : Endpoints.IsLawful o.ip) (lawful : IsDigest o.digest) where
  -- A manifest that has been read is normalized.
  read_manifest-IsNormal :
      (file : Reading Manifest) (m : Manifest)
      → read_manifest o file ≡ found m
      → IsNormal o.digest o.ip m
  unfolding read_manifest
  read_manifest-IsNormal absent m h = cc
  read_manifest-IsNormal unreadable m h = cc
  read_manifest-IsNormal (found n) m h = elim (Option-cases (normalize_manifest o.digest o.ip n)) [
    | inl bad ↦ let h' = rw (bad, read_manifest) at h in cc
    | inr (k, good) ↦
        let h' = rw (good, read_manifest) at h in
        subst (IsNormal o.digest o.ip) (ground arith)
          (IsNormal-normalize_manifest o.digest o.ip lawful_ip lawful n k good)
  ]

  admit-accepted :
      (v : Verdict) (n m : Manifest) → admit o v n ≡ some (some m) → (v ≡ accepted) × (n ≡ m)
  unfolding admit
  admit-accepted accepted n m h = (refl, ground arith)
  admit-accepted Verdict.refused n m h = cc
  admit-accepted panicked n m h = cc

  admit-some : (v : Verdict) (n : Manifest) → admit o v n ≢ some none
  unfolding admit
  admit-some accepted n = λ p. ground arith
  admit-some Verdict.refused n = λ p. cc
  admit-some panicked n = λ p. cc

  -- When startup goes on with a manifest, that was read, and approves the configuration.
  startup_authority-Approves :
      (config : String) (es : List Endpoint) (r : Reading Manifest) (m : Manifest)
      → ((n : Manifest) → r ≡ found n → IsNormal o.digest o.ip n)
      → startup_authority o config es r ≡ some (some m)
      → IsNormal o.digest o.ip m × Approves o m config
  unfolding startup_authority
  startup_authority-Approves config es absent m k h = ground arith
  startup_authority-Approves config es unreadable m k h = cc
  startup_authority-Approves config es (found n) m k h =
      let (v, e) = admit-accepted (validate_config o config n) n m h in
      let normal = subst (IsNormal o.digest o.ip) e (k n refl) in
      (
        normal,
        (validate_config_lem o lawful_ip lawful m normal config).1.0
            (subst (λ t. validate_config o config t ≡ accepted) e v),
      )

  -- When it goes on without one, there is neither a listener nor a manifest.
  startup_authority-none :
      (config : String) (es : List Endpoint) (r : Reading Manifest)
      → startup_authority o config es r ≡ some none
      → (es ≡ []) × (r ≡ absent)
  unfolding startup_authority
  startup_authority-none config [] absent h = (refl, refl)
  startup_authority-none config (e ∷ es) absent h = ground arith
  startup_authority-none config es unreadable h = cc
  startup_authority-none config es (found n) h =
      absurd (admit-some (validate_config o config n) n h)

  startup_state-authority :
      (config : Reading String) (file : Reading Manifest) (r : Option Manifest)
      → startup_state o config file ≡ some r
      → (text : String) × (es : List Endpoint) × (config ≡ found text)
        × (config_endpoints o text ≡ some es)
        × (startup_authority o text es (read_manifest o file) ≡ some r)
  unfolding startup_state
  startup_state-authority absent file r h = cc
  startup_state-authority unreadable file r h = cc
  startup_state-authority (found text) file r h = elim (Option-cases (config_endpoints o text)) [
    | inl bad ↦ let h' = rw (startup_state, bad) at h in cc
    | inr (es, good) ↦ let h' = rw (startup_state, good) at h in (text, es, refl, good, h')
  ]

  read_manifest-absent : (file : Reading Manifest) → read_manifest o file ≡ absent → file ≡ absent
  unfolding read_manifest
  read_manifest-absent absent h = refl
  read_manifest-absent unreadable h = cc
  read_manifest-absent (found m) h = elim (Option-cases (normalize_manifest o.digest o.ip m)) [
    | inl bad ↦ let h' = rw (read_manifest, bad) at h in cc
    | inr (k, good) ↦ let h' = rw (read_manifest, good) at h in cc
  ]

  Approves-like :
      (m n : Manifest) (config : String)
      → ((e : Endpoint) → has n.endpoints e ≡ has m.endpoints e)
      → ((h : String) → contains n.config_hashes h ≡ contains m.config_hashes h)
      → Approves o m config
      → Approves o n config
  Approves-like m n config endpoints hashes (known, (es, e, c)) = (
    hashes (hash_config o.digest config) ∙ known,
    (es, e, λ x k. let (a, p, q) = c x k in (a, endpoints a ∙ p, q)),
  )

  -- A startup that succeeded: no listener and no manifest, and nothing changed; or a manifest on the
  -- disk that approves the configuration and is marked as guarded, and whose listeners are dropped.
  pub data Ready (config : String) (file : Reading Manifest) (dropped : List Endpoint) (s : Started)
      : Type 0 where
    legacy :
        config_endpoints o config ≡ some []
        → file ≡ absent
        → s.file ≡ file
        → s.dropped ≡ dropped
        → Ready config file dropped s
    closed :
        (m : Manifest)
        → s.file ≡ found m
        → m.guarded ≡ true
        → Approves o m config
        → ((e : Endpoint) → has s.dropped e ≡ has m.endpoints e)
        → Ready config file dropped s

  -- The write and the installation have both ended well.
  close-succeeded :
      (w i : Outcome) (file : Reading Manifest) (dropped : List Endpoint) (m n : Manifest)
      → normalize_manifest o.digest o.ip (record m { guarded = true }) ≡ some n
      → (close o w i file dropped m).succeeded ≡ true
      → ((close o w i file dropped m).file ≡ found n)
        × ((close o w i file dropped m).dropped ≡ m.endpoints)
  unfolding close write_manifest install
  close-succeeded done done file dropped m n e h = rw (write_manifest, e) (refl, refl)
  close-succeeded done broken file dropped m n e h = let h' = rw (write_manifest, e) at h in cc
  close-succeeded done Outcome.refused file dropped m n e h =
      let h' = rw (write_manifest, e) at h in cc
  close-succeeded broken i file dropped m n e h = let h' = rw (write_manifest, e) at h in cc
  close-succeeded Outcome.refused i file dropped m n e h =
      let h' = rw (write_manifest, e) at h in cc

  close-Ready :
      (w i : Outcome) (config : String) (file : Reading Manifest) (dropped : List Endpoint)
      (m : Manifest)
      → IsNormal o.digest o.ip m
      → Approves o m config
      → (close o w i file dropped m).succeeded ≡ true
      → Ready config file dropped (close o w i file dropped m)
  close-Ready w i config file dropped m normal approves h =
      let (n, e, like, v) =
        normalize_manifest-IsNormal o.digest o.ip lawful_ip lawful (record m { guarded = true })
          (record {
            current = normal.current;
            endpoints = normal.endpoints;
            few_endpoints = normal.few_endpoints;
            hashes = normal.hashes;
            some_hash = normal.some_hash;
            few_hashes = normal.few_hashes;
          }) in
      let (a, b) = close-succeeded w i file dropped m n e h in
      closed n a like.guarded (Approves-like m n config like.endpoints like.hashes approves)
        (λ x. ap (λ es. has es x) b ∙ sym (like.endpoints x))

  Option-split :
      {A : Type 0} (r : Option (Option A))
      → (r ≡ none) ⊎ ((r ≡ some none) ⊎ ((a : A) × (r ≡ some (some a))))
  Option-split none = inl refl
  Option-split (some none) = inr (inl refl)
  Option-split (some (some a)) = inr (inr (a, refl))

  -- Where Startup returns nil, the configuration was read, and it has no listener and no manifest, so
  -- that nothing changed, or it is approved by a manifest that is left on the disk marked as guarded,
  -- and exactly the listeners of that manifest are dropped.
  pub startup-Ready :
      (w i : Outcome) (config : Reading String) (file : Reading Manifest) (dropped : List Endpoint)
      → (startup o w i config file dropped).succeeded ≡ true
      → (text : String) × (config ≡ found text)
        × Ready text file dropped (startup o w i config file dropped)
  unfolding startup
  startup-Ready w i config file dropped h = elim (Option-split (startup_state o config file)) [
    | inl bad ↦ let h' = rw (startup, bad) at h in cc
    | inr (inl without) ↦
        let (text, es, e1, e2, e3) = startup_state-authority config file none without in
        let (n1, n2) = startup_authority-none text es (read_manifest o file) e3 in
        (
          text,
          e1,
          rw (startup, without) (legacy (e2 ∙ ap some n1) (read_manifest-absent file n2) refl refl),
        )
    | inr (inr (m, with)) ↦
        let (text, es, e1, e2, e3) = startup_state-authority config file (some m) with in
        let (v, a) =
          startup_authority-Approves text es (read_manifest o file) m (read_manifest-IsNormal file)
            e3 in
        (
          text,
          e1,
          rw (startup, with) (close-Ready w i text file dropped m v a (rw (startup, with) at h)),
        )
  ]

-- ===== src/Daemon/Publish/Safety.antt =====
-- cmd/razdachad/network_generation.go: the steps of a publication that keep a world coherent: the
-- guard of wg0 is closed, or what Served names is of one generation.
use mathlib.Core.Bool.{not}
use razdacha.Prelude.{
  ◌≡◌, inl, inr, refl, Bool, true, false, ◌&&◌, List, some, all, if◌then◌else◌, Bool-cases,
  Option-cases,
}
use razdacha.Ingress.Endpoints.{Endpoint}
use razdacha.Ingress.Manifest.{Manifest, normalize_manifest}
use razdacha.Ingress.Startup.{Reading, found, absent, unreadable}
use razdacha.Daemon.World.{
  Program, World, Error, guarded, pure, fail, read, ◌>>=◌, ◌>>◌, change, require,
}
use razdacha.Daemon.World.Post.{Post, proceed-Post, attempt-Post, require-Post}
use razdacha.Daemon.Publish.{
  Answers, Call, Check, active, verify_active, set_guard, set_dropped, write_manifest,
  emergency_public_guard, intact, manifest_in,
}
use razdacha.Daemon.Publish.Serving.{
  IsCoherent, Unsure, IsUnsure, Unstaged, IsFramed, IsStaged, written-guarded,
}

module _ {P : Program} (a : Answers P) where
  pub set_dropped-Post :
      (I J : World P → Type 0) (E : Error → World P → Type 0) (call : Call) (es : List Endpoint)
      (w : World P)
      → I (record w { dropped = es })
      → J (record w { dropped = es })
      → J w
      → Post I (λ _ v. J v) E (set_dropped a call es w)
  unfolding set_dropped
  set_dropped-Post I J E call es w i j k =
      attempt-Post I (λ _ v. J v) E (a.ends call) (λ v. record v { dropped = es })
        (λ v. record v { dropped = es }) w i i j j k

  -- Writing a manifest with the mark leaves a coherent world coherent.
  pub IsCoherent-written :
      (m n : Manifest) (w : World P)
      → m.guarded ≡ true
      → normalize_manifest P.outside.digest P.outside.ip m ≡ some n
      → IsCoherent w
      → IsCoherent (record w { manifest = found n })
  IsCoherent-written m n w g e h = (h.0, λ u k. absurd (written-guarded P.outside m n g e k))

  pub write_any-Post :
      (I J : World P → Type 0) (E : Error → World P → Type 0) (call : Call) (m : Manifest)
      (w : World P)
      → ((n : Manifest)
          → normalize_manifest P.outside.digest P.outside.ip m ≡ some n
          → I (record w { manifest = found n }) × J (record w { manifest = found n }))
      → J w
      → Post I (λ _ v. J v) E (write_manifest a call m w)
  unfolding write_manifest
  write_any-Post I J E call m w h k =
      elim (Option-cases (normalize_manifest P.outside.digest P.outside.ip m)) [
        | inl bad ↦ rw (write_manifest, bad) (record { passed = tt; ends = k })
        | inr (n, good) ↦
            let (i, j) = h n good in
            rw (write_manifest, good)
              (attempt-Post I (λ _ v. J v) E (a.ends call) (λ v. record v { manifest = found n })
                (λ v. record v { manifest = found n }) w i i j j k)
      ]

  pub write_manifest-Post :
      (J : World P → Type 0) (E : Error → World P → Type 0) (call : Call) (m : Manifest)
      (w : World P)
      → m.guarded ≡ true
      → IsCoherent w
      → ((n : Manifest)
          → IsCoherent (record w { manifest = found n })
          → J (record w { manifest = found n }))
      → J w
      → Post IsCoherent (λ _ v. J v) E (write_manifest a call m w)
  write_manifest-Post J E call m w g h j k =
      write_any-Post IsCoherent J E call m w
        (λ n good. let t = IsCoherent-written m n w g good h in (t, j n t)) k

  pub set_guard-Post :
      (I J : World P → Type 0) (E : Error → World P → Type 0) (call : Call) (on : Bool)
      (w : World P)
      → I (record w { closed = on })
      → J (record w { closed = on })
      → J w
      → Post I (λ _ v. J v) E (set_guard a call on w)
  unfolding set_guard
  set_guard-Post I J E call on w i j k =
      attempt-Post I (λ _ v. J v) E (a.ends call) (λ v. record v { closed = on })
        (λ v. record v { closed = on }) w i i j j k

  -- A world that is coherent stays so when clients are closed out, and when the gate is unsure.
  pub IsCoherent-closed : (w : World P) → IsCoherent w → IsCoherent (record w { closed = true })
  IsCoherent-closed w h = (inl refl, h.1)

  pub IsCoherent-uncertain :
      (w : World P) → IsCoherent w → IsCoherent (record w { uncertain = true })
  IsCoherent-uncertain w h = (h.0, λ u. cc)

  emergency_public_guard-Post :
      (E : Error → World P → Type 0) (r : Reading Manifest) (w : World P)
      → IsCoherent w
      → Post IsCoherent (λ _ v. IsCoherent v) E (emergency_public_guard a r w)
  unfolding emergency_public_guard
  emergency_public_guard-Post E absent w h = record { passed = tt; ends = h }
  emergency_public_guard-Post E unreadable w h = record { passed = tt; ends = h }
  emergency_public_guard-Post E (found m) w h =
      proceed-Post IsCoherent (λ _ v. IsCoherent v) (λ _ v. IsCoherent v) E _ _
        (write_manifest-Post IsCoherent E Call.emergency_write (record m { guarded = true }) w refl
          h (λ n t. t) h)
        λ written v k.
          proceed-Post IsCoherent (λ _ u. IsCoherent u) (λ _ u. IsCoherent u) E _ _
            (when_written written v k) λ _ u l. record { passed = tt; ends = l }
    where
      when_written :
          (written : Bool) (v : World P)
          → IsCoherent v
          → Post IsCoherent
              (λ _ u. IsCoherent u)
              E
              ((if written then set_dropped a Call.emergency_drop m.endpoints else pure false) v)
      when_written true v k =
          set_dropped-Post IsCoherent IsCoherent E Call.emergency_drop m.endpoints v k k k
      when_written false v k = record { passed = tt; ends = k }

  close_artifact-Post :
      (w : World P)
      → IsCoherent w
      → Post {A = Unit {0}} IsCoherent
          (λ _ v. v ≡ w)
          Unsure
          ((do
            closed ← set_guard a Call.emergency_guard true
            m ← read (manifest_in a Check.emergency_read)
            (if a.passes Check.emergency_lock then emergency_public_guard a m else pure tt)
            change (λ v. record v { uncertain = true })
            fail guarded)
            w)
  unfolding change
  close_artifact-Post w h =
      proceed-Post IsCoherent (λ _ v. IsCoherent v) (λ _ v. v ≡ w) Unsure _ _
        (set_guard-Post IsCoherent IsCoherent Unsure Call.emergency_guard true w
          (IsCoherent-closed w h) (IsCoherent-closed w h) h)
        λ closed v k.
          proceed-Post IsCoherent (λ _ v. IsCoherent v) (λ _ v. v ≡ w) Unsure _ _
            (record { passed = tt; ends = k })
            λ m v k.
              proceed-Post IsCoherent (λ _ v. IsCoherent v) (λ _ v. v ≡ w) Unsure _ _
                (when_locked (a.passes Check.emergency_lock) m v k)
                λ _ v k.
                  proceed-Post IsCoherent (λ _ v. IsUnsure v) (λ _ v. v ≡ w) Unsure _ _
                    (record {
                      passed = (IsCoherent-uncertain v k, tt);
                      ends = (IsCoherent-uncertain v k, refl);
                    })
                    λ _ v k. record { passed = tt; ends = (refl, k) }
    where
      when_locked :
          (locked : Bool) (m : Reading Manifest) (v : World P)
          → IsCoherent v
          → Post IsCoherent
              (λ _ u. IsCoherent u)
              Unsure
              ((if locked then emergency_public_guard a m else pure tt) v)
      when_locked true m v k = emergency_public_guard-Post Unsure m v k
      when_locked false m v k = record { passed = tt; ends = k }

  -- An artifact in use that does not verify closes clients out and leaves the gate unsure.
  pub verify_active-Post :
      (w : World P) → IsCoherent w → Post IsCoherent (λ _ v. v ≡ w) Unsure (verify_active a w)
  unfolding verify_active
  verify_active-Post w h =
      elim (Bool-cases
        (w.initialized && not w.uncertain && not (all (λ c. intact a active c.1) w.contents))) [
          | inr fine ↦ rw (fine) (record { passed = tt; ends = refl })
          | inl broken_list ↦ rw (broken_list) (close_artifact-Post w h)
        ]

  pub guarded-Post :
      (w v : World P) (b : Bool)
      → IsFramed w v
      → Post IsCoherent (IsStaged w) (Unstaged w) (require guarded b v)
  guarded-Post w v b h =
      require-Post IsCoherent (IsStaged w) (Unstaged w) guarded b v (λ _. h) (λ _. inr (refl, h.0))

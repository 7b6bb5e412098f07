-- ===== src/Daemon/Publish/Released.antt =====
-- cmd/razdachad/reality.go: releasePublic lets clients in to what is served already.
use razdacha.Prelude.{
  ◌≡◌, inl, inr, refl, Bool, true, false, List, [], some, String, ◌&&◌, if◌then◌else◌,
}
use razdacha.Ingress.Endpoints.{Endpoint}
use razdacha.Ingress.Startup.{config_endpoints, found}
use razdacha.Daemon.World.{
  Program, World, Error, guarded, M, Run, pure, fail, ◌>>=◌, proceed, recover, require,
}
use razdacha.Daemon.World.Post.{Post, proceed-Post, recover-Post, require-Post, attempt-Post}
use razdacha.Daemon.Publish.{
  Answers, Call, Check, set_guard, close_both, released_manifest, release_public, release_failed,
  config_is,
}
use razdacha.Daemon.Publish.Considered.{lift-Post, read-Post}
use razdacha.Daemon.Publish.Serving.{Served, IsCoherent, IsUnsure, Unsure}
use razdacha.Daemon.Publish.Safety.{set_guard-Post, set_dropped-Post, write_any-Post}

module _ {P : Program} (a : Answers P) (policy : P.Policy)
    (selected : List (String × P.Content)) where
  -- The gate is not sure yet, and all that serves clients is of the generation that it has as applied.
  abbrev pub IsReady : World P → Type 0
  IsReady w =
      (w.uncertain ≡ true)
      × Served w (record { policy = policy; lists = selected })
      × (w.base ≡ policy)
      × (w.contents ≡ selected)
      × (w.initialized ≡ true)
      × (w.wireguard ≡ some (P.settings policy, a.rows))

  pub IsReady-IsUnsure : (w : World P) → IsReady w → IsUnsure w
  IsReady-IsUnsure w h = ((inr (record { policy = policy; lists = selected }, h.1), λ u. cc), h.0)

  -- Clients are let in besides.
  abbrev pub IsOpen : World P → Type 0
  IsOpen w = IsReady w × (w.closed ≡ false)

  abbrev Goal : Run P (Unit {0}) → Type 0
  Goal r = Post IsCoherent (λ _ v. IsOpen v) Unsure r

  set_guard-IsReady :
      (call : Call) (on : Bool) (w : World P)
      → IsReady w
      → Post IsCoherent (λ _ v. IsReady v) Unsure (set_guard a call on w)
  set_guard-IsReady call on w h =
      set_guard-Post a IsCoherent IsReady Unsure call on w
        (IsReady-IsUnsure (record w { closed = on }) h).0 h h

  -- A refusal leaves what is served as it is.
  ready_fail :
      {A : Type 0} (Q : A → World P → Type 0) (w : World P)
      → IsReady w
      → Post IsCoherent Q Unsure (fail {A = A} guarded w)
  ready_fail Q w h = record { passed = tt; ends = (refl, IsReady-IsUnsure w h) }

  ready_check :
      (b : Bool) (w : World P) (k : M P (Unit {0}))
      → IsReady w
      → ((v : World P) → IsReady v → Goal (k v))
      → Goal (proceed (require guarded b w) (λ _. k))
  ready_check b w k h rest =
      proceed-Post IsCoherent (λ _ v. IsReady v) (λ _ v. IsOpen v) Unsure _ _
        (require-Post IsCoherent (λ _ v. IsReady v) Unsure guarded b w (λ _. h)
          (λ _. (refl, IsReady-IsUnsure w h)))
        λ _ v s. rest v s

  close_both-Post : (es : List Endpoint) (w : World P) → IsReady w → Goal (close_both a es w)
  unfolding close_both
  close_both-Post es w h =
      proceed-Post IsCoherent (λ _ v. IsReady v) (λ _ v. IsOpen v) Unsure _ _
        (set_guard-IsReady Call.close_again true w h)
        λ closed v k.
          proceed-Post IsCoherent (λ _ v. IsReady v) (λ _ v. IsOpen v) Unsure _ _
            (set_dropped-Post a IsCoherent IsReady Unsure Call.drop_again es v
              (IsReady-IsUnsure (record v { dropped = es }) k).0 k k)
            λ dropped v k. ready_fail (λ _ v. IsOpen v) v k

  -- The branch after a call that let somebody in.
  opened_or_closed :
      (b : Bool) (es : List Endpoint) (w : World P)
      → IsOpen w
      → Goal ((if b then pure tt else close_both a es) w)
  opened_or_closed true es w h = record { passed = tt; ends = h }
  opened_or_closed false es w h = close_both-Post es w h.0

  release_guard-Post :
      (w : World P)
      → IsReady w
      → Post IsCoherent
          (λ opened v. IsReady v × (opened ≡ true → v.closed ≡ false))
          Unsure
          (set_guard a Call.release_guard false w)
  unfolding set_guard
  release_guard-Post w h =
      attempt-Post IsCoherent (λ opened v. IsReady v × (opened ≡ true → v.closed ≡ false)) Unsure
        (a.ends Call.release_guard) _ _ w (IsReady-IsUnsure (record w { closed = false }) h).0
        (IsReady-IsUnsure (record w { closed = false }) h).0 (h, λ e. refl) (h, λ e. cc)
        (h, λ e. cc)

  when_opened :
      (opened : Bool) (w : World P)
      → IsReady w × (opened ≡ true → w.closed ≡ false)
      → Goal (
          (if opened
              then pure tt
              else (do closed ← set_guard a Call.close_again true; fail guarded))
            w)
  when_opened true w h = record { passed = tt; ends = (h.0, h.1 refl) }
  when_opened false w h =
      proceed-Post IsCoherent (λ _ v. IsReady v) (λ _ v. IsOpen v) Unsure _ _
        (set_guard-IsReady Call.close_again true w h.0)
        λ closed v k. ready_fail (λ _ v. IsOpen v) v k

  release_public-Post :
      (config : String) (w : World P) → IsReady w → Goal (release_public a config w)
  unfolding release_public
  release_public-Post config w h =
      ready_check (a.passes Check.release_lock && a.passes Check.release_config) w _ h λ v k.
        proceed-Post IsCoherent (λ _ v. IsReady v) (λ _ v. IsOpen v) Unsure _ _
          (read-Post IsCoherent (λ _ v. IsReady v) Unsure (λ w. w.config) v k)
          λ current v k. ready_check (config_is current config) v _ k λ v k.
            proceed-Post IsCoherent (λ _ v. IsReady v) (λ _ v. IsOpen v) Unsure _ _
              (lift-Post IsCoherent (λ _ v. IsReady v) Unsure guarded
                (config_endpoints P.outside config) v (λ _ _. k)
                (λ _. (refl, IsReady-IsUnsure v k)))
              λ es v k.
                proceed-Post IsCoherent (λ _ v. IsReady v) (λ _ v. IsOpen v) Unsure _ _
                  (write_any-Post a IsCoherent IsReady Unsure Call.release_write
                    (released_manifest a config es true) v
                    (λ n e. ((IsReady-IsUnsure (record v { manifest = found n }) k).0, k)) k)
                  λ written v k. ready_check written v _ k λ v k.
                    proceed-Post IsCoherent
                      (λ opened v. IsReady v × (opened ≡ true → v.closed ≡ false)) (λ _ v. IsOpen v)
                      Unsure _ _ (release_guard-Post v k)
                      λ opened v k.
                        proceed-Post IsCoherent (λ _ v. IsOpen v) (λ _ v. IsOpen v) Unsure _ _
                          (when_opened opened v k)
                          λ _ v k.
                            proceed-Post IsCoherent (λ _ v. IsOpen v) (λ _ v. IsOpen v) Unsure _ _
                              (set_dropped-Post a IsCoherent IsOpen Unsure Call.release_drop [] v
                                (IsReady-IsUnsure (record v { dropped = [] }) k.0).0 k k)
                              λ shown v k.
                                proceed-Post IsCoherent (λ _ v. IsOpen v) (λ _ v. IsOpen v) Unsure _
                                  _ (opened_or_closed shown es v k)
                                  λ _ v k.
                                    proceed-Post IsCoherent (λ _ v. IsOpen v) (λ _ v. IsOpen v)
                                      Unsure _ _
                                      (write_any-Post a IsCoherent IsOpen Unsure Call.release_mark
                                        (released_manifest a config es false) v
                                        (λ n e. (
                                          (IsReady-IsUnsure (record v { manifest = found n })
                                              k.0).0,
                                          k,
                                        ))
                                        k)
                                      λ marked v k. opened_or_closed marked es v k

  release_failed-Post : (e : Error) (w : World P) → Unsure e w → Goal (release_failed a e w)
  unfolding release_failed
  release_failed-Post e w h =
      proceed-Post IsCoherent (λ _ v. IsUnsure v) (λ _ v. IsOpen v) Unsure _ _
        (set_guard-Post a IsCoherent IsUnsure Unsure Call.close_last true w (inl refl, h.1.0.1)
          ((inl refl, h.1.0.1), h.1.1) h.1)
        λ closed v k. record { passed = tt; ends = (refl, k) }

  -- Whatever fails, the world stays coherent, and without an error clients are let in.
  pub release-Post :
      (config : String) (w : World P)
      → IsReady w
      → Goal (recover (release_public a config w) (release_failed a))
  release-Post config w h =
      recover-Post IsCoherent (λ _ v. IsOpen v) Unsure Unsure _ _ (release_public-Post config w h)
        release_failed-Post

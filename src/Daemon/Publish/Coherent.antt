-- ===== src/Daemon/Publish/Coherent.antt =====
-- cmd/razdachad/network_generation.go: publish as a whole.
use razdacha.Prelude.{arith, ◌≡◌, ◌≢◌, ◌⊎◌, subst, Bool, true}
use razdacha.Daemon.World.{Program, World, Error, guarded, Result, ok, err}
use razdacha.Daemon.World.Post.{Ends}
use razdacha.Daemon.Publish.{Answers, publish}
use razdacha.Daemon.Publish.Serving.{IsRest}
use razdacha.Daemon.Publish.Settling.{HasDeepEqual, ServesAsked, Serves, Refuses, publish-Post}

module _ {P : Program} (a : Answers P) where
  pub Ends-ok :
      (Q : Unit {0} → World P → Type 0) (E : Error → World P → Type 0) (r : Result (Unit {0}))
      (v : World P)
      → Ends Q E r v
      → r ≡ ok tt
      → Q tt v
  Ends-ok Q E (ok tt) v h e = h
  Ends-ok Q E (err x) v h e = cc

  pub Ends-err :
      (Q : Unit {0} → World P → Type 0) (E : Error → World P → Type 0) (r : Result (Unit {0}))
      (v : World P) (x : Error)
      → Ends Q E r v
      → r ≡ err x
      → E x v
  Ends-err Q E (ok t) v x h e = cc
  Ends-err Q E (err y) v x h e = subst (λ z. E z v) (ground arith) h

  Ends-both :
      (I : World P → Type 0) (Q : Unit {0} → World P → Type 0) (E : Error → World P → Type 0)
      (r : Result (Unit {0})) (v : World P)
      → Ends Q E r v
      → ((t : Unit {0}) → Q t v → I v)
      → ((x : Error) → E x v → I v)
      → I v
  Ends-both I Q E (ok t) v h q e = q t h
  Ends-both I Q E (err x) v h q e = e x h

  module _ (equal : HasDeepEqual P) (policy : P.Policy) (recovery repair : Bool) (w : World P)
      (h : IsRest w) where
    pub publish-IsRest : IsRest (publish a policy recovery repair w).last
    publish-IsRest =
        Ends-both IsRest (Serves a policy recovery w) (Refuses a w)
          (publish a policy recovery repair w).result _
          (publish-Post a policy recovery repair w h equal).ends (λ _ s. s.0) (λ _ s. s.0)

    -- Without an error, the settings of WireGuard, nftables, the configuration on the disk, the running
    -- one and the record are all of the policy asked for and of its lists, routing is there, the seed is
    -- gone, the guard of wg0 is open, and the gate has that as applied and is sure of it; and nothing has
    -- changed, or WireGuard has been configured for the peers that the database had.
    pub publish-served :
        (publish a policy recovery repair w).result ≡ ok tt
        → ServesAsked a policy recovery w (publish a policy recovery repair w).last
    publish-served e =
        (Ends-ok (Serves a policy recovery w) (Refuses a w)
          (publish a policy recovery repair w).result _
          (publish-Post a policy recovery repair w h equal).ends e).1

    -- With an error of the kind `guarded` the gate is not sure of what is served, and with any other
    -- nothing at all has changed.
    pub publish-refused :
        (x : Error)
        → (publish a policy recovery repair w).result ≡ err x
        → ((x ≢ guarded) × ((publish a policy recovery repair w).last ≡ w))
          ⊎ ((x ≡ guarded) × ((publish a policy recovery repair w).last.uncertain ≡ true))
    publish-refused x e =
        (Ends-err (Serves a policy recovery w) (Refuses a w)
          (publish a policy recovery repair w).result _ x
          (publish-Post a policy recovery repair w h equal).ends e).1

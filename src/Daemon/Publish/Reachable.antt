-- ===== src/Daemon/Publish/Reachable.antt =====
-- cmd/razdachad: the worlds of a gate over the life of the daemon.
use razdacha.Prelude.{◌≡◌, inl, refl, Bool, true, false, List, String}
use razdacha.Daemon.World.{Program, World}
use razdacha.Daemon.World.Post.{Each, Each-map}
use razdacha.Store.Db.{Db}
use razdacha.Ingress.Endpoints.{IsLawful}
use razdacha.Daemon.Publish.{Answers, publish}
use razdacha.Daemon.Revocation.{Request, handle}
use razdacha.Daemon.Revocation.Settled.{handle-IsSettled}
use razdacha.Daemon.Publish.Serving.{IsSafe, IsCoherent, IsRest}
use razdacha.Daemon.Publish.Coherent.{publish-IsRest}
use razdacha.Daemon.Publish.Settling.{HasDeepEqual, publish-Post}

module _ {P : Program} where
  -- The daemon closes the guard of wg0, and makes a gate that is not sure, before anything else.
  abbrev pub started : World P → World P
  started w = record w { closed = true; uncertain = true; initialized = false }

  -- The worlds that are reached: any that a daemon is started in, also one where another died in the
  -- middle of a publication; what recover takes over as applied, before it publishes that; and the
  -- world after a publication, or after an operation on a peer.
  pub data Reached : World P → Type 0 where
    start : (w : World P) → Reached (started w)
    recall :
        (w : World P) (base : P.Policy) (contents : List (String × P.Content))
        → Reached w
        → w.uncertain ≡ true
        → Reached (record w { base = base; contents = contents; initialized = true })
    published :
        (w : World P) (a : Answers P) (policy : P.Policy) (recovery repair : Bool)
        → Reached w
        → Reached (publish a policy recovery repair w).last
    handled :
        (w : World P) (closing : Answers P) (after : Db → Answers P) (request : Request) (db : Db)
        → Reached w
        → Reached (handle closing after request w db).last

  module _ (lawful : IsLawful P.outside.ip) (equal : HasDeepEqual P) where
    pub Reached-IsRest : {w : World P} → Reached w → IsRest w
    Reached-IsRest (start w) = ((inl refl, λ u. cc), λ u. cc)
    Reached-IsRest (recall w base contents r u) =
        let h = Reached-IsRest r in ((h.0.0, λ k. cc), λ k. cc)
    Reached-IsRest (published w a policy recovery repair r) =
        publish-IsRest a equal policy recovery repair w (Reached-IsRest r)
    Reached-IsRest (handled w closing after request db r) =
        (handle-IsSettled closing after lawful equal w (Reached-IsRest r) db request).rest

    -- In every world that is reached, and in every one that a publication or an operation on a peer
    -- passes through from there, the guard of wg0 is closed, or the record on the disk, nftables, the
    -- settings of WireGuard, the configuration on the disk and the running one are all of one generation,
    -- routing is there, and the seed of the installation is gone.
    pub Reached-IsSafe :
        {w : World P} (a : Answers P) (policy : P.Policy) (recovery repair : Bool)
        (closing : Answers P) (after : Db → Answers P) (request : Request) (db : Db)
        → Reached w
        → IsSafe w
          × Each IsSafe (publish a policy recovery repair w).visited
          × Each IsSafe (handle closing after request w db).visited
    Reached-IsSafe {w} a policy recovery repair closing after request db r = (
      (Reached-IsRest r).0.0,
      Each-map IsCoherent IsSafe (λ v i. i.0) (publish a policy recovery repair w).visited
          (publish-Post a policy recovery repair w (Reached-IsRest r) equal).passed,
      (handle-IsSettled closing after lawful equal w (Reached-IsRest r) db request).passed,
    )

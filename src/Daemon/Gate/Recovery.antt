-- ===== src/Daemon/Gate/Recovery.antt =====
-- cmd/razdachad/apply.go and network_generation.go: what the gate says of itself, and what it serves
-- after recover.
use razdacha.Prelude.{arith, ◌≡◌, true, false}
use razdacha.Daemon.World.{Program, Generation, World}
use razdacha.Daemon.Publish.{Answers, public_guarded}
use razdacha.Daemon.Publish.Serving.{Served, applied}
use razdacha.Ingress.Endpoints.{IsLawful}
use razdacha.Daemon.Publish.Reachable.{Reached, Reached-IsRest}
use razdacha.Daemon.Publish.Settling.{HasDeepEqual, public_guarded-IsUnguarded}
use razdacha.Daemon.Gate.{serving, network_status}

module _ {P : Program} (a : Answers P) where
  -- The three conditions of networkStatus.
  status_parts :
      (w : World P)
      → network_status a w ≡ serving
      → (w.initialized ≡ true) × (w.uncertain ≡ false) × (public_guarded a w ≡ false)
  unfolding network_status
  status_parts w h = (ground arith, ground arith, ground arith)

  -- In every world that is reached by publications, recoveries and operations on peers, where
  -- networkStatus has no error, the guard of wg0 is open, and the record on the disk, nftables, the
  -- settings of WireGuard, the configuration on the disk and the running one are all of what the gate has
  -- as applied, routing is there, and the seed of the installation is gone.
  pub network_status-Served :
      (lawful : IsLawful P.outside.ip) (equal : HasDeepEqual P) (w : World P)
      → Reached w
      → network_status a w ≡ serving
      → (w.initialized ≡ true) × (w.closed ≡ false) × Served w (applied w)
  network_status-Served lawful equal w r s =
      let h = Reached-IsRest lawful equal r in
      let (i, u, m) = status_parts w s in
      let o = public_guarded-IsUnguarded a w m in (i, h.1 u o, h.0.1 u o)

  recalled : Generation P → World P → World P
  recalled g w = record w { base = g.policy; contents = g.lists; initialized = true }

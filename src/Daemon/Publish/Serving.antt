-- ===== src/Daemon/Publish/Serving.antt =====
-- cmd/razdachad/network_generation.go: what a world must be for clients to be let in.
use razdacha.Prelude.{
  ◌≡◌, ◌⊎◌, inl, inr, Bool, true, false, List, Option, some, String, Option-cases, arith,
}
use razdacha.Store.Model.{Peer}
use razdacha.Ingress.Manifest.{Manifest, Digest, normalize_manifest}
use razdacha.Ingress.Endpoints.{Netip}
use razdacha.Ingress.Startup.{Outside, found, read_manifest}
use razdacha.Daemon.World.{Program, Generation, World, Error, port_busy, guarded}

module _ {P : Program} where
  -- The configuration is one that Prepare makes of the generation.
  abbrev pub Built : Generation P → String → Type 0
  Built g config = (live : P.Live) × (P.prepare live g.policy g.lists ≡ some config)

  -- The record on the disk, nftables, the settings of WireGuard, the configuration on the disk and that
  -- which runs are all of the generation `g`, routing is there, and the seed of the installation is gone.
  -- The peers of WireGuard are rows of the database and not of the generation.
  pub record IsServed (committed : Option (Generation P)) (seed : Bool)
      (nft : Option (Generation P)) (wireguard : Option (P.Settings × List Peer)) (routed : Bool)
      (config runtime : Option String) (g : Generation P) : Type 0 where
    pub recorded : committed ≡ some g
    pub unseeded : seed ≡ false
    pub filtered : nft ≡ some g
    pub tunnelled : (rows : List Peer) × (wireguard ≡ some (P.settings g.policy, rows))
    pub routes : routed ≡ true
    pub text : String
    pub on_disk : config ≡ some text
    pub running : runtime ≡ some text
    pub built : Built g text

  abbrev pub Served : World P → Generation P → Type 0
  Served w g = IsServed w.committed w.seed w.nft w.wireguard w.routed w.config w.runtime g

  -- The guard of wg0 keeps clients out, or all that serves them is of one generation.
  abbrev pub IsSafe : World P → Type 0
  IsSafe w = (w.closed ≡ true) ⊎ ((g : Generation P) × Served w g)

  -- The manifest on the disk says that the public listeners are open.
  abbrev pub IsUnguarded : World P → Type 0
  IsUnguarded w =
      (m : Manifest) × (read_manifest P.outside w.manifest ≡ found m) × (m.guarded ≡ false)

  abbrev pub applied : World P → Generation P
  applied w = record { policy = w.base; lists = w.contents }

  -- When the gate is sure and the manifest is open, what is served is what the gate has as applied.
  abbrev pub IsSure : World P → Type 0
  IsSure w = w.uncertain ≡ false → IsUnguarded w → Served w (applied w)

  -- What holds of every world that a publication passes through.
  abbrev pub IsCoherent : World P → Type 0
  IsCoherent w = IsSafe w × IsSure w

  -- What holds between publications.
  abbrev pub IsRest : World P → Type 0
  IsRest w = IsCoherent w × (w.uncertain ≡ false → IsUnguarded w → w.closed ≡ false)

  -- A coherent world, of which the gate is not sure.
  abbrev pub IsUnsure : World P → Type 0
  IsUnsure w = IsCoherent w × (w.uncertain ≡ true)

  -- The guard of wg0 is closed, and the gate is not sure.
  abbrev pub IsShut : World P → Type 0
  IsShut w = (w.closed ≡ true) × (w.uncertain ≡ true)

  -- After an error of the kind `guarded` from an artifact, the gate is unsure.
  abbrev pub Unsure : Error → World P → Type 0
  Unsure e v = (e ≡ guarded) × IsUnsure v

  -- An error of stagePublic: a busy port is found before anything is written.
  abbrev pub Unstaged : World P → Error → World P → Type 0
  Unstaged w e v = ((e ≡ port_busy) × (v ≡ w)) ⊎ ((e ≡ guarded) × IsCoherent v)

  -- A coherent world with the configuration and the runtime of another.
  abbrev pub IsFramed : World P → World P → Type 0
  IsFramed w v = IsCoherent v × (v.config ≡ w.config) × (v.runtime ≡ w.runtime)

  abbrev pub IsStaged : World P → Unit {0} → World P → Type 0
  IsStaged w _ v = IsFramed w v

-- normalizeManifest keeps the mark.
pub normalize_manifest-guarded :
    (d : Digest) (ip : Netip) (m n : Manifest)
    → normalize_manifest d ip m ≡ some n
    → n.guarded ≡ m.guarded
unfolding normalize_manifest
normalize_manifest-guarded d ip m n h = ground arith

read_manifest-guarded :
    (o : Outside) (n k : Manifest) → read_manifest o (found n) ≡ found k → k.guarded ≡ n.guarded
unfolding read_manifest
read_manifest-guarded o n k r = elim (Option-cases (normalize_manifest o.digest o.ip n)) [
  | inl bad ↦ let r' = rw (read_manifest, bad) at r in cc
  | inr (j, good) ↦
      let r' = rw (read_manifest, good) at r in
      ground (arith, normalize_manifest-guarded o.digest o.ip n j good)
]

-- A manifest that was written with the mark does not say that the listeners are open.
pub written-guarded :
    (o : Outside) (m n : Manifest)
    → m.guarded ≡ true
    → normalize_manifest o.digest o.ip m ≡ some n
    → ¬ ((k : Manifest) × (read_manifest o (found n) ≡ found k) × (k.guarded ≡ false))
written-guarded o m n g e = λ (k, r, open_mark).
    cc (read_manifest-guarded o n k r, normalize_manifest-guarded o.digest o.ip m n e)

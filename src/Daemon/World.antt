-- ===== src/Daemon/World.antt =====
-- cmd/razdachad/network_generation.go: what a publication changes, on the disk, in the kernel and in
-- the gate, and how its steps are joined.
pub mod Post
use razdacha.Prelude.{
  ℕ, ◌≡◌, Bool, true, false, List, [], ◌∷◌, ◌++◌, Option, none, some, String, if◌then◌else◌,
}
use razdacha.Store.Model.{Peer}
use razdacha.Ingress.Endpoints.{Endpoint}
use razdacha.Ingress.Manifest.{Manifest}
use razdacha.Ingress.Startup.{
  Outside, Reading, found, absent, unreadable, Outcome, done, broken, refused,
}

-- lists.Source: `plain` says that the format is the plain one.
pub record Source : Type 0 where
  pub url : String
  pub plain : Bool

-- The types and functions of the program that the gate calls. `Policy` is store.Snapshot, `Content`
-- lists.List and `Live` store.RealityRuntime. `prepare` is Prepare or PrepareRecovery, with the bytes
-- of the checked configuration; the two tests are reflect.DeepEqual; `valid` is validateWGPolicy, and
-- `settings` the settings of a Snapshot.
pub record Program : Type 1 where
  pub outside : Outside
  pub Policy : Type 0
  pub Content : Type 0
  pub Live : Type 0
  pub sources : Policy → List Source
  pub is_native : Content → Bool
  pub prepare : Live → Policy → List (String × Content) → Option String
  pub same_policy : Policy → Policy → Bool
  pub same_contents : List (String × Content) → List (String × Content) → Bool
  pub valid : Policy → Bool
  pub Settings : Type 0
  pub settings : Policy → Settings

module _ (P : Program) where
  -- networkstate.Generation, without its kind and its version.
  pub record Generation : Type 0 where
    pub policy : P.Policy
    pub lists : List (String × P.Content)

  -- The disk: the record of the committed generation, whether the seed of the installation is there,
  -- the configuration of the runtime and the manifest of the public listeners. The kernel: whether
  -- the guard of the interface wg0 is closed, the public listeners that are dropped, WireGuard with the
  -- settings and the rows of peers that it was configured with, routing and nftables; a part that a
  -- failed call may have left half done is `none`. What the runtime runs. The gate itself.
  pub record World : Type 0 where
    pub committed : Option Generation
    pub seed : Bool
    pub config : Option String
    pub manifest : Reading Manifest
    pub closed : Bool
    pub dropped : List Endpoint
    pub wireguard : Option (P.Settings × List Peer)
    pub routed : Bool
    pub nft : Option Generation
    pub runtime : Option String
    pub base : P.Policy
    pub contents : List (String × P.Content)
    pub initialized : Bool
    pub uncertain : Bool

-- The errors that callers tell apart: errPublicPortBusy, and those before and after the first change.
pub data Error : Type 0 where
  port_busy rejected guarded : Error

pub data Result (A : Type 0) : Type 0 where
  ok : A → Result A
  err : Error → Result A

-- A run of a part of the code: the worlds after each of its changes, the last world, the result.
pub record Run (P : Program) (A : Type 0) : Type 0 where
  pub visited : List (World P)
  pub last : World P
  pub result : Result A

abbrev pub M : Program → Type 0 → Type 0
M P A = World P → Run P A

module _ {P : Program} where
  abbrev pub pure : {A : Type 0} → A → M P A
  pure a w = record { visited = []; last = w; result = ok a }

  abbrev pub fail : {A : Type 0} → Error → M P A
  fail e w = record { visited = []; last = w; result = err e }

  -- The run that goes on from a result.
  unfoldable pub proceed : {A B : Type 0} → Run P A → (A → M P B) → Run P B
  proceed r f = elim r.result [
    | ok a ↦
        let s = f a r.last in
        record { visited = r.visited ++ s.visited; last = s.last; result = s.result }
    | err e ↦ record { visited = r.visited; last = r.last; result = err e }
  ]

  infixl 5 ◌>>=◌ ◌>>◌
  abbrev pub ◌>>=◌ : {A B : Type 0} → M P A → (A → M P B) → M P B
  ◌>>=◌ m f w = proceed (m w) f

  abbrev pub ◌>>◌ : {A B : Type 0} → M P A → M P B → M P B
  m >> k = m >>= λ _. k

  abbrev pub read : {B : Type 0} → (World P → B) → M P B
  read f w = record { visited = []; last = w; result = ok (f w) }

  -- A change that cannot fail.
  unfoldable pub change : (World P → World P) → M P (Unit {0})
  change f w = let w' = f w in record { visited = w' ∷ []; last = w'; result = ok tt }

  -- A call that changes something outside: `f` if it succeeds, `g` if its error leaves it done or half
  -- done. It returns whether it succeeded.
  unfoldable pub attempt : Outcome → (World P → World P) → (World P → World P) → M P Bool
  attempt done f g w = record { visited = f w ∷ []; last = f w; result = ok true }
  attempt broken f g w = record { visited = g w ∷ []; last = g w; result = ok false }
  attempt refused f g w = record { visited = []; last = w; result = ok false }

  -- What is done when `m` fails.
  unfoldable pub recover : {A : Type 0} → Run P A → (Error → M P A) → Run P A
  recover r f = elim r.result [
    | ok a ↦ r
    | err e ↦
        let s = f e r.last in
        record { visited = r.visited ++ s.visited; last = s.last; result = s.result }
  ]

  abbrev pub otherwise : {A : Type 0} → M P A → (Error → M P A) → M P A
  otherwise m f w = recover (m w) f

  -- `if err != nil { return err }`.
  unfoldable pub require : Error → Bool → M P (Unit {0})
  require e b w = record { visited = []; last = w; result = if b then ok tt else err e }

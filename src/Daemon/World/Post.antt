-- ===== src/Daemon/World/Post.antt =====
-- cmd/razdachad/network_generation.go: statements on a run, with a rule for each way to go on.
use razdacha.Prelude.{◌≡◌, refl, Bool, true, false, List, [], ◌∷◌, ◌++◌}
use razdacha.Ingress.Startup.{Outcome, done, broken, refused}
use razdacha.Daemon.World.{
  Program, World, Error, Result, ok, err, Run, M, proceed, recover, change, attempt, require,
}

abbrev pub Each : {A : Type 0} → (A → Type 0) → List A → Type 0
Each I [] = Unit
Each I (w ∷ ws) = I w × Each I ws

pub Each-append :
    {A : Type 0} (I : A → Type 0) (xs ys : List A) → Each I xs → Each I ys → Each I (xs ++ ys)
Each-append I [] ys h k = k
Each-append I (x ∷ xs) ys h k = (h.0, Each-append I xs ys h.1 k)

pub Each-map :
    {A : Type 0} (I J : A → Type 0) → ((w : A) → I w → J w) → (xs : List A) → Each I xs → Each J xs
Each-map I J f [] h = tt
Each-map I J f (x ∷ xs) h = (f x h.0, Each-map I J f xs h.1)

module _ {P : Program} where
  abbrev pub Ends :
      {A : Type 0}
      → (A → World P → Type 0)
      → (Error → World P → Type 0)
      → Result A
      → World P
      → Type 0
  Ends Q E (ok a) w = Q a w
  Ends Q E (err e) w = E e w

  -- `I` holds of every world that is passed through, `Q` of the result and the last world, and `E` of
  -- an error and the last world.
  pub record Post {A : Type 0} (I : World P → Type 0) (Q : A → World P → Type 0)
      (E : Error → World P → Type 0) (r : Run P A) : Type 0 where
    pub passed : Each I r.visited
    pub ends : Ends Q E r.result r.last

  pub proceed-Post :
      {A B : Type 0} (I : World P → Type 0) (R : A → World P → Type 0) (Q : B → World P → Type 0)
      (E : Error → World P → Type 0) (r : Run P A) (f : A → M P B)
      → Post I R E r
      → ((a : A) (w : World P) → R a w → Post I Q E (f a w))
      → Post I Q E (proceed r f)
  unfolding proceed
  proceed-Post {A} {B} I R Q E r f h k = go r.visited r.last r.result h.passed h.ends
    where
      go :
          (vs : List (World P)) (w : World P) (res : Result A)
          → Each I vs
          → Ends R E res w
          → Post I Q E (proceed (record { visited = vs; last = w; result = res }) f)
      go vs w (ok a) p e = record {
        passed = Each-append I vs _ p (k a w e).passed;
        ends = (k a w e).ends;
      }
      go vs w (err x) p e = record { passed = p; ends = e }

  pub recover-Post :
      {A : Type 0} (I : World P → Type 0) (Q : A → World P → Type 0)
      (E F : Error → World P → Type 0) (r : Run P A) (f : Error → M P A)
      → Post I Q F r
      → ((e : Error) (w : World P) → F e w → Post I Q E (f e w))
      → Post I Q E (recover r f)
  unfolding recover
  recover-Post {A} I Q E F r f h k = go r.visited r.last r.result h.passed h.ends
    where
      go :
          (vs : List (World P)) (w : World P) (res : Result A)
          → Each I vs
          → Ends Q F res w
          → Post I Q E (recover (record { visited = vs; last = w; result = res }) f)
      go vs w (ok a) p e = record { passed = p; ends = e }
      go vs w (err x) p e = record {
        passed = Each-append I vs _ p (k x w e).passed;
        ends = (k x w e).ends;
      }

  -- What is weaker than what is known holds too.
  pub Post-weaken :
      {A : Type 0} (I J : World P → Type 0) (Q R : A → World P → Type 0)
      (E F : Error → World P → Type 0) (r : Run P A)
      → ((w : World P) → I w → J w)
      → ((a : A) (w : World P) → Q a w → R a w)
      → ((e : Error) (w : World P) → E e w → F e w)
      → Post I Q E r
      → Post J R F r
  Post-weaken {A} I J Q R E F r i q e h = record {
    passed = Each-map I J i r.visited h.passed;
    ends = go r.result h.ends;
  }
    where
      go : (res : Result A) → Ends Q E res r.last → Ends R F res r.last
      go (ok a) x = q a r.last x
      go (err x) y = e x r.last y

  pub change-Post :
      (I : World P → Type 0) (Q : Unit {0} → World P → Type 0) (E : Error → World P → Type 0)
      (f : World P → World P) (w : World P)
      → I (f w)
      → Q tt (f w)
      → Post I Q E (change f w)
  unfolding change
  change-Post I Q E f w i q = record { passed = (i, tt); ends = q }

  pub attempt-Post :
      (I : World P → Type 0) (Q : Bool → World P → Type 0) (E : Error → World P → Type 0)
      (o : Outcome) (f g : World P → World P) (w : World P)
      → I (f w)
      → I (g w)
      → Q true (f w)
      → Q false (g w)
      → Q false w
      → Post I Q E (attempt o f g w)
  unfolding attempt
  attempt-Post I Q E done f g w i j p q r = record { passed = (i, tt); ends = p }
  attempt-Post I Q E broken f g w i j p q r = record { passed = (j, tt); ends = q }
  attempt-Post I Q E refused f g w i j p q r = record { passed = tt; ends = r }

  pub require-Post :
      (I : World P → Type 0) (Q : Unit {0} → World P → Type 0) (E : Error → World P → Type 0)
      (e : Error) (b : Bool) (w : World P)
      → (b ≡ true → Q tt w)
      → (b ≡ false → E e w)
      → Post I Q E (require e b w)
  unfolding require
  require-Post I Q E e true w q x = record { passed = tt; ends = q refl }
  require-Post I Q E e false w q x = record { passed = tt; ends = x refl }

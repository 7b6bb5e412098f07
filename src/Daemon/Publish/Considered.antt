-- ===== src/Daemon/Publish/Considered.antt =====
-- cmd/razdachad/network_generation.go: the part of publish that changes nothing.
use razdacha.Prelude.{
  Bool-cases, Option-cases, inl, inr, ◌≡◌, refl, Bool, ◌&&◌, Option, none, some, if◌then◌else◌,
}
use razdacha.Daemon.World.{Program, World, Error, rejected, read, proceed, require}
use razdacha.Daemon.World.Post.{Post}
use razdacha.Daemon.Publish.{Answers, Check, Plan, select, plan_for, consider, lift}

module _ {P : Program} where
  pub lift-Post :
      {A : Type 0} (I : World P → Type 0) (Q : A → World P → Type 0) (E : Error → World P → Type 0)
      (e : Error) (o : Option A) (w : World P)
      → ((x : A) → o ≡ some x → Q x w)
      → (o ≡ none → E e w)
      → Post I Q E (lift e o w)
  lift-Post I Q E e none w q f = record { passed = tt; ends = f refl }
  lift-Post I Q E e (some x) w q f = record { passed = tt; ends = q x refl }

  pub read-Post :
      {A : Type 0} (I : World P → Type 0) (Q : A → World P → Type 0) (E : Error → World P → Type 0)
      (f : World P → A) (w : World P)
      → Q (f w) w
      → Post I Q E (read f w)
  read-Post I Q E f w q = record { passed = tt; ends = q }

  -- The lists that a publication selects, and the configuration that it prepares.
  abbrev pub Considered : Answers P → P.Policy → Bool → World P → Plan P → Type 0
  Considered a policy recovery w plan =
      (plan ≡ plan_for a policy plan.selected plan.config w)
      × (select a (if recovery then w.contents else a.loaded) (P.sources policy)
          ≡ some plan.selected)
      × (P.prepare a.live policy plan.selected ≡ some plan.config)

  -- An error of this part is of the kind `rejected`, and nothing has changed.
  abbrev pub Untouched : World P → Error → World P → Type 0
  Untouched w e v = (e ≡ rejected) × (v ≡ w)

  pub consider-Post :
      (I : World P → Type 0) (a : Answers P) (policy : P.Policy) (recovery : Bool) (w : World P)
      → Post I
          (λ plan v. (v ≡ w) × Considered a policy recovery w plan)
          (Untouched w)
          (consider a policy recovery w)
  unfolding consider proceed require plan_for
  consider-Post I a policy recovery w =
      elim (Bool-cases (a.passes Check.copy && P.valid policy && a.passes Check.ask_wireguard)) [
        | inr bad ↦ rw bad (record { passed = tt; ends = (refl, refl) })
        | inl fine ↦
            elim (Option-cases
              (select a (if recovery then w.contents else a.loaded) (P.sources policy))) [
                | inl bad ↦ rw (fine, bad) (record { passed = tt; ends = (refl, refl) })
                | inr (selected, e) ↦
                    elim (Bool-cases (a.passes Check.ask_store && a.passes Check.ask_addresses)) [
                      | inr bad ↦ rw (fine, e, bad) (record { passed = tt; ends = (refl, refl) })
                      | inl asked ↦ elim (Option-cases (P.prepare a.live policy selected)) [
                        | inl bad ↦
                            rw (fine, e, asked, bad) (record { passed = tt; ends = (refl, refl) })
                        | inr (config, f) ↦
                            rw (fine, e, asked, f)
                              (record { passed = tt; ends = (refl, (refl, refl, f)) })
                      ]
                    ]
              ]
      ]

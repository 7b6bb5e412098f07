-- ===== src/Daemon/Revocation/Settled.antt =====
-- cmd/razdachad/reality.go: how the three operations end.
use razdacha.Prelude.{
  ◌≡◌, ◌≢◌, ◌⊎◌, inl, inr, refl, sym, ◌∙◌, ap, subst, Bool, true, false, List, [], none, some,
  arith,
}
use razdacha.Ingress.Endpoints.{IsLawful}
use razdacha.Store.Model.{Error, Result, ok, err}
use razdacha.Store.Db.{Db}
use razdacha.Daemon.World
use razdacha.Daemon.World.{Program, World, guarded}
use razdacha.Daemon.World.Post.{Each, Each-append, Each-map}
use razdacha.Daemon.Publish.{Answers, publish}
use razdacha.Daemon.Publish.Serving.{IsRest, IsSafe, IsCoherent}
use razdacha.Daemon.Publish.Coherent.{publish-served, publish-refused, publish-IsRest}
use razdacha.Daemon.Publish.Settling.{HasDeepEqual, ServesAsked, publish-Post}
use razdacha.Daemon.Revocation.{
  Failure, not_closed, still_guarded, Request, Operation, close_for_revocation, refuse,
  left_guarded, reading, ask_store, under_guard, without_value, handle,
}
use razdacha.Daemon.Revocation.Closed.{
  IsClosedOff, Held, close_for_revocation-Post, Closes-IsClosedOff, Closes-base, Closes-Held,
  Held-IsRest,
}
use razdacha.Daemon.Revocation.Handled.{handle_any, under_guard_cases}

left_guarded-none : (r : World.Result (Unit {0})) → left_guarded r ≡ none → r ≡ World.ok tt
unfolding left_guarded
left_guarded-none (World.ok _) h = refl
left_guarded-none (World.err e) h = cc

left_guarded-some :
    (r : World.Result (Unit {0})) (f : Failure)
    → left_guarded r ≡ some f
    → (f ≡ still_guarded) × ((e : World.Error) × (r ≡ World.err e))
unfolding left_guarded
left_guarded-some (World.ok _) f h = cc
left_guarded-some (World.err e) f h = (ground arith, (e, refl))

-- A publication that starts with the gate unsure has configured WireGuard.
configured :
    {P : Program} (a : Answers P) (policy : P.Policy) (v last : World P)
    → v.uncertain ≡ true
    → ServesAsked a policy true v last
    → last.wireguard ≡ some (P.settings policy, a.rows)
configured a policy v last u served = elim served.3 [
  | inl same ↦
      let sure : last.uncertain ≡ true = ap (λ (t : World _). t.uncertain) same ∙ u in
      absurd (cc (sure, served.0))
  | inr rows ↦ rows
]

module _ {P : Program} (closing : Answers P) (after : Db → Answers P) where
  -- What is left where the operation fails, and where it does not.
  abbrev pub FailsClean : Db → Operation P (Unit {0}) → Type 0
  FailsClean db r =
      (f : Failure)
      → r.failure ≡ some f
      → (r.db ≡ db) ⊎ ((f ≡ still_guarded) × (r.last.uncertain ≡ true))

  abbrev pub Reconciled : World P → Operation P (Unit {0}) → World P → Type 0
  Reconciled w r v =
      (r.asked ≡ some v)
      × IsClosedOff v
      × (v.base ≡ w.base)
      × ServesAsked (reading after r.db) w.base true v r.last
      × (r.last.wireguard ≡ some (P.settings w.base, r.db.peers))

  abbrev pub Serves : World P → Operation P (Unit {0}) → Type 0
  Serves w r =
      r.failure ≡ none → ((r.asked ≡ some w) × (r.last ≡ w)) ⊎ ((v : World P) × Reconciled w r v)

  pub record IsSettled (w : World P) (db : Db) (r : Operation P (Unit {0})) : Type 0 where
    pub passed : Each IsSafe r.visited
    pub rest : IsRest r.last
    pub clean : FailsClean db r
    pub serves : Serves w r

  module _ (lawful : IsLawful P.outside.ip) (equal : HasDeepEqual P) (w : World P) (h : IsRest w)
      (db : Db) where
    refuse-IsSettled : (e : Error) → IsSettled w db (refuse e w db)
    unfolding refuse
    refuse-IsSettled e = record { passed = tt; rest = h; clean = λ f p. inl refl; serves = λ p. cc }

    asked_quietly-IsSettled :
        {A : Type 0} (t : Result A × Db)
        → ((e : Error) → t.0 ≡ err e → t.1 ≡ db)
        → IsSettled w db (without_value (ask_store closing after false [] w t))
    unfolding without_value ask_store
    asked_quietly-IsSettled (ok x, db') k = record {
      passed = tt;
      rest = h;
      clean = λ f p. cc;
      serves = λ p. inl (refl, refl);
    }
    asked_quietly-IsSettled (err e, db') k = record {
      passed = tt;
      rest = h;
      clean = λ f p. inl (k e refl);
      serves = λ p. cc;
    }

    unsure :
        (v : World P) {x : World.Error} {u : World P}
        → IsClosedOff v
        → ((x ≢ guarded) × (u ≡ v)) ⊎ ((x ≡ guarded) × (u.uncertain ≡ true))
        → u.uncertain ≡ true
    unsure v off (inl (n, e)) = ap (λ (t : World P). t.uncertain) e ∙ off.unsure
    unsure v off (inr (g, e)) = e

    asked_closed-IsSettled :
        {A : Type 0} (vs : List (World P)) (v : World P) (t : Result A × Db)
        → Each IsSafe vs
        → IsRest v
        → IsClosedOff v
        → v.base ≡ w.base
        → ((e : Error) → t.0 ≡ err e → t.1 ≡ db)
        → IsSettled w db (without_value (ask_store closing after true vs v t))
    unfolding without_value ask_store
    asked_closed-IsSettled vs v (err e, db') s r off base k = record {
      passed = s;
      rest = r;
      clean = λ f p. inl (k e refl);
      serves = λ p. cc;
    }
    asked_closed-IsSettled vs v (ok x, db') s r off base k =
        let a = reading after db' in
        record {
          passed = Each-append IsSafe vs _ s (
              Each-map IsCoherent IsSafe (λ u i. i.0) (publish a v.base true false v).visited
                (publish-Post a v.base true false v r equal).passed);
          rest = publish-IsRest a equal v.base true false v r;
          clean = λ f p.
              let (q, (e, bad)) = left_guarded-some (publish a v.base true false v).result f p in
              inr (q, unsure v off (publish-refused a equal v.base true false v r e bad));
          serves = λ p.
              let served0 =
                publish-served a equal v.base true false v r
                  (left_guarded-none (publish a v.base true false v).result p) in
              let served =
                subst (λ b. ServesAsked a b true v (publish a v.base true false v).last) base
                  served0 in
              let kernel =
                configured a w.base v (publish a v.base true false v).last off.unsure served in
              inr (v, (refl, off, base, served, kernel));
        }

    closing-IsSafe : Each IsSafe (close_for_revocation closing w).visited
    closing-IsSafe =
        Each-map (Held closing w) IsSafe (λ v k. (Held-IsRest closing w v h k).0.0) _
          (close_for_revocation-Post closing w).passed

    not_closed-IsSettled :
        (A : Type 0) (e : World.Error) (v : World P)
        → Held closing w v
        → IsSettled w db (
            without_value {A = A} (record {
              visited = (close_for_revocation closing w).visited;
              asked = none;
              last = v;
              db = db;
              value = none;
              failure = some (not_closed e);
            }))
    unfolding without_value
    not_closed-IsSettled A e v b = record {
      passed = closing-IsSafe;
      rest = Held-IsRest closing w v h b;
      clean = λ f p. inl refl;
      serves = λ p. cc;
    }

    under_guard-IsSettled :
        {A : Type 0} (revoke : Bool) (write : Db → Result A × Db)
        → ((e : Error) → (write db).0 ≡ err e → (write db).1 ≡ db)
        → IsSettled w db (without_value (under_guard closing after revoke write w db))
    unfolding under_guard
    under_guard-IsSettled false write k = asked_quietly-IsSettled (write db) k
    under_guard-IsSettled {A} true write k =
        let v = (close_for_revocation closing w).last in
        elim (under_guard_cases closing after write w db) [
          | inl (e, b, q) ↦
              subst (λ (r : Operation P A). IsSettled w db (without_value r)) (sym q)
                (not_closed-IsSettled A e v b)
          | inr (b, q) ↦
              subst (λ (r : Operation P A). IsSettled w db (without_value r)) (sym q)
                (asked_closed-IsSettled _ v (write db) closing-IsSafe
                  (Held-IsRest closing w v h (Closes-Held closing w v b))
                  (Closes-IsClosedOff closing w lawful v b) (Closes-base closing w v b) k)
        ]

    pub handle-IsSettled : (request : Request) → IsSettled w db (handle closing after request w db)
    handle-IsSettled =
        handle_any closing after (IsSettled w db) w db refuse-IsSettled
          (λ A revoke write clean keeps. under_guard-IsSettled revoke write clean)

    -- An operation that fails has left the database as it was, or its change was made, what was left
    -- could not be published, and the gate is not sure.
    pub handle-clean :
        (request : Request) (f : Failure)
        → (handle closing after request w db).failure ≡ some f
        → ((handle closing after request w db).db ≡ db)
          ⊎ ((f ≡ still_guarded) × ((handle closing after request w db).last.uncertain ≡ true))
    handle-clean request = (handle-IsSettled request).clean

-- ===== src/Clash/Connections/Totals.antt =====
-- internal/clash/connections.go: the observations are the totals of the rows of each user.
use razdacha.Prelude.{
  arith, ℕ, suc, ◌+◌, ◌≤◌, ◌≡◌, refl, sym, ◌∙◌, inl, inr, ◌⊎◌, subst, ap, Bool, true, false, ◌&&◌,
  ◌||◌, List, [], ◌∷◌, Option, none, some, String, ◌==◌, eq_iff, any, length, ltb, if◌then◌else◌,
  Bool-cases, Option-cases,
}
use razdacha.Store.Text.{contains}
use razdacha.Clash.Connections.{
  max_connection_flows, max_int64, reality_inbound, Counter, missing, invalid, bytes, Connection,
  Observation, add_connection_bytes, observation_of, known, with_connection, Sort, unreadable,
  other, of_user, sort_of, observe_from, reality_connections,
}

-- A sum with one more counter; it is not known once a counter is not.
unfoldable pub plus : Option ℕ → Counter → Option ℕ
plus sum missing = none
plus sum invalid = none
plus none (bytes value) = none
plus (some sum) (bytes value) = some (sum + value)

unfoldable pub with_row : Observation → Connection → Observation
with_row o c = record {
  open_flows = suc o.open_flows;
  open_upload_bytes = plus o.open_upload_bytes c.upload;
  open_download_bytes = plus o.open_download_bytes c.download;
}

abbrev AtMost : Option ℕ → Type 0
AtMost none = Unit {0}
AtMost (some sum) = sum ≤ max_int64

-- No sum is above the largest int64.
abbrev pub IsBounded : Observation → Type 0
IsBounded o = AtMost o.open_upload_bytes × AtMost o.open_download_bytes

add_connection_bytes-plus :
    (sum : Option ℕ) (c : Counter) (r : Option ℕ)
    → AtMost sum
    → add_connection_bytes sum c ≡ some r
    → (r ≡ plus sum c) × AtMost (plus sum c)
unfolding add_connection_bytes plus
add_connection_bytes-plus sum missing r h e = (ground arith, tt)
add_connection_bytes-plus sum invalid r h e = cc
add_connection_bytes-plus none (bytes v) r h e = (ground arith, tt)
add_connection_bytes-plus (some s) (bytes v) r h e = (ground arith, ground arith)

with_connection-with_row :
    (o : Observation) (c : Connection) (r : Observation)
    → IsBounded o
    → with_connection o c ≡ some r
    → (r ≡ with_row o c) × IsBounded (with_row o c)
unfolding with_connection with_row
with_connection-with_row o c r h e =
    elim (Option-cases (add_connection_bytes o.open_upload_bytes c.upload)) [
      | inl bad ↦ let e' = rw (with_connection, bad) at e in cc
      | inr (up, good) ↦
          elim (Option-cases (add_connection_bytes o.open_download_bytes c.download)) [
            | inl bad ↦ let e' = rw (with_connection, good, bad) at e in cc
            | inr (down, fine) ↦
                let e' = rw (with_connection, good, fine) at e in
                let (p, b) = add_connection_bytes-plus o.open_upload_bytes c.upload up h.0 good in
                let (q, d) =
                  add_connection_bytes-plus o.open_download_bytes c.download down h.1 fine in
                (ground arith, (b, d))
          ]
    ]

Sort-cases : (s : Sort) → (s ≡ unreadable) ⊎ ((s ≡ other) ⊎ ((v : String) × (s ≡ of_user v)))
Sort-cases unreadable = inl refl
Sort-cases other = inr (inl refl)
Sort-cases (of_user v) = inr (inr (v, refl))

observation_of-same :
    (v u : String) (o : Observation) (obs : List (String × Observation))
    → (v == u) ≡ true
    → observation_of ((v, o) ∷ obs) u ≡ some o
unfolding observation_of
observation_of-same v u o obs h = rw h

observation_of-other :
    (v u : String) (o : Observation) (obs : List (String × Observation))
    → (v == u) ≡ false
    → observation_of ((v, o) ∷ obs) u ≡ observation_of obs u
unfolding observation_of
observation_of-other v u o obs h = rw h

module _ (user_of : String → Option String) where
  -- A row of the inbound for authenticated users, whose rule names the user.
  unfoldable pub belongs : String → Connection → Bool
  belongs user c = elim c.kind [
    | none ↦ false
    | some kind ↦
        kind == reality_inbound && (elim (user_of c.rule) [ none ↦ false | some u ↦ u == user ])
  ]

  -- The totals of a user: a plain recursion over the rows.
  unfoldable pub tally : String → Observation → List Connection → Observation
  tally user o [] = o
  tally user o (c ∷ cs) = tally user (if belongs user c then with_row o c else o) cs

  unfoldable pub observed : String → Option Observation → List Connection → Option Observation
  observed user before cs =
      if any (belongs user) cs then some (tally user (known before) cs) else before

  sort_of-other :
      (seen : List String) (c : Connection) (user : String)
      → sort_of user_of seen c ≡ other
      → belongs user c ≡ false
  unfolding sort_of belongs
  sort_of-other seen c user h = elim (Option-cases c.kind) [
    | inl gone ↦ rw gone
    | inr (kind, e) ↦ elim (Bool-cases (kind == reality_inbound)) [
      | inr no_match ↦ rw (e, no_match)
      | inl same ↦
          let h' = rw (sort_of, e, same) at h in
          elim (Bool-cases (c.id == "" || contains seen c.id)) [
            | inl bad ↦ let h'' = rw bad at h' in cc
            | inr fresh ↦ elim (Option-cases (user_of c.rule)) [
              | inl bad ↦ let h'' = rw (fresh, bad) at h' in cc
              | inr (u, found_user) ↦ let h'' = rw (fresh, found_user) at h' in cc
            ]
          ]
    ]
  ]

  sort_of-user :
      (seen : List String) (c : Connection) (user v : String)
      → sort_of user_of seen c ≡ of_user v
      → belongs user c ≡ (v == user)
  unfolding sort_of belongs
  sort_of-user seen c user v h = elim (Option-cases c.kind) [
    | inl gone ↦ let h' = rw (sort_of, gone) at h in cc
    | inr (kind, e) ↦ elim (Bool-cases (kind == reality_inbound)) [
      | inr no_match ↦ let h' = rw (sort_of, e, no_match) at h in cc
      | inl same ↦
          let h' = rw (sort_of, e, same) at h in
          elim (Bool-cases (c.id == "" || contains seen c.id)) [
            | inl bad ↦ let h'' = rw bad at h' in cc
            | inr fresh ↦ elim (Option-cases (user_of c.rule)) [
              | inl bad ↦ let h'' = rw (fresh, bad) at h' in cc
              | inr (u, found_user) ↦
                  let h'' = rw (fresh, found_user) at h' in rw (e, same, found_user) (ground arith)
            ]
          ]
    ]
  ]

  tally-none :
      (user : String) (o : Observation) (cs : List Connection)
      → any (belongs user) cs ≡ false
      → tally user o cs ≡ o
  unfolding tally any
  tally-none user o [] h = refl
  tally-none user o (c ∷ cs) h = ground (arith, tally-none user o cs)

  -- The rows of a user after a row of the same user, and after another.
  observed-own :
      (user : String) (before : Option Observation) (o : Observation) (c : Connection)
      (cs : List Connection)
      → belongs user c ≡ true
      → o ≡ with_row (known before) c
      → observed user (some o) cs ≡ observed user before (c ∷ cs)
  unfolding observed tally any
  observed-own user before o c cs b e = elim (Bool-cases (any (belongs user) cs)) [
    | inl more ↦ rw (b, more) (ap (λ t. some (tally user t cs)) e)
    | inr gone ↦
        rw (b, gone) (ap some (e ∙ sym (tally-none user (with_row (known before) c) cs gone)))
  ]

  observed-other :
      (user : String) (before : Option Observation) (c : Connection) (cs : List Connection)
      → belongs user c ≡ false
      → observed user before cs ≡ observed user before (c ∷ cs)
  unfolding observed tally any
  observed-other user before c cs b = rw b

  observed-nil : (user : String) (before : Option Observation) → before ≡ observed user before []
  unfolding observed any
  observed-nil user before = refl

  abbrev AllBounded : List (String × Observation) → Type 0
  AllBounded obs = (v : String) → IsBounded (known (observation_of obs v))

  Observed : List (String × Observation) → String → Option Observation → List Connection → Type 0
  Observed out user before cs =
      (observation_of out user ≡ observed user before cs)
      × IsBounded (known (observation_of out user))

  observe_from-Observed :
      (seen : List String) (obs : List (String × Observation)) (cs : List Connection)
      (out : List (String × Observation)) (user : String)
      → AllBounded obs
      → observe_from user_of seen obs cs ≡ some out
      → Observed out user (observation_of obs user) cs
  unfolding observe_from Observed
  observe_from-Observed seen obs [] out user h e =
      let p : obs ≡ out = ground arith in
      (
        ap (λ l. observation_of l user) (sym p) ∙ observed-nil user (observation_of obs user),
        subst (λ l. IsBounded (known (observation_of l user))) p (h user),
      )
  observe_from-Observed seen obs (c ∷ cs) out user h e =
      elim (Sort-cases (sort_of user_of seen c)) [
        | inl bad ↦ let e' = rw (observe_from, bad) at e in cc
        | inr (inl skipped) ↦
            let e' = rw (observe_from, skipped) at e in
            let (p, b) = observe_from-Observed seen obs cs out user h e' in
            (
              p
                  ∙ observed-other user (observation_of obs user) c cs
                      (sort_of-other seen c user skipped),
              b,
            )
        | inr (inr (v, mine)) ↦
            elim (Option-cases (with_connection (known (observation_of obs v)) c)) [
              | inl bad ↦ let e' = rw (observe_from, mine, bad) at e in cc
              | inr (o, fine) ↦
                  let e' = rw (observe_from, mine, fine) at e in
                  let (q, k) =
                    with_connection-with_row (known (observation_of obs v)) c o (h v) fine in
                  let h' : AllBounded ((v, o) ∷ obs) = (λ x. elim (Bool-cases (v == x)) [
                    | inl same ↦
                        subst (λ t. IsBounded (known t)) (sym (observation_of-same v x o obs same))
                          (subst IsBounded (sym q) k)
                    | inr differs ↦
                        subst (λ t. IsBounded (known t))
                          (sym (observation_of-other v x o obs differs)) (h x)
                  ]) in
                  let (p, b) =
                    observe_from-Observed (c.id ∷ seen) ((v, o) ∷ obs) cs out user h' e' in
                  let mine' = sort_of-user seen c user v mine in
                  elim (Bool-cases (v == user)) [
                    | inl same ↦ (
                      p
                          ∙ ap (λ t. observed user t cs) (observation_of-same v user o obs same)
                          ∙ observed-own user (observation_of obs user) o c cs (mine' ∙ same) (
                              subst (λ t. o ≡ with_row (known (observation_of obs t)) c)
                                ((eq_iff v user).0 same) q),
                      b,
                    )
                    | inr differs ↦ (
                      p
                          ∙ ap (λ t. observed user t cs) (observation_of-other v user o obs differs)
                          ∙ observed-other user (observation_of obs user) c cs (mine' ∙ differs),
                      b,
                    )
                  ]
            ]
      ]

  nothing_bounded : AllBounded []
  unfolding observation_of
  nothing_bounded v = (omega arith, omega arith)

  -- Where RealityConnections returns a map, the answer had at most 4096 rows, a user is in the map exactly
  -- when a row is that user's, with the number of those rows and the sums of their counters, each not
  -- known where one of the counters is not; and no sum is above the largest int64.
  pub reality_connections-observed :
      (rows : List Connection) (out : List (String × Observation)) (user : String)
      → reality_connections user_of (some rows) ≡ some out
      → (observation_of out user ≡ observed user none rows)
        × IsBounded (known (observation_of out user))
        × (length rows ≤ max_connection_flows)
  unfolding reality_connections Observed observation_of
  reality_connections-observed rows out user e =
      elim (Bool-cases (ltb max_connection_flows (length rows))) [
        | inl many ↦ let e' = rw many at e in cc
        | inr few ↦
            let e' = rw few at e in
            let (p, b) = observe_from-Observed [] [] rows out user nothing_bounded e' in
            (p, b, ground arith)
      ]

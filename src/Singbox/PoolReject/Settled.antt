-- ===== src/Singbox/PoolReject/Settled.antt =====
-- internal/singbox/apply.go: the loop of prepare ends by itself, and refuses a configuration only
-- when the runtime names no server of a pool.
use razdacha.Prelude.{
  ℕ, zero, suc, ◌+◌, ◌≤◌, ◌<◌, ◌≡◌, refl, arith, Bool, true, List, [], ◌∷◌, Option, none, some,
  String, ◌==◌, eq_iff, length, ltb, ltb_iff, get_elem?, Bool-cases, Option-cases, inl, inr,
}
use razdacha.Store.Model.{PoolServer, Tunnel, source_pool}
use razdacha.Singbox.PoolReject.{
  RejectedMember, pool_members, without_url, without_pool_server, pool_server_count, Verdict,
  Environment, rejected_pool_member, Outcome, judge, prepare_loop, prepare,
}
use razdacha.Singbox.PoolReject.Removal.{
  HasUrl, IsPooled, Apart, Unique, last_entry-EntryOf, pool_members-IsPooled, none_not_some,
}

length-without_url_le :
    (url : String) (pool : List PoolServer) → length (without_url url pool) ≤ length pool
unfolding without_url
length-without_url_le url [] = omega arith
length-without_url_le url (s ∷ pool) = ground (arith, length-without_url_le url pool)

length-without_url_lt :
    (url : String) (pool : List PoolServer)
    → HasUrl url pool
    → length (without_url url pool) < length pool
unfolding without_url
length-without_url_lt url [] h = absurd h
length-without_url_lt url (s ∷ pool) (inl e) =
    ground (arith, eq_iff s.url url, length-without_url_le url pool)
length-without_url_lt url (s ∷ pool) (inr h) = ground (arith, length-without_url_lt url pool h)

Apart-IsPooled :
    (m : RejectedMember) (tunnels : List Tunnel)
    → Apart m.tunnel_id tunnels
    → IsPooled m tunnels
    → ⊥
Apart-IsPooled m [] a h = h
Apart-IsPooled m (t ∷ tunnels) a (inl (same, _, _)) = a.0 same
Apart-IsPooled m (t ∷ tunnels) a (inr h) = Apart-IsPooled m tunnels a.1 h

-- Taking out a server that is there leaves fewer.
count-without_pool_server :
    (m : RejectedMember) (tunnels : List Tunnel)
    → Unique tunnels
    → IsPooled m tunnels
    → pool_server_count (without_pool_server m.tunnel_id m.url tunnels) < pool_server_count tunnels
unfolding without_pool_server pool_server_count
count-without_pool_server m [] u h = absurd h
count-without_pool_server m (t ∷ tunnels) u (inl (same, source, there)) =
    rw ((eq_iff t.id m.tunnel_id).1 same, (eq_iff t.source source_pool).1 source)
      (omega (arith, length-without_url_lt m.url t.pool there))
count-without_pool_server m (t ∷ tunnels) u (inr h) = elim (Bool-cases (t.id == m.tunnel_id)) [
  | inl same ↦ absurd (Apart-IsPooled m tunnels (rw ((eq_iff t.id m.tunnel_id).0 same) at u.0) h)
  | inr other ↦ rw other (omega (arith, count-without_pool_server m tunnels u.1 h))
]

without_pool_server-Apart :
    (id url other : String) (tunnels : List Tunnel)
    → Apart other tunnels
    → Apart other (without_pool_server id url tunnels)
unfolding without_pool_server
without_pool_server-Apart id url other [] a = tt
without_pool_server-Apart id url other (t ∷ tunnels) a = elim (Bool-cases (t.id == id)) [
  | inl here ↦ rw here a
  | inr later ↦ rw later (a.0, without_pool_server-Apart id url other tunnels a.1)
]

without_pool_server-Unique :
    (id url : String) (tunnels : List Tunnel)
    → Unique tunnels
    → Unique (without_pool_server id url tunnels)
unfolding without_pool_server
without_pool_server-Unique id url [] u = tt
without_pool_server-Unique id url (t ∷ tunnels) u = elim (Bool-cases (t.id == id)) [
  | inl here ↦ rw here u
  | inr later ↦ rw later (
    without_pool_server-Apart id url t.id tunnels u.0,
    without_pool_server-Unique id url tunnels u.1,
  )
]

rejected_pool_member-IsPooled :
    (env : Environment) (outbounds : List String) (tunnels : List Tunnel) (named : Option ℕ)
    (m : RejectedMember)
    → rejected_pool_member env outbounds tunnels named ≡ some m
    → IsPooled m tunnels
unfolding rejected_pool_member
rejected_pool_member-IsPooled env outbounds tunnels none m h = absurd (none_not_some m h)
rejected_pool_member-IsPooled env outbounds tunnels (some i) m h =
    elim (Option-cases (get_elem? outbounds i)) [
      | inl outside ↦ absurd (none_not_some m (rw (outside, rejected_pool_member) at h))
      | inr (tag, inside) ↦ pool_members-IsPooled env.allows env.member_tag tunnels m (
          last_entry-EntryOf tag m (pool_members env.allows env.member_tag tunnels)
            (rw (inside, rejected_pool_member) at h))
    ]

-- A good end: the rounds were enough, and if the configuration was refused then the runtime named no
-- server of a pool of the last snapshot.
abbrev pub Settles : Environment → Outcome → Type 0
Settles env Outcome.out_of_rounds = ⊥
Settles env Outcome.failed = Unit
Settles env (Outcome.rejected tunnels outbounds named) =
    rejected_pool_member env outbounds tunnels named ≡ none
Settles env (Outcome.kept tunnels) = env.unchanged tunnels ≡ true
Settles env (Outcome.prepared tunnels) = env.check tunnels ≡ Verdict.accepted

judge-Settles :
    (env : Environment) (retry : List Tunnel → Outcome) (may_drop : Bool) (tunnels : List Tunnel)
    (outbounds : List String) (verdict : Verdict)
    → env.check tunnels ≡ verdict
    → ((m : RejectedMember)
        → IsPooled m tunnels
        → (may_drop ≡ true) × Settles env (retry (without_pool_server m.tunnel_id m.url tunnels)))
    → Settles env (judge env retry may_drop tunnels outbounds verdict)
unfolding judge
judge-Settles env retry may_drop tunnels outbounds Verdict.accepted e h = e
judge-Settles env retry may_drop tunnels outbounds (Verdict.refused named) e h =
    elim (Option-cases (rejected_pool_member env outbounds tunnels named)) [
      | inl other ↦ rw (other, judge) other
      | inr (m, pooled) ↦
          let (may, settled) =
            h m (rejected_pool_member-IsPooled env outbounds tunnels named m pooled) in
          rw (pooled, may, judge) settled
    ]

prepare_loop-Settles :
    (env : Environment) (rounds drop max_drops : ℕ) (tunnels : List Tunnel)
    → Unique tunnels
    → drop + pool_server_count tunnels ≤ max_drops
    → pool_server_count tunnels < rounds
    → Settles env (prepare_loop env rounds drop max_drops tunnels)
unfolding prepare_loop
prepare_loop-Settles env zero drop max_drops tunnels u h k = absurd (omega arith)
prepare_loop-Settles env (suc rounds) drop max_drops tunnels u h k =
    elim (Option-cases (env.generate tunnels)) [
      | inl broken ↦ rw (broken, prepare_loop) tt
      | inr (outbounds, built) ↦ elim (Bool-cases (env.unchanged tunnels)) [
        | inl same ↦ rw (built, same, prepare_loop) same
        | inr changed ↦
            rw (built, changed, prepare_loop)
              (judge-Settles env (prepare_loop env rounds (suc drop) max_drops) (ltb drop max_drops)
                tunnels outbounds (env.check tunnels) refl
                λ m pooled.
                  let fewer : pool_server_count (without_pool_server m.tunnel_id m.url tunnels)
                      < pool_server_count tunnels =
                    count-without_pool_server m tunnels u pooled in
                  (
                    (ltb_iff drop max_drops).1 (omega arith),
                    prepare_loop-Settles env rounds (suc drop) max_drops
                        (without_pool_server m.tunnel_id m.url tunnels)
                        (without_pool_server-Unique m.tunnel_id m.url tunnels u) (omega arith)
                        (omega arith),
                  ))
      ]
    ]

-- If no two tunnels have the same id, prepare ends within one round more than there are servers in
-- the pools, whatever the runtime answers: with an error, an unchanged file, a configuration that
-- the runtime accepts, or one of which it names no server of a pool. So the limit on the removals is
-- never what ends it.
pub prepare-Settles :
    (env : Environment) (tunnels : List Tunnel) → Unique tunnels → Settles env (prepare env tunnels)
unfolding prepare
prepare-Settles env tunnels u =
    prepare_loop-Settles env (pool_server_count tunnels + 1) 0 (pool_server_count tunnels) tunnels u
      (omega arith) (omega arith)

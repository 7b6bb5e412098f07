-- ===== src/Store/Tunnels/References.antt =====
-- `DeleteTunnel` and the references to tunnels.
use mathlib.Core.Logic.Or
use mathlib.Core.List.{Mem, mem-cons, not-mem-nil}
use mathlib.Core.Bool.{Bool-set}
use razdacha.Prelude.{
  ◌⊎◌, ◌≡◌, ◌≢◌, refl, ◌∙◌, Bool, true, false, not, ◌&&◌, ◌||◌, List, [], ◌∷◌, inl, inr, String,
  ◌==◌, eq_iff, arith, Bool-cases, Option-cases, none, some, any, if◌then◌else◌,
}
use razdacha.Store.Text.{String-discrete}
use razdacha.Store.Model.{Error, Result, ok, err, Tunnel, Rule, Peer}
use razdacha.Store.Db.{Db, transaction}
use razdacha.Store.Tables.{tunnel_exists, check_affected}
use razdacha.Store.Peers.{egress_exists}
use razdacha.Store.Tunnels.{
  refers_to, exits_by, find_tunnel, select_tunnel, without_tunnel, delete_tunnel_row, delete_tunnel,
}

-- Something keeps a tunnel from being deleted.
abbrev pub is_held : Tunnel → String → Db → Bool
is_held t id db = t.builtin || any (exits_by id) db.peers || any (refers_to id) db.rules

abbrev pub without_tunnel_row : String → Db → Db
without_tunnel_row id db = record db { tunnels = without_tunnel id db.tunnels }

find_tunnel-any :
    (ts : List Tunnel) (id : String) {t : Tunnel}
    → find_tunnel ts id ≡ some t
    → any (λ u. u.id == id) ts ≡ true
unfolding find_tunnel any
find_tunnel-any [] id h = cc
find_tunnel-any (u ∷ us) id {t} h = elim (Bool-cases (u.id == id)) [
  | inl same ↦ ground (arith, same)
  | inr other ↦
      let rest = find_tunnel-any us id {t = t} (ground (arith, other, h)) in
      ground (arith, other, rest)
]

pub delete_tunnel_row-free :
    (id : String) (db : Db)
    → any (exits_by id) db.peers ≡ false
    → any (refers_to id) db.rules ≡ false
    → delete_tunnel_row id db ≡ ok (any (λ t. t.id == id) db.tunnels, without_tunnel_row id db)
unfolding delete_tunnel_row
delete_tunnel_row-free id db exits refers = ground (arith, exits, refers)

-- `DeleteTunnel` on every branch: a tunnel that does not exist, one that is built in or that a peer
-- or a rule names, and any other, which goes and takes nothing with it. The foreign keys never stop
-- the statement.
pub delete_tunnel_lem :
    (id : String) (db : Db)
    → delete_tunnel id db ≡ (elim (find_tunnel db.tunnels id) [
      | none ↦ (err Error.not_found, db)
      | some t ↦
          if is_held t id db then (err Error.in_use, db) else (ok tt, without_tunnel_row id db)
    ])
unfolding delete_tunnel select_tunnel check_affected transaction
delete_tunnel_lem id db = elim (Option-cases (find_tunnel db.tunnels id)) [
  | inl missing ↦ ground (arith, missing)
  | inr (t, found) ↦
      let there = find_tunnel-any db.tunnels id {t = t} found in
      elim (Bool-cases t.builtin) [
        | inl builtin ↦ ground (arith, found, builtin)
        | inr plain ↦ elim (Bool-cases (any (exits_by id) db.peers)) [
          | inl exits ↦ ground (arith, found, plain, exits)
          | inr no_exits ↦ elim (Bool-cases (any (refers_to id) db.rules)) [
            | inl refers ↦ ground (arith, found, plain, no_exits, refers)
            | inr no_refs ↦
                let row = delete_tunnel_row-free id db no_exits no_refs in
                ground (arith, found, plain, no_exits, no_refs, row, there)
          ]
        ]
      ]
]

-- Every tunnel that a rule or a peer names exists.
pub record IsSound (db : Db) : Type 0 where
  pub rules :
      (r : Rule)
      → Mem r db.rules
      → (tunnel_exists db.tunnels r.tunnel_id && tunnel_exists db.tunnels r.via_tunnel_id) ≡ true
  pub peers : (p : Peer) → Mem p db.peers → egress_exists db.tunnels p.egress_tunnel_id ≡ true

any-absent :
    {A : Type 0} (f : A → Bool) (xs : List A) (x : A) → any f xs ≡ false → Mem x xs → f x ≡ false
unfolding any
any-absent f [] x h m = absurd (not-mem-nil m)
any-absent f (y ∷ ys) x h m =
    Or.elim (Bool-set _ _) (mem-cons.0 m) (λ e. rw e (ground arith))
      (λ t. any-absent f ys x (ground arith) t)

any_without :
    (id x : String) (ts : List Tunnel)
    → x ≢ id
    → any (λ t. t.id == x) (without_tunnel id ts) ≡ any (λ t. t.id == x) ts
unfolding any without_tunnel
any_without id x [] ne = refl
any_without id x (t ∷ ts) ne =
    let rest = any_without id x ts ne in
    elim (Bool-cases (t.id == id)) [
      | inl same ↦ let e = (eq_iff t.id id).0 same in ground (arith, same, e, rest, eq_iff id x)
      | inr other ↦ ground (arith, other, rest)
    ]

tunnel_exists-without :
    (id x : String) (ts : List Tunnel)
    → x ≢ id ⊎ (x ≡ "")
    → tunnel_exists ts x ≡ true
    → tunnel_exists (without_tunnel id ts) x ≡ true
unfolding tunnel_exists
tunnel_exists-without id x ts (inr e) h = ground (arith, (eq_iff x "").1 e)
tunnel_exists-without id x ts (inl ne) h = ground (arith, h, any_without id x ts ne)

free_name : (id x : String) → (not (id == "") && (x == id)) ≡ false → x ≢ id ⊎ (x ≡ "")
free_name id x h = elim (String-discrete x "") [
  | yes e ↦ inr e
  | no ne ↦
      inl
        (λ same. let t = (eq_iff x id).1 same in absurd (ground (arith, t, h, same, eq_iff id "")))
]

free_rule :
    (id : String) (r : Rule)
    → refers_to id r ≡ false
    → (r.tunnel_id ≢ id ⊎ (r.tunnel_id ≡ "")) × (r.via_tunnel_id ≢ id ⊎ (r.via_tunnel_id ≡ ""))
unfolding refers_to
free_rule id r h =
    (free_name id r.tunnel_id (ground arith), free_name id r.via_tunnel_id (ground arith))

egress_exists-without :
    (id : String) (p : Peer) (ts : List Tunnel)
    → exits_by id p ≡ false
    → egress_exists ts p.egress_tunnel_id ≡ true
    → egress_exists (without_tunnel id ts) p.egress_tunnel_id ≡ true
unfolding exits_by egress_exists
egress_exists-without id p ts h e = elim (Option-cases p.egress_tunnel_id) [
  | inl none_ ↦ ground (arith, none_)
  | inr (x, some_) ↦
      let ne : x ≢ id = λ same. let t = (eq_iff x id).1 same in ground (arith, some_, h, t) in
      ground (arith, some_, e, any_without id x ts ne)
]

-- A tunnel that nothing names can go.
pub without_tunnel_row-IsSound :
    (id : String) (db : Db)
    → any (exits_by id) db.peers ≡ false
    → any (refers_to id) db.rules ≡ false
    → IsSound db
    → IsSound (without_tunnel_row id db)
without_tunnel_row-IsSound id db exits refers s = record {
  rules = λ r m.
      let (first, second) = free_rule id r (any-absent (refers_to id) db.rules r refers m) in
      let both = s.rules r m in
      let one = tunnel_exists-without id r.tunnel_id db.tunnels first (ground (arith, both)) in
      let two = tunnel_exists-without id r.via_tunnel_id db.tunnels second (ground (arith, both)) in
      ground (arith, one, two);
  peers = λ p m.
      egress_exists-without id p db.tunnels (any-absent (exits_by id) db.peers p exits m)
        (s.peers p m);
}

-- What `DeleteTunnel` answers: no such tunnel, or one that is built in or that a peer or a rule names, and
-- the database is as it was; or the tunnel was none of these, and its row alone is gone.
pub IsAnswered : String → Db → Result (Unit {0}) × Db → Type 0
IsAnswered id db r =
    ((r ≡ (err Error.not_found, db)) × (find_tunnel db.tunnels id ≡ none))
    ⊎ ((t : Tunnel) × (find_tunnel db.tunnels id ≡ some t)
        × (((r ≡ (err Error.in_use, db)) × (is_held t id db ≡ true))
            ⊎ ((r ≡ (ok tt, without_tunnel_row id db)) × (is_held t id db ≡ false))))

delete_tunnel-IsAnswered : (id : String) (db : Db) → IsAnswered id db (delete_tunnel id db)
unfolding IsAnswered
delete_tunnel-IsAnswered id db = elim (Option-cases (find_tunnel db.tunnels id)) [
  | inl missing ↦ inl (rw (delete_tunnel_lem id db, missing) refl, missing)
  | inr (t, found) ↦ elim (Bool-cases (is_held t id db)) [
    | inl held ↦ inr (t, found, inl (delete_tunnel_lem id db ∙ ground (arith, found, held), held))
    | inr free ↦ inr (t, found, inr (delete_tunnel_lem id db ∙ ground (arith, found, free), free))
  ]
]

delete_tunnel-keeps : (id : String) (db : Db) → IsSound db → IsSound (delete_tunnel id db).1
delete_tunnel-keeps id db s =
    rw (delete_tunnel_lem id db) (elim (Option-cases (find_tunnel db.tunnels id)) [
      | inl missing ↦ rw missing s
      | inr (t, found) ↦ rw found (elim (Bool-cases (is_held t id db)) [
        | inl held ↦ rw held s
        | inr free ↦
            rw free
              (without_tunnel_row-IsSound id db (ground (arith, free)) (ground (arith, free)) s)
      ])
    ])

-- `DeleteTunnel` refuses a tunnel that does not exist, one that is built in and one that a peer or a rule
-- names, each with its error and without a change; it deletes any other, and nothing but its row. If every
-- tunnel that a rule or a peer names exists before, it exists after.
pub delete_tunnel-IsSound :
    (id : String) (db : Db)
    → IsSound db
    → IsAnswered id db (delete_tunnel id db) × IsSound (delete_tunnel id db).1
delete_tunnel-IsSound id db s = (delete_tunnel-IsAnswered id db, delete_tunnel-keeps id db s)

-- ===== src/Store/Rules/Create.antt =====
-- `CreateRule` puts the new rule behind the others.
use mathlib.Core.List.{
  Mem, mem-cons, mem-cons_self, mem-cons_of_mem, not-mem-nil, Nodup-cons, mem-append,
  mem-map_of_mem, map-append, perm_append_singleton,
}
use mathlib.Core.List.Perm
use mathlib.Core.Logic.Or
use razdacha.Prelude.{
  ◌≡◌, refl, sym, ◌∙◌, ap, Bool, true, false, not, ◌||◌, ◌&&◌, List, [], ◌∷◌, ◌++◌, inl, inr,
  String, ◌==◌, arith, Bool-cases, Option-cases, none, some, if◌then◌else◌, any, length,
}
use razdacha.Prelude.Int.{pos, eqb_ℤ}
use razdacha.Store.Text.{contains_iff}
use razdacha.Store.Model.{Error, ok, err, Rule, validate_rule}
use razdacha.Store.Db.{Db, bind-eq-ok, transaction-ok, transaction-err, pure, transaction}
use razdacha.Store.Tables.{max_priority, insert_rule, tunnel_exists}
use razdacha.Store.Rules.{
  ids_of, create_rule, create_rule_tx, next_priority, validate_rule_peers, wrap_rule_write_err,
}
use razdacha.Store.Rules.Rank.{index-lt-length, index-append, index_new}
use razdacha.Store.Rules.Order.{IsPlaced, ℤ-set}
use razdacha.Store.Rules.NextPriority.{next_priority_placed}
use razdacha.Store.Rules.Peers.{validate_rule_peers-ok}
use razdacha.Store.Rules.Reorder.{with_rules}
use razdacha.Store.Rules.Delete.{any_id}

-- The tests of an INSERT into rules.
abbrev pub clashes : Rule → Db → Bool
clashes r db = any (λ q. (q.id == r.id) || eqb_ℤ q.priority r.priority) db.rules

abbrev pub refers : Rule → Db → Bool
refers r db = tunnel_exists db.tunnels r.tunnel_id && tunnel_exists db.tunnels r.via_tunnel_id

insert_rule_lem :
    (r : Rule) (db : Db)
    → wrap_rule_write_err (insert_rule r) db ≡ (
        if clashes r db
        then err Error.unique
        else if not (refers r db)
        then err Error.not_found
        else ok (tt, with_rules db (db.rules ++ r ∷ [])))
unfolding wrap_rule_write_err insert_rule
insert_rule_lem r db = elim (Bool-cases (clashes r db)) [
  | inl clash ↦ rw (clash, wrap_rule_write_err, insert_rule)
  | inr clear ↦ elim (Bool-cases (refers r db)) [
    | inl there ↦ rw (clear, there, wrap_rule_write_err, insert_rule)
    | inr missing ↦ rw (clear, missing, wrap_rule_write_err, insert_rule)
  ]
]

insert_rule-ok :
    (r : Rule) (db db' : Db) {u : Unit {0}}
    → wrap_rule_write_err (insert_rule r) db ≡ ok (u, db')
    → (clashes r db ≡ false) × (db' ≡ with_rules db (db.rules ++ r ∷ []))
insert_rule-ok r db db' h = let tests = sym (insert_rule_lem r db) ∙ h in ground arith

-- What a successful transaction of `CreateRule` has stored.
create_rule_tx-made :
    (r made : Rule) (db db' : Db)
    → create_rule_tx r db ≡ ok (made, db')
    → (made.priority ≡ next_priority (max_priority db.rules))
      × (made.id ≡ r.id)
      × (clashes made db ≡ false)
      × (db' ≡ with_rules db (db.rules ++ made ∷ []))
unfolding create_rule_tx
create_rule_tx-made r made db db' h =
    let (checked, db1, e1, h1) = bind-eq-ok (validate_rule_peers r) _ db h in
    let (same, id) = validate_rule_peers-ok r checked db db1 e1 in
    let placed = record checked { priority = next_priority (max_priority db.rules) } in
    let (u, db2, e2, h2) =
      bind-eq-ok (wrap_rule_write_err (insert_rule placed)) (λ _. pure placed) db (rw same at h1) in
    let (clear, stored) = insert_rule-ok placed db db2 e2 in ground (arith, id, clear, stored, h2)

any-or_left :
    (f g : Rule → Bool) (rules : List Rule)
    → any (λ q. f q || g q) rules ≡ false
    → any f rules ≡ false
unfolding any
any-or_left f g [] h = refl
any-or_left f g (q ∷ qs) h = ground (arith, any-or_left f g qs)

-- One more row behind a placed table.
append-IsPlaced :
    {ids : List String} {rules : List Rule} (made : Rule)
    → IsPlaced ids rules
    → ¬ Mem made.id ids
    → made.priority ≡ pos (length ids)
    → IsPlaced (ids ++ made.id ∷ []) (rules ++ made ∷ [])
append-IsPlaced {ids} {rules} made h fresh p = record {
  nodup =
      Perm.nodup (Perm.symm (perm_append_singleton made.id ids)) (Nodup-cons.1 (fresh, h.nodup));
  perm = rw map-append (Perm.append_right (made.id ∷ []) h.perm);
  at = λ r m.
      Or.elim (ℤ-set _ _) (mem-append.0 m)
        (λ old.
          let known = (Perm.mem_iff h.perm).0 (mem-map_of_mem (λ (q : Rule). q.id) old) in
          h.at r old ∙ ap pos (sym (index-append ids (made.id ∷ []) r.id known)))
        (λ new.
          Or.elim (ℤ-set _ _) (mem-cons.0 new)
            (λ e. rw e (p ∙ ap pos (sym (index_new ids made.id fresh))))
            (λ t. absurd (not-mem-nil t)));
}

-- The rule that `CreateRule` hands to its transaction.
abbrev pub with_id : String → Rule → Rule
with_id fresh r = record r { id = if r.id == "" then fresh else r.id }

create_rule-valid :
    (fresh : String) (r : Rule) (db : Db)
    → validate_rule r ≡ none
    → create_rule fresh r db ≡ transaction (create_rule_tx (with_id fresh r)) db
unfolding create_rule
create_rule-valid fresh r db valid = ground (arith, valid)

create_rule-invalid :
    (fresh : String) (r : Rule) (db : Db) (e : Error)
    → validate_rule r ≡ some e
    → create_rule fresh r db ≡ (err e, db)
unfolding create_rule
create_rule-invalid fresh r db e invalid = ground (arith, invalid)

create_rule-made :
    (fresh : String) (r made : Rule) (db : Db)
    → (create_rule fresh r db).0 ≡ ok made
    → create_rule_tx (with_id fresh r) db ≡ ok (made, (create_rule fresh r db).1)
create_rule-made fresh r made db h = elim (Option-cases (validate_rule r)) [
  | inl valid ↦ rw (create_rule-valid fresh r db valid) (
      transaction-ok (create_rule_tx (with_id fresh r)) db
        (ap (λ x. x.0) (sym (create_rule-valid fresh r db valid)) ∙ h))
  | inr (e, invalid) ↦
      let stop = create_rule-invalid fresh r db e invalid in absurd (ground (arith, stop, h))
]

module _ {ids : List String} (db : Db) (h : IsPlaced ids db.rules) (fresh : String) (r : Rule) where
  -- A rule that is created stands behind all others, and nothing else changes.
  pub create_rule-IsPlaced :
      (made : Rule)
      → (create_rule fresh r db).0 ≡ ok made
      → ((create_rule fresh r db).1 ≡ with_rules db (db.rules ++ made ∷ []))
        × IsPlaced (ids ++ made.id ∷ []) (db.rules ++ made ∷ [])
  create_rule-IsPlaced made e =
      let (p, id, clear, stored) =
        create_rule_tx-made (with_id fresh r) made db (create_rule fresh r db).1
          (create_rule-made fresh r made db e) in
      let unused =
        any-or_left (λ q. q.id == made.id) (λ q. eqb_ℤ q.priority made.priority) db.rules clear in
      (
        stored,
        append-IsPlaced made h
            (λ m. cc (
              unused,
              any_id made.id db.rules,
              (contains_iff (ids_of db.rules) made.id).1 ((Perm.mem_iff h.perm).1 m),
            ))
            (p ∙ next_priority_placed ids db.rules h),
      )

any-or :
    (f g : Rule → Bool) (rules : List Rule)
    → any f rules ≡ false
    → ((r : Rule) → Mem r rules → g r ≡ false)
    → any (λ q. f q || g q) rules ≡ false
unfolding any
any-or f g [] h k = refl
any-or f g (q ∷ qs) h k =
    ground
      (arith, k q mem-cons_self, any-or f g qs (ground arith) (λ r m. k r (mem-cons_of_mem q m)))

create_rule_tx-succeeds :
    (r checked : Rule) (db : Db)
    → validate_rule_peers r db ≡ ok (checked, db)
    → let placed = record checked { priority = next_priority (max_priority db.rules) } in
      clashes placed db ≡ false
      → refers placed db ≡ true
      → create_rule_tx r db ≡ ok (placed, with_rules db (db.rules ++ placed ∷ []))
unfolding create_rule_tx
create_rule_tx-succeeds r checked db e clear there =
    let placed = record checked { priority = next_priority (max_priority db.rules) } in
    let stored = insert_rule_lem placed db in ground (arith, e, clear, there, stored)

module _ {ids : List String} (db : Db) (h : IsPlaced ids db.rules) (fresh : String) (r : Rule) where
  -- The UNIQUE index on the priorities never stands in the way: a valid rule with an unused id,
  -- whose tunnels and peers exist, is inserted behind all others with the next priority, and nothing else
  -- changes.
  pub create_rule-succeeds :
      (checked : Rule)
      → validate_rule r ≡ none
      → validate_rule_peers (with_id fresh r) db ≡ ok (checked, db)
      → ¬ Mem checked.id ids
      → refers checked db ≡ true
      → let made = record checked { priority = pos (length ids) } in
        create_rule fresh r db ≡ (ok made, record db { rules = db.rules ++ made ∷ [] })
  unfolding transaction
  create_rule-succeeds checked valid peers unused there =
      let place = next_priority_placed ids db.rules h in
      let apart : (q : Rule)
          → Mem q db.rules
          → eqb_ℤ q.priority (next_priority (max_priority db.rules)) ≡ false =
        λ q m.
          let at_q = h.at q m in
          let below =
            index-lt-length ids q.id
              ((Perm.mem_iff h.perm).0 (mem-map_of_mem (λ (x : Rule). x.id) m)) in
          ground (arith, place, at_q, below) in
      let free : any (λ q. q.id == checked.id) db.rules ≡ false =
        elim (Bool-cases (any (λ q. q.id == checked.id) db.rules)) [
          | inl used ↦ absurd (
              unused (
                (Perm.mem_iff h.perm).0 (
                  (contains_iff (ids_of db.rules) checked.id).0
                    (sym (any_id checked.id db.rules) ∙ used))))
          | inr free ↦ free
        ] in
      let done =
        create_rule_tx-succeeds (with_id fresh r) checked db peers
          (any-or (λ q. q.id == checked.id) _ db.rules free apart) there in
      rw (create_rule-valid fresh r db valid) (ground (arith, done, place))

-- A call of `CreateRule` that fails leaves the database as it was.
pub create_rule-failed :
    (fresh : String) (r : Rule) (db : Db) (e : Error)
    → (create_rule fresh r db).0 ≡ err e
    → (create_rule fresh r db).1 ≡ db
create_rule-failed fresh r db e h = elim (Option-cases (validate_rule r)) [
  | inl valid ↦
      let late = create_rule-valid fresh r db valid in
      rw late (transaction-err (create_rule_tx (with_id fresh r)) db (rw late at h))
  | inr (x, invalid) ↦ rw (create_rule-invalid fresh r db x invalid)
]

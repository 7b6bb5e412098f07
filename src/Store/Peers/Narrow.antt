-- ===== src/Store/Peers/Narrow.antt =====
-- A peer that is deleted takes its place in no rule's selection, and no rule reaches further.
use mathlib.Core.List.{Mem, Nodup, mem-map}
use mathlib.Core.List.Perm
use mathlib.Core.Logic.{∥∥₁_elim}
use mathlib.Core.HLevel.{Π_prop}
use mathlib.Core.Bool.{Bool-set}
use native.Mathlib.Bridge.{le_prop}
use razdacha.Prelude.{
  ◌≤◌, ◌≡◌, ◌≢◌, refl, sym, ◌∙◌, subst, true, false, ◌&&◌, List, [], ◌∷◌, map, inl, inr, String,
  ◌==◌, eq_iff, arith, Bool-cases, Option-cases, none, some, length, ltb, any, if◌then◌else◌,
  map_id,
}
use razdacha.Store.Text.{contains, contains_iff}
use razdacha.Store.Model.{Error, ok, err, Rule, Peer, scope_selected}
use razdacha.Store.Db.{Db, transaction}
use razdacha.Store.Tables.{order_by_priority, check_affected}
use razdacha.Store.Rules.Order.{IsPlaced, order_by_priority-perm}
use razdacha.Store.Rows.{each_row, each_row-all, map-eq_of_mem}
use razdacha.Store.Peers.Deletion.{
  PeerDeletion, without_peer, without_credential, delete_peer_row, peer_ids_of, pruned, set_peers,
  affect, prune_rules, prune_all_rules, no_effects, delete_peer_with_effects,
}
use razdacha.Store.Peers.Kept.{
  contains-kept_from, kept_from-Nodup, kept_from-full, kept_from-those_in, those_in, first_mentions,
}

-- A rule limited to the first mentions of the peers that are present, in their order; one that keeps none
-- is switched off.
unfoldable pub restricted : List String → Rule → Rule
restricted present r =
    let kept = those_in present [] (first_mentions r.peer_ids) in
    if r.peer_scope == scope_selected
    then record r { peer_ids = kept; enabled = r.enabled && ltb 0 (length kept) }
    else r

-- The update that the loop makes for the rule `q`.
prune_step : List String → Rule → Rule → Rule
prune_step present q r = elim (pruned present q) [
  | none ↦ r
  | some (kept, enabled) ↦ set_peers q.id kept enabled r
]

prune_step-apart : (present : List String) (q r : Rule) → r.id ≢ q.id → prune_step present q r ≡ r
unfolding prune_step set_peers
prune_step-apart present q r ne = ground (arith, eq_iff r.id q.id)

prune_step-id : (present : List String) (q r : Rule) → (prune_step present q r).id ≡ r.id
unfolding prune_step set_peers
prune_step-id present q r = ground arith

prune_step_self : (present : List String) (r : Rule) → prune_step present r r ≡ restricted present r
unfolding prune_step set_peers pruned restricted
prune_step_self present r =
    let full = kept_from-full present [] r.peer_ids in
    let same = kept_from-those_in present [] r.peer_ids in
    ground (arith, full, same, eq_iff r.id r.id)

prune_rules-each_row :
    (present : List String) (qs : List Rule) (effects : PeerDeletion) (table : List Rule)
    → (prune_rules present qs effects table).1 ≡ each_row (prune_step present) qs table
unfolding prune_rules each_row prune_step
prune_rules-each_row present [] effects table = refl
prune_rules-each_row present (q ∷ qs) effects table = elim (Option-cases (pruned present q)) [
  | inl same ↦ ground (
    arith,
    same,
    map_id (λ r. r) table (λ r. refl),
    prune_rules-each_row present qs effects table,
  )
  | inr ((kept, enabled), changed) ↦ ground (
    arith,
    changed,
    prune_rules-each_row present qs (affect q kept effects)
        (map (set_peers q.id kept enabled) table),
  )
]

any_peer : (id : String) (ps : List Peer) → any (λ p. p.id == id) ps ≡ contains (peer_ids_of ps) id
unfolding any contains
any_peer id [] = refl
any_peer id (p ∷ ps) = ground (arith, any_peer id ps)

-- The database after the deletion of a peer.
abbrev pub forgotten : String → Db → Db
forgotten id db = record db {
  peers = without_peer id db.peers;
  credentials = without_credential id db.credentials;
  rules = map (restricted (peer_ids_of (without_peer id db.peers))) db.rules;
}

prune_all_rules_lem :
    {ids : List String} (db : Db)
    → IsPlaced ids db.rules
    → let present = peer_ids_of db.peers in
      prune_all_rules db
      ≡ ok (
        (prune_rules present (order_by_priority db.rules) no_effects db.rules).0,
        record db { rules = map (restricted present) db.rules },
      )
unfolding prune_all_rules
prune_all_rules_lem db h =
    let present = peer_ids_of db.peers in
    let rules = order_by_priority db.rules in
    let table : (prune_rules present rules no_effects db.rules).1
        ≡ map (restricted present) db.rules =
      prune_rules-each_row present rules no_effects db.rules
      ∙ each_row-all (prune_step present) (prune_step-apart present) (prune_step-id present) rules
          db.rules (Perm.nodup (Perm.symm h.perm) h.nodup) (order_by_priority-perm db.rules)
      ∙ map-eq_of_mem _ _ db.rules (λ r m. prune_step_self present r) in
    ground (arith, table)

module _ {ids : List String} (db : Db) (h : IsPlaced ids db.rules) (id : String) where
  -- A peer that exists is deleted: it and its credential go, every rule that selects peers keeps the
  -- first mentions of those that remain, in their order, and is switched off when none does; nothing else
  -- changes. The priorities of the rules are 0, 1, …
  pub delete_peer_with_effects-present :
      Mem id (peer_ids_of db.peers)
      → (effects : PeerDeletion) × (delete_peer_with_effects id db ≡ (ok effects, forgotten id db))
  unfolding delete_peer_with_effects delete_peer_row check_affected transaction
  delete_peer_with_effects-present m =
      let there = any_peer id db.peers ∙ (contains_iff (peer_ids_of db.peers) id).1 m in
      let rest = record db {
        peers = without_peer id db.peers;
        credentials = without_credential id db.credentials;
      } in
      let done = prune_all_rules_lem rest h in
      (
        (prune_rules (peer_ids_of rest.peers) (order_by_priority db.rules) no_effects db.rules).0,
        ground (arith, there, done),
      )

  -- A peer that does not exist is not deleted, and nothing changes.
  pub delete_peer_with_effects-missing :
      ¬ Mem id (peer_ids_of db.peers) → delete_peer_with_effects id db ≡ (err Error.not_found, db)
  unfolding delete_peer_with_effects delete_peer_row check_affected transaction
  delete_peer_with_effects-missing nm = elim (Bool-cases (any (λ p. p.id == id) db.peers)) [
    | inl there ↦
        absurd
          (nm ((contains_iff (peer_ids_of db.peers) id).0 (sym (any_peer id db.peers) ∙ there)))
    | inr missing ↦ ground (arith, missing)
  ]

unseen : (x : String) → contains [] x ≡ false
unfolding contains
unseen x = refl

-- What a rule that selects peers keeps: of its peers those that are present, and the switch only
-- where one is left. Its scope stays.
pub restricted-narrows :
    (present : List String) (r : Rule) (x : String)
    → r.peer_scope ≡ scope_selected
    → ((restricted present r).peer_scope ≡ scope_selected)
      × (contains (restricted present r).peer_ids x ≡ (contains r.peer_ids x && contains present x))
      × Nodup (restricted present r).peer_ids
      × ((restricted present r).enabled
          ≡ (r.enabled && ltb 0 (length (restricted present r).peer_ids)))
unfolding restricted
restricted-narrows present r x e =
    let selected = (eq_iff r.peer_scope scope_selected).1 e in
    let kept = contains-kept_from present [] r.peer_ids x in
    let same = kept_from-those_in present [] r.peer_ids in
    let once = subst Nodup same (kept_from-Nodup present [] r.peer_ids) in
    rw selected (e, ground (arith, same, kept, unseen x), once, refl)

without_peer-absent :
    (id : String) (ps : List Peer) → contains (peer_ids_of (without_peer id ps)) id ≡ false
unfolding contains any without_peer
without_peer-absent id [] = refl
without_peer-absent id (p ∷ ps) = ground (arith, without_peer-absent id ps)

restricted-forgets :
    (present : List String) (id : String) (r : Rule)
    → contains present id ≡ false
    → (restricted present r).peer_scope ≡ scope_selected
    → (contains (restricted present r).peer_ids id ≡ false)
      × ((restricted present r).enabled ≡ true → 1 ≤ length (restricted present r).peer_ids)
unfolding restricted
restricted-forgets present id r gone e =
    let kept = contains-kept_from present [] r.peer_ids id in
    let same = kept_from-those_in present [] r.peer_ids in
    ground (arith, gone, kept, same, eq_iff r.peer_scope scope_selected)

module _ {ids : List String} (db : Db) (h : IsPlaced ids db.rules) (id : String) where
  -- After the deletion of a peer that exists, from a table of rules whose priorities are 0, 1, …, no rule
  -- that selects peers names it, and one that is switched on selects at least one peer. A rule that selected
  -- nobody else does not reach all peers.
  pub delete_peer_with_effects-forgets :
      Mem id (peer_ids_of db.peers)
      → (r : Rule) → Mem r (delete_peer_with_effects id db).1.rules
      → r.peer_scope ≡ scope_selected
      → (contains r.peer_ids id ≡ false) × (r.enabled ≡ true → 1 ≤ length r.peer_ids)
  delete_peer_with_effects-forgets m r there =
      let (effects, done) = delete_peer_with_effects-present db h id m in
      let present = peer_ids_of (without_peer id db.peers) in
      ∥∥₁_elim (mem-map.0 (rw done at there)) (Π_prop λ _. hlevel (Bool-set, le_prop)) λ (q, _, e).
        subst
          (λ (x : Rule).
            x.peer_scope ≡ scope_selected
            → (contains x.peer_ids id ≡ false) × (x.enabled ≡ true → 1 ≤ length x.peer_ids))
          e (restricted-forgets present id q (without_peer-absent id db.peers))

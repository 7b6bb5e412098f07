-- ===== src/Store/Tunnels/Collapse.antt =====
-- `EnsureBuiltinPool` leaves one built-in pool, and then nothing to do.
use mathlib.Core.List.{
  Mem, Nodup, append-nil, append_assoc, map-map, mem-cons_self, mem-cons_of_mem,
}
use mathlib.Core.List.Perm
use razdacha.Prelude.{
  ℕ, ◌≡◌, ◌≢◌, refl, sym, ◌∙◌, ap, Bool, false, not, ◌&&◌, List, [], ◌∷◌, ◌++◌, map, map_id, inl,
  inr, String, ◌==◌, eq_iff, arith, Bool-cases, any, if◌then◌else◌,
}
use razdacha.Store.Model.{ok, Tunnel, Rule, is_empty}
use razdacha.Store.Db.{Db, transaction}
use razdacha.Store.Rules.{ids_of}
use razdacha.Store.Rules.Order.{IsPlaced, map-IsPlaced, ids_of-map}
use razdacha.Store.Tunnels.{exits_by, without_tunnel}
use razdacha.Store.Tunnels.References.{delete_tunnel_row-free}
use razdacha.Store.Tunnels.Detach.{
  detached, detached-id, detached-priority, any-detached, detach_rules_from_tunnel_lem,
}
use razdacha.Store.Tunnels.Single.{
  tunnel_ids_of, without_all, pools_of-without_extra, builtin_pools-singleton, pools_of-map,
}
use razdacha.Store.Tunnels.Builtin.{
  BuiltinPoolResult, nothing_done, builtin_pool_name, is_builtin_pool, pools_of, builtin_pools,
  collapse_extra, clear_country, rename, rename_tunnels, normalize, collapse_builtin_pools,
  ensure_builtin_pool_tx, ensure_builtin_pool,
}

-- The rules without their links to the given tunnels.
unfoldable pub detached_all : List Tunnel → List Rule → List Rule
detached_all [] rules = rules
detached_all (t ∷ ts) rules = detached_all ts (map (detached t.id) rules)

pub detached_all-IsPlaced :
    (es : List Tunnel) {ids : List String} (rules : List Rule)
    → IsPlaced ids rules
    → IsPlaced ids (detached_all es rules)
unfolding detached_all
detached_all-IsPlaced [] rules h = h
detached_all-IsPlaced (e ∷ es) rules h =
    detached_all-IsPlaced es (map (detached e.id) rules)
      (map-IsPlaced (detached e.id) (detached-id e.id) (detached-priority e.id) h)

abbrev pub with_tables : Db → List Tunnel → List Rule → Db
with_tables db tunnels rules = record db { tunnels = tunnels; rules = rules }

abbrev names_of : List Tunnel → List String
names_of = map (λ t. t.name)

-- One round of the loop.
collapse_extra-cons :
    (e : Tunnel) (es : List Tunnel) (out : BuiltinPoolResult) (db : Db)
    → Nodup (ids_of db.rules)
    → any (exits_by e.id) db.peers ≡ false
    → (out' : BuiltinPoolResult) × (collapse_extra (e ∷ es) out db
        ≡ collapse_extra es out'
            (with_tables db (without_tunnel e.id db.tunnels) (map (detached e.id) db.rules)))
      × (out'.removed_extra ≡ out.removed_extra ++ e.name ∷ [])
      × (out'.created ≡ out.created)
unfolding collapse_extra
collapse_extra-cons e es out db n exits =
    let (out', done, removed, created) = detach_rules_from_tunnel_lem e.id out db n in
    let rest = record db { rules = map (detached e.id) db.rules } in
    let row = delete_tunnel_row-free e.id rest exits (any-detached e.id db.rules) in
    (
      record out' { removed_extra = out'.removed_extra ++ e.name ∷ [] },
      ground (arith, done, row),
      ap (λ l. l ++ e.name ∷ []) removed,
      created,
    )

collapse_extra_lem :
    (es : List Tunnel) (out : BuiltinPoolResult) (db : Db)
    → Nodup (ids_of db.rules)
    → ((e : Tunnel) → Mem e es → any (exits_by e.id) db.peers ≡ false)
    → (out' : BuiltinPoolResult) × (collapse_extra es out db
        ≡ ok (out', with_tables db (without_all es db.tunnels) (detached_all es db.rules)))
      × (out'.removed_extra ≡ out.removed_extra ++ names_of es)
      × (out'.created ≡ out.created)
unfolding without_all detached_all
collapse_extra_lem [] out db n exits =
    (out, unfold collapse_extra in refl, sym (append-nil out.removed_extra), refl)
collapse_extra_lem (e ∷ es) out db n exits =
    let (out', step, removed, created) =
      collapse_extra-cons e es out db n (exits e mem-cons_self) in
    let (last, rest, removed', created') =
      collapse_extra_lem es out'
        (with_tables db (without_tunnel e.id db.tunnels) (map (detached e.id) db.rules))
        (rw (ids_of-map (detached e.id) db.rules (detached-id e.id)) n)
        (λ t m. exits t (mem-cons_of_mem e m)) in
    (
      last,
      step ∙ rest,
      removed'
          ∙ ap (λ l. l ++ names_of es) removed
          ∙ append_assoc out.removed_extra (e.name ∷ []) (names_of es),
      created' ∙ created,
    )

-- What becomes of the rows when the pool that stays is put in order.
pub record IsNormalized (s : Tunnel) (ts us : List Tunnel) : Type 0 where
  pub row : Tunnel → Tunnel
  pub all : us ≡ map row ts
  pub pool : (t : Tunnel) → is_builtin_pool (row t) ≡ is_builtin_pool t
  pub id : (t : Tunnel) → (row t).id ≡ t.id
  pub country : (row s).country ≡ ""

clear-IsNormalized :
    (s : Tunnel) (ts : List Tunnel)
    → IsNormalized s ts (if not (s.country == "") then map (clear_country s.id) ts else ts)
unfolding clear_country
clear-IsNormalized s ts = elim (Bool-cases (s.country == "")) [
  | inl clear ↦ record {
    row = λ t. t;
    all = rw clear (sym (map_id (λ t. t) ts (λ t. refl)));
    pool = λ t. refl;
    id = λ t. refl;
    country = (eq_iff s.country "").0 clear;
  }
  | inr set ↦ record {
    row = clear_country s.id;
    all = rw set refl;
    pool = λ t. unfold is_builtin_pool in ground arith;
    id = λ t. ground arith;
    country = ground (arith, eq_iff s.id s.id);
  }
]

rename-IsNormalized :
    (name : String) (s : Tunnel) (ts us : List Tunnel)
    → IsNormalized s ts us
    → IsNormalized s ts (rename_tunnels name s.id us)
unfolding rename_tunnels rename
rename-IsNormalized name s ts us h =
    elim (Bool-cases
      (any (λ t. t.id == s.id) us && any (λ t. not (t.id == s.id) && (t.name == name)) us)) [
        | inl taken ↦ rw taken h
        | inr free ↦ rw free (record {
          row = λ t. rename name s.id (h.row t);
          all = ap (map (rename name s.id)) h.all ∙ map-map _ _ ts;
          pool = λ t. unfold is_builtin_pool in ground (arith, h.pool t);
          id = λ t. ground (arith, h.id t);
          country = ground (arith, h.country);
        })
      ]

pub normalize-IsNormalized :
    (s : Tunnel) (out : BuiltinPoolResult) (ts : List Tunnel)
    → IsNormalized s ts (normalize s out ts)
unfolding normalize
normalize-IsNormalized s out ts =
    let cleared = clear-IsNormalized s ts in
    elim (Bool-cases (not (is_empty out.removed_extra) && not (s.name == builtin_pool_name))) [
      | inl rename ↦ rw rename (rename-IsNormalized builtin_pool_name s ts _ cleared)
      | inr keep ↦ rw keep cleared
    ]

-- A database with one pool, that is in order, has nothing to be done.
settled :
    (json_valid : String → Bool) (fresh : String) (now : ℕ) (catalog type : String) (db : Db)
    {s : Tunnel}
    → catalog ≢ ""
    → builtin_pools db.tunnels ≡ s ∷ []
    → s.country ≡ ""
    → ensure_builtin_pool json_valid fresh now catalog type db ≡ (ok nothing_done, db)
unfolding ensure_builtin_pool ensure_builtin_pool_tx collapse_builtin_pools collapse_extra normalize
    transaction
settled json_valid fresh now catalog type db {s} url one clear =
    ground (arith, one, eq_iff catalog "", (eq_iff s.country "").1 clear)

module _ {ids : List String} (db : Db) (h : IsPlaced ids db.rules)
    (n : Nodup (tunnel_ids_of db.tunnels)) (s : Tunnel) (es : List Tunnel)
    (pools : builtin_pools db.tunnels ≡ s ∷ es)
    (exits : (e : Tunnel) → Mem e es → any (exits_by e.id) db.peers ≡ false)
    (json_valid : String → Bool) (fresh : String) (now : ℕ) (catalog type : String)
    (url : catalog ≢ "") where
  pub ensured :
      (out : BuiltinPoolResult) × (ensure_builtin_pool json_valid fresh now catalog type db ≡ (
        ok out,
        with_tables db (normalize s out (without_all es db.tunnels)) (detached_all es db.rules),
      ))
      × (out.removed_extra ≡ names_of es)
      × (out.created ≡ false)
  unfolding ensure_builtin_pool ensure_builtin_pool_tx collapse_builtin_pools transaction
  ensured =
      let (out, done, removed, created) =
        collapse_extra_lem es nothing_done db (Perm.nodup (Perm.symm h.perm) h.nodup) exits in
      (out, ground (arith, pools, done, eq_iff catalog ""), removed, created)

  -- A database with built-in pools, of which no extra one is the exit of a peer: the first in the
  -- order of creation stays and is the only one, the others go, no pool is created, and the rules
  -- are tried in the order in which they were.
  pub ensure_builtin_pool-single :
      (out : BuiltinPoolResult) × (stays : Tunnel) × ((ensure_builtin_pool json_valid fresh now
          catalog type db).0
        ≡ ok out)
      × (builtin_pools (ensure_builtin_pool json_valid fresh now catalog type db).1.tunnels
          ≡ stays ∷ [])
      × (stays.id ≡ s.id)
      × (stays.country ≡ "")
      × (out.removed_extra ≡ names_of es)
      × (out.created ≡ false)
      × IsPlaced ids (ensure_builtin_pool json_valid fresh now catalog type db).1.rules
  ensure_builtin_pool-single =
      let (out, done, removed, created) = ensured in
      let tidy = normalize-IsNormalized s out (without_all es db.tunnels) in
      let one : pools_of (normalize s out (without_all es db.tunnels)) ≡ tidy.row s ∷ [] =
        ap pools_of tidy.all
        ∙ pools_of-map tidy.row (without_all es db.tunnels) tidy.pool
        ∙ ap (map tidy.row) (pools_of-without_extra db.tunnels s es n pools) in
      (
        out,
        tidy.row s,
        ap (λ r. r.0) done,
        rw done (builtin_pools-singleton _ _ one),
        tidy.id s,
        tidy.country,
        removed,
        created,
        rw done (detached_all-IsPlaced es db.rules h),
      )

  -- After a call of `EnsureBuiltinPool` on a database with built-in pools, of which no extra one is
  -- the exit of a peer, a second call with any catalog that is not empty changes nothing and reports
  -- nothing.
  pub ensure_builtin_pool-twice :
      (later_fresh : String) (later : ℕ) (later_catalog later_type : String)
      → later_catalog ≢ ""
      → let after = (ensure_builtin_pool json_valid fresh now catalog type db).1 in
        ensure_builtin_pool json_valid later_fresh later later_catalog later_type after
        ≡ (ok nothing_done, after)
  ensure_builtin_pool-twice later_fresh later later_catalog later_type later_url =
      let (_, stays, _, one, _, clear, _, _, _) = ensure_builtin_pool-single in
      settled json_valid later_fresh later later_catalog later_type
        (ensure_builtin_pool json_valid fresh now catalog type db).1 {s = stays} later_url one clear

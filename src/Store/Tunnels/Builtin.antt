-- ===== src/Store/Tunnels/Builtin.antt =====
-- `EnsureBuiltinPool`: exactly one built-in pool.
use razdacha.Prelude.{
  ℕ, Bool, true, false, not, ◌&&◌, ◌||◌, List, [], ◌∷◌, ◌++◌, map, String, ◌==◌, Option, none, some,
  if◌then◌else◌, any, leb,
}
use razdacha.Store.Text.{leb_text}
use razdacha.Store.Model.{
  Error, Result, ok, err, Tunnel, Rule, is_empty, source_pool, validate_tunnel,
}
use razdacha.Store.Db.{Db, Tx, ◌>>=◌, ◌>>◌, pure, check, transaction}
use razdacha.Store.Tables.{order_by_priority}
use razdacha.Store.Tunnels.{refers_to, delete_tunnel_row, insert_tunnel, wrap_tunnel_write_err}

abbrev pub builtin_pool_name : String
builtin_pool_name = "Общий пул"

-- ORDER BY created_at, id.
unfoldable pub leb_created : Option ℕ → Option ℕ → Bool
leb_created none b = true
leb_created (some a) none = false
leb_created (some a) (some b) = leb a b

unfoldable pub created_before : Tunnel → Tunnel → Bool
unfolding leb_created leb_text
created_before t u =
    leb_created t.created_at u.created_at
    && (not (leb_created u.created_at t.created_at) || leb_text t.id u.id)

unfoldable pub insert_by_creation : Tunnel → List Tunnel → List Tunnel
unfolding created_before
insert_by_creation t [] = t ∷ []
insert_by_creation t (u ∷ us) =
    if created_before t u then t ∷ u ∷ us else u ∷ insert_by_creation t us

-- `tunnels`.
unfoldable pub order_by_creation : List Tunnel → List Tunnel
unfolding insert_by_creation
order_by_creation [] = []
order_by_creation (t ∷ ts) = insert_by_creation t (order_by_creation ts)

unfoldable pub is_builtin_pool : Tunnel → Bool
is_builtin_pool t = t.builtin && (t.source == source_pool)

-- The loop of `builtinPools`, and `builtinPools`.
unfoldable pub pools_of : List Tunnel → List Tunnel
unfolding is_builtin_pool
pools_of [] = []
pools_of (t ∷ ts) = let rest = pools_of ts in if is_builtin_pool t then t ∷ rest else rest

unfoldable pub builtin_pools : List Tunnel → List Tunnel
builtin_pools ts = pools_of (order_by_creation ts)

pub record DetachedRule : Type 0 where
  pub name : String
  pub disabled : Bool

pub record BuiltinPoolResult : Type 0 where
  pub created : Bool
  pub removed_extra : List String
  pub detached_rules : List DetachedRule

abbrev pub nothing_done : BuiltinPoolResult
nothing_done = record { created = false; removed_extra = []; detached_rules = [] }

pub record RuleRef : Type 0 where
  pub id : String
  pub name : String
  pub primary : Bool

-- The loop of `ruleRefsForTunnel`, and `ruleRefsForTunnel`.
unfoldable pub refs_of : String → List Rule → List RuleRef
unfolding refers_to
refs_of tunnel [] = []
refs_of tunnel (r ∷ rs) =
    let rest = refs_of tunnel rs in
    if refers_to tunnel r
    then (record { id = r.id; name = r.name; primary = r.tunnel_id == tunnel }) ∷ rest
    else rest

unfoldable pub rule_refs_for_tunnel : String → List Rule → List RuleRef
rule_refs_for_tunnel tunnel rules = refs_of tunnel (order_by_priority rules)

-- The two UPDATE statements of `detachRulesFromTunnel`.
unfoldable pub detach_primary : String → String → Rule → Rule
detach_primary tunnel id r =
    if r.id == id
    then record r {
      tunnel_id = "";
      enabled = false;
      via_tunnel_id = if r.via_tunnel_id == tunnel then "" else r.via_tunnel_id;
    }
    else r

unfoldable pub detach_via : String → Rule → Rule
detach_via id r = if r.id == id then record r { via_tunnel_id = "" } else r

unfoldable pub detach : String → RuleRef → Rule → Rule
unfolding detach_primary detach_via
detach tunnel ref r = if ref.primary then detach_primary tunnel ref.id r else detach_via ref.id r

unfoldable pub report : RuleRef → BuiltinPoolResult → BuiltinPoolResult
report ref out = record out {
  detached_rules = out.detached_rules ++ (record { name = ref.name; disabled = ref.primary }) ∷ [];
}

-- The loop of `detachRulesFromTunnel`.
unfoldable pub detach_refs :
    String → List RuleRef → BuiltinPoolResult → List Rule → BuiltinPoolResult × List Rule
unfolding detach report
detach_refs tunnel [] out table = (out, table)
detach_refs tunnel (ref ∷ refs) out table =
    detach_refs tunnel refs (report ref out) (map (detach tunnel ref) table)

unfoldable pub detach_rules_from_tunnel : String → BuiltinPoolResult → Tx BuiltinPoolResult
unfolding rule_refs_for_tunnel
detach_rules_from_tunnel tunnel out db =
    let (out', table) = detach_refs tunnel (rule_refs_for_tunnel tunnel db.rules) out db.rules in
    ok (out', record db { rules = table })

-- The loop of `collapseBuiltinPools`.
unfoldable pub collapse_extra : List Tunnel → BuiltinPoolResult → Tx BuiltinPoolResult
collapse_extra [] out db = ok (out, db)
collapse_extra (t ∷ ts) out db =
    (do
      out' ← detach_rules_from_tunnel t.id out
      affected ← delete_tunnel_row t.id
      collapse_extra ts (record out' { removed_extra = out'.removed_extra ++ t.name ∷ [] }))
      db

-- UPDATE tunnels SET country = '' WHERE id = ?, and SET name = ?, whose violation is ignored.
unfoldable pub clear_country : String → Tunnel → Tunnel
clear_country id t = if t.id == id then record t { country = "" } else t

unfoldable pub rename : String → String → Tunnel → Tunnel
rename name id t = if t.id == id then record t { name = name } else t

unfoldable pub rename_tunnels : String → String → List Tunnel → List Tunnel
unfolding any rename
rename_tunnels name id ts =
    if any (λ t. t.id == id) ts && any (λ t. not (t.id == id) && (t.name == name)) ts
    then ts
    else map (rename name id) ts

-- What `collapseBuiltinPools` does to the pool that stays.
unfoldable pub normalize : Tunnel → BuiltinPoolResult → List Tunnel → List Tunnel
unfolding clear_country rename_tunnels
normalize survivor out ts =
    let cleared = if not (survivor.country == "") then map (clear_country survivor.id) ts else ts in
    if not (is_empty out.removed_extra) && not (survivor.name == builtin_pool_name)
    then rename_tunnels builtin_pool_name survivor.id cleared
    else cleared

unfoldable pub collapse_builtin_pools : Tunnel → List Tunnel → Tx BuiltinPoolResult
collapse_builtin_pools survivor extra = do
  out ← collapse_extra extra nothing_done
  λ db. ok (out, record db { tunnels = normalize survivor out db.tunnels })

abbrev pub new_builtin_pool : String → ℕ → String → String → Tunnel
new_builtin_pool fresh now catalog type = record {
  id = fresh;
  name = builtin_pool_name;
  type = type;
  source = source_pool;
  raw = catalog;
  parsed = "";
  enabled = false;
  created_at = some now;
  pool = [];
  pool_updated_at = none;
  builtin = true;
  country = "";
}

unfoldable pub ensure_builtin_pool_tx : (String → Bool) → Tunnel → Tx BuiltinPoolResult
ensure_builtin_pool_tx json_valid made db = elim (builtin_pools db.tunnels) [
  | [] ↦
      (do
        check (validate_tunnel json_valid made)
        wrap_tunnel_write_err (insert_tunnel made)
        pure (record nothing_done { created = true }))
        db
  | survivor ∷ extra ↦ collapse_builtin_pools survivor extra db
]

-- `EnsureBuiltinPool`; the arguments are `json.Valid`, the value of `newID()` and the time.
unfoldable pub ensure_builtin_pool :
    (String → Bool) → String → ℕ → String → String → Db → Result BuiltinPoolResult × Db
ensure_builtin_pool json_valid fresh now catalog type db =
    if catalog == ""
    then (err Error.invalid, db)
    else transaction (ensure_builtin_pool_tx json_valid (new_builtin_pool fresh now catalog type))
        db

-- ===== src/Store/Tunnels/Detach.antt =====
-- `detachRulesFromTunnel` frees every rule of the tunnel.
use mathlib.Core.List.{Nodup}
use razdacha.Prelude.{
  ◌≡◌, ◌≢◌, refl, fun_ext, ◌∙◌, true, false, not, List, [], ◌∷◌, map, inl, inr, String, ◌==◌,
  eq_iff, arith, Bool-cases, any, if◌then◌else◌, map_id,
}
use razdacha.Store.Model.{ok, Rule}
use razdacha.Store.Db.{Db}
use razdacha.Store.Tables.{order_by_priority}
use razdacha.Store.Rules.{ids_of}
use razdacha.Store.Rules.Order.{order_by_priority-perm}
use razdacha.Store.Rules.Reorder.{with_rules}
use razdacha.Store.Rows.{each_row, each_row-all, map-eq_of_mem}
use razdacha.Store.Tunnels.{refers_to}
use razdacha.Store.Tunnels.Builtin.{
  BuiltinPoolResult, RuleRef, refs_of, rule_refs_for_tunnel, detach_primary, detach_via, detach,
  report, detach_refs, detach_rules_from_tunnel,
}

-- A rule without its links to a tunnel: one whose first link it was is switched off, one whose second
-- link it was goes on by the first.
unfoldable pub detached : String → Rule → Rule
unfolding refers_to
detached tunnel r =
    if not (refers_to tunnel r)
    then r
    else if r.tunnel_id == tunnel
    then record r {
      tunnel_id = "";
      enabled = false;
      via_tunnel_id = if r.via_tunnel_id == tunnel then "" else r.via_tunnel_id;
    }
    else record r { via_tunnel_id = "" }

abbrev ref_of : String → Rule → RuleRef
ref_of tunnel r = record { id = r.id; name = r.name; primary = r.tunnel_id == tunnel }

detach_step : String → Rule → Rule → Rule
detach_step tunnel q r = if refers_to tunnel q then detach tunnel (ref_of tunnel q) r else r

detach_step-apart : (tunnel : String) (q r : Rule) → r.id ≢ q.id → detach_step tunnel q r ≡ r
unfolding detach_step detach detach_primary detach_via
detach_step-apart tunnel q r ne = ground (arith, eq_iff r.id q.id)

detach_step-id : (tunnel : String) (q r : Rule) → (detach_step tunnel q r).id ≡ r.id
unfolding detach_step detach detach_primary detach_via
detach_step-id tunnel q r = ground arith

detach_step_self : (tunnel : String) (r : Rule) → detach_step tunnel r r ≡ detached tunnel r
unfolding detach_step detach detach_primary detach_via detached
detach_step_self tunnel r = ground (arith, eq_iff r.id r.id)

detach_step-refers :
    (tunnel : String) (q : Rule)
    → refers_to tunnel q ≡ true
    → detach_step tunnel q ≡ detach tunnel (ref_of tunnel q)
unfolding detach_step
detach_step-refers tunnel q h = fun_ext (λ r. rw h refl)

detach_step-other :
    (tunnel : String) (q : Rule) (table : List Rule)
    → refers_to tunnel q ≡ false
    → map (detach_step tunnel q) table ≡ table
unfolding detach_step
detach_step-other tunnel q table h = map_id (detach_step tunnel q) table (λ r. rw h refl)

detach_refs-each_row :
    (tunnel : String) (qs : List Rule) (out : BuiltinPoolResult) (table : List Rule)
    → (detach_refs tunnel (refs_of tunnel qs) out table).1 ≡ each_row (detach_step tunnel) qs table
unfolding detach_refs refs_of each_row
detach_refs-each_row tunnel [] out table = refl
detach_refs-each_row tunnel (q ∷ qs) out table = elim (Bool-cases (refers_to tunnel q)) [
  | inl refers ↦
      rw (refers, detach_step-refers tunnel q refers)
        (detach_refs-each_row tunnel qs (report (ref_of tunnel q) out)
          (map (detach tunnel (ref_of tunnel q)) table))
  | inr other ↦
      rw (other, detach_step-other tunnel q table other) (detach_refs-each_row tunnel qs out table)
]

detach_refs-out :
    (tunnel : String) (refs : List RuleRef) (out : BuiltinPoolResult) (table : List Rule)
    → ((detach_refs tunnel refs out table).0.removed_extra ≡ out.removed_extra)
      × ((detach_refs tunnel refs out table).0.created ≡ out.created)
unfolding detach_refs report
detach_refs-out tunnel [] out table = (refl, refl)
detach_refs-out tunnel (ref ∷ refs) out table =
    detach_refs-out tunnel refs (report ref out) (map (detach tunnel ref) table)

-- The loop detaches every rule.
pub detach_rules_from_tunnel_lem :
    (tunnel : String) (out : BuiltinPoolResult) (db : Db)
    → Nodup (ids_of db.rules)
    → (out' : BuiltinPoolResult) × (detach_rules_from_tunnel tunnel out db
        ≡ ok (out', with_rules db (map (detached tunnel) db.rules)))
      × (out'.removed_extra ≡ out.removed_extra)
      × (out'.created ≡ out.created)
unfolding detach_rules_from_tunnel rule_refs_for_tunnel
detach_rules_from_tunnel_lem tunnel out db n =
    let rules = order_by_priority db.rules in
    let table : (detach_refs tunnel (refs_of tunnel rules) out db.rules).1
        ≡ map (detached tunnel) db.rules =
      detach_refs-each_row tunnel rules out db.rules
      ∙ each_row-all (detach_step tunnel) (detach_step-apart tunnel) (detach_step-id tunnel) rules
          db.rules n (order_by_priority-perm db.rules)
      ∙ map-eq_of_mem _ _ db.rules (λ r m. detach_step_self tunnel r) in
    let (removed, created) = detach_refs-out tunnel (refs_of tunnel rules) out db.rules in
    (
      (detach_refs tunnel (refs_of tunnel rules) out db.rules).0,
      ground (arith, table),
      removed,
      created,
    )

refers_to-detached : (tunnel : String) (r : Rule) → refers_to tunnel (detached tunnel r) ≡ false
unfolding detached refers_to
refers_to-detached tunnel r = ground (arith, eq_iff tunnel "", eq_iff "" tunnel)

-- After it no rule names the tunnel.
pub any-detached :
    (tunnel : String) (rules : List Rule)
    → any (refers_to tunnel) (map (detached tunnel) rules) ≡ false
unfolding any
any-detached tunnel [] = refl
any-detached tunnel (r ∷ rs) = ground (arith, refers_to-detached tunnel r, any-detached tunnel rs)

pub detached-id : (tunnel : String) (r : Rule) → (detached tunnel r).id ≡ r.id
unfolding detached
detached-id tunnel r = ground arith

pub detached-priority : (tunnel : String) (r : Rule) → (detached tunnel r).priority ≡ r.priority
unfolding detached
detached-priority tunnel r = ground arith

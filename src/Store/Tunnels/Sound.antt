-- ===== src/Store/Tunnels/Sound.antt =====
-- `EnsureBuiltinPool` leaves no reference to a tunnel that it removed.
use mathlib.Core.List.{Mem, mem-map, mem-cons_self, mem-cons_of_mem, Nodup}
use mathlib.Core.Bool.{Bool-set}
use mathlib.Core.Logic.{∥∥₁_elim}
use razdacha.Prelude.{
  ap, ℕ, ◌≡◌, ◌≢◌, ◌⊎◌, refl, ◌∙◌, subst, Bool, true, false, ◌&&◌, List, [], ◌∷◌, map, inl, inr,
  String, ◌==◌, eq_iff, arith, Bool-cases, Option, none, some, any,
}
use razdacha.Store.Model.{ok, Tunnel, Rule}
use razdacha.Store.Db.{Db}
use razdacha.Store.Tables.{tunnel_exists}
use razdacha.Store.Peers.{egress_exists}
use razdacha.Store.Rules.Reorder.{with_rules}
use razdacha.Store.Rules.Order.{IsPlaced}
use razdacha.Store.Tunnels.{exits_by, refers_to, without_tunnel}
use razdacha.Store.Tunnels.References.{IsSound, without_tunnel_row-IsSound}
use razdacha.Store.Tunnels.Detach.{detached, any-detached}
use razdacha.Store.Tunnels.Single.{tunnel_ids_of, without_all}
use razdacha.Store.Tunnels.Builtin.{BuiltinPoolResult, builtin_pools, ensure_builtin_pool}
use razdacha.Store.Tunnels.Collapse.{detached_all, with_tables, normalize-IsNormalized, ensured}

abbrev links : List Tunnel → Rule → Bool
links ts r = tunnel_exists ts r.tunnel_id && tunnel_exists ts r.via_tunnel_id

tunnel_exists-eq :
    (ts : List Tunnel) (x y : String)
    → (x ≡ "") ⊎ (x ≡ y)
    → tunnel_exists ts y ≡ true
    → tunnel_exists ts x ≡ true
unfolding tunnel_exists
tunnel_exists-eq ts x y (inl e) h = ground (arith, (eq_iff x "").1 e)
tunnel_exists-eq ts x y (inr e) h = rw e h

detached-links :
    (tunnel : String) (r : Rule)
    → (((detached tunnel r).tunnel_id ≡ "") ⊎ ((detached tunnel r).tunnel_id ≡ r.tunnel_id))
      × (((detached tunnel r).via_tunnel_id ≡ "")
          ⊎ ((detached tunnel r).via_tunnel_id ≡ r.via_tunnel_id))
unfolding detached
detached-links tunnel r = elim (Bool-cases (refers_to tunnel r)) [
  | inr other ↦ (inr (ground (arith, other)), inr (ground (arith, other)))
  | inl refers ↦ elim (Bool-cases (r.tunnel_id == tunnel)) [
    | inl first ↦ elim (Bool-cases (r.via_tunnel_id == tunnel)) [
      | inl both ↦ (inl (ground (arith, refers, first)), inl (ground (arith, refers, first, both)))
      | inr one ↦ (inl (ground (arith, refers, first)), inr (ground (arith, refers, first, one)))
    ]
    | inr second ↦ (inr (ground (arith, refers, second)), inl (ground (arith, refers, second)))
  ]
]

links-detached :
    (tunnel : String) (ts : List Tunnel) (r : Rule)
    → links ts r ≡ true
    → links ts (detached tunnel r) ≡ true
links-detached tunnel ts r h =
    let (first, second) = detached-links tunnel r in
    let one =
      tunnel_exists-eq ts (detached tunnel r).tunnel_id r.tunnel_id first (ground (arith, h)) in
    let two =
      tunnel_exists-eq ts (detached tunnel r).via_tunnel_id r.via_tunnel_id second
        (ground (arith, h)) in
    ground (arith, one, two)

detached-IsSound :
    (tunnel : String) (db : Db)
    → IsSound db
    → IsSound (with_rules db (map (detached tunnel) db.rules))
detached-IsSound tunnel db s = record {
  rules = λ r m. ∥∥₁_elim (mem-map.0 m) (Bool-set _ _) λ (q, mq, e).
      subst (λ x. links db.tunnels x ≡ true) e (links-detached tunnel db.tunnels q (s.rules q mq));
  peers = s.peers;
}

collapsed-IsSound :
    (es : List Tunnel) (db : Db)
    → ((e : Tunnel) → Mem e es → any (exits_by e.id) db.peers ≡ false)
    → IsSound db
    → IsSound (with_tables db (without_all es db.tunnels) (detached_all es db.rules))
unfolding without_all detached_all
collapsed-IsSound [] db exits s = s
collapsed-IsSound (e ∷ es) db exits s =
    let free = detached-IsSound e.id db s in
    let row =
      without_tunnel_row-IsSound e.id (with_rules db (map (detached e.id) db.rules))
        (exits e mem-cons_self) (any-detached e.id db.rules) free in
    collapsed-IsSound es
      (with_tables db (without_tunnel e.id db.tunnels) (map (detached e.id) db.rules))
      (λ t m. exits t (mem-cons_of_mem e m)) row

any-map_id :
    (f : Tunnel → Tunnel) (x : String) (ts : List Tunnel)
    → ((t : Tunnel) → (f t).id ≡ t.id)
    → any (λ t. t.id == x) (map f ts) ≡ any (λ t. t.id == x) ts
unfolding any
any-map_id f x [] h = refl
any-map_id f x (t ∷ ts) h = ground (arith, h t, any-map_id f x ts h)

egress_exists-map :
    (f : Tunnel → Tunnel) (ts : List Tunnel) (exit : Option String)
    → ((t : Tunnel) → (f t).id ≡ t.id)
    → egress_exists (map f ts) exit ≡ egress_exists ts exit
unfolding egress_exists
egress_exists-map f ts none h = refl
egress_exists-map f ts (some x) h = any-map_id f x ts h

-- A change of rows that keeps their ids keeps the references.
renamed-IsSound :
    (f : Tunnel → Tunnel) (db : Db)
    → ((t : Tunnel) → (f t).id ≡ t.id)
    → IsSound db
    → IsSound (record db { tunnels = map f db.tunnels })
unfolding tunnel_exists
renamed-IsSound f db h s = record {
  rules = λ r m.
      rw (any-map_id f r.tunnel_id db.tunnels h, any-map_id f r.via_tunnel_id db.tunnels h)
        (s.rules r m);
  peers = λ p m. egress_exists-map f db.tunnels p.egress_tunnel_id h ∙ s.peers p m;
}

-- `EnsureBuiltinPool` on a database with built-in pools, of which no extra one is the exit of a peer,
-- succeeds: the foreign keys do not stop the deletion of the extra pools. It leaves no reference to a
-- tunnel that does not exist, if there was none before.
pub ensure_builtin_pool-IsSound :
    {ids : List String} (db : Db)
    → IsPlaced ids db.rules
    → Nodup (tunnel_ids_of db.tunnels)
    → (s : Tunnel) (es : List Tunnel) → builtin_pools db.tunnels ≡ s ∷ es
    → ((e : Tunnel) → Mem e es → any (exits_by e.id) db.peers ≡ false)
    → (json_valid : String → Bool) (fresh : String) (now : ℕ) (catalog type : String) → catalog ≢ ""
    → IsSound db
    → (out : BuiltinPoolResult) × ((ensure_builtin_pool json_valid fresh now catalog type db).0
        ≡ ok out)
      × IsSound (ensure_builtin_pool json_valid fresh now catalog type db).1
ensure_builtin_pool-IsSound db h n s es pools exits json_valid fresh now catalog type url sound =
    let (out, done, _, _) = ensured db h n s es pools exits json_valid fresh now catalog type url in
    let tidy = normalize-IsNormalized s out (without_all es db.tunnels) in
    let kept = renamed-IsSound tidy.row _ tidy.id (collapsed-IsSound es db exits sound) in
    (out, ap (λ r. r.0) done, rw (done, tidy.all) kept)

-- ===== src/Store/Tunnels/Tests.antt =====
-- The tunnels at concrete inputs.
use mathlib.Core.List.{Mem, Nodup, Nodup-nil, Nodup-cons, mem-cons, not-mem-nil}
use mathlib.Core.Logic.Or
use mathlib.Core.Bool.{Bool-set, ◌&&◌}
use mathlib.Core.Logic.{∥∥₁_elim}
use mathlib.Core.Path.{subst}
use mathlib.Core.List.{mem-map}
use razdacha.Prelude.{ℕ, ◌≡◌, ◌≢◌, refl, Bool, true, false, [], ◌∷◌, map, String, none, some, any}
use razdacha.Store.Text.{contains}
use razdacha.Store.Model.{ok, Rule, Tunnel, source_pool}
use razdacha.Store.Db.{Db}
use razdacha.Store.Tables.{tunnel_exists}
use razdacha.Store.Rules.Order.{IsPlaced, map-IsPlaced}
use razdacha.Store.Tests.{rule, three, small, small-IsPlaced, absent}
use razdacha.Store.Tunnels.{exits_by, delete_tunnel}
use razdacha.Store.Tunnels.Builtin.{
  BuiltinPoolResult, builtin_pools, insert_by_creation, order_by_creation, created_before, pools_of,
  ensure_builtin_pool,
}
use razdacha.Store.Tunnels.References.{IsSound, IsAnswered, delete_tunnel-IsSound}
use razdacha.Store.Tunnels.Single.{tunnel_ids_of}
use razdacha.Store.Tunnels.Sound.{ensure_builtin_pool-IsSound}
use razdacha.Store.Tunnels.Collapse.{ensure_builtin_pool-single}

abbrev pool : String → ℕ → String → Tunnel
pool id at country = record {
  id = id;
  name = id;
  type = "vless";
  source = source_pool;
  raw = "https://example.org/";
  parsed = "";
  enabled = true;
  created_at = some at;
  pool = [];
  pool_updated_at = none;
  builtin = true;
  country = country;
}

abbrev through : String → Rule → Rule
through id r = record r { tunnel_id = id; via_tunnel_id = ""; action = "tunnel" }

-- Two pools of countries, the second of which every rule uses.
abbrev two_pools : Db
two_pools = record small {
  tunnels = pool "q" 2 "DE" ∷ pool "p" 1 "NL" ∷ [];
  rules = map (through "q") small.rules;
}

two_pools-IsPlaced : IsPlaced three two_pools.rules
two_pools-IsPlaced = map-IsPlaced (through "q") (λ r. refl) (λ r. refl) small-IsPlaced

two_pools-Nodup : Nodup (tunnel_ids_of two_pools.tunnels)
unfolding contains
two_pools-Nodup =
    Nodup-cons.1 (absent "q" ("p" ∷ []) refl, Nodup-cons.1 (absent "p" [] refl, Nodup-nil))

pools : builtin_pools two_pools.tunnels ≡ pool "p" 1 "NL" ∷ pool "q" 2 "DE" ∷ []
unfolding builtin_pools order_by_creation insert_by_creation created_before pools_of
pools = refl

exits : (e : Tunnel) → Mem e (pool "q" 2 "DE" ∷ []) → any (exits_by e.id) two_pools.peers ≡ false
unfolding any
exits e m = refl

abbrev catalog : String
catalog = "https://example.org/"

url : catalog ≢ ""
url e = cc

abbrev any_json : String → Bool
any_json s = true

ensure_builtin_pool-single_example :
    (out : BuiltinPoolResult) × (stays : Tunnel) × ((ensure_builtin_pool any_json "n" 5 catalog
        "vless" two_pools).0
      ≡ ok out)
    × (builtin_pools (ensure_builtin_pool any_json "n" 5 catalog "vless" two_pools).1.tunnels
        ≡ stays ∷ [])
    × (stays.id ≡ "p")
    × (stays.country ≡ "")
    × (out.removed_extra ≡ "q" ∷ [])
    × (out.created ≡ false)
    × IsPlaced three (ensure_builtin_pool any_json "n" 5 catalog "vless" two_pools).1.rules
ensure_builtin_pool-single_example =
    ensure_builtin_pool-single two_pools two_pools-IsPlaced two_pools-Nodup (pool "p" 1 "NL")
      (pool "q" 2 "DE" ∷ []) pools exits any_json "n" 5 catalog "vless" url

-- A tunnel that one rule uses, and one that is free.
abbrev two_tunnels : Db
two_tunnels = record small {
  tunnels = pool "q" 2 "" ∷ (record (pool "p" 1 "") { builtin = false }) ∷ [];
  rules = through "q" (rule "a") ∷ [];
}

two_tunnels-IsSound : IsSound two_tunnels
unfolding tunnel_exists any
two_tunnels-IsSound = record {
  rules =
      λ r m. Or.elim (Bool-set _ _) (mem-cons.0 m) (λ e. rw e refl) (λ t. absurd (not-mem-nil t));
  peers = λ p m. absurd (not-mem-nil m);
}

delete_tunnel-IsSound_example :
    IsAnswered "q" two_tunnels (delete_tunnel "q" two_tunnels)
    × IsSound (delete_tunnel "q" two_tunnels).1
delete_tunnel-IsSound_example = delete_tunnel-IsSound "q" two_tunnels two_tunnels-IsSound

two_pools-IsSound : IsSound two_pools
unfolding tunnel_exists any
two_pools-IsSound = record {
  rules = λ r m.
      ∥∥₁_elim ((mem-map {A = Rule} {f = through "q"} {l = small.rules}).0 m) (Bool-set _ _)
        λ (q, _, e).
          subst
            (λ (x : Rule).
              (tunnel_exists two_pools.tunnels x.tunnel_id
                && tunnel_exists two_pools.tunnels x.via_tunnel_id)
              ≡ true)
            e refl;
  peers = λ p m. absurd (not-mem-nil m);
}

ensure_builtin_pool-IsSound_example :
    (out : BuiltinPoolResult) × ((ensure_builtin_pool any_json "n" 5 catalog "vless" two_pools).0
      ≡ ok out)
    × IsSound (ensure_builtin_pool any_json "n" 5 catalog "vless" two_pools).1
ensure_builtin_pool-IsSound_example =
    ensure_builtin_pool-IsSound two_pools two_pools-IsPlaced two_pools-Nodup (pool "p" 1 "NL")
      (pool "q" 2 "DE" ∷ []) pools exits any_json "n" 5 catalog "vless" url two_pools-IsSound

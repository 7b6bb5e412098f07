-- ===== src/Store/Tunnels/Single.antt =====
-- The lists of tunnels that `EnsureBuiltinPool` works on.
use mathlib.Core.Logic.Or
use mathlib.Core.Logic.{if_pos, if_neg}
use mathlib.Core.List.{
  Mem, Mem-prop, Nodup, Perm, filter, mem-cons, mem-cons_self, mem-cons_of_mem, not-mem-nil,
  mem-map_of_mem, Nodup-cons, mem-singleton,
}
use mathlib.Core.List
use mathlib.Core.List.Perm
use razdacha.Prelude.{
  ◌≡◌, ◌≢◌, refl, sym, ◌∙◌, ap, ap₂, subst, List, [], ◌∷◌, map, inl, inr, String, ◌==◌, eq_iff,
  arith, Bool-cases,
}
use razdacha.Store.Text.{String-set}
use razdacha.Store.Model.{Tunnel}
use razdacha.Store.Rules.Delete.{dec_other}
use razdacha.Store.Tunnels.{without_tunnel}
use razdacha.Store.Tunnels.Builtin.{
  created_before, insert_by_creation, order_by_creation, is_builtin_pool, pools_of, builtin_pools,
}

abbrev pub tunnel_ids_of : List Tunnel → List String
tunnel_ids_of = map (λ t. t.id)

pools_of-cons :
    (t : Tunnel) (ts us : List Tunnel)
    → Perm (pools_of ts) (pools_of us)
    → Perm (pools_of (t ∷ ts)) (pools_of (t ∷ us))
unfolding pools_of
pools_of-cons t ts us p = elim (Bool-cases (is_builtin_pool t)) [
  | inl pool ↦ rw pool (Perm.cons t p)
  | inr other ↦ rw other p
]

pools_of-swap :
    (t u : Tunnel) (ts : List Tunnel) → Perm (pools_of (u ∷ t ∷ ts)) (pools_of (t ∷ u ∷ ts))
unfolding pools_of
pools_of-swap t u ts = elim (Bool-cases (is_builtin_pool t)) [
  | inl pool_t ↦ elim (Bool-cases (is_builtin_pool u)) [
    | inl pool_u ↦ rw (pool_t, pool_u) (Perm.swap t u (pools_of ts))
    | inr other_u ↦ rw (pool_t, other_u) (Perm.refl _)
  ]
  | inr other_t ↦ rw other_t (Perm.refl _)
]

pools_of-insert :
    (t : Tunnel) (us : List Tunnel) → Perm (pools_of (insert_by_creation t us)) (pools_of (t ∷ us))
unfolding insert_by_creation
pools_of-insert t [] = Perm.refl _
pools_of-insert t (u ∷ us) = elim (Bool-cases (created_before t u)) [
  | inl first ↦ rw first (Perm.refl _)
  | inr later ↦
      rw later (Perm.trans (pools_of-cons u _ _ (pools_of-insert t us)) (pools_of-swap t u us))
]

pub builtin_pools-perm : (ts : List Tunnel) → Perm (builtin_pools ts) (pools_of ts)
unfolding builtin_pools order_by_creation
builtin_pools-perm [] = Perm.refl _
builtin_pools-perm (t ∷ ts) =
    Perm.trans (pools_of-insert t (order_by_creation ts))
      (pools_of-cons t _ _ (builtin_pools-perm ts))

without_tunnel-filter :
    (id : String) (ts : List Tunnel)
    → without_tunnel id ts ≡ filter (λ (t : Tunnel). dec_other id t.id) ts
unfolding without_tunnel
without_tunnel-filter id [] = refl
without_tunnel-filter id (t ∷ ts) = elim (Bool-cases (t.id == id)) [
  | inl same ↦
      rw (same, if_neg (dec_other id t.id) (λ ne. ne ((eq_iff t.id id).0 same)))
        (without_tunnel-filter id ts)
  | inr other ↦
      rw (other, if_pos (dec_other id t.id) (λ e. cc (other, (eq_iff t.id id).1 e)))
        (ap (◌∷◌ t) (without_tunnel-filter id ts))
]

pools_of-without :
    (id : String) (ts : List Tunnel)
    → pools_of (without_tunnel id ts) ≡ without_tunnel id (pools_of ts)
unfolding pools_of without_tunnel
pools_of-without id [] = refl
pools_of-without id (t ∷ ts) = ground (arith, pools_of-without id ts)

-- The table without the given rows.
unfoldable pub without_all : List Tunnel → List Tunnel → List Tunnel
without_all [] ts = ts
without_all (e ∷ es) ts = without_all es (without_tunnel e.id ts)

without_all-Perm :
    (es ts us : List Tunnel) → Perm ts us → Perm (without_all es ts) (without_all es us)
unfolding without_all
without_all-Perm [] ts us p = p
without_all-Perm (e ∷ es) ts us p =
    without_all-Perm es (without_tunnel e.id ts) (without_tunnel e.id us) (
      rw (without_tunnel-filter e.id ts, without_tunnel-filter e.id us)
        (Perm.filter (λ (t : Tunnel). dec_other e.id t.id) p))

pools_of-without_all :
    (es ts : List Tunnel) → pools_of (without_all es ts) ≡ without_all es (pools_of ts)
unfolding without_all
pools_of-without_all [] ts = refl
pools_of-without_all (e ∷ es) ts =
    pools_of-without_all es (without_tunnel e.id ts)
    ∙ ap (without_all es) (pools_of-without e.id ts)

without_tunnel-absent :
    (id : String) (ts : List Tunnel) → ¬ Mem id (tunnel_ids_of ts) → without_tunnel id ts ≡ ts
unfolding without_tunnel
without_tunnel-absent id [] h = refl
without_tunnel-absent id (t ∷ ts) h = elim (Bool-cases (t.id == id)) [
  | inl same ↦ absurd (h (mem-cons.1 (Or.inl (sym ((eq_iff t.id id).0 same)))))
  | inr other ↦
      rw other (ap (◌∷◌ t) (without_tunnel-absent id ts (λ m. h (mem-cons_of_mem t.id m))))
]

without_tunnel-second :
    (s t : Tunnel) (ts : List Tunnel)
    → Nodup (tunnel_ids_of (s ∷ t ∷ ts))
    → without_tunnel t.id (s ∷ t ∷ ts) ≡ s ∷ ts
unfolding without_tunnel
without_tunnel-second s t ts n =
    let (apart, rest) = Nodup-cons.0 n in
    let absent = without_tunnel-absent t.id ts (Nodup-cons.0 rest).0 in
    let ne : s.id ≢ t.id = λ e. apart (mem-cons.1 (Or.inl e)) in
    ground (arith, absent, eq_iff s.id t.id, eq_iff t.id t.id)

-- Of distinct pools the first stays when all others go.
without_all-first :
    (s : Tunnel) (es : List Tunnel)
    → Nodup (tunnel_ids_of (s ∷ es))
    → without_all es (s ∷ es) ≡ s ∷ []
unfolding without_all
without_all-first s [] n = refl
without_all-first s (e ∷ es) n =
    ap (without_all es) (without_tunnel-second s e es n)
    ∙ without_all-first s es (
        let (apart, rest) = Nodup-cons.0 n in
        Nodup-cons.1 (λ m. apart (mem-cons_of_mem e.id m), (Nodup-cons.0 rest).1))

Tunnel-set : IsSet Tunnel
Tunnel-set = hlevel (String-set)

perm-singleton : (ts : List Tunnel) (s : Tunnel) → Perm ts (s ∷ []) → ts ≡ s ∷ []
perm-singleton [] s p = absurd (List.nil≢cons (Perm.nil-eq p))
perm-singleton (t ∷ ts) s p =
    let here : t ≡ s = (mem-singleton Tunnel-set).0 ((Perm.mem_iff p).0 mem-cons_self) in
    let same : Perm (s ∷ ts) (s ∷ []) = subst (λ x. Perm (x ∷ ts) (s ∷ [])) here p in
    ap₂ ◌∷◌ here (Perm.eq-nil (Perm.cons_inv same))

pools_of-mem : (ts : List Tunnel) (t : Tunnel) → Mem t (pools_of ts) → Mem t ts
unfolding pools_of
pools_of-mem [] t m = m
pools_of-mem (u ∷ us) t m = elim (Bool-cases (is_builtin_pool u)) [
  | inl pool ↦
      Or.elim Mem-prop (mem-cons.0 (rw pool at m)) (λ e. mem-cons.1 (Or.inl e))
        (λ later. mem-cons_of_mem u (pools_of-mem us t later))
  | inr other ↦ mem-cons_of_mem u (pools_of-mem us t (rw other at m))
]

pools_of-ids :
    (ts : List Tunnel) (id : String)
    → Mem id (tunnel_ids_of (pools_of ts))
    → Mem id (tunnel_ids_of ts)
unfolding pools_of
pools_of-ids [] id m = m
pools_of-ids (u ∷ us) id m = elim (Bool-cases (is_builtin_pool u)) [
  | inl pool ↦
      Or.elim Mem-prop (mem-cons.0 (rw pool at m)) (λ e. mem-cons.1 (Or.inl e))
        (λ later. mem-cons_of_mem u.id (pools_of-ids us id later))
  | inr other ↦ mem-cons_of_mem u.id (pools_of-ids us id (rw other at m))
]

pools_of-Nodup : (ts : List Tunnel) → Nodup (tunnel_ids_of ts) → Nodup (tunnel_ids_of (pools_of ts))
unfolding pools_of
pools_of-Nodup [] n = n
pools_of-Nodup (t ∷ ts) n =
    let (fresh, rest) = Nodup-cons.0 n in
    elim (Bool-cases (is_builtin_pool t)) [
      | inl pool ↦
          rw pool (Nodup-cons.1 (λ m. fresh (pools_of-ids ts t.id m), pools_of-Nodup ts rest))
      | inr other ↦ rw other (pools_of-Nodup ts rest)
    ]

-- The built-in pools of a table from which all of them but the first were deleted.
pub pools_of-without_extra :
    (ts : List Tunnel) (s : Tunnel) (es : List Tunnel)
    → Nodup (tunnel_ids_of ts)
    → builtin_pools ts ≡ s ∷ es
    → pools_of (without_all es ts) ≡ s ∷ []
pools_of-without_extra ts s es n e =
    let p : Perm (s ∷ es) (pools_of ts) =
      subst (λ l. Perm l (pools_of ts)) e (builtin_pools-perm ts) in
    let distinct =
      Perm.nodup (Perm.symm (Perm.map (λ (t : Tunnel). t.id) p)) (pools_of-Nodup ts n) in
    perm-singleton (pools_of (without_all es ts)) s (
      rw (pools_of-without_all es ts, ← without_all-first s es distinct)
        (without_all-Perm es (pools_of ts) (s ∷ es) (Perm.symm p)))

pub builtin_pools-singleton :
    (ts : List Tunnel) (s : Tunnel) → pools_of ts ≡ s ∷ [] → builtin_pools ts ≡ s ∷ []
builtin_pools-singleton ts s e =
    perm-singleton (builtin_pools ts) s (subst (Perm (builtin_pools ts)) e (builtin_pools-perm ts))

pub pools_of-map :
    (f : Tunnel → Tunnel) (ts : List Tunnel)
    → ((t : Tunnel) → is_builtin_pool (f t) ≡ is_builtin_pool t)
    → pools_of (map f ts) ≡ map f (pools_of ts)
unfolding pools_of
pools_of-map f [] h = refl
pools_of-map f (t ∷ ts) h = ground (arith, h t, pools_of-map f ts h)

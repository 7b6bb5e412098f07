-- ===== src/Store/Rows.antt =====
-- A loop that updates the rows of the rule table one by one, by their ids.
use mathlib.Core.Logic.Or
use mathlib.Core.List.{
  Mem, Mem-prop, Nodup, Perm, mem-cons, mem-cons_self, mem-cons_of_mem, not-mem-nil, mem-map_of_mem,
  Nodup-cons,
}
use mathlib.Core.List.Perm
use razdacha.Prelude.{◌≡◌, ◌≢◌, refl, sym, ◌∙◌, ap, ap₂, subst, List, [], ◌∷◌, map, map_id}
use razdacha.Store.Text.{String-discrete, String-set}
use razdacha.Store.Model.{Rule}
use razdacha.Store.Rules.{ids_of}

-- Each of the rows read before the loop makes one update, `step`, of the table.
unfoldable pub each_row : (Rule → Rule → Rule) → List Rule → List Rule → List Rule
each_row step [] table = table
each_row step (q ∷ qs) table = each_row step qs (map (step q) table)

-- What a loop makes of one row.
by_rows : (Rule → Rule → Rule) → List Rule → Rule → Rule
by_rows step [] r = r
by_rows step (q ∷ qs) r = by_rows step qs (step q r)

map-map : (f g : Rule → Rule) (rules : List Rule) → map g (map f rules) ≡ map (λ r. g (f r)) rules
map-map f g [] = refl
map-map f g (r ∷ rs) = ap (◌∷◌ (g (f r))) (map-map f g rs)

each_row-map :
    (step : Rule → Rule → Rule) (qs table : List Rule)
    → each_row step qs table ≡ map (by_rows step qs) table
unfolding each_row by_rows
each_row-map step [] table = sym (map_id (λ r. r) table (λ r. refl))
each_row-map step (q ∷ qs) table =
    each_row-map step qs (map (step q) table) ∙ map-map (step q) (by_rows step qs) table

pub map-eq_of_mem :
    (f g : Rule → Rule) (rules : List Rule)
    → ((r : Rule) → Mem r rules → f r ≡ g r)
    → map f rules ≡ map g rules
map-eq_of_mem f g [] h = refl
map-eq_of_mem f g (r ∷ rs) h =
    ap₂ ◌∷◌ (h r mem-cons_self) (map-eq_of_mem f g rs (λ q m. h q (mem-cons_of_mem r m)))

Rule-set : IsSet Rule
Rule-set = hlevel (String-set)

module _ (step : Rule → Rule → Rule) (apart : (q r : Rule) → r.id ≢ q.id → step q r ≡ r)
    (keep : (q r : Rule) → (step q r).id ≡ r.id) where
  by_rows-absent : (qs : List Rule) (r : Rule) → ¬ Mem r.id (ids_of qs) → by_rows step qs r ≡ r
  unfolding by_rows
  by_rows-absent [] r h = refl
  by_rows-absent (q ∷ qs) r h =
      rw (apart q r (λ e. h (mem-cons.1 (Or.inl e))))
        (by_rows-absent qs r (λ m. h (mem-cons_of_mem q.id m)))

  by_rows-present :
      (qs : List Rule) (r : Rule) → Nodup (ids_of qs) → Mem r qs → by_rows step qs r ≡ step r r
  unfolding by_rows
  by_rows-present [] r n m = absurd (not-mem-nil m)
  by_rows-present (q ∷ qs) r n m =
      let (fresh, rest) = Nodup-cons.0 n in
      elim (String-discrete r.id q.id) [
        | yes same ↦
            let here : r ≡ q =
              Or.elim (Rule-set _ _) (mem-cons.0 m) (λ e. e)
                (λ t. absurd (
                  fresh (
                    subst (λ x. Mem x (ids_of qs)) same
                      (mem-map_of_mem (λ (x : Rule). x.id) t)))) in
            subst (λ x. by_rows step qs (step x r) ≡ step r r) here
              (by_rows-absent qs (step r r) (rw (keep r r, same) fresh))
        | no ne ↦
            let later : Mem r qs =
              Or.elim Mem-prop (mem-cons.0 m) (λ e. absurd (ne (ap (λ (x : Rule). x.id) e)))
                (λ t. t) in
            rw (apart q r ne) (by_rows-present qs r rest later)
      ]

  -- When every row makes its update, and identifiers are not repeated, each row is the result of its
  -- own update.
  pub each_row-all :
      (qs table : List Rule)
      → Nodup (ids_of table)
      → Perm qs table
      → each_row step qs table ≡ map (λ r. step r r) table
  each_row-all qs table n p =
      each_row-map step qs table
      ∙ map-eq_of_mem (by_rows step qs) (λ r. step r r) table
          (λ r m.
            by_rows-present qs r (Perm.nodup (Perm.symm (Perm.map (λ (x : Rule). x.id) p)) n)
              ((Perm.mem_iff p).1 m))

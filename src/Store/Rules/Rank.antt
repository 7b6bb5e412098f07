-- ===== src/Store/Rules/Rank.antt =====
-- Orders of identifiers: the place of an identifier in a list without repetitions, and the fact that
-- a sorted list is determined by its members.
use mathlib.Core.Logic.Or
use mathlib.Core.List.{
  Mem, Nodup, Pairwise, Perm, mem-cons, mem-cons_self, mem-cons_of_mem, not-mem-nil, Nodup-cons,
  Pairwise-cons,
}
use mathlib.Core.List.Pairwise
use mathlib.Core.List.Perm
use native.Mathlib.Bridge.{le_prop}
use native.Mathlib.Nat.{ℕ_set}
use razdacha.Prelude.{
  ℕ, zero, suc, ◌≤◌, ◌<◌, ◌≡◌, ◌≢◌, sym, ap, ap₂, subst, ◌∙◌, List, [], ◌∷◌, ◌++◌, String, ◌==◌,
  eq_iff, arith, if◌then◌else◌, length,
}
use razdacha.Store.Text.{String-set}

-- The number of identifiers in front of `x`.
unfoldable pub index : List String → String → ℕ
index [] x = zero
index (y ∷ ys) x = if y == x then zero else suc (index ys x)

pub index-head : (x : String) (xs : List String) → index (x ∷ xs) x ≡ 0
unfolding index
index-head x xs = ground (arith, eq_iff x x)

pub index-tail : (y x : String) (ys : List String) → y ≢ x → index (y ∷ ys) x ≡ suc (index ys x)
unfolding index
index-tail y x ys h = ground (arith, eq_iff y x)

pub index-lt-length : (xs : List String) (x : String) → Mem x xs → index xs x < length xs
unfolding index
index-lt-length [] x m = absurd (not-mem-nil m)
index-lt-length (y ∷ ys) x m =
    Or.elim le_prop (mem-cons.0 m) (λ e. ground (arith, eq_iff y x))
      (λ t. ground (arith, index-lt-length ys x t))

pub index-append : (xs ys : List String) (x : String) → Mem x xs → index (xs ++ ys) x ≡ index xs x
unfolding index
index-append [] ys x m = absurd (not-mem-nil m)
index-append (z ∷ zs) ys x m =
    Or.elim (ℕ_set _ _) (mem-cons.0 m) (λ e. ground (arith, eq_iff z x))
      (λ t. ground (arith, index-append zs ys x t))

pub index_new : (xs : List String) (x : String) → ¬ Mem x xs → index (xs ++ x ∷ []) x ≡ length xs
unfolding index
index_new [] x h = ground (arith, eq_iff x x)
index_new (y ∷ ys) x h =
    index-tail y x (ys ++ x ∷ []) (λ e. h (mem-cons.1 (Or.inl (sym e))))
    ∙ ap suc (index_new ys x (λ m. h (mem-cons_of_mem y m)))

pub index-injective :
    (xs : List String) (a b : String) → Mem a xs → Mem b xs → index xs a ≡ index xs b → a ≡ b
unfolding index
index-injective [] a b m n h = absurd (not-mem-nil m)
index-injective (y ∷ ys) a b m n h =
    Or.elim (String-set _ _) (mem-cons.0 m) (λ e. ground (arith, eq_iff y a, eq_iff y b))
      (λ s.
        Or.elim (String-set _ _) (mem-cons.0 n) (λ e. ground (arith, eq_iff y a, eq_iff y b))
          (λ t. ground (arith, eq_iff y a, eq_iff y b, index-injective ys a b s t)))

abbrev pub RankLe : List String → String → String → Type 0
RankLe ids a b = index ids a ≤ index ids b

-- A list without repetitions is sorted by its own places.
pub Pairwise-index : (ids : List String) → Nodup ids → Pairwise (RankLe ids) ids
Pairwise-index [] n = Pairwise.nil
Pairwise-index (y ∷ ys) n =
    let (fresh, rest) = Nodup-cons.0 n in
    let apart : (a : String) → Mem a ys → y ≢ a = λ a m e. fresh (rw e m) in
    Pairwise-cons.1 (
      λ a m. omega (arith, index-head y ys),
      Pairwise.imp_of_mem
          (λ a b ma mb h.
            omega (arith, index-tail y a ys (apart a ma), index-tail y b ys (apart b mb)))
          (Pairwise-index ys rest),
    )

-- Two lists with the same members, both sorted by a key that tells the members apart, are equal.
pub sorted-eq_of_perm :
    (key : String → ℕ) (xs ys : List String)
    → ((a b : String) → Mem a ys → Mem b ys → key a ≡ key b → a ≡ b)
    → Pairwise (λ a b. key a ≤ key b) xs
    → Pairwise (λ a b. key a ≤ key b) ys
    → Perm xs ys
    → xs ≡ ys
sorted-eq_of_perm key [] ys inj s t p = Perm.nil-eq p
sorted-eq_of_perm key (x ∷ xs) [] inj s t p = Perm.eq-nil p
sorted-eq_of_perm key (x ∷ xs) (y ∷ ys) inj s t p =
    let (sx, sxs) = Pairwise-cons.0 s in
    let (ty, tys) = Pairwise-cons.0 t in
    let mx : Mem x (y ∷ ys) = (Perm.mem_iff p).0 mem-cons_self in
    let my : Mem y (x ∷ xs) = (Perm.mem_iff p).1 mem-cons_self in
    let below : key x ≤ key y =
      Or.elim le_prop (mem-cons.0 my) (λ e. rw e (omega arith)) (λ m. sx y m) in
    let above : key y ≤ key x =
      Or.elim le_prop (mem-cons.0 mx) (λ e. rw e (omega arith)) (λ m. ty x m) in
    let same : x ≡ y = inj x y mx mem-cons_self (omega arith) in
    let q : Perm (y ∷ xs) (y ∷ ys) = subst (λ z. Perm (z ∷ xs) (y ∷ ys)) same p in
    ap₂ ◌∷◌ same (
      sorted-eq_of_perm key xs ys (λ a b m n. inj a b (mem-cons_of_mem y m) (mem-cons_of_mem y n))
        sxs tys (Perm.cons_inv q))

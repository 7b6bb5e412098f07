-- ===== src/Store/Rules/SameSet.antt =====
-- `sameSet`: it accepts exactly the permutations of the current order.
use mathlib.Core.Logic.Or
use mathlib.Core.List
use mathlib.Core.List.{
  Mem, Nodup, Perm, Permᴰ, Mem-prop, mem-cons, mem-cons_self, mem-cons_of_mem, not-mem-nil,
  Nodup-cons, Nodup-nil,
}
use mathlib.Core.HLevel.{⊥_prop, Π_prop}
use mathlib.Core.Nat
use mathlib.Core.Logic.{∥∥₁_elim}
use native.Mathlib.Nat.{ℕ_set}
use mathlib.Core.List.Nodup
use mathlib.Core.List.Subperm
use mathlib.Core.List.Perm
use razdacha.Prelude.{
  suc, ◌≡◌, ◌↔◌, refl, ap, subst, ◌∙◌, true, false, List, [], ◌∷◌, inl, inr, String, none, arith,
  Bool-cases, length,
}
use razdacha.Store.Text.{contains, contains_iff}
use razdacha.Store.Rules.{same_set, same_set_from}

-- What the loop finds of a new order, with the identifiers `seen` before.
record IsFresh (current seen next : List String) : Type 0 where
  known : (a : String) → Mem a next → Mem a current
  nodup : Nodup next
  unseen : (a : String) → Mem a next → ¬ Mem a seen

-- The test of one round, and the next round.
same_set_from-cons :
    (current seen : List String) (id : String) (next : List String)
    → same_set_from current seen (id ∷ next) ≡ none
    → (contains current id ≡ true)
      × (contains seen id ≡ false)
      × (same_set_from current (id ∷ seen) next ≡ none)
unfolding same_set_from
same_set_from-cons current seen id next h = ground arith

same_set_from-IsFresh :
    (current seen next : List String)
    → same_set_from current seen next ≡ none
    → IsFresh current seen next
same_set_from-IsFresh current seen [] h = record {
  known = λ a m. absurd (not-mem-nil m);
  nodup = Nodup-nil;
  unseen = λ a m. absurd (not-mem-nil m);
}
same_set_from-IsFresh current seen (id ∷ next) h =
    let (known, unseen, rest) = same_set_from-cons current seen id next h in
    let later = same_set_from-IsFresh current (id ∷ seen) next rest in
    record {
      known = λ a m.
          Or.elim Mem-prop (mem-cons.0 m) (λ e. rw e ((contains_iff current id).0 known))
            (later.known a);
      nodup = Nodup-cons.1 ((λ m. later.unseen id m mem-cons_self), later.nodup);
      unseen = λ a m.
          Or.elim (Π_prop λ _. ⊥_prop) (mem-cons.0 m)
            (λ e. rw e (λ s. cc (unseen, (contains_iff seen id).1 s)))
            (λ t s. later.unseen a t (mem-cons_of_mem id s));
    }

IsFresh-same_set_from :
    (current seen next : List String)
    → IsFresh current seen next
    → same_set_from current seen next ≡ none
unfolding same_set_from
IsFresh-same_set_from current seen [] f = refl
IsFresh-same_set_from current seen (id ∷ next) f =
    let known = (contains_iff current id).1 (f.known id mem-cons_self) in
    let unseen : contains seen id ≡ false = elim (Bool-cases (contains seen id)) [
      | inl old ↦ absurd (f.unseen id mem-cons_self ((contains_iff seen id).0 old))
      | inr new ↦ new
    ] in
    let (apart, rest) = Nodup-cons.0 f.nodup in
    let later : IsFresh current (id ∷ seen) next = record {
      known = λ a m. f.known a (mem-cons_of_mem id m);
      nodup = rest;
      unseen = λ a m s.
          Or.elim ⊥_prop (mem-cons.0 s) (λ e. apart (subst (λ x. Mem x next) e m))
            (f.unseen a (mem-cons_of_mem id m));
    } in
    ground (arith, known, unseen, IsFresh-same_set_from current (id ∷ seen) next later)

-- The library's lengths agree where the native ones do, and the other way round.
length-eq_of_native :
    (xs ys : List String) → length xs ≡ length ys → List.length xs ≡ List.length ys
length-eq_of_native [] [] h = refl
length-eq_of_native [] (y ∷ ys) h = absurd (omega arith)
length-eq_of_native (x ∷ xs) [] h = absurd (omega arith)
length-eq_of_native (x ∷ xs) (y ∷ ys) h = ap Nat.suc (length-eq_of_native xs ys (omega arith))

Permᴰ-length : {xs ys : List String} → Permᴰ xs ys → length xs ≡ length ys
Permᴰ-length Permᴰ.nil = refl
Permᴰ-length (Permᴰ.cons e p) = ap suc (Permᴰ-length p)
Permᴰ-length (Permᴰ.swap e f) = refl
Permᴰ-length (Permᴰ.trans p q) = Permᴰ-length p ∙ Permᴰ-length q

accepted :
    (current next : List String)
    → same_set current next ≡ none
    → (length current ≡ length next) × (same_set_from current [] next ≡ none)
unfolding same_set
accepted current next h = ground arith

-- `sameSet` accepts a new order exactly when it is a permutation of the current one.
pub same_set_iff :
    (current next : List String)
    → Nodup current
    → (same_set current next ≡ none) ↔ Perm next current
unfolding same_set
same_set_iff current next n = (
  λ h.
      let (sizes, loop) = accepted current next h in
      let fresh = same_set_from-IsFresh current [] next loop in
      Subperm.perm_of_length_le (Nodup.subperm fresh.nodup fresh.known)
        (Nat.le_of_eq (length-eq_of_native current next sizes)),
  λ p.
      let sizes = ∥∥₁_elim p (ℕ_set (length next) (length current)) Permᴰ-length in
      let fresh : IsFresh current [] next = record {
        known = λ a m. (Perm.mem_iff p).0 m;
        nodup = Perm.nodup (Perm.symm p) n;
        unseen = λ a m s. not-mem-nil s;
      } in
      ground (arith, sizes, IsFresh-same_set_from current [] next fresh),
)

-- ===== src/Store/Peers/Kept.antt =====
-- The peers that a rule keeps when a peer goes.
use mathlib.Core.List.{mem-cons_self, Nodup, Nodup-nil, Nodup-cons}
use razdacha.Prelude.{
  ◌≡◌, ◌≤◌, refl, sym, ◌∙◌, ap, any, true, false, if◌then◌else◌, not, ◌&&◌, List, [], ◌∷◌, inl, inr,
  String, ◌==◌, eq_iff, arith, Bool-cases, length,
}
use razdacha.Store.Text.{contains, contains_iff}
use razdacha.Store.Peers.Deletion.{kept_from}

-- The loop keeps exactly the selected peers that are present and were not seen.
pub contains-kept_from :
    (present seen ids : List String) (x : String)
    → contains (kept_from present seen ids) x
      ≡ (contains ids x && contains present x && not (contains seen x))
unfolding contains kept_from
contains-kept_from present seen [] x = refl
contains-kept_from present seen (id ∷ ids) x =
    let kept = contains-kept_from present (id ∷ seen) ids x in
    let skipped = contains-kept_from present seen ids x in
    elim (Bool-cases (id == x)) [
      | inl same ↦ let here = (eq_iff id x).0 same in ground (arith, here, same, kept, skipped)
      | inr other ↦ ground (arith, other, kept, skipped)
    ]

contains-head : (id : String) (ids : List String) → contains (id ∷ ids) id ≡ true
contains-head id ids = (contains_iff (id ∷ ids) id).1 mem-cons_self

-- Each peer is kept once.
pub kept_from-Nodup : (present seen ids : List String) → Nodup (kept_from present seen ids)
unfolding contains kept_from
kept_from-Nodup present seen [] = Nodup-nil
kept_from-Nodup present seen (id ∷ ids) =
    elim (Bool-cases (contains present id && not (contains seen id))) [
      | inl fresh ↦ rw fresh (
          Nodup-cons.1 (
            λ m.
                let there = (contains_iff (kept_from present (id ∷ seen) ids) id).1 m in
                let gone = contains-kept_from present (id ∷ seen) ids id in
                let seen_now = contains-head id seen in
                absurd (ground (arith, there, gone, seen_now)),
            kept_from-Nodup present (id ∷ seen) ids,
          ))
      | inr stale ↦ rw stale (kept_from-Nodup present seen ids)
    ]

-- The description of what is kept: the texts without a second mention, of which those that a list has and
-- another has not.
unfoldable pub without_text : String → List String → List String
without_text x [] = []
without_text x (y ∷ ys) = let rest = without_text x ys in if y == x then rest else y ∷ rest

unfoldable pub first_mentions : List String → List String
first_mentions [] = []
first_mentions (x ∷ xs) = x ∷ without_text x (first_mentions xs)

unfoldable pub those_in : List String → List String → List String → List String
those_in present seen [] = []
those_in present seen (x ∷ xs) =
    let rest = those_in present seen xs in
    if any (λ p. p == x) present && not (any (λ s. s == x) seen) then x ∷ rest else rest

contains-any : (xs : List String) (x : String) → contains xs x ≡ any (λ p. p == x) xs
unfolding contains any
contains-any [] x = refl
contains-any (y ∷ ys) x = ground (arith, contains-any ys x)

-- A text that was seen is the same as one that is taken out.
those_in-seen :
    (present seen : List String) (x : String) (xs : List String)
    → those_in present (x ∷ seen) xs ≡ those_in present seen (without_text x xs)
unfolding those_in without_text any
those_in-seen present seen x [] = refl
those_in-seen present seen x (y ∷ ys) =
    let rest = those_in-seen present seen x ys in
    elim (Bool-cases (y == x)) [
      | inl same ↦
          let e = (eq_iff x y).1 (sym ((eq_iff y x).0 same)) in ground (arith, same, e, rest)
      | inr other ↦
          let e : (x == y) ≡ false = elim (Bool-cases (x == y)) [
            | inr apart ↦ apart
            | inl same ↦
                let k = (eq_iff y x).1 (sym ((eq_iff x y).0 same)) in absurd (cc (k, other))
          ] in
          ground (arith, other, e, rest)
    ]

-- A text that is not among those asked for can be taken out.
those_in-stale :
    (present seen : List String) (x : String) (xs : List String)
    → (any (λ p. p == x) present && not (any (λ s. s == x) seen)) ≡ false
    → those_in present seen (without_text x xs) ≡ those_in present seen xs
unfolding those_in without_text
those_in-stale present seen x [] h = refl
those_in-stale present seen x (y ∷ ys) h =
    let rest = those_in-stale present seen x ys h in
    elim (Bool-cases (y == x)) [
      | inl same ↦
          let e = (eq_iff y x).0 same in
          let gone : (any (λ p. p == y) present && not (any (λ s. s == y) seen)) ≡ false =
            ap (λ z. any (λ p. p == z) present && not (any (λ s. s == z) seen)) e ∙ h in
          ground (arith, same, gone, rest)
      | inr other ↦ ground (arith, other, rest)
    ]

-- The loop keeps of the first mentions those that are present and were not seen, in their order.
pub kept_from-those_in :
    (present seen ids : List String)
    → kept_from present seen ids ≡ those_in present seen (first_mentions ids)
unfolding kept_from those_in first_mentions
kept_from-those_in present seen [] = refl
kept_from-those_in present seen (x ∷ xs) =
    let here = contains-any present x in
    let old = contains-any seen x in
    elim (Bool-cases (any (λ p. p == x) present && not (any (λ s. s == x) seen))) [
      | inl fresh ↦
          let rest =
            kept_from-those_in present (x ∷ seen) xs
            ∙ those_in-seen present seen x (first_mentions xs) in
          ground (arith, here, old, fresh, rest)
      | inr stale ↦
          let rest =
            kept_from-those_in present seen xs
            ∙ sym (those_in-stale present seen x (first_mentions xs) stale) in
          ground (arith, here, old, stale, rest)
    ]

pub length-kept_from :
    (present seen ids : List String) → length (kept_from present seen ids) ≤ length ids
unfolding kept_from
length-kept_from present seen [] = omega arith
length-kept_from present seen (id ∷ ids) =
    ground (arith, length-kept_from present seen ids, length-kept_from present (id ∷ seen) ids)

-- A list that keeps its length is kept as it is.
pub kept_from-full :
    (present seen ids : List String)
    → length (kept_from present seen ids) ≡ length ids
    → kept_from present seen ids ≡ ids
unfolding kept_from
kept_from-full present seen [] h = refl
kept_from-full present seen (id ∷ ids) h =
    elim (Bool-cases (contains present id && not (contains seen id))) [
      | inl fresh ↦
          let full = kept_from-full present (id ∷ seen) ids (ground (arith, fresh, h)) in
          ground (arith, fresh, full)
      | inr stale ↦
          let short = length-kept_from present seen ids in absurd (ground (arith, stale, h, short))
    ]

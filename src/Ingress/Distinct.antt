-- ===== src/Ingress/Distinct.antt =====
-- internal/ingressguard: the loop that checks each item of a list, puts it in its canonical form and
-- leaves out what it has seen. NormalizeEndpoints has it for listeners and normalizeManifest for hashes.
use razdacha.Prelude.{
  arith, suc, ◌+◌, ◌≤◌, ◌≡◌, ◌↔◌, inl, inr, refl, ap, subst, Bool, true, ◌||◌, List, [], ◌∷◌, ◌++◌,
  Option, none, some, length, length-append, any, if◌then◌else◌, Bool-cases, Option-cases,
}

module _ {A : Type 0} (same : A → A → Bool) where
  -- A lookup in the map of what was seen: it has the items that are in `out`.
  unfoldable pub has : List A → A → Bool
  unfolding any
  has xs x = any (λ y. same y x) xs

  -- An item that was seen is not appended.
  unfoldable pub append_new : List A → A → List A
  append_new out c = if has out c then out else out ++ c ∷ []

  -- `canonical` is none where the code returns an error.
  module _ (canonical : A → Option A) where
    unfoldable pub collect : List A → List A → Option (List A)
    collect out [] = some out
    collect out (x ∷ xs) = elim (canonical x) [
      | none ↦ none
      | some c ↦ collect (append_new out c) xs
    ]

    -- The canonical forms one by one: none where an item has no such form.
    unfoldable pub canonicals : List A → Option (List A)
    canonicals [] = some []
    canonicals (x ∷ xs) = elim (canonical x) [
      | none ↦ none
      | some c ↦ elim (canonicals xs) [ none ↦ none | some cs ↦ some (c ∷ cs) ]
    ]

  module _ (same_iff : (x y : A) → (same x y ≡ true) ↔ (x ≡ y)) where
    pub has-append : (xs ys : List A) (e : A) → has (xs ++ ys) e ≡ (has xs e || has ys e)
    unfolding has
    has-append [] ys e = refl
    has-append (x ∷ xs) ys e = ground (arith, has-append xs ys e)

    has-append_new : (out : List A) (c e : A) → has (append_new out c) e ≡ (has out e || same c e)
    unfolding append_new has
    has-append_new out c e = elim (Bool-cases (has out c)) [
      | inl old ↦ rw old (ground (arith, same_iff c e))
      | inr new ↦ rw (new, has-append out (c ∷ []) e) (ground arith)
    ]

    length-append_new : (out : List A) (c : A) → length (append_new out c) ≤ suc (length out)
    unfolding append_new
    length-append_new out c = ground (arith, length-append out (c ∷ []))

    module _ (canonical : A → Option A) where
      -- Items that the loop leaves as they are.
      abbrev pub IsCanonical : A → Type 0
      IsCanonical x = canonical x ≡ some x

      abbrev pub AllCanonical : List A → Type 0
      AllCanonical xs = (x : A) → has xs x ≡ true → IsCanonical x

      -- What `collect` adds to `out` when each item has a canonical form.
      abbrev pub Collected : List A → List A → Option (List A) → Type 0
      Collected out cs r =
          (out' : List A) × (r ≡ some out')
          × ((e : A) → has out' e ≡ (has out e || has cs e))
          × (length out' ≤ length out + length cs)

      pub collect-Collected :
          (es out cs : List A)
          → canonicals canonical es ≡ some cs
          → Collected out cs (collect canonical out es)
      unfolding collect canonicals has
      collect-Collected [] out cs h = (out, refl, λ e. ground arith, omega arith)
      collect-Collected (x ∷ es) out cs h = elim (Option-cases (canonical x)) [
        | inl bad ↦ let h' = rw (bad, canonicals) at h in cc
        | inr (c, good) ↦ elim (Option-cases (canonicals canonical es)) [
          | inl bad ↦ let h' = rw (good, canonicals, bad) at h in cc
          | inr (ds, more) ↦
              let h' = rw (good, canonicals, more) at h in
              let (out', e1, e2, e3) = collect-Collected es (append_new out c) ds more in
              (
                out',
                rw (good, collect) e1,
                λ e. ground (arith, e2 e, has-append_new out c e),
                ground (arith, length-append_new out c, e3),
              )
        ]
      ]

      pub collect-none :
          (es out : List A) → canonicals canonical es ≡ none → collect canonical out es ≡ none
      unfolding collect canonicals
      collect-none [] out h = cc
      collect-none (x ∷ es) out h = elim (Option-cases (canonical x)) [
        | inl bad ↦ rw (bad, collect)
        | inr (c, good) ↦ elim (Option-cases (canonicals canonical es)) [
          | inl none_left ↦ rw (good, collect) (collect-none es (append_new out c) none_left)
          | inr (ds, more) ↦ let h' = rw (good, canonicals, more) at h in cc
        ]
      ]

      pub length-canonicals :
          (es cs : List A) → canonicals canonical es ≡ some cs → length cs ≡ length es
      unfolding canonicals
      length-canonicals [] cs h = ground arith
      length-canonicals (x ∷ es) cs h = elim (Option-cases (canonical x)) [
        | inl bad ↦ let h' = rw (bad, canonicals) at h in cc
        | inr (c, good) ↦ elim (Option-cases (canonicals canonical es)) [
          | inl bad ↦ let h' = rw (good, canonicals, bad) at h in cc
          | inr (ds, more) ↦
              let h' = rw (good, canonicals, more) at h in
              ground (arith, length-canonicals es ds more)
        ]
      ]

      -- The loop succeeds only where each item has a canonical form.
      pub canonicals-collect :
          (xs out : List A)
          → collect canonical [] xs ≡ some out
          → (cs : List A) × (canonicals canonical xs ≡ some cs)
            × ((x : A) → has out x ≡ has cs x)
            × (length out ≤ length xs)
      unfolding has
      canonicals-collect xs out h = elim (Option-cases (canonicals canonical xs)) [
        | inl bad ↦ cc (collect-none xs [] bad)
        | inr (cs, good) ↦
            let (r, e1, e2, e3) = collect-Collected xs [] cs good in
            let e : r ≡ out = ground (arith, e1) in
            (
              cs,
              good,
              λ x. subst (λ o. has o x ≡ has cs x) e (e2 x),
              subst (λ o. length o ≤ length xs) e (omega (arith, e3, length-canonicals xs cs good)),
            )
      ]

      pub canonicals-append :
          (xs ys cs ds : List A)
          → canonicals canonical xs ≡ some cs
          → canonicals canonical ys ≡ some ds
          → canonicals canonical (xs ++ ys) ≡ some (cs ++ ds)
      unfolding canonicals
      canonicals-append [] ys cs ds h k = ground arith
      canonicals-append (x ∷ xs) ys cs ds h k = elim (Option-cases (canonical x)) [
        | inl bad ↦ let h' = rw (bad, canonicals) at h in cc
        | inr (c, good) ↦ elim (Option-cases (canonicals canonical xs)) [
          | inl bad ↦ let h' = rw (good, canonicals, bad) at h in cc
          | inr (es, more) ↦
              let h' = rw (good, canonicals, more) at h in
              rw (good, canonicals, canonicals-append xs ys es ds more k) (ground arith)
        ]
      ]

      -- Each item that is given has its canonical form among those.
      pub has-canonicals :
          (es cs : List A) (e c : A)
          → canonicals canonical es ≡ some cs
          → has es e ≡ true
          → canonical e ≡ some c
          → has cs c ≡ true
      unfolding canonicals has
      has-canonicals [] cs e c h m k = cc
      has-canonicals (x ∷ es) cs e c h m k = elim (Option-cases (canonical x)) [
        | inl bad ↦ let h' = rw (bad, canonicals) at h in cc
        | inr (d, good) ↦ elim (Option-cases (canonicals canonical es)) [
          | inl bad ↦ let h' = rw (good, canonicals, bad) at h in cc
          | inr (ds, more) ↦
              let h' = rw (good, canonicals, more) at h in
              elim (Bool-cases (same x e)) [
                | inl eq ↦
                    let p : d ≡ c = ground (arith, ap canonical ((same_iff x e).0 eq)) in
                    ground (arith, (same_iff d c).1 p)
                | inr ne ↦ ground (arith, has-canonicals es ds e c more (ground arith) k)
              ]
        ]
      ]

      -- Items in canonical form are their own canonical forms.
      pub canonicals-AllCanonical :
          (es : List A) → AllCanonical es → canonicals canonical es ≡ some es
      unfolding canonicals has
      canonicals-AllCanonical [] h = refl
      canonicals-AllCanonical (x ∷ es) h =
          rw (h x (ground (arith, (same_iff x x).1 refl)), canonicals)
            (rw (canonicals-AllCanonical es (λ e m. h e (ground arith))))

      module _ (closed : (x c : A) → canonical x ≡ some c → canonical c ≡ some c) where
        pub AllCanonical-canonicals :
            (es cs : List A) → canonicals canonical es ≡ some cs → AllCanonical cs
        unfolding canonicals has
        AllCanonical-canonicals [] cs h e m = ground arith
        AllCanonical-canonicals (x ∷ es) cs h e m = elim (Option-cases (canonical x)) [
          | inl bad ↦ let h' = rw (bad, canonicals) at h in cc
          | inr (d, good) ↦ elim (Option-cases (canonicals canonical es)) [
            | inl bad ↦ let h' = rw (good, canonicals, bad) at h in cc
            | inr (ds, more) ↦
                let h' = rw (good, canonicals, more) at h in
                elim (Bool-cases (same d e)) [
                  | inl eq ↦ subst IsCanonical ((same_iff d e).0 eq) (closed x d good)
                  | inr ne ↦ AllCanonical-canonicals es ds more e (ground arith)
                ]
          ]
        ]

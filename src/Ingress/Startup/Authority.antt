-- ===== src/Ingress/Startup/Authority.antt =====
-- internal/ingressguard/startup.go, ValidateConfig: which configurations a manifest lets run.
use razdacha.Prelude.{
  arith, ◌≤◌, eqb, ltb, length, ◌≡◌, ◌≢◌, ◌↔◌, ◌∙◌, subst, sym, ap, inl, inr, refl, Bool, true,
  false, ◌||◌, List, [], ◌∷◌, Option, some, String, any, Bool-cases, Option-cases,
}
use razdacha.Store.Text.{contains}
use razdacha.Ingress.Distinct
use razdacha.Ingress.Endpoints
use razdacha.Ingress.Endpoints.{Endpoint, has, same, covers, normalize_endpoints, max_endpoints}
use razdacha.Ingress.Endpoints.Members.{same_iff}
use razdacha.Ingress.Endpoints.Canonical.{
  AllCanonical, IsCanonical, covers_total, normalize-AllCanonical,
}
use razdacha.Ingress.Manifest.{Manifest, IsDigest, hash_config}
use razdacha.Ingress.Manifest.Normal.{IsNormal, normalize_manifest-IsNormal}
use razdacha.Ingress.Startup.{
  Outside, accepted, panicked, private_controllers, all_endpoints, config_endpoints, is_covered,
  check_coverage, validate_config, max_config_bytes,
}

-- Each of the endpoints `es` is covered by one of `allowed`.
abbrev pub Covered : (o : Outside) → List Endpoint → List Endpoint → Type 0
Covered o allowed es =
    (e : Endpoint)
    → has es e ≡ true
    → (a : Endpoint) × (has allowed a ≡ true) × (covers o.ip a e ≡ some true)

-- The manifest names the configuration, and covers all its listeners.
abbrev pub Approves : (o : Outside) → Manifest → String → Type 0
Approves o m config =
    (contains m.config_hashes (hash_config o.digest config) ≡ true)
    × ((es : List Endpoint) × (config_endpoints o config ≡ some es) × Covered o m.endpoints es)

module _ (o : Outside) (lawful_ip : Endpoints.IsLawful o.ip) where
  -- ConfigEndpoints ends with a call of NormalizeEndpoints.
  config_endpoints-normalize :
      (config : String) (es : List Endpoint)
      → config_endpoints o config ≡ some es
      → (raw : List Endpoint) × (normalize_endpoints o.ip raw ≡ some es)
  unfolding config_endpoints
  config_endpoints-normalize config es h =
      elim (Bool-cases (eqb (o.size config) 0 || ltb max_config_bytes (o.size config))) [
        | inl bad_size ↦ let h' = rw bad_size at h in cc
        | inr size ↦ elim (Option-cases (o.decode config)) [
          | inl bad ↦ let h' = rw (size, bad) at h in cc
          | inr (c, decoded) ↦ elim (Bool-cases (private_controllers o c.experimental)) [
            | inr exposed ↦ let h' = rw (size, decoded, exposed) at h in cc
            | inl private_ones ↦ elim (Option-cases (all_endpoints o c.inbounds)) [
              | inl bad ↦ let h' = rw (size, decoded, private_ones, bad) at h in cc
              | inr (raw, good) ↦ let h' = rw (size, decoded, private_ones, good) at h in (raw, h')
            ]
          ]
        ]
      ]

  -- The listeners that ConfigEndpoints finds are in canonical form.
  pub config_endpoints-AllCanonical :
      (config : String) (es : List Endpoint)
      → config_endpoints o config ≡ some es
      → AllCanonical o.ip es × (length es ≤ max_endpoints)
  config_endpoints-AllCanonical config es h =
      let (raw, e) = config_endpoints-normalize config es h in
      normalize-AllCanonical o.ip lawful_ip raw es e

  is_covered-true :
      (allowed : List Endpoint) (e : Endpoint) → is_covered o allowed true e ≡ some true
  unfolding is_covered
  is_covered-true [] e = refl
  is_covered-true (a ∷ allowed) e = is_covered-true allowed e

  -- What the inner loop finds.
  abbrev Found : List Endpoint → Endpoint → Option Bool → Type 0
  Found allowed e r =
      (b : Bool) × (r ≡ some b)
      × (b ≡ true ↔ ((a : Endpoint) × (has allowed a ≡ true) × (covers o.ip a e ≡ some true)))

  is_covered-Found :
      (allowed : List Endpoint) (e : Endpoint)
      → AllCanonical o.ip allowed
      → IsCanonical o.ip e
      → Found allowed e (is_covered o allowed false e)
  unfolding is_covered Distinct.has any
  is_covered-Found [] e h k = (false, refl, (λ p. cc, λ (a, m, c). cc))
  is_covered-Found (x ∷ allowed) e h k =
      let (b, c) =
        covers_total o.ip lawful_ip x e (h x (ground (arith, (same_iff x x).1 refl))) k in
      elim (Bool-cases b) [
        | inl yes_b ↦ (
          true,
          rw (is_covered, c, yes_b) (is_covered-true allowed e),
          (λ p. (x, ground (arith, (same_iff x x).1 refl), ground (arith, c)), λ a. refl),
        )
        | inr no_b ↦
            let (r, e1, e2) = is_covered-Found allowed e (λ a m. h a (ground arith)) k in
            (
              r,
              rw (is_covered, c, no_b) e1,
              (
                λ p. let (a, m, q) = e2.0 p in (a, ground arith, q),
                λ (a, m, q). elim (Bool-cases (same x a)) [
                  | inl eq ↦ ground (arith, ap (λ t. covers o.ip t e) ((same_iff x a).0 eq), c)
                  | inr ne ↦ e2.1 (a, ground arith, q)
                ],
              ),
            )
      ]

  -- What the outer loop finds.
  check_coverage_lem :
      (allowed es : List Endpoint)
      → AllCanonical o.ip allowed
      → AllCanonical o.ip es
      → (check_coverage o allowed es ≢ panicked)
        × ((check_coverage o allowed es ≡ accepted) ↔ Covered o allowed es)
  unfolding check_coverage Distinct.has any
  check_coverage_lem allowed [] h k = (λ p. cc, (λ p e m. cc, λ c. refl))
  check_coverage_lem allowed (e ∷ es) h k =
      let (b, e1, e2) =
        is_covered-Found allowed e h (k e (ground (arith, (same_iff e e).1 refl))) in
      let (r1, r2) = check_coverage_lem allowed es h (λ a m. k a (ground arith)) in
      elim (Bool-cases b) [
        | inl yes_b ↦
            rw (check_coverage, e1, yes_b)
              (
                r1,
                (
                  λ p x m. elim (Bool-cases (same e x)) [
                    | inl eq ↦
                        subst
                          (λ t.
                            (a : Endpoint) × (has allowed a ≡ true) × (covers o.ip a t ≡ some true))
                          ((same_iff e x).0 eq) (e2.0 yes_b)
                    | inr ne ↦ r2.0 p x (ground arith)
                  ],
                  λ c. r2.1 (λ x m. c x (ground arith)),
                ),
              )
        | inr no_b ↦
            rw (check_coverage, e1, no_b)
              (
                λ p. cc,
                (λ p. cc, λ c. let t = e2.1 (c e (ground (arith, (same_iff e e).1 refl))) in cc),
              )
      ]

  Covered-same :
      (allowed allowed' es : List Endpoint)
      → ((e : Endpoint) → has allowed e ≡ has allowed' e)
      → Covered o allowed es
      → Covered o allowed' es
  Covered-same allowed allowed' es same_ones c e m =
      let (a, k, q) = c e m in (a, sym (same_ones a) ∙ k, q)

  module _ (lawful : IsDigest o.digest) (m : Manifest) (normal : IsNormal o.digest o.ip m)
      (config : String) where
    -- On a manifest that was read, ValidateConfig does not panic, and it accepts what is approved.
    pub validate_config_lem :
        (validate_config o config m ≢ panicked)
        × ((validate_config o config m ≡ accepted) ↔ Approves o m config)
    unfolding validate_config
    validate_config_lem =
        let (n, e, like, v) = normalize_manifest-IsNormal o.digest o.ip lawful_ip lawful m normal in
        let hashes = like.hashes (hash_config o.digest config) in
        elim (Bool-cases (contains n.config_hashes (hash_config o.digest config))) [
          | inr unknown ↦ rw (validate_config, e, unknown) (λ p. cc, (λ p. cc, λ (a, _). cc))
          | inl known ↦ elim (Option-cases (config_endpoints o config)) [
            | inl bad ↦
                rw (validate_config, e, known, bad) (λ p. cc, (λ p. cc, λ (a, (es, p, c)). cc))
            | inr (es, good) ↦
                let (r1, r2) =
                  check_coverage_lem n.endpoints es v.endpoints
                    (config_endpoints-AllCanonical config es good).0 in
                rw (validate_config, e, known, good)
                  (
                    r1,
                    (
                      λ p. (
                        sym hashes ∙ known,
                        (es, refl, Covered-same n.endpoints m.endpoints es like.endpoints (r2.0 p)),
                      ),
                      λ (a, (es', p, c)). r2.1 (
                          Covered-same m.endpoints n.endpoints es (λ x. sym (like.endpoints x))
                            (subst (Covered o m.endpoints) (ground (arith, p)) c)),
                    ),
                  )
          ]
        ]

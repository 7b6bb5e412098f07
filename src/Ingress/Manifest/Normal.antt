-- ===== src/Ingress/Manifest/Normal.antt =====
-- internal/ingressguard/manifest.go: the manifests that normalizeManifest leaves as they are.
use razdacha.Prelude.{
  arith, ◌≤◌, ◌≡◌, subst, ◌∙◌, inl, inr, refl, sym, Bool, ◌||◌, List, [], ◌∷◌, some, String, ◌==◌,
  eq_iff, length, any, eqb, eqb_iff, ltb, Bool-cases, Option-cases,
}
use razdacha.Store.Text.{contains}
use razdacha.Ingress.Distinct
use razdacha.Ingress.Endpoints.{Netip, Endpoint, has, normalize_endpoints, max_endpoints}
use razdacha.Ingress.Endpoints
use razdacha.Ingress.Endpoints.Canonical.{AllCanonical, normalize-AllCanonical, normalize_twice}
use razdacha.Ingress.Manifest.{
  Digest, IsDigest, Manifest, version, max_hashes, sort_texts, canonical_hash, normalize_manifest,
}
use razdacha.Ingress.Manifest.Hashes.{contains-sort_texts, length-sort_texts, canonical_hash_twice}

contains-has : (xs : List String) (x : String) → contains xs x ≡ Distinct.has ◌==◌ xs x
unfolding contains Distinct.has
contains-has xs x = refl

has-nil : (b : Bool) (h : String) → (Distinct.has ◌==◌ [] h || b) ≡ b
unfolding Distinct.has any
has-nil b h = refl

nonempty :
    (xs ys : List String)
    → ((h : String) → Distinct.has ◌==◌ ys h ≡ Distinct.has ◌==◌ xs h)
    → 1 ≤ length xs
    → 1 ≤ length ys
unfolding Distinct.has any
nonempty [] ys e n = omega arith
nonempty (x ∷ xs) [] e n = ground (arith, e x, eq_iff x x)
nonempty (x ∷ xs) (y ∷ ys) e n = omega arith

module _ (d : Digest) (ip : Netip) where
  abbrev pub AllHashes : List String → Type 0
  AllHashes = Distinct.AllCanonical ◌==◌ eq_iff (canonical_hash d)

  pub record IsNormal (m : Manifest) : Type 0 where
    pub current : m.version ≡ version
    pub endpoints : AllCanonical ip m.endpoints
    pub few_endpoints : length m.endpoints ≤ max_endpoints
    pub hashes : AllHashes m.config_hashes
    pub some_hash : 1 ≤ length m.config_hashes
    pub few_hashes : length m.config_hashes ≤ max_hashes

  -- Two manifests with the same version and mark, the same endpoints and the same hashes, in any order.
  pub record SameManifest (m n : Manifest) : Type 0 where
    pub version : m.version ≡ n.version
    pub guarded : m.guarded ≡ n.guarded
    pub endpoints : (e : Endpoint) → has m.endpoints e ≡ has n.endpoints e
    pub hashes : (h : String) → contains m.config_hashes h ≡ contains n.config_hashes h

  module _ (lawful_ip : Endpoints.IsLawful ip) (lawful : IsDigest d) where
    collect_hashes :
        (hs : List String)
        → AllHashes hs
        → Distinct.Collected ◌==◌ eq_iff
            (canonical_hash d)
            []
            hs
            (Distinct.collect ◌==◌ (canonical_hash d) [] hs)
    collect_hashes hs h =
        Distinct.collect-Collected ◌==◌ eq_iff (canonical_hash d) hs [] hs
          (Distinct.canonicals-AllCanonical ◌==◌ eq_iff (canonical_hash d) hs h)

    same_hashes :
        (hs out : List String)
        → ((h : String) → Distinct.has ◌==◌ out h ≡ Distinct.has ◌==◌ hs h)
        → (h : String) → contains (sort_texts out) h ≡ contains hs h
    same_hashes hs out e h =
        contains-sort_texts out h ∙ contains-has out h ∙ e h ∙ sym (contains-has hs h)

    -- Such a manifest is accepted, and nothing in it changes but the order.
    pub normalize_manifest-IsNormal :
        (m : Manifest)
        → IsNormal m
        → (n : Manifest) × (normalize_manifest d ip m ≡ some n) × SameManifest n m × IsNormal n
    unfolding normalize_manifest
    normalize_manifest-IsNormal m v =
        let (es, e1, e2, e3) =
          normalize_twice ip lawful_ip m.endpoints v.endpoints v.few_endpoints in
        let (hs, h1, h2, h3) = collect_hashes m.config_hashes v.hashes in
        let h2' : (h : String) → Distinct.has ◌==◌ hs h ≡ Distinct.has ◌==◌ m.config_hashes h =
          λ h. h2 h ∙ has-nil (Distinct.has ◌==◌ m.config_hashes h) h in
        (
          record m { endpoints = es; config_hashes = sort_texts hs },
          rw ((eqb_iff m.version version).1 v.current, e1)
              (ground (arith, v.some_hash, v.few_hashes, h1)),
          record {
            version = refl;
            guarded = refl;
            endpoints = e2;
            hashes = same_hashes m.config_hashes hs h2';
          },
          record {
            current = v.current;
            endpoints = λ e k. v.endpoints e (sym (e2 e) ∙ k);
            few_endpoints = omega (arith, e3, v.few_endpoints);
            hashes = λ h k. v.hashes h (
                sym (h2' h)
                ∙ sym (contains-has hs h)
                ∙ sym (contains-sort_texts hs h)
                ∙ contains-has (sort_texts hs) h
                ∙ k);
            some_hash =
                omega (arith, length-sort_texts hs, nonempty m.config_hashes hs h2' v.some_hash);
            few_hashes = omega (arith, length-sort_texts hs, h3, v.few_hashes);
          },
        )

    collected-AllHashes :
        (hs out : List String)
        → Distinct.collect ◌==◌ (canonical_hash d) [] hs ≡ some out
        → 1 ≤ length hs
        → AllHashes (sort_texts out)
          × (1 ≤ length (sort_texts out))
          × (length (sort_texts out) ≤ length hs)
    collected-AllHashes hs out h n =
        let (cs, e1, e2, e3) =
          Distinct.canonicals-collect ◌==◌ eq_iff (canonical_hash d) hs out h in
        let l = Distinct.length-canonicals ◌==◌ eq_iff (canonical_hash d) hs cs e1 in
        (
          λ x k.
              Distinct.AllCanonical-canonicals ◌==◌ eq_iff (canonical_hash d)
                (canonical_hash_twice d lawful) hs cs e1 x
                (sym (e2 x)
                  ∙ sym (contains-has out x)
                  ∙ sym (contains-sort_texts out x)
                  ∙ contains-has (sort_texts out) x
                  ∙ k),
          omega (arith, length-sort_texts out, nonempty cs out e2 (omega (arith, l))),
          omega (arith, length-sort_texts out, e3),
        )

    -- What normalizeManifest returns is such a manifest.
    pub IsNormal-normalize_manifest :
        (m n : Manifest) → normalize_manifest d ip m ≡ some n → IsNormal n
    unfolding normalize_manifest
    IsNormal-normalize_manifest m n h = elim (Bool-cases (eqb m.version version)) [
      | inr old ↦ let h' = rw old at h in cc
      | inl current ↦ elim (Option-cases (normalize_endpoints ip m.endpoints)) [
        | inl bad ↦ let h' = rw (current, bad) at h in cc
        | inr (es, good) ↦
            elim (Bool-cases
              (eqb (length m.config_hashes) 0 || ltb max_hashes (length m.config_hashes))) [
                | inl many ↦ let h' = rw (current, good, many) at h in cc
                | inr fits ↦
                    elim (Option-cases
                      (Distinct.collect ◌==◌ (canonical_hash d) [] m.config_hashes)) [
                        | inl bad ↦ let h' = rw (current, good, fits, bad) at h in cc
                        | inr (hs, all_hashes) ↦
                            let h' = rw (current, good, fits, all_hashes) at h in
                            let (a, b) = normalize-AllCanonical ip lawful_ip m.endpoints es good in
                            let (x, y, z) =
                              collected-AllHashes m.config_hashes hs all_hashes (ground arith) in
                            subst IsNormal (ground arith) (
                              let v : IsNormal
                                  (record m { endpoints = es; config_hashes = sort_texts hs }) =
                                record {
                                  current = (eqb_iff m.version version).0 current;
                                  endpoints = a;
                                  few_endpoints = b;
                                  hashes = x;
                                  some_hash = y;
                                  few_hashes = ground arith;
                                } in
                              v)
                      ]
              ]
      ]
    ]

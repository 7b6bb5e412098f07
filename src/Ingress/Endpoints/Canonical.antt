-- ===== src/Ingress/Endpoints/Canonical.antt =====
-- internal/ingressguard/endpoint.go: what NormalizeEndpoints keeps of the endpoints it is given.
use razdacha.Prelude.{
  arith, ℕ, ◌≤◌, ◌≡◌, subst, inl, inr, refl, ◌∙◌, Bool, true, false, ◌||◌, List, [], ◌++◌, Option,
  none, some, ◌==◌, length, eqb, eqb_iff, ltb, ltb_iff, if◌then◌else◌, Bool-cases, Option-cases,
}
use razdacha.Ingress.Distinct
use razdacha.Ingress.Distinct.{
  has-append, has-canonicals, canonicals, collect-none, collect-Collected, length-canonicals,
  AllCanonical-canonicals, canonicals-AllCanonical,
}
use razdacha.Ingress.Endpoints.{
  Netip, IsLawful, Endpoint, same, has, sort_endpoints, canonical, normalize_endpoints, union,
  covers, max_endpoints,
}
use razdacha.Ingress.Endpoints.Members.{same_iff, has-sort_endpoints, length-sort_endpoints}

module _ (ip : Netip) where
  -- Endpoints that NormalizeEndpoints leaves as they are.
  abbrev pub IsCanonical : Endpoint → Type 0
  IsCanonical = Distinct.IsCanonical same same_iff (canonical ip)

  abbrev pub AllCanonical : List Endpoint → Type 0
  AllCanonical = Distinct.AllCanonical same same_iff (canonical ip)

  abbrev pub forms : List Endpoint → Option (List Endpoint)
  forms = canonicals same (canonical ip)

  -- NormalizeEndpoints succeeds on at most 64 endpoints that all have a canonical form, and has those.
  pub normalize_endpoints-some :
      (es cs : List Endpoint)
      → forms es ≡ some cs
      → length es ≤ max_endpoints
      → (out : List Endpoint) × (normalize_endpoints ip es ≡ some out)
        × ((e : Endpoint) → has out e ≡ has cs e)
        × (length out ≤ length es)
  unfolding normalize_endpoints Distinct.has
  normalize_endpoints-some es cs h small =
      let (r, e1, e2, e3) = collect-Collected same same_iff (canonical ip) es [] cs h in
      (
        sort_endpoints r,
        elim (Bool-cases (ltb max_endpoints (length es))) [
          | inl large ↦ absurd (omega (arith, (ltb_iff max_endpoints (length es)).0 large))
          | inr fits ↦ rw (fits, e1)
        ],
        λ e. has-sort_endpoints r e ∙ e2 e,
        omega (
          arith,
          e3,
          length-sort_endpoints r,
          length-canonicals same same_iff (canonical ip) es cs h,
        ),
      )

  normalize_endpoints-large :
      (es : List Endpoint) → ltb max_endpoints (length es) ≡ true → normalize_endpoints ip es ≡ none
  unfolding normalize_endpoints
  normalize_endpoints-large es large = rw large

  normalize_endpoints-none :
      (es : List Endpoint) → forms es ≡ none → normalize_endpoints ip es ≡ none
  unfolding normalize_endpoints
  normalize_endpoints-none es bad =
      ground (arith, collect-none same same_iff (canonical ip) es [] bad)

  -- And only on such.
  pub canonicals-normalize :
      (es out : List Endpoint)
      → normalize_endpoints ip es ≡ some out
      → (cs : List Endpoint) × (forms es ≡ some cs)
        × ((e : Endpoint) → has out e ≡ has cs e)
        × (length out ≤ length es)
        × (length es ≤ max_endpoints)
  canonicals-normalize es out h = elim (Bool-cases (ltb max_endpoints (length es))) [
    | inl large ↦ cc (normalize_endpoints-large es large)
    | inr fits ↦ elim (Option-cases (forms es)) [
      | inl bad ↦ cc (normalize_endpoints-none es bad)
      | inr (cs, good) ↦
          let (out', e1, e2, e3) = normalize_endpoints-some es cs good (ground arith) in
          let e : out' ≡ out = ground (arith, e1) in
          (
            cs,
            good,
            λ x. subst (λ o. has o x ≡ has cs x) e (e2 x),
            subst (λ o. length o ≤ length es) e e3,
            ground arith,
          )
    ]
  ]

  module _ (lawful : IsLawful ip) where
    text-IsCanonical :
        (a : ip.Addr) (port : ℕ)
        → ip.zoned a ≡ false
        → eqb port 0 ≡ false
        → IsCanonical (record { address = ip.text (ip.unmap a); port = port })
    unfolding canonical
    text-IsCanonical a port z p = rw (
      p,
      lawful.text_nonempty (ip.unmap a),
      lawful.parse-text (ip.unmap a),
      lawful.zoned-unmap a z,
      lawful.unmap_twice a,
    )

    pub canonical-IsCanonical : (e c : Endpoint) → canonical ip e ≡ some c → IsCanonical c
    unfolding canonical
    canonical-IsCanonical e c h = elim (Bool-cases (eqb e.port 0)) [
      | inl zero_port ↦ ground arith
      | inr p ↦ elim (Option-cases (ip.parse_addr (if e.address == "" then "::" else e.address))) [
        | inl bad ↦ let h' = rw (p, bad) at h in cc
        | inr (a, good) ↦ elim (Bool-cases (ip.zoned a)) [
          | inl z ↦ let h' = rw (p, good, z) at h in cc
          | inr z ↦
              let h' = rw (p, good, z) at h in
              subst IsCanonical (ground arith) (text-IsCanonical a e.port z p)
        ]
      ]
    ]

    -- What NormalizeEndpoints returns is canonical, and fits.
    pub normalize-AllCanonical :
        (es out : List Endpoint)
        → normalize_endpoints ip es ≡ some out
        → AllCanonical out × (length out ≤ max_endpoints)
    normalize-AllCanonical es out h =
        let (cs, e1, e2, e3, e4) = canonicals-normalize es out h in
        (
          λ e m.
              AllCanonical-canonicals same same_iff (canonical ip) (canonical-IsCanonical) es cs e1
                e (ground (arith, e2 e)),
          omega (arith, e3, e4),
        )

    -- Normalizing again changes no endpoint.
    pub normalize_twice :
        (es : List Endpoint)
        → AllCanonical es
        → length es ≤ max_endpoints
        → (out : List Endpoint) × (normalize_endpoints ip es ≡ some out)
          × ((e : Endpoint) → has out e ≡ has es e)
          × (length out ≤ length es)
    normalize_twice es h small =
        normalize_endpoints-some es es (canonicals-AllCanonical same same_iff (canonical ip) es h)
          small

    parse_addr-some :
        (e : Endpoint) → IsCanonical e → (a : ip.Addr) × (ip.parse_addr e.address ≡ some a)
    unfolding canonical
    parse_addr-some e h = elim (Bool-cases (eqb e.port 0)) [
      | inl zero_port ↦ ground arith
      | inr p ↦ elim (Option-cases (ip.parse_addr (if e.address == "" then "::" else e.address))) [
        | inl bad ↦ let h' = rw (p, bad) at h in cc
        | inr (a, good) ↦ elim (Bool-cases (ip.zoned a)) [
          | inl z ↦ let h' = rw (p, good, z) at h in cc
          | inr z ↦
              let h' = rw (p, good, z) at h in
              let eq : ip.text (ip.unmap a) ≡ e.address = ground arith in
              (
                ip.unmap a,
                subst (λ s. ip.parse_addr s ≡ some (ip.unmap a)) eq
                    (lawful.parse-text (ip.unmap a)),
              )
        ]
      ]
    ]

    -- MustParseAddr does not panic on canonical endpoints.
    pub covers_total :
        (x y : Endpoint) → IsCanonical x → IsCanonical y → (b : Bool) × (covers ip x y ≡ some b)
    unfolding covers
    covers_total x y h k = elim (Bool-cases (eqb x.port y.port)) [
      | inr other ↦ (false, rw other)
      | inl equal ↦
          let (a, p) = parse_addr-some x h in
          let (b, q) = parse_addr-some y k in
          (if ip.is_unspecified a then ip.is6 a || ip.is4 b else ip.same_addr a b, rw (equal, p, q))
    ]

    pub covers_self : (e : Endpoint) → IsCanonical e → covers ip e e ≡ some true
    unfolding covers
    covers_self e h =
        let (a, p) = parse_addr-some e h in
        rw ((eqb_iff e.port e.port).1 refl, p)
          (ground (arith, lawful.family e.address a p, lawful.same_self a))

    -- What Union returns has the canonical form of each endpoint of either group that has one; it has at
    -- most 64 endpoints, and that one is canonical and covers itself.
    pub union-covers :
        (a b out : List Endpoint) (e c : Endpoint)
        → union ip a b ≡ some out
        → (has a e || has b e) ≡ true
        → canonical ip e ≡ some c
        → (has out c ≡ true)
          × (length out ≤ max_endpoints)
          × IsCanonical c
          × (covers ip c c ≡ some true)
    unfolding union
    union-covers a b out e c h m k =
        let (cs, e1, e2, e3, e4) = canonicals-normalize (a ++ b) out h in
        let t =
          has-canonicals same same_iff (canonical ip) (a ++ b) cs e c e1
            (has-append same same_iff a b e ∙ m) k in
        let v = canonical-IsCanonical e c k in (e2 c ∙ t, omega (arith, e3, e4), v, covers_self c v)

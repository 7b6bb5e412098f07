-- ===== src/Ingress/Manifest/Hashes.antt =====
-- internal/ingressguard/manifest.go: the hashes of a manifest, in their canonical form and sorted.
use razdacha.Prelude.{
  arith, ℕ, suc, ◌*◌, ◌≡◌, subst, inl, inr, refl, ◌||◌, List, [], ◌∷◌, some, String, ◌==◌, length,
  any, eqb_iff, Option-cases,
}
use razdacha.Store.Text.{contains, codes}
use razdacha.Ingress.Manifest.{
  Digest, IsDigest, hash_size, insert_text, sort_texts, hash_config, canonical_hash,
}

contains-insert_text :
    (s : String) (xs : List String) (x : String)
    → contains (insert_text s xs) x ≡ (s == x || contains xs x)
unfolding contains any insert_text
contains-insert_text s [] x = refl
contains-insert_text s (y ∷ ys) x = ground (arith, contains-insert_text s ys x)

pub contains-sort_texts :
    (xs : List String) (x : String) → contains (sort_texts xs) x ≡ contains xs x
unfolding contains any sort_texts
contains-sort_texts [] x = refl
contains-sort_texts (s ∷ xs) x =
    ground (arith, contains-insert_text s (sort_texts xs) x, contains-sort_texts xs x)

length-insert_text : (s : String) (xs : List String) → length (insert_text s xs) ≡ suc (length xs)
unfolding insert_text
length-insert_text s [] = refl
length-insert_text s (y ∷ ys) = ground (arith, length-insert_text s ys)

pub length-sort_texts : (xs : List String) → length (sort_texts xs) ≡ length xs
unfolding sort_texts
length-sort_texts [] = refl
length-sort_texts (s ∷ xs) =
    omega (arith, length-insert_text s (sort_texts xs), length-sort_texts xs)

module _ (d : Digest) (lawful : IsDigest d) where
  canonical_hash-decoded :
      (s : String) (bs : List ℕ)
      → d.hex_decode s ≡ some bs
      → length bs ≡ hash_size
      → length (codes s) ≡ 2 * hash_size
      → canonical_hash d s ≡ some (d.hex_encode bs)
  unfolding canonical_hash
  canonical_hash-decoded s bs h n k = rw (
    h,
    canonical_hash,
    (eqb_iff (length bs) hash_size).1 n,
    (eqb_iff (length (codes s)) (2 * hash_size)).1 k,
  )

  -- The hash that HashConfig gives is in its canonical form.
  pub canonical_hash-hash_config :
      (config : String) → canonical_hash d (hash_config d config) ≡ some (hash_config d config)
  unfolding hash_config
  canonical_hash-hash_config config =
      let n = lawful.length-sum256 config in
      canonical_hash-decoded (d.hex_encode (d.sum256 config)) (d.sum256 config)
        (lawful.decode-sum256 config) n (lawful.length-hex_encode (d.sum256 config) n)

  pub canonical_hash_twice :
      (s c : String) → canonical_hash d s ≡ some c → canonical_hash d c ≡ some c
  unfolding canonical_hash
  canonical_hash_twice s c h = elim (Option-cases (d.hex_decode s)) [
    | inl bad ↦ let h' = rw (bad, canonical_hash) at h in cc
    | inr (bs, good) ↦
        let h' = rw (good, canonical_hash) at h in
        let n : length bs ≡ hash_size = ground (arith, eqb_iff (length bs) hash_size) in
        let e : d.hex_encode bs ≡ c = ground arith in
        subst (λ t. canonical_hash d t ≡ some t) e
          (canonical_hash-decoded (d.hex_encode bs) bs (lawful.decode-encode s bs good) n
            (lawful.length-hex_encode bs n))
  ]

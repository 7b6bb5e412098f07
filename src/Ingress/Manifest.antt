-- ===== src/Ingress/Manifest.antt =====
-- internal/ingressguard/manifest.go: the record on the disk of what is under guard, and of the
-- configurations that may run. The checks of the owner and of the mode of a file are its reader's.
pub mod Hashes
pub mod Normal
use razdacha.Prelude.{
  ℕ, suc, ◌*◌, ◌≡◌, Bool, true, false, ◌&&◌, ◌||◌, List, [], ◌∷◌, ◌++◌, Option, none, some, String,
  ◌==◌, length, eqb, ltb, if◌then◌else◌,
}
use razdacha.Store.Text.{contains, leb_text, codes}
use razdacha.Ingress.Distinct
use razdacha.Ingress.Endpoints.{Netip, Endpoint, normalize_endpoints}

abbrev pub version : ℕ
version = 1

abbrev pub max_hashes : ℕ
max_hashes = 8

abbrev pub hash_size : ℕ
hash_size = 32

pub record Manifest : Type 0 where
  pub version : ℕ
  pub endpoints : List Endpoint
  pub config_hashes : List String
  pub guarded : Bool

-- crypto/sha256 and encoding/hex: `sum256` is Sum256.
pub record Digest : Type 0 where
  pub sum256 : String → List ℕ
  pub hex_decode : String → Option (List ℕ)
  pub hex_encode : List ℕ → String

-- A sum has 32 bytes, which are encoded as 64 digits and decoded again.
pub record IsDigest (d : Digest) : Type 0 where
  pub length-sum256 : (s : String) → length (d.sum256 s) ≡ hash_size
  pub length-hex_encode :
      (bs : List ℕ) → length bs ≡ hash_size → length (codes (d.hex_encode bs)) ≡ 2 * hash_size
  pub decode-sum256 : (s : String) → d.hex_decode (d.hex_encode (d.sum256 s)) ≡ some (d.sum256 s)
  pub decode-encode :
      (s : String) (bs : List ℕ)
      → d.hex_decode s ≡ some bs
      → d.hex_decode (d.hex_encode bs) ≡ some bs

-- sort.Strings.
unfoldable pub insert_text : String → List String → List String
insert_text s [] = s ∷ []
insert_text s (x ∷ xs) =
    let rest = insert_text s xs in if leb_text s x then s ∷ x ∷ xs else x ∷ rest

unfoldable pub sort_texts : List String → List String
sort_texts [] = []
sort_texts (s ∷ xs) = insert_text s (sort_texts xs)

module _ (d : Digest) where
  -- HashConfig.
  unfoldable pub hash_config : String → String
  hash_config config = d.hex_encode (d.sum256 config)

  -- A hash in lower case, if it is one.
  unfoldable pub canonical_hash : String → Option String
  canonical_hash hash = elim (d.hex_decode hash) [
    | none ↦ none
    | some decoded ↦
        if eqb (length decoded) hash_size && eqb (length (codes hash)) (2 * hash_size)
        then some (d.hex_encode decoded)
        else none
  ]

  unfoldable pub normalize_manifest : Netip → Manifest → Option Manifest
  normalize_manifest ip m =
      if eqb m.version version
      then elim (normalize_endpoints ip m.endpoints) [
        | none ↦ none
        | some endpoints ↦
            if eqb (length m.config_hashes) 0 || ltb max_hashes (length m.config_hashes)
            then none
            else elim (Distinct.collect ◌==◌ canonical_hash [] m.config_hashes) [
              | none ↦ none
              | some hashes ↦
                  some (record m { endpoints = endpoints; config_hashes = sort_texts hashes })
            ]
      ]
      else none

-- ===== src/Ingress/Endpoints.antt =====
-- internal/ingressguard/endpoint.go: the listeners under guard, in a canonical form.
pub mod Members
pub mod Canonical
use mathlib.Core.Bool.{not}
use razdacha.Prelude.{
  ℕ, Bool, true, false, ◌&&◌, ◌||◌, List, [], ◌∷◌, ◌++◌, Option, none, some, String, ◌==◌, length,
  any, ◌≡◌, eqb, ltb, if◌then◌else◌,
}
use razdacha.Ingress.Distinct
use razdacha.Store.Text.{leb_text}

-- net/netip: `parse_addr` is ParseAddr, `text` is Addr.String, `zoned` says that Zone is not empty.
pub record Netip : Type 1 where
  pub Addr : Type 0
  pub parse_addr : String → Option Addr
  pub text : Addr → String
  pub unmap : Addr → Addr
  pub zoned : Addr → Bool
  pub is_unspecified : Addr → Bool
  pub is_loopback : Addr → Bool
  pub is_multicast : Addr → Bool
  pub is4 : Addr → Bool
  pub is6 : Addr → Bool
  pub same_addr : Addr → Addr → Bool

pub record Endpoint : Type 0 where
  pub address : String
  pub port : ℕ

abbrev pub max_endpoints : ℕ
max_endpoints = 64

-- `==` on two values of the struct.
unfoldable pub same : Endpoint → Endpoint → Bool
same a b = a.address == b.address && eqb a.port b.port

-- `seen[endpoint]`.
abbrev pub has : List Endpoint → Endpoint → Bool
has = Distinct.has same

-- The order that NormalizeEndpoints sorts by.
unfoldable pub before : Endpoint → Endpoint → Bool
before a b =
    if a.address == b.address then ltb a.port b.port else not (leb_text b.address a.address)

-- sort.Slice, which has one result where no two endpoints are the same.
unfoldable pub insert_sorted : Endpoint → List Endpoint → List Endpoint
insert_sorted e [] = e ∷ []
insert_sorted e (x ∷ xs) =
    let rest = insert_sorted e xs in if before x e then x ∷ rest else e ∷ x ∷ xs

unfoldable pub sort_endpoints : List Endpoint → List Endpoint
sort_endpoints [] = []
sort_endpoints (e ∷ es) = insert_sorted e (sort_endpoints es)

module _ (ip : Netip) where
  open ip use {Addr, parse_addr, text, unmap, zoned, is_unspecified, is4, is6, same_addr}

  -- The body of the loop of NormalizeEndpoints, before the lookup in `seen`.
  unfoldable pub canonical : Endpoint → Option Endpoint
  canonical e =
      if eqb e.port 0
      then none
      else elim (parse_addr (if e.address == "" then "::" else e.address)) [
        | none ↦ none
        | some a ↦
            if zoned a then none else some (record { address = text (unmap a); port = e.port })
      ]

  unfoldable pub normalize_endpoints : List Endpoint → Option (List Endpoint)
  normalize_endpoints es =
      if ltb max_endpoints (length es) then none else elim (Distinct.collect same canonical [] es) [
        | none ↦ none
        | some out ↦ some (sort_endpoints out)
      ]

  -- Union of two groups.
  unfoldable pub union : List Endpoint → List Endpoint → Option (List Endpoint)
  union a b = normalize_endpoints (a ++ b)

  -- covers, `none` where MustParseAddr panics.
  unfoldable pub covers : Endpoint → Endpoint → Option Bool
  covers have want =
      if not (eqb have.port want.port) then some false else elim (parse_addr have.address) [
        | none ↦ none
        | some a ↦ elim (parse_addr want.address) [
          | none ↦ none
          | some b ↦ some (if is_unspecified a then is6 a || is4 b else same_addr a b)
        ]
      ]

-- What net/netip documents: String gives a text that ParseAddr reads back; Unmap of an address without
-- a zone has none and is unmapped, no text of an address is empty, and an address that ParseAddr
-- gives is IPv4 or IPv6.
pub record IsLawful (ip : Netip) : Type 0 where
  pub parse-text : (a : ip.Addr) → ip.parse_addr (ip.text a) ≡ some a
  pub unmap_twice : (a : ip.Addr) → ip.unmap (ip.unmap a) ≡ ip.unmap a
  pub zoned-unmap : (a : ip.Addr) → ip.zoned a ≡ false → ip.zoned (ip.unmap a) ≡ false
  pub text_nonempty : (a : ip.Addr) → (ip.text a == "") ≡ false
  pub family : (s : String) (a : ip.Addr) → ip.parse_addr s ≡ some a → (ip.is6 a || ip.is4 a) ≡ true
  pub same_self : (a : ip.Addr) → ip.same_addr a a ≡ true

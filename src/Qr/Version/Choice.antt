-- ===== src/Qr/Version/Choice.antt =====
-- Which version pickVersion of internal/qr/qr.go gives, and when there is none.
use razdacha.Prelude.{
  ℕ, zero, suc, ◌+◌, ◌*◌, ◌≤◌, ◌<◌, ◌≡◌, ◌↔◌, refl, sym, ◌∙◌, arith, true, Option, none, some, leb,
  List, [], ◌∷◌, length, if◌then◌else◌, Bool-cases, inl, inr,
}
use razdacha.Qr.Version.{data_codewords, count_bits, fits, pick_from, pick_version}

-- The loop gives the first version from `version` on that fits.
pub pick_from-first :
    (size rounds version v : ℕ)
    → pick_from size rounds version ≡ some v
    → (version ≤ v) × (v < version + rounds) × (fits size v ≡ true)
unfolding pick_from
pick_from-first size zero version v e = cc
pick_from-first size (suc rounds) version v e = elim (Bool-cases (fits size version)) [
  | inl here ↦ ground arith
  | inr later ↦ ground (arith, pick_from-first size rounds (version + 1) v)
]

-- The bytes that each version holds, as the standard's table for byte mode and level L gives them.
abbrev pub capacities : List ℕ
capacities =
    17 ∷ 32 ∷ 53 ∷ 78 ∷ 106 ∷ 134 ∷ 154 ∷ 192 ∷ 230 ∷ 271 ∷ 321 ∷ 367 ∷ 425 ∷ 458 ∷ 520 ∷ 586 ∷ 644
    ∷ 718 ∷ 792 ∷ 858 ∷ 929 ∷ 1003 ∷ 1091 ∷ 1171 ∷ 1273 ∷ 1367 ∷ 1465 ∷ 1528 ∷ 1628 ∷ 1732 ∷ 1840
    ∷ 1952 ∷ 2068 ∷ 2188 ∷ 2303 ∷ 2431 ∷ 2563 ∷ 2699 ∷ 2809 ∷ 2953 ∷ []

-- The number of the first entry that is large enough.
abbrev pub first_holding : ℕ → List ℕ → ℕ → Option ℕ
first_holding size [] version = none
first_holding size (c ∷ cs) version =
    if leb size c then some version else first_holding size cs (version + 1)

-- Each entry of the table is what the fields of its version leave.
abbrev Agrees : List ℕ → ℕ → Type 0
Agrees [] version = Unit
Agrees (c ∷ cs) version =
    (data_codewords version * 8 ≡ 4 + count_bits version + 8 * c + 4) × Agrees cs (version + 1)

table-Agrees : Agrees capacities 1
unfolding data_codewords count_bits
table-Agrees = omega arith

pick_from-first_holding :
    (size : ℕ) (cs : List ℕ) (version : ℕ)
    → Agrees cs version
    → pick_from size (length cs) version ≡ first_holding size cs version
unfolding pick_from fits
pick_from-first_holding size [] version a = refl
pick_from-first_holding size (c ∷ cs) version a =
    ground (arith, pick_from-first_holding size cs (version + 1) a.1)

first_holding-none : (size : ℕ) → (first_holding size capacities 1 ≡ none) ↔ (2953 < size)
first_holding-none size = ground arith

pick_version_lem : (size : ℕ) → pick_version size ≡ first_holding size capacities 1
unfolding pick_version
pick_version_lem size = pick_from-first_holding size capacities 1 table-Agrees

-- pickVersion gives the first version of the standard's table of capacities that holds so many
-- bytes, and refuses exactly the sizes above 2953.
pub pick_version-first_holding :
    (size : ℕ)
    → (pick_version size ≡ first_holding size capacities 1)
      × ((pick_version size ≡ none) ↔ (2953 < size))
pick_version-first_holding size =
    let e : pick_version size ≡ first_holding size capacities 1 = pick_version_lem size in
    (e, (λ h. (first_holding-none size).0 (sym e ∙ h), λ h. e ∙ (first_holding-none size).1 h))

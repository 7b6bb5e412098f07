-- ===== src/Qr/Version.antt =====
-- The versions of internal/qr/qr.go: their sizes, and the choice of the least that holds a text.
pub mod Choice
pub mod Fields
use razdacha.Prelude.{
  ℕ, zero, suc, ◌+◌, ◌-◌, ◌*◌, List, [], ◌∷◌, Option, none, some, ltb, leb, if◌then◌else◌, Bool,
}

abbrev pub min_version : ℕ
min_version = 1

abbrev pub max_version : ℕ
max_version = 40

-- `total`: the code words of the versions 1 to 40.
abbrev pub total : List ℕ
total =
    26 ∷ 44 ∷ 70 ∷ 100 ∷ 134 ∷ 172 ∷ 196 ∷ 242 ∷ 292 ∷ 346 ∷ 404 ∷ 466 ∷ 532 ∷ 581 ∷ 655 ∷ 733 ∷ 815
    ∷ 901 ∷ 991 ∷ 1085 ∷ 1156 ∷ 1258 ∷ 1364 ∷ 1474 ∷ 1588 ∷ 1706 ∷ 1828 ∷ 1921 ∷ 2051 ∷ 2185 ∷ 2323
    ∷ 2465 ∷ 2611 ∷ 2761 ∷ 2876 ∷ 3034 ∷ 3196 ∷ 3362 ∷ 3532 ∷ 3706 ∷ []

-- `eccPerBlock`.
abbrev pub ecc_per_block : List ℕ
ecc_per_block =
    7 ∷ 10 ∷ 15 ∷ 20 ∷ 26 ∷ 18 ∷ 20 ∷ 24 ∷ 30 ∷ 18 ∷ 20 ∷ 24 ∷ 26 ∷ 30 ∷ 22 ∷ 24 ∷ 28 ∷ 30 ∷ 28 ∷ 28
    ∷ 28 ∷ 28 ∷ 30 ∷ 30 ∷ 26 ∷ 28 ∷ 30 ∷ 30 ∷ 30 ∷ 30 ∷ 30 ∷ 30 ∷ 30 ∷ 30 ∷ 30 ∷ 30 ∷ 30 ∷ 30 ∷ 30
    ∷ 30 ∷ []

-- `blocks`.
abbrev pub blocks : List ℕ
blocks =
    1 ∷ 1 ∷ 1 ∷ 1 ∷ 1 ∷ 2 ∷ 2 ∷ 2 ∷ 2 ∷ 4 ∷ 4 ∷ 4 ∷ 4 ∷ 4 ∷ 6 ∷ 6 ∷ 6 ∷ 6 ∷ 7 ∷ 8 ∷ 8 ∷ 9 ∷ 9 ∷ 10
    ∷ 12 ∷ 12 ∷ 12 ∷ 13 ∷ 14 ∷ 15 ∷ 16 ∷ 17 ∷ 18 ∷ 19 ∷ 19 ∷ 20 ∷ 21 ∷ 22 ∷ 24 ∷ 25 ∷ []

-- The entry of a table for a version: the versions count from 1. The source asks for versions from 1
-- to 40 only.
unfoldable pub entry : List ℕ → ℕ → ℕ
entry [] i = 0
entry (x ∷ xs) zero = x
entry (x ∷ xs) (suc i) = entry xs i

-- `dataCodewords`.
unfoldable pub data_codewords : ℕ → ℕ
unfolding entry
data_codewords version =
    entry total (version - 1) - entry ecc_per_block (version - 1) * entry blocks (version - 1)

unfoldable pub count_bits : ℕ → ℕ
count_bits version = if leb 10 version then 16 else 8

-- The test of the loop in pickVersion.
unfoldable pub fits : ℕ → ℕ → Bool
unfolding data_codewords count_bits
fits size version = leb (4 + count_bits version + 8 * size) (data_codewords version * 8)

-- The loop of pickVersion with so many versions to go. `none` is ErrTooLong.
unfoldable pub pick_from : ℕ → ℕ → ℕ → Option ℕ
pick_from size zero version = none
pick_from size (suc rounds) version =
    let rest = pick_from size rounds (version + 1) in
    if fits size version then some version else rest

unfoldable pub pick_version : ℕ → Option ℕ
unfolding pick_from fits
pick_version size = pick_from size max_version min_version

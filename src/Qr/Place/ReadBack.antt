-- ===== src/Qr/Place/ReadBack.antt =====
-- Reading the modules that place of internal/qr/qr.go writes.
use razdacha.Prelude.{
  ℕ, zero, suc, ◌≤◌, ◌<◌, ◌≡◌, refl, ◌∙◌, arith, bit_xor, Bool, false, List, [], ◌∷◌, if◌then◌else◌,
  Bool-cases, inl, inr,
}
use razdacha.Qr.Matrix.{Grid, write}
use razdacha.Qr.Format.{mask_fn}
use razdacha.Qr.Stream.Bits.{AreBits}
use razdacha.Qr.Place.{Place, next_bit, advance, masked, place_bits}
use razdacha.Qr.Place.Distinct.{visits}

-- What a module says once the mask is taken off.
unfoldable pub read_module : ℕ → Place → Bool → ℕ
read_module mask p on =
    let bit : ℕ = if on then 1 else 0 in if mask_fn mask p.row p.col then bit_xor bit 1 else bit

-- The bits of the modules that are not functional, in the order of the places.
unfoldable pub read_modules : Grid → ℕ → List Place → Grid → List ℕ
read_modules functional mask [] dark = []
read_modules functional mask (p ∷ ps) dark =
    let rest = read_modules functional mask ps dark in
    if functional p.row p.col then rest else read_module mask p (dark p.row p.col) ∷ rest

-- How many places are free for data.
unfoldable pub count_free : Grid → List Place → ℕ
count_free functional [] = 0
count_free functional (p ∷ ps) =
    let rest = count_free functional ps in if functional p.row p.col then rest else suc rest

-- The first n bits of a stream, with zeros where it ends.
unfoldable pub fit : ℕ → List ℕ → List ℕ
fit zero stream = []
fit (suc n) stream = next_bit stream ∷ fit n (advance stream)

bit_cases :
    (mask : ℕ) (p : Place) (bit : ℕ) → bit < 2 → read_module mask p (masked mask p bit) ≡ bit
unfolding read_module masked
bit_cases mask p zero h = elim (Bool-cases (mask_fn mask p.row p.col)) [
  | inl flip ↦ rw flip refl
  | inr keep ↦ rw keep refl
]
bit_cases mask p (suc zero) h = elim (Bool-cases (mask_fn mask p.row p.col)) [
  | inl flip ↦ rw flip refl
  | inr keep ↦ rw keep refl
]
bit_cases mask p (suc (suc bit)) h = absurd (omega arith)

next_bit-lt : (stream : List ℕ) → AreBits stream → next_bit stream < 2
unfolding next_bit
next_bit-lt [] h = omega arith
next_bit-lt (b ∷ stream) h = h.0

advance-AreBits : (stream : List ℕ) → AreBits stream → AreBits (advance stream)
unfolding advance
advance-AreBits [] h = tt
advance-AreBits (b ∷ stream) h = h.1

-- No place comes twice.
abbrev pub Once : List Place → Type 0
Once [] = Unit
Once (p ∷ ps) = (visits p.row p.col ps ≡ 0) × Once ps

pub Once-of-visits : (ps : List Place) → ((r c : ℕ) → visits r c ps ≤ 1) → Once ps
unfolding visits
Once-of-visits [] h = tt
Once-of-visits (p ∷ ps) h =
    (ground (arith, h p.row p.col), Once-of-visits ps (λ r c. omega (arith, h r c)))

module _ (functional : Grid) (mask : ℕ) where
  -- A place that is not met keeps its module.
  place_bits_other :
      (r c : ℕ) (ps : List Place) (stream : List ℕ) (dark : Grid)
      → visits r c ps ≡ 0
      → place_bits functional mask ps stream dark r c ≡ dark r c
  unfolding place_bits visits
  place_bits_other r c [] stream dark h = refl
  place_bits_other r c (p ∷ ps) stream dark h = elim (Bool-cases (functional p.row p.col)) [
    | inl taken ↦ rw taken (place_bits_other r c ps stream dark (omega arith))
    | inr free ↦
        rw free
          (place_bits_other r c ps (advance stream) _ (omega arith) ∙ unfold write in ground arith)
  ]

  pub read_modules-place_bits :
      (ps : List Place) (stream : List ℕ) (dark : Grid)
      → Once ps
      → AreBits stream
      → read_modules functional mask ps (place_bits functional mask ps stream dark)
        ≡ fit (count_free functional ps) stream
  unfolding place_bits read_modules count_free
  read_modules-place_bits [] stream dark o b = unfold fit in refl
  read_modules-place_bits (p ∷ ps) stream dark o b = elim (Bool-cases (functional p.row p.col)) [
    | inl taken ↦ rw taken (read_modules-place_bits ps stream dark o.1 b)
    | inr free ↦
        let bit : Bool = masked mask p (next_bit stream) in
        let written : Grid = write dark p.row p.col bit in
        let kept : place_bits functional mask ps (advance stream) written p.row p.col ≡ bit =
          place_bits_other p.row p.col ps (advance stream) written o.0
          ∙ unfold write in ground arith in
        rw free (
          rw
            (
              kept,
              bit_cases mask p (next_bit stream) (next_bit-lt stream b),
              read_modules-place_bits ps (advance stream) written o.1 (advance-AreBits stream b),
            )
            (unfold fit in refl))
  ]

  -- Only the modules that are not functional are read.
  pub read_modules-ext :
      (ps : List Place) (f g : Grid)
      → ((r c : ℕ) → functional r c ≡ false → f r c ≡ g r c)
      → read_modules functional mask ps f ≡ read_modules functional mask ps g
  unfolding read_modules
  read_modules-ext [] f g h = refl
  read_modules-ext (p ∷ ps) f g h = elim (Bool-cases (functional p.row p.col)) [
    | inl taken ↦ rw taken (read_modules-ext ps f g h)
    | inr free ↦ rw (free, h p.row p.col free, read_modules-ext ps f g h) refl
  ]

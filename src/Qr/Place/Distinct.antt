-- ===== src/Qr/Place/Distinct.antt =====
-- The zigzag of internal/qr/qr.go meets each module outside the column of the timing pattern once.
use razdacha.Prelude.{
  ℕ, zero, suc, ◌+◌, ◌-◌, ◌*◌, ◌%◌, ◌≤◌, ◌<◌, ◌≡◌, ◌⊎◌, refl, ap, ◌∙◌, arith, Bool, true, false,
  ◌&&◌, ◌||◌, List, [], ◌∷◌, ◌++◌, ltb, leb, eqb, if◌then◌else◌, Bool-cases, inl, inr,
}
use razdacha.Qr.Place.{Direction, Place, walk, zigzag, places}

-- Whether a place is that of row r and column c, and how often a list has it.
abbrev pub at : ℕ → ℕ → Place → ℕ
at r c p = if eqb p.row r && eqb p.col c then 1 else 0

unfoldable pub visits : ℕ → ℕ → List Place → ℕ
visits r c [] = 0
visits r c (p ∷ ps) = at r c p + visits r c ps

visits-append :
    (r c : ℕ) (ps qs : List Place) → visits r c (ps ++ qs) ≡ visits r c ps + visits r c qs
unfolding visits
visits-append r c [] qs = omega arith
visits-append r c (p ∷ ps) qs = omega (arith, visits-append r c ps qs)

abbrev in_pair : ℕ → ℕ → Bool
in_pair col c = eqb c col || eqb c (col - 1)

visits-walk_up :
    (r c rounds size col row : ℕ)
    → 1 ≤ col
    → row < rounds
    → visits r c (walk rounds size col Direction.up row)
      ≡ (if in_pair col c && leb r row then 1 else 0)
unfolding visits walk
visits-walk_up r c zero size col row h k = absurd (omega arith)
visits-walk_up r c (suc rounds) size col zero h k = ground arith
visits-walk_up r c (suc rounds) size col (suc above) h k =
    ground (arith, visits-walk_up r c rounds size col above)

visits-walk_down :
    (r c rounds size col row : ℕ)
    → 1 ≤ col
    → row < size
    → size ≤ row + rounds
    → visits r c (walk rounds size col Direction.down row)
      ≡ (if in_pair col c && (leb row r && ltb r size) then 1 else 0)
unfolding visits walk
visits-walk_down r c zero size col row h k l = absurd (omega arith)
visits-walk_down r c (suc rounds) size col row h k l = elim (Bool-cases (leb size (suc row))) [
  | inl last ↦ rw last (ground arith)
  | inr more ↦ rw more (ground (arith, visits-walk_down r c rounds size col (suc row)))
]

-- The columns where a pair may begin: even ones from 6 on, and odd ones below.
abbrev Begins : ℕ → Type 0
Begins col = ((col % 2 ≡ 0) × (6 ≤ col)) ⊎ ((col % 2 ≡ 1) × (col ≤ 5))

-- The column where the walk of a round begins.
abbrev start : ℕ → ℕ
start col = if eqb col 6 then col - 1 else col

module _ (r c size : ℕ) (size_pos : 0 < size) where
  visits-walk :
      (dir : Direction) (col : ℕ)
      → 1 ≤ col
      → visits r c
          (walk size size col dir (elim dir [ Direction.up ↦ size - 1 | Direction.down ↦ 0 ]))
        ≡ (if in_pair col c && ltb r size then 1 else 0)
  visits-walk Direction.up col h = ground (arith, visits-walk_up r c size size col (size - 1))
  visits-walk Direction.down col h = ground (arith, visits-walk_down r c size size col 0)

  abbrev seen : ℕ → ℕ
  seen col = if eqb c 6 then 0 else if leb c col && ltb r size then 1 else 0

  zigzag-nil : (rounds : ℕ) (dir : Direction) → visits r c (zigzag rounds size 0 dir) ≡ 0
  unfolding zigzag visits
  zigzag-nil zero dir = refl
  zigzag-nil (suc rounds) Direction.up = refl
  zigzag-nil (suc rounds) Direction.down = refl

  -- The pair of a round and those after it.
  pair_and_rest :
      (col : ℕ) (here later : ℕ)
      → Begins col
      → here ≡ (if in_pair (start col) c && ltb r size then 1 else 0)
      → later ≡ (if ltb 1 (start col) then seen (start col - 2) else 0)
      → here + later ≡ seen col
  pair_and_rest col here later b e f = ground arith

  start-Begins : (col : ℕ) → Begins col → ltb 1 (start col) ≡ true → Begins (start col - 2)
  start-Begins col b h = ground arith

  -- What follows a pair, from what holds for the next pair.
  rest_seen :
      (rounds col : ℕ) (dir : Direction)
      → Begins col
      → (ltb 1 (start col) ≡ true
          → visits r c (zigzag rounds size (start col - 2) dir) ≡ seen (start col - 2))
      → visits r c (zigzag rounds size (start col - 2) dir)
        ≡ (if ltb 1 (start col) then seen (start col - 2) else 0)
  rest_seen rounds col dir b ih = elim (Bool-cases (ltb 1 (start col))) [
    | inl more ↦ ih more ∙ rw more refl
    | inr last ↦
        let e : start col - 2 ≡ 0 = ground arith in
        ap (λ t. visits r c (zigzag rounds size t dir)) e ∙ zigzag-nil rounds dir ∙ rw last refl
  ]

  visits-zigzag :
      (rounds col : ℕ) (dir : Direction)
      → Begins col
      → col < rounds * 2
      → visits r c (zigzag rounds size col dir) ≡ seen col
  unfolding zigzag
  visits-zigzag zero col dir b h = absurd (omega arith)
  visits-zigzag (suc rounds) col Direction.up b h =
      let nonzero : eqb col 0 ≡ false = ground arith in
      rw nonzero (
        visits-append r c (walk size size (start col) Direction.up (size - 1)) _
        ∙ pair_and_rest col _ _ b (visits-walk Direction.up (start col) (ground arith)) (
            rest_seen rounds col Direction.down b (λ m.
              visits-zigzag rounds (start col - 2) Direction.down (start-Begins col b m)
                (ground arith))))
  visits-zigzag (suc rounds) col Direction.down b h =
      let nonzero : eqb col 0 ≡ false = ground arith in
      rw nonzero (
        visits-append r c (walk size size (start col) Direction.down 0) _
        ∙ pair_and_rest col _ _ b (visits-walk Direction.down (start col) (ground arith)) (
            rest_seen rounds col Direction.up b (λ m.
              visits-zigzag rounds (start col - 2) Direction.up (start-Begins col b m)
                (ground arith))))

-- Along the zigzag of a matrix of any version each module outside column 6 comes once, and no other
-- place comes at all.
pub visits-places :
    (v r c : ℕ)
    → 1 ≤ v
    → visits r c (places (v * 4 + 17))
      ≡ (if eqb c 6 || (leb (v * 4 + 17) c || leb (v * 4 + 17) r) then 0 else 1)
unfolding places
visits-places v r c h =
    let size : ℕ = v * 4 + 17 in
    visits-zigzag r c size (omega arith) size (size - 1) Direction.up
      (inl (omega arith, omega arith)) (omega arith)
    ∙ ground arith

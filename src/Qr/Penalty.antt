-- ===== src/Qr/Penalty.antt =====
-- penalty of internal/qr/qr.go: the four rules by which the masks are compared.
use razdacha.Prelude.{
  ℕ, ◌+◌, ◌-◌, ◌*◌, ◌/◌, Bool, true, false, ◌&&◌, ◌||◌, List, [], ◌∷◌, map, Option, none, some, ltb,
  leb, if◌then◌else◌,
}
use mathlib.Core.List.{reverse}
use razdacha.Prelude.Int.{pos}
use razdacha.Qr.Matrix.{Matrix, is_dark, range}

-- `m.Dark(row, col)`.
unfoldable pub dark_at : Matrix → ℕ → ℕ → Bool
dark_at m row col = is_dark m (pos row) (pos col)

unfoldable pub same : Bool → Bool → Bool
same true b = b
same false true = false
same false false = true

-- The sum of what the rounds of a loop add to the score.
unfoldable pub sum_over {ℓ} : {A : Type ℓ} → List A → (A → ℕ) → ℕ
sum_over [] f = 0
sum_over (x ∷ xs) f = f x + sum_over xs f

-- Rule 1 on a line, from `run` and `prev` on; `none` is the prev of -1.
unfoldable pub run_score : ℕ → ℕ
run_score run = if leb 5 run then 3 + (run - 5) else 0

unfoldable pub goes_on : Bool → Option Bool → Bool
goes_on v none = false
goes_on v (some prev) = same v prev

unfoldable pub line_score : ℕ → Option Bool → List Bool → ℕ
line_score run prev [] = run_score run
line_score run prev (v ∷ line) =
    let longer = line_score (run + 1) prev line in
    let fresh = run_score run + line_score 1 (some v) line in
    if goes_on v prev then longer else fresh

unfoldable pub runs_score : Matrix → ℕ
runs_score m =
    let indexes = range 0 m.size in
    sum_over indexes (λ a. line_score 1 none (map (dark_at m a) indexes))
    + sum_over indexes (λ a. line_score 1 none (map (λ b. dark_at m b a) indexes))

-- Rule 2: squares of one colour.
unfoldable pub square_score : Matrix → ℕ → ℕ → ℕ
square_score m r c =
    let v = dark_at m r c in
    if same v (dark_at m r (c + 1))
      && (same v (dark_at m (r + 1) c) && same v (dark_at m (r + 1) (c + 1)))
    then 3
    else 0

unfoldable pub squares_score : Matrix → ℕ
squares_score m =
    let indexes = range 0 (m.size - 1) in
    sum_over indexes (λ r. sum_over indexes (square_score m r))

-- Rule 3: the profile of a finder pattern with a light margin after it or before it.
abbrev pub finder_pattern : List Bool
finder_pattern =
    true ∷ false ∷ true ∷ true ∷ true ∷ false ∷ true ∷ false ∷ false ∷ false ∷ false ∷ []

unfoldable pub agrees : List Bool → (ℕ → Bool) → ℕ → Bool
agrees [] get start = true
agrees (p ∷ ps) get start = same (get start) p && agrees ps get (start + 1)

unfoldable pub matches : (ℕ → Bool) → ℕ → Bool
matches get start = agrees finder_pattern get start || agrees (reverse finder_pattern) get start

-- The starts c with c + 11 <= size.
unfoldable pub starts : ℕ → List ℕ
starts size = range 0 (size + 1 - 11)

unfoldable pub finders_score : Matrix → ℕ
finders_score m =
    let indexes = range 0 m.size in
    sum_over indexes
      (λ r. sum_over (starts m.size) (λ c. if matches (dark_at m r) c then 40 else 0))
    + sum_over indexes
        (λ c. sum_over (starts m.size) (λ r. if matches (λ i. dark_at m i c) r then 40 else 0))

-- Rule 4: how far the share of the dark modules is from a half.
unfoldable pub balance_score : Matrix → ℕ
balance_score m =
    let indexes = range 0 m.size in
    let dark = sum_over indexes (λ r. sum_over indexes (λ c. if dark_at m r c then 1 else 0)) in
    let area = m.size * m.size in
    let off =
      if ltb (dark * 100) (50 * area) then 50 * area - dark * 100 else dark * 100 - 50 * area in
    off / (5 * area) * 10

unfoldable pub penalty : Matrix → ℕ
penalty m = runs_score m + squares_score m + finders_score m + balance_score m

-- ===== src/Qr/Matrix.antt =====
-- The matrix of internal/qr/qr.go. The arrays with the index row*size+col are functions of row and
-- column; each access of the source is at a place inside the matrix.
use razdacha.Prelude.{ℕ, zero, suc, Bool, false, ◌&&◌, ◌||◌, List, [], ◌∷◌, leb, eqb, if◌then◌else◌}
use razdacha.Prelude.Int.{ℤ, pos, negsuc}

abbrev pub Grid : Type 0
Grid = ℕ → ℕ → Bool

abbrev pub blank : Grid
blank = λ r c. false

-- `a[row*size+col] = v`.
unfoldable pub write : Grid → ℕ → ℕ → Bool → Grid
write g row col v = λ r c. if eqb r row && eqb c col then v else g r c

pub record Matrix : Type 0 where
  pub size : ℕ
  pub dark : Grid

-- `Matrix.Dark`: what lies outside counts as light.
unfoldable pub is_dark : Matrix → ℤ → ℤ → Bool
is_dark m (pos row) (pos col) = if leb m.size row || leb m.size col then false else m.dark row col
is_dark m (pos row) (negsuc col) = false
is_dark m (negsuc row) col = false

-- `Matrix.set`: what lies outside is not written.
unfoldable pub set_module : ℤ → ℤ → Bool → Matrix → Matrix
set_module (pos row) (pos col) v m =
    if leb m.size row || leb m.size col then m else record m { dark = write m.dark row col v }
set_module (pos row) (negsuc col) v m = m
set_module (negsuc row) col v m = m

-- `for _, x := range xs { s = f(x, s) }`.
unfoldable pub for_each {ℓ} : {A S : Type ℓ} → List A → (A → S → S) → S → S
for_each [] f s = s
for_each (x ∷ xs) f s = for_each xs f (f x s)

-- `for i := low; i < low+count; i++`.
unfoldable pub range : ℕ → ℕ → List ℕ
range low zero = []
range low (suc count) = low ∷ range (suc low) count

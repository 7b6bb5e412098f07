-- ===== src/Qr/Stream/Gather.antt =====
-- Reading the interleaved code words of internal/qr/qr.go back into blocks.
use mathlib.Core.List.{append_assoc}
use razdacha.Prelude.{
  ℕ, zero, suc, ◌+◌, ◌≡◌, refl, ap, ap₂, ◌∙◌, List, [], ◌∷◌, ◌++◌, map, length, length-append,
  arith, get_elem?, Option-cases, inl, inr,
}
use razdacha.Qr.Byte.{Byte}
use razdacha.Qr.Stream.{drop, column, columns}
use razdacha.Qr.Stream.Bits.{drop-append}
use razdacha.Qr.Stream.Blocks.{Within, sum}

-- One word for each block that has one left.
unfoldable pub firsts : List ℕ → List Byte → List (List Byte)
firsts [] words = []
firsts (zero ∷ ns) words = [] ∷ firsts ns words
firsts (suc n ∷ ns) [] = [] ∷ firsts ns []
firsts (suc n ∷ ns) (w ∷ words) = (w ∷ []) ∷ firsts ns words

unfoldable pub count_set : List ℕ → ℕ
count_set [] = 0
count_set (zero ∷ ns) = count_set ns
count_set (suc n ∷ ns) = suc (count_set ns)

abbrev pub pred : ℕ → ℕ
pred zero = 0
pred (suc n) = n

unfoldable pub zip_append : List (List Byte) → List (List Byte) → List (List Byte)
zip_append [] ys = []
zip_append (x ∷ xs) [] = x ∷ xs
zip_append (x ∷ xs) (y ∷ ys) = (x ++ y) ∷ zip_append xs ys

-- The blocks of the given lengths, from so many columns.
unfoldable pub gather : ℕ → List ℕ → List Byte → List (List Byte)
gather zero ns words = map (λ _. []) ns
gather (suc r) ns words =
    zip_append (firsts ns words) (gather r (map pred ns) (drop (count_set ns) words))

abbrev tail : List Byte → List Byte
tail [] = []
tail (b ∷ d) = d

abbrev first : List Byte → List Byte
first [] = []
first (b ∷ d) = b ∷ []

column-suc : (i : ℕ) (ds : List (List Byte)) → column (suc i) ds ≡ column i (map tail ds)
unfolding column
column-suc i [] = refl
column-suc i ([] ∷ ds) = column-suc i ds
column-suc i ((b ∷ d) ∷ ds) = elim (Option-cases (get_elem? d i)) [
  | inl missing ↦ rw (missing, column) (column-suc i ds)
  | inr (c, there) ↦ rw (there, column) (ap (λ t. c ∷ t) (column-suc i ds))
]

columns-suc : (r i : ℕ) (ds : List (List Byte)) → columns r (suc i) ds ≡ columns r i (map tail ds)
unfolding columns
columns-suc zero i ds = refl
columns-suc (suc r) i ds = ap₂ (λ a b. a ++ b) (column-suc i ds) (columns-suc r (suc i) ds)

firsts-column :
    (ds : List (List Byte)) (rest : List Byte)
    → firsts (map length ds) (column 0 ds ++ rest) ≡ map first ds
unfolding firsts column
firsts-column [] rest = refl
firsts-column ([] ∷ ds) rest = ap (λ t. [] ∷ t) (firsts-column ds rest)
firsts-column ((b ∷ d) ∷ ds) rest = ap (λ t. (b ∷ []) ∷ t) (firsts-column ds rest)

length-column : (ds : List (List Byte)) → length (column 0 ds) ≡ count_set (map length ds)
unfolding count_set column
length-column [] = refl
length-column ([] ∷ ds) = length-column ds
length-column ((b ∷ d) ∷ ds) = ap suc (length-column ds)

map-pred-length : (ds : List (List Byte)) → map pred (map length ds) ≡ map length (map tail ds)
map-pred-length [] = refl
map-pred-length ([] ∷ ds) = ap (λ t. 0 ∷ t) (map-pred-length ds)
map-pred-length ((b ∷ d) ∷ ds) = ap (λ t. length d ∷ t) (map-pred-length ds)

zip_append-first-tail : (ds : List (List Byte)) → zip_append (map first ds) (map tail ds) ≡ ds
unfolding zip_append
zip_append-first-tail [] = refl
zip_append-first-tail ([] ∷ ds) = ap (λ t. [] ∷ t) (zip_append-first-tail ds)
zip_append-first-tail ((b ∷ d) ∷ ds) = ap (λ t. (b ∷ d) ∷ t) (zip_append-first-tail ds)

tails-Within :
    (r : ℕ) (ds : List (List Byte))
    → Within (suc r) (map length ds)
    → Within r (map length (map tail ds))
tails-Within r [] h = tt
tails-Within r ([] ∷ ds) h = (omega arith, tails-Within r ds h.1)
tails-Within r ((b ∷ d) ∷ ds) h = (omega arith, tails-Within r ds h.1)

empties : (ds : List (List Byte)) → Within 0 (map length ds) → map (λ _. []) (map length ds) ≡ ds
empties [] h = refl
empties ([] ∷ ds) h = ap (λ t. [] ∷ t) (empties ds h.1)
empties ((b ∷ d) ∷ ds) h = absurd (omega arith)

-- Enough columns give the blocks back, whatever follows.
pub gather-columns :
    (r : ℕ) (ds : List (List Byte)) (rest : List Byte)
    → Within r (map length ds)
    → gather r (map length ds) (columns r 0 ds ++ rest) ≡ ds
unfolding gather columns
gather-columns zero ds rest h = empties ds h
gather-columns (suc r) ds rest h =
    let later : List Byte = columns r 0 (map tail ds) ++ rest in
    let split : (column 0 ds ++ columns r 1 ds) ++ rest ≡ column 0 ds ++ later =
      append_assoc (column 0 ds) (columns r 1 ds) rest
      ∙ ap (λ t. column 0 ds ++ (t ++ rest)) (columns-suc r 0 ds) in
    rw split (
      rw
        (
          firsts-column ds later,
          drop-append (count_set (map length ds)) (column 0 ds) later (length-column ds),
          map-pred-length ds,
        )
        (ap (zip_append (map first ds)) (gather-columns r (map tail ds) rest (tails-Within r ds h))
          ∙ zip_append-first-tail ds))

sum_of-pred : (ns : List ℕ) → sum ns ≡ count_set ns + sum (map pred ns)
unfolding sum count_set
sum_of-pred [] = refl
sum_of-pred (zero ∷ ns) = omega (arith, sum_of-pred ns)
sum_of-pred (suc n ∷ ns) = omega (arith, sum_of-pred ns)

sum-empties : (ns : List ℕ) → Within 0 ns → 0 ≡ sum ns
unfolding sum
sum-empties [] h = refl
sum-empties (n ∷ ns) h = omega (arith, sum-empties ns h.1)

-- Enough columns hold every word.
pub length-columns :
    (r : ℕ) (ds : List (List Byte))
    → Within r (map length ds)
    → length (columns r 0 ds) ≡ sum (map length ds)
unfolding columns
length-columns zero ds h = sum-empties (map length ds) h
length-columns (suc r) ds h = omega (
  arith,
  length-append (column 0 ds) (columns r 1 ds),
  length-column ds,
  ap length (columns-suc r 0 ds),
  length-columns r (map tail ds) (tails-Within r ds h),
  ap sum (map-pred-length ds),
  sum_of-pred (map length ds),
)

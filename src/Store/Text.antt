-- ===== src/Store/Text.antt =====
-- What the store asks of texts: membership, white space (strings.TrimSpace) and the order of SQLite's
-- default collation, which for UTF-8 is that of the code points.
use Prim.Native.Char.{code}
use mathlib.Core.HLevel.{hedberg}
use mathlib.Core.Logic.Or
use mathlib.Core.Bool.{Bool-set}
use mathlib.Core.List.{Mem, mem-cons, mem-cons_of_mem, not-mem-nil}
use razdacha.Prelude.{
  arith, ◌≡◌, ◌↔◌, inl, inr, sym, eq_iff, Bool-cases, ℕ, Bool, true, false, ◌&&◌, ◌||◌, List, [],
  ◌∷◌, String, ◌==◌, ltb, leb, eqb, any, if◌then◌else◌,
}

-- `slices.Contains`, and a lookup in a `map[string]bool`.
unfoldable pub contains : List String → String → Bool
unfolding any
contains xs x = any (λ y. y == x) xs

abbrev pub codes : String → List ℕ
codes String.[] = []
codes (String.◌∷◌ c s) = code c ∷ codes s

-- `unicode.IsSpace`.
unfoldable pub is_space : ℕ → Bool
is_space c =
    (leb 9 c && leb c 13)
    || eqb c 32
    || eqb c 0x85
    || eqb c 0xa0
    || eqb c 0x1680
    || (leb 0x2000 c && leb c 0x200a)
    || eqb c 0x2028
    || eqb c 0x2029
    || eqb c 0x202f
    || eqb c 0x205f
    || eqb c 0x3000

trim_left : String → String
unfolding is_space
trim_left String.[] = String.[]
trim_left (String.◌∷◌ c s) =
    let rest = trim_left s in if is_space (code c) then rest else String.◌∷◌ c s

trim_right : String → String
unfolding is_space
trim_right String.[] = String.[]
trim_right (String.◌∷◌ c s) =
    let rest = trim_right s in if is_space (code c) && rest == "" then "" else String.◌∷◌ c rest

-- `strings.TrimSpace`.
unfoldable pub trim_space : String → String
unfolding trim_left trim_right
trim_space s = trim_right (trim_left s)

-- The order of two texts by their code points.
leb_codes : List ℕ → List ℕ → Bool
leb_codes [] ys = true
leb_codes (x ∷ xs) [] = false
leb_codes (x ∷ xs) (y ∷ ys) = ltb x y || (eqb x y && leb_codes xs ys)

unfoldable pub leb_text : String → String → Bool
unfolding leb_codes
leb_text a b = leb_codes (codes a) (codes b)

pub String-discrete : Discrete String
String-discrete a b = elim (Bool-cases (a == b)) [
  | inl same ↦ yes ((eq_iff a b).0 same)
  | inr other ↦ no (λ e. cc (other, (eq_iff a b).1 e))
]

pub String-set : IsSet String
String-set = hedberg String-discrete

-- `contains` decides membership.
pub contains_iff : (xs : List String) (x : String) → (contains xs x ≡ true) ↔ Mem x xs
unfolding contains
contains_iff [] x = (λ h. cc, λ m. absurd (not-mem-nil m))
contains_iff (y ∷ ys) x = (
  λ h. elim (Bool-cases (y == x)) [
    | inl same ↦ mem-cons.1 (Or.inl (sym ((eq_iff y x).0 same)))
    | inr other ↦ mem-cons_of_mem y ((contains_iff ys x).0 (ground arith))
  ],
  λ m.
      Or.elim (Bool-set _ _) (mem-cons.0 m) (λ e. ground (arith, (eq_iff y x).1 (sym e)))
        (λ t. ground (arith, (contains_iff ys x).1 t)),
)

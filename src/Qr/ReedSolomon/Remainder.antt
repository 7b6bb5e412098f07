-- ===== src/Qr/ReedSolomon/Remainder.antt =====
-- The remainder in internal/qr/qr.go: a block followed by it is a multiple of the generator.
use mathlib.Core.Path.{◌≡⟨◌⟩◌, ◌∎, ap₂}
use razdacha.Prelude.{
  ℕ, zero, suc, ◌+◌, ◌<◌, ◌≤◌, ◌≡◌, refl, sym, ap, ◌∙◌, List, [], ◌∷◌, ◌++◌, length, length-append,
  arith, eqb, Bool-cases, inl, inr,
}
use razdacha.Qr.Byte.{Byte, zero_byte, ◌⊕◌, zero-⊕, ⊕-zero, ⊕_self, ⊕_swap_middle}
use razdacha.Qr.Galois.{gf_mul, gf_exp}
use razdacha.Qr.Galois.Product.{one_byte, zero-gf_mul, zero_of}
use razdacha.Qr.Galois.Laws.{gf_mul-⊕, gf_mul_swap, gf_mul_comm, gf_mul-one}
use razdacha.Qr.ReedSolomon.{gen_poly, add_scaled, tail, reduce_step, reduce, zeros, rs_remainder}
use razdacha.Qr.ReedSolomon.Evaluation.{eval, eval-append, eval_from}
use razdacha.Qr.ReedSolomon.Generator.{eval-gen_poly, length-gen_poly, gen_poly-tail}

-- Adding c times a polynomial that vanishes at z changes no value at z. `g` is the value of the
-- coefficients before.
eval-add_scaled :
    (c z a g : Byte) (gs res : List Byte)
    → length gs ≤ length res
    → eval g z gs ≡ zero_byte
    → eval (a ⊕ gf_mul g c) z (add_scaled c gs res) ≡ eval a z res
unfolding eval add_scaled
eval-add_scaled c z a g [] res h e = rw e (rw (zero-gf_mul c, ⊕-zero a) refl)
eval-add_scaled c z a g (x ∷ gs) [] h e = absurd (omega arith)
eval-add_scaled c z a g (x ∷ gs) (r ∷ res) h e =
    eval (gf_mul (a ⊕ gf_mul g c) z ⊕ (r ⊕ gf_mul x c)) z (add_scaled c gs res)
    ≡⟨ ap (λ t. eval (t ⊕ (r ⊕ gf_mul x c)) z (add_scaled c gs res))
        (gf_mul-⊕ a (gf_mul g c) z ∙ ap (λ t. gf_mul a z ⊕ t) (gf_mul_swap g c z)) ⟩
      eval ((gf_mul a z ⊕ gf_mul (gf_mul g z) c) ⊕ (r ⊕ gf_mul x c)) z (add_scaled c gs res)
    ≡⟨ ap (λ t. eval t z (add_scaled c gs res))
        (⊕_swap_middle (gf_mul a z) (gf_mul (gf_mul g z) c) r (gf_mul x c)) ⟩
      eval ((gf_mul a z ⊕ r) ⊕ (gf_mul (gf_mul g z) c ⊕ gf_mul x c)) z (add_scaled c gs res)
    ≡⟨ ap (λ t. eval ((gf_mul a z ⊕ r) ⊕ t) z (add_scaled c gs res))
        (sym (gf_mul-⊕ (gf_mul g z) x c)) ⟩
      eval ((gf_mul a z ⊕ r) ⊕ gf_mul (gf_mul g z ⊕ x) c) z (add_scaled c gs res)
    ≡⟨ eval-add_scaled c z (gf_mul a z ⊕ r) (gf_mul g z ⊕ x) gs res (omega arith) e ⟩
      eval (gf_mul a z ⊕ r) z res ∎

length-add_scaled : (c : Byte) (gs res : List Byte) → length (add_scaled c gs res) ≡ length res
unfolding add_scaled
length-add_scaled c [] res = refl
length-add_scaled c (g ∷ gs) [] = refl
length-add_scaled c (g ∷ gs) (r ∷ res) = ap suc (length-add_scaled c gs res)

eval-zero_first :
    (z : Byte) (res : List Byte) → eval zero_byte z (zero_byte ∷ res) ≡ eval zero_byte z res
unfolding eval
eval-zero_first z res = rw (zero-gf_mul z, zero-⊕ zero_byte) refl

-- The first coefficient is cancelled, so that the tail has the value of the whole.
eval-tail-add_scaled :
    (c z : Byte) (gs res : List Byte)
    → length gs ≤ length res
    → eval zero_byte z (one_byte ∷ gs) ≡ zero_byte
    → eval zero_byte z (tail (add_scaled c (one_byte ∷ gs) (c ∷ res))) ≡ eval zero_byte z (c ∷ res)
eval-tail-add_scaled c z gs res h e =
    let start : zero_byte ⊕ gf_mul zero_byte c ≡ zero_byte =
      rw (zero-gf_mul c, zero-⊕ zero_byte) refl in
    let first : c ⊕ gf_mul one_byte c ≡ zero_byte =
      rw (gf_mul_comm one_byte c, gf_mul-one c) (⊕_self c) in
    let whole : eval zero_byte z (add_scaled c (one_byte ∷ gs) (c ∷ res))
        ≡ eval zero_byte z (c ∷ res) =
      ap (λ t. eval t z (add_scaled c (one_byte ∷ gs) (c ∷ res))) (sym start)
      ∙ eval-add_scaled c z zero_byte zero_byte (one_byte ∷ gs) (c ∷ res) (omega arith) e in
    unfold tail add_scaled in
    sym (eval-zero_first z (add_scaled c gs res))
    ∙ ap (λ t. eval zero_byte z (t ∷ add_scaled c gs res)) (sym first)
    ∙ whole

length-tail : (xs res : List Byte) → length xs ≡ suc (length res) → length (tail xs) ≡ length res
unfolding tail
length-tail [] res h = absurd (omega arith)
length-tail (x ∷ xs) res h = omega arith

length-reduce_step :
    (gs : List Byte) (c : Byte) (res : List Byte) → length (reduce_step gs (c ∷ res)) ≡ length res
unfolding reduce_step
length-reduce_step gs c res = elim (Bool-cases (eqb c.value 0)) [
  | inl skip ↦ rw skip (unfold tail in refl)
  | inr set ↦
      rw set (length-tail (add_scaled c gs (c ∷ res)) res (length-add_scaled c gs (c ∷ res)))
]

length-reduce :
    (gs : List Byte) (n m : ℕ) (res : List Byte) → length res ≡ n + m → length (reduce gs n res) ≡ m
unfolding reduce
length-reduce gs zero m res h = omega arith
length-reduce gs (suc n) m [] h = absurd (omega arith)
length-reduce gs (suc n) m (c ∷ res) h =
    length-reduce gs n m (reduce_step gs (c ∷ res)) (omega (arith, length-reduce_step gs c res))

module _ (z : Byte) (gs : List Byte) (e : eval zero_byte z (one_byte ∷ gs) ≡ zero_byte) where
  eval-reduce_step :
      (c : Byte) (res : List Byte)
      → length gs ≤ length res
      → eval zero_byte z (reduce_step (one_byte ∷ gs) (c ∷ res)) ≡ eval zero_byte z (c ∷ res)
  unfolding reduce_step
  eval-reduce_step c res h = elim (Bool-cases (eqb c.value 0)) [
    | inl skip ↦ rw skip (rw (zero_of c skip) (unfold tail in sym (eval-zero_first z res)))
    | inr set ↦ rw set (eval-tail-add_scaled c z gs res h e)
  ]

  eval-reduce :
      (n : ℕ) (res : List Byte)
      → length res ≡ n + length gs
      → eval zero_byte z (reduce (one_byte ∷ gs) n res) ≡ eval zero_byte z res
  unfolding reduce
  eval-reduce zero res h = refl
  eval-reduce (suc n) [] h = absurd (omega arith)
  eval-reduce (suc n) (c ∷ res) h =
      eval-reduce n (reduce_step (one_byte ∷ gs) (c ∷ res))
        (omega (arith, length-reduce_step (one_byte ∷ gs) c res))
      ∙ eval-reduce_step c res (omega arith)

length-zeros : (n : ℕ) → length (zeros n) ≡ n
unfolding zeros
length-zeros zero = refl
length-zeros (suc n) = ap suc (length-zeros n)

padded_length : (block : List Byte) (n : ℕ) → length (block ++ zeros n) ≡ length block + n
padded_length block n = omega (arith, length-append block (zeros n), length-zeros n)

-- The remainder has as many code words as asked for.
pub length-rs_remainder : (block : List Byte) (n : ℕ) → length (rs_remainder block n) ≡ n
unfolding rs_remainder
length-rs_remainder block n =
    length-reduce (gen_poly n) (length block) n (block ++ zeros n) (padded_length block n)

eval-rs_remainder :
    (block : List Byte) (n i : ℕ)
    → i < n
    → eval zero_byte (gf_exp i) (rs_remainder block n)
      ≡ eval zero_byte (gf_exp i) (block ++ zeros n)
unfolding rs_remainder
eval-rs_remainder block n i h =
    let gs : List Byte = tail (gen_poly n) in
    let monic : gen_poly n ≡ one_byte ∷ gs = gen_poly-tail n in
    let root : eval zero_byte (gf_exp i) (one_byte ∷ gs) ≡ zero_byte =
      ap (eval zero_byte (gf_exp i)) (sym monic) ∙ eval-gen_poly n i h in
    ap (λ t. eval zero_byte (gf_exp i) (reduce t (length block) (block ++ zeros n))) monic
    ∙ eval-reduce (gf_exp i) gs root (length block) (block ++ zeros n)
        (omega (arith, padded_length block n, ap length monic, length-gen_poly n))

eval-block-rs_remainder :
    (block : List Byte) (n i : ℕ)
    → i < n
    → eval zero_byte (gf_exp i) (block ++ rs_remainder block n) ≡ zero_byte
eval-block-rs_remainder block n i h =
    let z : Byte = gf_exp i in
    let v : Byte = eval zero_byte z block in
    let r : List Byte = rs_remainder block n in
    eval zero_byte z (block ++ r)
    ≡⟨ eval-append zero_byte z block r ⟩ eval v z r
    ≡⟨ ap (λ t. eval t z r) (sym (⊕-zero v)) ∙ eval_from v zero_byte z r ⟩
      eval v z (zeros (length r)) ⊕ eval zero_byte z r
    ≡⟨ ap₂ (λ t u. eval v z (zeros t) ⊕ u) (length-rs_remainder block n)
        (eval-rs_remainder block n i h) ⟩
      eval v z (zeros n) ⊕ eval zero_byte z (block ++ zeros n)
    ≡⟨ ap (λ t. eval v z (zeros n) ⊕ t) (eval-append zero_byte z block (zeros n))
      ∙ ⊕_self (eval v z (zeros n)) ⟩
      zero_byte ∎

-- For every block and every n, rsRemainder gives n bytes, and the block followed by them, read as a
-- polynomial, is 0 at the i-th power of 2 for each i below n.
pub rs_remainder-IsCorrection :
    (block : List Byte) (n i : ℕ)
    → i < n
    → (length (rs_remainder block n) ≡ n)
      × (eval zero_byte (gf_exp i) (block ++ rs_remainder block n) ≡ zero_byte)
rs_remainder-IsCorrection block n i h =
    (length-rs_remainder block n, eval-block-rs_remainder block n i h)

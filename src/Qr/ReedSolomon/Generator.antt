-- ===== src/Qr/ReedSolomon/Generator.antt =====
-- The generator polynomial of internal/qr/qr.go: its degree, its first coefficient and its roots.
use mathlib.Core.Path.{◌≡⟨◌⟩◌, ◌∎, ap₂}
use razdacha.Prelude.{
  ℕ, zero, suc, ◌<◌, ◌≡◌, refl, sym, ap, ◌∙◌, List, [], ◌∷◌, length, arith, eqb, Bool-cases,
  eqb_iff, inl, inr,
}
use razdacha.Qr.Byte.{Byte, zero_byte, ◌⊕◌, zero-⊕, ⊕_assoc, ⊕_self, ⊕_swap_middle}
use razdacha.Qr.Galois.{gf_mul, gf_exp}
use razdacha.Qr.Galois.Product.{one_byte, zero-gf_mul}
use razdacha.Qr.Galois.Laws.{gf_mul-⊕, gf_mul_swap}
use razdacha.Qr.ReedSolomon.{next_gen, gen_poly, tail}
use razdacha.Qr.ReedSolomon.Evaluation.{eval}

-- The product of the coefficients so far with x + a keeps step with them.
balance_step :
    (a z t s c p : Byte)
    → gf_mul t z ⊕ c ≡ gf_mul s z ⊕ gf_mul s a
    → gf_mul (gf_mul t z ⊕ (c ⊕ p)) z ⊕ gf_mul p a
      ≡ gf_mul (gf_mul s z ⊕ p) z ⊕ gf_mul (gf_mul s z ⊕ p) a
balance_step a z t s c p h =
    gf_mul (gf_mul t z ⊕ (c ⊕ p)) z ⊕ gf_mul p a
    ≡⟨ ap (λ u. gf_mul u z ⊕ gf_mul p a) (sym (⊕_assoc (gf_mul t z) c p) ∙ ap (λ u. u ⊕ p) h) ⟩
      gf_mul (gf_mul s z ⊕ gf_mul s a ⊕ p) z ⊕ gf_mul p a
    ≡⟨ ap (λ u. u ⊕ gf_mul p a) (gf_mul-⊕ (gf_mul s z ⊕ gf_mul s a) p z) ⟩
      gf_mul (gf_mul s z ⊕ gf_mul s a) z ⊕ gf_mul p z ⊕ gf_mul p a
    ≡⟨ ⊕_assoc _ _ _ ⟩ gf_mul (gf_mul s z ⊕ gf_mul s a) z ⊕ (gf_mul p z ⊕ gf_mul p a)
    ≡⟨ ap (λ u. u ⊕ (gf_mul p z ⊕ gf_mul p a)) (gf_mul-⊕ (gf_mul s z) (gf_mul s a) z) ⟩
      (gf_mul (gf_mul s z) z ⊕ gf_mul (gf_mul s a) z) ⊕ (gf_mul p z ⊕ gf_mul p a)
    ≡⟨ ap (λ u. (gf_mul (gf_mul s z) z ⊕ u) ⊕ (gf_mul p z ⊕ gf_mul p a)) (gf_mul_swap s a z) ⟩
      (gf_mul (gf_mul s z) z ⊕ gf_mul (gf_mul s z) a) ⊕ (gf_mul p z ⊕ gf_mul p a)
    ≡⟨ ⊕_swap_middle _ _ _ _ ⟩
      (gf_mul (gf_mul s z) z ⊕ gf_mul p z) ⊕ (gf_mul (gf_mul s z) a ⊕ gf_mul p a)
    ≡⟨ sym (ap₂ (λ u v. u ⊕ v) (gf_mul-⊕ (gf_mul s z) p z) (gf_mul-⊕ (gf_mul s z) p a)) ⟩
      gf_mul (gf_mul s z ⊕ p) z ⊕ gf_mul (gf_mul s z ⊕ p) a ∎

eval-next_gen :
    (a z t s c : Byte) (ps : List Byte)
    → gf_mul t z ⊕ c ≡ gf_mul s z ⊕ gf_mul s a
    → eval t z (next_gen a c ps) ≡ gf_mul (eval s z ps) z ⊕ gf_mul (eval s z ps) a
unfolding eval next_gen
eval-next_gen a z t s c [] h = h
eval-next_gen a z t s c (p ∷ ps) h =
    eval-next_gen a z (gf_mul t z ⊕ (c ⊕ p)) (gf_mul s z ⊕ p) (gf_mul p a) ps
      (balance_step a z t s c p h)

-- A round multiplies the polynomial by x + a.
pub eval-next_gen_round :
    (a z : Byte) (ps : List Byte)
    → eval zero_byte z (next_gen a zero_byte ps)
      ≡ gf_mul (eval zero_byte z ps) z ⊕ gf_mul (eval zero_byte z ps) a
eval-next_gen_round a z ps =
    eval-next_gen a z zero_byte zero_byte zero_byte ps (rw (zero-gf_mul z, zero-gf_mul a) refl)

-- The generator polynomial of degree n vanishes at the first n powers of 2.
pub eval-gen_poly : (n i : ℕ) → i < n → eval zero_byte (gf_exp i) (gen_poly n) ≡ zero_byte
unfolding gen_poly
eval-gen_poly zero i h = absurd (omega arith)
eval-gen_poly (suc n) i h =
    eval-next_gen_round (gf_exp n) (gf_exp i) (gen_poly n) ∙ elim (Bool-cases (eqb i n)) [
      | inl last ↦
          rw ((eqb_iff i n).0 last)
            (⊕_self (gf_mul (eval zero_byte (gf_exp n) (gen_poly n)) (gf_exp n)))
      | inr earlier ↦
          rw (eval-gen_poly n i (ground arith), zero-gf_mul (gf_exp i), zero-gf_mul (gf_exp n))
            (⊕_self zero_byte)
    ]

length-next_gen : (a c : Byte) (ps : List Byte) → length (next_gen a c ps) ≡ suc (length ps)
unfolding next_gen
length-next_gen a c [] = refl
length-next_gen a c (p ∷ ps) = ap suc (length-next_gen a (gf_mul p a) ps)

pub length-gen_poly : (n : ℕ) → length (gen_poly n) ≡ suc n
unfolding gen_poly
length-gen_poly zero = refl
length-gen_poly (suc n) =
    length-next_gen (gf_exp n) zero_byte (gen_poly n) ∙ ap suc (length-gen_poly n)

next_gen-tail :
    (a c : Byte) (ps rest : List Byte)
    → ps ≡ one_byte ∷ rest
    → next_gen a zero_byte ps ≡ one_byte ∷ tail (next_gen a zero_byte ps)
unfolding next_gen tail
next_gen-tail a c ps rest e = rw e (rw (zero-⊕ one_byte) refl)

-- The first coefficient is 1.
pub gen_poly-tail : (n : ℕ) → gen_poly n ≡ one_byte ∷ tail (gen_poly n)
unfolding gen_poly tail
gen_poly-tail zero = refl
gen_poly-tail (suc n) =
    next_gen-tail (gf_exp n) zero_byte (gen_poly n) (tail (gen_poly n)) (gen_poly-tail n)

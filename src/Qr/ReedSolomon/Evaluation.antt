-- ===== src/Qr/ReedSolomon/Evaluation.antt =====
-- The value of a polynomial at a byte, by Horner's rule.
use mathlib.Core.Path.{◌≡⟨◌⟩◌, ◌∎}
use razdacha.Prelude.{◌≡◌, refl, sym, ap, List, [], ◌∷◌, ◌++◌, length}
use razdacha.Qr.Byte.{Byte, zero_byte, ◌⊕◌, ⊕-zero, ⊕_assoc}
use razdacha.Qr.Galois.{gf_mul}
use razdacha.Qr.Galois.Laws.{gf_mul-⊕}
use razdacha.Qr.ReedSolomon.{zeros}

-- Continues the evaluation at z from the value `acc` of the coefficients before.
unfoldable pub eval : Byte → Byte → List Byte → Byte
eval acc z [] = acc
eval acc z (c ∷ cs) = eval (gf_mul acc z ⊕ c) z cs

pub eval-append :
    (acc z : Byte) (xs ys : List Byte) → eval acc z (xs ++ ys) ≡ eval (eval acc z xs) z ys
unfolding eval
eval-append acc z [] ys = refl
eval-append acc z (x ∷ xs) ys = eval-append (gf_mul acc z ⊕ x) z xs ys

-- The start value passes through as if all the coefficients were 0.
pub eval_from :
    (a b z : Byte) (cs : List Byte) → eval (a ⊕ b) z cs ≡ eval a z (zeros (length cs)) ⊕ eval b z cs
unfolding eval zeros
eval_from a b z [] = refl
eval_from a b z (c ∷ cs) =
    eval (gf_mul (a ⊕ b) z ⊕ c) z cs
    ≡⟨ ap (λ t. eval (t ⊕ c) z cs) (gf_mul-⊕ a b z) ⟩ eval (gf_mul a z ⊕ gf_mul b z ⊕ c) z cs
    ≡⟨ ap (λ t. eval t z cs) (⊕_assoc (gf_mul a z) (gf_mul b z) c) ⟩
      eval (gf_mul a z ⊕ (gf_mul b z ⊕ c)) z cs
    ≡⟨ eval_from (gf_mul a z) (gf_mul b z ⊕ c) z cs ⟩
      eval (gf_mul a z) z (zeros (length cs)) ⊕ eval (gf_mul b z ⊕ c) z cs
    ≡⟨ ap (λ t. eval t z (zeros (length cs)) ⊕ eval (gf_mul b z ⊕ c) z cs)
        (sym (⊕-zero (gf_mul a z))) ⟩
      eval (gf_mul a z ⊕ zero_byte) z (zeros (length cs)) ⊕ eval (gf_mul b z ⊕ c) z cs ∎

-- ===== src/Qr/Stream/Bits.antt =====
-- Bytes as bits and back, for the stream of internal/qr/qr.go.
use native.Mathlib.Nat.{div-div-eq-div-mul, pow-suc, div-le_self, div-eq_of_lt}
use mathlib.Core.List.{append_assoc}
use razdacha.Prelude.{
  ℕ, zero, suc, ◌+◌, ◌*◌, ◌/◌, ◌%◌, ◌^◌, ◌<◌, ◌≡◌, refl, sym, ap, ◌∙◌, List, [], ◌∷◌, ◌++◌, length,
  length-append, arith,
}
use razdacha.Qr.Byte.{Byte, Byte-ext, to_byte}
use razdacha.Qr.Stream.{push, push_all, read_word, drop, pack}

pub length-push : (v n : ℕ) → length (push v n) ≡ n
unfolding push
length-push v zero = refl
length-push v (suc n) = ap suc (length-push v n)

pub length-push_all : (xs : List Byte) → length (push_all xs) ≡ length xs * 8
unfolding push_all
length-push_all [] = refl
length-push_all (x ∷ xs) =
    omega (
      arith,
      length-append (push x.value 8) (push_all xs),
      length-push x.value 8,
      length-push_all xs,
    )

pub push_all-append : (xs ys : List Byte) → push_all (xs ++ ys) ≡ push_all xs ++ push_all ys
unfolding push_all
push_all-append [] ys = refl
push_all-append (x ∷ xs) ys =
    rw (push_all-append xs ys) (sym (append_assoc (push x.value 8) (push_all xs) (push_all ys)))

pub to_byte-value : (b : Byte) → to_byte b.value ≡ b
unfolding to_byte
to_byte-value b = Byte-ext _ _ (omega (arith, b.bound))

-- A part of a value read one bit further.
next_bit : (v n : ℕ) → v / 2 ^ suc n * 2 + (v / 2 ^ n) % 2 ≡ v / 2 ^ n
next_bit v n = omega (arith, div-div-eq-div-mul v (2 ^ n) 2, ap (λ t. v / t) (pow-suc 2 n))

read_word-push_part :
    (v n : ℕ) (rest : List ℕ) → v < 256 → read_word n (v / 2 ^ n) (push v n ++ rest) ≡ to_byte v
unfolding read_word push
read_word-push_part v zero rest h = ap to_byte (omega arith)
read_word-push_part v (suc n) rest h =
    let small : (v / 2 ^ suc n * 2 + (v / 2 ^ n) % 2) % 256 ≡ v / 2 ^ n =
      omega (arith, next_bit v n, div-le_self v (2 ^ n)) in
    ap (λ t. read_word n t (push v n ++ rest)) small ∙ read_word-push_part v n rest h

pub read_word-push : (b : Byte) (rest : List ℕ) → read_word 8 0 (push b.value 8 ++ rest) ≡ b
read_word-push b rest =
    let e : b.value / 2 ^ 8 ≡ 0 = omega (arith, b.bound) in
    ap (λ t. read_word 8 t (push b.value 8 ++ rest)) (sym e)
    ∙ read_word-push_part b.value 8 rest b.bound
    ∙ to_byte-value b

pub drop-append {ℓ} : {A : Type ℓ} (n : ℕ) (xs ys : List A) → length xs ≡ n → drop n (xs ++ ys) ≡ ys
unfolding drop
drop-append zero [] ys h = refl
drop-append zero (x ∷ xs) ys h = absurd (omega arith)
drop-append (suc n) [] ys h = absurd (omega arith)
drop-append (suc n) (x ∷ xs) ys h = drop-append n xs ys (omega arith)

-- The code words of the bits of a list of bytes are those bytes.
pub pack-push_all : (xs : List Byte) (rest : List ℕ) → pack (length xs) (push_all xs ++ rest) ≡ xs
unfolding pack push_all
pack-push_all [] rest = refl
pack-push_all (x ∷ xs) rest =
    let bits : List ℕ = push x.value 8 in
    let e : (bits ++ push_all xs) ++ rest ≡ bits ++ (push_all xs ++ rest) =
      append_assoc bits (push_all xs) rest in
    rw e (
      rw
        (
          read_word-push x (push_all xs ++ rest),
          drop-append 8 bits (push_all xs ++ rest) (length-push x.value 8),
        )
        (ap (λ t. x ∷ t) (pack-push_all xs rest)))

-- The value of the next n bits.
unfoldable pub read_bits : ℕ → ℕ → List ℕ → ℕ
read_bits zero v bits = v
read_bits (suc n) v [] = v
read_bits (suc n) v (b ∷ bits) = read_bits n (v * 2 + b) bits

read_bits-push_part : (v n : ℕ) (rest : List ℕ) → read_bits n (v / 2 ^ n) (push v n ++ rest) ≡ v
unfolding read_bits push
read_bits-push_part v zero rest = omega arith
read_bits-push_part v (suc n) rest =
    ap (λ t. read_bits n t (push v n ++ rest)) (next_bit v n) ∙ read_bits-push_part v n rest

pub read_bits-push : (v n : ℕ) (rest : List ℕ) → v < 2 ^ n → read_bits n 0 (push v n ++ rest) ≡ v
read_bits-push v n rest h =
    ap (λ t. read_bits n t (push v n ++ rest)) (sym (div-eq_of_lt h)) ∙ read_bits-push_part v n rest

-- Every item is 0 or 1.
abbrev pub AreBits : List ℕ → Type 0
AreBits [] = Unit
AreBits (b ∷ bits) = (b < 2) × AreBits bits

pub append-AreBits : (xs ys : List ℕ) → AreBits xs → AreBits ys → AreBits (xs ++ ys)
append-AreBits [] ys p q = q
append-AreBits (x ∷ xs) ys p q = (p.0, append-AreBits xs ys p.1 q)

pub push-AreBits : (v n : ℕ) → AreBits (push v n)
unfolding push
push-AreBits v zero = tt
push-AreBits v (suc n) = (omega arith, push-AreBits v n)

pub push_all-AreBits : (xs : List Byte) → AreBits (push_all xs)
unfolding push_all
push_all-AreBits [] = tt
push_all-AreBits (x ∷ xs) =
    append-AreBits (push x.value 8) (push_all xs) (push-AreBits x.value 8) (push_all-AreBits xs)

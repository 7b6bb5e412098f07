-- ===== src/Qr/Stream/Padding.antt =====
-- The terminator, the padding and the code words of internal/qr/qr.go keep the message in front.
use mathlib.Core.List.{append_assoc, append-nil}
use razdacha.Prelude.{
  ℕ, zero, suc, ◌+◌, ◌-◌, ◌*◌, ◌/◌, ◌%◌, ◌≤◌, ◌≡◌, refl, sym, ap, ap₂, ◌∙◌, List, [], ◌∷◌, ◌++◌,
  length, length-append, arith, ltb, eqb, true, Bool-cases, inl, inr,
}
use razdacha.Qr.Byte.{Byte, to_byte}
use razdacha.Qr.Version.{data_codewords, count_bits, fits}
use razdacha.Qr.Stream.{
  push, push_all, read_word, drop, pack, terminate, fill_byte, pad_words, message, padded_message,
  code_words,
}
use razdacha.Qr.Stream.Bits.{
  AreBits, append-AreBits, push-AreBits, push_all-AreBits, push_all-append, length-push,
  length-push_all,
}

-- `out` begins with `bits`, and all its items are bits if theirs are.
pub record Extends (bits out : List ℕ) : Type 0 where
  pub rest : List ℕ
  pub split : out ≡ bits ++ rest
  pub tail_bits : AreBits rest

Extends-self : (bits : List ℕ) → Extends bits bits
Extends-self bits = record { rest = []; split = sym (append-nil bits); tail_bits = tt }

Extends-zero : (bits out : List ℕ) → Extends (bits ++ 0 ∷ []) out → Extends bits out
Extends-zero bits out e = record {
  rest = 0 ∷ e.rest;
  split = e.split ∙ append_assoc bits (0 ∷ []) e.rest;
  tail_bits = (omega arith, e.tail_bits);
}

Extends-trans : (a b c : List ℕ) → Extends a b → Extends b c → Extends a c
Extends-trans a b c e f = record {
  rest = e.rest ++ f.rest;
  split = f.split ∙ ap (λ t. t ++ f.rest) e.split ∙ append_assoc a e.rest f.rest;
  tail_bits = append-AreBits e.rest f.rest e.tail_bits f.tail_bits;
}

one_more : (bits : List ℕ) → length (bits ++ 0 ∷ []) ≡ suc (length bits)
one_more bits = omega (arith, length-append bits (0 ∷ []))

terminate-Extends : (r limit : ℕ) (bits : List ℕ) → Extends bits (terminate r limit bits)
unfolding terminate
terminate-Extends zero limit bits = Extends-self bits
terminate-Extends (suc r) limit bits = elim (Bool-cases (ltb (length bits) limit)) [
  | inl below ↦ rw below (Extends-zero bits _ (terminate-Extends r limit (bits ++ 0 ∷ [])))
  | inr full ↦ rw full (terminate-Extends r limit bits)
]

length-terminate :
    (r limit : ℕ) (bits : List ℕ) → length bits ≤ limit → length (terminate r limit bits) ≤ limit
unfolding terminate
length-terminate zero limit bits h = h
length-terminate (suc r) limit bits h = elim (Bool-cases (ltb (length bits) limit)) [
  | inl below ↦ rw below (length-terminate r limit (bits ++ 0 ∷ []) (ground (arith, one_more bits)))
  | inr full ↦ rw full (length-terminate r limit bits h)
]

fill_byte-Extends : (r : ℕ) (bits : List ℕ) → Extends bits (fill_byte r bits)
unfolding fill_byte
fill_byte-Extends zero bits = Extends-self bits
fill_byte-Extends (suc r) bits = elim (Bool-cases (eqb (length bits % 8) 0)) [
  | inl whole ↦ rw whole (fill_byte-Extends r bits)
  | inr part ↦ rw part (Extends-zero bits _ (fill_byte-Extends r (bits ++ 0 ∷ [])))
]

-- Seven rounds are enough, and stay within a limit of whole bytes.
length-fill_byte :
    (r words : ℕ) (bits : List ℕ)
    → (8 - length bits % 8) % 8 ≤ r
    → length bits ≤ words * 8
    → (length (fill_byte r bits) % 8 ≡ 0) × (length (fill_byte r bits) ≤ words * 8)
unfolding fill_byte
length-fill_byte zero words bits h k = (omega arith, k)
length-fill_byte (suc r) words bits h k = elim (Bool-cases (eqb (length bits % 8) 0)) [
  | inl whole ↦ rw whole (length-fill_byte r words bits (ground arith) k)
  | inr part ↦ rw part (
      length-fill_byte r words (bits ++ 0 ∷ []) (ground (arith, one_more bits))
        (ground (arith, one_more bits)))
]

-- Eight bits are those of the code word that they give.
push-read_word :
    (a b c d e f g h : ℕ) (rest : List ℕ)
    → AreBits (a ∷ b ∷ c ∷ d ∷ e ∷ f ∷ g ∷ h ∷ [])
    → push (read_word 8 0 (a ∷ b ∷ c ∷ d ∷ e ∷ f ∷ g ∷ h ∷ rest)).value 8
      ≡ a ∷ b ∷ c ∷ d ∷ e ∷ f ∷ g ∷ h ∷ []
unfolding push read_word to_byte
push-read_word a b c d e f g h rest p = ground arith

push_all-pack :
    (n : ℕ) (bits : List ℕ) → AreBits bits → length bits ≡ n * 8 → push_all (pack n bits) ≡ bits
unfolding push_all pack drop
push_all-pack zero [] p h = refl
push_all-pack zero (b ∷ bits) p h = absurd (omega arith)
push_all-pack (suc n) (a ∷ b ∷ c ∷ d ∷ e ∷ f ∷ g ∷ i ∷ rest)
      (pa, (pb, (pc, (pd, (pe, (pf, (pg, (pi, q)))))))) h =
    ap₂ (λ s t. s ++ t)
      (push-read_word a b c d e f g i rest (pa, (pb, (pc, (pd, (pe, (pf, (pg, (pi, tt)))))))))
      (push_all-pack n rest q (omega arith))
push_all-pack (suc n) _ p h = absurd (omega arith)

length-pack : (n : ℕ) (bits : List ℕ) → length (pack n bits) ≡ n
unfolding pack
length-pack zero bits = refl
length-pack (suc n) bits = ap suc (length-pack n (drop 8 bits))

length-pad_words : (n i : ℕ) → length (pad_words n i) ≡ n
unfolding pad_words
length-pad_words zero i = refl
length-pad_words (suc n) i = ap suc (length-pad_words n (i + 1))

pub length-message :
    (text : List Byte) (v : ℕ) → length (message text v) ≡ 4 + count_bits v + 8 * length text
unfolding message
length-message text v = omega (
  arith,
  length-append (push 4 4) (push (length text) (count_bits v) ++ push_all text),
  length-append (push (length text) (count_bits v)) (push_all text),
  length-push 4 4,
  length-push (length text) (count_bits v),
  length-push_all text,
)

message-AreBits : (text : List Byte) (v : ℕ) → AreBits (message text v)
unfolding message
message-AreBits text v = append-AreBits (push 4 4) _ (push-AreBits 4 4) (
    append-AreBits (push (length text) (count_bits v)) (push_all text)
      (push-AreBits (length text) (count_bits v)) (push_all-AreBits text))

padded_message-Extends :
    (text : List Byte) (v : ℕ) → Extends (message text v) (padded_message text v)
unfolding padded_message
padded_message-Extends text v =
    let t : List ℕ = terminate 4 (data_codewords v * 8) (message text v) in
    Extends-trans _ t _ (terminate-Extends 4 (data_codewords v * 8) (message text v))
      (fill_byte-Extends 7 t)

padded_message-AreBits : (text : List Byte) (v : ℕ) → AreBits (padded_message text v)
padded_message-AreBits text v =
    let e : Extends (message text v) (padded_message text v) = padded_message-Extends text v in
    rw (e.split) (append-AreBits (message text v) e.rest (message-AreBits text v) e.tail_bits)

-- A text that fits its version.
module _ (text : List Byte) (v : ℕ) (f : fits (length text) v ≡ true) where
  length-padded_message :
      (length (padded_message text v) % 8 ≡ 0)
      × (length (padded_message text v) ≤ data_codewords v * 8)
  unfolding padded_message fits
  length-padded_message =
      let room : length (message text v) ≤ data_codewords v * 8 =
        ground (arith, length-message text v) in
      length-fill_byte 7 (data_codewords v) _ (omega arith)
        (length-terminate 4 (data_codewords v * 8) (message text v) room)

  -- The data code words fill the version exactly.
  pub length-code_words : length (code_words text v) ≡ data_codewords v
  unfolding code_words
  length-code_words =
      let bits : List ℕ = padded_message text v in
      let words : List Byte = pack (length bits / 8) bits in
      omega (
        arith,
        length-append words (pad_words (data_codewords v - length words) 0),
        length-pack (length bits / 8) bits,
        length-pad_words (data_codewords v - length words) 0,
        length-padded_message,
      )

  -- Their bits begin with the message.
  pub code_words-Extends : Extends (message text v) (push_all (code_words text v))
  unfolding code_words
  code_words-Extends =
      let bits : List ℕ = padded_message text v in
      let words : List Byte = pack (length bits / 8) bits in
      let pads : List Byte = pad_words (data_codewords v - length words) 0 in
      let back : push_all words ≡ bits =
        push_all-pack (length bits / 8) bits (padded_message-AreBits text v)
          (omega (arith, length-padded_message)) in
      let out : Extends bits (push_all (words ++ pads)) = record {
        rest = push_all pads;
        split = push_all-append words pads ∙ ap (λ t. t ++ push_all pads) back;
        tail_bits = push_all-AreBits pads;
      } in
      Extends-trans _ bits _ (padded_message-Extends text v) out

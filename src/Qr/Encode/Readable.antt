-- ===== src/Qr/Encode/Readable.antt =====
-- From the matrix of Encode in internal/qr/qr.go back to the text.
use razdacha.Prelude.{
  ℕ, zero, suc, ◌+◌, ◌-◌, ◌*◌, ◌≤◌, ◌<◌, ◌≡◌, refl, ap, ◌∙◌, arith, List, [], ◌∷◌, ◌++◌, length,
  some,
}
use razdacha.Qr.Byte.{Byte}
use razdacha.Qr.Version.{entry, total, pick_version}
use razdacha.Qr.Version.Fields.{pick_version-fits}
use razdacha.Qr.Stream.{bit_stream, interleaved}
use razdacha.Qr.Stream.Bits.{AreBits, push_all-AreBits}
use razdacha.Qr.Stream.Reader.{read_text, length-bit_stream, read_text-bit_stream}
use razdacha.Qr.Skeleton.{skeleton}
use razdacha.Qr.Place.{next_bit, advance, places, place}
use razdacha.Qr.Place.ReadBack.{read_modules, count_free, fit}
use razdacha.Qr.Place.FormatField.{read_modules-place}
use razdacha.Qr.Encode.{encode, encode-least}

fit-begins :
    (n : ℕ) (stream : List ℕ)
    → length stream ≤ n
    → (rest : List ℕ) × (fit n stream ≡ stream ++ rest)
unfolding fit next_bit advance
fit-begins n [] h = (fit n [], refl)
fit-begins zero (b ∷ stream) h = absurd (omega arith)
fit-begins (suc n) (b ∷ stream) h =
    let (rest, e) = fit-begins n stream (omega arith) in (rest, ap (λ t. b ∷ t) e)

bit_stream-AreBits : (text : List Byte) (v : ℕ) → AreBits (bit_stream text v)
unfolding bit_stream
bit_stream-AreBits text v = push_all-AreBits (interleaved text v)

read_fit :
    (text : List Byte) (v n : ℕ)
    → pick_version (length text) ≡ some v
    → entry total (v - 1) * 8 ≤ n
    → read_text v (fit n (bit_stream text v)) ≡ some text
read_fit text v n e room =
    let (rest, split) =
      fit-begins n (bit_stream text v) (omega (arith, length-bit_stream text v e)) in
    ap (read_text v) split ∙ read_text-bit_stream text v rest e

-- A text of which pickVersion gives a version, whose skeleton leaves eight modules free for each code
-- word, is encoded under one of the eight masks, and the free modules of the matrix, read along the
-- zigzag with that mask taken off, give the text.
pub encode-read_text :
    (text : List Byte) (v : ℕ)
    → pick_version (length text) ≡ some v
    → entry total (v - 1) * 8 ≤ count_free (skeleton v).functional (places (v * 4 + 17))
    → (mask : ℕ) × (mask < 8)
      × (encode text ≡ some (place v (bit_stream text v) mask))
      × (read_text v (
            read_modules
              (skeleton v).functional
              mask
              (places (v * 4 + 17))
              (place v (bit_stream text v) mask).dark)
          ≡ some text)
encode-read_text text v e room =
    let (low, high, f) = pick_version-fits (length text) v e in
    let (mask, known, made, least) = encode-least text v 0 e (omega arith) in
    (
      mask,
      known,
      made,
      ap (read_text v)
            (read_modules-place v (bit_stream text v) mask low (bit_stream-AreBits text v))
          ∙ read_fit text v (count_free (skeleton v).functional (places (v * 4 + 17))) e room,
    )

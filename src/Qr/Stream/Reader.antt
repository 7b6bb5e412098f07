-- ===== src/Qr/Stream/Reader.antt =====
-- A reader of the streams of internal/qr/qr.go, and that it gives the text back.
use mathlib.Core.List.{append_assoc}
use razdacha.Prelude.{
  ℕ, suc, ◌+◌, ◌-◌, ◌*◌, ◌/◌, ◌%◌, ◌^◌, ◌≤◌, ◌<◌, ◌≡◌, refl, sym, ap, ap₂, ◌∙◌, List, ◌++◌, map,
  length, length-append, length-map, arith, eqb, true, Option, none, some, if◌then◌else◌,
}
use razdacha.Qr.Byte.{Byte}
use razdacha.Qr.Version.{
  entry, total, ecc_per_block, blocks, data_codewords, count_bits, fits, pick_version,
}
use razdacha.Qr.Version.Fields.{consistent_lem, pick_version-fits}
use razdacha.Qr.ReedSolomon.{rs_remainder}
use razdacha.Qr.Stream.{
  push, push_all, drop, pack, message, code_words, columns, version_blocks, interleaved, bit_stream,
}
use razdacha.Qr.Stream.Bits.{
  read_bits, read_bits-push, drop-append, length-push, length-push_all, pack-push_all,
}
use razdacha.Qr.Stream.Padding.{Extends, code_words-Extends, length-code_words}
use razdacha.Qr.Stream.Blocks.{
  join, sum, block_lengths, join-data_blocks, length-data_blocks, sum-block_lengths, Within,
  block_lengths-Within, length-block_lengths, correction-Within, sum-correction,
}
use razdacha.Qr.Stream.Gather.{gather, gather-columns, length-columns}

-- The block lengths of a version.
unfoldable pub version_lengths : ℕ → List ℕ
version_lengths version =
    let n = entry blocks (version - 1) in
    let words = data_codewords version in block_lengths n 0 (n - words % n) (words / n)

-- The data code words of a stream.
unfoldable pub read_words : ℕ → List ℕ → List Byte
read_words version stream = join (
    gather (data_codewords version / entry blocks (version - 1) + 1) (version_lengths version)
      (pack (entry total (version - 1)) stream))

-- The text in a message of byte mode: `none` if the mode is another.
unfoldable pub read_message : ℕ → List ℕ → Option (List Byte)
read_message version bits =
    if eqb (read_bits 4 0 bits) 4
    then some (
        pack (read_bits (count_bits version) 0 (drop 4 bits))
          (drop (count_bits version) (drop 4 bits)))
    else none

unfoldable pub read_text : ℕ → List ℕ → Option (List Byte)
read_text version stream = read_message version (push_all (read_words version stream))

read_message-message :
    (text : List Byte) (v : ℕ) (rest : List ℕ)
    → length text < 2 ^ count_bits v
    → read_message v (message text v ++ rest) ≡ some text
unfolding read_message message
read_message-message text v rest h =
    let count : List ℕ = push (length text) (count_bits v) in
    let body : List ℕ = push_all text in
    let split : (push 4 4 ++ (count ++ body)) ++ rest ≡ push 4 4 ++ (count ++ (body ++ rest)) =
      append_assoc (push 4 4) (count ++ body) rest
      ∙ ap (λ t. push 4 4 ++ t) (append_assoc count body rest) in
    rw split (
      rw
        (
          read_bits-push 4 4 (count ++ (body ++ rest)) (omega arith),
          drop-append 4 (push 4 4) (count ++ (body ++ rest)) (length-push 4 4),
          read_bits-push (length text) (count_bits v) (body ++ rest) h,
          drop-append (count_bits v) count (body ++ rest)
              (length-push (length text) (count_bits v)),
          pack-push_all text rest,
        )
        refl)

-- A text that fits a version from 1 to 40.
module _ (text : List Byte) (v : ℕ) (low : 1 ≤ v) (high : v ≤ 40)
    (f : fits (length text) v ≡ true) where
  fields :
      (0 < entry blocks (v - 1))
      × (data_codewords v + entry blocks (v - 1) * entry ecc_per_block (v - 1)
          ≡ entry total (v - 1))
      × (data_codewords v ≤ 2 ^ count_bits v)
  fields = let e : suc (v - 1) ≡ v = omega arith in rw e at (consistent_lem (v - 1) (omega arith))

  count_fits : length text < 2 ^ count_bits v
  unfolding fits
  count_fits = ground (arith, fields.2)

  filled : length (code_words text v) ≡ sum (version_lengths v)
  unfolding version_lengths
  filled =
      length-code_words text v f
      ∙ sym (sum-block_lengths (entry blocks (v - 1)) (data_codewords v) fields.0)

  length-version_blocks : map length (version_blocks text v) ≡ version_lengths v
  unfolding version_blocks version_lengths
  length-version_blocks = length-data_blocks _ _ _ _ (code_words text v) filled

  join-version_blocks : join (version_blocks text v) ≡ code_words text v
  unfolding version_blocks version_lengths
  join-version_blocks = join-data_blocks _ _ _ _ (code_words text v) filled

  blocks-Within :
      Within (data_codewords v / entry blocks (v - 1) + 1) (map length (version_blocks text v))
  unfolding version_lengths
  blocks-Within = rw length-version_blocks (block_lengths-Within _ _ _ _)

  block_count : length (version_blocks text v) ≡ entry blocks (v - 1)
  unfolding version_lengths
  block_count =
      sym (length-map length (version_blocks text v))
      ∙ ap length length-version_blocks
      ∙ length-block_lengths (entry blocks (v - 1)) 0
          (entry blocks (v - 1) - data_codewords v % entry blocks (v - 1))
          (data_codewords v / entry blocks (v - 1))

  length-interleaved : length (interleaved text v) ≡ entry total (v - 1)
  unfolding interleaved
  length-interleaved =
      let ds : List (List Byte) = version_blocks text v in
      let ec_len : ℕ = entry ecc_per_block (v - 1) in
      let es : List (List Byte) = map (λ d. rs_remainder d ec_len) ds in
      let rounds : ℕ = data_codewords v / entry blocks (v - 1) + 1 in
      omega (
        arith,
        length-append (columns rounds 0 ds) (columns ec_len 0 es),
        length-columns rounds ds blocks-Within,
        length-columns ec_len es (correction-Within ec_len ds),
        ap sum length-version_blocks ∙ sym filled ∙ length-code_words text v f,
        sum-correction ec_len ds ∙ ap (λ t. t * ec_len) block_count,
        fields.1,
      )

  gathered :
      gather
        (data_codewords v / entry blocks (v - 1) + 1)
        (map length (version_blocks text v))
        (interleaved text v)
      ≡ version_blocks text v
  unfolding interleaved
  gathered = gather-columns _ (version_blocks text v) _ blocks-Within

  read_words-bit_stream :
      (rest : List ℕ) → read_words v (bit_stream text v ++ rest) ≡ code_words text v
  unfolding read_words bit_stream
  read_words-bit_stream rest =
      let out : List Byte = interleaved text v in
      let unpacked : pack (entry total (v - 1)) (push_all out ++ rest) ≡ out =
        ap (λ t. pack t (push_all out ++ rest)) (sym length-interleaved) ∙ pack-push_all out rest in
      ap₂ (λ s t. join (gather (data_codewords v / entry blocks (v - 1) + 1) s t))
        (sym length-version_blocks) unpacked
      ∙ ap join gathered
      ∙ join-version_blocks

  read_text-fits : (rest : List ℕ) → read_text v (bit_stream text v ++ rest) ≡ some text
  unfolding read_text
  read_text-fits rest =
      let e : Extends (message text v) (push_all (code_words text v)) =
        code_words-Extends text v f in
      ap (λ t. read_message v (push_all t)) (read_words-bit_stream rest)
      ∙ ap (read_message v) e.split
      ∙ read_message-message text v e.rest count_fits

  length-bit_stream_fits : length (bit_stream text v) ≡ entry total (v - 1) * 8
  unfolding bit_stream
  length-bit_stream_fits = length-push_all (interleaved text v) ∙ ap (λ t. t * 8) length-interleaved

-- The stream of a text in the version that pickVersion gives has as many bits as the version has
-- room for: eight for each of its code words.
pub length-bit_stream :
    (text : List Byte) (v : ℕ)
    → pick_version (length text) ≡ some v
    → length (bit_stream text v) ≡ entry total (v - 1) * 8
length-bit_stream text v e =
    let (low, high, f) = pick_version-fits (length text) v e in
    length-bit_stream_fits text v low high f

-- Read back by the tables of the version that pickVersion gives (words from bits, blocks from
-- columns, the header's count), the stream of a text gives that text, whatever bits follow it.
pub read_text-bit_stream :
    (text : List Byte) (v : ℕ) (rest : List ℕ)
    → pick_version (length text) ≡ some v
    → read_text v (bit_stream text v ++ rest) ≡ some text
read_text-bit_stream text v rest e =
    let (low, high, f) = pick_version-fits (length text) v e in
    read_text-fits text v low high f rest

-- ===== src/Qr/Stream.antt =====
-- bitStream of internal/qr/qr.go: header, text, padding, error correction, interleaved blocks. A bit
-- is 0 or 1, as in the source.
pub mod Bits
pub mod Padding
pub mod Blocks
pub mod Gather
pub mod Reader
use razdacha.Prelude.{
  ℕ, zero, suc, ◌+◌, ◌-◌, ◌*◌, ◌/◌, ◌%◌, ◌^◌, List, [], ◌∷◌, ◌++◌, map, length, Option, none, some,
  get_elem?, ltb, leb, eqb, if◌then◌else◌,
}
use razdacha.Qr.Byte.{Byte, to_byte}
use razdacha.Qr.ReedSolomon.{rs_remainder}
use razdacha.Qr.Version.{entry, total, ecc_per_block, blocks, data_codewords, count_bits}

-- What `push` appends: the bits of the value from place length - 1 down.
unfoldable pub push : ℕ → ℕ → List ℕ
push value zero = []
push value (suc i) = (value / 2 ^ i) % 2 ∷ push value i

unfoldable pub push_all : List Byte → List ℕ
push_all [] = []
push_all (b ∷ text) = push b.value 8 ++ push_all text

-- The terminator: at most so many zeros, and not past the limit.
unfoldable pub terminate : ℕ → ℕ → List ℕ → List ℕ
terminate zero limit bits = bits
terminate (suc rounds) limit bits =
    terminate rounds limit (if ltb (length bits) limit then bits ++ 0 ∷ [] else bits)

-- Zeros up to a whole byte, of which at most seven are missing.
unfoldable pub fill_byte : ℕ → List ℕ → List ℕ
fill_byte zero bits = bits
fill_byte (suc rounds) bits =
    fill_byte rounds (if eqb (length bits % 8) 0 then bits else bits ++ 0 ∷ [])

-- `for j := 0; j < 8; j++ { v = v<<1 | bits[i+j] }`, in a byte.
unfoldable pub read_word : ℕ → ℕ → List ℕ → Byte
read_word zero v bits = to_byte v
read_word (suc rounds) v [] = to_byte v
read_word (suc rounds) v (b ∷ bits) = read_word rounds ((v * 2 + b) % 256) bits

unfoldable pub drop {ℓ} : {A : Type ℓ} → ℕ → List A → List A
drop zero xs = xs
drop (suc n) [] = []
drop (suc n) (x ∷ xs) = drop n xs

unfoldable pub take {ℓ} : {A : Type ℓ} → ℕ → List A → List A
take zero xs = []
take (suc n) [] = []
take (suc n) (x ∷ xs) = x ∷ take n xs

-- So many code words from the bits.
unfoldable pub pack : ℕ → List ℕ → List Byte
pack zero bits = []
pack (suc words) bits = read_word 8 0 bits ∷ pack words (drop 8 bits)

-- `pad[i%2]` for so many rounds from i on.
unfoldable pub pad_words : ℕ → ℕ → List Byte
pad_words zero i = []
pad_words (suc rounds) i =
    (if eqb (i % 2) 0 then to_byte 0xec else to_byte 0x11) ∷ pad_words rounds (i + 1)

-- `bits` before the terminator.
unfoldable pub message : List Byte → ℕ → List ℕ
message text version = push 4 4 ++ (push (length text) (count_bits version) ++ push_all text)

-- `bits` after the padding with zeros.
unfoldable pub padded_message : List Byte → ℕ → List ℕ
padded_message text version =
    fill_byte 7 (terminate 4 (data_codewords version * 8) (message text version))

-- `cw`.
unfoldable pub code_words : List Byte → ℕ → List Byte
code_words text version =
    let bits = padded_message text version in
    let words = pack (length bits / 8) bits in
    words ++ pad_words (data_codewords version - length words) 0

-- The data blocks from number i on: from `first_long` on they are one longer.
unfoldable pub data_blocks : ℕ → ℕ → ℕ → ℕ → List Byte → List (List Byte)
data_blocks zero i first_long short_len cw = []
data_blocks (suc rounds) i first_long short_len cw =
    let len = if leb first_long i then short_len + 1 else short_len in
    take len cw ∷ data_blocks rounds (i + 1) first_long short_len (drop len cw)

-- `for _, d := range dataBlocks { if i < len(d) { out = append(out, d[i]) } }`.
unfoldable pub column : ℕ → List (List Byte) → List Byte
column i [] = []
column i (d ∷ ds) = elim (get_elem? d i) [ some b ↦ b ∷ column i ds | none ↦ column i ds ]

unfoldable pub columns : ℕ → ℕ → List (List Byte) → List Byte
columns zero i ds = []
columns (suc rounds) i ds = column i ds ++ columns rounds (suc i) ds

-- The blocks of a version, and the error correction of each.
unfoldable pub version_blocks : List Byte → ℕ → List (List Byte)
version_blocks text version =
    let n = entry blocks (version - 1) in
    let words = data_codewords version in
    data_blocks n 0 (n - words % n) (words / n) (code_words text version)

-- `out`: an error block has ecLen words, so `column` takes e[i] of each.
unfoldable pub interleaved : List Byte → ℕ → List Byte
interleaved text version =
    let ds = version_blocks text version in
    let ec_len = entry ecc_per_block (version - 1) in
    columns (data_codewords version / entry blocks (version - 1) + 1) 0 ds
    ++ columns ec_len 0 (map (λ d. rs_remainder d ec_len) ds)

unfoldable pub bit_stream : List Byte → ℕ → List ℕ
bit_stream text version = push_all (interleaved text version)

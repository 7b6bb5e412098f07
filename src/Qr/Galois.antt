-- ===== src/Qr/Galois.antt =====
-- The tables gfExp and gfLog of internal/qr/qr.go, and gfMul.
pub mod Double
pub mod Product
pub mod Laws
use razdacha.Prelude.{
  ℕ, zero, suc, ◌+◌, ◌-◌, ◌*◌, ◌≤◌, ◌<◌, ◌≡◌, refl, arith, bit_xor, bit_and, Bool, ◌||◌, ltb, eqb,
  if◌then◌else◌,
}
use razdacha.Qr.Byte.{Byte, to_byte, zero_byte}

-- `x <<= 1`, and the reduction by 0x11d.
unfoldable pub double : ℕ → ℕ
double x = if eqb (bit_and (x * 2) 0x100) 0 then x * 2 else bit_xor (x * 2) 0x11d

-- The variable x of the first loop after so many rounds.
unfoldable pub power_of : ℕ → ℕ
power_of zero = 1
power_of (suc i) = double (power_of i)

-- `gfExp`: 255 powers, and then each entry is that 255 places before.
unfoldable pub gf_exp : ℕ → Byte
gf_exp i =
    if ltb i 255
    then to_byte (power_of i)
    else if ltb i 510
    then to_byte (power_of (i - 255))
    else to_byte (power_of (i - 510))

-- The entry at `target` of the table `gfLog`, through the rounds of the first loop: the last write
-- to it holds.
unfoldable pub log_loop : ℕ → ℕ → ℕ → ℕ → Byte → Byte
log_loop zero i x target entry = entry
log_loop (suc rounds) i x target entry =
    log_loop rounds (i + 1) (double x) target (if eqb x target then to_byte i else entry)

unfoldable pub gf_log : Byte → Byte
gf_log a = log_loop 255 0 1 a.value zero_byte

unfoldable pub gf_mul : Byte → Byte → Byte
gf_mul a b =
    if eqb a.value 0 || eqb b.value 0
    then zero_byte
    else gf_exp ((gf_log a).value + (gf_log b).value)

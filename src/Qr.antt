-- ===== src/Qr.antt =====
-- internal/qr: QR codes in byte mode, error correction level L, versions 1 to 40.
pub mod Xor
pub mod Byte
pub mod Galois
pub mod ReedSolomon
pub mod Version
pub mod Stream
pub mod Matrix
pub mod Format
pub mod Skeleton
pub mod Place
pub mod Penalty
pub mod Encode
mod Tests

-- ===== src/Wire/Checksum.antt =====
-- The CRC-32 of a byte string is a u32.
use ephemerkey.Common.{
  ℕ, zero, suc, ◌/◌, ◌<◌, List, [], ◌∷◌, ◌==◌, not, bit_and, bit_xor, bit_xor-lt, arith, All,
  Bool-cases, inl, inr,
}
use ephemerkey.Wire.{crc32, crc32_bits, crc32_from}

xor-u32 : (a b : ℕ) → a < 4294967296 → b < 4294967296 → bit_xor a b < 4294967296
xor-u32 a b h k = bit_xor-lt 32 a b h k

crc32_bits-lt : (n crc : ℕ) → crc < 4294967296 → crc32_bits n crc < 4294967296
unfolding crc32_bits
crc32_bits-lt zero crc h = h
crc32_bits-lt (suc n) crc h = elim (Bool-cases (not (bit_and crc 1 == 0))) [
  | inl odd ↦ rw odd (crc32_bits-lt n _ (xor-u32 (crc / 2) 0xedb8_8320 (omega arith) (omega arith)))
  | inr even ↦ rw even (crc32_bits-lt n (crc / 2) (omega arith))
]

crc32_from-lt :
    (bs : List ℕ) (crc : ℕ)
    → crc < 4294967296
    → All (λ b. b < 256) bs
    → crc32_from crc bs < 4294967296
unfolding crc32_from
crc32_from-lt [] crc h bytes = h
crc32_from-lt (b ∷ bs) crc h (byte, bytes) =
    crc32_from-lt bs (crc32_bits 8 (bit_xor crc b))
      (crc32_bits-lt 8 (bit_xor crc b) (xor-u32 crc b h (omega arith))) bytes

pub crc32-lt : (bs : List ℕ) → All (λ b. b < 256) bs → crc32 bs < 4294967296
unfolding crc32
crc32-lt bs bytes =
    xor-u32 _ 0xffff_ffff (crc32_from-lt bs 0xffff_ffff (omega arith) bytes) (omega arith)

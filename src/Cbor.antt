-- ===== src/Cbor.antt =====
-- The CBOR profile of the signed envelope: firmware/ephemerkey-envelope/src/cbor.rs. An encoder is the
-- bytes it has written and the length of its buffer, a decoder is the bytes it has not read. The
-- firmware has a 32-bit `usize`, to which a length is cut.
pub mod Encode
pub mod Decode
pub mod RoundTrip
pub mod Skipping
mod Tests
use ephemerkey.Common.{
  ℕ, zero, suc, ◌+◌, ◌*◌, ◌/◌, ◌%◌, ◌^◌, Bool, true, false, not, Option, none, some, ltb, leb, ◌==◌,
  ◌||◌, if◌then◌else◌, u32, bit_or, List, [], ◌∷◌, ◌++◌, length, take, drop,
}

pub data EnvelopeError : Type 0 where
  buffer_too_small truncated malformed wrong_algorithm bad_signature decrypt_failed : EnvelopeError

pub data Result (A : Type 0) : Type 0 where
  err : EnvelopeError → Result A
  ok : A → Result A

infixl 5 ◌>>=◌
abbrev pub ◌>>=◌ : {A B : Type 0} → Result A → (A → Result B) → Result B
err reason >>= next = err reason
ok a >>= next = next a

-- An i64; `negsuc n` is - 1 - n.
pub data ℤ : Type 0 where
  pos negsuc : ℕ → ℤ

abbrev pub eq_int : ℤ → ℤ → Bool
eq_int (pos m) (pos n) = m == n
eq_int (negsuc m) (negsuc n) = m == n
eq_int (pos m) (negsuc n) = false
eq_int (negsuc m) (pos n) = false

-- `to_be_bytes` of a u16, a u32 and a u64, and `from_be_bytes`.
abbrev pub u16_be : ℕ → List ℕ
u16_be v = v / 256 % 256 ∷ v % 256 ∷ []

abbrev pub u32_be : ℕ → List ℕ
u32_be v = u16_be (v / 65536) ++ u16_be v

abbrev pub u64_be : ℕ → List ℕ
u64_be v = u32_be (v / 4294967296) ++ u32_be v

abbrev pub from_be : ℕ → List ℕ → ℕ
from_be acc [] = acc
from_be acc (b ∷ bs) = from_be (acc * 256 + b) bs

pub record Enc : Type 0 where
  pub out : List ℕ
  pub cap : ℕ

abbrev pub new_enc : ℕ → Enc
new_enc cap = record { out = []; cap = cap }

-- ===== src/Totp.antt =====
-- RFC 4226 and RFC 6238 codes: firmware/ephemerkey-core/src/totp.rs. A text is its bytes.
-- HMAC-SHA1 is the parameter `hmac`, from the key and the message to the 20 bytes of the tag.
pub mod Entry
mod Tests
use ephemerkey.Common.{
  ℕ, zero, suc, ◌+◌, ◌-◌, ◌*◌, ◌/◌, ◌%◌, ◌^◌, Bool, ◌&&◌, ◌||◌, not, Option, none, some, List, [],
  ◌∷◌, leb, ◌==◌, if◌then◌else◌, u8, u32, u64, length, get_or, Run, bit_or,
}
use ephemerkey.Policy.{period_s}

abbrev pub min_digits : ℕ
min_digits = 4

abbrev pub max_digits : ℕ
max_digits = 10

pub record Code : Type 0 where
  pub value : ℕ  -- u32
  pub digits : ℕ  -- u8

-- The derived `PartialEq`.
abbrev pub code_eq : Code → Code → Bool
code_eq a b = a.value == b.value && a.digits == b.digits

abbrev pub is_ascii_digit : ℕ → Bool
is_ascii_digit b = leb b'0' b && leb b b'9'

-- The loop of `parse`, over a u64.
unfoldable pub parse_bytes : ℕ → List ℕ → Option ℕ
parse_bytes v [] = some v
parse_bytes v (b ∷ bs) =
    let rest = parse_bytes (u64 (v * 10 + (b - b'0'))) bs in
    if not (is_ascii_digit b) then none else rest

as_code : ℕ → Option ℕ → Option Code
as_code digits none = none
as_code digits (some v) = some (record { value = u32 v; digits = digits })

unfoldable pub parse : List ℕ → ℕ → Option Code
unfolding parse_bytes as_code
parse s digits =
    if not (length s == digits) || not (leb min_digits digits && leb digits max_digits)
    then none
    else as_code digits (parse_bytes 0 s)

-- The loop of `render`, from the last digit of `n` to the first: `out` is what is written already.
unfoldable pub render_from : ℕ → ℕ → List ℕ → List ℕ
render_from zero v out = out
render_from (suc n) v out = render_from n (v / 10) ((b'0' + u8 (v % 10)) ∷ out)

-- `none`: more digits than the buffer of ten bytes holds.
unfoldable pub render : Code → Run (List ℕ)
unfolding render_from
render c = if leb c.digits 10 then some (render_from c.digits c.value []) else none

-- `u64::to_be_bytes`, from the last byte to the first.
be_bytes : ℕ → ℕ → List ℕ → List ℕ
be_bytes zero v out = out
be_bytes (suc n) v out = be_bytes n (v / 256) (v % 256 ∷ out)

unfoldable pub to_be_bytes : ℕ → List ℕ
unfolding be_bytes
to_be_bytes v = be_bytes 8 v []

-- Dynamic truncation of a tag to 31 bits. A tag has 20 bytes, so that no index is out of range.
unfoldable pub truncate : List ℕ → ℕ
truncate d =
    let off = get_or d 19 0 % 16 in
    bit_or
      (bit_or (bit_or (get_or d off 0 % 128 * 2 ^ 24) (get_or d (off + 1) 0 * 2 ^ 16))
        (get_or d (off + 2) 0 * 2 ^ 8))
      (get_or d (off + 3) 0)

-- `none`: `10u64.pow(digits)` wraps to 0, from 64 digits on, and the remainder by it panics.
unfoldable pub hotp : (List ℕ → List ℕ → List ℕ) → List ℕ → ℕ → ℕ → Run Code
unfolding to_be_bytes truncate
hotp hmac secret counter digits =
    let m = u64 (10 ^ digits) in
    if m == 0
    then none
    else some
        (record { value = u32 (truncate (hmac secret (to_be_bytes counter)) % m); digits = digits })

unfoldable pub counter_at : ℕ → ℕ
counter_at unix = u32 (unix / period_s)

unfoldable pub totp_at : (List ℕ → List ℕ → List ℕ) → List ℕ → ℕ → ℕ → Run Code
unfolding hotp counter_at
totp_at hmac secret unix digits = hotp hmac secret (counter_at unix) digits

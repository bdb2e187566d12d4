-- ===== src/Cbor/Decode.antt =====
-- The decoder `Dec` of firmware/ephemerkey-envelope/src/cbor.rs. The end of a slice is computed in a
-- 32-bit `usize`: where the sum wraps, the slice is refused, as one beyond the end is.
use ephemerkey.Common.{
  ℕ, zero, suc, ◌/◌, ◌%◌, ◌^◌, Bool, true, false, not, ◌||◌, ltb, leb, ◌==◌, if◌then◌else◌, u32,
  List, [], ◌∷◌, length, take, drop,
}
use ephemerkey.Cbor.{Result, ok, err, ◌>>=◌, EnvelopeError, ℤ, pos, negsuc, from_be}

unfoldable pub byte : List ℕ → Result (ℕ × List ℕ)
byte [] = err EnvelopeError.truncated
byte (b ∷ bs) = ok (b, bs)

unfoldable pub take_bytes : ℕ → List ℕ → Result (List ℕ × List ℕ)
take_bytes n bs =
    if leb n (length bs) then ok (take n bs, drop n bs) else err EnvelopeError.truncated

abbrev pub number : ℕ → ℕ → List ℕ → Result ((ℕ × ℕ) × List ℕ)
number major n bs = take_bytes n bs >>= λ (w, bs). ok ((major, from_be 0 w), bs)

abbrev pub head_of : ℕ → ℕ → List ℕ → Result ((ℕ × ℕ) × List ℕ)
head_of major info bs =
    if ltb info 24
    then ok ((major, info), bs)
    else if info == 24
    then (byte bs >>= λ (b, bs). ok ((major, b), bs))
    else if info == 25
    then number major 2 bs
    else if info == 26
    then number major 4 bs
    else if info == 27
    then number major 8 bs
    else err EnvelopeError.malformed

-- The major type and the value.
unfoldable pub head : List ℕ → Result ((ℕ × ℕ) × List ℕ)
head bs = byte bs >>= λ (b, bs). head_of (b / 32) (b % 32) bs

-- `(major, v) => Ok(v)`, and all else is malformed.
abbrev pub expect : ℕ → List ℕ → Result (ℕ × List ℕ)
expect major bs =
    head bs >>= λ ((m, v), bs). if m == major then ok (v, bs) else err EnvelopeError.malformed

abbrev pub uint : List ℕ → Result (ℕ × List ℕ)
uint bs = expect 0 bs

abbrev pub int_of : ℕ → ℕ → List ℕ → Result (ℤ × List ℕ)
int_of m v bs =
    if not (ltb v (2 ^ 63))
    then err EnvelopeError.malformed
    else if m == 0
    then ok (pos v, bs)
    else if m == 1
    then ok (negsuc v, bs)
    else err EnvelopeError.malformed

abbrev pub int : List ℕ → Result (ℤ × List ℕ)
int bs = head bs >>= λ ((m, v), bs). int_of m v bs

abbrev pub bstr : List ℕ → Result (List ℕ × List ℕ)
bstr bs = expect 2 bs >>= λ (len, bs). take_bytes (u32 len) bs

abbrev pub array : List ℕ → Result (ℕ × List ℕ)
array bs = expect 4 bs

abbrev pub map : List ℕ → Result (ℕ × List ℕ)
map bs = expect 5 bs

abbrev pub bool_of : ℕ → ℕ → List ℕ → Result (Bool × List ℕ)
bool_of m v bs =
    if not (m == 7)
    then err EnvelopeError.malformed
    else if v == 21
    then ok (true, bs)
    else if v == 20
    then ok (false, bs)
    else err EnvelopeError.malformed

abbrev pub bool : List ℕ → Result (Bool × List ℕ)
bool bs = head bs >>= λ ((m, v), bs). bool_of m v bs

-- The rounds of a loop of `skip_depth`, each of which reads on.
unfoldable pub repeat : ℕ → (List ℕ → Result (List ℕ)) → List ℕ → Result (List ℕ)
repeat zero step bs = ok bs
repeat (suc n) step bs = step bs >>= λ bs. repeat n step bs

-- What follows the head of an item that is skipped; `inner` skips an item one level below.
abbrev pub skip_rest : (List ℕ → Result (List ℕ)) → ℕ → ℕ → List ℕ → Result (List ℕ)
skip_rest inner major value bs =
    if major == 0 || (major == 1 || major == 7)
    then ok bs
    else if major == 2 || major == 3
    then (take_bytes (u32 value) bs >>= λ (s, bs). ok bs)
    else if major == 4
    then repeat value inner bs
    else if major == 5
    then repeat value (λ bs. inner bs >>= inner) bs
    else if major == 6
    then inner bs
    else err EnvelopeError.malformed

unfoldable pub skip_depth : ℕ → List ℕ → Result (List ℕ)
skip_depth zero bs = err EnvelopeError.malformed
skip_depth (suc depth) bs =
    head bs >>= λ ((major, value), bs). skip_rest (skip_depth depth) major value bs

abbrev pub skip : List ℕ → Result (List ℕ)
skip bs = skip_depth 8 bs

-- The check of a text for UTF-8 (core::str) is a parameter.
abbrev pub tstr : (List ℕ → Bool) → List ℕ → Result (List ℕ × List ℕ)
tstr is_utf8 bs = expect 3 bs >>= λ (len, bs). take_bytes (u32 len) bs >>= λ (s, bs).
    if is_utf8 s then ok (s, bs) else err EnvelopeError.malformed

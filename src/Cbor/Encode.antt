-- ===== src/Cbor/Encode.antt =====
-- The encoder `Enc` of firmware/ephemerkey-envelope/src/cbor.rs.
use ephemerkey.Common.{
  ℕ, ◌+◌, ◌*◌, Bool, ltb, leb, if◌then◌else◌, bit_or, List, [], ◌∷◌, ◌++◌, length,
}
use ephemerkey.Cbor.{
  Result, ok, err, ◌>>=◌, EnvelopeError, Enc, ℤ, pos, negsuc, u16_be, u32_be, u64_be,
}

unfoldable pub extend : List ℕ → Enc → Result Enc
extend bytes e =
    if leb (length e.out + length bytes) e.cap
    then ok (record e { out = e.out ++ bytes })
    else err EnvelopeError.buffer_too_small

unfoldable pub push : ℕ → Enc → Result Enc
push b e =
    if ltb (length e.out) e.cap
    then ok (record e { out = e.out ++ (b ∷ []) })
    else err EnvelopeError.buffer_too_small

unfoldable pub head : ℕ → ℕ → Enc → Result Enc
head major value e =
    if ltb value 24
    then push (bit_or (major * 32) value) e
    else if leb value 0xff
    then (push (bit_or (major * 32) 24) e >>= λ e. push value e)
    else if leb value 0xffff
    then (push (bit_or (major * 32) 25) e >>= λ e. extend (u16_be value) e)
    else if leb value 0xffffffff
    then (push (bit_or (major * 32) 26) e >>= λ e. extend (u32_be value) e)
    else push (bit_or (major * 32) 27) e >>= λ e. extend (u64_be value) e

abbrev pub uint : ℕ → Enc → Result Enc
uint v e = head 0 v e

abbrev pub int : ℤ → Enc → Result Enc
int (pos v) e = head 0 v e
int (negsuc v) e = head 1 v e

abbrev pub bstr : List ℕ → Enc → Result Enc
bstr b e = head 2 (length b) e >>= λ e. extend b e

abbrev pub tstr : List ℕ → Enc → Result Enc
tstr s e = head 3 (length s) e >>= λ e. extend s e

abbrev pub array : ℕ → Enc → Result Enc
array len e = head 4 len e

abbrev pub map : ℕ → Enc → Result Enc
map len e = head 5 len e

abbrev pub bool : Bool → Enc → Result Enc
bool v e = extend ((if v then 0xf5 else 0xf4) ∷ []) e

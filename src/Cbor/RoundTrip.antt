-- ===== src/Cbor/RoundTrip.antt =====
-- What the encoder writes is what the decoder reads
-- (firmware/ephemerkey-envelope/src/cbor.rs).
use mathlib.Core.List.{append_assoc}
use ephemerkey.Common.{
  ℕ, ◌+◌, ◌*◌, ◌/◌, ◌%◌, ◌^◌, ◌<◌, ◌≡◌, refl, ap, ◌∙◌, Bool, ltb, leb, ◌==◌, if◌then◌else◌, bit_or,
  List, [], ◌∷◌, ◌++◌, length, arith, take-append, drop-length, length-append, u32, inl, inr,
  Bool-cases,
}
use ephemerkey.Common.Tables.{check_below, check_below_holds}
use ephemerkey.Cbor.{Result, ok, err, Enc, ℤ, pos, negsuc, u16_be, u32_be, u64_be, from_be, ◌>>=◌}
use ephemerkey.Cbor.Encode
use ephemerkey.Cbor.Decode

-- The bytes of a head.
abbrev pub head_bytes : ℕ → ℕ → List ℕ
head_bytes major value =
    if ltb value 24
    then bit_or (major * 32) value ∷ []
    else if leb value 0xff
    then bit_or (major * 32) 24 ∷ (value ∷ [])
    else if leb value 0xffff
    then bit_or (major * 32) 25 ∷ u16_be value
    else if leb value 0xffffffff
    then bit_or (major * 32) 26 ∷ u32_be value
    else bit_or (major * 32) 27 ∷ u64_be value

abbrev pub int_bytes : ℤ → List ℕ
int_bytes (pos v) = head_bytes 0 v
int_bytes (negsuc v) = head_bytes 1 v

abbrev pub bstr_bytes : ℕ → List ℕ → List ℕ
bstr_bytes major b = head_bytes major (length b) ++ b

-- The encoder has gone on by `bytes`.
abbrev pub Wrote : Enc → List ℕ → Enc → Type 0
Wrote e bytes e' = e' ≡ record e { out = e.out ++ bytes }

-- What two steps that both succeed went through.
pub both_ok :
    {A B : Type 0} (first : Result A) (next : A → Result B) {last : B}
    → (first >>= next) ≡ ok last
    → (mid : A) × (first ≡ ok mid) × (next mid ≡ ok last)
both_ok (err reason) next went = absurd (cc)
both_ok (ok mid) next went = (mid, refl, went)

pub Wrote-trans :
    (e e1 e2 : Enc) (a b : List ℕ) → Wrote e a e1 → Wrote e1 b e2 → Wrote e (a ++ b) e2
Wrote-trans e e1 e2 a b h k = rw (k, h, append_assoc e.out a b) refl

extend-Wrote : (b : List ℕ) (e e' : Enc) → Encode.extend b e ≡ ok e' → Wrote e b e'
unfolding Encode.extend
extend-Wrote b e e' h = ground (arith, h)

push-Wrote : (b : ℕ) (e e' : Enc) → Encode.push b e ≡ ok e' → Wrote e (b ∷ []) e'
unfolding Encode.push
push-Wrote b e e' h = ground (arith, h)

push_then-Wrote :
    (b : ℕ) (bytes : List ℕ) (e e' : Enc)
    → (Encode.push b e >>= λ e. Encode.extend bytes e) ≡ ok e'
    → Wrote e (b ∷ bytes) e'
push_then-Wrote b bytes e e' h =
    let (e1, p, k) = both_ok (Encode.push b e) (λ e. Encode.extend bytes e) h in
    Wrote-trans _ _ _ (b ∷ []) bytes (push-Wrote b e e1 p) (extend-Wrote bytes e1 e' k)

push-push-Wrote :
    (b c : ℕ) (e e' : Enc)
    → (Encode.push b e >>= λ e. Encode.push c e) ≡ ok e'
    → Wrote e (b ∷ (c ∷ [])) e'
push-push-Wrote b c e e' h =
    let (e1, p, k) = both_ok (Encode.push b e) (λ e. Encode.push c e) h in
    Wrote-trans _ _ _ (b ∷ []) (c ∷ []) (push-Wrote b e e1 p) (push-Wrote c e1 e' k)

pub head-Wrote :
    (major value : ℕ) (e e' : Enc)
    → Encode.head major value e ≡ ok e'
    → Wrote e (head_bytes major value) e'
unfolding Encode.head
head-Wrote major value e e' h = elim (Bool-cases (ltb value 24)) [
  | inl a ↦ rw a (push-Wrote _ e e' (rw a at h))
  | inr a ↦ elim (Bool-cases (leb value 0xff)) [
    | inl b ↦ rw (a, b) (push-push-Wrote _ _ e e' (rw (a, b) at h))
    | inr b ↦ elim (Bool-cases (leb value 0xffff)) [
      | inl c ↦ rw (a, b, c) (push_then-Wrote _ _ e e' (rw (a, b, c) at h))
      | inr c ↦ elim (Bool-cases (leb value 0xffffffff)) [
        | inl d ↦ rw (a, b, c, d) (push_then-Wrote _ _ e e' (rw (a, b, c, d) at h))
        | inr d ↦ rw (a, b, c, d) (push_then-Wrote _ _ e e' (rw (a, b, c, d) at h))
      ]
    ]
  ]
]

pub int-Wrote : (z : ℤ) (e e' : Enc) → Encode.int z e ≡ ok e' → Wrote e (int_bytes z) e'
int-Wrote (pos v) e e' h = head-Wrote 0 v e e' h
int-Wrote (negsuc v) e e' h = head-Wrote 1 v e e' h

pub bstr-Wrote :
    (major : ℕ) (b : List ℕ) (e e' : Enc)
    → (Encode.head major (length b) e >>= λ e. Encode.extend b e) ≡ ok e'
    → Wrote e (bstr_bytes major b) e'
bstr-Wrote major b e e' h =
    let (e1, p, k) = both_ok (Encode.head major (length b) e) (λ e. Encode.extend b e) h in
    Wrote-trans _ _ _ (head_bytes major (length b)) b (head-Wrote major (length b) e e1 p)
      (extend-Wrote b e1 e' k)

-- The first byte of a head.
or_test : ℕ → ℕ → Bool
or_test m v = bit_or (m * 32) v == m * 32 + v

or_head : (m v : ℕ) → m < 8 → v < 32 → bit_or (m * 32) v ≡ m * 32 + v
unfolding or_test check_below
or_head m v lm lv =
    let row = check_below_holds 8 (λ m. check_below 32 (or_test m)) m refl lm in
    let cell = check_below_holds 32 (or_test m) v row lv in ground (arith, cell)

head_first :
    (m info : ℕ) (rest : List ℕ)
    → m < 8
    → info < 32
    → Decode.head (bit_or (m * 32) info ∷ rest) ≡ Decode.head_of m info rest
unfolding Decode.head Decode.byte
head_first m info rest lm lv =
    let b = or_head m info lm lv in
    let q : bit_or (m * 32) info / 32 ≡ m = omega arith in
    let r : bit_or (m * 32) info % 32 ≡ info = omega arith in rw (q, r) refl

pub take_bytes-append :
    (bs rest : List ℕ) → Decode.take_bytes (length bs) (bs ++ rest) ≡ ok (bs, rest)
unfolding Decode.take_bytes
take_bytes-append bs rest =
    let l = length-append bs rest in
    rw (take-append bs rest, drop-length bs rest) (ground (arith, l))

from_u16 : (acc v : ℕ) → from_be acc (u16_be v) ≡ acc * 65536 + v % 65536
from_u16 acc v = omega arith

from_append : (acc : ℕ) (a b : List ℕ) → from_be acc (a ++ b) ≡ from_be (from_be acc a) b
from_append acc [] b = refl
from_append acc (x ∷ a) b = from_append (acc * 256 + x) a b

from_u32 : (acc v : ℕ) → from_be acc (u32_be v) ≡ acc * 4294967296 + v % 4294967296
from_u32 acc v =
    let hi = from_u16 acc (v / 65536) in
    let lo = from_u16 (acc * 65536 + v / 65536 % 65536) v in
    let join : from_be acc (u32_be v) ≡ (acc * 65536 + v / 65536 % 65536) * 65536 + v % 65536 =
      from_append acc (u16_be (v / 65536)) (u16_be v) ∙ (ap (λ x. from_be x (u16_be v)) hi ∙ lo) in
    omega (arith, join)

from_u64 : (v : ℕ) → v < 2 ^ 64 → from_be 0 (u64_be v) ≡ v
from_u64 v lt =
    let hi = from_u32 0 (v / 4294967296) in
    let lo = from_u32 (0 * 4294967296 + v / 4294967296 % 4294967296) v in
    let join : from_be 0 (u64_be v)
        ≡ (0 * 4294967296 + v / 4294967296 % 4294967296) * 4294967296 + v % 4294967296 =
      from_append 0 (u32_be (v / 4294967296)) (u32_be v)
      ∙ (ap (λ x. from_be x (u32_be v)) hi ∙ lo) in
    join ∙ (omega arith)

number_lem :
    (m v : ℕ) (bs rest : List ℕ)
    → from_be 0 bs ≡ v
    → Decode.number m (length bs) (bs ++ rest) ≡ ok ((m, v), rest)
number_lem m v bs rest h = rw (take_bytes-append bs rest, h) refl

-- A head that was written is read back, whatever stands behind it.
pub head-head_bytes :
    (m v : ℕ) (rest : List ℕ)
    → m < 8
    → v < 2 ^ 64
    → Decode.head (head_bytes m v ++ rest) ≡ ok ((m, v), rest)
unfolding Decode.byte
head-head_bytes m v rest lm lv = elim (Bool-cases (ltb v 24)) [
  | inl a ↦ rw (a, head_first m v rest lm (ground arith)) (rw a refl)
  | inr a ↦ elim (Bool-cases (leb v 0xff)) [
    | inl b ↦ rw (a, b, head_first m 24 (v ∷ rest) lm (omega arith)) refl
    | inr b ↦ elim (Bool-cases (leb v 0xffff)) [
      | inl c ↦
          rw (a, b, c, head_first m 25 (u16_be v ++ rest) lm (omega arith))
            (number_lem m v (u16_be v) rest (from_u16 0 v ∙ (ground arith)))
      | inr c ↦ elim (Bool-cases (leb v 0xffffffff)) [
        | inl d ↦
            rw (a, b, c, d, head_first m 26 (u32_be v ++ rest) lm (omega arith))
              (number_lem m v (u32_be v) rest (from_u32 0 v ∙ (ground arith)))
        | inr d ↦
            rw (a, b, c, d, head_first m 27 (u64_be v ++ rest) lm (omega arith))
              (number_lem m v (u64_be v) rest (from_u64 v lv))
      ]
    ]
  ]
]

pub expect-head_bytes :
    (m v : ℕ) (rest : List ℕ)
    → m < 8
    → v < 2 ^ 64
    → Decode.expect m (head_bytes m v ++ rest) ≡ ok (v, rest)
expect-head_bytes m v rest lm lv = rw (head-head_bytes m v rest lm lv) (ground arith)

-- The integers that the envelope's labels and algorithms are.
abbrev pub IsI64 : ℤ → Type 0
IsI64 (pos v) = v < 2 ^ 63
IsI64 (negsuc v) = v < 2 ^ 63

pub int-int_bytes :
    (z : ℤ) (rest : List ℕ) → IsI64 z → Decode.int (int_bytes z ++ rest) ≡ ok (z, rest)
int-int_bytes (pos v) rest lt =
    rw (head-head_bytes 0 v rest (omega arith) (omega arith)) (ground arith)
int-int_bytes (negsuc v) rest lt =
    rw (head-head_bytes 1 v rest (omega arith) (omega arith)) (ground arith)

pub bstr-bstr_bytes :
    (b rest : List ℕ) → length b < 2 ^ 32 → Decode.bstr (bstr_bytes 2 b ++ rest) ≡ ok (b, rest)
bstr-bstr_bytes b rest lt =
    let w : u32 (length b) ≡ length b = omega arith in
    rw
      (
        append_assoc (head_bytes 2 (length b)) b rest,
        expect-head_bytes 2 (length b) (b ++ rest) (omega arith) (omega arith),
      )
      (rw (w, take_bytes-append b rest) refl)

-- ===== src/Totp/Entry.antt =====
-- A code that is minted can be entered: `Code::render` and `Code::parse` against each other.
use Prim.Native.Nat.pow
use native.Mathlib.Nat.{mod-lt, div-div-eq-div-mul, div-lt_iff_lt-mul}
use mathlib.Core.List.{append-nil}
use mathlib.Core.Path.{ap₂}
use ephemerkey.Common.{
  ℕ, zero, suc, ◌+◌, ◌-◌, ◌*◌, ◌/◌, ◌%◌, ◌^◌, ◌≡◌, ◌≤◌, ◌<◌, some, List, [], ◌∷◌, ◌++◌, u32, u64,
  leb→le, Option-cases, inl, inr, sym, length, arith, refl, ap, ◌∙◌, true, leb,
}
use ephemerkey.Common.Tables.{check_below, check_below_holds}
use ephemerkey.Totp.{Code, parse, parse_bytes, render, render_from, hotp, truncate, to_be_bytes}

length-render_from : (n v : ℕ) (out : List ℕ) → length (render_from n v out) ≡ n + length out
unfolding render_from
length-render_from zero v out = omega arith
length-render_from (suc n) v out =
    omega (arith, length-render_from n (v / 10) ((b'0' + v % 10 % 256) ∷ out))

pow10-suc : (n : ℕ) → 10 ^ suc n ≡ 10 ^ n * 10
pow10-suc n = pow.suc 10 n

parse_bytes-digit :
    (v d : ℕ) (out : List ℕ)
    → d < 10
    → v * 10 + d < 18446744073709551616
    → parse_bytes v ((b'0' + d % 256) ∷ out) ≡ parse_bytes (v * 10 + d) out
unfolding parse_bytes
parse_bytes-digit v d out h k =
    let e : u64 (v * 10 + (b'0' + d % 256 - b'0')) ≡ v * 10 + d = omega arith in ground (arith, e)

parse_bytes-nil : (v : ℕ) → parse_bytes v [] ≡ some v
unfolding parse_bytes
parse_bytes-nil v = refl

-- Reading back the digits of a number below `10 ^ n` gives the number, and goes on behind them.
parse_bytes-render_from :
    (n v : ℕ) (out : List ℕ)
    → v < 10 ^ n
    → v < 18446744073709551616
    → parse_bytes 0 (render_from n v out) ≡ parse_bytes v out
unfolding render_from
parse_bytes-render_from zero v out h k = let e : 0 ≡ v = omega arith in rw (← e)
parse_bytes-render_from (suc n) v out h k =
    parse_bytes-render_from n (v / 10) _ (omega (arith, pow10-suc n)) (omega arith)
    ∙ (parse_bytes-digit (v / 10) (v % 10) out (omega arith) (omega arith)
        ∙ ap (λ k. parse_bytes k out) (omega arith))

pow10-small : (d : ℕ) → d ≤ 10 → 10 ^ d ≤ 10000000000
pow10-small d h =
    leb→le _ _ (check_below_holds 11 (λ k. leb (10 ^ k) 10000000000) d table (omega arith))
  where
    table : check_below 11 (λ k. leb (10 ^ k) 10000000000) ≡ true
    table = unfold check_below in refl

-- Entering the `d` digits of a number below `10 ^ d` gives the code of its lowest 32 bits.
parse-render_from :
    (d v : ℕ)
    → 4 ≤ d
    → d ≤ 10
    → v < 10 ^ d
    → parse (render_from d v []) d ≡ some (record { value = u32 v; digits = d })
unfolding parse
parse-render_from d v lo hi h =
    let read : parse_bytes 0 (render_from d v []) ≡ some v =
      parse_bytes-render_from d v [] h (omega (arith, pow10-small d hi)) ∙ parse_bytes-nil v in
    ground (arith, read, length-render_from d v [])

-- A code of 4 to 10 digits whose value has no more digits, and is a u32, can be rendered, and
-- entering the rendered text gives the code back.
pub parse-render :
    (c : Code)
    → 4 ≤ c.digits
    → c.digits ≤ 10
    → c.value < 10 ^ c.digits
    → c.value < 4294967296
    → (s : List ℕ) × (render c ≡ some s) × (parse s c.digits ≡ some c)
unfolding render
parse-render c lo hi h w = (
  render_from c.digits c.value [],
  ground (arith),
  parse-render_from c.digits c.value lo hi h
      ∙ ap (λ v. some (record { value = v; digits = c.digits })) (omega arith),
)

-- Two texts of ten digits are accepted as one code when their numbers differ by 2 ^ 32: `parse`
-- keeps the lowest 32 bits, so the texts of `v` and of `v + 2 ^ 32` are both entered as the code of
-- ten digits with the value `v % 2 ^ 32`.
pub parse_alias :
    (v : ℕ)
    → v + 4294967296 < 10000000000
    → (parse (render_from 10 v []) 10 ≡ some (record { value = u32 v; digits = 10 }))
      × (parse (render_from 10 (v + 4294967296) []) 10
          ≡ some (record { value = u32 v; digits = 10 }))
parse_alias v h = (
  parse-render_from 10 v (omega arith) (omega arith) (omega arith),
  parse-render_from 10 (v + 4294967296) (omega arith) (omega arith) (omega arith)
      ∙ ap (λ w. some (record { value = w; digits = 10 })) (omega arith),
)

pow10-pos : (d : ℕ) → 0 < 10 ^ d
pow10-pos zero = omega arith
pow10-pos (suc d) = omega (arith, pow10-suc d, pow10-pos d)

-- `hotp` returns at up to 10 digits.
pub hotp_returns :
    (hmac : List ℕ → List ℕ → List ℕ) (secret : List ℕ) (counter d : ℕ)
    → d ≤ 10
    → (c : Code) × (hotp hmac secret counter d ≡ some c)
unfolding hotp
hotp_returns hmac secret counter d hi =
    let m : u64 (10 ^ d) ≡ 10 ^ d = omega (arith, pow10-small d hi) in
    let t = truncate (hmac secret (to_be_bytes counter)) in
    (record { value = u32 (t % u64 (10 ^ d)); digits = d }, ground (arith, m, pow10-pos d))

-- A code that `hotp` mints at 4 to 10 digits, for any HMAC, can be rendered, and entering the
-- rendered text gives the minted code back; `hotp` returns at these digits.
pub parse-render-hotp :
    (hmac : List ℕ → List ℕ → List ℕ) (secret : List ℕ) (counter d : ℕ)
    → 4 ≤ d
    → d ≤ 10
    → (c : Code) × (hotp hmac secret counter d ≡ some c)
      × (c.digits ≡ d)
      × (s : List ℕ) × (render c ≡ some s)
      × (parse s d ≡ some c)
unfolding hotp
parse-render-hotp hmac secret counter d lo hi =
    let t = truncate (hmac secret (to_be_bytes counter)) in
    let m : u64 (10 ^ d) ≡ 10 ^ d = omega (arith, pow10-small d hi) in
    let c : Code = record { value = u32 (t % 10 ^ d); digits = d } in
    let below : t % 10 ^ d < 10 ^ d = mod-lt t (pow10-pos d) in
    let (s, r, q) = parse-render c lo hi (omega arith) (omega arith) in
    (c, ground (arith, m, pow10-pos d), refl, s, r, q)

-- The digits of `w` from the front.
render_from-front :
    (n w : ℕ) (out : List ℕ)
    → render_from (suc n) w out ≡ (b'0' + w / 10 ^ n % 10 % 256) ∷ render_from n w out
unfolding render_from
render_from-front zero w out =
    let e : w ≡ w / 10 ^ 0 = omega arith in ap (λ q. (b'0' + q % 10 % 256) ∷ out) e
render_from-front (suc n) w out =
    let e : w / 10 / 10 ^ n ≡ w / 10 ^ suc n =
      div-div-eq-div-mul w 10 (10 ^ n) ∙ ap (λ q. w / q) (omega (arith, pow10-suc n)) in
    render_from-front n (w / 10) ((b'0' + w % 10 % 256) ∷ out)
    ∙ ap (λ q. (b'0' + q % 10 % 256) ∷ render_from n (w / 10) ((b'0' + w % 10 % 256) ∷ out)) e

digit_step :
    (b v w : ℕ) (bs : List ℕ)
    → v * 10 + 10 < 18446744073709551616
    → parse_bytes v (b ∷ bs) ≡ some w
    → (b'0' ≤ b) × (b ≤ b'9') × (parse_bytes (v * 10 + (b - b'0')) bs ≡ some w)
unfolding parse_bytes
digit_step b v w bs k h =
    let (lo, hi) = digits in
    let e : u64 (v * 10 + (b - b'0')) ≡ v * 10 + (b - b'0') = omega arith in
    (lo, hi, ground (arith, e))
  where
    digits : (b'0' ≤ b) × (b ≤ b'9')
    digits = ground arith

mul_mono : (a b p : ℕ) → a ≤ b → a * p ≤ b * p
mul_mono a b p h = grind arith

room_head : (v p m : ℕ) → 0 < p → (v + 1) * (p * 10) < m → v * 10 + 10 < m
room_head v p m h k = omega (arith, mul_mono 1 p (v + 1) h)

room_tail : (v d p m : ℕ) → d ≤ 9 → (v + 1) * (p * 10) < m → (v * 10 + d + 1) * p < m
room_tail v d p m h k = omega (arith, mul_mono d 9 p h)

-- Reading digits on from `v` gives a number whose upper part is `v` and whose digits are the text.
render_from-parse_bytes :
    (bs : List ℕ) (v w : ℕ) (out : List ℕ)
    → parse_bytes v bs ≡ some w
    → (v + 1) * 10 ^ length bs < 18446744073709551616
    → (w / 10 ^ length bs ≡ v) × (render_from (length bs) w out ≡ bs ++ out)
render_from-parse_bytes [] v w out h k =
    let e : v ≡ w = ground (arith, parse_bytes-nil v) in (omega arith, unfold render_from in refl)
render_from-parse_bytes (b ∷ bs) v w out h k =
    let p = 10 ^ length bs in
    let pos : 0 < p = pow10-pos (length bs) in
    let scaled : (v + 1) * (p * 10) < 18446744073709551616 = rw (← pow10-suc (length bs)) k in
    let (lo, hi, rest) = digit_step b v w bs (room_head v p _ pos scaled) h in
    let (top, text) =
      render_from-parse_bytes bs (v * 10 + (b - b'0')) w out rest
        (room_tail v (b - b'0') p _ (omega arith) scaled) in
    let front = render_from-front (length bs) w out in
    let upper : w / 10 ^ suc (length bs) ≡ v =
      ap (λ q. w / q) (pow10-suc (length bs))
      ∙ (sym (div-div-eq-div-mul w p 10) ∙ omega (arith, top)) in
    let head : b'0' + w / p % 10 % 256 ≡ b = omega (arith, top) in
    (upper, front ∙ ap₂ ◌∷◌ head text)

-- What an accepted text is.
parsed :
    (s : List ℕ) (d : ℕ) (c : Code)
    → parse s d ≡ some c
    → (w : ℕ) × (parse_bytes 0 s ≡ some w)
      × (length s ≡ d)
      × (4 ≤ d)
      × (d ≤ 10)
      × (c ≡ record { value = u32 w; digits = d })
unfolding parse
parsed s d c h = elim (Option-cases (parse_bytes 0 s)) [
  | inl e ↦ absurd (ground (arith, e))
  | inr (w, e) ↦ (w, e, ground (arith, e), ground (arith, e), ground (arith, e), ground (arith, e))
]

pow10_mono : (d : ℕ) → d ≤ 9 → 10 ^ d ≤ 1000000000
pow10_mono d h =
    leb→le _ _ (check_below_holds 10 (λ k. leb (10 ^ k) 1000000000) d table (omega arith))
  where
    table : check_below 10 (λ k. leb (10 ^ k) 1000000000) ≡ true
    table = unfold check_below in refl

-- At up to 9 digits `parse` accepts, for each code that it returns, only the text that `render`
-- writes for that code: no two texts are entered as one code.
pub render-parse : (s : List ℕ) (d : ℕ) (c : Code) → d ≤ 9 → parse s d ≡ some c → render c ≡ some s
unfolding render
render-parse s d c hi h =
    let (w, e, len, lo, hi', eq) = parsed s d c h in
    let small : 10 ^ length s ≤ 1000000000 = pow10_mono (length s) (omega arith) in
    let (top, text) = render_from-parse_bytes s 0 w [] e (omega arith) in
    let below : w < 10 ^ length s = below_of_div w (10 ^ length s) (pow10-pos (length s)) top in
    let word : u32 w ≡ w = omega arith in
    let shown : render_from d (u32 w) [] ≡ s = rw (word, ← len) (text ∙ append-nil s) in
    ground (arith, shown)
  where
    below_of_div : (w p : ℕ) → 0 < p → w / p ≡ 0 → w < p
    below_of_div w p h e = omega (arith, (div-lt_iff_lt-mul {k = p} {x = w} {y = 1} h).0)

-- ===== src/Wire/Scanning.antt =====
-- The scanner on a buffer.
use ephemerkey.Common.{
  ℕ, zero, suc, ◌+◌, ◌-◌, ◌/◌, ◌≡◌, ◌≤◌, ◌<◌, refl, sym, ap, ◌∙◌, List, [], ◌∷◌, ◌++◌, length, take,
  drop, get_or, arith, some, Run, ◌>>=◌, u8, u16, true, false, length-append, take-append,
  drop-append, get_or-append, length-drop, ltb, Bool, if◌then◌else◌,
}
use mathlib.Core.List.{append_assoc}
use ephemerkey.Wire.{
  WireFrame, with_frame, from_le_bytes, le_bytes, covered, crc16, encode, hunt, scan, feed, push,
  max_payload, version,
}

hunt-le : (buf : List ℕ) → length (hunt buf) ≤ length buf
unfolding hunt
hunt-le [] = omega arith
hunt-le (a ∷ []) = omega arith
hunt-le (a ∷ b ∷ bs) = ground (arith, hunt-le (b ∷ bs))

abbrev Returned : Run (List ℕ × List WireFrame) → Type 0
Returned m = (r : List ℕ × List WireFrame) × (m ≡ some r)

-- The branches of a round.
branches_Returned :
    (a b c d : Bool) (x : List ℕ × List WireFrame) (f : WireFrame)
    (past after : Run (List ℕ × List WireFrame))
    → (a ≡ false → Returned past)
    → (a ≡ false → Returned after)
    → Returned (
        if a
        then some x
        else if b
        then past
        else if c
        then some x
        else if d
        then (after >>= λ r. some (with_frame f r))
        else past)
branches_Returned true b c d x f past after p q = (x, refl)
branches_Returned false true c d x f past after p q = p refl
branches_Returned false false true d x f past after p q = (x, refl)
branches_Returned false false false true x f past after p q =
    let (r, e) = q refl in (with_frame f r, rw e refl)
branches_Returned false false false false x f past after p q = p refl

-- A scan returns with one round of fuel more than the buffer has bytes.
pub scan_returns :
    (fuel : ℕ) (buf : List ℕ)
    → length buf < fuel
    → (r : List ℕ × List WireFrame) × (scan fuel buf ≡ some r)
unfolding scan
scan_returns zero buf h = absurd (omega arith)
scan_returns (suc fuel) buf0 h =
    let buf = hunt buf0 in
    let total = 2 + 4 + from_le_bytes (get_or buf 4 0) (get_or buf 5 0) + 2 in
    let le = hunt-le buf0 in
    branches_Returned (ltb (length buf) 8) _ (ltb (length buf) total) _ (buf, []) _ _ _
      (λ long.
        scan_returns fuel (drop 2 buf)
          (let e = length-drop 2 buf in let l : 8 ≤ length buf = ground arith in omega arith))
      (λ long.
        scan_returns fuel (drop total buf)
          (let e = length-drop total buf in let l : 8 ≤ length buf = ground arith in omega arith))

-- A buffer whose front is the frame of a payload that the parser holds.
framed : ℕ → List ℕ → List ℕ → List ℕ
framed t p rest =
    let crc = crc16 (covered t p) in
    b'E'
    ∷ b'K'
    ∷ version
    ∷ t
    ∷ u8 (length p)
    ∷ u16 (length p) / 256
    ∷ (p ++ (u8 crc ∷ crc / 256 ∷ rest))

module _ (t : ℕ) (p rest : List ℕ) where
  framed-hunt : hunt (framed t p rest) ≡ framed t p rest
  unfolding framed hunt
  framed-hunt = refl

  framed-take : drop 2 (take (6 + length p) (framed t p rest)) ≡ covered t p
  unfolding framed
  framed-take =
      let k : 6 + length p ≡ suc (suc (suc (suc (suc (suc (length p)))))) = omega arith in
      rw (k, take-append p) refl

  framed-payload : drop 6 (take (6 + length p) (framed t p rest)) ≡ p
  unfolding framed
  framed-payload =
      let k : 6 + length p ≡ suc (suc (suc (suc (suc (suc (length p)))))) = omega arith in
      rw (k, take-append p) refl

  framed-drop : drop (2 + 4 + length p + 2) (framed t p rest) ≡ rest
  unfolding framed
  framed-drop =
      let k : 2 + 4 + length p + 2 ≡ suc (suc (suc (suc (suc (suc (length p + 2)))))) =
        omega arith in
      rw (k, drop-append p) refl

  framed-crc0 : get_or (framed t p rest) (2 + 4 + length p + 2 - 2) 0 ≡ u8 (crc16 (covered t p))
  unfolding framed
  framed-crc0 =
      let k : 2 + 4 + length p + 2 - 2 ≡ suc (suc (suc (suc (suc (suc (length p + 0)))))) =
        omega arith in
      rw (k, get_or-append p) refl

  framed-crc1 : get_or (framed t p rest) (2 + 4 + length p + 2 - 1) 0 ≡ crc16 (covered t p) / 256
  unfolding framed
  framed-crc1 =
      let k : 2 + 4 + length p + 2 - 1 ≡ suc (suc (suc (suc (suc (suc (length p + 1)))))) =
        omega arith in
      rw (k, get_or-append p) refl

  framed-length : 8 + length p ≤ length (framed t p rest)
  unfolding framed
  framed-length =
      let crc = crc16 (covered t p) in omega (arith, length-append p (u8 crc ∷ crc / 256 ∷ rest))

  framed-plen :
      length p ≤ max_payload
      → from_le_bytes (get_or (framed t p rest) 4 0) (get_or (framed t p rest) 5 0) ≡ length p
  unfolding framed
  framed-plen h = omega arith

  framed-version : get_or (framed t p rest) 2 0 ≡ version
  unfolding framed
  framed-version = refl

  framed-type : get_or (framed t p rest) 3 0 ≡ t
  unfolding framed
  framed-type = refl

  scan-framed :
      (fuel : ℕ)
      → length p ≤ max_payload
      → scan (suc fuel) (framed t p rest) ≡ (scan fuel rest >>= λ r. some (with_frame (t, p) r))
  unfolding scan
  scan-framed fuel h =
      let same : from_le_bytes (u8 (crc16 (covered t p))) (crc16 (covered t p) / 256)
          ≡ crc16 (covered t p) =
        omega arith in
      let long : ltb (length (framed t p rest)) 8 ≡ false = ground (arith, framed-length) in
      let whole : ltb (length (framed t p rest)) (2 + 4 + length p + 2) ≡ false =
        ground (arith, framed-length) in
      let fits : ltb max_payload (length p) ≡ false = ground arith in
      rw
        (
          framed-hunt,
          framed-plen h,
          long,
          fits,
          framed-version,
          whole,
          framed-take,
          framed-crc0,
          framed-crc1,
          framed-drop,
          framed-payload,
          framed-type,
        )
        (ground (arith, same))

abbrev written : ℕ → List ℕ → List ℕ
written t p = b'E' ∷ b'K' ∷ covered t p ++ le_bytes (crc16 (covered t p))

written-framed : (t : ℕ) (p rest : List ℕ) → written t p ++ rest ≡ framed t p rest
unfolding framed
written-framed t p rest =
    let crc = crc16 (covered t p) in
    ap (λ l. b'E' ∷ b'K' ∷ version ∷ t ∷ u8 (length p) ∷ u16 (length p) / 256 ∷ l)
      (append_assoc p (le_bytes crc) rest)

encode-written :
    (room t : ℕ) (p bytes : List ℕ)
    → encode room t p ≡ some bytes
    → (length p ≤ max_payload) × (written t p ≡ bytes)
unfolding encode
encode-written room t p bytes h = ground arith

encode-framed :
    (room t : ℕ) (p bytes rest : List ℕ)
    → encode room t p ≡ some bytes
    → (length p ≤ max_payload) × (bytes ++ rest ≡ framed t p rest)
encode-framed room t p bytes rest h =
    let (fits, e) = encode-written room t p bytes h in
    (fits, ap (λ l. l ++ rest) (sym e) ∙ written-framed t p rest)

-- A frame that `encode` writes is recognised at the front of the buffer, whatever stands behind it:
-- the scan reports its type and its payload once, and goes on with what stands behind it.
pub scan-encode :
    (room fuel t : ℕ) (p bytes rest : List ℕ)
    → encode room t p ≡ some bytes
    → scan (suc fuel) (bytes ++ rest) ≡ (scan fuel rest >>= λ r. some (with_frame (t, p) r))
scan-encode room fuel t p bytes rest h =
    let (fits, e) = encode-framed room t p bytes rest h in rw e (scan-framed t p rest fuel fits)

-- Whatever bytes arrive, the parser returns.
pub feed_returns : (bs buf : List ℕ) → (r : List ℕ × List WireFrame) × (feed buf bs ≡ some r)
unfolding feed
feed_returns [] buf = ((buf, []), refl)
feed_returns (b ∷ bs) buf =
    let ((buf1, fs), scanned) =
      scan_returns (suc (length (push buf b))) (push buf b) (omega arith) in
    let ((buf2, gs), went) = feed_returns bs buf1 in ((buf2, fs ++ gs), rw (scanned, went) refl)

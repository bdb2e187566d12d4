-- ===== src/Config/Geofence.antt =====
-- The geofence: `Zone::contains` of firmware/ephemerkey-envelope/src/config.rs, and `in_any_fence` of
-- firmware/ephemerkey-config/src/lib.rs. Division truncates towards zero and only squares and absolute
-- values of the distances are compared, so that a distance is a magnitude. Every product and sum is an
-- i64. Where it leaves its range it wraps in the firmware; the model says so by `none`.
use ephemerkey.Common.{
  ℕ, ◌+◌, ◌-◌, ◌*◌, ◌/◌, ◌^◌, min, Bool, true, false, ltb, leb, ◌||◌, if◌then◌else◌, u32, some,
  none, List, [], ◌∷◌, Run, ◌>>=◌,
}
use ephemerkey.Cbor.{ℤ, pos, negsuc}
use ephemerkey.Config.{Zone}

-- A result of i64 arithmetic, by its magnitude.
unfoldable pub i64 : ℕ → Run ℕ
i64 n = if ltb n (2 ^ 63) then some n else none

-- `(a - b).abs()` and `a.abs()`.
abbrev pub distance : ℤ → ℤ → ℕ
distance (pos a) (pos b) = (a - b) + (b - a)
distance (negsuc a) (negsuc b) = (a - b) + (b - a)
distance (pos a) (negsuc b) = a + (b + 1)
distance (negsuc a) (pos b) = (a + 1) + b

abbrev pub magnitude : ℤ → ℕ
magnitude (pos a) = a
magnitude (negsuc a) = a + 1

-- `num / den`, and the cut to the i32 that holds it; `none` where the divisor is not positive.
unfoldable pub quotient : ℕ → ℕ → Run ℕ
quotient num p = if ltb p 40500000000 then some (u32 (num / (40500000000 - p))) else none

unfoldable pub cos_lat_q15 : ℤ → Run ℕ
cos_lat_q15 lat_e7 =
    let x = 90000 - min (magnitude lat_e7 / 10000) 90000 in
    i64 (x * (180000 - x)) >>= λ p. i64 (4 * p) >>= λ p4. i64 (p4 * 32768) >>= λ num. quotient num p

-- Behind the bounding box: the squares.
unfoldable pub in_circle : ℕ → ℕ → ℕ → Run Bool
in_circle n e r_mm = i64 (n * n) >>= λ nn.
    i64 (e * e) >>= λ ee. i64 (nn + ee) >>= λ sum. i64 (r_mm * r_mm) >>= λ rr. some (leb sum rr)

unfoldable pub contains : Zone → ℤ → ℤ → Run Bool
contains z lat_e7 lon_e7 = i64 (distance lat_e7 z.lat_e7 * 111320) >>= λ dlat.
    cos_lat_q15 z.lat_e7 >>= λ cos_q15. i64 (distance lon_e7 z.lon_e7 * 111320) >>= λ dlon.
    i64 (dlon / 10000 * cos_q15) >>= λ east. i64 (z.radius_m * 1000) >>= λ r_mm.
    if ltb r_mm (dlat / 10000) || ltb r_mm (east / 32768)
    then some false
    else in_circle (dlat / 10000) (east / 32768) r_mm

-- The zones behind the first that contains the point are not asked.
unfoldable pub in_any_fence : List Zone → ℤ → ℤ → Run Bool
in_any_fence [] lat_e7 lon_e7 = some false
in_any_fence (z ∷ zs) lat_e7 lon_e7 = contains z lat_e7 lon_e7 >>= λ inside.
    let rest = in_any_fence zs lat_e7 lon_e7 in if inside then some true else rest

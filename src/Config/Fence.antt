-- ===== src/Config/Fence.antt =====
-- The arithmetic of the geofence stays in its machine integers, an i32 cosine and i64 products
-- (firmware/ephemerkey-envelope/src/config.rs).
use native.Mathlib.Nat.{mul-le-mul, div-le_of_le-mul}
use ephemerkey.Common.{
  ℕ, ◌+◌, ◌-◌, ◌*◌, ◌/◌, ◌^◌, ◌<◌, ◌≤◌, ◌≡◌, refl, min, arith, true, false, ltb, leb, ◌||◌, inl,
  inr, Bool, Bool-cases, some, if◌then◌else◌,
}
use ephemerkey.Cbor.{ℤ, pos, negsuc}
use ephemerkey.Config.{Zone}
use ephemerkey.Config.Geofence.{
  i64, distance, magnitude, quotient, cos_lat_q15, in_circle, contains,
}
use ephemerkey.Config.Accepted.{IsI32, ZoneFits}

-- The cosine of a latitude, the distances in millimetres and the test of the squares, in numbers that
-- do not overflow, and without a box around the fence.
pub cos_square : ℤ → ℕ
cos_square lat = let x = 90000 - min (magnitude lat / 10000) 90000 in x * (180000 - x)

abbrev pub cosine : ℤ → ℕ
cosine lat = 4 * cos_square lat * 32768 / (40500000000 - cos_square lat)

abbrev pub north_mm : Zone → ℤ → ℕ
north_mm z lat_e7 = distance lat_e7 z.lat_e7 * 111320 / 10000

abbrev pub east_mm : Zone → ℤ → ℕ
east_mm z lon_e7 = distance lon_e7 z.lon_e7 * 111320 / 10000 * cosine z.lat_e7 / 32768

abbrev pub within : ℕ → ℕ → ℕ → Bool
within n e r = leb (n * n + e * e) (r * r)

i64_fits : (n : ℕ) → n < 2 ^ 63 → i64 n ≡ some n
unfolding i64
i64_fits n h = ground (arith, h)

square_le : (x y : ℕ) → x + y ≡ 90000 → x * (180000 - x) ≤ 8100000000
square_le x y h =
    let e : 180000 - x ≡ x + 2 * y = omega arith in
    let sq : (x + y) * (x + y) ≡ 90000 * 90000 = rw h refl in rw e (omega (arith, sq))

cos_square-le : (lat : ℤ) → cos_square lat ≤ 8100000000
unfolding cos_square
cos_square-le lat =
    let a = min (magnitude lat / 10000) 90000 in square_le (90000 - a) a (omega arith)

cosine-le : (lat : ℤ) → cosine lat ≤ 32768
cosine-le lat =
    let p = cos_square lat in
    let below = cos_square-le lat in div-le_of_le-mul (40500000000 - p) (omega (arith, below))

cos_lat_q15-eq-cosine : (lat : ℤ) → cos_lat_q15 lat ≡ some (cosine lat)
unfolding cos_lat_q15 quotient cos_square
cos_lat_q15-eq-cosine lat =
    let below = cos_square-le lat in
    let le = cosine-le lat in
    let p = cos_square lat in
    rw
      (
        i64_fits p (omega (arith, below)),
        i64_fits (4 * p) (omega (arith, below)),
        i64_fits (4 * p * 32768) (omega (arith, below)),
      )
      (ground (arith, below, le))

distance-le : (a b : ℤ) → IsI32 a → IsI32 b → distance a b ≤ 4294967295
distance-le (pos a) (pos b) ha hb = omega arith
distance-le (pos a) (negsuc b) ha hb = omega arith
distance-le (negsuc a) (pos b) ha hb = omega arith
distance-le (negsuc a) (negsuc b) ha hb = omega arith

scaled-le : (d : ℕ) → d ≤ 4294967295 → d * 111320 / 10000 ≤ 47811575940
scaled-le d h = omega arith

-- A point outside the box is outside the circle.
outside : (n e r : ℕ) → (ltb r n || ltb r e) ≡ true → within n e r ≡ false
outside n e r far = elim (Bool-cases (ltb r n)) [
  | inl north ↦
      let h : r + 1 ≤ n = ground (arith, north) in
      let sq = mul-le-mul h h in
      let more : r * r < (r + 1) * (r + 1) = grind arith in ground (arith, sq, more)
  | inr south ↦
      let e_far : ltb r e ≡ true = rw south at far in
      let h : r + 1 ≤ e = ground (arith, e_far) in
      let sq = mul-le-mul h h in
      let more : r * r < (r + 1) * (r + 1) = grind arith in ground (arith, sq, more)
]

-- The test of the squares inside the box, which does not overflow.
inside :
    (n e r : ℕ)
    → r ≤ 1000000000
    → (ltb r n || ltb r e) ≡ false
    → in_circle n e r ≡ some (within n e r)
unfolding in_circle
inside n e r small near =
    let hn : n ≤ 1000000000 = ground (arith, near, small) in
    let he : e ≤ 1000000000 = ground (arith, near, small) in
    let nn = mul-le-mul hn hn in
    let ee = mul-le-mul he he in
    let rr = mul-le-mul small small in
    rw
      (
        i64_fits (n * n) (omega (arith, nn)),
        i64_fits (e * e) (omega (arith, ee)),
        i64_fits (n * n + e * e) (omega (arith, nn, ee)),
        i64_fits (r * r) (omega (arith, rr)),
      )
      refl

boxed :
    (n e r : ℕ)
    → r ≤ 1000000000
    → (if ltb r n || ltb r e then some false else in_circle n e r) ≡ some (within n e r)
boxed n e r small = elim (Bool-cases (ltb r n || ltb r e)) [
  | inl far ↦ rw (far, outside n e r far) refl
  | inr near ↦ rw near (inside n e r small near)
]

-- For a zone that `parse_zone` accepts and a point of i32 coordinates, no product, sum or quotient that
-- `Zone::contains` computes overflows an i64, those of the cosine included, whose divisor is positive:
-- it answers. Its answer is that of the squares alone, in numbers that do not overflow: the box around
-- the fence rejects no point that is inside it.
pub contains_fits :
    (z : Zone) (lat_e7 lon_e7 : ℤ)
    → ZoneFits z
    → IsI32 lat_e7
    → IsI32 lon_e7
    → contains z lat_e7 lon_e7
      ≡ some (within (north_mm z lat_e7) (east_mm z lon_e7) (z.radius_m * 1000))
unfolding contains
contains_fits z lat_e7 lon_e7 (zlat, zlon, small) hlat hlon =
    let dlat = distance-le lat_e7 z.lat_e7 hlat zlat in
    let dlon = distance-le lon_e7 z.lon_e7 hlon zlon in
    let c = cosine-le z.lat_e7 in
    let east = mul-le-mul (scaled-le (distance lon_e7 z.lon_e7) dlon) c in
    let r : z.radius_m * 1000 ≤ 1000000000 = omega (arith, small) in
    rw
      (
        i64_fits (distance lat_e7 z.lat_e7 * 111320) (omega (arith, dlat)),
        cos_lat_q15-eq-cosine z.lat_e7,
        i64_fits (distance lon_e7 z.lon_e7 * 111320) (omega (arith, dlon)),
        i64_fits (distance lon_e7 z.lon_e7 * 111320 / 10000 * cosine z.lat_e7)
            (omega (arith, east)),
        i64_fits (z.radius_m * 1000) (omega (arith, small)),
      )
      (boxed (north_mm z lat_e7) (east_mm z lon_e7) (z.radius_m * 1000) r)

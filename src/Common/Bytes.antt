-- ===== src/Common/Bytes.antt =====
-- Little-endian words in byte strings, slices, and the lists that they are cut from.
use Prim.Native.Nat.{ℕ, zero, suc, ◌+◌, ◌-◌, ◌*◌, ◌/◌, ◌%◌, ◌<◌, ◌≤◌}
use mathlib.Core.Path.{◌≡◌, refl, ap}
use mathlib.Core.List.{List, [], ◌∷◌, ◌++◌}
use native.Mathlib.Omega.{arith}
use ephemerkey.Common.Lists.{length, take, drop, get_or, replicate}

abbrev pub u32_bytes : ℕ → List ℕ
u32_bytes v = v % 256 ∷ v / 256 % 256 ∷ v / 65536 % 256 ∷ v / 16777216 % 256 ∷ []

abbrev pub u64_bytes : ℕ → List ℕ
u64_bytes v = u32_bytes (v % 4294967296) ++ u32_bytes (v / 4294967296 % 4294967296)

abbrev pub get_u32 : List ℕ → ℕ
get_u32 b = get_or b 0 0 + get_or b 1 0 * 256 + get_or b 2 0 * 65536 + get_or b 3 0 * 16777216

abbrev pub get_u64 : List ℕ → ℕ
get_u64 b = get_u32 b + get_u32 (drop 4 b) * 4294967296

-- `&xs[a..b]`, in range.
abbrev pub slice {ℓ} : {A : Type ℓ} → ℕ → ℕ → List A → List A
slice a b xs = take (b - a) (drop a xs)

pub get_u32-u32_bytes : (v : ℕ) (rest : List ℕ) → v < 4294967296 → get_u32 (u32_bytes v ++ rest) ≡ v
get_u32-u32_bytes v rest h = omega arith

pub get_u64-u64_bytes :
    (v : ℕ) (rest : List ℕ) → v < 18446744073709551616 → get_u64 (u64_bytes v ++ rest) ≡ v
get_u64-u64_bytes v rest h = omega arith

module _ {A : Type 0} where
  pub take-append : (xs ys : List A) → take (length xs) (xs ++ ys) ≡ xs
  take-append [] ys = refl
  take-append (x ∷ xs) ys = ap (λ l. x ∷ l) (take-append xs ys)

  pub drop-append : (xs ys : List A) (n : ℕ) → drop (length xs + n) (xs ++ ys) ≡ drop n ys
  drop-append [] ys n = ap (λ k. drop k ys) (omega arith)
  drop-append (x ∷ xs) ys n =
      let k : length (x ∷ xs) + n ≡ suc (length xs + n) = omega arith in rw k (drop-append xs ys n)

  pub drop-length : (xs ys : List A) → drop (length xs) (xs ++ ys) ≡ ys
  drop-length [] ys = refl
  drop-length (x ∷ xs) ys = drop-length xs ys

  pub get_or-append :
      (xs ys : List A) (n : ℕ) (d : A) → get_or (xs ++ ys) (length xs + n) d ≡ get_or ys n d
  get_or-append [] ys n d = ap (λ k. get_or ys k d) (omega arith)
  get_or-append (x ∷ xs) ys n d =
      let k : length (x ∷ xs) + n ≡ suc (length xs + n) = omega arith in
      rw k (get_or-append xs ys n d)

  pub length-drop : (n : ℕ) (xs : List A) → length (drop n xs) ≡ length xs - n
  length-drop zero xs = omega arith
  length-drop (suc n) [] = omega arith
  length-drop (suc n) (x ∷ xs) = omega (arith, length-drop n xs)

  pub length-replicate : (n : ℕ) (x : A) → length (replicate n x) ≡ n
  length-replicate zero x = refl
  length-replicate (suc n) x = ap suc (length-replicate n x)

  pub length-take : (n : ℕ) (xs : List A) → n ≤ length xs → length (take n xs) ≡ n
  length-take zero xs h = refl
  length-take (suc n) [] h = absurd (omega arith)
  length-take (suc n) (x ∷ xs) h = ap suc (length-take n xs (omega arith))

  -- A slice that starts where the first part ends and spans the second.
  pub slice_middle :
      (xs ys zs : List A) (a b : ℕ)
      → a ≡ length xs
      → b ≡ a + length ys
      → slice a b (xs ++ (ys ++ zs)) ≡ ys
  slice_middle xs ys zs a b h k =
      let span : b - a ≡ length ys = omega arith in
      let start : a ≡ length xs + 0 = omega arith in
      rw (span, start, drop-append xs (ys ++ zs) 0) (take-append ys zs)

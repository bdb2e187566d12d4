-- ===== src/Slots/Mask.antt =====
-- The mask of the quorum keys that have contributed: laws of its bits, by evaluation over its range.
use ephemerkey.Common.{
  ℕ, ◌≡◌, ◌≢◌, ◌<◌, ◌↔◌, arith, refl, bit_or, bit_and, Bool, true, ltb, ◌==◌, ◌&&◌, not,
  if◌then◌else◌,
}
use ephemerkey.Common.Tables.{check_below, check_below_holds}
use ephemerkey.Slots.{key_bit}

-- Setting the bit of key `k` in a mask of four bits sets no other one.
set_row : ℕ → ℕ → ℕ → Bool
set_row m k j =
    ltb (bit_or m (key_bit k)) 16
    && (if j == k
        then not (bit_and (bit_or m (key_bit k)) (key_bit j) == 0)
        else if bit_and m (key_bit j) == 0
        then bit_and (bit_or m (key_bit k)) (key_bit j) == 0
        else not (bit_and (bit_or m (key_bit k)) (key_bit j) == 0))

set_table : check_below 16 (λ m. check_below 4 (λ k. check_below 4 (λ j. set_row m k j))) ≡ true
unfolding check_below set_row
set_table = refl

set_row_holds : (m k j : ℕ) → m < 16 → k < 4 → j < 4 → set_row m k j ≡ true
set_row_holds m k j hm hk hj =
    check_below_holds 4 _ j (check_below_holds 4 _ k (check_below_holds 16 _ m set_table hm) hk) hj

module _ (m k j : ℕ) (hm : m < 16) (hk : k < 4) (hj : j < 4) where
  pub set-lt : bit_or m (key_bit k) < 16
  unfolding set_row
  set-lt = ground (arith, set_row_holds m k j hm hk hj)

  pub set-bit :
      (bit_and (bit_or m (key_bit k)) (key_bit j) ≡ 0) ↔ ((k ≢ j) × (bit_and m (key_bit j) ≡ 0))
  unfolding set_row
  set-bit = (
    λ z. (
      λ e. ground (arith, set_row_holds m k j hm hk hj, e),
      ground (arith, set_row_holds m k j hm hk hj),
    ),
    λ (n, z). ground (arith, set_row_holds m k j hm hk hj),
  )

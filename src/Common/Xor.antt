-- ===== src/Common/Xor.antt =====
-- Exclusive or stays in a word.
use Prim.Native.Nat.{
  ℕ, zero, suc, ◌*◌, ◌/◌, ◌%◌, ◌^◌, ◌<◌, ◌≤◌, bit_xor, bit_xor-bitwise, digits, differ,
}
use mathlib.Core.Path.{◌≡◌}
use native.Mathlib.Omega.{arith}

differ-le_one : (x y : ℕ) → x < 2 → y < 2 → differ x y ≤ 1
differ-le_one zero y h k = omega arith
differ-le_one (suc zero) zero h k = omega arith
differ-le_one (suc zero) (suc zero) h k = omega arith
differ-le_one (suc zero) (suc (suc y)) h k = absurd (omega arith)
differ-le_one (suc (suc x)) y h k = absurd (omega arith)

pow2-suc : (k : ℕ) → 2 ^ suc k ≡ 2 * 2 ^ k
pow2-suc k = omega arith

xor_digits-lt : (n k a b : ℕ) → a < 2 ^ k → b < 2 ^ k → digits (λ b. b) differ n a b < 2 ^ k
xor_digits-lt zero k a b h l = l
xor_digits-lt (suc n) k zero b h l = l
xor_digits-lt (suc n) zero (suc a) b h l = absurd (omega arith)
xor_digits-lt (suc n) (suc k) (suc a) b h l = omega (
  arith,
  pow2-suc k,
  xor_digits-lt n k (suc a / 2) (b / 2) (omega (arith, pow2-suc k)) (omega (arith, pow2-suc k)),
  differ-le_one (suc a % 2) (b % 2) (omega arith) (omega arith),
)

pub bit_xor-lt : (k a b : ℕ) → a < 2 ^ k → b < 2 ^ k → bit_xor a b < 2 ^ k
bit_xor-lt k a b h l = omega (arith, bit_xor-bitwise a b, xor_digits-lt a k a b h l)

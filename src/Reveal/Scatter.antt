-- ===== src/Reveal/Scatter.antt =====
-- The order in which the digits of a code are shown: `scatter_order` of
-- firmware/ephemerkey-core/src/reveal.rs.
use native.Mathlib.Decide.{ℕ_discrete}
use ephemerkey.Common.{
  ℕ, zero, suc, ◌+◌, ◌%◌, ◌≡◌, ◌≤◌, ◌<◌, refl, sym, some, update, arith, bit_or, ◌∙◌, ap,
}
use ephemerkey.Slots.{xorshift32}
use ephemerkey.Totp.{max_digits}
use ephemerkey.Reveal.{swap, shuffle, scatter_order}

-- Below `n`, `f` takes every value below `n` exactly once.
pub record Permutes (n : ℕ) (f : ℕ → ℕ) : Type 0 where
  pub below : (i : ℕ) → i < n → f i < n
  pub once : (i j : ℕ) → i < n → j < n → f i ≡ f j → i ≡ j
  pub every : (k : ℕ) → k < n → (i : ℕ) × (i < n) × (f i ≡ k)

identity-Permutes : (n : ℕ) → Permutes n (λ i. i)
identity-Permutes n = record {
  below = λ i lt. lt;
  once = λ i j a b e. e;
  every = λ k lt. (k, lt, refl);
}

module _ (n a b : ℕ) (f : ℕ → ℕ) (la : a < n) (lb : b < n) where
  -- A swap moves the value at `i` to the place of `i` under the exchange of `a` and `b`.
  abbrev moved : ℕ → ℕ
  moved i = update (update (λ j. j) a b) b a i

  swap-moved : (i : ℕ) → swap f a b i ≡ f (moved i)
  swap-moved i = elim (ℕ_discrete i b) [
    | yes e ↦ rw e (ground arith)
    | no other ↦ elim (ℕ_discrete i a) [
      | yes e ↦ ground (arith, other, e)
      | no neither ↦ ground (arith, other, neither)
    ]
  ]

  moved-lt : (i : ℕ) → i < n → moved i < n
  moved-lt i lt = ground (arith, la, lb, lt)

  moved_back : (i : ℕ) → moved (moved i) ≡ i
  moved_back i = ground arith

  swap-Permutes : Permutes n f → Permutes n (swap f a b)
  swap-Permutes p = record {
    below = λ i lt. rw (swap-moved i) (p.below (moved i) (moved-lt i lt));
    once = λ i j li lj e.
        let q : f (moved i) ≡ f (moved j) = sym (swap-moved i) ∙ (e ∙ swap-moved j) in
        let m : moved i ≡ moved j = p.once (moved i) (moved j) (moved-lt i li) (moved-lt j lj) q in
        sym (moved_back i) ∙ (ap moved m ∙ moved_back j);
    every = λ k lt.
        let (i, li, e) = p.every k lt in
        (moved i, moved-lt i li, swap-moved (moved i) ∙ (ap f (moved_back i) ∙ e));
  }

shuffle-Permutes : (n i s : ℕ) (f : ℕ → ℕ) → i < n → Permutes n f → Permutes n (shuffle i s f)
unfolding shuffle
shuffle-Permutes n zero s f lt p = p
shuffle-Permutes n (suc i) s f lt p =
    shuffle-Permutes n i (xorshift32 s) (swap f (suc i) (xorshift32 s % (suc i + 1))) (omega arith)
      (swap-Permutes n (suc i) (xorshift32 s % (suc i + 1)) f lt (omega arith) p)

-- For a code of at most ten digits and any entropy, the order is found without a panic, and it shows
-- every digit of the code exactly once.
pub scatter_order-Permutes :
    (digits seed : ℕ)
    → digits ≤ max_digits
    → (order : ℕ → ℕ) × (scatter_order digits seed ≡ some order) × Permutes digits order
unfolding scatter_order
scatter_order-Permutes zero seed le = (λ i. i, refl, identity-Permutes 0)
scatter_order-Permutes (suc n) seed le = (
  shuffle n (bit_or seed 1) (λ i. i),
  ground (arith, le),
  shuffle-Permutes (suc n) n (bit_or seed 1) (λ i. i) (omega arith) (identity-Permutes (suc n)),
)

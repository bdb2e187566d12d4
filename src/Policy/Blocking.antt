-- ===== src/Policy/Blocking.antt =====
-- What `Gates.block` reports.
use ephemerkey.Common.{◌≡◌, ◌≤◌, ◌↔◌, ℕ, Bool, true, false, none, some, Option, arith}
use ephemerkey.Policy.{Gates, Sensors, block, shut}

-- An optional gate lets codes through: it is not configured, or its question is answered with yes.
abbrev pub Passes : Option ℕ → (ℕ → Bool) → Type 0
Passes o is_open = (x : ℕ) → o ≡ some x → is_open x ≡ true

shut-Passes : (o : Option ℕ) (is_open : ℕ → Bool) → (shut o is_open ≡ false) ↔ Passes o is_open
shut-Passes none is_open = (λ _ x e. cc, λ _. refl')
  where
    refl' : shut none is_open ≡ false
    refl' = ground arith
shut-Passes (some x) is_open = (λ h y e. ground arith, λ p. ground (arith, p x))

-- No gate is reported exactly when all three let codes through: the fence question is answered
-- with yes where a fence is configured, the lock has been still for `stillness_s`, and the calendar
-- question is answered with yes where a window is configured.
pub block-none :
    (g : Gates) (env : Sensors)
    → (block g env ≡ none) ↔ (
        Passes g.own_fence env.inside_fence
        × (g.stillness_s ≤ env.still_for_s)
        × Passes g.calendar env.calendar_open)
unfolding block
block-none g env = (
  λ h. (
    (shut-Passes g.own_fence env.inside_fence).0 (ground arith),
    ground arith,
    (shut-Passes g.calendar env.calendar_open).0 (ground arith),
  ),
  λ (f, s, c). ground (
    arith,
    (shut-Passes g.own_fence env.inside_fence).1 f,
    (shut-Passes g.calendar env.calendar_open).1 c,
  ),
)

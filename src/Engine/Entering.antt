-- ===== src/Engine/Entering.antt =====
-- `enter_code_with` returns, and has the effect of the outcome that it reports.
use mathlib.Core.Path.{subst}
use ephemerkey.Common.{ℕ, ◌≡◌, Option, none, some, List, [], ◌∷◌, u32, sym, Run, All, refl}
use ephemerkey.Policy.{Sensors, Slot}
use ephemerkey.Engine.{LockEngine, Outcome, each, slot_range}
use ephemerkey.Engine.Clock.{tick, for_each}
use ephemerkey.Engine.Enter.{
  veto_slot, enter_slot, reset_if, reset_invalid, no_match, or_else, after_tick, enter_code_with,
}
use ephemerkey.Engine.Frame.{
  Ends, Ends-some, Ends-bind, Configured, ReceiptsOk, Quiet, Quiet-refl, Quiet-Configured,
}
use ephemerkey.Engine.Quietly.{branch-Quiet, for_each-Quiet, reset_slot-Quiet, tick-Quiet}
use ephemerkey.Engine.Effect.{Entered}
use ephemerkey.Engine.Accepting.{Stepped}
use ephemerkey.Engine.PerSlot.{each_ends, Quiet-Entered, enter_slot_ends, veto_slot_ends}

All-slots : (is : List ℕ) → All (λ _. Unit {0}) is
All-slots [] = tt
All-slots (i ∷ is) = (tt, All-slots is)

module _ (hmac : List ℕ → List ℕ → List ℕ) (entered : List ℕ) (now : ℕ) (env : Sensors) where
  reset_if-Quiet :
      (i : ℕ) (o : Option Slot) (e : LockEngine)
      → ReceiptsOk e.receipts
      → Ends (reset_if hmac (u32 now) i o e) (Quiet e)
  unfolding reset_if
  reset_if-Quiet i none e ok = Quiet-refl e
  reset_if-Quiet i (some slot) e ok =
      branch-Quiet hmac e slot.reset_on_invalid _ _ (reset_slot-Quiet hmac i (u32 now) e ok)
        (Quiet-refl e)

  reset_invalid-Quiet :
      (i : ℕ) (e : LockEngine)
      → ReceiptsOk e.receipts
      → Ends (reset_invalid hmac (u32 now) i e) (Quiet e)
  unfolding reset_invalid
  reset_invalid-Quiet i e ok = reset_if-Quiet i (e.slots i) e ok

  no_match_ends :
      (e : LockEngine)
      → ReceiptsOk e.receipts
      → Ends (no_match hmac (u32 now) e) (λ (e', o). Entered hmac entered now env e e' o)
  unfolding no_match
  no_match_ends e ok =
      Ends-bind (for_each slot_range (reset_invalid hmac (u32 now)) e) _ (Quiet e) _
        (for_each-Quiet hmac slot_range _ e reset_invalid-Quiet ok)
        (λ e1 q. Quiet-Entered hmac entered now env e e1 Outcome.invalid q (λ j. refl) q)

  abbrev Done : LockEngine → LockEngine × Outcome → Type 0
  Done e (e', o) = Entered hmac entered now env e e' o

  after_loop :
      (e : LockEngine) (r : LockEngine × Option Outcome)
      (rest : LockEngine → Run (LockEngine × Outcome))
      → Stepped hmac entered now env e r
      → Ends (rest e) (Done e)
      → Ends (or_else hmac r rest) (Done e)
  after_loop e (e', none) rest s h = subst (λ k. Ends (rest k) (Done e)) (sym s) h
  after_loop e (e', some o) rest s h = s

  pub after_tick_ends :
      (e : LockEngine) → Configured e → Ends (after_tick hmac entered now env e) (Done e)
  unfolding after_tick
  after_tick_ends e c =
      Ends-bind (each slot_range (veto_slot hmac entered now) e) _ (Stepped hmac entered now env e)
        (Done e)
        (each_ends hmac entered now env (λ _. Unit {0}) slot_range _ e (All-slots slot_range)
          (λ i _. veto_slot_ends hmac entered now env e c i))
        (λ r0 s0. after_loop e r0 _ s0 (
          Ends-bind (each slot_range (enter_slot hmac entered now env) e) _
            (Stepped hmac entered now env e) (Done e)
            (each_ends hmac entered now env (λ _. Unit {0}) slot_range _ e (All-slots slot_range)
              (λ i _. enter_slot_ends hmac entered now env e c i))
            (λ r1 s1. after_loop e r1 _ s1 (no_match_ends e c.receipts_ok))))

  -- For a configuration with table indices in range, secrets that fit and at most 10 digits, every
  -- entered code returns at every time: it ticks the engine, which keeps the configuration, the
  -- watermarks and the lockouts, and then has the effect of the outcome that it reports. Only a taken
  -- code raises a watermark, that of its slot, to a counter in the slot's delay window at which a
  -- candidate key of the slot mints the code, with its gates open and no lockout running; every other
  -- watermark stays. A replay is such a code, fed to a quorum that has its key, or one whose counter
  -- is not above the watermark, which leaves the ticked engine as it is, as a gated or locked-out code
  -- does. A negative outcome comes of the decoy of a candidate key, and leaves the slot reset or
  -- locked out as its policy says; a veto of an armed slot's veto key, and disarms that slot alone.
  pub enter_code_with-Entered :
      (e : LockEngine)
      → Configured e
      → (e0 e' : LockEngine) × (o : Outcome) × (tick hmac now e ≡ some e0)
        × (enter_code_with hmac entered now env e ≡ some (e', o))
        × Quiet e e0
        × Entered hmac entered now env e0 e' o
  unfolding enter_code_with
  enter_code_with-Entered e c =
      let (e0, t, q) =
        Ends-some (tick hmac now e) (Quiet e) (tick-Quiet hmac now e c.receipts_ok) in
      let ((e', o), r, d) =
        Ends-some (after_tick hmac entered now env e0) (Done e0)
          (after_tick_ends e0 (Quiet-Configured c q)) in
      (e0, e', o, t, rw t r, q, d)

-- ===== src/Engine/History.antt =====
-- Runs of the engine: any sequence of entered codes, ticks, attestations and pickups.
use mathlib.Core.Path.{subst}
use native.Mathlib.Decide.{ℕ_discrete}
use ephemerkey.Common.{ℕ, ◌≡◌, ◌≤◌, ◌<◌, some, List, [], ◌∷◌, arith, ap, ◌+◌, ◌-◌, inl, inr}
use ephemerkey.Policy.{Action, Sensors}
use ephemerkey.Engine.{LockEngine, Outcome, take_fires, take_relocks, take_receipt}
use ephemerkey.Engine.Clock.{attest, tick}
use ephemerkey.Engine.Enter.{enter_code_with}
use ephemerkey.Engine.Frame.{Configured, Quiet, pending}
use ephemerkey.Engine.Effect.{Took, Effect, Entered, fires_of}
use ephemerkey.Engine.Entering.{enter_code_with-Entered}

-- The outcomes by which slot `i` takes a code.
abbrev pub Takes : ℕ → Outcome → Type 0
Takes i (Outcome.progress j have need) = j ≡ i
Takes i (Outcome.fired j a) = j ≡ i
Takes i (Outcome.reset j) = j ≡ i
Takes i (Outcome.beat j) = j ≡ i
Takes i (Outcome.armed j t) = j ≡ i
Takes i (Outcome.exhausted j) = j ≡ i
Takes i (Outcome.replay j) = ⊥
Takes i (Outcome.negative j a) = ⊥
Takes i (Outcome.locked_out j) = ⊥
Takes i (Outcome.gated j r) = ⊥
Takes i Outcome.invalid = ⊥
Takes i (Outcome.vetoed j) = ⊥

-- The armed fire of slot `i` that went off between two engines: pending in the first, and not in the
-- second.
abbrev pub went_off : ℕ → LockEngine → LockEngine → ℕ
went_off i e e' = pending (e.armed_until i) - pending (e'.armed_until i)

module _ (hmac : List ℕ → List ℕ → List ℕ) where
  -- A run from `e`, with the counters at which slot `i` took a code, the last one first, and the
  -- number of its fires: the outcomes that report one, and the armed fires that a tick has set off.
  pub data Ran (i : ℕ) (e : LockEngine) : List ℕ → ℕ → LockEngine → Type 0 where
    start : Ran i e [] 0 e
    took :
        {cs : List ℕ} {n : ℕ} {e1 e2 : LockEngine} {o : Outcome} (e0 : LockEngine)
        (entered : List ℕ) (now : ℕ) (env : Sensors)
        → Ran i e cs n e1
        → tick hmac now e1 ≡ some e0
        → enter_code_with hmac entered now env e1 ≡ some (e2, o)
        → Takes i o
        → Ran i e (e2.burned i ∷ cs) (fires_of i o + (went_off i e1 e0 + n)) e2
    passed :
        {cs : List ℕ} {n : ℕ} {e1 e2 : LockEngine} {o : Outcome} (e0 : LockEngine)
        (entered : List ℕ) (now : ℕ) (env : Sensors)
        → Ran i e cs n e1
        → tick hmac now e1 ≡ some e0
        → enter_code_with hmac entered now env e1 ≡ some (e2, o)
        → ¬ (Takes i o)
        → Ran i e cs (fires_of i o + (went_off i e1 e0 + n)) e2
    ticked :
        {cs : List ℕ} {n : ℕ} {e1 e2 : LockEngine} (now : ℕ)
        → Ran i e cs n e1
        → tick hmac now e1 ≡ some e2
        → Ran i e cs (went_off i e1 e2 + n) e2
    attested :
        {cs : List ℕ} {n : ℕ} {e1 e2 : LockEngine} (a : Action) (now : ℕ)
        → Ran i e cs n e1
        → attest hmac e1 a now ≡ some e2
        → Ran i e cs n e2
    picked_fires :
        {cs : List ℕ} {n : ℕ} {e1 : LockEngine} → Ran i e cs n e1 → Ran i e cs n (take_fires e1).0
    picked_relocks :
        {cs : List ℕ} {n : ℕ} {e1 : LockEngine} → Ran i e cs n e1 → Ran i e cs n (take_relocks e1).0
    picked_receipt :
        {cs : List ℕ} {n : ℕ} {e1 : LockEngine} → Ran i e cs n e1 → Ran i e cs n (take_receipt e1).0

  module _ (entered : List ℕ) (now : ℕ) (env : Sensors) where
    Took-mono :
        (e e' : LockEngine) (i j : ℕ) → Took hmac entered now env e e' j → e.burned i ≤ e'.burned i
    Took-mono e e' i j t = elim (ℕ_discrete i j) [
      | yes same ↦ rw same (omega (arith, t.grew))
      | no other ↦ omega (arith, t.others i other)
    ]

    same_mono : (e e' : LockEngine) (i : ℕ) → e'.burned ≡ e.burned → e.burned i ≤ e'.burned i
    same_mono e e' i q = let h : e'.burned i ≡ e.burned i = ap (λ g. g i) q in omega arith

    -- No outcome lowers a watermark.
    pub Effect-mono :
        (e e' : LockEngine) (i : ℕ) (o : Outcome)
        → Effect hmac entered now env e e' o
        → e.burned i ≤ e'.burned i
    Effect-mono e e' i (Outcome.progress j h n) f = Took-mono e e' i j f
    Effect-mono e e' i (Outcome.fired j a) f = Took-mono e e' i j f
    Effect-mono e e' i (Outcome.reset j) f = Took-mono e e' i j f
    Effect-mono e e' i (Outcome.beat j) f = Took-mono e e' i j f
    Effect-mono e e' i (Outcome.armed j t) f = Took-mono e e' i j f
    Effect-mono e e' i (Outcome.exhausted j) f = Took-mono e e' i j f
    Effect-mono e e' i (Outcome.replay j) (inl f) =
        same_mono e e' i (ap (λ (x : LockEngine). x.burned) f.kept)
    Effect-mono e e' i (Outcome.replay j) (inr f) = Took-mono e e' i j f
    Effect-mono e e' i (Outcome.negative j a) (slot, d, n, same, p) = same_mono e e' i same
    Effect-mono e e' i (Outcome.locked_out j) f =
        same_mono e e' i (ap (λ (x : LockEngine). x.burned) f)
    Effect-mono e e' i (Outcome.gated j r) f =
        same_mono e e' i (ap (λ (x : LockEngine). x.burned) f.0)
    Effect-mono e e' i Outcome.invalid f = same_mono e e' i f.burned_eq
    Effect-mono e e' i (Outcome.vetoed j) f =
        same_mono e e' i (ap (λ (x : LockEngine). x.burned) f.disarmed)

    Took-grows :
        (e e' : LockEngine) (i j : ℕ)
        → Took hmac entered now env e e' j
        → j ≡ i
        → e.burned i < e'.burned i
    Took-grows e e' i j t q = subst (λ k. e.burned k < e'.burned k) q t.grew

    pub Takes-grows :
        (e e' : LockEngine) (i : ℕ) (o : Outcome)
        → Effect hmac entered now env e e' o
        → Takes i o
        → e.burned i < e'.burned i
    Takes-grows e e' i (Outcome.progress j h n) f t = Took-grows e e' i j f t
    Takes-grows e e' i (Outcome.fired j a) f t = Took-grows e e' i j f t
    Takes-grows e e' i (Outcome.reset j) f t = Took-grows e e' i j f t
    Takes-grows e e' i (Outcome.beat j) f t = Took-grows e e' i j f t
    Takes-grows e e' i (Outcome.armed j u) f t = Took-grows e e' i j f t
    Takes-grows e e' i (Outcome.exhausted j) f t = Took-grows e e' i j f t
    Takes-grows e e' i (Outcome.replay j) f t = absurd t
    Takes-grows e e' i (Outcome.negative j a) f t = absurd t
    Takes-grows e e' i (Outcome.locked_out j) f t = absurd t
    Takes-grows e e' i (Outcome.gated j r) f t = absurd t
    Takes-grows e e' i Outcome.invalid f t = absurd t
    Takes-grows e e' i (Outcome.vetoed j) f t = absurd t

    -- What is known of a call that returned.
    pub entered_effect :
        (e e' : LockEngine) (o : Outcome)
        → Configured e
        → enter_code_with hmac entered now env e ≡ some (e', o)
        → (e0 : LockEngine) × (tick hmac now e ≡ some e0)
          × Quiet e e0
          × Entered hmac entered now env e0 e' o
    entered_effect e e' o c run =
        let (e0, e1, o1, t, r, q, d) = enter_code_with-Entered hmac entered now env e c in
        let same : ◌≡◌ {A = LockEngine × Outcome} (e1, o1) (e', o) = cc in
        (
          e0,
          t,
          q,
          subst (λ (p : LockEngine × Outcome). Entered hmac entered now env e0 p.0 p.1) same d,
        )

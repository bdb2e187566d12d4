-- ===== src/Engine/Accepting.antt =====
-- From a matched counter to the outcome: `matched`, `accept`, `conclude` and `fire` return, and have
-- the effect of the outcome that they report.
use mathlib.Core.Path.{subst}
use ephemerkey.Common.{
  ℕ, ◌≡◌, ◌≢◌, ◌≤◌, ◌<◌, true, false, Option, none, some, List, leb, ltb, ◌&&◌, u32, update, refl,
  sym, ◌∙◌, arith, Bool-cases, inl, inr, ap, ◌+◌, ◌==◌, if◌then◌else◌, leb→le,
}
use ephemerkey.Policy.{Action, GateBlock, Sensors, Slot, block}
use ephemerkey.Slots.{SlotState, Verdict, on_code}
use ephemerkey.Engine.{LockEngine, Outcome, one_more}
use ephemerkey.Engine.Clock.{mint_receipt}
use ephemerkey.Engine.Enter.{fire, conclude, accept, matched}
use ephemerkey.Engine.Frame.{
  Ends, Ends-bind, Ends-map, ReceiptsOk, BudgetOk, Budgeted, Counts, Quiet, Quiet-refl, Quiet-trans,
}
use ephemerkey.Engine.Quietly.{mint_receipt-Quiet}
use ephemerkey.Engine.Effect.{Took, Matched, Effect, Entered, fires_of}

-- The outcomes of a code that was fed to the state machine of slot `i`.
abbrev Concludes : ℕ → Option Outcome → Type 0
Concludes i none = ⊥
Concludes i (some (Outcome.progress j h n)) = j ≡ i
Concludes i (some (Outcome.fired j a)) = j ≡ i
Concludes i (some (Outcome.reset j)) = j ≡ i
Concludes i (some (Outcome.beat j)) = j ≡ i
Concludes i (some (Outcome.armed j t)) = j ≡ i
Concludes i (some (Outcome.exhausted j)) = j ≡ i
Concludes i (some (Outcome.replay j)) = j ≡ i
Concludes i (some (Outcome.negative j a)) = ⊥
Concludes i (some (Outcome.locked_out j)) = ⊥
Concludes i (some (Outcome.gated j r)) = ⊥
Concludes i (some Outcome.invalid) = ⊥
Concludes i (some (Outcome.vetoed j)) = ⊥

-- The fires of slot `i` among what a round reports.
abbrev shots : ℕ → Option Outcome → ℕ
shots i none = 0
shots i (some o) = fires_of i o

-- Every fire that is reported is counted.
abbrev Shoots : LockEngine → LockEngine × Option Outcome → Type 0
Shoots e (e', o) =
    BudgetOk e → (j : ℕ) → Budgeted e j → e.fired_count j + shots j o ≤ e'.fired_count j

on_code-ne-negative :
    (st : SlotState) (slot : Slot) (k c t : ℕ) → (on_code st slot k c t).1 ≢ Verdict.negative
unfolding on_code
on_code-ne-negative st slot k c t e = ground arith

module _ (hmac : List ℕ → List ℕ → List ℕ) where
  abbrev Concluded : ℕ → LockEngine → LockEngine × Option Outcome → Type 0
  Concluded i e (e', o) = Quiet e e' × Concludes i o × Shoots e (e', o)

  armed-BudgetOk :
      (e : LockEngine) (i t : ℕ) (slot : Slot)
      → e.slots i ≡ some slot
      → (ltb 0 slot.budget && leb slot.budget (e.fired_count i)) ≡ false
      → ltb 0 slot.veto_delay_s ≡ true
      → BudgetOk e
      → BudgetOk (record e { armed_until = update e.armed_until i (some t) })
  armed-BudgetOk e i t slot at left veto b j slot' at' = ground (arith, b j slot' at')

  fired-BudgetOk :
      (e : LockEngine) (i : ℕ) (slot : Slot)
      → e.slots i ≡ some slot
      → (ltb 0 slot.budget && leb slot.budget (e.fired_count i)) ≡ false
      → ltb 0 slot.veto_delay_s ≡ false
      → BudgetOk e
      → BudgetOk (record e { fired_count = update e.fired_count i (one_more (e.fired_count i)) })
  fired-BudgetOk e i slot at left veto b j slot' at' = ground (arith, b j slot' at')

  -- A fire within the budget moves the count of its slot by one, and no other.
  fired-once :
      (e : LockEngine) (i : ℕ) (slot : Slot)
      → e.slots i ≡ some slot
      → (ltb 0 slot.budget && leb slot.budget (e.fired_count i)) ≡ false
      → BudgetOk e
      → (j : ℕ) → Budgeted e j
      → e.fired_count j + (if i == j then 1 else 0)
        ≤ update e.fired_count i (one_more (e.fired_count i)) j
  fired-once e i slot at left b j (slot', at', pos, small) =
      let budget = (b j slot' at').0 pos in ground (arith, budget)

  fired-counted :
      (e : LockEngine) (i : ℕ) (slot : Slot)
      → e.slots i ≡ some slot
      → (ltb 0 slot.budget && leb slot.budget (e.fired_count i)) ≡ false
      → Counts e (record e { fired_count = update e.fired_count i (one_more (e.fired_count i)) })
  fired-counted e i slot at left b j w =
      let up = fired-once e i slot at left b j w in (omega arith, omega arith)

  fire_ends :
      (i : ℕ) (slot : Slot) (a : Action) (now : ℕ) (e : LockEngine)
      → e.slots i ≡ some slot
      → ReceiptsOk e.receipts
      → Ends (fire hmac i slot a now e) (Concluded i e)
  unfolding fire
  fire_ends i slot a now e at ok =
      elim (Bool-cases (ltb 0 slot.budget && leb slot.budget (e.fired_count i))) [
        | inl spent ↦ rw spent (Quiet-refl e, refl, λ b j w. omega arith)
        | inr left ↦ elim (Bool-cases (ltb 0 slot.veto_delay_s)) [
          | inl veto ↦
              rw (left, veto)
                (
                  record {
                    keys_eq = refl;
                    slots_eq = refl;
                    burned_eq = refl;
                    lockout_eq = refl;
                    receipts_kept = λ r. r;
                    budget_kept = armed-BudgetOk e i _ slot at left veto;
                    counts = λ b j w. (omega arith, ground arith);
                  },
                  refl,
                  λ b j w. omega arith,
                )
          | inr direct ↦
              let e1 : LockEngine = record e {
                fired_count = update e.fired_count i (one_more (e.fired_count i));
              } in
              let q1 : Quiet e e1 = record {
                keys_eq = refl;
                slots_eq = refl;
                burned_eq = refl;
                lockout_eq = refl;
                receipts_kept = λ r. r;
                budget_kept = fired-BudgetOk e i slot at left direct;
                counts = λ b j w. fired-counted e i slot at left b j w;
              } in
              rw (left, direct)
                (Ends-bind (mint_receipt hmac e1 a (u32 now)) _ (Quiet e1) (Concluded i e)
                  (mint_receipt-Quiet hmac e1 a (u32 now) ok)
                  (λ e2 q. (
                    Quiet-trans q1 q,
                    refl,
                    λ b j w.
                        let up = fired-once e i slot at left b j w in
                        let on = (q.counts (q1.budget_kept b) j w).0 in omega arith,
                  )))
        ]
      ]

  conclude_ends :
      (i : ℕ) (slot : Slot) (now : ℕ) (e : LockEngine) (v : Verdict)
      → v ≢ Verdict.negative
      → e.slots i ≡ some slot
      → ReceiptsOk e.receipts
      → Ends (conclude hmac i slot now e v) (Concluded i e)
  unfolding conclude
  conclude_ends i slot now e (Verdict.progress h n) ne at ok =
      (Quiet-refl e, refl, λ b j w. omega arith)
  conclude_ends i slot now e (Verdict.fire a) ne at ok = fire_ends i slot a now e at ok
  conclude_ends i slot now e Verdict.beat ne at ok = (Quiet-refl e, refl, λ b j w. omega arith)
  conclude_ends i slot now e Verdict.reset ne at ok = (Quiet-refl e, refl, λ b j w. omega arith)
  conclude_ends i slot now e Verdict.ignored ne at ok = (Quiet-refl e, refl, λ b j w. omega arith)
  conclude_ends i slot now e Verdict.negative ne at ok = absurd (ne refl)

module _ (hmac : List ℕ → List ℕ → List ℕ) (entered : List ℕ) (now : ℕ) (env : Sensors) where
  -- What one round of the search loops does: nothing, or the effect of the outcome it returns.
  abbrev pub Stepped : LockEngine → LockEngine × Option Outcome → Type 0
  Stepped e (e', none) = e' ≡ e
  Stepped e (e', some o) = Entered hmac entered now env e e' o

  took :
      (e e1 e' : LockEngine) (i : ℕ) (slot : Slot) (kidx counter : ℕ)
      → Matched hmac entered now env e i slot kidx counter
      → block slot.gates env ≡ none
      → e.burned i < counter
      → e1.burned ≡ update e.burned i counter
      → Quiet e1 e'
      → Took hmac entered now env e e' i
  took e e1 e' i slot kidx counter m open_gates fresh b q =
      let at : (j : ℕ) → e'.burned j ≡ update e.burned i counter j =
        λ j. ap (λ g. g j) (q.burned_eq ∙ b) in
      let now_at : e'.burned i ≡ counter = ground (arith, at i) in
      record {
        grew = ground (arith, now_at);
        others = λ j ne. ground (arith, at j, ne);
        slot = slot;
        key_index = m.key_index;
        kidx = kidx;
        key = m.key;
        code = m.code;
        slot_at = m.slot_at;
        gates_open = open_gates;
        not_locked = m.not_locked;
        candidate = m.candidate;
        key_at = m.key_at;
        parsed = m.parsed;
        in_window = rw now_at m.in_window;
        minted = rw now_at m.minted;
      }

  -- The effect of a code that was fed to the state machine of slot `i`.
  Effect-of :
      (e e' : LockEngine) (i : ℕ) (o : Outcome)
      → Took hmac entered now env e e' i
      → Concludes i (some o)
      → Effect hmac entered now env e e' o
  Effect-of e e' i (Outcome.progress j h n) t c = subst (Took hmac entered now env e e') (sym c) t
  Effect-of e e' i (Outcome.fired j a) t c = subst (Took hmac entered now env e e') (sym c) t
  Effect-of e e' i (Outcome.reset j) t c = subst (Took hmac entered now env e e') (sym c) t
  Effect-of e e' i (Outcome.beat j) t c = subst (Took hmac entered now env e e') (sym c) t
  Effect-of e e' i (Outcome.armed j t') t c = subst (Took hmac entered now env e e') (sym c) t
  Effect-of e e' i (Outcome.exhausted j) t c = subst (Took hmac entered now env e e') (sym c) t
  Effect-of e e' i (Outcome.replay j) t c = inr (subst (Took hmac entered now env e e') (sym c) t)
  Effect-of e e' i (Outcome.negative j a) t c = absurd c
  Effect-of e e' i (Outcome.locked_out j) t c = absurd c
  Effect-of e e' i (Outcome.gated j r) t c = absurd c
  Effect-of e e' i Outcome.invalid t c = absurd c
  Effect-of e e' i (Outcome.vetoed j) t c = absurd c

  concluded-Effect :
      (e e1 e' : LockEngine) (i : ℕ) (o : Option Outcome)
      → Took hmac entered now env e e' i
      → Quiet e1 e'
      → e1.keys ≡ e.keys
      → e1.slots ≡ e.slots
      → (ReceiptsOk e.receipts → ReceiptsOk e1.receipts)
      → (BudgetOk e → BudgetOk e1)
      → Concludes i o
      → Shoots e (e', o)
      → Stepped e (e', o)
  concluded-Effect e e1 e' i none t q k s r b c f = absurd c
  concluded-Effect e e1 e' i (some o) t q k s r b c f = record {
    keys_eq = q.keys_eq ∙ k;
    slots_eq = q.slots_eq ∙ s;
    receipts_kept = λ h. q.receipts_kept (r h);
    budget_kept = λ h. q.budget_kept (b h);
    fires_counted = f;
    effect = Effect-of e e' i o t c;
  }

  accept_ends :
      (i : ℕ) (slot : Slot) (kidx counter : ℕ) (e : LockEngine)
      → Matched hmac entered now env e i slot kidx counter
      → block slot.gates env ≡ none
      → e.burned i < counter
      → ReceiptsOk e.receipts
      → Ends (accept hmac i slot kidx counter now e) (Stepped e)
  unfolding accept
  accept_ends i slot kidx counter e m open_gates fresh ok =
      let (st, verdict) = on_code (e.state i) slot kidx counter (u32 now) in
      let e1 : LockEngine = record e {
        burned = update e.burned i counter;
        state = update e.state i st;
      } in
      Ends-map (conclude hmac i slot now e1 verdict) (Concluded hmac i e1) (Stepped e)
        (λ (e', o) (q, c, f).
          concluded-Effect e e1 e' i o (took e e1 e' i slot kidx counter m open_gates fresh refl q)
            q refl refl (λ r. r) (λ b. b) c f)
        (conclude_ends hmac i slot now e1 verdict
          (on_code-ne-negative (e.state i) slot kidx counter (u32 now)) m.slot_at ok)

  pub unchanged :
      (e : LockEngine) (o : Outcome)
      → ((j : ℕ) → fires_of j o ≡ 0)
      → Effect hmac entered now env e e o
      → Entered hmac entered now env e e o
  unchanged e o none_fired f = record {
    keys_eq = refl;
    slots_eq = refl;
    receipts_kept = λ r. r;
    budget_kept = λ b. b;
    fires_counted = λ b j w. omega (arith, none_fired j);
    effect = f;
  }

  pub matched_ends :
      (i : ℕ) (slot : Slot) (gate : Option GateBlock) (kidx counter : ℕ) (e : LockEngine)
      → Matched hmac entered now env e i slot kidx counter
      → block slot.gates env ≡ gate
      → ReceiptsOk e.receipts
      → Ends (matched hmac i slot gate kidx counter now e) (Stepped e)
  unfolding matched
  matched_ends i slot (some reason) kidx counter e m g ok =
      unchanged e _ (λ j. refl) (refl, slot, m.slot_at, g)
  matched_ends i slot none kidx counter e m g ok = elim (Bool-cases (leb counter (e.burned i))) [
    | inl old ↦ rw old (
        unchanged e _ (λ j. refl)
          (inl (record {
            slot = slot;
            kidx = kidx;
            counter = counter;
            matches = m;
            old = leb→le counter (e.burned i) old;
            kept = refl;
          })))
    | inr fresh ↦ rw fresh (accept_ends i slot kidx counter e m g (ground arith) ok)
  ]

-- ===== src/Engine/Once.antt =====
-- What holds at the end of every run of the engine.
use mathlib.Core.Path.{subst}
use ephemerkey.Common.{
  ℕ, ◌≡◌, ◌≤◌, ◌<◌, some, List, [], ◌∷◌, Option, arith, refl, All, u32, ap, ◌+◌, ◌∙◌, sym,
}
use ephemerkey.Policy.{Sensors, Slot}
use ephemerkey.Engine.{LockEngine, Outcome, take_fires, take_relocks, take_receipt}
use ephemerkey.Engine.Clock.{attest, tick}
use ephemerkey.Engine.Enter.{enter_code_with}
use ephemerkey.Engine.Frame.{
  Ends, Ends-some, Configured, Configured-kept, Quiet, Quiet-Configured, Quiet-of_same, BudgetOk,
  Budgeted, Budgeted-kept, pending,
}
use ephemerkey.Engine.Quietly.{tick-Quiet, mint_receipt-Quiet}
use ephemerkey.Engine.Effect.{Entered, fires_of}
use ephemerkey.Engine.History.{
  Ran, start, took, passed, ticked, attested, picked_fires, picked_relocks, picked_receipt, Takes,
  Effect-mono, Takes-grows, entered_effect, went_off,
}

-- Every counter is below those before it in the list: no two are equal.
abbrev pub Falling : List ℕ → Type 0
Falling [] = Unit {0}
Falling (c ∷ cs) = All (λ x. x < c) cs × Falling cs

-- What holds of an engine `e` after a run from `e0` in which slot `i` took the codes of the counters
-- `cs` and fired `n` times.
pub record Kept (i : ℕ) (e0 : LockEngine) (cs : List ℕ) (n : ℕ) (e : LockEngine) : Type 0 where
  pub configured : Configured e
  pub budgets : BudgetOk e
  pub slots_eq : e.slots ≡ e0.slots
  pub burned : All (λ c. c ≤ e.burned i) cs
  pub falling : Falling cs
  pub fired : Budgeted e0 i → e0.fired_count i + n ≤ e.fired_count i

All-le : (cs : List ℕ) (a b : ℕ) → a ≤ b → All (λ c. c ≤ a) cs → All (λ c. c ≤ b) cs
All-le [] a b h p = tt
All-le (c ∷ cs) a b h p = (omega arith, All-le cs a b h p.1)

All-lt : (cs : List ℕ) (a b : ℕ) → a < b → All (λ c. c ≤ a) cs → All (λ c. c < b) cs
All-lt [] a b h p = tt
All-lt (c ∷ cs) a b h p = (omega arith, All-lt cs a b h p.1)

module _ (i : ℕ) (s : LockEngine) (cs : List ℕ) (n : ℕ) where
  -- A quiet change, with the armed fire that it set off.
  Quiet-Kept :
      (e e' : LockEngine) → Quiet e e' → Kept i s cs n e → Kept i s cs (went_off i e e' + n) e'
  Quiet-Kept e e' q k = record {
    configured = Quiet-Configured k.configured q;
    budgets = q.budget_kept k.budgets;
    slots_eq = q.slots_eq ∙ k.slots_eq;
    burned =
        All-le cs (e.burned i) (e'.burned i)
          (let h : e'.burned i ≡ e.burned i = ap (λ g. g i) q.burned_eq in omega arith) k.burned;
    falling = k.falling;
    fired = λ w.
        let (mono, off) = q.counts k.budgets i (Budgeted-kept s e i k.slots_eq w) in
        let before = k.fired w in omega arith;
  }

  -- The same where no fire is counted.
  Quiet-Kept_unfired : (e e' : LockEngine) → Quiet e e' → Kept i s cs n e → Kept i s cs n e'
  Quiet-Kept_unfired e e' q k =
      let k' = Quiet-Kept e e' q k in
      record {
        configured = k'.configured;
        budgets = k'.budgets;
        slots_eq = k'.slots_eq;
        burned = k'.burned;
        falling = k'.falling;
        fired = λ w. let up = k'.fired w in omega arith;
      }

  -- A result that is known to be quiet, and its run.
  ended-Quiet :
      (e e' : LockEngine) (m : Option LockEngine) → Ends m (Quiet e) → m ≡ some e' → Quiet e e'
  ended-Quiet e e' m h r =
      let (e1, r1, q) = Ends-some m (Quiet e) h in let same : e1 ≡ e' = cc in subst (Quiet e) same q

module _ (hmac : List ℕ → List ℕ → List ℕ) (entered : List ℕ) (now : ℕ) (env : Sensors) where
  entered-Kept :
      (i : ℕ) (s : LockEngine) (cs : List ℕ) (n : ℕ) (e e' : LockEngine) (o : Outcome)
      → Entered hmac entered now env e e' o
      → Kept i s cs n e
      → Kept i s cs (fires_of i o + n) e'
  entered-Kept i s cs n e e' o d k = record {
    configured = Configured-kept k.configured d.keys_eq d.slots_eq d.receipts_kept;
    budgets = d.budget_kept k.budgets;
    slots_eq = d.slots_eq ∙ k.slots_eq;
    burned =
        All-le cs (e.burned i) (e'.burned i) (Effect-mono hmac entered now env e e' i o d.effect)
          k.burned;
    falling = k.falling;
    fired = λ w.
        let up = d.fires_counted k.budgets i (Budgeted-kept s e i k.slots_eq w) in
        let before = k.fired w in omega arith;
  }

  took-Kept :
      (i : ℕ) (s : LockEngine) (cs : List ℕ) (n : ℕ) (e e' : LockEngine) (o : Outcome)
      → Entered hmac entered now env e e' o
      → Takes i o
      → Kept i s cs n e
      → Kept i s (e'.burned i ∷ cs) (fires_of i o + n) e'
  took-Kept i s cs n e e' o d t k =
      let k' = entered-Kept i s cs n e e' o d k in
      record {
        configured = k'.configured;
        budgets = k'.budgets;
        slots_eq = k'.slots_eq;
        burned = (omega arith, k'.burned);
        falling = (
          All-lt cs (e.burned i) (e'.burned i)
              (Takes-grows hmac entered now env e e' i o d.effect t) k.burned,
          k.falling,
        );
        fired = k'.fired;
      }

  -- The tick that a call makes first, and what it then has the effect of.
  entered_after :
      (i : ℕ) (s : LockEngine) (cs : List ℕ) (n : ℕ) (e e0 e' : LockEngine) (o : Outcome)
      → Kept i s cs n e
      → tick hmac now e ≡ some e0
      → enter_code_with hmac entered now env e ≡ some (e', o)
      → Kept i s cs (went_off i e e0 + n) e0 × Entered hmac entered now env e0 e' o
  entered_after i s cs n e e0 e' o k at run =
      let (e1, at1, q, d) = entered_effect hmac entered now env e e' o k.configured run in
      let same : e1 ≡ e0 = cc in
      (
        Quiet-Kept i s cs n e e0 (subst (Quiet e) same q) k,
        subst (λ (x : LockEngine). Entered hmac entered now env x e' o) same d,
      )

module _ (hmac : List ℕ → List ℕ → List ℕ) (i : ℕ) (e : LockEngine) where
  Ran-Kept_all :
      {cs : List ℕ} {n : ℕ} {e' : LockEngine}
      → Configured e
      → BudgetOk e
      → Ran hmac i e cs n e'
      → Kept i e cs n e'
  Ran-Kept_all c b start = record {
    configured = c;
    budgets = b;
    slots_eq = refl;
    burned = tt;
    falling = tt;
    fired = λ w. omega arith;
  }
  Ran-Kept_all c b (took {cs} {n} {e1} {e2} {o} e0 entered now env r at run t) =
      let (k, d) =
        entered_after hmac entered now env i e cs n e1 e0 e2 o (Ran-Kept_all c b r) at run in
      took-Kept hmac entered now env i e cs (went_off i e1 e0 + n) e0 e2 o d t k
  Ran-Kept_all c b (passed {cs} {n} {e1} {e2} {o} e0 entered now env r at run t) =
      let (k, d) =
        entered_after hmac entered now env i e cs n e1 e0 e2 o (Ran-Kept_all c b r) at run in
      entered-Kept hmac entered now env i e cs (went_off i e1 e0 + n) e0 e2 o d k
  Ran-Kept_all c b (ticked {cs} {n} {e1} {e2} now r run) =
      let k = Ran-Kept_all c b r in
      Quiet-Kept i e cs n e1 e2
        (ended-Quiet i e cs n e1 e2 _ (tick-Quiet hmac now e1 k.configured.receipts_ok) run) k
  Ran-Kept_all c b (attested {cs} {n} {e1} {e2} a now r run) =
      let k = Ran-Kept_all c b r in
      Quiet-Kept_unfired i e cs n e1 e2
        (ended-Quiet i e cs n e1 e2 _
          (mint_receipt-Quiet hmac e1 a (u32 now) k.configured.receipts_ok) (unfold attest in run))
        k
  Ran-Kept_all c b (picked_fires {cs} {n} {e1} r) =
      Quiet-Kept_unfired i e cs n e1 _
        (unfold take_fires in Quiet-of_same refl refl refl refl refl refl (λ x. x))
        (Ran-Kept_all c b r)
  Ran-Kept_all c b (picked_relocks {cs} {n} {e1} r) =
      Quiet-Kept_unfired i e cs n e1 _
        (unfold take_relocks in Quiet-of_same refl refl refl refl refl refl (λ x. x))
        (Ran-Kept_all c b r)
  Ran-Kept_all c b (picked_receipt {cs} {n} {e1} r) =
      Quiet-Kept_unfired i e cs n e1 _
        (unfold take_receipt in Quiet-of_same refl refl refl refl refl refl (λ x. x))
        (Ran-Kept_all c b r)

  -- In every run from a well-configured engine whose budgets hold, whatever codes are entered, and
  -- whenever it ticks, attests or is drained: the counters at which slot `i` takes codes only rise,
  -- so that no counter is taken twice, and none lies above the watermark; and where the slot has a
  -- budget, a u16 above 0, its fires in the run, those that an outcome reports and those that a tick
  -- sets off after the veto window, and the one that is pending at the end, if any, are at most what
  -- its budget had left.
  pub Ran-Kept :
      {cs : List ℕ} {n : ℕ} {e' : LockEngine}
      → Configured e
      → BudgetOk e
      → Ran hmac i e cs n e'
      → Falling cs
        × All (λ c. c ≤ e'.burned i) cs
        × ((slot : Slot)
            → e.slots i ≡ some slot
            → 0 < slot.budget
            → slot.budget ≤ 65535
            → e.fired_count i + n + pending (e'.armed_until i) ≤ slot.budget)
  Ran-Kept {cs} {n} {e'} c b r =
      let k = Ran-Kept_all c b r in
      (
        k.falling,
        k.burned,
        λ slot at pos small.
            let up = k.fired (slot, at, pos, small) in
            let at' : e'.slots i ≡ some slot = subst (λ g. g i ≡ some slot) (sym k.slots_eq) at in
            let within = (k.budgets i slot at').0 pos in omega arith,
      )

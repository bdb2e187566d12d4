-- ===== src/Engine/Frame.antt =====
-- What the operations of the engine keep: the configuration, the burn watermarks, the budgets.
use ephemerkey.Common.{
  ℕ, ◌+◌, ◌≡◌, ◌≤◌, ◌<◌, Option, none, some, length, All, refl, sym, ◌∙◌, Run, ◌>>=◌, arith, ap,
}
use mathlib.Core.Path.{subst, subst₂}
use ephemerkey.Policy.{Policy, Slot}
use ephemerkey.Receipt.{Receipts}
use ephemerkey.Engine.{KeyDef, LockEngine}

-- A computation returns, with a result that satisfies `P`.
abbrev pub Ends : {A : Type 0} → Run A → (A → Type 0) → Type 0
Ends none P = ⊥
Ends (some a) P = P a

pub ends : {A : Type 0} (m : Run A) (P : A → Type 0) {a : A} → m ≡ some a → P a → Ends m P
ends m P e p = rw e p

pub Ends-some : {A : Type 0} (m : Run A) (P : A → Type 0) → Ends m P → (a : A) × (m ≡ some a) × P a
Ends-some none P h = absurd h
Ends-some (some a) P h = (a, refl, h)

pub Ends-bind :
    {A B : Type 0} (m : Run A) (f : A → Run B) (P : A → Type 0) (Q : B → Type 0)
    → Ends m P
    → ((a : A) → P a → Ends (f a) Q)
    → Ends (m >>= f) Q
Ends-bind none f P Q h k = absurd h
Ends-bind (some a) f P Q h k = k a h

pub Ends-map :
    {A : Type 0} (m : Run A) (P Q : A → Type 0) → ((a : A) → P a → Q a) → Ends m P → Ends m Q
Ends-map none P Q k h = absurd h
Ends-map (some a) P Q k h = k a h

-- Index of a key table entry, where there is one.
abbrev pub InTable : Option ℕ → Type 0
InTable none = Unit {0}
InTable (some k) = k < 8

pub record KeyOk (key : KeyDef) : Type 0 where
  pub fits : key.secret_len ≤ 32
  pub small : key.digits ≤ 10
  pub decoy_in : InTable key.decoy

abbrev pub PolicyOk : Policy → Type 0
PolicyOk Policy.always_valid = Unit {0}
PolicyOk (Policy.sequence p) = Unit {0}
PolicyOk (Policy.path p) = (length p.leg_keys ≡ 4) × (p.legs ≤ 4) × All (λ k. k < 8) p.leg_keys
PolicyOk (Policy.dead_man b) = Unit {0}
PolicyOk (Policy.quorum p) = All (λ k. k < 8) p.keys

pub record SlotOk (slot : Slot) : Type 0 where
  pub key_in : slot.key < 8
  pub veto_in : InTable slot.veto_key
  pub policy_ok : PolicyOk slot.policy

abbrev pub ReceiptsOk : Option Receipts → Type 0
ReceiptsOk none = Unit {0}
ReceiptsOk (some r) = (r.secret_len ≤ 32) × (r.digits ≤ 10)

-- A configuration whose table indices are in range and whose secrets and code lengths fit.
pub record Configured (e : LockEngine) : Type 0 where
  pub keys_ok : (k : ℕ) (key : KeyDef) → e.keys k ≡ some key → KeyOk key
  pub slots_ok : (i : ℕ) (slot : Slot) → e.slots i ≡ some slot → SlotOk slot
  pub receipts_ok : ReceiptsOk e.receipts

-- A slot that is armed has one more fire to come.
abbrev pub pending : Option ℕ → ℕ
pending none = 0
pending (some t) = 1

abbrev pub BudgetAt : Slot → ℕ → Option ℕ → Type 0
BudgetAt slot fired armed =
    (0 < slot.budget → fired + pending armed ≤ slot.budget)
    × (slot.veto_delay_s ≡ 0 → pending armed ≡ 0)

-- No slot has fired, or is about to fire, more often than its budget allows; only slots with a veto
-- window are armed.
abbrev pub BudgetOk : LockEngine → Type 0
BudgetOk e =
    (i : ℕ) (slot : Slot)
    → e.slots i ≡ some slot
    → BudgetAt slot (e.fired_count i) (e.armed_until i)

-- Slot `i` has a budget, a u16.
abbrev pub Budgeted : LockEngine → ℕ → Type 0
Budgeted e i = (slot : Slot) × (e.slots i ≡ some slot) × (0 < slot.budget) × (slot.budget ≤ 65535)

-- A change counts the fires of a slot with a budget: its count does not fall, and an armed fire that
-- is no longer pending has gone into it.
abbrev pub Counts : LockEngine → LockEngine → Type 0
Counts e e' =
    BudgetOk e
    → (i : ℕ) → Budgeted e i
    → (e.fired_count i ≤ e'.fired_count i)
      × (e.fired_count i + pending (e.armed_until i)
          ≤ e'.fired_count i + pending (e'.armed_until i))

-- A change that leaves the configuration, the watermarks and the lockouts, keeps the budgets and
-- counts the fires.
pub record Quiet (e e' : LockEngine) : Type 0 where
  pub keys_eq : e'.keys ≡ e.keys
  pub slots_eq : e'.slots ≡ e.slots
  pub burned_eq : e'.burned ≡ e.burned
  pub lockout_eq : e'.lockout_until ≡ e.lockout_until
  pub receipts_kept : ReceiptsOk e.receipts → ReceiptsOk e'.receipts
  pub budget_kept : BudgetOk e → BudgetOk e'
  pub counts : Counts e e'

pub Budgeted-kept : (e e' : LockEngine) (i : ℕ) → e'.slots ≡ e.slots → Budgeted e i → Budgeted e' i
Budgeted-kept e e' i k (slot, at, pos, small) =
    (slot, subst (λ g. g i ≡ some slot) (sym k) at, pos, small)

pub Quiet-refl : (e : LockEngine) → Quiet e e
Quiet-refl e = record {
  keys_eq = refl;
  slots_eq = refl;
  burned_eq = refl;
  lockout_eq = refl;
  receipts_kept = λ r. r;
  budget_kept = λ b. b;
  counts = λ b i w. (omega arith, omega arith);
}

pub Quiet-trans : {a b c : LockEngine} → Quiet a b → Quiet b c → Quiet a c
Quiet-trans {a} {b} {c} p q = record {
  keys_eq = q.keys_eq ∙ p.keys_eq;
  slots_eq = q.slots_eq ∙ p.slots_eq;
  burned_eq = q.burned_eq ∙ p.burned_eq;
  lockout_eq = q.lockout_eq ∙ p.lockout_eq;
  receipts_kept = λ r. q.receipts_kept (p.receipts_kept r);
  budget_kept = λ b. q.budget_kept (p.budget_kept b);
  counts = λ h i w.
      let (m, n) = p.counts h i w in
      let (m', n') = q.counts (p.budget_kept h) i (Budgeted-kept a b i p.slots_eq w) in
      (omega arith, omega arith);
}

-- A change of the slot states, the queues and the receipts alone.
pub Quiet-of_same :
    {e e' : LockEngine}
    → e'.keys ≡ e.keys
    → e'.slots ≡ e.slots
    → e'.burned ≡ e.burned
    → e'.lockout_until ≡ e.lockout_until
    → e'.fired_count ≡ e.fired_count
    → e'.armed_until ≡ e.armed_until
    → (ReceiptsOk e.receipts → ReceiptsOk e'.receipts)
    → Quiet e e'
Quiet-of_same k s b l f a r = record {
  keys_eq = k;
  slots_eq = s;
  burned_eq = b;
  lockout_eq = l;
  receipts_kept = r;
  budget_kept = λ h i slot at.
      subst₂ (λ n t. BudgetAt slot (n i) (t i)) (sym f) (sym a)
        (h i slot (subst (λ g. g i ≡ some slot) s at));
  counts = λ b i w.
      let m = ap (λ g. g i) f in let n = ap (λ g. pending (g i)) a in (omega arith, omega arith);
}

pub Configured-kept :
    {e e' : LockEngine}
    → Configured e
    → e'.keys ≡ e.keys
    → e'.slots ≡ e.slots
    → (ReceiptsOk e.receipts → ReceiptsOk e'.receipts)
    → Configured e'
Configured-kept c k s r = record {
  keys_ok = λ i key at. c.keys_ok i key (subst (λ g. g i ≡ some key) k at);
  slots_ok = λ i slot at. c.slots_ok i slot (subst (λ g. g i ≡ some slot) s at);
  receipts_ok = r c.receipts_ok;
}

pub Quiet-Configured : {e e' : LockEngine} → Configured e → Quiet e e' → Configured e'
Quiet-Configured c q = Configured-kept c q.keys_eq q.slots_eq q.receipts_kept

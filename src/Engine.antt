-- ===== src/Engine.antt =====
-- The lock-side validation engine: firmware/ephemerkey-core/src/engine.rs. The arrays of the engine
-- are functions of their index, read and written below their size only: where the source indexes by
-- a value from the configuration, the model checks it against the size and panics (`none`).
-- A loop of `enter_code_with` that may return is `each`, over the list of what it goes through.
-- The functions that check or mint a code take HMAC-SHA1 as the parameter `hmac` (see Totp).
pub mod Search
pub mod Clock
pub mod Enter
pub mod Window
pub mod Frame
pub mod Quietly
pub mod Effect
pub mod Accepting
mod Candidates
mod PerSlot
pub mod Entering
pub mod History
pub mod Once
pub mod Queue
pub mod Lapse
mod Tests
use ephemerkey.Common.{
  ℕ, zero, suc, ◌+◌, ◌-◌, ◌*◌, ◌/◌, ◌^◌, Bool, true, false, not, ◌&&◌, Option, none, some, List, [],
  ◌∷◌, ltb, leb, ◌==◌, if◌then◌else◌, u8, u16, u32, u64, sub32, min, length, take, get_elem?,
  replicate, update, Run, ◌>>=◌, bit_or,
}
use ephemerkey.Policy.{
  Action, GateBlock, NegativeAction, Policy, Sensors, Slot, block, delay_window, all_gates_open,
  max_slots, max_keys, max_quorum, period_s,
}
use ephemerkey.Slots
use ephemerkey.Slots.{SlotState, Verdict, idle}
use ephemerkey.Totp.{Code, code_eq, parse, hotp}
use ephemerkey.Receipt.{Receipt, Receipts, mint, secret_buffer, secret_slice}

-- At most one fire and `max_slots` re-locks are meant to wait for pickup.
abbrev pub max_receipts : ℕ
max_receipts = max_slots + 1

abbrev pub relock_action : Action → Action
relock_action Action.lock = Action.unlock
relock_action Action.unlock = Action.lock
relock_action Action.duress_unlock = Action.lock

pub record KeyDef : Type 0 where
  pub secret : List ℕ
  pub secret_len : ℕ  -- u8
  pub digits : ℕ  -- u8
  pub decoy : Option ℕ  -- u8

unfoldable pub new_key : List ℕ → ℕ → Run KeyDef
unfolding secret_buffer
new_key secret digits = do
  s ← secret_buffer secret
  some (record { secret = s; secret_len = u8 (length secret); digits = digits; decoy = none })

pub data Outcome : Type 0 where
  progress : ℕ → ℕ → ℕ → Outcome
  fired : ℕ → Action → Outcome
  reset : ℕ → Outcome
  replay : ℕ → Outcome
  beat : ℕ → Outcome
  negative : ℕ → NegativeAction → Outcome
  locked_out : ℕ → Outcome
  gated : ℕ → GateBlock → Outcome
  invalid : Outcome
  armed : ℕ → ℕ → Outcome
  vetoed : ℕ → Outcome
  exhausted : ℕ → Outcome

pub record LockEngine : Type 0 where
  pub keys : ℕ → Option KeyDef
  pub slots : ℕ → Option Slot
  pub state : ℕ → SlotState
  pub burned : ℕ → ℕ  -- u32
  pub lockout_until : ℕ → ℕ  -- u32
  pub pending_relock : ℕ  -- u8
  pub armed_until : ℕ → Option ℕ  -- u64
  pub pending_fire : ℕ  -- u8
  pub fired_count : ℕ → ℕ  -- u16
  pub receipts : Option Receipts
  pub pending_receipt : List (Option Receipt)

abbrev pub new : LockEngine
new = record {
  keys = λ _. none;
  slots = λ _. none;
  state = λ _. idle;
  burned = λ _. 0;
  lockout_until = λ _. 0;
  pending_relock = 0;
  armed_until = λ _. none;
  pending_fire = 0;
  fired_count = λ _. 0;
  receipts = none;
  pending_receipt = replicate max_receipts none;
}

-- `self.keys[k as usize]`.
abbrev pub key_at : LockEngine → ℕ → Run (Option KeyDef)
key_at e k = if ltb k max_keys then some (e.keys k) else none

unfoldable pub take_fires : LockEngine → LockEngine × ℕ
take_fires e = (record e { pending_fire = 0 }, e.pending_fire)

unfoldable pub take_relocks : LockEngine → LockEngine × ℕ
take_relocks e = (record e { pending_relock = 0 }, e.pending_relock)

-- `u16::saturating_add(1)`.
abbrev pub one_more : ℕ → ℕ
one_more n = min (n + 1) 65535

slot_budget : LockEngine → ℕ → Option Slot → Option ℕ
slot_budget e i none = none
slot_budget e i (some slot) =
    if slot.budget == 0 then none else some (slot.budget - e.fired_count i)

unfoldable pub budget_left : LockEngine → ℕ → Option ℕ
unfolding slot_budget
budget_left e i = if ltb i max_slots then slot_budget e i (e.slots i) else none

-- The first empty place of the receipt queue; a receipt that finds none is dropped.
unfoldable pub enqueue : List (Option Receipt) → Receipt → List (Option Receipt)
enqueue [] r = []
enqueue (none ∷ q) r = some r ∷ q
enqueue (some x ∷ q) r = some x ∷ enqueue q r

-- The first full place of the receipt queue.
unfoldable pub dequeue : List (Option Receipt) → List (Option Receipt) × Option Receipt
dequeue [] = ([], none)
dequeue (none ∷ q) = let (q', r) = dequeue q in (none ∷ q', r)
dequeue (some x ∷ q) = (none ∷ q, some x)

unfoldable pub take_receipt : LockEngine → LockEngine × Option Receipt
unfolding dequeue
take_receipt e = let (q, r) = dequeue e.pending_receipt in (record e { pending_receipt = q }, r)

-- The keys that an entered code may match, with their indices in the policy.
unfoldable pub numbered : ℕ → List ℕ → List (ℕ × ℕ)
numbered i [] = []
numbered i (k ∷ ks) = (k, i) ∷ numbered (i + 1) ks

unfoldable pub policy_candidates : ℕ → SlotState → Policy → Run (List (ℕ × ℕ))
policy_candidates key st (Policy.path p) =
    let leg = min st.count (p.legs - 1) in get_elem? p.leg_keys leg >>= λ k. some ((k, leg) ∷ [])
policy_candidates key st (Policy.quorum p) =
    some (numbered 0 (take (min p.n_keys max_quorum) p.keys))
policy_candidates key st Policy.always_valid = some ((key, 0) ∷ [])
policy_candidates key st (Policy.sequence p) = some ((key, 0) ∷ [])
policy_candidates key st (Policy.dead_man beat_s) = some ((key, 0) ∷ [])

unfoldable pub candidates : Slot → SlotState → Run (List (ℕ × ℕ))
candidates slot st = policy_candidates slot.key st slot.policy

-- A loop that may return: the state and what it returned, if it did.
unfoldable pub each {ℓ} :
    {A : Type ℓ}
    → List A
    → (A → LockEngine → Run (LockEngine × Option Outcome))
    → LockEngine
    → Run (LockEngine × Option Outcome)
each [] body e = some (e, none)
each (x ∷ xs) body e =
    body x e >>= λ (e', out). elim out [ some o ↦ some (e', some o) | none ↦ each xs body e' ]

abbrev pub slot_range : List ℕ
slot_range = 0 ∷ 1 ∷ 2 ∷ 3 ∷ 4 ∷ 5 ∷ 6 ∷ 7 ∷ []

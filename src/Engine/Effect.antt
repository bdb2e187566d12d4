-- ===== src/Engine/Effect.antt =====
-- What an entered code may do to the engine, by the outcome that is reported.
use ephemerkey.Common.{
  ℕ, ◌-◌, ◌*◌, ◌≡◌, ◌≢◌, ◌≤◌, ◌<◌, none, some, List, get_elem?, min, u32, update, ◌+◌, ◌⊎◌, ◌==◌,
  if◌then◌else◌,
}
use ephemerkey.Policy.{NegativeAction, Policy, Sensors, Slot, block, delay_window, period_s}
use ephemerkey.Slots.{idle}
use ephemerkey.Totp.{Code, parse}
use ephemerkey.Engine.{KeyDef, LockEngine, Outcome}
use ephemerkey.Engine.Enter.{entered_matches}
use ephemerkey.Engine.Window.{InWindow, Mints, secret_of}
use ephemerkey.Engine.Frame.{BudgetOk, Budgeted, Quiet, ReceiptsOk}

-- A key table index that a slot searches: its own key, the key of the leg that is due, or a member
-- of the quorum.
abbrev pub IsCandidate : ℕ → ℕ → Policy → ℕ × ℕ → Type 0
IsCandidate key count Policy.always_valid (ktab, kidx) = (ktab ≡ key) × (kidx ≡ 0)
IsCandidate key count (Policy.sequence p) (ktab, kidx) = (ktab ≡ key) × (kidx ≡ 0)
IsCandidate key count (Policy.dead_man b) (ktab, kidx) = (ktab ≡ key) × (kidx ≡ 0)
IsCandidate key count (Policy.path p) (ktab, kidx) =
    (kidx ≡ min count (p.legs - 1)) × (get_elem? p.leg_keys kidx ≡ some ktab)
IsCandidate key count (Policy.quorum p) (ktab, kidx) = get_elem? p.keys kidx ≡ some ktab

-- The fires of slot `i` that an outcome reports.
abbrev pub fires_of : ℕ → Outcome → ℕ
fires_of i (Outcome.progress j have need) = 0
fires_of i (Outcome.fired j a) = if j == i then 1 else 0
fires_of i (Outcome.reset j) = 0
fires_of i (Outcome.beat j) = 0
fires_of i (Outcome.armed j t) = 0
fires_of i (Outcome.exhausted j) = 0
fires_of i (Outcome.replay j) = 0
fires_of i (Outcome.negative j a) = 0
fires_of i (Outcome.locked_out j) = 0
fires_of i (Outcome.gated j r) = 0
fires_of i Outcome.invalid = 0
fires_of i (Outcome.vetoed j) = 0

module _ (hmac : List ℕ → List ℕ → List ℕ) (entered : List ℕ) (now : ℕ) (env : Sensors) where
  -- Slot `i` took the code: its watermark rose to a counter at which a candidate key of the slot
  -- mints the entered code, in the delay window of its policy, with the gates of the slot open and no
  -- lockout running.
  pub record Took (e e' : LockEngine) (i : ℕ) : Type 0 where
    pub grew : e.burned i < e'.burned i
    pub others : (j : ℕ) → j ≢ i → e'.burned j ≡ e.burned j
    pub slot : Slot
    pub key_index : ℕ
    pub kidx : ℕ
    pub key : KeyDef
    pub code : Code
    pub slot_at : e.slots i ≡ some slot
    pub gates_open : block slot.gates env ≡ none
    pub not_locked : e.lockout_until i ≤ u32 now
    pub candidate : IsCandidate slot.key (e.state i).count slot.policy (key_index, kidx)
    pub key_at : e.keys key_index ≡ some key
    pub parsed : parse entered key.digits ≡ some code
    pub in_window : InWindow (delay_window slot.policy) now (e'.burned i)
    pub minted : Mints hmac (secret_of key) code key.digits (e'.burned i)

  -- A candidate key of slot `i` mints the entered code at a counter in the slot's delay window, and no
  -- lockout is running.
  pub record Matched (e : LockEngine) (i : ℕ) (slot : Slot) (kidx counter : ℕ) : Type 0 where
    pub key_index : ℕ
    pub key : KeyDef
    pub code : Code
    pub slot_at : e.slots i ≡ some slot
    pub not_locked : e.lockout_until i ≤ u32 now
    pub candidate : IsCandidate slot.key (e.state i).count slot.policy (key_index, kidx)
    pub key_at : e.keys key_index ≡ some key
    pub parsed : parse entered key.digits ≡ some code
    pub in_window : InWindow (delay_window slot.policy) now counter
    pub minted : Mints hmac (secret_of key) code key.digits counter

  -- The counter that matched is not above the watermark: nothing changes.
  pub record Stale (e e' : LockEngine) (i : ℕ) : Type 0 where
    pub slot : Slot
    pub kidx : ℕ
    pub counter : ℕ
    pub matches : Matched e i slot kidx counter
    pub old : counter ≤ e.burned i
    pub kept : e' ≡ e

  -- The decoy of a candidate key of slot `i` matches the entered code in the slot's delay window.
  pub record Decoyed (e : LockEngine) (i : ℕ) (slot : Slot) : Type 0 where
    pub key_index : ℕ
    pub kidx : ℕ
    pub key : KeyDef
    pub decoy_index : ℕ
    pub decoy : KeyDef
    pub counter : ℕ
    pub slot_at : e.slots i ≡ some slot
    pub candidate : IsCandidate slot.key (e.state i).count slot.policy (key_index, kidx)
    pub key_at : e.keys key_index ≡ some key
    pub has_decoy : key.decoy ≡ some decoy_index
    pub decoy_at : e.keys decoy_index ≡ some decoy
    pub matches :
        entered_matches hmac entered now decoy (delay_window slot.policy) ≡ some (some counter)

  -- What slot `i` suffers for a decoy code.
  abbrev pub Punished : LockEngine → LockEngine → ℕ → NegativeAction → Type 0
  Punished e e' i NegativeAction.reset = (e'.state i ≡ idle) × (e'.lockout_until ≡ e.lockout_until)
  Punished e e' i (NegativeAction.lockout s) =
      (e'.state i ≡ idle) × (e'.lockout_until ≡ update e.lockout_until i (u32 (u32 now + s)))
  Punished e e' i NegativeAction.silent = e' ≡ e

  -- The veto key of the armed slot `i` matches: the slot is disarmed and idle, and nothing else
  -- changes.
  pub record Disarmed (e e' : LockEngine) (i : ℕ) : Type 0 where
    pub slot : Slot
    pub fire_at : ℕ
    pub key_index : ℕ
    pub key : KeyDef
    pub counter : ℕ
    pub slot_at : e.slots i ≡ some slot
    pub was_armed : e.armed_until i ≡ some fire_at
    pub has_veto : slot.veto_key ≡ some key_index
    pub key_at : e.keys key_index ≡ some key
    pub matches : entered_matches hmac entered now key (0, 2 * period_s) ≡ some (some counter)
    pub disarmed :
        e' ≡ record e { armed_until = update e.armed_until i none; state = update e.state i idle }

  -- `Replay` is also the answer to a second contribution of a quorum key, whose counter is burned.
  abbrev pub Effect : LockEngine → LockEngine → Outcome → Type 0
  Effect e e' (Outcome.progress i have need) = Took e e' i
  Effect e e' (Outcome.fired i a) = Took e e' i
  Effect e e' (Outcome.reset i) = Took e e' i
  Effect e e' (Outcome.beat i) = Took e e' i
  Effect e e' (Outcome.armed i t) = Took e e' i
  Effect e e' (Outcome.exhausted i) = Took e e' i
  Effect e e' (Outcome.replay i) = Stale e e' i ⊎ Took e e' i
  Effect e e' (Outcome.negative i a) =
      (slot : Slot) × Decoyed e i slot
      × (slot.negative ≡ a)
      × (e'.burned ≡ e.burned)
      × Punished e e' i a
  Effect e e' (Outcome.locked_out i) = e' ≡ e
  Effect e e' (Outcome.gated i r) =
      (e' ≡ e) × (slot : Slot) × (e.slots i ≡ some slot) × (block slot.gates env ≡ some r)
  Effect e e' Outcome.invalid = Quiet e e'
  Effect e e' (Outcome.vetoed i) = Disarmed e e' i

  pub record Entered (e e' : LockEngine) (o : Outcome) : Type 0 where
    pub keys_eq : e'.keys ≡ e.keys
    pub slots_eq : e'.slots ≡ e.slots
    pub receipts_kept : ReceiptsOk e.receipts → ReceiptsOk e'.receipts
    pub budget_kept : BudgetOk e → BudgetOk e'
    pub fires_counted :
        BudgetOk e → (j : ℕ) → Budgeted e j → e.fired_count j + fires_of j o ≤ e'.fired_count j
    pub effect : Effect e e' o

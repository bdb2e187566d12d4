-- ===== src/Policy.antt =====
-- The code-slot policy model of firmware/ephemerkey-core/src/policy.rs: its data types, the delay
-- window of a policy and the gates of a slot. The trait `Sensors` is a record of its three questions.
pub mod Blocking
mod Tests
use ephemerkey.Common.{ℕ, ◌*◌, Bool, true, not, ◌&&◌, Option, none, some, List, ltb, if◌then◌else◌}

-- TOTP period, in seconds (totp.rs).
abbrev pub period_s : ℕ
period_s = 30

abbrev pub max_slots : ℕ
max_slots = 8

abbrev pub max_keys : ℕ
max_keys = 8

abbrev pub max_path_legs : ℕ
max_path_legs = 4

abbrev pub max_quorum : ℕ
max_quorum = 4

pub record Gates : Type 0 where
  pub own_fence : Option ℕ  -- u8
  pub stillness_s : ℕ  -- u16
  pub calendar : Option ℕ  -- u8

pub data GateBlock : Type 0 where
  fence stillness calendar : GateBlock

pub record Sensors : Type 0 where
  pub inside_fence : ℕ → Bool
  pub still_for_s : ℕ  -- u32
  pub calendar_open : ℕ → Bool

abbrev pub all_gates_open : Sensors
all_gates_open = record {
  inside_fence = λ _. true;
  still_for_s = 4294967295;
  calendar_open = λ _. true;
}

-- `fence`, `calendar`: the question is asked only where the gate is configured.
abbrev pub shut : Option ℕ → (ℕ → Bool) → Bool
shut none is_open = Bool.false
shut (some x) is_open = not (is_open x)

unfoldable pub block : Gates → Sensors → Option GateBlock
block g env =
    if shut g.own_fence env.inside_fence
    then some GateBlock.fence
    else if ltb 0 g.stillness_s && ltb env.still_for_s g.stillness_s
    then some GateBlock.stillness
    else if shut g.calendar env.calendar_open
    then some GateBlock.calendar
    else none

pub record Sequence : Type 0 where
  pub n : ℕ  -- u8
  pub window_s : ℕ  -- u16, and so the others
  pub gap_min_s : ℕ
  pub gap_max_s : ℕ
  pub delay_min_s : ℕ
  pub delay_max_s : ℕ
  pub pace_jitter_s : ℕ

-- `leg_keys` holds `max_path_legs` bytes, `keys` of a quorum `max_quorum`.
pub record LegPath : Type 0 where
  pub legs : ℕ  -- u8
  pub leg_keys : List ℕ
  pub leg_deadline_s : ℕ  -- u16
  pub delay_max_s : ℕ  -- u16

pub record Quorum : Type 0 where
  pub m : ℕ  -- u8
  pub n_keys : ℕ  -- u8
  pub keys : List ℕ
  pub window_s : ℕ  -- u16
  pub alternating : Bool
  pub gap_min_s : ℕ  -- u16
  pub gap_max_s : ℕ  -- u16

pub data Policy : Type 0 where
  always_valid : Policy
  sequence : Sequence → Policy
  path : LegPath → Policy
  dead_man : ℕ → Policy  -- beat_s : u16
  quorum : Quorum → Policy

unfoldable pub delay_window : Policy → ℕ × ℕ
delay_window (Policy.sequence p) = (p.delay_min_s, p.delay_max_s)
delay_window (Policy.path p) = (0, p.delay_max_s)
delay_window Policy.always_valid = (0, 2 * period_s)
delay_window (Policy.dead_man beat_s) = (0, 2 * period_s)
delay_window (Policy.quorum p) = (0, 2 * period_s)

pub data Action : Type 0 where
  unlock lock duress_unlock : Action

pub data NegativeAction : Type 0 where
  reset : NegativeAction
  lockout : ℕ → NegativeAction  -- u16 seconds
  silent : NegativeAction

pub record Slot : Type 0 where
  pub key : ℕ  -- u8
  pub policy : Policy
  pub gates : Gates
  pub action : Action
  pub show_progress : Bool
  pub reset_on_invalid : Bool
  pub negative : NegativeAction
  pub veto_delay_s : ℕ  -- u16
  pub veto_key : Option ℕ  -- u8
  pub budget : ℕ  -- u16

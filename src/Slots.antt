-- ===== src/Slots.antt =====
-- The per-slot state machines: firmware/ephemerkey-core/src/policy.rs, `SlotState` and its methods.
-- A method that mutates `self` returns the new state; u8, u16 and u32 fields wrap as in Rust's
-- release profile. Two steps that the four policies share are functions of their own.
pub mod Pacing
pub mod Round
pub mod Rhythm
pub mod Liveness
pub mod Distinct
pub mod Journey
mod Dispatch
mod Mask
mod Tests
use ephemerkey.Common.{
  ℕ, ◌+◌, ◌*◌, ◌/◌, ◌%◌, ◌^◌, Bool, true, false, not, ◌&&◌, ◌||◌, ltb, leb, ◌==◌, if◌then◌else◌, u8,
  u16, u32, sub16, sub32, min, bit_and, bit_or, bit_xor, ◌-◌,
}
use ephemerkey.Policy.{Action, Policy, Sequence, LegPath, Quorum, Slot, period_s}

pub record SlotState : Type 0 where
  pub count : ℕ  -- u8
  pub last_counter : ℕ  -- u32
  pub window_start_s : ℕ  -- u32
  pub last_code_s : ℕ  -- u32
  pub sustained : Bool
  pub seen_mask : ℕ  -- u8
  pub last_kidx : ℕ  -- u8
  pub pace_rng : ℕ  -- u32
  pub pace_lo_s : ℕ  -- u16
  pub pace_hi_s : ℕ  -- u16

-- `SlotState::default()`, which `reset` writes.
abbrev pub idle : SlotState
idle = record {
  count = 0;
  last_counter = 0;
  window_start_s = 0;
  last_code_s = 0;
  sustained = false;
  seen_mask = 0;
  last_kidx = 0;
  pace_rng = 0;
  pace_lo_s = 0;
  pace_hi_s = 0;
}

-- xorshift32, one step of the generator.
unfoldable pub xorshift32 : ℕ → ℕ
xorshift32 x =
    let a = bit_xor x (u32 (x * 2 ^ 13)) in
    let b = bit_xor a (a / 2 ^ 17) in bit_xor b (u32 (b * 2 ^ 5))

unfoldable pub pace_next : SlotState → SlotState × ℕ
pace_next st = let x = xorshift32 st.pace_rng in (record st { pace_rng = x }, x)

unfoldable pub pace_draw : SlotState → ℕ → ℕ → ℕ → SlotState
unfolding pace_next
pace_draw st gap_min_s gap_max_s jitter_s =
    if jitter_s == 0
    then record st { pace_lo_s = gap_min_s; pace_hi_s = gap_max_s }
    else let span = gap_max_s - gap_min_s in
      let j = min jitter_s (span / 2) in
      let (st1, x1) = pace_next st in
      let (st2, x2) = pace_next st1 in
      record st2 {
        pace_lo_s = u16 (gap_min_s + x1 % (j + 1));
        pace_hi_s = sub16 gap_max_s (x2 % (j + 1));
      }

pub data Verdict : Type 0 where
  progress : ℕ → ℕ → Verdict
  fire : Action → Verdict
  reset ignored beat negative : Verdict

-- The generation gap of two matched counters, in seconds.
abbrev pub gen_gap : SlotState → ℕ → ℕ
gen_gap st counter = u32 (sub32 counter st.last_counter * period_s)

-- A counted code: `count += 1`, and the anchors of the next check.
abbrev pub counted : SlotState → ℕ → ℕ → SlotState
counted st counter now_s = record st {
  count = u8 (st.count + 1);
  last_counter = counter;
  last_code_s = now_s;
}

pub sequence_count : Sequence → Action → SlotState → ℕ → ℕ → SlotState × Verdict
sequence_count p action st counter now_s =
    let st1 = counted st counter now_s in
    if leb p.n st1.count
    then (idle, Verdict.fire action)
    else (pace_draw st1 p.gap_min_s p.gap_max_s p.pace_jitter_s, Verdict.progress st1.count p.n)

pub sequence_code : Sequence → Action → SlotState → ℕ → ℕ → SlotState × Verdict
sequence_code p action st counter now_s =
    let gap = gen_gap st counter in
    let in_window = leb (sub32 now_s st.window_start_s) p.window_s in
    if ltb 0 st.count
    then if ltb gap st.pace_lo_s || ltb st.pace_hi_s gap || not in_window
      then (idle, Verdict.reset)
      else sequence_count p action st counter now_s
    else sequence_count p action
        (record st {
          window_start_s = now_s;
          pace_rng = bit_or (bit_xor (u32 (counter * 0x9e37_79b9)) now_s) 1;
        })
        counter now_s

pub path_count : LegPath → Action → SlotState → ℕ → ℕ → SlotState × Verdict
path_count p action st counter now_s =
    let st1 = counted st counter now_s in
    if leb p.legs st1.count
    then (idle, Verdict.fire action)
    else (st1, Verdict.progress st1.count p.legs)

pub path_code : LegPath → Action → SlotState → ℕ → ℕ → SlotState × Verdict
path_code p action st counter now_s =
    if ltb 0 st.count && ltb p.leg_deadline_s (gen_gap st counter)
    then (idle, Verdict.reset)
    else path_count p action st counter now_s

pub dead_man_code : Action → SlotState → ℕ → ℕ → SlotState × Verdict
dead_man_code action st counter now_s =
    let st1 = record st { last_counter = counter; last_code_s = now_s } in
    if st1.sustained
    then (st1, Verdict.beat)
    else (record st1 { sustained = true; count = 1 }, Verdict.fire action)

-- `1 << kidx` as a u8: the release profile takes the shift modulo 8.
abbrev pub key_bit : ℕ → ℕ
key_bit kidx = 2 ^ (kidx % 8)

pub quorum_count : Quorum → Action → SlotState → ℕ → ℕ → ℕ → SlotState × Verdict
quorum_count p action st kidx counter now_s =
    let st1 =
      counted (record st { seen_mask = bit_or st.seen_mask (key_bit kidx); last_kidx = kidx })
        counter now_s in
    if leb p.m st1.count then (idle, Verdict.fire action) else (st1, Verdict.progress st1.count p.m)

pub quorum_code : Quorum → Action → SlotState → ℕ → ℕ → ℕ → SlotState × Verdict
quorum_code p action st kidx counter now_s =
    let in_window = leb (sub32 now_s st.window_start_s) p.window_s in
    let gap = gen_gap st counter in
    let paced_ok = leb p.gap_min_s gap && leb gap p.gap_max_s in
    if ltb 0 st.count
    then if not in_window || not paced_ok || (p.alternating && kidx == st.last_kidx)
      then (idle, Verdict.reset)
      else if not (bit_and st.seen_mask (key_bit kidx) == 0)
      then (record st { last_counter = counter }, Verdict.ignored)
      else quorum_count p action st kidx counter now_s
    else quorum_count p action (record st { window_start_s = now_s }) kidx counter now_s

pub policy_code : Policy → Action → SlotState → ℕ → ℕ → ℕ → SlotState × Verdict
policy_code Policy.always_valid action st kidx counter now_s = (st, Verdict.fire action)
policy_code (Policy.sequence p) action st kidx counter now_s =
    sequence_code p action st counter now_s
policy_code (Policy.path p) action st kidx counter now_s = path_code p action st counter now_s
policy_code (Policy.dead_man beat_s) action st kidx counter now_s =
    dead_man_code action st counter now_s
policy_code (Policy.quorum p) action st kidx counter now_s =
    quorum_code p action st kidx counter now_s

unfoldable pub on_code : SlotState → Slot → ℕ → ℕ → ℕ → SlotState × Verdict
unfolding policy_code sequence_code sequence_count path_code path_count dead_man_code quorum_code
    quorum_count pace_draw xorshift32
on_code st slot kidx counter now_s =
    if ltb 0 st.count && leb counter st.last_counter
    then (st, Verdict.ignored)
    else policy_code slot.policy slot.action st kidx counter now_s

-- The state after a time step, and whether a re-lock is due.
pub policy_tick : Policy → SlotState → ℕ → SlotState × Bool
policy_tick (Policy.sequence p) st now_s =
    let slack = sub16 p.delay_max_s p.delay_min_s in
    if ltb 0 st.count && ltb (p.gap_max_s + slack) (sub32 now_s st.last_code_s)
    then (idle, false)
    else (st, false)
policy_tick (Policy.quorum p) st now_s =
    if ltb 0 st.count && ltb p.window_s (sub32 now_s st.window_start_s)
    then (idle, false)
    else (st, false)
policy_tick (Policy.dead_man beat_s) st now_s =
    if st.sustained && ltb beat_s (sub32 now_s st.last_code_s) then (idle, true) else (st, false)
policy_tick Policy.always_valid st now_s = (st, false)
policy_tick (Policy.path p) st now_s = (st, false)

unfoldable pub tick : SlotState → Slot → ℕ → SlotState × Bool
unfolding policy_tick
tick st slot now_s = policy_tick slot.policy st now_s

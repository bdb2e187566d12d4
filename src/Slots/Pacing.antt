-- ===== src/Slots/Pacing.antt =====
-- The randomized pacing of a sequence: `SlotState::pace_draw`.
use ephemerkey.Common.{ℕ, ◌+◌, ◌≡◌, ◌≤◌, ◌<◌, arith}
use ephemerkey.Slots.{SlotState, pace_draw}

-- What a draw at the bounds `a` and `b` with jitter `j` guarantees.
pub record IsDrawn (a b j : ℕ) (st st' : SlotState) : Type 0 where
  pub lo_min : a ≤ st'.pace_lo_s
  pub lo_le_hi : st'.pace_lo_s ≤ st'.pace_hi_s
  pub hi_max : st'.pace_hi_s ≤ b
  pub lo_jitter : st'.pace_lo_s ≤ a + j
  pub hi_jitter : b ≤ st'.pace_hi_s + j
  pub same_count : st'.count ≡ st.count
  pub same_counter : st'.last_counter ≡ st.last_counter
  pub same_start : st'.window_start_s ≡ st.window_start_s
  pub same_code : st'.last_code_s ≡ st.last_code_s

-- For bounds in order and in u16, the drawn window lies inside the configured one, is never empty,
-- and moves each bound by at most the jitter; the counters and anchors stay as they were.
pub pace_draw-IsDrawn :
    (st : SlotState) (a b j : ℕ) → a ≤ b → b < 65536 → IsDrawn a b j st (pace_draw st a b j)
unfolding pace_draw
pace_draw-IsDrawn st a b j h k = ground arith

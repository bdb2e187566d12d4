-- ===== src/Slots/Round.antt =====
-- A round of codes at one slot: the calls of `on_code` since the slot was last idle, each of which
-- counted (`Progress`) or was passed over (`Ignored`). The lists hold the counted codes, last first.
use ephemerkey.Common.{ℕ, ◌≡◌, ◌*◌, ◌<◌, List, [], ◌∷◌}
use ephemerkey.Policy.{Slot, period_s}
use ephemerkey.Slots.{SlotState, Verdict, idle, on_code}

-- One call of `on_code`: which candidate key matched, the matched counter, the arrival time.
pub record Entry : Type 0 where
  pub kidx : ℕ
  pub counter : ℕ
  pub at_s : ℕ

abbrev pub enter : SlotState → Slot → Entry → SlotState × Verdict
enter st slot e = on_code st slot e.kidx e.counter e.at_s

-- A counter whose time in seconds is a u32 (before the year 2106).
abbrev pub InRange : Entry → Type 0
InRange e = e.counter * period_s < 4294967296

pub data Round (slot : Slot) : List Entry → SlotState → Type 0 where
  start : Round slot [] idle
  advance :
      {es : List Entry} {st st' : SlotState} {have need : ℕ} (e : Entry)
      → Round slot es st
      → enter st slot e ≡ (st', Verdict.progress have need)
      → Round slot (e ∷ es) st'
  skip :
      {es : List Entry} {st st' : SlotState} (e : Entry)
      → Round slot es st
      → enter st slot e ≡ (st', Verdict.ignored)
      → Round slot es st'

-- ===== src/Policy/Tests.antt =====
-- The gates of a slot at concrete readings.
use ephemerkey.Common.{◌≡◌, refl, true, none, some, ◌==◌}
use ephemerkey.Policy.{Gates, GateBlock, Sensors, block}

abbrev gated : Gates
gated = record { own_fence = some 2; stillness_s = 60; calendar = none }

abbrev shaken : Sensors
shaken = record { inside_fence = λ f. f == 2; still_for_s = 59; calendar_open = λ _. true }

needs_stillness : block gated shaken ≡ some GateBlock.stillness
unfolding block
needs_stillness = refl

-- ===== src/Slots/Tests.antt =====
-- Rounds of concrete codes at concrete slots.
use ephemerkey.Common.{ℕ, ◌≡◌, refl, none, List, [], ◌∷◌, length, false, true, arith, All}
use ephemerkey.Policy.{Action, LegPath, NegativeAction, Policy, Quorum, Sequence, Slot}
use ephemerkey.Slots.{SlotState, Verdict, idle, on_code}
use ephemerkey.Slots.Round.{Entry, Round, enter, InRange, start, advance, skip}
use ephemerkey.Slots.Rhythm.{IsSequence, Rhythm, Follows, fire_needs-Rhythm}
use ephemerkey.Slots.Liveness.{Rhythm-fires}
use ephemerkey.Slots.Distinct.{IsQuorum, Contributions, fire_needs_distinct}
use ephemerkey.Slots.Journey.{IsPath, Journey, fire_needs-Journey}

abbrev slot_of : Policy → Slot
slot_of policy = record {
  key = 0;
  policy = policy;
  gates = record { own_fence = none; stillness_s = 0; calendar = none };
  action = Action.unlock;
  show_progress = true;
  reset_on_invalid = false;
  negative = NegativeAction.silent;
  veto_delay_s = 0;
  veto_key = none;
  budget = 0;
}

abbrev entry : ℕ → ℕ → ℕ → Entry
entry k c t = record { kidx = k; counter = c; at_s = t }

-- The state after a code.
abbrev after : Slot → SlotState → Entry → SlotState
after slot st e = (enter st slot e).0

-- Three codes, one to five minutes apart, within an hour.
abbrev paced : Sequence
paced = record {
  n = 3;
  window_s = 3600;
  gap_min_s = 60;
  gap_max_s = 300;
  delay_min_s = 0;
  delay_max_s = 60;
  pace_jitter_s = 0;
}

abbrev paced_slot : Slot
paced_slot = slot_of (Policy.sequence paced)

paced-IsSequence : IsSequence paced
paced-IsSequence = record {
  gap_order = omega arith;
  gap_u16 = omega arith;
  n_pos = omega arith;
  n_u8 = omega arith;
}

abbrev s1 : SlotState
s1 = record idle {
  count = 1;
  last_counter = 100;
  window_start_s = 3000;
  last_code_s = 3000;
  pace_rng = (after paced_slot idle (entry 0 100 3000)).pace_rng;
  pace_lo_s = 60;
  pace_hi_s = 300;
}

abbrev s2 : SlotState
s2 = record s1 { count = 2; last_counter = 104; last_code_s = 3120 }

first_code : enter idle paced_slot (entry 0 100 3000) ≡ (s1, Verdict.progress 1 3)
unfolding on_code
first_code = refl

-- The same code again is passed over.
again : enter s1 paced_slot (entry 0 100 3010) ≡ (s1, Verdict.ignored)
unfolding on_code
again = refl

second_code : enter s1 paced_slot (entry 0 104 3120) ≡ (s2, Verdict.progress 2 3)
unfolding on_code
second_code = refl

third_code : enter s2 paced_slot (entry 0 110 3300) ≡ (idle, Verdict.fire Action.unlock)
unfolding on_code
third_code = refl

too_fast : enter s1 paced_slot (entry 0 101 3030) ≡ (idle, Verdict.reset)
unfolding on_code
too_fast = refl

abbrev two_codes : List Entry
two_codes = entry 0 104 3120 ∷ entry 0 100 3000 ∷ []

two_paced : Round paced_slot two_codes s2
two_paced =
    advance (entry 0 104 3120)
      (skip (entry 0 100 3010) (advance (entry 0 100 3000) start first_code) again) second_code

three-InRange : All InRange (entry 0 110 3300 ∷ two_codes)
three-InRange = (omega arith, (omega arith, (omega arith, tt)))

fire_needs-Rhythm_example :
    (length (entry 0 110 3300 ∷ two_codes) ≡ 3)
    × Rhythm paced (entry 0 110 3300 ∷ two_codes)
    × (Action.unlock ≡ paced_slot.action)
    × (idle ≡ idle)
fire_needs-Rhythm_example =
    fire_needs-Rhythm paced_slot paced refl paced-IsSequence (entry 0 110 3300) two_paced
      three-InRange third_code

three_Rhythm : Rhythm paced (entry 0 110 3300 ∷ two_codes)
three_Rhythm = (follows, (follows', tt))
  where
    follows : Follows paced (entry 0 110 3300) (entry 0 104 3120) (entry 0 100 3000 ∷ [])
    follows = record {
      later = omega arith;
      gap_min = omega arith;
      gap_max = omega arith;
      in_window = omega arith;
    }

    follows' : Follows paced (entry 0 104 3120) (entry 0 100 3000) []
    follows' = record {
      later = omega arith;
      gap_min = omega arith;
      gap_max = omega arith;
      in_window = omega arith;
    }

Rhythm-fires_example :
    (st : SlotState) × Round paced_slot two_codes st
    × (enter st paced_slot (entry 0 110 3300) ≡ (idle, Verdict.fire Action.unlock))
Rhythm-fires_example =
    Rhythm-fires paced_slot paced refl paced-IsSequence refl (entry 0 110 3300) two_codes
      three-InRange three_Rhythm refl

-- Two legs within ten minutes.
abbrev legs : LegPath
legs = record { legs = 2; leg_keys = 0 ∷ 1 ∷ 0 ∷ 0 ∷ []; leg_deadline_s = 600; delay_max_s = 60 }

abbrev legs_slot : Slot
legs_slot = slot_of (Policy.path legs)

legs-IsPath : IsPath legs
legs-IsPath = record { legs_pos = omega arith; legs_u8 = omega arith }

abbrev one_leg : SlotState
one_leg = record idle { count = 1; last_counter = 100; last_code_s = 3000 }

first_leg : enter idle legs_slot (entry 0 100 3000) ≡ (one_leg, Verdict.progress 1 2)
unfolding on_code
first_leg = refl

second_leg : enter one_leg legs_slot (entry 1 115 3450) ≡ (idle, Verdict.fire Action.unlock)
unfolding on_code
second_leg = refl

one_leg_done : Round legs_slot (entry 0 100 3000 ∷ []) one_leg
one_leg_done = advance (entry 0 100 3000) start first_leg

fire_needs-Journey_example :
    (length (entry 1 115 3450 ∷ entry 0 100 3000 ∷ []) ≡ 2)
    × Journey legs (entry 1 115 3450 ∷ entry 0 100 3000 ∷ [])
    × (Action.unlock ≡ legs_slot.action)
    × (idle ≡ idle)
fire_needs-Journey_example =
    fire_needs-Journey legs_slot legs refl legs-IsPath (entry 1 115 3450) one_leg_done
      (omega arith, (omega arith, tt)) second_leg

-- Two of three keys within two minutes.
abbrev two_of_three : Quorum
two_of_three = record {
  m = 2;
  n_keys = 3;
  keys = 0 ∷ 1 ∷ 2 ∷ 0 ∷ [];
  window_s = 120;
  alternating = true;
  gap_min_s = 0;
  gap_max_s = 120;
}

abbrev quorum_slot : Slot
quorum_slot = slot_of (Policy.quorum two_of_three)

two_of_three-IsQuorum : IsQuorum two_of_three
two_of_three-IsQuorum = record { m_pos = omega arith; m_u8 = omega arith }

abbrev one_key : SlotState
one_key = record idle {
  count = 1;
  last_counter = 100;
  window_start_s = 3000;
  last_code_s = 3000;
  seen_mask = 2;
  last_kidx = 1;
}

first_key : enter idle quorum_slot (entry 1 100 3000) ≡ (one_key, Verdict.progress 1 2)
unfolding on_code
first_key = refl

second_key : enter one_key quorum_slot (entry 2 102 3060) ≡ (idle, Verdict.fire Action.unlock)
unfolding on_code
second_key = refl

one_key_in : Round quorum_slot (entry 1 100 3000 ∷ []) one_key
one_key_in = advance (entry 1 100 3000) start first_key

fire_needs_distinct_example :
    (length (entry 2 102 3060 ∷ entry 1 100 3000 ∷ []) ≡ 2)
    × Contributions two_of_three (entry 2 102 3060 ∷ entry 1 100 3000 ∷ [])
    × (Action.unlock ≡ quorum_slot.action)
    × (idle ≡ idle)
fire_needs_distinct_example =
    fire_needs_distinct quorum_slot two_of_three refl two_of_three-IsQuorum (entry 2 102 3060)
      one_key_in (omega arith, (omega arith, tt)) second_key

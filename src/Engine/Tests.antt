-- ===== src/Engine/Tests.antt =====
-- Runs of the engine with a concrete tag in place of HMAC-SHA1: its first byte is that of the key,
-- and the three bytes behind it are the lowest of the counter.
use ephemerkey.Common.{
  ℕ, ◌+◌, ◌*◌, ◌^◌, ◌≡◌, refl, true, false, Option, none, some, List, [], ◌∷◌, ◌++◌, arith, get_or,
  drop, replicate, update, Run, ◌/◌, ◌-◌, ◌≤◌, ◌<◌, All,
}
use ephemerkey.Policy.{
  Action, Gates, NegativeAction, Policy, Sensors, Slot, all_gates_open, block, delay_window,
}
use ephemerkey.Slots
use ephemerkey.Slots.{idle, Verdict}
use ephemerkey.Totp.{render_from, parse, hotp}
use ephemerkey.Receipt.{Receipt, msg, secret_slice, mint}
use ephemerkey.Engine.{
  KeyDef, LockEngine, Outcome, new, candidates, policy_candidates, numbered, each, enqueue, dequeue,
}
use ephemerkey.Engine.Search.{search, match_key}
use ephemerkey.Engine.Window.{Searched, secret_of, match_key_lem}
use ephemerkey.Engine.Frame.{KeyOk, SlotOk, Configured, BudgetOk, Quiet, pending}
use ephemerkey.Engine.Effect.{Entered}
use ephemerkey.Engine.Entering.{enter_code_with-Entered}
use ephemerkey.Engine.History.{Ran, start, took}
use ephemerkey.Engine.Once.{Falling, Ran-Kept}
use ephemerkey.Engine.Queue.{waiting, enqueue_overtakes}
use ephemerkey.Engine.Lapse.{armed_outlives_sustain}
use ephemerkey.Totp.{Code}
use mathlib.Core.Path.{subst}
use native.Mathlib.Decide.{ℕ_discrete}
use ephemerkey.Engine.Clock.{
  for_each, minted, mint_receipt, owe_relock, tick_state, fire_armed, tick_at, tick_slot, tick,
  owed_reset, reset_slot,
}
use ephemerkey.Engine.Enter.{
  code_matches, entered_matches, veto_slot, fire, conclude, accept, matched, punish, try_decoy,
  searched, try_key, try_candidate, enter_slot, reset_if, reset_invalid, no_match, after_tick,
  enter_code_with,
}

abbrev tag : List ℕ → List ℕ → List ℕ
tag key message = (get_or key 0 0 ∷ drop 5 message) ++ replicate 16 0

-- The text of the eight-digit code that the key of first byte `k` mints at counter `c`.
text : ℕ → ℕ → List ℕ
unfolding render_from
text k c = render_from 8 (k * 2 ^ 24 + c) []

abbrev key : ℕ → Option ℕ → KeyDef
key k decoy = record { secret = k ∷ replicate 31 0; secret_len = 20; digits = 8; decoy = decoy }

abbrev no_gates : Gates
no_gates = record { own_fence = none; stillness_s = 0; calendar = none }

abbrev master : Slot
master = record {
  key = 0;
  policy = Policy.always_valid;
  gates = no_gates;
  action = Action.unlock;
  show_progress = false;
  reset_on_invalid = false;
  negative = NegativeAction.lockout 60;
  veto_delay_s = 0;
  veto_key = none;
  budget = 5;
}

abbrev lock : LockEngine
lock = record new {
  keys = update (update new.keys 0 (some (key 1 (some 1)))) 1 (some (key 2 none));
  slots = update new.slots 0 (some master);
}

run : List ℕ → ℕ → Sensors → LockEngine → Run (LockEngine × Outcome)
unfolding enter_code_with after_tick code_matches entered_matches veto_slot fire conclude accept
    matched punish try_decoy searched try_key try_candidate enter_slot reset_if reset_invalid
    no_match for_each minted mint_receipt owe_relock tick_state fire_armed tick_at tick_slot tick
    owed_reset reset_slot search match_key each candidates policy_candidates numbered enqueue hotp
    parse secret_slice mint msg block delay_window Slots.on_code Slots.tick
run = enter_code_with tag

outcome : Run (LockEngine × Outcome) → Option Outcome
outcome none = none
outcome (some (e, o)) = some o

fires : outcome (run (text 1 100) 3000 all_gates_open lock) ≡ some (Outcome.fired 0 Action.unlock)
unfolding run outcome text
fires = refl

-- The code of the previous period is still searched, that of the next one is not.
late_and_early :
    (outcome (run (text 1 99) 3000 all_gates_open lock) ≡ some (Outcome.fired 0 Action.unlock))
    × (outcome (run (text 1 101) 3000 all_gates_open lock) ≡ some Outcome.invalid)
unfolding run outcome text
late_and_early = (refl, refl)

decoy_hit :
    outcome (run (text 2 100) 3000 all_gates_open lock)
    ≡ some (Outcome.negative 0 (NegativeAction.lockout 60))
unfolding run outcome text
decoy_hit = refl

abbrev engine_of : Run (LockEngine × Outcome) → LockEngine
engine_of none = lock
engine_of (some (e, o)) = e

-- After a code of the master slot, and after one more, a minute later.
once : LockEngine
unfolding run text
once = engine_of (run (text 1 100) 3000 all_gates_open lock)

twice : LockEngine
unfolding once
twice = engine_of (run (text 1 102) 3060 all_gates_open once)

ran_once :
    enter_code_with tag (text 1 100) 3000 all_gates_open lock
    ≡ some (once, Outcome.fired 0 Action.unlock)
unfolding run text once
ran_once = refl

-- The text of the first code, a period later.
replayed :
    outcome (enter_code_with tag (text 1 100) 3030 all_gates_open once) ≡ some (Outcome.replay 0)
unfolding run outcome text once
replayed = refl

ran_twice :
    enter_code_with tag (text 1 102) 3060 all_gates_open once
    ≡ some (twice, Outcome.fired 0 Action.unlock)
unfolding run text once twice
ran_twice = refl

keyed : (x d : KeyDef) → KeyOk x → some x ≡ some d → KeyOk d
keyed x d ok e = let q : x ≡ d = cc in subst KeyOk q ok

lock-keys : (k : ℕ) (d : KeyDef) → lock.keys k ≡ some d → KeyOk d
lock-keys k d at = elim (ℕ_discrete k 1) [
  | yes one ↦
      keyed (key 2 none) d (record { fits = omega arith; small = omega arith; decoy_in = tt })
        (rw one at at)
  | no not_one ↦ elim (ℕ_discrete k 0) [
    | yes nought ↦
        keyed (key 1 (some 1)) d
          (record { fits = omega arith; small = omega arith; decoy_in = omega arith })
          (rw nought at at)
    | no not_nought ↦ absurd (ground arith)
  ]
]

lock-slots : (i : ℕ) (s : Slot) → lock.slots i ≡ some s → master ≡ s
lock-slots i s at = ground arith

master-SlotOk : SlotOk master
master-SlotOk = record { key_in = omega arith; veto_in = tt; policy_ok = tt }

lock-Configured : Configured lock
lock-Configured = record {
  keys_ok = lock-keys;
  slots_ok = λ i s at. subst SlotOk (lock-slots i s at) master-SlotOk;
  receipts_ok = tt;
}

lock-BudgetOk : BudgetOk lock
lock-BudgetOk i s at = ground arith

enter_code_with-Entered_example :
    (e0 e' : LockEngine) × (o : Outcome) × (tick tag 3000 lock ≡ some e0)
    × (enter_code_with tag (text 1 100) 3000 all_gates_open lock ≡ some (e', o))
    × Quiet lock e0
    × Entered tag (text 1 100) 3000 all_gates_open e0 e' o
enter_code_with-Entered_example =
    enter_code_with-Entered tag (text 1 100) 3000 all_gates_open lock lock-Configured

abbrev engine_at : Run LockEngine → LockEngine
engine_at none = lock
engine_at (some e) = e

-- The ticks in front of the two codes.
first_tick : LockEngine
unfolding tick for_each tick_slot tick_at tick_state fire_armed minted mint_receipt owe_relock
    Slots.tick
first_tick = engine_at (tick tag 3000 lock)

second_tick : LockEngine
unfolding tick for_each tick_slot tick_at tick_state fire_armed minted mint_receipt owe_relock
    Slots.tick once run text
second_tick = engine_at (tick tag 3060 once)

ticked_first : tick tag 3000 lock ≡ some first_tick
unfolding tick for_each tick_slot tick_at tick_state fire_armed minted mint_receipt owe_relock
    Slots.tick first_tick
ticked_first = refl

ticked_second : tick tag 3060 once ≡ some second_tick
unfolding tick for_each tick_slot tick_at tick_state fire_armed minted mint_receipt owe_relock
    Slots.tick second_tick once run text
ticked_second = refl

two_runs : Ran tag 0 lock (twice.burned 0 ∷ once.burned 0 ∷ []) 2 twice
unfolding first_tick second_tick once run text
two_runs =
    took second_tick (text 1 102) 3060 all_gates_open
      (took first_tick (text 1 100) 3000 all_gates_open start ticked_first ran_once refl)
      ticked_second ran_twice refl

Ran-Kept_example :
    Falling (twice.burned 0 ∷ once.burned 0 ∷ [])
    × All (λ c. c ≤ twice.burned 0) (twice.burned 0 ∷ once.burned 0 ∷ [])
    × ((slot : Slot)
        → lock.slots 0 ≡ some slot
        → 0 < slot.budget
        → slot.budget ≤ 65535
        → lock.fired_count 0 + 2 + pending (twice.armed_until 0) ≤ slot.budget)
Ran-Kept_example = Ran-Kept tag 0 lock lock-Configured lock-BudgetOk two_runs

abbrev typed : Code
typed = record { value = 2 ^ 24 + 100; digits = 8 }

match_key_lem_example :
    (r : Option ℕ) × (match_key tag (key 1 none) typed 3030 (0, 60) ≡ some r)
    × Searched tag (secret_of (key 1 none)) typed 8 ((3030 - 60) / 30) ((3030 - 0) / 30) r
match_key_lem_example =
    match_key_lem tag (key 1 none) typed 3030 0 60 (omega arith) refl (omega arith) (omega arith)
      (omega arith)

abbrev receipt : ℕ → Receipt
receipt n = record {
  action = Action.lock;
  seq = n;
  time_s = 3000;
  seq_code = none;
  time_code = none;
}

abbrev queue : List (Option Receipt)
queue = some (receipt 0) ∷ some (receipt 1) ∷ none ∷ []

enqueue_overtakes_example :
    (waiting (dequeue queue).0 ≡ receipt 1 ∷ [])
    × ((dequeue (enqueue (dequeue queue).0 (receipt 2))).1 ≡ some (receipt 2))
enqueue_overtakes_example = enqueue_overtakes (receipt 0) (receipt 1) (none ∷ []) (receipt 2)

-- Locks again 600 seconds after the last code, and a fire waits an hour for a veto.
abbrev guard : Slot
guard = record master { policy = Policy.dead_man 600; veto_delay_s = 3600 }

abbrev guarded : LockEngine
guarded = record lock {
  slots = update lock.slots 0 (some guard);
  state = update lock.state 0 (record idle { count = 1; last_code_s = 3000; sustained = true });
  armed_until = update lock.armed_until 0 (some 6600);
}

armed_outlives_sustain_example :
    (e1 e2 : LockEngine) × (tick_slot tag 3601 0 guarded ≡ some e1)
    × (e1.pending_relock ≡ 1)
    × (tick_slot tag 6600 0 e1 ≡ some e2)
    × (e2.pending_fire ≡ 1)
    × (e2.pending_relock ≡ e1.pending_relock)
    × (e2.state 0 ≡ idle)
    × ((t : ℕ) → Slots.tick (e2.state 0) guard t ≡ (idle, false))
armed_outlives_sustain_example =
    armed_outlives_sustain tag guarded 0 3601 6600 6600 600 guard refl refl refl refl refl
      (omega arith) (omega arith) (omega arith)

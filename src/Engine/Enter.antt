-- ===== src/Engine/Enter.antt =====
-- engine.rs, `enter_code_with`: one entered code at one time, in the environment of the gates.
use ephemerkey.Common.{
  ℕ, ◌+◌, ◌*◌, Option, none, some, List, ltb, leb, if◌then◌else◌, ◌&&◌, u32, u64, update, Run,
  ◌>>=◌,
}
use ephemerkey.Policy.{
  Action, GateBlock, NegativeAction, Sensors, Slot, all_gates_open, block, delay_window, period_s,
}
use ephemerkey.Slots
use ephemerkey.Slots.{Verdict, idle}
use ephemerkey.Totp.{Code, parse}
use ephemerkey.Engine.{KeyDef, LockEngine, Outcome, candidates, each, key_at, one_more, slot_range}
use ephemerkey.Engine.Search.{match_key}
use ephemerkey.Engine.Clock.{for_each, mint_receipt, reset_slot, tick}

-- The end of one round of a loop: `continue`, or `return`.
abbrev pub Step : Type 0
Step = Run (LockEngine × Option Outcome)

abbrev pub continue : LockEngine → Step
continue e = some (e, none)

abbrev pub return : LockEngine → Outcome → Step
return e o = some (e, some o)

-- `let Some(x) = o else { continue };`
abbrev pub let_some : {A : Type 0} → Option A → LockEngine → (A → Step) → Step
let_some none e body = continue e
let_some (some x) e body = body x

module _ (hmac : List ℕ → List ℕ → List ℕ) where
  -- Does a text, read as a code of `key`, match it in the delay window?
  unfoldable pub code_matches : ℕ → KeyDef → ℕ × ℕ → Option Code → Run (Option ℕ)
  code_matches now key delay none = some none
  code_matches now key delay (some code) = match_key hmac key code now delay

  unfoldable pub entered_matches : List ℕ → ℕ → KeyDef → ℕ × ℕ → Run (Option ℕ)
  entered_matches entered now key delay = code_matches now key delay (parse entered key.digits)

  unfoldable pub veto_slot : List ℕ → ℕ → ℕ → LockEngine → Step
  veto_slot entered now i e = let_some (e.slots i) e λ slot. let_some (e.armed_until i) e λ _.
      let_some slot.veto_key e λ vk. key_at e vk >>= λ k. let_some k e λ key.
        entered_matches entered now key (0, 2 * period_s) >>= λ m. let_some m e λ _.
          return
            (record e { armed_until = update e.armed_until i none; state = update e.state i idle })
            (Outcome.vetoed i)

  -- A satisfied policy: the budget, the veto window, or the fire itself.
  unfoldable pub fire : ℕ → Slot → Action → ℕ → LockEngine → Step
  fire i slot action now e =
      if ltb 0 slot.budget && leb slot.budget (e.fired_count i)
      then return e (Outcome.exhausted i)
      else if ltb 0 slot.veto_delay_s
      then return
          (record e { armed_until = update e.armed_until i (some (u64 (now + slot.veto_delay_s))) })
          (Outcome.armed i (u64 (now + slot.veto_delay_s)))
      else (mint_receipt hmac
            (record e { fired_count = update e.fired_count i (one_more (e.fired_count i)) }) action
            (u32 now)
          >>= λ e1. return e1 (Outcome.fired i action))

  -- `Verdict::Negative` is `unreachable!`.
  unfoldable pub conclude : ℕ → Slot → ℕ → LockEngine → Verdict → Step
  conclude i slot now e (Verdict.progress have need) = return e (Outcome.progress i have need)
  conclude i slot now e (Verdict.fire action) = fire i slot action now e
  conclude i slot now e Verdict.beat = return e (Outcome.beat i)
  conclude i slot now e Verdict.reset = return e (Outcome.reset i)
  conclude i slot now e Verdict.ignored = return e (Outcome.replay i)
  conclude i slot now e Verdict.negative = none

  -- A fresh counter is burned, then fed to the slot's state machine.
  unfoldable pub accept : ℕ → Slot → ℕ → ℕ → ℕ → LockEngine → Step
  accept i slot kidx counter now e =
      let (st, verdict) = Slots.on_code (e.state i) slot kidx counter (u32 now) in
      conclude i slot now
        (record e { burned = update e.burned i counter; state = update e.state i st }) verdict

  unfoldable pub matched : ℕ → Slot → Option GateBlock → ℕ → ℕ → ℕ → LockEngine → Step
  matched i slot (some reason) kidx counter now e = return e (Outcome.gated i reason)
  matched i slot none kidx counter now e =
      if leb counter (e.burned i)
      then return e (Outcome.replay i)
      else accept i slot kidx counter now e

  unfoldable pub punish : ℕ → ℕ → NegativeAction → LockEngine → Run LockEngine
  punish i now_s NegativeAction.reset e = reset_slot hmac i now_s e
  punish i now_s (NegativeAction.lockout s) e = reset_slot hmac i now_s e >>= λ e1.
      some (record e1 { lockout_until = update e1.lockout_until i (u32 (now_s + s)) })
  punish i now_s NegativeAction.silent e = some e

  unfoldable pub try_decoy : List ℕ → ℕ → ℕ → Slot → KeyDef → LockEngine → Step
  try_decoy entered now i slot key e = let_some key.decoy e λ d. key_at e d >>= λ k.
      let_some k e λ dk. entered_matches entered now dk (delay_window slot.policy) >>= λ m.
      let_some m e λ _.
        punish i (u32 now) slot.negative e >>= λ e1. return e1 (Outcome.negative i slot.negative)

  -- A candidate key whose window the code was searched in, with what it matched. During a lockout
  -- a match is only reported.
  unfoldable pub searched :
      List ℕ → ℕ → ℕ → Slot → Option GateBlock → ℕ → KeyDef → LockEngine → Option ℕ → Step
  searched entered now i slot gate kidx key e none = try_decoy entered now i slot key e
  searched entered now i slot gate kidx key e (some counter) =
      if ltb (u32 now) (e.lockout_until i)
      then return e (Outcome.locked_out i)
      else matched i slot gate kidx counter now e

  -- A text that is no code of the candidate's length goes on to the next candidate.
  unfoldable pub try_key : List ℕ → ℕ → ℕ → Slot → Option GateBlock → ℕ → LockEngine → KeyDef → Step
  try_key entered now i slot gate kidx e key = let_some (parse entered key.digits) e λ code.
      match_key hmac key code now (delay_window slot.policy) >>= λ m.
      searched entered now i slot gate kidx key e m

  unfoldable pub try_candidate :
      List ℕ → ℕ → ℕ → Slot → Option GateBlock → ℕ × ℕ → LockEngine → Step
  try_candidate entered now i slot gate (ktab, kidx) e =
      key_at e ktab >>= λ k. let_some k e λ key. try_key entered now i slot gate kidx e key

  unfoldable pub enter_slot : List ℕ → ℕ → Sensors → ℕ → LockEngine → Step
  enter_slot entered now env i e = let_some (e.slots i) e λ slot.
      candidates slot (e.state i) >>= λ cands.
      each cands (try_candidate entered now i slot (block slot.gates env)) e

  unfoldable pub reset_if : ℕ → ℕ → Option Slot → LockEngine → Run LockEngine
  reset_if now_s i none e = some e
  reset_if now_s i (some slot) e =
      if slot.reset_on_invalid then reset_slot hmac i now_s e else some e

  unfoldable pub reset_invalid : ℕ → ℕ → LockEngine → Run LockEngine
  reset_invalid now_s i e = reset_if now_s i (e.slots i) e

  -- What follows a loop: its return, or the rest of the function.
  abbrev pub or_else :
      LockEngine × Option Outcome
      → (LockEngine → Run (LockEngine × Outcome))
      → Run (LockEngine × Outcome)
  or_else (e, some o) rest = some (e, o)
  or_else (e, none) rest = rest e

  unfoldable pub no_match : ℕ → LockEngine → Run (LockEngine × Outcome)
  no_match now_s e =
      for_each slot_range (reset_invalid now_s) e >>= λ e1. some (e1, Outcome.invalid)

  -- The body behind the call of `tick`.
  unfoldable pub after_tick : List ℕ → ℕ → Sensors → LockEngine → Run (LockEngine × Outcome)
  after_tick entered now env e = each slot_range (veto_slot entered now) e >>= λ r0.
      or_else r0 λ e1. each slot_range (enter_slot entered now env) e1 >>= λ r1.
      or_else r1 λ e2. no_match (u32 now) e2

  unfoldable pub enter_code_with : List ℕ → ℕ → Sensors → LockEngine → Run (LockEngine × Outcome)
  enter_code_with entered now env e = tick hmac now e >>= λ e0. after_tick entered now env e0

  unfoldable pub enter_code : List ℕ → ℕ → LockEngine → Run (LockEngine × Outcome)
  enter_code entered now e = enter_code_with entered now all_gates_open e

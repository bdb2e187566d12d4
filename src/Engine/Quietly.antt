-- ===== src/Engine/Quietly.antt =====
-- The time step, the forced reset and the receipts return, and are quiet.
use ephemerkey.Common.{
  ℕ, ◌/◌, ◌≡◌, ◌≤◌, Bool, true, false, Option, none, some, List, [], ◌∷◌, leb, if◌then◌else◌, ◌&&◌,
  u32, update, take, refl, sym, Run, arith,
}
use ephemerkey.Policy.{Action, Slot, period_s}
use ephemerkey.Slots
use ephemerkey.Slots.{SlotState, idle}
use ephemerkey.Totp.{Code}
use ephemerkey.Totp.Entry.{hotp_returns}
use ephemerkey.Receipt.{
  Receipts, has_seq, has_time, if_some, kind_seq, kind_time, mint, msg, secret_slice,
}
use ephemerkey.Engine.{LockEngine, one_more, relock_action, slot_range}
use ephemerkey.Engine.Clock.{
  for_each, is_dead_man, minted, mint_receipt, owe_relock, tick_state, fire_armed, tick_at,
  tick_slot, tick, owed_reset, reset_slot,
}
use ephemerkey.Engine.Frame.{
  Ends, Ends-bind, Ends-map, ReceiptsOk, BudgetOk, Counts, Quiet, Quiet-refl, Quiet-trans,
  Quiet-of_same,
}

module _ (hmac : List ℕ → List ℕ → List ℕ) where
  if_some_returns :
      (b : Bool) (m : Run Code)
      → (c : Code) × (m ≡ some c)
      → (o : Option Code) × (if_some b m ≡ some o)
  if_some_returns true m (c, e) = (some c, rw e)
  if_some_returns false m (c, e) = (none, refl)

  slice_returns :
      (buffer : List ℕ) (len : ℕ) → len ≤ 32 → secret_slice buffer len ≡ some (take len buffer)
  unfolding secret_slice
  slice_returns buffer len h = ground arith

  mint_returns :
      (rc : Receipts) (a : Action) (t : ℕ)
      → ReceiptsOk (some rc)
      → Ends (mint hmac rc a t) (λ (rc', r). ReceiptsOk (some rc'))
  unfolding mint
  mint_returns rc a t (len, small) =
      let slice = slice_returns rc.secret rc.secret_len len in
      let key = take rc.secret_len rc.secret in
      let (c, q) =
        if_some_returns (has_seq rc.mode) _
          (hotp_returns hmac key (msg kind_seq a rc.next_seq) rc.digits small) in
      let (d, p) =
        if_some_returns (has_time rc.mode) _
          (hotp_returns hmac key (msg kind_time a (t / period_s)) rc.digits small) in
      rw (slice, q, p) (len, small)

  minted_Quiet :
      (o : Option Receipts) (e : LockEngine) (a : Action) (t : ℕ)
      → o ≡ e.receipts
      → ReceiptsOk o
      → Ends (minted hmac o e a t) (Quiet e)
  unfolding minted
  minted_Quiet none e a t is ok = Quiet-refl e
  minted_Quiet (some rc) e a t is ok =
      Ends-bind (mint hmac rc a t) _ _ (Quiet e) (mint_returns rc a t ok)
        (λ (rc', r) ok'. Quiet-of_same refl refl refl refl refl refl (λ _. ok'))

  pub mint_receipt-Quiet :
      (e : LockEngine) (a : Action) (t : ℕ)
      → ReceiptsOk e.receipts
      → Ends (mint_receipt hmac e a t) (Quiet e)
  unfolding mint_receipt
  mint_receipt-Quiet e a t ok = minted_Quiet e.receipts e a t refl ok

  -- A quiet change of the engine, then a receipt.
  pub then_receipt :
      (e e1 : LockEngine) (a : Action) (t : ℕ)
      → ReceiptsOk e.receipts
      → Quiet e e1
      → Ends (mint_receipt hmac e1 a t) (Quiet e)
  then_receipt e e1 a t ok q =
      Ends-map (mint_receipt hmac e1 a t) (Quiet e1) (Quiet e) (λ e2 q2. Quiet-trans q q2)
        (mint_receipt-Quiet e1 a t (q.receipts_kept ok))

  owe_relock-Quiet :
      (i : ℕ) (slot : Slot) (t : ℕ) (e : LockEngine)
      → ReceiptsOk e.receipts
      → Ends (owe_relock hmac i slot t e) (Quiet e)
  unfolding owe_relock
  owe_relock-Quiet i slot t e ok =
      then_receipt e _ (relock_action slot.action) t ok
        (Quiet-of_same refl refl refl refl refl refl (λ r. r))

  state-Quiet : (e : LockEngine) (s : ℕ → SlotState) → Quiet e (record e { state = s })
  state-Quiet e s = Quiet-of_same refl refl refl refl refl refl (λ r. r)

  -- Either branch of a test is quiet.
  pub branch-Quiet :
      (e : LockEngine) (b : Bool) (m n : Run LockEngine)
      → Ends m (Quiet e)
      → Ends n (Quiet e)
      → Ends (if b then m else n) (Quiet e)
  branch-Quiet e true m n hm hn = hm
  branch-Quiet e false m n hm hn = hn

  tick_state-Quiet :
      (t i : ℕ) (slot : Slot) (e : LockEngine)
      → ReceiptsOk e.receipts
      → Ends (tick_state hmac t i slot e) (Quiet e)
  unfolding tick_state
  tick_state-Quiet t i slot e ok =
      let (st, due) = Slots.tick (e.state i) slot t in
      let e1 : LockEngine = record e { state = update e.state i st } in
      let q = state-Quiet e (update e.state i st) in
      branch-Quiet e due _ _
        (Ends-map (owe_relock hmac i slot t e1) (Quiet e1) (Quiet e) (λ e2 q2. Quiet-trans q q2)
          (owe_relock-Quiet i slot t e1 ok))
        q

  -- The fire of an armed slot moves one unit of its budget from due to done.
  fired-BudgetOk :
      (e : LockEngine) (i fire_at : ℕ)
      → e.armed_until i ≡ some fire_at
      → BudgetOk e
      → BudgetOk (record e {
        armed_until = update e.armed_until i none;
        fired_count = update e.fired_count i (one_more (e.fired_count i));
      })
  fired-BudgetOk e i fire_at armed b j slot at = ground (arith, b j slot at)

  fired-Counts :
      (e : LockEngine) (i fire_at : ℕ)
      → e.armed_until i ≡ some fire_at
      → Counts e (record e {
        armed_until = update e.armed_until i none;
        fired_count = update e.fired_count i (one_more (e.fired_count i));
      })
  fired-Counts e i fire_at armed b j (slot, at, pos, small) =
      let budget = (b j slot at).0 pos in ground (arith, budget)

  fire_armed-Quiet :
      (now i : ℕ) (slot : Slot) (o : Option ℕ) (e : LockEngine)
      → o ≡ e.armed_until i
      → ReceiptsOk e.receipts
      → Ends (fire_armed hmac now i slot o e) (Quiet e)
  unfolding fire_armed
  fire_armed-Quiet now i slot none e is ok = Quiet-refl e
  fire_armed-Quiet now i slot (some fire_at) e is ok =
      branch-Quiet e (leb fire_at now) _ _
        (then_receipt e _ slot.action (u32 now) ok (record {
          keys_eq = refl;
          slots_eq = refl;
          burned_eq = refl;
          lockout_eq = refl;
          receipts_kept = λ r. r;
          budget_kept = fired-BudgetOk e i fire_at (sym is);
          counts = fired-Counts e i fire_at (sym is);
        }))
        (Quiet-refl e)

  tick_at-Quiet :
      (now i : ℕ) (o : Option Slot) (e : LockEngine)
      → ReceiptsOk e.receipts
      → Ends (tick_at hmac now i o e) (Quiet e)
  unfolding tick_at
  tick_at-Quiet now i none e ok = Quiet-refl e
  tick_at-Quiet now i (some slot) e ok =
      Ends-bind (tick_state hmac (u32 now) i slot e) _ (Quiet e) (Quiet e)
        (tick_state-Quiet (u32 now) i slot e ok)
        (λ e1 q.
          Ends-map (fire_armed hmac now i slot (e1.armed_until i) e1) (Quiet e1) (Quiet e)
            (λ e2 q2. Quiet-trans q q2)
            (fire_armed-Quiet now i slot (e1.armed_until i) e1 refl (q.receipts_kept ok)))

  -- A loop whose rounds are quiet is quiet.
  pub for_each-Quiet :
      (is : List ℕ) (body : ℕ → LockEngine → Run LockEngine) (e : LockEngine)
      → ((i : ℕ) (e : LockEngine) → ReceiptsOk e.receipts → Ends (body i e) (Quiet e))
      → ReceiptsOk e.receipts
      → Ends (for_each is body e) (Quiet e)
  unfolding for_each
  for_each-Quiet [] body e keep ok = Quiet-refl e
  for_each-Quiet (i ∷ is) body e keep ok =
      Ends-bind (body i e) _ (Quiet e) (Quiet e) (keep i e ok) (λ e1 q.
        Ends-map (for_each is body e1) (Quiet e1) (Quiet e) (λ e2 q2. Quiet-trans q q2)
          (for_each-Quiet is body e1 keep (q.receipts_kept ok)))

  -- `tick` returns, changes neither the configuration nor the burn watermarks nor the lockouts, and
  -- keeps every slot in its budget, if the confirm secret fits and has at most 10 digits.
  pub tick-Quiet :
      (now : ℕ) (e : LockEngine) → ReceiptsOk e.receipts → Ends (tick hmac now e) (Quiet e)
  unfolding tick tick_slot
  tick-Quiet now e ok =
      for_each-Quiet slot_range _ e (λ i e1 ok1. tick_at-Quiet now i (e1.slots i) e1 ok1) ok

  owed_reset-Quiet :
      (i t : ℕ) (o : Option Slot) (e : LockEngine)
      → ReceiptsOk e.receipts
      → Ends (owed_reset hmac i t o e) (Quiet e)
  unfolding owed_reset
  owed_reset-Quiet i t none e ok = Quiet-refl e
  owed_reset-Quiet i t (some slot) e ok =
      branch-Quiet e (is_dead_man slot.policy && (e.state i).sustained) _ _
        (owe_relock-Quiet i slot t e ok) (Quiet-refl e)

  pub reset_slot-idle :
      (i t : ℕ) (e : LockEngine)
      → ReceiptsOk e.receipts
      → Ends (reset_slot hmac i t e) (λ e'. Quiet e e' × (e'.state i ≡ idle))
  unfolding reset_slot
  reset_slot-idle i t e ok =
      Ends-bind (owed_reset hmac i t (e.slots i) e) _ (Quiet e) _
        (owed_reset-Quiet i t (e.slots i) e ok)
        (λ e1 q. (Quiet-trans q (state-Quiet e1 (update e1.state i idle)), ground (arith)))

  pub reset_slot-Quiet :
      (i t : ℕ) (e : LockEngine) → ReceiptsOk e.receipts → Ends (reset_slot hmac i t e) (Quiet e)
  reset_slot-Quiet i t e ok =
      Ends-map (reset_slot hmac i t e) _ (Quiet e) (λ e' q. q.0) (reset_slot-idle i t e ok)

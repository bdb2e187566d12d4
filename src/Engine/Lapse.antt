-- ===== src/Engine/Lapse.antt =====
-- A dead-man slot with a veto window that outlasts its beat.
use ephemerkey.Common.{
  ℕ, ◌≡◌, ◌≤◌, ◌<◌, ◌^◌, true, false, none, some, u32, sub32, update, bit_or, arith, refl, List,
}
use ephemerkey.Policy.{Policy, Slot}
use ephemerkey.Slots
use ephemerkey.Slots.{SlotState, idle}
use ephemerkey.Engine.{LockEngine, one_more}
use ephemerkey.Engine.Clock.{
  tick_slot, tick_at, tick_state, fire_armed, owe_relock, mint_receipt, minted,
}

update_here : {A : Type 0} (f : ℕ → A) (i : ℕ) (v : A) → update f i v i ≡ v
update_here f i v = ground arith

tick-lapse :
    (st : SlotState) (slot : Slot) (beat_s now_s : ℕ)
    → slot.policy ≡ Policy.dead_man beat_s
    → st.sustained ≡ true
    → beat_s < sub32 now_s st.last_code_s
    → Slots.tick st slot now_s ≡ (idle, true)
unfolding Slots.tick
tick-lapse st slot beat_s now_s pol sus lapse = rw pol (ground arith)

tick-rest :
    (st : SlotState) (slot : Slot) (beat_s now_s : ℕ)
    → slot.policy ≡ Policy.dead_man beat_s
    → st ≡ idle
    → Slots.tick st slot now_s ≡ (idle, false)
unfolding Slots.tick
tick-rest st slot beat_s now_s pol at = rw pol (rw at refl)

module _ (hmac : List ℕ → List ℕ → List ℕ) where
  -- The engine after the tick that lets the sustain of slot `i` go, and after the one that fires it.
  abbrev lapsed : LockEngine → ℕ → LockEngine
  lapsed e i = record e {
    state = update e.state i idle;
    pending_relock = bit_or e.pending_relock (2 ^ i);
  }

  abbrev overdue : LockEngine → ℕ → LockEngine
  overdue e i = record e {
    state = update e.state i idle;
    armed_until = update e.armed_until i none;
    fired_count = update e.fired_count i (one_more (e.fired_count i));
    pending_fire = bit_or e.pending_fire (2 ^ i);
  }

  tick_slot-lapsed :
      (e : LockEngine) (i now fire_at beat_s : ℕ) (slot : Slot)
      → e.slots i ≡ some slot
      → slot.policy ≡ Policy.dead_man beat_s
      → e.receipts ≡ none
      → (e.state i).sustained ≡ true
      → e.armed_until i ≡ some fire_at
      → beat_s < sub32 (u32 now) (e.state i).last_code_s
      → now < fire_at
      → tick_slot hmac now i e ≡ some (lapsed e i)
  unfolding tick_slot tick_at tick_state owe_relock mint_receipt minted fire_armed
  tick_slot-lapsed e i now fire_at beat_s slot at pol rec sus arm lapse before = rw at (
      rw (tick-lapse (e.state i) slot beat_s (u32 now) pol sus lapse)
        (rw rec (rw arm (ground arith))))

  tick_slot-overdue :
      (e : LockEngine) (i later fire_at beat_s : ℕ) (slot : Slot)
      → e.slots i ≡ some slot
      → slot.policy ≡ Policy.dead_man beat_s
      → e.receipts ≡ none
      → e.state i ≡ idle
      → e.armed_until i ≡ some fire_at
      → fire_at ≤ later
      → tick_slot hmac later i e ≡ some (overdue e i)
  unfolding tick_slot tick_at tick_state owe_relock mint_receipt minted fire_armed
  tick_slot-overdue e i later fire_at beat_s slot at pol rec rest arm after =
      rw at (
        rw (tick-rest (e.state i) slot beat_s (u32 later) pol rest)
          (rw arm (rw rec (ground arith))))

  -- Of an engine without a confirm minter: a dead-man slot is sustained and armed, its beat lapses at
  -- `now`, before the veto window ends, and the window has ended at `later`. The tick at `now` owes
  -- the re-lock and lets the sustain go, but leaves the slot armed; the tick at `later` fires it. The
  -- slot has then fired while nothing sustains it, so that no later tick ever owes a re-lock.
  pub armed_outlives_sustain :
      (e : LockEngine) (i now later fire_at beat_s : ℕ) (slot : Slot)
      → e.slots i ≡ some slot
      → slot.policy ≡ Policy.dead_man beat_s
      → e.receipts ≡ none
      → (e.state i).sustained ≡ true
      → e.armed_until i ≡ some fire_at
      → beat_s < sub32 (u32 now) (e.state i).last_code_s
      → now < fire_at
      → fire_at ≤ later
      → (e1 e2 : LockEngine) × (tick_slot hmac now i e ≡ some e1)
        × (e1.pending_relock ≡ bit_or e.pending_relock (2 ^ i))
        × (tick_slot hmac later i e1 ≡ some e2)
        × (e2.pending_fire ≡ bit_or e.pending_fire (2 ^ i))
        × (e2.pending_relock ≡ e1.pending_relock)
        × (e2.state i ≡ idle)
        × ((t : ℕ) → Slots.tick (e2.state i) slot t ≡ (idle, false))
  armed_outlives_sustain e i now later fire_at beat_s slot at pol rec sus arm lapse before after = (
    lapsed e i,
    overdue (lapsed e i) i,
    tick_slot-lapsed e i now fire_at beat_s slot at pol rec sus arm lapse before,
    refl,
    tick_slot-overdue (lapsed e i) i later fire_at beat_s slot at pol rec
        (update_here e.state i idle) arm after,
    refl,
    refl,
    update_here (update e.state i idle) i idle,
    λ t.
        tick-rest (update (update e.state i idle) i idle i) slot beat_s t pol
          (update_here (update e.state i idle) i idle),
  )

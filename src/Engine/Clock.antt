-- ===== src/Engine/Clock.antt =====
-- engine.rs: the receipts of the engine, its time step `tick`, and the forced reset of a slot.
use ephemerkey.Common.{
  ℕ, ◌^◌, Bool, true, false, Option, none, some, List, [], ◌∷◌, leb, if◌then◌else◌, ◌&&◌, u32,
  update, Run, ◌>>=◌, bit_or,
}
use ephemerkey.Policy.{Action, Policy, Slot}
use ephemerkey.Slots
use ephemerkey.Slots.{idle}
use ephemerkey.Receipt.{Receipts, mint}
use ephemerkey.Engine.{LockEngine, relock_action, enqueue, one_more, slot_range}

-- A loop over the slots that does not return early.
unfoldable pub for_each : List ℕ → (ℕ → LockEngine → Run LockEngine) → LockEngine → Run LockEngine
for_each [] body e = some e
for_each (i ∷ is) body e = body i e >>= λ e'. for_each is body e'

abbrev pub is_dead_man : Policy → Bool
is_dead_man (Policy.dead_man beat_s) = true
is_dead_man Policy.always_valid = false
is_dead_man (Policy.sequence p) = false
is_dead_man (Policy.path p) = false
is_dead_man (Policy.quorum p) = false

module _ (hmac : List ℕ → List ℕ → List ℕ) where
  unfoldable pub minted : Option Receipts → LockEngine → Action → ℕ → Run LockEngine
  minted none e action now_s = some e
  minted (some rc) e action now_s = mint hmac rc action now_s >>= λ (rc', r).
      some (record e { receipts = some rc'; pending_receipt = enqueue e.pending_receipt r })

  unfoldable pub mint_receipt : LockEngine → Action → ℕ → Run LockEngine
  mint_receipt e action now_s = minted e.receipts e action now_s

  unfoldable pub attest : LockEngine → Action → ℕ → Run LockEngine
  attest e action now = mint_receipt e action (u32 now)

  -- The re-lock that slot `i` owes: its bit, and the receipt of the opposite action.
  unfoldable pub owe_relock : ℕ → Slot → ℕ → LockEngine → Run LockEngine
  owe_relock i slot now_s e =
      mint_receipt (record e { pending_relock = bit_or e.pending_relock (2 ^ i) })
        (relock_action slot.action) now_s

  -- The first half of `tick` at slot `i`: its state machine.
  unfoldable pub tick_state : ℕ → ℕ → Slot → LockEngine → Run LockEngine
  tick_state now_s i slot e =
      let (st, due) = Slots.tick (e.state i) slot now_s in
      let e1 = record e { state = update e.state i st } in
      if due then owe_relock i slot now_s e1 else some e1

  unfoldable pub fire_armed : ℕ → ℕ → Slot → Option ℕ → LockEngine → Run LockEngine
  fire_armed now i slot none e = some e
  fire_armed now i slot (some fire_at) e =
      if leb fire_at now
      then mint_receipt
          (record e {
            armed_until = update e.armed_until i none;
            fired_count = update e.fired_count i (one_more (e.fired_count i));
            pending_fire = bit_or e.pending_fire (2 ^ i);
          })
          slot.action (u32 now)
      else some e

  unfoldable pub tick_at : ℕ → ℕ → Option Slot → LockEngine → Run LockEngine
  tick_at now i none e = some e
  tick_at now i (some slot) e =
      tick_state (u32 now) i slot e >>= λ e1. fire_armed now i slot (e1.armed_until i) e1

  unfoldable pub tick_slot : ℕ → ℕ → LockEngine → Run LockEngine
  tick_slot now i e = tick_at now i (e.slots i) e

  unfoldable pub tick : ℕ → LockEngine → Run LockEngine
  tick now e = for_each slot_range (tick_slot now) e

  unfoldable pub owed_reset : ℕ → ℕ → Option Slot → LockEngine → Run LockEngine
  owed_reset i now_s none e = some e
  owed_reset i now_s (some slot) e =
      if is_dead_man slot.policy && (e.state i).sustained then owe_relock i slot now_s e else some e

  unfoldable pub reset_slot : ℕ → ℕ → LockEngine → Run LockEngine
  reset_slot i now_s e =
      owed_reset i now_s (e.slots i) e >>= λ e1. some (record e1 { state = update e1.state i idle })

-- ===== src/Slots/Journey.antt =====
-- What a `Path` slot demands of the codes of a round before it fires.
use mathlib.Core.Path.{subst}
use ephemerkey.Common.{
  ℕ, ◌+◌, ◌-◌, ◌*◌, ◌≡◌, ◌≢◌, ◌≤◌, ◌<◌, List, [], ◌∷◌, length, arith, All, refl, sym, ap, ◌∙◌,
}
use ephemerkey.Policy.{Slot, Policy, Action, LegPath, period_s}
use ephemerkey.Slots.{SlotState, Verdict, idle, on_code, gen_gap, path_count, path_code}
use ephemerkey.Slots.Dispatch.{on_path}
use ephemerkey.Slots.Round.{Entry, Round, enter, InRange, start, advance, skip}

-- Every leg was minted after the one before it, within the deadline.
abbrev pub Journey : LegPath → List Entry → Type 0
Journey p [] = Unit {0}
Journey p (e ∷ []) = Unit {0}
Journey p (e ∷ f ∷ r) =
    (f.counter < e.counter)
    × ((e.counter - f.counter) * period_s ≤ p.leg_deadline_s)
    × Journey p (f ∷ r)

pub record IsPath (p : LegPath) : Type 0 where
  pub legs_pos : 0 < p.legs
  pub legs_u8 : p.legs < 256

abbrev At : List Entry → SlotState → Type 0
At [] st = Unit {0}
At (e ∷ r) st = st.last_counter ≡ e.counter

record PathInv (p : LegPath) (es : List Entry) (st : SlotState) : Type 0 where
  count_eq : st.count ≡ length es
  room : length es < p.legs
  at : At es st
  journey : Journey p es

data Checked (p : LegPath) (a : Action) (st : SlotState) (c t : ℕ) (out : SlotState × Verdict)
    : Type 0 where
  ignored : out ≡ (st, Verdict.ignored) → Checked p a st c t out
  broke : out ≡ (idle, Verdict.reset) → Checked p a st c t out
  opened : st.count ≡ 0 → out ≡ path_count p a st c t → Checked p a st c t out
  kept :
      0 < st.count
      → st.last_counter < c
      → gen_gap st c ≤ p.leg_deadline_s
      → out ≡ path_count p a st c t
      → Checked p a st c t out

on_code-Checked :
    (slot : Slot) (p : LegPath) (st : SlotState) (k c t : ℕ)
    → slot.policy ≡ Policy.path p
    → Checked p slot.action st c t (on_code st slot k c t)
unfolding path_code
on_code-Checked slot p st k c t e =
    rw (on_path slot st k c t p e) (grind (arith, ignored, broke, opened, kept))

module _ (p : LegPath) (a : Action) (st : SlotState) (c t : ℕ) (ok : IsPath p)
    (room : st.count < p.legs) where
  count_progress :
      {st' : SlotState} {h n : ℕ}
      → path_count p a st c t ≡ (st', Verdict.progress h n)
      → (st.count + 1 < p.legs)
        × (st'.count ≡ st.count + 1)
        × (st'.last_counter ≡ c)
        × (h ≡ st.count + 1)
        × (n ≡ p.legs)
  unfolding path_count
  count_progress h = ground (arith, ok.legs_u8)

  count_fire :
      {st' : SlotState} {b : Action}
      → path_count p a st c t ≡ (st', Verdict.fire b)
      → (st.count + 1 ≡ p.legs) × (st' ≡ idle) × (b ≡ a)
  unfolding path_count
  count_fire h = ground (arith, ok.legs_u8)

  count_ne_ignored : {st' : SlotState} → path_count p a st c t ≢ (st', Verdict.ignored)
  unfolding path_count
  count_ne_ignored h = ground arith

-- What a code does to a round: it is passed over, breaks the round, or is the next leg.
data Settled (p : LegPath) (a : Action) (es : List Entry) (e : Entry) (st : SlotState)
    (out : SlotState × Verdict) : Type 0 where
  left_alone : out ≡ (st, Verdict.ignored) → Settled p a es e st out
  broken : out ≡ (idle, Verdict.reset) → Settled p a es e st out
  counts : Journey p (e ∷ es) → out ≡ path_count p a st e.counter e.at_s → Settled p a es e st out

settle :
    (p : LegPath) (a : Action) (es : List Entry) (e : Entry) (st : SlotState)
    (out : SlotState × Verdict)
    → PathInv p es st
    → InRange e
    → Checked p a st e.counter e.at_s out
    → Settled p a es e st out
settle p a es e st out inv r (ignored h) = left_alone h
settle p a es e st out inv r (broke h) = broken h
settle p a [] e st out inv r (opened z h) = counts tt h
settle p a (f ∷ fs) e st out inv r (opened z h) = absurd (omega (arith, inv.count_eq))
settle p a [] e st out inv r (kept z l g h) = absurd (omega (arith, inv.count_eq))
settle p a (f ∷ fs) e st out inv r (kept z l g h) =
    counts (omega (arith, inv.at), ground (arith, inv.at), inv.journey) h

module _ (slot : Slot) (p : LegPath) (is : slot.policy ≡ Policy.path p) (ok : IsPath p) where
  entered :
      (es : List Entry) (e : Entry) (st : SlotState)
      → PathInv p es st
      → InRange e
      → Settled p slot.action es e st (enter st slot e)
  entered es e st inv r =
      settle p slot.action es e st _ inv r (on_code-Checked slot p st e.kidx e.counter e.at_s is)

  advanced :
      (es : List Entry) (e : Entry) (st st' : SlotState) (h n : ℕ) (out : SlotState × Verdict)
      → PathInv p es st
      → Settled p slot.action es e st out
      → out ≡ (st', Verdict.progress h n)
      → PathInv p (e ∷ es) st'
  advanced es e st st' h n out inv (left_alone g) q = absurd (cc)
  advanced es e st st' h n out inv (broken g) q = absurd (cc)
  advanced es e st st' h n out inv (counts j g) q =
      let (room, cnt, ctr, have, need) =
        count_progress p slot.action st e.counter e.at_s ok (omega (arith, inv.room, inv.count_eq))
          (sym g ∙ q) in
      record {
        count_eq = omega (arith, inv.count_eq);
        room = omega (arith, inv.count_eq);
        at = ctr;
        journey = j;
      }

  skipped :
      (es : List Entry) (st st' : SlotState) (c t : ℕ) (out : SlotState × Verdict)
      → PathInv p es st
      → Checked p slot.action st c t out
      → out ≡ (st', Verdict.ignored)
      → PathInv p es st'
  skipped es st st' c t out inv (ignored g) q =
      subst (PathInv p es) (ap (λ (o : SlotState × Verdict). o.0) (sym g ∙ q)) inv
  skipped es st st' c t out inv (broke g) q = absurd (cc)
  skipped es st st' c t out inv (opened z g) q =
      absurd (
        count_ne_ignored p slot.action st c t ok (omega (arith, inv.room, inv.count_eq))
          (sym g ∙ q))
  skipped es st st' c t out inv (kept z l w g) q =
      absurd (
        count_ne_ignored p slot.action st c t ok (omega (arith, inv.room, inv.count_eq))
          (sym g ∙ q))

  Round-PathInv :
      {es : List Entry} {st : SlotState} → Round slot es st → All InRange es → PathInv p es st
  Round-PathInv start rs = record { count_eq = refl; room = ok.legs_pos; at = tt; journey = tt }
  Round-PathInv (advance {es} {st} {st'} {have} {need} e r q) rs =
      let inv = Round-PathInv r rs.1 in
      advanced es e st st' have need _ inv (entered es e st inv rs.0) q
  Round-PathInv (skip {es} {st} {st'} e r q) rs =
      skipped es st st' e.counter e.at_s _ (Round-PathInv r rs)
        (on_code-Checked slot p st e.kidx e.counter e.at_s is) q

  fired :
      (es : List Entry) (e : Entry) (st st' : SlotState) (b : Action) (out : SlotState × Verdict)
      → PathInv p es st
      → Settled p slot.action es e st out
      → out ≡ (st', Verdict.fire b)
      → (length (e ∷ es) ≡ p.legs) × Journey p (e ∷ es) × (b ≡ slot.action) × (st' ≡ idle)
  fired es e st st' b out inv (left_alone g) q = absurd (cc)
  fired es e st st' b out inv (broken g) q = absurd (cc)
  fired es e st st' b out inv (counts j g) q =
      let (n, i, eq) =
        count_fire p slot.action st e.counter e.at_s ok (omega (arith, inv.room, inv.count_eq))
          (sym g ∙ q) in
      (omega (arith, inv.count_eq), j, eq, i)

  -- A `Path` slot fires only by a round of exactly `legs` counted codes, the firing one included,
  -- each of which was minted later than the one before it and within `leg_deadline_s` of it; it
  -- fires its own action and falls idle. The counters are those of times before 2106.
  pub fire_needs-Journey :
      {es : List Entry} {st st' : SlotState} {a : Action} (e : Entry)
      → Round slot es st
      → All InRange (e ∷ es)
      → enter st slot e ≡ (st', Verdict.fire a)
      → (length (e ∷ es) ≡ p.legs) × Journey p (e ∷ es) × (a ≡ slot.action) × (st' ≡ idle)
  fire_needs-Journey {es} {st} {st'} {a} e r rs q =
      let inv = Round-PathInv r rs.1 in fired es e st st' a _ inv (entered es e st inv rs.0) q

  -- The `count` of a path is the leg that is due: with `k` legs done it is `k`, below `legs`.
  pub count-leg :
      {es : List Entry} {st : SlotState}
      → Round slot es st
      → All InRange es
      → (st.count ≡ length es) × (st.count < p.legs)
  count-leg r rs =
      let inv = Round-PathInv r rs in (inv.count_eq, omega (arith, inv.count_eq, inv.room))

-- ===== src/Slots/Rhythm.antt =====
-- What a `Sequence` slot demands of the codes of a round before it fires.
use ephemerkey.Common.{
  ℕ, ◌+◌, ◌-◌, ◌*◌, ◌≡◌, ◌≤◌, ◌<◌, List, [], ◌∷◌, length, arith, All, sub32, u32, refl, sym, ap,
  ◌∙◌, bit_or, bit_xor, ◌≢◌,
}
use ephemerkey.Policy.{Slot, Policy, Action, Sequence, period_s}
use ephemerkey.Slots.{
  SlotState, Verdict, idle, on_code, counted, gen_gap, sequence_count, sequence_code,
}
use ephemerkey.Slots.Pacing.{pace_draw-IsDrawn}
use mathlib.Core.Path.{subst}
use native.Mathlib.Decide.{dec_lt}
use ephemerkey.Slots.Dispatch.{on_sequence}
use ephemerkey.Slots.Round.{Entry, Round, enter, InRange, start, advance, skip}

-- The arrival time of the first code of a round.
abbrev pub first_at : Entry → List Entry → ℕ
first_at e [] = e.at_s
first_at e (f ∷ r) = first_at f r

-- A code after another one: minted later, with a generation gap in the configured bounds, and
-- arrived in the window that the first code opened.
pub record Follows (p : Sequence) (e f : Entry) (r : List Entry) : Type 0 where
  pub later : f.counter < e.counter
  pub gap_min : p.gap_min_s ≤ (e.counter - f.counter) * period_s
  pub gap_max : (e.counter - f.counter) * period_s ≤ p.gap_max_s
  pub in_window : sub32 e.at_s (first_at f r) ≤ p.window_s

-- Every code but the first follows the one before it.
abbrev pub Rhythm : Sequence → List Entry → Type 0
Rhythm p [] = Unit {0}
Rhythm p (e ∷ []) = Unit {0}
Rhythm p (e ∷ f ∷ r) = Follows p e f r × Rhythm p (f ∷ r)

-- The state keeps the anchors of the last code and a window inside the configured bounds.
abbrev Anchored : Sequence → List Entry → SlotState → Type 0
Anchored p [] st = st ≡ idle
Anchored p (e ∷ r) st =
    (st.last_counter ≡ e.counter)
    × (st.window_start_s ≡ first_at e r)
    × (p.gap_min_s ≤ st.pace_lo_s)
    × (st.pace_hi_s ≤ p.gap_max_s)

-- The bounds that a provisioned sequence satisfies.
pub record IsSequence (p : Sequence) : Type 0 where
  pub gap_order : p.gap_min_s ≤ p.gap_max_s
  pub gap_u16 : p.gap_max_s < 65536
  pub n_pos : 0 < p.n
  pub n_u8 : p.n < 256

record SeqInv (p : Sequence) (es : List Entry) (st : SlotState) : Type 0 where
  count_eq : st.count ≡ length es
  room : length es < p.n
  anchored : Anchored p es st
  rhythm : Rhythm p es

module _ (p : Sequence) (a : Action) (st : SlotState) (c t : ℕ) (ok : IsSequence p) where
  -- A code that `sequence_count` counts leaves the anchors of the next check.
  count_progress :
      {st' : SlotState} {h m : ℕ}
      → st.count < p.n
      → sequence_count p a st c t ≡ (st', Verdict.progress h m)
      → (st.count + 1 < p.n)
        × (st'.count ≡ st.count + 1)
        × (st'.last_counter ≡ c)
        × (st'.window_start_s ≡ st.window_start_s)
        × (p.gap_min_s ≤ st'.pace_lo_s)
        × (st'.pace_hi_s ≤ p.gap_max_s)
  unfolding sequence_count
  count_progress b h = ground (
    arith,
    pace_draw-IsDrawn (counted st c t) p.gap_min_s p.gap_max_s p.pace_jitter_s ok.gap_order
        ok.gap_u16,
  )

  count_fire :
      {st' : SlotState} {b : Action}
      → st.count < p.n
      → sequence_count p a st c t ≡ (st', Verdict.fire b)
      → (st.count + 1 ≡ p.n) × (st' ≡ idle) × (b ≡ a)
  unfolding sequence_count
  count_fire b h = ground arith

  count_ne_ignored : {st' : SlotState} → sequence_count p a st c t ≢ (st', Verdict.ignored)
  unfolding sequence_count
  count_ne_ignored h = ground arith

-- What the checks before counting establish.
data Checked (p : Sequence) (a : Action) (st : SlotState) (c t : ℕ) (out : SlotState × Verdict)
    : Type 0 where
  ignored : out ≡ (st, Verdict.ignored) → Checked p a st c t out
  broke : out ≡ (idle, Verdict.reset) → Checked p a st c t out
  opened :
      (st0 : SlotState)
      → st.count ≡ 0
      → st0.count ≡ 0
      → st0.window_start_s ≡ t
      → out ≡ sequence_count p a st0 c t
      → Checked p a st c t out
  kept :
      0 < st.count
      → st.last_counter < c
      → st.pace_lo_s ≤ gen_gap st c
      → gen_gap st c ≤ st.pace_hi_s
      → sub32 t st.window_start_s ≤ p.window_s
      → out ≡ sequence_count p a st c t
      → Checked p a st c t out

on_code-Checked :
    (slot : Slot) (p : Sequence) (st : SlotState) (k c t : ℕ)
    → slot.policy ≡ Policy.sequence p
    → Checked p slot.action st c t (on_code st slot k c t)
unfolding sequence_code
on_code-Checked slot p st k c t e = rw (on_sequence slot st k c t p e) (elim (dec_lt 0 st.count) [
  | yes h ↦ grind (arith, ignored, broke, kept)
  | no h ↦
      opened
        (record st { window_start_s = t; pace_rng = bit_or (bit_xor (u32 (c * 0x9e37_79b9)) t) 1 })
        (omega arith) (omega arith) refl (ground arith)
])

-- What a code does to a round: it is passed over, breaks the round, or keeps the rhythm and counts.
data Settled (p : Sequence) (a : Action) (es : List Entry) (e : Entry) (st : SlotState)
    (out : SlotState × Verdict) : Type 0 where
  left_alone : out ≡ (st, Verdict.ignored) → Settled p a es e st out
  broken : out ≡ (idle, Verdict.reset) → Settled p a es e st out
  counts :
      (st0 : SlotState)
      → st0.count ≡ length es
      → st0.window_start_s ≡ first_at e es
      → Rhythm p (e ∷ es)
      → out ≡ sequence_count p a st0 e.counter e.at_s
      → Settled p a es e st out

settle :
    (p : Sequence) (a : Action) (es : List Entry) (e : Entry) (st : SlotState)
    (out : SlotState × Verdict)
    → SeqInv p es st
    → InRange e
    → Checked p a st e.counter e.at_s out
    → Settled p a es e st out
settle p a es e st out inv r (ignored h) = left_alone h
settle p a es e st out inv r (broke h) = broken h
settle p a [] e st out inv r (opened st0 z z0 w h) = counts st0 z0 w tt h
settle p a (f ∷ fs) e st out inv r (opened st0 z z0 w h) = absurd (omega (arith, inv.count_eq))
settle p a [] e st out inv r (kept z l lo hi w h) = absurd (omega (arith, inv.count_eq))
settle p a (f ∷ fs) e st out inv r (kept z l lo hi w h) =
    counts st inv.count_eq inv.anchored.1 (follows, inv.rhythm) h
  where
    follows : Follows p e f fs
    follows = ground (arith, inv.anchored)

step-SeqInv :
    (p : Sequence) (a : Action) (es : List Entry) (e : Entry) (st st' : SlotState) (h m : ℕ)
    (out : SlotState × Verdict)
    → IsSequence p
    → SeqInv p es st
    → Settled p a es e st out
    → out ≡ (st', Verdict.progress h m)
    → SeqInv p (e ∷ es) st'
step-SeqInv p a es e st st' h m out ok inv (left_alone g) q = absurd (cc)
step-SeqInv p a es e st st' h m out ok inv (broken g) q = absurd (cc)
step-SeqInv p a es e st st' h m out ok inv (counts st0 z w r g) q =
    let (room, cnt, ctr, win, lo, hi) =
      count_progress p a st0 e.counter e.at_s ok (omega (arith, inv.room)) (sym g ∙ q) in
    record {
      count_eq = omega arith;
      room = omega arith;
      anchored = (ctr, win ∙ w, lo, hi);
      rhythm = r;
    }

-- A code that a sequence passes over changes nothing.
ignored-same :
    (p : Sequence) (a : Action) (st st' : SlotState) (c t : ℕ) (out : SlotState × Verdict)
    → IsSequence p
    → Checked p a st c t out
    → out ≡ (st', Verdict.ignored)
    → st ≡ st'
ignored-same p a st st' c t out ok (ignored g) q = ap (λ (o : SlotState × Verdict). o.0) (sym g ∙ q)
ignored-same p a st st' c t out ok (broke g) q = absurd (cc)
ignored-same p a st st' c t out ok (opened st0 z z0 w g) q =
    absurd (count_ne_ignored p a st0 c t ok (sym g ∙ q))
ignored-same p a st st' c t out ok (kept z l lo hi w g) q =
    absurd (count_ne_ignored p a st c t ok (sym g ∙ q))

fired-Rhythm :
    (p : Sequence) (a b : Action) (es : List Entry) (e : Entry) (st st' : SlotState)
    (out : SlotState × Verdict)
    → IsSequence p
    → SeqInv p es st
    → Settled p a es e st out
    → out ≡ (st', Verdict.fire b)
    → (length (e ∷ es) ≡ p.n) × Rhythm p (e ∷ es) × (b ≡ a) × (st' ≡ idle)
fired-Rhythm p a b es e st st' out ok inv (left_alone g) q = absurd (cc)
fired-Rhythm p a b es e st st' out ok inv (broken g) q = absurd (cc)
fired-Rhythm p a b es e st st' out ok inv (counts st0 z w r g) q =
    let (n, i, eq) = count_fire p a st0 e.counter e.at_s ok (omega (arith, inv.room)) (sym g ∙ q) in
    (omega arith, r, eq, i)

module _ (slot : Slot) (p : Sequence) (is : slot.policy ≡ Policy.sequence p)
    (ok : IsSequence p) where
  entered :
      (es : List Entry) (e : Entry) (st : SlotState)
      → SeqInv p es st
      → InRange e
      → Settled p slot.action es e st (enter st slot e)
  entered es e st inv r =
      settle p slot.action es e st _ inv r (on_code-Checked slot p st e.kidx e.counter e.at_s is)

  Round-SeqInv :
      {es : List Entry} {st : SlotState} → Round slot es st → All InRange es → SeqInv p es st
  Round-SeqInv start rs = record { count_eq = refl; room = ok.n_pos; anchored = refl; rhythm = tt }
  Round-SeqInv (advance {es} {st} {st'} {have} {need} e r q) rs =
      let inv = Round-SeqInv r rs.1 in
      step-SeqInv p slot.action es e st st' have need _ ok inv (entered es e st inv rs.0) q
  Round-SeqInv (skip {es} {st} {st'} e r q) rs =
      subst (SeqInv p es)
        (ignored-same p slot.action st st' e.counter e.at_s _ ok
          (on_code-Checked slot p st e.kidx e.counter e.at_s is) q)
        (Round-SeqInv r rs)

  -- A `Sequence` slot with bounds in order fires only by a round of exactly `n` counted codes, the
  -- firing one included, each of which was minted later than the one before it, with a gap in
  -- `[gap_min_s, gap_max_s]`, and arrived within `window_s` of the first; it fires its own action
  -- and falls idle. The counters are those of times before 2106.
  pub fire_needs-Rhythm :
      {es : List Entry} {st st' : SlotState} {a : Action} (e : Entry)
      → Round slot es st
      → All InRange (e ∷ es)
      → enter st slot e ≡ (st', Verdict.fire a)
      → (length (e ∷ es) ≡ p.n) × Rhythm p (e ∷ es) × (a ≡ slot.action) × (st' ≡ idle)
  fire_needs-Rhythm {es} {st} {st'} {a} e r rs q =
      let inv = Round-SeqInv r rs.1 in
      fired-Rhythm p slot.action a es e st st' _ ok inv (entered es e st inv rs.0) q

-- ===== src/Slots/Liveness.antt =====
-- A `Sequence` slot without jitter fires on every round that keeps its rhythm.
use ephemerkey.Common.{
  ℕ, ◌+◌, ◌*◌, ◌≡◌, ◌<◌, List, [], ◌∷◌, length, arith, All, u32, refl, ◌∙◌, bit_or, bit_xor,
}
use ephemerkey.Policy.{Slot, Policy, Action, Sequence}
use ephemerkey.Slots.{SlotState, Verdict, idle, pace_draw, counted, sequence_count, sequence_code}
use ephemerkey.Slots.Dispatch.{on_sequence}
use ephemerkey.Slots.Round.{Entry, Round, enter, InRange, start, advance}
use ephemerkey.Slots.Rhythm.{first_at, Rhythm, IsSequence}

-- With no jitter the drawn window is the configured one.
abbrev Exact : Sequence → List Entry → SlotState → Type 0
Exact p [] st = st.count ≡ 0
Exact p (e ∷ r) st =
    (st.count ≡ length (e ∷ r))
    × (st.last_counter ≡ e.counter)
    × (st.window_start_s ≡ first_at e r)
    × (st.pace_lo_s ≡ p.gap_min_s)
    × (st.pace_hi_s ≡ p.gap_max_s)

record Counts (p : Sequence) (a : Action) (es : List Entry) (e : Entry) (out : SlotState × Verdict)
    : Type 0 where
  from : SlotState
  count_eq : from.count ≡ length es
  start_eq : from.window_start_s ≡ first_at e es
  out_eq : out ≡ sequence_count p a from e.counter e.at_s

module _ (slot : Slot) (p : Sequence) (is : slot.policy ≡ Policy.sequence p) (ok : IsSequence p)
    (steady : p.pace_jitter_s ≡ 0) where
  in-Rhythm :
      (es : List Entry) (e : Entry) (st : SlotState)
      → Exact p es st
      → InRange e
      → Rhythm p (e ∷ es)
      → Counts p slot.action es e (enter st slot e)
  unfolding sequence_code
  in-Rhythm [] e st x r h = rw (on_sequence slot st e.kidx e.counter e.at_s p is) (record {
    from = record st {
      window_start_s = e.at_s;
      pace_rng = bit_or (bit_xor (u32 (e.counter * 0x9e37_79b9)) e.at_s) 1;
    };
    count_eq = x;
    start_eq = refl;
    out_eq = ground arith;
  })
  in-Rhythm (f ∷ fs) e st x r (h, hs) =
      rw (on_sequence slot st e.kidx e.counter e.at_s p is)
        (record { from = st; count_eq = x.0; start_eq = x.2; out_eq = ground (arith, h) })

  drawn : SlotState → ℕ → ℕ → SlotState
  drawn st c t = record (counted st c t) { pace_lo_s = p.gap_min_s; pace_hi_s = p.gap_max_s }

  count_more :
      (a : Action) (st : SlotState) (c t : ℕ)
      → st.count + 1 < p.n
      → sequence_count p a st c t ≡ (drawn st c t, Verdict.progress (st.count + 1) p.n)
  unfolding sequence_count pace_draw drawn
  count_more a st c t h = ground (arith, ok.n_u8)

  count_last :
      (a : Action) (st : SlotState) (c t : ℕ)
      → st.count + 1 ≡ p.n
      → sequence_count p a st c t ≡ (idle, Verdict.fire a)
  unfolding sequence_count
  count_last a st c t h = ground (arith, ok.n_u8)

  Reaches : List Entry → Type 0
  Reaches es = (st : SlotState) × Round slot es st × Exact p es st

  reach-advance :
      (es : List Entry) (e : Entry) (st : SlotState)
      → Round slot es st
      → Counts p slot.action es e (enter st slot e)
      → length (e ∷ es) < p.n
      → Reaches (e ∷ es)
  unfolding Reaches drawn
  reach-advance es e st r c h =
      let more = count_more slot.action c.from e.counter e.at_s (omega (arith, c.count_eq)) in
      (
        drawn c.from e.counter e.at_s,
        advance e r (c.out_eq ∙ more),
        (ground (arith, c.count_eq, ok.n_u8), refl, c.start_eq, refl, refl),
      )

  Rhythm-tail : (e : Entry) (es : List Entry) → Rhythm p (e ∷ es) → Rhythm p es
  Rhythm-tail e [] h = tt
  Rhythm-tail e (f ∷ fs) h = h.1

  -- Every list of codes in rhythm that is too short to fire is a round.
  reaches : (es : List Entry) → All InRange es → Rhythm p es → length es < p.n → Reaches es
  unfolding Reaches
  reaches [] rs h lt = (idle, start, refl)
  reaches (e ∷ es) rs h lt =
      let (st, r, x) = reaches es rs.1 (Rhythm-tail e es h) (omega arith) in
      reach-advance es e st r (in-Rhythm es e st x rs.0 h) lt

  -- A `Sequence` slot with bounds in order and no jitter fires on every list of `n` codes in
  -- rhythm: the first `n - 1` codes make a round, in which the last one fires the slot's action.
  -- The counters are those of times before 2106.
  pub Rhythm-fires :
      (e : Entry) (es : List Entry)
      → All InRange (e ∷ es)
      → Rhythm p (e ∷ es)
      → length (e ∷ es) ≡ p.n
      → (st : SlotState) × Round slot es st × (enter st slot e ≡ (idle, Verdict.fire slot.action))
  unfolding Reaches
  Rhythm-fires e es rs h n =
      let (st, r, x) = reaches es rs.1 (Rhythm-tail e es h) (omega arith) in
      let c = in-Rhythm es e st x rs.0 h in
      let last = count_last slot.action c.from e.counter e.at_s (omega (arith, c.count_eq)) in
      (st, r, c.out_eq ∙ last)

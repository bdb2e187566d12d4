-- ===== src/Slots/Distinct.antt =====
-- What a `Quorum` slot demands of the codes of a round before it fires.
use ephemerkey.Common.{
  ℕ, ◌+◌, ◌≡◌, ◌≢◌, ◌≤◌, ◌<◌, ◌↔◌, List, [], ◌∷◌, length, arith, All, sub32, refl, sym, ap, ◌∙◌,
  bit_or, bit_and,
}
use Prim.Native.Nat.{bit_and-bitwise}
use mathlib.Core.Path.{subst}
use ephemerkey.Policy.{Slot, Policy, Action, Quorum}
use ephemerkey.Slots.{SlotState, Verdict, idle, on_code, key_bit, quorum_count, quorum_code}
use ephemerkey.Slots.Mask.{set-lt, set-bit}
use ephemerkey.Slots.Dispatch.{on_quorum}
use ephemerkey.Slots.Round.{Entry, Round, enter, start, advance, skip}
use ephemerkey.Slots.Rhythm.{first_at}

-- No code of the round was minted with key `j`.
abbrev pub Fresh : ℕ → List Entry → Type 0
Fresh j es = All (λ f. f.kidx ≢ j) es

-- A contribution after others: by a key that has not contributed yet, in the window that the first
-- one opened.
pub record Contributes (p : Quorum) (e f : Entry) (r : List Entry) : Type 0 where
  pub fresh : Fresh e.kidx (f ∷ r)
  pub in_window : sub32 e.at_s (first_at f r) ≤ p.window_s

abbrev pub Contributions : Quorum → List Entry → Type 0
Contributions p [] = Unit {0}
Contributions p (e ∷ []) = Unit {0}
Contributions p (e ∷ f ∷ r) = Contributes p e f r × Contributions p (f ∷ r)

pub record IsQuorum (p : Quorum) : Type 0 where
  pub m_pos : 0 < p.m
  pub m_u8 : p.m < 256

-- The state before a code is counted: the first code opens the window.
record Ready (es : List Entry) (st : SlotState) : Type 0 where
  mask_small : st.seen_mask < 16
  seen : (j : ℕ) → j < 4 → (bit_and st.seen_mask (key_bit j) ≡ 0) ↔ Fresh j es
  count_eq : st.count ≡ length es

abbrev Started : List Entry → SlotState → Type 0
Started [] st = Unit {0}
Started (e ∷ r) st = st.window_start_s ≡ first_at e r

record QuorumInv (p : Quorum) (es : List Entry) (st : SlotState) : Type 0 where
  ready : Ready es st
  room : length es < p.m
  started : Started es st
  contributions : Contributions p es

-- What the checks before counting establish.
data Checked (p : Quorum) (a : Action) (st : SlotState) (k c t : ℕ) (out : SlotState × Verdict)
    : Type 0 where
  burned : out ≡ (st, Verdict.ignored) → Checked p a st k c t out
  repeated : out ≡ (record st { last_counter = c }, Verdict.ignored) → Checked p a st k c t out
  broke : out ≡ (idle, Verdict.reset) → Checked p a st k c t out
  opened :
      st.count ≡ 0
      → out ≡ quorum_count p a (record st { window_start_s = t }) k c t
      → Checked p a st k c t out
  kept :
      0 < st.count
      → bit_and st.seen_mask (key_bit k) ≡ 0
      → sub32 t st.window_start_s ≤ p.window_s
      → out ≡ quorum_count p a st k c t
      → Checked p a st k c t out

on_code-Checked :
    (slot : Slot) (p : Quorum) (st : SlotState) (k c t : ℕ)
    → slot.policy ≡ Policy.quorum p
    → Checked p slot.action st k c t (on_code st slot k c t)
unfolding quorum_code
on_code-Checked slot p st k c t e =
    rw (on_quorum slot st k c t p e) (grind (arith, broke, opened, kept, burned, repeated))

module _ (p : Quorum) (a : Action) (st : SlotState) (k c t : ℕ) (ok : IsQuorum p)
    (room : st.count < p.m) where
  count_progress :
      {st' : SlotState} {h n : ℕ}
      → quorum_count p a st k c t ≡ (st', Verdict.progress h n)
      → (st.count + 1 < p.m)
        × (st'.count ≡ st.count + 1)
        × (st'.seen_mask ≡ bit_or st.seen_mask (key_bit k))
        × (st'.window_start_s ≡ st.window_start_s)
  unfolding quorum_count
  count_progress h = ground (arith, ok.m_u8)

  count_fire :
      {st' : SlotState} {b : Action}
      → quorum_count p a st k c t ≡ (st', Verdict.fire b)
      → (st.count + 1 ≡ p.m) × (st' ≡ idle) × (b ≡ a)
  unfolding quorum_count
  count_fire h = ground (arith, ok.m_u8)

  count_ne_ignored : {st' : SlotState} → quorum_count p a st k c t ≢ (st', Verdict.ignored)
  unfolding quorum_count
  count_ne_ignored h = ground arith

idle-Ready : Ready [] idle
idle-Ready = record {
  mask_small = omega arith;
  seen = λ j h. (λ _. tt, λ _. bit_and-bitwise 0 (key_bit j));
  count_eq = refl;
}

restarted :
    (c : ℕ) (es : List Entry) (st : SlotState)
    → Started es st
    → Started es (record st { last_counter = c })
restarted c [] st h = tt
restarted c (f ∷ fs) st h = h

-- The invariant does not read the counter of the last code.
moved :
    (p : Quorum) (c : ℕ) (es : List Entry) (st : SlotState)
    → QuorumInv p es st
    → QuorumInv p es (record st { last_counter = c })
moved p c es st i = record {
  ready = record {
    mask_small = i.ready.mask_small;
    seen = i.ready.seen;
    count_eq = i.ready.count_eq;
  };
  room = i.room;
  started = restarted c es st i.started;
  contributions = i.contributions;
}

-- What a code does to a round: it is passed over, breaks the round, or contributes.
data Settled (p : Quorum) (a : Action) (es : List Entry) (e : Entry) (st : SlotState)
    (out : SlotState × Verdict) : Type 0 where
  left_alone :
      (st' : SlotState)
      → QuorumInv p es st'
      → out ≡ (st', Verdict.ignored)
      → Settled p a es e st out
  broken : out ≡ (idle, Verdict.reset) → Settled p a es e st out
  counts :
      (st0 : SlotState)
      → Ready es st0
      → st0.window_start_s ≡ first_at e es
      → Contributions p (e ∷ es)
      → out ≡ quorum_count p a st0 e.kidx e.counter e.at_s
      → Settled p a es e st out

module _ (p : Quorum) (a : Action) where
  settle :
      (es : List Entry) (e : Entry) (st : SlotState) (out : SlotState × Verdict)
      → QuorumInv p es st
      → e.kidx < 4
      → Checked p a st e.kidx e.counter e.at_s out
      → Settled p a es e st out
  settle es e st out inv k (burned h) = left_alone st inv h
  settle es e st out inv k (repeated h) =
      left_alone (record st { last_counter = e.counter }) (moved p e.counter es st inv) h
  settle es e st out inv k (broke h) = broken h
  settle [] e st out inv k (opened z h) =
      counts (record st { window_start_s = e.at_s })
        (record {
          mask_small = inv.ready.mask_small;
          seen = inv.ready.seen;
          count_eq = inv.ready.count_eq;
        })
        refl tt h
  settle (f ∷ fs) e st out inv k (opened z h) = absurd (omega (arith, inv.ready.count_eq))
  settle [] e st out inv k (kept z b w h) = absurd (omega (arith, inv.ready.count_eq))
  settle (f ∷ fs) e st out inv k (kept z b w h) =
      counts st inv.ready inv.started
        (
          record { fresh = (inv.ready.seen e.kidx k).0 b; in_window = rw (← inv.started) w },
          inv.contributions,
        )
        h

  module _ (ok : IsQuorum p) where
    advanced :
        (es : List Entry) (e : Entry) (st st' : SlotState) (h n : ℕ) (out : SlotState × Verdict)
        → QuorumInv p es st
        → e.kidx < 4
        → Settled p a es e st out
        → out ≡ (st', Verdict.progress h n)
        → QuorumInv p (e ∷ es) st'
    advanced es e st st' h n out inv k (left_alone st0 i g) q = absurd (cc)
    advanced es e st st' h n out inv k (broken g) q = absurd (cc)
    advanced es e st st' h n out inv k (counts st0 ready w c g) q =
        let (room, cnt, mask, win) =
          count_progress p a st0 e.kidx e.counter e.at_s ok
            (omega (arith, ready.count_eq, inv.room)) (sym g ∙ q) in
        record {
          ready = record {
            mask_small = rw mask (set-lt st0.seen_mask e.kidx 0 ready.mask_small k (omega arith));
            seen = λ j hj. rw mask (
                let bit = set-bit st0.seen_mask e.kidx j ready.mask_small k hj in
                (
                  λ z. let (ne, y) = bit.0 z in (ne, (ready.seen j hj).0 y),
                  λ (ne, fr). bit.1 (ne, (ready.seen j hj).1 fr),
                ));
            count_eq = omega (arith, ready.count_eq);
          };
          room = omega (arith, ready.count_eq);
          started = win ∙ w;
          contributions = c;
        }

    skipped :
        (es : List Entry) (st st' : SlotState) (k c t : ℕ) (out : SlotState × Verdict)
        → QuorumInv p es st
        → Checked p a st k c t out
        → out ≡ (st', Verdict.ignored)
        → QuorumInv p es st'
    skipped es st st' k c t out inv (burned g) q =
        subst (QuorumInv p es) (ap (λ (o : SlotState × Verdict). o.0) (sym g ∙ q)) inv
    skipped es st st' k c t out inv (repeated g) q =
        subst (QuorumInv p es) (ap (λ (o : SlotState × Verdict). o.0) (sym g ∙ q))
          (moved p c es st inv)
    skipped es st st' k c t out inv (broke g) q = absurd (cc)
    skipped es st st' k c t out inv (opened z g) q =
        absurd (
          count_ne_ignored p a _ k c t ok (omega (arith, inv.room, inv.ready.count_eq)) (sym g ∙ q))
    skipped es st st' k c t out inv (kept z b w g) q =
        absurd (
          count_ne_ignored p a st k c t ok (omega (arith, inv.room, inv.ready.count_eq))
            (sym g ∙ q))

    fired :
        (es : List Entry) (e : Entry) (st st' : SlotState) (b : Action) (out : SlotState × Verdict)
        → QuorumInv p es st
        → Settled p a es e st out
        → out ≡ (st', Verdict.fire b)
        → (length (e ∷ es) ≡ p.m) × Contributions p (e ∷ es) × (b ≡ a) × (st' ≡ idle)
    fired es e st st' b out inv (left_alone st0 i g) q = absurd (cc)
    fired es e st st' b out inv (broken g) q = absurd (cc)
    fired es e st st' b out inv (counts st0 ready w c g) q =
        let (n, i, eq) =
          count_fire p a st0 e.kidx e.counter e.at_s ok (omega (arith, ready.count_eq, inv.room))
            (sym g ∙ q) in
        (omega (arith, ready.count_eq), c, eq, i)

module _ (slot : Slot) (p : Quorum) (is : slot.policy ≡ Policy.quorum p) (ok : IsQuorum p) where
  entered :
      (es : List Entry) (e : Entry) (st : SlotState)
      → QuorumInv p es st
      → e.kidx < 4
      → Settled p slot.action es e st (enter st slot e)
  entered es e st inv k =
      settle p slot.action es e st _ inv k (on_code-Checked slot p st e.kidx e.counter e.at_s is)

  Round-QuorumInv :
      {es : List Entry} {st : SlotState}
      → Round slot es st
      → All (λ e. e.kidx < 4) es
      → QuorumInv p es st
  Round-QuorumInv start ks = record {
    ready = idle-Ready;
    room = ok.m_pos;
    started = tt;
    contributions = tt;
  }
  Round-QuorumInv (advance {es} {st} {st'} {have} {need} e r q) ks =
      let inv = Round-QuorumInv r ks.1 in
      advanced p slot.action ok es e st st' have need _ inv ks.0 (entered es e st inv ks.0) q
  Round-QuorumInv (skip {es} {st} {st'} e r q) ks =
      skipped p slot.action ok es st st' e.kidx e.counter e.at_s _ (Round-QuorumInv r ks)
        (on_code-Checked slot p st e.kidx e.counter e.at_s is) q

  -- A `Quorum` slot fires only by a round of exactly `m` counted codes, the firing one included,
  -- that were minted with `m` different keys and all arrived within `window_s` of the first one; it
  -- fires its own action and falls idle. The key indices are those of its four members.
  pub fire_needs_distinct :
      {es : List Entry} {st st' : SlotState} {a : Action} (e : Entry)
      → Round slot es st
      → All (λ e. e.kidx < 4) (e ∷ es)
      → enter st slot e ≡ (st', Verdict.fire a)
      → (length (e ∷ es) ≡ p.m) × Contributions p (e ∷ es) × (a ≡ slot.action) × (st' ≡ idle)
  fire_needs_distinct {es} {st} {st'} {a} e r ks q =
      let inv = Round-QuorumInv r ks.1 in
      fired p slot.action ok es e st st' a _ inv (entered es e st inv ks.0) q

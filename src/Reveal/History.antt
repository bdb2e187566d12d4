-- ===== src/Reveal/History.antt =====
-- Runs of the generator: any sequence of reveals, fed receipts, ritual outcomes and gatings, in the
-- order of the clock, and what one step can change for a key
-- (firmware/ephemerkey-core/src/reveal.rs).
use ephemerkey.Common.{
  ℕ, ◌≡◌, ◌≢◌, ◌≤◌, inl, inr, refl, Bool, true, false, Option, none, some, List, [], ◌∷◌, arith,
  Bool-cases, ltb,
}
use ephemerkey.Policy.{Action, max_keys}
use ephemerkey.Engine.{Outcome}
use ephemerkey.Reveal.{
  Generator, GenKey, GenKeyState, ChainSpec, Shown, Fed, reveal, feed_chain, apply_ritual_outcome,
  set_gated, set_unlocked, set_duress,
}

pub data Event : Type 0 where
  reveals : ℕ → Shown → Event
  feeds : ℕ → Fed → Event
  ritual : Outcome → Event
  gates : ℕ → Bool → Event

-- Events that do not feed key `idx` an accepted receipt.
abbrev pub Unfed : ℕ → Event → Type 0
Unfed idx (Event.reveals i a) = Unit
Unfed idx (Event.feeds i (Fed.ok until)) = i ≢ idx
Unfed idx (Event.feeds i (Fed.err e)) = Unit
Unfed idx (Event.ritual o) = Unit
Unfed idx (Event.gates i on) = Unit

abbrev pub IsDuress : Outcome → Type 0
IsDuress o = (i : ℕ) × (o ≡ Outcome.fired i Action.duress_unlock)

-- Events that open no duress window.
abbrev pub Unforced : Event → Type 0
Unforced (Event.reveals i a) = Unit
Unforced (Event.feeds i a) = Unit
Unforced (Event.ritual o) = ¬ (IsDuress o)
Unforced (Event.gates i on) = Unit

abbrev pub IsUnlock : Outcome → Type 0
IsUnlock o = (i : ℕ) × (o ≡ Outcome.fired i Action.unlock)

-- Events that open no window at all.
abbrev pub Unopened : Event → Type 0
Unopened (Event.reveals i a) = Unit
Unopened (Event.feeds i a) = Unit
Unopened (Event.ritual o) = (¬ (IsDuress o)) × (¬ (IsUnlock o))
Unopened (Event.gates i on) = Unit

-- Events that do not change the gate of key `idx`.
abbrev pub Ungated : ℕ → Event → Type 0
Ungated idx (Event.reveals i a) = Unit
Ungated idx (Event.feeds i a) = Unit
Ungated idx (Event.ritual o) = Unit
Ungated idx (Event.gates i on) = i ≢ idx

abbrev pub has_chain : Option ChainSpec → Bool
has_chain none = false
has_chain (some ch) = true

-- What no step changes of a key, and what a step can change of its state.
pub record SameKey (gk gk' : GenKey) : Type 0 where
  pub display_eq : gk'.display ≡ gk.display
  pub chain_eq : has_chain gk'.chain ≡ has_chain gk.chain

pub data Change (idx now : ℕ) (ev : Event) (st st' : GenKeyState) : Type 0 where
  same : st' ≡ st → Change idx now ev st st'
  spent :
      st'.last_real ≡ now
      → (st.chain_spent ≡ true → st'.chain_spent ≡ true)
      → Change idx now ev st st'
  renewed : ¬ (Unfed idx ev) → st'.last_real ≡ st.last_real → Change idx now ev st st'

-- What an outcome of the ritual leaves as it was.
pub ritual_keys :
    (g : Generator) (o : Outcome) (now w : ℕ)
    → ((apply_ritual_outcome g o now w).keys ≡ g.keys)
      × ((apply_ritual_outcome g o now w).state ≡ g.state)
      × ((apply_ritual_outcome g o now w).gated ≡ g.gated)
unfolding apply_ritual_outcome set_unlocked set_duress
ritual_keys g (Outcome.fired i Action.unlock) now w = (refl, refl, refl)
ritual_keys g (Outcome.fired i Action.duress_unlock) now w = (refl, refl, refl)
ritual_keys g (Outcome.fired i Action.lock) now w = (refl, refl, refl)
ritual_keys g (Outcome.progress i have need) now w = (refl, refl, refl)
ritual_keys g (Outcome.reset i) now w = (refl, refl, refl)
ritual_keys g (Outcome.replay i) now w = (refl, refl, refl)
ritual_keys g (Outcome.beat i) now w = (refl, refl, refl)
ritual_keys g (Outcome.negative i a) now w = (refl, refl, refl)
ritual_keys g (Outcome.locked_out i) now w = (refl, refl, refl)
ritual_keys g (Outcome.gated i r) now w = (refl, refl, refl)
ritual_keys g Outcome.invalid now w = (refl, refl, refl)
ritual_keys g (Outcome.armed i t) now w = (refl, refl, refl)
ritual_keys g (Outcome.vetoed i) now w = (refl, refl, refl)
ritual_keys g (Outcome.exhausted i) now w = (refl, refl, refl)

pub ritual_duress :
    (g : Generator) (o : Outcome) (now w : ℕ)
    → ¬ (IsDuress o)
    → (apply_ritual_outcome g o now w).duress_until ≡ g.duress_until
unfolding apply_ritual_outcome set_unlocked set_duress
ritual_duress g (Outcome.fired i Action.unlock) now w calm = refl
ritual_duress g (Outcome.fired i Action.duress_unlock) now w calm = absurd (calm (i, refl))
ritual_duress g (Outcome.fired i Action.lock) now w calm = refl
ritual_duress g (Outcome.progress i have need) now w calm = refl
ritual_duress g (Outcome.reset i) now w calm = refl
ritual_duress g (Outcome.replay i) now w calm = refl
ritual_duress g (Outcome.beat i) now w calm = refl
ritual_duress g (Outcome.negative i a) now w calm = refl
ritual_duress g (Outcome.locked_out i) now w calm = refl
ritual_duress g (Outcome.gated i r) now w calm = refl
ritual_duress g Outcome.invalid now w calm = refl
ritual_duress g (Outcome.armed i t) now w calm = refl
ritual_duress g (Outcome.vetoed i) now w calm = refl
ritual_duress g (Outcome.exhausted i) now w calm = refl

pub ritual_window :
    (g : Generator) (o : Outcome) (now w : ℕ)
    → (¬ (IsDuress o)) × (¬ (IsUnlock o))
    → (apply_ritual_outcome g o now w).unlocked_until ≡ g.unlocked_until
unfolding apply_ritual_outcome set_unlocked set_duress
ritual_window g (Outcome.fired i Action.unlock) now w calm = absurd (calm.1 (i, refl))
ritual_window g (Outcome.fired i Action.duress_unlock) now w calm = absurd (calm.0 (i, refl))
ritual_window g (Outcome.fired i Action.lock) now w calm = refl
ritual_window g (Outcome.progress i have need) now w calm = refl
ritual_window g (Outcome.reset i) now w calm = refl
ritual_window g (Outcome.replay i) now w calm = refl
ritual_window g (Outcome.beat i) now w calm = refl
ritual_window g (Outcome.negative i a) now w calm = refl
ritual_window g (Outcome.locked_out i) now w calm = refl
ritual_window g (Outcome.gated i r) now w calm = refl
ritual_window g Outcome.invalid now w calm = refl
ritual_window g (Outcome.armed i t) now w calm = refl
ritual_window g (Outcome.vetoed i) now w calm = refl
ritual_window g (Outcome.exhausted i) now w calm = refl

pub set_gated_keys :
    (g : Generator) (i : ℕ) (on : Bool)
    → ((set_gated g i on).keys ≡ g.keys)
      × ((set_gated g i on).state ≡ g.state)
      × ((set_gated g i on).duress_until ≡ g.duress_until)
      × ((set_gated g i on).unlocked_until ≡ g.unlocked_until)
      × ((idx : ℕ) → i ≢ idx → (set_gated g i on).gated idx ≡ g.gated idx)
unfolding set_gated
set_gated_keys g i on = elim (Bool-cases (ltb i max_keys)) [
  | inl in_range ↦ rw in_range (refl, refl, refl, refl, λ idx other. ground (arith, other))
  | inr out ↦ rw out (refl, refl, refl, refl, λ idx other. refl)
]

module _ (hmac : List ℕ → List ℕ → List ℕ) where
  pub data Step (g : Generator) (now : ℕ) : Event → Generator → Type 0 where
    revealed :
        {g' : Generator} {a : Shown} (i entropy : ℕ)
        → reveal hmac g i now entropy ≡ some (g', a)
        → Step g now (Event.reveals i a) g'
    received :
        {g' : Generator} {a : Fed} (i : ℕ) (code : _)
        → feed_chain hmac g i code now ≡ some (g', a)
        → Step g now (Event.feeds i a) g'
    performed :
        (o : Outcome) (window_s : ℕ)
        → Step g now (Event.ritual o) (apply_ritual_outcome g o now window_s)
    regated : (i : ℕ) (on : Bool) → Step g now (Event.gates i on) (set_gated g i on)

  -- A run from `g` at time `since` to a generator at a later time, the last event first.
  pub data Ran (since : ℕ) (g : Generator) : List Event → ℕ → Generator → Type 0 where
    start : Ran since g [] since g
    next :
        {es : List Event} {ev : Event} {t now : ℕ} {g1 g2 : Generator}
        → Ran since g es t g1
        → t ≤ now
        → Step g1 now ev g2
        → Ran since g (ev ∷ es) now g2

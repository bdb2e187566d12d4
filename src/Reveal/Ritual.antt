-- ===== src/Reveal/Ritual.antt =====
-- What the windows of the ritual let through (firmware/ephemerkey-core/src/reveal.rs).
use ephemerkey.Common.{
  ℕ, ◌+◌, ◌≡◌, ◌≤◌, ◌<◌, inl, inr, refl, true, List, [], ◌∷◌, arith, some, ◌∙◌, All, u64,
}
use ephemerkey.Policy.{Action}
use ephemerkey.Engine.{Outcome}
use ephemerkey.Reveal.{
  Generator, Shown, Reveal, reveal, shut_out, is_unlocked, apply_ritual_outcome, set_duress,
}
use ephemerkey.Reveal.Sight.{IsPoison, reveal-Seen}
use ephemerkey.Reveal.History.{Event, Unforced, Unopened, Ungated, Ran}
use ephemerkey.Reveal.Change.{Step-Frame}

module _ (hmac : List ℕ → List ℕ → List ℕ) where
  -- What a shut key shows is its decoy twin's.
  shut-IsPoison :
      (idx now e : ℕ) (g g' : Generator) (r : Reveal)
      → shut_out g idx now ≡ true
      → reveal hmac g idx now e ≡ some (g', Shown.ok r)
      → IsPoison hmac g idx now e g' r
  shut-IsPoison idx now e g g' r shut shown = elim (reveal-Seen hmac g idx now e shown) [
    | inr poison ↦ poison
    | inl real ↦ let unbarred = real.unbarred in absurd (cc)
  ]

  duress-Ran :
      (idx since t : ℕ) (g g' : Generator) (es : List Event)
      → All Unforced es
      → Ran hmac since g es t g'
      → g'.duress_until ≡ g.duress_until
  duress-Ran idx since t g g' [] calm Ran.start = refl
  duress-Ran idx since t g g' (ev ∷ es) calm (Ran.next {t = s} {now = now} {g1 = g1} run le step) =
      (Step-Frame hmac g1 now idx ev g' step).duress calm.0
      ∙ duress-Ran idx since s g g1 es calm.1 run

  window-Ran :
      (idx since t : ℕ) (g g' : Generator) (es : List Event)
      → All Unopened es
      → Ran hmac since g es t g'
      → g'.unlocked_until ≡ g.unlocked_until
  window-Ran idx since t g g' [] calm Ran.start = refl
  window-Ran idx since t g g' (ev ∷ es) calm (Ran.next {t = s} {now = now} {g1 = g1} run le step) =
      (Step-Frame hmac g1 now idx ev g' step).window calm.0
      ∙ window-Ran idx since s g g1 es calm.1 run

  gated-Ran :
      (idx since t : ℕ) (g g' : Generator) (es : List Event)
      → All (Ungated idx) es
      → Ran hmac since g es t g'
      → g'.gated idx ≡ g.gated idx
  gated-Ran idx since t g g' [] calm Ran.start = refl
  gated-Ran idx since t g g' (ev ∷ es) calm (Ran.next {t = s} {now = now} {g1 = g1} run le step) =
      (Step-Frame hmac g1 now idx ev g' step).gated calm.0
      ∙ gated-Ran idx since s g g1 es calm.1 run

  duress_window :
      (g : Generator) (i now w : ℕ)
      → (apply_ritual_outcome g (Outcome.fired i Action.duress_unlock) now w).duress_until
        ≡ u64 (now + w)
  unfolding apply_ritual_outcome set_duress
  duress_window g i now w = refl

  duress_looks_unlocked :
      (g : Generator) (i now w t : ℕ)
      → t < u64 (now + w)
      → is_unlocked (apply_ritual_outcome g (Outcome.fired i Action.duress_unlock) now w) t ≡ true
  unfolding apply_ritual_outcome set_duress is_unlocked
  duress_looks_unlocked g i now w t lt = ground arith

  -- The ritual has fired the duress unlock at `now` with a window of `w` seconds, any events have
  -- followed that open no other duress window, reveals and real unlocks included, and the window has
  -- not ended at `t`. The generator as the ritual left it reports itself unlocked at `t`, and whatever
  -- code is shown for any key at `t` is its decoy twin's, and leaves the generator as it was.
  pub duress_hides_codes :
      (g g2 g3 : Generator) (i now w s t idx e : ℕ) (es : List Event) (r : Reveal)
      → Ran hmac now (apply_ritual_outcome g (Outcome.fired i Action.duress_unlock) now w) es s g2
      → All Unforced es
      → t < u64 (now + w)
      → reveal hmac g2 idx t e ≡ some (g3, Shown.ok r)
      → (is_unlocked (apply_ritual_outcome g (Outcome.fired i Action.duress_unlock) now w) t ≡ true)
        × IsPoison hmac g2 idx t e g3 r
  duress_hides_codes g g2 g3 i now w s t idx e es r run calm lt shown =
      let kept = duress-Ran idx now s _ g2 es calm run ∙ duress_window g i now w in
      (
        duress_looks_unlocked g i now w t lt,
        shut-IsPoison idx t e g2 g3 r (ground (arith, kept, lt)) shown,
      )

  -- A gated key, the window closed at `since`: after any events in the order of the clock, among
  -- them no outcome by which the ritual fires an unlock or a duress unlock, and no change of the
  -- key's gate, whatever code is shown for the key is its decoy twin's.
  pub gated_needs_ritual :
      (idx since t now e : ℕ) (g g2 g3 : Generator) (es : List Event) (r : Reveal)
      → g.gated idx ≡ true
      → g.unlocked_until ≤ since
      → Ran hmac since g es t g2
      → All Unopened es
      → All (Ungated idx) es
      → since ≤ now
      → reveal hmac g2 idx now e ≡ some (g3, Shown.ok r)
      → IsPoison hmac g2 idx now e g3 r
  gated_needs_ritual idx since t now e g g2 g3 es r gated closed run unopened ungated le shown =
      let kept = window-Ran idx since t g g2 es unopened run in
      let gate = gated-Ran idx since t g g2 es ungated run ∙ gated in
      shut-IsPoison idx now e g2 g3 r (ground (arith, kept, gate, closed, le)) shown

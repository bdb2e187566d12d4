-- ===== src/Reveal/Pacing.antt =====
-- What a run of the generator may show: one code of its own for each accepted receipt, and no two
-- of them closer than the cadence (firmware/ephemerkey-core/src/reveal.rs).
use mathlib.Core.Path.{subst}
use ephemerkey.Common.{
  ℕ, ◌+◌, ◌^◌, ◌≡◌, ◌≢◌, ◌≤◌, ◌<◌, inl, inr, refl, Bool, true, Option, none, some, List, [], ◌∷◌,
  arith, ap, All, ◌∙◌, sym, update,
}
use ephemerkey.Engine.{KeyDef}
use ephemerkey.Reveal.{
  Generator, GenKey, GenKeyState, ChainSpec, Shown, Reveal, DisplaySpec, OnceMode, RevealErr,
  gen_key, reveal, chain_stop, real_ok, spends, used, present,
}
use ephemerkey.Reveal.Sight.{IsReal, IsPoison, reveal-Seen}
use ephemerkey.Reveal.History.{Event, Unfed, Change, has_chain, Step, Ran}
use ephemerkey.Reveal.Change.{Step-Frame}

-- Key `idx` has a chain, and a code of its own has been shown since the last receipt.
record Spent (idx : ℕ) (g : Generator) : Type 0 where
  gk : GenKey
  at : gen_key g idx ≡ some gk
  chained : has_chain gk.chain ≡ true
  spent : (g.state idx).chain_spent ≡ true

-- A code of key `idx` was shown at `since` or later, and not after `now`.
record Last (idx since : ℕ) (spec : DisplaySpec) (now : ℕ) (g : Generator) : Type 0 where
  gk : GenKey
  at : gen_key g idx ≡ some gk
  display : gk.display ≡ spec
  lo : since ≤ (g.state idx).last_real
  hi : (g.state idx).last_real ≤ now

stopped_by_spent :
    (ch : Option ChainSpec) (st : GenKeyState) (now : ℕ)
    → has_chain ch ≡ true
    → st.chain_spent ≡ true
    → chain_stop ch st now ≡ some RevealErr.chain_required
stopped_by_spent none st now h s = absurd (cc)
stopped_by_spent (some ch) st now h s = rw s refl

spends_chain : (ch : Option ChainSpec) (b : Bool) → has_chain ch ≡ true → spends ch b ≡ true
spends_chain none b h = absurd (cc)
spends_chain (some ch) b h = refl

-- A permitted reveal of a key with a cadence comes its gap after the last one.
real_ok_gap :
    (once : OnceMode) (st : GenKeyState) (gap now : ℕ)
    → once ≢ OnceMode.unlimited
    → 0 < st.last_real
    → st.last_real ≤ now
    → now < 2 ^ 64
    → real_ok once st gap now ≡ true
    → st.last_real + gap ≤ now
real_ok_gap OnceMode.unlimited st gap now paced pos le word h = absurd (paced refl)
real_ok_gap OnceMode.refuse st gap now paced pos le word h = ground arith
real_ok_gap OnceMode.decoy st gap now paced pos le word h = ground arith

-- The chain stays spent through every change but an accepted receipt.
spent_through :
    (idx now : ℕ) (ev : Event) (st st' : GenKeyState)
    → Unfed idx ev
    → Change idx now ev st st'
    → st.chain_spent ≡ true
    → st'.chain_spent ≡ true
spent_through idx now ev st st' unfed (Change.same e) was =
    ap (λ (x : GenKeyState). x.chain_spent) e ∙ was
spent_through idx now ev st st' unfed (Change.spent at keeps) was = keeps was
spent_through idx now ev st st' unfed (Change.renewed fed same) was = absurd (fed unfed)

-- The last reveal only moves forward with the clock.
last_through :
    (idx since t now : ℕ) (ev : Event) (st st' : GenKeyState)
    → Change idx now ev st st'
    → since ≤ st.last_real
    → st.last_real ≤ t
    → t ≤ now
    → (since ≤ st'.last_real) × (st'.last_real ≤ now)
last_through idx since t now ev st st' (Change.same e) lo hi le =
    let q : st'.last_real ≡ st.last_real = ap (λ (x : GenKeyState). x.last_real) e in
    (omega arith, omega arith)
last_through idx since t now ev st st' (Change.spent at keeps) lo hi le = (omega arith, omega arith)
last_through idx since t now ev st st' (Change.renewed fed same) lo hi le =
    (omega arith, omega arith)

module _ (hmac : List ℕ → List ℕ → List ℕ) (idx : ℕ) where
  Spent-Step :
      (g g' : Generator) (now : ℕ) (ev : Event)
      → Unfed idx ev
      → Spent idx g
      → Step hmac g now ev g'
      → Spent idx g'
  Spent-Step g g' now ev unfed s step =
      let f = Step-Frame hmac g now idx ev g' step in
      let (gk', at, same) = f.keys s.gk s.at in
      record {
        gk = gk';
        at = at;
        chained = same.chain_eq ∙ s.chained;
        spent = spent_through idx now ev (g.state idx) (g'.state idx) unfed f.change s.spent;
      }

  Spent-Ran :
      (since now : ℕ) (g g' : Generator) (es : List Event)
      → All (Unfed idx) es
      → Spent idx g
      → Ran hmac since g es now g'
      → Spent idx g'
  Spent-Ran since now g g' [] unfed s Ran.start = s
  Spent-Ran since now g g' (ev ∷ es) unfed s (Ran.next {t = t} {g1 = g1} run le step) =
      Spent-Step g1 g' now ev unfed.0 (Spent-Ran since t g g1 es unfed.1 s run) step

  Last-Step :
      (g g' : Generator) (since t now : ℕ) (spec : DisplaySpec) (ev : Event)
      → t ≤ now
      → Last idx since spec t g
      → Step hmac g now ev g'
      → Last idx since spec now g'
  Last-Step g g' since t now spec ev le s step =
      let f = Step-Frame hmac g now idx ev g' step in
      let (gk', at, same) = f.keys s.gk s.at in
      let (lo, hi) =
        last_through idx since t now ev (g.state idx) (g'.state idx) f.change s.lo s.hi le in
      record { gk = gk'; at = at; display = same.display_eq ∙ s.display; lo = lo; hi = hi }

  Last-Ran :
      (since now : ℕ) (spec : DisplaySpec) (g g' : Generator) (es : List Event)
      → Last idx since spec since g
      → Ran hmac since g es now g'
      → Last idx since spec now g'
  Last-Ran since now spec g g' [] s Ran.start = s
  Last-Ran since now spec g g' (ev ∷ es) s (Ran.next {t = t} {g1 = g1} run le step) =
      Last-Step g1 g' since t now spec ev le (Last-Ran since t spec g g1 es s run) step

  -- The code is not the one that the key's decoy twin mints at that time.
  abbrev pub NotTwins : GenKey → ℕ → ℕ → Reveal → Type 0
  NotTwins gk now entropy r =
      (d : KeyDef) → gk.decoy ≡ some d → present hmac gk.display d now entropy ≢ some r

  -- A code that `reveal` shows and that is not the twin's is the key's own, and was permitted.
  reveal-IsReal_own :
      (t e : ℕ) (g g' : Generator) (gk : GenKey) (r : Reveal)
      → gen_key g idx ≡ some gk
      → reveal hmac g idx t e ≡ some (g', Shown.ok r)
      → NotTwins gk t e r
      → IsReal hmac g idx t e g' r
  reveal-IsReal_own t e g g' gk r at shown own = elim (reveal-Seen hmac g idx t e shown) [
    | inl real ↦ real
    | inr poison ↦
        let same : poison.gk ≡ gk = let a = poison.at in cc in
        absurd (
          own poison.twin (ap (λ (k : GenKey). k.decoy) (sym same) ∙ poison.has_twin) (
            subst (λ (k : GenKey). present hmac k.display poison.twin t e ≡ some r) same
              poison.mints))
  ]

  module _ (t0 e0 : ℕ) (g g1 : Generator) (gk : GenKey) (r0 : Reveal) (at : gen_key g idx ≡ some gk)
      (first : reveal hmac g idx t0 e0 ≡ some (g1, Shown.ok r0)) (own : NotTwins gk t0 e0 r0) where
    first_spent : g1 ≡ record g { state = update g.state idx (used gk (g.state idx) t0) }
    first_spent =
        let real = reveal-IsReal_own t0 e0 g g1 gk r0 at first own in
        let same : real.gk ≡ gk = let a = real.at in cc in
        subst
          (λ (k : GenKey). g1 ≡ record g { state = update g.state idx (used k (g.state idx) t0) })
          same real.spent

    first_at : gen_key g1 idx ≡ some gk
    first_at = rw first_spent at

    first_state : g1.state idx ≡ used gk (g.state idx) t0
    first_state = rw first_spent (ground arith)

    first-Spent : has_chain gk.chain ≡ true → Spent idx g1
    first-Spent chained = record {
      gk = gk;
      at = first_at;
      chained = chained;
      spent =
          ap (λ (x : GenKeyState). x.chain_spent) first_state
          ∙ spends_chain gk.chain (g.state idx).chain_spent chained;
    }

    first-Last : Last idx t0 gk.display t0 g1
    first-Last =
        let q : (g1.state idx).last_real ≡ t0 = ap (λ (x : GenKeyState). x.last_real) first_state in
        record { gk = gk; at = first_at; display = refl; lo = omega arith; hi = omega arith }

    -- `reveal` has shown a code, which is not the decoy twin's, of a key with a receipt chain, and
    -- then any reveals, ritual outcomes and gatings, and any receipts fed to other keys or rejected,
    -- have followed. Whatever code `reveal` now shows for the key is its decoy twin's, and the
    -- generator stays as it was: after a code of its own, no further one until a receipt is accepted.
    pub one_per_receipt :
        (now t e : ℕ) (g2 g3 : Generator) (r : Reveal) (es : List Event)
        → has_chain gk.chain ≡ true
        → Ran hmac t0 g1 es now g2
        → All (Unfed idx) es
        → reveal hmac g2 idx t e ≡ some (g3, Shown.ok r)
        → IsPoison hmac g2 idx t e g3 r
    one_per_receipt now t e g2 g3 r es chained run unfed shown =
        let s = Spent-Ran t0 now g1 g2 es unfed (first-Spent chained) run in
        elim (reveal-Seen hmac g2 idx t e shown) [
          | inr poison ↦ poison
          | inl real ↦
              let same : real.gk ≡ s.gk = let a = real.at in let b = s.at in cc in
              let free : chain_stop s.gk.chain (g2.state idx) t ≡ none =
                subst (λ (k : GenKey). chain_stop k.chain (g2.state idx) t ≡ none) same
                  real.chained in
              let stop = stopped_by_spent s.gk.chain (g2.state idx) t s.chained s.spent in
              absurd (cc)
        ]

    -- `reveal` has shown a code, which is not the decoy twin's, of a key with a cadence at `t0`, which
    -- is not 0, and then any events have followed, in the order of the clock. A time of 64 bits at
    -- which `reveal` again shows a code of the key that is not the twin's is not before the end of
    -- its gap.
    pub cadence :
        (t now e : ℕ) (g2 g3 : Generator) (gk2 : GenKey) (r : Reveal) (es : List Event)
        → gk.display.once ≢ OnceMode.unlimited
        → 0 < t0
        → Ran hmac t0 g1 es t g2
        → t ≤ now
        → now < 2 ^ 64
        → gen_key g2 idx ≡ some gk2
        → reveal hmac g2 idx now e ≡ some (g3, Shown.ok r)
        → NotTwins gk2 now e r
        → t0 + gk.display.gap_min_s ≤ now
    cadence t now e g2 g3 gk2 r es paced pos run le word at2 again own2 =
        let real = reveal-IsReal_own now e g2 g3 gk2 r at2 again own2 in
        let s = Last-Ran t0 t gk.display g1 g2 es first-Last run in
        let same : real.gk ≡ s.gk = let a = real.at in let b = s.at in cc in
        let spec : real.gk.display ≡ gk.display = ap (λ (k : GenKey). k.display) same ∙ s.display in
        let permitted : real_ok gk.display.once (g2.state idx) gk.display.gap_min_s now ≡ true =
          subst (λ (d : DisplaySpec). real_ok d.once (g2.state idx) d.gap_min_s now ≡ true) spec
            real.paced in
        let lo = s.lo in
        let gap =
          real_ok_gap gk.display.once (g2.state idx) gk.display.gap_min_s now paced (omega arith)
            (omega (arith, s.hi)) word permitted in
        omega arith

-- ===== src/Reveal/Change.antt =====
-- What a step of the generator changes for one key, and what a run keeps
-- (firmware/ephemerkey-core/src/reveal.rs).
use mathlib.Core.Path.{subst}
use native.Mathlib.Decide.{ℕ_discrete}
use ephemerkey.Common.{
  ℕ, ◌≡◌, inl, inr, refl, sym, Bool, true, Option, none, some, update, >>=-eq-some, List, arith,
  Option-cases, ap, u32,
}
use ephemerkey.Totp.{Code}
use ephemerkey.Receipt.Check.{ReceiptCheck, Validator, verify_code}
use ephemerkey.Reveal.{
  Generator, GenKey, ChainSpec, Shown, Fed, gen_key, feed_chain, fed, refused, spends,
}
use ephemerkey.Reveal.Sight.{Seen, reveal-Seen, spend}
use ephemerkey.Reveal.History.{
  Event, Unforced, SameKey, Change, has_chain, ritual_keys, ritual_duress, ritual_window, Unopened,
  Ungated, set_gated_keys, Step,
}

-- How `g'` differs from `g` at a step `ev` at `now`, for the keys other than the state of `idx`.
pub record Frame (idx now : ℕ) (ev : Event) (g g' : Generator) : Type 0 where
  pub keys :
      (gk : GenKey)
      → gen_key g idx ≡ some gk
      → (gk' : GenKey) × (gen_key g' idx ≡ some gk') × SameKey gk gk'
  pub change : Change idx now ev (g.state idx) (g'.state idx)
  pub duress : Unforced ev → g'.duress_until ≡ g.duress_until
  pub window : Unopened ev → g'.unlocked_until ≡ g.unlocked_until
  pub gated : Ungated idx ev → g'.gated idx ≡ g.gated idx

SameKey-refl : (gk : GenKey) → SameKey gk gk
SameKey-refl gk = record { display_eq = refl; chain_eq = refl }

-- Nothing but other fields changed.
Frame-same :
    (idx now : ℕ) (ev : Event) (g g' : Generator)
    → (g'.keys ≡ g.keys) × (g'.state ≡ g.state)
    → (Unforced ev → g'.duress_until ≡ g.duress_until)
    → (Unopened ev → g'.unlocked_until ≡ g.unlocked_until)
    → (Ungated idx ev → g'.gated idx ≡ g.gated idx)
    → Frame idx now ev g g'
Frame-same idx now ev g g' (k, s) d u gate = record {
  keys = λ gk at. (gk, rw k at, SameKey-refl gk);
  change = Change.same (ap (λ f. f idx) s);
  duress = d;
  window = u;
  gated = gate;
}

spends_keeps : (ch : Option ChainSpec) (spent : Bool) → spent ≡ true → spends ch spent ≡ true
spends_keeps none spent h = h
spends_keeps (some ch) spent h = refl

-- The key that a fed receipt leaves: its validator only is new.
abbrev rekeyed : GenKey → ChainSpec → Validator → GenKey
rekeyed gk ch v = record gk { chain = some (record ch { validator = v }) }

module _ (g g' : Generator) (i : ℕ) (gk gk2 : GenKey) where
  update_keys :
      (idx : ℕ) (gk0 : GenKey)
      → gen_key g i ≡ some gk
      → g'.keys ≡ update g.keys i (some gk2)
      → SameKey gk gk2
      → gen_key g idx ≡ some gk0
      → (gk' : GenKey) × (gen_key g' idx ≡ some gk') × SameKey gk0 gk'
  update_keys idx gk0 at new same at0 = elim (ℕ_discrete idx i) [
    | yes here ↦
        let at1 : gen_key g i ≡ some gk0 = subst (λ k. gen_key g k ≡ some gk0) here at0 in
        let q : gk ≡ gk0 = cc in
        (gk2, rw (new, here) (ground (arith, at)), subst (λ k. SameKey k gk2) q same)
    | no other ↦ (gk0, rw new (ground (arith, at0, other)), SameKey-refl gk0)
  ]

module _ (g : Generator) (i now : ℕ) (gk : GenKey) (ch : ChainSpec) (v : Validator) where
  rekeyed-SameKey : gk.chain ≡ some ch → SameKey gk (rekeyed gk ch v)
  rekeyed-SameKey chain = record { display_eq = refl; chain_eq = sym (ap has_chain chain) }

  Frame-refused :
      (idx : ℕ) (e : ReceiptCheck) {g' : Generator} {a : Fed}
      → gen_key g i ≡ some gk
      → gk.chain ≡ some ch
      → ◌≡◌ {A = Generator × Fed} (refused g i gk ch v e) (g', a)
      → Frame idx now (Event.feeds i a) g g'
  Frame-refused idx e {g' = g'} {a = a} at chain run =
      subst (λ (p : Generator × Fed). Frame idx now (Event.feeds i p.1) g p.0) run
        (record {
          keys = λ gk0 at0.
              update_keys g (refused g i gk ch v e).0 i gk (rekeyed gk ch v) idx gk0 at refl
                (rekeyed-SameKey chain) at0;
          change = Change.same refl;
          duress = λ u. refl;
          window = λ u. refl;
          gated = λ u. refl;
        })

  fed-Change :
      (idx skipped drift : ℕ)
      → Change idx now
          (Event.feeds i (fed g i gk ch now (v, ReceiptCheck.valid skipped drift)).1)
          (g.state idx)
          ((fed g i gk ch now (v, ReceiptCheck.valid skipped drift)).0.state idx)
  fed-Change idx skipped drift = elim (ℕ_discrete idx i) [
    | yes here ↦ Change.renewed (λ unfed. unfed (sym here)) (rw here (ground arith))
    | no other ↦ Change.same (ground (arith, other))
  ]

  Frame-fed :
      (idx : ℕ) (rc : ReceiptCheck) {g' : Generator} {a : Fed}
      → gen_key g i ≡ some gk
      → gk.chain ≡ some ch
      → ◌≡◌ {A = Generator × Fed} (fed g i gk ch now (v, rc)) (g', a)
      → Frame idx now (Event.feeds i a) g g'
  Frame-fed idx (ReceiptCheck.valid skipped drift) at chain run =
      subst (λ (p : Generator × Fed). Frame idx now (Event.feeds i p.1) g p.0) run
        (record {
          keys = λ gk0 at0.
              update_keys g (fed g i gk ch now (v, ReceiptCheck.valid skipped drift)).0 i gk
                (rekeyed gk ch v) idx gk0 at refl (rekeyed-SameKey chain) at0;
          change = fed-Change idx skipped drift;
          duress = λ u. refl;
          window = λ u. refl;
          gated = λ u. refl;
        })
  Frame-fed idx ReceiptCheck.bad_code at chain run = Frame-refused idx _ at chain run
  Frame-fed idx ReceiptCheck.replay at chain run = Frame-refused idx _ at chain run
  Frame-fed idx ReceiptCheck.too_far_ahead at chain run = Frame-refused idx _ at chain run
  Frame-fed idx ReceiptCheck.out_of_window at chain run = Frame-refused idx _ at chain run
  Frame-fed idx ReceiptCheck.mode_mismatch at chain run = Frame-refused idx _ at chain run

module _ (hmac : List ℕ → List ℕ → List ℕ) (g : Generator) (now : ℕ) where
  Frame-refl : (idx : ℕ) (ev : Event) {g' : Generator} → g' ≡ g → Frame idx now ev g g'
  Frame-refl idx ev same =
      subst (λ h. Frame idx now ev g h) (sym same)
        (Frame-same idx now ev g g (refl, refl) (λ u. refl) (λ u. refl) (λ u. refl))

  spend-Change :
      (idx i entropy : ℕ) (gk : GenKey) (ev : Event)
      → Change idx now ev (g.state idx) ((spend hmac g i now entropy gk).state idx)
  spend-Change idx i entropy gk ev = elim (ℕ_discrete idx i) [
    | yes here ↦ rw here (
        Change.spent (ground arith)
          (λ was. ground (arith, spends_keeps gk.chain (g.state i).chain_spent was)))
    | no other ↦ Change.same (ground (arith, other))
  ]

  Frame-Seen :
      (idx i entropy : ℕ) {g' : Generator} (a : Shown)
      → Seen hmac g i now entropy g' a
      → Frame idx now (Event.reveals i a) g g'
  Frame-Seen idx i entropy (Shown.err e) s = Frame-refl idx _ s
  Frame-Seen idx i entropy (Shown.ok r) (inr s) = Frame-refl idx _ s.kept
  Frame-Seen idx i entropy (Shown.ok r) (inl s) =
      subst (λ h. Frame idx now (Event.reveals i (Shown.ok r)) g h) (sym s.spent)
        (record {
          keys = λ gk at. (gk, at, SameKey-refl gk);
          change = spend-Change idx i entropy s.gk _;
          duress = λ u. refl;
          window = λ u. refl;
          gated = λ u. refl;
        })

  Frame-feed_key :
      (idx i : ℕ) (code : Code) {g' : Generator} {a : Fed}
      → feed_chain hmac g i code now ≡ some (g', a)
      → Frame idx now (Event.feeds i a) g g'
  unfolding feed_chain
  Frame-feed_key idx i code {g' = g'} {a = a} run = elim (Option-cases (gen_key g i)) [
    | inl missing ↦ Frame-refl idx _ (let r = rw missing at run in cc)
    | inr (gk, at) ↦ elim (Option-cases gk.chain) [
      | inl unchained ↦ Frame-refl idx _ (let r = rw (at, unchained) at run in cc)
      | inr (ch, chain) ↦
          let ((v, rc), checked, done) =
            >>=-eq-some (verify_code hmac ch.validator ch.action code (u32 now))
              (λ b. some (fed g i gk ch now b)) (rw (at, chain) at run) in
          Frame-fed g i now gk ch v idx rc at chain (cc)
    ]
  ]

  -- Every step keeps the key up to its validator, and changes the state of a key by a real reveal or
  -- an accepted receipt only.
  pub Step-Frame :
      (idx : ℕ) (ev : Event) (g' : Generator) → Step hmac g now ev g' → Frame idx now ev g g'
  Step-Frame idx ev g' (Step.revealed i entropy run) =
      Frame-Seen idx i entropy _ (reveal-Seen hmac g i now entropy run)
  Step-Frame idx ev g' (Step.received i code run) = Frame-feed_key idx i code run
  Step-Frame idx ev g' (Step.performed o w) =
      let (k, s, same_gate) = ritual_keys g o now w in
      Frame-same idx now _ g _ (k, s) (λ u. ritual_duress g o now w u)
        (λ u. ritual_window g o now w u) (λ u. ap (λ f. f idx) same_gate)
  Step-Frame idx ev g' (Step.regated i on) =
      let (k, s, d, w, others) = set_gated_keys g i on in
      Frame-same idx now _ g _ (k, s) (λ u. d) (λ u. w) (λ u. others idx u)

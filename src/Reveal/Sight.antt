-- ===== src/Reveal/Sight.antt =====
-- What a call of `reveal` shows: the key's own code, its decoy twin's, or nothing
-- (firmware/ephemerkey-core/src/reveal.rs).
use ephemerkey.Common.{
  ℕ, ◌≡◌, ◌⊎◌, inl, inr, refl, true, false, none, some, update, >>=-eq-some, List, Option-cases,
  Bool-cases, sym, Run,
}
use mathlib.Core.Path.{subst}
use ephemerkey.Engine.{KeyDef}
use ephemerkey.Reveal.{
  Generator, GenKey, Reveal, RevealErr, Shown, OnceMode, gen_key, present, reveal, reveal_key,
  reveal_paced, showing, show_decoy, not_yet, shut_out, chain_stop, real_ok, used,
}

module _ (hmac : List ℕ → List ℕ → List ℕ) (g : Generator) (idx now entropy : ℕ) where
  abbrev pub spend : GenKey → Generator
  spend gk = record g { state = update g.state idx (used gk (g.state idx) now) }

  -- The key's own code is shown: the ritual, the chain and the cadence permit it, and it is spent.
  pub record IsReal (g' : Generator) (r : Reveal) : Type 0 where
    pub gk : GenKey
    pub at : gen_key g idx ≡ some gk
    pub unbarred : shut_out g idx now ≡ false
    pub chained : chain_stop gk.chain (g.state idx) now ≡ none
    pub paced : real_ok gk.display.once (g.state idx) gk.display.gap_min_s now ≡ true
    pub spent : g' ≡ spend gk
    pub mints : present hmac gk.display gk.key now entropy ≡ some r

  -- The decoy twin's code is shown, and the generator stays as it was.
  pub record IsPoison (g' : Generator) (r : Reveal) : Type 0 where
    pub gk : GenKey
    pub twin : KeyDef
    pub at : gen_key g idx ≡ some gk
    pub has_twin : gk.decoy ≡ some twin
    pub kept : g' ≡ g
    pub mints : present hmac gk.display twin now entropy ≡ some r

  -- What an answer says.
  abbrev pub Seen : Generator → Shown → Type 0
  Seen g' (Shown.ok r) = IsReal g' r ⊎ IsPoison g' r
  Seen g' (Shown.err e) = g' ≡ g

  showing_lem :
      (h : Generator) (gk : GenKey) (key : KeyDef) {g' : Generator} {a : Shown}
      → showing hmac h gk key now entropy ≡ some (g', a)
      → (r : Reveal) × (present hmac gk.display key now entropy ≡ some r)
        × (g' ≡ h)
        × (a ≡ Shown.ok r)
  showing_lem h gk key run =
      let (r, e, k) =
        >>=-eq-some (present hmac gk.display key now entropy) (λ r. some (h, Shown.ok r)) run in
      (r, e, cc, cc)

  showing-IsPoison :
      (gk : GenKey) (d : KeyDef) {g' : Generator} {a : Shown}
      → gen_key g idx ≡ some gk
      → gk.decoy ≡ some d
      → showing hmac g gk d now entropy ≡ some (g', a)
      → Seen g' a
  showing-IsPoison gk d {g' = g'} at twin run =
      let (r, mints, same, shows) = showing_lem g gk d run in
      subst (Seen g') (sym shows)
        (inr (record { gk = gk; twin = d; at = at; has_twin = twin; kept = same; mints = mints }))

  err-Seen :
      (refusal : RevealErr) {g' : Generator} {a : Shown}
      → ◌≡◌ {A = Run (Generator × Shown)} (some (g, Shown.err refusal)) (some (g', a))
      → Seen g' a
  err-Seen refusal {g' = g'} run =
      let same : g' ≡ g = cc in let shows : Shown.err refusal ≡ _ = cc in subst (Seen g') shows same

  show_decoy-Seen :
      (gk : GenKey) (refusal : RevealErr) {g' : Generator} {a : Shown}
      → gen_key g idx ≡ some gk
      → show_decoy hmac g gk now entropy refusal ≡ some (g', a)
      → Seen g' a
  show_decoy-Seen gk refusal at run = elim (Option-cases gk.decoy) [
    | inl none_left ↦ err-Seen refusal (rw none_left at run)
    | inr (d, twin) ↦ showing-IsPoison gk d at twin (rw twin at run)
  ]

  not_yet-Seen :
      (once : OnceMode) (gk : GenKey) (refusal : RevealErr) {g' : Generator} {a : Shown}
      → gen_key g idx ≡ some gk
      → not_yet hmac once g gk now entropy refusal ≡ some (g', a)
      → Seen g' a
  not_yet-Seen OnceMode.unlimited gk refusal at run = absurd (cc)
  not_yet-Seen OnceMode.refuse gk refusal at run = err-Seen refusal run
  not_yet-Seen OnceMode.decoy gk refusal at run = show_decoy-Seen gk refusal at run

  -- Whatever `reveal` answers: a code it shows is the key's own, spent where the ritual, the chain
  -- and the cadence permit it, or the decoy twin's, which leaves the generator as it was; a refusal
  -- leaves the generator as it was too.
  pub reveal-Seen :
      {g' : Generator} {a : Shown} → reveal hmac g idx now entropy ≡ some (g', a) → Seen g' a
  unfolding reveal reveal_key reveal_paced
  reveal-Seen {g' = g'} run = elim (Option-cases (gen_key g idx)) [
    | inl missing ↦ err-Seen RevealErr.no_such_key (rw missing at run)
    | inr (gk, at) ↦ elim (Bool-cases (shut_out g idx now)) [
      | inl shut ↦ show_decoy-Seen gk RevealErr.locked at (rw (at, shut) at run)
      | inr unbarred ↦ elim (Option-cases (chain_stop gk.chain (g.state idx) now)) [
        | inr (e, stopped) ↦ err-Seen e (rw (at, unbarred, stopped) at run)
        | inl chained ↦
            elim (Bool-cases (real_ok gk.display.once (g.state idx) gk.display.gap_min_s now)) [
              | inr wait ↦
                  not_yet-Seen gk.display.once gk _ at (rw (at, unbarred, chained, wait) at run)
              | inl paced ↦
                  let (r, mints, spent, shows) =
                    showing_lem (spend gk) gk gk.key (rw (at, unbarred, chained, paced) at run) in
                  subst (Seen g') (sym shows) (
                    inl (record {
                      gk = gk;
                      at = at;
                      unbarred = unbarred;
                      chained = chained;
                      paced = paced;
                      spent = spent;
                      mints = mints;
                    }))
            ]
      ]
    ]
  ]

  -- And the other way round: what the conditions permit is shown.
  pub reveal-IsReal :
      {g' : Generator} {r : Reveal}
      → IsReal g' r
      → reveal hmac g idx now entropy ≡ some (g', Shown.ok r)
  unfolding reveal reveal_key reveal_paced
  reveal-IsReal s = rw (s.at, s.unbarred, s.chained, s.paced, s.mints, s.spent) refl

-- ===== src/Reveal/Feeding.antt =====
-- That a fed generator shows the code, and that a real and a poison reveal look alike
-- (firmware/ephemerkey-core/src/reveal.rs).
use ephemerkey.Common.{
  ℕ, ◌+◌, ◌^◌, ◌%◌, ◌≡◌, ◌≤◌, refl, sym, ap, inl, inr, true, false, none, some, arith, List, u64,
  u32, ◌==◌, ◌>>=◌, take, >>=-eq-some, Option-cases, Bool-cases, ◌∙◌,
}
use mathlib.Core.Path.{subst}
use ephemerkey.Totp.{Code, totp_at, hotp, counter_at, truncate, to_be_bytes}
use ephemerkey.Totp.Entry.{hotp_returns}
use ephemerkey.Receipt.{secret_slice}
use ephemerkey.Receipt.Check.{ReceiptCheck, Validator, verify_code}
use ephemerkey.Engine.{KeyDef}
use ephemerkey.Reveal.{
  Generator, GenKey, GenKeyState, ChainSpec, DisplaySpec, Shown, Fed, Reveal, gen_key, real_ok,
  reveal, present, mint_code, shut_out, chain_stop, feed_chain, fed, refused, scatter_order,
}
use ephemerkey.Reveal.Sight.{IsReal, spend, reveal-IsReal}
use ephemerkey.Reveal.Scatter.{scatter_order-Permutes}

hotp_digits :
    (hmac : List ℕ → List ℕ → List ℕ) (secret : List ℕ) (counter d : ℕ) (c : Code)
    → hotp hmac secret counter d ≡ some c
    → c.digits ≡ d
unfolding hotp
hotp_digits hmac secret counter d c h = elim (Bool-cases (u64 (10 ^ d) == 0)) [
  | inl zero_mod ↦ let r = rw zero_mod at h in absurd (cc)
  | inr live ↦
      let r = rw live at h in
      let same : record {
        value = u32 (truncate (hmac secret (to_be_bytes counter)) % u64 (10 ^ d));
        digits = d;
      }
          ≡ c =
        cc in
      sym (ap (λ (x : Code). x.digits) same)
]

-- A code, as the display presents it.
pub record Presented (display : DisplaySpec) (digits entropy : ℕ) (r : Reveal) : Type 0 where
  pub digits_eq : r.code.digits ≡ digits
  pub order_eq : scatter_order digits entropy ≡ some r.order
  pub mode_eq : r.mode ≡ display.mode
  pub dwell_eq : r.dwell_ms ≡ display.dwell_ms
  pub reveal_eq : r.reveal_s ≡ display.reveal_s

module _ (hmac : List ℕ → List ℕ → List ℕ) (display : DisplaySpec) (key : KeyDef)
    (now entropy : ℕ) where
  mint_code_returns :
      key.secret_len ≤ 32 → key.digits ≤ 10 → (c : Code) × (mint_code hmac key now ≡ some c)
  unfolding mint_code secret_slice totp_at
  mint_code_returns fits small =
      let (c, h) =
        hotp_returns hmac (take key.secret_len key.secret) (counter_at now) key.digits small in
      (c, ground (arith, fits, h))

  mint_code-digits : (c : Code) → mint_code hmac key now ≡ some c → c.digits ≡ key.digits
  unfolding mint_code totp_at
  mint_code-digits c h =
      let (secret, at, minted) =
        >>=-eq-some (secret_slice key.secret key.secret_len) (λ s. totp_at hmac s now key.digits)
          h in
      hotp_digits hmac secret (counter_at now) key.digits c minted

  abbrev as_presented : Code → (ℕ → ℕ) → Reveal
  as_presented c order = record {
    code = c;
    order = order;
    mode = display.mode;
    dwell_ms = display.dwell_ms;
    reveal_s = display.reveal_s;
  }

  present_returns :
      key.secret_len ≤ 32
      → key.digits ≤ 10
      → (r : Reveal) × (present hmac display key now entropy ≡ some r)
  unfolding present
  present_returns fits small =
      let (c, minted) = mint_code_returns fits small in
      let q = mint_code-digits c minted in
      let (order, at, p) = scatter_order-Permutes c.digits entropy (omega arith) in
      (as_presented c order, rw (minted, at) refl)

  present-Presented :
      (r : Reveal)
      → present hmac display key now entropy ≡ some r
      → Presented display key.digits entropy r
  unfolding present
  present-Presented r h =
      let (c, minted, rest) =
        >>=-eq-some (mint_code hmac key now)
          (λ c. scatter_order c.digits entropy >>= λ order. some (as_presented c order)) h in
      let (order, at, done) =
        >>=-eq-some (scatter_order c.digits entropy) (λ order. some (as_presented c order)) rest in
      let q = mint_code-digits c minted in
      let same : as_presented c order ≡ r = cc in
      subst (Presented display key.digits entropy) same (record {
        digits_eq = q;
        order_eq = ap (λ d. scatter_order d entropy) (sym q) ∙ at;
        mode_eq = refl;
        dwell_eq = refl;
        reveal_eq = refl;
      })

-- A key and a decoy twin with as many digits: a reveal of either at any time and with the same
-- entropy has as many digits, the same order of the digits, mode, dwell and time on the screen.
pub poison_looks_real :
    (hmac : List ℕ → List ℕ → List ℕ) (display : DisplaySpec) (key twin : KeyDef)
    (now later entropy : ℕ) (r r' : Reveal)
    → twin.digits ≡ key.digits
    → present hmac display key now entropy ≡ some r
    → present hmac display twin later entropy ≡ some r'
    → (r'.code.digits ≡ r.code.digits)
      × (r'.order ≡ r.order)
      × (r'.mode ≡ r.mode)
      × (r'.dwell_ms ≡ r.dwell_ms)
      × (r'.reveal_s ≡ r.reveal_s)
poison_looks_real hmac display key twin now later entropy r r' same shown shown' =
    let p = present-Presented hmac display key now entropy r shown in
    let p' = present-Presented hmac display twin later entropy r' shown' in
    let order' : scatter_order key.digits entropy ≡ some r'.order =
      ap (λ d. scatter_order d entropy) (sym same) ∙ p'.order_eq in
    let o = p.order_eq in
    (
      p'.digits_eq ∙ (same ∙ sym p.digits_eq),
      (cc),
      p'.mode_eq ∙ sym p.mode_eq,
      p'.dwell_eq ∙ sym p.dwell_eq,
      p'.reveal_eq ∙ sym p.reveal_eq,
    )

-- What an accepted receipt leaves: the chain of the key is fed, and not spent.
record Refreshed (g' : Generator) (idx now until : ℕ) : Type 0 where
  gk : GenKey
  ch : ChainSpec
  at : gen_key g' idx ≡ some gk
  chain : gk.chain ≡ some ch
  fresh : (g'.state idx).chain_spent ≡ false
  fed_at : (g'.state idx).chain_fed_at ≡ now
  until_eq : until ≡ u64 (now + ch.min_elapsed_s)

module _ (g : Generator) (idx now : ℕ) (gk : GenKey) (ch : ChainSpec) (v : Validator) where
  refused_is_err :
      (e : ReceiptCheck) {g' : Generator} {until : ℕ}
      → ◌≡◌ {A = Generator × Fed} (refused g idx gk ch v e) (g', Fed.ok until)
      → ⊥
  refused_is_err e same = cc

  fed-Refreshed :
      (rc : ReceiptCheck) {g' : Generator} {until : ℕ}
      → gen_key g idx ≡ some gk
      → ◌≡◌ {A = Generator × Fed} (fed g idx gk ch now (v, rc)) (g', Fed.ok until)
      → Refreshed g' idx now until
  fed-Refreshed (ReceiptCheck.valid skipped drift) {g' = g'} {until = until} at same =
      let q : g' ≡ (fed g idx gk ch now (v, ReceiptCheck.valid skipped drift)).0 = cc in
      let w : Fed.ok (u64 (now + ch.min_elapsed_s)) ≡ Fed.ok until =
        ap (λ (p : Generator × Fed). p.1) same in
      let u : u64 (now + ch.min_elapsed_s) ≡ until = cc in
      rw q (record {
        gk = record gk { chain = some (record ch { validator = v }) };
        ch = record ch { validator = v };
        at = ground (arith, at);
        chain = refl;
        fresh = ground arith;
        fed_at = ground arith;
        until_eq = sym u;
      })
  fed-Refreshed ReceiptCheck.bad_code at same = absurd (refused_is_err _ same)
  fed-Refreshed ReceiptCheck.replay at same = absurd (refused_is_err _ same)
  fed-Refreshed ReceiptCheck.too_far_ahead at same = absurd (refused_is_err _ same)
  fed-Refreshed ReceiptCheck.out_of_window at same = absurd (refused_is_err _ same)
  fed-Refreshed ReceiptCheck.mode_mismatch at same = absurd (refused_is_err _ same)

chain_cools :
    (ch : ChainSpec) (st : GenKeyState) (now until t : ℕ)
    → st.chain_spent ≡ false
    → st.chain_fed_at ≡ now
    → until ≡ u64 (now + ch.min_elapsed_s)
    → until ≤ t
    → chain_stop (some ch) st t ≡ none
chain_cools ch st now until t fresh at eq le = ground arith

module _ (hmac : List ℕ → List ℕ → List ℕ) (g g1 : Generator) (idx now until : ℕ)
    (code : Code) where
  feed_chain-Refreshed :
      feed_chain hmac g idx code now ≡ some (g1, Fed.ok until) → Refreshed g1 idx now until
  unfolding feed_chain
  feed_chain-Refreshed run = elim (Option-cases (gen_key g idx)) [
    | inl missing ↦ let r = rw missing at run in absurd (cc)
    | inr (gk, at) ↦ elim (Option-cases gk.chain) [
      | inl unchained ↦ let r = rw (at, unchained) at run in absurd (cc)
      | inr (ch, chain) ↦
          let ((v, rc), checked, done) =
            >>=-eq-some (verify_code hmac ch.validator ch.action code (u32 now))
              (λ b. some (fed g idx gk ch now b)) (rw (at, chain) at run) in
          fed-Refreshed g idx now gk ch v rc at (cc)
    ]
  ]

  -- A receipt code has been accepted for a key, and `until` is the time that was answered. From then
  -- on, while the ritual does not shut the key out and its cadence permits, `reveal` shows the key's
  -- own code, for a secret and a code length that fit the buffers.
  pub fed_then_shown :
      (t e : ℕ) (gk : GenKey)
      → feed_chain hmac g idx code now ≡ some (g1, Fed.ok until)
      → gen_key g1 idx ≡ some gk
      → until ≤ t
      → shut_out g1 idx t ≡ false
      → real_ok gk.display.once (g1.state idx) gk.display.gap_min_s t ≡ true
      → gk.key.secret_len ≤ 32
      → gk.key.digits ≤ 10
      → (g2 : Generator) × (r : Reveal) × (reveal hmac g1 idx t e ≡ some (g2, Shown.ok r))
        × IsReal hmac g1 idx t e g2 r
  fed_then_shown t e gk run at le unbarred paced fits small =
      let f = feed_chain-Refreshed run in
      let same : f.gk ≡ gk = let a = f.at in cc in
      let chain : gk.chain ≡ some f.ch = sym (ap (λ (k : GenKey). k.chain) same) ∙ f.chain in
      let (r, mints) = present_returns hmac gk.display gk.key t e fits small in
      let real : IsReal hmac g1 idx t e (spend hmac g1 idx t e gk) r = record {
        gk = gk;
        at = at;
        unbarred = unbarred;
        chained =
            rw chain (chain_cools f.ch (g1.state idx) now until t f.fresh f.fed_at f.until_eq le);
        paced = paced;
        spent = refl;
        mints = mints;
      } in
      (spend hmac g1 idx t e gk, r, reveal-IsReal hmac g1 idx t e real, real)

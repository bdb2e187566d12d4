-- ===== src/Engine/PerSlot.antt =====
-- One slot of the two loops of `enter_code_with`: the veto of an armed fire, and the candidate keys
-- of the slot with its decoy.
use ephemerkey.Common.{
  ℕ, ◌*◌, ◌≡◌, ◌<◌, Option, none, some, List, [], ◌∷◌, ltb, u32, update, refl, ◌>>=◌, arith, lt→ltb,
  Bool-cases, Option-cases, inl, inr, All, ap, ◌+◌,
}
use ephemerkey.Policy.{NegativeAction, Sensors, Slot, block, delay_window, period_s}
use ephemerkey.Slots.{idle}
use ephemerkey.Totp.{Code, parse}
use ephemerkey.Engine.{KeyDef, LockEngine, Outcome, candidates, each, key_at}
use ephemerkey.Engine.Clock.{reset_slot}
use ephemerkey.Engine.Enter.{
  Step, return, let_some, code_matches, entered_matches, veto_slot, punish, try_decoy, searched,
  try_key, try_candidate, enter_slot,
}
use ephemerkey.Engine.Window.{top, bottom, match_key_returns, Sound, secret_of}
use ephemerkey.Engine.Frame.{
  Ends, Ends-some, Ends-bind, Ends-map, Configured, InTable, KeyOk, ReceiptsOk, BudgetOk, Quiet,
  Quiet-refl,
}
use ephemerkey.Engine.Quietly.{reset_slot-idle}
use ephemerkey.Engine.Effect.{IsCandidate, Effect, Decoyed, Entered, fires_of}
use ephemerkey.Engine.Candidates.{candidates_lem}
use ephemerkey.Engine.Accepting.{Stepped, matched_ends, unchanged}

module _ (hmac : List ℕ → List ℕ → List ℕ) (entered : List ℕ) (now : ℕ) (env : Sensors) where
  goes_on :
      {A : Type 0} (xs : List A) (body : A → LockEngine → Step) (e e' : LockEngine)
      (o : Option Outcome)
      → Stepped hmac entered now env e (e', o)
      → Ends (each xs body e) (Stepped hmac entered now env e)
      → Ends
          (elim o [ some r ↦ some (e', some r) | none ↦ each xs body e' ])
          (Stepped hmac entered now env e)
  goes_on xs body e e' none s rest = rw s rest
  goes_on xs body e e' (some r) s rest = s

  -- The loops go on with the engine they had, and stop at the first round that returns.
  pub each_ends :
      {A : Type 0} (P : A → Type 0) (xs : List A) (body : A → LockEngine → Step) (e : LockEngine)
      → All P xs
      → ((x : A) → P x → Ends (body x e) (Stepped hmac entered now env e))
      → Ends (each xs body e) (Stepped hmac entered now env e)
  unfolding each
  each_ends P [] body e ps step = refl
  each_ends P (x ∷ xs) body e ps step =
      let rest = each_ends P xs body e ps.1 step in
      Ends-bind (body x e) _ (Stepped hmac entered now env e) (Stepped hmac entered now env e)
        (step x ps.0) (λ (e', o) s. goes_on xs body e e' o s rest)

  code_matches_returns :
      (key : KeyDef) (delay : ℕ × ℕ) (o : Option Code)
      → KeyOk key
      → Ends (code_matches hmac now key delay o) (λ _. Unit {0})
  unfolding code_matches
  code_matches_returns key delay none ok = tt
  code_matches_returns key (near, far) (some code) ok =
      let (r, m, s) = match_key_returns hmac key code now near far ok.fits ok.small in rw m tt

  entered_matches_returns :
      (key : KeyDef) (delay : ℕ × ℕ)
      → KeyOk key
      → Ends (entered_matches hmac entered now key delay) (λ _. Unit {0})
  unfolding entered_matches
  entered_matches_returns key delay ok =
      code_matches_returns key delay (parse entered key.digits) ok

  pub Quiet-Entered :
      (e e' : LockEngine) (o : Outcome)
      → Quiet e e'
      → ((j : ℕ) → fires_of j o ≡ 0)
      → Effect hmac entered now env e e' o
      → Entered hmac entered now env e e' o
  Quiet-Entered e e' o q none_fired f = record {
    keys_eq = q.keys_eq;
    slots_eq = q.slots_eq;
    receipts_kept = q.receipts_kept;
    budget_kept = q.budget_kept;
    fires_counted = λ b j w. let up = (q.counts b j w).0 in omega (arith, none_fired j);
    effect = f;
  }

  punish_ends :
      (i : ℕ) (slot : Slot) (a : NegativeAction) (e : LockEngine)
      → Decoyed hmac entered now env e i slot
      → slot.negative ≡ a
      → ReceiptsOk e.receipts
      → Ends
          (punish hmac i (u32 now) a e)
          (λ e'. Entered hmac entered now env e e' (Outcome.negative i a))
  unfolding punish
  punish_ends i slot NegativeAction.reset e d n ok =
      Ends-map (reset_slot hmac i (u32 now) e) _ _
        (λ e1 (q, rest).
          Quiet-Entered e e1 (Outcome.negative i NegativeAction.reset) q (λ j. refl)
            (slot, d, n, q.burned_eq, (rest, q.lockout_eq)))
        (reset_slot-idle hmac i (u32 now) e ok)
  punish_ends i slot (NegativeAction.lockout s) e d n ok =
      Ends-bind (reset_slot hmac i (u32 now) e) _ _ _ (reset_slot-idle hmac i (u32 now) e ok)
        (λ e1 (q, rest). record {
          keys_eq = q.keys_eq;
          slots_eq = q.slots_eq;
          receipts_kept = q.receipts_kept;
          budget_kept = q.budget_kept;
          fires_counted = λ b j w. let up = (q.counts b j w).0 in omega arith;
          effect = (
            slot,
            d,
            n,
            q.burned_eq,
            (rest, ap (λ g. update g i (u32 (u32 now + s))) q.lockout_eq),
          );
        })
  punish_ends i slot NegativeAction.silent e d n ok =
      Quiet-Entered e e (Outcome.negative i NegativeAction.silent) (Quiet-refl e) (λ j. refl)
        (slot, d, n, refl, refl)

  -- A key table read at an index in range, with what is done at a present key.
  key_at_ends :
      (e : LockEngine) (k : ℕ) (body : KeyDef → Step)
      → k < 8
      → ((key : KeyDef) → e.keys k ≡ some key → Ends (body key) (Stepped hmac entered now env e))
      → Ends (key_at e k >>= λ o. let_some o e body) (Stepped hmac entered now env e)
  key_at_ends e k body h step = elim (Option-cases (e.keys k)) [
    | inl absent ↦ rw (lt→ltb k 8 h, absent) refl
    | inr (key, present) ↦ rw (lt→ltb k 8 h, present) (step key present)
  ]

  -- What is done where the code matches a key, whatever it is.
  on_match_ends :
      (e : LockEngine) (key : KeyDef) (delay : ℕ × ℕ) (body : ℕ → Step)
      → KeyOk key
      → ((m : ℕ)
          → entered_matches hmac entered now key delay ≡ some (some m)
          → Ends (body m) (Stepped hmac entered now env e))
      → Ends
          (entered_matches hmac entered now key delay >>= λ o. let_some o e body)
          (Stepped hmac entered now env e)
  on_match_ends e key delay body ok step =
      let (o, at, _) =
        Ends-some (entered_matches hmac entered now key delay) (λ _. Unit {0})
          (entered_matches_returns key delay ok) in
      rw at (pick o at)
    where
      pick :
          (o : Option ℕ)
          → entered_matches hmac entered now key delay ≡ some o
          → Ends (let_some o e body) (Stepped hmac entered now env e)
      pick none at = refl
      pick (some m) at = step m at

  module _ (e : LockEngine) (c : Configured e) where
    decoy_ends :
        (i : ℕ) (slot : Slot) (kidx ktab : ℕ) (key : KeyDef) (o : Option ℕ)
        → e.slots i ≡ some slot
        → e.keys ktab ≡ some key
        → IsCandidate slot.key (e.state i).count slot.policy (ktab, kidx)
        → key.decoy ≡ o
        → InTable o
        → Ends
            (let_some o e λ d. key_at e d >>= λ k. let_some k e λ dk.
              entered_matches hmac entered now dk (delay_window slot.policy) >>= λ m.
              let_some m e λ _. punish hmac i (u32 now) slot.negative e >>= λ e1.
              return e1 (Outcome.negative i slot.negative))
            (Stepped hmac entered now env e)
    decoy_ends i slot kidx ktab key none at kat cand has t = refl
    decoy_ends i slot kidx ktab key (some d) at kat cand has t = key_at_ends e d _ t (λ dk dat.
        on_match_ends e dk (delay_window slot.policy) _ (c.keys_ok d dk dat) (λ m hit.
          Ends-bind (punish hmac i (u32 now) slot.negative e) _
            (λ e'. Entered hmac entered now env e e' (Outcome.negative i slot.negative)) _
            (punish_ends i slot slot.negative e
              (record {
                key_index = ktab;
                kidx = kidx;
                key = key;
                decoy_index = d;
                decoy = dk;
                counter = m;
                slot_at = at;
                candidate = cand;
                key_at = kat;
                has_decoy = has;
                decoy_at = dat;
                matches = hit;
              })
              refl c.receipts_ok)
            (λ e1 r. r)))

    searched_ends :
        (i : ℕ) (slot : Slot) (kidx : ℕ) (key : KeyDef) (code : Code) (ktab : ℕ)
        → e.slots i ≡ some slot
        → e.keys ktab ≡ some key
        → IsCandidate slot.key (e.state i).count slot.policy (ktab, kidx)
        → parse entered key.digits ≡ some code
        → (o : Option ℕ)
        → Sound hmac
            (secret_of key)
            code
            key.digits
            (top (delay_window slot.policy) now)
            (bottom (delay_window slot.policy) now)
            o
        → Ends
            (searched hmac entered now i slot (block slot.gates env) kidx key e o)
            (Stepped hmac entered now env e)
    unfolding searched try_decoy
    searched_ends i slot kidx key code ktab at kat cand p none s =
        decoy_ends i slot kidx ktab key key.decoy at kat cand refl (c.keys_ok ktab key kat).decoy_in
    searched_ends i slot kidx key code ktab at kat cand p (some counter) s =
        elim (Bool-cases (ltb (u32 now) (e.lockout_until i))) [
          | inl locked ↦ rw locked (unchanged hmac entered now env e _ (λ j. refl) refl)
          | inr free ↦ rw free (
              matched_ends hmac entered now env i slot (block slot.gates env) kidx counter e
                (record {
                  key_index = ktab;
                  key = key;
                  code = code;
                  slot_at = at;
                  not_locked = ground arith;
                  candidate = cand;
                  key_at = kat;
                  parsed = p;
                  in_window = s.2;
                  minted = s.0;
                })
                refl c.receipts_ok)
        ]

    try_candidate_ends :
        (i : ℕ) (slot : Slot) (k : ℕ × ℕ)
        → e.slots i ≡ some slot
        → IsCandidate slot.key (e.state i).count slot.policy k × (k.0 < 8)
        → Ends
            (try_candidate hmac entered now i slot (block slot.gates env) k e)
            (Stepped hmac entered now env e)
    unfolding try_candidate try_key
    try_candidate_ends i slot (ktab, kidx) at (cand, small) = key_at_ends e ktab _ small (λ key kat.
        elim (Option-cases (parse entered key.digits)) [
          | inl no_code ↦ rw no_code refl
          | inr (code, p) ↦
              let ok = c.keys_ok ktab key kat in
              let (near, far) = delay_window slot.policy in
              let (r, m, s) = match_key_returns hmac key code now near far ok.fits ok.small in
              rw (p, m) (searched_ends i slot kidx key code ktab at kat cand p r s)
        ])

    pub enter_slot_ends :
        (i : ℕ) → Ends (enter_slot hmac entered now env i e) (Stepped hmac entered now env e)
    unfolding enter_slot
    enter_slot_ends i = elim (Option-cases (e.slots i)) [
      | inl absent ↦ rw absent refl
      | inr (slot, at) ↦ rw at (
          Ends-bind (candidates slot (e.state i)) _ _ (Stepped hmac entered now env e)
            (candidates_lem slot (e.state i) (c.slots_ok i slot at))
            (λ cands ok. each_ends _ cands _ e ok (λ k kok. try_candidate_ends i slot k at kok)))
    ]

    disarm-BudgetOk :
        (i : ℕ) → BudgetOk e → BudgetOk (record e { armed_until = update e.armed_until i none })
    disarm-BudgetOk i b j slot at = ground (arith, b j slot at)

    armed_ends :
        (i : ℕ) (slot : Slot) (armed veto : Option ℕ)
        → e.slots i ≡ some slot
        → e.armed_until i ≡ armed
        → slot.veto_key ≡ veto
        → InTable veto
        → Ends
            (let_some armed e λ _. let_some veto e λ vk. key_at e vk >>= λ k. let_some k e λ key.
              entered_matches hmac entered now key (0, 2 * period_s) >>= λ m. let_some m e λ _.
                return
                  (record e {
                    armed_until = update e.armed_until i none;
                    state = update e.state i idle;
                  })
                  (Outcome.vetoed i))
            (Stepped hmac entered now env e)
    armed_ends i slot none veto at was has t = refl
    armed_ends i slot (some u) none at was has t = refl
    armed_ends i slot (some u) (some vk) at was has t = key_at_ends e vk _ t (λ key kat.
        on_match_ends e key (0, 2 * period_s) _ (c.keys_ok vk key kat)
          (λ m hit. record {
            keys_eq = refl;
            slots_eq = refl;
            receipts_kept = λ r. r;
            budget_kept = disarm-BudgetOk i;
            fires_counted = λ b j w. omega arith;
            effect = record {
              slot = slot;
              fire_at = u;
              key_index = vk;
              key = key;
              counter = m;
              slot_at = at;
              was_armed = was;
              has_veto = has;
              key_at = kat;
              matches = hit;
              disarmed = refl;
            };
          }))

    pub veto_slot_ends :
        (i : ℕ) → Ends (veto_slot hmac entered now i e) (Stepped hmac entered now env e)
    unfolding veto_slot
    veto_slot_ends i = elim (Option-cases (e.slots i)) [
      | inl absent ↦ rw absent refl
      | inr (slot, at) ↦ rw at (
          armed_ends i slot (e.armed_until i) slot.veto_key at refl refl
            (c.slots_ok i slot at).veto_in)
    ]

-- ===== src/Reveal.antt =====
-- The code generator, which decides what the display may show:
-- firmware/ephemerkey-core/src/reveal.rs, as the firmware builds it, without the feature
-- `introspect`. A method that may fail with an error of its own returns `Shown` or `Fed`; `none` of
-- `Run` is a panic.
pub mod Sight
pub mod History
pub mod Change
pub mod Pacing
pub mod Ritual
pub mod Scatter
pub mod Countdown
pub mod Feeding
mod Tests
use ephemerkey.Common.{
  ℕ, zero, suc, ◌+◌, ◌-◌, ◌%◌, Bool, true, false, not, ◌&&◌, ◌||◌, Option, none, some, ltb, leb,
  ◌==◌, if◌then◌else◌, u32, u64, sub64, min, update, Run, ◌>>=◌, bit_or, List,
}
use ephemerkey.Policy.{Action, max_keys}
use ephemerkey.Slots.{xorshift32}
use ephemerkey.Totp.{Code, totp_at, max_digits}
use ephemerkey.Receipt.{secret_slice}
use ephemerkey.Receipt.Check.{ReceiptCheck, Validator, verify_code}
use ephemerkey.Engine.{KeyDef, Outcome}

pub data DisplayMode : Type 0 where
  plain scatter : DisplayMode

pub data OnceMode : Type 0 where
  unlimited refuse decoy : OnceMode

pub record DisplaySpec : Type 0 where
  pub mode : DisplayMode
  pub dwell_ms : ℕ  -- u16, and so the others
  pub reveal_s : ℕ
  pub once : OnceMode
  pub gap_min_s : ℕ

pub record ChainSpec : Type 0 where
  pub validator : Validator
  pub action : Action
  pub min_elapsed_s : ℕ  -- u32

pub record GenKey : Type 0 where
  pub key : KeyDef
  pub decoy : Option KeyDef
  pub display : DisplaySpec
  pub chain : Option ChainSpec

-- `order` holds ten positions, by their index.
pub record Reveal : Type 0 where
  pub code : Code
  pub order : ℕ → ℕ
  pub mode : DisplayMode
  pub dwell_ms : ℕ
  pub reveal_s : ℕ

pub data RevealErr : Type 0 where
  refused_until : ℕ → RevealErr
  no_such_key chain_required : RevealErr
  chain_wait : ℕ → RevealErr
  locked : RevealErr

pub data ChainErr : Type 0 where
  no_such_key no_chain : ChainErr
  rejected : ReceiptCheck → ChainErr

pub record GenKeyState : Type 0 where
  pub last_real : ℕ  -- u64
  pub chain_fed_at : ℕ  -- u64
  pub chain_spent : Bool

pub record Generator : Type 0 where
  pub keys : ℕ → Option GenKey
  pub state : ℕ → GenKeyState
  pub gated : ℕ → Bool
  pub unlocked_until : ℕ  -- u64
  pub duress_until : ℕ  -- u64

-- `Generator::new`.
abbrev pub new_generator : Generator
new_generator = record {
  keys = λ _. none;
  state = λ _. record { last_real = 0; chain_fed_at = 0; chain_spent = false };
  gated = λ _. false;
  unlocked_until = 0;
  duress_until = 0;
}

unfoldable pub set_gated : Generator → ℕ → Bool → Generator
set_gated g idx on = if ltb idx max_keys then record g { gated = update g.gated idx on } else g

unfoldable pub set_unlocked : Generator → ℕ → Generator
set_unlocked g until = record g { unlocked_until = until }

unfoldable pub set_duress : Generator → ℕ → Generator
set_duress g until = record g {
  duress_until = until;
  unlocked_until = if ltb g.unlocked_until until then until else g.unlocked_until;
}

unfoldable pub is_unlocked : Generator → ℕ → Bool
is_unlocked g now = ltb now g.unlocked_until

unfoldable pub unlock_secs_left : Generator → ℕ → ℕ
unlock_secs_left g now = min (g.unlocked_until - now) 4294967295

-- `order.swap(i, j)`.
abbrev pub swap : (ℕ → ℕ) → ℕ → ℕ → ℕ → ℕ
swap order i j = update (update order i (order j)) j (order i)

-- The loop of `scatter_order`, from position `i` down to 1.
unfoldable pub shuffle : ℕ → ℕ → (ℕ → ℕ) → ℕ → ℕ
shuffle zero s order = order
shuffle (suc i) s order =
    let s' = xorshift32 s in shuffle i s' (swap order (suc i) (s' % (suc i + 1)))

unfoldable pub scatter_order : ℕ → ℕ → Run (ℕ → ℕ)
unfolding shuffle
scatter_order digits seed =
    if ltb max_digits digits then none else some (shuffle (digits - 1) (bit_or seed 1) (λ i. i))

-- `self.keys.get(idx).copied().flatten()`.
abbrev pub gen_key : Generator → ℕ → Option GenKey
gen_key g idx = if ltb idx max_keys then g.keys idx else none

pub data Shown : Type 0 where
  ok : Reveal → Shown
  err : RevealErr → Shown

pub data Fed : Type 0 where
  ok : ℕ → Fed
  err : ChainErr → Fed

-- What the receipt chain answers, if it stops a reveal.
abbrev pub chain_stop : Option ChainSpec → GenKeyState → ℕ → Option RevealErr
chain_stop none st now = none
chain_stop (some ch) st now =
    if st.chain_spent
    then some RevealErr.chain_required
    else if ltb 0 st.chain_fed_at && ltb now (u64 (st.chain_fed_at + ch.min_elapsed_s))
    then some (RevealErr.chain_wait (u64 (st.chain_fed_at + ch.min_elapsed_s)))
    else none

-- Is a real reveal permitted right now?
abbrev pub real_ok : OnceMode → GenKeyState → ℕ → ℕ → Bool
real_ok OnceMode.unlimited st gap_min_s now = true
real_ok OnceMode.refuse st gap_min_s now =
    st.last_real == 0 || leb gap_min_s (sub64 now st.last_real)
real_ok OnceMode.decoy st gap_min_s now =
    st.last_real == 0 || leb gap_min_s (sub64 now st.last_real)

abbrev pub spends : Option ChainSpec → Bool → Bool
spends none spent = spent
spends (some ch) spent = true

-- The state after a real reveal.
abbrev pub used : GenKey → GenKeyState → ℕ → GenKeyState
used gk st now = record st { last_real = now; chain_spent = spends gk.chain st.chain_spent }

abbrev pub or_stop :
    Option RevealErr → Generator → Run (Generator × Shown) → Run (Generator × Shown)
or_stop none g rest = rest
or_stop (some e) g rest = some (g, err e)

-- Is the key shut by the ritual, or under duress?
abbrev pub shut_out : Generator → ℕ → ℕ → Bool
shut_out g idx now = ltb now g.duress_until || (g.gated idx && leb g.unlocked_until now)

-- A rejected code leaves the chain as it was; the validator is kept as the check returned it.
abbrev pub refused : Generator → ℕ → GenKey → ChainSpec → Validator → ReceiptCheck → Generator × Fed
refused g idx gk ch v e = (
  record g {
    keys = update g.keys idx (some (record gk { chain = some (record ch { validator = v }) }));
  },
  err (ChainErr.rejected e),
)

-- What `feed_chain` does with the validator's answer: only an accepted code feeds the chain.
abbrev pub fed : Generator → ℕ → GenKey → ChainSpec → ℕ → Validator × ReceiptCheck → Generator × Fed
fed g idx gk ch now (v, ReceiptCheck.valid skipped drift_s) = (
  record g {
    keys = update g.keys idx (some (record gk { chain = some (record ch { validator = v }) }));
    state = update g.state idx (record (g.state idx) { chain_fed_at = now; chain_spent = false });
  },
  ok (u64 (now + ch.min_elapsed_s)),
)
fed g idx gk ch now (v, ReceiptCheck.bad_code) = refused g idx gk ch v ReceiptCheck.bad_code
fed g idx gk ch now (v, ReceiptCheck.replay) = refused g idx gk ch v ReceiptCheck.replay
fed g idx gk ch now (v, ReceiptCheck.too_far_ahead) =
    refused g idx gk ch v ReceiptCheck.too_far_ahead
fed g idx gk ch now (v, ReceiptCheck.out_of_window) =
    refused g idx gk ch v ReceiptCheck.out_of_window
fed g idx gk ch now (v, ReceiptCheck.mode_mismatch) =
    refused g idx gk ch v ReceiptCheck.mode_mismatch

module _ (hmac : List ℕ → List ℕ → List ℕ) where
  -- `totp_at(key.secret(), now, key.digits)`.
  unfoldable pub mint_code : KeyDef → ℕ → Run Code
  mint_code key now =
      secret_slice key.secret key.secret_len >>= λ secret. totp_at hmac secret now key.digits

  -- The reveal of a code of `key`: one path for real and decoy codes.
  unfoldable pub present : DisplaySpec → KeyDef → ℕ → ℕ → Run Reveal
  present display key now entropy = mint_code key now >>= λ code.
      scatter_order code.digits entropy >>= λ order. some (record {
        code = code;
        order = order;
        mode = display.mode;
        dwell_ms = display.dwell_ms;
        reveal_s = display.reveal_s;
      })

  abbrev pub showing : Generator → GenKey → KeyDef → ℕ → ℕ → Run (Generator × Shown)
  showing g gk key now entropy = present gk.display key now entropy >>= λ r. some (g, ok r)

  -- The decoy twin, or the refusal where there is none.
  abbrev pub show_decoy : Generator → GenKey → ℕ → ℕ → RevealErr → Run (Generator × Shown)
  show_decoy g gk now entropy refusal = elim gk.decoy [
    | none ↦ some (g, err refusal)
    | some d ↦ showing g gk d now entropy
  ]

  -- A reveal that the cadence does not permit; `Unlimited` is `unreachable!`.
  abbrev pub not_yet : OnceMode → Generator → GenKey → ℕ → ℕ → RevealErr → Run (Generator × Shown)
  not_yet OnceMode.unlimited g gk now entropy refusal = none
  not_yet OnceMode.refuse g gk now entropy refusal = some (g, err refusal)
  not_yet OnceMode.decoy g gk now entropy refusal = show_decoy g gk now entropy refusal

  -- Behind the ritual gate and the receipt chain.
  unfoldable pub reveal_paced : Generator → ℕ → GenKey → ℕ → ℕ → Run (Generator × Shown)
  reveal_paced g idx gk now entropy =
      let st = g.state idx in
      if real_ok gk.display.once st gk.display.gap_min_s now
      then showing (record g { state = update g.state idx (used gk st now) }) gk gk.key now entropy
      else not_yet gk.display.once g gk now entropy
          (RevealErr.refused_until (u64 (st.last_real + gk.display.gap_min_s)))

  unfoldable pub reveal_key : Generator → ℕ → Option GenKey → ℕ → ℕ → Run (Generator × Shown)
  reveal_key g idx none now entropy = some (g, err RevealErr.no_such_key)
  reveal_key g idx (some gk) now entropy =
      if shut_out g idx now
      then show_decoy g gk now entropy RevealErr.locked
      else or_stop (chain_stop gk.chain (g.state idx) now) g (reveal_paced g idx gk now entropy)

  unfoldable pub reveal : Generator → ℕ → ℕ → ℕ → Run (Generator × Shown)
  reveal g idx now entropy = reveal_key g idx (gen_key g idx) now entropy

  abbrev pub feed_key : Generator → ℕ → Option GenKey → Code → ℕ → Run (Generator × Fed)
  feed_key g idx none code now = some (g, err ChainErr.no_such_key)
  feed_key g idx (some gk) code now = elim gk.chain [
    | none ↦ some (g, err ChainErr.no_chain)
    | some ch ↦
        verify_code hmac ch.validator ch.action code (u32 now) >>= λ a. some (fed g idx gk ch now a)
  ]

  unfoldable pub feed_chain : Generator → ℕ → Code → ℕ → Run (Generator × Fed)
  feed_chain g idx code now = feed_key g idx (gen_key g idx) code now

abbrev pub next_real : OnceMode → GenKeyState → ℕ → ℕ → ℕ
next_real OnceMode.unlimited st gap_min_s now = 0
next_real OnceMode.refuse st gap_min_s now =
    if st.last_real == 0 then 0 else u64 (st.last_real + gap_min_s) - now
next_real OnceMode.decoy st gap_min_s now =
    if st.last_real == 0 then 0 else u64 (st.last_real + gap_min_s) - now

unfoldable pub next_real_in : Generator → ℕ → ℕ → Option ℕ
next_real_in g idx now =
    gen_key g idx >>= λ gk. some (next_real gk.display.once (g.state idx) gk.display.gap_min_s now)

unfoldable pub apply_ritual_outcome : Generator → Outcome → ℕ → ℕ → Generator
apply_ritual_outcome g (Outcome.fired i Action.unlock) now window_s =
    set_unlocked g (u64 (now + window_s))
apply_ritual_outcome g (Outcome.fired i Action.duress_unlock) now window_s =
    set_duress g (u64 (now + window_s))
apply_ritual_outcome g (Outcome.fired i Action.lock) now window_s = g
apply_ritual_outcome g (Outcome.progress i have need) now window_s = g
apply_ritual_outcome g (Outcome.reset i) now window_s = g
apply_ritual_outcome g (Outcome.replay i) now window_s = g
apply_ritual_outcome g (Outcome.beat i) now window_s = g
apply_ritual_outcome g (Outcome.negative i a) now window_s = g
apply_ritual_outcome g (Outcome.locked_out i) now window_s = g
apply_ritual_outcome g (Outcome.gated i r) now window_s = g
apply_ritual_outcome g Outcome.invalid now window_s = g
apply_ritual_outcome g (Outcome.armed i t) now window_s = g
apply_ritual_outcome g (Outcome.vetoed i) now window_s = g
apply_ritual_outcome g (Outcome.exhausted i) now window_s = g

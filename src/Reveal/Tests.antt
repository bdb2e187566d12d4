-- ===== src/Reveal/Tests.antt =====
-- Runs of the generator, with a tag in place of HMAC-SHA1 whose first byte is that of the key and
-- whose last four bytes are the lowest of the counter.
use ephemerkey.Common.{
  ℕ, ◌+◌, ◌≡◌, ◌≢◌, ◌≤◌, refl, true, false, none, some, List, [], ◌∷◌, ◌++◌, drop, replicate,
  get_or, arith, update, leb, sym, ap, ◌∙◌, Option,
}
use ephemerkey.Policy.{Action}
use ephemerkey.Totp.{totp_at, hotp, to_be_bytes, truncate, counter_at}
use ephemerkey.Receipt.{ReceiptMode, secret_slice, msg}
use ephemerkey.Receipt.Check.{Validator, verify_code, search_seq}
use ephemerkey.Engine.{KeyDef, Outcome}
use ephemerkey.Reveal.{
  Generator, GenKey, DisplaySpec, DisplayMode, OnceMode, Reveal, Shown, Fed, new_generator, real_ok,
  shuffle, scatter_order, mint_code, present, reveal, reveal_key, reveal_paced, feed_chain,
  next_real_in, set_duress, is_unlocked, apply_ritual_outcome,
}
use ephemerkey.Reveal.Sight.{IsReal, IsPoison, spend}
use ephemerkey.Reveal.History.{Event, Step, Ran}
use ephemerkey.Reveal.Pacing.{NotTwins, one_per_receipt, cadence}
use ephemerkey.Reveal.Ritual.{duress_hides_codes, gated_needs_ritual}
use ephemerkey.Reveal.Scatter.{Permutes, scatter_order-Permutes}
use ephemerkey.Reveal.Countdown.{next_real_in-real_ok}
use ephemerkey.Reveal.Feeding.{fed_then_shown}

abbrev tag : List ℕ → List ℕ → List ℕ
tag key message = (get_or key 0 0 ∷ drop 5 message) ++ replicate 16 0

abbrev key_of : ℕ → KeyDef
key_of k = record { secret = replicate 32 k; secret_len = 20; digits = 6; decoy = none }

abbrev remote : Validator
remote = record {
  secret = replicate 32 7;
  secret_len = 20;
  digits = 6;
  mode = ReceiptMode.sequence;
  expected_seq = 1;
  look_ahead = 16;
  time_window_s = 3600;
}

abbrev scattered : DisplaySpec
scattered = record {
  mode = DisplayMode.scatter;
  dwell_ms = 700;
  reveal_s = 20;
  once = OnceMode.decoy;
  gap_min_s = 60;
}

abbrev chained_key : GenKey
chained_key = record {
  key = key_of 3;
  decoy = some (key_of 4);
  display = scattered;
  chain = some (record { validator = remote; action = Action.lock; min_elapsed_s = 100 });
}

abbrev device : Generator
device = record new_generator { keys = update new_generator.keys 0 (some chained_key) }

-- The same key without a receipt chain.
abbrev unchained_key : GenKey
unchained_key = record chained_key { chain = none }

abbrev free_device : Generator
free_device = record new_generator { keys = update new_generator.keys 0 (some unchained_key) }

-- How the display presents the code of `value` under entropy 77.
abbrev on_screen : ℕ → Reveal
unfolding shuffle
on_screen value = record {
  code = record { value = value; digits = 6 };
  order = shuffle 5 77 (λ i. i);
  mode = DisplayMode.scatter;
  dwell_ms = 700;
  reveal_s = 20;
}

abbrev value_shown : Option Reveal → ℕ
value_shown none = 0
value_shown (some r) = r.code.value

-- The twin's code at the times of the reveals.
twin_mints_first : present tag scattered (key_of 4) 3000 77 ≡ some (on_screen 108964)
unfolding present mint_code secret_slice totp_at hotp to_be_bytes counter_at scatter_order truncate
twin_mints_first = refl

twin_mints_second : present tag scattered (key_of 4) 3060 77 ≡ some (on_screen 108966)
unfolding present mint_code secret_slice totp_at hotp to_be_bytes counter_at scatter_order truncate
twin_mints_second = refl

-- A code that differs from the one that the twin mints is not the twin's.
differs :
    (gk : GenKey) (d : KeyDef) (now v w : ℕ)
    → gk.decoy ≡ some d
    → present tag gk.display d now 77 ≡ some (on_screen v)
    → v ≢ w
    → NotTwins tag 0 gk now 77 (on_screen w)
unfolding on_screen
differs gk d now v w twin mints ne d2 twin2 mints2 =
    let same : d ≡ d2 = cc in
    let shows : ◌≡◌ {A = Option Reveal} (some (on_screen v)) (some (on_screen w)) =
      sym mints ∙ (ap (λ k. present tag gk.display k now 77) same ∙ mints2) in
    ne (ap value_shown shows)

-- The generators behind the first reveal, and behind a duress ritual at 3010.
abbrev spent_device : Generator
spent_device = spend tag device 0 3000 77 chained_key

abbrev forced : Generator → Generator
forced g = apply_ritual_outcome g (Outcome.fired 2 Action.duress_unlock) 3010 60

forced_shows :
    reveal tag (forced spent_device) 0 3020 77
    ≡ some (forced spent_device, Shown.ok (on_screen 108964))
unfolding reveal reveal_key reveal_paced present mint_code secret_slice totp_at hotp to_be_bytes
    counter_at scatter_order truncate apply_ritual_outcome set_duress
forced_shows = refl

first_shown :
    reveal tag device 0 3000 77
    ≡ some (spend tag device 0 3000 77 chained_key, Shown.ok (on_screen 331748))
unfolding reveal reveal_key reveal_paced present mint_code secret_slice totp_at hotp to_be_bytes
    counter_at scatter_order truncate
first_shown = refl

one_per_receipt_example :
    IsPoison tag (forced spent_device) 0 3020 77 (forced spent_device) (on_screen 108964)
one_per_receipt_example =
    one_per_receipt tag 0 3000 77 device spent_device chained_key (on_screen 331748) refl
      first_shown
      (differs chained_key (key_of 4) 3000 108964 331748 refl twin_mints_first (λ e. omega arith))
      3010 3020 77 (forced spent_device) (forced spent_device) (on_screen 108964)
      (Event.ritual (Outcome.fired 2 Action.duress_unlock) ∷ []) refl
      (Ran.next Ran.start (omega arith) (Step.performed (Outcome.fired 2 Action.duress_unlock) 60))
      (tt, tt) forced_shows

decoy_in_duress :
    reveal tag (forced device) 0 3020 77 ≡ some (forced device, Shown.ok (on_screen 108964))
unfolding reveal reveal_key reveal_paced present mint_code secret_slice totp_at hotp to_be_bytes
    counter_at scatter_order truncate apply_ritual_outcome set_duress
decoy_in_duress = refl

duress_hides_codes_example :
    (is_unlocked (forced device) 3020 ≡ true)
    × IsPoison tag (forced device) 0 3020 77 (forced device) (on_screen 108964)
duress_hides_codes_example =
    duress_hides_codes tag device (forced device) (forced device) 2 3010 60 3010 3020 0 77 []
      (on_screen 108964) Ran.start tt (omega arith) decoy_in_duress

-- Without a chain the second reveal comes 60 seconds after the first.
abbrev free_spent : Generator
free_spent = spend tag free_device 0 3000 77 unchained_key

-- Before that the decoy twin's code is shown.
too_early : reveal tag free_spent 0 3030 77 ≡ some (free_spent, Shown.ok (on_screen 108965))
unfolding reveal reveal_key reveal_paced present mint_code secret_slice totp_at hotp to_be_bytes
    counter_at scatter_order truncate
too_early = refl

free_first : reveal tag free_device 0 3000 77 ≡ some (free_spent, Shown.ok (on_screen 331748))
unfolding reveal reveal_key reveal_paced present mint_code secret_slice totp_at hotp to_be_bytes
    counter_at scatter_order truncate
free_first = refl

free_second :
    reveal tag free_spent 0 3060 77
    ≡ some (spend tag free_spent 0 3060 77 unchained_key, Shown.ok (on_screen 331750))
unfolding reveal reveal_key reveal_paced present mint_code secret_slice totp_at hotp to_be_bytes
    counter_at scatter_order truncate
free_second = refl

decoy_is_limited : OnceMode.decoy ≢ OnceMode.unlimited
decoy_is_limited same = absurd (cc)

cadence_example : 3060 ≤ 3060
cadence_example =
    cadence tag 0 3000 77 free_device free_spent unchained_key (on_screen 331748) refl free_first
      (differs unchained_key (key_of 4) 3000 108964 331748 refl twin_mints_first (λ e. omega arith))
      3030 3060 77 free_spent (spend tag free_spent 0 3060 77 unchained_key) unchained_key
      (on_screen 331750) (Event.reveals 0 (Shown.ok (on_screen 108965)) ∷ []) decoy_is_limited
      (omega arith) (Ran.next Ran.start (omega arith) (Step.revealed 0 77 too_early)) (omega arith)
      (omega arith) refl free_second
      (differs unchained_key (key_of 4) 3060 108966 331750 refl twin_mints_second
        (λ e. omega arith))

back_mints : present tag scattered (key_of 3) 2000 77 ≡ some (on_screen 331714)
unfolding present mint_code secret_slice totp_at hotp to_be_bytes counter_at scatter_order truncate
back_mints = refl

next_real_in-real_ok_example :
    (s : ℕ) × (next_real_in free_spent 0 3020 ≡ some s)
    × (real_ok OnceMode.decoy (free_spent.state 0) 60 3050 ≡ leb (3020 + s) 3050)
next_real_in-real_ok_example =
    next_real_in-real_ok free_spent 0 3020 3050 unchained_key refl (omega arith) (omega arith)
      (omega arith) (omega arith)

scatter_order-Permutes_example :
    (order : ℕ → ℕ) × (scatter_order 6 77 ≡ some order) × Permutes 6 order
scatter_order-Permutes_example = scatter_order-Permutes 6 77 (omega arith)

-- The gated key, before any ritual.
abbrev gated_device : Generator
gated_device = record device { gated = update device.gated 0 true }

gated_shows : reveal tag gated_device 0 3020 77 ≡ some (gated_device, Shown.ok (on_screen 108964))
unfolding reveal reveal_key reveal_paced present mint_code secret_slice totp_at hotp to_be_bytes
    counter_at scatter_order truncate
gated_shows = refl

progressed : Step tag gated_device 3010 (Event.ritual (Outcome.progress 0 1 3)) gated_device
unfolding apply_ritual_outcome
progressed = Step.performed (Outcome.progress 0 1 3) 60

gated_needs_ritual_example : IsPoison tag gated_device 0 3020 77 gated_device (on_screen 108964)
gated_needs_ritual_example =
    gated_needs_ritual tag 0 3000 3010 3020 77 gated_device gated_device gated_device
      (Event.ritual (Outcome.progress 0 1 3) ∷ []) (on_screen 108964) refl (omega arith)
      (Ran.next Ran.start (omega arith) progressed) ((λ (i, e). cc, λ (i, e). cc), tt) (tt, tt)
      (omega arith) gated_shows

own_mints : present tag scattered (key_of 3) 3000 77 ≡ some (on_screen 331748)
unfolding present mint_code secret_slice totp_at hotp to_be_bytes counter_at scatter_order truncate
own_mints = refl

twin_mints : present tag scattered (key_of 4) 3020 77 ≡ some (on_screen 108964)
unfolding present mint_code secret_slice totp_at hotp to_be_bytes counter_at scatter_order truncate
twin_mints = refl

-- The lock's receipt 1 is fed at 4000; its code is that of the validator's secret.
abbrev fed_device : Generator
fed_device = record spent_device {
  keys = update spent_device.keys 0 (
      some (record chained_key {
        chain = some (record {
          validator = record remote { expected_seq = 2 };
          action = Action.lock;
          min_elapsed_s = 100;
        });
      }));
  state =
      update spent_device.state 0
        (record { last_real = 3000; chain_fed_at = 4000; chain_spent = false });
}

fed_receipt :
    feed_chain tag spent_device 0 (record { value = 440513; digits = 6 }) 4000
    ≡ some (fed_device, Fed.ok 4100)
unfolding feed_chain verify_code search_seq secret_slice hotp msg to_be_bytes truncate
fed_receipt = refl

fed_then_shown_example :
    (g2 : Generator) × (r : Reveal) × (reveal tag fed_device 0 4100 77 ≡ some (g2, Shown.ok r))
    × IsReal tag fed_device 0 4100 77 g2 r
fed_then_shown_example =
    fed_then_shown tag spent_device fed_device 0 4000 4100 (record { value = 440513; digits = 6 })
      4100 77
      (record chained_key {
        chain = some (record {
          validator = record remote { expected_seq = 2 };
          action = Action.lock;
          min_elapsed_s = 100;
        });
      })
      fed_receipt refl (omega arith) refl refl (omega arith) (omega arith)

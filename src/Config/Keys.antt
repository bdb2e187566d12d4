-- ===== src/Config/Keys.antt =====
-- What the parsers of keys, chains, the confirm identity and calendars accept
-- (firmware/ephemerkey-config/src/lib.rs).
use ephemerkey.Common.{
  ℕ, ◌-◌, ◌%◌, ◌≤◌, ◌≡◌, refl, true, some, ◌==◌, ◌||◌, List, ◌++◌, length, arith, leb, take,
  length-take, replicate,
}
use ephemerkey.Cbor.Decode
use ephemerkey.Receipt.{secret_buffer}
use ephemerkey.Receipt.Check.{Validator, new_validator}
use ephemerkey.Engine.{KeyDef}
use ephemerkey.Receipt.{ReceiptMode}
use ephemerkey.Config.{KeyEntry, ConfirmEntry}
use ephemerkey.Config.Fields.{read_secret, digits_from, action_from, mode_from, record_of}
use ephemerkey.Config.Parse.{
  display_field, plain_display, parse_display, ChainFields, no_chain, chain_field, parse_chain,
  confirm_field, parse_confirm, KeyFields, no_key, key_field, parse_key, calendar_field,
  parse_calendar,
}
use ephemerkey.Config.Safely.{
  Safely, Safely-then, lift_then, Read, if-Safely, skip_field-Safely, record_of-Safely, Buffered,
  read_secret-Safely, number_field, Any, action_from-Safely, mode_from-Safely, digits_from-Safely,
  IsDigits,
}

parse_display-Safely : (bs : List ℕ) → Safely (Read Any) (parse_display bs)
unfolding parse_display
parse_display-Safely bs =
    record_of-Safely Any display_field
      (λ key s bs h.
        number_field Any (key == 1) _ bs _ (λ v. tt)
          (number_field Any (key == 2) _ bs _ (λ v. tt)
            (number_field Any (key == 3) _ bs _ (λ v. tt)
              (number_field Any (key == 4) _ bs _ (λ v. tt)
                (number_field Any (key == 5) _ bs _ (λ v. tt) (skip_field-Safely Any s bs tt))))))
      plain_display bs tt

-- A secret in its buffer, and a number of digits.
abbrev pub ChainFits : ChainFields → Type 0
ChainFits c = Buffered (c.secret, c.secret_len) × IsDigits c.digits

chain_field-Safely :
    (key : ℕ) (c : ChainFields) (bs : List ℕ)
    → ChainFits c
    → Safely (Read ChainFits) (chain_field key c bs)
chain_field-Safely key c bs (buffered, digits) =
    if-Safely (Read ChainFits) (key == 1) _ _
      (Safely-then (Read Buffered) (Read ChainFits) (read_secret c.secret bs) _
        (read_secret-Safely c.secret bs buffered.0) (λ ((s, n), bs) fits. (fits, digits)))
      (if-Safely (Read ChainFits) (key == 2) _ _
        (lift_then (Read ChainFits) (Decode.uint bs) _ (λ (v, bs).
          Safely-then IsDigits (Read ChainFits) (digits_from v) _ (digits_from-Safely v)
            (λ n h. (buffered, h))))
        (if-Safely (Read ChainFits) (key == 3) _ _
          (lift_then (Read ChainFits) (Decode.uint bs) _ (λ (v, bs).
            Safely-then Any (Read ChainFits) (mode_from v) _ (mode_from-Safely v)
              (λ x h. (buffered, digits))))
          (if-Safely (Read ChainFits) (key == 4) _ _
            (lift_then (Read ChainFits) (Decode.uint bs) _ (λ (v, bs).
              Safely-then Any (Read ChainFits) (action_from v) _ (action_from-Safely v)
                (λ x h. (buffered, digits))))
            (number_field ChainFits (key == 5) _ bs _ (λ v. (buffered, digits))
              (number_field ChainFits (key == 6) _ bs _ (λ v. (buffered, digits))
                (skip_field-Safely ChainFits c bs (buffered, digits)))))))

pub secret_buffer_returns : (s : List ℕ) → length s ≤ 32 → (b : List ℕ) × (secret_buffer s ≡ some b)
unfolding secret_buffer
secret_buffer_returns s fits =
    let short : leb (length s) 32 ≡ true = ground arith in
    (s ++ replicate (32 - length s) 0, rw short refl)

pub new_validator_returns :
    (s : List ℕ) (digits : ℕ) (mode : ReceiptMode)
    → length s ≤ 32
    → (v : Validator) × (new_validator s digits mode ≡ some v)
unfolding new_validator
new_validator_returns s digits mode fits =
    let (b, made) = secret_buffer_returns s fits in
    (
      record {
        secret = b;
        secret_len = length s % 256;
        digits = digits;
        mode = mode;
        expected_seq = 0;
        look_ahead = 16;
        time_window_s = 3600;
      },
      rw made refl,
    )

parse_chain-Safely : (bs : List ℕ) → Safely (Read Any) (parse_chain bs)
unfolding parse_chain
parse_chain-Safely bs =
    Safely-then (Read ChainFits) (Read Any) (record_of chain_field no_chain bs) _
      (record_of-Safely ChainFits chain_field chain_field-Safely no_chain bs
        ((refl, omega arith), (omega arith, omega arith)))
      (λ (c, bs) (buffered, digits).
        if-Safely (Read Any) c.have_secret _ _
          (let t = length-take c.secret_len c.secret in
            let (v, made) =
              new_validator_returns (take c.secret_len c.secret) c.digits c.mode
                (omega (arith, t, buffered)) in
            rw made tt)
          tt)

abbrev pub ConfirmFits : ConfirmEntry → Type 0
ConfirmFits c = Buffered (c.secret, c.secret_len) × IsDigits c.digits

pub parse_confirm-Safely : (bs : List ℕ) → Safely (Read ConfirmFits) (parse_confirm bs)
unfolding parse_confirm
parse_confirm-Safely bs =
    Safely-then (Read ChainFits) (Read ConfirmFits) (record_of confirm_field no_chain bs) _
      (record_of-Safely ChainFits confirm_field
        (λ key c bs h.
          if-Safely (Read ChainFits) (key == 1 || (key == 2 || key == 3)) _ _
            (chain_field-Safely key c bs h) (skip_field-Safely ChainFits c bs h))
        no_chain bs ((refl, omega arith), (omega arith, omega arith)))
      (λ (c, bs) h. if-Safely (Read ConfirmFits) c.have_secret _ _ h tt)

abbrev pub DefFits : KeyDef → Type 0
DefFits d = Buffered (d.secret, d.secret_len) × IsDigits d.digits

abbrev KeyFieldsFit : KeyFields → Type 0
KeyFieldsFit k = DefFits k.def

key_field-Safely :
    (key : ℕ) (k : KeyFields) (bs : List ℕ)
    → KeyFieldsFit k
    → Safely (Read KeyFieldsFit) (key_field key k bs)
key_field-Safely key k bs (buffered, digits) =
    if-Safely (Read KeyFieldsFit) (key == 1) _ _
      (Safely-then (Read Buffered) (Read KeyFieldsFit) (read_secret k.def.secret bs) _
        (read_secret-Safely k.def.secret bs buffered.0) (λ ((s, n), bs) fits. (fits, digits)))
      (if-Safely (Read KeyFieldsFit) (key == 2) _ _
        (lift_then (Read KeyFieldsFit) (Decode.uint bs) _ (λ (v, bs).
          Safely-then IsDigits (Read KeyFieldsFit) (digits_from v) _ (digits_from-Safely v)
            (λ n h. (buffered, h))))
        (number_field KeyFieldsFit (key == 3) _ bs _ (λ v. (buffered, digits))
          (if-Safely (Read KeyFieldsFit) (key == 4) _ _
            (Safely-then (Read Any) (Read KeyFieldsFit) _ _ (parse_display-Safely bs)
              (λ (s, bs) h. (buffered, digits)))
            (if-Safely (Read KeyFieldsFit) (key == 5) _ _
              (Safely-then (Read Any) (Read KeyFieldsFit) _ _ (parse_chain-Safely bs)
                (λ (s, bs) h. (buffered, digits)))
              (if-Safely (Read KeyFieldsFit) (key == 7) _ _
                (lift_then (Read KeyFieldsFit) (Decode.bool bs) _ (λ (b, bs). (buffered, digits)))
                (skip_field-Safely KeyFieldsFit k bs (buffered, digits)))))))

abbrev pub EntryFits : KeyEntry → Type 0
EntryFits k = DefFits k.def

pub parse_key-Safely : (bs : List ℕ) → Safely (Read EntryFits) (parse_key bs)
unfolding parse_key
parse_key-Safely bs =
    Safely-then (Read KeyFieldsFit) (Read EntryFits) (record_of key_field no_key bs) _
      (record_of-Safely KeyFieldsFit key_field key_field-Safely no_key bs
        ((refl, omega arith), (omega arith, omega arith)))
      (λ (k, bs) h. if-Safely (Read EntryFits) k.have_secret _ _ h tt)

pub parse_calendar-Safely : (bs : List ℕ) → Safely (Read Any) (parse_calendar bs)
unfolding parse_calendar
parse_calendar-Safely bs =
    record_of-Safely Any calendar_field
      (λ key w bs h.
        number_field Any (key == 1) _ bs _ (λ v. tt)
          (number_field Any (key == 2) _ bs _ (λ v. tt)
            (number_field Any (key == 3) _ bs _ (λ v. tt) (skip_field-Safely Any w bs tt))))
      _ bs tt

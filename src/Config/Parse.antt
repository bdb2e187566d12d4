-- ===== src/Config/Parse.antt =====
-- The parser of a device configuration (firmware/ephemerkey-config/src/lib.rs).
use ephemerkey.Common.{
  ℕ, zero, suc, Bool, true, false, Option, none, some, Run, ◌==◌, ◌||◌, if◌then◌else◌, u8, u16, u32,
  List, [], ◌∷◌, take, replicate,
}
use ephemerkey.Cbor.Decode
use ephemerkey.Policy.{Action, max_slots, max_keys}
use ephemerkey.Receipt.{ReceiptMode, max_secret}
use ephemerkey.Receipt.Check.{Validator, new_validator}
use ephemerkey.Engine.{KeyDef}
use ephemerkey.Reveal.{DisplayMode, OnceMode, DisplaySpec, ChainSpec}
use ephemerkey.Provision.{eq_bytes}
use ephemerkey.Config.{
  ConfigError, Parsed, good, bad, panics, ◌>>=◌, lift, CalWindow, KeyEntry, ConfirmEntry,
  DeviceModel, empty, max_calendars,
}
use ephemerkey.Config.Fields.{
  uint, bool, skip_field, record_of, table_of, read_secret, role_from, action_from, mode_from,
  digits_from,
}
use ephemerkey.Config.Policies.{parse_slot}
use ephemerkey.Config.Zones.{parse_zones}

abbrev pub plain_display : DisplaySpec
plain_display = record {
  mode = DisplayMode.plain;
  dwell_ms = 800;
  reveal_s = 5;
  once = OnceMode.unlimited;
  gap_min_s = 0;
}

abbrev pub once_from : ℕ → OnceMode
once_from v =
    if v == 1 then OnceMode.refuse else if v == 2 then OnceMode.decoy else OnceMode.unlimited

abbrev pub display_field : ℕ → DisplaySpec → List ℕ → Parsed (DisplaySpec × List ℕ)
display_field key s bs =
    if key == 1
    then (uint bs >>= λ (v, bs).
        good (record s { mode = if v == 1 then DisplayMode.scatter else DisplayMode.plain }, bs))
    else if key == 2
    then (uint bs >>= λ (v, bs). good (record s { dwell_ms = u16 v }, bs))
    else if key == 3
    then (uint bs >>= λ (v, bs). good (record s { reveal_s = u16 v }, bs))
    else if key == 4
    then (uint bs >>= λ (v, bs). good (record s { once = once_from v }, bs))
    else if key == 5
    then (uint bs >>= λ (v, bs). good (record s { gap_min_s = u16 v }, bs))
    else skip_field s bs

unfoldable pub parse_display : List ℕ → Parsed (DisplaySpec × List ℕ)
parse_display bs = record_of display_field plain_display bs

-- What `parse_chain` and `parse_confirm` have read.
pub record ChainFields : Type 0 where
  pub secret : List ℕ  -- 32 bytes
  pub secret_len : ℕ
  pub have_secret : Bool
  pub digits : ℕ
  pub mode : ReceiptMode
  pub action : Action
  pub min_elapsed_s : ℕ
  pub max_age_s : ℕ

abbrev pub no_chain : ChainFields
no_chain = record {
  secret = replicate max_secret 0;
  secret_len = 0;
  have_secret = false;
  digits = 6;
  mode = ReceiptMode.sequence;
  action = Action.lock;
  min_elapsed_s = 0;
  max_age_s = 3600;
}

abbrev pub chain_field : ℕ → ChainFields → List ℕ → Parsed (ChainFields × List ℕ)
chain_field key c bs =
    if key == 1
    then (read_secret c.secret bs >>= λ ((s, n), bs).
        good (record c { secret = s; secret_len = n; have_secret = true }, bs))
    else if key == 2
    then (uint bs >>= λ (v, bs). digits_from v >>= λ n. good (record c { digits = n }, bs))
    else if key == 3
    then (uint bs >>= λ (v, bs). mode_from v >>= λ x. good (record c { mode = x }, bs))
    else if key == 4
    then (uint bs >>= λ (v, bs). action_from v >>= λ a. good (record c { action = a }, bs))
    else if key == 5
    then (uint bs >>= λ (v, bs). good (record c { min_elapsed_s = u32 v }, bs))
    else if key == 6
    then (uint bs >>= λ (v, bs). good (record c { max_age_s = u32 v }, bs))
    else skip_field c bs

abbrev pub chain_of : ChainFields → Run Validator → List ℕ → Parsed (ChainSpec × List ℕ)
chain_of c none bs = panics
chain_of c (some v) bs = good (
  record {
    validator = record v { time_window_s = c.max_age_s };
    action = c.action;
    min_elapsed_s = c.min_elapsed_s;
  },
  bs,
)

unfoldable pub parse_chain : List ℕ → Parsed (ChainSpec × List ℕ)
parse_chain bs = record_of chain_field no_chain bs >>= λ (c, bs).
    if c.have_secret
    then chain_of c (new_validator (take c.secret_len c.secret) c.digits c.mode) bs
    else bad ConfigError.bad_field

abbrev pub confirm_field : ℕ → ChainFields → List ℕ → Parsed (ChainFields × List ℕ)
confirm_field key c bs =
    if key == 1 || (key == 2 || key == 3) then chain_field key c bs else skip_field c bs

unfoldable pub parse_confirm : List ℕ → Parsed (ConfirmEntry × List ℕ)
parse_confirm bs = record_of confirm_field no_chain bs >>= λ (c, bs).
    if c.have_secret
    then good (
      record { secret = c.secret; secret_len = c.secret_len; digits = c.digits; mode = c.mode },
      bs,
    )
    else bad ConfigError.bad_field

-- What `parse_key` has read.
pub record KeyFields : Type 0 where
  pub def : KeyDef
  pub have_secret : Bool
  pub display : Option DisplaySpec
  pub chain : Option ChainSpec
  pub gated : Bool

abbrev pub no_key : KeyFields
no_key = record {
  def = record { secret = replicate max_secret 0; secret_len = 0; digits = 6; decoy = none };
  have_secret = false;
  display = none;
  chain = none;
  gated = false;
}

abbrev pub key_field : ℕ → KeyFields → List ℕ → Parsed (KeyFields × List ℕ)
key_field key k bs =
    if key == 1
    then (read_secret k.def.secret bs >>= λ ((s, n), bs).
        good
          (record k { def = record k.def { secret = s; secret_len = n }; have_secret = true }, bs))
    else if key == 2
    then (uint bs >>= λ (v, bs).
        digits_from v >>= λ n. good (record k { def = record k.def { digits = n } }, bs))
    else if key == 3
    then (uint bs >>= λ (v, bs). good (record k { def = record k.def { decoy = some (u8 v) } }, bs))
    else if key == 4
    then (parse_display bs >>= λ (s, bs). good (record k { display = some s }, bs))
    else if key == 5
    then (parse_chain bs >>= λ (c, bs). good (record k { chain = some c }, bs))
    else if key == 7
    then (bool bs >>= λ (b, bs). good (record k { gated = b }, bs))
    else skip_field k bs

abbrev pub is_there : {A : Type 0} → Option A → Bool
is_there none = false
is_there (some a) = true

unfoldable pub parse_key : List ℕ → Parsed (KeyEntry × List ℕ)
parse_key bs = record_of key_field no_key bs >>= λ (k, bs).
    if k.have_secret
    then good (
      record {
        def = k.def;
        display = k.display;
        chain = k.chain;
        is_gen = is_there k.display || is_there k.chain;
        gated = k.gated;
      },
      bs,
    )
    else bad ConfigError.bad_field

abbrev pub calendar_field : ℕ → CalWindow → List ℕ → Parsed (CalWindow × List ℕ)
calendar_field key w bs =
    if key == 1
    then (uint bs >>= λ (v, bs). good (record w { days_mask = u8 v }, bs))
    else if key == 2
    then (uint bs >>= λ (v, bs). good (record w { start_min = u16 v }, bs))
    else if key == 3
    then (uint bs >>= λ (v, bs). good (record w { end_min = u16 v }, bs))
    else skip_field w bs

unfoldable pub parse_calendar : List ℕ → Parsed (CalWindow × List ℕ)
parse_calendar bs =
    record_of calendar_field (record { days_mask = 0; start_min = 0; end_min = 0 }) bs

-- Is the name among the features?
abbrev pub knows : List (List ℕ) → List ℕ → Bool
knows [] name = false
knows (f ∷ known) name = eq_bytes f name || knows known name

-- What `parse` has read, and whether it has read a role.
pub record ModelFields : Type 0 where
  pub model : DeviceModel
  pub have_role : Bool

module _ (is_utf8 : List ℕ → Bool) (known_features : List (List ℕ)) where
  -- The loop of `check_crit`.
  unfoldable pub crit_names : ℕ → List ℕ → Parsed (List ℕ)
  crit_names zero bs = good bs
  crit_names (suc n) bs = lift (Decode.tstr is_utf8 bs) >>= λ (name, bs).
      if knows known_features name then crit_names n bs else bad ConfigError.unsupported

  abbrev pub check_crit : List ℕ → Parsed (List ℕ)
  check_crit bs = lift (Decode.array bs) >>= λ (n, bs). crit_names n bs

  abbrev pub model_field : ℕ → ModelFields → List ℕ → Parsed (ModelFields × List ℕ)
  model_field key m bs =
      if key == 1
      then (uint bs >>= λ (v, bs). role_from v >>= λ r.
          good (record m { model = record m.model { role = r }; have_role = true }, bs))
      else if key == 2
      then (uint bs >>= λ (v, bs).
          good (record m { model = record m.model { staleness_s = u32 v } }, bs))
      else if key == 3
      then (parse_zones bs >>= λ (zs, bs).
          good (record m { model = record m.model { zones = zs } }, bs))
      else if key == 4
      then (table_of max_keys parse_key m.model.keys bs >>= λ (t, bs).
          good (record m { model = record m.model { keys = t } }, bs))
      else if key == 5
      then (table_of max_slots parse_slot m.model.slots bs >>= λ (t, bs).
          good (record m { model = record m.model { slots = t } }, bs))
      else if key == 6
      then (table_of max_calendars parse_calendar m.model.calendars bs >>= λ (t, bs).
          good (record m { model = record m.model { calendars = t } }, bs))
      else if key == 7
      then (parse_confirm bs >>= λ (c, bs).
          good (record m { model = record m.model { confirm = some c } }, bs))
      else if key == 8
      then (check_crit bs >>= λ bs. good (m, bs))
      else if key == 9
      then (uint bs >>= λ (v, bs).
          good (record m { model = record m.model { unlock_window_s = u32 v } }, bs))
      else skip_field m bs

  unfoldable pub parse : List ℕ → Parsed DeviceModel
  parse cbor =
      record_of model_field (record { model = empty; have_role = false }) cbor >>= λ (m, bs).
      if m.have_role then good m.model else bad ConfigError.bad_field

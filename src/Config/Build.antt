-- ===== src/Config/Build.antt =====
-- From a configuration to the engines: `build_lock`, `build_generator` and `build_validator` of
-- firmware/ephemerkey-config/src/lib.rs.
use ephemerkey.Common.{
  ℕ, zero, suc, Option, none, some, Run, ◌>>=◌, ltb, if◌then◌else◌, List, take, update,
}
use ephemerkey.Policy.{max_keys}
use ephemerkey.Receipt.{Receipts, new_receipts}
use ephemerkey.Receipt.Check.{Validator, new_validator}
use ephemerkey.Engine.{KeyDef, LockEngine, new}
use ephemerkey.Reveal.{DisplaySpec, Generator, new_generator, set_gated}
use ephemerkey.Config.{KeyEntry, ConfirmEntry, DeviceModel}
use ephemerkey.Config.Parse.{plain_display}

abbrev pub def_of : Option KeyEntry → Option KeyDef
def_of none = none
def_of (some k) = some k.def

abbrev pub confirm_secret : ConfirmEntry → List ℕ
confirm_secret c = take c.secret_len c.secret

abbrev pub with_receipts : LockEngine → Run Receipts → Run LockEngine
with_receipts lock none = none
with_receipts lock (some r) = some (record lock { receipts = some r })

abbrev pub add_receipts : LockEngine → Option ConfirmEntry → Run LockEngine
add_receipts lock none = some lock
add_receipts lock (some c) = with_receipts lock (new_receipts (confirm_secret c) c.digits c.mode)

unfoldable pub build_lock : DeviceModel → Run LockEngine
build_lock m =
    add_receipts (record new { keys = λ i. def_of (m.keys i); slots = m.slots }) m.confirm

abbrev pub build_ritual : DeviceModel → Run LockEngine
build_ritual m = build_lock m

-- `m.keys.get(di)`.
abbrev pub decoy_of : DeviceModel → Option ℕ → Option KeyDef
decoy_of m none = none
decoy_of m (some di) = if ltb di max_keys then def_of (m.keys di) else none

abbrev pub or_plain : Option DisplaySpec → DisplaySpec
or_plain none = plain_display
or_plain (some s) = s

abbrev pub add_key : DeviceModel → ℕ → Option KeyEntry → Generator → Generator
add_key m i none g = g
add_key m i (some k) g =
    if k.is_gen
    then set_gated
        (record g {
          keys = update g.keys i (
              some (record {
                key = k.def;
                decoy = decoy_of m k.def.decoy;
                display = or_plain k.display;
                chain = k.chain;
              }));
        })
        i k.gated
    else g

-- The loop over the key table: the keys below `n`.
unfoldable pub add_keys : DeviceModel → ℕ → Generator → Generator
add_keys m zero g = g
add_keys m (suc n) g = add_key m n (m.keys n) (add_keys m n g)

abbrev pub build_generator : DeviceModel → Generator
build_generator m = add_keys m max_keys new_generator

abbrev pub validator_for : Option ConfirmEntry → Run (Option Validator)
validator_for none = some none
validator_for (some c) = new_validator (confirm_secret c) c.digits c.mode >>= λ v. some (some v)

unfoldable pub build_validator : DeviceModel → Run (Option Validator)
build_validator m = validator_for m.confirm

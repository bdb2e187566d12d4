-- ===== src/Config.antt =====
-- The device configuration: firmware/ephemerkey-config/src/lib.rs, and the zones of
-- firmware/ephemerkey-envelope/src/config.rs. The check of a text for UTF-8 (core::str) is a parameter.
pub mod Fields
pub mod Policies
pub mod Zones
pub mod Geofence
pub mod Parse
pub mod Build
pub mod Safely
pub mod Tables
pub mod Keys
pub mod Accepted
pub mod Ready
pub mod Fence
pub mod Crit
mod Tests
use ephemerkey.Common.{
  ℕ, zero, suc, ◌+◌, ◌-◌, ◌*◌, ◌/◌, ◌%◌, ◌^◌, Bool, true, false, Option, none, some, ltb, leb, ◌==◌,
  ◌&&◌, bit_and, if◌then◌else◌, u8, u16, u32, List, [], ◌∷◌, length,
}
use ephemerkey.Cbor.{ℤ}
use ephemerkey.Cbor
use ephemerkey.Policy.{Slot}
use ephemerkey.Receipt.{ReceiptMode}
use ephemerkey.Engine.{KeyDef}
use ephemerkey.Reveal.{DisplaySpec, ChainSpec}

pub data ConfigError : Type 0 where
  malformed bad_field too_long unsupported : ConfigError

-- A parser's result; `panics` is an index or a slice out of range.
pub data Parsed (A : Type 0) : Type 0 where
  good : A → Parsed A
  bad : ConfigError → Parsed A
  panics : Parsed A

infixl 5 ◌>>=◌
abbrev pub ◌>>=◌ : {A B : Type 0} → Parsed A → (A → Parsed B) → Parsed B
good a >>= k = k a
bad e >>= k = bad e
panics >>= k = panics

-- `From<ephemerkey_envelope::Error>`.
abbrev pub lift : {A : Type 0} → Cbor.Result A → Parsed A
lift (Cbor.ok a) = good a
lift (Cbor.err e) = bad ConfigError.malformed

abbrev pub default_unlock_window_s : ℕ
default_unlock_window_s = 30

abbrev pub default_staleness_s : ℕ
default_staleness_s = 90

abbrev pub max_calendars : ℕ
max_calendars = 8

abbrev pub max_zones : ℕ
max_zones = 8

abbrev pub max_radius_m : ℕ
max_radius_m = 1000000

pub record CalWindow : Type 0 where
  pub days_mask : ℕ  -- u8
  pub start_min : ℕ  -- u16
  pub end_min : ℕ  -- u16

unfoldable pub open_at : CalWindow → ℕ → Bool
open_at w now_unix =
    let weekday = (now_unix / 86400 % 7 + 4) % 7 in
    let minute = u16 (now_unix % 86400 / 60) in
    if bit_and w.days_mask (u8 (2 ^ weekday)) == 0
    then false
    else leb w.start_min minute && ltb minute w.end_min

-- `Calendars::open`, over the eight windows by their index.
abbrev pub window_open : Option CalWindow → ℕ → Bool
window_open none now_unix = false
window_open (some w) now_unix = open_at w now_unix

unfoldable pub calendar_open : (ℕ → Option CalWindow) → ℕ → ℕ → Bool
calendar_open wins window now_unix =
    if ltb window max_calendars then window_open (wins window) now_unix else false

pub data Role : Type 0 where
  generator lock_controller : Role

pub record Zone : Type 0 where
  pub lat_e7 : ℤ  -- i32
  pub lon_e7 : ℤ
  pub radius_m : ℕ  -- u32

pub record KeyEntry : Type 0 where
  pub def : KeyDef
  pub display : Option DisplaySpec
  pub chain : Option ChainSpec
  pub is_gen : Bool
  pub gated : Bool

pub record ConfirmEntry : Type 0 where
  pub secret : List ℕ  -- 32 bytes
  pub secret_len : ℕ  -- u8
  pub digits : ℕ  -- u8
  pub mode : ReceiptMode

-- The tables are functions of the index; `zones` is the part of its array in use.
pub record DeviceModel : Type 0 where
  pub role : Role
  pub staleness_s : ℕ  -- u32
  pub unlock_window_s : ℕ  -- u32
  pub zones : List Zone
  pub keys : ℕ → Option KeyEntry
  pub slots : ℕ → Option Slot
  pub calendars : ℕ → Option CalWindow
  pub confirm : Option ConfirmEntry

abbrev pub empty : DeviceModel
empty = record {
  role = Role.generator;
  staleness_s = default_staleness_s;
  unlock_window_s = default_unlock_window_s;
  zones = [];
  keys = λ _. none;
  slots = λ _. none;
  calendars = λ _. none;
  confirm = none;
}

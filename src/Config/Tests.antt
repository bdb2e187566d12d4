-- ===== src/Config/Tests.antt =====
-- Configurations that are parsed and built.
use mathlib.Core.Path.{subst}
use ephemerkey.Common.{
  ℕ, ◌*◌, ◌≡◌, inl, inr, refl, true, Option, none, some, List, [], ◌∷◌, ◌==◌, All, arith,
  Bool-cases, replicate,
}
use ephemerkey.Cbor.{pos}
use ephemerkey.Cbor.Decode
use ephemerkey.Policy.{Slot, all_gates_open, block, delay_window}
use ephemerkey.Slots
use ephemerkey.Totp
use ephemerkey.Totp.{hotp}
use ephemerkey.Receipt.{secret_slice, mint, msg}
use ephemerkey.Engine.{LockEngine, new, candidates, policy_candidates, numbered, each, enqueue}
use ephemerkey.Engine.Search.{search, match_key}
use ephemerkey.Engine.Clock.{
  for_each, minted, mint_receipt, owe_relock, tick_state, fire_armed, tick_at, tick_slot, tick,
  owed_reset, reset_slot,
}
use ephemerkey.Engine.Enter.{
  code_matches, entered_matches, veto_slot, fire, conclude, accept, matched, punish, try_decoy,
  searched, try_key, try_candidate, enter_slot, reset_if, reset_invalid, no_match, after_tick,
  enter_code_with,
}
use ephemerkey.Engine.Frame.{Configured, InTable}
use ephemerkey.Config.{
  Parsed, good, bad, panics, lift, ◌>>=◌, ConfigError, DeviceModel, KeyEntry, Zone, empty,
}
use ephemerkey.Config.Fields.{fields, entries, read_secret}
use ephemerkey.Config.Policies.{parse_slot, parse_policy}
use ephemerkey.Config.Parse.{parse, parse_key, check_crit, crit_names}
use ephemerkey.Config.Build.{build_lock}
use ephemerkey.Config.Geofence.{contains}
use ephemerkey.Config.Safely.{Safely}
use ephemerkey.Config.Accepted.{ModelFits, parse-ModelFits}
use ephemerkey.Config.Ready.{IndicesIn, SlotIn, parse-Configured}
use ephemerkey.Config.Fence.{within, north_mm, east_mm, contains_fits}
use ephemerkey.Config.Crit.{Among, read_names, check_crit_sound}

-- A lock with one key and one slot.
abbrev door : List ℕ
door =
    0xa3 ∷ 0x01 ∷ 0x02 ∷ 0x04 ∷ 0x81 ∷ 0xa1 ∷ 0x01 ∷ 0x41 ∷ 0x07 ∷ 0x05 ∷ 0x81 ∷ 0xa2 ∷ 0x01 ∷ 0x00
    ∷ 0x03 ∷ 0xa1 ∷ 0x01 ∷ 0x00 ∷ []

abbrev parsed : List ℕ → Parsed DeviceModel
parsed cbor = parse (λ s. true) [] cbor

abbrev model_of : Parsed DeviceModel → DeviceModel
model_of (good m) = m
model_of (bad e) = empty
model_of panics = empty

abbrev door_model : DeviceModel
door_model = model_of (parsed door)

door_parsed : parsed door ≡ good door_model
unfolding parse fields entries read_secret parse_key parse_slot parse_policy Decode.head Decode.byte
    Decode.take_bytes
door_parsed = refl

parse-ModelFits_example : Safely ModelFits (parse (λ s. true) [] door)
parse-ModelFits_example = parse-ModelFits (λ s. true) [] door

abbrev EachSlot : Option Slot → Type 0
EachSlot none = Unit {0}
EachSlot (some s) = SlotIn s

abbrev EachKey : Option KeyEntry → Type 0
EachKey none = Unit {0}
EachKey (some k) = InTable k.def.decoy

door_IndicesIn : IndicesIn door_model
unfolding parse fields entries read_secret parse_key parse_slot parse_policy Decode.head Decode.byte
    Decode.take_bytes
door_IndicesIn = record {
  decoys_in = λ i k at. elim (Bool-cases (i == 0)) [
    | inl here ↦ let at' = rw here at at in subst EachKey at' tt
    | inr other ↦ absurd (let e = rw other at at in cc)
  ];
  slots_in = λ i s at. elim (Bool-cases (i == 0)) [
    | inl here ↦ let at' = rw here at at in subst EachSlot at' (omega arith, tt, tt)
    | inr other ↦ absurd (let e = rw other at at in cc)
  ];
}

parse-Configured_example : (e : LockEngine) × (build_lock door_model ≡ some e) × Configured e
parse-Configured_example =
    parse-Configured (λ s. true) [] door door_model door_parsed door_IndicesIn

-- The first slot of a lock that names key 9 is accepted with it.
abbrev lost_key : List ℕ
lost_key = 0xa2 ∷ 0x01 ∷ 0x02 ∷ 0x05 ∷ 0x81 ∷ 0xa2 ∷ 0x01 ∷ 0x09 ∷ 0x03 ∷ 0xa1 ∷ 0x01 ∷ 0x00 ∷ []

abbrev key_of : Option Slot → ℕ
key_of none = 0
key_of (some s) = s.key

lost_key_accepted : key_of ((model_of (parsed lost_key)).slots 0) ≡ 9
unfolding parse fields entries parse_slot parse_policy Decode.head Decode.byte Decode.take_bytes
lost_key_accepted = refl

abbrev lost_lock : LockEngine
lost_lock = record new { keys = λ i. none; slots = (model_of (parsed lost_key)).slots }

lost_lock_built : build_lock (model_of (parsed lost_key)) ≡ some lost_lock
unfolding build_lock parse fields entries parse_slot parse_policy Decode.head Decode.byte
    Decode.take_bytes
lost_lock_built = refl

-- The first code that is entered there reads the key table behind its end.
lost_key_panics :
    enter_code_with (λ k m. replicate 20 0) (replicate 6 48) 3000 all_gates_open lost_lock ≡ none
unfolding parse fields entries parse_slot parse_policy Decode.head Decode.byte Decode.take_bytes
    enter_code_with after_tick code_matches entered_matches veto_slot fire conclude accept matched
    punish try_decoy searched try_key try_candidate enter_slot reset_if reset_invalid no_match
    for_each minted mint_receipt owe_relock tick_state fire_armed tick_at tick_slot tick owed_reset
    reset_slot search match_key each candidates policy_candidates numbered enqueue hotp secret_slice
    mint msg block delay_window Slots.on_code Slots.tick Totp.parse
lost_key_panics = refl

abbrev yard : Zone
yard = record { lat_e7 = pos 520000000; lon_e7 = pos 130000000; radius_m = 50 }

contains_fits_example :
    contains yard (pos 520001000) (pos 130001000)
    ≡ some (within (north_mm yard (pos 520001000)) (east_mm yard (pos 130001000)) (50 * 1000))
contains_fits_example =
    contains_fits yard (pos 520001000) (pos 130001000) (omega arith, omega arith, omega arith)
      (omega arith) (omega arith)

-- "veto".
abbrev veto : List ℕ
veto = 118 ∷ 101 ∷ 116 ∷ 111 ∷ []

abbrev veto_list : List ℕ
veto_list = 0x81 ∷ 0x64 ∷ veto

veto_accepted : check_crit (λ s. true) (veto ∷ []) veto_list ≡ good []
unfolding crit_names Decode.head Decode.byte Decode.take_bytes
veto_accepted = refl

veto_unknown : check_crit (λ s. true) [] veto_list ≡ bad ConfigError.unsupported
unfolding crit_names Decode.head Decode.byte Decode.take_bytes
veto_unknown = refl

check_crit_sound_example :
    (names : List (List ℕ)) × ((lift (Decode.array veto_list) >>= λ (n, bs).
    read_names (λ s. true) n bs)
      ≡ good (names, []))
    × All (Among (veto ∷ [])) names
check_crit_sound_example = check_crit_sound (λ s. true) (veto ∷ []) veto_list [] veto_accepted

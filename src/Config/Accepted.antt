-- ===== src/Config/Accepted.antt =====
-- The parser never panics, and every configuration that it accepts fits the device's tables
-- (firmware/ephemerkey-config/src/lib.rs, firmware/ephemerkey-envelope/src/config.rs).
use ephemerkey.Common.{
  ℕ, zero, suc, ◌<◌, ◌≤◌, ◌≡◌, refl, Bool, true, false, Option, none, some, ◌==◌, if◌then◌else◌,
  List, [], ◌∷◌, ◌++◌, length, arith, ltb, length-append, All, u32,
}
use ephemerkey.Cbor.{ℤ, pos, negsuc}
use ephemerkey.Cbor.Decode
use ephemerkey.Config.{ConfirmEntry, DeviceModel, empty, Zone, max_zones}
use ephemerkey.Config.Fields.{role_from}
use ephemerkey.Config.Policies.{parse_slot}
use ephemerkey.Config.Zones.{parse_zone, read_zones, parse_zones, clamp_i32}
use ephemerkey.Config.Parse.{
  parse_key, parse_calendar, knows, ModelFields, crit_names, check_crit, model_field, parse,
}
use ephemerkey.Config.Safely.{
  Safely, Safely-then, lift_then, Read, if-Safely, skip_field-Safely, record_of-Safely, Tabled,
  table_of-Safely, number_field, Any, role_from-Safely,
}
use ephemerkey.Config.Keys.{
  ConfirmFits, EntryFits, parse_confirm-Safely, parse_key-Safely, parse_calendar-Safely,
}
use ephemerkey.Config.Tables.{SlotFits, parse_slot-Safely, skip_items-Safely}

-- A coordinate in an i32, and a zone in the bounds of the geofence.
abbrev pub IsI32 : ℤ → Type 0
IsI32 (pos v) = v ≤ 2147483647
IsI32 (negsuc v) = v ≤ 2147483647

abbrev pub ZoneFits : Zone → Type 0
ZoneFits z = IsI32 z.lat_e7 × IsI32 z.lon_e7 × (z.radius_m ≤ 1000000)

clamp_i32-IsI32 : (v : ℤ) → IsI32 (clamp_i32 v)
clamp_i32-IsI32 (pos v) = omega arith
clamp_i32-IsI32 (negsuc v) = omega arith

parse_zone-Safely : (bs : List ℕ) → Safely (Read ZoneFits) (parse_zone bs)
unfolding parse_zone
parse_zone-Safely bs = lift_then (Read ZoneFits) (Decode.array bs) _ (λ (n, bs).
    if-Safely (Read ZoneFits) (ltb n 3) _ _ tt (
      lift_then (Read ZoneFits) (Decode.int bs) _ (λ (lat, bs).
        lift_then (Read ZoneFits) (Decode.int bs) _ (λ (lon, bs).
          lift_then (Read ZoneFits) (Decode.uint bs) _ (λ (radius, bs).
            skip_items-Safely ZoneFits _ _ bs
              (clamp_i32-IsI32 lat, clamp_i32-IsI32 lon, omega arith))))))

abbrev pub ZonesFit : List Zone → Type 0
ZonesFit zs = (length zs ≤ 8) × All ZoneFits zs

All-snoc : (zs : List Zone) (z : Zone) → All ZoneFits zs → ZoneFits z → All ZoneFits (zs ++ z ∷ [])
All-snoc [] z h fits = (fits, tt)
All-snoc (y ∷ zs) z (hy, h) fits = (hy, All-snoc zs z h fits)

add_zone-ZonesFit :
    (zs : List Zone) (z : Zone) (test : Bool)
    → ltb (length zs) max_zones ≡ test
    → ZonesFit zs
    → ZoneFits z
    → ZonesFit (if test then zs ++ z ∷ [] else zs)
add_zone-ZonesFit zs z false h fit fits = fit
add_zone-ZonesFit zs z true h (few, all) fits =
    let l = length-append zs (z ∷ []) in
    let room : length zs < 8 = ground (arith, h) in (omega arith, All-snoc zs z all fits)

read_zones-Safely :
    (n : ℕ) (zs : List Zone) (bs : List ℕ)
    → ZonesFit zs
    → Safely (Read ZonesFit) (read_zones n zs bs)
unfolding read_zones
read_zones-Safely zero zs bs h = h
read_zones-Safely (suc n) zs bs h =
    Safely-then (Read ZoneFits) (Read ZonesFit) (parse_zone bs) _ (parse_zone-Safely bs)
      (λ (z, bs) fits.
        read_zones-Safely n (if ltb (length zs) max_zones then zs ++ z ∷ [] else zs) bs
          (add_zone-ZonesFit zs z (ltb (length zs) max_zones) refl h fits))

abbrev pub ConfirmedFits : Option ConfirmEntry → Type 0
ConfirmedFits none = Unit {0}
ConfirmedFits (some c) = ConfirmFits c

-- A configuration that fits the tables of the device: secrets of at most 32 bytes in buffers of 32,
-- codes of 4 to 10 digits, leg keys and quorum keys in arrays of four with counts of at most four, keys,
-- slots and calendar windows at the indices below 8, and at most eight zones, in the bounds of the geofence.
abbrev pub ModelFits : DeviceModel → Type 0
ModelFits m =
    ZonesFit m.zones
    × Tabled 8 EntryFits m.keys
    × Tabled 8 SlotFits m.slots
    × Tabled 8 Any m.calendars
    × ConfirmedFits m.confirm

abbrev FieldsFit : ModelFields → Type 0
FieldsFit m = ModelFits m.model

module _ (is_utf8 : List ℕ → Bool) (known_features : List (List ℕ)) where
  crit_names-Safely : (n : ℕ) (bs : List ℕ) → Safely Any (crit_names is_utf8 known_features n bs)
  unfolding crit_names
  crit_names-Safely zero bs = tt
  crit_names-Safely (suc n) bs =
      lift_then Any (Decode.tstr is_utf8 bs) _
        (λ (name, bs). if-Safely Any (knows known_features name) _ _ (crit_names-Safely n bs) tt)

  model_field-Safely :
      (key : ℕ) (m : ModelFields) (bs : List ℕ)
      → FieldsFit m
      → Safely (Read FieldsFit) (model_field is_utf8 known_features key m bs)
  model_field-Safely key m bs (zs, ks, ss, cs, c) =
      if-Safely (Read FieldsFit) (key == 1) _ _
        (lift_then (Read FieldsFit) (Decode.uint bs) _ (λ (v, bs).
          Safely-then Any (Read FieldsFit) (role_from v) _ (role_from-Safely v)
            (λ r t. (zs, ks, ss, cs, c))))
        (number_field FieldsFit (key == 2)
          (λ v. record m { model = record m.model { staleness_s = u32 v } }) bs _
          (λ v. (zs, ks, ss, cs, c))
          (if-Safely (Read FieldsFit) (key == 3) _ _
            (Safely-then (Read ZonesFit) (Read FieldsFit) (parse_zones bs) _
              (lift_then (Read ZonesFit) (Decode.array bs) _
                (λ (n, bs). read_zones-Safely n [] bs (omega arith, tt)))
              (λ (t, bs) fits. (fits, ks, ss, cs, c)))
            (if-Safely (Read FieldsFit) (key == 4) _ _
              (Safely-then (Read (Tabled 8 EntryFits)) (Read FieldsFit) _ _
                (table_of-Safely 8 EntryFits parse_key parse_key-Safely m.model.keys bs ks)
                (λ (t, bs) fits. (zs, fits, ss, cs, c)))
              (if-Safely (Read FieldsFit) (key == 5) _ _
                (Safely-then (Read (Tabled 8 SlotFits)) (Read FieldsFit) _ _
                  (table_of-Safely 8 SlotFits parse_slot parse_slot-Safely m.model.slots bs ss)
                  (λ (t, bs) fits. (zs, ks, fits, cs, c)))
                (if-Safely (Read FieldsFit) (key == 6) _ _
                  (Safely-then (Read (Tabled 8 Any)) (Read FieldsFit) _ _
                    (table_of-Safely 8 Any parse_calendar parse_calendar-Safely m.model.calendars bs
                      cs)
                    (λ (t, bs) fits. (zs, ks, ss, fits, c)))
                  (if-Safely (Read FieldsFit) (key == 7) _ _
                    (Safely-then (Read ConfirmFits) (Read FieldsFit) _ _ (parse_confirm-Safely bs)
                      (λ (t, bs) fits. (zs, ks, ss, cs, fits)))
                    (if-Safely (Read FieldsFit) (key == 8) _ _
                      (Safely-then Any (Read FieldsFit) (check_crit is_utf8 known_features bs) _
                        (lift_then Any (Decode.array bs) _ (λ (n, bs). crit_names-Safely n bs))
                        (λ bs t. (zs, ks, ss, cs, c)))
                      (number_field FieldsFit (key == 9)
                        (λ v. record m { model = record m.model { unlock_window_s = u32 v } }) bs _
                        (λ v. (zs, ks, ss, cs, c))
                        (skip_field-Safely FieldsFit m bs (zs, ks, ss, cs, c))))))))))

  -- Whatever bytes it is given, the parser does not panic, and a configuration that it accepts fits the
  -- tables of the device.
  pub parse-ModelFits : (cbor : List ℕ) → Safely ModelFits (parse is_utf8 known_features cbor)
  unfolding parse
  parse-ModelFits cbor =
      Safely-then (Read FieldsFit) ModelFits _ _
        (record_of-Safely FieldsFit (model_field is_utf8 known_features) model_field-Safely
          (record { model = empty; have_role = false }) cbor
          (
            (omega arith, tt),
            (λ i a e. absurd (cc)),
            (λ i a e. absurd (cc)),
            (λ i a e. absurd (cc)),
            tt,
          ))
        (λ (m, bs) h. if-Safely ModelFits m.have_role _ _ h tt)

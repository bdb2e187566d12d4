-- ===== src/Config/Zones.antt =====
-- The zones of a configuration: `parse_zone` of firmware/ephemerkey-envelope/src/config.rs and
-- `parse_zones` of firmware/ephemerkey-config/src/lib.rs.
use ephemerkey.Common.{ℕ, zero, suc, ◌-◌, min, ltb, if◌then◌else◌, u32, List, [], ◌∷◌, length, ◌++◌}
use ephemerkey.Cbor.{ℤ, pos, negsuc}
use ephemerkey.Cbor.Decode
use ephemerkey.Config.{ConfigError, Parsed, good, bad, ◌>>=◌, lift, Zone, max_zones, max_radius_m}
use ephemerkey.Config.Fields.{uint}
use ephemerkey.Config.Policies.{skip_items}

abbrev pub clamp_i32 : ℤ → ℤ
clamp_i32 (pos v) = pos (min v 2147483647)
clamp_i32 (negsuc v) = negsuc (min v 2147483647)

unfoldable pub parse_zone : List ℕ → Parsed (Zone × List ℕ)
parse_zone bs = lift (Decode.array bs) >>= λ (n, bs).
    if ltb n 3
    then bad ConfigError.malformed
    else (lift (Decode.int bs) >>= λ (lat, bs). lift (Decode.int bs) >>= λ (lon, bs).
        uint bs >>= λ (radius, bs).
        skip_items (n - 3)
          (record {
            lat_e7 = clamp_i32 lat;
            lon_e7 = clamp_i32 lon;
            radius_m = min (u32 radius) max_radius_m;
          })
          bs)

-- The loop of `parse_zones`: zones beyond the table are read and dropped.
unfoldable pub read_zones : ℕ → List Zone → List ℕ → Parsed (List Zone × List ℕ)
read_zones zero zones bs = good (zones, bs)
read_zones (suc n) zones bs = parse_zone bs >>= λ (zone, bs).
    read_zones n (if ltb (length zones) max_zones then zones ++ zone ∷ [] else zones) bs

abbrev pub parse_zones : List ℕ → Parsed (List Zone × List ℕ)
parse_zones bs = lift (Decode.array bs) >>= λ (n, bs). read_zones n [] bs

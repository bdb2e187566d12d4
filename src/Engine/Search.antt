-- ===== src/Engine/Search.antt =====
-- engine.rs, `match_key`: the search of a delay window for the counter that an entered code matches.
use ephemerkey.Common.{
  ℕ, zero, suc, ◌-◌, ◌/◌, Option, none, some, List, ◌==◌, if◌then◌else◌, not, u32, sub32, Run,
  ◌>>=◌,
}
use ephemerkey.Policy.{period_s}
use ephemerkey.Totp.{Code, code_eq, hotp}
use ephemerkey.Receipt.{secret_slice}
use ephemerkey.Engine.{KeyDef}

module _ (hmac : List ℕ → List ℕ → List ℕ) where
  -- The loop, from counter `c` down to `lo`; `none` when the fuel is used up.
  unfoldable pub search : ℕ → List ℕ → Code → ℕ → ℕ → ℕ → Run (Option ℕ)
  search zero secret code digits c lo = none
  search (suc fuel) secret code digits c lo =
      let rest = search fuel secret code digits (sub32 c 1) lo in
      hotp hmac secret c digits >>= λ h.
      if code_eq h code then some (some c) else if c == lo then some none else rest

  -- One round for each counter of the window is enough fuel.
  unfoldable pub match_key : KeyDef → Code → ℕ → ℕ × ℕ → Run (Option ℕ)
  match_key key code now (near, far) =
      let hi = u32 ((now - near) / period_s) in
      let lo = u32 ((now - far) / period_s) in
      if not (code.digits == key.digits)
      then some none
      else (secret_slice key.secret key.secret_len >>= λ secret.
          search (suc (sub32 hi lo)) secret code key.digits hi lo)

-- ===== src/Receipt/Check.antt =====
-- receipt.rs, `Validator`: the remote side, which checks a relayed receipt or a code alone.
-- `drift_s` is an i32 in two's complement.
use ephemerkey.Common.{
  ℕ, zero, suc, ◌+◌, ◌-◌, ◌*◌, ◌/◌, Bool, true, false, not, Option, none, some, List, ltb, ◌==◌,
  if◌then◌else◌, u8, u32, sub32, min, length, Run, ◌>>=◌,
}
use ephemerkey.Policy.{Action, period_s}
use ephemerkey.Totp.{Code, code_eq, hotp}
use ephemerkey.Receipt.{
  Receipt, ReceiptMode, has_seq, has_time, kind_seq, kind_time, msg, secret_buffer, secret_slice,
}

pub data ReceiptCheck : Type 0 where
  valid : ℕ → ℕ → ReceiptCheck  -- skipped, drift_s
  bad_code replay too_far_ahead out_of_window mode_mismatch : ReceiptCheck

pub record Validator : Type 0 where
  pub secret : List ℕ
  pub secret_len : ℕ  -- u8
  pub digits : ℕ  -- u8
  pub mode : ReceiptMode
  pub expected_seq : ℕ  -- u32
  pub look_ahead : ℕ  -- u32
  pub time_window_s : ℕ  -- u32

unfoldable pub new_validator : List ℕ → ℕ → ReceiptMode → Run Validator
new_validator secret digits mode = secret_buffer secret >>= λ s. some (record {
  secret = s;
  secret_len = u8 (length secret);
  digits = digits;
  mode = mode;
  expected_seq = 0;
  look_ahead = 16;
  time_window_s = 3600;
})

-- `Result<_, ReceiptCheck>`, of a u32 or an i32.
pub data Proof : Type 0 where
  ok : ℕ → Proof
  err : ReceiptCheck → Proof

-- `expected_seq.saturating_add(look_ahead)`.
abbrev pub seq_end : Validator → ℕ
seq_end v = min (v.expected_seq + v.look_ahead) 4294967295

module _ (hmac : List ℕ → List ℕ → List ℕ) where
  unfoldable pub check_seq : Validator → Action → ℕ → Code → Run Proof
  check_seq v action seq code =
      if ltb seq v.expected_seq
      then some (err ReceiptCheck.replay)
      else if not (ltb seq (seq_end v))
      then some (err ReceiptCheck.too_far_ahead)
      else (secret_slice v.secret v.secret_len >>= λ k.
          hotp hmac k (msg kind_seq action seq) v.digits >>= λ h.
          some (if code_eq h code then ok (seq - v.expected_seq) else err ReceiptCheck.bad_code))

  -- The loop of `check_time`, from counter `c` down to `lo`; `none` when the fuel is used up.
  unfoldable pub search_time : ℕ → List ℕ → ℕ → Action → Code → ℕ → ℕ → ℕ → Run Proof
  search_time zero secret digits action code now_s c lo = none
  search_time (suc fuel) secret digits action code now_s c lo =
      let rest = search_time fuel secret digits action code now_s (sub32 c 1) lo in
      hotp hmac secret (msg kind_time action c) digits >>= λ h.
      if code_eq h code
      then some (ok (sub32 (c * period_s) now_s))
      else if c == lo
      then some (err ReceiptCheck.out_of_window)
      else rest

  unfoldable pub check_time : Validator → Action → Code → ℕ → Run Proof
  check_time v action code now_s =
      let hi = u32 (now_s + period_s) / period_s in
      let lo = (now_s - v.time_window_s) / period_s in
      secret_slice v.secret v.secret_len >>= λ k.
      search_time (suc (sub32 hi lo)) k v.digits action code now_s hi lo

  abbrev pub seq_proof : Validator → Receipt → Bool → Option Code → Run Proof
  seq_proof v r false c = some (ok 0)
  seq_proof v r true none = some (err ReceiptCheck.mode_mismatch)
  seq_proof v r true (some code) = check_seq v r.action r.seq code

  abbrev pub time_proof : Validator → Receipt → ℕ → Bool → Option Code → Run Proof
  time_proof v r now_s false c = some (ok 0)
  time_proof v r now_s true none = some (err ReceiptCheck.mode_mismatch)
  time_proof v r now_s true (some code) = check_time v r.action code now_s

  abbrev pub commit : Validator → Receipt → Validator
  commit v r = if has_seq v.mode then record v { expected_seq = u32 (r.seq + 1) } else v

  abbrev pub after_time : Validator → Receipt → ℕ → Proof → Run (Validator × ReceiptCheck)
  after_time v r skipped (err e) = some (v, e)
  after_time v r skipped (ok drift_s) = some (commit v r, ReceiptCheck.valid skipped drift_s)

  abbrev pub after_seq : Validator → Receipt → ℕ → Proof → Run (Validator × ReceiptCheck)
  after_seq v r now_s (err e) = some (v, e)
  after_seq v r now_s (ok skipped) =
      time_proof v r now_s (has_time v.mode) r.time_code >>= after_time v r skipped

  unfoldable pub verify : Validator → Receipt → ℕ → Run (Validator × ReceiptCheck)
  verify v r now_s = seq_proof v r (has_seq v.mode) r.seq_code >>= after_seq v r now_s

  -- The loop of `verify_code`, with as many rounds as there are counters before the end.
  unfoldable pub search_seq : ℕ → Validator → Action → Code → ℕ → Run (Validator × ReceiptCheck)
  search_seq zero v action code seq = some (v, ReceiptCheck.bad_code)
  search_seq (suc rounds) v action code seq =
      let rest = search_seq rounds v action code (seq + 1) in
      secret_slice v.secret v.secret_len >>= λ k.
      hotp hmac k (msg kind_seq action seq) v.digits >>= λ h.
      if code_eq h code
      then some
          (record v { expected_seq = u32 (seq + 1) }, ReceiptCheck.valid (seq - v.expected_seq) 0)
      else rest

  abbrev pub after_code : Validator → Proof → Run (Validator × ReceiptCheck)
  after_code v (ok drift_s) = some (v, ReceiptCheck.valid 0 drift_s)
  after_code v (err e) = some (v, e)

  unfoldable pub verify_code : Validator → Action → Code → ℕ → Run (Validator × ReceiptCheck)
  verify_code v action code now_s =
      if has_seq v.mode
      then search_seq (seq_end v - v.expected_seq) v action code v.expected_seq
      else (check_time v action code now_s >>= after_code v)

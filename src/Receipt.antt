-- ===== src/Receipt.antt =====
-- Confirm codes, by which the lock talks back: firmware/ephemerkey-core/src/receipt.rs. The
-- functions that mint or check a code take HMAC-SHA1 as the parameter `hmac` (see Totp).
pub mod Check
pub mod Relay
pub mod Delivery
mod Tests
use ephemerkey.Common.{
  ℕ, ◌+◌, ◌-◌, ◌*◌, ◌/◌, ◌^◌, Bool, true, false, Option, none, some, List, leb, if◌then◌else◌, u8,
  u32, u64, length, take, replicate, ◌++◌, Run, ◌>>=◌, bit_or,
}
use ephemerkey.Policy.{Action, period_s}
use ephemerkey.Totp.{Code, hotp}

abbrev pub max_secret : ℕ
max_secret = 32

pub data ReceiptMode : Type 0 where
  sequence time both : ReceiptMode

abbrev pub has_seq : ReceiptMode → Bool
has_seq ReceiptMode.sequence = true
has_seq ReceiptMode.time = false
has_seq ReceiptMode.both = true

abbrev pub has_time : ReceiptMode → Bool
has_time ReceiptMode.sequence = false
has_time ReceiptMode.time = true
has_time ReceiptMode.both = true

abbrev pub kind_seq : ℕ
kind_seq = 0x51

abbrev pub kind_time : ℕ
kind_time = 0x54

-- `action as u8`.
abbrev pub action_byte : Action → ℕ
action_byte Action.unlock = 0
action_byte Action.lock = 1
action_byte Action.duress_unlock = 2

unfoldable pub msg : ℕ → Action → ℕ → ℕ
msg kind action counter =
    bit_or (bit_or (u64 (kind * 2 ^ 56)) (u64 (action_byte action * 2 ^ 48))) counter

-- A fixed buffer of `max_secret` bytes; `none` where the secret does not fit.
unfoldable pub secret_buffer : List ℕ → Run (List ℕ)
secret_buffer secret =
    if leb (length secret) max_secret
    then some (secret ++ replicate (max_secret - length secret) 0)
    else none

-- The slice of the bytes in use; `none` where it is longer than the buffer.
unfoldable pub secret_slice : List ℕ → ℕ → Run (List ℕ)
secret_slice buffer len = if leb len max_secret then some (take len buffer) else none

pub record Receipt : Type 0 where
  pub action : Action
  pub seq : ℕ  -- u32
  pub time_s : ℕ  -- u32
  pub seq_code : Option Code
  pub time_code : Option Code

pub record Receipts : Type 0 where
  pub secret : List ℕ
  pub secret_len : ℕ  -- u8
  pub digits : ℕ  -- u8
  pub mode : ReceiptMode
  pub next_seq : ℕ  -- u32

unfoldable pub new_receipts : List ℕ → ℕ → ReceiptMode → Run Receipts
unfolding secret_buffer
new_receipts secret digits mode = do
  s ← secret_buffer secret
  some (record {
    secret = s;
    secret_len = u8 (length secret);
    digits = digits;
    mode = mode;
    next_seq = 0;
  })

-- `bool::then` over a computation that may not return.
abbrev pub if_some {ℓ} : {A : Type ℓ} → Bool → Run A → Run (Option A)
if_some true m = m >>= λ a. some (some a)
if_some false m = some none

unfoldable pub mint : (List ℕ → List ℕ → List ℕ) → Receipts → Action → ℕ → Run (Receipts × Receipt)
mint hmac r action time_s = do
  let key = secret_slice r.secret r.secret_len
  seq_code ←
      if_some (has_seq r.mode) (key >>= λ k. hotp hmac k (msg kind_seq action r.next_seq) r.digits)
  time_code ←
      if_some (has_time r.mode)
        (key >>= λ k. hotp hmac k (msg kind_time action (time_s / period_s)) r.digits)
  some (
    record r { next_seq = u32 (r.next_seq + 1) },
    record {
      action = action;
      seq = r.next_seq;
      time_s = time_s;
      seq_code = seq_code;
      time_code = time_code;
    },
  )

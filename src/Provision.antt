-- ===== src/Provision.antt =====
-- The provisioning engine: firmware/ephemerkey-provision/src/lib.rs. The platform's `Store`, SHA-256, the
-- check of an Ed25519 public key and that of UTF-8 are parameters, beside the `Crypto` of the envelope.
pub mod Verify
pub mod Session
pub mod Authority
pub mod Ownership
pub mod Delivery
pub mod Acceptance
pub mod Flash
pub mod Reporting
mod Tests
use ephemerkey.Common.{
  ℕ, zero, suc, ◌+◌, ◌-◌, ◌%◌, Bool, true, false, Option, none, some, ltb, leb, ◌==◌, ◌&&◌,
  if◌then◌else◌, u32, u64, List, [], ◌∷◌, ◌++◌, length, take, drop, replicate,
}
use ephemerkey.Envelope.{Crypto}

abbrev pub config_max : ℕ
config_max = 4096

abbrev pub event_ring : ℕ
event_ring = 8

-- `ephemerkey_frame::frame_type`.
abbrev pub identity_req : ℕ
identity_req = 0x01

abbrev pub identity_frame : ℕ
identity_frame = 0x02

abbrev pub challenge_frame : ℕ
challenge_frame = 0x03

abbrev pub challenge_sig : ℕ
challenge_sig = 0x04

abbrev pub config_begin : ℕ
config_begin = 0x10

abbrev pub config_chunk : ℕ
config_chunk = 0x11

abbrev pub config_commit : ℕ
config_commit = 0x12

abbrev pub config_ack : ℕ
config_ack = 0x13

abbrev pub events_req : ℕ
events_req = 0x30

abbrev pub events_frame : ℕ
events_frame = 0x31

abbrev pub wifi_set_frame : ℕ
wifi_set_frame = 0x40

abbrev pub wifi_status_req : ℕ
wifi_status_req = 0x41

abbrev pub wifi_status : ℕ
wifi_status = 0x42

abbrev pub ok_frame : ℕ
ok_frame = 0x7e

abbrev pub error_frame : ℕ
error_frame = 0x7f

-- `ephemerkey_frame::err_code`.
abbrev pub bad_state : ℕ
bad_state = 1

abbrev pub bad_sig : ℕ
bad_sig = 2

abbrev pub seq_rollback : ℕ
seq_rollback = 3

abbrev pub wrong_set : ℕ
wrong_set = 4

abbrev pub storage : ℕ
storage = 5

abbrev pub bad_crc : ℕ
bad_crc = 6

abbrev pub unsupported : ℕ
unsupported = 7

-- The trait `Store`: what a method changes, and whether it succeeded.
pub record StoreOps (S : Type 0) : Type 0 where
  pub owner_pub : S → Option (List ℕ)
  pub seq : S → ℕ
  pub validate_config : S → List ℕ → Bool
  pub commit : S → List ℕ → ℕ → List ℕ → S × Bool
  pub wifi_set : S → List ℕ → List ℕ → S × Bool
  pub wifi_clear : S → S × Bool
  pub wifi_ssid : S → Option (List ℕ)
  pub now : S → ℕ

-- The crates that the engine calls.
pub record Crates : Type 0 where
  pub crypto : Crypto
  pub sha256 : List ℕ → List ℕ
  pub public_key : List ℕ → List ℕ  -- `SigningKey::verifying_key`
  pub is_key : List ℕ → Bool  -- `VerifyingKey::from_bytes`
  pub is_utf8 : List ℕ → Bool  -- `core::str::from_utf8`

pub record Identity : Type 0 where
  pub device_id : List ℕ  -- 12 bytes
  pub sign : List ℕ
  pub kx_priv : List ℕ  -- 32 bytes
  pub fw : List ℕ

pub record Xfer : Type 0 where
  pub len : ℕ
  pub filled : ℕ
  pub seq_hint : ℕ  -- u32
  pub crc : ℕ  -- u32

-- `pt_buf` and `scratch` are written before each use, and are no state. `parser` is the list of the
-- bytes that the parser has in use; an entry of the ring is a sequence number, a time and a kind.
pub record Provisioner (S : Type 0) : Type 0 where
  pub store : S
  pub id : Identity
  pub parser : List ℕ
  pub xfer : Option Xfer
  pub cfg_buf : List ℕ  -- 4096 bytes
  pub events : List (ℕ × ℕ × ℕ)  -- 8 entries
  pub event_seq : ℕ  -- u64

abbrev pub new_with_aes : {S : Type 0} → Identity → S → Provisioner S
new_with_aes id store = record {
  store = store;
  id = id;
  parser = [];
  xfer = none;
  cfg_buf = replicate config_max 0;
  events = replicate event_ring (0, 0, 0);
  event_seq = 0;
}

-- `buf[off..off + data.len()].copy_from_slice(data)`, in range.
abbrev pub write_at {ℓ} : {A : Type ℓ} → List A → ℕ → List A → List A
write_at buf off piece = take off buf ++ (piece ++ drop (off + length piece) buf)

abbrev pub eq_bytes : List ℕ → List ℕ → Bool
eq_bytes [] [] = true
eq_bytes [] (b ∷ bs) = false
eq_bytes (a ∷ xs) [] = false
eq_bytes (a ∷ xs) (b ∷ bs) = a == b && eq_bytes xs bs

-- The type and the payload of a response.
abbrev pub Response : Type 0
Response = ℕ × List ℕ

abbrev pub err_response : ℕ → Response
err_response code = (error_frame, code ∷ [])

unfoldable pub record_event : {S : Type 0} → StoreOps S → ℕ → Provisioner S → Provisioner S
record_event ops kind p =
    let seq = u64 (p.event_seq + 1) in
    record p {
      event_seq = seq;
      events = write_at p.events (p.event_seq % event_ring) ((seq, ops.now p.store, kind) ∷ []);
    }

-- ===== src/Provision/Verify.antt =====
-- CONFIG_COMMIT: the checks of a delivered blob in their order, and the commit
-- (firmware/ephemerkey-provision/src/lib.rs).
use ephemerkey.Common.{
  ℕ, ◌+◌, Bool, true, false, not, Option, none, some, leb, ◌==◌, ◌&&◌, if◌then◌else◌, List, length,
  take,
}
use ephemerkey.Cbor.{Result, ok, err}
use ephemerkey.Envelope.{open_with, sign1_parse, sign1_verify, sign1_write}
use ephemerkey.Wire.{crc32}
use ephemerkey.Schema.{ack_encode, evt_config_ack}
use ephemerkey.Provision.{
  StoreOps, Crates, Identity, Xfer, Provisioner, Response, err_response, record_event, eq_bytes,
  config_max, bad_state, bad_sig, seq_rollback, wrong_set, storage, bad_crc, unsupported,
  config_ack,
}

-- A check passes with a value, or the handler returns with an error code.
pub data Checked (A : Type 0) : Type 0 where
  pass : A → Checked A
  fail : ℕ → Checked A

infixl 5 ◌andthen◌
abbrev pub ◌andthen◌ : {A B : Type 0} → Checked A → (A → Checked B) → Checked B
pass a andthen k = k a
fail code andthen k = fail code

abbrev pub or_code : {A : Type 0} → Result A → ℕ → Checked A
or_code (ok a) code = pass a
or_code (err e) code = fail code

-- A test that stops the handler where it holds.
abbrev pub stop_if : Bool → ℕ → Checked (Unit {0})
stop_if true code = fail code
stop_if false code = pass tt

abbrev pub is_some : {A : Type 0} → Option A → Bool
is_some none = false
is_some (some a) = true

-- The `kid` of the inner message is the owner's public key, of 32 bytes.
abbrev pub owner_of : Option (List ℕ) → Checked (List ℕ)
owner_of none = fail wrong_set
owner_of (some kid) = if length kid == 32 then pass kid else fail wrong_set

-- Is the device bound to another owner?
abbrev pub bound_to_other : Option (List ℕ) → List ℕ → Bool
bound_to_other none owner = false
bound_to_other (some bound) owner = not (eq_bytes bound owner)

-- What a blob that passes every check asks to commit.
pub record Verified : Type 0 where
  pub owner : List ℕ
  pub seq : ℕ
  pub config : List ℕ

-- The transfer is complete, and its checksum right.
abbrev pub is_complete : Xfer → List ℕ → Bool
is_complete x buf = x.filled == x.len && crc32 (take x.len buf) == x.crc

-- A payload of at most 1024 bytes, signed with the device's key, as a frame of type `ftype`.
abbrev pub frame_of : ℕ → Result (List ℕ) → Response
frame_of ftype (err e) = err_response bad_state
frame_of ftype (ok bytes) = (ftype, bytes)

abbrev pub signed_response : Crates → Identity → ℕ → Result (List ℕ) → Response
signed_response crates id ftype (err e) = err_response bad_state
signed_response crates id ftype (ok payload) =
    frame_of ftype
      (sign1_write crates.crypto 1024 (config_max + 256) payload (some id.device_id) id.sign)

module _ {S : Type 0} (ops : StoreOps S) (crates : Crates) where
  -- The checks of the inner message, once the blob is open.
  unfoldable pub verify_inner : S → List ℕ → ℕ → Checked Verified
  verify_inner store inner seq = or_code (sign1_parse inner) bad_sig andthen λ m.
      owner_of m.kid andthen λ owner.
      stop_if (bound_to_other (ops.owner_pub store) owner) wrong_set andthen λ _.
      stop_if (not (crates.is_key owner)) wrong_set andthen λ _.
      or_code (sign1_verify crates.crypto inner (config_max + 256) owner) bad_sig
      andthen λ (config, kid).
          stop_if (not (ops.validate_config store config)) unsupported andthen λ _.
          pass (record { owner = owner; seq = seq; config = config })

  unfoldable pub verify_blob : S → Identity → List ℕ → ℕ → Checked Verified
  verify_blob store id blob seq_hint =
      or_code (open_with crates.crypto blob config_max id.kx_priv) bad_sig andthen λ (inner, seq).
      stop_if (not (seq == seq_hint)) bad_state andthen λ _.
      stop_if (is_some (ops.owner_pub store) && leb seq (ops.seq store)) seq_rollback andthen λ _.
      verify_inner store inner seq

  -- What follows the store's commit, and whether that succeeded.
  unfoldable pub finish : Provisioner S → List ℕ → Verified → S × Bool → Provisioner S × Response
  finish p blob v (store, false) = (record p { store = store }, err_response storage)
  finish p blob v (store, true) = (
    record_event ops evt_config_ack (record p { store = store }),
    signed_response crates p.id config_ack (ack_encode 64 v.seq (crates.sha256 blob)),
  )

  unfoldable pub commit_checked :
      Provisioner S → List ℕ → Checked Verified → Provisioner S × Response
  commit_checked p blob (fail code) = (p, err_response code)
  commit_checked p blob (pass v) = finish p blob v (ops.commit p.store v.owner v.seq v.config)

  unfoldable pub commit_xfer : Provisioner S → Option Xfer → Provisioner S × Response
  commit_xfer p none = (p, err_response bad_state)
  commit_xfer p (some x) =
      let blob = take x.len p.cfg_buf in
      let p' = record p { xfer = none } in
      if is_complete x p.cfg_buf
      then commit_checked p' blob (verify_blob p.store p.id blob x.seq_hint)
      else (p', err_response bad_crc)

  unfoldable pub commit : Provisioner S → Provisioner S × Response
  commit p = commit_xfer p p.xfer

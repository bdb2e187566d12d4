-- ===== src/Provision/Tests.antt =====
-- A device that its owner's server provisions, over a store in memory and with the toy primitives.
use ephemerkey.Common.{
  ℕ, ◌≡◌, ◌≤◌, ◌⊎◌, inl, inr, refl, true, false, Option, none, some, List, [], ◌∷◌, ◌++◌, length,
  replicate, arith, take, drop,
}
use ephemerkey.Cbor.{ok}
use ephemerkey.Cbor.Encode
use ephemerkey.Cbor.Decode
use ephemerkey.Envelope.{
  sig_structure, sign1_write, seal_write_with, encrypt0_protected, enc_structure, bstr_reserve,
  open_with, decrypt, peek, find_route, find_keys, sign1_parse, find_kid, sign1_verify, find_alg,
  check_signature,
}
use ephemerkey.Envelope.Bytes.{sign1_bytes, protected_bytes}
use ephemerkey.Envelope.Opening.{sealed_bytes}
use ephemerkey.Envelope.Toy.{toy, toy-SignLaws, toy-SealLaws}
use ephemerkey.Wire.{crc16, crc32, covered, le_bytes}
use ephemerkey.Schema.{ack_encode, ack_decode}
use ephemerkey.Journal.{FlashOps, Journal, commit_config, default_layout, blank}
use ephemerkey.Provision.{
  StoreOps, Crates, Identity, Provisioner, record_event, config_ack, seq_rollback, new_with_aes,
}
use ephemerkey.Provision.Verify.{
  pass, fail, Verified, verify_blob, verify_inner, finish, commit_checked, commit_xfer, commit,
}
use ephemerkey.Provision.Authority.{Refused, Authorised, commit-Authorised}
use ephemerkey.Provision.Session.{handle_all, feed, events_resp}
use ephemerkey.Provision.Ownership.{StoreLaws, silent, heard, Heard-KeepsOwner, feed-returns}
use ephemerkey.Provision.Reporting.{Signs, commit-acknowledges}
use ephemerkey.Provision.Delivery.{joined}
use ephemerkey.Provision.Flash.{flash_store, replay-refused}
use ephemerkey.Provision.Acceptance.{transfer, Built, Open, transfer-commit, verify_blob_passes}

-- The owner, the number and the config.
abbrev Mem : Type 0
Mem = Option (List ℕ) × ℕ × List ℕ

abbrev mem : StoreOps Mem
mem = record {
  owner_pub = λ s. s.0;
  seq = λ s. s.1;
  validate_config = λ s config. true;
  commit = λ s owner seq config. ((some owner, seq, config), true);
  wifi_set = λ s ssid psk. (s, true);
  wifi_clear = λ s. (s, true);
  wifi_ssid = λ s. none;
  now = λ s. 0;
}

mem-StoreLaws : StoreLaws mem
mem-StoreLaws = record {
  commit_done = λ s owner config seq done. (refl, refl);
  commit_torn = λ s owner config seq torn. inr (refl, refl);
  wifi_set_same = λ s ssid psk. (refl, refl);
  wifi_clear_same = λ s. (refl, refl);
}

abbrev toys : Crates
toys = record {
  crypto = toy;
  sha256 = λ bytes. replicate 32 (crc32 bytes);
  public_key = λ k. k;
  is_key = λ k. true;
  is_utf8 = λ s. true;
}

abbrev id : Identity
id = record { device_id = replicate 12 1; sign = 2 ∷ []; kx_priv = 9 ∷ []; fw = b'1' ∷ [] }

abbrev fresh : Provisioner Mem
fresh = new_with_aes id (none, 0, [])

abbrev owner_key : List ℕ
owner_key = replicate 32 7

abbrev config : List ℕ
config = 0xa1 ∷ 1 ∷ 2 ∷ []

abbrev inner : List ℕ
inner = sign1_bytes (some owner_key) config (replicate 64 7)

abbrev blob : List ℕ
blob =
    sealed_bytes (protected_bytes 5 (replicate 12 1)) (replicate 12 5) (replicate 32 3)
      (inner ++ replicate 16 12)

built : Built toys id owner_key config 5 blob
unfolding sign1_write sig_structure seal_write_with encrypt0_protected enc_structure bstr_reserve
    Encode.head Encode.push Encode.extend
built = record {
  inner = inner;
  target = replicate 12 1;
  eph_secret = 3 ∷ [];
  iv = replicate 12 5;
  room = 256;
  room' = 512;
  signed = refl;
  sealed = refl;
  config_fits = omega arith;
  inner_fits = omega arith;
  target_fits = omega arith;
  iv_length = refl;
}

willing : Open mem toys (none, 0, []) owner_key config 5
willing = record {
  owner_length = refl;
  key = refl;
  free = inl refl;
  newer = inl refl;
  valid = refl;
  word32 = omega arith;
}

abbrev pieces : List (List ℕ)
pieces = take 100 blob ∷ drop 100 blob ∷ []

transfer-commit_example :
    (handle_all mem toys fresh
      (transfer (length (joined pieces)) 5 (crc32 (joined pieces)) pieces)).0.store
    ≡ (some owner_key, 5, config)
unfolding crc32
transfer-commit_example =
    transfer-commit mem toys toy-SignLaws toy-SealLaws fresh owner_key config 5 pieces built willing
      (omega arith) (omega arith) (omega arith)

-- The whole blob has arrived, and stands at the front of the buffer.
abbrev arrived : Provisioner Mem
arrived = record fresh {
  xfer = some (record { len = length blob; filled = length blob; seq_hint = 5; crc = crc32 blob });
  cfg_buf = blob;
}

commit-Authorised_example :
    let after = commit mem toys arrived in
    (after.0.xfer ≡ none)
    × (Refused mem toys arrived after.0 after.1 ⊎ Authorised mem toys arrived after.0 after.1)
commit-Authorised_example = commit-Authorised mem toys arrived

abbrev bound : Provisioner Mem
bound = record fresh { store = (some owner_key, 5, config) }

-- A request for the state of the wifi.
abbrev status_frame : List ℕ
status_frame = b'E' ∷ b'K' ∷ covered 0x41 [] ++ le_bytes (crc16 (covered 0x41 []))

feed-returns_example :
    (r : Provisioner Mem × List (List ℕ)) × (feed mem toys bound status_frame ≡ some r)
feed-returns_example = feed-returns mem toys bound status_frame

abbrev answered : Provisioner Mem
answered = (feed-returns mem toys bound status_frame).0.0

Heard-KeepsOwner_example : (answered.store.0 ≡ some owner_key) × (5 ≤ answered.store.1)
Heard-KeepsOwner_example =
    Heard-KeepsOwner mem mem-StoreLaws toys
      (heard status_frame (feed-returns mem toys bound status_frame).1 silent) owner_key refl

-- A flash that erases and cannot be written.
abbrev worn : FlashOps (Unit {0})
worn = record {
  read = λ f off n. none;
  erase_page = λ f off. (tt, true);
  write = λ f off bytes. (tt, false);
}

abbrev device : Journal (Unit {0})
device = record { flash = tt; layout = default_layout; live = blank; identity = none }

abbrev device_store : StoreOps (Journal (Unit {0}))
device_store = flash_store worn (λ s. true) (λ j. none)

abbrev accepted : Verified
accepted = record { owner = owner_key; seq = 5; config = config }

willing_device : Open device_store toys device owner_key config 5
willing_device = record {
  owner_length = refl;
  key = refl;
  free = inl refl;
  newer = inl refl;
  valid = refl;
  word32 = omega arith;
}

passed : verify_blob device_store toys device id blob 5 ≡ pass accepted
passed =
    verify_blob_passes device_store toys toy-SignLaws toy-SealLaws device id owner_key config 5 blob
      built willing_device

-- The commit that failed has bound the device in memory: the owner cannot send the config again.
replay-refused_example :
    verify_blob device_store toys (commit_config worn device owner_key 5 config).0 id blob 5
    ≡ fail seq_rollback
replay-refused_example =
    replay-refused worn (λ s. true) (λ j. none) toys device id blob 5 accepted passed (omega arith)

abbrev ack_answer : List ℕ
ack_answer = (commit mem toys arrived).1.1

acknowledged : (commit mem toys arrived).1 ≡ (config_ack, ack_answer)
unfolding commit commit_xfer commit_checked finish record_event verify_blob verify_inner crc32
    open_with decrypt peek find_route find_keys enc_structure sign1_parse find_kid sign1_verify
    find_alg check_signature sig_structure sign1_write ack_encode Decode.head Decode.byte
    Decode.take_bytes Encode.head Encode.push Encode.extend
acknowledged = refl

commit-acknowledges_example :
    (a : Authorised mem toys arrived (commit mem toys arrived).0 (commit mem toys arrived).1)
    × (ack : List ℕ) × ((mem.commit arrived.store a.v.owner a.v.seq a.v.config).1 ≡ true)
    × Signs mem toys toy-SignLaws id ack_answer ack
    × (ack_decode ack ≡ ok (a.v.seq, toys.sha256 (take a.xfer.len blob)))
commit-acknowledges_example =
    commit-acknowledges mem toys toy-SignLaws arrived ack_answer refl (omega arith) (λ bytes. refl)
      acknowledged

-- The device has recorded one acknowledgement.
abbrev recorded : Provisioner Mem
recorded = record fresh { events = (1, 100, 8) ∷ []; event_seq = 1 }

abbrev events_answer : List ℕ
events_answer = (events_resp mem toys recorded []).1.1

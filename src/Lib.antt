-- ===== src/Lib.antt =====
-- A verification library for ephemerkey: the engine that validates entered one-time codes against the
-- code slots of a lock and the generator that shows such codes (firmware/ephemerkey-core), the flash
-- journal of the device (firmware/ephemerkey-store), its configuration (firmware/ephemerkey-config),
-- and the session, the frames and the envelopes by which it is configured
-- (firmware/ephemerkey-provision, firmware/ephemerkey-frame, firmware/ephemerkey-envelope).
--
-- Parts and files. Names follow the source, in this library's spelling.
--   Policy        firmware/ephemerkey-core/src/policy.rs, the configuration: slots, policies, gates.
--                 `Gates::block` is `block`; the trait `Sensors` is a record of its questions.
--   Slots         policy.rs, `SlotState`: `on_code`, `tick`, `pace_draw`. The arm of each policy in
--                 `on_code` is a function of its own (`sequence_code`, `path_code`, `dead_man_code`,
--                 `quorum_code`). Slots/Round describes a round of codes at one slot; Slots/Rhythm,
--                 Slots/Distinct, Slots/Journey and Slots/Liveness are about such rounds.
--   Totp          firmware/ephemerkey-core/src/totp.rs: `parse`, `render`, `hotp`.
--   Receipt       firmware/ephemerkey-core/src/receipt.rs: the codes by which the lock talks
--                 back: the minter, and in Receipt/Check the `Validator` of the remote side.
--   Engine        firmware/ephemerkey-core/src/engine.rs: the state `LockEngine`. Engine/Search is
--                 `match_key`; Engine/Clock is `tick`, `reset_slot`, `attest` and the minting of
--                 receipts; Engine/Enter is `enter_code_with`. Engine/History describes runs of the
--                 engine: any sequence of codes, ticks, attestations and pickups.
--   Wire          firmware/ephemerkey-frame/src/lib.rs and firmware/ephemerkey-crc/src/lib.rs: the
--                 frames of the provisioning link (`encode`, `scan`, `feed`) and the checksums.
--   Journal       firmware/ephemerkey-store/src/lib.rs: the flash journal `Journal`. The struct's RAM
--                 fields are its `live` mirror (`Mirror`), its fixed arrays with their lengths are lists.
--                 Journal/Records is about one record, Journal/Remount about what the two slots load,
--                 Journal/Recovery and Journal/Commit about a mount after a commit.
--   Reveal        firmware/ephemerkey-core/src/reveal.rs: the generator that shows codes. Reveal/Sight
--                 is what one call of `reveal` shows, Reveal/History describes runs of the generator.
--   Cbor          firmware/ephemerkey-envelope/src/cbor.rs: Cbor/Encode is `Enc`, Cbor/Decode is `Dec`.
--                 Cbor/RoundTrip relates the two, Cbor/Skipping is about unknown items.
--   Envelope      firmware/ephemerkey-envelope/src/lib.rs: the signed and the sealed envelope.
--                 Envelope/Bytes says what the writers write, Envelope/Signing is about COSE_Sign1,
--                 Envelope/Opening and Envelope/Sealing about COSE_Encrypt0.
--   Schema        firmware/ephemerkey-envelope/src/schema.rs: acknowledgements, events and enrollments.
--   Provision     firmware/ephemerkey-provision/src/lib.rs: the device's side of the provisioning link.
--                 Provision/Verify is CONFIG_COMMIT, one check after the other (`Checked` stands for the
--                 early returns), Provision/Session the other frames, `handle` and `feed`. `pt_buf` and
--                 `scratch`, which are written before each use, are no state. Provision/Flash is the store
--                 of firmware/ephemerkey-rs/src/provision.rs over the journal. Provision/Delivery and
--                 Provision/Acceptance follow a config from the server to the store.
--   Config        firmware/ephemerkey-config/src/lib.rs, and the zones of
--                 firmware/ephemerkey-envelope/src/config.rs: Config/Fields and Config/Policies hold the
--                 field parsers, Config/Zones the zones, Config/Geofence
--                 `Zone::contains`, Config/Parse `parse`, Config/Build `build_lock`,
--                 `build_generator` and `build_validator`. A loop over the fields of a map is `fields`
--                 with a function of the key; `panics` of `Parsed` is a slice out of range.
--   Common        words, lists, byte strings, Boolean tests, and computations that may not return.
--
-- How they interact. `enter_code_with` ticks every slot, looks for a veto, and then feeds the text to
-- the slots in order: a candidate key of the slot is searched over the delay window of its policy
-- (Engine/Search over Totp), a fresh match is burned and fed to the slot's state machine (Slots), and
-- its verdict becomes an outcome, a budget count, an armed fire or a receipt (Receipt).
--
-- The generator stands on the other side of the door: `reveal` mints with Totp, `feed_chain` checks a
-- receipt code with the validator of Receipt/Check, and `apply_ritual_outcome` takes an `Outcome` of an
-- Engine of its own.
--
-- A configuration comes over the link: Wire takes the frames off the bytes, Provision collects the sealed
-- blob, opens and verifies it with Envelope, which reads and writes Cbor, and commits it to the Journal;
-- the answers carry the messages of Schema. Config parses what was committed and builds the tables of
-- an Engine or of a Reveal from it.
--
-- Conventions of the model.
--   The firmware is built in the release profile without overflow checks: u8, u16, u32 and u64 wrap
--   where the source adds, subtracts and shifts (`u8`, `u16`, `u32`, `u64`, `sub16`, `sub32`,
--   `sub64`), and a `debug_assert` does nothing.
--   The geofence is the exception: an i64 result out of range, which wraps in the firmware, is `none`,
--   so that an answer is one without a wrap-around.
--   Arrays of the engine are functions of their index; an index that comes from the configuration is
--   checked, and `none` of the type `Run` stands for a panic. `usize` has 32 bits, as on the device.
--   A `&mut self` method takes the engine and returns it, with its result.
--   The provisioning engine's trait `Store` is a parameter `StoreOps`; `StoreLaws` says that a commit
--   that succeeds binds the device, one that fails may have, and the wifi settings are apart. SHA-256, the
--   public key of a signing key, and the checks of a public key and of UTF-8 are fields of `Crates`.
--   HMAC-SHA1 (the crates hmac and sha1) is a parameter from the key and the message to the tag. The
--   theorems hold for every such function.
--   The flash is a parameter `FlashOps` (the trait `Flash`): a state with a read, an erase and a write.
--   Its laws `FlashLaws` (Journal/Recovery) are that an erase and a write touch no other page, also
--   when they fail, and that a page that was erased and then written holds what was written, erased
--   bytes behind it. `none` of `mount` is an identity page that cannot be read.
--   Ed25519, X25519, HKDF and AES-128-GCM are a parameter `Crypto`. Its laws are `SignLaws` (a public key
--   verifies what its key signed, in 64 bytes) and `SealLaws` (both sides of a key agreement derive one
--   secret, and what was sealed opens under the same key, IV and associated data). A writer takes the
--   length of its buffer and returns the bytes written.
--   The loop of `match_key` runs on fuel, one round for each counter of the window, which is enough:
--   `match_key` returns for every window, also for an empty one, where the counter goes round at 0.
--   `scan` runs on fuel, one round more than the buffer has bytes, as every round that goes on takes
--   two bytes or more off the buffer.
--   `Configured` (Engine/Frame) is what the engine assumes of its tables: key indices below 8, four
--   leg keys and at most four legs, secrets of at most 32 bytes, codes of at most 10 digits.
--
-- Not modelled: the feature `introspect` of the generator; the journal's accessor of the wifi
-- password and its Debug; the software AES backend of the envelope; the keypad and the NMEA reader of the
-- other crates; the emulator (files and sockets); the application firmware over hardware drivers, but
-- for its store; the C firmware of the bolt controller; the board files.
pub mod Common
pub mod Policy
pub mod Slots
pub mod Totp
pub mod Receipt
pub mod Engine
pub mod Cbor
pub mod Config
pub mod Envelope
pub mod Journal
pub mod Provision
pub mod Reveal
pub mod Schema
pub mod Wire

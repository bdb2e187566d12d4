-- ===== src/Provision/Reporting.antt =====
-- What the device tells its server: the signed acknowledgement of a config and the signed batch of
-- events (firmware/ephemerkey-provision/src/lib.rs, firmware/ephemerkey-envelope/src/schema.rs).
use mathlib.Core.Path.{subst}
use mathlib.Core.List.{append-nil}
use ephemerkey.Common.{
  ℕ, ◌+◌, ◌<◌, ◌^◌, ◌≡◌, ◌≢◌, refl, ap, sym, ◌∙◌, Bool, true, false, Option, none, some, inl, inr,
  take, List, [], ◌∷◌, ◌++◌, length, arith, All,
}
use ephemerkey.Cbor.{Result, ok, err}
use ephemerkey.Cbor.Encode
use ephemerkey.Cbor.RoundTrip.{both_ok, head-Wrote, head_bytes, expect-head_bytes}
use ephemerkey.Envelope.{sign1_write, sign1_verify, sig_structure, sign1_protected}
use ephemerkey.Envelope.Bytes.{Writes, Writes-then, Writes-done, sig_structure-fits}
use ephemerkey.Envelope.Signing.{SignLaws, sign1_verify-sign1_write}
use ephemerkey.Schema.{Event, event_encode, events_decode, ack_encode, ack_decode}
use ephemerkey.Schema.RoundTrip.{
  EventFits, batch_bytes, event_encode-Writes, read_events-batch_bytes, ack_decode-ack_encode,
}
use ephemerkey.Provision.{
  StoreOps, Crates, Identity, Xfer, Provisioner, Response, config_max, config_ack, error_frame,
}
use ephemerkey.Provision.Verify.{Verified, frame_of, signed_response, finish, commit}
use ephemerkey.Provision.Authority.{Authorised, commit-Authorised}
use ephemerkey.Provision.Session.{encode_events, events_batch}

encode_events-Writes : (evs : List Event) → Writes (encode_events evs) (batch_bytes evs)
unfolding encode_events
encode_events-Writes [] = λ e e' h. let q : e' ≡ e = cc in rw (append-nil e.out) q
encode_events-Writes (ev ∷ evs) =
    Writes-then (event_encode ev) (encode_events evs) _ _ (event_encode-Writes ev)
      (encode_events-Writes evs)

events_batch_lem :
    (evs : List Event) (t : List ℕ)
    → events_batch evs ≡ ok t
    → t ≡ head_bytes 4 (length evs) ++ batch_bytes evs
unfolding events_batch
events_batch_lem evs t h =
    Writes-done _ _ t 512
      (Writes-then (Encode.array (length evs)) (encode_events evs) _ _ (head-Wrote 4 (length evs))
        (encode_events-Writes evs))
      h

-- A batch that the device encodes, the server decodes.
pub events_decode-events_batch :
    (evs : List Event) (t : List ℕ)
    → All EventFits evs
    → length evs < 2 ^ 64
    → events_batch evs ≡ ok t
    → events_decode t ≡ ok evs
unfolding events_decode
events_decode-events_batch evs t fits lt h =
    rw
      (
        events_batch_lem evs t h,
        expect-head_bytes 4 (length evs) (batch_bytes evs) (omega arith) lt,
        read_events-batch_bytes evs fits,
      )
      refl

-- The number that CONFIG_BEGIN announced is a u32.
abbrev pub HintFits : Option Xfer → Type 0
HintFits none = Unit {0}
HintFits (some x) = x.seq_hint < 4294967296

module _ {S : Type 0} (ops : StoreOps S) (crates : Crates)
    (laws : SignLaws crates.crypto crates.public_key) where
  -- The answer is a message that the device's public key verifies, of this payload.
  abbrev pub Signs : Identity → List ℕ → List ℕ → Type 0
  Signs id answer payload =
      sign1_verify crates.crypto answer (config_max + 256) (crates.public_key id.sign)
      ≡ ok (payload, some id.device_id)

  write-Signs :
      (id : Identity) (payload answer : List ℕ)
      → length id.device_id ≡ 12
      → sign1_write crates.crypto 1024 (config_max + 256) payload (some id.device_id) id.sign
        ≡ ok answer
      → Signs id answer payload
  unfolding sign1_write
  write-Signs id payload answer named written =
      let (signed, at, rest) =
        both_ok (sig_structure (config_max + 256) sign1_protected payload) _ written in
      let small = sig_structure-fits (config_max + 256) sign1_protected payload signed at in
      sign1_verify-sign1_write crates.crypto crates.public_key laws 1024 (config_max + 256) payload
        (some id.device_id) id.sign answer (omega (arith, named)) (omega (arith, small)) written

  frame_of-ok :
      (ftype : ℕ) (r : Result (List ℕ)) (answer : List ℕ)
      → ftype ≢ error_frame
      → frame_of ftype r ≡ (ftype, answer)
      → r ≡ ok answer
  frame_of-ok ftype (err e) answer ne h = absurd (ne (let q : error_frame ≡ ftype = cc in sym q))
  frame_of-ok ftype (ok bytes) answer ne h = cc

  signed_response-Signs :
      (id : Identity) (ftype : ℕ) (r : Result (List ℕ)) (answer : List ℕ)
      → length id.device_id ≡ 12
      → ftype ≢ error_frame
      → signed_response crates id ftype r ≡ (ftype, answer)
      → (payload : List ℕ) × (r ≡ ok payload) × Signs id answer payload
  signed_response-Signs id ftype (err e) answer named ne h =
      absurd (ne (let q : error_frame ≡ ftype = cc in sym q))
  signed_response-Signs id ftype (ok payload) answer named ne h =
      (payload, refl, write-Signs id payload answer named (frame_of-ok ftype _ answer ne h))

  ack-Signs :
      (id : Identity) (answer : List ℕ) (seq : ℕ) (hash : List ℕ)
      → length id.device_id ≡ 12
      → seq < 2 ^ 64
      → length hash ≡ 32
      → signed_response crates id config_ack (ack_encode 64 seq hash) ≡ (config_ack, answer)
      → (ack : List ℕ) × Signs id answer ack × (ack_decode ack ≡ ok (seq, hash))
  ack-Signs id answer seq hash named ls lh h =
      let (ack, made, signed) =
        signed_response-Signs id config_ack (ack_encode 64 seq hash) answer named (λ e. omega arith)
          h in
      (ack, signed, ack_decode-ack_encode 64 seq hash ack ls lh made)

  finish-acknowledges :
      (p : Provisioner S) (blob answer : List ℕ) (v : Verified) (r : S × Bool)
      → length p.id.device_id ≡ 12
      → v.seq < 2 ^ 64
      → length (crates.sha256 blob) ≡ 32
      → (finish ops crates p blob v r).1 ≡ (config_ack, answer)
      → (ack : List ℕ) × (r.1 ≡ true)
        × Signs p.id answer ack
        × (ack_decode ack ≡ ok (v.seq, crates.sha256 blob))
  unfolding finish
  finish-acknowledges p blob answer v (store, false) named ls lh h =
      let q : error_frame ≡ config_ack = ap (λ (r : Response). r.0) h in absurd (omega (arith, q))
  finish-acknowledges p blob answer v (store, true) named ls lh h =
      let (ack, signed, decoded) = ack-Signs p.id answer v.seq (crates.sha256 blob) named ls lh h in
      (ack, refl, signed, decoded)

  -- Where the device answers a commit with CONFIG_ACK, a transfer of a 32-bit number was authorised and
  -- the store's commit of it succeeded, the device's public key verifies the answer, and the
  -- acknowledgement in it decodes to the number of the config and the hash of the blob.
  pub commit-acknowledges :
      (p : Provisioner S) (answer : List ℕ)
      → length p.id.device_id ≡ 12
      → HintFits p.xfer
      → ((bytes : List ℕ) → length (crates.sha256 bytes) ≡ 32)
      → (commit ops crates p).1 ≡ (config_ack, answer)
      → (a : Authorised ops crates p (commit ops crates p).0 (commit ops crates p).1) × (ack : List
          ℕ)
        × ((ops.commit p.store a.v.owner a.v.seq a.v.config).1 ≡ true)
        × Signs p.id answer ack
        × (ack_decode ack ≡ ok (a.v.seq, crates.sha256 (take a.xfer.len p.cfg_buf)))
  commit-acknowledges p answer named small lh h = elim (commit-Authorised ops crates p).1 [
    | inl (same, code, refused) ↦
        let q : error_frame ≡ config_ack = ap (λ (r : Response). r.0) (sym refused ∙ h) in
        absurd (omega (arith, q))
    | inr a ↦
        let ls : a.v.seq < 2 ^ 64 = omega (arith, subst HintFits a.begun small, a.genuine.hinted) in
        let (ack, done, signed, decoded) =
          finish-acknowledges (record p { xfer = none }) (take a.xfer.len p.cfg_buf) answer a.v
            (ops.commit p.store a.v.owner a.v.seq a.v.config) named ls
            (lh (take a.xfer.len p.cfg_buf)) (sym a.reply ∙ h) in
        (a, ack, done, signed, decoded)
  ]

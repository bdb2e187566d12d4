-- ===== src/Schema.antt =====
-- What signed envelopes carry back to the server: firmware/ephemerkey-envelope/src/schema.rs. The check
-- of a text for UTF-8 (core::str) is a parameter.
pub mod RoundTrip
use ephemerkey.Common.{
  ℕ, zero, suc, ◌+◌, Bool, true, false, Option, none, some, ◌==◌, if◌then◌else◌, List, [], ◌∷◌,
  length,
}
use ephemerkey.Cbor.{Result, ok, err, ◌>>=◌, EnvelopeError, Enc, new_enc}
use ephemerkey.Cbor.Encode
use ephemerkey.Cbor.Decode

abbrev pub evt_config_ack : ℕ
evt_config_ack = 8

unfoldable pub ack_encode : ℕ → ℕ → List ℕ → Result (List ℕ)
ack_encode cap seq blob_hash =
    Encode.map 2 (new_enc cap)
    >>= (λ e. Encode.uint 1 e)
    >>= (λ e. Encode.uint seq e)
    >>= (λ e. Encode.uint 2 e)
    >>= (λ e. Encode.bstr blob_hash e)
    >>= λ e. ok e.out

-- The loop of `ack_decode`.
unfoldable pub ack_fields :
    ℕ → Option ℕ → Option (List ℕ) → List ℕ → Result (Option ℕ × Option (List ℕ))
ack_fields zero seq hash bs = ok (seq, hash)
ack_fields (suc n) seq hash bs = Decode.uint bs >>= λ (key, bs).
    if key == 1
    then (Decode.uint bs >>= λ (s, bs). ack_fields n (some s) hash bs)
    else if key == 2
    then (Decode.bstr bs >>= λ (h, bs). ack_fields n seq (some h) bs)
    else (Decode.skip bs >>= λ bs. ack_fields n seq hash bs)

abbrev pub ack_of : Option ℕ → Option (List ℕ) → Result (ℕ × List ℕ)
ack_of seq none = err EnvelopeError.malformed
ack_of none (some hash) = err EnvelopeError.malformed
ack_of (some seq) (some hash) =
    if length hash == 32 then ok (seq, hash) else err EnvelopeError.malformed

unfoldable pub ack_decode : List ℕ → Result (ℕ × List ℕ)
ack_decode payload =
    Decode.map payload >>= λ (n, bs). ack_fields n none none bs >>= λ (seq, hash). ack_of seq hash

pub record Event : Type 0 where
  pub seq : ℕ  -- u64, and so the others
  pub rtc_ts : ℕ
  pub kind : ℕ
  pub detail : Option (List ℕ)
  pub chain_tag : Option (List ℕ)

abbrev pub as_u64 : {A : Type 0} → Option A → ℕ
as_u64 none = 0
as_u64 (some a) = 1

-- A field that is written only if it is there.
abbrev pub extra_field : ℕ → Option (List ℕ) → Enc → Result Enc
extra_field key none e = ok e
extra_field key (some b) e = Encode.uint key e >>= λ e. Encode.bstr b e

unfoldable pub event_encode : Event → Enc → Result Enc
event_encode ev e =
    Encode.map (3 + (as_u64 ev.detail + as_u64 ev.chain_tag)) e
    >>= (λ e. Encode.uint 1 e)
    >>= (λ e. Encode.uint ev.seq e)
    >>= (λ e. Encode.uint 3 e)
    >>= (λ e. Encode.uint ev.rtc_ts e)
    >>= (λ e. Encode.uint 4 e)
    >>= (λ e. Encode.uint ev.kind e)
    >>= (λ e. extra_field 5 ev.detail e)
    >>= λ e. extra_field 6 ev.chain_tag e

-- What `EventIter::read_one` has read of an event.
pub record Partly : Type 0 where
  pub event : Event
  pub got_seq : Bool
  pub got_kind : Bool

abbrev pub no_event : Partly
no_event = record {
  event = record { seq = 0; rtc_ts = 0; kind = 0; detail = none; chain_tag = none };
  got_seq = false;
  got_kind = false;
}

unfoldable pub event_fields : ℕ → Partly → List ℕ → Result (Partly × List ℕ)
event_fields zero p bs = ok (p, bs)
event_fields (suc n) p bs = Decode.uint bs >>= λ (key, bs).
    if key == 1
    then (Decode.uint bs >>= λ (v, bs).
        event_fields n (record p { event = record p.event { seq = v }; got_seq = true }) bs)
    else if key == 3
    then (Decode.uint bs >>= λ (v, bs).
        event_fields n (record p { event = record p.event { rtc_ts = v } }) bs)
    else if key == 4
    then (Decode.uint bs >>= λ (v, bs).
        event_fields n (record p { event = record p.event { kind = v }; got_kind = true }) bs)
    else if key == 5
    then (Decode.bstr bs >>= λ (b, bs).
        event_fields n (record p { event = record p.event { detail = some b } }) bs)
    else if key == 6
    then (Decode.bstr bs >>= λ (b, bs).
        event_fields n (record p { event = record p.event { chain_tag = some b } }) bs)
    else (Decode.skip bs >>= λ bs. event_fields n p bs)

abbrev pub event_of : Partly → List ℕ → Result (Event × List ℕ)
event_of p bs =
    if p.got_seq
    then (if p.got_kind then ok (p.event, bs) else err EnvelopeError.malformed)
    else err EnvelopeError.malformed

unfoldable pub read_one : List ℕ → Result (Event × List ℕ)
read_one bs = Decode.map bs >>= λ (n, bs). event_fields n no_event bs >>= λ (p, bs). event_of p bs

-- The events that the iterator `EventIter` gives until the first error.
unfoldable pub read_events : ℕ → List ℕ → Result (List Event)
read_events zero bs = ok []
read_events (suc remaining) bs =
    read_one bs >>= λ (ev, bs). read_events remaining bs >>= λ evs. ok (ev ∷ evs)

unfoldable pub events_decode : List ℕ → Result (List Event)
events_decode payload = Decode.array payload >>= λ (n, bs). read_events n bs

pub record Enrollment : Type 0 where
  pub device_id : List ℕ
  pub sign_pub : List ℕ
  pub kx_pub : List ℕ
  pub fw : List ℕ

pub record Enrolling : Type 0 where
  pub device_id : Option (List ℕ)
  pub sign_pub : Option (List ℕ)
  pub kx_pub : Option (List ℕ)
  pub fw : List ℕ

module _ (is_utf8 : List ℕ → Bool) where
  unfoldable pub enrollment_fields : ℕ → Enrolling → List ℕ → Result Enrolling
  enrollment_fields zero r bs = ok r
  enrollment_fields (suc n) r bs = Decode.uint bs >>= λ (key, bs).
      if key == 1
      then (Decode.bstr bs >>= λ (b, bs). enrollment_fields n (record r { device_id = some b }) bs)
      else if key == 2
      then (Decode.bstr bs >>= λ (b, bs). enrollment_fields n (record r { sign_pub = some b }) bs)
      else if key == 3
      then (Decode.bstr bs >>= λ (b, bs). enrollment_fields n (record r { kx_pub = some b }) bs)
      else if key == 4
      then (Decode.tstr is_utf8 bs >>= λ (s, bs). enrollment_fields n (record r { fw = s }) bs)
      else (Decode.skip bs >>= λ bs. enrollment_fields n r bs)

  abbrev pub enrollment_of : Enrolling → Result Enrollment
  enrollment_of r = elim r.device_id [
    | none ↦ err EnvelopeError.malformed
    | some device_id ↦ elim r.sign_pub [
      | none ↦ err EnvelopeError.malformed
      | some sign_pub ↦ elim r.kx_pub [
        | none ↦ err EnvelopeError.malformed
        | some kx_pub ↦
            ok (record { device_id = device_id; sign_pub = sign_pub; kx_pub = kx_pub; fw = r.fw })
      ]
    ]
  ]

  unfoldable pub enrollment_decode : List ℕ → Result Enrollment
  enrollment_decode payload = Decode.map payload >>= λ (n, bs).
      enrollment_fields n (record { device_id = none; sign_pub = none; kx_pub = none; fw = [] }) bs
      >>= λ r. enrollment_of r

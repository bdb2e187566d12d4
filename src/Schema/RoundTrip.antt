-- ===== src/Schema/RoundTrip.antt =====
-- What the device writes for the server, the server reads
-- (firmware/ephemerkey-envelope/src/schema.rs).
use mathlib.Core.List.{append_assoc, append-nil}
use ephemerkey.Common.{
  ℕ, suc, ◌+◌, ◌<◌, ◌≤◌, ◌^◌, ◌≡◌, refl, ap, ◌∙◌, true, Option, none, some, List, [], ◌∷◌, ◌++◌,
  length, arith, All,
}
use ephemerkey.Cbor.{ok}
use ephemerkey.Cbor.Encode
use ephemerkey.Cbor.RoundTrip.{
  head_bytes, bstr_bytes, head-Wrote, bstr-Wrote, expect-head_bytes, bstr-bstr_bytes,
}
use ephemerkey.Envelope.Bytes.{Writes, Writes-then, Writes-done}
use ephemerkey.Envelope.Signing.{bstr_at_end}
use ephemerkey.Schema.{
  ack_encode, ack_fields, ack_decode, Event, as_u64, extra_field, event_encode, Partly, no_event,
  event_fields, read_one, read_events,
}

abbrev ack_bytes : ℕ → List ℕ → List ℕ
ack_bytes seq hash =
    (((head_bytes 5 2 ++ head_bytes 0 1) ++ head_bytes 0 seq) ++ head_bytes 0 2)
    ++ bstr_bytes 2 hash

ack_encode_lem :
    (cap seq : ℕ) (hash t : List ℕ) → ack_encode cap seq hash ≡ ok t → t ≡ ack_bytes seq hash
unfolding ack_encode
ack_encode_lem cap seq hash t h =
    Writes-done _ (ack_bytes seq hash) t cap
      (Writes-then _ (Encode.bstr hash) _ (bstr_bytes 2 hash)
        (Writes-then _ (Encode.uint 2) _ (head_bytes 0 2)
          (Writes-then _ (Encode.uint seq) _ (head_bytes 0 seq)
            (Writes-then (Encode.map 2) (Encode.uint 1) (head_bytes 5 2) (head_bytes 0 1)
              (head-Wrote 5 2) (head-Wrote 0 1))
            (head-Wrote 0 seq))
          (head-Wrote 0 2))
        (bstr-Wrote 2 hash))
      h

nest4 : (a b c d : List ℕ) → ((a ++ b) ++ c) ++ d ≡ a ++ (b ++ (c ++ d))
nest4 a b c d = append_assoc (a ++ b) c d ∙ append_assoc a b (c ++ d)

-- An acknowledgement that `ack_encode` wrote, of a 64-bit number and a hash of 32 bytes, `ack_decode`
-- reads.
pub ack_decode-ack_encode :
    (cap seq : ℕ) (hash payload : List ℕ)
    → seq < 2 ^ 64
    → length hash ≡ 32
    → ack_encode cap seq hash ≡ ok payload
    → ack_decode payload ≡ ok (seq, hash)
unfolding ack_decode ack_fields
ack_decode-ack_encode cap seq hash payload ls lh h =
    let tail = head_bytes 0 2 ++ bstr_bytes 2 hash in
    let e =
      ack_encode_lem cap seq hash payload h
      ∙ (append_assoc ((head_bytes 5 2 ++ head_bytes 0 1) ++ head_bytes 0 seq) (head_bytes 0 2)
            (bstr_bytes 2 hash)
          ∙ nest4 (head_bytes 5 2) (head_bytes 0 1) (head_bytes 0 seq) tail) in
    rw
      (
        e,
        expect-head_bytes 5 2 (head_bytes 0 1 ++ (head_bytes 0 seq ++ tail)) (omega arith)
            (omega arith),
        expect-head_bytes 0 1 (head_bytes 0 seq ++ tail) (omega arith) (omega arith),
        expect-head_bytes 0 seq tail (omega arith) ls,
        expect-head_bytes 0 2 (bstr_bytes 2 hash) (omega arith) (omega arith),
        bstr_at_end hash (omega arith),
        lh,
      )
      refl

-- The numbers of an event are of 64 bits, and its byte strings fit a length of 32 bits.
abbrev pub ExtraFits : Option (List ℕ) → Type 0
ExtraFits none = Unit {0}
ExtraFits (some b) = length b < 2 ^ 32

pub record EventFits (ev : Event) : Type 0 where
  pub seq_fits : ev.seq < 2 ^ 64
  pub ts_fits : ev.rtc_ts < 2 ^ 64
  pub kind_fits : ev.kind < 2 ^ 64
  pub detail_fits : ExtraFits ev.detail
  pub tag_fits : ExtraFits ev.chain_tag

abbrev extra_bytes : ℕ → Option (List ℕ) → List ℕ
extra_bytes key none = []
extra_bytes key (some b) = head_bytes 0 key ++ bstr_bytes 2 b

extra-Writes : (key : ℕ) (o : Option (List ℕ)) → Writes (extra_field key o) (extra_bytes key o)
extra-Writes key none = λ e e' h. let q : e' ≡ e = cc in rw (append-nil e.out) q
extra-Writes key (some b) =
    Writes-then (Encode.uint key) (Encode.bstr b) _ _ (head-Wrote 0 key) (bstr-Wrote 2 b)

abbrev event_bytes : Event → List ℕ
event_bytes ev =
    (((((((head_bytes 5 (3 + (as_u64 ev.detail + as_u64 ev.chain_tag)) ++ head_bytes 0 1)
                ++ head_bytes 0 ev.seq)
              ++ head_bytes 0 3)
            ++ head_bytes 0 ev.rtc_ts)
          ++ head_bytes 0 4)
        ++ head_bytes 0 ev.kind)
      ++ extra_bytes 5 ev.detail)
    ++ extra_bytes 6 ev.chain_tag

pub event_encode-Writes : (ev : Event) → Writes (event_encode ev) (event_bytes ev)
unfolding event_encode
event_encode-Writes ev =
    Writes-then _ (extra_field 6 ev.chain_tag) _ _
      (Writes-then _ (extra_field 5 ev.detail) _ _
        (Writes-then _ (Encode.uint ev.kind) _ _
          (Writes-then _ (Encode.uint 4) _ _
            (Writes-then _ (Encode.uint ev.rtc_ts) _ _
              (Writes-then _ (Encode.uint 3) _ _
                (Writes-then _ (Encode.uint ev.seq) _ _
                  (Writes-then (Encode.map _) (Encode.uint 1) _ _ (head-Wrote 5 _) (head-Wrote 0 1))
                  (head-Wrote 0 ev.seq))
                (head-Wrote 0 3))
              (head-Wrote 0 ev.rtc_ts))
            (head-Wrote 0 4))
          (head-Wrote 0 ev.kind))
        (extra-Writes 5 ev.detail))
      (extra-Writes 6 ev.chain_tag)

seq_field :
    (n v : ℕ) (p : Partly) (bs : List ℕ)
    → v < 2 ^ 64
    → event_fields (suc n) p (head_bytes 0 1 ++ (head_bytes 0 v ++ bs))
      ≡ event_fields n (record p { event = record p.event { seq = v }; got_seq = true }) bs
unfolding event_fields
seq_field n v p bs lv =
    rw
      (
        expect-head_bytes 0 1 (head_bytes 0 v ++ bs) (omega arith) (omega arith),
        expect-head_bytes 0 v bs (omega arith) lv,
      )
      refl

ts_field :
    (n v : ℕ) (p : Partly) (bs : List ℕ)
    → v < 2 ^ 64
    → event_fields (suc n) p (head_bytes 0 3 ++ (head_bytes 0 v ++ bs))
      ≡ event_fields n (record p { event = record p.event { rtc_ts = v } }) bs
unfolding event_fields
ts_field n v p bs lv =
    rw
      (
        expect-head_bytes 0 3 (head_bytes 0 v ++ bs) (omega arith) (omega arith),
        expect-head_bytes 0 v bs (omega arith) lv,
      )
      refl

kind_field :
    (n v : ℕ) (p : Partly) (bs : List ℕ)
    → v < 2 ^ 64
    → event_fields (suc n) p (head_bytes 0 4 ++ (head_bytes 0 v ++ bs))
      ≡ event_fields n (record p { event = record p.event { kind = v }; got_kind = true }) bs
unfolding event_fields
kind_field n v p bs lv =
    rw
      (
        expect-head_bytes 0 4 (head_bytes 0 v ++ bs) (omega arith) (omega arith),
        expect-head_bytes 0 v bs (omega arith) lv,
      )
      refl

detail_field :
    (n : ℕ) (o : Option (List ℕ)) (p : Partly) (bs : List ℕ)
    → ExtraFits o
    → p.event.detail ≡ none
    → event_fields (as_u64 o + n) p (extra_bytes 5 o ++ bs)
      ≡ event_fields n (record p { event = record p.event { detail = o } }) bs
unfolding event_fields
detail_field n none p bs fits h =
    let z : 0 + n ≡ n = omega arith in
    rw z (
      ap
        (λ (o : Option (List ℕ)).
          event_fields n (record p { event = record p.event { detail = o } }) bs)
        h)
detail_field n (some b) p bs fits h =
    let z : 1 + n ≡ suc n = omega arith in
    rw
      (
        z,
        append_assoc (head_bytes 0 5) (bstr_bytes 2 b) bs,
        expect-head_bytes 0 5 (bstr_bytes 2 b ++ bs) (omega arith) (omega arith),
        bstr-bstr_bytes b bs fits,
      )
      refl

tag_field :
    (o : Option (List ℕ)) (p : Partly) (bs : List ℕ)
    → ExtraFits o
    → p.event.chain_tag ≡ none
    → event_fields (as_u64 o) p (extra_bytes 6 o ++ bs)
      ≡ ok (record p { event = record p.event { chain_tag = o } }, bs)
unfolding event_fields
tag_field none p bs fits h =
    ap (λ (o : Option (List ℕ)). ok (record p { event = record p.event { chain_tag = o } }, bs)) h
tag_field (some b) p bs fits h =
    rw
      (
        append_assoc (head_bytes 0 6) (bstr_bytes 2 b) bs,
        expect-head_bytes 0 6 (bstr_bytes 2 b ++ bs) (omega arith) (omega arith),
        bstr-bstr_bytes b bs fits,
      )
      refl

as_u64-le : (o : Option (List ℕ)) → as_u64 o ≤ 1
as_u64-le none = omega arith
as_u64-le (some b) = omega arith

nest9 :
    (a b c d e f g h i rest : List ℕ)
    → ((((((((a ++ b) ++ c) ++ d) ++ e) ++ f) ++ g) ++ h) ++ i) ++ rest
      ≡ a ++ (b ++ (c ++ (d ++ (e ++ (f ++ (g ++ (h ++ (i ++ rest))))))))
nest9 a b c d e f g h i rest = simp append_assoc

event_nested :
    (ev : Event) (rest : List ℕ)
    → event_bytes ev ++ rest
      ≡ head_bytes 5 (3 + (as_u64 ev.detail + as_u64 ev.chain_tag))
        ++ (head_bytes 0 1
            ++ (head_bytes 0 ev.seq
                ++ (head_bytes 0 3
                    ++ (head_bytes 0 ev.rtc_ts
                        ++ (head_bytes 0 4
                            ++ (head_bytes 0 ev.kind
                                ++ (extra_bytes 5 ev.detail
                                    ++ (extra_bytes 6 ev.chain_tag ++ rest))))))))
event_nested ev rest =
    nest9 (head_bytes 5 (3 + (as_u64 ev.detail + as_u64 ev.chain_tag))) (head_bytes 0 1)
      (head_bytes 0 ev.seq) (head_bytes 0 3) (head_bytes 0 ev.rtc_ts) (head_bytes 0 4)
      (head_bytes 0 ev.kind) (extra_bytes 5 ev.detail) (extra_bytes 6 ev.chain_tag) rest

read_one-event_bytes :
    (ev : Event) (rest : List ℕ) → EventFits ev → read_one (event_bytes ev ++ rest) ≡ ok (ev, rest)
unfolding read_one
read_one-event_bytes ev rest f =
    let n = as_u64 ev.detail + as_u64 ev.chain_tag in
    let a = as_u64-le ev.detail in
    let b = as_u64-le ev.chain_tag in
    let tail = extra_bytes 5 ev.detail ++ (extra_bytes 6 ev.chain_tag ++ rest) in
    let kind = head_bytes 0 4 ++ (head_bytes 0 ev.kind ++ tail) in
    let ts = head_bytes 0 3 ++ (head_bytes 0 ev.rtc_ts ++ kind) in
    let e3 : 3 + n ≡ suc (suc (suc n)) = omega arith in
    let p1 : Partly = record no_event {
      event = record no_event.event { seq = ev.seq };
      got_seq = true;
    } in
    let p2 : Partly = record p1 { event = record p1.event { rtc_ts = ev.rtc_ts } } in
    let p3 : Partly = record p2 { event = record p2.event { kind = ev.kind }; got_kind = true } in
    let p4 : Partly = record p3 { event = record p3.event { detail = ev.detail } } in
    let fields : event_fields (suc (suc (suc n))) no_event
          (head_bytes 0 1 ++ (head_bytes 0 ev.seq ++ ts))
        ≡ ok (record p4 { event = ev }, rest) =
      seq_field (suc (suc n)) ev.seq no_event ts f.seq_fits
      ∙ (ts_field (suc n) ev.rtc_ts p1 kind f.ts_fits
          ∙ (kind_field n ev.kind p2 tail f.kind_fits
              ∙ (detail_field (as_u64 ev.chain_tag) ev.detail p3
                    (extra_bytes 6 ev.chain_tag ++ rest) f.detail_fits refl
                  ∙ tag_field ev.chain_tag p4 rest f.tag_fits refl))) in
    rw (event_nested ev rest) (
      rw
        (expect-head_bytes 5 (3 + n) (head_bytes 0 1 ++ (head_bytes 0 ev.seq ++ ts)) (omega arith)
          (omega arith))
        (rw e3 (rw fields refl)))

-- The events of a batch.
abbrev pub batch_bytes : List Event → List ℕ
batch_bytes [] = []
batch_bytes (ev ∷ evs) = event_bytes ev ++ batch_bytes evs

pub read_events-batch_bytes :
    (evs : List Event) → All EventFits evs → read_events (length evs) (batch_bytes evs) ≡ ok evs
unfolding read_events
read_events-batch_bytes [] fits = refl
read_events-batch_bytes (ev ∷ evs) (f, fits) =
    rw (read_one-event_bytes ev (batch_bytes evs) f, read_events-batch_bytes evs fits) refl

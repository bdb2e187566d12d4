-- ===== src/Provision/Session.antt =====
-- The handlers of the other frames, and the link (firmware/ephemerkey-provision/src/lib.rs).
use ephemerkey.Common.{
  ℕ, zero, suc, ◌+◌, Bool, false, not, Option, none, some, ltb, leb, ◌==◌, ◌||◌, if◌then◌else◌, u32,
  List, [], ◌∷◌, ◌++◌, length, take, drop, get_u32, get_or, Run,
}
use ephemerkey.Cbor.{Result, ok, err, Enc, new_enc, ◌>>=◌}
use ephemerkey.Cbor.Encode
use ephemerkey.Cbor.Decode
use ephemerkey.Wire.{from_le_bytes, max_payload, encode}
use ephemerkey.Wire
use ephemerkey.Schema.{Event, event_encode}
use ephemerkey.Provision.{
  StoreOps, Crates, Xfer, Provisioner, Response, err_response, write_at, config_max, identity_req,
  identity_frame, challenge_frame, challenge_sig, config_begin, config_chunk, config_commit,
  events_req, events_frame, wifi_set_frame, wifi_status_req, wifi_status, ok_frame, bad_state,
  storage,
}
use ephemerkey.Provision.Verify.{signed_response, commit}

-- "ek-identify-v1".
abbrev pub ek_identify : List ℕ
ek_identify = 101 ∷ 107 ∷ 45 ∷ 105 ∷ 100 ∷ 101 ∷ 110 ∷ 116 ∷ 105 ∷ 102 ∷ 121 ∷ 45 ∷ 118 ∷ 49 ∷ []

-- `Dec::uint` and `Dec::tstr` with `.ok()`, and where they leave the decoder when they fail.
abbrev pub after_uint : Result ((ℕ × ℕ) × List ℕ) → List ℕ → Option ℕ × List ℕ
after_uint (err e) bs = (none, drop 1 bs)
after_uint (ok ((major, v), rest)) bs = (if major == 0 then some v else none, rest)

abbrev pub try_uint : List ℕ → Option ℕ × List ℕ
try_uint bs = after_uint (Decode.head bs) bs

abbrev pub after_text :
    (List ℕ → Bool) → Result (List ℕ × List ℕ) → List ℕ → Option (List ℕ) × List ℕ
after_text is_utf8 (err e) rest = (none, rest)
after_text is_utf8 (ok (s, rest')) rest = (if is_utf8 s then some s else none, rest')

abbrev pub after_head :
    (List ℕ → Bool) → Result ((ℕ × ℕ) × List ℕ) → List ℕ → Option (List ℕ) × List ℕ
after_head is_utf8 (err e) bs = (none, drop 1 bs)
after_head is_utf8 (ok ((major, v), rest)) bs =
    if major == 3 then after_text is_utf8 (Decode.take_bytes (u32 v) rest) rest else (none, rest)

abbrev pub try_tstr : (List ℕ → Bool) → List ℕ → Option (List ℕ) × List ℕ
try_tstr is_utf8 bs = after_head is_utf8 (Decode.head bs) bs

abbrev pub key_is : Option ℕ → ℕ → Bool
key_is none n = false
key_is (some k) n = k == n

-- The loop of `wifi_set`.
unfoldable pub wifi_fields :
    (List ℕ → Bool)
    → ℕ
    → Option (List ℕ)
    → Option (List ℕ)
    → List ℕ
    → Result (Option (List ℕ) × Option (List ℕ))
wifi_fields is_utf8 zero ssid psk bs = ok (ssid, psk)
wifi_fields is_utf8 (suc n) ssid psk bs =
    let (key, bs) = try_uint bs in
    if key_is key 1
    then (let (s, bs) = try_tstr is_utf8 bs in wifi_fields is_utf8 n s psk bs)
    else if key_is key 2
    then (let (s, bs) = try_tstr is_utf8 bs in wifi_fields is_utf8 n ssid s bs)
    else (Decode.skip bs >>= λ bs. wifi_fields is_utf8 n ssid psk bs)

abbrev pub or_empty : Option (List ℕ) → List ℕ
or_empty none = []
or_empty (some s) = s

-- The entries of the ring behind the sequence number `after`.
abbrev pub newer_than : ℕ → List (ℕ × ℕ × ℕ) → List Event
newer_than after [] = []
newer_than after ((seq, ts, kind) ∷ es) =
    let rest = newer_than after es in
    if ltb after seq
    then record { seq = seq; rtc_ts = ts; kind = kind; detail = none; chain_tag = none } ∷ rest
    else rest

unfoldable pub encode_events : List Event → Enc → Result Enc
encode_events [] e = ok e
encode_events (ev ∷ evs) e = event_encode ev e >>= λ e. encode_events evs e

unfoldable pub events_batch : List Event → Result (List ℕ)
events_batch evs =
    Encode.array (length evs) (new_enc 512) >>= (λ e. encode_events evs e) >>= λ e. ok e.out

-- The frames of the queue, each with its response as `encode` puts it on the wire.
abbrev pub sent : Option (List ℕ) → List (List ℕ) → List (List ℕ)
sent none rest = rest
sent (some bytes) rest = bytes ∷ rest

module _ {S : Type 0} (ops : StoreOps S) (crates : Crates) where
  unfoldable pub challenge : Provisioner S → List ℕ → Provisioner S × Response
  challenge p nonce =
      (p, (challenge_sig, crates.crypto.sign p.id.sign (ek_identify ++ take 64 nonce)))

  unfoldable pub begin : Provisioner S → List ℕ → Provisioner S × Response
  begin p payload =
      let len = from_le_bytes (get_or payload 0 0) (get_or payload 1 0) in
      if not (length payload == 10)
      then (p, err_response bad_state)
      else if len == 0 || ltb config_max len
      then (p, err_response bad_state)
      else (
        record p {
          xfer = some (record {
            len = len;
            filled = 0;
            seq_hint = get_u32 (drop 2 payload);
            crc = get_u32 (drop 6 payload);
          });
        },
        (ok_frame, []),
      )

  unfoldable pub chunk_of : Provisioner S → Option Xfer → List ℕ → Provisioner S × Response
  chunk_of p none payload = (p, err_response bad_state)
  chunk_of p (some x) payload =
      let off = from_le_bytes (get_or payload 0 0) (get_or payload 1 0) in
      let piece = drop 2 payload in
      if ltb (length payload) 2
      then (p, err_response bad_state)
      else if ltb x.len (off + length piece)
      then (p, err_response bad_state)
      else (
        record p {
          cfg_buf = write_at p.cfg_buf off piece;
          xfer = some (record x { filled = u32 (x.filled + length piece) });
        },
        (ok_frame, []),
      )

  unfoldable pub chunk : Provisioner S → List ℕ → Provisioner S × Response
  chunk p payload = chunk_of p p.xfer payload

  unfoldable pub identity : Provisioner S → Provisioner S × Response
  identity p = (
    p,
    signed_response crates p.id identity_frame (
        Encode.map 4 (new_enc 128)
        >>= (λ e. Encode.uint 1 e)
        >>= (λ e. Encode.bstr p.id.device_id e)
        >>= (λ e. Encode.uint 2 e)
        >>= (λ e. Encode.bstr (crates.public_key p.id.sign) e)
        >>= (λ e. Encode.uint 3 e)
        >>= (λ e. Encode.bstr (crates.crypto.kx_public p.id.kx_priv) e)
        >>= (λ e. Encode.uint 4 e)
        >>= (λ e. Encode.tstr p.id.fw e)
        >>= λ e. ok e.out),
  )

  unfoldable pub events_resp : Provisioner S → List ℕ → Provisioner S × Response
  events_resp p payload =
      let after = if leb 4 (length payload) then get_u32 payload else 0 in
      (p, signed_response crates p.id events_frame (events_batch (newer_than after p.events)))

  abbrev pub wifi_result : Provisioner S → S × Bool → Provisioner S × Response
  wifi_result p (store, done) =
      (record p { store = store }, if done then (ok_frame, []) else err_response storage)

  abbrev pub wifi_store :
      Provisioner S → Option (List ℕ) → Option (List ℕ) → Provisioner S × Response
  wifi_store p none psk = (p, err_response bad_state)
  wifi_store p (some []) psk = wifi_result p (ops.wifi_clear p.store)
  wifi_store p (some (c ∷ cs)) psk = wifi_result p (ops.wifi_set p.store (c ∷ cs) (or_empty psk))

  abbrev pub wifi_read :
      Provisioner S → Result (Option (List ℕ) × Option (List ℕ)) → Provisioner S × Response
  wifi_read p (err e) = (p, err_response bad_state)
  wifi_read p (ok (ssid, psk)) = wifi_store p ssid psk

  unfoldable pub wifi_set : Provisioner S → List ℕ → Provisioner S × Response
  wifi_set p payload =
      wifi_read p (Decode.map payload >>= λ (n, bs). wifi_fields crates.is_utf8 n none none bs)

  abbrev pub status_of : Result (List ℕ) → Response
  status_of (ok bytes) = (wifi_status, bytes)
  status_of (err e) = err_response bad_state

  unfoldable pub wifi_status_resp : Provisioner S → Provisioner S × Response
  wifi_status_resp p = (
    p,
    status_of (
        Encode.map 2 (new_enc max_payload)
        >>= (λ e. Encode.uint 1 e)
        >>= (λ e. Encode.uint 0 e)
        >>= (λ e. Encode.uint 2 e)
        >>= (λ e. Encode.tstr (or_empty (ops.wifi_ssid p.store)) e)
        >>= λ e. ok e.out),
  )

  unfoldable pub handle : Provisioner S → ℕ → List ℕ → Provisioner S × Response
  handle p ftype payload =
      if ftype == identity_req
      then identity p
      else if ftype == challenge_frame
      then challenge p payload
      else if ftype == config_begin
      then begin p payload
      else if ftype == config_chunk
      then chunk p payload
      else if ftype == config_commit
      then commit ops crates p
      else if ftype == events_req
      then events_resp p payload
      else if ftype == wifi_set_frame
      then wifi_set p payload
      else if ftype == wifi_status_req
      then wifi_status_resp p
      else (p, err_response bad_state)

  unfoldable pub handle_all : Provisioner S → List (ℕ × List ℕ) → Provisioner S × List (List ℕ)
  handle_all p [] = (p, [])
  handle_all p ((ftype, payload) ∷ fs) =
      let (p1, (rtype, resp)) = handle p ftype payload in
      let (p2, out) = handle_all p1 fs in (p2, sent (encode (max_payload + 8) rtype resp) out)

  -- The queue holds two frames: those behind them in one call are dropped.
  abbrev pub handled :
      Provisioner S → Run (List ℕ × List (ℕ × List ℕ)) → Run (Provisioner S × List (List ℕ))
  handled p none = none
  handled p (some (buf, frames)) = some (handle_all (record p { parser = buf }) (take 2 frames))

  unfoldable pub feed : Provisioner S → List ℕ → Run (Provisioner S × List (List ℕ))
  feed p bytes = handled p (Wire.feed p.parser bytes)

-- ===== src/Envelope/Opening.antt =====
-- How `peek` and `open` read a sealed envelope (firmware/ephemerkey-envelope/src/lib.rs).
use mathlib.Core.List.{append_assoc, append-nil}
use ephemerkey.Common.{
  ℕ, ◌^◌, ◌<◌, ◌≤◌, ◌≡◌, refl, sym, ap, ◌∙◌, none, some, List, [], ◌∷◌, ◌++◌, length, arith, true,
  false, ltb,
}
use ephemerkey.Cbor.{ok}
use ephemerkey.Cbor.Decode
use ephemerkey.Cbor.RoundTrip.{
  head_bytes, int_bytes, bstr_bytes, expect-head_bytes, int-int_bytes, bstr-bstr_bytes,
}
use ephemerkey.Envelope.{
  Crypto, Route, hdr_alg, alg_a128gcm, hdr_kid, hdr_seq, hdr_iv, hdr_eph, find_route, find_keys,
  peek, decrypt, open_with,
}
use ephemerkey.Envelope.Bytes.{protected_bytes}
use ephemerkey.Envelope.Signing.{bstr_at_end}

-- The protected header, nested as it is read.
abbrev pub route_bytes : ℕ → List ℕ → List ℕ
route_bytes seq target =
    int_bytes hdr_alg
    ++ (int_bytes alg_a128gcm
        ++ (int_bytes hdr_kid ++ (bstr_bytes 2 target ++ (int_bytes hdr_seq ++ head_bytes 0 seq))))

pub protected_nested :
    (seq : ℕ) (target : List ℕ)
    → protected_bytes seq target ≡ head_bytes 5 3 ++ route_bytes seq target
protected_nested seq target =
    ap (λ l. 0xa3 ∷ (1 ∷ (1 ∷ (4 ∷ l))))
      (append_assoc (bstr_bytes 2 target) (int_bytes hdr_seq) (head_bytes 0 seq))

uint_at_end : (v : ℕ) → v < 2 ^ 64 → Decode.uint (head_bytes 0 v) ≡ ok (v, [])
uint_at_end v lt =
    ap Decode.uint (sym (append-nil (head_bytes 0 v))) ∙ expect-head_bytes 0 v [] (omega arith) lt

abbrev no_route : Route
no_route = record { seq = none; target = none; alg_ok = false }

route_found :
    (seq : ℕ) (target : List ℕ)
    → seq < 2 ^ 64
    → length target < 2 ^ 32
    → find_route 3 no_route (route_bytes seq target)
      ≡ ok (record { seq = some seq; target = some target; alg_ok = true })
unfolding find_route
route_found seq target ls lt =
    let tail = int_bytes hdr_seq ++ head_bytes 0 seq in
    rw
      (
        int-int_bytes hdr_alg
            (int_bytes alg_a128gcm ++ (int_bytes hdr_kid ++ (bstr_bytes 2 target ++ tail)))
            (omega arith),
        int-int_bytes alg_a128gcm (int_bytes hdr_kid ++ (bstr_bytes 2 target ++ tail))
            (omega arith),
        int-int_bytes hdr_kid (bstr_bytes 2 target ++ tail) (omega arith),
        bstr-bstr_bytes target tail lt,
        int-int_bytes hdr_seq (head_bytes 0 seq) (omega arith),
        uint_at_end seq ls,
      )
      refl

-- The envelope, nested as it is read.
abbrev pub sealed_rest : List ℕ → List ℕ → List ℕ → List ℕ
sealed_rest iv eph body =
    head_bytes 5 2
    ++ (int_bytes hdr_iv
        ++ (bstr_bytes 2 iv ++ (int_bytes hdr_eph ++ (bstr_bytes 2 eph ++ bstr_bytes 2 body))))

abbrev pub sealed_bytes : List ℕ → List ℕ → List ℕ → List ℕ → List ℕ
sealed_bytes protected iv eph body =
    head_bytes 4 3 ++ (bstr_bytes 2 protected ++ sealed_rest iv eph body)

keys_found :
    (iv eph body : List ℕ)
    → length iv ≡ 12
    → length eph ≡ 32
    → find_keys 2 none none (
        int_bytes hdr_iv
        ++ (bstr_bytes 2 iv ++ (int_bytes hdr_eph ++ (bstr_bytes 2 eph ++ bstr_bytes 2 body))))
      ≡ ok ((some iv, some eph), bstr_bytes 2 body)
unfolding find_keys
keys_found iv eph body li le =
    let rest = int_bytes hdr_eph ++ (bstr_bytes 2 eph ++ bstr_bytes 2 body) in
    rw
      (
        int-int_bytes hdr_iv (bstr_bytes 2 iv ++ rest) (omega arith),
        bstr-bstr_bytes iv rest (omega arith),
        int-int_bytes hdr_eph (bstr_bytes 2 eph ++ bstr_bytes 2 body) (omega arith),
        bstr-bstr_bytes eph (bstr_bytes 2 body) (omega arith),
      )
      refl

module _ (seq : ℕ) (target protected iv eph body : List ℕ) (ls : seq < 2 ^ 64)
    (lt : length target < 2 ^ 32) (lp : length protected < 2 ^ 32)
    (routed : protected ≡ head_bytes 5 3 ++ route_bytes seq target) where
  array_read :
      Decode.array (sealed_bytes protected iv eph body)
      ≡ ok (3, bstr_bytes 2 protected ++ sealed_rest iv eph body)
  array_read =
      expect-head_bytes 4 3 (bstr_bytes 2 protected ++ sealed_rest iv eph body) (omega arith)
        (omega arith)

  protected_read :
      Decode.bstr (bstr_bytes 2 protected ++ sealed_rest iv eph body)
      ≡ ok (protected, sealed_rest iv eph body)
  protected_read = bstr-bstr_bytes protected (sealed_rest iv eph body) lp

  map_read : Decode.map protected ≡ ok (3, route_bytes seq target)
  map_read =
      ap Decode.map routed
      ∙ expect-head_bytes 5 3 (route_bytes seq target) (omega arith) (omega arith)

  pub peek_sealed : peek (sealed_bytes protected iv eph body) ≡ ok (seq, target)
  unfolding peek
  peek_sealed = rw (array_read, protected_read, map_read, route_found seq target ls lt) refl

  pub open_sealed :
      (crypto : Crypto) (out : ℕ) (secret : List ℕ)
      → length iv ≡ 12
      → length eph ≡ 32
      → length body < 2 ^ 32
      → 16 ≤ length body
      → open_with crypto (sealed_bytes protected iv eph body) out secret
        ≡ decrypt crypto out protected iv eph body secret seq
  unfolding open_with
  open_sealed crypto out secret li le lb tagged =
      let counted =
        expect-head_bytes 5 2
          (int_bytes hdr_iv
            ++ (bstr_bytes 2 iv ++ (int_bytes hdr_eph ++ (bstr_bytes 2 eph ++ bstr_bytes 2 body))))
          (omega arith) (omega arith) in
      let long : ltb (length body) 16 ≡ false = ground arith in
      rw
        (
          peek_sealed,
          array_read,
          protected_read,
          counted,
          keys_found iv eph body li le,
          bstr_at_end body lb,
        )
        (rw (li, le, long) refl)

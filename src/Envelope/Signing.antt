-- ===== src/Envelope/Signing.antt =====
-- Signed envelopes: what `sign1_verify` accepts, and that it accepts what `sign1_write` wrote
-- (firmware/ephemerkey-envelope/src/lib.rs).
use mathlib.Core.List.{append-nil, append_assoc}
use ephemerkey.Common.{
  ℕ, ◌^◌, ◌<◌, ◌≡◌, refl, sym, ap, ◌∙◌, Option, none, some, drop, List, [], ◌∷◌, ◌++◌, length,
  arith, true, false, Bool-cases, inl, inr,
}
use ephemerkey.Cbor.{ok}
use ephemerkey.Cbor.Decode
use ephemerkey.Cbor.RoundTrip.{
  int_bytes, bstr_bytes, both_ok, expect-head_bytes, int-int_bytes, bstr-bstr_bytes,
}
use ephemerkey.Envelope.{
  Crypto, Sign1, sig_structure, sign1_protected, hdr_kid, sign1_parse, find_kid, find_alg,
  sign1_write, sign1_verify, check_signature,
}
use ephemerkey.Envelope.Bytes.{sig_structure_lem, sign1_bytes, sign1_bytes_lem, kid_bytes}

-- What the envelope relies on of Ed25519: a signature is 64 bytes that the public key verifies.
pub record SignLaws (crypto : Crypto) (public_key : List ℕ → List ℕ) : Type 0 where
  pub verifies : (k m : List ℕ) → crypto.verify (public_key k) m (crypto.sign k m) ≡ true
  pub well_formed : (k m : List ℕ) → crypto.is_signature (crypto.sign k m) ≡ true
  pub signature_length : (k m : List ℕ) → length (crypto.sign k m) ≡ 64

-- A name that fits a length of 32 bits, or none.
abbrev pub KidFits : Option (List ℕ) → Type 0
KidFits none = Unit {0}
KidFits (some k) = length k < 2 ^ 32

kid_read :
    (kid : Option (List ℕ)) (rest : List ℕ)
    → KidFits kid
    → (n : ℕ) × (bs : List ℕ) × (Decode.map (kid_bytes kid ++ rest) ≡ ok (n, bs))
      × (find_kid n none bs ≡ ok (kid, rest))
unfolding find_kid
kid_read none rest fits = (0, rest, expect-head_bytes 5 0 rest (omega arith) (omega arith), refl)
kid_read (some k) rest fits = (
  1,
  int_bytes hdr_kid ++ (bstr_bytes 2 k ++ rest),
  expect-head_bytes 5 1 (int_bytes hdr_kid ++ (bstr_bytes 2 k ++ rest)) (omega arith) (omega arith),
  rw (int-int_bytes hdr_kid (bstr_bytes 2 k ++ rest) (omega arith), bstr-bstr_bytes k rest fits)
      refl,
)

-- A byte string at the end of the bytes.
pub bstr_at_end : (b : List ℕ) → length b < 2 ^ 32 → Decode.bstr (bstr_bytes 2 b) ≡ ok (b, [])
bstr_at_end b lt = ap Decode.bstr (sym (append-nil (bstr_bytes 2 b))) ∙ bstr-bstr_bytes b [] lt

pub sign1_parse-sign1_bytes :
    (kid : Option (List ℕ)) (payload sig : List ℕ)
    → KidFits kid
    → length payload < 2 ^ 32
    → length sig < 2 ^ 32
    → sign1_parse (sign1_bytes kid payload sig)
      ≡ ok (record { protected = sign1_protected; kid = kid; payload = payload; sig = sig })
unfolding sign1_parse
sign1_parse-sign1_bytes kid payload sig fk fp fs =
    let rest = bstr_bytes 2 payload ++ bstr_bytes 2 sig in
    let (n, bs, counted, found) = kid_read kid rest fk in
    let four =
      expect-head_bytes 4 4 (bstr_bytes 2 sign1_protected ++ (kid_bytes kid ++ rest)) (omega arith)
        (omega arith) in
    rw
      (
        four,
        bstr-bstr_bytes sign1_protected (kid_bytes kid ++ rest) (omega arith),
        counted,
        found,
        bstr-bstr_bytes payload (bstr_bytes 2 sig) fp,
        bstr_at_end sig fs,
      )
      refl

protected_counted : Decode.map sign1_protected ≡ ok (1, 0x01 ∷ (0x27 ∷ []))
unfolding Decode.head Decode.byte
protected_counted = refl

alg_found : find_alg 1 false (0x01 ∷ (0x27 ∷ [])) ≡ ok true
unfolding find_alg Decode.head Decode.byte
alg_found = refl

module _ (crypto : Crypto) (public_key : List ℕ → List ℕ) (laws : SignLaws crypto public_key) where
  -- Under the laws of the signature scheme: what `sign1_write` wrote of a payload and a name that fit
  -- 32-bit lengths, `sign1_verify` accepts under the public key of the signing key and with a scratch
  -- buffer of the same length, and returns them.
  pub sign1_verify-sign1_write :
      (out scratch : ℕ) (payload : List ℕ) (kid : Option (List ℕ)) (key blob : List ℕ)
      → KidFits kid
      → length payload < 2 ^ 32
      → sign1_write crypto out scratch payload kid key ≡ ok blob
      → sign1_verify crypto blob scratch (public_key key) ≡ ok (payload, kid)
  unfolding sign1_verify sign1_write check_signature
  sign1_verify-sign1_write out scratch payload kid key blob fk fp h =
      let (signed, at, written) = both_ok (sig_structure scratch sign1_protected payload) _ h in
      let sig = crypto.sign key signed in
      let q = sign1_bytes_lem out kid payload sig blob written in
      let len = laws.signature_length key signed in
      let parsed = sign1_parse-sign1_bytes kid payload sig fk fp (omega arith) in
      rw
        (
          q,
          parsed,
          protected_counted,
          alg_found,
          at,
          laws.well_formed key signed,
          laws.verifies key signed,
        )
        refl

check_signature_lem :
    (crypto : Crypto) (scratch : ℕ) (s : Sign1) (key payload : List ℕ) (kid : Option (List ℕ))
    → check_signature crypto scratch s key ≡ ok (payload, kid)
    → (signed : List ℕ) × (s.payload ≡ payload)
      × (s.kid ≡ kid)
      × (sig_structure scratch s.protected s.payload ≡ ok signed)
      × (crypto.verify key signed s.sig ≡ true)
unfolding check_signature
check_signature_lem crypto scratch s key payload kid h =
    let (signed, at, h4) = both_ok (sig_structure scratch s.protected s.payload) _ h in
    elim (Bool-cases (crypto.is_signature s.sig)) [
      | inr bad ↦ absurd (let e = rw bad at h4 in cc)
      | inl shaped ↦ elim (Bool-cases (crypto.verify key signed s.sig)) [
        | inr forged ↦ absurd (let e = rw (shaped, forged) at h4 in cc)
        | inl verified ↦
            let e : ok (s.payload, s.kid) ≡ ok (payload, kid) = rw (shaped, verified) at h4 in
            (signed, (cc), (cc), at, verified)
      ]
    ]

pub sign1_verify_sound :
    (crypto : Crypto) (blob : List ℕ) (scratch : ℕ) (key payload : List ℕ) (kid : Option (List ℕ))
    → sign1_verify crypto blob scratch key ≡ ok (payload, kid)
    → (s : Sign1) × (signed bs : List ℕ) × (n : ℕ) × (sign1_parse blob ≡ ok s)
      × (s.payload ≡ payload)
      × (s.kid ≡ kid)
      × (Decode.map s.protected ≡ ok (n, bs))
      × (find_alg n false bs ≡ ok true)
      × (sig_structure scratch s.protected s.payload ≡ ok signed)
      × (crypto.verify key signed s.sig ≡ true)
unfolding sign1_verify
sign1_verify_sound crypto blob scratch key payload kid h =
    let (s, parsed, h1) = both_ok (sign1_parse blob) _ h in
    let ((n, bs), counted, h2) = both_ok (Decode.map s.protected) _ h1 in
    let (alg, found, h3) = both_ok (find_alg n false bs) _ h2 in
    elim (Bool-cases alg) [
      | inr wrong ↦ absurd (let e = rw wrong at h3 in cc)
      | inl right ↦
          let (signed, p, k, at, verified) =
            check_signature_lem crypto scratch s key payload kid (rw right at h3) in
          (s, signed, bs, n, parsed, p, k, counted, found ∙ ap ok right, at, verified)
    ]

bstr-injective :
    (b b' rest rest' : List ℕ)
    → length b < 2 ^ 32
    → length b' < 2 ^ 32
    → bstr_bytes 2 b ++ rest ≡ bstr_bytes 2 b' ++ rest'
    → (b ≡ b') × (rest ≡ rest')
bstr-injective b b' rest rest' lb lb' same =
    let x = bstr-bstr_bytes b rest lb in
    let y = bstr-bstr_bytes b' rest' lb' in
    let q : ok (b, rest) ≡ ok (b', rest') = sym x ∙ (ap Decode.bstr same ∙ y) in ((cc), (cc))

-- Two signature structures of strings that fit 32-bit lengths are the same bytes only if they are of
-- the same protected header and payload: what was signed for one payload verifies no other.
pub sig_structure-injective :
    (cap cap' : ℕ) (protected payload protected' payload' signed : List ℕ)
    → length protected < 2 ^ 32
    → length protected' < 2 ^ 32
    → length payload < 2 ^ 32
    → length payload' < 2 ^ 32
    → sig_structure cap protected payload ≡ ok signed
    → sig_structure cap' protected' payload' ≡ ok signed
    → (protected ≡ protected') × (payload ≡ payload')
sig_structure-injective cap cap' protected payload protected' payload' signed lp lp' lm lm' h h' =
    let q = sig_structure_lem cap protected payload signed h in
    let q' = sig_structure_lem cap' protected' payload' signed h' in
    let tails = ap (drop 12) (sym q ∙ q') in
    let split = append_assoc (bstr_bytes 2 protected) (bstr_bytes 2 []) (bstr_bytes 2 payload) in
    let split' = append_assoc (bstr_bytes 2 protected') (bstr_bytes 2 []) (bstr_bytes 2 payload') in
    let (p, rest) = bstr-injective protected protected' _ _ lp lp' (sym split ∙ (tails ∙ split')) in
    let last : bstr_bytes 2 payload ≡ bstr_bytes 2 payload' = ap (drop 1) rest in
    let x = bstr_at_end payload lm in
    let y = bstr_at_end payload' lm' in
    let m : ok (payload, []) ≡ ok (payload', []) = sym x ∙ (ap Decode.bstr last ∙ y) in (p, (cc))

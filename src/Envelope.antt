-- ===== src/Envelope.antt =====
-- The signed and sealed envelope, profile "ekenv-v1": firmware/ephemerkey-envelope/src/lib.rs. The
-- cryptographic crates are a parameter. A function that writes into `out` takes the length of `out` and
-- returns the bytes that it wrote.
pub mod Bytes
pub mod Signing
pub mod Opening
pub mod Sealing
pub mod Toy
mod Tests
use ephemerkey.Common.{
  ℕ, zero, suc, ◌+◌, ◌-◌, Bool, true, false, not, Option, none, some, ltb, leb, ◌==◌, if◌then◌else◌,
  List, [], ◌∷◌, ◌++◌, length, take, drop,
}
use ephemerkey.Cbor.{Result, ok, err, ◌>>=◌, EnvelopeError, Enc, new_enc, ℤ, pos, negsuc, eq_int}
use ephemerkey.Cbor.Encode
use ephemerkey.Cbor.Decode

-- ed25519-dalek, x25519-dalek, hkdf with SHA-256, and the trait `AesGcm128`, over byte strings.
pub record Crypto : Type 0 where
  pub sign : List ℕ → List ℕ → List ℕ  -- the key, the message
  pub is_signature : List ℕ → Bool  -- `Signature::from_slice`
  pub verify : List ℕ → List ℕ → List ℕ → Bool  -- the public key, the message, the signature
  pub kx_public : List ℕ → List ℕ
  pub diffie_hellman : List ℕ → List ℕ → List ℕ  -- the secret, the other side's public key
  pub hkdf : List ℕ → List ℕ → List ℕ → List ℕ  -- the salt, the shared secret, the info
  pub seal : List ℕ → List ℕ → List ℕ → List ℕ → List ℕ × List ℕ  -- key, iv, aad, plaintext
  pub unseal : List ℕ → List ℕ → List ℕ → List ℕ → List ℕ → Option (List ℕ)  -- and the tag

abbrev pub alg_eddsa : ℤ
alg_eddsa = negsuc 7

abbrev pub alg_a128gcm : ℤ
alg_a128gcm = pos 1

abbrev pub hdr_alg : ℤ
hdr_alg = pos 1

abbrev pub hdr_kid : ℤ
hdr_kid = pos 4

abbrev pub hdr_iv : ℤ
hdr_iv = pos 5

abbrev pub hdr_seq : ℤ
hdr_seq = negsuc 65536

abbrev pub hdr_eph : ℤ
hdr_eph = negsuc 65537

abbrev pub sign1_protected : List ℕ
sign1_protected = 0xa1 ∷ (0x01 ∷ (0x27 ∷ []))

-- "Signature1", "Encrypt0" and "ekenv-v1".
abbrev pub signature1 : List ℕ
signature1 = 83 ∷ (105 ∷ (103 ∷ (110 ∷ (97 ∷ (116 ∷ (117 ∷ (114 ∷ (101 ∷ (49 ∷ [])))))))))

abbrev pub encrypt0 : List ℕ
encrypt0 = 69 ∷ (110 ∷ (99 ∷ (114 ∷ (121 ∷ (112 ∷ (116 ∷ (48 ∷ [])))))))

abbrev pub ekenv_v1 : List ℕ
ekenv_v1 = 101 ∷ (107 ∷ (101 ∷ (110 ∷ (118 ∷ (45 ∷ (118 ∷ (49 ∷ [])))))))

unfoldable pub sig_structure : ℕ → List ℕ → List ℕ → Result (List ℕ)
sig_structure cap protected payload =
    Encode.array 4 (new_enc cap)
    >>= (λ e. Encode.tstr signature1 e)
    >>= (λ e. Encode.bstr protected e)
    >>= (λ e. Encode.bstr [] e)
    >>= (λ e. Encode.bstr payload e)
    >>= λ e. ok e.out

-- The unprotected header of a Sign1: the key's name, if there is one.
abbrev pub write_kid : Option (List ℕ) → Enc → Result Enc
write_kid none e = Encode.map 0 e
write_kid (some k) e = Encode.map 1 e >>= (λ e. Encode.int hdr_kid e) >>= λ e. Encode.bstr k e

-- The loop of `sign1_parse` over the unprotected header: the last kid counts.
unfoldable pub find_kid : ℕ → Option (List ℕ) → List ℕ → Result (Option (List ℕ) × List ℕ)
find_kid zero kid bs = ok (kid, bs)
find_kid (suc n) kid bs = Decode.int bs >>= λ (label, bs).
    if eq_int label hdr_kid
    then (Decode.bstr bs >>= λ (k, bs). find_kid n (some k) bs)
    else (Decode.skip bs >>= λ bs. find_kid n kid bs)

pub record Sign1 : Type 0 where
  pub protected : List ℕ
  pub kid : Option (List ℕ)
  pub payload : List ℕ
  pub sig : List ℕ

unfoldable pub sign1_parse : List ℕ → Result Sign1
sign1_parse blob = Decode.array blob >>= λ (n, bs).
    if not (n == 4)
    then err EnvelopeError.malformed
    else (Decode.bstr bs >>= λ (protected, bs). Decode.map bs >>= λ (m, bs).
        find_kid m none bs >>= λ (kid, bs). Decode.bstr bs >>= λ (payload, bs).
        Decode.bstr bs >>= λ (sig, bs).
        ok (record { protected = protected; kid = kid; payload = payload; sig = sig }))

-- The loop of `sign1_verify` over the protected header: the last algorithm counts.
unfoldable pub find_alg : ℕ → Bool → List ℕ → Result Bool
find_alg zero alg_ok bs = ok alg_ok
find_alg (suc n) alg_ok bs = Decode.int bs >>= λ (label, bs).
    if eq_int label hdr_alg
    then (Decode.int bs >>= λ (alg, bs). find_alg n (eq_int alg alg_eddsa) bs)
    else (Decode.skip bs >>= λ bs. find_alg n alg_ok bs)

unfoldable pub enc_structure : ℕ → List ℕ → Result (List ℕ)
enc_structure cap protected =
    Encode.array 3 (new_enc cap)
    >>= (λ e. Encode.tstr encrypt0 e)
    >>= (λ e. Encode.bstr protected e)
    >>= (λ e. Encode.bstr [] e)
    >>= λ e. ok e.out

unfoldable pub encrypt0_protected : ℕ → ℕ → List ℕ → Result (List ℕ)
encrypt0_protected cap seq target =
    Encode.map 3 (new_enc cap)
    >>= (λ e. Encode.int hdr_alg e)
    >>= (λ e. Encode.int alg_a128gcm e)
    >>= (λ e. Encode.int hdr_kid e)
    >>= (λ e. Encode.bstr target e)
    >>= (λ e. Encode.int hdr_seq e)
    >>= (λ e. Encode.uint seq e)
    >>= λ e. ok e.out

-- What `peek` has found of the protected header.
pub record Route : Type 0 where
  pub seq : Option ℕ
  pub target : Option (List ℕ)
  pub alg_ok : Bool

unfoldable pub find_route : ℕ → Route → List ℕ → Result Route
find_route zero r bs = ok r
find_route (suc n) r bs = Decode.int bs >>= λ (label, bs).
    if eq_int label hdr_alg
    then (Decode.int bs >>= λ (alg, bs).
        find_route n (record r { alg_ok = eq_int alg alg_a128gcm }) bs)
    else if eq_int label hdr_kid
    then (Decode.bstr bs >>= λ (t, bs). find_route n (record r { target = some t }) bs)
    else if eq_int label hdr_seq
    then (Decode.uint bs >>= λ (s, bs). find_route n (record r { seq = some s }) bs)
    else (Decode.skip bs >>= λ bs. find_route n r bs)

abbrev pub route_of : Option ℕ → Option (List ℕ) → Result (ℕ × List ℕ)
route_of (some s) (some t) = ok (s, t)
route_of (some s) none = err EnvelopeError.malformed
route_of none t = err EnvelopeError.malformed

unfoldable pub peek : List ℕ → Result (ℕ × List ℕ)
peek blob = Decode.array blob >>= λ (n, bs).
    if not (n == 3)
    then err EnvelopeError.malformed
    else (Decode.bstr bs >>= λ (protected, bs). Decode.map protected >>= λ (m, ps).
        find_route m (record { seq = none; target = none; alg_ok = false }) ps >>= λ r.
        (if not r.alg_ok then err EnvelopeError.wrong_algorithm else route_of r.seq r.target))

-- The loop of `open_with` over the unprotected header: the IV and the ephemeral public key.
unfoldable pub find_keys :
    ℕ
    → Option (List ℕ)
    → Option (List ℕ)
    → List ℕ
    → Result ((Option (List ℕ) × Option (List ℕ)) × List ℕ)
find_keys zero iv eph bs = ok ((iv, eph), bs)
find_keys (suc n) iv eph bs = Decode.int bs >>= λ (label, bs).
    if eq_int label hdr_iv
    then (Decode.bstr bs >>= λ (b, bs). find_keys n (some b) eph bs)
    else if eq_int label hdr_eph
    then (Decode.bstr bs >>= λ (b, bs). find_keys n iv (some b) bs)
    else (Decode.skip bs >>= λ bs. find_keys n iv eph bs)

-- `.ok_or(Malformed)?.try_into()`, into an array of `n` bytes.
abbrev pub array_of : ℕ → Option (List ℕ) → Result (List ℕ)
array_of n none = err EnvelopeError.malformed
array_of n (some b) = if length b == n then ok b else err EnvelopeError.malformed

-- `Enc::bstr_reserve`, up to the bytes that the caller fills in.
unfoldable pub bstr_reserve : ℕ → Enc → Result Enc
bstr_reserve len e = Encode.head 2 len e >>= λ e.
    if ltb e.cap (length e.out + len) then err EnvelopeError.buffer_too_small else ok e

abbrev pub unsealed : Option (List ℕ) → ℕ → Result (List ℕ × ℕ)
unsealed none seq = err EnvelopeError.decrypt_failed
unsealed (some plaintext) seq = ok (plaintext, seq)

module _ (crypto : Crypto) where
  unfoldable pub sign1_write : ℕ → ℕ → List ℕ → Option (List ℕ) → List ℕ → Result (List ℕ)
  sign1_write out scratch payload kid key =
      sig_structure scratch sign1_protected payload >>= λ signed.
      Encode.array 4 (new_enc out)
      >>= (λ e. Encode.bstr sign1_protected e)
      >>= (λ e. write_kid kid e)
      >>= (λ e. Encode.bstr payload e)
      >>= (λ e. Encode.bstr (crypto.sign key signed) e)
      >>= λ e. ok e.out

  unfoldable pub check_signature : ℕ → Sign1 → List ℕ → Result (List ℕ × Option (List ℕ))
  check_signature scratch s key = sig_structure scratch s.protected s.payload >>= λ signed.
      if not (crypto.is_signature s.sig)
      then err EnvelopeError.malformed
      else if not (crypto.verify key signed s.sig)
      then err EnvelopeError.bad_signature
      else ok (s.payload, s.kid)

  unfoldable pub sign1_verify : List ℕ → ℕ → List ℕ → Result (List ℕ × Option (List ℕ))
  sign1_verify blob scratch key = sign1_parse blob >>= λ s. Decode.map s.protected >>= λ (n, bs).
      find_alg n false bs >>= λ alg_ok.
      if not alg_ok then err EnvelopeError.wrong_algorithm else check_signature scratch s key

  abbrev pub derive_key : List ℕ → List ℕ → List ℕ
  derive_key shared eph_pub = crypto.hkdf eph_pub shared ekenv_v1

  unfoldable pub seal_write_with :
      ℕ → List ℕ → List ℕ → ℕ → List ℕ → List ℕ → List ℕ → Result (List ℕ)
  seal_write_with out plaintext device_kx_pub seq target eph_secret iv =
      let eph_pub = crypto.kx_public eph_secret in
      let key = derive_key (crypto.diffie_hellman eph_secret device_kx_pub) eph_pub in
      encrypt0_protected 80 seq target >>= λ protected. enc_structure 112 protected >>= λ aad.
      Encode.array 3 (new_enc out)
      >>= (λ e. Encode.bstr protected e)
      >>= (λ e. Encode.map 2 e)
      >>= (λ e. Encode.int hdr_iv e)
      >>= (λ e. Encode.bstr iv e)
      >>= (λ e. Encode.int hdr_eph e)
      >>= (λ e. Encode.bstr eph_pub e)
      >>= (λ e. bstr_reserve (length plaintext + 16) e)
      >>= λ e. let (ct, tag) = crypto.seal key iv aad plaintext in ok (e.out ++ (ct ++ tag))

  -- The key agreement and the decryption of `open_with`.
  unfoldable pub decrypt : ℕ → List ℕ → List ℕ → List ℕ → List ℕ → List ℕ → ℕ → Result (List ℕ × ℕ)
  decrypt out protected iv eph_pub ct kx_secret seq =
      let key = derive_key (crypto.diffie_hellman kx_secret eph_pub) eph_pub in
      let n = length ct - 16 in
      enc_structure 112 protected >>= λ aad.
      if ltb out n
      then err EnvelopeError.buffer_too_small
      else unsealed (crypto.unseal key iv aad (take n ct) (drop n ct)) seq

  unfoldable pub open_with : List ℕ → ℕ → List ℕ → Result (List ℕ × ℕ)
  open_with blob out kx_secret = Decode.array blob >>= λ (n, bs).
      if not (n == 3)
      then err EnvelopeError.malformed
      else (Decode.bstr bs >>= λ (protected, bs). Decode.map bs >>= λ (m, bs).
          find_keys m none none bs >>= λ ((iv, eph), bs). Decode.bstr bs >>= λ (ct, bs).
          peek blob >>= λ (seq, target). array_of 12 iv >>= λ iv. array_of 32 eph >>= λ eph_pub.
          (if ltb (length ct) 16
            then err EnvelopeError.malformed
            else decrypt out protected iv eph_pub ct kx_secret seq))

-- ===== src/Envelope/Tests.antt =====
-- Envelopes that are written and read, with a toy cipher and a toy signature that carry the first byte
-- of the key.
use ephemerkey.Common.{ℕ, ◌≡◌, refl, some, List, [], ◌∷◌, ◌++◌, replicate, arith}
use ephemerkey.Cbor.{ok, err, EnvelopeError}
use ephemerkey.Cbor.Encode
use ephemerkey.Cbor.Decode
use ephemerkey.Envelope.{
  sig_structure, sign1_protected, sign1_parse, find_kid, find_alg, sign1_write, sign1_verify,
  check_signature, peek, find_route, find_keys, encrypt0_protected, enc_structure, bstr_reserve,
  seal_write_with, open_with, decrypt,
}
use ephemerkey.Envelope.Bytes.{sig_bytes, sign1_bytes, protected_bytes}
use ephemerkey.Envelope.Signing.{sign1_verify-sign1_write, sig_structure-injective}
use ephemerkey.Envelope.Opening.{sealed_bytes}
use ephemerkey.Envelope.Sealing.{open_with-seal_write_with}
use ephemerkey.Envelope.Toy.{toy, toy-SignLaws, toy-SealLaws}

abbrev payload : List ℕ
payload = 1 ∷ (2 ∷ (3 ∷ []))

abbrev signed_blob : List ℕ
signed_blob = sign1_bytes (some (7 ∷ [])) payload (replicate 64 9)

written : sign1_write toy 256 256 payload (some (7 ∷ [])) (9 ∷ []) ≡ ok signed_blob
unfolding sign1_write sig_structure Encode.head Encode.push Encode.extend
written = refl

-- In a buffer of 70 bytes the signature does not fit.
too_small :
    sign1_write toy 70 256 payload (some (7 ∷ [])) (9 ∷ []) ≡ err EnvelopeError.buffer_too_small
unfolding sign1_write sig_structure Encode.head Encode.push Encode.extend
too_small = refl

other_key : sign1_verify toy signed_blob 256 (8 ∷ []) ≡ err EnvelopeError.bad_signature
unfolding sign1_verify check_signature sign1_parse find_kid find_alg sig_structure Decode.head
    Decode.byte Decode.take_bytes Encode.head Encode.push Encode.extend
other_key = refl

sign1_verify-sign1_write_example :
    sign1_verify toy signed_blob 256 (9 ∷ []) ≡ ok (payload, some (7 ∷ []))
sign1_verify-sign1_write_example =
    sign1_verify-sign1_write toy (λ k. k) toy-SignLaws 256 256 payload (some (7 ∷ [])) (9 ∷ [])
      signed_blob (omega arith) (omega arith) written

structured :
    (cap : ℕ)
    → cap ≡ 256
    → sig_structure cap sign1_protected payload ≡ ok (sig_bytes sign1_protected payload)
unfolding sig_structure Encode.head Encode.push Encode.extend
structured cap q = rw q refl

sig_structure-injective_example : (sign1_protected ≡ sign1_protected) × (payload ≡ payload)
sig_structure-injective_example =
    sig_structure-injective 256 256 sign1_protected payload sign1_protected payload
      (sig_bytes sign1_protected payload) (omega arith) (omega arith) (omega arith) (omega arith)
      (structured 256 refl) (structured 256 refl)

abbrev target : List ℕ
target = 100 ∷ (55 ∷ [])

abbrev sealed_blob : List ℕ
sealed_blob =
    sealed_bytes (protected_bytes 42 target) (replicate 12 5) (replicate 32 3)
      (payload ++ replicate 16 12)

sealed_up :
    seal_write_with toy 256 payload (toy.kx_public (9 ∷ [])) 42 target (3 ∷ []) (replicate 12 5)
    ≡ ok sealed_blob
unfolding seal_write_with encrypt0_protected enc_structure bstr_reserve Encode.head Encode.push
    Encode.extend
sealed_up = refl

-- The device of another secret cannot open it.
wrong_device : open_with toy sealed_blob 256 (8 ∷ []) ≡ err EnvelopeError.decrypt_failed
unfolding open_with decrypt peek find_route find_keys enc_structure Decode.head Decode.byte
    Decode.take_bytes Encode.head Encode.push Encode.extend
wrong_device = refl

open_with-seal_write_with_example :
    (peek sealed_blob ≡ ok (42, target))
    × (open_with toy sealed_blob 256 (9 ∷ []) ≡ ok (payload, 42))
open_with-seal_write_with_example =
    open_with-seal_write_with toy 256 256 42 payload (9 ∷ []) target (3 ∷ []) (replicate 12 5)
      sealed_blob toy-SealLaws (omega arith) (omega arith) (omega arith) refl (omega arith)
      sealed_up

-- ===== src/Envelope/Toy.antt =====
-- A toy cipher and a toy signature that carry the first byte of the key, for the tests.
use ephemerkey.Common.{
  ℕ, ◌+◌, ◌≡◌, refl, none, some, List, [], ◌∷◌, length, replicate, get_or, arith, ◌==◌,
  if◌then◌else◌,
}
use ephemerkey.Envelope.{Crypto}
use ephemerkey.Envelope.Signing.{SignLaws}
use ephemerkey.Envelope.Sealing.{SealLaws}

abbrev first : List ℕ → ℕ
first l = get_or l 0 0

abbrev pub toy : Crypto
toy = record {
  sign = λ k m. replicate 64 (first k);
  is_signature = λ s. length s == 64;
  verify = λ k m s. first s == first k;
  kx_public = λ a. replicate 32 (first a);
  diffie_hellman = λ a p. (first a + first p) ∷ [];
  hkdf = λ salt shared info. shared;
  seal = λ key iv aad plaintext. (plaintext, replicate 16 (first key));
  unseal = λ key iv aad ct tag. if first tag == first key then some ct else none;
}

pub toy-SignLaws : SignLaws toy (λ k. k)
toy-SignLaws = record {
  verifies = λ k m. ground arith;
  well_formed = λ k m. refl;
  signature_length = λ k m. refl;
}

comm : (a b : List ℕ) → first a + first b ≡ first b + first a
comm a b = omega arith

pub toy-SealLaws : SealLaws toy
toy-SealLaws = record {
  agree = λ a b. rw (comm a b) refl;
  public_length = λ a. refl;
  opens = λ key iv aad plaintext. ground arith;
  same_length = λ key iv aad plaintext. refl;
  tag_length = λ key iv aad plaintext. refl;
}

-- ===== src/Envelope/Sealing.antt =====
-- Sealed envelopes: what `seal_write` wrote, `peek` and `open` read
-- (firmware/ephemerkey-envelope/src/lib.rs).
use mathlib.Core.List.{append_assoc}
use ephemerkey.Common.{
  ℕ, ◌+◌, ◌-◌, ◌^◌, ◌<◌, ◌≤◌, ◌≡◌, refl, sym, ap, ◌∙◌, some, List, ◌++◌, length, arith, false, ltb,
  length-append, take-append, drop-length,
}
use ephemerkey.Cbor.{ok, ◌>>=◌, Enc, new_enc}
use ephemerkey.Cbor.Encode
use ephemerkey.Cbor.RoundTrip.{
  head_bytes, int_bytes, bstr_bytes, both_ok, head-Wrote, int-Wrote, bstr-Wrote,
}
use ephemerkey.Envelope.{
  Crypto, hdr_seq, hdr_iv, hdr_eph, encrypt0_protected, enc_structure, peek, bstr_reserve,
  seal_write_with, derive_key, decrypt, open_with,
}
use ephemerkey.Envelope.Bytes.{Writes, Writes-then, protected_bytes, encrypt0_protected_lem}
use ephemerkey.Envelope.Opening.{sealed_bytes, protected_nested, peek_sealed, open_sealed}

-- What the envelope relies on of X25519 and AES-128-GCM.
pub record SealLaws (crypto : Crypto) : Type 0 where
  pub agree :
      (a b : List ℕ)
      → crypto.diffie_hellman a (crypto.kx_public b) ≡ crypto.diffie_hellman b (crypto.kx_public a)
  pub public_length : (a : List ℕ) → length (crypto.kx_public a) ≡ 32
  pub opens :
      (key iv aad plaintext : List ℕ)
      → crypto.unseal key iv aad
          (crypto.seal key iv aad plaintext).0
          (crypto.seal key iv aad plaintext).1
        ≡ some plaintext
  pub same_length :
      (key iv aad plaintext : List ℕ)
      → length (crypto.seal key iv aad plaintext).0 ≡ length plaintext
  pub tag_length :
      (key iv aad plaintext : List ℕ) → length (crypto.seal key iv aad plaintext).1 ≡ 16

pub head_bytes-length : (m v : ℕ) → length (head_bytes m v) ≤ 9
head_bytes-length m v = ground arith

reserve-Writes : (n : ℕ) → Writes (bstr_reserve n) (head_bytes 2 n)
unfolding bstr_reserve
reserve-Writes n e e' h =
    let (e1, p, k) = both_ok (Encode.head 2 n e) _ h in
    let q : e1 ≡ e' = ground (arith, k) in sym q ∙ head-Wrote 2 n e e1 p

-- The envelope up to its ciphertext, nested as it is written.
abbrev front : List ℕ → List ℕ → List ℕ → ℕ → List ℕ
front protected iv eph n =
    ((((((head_bytes 4 3 ++ bstr_bytes 2 protected) ++ head_bytes 5 2) ++ int_bytes hdr_iv)
          ++ bstr_bytes 2 iv)
        ++ int_bytes hdr_eph)
      ++ bstr_bytes 2 eph)
    ++ head_bytes 2 n

front-Writes :
    (protected iv eph : List ℕ) (n : ℕ)
    → Writes
        (λ e.
          Encode.array 3 e
          >>= (λ e. Encode.bstr protected e)
          >>= (λ e. Encode.map 2 e)
          >>= (λ e. Encode.int hdr_iv e)
          >>= (λ e. Encode.bstr iv e)
          >>= (λ e. Encode.int hdr_eph e)
          >>= (λ e. Encode.bstr eph e)
          >>= λ e. bstr_reserve n e)
        (front protected iv eph n)
front-Writes protected iv eph n =
    Writes-then _ _ _ _
      (Writes-then _ _ _ _
        (Writes-then _ _ _ _
          (Writes-then _ _ _ _
            (Writes-then _ _ _ _
              (Writes-then _ _ _ _
                (Writes-then (Encode.array 3) (Encode.bstr protected) _ _ (head-Wrote 4 3)
                  (bstr-Wrote 2 protected))
                (head-Wrote 5 2))
              (int-Wrote hdr_iv))
            (bstr-Wrote 2 iv))
          (int-Wrote hdr_eph))
        (bstr-Wrote 2 eph))
      (reserve-Writes n)

assoc9 :
    (a b c d e f g h i : List ℕ)
    → (((((((a ++ b) ++ c) ++ d) ++ e) ++ f) ++ g) ++ h) ++ i
      ≡ a ++ (b ++ (c ++ (d ++ (e ++ (f ++ (g ++ (h ++ i)))))))
assoc9 a b c d e f g h i =
    append_assoc ((((((a ++ b) ++ c) ++ d) ++ e) ++ f) ++ g) h i
    ∙ (append_assoc (((((a ++ b) ++ c) ++ d) ++ e) ++ f) g (h ++ i)
        ∙ (append_assoc ((((a ++ b) ++ c) ++ d) ++ e) f (g ++ (h ++ i))
            ∙ (append_assoc (((a ++ b) ++ c) ++ d) e (f ++ (g ++ (h ++ i)))
                ∙ (append_assoc ((a ++ b) ++ c) d (e ++ (f ++ (g ++ (h ++ i))))
                    ∙ (append_assoc (a ++ b) c (d ++ (e ++ (f ++ (g ++ (h ++ i)))))
                        ∙ append_assoc a b (c ++ (d ++ (e ++ (f ++ (g ++ (h ++ i)))))))))))

front_nested :
    (protected iv eph body : List ℕ) (n : ℕ)
    → length body ≡ n
    → front protected iv eph n ++ body ≡ sealed_bytes protected iv eph body
front_nested protected iv eph body n l =
    ap (λ k. front protected iv eph k ++ body) (sym l)
    ∙ assoc9 (head_bytes 4 3) (bstr_bytes 2 protected) (head_bytes 5 2) (int_bytes hdr_iv)
        (bstr_bytes 2 iv) (int_bytes hdr_eph) (bstr_bytes 2 eph) (head_bytes 2 (length body)) body

module _ (crypto : Crypto) where
  decrypt_lem :
      (out seq : ℕ) (protected iv eph_pub ct tag secret plaintext aad : List ℕ)
      → length tag ≡ 16
      → length ct ≤ out
      → enc_structure 112 protected ≡ ok aad
      → crypto.unseal
          (derive_key crypto (crypto.diffie_hellman secret eph_pub) eph_pub)
          iv
          aad
          ct
          tag
        ≡ some plaintext
      → decrypt crypto out protected iv eph_pub (ct ++ tag) secret seq ≡ ok (plaintext, seq)
  unfolding decrypt
  decrypt_lem out seq protected iv eph_pub ct tag secret plaintext aad lt fits at opened =
      let l = length-append ct tag in
      let n : length (ct ++ tag) - 16 ≡ length ct = omega arith in
      let room : ltb out (length ct) ≡ false = ground arith in
      rw (at, n, room, take-append ct tag, drop-length ct tag, opened) refl

  -- The ciphertext and the tag of what is sealed to a device.
  abbrev sealed_to : List ℕ → List ℕ → List ℕ → List ℕ → List ℕ → List ℕ × List ℕ
  sealed_to plaintext secret eph_secret iv aad =
      crypto.seal
        (derive_key crypto (crypto.diffie_hellman eph_secret (crypto.kx_public secret))
          (crypto.kx_public eph_secret))
        iv aad plaintext

  abbrev body_of : List ℕ × List ℕ → List ℕ
  body_of (ct, tag) = ct ++ tag

  seal_write_with_lem :
      (out seq : ℕ) (plaintext secret target eph_secret iv blob : List ℕ)
      → SealLaws crypto
      → seal_write_with crypto out plaintext (crypto.kx_public secret) seq target eph_secret iv
        ≡ ok blob
      → (protected aad : List ℕ) × (encrypt0_protected 80 seq target ≡ ok protected)
        × (enc_structure 112 protected ≡ ok aad)
        × (blob
            ≡ sealed_bytes protected iv
                (crypto.kx_public eph_secret)
                (body_of (sealed_to plaintext secret eph_secret iv aad)))
  unfolding seal_write_with
  seal_write_with_lem out seq plaintext secret target eph_secret iv blob laws h =
      let eph_pub = crypto.kx_public eph_secret in
      let n = length plaintext + 16 in
      let (protected, headed, h1) = both_ok (encrypt0_protected 80 seq target) _ h in
      let (aad, at, h2) = both_ok (enc_structure 112 protected) _ h1 in
      let (e, fronted, h3) = both_ok _ _ h2 in
      let s = sealed_to plaintext secret eph_secret iv aad in
      let wrote = front-Writes protected iv eph_pub n (new_enc out) e fronted in
      let key =
        derive_key crypto (crypto.diffie_hellman eph_secret (crypto.kx_public secret)) eph_pub in
      let l : length (body_of s) ≡ n =
        length-append s.0 s.1
        ∙ (omega
            (arith, laws.same_length key iv aad plaintext, laws.tag_length key iv aad plaintext)) in
      let done : e.out ++ body_of s ≡ blob = cc in
      (
        protected,
        aad,
        headed,
        at,
        sym done
            ∙ (ap (λ (x : Enc). x.out ++ body_of s) wrote
                ∙ front_nested protected iv eph_pub (body_of s) n l),
      )

  protected-length :
      (seq : ℕ) (target : List ℕ)
      → length target < 2 ^ 31
      → length (protected_bytes seq target) < 2 ^ 32
  protected-length seq target lt =
      let a = length-append (bstr_bytes 2 target ++ int_bytes hdr_seq) (head_bytes 0 seq) in
      let b = length-append (bstr_bytes 2 target) (int_bytes hdr_seq) in
      let c = length-append (head_bytes 2 (length target)) target in
      let d = head_bytes-length 2 (length target) in let e = head_bytes-length 0 seq in omega arith

  -- Under the laws of the primitives: what `seal_write_with` wrote to a device for a target shorter
  -- than 2 ^ 31 bytes and a sequence number of 64 bits, of a plaintext whose ciphertext and tag fit a
  -- 32-bit length, with a 12-byte IV. `peek` reads the sequence number and the target, and `open_with`,
  -- with the device's secret and room for the plaintext, reads the plaintext and the sequence number.
  pub open_with-seal_write_with :
      (out room seq : ℕ) (plaintext secret target eph_secret iv blob : List ℕ)
      → SealLaws crypto
      → length plaintext + 16 < 2 ^ 32
      → length plaintext ≤ room
      → length target < 2 ^ 31
      → length iv ≡ 12
      → seq < 2 ^ 64
      → seal_write_with crypto out plaintext (crypto.kx_public secret) seq target eph_secret iv
        ≡ ok blob
      → (peek blob ≡ ok (seq, target)) × (open_with crypto blob room secret ≡ ok (plaintext, seq))
  open_with-seal_write_with out room seq plaintext secret target eph_secret iv blob laws fp fits lt
        li ls h =
      let (protected, aad, headed, at, q) =
        seal_write_with_lem out seq plaintext secret target eph_secret iv blob laws h in
      let p = encrypt0_protected_lem 80 seq target protected headed in
      let routed = p ∙ protected_nested seq target in
      let lp : length protected < 2 ^ 32 = rw p (protected-length seq target lt) in
      let eph_pub = crypto.kx_public eph_secret in
      let s = sealed_to plaintext secret eph_secret iv aad in
      let key =
        derive_key crypto (crypto.diffie_hellman eph_secret (crypto.kx_public secret)) eph_pub in
      let lc = laws.same_length key iv aad plaintext in
      let lg = laws.tag_length key iv aad plaintext in
      let l = length-append s.0 s.1 in
      let opened : crypto.unseal (derive_key crypto (crypto.diffie_hellman secret eph_pub) eph_pub)
            iv aad s.0 s.1
          ≡ some plaintext =
        rw (laws.agree secret eph_secret) (laws.opens key iv aad plaintext) in
      (
        ap peek q
            ∙ peek_sealed seq target protected iv eph_pub (body_of s) ls (omega arith) lp routed,
        ap (λ b. open_with crypto b room secret) q
            ∙ (open_sealed seq target protected iv eph_pub (body_of s) ls (omega arith) lp routed
                  crypto room secret li (laws.public_length eph_secret) (omega arith) (omega arith)
                ∙ decrypt_lem room seq protected iv eph_pub s.0 s.1 secret plaintext aad lg
                    (omega arith) at opened),
      )

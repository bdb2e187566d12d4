-- ===== src/Envelope/Bytes.antt =====
-- The bytes that the envelope's writers produce (firmware/ephemerkey-envelope/src/lib.rs).
use mathlib.Core.List.{append_assoc}
use ephemerkey.Common.{
  ℕ, ◌≡◌, ◌≤◌, ◌+◌, arith, length, sym, ap, ◌∙◌, Option, none, some, List, [], ◌++◌,
}
use ephemerkey.Cbor.{Result, ok, ◌>>=◌, Enc, new_enc}
use ephemerkey.Cbor.Encode
use ephemerkey.Cbor.RoundTrip.{
  head_bytes, int_bytes, bstr_bytes, Wrote, Wrote-trans, both_ok, head-Wrote, int-Wrote, bstr-Wrote,
}
use ephemerkey.Envelope.{
  sig_structure, signature1, sign1_protected, write_kid, hdr_kid, enc_structure, encrypt0,
  encrypt0_protected, hdr_alg, alg_a128gcm, hdr_seq,
}

-- A writer that, where it succeeds, has gone on by `bytes`.
abbrev pub Writes : (Enc → Result Enc) → List ℕ → Type 0
Writes f bytes = (e e' : Enc) → f e ≡ ok e' → Wrote e bytes e'

pub Writes-then :
    (f g : Enc → Result Enc) (a b : List ℕ)
    → Writes f a
    → Writes g b
    → Writes (λ e. f e >>= g) (a ++ b)
Writes-then f g a b w v e e' h =
    let (e1, p, k) = both_ok (f e) g h in Wrote-trans e e1 e' a b (w e e1 p) (v e1 e' k)

pub Writes-done :
    (f : Enc → Result Enc) (bytes t : List ℕ) (cap : ℕ)
    → Writes f bytes
    → (f (new_enc cap) >>= λ e. ok e.out) ≡ ok t
    → t ≡ bytes
Writes-done f bytes t cap w h =
    let (e, p, k) = both_ok (f (new_enc cap)) (λ e. ok e.out) h in
    let q = w (new_enc cap) e p in let r : e.out ≡ t = cc in sym r ∙ ap (λ (x : Enc). x.out) q

abbrev pub sig_bytes : List ℕ → List ℕ → List ℕ
sig_bytes protected payload =
    (((head_bytes 4 4 ++ bstr_bytes 3 signature1) ++ bstr_bytes 2 protected) ++ bstr_bytes 2 [])
    ++ bstr_bytes 2 payload

sig-Writes :
    (protected payload : List ℕ)
    → Writes
        (λ e.
          Encode.array 4 e
          >>= (λ e. Encode.tstr signature1 e)
          >>= (λ e. Encode.bstr protected e)
          >>= (λ e. Encode.bstr [] e)
          >>= λ e. Encode.bstr payload e)
        (sig_bytes protected payload)
sig-Writes protected payload =
    Writes-then _ (Encode.bstr payload) _ (bstr_bytes 2 payload)
      (Writes-then _ (Encode.bstr []) _ (bstr_bytes 2 [])
        (Writes-then _ (Encode.bstr protected) _ (bstr_bytes 2 protected)
          (Writes-then (Encode.array 4) (Encode.tstr signature1) (head_bytes 4 4)
            (bstr_bytes 3 signature1) (head-Wrote 4 4) (bstr-Wrote 3 signature1))
          (bstr-Wrote 2 protected))
        (bstr-Wrote 2 []))
      (bstr-Wrote 2 payload)

pub sig_structure_lem :
    (cap : ℕ) (protected payload t : List ℕ)
    → sig_structure cap protected payload ≡ ok t
    → t ≡ sig_bytes protected payload
unfolding sig_structure
sig_structure_lem cap protected payload t h =
    Writes-done _ (sig_bytes protected payload) t cap (sig-Writes protected payload) h

extend-room :
    (b : List ℕ) (e e' : Enc) → Encode.extend b e ≡ ok e' → length e.out + length b ≤ e.cap
unfolding Encode.extend
extend-room b e e' h = ground (arith, h)

extend-cap : (b : List ℕ) (e e' : Enc) → Encode.extend b e ≡ ok e' → e'.cap ≡ e.cap
unfolding Encode.extend
extend-cap b e e' h = ground (arith, h)

-- A payload that the signature structure was written of fits the buffer.
pub sig_structure-fits :
    (cap : ℕ) (protected payload t : List ℕ)
    → sig_structure cap protected payload ≡ ok t
    → length payload ≤ cap
unfolding sig_structure
sig_structure-fits cap protected payload t h =
    let (e, all, k) = both_ok _ (λ e. ok e.out) h in
    let (e4, before, last) = both_ok _ (λ e. Encode.bstr payload e) all in
    let (e5, headed, extended) = both_ok _ (λ e. Encode.extend payload e) last in
    let wrote = sig-Writes protected payload (new_enc cap) e all in
    let total : e.cap ≡ cap = ap (λ (x : Enc). x.cap) wrote in
    let same = extend-cap payload e5 e extended in
    let room = extend-room payload e5 e extended in omega arith

abbrev pub enc_bytes : List ℕ → List ℕ
enc_bytes protected =
    ((head_bytes 4 3 ++ bstr_bytes 3 encrypt0) ++ bstr_bytes 2 protected) ++ bstr_bytes 2 []

pub enc_structure_lem :
    (cap : ℕ) (protected t : List ℕ) → enc_structure cap protected ≡ ok t → t ≡ enc_bytes protected
unfolding enc_structure
enc_structure_lem cap protected t h =
    Writes-done _ (enc_bytes protected) t cap
      (Writes-then _ _ _ _
        (Writes-then _ _ _ _
          (Writes-then (Encode.array 3) (Encode.tstr encrypt0) _ _ (head-Wrote 4 3)
            (bstr-Wrote 3 encrypt0))
          (bstr-Wrote 2 protected))
        (bstr-Wrote 2 []))
      h

-- The protected header of a sealed envelope.
abbrev pub protected_bytes : ℕ → List ℕ → List ℕ
protected_bytes seq target =
    (((((head_bytes 5 3 ++ int_bytes hdr_alg) ++ int_bytes alg_a128gcm) ++ int_bytes hdr_kid)
        ++ bstr_bytes 2 target)
      ++ int_bytes hdr_seq)
    ++ head_bytes 0 seq

pub encrypt0_protected_lem :
    (cap seq : ℕ) (target t : List ℕ)
    → encrypt0_protected cap seq target ≡ ok t
    → t ≡ protected_bytes seq target
unfolding encrypt0_protected
encrypt0_protected_lem cap seq target t h =
    Writes-done _ (protected_bytes seq target) t cap
      (Writes-then _ _ _ _
        (Writes-then _ _ _ _
          (Writes-then _ _ _ _
            (Writes-then _ _ _ _
              (Writes-then _ _ _ _
                (Writes-then (Encode.map 3) (Encode.int hdr_alg) _ _ (head-Wrote 5 3)
                  (int-Wrote hdr_alg))
                (int-Wrote alg_a128gcm))
              (int-Wrote hdr_kid))
            (bstr-Wrote 2 target))
          (int-Wrote hdr_seq))
        (head-Wrote 0 seq))
      h

abbrev pub kid_bytes : Option (List ℕ) → List ℕ
kid_bytes none = head_bytes 5 0
kid_bytes (some k) = (head_bytes 5 1 ++ int_bytes hdr_kid) ++ bstr_bytes 2 k

write_kid-Writes : (kid : Option (List ℕ)) → Writes (write_kid kid) (kid_bytes kid)
write_kid-Writes none = head-Wrote 5 0
write_kid-Writes (some k) =
    Writes-then _ _ _ _
      (Writes-then (Encode.map 1) (Encode.int hdr_kid) _ _ (head-Wrote 5 1) (int-Wrote hdr_kid))
      (bstr-Wrote 2 k)

assoc5 : (a b c d e : List ℕ) → (((a ++ b) ++ c) ++ d) ++ e ≡ a ++ (b ++ (c ++ (d ++ e)))
assoc5 a b c d e =
    append_assoc ((a ++ b) ++ c) d e
    ∙ (append_assoc (a ++ b) c (d ++ e) ∙ append_assoc a b (c ++ (d ++ e)))

-- A signed message.
abbrev pub sign1_bytes : Option (List ℕ) → List ℕ → List ℕ → List ℕ
sign1_bytes kid payload sig =
    head_bytes 4 4
    ++ (bstr_bytes 2 sign1_protected
        ++ (kid_bytes kid ++ (bstr_bytes 2 payload ++ bstr_bytes 2 sig)))

pub sign1_bytes_lem :
    (cap : ℕ) (kid : Option (List ℕ)) (payload sig t : List ℕ)
    → (Encode.array 4 (new_enc cap)
        >>= (λ e. Encode.bstr sign1_protected e)
        >>= (λ e. write_kid kid e)
        >>= (λ e. Encode.bstr payload e)
        >>= (λ e. Encode.bstr sig e)
        >>= λ e. ok e.out)
      ≡ ok t
    → t ≡ sign1_bytes kid payload sig
sign1_bytes_lem cap kid payload sig t h =
    Writes-done _ _ t cap
      (Writes-then _ _ _ _
        (Writes-then _ _ _ _
          (Writes-then _ _ _ _
            (Writes-then (Encode.array 4) (Encode.bstr sign1_protected) _ _ (head-Wrote 4 4)
              (bstr-Wrote 2 sign1_protected))
            (write_kid-Writes kid))
          (bstr-Wrote 2 payload))
        (bstr-Wrote 2 sig))
      h
    ∙ assoc5 (head_bytes 4 4) (bstr_bytes 2 sign1_protected) (kid_bytes kid) (bstr_bytes 2 payload)
        (bstr_bytes 2 sig)

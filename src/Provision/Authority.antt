-- ===== src/Provision/Authority.antt =====
-- What a device accepts: the only way to its store's `commit` (firmware/ephemerkey-provision/src/lib.rs).
use ephemerkey.Common.{
  ℕ, ◌+◌, ◌<◌, ◌≤◌, ◌≡◌, refl, ap, sym, ◌∙◌, ◌⊎◌, inl, inr, Bool, true, false, not, Option, none,
  some, leb, ◌==◌, ◌&&◌, List, [], ◌∷◌, length, take, arith, Bool-cases,
}
use ephemerkey.Cbor.{Result, ok, err}
use ephemerkey.Envelope.{Sign1, open_with, sign1_parse, sign1_verify}
use ephemerkey.Envelope.Signing.{sign1_verify_sound}
use ephemerkey.Wire.{crc32}
use ephemerkey.Provision.{
  StoreOps, Crates, Identity, Xfer, Provisioner, Response, err_response, eq_bytes, record_event,
  config_max, bad_state, bad_sig, seq_rollback, wrong_set, unsupported, bad_crc, storage,
}
use ephemerkey.Provision.Verify.{
  Checked, pass, fail, ◌andthen◌, or_code, stop_if, is_some, owner_of, bound_to_other, Verified,
  verify_inner, verify_blob, finish, commit_checked, is_complete, commit_xfer, commit,
}

-- What two checks that both pass went through.
both_pass :
    {A B : Type 0} (first : Checked A) (next : A → Checked B) {last : B}
    → (first andthen next) ≡ pass last
    → (mid : A) × (first ≡ pass mid) × (next mid ≡ pass last)
both_pass (fail code) next went = absurd (cc)
both_pass (pass mid) next went = (mid, refl, went)

pass-injective : {A : Type 0} {a b : A} → pass a ≡ pass b → a ≡ b
pass-injective h = cc

ok-injective : {A : Type 0} {a b : A} → ok a ≡ ok b → a ≡ b
ok-injective h = cc

or_code-pass : {A : Type 0} (r : Result A) (code : ℕ) {a : A} → or_code r code ≡ pass a → r ≡ ok a
or_code-pass (err e) code h = absurd (cc)
or_code-pass (ok a) code h = cc

stop_if-pass : (b : Bool) (code : ℕ) {u : Unit {0}} → stop_if b code ≡ pass u → b ≡ false
stop_if-pass true code h = absurd (cc)
stop_if-pass false code h = refl

invert_not : (b : Bool) → not b ≡ false → b ≡ true
invert_not true h = refl
invert_not false h = absurd (cc)

pub eq_bytes_refl : (a : List ℕ) → eq_bytes a a ≡ true
eq_bytes_refl [] = refl
eq_bytes_refl (x ∷ a) = let e : (x == x) ≡ true = ground arith in rw (e, eq_bytes_refl a) refl

pub eq_bytes_lem : (a b : List ℕ) → eq_bytes a b ≡ true → a ≡ b
eq_bytes_lem [] [] h = refl
eq_bytes_lem [] (y ∷ b) h = absurd (cc)
eq_bytes_lem (x ∷ a) [] h = absurd (cc)
eq_bytes_lem (x ∷ a) (y ∷ b) h = elim (Bool-cases (x == y)) [
  | inr differ ↦ absurd (let e = rw differ at h in cc)
  | inl equal ↦ let q : x ≡ y = ground arith in rw (q, eq_bytes_lem a b (rw equal at h)) refl
]

owner_of-pass :
    (kid : Option (List ℕ)) {owner : List ℕ}
    → owner_of kid ≡ pass owner
    → (kid ≡ some owner) × (length owner ≡ 32)
owner_of-pass none h = absurd (cc)
owner_of-pass (some k) {owner} h = elim (Bool-cases (length k == 32)) [
  | inr differ ↦ absurd (let e = rw differ at h in cc)
  | inl equal ↦
      let q : pass k ≡ pass owner = rw equal at h in
      let s : k ≡ owner = cc in (ap some s, ap length (sym s) ∙ (ground arith))
]

-- The device is bound to nobody, or to this owner.
abbrev pub FreeFor : List ℕ → Option (List ℕ) → Type 0
FreeFor owner bound = (bound ≡ none) ⊎ (bound ≡ some owner)

-- The sequence number is a new one, where the device is bound.
abbrev pub IsNewer : ℕ → ℕ → Option (List ℕ) → Type 0
IsNewer seq last bound = (bound ≡ none) ⊎ (last < seq)

free_for :
    (bound : Option (List ℕ)) (owner : List ℕ)
    → bound_to_other bound owner ≡ false
    → FreeFor owner bound
free_for none owner h = inl refl
free_for (some b) owner h = inr (ap some (eq_bytes_lem b owner (invert_not _ h)))

is_newer :
    (bound : Option (List ℕ)) (last seq : ℕ)
    → (is_some bound && leb seq last) ≡ false
    → IsNewer seq last bound
is_newer none last seq h = inl refl
is_newer (some b) last seq h = inr (ground arith)

module _ {S : Type 0} (ops : StoreOps S) (crates : Crates) where
  -- A blob that passes, and what it asks to commit.
  pub record Genuine (store : S) (id : Identity) (blob : List ℕ) (seq_hint : ℕ) (v : Verified)
      : Type 0 where
    pub inner : List ℕ
    pub opened : open_with crates.crypto blob config_max id.kx_priv ≡ ok (inner, v.seq)
    pub hinted : v.seq ≡ seq_hint
    pub newer : IsNewer v.seq (ops.seq store) (ops.owner_pub store)
    pub owner_length : length v.owner ≡ 32
    pub free : FreeFor v.owner (ops.owner_pub store)
    pub key : crates.is_key v.owner ≡ true
    pub signed :
        sign1_verify crates.crypto inner (config_max + 256) v.owner ≡ ok (v.config, some v.owner)
    pub valid : ops.validate_config store v.config ≡ true

  pub verify_blob_sound :
      (store : S) (id : Identity) (blob : List ℕ) (seq_hint : ℕ) (v : Verified)
      → verify_blob ops crates store id blob seq_hint ≡ pass v
      → Genuine store id blob seq_hint v
  unfolding verify_blob verify_inner
  verify_blob_sound store id blob seq_hint v h =
      let ((inner, seq), opened, h1) =
        both_pass (or_code (open_with crates.crypto blob config_max id.kx_priv) bad_sig) _ h in
      let (u1, hinted, h2) = both_pass (stop_if (not (seq == seq_hint)) bad_state) _ h1 in
      let (u2, fresh, h3) =
        both_pass (stop_if (is_some (ops.owner_pub store) && leb seq (ops.seq store)) seq_rollback)
          _ h2 in
      let (m, parsed, h4) = both_pass (or_code (sign1_parse inner) bad_sig) _ h3 in
      let (owner, owned, h5) = both_pass (owner_of m.kid) _ h4 in
      let (u3, unbound, h6) =
        both_pass (stop_if (bound_to_other (ops.owner_pub store) owner) wrong_set) _ h5 in
      let (u4, keyed, h7) = both_pass (stop_if (not (crates.is_key owner)) wrong_set) _ h6 in
      let ((config, kid), signed, h8) =
        both_pass (or_code (sign1_verify crates.crypto inner (config_max + 256) owner) bad_sig) _
          h7 in
      let (u5, valid, h9) =
        both_pass (stop_if (not (ops.validate_config store config)) unsupported) _ h8 in
      let got = pass-injective h9 in
      let verified = or_code-pass _ _ signed in
      let (s, message, bs, n, parsed', payload, named, c, f, g, k) =
        sign1_verify_sound crates.crypto inner _ owner config kid verified in
      let same : ok s ≡ ok m = sym parsed' ∙ or_code-pass _ _ parsed in
      let is_owner = owner_of-pass m.kid owned in
      let q = sym (ok-injective same) in
      let kid_owner : kid ≡ some owner =
        sym named ∙ (ap (λ (x : Sign1). x.kid) (sym q) ∙ is_owner.0) in
      let eq_hint : (seq == seq_hint) ≡ true = invert_not _ (stop_if-pass _ _ hinted) in
      rw (sym got) (record {
        inner = inner;
        opened = or_code-pass _ _ opened;
        hinted = ground (arith, eq_hint);
        newer = is_newer _ _ _ (stop_if-pass _ _ fresh);
        owner_length = is_owner.1;
        free = free_for _ _ (stop_if-pass _ _ unbound);
        key = invert_not _ (stop_if-pass _ _ keyed);
        signed = verified ∙ ap (λ k. ok (config, k)) kid_owner;
        valid = invert_not _ (stop_if-pass _ _ valid);
      })

  -- A blob of a number that a bound device has reached is refused.
  pub rollback-refused :
      (store : S) (id : Identity) (blob inner bound : List ℕ) (seq seq_hint : ℕ)
      → open_with crates.crypto blob config_max id.kx_priv ≡ ok (inner, seq)
      → seq ≡ seq_hint
      → ops.owner_pub store ≡ some bound
      → seq ≤ ops.seq store
      → verify_blob ops crates store id blob seq_hint ≡ fail seq_rollback
  unfolding verify_blob
  rollback-refused store id blob inner bound seq seq_hint opened hinted at old =
      let same : (seq == seq_hint) ≡ true = ground (arith, hinted) in
      let reached : leb seq (ops.seq store) ≡ true = ground arith in
      rw (opened, same, at, reached) refl

  -- A commit that the store was asked for, and what the device answers.
  pub record Authorised (p p' : Provisioner S) (answer : Response) : Type 0 where
    pub xfer : Xfer
    pub v : Verified
    pub begun : p.xfer ≡ some xfer
    pub full : xfer.filled ≡ xfer.len
    pub checksum : crc32 (take xfer.len p.cfg_buf) ≡ xfer.crc
    pub genuine : Genuine p.store p.id (take xfer.len p.cfg_buf) xfer.seq_hint v
    pub committed : p'.store ≡ (ops.commit p.store v.owner v.seq v.config).0
    pub stored :
        ((ops.commit p.store v.owner v.seq v.config).1 ≡ true) ⊎ (answer ≡ err_response storage)
    pub reply :
        answer
        ≡ (finish ops crates
            (record p { xfer = none })
            (take xfer.len p.cfg_buf)
            v
            (ops.commit p.store v.owner v.seq v.config)).1

  -- The store is as it was, and the answer is an error.
  abbrev pub Refused : Provisioner S → Provisioner S → Response → Type 0
  Refused p p' answer = (p'.store ≡ p.store) × (code : ℕ) × (answer ≡ err_response code)

  pub finish-store :
      (p : Provisioner S) (blob : List ℕ) (v : Verified) (r : S × Bool)
      → ((finish ops crates p blob v r).0.store ≡ r.0)
        × ((finish ops crates p blob v r).0.xfer ≡ p.xfer)
        × ((r.1 ≡ true) ⊎ ((finish ops crates p blob v r).1 ≡ err_response storage))
  unfolding finish record_event
  finish-store p blob v (store, true) = (refl, refl, inl refl)
  finish-store p blob v (store, false) = (refl, refl, inr refl)

  checked_commit :
      (p : Provisioner S) (x : Xfer) (c : Checked Verified)
      → p.xfer ≡ some x
      → x.filled ≡ x.len
      → crc32 (take x.len p.cfg_buf) ≡ x.crc
      → verify_blob ops crates p.store p.id (take x.len p.cfg_buf) x.seq_hint ≡ c
      → let after = commit_checked ops crates (record p { xfer = none }) (take x.len p.cfg_buf) c in
        (after.0.xfer ≡ none) × (Refused p after.0 after.1 ⊎ Authorised p after.0 after.1)
  unfolding commit_checked
  checked_commit p x (fail code) begun full checksum h = (refl, inl (refl, code, refl))
  checked_commit p x (pass v) begun full checksum h =
      let (stored, ended, answered) =
        finish-store (record p { xfer = none }) (take x.len p.cfg_buf) v
          (ops.commit p.store v.owner v.seq v.config) in
      (
        ended,
        inr (record {
          xfer = x;
          v = v;
          begun = begun;
          full = full;
          checksum = checksum;
          genuine = verify_blob_sound p.store p.id (take x.len p.cfg_buf) x.seq_hint v h;
          committed = stored;
          stored = answered;
          reply = refl;
        }),
      )

  xfer_cases :
      (p : Provisioner S) (r : Option Xfer)
      → p.xfer ≡ r
      → let after = commit_xfer ops crates p r in
        (after.0.xfer ≡ none) × (Refused p after.0 after.1 ⊎ Authorised p after.0 after.1)
  unfolding commit_xfer
  xfer_cases p none h = (h, inl (refl, bad_state, refl))
  xfer_cases p (some x) h = elim (Bool-cases (is_complete x p.cfg_buf)) [
    | inr torn ↦ rw torn (refl, inl (refl, bad_crc, refl))
    | inl whole ↦ rw whole (
        checked_commit p x (verify_blob ops crates p.store p.id (take x.len p.cfg_buf) x.seq_hint) h
          (ground (arith, whole)) (ground (arith, whole)) refl)
  ]

  -- A CONFIG_COMMIT ends the transfer. Either it leaves the store alone and answers an error, or the
  -- transfer was complete, the checksum right, the blob opened with the device's secret to the sequence
  -- number announced, the device unbound or the number above the stored one, the inner message's key
  -- name an owner's key of 32 bytes and, on a bound device, the bound one, the message signed under that
  -- key, and its config valid; then the store is what its `commit` of that owner, number and config
  -- leaves, and where that fails the answer is the storage error.
  pub commit-Authorised :
      (p : Provisioner S)
      → let after = commit ops crates p in
        (after.0.xfer ≡ none) × (Refused p after.0 after.1 ⊎ Authorised p after.0 after.1)
  unfolding commit
  commit-Authorised p = xfer_cases p p.xfer refl

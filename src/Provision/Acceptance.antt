-- ===== src/Provision/Acceptance.antt =====
-- From the owner's server to the store of the device: sealing, transfer and commit together
-- (firmware/ephemerkey-provision/src/lib.rs, firmware/ephemerkey-envelope/src/lib.rs).
use ephemerkey.Common.{
  ℕ, ◌+◌, ◌<◌, ◌≤◌, ◌≡◌, refl, ap, ◌∙◌, inl, inr, true, false, Option, none, some, ◌==◌, leb, ◌&&◌,
  List, [], ◌∷◌, ◌++◌, length, arith,
}
use ephemerkey.Cbor.{ok}
use ephemerkey.Envelope.{sign1_write, seal_write_with}
use ephemerkey.Envelope.Signing.{SignLaws, sign1_verify-sign1_write, sign1_verify_sound}
use ephemerkey.Envelope.Sealing.{SealLaws, open_with-seal_write_with}
use ephemerkey.Wire.{crc32}
use ephemerkey.Provision.{
  StoreOps, Crates, Identity, Xfer, Provisioner, Response, config_max, config_begin, config_commit,
}
use ephemerkey.Provision.Verify.{
  pass, Verified, bound_to_other, is_some, verify_blob, verify_inner, commit, commit_xfer,
  commit_checked,
}
use ephemerkey.Provision.Session.{handle, handle_all}
use ephemerkey.Provision.Authority.{FreeFor, IsNewer, eq_bytes_refl, finish-store}
use ephemerkey.Provision.Delivery.{
  chunk_frames, joined, begin_payload, Holding, handle_begin, chunks-Holding,
}

-- The frames that carry a blob, in pieces, to a device.
abbrev pub transfer : ℕ → ℕ → ℕ → List (List ℕ) → List (ℕ × List ℕ)
transfer len seq crc cs =
    (config_begin, begin_payload len seq crc) ∷ chunk_frames 0 cs ++ (config_commit, []) ∷ []

not_other :
    (bound : Option (List ℕ)) (owner : List ℕ)
    → FreeFor owner bound
    → bound_to_other bound owner ≡ false
not_other bound owner (inl fresh) = rw fresh refl
not_other bound owner (inr held) = rw (held, eq_bytes_refl owner) refl

not_stale :
    (bound : Option (List ℕ)) (last seq : ℕ)
    → IsNewer seq last bound
    → (is_some bound && leb seq last) ≡ false
not_stale bound last seq (inl fresh) = rw fresh refl
not_stale none last seq (inr above) = refl
not_stale (some owner) last seq (inr above) = ground arith

-- A config as its owner's server signs it and seals it to a device.
pub record Built (crates : Crates) (id : Identity) (secret config : List ℕ) (seq : ℕ)
    (blob : List ℕ) : Type 0 where
  pub inner : List ℕ
  pub target : List ℕ
  pub eph_secret : List ℕ
  pub iv : List ℕ
  pub room : ℕ
  pub room' : ℕ
  pub signed :
      sign1_write crates.crypto room
        (config_max + 256)
        config
        (some (crates.public_key secret))
        secret
      ≡ ok inner
  pub sealed :
      seal_write_with crates.crypto room' inner
        (crates.crypto.kx_public id.kx_priv)
        seq
        target
        eph_secret
        iv
      ≡ ok blob
  pub config_fits : length config ≤ config_max
  pub inner_fits : length inner ≤ config_max
  pub target_fits : length target ≤ 12
  pub iv_length : length iv ≡ 12

module _ {S : Type 0} (ops : StoreOps S) (crates : Crates) where
  handle_all-append :
      (fs gs : List (ℕ × List ℕ)) (p : Provisioner S)
      → (handle_all ops crates p (fs ++ gs)).0
        ≡ (handle_all ops crates (handle_all ops crates p fs).0 gs).0
  unfolding handle_all
  handle_all-append [] gs p = refl
  handle_all-append ((ftype, payload) ∷ fs) gs p =
      handle_all-append fs gs (handle ops crates p ftype payload).0

  -- A device that would take the owner and the number.
  pub record Open (store : S) (owner config : List ℕ) (seq : ℕ) : Type 0 where
    pub owner_length : length owner ≡ 32
    pub key : crates.is_key owner ≡ true
    pub free : FreeFor owner (ops.owner_pub store)
    pub newer : IsNewer seq (ops.seq store) (ops.owner_pub store)
    pub valid : ops.validate_config store config ≡ true
    pub word32 : seq < 4294967296

  module _ (sign_laws : SignLaws crates.crypto crates.public_key)
      (seal_laws : SealLaws crates.crypto) where
    pub verify_blob_passes :
        (store : S) (id : Identity) (secret config : List ℕ) (seq : ℕ) (blob : List ℕ)
        → Built crates id secret config seq blob
        → Open store (crates.public_key secret) config seq
        → verify_blob ops crates store id blob seq
          ≡ pass (record { owner = crates.public_key secret; seq = seq; config = config })
    unfolding verify_blob verify_inner
    verify_blob_passes store id secret config seq blob b o =
        let owner = crates.public_key secret in
        let opened =
          (open_with-seal_write_with crates.crypto b.room' config_max seq b.inner id.kx_priv
            b.target b.eph_secret b.iv blob seal_laws (omega (arith, b.inner_fits)) b.inner_fits
            (omega (arith, b.target_fits)) b.iv_length (omega (arith, o.word32)) b.sealed).1 in
        let verified =
          sign1_verify-sign1_write crates.crypto crates.public_key sign_laws b.room
            (config_max + 256) config (some owner) secret b.inner (omega (arith, o.owner_length))
            (omega (arith, b.config_fits)) b.signed in
        let (s, message, bs, n, parsed, payload, named, c, f, g, k) =
          sign1_verify_sound crates.crypto b.inner (config_max + 256) owner config (some owner)
            verified in
        let same : (seq == seq) ≡ true = ground arith in
        let fresh = not_stale (ops.owner_pub store) (ops.seq store) seq o.newer in
        let unbound = not_other (ops.owner_pub store) owner o.free in
        rw (opened, same, fresh, parsed, named)
          (rw (o.owner_length, unbound, o.key, verified, o.valid) refl)

    held_commit :
        (p : Provisioner S) (store : S) (id : Identity) (x : Xfer) (blob : List ℕ) (v : Verified)
        → Holding ops crates p store id x blob
        → x.len ≡ length blob
        → x.crc ≡ crc32 blob
        → verify_blob ops crates store id blob x.seq_hint ≡ pass v
        → (handle ops crates p config_commit []).0.store
          ≡ (ops.commit store v.owner v.seq v.config).0
    unfolding handle commit commit_xfer commit_checked
    held_commit p store id x blob v h full checksum passed =
        let same : (length blob == length blob) ≡ true = ground arith in
        let right : (crc32 blob == crc32 blob) ≡ true = ground arith in
        rw (h.begun, full, h.held, checksum, same, right, h.stored, h.same_id)
          (rw passed
            (finish-store ops crates (record p { xfer = none; store = store; id = id }) blob v
              (ops.commit store v.owner v.seq v.config)).0)

    -- Under the laws of the primitives: a config that its owner signs with a key of 32 bytes and seals
    -- to the device, that is sent in any division into pieces with its number, its length of 1 to 4096
    -- bytes and its checksum, reaches the store of a device that is unbound, or bound to that owner at a
    -- lower number, and takes it for valid: the store is what its `commit` leaves.
    pub transfer-commit :
        (p : Provisioner S) (secret config : List ℕ) (seq : ℕ) (cs : List (List ℕ))
        → Built crates p.id secret config seq (joined cs)
        → Open p.store (crates.public_key secret) config seq
        → 0 < length (joined cs)
        → length (joined cs) ≤ config_max
        → crc32 (joined cs) < 4294967296
        → (handle_all ops crates p
            (transfer (length (joined cs)) seq (crc32 (joined cs)) cs)).0.store
          ≡ (ops.commit p.store (crates.public_key secret) seq config).0
    unfolding handle_all
    transfer-commit p secret config seq cs b o lo hi lc =
        let blob = joined cs in
        let x : Xfer = record { len = length blob; filled = 0; seq_hint = seq; crc = crc32 blob } in
        let begun = handle_begin ops crates p (length blob) seq (crc32 blob) lo hi o.word32 lc in
        let start : Holding ops crates (record p { xfer = some x }) p.store p.id x [] = record {
          stored = refl;
          same_id = refl;
          begun = refl;
          held = refl;
        } in
        let held =
          chunks-Holding ops crates cs (record p { xfer = some x }) p.store p.id x [] start hi
            (omega arith) in
        let passed = verify_blob_passes p.store p.id secret config seq blob b o in
        let rest = chunk_frames 0 cs ++ (config_commit, []) ∷ [] in
        ap (λ (r : Provisioner S × Response). (handle_all ops crates r.0 rest).0.store) begun
        ∙ (ap (λ (q : Provisioner S). q.store)
              (handle_all-append (chunk_frames 0 cs) ((config_commit, []) ∷ [])
                (record p { xfer = some x }))
            ∙ held_commit (handle_all ops crates (record p { xfer = some x }) (chunk_frames 0 cs)).0
                p.store p.id x blob _ held refl refl passed)

-- ===== src/Provision/Ownership.antt =====
-- A bound device stays bound: the owner and the sequence number over any traffic on the link
-- (firmware/ephemerkey-provision/src/lib.rs).
use ephemerkey.Common.{
  Run, ℕ, ◌≤◌, ◌≡◌, refl, ap, sym, ◌∙◌, ◌⊎◌, inl, inr, Bool, true, false, Option, none, some, ◌==◌,
  if◌then◌else◌, List, [], ◌∷◌, take, arith, Bool-cases,
}
use ephemerkey.Cbor.{Result, ok, err, ◌>>=◌}
use ephemerkey.Cbor.Decode
use ephemerkey.Wire
use ephemerkey.Wire.Scanning.{feed_returns}
use ephemerkey.Provision.{
  StoreOps, Crates, Identity, Xfer, Provisioner, Response, identity_req, challenge_frame,
  config_begin, config_chunk, config_commit, events_req, wifi_set_frame, wifi_status_req,
}
use ephemerkey.Provision.Verify.{Verified, commit}
use ephemerkey.Provision.Authority.{Genuine, FreeFor, IsNewer, commit-Authorised}
use ephemerkey.Provision.Session.{
  challenge, begin, chunk_of, chunk, identity, events_resp, wifi_read, wifi_fields, wifi_set,
  wifi_status_resp, handle, handle_all, handled, feed,
}

module _ {S : Type 0} (ops : StoreOps S) where
  -- The binding is the same, the owner and the sequence number.
  abbrev pub SameBinding : S → S → Type 0
  SameBinding s s' = (ops.owner_pub s' ≡ ops.owner_pub s) × (ops.seq s' ≡ ops.seq s)

  abbrev pub BoundTo : List ℕ → ℕ → S → Type 0
  BoundTo owner seq s = (ops.owner_pub s ≡ some owner) × (ops.seq s ≡ seq)

  -- What the engine's documentation asks of a store: a commit that succeeds binds the device, one that
  -- fails may have done so or not, and the wifi settings are no part of the binding.
  pub record StoreLaws : Type 0 where
    pub commit_done :
        (s : S) (owner config : List ℕ) (seq : ℕ)
        → (ops.commit s owner seq config).1 ≡ true
        → BoundTo owner seq (ops.commit s owner seq config).0
    pub commit_torn :
        (s : S) (owner config : List ℕ) (seq : ℕ)
        → (ops.commit s owner seq config).1 ≡ false
        → SameBinding s (ops.commit s owner seq config).0
          ⊎ BoundTo owner seq (ops.commit s owner seq config).0
    pub wifi_set_same : (s : S) (ssid psk : List ℕ) → SameBinding s (ops.wifi_set s ssid psk).0
    pub wifi_clear_same : (s : S) → SameBinding s (ops.wifi_clear s).0

  -- From one store to a later one: an owner stays, and the sequence number of an owner goes up only.
  abbrev pub KeepsOwner : S → S → Type 0
  KeepsOwner s s' =
      (owner : List ℕ)
      → ops.owner_pub s ≡ some owner
      → (ops.owner_pub s' ≡ some owner) × (ops.seq s ≤ ops.seq s')

  KeepsOwner-refl : (s : S) → KeepsOwner s s
  KeepsOwner-refl s owner bound = (bound, omega arith)

  KeepsOwner-trans : (a b c : S) → KeepsOwner a b → KeepsOwner b c → KeepsOwner a c
  KeepsOwner-trans a b c ab bc owner bound =
      let (at_b, up) = ab owner bound in let (at_c, up') = bc owner at_b in (at_c, omega arith)

  same_keeps : (s s' : S) → SameBinding s s' → KeepsOwner s s'
  same_keeps s s' (same, level) owner bound = (same ∙ bound, omega arith)

  bound_keeps :
      (s s' : S) (owner : List ℕ) (seq : ℕ)
      → FreeFor owner (ops.owner_pub s)
      → IsNewer seq (ops.seq s) (ops.owner_pub s)
      → BoundTo owner seq s'
      → KeepsOwner s s'
  bound_keeps s s' owner seq (inl fresh) newer (at, level) o bound = absurd (cc)
  bound_keeps s s' owner seq (inr held) (inl fresh) (at, level) o bound = absurd (cc)
  bound_keeps s s' owner seq (inr held) (inr above) (at, level) o bound =
      (at ∙ (sym held ∙ bound), omega arith)

  module _ (laws : StoreLaws) (crates : Crates) where
    commit_binding :
        (s : S) (v : Verified)
        → SameBinding s (ops.commit s v.owner v.seq v.config).0
          ⊎ BoundTo v.owner v.seq (ops.commit s v.owner v.seq v.config).0
    commit_binding s v = elim (Bool-cases (ops.commit s v.owner v.seq v.config).1) [
      | inl done ↦ inr (laws.commit_done s v.owner v.config v.seq done)
      | inr torn ↦ laws.commit_torn s v.owner v.config v.seq torn
    ]

    verified_keeps :
        (s s' : S) (id : Identity) (blob : List ℕ) (hint : ℕ) (v : Verified)
        → Genuine ops crates s id blob hint v
        → s' ≡ (ops.commit s v.owner v.seq v.config).0
        → KeepsOwner s s'
    verified_keeps s s' id blob hint v g at = rw at (elim (commit_binding s v) [
      | inl same ↦ same_keeps s _ same
      | inr bound ↦ bound_keeps s _ v.owner v.seq g.free g.newer bound
    ])

    commit_keeps : (p : Provisioner S) → KeepsOwner p.store (commit ops crates p).0.store
    commit_keeps p = elim (commit-Authorised ops crates p).1 [
      | inl (same, code, refused) ↦ rw same (KeepsOwner-refl p.store)
      | inr a ↦
          verified_keeps p.store _ p.id (take a.xfer.len p.cfg_buf) a.xfer.seq_hint a.v a.genuine
            a.committed
    ]

    wifi_keeps :
        (p : Provisioner S) (r : Result (Option (List ℕ) × Option (List ℕ)))
        → KeepsOwner p.store (wifi_read ops crates p r).0.store
    wifi_keeps p (err e) = KeepsOwner-refl p.store
    wifi_keeps p (ok (none, psk)) = KeepsOwner-refl p.store
    wifi_keeps p (ok (some [], psk)) = same_keeps p.store _ (laws.wifi_clear_same p.store)
    wifi_keeps p (ok (some (c ∷ cs), psk)) =
        same_keeps p.store _ (laws.wifi_set_same p.store (c ∷ cs) _)

    begin_store :
        (p : Provisioner S) (payload : List ℕ) → (begin ops crates p payload).0.store ≡ p.store
    unfolding begin
    begin_store p payload = ground arith

    chunk_store :
        (p : Provisioner S) (r : Option Xfer) (payload : List ℕ)
        → (chunk_of ops crates p r payload).0.store ≡ p.store
    unfolding chunk_of
    chunk_store p none payload = refl
    chunk_store p (some x) payload = ground arith

    -- Whichever of two answers it is.
    either_keeps :
        (p : Provisioner S) (test : Bool) (x y : Provisioner S × Response)
        → KeepsOwner p.store x.0.store
        → KeepsOwner p.store y.0.store
        → KeepsOwner p.store (if test then x else y).0.store
    either_keeps p true x y kx ky = kx
    either_keeps p false x y kx ky = ky

    handle_keeps :
        (p : Provisioner S) (ftype : ℕ) (payload : List ℕ)
        → KeepsOwner p.store (handle ops crates p ftype payload).0.store
    unfolding handle identity challenge chunk events_resp wifi_set wifi_status_resp
    handle_keeps p ftype payload =
        let still = KeepsOwner-refl p.store in
        either_keeps p (ftype == identity_req) _ _ still (
          either_keeps p (ftype == challenge_frame) _ _ still (
            either_keeps p (ftype == config_begin) _ _
              (same_keeps p.store _
                (ap ops.owner_pub (begin_store p payload), ap ops.seq (begin_store p payload)))
              (either_keeps p (ftype == config_chunk) _ _
                (same_keeps p.store _ (
                  ap ops.owner_pub (chunk_store p p.xfer payload),
                  ap ops.seq (chunk_store p p.xfer payload),
                ))
                (either_keeps p (ftype == config_commit) _ _ (commit_keeps p) (
                  either_keeps p (ftype == events_req) _ _ still (
                    either_keeps p (ftype == wifi_set_frame) _ _
                      (wifi_keeps p (
                        Decode.map payload >>= λ (n, bs).
                        wifi_fields crates.is_utf8 n none none bs))
                      (either_keeps p (ftype == wifi_status_req) _ _ still still)))))))

    handle_all_keeps :
        (fs : List (ℕ × List ℕ)) (p : Provisioner S)
        → KeepsOwner p.store (handle_all ops crates p fs).0.store
    unfolding handle_all
    handle_all_keeps [] p = KeepsOwner-refl p.store
    handle_all_keeps ((ftype, payload) ∷ fs) p =
        KeepsOwner-trans p.store _ _ (handle_keeps p ftype payload)
          (handle_all_keeps fs (handle ops crates p ftype payload).0)

    handled_keeps :
        (p : Provisioner S) (r : Run (List ℕ × List (ℕ × List ℕ)))
        → (p' : Provisioner S) (out : List (List ℕ)) → handled ops crates p r ≡ some (p', out)
        → KeepsOwner p.store p'.store
    handled_keeps p none p' out went = absurd (cc)
    handled_keeps p (some (buf, frames)) p' out went =
        let all = handle_all_keeps (take 2 frames) (record p { parser = buf }) in
        let q : handle_all ops crates (record p { parser = buf }) (take 2 frames) ≡ (p', out) =
          cc in
        rw (sym (ap (λ (r : Provisioner S × List (List ℕ)). r.0.store) q)) all

    -- The device on a link: the pieces of bytes that arrive, one `feed` after the other.
    pub data Heard : Provisioner S → Provisioner S → Type 0 where
      silent : {p : Provisioner S} → Heard p p
      heard :
          {p p1 p2 : Provisioner S} (bytes : List ℕ) {out : List (List ℕ)}
          → feed ops crates p bytes ≡ some (p1, out)
          → Heard p1 p2
          → Heard p p2

    -- Over a lawful store, whatever bytes arrive on the link: a device that is bound stays bound to the
    -- same owner, and its sequence number never goes down.
    pub Heard-KeepsOwner : {p p' : Provisioner S} → Heard p p' → KeepsOwner p.store p'.store
    unfolding feed
    Heard-KeepsOwner silent = KeepsOwner-refl _
    Heard-KeepsOwner (heard {p = p} {p1 = p1} bytes {out} h rest) =
        KeepsOwner-trans p.store p1.store _ (handled_keeps p (Wire.feed p.parser bytes) p1 out h)
          (Heard-KeepsOwner rest)

  -- Whatever bytes arrive in one call, the device handles them and returns.
  pub feed-returns :
      (crates : Crates) (p : Provisioner S) (bytes : List ℕ)
      → (r : Provisioner S × List (List ℕ)) × (feed ops crates p bytes ≡ some r)
  unfolding feed
  feed-returns crates p bytes =
      let ((buf, frames), went) = feed_returns bytes p.parser in
      (handle_all ops crates (record p { parser = buf }) (take 2 frames), rw went refl)

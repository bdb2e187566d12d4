-- ===== src/Provision/Flash.antt =====
-- The store of the device, the flash journal, under the engine: firmware/ephemerkey-rs/src/provision.rs.
-- The clock (`now_unix`) is a parameter.
use ephemerkey.Common.{
  ℕ, ◌+◌, ◌≤◌, ◌≡◌, refl, ◌⊎◌, inl, inr, Bool, true, false, Option, none, some, ltb, ◌||◌,
  if◌then◌else◌, u32, List, [], ◌∷◌, length, arith, Bool-cases, ap, ◌<◌,
}
use ephemerkey.Journal.{
  FlashOps, Journal, Mirror, Done, StoreError, config_cap, stale_slot, record_bytes, rewrite_page,
  persist, commit_config, wifi_set, wifi_clear,
}
use ephemerkey.Journal
use ephemerkey.Journal.Records.{Fits}
use ephemerkey.Journal.Recovery.{FlashLaws, LayoutOk}
use ephemerkey.Journal.Commit.{Remounts, Recovers, configured, commit_config_ok, commit_config_err}
use ephemerkey.Provision.{StoreOps, Crates, Identity, seq_rollback}
use ephemerkey.Provision.Verify.{pass, fail, Verified, verify_blob}
use ephemerkey.Provision.Authority.{verify_blob_sound, rollback-refused}
use ephemerkey.Provision.Ownership.{SameBinding, BoundTo, StoreLaws}

abbrev pub is_done : Done → Bool
is_done Journal.ok = true
is_done (Journal.err e) = false

abbrev pub or_zero : Option ℕ → ℕ
or_zero none = 0
or_zero (some t) = t

-- `journal.wifi_ssid`: no name where it is empty, or no text.
abbrev pub ssid_of : (List ℕ → Bool) → List ℕ → Option (List ℕ)
ssid_of is_utf8 [] = none
ssid_of is_utf8 (c ∷ cs) = if is_utf8 (c ∷ cs) then some (c ∷ cs) else none

-- `validate_config` is the trait's default, which accepts everything.
abbrev pub flash_store :
    {F : Type 0} → FlashOps F → (List ℕ → Bool) → (Journal F → Option ℕ) → StoreOps (Journal F)
flash_store ops is_utf8 now_unix = record {
  owner_pub = λ j. j.live.owner;
  seq = λ j. j.live.seq;
  validate_config = λ j config. true;
  commit = λ j owner seq config.
      let (j', done) = commit_config ops j owner seq config in (j', is_done done);
  wifi_set = λ j ssid psk. let (j', done) = wifi_set ops j ssid psk in (j', is_done done);
  wifi_clear = λ j. let (j', done) = wifi_clear ops j in (j', is_done done);
  wifi_ssid = λ j. ssid_of is_utf8 j.live.ssid;
  now = λ j. or_zero (now_unix j);
}

module _ {F : Type 0} (ops : FlashOps F) (is_utf8 : List ℕ → Bool)
    (now_unix : Journal F → Option ℕ) where
  abbrev store : StoreOps (Journal F)
  store = flash_store ops is_utf8 now_unix

  -- A record that is written, or that fails to be, leaves the owner and the number of the mirror.
  persist_binding :
      (j : Journal F)
      → ((persist ops j).0.live.owner ≡ j.live.owner) × ((persist ops j).0.live.seq ≡ j.live.seq)
  unfolding persist
  persist_binding j =
      let w =
        rewrite_page ops j.flash (stale_slot j.layout j.live.cur_slot)
          (record_bytes j.live (u32 (j.live.generation + 1))) in
      elim (Bool-cases w.1) [ inl good ↦ rw good (refl, refl) | inr torn ↦ rw torn (refl, refl) ]

  fitting_binding :
      (j : Journal F) (owner config : List ℕ) (seq : ℕ)
      → ltb config_cap (length config) ≡ false
      → BoundTo store owner seq (commit_config ops j owner seq config).0
  unfolding commit_config
  fitting_binding j owner config seq fits = rw fits (
      persist_binding
        (record j { live = record j.live { owner = some owner; seq = seq; config = config } }))

  commit_binding :
      (j : Journal F) (owner config : List ℕ) (seq : ℕ)
      → ((commit_config ops j owner seq config) ≡ (j, Journal.err StoreError.too_big))
        ⊎ BoundTo store owner seq (commit_config ops j owner seq config).0
  unfolding commit_config
  commit_binding j owner config seq = elim (Bool-cases (ltb config_cap (length config))) [
    | inl big ↦ rw big (inl refl)
    | inr fits ↦ inr (fitting_binding j owner config seq fits)
  ]

  wifi_binding :
      (j : Journal F) (ssid psk : List ℕ) → SameBinding store j (wifi_set ops j ssid psk).0
  unfolding wifi_set
  wifi_binding j ssid psk =
      elim (Bool-cases (ltb Journal.ssid_max (length ssid) || ltb Journal.psk_max (length psk))) [
        | inl big ↦ rw big (refl, refl)
        | inr fits ↦
            rw fits (persist_binding (record j { live = record j.live { ssid = ssid; psk = psk } }))
      ]

  -- The journal is a lawful store of the provisioning engine.
  pub flash_store-StoreLaws : StoreLaws store
  unfolding wifi_clear
  flash_store-StoreLaws = record {
    commit_done = λ j owner config seq done. elim (commit_binding j owner config seq) [
      | inl big ↦ absurd (let e = rw big at done in cc)
      | inr bound ↦ bound
    ];
    commit_torn = λ j owner config seq torn. elim (commit_binding j owner config seq) [
      | inl big ↦ rw big (inl (refl, refl))
      | inr bound ↦ inr bound
    ];
    wifi_set_same = λ j ssid psk. wifi_binding j ssid psk;
    wifi_clear_same =
        λ j. persist_binding (record j { live = record j.live { ssid = []; psk = [] } });
  }

  -- A commit of an owner, a number and a config that fit, over a journal that a mount would give back,
  -- binds the store to them. The engine is told that it succeeded where a mount of the flash then gives
  -- the journal that holds them; where it is told of a failure, a mount gives the journal as it was
  -- before, or, where the slot that was written holds a valid record that is not older, that record.
  -- Generations do not wrap.
  pub flash_store-commit :
      (laws : FlashLaws ops) (j : Journal F) (owner config : List ℕ) (seq : ℕ)
      → LayoutOk j.layout
      → Remounts ops laws j
      → Fits (configured ops laws j owner seq config)
      → j.live.generation + 1 < 4294967296
      → let (j', done) = store.commit j owner seq config in
        BoundTo store owner seq j'
        × (j'.live.config ≡ config)
        × (((done ≡ true) × Remounts ops laws j') ⊎ ((done ≡ false) × Recovers ops laws j j'.flash))
  flash_store-commit laws j owner config seq lay r fits room =
      let b = fitting_binding j owner config seq (ground (arith, fits.config_fits)) in
      told (commit_config ops j owner seq config).1 refl b
    where
      pair :
          {d : Done}
          → (commit_config ops j owner seq config).1 ≡ d
          → commit_config ops j owner seq config ≡ ((commit_config ops j owner seq config).0, d)
      pair e = ap (λ (x : Done). ((commit_config ops j owner seq config).0, x)) e

      told :
          (d : Done)
          → (commit_config ops j owner seq config).1 ≡ d
          → BoundTo store owner seq (commit_config ops j owner seq config).0
          → let j' = (commit_config ops j owner seq config).0 in
            BoundTo store owner seq j'
            × (j'.live.config ≡ config)
            × (((is_done (commit_config ops j owner seq config).1 ≡ true) × Remounts ops laws j')
                ⊎ ((is_done (commit_config ops j owner seq config).1 ≡ false)
                    × Recovers ops laws j j'.flash))
      told Journal.ok e b =
          let (again, live) =
            commit_config_ok ops laws j owner seq config lay r fits room (pair e) in
          (b, ap (λ (m : Mirror). m.config) live, inl (ap is_done e, again))
      told (Journal.err x) e b =
          let (live, _, back) =
            commit_config_err ops laws j owner seq config lay r fits room (pair e) in
          (b, ap (λ (m : Mirror). m.config) live, inr (ap is_done e, back))

  -- A blob that was accepted, with a config that the journal has room for, is refused as a rollback when
  -- it comes again, whether or not the commit reached the flash.
  pub replay-refused :
      (crates : Crates) (j : Journal F) (id : Identity) (blob : List ℕ) (seq_hint : ℕ)
      (v : Verified)
      → verify_blob store crates j id blob seq_hint ≡ pass v
      → length v.config ≤ config_cap
      → verify_blob store crates (commit_config ops j v.owner v.seq v.config).0 id blob seq_hint
        ≡ fail seq_rollback
  replay-refused crates j id blob seq_hint v h fits =
      let g = verify_blob_sound store crates j id blob seq_hint v h in
      let (at, level) = fitting_binding j v.owner v.config v.seq (ground arith) in
      rollback-refused store crates (commit_config ops j v.owner v.seq v.config).0 id blob g.inner
        v.owner v.seq seq_hint g.opened g.hinted at (omega (arith, level))

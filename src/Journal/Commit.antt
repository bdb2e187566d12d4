-- ===== src/Journal/Commit.antt =====
-- The commits of the journal, as a later mount sees them.
use mathlib.Core.Path.{subst}
use ephemerkey.Common.{
  ℕ, ◌+◌, ◌≡◌, ◌≢◌, ◌<◌, refl, sym, ap, ◌∙◌, Option, none, some, List, true, false, Bool, ltb, ◌==◌,
  ◌||◌, if◌then◌else◌, arith, inl, inr, ◌⊎◌, Bool-cases, Option-cases, length, u32,
}
use ephemerkey.Journal.{
  config_cap, ssid_max, psk_max, StoreError, Done, ok, err, FlashOps, Layout, Mirror, Journal,
  blank, load_config, stale_slot, record_bytes, rewrite_page, persist, commit_config, wifi_set,
  mount, mount_with, parse_identity,
}
use ephemerkey.Journal.Records.{Fits, length-record}
use ephemerkey.Journal.Recovery.{
  FlashLaws, LayoutOk, IsPage, Durable, Supersedes, target, target-IsPage, rewrite_page_keeps,
  written_loads, torn_loads,
}

identity_ne_stale : (l : Layout) (o : Option ℕ) → LayoutOk l → l.identity ≢ stale_slot l o
identity_ne_stale l none lay = lay.identity_ne_a
identity_ne_stale l (some s) lay = elim (Bool-cases (s == l.slot_a)) [
  | inl same ↦ rw same lay.identity_ne_b
  | inr other ↦ rw other lay.identity_ne_a
]

module _ {F : Type 0} (ops : FlashOps F) (laws : FlashLaws ops) where
  -- A mount of the flash gives the journal, with its mirror and its identity.
  abbrev pub Remounts : Journal F → Type 0
  Remounts j = mount ops j.flash j.layout ≡ some j

  -- A flash whose pages other than `t` read as those of another.
  abbrev pub SameBut : ℕ → F → F → Type 0
  SameBut t f f' = (p n : ℕ) → IsPage p → p ≢ t → ops.read f' p n ≡ ops.read f p n

  Mounted : Journal F → Type 0
  Mounted j =
      (buf : List ℕ) × (ops.read j.flash j.layout.identity 96 ≡ some buf)
      × (parse_identity buf ≡ j.identity)
      × Durable ops laws j

  Remounts-Mounted : (j : Journal F) → Remounts j → Mounted j
  unfolding mount mount_with Mounted
  Remounts-Mounted j r = elim (Option-cases (ops.read j.flash j.layout.identity 96)) [
    | inl gone ↦ absurd (let z : none ≡ some j = rw gone at r in cc)
    | inr (buf, e) ↦
        let z : some (record {
          flash = j.flash;
          layout = j.layout;
          live = load_config ops j.flash j.layout blank;
          identity = parse_identity buf;
        })
            ≡ some j =
          rw e at r in
        (buf, e, ground (arith, z), ground (arith, z))
  ]

  Mounted-Remounts : (j : Journal F) → Mounted j → Remounts j
  unfolding mount mount_with Mounted
  Mounted-Remounts j (buf, e, i, d) = rw e (ground (arith, i, d))

  -- What a mount finds on the flash `f'` after the journal `j`: `j` as it was, or, where the slot that
  -- a commit writes holds a valid record that is not older, the journal with that record.
  abbrev pub Recovers : Journal F → F → Type 0
  Recovers j f' =
      (mount ops f' j.layout ≡ some (record j { flash = f' }))
      ⊎ ((m : Mirror) × Supersedes ops laws j f' m
          × (mount ops f' j.layout ≡ some (record j { flash = f'; live = m })))

  torn_Recovers :
      (j : Journal F) (f' : F)
      → LayoutOk j.layout
      → Remounts j
      → SameBut (target ops laws j) j.flash f'
      → Recovers j f'
  unfolding Mounted
  torn_Recovers j f' lay r same =
      let (buf, at, i, d) = Remounts-Mounted j r in
      let there : ops.read f' j.layout.identity 96 ≡ some buf =
        same j.layout.identity 96 lay.identity_page (identity_ne_stale j.layout j.live.cur_slot lay)
        ∙ at in
      elim (torn_loads ops laws j f' lay d same) [
        | inl old ↦ inl (Mounted-Remounts (record j { flash = f' }) (buf, there, i, old))
        | inr (m, s, new) ↦
            inr (m, s, Mounted-Remounts (record j { flash = f'; live = m }) (buf, there, i, new))
      ]

  -- The two ends of `persist`.
  module _ (j : Journal F) (new : Mirror) (lay : LayoutOk j.layout) (r : Remounts j)
      (fits : Fits new) (room : j.live.generation + 1 < 4294967296)
      (gen_eq : new.generation ≡ j.live.generation) (slot_eq : new.cur_slot ≡ j.live.cur_slot) where
    abbrev changed : Journal F
    changed = record j { live = new }

    abbrev rewritten : F × Bool
    rewritten =
        rewrite_page ops j.flash (target ops laws j) (record_bytes new (j.live.generation + 1))

    persist_lem : persist ops changed ≡ (
        if rewritten.1
        then (
          record j {
            flash = rewritten.0;
            live = record new {
              cur_slot = some (target ops laws j);
              generation = j.live.generation + 1;
            };
          },
          ok,
        )
        else (record j { flash = rewritten.0; live = new }, err StoreError.flash))
    unfolding persist
    persist_lem =
        let w : u32 (new.generation + 1) ≡ j.live.generation + 1 = omega arith in
        rw (w, slot_eq) refl

    rewritten-SameBut : SameBut (target ops laws j) j.flash rewritten.0
    rewritten-SameBut p n ip ne =
        rewrite_page_keeps ops laws j.flash (target ops laws j) p n _ (target-IsPage ops laws j lay)
          ip (length-record new (j.live.generation + 1) fits room).0 ne

    persisted-Remounts :
        rewritten.1 ≡ true
        → Remounts (record j {
          flash = rewritten.0;
          live = record new {
            cur_slot = some (target ops laws j);
            generation = j.live.generation + 1;
          };
        })
    unfolding Mounted
    persisted-Remounts good =
        let (buf, at, i, d) = Remounts-Mounted j r in
        let there : ops.read rewritten.0 j.layout.identity 96 ≡ some buf =
          rewritten-SameBut j.layout.identity 96 lay.identity_page
            (identity_ne_stale j.layout j.live.cur_slot lay)
          ∙ at in
        Mounted-Remounts _ (buf, there, i, written_loads ops laws j new lay d fits room good)

    persisted_ok :
        {j' : Journal F}
        → persist ops changed ≡ (j', ok)
        → Remounts j'
          × (j'.live ≡ record new {
            cur_slot = some (target ops laws j);
            generation = j.live.generation + 1;
          })
    persisted_ok {j'} h = elim (Bool-cases rewritten.1) [
      | inl good ↦
          let e : ◌≡◌ {A = Journal F × Done}
              (
                record j {
                  flash = rewritten.0;
                  live = record new {
                    cur_slot = some (target ops laws j);
                    generation = j.live.generation + 1;
                  };
                },
                ok,
              )
              (j', ok) =
            rw (persist_lem, good) at h in
          let q = ap (λ (p : Journal F × Done). p.0) e in
          (subst Remounts q (persisted-Remounts good), ap (λ (x : Journal F). x.live) (sym q))
      | inr bad ↦ absurd (let e = rw (persist_lem, bad) at h in ground (arith, e))
    ]

    persisted_err :
        {j' : Journal F} {e : StoreError}
        → persist ops changed ≡ (j', err e)
        → (j'.live ≡ new) × (j'.layout ≡ j.layout) × Recovers j j'.flash
    persisted_err {j'} h = elim (Bool-cases rewritten.1) [
      | inl good ↦ absurd (let e = rw (persist_lem, good) at h in ground (arith, e))
      | inr bad ↦
          let e : ◌≡◌ {A = Journal F × Done}
              (record j { flash = rewritten.0; live = new }, err StoreError.flash) (j', _) =
            rw (persist_lem, bad) at h in
          let q = ap (λ (p : Journal F × Done). p.0) e in
          let f : rewritten.0 ≡ j'.flash = ap (λ (x : Journal F). x.flash) q in
          (
            ap (λ (x : Journal F). x.live) (sym q),
            ap (λ (x : Journal F). x.layout) (sym q),
            torn_Recovers j j'.flash lay r
                (subst (λ g. SameBut (target ops laws j) j.flash g) f rewritten-SameBut),
          )
    ]

    -- Whether the record was written or not.
    persisted-Recovers : Recovers j (persist ops changed).0.flash
    persisted-Recovers =
        let recovers = torn_Recovers j rewritten.0 lay r rewritten-SameBut in
        elim (Bool-cases rewritten.1) [
          | inl good ↦ rw (persist_lem, good) recovers
          | inr bad ↦ rw (persist_lem, bad) recovers
        ]

  abbrev pub configured : Journal F → List ℕ → ℕ → List ℕ → Mirror
  configured j owner seq config = record j.live { owner = some owner; seq = seq; config = config }

  -- A commit of an owner, a sequence number and a configuration that fit, over a journal that a mount
  -- would give back: when it succeeds, a mount of the flash gives the journal that it returns, which
  -- holds them in the slot that was stale, with the next generation and the network as before.
  -- Generations do not wrap.
  pub commit_config_ok :
      (j : Journal F) {j' : Journal F} (owner : List ℕ) (seq : ℕ) (config : List ℕ)
      → LayoutOk j.layout
      → Remounts j
      → Fits (configured j owner seq config)
      → j.live.generation + 1 < 4294967296
      → commit_config ops j owner seq config ≡ (j', ok)
      → Remounts j'
        × (j'.live ≡ record (configured j owner seq config) {
          cur_slot = some (target ops laws j);
          generation = j.live.generation + 1;
        })
  unfolding commit_config
  commit_config_ok j owner seq config lay r fits room h =
      let small : ltb config_cap (length config) ≡ false = ground (arith, fits.config_fits) in
      persisted_ok j (configured j owner seq config) lay r fits room refl refl (rw small at h)

  -- However the flash answers an erase and a write, and whatever it leaves in their page, so also
  -- where power is lost in one of them and nothing more is done: after a commit of what fits over a
  -- journal that a mount would give back, a mount gives that journal as it was, or, where the slot
  -- that the commit writes holds a valid record that is not older, that record. Generations do not
  -- wrap.
  pub torn_commit :
      (j : Journal F) (owner : List ℕ) (seq : ℕ) (config : List ℕ)
      → LayoutOk j.layout
      → Remounts j
      → Fits (configured j owner seq config)
      → j.live.generation + 1 < 4294967296
      → Recovers j (commit_config ops j owner seq config).0.flash
  unfolding commit_config
  torn_commit j owner seq config lay r fits room =
      let small : ltb config_cap (length config) ≡ false = ground (arith, fits.config_fits) in
      rw small (persisted-Recovers j (configured j owner seq config) lay r fits room refl refl)

  -- A commit that fails, of an owner, a sequence number and a configuration that fit, over a journal
  -- that a mount would give back: it leaves them in RAM, where they are what the journal answers with,
  -- while a mount of the flash gives the journal as it was before the commit, or, where the slot that
  -- the commit writes holds a valid record that is not older, that record. Generations do not wrap.
  pub commit_config_err :
      (j : Journal F) {j' : Journal F} {e : StoreError} (owner : List ℕ) (seq : ℕ) (config : List ℕ)
      → LayoutOk j.layout
      → Remounts j
      → Fits (configured j owner seq config)
      → j.live.generation + 1 < 4294967296
      → commit_config ops j owner seq config ≡ (j', err e)
      → (j'.live ≡ configured j owner seq config) × (j'.layout ≡ j.layout) × Recovers j j'.flash
  unfolding commit_config
  commit_config_err j owner seq config lay r fits room h =
      let small : ltb config_cap (length config) ≡ false = ground (arith, fits.config_fits) in
      persisted_err j (configured j owner seq config) lay r fits room refl refl (rw small at h)

  -- Network credentials that fit are kept in the same way, and leave the owner binding alone.
  pub wifi_set_ok :
      (j : Journal F) {j' : Journal F} (ssid psk : List ℕ)
      → LayoutOk j.layout
      → Remounts j
      → Fits (record j.live { ssid = ssid; psk = psk })
      → j.live.generation + 1 < 4294967296
      → wifi_set ops j ssid psk ≡ (j', ok)
      → Remounts j'
        × (j'.live.ssid ≡ ssid)
        × (j'.live.psk ≡ psk)
        × (j'.live.owner ≡ j.live.owner)
        × (j'.live.seq ≡ j.live.seq)
        × (j'.live.config ≡ j.live.config)
  unfolding wifi_set
  wifi_set_ok j {j'} ssid psk lay r fits room h =
      let small : (ltb ssid_max (length ssid) || ltb psk_max (length psk)) ≡ false =
        ground (arith, fits.ssid_fits, fits.psk_fits) in
      let (again, q) =
        persisted_ok j (record j.live { ssid = ssid; psk = psk }) lay r fits room refl refl
          (rw small at h) in
      (
        again,
        ap (λ (m : Mirror). m.ssid) q,
        ap (λ (m : Mirror). m.psk) q,
        ap (λ (m : Mirror). m.owner) q,
        ap (λ (m : Mirror). m.seq) q,
        ap (λ (m : Mirror). m.config) q,
      )

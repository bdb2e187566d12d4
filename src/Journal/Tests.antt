-- ===== src/Journal/Tests.antt =====
-- The journal over a flash in RAM: the content of each page, by its offset.
use ephemerkey.Common.{
  ℕ, zero, suc, ◌-◌, ◌≡◌, ◌≢◌, ◌≤◌, refl, ap, ◌∙◌, true, false, none, some, List, [], ◌∷◌, ◌++◌,
  length, take, drop, replicate, update, arith, ◌⊎◌,
}
use ephemerkey.Wire.{crc32}
use ephemerkey.Journal.{
  page, erased, FlashOps, Journal, Mirror, StoreError, StoredIdentity, ok, err, default_layout,
  blank, mount, mount_with, parse_identity, parse_header, load_config, load_slot, rewrite_page,
  persist, commit_config, identity_bytes,
}
use ephemerkey.Journal.Records.{Fits}
use ephemerkey.Journal.Recovery.{FlashLaws, LayoutOk}
use ephemerkey.Journal.Commit.{Remounts, Recovers, torn_commit, commit_config_ok, commit_config_err}
use ephemerkey.Provision.{StoreOps}
use ephemerkey.Provision.Ownership.{BoundTo}
use ephemerkey.Provision.Flash.{flash_store, flash_store-commit}

abbrev Ram : Type 0
Ram = ℕ → List ℕ

erased_page : List ℕ
erased_page = replicate page erased

abbrev ram : FlashOps Ram
ram = record {
  read = λ f off n. some (take n (f off));
  erase_page = λ f off. (update f off erased_page, true);
  write = λ f off bytes. (update f off (bytes ++ drop (length bytes) (f off)), true);
}

filled :
    (n x : ℕ) (bytes : List ℕ)
    → length bytes ≤ n
    → take n (bytes ++ drop (length bytes) (replicate n x))
      ≡ bytes ++ replicate (n - length bytes) x
filled zero x [] h = refl
filled (suc n) x [] h =
    let k : suc n - 0 ≡ suc (n - 0) = omega arith in
    rw k (ap (λ l. x ∷ l) (filled n x [] (omega arith)))
filled zero x (b ∷ bytes) h = absurd (omega arith)
filled (suc n) x (b ∷ bytes) h =
    let k : suc n - suc (length bytes) ≡ n - length bytes = omega arith in
    rw k (ap (λ l. b ∷ l) (filled n x bytes (omega arith)))

update_ne : (f : Ram) (i : ℕ) (v : List ℕ) (j : ℕ) → j ≢ i → update f i v j ≡ f j
update_ne f i v j ne = ground arith

update_here : (f : Ram) (i : ℕ) (v : List ℕ) → update f i v i ≡ v
update_here f i v = ground arith

ram_laws : FlashLaws ram
unfolding erased_page
ram_laws = record {
  erase_keeps = λ f off p n io ip ne. ap (λ l. some (take n l)) (update_ne f off _ p ne);
  write_keeps = λ f off p n bytes io ip len ne. ap (λ l. some (take n l)) (update_ne f off _ p ne);
  written = λ f off bytes io len words e w. ap some (
      ap (λ l. take page l) (update_here (update f off erased_page) off _)
      ∙ ap (λ l. take page (bytes ++ drop (length bytes) l)) (update_here f off erased_page)
      ∙ filled page erased bytes len);
}

layout-LayoutOk : LayoutOk default_layout
layout-LayoutOk = record {
  identity_page = refl;
  a_page = refl;
  b_page = refl;
  slots_ne = λ e. omega arith;
  identity_ne_a = λ e. omega arith;
  identity_ne_b = λ e. omega arith;
}

-- A factory-fresh device.
abbrev fresh : Journal Ram
fresh = record { flash = λ _. erased_page; layout = default_layout; live = blank; identity = none }

fresh-Remounts : Remounts ram ram_laws fresh
unfolding mount mount_with parse_identity load_config load_slot parse_header erased_page
fresh-Remounts = refl

abbrev owner_key : List ℕ
owner_key = replicate 32 7

abbrev settings : List ℕ
settings = 0xa1 ∷ 0x01 ∷ 0x02 ∷ []

settings-Fits : Fits (record blank { owner = some owner_key; seq = 5; config = settings })
settings-Fits = record {
  owner_fits = refl;
  seq_u64 = omega arith;
  config_fits = omega arith;
  ssid_fits = omega arith;
  psk_fits = omega arith;
  owner_bytes_ok = omega arith;
  config_bytes_ok = omega arith;
  ssid_bytes_ok = tt;
  psk_bytes_ok = tt;
}

abbrev bound : Journal Ram
bound = (commit_config ram fresh owner_key 5 settings).0

bound_ok : commit_config ram fresh owner_key 5 settings ≡ (bound, ok)
unfolding commit_config persist rewrite_page
bound_ok = refl

commit_config_ok_example :
    Remounts ram ram_laws bound
    × (bound.live ≡ record {
      generation = 1;
      cur_slot = some default_layout.slot_a;
      owner = some owner_key;
      seq = 5;
      config = settings;
      ssid = [];
      psk = [];
    })
commit_config_ok_example =
    commit_config_ok ram ram_laws fresh owner_key 5 settings layout-LayoutOk fresh-Remounts
      settings-Fits (omega arith) bound_ok

-- Power is lost in the middle of a write: its page starts like the record, and breaks off.
abbrev cut_off : FlashOps Ram
cut_off = record ram { write = λ f off bytes. (update f off (take 6 bytes), false) }

cut_off_laws : FlashLaws cut_off
cut_off_laws = record {
  erase_keeps = λ f off p n io ip ne. ram_laws.erase_keeps f off p n io ip ne;
  write_keeps = λ f off p n bytes io ip len ne. ap (λ l. some (take n l)) (update_ne f off _ p ne);
  written = λ f off bytes io len words e w. absurd (let z : false ≡ true = w in cc);
}

bound-Remounts : Remounts cut_off cut_off_laws bound
unfolding mount mount_with load_config
bound-Remounts = commit_config_ok_example.0

renewed-Fits : Fits (record bound.live { owner = some owner_key; seq = 6; config = settings })
unfolding commit_config persist rewrite_page
renewed-Fits = record {
  owner_fits = refl;
  seq_u64 = omega arith;
  config_fits = omega arith;
  ssid_fits = omega arith;
  psk_fits = omega arith;
  owner_bytes_ok = omega arith;
  config_bytes_ok = omega arith;
  ssid_bytes_ok = tt;
  psk_bytes_ok = tt;
}

torn_commit_example :
    Recovers cut_off cut_off_laws bound (commit_config cut_off bound owner_key 6 settings).0.flash
unfolding commit_config persist rewrite_page
torn_commit_example =
    torn_commit cut_off cut_off_laws bound owner_key 6 settings layout-LayoutOk bound-Remounts
      renewed-Fits
      (let one = ap (λ (m : Mirror). m.generation) commit_config_ok_example.1 in omega arith)

-- A flash that erases and does not write.
abbrev worn : FlashOps Ram
worn = record ram { write = λ f off bytes. (f, false) }

worn_laws : FlashLaws worn
worn_laws = record {
  erase_keeps = λ f off p n io ip ne. ram_laws.erase_keeps f off p n io ip ne;
  write_keeps = λ f off p n bytes io ip len ne. refl;
  written = λ f off bytes io len words e w. absurd (let z : false ≡ true = w in cc);
}

failing : Journal Ram
failing = (commit_config worn fresh owner_key 5 settings).0

failing_err : commit_config worn fresh owner_key 5 settings ≡ (failing, err StoreError.flash)
unfolding commit_config persist rewrite_page failing
failing_err = refl

fresh-Remounts-worn : Remounts worn worn_laws fresh
unfolding mount mount_with load_config
fresh-Remounts-worn = fresh-Remounts

commit_config_err_example :
    (failing.live ≡ record blank { owner = some owner_key; seq = 5; config = settings })
    × (failing.layout ≡ default_layout)
    × Recovers worn worn_laws fresh failing.flash
commit_config_err_example =
    commit_config_err worn worn_laws fresh owner_key 5 settings layout-LayoutOk fresh-Remounts-worn
      settings-Fits (omega arith) failing_err

abbrev minted : StoredIdentity
minted = record { device_id = replicate 12 1; sign_seed = replicate 32 2; kx_priv = replicate 32 3 }

identity_kept : parse_identity (take 96 (identity_bytes minted)) ≡ some minted
unfolding parse_identity identity_bytes crc32
identity_kept = refl

abbrev ram_store : StoreOps (Journal Ram)
ram_store = flash_store ram (λ s. true) (λ j. none)

flash_store-commit_example :
    let (j', done) = ram_store.commit fresh owner_key 5 settings in
    BoundTo ram_store owner_key 5 j'
    × (j'.live.config ≡ settings)
    × (((done ≡ true) × Remounts ram ram_laws j')
        ⊎ ((done ≡ false) × Recovers ram ram_laws fresh j'.flash))
flash_store-commit_example =
    flash_store-commit ram (λ s. true) (λ j. none) ram_laws fresh owner_key settings 5
      layout-LayoutOk fresh-Remounts settings-Fits (omega arith)

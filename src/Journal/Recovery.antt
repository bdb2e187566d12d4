-- ===== src/Journal/Recovery.antt =====
-- What a mount finds after a commit that succeeded, failed, or was cut off by a loss of power.
use mathlib.Core.Path.{subst}
use ephemerkey.Common.{
  ℕ, ◌+◌, ◌-◌, ◌%◌, ◌≡◌, ◌≢◌, ◌≤◌, ◌<◌, refl, sym, ◌∙◌, Option, none, some, List, ◌++◌, true, false,
  Bool, arith, inl, inr, ◌⊎◌, Bool-cases, length, replicate,
}
use ephemerkey.Journal.{
  page, word, erased, FlashOps, Layout, Mirror, Journal, blank, load_config, stale_slot,
  record_bytes, rewrite_page,
}
use ephemerkey.Journal.Records.{
  Fits, header_of, length-record, parse_header-record, load_from-record,
}
use ephemerkey.Journal.Remount.{OnlyAt, Live-next, Live-torn, Holds, Live, Live-loaded, loaded-Live}

abbrev pub IsPage : ℕ → Type 0
IsPage off = off % page ≡ 0

-- What the journal relies on of a flash: an erase and a write touch no other page, whether they
-- succeed or not, and a page that was erased and then written holds what was written, and erased
-- bytes behind it.
pub record FlashLaws {F : Type 0} (ops : FlashOps F) : Type 0 where
  pub erase_keeps :
      (f : F) (off p n : ℕ)
      → IsPage off
      → IsPage p
      → p ≢ off
      → ops.read (ops.erase_page f off).0 p n ≡ ops.read f p n
  pub write_keeps :
      (f : F) (off p n : ℕ) (bytes : List ℕ)
      → IsPage off
      → IsPage p
      → length bytes ≤ page
      → p ≢ off
      → ops.read (ops.write f off bytes).0 p n ≡ ops.read f p n
  pub written :
      (f : F) (off : ℕ) (bytes : List ℕ)
      → IsPage off
      → length bytes ≤ page
      → length bytes % word ≡ 0
      → (ops.erase_page f off).1 ≡ true
      → (ops.write (ops.erase_page f off).0 off bytes).1 ≡ true
      → ops.read (ops.write (ops.erase_page f off).0 off bytes).0 off page
        ≡ some (bytes ++ replicate (page - length bytes) erased)

-- The three regions of the journal are different pages.
pub record LayoutOk (l : Layout) : Type 0 where
  pub identity_page : IsPage l.identity
  pub a_page : IsPage l.slot_a
  pub b_page : IsPage l.slot_b
  pub slots_ne : l.slot_a ≢ l.slot_b
  pub identity_ne_a : l.identity ≢ l.slot_a
  pub identity_ne_b : l.identity ≢ l.slot_b

module _ {F : Type 0} (ops : FlashOps F) (laws : FlashLaws ops) where
  pub rewrite_page_keeps :
      (f : F) (off p n : ℕ) (bytes : List ℕ)
      → IsPage off
      → IsPage p
      → length bytes ≤ page
      → p ≢ off
      → ops.read (rewrite_page ops f off bytes).0 p n ≡ ops.read f p n
  unfolding rewrite_page
  rewrite_page_keeps f off p n bytes io ip len ne = elim (Bool-cases (ops.erase_page f off).1) [
    | inl good ↦
        rw good
          (laws.write_keeps _ off p n bytes io ip len ne ∙ laws.erase_keeps f off p n io ip ne)
    | inr bad ↦ rw bad (laws.erase_keeps f off p n io ip ne)
  ]

  rewrite_page_written :
      (f : F) (off : ℕ) (bytes : List ℕ)
      → IsPage off
      → length bytes ≤ page
      → length bytes % word ≡ 0
      → (rewrite_page ops f off bytes).1 ≡ true
      → ops.read (rewrite_page ops f off bytes).0 off page
        ≡ some (bytes ++ replicate (page - length bytes) erased)
  unfolding rewrite_page
  rewrite_page_written f off bytes io len words good = elim (Bool-cases (ops.erase_page f off).1) [
    | inl e ↦ rw e (laws.written f off bytes io len words e (rw e at good))
    | inr e ↦ absurd (let z : false ≡ true = rw e at good in cc)
  ]

  -- A mount of the flash would load the mirror.
  abbrev pub Durable : Journal F → Type 0
  Durable j = load_config ops j.flash j.layout blank ≡ j.live

  reads_a : F → Layout → Option (List ℕ)
  reads_a f l = ops.read f l.slot_a page

  reads_b : F → Layout → Option (List ℕ)
  reads_b f l = ops.read f l.slot_b page

  abbrev pub target : Journal F → ℕ
  target j = stale_slot j.layout j.live.cur_slot

  pub target-IsPage : (j : Journal F) → LayoutOk j.layout → IsPage (target j)
  target-IsPage j lay = target_cases j.live.cur_slot
    where
      target_cases : (o : Option ℕ) → IsPage (stale_slot j.layout o)
      target_cases none = lay.a_page
      target_cases (some s) = ground (arith, lay.a_page, lay.b_page)

  rewritten-OnlyAt :
      (j : Journal F) (t : ℕ) (bytes : List ℕ)
      → LayoutOk j.layout
      → IsPage t
      → length bytes ≤ page
      → let f' = (rewrite_page ops j.flash t bytes).0 in
        OnlyAt j.layout t
          (reads_a j.flash j.layout)
          (reads_b j.flash j.layout)
          (reads_a f' j.layout)
          (reads_b f' j.layout)
  unfolding reads_a reads_b
  rewritten-OnlyAt j t bytes lay it len = record {
    a_kept = λ ne.
        rewrite_page_keeps j.flash t j.layout.slot_a page bytes it lay.a_page len (λ q. ne (sym q));
    b_kept = λ ne.
        rewrite_page_keeps j.flash t j.layout.slot_b page bytes it lay.b_page len (λ q. ne (sym q));
  }

  Durable-Live :
      (j : Journal F)
      → Durable j
      → Live (reads_a j.flash j.layout) (reads_b j.flash j.layout) j.layout j.live
  unfolding reads_a reads_b load_config
  Durable-Live j d =
      subst
        (Live (ops.read j.flash j.layout.slot_a page) (ops.read j.flash j.layout.slot_b page)
          j.layout)
        d (loaded-Live _ _ j.layout)

  Live-load :
      (f : F) (l : Layout) (m : Mirror)
      → Live (reads_a f l) (reads_b f l) l m
      → load_config ops f l blank ≡ m
  unfolding reads_a reads_b load_config
  Live-load f l m live = Live-loaded _ _ l m live

  -- The record that `persist` wrote.
  record-Holds :
      (f : F) (t : ℕ) (m : Mirror) (gen : ℕ)
      → Fits m
      → gen < 4294967296
      → IsPage t
      → (rewrite_page ops f t (record_bytes m gen)).1 ≡ true
      → Holds
          (ops.read (rewrite_page ops f t (record_bytes m gen)).0 t page)
          t
          (record m { generation = gen; cur_slot = some t })
  record-Holds f t m gen fits w it good =
      let (len, words) = length-record m gen fits w in
      let padding_tail = replicate (page - length (record_bytes m gen)) erased in
      record {
        bytes = record_bytes m gen ++ padding_tail;
        header = header_of m gen;
        read_ok = rewrite_page_written f t (record_bytes m gen) it len words good;
        parsed = parse_header-record m gen fits w padding_tail;
        loads = load_from-record m gen fits w padding_tail t;
        generation_eq = refl;
        slot_eq = refl;
      }

  module _ (j : Journal F) (new : Mirror) (lay : LayoutOk j.layout) (durable : Durable j)
      (fits : Fits new) (room : j.live.generation + 1 < 4294967296) where
    abbrev pub gen : ℕ
    gen = j.live.generation + 1

    abbrev pub next : Mirror
    next = record new { generation = gen; cur_slot = some (target j) }

    abbrev pub after_write : F × Bool
    after_write = rewrite_page ops j.flash (target j) (record_bytes new gen)

    pub written_loads : after_write.1 ≡ true → load_config ops after_write.0 j.layout blank ≡ next
    unfolding reads_a reads_b
    written_loads good =
        let t = target j in
        let it = target-IsPage j lay in
        let len = (length-record new gen fits room).0 in
        let h = record-Holds j.flash t new gen fits room it good in
        Live-load after_write.0 j.layout next (
          Live-next j.layout _ _ _ _ j.live lay.slots_ne next (Durable-Live j durable)
            (rewritten-OnlyAt j t (record_bytes new gen) lay it len) (omega arith)
            (λ q. subst (λ s. Holds (ops.read after_write.0 s page) s next) q h)
            (λ q. subst (λ s. Holds (ops.read after_write.0 s page) s next) q h))

  -- The slot that a commit writes holds a valid record that is not older than the live one.
  abbrev pub Supersedes : Journal F → F → Mirror → Type 0
  Supersedes j f' m =
      Holds (ops.read f' (target j) page) (target j) m × (j.live.generation ≤ m.generation)

  -- A flash that reads as before on the other pages, whatever the stale slot holds.
  pub torn_loads :
      (j : Journal F) (f' : F)
      → LayoutOk j.layout
      → Durable j
      → ((p n : ℕ) → IsPage p → p ≢ target j → ops.read f' p n ≡ ops.read j.flash p n)
      → (load_config ops f' j.layout blank ≡ j.live)
        ⊎ ((m : Mirror) × Supersedes j f' m × (load_config ops f' j.layout blank ≡ m))
  unfolding reads_a reads_b
  torn_loads j f' lay d same =
      elim (Live-torn j.layout (λ p. ops.read j.flash p page) (λ p. ops.read f' p page) j.live
        lay.slots_ne (λ p slot ne. same p page (slot_page p slot) ne) (Durable-Live j d)) [
          | inl live ↦ inl (Live-load f' j.layout j.live live)
          | inr (m, h, le, live) ↦ inr (m, (h, le), Live-load f' j.layout m live)
        ]
    where
      slot_page : (p : ℕ) → (p ≡ j.layout.slot_a) ⊎ (p ≡ j.layout.slot_b) → IsPage p
      slot_page p (inl a) = rw a lay.a_page
      slot_page p (inr b) = rw b lay.b_page

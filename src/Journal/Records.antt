-- ===== src/Journal/Records.antt =====
-- A serialized record and its header.
use ephemerkey.Common.{
  ℕ, ◌+◌, ◌-◌, ◌*◌, ◌≡◌, ◌≤◌, ◌<◌, refl, sym, ◌∙◌, true, Option, none, some, List, [], ◌∷◌, ◌++◌,
  length, take, drop, slice, get_u32, get_u64, u32_bytes, length-append, length-replicate, ◌/◌, ◌%◌,
  take-append, drop-length, slice_middle, get_u32-u32_bytes, bit_and, All, arith, ltb, ◌==◌,
  if◌then◌else◌, not,
}
use mathlib.Core.List.{append_assoc}
use ephemerkey.Wire.{crc32}
use ephemerkey.Wire.Checksum.{crc32-lt}
use ephemerkey.Journal.{
  page, word, ssid_max, psk_max, rec_magic, rec_hdr, config_cap, Header, Mirror, read_header,
  body_end, parse_header, load_from, owner_bytes, flag_owner, flags, header_bytes, body_bytes,
  padding, record_bytes,
}

-- An owner key has 32 bytes.
abbrev pub OwnerFits : Option (List ℕ) → Type 0
OwnerFits none = Unit {0}
OwnerFits (some o) = length o ≡ 32

-- A mirror that a slot can hold.
pub record Fits (m : Mirror) : Type 0 where
  pub owner_fits : OwnerFits m.owner
  pub seq_u64 : m.seq < 18446744073709551616
  pub config_fits : length m.config ≤ config_cap
  pub ssid_fits : length m.ssid ≤ ssid_max
  pub psk_fits : length m.psk ≤ psk_max
  pub owner_bytes_ok : All (λ b. b < 256) (owner_bytes m.owner)
  pub config_bytes_ok : All (λ b. b < 256) m.config
  pub ssid_bytes_ok : All (λ b. b < 256) m.ssid
  pub psk_bytes_ok : All (λ b. b < 256) m.psk

length-owner_bytes : (o : Option (List ℕ)) → OwnerFits o → length (owner_bytes o) ≡ 32
length-owner_bytes none h = refl
length-owner_bytes (some o) h = h

abbrev pub header_of : Mirror → ℕ → Header
header_of m gen = record {
  generation = gen;
  owner = m.owner;
  seq = m.seq;
  config_len = length m.config;
  ssid_len = length m.ssid;
  psk_len = length m.psk;
}

flags_small :
    (o : Option (List ℕ)) (c : List ℕ) → flag_owner o + (if ltb 0 (length c) then 2 else 0) < 4
flags_small none [] = omega arith
flags_small none (x ∷ c) = ground arith
flags_small (some o) [] = omega arith
flags_small (some o) (x ∷ c) = ground arith

flagged_owner :
    (o : Option (List ℕ)) (c : List ℕ)
    → (if not (bit_and (flag_owner o + (if ltb 0 (length c) then 2 else 0)) 1 == 0)
        then some (owner_bytes o)
        else none)
      ≡ o
flagged_owner none [] = refl
flagged_owner none (x ∷ c) = let e : ltb 0 (length (x ∷ c)) ≡ true = ground arith in rw e refl
flagged_owner (some o) [] = refl
flagged_owner (some o) (x ∷ c) = let e : ltb 0 (length (x ∷ c)) ≡ true = ground arith in rw e refl

header_eq :
    {a b : Header}
    → a.generation ≡ b.generation
    → a.owner ≡ b.owner
    → a.seq ≡ b.seq
    → a.config_len ≡ b.config_len
    → a.ssid_len ≡ b.ssid_len
    → a.psk_len ≡ b.psk_len
    → a ≡ b
header_eq g o s c w p = cc

module _ (m : Mirror) (gen : ℕ) (fits : Fits m) (word32 : gen < 4294967296) (tail : List ℕ) where
  -- The buffer, from the owner on.
  abbrev rest : List ℕ
  rest = owner_bytes m.owner ++ (m.config ++ (m.ssid ++ (m.psk ++ tail)))

  abbrev buf : List ℕ
  buf = header_bytes m gen ++ rest

  buf_owner : slice 32 64 buf ≡ owner_bytes m.owner
  buf_owner =
      slice_middle (header_bytes m gen) (owner_bytes m.owner) _ 32 64 refl
        (omega (arith, length-owner_bytes m.owner fits.owner_fits))

  read_generation : get_u32 (drop 4 buf) ≡ gen
  read_generation = omega arith

  read_seq : get_u64 (drop 8 buf) ≡ m.seq
  read_seq = omega (arith, fits.seq_u64)

  read_flags : get_u32 (drop 16 buf) ≡ flags m
  read_flags = omega (arith, flags_small m.owner m.config)

  read_config_len : get_u32 (drop 20 buf) ≡ length m.config
  read_config_len = omega (arith, fits.config_fits)

  read_ssid_len : get_u32 (drop 24 buf) ≡ length m.ssid
  read_ssid_len = omega (arith, fits.ssid_fits)

  read_psk_len : get_u32 (drop 28 buf) ≡ length m.psk
  read_psk_len = omega (arith, fits.psk_fits)

  read_owner : (read_header buf).owner ≡ m.owner
  read_owner = rw (read_flags, buf_owner) (flagged_owner m.owner m.config)

  read_header-buf : read_header buf ≡ header_of m gen
  read_header-buf =
      header_eq read_generation read_owner read_seq read_config_len read_ssid_len read_psk_len

  -- What stands before the configuration, the network name and the passphrase.
  abbrev front : List ℕ
  front = header_bytes m gen ++ owner_bytes m.owner

  length-front : length front ≡ rec_hdr
  length-front = omega (arith, length-owner_bytes m.owner fits.owner_fits)

  -- Where the network name and the passphrase start, and where the body ends.
  abbrev ssid_at : ℕ
  ssid_at = rec_hdr + length m.config

  abbrev psk_at : ℕ
  psk_at = ssid_at + length m.ssid

  buf_config : slice rec_hdr ssid_at buf ≡ m.config
  buf_config = slice_middle front m.config _ rec_hdr ssid_at (sym length-front) refl

  buf_ssid : slice ssid_at psk_at buf ≡ m.ssid
  buf_ssid =
      let e : buf ≡ (front ++ m.config) ++ (m.ssid ++ (m.psk ++ tail)) =
        sym (append_assoc front m.config _) in
      rw e (
        slice_middle (front ++ m.config) m.ssid (m.psk ++ tail) ssid_at psk_at
          (omega (arith, length-append front m.config, length-front)) refl)

  buf_psk : slice psk_at (psk_at + length m.psk) buf ≡ m.psk
  buf_psk =
      let e : buf ≡ ((front ++ m.config) ++ m.ssid) ++ (m.psk ++ tail) =
        sym (append_assoc front m.config _) ∙ sym (append_assoc (front ++ m.config) m.ssid _) in
      rw e (
        slice_middle ((front ++ m.config) ++ m.ssid) m.psk tail psk_at (psk_at + length m.psk)
          (omega (
            arith,
            length-append (front ++ m.config) m.ssid,
            length-append front m.config,
            length-front,
          ))
          refl)

  load_from-buf :
      (slot : ℕ)
      → load_from buf slot (header_of m gen) ≡ record m { generation = gen; cur_slot = some slot }
  unfolding load_from
  load_from-buf slot = ground (arith, buf_config, buf_ssid, buf_psk)

parse_ok :
    (b : List ℕ) (h : Header)
    → read_header b ≡ h
    → get_u32 b ≡ rec_magic
    → h.config_len ≤ config_cap
    → h.ssid_len ≤ ssid_max
    → h.psk_len ≤ psk_max
    → crc32 (take (body_end h) b) ≡ get_u32 (drop (body_end h) b)
    → parse_header b ≡ some h
unfolding parse_header
parse_ok b h e magic c w p crc = rw e (ground (arith, magic, crc))

All-append : (P : ℕ → Type 0) (xs ys : List ℕ) → All P xs → All P ys → All P (xs ++ ys)
All-append P [] ys h k = k
All-append P (x ∷ xs) ys (p, h) k = (p, All-append P xs ys h k)

module _ (m : Mirror) (gen : ℕ) (fits : Fits m) (word32 : gen < 4294967296) where
  header_bytes_ok : All (λ b. b < 256) (header_bytes m gen)
  header_bytes_ok = omega arith

  body_bytes_ok : All (λ b. b < 256) (body_bytes m gen)
  unfolding body_bytes
  body_bytes_ok = All-append _ (header_bytes m gen) _ header_bytes_ok (
      All-append _ (owner_bytes m.owner) _ fits.owner_bytes_ok (
        All-append _ m.config _ fits.config_bytes_ok
          (All-append _ m.ssid _ fits.ssid_bytes_ok fits.psk_bytes_ok)))

  length-body : length (body_bytes m gen) ≡ body_end (header_of m gen)
  unfolding body_bytes
  length-body = omega (
    arith,
    length-append (owner_bytes m.owner) (m.config ++ (m.ssid ++ m.psk)),
    length-append m.config (m.ssid ++ m.psk),
    length-append m.ssid m.psk,
    length-owner_bytes m.owner fits.owner_fits,
  )

  body-buf : (tail : List ℕ) → body_bytes m gen ++ tail ≡ buf m gen fits word32 tail
  unfolding body_bytes
  body-buf tail = simp append_assoc refl

  abbrev after_body : List ℕ → List ℕ
  after_body tail =
      u32_bytes (crc32 (body_bytes m gen)) ++ (padding (length (body_bytes m gen) + 4) ++ tail)

  record-body : (tail : List ℕ) → record_bytes m gen ++ tail ≡ body_bytes m gen ++ after_body tail
  unfolding record_bytes
  record-body tail = append_assoc (body_bytes m gen) _ tail

  stored_crc :
      (tail : List ℕ)
      → get_u32 (drop (length (body_bytes m gen)) (body_bytes m gen ++ after_body tail))
        ≡ crc32 (body_bytes m gen)
  stored_crc tail =
      let b = body_bytes m gen in
      rw (drop-length b (after_body tail))
        (get_u32-u32_bytes (crc32 b) (padding (length b + 4) ++ tail) (crc32-lt b body_bytes_ok))

  record-buf :
      (tail : List ℕ) → record_bytes m gen ++ tail ≡ buf m gen fits word32 (after_body tail)
  record-buf tail = record-body tail ∙ body-buf (after_body tail)

  -- A record fits a page, in whole words.
  pub length-record :
      (length (record_bytes m gen) ≤ page) × (length (record_bytes m gen) % word ≡ 0)
  unfolding record_bytes
  length-record =
      let b = body_bytes m gen in
      let whole : length (record_bytes m gen) ≡ (length b + 4 + 8 - 1) / 8 * 8 = omega (
        arith,
        length-append b (u32_bytes (crc32 b) ++ padding (length b + 4)),
        length-replicate {A = ℕ} ((length b + 4 + 8 - 1) / 8 * 8 - (length b + 4)) 0,
      ) in
      (
        omega (arith, whole, length-body, fits.config_fits, fits.ssid_fits, fits.psk_fits),
        omega (arith, whole),
      )

  -- A record that is read back from the flash, with what stands behind it, has its header.
  pub parse_header-record :
      (tail : List ℕ) → parse_header (record_bytes m gen ++ tail) ≡ some (header_of m gen)
  parse_header-record tail =
      let b = body_bytes m gen in
      let whole = after_body tail in
      let header : read_header (record_bytes m gen ++ tail) ≡ header_of m gen =
        rw (record-buf tail) (read_header-buf m gen fits word32 whole) in
      let magic : get_u32 (record_bytes m gen ++ tail) ≡ rec_magic = rw (record-buf tail) refl in
      let body : take (body_end (header_of m gen)) (record_bytes m gen ++ tail) ≡ b =
        rw (← length-body, record-body tail) (take-append b whole) in
      let crc : get_u32 (drop (body_end (header_of m gen)) (record_bytes m gen ++ tail)) ≡ crc32 b =
        rw (record-body tail, ← length-body) (stored_crc tail) in
      parse_ok (record_bytes m gen ++ tail) (header_of m gen) header magic fits.config_fits
        fits.ssid_fits fits.psk_fits (rw (body, crc) refl)

  -- Loading it restores the mirror that was serialized.
  pub load_from-record :
      (tail : List ℕ) (slot : ℕ)
      → load_from (record_bytes m gen ++ tail) slot (header_of m gen)
        ≡ record m { generation = gen; cur_slot = some slot }
  load_from-record tail slot =
      rw (record-buf tail) (load_from-buf m gen fits word32 (after_body tail) slot)

-- ===== src/Journal.antt =====
-- The flash journal: firmware/ephemerkey-store/src/lib.rs. The trait `Flash` is the interface
-- `FlashOps`: an operation that changes the flash returns it also when it fails, since a failed one
-- may have done a part of its work. A buffer with a length beside it is the list of its bytes in
-- use. A method that returns `Result<(), Error>` returns the journal with it.
pub mod Records
pub mod Remount
pub mod Recovery
pub mod Commit
mod Tests
use ephemerkey.Common.{
  ℕ, ◌+◌, ◌-◌, ◌*◌, ◌/◌, Bool, true, false, not, ◌&&◌, ◌||◌, Option, none, some, List, [], ◌∷◌,
  ◌++◌, ltb, ◌==◌, if◌then◌else◌, u32, length, take, drop, replicate, bit_and, slice, get_u32,
  get_u64, u32_bytes, u64_bytes,
}
use ephemerkey.Wire.{crc32}

abbrev pub page : ℕ
page = 2048

abbrev pub word : ℕ
word = 8

abbrev pub erased : ℕ
erased = 0xff

abbrev pub ssid_max : ℕ
ssid_max = 32

abbrev pub psk_max : ℕ
psk_max = 64

abbrev pub rec_magic : ℕ
rec_magic = 0x314a_4b45

abbrev pub id_magic : ℕ
id_magic = 0x3149_4b45

abbrev pub rec_hdr : ℕ
rec_hdr = 64

abbrev pub config_cap : ℕ
config_cap = page - rec_hdr - ssid_max - psk_max - 4 - word

pub data StoreError : Type 0 where
  flash too_big : StoreError

pub data Done : Type 0 where
  ok : Done
  err : StoreError → Done

-- `read off n`: the bytes, or a refusal. The Boolean of the other two: whether they succeeded.
pub record FlashOps (F : Type 0) : Type 0 where
  pub read : F → ℕ → ℕ → Option (List ℕ)
  pub erase_page : F → ℕ → F × Bool
  pub write : F → ℕ → List ℕ → F × Bool

pub record Layout : Type 0 where
  pub identity : ℕ
  pub slot_a : ℕ
  pub slot_b : ℕ

-- `Layout::DEFAULT`.
abbrev pub default_layout : Layout
default_layout = record { identity = 0x3e800; slot_a = 0x3f000; slot_b = 0x3f800 }

pub record StoredIdentity : Type 0 where
  pub device_id : List ℕ  -- 12 bytes
  pub sign_seed : List ℕ  -- 32 bytes
  pub kx_priv : List ℕ  -- 32 bytes

pub record Header : Type 0 where
  pub generation : ℕ
  pub owner : Option (List ℕ)
  pub seq : ℕ
  pub config_len : ℕ
  pub ssid_len : ℕ
  pub psk_len : ℕ

-- The mirror of the live record in RAM.
pub record Mirror : Type 0 where
  pub generation : ℕ  -- u32
  pub cur_slot : Option ℕ
  pub owner : Option (List ℕ)  -- 32 bytes
  pub seq : ℕ  -- u64
  pub config : List ℕ
  pub ssid : List ℕ
  pub psk : List ℕ

pub record Journal (F : Type 0) : Type 0 where
  pub flash : F
  pub layout : Layout
  pub live : Mirror
  pub identity : Option StoredIdentity

abbrev pub blank : Mirror
blank = record {
  generation = 0;
  cur_slot = none;
  owner = none;
  seq = 0;
  config = [];
  ssid = [];
  psk = [];
}

abbrev pub round_up : ℕ → ℕ → ℕ
round_up n to = (n + to - 1) / to * to

-- `parse_header`: magic, field bounds and CRC.
abbrev pub body_end : Header → ℕ
body_end h = rec_hdr + h.config_len + h.ssid_len + h.psk_len

abbrev pub read_header : List ℕ → Header
read_header buf = record {
  generation = get_u32 (drop 4 buf);
  owner = if not (bit_and (get_u32 (drop 16 buf)) 1 == 0) then some (slice 32 64 buf) else none;
  seq = get_u64 (drop 8 buf);
  config_len = get_u32 (drop 20 buf);
  ssid_len = get_u32 (drop 24 buf);
  psk_len = get_u32 (drop 28 buf);
}

unfoldable pub parse_header : List ℕ → Option Header
parse_header buf =
    let h = read_header buf in
    if not (get_u32 buf == rec_magic)
    then none
    else if ltb config_cap h.config_len || ltb ssid_max h.ssid_len || ltb psk_max h.psk_len
    then none
    else if ltb page (body_end h + 4)
    then none
    else if not (crc32 (take (body_end h) buf) == get_u32 (drop (body_end h) buf))
    then none
    else some h

unfoldable pub load_from : List ℕ → ℕ → Header → Mirror
load_from buf slot h =
    let ssid_at = rec_hdr + h.config_len in
    let psk_at = ssid_at + h.ssid_len in
    record {
      generation = h.generation;
      cur_slot = some slot;
      owner = h.owner;
      seq = h.seq;
      config = slice rec_hdr ssid_at buf;
      ssid = slice ssid_at psk_at buf;
      psk = slice psk_at (psk_at + h.psk_len) buf;
    }

abbrev pub is_none : {A : Type 0} → Option A → Bool
is_none none = true
is_none (some a) = false

abbrev pub newer : Mirror → List ℕ → ℕ → Option Header → Mirror
newer m buf slot none = m
newer m buf slot (some h) =
    if is_none m.cur_slot || ltb m.generation h.generation then load_from buf slot h else m

-- One round of the loop of `load_config`; a slot that cannot be read is passed over.
unfoldable pub load_slot : Option (List ℕ) → ℕ → Mirror → Mirror
load_slot none slot m = m
load_slot (some buf) slot m = newer m buf slot (parse_header buf)

-- The record that `persist` serializes: the header, the owner or zeros, and the variable tail.
abbrev pub owner_bytes : Option (List ℕ) → List ℕ
owner_bytes none = replicate 32 0
owner_bytes (some o) = o

abbrev pub flag_owner : Option (List ℕ) → ℕ
flag_owner none = 0
flag_owner (some o) = 1

abbrev pub flags : Mirror → ℕ
flags m = flag_owner m.owner + (if ltb 0 (length m.config) then 2 else 0)

abbrev pub header_bytes : Mirror → ℕ → List ℕ
header_bytes m gen =
    u32_bytes rec_magic
    ++ (u32_bytes gen
        ++ (u64_bytes m.seq
            ++ (u32_bytes (flags m)
                ++ (u32_bytes (length m.config)
                    ++ (u32_bytes (length m.ssid) ++ u32_bytes (length m.psk))))))

unfoldable pub body_bytes : Mirror → ℕ → List ℕ
body_bytes m gen = header_bytes m gen ++ (owner_bytes m.owner ++ (m.config ++ (m.ssid ++ m.psk)))

-- Zeros up to the next word.
abbrev pub padding : ℕ → List ℕ
padding off = replicate (round_up off word - off) 0

unfoldable pub record_bytes : Mirror → ℕ → List ℕ
record_bytes m gen =
    let body = body_bytes m gen in body ++ (u32_bytes (crc32 body) ++ padding (length body + 4))

-- The slot that `persist` writes: the stale one.
abbrev pub stale_slot : Layout → Option ℕ → ℕ
stale_slot l none = l.slot_a
stale_slot l (some s) = if s == l.slot_a then l.slot_b else l.slot_a

unfoldable pub identity_bytes : StoredIdentity → List ℕ
identity_bytes id =
    let body =
      u32_bytes id_magic
      ++ (replicate 4 0 ++ (id.device_id ++ (replicate 4 0 ++ (id.sign_seed ++ id.kx_priv)))) in
    body ++ (u32_bytes (crc32 body) ++ replicate 4 0)

unfoldable pub parse_identity : List ℕ → Option StoredIdentity
parse_identity buf =
    if not (get_u32 buf == id_magic)
    then none
    else if not (crc32 (take 88 buf) == get_u32 (drop 88 buf))
    then none
    else some (record {
      device_id = slice 8 20 buf;
      sign_seed = slice 24 56 buf;
      kx_priv = slice 56 88 buf;
    })

module _ {F : Type 0} (ops : FlashOps F) where
  unfoldable pub load_config : F → Layout → Mirror → Mirror
  load_config f l m =
      load_slot (ops.read f l.slot_b page) l.slot_b
        (load_slot (ops.read f l.slot_a page) l.slot_a m)

  -- `none`: the identity page cannot be read.
  unfoldable pub mount_with : F → Layout → Option (List ℕ) → Option (Journal F)
  mount_with f l none = none
  mount_with f l (some buf) = some (record {
    flash = f;
    layout = l;
    live = load_config f l blank;
    identity = parse_identity buf;
  })

  unfoldable pub mount : F → Layout → Option (Journal F)
  mount f l = mount_with f l (ops.read f l.identity 96)

  -- The flash after an erase and, if that succeeds, a write; and whether both succeeded.
  unfoldable pub rewrite_page : F → ℕ → List ℕ → F × Bool
  rewrite_page f off bytes =
      let (f1, erased_ok) = ops.erase_page f off in
      if erased_ok then ops.write f1 off bytes else (f1, false)

  unfoldable pub set_identity : Journal F → StoredIdentity → Journal F × Done
  set_identity j id =
      let (f, good) = rewrite_page j.flash j.layout.identity (identity_bytes id) in
      if good
      then (record j { flash = f; identity = some id }, ok)
      else (record j { flash = f }, err StoreError.flash)

  unfoldable pub persist : Journal F → Journal F × Done
  persist j =
      let target = stale_slot j.layout j.live.cur_slot in
      let gen = u32 (j.live.generation + 1) in
      let (f, good) = rewrite_page j.flash target (record_bytes j.live gen) in
      if good
      then (
        record j { flash = f; live = record j.live { cur_slot = some target; generation = gen } },
        ok,
      )
      else (record j { flash = f }, err StoreError.flash)

  unfoldable pub commit_config : Journal F → List ℕ → ℕ → List ℕ → Journal F × Done
  commit_config j owner seq config =
      if ltb config_cap (length config)
      then (j, err StoreError.too_big)
      else persist
          (record j { live = record j.live { owner = some owner; seq = seq; config = config } })

  unfoldable pub wifi_set : Journal F → List ℕ → List ℕ → Journal F × Done
  wifi_set j ssid psk =
      if ltb ssid_max (length ssid) || ltb psk_max (length psk)
      then (j, err StoreError.too_big)
      else persist (record j { live = record j.live { ssid = ssid; psk = psk } })

  unfoldable pub wifi_clear : Journal F → Journal F × Done
  wifi_clear j = persist (record j { live = record j.live { ssid = []; psk = [] } })

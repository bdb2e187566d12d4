-- ===== src/Wire.antt =====
-- The serial framing of the provisioning link: firmware/ephemerkey-frame/src/lib.rs, and the shared
-- CRC-32 of firmware/ephemerkey-crc/src/lib.rs. The buffer of the parser is the list of its bytes in
-- use, and its callback the list of the frames it is called with.
pub mod Scanning
pub mod Checksum
mod Tests
use ephemerkey.Common.{
  ℕ, zero, suc, ◌+◌, ◌-◌, ◌*◌, ◌/◌, ◌%◌, Bool, not, ◌&&◌, ◌||◌, Option, none, some, List, [], ◌∷◌,
  ◌++◌, ltb, ◌==◌, if◌then◌else◌, u8, u16, length, take, drop, get_or, Run, ◌>>=◌, bit_and, bit_xor,
}

abbrev pub version : ℕ
version = 1

abbrev pub max_payload : ℕ
max_payload = 1024

-- The size of the parser's buffer.
abbrev pub buffer_size : ℕ
buffer_size = 2 + 4 + max_payload + 2

crc16_bits : ℕ → ℕ → ℕ
crc16_bits zero crc = crc
crc16_bits (suc n) crc =
    crc16_bits n
      (if not (bit_and crc 0x8000 == 0) then bit_xor (u16 (crc * 2)) 0x1021 else u16 (crc * 2))

crc16_from : ℕ → List ℕ → ℕ
crc16_from crc [] = crc
crc16_from crc (b ∷ bs) = crc16_from (crc16_bits 8 (bit_xor crc (u16 (b * 256)))) bs

unfoldable pub crc16 : List ℕ → ℕ
unfolding crc16_from crc16_bits
crc16 bytes = crc16_from 0xffff bytes

crc32_bits : ℕ → ℕ → ℕ
crc32_bits zero crc = crc
crc32_bits (suc n) crc =
    crc32_bits n (if not (bit_and crc 1 == 0) then bit_xor (crc / 2) 0xedb8_8320 else crc / 2)

crc32_from : ℕ → List ℕ → ℕ
crc32_from crc [] = crc
crc32_from crc (b ∷ bs) = crc32_from (crc32_bits 8 (bit_xor crc b)) bs

unfoldable pub crc32 : List ℕ → ℕ
unfolding crc32_from crc32_bits
crc32 bytes = bit_xor (crc32_from 0xffff_ffff bytes) 0xffff_ffff

-- `u16::to_le_bytes`, and back.
abbrev pub le_bytes : ℕ → List ℕ
le_bytes n = u8 n ∷ n / 256 ∷ []

abbrev pub from_le_bytes : ℕ → ℕ → ℕ
from_le_bytes a b = a + b * 256

-- What the checksum covers: from the version to the end of the payload.
abbrev pub covered : ℕ → List ℕ → List ℕ
covered ftype payload = version ∷ ftype ∷ u8 (length payload) ∷ u16 (length payload) / 256 ∷ payload

-- `room`: the length of `out`. The result is what is written to its front.
unfoldable pub encode : ℕ → ℕ → List ℕ → Option (List ℕ)
encode room ftype payload =
    if ltb max_payload (length payload)
    then none
    else if ltb room (2 + 4 + length payload + 2)
    then none
    else some (b'E' ∷ b'K' ∷ covered ftype payload ++ le_bytes (crc16 (covered ftype payload)))

-- The hunt for the magic: at most one byte that does not start it is left.
unfoldable pub hunt : List ℕ → List ℕ
hunt [] = []
hunt (a ∷ []) = a ∷ []
hunt (a ∷ b ∷ bs) = let rest = hunt (b ∷ bs) in if a == b'E' && b == b'K' then a ∷ b ∷ bs else rest

abbrev pub WireFrame : Type 0
WireFrame = ℕ × List ℕ

abbrev pub with_frame : WireFrame → List ℕ × List WireFrame → List ℕ × List WireFrame
with_frame f (buf, fs) = (buf, f ∷ fs)

-- The loop of `scan`; `none` when the fuel is used up.
unfoldable pub scan : ℕ → List ℕ → Run (List ℕ × List WireFrame)
scan zero buf = none
scan (suc fuel) buf0 =
    let buf = hunt buf0 in
    let plen = from_le_bytes (get_or buf 4 0) (get_or buf 5 0) in
    let total = 2 + 4 + plen + 2 in
    let past = scan fuel (drop 2 buf) in
    let after = scan fuel (drop total buf) in
    if ltb (length buf) 8
    then some (buf, [])
    else if ltb max_payload plen || not (get_or buf 2 0 == version)
    then past
    else if ltb (length buf) total
    then some (buf, [])
    else if crc16 (drop 2 (take (6 + plen) buf))
        == from_le_bytes (get_or buf (total - 2) 0) (get_or buf (total - 1) 0)
    then (after >>= λ r. some (with_frame (get_or buf 3 0, drop 6 (take (6 + plen) buf)) r))
    else past

-- One byte into the buffer: a full buffer drops its first.
unfoldable pub push : List ℕ → ℕ → List ℕ
push buf b = (if length buf == buffer_size then drop 1 buf else buf) ++ (b ∷ [])

-- Every round of `scan` that goes on drops two bytes or more.
unfoldable pub feed : List ℕ → List ℕ → Run (List ℕ × List WireFrame)
feed buf [] = some (buf, [])
feed buf (b ∷ bs) = scan (suc (length (push buf b))) (push buf b) >>= λ (buf1, fs).
    feed buf1 bs >>= λ (buf2, gs). some (buf2, fs ++ gs)

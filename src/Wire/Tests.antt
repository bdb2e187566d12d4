-- ===== src/Wire/Tests.antt =====
-- Checksums and frames of concrete bytes.
use ephemerkey.Common.{ℕ, ◌≡◌, ◌>>=◌, refl, some, [], ◌∷◌, ◌++◌, List}
use ephemerkey.Wire.Scanning.{scan-encode}
use ephemerkey.Wire.{with_frame, crc16, crc32, encode, feed, scan, hunt, push}

abbrev nine : List ℕ
nine = b'1' ∷ b'2' ∷ b'3' ∷ b'4' ∷ b'5' ∷ b'6' ∷ b'7' ∷ b'8' ∷ b'9' ∷ []

crc16_vector : crc16 nine ≡ 0x29b1
unfolding crc16
crc16_vector = refl

crc32_vector : crc32 nine ≡ 0xcbf4_3926
unfolding crc32
crc32_vector = refl

-- An `OK` frame with an empty payload, in the middle of a boot log.
abbrev ok_bytes : List ℕ
ok_bytes = b'E' ∷ b'K' ∷ 1 ∷ 0x7e ∷ 0 ∷ 0 ∷ 0x7d ∷ 0x31 ∷ []

encoded : encode 64 0x7e [] ≡ some ok_bytes
unfolding encode crc16
encoded = refl

fed : feed [] (b'l' ∷ b'o' ∷ b'g' ∷ b'E' ∷ ok_bytes) ≡ some ([], (0x7e, []) ∷ [])
unfolding feed scan hunt push crc16
fed = refl

scan-encode_example :
    scan 9 (ok_bytes ++ nine) ≡ (scan 8 nine >>= λ r. some (with_frame (0x7e, []) r))
scan-encode_example = scan-encode 64 8 0x7e [] ok_bytes nine encoded

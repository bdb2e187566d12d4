-- ===== src/Totp/Tests.antt =====
-- Concrete codes, with a tag in place of HMAC-SHA1.
use ephemerkey.Common.{ℕ, ◌+◌, ◌≡◌, refl, some, none, List, [], ◌∷◌, arith}
use ephemerkey.Totp.{Code, parse, render, render_from, hotp}
use ephemerkey.Totp.Entry.{parse_alias, parse-render-hotp}

-- The example tag of RFC 4226, section 5.4.
abbrev rfc_tag : List ℕ → List ℕ → List ℕ
rfc_tag key message =
    0x1f ∷ 0x86 ∷ 0x98 ∷ 0x69 ∷ 0x0e ∷ 0x02 ∷ 0xca ∷ 0x16 ∷ 0x61 ∷ 0x85 ∷ 0x50 ∷ 0xef ∷ 0x7f ∷ 0x19
    ∷ 0xda ∷ 0x8e ∷ 0x94 ∷ 0x5b ∷ 0x55 ∷ 0x5a ∷ []

rfc_example : hotp rfc_tag [] 0 6 ≡ some (record { value = 872921; digits = 6 })
unfolding hotp
rfc_example = refl

abbrev pin : List ℕ
pin = b'0' ∷ b'7' ∷ b'4' ∷ b'2' ∷ []

too_short : parse (b'7' ∷ b'4' ∷ b'2' ∷ []) 3 ≡ none
unfolding parse
too_short = refl

no_digit : parse (b'7' ∷ b'4' ∷ b':' ∷ b'2' ∷ []) 4 ≡ none
unfolding parse
no_digit = refl

pin_parsed : parse pin 4 ≡ some (record { value = 742; digits = 4 })
unfolding parse
pin_parsed = refl

abbrev code : Code
code = record { value = 742; digits = 4 }

parse_alias_example :
    (parse (render_from 10 742 []) 10 ≡ some (record { value = 742; digits = 10 }))
    × (parse (render_from 10 (742 + 4294967296) []) 10 ≡ some (record { value = 742; digits = 10 }))
parse_alias_example = parse_alias 742 (omega arith)

parse-render-hotp_example :
    (c : Code) × (hotp rfc_tag [] 0 6 ≡ some c)
    × (c.digits ≡ 6)
    × (s : List ℕ) × (render c ≡ some s)
    × (parse s 6 ≡ some c)
parse-render-hotp_example = parse-render-hotp rfc_tag [] 0 6 (omega arith) (omega arith)

-- ===== src/Cbor/Tests.antt =====
-- Items that are skipped, and heads of every length.
use ephemerkey.Common.{◌≡◌, refl, [], ◌∷◌, arith}
use ephemerkey.Cbor.{err, EnvelopeError}
use ephemerkey.Cbor.Decode
use ephemerkey.Cbor.Skipping.{Item, Items, Pairs, count_items, Fits}

-- An array of a number, a map of a number to a text, and a tagged number.
abbrev nested : Item
nested = Item.several (
    Items.cons (Item.unsigned 70000) (
      Items.cons
        (Item.keyed (Pairs.pair (Item.negative 1) (Item.text (104 ∷ (105 ∷ []))) Pairs.end))
        (Items.cons (Item.tagged 24 (Item.simple 21)) Items.nil)))

nested-Fits : Fits 8 nested
unfolding Fits count_items
nested-Fits = omega arith

-- Indefinite lengths are refused, and a nesting of eight levels is the deepest.
indefinite : Decode.skip (0x9f ∷ []) ≡ err EnvelopeError.malformed
unfolding Decode.skip_depth Decode.head Decode.byte
indefinite = refl

too_deep :
    Decode.skip (0x81 ∷ (0x81 ∷ (0x81 ∷ (0x81 ∷ (0x81 ∷ (0x81 ∷ (0x81 ∷ (0x81 ∷ (0 ∷ [])))))))))
    ≡ err EnvelopeError.malformed
unfolding Decode.skip_depth Decode.head Decode.byte Decode.repeat
too_deep = refl

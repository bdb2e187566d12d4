-- ===== src/Cbor/Skipping.antt =====
-- That `Dec::skip` passes over exactly one item (firmware/ephemerkey-envelope/src/cbor.rs).
use mathlib.Core.List.{append_assoc}
use ephemerkey.Common.{ℕ, zero, suc, ◌^◌, ◌<◌, ◌≡◌, refl, ◌∙◌, List, [], ◌++◌, length, arith, u32}
use ephemerkey.Cbor.{ok, ◌>>=◌}
use ephemerkey.Cbor.Decode
use ephemerkey.Cbor.Decode.{skip_depth, skip_rest, repeat}
use ephemerkey.Cbor.RoundTrip.{head_bytes, head-head_bytes, take_bytes-append}

-- The items of the profile: also those that the encoder does not write.
mutual
  pub data Item : Type 0 where
    unsigned negative simple : ℕ → Item
    bytes text : List ℕ → Item
    several : Items → Item
    keyed : Pairs → Item
    tagged : ℕ → Item → Item

  pub data Items : Type 0 where
    nil : Items
    cons : Item → Items → Items

  pub data Pairs : Type 0 where
    end : Pairs
    pair : Item → Item → Pairs → Pairs

unfoldable pub count_items : Items → ℕ
count_items nil = 0
count_items (cons x xs) = suc (count_items xs)

unfoldable pub count_pairs : Pairs → ℕ
count_pairs end = 0
count_pairs (pair k v ps) = suc (count_pairs ps)

unfoldable mutual
  unfolding count_items count_pairs

  pub item_bytes : Item → List ℕ
  item_bytes (unsigned v) = head_bytes 0 v ++ []
  item_bytes (negative v) = head_bytes 1 v ++ []
  item_bytes (simple v) = head_bytes 7 v ++ []
  item_bytes (bytes b) = head_bytes 2 (length b) ++ b
  item_bytes (text b) = head_bytes 3 (length b) ++ b
  item_bytes (several xs) = head_bytes 4 (count_items xs) ++ items_bytes xs
  item_bytes (keyed ps) = head_bytes 5 (count_pairs ps) ++ pairs_bytes ps
  item_bytes (tagged t x) = head_bytes 6 t ++ item_bytes x

  pub items_bytes : Items → List ℕ
  items_bytes nil = []
  items_bytes (cons x xs) = item_bytes x ++ items_bytes xs

  pub pairs_bytes : Pairs → List ℕ
  pairs_bytes end = []
  pairs_bytes (pair k v ps) = item_bytes k ++ (item_bytes v ++ pairs_bytes ps)

-- An item nested at most `d` deep, with numbers of 64 bits and strings and collections shorter than
-- 2 ^ 32.
unfoldable mutual
  unfolding count_items count_pairs

  pub Fits : ℕ → Item → Type 0
  Fits zero x = ⊥
  Fits (suc d) (unsigned v) = v < 2 ^ 64
  Fits (suc d) (negative v) = v < 2 ^ 64
  Fits (suc d) (simple v) = v < 2 ^ 64
  Fits (suc d) (bytes b) = length b < 2 ^ 32
  Fits (suc d) (text b) = length b < 2 ^ 32
  Fits (suc d) (several xs) = (count_items xs < 2 ^ 32) × FitItems d xs
  Fits (suc d) (keyed ps) = (count_pairs ps < 2 ^ 32) × FitPairs d ps
  Fits (suc d) (tagged t x) = (t < 2 ^ 64) × Fits d x

  pub FitItems : ℕ → Items → Type 0
  FitItems d nil = Unit
  FitItems d (cons x xs) = Fits d x × FitItems d xs

  pub FitPairs : ℕ → Pairs → Type 0
  FitPairs d end = Unit
  FitPairs d (pair k v ps) = Fits d k × (Fits d v × FitPairs d ps)

-- The head of an item is read, and the rest is skipped by its major type.
skip_depth-head :
    (d m v : ℕ) (body rest : List ℕ)
    → m < 8
    → v < 2 ^ 64
    → skip_depth (suc d) ((head_bytes m v ++ body) ++ rest)
      ≡ skip_rest (skip_depth d) m v (body ++ rest)
unfolding skip_depth
skip_depth-head d m v body rest lm lv =
    rw (append_assoc (head_bytes m v) body rest, head-head_bytes m v (body ++ rest) lm lv) refl

string_skips :
    (b rest : List ℕ)
    → length b < 2 ^ 32
    → (Decode.take_bytes (u32 (length b)) (b ++ rest) >>= λ (s, bs). ok bs) ≡ ok rest
string_skips b rest lt =
    let w : u32 (length b) ≡ length b = omega arith in rw (w, take_bytes-append b rest) refl

mutual
  unfolding item_bytes Fits count_items repeat

  skip_item :
      (d : ℕ) (x : Item) (rest : List ℕ) → Fits d x → skip_depth d (item_bytes x ++ rest) ≡ ok rest
  skip_item zero x rest f = absurd f
  skip_item (suc d) (unsigned v) rest f = skip_depth-head d 0 v [] rest (omega arith) f
  skip_item (suc d) (negative v) rest f = skip_depth-head d 1 v [] rest (omega arith) f
  skip_item (suc d) (simple v) rest f = skip_depth-head d 7 v [] rest (omega arith) f
  skip_item (suc d) (bytes b) rest f =
      skip_depth-head d 2 (length b) b rest (omega arith) (omega arith) ∙ string_skips b rest f
  skip_item (suc d) (text b) rest f =
      skip_depth-head d 3 (length b) b rest (omega arith) (omega arith) ∙ string_skips b rest f
  skip_item (suc d) (several xs) rest f =
      skip_depth-head d 4 (count_items xs) (items_bytes xs) rest (omega arith) (omega (arith, f.0))
      ∙ skip_items d xs rest f.1
  skip_item (suc d) (keyed ps) rest f =
      skip_depth-head d 5 (count_pairs ps) (pairs_bytes ps) rest (omega arith) (omega (arith, f.0))
      ∙ skip_pairs d ps rest f.1
  skip_item (suc d) (tagged t x) rest f =
      skip_depth-head d 6 t (item_bytes x) rest (omega arith) f.0 ∙ skip_item d x rest f.1

  skip_items :
      (d : ℕ) (xs : Items) (rest : List ℕ)
      → FitItems d xs
      → repeat (count_items xs) (skip_depth d) (items_bytes xs ++ rest) ≡ ok rest
  skip_items d nil rest f = refl
  skip_items d (cons x xs) rest f =
      rw
        (
          append_assoc (item_bytes x) (items_bytes xs) rest,
          skip_item d x (items_bytes xs ++ rest) f.0,
        )
        (skip_items d xs rest f.1)

  skip_pairs :
      (d : ℕ) (ps : Pairs) (rest : List ℕ)
      → FitPairs d ps
      → repeat (count_pairs ps) (λ bs. skip_depth d bs >>= skip_depth d) (pairs_bytes ps ++ rest)
        ≡ ok rest
  skip_pairs d end rest f = refl
  skip_pairs d (pair k v ps) rest f =
      rw
        (
          append_assoc (item_bytes k) (item_bytes v ++ pairs_bytes ps) rest,
          append_assoc (item_bytes v) (pairs_bytes ps) rest,
          skip_item d k (item_bytes v ++ (pairs_bytes ps ++ rest)) f.0,
          skip_item d v (pairs_bytes ps ++ rest) f.1.0,
        )
        (skip_pairs d ps rest f.1.1)

-- An item, nested at most eight deep, that stands before any bytes: `skip` passes over the whole item
-- and nothing else.
pub skip-item_bytes :
    (x : Item) (rest : List ℕ) → Fits 8 x → Decode.skip (item_bytes x ++ rest) ≡ ok rest
skip-item_bytes x rest f = skip_item 8 x rest f

-- ===== src/Config/Crit.antt =====
-- The list of critical features (firmware/ephemerkey-config/src/lib.rs, `check_crit`).
use ephemerkey.Common.{
  ℕ, zero, suc, ◌≡◌, ◌⊎◌, inl, inr, refl, ap, Bool, true, if◌then◌else◌, List, [], ◌∷◌, All,
  Bool-cases,
}
use ephemerkey.Cbor
use ephemerkey.Cbor.Decode
use ephemerkey.Provision.{eq_bytes}
use ephemerkey.Provision.Authority.{eq_bytes_lem}
use ephemerkey.Config.{ConfigError, Parsed, good, bad, ◌>>=◌, lift}
use ephemerkey.Config.Parse.{knows, crit_names, check_crit}

-- The name is one of the list.
abbrev pub Among : List (List ℕ) → List ℕ → Type 0
Among [] name = ⊥
Among (f ∷ known) name = (f ≡ name) ⊎ Among known name

knows-Among : (known : List (List ℕ)) (name : List ℕ) → knows known name ≡ true → Among known name
knows-Among [] name h = absurd (cc)
knows-Among (f ∷ known) name h = elim (Bool-cases (eq_bytes f name)) [
  | inl same ↦ inl (eq_bytes_lem f name same)
  | inr other ↦ inr (knows-Among known name (rw other at h))
]

abbrev pub add_name : List ℕ → List (List ℕ) × List ℕ → Parsed (List (List ℕ) × List ℕ)
add_name name (names, bs) = good (name ∷ names, bs)

-- The texts that stand in a list of `n`, whatever they are.
unfoldable pub read_names : (List ℕ → Bool) → ℕ → List ℕ → Parsed (List (List ℕ) × List ℕ)
read_names is_utf8 zero bs = good ([], bs)
read_names is_utf8 (suc n) bs =
    lift (Decode.tstr is_utf8 bs) >>= λ (name, bs). read_names is_utf8 n bs >>= add_name name

-- The answer to one name of the list.
one_name :
    (known : List (List ℕ)) (name rest : List ℕ) (next : Parsed (List ℕ))
    → (if knows known name then next else bad ConfigError.unsupported) ≡ good rest
    → Among known name × (next ≡ good rest)
one_name known name rest next h = elim (Bool-cases (knows known name)) [
  | inl known_one ↦ (knows-Among known name known_one, rw known_one at h)
  | inr unknown ↦ absurd (let e = rw unknown at h in cc)
]

names_after :
    (is_utf8 : List ℕ → Bool) (known : List (List ℕ)) (n : ℕ) (r : Cbor.Result (List ℕ × List ℕ))
    (rest : List ℕ)
    → ((bs rest : List ℕ)
        → crit_names is_utf8 known n bs ≡ good rest
        → (names : List (List ℕ)) × (read_names is_utf8 n bs ≡ good (names, rest))
          × All (Among known) names)
    → (lift r >>= λ (name, bs).
        if knows known name then crit_names is_utf8 known n bs else bad ConfigError.unsupported)
      ≡ good rest
    → (names : List (List ℕ)) × ((lift r >>= λ (name, bs).
          read_names is_utf8 n bs >>= add_name name)
        ≡ good (names, rest))
      × All (Among known) names
names_after is_utf8 known n (Cbor.err e) rest each h = absurd (cc)
names_after is_utf8 known n (Cbor.ok (name, bs)) rest each h =
    let (among, next) = one_name known name rest (crit_names is_utf8 known n bs) h in
    let (names, went, all) = each bs rest next in (name ∷ names, rw went refl, (among, all))

names_known :
    (is_utf8 : List ℕ → Bool) (known : List (List ℕ)) (n : ℕ) (bs rest : List ℕ)
    → crit_names is_utf8 known n bs ≡ good rest
    → (names : List (List ℕ)) × (read_names is_utf8 n bs ≡ good (names, rest))
      × All (Among known) names
unfolding crit_names read_names
names_known is_utf8 known zero bs rest h = ([], ap (λ r. r >>= λ b. good ([], b)) h, tt)
names_known is_utf8 known (suc n) bs rest h =
    names_after is_utf8 known n (Decode.tstr is_utf8 bs) rest (names_known is_utf8 known n) h

after_count :
    (is_utf8 : List ℕ → Bool) (known : List (List ℕ)) (r : Cbor.Result (ℕ × List ℕ)) (rest : List ℕ)
    → (lift r >>= λ (n, bs). crit_names is_utf8 known n bs) ≡ good rest
    → (names : List (List ℕ)) × ((lift r >>= λ (n, bs). read_names is_utf8 n bs)
        ≡ good (names, rest))
      × All (Among known) names
after_count is_utf8 known (Cbor.err e) rest h = absurd (cc)
after_count is_utf8 known (Cbor.ok (n, bs)) rest h = names_known is_utf8 known n bs rest h

-- A `crit` list that the parser accepts is a list of texts, each of which is one of the features that the
-- caller knows.
pub check_crit_sound :
    (is_utf8 : List ℕ → Bool) (known_features : List (List ℕ)) (bs rest : List ℕ)
    → check_crit is_utf8 known_features bs ≡ good rest
    → (names : List (List ℕ)) × ((lift (Decode.array bs) >>= λ (n, bs). read_names is_utf8 n bs)
        ≡ good (names, rest))
      × All (Among known_features) names
check_crit_sound is_utf8 known_features bs rest h =
    after_count is_utf8 known_features (Decode.array bs) rest h

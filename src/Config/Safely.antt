-- ===== src/Config/Safely.antt =====
-- Parsers that do not panic, and what their results satisfy (firmware/ephemerkey-config/src/lib.rs).
use mathlib.Core.Path.{subst}
use ephemerkey.Common.{
  ℕ, zero, suc, ◌+◌, ◌%◌, ◌<◌, ◌≤◌, ◌≡◌, Bool, true, false, Option, some, ltb, leb, ◌==◌, inl, inr,
  ◌&&◌, if◌then◌else◌, List, ◌∷◌, ◌++◌, length, take, drop, update, arith, Bool-cases,
  length-append, length-drop, length-take,
}
use ephemerkey.Cbor
use ephemerkey.Cbor.Decode
use ephemerkey.Receipt.{max_secret}
use ephemerkey.Config.{Parsed, good, bad, panics, ◌>>=◌, lift}
use ephemerkey.Config.Fields.{
  uint, skip_field, fields, record_of, entries, table_of, read_secret, read_indices, read_idx_array,
  digits_from, action_from, mode_from, role_from,
}

-- The parser does not panic, and its result, if it is a good one, satisfies `P`.
abbrev pub Safely : {A : Type 0} → (A → Type 0) → Parsed A → Type 0
Safely P (good a) = P a
Safely P (bad e) = Unit {0}
Safely P panics = ⊥

pub Safely-then :
    {A B : Type 0} (P : A → Type 0) (Q : B → Type 0) (m : Parsed A) (k : A → Parsed B)
    → Safely P m
    → ((a : A) → P a → Safely Q (k a))
    → Safely Q (m >>= k)
Safely-then P Q (good a) k h next = next a h
Safely-then P Q (bad e) k h next = tt
Safely-then P Q panics k h next = absurd h

-- What the envelope's decoder answers is a good result or an error.
pub lift_then :
    {A B : Type 0} (Q : B → Type 0) (r : Cbor.Result A) (k : A → Parsed B)
    → ((a : A) → Safely Q (k a))
    → Safely Q (lift r >>= k)
lift_then Q (Cbor.ok a) k next = next a
lift_then Q (Cbor.err e) k next = tt

-- The first part of a result and the bytes behind it.
abbrev pub Read : {A : Type 0} → (A → Type 0) → A × List ℕ → Type 0
Read P (a, bs) = P a

pub if-Safely :
    {A : Type 0} (Q : A → Type 0) (test : Bool) (x y : Parsed A)
    → Safely Q x
    → Safely Q y
    → Safely Q (if test then x else y)
if-Safely Q true x y hx hy = hx
if-Safely Q false x y hx hy = hy

pub skip_field-Safely :
    {A : Type 0} (P : A → Type 0) (a : A) (bs : List ℕ) → P a → Safely (Read P) (skip_field a bs)
skip_field-Safely P a bs h = lift_then (Read P) (Decode.skip bs) _ (λ bs. h)

-- A loop of field parsers keeps what each of them keeps.
pub fields-Safely :
    {A : Type 0} (P : A → Type 0) (field : ℕ → A → List ℕ → Parsed (A × List ℕ))
    → ((key : ℕ) (a : A) (bs : List ℕ) → P a → Safely (Read P) (field key a bs))
    → (n : ℕ) (a : A) (bs : List ℕ) → P a
    → Safely (Read P) (fields field n a bs)
unfolding fields
fields-Safely P field each zero a bs h = h
fields-Safely P field each (suc n) a bs h = lift_then (Read P) (Decode.uint bs) _ (λ (key, bs).
    Safely-then (Read P) (Read P) (field key a bs) _ (each key a bs h)
      (λ (a, bs) h. fields-Safely P field each n a bs h))

pub record_of-Safely :
    {A : Type 0} (P : A → Type 0) (field : ℕ → A → List ℕ → Parsed (A × List ℕ))
    → ((key : ℕ) (a : A) (bs : List ℕ) → P a → Safely (Read P) (field key a bs))
    → (a : A) (bs : List ℕ) → P a
    → Safely (Read P) (record_of field a bs)
record_of-Safely P field each a bs h =
    lift_then (Read P) (Decode.map bs) _ (λ (n, bs). fields-Safely P field each n a bs h)

-- Every entry of a table stands below `room` and satisfies `P`.
abbrev pub Tabled : {A : Type 0} → ℕ → (A → Type 0) → (ℕ → Option A) → Type 0
Tabled {A} room P table = (i : ℕ) (a : A) → table i ≡ some a → (i < room) × P a

Tabled-update :
    {A : Type 0} (room : ℕ) (P : A → Type 0) (table : ℕ → Option A) (i : ℕ) (a : A)
    → i < room
    → P a
    → Tabled room P table
    → Tabled room P (update table i (some a))
Tabled-update room P table i a lt pa h j b at = elim (Bool-cases (j == i)) [
  | inl same ↦
      let q : some a ≡ some b = rw same at at in
      let s : a ≡ b = cc in (ground (arith, same), subst P s pa)
  | inr other ↦ h j b (rw other at at)
]

pub entries-Safely :
    {A : Type 0} (room : ℕ) (P : A → Type 0) (item : List ℕ → Parsed (A × List ℕ))
    → ((bs : List ℕ) → Safely (Read P) (item bs))
    → (n i : ℕ) (table : ℕ → Option A) (bs : List ℕ) → Tabled room P table
    → Safely (Read (Tabled room P)) (entries room item n i table bs)
unfolding entries
entries-Safely room P item each zero i table bs h = h
entries-Safely room P item each (suc n) i table bs h =
    Safely-then (Read P) (Read (Tabled room P)) (item bs) _ (each bs) (λ (a, bs) pa.
      elim (Bool-cases (leb room i)) [
        | inl past ↦ rw past tt
        | inr inside ↦ rw inside (
            entries-Safely room P item each n (i + 1) (update table i (some a)) bs
              (Tabled-update room P table i a (ground (arith, inside)) pa h))
      ])

pub table_of-Safely :
    {A : Type 0} (room : ℕ) (P : A → Type 0) (item : List ℕ → Parsed (A × List ℕ))
    → ((bs : List ℕ) → Safely (Read P) (item bs))
    → (table : ℕ → Option A) (bs : List ℕ) → Tabled room P table
    → Safely (Read (Tabled room P)) (table_of room item table bs)
table_of-Safely room P item each table bs h =
    lift_then (Read (Tabled room P)) (Decode.array bs) _
      (λ (n, bs). entries-Safely room P item each _ 0 table bs h)

-- A buffer of 32 bytes, and the length of its part in use.
abbrev pub Buffered : List ℕ × ℕ → Type 0
Buffered (s, n) = (length s ≡ 32) × (n ≤ 32)

pub read_secret-Safely :
    (out bs : List ℕ) → length out ≡ 32 → Safely (Read Buffered) (read_secret out bs)
unfolding read_secret
read_secret-Safely out bs h = lift_then (Read Buffered) (Decode.bstr bs) _ (λ (b, bs).
    elim (Bool-cases (ltb max_secret (length b))) [
      | inl long ↦ rw long tt
      | inr fits ↦
          let l = length-append b (drop (length b) out) in
          let m = length-drop (length b) out in
          let s : length b ≤ 32 = ground (arith, fits) in
          rw fits (omega (arith, l, m, h), omega arith)
    ])

-- A buffer of `room` bytes, and a count of them.
abbrev pub Counted : ℕ → List ℕ × ℕ → Type 0
Counted room (out, n) = (length out ≡ room) × (n ≤ room)

read_indices-Safely :
    (room n count : ℕ) (out bs : List ℕ)
    → Counted room (out, count)
    → Safely (Read (Counted room)) (read_indices n count out bs)
unfolding read_indices
read_indices-Safely room zero count out bs h = h
read_indices-Safely room (suc n) count out bs (full, inside) =
    lift_then (Read (Counted room)) (Decode.uint bs) _ (λ (v, bs).
      elim (Bool-cases (leb (length out) count)) [
        | inl past ↦ rw past tt
        | inr before ↦
            let room_left : suc count ≤ length out = ground (arith, before) in
            let l = length-append (take count out) (v % 256 ∷ drop (count + 1) out) in
            let t = length-take count out in
            let d = length-drop (count + 1) out in
            rw before (
              read_indices-Safely room n (count + 1)
                (take count out ++ v % 256 ∷ drop (count + 1) out) bs
                (omega (arith, l, t, d, full, room_left), omega (arith, full, room_left)))
      ])

pub read_idx_array-Safely :
    (room : ℕ) (out bs : List ℕ)
    → length out ≡ room
    → Safely (Read (Counted room)) (read_idx_array out bs)
read_idx_array-Safely room out bs full =
    lift_then (Read (Counted room)) (Decode.array bs) _
      (λ (n, bs). read_indices-Safely room n 0 out bs (full, omega arith))

-- A field that holds a number, or else another one.
pub number_field :
    {A : Type 0} (P : A → Type 0) (test : Bool) (set : ℕ → A) (bs : List ℕ)
    (other : Parsed (A × List ℕ))
    → ((v : ℕ) → P (set v))
    → Safely (Read P) other
    → Safely (Read P) (if test then (uint bs >>= λ (v, bs). good (set v, bs)) else other)
number_field P true set bs other h k = lift_then (Read P) (Decode.uint bs) _ (λ (v, bs). h v)
number_field P false set bs other h k = k

-- A parser that makes no promise but not to panic.
abbrev pub Any : {A : Type 0} → A → Type 0
Any a = Unit {0}

pub action_from-Safely : (v : ℕ) → Safely Any (action_from v)
action_from-Safely v =
    if-Safely Any (v == 0) _ _ tt (if-Safely Any (v == 1) _ _ tt (if-Safely Any (v == 2) _ _ tt tt))

pub mode_from-Safely : (v : ℕ) → Safely Any (mode_from v)
mode_from-Safely v =
    if-Safely Any (v == 0) _ _ tt (if-Safely Any (v == 1) _ _ tt (if-Safely Any (v == 2) _ _ tt tt))

pub role_from-Safely : (v : ℕ) → Safely Any (role_from v)
role_from-Safely v = if-Safely Any (v == 1) _ _ tt (if-Safely Any (v == 2) _ _ tt tt)

-- A number of digits that a code can have.
abbrev pub IsDigits : ℕ → Type 0
IsDigits n = (4 ≤ n) × (n ≤ 10)

pub digits_from-Safely : (v : ℕ) → Safely IsDigits (digits_from v)
digits_from-Safely v = elim (Bool-cases (leb 4 v && leb v 10)) [
  | inl between ↦
      let lo : 4 ≤ v = ground (arith, between) in
      let hi : v ≤ 10 = ground (arith, between) in rw between (omega arith, omega arith)
  | inr outside ↦ rw outside tt
]

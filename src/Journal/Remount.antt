-- ===== src/Journal/Remount.antt =====
-- What `load_config` loads from the two slots, by what they hold.
use ephemerkey.Common.{
  ℕ, ◌≡◌, ◌≢◌, ◌≤◌, ◌<◌, refl, sym, ◌∙◌, Option, none, some, List, arith, inl, inr, ◌⊎◌,
  Option-cases,
}
use mathlib.Core.Path.{subst}
use native.Mathlib.Decide.{dec_lt}
use ephemerkey.Journal.{
  Header, Layout, Mirror, blank, parse_header, load_from, newer, load_slot, stale_slot,
}

-- What a slot holds: nothing that parses, or a record.
abbrev pub Empty : Option (List ℕ) → Type 0
Empty none = Unit {0}
Empty (some b) = parse_header b ≡ none

pub record Holds (r : Option (List ℕ)) (slot : ℕ) (m : Mirror) : Type 0 where
  pub bytes : List ℕ
  pub header : Header
  pub read_ok : r ≡ some bytes
  pub parsed : parse_header bytes ≡ some header
  pub loads : load_from bytes slot header ≡ m
  pub generation_eq : header.generation ≡ m.generation
  pub slot_eq : m.cur_slot ≡ some slot

load_slot-Empty : (r : Option (List ℕ)) (slot : ℕ) (m : Mirror) → Empty r → load_slot r slot m ≡ m
unfolding load_slot
load_slot-Empty none slot m h = refl
load_slot-Empty (some b) slot m h = rw h refl

load_slot-Holds :
    (r : Option (List ℕ)) (slot : ℕ) (m old : Mirror)
    → Holds r slot m
    → (old.cur_slot ≡ none) ⊎ (old.generation < m.generation)
    → load_slot r slot old ≡ m
unfolding load_slot
load_slot-Holds r slot m old h (inl fresh) = rw (h.read_ok, h.parsed, fresh) h.loads
load_slot-Holds r slot m old h (inr newer) =
    rw (h.read_ok, h.parsed) (ground (arith, h.generation_eq, h.loads, newer))

load_slot-older :
    (r : Option (List ℕ)) (slot : ℕ) (m old : Mirror) {s : ℕ}
    → Holds r slot m
    → old.cur_slot ≡ some s
    → m.generation ≤ old.generation
    → load_slot r slot old ≡ old
unfolding load_slot
load_slot-older r slot m old h at le =
    rw (h.read_ok, h.parsed) (ground (arith, h.generation_eq, at, le))

-- What a slot holds, one way or the other.
slot_cases : (r : Option (List ℕ)) (slot : ℕ) → Empty r ⊎ ((m : Mirror) × Holds r slot m)
slot_cases none slot = inl tt
slot_cases (some b) slot = elim (Option-cases (parse_header b)) [
  | inl e ↦ inl e
  | inr (h, e) ↦ inr (
    load_from b slot h,
    record {
      bytes = b;
      header = h;
      read_ok = refl;
      parsed = e;
      loads = refl;
      generation_eq = unfold load_from in refl;
      slot_eq = unfold load_from in refl;
    },
  )
]

-- A slot holds nothing, or a record with property `P`.
abbrev pub EmptyOr : Option (List ℕ) → ℕ → (Mirror → Type 0) → Type 0
EmptyOr r slot P = Empty r ⊎ ((m : Mirror) × Holds r slot m × P m)

-- The record that a mount finds in two slots that are read as `ra` and `rb`.
pub data Live (ra rb : Option (List ℕ)) (l : Layout) (m : Mirror) : Type 0 where
  nowhere : Empty ra → Empty rb → m ≡ blank → Live ra rb l m
  in_a :
      Holds ra l.slot_a m
      → EmptyOr rb l.slot_b (λ old. old.generation ≤ m.generation)
      → Live ra rb l m
  in_b :
      Holds rb l.slot_b m
      → EmptyOr ra l.slot_a (λ old. old.generation < m.generation)
      → Live ra rb l m

abbrev pub loaded : Option (List ℕ) → Option (List ℕ) → Layout → Mirror
loaded ra rb l = load_slot rb l.slot_b (load_slot ra l.slot_a blank)

pub Live-loaded :
    (ra rb : Option (List ℕ)) (l : Layout) (m : Mirror) → Live ra rb l m → loaded ra rb l ≡ m
Live-loaded ra rb l m (nowhere a b e) =
    rw (load_slot-Empty ra l.slot_a blank a, load_slot-Empty rb l.slot_b blank b) (sym e)
Live-loaded ra rb l m (in_a h (inl e)) =
    rw (load_slot-Holds ra l.slot_a m blank h (inl refl)) (load_slot-Empty rb l.slot_b m e)
Live-loaded ra rb l m (in_a h (inr (o, k, le))) =
    rw (load_slot-Holds ra l.slot_a m blank h (inl refl))
      (load_slot-older rb l.slot_b o m k h.slot_eq le)
Live-loaded ra rb l m (in_b h (inl e)) =
    rw (load_slot-Empty ra l.slot_a blank e) (load_slot-Holds rb l.slot_b m blank h (inl refl))
Live-loaded ra rb l m (in_b h (inr (o, k, lt))) =
    rw (load_slot-Holds ra l.slot_a o blank k (inl refl))
      (load_slot-Holds rb l.slot_b m o h (inr lt))

-- What is loaded is the live record.
loaded_lem :
    (ra rb : Option (List ℕ)) (l : Layout)
    → Empty ra ⊎ ((m : Mirror) × Holds ra l.slot_a m)
    → Empty rb ⊎ ((m : Mirror) × Holds rb l.slot_b m)
    → (m : Mirror) × Live ra rb l m
loaded_lem ra rb l (inl a) (inl b) = (blank, nowhere a b refl)
loaded_lem ra rb l (inr (m, h)) (inl b) = (m, in_a h (inl b))
loaded_lem ra rb l (inl a) (inr (m, h)) = (m, in_b h (inl a))
loaded_lem ra rb l (inr (m, h)) (inr (n, k)) = elim (dec_lt m.generation n.generation) [
  | yes lt ↦ (n, in_b k (inr (m, h, lt)))
  | no ge ↦ (m, in_a h (inr (n, k, omega arith)))
]

pub loaded-Live : (ra rb : Option (List ℕ)) (l : Layout) → Live ra rb l (loaded ra rb l)
loaded-Live ra rb l =
    let (m, live) = loaded_lem ra rb l (slot_cases ra l.slot_a) (slot_cases rb l.slot_b) in
    subst (Live ra rb l) (sym (Live-loaded ra rb l m live)) live

-- Reads of the two slots after a change of the page at `t` alone.
pub record OnlyAt (l : Layout) (t : ℕ) (ra rb ra' rb' : Option (List ℕ)) : Type 0 where
  pub a_kept : t ≢ l.slot_a → ra' ≡ ra
  pub b_kept : t ≢ l.slot_b → rb' ≡ rb

module _ (l : Layout) (ra rb ra' rb' : Option (List ℕ)) (old : Mirror)
    (apart : l.slot_a ≢ l.slot_b) where
  stale-b : (m : Mirror) → m.cur_slot ≡ some l.slot_b → stale_slot l m.cur_slot ≡ l.slot_a
  stale-b m e = rw e (ground arith)

  stale-a : (m : Mirror) → m.cur_slot ≡ some l.slot_a → stale_slot l m.cur_slot ≡ l.slot_b
  stale-a m e = rw e (ground arith)

  -- A newer record in the stale slot is the live one.
  pub Live-next :
      (new : Mirror)
      → Live ra rb l old
      → OnlyAt l (stale_slot l old.cur_slot) ra rb ra' rb'
      → old.generation < new.generation
      → (stale_slot l old.cur_slot ≡ l.slot_a → Holds ra' l.slot_a new)
      → (stale_slot l old.cur_slot ≡ l.slot_b → Holds rb' l.slot_b new)
      → Live ra' rb' l new
  Live-next new (nowhere a b e) only lt ha hb =
      let t : stale_slot l old.cur_slot ≡ l.slot_a = rw e refl in
      let kept : rb' ≡ rb = only.b_kept (λ q. apart (sym t ∙ q)) in
      in_a (ha t) (inl (subst Empty (sym kept) b))
  Live-next new (in_a h eb) only lt ha hb =
      let t : stale_slot l old.cur_slot ≡ l.slot_b = stale-a old h.slot_eq in
      let kept : ra' ≡ ra = only.a_kept (λ q. apart (sym q ∙ t)) in
      in_b (hb t) (inr (old, subst (λ r. Holds r l.slot_a old) (sym kept) h, lt))
  Live-next new (in_b h ea) only lt ha hb =
      let t : stale_slot l old.cur_slot ≡ l.slot_a = stale-b old h.slot_eq in
      let kept : rb' ≡ rb = only.b_kept (λ q. apart (sym t ∙ q)) in
      in_a (ha t) (inr (old, subst (λ r. Holds r l.slot_b old) (sym kept) h, omega arith))

-- The live record after a change of the stale slot alone, read by `at` before and by `at'` after.
module _ (l : Layout) (at at' : ℕ → Option (List ℕ)) (old : Mirror)
    (apart : l.slot_a ≢ l.slot_b) where
  abbrev stale : ℕ
  stale = stale_slot l old.cur_slot

  -- The stale slot holds a record that is not older than the live one, and it is now the live one.
  abbrev pub Superseded : Type 0
  Superseded =
      (m : Mirror) × Holds (at' stale) stale m
      × (old.generation ≤ m.generation)
      × Live (at' l.slot_a) (at' l.slot_b) l m

  module _ (same : (p : ℕ) → (p ≡ l.slot_a) ⊎ (p ≡ l.slot_b) → p ≢ stale → at' p ≡ at p) where
    same_a : stale ≡ l.slot_b → at' l.slot_a ≡ at l.slot_a
    same_a t = same l.slot_a (inl refl) (λ q. apart (q ∙ t))

    same_b : stale ≡ l.slot_a → at' l.slot_b ≡ at l.slot_b
    same_b t = same l.slot_b (inr refl) (λ q. apart (sym t ∙ sym q))

    -- Whatever the stale slot holds, the live record stays the live one, or is superseded.
    Live-or_superseded :
        Live (at l.slot_a) (at l.slot_b) l old
        → Empty (at' stale) ⊎ ((m : Mirror) × Holds (at' stale) stale m)
        → Live (at' l.slot_a) (at' l.slot_b) l old ⊎ Superseded
    Live-or_superseded (nowhere a b e) (inl none_there) =
        let t : stale ≡ l.slot_a = rw e refl in
        inl (nowhere (subst (λ p. Empty (at' p)) t none_there) (subst Empty (sym (same_b t)) b) e)
    Live-or_superseded (nowhere a b e) (inr (m, h)) =
        let t : stale ≡ l.slot_a = rw e refl in
        let first : old.generation ≤ m.generation =
          let z : old.generation ≡ 0 = rw e refl in omega arith in
        inr (
          m,
          h,
          first,
          in_a (subst (λ p. Holds (at' p) p m) t h) (inl (subst Empty (sym (same_b t)) b)),
        )
    Live-or_superseded (in_a h o) found =
        let t : stale ≡ l.slot_b = rw h.slot_eq (ground arith) in
        let kept = subst (λ r. Holds r l.slot_a old) (sym (same_a t)) h in
        elim found [
          | inl none_there ↦ inl (in_a kept (inl (subst (λ p. Empty (at' p)) t none_there)))
          | inr (m, k) ↦
              let there = subst (λ p. Holds (at' p) p m) t k in
              elim (dec_lt old.generation m.generation) [
                | yes lt ↦ inr (m, k, omega arith, in_b there (inr (old, kept, lt)))
                | no ge ↦ inl (in_a kept (inr (m, there, omega arith)))
              ]
        ]
    Live-or_superseded (in_b h o) found =
        let t : stale ≡ l.slot_a = rw h.slot_eq (ground arith) in
        let kept = subst (λ r. Holds r l.slot_b old) (sym (same_b t)) h in
        elim found [
          | inl none_there ↦ inl (in_b kept (inl (subst (λ p. Empty (at' p)) t none_there)))
          | inr (m, k) ↦
              let there = subst (λ p. Holds (at' p) p m) t k in
              elim (dec_lt m.generation old.generation) [
                | yes lt ↦ inl (in_b kept (inr (m, there, lt)))
                | no ge ↦ inr (m, k, omega arith, in_a there (inr (old, kept, omega arith)))
              ]
        ]

    pub Live-torn :
        Live (at l.slot_a) (at l.slot_b) l old
        → Live (at' l.slot_a) (at' l.slot_b) l old ⊎ Superseded
    Live-torn live = Live-or_superseded live (slot_cases (at' stale) stale)

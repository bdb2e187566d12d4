-- ===== src/Engine/Window.antt =====
-- `match_key` finds the newest counter of the delay window at which the key mints the entered code.
use ephemerkey.Common.{
  ℕ, zero, suc, ◌-◌, ◌/◌, ◌≡◌, ◌≢◌, ◌≤◌, ◌<◌, inl, inr, true, false, Bool-cases, Option, none, some,
  List, ◌==◌, if◌then◌else◌, u32, sub32, arith, take,
}
use mathlib.Core.Path.{subst₂}
use native.Mathlib.Decide.{dec_lt}
use ephemerkey.Policy.{period_s}
use ephemerkey.Totp.{Code, code_eq, hotp}
use ephemerkey.Totp.Entry.{hotp_returns}
use ephemerkey.Receipt.{secret_slice}
use ephemerkey.Engine.{KeyDef}
use ephemerkey.Engine.Search.{search, match_key}

code_eq-eq : (a b : Code) → code_eq a b ≡ true → a ≡ b
code_eq-eq a b h = ground arith

code_eq-ne : (a b : Code) → code_eq a b ≡ false → a ≢ b
code_eq-ne a b h e = ground arith

-- The counters between which a delay window is searched, and a counter on the way down the u32 circle
-- from the first to the last.
abbrev pub top : ℕ × ℕ → ℕ → ℕ
top delay now = u32 ((now - delay.0) / period_s)

abbrev pub bottom : ℕ × ℕ → ℕ → ℕ
bottom delay now = u32 ((now - delay.1) / period_s)

abbrev pub InWindow : ℕ × ℕ → ℕ → ℕ → Type 0
InWindow delay now m = sub32 (top delay now) m ≤ sub32 (top delay now) (bottom delay now)

module _ (hmac : List ℕ → List ℕ → List ℕ) (secret : List ℕ) (code : Code) (d : ℕ) where
  -- The key mints the code at counter `x`.
  abbrev pub Mints : ℕ → Type 0
  Mints x = hotp hmac secret x d ≡ some code

  -- What a search of the counters from `lo` to `hi` answers.
  abbrev pub Searched : ℕ → ℕ → Option ℕ → Type 0
  Searched lo hi none = (x : ℕ) → lo ≤ x → x ≤ hi → ¬ (Mints x)
  Searched lo hi (some m) = (lo ≤ m) × (m ≤ hi) × Mints m × ((x : ℕ) → m < x → x ≤ hi → ¬ (Mints x))

  missed : (x : ℕ) (h : Code) → hotp hmac secret x d ≡ some h → code_eq h code ≡ false → ¬ (Mints x)
  missed x h m other mx = code_eq-ne h code other (cc)

  -- Counter `hi` does not mint the code, so a search from there goes on with the one before it.
  widen :
      (lo hi : ℕ) (r : Option ℕ) → 0 < hi → ¬ (Mints hi) → Searched lo (hi - 1) r → Searched lo hi r
  widen lo hi none p miss s = λ x l h m. elim (dec_lt x hi) [
    | yes lt ↦ s x l (omega arith) m
    | no ge ↦ let e : x ≡ hi = omega arith in miss (rw e at m)
  ]
  widen lo hi (some c) p miss s = (
    s.0,
    omega (arith, s.1),
    s.2,
    λ x l h m. elim (dec_lt x hi) [
      | yes lt ↦ s.3 x l (omega arith) m
      | no ge ↦ let e : x ≡ hi = omega arith in miss (rw e at m)
    ],
  )

  -- One round of the loop, with the code that the key mints at the counter.
  round :
      (fuel c lo : ℕ) (h : Code)
      → hotp hmac secret c d ≡ some h
      → search hmac (suc fuel) secret code d c lo ≡ (
          if code_eq h code
          then some (some c)
          else if c == lo
          then some none
          else search hmac fuel secret code d (sub32 c 1) lo)
  unfolding search
  round fuel c lo h m = rw m

  -- What is found is a counter of the window, on the u32 circle, at which the key mints the code.
  abbrev pub Sound : ℕ → ℕ → Option ℕ → Type 0
  Sound hi lo none = Unit {0}
  Sound hi lo (some m) = Mints m × (m < 4294967296) × (sub32 hi m ≤ sub32 hi lo)

  -- One counter more at the top of a window that is not yet at its end.
  Sound-widen :
      (hi lo : ℕ) (r : Option ℕ)
      → hi < 4294967296
      → lo < 4294967296
      → (hi == lo) ≡ false
      → Sound (sub32 hi 1) lo r
      → Sound hi lo r
  Sound-widen hi lo none wh wl ne s = tt
  Sound-widen hi lo (some m) wh wl ne (mints, word, within) = (mints, word, ground arith)

  -- The loop ends by its tests, also where the window is empty and the counter goes round at 0.
  search_returns :
      (small : d ≤ 10) (fuel lo c : ℕ)
      → lo < 4294967296
      → c < 4294967296
      → sub32 c lo < fuel
      → (r : Option ℕ) × (search hmac fuel secret code d c lo ≡ some r) × Sound c lo r
  search_returns small zero lo c wl wc f = absurd (omega arith)
  search_returns small (suc fuel) lo c wl wc f =
      let (h, m) = hotp_returns hmac secret c d small in
      elim (Bool-cases (code_eq h code)) [
        | inl same ↦ (
          some c,
          rw (round fuel c lo h m, same),
          (rw (← code_eq-eq h code same) m, wc, omega arith),
        )
        | inr other ↦ elim (Bool-cases (c == lo)) [
          | inl last ↦ (none, rw (round fuel c lo h m, other, last), tt)
          | inr more ↦
              let (r, e, s) =
                search_returns small fuel lo (sub32 c 1) wl (omega arith) (ground arith) in
              (r, rw (round fuel c lo h m, other, more) e, Sound-widen c lo r wc wl more s)
        ]
      ]

  search_lem :
      (small : d ≤ 10) (fuel lo hi : ℕ)
      → lo ≤ hi
      → hi < 4294967296
      → hi - lo < fuel
      → (r : Option ℕ) × (search hmac fuel secret code d hi lo ≡ some r) × Searched lo hi r
  search_lem small zero lo hi le word f = absurd (omega arith)
  search_lem small (suc fuel) lo hi le word f =
      let (h, m) = hotp_returns hmac secret hi d small in
      elim (Bool-cases (code_eq h code)) [
        | inl same ↦ (
          some hi,
          rw (round fuel hi lo h m, same),
          (le, omega arith, rw (← code_eq-eq h code same) m, λ x l u. absurd (omega arith)),
        )
        | inr other ↦
            let miss = missed hi h m other in
            elim (Bool-cases (hi == lo)) [
              | inl last ↦ (
                none,
                rw (round fuel hi lo h m, other, last),
                λ x l u mx. let e : x ≡ hi = ground arith in miss (rw e at mx),
              )
              | inr more ↦
                  let (r, e, s) =
                    search_lem small fuel lo (hi - 1) (ground arith) (omega arith) (ground arith) in
                  let step : sub32 hi 1 ≡ hi - 1 = ground arith in
                  (
                    r,
                    rw (round fuel hi lo h m, other, more, step) e,
                    widen lo hi r (ground arith) miss s,
                  )
            ]
      ]

-- The bytes of the secret in use.
abbrev pub secret_of : KeyDef → List ℕ
secret_of key = take key.secret_len key.secret

module _ (hmac : List ℕ → List ℕ → List ℕ) (key : KeyDef) (code : Code) (now near far : ℕ) where
  abbrev pub newest : ℕ
  newest = u32 ((now - near) / period_s)

  abbrev pub oldest : ℕ
  oldest = u32 ((now - far) / period_s)

  -- For a key whose secret fits its buffer, a code of the key's length of up to 10 digits, and a
  -- window whose counters are u32 values in order, `match_key` returns: it answers with the newest
  -- counter of the window at which the key mints the code, or with `none` when it mints the code at
  -- no counter of the window.
  pub match_key_lem :
      key.secret_len ≤ 32
      → code.digits ≡ key.digits
      → key.digits ≤ 10
      → near ≤ far
      → now / period_s < 4294967296
      → (r : Option ℕ) × (match_key hmac key code now (near, far) ≡ some r)
        × Searched hmac
            (secret_of key)
            code
            key.digits
            ((now - far) / period_s)
            ((now - near) / period_s)
            r
  unfolding match_key secret_slice
  match_key_lem fits len small order word =
      let hi : newest ≡ (now - near) / period_s = omega arith in
      let lo : oldest ≡ (now - far) / period_s = omega arith in
      let (r, e, s) =
        search_lem hmac (secret_of key) code key.digits small (suc (sub32 newest oldest)) oldest
          newest (omega arith) (omega arith) (omega arith) in
      (
        r,
        ground (arith, e),
        subst₂ (λ l h. Searched hmac (secret_of key) code key.digits l h r) lo hi s,
      )

  -- `match_key` returns for every window, and what it finds lies in it and is minted by the key.
  pub match_key_returns :
      key.secret_len ≤ 32
      → key.digits ≤ 10
      → (r : Option ℕ) × (match_key hmac key code now (near, far) ≡ some r)
        × Sound hmac (secret_of key) code key.digits newest oldest r
  unfolding match_key secret_slice
  match_key_returns fits small =
      let (r, e, s) =
        search_returns hmac (secret_of key) code key.digits small (suc (sub32 newest oldest)) oldest
          newest (omega arith) (omega arith) (omega arith) in
      elim (Bool-cases (code.digits == key.digits)) [
        | inl same ↦ (r, ground (arith, e), s)
        | inr other ↦ (none, ground arith, tt)
      ]

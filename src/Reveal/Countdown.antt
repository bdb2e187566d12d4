-- ===== src/Reveal/Countdown.antt =====
-- The countdown to the next code, and what a clock that runs backwards does to the cadence
-- (firmware/ephemerkey-core/src/reveal.rs).
use ephemerkey.Common.{ℕ, ◌+◌, ◌^◌, ◌≡◌, ◌≤◌, ◌<◌, refl, true, false, none, some, arith, List, leb}
use ephemerkey.Reveal.{
  Generator, GenKey, GenKeyState, OnceMode, Shown, Reveal, gen_key, next_real, next_real_in,
  real_ok, reveal, present, shut_out, chain_stop,
}
use ephemerkey.Reveal.Sight.{spend, reveal-IsReal}

countdown_exact :
    (once : OnceMode) (st : GenKeyState) (gap now t : ℕ)
    → st.last_real + gap < 2 ^ 64
    → st.last_real ≤ now
    → now ≤ t
    → t < 2 ^ 64
    → real_ok once st gap t ≡ leb (now + next_real once st gap now) t
countdown_exact OnceMode.unlimited st gap now t fits le lo word = ground arith
countdown_exact OnceMode.refuse st gap now t fits le lo word = ground arith
countdown_exact OnceMode.decoy st gap now t fits le lo word = ground arith

-- A key last shown at or before `now`, whose gap does not overflow u64: the seconds that the
-- countdown gives are the exact wait for the cadence, which permits the key's own code at a u64 time
-- `t` from `now` on if and only if they have passed.
pub next_real_in-real_ok :
    (g : Generator) (idx now t : ℕ) (gk : GenKey)
    → gen_key g idx ≡ some gk
    → (g.state idx).last_real + gk.display.gap_min_s < 2 ^ 64
    → (g.state idx).last_real ≤ now
    → now ≤ t
    → t < 2 ^ 64
    → (s : ℕ) × (next_real_in g idx now ≡ some s)
      × (real_ok gk.display.once (g.state idx) gk.display.gap_min_s t ≡ leb (now + s) t)
unfolding next_real_in
next_real_in-real_ok g idx now t gk at fits le lo word = (
  next_real gk.display.once (g.state idx) gk.display.gap_min_s now,
  rw at refl,
  countdown_exact gk.display.once (g.state idx) gk.display.gap_min_s now t fits le lo word,
)

back_permits :
    (once : OnceMode) (st : GenKeyState) (gap now : ℕ)
    → now < st.last_real
    → st.last_real + gap ≤ now + 2 ^ 64
    → st.last_real < 2 ^ 64
    → real_ok once st gap now ≡ true
back_permits OnceMode.unlimited st gap now back near word = refl
back_permits OnceMode.refuse st gap now back near word = ground arith
back_permits OnceMode.decoy st gap now back near word = ground arith

-- A key whose own code was shown at a u64 time later than `now`, as after the clock was set back,
-- which neither the ritual nor the chain shuts, and whose code can be presented: its own code is shown
-- at once, with any gap that is not longer than 2 ^ 64 seconds less the step back, since the seconds
-- since the last reveal wrap around.
pub clock_back_skips_cadence :
    (hmac : List ℕ → List ℕ → List ℕ) (g : Generator) (idx now e : ℕ) (gk : GenKey) (r : Reveal)
    → gen_key g idx ≡ some gk
    → shut_out g idx now ≡ false
    → chain_stop gk.chain (g.state idx) now ≡ none
    → now < (g.state idx).last_real
    → (g.state idx).last_real < 2 ^ 64
    → (g.state idx).last_real + gk.display.gap_min_s ≤ now + 2 ^ 64
    → present hmac gk.display gk.key now e ≡ some r
    → reveal hmac g idx now e ≡ some (spend hmac g idx now e gk, Shown.ok r)
clock_back_skips_cadence hmac g idx now e gk r at unbarred chained back word near mints =
    reveal-IsReal hmac g idx now e (record {
      gk = gk;
      at = at;
      unbarred = unbarred;
      chained = chained;
      paced = back_permits gk.display.once (g.state idx) gk.display.gap_min_s now back near word;
      spent = refl;
      mints = mints;
    })

-- ===== src/Slots/Dispatch.antt =====
-- `on_code` by policy: the replay guard, then the machine of the policy, which stays shut.
use ephemerkey.Common.{ℕ, ◌≡◌, ◌&&◌, ltb, leb, if◌then◌else◌, refl}
use ephemerkey.Policy.{Slot, Policy, Sequence, LegPath, Quorum}
use ephemerkey.Slots.{
  SlotState, Verdict, on_code, policy_code, sequence_code, path_code, dead_man_code, quorum_code,
}

-- Behind the guard against burned counters.
abbrev pub guarded : SlotState → ℕ → SlotState × Verdict → SlotState × Verdict
guarded st counter out =
    if ltb 0 st.count && leb counter st.last_counter then (st, Verdict.ignored) else out

module _ (slot : Slot) (st : SlotState) (k c t : ℕ) where
  on_code-guarded :
      on_code st slot k c t ≡ guarded st c (policy_code slot.policy slot.action st k c t)
  unfolding on_code
  on_code-guarded = refl

  on_policy :
      {q : Policy}
      → slot.policy ≡ q
      → on_code st slot k c t ≡ guarded st c (policy_code q slot.action st k c t)
  on_policy e = rw on_code-guarded (rw e)

  pub on_sequence :
      (p : Sequence)
      → slot.policy ≡ Policy.sequence p
      → on_code st slot k c t ≡ guarded st c (sequence_code p slot.action st c t)
  unfolding policy_code
  on_sequence p e = on_policy e

  pub on_path :
      (p : LegPath)
      → slot.policy ≡ Policy.path p
      → on_code st slot k c t ≡ guarded st c (path_code p slot.action st c t)
  unfolding policy_code
  on_path p e = on_policy e

  pub on_dead_man :
      (b : ℕ)
      → slot.policy ≡ Policy.dead_man b
      → on_code st slot k c t ≡ guarded st c (dead_man_code slot.action st c t)
  unfolding policy_code
  on_dead_man b e = on_policy e

  pub on_quorum :
      (p : Quorum)
      → slot.policy ≡ Policy.quorum p
      → on_code st slot k c t ≡ guarded st c (quorum_code p slot.action st k c t)
  unfolding policy_code
  on_quorum p e = on_policy e

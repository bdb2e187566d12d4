-- ===== src/Engine/Candidates.antt =====
-- The candidate keys of a slot.
use ephemerkey.Common.{
  ℕ, suc, ◌+◌, ◌-◌, ◌≡◌, ◌<◌, some, List, [], ◌∷◌, take, get_elem?, get_elem?_returns,
  get_elem?-take, All-get_elem?, All, min, refl, arith,
}
use mathlib.Core.Path.{subst}
use ephemerkey.Policy.{Policy, Slot, max_quorum}
use ephemerkey.Slots.{SlotState}
use ephemerkey.Engine.{candidates, policy_candidates, numbered}
use ephemerkey.Engine.Frame.{Ends, PolicyOk, SlotOk}
use ephemerkey.Engine.Effect.{IsCandidate}

numbered-All :
    (ks : List ℕ) (i : ℕ) (P : ℕ × ℕ → Type 0)
    → ((j k : ℕ) → get_elem? ks j ≡ some k → P (k, i + j))
    → All P (numbered i ks)
unfolding numbered
numbered-All [] i P h = tt
numbered-All (k ∷ ks) i P h = (
  (let e : i + 0 ≡ i = omega arith in subst (λ n. P (k, n)) e (h 0 k refl)),
  numbered-All ks (i + 1) P (λ j k' g.
      let e : i + suc j ≡ i + 1 + j = omega arith in subst (λ n. P (k', n)) e (h (suc j) k' g)),
)

policy_candidates_lem :
    (key : ℕ) (st : SlotState) (q : Policy)
    → key < 8
    → PolicyOk q
    → Ends (policy_candidates key st q) (All (λ c. IsCandidate key st.count q c × (c.0 < 8)))
unfolding policy_candidates
policy_candidates_lem key st Policy.always_valid k ok = (((refl, refl), k), tt)
policy_candidates_lem key st (Policy.sequence p) k ok = (((refl, refl), k), tt)
policy_candidates_lem key st (Policy.dead_man b) k ok = (((refl, refl), k), tt)
policy_candidates_lem key st (Policy.path p) k (len, legs, ks) =
    let (x, e) = get_elem?_returns p.leg_keys (min st.count (p.legs - 1)) (omega arith) in
    rw e (((refl, e), All-get_elem? (λ i. i < 8) p.leg_keys _ ks e), tt)
policy_candidates_lem key st (Policy.quorum p) k ks =
    numbered-All (take (min p.n_keys max_quorum) p.keys) 0 _ (λ j x g.
      let e : 0 + j ≡ j = omega arith in
      let at = get_elem?-take (min p.n_keys max_quorum) p.keys j g in
      (rw e at, All-get_elem? (λ i. i < 8) p.keys j ks at))

-- Every candidate is a key that the policy of the slot names, with an index in the key table.
pub candidates_lem :
    (slot : Slot) (st : SlotState)
    → SlotOk slot
    → Ends (candidates slot st) (All (λ c. IsCandidate slot.key st.count slot.policy c × (c.0 < 8)))
unfolding candidates
candidates_lem slot st ok = policy_candidates_lem slot.key st slot.policy ok.key_in ok.policy_ok

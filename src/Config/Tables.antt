-- ===== src/Config/Tables.antt =====
-- What every accepted configuration satisfies (firmware/ephemerkey-config/src/lib.rs).
use ephemerkey.Common.{ℕ, zero, suc, ◌%◌, refl, ◌==◌, List, arith, ltb}
use ephemerkey.Cbor.Decode
use ephemerkey.Policy.{Policy, Sequence, LegPath, Quorum, Slot}
use ephemerkey.Config.{Parsed}
use ephemerkey.Config.Fields.{read_idx_array, action_from, fields, record_of}
use ephemerkey.Config.Policies.{
  path_field, no_path, parse_path, quorum_field, no_quorum, parse_quorum, sequence_field,
  parse_sequence, deadman_field, parse_deadman, any_field, policy_of, parse_policy, gates_field,
  no_gates, parse_gates, skip_items, parse_negative, SlotFields, no_slot, slot_field, parse_slot,
}
use ephemerkey.Config.Safely.{
  Safely, Safely-then, lift_then, Read, if-Safely, skip_field-Safely, fields-Safely,
  record_of-Safely, Counted, read_idx_array-Safely, number_field, Any, action_from-Safely,
}

abbrev pub PathFits : LegPath → Type 0
PathFits p = Counted 4 (p.leg_keys, p.legs)

abbrev pub QuorumFits : Quorum → Type 0
QuorumFits p = Counted 4 (p.keys, p.n_keys)

abbrev pub PolicyFits : Policy → Type 0
PolicyFits Policy.always_valid = Unit {0}
PolicyFits (Policy.sequence p) = Unit {0}
PolicyFits (Policy.path p) = PathFits p
PolicyFits (Policy.dead_man b) = Unit {0}
PolicyFits (Policy.quorum p) = QuorumFits p

Counted-u8 : (ks : List ℕ) (n : ℕ) → Counted 4 (ks, n) → Counted 4 (ks, n % 256)
Counted-u8 ks n (full, inside) = (full, omega arith)

path_field-Safely :
    (key : ℕ) (p : LegPath) (bs : List ℕ)
    → PathFits p
    → Safely (Read PathFits) (path_field key p bs)
path_field-Safely key p bs h =
    if-Safely (Read PathFits) (key == 2) _ _
      (Safely-then (Read (Counted 4)) (Read PathFits) (read_idx_array p.leg_keys bs) _
        (read_idx_array-Safely 4 p.leg_keys bs h.0) (λ ((ks, n), bs) fits. Counted-u8 ks n fits))
      (if-Safely (Read PathFits) (key == 3) _ _
        (lift_then (Read PathFits) (Decode.uint bs) _ (λ (v, bs). h))
        (if-Safely (Read PathFits) (key == 4) _ _
          (lift_then (Read PathFits) (Decode.uint bs) _ (λ (v, bs). h))
          (skip_field-Safely PathFits p bs h)))

quorum_field-Safely :
    (key : ℕ) (p : Quorum) (bs : List ℕ)
    → QuorumFits p
    → Safely (Read QuorumFits) (quorum_field key p bs)
quorum_field-Safely key p bs h =
    let number = lift_then (Read QuorumFits) (Decode.uint bs) in
    if-Safely (Read QuorumFits) (key == 2) _ _ (number _ (λ (v, bs). h)) (
      if-Safely (Read QuorumFits) (key == 3) _ _
        (Safely-then (Read (Counted 4)) (Read QuorumFits) (read_idx_array p.keys bs) _
          (read_idx_array-Safely 4 p.keys bs h.0) (λ ((ks, n), bs) fits. Counted-u8 ks n fits))
        (if-Safely (Read QuorumFits) (key == 4) _ _ (number _ (λ (v, bs). h)) (
          if-Safely (Read QuorumFits) (key == 5) _ _
            (lift_then (Read QuorumFits) (Decode.bool bs) _ (λ (v, bs). h))
            (if-Safely (Read QuorumFits) (key == 6) _ _ (number _ (λ (v, bs). h)) (
              if-Safely (Read QuorumFits) (key == 7) _ _ (number _ (λ (v, bs). h))
                (skip_field-Safely QuorumFits p bs h))))))

sequence_field-Safely :
    (key : ℕ) (p : Sequence) (bs : List ℕ) → Safely (Read Any) (sequence_field key p bs)
sequence_field-Safely key p bs =
    let number = λ (c : ℕ) (set : ℕ → Sequence) (other : Parsed (Sequence × List ℕ)).
      number_field Any (key == c) set bs other (λ v. tt) in
    number 2 _ _ (
      number 3 _ _ (
        number 4 _ _ (
          number 5 _ _
            (number 6 _ _ (number 7 _ _ (number 8 _ _ (skip_field-Safely Any p bs tt)))))))

policy_of-Safely : (ptype rem : ℕ) (bs : List ℕ) → Safely (Read PolicyFits) (policy_of ptype rem bs)
unfolding parse_sequence parse_path parse_deadman parse_quorum
policy_of-Safely ptype rem bs =
    if-Safely (Read PolicyFits) (ptype == 0) _ _
      (Safely-then (Read Any) (Read PolicyFits) (fields any_field rem tt bs) _
        (fields-Safely Any any_field (λ key u bs h. skip_field-Safely Any u bs tt) rem tt bs tt)
        (λ (u, bs) h. tt))
      (if-Safely (Read PolicyFits) (ptype == 1) _ _
        (Safely-then (Read Any) (Read PolicyFits) _ _
          (fields-Safely Any sequence_field (λ key p bs h. sequence_field-Safely key p bs) rem _ bs
            tt)
          (λ (p, bs) h. tt))
        (if-Safely (Read PolicyFits) (ptype == 2) _ _
          (Safely-then (Read PathFits) (Read PolicyFits) _ _
            (fields-Safely PathFits path_field path_field-Safely rem no_path bs (refl, omega arith))
            (λ (p, bs) h. h))
          (if-Safely (Read PolicyFits) (ptype == 3) _ _
            (Safely-then (Read Any) (Read PolicyFits) _ _
              (fields-Safely Any deadman_field
                (λ key b bs h.
                  number_field Any (key == 2) _ bs _ (λ v. tt) (skip_field-Safely Any b bs tt))
                rem 0 bs tt)
              (λ (b, bs) h. tt))
            (if-Safely (Read PolicyFits) (ptype == 4) _ _
              (Safely-then (Read QuorumFits) (Read PolicyFits) _ _
                (fields-Safely QuorumFits quorum_field quorum_field-Safely rem no_quorum bs
                  (refl, omega arith))
                (λ (p, bs) h. h))
              tt))))

parse_policy-Safely : (bs : List ℕ) → Safely (Read PolicyFits) (parse_policy bs)
unfolding parse_policy
parse_policy-Safely bs = lift_then (Read PolicyFits) (Decode.map bs) _ (λ (n, bs).
    if-Safely (Read PolicyFits) (n == 0) _ _ tt (
      lift_then (Read PolicyFits) (Decode.uint bs) _ (λ (key, bs).
        if-Safely (Read PolicyFits) (key == 1) _ _
          (lift_then (Read PolicyFits) (Decode.uint bs) _
            (λ (ptype, bs). policy_of-Safely ptype _ bs))
          tt)))

parse_gates-Safely : (bs : List ℕ) → Safely (Read Any) (parse_gates bs)
unfolding parse_gates
parse_gates-Safely bs =
    record_of-Safely Any gates_field
      (λ key g bs h.
        number_field Any (key == 1) _ bs _ (λ v. tt)
          (number_field Any (key == 2) _ bs _ (λ v. tt)
            (number_field Any (key == 3) _ bs _ (λ v. tt) (skip_field-Safely Any g bs tt))))
      no_gates bs tt

pub skip_items-Safely :
    {A : Type 0} (P : A → Type 0) (n : ℕ) (a : A) (bs : List ℕ)
    → P a
    → Safely (Read P) (skip_items n a bs)
unfolding skip_items
skip_items-Safely P zero a bs h = h
skip_items-Safely P (suc n) a bs h =
    lift_then (Read P) (Decode.skip bs) _ (λ bs. skip_items-Safely P n a bs h)

parse_negative-Safely : (bs : List ℕ) → Safely (Read Any) (parse_negative bs)
unfolding parse_negative
parse_negative-Safely bs = lift_then (Read Any) (Decode.array bs) _ (λ (n, bs).
    if-Safely (Read Any) (n == 0) _ _ tt (
      lift_then (Read Any) (Decode.uint bs) _ (λ (kind, bs).
        if-Safely (Read Any) (kind == 0) _ _ (skip_items-Safely Any _ _ bs tt) (
          if-Safely (Read Any) (kind == 1) _ _ (skip_items-Safely Any _ _ bs tt) (
            if-Safely (Read Any) (kind == 2) _ _
              (if-Safely (Read Any) (ltb n 2) _ _ tt (
                lift_then (Read Any) (Decode.uint bs) _
                  (λ (v, bs). skip_items-Safely Any _ _ bs tt)))
              tt)))))

abbrev SlotFieldsFit : SlotFields → Type 0
SlotFieldsFit s = PolicyFits s.slot.policy

slot_field-Safely :
    (key : ℕ) (s : SlotFields) (bs : List ℕ)
    → SlotFieldsFit s
    → Safely (Read SlotFieldsFit) (slot_field key s bs)
slot_field-Safely key s bs h =
    number_field SlotFieldsFit (key == 1) _ bs _ (λ v. h)
      (if-Safely (Read SlotFieldsFit) (key == 2) _ _
        (lift_then (Read SlotFieldsFit) (Decode.uint bs) _ (λ (v, bs).
          Safely-then Any (Read SlotFieldsFit) (action_from v) _ (action_from-Safely v) (λ a t. h)))
        (if-Safely (Read SlotFieldsFit) (key == 3) _ _
          (Safely-then (Read PolicyFits) (Read SlotFieldsFit) (parse_policy bs) _
            (parse_policy-Safely bs) (λ (p, bs) fits. fits))
          (if-Safely (Read SlotFieldsFit) (key == 4) _ _
            (lift_then (Read SlotFieldsFit) (Decode.bool bs) _ (λ (v, bs). h))
            (if-Safely (Read SlotFieldsFit) (key == 5) _ _
              (lift_then (Read SlotFieldsFit) (Decode.bool bs) _ (λ (v, bs). h))
              (if-Safely (Read SlotFieldsFit) (key == 6) _ _
                (Safely-then (Read Any) (Read SlotFieldsFit) (parse_negative bs) _
                  (parse_negative-Safely bs) (λ (v, bs) t. h))
                (if-Safely (Read SlotFieldsFit) (key == 7) _ _
                  (Safely-then (Read Any) (Read SlotFieldsFit) (parse_gates bs) _
                    (parse_gates-Safely bs) (λ (v, bs) t. h))
                  (number_field SlotFieldsFit (key == 8) _ bs _ (λ v. h)
                    (number_field SlotFieldsFit (key == 9) _ bs _ (λ v. h)
                      (number_field SlotFieldsFit (key == 10) _ bs _ (λ v. h)
                        (skip_field-Safely SlotFieldsFit s bs h))))))))))

abbrev pub SlotFits : Slot → Type 0
SlotFits s = PolicyFits s.policy

pub parse_slot-Safely : (bs : List ℕ) → Safely (Read SlotFits) (parse_slot bs)
unfolding parse_slot
parse_slot-Safely bs =
    Safely-then (Read SlotFieldsFit) (Read SlotFits) (record_of slot_field no_slot bs) _
      (record_of-Safely SlotFieldsFit slot_field slot_field-Safely no_slot bs tt)
      (λ (s, bs) h. if-Safely (Read SlotFits) s.have_policy _ _ h tt)

-- ===== src/Config/Policies.antt =====
-- The parsers of slots, policies, gates and penalties (firmware/ephemerkey-config/src/lib.rs).
use ephemerkey.Common.{
  ℕ, zero, suc, ◌-◌, Bool, true, false, none, some, ltb, ◌==◌, if◌then◌else◌, u8, u16, List,
  replicate,
}
use ephemerkey.Cbor.Decode
use ephemerkey.Policy.{
  Gates, Sequence, LegPath, Quorum, Policy, Action, NegativeAction, Slot, max_path_legs, max_quorum,
}
use ephemerkey.Config.{ConfigError, Parsed, good, bad, ◌>>=◌, lift}
use ephemerkey.Config.Fields.{
  uint, bool, skip_field, fields, record_of, read_idx_array, action_from,
}

abbrev pub sequence_field : ℕ → Sequence → List ℕ → Parsed (Sequence × List ℕ)
sequence_field key p bs =
    if key == 2
    then (uint bs >>= λ (v, bs). good (record p { n = u8 v }, bs))
    else if key == 3
    then (uint bs >>= λ (v, bs). good (record p { window_s = u16 v }, bs))
    else if key == 4
    then (uint bs >>= λ (v, bs). good (record p { gap_min_s = u16 v }, bs))
    else if key == 5
    then (uint bs >>= λ (v, bs). good (record p { gap_max_s = u16 v }, bs))
    else if key == 6
    then (uint bs >>= λ (v, bs). good (record p { delay_min_s = u16 v }, bs))
    else if key == 7
    then (uint bs >>= λ (v, bs). good (record p { delay_max_s = u16 v }, bs))
    else if key == 8
    then (uint bs >>= λ (v, bs). good (record p { pace_jitter_s = u16 v }, bs))
    else skip_field p bs

unfoldable pub parse_sequence : ℕ → List ℕ → Parsed (Policy × List ℕ)
parse_sequence rem bs =
    fields sequence_field rem
      (record {
        n = 1;
        window_s = 0;
        gap_min_s = 0;
        gap_max_s = 0;
        delay_min_s = 0;
        delay_max_s = 60;
        pace_jitter_s = 0;
      })
      bs
    >>= λ (p, bs). good (Policy.sequence p, bs)

abbrev pub path_field : ℕ → LegPath → List ℕ → Parsed (LegPath × List ℕ)
path_field key p bs =
    if key == 2
    then (read_idx_array p.leg_keys bs >>= λ ((ks, n), bs).
        good (record p { leg_keys = ks; legs = u8 n }, bs))
    else if key == 3
    then (uint bs >>= λ (v, bs). good (record p { leg_deadline_s = u16 v }, bs))
    else if key == 4
    then (uint bs >>= λ (v, bs). good (record p { delay_max_s = u16 v }, bs))
    else skip_field p bs

abbrev pub no_path : LegPath
no_path = record {
  legs = 0;
  leg_keys = replicate max_path_legs 0;
  leg_deadline_s = 0;
  delay_max_s = 60;
}

unfoldable pub parse_path : ℕ → List ℕ → Parsed (Policy × List ℕ)
parse_path rem bs = fields path_field rem no_path bs >>= λ (p, bs). good (Policy.path p, bs)

abbrev pub deadman_field : ℕ → ℕ → List ℕ → Parsed (ℕ × List ℕ)
deadman_field key beat_s bs =
    if key == 2 then (uint bs >>= λ (v, bs). good (u16 v, bs)) else skip_field beat_s bs

unfoldable pub parse_deadman : ℕ → List ℕ → Parsed (Policy × List ℕ)
parse_deadman rem bs = fields deadman_field rem 0 bs >>= λ (b, bs). good (Policy.dead_man b, bs)

abbrev pub quorum_field : ℕ → Quorum → List ℕ → Parsed (Quorum × List ℕ)
quorum_field key p bs =
    if key == 2
    then (uint bs >>= λ (v, bs). good (record p { m = u8 v }, bs))
    else if key == 3
    then (read_idx_array p.keys bs >>= λ ((ks, n), bs).
        good (record p { keys = ks; n_keys = u8 n }, bs))
    else if key == 4
    then (uint bs >>= λ (v, bs). good (record p { window_s = u16 v }, bs))
    else if key == 5
    then (bool bs >>= λ (v, bs). good (record p { alternating = v }, bs))
    else if key == 6
    then (uint bs >>= λ (v, bs). good (record p { gap_min_s = u16 v }, bs))
    else if key == 7
    then (uint bs >>= λ (v, bs). good (record p { gap_max_s = u16 v }, bs))
    else skip_field p bs

abbrev pub no_quorum : Quorum
no_quorum = record {
  m = 0;
  n_keys = 0;
  keys = replicate max_quorum 0;
  window_s = 0;
  alternating = false;
  gap_min_s = 0;
  gap_max_s = 65535;
}

unfoldable pub parse_quorum : ℕ → List ℕ → Parsed (Policy × List ℕ)
parse_quorum rem bs = fields quorum_field rem no_quorum bs >>= λ (p, bs). good (Policy.quorum p, bs)

-- `0 =>`: whatever fields follow are passed over.
abbrev pub any_field : ℕ → Unit {0} → List ℕ → Parsed (Unit {0} × List ℕ)
any_field key u bs = skip_field u bs

abbrev pub policy_of : ℕ → ℕ → List ℕ → Parsed (Policy × List ℕ)
policy_of ptype rem bs =
    if ptype == 0
    then (fields any_field rem tt bs >>= λ (u, bs). good (Policy.always_valid, bs))
    else if ptype == 1
    then parse_sequence rem bs
    else if ptype == 2
    then parse_path rem bs
    else if ptype == 3
    then parse_deadman rem bs
    else if ptype == 4
    then parse_quorum rem bs
    else bad ConfigError.bad_field

unfoldable pub parse_policy : List ℕ → Parsed (Policy × List ℕ)
parse_policy bs = lift (Decode.map bs) >>= λ (n, bs).
    if n == 0
    then bad ConfigError.bad_field
    else (uint bs >>= λ (key, bs).
        if key == 1
        then (uint bs >>= λ (ptype, bs). policy_of ptype (n - 1) bs)
        else bad ConfigError.bad_field)

abbrev pub gates_field : ℕ → Gates → List ℕ → Parsed (Gates × List ℕ)
gates_field key g bs =
    if key == 1
    then (uint bs >>= λ (v, bs). good (record g { own_fence = some (u8 v) }, bs))
    else if key == 2
    then (uint bs >>= λ (v, bs). good (record g { stillness_s = u16 v }, bs))
    else if key == 3
    then (uint bs >>= λ (v, bs). good (record g { calendar = some (u8 v) }, bs))
    else skip_field g bs

abbrev pub no_gates : Gates
no_gates = record { own_fence = none; stillness_s = 0; calendar = none }

unfoldable pub parse_gates : List ℕ → Parsed (Gates × List ℕ)
parse_gates bs = record_of gates_field no_gates bs

-- `for _ in read..n { d.skip()? }`.
unfoldable pub skip_items : {A : Type 0} → ℕ → A → List ℕ → Parsed (A × List ℕ)
skip_items zero a bs = good (a, bs)
skip_items (suc n) a bs = lift (Decode.skip bs) >>= λ bs. skip_items n a bs

abbrev pub negative_of : ℕ → ℕ → List ℕ → Parsed (NegativeAction × List ℕ)
negative_of kind n bs =
    if kind == 0
    then skip_items (n - 1) NegativeAction.reset bs
    else if kind == 1
    then skip_items (n - 1) NegativeAction.silent bs
    else if kind == 2
    then (if ltb n 2
        then bad ConfigError.bad_field
        else (uint bs >>= λ (v, bs). skip_items (n - 2) (NegativeAction.lockout (u16 v)) bs))
    else bad ConfigError.bad_field

unfoldable pub parse_negative : List ℕ → Parsed (NegativeAction × List ℕ)
parse_negative bs = lift (Decode.array bs) >>= λ (n, bs).
    if n == 0 then bad ConfigError.bad_field else (uint bs >>= λ (kind, bs). negative_of kind n bs)

-- What `parse_slot` has read of a slot, and whether it has read a policy.
pub record SlotFields : Type 0 where
  pub slot : Slot
  pub have_policy : Bool

abbrev pub no_slot : SlotFields
no_slot = record {
  slot = record {
    key = 0;
    policy = Policy.always_valid;
    gates = no_gates;
    action = Action.unlock;
    show_progress = false;
    reset_on_invalid = true;
    negative = NegativeAction.reset;
    veto_delay_s = 0;
    veto_key = none;
    budget = 0;
  };
  have_policy = false;
}

abbrev pub slot_field : ℕ → SlotFields → List ℕ → Parsed (SlotFields × List ℕ)
slot_field key s bs =
    if key == 1
    then (uint bs >>= λ (v, bs). good (record s { slot = record s.slot { key = u8 v } }, bs))
    else if key == 2
    then (uint bs >>= λ (v, bs).
        action_from v >>= λ a. good (record s { slot = record s.slot { action = a } }, bs))
    else if key == 3
    then (parse_policy bs >>= λ (p, bs).
        good (record s { slot = record s.slot { policy = p }; have_policy = true }, bs))
    else if key == 4
    then (bool bs >>= λ (v, bs). good (record s { slot = record s.slot { show_progress = v } }, bs))
    else if key == 5
    then (bool bs >>= λ (v, bs).
        good (record s { slot = record s.slot { reset_on_invalid = v } }, bs))
    else if key == 6
    then (parse_negative bs >>= λ (v, bs).
        good (record s { slot = record s.slot { negative = v } }, bs))
    else if key == 7
    then (parse_gates bs >>= λ (v, bs). good (record s { slot = record s.slot { gates = v } }, bs))
    else if key == 8
    then (uint bs >>= λ (v, bs).
        good (record s { slot = record s.slot { veto_delay_s = u16 v } }, bs))
    else if key == 9
    then (uint bs >>= λ (v, bs).
        good (record s { slot = record s.slot { veto_key = some (u8 v) } }, bs))
    else if key == 10
    then (uint bs >>= λ (v, bs). good (record s { slot = record s.slot { budget = u16 v } }, bs))
    else skip_field s bs

unfoldable pub parse_slot : List ℕ → Parsed (Slot × List ℕ)
parse_slot bs = record_of slot_field no_slot bs >>= λ (s, bs).
    if s.have_policy then good (s.slot, bs) else bad ConfigError.bad_field

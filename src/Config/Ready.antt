-- ===== src/Config/Ready.antt =====
-- A configuration that is accepted, and whose table indices are in range, makes an engine that always
-- returns (firmware/ephemerkey-config/src/lib.rs, firmware/ephemerkey-core/src/engine.rs).
use mathlib.Core.Path.{subst}
use ephemerkey.Common.{
  ℕ, ◌%◌, ◌<◌, ◌≤◌, ◌≡◌, refl, ap, sym, ◌∙◌, Bool, Option, none, some, List, length, arith, All,
  length-take,
}
use ephemerkey.Policy.{Policy, Slot}
use ephemerkey.Receipt.{Receipts, ReceiptMode, new_receipts}
use ephemerkey.Engine.{KeyDef, LockEngine, new}
use ephemerkey.Engine.Frame.{InTable, KeyOk, PolicyOk, ReceiptsOk, Configured}
use ephemerkey.Config.{good, KeyEntry, ConfirmEntry, DeviceModel}
use ephemerkey.Config.Parse.{parse}
use ephemerkey.Config.Build.{def_of, confirm_secret, add_receipts, build_lock}
use ephemerkey.Config.Safely.{Safely}
use ephemerkey.Config.Tables.{PolicyFits}
use ephemerkey.Config.Keys.{EntryFits, secret_buffer_returns}
use ephemerkey.Config.Accepted.{ModelFits, ConfirmedFits, parse-ModelFits}

abbrev pub PolicyIn : Policy → Type 0
PolicyIn Policy.always_valid = Unit {0}
PolicyIn (Policy.sequence p) = Unit {0}
PolicyIn (Policy.path p) = All (λ k. k < 8) p.leg_keys
PolicyIn (Policy.dead_man b) = Unit {0}
PolicyIn (Policy.quorum p) = All (λ k. k < 8) p.keys

abbrev pub SlotIn : Slot → Type 0
SlotIn s = (s.key < 8) × InTable s.veto_key × PolicyIn s.policy

-- Every index of a key that the configuration names is below 8.
pub record IndicesIn (m : DeviceModel) : Type 0 where
  pub decoys_in : (i : ℕ) (k : KeyEntry) → m.keys i ≡ some k → InTable k.def.decoy
  pub slots_in : (i : ℕ) (s : Slot) → m.slots i ≡ some s → SlotIn s

policy_ok : (p : Policy) → PolicyFits p → PolicyIn p → PolicyOk p
policy_ok Policy.always_valid f i = tt
policy_ok (Policy.sequence p) f i = tt
policy_ok (Policy.path p) (full, few) i = (full, few, i)
policy_ok (Policy.dead_man b) f i = tt
policy_ok (Policy.quorum p) f i = i

key_ok :
    (o : Option KeyEntry) (key : KeyDef)
    → def_of o ≡ some key
    → ((k : KeyEntry) → o ≡ some k → EntryFits k × InTable k.def.decoy)
    → KeyOk key
key_ok none key h each = absurd (cc)
key_ok (some k) key h each =
    let (((full, few), (lo, hi)), decoy) = each k refl in
    let q : k.def ≡ key = cc in rw (sym q) (record { fits = few; small = hi; decoy_in = decoy })

new_receipts_returns :
    (s : List ℕ) (digits : ℕ) (mode : ReceiptMode)
    → length s ≤ 32
    → digits ≤ 10
    → (r : Receipts) × (new_receipts s digits mode ≡ some r) × ReceiptsOk (some r)
unfolding new_receipts
new_receipts_returns s digits mode fits small =
    let (b, made) = secret_buffer_returns s fits in
    (
      record {
        secret = b;
        secret_len = length s % 256;
        digits = digits;
        mode = mode;
        next_seq = 0;
      },
      rw made refl,
      (omega arith, small),
    )

receipts_added :
    (lock : LockEngine) (c : Option ConfirmEntry)
    → ConfirmedFits c
    → lock.receipts ≡ none
    → (e : LockEngine) × (add_receipts lock c ≡ some e)
      × (e.keys ≡ lock.keys)
      × (e.slots ≡ lock.slots)
      × ReceiptsOk e.receipts
receipts_added lock none fits h = (lock, refl, refl, refl, rw h tt)
receipts_added lock (some c) ((full, few), (lo, hi)) h =
    let t = length-take c.secret_len c.secret in
    let (r, made, good_one) =
      new_receipts_returns (confirm_secret c) c.digits c.mode (omega (arith, t)) hi in
    (record lock { receipts = some r }, rw made refl, refl, refl, good_one)

built-Configured :
    (m : DeviceModel)
    → ModelFits m
    → IndicesIn m
    → (e : LockEngine) × (build_lock m ≡ some e) × Configured e
unfolding build_lock
built-Configured m (zs, ks, ss, cs, c) ins =
    let (e, made, keys, slots, receipts) =
      receipts_added (record new { keys = λ i. def_of (m.keys i); slots = m.slots }) m.confirm c
        refl in
    (
      e,
      made,
      record {
        keys_ok = λ i key at.
            key_ok (m.keys i) key (sym (ap (λ (f : ℕ → Option KeyDef). f i) keys) ∙ at)
              (λ k here. ((ks i k here).1, ins.decoys_in i k here));
        slots_ok = λ i slot at.
            let here : m.slots i ≡ some slot = sym (ap (λ (f : ℕ → Option Slot). f i) slots) ∙ at in
            let (key, veto, policy) = ins.slots_in i slot here in
            record {
              key_in = key;
              veto_in = veto;
              policy_ok = policy_ok slot.policy (ss i slot here).1 policy;
            };
        receipts_ok = receipts;
      },
    )

-- A configuration that the parser accepts, and in which every key index of a slot, of a veto, of a path,
-- of a quorum and of a decoy is below 8, builds a lock engine that is well configured.
pub parse-Configured :
    (is_utf8 : List ℕ → Bool) (known_features : List (List ℕ)) (cbor : List ℕ) (m : DeviceModel)
    → parse is_utf8 known_features cbor ≡ good m
    → IndicesIn m
    → (e : LockEngine) × (build_lock m ≡ some e) × Configured e
parse-Configured is_utf8 known_features cbor m h ins =
    built-Configured m (subst (Safely ModelFits) h (parse-ModelFits is_utf8 known_features cbor))
      ins

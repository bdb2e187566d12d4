-- ===== src/Config/Fields.antt =====
-- The loops of the field parsers and their leaf helpers (firmware/ephemerkey-config/src/lib.rs).
use ephemerkey.Common.{
  ℕ, zero, suc, ◌+◌, Bool, Option, some, ltb, leb, ◌==◌, ◌&&◌, if◌then◌else◌, u8, u32, List, ◌∷◌,
  ◌++◌, length, take, drop, update,
}
use ephemerkey.Cbor.Decode
use ephemerkey.Policy.{Action}
use ephemerkey.Receipt.{ReceiptMode, max_secret}
use ephemerkey.Config.{ConfigError, Parsed, good, bad, ◌>>=◌, lift, Role}

abbrev pub uint : List ℕ → Parsed (ℕ × List ℕ)
uint bs = lift (Decode.uint bs)

abbrev pub bool : List ℕ → Parsed (Bool × List ℕ)
bool bs = lift (Decode.bool bs)

-- A field of an unknown key is passed over.
abbrev pub skip_field : {A : Type 0} → A → List ℕ → Parsed (A × List ℕ)
skip_field a bs = lift (Decode.skip bs) >>= λ bs. good (a, bs)

-- `for _ in 0..n { match d.uint()? { … } }`: `field` reads the value of a key.
unfoldable pub fields :
    {A : Type 0} → (ℕ → A → List ℕ → Parsed (A × List ℕ)) → ℕ → A → List ℕ → Parsed (A × List ℕ)
fields field zero a bs = good (a, bs)
fields field (suc n) a bs =
    uint bs >>= λ (key, bs). field key a bs >>= λ (a, bs). fields field n a bs

-- A map with a field parser, from a start value.
abbrev pub record_of :
    {A : Type 0} → (ℕ → A → List ℕ → Parsed (A × List ℕ)) → A → List ℕ → Parsed (A × List ℕ)
record_of field start bs = lift (Decode.map bs) >>= λ (n, bs). fields field n start bs

-- The loops of `parse_keys`, `parse_slots` and `parse_calendars`, from the index `i` on.
unfoldable pub entries :
    {A : Type 0}
    → ℕ
    → (List ℕ → Parsed (A × List ℕ))
    → ℕ
    → ℕ
    → (ℕ → Option A)
    → List ℕ
    → Parsed ((ℕ → Option A) × List ℕ)
entries room item zero i table bs = good (table, bs)
entries room item (suc n) i table bs = item bs >>= λ (a, bs).
    if leb room i
    then bad ConfigError.too_long
    else entries room item n (i + 1) (update table i (some a)) bs

abbrev pub table_of :
    {A : Type 0}
    → ℕ
    → (List ℕ → Parsed (A × List ℕ))
    → (ℕ → Option A)
    → List ℕ
    → Parsed ((ℕ → Option A) × List ℕ)
table_of room item table bs =
    lift (Decode.array bs) >>= λ (n, bs). entries room item (u32 n) 0 table bs

-- The secret goes to the front of the buffer.
unfoldable pub read_secret : List ℕ → List ℕ → Parsed ((List ℕ × ℕ) × List ℕ)
read_secret out bs = lift (Decode.bstr bs) >>= λ (b, bs).
    if ltb max_secret (length b)
    then bad ConfigError.too_long
    else good ((b ++ drop (length b) out, u8 (length b)), bs)

-- The loop of `read_idx_array`.
unfoldable pub read_indices : ℕ → ℕ → List ℕ → List ℕ → Parsed ((List ℕ × ℕ) × List ℕ)
read_indices zero count out bs = good ((out, count), bs)
read_indices (suc n) count out bs = uint bs >>= λ (v, bs).
    if leb (length out) count
    then bad ConfigError.too_long
    else read_indices n (count + 1) (take count out ++ u8 v ∷ drop (count + 1) out) bs

abbrev pub read_idx_array : List ℕ → List ℕ → Parsed ((List ℕ × ℕ) × List ℕ)
read_idx_array out bs = lift (Decode.array bs) >>= λ (n, bs). read_indices n 0 out bs

abbrev pub role_from : ℕ → Parsed Role
role_from v =
    if v == 1
    then good Role.generator
    else if v == 2
    then good Role.lock_controller
    else bad ConfigError.bad_field

abbrev pub action_from : ℕ → Parsed Action
action_from v =
    if v == 0
    then good Action.unlock
    else if v == 1
    then good Action.lock
    else if v == 2
    then good Action.duress_unlock
    else bad ConfigError.bad_field

abbrev pub mode_from : ℕ → Parsed ReceiptMode
mode_from v =
    if v == 0
    then good ReceiptMode.sequence
    else if v == 1
    then good ReceiptMode.time
    else if v == 2
    then good ReceiptMode.both
    else bad ConfigError.bad_field

abbrev pub digits_from : ℕ → Parsed ℕ
digits_from v = if leb 4 v && leb v 10 then good (u8 v) else bad ConfigError.bad_field

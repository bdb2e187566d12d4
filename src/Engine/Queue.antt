-- ===== src/Engine/Queue.antt =====
-- The queue of receipts that wait for pickup: `mint_receipt` fills the first empty place of an array,
-- `take_receipt` empties the first full one.
use ephemerkey.Common.{
  suc, ◌≡◌, none, some, Option, List, [], ◌∷◌, ◌++◌, length, take, take-nil, refl, ap,
}
use ephemerkey.Receipt.{Receipt}
use ephemerkey.Engine.{enqueue, dequeue}

-- The receipts of a queue, in the order in which pickups return them.
abbrev pub waiting : List (Option Receipt) → List Receipt
waiting [] = []
waiting (none ∷ q) = waiting q
waiting (some r ∷ q) = r ∷ waiting q

-- No empty place stands before a full one.
abbrev pub Packed : List (Option Receipt) → Type 0
Packed [] = Unit {0}
Packed (none ∷ q) = waiting q ≡ []
Packed (some r ∷ q) = Packed q

abbrev pub first : List Receipt → Option Receipt
first [] = none
first (r ∷ rs) = some r

abbrev pub rest : List Receipt → List Receipt
rest [] = []
rest (r ∷ rs) = rs

-- A pickup returns the first waiting receipt and leaves the others in their order, and an empty
-- queue returns none and stays as it is in what waits; the array keeps its length.
pub dequeue_lem :
    (q : List (Option Receipt))
    → ((dequeue q).1 ≡ first (waiting q))
      × (waiting (dequeue q).0 ≡ rest (waiting q))
      × (length (dequeue q).0 ≡ length q)
unfolding dequeue
dequeue_lem [] = (refl, refl, refl)
dequeue_lem (none ∷ q) = let (a, b, c) = dequeue_lem q in (a, b, ap suc c)
dequeue_lem (some r ∷ q) = (refl, refl, refl)

-- A receipt that is minted while no empty place stands before a full one goes behind all that wait,
-- and is dropped if all places are full; the array stays packed and keeps its length.
pub enqueue_lem :
    (q : List (Option Receipt)) (r : Receipt)
    → Packed q
    → (waiting (enqueue q r) ≡ take (length q) (waiting q ++ (r ∷ [])))
      × Packed (enqueue q r)
      × (length (enqueue q r) ≡ length q)
unfolding enqueue
enqueue_lem [] r p = (refl, tt, refl)
enqueue_lem (none ∷ q) r p = (rw (p, take-nil {A = Receipt} (length q)) refl, nil_Packed q p, refl)
  where
    nil_Packed : (q : List (Option Receipt)) → waiting q ≡ [] → Packed q
    nil_Packed [] h = tt
    nil_Packed (none ∷ q) h = h
    nil_Packed (some x ∷ q) h = absurd (cc)
enqueue_lem (some x ∷ q) r p = let (a, c, d) = enqueue_lem q r p in (ap (λ l. x ∷ l) a, c, ap suc d)

-- After one pickup from a packed queue that holds two receipts or more, the next receipt that is
-- minted overtakes all that wait: the pickup after it returns the new receipt, and not the older one.
pub enqueue_overtakes :
    (x y : Receipt) (q : List (Option Receipt)) (r : Receipt)
    → let left = (dequeue (some x ∷ some y ∷ q)).0 in
      (waiting left ≡ y ∷ waiting q) × ((dequeue (enqueue left r)).1 ≡ some r)
unfolding enqueue dequeue
enqueue_overtakes x y q r = (refl, refl)

-- ===== src/Engine/Slab/Sample.antt =====
-- A slab that keeps what the interface promises: a list of slots, where an order goes into a new slot.
use high_perf_trading.Base.{
  ℕ, zero, suc, true, Option, none, some, List, [], ◌∷◌, ◌++◌, ◌≡◌, refl, ◌==◌, if◌then◌else◌,
  is_some, length, arith,
}
use high_perf_trading.Engine.Slab.{SlabApi, Order}

abbrev pub Slots : Type 0
Slots = List (Option Order)

abbrev slot : Slots → ℕ → Option Order
slot [] k = none
slot (x ∷ xs) zero = x
slot (x ∷ xs) (suc k) = slot xs k

abbrev write : Slots → ℕ → Option Order → Slots
write [] k o = []
write (x ∷ xs) zero o = o ∷ xs
write (x ∷ xs) (suc k) o = x ∷ write xs k o

abbrev filled : Slots → List Order
filled [] = []
filled (none ∷ xs) = filled xs
filled (some o ∷ xs) = o ∷ filled xs

slot-push :
    (xs : Slots) (o : Order) (k : ℕ)
    → slot (xs ++ some o ∷ []) k ≡ (if length xs == k then some o else slot xs k)
slot-push [] o zero = ground arith
slot-push [] o (suc k) = ground arith
slot-push (x ∷ xs) o zero = ground arith
slot-push (x ∷ xs) o (suc k) = ground (arith, slot-push xs o k)

slot_length : (xs : Slots) → slot xs (length xs) ≡ none
slot_length [] = refl
slot_length (x ∷ xs) = slot_length xs

slot-write :
    (xs : Slots) (j k : ℕ) (v : Option Order)
    → is_some (slot xs j) ≡ true
    → slot (write xs j v) k ≡ (if j == k then v else slot xs k)
slot-write [] j k v h = cc
slot-write (x ∷ xs) zero zero v h = ground arith
slot-write (x ∷ xs) zero (suc k) v h = ground arith
slot-write (x ∷ xs) (suc j) zero v h = ground arith
slot-write (x ∷ xs) (suc j) (suc k) v h = ground (arith, slot-write xs j k v h)

instance unfoldable pub sample_slab : SlabApi
unfolding slot_length slot-push slot-write
sample_slab = record {
  Slab = Slots;
  new = [];
  insert = λ s o. (length s, s ++ some o ∷ []);
  get = slot;
  put = λ s k o. write s k (some o);
  remove = λ s k. write s k none;
  values = filled;
  get-new = λ k. refl;
  insert_vacant = λ s o. slot_length s;
  get-insert = slot-push;
  get-put = λ s j o k h. slot-write s j k (some o) h;
  get-remove = λ s j k h. slot-write s j k none h;
}

-- ===== src/Base/TreeMap.antt =====
-- The standard library's `BTreeMap` with `i64` keys, as a list of entries with rising keys.
pub mod Lookup
pub mod Sorted
pub mod Ranked
use high_perf_trading.Base.Tests.{if◌then◌else◌, Bool-cases}
use high_perf_trading.Base.Int.{ℤ, ltb_ℤ, eqb_ℤ, ◌<ℤ◌}
use high_perf_trading.Base.Lists.{All}
use mathlib.Core.Path.{◌≡◌, refl}
use mathlib.Core.Logic.{inl, inr}
use mathlib.Core.Option.{Option, none, some}
use mathlib.Core.List.{List, [], ◌∷◌}
use native.Mathlib.Omega.{arith}

abbrev pub TreeMap {ℓ} : Type ℓ → Type ℓ
TreeMap V = List (ℤ × V)

module _ {ℓ} {V : Type ℓ} where
  unfoldable pub get : ℤ → TreeMap V → Option V
  get k [] = none
  get k ((j, v) ∷ m) = if eqb_ℤ j k then some v else get k m

  unfoldable pub insert : ℤ → V → TreeMap V → TreeMap V
  insert k v [] = (k, v) ∷ []
  insert k v ((j, w) ∷ m) =
      if ltb_ℤ k j
      then (k, v) ∷ (j, w) ∷ m
      else if eqb_ℤ j k
      then (k, v) ∷ m
      else (j, w) ∷ insert k v m

  unfoldable pub remove : ℤ → TreeMap V → TreeMap V
  remove k [] = []
  remove k ((j, w) ∷ m) = if eqb_ℤ j k then m else (j, w) ∷ remove k m

  -- A write through `get_mut`.
  unfoldable pub put : ℤ → V → TreeMap V → TreeMap V
  put k v [] = []
  put k v ((j, w) ∷ m) = if eqb_ℤ j k then (j, v) ∷ m else (j, w) ∷ put k v m

  -- `iter().next()` and `iter().next_back()`.
  unfoldable pub first : TreeMap V → Option (ℤ × V)
  first [] = none
  first (e ∷ m) = some e

  unfoldable pub last : TreeMap V → Option (ℤ × V)
  last [] = none
  last (e ∷ []) = some e
  last (e ∷ d ∷ m) = last (d ∷ m)

  -- The keys rise strictly.
  abbrev pub IsSorted : TreeMap V → Type 0
  IsSorted [] = Unit
  IsSorted (e ∷ m) = All (λ d. e.0 <ℤ d.0) m × IsSorted m

  -- The keys at either end are in the map.
  pub get-first :
      (m : TreeMap V) {px : ℤ} {v : V} → first m ≡ some (px, v) → (w : V) × (get px m ≡ some w)
  unfolding first get
  get-first [] e = cc
  get-first ((j, w) ∷ m) e = (w, ground arith)

  pub get-last :
      (m : TreeMap V) {px : ℤ} {v : V} → last m ≡ some (px, v) → (w : V) × (get px m ≡ some w)
  unfolding last get
  get-last [] e = cc
  get-last ((j, w) ∷ []) e = (w, ground arith)
  get-last ((j, w) ∷ (i, u) ∷ m) {px = px} e = elim (Bool-cases (eqb_ℤ j px)) [
    | inl same ↦ (w, rw same refl)
    | inr other ↦ let (x, h) = get-last ((i, u) ∷ m) e in (x, rw other h)
  ]

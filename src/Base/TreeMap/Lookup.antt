-- ===== src/Base/TreeMap/Lookup.antt =====
-- What is found in a `BTreeMap` after it changes.
use mathlib.Core.Path.{◌≡◌, ◌∙◌, sym, refl, ap, subst}
use mathlib.Core.Logic.{◌≢◌, ◌⊎◌, inl, inr}
use mathlib.Core.Option.{none, some}
use mathlib.Core.List.{[], ◌∷◌}
use mathlib.Core.Bool.{true, false}
use native.Mathlib.Omega.{arith}
use high_perf_trading.Base.Tests.{
  if◌then◌else◌, Bool-cases, is_some, picked, passed, some_injective,
}
use high_perf_trading.Base.Int.{ℤ, eqb_ℤ, eqb_ℤ_iff, ◌<ℤ◌}
use high_perf_trading.Base.Lists.{All}
use high_perf_trading.Base.TreeMap.{
  TreeMap, get, insert, remove, put, first, last, get-last, IsSorted,
}

pub unequal_keys : (k j : ℤ) → j ≢ k → eqb_ℤ k j ≡ false
unequal_keys k j ne = elim (Bool-cases (eqb_ℤ k j)) [
  | inr other ↦ other
  | inl same ↦ absurd (ne (sym ((eqb_ℤ_iff k j).0 same)))
]

module _ {V : Type 0} where
  pub get-insert :
      (k : ℤ) (v : V) (m : TreeMap V) (j : ℤ)
      → IsSorted m
      → get j (insert k v m) ≡ (if eqb_ℤ k j then some v else get j m)
  unfolding get insert
  get-insert k v [] j s = refl
  get-insert k v ((i, w) ∷ m) j s = ground (arith, get-insert k v m j s.1)

  pub get-put :
      (k : ℤ) (v w : V) (m : TreeMap V) (j : ℤ)
      → get k m ≡ some w
      → get j (put k v m) ≡ (if eqb_ℤ k j then some v else get j m)
  unfolding get put
  get-put k v w [] j e = cc
  get-put k v w ((i, u) ∷ m) j e = ground (arith, get-put k v w m j)

  -- No key of a map below its least key.
  absent : (k : ℤ) (m : TreeMap V) → All (λ e. k <ℤ e.0) m → get k m ≡ none
  unfolding get
  absent k [] h = refl
  absent k ((i, w) ∷ m) h = ground (arith, absent k m h.1)

  pub get-remove :
      (k : ℤ) (m : TreeMap V) (j : ℤ)
      → IsSorted m
      → get j (remove k m) ≡ (if eqb_ℤ k j then none else get j m)
  unfolding get remove
  get-remove k [] j s = ground arith
  get-remove k ((i, w) ∷ m) j s = elim (Bool-cases (eqb_ℤ i k)) [
    | inl same ↦ elim (Bool-cases (eqb_ℤ k j)) [
      | inl here ↦
          rw (same, here)
            (subst (λ x. get x m ≡ none) ((eqb_ℤ_iff i j).0 (ground arith)) (absent i m s.0))
      | inr off ↦ rw (same, off) (ground arith)
    ]
    | inr other ↦ ground (arith, get-remove k m j s.1)
  ]

  -- A map with an entry has a first and a last one.
  pub no_first : (m : TreeMap V) (k : ℤ) (v : V) → first m ≡ none → ¬ (get k m ≡ some v)
  unfolding first get
  no_first [] k v e h = cc h
  no_first (d ∷ m) k v e h = cc e

  pub no_last : (m : TreeMap V) (k : ℤ) (v : V) → last m ≡ none → ¬ (get k m ≡ some v)
  unfolding last get
  no_last [] k v e h = cc h
  no_last (d ∷ []) k v e h = cc e
  no_last (d ∷ c ∷ m) k v e h = never d c m e
    where
      never : (d c : ℤ × V) (m : TreeMap V) → ¬ (last (d ∷ c ∷ m) ≡ none)
      never d c [] e = cc e
      never d c (b ∷ m) e = never c b m e

  -- What stands at either end is what is found under its key.
  pub first_found : (m : TreeMap V) (k : ℤ) (v : V) → first m ≡ some (k, v) → get k m ≡ some v
  unfolding first get
  first_found [] k v e = cc e
  first_found ((j, w) ∷ m) k v e =
      let same = some_injective e in
      picked (eqb_ℤ j k) _ _ ((eqb_ℤ_iff j k).1 (ap (λ r. r.0) same)) ∙ ap (λ r. some r.1) same

  last_key : (m : TreeMap V) (k : ℤ) (v : V) → last m ≡ some (k, v) → is_some (get k m) ≡ true
  last_key m k v e = let (w, found) = get-last m e in ap is_some found

  above : (j k : ℤ) (m : TreeMap V) → All (λ e. j <ℤ e.0) m → is_some (get k m) ≡ true → j <ℤ k
  unfolding get
  above j k [] h e = cc e
  above j k ((i, w) ∷ m) h e = elim (Bool-cases (eqb_ℤ i k)) [
    | inl same ↦ subst (λ x. j <ℤ x) ((eqb_ℤ_iff i k).0 same) h.0
    | inr other ↦ above j k m h.1 (sym (ap is_some (passed _ _ _ other)) ∙ e)
  ]

  pub last_found :
      (m : TreeMap V) (k : ℤ) (v : V) → IsSorted m → last m ≡ some (k, v) → get k m ≡ some v
  unfolding last get first
  last_found [] k v s e = cc e
  last_found ((j, w) ∷ []) k v s e = first_found ((j, w) ∷ []) k v e
  last_found ((j, w) ∷ (i, u) ∷ m) k v s e =
      let later = above j k ((i, u) ∷ m) s.0 (last_key ((i, u) ∷ m) k v e) in
      passed (eqb_ℤ j k) _ _ (ground arith) ∙ last_found ((i, u) ∷ m) k v s.1 e

  -- A map that holds no more keys than another.
  abbrev pub Within : TreeMap V → TreeMap V → Type 0
  Within m' m = (k : ℤ) → is_some (get k m') ≡ true → is_some (get k m) ≡ true

  pub remove-Within : (k : ℤ) (m : TreeMap V) → IsSorted m → Within (remove k m) m
  remove-Within k m s j h = elim (Bool-cases (eqb_ℤ k j)) [
    | inl same ↦ cc (sym (ap is_some (get-remove k m j s ∙ picked _ _ _ same)) ∙ h)
    | inr other ↦ sym (ap is_some (get-remove k m j s ∙ passed _ _ _ other)) ∙ h
  ]

  pub put-Within : (k : ℤ) (v w : V) (m : TreeMap V) → get k m ≡ some w → Within (put k v m) m
  put-Within k v w m e j h = elim (Bool-cases (eqb_ℤ k j)) [
    | inl same ↦ subst (λ i. is_some (get i m) ≡ true) ((eqb_ℤ_iff k j).0 same) (ap is_some e)
    | inr other ↦ sym (ap is_some (get-put k v w m j e ∙ passed _ _ _ other)) ∙ h
  ]

  pub insert-Within :
      (k : ℤ) (v : V) (m : TreeMap V) (j : ℤ)
      → IsSorted m
      → is_some (get j (insert k v m)) ≡ true
      → (is_some (get j m) ≡ true) ⊎ (j ≡ k)
  insert-Within k v m j s h = elim (Bool-cases (eqb_ℤ k j)) [
    | inl same ↦ inr (sym ((eqb_ℤ_iff k j).0 same))
    | inr other ↦ inl (sym (ap is_some (get-insert k v m j s ∙ passed _ _ _ other)) ∙ h)
  ]

-- ===== src/Base/TreeMap/Sorted.antt =====
-- A `BTreeMap` keeps its keys in order, and no operation but an insertion brings in a key.
use mathlib.Core.Path.{◌≡◌, subst}
use mathlib.Core.Logic.{inl, inr}
use mathlib.Core.Option.{some}
use mathlib.Core.List.{[], ◌∷◌}
use native.Mathlib.Omega.{arith}
use high_perf_trading.Base.Tests.{Bool-cases, if_cases}
use high_perf_trading.Base.Int.{ℤ, ltb_ℤ, eqb_ℤ, eqb_ℤ_iff, ◌<ℤ◌, ◌≤ℤ◌}
use high_perf_trading.Base.Lists.{All}
use high_perf_trading.Base.TreeMap.{TreeMap, get, insert, remove, put, first, last, IsSorted}

module _ {V : Type 0} where
  -- A fact about the keys of a map.
  abbrev pub Keys : (ℤ → Type 0) → TreeMap V → Type 0
  Keys P m = All (λ e. P e.0) m

  pub get-Keys :
      (P : ℤ → Type 0) (k : ℤ) (m : TreeMap V) (v : V) → get k m ≡ some v → Keys P m → P k
  unfolding get
  get-Keys P k [] v e h = cc
  get-Keys P k ((j, w) ∷ m) v e h = elim (Bool-cases (eqb_ℤ j k)) [
    | inl same ↦ subst P ((eqb_ℤ_iff j k).0 same) h.0
    | inr other ↦ get-Keys P k m v (rw other at e) h.1
  ]

  pub remove-Keys : (P : ℤ → Type 0) (k : ℤ) (m : TreeMap V) → Keys P m → Keys P (remove k m)
  unfolding remove
  remove-Keys P k [] h = tt
  remove-Keys P k ((j, w) ∷ m) h = elim (Bool-cases (eqb_ℤ j k)) [
    | inl same ↦ rw same h.1
    | inr other ↦ rw other (h.0, remove-Keys P k m h.1)
  ]

  pub put-Keys : (P : ℤ → Type 0) (k : ℤ) (v : V) (m : TreeMap V) → Keys P m → Keys P (put k v m)
  unfolding put
  put-Keys P k v [] h = tt
  put-Keys P k v ((j, w) ∷ m) h = elim (Bool-cases (eqb_ℤ j k)) [
    | inl same ↦ rw same h
    | inr other ↦ rw other (h.0, put-Keys P k v m h.1)
  ]

  pub remove-IsSorted : (k : ℤ) (m : TreeMap V) → IsSorted m → IsSorted (remove k m)
  unfolding remove
  remove-IsSorted k [] h = tt
  remove-IsSorted k ((j, w) ∷ m) h = elim (Bool-cases (eqb_ℤ j k)) [
    | inl same ↦ rw same h.1
    | inr other ↦ rw other (remove-Keys (λ i. j <ℤ i) k m h.0, remove-IsSorted k m h.1)
  ]

  pub put-IsSorted : (k : ℤ) (v : V) (m : TreeMap V) → IsSorted m → IsSorted (put k v m)
  unfolding put
  put-IsSorted k v [] h = tt
  put-IsSorted k v ((j, w) ∷ m) h = elim (Bool-cases (eqb_ℤ j k)) [
    | inl same ↦ rw same h
    | inr other ↦ rw other (put-Keys (λ i. j <ℤ i) k v m h.0, put-IsSorted k v m h.1)
  ]

  insert-Keys :
      (P : ℤ → Type 0) (k : ℤ) (v : V) (m : TreeMap V) → P k → Keys P m → Keys P (insert k v m)
  unfolding insert
  insert-Keys P k v [] p h = (p, tt)
  insert-Keys P k v ((j, w) ∷ m) p h =
      let rest = insert-Keys P k v m p h.1 in
      if_cases (Keys P) (ltb_ℤ k j) (λ _. (p, h))
        (λ _. if_cases (Keys P) (eqb_ℤ j k) (λ _. (p, h.1)) (λ _. (h.0, rest)))

  below : (k j : ℤ) (m : TreeMap V) → k <ℤ j → Keys (λ i. j <ℤ i) m → Keys (λ i. k <ℤ i) m
  below k j [] h t = tt
  below k j (e ∷ m) h t = (omega (arith, t.0), below k j m h t.1)

  pub insert-IsSorted : (k : ℤ) (v : V) (m : TreeMap V) → IsSorted m → IsSorted (insert k v m)
  unfolding insert
  insert-IsSorted k v [] h = (tt, tt)
  insert-IsSorted k v ((j, w) ∷ m) h =
      if_cases IsSorted (ltb_ℤ k j) (λ less. ((ground arith, below k j m (ground arith) h.0), h))
        (λ more.
          if_cases IsSorted (eqb_ℤ j k)
            (λ same. (subst (λ i. Keys (λ x. i <ℤ x) m) ((eqb_ℤ_iff j k).0 same) h.0, h.1))
            (λ other.
              (insert-Keys (λ i. j <ℤ i) k v m (ground arith) h.0, insert-IsSorted k v m h.1)))

  All-le : (j : ℤ) (m : TreeMap V) → Keys (λ i. j <ℤ i) m → Keys (λ i. j ≤ℤ i) m
  All-le j [] h = tt
  All-le j (e ∷ m) h = (omega arith, All-le j m h.1)

  pub first-Keys :
      (m : TreeMap V) {k : ℤ} {v : V} → IsSorted m → first m ≡ some (k, v) → Keys (λ i. k ≤ℤ i) m
  unfolding first
  first-Keys [] s e = tt
  first-Keys ((j, w) ∷ m) {k = k} s e =
      subst (λ k. Keys (λ i. k ≤ℤ i) ((j, w) ∷ m)) same (omega arith, All-le j m s.0)
    where
      same : j ≡ k
      same = ground arith

  pub last-Keys :
      (m : TreeMap V) {k : ℤ} {v : V} → IsSorted m → last m ≡ some (k, v) → Keys (λ i. i ≤ℤ k) m
  unfolding last
  last-Keys [] s e = tt
  last-Keys ((j, w) ∷ []) s e = (ground arith, tt)
  last-Keys ((j, w) ∷ (i, u) ∷ m) s e =
      let rest = last-Keys ((i, u) ∷ m) s.1 e in (omega (arith, s.0.0, rest.0), rest)

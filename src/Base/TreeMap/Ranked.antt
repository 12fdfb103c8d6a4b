-- ===== src/Base/TreeMap/Ranked.antt =====
-- The entries of a `BTreeMap` from its least key, or from its greatest.
use mathlib.Core.Path.{◌≡◌, ◌∙◌, sym, refl, ap, subst}
use mathlib.Core.Logic.{◌≢◌}
use mathlib.Core.Bool.{true, false}
use mathlib.Core.Option.{some}
use mathlib.Core.List.{[], ◌∷◌, ◌++◌}
use native.Mathlib.Omega.{arith}
use high_perf_trading.Base.Tests.{some_injective, picked, passed}
use high_perf_trading.Base.Int.{ℤ, eqb_ℤ, eqb_ℤ_iff, ◌<ℤ◌}
use high_perf_trading.Base.Lists.{All}
use high_perf_trading.Base.TreeMap.{TreeMap, get, put, remove, first, last, IsSorted}

same_key : (k : ℤ) → eqb_ℤ k k ≡ true
same_key k = (eqb_ℤ_iff k k).1 refl

less_other : (j k : ℤ) → j <ℤ k → eqb_ℤ j k ≡ false
less_other j k h = ground arith

module _ {V : Type 0} where
  abbrev pub backwards : TreeMap V → TreeMap V
  backwards [] = []
  backwards (e ∷ m) = backwards m ++ e ∷ []

  -- What writes and removals at the key in front do to the entries, and the entries behind it.
  pub record Fronted (m : TreeMap V) (rank : TreeMap V → TreeMap V) (k : ℤ) (v : V) : Type 0 where
    pub behind : TreeMap V
    pub whole : rank m ≡ (k, v) ∷ behind
    pub put_front : (w : V) → rank (put k w m) ≡ (k, w) ∷ behind
    pub remove_front : rank (remove k m) ≡ behind
    pub others : All (λ e. (e.0 ≢ k) × (get e.0 m ≡ some e.1)) behind

  -- Every entry of a map in order is found under its key.
  All-found :
      (j : ℤ) (w : V) (m n : TreeMap V)
      → All (λ e. j <ℤ e.0) n
      → All (λ e. get e.0 m ≡ some e.1) n
      → All (λ e. (e.0 ≢ j) × (get e.0 ((j, w) ∷ m) ≡ some e.1)) n
  unfolding get
  All-found j w m [] h g = tt
  All-found j w m ((i, u) ∷ n) (less, h) (found, g) = (
    (
      λ e. cc (sym (less_other j i less) ∙ (eqb_ℤ_iff j i).1 (sym e)),
      passed _ _ _ (less_other j i less) ∙ found,
    ),
    All-found j w m n h g,
  )

  All-weaken :
      (j : ℤ) (m n : TreeMap V)
      → All (λ e. (e.0 ≢ j) × (get e.0 m ≡ some e.1)) n
      → All (λ e. get e.0 m ≡ some e.1) n
  All-weaken j m [] h = tt
  All-weaken j m (e ∷ n) ((_, found), h) = (found, All-weaken j m n h)

  entries-found : (m : TreeMap V) → IsSorted m → All (λ e. get e.0 m ≡ some e.1) m
  unfolding get
  entries-found [] s = tt
  entries-found ((j, w) ∷ m) (less, s) = (
    picked _ _ _ (same_key j),
    All-weaken j ((j, w) ∷ m) m (All-found j w m m less (entries-found m s)),
  )

  pub first-Fronted :
      (m : TreeMap V) (k : ℤ) (v : V) → IsSorted m → first m ≡ some (k, v) → Fronted m (λ n. n) k v
  unfolding first get put remove
  first-Fronted [] k v s e = cc e
  first-Fronted ((j, w) ∷ m) k v (less, s) e =
      subst (λ r. Fronted ((j, w) ∷ m) (λ n. n) r.0 r.1) (some_injective e)
        (record {
          behind = m;
          whole = refl;
          put_front = λ w. picked _ _ _ (same_key j);
          remove_front = picked _ _ _ (same_key j);
          others = All-found j w m m less (entries-found m s);
        })

  last_above :
      (j : ℤ) (m : TreeMap V) (k : ℤ) (v : V)
      → All (λ e. j <ℤ e.0) m
      → last m ≡ some (k, v)
      → j <ℤ k
  unfolding last
  last_above j [] k v h e = cc e
  last_above j (d ∷ []) k v h e = subst (λ r. j <ℤ r.0) (some_injective e) h.0
  last_above j (d ∷ c ∷ m) k v h e = last_above j (c ∷ m) k v h.1 e

  All-snoc :
      (k j : ℤ) (w : V) (m n : TreeMap V)
      → j <ℤ k
      → All (λ e. j <ℤ e.0) n
      → All (λ e. (e.0 ≢ k) × (get e.0 m ≡ some e.1)) n
      → All (λ e. (e.0 ≢ k) × (get e.0 ((j, w) ∷ m) ≡ some e.1)) (n ++ (j, w) ∷ [])
  unfolding get
  All-snoc k j w m [] less h g =
      ((λ e. cc (sym (less_other j k less) ∙ (eqb_ℤ_iff j k).1 e), picked _ _ _ (same_key j)), tt)
  All-snoc k j w m ((i, u) ∷ n) less (below, h) ((other, found), g) =
      ((other, passed _ _ _ (less_other j i below) ∙ found), All-snoc k j w m n less h g)

  All-push : (P : ℤ × V → Type 0) (n : TreeMap V) (e : ℤ × V) → All P n → P e → All P (n ++ e ∷ [])
  All-push P [] e h p = (p, tt)
  All-push P (d ∷ n) e h p = (h.0, All-push P n e h.1 p)

  All-backwards : (P : ℤ × V → Type 0) (m : TreeMap V) → All P m → All P (backwards m)
  All-backwards P [] h = tt
  All-backwards P (e ∷ m) h = All-push P (backwards m) e (All-backwards P m h.1) h.0

  -- The entries from the greatest key, with one more below them all.
  below_all :
      (j : ℤ) (w : V) (m : TreeMap V) (k : ℤ) (v : V)
      → All (λ e. j <ℤ e.0) m
      → j <ℤ k
      → Fronted m backwards k v
      → Fronted ((j, w) ∷ m) backwards k v
  unfolding put remove
  below_all j w m k v h less f = record {
    behind = f.behind ++ (j, w) ∷ [];
    whole = ap (λ n. n ++ (j, w) ∷ []) f.whole;
    put_front = λ x.
        ap backwards (passed _ _ _ (less_other j k less))
        ∙ ap (λ n. n ++ (j, w) ∷ []) (f.put_front x);
    remove_front =
        ap backwards (passed _ _ _ (less_other j k less))
        ∙ ap (λ n. n ++ (j, w) ∷ []) f.remove_front;
    others =
        All-snoc k j w m f.behind less
          (subst (All (λ e. j <ℤ e.0)) f.whole (All-backwards (λ e. j <ℤ e.0) m h)).1 f.others;
  }

  pub last-Fronted :
      (m : TreeMap V) (k : ℤ) (v : V) → IsSorted m → last m ≡ some (k, v) → Fronted m backwards k v
  unfolding last get put remove
  last-Fronted [] k v s e = cc e
  last-Fronted ((j, w) ∷ []) k v s e =
      subst (λ r. Fronted ((j, w) ∷ []) backwards r.0 r.1) (some_injective e)
        (record {
          behind = [];
          whole = refl;
          put_front = λ x. ap backwards (picked _ _ _ (same_key j));
          remove_front = ap backwards (picked _ _ _ (same_key j));
          others = tt;
        })
  last-Fronted ((j, w) ∷ d ∷ m) k v s e =
      below_all j w (d ∷ m) k v s.0 (last_above j (d ∷ m) k v s.0 e)
        (last-Fronted (d ∷ m) k v s.1 e)

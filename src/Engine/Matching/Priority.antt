-- ===== src/Engine/Matching/Priority.antt =====
-- Price priority: the fills of a match come at prices that never improve for the taker.
use high_perf_trading.Base.{
  ℕ, ℤ, pos, some, List, [], ◌∷◌, leb_ℤ, ◌≡◌, subst, inl, inr, Bool-cases, All, ◌≤ℤ◌,
}
use high_perf_trading.Base.TreeMap.{TreeMap, IsSorted}
use high_perf_trading.Base.TreeMap
use high_perf_trading.Base.TreeMap.Sorted.{
  Keys, get-Keys, remove-Keys, put-Keys, remove-IsSorted, put-IsSorted, first-Keys, last-Keys,
}
use high_perf_trading.Types.{OrderId, Side, buy, sell, Price, Qty, opposite}
use high_perf_trading.Engine.Slab.{SlabApi}
use high_perf_trading.Engine.Book.{OrderBook, Level, levels}
use high_perf_trading.Engine.Matching.{MatchFill, match_taker, best_px, settle_level}
use high_perf_trading.Engine.Matching.Run.{key_of-eq_some, Dropped, Traded, Run, stop, skip, hit}
use high_perf_trading.Engine.Matching.Termination.{match_taker-Run, trade-levels}
use high_perf_trading.Engine.Book.Levels.{levels-set_levels}
use high_perf_trading.Engine.Matching.Fills.{Traded-fields}

-- The second price is no better for the taker than the first.
abbrev pub NoBetter : Side → Price → Price → Type 0
NoBetter buy p q = p ≤ℤ q
NoBetter sell p q = q ≤ℤ p

-- Each fill comes before none at a better price.
abbrev pub Ordered : Side → List MatchFill → Type 0
Ordered side [] = Unit
Ordered side (f ∷ fills) = All (λ g. NoBetter side f.price g.price) fills × Ordered side fills

module _ ⦃slab : SlabApi⦄ where
  best_px-Keys :
      (b : OrderBook) (side : Side) (px : Price)
      → IsSorted (levels (opposite side) b)
      → best_px side b ≡ some px
      → Keys (NoBetter side px) (levels (opposite side) b)
  unfolding best_px
  best_px-Keys b buy px s e = first-Keys b.asks s (key_of-eq_some _ e).1
  best_px-Keys b sell px s e = last-Keys b.bids s (key_of-eq_some _ e).1

  settle_level-Keys :
      (P : ℤ → Type 0) (px total : ℤ) (queue : List ℕ) (m : TreeMap Level)
      → Keys P m
      → Keys P (settle_level px total queue m)
  unfolding settle_level
  settle_level-Keys P px total queue m h = elim (Bool-cases (leb_ℤ total (pos 0))) [
    | inl e ↦ rw e (remove-Keys P px m h)
    | inr e ↦ rw e (put-Keys P px _ m h)
  ]

  pub settle_level-IsSorted :
      (px total : ℤ) (queue : List ℕ) (m : TreeMap Level)
      → IsSorted m
      → IsSorted (settle_level px total queue m)
  unfolding settle_level
  settle_level-IsSorted px total queue m h = elim (Bool-cases (leb_ℤ total (pos 0))) [
    | inl e ↦ rw e (remove-IsSorted px m h)
    | inr e ↦ rw e (put-IsSorted px _ m h)
  ]

  -- What holds of the levels after they are dropped, removed or written holds after a round.
  Dropped-levels :
      (P : TreeMap Level → Type 0) {b : OrderBook} {side : Side} {limit : Price} {qty : Qty}
      {b' : OrderBook} (d : Dropped b side limit qty b')
      → P (TreeMap.remove d.px (levels (opposite side) b))
      → P (levels (opposite side) b')
  Dropped-levels P {side = side} d h = rw (d.after, levels-set_levels (opposite side)) h

  Traded-levels :
      (P : TreeMap Level → Type 0) {b : OrderBook} {taker : OrderId} {side : Side} {limit : Price}
      {qty : Qty} {f : MatchFill} {b' : OrderBook} (t : Traded b taker side limit qty f b')
      → ((total : ℤ) (queue : List ℕ)
          → P (settle_level t.px total queue (levels (opposite side) b)))
      → P (levels (opposite side) b')
  Traded-levels P {b} {taker} {side} {qty = qty} t h =
      subst (λ r. P (levels (opposite side) r.1)) t.after
        (rw (trade-levels b taker side t.px qty t.lvl t.queue t.key t.maker) (h _ _))

  Run-Keys :
      (P : ℤ → Type 0) {taker : OrderId} {side : Side} {limit : Price} {end : OrderBook}
      {left : Qty} {b : OrderBook} {qty : Qty} {fills : List MatchFill}
      → Run taker side limit end left b qty fills
      → Keys P (levels (opposite side) b)
      → All (λ f. P f.price) fills
  Run-Keys P (stop _ _ e _) h = rw e tt
  Run-Keys P (skip d r) h = Run-Keys P r (Dropped-levels (Keys P) d (remove-Keys P d.px _ h))
  Run-Keys P (hit t e r) h = rw e (
    rw (Traded-fields t).1 (get-Keys P t.px _ t.lvl t.at_best.found h),
    Run-Keys P r
        (Traded-levels (Keys P) t (λ total queue. settle_level-Keys P t.px total queue _ h)),
  )

  Run-Ordered :
      {taker : OrderId} {side : Side} {limit : Price} {end : OrderBook} {left : Qty} {b : OrderBook}
      {qty : Qty} {fills : List MatchFill}
      → Run taker side limit end left b qty fills
      → IsSorted (levels (opposite side) b)
      → Ordered side fills × IsSorted (levels (opposite side) end)
  Run-Ordered {side = side} (stop eb _ e _) s =
      (rw e tt, subst (λ b. IsSorted (levels (opposite side) b)) eb s)
  Run-Ordered (skip d r) s = Run-Ordered r (Dropped-levels IsSorted d (remove-IsSorted d.px _ s))
  Run-Ordered {side = side} {b = b} (hit t e r) s =
      let sorted =
        Traded-levels IsSorted t (λ total queue. settle_level-IsSorted t.px total queue _ s) in
      let (later, end_sorted) = Run-Ordered r sorted in
      let bound = best_px-Keys b side t.px s t.at_best.best in
      let after =
        Traded-levels (Keys (NoBetter side t.px)) t
          (λ total queue. settle_level-Keys (NoBetter side t.px) t.px total queue _ bound) in
      (rw e (rw (Traded-fields t).1 (Run-Keys (NoBetter side t.px) r after), later), end_sorted)

  -- Where the levels on the other side are in the order of a `BTreeMap`, `match_taker` returns fills at
  -- prices that never improve for the taker from one to a later one, and leaves those levels in order.
  pub match_taker-Ordered :
      (b : OrderBook) (taker : OrderId) (side : Side) (limit : Price) (qty : Qty)
      → IsSorted (levels (opposite side) b)
      → (end : OrderBook) × (fills : List MatchFill) × (match_taker b taker side limit qty
          ≡ some (end, fills))
        × Ordered side fills
        × IsSorted (levels (opposite side) end)
  match_taker-Ordered b taker side limit qty s =
      let (end, left, fills, e, r) = match_taker-Run b taker side limit qty in
      (end, fills, e, (Run-Ordered r s).0, (Run-Ordered r s).1)

-- ===== src/Engine/Matching/Termination.antt =====
-- The loop of `match_taker` ends within the fuel that the model gives it.
use high_perf_trading.Base.{
  ℕ, zero, suc, ◌+◌, ◌≤◌, ◌<◌, ℤ, pos, true, Option, none, some, List, [], ◌∷◌, length, ltb_ℤ,
  leb_ℤ, min_ℤ, ◌>>=◌, ◌≡◌, refl, ap, subst, ◌⊎◌, inl, inr, arith, Bool-cases,
}
use high_perf_trading.Base.Word.{sub_i64, sub_i64_self}
use high_perf_trading.Base.TreeMap.{TreeMap}
use high_perf_trading.Base.TreeMap
use high_perf_trading.Types.{OrderId, Side, Price, Qty, opposite}
use high_perf_trading.Engine.Slab.{SlabApi, Order}
use high_perf_trading.Engine.Book.{OrderBook, Level, levels}
use high_perf_trading.Engine.Book.Levels.{levels-set_levels}
use high_perf_trading.Engine.Matching.{
  MatchFill, settle_level, settle_queue, trade, Round, finished, dropped, traded, match_round,
  match_loop, match_taker, work,
}
use high_perf_trading.Engine.Matching.Run.{
  Dropped, Traded, Run, stop, skip, hit, Follows, match_round-Follows,
}

module _ ⦃slab : SlabApi⦄ where
  work-remove :
      (px : ℤ) (m : TreeMap Level) (lvl : Level)
      → TreeMap.get px m ≡ some lvl
      → work (TreeMap.remove px m) < work m
  unfolding TreeMap.get TreeMap.remove
  work-remove px [] lvl e = cc
  work-remove px ((j, l) ∷ m) lvl e = ground (arith, work-remove px m lvl)

  work-put :
      (px : ℤ) (m : TreeMap Level) (lvl v : Level)
      → TreeMap.get px m ≡ some lvl
      → work (TreeMap.put px v m) + length lvl.queue ≡ work m + length v.queue
  unfolding TreeMap.get TreeMap.put
  work-put px [] lvl v e = cc
  work-put px ((j, l) ∷ m) lvl v e = ground (arith, work-put px m lvl v)

  pub trade-qty :
      (b : OrderBook) (taker : OrderId) (side : Side) (px : Price) (qty : Qty) (lvl : Level)
      (queue : List ℕ) (key : ℕ) (maker : Order)
      → (trade b taker side px qty lvl queue key maker).0.qty ≡ min_ℤ qty maker.qty_rem
  unfolding trade
  trade-qty b taker side px qty lvl queue key maker = refl

  pub trade-levels :
      (b : OrderBook) (taker : OrderId) (side : Side) (px : Price) (qty : Qty) (lvl : Level)
      (queue : List ℕ) (key : ℕ) (maker : Order)
      → let traded_qty = min_ℤ qty maker.qty_rem in
        levels (opposite side) (trade b taker side px qty lvl queue key maker).1
        ≡ settle_level px
            (sub_i64 lvl.total_qty traded_qty)
            (settle_queue (sub_i64 maker.qty_rem traded_qty) key queue)
            (levels (opposite side) b)
  unfolding trade
  trade-levels b taker side px qty lvl queue key maker = levels-set_levels (opposite side) _ _

  -- The level loses its front entry, or keeps it at most.
  work-settle_level :
      (px total : ℤ) (m : TreeMap Level) (lvl : Level) (queue : List ℕ)
      → TreeMap.get px m ≡ some lvl
      → (length queue < length lvl.queue → work (settle_level px total queue m) < work m)
        × (length queue ≤ length lvl.queue → work (settle_level px total queue m) ≤ work m)
  unfolding settle_level
  work-settle_level px total m lvl queue e =
      let removed = work-remove px m lvl e in
      let put = work-put px m lvl (record { queue = queue; total_qty = total }) e in
      (λ h. ground arith, λ h. ground arith)

  abbrev Decides : OrderBook → OrderBook → Side → Qty → Type 0
  Decides b b' side qty =
      (work (levels (opposite side) b') < work (levels (opposite side) b))
      ⊎ ((work (levels (opposite side) b') ≤ work (levels (opposite side) b)) × (qty ≡ pos 0))

  settle_queue-length :
      (left : Qty) (key : ℕ) (queue : List ℕ)
      → length (settle_queue left key queue) ≤ suc (length queue)
  settle_queue-length left key queue = ground arith

  -- The maker is used up, or the taker is.
  trade-Decides :
      (b : OrderBook) (taker : OrderId) (side : Side) (px : Price) (qty : Qty) (lvl : Level)
      (queue : List ℕ) (key : ℕ) (maker : Order)
      → TreeMap.get px (levels (opposite side) b) ≡ some lvl
      → length queue < length lvl.queue
      → let r = trade b taker side px qty lvl queue key maker in
        Decides b r.1 side (sub_i64 qty r.0.qty)
  trade-Decides b taker side px qty lvl queue key maker e h =
      rw
        (
          trade-levels b taker side px qty lvl queue key maker,
          trade-qty b taker side px qty lvl queue key maker,
        )
        (elim (Bool-cases (leb_ℤ qty maker.qty_rem)) [
          | inl small ↦ inr (
            (work-settle_level px _ _ lvl _ e).1 (
                omega (
                  arith,
                  settle_queue-length (sub_i64 maker.qty_rem (min_ℤ qty maker.qty_rem)) key queue,
                )),
            rw small (sub_i64_self qty),
          )
          | inr big ↦ inl (
              rw big (rw (sub_i64_self maker.qty_rem) ((work-settle_level px _ _ lvl queue e).0 h)))
        ])

  Dropped-Decides :
      {b : OrderBook} {side : Side} {limit : Price} {qty : Qty} {b' : OrderBook}
      → Dropped b side limit qty b'
      → work (levels (opposite side) b') < work (levels (opposite side) b)
  Dropped-Decides {b} {side = side} d =
      rw (d.after, levels-set_levels (opposite side)) (work-remove d.px _ d.lvl d.at_best.found)

  Traded-Decides :
      {b : OrderBook} {taker : OrderId} {side : Side} {limit : Price} {qty : Qty} {f : MatchFill}
      {b' : OrderBook}
      → Traded b taker side limit qty f b'
      → Decides b b' side (sub_i64 qty f.qty)
  Traded-Decides {b} {taker} {side} {qty = qty} t =
      subst (λ r. Decides b r.1 side (sub_i64 qty r.0.qty)) t.after
        (trade-Decides b taker side t.px qty t.lvl t.queue t.key t.maker t.at_best.found t.shorter)

  -- The fuel is enough where it exceeds the work, or where the taker wants nothing more.
  abbrev Enough : ℕ → OrderBook → Side → Qty → Type 0
  Enough fuel b side qty = (work (levels (opposite side) b) < fuel) ⊎ ((0 < fuel) × (qty ≡ pos 0))

  work_pos : (px : ℤ) (m : TreeMap Level) (lvl : Level) → TreeMap.get px m ≡ some lvl → 0 < work m
  unfolding TreeMap.get
  work_pos px [] lvl e = cc
  work_pos px ((j, l) ∷ m) lvl e = omega arith

  -- A taker that wants more has fuel for every entry.
  fuel_of :
      (fuel : ℕ) (b : OrderBook) (side : Side) (qty : Qty)
      → Enough fuel b side qty
      → ltb_ℤ (pos 0) qty ≡ true
      → work (levels (opposite side) b) < fuel
  fuel_of fuel b side qty (inl h) w = h
  fuel_of fuel b side qty (inr (h, e)) w = cc (subst (λ q. ltb_ℤ (pos 0) q ≡ true) e w)

  Enough-traded :
      (fuel : ℕ) (b b' : OrderBook) (side : Side) (qty : Qty)
      → Decides b b' side qty
      → 0 < work (levels (opposite side) b)
      → work (levels (opposite side) b) < suc fuel
      → Enough fuel b' side qty
  Enough-traded fuel b b' side qty (inl d) p h = inl (omega arith)
  Enough-traded fuel b b' side qty (inr (d, e)) p h = inr (omega arith, e)

  abbrev pub Runs :
      OrderId → Side → Price → OrderBook → Qty → Option (OrderBook × Qty × List MatchFill) → Type 0
  Runs taker side limit b qty r =
      (end : OrderBook) × (left : Qty) × (fills : List MatchFill) × (r ≡ some (end, left, fills))
      × Run taker side limit end left b qty fills

  match_loop-Runs :
      (fuel : ℕ) (b : OrderBook) (taker : OrderId) (side : Side) (limit : Price) (qty : Qty)
      → Enough fuel b side qty
      → Runs taker side limit b qty (match_loop fuel b taker side limit qty)
  unfolding match_loop
  match_loop-Runs zero b taker side limit qty h = absurd (omega arith)
  match_loop-Runs (suc fuel) b taker side limit qty h =
      go (match_round b taker side limit qty) (match_round-Follows b taker side limit qty)
        (λ b'. match_loop-Runs fuel b' taker side limit)
    where
      go :
          (r : Option Round)
          → Follows b taker side limit qty r
          → ((b' : OrderBook) (q : Qty)
              → Enough fuel b' side q
              → Runs taker side limit b' q (match_loop fuel b' taker side limit q))
          → Runs taker side limit b qty (
              r >>= elim [
                | finished ↦ some (b, qty, [])
                | dropped b' ↦ match_loop fuel b' taker side limit qty
                | traded fill b' ↦
                    match_loop fuel b' taker side limit (sub_i64 qty fill.qty)
                    >>= λ (b'', left, fills). some (b'', left, fill ∷ fills)
              ])
      go none f ih = absurd f
      go (some finished) f ih = (b, qty, [], refl, stop refl refl refl f)
      go (some (dropped b')) f ih =
          let spare = fuel_of (suc fuel) b side qty h f.at_best.wants in
          let (end, left, fills, e, r) = ih b' qty (inl (omega (arith, Dropped-Decides f))) in
          (end, left, fills, e, skip f r)
      go (some (traded fill b')) f ih =
          let spare = fuel_of (suc fuel) b side qty h f.at_best.wants in
          let some_work = work_pos f.px _ f.lvl f.at_best.found in
          let (end, left, fills, e, r) = ih b' (sub_i64 qty fill.qty) (
            Enough-traded fuel b b' side (sub_i64 qty fill.qty) (Traded-Decides f) some_work
              spare) in
          (
            end,
            left,
            fill ∷ fills,
            ap (λ x. x >>= λ (b'', left, fills). some (b'', left, fill ∷ fills)) e,
            hit f refl r,
          )

  -- What `match_taker` returns is what a run of its loop returns; it always returns.
  pub match_taker-Run :
      (b : OrderBook) (taker : OrderId) (side : Side) (limit : Price) (qty : Qty)
      → (end : OrderBook) × (left : Qty) × (fills : List MatchFill) × (match_taker b taker side
            limit qty
          ≡ some (end, fills))
        × Run taker side limit end left b qty fills
  unfolding match_taker
  match_taker-Run b taker side limit qty =
      let (end, left, fills, e, r) =
        match_loop-Runs (suc (work (levels (opposite side) b))) b taker side limit qty
          (inl (omega arith)) in
      (end, left, fills, ap (λ x. x >>= λ (b', left, fills). some (b', fills)) e, r)

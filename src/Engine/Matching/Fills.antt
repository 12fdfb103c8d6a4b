-- ===== src/Engine/Matching/Fills.antt =====
-- What a match trades: how much, with whom, and at what price.
use high_perf_trading.Base.{
  ℤ, pos, false, some, List, [], ◌∷◌, ltb_ℤ, min_ℤ, ◌≡◌, refl, ap, subst, ◌∙◌, ◌⊎◌, inl, inr, arith,
  Bool-cases, All, ◌+ℤ◌, ◌-ℤ◌, ◌≤ℤ◌, ◌<ℤ◌, int_laws, -ℤ_parts, one_part, add_of_eq_sub,
  le_of_add_eq, eq_of_add_eq,
}
use high_perf_trading.Base.Word.{IsI64, sub_i64_within}
use high_perf_trading.Types.{OrderId, Side, Price, Qty}
use high_perf_trading.Engine.Slab.{SlabApi}
use high_perf_trading.Engine.Book.{OrderBook, would_cross}
use high_perf_trading.Engine.Matching.{MatchFill, beyond, trade, match_taker}
use high_perf_trading.Engine.Matching.Run.{Traded, Run, stop, skip, hit, goes_on}
use high_perf_trading.Engine.Matching.Termination.{match_taker-Run}

-- The quantity of all fills.
abbrev pub sum_qty : List MatchFill → ℤ
sum_qty [] = pos 0
sum_qty (f ∷ fills) = f.qty +ℤ sum_qty fills

pub record FillOk (taker : OrderId) (side : Side) (limit : Price) (f : MatchFill) : Type 0 where
  pub positive : pos 0 <ℤ f.qty
  pub within : beyond side f.price limit ≡ false
  pub for_taker : f.taker_order_id ≡ taker

module _ ⦃slab : SlabApi⦄ where
  -- The fill of a trade.
  pub Traded-fields :
      {b : OrderBook} {taker : OrderId} {side : Side} {limit : Price} {qty : Qty} {f : MatchFill}
      {b' : OrderBook} (t : Traded b taker side limit qty f b')
      → (f.qty ≡ min_ℤ qty t.maker.qty_rem)
        × (f.price ≡ t.px)
        × (f.taker_order_id ≡ taker)
        × (f.maker_order_id ≡ t.maker.order_id)
        × (f.maker_account_id ≡ t.maker.account_id)
  unfolding trade
  Traded-fields {taker = taker} {qty = qty} t =
      subst
        (λ r.
          (r.0.qty ≡ min_ℤ qty t.maker.qty_rem)
          × (r.0.price ≡ t.px)
          × (r.0.taker_order_id ≡ taker)
          × (r.0.maker_order_id ≡ t.maker.order_id)
          × (r.0.maker_account_id ≡ t.maker.account_id))
        t.after (refl, refl, refl, refl, refl)

  pub Traded-FillOk :
      {b : OrderBook} {taker : OrderId} {side : Side} {limit : Price} {qty : Qty} {f : MatchFill}
      {b' : OrderBook}
      → Traded b taker side limit qty f b'
      → FillOk taker side limit f × (f.qty ≤ℤ qty) × (pos 0 <ℤ qty)
  Traded-FillOk {taker = taker} {side = side} {limit = limit} {qty = qty} {f = f} t =
      let (eq, ep, et, _, _) = Traded-fields t in
      let wants = t.at_best.wants in
      let live = t.live in
      let near = t.at_best.within in
      (
        record { positive = ground arith; within = rw ep near; for_taker = et },
        ground arith,
        ground arith,
      )

  pub Run-FillOk :
      {taker : OrderId} {side : Side} {limit : Price} {end : OrderBook} {left : Qty} {b : OrderBook}
      {qty : Qty} {fills : List MatchFill}
      → Run taker side limit end left b qty fills
      → All (FillOk taker side limit) fills
  Run-FillOk (stop _ _ e _) = rw e tt
  Run-FillOk (skip d r) = Run-FillOk r
  Run-FillOk (hit t e r) = rw e ((Traded-FillOk t).0, Run-FillOk r)

  pub Run-goes_on :
      {taker : OrderId} {side : Side} {limit : Price} {end : OrderBook} {left : Qty} {b : OrderBook}
      {qty : Qty} {fills : List MatchFill}
      → Run taker side limit end left b qty fills
      → goes_on end side limit left ≡ false
  Run-goes_on {side = side} {limit = limit} (stop eb eq _ h) = rw (← eb, ← eq) h
  Run-goes_on (skip d r) = Run-goes_on r
  Run-goes_on (hit t e r) = Run-goes_on r

  abbrev pub Splits : Qty → Qty → List MatchFill → Type 0
  Splits qty left fills = (sum_qty fills +ℤ left ≡ qty) × (pos 0 ≤ℤ left)

  pub Run-Splits :
      {taker : OrderId} {side : Side} {limit : Price} {end : OrderBook} {left : Qty} {b : OrderBook}
      {qty : Qty} {fills : List MatchFill}
      → Run taker side limit end left b qty fills
      → IsI64 qty
      → pos 0 ≤ℤ qty
      → Splits qty left fills
  Run-Splits {left = left} (stop _ eq e _) i h = rw (e, ← eq) (omega (int_laws), h)
  Run-Splits (skip d r) i h = Run-Splits r i h
  Run-Splits {left = left} {qty = qty} (hit {f = f} {fills = fills} t e r) i h =
      let (ok, le, _) = Traded-FillOk t in
      let exact = sub_i64_within qty f.qty i (omega (arith, ok.positive)) le in
      let parts = -ℤ_parts qty f.qty in
      let one = one_part (qty -ℤ f.qty) in
      let (sum, left_nonneg) = Run-Splits r (rw exact (omega arith)) (rw exact (omega arith)) in
      (ap (λ l. sum_qty l +ℤ left) e ∙ add_of_eq_sub _ left qty f.qty (sum ∙ exact), left_nonneg)

  -- For a taker that wants a quantity of zero or more, `match_taker` always returns. Each fill has a
  -- positive quantity, a price within the taker's limit and the taker's id. Together they fill no more than
  -- the quantity, and less only if the book no longer crosses the limit.
  pub match_taker_fills :
      (b : OrderBook) (taker : OrderId) (side : Side) (limit : Price) (qty : Qty)
      → IsI64 qty
      → pos 0 ≤ℤ qty
      → (end : OrderBook) × (fills : List MatchFill) × (match_taker b taker side limit qty
          ≡ some (end, fills))
        × All (FillOk taker side limit) fills
        × (sum_qty fills ≤ℤ qty)
        × ((sum_qty fills ≡ qty) ⊎ (would_cross end side limit ≡ false))
  match_taker_fills b taker side limit qty i h =
      let (end, left, fills, e, r) = match_taker-Run b taker side limit qty in
      let (sum, nonneg) = Run-Splits r i h in
      (
        end,
        fills,
        e,
        Run-FillOk r,
        le_of_add_eq _ left qty sum nonneg,
        used_up end left fills (Run-goes_on r) sum nonneg,
      )
    where
      nothing : (left : Qty) → ltb_ℤ (pos 0) left ≡ false → left ≤ℤ pos 0
      nothing left u = ground arith

      used_up :
          (end : OrderBook) (left : Qty) (fills : List MatchFill)
          → goes_on end side limit left ≡ false
          → sum_qty fills +ℤ left ≡ qty
          → pos 0 ≤ℤ left
          → (sum_qty fills ≡ qty) ⊎ (would_cross end side limit ≡ false)
      used_up end left fills g sum nonneg = elim (Bool-cases (ltb_ℤ (pos 0) left)) [
        | inl more ↦ inr (rw more at g)
        | inr used ↦ inl (eq_of_add_eq _ left qty sum nonneg (nothing left used))
      ]

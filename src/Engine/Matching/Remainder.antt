-- ===== src/Engine/Matching/Remainder.antt =====
-- What the fills leave of an order in crates/engine/src/engine.rs, where `submit` sums them.
use high_perf_trading.Base.{
  ◌≤◌, ℤ, pos, pos_part, neg_part, List, [], ◌∷◌, ◌≡◌, ap, ◌∙◌, arith, All, ◌+ℤ◌, ◌<ℤ◌, ◌≤ℤ◌,
  int_laws, one_part,
}
use high_perf_trading.Base.Word.{IsI64, add_i64_lem, sub_i64, sub_i64_within}
use high_perf_trading.Types.{OrderId, Side, Price, Qty}
use high_perf_trading.Engine.Slab.{SlabApi}
use high_perf_trading.Engine.Book.{OrderBook}
use high_perf_trading.Engine.Matching.{MatchFill}
use high_perf_trading.Engine.Matching.Run.{Run}
use high_perf_trading.Engine.Matching.Fills.{sum_qty, FillOk, Run-FillOk, Run-Splits}
use high_perf_trading.Engine.State.{filled_from}

module _ ⦃slab : SlabApi⦄ where
  sum_nonneg :
      (taker : OrderId) (side : Side) (limit : Price) (fills : List MatchFill)
      → All (FillOk taker side limit) fills
      → pos 0 ≤ℤ sum_qty fills
  sum_nonneg taker side limit [] h = omega arith
  sum_nonneg taker side limit (f ∷ fills) (ok, h) =
      let rest = sum_nonneg taker side limit fills h in omega (int_laws, rest, ok.positive)

  -- The sum of the code is the sum of the fills, where that is a word.
  filled_from-sum_qty :
      (taker : OrderId) (side : Side) (limit : Price) (acc : ℤ) (fills : List MatchFill)
      → All (FillOk taker side limit) fills
      → pos 0 ≤ℤ acc
      → IsI64 (acc +ℤ sum_qty fills)
      → filled_from acc fills ≡ acc +ℤ sum_qty fills
  unfolding filled_from
  filled_from-sum_qty taker side limit acc [] h p i = omega (int_laws)
  filled_from-sum_qty taker side limit acc (f ∷ fills) (ok, h) p i =
      let rest = sum_nonneg taker side limit fills h in
      let one = one_part (acc +ℤ f.qty) in
      let exact = add_i64_lem acc f.qty (omega (int_laws, rest, ok.positive, i, one)) in
      let assoc : (acc +ℤ f.qty) +ℤ sum_qty fills ≡ acc +ℤ (f.qty +ℤ sum_qty fills) =
        omega (int_laws) in
      ap (λ a. filled_from a fills) exact
      ∙ filled_from-sum_qty taker side limit (acc +ℤ f.qty) fills h
          (omega (int_laws, p, ok.positive)) (rw assoc i)
      ∙ assoc

  -- The remainder that `submit` computes after a match is what the match left, and no more than the order's
  -- quantity.
  pub remainder_left :
      {taker : OrderId} {side : Side} {limit : Price} {end : OrderBook} {left : Qty} {b : OrderBook}
      {qty : Qty} {fills : List MatchFill}
      → Run taker side limit end left b qty fills
      → IsI64 qty
      → pos 0 <ℤ qty
      → (sub_i64 qty (filled_from (pos 0) fills) ≡ left) × (pos_part left ≤ pos_part qty)
  remainder_left {taker = taker} {side = side} {limit = limit} {left = left} {qty = qty}
        {fills = fills} r i p =
      let (sum, nonneg) = Run-Splits r i (omega (arith, p)) in
      let ok = Run-FillOk r in
      let rest = sum_nonneg taker side limit fills ok in
      let one = one_part (sum_qty fills) in
      let ps = ap pos_part sum in
      let ns = ap neg_part sum in
      let zero_sum : pos 0 +ℤ sum_qty fills ≡ sum_qty fills = omega (int_laws) in
      let word : IsI64 (sum_qty fills) = omega (int_laws, i, ps, ns, one, nonneg, rest) in
      let filled =
        filled_from-sum_qty taker side limit (pos 0) fills ok (omega arith) (rw zero_sum word)
        ∙ zero_sum in
      let exact = sub_i64_within qty (sum_qty fills) i rest (omega (int_laws, ps, ns, nonneg)) in
      (
        ap (sub_i64 qty) filled ∙ exact ∙ omega (int_laws, ps, ns),
        omega (int_laws, ps, ns, one, rest, nonneg, one_part left, one_part qty),
      )

-- ===== src/Tests/Matching.antt =====
-- Runs of the order book of crates/engine/src/order_book.rs.
use high_perf_trading.Base.{
  ℕ, ◌+◌, ◌<◌, ◌≤◌, ◌^◌, pos_part, ◌<ℤ◌, ℤ, pos, false, Option, none, some, List, [], ◌∷◌, ◌≡◌,
  refl, ◌⊎◌, ◌≤ℤ◌, All, arith, map,
}
use high_perf_trading.Types.{Side, buy, sell, gtc, OrderId, AccountId, Price, Qty}
use high_perf_trading.Base.Int.{◌+ℤ◌, ◌-ℤ◌}
use high_perf_trading.Base.Word.{wrap_i64, IsI64}
use high_perf_trading.Base.TreeMap.{IsSorted}
use high_perf_trading.Engine.Slab.{Order}
use high_perf_trading.Engine.Slab.Sample.{sample_slab}
use high_perf_trading.Engine.Book.{
  OrderBook, insert_resting, would_cross, levels, best_ask, best_bid,
}
use high_perf_trading.Engine.Book
use high_perf_trading.Engine.Matching.{MatchFill, match_taker}
use high_perf_trading.Engine.Matching.Run.{Run}
use high_perf_trading.Engine.Matching.Greedy.{greedy, by_priority}
use high_perf_trading.Engine.Matching.Greedy.Follows.{match_taker-greedy}
use high_perf_trading.Engine.Book.Uncrossed.{Uncrossed, resting-Uncrossed, new-Uncrossed}
use high_perf_trading.Engine.Core.Depth.{Sound, Sound-Preserved, new-Sound}
use high_perf_trading.Engine.Matching.Fills.{match_taker_fills, FillOk, sum_qty}
use high_perf_trading.Engine.Matching.Priority.{match_taker-Ordered, Ordered}
use high_perf_trading.Engine.Matching.Termination.{match_taker-Run}

abbrev pub order_at : OrderId → AccountId → Side → Price → Qty → Order
order_at order_id account_id side price qty = record {
  order_id = order_id;
  account_id = account_id;
  symbol_id = 1;
  side = side;
  price = price;
  qty_rem = qty;
  tif = gtc;
  flags = record { post_only = false };
}

-- Two orders at 101, one at 103 and one at 110, that sell.
abbrev pub sellers : OrderBook
sellers =
    insert_resting
      (insert_resting
        (insert_resting (insert_resting (Book.new 1) (order_at 11 1 sell (pos 103) (pos 4)))
          (order_at 12 2 sell (pos 101) (pos 5)))
        (order_at 13 1 sell (pos 101) (pos 2)))
      (order_at 14 2 sell (pos 110) (pos 9))

test_best_ask : best_ask sellers ≡ some (pos 101, pos 7)
unfolding best_ask insert_resting Book.new wrap_i64 ◌+ℤ◌ sample_slab
test_best_ask = refl

makers : Option (OrderBook × List MatchFill) → List (OrderId × ℤ × ℤ)
makers none = []
makers (some (b, fills)) = map (λ f. (f.maker_order_id, f.price, f.qty)) fills

test_match_taker :
    makers (match_taker sellers 9 buy (pos 105) (pos 8))
    ≡ (12, pos 101, pos 5) ∷ (13, pos 101, pos 2) ∷ (11, pos 103, pos 1) ∷ []
unfolding makers match_taker insert_resting Book.new wrap_i64 ◌+ℤ◌ ◌-ℤ◌ sample_slab
test_match_taker = refl

match_taker_fills_example :
    (end : OrderBook) × (fills : List MatchFill) × (match_taker sellers 9 buy (pos 105) (pos 8)
      ≡ some (end, fills))
    × All (FillOk 9 buy (pos 105)) fills
    × (sum_qty fills ≤ℤ pos 8)
    × ((sum_qty fills ≡ pos 8) ⊎ (would_cross end buy (pos 105) ≡ false))
match_taker_fills_example =
    match_taker_fills sellers 9 buy (pos 105) (pos 8) (omega arith) (omega arith)

match_taker-Ordered_example :
    (end : OrderBook) × (fills : List MatchFill) × (match_taker sellers 9 buy (pos 105) (pos 8)
      ≡ some (end, fills))
    × Ordered buy fills
    × IsSorted (levels sell end)
unfolding insert_resting Book.new sample_slab
match_taker-Ordered_example =
    match_taker-Ordered sellers 9 buy (pos 105) (pos 8)
      ((omega arith, (omega arith, tt)), ((omega arith, tt), (tt, tt)))

match_taker-Run_example :
    (end : OrderBook) × (left : Qty) × (fills : List MatchFill) × (match_taker sellers 9 buy
        (pos 105)
        (pos 8)
      ≡ some (end, fills))
    × Run 9 buy (pos 105) end left sellers (pos 8) fills
match_taker-Run_example = match_taker-Run sellers 9 buy (pos 105) (pos 8)

-- The levels of `sellers` fit its orders: the book is made by orders that came to rest.
pub sellers-Sound : Sound 20 sellers
unfolding insert_resting Book.new would_cross best_bid sample_slab
sellers-Sound =
    rests 11 9 (omega arith) _ (order_at 14 2 sell (pos 110) (pos 9)) (omega arith) (omega arith)
      (omega arith) refl
      (rests 9 2 (omega arith) _ (order_at 13 1 sell (pos 101) (pos 2)) (omega arith) (omega arith)
        (omega arith) refl
        (rests 4 5 (omega arith) _ (order_at 12 2 sell (pos 101) (pos 5)) (omega arith)
          (omega arith) (omega arith) refl
          (rests 0 4 (omega arith) (Book.new 1) (order_at 11 1 sell (pos 103) (pos 4)) (omega arith)
            (omega arith) (omega arith) refl (new-Sound 1))))
  where
    rests :
        (less most : ℕ)
        → less + most < 2 ^ 63
        → (b : OrderBook) (o : Order) → IsI64 o.qty_rem
        → pos 0 <ℤ o.qty_rem
        → pos_part o.qty_rem ≤ most
        → would_cross b o.side o.price ≡ false
        → Sound less b
        → Sound (less + most) (insert_resting b o)
    rests less most room = (Sound-Preserved less most room).resting

pub sellers-Uncrossed : Uncrossed sellers
unfolding insert_resting Book.new would_cross best_bid sample_slab
sellers-Uncrossed = resting-Uncrossed _ (order_at 14 2 sell (pos 110) (pos 9)) refl (
    resting-Uncrossed _ (order_at 13 1 sell (pos 101) (pos 2)) refl (
      resting-Uncrossed _ (order_at 12 2 sell (pos 101) (pos 5)) refl (
        resting-Uncrossed (Book.new 1) (order_at 11 1 sell (pos 103) (pos 4)) refl
          (new-Uncrossed 1))))

match_taker-greedy_example :
    (end : OrderBook) × (match_taker sellers 9 buy (pos 105) (pos 8)
      ≡ some (end, greedy 9 buy (pos 105) (pos 8) (by_priority buy sellers)))
match_taker-greedy_example =
    match_taker-greedy {most = 20} (omega arith) sellers 9 buy (pos 105) (pos 8) sellers-Sound.1
      (omega arith) (omega arith)

-- ===== src/Engine/Matching.antt =====
-- `match_taker` of crates/engine/src/order_book.rs. The source writes its loop out for each side of the
-- taker; here the side picks the levels and the test by which they are compared.
pub mod Run
pub mod Termination
pub mod Fills
pub mod Remainder
pub mod Greedy
pub mod Priority
use high_perf_trading.Base.{
  ℕ, zero, suc, ◌+◌, ℤ, pos, Bool, true, false, Option, none, some, List, [], ◌∷◌, if◌then◌else◌,
  length, ltb_ℤ, leb_ℤ, eqb_ℤ, min_ℤ, not, ◌>>=◌,
}
use high_perf_trading.Base.Word.{sub_i64}
use high_perf_trading.Base.HashMap
use high_perf_trading.Base.TreeMap.{TreeMap}
use high_perf_trading.Base.TreeMap
use high_perf_trading.Types.{OrderId, AccountId, Side, buy, sell, Price, Qty, opposite}
use high_perf_trading.Engine.Slab.{SlabApi, Order}
use high_perf_trading.Engine.Book.{OrderBook, Level, levels, set_levels}

pub record MatchFill : Type 0 where
  pub maker_order_id : OrderId
  pub maker_account_id : AccountId
  pub taker_order_id : OrderId
  pub price : Price
  pub qty : Qty

-- The test by which a price level stops the taker: an ask above a buyer's price, a bid below a seller's.
abbrev pub beyond : Side → Price → Price → Bool
beyond buy best limit = ltb_ℤ limit best
beyond sell best limit = ltb_ℤ best limit

module _ ⦃slab : SlabApi⦄ where
  -- Skips what is dead or gone. The key found, with what the queue holds behind it.
  unfoldable pub pop_live_front : slab.Slab → List ℕ → Option ℕ × List ℕ
  pop_live_front orders [] = (none, [])
  pop_live_front orders (k ∷ queue) =
      let rest = pop_live_front orders queue in
      elim (slab.get orders k) [
        | none ↦ rest
        | some o ↦ if ltb_ℤ (pos 0) o.qty_rem then (some k, queue) else rest
      ]

  abbrev pub key_of : Option (ℤ × Level) → Option Price
  key_of none = none
  key_of (some (px, lvl)) = some px

  -- `keys().next()` for a buyer, `keys().next_back()` for a seller.
  unfoldable pub best_px : Side → OrderBook → Option Price
  unfolding TreeMap.first TreeMap.last
  best_px buy b = key_of (TreeMap.first b.asks)
  best_px sell b = key_of (TreeMap.last b.bids)

  -- `lvl.total_qty <= 0` takes the level out; otherwise the level is as it was left.
  unfoldable pub settle_level : Price → Qty → List ℕ → TreeMap Level → TreeMap Level
  unfolding TreeMap.put TreeMap.remove
  settle_level px total queue m =
      if leb_ℤ total (pos 0)
      then TreeMap.remove px m
      else TreeMap.put px (record { queue = queue; total_qty = total }) m

  -- The maker is written back; one that is used up leaves the slab and the index.
  unfoldable pub settle_maker : OrderBook → ℕ → Order → Qty → OrderBook
  unfolding HashMap.remove
  settle_maker b key maker left =
      let written = slab.put b.orders key (record maker { qty_rem = left }) in
      if eqb_ℤ left (pos 0)
      then record b {
        orders = slab.remove written key;
        index = HashMap.remove maker.order_id b.index;
      }
      else record b { orders = written }

  -- The queue without the maker in front, unless some of it is left.
  abbrev pub settle_queue : Qty → ℕ → List ℕ → List ℕ
  settle_queue left key queue = if eqb_ℤ left (pos 0) then queue else key ∷ queue

  -- One trade with the maker under a key of the level at a price, from a taker that wants `qty`: the
  -- fill and the book after it.
  unfoldable pub trade :
      OrderBook → OrderId → Side → Price → Qty → Level → List ℕ → ℕ → Order → MatchFill × OrderBook
  unfolding settle_level settle_maker sub_i64
  trade b taker_order_id side px qty lvl queue key maker =
      let trade_qty = min_ℤ qty maker.qty_rem in
      let left = sub_i64 maker.qty_rem trade_qty in
      (
        record {
          maker_order_id = maker.order_id;
          maker_account_id = maker.account_id;
          taker_order_id = taker_order_id;
          price = px;
          qty = trade_qty;
        },
        set_levels (opposite side)
            (settle_level px (sub_i64 lvl.total_qty trade_qty) (settle_queue left key queue)
              (levels (opposite side) b))
            (settle_maker b key maker left),
      )

  abbrev pub drop_level : OrderBook → Side → Price → OrderBook
  drop_level b side px = set_levels side (TreeMap.remove px (levels side b)) b

  -- What one round of the loop does.
  pub data Round : Type 0 where
    finished : Round
    dropped : OrderBook → Round
    traded : MatchFill → OrderBook → Round

  -- The round at a level, once its first live maker is known.
  unfoldable pub match_level :
      OrderBook → OrderId → Side → Price → Qty → Level → Option ℕ × List ℕ → Option Round
  unfolding TreeMap.remove trade
  match_level b taker_order_id side px qty lvl (none, queue) =
      some (dropped (drop_level b (opposite side) px))
  match_level b taker_order_id side px qty lvl (some key, queue) =
      slab.get b.orders key >>= λ maker.
      let (fill, b') = trade b taker_order_id side px qty lvl queue key maker in
      some (traded fill b')

  -- `none`: the level or the maker that the source expects is not there.
  unfoldable pub match_round : OrderBook → OrderId → Side → Price → Qty → Option Round
  unfolding best_px TreeMap.get pop_live_front match_level
  match_round b taker_order_id side limit qty =
      if not (ltb_ℤ (pos 0) qty) then some finished else elim (best_px side b) [
        | none ↦ some finished
        | some px ↦
            if beyond side px limit
            then some finished
            else (TreeMap.get px (levels (opposite side) b) >>= λ lvl.
                match_level b taker_order_id side px qty lvl (pop_live_front b.orders lvl.queue))
      ]

  -- The loop, with the quantity that the taker still wants: the book after it, what is left of the
  -- quantity, and the fills in order. `none`: a panic, or out of fuel.
  unfoldable pub match_loop :
      ℕ → OrderBook → OrderId → Side → Price → Qty → Option (OrderBook × Qty × List MatchFill)
  unfolding match_round sub_i64
  match_loop zero b taker_order_id side limit qty = none
  match_loop (suc fuel) b taker_order_id side limit qty =
      match_round b taker_order_id side limit qty >>= elim [
        | finished ↦ some (b, qty, [])
        | dropped b' ↦ match_loop fuel b' taker_order_id side limit qty
        | traded fill b' ↦
            match_loop fuel b' taker_order_id side limit (sub_i64 qty fill.qty)
            >>= λ (b'', left, fills). some (b'', left, fill ∷ fills)
      ]

  -- The entries of a side's queues, and its levels: more rounds the loop does not make.
  abbrev pub work : TreeMap Level → ℕ
  work [] = 0
  work ((px, lvl) ∷ m) = suc (length lvl.queue) + work m

  unfoldable pub match_taker :
      OrderBook → OrderId → Side → Price → Qty → Option (OrderBook × List MatchFill)
  unfolding match_loop
  match_taker b taker_order_id side limit qty =
      match_loop (suc (work (levels (opposite side) b))) b taker_order_id side limit qty
      >>= λ (b', left, fills). some (b', fills)

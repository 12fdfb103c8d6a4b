-- ===== src/Engine/Book.antt =====
-- crates/engine/src/order_book.rs: one symbol's order book. Each operation returns the new book.
-- `expect` on what is absent is a panic, which `none` stands for.
pub mod Cancel
pub mod Levels
pub mod Queues
pub mod Aggregate
pub mod Uncrossed
use high_perf_trading.Base.{
  ℕ, zero, suc, ◌+◌, ℤ, pos, Bool, true, false, ◌&&◌, Option, none, some, List, [], ◌∷◌, ◌++◌, ◌==◌,
  if◌then◌else◌, length, ltb_ℤ, leb_ℤ, unwrap_or, ◌>>=◌, pos_part,
}
use mathlib.Core.List.{filter}
use native.Mathlib.Decide.{dec_lt}
use high_perf_trading.Base.Word.{add_i64, sub_i64, mul_i64}
use high_perf_trading.Base.HashMap.{HashMap}
use high_perf_trading.Base.HashMap
use high_perf_trading.Base.TreeMap.{TreeMap}
use high_perf_trading.Base.TreeMap
use high_perf_trading.Types.{
  OrderId, AccountId, SymbolId, Side, buy, sell, Price, Qty, Text, is_buy,
}
use high_perf_trading.Protocol.{OrderSnapshot}
use high_perf_trading.Engine.Slab.{SlabApi, Order}

pub record Level : Type 0 where
  pub queue : List ℕ
  pub total_qty : Qty

-- `Level::new`.
abbrev pub empty_level : Level
empty_level = record { queue = []; total_qty = pos 0 }

module _ ⦃slab : SlabApi⦄ where
  pub record OrderBook : Type 0 where
    pub symbol_id : SymbolId
    pub bids : TreeMap Level
    pub asks : TreeMap Level
    pub orders : slab.Slab
    pub index : HashMap ℕ

  -- The side of the book that orders of a side rest on.
  abbrev pub levels : Side → OrderBook → TreeMap Level
  levels buy b = b.bids
  levels sell b = b.asks

  abbrev pub set_levels : Side → TreeMap Level → OrderBook → OrderBook
  set_levels buy m b = record b { bids = m }
  set_levels sell m b = record b { asks = m }

  unfoldable pub new : SymbolId → OrderBook
  new symbol_id = record {
    symbol_id = symbol_id;
    bids = [];
    asks = [];
    orders = slab.new;
    index = [];
  }

  unfoldable pub get : OrderBook → OrderId → Option Order
  unfolding HashMap.get
  get b order_id = HashMap.get order_id b.index >>= λ key. slab.get b.orders key

  -- The price and the quantity of a level.
  abbrev pub quote : Option (ℤ × Level) → Option (Price × Qty)
  quote none = none
  quote (some (px, lvl)) = some (px, lvl.total_qty)

  unfoldable pub best_bid : OrderBook → Option (Price × Qty)
  unfolding TreeMap.last
  best_bid b = quote (TreeMap.last b.bids)

  unfoldable pub best_ask : OrderBook → Option (Price × Qty)
  unfolding TreeMap.first
  best_ask b = quote (TreeMap.first b.asks)

  abbrev at_or_below : Price → Option (Price × Qty) → Bool
  at_or_below px none = false
  at_or_below px (some (ask, qty)) = leb_ℤ ask px

  abbrev at_or_above : Price → Option (Price × Qty) → Bool
  at_or_above px none = false
  at_or_above px (some (bid, qty)) = leb_ℤ px bid

  unfoldable pub would_cross : OrderBook → Side → Price → Bool
  unfolding best_bid best_ask
  would_cross b buy px = at_or_below px (best_ask b)
  would_cross b sell px = at_or_above px (best_bid b)

  -- `total_qty += qty` and `push_back` on the level of a price, made anew if absent.
  abbrev pub enqueue : ℤ → ℕ → Qty → TreeMap Level → TreeMap Level
  enqueue px key qty m =
      let lvl = unwrap_or (TreeMap.get px m) empty_level in
      TreeMap.insert px
        (record { queue = lvl.queue ++ key ∷ []; total_qty = add_i64 lvl.total_qty qty }) m

  unfoldable pub insert_resting : OrderBook → Order → OrderBook
  unfolding TreeMap.get TreeMap.insert HashMap.insert add_i64
  insert_resting b order =
      let (key, orders) = slab.insert b.orders order in
      let b' = record b { orders = orders; index = HashMap.insert order.order_id key b.index } in
      set_levels order.side (enqueue order.price key order.qty_rem (levels order.side b)) b'

  -- `total_qty -= qty`; a level that is used up goes, with the dead keys of its queue.
  abbrev pub reduce_level : ℤ → Qty → TreeMap Level → TreeMap Level
  reduce_level px qty m = elim (TreeMap.get px m) [
    | none ↦ m
    | some lvl ↦
        let total = sub_i64 lvl.total_qty qty in
        if leb_ℤ total (pos 0)
        then TreeMap.remove px m
        else TreeMap.put px (record lvl { total_qty = total }) m
  ]

  -- The part of `cancel` behind its checks.
  unfoldable pub cancel_found : OrderBook → OrderId → ℕ → Order → OrderBook
  unfolding TreeMap.get TreeMap.put TreeMap.remove HashMap.remove sub_i64
  cancel_found b order_id key ord =
      let b' = record b {
        orders = slab.put b.orders key (record ord { qty_rem = pos 0 });
        index = HashMap.remove order_id b.index;
      } in
      set_levels ord.side (reduce_level ord.price ord.qty_rem (levels ord.side b)) b'

  -- An order with its key, if it is there and belongs to the account.
  unfoldable pub find_owned : OrderBook → OrderId → AccountId → Option (ℕ × Order)
  unfolding HashMap.get
  find_owned b order_id account_id = HashMap.get order_id b.index >>= λ key.
      slab.get b.orders key >>= λ ord.
      if ord.account_id == account_id then some (key, ord) else none

  unfoldable pub cancel : OrderBook → OrderId → AccountId → Bool × OrderBook
  unfolding find_owned cancel_found
  cancel b order_id account_id = elim (find_owned b order_id account_id) [
    | none ↦ (false, b)
    | some (key, ord) ↦ (true, cancel_found b order_id key ord)
  ]

  unfoldable pub replace : OrderBook → OrderId → AccountId → Price → Qty → Bool × OrderBook
  unfolding find_owned cancel insert_resting
  replace b order_id account_id new_price new_qty = elim (find_owned b order_id account_id) [
    | none ↦ (false, b)
    | some (key, existing) ↦ (
      true,
      insert_resting (cancel b order_id account_id).1
          (record existing { price = new_price; qty_rem = new_qty }),
    )
  ]

  unfoldable pub live_order_count : OrderBook → ℕ
  live_order_count b = length b.index

  -- The orders that `serialize_snapshot` writes.
  unfoldable pub live_orders : OrderBook → List Order
  live_orders b = filter (λ o. dec_lt 0 (pos_part o.qty_rem)) (slab.values b.orders)

  -- `serialize_snapshot`, with the serializer of the crate `postcard`.
  unfoldable pub serialize_snapshot : (List Order → Option Text) → OrderBook → Option Text
  unfolding live_orders
  serialize_snapshot to_bytes b = to_bytes (live_orders b)

  unfoldable pub insert_all : OrderBook → List Order → OrderBook
  unfolding insert_resting
  insert_all b [] = b
  insert_all b (o ∷ orders) = insert_all (insert_resting b o) orders

  -- `restore_from_snapshot`, with the deserializer; `none` is its error, which leaves the book alone.
  unfoldable pub restore_from_snapshot :
      (Text → Option (List Order)) → OrderBook → Text → Option OrderBook
  unfolding insert_all new
  restore_from_snapshot from_bytes b bytes =
      from_bytes bytes >>= λ orders. some (insert_all (new b.symbol_id) orders)

  abbrev reserved : Order → ℤ
  reserved o = if is_buy o.side then mul_i64 o.price o.qty_rem else pos 0

  abbrev snapshot_order : OrderId → Order → OrderSnapshot
  snapshot_order order_id o = record {
    order_id = order_id;
    account_id = o.account_id;
    symbol_id = o.symbol_id;
    side = o.side;
    price = o.price;
    qty_rem = o.qty_rem;
    reserved_amount = reserved o;
  }

  unfoldable pub snapshots_of : slab.Slab → HashMap ℕ → List OrderSnapshot
  snapshots_of orders [] = []
  snapshots_of orders ((order_id, key) ∷ index) = elim (slab.get orders key) [
    | none ↦ snapshots_of orders index
    | some o ↦ snapshot_order order_id o ∷ snapshots_of orders index
  ]

  unfoldable pub get_all_order_snapshots : OrderBook → List OrderSnapshot
  unfolding snapshots_of
  get_all_order_snapshots b = snapshots_of b.orders b.index

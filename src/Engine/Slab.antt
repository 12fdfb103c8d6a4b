-- ===== src/Engine/Slab.antt =====
-- The slab that stores the orders (the crate `slab`), as an interface: what crates/engine/src/order_book.rs
-- calls of it, with the behaviour that its documentation promises.
pub mod Sample
use high_perf_trading.Base.{
  ℕ, Bool, true, Option, none, some, List, ◌≡◌, ◌==◌, if◌then◌else◌, is_some,
}
use high_perf_trading.Types.{
  OrderId, AccountId, SymbolId, Side, Price, Qty, TimeInForce, OrderFlags,
}

-- `Order` of crates/engine/src/order_book.rs.
pub record Order : Type 0 where
  pub order_id : OrderId
  pub account_id : AccountId
  pub symbol_id : SymbolId
  pub side : Side
  pub price : Price
  pub qty_rem : Qty
  pub tif : TimeInForce
  pub flags : OrderFlags

pub record SlabApi : Type 1 where
  pub Slab : Type 0
  pub new : Slab
  -- The key given out, and the slab with the order under it.
  pub insert : Slab → Order → ℕ × Slab
  pub get : Slab → ℕ → Option Order
  -- A write through `get_mut`.
  pub put : Slab → ℕ → Order → Slab
  pub remove : Slab → ℕ → Slab
  pub values : Slab → List Order
  pub get-new : (k : ℕ) → get new k ≡ none
  pub insert_vacant : (s : Slab) (o : Order) → get s (insert s o).0 ≡ none
  pub get-insert :
      (s : Slab) (o : Order) (k : ℕ)
      → get (insert s o).1 k ≡ (if (insert s o).0 == k then some o else get s k)
  pub get-put :
      (s : Slab) (j : ℕ) (o : Order) (k : ℕ)
      → is_some (get s j) ≡ true
      → get (put s j o) k ≡ (if j == k then some o else get s k)
  pub get-remove :
      (s : Slab) (j k : ℕ)
      → is_some (get s j) ≡ true
      → get (remove s j) k ≡ (if j == k then none else get s k)

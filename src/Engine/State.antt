-- ===== src/Engine/State.antt =====
-- crates/engine/src/engine.rs: the state of the engine, and the events that it makes. The counters of
-- crates/common/src/metrics.rs that the engine moves are fields of its state. `none` is a panic.
use high_perf_trading.Base.{ℕ, ℤ, Option, none, some, List, [], ◌∷◌, ◌>>=◌}
use high_perf_trading.Base.Word.{inc_u64, add_i64}
use high_perf_trading.Types.{
  OrderId, opposite, Price, Qty, NewOrder, Event, ack, reject, fill, book_top, RejectReason,
  default_limits,
}
use high_perf_trading.Engine.Slab.{SlabApi}
use high_perf_trading.Engine.Book.{OrderBook, best_bid, best_ask, would_cross, insert_resting}
use high_perf_trading.Engine.Book
use high_perf_trading.Engine.Matching.{MatchFill}
use high_perf_trading.Engine.Accounts.{
  AccountManager, check_risk, apply_fill, set_limits, get_position, get_limits,
}
use high_perf_trading.Engine.Accounts

module _ ⦃slab : SlabApi⦄ where
  pub record Engine : Type 0 where
    pub server_seq : ℕ
    pub command_seq : ℕ
    pub book : OrderBook
    pub account_manager : AccountManager
    pub fills_total : ℕ
    pub rejects_total : ℕ

  -- `new_with_config`, but for the channels and the journal.
  unfoldable pub new_engine : Engine
  unfolding Book.new Accounts.new
  new_engine = record {
    server_seq = 1;
    command_seq = 0;
    book = Book.new 1;
    account_manager = Accounts.new default_limits;
    fills_total = 0;
    rejects_total = 0;
  }

  abbrev pub Step : Type 0
  Step = List Event × Engine

  -- `next_seq` gives out the number and moves on.
  abbrev pub bump_seq : Engine → Engine
  bump_seq e = record e { server_seq = inc_u64 e.server_seq }

  unfoldable pub ack_event : Engine → ℕ → OrderId → Event × Engine
  ack_event e client_seq order_id = (
    ack (record { server_seq = e.server_seq; client_seq = client_seq; order_id = order_id }),
    bump_seq e,
  )

  unfoldable pub reject_event : Engine → ℕ → Option OrderId → RejectReason → Event × Engine
  reject_event e client_seq order_id reason = (
    reject (record {
      server_seq = e.server_seq;
      client_seq = client_seq;
      order_id = order_id;
      reason = reason;
    }),
    record e { server_seq = inc_u64 e.server_seq; rejects_total = inc_u64 e.rejects_total },
  )

  abbrev px_of : Option (Price × Qty) → Option Price
  px_of none = none
  px_of (some (px, qty)) = some px

  abbrev qty_of : Option (Price × Qty) → Option Qty
  qty_of none = none
  qty_of (some (px, qty)) = some qty

  unfoldable pub book_top_event : Engine → Event × Engine
  unfolding best_bid best_ask
  book_top_event e = (
    book_top (record {
      server_seq = e.server_seq;
      symbol_id = e.book.symbol_id;
      best_bid_px = px_of (best_bid e.book);
      best_bid_qty = qty_of (best_bid e.book);
      best_ask_px = px_of (best_ask e.book);
      best_ask_qty = qty_of (best_ask e.book);
    }),
    bump_seq e,
  )

  abbrev pub single : Event × Engine → Step
  single (ev, e) = (ev ∷ [], e)

  -- Top of book, then the ack.
  unfoldable pub conclude : Engine → ℕ → OrderId → Step
  unfolding book_top_event ack_event
  conclude e client_seq order_id =
      let (top, e') = book_top_event e in
      let (done, e'') = ack_event e' client_seq order_id in (top ∷ done ∷ [], e'')

  -- One round of the loop over the fills: both positions move, and the fill is announced.
  unfoldable pub settle_fill : Engine → NewOrder → MatchFill → Option (Event × Engine)
  unfolding apply_fill
  settle_fill e order f =
      apply_fill e.account_manager order.account_id order.side f.price f.qty >>= λ taken.
      apply_fill taken f.maker_account_id (opposite order.side) f.price f.qty >>= λ settled. some (
        fill (record {
          server_seq = e.server_seq;
          client_seq = order.client_seq;
          symbol_id = e.book.symbol_id;
          taker_order_id = f.taker_order_id;
          maker_order_id = f.maker_order_id;
          price = f.price;
          qty = f.qty;
        }),
        record e {
          server_seq = inc_u64 e.server_seq;
          account_manager = settled;
          fills_total = inc_u64 e.fills_total;
        },
      )

  unfoldable pub settle_fills : Engine → NewOrder → List MatchFill → Option Step
  unfolding settle_fill
  settle_fills e order [] = some ([], e)
  settle_fills e order (f ∷ fills) = settle_fill e order f >>= λ (ev, e').
      settle_fills e' order fills >>= λ (evs, e''). some (ev ∷ evs, e'')

  -- `fills.iter().map(|f| f.qty).sum()`.
  unfoldable pub filled_from : ℤ → List MatchFill → ℤ
  unfolding add_i64
  filled_from acc [] = acc
  filled_from acc (f ∷ fills) = filled_from (add_i64 acc f.qty) fills

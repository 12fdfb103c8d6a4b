-- ===== src/Engine/Core/Depth.antt =====
-- The depth of the book that crates/engine/src/engine.rs publishes is the sum of its live orders.
use high_perf_trading.Base.{
  ℕ, ◌+◌, ◌<◌, ◌^◌, pos, sym, ◌∙◌, subst, ◌<ℤ◌, some_injective, arith, Holds,
}
use high_perf_trading.Types.{SymbolId, Command}
use high_perf_trading.Engine.Slab.{SlabApi}
use high_perf_trading.Engine.Book.{OrderBook, new}
use high_perf_trading.Engine.Book.Queues.{dead_depth}
use high_perf_trading.Engine.Book.Aggregate.Books.{BookFits, BookFits-le, new-BookFits}
use high_perf_trading.Engine.Book.Aggregate.Resting.{resting-BookFits}
use high_perf_trading.Engine.Book.Aggregate.Reduced.{cancelled-BookFits}
use high_perf_trading.Engine.Book.Aggregate.Trades.{traded-BookFits}
use high_perf_trading.Engine.State.{Engine}
use high_perf_trading.Engine.Core.{process}
use high_perf_trading.Engine.Core.Books.{Preserved, HasWord, AtMost, process_keeps}
use high_perf_trading.Engine.Core.Consistent.{Consistent, Consistent-Preserved, new-Consistent}
use high_perf_trading.Engine.Core.Index.{owned_parts}

module _ ⦃slab : SlabApi⦄ where
  -- A book whose index, quantities and levels are right, no level of more than `most`.
  abbrev pub Sound : ℕ → OrderBook → Type 0
  Sound most b = Consistent b × BookFits most b

  pub Sound-Preserved :
      (less most : ℕ) → less + most < 2 ^ 63 → Preserved most (Sound less) (Sound (less + most))
  Sound-Preserved less most room = record {
    weaken = λ b (c, h). (c, BookFits-le b less (less + most) (omega arith) h);
    resting = λ b o i p small over (c, h).
        (consistent.resting b o i p small over c, resting-BookFits b o p (omega arith) room h);
    cancelled = λ b order_id account_id key o found (c, h).
        let (entry, stored) = owned_parts b order_id account_id key o found in
        let l = c.1 order_id key entry in
        (
          consistent.cancelled b order_id account_id key o found c,
          cancelled-BookFits b order_id key o stored
              (subst (λ x. pos 0 <ℤ x.qty_rem) (some_injective (sym l.stored ∙ stored)) l.positive)
              (omega arith) h,
        );
    dropped = λ b side px lvl found dead (c, h).
        let level = h.fits.level side px lvl found in
        absurd (omega (arith, dead_depth b.orders lvl.queue dead, level.positive));
    traded = λ b taker side px qty lvl queue key maker found popped stored live wants (c, h). (
      consistent.traded b taker side px qty lvl queue key maker found popped stored live wants c,
      traded-BookFits b taker side px qty lvl queue key maker found popped stored live wants
          (omega arith) h,
    );
  }
    where
      consistent : Preserved most Consistent Consistent
      consistent = Consistent-Preserved most

  -- If a book is sound with levels of at most `less`, and the quantity of the command, a machine word, is
  -- at most `most`, with `less + most` below 2 ^ 63, then the book after the command is sound with levels
  -- of at most `less + most`.
  pub process-Sound :
      (e : Engine) (cmd : Command) (less most : ℕ)
      → HasWord cmd
      → AtMost most cmd
      → less + most < 2 ^ 63
      → Sound less e.book
      → Holds (λ (evs, e'). Sound (less + most) e'.book) (process e cmd)
  process-Sound e cmd less most i small room h =
      process_keeps (Sound-Preserved less most room) e cmd i small h

  pub new-Sound : (symbol_id : SymbolId) → Sound 0 (new symbol_id)
  new-Sound symbol_id = (new-Consistent symbol_id, new-BookFits symbol_id)

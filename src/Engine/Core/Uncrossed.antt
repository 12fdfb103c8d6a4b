-- ===== src/Engine/Core/Uncrossed.antt =====
-- No command of crates/engine/src/engine.rs leaves a book in which a bid reaches an ask.
use high_perf_trading.Base.{◌^◌, Holds}
use high_perf_trading.Types.{Command}
use high_perf_trading.Engine.Slab.{SlabApi}
use high_perf_trading.Engine.Book.Uncrossed.{
  Uncrossed, resting-Uncrossed, cancelled-Uncrossed, dropped-Uncrossed, traded-Uncrossed,
}
use high_perf_trading.Engine.State.{Engine}
use high_perf_trading.Engine.Core.{process}
use high_perf_trading.Engine.Core.Books.{Preserved, HasWord, HasWord-AtMost, process_keeps}

module _ ⦃slab : SlabApi⦄ where
  Uncrossed-Preserved : Preserved (2 ^ 63) Uncrossed Uncrossed
  Uncrossed-Preserved = record {
    weaken = λ b u. u;
    resting = λ b o _ _ _ free u. resting-Uncrossed b o free u;
    cancelled = λ b order_id account_id key o _ u. cancelled-Uncrossed b order_id key o u;
    dropped = λ b side px lvl _ _ u. dropped-Uncrossed b side px u;
    traded = λ b taker side px qty lvl queue key maker found _ _ _ _ u.
        traded-Uncrossed b taker side px qty lvl queue key maker found u;
  }

  -- If every bid of a book is below every ask, with the levels of both sides in order, and the quantity
  -- of the command is a machine word, then the same holds of the book after the command.
  pub process-Uncrossed :
      (e : Engine) (cmd : Command)
      → HasWord cmd
      → Uncrossed e.book
      → Holds (λ (evs, e'). Uncrossed e'.book) (process e cmd)
  process-Uncrossed e cmd i u = process_keeps Uncrossed-Preserved e cmd i (HasWord-AtMost cmd i) u

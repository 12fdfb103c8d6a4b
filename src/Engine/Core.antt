-- ===== src/Engine/Core.antt =====
-- crates/engine/src/engine.rs: the commands of the engine over the book and the accounts. `none` is a panic.
pub mod Cases
pub mod Sequence
pub mod Orders
pub mod Answers
pub mod Returns
pub mod Books
pub mod Index
pub mod Consistent
pub mod Depth
pub mod Uncrossed
pub mod Replay
pub mod Same
use high_perf_trading.Base.{
  ℕ, suc, ℤ, pos, Bool, true, false, ◌&&◌, ◌||◌, not, Option, none, some, List, [], ◌∷◌, ◌++◌, ◌==◌,
  if◌then◌else◌, ltb_ℤ, leb_ℤ, ◌>>=◌,
}
use high_perf_trading.Base.Word.{inc_u64, add_i64, sub_i64}
use high_perf_trading.Types.{
  OrderId, AccountId, SymbolId, Side, opposite, is_gtc, Price, Qty, NewOrder, Replace,
  SetRiskLimits, QueryAccount, Command, new_order, cancel, replace, set_risk_limits, query_account,
  authenticate, Event, ack, reject, fill, book_top, account_state, RejectReason, invalid, not_found,
  post_only_would_cross, overloaded, default_limits,
}
use high_perf_trading.Types
use high_perf_trading.Engine.Slab.{SlabApi, Order}
use high_perf_trading.Engine.Book.{OrderBook, best_bid, best_ask, would_cross, insert_resting}
use high_perf_trading.Engine.Book
use high_perf_trading.Engine.Matching.{MatchFill, match_taker}
use high_perf_trading.Engine.Accounts.{
  AccountManager, check_risk, apply_fill, set_limits, get_position, get_limits,
}
use high_perf_trading.Engine.Accounts
use high_perf_trading.Engine.State.{
  Engine, Step, bump_seq, ack_event, reject_event, single, conclude, settle_fills, filled_from,
}

module _ ⦃slab : SlabApi⦄ where
  abbrev pub resting_order : NewOrder → Qty → Order
  resting_order order qty = record {
    order_id = order.order_id;
    account_id = order.account_id;
    symbol_id = order.symbol_id;
    side = order.side;
    price = order.price;
    qty_rem = qty;
    tif = order.tif;
    flags = order.flags;
  }

  abbrev pub rest : Engine → NewOrder → Qty → Engine
  rest e order qty = record e { book = insert_resting e.book (resting_order order qty) }

  -- What the fills leave of the order rests, if it is good till cancelled.
  unfoldable pub rest_remainder : Engine → NewOrder → List MatchFill → Engine
  rest_remainder e order fills =
      let rem = sub_i64 order.qty (filled_from (pos 0) fills) in
      if ltb_ℤ (pos 0) rem && is_gtc order.tif then rest e order rem else e

  -- The branch that matches.
  unfoldable pub handle_crossing : Engine → NewOrder → Option Step
  handle_crossing e order =
      match_taker e.book order.order_id order.side order.price order.qty >>= λ (book, fills).
      settle_fills (record e { book = book }) order fills >>= λ (evs, e').
      let (last, e'') = conclude (rest_remainder e' order fills) order.client_seq order.order_id in
      some (evs ++ last, e'')

  -- The branch that does not.
  unfoldable pub handle_passive : Engine → NewOrder → Step
  handle_passive e order =
      conclude (if is_gtc order.tif then rest e order order.qty else e) order.client_seq
        order.order_id

  abbrev pub refuse : Engine → ℕ → OrderId → RejectReason → Step
  refuse e client_seq order_id reason = single (reject_event e client_seq (some order_id) reason)

  unfoldable pub handle_new : Engine → NewOrder → Option Step
  handle_new e order =
      if not (order.symbol_id == e.book.symbol_id) || leb_ℤ order.qty (pos 0)
      then some (refuse e order.client_seq order.order_id invalid)
      else elim (check_risk e.account_manager order.account_id order.side order.qty) [
        | some reason ↦ some (refuse e order.client_seq order.order_id reason)
        | none ↦
            let crosses = would_cross e.book order.side order.price in
            if order.flags.post_only && crosses
            then some (refuse e order.client_seq order.order_id post_only_would_cross)
            else if crosses
            then handle_crossing e order
            else some (handle_passive e order)
      ]

  unfoldable pub handle_set_risk_limits : Engine → SetRiskLimits → Step
  handle_set_risk_limits e srl = single (
      ack_event
        (record e { account_manager = set_limits e.account_manager srl.account_id srl.limits })
        srl.client_seq 0)

  unfoldable pub handle_query_account : Engine → QueryAccount → Step
  handle_query_account e qa = (
    account_state (record {
      server_seq = e.server_seq;
      client_seq = qa.client_seq;
      account_id = qa.account_id;
      symbol_id = qa.symbol_id;
      position = get_position e.account_manager qa.account_id;
      risk_limits = get_limits e.account_manager qa.account_id;
    })
        ∷ [],
    bump_seq e,
  )

  unfoldable pub handle_cancel : Engine → Types.Cancel → Step
  handle_cancel e c =
      if not (c.symbol_id == e.book.symbol_id)
      then refuse e c.client_seq c.order_id invalid
      else let (found, book) = Book.cancel e.book c.order_id c.account_id in
        if found
        then conclude (record e { book = book }) c.client_seq c.order_id
        else refuse (record e { book = book }) c.client_seq c.order_id not_found

  -- The order that a replace makes of the one that rests.
  abbrev pub replacement : Replace → Order → NewOrder
  replacement r o = record {
    client_seq = r.client_seq;
    order_id = r.order_id;
    account_id = r.account_id;
    symbol_id = r.symbol_id;
    side = o.side;
    price = r.new_price;
    qty = r.new_qty;
    tif = o.tif;
    flags = o.flags;
  }

  unfoldable pub handle_replace : Engine → Replace → Option Step
  handle_replace e r =
      if not (r.symbol_id == e.book.symbol_id) || leb_ℤ r.new_qty (pos 0)
      then some (refuse e r.client_seq r.order_id invalid)
      else let missing = some (refuse e r.client_seq r.order_id not_found) in
        elim (Book.get e.book r.order_id) [
          | none ↦ missing
          | some o ↦
              if o.account_id == r.account_id
              then handle_new (record e { book = (Book.cancel e.book r.order_id r.account_id).1 })
                  (replacement r o)
              else missing
        ]

  unfoldable pub process : Engine → Command → Option Step
  process e (new_order order) = handle_new e order
  process e (set_risk_limits srl) = some (handle_set_risk_limits e srl)
  process e (query_account qa) = some (handle_query_account e qa)
  process e (authenticate a) = some ([], e)
  process e (cancel c) = some (handle_cancel e c)
  process e (replace r) = handle_replace e r

  abbrev pub counted : Engine → Engine
  counted e = record e { command_seq = inc_u64 e.command_seq }

  unfoldable pub replay_command : Engine → Command → Option Engine
  replay_command e (new_order order) = handle_new e order >>= λ (evs, e'). some (counted e')
  replay_command e (cancel c) =
      some (counted (record e { book = (Book.cancel e.book c.order_id c.account_id).1 }))
  replay_command e (replace r) = process e (replace r) >>= λ (evs, e'). some (counted e')
  replay_command e (set_risk_limits srl) = some (counted (handle_set_risk_limits e srl).1)
  replay_command e (query_account qa) = some (counted (handle_query_account e qa).1)
  replay_command e (authenticate a) = some (counted e)

  unfoldable pub replay : Engine → List Command → Option Engine
  replay e [] = some e
  replay e (cmd ∷ cmds) = replay_command e cmd >>= λ e'. replay e' cmds

  -- What `run` does with one command, less the journal and the sending of the events.
  unfoldable pub run_command : Engine → Command → Option Step
  run_command e cmd = process e cmd >>= λ (evs, e'). some (evs, counted e')

  -- Made outside `process`: the caller sends the event.
  unfoldable pub reject_overloaded : Engine → ℕ → Event × Engine
  reject_overloaded e client_seq = (
    reject (record {
      server_seq = e.server_seq;
      client_seq = client_seq;
      order_id = none;
      reason = overloaded;
    }),
    bump_seq e,
  )

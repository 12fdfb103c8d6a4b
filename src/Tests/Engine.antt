-- ===== src/Tests/Engine.antt =====
-- Runs of the engine of crates/engine/src.
use high_perf_trading.Base.{
  ℕ, ◌^◌, pos, false, Option, none, some, List, [], ◌∷◌, ◌≡◌, refl, ◌≤ℤ◌, arith, Holds,
  if◌then◌else◌, ◌==◌,
}
use high_perf_trading.Base.Int.{◌+ℤ◌, ◌-ℤ◌, ◌*ℤ◌}
use high_perf_trading.Base.Word.{wrap_i64, inc_u64}
use high_perf_trading.Types.{
  Side, buy, sell, gtc, ioc, OrderId, AccountId, Price, Qty, Command, NewOrder, new_order, cancel,
  Event, default_limits, opposite,
}
use high_perf_trading.Types
use high_perf_trading.Engine.Slab.Sample.{sample_slab}
use high_perf_trading.Engine.Book.{insert_resting}
use high_perf_trading.Engine.Book
use high_perf_trading.Engine.Accounts.{
  AccountManager, apply_fill, get_position, get_limits, check_risk, moved,
}
use high_perf_trading.Engine.Accounts
use high_perf_trading.Engine.Accounts.Positions.{net, apply_fill-net}
use high_perf_trading.Engine.Accounts.Risk.{Filled, apply_fills, check_risk-apply_fills}
use high_perf_trading.Engine.Matching.{match_taker}
use high_perf_trading.Engine.State.{settle_fills, conclude, filled_from, Engine, new_engine}
use high_perf_trading.Engine.Core.{
  rest_remainder, handle_new, handle_passive, handle_crossing, process, run_command, replay_command,
}
use high_perf_trading.Engine.Core.Sequence.{process-Numbered, StepNumbered}
use high_perf_trading.Engine.Core.Replay.{replay_command-Agree, replay_foreign_cancel, Agree}
use high_perf_trading.Engine.Core.Answers.{process-Answers, Answers}
use high_perf_trading.Engine.Core.Orders.{handle_new-NeverRests, NeverRests}
use high_perf_trading.Engine.Core.Returns.{process-Returns, Returns, Within}
use high_perf_trading.Base.HashMap
use high_perf_trading.Tests.Matching.{sellers, sellers-Sound, sellers-Uncrossed}
use high_perf_trading.Engine.Book.Aggregate.Top.{Quotes}
use high_perf_trading.Engine.Book.Uncrossed.{Uncrossed}
use high_perf_trading.Engine.Core.Depth.{Sound, process-Sound}
use high_perf_trading.Engine.Core.Uncrossed.{process-Uncrossed}
use high_perf_trading.Engine.Server.Recovery.{run_commands}
use high_perf_trading.Engine.Server.Quotes.{run_commands-Quotes}

-- An engine over the book `sellers`.
abbrev engine : Engine
engine = record new_engine { book = sellers }

abbrev buy_order : NewOrder
buy_order = record {
  client_seq = 1;
  order_id = 20;
  account_id = 3;
  symbol_id = 1;
  side = buy;
  price = pos 105;
  qty = pos 6;
  tif = gtc;
  flags = record { post_only = false };
}

abbrev next_number : Option (List Event × Engine) → ℕ
next_number none = 0
next_number (some (evs, e)) = e.server_seq

-- Two fills, the top of the book and the ack.
test_process : next_number (process engine (new_order buy_order)) ≡ 5
unfolding process new_engine insert_resting Book.new wrap_i64 ◌+ℤ◌ ◌-ℤ◌ ◌*ℤ◌ sample_slab handle_new
    check_risk Book.would_cross handle_crossing match_taker settle_fills conclude inc_u64
    rest_remainder filled_from
test_process = refl

process-Numbered_example : Holds (StepNumbered engine) (process engine (new_order buy_order))
process-Numbered_example = process-Numbered engine (new_order buy_order)

test_replay_command :
    Agree (run_command engine (new_order buy_order)) (replay_command engine (new_order buy_order))
test_replay_command = replay_command-Agree engine (new_order buy_order) tt

process-Answers_example :
    Holds (λ (evs, e'). Answers (new_order buy_order) evs) (process engine (new_order buy_order))
process-Answers_example = process-Answers engine (new_order buy_order)

-- A new engine's accounts are all flat.
engine-Within : Within (2 ^ 62) engine.account_manager
unfolding new_engine Accounts.new get_position HashMap.get
engine-Within a = (omega arith, omega arith)

process-Returns_example : Returns (process engine (new_order buy_order))
process-Returns_example = process-Returns engine (new_order buy_order) engine-Within (omega arith)

abbrev ioc_order : NewOrder
ioc_order = record buy_order { qty = pos 60; tif = ioc }

handle_new-NeverRests_example : Holds (NeverRests engine ioc_order) (handle_new engine ioc_order)
handle_new-NeverRests_example = handle_new-NeverRests engine ioc_order refl

-- The second order of `sellers`, cancelled under another symbol.
abbrev foreign_cancel : Types.Cancel
foreign_cancel = record { client_seq = 2; order_id = 12; account_id = 2; symbol_id = 7 }

replay_foreign_cancel_example :
    ((evs : List Event) × (e' : Engine) × (run_command engine (cancel foreign_cancel)
        ≡ some (evs, e'))
      × (e'.book ≡ sellers))
    × ((f : Engine) × (replay_command engine (cancel foreign_cancel) ≡ some f)
        × (Book.get f.book 12 ≡ none))
unfolding Book.find_owned insert_resting Book.new sample_slab
replay_foreign_cancel_example = replay_foreign_cancel engine foreign_cancel (omega arith) refl

-- The accounts of an engine that starts, after account 3 bought four.
abbrev accounts : AccountManager
accounts = Accounts.new default_limits

apply_fill-net_example :
    (m' : AccountManager) × (apply_fill accounts 3 sell (pos 101) (pos 4) ≡ some m')
    × ((b : AccountId)
        → net m' b ≡ (if 3 == b then moved sell (net accounts 3) (pos 4) else net accounts b))
    × ((b : AccountId) → get_limits m' b ≡ get_limits accounts b)
unfolding Accounts.new get_position
apply_fill-net_example =
    apply_fill-net accounts 3 sell (pos 101) (pos 4) (omega arith) (omega arith)

-- The order of four fills in two parts.
abbrev parts : List (Price × Qty)
parts = (pos 101, pos 3) ∷ (pos 102, pos 1) ∷ []

check_risk-apply_fills_example :
    (pos 4 ≤ℤ (get_limits accounts 3).max_order_size)
    × Filled accounts 3 sell 4 (apply_fills accounts 3 sell parts)
unfolding check_risk Accounts.new get_position get_limits wrap_i64 ◌+ℤ◌ ◌-ℤ◌
check_risk-apply_fills_example =
    check_risk-apply_fills accounts 3 sell (pos 4) parts (omega arith) (omega arith) (omega arith)
      refl (omega arith) (omega arith)

process-Sound_example : Holds (λ (evs, e'). Sound 26 e'.book) (process engine (new_order buy_order))
unfolding new_engine
process-Sound_example =
    process-Sound engine (new_order buy_order) 20 6 (omega arith) (omega arith) (omega arith)
      sellers-Sound

process-Uncrossed_example :
    Holds (λ (evs, e'). Uncrossed e'.book) (process engine (new_order buy_order))
unfolding new_engine
process-Uncrossed_example =
    process-Uncrossed engine (new_order buy_order) (omega arith) sellers-Uncrossed

-- A sale that the purchase then takes in part.
abbrev sell_order : NewOrder
sell_order = record buy_order { order_id = 19; account_id = 4; side = sell; qty = pos 9 }

run_commands-Quotes_example :
    Holds
      (λ e.
        Quotes e.book buy (Book.best_bid e.book)
        × Quotes e.book sell (Book.best_ask e.book)
        × Uncrossed e.book)
      (run_commands new_engine (new_order sell_order ∷ new_order buy_order ∷ []))
run_commands-Quotes_example =
    run_commands-Quotes (new_order sell_order ∷ new_order buy_order ∷ [])
      (omega arith, (omega arith, tt)) (omega arith)

quoted : Option Engine → Option (Price × Qty)
quoted none = none
quoted (some e) = Book.best_ask e.book

test_run_commands :
    quoted (run_commands new_engine (new_order sell_order ∷ new_order buy_order ∷ []))
    ≡ some (pos 105, pos 3)
unfolding quoted run_commands run_command process new_engine insert_resting Book.new wrap_i64 ◌+ℤ◌
    ◌-ℤ◌ ◌*ℤ◌ sample_slab handle_new check_risk Book.would_cross handle_crossing handle_passive
    match_taker settle_fills conclude inc_u64 rest_remainder filled_from Accounts.new
test_run_commands = refl

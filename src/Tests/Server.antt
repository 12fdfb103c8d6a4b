-- ===== src/Tests/Server.antt =====
-- Runs of the engine's loop and of its restart, in crates/engine/src/engine.rs.
use high_perf_trading.Base.{
  ◌<◌, ◌^◌, pos, true, false, none, some, List, [], ◌∷◌, ◌≡◌, refl, All, Holds, arith, unwrap_or,
}
use native.Mathlib.Decide.{dec_lt}
use high_perf_trading.Base.Int.{◌+ℤ◌, ◌-ℤ◌, ◌*ℤ◌}
use high_perf_trading.Base.Word.{wrap_i64, inc_u64}
use high_perf_trading.Types.{Command, sell}
use high_perf_trading.Journal.Sample.{sample_commands, sample_crc, sample_file}
use high_perf_trading.Journal.Frames.{all_of, Read}
use high_perf_trading.Journal.Log.{open_with_config, append, flush, read_journal}
use high_perf_trading.Journal.Log.Success.{FileWorks, Serializes}
use high_perf_trading.Engine.Slab.Sample.{sample_slab}
use high_perf_trading.Engine.Book.{insert_resting}
use high_perf_trading.Engine.Book
use high_perf_trading.Engine.Accounts.{check_risk}
use high_perf_trading.Engine.State.{Engine, new_engine, conclude}
use high_perf_trading.Engine.Core.{
  process, run_command, replay, handle_new, handle_passive, handle_cancel,
}
use high_perf_trading.Engine.Core.Consistent.{Consistent, process-Consistent, new-Consistent}
use high_perf_trading.Engine.Core.Replay.{SameState}
use high_perf_trading.Engine.Snapshot.{
  Snapshot, take_snapshot, restore_snapshot, restore_from_persistence,
}
use high_perf_trading.Engine.Snapshot.Directory.{whole, save, load_latest}
use high_perf_trading.Engine.Snapshot.Restart.{wanted, restored, restore-load_latest-save}
use high_perf_trading.Engine.Book.Aggregate.Books.{BookFits}
use high_perf_trading.Engine.Accounts
use high_perf_trading.Journal.Directory.{snapshots}
use high_perf_trading.Tests.Matching.{order_at}
use high_perf_trading.Engine.Snapshot.Sample.{sample_orders, sample_accounts, sample_engines}
use high_perf_trading.Engine.Server.{Inbound, Outbound, Answers, Server, run}
use high_perf_trading.Engine.Server.Recovery.{IsFor, run_commands, SameEnd, replay-SameEnd}
use high_perf_trading.Engine.Server.Restart.{restore-run}
use high_perf_trading.Engine.Snapshot.Replay.{restore-short_journal}
use high_perf_trading.Tests.Journal.{
  first_command, second_command, first-IsSmall, second-IsSmall, opened, opened-Logged,
}

new_engine-Consistent : Consistent new_engine.book
unfolding new_engine
new_engine-Consistent = new-Consistent 1

test_process-Consistent : Holds (λ (evs, e'). Consistent e'.book) (process new_engine first_command)
test_process-Consistent =
    process-Consistent new_engine first_command (omega arith) new_engine-Consistent

abbrev both : List Command
both = first_command ∷ second_command ∷ []

both-IsFor : All (IsFor 1) both
both-IsFor = (omega arith, (refl, tt))

own-IsFor : All (IsFor new_engine.book.symbol_id) both
unfolding new_engine Book.new
own-IsFor = both-IsFor

replay-SameEnd_example : SameEnd (run_commands new_engine both) (replay new_engine both)
replay-SameEnd_example = replay-SameEnd both new_engine new_engine own-IsFor (refl, refl, refl)

abbrev answers : Answers
answers = record {
  closes_after = none;
  elapsed = false;
  saved = true;
  renamed = true;
  opened = true;
}

-- The order, then its cancel, from connection 8.
abbrev inputs : List (Answers × Inbound)
inputs =
    (answers, record { conn_id = 8; cmd = first_command })
    ∷ (answers, record { conn_id = 8; cmd = second_command })
    ∷ []

abbrev server : Server
server = record { engine = new_engine; journal = opened; snapshot_interval = 0; snapshots = [] }

abbrev ended : List Outbound × Server
ended = unwrap_or (run inputs server) ([], server)

server-works : FileWorks
unfolding sample_file
server-works = record { written = λ f bytes. refl; synced = λ f. refl }

server-Serializes : Serializes Command
unfolding sample_commands
server-Serializes cmd = refl

restore-run_example :
    (read : Read Command) × (e : Engine) × (read_journal ended.1.journal ≡ some read)
    × (restore_from_persistence new_engine (some none) read ≡ some (e, true))
    × SameState ended.1.engine e
unfolding run new_engine process insert_resting Book.new wrap_i64 ◌+ℤ◌ ◌-ℤ◌ ◌*ℤ◌ sample_slab
    handle_new check_risk Book.would_cross handle_passive conclude inc_u64 run_command handle_cancel
    Book.cancel open_with_config sample_file append flush sample_commands sample_crc
restore-run_example =
    restore-run server-works server-Serializes inputs server ended.1 ended.0 refl opened-Logged refl
      (first-IsSmall, (second-IsSmall, tt)) both-IsFor (refl, (refl, tt)) refl

-- An engine with an order at rest that has processed three commands, and its snapshot.
abbrev resting_engine : Engine
resting_engine = record new_engine {
  book = insert_resting (Book.new 1) (order_at 14 2 sell (pos 110) (pos 9));
  command_seq = 3;
}

abbrev snapshot : Snapshot
snapshot = record {
  sequence = 3;
  «data» = 10 ∷ 14 ∷ 2 ∷ 1 ∷ 1 ∷ 0 ∷ 110 ∷ 0 ∷ 9 ∷ 0 ∷ 0 ∷ 0 ∷ 10000 ∷ 0 ∷ 10000 ∷ 0 ∷ 1000 ∷ [];
}

-- A journal of two commands is shorter.
restore-short_journal_example :
    restore_from_persistence new_engine (some (some snapshot)) (all_of both)
    ≡ some ((restore_snapshot new_engine snapshot).0, true)
unfolding restore_snapshot sample_orders sample_accounts sample_engines
restore-short_journal_example = restore-short_journal new_engine snapshot both refl (omega arith)

taken : take_snapshot resting_engine ≡ some snapshot
unfolding take_snapshot new_engine insert_resting Book.new sample_slab sample_orders sample_accounts
    sample_engines Book.live_orders Accounts.new dec_lt
taken = refl

few_wanted : wanted (Book.live_orders resting_engine.book) < 2 ^ 63
unfolding new_engine insert_resting Book.new sample_slab Book.live_orders dec_lt
few_wanted = omega arith

restore-load_latest-save_example :
    (restore_from_persistence new_engine (load_latest (save whole snapshot []).1) (all_of both)
      ≡ some (restored resting_engine new_engine, true))
    × BookFits
        (wanted (Book.live_orders resting_engine.book))
        (restored resting_engine new_engine).book
unfolding snapshots
restore-load_latest-save_example =
    restore-load_latest-save resting_engine new_engine snapshot [] both taken (omega arith)
      (omega arith) tt (omega arith) few_wanted

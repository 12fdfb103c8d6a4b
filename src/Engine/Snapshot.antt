-- ===== src/Engine/Snapshot.antt =====
-- Snapshots of the engine: `Snapshot` of crates/persistence/src/lib.rs, and `take_snapshot` and
-- `restore_from_persistence` of crates/engine/src/engine.rs.
pub mod File
pub mod Directory
pub mod Replay
pub mod Restart
pub mod Sample
use high_perf_trading.Base.{
  ℕ, zero, suc, Bool, true, false, Option, none, some, List, [], ◌∷◌, ◌>>=◌,
}
use high_perf_trading.Base.Word.{inc_u64}
use high_perf_trading.Types.{Text, Command}
use high_perf_trading.Journal.Postcard.{PostcardApi}
use high_perf_trading.Journal.Frames.{Read, all_of, read_error}
use high_perf_trading.Engine.Slab.{SlabApi, Order}
use high_perf_trading.Engine.Book.{OrderBook, serialize_snapshot}
use high_perf_trading.Engine.Book
use high_perf_trading.Engine.Accounts.{AccountManager}
use high_perf_trading.Engine.State.{Engine}
use high_perf_trading.Engine.Core.{replay}

pub record Snapshot : Type 0 where
  pub sequence : ℕ
  pub «data» : Text

-- The struct inside both functions.
pub record EngineSnapshot : Type 0 where
  pub book : Text
  pub accounts : Text

abbrev pub drop {ℓ} : {A : Type ℓ} → ℕ → List A → List A
drop zero xs = xs
drop (suc n) [] = []
drop (suc n) (x ∷ xs) = drop n xs

module _ ⦃slab : SlabApi⦄ ⦃orders_bytes : PostcardApi (List Order)⦄
    ⦃accounts_bytes : PostcardApi AccountManager⦄ ⦃engine_bytes : PostcardApi EngineSnapshot⦄ where
  -- The snapshot that `take_snapshot` saves; `none` is an error of the serializer.
  unfoldable pub take_snapshot : Engine → Option Snapshot
  unfolding serialize_snapshot
  take_snapshot e = serialize_snapshot orders_bytes.to_bytes e.book >>= λ book.
      accounts_bytes.to_bytes e.account_manager >>= λ accounts.
      engine_bytes.to_bytes (record { book = book; accounts = accounts }) >>= λ bytes.
      some (record { sequence = e.command_seq; «data» = bytes })

  -- An error leaves what was restored before it.
  abbrev pub restore_accounts : Engine → ℕ → OrderBook → Option AccountManager → Engine × Bool
  restore_accounts e sequence book none = (record e { book = book }, false)
  restore_accounts e sequence book (some accounts) = (
    record e {
      book = book;
      account_manager = accounts;
      command_seq = sequence;
      server_seq = inc_u64 sequence;
    },
    true,
  )

  abbrev pub restore_book : Engine → ℕ → Text → Option OrderBook → Engine × Bool
  restore_book e sequence accounts none = (e, false)
  restore_book e sequence accounts (some book) =
      restore_accounts e sequence book (accounts_bytes.from_bytes accounts)

  abbrev pub restore_combined : Engine → ℕ → Option EngineSnapshot → Engine × Bool
  restore_combined e sequence none = (e, false)
  restore_combined e sequence (some combined) =
      restore_book e sequence combined.accounts
        (Book.restore_from_snapshot orders_bytes.from_bytes e.book combined.book)

  unfoldable pub restore_snapshot : Engine → Snapshot → Engine × Bool
  unfolding Book.restore_from_snapshot
  restore_snapshot e snapshot =
      restore_combined e snapshot.sequence (engine_bytes.from_bytes snapshot.«data»)

  -- What `load_latest` returned: an error, no snapshot, or the latest one.
  abbrev pub restore_loaded : Engine → Option (Option Snapshot) → Engine × Bool
  restore_loaded e none = (e, false)
  restore_loaded e (some none) = (e, true)
  restore_loaded e (some (some snapshot)) = restore_snapshot e snapshot

  -- The commands from the engine's number on are replayed; `none` is a panic.
  abbrev pub replay_read : Engine → Read Command → Option (Engine × Bool)
  replay_read e (read_error x) = some (e, false)
  replay_read e (all_of cmds) = replay e (drop e.command_seq cmds) >>= λ e'. some (e', true)

  abbrev pub and_replay : Read Command → Engine × Bool → Option (Engine × Bool)
  and_replay journal (e, false) = some (e, false)
  and_replay journal (e, true) = replay_read e journal

  -- The engine after it, and whether it returned `Ok`. `journal` is what `read_all` returned.
  unfoldable pub restore_from_persistence :
      Engine → Option (Option Snapshot) → Read Command → Option (Engine × Bool)
  unfolding restore_snapshot replay
  restore_from_persistence e loaded journal = and_replay journal (restore_loaded e loaded)

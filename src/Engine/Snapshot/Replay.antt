-- ===== src/Engine/Snapshot/Replay.antt =====
-- Restoring from a snapshot and the journal behind it, in crates/engine/src/engine.rs.
use high_perf_trading.Base.{
  ℕ, zero, suc, Bool, true, Option, none, some, List, [], ◌∷◌, ◌≡◌, refl, ap, ◌∙◌, ◌>>=◌, ◌≤◌,
  length, arith,
}
use high_perf_trading.Types.{Command, Text}
use high_perf_trading.Journal.Postcard.{PostcardApi}
use high_perf_trading.Journal.Frames.{all_of}
use high_perf_trading.Engine.Slab.{SlabApi, Order}
use high_perf_trading.Engine.Book.{OrderBook}
use high_perf_trading.Engine.Accounts.{AccountManager}
use high_perf_trading.Engine.State.{Engine}
use high_perf_trading.Engine.Core.{replay}
use high_perf_trading.Engine.Snapshot.{
  EngineSnapshot, and_replay, restore_from_persistence, drop, restore_snapshot,
}
use high_perf_trading.Engine.Snapshot

drop_all {ℓ} : {A : Type ℓ} (n : ℕ) (xs : List A) → length xs ≤ n → drop n xs ≡ []
drop_all zero [] h = refl
drop_all (suc n) [] h = refl
drop_all zero (x ∷ xs) h = absurd (omega arith)
drop_all (suc n) (x ∷ xs) h = drop_all n xs (omega arith)

module _ ⦃slab : SlabApi⦄ ⦃orders_bytes : PostcardApi (List Order)⦄
    ⦃accounts_bytes : PostcardApi AccountManager⦄ ⦃engine_bytes : PostcardApi EngineSnapshot⦄ where
  -- A snapshot that is restored without an error sets the command number to its sequence.
  sequence-restore_snapshot :
      (e : Engine) (s : Snapshot.Snapshot)
      → (restore_snapshot e s).1 ≡ true
      → (restore_snapshot e s).0.command_seq ≡ s.sequence
  unfolding restore_snapshot
  sequence-restore_snapshot e s = combined (engine_bytes.from_bytes s.«data»)
    where
      accounts :
          (book : OrderBook) (a : Option AccountManager)
          → (Snapshot.restore_accounts e s.sequence book a).1 ≡ true
          → (Snapshot.restore_accounts e s.sequence book a).0.command_seq ≡ s.sequence
      accounts book none h = cc
      accounts book (some a) h = refl

      books :
          (text : Text) (b : Option OrderBook)
          → (Snapshot.restore_book e s.sequence text b).1 ≡ true
          → (Snapshot.restore_book e s.sequence text b).0.command_seq ≡ s.sequence
      books text none h = cc
      books text (some b) h = accounts b _ h

      combined :
          (c : Option EngineSnapshot)
          → (Snapshot.restore_combined e s.sequence c).1 ≡ true
          → (Snapshot.restore_combined e s.sequence c).0.command_seq ≡ s.sequence
      combined none h = cc
      combined (some c) h = books c.accounts _ h

  -- If the latest snapshot is restored without an error, and the journal holds no more commands than the
  -- sequence of the snapshot, then the engine ends with the state of the snapshot: of the journal, which
  -- may have been rotated since, no command is replayed.
  pub restore-short_journal :
      (e : Engine) (s : Snapshot.Snapshot) (cmds : List Command)
      → (restore_snapshot e s).1 ≡ true
      → length cmds ≤ s.sequence
      → restore_from_persistence e (some (some s)) (all_of cmds)
        ≡ some ((restore_snapshot e s).0, true)
  unfolding restore_from_persistence replay
  restore-short_journal e s cmds ok short =
      ap (and_replay (all_of cmds)) (pair_of (restore_snapshot e s) ok)
      ∙ ap (λ c. replay (restore_snapshot e s).0 c >>= λ e'. some (e', true))
          (drop_all _ cmds (rw (sequence-restore_snapshot e s ok) short))
    where
      pair_of : (r : Engine × Bool) → r.1 ≡ true → r ≡ (r.0, true)
      pair_of r h = cc h

-- ===== src/Engine/Snapshot/Restart.antt =====
-- A snapshot that crates/engine/src/engine.rs took, and the engine that is restored from it.
use high_perf_trading.Base.{
  ℕ, ◌+◌, ◌<◌, ◌≤◌, ◌^◌, pos, pos_part, true, Option, none, some, List, [], ◌∷◌, ◌>>=◌, length, All,
  ◌≡◌, refl, ap, sym, ◌∙◌, subst, ◌<ℤ◌, one_part, arith, some_injective,
}
use mathlib.Core.List.{filter}
use mathlib.Core.Logic.{ite}
use native.Mathlib.Decide.{dec_lt}
use high_perf_trading.Base.Word.{inc_u64}
use high_perf_trading.Types.{Command}
use high_perf_trading.Journal.Postcard.{PostcardApi, CrcApi}
use high_perf_trading.Journal.Frames.{all_of}
use high_perf_trading.Journal.Directory.{Directory, snapshots}
use high_perf_trading.Journal.Directory.Written.{Numbered}
use high_perf_trading.Engine.Slab.{SlabApi, Order}
use high_perf_trading.Engine.Book.{
  OrderBook, new, insert_all, insert_resting, live_orders, serialize_snapshot,
  restore_from_snapshot,
}
use high_perf_trading.Engine.Book.Aggregate.Books.{BookFits, BookFits-le, new-BookFits}
use high_perf_trading.Engine.Book.Aggregate.Resting.{resting-BookFits}
use high_perf_trading.Engine.Accounts.{AccountManager}
use high_perf_trading.Engine.State.{Engine}
use high_perf_trading.Engine.Snapshot.{
  EngineSnapshot, take_snapshot, restore_accounts, restore_book, restore_combined, restore_snapshot,
  restore_from_persistence,
}
use high_perf_trading.Engine.Snapshot
use high_perf_trading.Engine.Snapshot.Directory.{
  whole, snapshot_prefix, save, load_latest, load_latest-save,
}
use high_perf_trading.Engine.Snapshot.Replay.{restore-short_journal}

-- A chain that gives a result has gone through its first step.
through :
    {A B : Type 0} (m : Option A) (f : A → Option B) (b : B)
    → (m >>= f) ≡ some b
    → (a : A) × (m ≡ some a) × (f a ≡ some b)
through none f b e = cc e
through (some a) f b e = (a, refl, e)

-- What the orders want together.
abbrev pub wanted : List Order → ℕ
wanted [] = 0
wanted (o ∷ orders) = pos_part o.qty_rem + wanted orders

module _ ⦃slab : SlabApi⦄ where
  -- Orders that want something come to rest in a book that fits them.
  insert_all-BookFits :
      (b : OrderBook) (orders : List Order) (less : ℕ)
      → All (λ o. pos 0 <ℤ o.qty_rem) orders
      → less + wanted orders < 2 ^ 63
      → BookFits less b
      → BookFits (less + wanted orders) (insert_all b orders)
  unfolding insert_all
  insert_all-BookFits b [] less p room h = BookFits-le b less (less + 0) (omega arith) h
  insert_all-BookFits b (o ∷ orders) less (p, ps) room h =
      let assoc : (less + pos_part o.qty_rem) + wanted orders
          ≡ less + (pos_part o.qty_rem + wanted orders) =
        omega arith in
      subst (λ n. BookFits n (insert_all (insert_resting b o) orders)) assoc
        (insert_all-BookFits (insert_resting b o) orders (less + pos_part o.qty_rem) ps
          (omega arith) (resting-BookFits b o p (omega arith) (omega arith) h))

  positive_filter :
      (orders : List Order)
      → All (λ o. pos 0 <ℤ o.qty_rem) (filter (λ o. dec_lt 0 (pos_part o.qty_rem)) orders)
  positive_filter [] = tt
  positive_filter (o ∷ orders) = go (dec_lt 0 (pos_part o.qty_rem)) (positive_filter orders)
    where
      rest : List Order
      rest = filter (λ x. dec_lt 0 (pos_part x.qty_rem)) orders

      go :
          (d : Dec (0 < pos_part o.qty_rem))
          → All (λ x. pos 0 <ℤ x.qty_rem) rest
          → All (λ x. pos 0 <ℤ x.qty_rem) (ite d (o ∷ rest) rest)
      go (yes p) h = (omega (arith, one_part o.qty_rem), h)
      go (no n) h = h

  live_orders_positive : (b : OrderBook) → All (λ o. pos 0 <ℤ o.qty_rem) (live_orders b)
  unfolding live_orders
  live_orders_positive b = positive_filter (slab.values b.orders)

module _ ⦃slab : SlabApi⦄ ⦃orders_bytes : PostcardApi (List Order)⦄
    ⦃accounts_bytes : PostcardApi AccountManager⦄ ⦃engine_bytes : PostcardApi EngineSnapshot⦄ where
  -- An engine with the live orders and the accounts of another.
  abbrev pub restored : Engine → Engine → Engine
  restored e f = record f {
    book = insert_all (new f.book.symbol_id) (live_orders e.book);
    account_manager = e.account_manager;
    command_seq = e.command_seq;
    server_seq = inc_u64 e.command_seq;
  }

  restore_snapshot-take_snapshot :
      (e f : Engine) (s : Snapshot.Snapshot)
      → take_snapshot e ≡ some s
      → (s.sequence ≡ e.command_seq) × (restore_snapshot f s ≡ (restored e f, true))
  unfolding take_snapshot serialize_snapshot restore_snapshot restore_from_snapshot
  restore_snapshot-take_snapshot e f s taken =
      let (book, saved, more) = through (orders_bytes.to_bytes (live_orders e.book)) _ s taken in
      let (accounts, kept, rest) = through (accounts_bytes.to_bytes e.account_manager) _ s more in
      let (bytes, packed, done) =
        through (engine_bytes.to_bytes (record { book = book; accounts = accounts })) _ s rest in
      let is : record { sequence = e.command_seq; «data» = bytes } ≡ s = some_injective done in
      (
        ap (λ x. x.sequence) (sym is),
        subst (λ x. restore_snapshot f x ≡ (restored e f, true)) is
            (ap (restore_combined f e.command_seq) (engine_bytes.from-to _ bytes packed)
              ∙ ap
                  (λ r.
                    restore_book f e.command_seq accounts
                      (r >>= λ orders. some (insert_all (new f.book.symbol_id) orders)))
                  (orders_bytes.from-to _ book saved)
              ∙ ap (restore_accounts f e.command_seq _) (accounts_bytes.from-to _ accounts kept)),
      )

  -- If an engine's snapshot, with a sequence below 10 ^ 12 and fewer than 2 ^ 32 bytes, is saved whole where
  -- no snapshot file has a greater number, and the journal holds no more commands than the sequence: an
  -- engine that restarts from that directory and that journal has the accounts and the command number of
  -- the first engine, and its live orders, which want less than 2 ^ 63 together, come to rest in an empty
  -- book, whose levels then fit its orders.
  pub restore-load_latest-save :
      ⦃crc : CrcApi⦄ (e f : Engine) (s : Snapshot.Snapshot) (d : Directory) (cmds : List Command)
      → take_snapshot e ≡ some s
      → s.sequence < 10 ^ 12
      → length s.«data» < 2 ^ 32
      → Numbered snapshot_prefix (λ k. k ≤ s.sequence) (snapshots snapshot_prefix d)
      → length cmds ≤ s.sequence
      → wanted (live_orders e.book) < 2 ^ 63
      → (restore_from_persistence f (load_latest (save whole s d).1) (all_of cmds)
          ≡ some (restored e f, true))
        × BookFits (wanted (live_orders e.book)) (restored e f).book
  restore-load_latest-save e f s d cmds taken small short h old room =
      let (number, back) = restore_snapshot-take_snapshot e f s taken in
      (
        ap (λ l. restore_from_persistence f l (all_of cmds))
              (load_latest-save s 0 d small short (omega arith) h).0
            ∙ restore-short_journal f s cmds (ap (λ r. r.1) back) old
            ∙ ap (λ r. some (r.0, true)) back,
        subst (λ n. BookFits n (restored e f).book) (plain (wanted (live_orders e.book)))
            (insert_all-BookFits (new f.book.symbol_id) (live_orders e.book) 0
              (live_orders_positive e.book) (omega arith) (new-BookFits f.book.symbol_id)),
      )
    where
      plain : (n : ℕ) → 0 + n ≡ n
      plain n = omega arith

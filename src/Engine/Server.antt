-- ===== src/Engine/Server.antt =====
-- The loop of `Engine::run` in crates/engine/src/engine.rs: a command is journalled, processed and counted,
-- and from time to time a snapshot is taken and the journal rotated.
pub mod Recovery
pub mod Quotes
pub mod Restart
use high_perf_trading.Base.{
  ℕ, zero, suc, Bool, true, false, Option, none, some, List, [], ◌∷◌, ◌++◌, ◌&&◌, ◌%◌, ◌==◌, ltb,
  if◌then◌else◌, ◌>>=◌,
}
use high_perf_trading.Types.{Command, Event}
use high_perf_trading.Journal.Postcard.{PostcardApi, CrcApi}
use high_perf_trading.Journal.File.{FileApi}
use high_perf_trading.Journal.Log.{Journal, append, should_rotate, rotate, flush}
use high_perf_trading.Engine.Slab.{SlabApi, Order}
use high_perf_trading.Engine.Accounts.{AccountManager}
use high_perf_trading.Engine.State.{Engine}
use high_perf_trading.Engine.Core.{process, counted}
use high_perf_trading.Engine.Snapshot.{Snapshot, EngineSnapshot, take_snapshot}

-- `Inbound` and `Outbound` of crates/engine/src/types.rs.
pub record Inbound : Type 0 where
  pub conn_id : ℕ
  pub cmd : Command

pub record Outbound : Type 0 where
  pub conn_id : ℕ
  pub ev : Event

-- What the clock and the file system answer in one round, and after how many events of it the channel of the
-- events is closed, if it is.
pub record Answers : Type 0 where
  pub closes_after : Option ℕ
  pub elapsed : Bool
  pub saved : Bool
  pub renamed : Bool
  pub opened : Bool

abbrev pub addressed : ℕ → List Event → List Outbound
addressed conn_id [] = []
addressed conn_id (ev ∷ evs) = record { conn_id = conn_id; ev = ev } ∷ addressed conn_id evs

module _ ⦃slab : SlabApi⦄ ⦃fs : FileApi⦄ where
  pub record Server : Type 0 where
    pub engine : Engine
    pub journal : Journal Command
    pub snapshot_interval : ℕ
    -- The snapshots that were saved, the latest last.
    pub snapshots : List Snapshot

module _ ⦃slab : SlabApi⦄ ⦃orders_bytes : PostcardApi (List Order)⦄
    ⦃accounts_bytes : PostcardApi AccountManager⦄ ⦃engine_bytes : PostcardApi EngineSnapshot⦄
    ⦃command_bytes : PostcardApi Command⦄ ⦃crc : CrcApi⦄ ⦃fs : FileApi⦄ where
  abbrev pub kept : Bool → Option Snapshot → List Snapshot → List Snapshot
  kept saved none snapshots = snapshots
  kept false (some s) snapshots = snapshots
  kept true (some s) snapshots = snapshots ++ s ∷ []

  abbrev pub snapshot_due : Server → Bool
  snapshot_due s = ltb 0 s.snapshot_interval && (s.engine.command_seq % s.snapshot_interval) == 0

  -- Snapshots and rotation; an error is only reported.
  unfoldable pub maintain : Answers → Server → Server
  unfolding take_snapshot should_rotate rotate
  maintain io s = record s {
    snapshots =
        if snapshot_due s then kept io.saved (take_snapshot s.engine) s.snapshots else s.snapshots;
    journal =
        if should_rotate s.journal then (rotate io.renamed io.opened s.journal).0 else s.journal;
  }

  -- The events that are sent before the channel is closed, and whether one is left that finds it closed.
  unfoldable pub sent : Option ℕ → List Event → List Event × Bool
  sent none evs = (evs, false)
  sent (some n) [] = ([], false)
  sent (some zero) (ev ∷ evs) = ([], true)
  sent (some (suc n)) (ev ∷ evs) = let (out, closed) = sent (some n) evs in (ev ∷ out, closed)

  -- The rest of a round; where the channel is found closed the loop ends, and the command is not counted.
  abbrev pub settled :
      Answers → Server → Inbound → Engine → List Event × Bool → Bool × (List Outbound × Server)
  settled io s inb e (out, true) = (
    true,
    (
      addressed inb.conn_id out,
      record s { engine = e; journal = (append io.elapsed s.journal inb.cmd).0 },
    ),
  )
  settled io s inb e (out, false) = (
    false,
    (
      addressed inb.conn_id out,
      maintain io
          (record s { engine = counted e; journal = (append io.elapsed s.journal inb.cmd).0 }),
    ),
  )

  abbrev pub answered :
      Answers → Server → Inbound → List Event × Engine → Option (Bool × (List Outbound × Server))
  answered io s inb (evs, e) = some (settled io s inb e (sent io.closes_after evs))

  -- One command received, and whether the loop ends with it. `none` is a panic.
  unfoldable pub serve : Answers → Server → Inbound → Option (Bool × (List Outbound × Server))
  unfolding append process maintain sent
  serve io s inb = process s.engine inb.cmd >>= answered io s inb

  abbrev pub joined : List Outbound → List Outbound × Server → Option (List Outbound × Server)
  joined out (outs, s) = some (out ++ outs, s)

  abbrev pub carry_on :
      Bool
      → List Outbound × Server
      → Option (List Outbound × Server)
      → Option (List Outbound × Server)
  carry_on true r more = some r
  carry_on false (out, s) more = more >>= joined out

  -- The commands until their channel is closed, with what is answered in each round; then a last flush.
  unfoldable pub run : List (Answers × Inbound) → Server → Option (List Outbound × Server)
  unfolding serve flush
  run [] s = some ([], record s { journal = (flush s.journal).0 })
  run ((io, inb) ∷ rest) s = serve io s inb >>= λ (stop, r). carry_on stop r (run rest r.1)

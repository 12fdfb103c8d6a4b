-- ===== src/Engine/Server/Restart.antt =====
-- Restarting the engine of crates/engine/src/engine.rs from the journal that its loop has written.
use high_perf_trading.Base.{
  Bool, false, true, Option, none, some, List, [], ◌∷◌, ◌++◌, ◌≡◌, refl, ap, sym, ◌∙◌, subst, ◌>>=◌,
  All, some_injective,
}
use mathlib.Core.List.{append_assoc, append-nil}
use high_perf_trading.Types.{Command}
use high_perf_trading.Journal.Postcard.{PostcardApi, CrcApi}
use high_perf_trading.Journal.File.{FileApi}
use high_perf_trading.Journal.Frames.{Read, all_of}
use high_perf_trading.Journal.Log.{append, should_rotate, flush, read_journal}
use high_perf_trading.Journal.Log.Order.{IsSmall, Logged, append-Logged, read_journal-flush}
use high_perf_trading.Journal.Log.Success.{
  FileWorks, Serializes, flush_works, append_works, threshold-append,
}
use high_perf_trading.Engine.Slab.{SlabApi, Order}
use high_perf_trading.Engine.Accounts.{AccountManager}
use high_perf_trading.Engine.State.{Engine, Step, new_engine}
use high_perf_trading.Engine.Core.{run_command, process, counted, replay}
use high_perf_trading.Engine.Core.Replay.{SameState}
use high_perf_trading.Engine.Snapshot.{EngineSnapshot, restore_from_persistence}
use high_perf_trading.Engine.Server.{
  sent, settled, answered, joined, carry_on, Inbound, Outbound, Answers, Server, serve, run,
  maintain,
}
use high_perf_trading.Engine.Server.Recovery.{IsFor, run_commands, SameEnd, replay-SameEnd}

abbrev pub commands : List (Answers × Inbound) → List Command
commands [] = []
commands ((io, inb) ∷ rest) = inb.cmd ∷ commands rest

-- The channel of the events is open.
abbrev pub Open : Answers × Inbound → Type 0
Open (io, inb) = io.closes_after ≡ none

module _ ⦃slab : SlabApi⦄ ⦃orders_bytes : PostcardApi (List Order)⦄
    ⦃accounts_bytes : PostcardApi AccountManager⦄ ⦃engine_bytes : PostcardApi EngineSnapshot⦄
    ⦃command_bytes : PostcardApi Command⦄ ⦃crc : CrcApi⦄ ⦃fs : FileApi⦄ where
  -- What a received command makes of the server, where the engine does not panic.
  record Served (io : Answers) (s s' : Server) (cmd : Command) : Type 0 where
    pub evs_of : Step
    pub processed : run_command s.engine cmd ≡ some evs_of
    pub engine : s'.engine ≡ evs_of.1
    pub journal :
        s'.journal
        ≡ (maintain io
            (record s { engine = evs_of.1; journal = (append io.elapsed s.journal cmd).0 })).journal

  serve-Served :
      (io : Answers) (s s' : Server) (inb : Inbound) (stop : Bool) (out : List Outbound)
      → io.closes_after ≡ none
      → serve io s inb ≡ some (stop, (out, s'))
      → (stop ≡ false) × Served io s s' inb.cmd
  unfolding serve sent maintain run_command
  serve-Served io s s' inb stop out h e = go (process s.engine inb.cmd) refl e
    where
      go :
          (r : Option Step)
          → process s.engine inb.cmd ≡ r
          → (r >>= answered io s inb) ≡ some (stop, (out, s'))
          → (stop ≡ false) × Served io s s' inb.cmd
      go none q e = cc
      go (some (evs, f)) q e =
          let all : settled io s inb f (sent io.closes_after evs)
              ≡ settled io s inb f (evs, false) =
            ap (λ c. settled io s inb f (sent c evs)) h in
          let same : (stop, (out, s')) ≡ settled io s inb f (evs, false) =
            sym (some_injective e) ∙ all in
          (
            ap (λ x. x.0) same,
            record {
              evs_of = (evs, counted f);
              processed = rw q refl;
              engine = ap (λ x. x.1.1.engine) same;
              journal = ap (λ x. x.1.1.journal) same;
            },
          )

  -- Without rotation, the upkeep leaves the journal alone.
  journal-maintain :
      (io : Answers) (s : Server)
      → s.journal.rotation_threshold ≡ 0
      → (maintain io s).journal ≡ s.journal
  unfolding maintain should_rotate
  journal-maintain io s h = rw h refl

  -- A run that does not panic, while the channel is open, serves the first command and runs on the others.
  run_parts :
      (io : Answers) (inb : Inbound) (rest : List (Answers × Inbound)) (s s' : Server)
      (outs : List Outbound)
      → io.closes_after ≡ none
      → run ((io, inb) ∷ rest) s ≡ some (outs, s')
      → (r : List Outbound × Server) × Served io s r.1 inb.cmd
        × ((more : List Outbound) × (run rest r.1 ≡ some (more, s')))
  unfolding run
  run_parts io inb rest s s' outs h e = first (serve io s inb) refl e
    where
      second :
          (out : List Outbound) (q r : Option (List Outbound × Server))
          → q ≡ r
          → (r >>= joined out) ≡ some (outs, s')
          → (more : List Outbound) × (q ≡ some (more, s'))
      second out q none h e = cc
      second out q (some (more, s'')) h e =
          (more, h ∙ ap (λ x. some (more, x.1)) (some_injective e))

      first :
          (r : Option (Bool × (List Outbound × Server)))
          → serve io s inb ≡ r
          → (r >>= λ (stop, r). carry_on stop r (run rest r.1)) ≡ some (outs, s')
          → (r : List Outbound × Server) × Served io s r.1 inb.cmd
            × ((more : List Outbound) × (run rest r.1 ≡ some (more, s')))
      first none q e = cc
      first (some (stop, (out, s1))) q e =
          let (on, served) = serve-Served io s s1 inb stop out h q in
          (
            (out, s1),
            served,
            second out (run rest s1) (run rest s1) refl
                (ap (λ t. carry_on t (out, s1) (run rest s1)) (sym on) ∙ e),
          )

module _ ⦃slab : SlabApi⦄ ⦃orders_bytes : PostcardApi (List Order)⦄
    ⦃accounts_bytes : PostcardApi AccountManager⦄ ⦃engine_bytes : PostcardApi EngineSnapshot⦄
    ⦃command_bytes : PostcardApi Command⦄ ⦃crc : CrcApi⦄ ⦃fs : FileApi⦄ (works : FileWorks)
    (total : Serializes Command) where
  -- What the run leaves behind: the journal with every command, and the engine that has processed them.
  run_ends :
      (inputs : List (Answers × Inbound)) (s s' : Server) (outs : List Outbound)
      (all : List Command)
      → Logged all s.journal
      → s.journal.rotation_threshold ≡ 0
      → All IsSmall (commands inputs)
      → All Open inputs
      → run inputs s ≡ some (outs, s')
      → (read_journal s'.journal ≡ some (all_of (all ++ commands inputs)))
        × (run_commands s.engine (commands inputs) ≡ some s'.engine)
  unfolding run run_commands
  run_ends [] s s' outs all l zero_threshold small opens e =
      let same : record s { journal = (flush s.journal).0 } ≡ s' =
        ap (λ x. x.1) (some_injective e) in
      (
        ap (λ x. read_journal x.journal) (sym same)
            ∙ read_journal-flush all s.journal l (flush_works works total s.journal)
            ∙ ap (λ c. some (all_of c)) (sym (append-nil all)),
        ap (λ x. some x.engine) same,
      )
  run_ends ((io, inb) ∷ rest) s s' outs all l zero_threshold (small, smalls) (receives, opens) e =
      let ((out, s1), v, (more, on)) = run_parts io inb rest s s' outs receives e in
      let kept = threshold-append io.elapsed s.journal inb.cmd ∙ zero_threshold in
      let journal =
        v.journal
        ∙ journal-maintain io
            (record s { engine = v.evs_of.1; journal = (append io.elapsed s.journal inb.cmd).0 })
            kept in
      let (read, ran) =
        run_ends rest s1 s' more (all ++ inb.cmd ∷ [])
          (subst (Logged (all ++ inb.cmd ∷ [])) (sym journal)
            (append-Logged io.elapsed all s.journal inb.cmd l small
              (append_works works total io.elapsed s.journal inb.cmd)).0)
          (ap (λ j. j.rotation_threshold) journal ∙ kept) smalls opens on in
      (
        read ∙ ap (λ c. some (all_of c)) (append_assoc all (inb.cmd ∷ []) (commands rest)),
        rw v.processed (ap (λ x. run_commands x (commands rest)) (sym v.engine) ∙ ran),
      )

  -- If the file takes every write, every command is serialized into a frame's size, the engine is new
  -- and its journal empty and never rotated, cancels name the engine's symbol, quantities are machine
  -- words, the channel of the events stays open and the run ends without a panic, then the journal read
  -- back replays, on a new engine without a snapshot, to the book, the accounts and the command number
  -- that the run ended with.
  pub restore-run :
      (inputs : List (Answers × Inbound)) (s s' : Server) (outs : List Outbound)
      → s.engine ≡ new_engine
      → Logged [] s.journal
      → s.journal.rotation_threshold ≡ 0
      → All IsSmall (commands inputs)
      → All (IsFor 1) (commands inputs)
      → All Open inputs
      → run inputs s ≡ some (outs, s')
      → (read : Read Command) × (e : Engine) × (read_journal s'.journal ≡ some read)
        × (restore_from_persistence new_engine (some none) read ≡ some (e, true))
        × SameState s'.engine e
  unfolding restore_from_persistence new_engine
  restore-run inputs s s' outs fresh l zero_threshold small own opens e =
      let (read, ran) = run_ends inputs s s' outs [] l zero_threshold small opens e in
      let (f, replayed, same) = replayed_to (replay new_engine (commands inputs)) (
        subst (λ x. SameEnd x (replay new_engine (commands inputs)))
          (ap (λ x. run_commands x (commands inputs)) (sym fresh) ∙ ran)
          (replay-SameEnd (commands inputs) new_engine new_engine own (refl, refl, refl))) in
      (all_of (commands inputs), f, read, rw replayed refl, same)
    where
      replayed_to :
          (q : Option Engine)
          → SameEnd (some s'.engine) q
          → (f : Engine) × (q ≡ some f) × SameState s'.engine f
      replayed_to none h = absurd h
      replayed_to (some f) h = (f, refl, h)

-- ===== src/Engine/Server/Quotes.antt =====
-- The book of an engine of crates/engine/src/engine.rs that has started and processed commands.
use high_perf_trading.Base.{
  ℕ, ◌+◌, ◌<◌, ◌^◌, pos_part, Option, none, some, List, [], ◌∷◌, ◌≡◌, arith, All, Holds, Holds-bind,
  subst,
}
use high_perf_trading.Types.{
  Command, new_order, cancel, replace, set_risk_limits, query_account, authenticate, buy, sell,
}
use high_perf_trading.Engine.Slab.{SlabApi}
use high_perf_trading.Engine.Book.{best_bid, best_ask, OrderBook}
use high_perf_trading.Engine.Book.Aggregate.Top.{Quotes, best-Quotes}
use high_perf_trading.Engine.Book.Uncrossed.{Uncrossed, new-Uncrossed}
use high_perf_trading.Engine.State.{Engine, Step, new_engine}
use high_perf_trading.Engine.Core.{process, run_command}
use high_perf_trading.Engine.Core.Books.{HasWord, AtMost}
use high_perf_trading.Engine.Core.Depth.{Sound, process-Sound, new-Sound}
use high_perf_trading.Engine.Core.Uncrossed.{process-Uncrossed}
use high_perf_trading.Engine.Server.Recovery.{run_commands}

-- The quantities that commands bring.
abbrev pub volume : Command → ℕ
volume (new_order o) = pos_part o.qty
volume (replace r) = pos_part r.new_qty
volume _ = 0

abbrev pub volumes : List Command → ℕ
volumes [] = 0
volumes (cmd ∷ cmds) = volume cmd + volumes cmds

volume-AtMost : (cmd : Command) → AtMost (volume cmd) cmd
volume-AtMost (new_order o) = omega arith
volume-AtMost (replace r) = omega arith
volume-AtMost (cancel c) = tt
volume-AtMost (set_risk_limits s) = tt
volume-AtMost (query_account q) = tt
volume-AtMost (authenticate a) = tt

module _ ⦃slab : SlabApi⦄ where
  -- A book that is sound and not crossed.
  abbrev Fine : ℕ → OrderBook → Type 0
  Fine most b = Sound most b × Uncrossed b

  Holds-both :
      (P Q : Engine → Type 0) (r : Option Step)
      → Holds (λ (evs, e). P e) r
      → Holds (λ (evs, e). Q e) r
      → Holds (λ (evs, e). P e × Q e) r
  Holds-both P Q none h k = tt
  Holds-both P Q (some s) h k = (h, k)

  run_command-Fine :
      (e : Engine) (cmd : Command) (less : ℕ)
      → HasWord cmd
      → less + volume cmd < 2 ^ 63
      → Fine less e.book
      → Holds (λ (evs, e'). Fine (less + volume cmd) e'.book) (run_command e cmd)
  unfolding run_command
  run_command-Fine e cmd less i room (s, u) =
      Holds-bind (λ (evs, e'). Fine (less + volume cmd) e'.book)
        (λ (evs, e'). Fine (less + volume cmd) e'.book) (process e cmd) _
        (Holds-both (λ e'. Sound (less + volume cmd) e'.book) (λ e'. Uncrossed e'.book)
          (process e cmd) (process-Sound e cmd less (volume cmd) i (volume-AtMost cmd) room s)
          (process-Uncrossed e cmd i u))
        λ _ _ h. h

  run_commands-Fine :
      (cmds : List Command) (e : Engine) (less : ℕ)
      → All HasWord cmds
      → less + volumes cmds < 2 ^ 63
      → Fine less e.book
      → Holds (λ e'. Fine (less + volumes cmds) e'.book) (run_commands e cmds)
  unfolding run_commands
  run_commands-Fine [] e less i room h = rw (same less) h
    where
      same : (n : ℕ) → n + 0 ≡ n
      same n = omega arith
  run_commands-Fine (cmd ∷ cmds) e less (i, is) room h =
      Holds-bind (λ (evs, e'). Fine (less + volume cmd) e'.book)
        (λ e'. Fine (less + (volume cmd + volumes cmds)) e'.book) (run_command e cmd) _
        (run_command-Fine e cmd less i (omega arith) h)
        λ (evs, e') _ next.
          subst (λ n. Holds (λ x. Fine n x.book) (run_commands e' cmds))
            (assoc less (volume cmd) (volumes cmds))
            (run_commands-Fine cmds e' (less + volume cmd) is (omega arith) next)
    where
      assoc : (a b c : ℕ) → (a + b) + c ≡ a + (b + c)
      assoc a b c = omega arith

  new_engine-Fine : Fine 0 new_engine.book
  unfolding new_engine
  new_engine-Fine = (new-Sound 1, new-Uncrossed 1)

  -- Whatever commands a new engine has processed without a panic, if their quantities are machine words
  -- that sum to less than 2 ^ 63: the best bid and the best ask are the best prices of the live orders of
  -- their sides, with the sum of what the live orders at them want, or nothing where a side has no live
  -- order; and every bid is below every ask.
  pub run_commands-Quotes :
      (cmds : List Command)
      → All HasWord cmds
      → volumes cmds < 2 ^ 63
      → Holds
          (λ e.
            Quotes e.book buy (best_bid e.book)
            × Quotes e.book sell (best_ask e.book)
            × Uncrossed e.book)
          (run_commands new_engine cmds)
  run_commands-Quotes cmds i room =
      let fine = run_commands-Fine cmds new_engine 0 i (omega arith) new_engine-Fine in
      go (run_commands new_engine cmds) fine
    where
      go :
          (r : Option Engine)
          → Holds (λ e. Fine (0 + volumes cmds) e.book) r
          → Holds
              (λ e.
                Quotes e.book buy (best_bid e.book)
                × Quotes e.book sell (best_ask e.book)
                × Uncrossed e.book)
              r
      go none h = tt
      go (some e) ((c, f), u) = (best-Quotes e.book f buy, best-Quotes e.book f sell, u)

-- ===== src/Engine/Server/Recovery.antt =====
-- Restarting the engine of crates/engine/src/engine.rs from the journal that its loop has written.
use high_perf_trading.Base.{
  Option, none, some, List, [], ◌∷◌, ◌≡◌, refl, ap, sym, ◌∙◌, subst, ◌>>=◌, All, Holds,
  some_injective,
}
use high_perf_trading.Types.{Command, SymbolId}
use high_perf_trading.Types
use high_perf_trading.Engine.Slab.{SlabApi}
use high_perf_trading.Engine.State.{Engine, Step}
use high_perf_trading.Engine.Core.{process, run_command, replay_command, replay, counted}
use high_perf_trading.Engine.Core.Books.{HasWord}
use high_perf_trading.Engine.Core.Consistent.{process-symbol}
use high_perf_trading.Engine.Core.Replay.{SameState, Agree, IsOwn, replay_command-Agree}
use high_perf_trading.Engine.Core.Same.{SameStep, run_command-SameStep}

-- A cancel names the symbol, and the quantities are machine words.
abbrev pub IsFor : SymbolId → Command → Type 0
IsFor s (Types.cancel c) = c.symbol_id ≡ s
IsFor s cmd = HasWord cmd

module _ ⦃slab : SlabApi⦄ where
  -- The commands one after another, the events let go.
  unfoldable pub run_commands : Engine → List Command → Option Engine
  run_commands e [] = some e
  run_commands e (cmd ∷ cmds) = run_command e cmd >>= λ (evs, e'). run_commands e' cmds

  -- Both panic, or both end in the same state.
  abbrev pub SameEnd : Option Engine → Option Engine → Type 0
  SameEnd none none = Unit
  SameEnd (some e) (some f) = SameState e f
  SameEnd _ _ = ⊥

  SameEnd-bind :
      (r r' : Option Step) (q : Option Engine) (k : Step → Option Engine)
      (k' : Engine → Option Engine)
      → SameStep r r'
      → Agree r' q
      → ((s : Step) (f : Engine) → r ≡ some s → SameState s.1 f → SameEnd (k s) (k' f))
      → SameEnd (r >>= k) (q >>= k')
  SameEnd-bind none none none k k' h g n = tt
  SameEnd-bind (some s) (some s') (some f) k k' (b, a, m) (b', a', m') n =
      n s f refl (b ∙ b', a ∙ a', m ∙ m')
  SameEnd-bind none none (some f) k k' h g n = absurd g
  SameEnd-bind none (some s') q k k' h g n = absurd h
  SameEnd-bind (some s) none q k k' h g n = absurd h
  SameEnd-bind (some s) (some s') none k k' h g n = absurd g

  IsFor-HasWord : (s : SymbolId) (cmd : Command) → IsFor s cmd → HasWord cmd
  IsFor-HasWord s (Types.cancel c) h = tt
  IsFor-HasWord s (Types.new_order c) h = h
  IsFor-HasWord s (Types.replace c) h = h
  IsFor-HasWord s (Types.set_risk_limits c) h = tt
  IsFor-HasWord s (Types.query_account c) h = tt
  IsFor-HasWord s (Types.authenticate c) h = tt

  IsFor-IsOwn : (e : Engine) (cmd : Command) → IsFor e.book.symbol_id cmd → IsOwn e cmd
  IsFor-IsOwn e (Types.cancel c) h = h
  IsFor-IsOwn e (Types.new_order c) h = tt
  IsFor-IsOwn e (Types.replace c) h = tt
  IsFor-IsOwn e (Types.set_risk_limits c) h = tt
  IsFor-IsOwn e (Types.query_account c) h = tt
  IsFor-IsOwn e (Types.authenticate c) h = tt

  symbol_after :
      (r : Option Step) (e : Engine) (s : Step)
      → Holds (λ (evs, e'). e'.book.symbol_id ≡ e.book.symbol_id) r
      → (r >>= λ (evs, e'). some (evs, counted e')) ≡ some s
      → s.1.book.symbol_id ≡ e.book.symbol_id
  symbol_after none e s h q = cc
  symbol_after (some r) e s h q = ap (λ x. x.1.book.symbol_id) (sym (some_injective q)) ∙ h

  -- If cancels name the symbol of the book and quantities are machine words, replaying commands from an
  -- engine with the same book, accounts and command number ends with the book, accounts and command
  -- number that processing them ended with, and panics exactly if that did.
  pub replay-SameEnd :
      (cmds : List Command) (e f : Engine)
      → All (IsFor e.book.symbol_id) cmds
      → SameState e f
      → SameEnd (run_commands e cmds) (replay f cmds)
  unfolding run_commands replay run_command
  replay-SameEnd [] e f own h = h
  replay-SameEnd (cmd ∷ cmds) e f (own, rest) h =
      SameEnd-bind (run_command e cmd) (run_command f cmd) (replay_command f cmd) _ _
        (run_command-SameStep e f cmd h)
        (replay_command-Agree f cmd
          (IsFor-IsOwn f cmd (subst (λ b. IsFor b.symbol_id cmd) h.0 own)))
        λ s f' done same.
          replay-SameEnd cmds s.1 f'
            (subst (λ x. All (IsFor x) cmds)
              (sym (
                symbol_after (process e cmd) e s (process-symbol e cmd (IsFor-HasWord _ cmd own))
                  done))
              rest)
            same

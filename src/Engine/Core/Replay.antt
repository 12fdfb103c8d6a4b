-- ===== src/Engine/Core/Replay.antt =====
-- Replaying the journal against running its commands.
use high_perf_trading.Base.{
  ℕ, Option, none, some, List, ◌≡◌, refl, ap, sym, ◌∙◌, inl, inr, ◌≢◌, arith, ◌>>=◌, Bool-cases,
  ==_refl,
}
use high_perf_trading.Types.{
  NewOrder, Replace, Command, new_order, cancel, Event, replace, set_risk_limits, query_account,
  authenticate, OrderId, RejectReason, invalid, not_found, post_only_would_cross, Qty, opposite,
  is_gtc,
}
use high_perf_trading.Types
use high_perf_trading.Engine.Slab.{SlabApi, Order}
use high_perf_trading.Engine.Book.{OrderBook, would_cross, insert_resting}
use high_perf_trading.Engine.Book
use high_perf_trading.Engine.Book.Cancel.{cancel_cases}
use high_perf_trading.Engine.State.{Engine, Step, reject_event, conclude}
use high_perf_trading.Engine.Core.{
  handle_new, handle_cancel, handle_replace, process, replay_command, run_command, counted,
}
use high_perf_trading.Engine.Book.{find_owned, cancel_found}
use high_perf_trading.Base.HashMap
use high_perf_trading.Base.TreeMap.{TreeMap}
use high_perf_trading.Base.Word.{inc_u64}

module _ ⦃slab : SlabApi⦄ where
  -- The part of the state that a recovery rebuilds.
  abbrev pub SameState : Engine → Engine → Type 0
  SameState e f =
      (e.book ≡ f.book) × (e.account_manager ≡ f.account_manager) × (e.command_seq ≡ f.command_seq)

  -- A replayed command ends as the command itself did, and panics where it did.
  abbrev pub Agree : Option Step → Option Engine → Type 0
  Agree none none = Unit
  Agree (some (evs, e)) (some f) = SameState e f
  Agree _ _ = ⊥

  -- A cancel names the book's symbol.
  abbrev pub IsOwn : Engine → Command → Type 0
  IsOwn e (cancel c) = c.symbol_id ≡ e.book.symbol_id
  IsOwn e _ = Unit

  Agree-counted :
      (r : Option Step)
      → Agree (r >>= λ (evs, e'). some (evs, counted e')) (r >>= λ (evs, e'). some (counted e'))
  Agree-counted none = tt
  Agree-counted (some (evs, e)) = (refl, refl, refl)

  handle_cancel_own :
      (e : Engine) (c : Types.Cancel)
      → c.symbol_id ≡ e.book.symbol_id
      → let e' = (handle_cancel e c).1 in
        (e'.book ≡ (Book.cancel e.book c.order_id c.account_id).1)
        × (e'.account_manager ≡ e.account_manager)
        × (e'.command_seq ≡ e.command_seq)
  unfolding handle_cancel conclude reject_event
  handle_cancel_own e c h = elim (Bool-cases (Book.cancel e.book c.order_id c.account_id).0) [
    | inl found ↦ ground arith
    | inr missing ↦ ground arith
  ]

  handle_cancel_foreign :
      (e : Engine) (c : Types.Cancel)
      → c.symbol_id ≢ e.book.symbol_id
      → (handle_cancel e c).1.book ≡ e.book
  unfolding handle_cancel conclude reject_event
  handle_cancel_foreign e c h = ground arith

  index-set_levels :
      (side : Types.Side) (m : TreeMap Book.Level) (b : OrderBook)
      → (Book.set_levels side m b).index ≡ b.index
  index-set_levels Types.buy m b = refl
  index-set_levels Types.sell m b = refl

  index-cancel_found :
      (b : OrderBook) (order_id : OrderId) (key : ℕ) (o : Order)
      → (cancel_found b order_id key o).index ≡ HashMap.remove order_id b.index
  unfolding cancel_found
  index-cancel_found b order_id key o = index-set_levels o.side _ _

  -- A cancelled order is no longer found.
  pub get-cancel_found :
      (b : OrderBook) (order_id : OrderId) (key : ℕ) (o : Order)
      → Book.get (cancel_found b order_id key o) order_id ≡ none
  unfolding Book.get
  get-cancel_found b order_id key o = rw (
    index-cancel_found b order_id key o,
    HashMap.get-remove order_id order_id b.index,
    ==_refl order_id,
  )

  -- If a cancel names the symbol of the book, replaying a command from the journal leaves the book, the
  -- accounts and the command number as processing it did, and panics exactly where that did.
  pub replay_command-Agree :
      (e : Engine) (cmd : Command) → IsOwn e cmd → Agree (run_command e cmd) (replay_command e cmd)
  unfolding replay_command run_command process
  replay_command-Agree e (new_order order) h = Agree-counted (handle_new e order)
  replay_command-Agree e (replace r) h = Agree-counted (handle_replace e r)
  replay_command-Agree e (set_risk_limits s) h = (refl, refl, refl)
  replay_command-Agree e (query_account q) h = (refl, refl, refl)
  replay_command-Agree e (authenticate a) h = (refl, refl, refl)
  replay_command-Agree e (cancel c) h =
      let (b, a, n) = handle_cancel_own e c h in (b, a, ap inc_u64 n)

  -- A cancel that names another symbol is refused by `process` with the book as it was, while `replay`
  -- carries it out: if the account has the order, it is gone from the replayed book.
  pub replay_foreign_cancel :
      (e : Engine) (c : Types.Cancel) {key : ℕ} {o : Order}
      → c.symbol_id ≢ e.book.symbol_id
      → find_owned e.book c.order_id c.account_id ≡ some (key, o)
      → ((evs : List Event) × (e' : Engine) × (run_command e (cancel c) ≡ some (evs, e'))
          × (e'.book ≡ e.book))
        × ((f : Engine) × (replay_command e (cancel c) ≡ some f)
            × (Book.get f.book c.order_id ≡ none))
  unfolding replay_command run_command process
  replay_foreign_cancel e c {key} {o} ne found = (
    (_, _, refl, handle_cancel_foreign e c ne),
    (_, refl, rw (cancel_done) (get-cancel_found e.book c.order_id key o)),
  )
    where
      cancel_done :
          (Book.cancel e.book c.order_id c.account_id).1 ≡ cancel_found e.book c.order_id key o
      cancel_done = elim (cancel_cases e.book c.order_id c.account_id) [
        | inl (missing, _) ↦ cc
        | inr (k, p, e', done) ↦ ap (λ r. r.1) done ∙ same k p (sym e' ∙ found)
      ]
        where
          same :
              (k : ℕ) (p : Order)
              → ◌≡◌ {A = Option (ℕ × Order)} (some (k, p)) (some (key, o))
              → cancel_found e.book c.order_id k p ≡ cancel_found e.book c.order_id key o
          same k p q = cc

-- ===== src/Engine/Core/Answers.antt =====
-- How the engine of crates/engine/src/engine.rs answers a command.
use high_perf_trading.Base.{
  ℕ, some, List, [], ◌∷◌, ◌++◌, ◌≡◌, refl, ◌∙◌, ◌⊎◌, inl, inr, Holds, Holds-bind, Holds-any, All,
}
use high_perf_trading.Types.{
  NewOrder, Event, ack, reject, fill, book_top, account_state, OrderId, RejectReason, opposite,
  is_gtc, Command, new_order, cancel, replace, set_risk_limits, query_account, authenticate, Side,
  Price,
}
use high_perf_trading.Types
use high_perf_trading.Engine.Slab.{SlabApi}
use high_perf_trading.Engine.Book
use high_perf_trading.Engine.Matching.{MatchFill}
use high_perf_trading.Engine.Matching.Termination.{match_taker-Run}
use high_perf_trading.Engine.Matching.Fills.{Run-FillOk, FillOk}
use high_perf_trading.Engine.State.{
  Engine, Step, conclude, settle_fill, settle_fills, ack_event, reject_event,
}
use high_perf_trading.Engine.Accounts.{apply_fill}
use high_perf_trading.Engine.Core.{
  handle_crossing, handle_passive, handle_new, handle_set_risk_limits, handle_query_account,
  process, refuse, rest_remainder, replacement,
}
use high_perf_trading.Engine.Core.Cases.{
  handle_new_cases, handle_cancel_cases, handle_replace_cases,
}

-- Fills of the order, the top of the book, and one ack.
abbrev pub Fulfils : ℕ → OrderId → List Event → Type 0
Fulfils c id (fill f ∷ evs) = (f.client_seq ≡ c) × (f.taker_order_id ≡ id) × Fulfils c id evs
Fulfils c id (book_top t ∷ ack a ∷ []) = (a.client_seq ≡ c) × (a.order_id ≡ id)
Fulfils c id _ = ⊥

abbrev pub Rejects : ℕ → OrderId → List Event → Type 0
Rejects c id (reject r ∷ []) = (r.client_seq ≡ c) × (r.order_id ≡ some id)
Rejects c id _ = ⊥

abbrev pub Decided : ℕ → OrderId → List Event → Type 0
Decided c id evs = Rejects c id evs ⊎ Fulfils c id evs

-- The answer that a command gets.
abbrev pub Answers : Command → List Event → Type 0
Answers (new_order o) evs = Decided o.client_seq o.order_id evs
Answers (cancel c) evs = Decided c.client_seq c.order_id evs
Answers (replace r) evs = Decided r.client_seq r.order_id evs
Answers (set_risk_limits s) evs =
    (a : Types.Ack) × (evs ≡ ack a ∷ []) × (a.client_seq ≡ s.client_seq)
Answers (query_account q) evs =
    (a : Types.AccountState) × (evs ≡ account_state a ∷ [])
    × (a.client_seq ≡ q.client_seq)
    × (a.account_id ≡ q.account_id)
Answers (authenticate a) evs = evs ≡ []

module _ ⦃slab : SlabApi⦄ where
  abbrev Extends : ℕ → OrderId → Step → Type 0
  Extends c id (evs, e) = (tail : List Event) → Fulfils c id tail → Fulfils c id (evs ++ tail)

  abbrev IsFillOf : ℕ → OrderId → Event × Engine → Type 0
  IsFillOf c id (ev, e) =
      (f : Types.Fill) × (ev ≡ fill f) × (f.client_seq ≡ c) × (f.taker_order_id ≡ id)

  settle_fill-IsFillOf :
      (e : Engine) (order : NewOrder) (f : MatchFill)
      → Holds (IsFillOf order.client_seq f.taker_order_id) (settle_fill e order f)
  unfolding settle_fill
  settle_fill-IsFillOf e order f =
      let P = IsFillOf order.client_seq f.taker_order_id in
      Holds-bind (λ _. Unit {0}) P
        (apply_fill e.account_manager order.account_id order.side f.price f.qty) _
        (Holds-any _ _ (λ _. tt))
        λ taken _ _.
          Holds-bind (λ _. Unit {0}) P
            (apply_fill taken f.maker_account_id (opposite order.side) f.price f.qty) _
            (Holds-any _ _ (λ _. tt)) λ settled _ _. (_, refl, refl, refl)

  settle_fills-Extends :
      (fills : List MatchFill) (e : Engine) (order : NewOrder) (limit : Price)
      → All (FillOk order.order_id order.side limit) fills
      → Holds (Extends order.client_seq order.order_id) (settle_fills e order fills)
  unfolding settle_fills
  settle_fills-Extends [] e order limit h = λ tail k. k
  settle_fills-Extends (f ∷ fills) e order limit (ok, h) =
      let P = Extends order.client_seq order.order_id in
      Holds-bind (IsFillOf order.client_seq f.taker_order_id) P (settle_fill e order f) _
        (settle_fill-IsFillOf e order f)
        λ (ev, e') _ (g, is_fill, seq, id).
          Holds-bind P P (settle_fills e' order fills) _
            (settle_fills-Extends fills e' order limit h)
            λ (evs, e'') _ later tail k. rw is_fill (seq, id ∙ ok.for_taker, later tail k)

  abbrev DecidedStep : ℕ → OrderId → Step → Type 0
  DecidedStep c id (evs, e) = Decided c id evs

  conclude-Fulfils :
      (e : Engine) (client_seq : ℕ) (order_id : OrderId)
      → Fulfils client_seq order_id (conclude e client_seq order_id).0
  unfolding conclude
  conclude-Fulfils e client_seq order_id = (refl, refl)

  refuse-Decided :
      (e : Engine) (client_seq : ℕ) (order_id : OrderId) (reason : RejectReason)
      → DecidedStep client_seq order_id (refuse e client_seq order_id reason)
  unfolding reject_event
  refuse-Decided e client_seq order_id reason = inl (refl, refl)

  handle_crossing-Decided :
      (e : Engine) (order : NewOrder)
      → Holds (DecidedStep order.client_seq order.order_id) (handle_crossing e order)
  unfolding handle_crossing
  handle_crossing-Decided e order =
      let (end, left, fills, matched, run) =
        match_taker-Run e.book order.order_id order.side order.price order.qty in
      rw (matched, handle_crossing)
        (Holds-bind (Extends order.client_seq order.order_id)
          (DecidedStep order.client_seq order.order_id)
          (settle_fills (record e { book = end }) order fills) _
          (settle_fills-Extends fills (record e { book = end }) order order.price (Run-FillOk run))
          λ (evs, e') _ extends. inr (
            extends _
              (conclude-Fulfils (rest_remainder e' order fills) order.client_seq order.order_id)))

  handle_new-Decided :
      (e : Engine) (order : NewOrder)
      → Holds (DecidedStep order.client_seq order.order_id) (handle_new e order)
  unfolding handle_passive
  handle_new-Decided e order =
      handle_new_cases (Holds (DecidedStep order.client_seq order.order_id)) e order
        (λ reason. refuse-Decided e order.client_seq order.order_id reason)
        (λ _ _. handle_crossing-Decided e order)
        (λ _ _. inr (conclude-Fulfils _ order.client_seq order.order_id))

  -- A command that does not panic gets the answer of its kind, for its own client number. An order, a cancel
  -- or a replace gets either one reject and nothing else, or its fills, the top of the book and one ack.
  pub process-Answers :
      (e : Engine) (cmd : Command) → Holds (λ (evs, e'). Answers cmd evs) (process e cmd)
  unfolding process handle_set_risk_limits handle_query_account ack_event
  process-Answers e (new_order order) = handle_new-Decided e order
  process-Answers e (cancel c) =
      handle_cancel_cases (DecidedStep c.client_seq c.order_id) e c
        (λ reason. refuse-Decided e c.client_seq c.order_id reason)
        (λ book _ _. inr (conclude-Fulfils (record e { book = book }) c.client_seq c.order_id))
  process-Answers e (replace r) =
      handle_replace_cases (Holds (DecidedStep r.client_seq r.order_id)) e r
        (λ reason. refuse-Decided e r.client_seq r.order_id reason)
        (λ o _ _.
          handle_new-Decided (record e { book = (Book.cancel e.book r.order_id r.account_id).1 })
            (replacement r o))
  process-Answers e (set_risk_limits s) = (_, refl, refl)
  process-Answers e (query_account q) = (_, refl, refl, refl)
  process-Answers e (authenticate a) = refl

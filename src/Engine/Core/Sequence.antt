-- ===== src/Engine/Core/Sequence.antt =====
-- The server sequence numbers that the engine gives out.
use high_perf_trading.Base.{
  ℕ, Option, none, some, List, [], ◌∷◌, ◌++◌, ◌≡◌, refl, sym, subst, inl, inr, arith, ◌>>=◌,
  Option-cases, Bool-cases, Holds, Holds-bind, Holds-any,
}
use high_perf_trading.Base.Word.{inc_u64}
use high_perf_trading.Types.{
  Event, ack, reject, fill, book_top, account_state, auth_success, auth_failure, NewOrder, Command,
  new_order, cancel, replace, set_risk_limits, query_account, authenticate, OrderId, RejectReason,
  opposite, is_gtc,
}
use high_perf_trading.Engine.Slab.{SlabApi}
use high_perf_trading.Engine.Book.{OrderBook}
use high_perf_trading.Engine.Matching.{MatchFill, match_taker}
use high_perf_trading.Engine.State.{
  Engine, Step, ack_event, reject_event, conclude, settle_fill, settle_fills, single,
}
use high_perf_trading.Engine.Accounts.{apply_fill}
use high_perf_trading.Engine.Book
use high_perf_trading.Engine.Core.Cases.{
  handle_new_cases, handle_cancel_cases, handle_replace_cases,
}
use high_perf_trading.Engine.Core.{
  rest_remainder, rest, replacement, handle_crossing, handle_passive, handle_new,
  handle_set_risk_limits, handle_query_account, process,
}

-- The number that an event carries.
abbrev pub seq_of : Event → Option ℕ
seq_of (ack a) = some a.server_seq
seq_of (reject r) = some r.server_seq
seq_of (fill f) = some f.server_seq
seq_of (book_top t) = some t.server_seq
seq_of (account_state s) = some s.server_seq
seq_of (auth_success a) = none
seq_of (auth_failure a) = none

-- The events carry consecutive numbers from the first, and the second is the number after them.
abbrev pub Numbered : ℕ → List Event → ℕ → Type 0
Numbered s [] t = s ≡ t
Numbered s (ev ∷ evs) t = (seq_of ev ≡ some s) × Numbered (inc_u64 s) evs t

pub Numbered-append :
    (s : ℕ) (xs ys : List Event) (t u : ℕ)
    → Numbered s xs t
    → Numbered t ys u
    → Numbered s (xs ++ ys) u
Numbered-append s [] ys t u h k = subst (λ n. Numbered n ys u) (sym h) k
Numbered-append s (x ∷ xs) ys t u h k = (h.0, Numbered-append (inc_u64 s) xs ys t u h.1 k)

module _ ⦃slab : SlabApi⦄ where
  abbrev pub StepNumbered : Engine → Step → Type 0
  StepNumbered e (evs, e') = Numbered e.server_seq evs e'.server_seq

  conclude-Numbered :
      (e : Engine) (client_seq : ℕ) (order_id : OrderId)
      → StepNumbered e (conclude e client_seq order_id)
  unfolding conclude
  conclude-Numbered e client_seq order_id = (refl, (refl, refl))

  reject-Numbered :
      (e : Engine) (client_seq : ℕ) (order_id : Option OrderId) (reason : RejectReason)
      → StepNumbered e (single (reject_event e client_seq order_id reason))
  unfolding reject_event
  reject-Numbered e client_seq order_id reason = (refl, refl)

  abbrev Next : Engine → Event × Engine → Type 0
  Next e (ev, e') = (seq_of ev ≡ some e.server_seq) × (e'.server_seq ≡ inc_u64 e.server_seq)

  settle_fill-Next :
      (e : Engine) (order : NewOrder) (f : MatchFill) → Holds (Next e) (settle_fill e order f)
  unfolding settle_fill
  settle_fill-Next e order f =
      elim (Option-cases (apply_fill e.account_manager order.account_id order.side f.price f.qty)) [
        | inl fails ↦ rw (fails, settle_fill) tt
        | inr (taken, paid) ↦
            elim (Option-cases
              (apply_fill taken f.maker_account_id (opposite order.side) f.price f.qty)) [
                | inl fails ↦ rw (paid, settle_fill) (rw (fails, ◌>>=◌) tt)
                | inr (settled, ok) ↦ rw (paid, settle_fill) (rw (ok, ◌>>=◌) (refl, refl))
              ]
      ]

  settle_fills-Numbered :
      (fills : List MatchFill) (e : Engine) (order : NewOrder)
      → Holds (StepNumbered e) (settle_fills e order fills)
  unfolding settle_fills
  settle_fills-Numbered [] e order = refl
  settle_fills-Numbered (f ∷ fills) e order =
      Holds-bind (Next e) (StepNumbered e) (settle_fill e order f) _ (settle_fill-Next e order f)
        λ (ev, e') _ (first, moved).
          Holds-bind (StepNumbered e') (StepNumbered e) (settle_fills e' order fills) _
            (settle_fills-Numbered fills e' order)
            λ (evs, e'') _ rest. (first, subst (λ n. Numbered n evs e''.server_seq) moved rest)

  rest_remainder-server_seq :
      (e : Engine) (order : NewOrder) (fills : List MatchFill)
      → (rest_remainder e order fills).server_seq ≡ e.server_seq
  unfolding rest_remainder
  rest_remainder-server_seq e order fills = ground arith

  handle_crossing-Numbered :
      (e : Engine) (order : NewOrder) → Holds (StepNumbered e) (handle_crossing e order)
  unfolding handle_crossing
  handle_crossing-Numbered e order =
      Holds-bind (λ _. Unit {0}) (StepNumbered e)
        (match_taker e.book order.order_id order.side order.price order.qty) _
        (Holds-any _ _ (λ _. tt))
        λ (book, fills) _ _.
          Holds-bind (StepNumbered e) (StepNumbered e)
            (settle_fills (record e { book = book }) order fills) _
            (settle_fills-Numbered fills (record e { book = book }) order)
            λ (evs, e') _ h. Numbered-append e.server_seq evs _ e'.server_seq _ h (
              subst
                (λ n.
                  Numbered n
                    (conclude (rest_remainder e' order fills) order.client_seq order.order_id).0
                    (conclude (rest_remainder e' order fills) order.client_seq
                      order.order_id).1.server_seq)
                (rest_remainder-server_seq e' order fills)
                (conclude-Numbered (rest_remainder e' order fills) order.client_seq order.order_id))

  handle_passive-Numbered :
      (e : Engine) (order : NewOrder) → StepNumbered e (handle_passive e order)
  unfolding handle_passive
  handle_passive-Numbered e order = elim (Bool-cases (is_gtc order.tif)) [
    | inl rests ↦
        rw rests (conclude-Numbered (rest e order order.qty) order.client_seq order.order_id)
    | inr gone ↦ rw gone (conclude-Numbered e order.client_seq order.order_id)
  ]

  handle_new-Numbered :
      (e : Engine) (order : NewOrder) → Holds (StepNumbered e) (handle_new e order)
  handle_new-Numbered e order =
      handle_new_cases (Holds (StepNumbered e)) e order
        (λ reason. reject-Numbered e order.client_seq (some order.order_id) reason)
        (λ _ _. handle_crossing-Numbered e order) (λ _ _. handle_passive-Numbered e order)

  -- The events of a command carry consecutive server sequence numbers, which start at the engine's and
  -- end before the new one, with the wrap of a `u64`; an `Authenticate` has no event and takes no number.
  -- A command that panics is left out.
  pub process-Numbered : (e : Engine) (cmd : Command) → Holds (StepNumbered e) (process e cmd)
  unfolding process handle_set_risk_limits handle_query_account ack_event
  process-Numbered e (new_order order) = handle_new-Numbered e order
  process-Numbered e (cancel c) =
      handle_cancel_cases (StepNumbered e) e c
        (λ reason. reject-Numbered e c.client_seq (some c.order_id) reason)
        (λ book _ _. conclude-Numbered (record e { book = book }) c.client_seq c.order_id)
  process-Numbered e (replace r) =
      handle_replace_cases (Holds (StepNumbered e)) e r
        (λ reason. reject-Numbered e r.client_seq (some r.order_id) reason)
        (λ o _ _.
          handle_new-Numbered (record e { book = (Book.cancel e.book r.order_id r.account_id).1 })
            (replacement r o))
  process-Numbered e (set_risk_limits s) = (refl, refl)
  process-Numbered e (query_account q) = (refl, refl)
  process-Numbered e (authenticate a) = refl

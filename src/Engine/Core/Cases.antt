-- ===== src/Engine/Core/Cases.antt =====
-- The ways through the handlers of new orders, cancels and replaces.
use high_perf_trading.Base.{
  pos, true, false, Option, none, some, ◌≡◌, inl, inr, arith, Option-cases, Bool-cases, if_cases,
  not, ◌&&◌, ◌||◌, ◌==◌, leb_ℤ, ◌<ℤ◌,
}
use high_perf_trading.Types.{
  NewOrder, Replace, Command, new_order, cancel, Event, replace, set_risk_limits, query_account,
  authenticate, OrderId, RejectReason, invalid, not_found, post_only_would_cross, Qty, opposite,
  is_gtc,
}
use high_perf_trading.Types
use high_perf_trading.Engine.Slab.{SlabApi, Order}
use high_perf_trading.Engine.Book.{OrderBook, would_cross, insert_resting}
use high_perf_trading.Engine.Book
use high_perf_trading.Engine.Book.Cancel.{cancel_cases}
use high_perf_trading.Engine.Accounts.{check_risk}
use high_perf_trading.Engine.State.{Engine, Step, conclude}
use high_perf_trading.Engine.Core.{
  handle_crossing, handle_passive, handle_new, handle_cancel, handle_replace, refuse, replacement,
}

module _ ⦃slab : SlabApi⦄ where
  -- What an order has passed when it reaches the book.
  pub record Accepted (e : Engine) (order : NewOrder) : Type 0 where
    pub symbol : order.symbol_id ≡ e.book.symbol_id
    pub positive : pos 0 <ℤ order.qty
    pub no_risk : check_risk e.account_manager order.account_id order.side order.qty ≡ none
    pub may_cross : (order.flags.post_only && would_cross e.book order.side order.price) ≡ false

  pub handle_new_cases {ℓ} :
      (P : Option Step → Type ℓ) (e : Engine) (order : NewOrder)
      → ((reason : RejectReason) → P (some (refuse e order.client_seq order.order_id reason)))
      → (Accepted e order
          → would_cross e.book order.side order.price ≡ true
          → P (handle_crossing e order))
      → (Accepted e order
          → would_cross e.book order.side order.price ≡ false
          → P (some (handle_passive e order)))
      → P (handle_new e order)
  unfolding handle_new
  handle_new_cases P e order refused crossing passive =
      elim (Bool-cases (not (order.symbol_id == e.book.symbol_id) || leb_ℤ order.qty (pos 0))) [
        | inl bad ↦ rw bad (refused invalid)
        | inr valid ↦
            rw valid
              (elim (Option-cases
                (check_risk e.account_manager order.account_id order.side order.qty)) [
                  | inr (reason, bad) ↦ rw (bad, handle_new) (refused reason)
                  | inl fine ↦
                      rw (fine, handle_new)
                        (elim (Bool-cases
                          (order.flags.post_only && would_cross e.book order.side order.price)) [
                            | inl bad ↦ rw bad (refused post_only_would_cross)
                            | inr free ↦
                                let accepted : Accepted e order = record {
                                  symbol = ground arith;
                                  positive = ground arith;
                                  no_risk = fine;
                                  may_cross = free;
                                } in
                                rw free (if_cases P _ (crossing accepted) (passive accepted))
                          ])
                ])
      ]

  pub handle_cancel_cases {ℓ} :
      (P : Step → Type ℓ) (e : Engine) (c : Types.Cancel)
      → ((reason : RejectReason) → P (refuse e c.client_seq c.order_id reason))
      → ((book : OrderBook)
          → Book.cancel e.book c.order_id c.account_id ≡ (true, book)
          → c.symbol_id ≡ e.book.symbol_id
          → P (conclude (record e { book = book }) c.client_seq c.order_id))
      → P (handle_cancel e c)
  unfolding handle_cancel
  handle_cancel_cases P e c refused found = elim (Bool-cases (c.symbol_id == e.book.symbol_id)) [
    | inr foreign ↦ rw foreign (refused invalid)
    | inl ours ↦ rw ours (elim (cancel_cases e.book c.order_id c.account_id) [
      | inl (_, missing) ↦ rw missing (refused not_found)
      | inr (key, o, _, done) ↦ rw done (found _ done (ground arith))
    ])
  ]

  pub handle_replace_cases {ℓ} :
      (P : Option Step → Type ℓ) (e : Engine) (r : Replace)
      → ((reason : RejectReason) → P (some (refuse e r.client_seq r.order_id reason)))
      → ((o : Order)
          → Book.get e.book r.order_id ≡ some o
          → o.account_id ≡ r.account_id
          → P (
              handle_new
                (record e { book = (Book.cancel e.book r.order_id r.account_id).1 })
                (replacement r o)))
      → P (handle_replace e r)
  unfolding handle_replace
  handle_replace_cases P e r refused found =
      elim (Bool-cases (not (r.symbol_id == e.book.symbol_id) || leb_ℤ r.new_qty (pos 0))) [
        | inl bad ↦ rw bad (refused invalid)
        | inr valid ↦ rw valid (elim (Option-cases (Book.get e.book r.order_id)) [
          | inl missing ↦ rw (missing, handle_replace) (refused not_found)
          | inr (o, e') ↦
              rw (e', handle_replace)
                (if_cases P _ (λ same. found o e' (ground arith)) (λ _. refused not_found))
        ])
      ]

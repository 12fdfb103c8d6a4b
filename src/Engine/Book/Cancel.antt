-- ===== src/Engine/Book/Cancel.antt =====
-- Cancelling a resting order.
use high_perf_trading.Base.{ℕ, true, false, none, some, ◌≡◌, refl, ◌⊎◌, inl, inr, Option-cases}
use high_perf_trading.Types.{OrderId, AccountId}
use high_perf_trading.Engine.Slab.{SlabApi, Order}
use high_perf_trading.Engine.Book.{OrderBook, find_owned, cancel, cancel_found}

module _ ⦃slab : SlabApi⦄ where
  -- A cancel finds an order of the account, or says no and leaves the book alone.
  pub cancel_cases :
      (b : OrderBook) (order_id : OrderId) (account_id : AccountId)
      → ((find_owned b order_id account_id ≡ none) × (cancel b order_id account_id ≡ (false, b)))
        ⊎ ((key : ℕ) × (o : Order) × (find_owned b order_id account_id ≡ some (key, o))
            × (cancel b order_id account_id ≡ (true, cancel_found b order_id key o)))
  unfolding cancel
  cancel_cases b order_id account_id = elim (Option-cases (find_owned b order_id account_id)) [
    | inl e ↦ inl (e, rw (e, cancel) refl)
    | inr ((key, o), e) ↦ inr (key, o, e, rw (e, cancel) refl)
  ]

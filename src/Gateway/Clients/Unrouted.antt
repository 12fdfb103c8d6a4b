-- ===== src/Gateway/Clients/Unrouted.antt =====
-- A command of crates/gateway_server/src/client_handler.rs that reaches no engine.
use high_perf_trading.Base.{ℕ, Bool, false, Option, some, ◌≡◌, refl, ap, ◌∙◌}
use high_perf_trading.Types.{SymbolId, new_order, NewOrder, Event, overloaded}
use high_perf_trading.Protocol.{GatewayToEngine}
use high_perf_trading.Gateway.DashMap.{DashMapApi}
use high_perf_trading.Gateway.Accounts.{AccountState, Reservation, ok, err}
use high_perf_trading.Gateway.Manager.{AccountManager, get_account, next_seq, check_and_reserve}
use high_perf_trading.Gateway.Manager.Release.{
  AllWords, Undone, release_reservation-check_and_reserve,
}
use high_perf_trading.Gateway.Clients.{
  Gateway, approval_of, approve, place, submit, after_approval, send_reject,
}
use high_perf_trading.Gateway.Pending.{Local, track}
use high_perf_trading.Gateway.Clients.Turns.{
  SameAccounts, accounts-send, accounts-release_reservation,
}

module _ ⦃dash : DashMapApi AccountState⦄ (encodes : Event → Bool)
    (routes : SymbolId → GatewayToEngine → Bool) where
  accounts-send_reject :
      (g : Gateway) (client_seq : ℕ) (order_id : Option ℕ)
      → (send_reject encodes g client_seq order_id overloaded).0.account_manager.accounts
        ≡ g.account_manager.accounts
  unfolding next_seq
  accounts-send_reject g client_seq order_id = ap (λ m. m.accounts) (accounts-send encodes _ _)

  -- If the router takes no message, a new order leaves every account as it was, whether its check refuses
  -- it or lets it through, provided the reserved sums are machine words.
  pub place-unrouted :
      (conn_id : ℕ) (pending : Local) (g : Gateway) (o : NewOrder) (symbol_id : SymbolId)
      → ((symbol_id : SymbolId) (msg : GatewayToEngine) → routes symbol_id msg ≡ false)
      → AllWords g.account_manager
      → SameAccounts g (place encodes routes conn_id pending g (new_order o) symbol_id).1.0
  unfolding place submit approve track get_account next_seq
  place-unrouted conn_id pending g o symbol_id closed w =
      go (check_and_reserve g.account_manager (new_order o))
        (release_reservation-check_and_reserve g.account_manager (new_order o) w)
    where
      go :
          (r : Reservation × AccountManager)
          → Undone g.account_manager r
          → SameAccounts g
              (after_approval encodes routes conn_id pending
                (record g { account_manager = (approval_of r).1 })
                (new_order o)
                symbol_id
                (approval_of r).0).1.0
      go (err v, m) h id =
          ap (λ a. dash.get a id)
            (ap (λ x. x.accounts) (accounts-send encodes _ _) ∙ ap (λ x. x.accounts) h)
      go (ok token, m) h id = rw closed (
          ap (λ a. dash.get a id)
            (accounts-send_reject _ o.client_seq (some o.order_id)
              ∙ accounts-release_reservation _ m token refl)
          ∙ h id)

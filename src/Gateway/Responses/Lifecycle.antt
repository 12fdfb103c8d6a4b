-- ===== src/Gateway/Responses/Lifecycle.antt =====
-- The life of an order in crates/gateway_server/src/client_handler.rs, from its reservation to the end.
use high_perf_trading.Base.{
  ℕ, Bool, true, Option, none, some, ◌≡◌, refl, sym, ap, ◌∙◌, subst, ==_refl,
}
use high_perf_trading.Base.HashMap.{HashMap}
use high_perf_trading.Base.HashMap
use high_perf_trading.Types.{
  SymbolId, OrderId, Command, new_order, cancel, NewOrder, Event, ack, Ack, is_buy,
}
use high_perf_trading.Types
use high_perf_trading.Protocol.{GatewayToEngine, RiskToken, to_client}
use high_perf_trading.Gateway.DashMap.{DashMapApi}
use high_perf_trading.Gateway.Accounts.{AccountState, ReservationToken, ok}
use high_perf_trading.Gateway.Manager.{
  AccountManager, get_account, release_reservation, next_seq, check_and_reserve,
}
use high_perf_trading.Gateway.Manager.Release.{
  AllWords, Undone, release_reservation-check_and_reserve,
}
use high_perf_trading.Gateway.Clients.{Gateway, approve, place, submit, handle_cancel}
use high_perf_trading.Gateway.Pending.{
  Local, OrderMetadata, order_metadata, cancel_pending, track, mark_globally,
}
use high_perf_trading.Gateway.Clients.Turns.{SameAccounts, accounts-release_reservation}
use high_perf_trading.Gateway.Responses.Table.{manager-deliver}
use high_perf_trading.Gateway.Responses.{
  ClientSenders, respond, handle_event, settle, acked, acked_operation, release_order,
}

module _ ⦃dash : DashMapApi AccountState⦄ (encodes : Event → Bool)
    (routes : SymbolId → GatewayToEngine → Bool) (clients : ClientSenders) where
  get-insert_same :
      (order_id : OrderId) (v : OrderMetadata) (m : HashMap OrderMetadata)
      → HashMap.get order_id (HashMap.insert order_id v m) ≡ some v
  get-insert_same order_id v m =
      rw (HashMap.get-insert order_id order_id v m, ==_refl order_id) refl

  -- If the order that a cancel names is in the shared table, it waits for its cancel once the cancel is
  -- handed over, with the reservation that it had.
  waits-handle_cancel :
      (conn_id : ℕ) (pending : Local) (g : Gateway) (c : Types.Cancel) (metadata : OrderMetadata)
      → ((symbol_id : SymbolId) (msg : GatewayToEngine) → routes symbol_id msg ≡ true)
      → HashMap.get c.order_id g.pending_orders ≡ some metadata
      → let g' = (handle_cancel encodes routes conn_id pending g c).1.0 in
        (HashMap.get c.order_id g'.pending_orders
          ≡ some (record metadata { operation = cancel_pending }))
        × (g'.account_manager.accounts ≡ g.account_manager.accounts)
  unfolding handle_cancel next_seq mark_globally
  waits-handle_cancel conn_id pending g c metadata takes there =
      rw (takes, there)
        (
          get-insert_same c.order_id (record metadata { operation = cancel_pending })
              g.pending_orders,
          refl,
        )

  -- An order that is let through and handed over is active in the shared table, with its token.
  active-place :
      (conn_id : ℕ) (pending : Local) (g : Gateway) (o : NewOrder) (symbol_id : SymbolId)
      (token : ReservationToken) (m : AccountManager)
      → ((symbol_id : SymbolId) (msg : GatewayToEngine) → routes symbol_id msg ≡ true)
      → check_and_reserve g.account_manager (new_order o) ≡ (ok token, m)
      → let g' = (place encodes routes conn_id pending g (new_order o) symbol_id).1.0 in
        (HashMap.get o.order_id g'.pending_orders
          ≡ some (order_metadata conn_id token (is_buy o.side)))
        × (g'.account_manager.accounts ≡ m.accounts)
  unfolding place submit approve track next_seq
  active-place conn_id pending g o symbol_id token m takes let_through =
      rw (let_through, takes)
        (
          get-insert_same o.order_id (order_metadata conn_id token (is_buy o.side))
              g.pending_orders,
          refl,
        )

  -- The ack of a cancel.
  released-respond :
      (g : Gateway) (conn_id : ℕ) (a : Ack) (t : Option RiskToken) (metadata : OrderMetadata)
      → HashMap.get a.order_id g.pending_orders ≡ some metadata
      → metadata.operation ≡ cancel_pending
      → let g' = (respond clients g (to_client conn_id (ack a) t)).0 in
        (HashMap.get a.order_id g'.pending_orders ≡ none)
        × (g'.account_manager.accounts
            ≡ (release_reservation g.account_manager metadata.reservation_token).accounts)
  unfolding respond handle_event
  released-respond g conn_id a t metadata there waits =
      let (m, p) = manager-deliver clients (settle g (ack a)) conn_id (ack a) in
      (ap (HashMap.get a.order_id) p ∙ settled.0, ap (λ x. x.accounts) m ∙ settled.1)
    where
      gone : HashMap.get a.order_id (HashMap.remove a.order_id g.pending_orders) ≡ none
      gone = rw (HashMap.get-remove a.order_id a.order_id g.pending_orders, ==_refl a.order_id) refl

      settled :
          (HashMap.get a.order_id (settle g (ack a)).pending_orders ≡ none)
          × ((settle g (ack a)).account_manager.accounts
              ≡ (release_reservation g.account_manager metadata.reservation_token).accounts)
      settled = rw (released) (gone, refl)
        where
          released : settle g (ack a) ≡ release_order g a.order_id metadata
          released =
              ap (acked g a.order_id) there ∙ ap (acked_operation g a.order_id metadata) waits

  -- An order that is let through, handed over, cancelled, and whose cancel is acknowledged leaves every
  -- account as it was before the order, and is gone from the table, provided the router takes every
  -- message and the reserved sums are machine words.
  pub respond-handle_cancel-place :
      (conn_id : ℕ) (pending later : Local) (g : Gateway) (o : NewOrder) (c : Types.Cancel)
      (a : Ack) (token : ReservationToken) (m : AccountManager) (t : Option RiskToken)
      → ((symbol_id : SymbolId) (msg : GatewayToEngine) → routes symbol_id msg ≡ true)
      → AllWords g.account_manager
      → check_and_reserve g.account_manager (new_order o) ≡ (ok token, m)
      → c.order_id ≡ o.order_id
      → a.order_id ≡ o.order_id
      → let placed = (place encodes routes conn_id pending g (new_order o) o.symbol_id).1.0 in
        let cancelled = (handle_cancel encodes routes conn_id later placed c).1.0 in
        let g' = (respond clients cancelled (to_client conn_id (ack a) t)).0 in
        SameAccounts g g' × (HashMap.get o.order_id g'.pending_orders ≡ none)
  unfolding get_account
  respond-handle_cancel-place conn_id pending later g o c a token m t takes w let_through ec ea =
      let (active, reserved) =
        active-place conn_id pending g o o.symbol_id token m takes let_through in
      let (waits, kept) =
        waits-handle_cancel conn_id later placed c (order_metadata conn_id token (is_buy o.side))
          takes (ap (λ k. HashMap.get k placed.pending_orders) ec ∙ active) in
      let (gone, released) =
        released-respond cancelled conn_id a t _
          (ap (λ k. HashMap.get k cancelled.pending_orders) (ea ∙ sym ec) ∙ waits) refl in
      (
        λ id.
            ap (λ x. dash.get x id)
              (released
                ∙ accounts-release_reservation cancelled.account_manager m token (kept ∙ reserved))
            ∙ subst (Undone g.account_manager) let_through
                (release_reservation-check_and_reserve g.account_manager (new_order o) w) id,
        ap
              (λ k.
                HashMap.get k
                  (respond clients cancelled (to_client conn_id (ack a) t)).0.pending_orders)
              (sym ea)
            ∙ gone,
      )
    where
      placed : Gateway
      placed = (place encodes routes conn_id pending g (new_order o) o.symbol_id).1.0

      cancelled : Gateway
      cancelled = (handle_cancel encodes routes conn_id later placed c).1.0

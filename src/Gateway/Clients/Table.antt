-- ===== src/Gateway/Clients/Table.antt =====
-- What the commands of a client, in crates/gateway_server/src/client_handler.rs, leave of the shared table.
use high_perf_trading.Base.{
  ℕ, pos, Bool, true, false, Option, none, some, List, ◌≡◌, refl, sym, subst, if_cases,
}
use high_perf_trading.Base.HashMap.{HashMap}
use high_perf_trading.Base.HashMap
use high_perf_trading.Types.{
  AccountId, SymbolId, OrderId, Command, new_order, cancel, replace, set_risk_limits, query_account,
  authenticate, Event, fill, ack, reject, is_buy,
}
use high_perf_trading.Types
use high_perf_trading.Protocol.{execute, GatewayToEngine}
use high_perf_trading.Gateway.DashMap.{DashMapApi}
use high_perf_trading.Gateway.Accounts.{AccountState, ReservationToken, Reserved, refused, granted}
use high_perf_trading.Gateway.Manager.{
  AccountManager, get_account, next_seq, check_and_reserve, check_and_reserve_order,
  adjust_reservation, on_found, finish,
}
use high_perf_trading.Gateway.Sessions.{is_authenticated}
use high_perf_trading.Gateway.Auth
use high_perf_trading.Gateway.Clients.{
  Gateway, Effect, Approval, approved, declined, approve, approval_of, approve_replace, send,
  answer_query, answer_auth, receive, guarded, place, submit, after_approval, after_route,
  after_cancel, handle_cancel,
}
use high_perf_trading.Gateway.Pending.{
  Local, OrderMetadata, active, cancel_pending, mark, mark_globally, track,
}
use high_perf_trading.Gateway.Pending.Named.{Named, NamedBy, track-Named, mark_globally-Named}

module _ ⦃dash : DashMapApi AccountState⦄ where
  -- What is approved has a token for the command's order.
  abbrev Names : Command → Approval × AccountManager → Type 0
  Names cmd (approved token, m) = NamedBy cmd token
  Names cmd (declined reason, m) = Unit

  finish-Names :
      (cmd : Command) (m : AccountManager) (account_id : AccountId) (symbol_id : SymbolId)
      (order_id : OrderId) (f : AccountState → Reserved) (s : Option AccountState)
      → ((token : ReservationToken) → token.order_id ≡ order_id → NamedBy cmd token)
      → Names cmd (approval_of (on_found m account_id symbol_id order_id f s))
  finish-Names cmd m account_id symbol_id order_id f none n = tt
  finish-Names cmd m account_id symbol_id order_id f (some s) n = go (f s)
    where
      go : (r : Reserved) → Names cmd (approval_of (finish m account_id symbol_id order_id r))
      go (refused v) = tt
      go (granted amount s') = n _ refl

  approve-Names :
      (m : AccountManager) (pending : HashMap OrderMetadata) (cmd : Command)
      → Names cmd (approve m pending cmd)
  unfolding approve check_and_reserve check_and_reserve_order adjust_reservation
  approve-Names m pending (new_order o) =
      finish-Names (new_order o) m o.account_id _ _ _ (dash.get m.accounts o.account_id)
        λ token e. e
  approve-Names m pending (replace r) = found (HashMap.get r.order_id pending)
    where
      found : (o : Option OrderMetadata) → Names (replace r) (approve_replace m r o)
      found none = tt
      found (some metadata) =
          finish-Names (replace r) m r.account_id _ _ _ (dash.get m.accounts r.account_id)
            λ token e. e
  approve-Names m pending (cancel c) = tt
  approve-Names m pending (set_risk_limits s) = tt
  approve-Names m pending (query_account q) = tt
  approve-Names m pending (authenticate a) = tt

  module _ (encodes : Event → Bool) (routes : SymbolId → GatewayToEngine → Bool) where
    pending-send :
        (g : Gateway) (ev : Event) → (send encodes g ev).0.pending_orders ≡ g.pending_orders
    pending-send g ev =
        if_cases {A = Gateway × List Effect} (λ r. r.0.pending_orders ≡ g.pending_orders)
          (encodes ev) (λ _. refl) (λ _. refl)

    after_approval-Named :
        (conn_id : ℕ) (local : Local) (g : Gateway) (cmd : Command) (symbol_id : SymbolId)
        (r : Approval × AccountManager)
        → Names cmd r
        → Named g.pending_orders
        → Named
            (after_approval encodes routes conn_id local
              (record g { account_manager = r.1 })
              cmd
              symbol_id
              r.0).1.0.pending_orders
    unfolding submit next_seq
    after_approval-Named conn_id local g cmd symbol_id (declined reason, m) n h =
        subst Named (sym (pending-send _ _)) h
    after_approval-Named conn_id local g cmd symbol_id (approved token, m) n h = sent _ _ _
      where
        after : Gateway
        after = record g { pending_orders = (track conn_id token cmd local g.pending_orders).1 }

        sent :
            (m' : AccountManager) (msg : GatewayToEngine) (t : Bool)
            → Named
                (after_route encodes routes
                  (track conn_id token cmd local g.pending_orders).0
                  (record after { account_manager = m' })
                  cmd
                  symbol_id
                  token
                  msg
                  t).1.0.pending_orders
        sent m' msg true = track-Named conn_id token cmd local g.pending_orders n h
        sent m' msg false =
            subst Named (sym (pending-send _ _))
              (track-Named conn_id token cmd local g.pending_orders n h)

    place-Named :
        (conn_id : ℕ) (local : Local) (g : Gateway) (cmd : Command) (symbol_id : SymbolId)
        → Named g.pending_orders
        → Named (place encodes routes conn_id local g cmd symbol_id).1.0.pending_orders
    unfolding place
    place-Named conn_id local g cmd symbol_id h =
        after_approval-Named conn_id local g cmd symbol_id _
          (approve-Names g.account_manager g.pending_orders cmd) h

    handle_cancel-Named :
        (conn_id : ℕ) (local : Local) (g : Gateway) (c : Types.Cancel)
        → Named g.pending_orders
        → Named (handle_cancel encodes routes conn_id local g c).1.0.pending_orders
    unfolding handle_cancel next_seq
    handle_cancel-Named conn_id local g c h =
        sent (mark cancel_pending c.order_id local) (next_seq g.account_manager).1
          (execute (cancel c) conn_id (record {
            account_id = c.account_id;
            reserved_amount = pos 0;
            gateway_seq = (next_seq g.account_manager).0;
          }))
          _
      where
        marked : Named (mark_globally cancel_pending c.order_id g.pending_orders)
        marked = mark_globally-Named cancel_pending c.order_id g.pending_orders h

        sent :
            (l : Local) (m : AccountManager) (msg : GatewayToEngine) (t : Bool)
            → Named
                (after_cancel encodes routes l
                  (record g {
                    account_manager = m;
                    pending_orders = mark_globally cancel_pending c.order_id g.pending_orders;
                  })
                  c
                  msg
                  t).1.0.pending_orders
        sent l m msg true = marked
        sent l m msg false =
            subst Named (sym (pending-send _ _)) (mark_globally-Named active c.order_id _ marked)

    query-Named :
        (g : Gateway) (q : Types.QueryAccount) (s : Option AccountState)
        → Named g.pending_orders
        → Named (answer_query encodes g q s).0.pending_orders
    unfolding next_seq
    query-Named g q none h = subst Named (sym (pending-send _ _)) h
    query-Named g q (some s) h = subst Named (sym (pending-send _ _)) h

    auth-Named :
        (conn_id : ℕ) (g : Gateway) (id : Option AccountId)
        → Named g.pending_orders
        → Named (answer_auth encodes conn_id g id).0.pending_orders
    auth-Named conn_id g none h = subst Named (sym (pending-send _ _)) h
    auth-Named conn_id g (some id) h = subst Named (sym (pending-send _ _)) h

    guarded-Named :
        (conn_id : ℕ) (local : Local) (g : Gateway) (cmd : Command) (t : Bool)
        → Named g.pending_orders
        → Named (guarded encodes routes conn_id local g cmd t).1.0.pending_orders
    unfolding next_seq
    guarded-Named conn_id local g cmd false h = subst Named (sym (pending-send _ _)) h
    guarded-Named conn_id local g (new_order o) true h =
        place-Named conn_id local g (new_order o) o.symbol_id h
    guarded-Named conn_id local g (cancel c) true h = handle_cancel-Named conn_id local g c h
    guarded-Named conn_id local g (replace r) true h =
        place-Named conn_id local g (replace r) r.symbol_id h
    guarded-Named conn_id local g (set_risk_limits s) true h =
        place-Named conn_id local g (set_risk_limits s) s.symbol_id h
    guarded-Named conn_id local g (query_account q) true h = h
    guarded-Named conn_id local g (authenticate a) true h = h

    -- Every command of a client, authenticated or not, routed or not, keeps each entry of the shared table
    -- under the number that its token names.
    pub receive-Named :
        (conn_id : ℕ) (local : Local) (g : Gateway) (cmd : Command)
        → Named g.pending_orders
        → Named (receive encodes routes conn_id local g cmd).1.0.pending_orders
    unfolding receive
    receive-Named conn_id local g (query_account q) h =
        query-Named g q (get_account g.account_manager q.account_id) h
    receive-Named conn_id local g (authenticate a) h =
        auth-Named conn_id g (Auth.authenticate a.api_key g.auth_service) h
    receive-Named conn_id local g (new_order o) h =
        guarded-Named conn_id local g (new_order o) (is_authenticated conn_id g.session_manager) h
    receive-Named conn_id local g (cancel c) h =
        guarded-Named conn_id local g (cancel c) (is_authenticated conn_id g.session_manager) h
    receive-Named conn_id local g (replace r) h =
        guarded-Named conn_id local g (replace r) (is_authenticated conn_id g.session_manager) h
    receive-Named conn_id local g (set_risk_limits s) h =
        guarded-Named conn_id local g (set_risk_limits s)
          (is_authenticated conn_id g.session_manager) h

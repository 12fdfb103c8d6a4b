-- ===== src/Gateway/Clients/Turns.antt =====
-- What the commands of a client of crates/gateway_server/src/client_handler.rs leave alone.
use high_perf_trading.Base.{
  ℕ, Bool, false, Option, none, some, List, [], ◌∷◌, ◌≡◌, refl, sym, ap, subst, if_cases,
}
use high_perf_trading.Base.Word.{sub_i64}
use high_perf_trading.Base.HashMap.{HashMap}
use high_perf_trading.Base.HashMap
use high_perf_trading.Types.{
  AccountId, SymbolId, OrderId, NewOrder, Command, new_order, cancel, replace, set_risk_limits,
  query_account, authenticate, Event, RejectReason, Replace, is_buy,
}
use high_perf_trading.Types
use high_perf_trading.Protocol.{GatewayToEngine}
use high_perf_trading.Gateway.DashMap.{DashMapApi}
use high_perf_trading.Gateway.Accounts.{AccountState, ReservationToken, Reserved, refused, granted}
use high_perf_trading.Gateway.Manager.{
  AccountManager, get_account, release_reservation, modify_found, next_seq, check_and_reserve,
  check_and_reserve_order, adjust_reservation, on_found, finish,
}
use high_perf_trading.Gateway.Sessions.{is_authenticated}
use high_perf_trading.Gateway.Auth
use high_perf_trading.Gateway.Clients.{
  Gateway, Effect, answer, routed, Approval, approved, declined, approve, approval_of,
  approve_replace, send, send_reject, answer_query, answer_auth, receive, place, after_approval,
  reject_ids,
}
use high_perf_trading.Gateway.Pending.{Local, OrderMetadata}

abbrev pub routed_of : List Effect → List GatewayToEngine
routed_of [] = []
routed_of (answer ev ∷ effects) = routed_of effects
routed_of (routed symbol_id msg ∷ effects) = msg ∷ routed_of effects

module _ ⦃dash : DashMapApi AccountState⦄ where
  -- No account, no order and no engine hears of the turn.
  abbrev pub Quiet : Local → Gateway → Local × (Gateway × List Effect) → Type 0
  Quiet pending g (pending', (g', effects)) =
      (pending' ≡ pending)
      × (g'.account_manager.accounts ≡ g.account_manager.accounts)
      × (g'.pending_orders ≡ g.pending_orders)
      × (routed_of effects ≡ [])

  send-Quiet :
      (encodes : Event → Bool) (pending : Local) (g g' : Gateway) (ev : Event)
      → g'.account_manager.accounts ≡ g.account_manager.accounts
      → g'.pending_orders ≡ g.pending_orders
      → Quiet pending g (pending, send encodes g' ev)
  send-Quiet encodes pending g g' ev a p =
      if_cases {A = Gateway × List Effect} (λ r. Quiet pending g (pending, r)) (encodes ev)
        (λ _. (refl, a, p, refl)) (λ _. (refl, a, p, refl))

  -- A refusal hands the manager back as it was.
  abbrev Declines : AccountManager → Approval × AccountManager → Type 0
  Declines m (declined reason, m') = m' ≡ m
  Declines m (approved token, m') = Unit

  finish-Declines :
      (m : AccountManager) (account_id : AccountId) (symbol_id : SymbolId) (order_id : OrderId)
      (f : AccountState → Reserved) (s : Option AccountState)
      → Declines m (approval_of (on_found m account_id symbol_id order_id f s))
  finish-Declines m account_id symbol_id order_id f none = refl
  finish-Declines m account_id symbol_id order_id f (some s) = go (f s)
    where
      go : (r : Reserved) → Declines m (approval_of (finish m account_id symbol_id order_id r))
      go (refused v) = refl
      go (granted amount s') = tt

  approve-Declines :
      (m : AccountManager) (pending : HashMap OrderMetadata) (cmd : Command)
      → Declines m (approve m pending cmd)
  unfolding approve check_and_reserve check_and_reserve_order adjust_reservation
  approve-Declines m pending (new_order o) =
      finish-Declines m o.account_id _ _ _ (dash.get m.accounts o.account_id)
  approve-Declines m pending (replace r) = found (HashMap.get r.order_id pending)
    where
      found : (o : Option OrderMetadata) → Declines m (approve_replace m r o)
      found none = refl
      found (some metadata) =
          finish-Declines m r.account_id _ _ _ (dash.get m.accounts r.account_id)
  approve-Declines m pending (cancel c) = tt
  approve-Declines m pending (set_risk_limits s) = tt
  approve-Declines m pending (query_account q) = tt
  approve-Declines m pending (authenticate a) = tt

  module _ (encodes : Event → Bool) (routes : SymbolId → GatewayToEngine → Bool) where
    query-Quiet :
        (pending : Local) (g : Gateway) (q : Types.QueryAccount) (s : Option AccountState)
        → Quiet pending g (pending, answer_query encodes g q s)
    unfolding next_seq
    query-Quiet pending g q none = send-Quiet encodes pending g _ _ refl refl
    query-Quiet pending g q (some s) = send-Quiet encodes pending g _ _ refl refl

    auth-Quiet :
        (conn_id : ℕ) (pending : Local) (g : Gateway) (id : Option AccountId)
        → Quiet pending g (pending, answer_auth encodes conn_id g id)
    auth-Quiet conn_id pending g none = send-Quiet encodes pending g _ _ refl refl
    auth-Quiet conn_id pending g (some id) = send-Quiet encodes pending g _ _ refl refl

    -- Whatever a connection without a session sends, its table of orders, the accounts and the shared
    -- table of orders stay as they were, and nothing goes to an engine.
    pub receive-Quiet :
        (conn_id : ℕ) (pending : Local) (g : Gateway) (cmd : Command)
        → is_authenticated conn_id g.session_manager ≡ false
        → Quiet pending g (receive encodes routes conn_id pending g cmd)
    unfolding receive next_seq
    receive-Quiet conn_id pending g (query_account q) h =
        query-Quiet pending g q (get_account g.account_manager q.account_id)
    receive-Quiet conn_id pending g (authenticate a) h =
        auth-Quiet conn_id pending g (Auth.authenticate a.api_key g.auth_service)
    receive-Quiet conn_id pending g (new_order o) h =
        rw h (send-Quiet encodes pending g _ _ refl refl)
    receive-Quiet conn_id pending g (cancel c) h = rw h (send-Quiet encodes pending g _ _ refl refl)
    receive-Quiet conn_id pending g (replace r) h =
        rw h (send-Quiet encodes pending g _ _ refl refl)
    receive-Quiet conn_id pending g (set_risk_limits s) h =
        rw h (send-Quiet encodes pending g _ _ refl refl)

    -- A command whose approval is declined changes no account and no table, goes to no engine, and is
    -- answered by one reject with the reason, if that can be encoded.
    pub place-declined :
        (conn_id : ℕ) (pending : Local) (g : Gateway) (cmd : Command) (symbol_id : SymbolId)
        (reason : RejectReason)
        → (approve g.account_manager g.pending_orders cmd).0 ≡ declined reason
        → Quiet pending g (place encodes routes conn_id pending g cmd symbol_id)
          × (place encodes routes conn_id pending g cmd symbol_id
              ≡ (pending, send_reject encodes g (reject_ids cmd).0 (reject_ids cmd).1 reason))
    unfolding place next_seq
    place-declined conn_id pending g cmd symbol_id reason h =
        let same =
          unchanged (approve g.account_manager g.pending_orders cmd) h
            (approve-Declines g.account_manager g.pending_orders cmd) in
        (subst (Quiet pending g) (sym same) (send-Quiet encodes pending g _ _ refl refl), same)
      where
        unchanged :
            (r : Approval × AccountManager)
            → r.0 ≡ declined reason
            → Declines g.account_manager r
            → after_approval encodes routes conn_id pending
                (record g { account_manager = r.1 })
                cmd
                symbol_id
                r.0
              ≡ (pending, send_reject encodes g (reject_ids cmd).0 (reject_ids cmd).1 reason)
        unchanged (declined x, m) e same = cc (e, same)
        unchanged (approved token, m) e same = cc

  pub accounts-release_reservation :
      (m n : AccountManager) (t : ReservationToken)
      → m.accounts ≡ n.accounts
      → (release_reservation m t).accounts ≡ (release_reservation n t).accounts
  unfolding release_reservation
  accounts-release_reservation m n t e =
      go (dash.get m.accounts t.account_id) (dash.get n.accounts t.account_id)
        (ap (λ a. dash.get a t.account_id) e)
    where
      go :
          (s u : Option AccountState)
          → s ≡ u
          → (modify_found m t.account_id
              (λ s. record s { tentative_reserved = sub_i64 s.tentative_reserved t.amount })
              s).accounts
            ≡ (modify_found n t.account_id
                (λ s. record s { tentative_reserved = sub_i64 s.tentative_reserved t.amount })
                u).accounts
      go none none h = e
      go (some s) (some u) h = cc (e, h)
      go none (some u) h = cc
      go (some s) none h = cc

  -- Every account is as it was.
  abbrev pub SameAccounts : Gateway → Gateway → Type 0
  SameAccounts g g' =
      (id : AccountId) → get_account g'.account_manager id ≡ get_account g.account_manager id

  pub accounts-send :
      (encodes : Event → Bool) (g : Gateway) (ev : Event)
      → (send encodes g ev).0.account_manager ≡ g.account_manager
  accounts-send encodes g ev =
      if_cases {A = Gateway × List Effect} (λ r. r.0.account_manager ≡ g.account_manager)
        (encodes ev) (λ _. refl) (λ _. refl)

-- ===== src/Gateway/Clients.antt =====
-- `client_read_loop` of crates/gateway_server/src/client_handler.rs: what the gateway does with each command
-- of a client. `encodes` says whether the client's codec encodes an event, and `routes` whether the router
-- hands a message to the engine of a symbol.
pub mod Turns
pub mod Unrouted
pub mod Table
use high_perf_trading.Base.{
  ℕ, ℤ, pos, Bool, true, false, Option, none, some, List, [], ◌∷◌, ◌++◌, map, if◌then◌else◌,
  unwrap_or,
}
use high_perf_trading.Base.Word.{inc_u64}
use high_perf_trading.Base.HashMap.{HashMap}
use high_perf_trading.Base.HashMap
use high_perf_trading.Types.{
  Text, OrderId, AccountId, SymbolId, Side, is_buy, buy, sell, default_position, default_limits,
  Command, new_order, cancel, replace, set_risk_limits, query_account, authenticate, NewOrder,
  Replace, QueryAccount, Authenticate, Event, reject, account_state, auth_success, auth_failure,
  RejectReason, invalid, not_found, risk, overloaded,
}
use high_perf_trading.Types
use high_perf_trading.Protocol.{GatewayToEngine, execute}
use high_perf_trading.Gateway.DashMap.{DashMapApi}
use high_perf_trading.Gateway.Accounts.{AccountState, ReservationToken, Reservation, ok, err}
use high_perf_trading.Gateway.Manager.{
  AccountManager, next_seq, get_account, check_and_reserve, adjust_reservation, release_reservation,
}
use high_perf_trading.Gateway.Auth.{AuthService}
use high_perf_trading.Gateway.Auth
use high_perf_trading.Gateway.Sessions.{SessionManager, register, unregister, is_authenticated}
use high_perf_trading.Gateway.Pending.{
  PendingOperation, active, cancel_pending, OrderMetadata, Local, marked, mark, marked_globally,
  mark_globally, side_of, order_metadata, tracked_replace, track, untracked,
}

-- What leaves the loop: an event to the client, or a message to the engine of a symbol.
pub data Effect : Type 0 where
  answer : Event → Effect
  routed : SymbolId → GatewayToEngine → Effect

-- What `GatewayContext` shares, with the counters of its metrics.
pub record Gateway ⦃dash : DashMapApi AccountState⦄ : Type 0 where
  pub account_manager : AccountManager
  pub auth_service : AuthService
  pub session_manager : SessionManager
  pub pending_orders : HashMap OrderMetadata
  pub frames_in : ℕ
  pub frames_out : ℕ

-- "Authentication failed: Invalid API key".
abbrev pub auth_failed : Text
auth_failed =
    65 ∷ 117 ∷ 116 ∷ 104 ∷ 101 ∷ 110 ∷ 116 ∷ 105 ∷ 99 ∷ 97 ∷ 116 ∷ 105 ∷ 111 ∷ 110 ∷ 32 ∷ 102 ∷ 97
    ∷ 105 ∷ 108 ∷ 101 ∷ 100 ∷ 58 ∷ 32 ∷ 73 ∷ 110 ∷ 118 ∷ 97 ∷ 108 ∷ 105 ∷ 100 ∷ 32 ∷ 65 ∷ 80 ∷ 73
    ∷ 32 ∷ 107 ∷ 101 ∷ 121 ∷ []

-- The `client_seq` and `order_id` of a reject.
abbrev pub reject_ids : Command → ℕ × Option OrderId
reject_ids (new_order o) = (o.client_seq, some o.order_id)
reject_ids (cancel c) = (c.client_seq, some c.order_id)
reject_ids (replace r) = (r.client_seq, some r.order_id)
reject_ids _ = (0, none)

pub data Approval : Type 0 where
  approved : ReservationToken → Approval
  declined : RejectReason → Approval

module _ ⦃dash : DashMapApi AccountState⦄ where
  abbrev pub approval_of : Reservation × AccountManager → Approval × AccountManager
  approval_of (ok token, m) = (approved token, m)
  approval_of (err v, m) = (declined risk, m)

  abbrev pub approve_replace :
      AccountManager → Replace → Option OrderMetadata → Approval × AccountManager
  approve_replace m r none = (declined not_found, m)
  approve_replace m r (some metadata) =
      approval_of (adjust_reservation m metadata.reservation_token r)

  -- The reservation: a replace adjusts that of its order.
  unfoldable pub approve :
      AccountManager → HashMap OrderMetadata → Command → Approval × AccountManager
  unfolding HashMap.get adjust_reservation check_and_reserve
  approve m pending (replace r) = approve_replace m r (HashMap.get r.order_id pending)
  approve m pending cmd = approval_of (check_and_reserve m cmd)

module _ ⦃dash : DashMapApi AccountState⦄ (encodes : Event → Bool) where
  -- An event that cannot be encoded is not sent.
  abbrev pub send : Gateway → Event → Gateway × List Effect
  send g ev =
      if encodes ev
      then (record g { frames_out = inc_u64 g.frames_out }, answer ev ∷ [])
      else (g, [])

  abbrev pub send_reject : Gateway → ℕ → Option OrderId → RejectReason → Gateway × List Effect
  send_reject g client_seq order_id reason =
      let (seq, m) = next_seq g.account_manager in
      send (record g { account_manager = m })
        (reject (record {
          server_seq = seq;
          client_seq = client_seq;
          order_id = order_id;
          reason = reason;
        }))

  abbrev pub answer_query : Gateway → QueryAccount → Option AccountState → Gateway × List Effect
  answer_query g q none = send_reject g q.client_seq none not_found
  answer_query g q (some s) =
      let (seq, m) = next_seq g.account_manager in
      send (record g { account_manager = m })
        (account_state (record {
          server_seq = seq;
          client_seq = q.client_seq;
          account_id = q.account_id;
          symbol_id = q.symbol_id;
          position = unwrap_or (HashMap.get q.symbol_id s.positions) default_position;
          risk_limits = unwrap_or (HashMap.get q.symbol_id s.risk_limits) default_limits;
        }))

  abbrev pub answer_auth : ℕ → Gateway → Option AccountId → Gateway × List Effect
  answer_auth conn_id g none = send g (auth_failure (record { reason = auth_failed }))
  answer_auth conn_id g (some account_id) =
      send (record g { session_manager = register conn_id account_id g.session_manager })
        (auth_success (record { account_id = account_id }))

module _ ⦃dash : DashMapApi AccountState⦄ (encodes : Event → Bool)
    (routes : SymbolId → GatewayToEngine → Bool) where
  abbrev pub Turn : Type 0
  Turn = Local × (Gateway × List Effect)

  abbrev pub after_cancel : Local → Gateway → Types.Cancel → GatewayToEngine → Bool → Turn
  after_cancel pending g c msg true = (pending, (g, routed c.symbol_id msg ∷ []))
  after_cancel pending g c msg false = (
    mark active c.order_id pending,
    send_reject encodes
        (record g { pending_orders = mark_globally active c.order_id g.pending_orders })
        c.client_seq (some c.order_id) overloaded,
  )

  unfoldable pub handle_cancel : ℕ → Local → Gateway → Types.Cancel → Turn
  unfolding mark mark_globally next_seq execute
  handle_cancel conn_id pending g c =
      let (seq, m) = next_seq g.account_manager in
      let msg =
        execute (cancel c) conn_id
          (record { account_id = c.account_id; reserved_amount = pos 0; gateway_seq = seq }) in
      after_cancel (mark cancel_pending c.order_id pending)
        (record g {
          account_manager = m;
          pending_orders = mark_globally cancel_pending c.order_id g.pending_orders;
        })
        c msg (routes c.symbol_id msg)

  -- A message that is not routed gives its reservation back.
  abbrev pub after_route :
      Local → Gateway → Command → SymbolId → ReservationToken → GatewayToEngine → Bool → Turn
  after_route pending g cmd symbol_id token msg true = (pending, (g, routed symbol_id msg ∷ []))
  after_route pending g cmd symbol_id token msg false =
      let (client_seq, order_id) = reject_ids cmd in
      (
        untracked cmd pending,
        send_reject encodes
            (record g { account_manager = release_reservation g.account_manager token }) client_seq
            order_id overloaded,
      )

  unfoldable pub submit : ℕ → Local → Gateway → Command → SymbolId → ReservationToken → Turn
  unfolding next_seq execute release_reservation HashMap.remove
  submit conn_id pending g cmd symbol_id token =
      let (seq, m) = next_seq g.account_manager in
      let msg = execute cmd conn_id (record {
        account_id = token.account_id;
        reserved_amount = token.amount;
        gateway_seq = seq;
      }) in
      after_route pending (record g { account_manager = m }) cmd symbol_id token msg
        (routes symbol_id msg)

  abbrev pub after_approval : ℕ → Local → Gateway → Command → SymbolId → Approval → Turn
  after_approval conn_id pending g cmd symbol_id (declined reason) =
      let (client_seq, order_id) = reject_ids cmd in
      (pending, send_reject encodes g client_seq order_id reason)
  after_approval conn_id pending g cmd symbol_id (approved token) =
      let (pending', all) = track conn_id token cmd pending g.pending_orders in
      submit conn_id pending' (record g { pending_orders = all }) cmd symbol_id token

  unfoldable pub place : ℕ → Local → Gateway → Command → SymbolId → Turn
  unfolding approve track submit next_seq
  place conn_id pending g cmd symbol_id =
      let (approval, m) = approve g.account_manager g.pending_orders cmd in
      after_approval conn_id pending (record g { account_manager = m }) cmd symbol_id approval

  -- A command that needs a session.
  abbrev pub trading : ℕ → Local → Gateway → Command → Turn
  trading conn_id pending g (new_order o) = place conn_id pending g (new_order o) o.symbol_id
  trading conn_id pending g (cancel c) = handle_cancel conn_id pending g c
  trading conn_id pending g (replace r) = place conn_id pending g (replace r) r.symbol_id
  trading conn_id pending g (set_risk_limits s) =
      place conn_id pending g (set_risk_limits s) s.symbol_id
  trading conn_id pending g (query_account q) = (pending, (g, []))
  trading conn_id pending g (authenticate a) = (pending, (g, []))

  abbrev pub guarded : ℕ → Local → Gateway → Command → Bool → Turn
  guarded conn_id pending g cmd false = (pending, send_reject encodes g 0 none invalid)
  guarded conn_id pending g cmd true = trading conn_id pending g cmd

  unfoldable pub receive : ℕ → Local → Gateway → Command → Turn
  unfolding next_seq get_account HashMap.get Auth.authenticate register is_authenticated place
      handle_cancel
  receive conn_id pending g (query_account q) =
      (pending, answer_query encodes g q (get_account g.account_manager q.account_id))
  receive conn_id pending g (authenticate a) =
      (pending, answer_auth encodes conn_id g (Auth.authenticate a.api_key g.auth_service))
  receive conn_id pending g cmd =
      guarded conn_id pending g cmd (is_authenticated conn_id g.session_manager)

  -- A frame of the client; `none` is one that the codec does not decode.
  unfoldable pub receive_frame : ℕ → Local → Gateway → Option Command → Turn
  unfolding receive
  receive_frame conn_id pending g none =
      (pending, (record g { frames_in = inc_u64 g.frames_in }, []))
  receive_frame conn_id pending g (some cmd) =
      receive conn_id pending (record g { frames_in = inc_u64 g.frames_in }) cmd

  abbrev pub later : Turn → (Local → Gateway → Turn) → Turn
  later (pending, (g, effects)) f =
      let (pending', (g', more)) = f pending g in (pending', (g', effects ++ more))

  unfoldable pub client_read_loop : ℕ → List (Option Command) → Local → Gateway → Turn
  unfolding receive_frame
  client_read_loop conn_id [] pending g = (pending, (g, []))
  client_read_loop conn_id (frame ∷ frames) pending g =
      later (receive_frame conn_id pending g frame) (client_read_loop conn_id frames)

  -- `handle_client_connection` around the loop: the session goes with the connection.
  unfoldable pub handle_client_connection :
      ℕ → List (Option Command) → Gateway → Gateway × List Effect
  unfolding client_read_loop unregister
  handle_client_connection conn_id frames g =
      let (pending, (g', effects)) = client_read_loop conn_id frames [] g in
      (record g' { session_manager = (unregister conn_id g'.session_manager).1 }, effects)

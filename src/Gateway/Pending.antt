-- ===== src/Gateway/Pending.antt =====
-- The tables of pending orders of crates/gateway_server/src/client_handler.rs: one of each connection, and one
-- that all share.
pub mod Named
use high_perf_trading.Base.{
  ℕ, ℤ, pos, Bool, true, false, Option, none, some, List, [], ◌∷◌, ◌++◌, map, if◌then◌else◌,
  unwrap_or,
}
use high_perf_trading.Base.Word.{inc_u64}
use high_perf_trading.Base.HashMap.{HashMap}
use high_perf_trading.Base.HashMap
use high_perf_trading.Types.{
  Text, OrderId, AccountId, SymbolId, Side, is_buy, buy, sell, default_position, default_limits,
  Command, new_order, cancel, replace, set_risk_limits, query_account, authenticate, NewOrder,
  Replace, QueryAccount, Authenticate, Event, reject, account_state, auth_success, auth_failure,
  RejectReason, invalid, not_found, risk, overloaded,
}
use high_perf_trading.Types
use high_perf_trading.Protocol.{GatewayToEngine, execute}
use high_perf_trading.Gateway.DashMap.{DashMapApi}
use high_perf_trading.Gateway.Accounts.{AccountState, ReservationToken, Reservation, ok, err}
use high_perf_trading.Gateway.Manager.{
  AccountManager, next_seq, get_account, check_and_reserve, adjust_reservation, release_reservation,
}
use high_perf_trading.Gateway.Auth.{AuthService}
use high_perf_trading.Gateway.Auth
use high_perf_trading.Gateway.Sessions.{SessionManager, register, unregister, is_authenticated}

pub data PendingOperation : Type 0 where
  active cancel_pending : PendingOperation

pub record OrderMetadata : Type 0 where
  pub reservation_token : ReservationToken
  pub side : Side
  pub operation : PendingOperation
  pub conn_id : ℕ

-- The entries of the table that a connection keeps for itself.
abbrev pub Local : Type 0
Local = HashMap (ReservationToken × Bool × PendingOperation)

abbrev pub marked :
    PendingOperation → OrderId → Local → Option (ReservationToken × Bool × PendingOperation) → Local
marked op order_id pending none = pending
marked op order_id pending (some (token, buys, _)) =
    HashMap.insert order_id (token, buys, op) pending

unfoldable pub mark : PendingOperation → OrderId → Local → Local
unfolding HashMap.get HashMap.insert
mark op order_id pending = marked op order_id pending (HashMap.get order_id pending)

abbrev pub marked_globally :
    PendingOperation
    → OrderId
    → HashMap OrderMetadata
    → Option OrderMetadata
    → HashMap OrderMetadata
marked_globally op order_id pending none = pending
marked_globally op order_id pending (some metadata) =
    HashMap.insert order_id (record metadata { operation = op }) pending

unfoldable pub mark_globally :
    PendingOperation → OrderId → HashMap OrderMetadata → HashMap OrderMetadata
unfolding HashMap.get HashMap.insert
mark_globally op order_id pending =
    marked_globally op order_id pending (HashMap.get order_id pending)

abbrev pub side_of : Bool → Side
side_of true = buy
side_of false = sell

abbrev pub order_metadata : ℕ → ReservationToken → Bool → OrderMetadata
order_metadata conn_id token buys = record {
  reservation_token = token;
  side = side_of buys;
  operation = active;
  conn_id = conn_id;
}

abbrev pub tracked_replace :
    ℕ
    → OrderId
    → ReservationToken
    → Local
    → HashMap OrderMetadata
    → Option (ReservationToken × Bool × PendingOperation)
    → Local × HashMap OrderMetadata
tracked_replace conn_id order_id token pending all none = (pending, all)
tracked_replace conn_id order_id token pending all (some (_, buys, _)) = (
  HashMap.insert order_id (token, buys, active) pending,
  HashMap.insert order_id (order_metadata conn_id token buys) all,
)

-- The order with its new reservation, in the connection's table and in the shared one.
unfoldable pub track :
    ℕ → ReservationToken → Command → Local → HashMap OrderMetadata → Local × HashMap OrderMetadata
unfolding HashMap.get HashMap.insert
track conn_id token (new_order o) pending all = (
  HashMap.insert o.order_id (token, is_buy o.side, active) pending,
  HashMap.insert o.order_id (order_metadata conn_id token (is_buy o.side)) all,
)
track conn_id token (replace r) pending all =
    tracked_replace conn_id r.order_id token pending all (HashMap.get r.order_id pending)
track conn_id token _ pending all = (pending, all)

abbrev pub untracked : Command → Local → Local
untracked (new_order o) pending = HashMap.remove o.order_id pending
untracked _ pending = pending

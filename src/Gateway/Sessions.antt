-- ===== src/Gateway/Sessions.antt =====
-- crates/gateway_server/src/session.rs: which connections are authenticated, and as which account.
use high_perf_trading.Base.{ℕ, Bool, Option, [], length}
use high_perf_trading.Base.HashMap.{HashMap}
use high_perf_trading.Base.HashMap
use high_perf_trading.Types.{AccountId}

abbrev pub SessionManager : Type 0
SessionManager = HashMap AccountId

unfoldable pub new : SessionManager
new = []

unfoldable pub register : ℕ → AccountId → SessionManager → SessionManager
unfolding HashMap.insert
register conn_id account_id sessions = HashMap.insert conn_id account_id sessions

unfoldable pub get_account_id : ℕ → SessionManager → Option AccountId
unfolding HashMap.get
get_account_id conn_id sessions = HashMap.get conn_id sessions

unfoldable pub is_authenticated : ℕ → SessionManager → Bool
unfolding HashMap.contains_key
is_authenticated conn_id sessions = HashMap.contains_key conn_id sessions

unfoldable pub unregister : ℕ → SessionManager → Option AccountId × SessionManager
unfolding HashMap.get HashMap.remove
unregister conn_id sessions = (HashMap.get conn_id sessions, HashMap.remove conn_id sessions)

unfoldable pub session_count : SessionManager → ℕ
session_count sessions = length sessions

unfoldable pub get_all_sessions : SessionManager → HashMap AccountId
get_all_sessions sessions = sessions

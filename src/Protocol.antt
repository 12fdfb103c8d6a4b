-- ===== src/Protocol.antt =====
-- crates/common/src/gateway_protocol.rs: the messages between the gateway and an engine.
use high_perf_trading.Base.{ℕ, ℤ, Option, none, some, List}
use high_perf_trading.Types.{
  OrderId, AccountId, SymbolId, Price, Qty, Side, Command, Event, new_order, cancel, replace,
  set_risk_limits, query_account, authenticate,
}

pub record RiskToken : Type 0 where
  pub account_id : AccountId
  pub reserved_amount : ℤ
  pub gateway_seq : ℕ

pub record ExecuteCommand : Type 0 where
  pub command : Command
  pub conn_id : ℕ
  pub risk_token : RiskToken

pub data GatewayToEngine : Type 0 where
  execute_command : ExecuteCommand → GatewayToEngine
  ping query_all_orders : GatewayToEngine

pub record OrderSnapshot : Type 0 where
  pub order_id : OrderId
  pub account_id : AccountId
  pub symbol_id : SymbolId
  pub side : Side
  pub price : Price
  pub qty_rem : Qty
  pub reserved_amount : ℤ

pub data EngineToGateway : Type 0 where
  to_client : (conn_id : ℕ) (event : Event) (risk_token : Option RiskToken) → EngineToGateway
  pong : (symbol_id : SymbolId) (orders_in_book : ℕ) → EngineToGateway
  to_market : (symbol_id : SymbolId) (event : Event) → EngineToGateway
  all_orders : List OrderSnapshot → EngineToGateway
  engine_ready : (symbol_id : SymbolId) (orders : List OrderSnapshot) → EngineToGateway

-- `GatewayToEngine::execute`, `EngineToGateway::client_event` and `EngineToGateway::market_data`.
unfoldable pub execute : Command → ℕ → RiskToken → GatewayToEngine
execute command conn_id risk_token =
    execute_command (record { command = command; conn_id = conn_id; risk_token = risk_token })

unfoldable pub client_event : ℕ → Event → Option RiskToken → EngineToGateway
client_event conn_id event risk_token = to_client conn_id event risk_token

unfoldable pub market_data : SymbolId → Event → EngineToGateway
market_data symbol_id event = to_market symbol_id event

unfoldable pub command_symbol_id : Command → Option SymbolId
command_symbol_id (new_order o) = some o.symbol_id
command_symbol_id (cancel c) = some c.symbol_id
command_symbol_id (replace r) = some r.symbol_id
command_symbol_id (set_risk_limits s) = some s.symbol_id
command_symbol_id (query_account q) = some q.symbol_id
command_symbol_id (authenticate a) = none

unfoldable pub command_account_id : Command → Option AccountId
command_account_id (new_order o) = some o.account_id
command_account_id (cancel c) = some c.account_id
command_account_id (replace r) = some r.account_id
command_account_id (set_risk_limits s) = some s.account_id
command_account_id (query_account q) = some q.account_id
command_account_id (authenticate a) = none

unfoldable pub command_order_id : Command → Option OrderId
command_order_id (new_order o) = some o.order_id
command_order_id (cancel c) = some c.order_id
command_order_id (replace r) = some r.order_id
command_order_id (set_risk_limits s) = none
command_order_id (query_account q) = none
command_order_id (authenticate a) = none

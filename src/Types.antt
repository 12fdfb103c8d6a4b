-- ===== src/Types.antt =====
-- crates/common/src/types.rs: the vocabulary of commands and events. An unsigned id is a native number,
-- an `i64` an integer; a text is the list of its UTF-8 bytes.
use high_perf_trading.Base.{ℕ, ℤ, pos, Bool, true, false, Option, List}

abbrev pub OrderId : Type 0
OrderId = ℕ

abbrev pub AccountId : Type 0
AccountId = ℕ

abbrev pub SymbolId : Type 0
SymbolId = ℕ

abbrev pub Price : Type 0
Price = ℤ

abbrev pub Qty : Type 0
Qty = ℤ

abbrev pub Text : Type 0
Text = List ℕ

pub data Side : Type 0 where
  buy sell : Side

abbrev pub opposite : Side → Side
opposite buy = sell
opposite sell = buy

-- The derived `==`.
abbrev pub is_buy : Side → Bool
is_buy buy = true
is_buy sell = false

pub record Position : Type 0 where
  pub net_position : ℤ
  pub avg_price : ℤ
  pub realized_pnl : ℤ

abbrev pub default_position : Position
default_position = record { net_position = pos 0; avg_price = pos 0; realized_pnl = pos 0 }

pub record RiskLimits : Type 0 where
  pub max_long_position : ℤ
  pub max_short_position : ℤ
  pub max_order_size : ℤ

abbrev pub default_limits : RiskLimits
default_limits = record {
  max_long_position = pos 10_000;
  max_short_position = pos 10_000;
  max_order_size = pos 1_000;
}

pub data TimeInForce : Type 0 where
  gtc ioc : TimeInForce

abbrev pub is_gtc : TimeInForce → Bool
is_gtc gtc = true
is_gtc ioc = false

pub record OrderFlags : Type 0 where
  pub post_only : Bool

pub record Authenticate : Type 0 where
  pub api_key : Text

pub record NewOrder : Type 0 where
  pub client_seq : ℕ
  pub order_id : OrderId
  pub account_id : AccountId
  pub symbol_id : SymbolId
  pub side : Side
  pub price : Price
  pub qty : Qty
  pub tif : TimeInForce
  pub flags : OrderFlags

pub record Cancel : Type 0 where
  pub client_seq : ℕ
  pub order_id : OrderId
  pub account_id : AccountId
  pub symbol_id : SymbolId

pub record Replace : Type 0 where
  pub client_seq : ℕ
  pub order_id : OrderId
  pub account_id : AccountId
  pub symbol_id : SymbolId
  pub new_price : Price
  pub new_qty : Qty

pub record SetRiskLimits : Type 0 where
  pub client_seq : ℕ
  pub account_id : AccountId
  pub symbol_id : SymbolId
  pub limits : RiskLimits

pub record QueryAccount : Type 0 where
  pub client_seq : ℕ
  pub account_id : AccountId
  pub symbol_id : SymbolId

pub data Command : Type 0 where
  new_order : NewOrder → Command
  cancel : Cancel → Command
  replace : Replace → Command
  set_risk_limits : SetRiskLimits → Command
  query_account : QueryAccount → Command
  authenticate : Authenticate → Command

pub data RejectReason : Type 0 where
  invalid risk overloaded not_found post_only_would_cross rate_limit_exceeded : RejectReason

pub record AuthSuccess : Type 0 where
  pub account_id : AccountId

pub record AuthFailure : Type 0 where
  pub reason : Text

pub record Ack : Type 0 where
  pub server_seq : ℕ
  pub client_seq : ℕ
  pub order_id : OrderId

pub record Reject : Type 0 where
  pub server_seq : ℕ
  pub client_seq : ℕ
  pub order_id : Option OrderId
  pub reason : RejectReason

pub record Fill : Type 0 where
  pub server_seq : ℕ
  pub client_seq : ℕ
  pub symbol_id : SymbolId
  pub taker_order_id : OrderId
  pub maker_order_id : OrderId
  pub price : Price
  pub qty : Qty

pub record BookTop : Type 0 where
  pub server_seq : ℕ
  pub symbol_id : SymbolId
  pub best_bid_px : Option Price
  pub best_bid_qty : Option Qty
  pub best_ask_px : Option Price
  pub best_ask_qty : Option Qty

pub record AccountState : Type 0 where
  pub server_seq : ℕ
  pub client_seq : ℕ
  pub account_id : AccountId
  pub symbol_id : SymbolId
  pub position : Position
  pub risk_limits : RiskLimits

pub data Event : Type 0 where
  ack : Ack → Event
  reject : Reject → Event
  fill : Fill → Event
  book_top : BookTop → Event
  account_state : AccountState → Event
  auth_success : AuthSuccess → Event
  auth_failure : AuthFailure → Event

-- ===== src/Gateway/Accounts.antt =====
-- crates/gateway_server/src/account_manager.rs: buying power, and what open orders reserve of it. The
-- journal is the list of the updates that reached it; `written` says whether an append succeeds.
pub mod Adjust
use high_perf_trading.Base.{ℤ, pos, Bool, [], if◌then◌else◌, ltb_ℤ, eqb_ℤ, unwrap_or, not}
use high_perf_trading.Base.Word.{add_i64, sub_i64, mul_i64, neg_i64, abs_i64}
use high_perf_trading.Base.HashMap.{HashMap}
use high_perf_trading.Base.HashMap
use high_perf_trading.Types.{
  AccountId, SymbolId, OrderId, Side, buy, sell, Position, default_position, RiskLimits,
  default_limits, Command, new_order, cancel, replace, set_risk_limits, query_account, authenticate,
  NewOrder, Replace, Event, fill,
}
use high_perf_trading.Types

pub data AccountUpdate : Type 0 where
  create_account_update : (account_id : AccountId) (buying_power : ℤ) → AccountUpdate

pub record AccountState : Type 0 where
  pub account_id : AccountId
  pub buying_power : ℤ
  pub tentative_reserved : ℤ
  pub positions : HashMap Position
  pub risk_limits : HashMap RiskLimits

-- `AccountState::new`.
unfoldable pub new_account : AccountId → ℤ → AccountState
new_account account_id buying_power = record {
  account_id = account_id;
  buying_power = buying_power;
  tentative_reserved = pos 0;
  positions = [];
  risk_limits = [];
}

unfoldable pub get_risk_limits : AccountState → SymbolId → RiskLimits
unfolding HashMap.get
get_risk_limits s symbol_id = unwrap_or (HashMap.get symbol_id s.risk_limits) default_limits

unfoldable pub get_position : AccountState → SymbolId → Position
unfolding HashMap.get
get_position s symbol_id = unwrap_or (HashMap.get symbol_id s.positions) default_position

pub record ReservationToken : Type 0 where
  pub account_id : AccountId
  pub symbol_id : SymbolId
  pub amount : ℤ
  pub order_id : OrderId

pub data RiskViolation : Type 0 where
  insufficient_funds position_limit_exceeded order_size_too_large account_not_found : RiskViolation

pub data Reservation : Type 0 where
  ok : ReservationToken → Reservation
  err : RiskViolation → Reservation

-- The account's part of a reservation: a violation, or the amount with the account that has it reserved.
pub data Reserved : Type 0 where
  refused : RiskViolation → Reserved
  granted : ℤ → AccountState → Reserved

-- The position that an order makes if it fills whole, and the money that it takes.
abbrev pub moved : Side → ℤ → ℤ → ℤ
moved buy position qty = add_i64 position qty
moved sell position qty = sub_i64 position qty

abbrev pub required : Side → ℤ → ℤ → ℤ
required buy price qty = mul_i64 price qty
required sell price qty = pos 0

abbrev pub available : AccountState → ℤ
available s = sub_i64 s.buying_power s.tentative_reserved

abbrev pub reserve : AccountState → ℤ → Reserved
reserve s amount =
    if ltb_ℤ (available s) amount
    then refused insufficient_funds
    else granted amount (record s { tentative_reserved = add_i64 s.tentative_reserved amount })

-- `check_and_reserve_order` under the account's lock.
unfoldable pub reserve_order : AccountState → NewOrder → Reserved
unfolding get_risk_limits get_position abs_i64
reserve_order s order =
    let limits = get_risk_limits s order.symbol_id in
    if ltb_ℤ limits.max_order_size (abs_i64 order.qty)
    then refused order_size_too_large
    else let new_position =
        moved order.side (get_position s order.symbol_id).net_position order.qty in
      if ltb_ℤ limits.max_long_position new_position
      then refused position_limit_exceeded
      else if ltb_ℤ new_position (neg_i64 limits.max_short_position)
      then refused position_limit_exceeded
      else reserve s (required order.side order.price order.qty)

-- `check_and_reserve_replace` under the account's lock.
unfoldable pub reserve_replace : AccountState → Replace → Reserved
unfolding get_risk_limits abs_i64
reserve_replace s r =
    if ltb_ℤ (get_risk_limits s r.symbol_id).max_order_size (abs_i64 r.new_qty)
    then refused order_size_too_large
    else reserve s (mul_i64 r.new_price r.new_qty)

-- `adjust_reservation` under the account's lock: the old amount is given back first.
unfoldable pub adjust_account : AccountState → ReservationToken → Replace → Reserved
unfolding get_risk_limits abs_i64
adjust_account s old r =
    if ltb_ℤ (get_risk_limits s r.symbol_id).max_order_size (abs_i64 r.new_qty)
    then refused order_size_too_large
    else let new_amount = mul_i64 r.new_price r.new_qty in
      if ltb_ℤ (add_i64 (available s) old.amount) new_amount
      then refused insufficient_funds
      else granted new_amount (record s {
        tentative_reserved = add_i64 (sub_i64 s.tentative_reserved old.amount) new_amount;
      })

-- One fill of an account's order: the whole reservation is released, money and position move.
unfoldable pub fill_account : AccountState → Types.Fill → ℤ → Bool → AccountState
unfolding HashMap.get HashMap.insert
fill_account s f amount is_buy =
    let cost = mul_i64 f.price f.qty in
    let p = unwrap_or (HashMap.get f.symbol_id s.positions) default_position in
    let net = if is_buy then add_i64 p.net_position f.qty else sub_i64 p.net_position f.qty in
    record s {
      tentative_reserved = sub_i64 s.tentative_reserved amount;
      buying_power = if is_buy then sub_i64 s.buying_power cost else add_i64 s.buying_power cost;
      positions =
          HashMap.insert f.symbol_id
            (record p {
              net_position = net;
              avg_price = if not (eqb_ℤ net (pos 0)) then f.price else p.avg_price;
            })
            s.positions;
    }

unfoldable pub extract_account_id : Command → AccountId
extract_account_id (new_order o) = o.account_id
extract_account_id (cancel c) = c.account_id
extract_account_id (replace r) = r.account_id
extract_account_id (set_risk_limits s) = s.account_id
extract_account_id (query_account q) = q.account_id
extract_account_id (authenticate a) = 0

unfoldable pub extract_symbol_id : Command → SymbolId
extract_symbol_id (new_order o) = o.symbol_id
extract_symbol_id (cancel c) = c.symbol_id
extract_symbol_id (replace r) = r.symbol_id
extract_symbol_id (set_risk_limits s) = s.symbol_id
extract_symbol_id (query_account q) = q.symbol_id
extract_symbol_id (authenticate a) = 0

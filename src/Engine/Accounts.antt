-- ===== src/Engine/Accounts.antt =====
-- crates/engine/src/account_manager.rs: positions and risk limits of the engine.
pub mod Positions
pub mod Risk
use high_perf_trading.Base.{
  ℕ, ℤ, pos, Bool, true, false, not, Option, none, some, List, [], ◌∷◌, if◌then◌else◌, length,
  ltb_ℤ, eqb_ℤ, min_ℤ, unwrap_or, ◌>>=◌,
}
use high_perf_trading.Base.Word.{add_i64, sub_i64, mul_i64, neg_i64, div_i64}
use high_perf_trading.Base.HashMap.{HashMap}
use high_perf_trading.Base.HashMap
use high_perf_trading.Types.{
  AccountId, Side, buy, sell, Price, Qty, Position, default_position, RiskLimits, RejectReason,
  risk,
}

pub record AccountManager : Type 0 where
  pub positions : HashMap Position
  pub risk_limits : HashMap RiskLimits
  pub default_limits : RiskLimits

unfoldable pub new : RiskLimits → AccountManager
new limits = record { positions = []; risk_limits = []; default_limits = limits }

unfoldable pub get_position : AccountManager → AccountId → Position
unfolding HashMap.get
get_position m account_id = unwrap_or (HashMap.get account_id m.positions) default_position

unfoldable pub get_limits : AccountManager → AccountId → RiskLimits
unfolding HashMap.get
get_limits m account_id = unwrap_or (HashMap.get account_id m.risk_limits) m.default_limits

unfoldable pub set_limits : AccountManager → AccountId → RiskLimits → AccountManager
unfolding HashMap.insert
set_limits m account_id limits = record m {
  risk_limits = HashMap.insert account_id limits m.risk_limits;
}

-- The position that an order makes if it fills whole.
abbrev pub moved : Side → ℤ → Qty → ℤ
moved buy position qty = add_i64 position qty
moved sell position qty = sub_i64 position qty

-- `none` is `Ok(())`, `some` the reason of an `Err`.
unfoldable pub check_risk : AccountManager → AccountId → Side → Qty → Option RejectReason
unfolding get_limits get_position add_i64 sub_i64 neg_i64
check_risk m account_id side qty =
    let limits = get_limits m account_id in
    if ltb_ℤ limits.max_order_size qty
    then some risk
    else let new_position = moved side (get_position m account_id).net_position qty in
      if ltb_ℤ limits.max_long_position new_position
      then some risk
      else if ltb_ℤ new_position (neg_i64 limits.max_short_position)
      then some risk
      else none

-- A fill that closes a position of the other sign: profit on what it closes, a new entry price if it
-- opens the other way.
abbrev pub close_position : Qty → ℤ → Price → Qty → Position → Position
close_position open_qty pnl_per_lot price qty p =
    let closing_qty = min_ℤ qty open_qty in
    record p {
      realized_pnl = add_i64 p.realized_pnl (mul_i64 closing_qty pnl_per_lot);
      avg_price = if ltb_ℤ (pos 0) (sub_i64 qty closing_qty) then price else p.avg_price;
    }

-- A fill that opens or adds: the weighted average price. `none`: the division panics.
abbrev pub add_position : Qty → Price → Qty → Position → Option Position
add_position held price qty p =
    if eqb_ℤ p.net_position (pos 0)
    then some (record p { avg_price = price })
    else (div_i64 (add_i64 (mul_i64 held p.avg_price) (mul_i64 qty price)) (add_i64 held qty)
        >>= λ avg. some (record p { avg_price = avg }))

-- One position after a fill, before its net position moves.
unfoldable pub revalue : Side → Price → Qty → Position → Option Position
unfolding add_i64 sub_i64 mul_i64 neg_i64 div_i64
revalue buy price qty p =
    if ltb_ℤ p.net_position (pos 0)
    then some (close_position (neg_i64 p.net_position) (sub_i64 p.avg_price price) price qty p)
    else add_position p.net_position price qty p
revalue sell price qty p =
    if ltb_ℤ (pos 0) p.net_position
    then some (close_position p.net_position (sub_i64 price p.avg_price) price qty p)
    else add_position (neg_i64 p.net_position) price qty p

-- `none`: the division of the average price panics.
unfoldable pub apply_fill : AccountManager → AccountId → Side → Price → Qty → Option AccountManager
unfolding get_position HashMap.insert revalue add_i64 sub_i64
apply_fill m account_id side price qty = revalue side price qty (get_position m account_id) >>= λ p.
    some (record m {
      positions =
          HashMap.insert account_id (record p { net_position = moved side p.net_position qty })
            m.positions;
    })

-- Also the keys of `accounts_with_positions`.
unfoldable pub held_by : HashMap Position → List AccountId
held_by [] = []
held_by ((account_id, p) ∷ m) =
    let rest = held_by m in if not (eqb_ℤ p.net_position (pos 0)) then account_id ∷ rest else rest

unfoldable pub accounts_with_positions : AccountManager → List AccountId
unfolding held_by
accounts_with_positions m = held_by m.positions

unfoldable pub account_count : AccountManager → ℕ
account_count m = length m.positions

-- ===== src/Gateway/Accounts/Adjust.antt =====
-- Adjusting a reservation of crates/gateway_server/src/account_manager.rs, against giving it back first.
use high_perf_trading.Base.{pos, ◌≤ℤ◌, ◌≡◌, ap, ltb_ℤ, if◌then◌else◌}
use high_perf_trading.Base.Word.{IsI64, add_i64, sub_i64, mul_i64, abs_i64, add-sub_i64}
use high_perf_trading.Types.{Replace}
use high_perf_trading.Gateway.Accounts.{
  AccountState, ReservationToken, refused, granted, insufficient_funds, order_size_too_large,
  get_risk_limits, reserve_replace, adjust_account,
}

abbrev pub given_back : AccountState → ReservationToken → AccountState
given_back s t = record s { tentative_reserved = sub_i64 s.tentative_reserved t.amount }

-- Adjusting an account's reservation to a replacement decides and leaves what reserving the replacement
-- does once the old reservation is given back, where the old amount is part of the account's reserved sum
-- and that is covered by its buying power.
pub adjust_account-given_back :
    (s : AccountState) (old : ReservationToken) (r : Replace)
    → IsI64 s.buying_power
    → pos 0 ≤ℤ old.amount
    → old.amount ≤ℤ s.tentative_reserved
    → s.tentative_reserved ≤ℤ s.buying_power
    → adjust_account s old r ≡ reserve_replace (given_back s old) r
unfolding adjust_account reserve_replace get_risk_limits
adjust_account-given_back s old r h k p q =
    ap
      (λ free.
        if ltb_ℤ (get_risk_limits s r.symbol_id).max_order_size (abs_i64 r.new_qty)
        then refused order_size_too_large
        else if ltb_ℤ free (mul_i64 r.new_price r.new_qty)
        then refused insufficient_funds
        else granted (mul_i64 r.new_price r.new_qty) (record s {
          tentative_reserved =
              add_i64 (sub_i64 s.tentative_reserved old.amount) (mul_i64 r.new_price r.new_qty);
        }))
      (add-sub_i64 s.buying_power s.tentative_reserved old.amount h k p q)

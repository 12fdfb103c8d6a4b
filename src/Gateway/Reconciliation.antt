-- ===== src/Gateway/Reconciliation.antt =====
-- crates/gateway_server/src/reconciliation.rs: the reserved sums, rebuilt from the orders that rest in the
-- engines. The order list is what the engines' query returned.
pub mod Sums
use high_perf_trading.Base.{ℕ, ℤ, pos, List, [], ◌∷◌, unwrap_or}
use high_perf_trading.Base.Word.{add_i64}
use high_perf_trading.Base.HashMap.{HashMap}
use high_perf_trading.Base.HashMap
use high_perf_trading.Protocol.{OrderSnapshot}
use high_perf_trading.Gateway.DashMap.{DashMapApi}
use high_perf_trading.Gateway.Accounts.{AccountState}
use high_perf_trading.Gateway.Manager.{AccountManager, set_tentative_reserved}

-- `*entry(account_id).or_insert(0) += reserved_amount` for each order.
unfoldable pub group_by_account : List OrderSnapshot → HashMap ℤ → HashMap ℤ
unfolding HashMap.get HashMap.insert add_i64
group_by_account [] m = m
group_by_account (o ∷ os) m = group_by_account os (
    HashMap.insert o.account_id
      (add_i64 (unwrap_or (HashMap.get o.account_id m) (pos 0)) o.reserved_amount) m)

module _ ⦃dash : DashMapApi AccountState⦄ where
  unfoldable pub set_all : HashMap ℤ → AccountManager → AccountManager
  unfolding set_tentative_reserved
  set_all [] m = m
  set_all ((account_id, total) ∷ es) m = set_all es (set_tentative_reserved m account_id total)

  unfoldable pub rebuild_reservations : AccountManager → List OrderSnapshot → AccountManager
  unfolding group_by_account set_all
  rebuild_reservations m orders = set_all (group_by_account orders []) m

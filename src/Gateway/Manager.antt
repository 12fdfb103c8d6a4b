-- ===== src/Gateway/Manager.antt =====
-- crates/gateway_server/src/account_manager.rs: the operations of the account manager over all accounts.
pub mod Recovery
pub mod Release
pub mod Reserve
use high_perf_trading.Base.{
  ℕ, ℤ, pos, Bool, true, false, Option, none, some, List, [], ◌∷◌, ◌++◌, map, if◌then◌else◌,
  unwrap_or,
}
use high_perf_trading.Base.Word.{inc_u64, sub_i64}
use high_perf_trading.Base.HashMap.{HashMap}
use high_perf_trading.Base.HashMap
use high_perf_trading.Types.{
  AccountId, SymbolId, OrderId, Position, RiskLimits, Command, new_order, replace, NewOrder,
  Replace, Event, fill,
}
use high_perf_trading.Gateway.DashMap.{DashMapApi}
use high_perf_trading.Gateway.Accounts.{
  AccountUpdate, create_account_update, AccountState, new_account, ReservationToken, RiskViolation,
  account_not_found, Reservation, ok, err, Reserved, refused, granted, reserve_order,
  reserve_replace, adjust_account, fill_account, extract_account_id, extract_symbol_id,
}

-- `AccountStateSnapshot` and `AccountSnapshot` of crates/gateway_server/src/persistence.rs.
pub record AccountStateSnapshot : Type 0 where
  pub account_id : AccountId
  pub buying_power : ℤ
  pub positions : List (SymbolId × Position)
  pub risk_limits : List (SymbolId × RiskLimits)

pub record AccountSnapshot : Type 0 where
  pub sequence : ℕ
  pub accounts : List AccountStateSnapshot

abbrev pub insert_all {ℓ} : {V : Type ℓ} → List (ℕ × V) → HashMap V → HashMap V
insert_all [] m = m
insert_all ((k, v) ∷ es) m = insert_all es (HashMap.insert k v m)

unfoldable pub restore_account : AccountStateSnapshot → AccountState
unfolding new_account HashMap.insert
restore_account a = record (new_account a.account_id a.buying_power) {
  positions = insert_all a.positions [];
  risk_limits = insert_all a.risk_limits [];
}

unfoldable pub snapshot_account : AccountState → AccountStateSnapshot
snapshot_account s = record {
  account_id = s.account_id;
  buying_power = s.buying_power;
  positions = s.positions;
  risk_limits = s.risk_limits;
}

module _ ⦃dash : DashMapApi AccountState⦄ where
  pub record AccountManager : Type 0 where
    pub accounts : dash.Map
    pub next_gateway_seq : ℕ
    pub journal : Option (List AccountUpdate)

  unfoldable pub new : AccountManager
  new = record { accounts = dash.empty; next_gateway_seq = 1; journal = none }

  unfoldable pub with_journal : List AccountUpdate → AccountManager
  with_journal journal = record {
    accounts = dash.empty;
    next_gateway_seq = 1;
    journal = some journal;
  }

  -- An append that fails is only reported.
  abbrev pub appended :
      Bool → AccountUpdate → Option (List AccountUpdate) → Option (List AccountUpdate)
  appended written update none = none
  appended written update (some log) = some (if written then log ++ update ∷ [] else log)

  unfoldable pub log_update : Bool → AccountManager → AccountUpdate → AccountManager
  log_update written m update = record m { journal = appended written update m.journal }

  unfoldable pub create_account : Bool → AccountManager → AccountId → ℤ → AccountManager
  unfolding log_update new_account
  create_account written m account_id buying_power =
      log_update written
        (record m {
          accounts = dash.insert m.accounts account_id (new_account account_id buying_power);
        })
        (create_account_update account_id buying_power)

  unfoldable pub next_seq : AccountManager → ℕ × AccountManager
  next_seq m = (m.next_gateway_seq, record m { next_gateway_seq = inc_u64 m.next_gateway_seq })

  unfoldable pub get_account : AccountManager → AccountId → Option AccountState
  get_account m account_id = dash.get m.accounts account_id

  -- A write back under the lock.
  abbrev pub put_account : AccountManager → AccountId → AccountState → AccountManager
  put_account m account_id s = record m { accounts = dash.insert m.accounts account_id s }

  abbrev pub token : AccountId → SymbolId → ℤ → OrderId → ReservationToken
  token account_id symbol_id amount order_id = record {
    account_id = account_id;
    symbol_id = symbol_id;
    amount = amount;
    order_id = order_id;
  }

  abbrev pub finish :
      AccountManager → AccountId → SymbolId → OrderId → Reserved → Reservation × AccountManager
  finish m account_id symbol_id order_id (refused v) = (err v, m)
  finish m account_id symbol_id order_id (granted amount s) =
      (ok (token account_id symbol_id amount order_id), put_account m account_id s)

  -- A reservation on an account that must be there.
  abbrev pub on_found :
      AccountManager
      → AccountId
      → SymbolId
      → OrderId
      → (AccountState → Reserved)
      → Option AccountState
      → Reservation × AccountManager
  on_found m account_id symbol_id order_id f none = (err account_not_found, m)
  on_found m account_id symbol_id order_id f (some s) = finish m account_id symbol_id order_id (f s)

  abbrev pub on_account :
      AccountManager
      → AccountId
      → SymbolId
      → OrderId
      → (AccountState → Reserved)
      → Reservation × AccountManager
  on_account m account_id symbol_id order_id f =
      on_found m account_id symbol_id order_id f (dash.get m.accounts account_id)

  unfoldable pub check_and_reserve_order : AccountManager → NewOrder → Reservation × AccountManager
  check_and_reserve_order m order =
      on_account m order.account_id order.symbol_id order.order_id (λ s. reserve_order s order)

  unfoldable pub check_and_reserve_replace : AccountManager → Replace → Reservation × AccountManager
  check_and_reserve_replace m r =
      on_account m r.account_id r.symbol_id r.order_id (λ s. reserve_replace s r)

  unfoldable pub check_and_reserve : AccountManager → Command → Reservation × AccountManager
  check_and_reserve m (new_order order) = check_and_reserve_order m order
  check_and_reserve m (replace r) = check_and_reserve_replace m r
  check_and_reserve m cmd =
      (ok (token (extract_account_id cmd) (extract_symbol_id cmd) (pos 0) 0), m)

  unfoldable pub adjust_reservation :
      AccountManager → ReservationToken → Replace → Reservation × AccountManager
  adjust_reservation m old r =
      on_account m r.account_id r.symbol_id r.order_id (λ s. adjust_account s old r)

  -- A change of one account, if it is there.
  abbrev pub modify_found :
      AccountManager
      → AccountId
      → (AccountState → AccountState)
      → Option AccountState
      → AccountManager
  modify_found m account_id f none = m
  modify_found m account_id f (some s) = put_account m account_id (f s)

  abbrev pub modify_account :
      AccountManager → AccountId → (AccountState → AccountState) → AccountManager
  modify_account m account_id f = modify_found m account_id f (dash.get m.accounts account_id)

  unfoldable pub apply_fill : AccountManager → Event → ReservationToken → Bool → AccountManager
  apply_fill m (fill f) t is_buy =
      modify_account m t.account_id (λ s. fill_account s f t.amount is_buy)
  apply_fill m _ t is_buy = m

  unfoldable pub release_reservation : AccountManager → ReservationToken → AccountManager
  release_reservation m t =
      modify_account m t.account_id
        (λ s. record s { tentative_reserved = sub_i64 s.tentative_reserved t.amount })

  unfoldable pub set_tentative_reserved : AccountManager → AccountId → ℤ → AccountManager
  set_tentative_reserved m account_id amount =
      modify_account m account_id (λ s. record s { tentative_reserved = amount })

  abbrev reserved_of : Option AccountState → ℤ
  reserved_of none = pos 0
  reserved_of (some s) = s.tentative_reserved

  unfoldable pub get_tentative_reserved : AccountManager → AccountId → ℤ
  get_tentative_reserved m account_id = reserved_of (dash.get m.accounts account_id)

  unfoldable pub create_snapshot : AccountManager → ℕ → AccountSnapshot
  create_snapshot m sequence = record {
    sequence = sequence;
    accounts = map (λ e. snapshot_account e.1) (dash.entries m.accounts);
  }

  unfoldable pub restore_accounts : AccountManager → List AccountStateSnapshot → AccountManager
  restore_accounts m [] = m
  restore_accounts m (a ∷ as') =
      restore_accounts (put_account m a.account_id (restore_account a)) as'

  unfoldable pub restore_from_snapshot : AccountManager → AccountSnapshot → AccountManager
  restore_from_snapshot m snapshot =
      restore_accounts (record m { accounts = dash.empty }) snapshot.accounts

  unfoldable pub replay_journal : AccountManager → List AccountUpdate → AccountManager
  replay_journal m [] = m
  replay_journal m (create_account_update account_id buying_power ∷ updates) =
      replay_journal (put_account m account_id (new_account account_id buying_power)) updates

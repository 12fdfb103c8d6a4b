-- ===== src/Tests/Gateway.antt =====
-- Runs of the account manager of crates/gateway_server/src/account_manager.rs.
use high_perf_trading.Base.{
  ℤ, pos, Bool, true, false, none, some, List, [], ◌∷◌, ◌≡◌, refl, subst, ap, unwrap_or, one_part,
  if◌then◌else◌, ◌==◌, arith,
}
use high_perf_trading.Base.Int.{◌+ℤ◌, ◌-ℤ◌, ◌*ℤ◌}
use high_perf_trading.Base.Word.{wrap_i64, mul_i64, add_i64}
use high_perf_trading.Base.HashMap
use high_perf_trading.Types.{buy, gtc, NewOrder, new_order}
use high_perf_trading.Gateway.DashMap.Sample.{sample_map}
use high_perf_trading.Gateway.Accounts.{
  reserve_order, AccountState, AccountUpdate, create_account_update, new_account,
}
use high_perf_trading.Gateway.Manager.{
  AccountManager, with_journal, new, create_account, check_and_reserve, check_and_reserve_order,
  get_tentative_reserved, get_account, replay_journal,
}
use high_perf_trading.Gateway.Manager.Reserve.{Solvent, AllSolvent}
use high_perf_trading.Gateway.Manager.Release.{
  check_and_reserve-AllSolvent, release_reservation-check_and_reserve, Undone, AllWords,
}
use high_perf_trading.Gateway.Accounts.{ReservationToken, adjust_account, reserve_replace}
use high_perf_trading.Gateway.Accounts.Adjust.{adjust_account-given_back, given_back}
use high_perf_trading.Types.{Replace}
use high_perf_trading.Protocol.{OrderSnapshot}
use high_perf_trading.Gateway.Reconciliation.{rebuild_reservations}
use high_perf_trading.Gateway.Reconciliation.Sums.{get_account-rebuild_reservations, settled, tally}
use high_perf_trading.Gateway.Manager.Recovery.{create_all, replay_journal-create_all}

-- A manager with account 3, which has 1,000 to spend.
abbrev pub manager : AccountManager
manager = create_account true new 3 (pos 1_000)

abbrev pub order : NewOrder
order = record {
  client_seq = 1;
  order_id = 20;
  account_id = 3;
  symbol_id = 1;
  side = buy;
  price = pos 105;
  qty = pos 6;
  tif = gtc;
  flags = record { post_only = false };
}

test_reserved : get_tentative_reserved (check_and_reserve manager (new_order order)).1 3 ≡ pos 630
unfolding get_tentative_reserved check_and_reserve create_account new mul_i64 wrap_i64 ◌+ℤ◌ ◌-ℤ◌
    ◌*ℤ◌ sample_map check_and_reserve_order HashMap.insert reserve_order add_i64
test_reserved = refl

fresh-Solvent :
    (t : Bool) (s : AccountState)
    → (if t then some (new_account 3 (pos 1_000)) else none) ≡ some s
    → Solvent s
unfolding new_account
fresh-Solvent true s e =
    subst Solvent (ap (λ o. unwrap_or o s) e)
      (record { word = omega arith; nonneg = omega arith; covered = omega arith })
fresh-Solvent false s e = cc

manager-AllSolvent : AllSolvent manager
unfolding get_account create_account new HashMap.insert HashMap.get sample_map
manager-AllSolvent id s e = fresh-Solvent (3 == id) s e

check_and_reserve-AllSolvent_example : AllSolvent (check_and_reserve manager (new_order order)).1
unfolding mul_i64 wrap_i64 ◌*ℤ◌
check_and_reserve-AllSolvent_example =
    check_and_reserve-AllSolvent manager (new_order order) manager-AllSolvent (omega arith)

pub manager-AllWords : AllWords manager
manager-AllWords id s e =
    let h = manager-AllSolvent id s e in
    omega
      (arith, h.word, h.nonneg, h.covered, one_part s.tentative_reserved, one_part s.buying_power)

release_reservation-check_and_reserve_example :
    Undone manager (check_and_reserve manager (new_order order))
release_reservation-check_and_reserve_example =
    release_reservation-check_and_reserve manager (new_order order) manager-AllWords

abbrev updates : List AccountUpdate
updates =
    create_account_update 3 (pos 1_000)
    ∷ create_account_update 4 (pos 50)
    ∷ create_account_update 3 (pos 2_000)
    ∷ []

test_replay_journal :
    ((create_all (with_journal []) updates).journal ≡ some updates)
    × ((replay_journal new updates).accounts ≡ (create_all (with_journal []) updates).accounts)
test_replay_journal = replay_journal-create_all updates

-- An order of account 3 that rests in an engine.
abbrev resting : ℤ → OrderSnapshot
resting amount = record {
  order_id = 20;
  account_id = 3;
  symbol_id = 1;
  side = buy;
  price = pos 105;
  qty_rem = pos 6;
  reserved_amount = amount;
}

get_account-rebuild_reservations_example :
    get_account (rebuild_reservations manager (resting (pos 630) ∷ resting (pos 20) ∷ [])) 3
    ≡ settled (tally 3 (resting (pos 630) ∷ resting (pos 20) ∷ []) none) (get_account manager 3)
get_account-rebuild_reservations_example =
    get_account-rebuild_reservations manager (resting (pos 630) ∷ resting (pos 20) ∷ []) 3

-- The account with 630 reserved for order 20, which is to be replaced.
abbrev reserving : AccountState
reserving = record {
  account_id = 3;
  buying_power = pos 1_000;
  tentative_reserved = pos 630;
  positions = [];
  risk_limits = [];
}

abbrev old_token : ReservationToken
old_token = record { account_id = 3; symbol_id = 1; amount = pos 630; order_id = 20 }

abbrev replacing : Replace
replacing = record {
  client_seq = 2;
  order_id = 20;
  account_id = 3;
  symbol_id = 1;
  new_price = pos 106;
  new_qty = pos 8;
}

adjust_account-given_back_example :
    adjust_account reserving old_token replacing
    ≡ reserve_replace (given_back reserving old_token) replacing
adjust_account-given_back_example =
    adjust_account-given_back reserving old_token replacing (omega arith) (omega arith)
      (omega arith) (omega arith)

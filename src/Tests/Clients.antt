-- ===== src/Tests/Clients.antt =====
-- Runs of the client handler of crates/gateway_server/src/client_handler.rs.
use high_perf_trading.Base.{
  ℕ, ◌≤◌, ◌<◌, ◌^◌, arith, pos, Bool, true, false, none, some, [], ◌∷◌, ◌≡◌, refl, if◌then◌else◌,
  is_some,
}
use high_perf_trading.Base.Int.{◌+ℤ◌, ◌-ℤ◌, ◌*ℤ◌}
use high_perf_trading.Base.Word.{wrap_i64, mul_i64, add_i64}
use high_perf_trading.Base.HashMap
use high_perf_trading.Types.{
  AccountId, Event, ack, Ack, Cancel, new_order, NewOrder, risk, fill, Fill, buy, sell,
}
use high_perf_trading.Protocol.{to_client}
use high_perf_trading.Gateway.DashMap.Sample.{sample_map}
use high_perf_trading.Gateway.Accounts.{
  get_position, reserve_order, create_account_update, new_account, ReservationToken,
}
use high_perf_trading.Gateway.Manager.{
  AccountManager, AccountSnapshot, new, create_account, check_and_reserve, check_and_reserve_order,
  get_account,
}
use high_perf_trading.Gateway.Sessions.{is_authenticated}
use high_perf_trading.Gateway.Auth.{
  AuthService, authenticate, revoke_api_key, same_text, authenticate-revoke_api_key,
}
use high_perf_trading.Gateway.Clients.{
  Gateway, receive, place, handle_cancel, reject_ids, send_reject, approve,
}
use high_perf_trading.Gateway.Clients.Turns.{Quiet, receive-Quiet, place-declined, SameAccounts}
use high_perf_trading.Gateway.Clients.Unrouted.{place-unrouted}
use high_perf_trading.Gateway.Responses.{respond}
use high_perf_trading.Gateway.Responses.Fills.{Matched, Spare, FilledBoth, respond-FilledBoth}
use high_perf_trading.Gateway.Pending.{OrderMetadata, active}
use high_perf_trading.Gateway.Responses.Lifecycle.{respond-handle_cancel-place}
use high_perf_trading.Gateway.Pending.Named.{Named}
use high_perf_trading.Gateway.Clients.Table.{receive-Named}
use high_perf_trading.Gateway.Responses.Table.{ended, get-respond}
use high_perf_trading.Gateway.Startup.{recover_accounts, recover_accounts-created}
use high_perf_trading.Tests.Gateway.{manager, order, manager-AllWords}

-- Connection 8 has a session as account 3.
abbrev gateway : Gateway
gateway = record {
  account_manager = manager;
  auth_service = [];
  session_manager = (8, 3) ∷ [];
  pending_orders = [];
  frames_in = 0;
  frames_out = 0;
}

-- The codec encodes every event.
abbrev encodes : Event → Bool
encodes ev = true

receive-Quiet_example :
    Quiet [] gateway (receive encodes (λ s m. true) 9 [] gateway (new_order order))
unfolding is_authenticated HashMap.contains_key HashMap.get
receive-Quiet_example = receive-Quiet encodes (λ s m. true) 9 [] gateway (new_order order) refl

-- More than the account has.
abbrev costly : NewOrder
costly = record order { qty = pos 60 }

place-declined_example :
    Quiet [] gateway (place encodes (λ s m. true) 8 [] gateway (new_order costly) 1)
    × (place encodes (λ s m. true) 8 [] gateway (new_order costly) 1 ≡ (
      [],
      send_reject encodes gateway
          (reject_ids (new_order costly)).0
          (reject_ids (new_order costly)).1
          risk,
    ))
unfolding approve check_and_reserve create_account new mul_i64 wrap_i64 ◌+ℤ◌ ◌-ℤ◌ ◌*ℤ◌ sample_map
    check_and_reserve_order HashMap.insert reserve_order add_i64
place-declined_example =
    place-declined encodes (λ s m. true) 8 [] gateway (new_order costly) 1 risk refl

place-unrouted_example :
    SameAccounts gateway (place encodes (λ s m. false) 8 [] gateway (new_order order) 1).1.0
place-unrouted_example =
    place-unrouted encodes (λ s m. false) 8 [] gateway order 1 (λ s m. refl) manager-AllWords

abbrev order_cancel : Cancel
order_cancel = record { client_seq = 2; order_id = 20; account_id = 3; symbol_id = 1 }

abbrev cancel_ack : Ack
cancel_ack = record { server_seq = 9; client_seq = 2; order_id = 20 }

abbrev order_token : ReservationToken
order_token = record { account_id = 3; symbol_id = 1; amount = pos 630; order_id = 20 }

respond-handle_cancel-place_example :
    let placed = (place encodes (λ s m. true) 8 [] gateway (new_order order) 1).1.0 in
    let cancelled = (handle_cancel encodes (λ s m. true) 8 [] placed order_cancel).1.0 in
    let g' = (respond [] cancelled (to_client 8 (ack cancel_ack) none)).0 in
    SameAccounts gateway g' × (HashMap.get 20 g'.pending_orders ≡ none)
unfolding check_and_reserve create_account new mul_i64 wrap_i64 ◌+ℤ◌ ◌-ℤ◌ ◌*ℤ◌ sample_map
    check_and_reserve_order HashMap.insert reserve_order add_i64
respond-handle_cancel-place_example =
    respond-handle_cancel-place encodes (λ s m. true) [] 8 [] [] gateway order order_cancel
      cancel_ack order_token (check_and_reserve manager (new_order order)).1 none (λ s m. refl)
      manager-AllWords refl refl refl

empty-Named : Named []
unfolding HashMap.get
empty-Named id metadata e = cc e

receive-Named_example :
    Named (receive encodes (λ s m. true) 8 [] gateway (new_order order)).1.0.pending_orders
receive-Named_example =
    receive-Named encodes (λ s m. true) 8 [] gateway (new_order order) empty-Named

-- The gateway with the order in its table.
abbrev placed : Gateway
placed = (receive encodes (λ s m. true) 8 [] gateway (new_order order)).1.0

get-respond_example :
    HashMap.get 20 (respond [] placed (to_client 8 (ack cancel_ack) none)).0.pending_orders ≡ (
      if ended placed.pending_orders (to_client 8 (ack cancel_ack) none) 20
      then none
      else HashMap.get 20 placed.pending_orders)
get-respond_example = get-respond [] placed (to_client 8 (ack cancel_ack) none) 20

-- A snapshot in which account 3 has spent most of its money.
abbrev spent : AccountSnapshot
spent = record {
  sequence = 5;
  accounts =
      record { account_id = 3; buying_power = pos 10; positions = []; risk_limits = [] } ∷ [];
}

recover_accounts-created_example :
    get_account (recover_accounts (some spent) (create_account_update 3 (pos 1_000) ∷ [])) 3
    ≡ some (new_account 3 (pos 1_000))
recover_accounts-created_example =
    recover_accounts-created spent (create_account_update 3 (pos 1_000) ∷ []) 3 (pos 1_000) refl

-- "a" and "b".
abbrev keys : AuthService
keys = (97 ∷ [], 3) ∷ (98 ∷ [], 4) ∷ []

test_revoke_api_key :
    (authenticate (98 ∷ []) (revoke_api_key (97 ∷ []) keys).1
      ≡ (if same_text (97 ∷ []) (98 ∷ []) then none else authenticate (98 ∷ []) keys))
    × ((revoke_api_key (97 ∷ []) keys).0 ≡ is_some (authenticate (97 ∷ []) keys))
test_revoke_api_key = authenticate-revoke_api_key (97 ∷ []) (98 ∷ []) keys

-- A sale of account 3 and a purchase of account 4, with the fill of both.
abbrev sale_metadata : OrderMetadata
sale_metadata = record {
  reservation_token = record { account_id = 3; symbol_id = 1; amount = pos 0; order_id = 30 };
  side = sell;
  operation = active;
  conn_id = 8;
}

abbrev purchase_metadata : OrderMetadata
purchase_metadata = record {
  reservation_token = record { account_id = 4; symbol_id = 1; amount = pos 40; order_id = 31 };
  side = buy;
  operation = active;
  conn_id = 9;
}

abbrev both_accounts : AccountManager
unfolding sample_map
both_accounts = record manager {
  accounts = (3, new_account 3 (pos 100)) ∷ (4, new_account 4 (pos 200)) ∷ [];
}

abbrev trading : Gateway
trading = record gateway {
  account_manager = both_accounts;
  pending_orders = (30, sale_metadata) ∷ (31, purchase_metadata) ∷ [];
}

abbrev both_fill : Fill
both_fill = record {
  server_seq = 7;
  client_seq = 1;
  symbol_id = 1;
  taker_order_id = 31;
  maker_order_id = 30;
  price = pos 10;
  qty = pos 4;
}

matched :
    Matched trading both_fill sale_metadata purchase_metadata
      (new_account 3 (pos 100))
      (new_account 4 (pos 200))
unfolding HashMap.get sample_map
matched = record {
  maker_waits = refl;
  taker_waits = refl;
  maker_account = refl;
  taker_account = refl;
  two_accounts = λ e. ground arith;
  two_sides = refl;
}

has_room : (a : AccountId) (n : ℕ) → 40 ≤ n → n < 2 ^ 62 → Spare both_fill (new_account a (pos n))
unfolding new_account get_position HashMap.get mul_i64 wrap_i64 ◌*ℤ◌ ◌+ℤ◌ ◌-ℤ◌
has_room a n low high = record {
  pays = ground arith;
  earns = ground arith;
  buys = ground arith;
  sells = ground arith;
}

respond-FilledBoth_example :
    FilledBoth trading
      (respond [] trading (to_client 9 (fill both_fill) none)).0
      both_fill
      sale_metadata
      purchase_metadata
      (new_account 3 (pos 100))
      (new_account 4 (pos 200))
respond-FilledBoth_example =
    respond-FilledBoth [] trading 9 both_fill sale_metadata purchase_metadata
      (new_account 3 (pos 100)) (new_account 4 (pos 200)) matched
      (has_room 3 100 (omega arith) (omega arith)) (has_room 4 200 (omega arith) (omega arith))

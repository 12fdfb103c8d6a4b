-- ===== src/Gateway/Startup.antt =====
-- What `main` of crates/gateway_server/src/main.rs makes of the snapshot, the journal and the engines' orders
-- when the gateway starts.
use high_perf_trading.Base.{
  ℤ, pos, true, Option, none, some, List, [], ◌∷◌, ◌++◌, ◌+◌, ◌==◌, if◌then◌else◌, length, ◌≡◌,
  refl, ap, ◌∙◌, inl, inr, Bool-cases, ==_iff,
}
use high_perf_trading.Types.{Text, AccountId}
use high_perf_trading.Protocol.{OrderSnapshot}
use high_perf_trading.Gateway.DashMap.{DashMapApi}
use high_perf_trading.Gateway.Accounts.{
  AccountUpdate, create_account_update, AccountState, new_account,
}
use high_perf_trading.Gateway.Manager.{
  AccountManager, AccountSnapshot, with_journal, restore_from_snapshot, replay_journal,
  create_account, create_snapshot, get_account, put_account,
}
use high_perf_trading.Gateway.Auth.{AuthService, register_api_key}
use high_perf_trading.Gateway.Auth
use high_perf_trading.Gateway.Reconciliation.{rebuild_reservations}

-- "test-key-" and the number of the account, which is 1 to 10.
abbrev pub test_key : AccountId → Text
test_key account_id =
    (116 ∷ 101 ∷ 115 ∷ 116 ∷ 45 ∷ 107 ∷ 101 ∷ 121 ∷ 45 ∷ [])
    ++ (if account_id == 10 then 49 ∷ 48 ∷ [] else (48 + account_id) ∷ [])

abbrev pub test_accounts : List AccountId
test_accounts = 1 ∷ 2 ∷ 3 ∷ 4 ∷ 5 ∷ 6 ∷ 7 ∷ 8 ∷ 9 ∷ 10 ∷ []

unfoldable pub register_test_keys : List AccountId → AuthService → AuthService
unfolding register_api_key
register_test_keys [] keys = keys
register_test_keys (id ∷ ids) keys = register_test_keys ids (register_api_key (test_key id) id keys)

module _ ⦃dash : DashMapApi AccountState⦄ where
  -- The accounts of the snapshot, if there is one, with the whole journal replayed over them.
  unfoldable pub recover_accounts : Option AccountSnapshot → List AccountUpdate → AccountManager
  unfolding with_journal restore_from_snapshot replay_journal
  recover_accounts none updates = replay_journal (with_journal updates) updates
  recover_accounts (some snapshot) updates =
      replay_journal (restore_from_snapshot (with_journal updates) snapshot) updates

  unfoldable pub create_test_accounts : List AccountId → AccountManager → AccountManager
  unfolding create_account
  create_test_accounts [] m = m
  create_test_accounts (id ∷ ids) m =
      create_test_accounts ids (create_account true m id (pos 1000000))

  -- Test accounts are made if there are none; their keys are registered either way.
  unfoldable pub start_accounts :
      Option AccountSnapshot → List AccountUpdate → AccountManager × AuthService
  unfolding recover_accounts create_test_accounts create_snapshot register_test_keys Auth.new
  start_accounts snapshot updates =
      let m = recover_accounts snapshot updates in
      (
        if length (create_snapshot m 0).accounts == 0
            then create_test_accounts test_accounts m
            else m,
        register_test_keys test_accounts Auth.new,
      )

  -- `orders` is what the engines answered; `none` is a failure, which is only logged.
  unfoldable pub reconcile : Option (List OrderSnapshot) → AccountManager → AccountManager
  unfolding rebuild_reservations
  reconcile none m = m
  reconcile (some orders) m = rebuild_reservations m orders

  -- The buying power that the journal last created an account with.
  abbrev pub created_with : AccountId → List AccountUpdate → Option ℤ
  created_with id [] = none
  created_with id (create_account_update account_id buying_power ∷ updates) =
      elim (created_with id updates) [
        | some later ↦ some later
        | none ↦ if account_id == id then some buying_power else none
      ]

  abbrev pub created_or : Option ℤ → AccountId → Option AccountState → Option AccountState
  created_or none id s = s
  created_or (some buying_power) id s = some (new_account id buying_power)

  -- After a replay, an account that the journal names is as new, with the buying power that it was last
  -- created with; every other account is as it was.
  pub get_account-replay_journal :
      (updates : List AccountUpdate) (m : AccountManager) (id : AccountId)
      → get_account (replay_journal m updates) id
        ≡ created_or (created_with id updates) id (get_account m id)
  unfolding replay_journal get_account
  get_account-replay_journal [] m id = refl
  get_account-replay_journal (create_account_update account_id buying_power ∷ updates) m id =
      get_account-replay_journal updates
        (put_account m account_id (new_account account_id buying_power)) id
      ∙ go (created_with id updates)
    where
      fresh : get_account (put_account m account_id (new_account account_id buying_power)) id ≡ (
          if account_id == id then some (new_account account_id buying_power) else get_account m id)
      fresh = dash.get-insert m.accounts account_id (new_account account_id buying_power) id

      go :
          (c : Option ℤ)
          → created_or c id
              (get_account (put_account m account_id (new_account account_id buying_power)) id)
            ≡ created_or
                (elim c [
                  | some later ↦ some later
                  | none ↦ if account_id == id then some buying_power else none
                ])
                id
                (get_account m id)
      go (some later) = refl
      go none = fresh ∙ elim (Bool-cases (account_id == id)) [
        | inr other ↦ rw other refl
        | inl same ↦
            rw same (ap (λ k. some (new_account k buying_power)) ((==_iff account_id id).0 same))
      ]

  -- Whatever the snapshot says of an account, if the journal names the account then it starts without
  -- positions or reservations and with the buying power that the journal last created it with.
  pub recover_accounts-created :
      (snapshot : AccountSnapshot) (updates : List AccountUpdate) (id : AccountId)
      (buying_power : ℤ)
      → created_with id updates ≡ some buying_power
      → get_account (recover_accounts (some snapshot) updates) id
        ≡ some (new_account id buying_power)
  unfolding recover_accounts
  recover_accounts-created snapshot updates id buying_power e =
      get_account-replay_journal updates (restore_from_snapshot (with_journal updates) snapshot) id
      ∙ ap
          (λ c.
            created_or c id
              (get_account (restore_from_snapshot (with_journal updates) snapshot) id))
          e

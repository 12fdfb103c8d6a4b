-- ===== src/Gateway/Manager/Recovery.antt =====
-- Recovery in crates/gateway_server/src/account_manager.rs: a journal of created accounts, replayed.
use high_perf_trading.Base.{true, some, List, [], ◌∷◌, ◌++◌, ◌≡◌, refl, sym, ap, ◌∙◌}
use mathlib.Core.List.{append_assoc, append-nil}
use high_perf_trading.Gateway.DashMap.{DashMapApi}
use high_perf_trading.Gateway.Accounts.{
  AccountUpdate, create_account_update, AccountState, new_account,
}
use high_perf_trading.Gateway.Manager.{
  AccountManager, new, with_journal, create_account, replay_journal, put_account, log_update,
  appended,
}

module _ ⦃dash : DashMapApi AccountState⦄ where
  -- Accounts created one after the other, with every append written.
  abbrev pub create_all : AccountManager → List AccountUpdate → AccountManager
  create_all m [] = m
  create_all m (create_account_update account_id buying_power ∷ updates) =
      create_all (create_account true m account_id buying_power) updates

  create_all-journal :
      (updates log : List AccountUpdate) (m : AccountManager)
      → m.journal ≡ some log
      → (create_all m updates).journal ≡ some (log ++ updates)
  unfolding create_account log_update
  create_all-journal [] log m e = e ∙ ap some (sym (append-nil log))
  create_all-journal (create_account_update account_id buying_power ∷ updates) log m e =
      create_all-journal updates (log ++ create_account_update account_id buying_power ∷ [])
        (create_account true m account_id buying_power)
        (ap (appended true (create_account_update account_id buying_power)) e)
      ∙ ap some (append_assoc log _ updates)

  create_all-replay :
      (updates : List AccountUpdate) (m n : AccountManager)
      → m.accounts ≡ n.accounts
      → (create_all m updates).accounts ≡ (replay_journal n updates).accounts
  unfolding create_account log_update replay_journal
  create_all-replay [] m n e = e
  create_all-replay (create_account_update account_id buying_power ∷ updates) m n e =
      create_all-replay updates (create_account true m account_id buying_power)
        (put_account n account_id (new_account account_id buying_power))
        (ap (λ a. dash.insert a account_id (new_account account_id buying_power)) e)

  -- A gateway that starts with an empty journal and creates accounts has journalled each of them, in order,
  -- if every append was written; a new gateway that replays that journal has the same accounts.
  pub replay_journal-create_all :
      (updates : List AccountUpdate)
      → ((create_all (with_journal []) updates).journal ≡ some updates)
        × ((replay_journal new updates).accounts ≡ (create_all (with_journal []) updates).accounts)
  unfolding with_journal new
  replay_journal-create_all updates = (
    create_all-journal updates [] (with_journal []) refl,
    sym (create_all-replay updates (with_journal []) new refl),
  )

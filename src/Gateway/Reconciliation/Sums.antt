-- ===== src/Gateway/Reconciliation/Sums.antt =====
-- What the rebuilding of crates/gateway_server/src/reconciliation.rs leaves in each account.
use high_perf_trading.Base.{
  ℕ, ℤ, pos, true, false, Option, none, some, List, [], ◌∷◌, ◌≡◌, refl, ap, sym, ◌∙◌, subst, arith,
  if◌then◌else◌, ◌==◌, ==_iff, Bool-cases, inl, inr, unwrap_or,
}
use high_perf_trading.Base.Word.{add_i64}
use high_perf_trading.Base.HashMap.{HashMap}
use high_perf_trading.Base.HashMap
use high_perf_trading.Types.{AccountId}
use high_perf_trading.Protocol.{OrderSnapshot}
use high_perf_trading.Gateway.DashMap.{DashMapApi}
use high_perf_trading.Gateway.Accounts.{AccountState}
use high_perf_trading.Gateway.Manager.{
  AccountManager, set_tentative_reserved, get_account, modify_found,
}
use high_perf_trading.Gateway.Reconciliation.{group_by_account, set_all, rebuild_reservations}

-- What an account's orders reserve together, with the wrap of an `i64`; nothing if it has none.
abbrev pub tally : AccountId → List OrderSnapshot → Option ℤ → Option ℤ
tally id [] sum = sum
tally id (o ∷ os) sum =
    tally id os
      (if o.account_id == id then some (add_i64 (unwrap_or sum (pos 0)) o.reserved_amount) else sum)

-- No key comes twice.
abbrev Unique : HashMap ℤ → Type 0
Unique [] = Unit
Unique ((k, v) ∷ m) = (HashMap.get k m ≡ none) × Unique m

insert-Unique : (k : ℕ) (v : ℤ) (m : HashMap ℤ) → Unique m → Unique (HashMap.insert k v m)
unfolding HashMap.insert HashMap.get
insert-Unique k v [] h = (refl, tt)
insert-Unique k v ((j, w) ∷ m) (fresh, h) = elim (Bool-cases (j == k)) [
  | inl same ↦ rw same (subst (λ i. HashMap.get i m ≡ none) ((==_iff j k).0 same) fresh, h)
  | inr other ↦ rw other (HashMap.get-insert k j v m ∙ apart other, insert-Unique k v m h)
]
  where
    apart : (j == k) ≡ false → (if k == j then some v else HashMap.get j m) ≡ none
    apart other = ground (arith, fresh)

get-group_by_account :
    (os : List OrderSnapshot) (m : HashMap ℤ) (id : AccountId)
    → HashMap.get id (group_by_account os m) ≡ tally id os (HashMap.get id m)
unfolding group_by_account
get-group_by_account [] m id = refl
get-group_by_account (o ∷ os) m id =
    get-group_by_account os _ id ∙ ap (tally id os) (HashMap.get-insert o.account_id id _ m ∙ split)
  where
    split :
        (if o.account_id == id
          then some (add_i64 (unwrap_or (HashMap.get o.account_id m) (pos 0)) o.reserved_amount)
          else HashMap.get id m)
        ≡ (if o.account_id == id
            then some (add_i64 (unwrap_or (HashMap.get id m) (pos 0)) o.reserved_amount)
            else HashMap.get id m)
    split = elim (Bool-cases (o.account_id == id)) [
      | inl same ↦ rw same (
          ap (λ i. some (add_i64 (unwrap_or (HashMap.get i m) (pos 0)) o.reserved_amount))
            ((==_iff o.account_id id).0 same))
      | inr other ↦ rw other refl
    ]

group_by_account-Unique :
    (os : List OrderSnapshot) (m : HashMap ℤ) → Unique m → Unique (group_by_account os m)
unfolding group_by_account
group_by_account-Unique [] m h = h
group_by_account-Unique (o ∷ os) m h =
    group_by_account-Unique os
      (HashMap.insert o.account_id
        (add_i64 (unwrap_or (HashMap.get o.account_id m) (pos 0)) o.reserved_amount) m)
      (insert-Unique o.account_id _ m h)

abbrev with_reserved : ℤ → Option AccountState → Option AccountState
with_reserved v none = none
with_reserved v (some s) = some (record s { tentative_reserved = v })

-- An account with its reserved sum, where there is one to set.
abbrev pub settled : Option ℤ → Option AccountState → Option AccountState
settled none account = account
settled (some v) account = with_reserved v account

module _ ⦃dash : DashMapApi AccountState⦄ where
  get-set_tentative_reserved :
      (m : AccountManager) (a : AccountId) (v : ℤ) (id : AccountId)
      → get_account (set_tentative_reserved m a v) id
        ≡ (if a == id then with_reserved v (get_account m id) else get_account m id)
  unfolding get_account set_tentative_reserved
  get-set_tentative_reserved m a v id = found (dash.get m.accounts a) refl
    where
      here :
          (o : Option AccountState)
          → dash.get m.accounts a ≡ o
          → (a == id) ≡ true
          → dash.get m.accounts id ≡ o
      here o e same = sym (ap (dash.get m.accounts) ((==_iff a id).0 same)) ∙ e

      found :
          (o : Option AccountState)
          → dash.get m.accounts a ≡ o
          → dash.get (modify_found m a (λ s. record s { tentative_reserved = v }) o).accounts id
            ≡ (if a == id then with_reserved v (dash.get m.accounts id) else dash.get m.accounts id)
      found none e = elim (Bool-cases (a == id)) [
        | inl same ↦ rw same (here none e same ∙ sym (ap (with_reserved v) (here none e same)))
        | inr other ↦ rw other refl
      ]
      found (some s) e =
          dash.get-insert m.accounts a (record s { tentative_reserved = v }) id
          ∙ elim (Bool-cases (a == id)) [
            | inl same ↦ rw same (sym (ap (with_reserved v) (here (some s) e same)))
            | inr other ↦ rw other refl
          ]

  get-set_all :
      (es : HashMap ℤ) (m : AccountManager) (id : AccountId)
      → Unique es
      → get_account (set_all es m) id ≡ settled (HashMap.get id es) (get_account m id)
  unfolding set_all HashMap.get
  get-set_all [] m id h = refl
  get-set_all ((a, v) ∷ es) m id (fresh, h) =
      get-set_all es (set_tentative_reserved m a v) id h
      ∙ ap (settled (HashMap.get id es)) (get-set_tentative_reserved m a v id)
      ∙ split
    where
      split :
          settled
            (HashMap.get id es)
            (if a == id then with_reserved v (get_account m id) else get_account m id)
          ≡ settled (if a == id then some v else HashMap.get id es) (get_account m id)
      split = elim (Bool-cases (a == id)) [
        | inl same ↦ rw same (
            ap (λ o. settled o (with_reserved v (get_account m id)))
              (sym (ap (λ i. HashMap.get i es) ((==_iff a id).0 same)) ∙ fresh))
        | inr other ↦ rw other refl
      ]

  -- After the rebuilding, every account that has orders in the engines has as reserved sum what those
  -- orders reserve together, and is otherwise as it was; an account without orders keeps its reserved sum.
  pub get_account-rebuild_reservations :
      (m : AccountManager) (orders : List OrderSnapshot) (id : AccountId)
      → get_account (rebuild_reservations m orders) id
        ≡ settled (tally id orders none) (get_account m id)
  unfolding rebuild_reservations HashMap.get
  get_account-rebuild_reservations m orders id =
      get-set_all (group_by_account orders []) m id (group_by_account-Unique orders [] tt)
      ∙ ap (λ o. settled o (get_account m id)) (get-group_by_account orders [] id)

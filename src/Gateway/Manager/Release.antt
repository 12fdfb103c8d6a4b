-- ===== src/Gateway/Manager/Release.antt =====
-- Reservations of crates/gateway_server/src/account_manager.rs over many commands: solvency, and a release
-- that undoes its reservation.
use high_perf_trading.Base.{
  some_injective, ℤ, pos, false, Option, some, if◌then◌else◌, ◌==◌, ==_iff, ==_refl, Bool-cases,
  Option-cases, ◌≡◌, refl, sym, ap, ◌∙◌, subst, ◌≤ℤ◌, arith, inl, inr,
}
use high_perf_trading.Base.Word.{IsI64, sub_i64, mul_i64, wrap-IsI64, sub_add_i64, sub_zero_i64}
use high_perf_trading.Types.{
  AccountId, OrderId, Side, buy, sell, Command, new_order, cancel, replace, set_risk_limits,
  query_account, authenticate, NewOrder,
}
use high_perf_trading.Gateway.DashMap.{DashMapApi}
use high_perf_trading.Gateway.Accounts.{
  AccountState, ReservationToken, Reservation, ok, err, required,
}
use high_perf_trading.Gateway.Manager.{
  AccountManager, check_and_reserve_order, check_and_reserve, release_reservation, get_account,
  modify_found,
}
use high_perf_trading.Gateway.Manager.Reserve.{
  Grants, OrderGrants, Reserves, Solvent, AllSolvent, Grants-Solvent,
  check_and_reserve_order-Reserves, check_and_reserve_replace-Reserves,
}

-- The money that a command needs.
abbrev pub money_of : Command → ℤ
money_of (new_order o) = required o.side o.price o.qty
money_of (replace r) = mul_i64 r.new_price r.new_qty
money_of _ = pos 0

money-IsI64 : (side : Side) (price qty : ℤ) → IsI64 (required side price qty)
unfolding mul_i64
money-IsI64 buy price qty = wrap-IsI64 _
money-IsI64 sell price qty = omega arith

module _ ⦃dash : DashMapApi AccountState⦄ where
  abbrev Granted : ℤ → AccountState → ℤ → AccountState → Type 0
  Granted money s a s' = (a ≡ money) × Grants s a s'

  weaken :
      (m : AccountManager) (account_id : AccountId) (order_id : OrderId) (order : NewOrder)
      (r : Reservation × AccountManager)
      → Reserves (λ s. OrderGrants s order) m account_id order_id r
      → Reserves (Granted (required order.side order.price order.qty)) m account_id order_id r
  weaken m account_id order_id order (err v, m') h = h
  weaken m account_id order_id order (ok t, m') (ea, eo, (s, s', there, (e, g, _), other)) =
      (ea, eo, (s, s', there, (e, g), other))

  Reserves-AllSolvent :
      (money : ℤ) (m : AccountManager) (account_id : AccountId) (order_id : OrderId)
      (r : Reservation × AccountManager)
      → pos 0 ≤ℤ money
      → AllSolvent m
      → Reserves (Granted money) m account_id order_id r
      → AllSolvent r.1
  Reserves-AllSolvent money m account_id order_id (err v, m') p h e id x k =
      subst AllSolvent (sym e) h id x k
  Reserves-AllSolvent money m account_id order_id (ok t, m') p h
        (ea, eo, (s, s', there, (e, g), other)) id x k =
      elim (Bool-cases (account_id == id)) [
        | inl same ↦
            subst Solvent (some_injective (sym (rw same at (other id)) ∙ k))
              (Grants-Solvent (subst (λ a. pos 0 ≤ℤ a) (sym e) p) (h account_id s there) g)
        | inr else' ↦ h id x (sym (rw else' at (other id)) ∙ k)
      ]

  -- As long as every account's reserved sum lies between nothing and its buying power, it still does after
  -- any command is checked that needs no negative amount of money.
  pub check_and_reserve-AllSolvent :
      (m : AccountManager) (cmd : Command)
      → AllSolvent m
      → pos 0 ≤ℤ money_of cmd
      → AllSolvent (check_and_reserve m cmd).1
  unfolding check_and_reserve
  check_and_reserve-AllSolvent m (new_order o) h p =
      Reserves-AllSolvent _ m o.account_id o.order_id _ p h (
        weaken m o.account_id o.order_id o (check_and_reserve_order m o)
          (check_and_reserve_order-Reserves m o))
  check_and_reserve-AllSolvent m (replace r) h p =
      Reserves-AllSolvent _ m r.account_id r.order_id _ p h (check_and_reserve_replace-Reserves m r)
  check_and_reserve-AllSolvent m (cancel c) h p = h
  check_and_reserve-AllSolvent m (set_risk_limits c) h p = h
  check_and_reserve-AllSolvent m (query_account c) h p = h
  check_and_reserve-AllSolvent m (authenticate c) h p = h

  released : AccountState → ℤ → AccountState
  released s amount = record s { tentative_reserved = sub_i64 s.tentative_reserved amount }

  release-found :
      (m m' : AccountManager) (t : ReservationToken) (s s' : AccountState)
      → get_account m t.account_id ≡ some s
      → get_account m' t.account_id ≡ some s'
      → released s' t.amount ≡ s
      → ((id : AccountId) → (t.account_id == id) ≡ false → get_account m' id ≡ get_account m id)
      → (id : AccountId) → get_account (release_reservation m' t) id ≡ get_account m id
  unfolding release_reservation get_account released
  release-found m m' t s s' there there' back other id =
      ap (λ n. get_account n id)
        (ap (modify_found m' t.account_id (λ r. released r t.amount)) there')
      ∙ dash.get-insert m'.accounts t.account_id (released s' t.amount) id
      ∙ split
    where
      split :
          (if t.account_id == id then some (released s' t.amount) else get_account m' id)
          ≡ get_account m id
      split = elim (Bool-cases (t.account_id == id)) [
        | inl same ↦
            rw same
              (ap some back ∙ sym there ∙ ap (get_account m) ((==_iff t.account_id id).0 same))
        | inr else' ↦ rw else' (other id else')
      ]

  -- What remains of a reservation once its token is released.
  abbrev pub Undone : AccountManager → Reservation × AccountManager → Type 0
  Undone m (err v, m') = m' ≡ m
  Undone m (ok t, m') =
      (id : AccountId) → get_account (release_reservation m' t) id ≡ get_account m id

  abbrev pub AllWords : AccountManager → Type 0
  AllWords m =
      (id : AccountId) (s : AccountState) → get_account m id ≡ some s → IsI64 s.tentative_reserved

  Reserves-Undone :
      (money : ℤ) (m : AccountManager) (account_id : AccountId) (order_id : OrderId)
      (r : Reservation × AccountManager)
      → IsI64 money
      → AllWords m
      → Reserves (Granted money) m account_id order_id r
      → Undone m r
  unfolding released
  Reserves-Undone money m account_id order_id (err v, m') i w e = e
  Reserves-Undone money m account_id order_id (ok t, m') i w
        (ea, eo, (s, s', there, (e, g), other)) =
      release-found m m' t s s' (ap (get_account m) ea ∙ there)
        (ap (get_account m') ea ∙ other account_id ∙ picked account_id (some s') _)
        (ap (λ r. released r t.amount) g.after
          ∙ ap (λ r. record s { tentative_reserved = r })
              (sub_add_i64 s.tentative_reserved t.amount (w account_id s there)
                (subst IsI64 (sym e) i)))
        (λ id ne. other id ∙ passed id (ap (λ a. a == id) (sym ea) ∙ ne) _ _)
    where
      picked : (id : AccountId) (x y : Option AccountState) → (if id == id then x else y) ≡ x
      picked id x y = rw (==_refl id) refl

      passed :
          (id : AccountId)
          → (account_id == id) ≡ false
          → (x y : Option AccountState) → (if account_id == id then x else y) ≡ y
      passed id ne x y = rw ne refl

  -- For a command that takes nothing, the token's account need not be there.
  nothing-Undone :
      (m : AccountManager) (t : ReservationToken)
      → t.amount ≡ pos 0
      → AllWords m
      → Undone m (ok t, m)
  unfolding release_reservation get_account released
  nothing-Undone m t e w id = elim (Option-cases (get_account m t.account_id)) [
    | inl missing ↦
        ap (λ o. get_account (modify_found m t.account_id (λ s. released s t.amount) o) id) missing
    | inr (s, there) ↦
        release-found m m t s s there there
          (ap (λ r. record s { tentative_reserved = r })
            (ap (sub_i64 s.tentative_reserved) e
              ∙ sub_zero_i64 s.tentative_reserved (w t.account_id s there)))
          (λ id' ne. refl) id
  ]

  -- Releasing the token of a command that was let through puts every account back as it was before the
  -- check, and a refused command changed nothing, provided the reserved sums are machine words.
  pub release_reservation-check_and_reserve :
      (m : AccountManager) (cmd : Command) → AllWords m → Undone m (check_and_reserve m cmd)
  unfolding check_and_reserve
  release_reservation-check_and_reserve m (new_order o) w =
      Reserves-Undone _ m o.account_id o.order_id _ (money-IsI64 o.side o.price o.qty) w (
        weaken m o.account_id o.order_id o (check_and_reserve_order m o)
          (check_and_reserve_order-Reserves m o))
  release_reservation-check_and_reserve m (replace r) w =
      Reserves-Undone _ m r.account_id r.order_id _ (money-IsI64 buy r.new_price r.new_qty) w
        (check_and_reserve_replace-Reserves m r)
  release_reservation-check_and_reserve m (cancel c) w = nothing-Undone m _ refl w
  release_reservation-check_and_reserve m (set_risk_limits c) w = nothing-Undone m _ refl w
  release_reservation-check_and_reserve m (query_account c) w = nothing-Undone m _ refl w
  release_reservation-check_and_reserve m (authenticate c) w = nothing-Undone m _ refl w

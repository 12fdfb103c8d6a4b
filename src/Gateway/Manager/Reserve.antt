-- ===== src/Gateway/Manager/Reserve.antt =====
-- What a reservation of crates/gateway_server/src/account_manager.rs checks and changes.
use high_perf_trading.Base.{
  ℤ, pos, false, Option, none, some, if◌then◌else◌, ◌==◌, Bool-cases, ◌≡◌, refl, sym, subst, ◌≤ℤ◌,
  ◌+ℤ◌, ◌-ℤ◌, ltb_ℤ, -ℤ_parts, +ℤ_parts, one_part, pos_part, neg_part, ◌+◌, arith, inl, inr,
}
use high_perf_trading.Base.Word.{
  IsI64, add_i64, mul_i64, neg_i64, abs_i64, add_i64_lem, sub_i64_within,
}
use high_perf_trading.Types.{AccountId, SymbolId, OrderId, RiskLimits, NewOrder, Replace}
use high_perf_trading.Gateway.DashMap.{DashMapApi}
use high_perf_trading.Gateway.Accounts.{
  AccountState, Reservation, ok, err, Reserved, refused, granted, reserve, reserve_order,
  reserve_replace, available, required, moved, get_risk_limits, get_position,
}
use high_perf_trading.Gateway.Manager.{
  AccountManager, check_and_reserve_order, check_and_reserve_replace, get_account, finish,
  on_account, on_found,
}

-- What a grant of an amount leaves: the money was there, and nothing but the reserved sum moves.
pub record Grants (s : AccountState) (amount : ℤ) (s' : AccountState) : Type 0 where
  pub funds : amount ≤ℤ available s
  pub after : s' ≡ record s { tentative_reserved = add_i64 s.tentative_reserved amount }

-- The limits that an order must keep.
pub record WithinLimits (s : AccountState) (order : NewOrder) : Type 0 where
  pub size : abs_i64 order.qty ≤ℤ (get_risk_limits s order.symbol_id).max_order_size
  pub long :
      moved order.side (get_position s order.symbol_id).net_position order.qty
      ≤ℤ (get_risk_limits s order.symbol_id).max_long_position
  pub short :
      neg_i64 (get_risk_limits s order.symbol_id).max_short_position
      ≤ℤ moved order.side (get_position s order.symbol_id).net_position order.qty

abbrev pub OrderGrants : AccountState → NewOrder → ℤ → AccountState → Type 0
OrderGrants s order a s' =
    (a ≡ required order.side order.price order.qty) × Grants s a s' × WithinLimits s order

abbrev pub IfGranted : (ℤ → AccountState → Type 0) → Reserved → Type 0
IfGranted P (refused v) = Unit
IfGranted P (granted amount s) = P amount s

not_below : (a b : ℤ) → ltb_ℤ a b ≡ false → b ≤ℤ a
not_below a b h = ground arith

pub reserve-Grants :
    (s : AccountState) (amount : ℤ)
    → IfGranted (λ a s'. (a ≡ amount) × Grants s a s') (reserve s amount)
reserve-Grants s amount = elim (Bool-cases (ltb_ℤ (available s) amount)) [
  | inl h ↦ rw h tt
  | inr h ↦ rw h (refl, record { funds = not_below (available s) amount h; after = refl })
]

pub reserve_order-Grants :
    (s : AccountState) (order : NewOrder) → IfGranted (OrderGrants s order) (reserve_order s order)
unfolding reserve_order
reserve_order-Grants s order = elim (Bool-cases (ltb_ℤ limits.max_order_size (abs_i64 order.qty))) [
  | inl h ↦ rw h tt
  | inr size ↦ rw size (elim (Bool-cases (ltb_ℤ limits.max_long_position position)) [
    | inl h ↦ rw h tt
    | inr long ↦ rw long (elim (Bool-cases (ltb_ℤ position (neg_i64 limits.max_short_position))) [
      | inl h ↦ rw h tt
      | inr short ↦
          rw short (with_limits (reserve s money) (within size long short) (reserve-Grants s money))
    ])
  ])
]
  where
    limits : RiskLimits
    limits = get_risk_limits s order.symbol_id

    position : ℤ
    position = moved order.side (get_position s order.symbol_id).net_position order.qty

    money : ℤ
    money = required order.side order.price order.qty

    within :
        ltb_ℤ limits.max_order_size (abs_i64 order.qty) ≡ false
        → ltb_ℤ limits.max_long_position position ≡ false
        → ltb_ℤ position (neg_i64 limits.max_short_position) ≡ false
        → WithinLimits s order
    within size long short = record {
      size = not_below limits.max_order_size (abs_i64 order.qty) size;
      long = not_below limits.max_long_position position long;
      short = not_below position (neg_i64 limits.max_short_position) short;
    }

    with_limits :
        (r : Reserved)
        → WithinLimits s order
        → IfGranted (λ a s'. (a ≡ required order.side order.price order.qty) × Grants s a s') r
        → IfGranted (OrderGrants s order) r
    with_limits (refused v) w h = tt
    with_limits (granted a s') w (e, g) = (e, g, w)

pub reserve_replace-Grants :
    (s : AccountState) (r : Replace)
    → IfGranted (λ a s'. (a ≡ mul_i64 r.new_price r.new_qty) × Grants s a s') (reserve_replace s r)
unfolding reserve_replace
reserve_replace-Grants s r =
    elim (Bool-cases (ltb_ℤ (get_risk_limits s r.symbol_id).max_order_size (abs_i64 r.new_qty))) [
      | inl h ↦ rw h tt
      | inr h ↦ rw h (reserve-Grants s (mul_i64 r.new_price r.new_qty))
    ]

module _ ⦃dash : DashMapApi AccountState⦄ where
  -- A refusal changes nothing. A grant changes one account, as `P` says, and its token is for that account.
  abbrev pub Reserves :
      (AccountState → ℤ → AccountState → Type 0)
      → AccountManager
      → AccountId
      → OrderId
      → Reservation × AccountManager
      → Type 0
  Reserves P m account_id order_id (err v, m') = m' ≡ m
  Reserves P m account_id order_id (ok t, m') =
      (t.account_id ≡ account_id)
      × (t.order_id ≡ order_id)
      × ((s : AccountState) × (s' : AccountState) × (get_account m account_id ≡ some s)
          × P s t.amount s'
          × ((id : AccountId)
              → get_account m' id ≡ (if account_id == id then some s' else get_account m id)))

  on_account-Reserves :
      (P : AccountState → ℤ → AccountState → Type 0) (m : AccountManager) (account_id : AccountId)
      (symbol_id : SymbolId) (order_id : OrderId) (f : AccountState → Reserved)
      → ((s : AccountState) → IfGranted (P s) (f s))
      → Reserves P m account_id order_id (on_account m account_id symbol_id order_id f)
  unfolding get_account
  on_account-Reserves P m account_id symbol_id order_id f h =
      found (dash.get m.accounts account_id) refl
    where
      done :
          (s : AccountState)
          → dash.get m.accounts account_id ≡ some s
          → (r : Reserved) → IfGranted (P s) r
          → Reserves P m account_id order_id (finish m account_id symbol_id order_id r)
      done s there (refused v) k = refl
      done s there (granted a s') k =
          (refl, refl, (s, s', there, k, λ id. dash.get-insert m.accounts account_id s' id))

      found :
          (o : Option AccountState)
          → dash.get m.accounts account_id ≡ o
          → Reserves P m account_id order_id (on_found m account_id symbol_id order_id f o)
      found none e = refl
      found (some s) there = done s there (f s) (h s)

  pub check_and_reserve_order-Reserves :
      (m : AccountManager) (order : NewOrder)
      → Reserves
          (λ s. OrderGrants s order)
          m
          order.account_id
          order.order_id
          (check_and_reserve_order m order)
  unfolding check_and_reserve_order
  check_and_reserve_order-Reserves m order =
      on_account-Reserves (λ s. OrderGrants s order) m order.account_id order.symbol_id
        order.order_id (λ s. reserve_order s order) (λ s. reserve_order-Grants s order)

  -- The same for a replacement, whose limits on the position are not looked at.
  pub check_and_reserve_replace-Reserves :
      (m : AccountManager) (r : Replace)
      → Reserves
          (λ s a s'. (a ≡ mul_i64 r.new_price r.new_qty) × Grants s a s')
          m
          r.account_id
          r.order_id
          (check_and_reserve_replace m r)
  unfolding check_and_reserve_replace
  check_and_reserve_replace-Reserves m r =
      on_account-Reserves _ m r.account_id r.symbol_id r.order_id (λ s. reserve_replace s r)
        (λ s. reserve_replace-Grants s r)

  -- An account whose reserved sum lies between nothing and its buying power.
  pub record Solvent (s : AccountState) : Type 0 where
    pub word : IsI64 s.buying_power
    pub nonneg : pos 0 ≤ℤ s.tentative_reserved
    pub covered : s.tentative_reserved ≤ℤ s.buying_power

  abbrev pub AllSolvent : AccountManager → Type 0
  AllSolvent m = (id : AccountId) (s : AccountState) → get_account m id ≡ some s → Solvent s

  pub Grants-Solvent :
      {s s' : AccountState} {amount : ℤ}
      → pos 0 ≤ℤ amount
      → Solvent s
      → Grants s amount s'
      → Solvent s'
  Grants-Solvent {s = s} {amount = amount} p h g = subst Solvent (sym g.after) (record {
    word = h.word;
    nonneg = rw added (omega (arith, parts, one_part (s.tentative_reserved +ℤ amount)));
    covered = rw added (omega (arith, parts, enough));
  })
    where
      parts :
          pos_part (s.tentative_reserved +ℤ amount)
            + neg_part s.tentative_reserved
            + neg_part amount
          ≡ neg_part (s.tentative_reserved +ℤ amount)
            + pos_part s.tentative_reserved
            + pos_part amount
      parts = +ℤ_parts s.tentative_reserved amount

      left : available s ≡ s.buying_power -ℤ s.tentative_reserved
      left = sub_i64_within s.buying_power s.tentative_reserved h.word h.nonneg h.covered

      enough : s.tentative_reserved +ℤ amount ≤ℤ s.buying_power
      enough =
          let fits = g.funds in
          omega (arith, parts, -ℤ_parts s.buying_power s.tentative_reserved, rw left at fits)

      added : add_i64 s.tentative_reserved amount ≡ s.tentative_reserved +ℤ amount
      added =
          add_i64_lem s.tentative_reserved amount
            (omega (arith, parts, enough, one_part (s.tentative_reserved +ℤ amount)))

-- ===== src/Engine/Accounts/Positions.antt =====
-- How fills move positions, in crates/engine/src/account_manager.rs.
use high_perf_trading.Base.{
  ◌<◌, ◌^◌, neg_part, ℤ, pos, Bool, true, false, Option, some, ◌≡◌, refl, ap, ◌∙◌, arith,
  if◌then◌else◌, ◌==◌, inl, inr, ltb_ℤ, eqb_ℤ, unwrap_or, ◌>>=◌, Bool-cases, ◌≤ℤ◌, ◌<ℤ◌,
}
use high_perf_trading.Base.Word.{
  add_i64, mul_i64, neg_i64, IsI64, div_i64-some, add_i64_divides, neg_i64_nonneg,
}
use high_perf_trading.Base.HashMap
use high_perf_trading.Types.{AccountId, Side, buy, sell, Position, default_position}
use high_perf_trading.Engine.Accounts.{
  AccountManager, get_position, get_limits, apply_fill, revalue, moved, add_position,
}

abbrev pub net : AccountManager → AccountId → ℤ
net m a = (get_position m a).net_position

-- What a revaluation keeps: there is a result, with the net position as it was.
abbrev Revalues : Position → Option Position → Type 0
Revalues p r = (q : Position) × (r ≡ some q) × (q.net_position ≡ p.net_position)

add_position-Revalues :
    (held price qty : ℤ) (p : Position)
    → IsI64 held
    → IsI64 qty
    → pos 0 ≤ℤ held
    → pos 0 <ℤ qty
    → Revalues p (add_position held price qty p)
add_position-Revalues held price qty p ih iq h k =
    let (nonzero, not_minus_one) = add_i64_divides held qty ih iq h k in
    let (avg, e) =
      div_i64-some (add_i64 (mul_i64 held p.avg_price) (mul_i64 qty price)) (add_i64 held qty)
        nonzero not_minus_one in
    elim (Bool-cases (eqb_ℤ p.net_position (pos 0))) [
      | inl flat ↦ rw flat (_, refl, refl)
      | inr holds ↦ rw holds (rw e (_, refl, refl))
    ]

-- A net position that can be negated.
abbrev pub IsPosition : ℤ → Type 0
IsPosition x = IsI64 x × (neg_part x < 2 ^ 63)

-- A fill of a positive quantity.
abbrev pub IsQty : ℤ → Type 0
IsQty q = IsI64 q × (pos 0 <ℤ q)

revalue-Revalues :
    (side : Side) (price qty : ℤ) (p : Position)
    → IsPosition p.net_position
    → IsQty qty
    → Revalues p (revalue side price qty p)
unfolding revalue
revalue-Revalues buy price qty p (i, h) (iq, k) = elim (Bool-cases (ltb_ℤ p.net_position (pos 0))) [
  | inl short ↦ rw short (_, refl, refl)
  | inr long ↦ rw long (add_position-Revalues p.net_position price qty p i iq (ground arith) k)
]
revalue-Revalues sell price qty p (i, h) (iq, k) =
    elim (Bool-cases (ltb_ℤ (pos 0) p.net_position)) [
      | inl long ↦ rw long (_, refl, refl)
      | inr short ↦
          let (i', h') = neg_i64_nonneg p.net_position i h (ground arith) in
          rw short (add_position-Revalues (neg_i64 p.net_position) price qty p i' iq h' k)
    ]

net_insert :
    (m : AccountManager) (a b : AccountId) (p : Position)
    → net (record m { positions = HashMap.insert a p m.positions }) b
      ≡ (if a == b then p.net_position else net m b)
unfolding get_position
net_insert m a b p =
    ap (λ o. (unwrap_or o default_position).net_position) (HashMap.get-insert a b p m.positions)
    ∙ split (a == b)
  where
    split :
        (t : Bool)
        → (unwrap_or
            (if t then some p else HashMap.get b m.positions)
            default_position).net_position
          ≡ (if t then p.net_position else net m b)
    split true = refl
    split false = refl

-- A fill of a positive quantity, for an account whose net position is above the least `i64`, never divides
-- by zero. It moves the net position of the account by the quantity, up for a buy and down for a sell, and
-- leaves the position of every other account and all risk limits as they were.
pub apply_fill-net :
    (m : AccountManager) (a : AccountId) (side : Side) (price qty : ℤ)
    → IsPosition (net m a)
    → IsQty qty
    → (m' : AccountManager) × (apply_fill m a side price qty ≡ some m')
      × ((b : AccountId) → net m' b ≡ (if a == b then moved side (net m a) qty else net m b))
      × ((b : AccountId) → get_limits m' b ≡ get_limits m b)
unfolding apply_fill get_limits
apply_fill-net m a side price qty h k =
    let (p, e, same) = revalue-Revalues side price qty (get_position m a) h k in
    rw (e, ◌>>=◌)
      (
        _,
        refl,
        λ b. net_insert m a b _ ∙ ap (λ n. if a == b then moved side n qty else net m b) same,
        λ b. refl,
      )

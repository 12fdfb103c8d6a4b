-- ===== src/Engine/Accounts/Risk.antt =====
-- The risk check of crates/engine/src/account_manager.rs, and the fills of the orders that it lets through.
use high_perf_trading.Base.{
  ℕ, ◌+◌, ◌-◌, ◌≤◌, ◌<◌, ◌^◌, pos_part, neg_part, ℤ, pos, negsuc, Bool, true, false, Option, none,
  some, List, [], ◌∷◌, ◌≡◌, refl, sym, ap, ◌∙◌, subst, arith, if◌then◌else◌, ◌==◌, inl, inr, ◌>>=◌,
  Bool-cases, ◌≤ℤ◌, ◌<ℤ◌, All, one_part, eq_of_parts, +ℤ_parts, -ℤ_parts,
}
use high_perf_trading.Base.Int.{◌+ℤ◌, ◌-ℤ◌}
use high_perf_trading.Base.Word.{neg_i64, IsI64, add_i64_lem, sub_i64_lem}
use high_perf_trading.Types.{AccountId, Side, buy, sell, Price, Qty, RiskLimits}
use high_perf_trading.Engine.Accounts.{AccountManager, get_limits, check_risk, apply_fill, moved}
use high_perf_trading.Engine.Accounts.Positions.{net, apply_fill-net, IsQty}

-- A position after so many lots, in the integers.
abbrev pub after : Side → ℤ → ℕ → ℤ
after buy n lots = n +ℤ pos lots
after sell n lots = n -ℤ pos lots

-- Limits that are not negative and below 2 ^ 62.
abbrev pub Sensible : RiskLimits → Type 0
Sensible l =
    ((pos 0 ≤ℤ l.max_long_position) × (l.max_long_position <ℤ pos (2 ^ 62)))
    × ((pos 0 ≤ℤ l.max_short_position) × (l.max_short_position <ℤ pos (2 ^ 62)))
    × ((pos 0 ≤ℤ l.max_order_size) × (l.max_order_size <ℤ pos (2 ^ 62)))

-- A position within the limits for long and short.
abbrev pub Within : RiskLimits → ℤ → Type 0
Within l n = (n ≤ℤ l.max_long_position) × (pos 0 -ℤ l.max_short_position ≤ℤ n)

moved_lem :
    (side : Side) (n : ℤ) (k : ℕ) → IsI64 (after side n k) → moved side n (pos k) ≡ after side n k
moved_lem buy n k h = add_i64_lem n (pos k) h
moved_lem sell n k h = sub_i64_lem n (pos k) h

after-after : (side : Side) (n : ℤ) (j k : ℕ) → after side (after side n j) k ≡ after side n (j + k)
after-after buy n j k =
    eq_of_parts _ _
      (omega (arith, +ℤ_parts n (pos j), +ℤ_parts (n +ℤ pos j) (pos k), +ℤ_parts n (pos (j + k))))
after-after sell n j k =
    eq_of_parts _ _
      (omega (arith, -ℤ_parts n (pos j), -ℤ_parts (n -ℤ pos j) (pos k), -ℤ_parts n (pos (j + k))))

after_zero : (side : Side) (n : ℤ) → after side n 0 ≡ n
after_zero buy n = eq_of_parts _ _ (omega (arith, +ℤ_parts n (pos 0)))
after_zero sell n = eq_of_parts _ _ (omega (arith, -ℤ_parts n (pos 0)))

-- What is within the limits is a word.
Within-IsI64 : (l : RiskLimits) (n : ℤ) → Sensible l → Within l n → IsI64 n × (neg_part n < 2 ^ 63)
Within-IsI64 l n s w = omega (
  arith,
  one_part n,
  one_part l.max_long_position,
  one_part l.max_short_position,
  -ℤ_parts (pos 0) l.max_short_position,
)

-- Part of the way is within the limits too.
Within-part :
    (l : RiskLimits) (side : Side) (n : ℤ) (k t : ℕ)
    → Within l n
    → Within l (after side n t)
    → k ≤ t
    → Within l (after side n k)
Within-part l buy n k t w v h = omega (arith, +ℤ_parts n (pos k), +ℤ_parts n (pos t))
Within-part l sell n k t w v h = omega (arith, -ℤ_parts n (pos k), -ℤ_parts n (pos t))

neg_limit : (x : ℤ) → pos 0 ≤ℤ x → x <ℤ pos (2 ^ 62) → neg_i64 x ≡ pos 0 -ℤ x
unfolding neg_i64
neg_limit x h k =
    sub_i64_lem (pos 0) x (omega (arith, -ℤ_parts (pos 0) x, one_part x, one_part (pos 0 -ℤ x)))

check_risk_parts :
    (m : AccountManager) (a : AccountId) (side : Side) (qty : Qty)
    → check_risk m a side qty ≡ none
    → (qty ≤ℤ (get_limits m a).max_order_size)
      × (moved side (net m a) qty ≤ℤ (get_limits m a).max_long_position)
      × (neg_i64 (get_limits m a).max_short_position ≤ℤ moved side (net m a) qty)
unfolding check_risk
check_risk_parts m a side qty h = ground arith

-- The whole order, if it fills, leaves the position within the limits.
check_risk-Within :
    (m : AccountManager) (a : AccountId) (side : Side) (k : ℕ)
    → Sensible (get_limits m a)
    → Within (get_limits m a) (net m a)
    → check_risk m a side (pos k) ≡ none
    → Within (get_limits m a) (after side (net m a) k)
check_risk-Within m a side k s w h =
    let l = get_limits m a in
    let (size, above, below) = check_risk_parts m a side (pos k) h in
    let short = neg_limit l.max_short_position (omega arith) (omega arith) in
    let whole : IsI64 (after side (net m a) k) = small side l (net m a) s w size in
    let same = moved_lem side (net m a) k whole in
    (
      subst (λ x. x ≤ℤ l.max_long_position) same above,
      subst (λ x. pos 0 -ℤ l.max_short_position ≤ℤ x) same
          (subst (λ y. y ≤ℤ moved side (net m a) (pos k)) short below),
    )
  where
    small :
        (side : Side) (l : RiskLimits) (n : ℤ)
        → Sensible l
        → Within l n
        → pos k ≤ℤ l.max_order_size
        → IsI64 (after side n k)
    small buy l n s w size = omega (
      arith,
      one_part n,
      one_part l.max_order_size,
      one_part (n +ℤ pos k),
      +ℤ_parts n (pos k),
      one_part l.max_long_position,
      one_part l.max_short_position,
      -ℤ_parts (pos 0) l.max_short_position,
    )
    small sell l n s w size = omega (
      arith,
      one_part n,
      one_part l.max_order_size,
      one_part (n -ℤ pos k),
      -ℤ_parts n (pos k),
      one_part l.max_long_position,
      one_part l.max_short_position,
      -ℤ_parts (pos 0) l.max_short_position,
    )

-- Fills at their prices, one after the other.
abbrev pub apply_fills :
    AccountManager → AccountId → Side → List (Price × Qty) → Option AccountManager
apply_fills m a side [] = some m
apply_fills m a side ((price, qty) ∷ fills) =
    apply_fill m a side price qty >>= λ m'. apply_fills m' a side fills

abbrev pub total : List (Price × Qty) → ℕ
total [] = 0
total ((price, qty) ∷ fills) = pos_part qty + total fills

-- What fills of one account that add up to so much leave behind.
pub record Filled (m : AccountManager) (a : AccountId) (side : Side) (lots : ℕ)
    (r : Option AccountManager) : Type 0 where
  pub result : AccountManager
  pub returns : r ≡ some result
  pub position : net result a ≡ after side (net m a) lots
  pub within : Within (get_limits m a) (net result a)
  pub positions : (b : AccountId) → net result b ≡ (if a == b then net result a else net m b)
  pub limits : (b : AccountId) → get_limits result b ≡ get_limits m b

fills-Filled :
    (fills : List (Price × Qty)) (m : AccountManager) (a : AccountId) (side : Side) (t : ℕ)
    → Sensible (get_limits m a)
    → Within (get_limits m a) (net m a)
    → Within (get_limits m a) (after side (net m a) t)
    → All (λ f. IsQty f.1) fills
    → total fills ≤ t
    → Filled m a side (total fills) (apply_fills m a side fills)
fills-Filled [] m a side t s w v q h = record {
  result = m;
  returns = refl;
  position = sym (after_zero side (net m a));
  within = w;
  positions = λ b. alone b;
  limits = λ b. refl;
}
  where
    alone : (b : AccountId) → net m b ≡ (if a == b then net m a else net m b)
    alone b = elim (Bool-cases (a == b)) [
      | inl same ↦ rw same (ap (net m) (ground arith))
      | inr other ↦ rw other refl
    ]
fills-Filled ((price, negsuc k) ∷ fills) m a side t s w v (q, qs) h = absurd (omega arith)
fills-Filled ((price, pos k) ∷ fills) m a side t s w v (q, qs) h =
    let l = get_limits m a in
    let n = net m a in
    let part = Within-part l side n k t w v (omega arith) in
    let (m', e, nets, same) = apply_fill-net m a side price (pos k) (Within-IsI64 l n s w) q in
    let whole = moved_lem side n k (Within-IsI64 l (after side n k) s part).0 in
    let filled : net m' a ≡ after side n k =
      nets a ∙ here a (moved side n (pos k)) (net m a) ∙ whole in
    let left : after side (net m' a) (t - k) ≡ after side n t =
      ap (λ x. after side x (t - k)) filled
      ∙ after-after side n k (t - k)
      ∙ ap (after side n) (omega arith) in
    let rest =
      fills-Filled fills m' a side (t - k) (subst Sensible (sym (same a)) s)
        (subst (λ x. Within x (net m' a)) (sym (same a)) (subst (Within l) (sym filled) part))
        (subst (λ x. Within x (after side (net m' a) (t - k))) (sym (same a))
          (subst (Within l) (sym left) v))
        qs (omega arith) in
    record {
      result = rest.result;
      returns = rw e rest.returns;
      position =
          rest.position
          ∙ ap (λ x. after side x (total fills)) filled
          ∙ after-after side n k (total fills);
      within = subst (λ x. Within x (net rest.result a)) (same a) rest.within;
      positions = λ b. split (a == b) _ _ _ _ _ (rest.positions b) (nets b);
      limits = λ b. rest.limits b ∙ same b;
    }
  where
    here : (a : AccountId) (x y : ℤ) → (if a == a then x else y) ≡ x
    here a x y = ground arith

    split :
        (t : Bool) (x y z v w : ℤ)
        → x ≡ (if t then y else z)
        → z ≡ (if t then v else w)
        → x ≡ (if t then y else w)
    split true x y z v w e f = e
    split false x y z v w e f = e ∙ f

-- If an account's limits are not negative and below 2 ^ 62, its position is within them, and its order of a
-- positive quantity passes the risk check, then the order is within the limit for an order. Fills of
-- positive quantities that add up to no more than the order never divide by zero, and move the position by
-- what they add up to, without wrapping around: up for a buy, down for a sell. It ends within the limits, and
-- no other position and no limit has changed.
pub check_risk-apply_fills :
    (m : AccountManager) (a : AccountId) (side : Side) (qty : Qty) (fills : List (Price × Qty))
    → Sensible (get_limits m a)
    → Within (get_limits m a) (net m a)
    → IsQty qty
    → check_risk m a side qty ≡ none
    → All (λ f. IsQty f.1) fills
    → pos (total fills) ≤ℤ qty
    → (qty ≤ℤ (get_limits m a).max_order_size)
      × Filled m a side (total fills) (apply_fills m a side fills)
check_risk-apply_fills m a side (negsuc k) fills s w q h qs small = absurd (omega arith)
check_risk-apply_fills m a side (pos k) fills s w q h qs small = (
  (check_risk_parts m a side (pos k) h).0,
  fills-Filled fills m a side k s w (check_risk-Within m a side k s w h) qs (omega arith),
)

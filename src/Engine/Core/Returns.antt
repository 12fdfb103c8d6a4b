-- ===== src/Engine/Core/Returns.antt =====
-- Where the engine of crates/engine/src/engine.rs cannot panic.
use high_perf_trading.Base.{
  ℕ, ℤ, pos, pos_part, neg_part, Option, some, List, [], ◌∷◌, ◌≡◌, refl, ap, sym, ◌∙◌, subst, arith,
  Bool, true, false, if◌then◌else◌, ◌==◌, ◌>>=◌, All, ◌<ℤ◌, ◌≤ℤ◌, ◌<◌, ◌≤◌, ◌+◌, ◌*◌, ◌^◌, one_part,
  +ℤ_parts, eq_of_parts,
}
use high_perf_trading.Base.Int.{◌+ℤ◌, ◌-ℤ◌}
use high_perf_trading.Base.Word.{add_i64, sub_i64, wrap_i64}
use high_perf_trading.Types.{
  Command, new_order, replace, cancel, set_risk_limits, query_account, authenticate, Event,
  NewOrder, OrderId, AccountId, Side, buy, sell, Price, opposite,
}
use high_perf_trading.Engine.Slab.{SlabApi}
use high_perf_trading.Engine.Book
use high_perf_trading.Engine.Matching.{MatchFill}
use high_perf_trading.Engine.Matching.Fills.{FillOk, sum_qty, match_taker_fills}
use high_perf_trading.Engine.Accounts.{AccountManager, apply_fill, moved}
use high_perf_trading.Engine.Accounts.Positions.{net, apply_fill-net}
use high_perf_trading.Engine.State.{Engine, settle_fill, settle_fills}
use high_perf_trading.Engine.Core.{handle_crossing, handle_new, process, replacement}
use high_perf_trading.Engine.Core.Cases.{handle_new_cases, handle_replace_cases}

-- No account's net position is further from zero than a bound.
abbrev pub Within : ℕ → AccountManager → Type 0
Within bound m = (a : AccountId) → (pos_part (net m a) ≤ bound) × (neg_part (net m a) ≤ bound)

abbrev pub Returns {ℓ} : {A : Type ℓ} → Option A → Type ℓ
Returns {A = A} r = (a : A) × (r ≡ some a)

moved_bound :
    (side : Side) (x q : ℤ) (bound : ℕ)
    → pos_part x ≤ bound
    → neg_part x ≤ bound
    → pos 0 <ℤ q
    → bound + pos_part q < 2 ^ 63
    → (pos_part (moved side x q) ≤ bound + pos_part q)
      × (neg_part (moved side x q) ≤ bound + pos_part q)
unfolding add_i64 sub_i64 wrap_i64 ◌+ℤ◌ ◌-ℤ◌
moved_bound buy x q bound h k p small = ground arith
moved_bound sell x q bound h k p small = ground arith

apply_fill-Within :
    (m : AccountManager) (a : AccountId) (side : Side) (price qty : ℤ) (bound : ℕ)
    → Within bound m
    → pos 0 <ℤ qty
    → bound + pos_part qty < 2 ^ 63
    → (m' : AccountManager) × (apply_fill m a side price qty ≡ some m')
      × Within (bound + pos_part qty) m'
apply_fill-Within m a side price qty bound w p small =
    let (h, k) = w a in
    let (m', e, net', _) =
      apply_fill-net m a side price qty (omega (arith, one_part (net m a)))
        (omega (arith, one_part qty)) in
    (
      m',
      e,
      λ b.
          subst (λ x. (pos_part x ≤ bound + pos_part qty) × (neg_part x ≤ bound + pos_part qty))
            (sym (net' b)) (split b (a == b)),
    )
  where
    split :
        (b : AccountId) (t : Bool)
        → let x = if t then moved side (net m a) qty else net m b in
          (pos_part x ≤ bound + pos_part qty) × (neg_part x ≤ bound + pos_part qty)
    split b true = moved_bound side (net m a) qty bound (w a).0 (w a).1 p small
    split b false = let (h, k) = w b in (omega arith, omega arith)

-- What the fills trade in all.
total : List MatchFill → ℕ
total [] = 0
total (f ∷ fills) = pos_part f.qty + total fills

module _ ⦃slab : SlabApi⦄ where
  bind-Returns :
      {A B : Type 0} (m : Option A) (f : A → Option B) (a : A)
      → m ≡ some a
      → Returns (f a)
      → Returns (m >>= f)
  bind-Returns m f a e (b, e') = (b, ap (λ o. o >>= f) e ∙ e')

  settle_fill-settled :
      (e : Engine) (order : NewOrder) (f : MatchFill) (taken settled : AccountManager)
      → apply_fill e.account_manager order.account_id order.side f.price f.qty ≡ some taken
      → apply_fill taken f.maker_account_id (opposite order.side) f.price f.qty ≡ some settled
      → (r : Event × Engine) × (settle_fill e order f ≡ some r) × (r.1.account_manager ≡ settled)
  unfolding settle_fill
  settle_fill-settled e order f taken settled paid done =
      rw (paid, settle_fill) (rw (done, ◌>>=◌) (_, refl, refl))

  settle_fills-Returns :
      (fills : List MatchFill) (e : Engine) (order : NewOrder) (limit : Price) (bound : ℕ)
      → Within bound e.account_manager
      → All (FillOk order.order_id order.side limit) fills
      → bound + 2 * total fills < 2 ^ 63
      → Returns (settle_fills e order fills)
  unfolding settle_fills settle_fill total
  settle_fills-Returns [] e order limit bound w h small = (_, refl)
  settle_fills-Returns (f ∷ fills) e order limit bound w (ok, h) small =
      let (taken, paid, w') =
        apply_fill-Within e.account_manager order.account_id order.side f.price f.qty bound w
          ok.positive (omega arith) in
      let (settled, done, w'') =
        apply_fill-Within taken f.maker_account_id (opposite order.side) f.price f.qty
          (bound + pos_part f.qty) w' ok.positive (omega arith) in
      let (r, e', same) = settle_fill-settled e order f taken settled paid done in
      bind-Returns _ _ r e' (
        let (s, e'') =
          settle_fills-Returns fills r.1 order limit (bound + pos_part f.qty + pos_part f.qty)
            (subst (Within (bound + pos_part f.qty + pos_part f.qty)) (sym same) w'') h
            (omega arith) in
        bind-Returns _ _ s e'' (_, refl))

  sum_qty-total :
      (taker : OrderId) (side : Side) (limit : Price) (fills : List MatchFill)
      → All (FillOk taker side limit) fills
      → sum_qty fills ≡ pos (total fills)
  unfolding total
  sum_qty-total taker side limit [] h = refl
  sum_qty-total taker side limit (f ∷ fills) (ok, h) =
      let ih = sum_qty-total taker side limit fills h in
      ap (λ s. f.qty +ℤ s) ih
      ∙ eq_of_parts (f.qty +ℤ pos (total fills)) (pos (pos_part f.qty + total fills))
          (omega (arith, +ℤ_parts f.qty (pos (total fills)), ok.positive, one_part f.qty))

  handle_new-Returns :
      (e : Engine) (order : NewOrder)
      → Within (2 ^ 62) e.account_manager
      → order.qty <ℤ pos (2 ^ 61)
      → Returns (handle_new e order)
  unfolding handle_crossing
  handle_new-Returns e order w small =
      handle_new_cases Returns e order (λ reason. (_, refl)) (λ ok _. crossing ok.positive)
        (λ _ _. (_, refl))
    where
      crossing : pos 0 <ℤ order.qty → Returns (handle_crossing e order)
      crossing p =
          let (end, fills, matched, ok, le, _) =
            match_taker_fills e.book order.order_id order.side order.price order.qty
              (omega (arith, one_part order.qty)) (omega arith) in
          let bounded = subst (λ s. s ≤ℤ order.qty) (sum_qty-total _ _ _ fills ok) le in
          let (s, settled) =
            settle_fills-Returns fills (record e { book = end }) order order.price (2 ^ 62) w ok
              (omega (arith, bounded)) in
          bind-Returns _ _ (end, fills) matched (bind-Returns _ _ s settled (_, refl))

  -- The quantity that a command asks for is below 2 ^ 61.
  abbrev pub IsSmall : Command → Type 0
  IsSmall (new_order o) = o.qty <ℤ pos (2 ^ 61)
  IsSmall (replace r) = r.new_qty <ℤ pos (2 ^ 61)
  IsSmall _ = Unit

  -- While every account's net position is at most 2 ^ 62 away from zero, a command whose quantity is below
  -- 2 ^ 61 never panics: `process` returns.
  pub process-Returns :
      (e : Engine) (cmd : Command)
      → Within (2 ^ 62) e.account_manager
      → IsSmall cmd
      → Returns (process e cmd)
  unfolding process
  process-Returns e (new_order order) w small = handle_new-Returns e order w small
  process-Returns e (replace r) w small =
      handle_replace_cases Returns e r (λ reason. (_, refl))
        (λ o _ _.
          handle_new-Returns (record e { book = (Book.cancel e.book r.order_id r.account_id).1 })
            (replacement r o) w small)
  process-Returns e (cancel c) w small = (_, refl)
  process-Returns e (set_risk_limits s) w small = (_, refl)
  process-Returns e (query_account q) w small = (_, refl)
  process-Returns e (authenticate a) w small = (_, refl)

-- ===== src/Engine/Matching/Greedy.antt =====
-- What `match_taker` of crates/engine/src/order_book.rs is to do, without levels, keys and a store: go
-- through the live orders from the best price on, the oldest first, and trade while the price allows.
pub mod Follows
use high_perf_trading.Base.{
  ℕ, ◌+◌, ◌<◌, ℤ, pos, pos_part, true, false, Bool, Option, none, some, List, [], ◌∷◌, ◌++◌, ltb_ℤ,
  leb_ℤ, min_ℤ, ◌-ℤ◌, not, ◌&&◌, if◌then◌else◌, ◌≡◌, ◌≢◌, refl, ap, sym, ◌∙◌, subst, inl, inr,
  arith, All, Bool-cases, Option-cases, picked, passed,
}
use high_perf_trading.Base.TreeMap.{TreeMap}
use high_perf_trading.Base.TreeMap
use high_perf_trading.Base.TreeMap.Ranked.{backwards, Fronted}
use high_perf_trading.Types.{OrderId, Side, buy, sell, Price, Qty, opposite}
use high_perf_trading.Engine.Slab.{SlabApi, Order}
use high_perf_trading.Engine.Book.{OrderBook, Level, levels}
use high_perf_trading.Engine.Book.Queues.{In, Store, live_qty, depth}
use high_perf_trading.Engine.Matching.{MatchFill, beyond, settle_level}

-- Trades with the orders in turn, while the taker wants more and the price is within its limit.
unfoldable pub greedy : OrderId → Side → Price → ℤ → List Order → List MatchFill
greedy taker side limit qty [] = []
greedy taker side limit qty (o ∷ orders) =
    let rest = greedy taker side limit (qty -ℤ min_ℤ qty o.qty_rem) orders in
    if ltb_ℤ (pos 0) qty && not (beyond side o.price limit)
    then record {
      maker_order_id = o.order_id;
      maker_account_id = o.account_id;
      taker_order_id = taker;
      price = o.price;
      qty = min_ℤ qty o.qty_rem;
    }
      ∷ rest
    else []

-- The live orders of a queue, in its order.
abbrev pub live_first : Option Order → List Order → List Order
live_first none rest = rest
live_first (some o) rest = if ltb_ℤ (pos 0) o.qty_rem then o ∷ rest else rest

unfoldable pub waiting : Store → List ℕ → List Order
waiting g [] = []
waiting g (k ∷ queue) = live_first (g k) (waiting g queue)

unfoldable pub all_waiting : Store → TreeMap Level → List Order
all_waiting g [] = []
all_waiting g ((px, lvl) ∷ m) = waiting g lvl.queue ++ all_waiting g m

-- The levels that a taker of a side meets, the best for it first.
abbrev pub ranked : Side → TreeMap Level → TreeMap Level
ranked buy m = m
ranked sell m = backwards m

module _ ⦃slab : SlabApi⦄ where
  -- The live orders that a taker of a side may trade with, in the order of their priority.
  unfoldable pub by_priority : Side → OrderBook → List Order
  unfolding all_waiting
  by_priority side b = all_waiting (slab.get b.orders) (ranked side (levels (opposite side) b))

pub waiting_congr :
    (g h : Store) (queue : List ℕ)
    → ((j : ℕ) → In j queue → h j ≡ g j)
    → waiting h queue ≡ waiting g queue
unfolding waiting
waiting_congr g h [] e = refl
waiting_congr g h (k ∷ queue) e =
    ap (λ o. live_first o (waiting h queue)) (e k (inl refl))
    ∙ ap (live_first (g k)) (waiting_congr g h queue (λ j i. e j (inr i)))

pub all_waiting_congr :
    (g h : Store) (m : TreeMap Level)
    → All (λ e. (j : ℕ) → In j e.1.queue → h j ≡ g j) m
    → all_waiting h m ≡ all_waiting g m
unfolding all_waiting
all_waiting_congr g h [] e = refl
all_waiting_congr g h ((px, lvl) ∷ m) (e, es) =
    ap (λ l. l ++ all_waiting h m) (waiting_congr g h lvl.queue e)
    ∙ ap (λ l. waiting g lvl.queue ++ l) (all_waiting_congr g h m es)

-- An order that wants nothing is passed over.
pub live_first_dead :
    (o : Option Order) (rest : List Order) → live_qty o ≡ 0 → live_first o rest ≡ rest
live_first_dead none rest z = refl
live_first_dead (some o) rest z = ground arith

-- A queue without depth has no live order.
pub waiting_empty : (g : Store) (queue : List ℕ) → depth g queue ≡ 0 → waiting g queue ≡ []
unfolding waiting
waiting_empty g [] z = refl
waiting_empty g (k ∷ queue) z =
    live_first_dead (g k) _ (omega arith) ∙ waiting_empty g queue (omega arith)

-- A taker that wants nothing gets nothing.
pub greedy_done :
    (taker : OrderId) (side : Side) (limit : Price) (qty : ℤ) (orders : List Order)
    → ltb_ℤ (pos 0) qty ≡ false
    → greedy taker side limit qty orders ≡ []
unfolding greedy
greedy_done taker side limit qty [] h = refl
greedy_done taker side limit qty (o ∷ orders) h = ground arith

-- Nor does one whose limit is beyond the price of a queue that has a live order.
pub greedy-beyond :
    (taker : OrderId) (side : Side) (limit : Price) (qty : ℤ) (px : Price) (g : Store)
    (queue : List ℕ) (more : List Order)
    → beyond side px limit ≡ true
    → ((j : ℕ) (o : Order) → In j queue → g j ≡ some o → o.price ≡ px)
    → 0 < depth g queue
    → greedy taker side limit qty (waiting g queue ++ more) ≡ []
unfolding waiting greedy
greedy-beyond taker side limit qty px g [] more far at p = absurd (omega arith)
greedy-beyond taker side limit qty px g (k ∷ queue) more far at p = elim (Option-cases (g k)) [
  | inl e ↦
      ap (λ o. greedy taker side limit qty (live_first o (waiting g queue) ++ more)) e
      ∙ greedy-beyond taker side limit qty px g queue more far (λ j o i. at j o (inr i))
          (omega (arith, ap live_qty e))
  | inr (o, e) ↦
      ap (λ x. greedy taker side limit qty (live_first x (waiting g queue) ++ more)) e
      ∙ elim (Bool-cases (ltb_ℤ (pos 0) o.qty_rem)) [
        | inl live ↦
            ap (λ l. greedy taker side limit qty (l ++ more)) (picked _ _ _ live)
            ∙ stops o (at k o (inl refl) e)
        | inr dead ↦
            ap (λ l. greedy taker side limit qty (l ++ more)) (passed _ _ _ dead)
            ∙ greedy-beyond taker side limit qty px g queue more far (λ j x i. at j x (inr i))
                (omega (arith, ap live_qty e, nothing o.qty_rem dead))
      ]
]
  where
    nothing : (q : ℤ) → ltb_ℤ (pos 0) q ≡ false → pos_part q ≡ 0
    nothing q h = ground arith

    off : (x c : Bool) → c ≡ true → (x && not c) ≡ false
    off x c e = ground arith

    stops :
        (o : Order) → o.price ≡ px → greedy taker side limit qty (o ∷ waiting g queue ++ more) ≡ []
    stops o e = passed _ _ _ (
        off (ltb_ℤ (pos 0) qty) (beyond side o.price limit) (ap (λ p. beyond side p limit) e ∙ far))

-- The levels after the one in front is settled.
pub all_waiting-settle_level :
    ⦃slab : SlabApi⦄ (g : Store) (rank : TreeMap Level → TreeMap Level) (px total : ℤ) (lvl : Level)
    (queue : List ℕ) (m : TreeMap Level) (f : Fronted m rank px lvl)
    → total ≡ pos (depth g queue)
    → all_waiting g (rank (settle_level px total queue m))
      ≡ waiting g queue ++ all_waiting g f.behind
unfolding settle_level all_waiting
all_waiting-settle_level g rank px total lvl queue m f e = elim (Bool-cases (leb_ℤ total (pos 0))) [
  | inl gone ↦
      ap (λ l. all_waiting g (rank l)) (picked _ _ _ gone)
      ∙ ap (all_waiting g) f.remove_front
      ∙ ap (λ l. l ++ all_waiting g f.behind)
          (sym (
            waiting_empty g queue
              (empty (depth g queue) (subst (λ x. leb_ℤ x (pos 0) ≡ true) e gone))))
  | inr left ↦
      ap (λ l. all_waiting g (rank l)) (passed _ _ _ left) ∙ ap (all_waiting g) (f.put_front _)
]
  where
    empty : (d : ℕ) → leb_ℤ (pos d) (pos 0) ≡ true → d ≡ 0
    empty d h = ground arith

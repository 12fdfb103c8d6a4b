-- ===== src/Engine/Core/Books.antt =====
-- What every change of the order book keeps, every command of crates/engine/src/engine.rs keeps.
use high_perf_trading.Base.{
  ℕ, ◌≤◌, ◌^◌, ℤ, pos, pos_part, Bool, true, false, some, none, List, ◌≡◌, ap, sym, subst, ◌<ℤ◌,
  ltb_ℤ, ◌&&◌, inl, inr, Holds, Holds-bind, if_cases, arith, if◌then◌else◌,
}
use high_perf_trading.Base.Word.{IsI64, sub_i64, wrap-IsI64}
use high_perf_trading.Base.TreeMap
use high_perf_trading.Types.{
  NewOrder, OrderId, AccountId, Side, opposite, Price, Qty, is_gtc, RejectReason, Command,
  new_order, cancel, replace, set_risk_limits, query_account, authenticate,
}
use high_perf_trading.Engine.Slab.{SlabApi, Order}
use high_perf_trading.Engine.Book.{
  OrderBook, Level, levels, would_cross, insert_resting, cancel_found, find_owned,
}
use high_perf_trading.Engine.Book
use high_perf_trading.Engine.Book.Cancel.{cancel_cases}
use high_perf_trading.Engine.Matching.{MatchFill, trade, drop_level, pop_live_front}
use high_perf_trading.Engine.Matching.Remainder.{remainder_left}
use high_perf_trading.Engine.Matching.Fills.{Run-goes_on}
use high_perf_trading.Engine.Matching.Run.{goes_on}
use high_perf_trading.Engine.Matching.Run.{Run, stop, skip, hit}
use high_perf_trading.Engine.Matching.Termination.{match_taker-Run}
use high_perf_trading.Engine.State.{
  Engine, Step, settle_fills, conclude, reject_event, ack_event, filled_from,
}
use high_perf_trading.Engine.Core.{
  handle_crossing, handle_passive, handle_new, handle_set_risk_limits, handle_query_account,
  process, rest, resting_order, rest_remainder, replacement, refuse,
}
use high_perf_trading.Engine.Core.Cases.{
  handle_new_cases, handle_cancel_cases, handle_replace_cases,
}
use high_perf_trading.Engine.Core.Orders.{settle_fills-KeepsBook, KeepsBook, conclude-book}

-- The quantity of a command is a machine word.
abbrev pub HasWord : Command → Type 0
HasWord (new_order o) = IsI64 o.qty
HasWord (replace r) = IsI64 r.new_qty
HasWord _ = Unit

-- The quantity of a command is no more than a number.
abbrev pub AtMost : ℕ → Command → Type 0
AtMost most (new_order o) = pos_part o.qty ≤ most
AtMost most (replace r) = pos_part r.new_qty ≤ most
AtMost most _ = Unit

-- A machine word is no more than the least number above them.
pub HasWord-AtMost : (cmd : Command) → HasWord cmd → AtMost (2 ^ 63) cmd
HasWord-AtMost (new_order o) h = omega arith
HasWord-AtMost (replace r) h = omega arith
HasWord-AtMost (cancel c) h = tt
HasWord-AtMost (set_risk_limits s) h = tt
HasWord-AtMost (query_account q) h = tt
HasWord-AtMost (authenticate a) h = tt

module _ ⦃slab : SlabApi⦄ where
  -- Two predicates on books, the second weaker: each change of the book keeps the first.
  -- Only an order that comes to rest, of a quantity of at most `most`, may turn the first into the second.
  pub record Preserved (most : ℕ) (P Q : OrderBook → Type 0) : Type 0 where
    pub weaken : (b : OrderBook) → P b → Q b
    pub resting :
        (b : OrderBook) (o : Order)
        → IsI64 o.qty_rem
        → pos 0 <ℤ o.qty_rem
        → pos_part o.qty_rem ≤ most
        → would_cross b o.side o.price ≡ false
        → P b
        → Q (insert_resting b o)
    pub cancelled :
        (b : OrderBook) (order_id : OrderId) (account_id : AccountId) (key : ℕ) (o : Order)
        → find_owned b order_id account_id ≡ some (key, o)
        → P b
        → P (cancel_found b order_id key o)
    pub dropped :
        (b : OrderBook) (side : Side) (px : Price) (lvl : Level)
        → TreeMap.get px (levels side b) ≡ some lvl
        → (pop_live_front b.orders lvl.queue).0 ≡ none
        → P b
        → P (drop_level b side px)
    pub traded :
        (b : OrderBook) (taker : OrderId) (side : Side) (px : Price) (qty : Qty) (lvl : Level)
        (queue : List ℕ) (key : ℕ) (maker : Order)
        → TreeMap.get px (levels (opposite side) b) ≡ some lvl
        → pop_live_front b.orders lvl.queue ≡ (some key, queue)
        → slab.get b.orders key ≡ some maker
        → pos 0 <ℤ maker.qty_rem
        → pos 0 <ℤ qty
        → P b
        → P (trade b taker side px qty lvl queue key maker).1

module _ ⦃slab : SlabApi⦄ {most : ℕ} {P Q : OrderBook → Type 0} (keeps : Preserved most P Q) where
  run_keeps :
      {taker : OrderId} {side : Side} {limit : Price} {end : OrderBook} {left : Qty} {b : OrderBook}
      {qty : Qty} {fills : List MatchFill}
      → Run taker side limit end left b qty fills
      → P b
      → P end
  run_keeps (stop same _ _ _) h = subst P same h
  run_keeps {side = side} {b = b} (skip d r) h =
      run_keeps r (
        subst P (sym d.after) (keeps.dropped b (opposite side) d.px d.lvl d.at_best.found d.dead h))
  run_keeps {taker = taker} {side = side} {b = b} {qty = qty} (hit t _ r) h = run_keeps r (
      subst P (ap (λ r. r.1) t.after) (
        keeps.traded b taker side t.px qty t.lvl t.queue t.key t.maker t.at_best.found t.popped
          t.stored t.live (wants t.at_best.wants) h))
    where
      wants : ltb_ℤ (pos 0) qty ≡ true → pos 0 <ℤ qty
      wants e = ground arith

  Kept : Step → Type 0
  Kept (evs, e) = Q e.book

  rest_remainder_keeps :
      (e : Engine) (order : NewOrder) (fills : List MatchFill)
      → pos_part (sub_i64 order.qty (filled_from (pos 0) fills)) ≤ most
      → goes_on e.book order.side order.price (sub_i64 order.qty (filled_from (pos 0) fills))
        ≡ false
      → P e.book
      → Q (rest_remainder e order fills).book
  unfolding rest_remainder sub_i64
  rest_remainder_keeps e order fills small over h =
      if_cases (λ x. Q x.book) (ltb_ℤ (pos 0) rem && is_gtc order.tif) {x = rest e order rem}
        {y = e}
        (λ t.
          keeps.resting e.book (resting_order order rem) (wrap-IsI64 _) (more rem t) small
            (apart rem (would_cross e.book order.side order.price) t over) h)
        (λ _. keeps.weaken e.book h)
    where
      rem : ℤ
      rem = sub_i64 order.qty (filled_from (pos 0) fills)

      more : (x : ℤ) → (ltb_ℤ (pos 0) x && is_gtc order.tif) ≡ true → pos 0 <ℤ x
      more x t = ground arith

      apart :
          (x : ℤ) (c : Bool)
          → (ltb_ℤ (pos 0) x && is_gtc order.tif) ≡ true
          → (ltb_ℤ (pos 0) x && c) ≡ false
          → c ≡ false
      apart x c t over = ground arith

  conclude_keeps :
      (e : Engine) (client_seq : ℕ) (order_id : OrderId)
      → Q e.book
      → Kept (conclude e client_seq order_id)
  unfolding Kept
  conclude_keeps e client_seq order_id h = subst Q (sym (conclude-book e client_seq order_id)) h

  handle_crossing_keeps :
      (e : Engine) (order : NewOrder)
      → IsI64 order.qty
      → pos 0 <ℤ order.qty
      → pos_part order.qty ≤ most
      → P e.book
      → Holds Kept (handle_crossing e order)
  unfolding handle_crossing Kept
  handle_crossing_keeps e order i p small h =
      let (end, left, fills, matched, run) =
        match_taker-Run e.book order.order_id order.side order.price order.qty in
      rw (matched, handle_crossing)
        (Holds-bind (KeepsBook (record e { book = end })) Kept
          (settle_fills (record e { book = end }) order fills) _
          (settle_fills-KeepsBook fills (record e { book = end }) order)
          λ (evs, e') _ same.
            conclude_keeps (rest_remainder e' order fills) order.client_seq order.order_id (
              rest_remainder_keeps e' order fills
                (rw (remainder_left run i p).0 (omega (arith, (remainder_left run i p).1)))
                (rw ((remainder_left run i p).0, same) (Run-goes_on run))
                (subst P (sym same) (run_keeps run h))))

  handle_passive_keeps :
      (e : Engine) (order : NewOrder)
      → IsI64 order.qty
      → pos 0 <ℤ order.qty
      → pos_part order.qty ≤ most
      → would_cross e.book order.side order.price ≡ false
      → P e.book
      → Kept (handle_passive e order)
  unfolding handle_passive
  handle_passive_keeps e order i p small over h =
      conclude_keeps (if is_gtc order.tif then rest e order order.qty else e) order.client_seq
        order.order_id
        (if_cases (λ x. Q x.book) (is_gtc order.tif) {x = rest e order order.qty} {y = e}
          (λ _. keeps.resting e.book (resting_order order order.qty) i p small over h)
          (λ _. keeps.weaken e.book h))

  refuse_keeps :
      (e : Engine) (client_seq : ℕ) (order_id : OrderId) (reason : RejectReason)
      → P e.book
      → Kept (refuse e client_seq order_id reason)
  unfolding reject_event Kept
  refuse_keeps e client_seq order_id reason h = keeps.weaken e.book h

  handle_new_keeps :
      (e : Engine) (order : NewOrder)
      → IsI64 order.qty
      → pos_part order.qty ≤ most
      → P e.book
      → Holds Kept (handle_new e order)
  handle_new_keeps e order i small h =
      handle_new_cases (Holds Kept) e order
        (λ reason. refuse_keeps e order.client_seq order.order_id reason h)
        (λ ok _. handle_crossing_keeps e order i ok.positive small h)
        (λ ok over. handle_passive_keeps e order i ok.positive small over h)

  cancel_keeps :
      (b : OrderBook) (order_id : OrderId) (account_id : AccountId)
      → P b
      → P (Book.cancel b order_id account_id).1
  cancel_keeps b order_id account_id h = elim (cancel_cases b order_id account_id) [
    | inl (_, e) ↦ subst (λ r. P r.1) (sym e) h
    | inr (key, o, found, e) ↦
        subst (λ r. P r.1) (sym e) (keeps.cancelled b order_id account_id key o found h)
  ]

  -- The book after a command has the second, if it had the first.
  pub process_keeps :
      (e : Engine) (cmd : Command)
      → HasWord cmd
      → AtMost most cmd
      → P e.book
      → Holds (λ (evs, e'). Q e'.book) (process e cmd)
  unfolding process Kept handle_set_risk_limits handle_query_account ack_event
  process_keeps e (new_order order) i small h = handle_new_keeps e order i small h
  process_keeps e (cancel c) i small h =
      handle_cancel_cases Kept e c (λ reason. refuse_keeps e c.client_seq c.order_id reason h)
        (λ book found _.
          conclude_keeps (record e { book = book }) c.client_seq c.order_id
            (keeps.weaken book
              (subst (λ r. P r.1) found (cancel_keeps e.book c.order_id c.account_id h))))
  process_keeps e (replace r) i small h =
      handle_replace_cases (Holds Kept) e r
        (λ reason. refuse_keeps e r.client_seq r.order_id reason h)
        (λ o _ _.
          handle_new_keeps (record e { book = (Book.cancel e.book r.order_id r.account_id).1 })
            (replacement r o) i small (cancel_keeps e.book r.order_id r.account_id h))
  process_keeps e (set_risk_limits s) i small h = keeps.weaken e.book h
  process_keeps e (query_account q) i small h = keeps.weaken e.book h
  process_keeps e (authenticate a) i small h = keeps.weaken e.book h

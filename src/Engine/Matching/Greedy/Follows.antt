-- ===== src/Engine/Matching/Greedy/Follows.antt =====
-- `match_taker` of crates/engine/src/order_book.rs trades with the live orders in the order of their priority.
use high_perf_trading.Base.{
  ℕ, ◌<◌, ◌^◌, ◌-◌, ℤ, pos, pos_part, true, false, none, some, List, [], ◌∷◌, ◌++◌, ltb_ℤ, eqb_ℤ,
  min_ℤ, ◌-ℤ◌, ◌<ℤ◌, ◌≤ℤ◌, not, ◌&&◌, ◌≡◌, ◌≢◌, refl, ap, sym, ◌∙◌, subst, ◌⊎◌, inl, inr, arith,
  All, Bool-cases, Option-cases, picked, Bool, some_injective, -ℤ_parts, one_part,
}
use high_perf_trading.Base.Word.{IsI64, sub_i64_within}
use high_perf_trading.Base.TreeMap.{TreeMap, IsSorted}
use high_perf_trading.Base.TreeMap
use high_perf_trading.Base.TreeMap.Lookup.{first_found, last_found}
use high_perf_trading.Base.TreeMap.Ranked.{backwards, Fronted, first-Fronted, last-Fronted}
use high_perf_trading.Types.{OrderId, Side, buy, sell, Price, Qty, opposite}
use high_perf_trading.Engine.Slab.{SlabApi, Order}
use high_perf_trading.Engine.Book.{OrderBook, Level, levels, set_levels}
use high_perf_trading.Engine.Book.Queues.{In, found_queue, dead_depth}
use high_perf_trading.Engine.Book.Aggregate.{Placed}
use high_perf_trading.Engine.Book.Aggregate.Books.{store, BookFits}
use high_perf_trading.Engine.Book.Aggregate.Trades.{traded-BookFits}
use high_perf_trading.Engine.Book.Aggregate.Trades
use high_perf_trading.Engine.Matching.{
  MatchFill, beyond, pop_live_front, best_px, key_of, trade, settle_maker, match_taker,
}
use high_perf_trading.Engine.Matching.Run.{
  get-best_px, key_of-eq_some, would_cross-best_px, goes_on, Traded, Run, stop, skip, hit,
}
use high_perf_trading.Engine.Matching.Fills.{Traded-fields, Traded-FillOk}
use high_perf_trading.Engine.Matching.Termination.{match_taker-Run}
use high_perf_trading.Engine.Matching.Greedy.{
  greedy, live_first, waiting, all_waiting, ranked, by_priority, waiting_congr, all_waiting_congr,
  greedy_done, greedy-beyond, all_waiting-settle_level,
}

module _ ⦃slab : SlabApi⦄ where
  -- What `pop_live_front` skips does not wait.
  waiting-pop_live_front :
      (orders : slab.Slab) (queue : List ℕ)
      → waiting (slab.get orders) queue
        ≡ waiting (slab.get orders) (found_queue (pop_live_front orders queue))
  unfolding waiting pop_live_front
  waiting-pop_live_front orders [] = refl
  waiting-pop_live_front orders (k ∷ queue) = elim (Option-cases (slab.get orders k)) [
    | inl e ↦ rw (e, pop_live_front) (waiting-pop_live_front orders queue)
    | inr (o, e) ↦ elim (Bool-cases (ltb_ℤ (pos 0) o.qty_rem)) [
      | inl live ↦ rw (e, pop_live_front) (rw live (front k o queue e live))
      | inr dead ↦ rw (e, pop_live_front) (rw dead (waiting-pop_live_front orders queue))
    ]
  ]
    where
      front :
          (k : ℕ) (o : Order) (queue : List ℕ)
          → slab.get orders k ≡ some o
          → ltb_ℤ (pos 0) o.qty_rem ≡ true
          → o ∷ waiting (slab.get orders) queue ≡ waiting (slab.get orders) (k ∷ queue)
      front k o queue e live =
          sym (ap (λ x. live_first x (waiting (slab.get orders) queue)) e ∙ picked _ _ _ live)

  -- The level at the best price is the one in front.
  best-Fronted :
      {most : ℕ} (b : OrderBook) (side : Side) (px : Price) (lvl : Level)
      → BookFits most b
      → best_px side b ≡ some px
      → TreeMap.get px (levels (opposite side) b) ≡ some lvl
      → Fronted (levels (opposite side) b) (ranked side) px lvl
  unfolding best_px
  best-Fronted b buy px lvl h e found =
      let (l, first) = key_of-eq_some _ e in
      subst (Fronted b.asks (λ n. n) px)
        (some_injective (sym (first_found b.asks px l first) ∙ found))
        (first-Fronted b.asks px l (h.sorted sell) first)
  best-Fronted b sell px lvl h e found =
      let (l, last) = key_of-eq_some _ e in
      subst (Fronted b.bids backwards px)
        (some_injective (sym (last_found b.bids px l (h.sorted buy) last) ∙ found))
        (last-Fronted b.bids px l (h.sorted buy) last)

  by_priority-Fronted :
      (b : OrderBook) (side : Side) (px : Price) (lvl : Level)
      (f : Fronted (levels (opposite side) b) (ranked side) px lvl)
      → by_priority side b ≡ waiting (store b) lvl.queue ++ all_waiting (store b) f.behind
  unfolding by_priority all_waiting
  by_priority-Fronted b side px lvl f = ap (all_waiting (store b)) f.whole

  by_priority-set_levels :
      (b : OrderBook) (side : Side) (m : TreeMap Level)
      → by_priority side (set_levels (opposite side) m b) ≡ all_waiting (store b) (ranked side m)
  unfolding by_priority
  by_priority-set_levels b buy m = refl
  by_priority-set_levels b sell m = refl

  by_priority_empty :
      (b : OrderBook) (side : Side) → best_px side b ≡ none → by_priority side b ≡ []
  unfolding best_px by_priority TreeMap.first TreeMap.last all_waiting
  by_priority_empty b buy e = go b.asks e
    where
      go : (m : TreeMap Level) → key_of (TreeMap.first m) ≡ none → all_waiting (store b) m ≡ []
      go [] e = refl
      go (d ∷ m) e = cc e
  by_priority_empty b sell e = go b.bids e
    where
      never : (d : ℤ × Level) (m : TreeMap Level) → ¬ (key_of (TreeMap.last (d ∷ m)) ≡ none)
      never d [] e = cc e
      never d (c ∷ m) e = never c m e

      go :
          (m : TreeMap Level)
          → key_of (TreeMap.last m) ≡ none
          → all_waiting (store b) (backwards m) ≡ []
      go [] e = refl
      go (d ∷ m) e = absurd (never d m e)

  -- The orders behind a level are not under the key of one of its orders.
  behind_kept :
      {most : ℕ} (b b' : OrderBook) (side : Side) (px : Price) (key : ℕ) (n : TreeMap Level)
      → BookFits most b
      → Placed (store b) side px key
      → ((j : ℕ) → key ≢ j → store b' j ≡ store b j)
      → All (λ e. (e.0 ≢ px) × (TreeMap.get e.0 (levels side b) ≡ some e.1)) n
      → All (λ e. (j : ℕ) → In j e.1.queue → store b' j ≡ store b j) n
  behind_kept b b' side px key [] h a kept o = tt
  behind_kept b b' side px key ((p, lvl) ∷ n) h a kept ((other, found), o) = (
    λ j i. kept j λ e.
        let c = (h.fits.level side p lvl found).placed j i in
        other (
          sym c.at_price
          ∙ ap (λ x. x.price) (some_injective (sym c.stored ∙ ap (store b) (sym e) ∙ a.stored))
          ∙ a.at_price),
    behind_kept b b' side px key n h a kept o,
  )

module _ ⦃slab : SlabApi⦄ {most : ℕ} (b : OrderBook) (taker : OrderId) (side : Side) (px : Price)
    (qty : Qty) (lvl : Level) (queue : List ℕ) (key : ℕ) (maker : Order)
    (found : TreeMap.get px (levels (opposite side) b) ≡ some lvl)
    (popped : pop_live_front b.orders lvl.queue ≡ (some key, queue))
    (stored : slab.get b.orders key ≡ some maker) (live : pos 0 <ℤ maker.qty_rem)
    (wants : pos 0 <ℤ qty) (word : most < 2 ^ 63) (h : BookFits most b)
    (f : Fronted (levels (opposite side) b) (ranked side) px lvl) where
  -- The maker stands first, before the rest of its queue and the levels behind.
  maker_first :
      by_priority side b ≡ maker ∷ waiting (store b) queue ++ all_waiting (store b) f.behind
  unfolding waiting
  maker_first =
      by_priority-Fronted b side px lvl f
      ∙ ap (λ l. l ++ all_waiting (store b) f.behind)
          (waiting-pop_live_front b.orders lvl.queue
            ∙ ap (λ r. waiting (store b) (found_queue r)) popped
            ∙ ap (λ o. live_first o (waiting (store b) queue)) stored
            ∙ picked _ _ _ (is_live maker.qty_rem live))
    where
      is_live : (q : ℤ) → pos 0 <ℤ q → ltb_ℤ (pos 0) q ≡ true
      is_live q p = ground arith

  -- After the trade the others stand as before, or the taker wants nothing more.
  after_trade :
      (by_priority side (trade b taker side px qty lvl queue key maker).1
        ≡ waiting (store b) queue ++ all_waiting (store b) f.behind)
      ⊎ (ltb_ℤ (pos 0) (qty -ℤ min_ℤ qty maker.qty_rem) ≡ false)
  unfolding trade settle_maker Trades.traded Trades.written Trades.spare
  after_trade =
      rw
        (Trades.left_eq b taker side px qty lvl queue key maker found popped stored live wants word
          h)
        (elim (Bool-cases (eqb_ℤ (pos spare) (pos 0))) [
          | inr some_left ↦ inr (taker_done some_left)
          | inl used ↦ rw used (
              inl (
                by_priority-set_levels (gone) side _
                ∙ all_waiting-settle_level (store gone) (ranked side) px _ lvl queue _ f (
                    Trades.used_total b taker side px qty lvl queue key maker found popped stored
                      live wants word h gone (refl, refl) kept (none_left used))
                ∙ ap (λ l. l ++ all_waiting (store gone) f.behind)
                    (waiting_congr (store b) (store gone) queue (λ j i. kept j (
                      Trades.absent b taker side px qty lvl queue key maker found popped stored live
                        wants word h j i)))
                ∙ ap (λ l. waiting (store b) queue ++ l)
                    (all_waiting_congr (store b) (store gone) f.behind (
                      behind_kept b gone (opposite side) px key f.behind h
                        ((h.fits.level (opposite side) px lvl found).placed key (
                          (Trades.front b taker side px qty lvl queue key maker found popped stored
                              live wants word h).within
                            key (inl refl)))
                        kept f.others))))
        ])
    where
      spare : ℕ
      spare = pos_part maker.qty_rem - pos_part (min_ℤ qty maker.qty_rem)

      gone : OrderBook
      gone =
          Trades.without b taker side px qty lvl queue key maker found popped stored live wants word
            h
            (Trades.written b taker side px qty lvl queue key maker found popped stored live wants
              word h)

      kept : (j : ℕ) → key ≢ j → store gone j ≡ store b j
      kept =
          Trades.still_gone b taker side px qty lvl queue key maker found popped stored live wants
            word h

      none_left : eqb_ℤ (pos spare) (pos 0) ≡ true → spare ≡ 0
      none_left e = ground arith

      taker_done :
          eqb_ℤ (pos spare) (pos 0) ≡ false → ltb_ℤ (pos 0) (qty -ℤ min_ℤ qty maker.qty_rem) ≡ false
      taker_done e =
          let parts = -ℤ_parts qty (min_ℤ qty maker.qty_rem) in
          let one = one_part (qty -ℤ min_ℤ qty maker.qty_rem) in ground arith

module _ ⦃slab : SlabApi⦄ {most : ℕ} (word : most < 2 ^ 63) where
  -- A run that ends leaves nothing that the reference would trade.
  stop-greedy :
      (b : OrderBook) (taker : OrderId) (side : Side) (limit : Price) (qty : Qty)
      → BookFits most b
      → goes_on b side limit qty ≡ false
      → greedy taker side limit qty (by_priority side b) ≡ []
  unfolding greedy
  stop-greedy b taker side limit qty h over = elim (Option-cases (best_px side b)) [
    | inl e ↦ ap (greedy taker side limit qty) (by_priority_empty b side e)
    | inr (px, e) ↦ elim (Bool-cases (ltb_ℤ (pos 0) qty)) [
      | inr done ↦ greedy_done taker side limit qty _ done
      | inl wants ↦
          let (lvl, found) = get-best_px b side px e in
          let f = best-Fronted b side px lvl h e found in
          let level = h.fits.level (opposite side) px lvl found in
          ap (greedy taker side limit qty) (by_priority-Fronted b side px lvl f)
          ∙ greedy-beyond taker side limit qty px (store b) lvl.queue _
              (far (ltb_ℤ (pos 0) qty) (beyond side px limit) wants
                (rw (would_cross-best_px b side limit px e) at over))
              (λ j o i s.
                let a = level.placed j i in
                ap (λ x. x.price) (some_injective (sym s ∙ a.stored)) ∙ a.at_price)
              level.positive
    ]
  ]
    where
      far : (x c : Bool) → x ≡ true → (x && not c) ≡ false → c ≡ true
      far x c e g = ground arith

  -- The fill of a trade is the one the reference makes with the maker.
  Traded-greedy :
      {b : OrderBook} {taker : OrderId} {side : Side} {limit : Price} {qty : Qty} {f : MatchFill}
      {b' : OrderBook} (t : Traded b taker side limit qty f b') (orders : List Order)
      → t.maker.price ≡ t.px
      → f ∷ greedy taker side limit (qty -ℤ min_ℤ qty t.maker.qty_rem) orders
        ≡ greedy taker side limit qty (t.maker ∷ orders)
  unfolding greedy trade
  Traded-greedy {taker = taker} {side = side} {limit = limit} {qty = qty} t orders at_price =
      ap (λ r. r.0 ∷ rest) (sym t.after)
      ∙ ap
          (λ p.
            record {
              maker_order_id = t.maker.order_id;
              maker_account_id = t.maker.account_id;
              taker_order_id = taker;
              price = p;
              qty = min_ℤ qty t.maker.qty_rem;
            }
            ∷ rest)
          (sym at_price)
      ∙ sym (
          picked _ _ _ (
            goes (ltb_ℤ (pos 0) qty) (beyond side t.maker.price limit) t.at_best.wants
              (ap (λ p. beyond side p limit) at_price ∙ t.at_best.within)))
    where
      rest : List MatchFill
      rest = greedy taker side limit (qty -ℤ min_ℤ qty t.maker.qty_rem) orders

      goes : (x c : Bool) → x ≡ true → c ≡ false → (x && not c) ≡ true
      goes x c e g = ground arith

  Run-greedy :
      {taker : OrderId} {side : Side} {limit : Price} {end : OrderBook} {left : Qty} {b : OrderBook}
      {qty : Qty} {fills : List MatchFill}
      → Run taker side limit end left b qty fills
      → BookFits most b
      → IsI64 qty
      → pos 0 ≤ℤ qty
      → fills ≡ greedy taker side limit qty (by_priority side b)
  Run-greedy {taker = taker} {side = side} {limit = limit} {b = b} {qty = qty} (stop _ _ e over) h i
        p =
      e ∙ sym (stop-greedy b taker side limit qty h over)
  Run-greedy {side = side} {b = b} (skip d r) h i p =
      let level = h.fits.level (opposite side) d.px d.lvl d.at_best.found in
      absurd (omega (arith, dead_depth b.orders d.lvl.queue d.dead, level.positive))
  Run-greedy {taker = taker} {side = side} {limit = limit} {b = b} {qty = qty}
        (hit {b' = b'} {f = f} {fills = fills} t e r) h i p =
      let (ok, le, wants) = Traded-FillOk t in
      let (fq, _, _, _, _) = Traded-fields t in
      let exact = sub_i64_within qty f.qty i (omega (arith, ok.positive)) le in
      let parts = -ℤ_parts qty f.qty in
      let one = one_part (qty -ℤ f.qty) in
      let front = best-Fronted b side t.px t.lvl h t.at_best.best t.at_best.found in
      let h' =
        subst (λ x. BookFits most x.1) t.after
          (traded-BookFits b taker side t.px qty t.lvl t.queue t.key t.maker t.at_best.found
            t.popped t.stored t.live wants word h) in
      let ih = Run-greedy r h' (rw exact (omega arith)) (rw exact (omega arith)) in
      let placed = (h.fits.level (opposite side) t.px t.lvl t.at_best.found).placed t.key (
        (Trades.front b taker side t.px qty t.lvl t.queue t.key t.maker t.at_best.found t.popped
            t.stored t.live wants word h).within
          t.key (inl refl)) in
      let at_price =
        ap (λ o. o.price) (some_injective (sym t.stored ∙ placed.stored)) ∙ placed.at_price in
      let orders = waiting (store b) t.queue ++ all_waiting (store b) front.behind in
      let left_over =
        ih
        ∙ ap (λ q. greedy taker side limit q (by_priority side b'))
            (exact ∙ ap (λ q. qty -ℤ q) fq) in
      e
      ∙ ap (λ l. f ∷ l)
          (left_over
            ∙ rest_same side (qty -ℤ min_ℤ qty t.maker.qty_rem) orders (
                subst
                  (λ x.
                    (by_priority side x.1 ≡ orders)
                    ⊎ (ltb_ℤ (pos 0) (qty -ℤ min_ℤ qty t.maker.qty_rem) ≡ false))
                  t.after
                  (after_trade b taker side t.px qty t.lvl t.queue t.key t.maker t.at_best.found
                    t.popped t.stored t.live wants word h front)))
      ∙ Traded-greedy t orders at_price
      ∙ ap (greedy taker side limit qty) (
          sym (
            maker_first b taker side t.px qty t.lvl t.queue t.key t.maker t.at_best.found t.popped
              t.stored t.live wants word h front))
    where
      rest_same :
          (s : Side) (q : ℤ) (orders : List Order)
          → (by_priority s b' ≡ orders) ⊎ (ltb_ℤ (pos 0) q ≡ false)
          → greedy taker side limit q (by_priority s b') ≡ greedy taker side limit q orders
      rest_same s q orders (inl same) = ap (greedy taker side limit q) same
      rest_same s q orders (inr done) =
          greedy_done taker side limit q _ done ∙ sym (greedy_done taker side limit q orders done)

  -- Where the levels of a book fit its orders, none of 2 ^ 63 or more, and the taker wants a quantity of
  -- zero or more, a machine word: the fills of `match_taker` are those of going through the live orders of
  -- the other side, the best price first and each price in the order of its queue, and trading with each
  -- in turn, at its own price, until the price is beyond the limit or the quantity is used up.
  pub match_taker-greedy :
      (b : OrderBook) (taker : OrderId) (side : Side) (limit : Price) (qty : Qty)
      → BookFits most b
      → IsI64 qty
      → pos 0 ≤ℤ qty
      → (end : OrderBook) × (match_taker b taker side limit qty
          ≡ some (end, greedy taker side limit qty (by_priority side b)))
  match_taker-greedy b taker side limit qty h i p =
      let (end, left, fills, e, r) = match_taker-Run b taker side limit qty in
      (end, e ∙ ap (λ l. some (end, l)) (Run-greedy r h i p))

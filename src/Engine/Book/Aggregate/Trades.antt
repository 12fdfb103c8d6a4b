-- ===== src/Engine/Book/Aggregate/Trades.antt =====
-- A trade of `match_taker` in crates/engine/src/order_book.rs takes what it trades from the level of the
-- maker, and the maker out of the queue when it is used up.
use high_perf_trading.Base.{
  ℕ, ◌+◌, ◌-◌, ◌<◌, ◌^◌, ℤ, pos, pos_part, true, some, none, List, ◌∷◌, ◌≡◌, ◌≢◌, refl, ap, sym,
  ◌∙◌, subst, inl, inr, ◌⊎◌, ◌<ℤ◌, arith, min_ℤ, ==_refl, eqb_ℤ, Bool-cases, picked, passed,
  is_some, some_injective, unequal,
}
use high_perf_trading.Base.Word.{sub_i64}
use high_perf_trading.Base.HashMap
use high_perf_trading.Base.TreeMap
use high_perf_trading.Types.{OrderId, Side, Price, Qty, opposite}
use high_perf_trading.Engine.Slab.{SlabApi, Order}
use high_perf_trading.Engine.Book.{OrderBook, Level, levels}
use high_perf_trading.Engine.Book.Levels.{SameLevels}
use high_perf_trading.Engine.Book.Queues.{
  In, In-cases, live_qty, depth, depth_congr, Front, pop_live_front-Front, found_queue,
}
use high_perf_trading.Engine.Book.Aggregate.{LevelFits}
use high_perf_trading.Engine.Book.Aggregate.Books.{store, BookFits}
use high_perf_trading.Engine.Book.Aggregate.Reduced.{Shrinks, Shrinks-BookFits, sub_exact}
use high_perf_trading.Engine.Matching.{pop_live_front, settle_maker, trade}

module _ ⦃slab : SlabApi⦄ {most : ℕ} (b : OrderBook) (taker : OrderId) (side : Side) (px : Price)
    (qty : Qty) (lvl : Level) (queue : List ℕ) (key : ℕ) (maker : Order)
    (found : TreeMap.get px (levels (opposite side) b) ≡ some lvl)
    (popped : pop_live_front b.orders lvl.queue ≡ (some key, queue))
    (stored : slab.get b.orders key ≡ some maker) (live : pos 0 <ℤ maker.qty_rem)
    (wants : pos 0 <ℤ qty) (word : most < 2 ^ 63) (h : BookFits most b) where
  pub front : Front (store b) lvl.queue (key ∷ queue)
  front =
      subst (λ r. Front (store b) lvl.queue (found_queue r)) popped
        (pop_live_front-Front b.orders lvl.queue)

  pub level : LevelFits most (store b) (opposite side) px lvl
  level = h.fits.level (opposite side) px lvl found

  pub absent : (j : ℕ) → In j queue → key ≢ j
  absent j i e = (front.single level.single).0 (subst (λ x. In x queue) (sym e) i)

  unfoldable pub traded : ℤ
  traded = min_ℤ qty maker.qty_rem

  unfoldable pub spare : ℕ
  spare = pos_part maker.qty_rem - pos_part traded

  shares : (pos 0 <ℤ traded) × (spare + pos_part traded ≡ pos_part maker.qty_rem)
  unfolding traded spare
  shares = (ground arith, ground arith)

  deep : depth (store b) lvl.queue ≡ pos_part maker.qty_rem + depth (store b) queue
  deep = let here = ap live_qty stored in omega (arith, front.same_depth)

  pub left_eq : sub_i64 maker.qty_rem traded ≡ pos spare
  left_eq =
      sub_exact spare maker.qty_rem traded (whole maker.qty_rem live ∙ ap pos (sym shares.1))
        shares.0 (omega (arith, shares.1, deep, level.bounded))
    where
      whole : (q : ℤ) → pos 0 <ℤ q → q ≡ pos (pos_part q)
      whole q p = ground arith

  module _ (b' : OrderBook) (same_levels : SameLevels b b')
      (kept : (j : ℕ) → key ≢ j → store b' j ≡ store b j) where
    behind : depth (store b') queue ≡ depth (store b) queue
    behind = depth_congr (store b) (store b') queue λ j i. kept j (absent j i)

    left_out : (j : ℕ) → In j lvl.queue → In j (key ∷ queue) ⊎ (live_qty (store b' j) ≡ 0)
    left_out j i = elim (In-cases j (key ∷ queue)) [
      | inl there ↦ inl there
      | inr out ↦ elim (front.left_out j i) [
        | inl there ↦ absurd (out there)
        | inr z ↦ inr (ap live_qty (kept j (λ e. out (inl e))) ∙ z)
      ]
    ]

    total :
        (d : ℕ)
        → d + pos_part traded ≡ depth (store b) lvl.queue
        → sub_i64 lvl.total_qty traded ≡ pos d
    total d e =
        sub_exact d lvl.total_qty traded (level.total ∙ ap pos (sym e)) shares.0
          (omega (arith, level.bounded))

    pub used_total : spare ≡ 0 → sub_i64 lvl.total_qty traded ≡ pos (depth (store b') queue)
    used_total z = total _ (omega (arith, behind, deep, shares.1))

    partly_total :
        store b' key ≡ some (record maker { qty_rem = pos spare })
        → sub_i64 lvl.total_qty traded ≡ pos (depth (store b') (key ∷ queue))
    partly_total now = let here = ap live_qty now in total _ (omega (arith, behind, deep, shares.1))

    -- The maker is used up.
    used_up : store b' key ≡ none → Shrinks b b' (opposite side) px lvl key queue
    used_up gone = record {
      same_levels = same_levels;
      found = found;
      kept = kept;
      waits = front.within key (inl refl);
      within = λ j i. front.within j (inr i);
      left_out = λ j i. elim (left_out j i) [
        | inl (inl e) ↦ inr (ap (λ x. live_qty (store b' x)) (sym e) ∙ ap live_qty gone)
        | inl (inr there) ↦ inl there
        | inr dead ↦ inr dead
      ];
      at_key = λ i. absurd (absent key i refl);
      single = (front.single level.single).1;
      less = omega (arith, behind, deep);
    }

    -- Some of the maker is left.
    partly :
        store b' key ≡ some (record maker { qty_rem = pos spare })
        → Shrinks b b' (opposite side) px lvl key (key ∷ queue)
    partly now =
        let here = ap live_qty now in
        let was = level.placed key (front.within key (inl refl)) in
        let one = some_injective (sym was.stored ∙ stored) in
        record {
          same_levels = same_levels;
          found = found;
          kept = kept;
          waits = front.within key (inl refl);
          within = front.within;
          left_out = left_out;
          at_key = λ _. record {
            order = _;
            stored = now;
            on_side = sym (ap (λ o. o.side) one) ∙ was.on_side;
            at_price = sym (ap (λ o. o.price) one) ∙ was.at_price;
          };
          single = front.single level.single;
          less = omega (arith, behind, deep, shares.1);
        }

  unfoldable pub written : slab.Slab
  written = slab.put b.orders key (record maker { qty_rem = pos spare })

  now_written : slab.get written key ≡ some (record maker { qty_rem = pos spare })
  unfolding written
  now_written = slab.get-put b.orders key _ key (ap is_some stored) ∙ picked _ _ _ (==_refl key)

  still : (j : ℕ) → key ≢ j → slab.get written j ≡ store b j
  unfolding written
  still j ne = slab.get-put b.orders key _ j (ap is_some stored) ∙ passed _ _ _ (unequal key j ne)

  gone : slab.get (slab.remove written key) key ≡ none
  gone = slab.get-remove written key key (ap is_some now_written) ∙ picked _ _ _ (==_refl key)

  pub still_gone : (j : ℕ) → key ≢ j → slab.get (slab.remove written key) j ≡ store b j
  still_gone j ne =
      slab.get-remove written key j (ap is_some now_written)
      ∙ passed _ _ _ (unequal key j ne)
      ∙ still j ne

  -- The book without the maker.
  abbrev pub without : slab.Slab → OrderBook
  without s = record b { orders = slab.remove s key; index = HashMap.remove maker.order_id b.index }

  -- The levels fit the orders after the trade.
  pub traded-BookFits : BookFits most (trade b taker side px qty lvl queue key maker).1
  unfolding trade settle_maker traded written
  traded-BookFits = rw left_eq (elim (Bool-cases (eqb_ℤ (pos spare) (pos 0))) [
    | inl used ↦ rw used (
        Shrinks-BookFits (used_up _ (refl, refl) still_gone gone) h _
          (used_total (without written) (refl, refl) still_gone (none_left used)))
    | inr some_left ↦ rw some_left (
        Shrinks-BookFits (partly _ (refl, refl) still now_written) h _
          (partly_total (record b { orders = written }) (refl, refl) still now_written))
  ])
    where
      none_left : eqb_ℤ (pos spare) (pos 0) ≡ true → spare ≡ 0
      none_left e = ground arith

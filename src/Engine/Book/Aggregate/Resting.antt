-- ===== src/Engine/Book/Aggregate/Resting.antt =====
-- `insert_resting` of crates/engine/src/order_book.rs adds the order to the level of its price.
use high_perf_trading.Base.{
  ℕ, ◌+◌, ◌≤◌, ◌<◌, ◌^◌, ℤ, pos, pos_part, some, none, [], ◌∷◌, ◌++◌, ◌≡◌, ◌≢◌, refl, ap, sym, ◌∙◌,
  subst, inl, inr, ◌<ℤ◌, ◌+ℤ◌, arith, int_laws, one_part, ◌==◌, ==_iff, ==_refl, eqb_ℤ_iff,
  Bool-cases, picked, passed, unwrap_or,
}
use high_perf_trading.Base.Word.{add_i64, add_i64_lem}
use high_perf_trading.Base.HashMap
use high_perf_trading.Base.TreeMap.{TreeMap, IsSorted}
use high_perf_trading.Base.TreeMap
use high_perf_trading.Base.TreeMap.Lookup.{get-insert, unequal_keys}
use high_perf_trading.Base.TreeMap.Sorted.{insert-IsSorted}
use high_perf_trading.Engine.Slab.{SlabApi, Order}
use high_perf_trading.Engine.Book.{
  OrderBook, Level, levels, set_levels, empty_level, insert_resting,
}
use high_perf_trading.Engine.Book.Levels.{get-Elsewhere, levels-set_levels}
use high_perf_trading.Engine.Book.Queues.{
  In, In-push, push-In, pushed-In, push-Single, live_qty, depth, depth_congr, depth-push,
}
use high_perf_trading.Engine.Book.Aggregate.{Placed, Change}
use high_perf_trading.Engine.Book.Aggregate.Books.{
  store, ladder, BookFits, written-BookFits, Known, level-Known,
}

-- A sum within a word.
add_exact :
    (d : ℕ) (x q : ℤ)
    → x ≡ pos d
    → pos 0 <ℤ q
    → d + pos_part q < 2 ^ 63
    → add_i64 x q ≡ pos (d + pos_part q)
add_exact d x q e p h = rw e (
    add_i64_lem (pos d) q (omega (int_laws, h, one_part (pos d +ℤ q)))
    ∙ omega (int_laws, one_part q))

module _ ⦃slab : SlabApi⦄ {less most : ℕ} (b : OrderBook) (o : Order) (p : pos 0 <ℤ o.qty_rem)
    (room : less + pos_part o.qty_rem ≤ most) (word : most < 2 ^ 63) (h : BookFits less b) where
  key : ℕ
  key = (slab.insert b.orders o).0

  b' : OrderBook
  b' = record b {
    orders = (slab.insert b.orders o).1;
    index = HashMap.insert o.order_id key b.index;
  }

  was : Level
  was = unwrap_or (TreeMap.get o.price (levels o.side b)) empty_level

  known : Known less (store b) o.side o.price was
  unfolding was
  known = level-Known less (store b) (ladder b) o.side o.price h.fits

  stored : store b' key ≡ some o
  unfolding b' key
  stored = slab.get-insert b.orders o _ ∙ picked _ _ _ (==_refl (slab.insert b.orders o).0)

  kept : (j : ℕ) → key ≢ j → store b' j ≡ store b j
  unfolding b' key
  kept j ne = slab.get-insert b.orders o j ∙ elim (Bool-cases ((slab.insert b.orders o).0 == j)) [
    | inl same ↦ absurd (ne ((==_iff _ _).0 same))
    | inr other ↦ passed _ _ _ other
  ]

  vacant : store b key ≡ none
  unfolding key
  vacant = slab.insert_vacant b.orders o

  fresh : (j : ℕ) → In j was.queue → key ≢ j
  fresh j i e = cc (sym vacant ∙ ap (store b) e ∙ (known.placed j i).stored)

  deeper : depth (store b') (was.queue ++ key ∷ []) ≡ depth (store b) was.queue + pos_part o.qty_rem
  deeper =
      let old = depth_congr (store b) (store b') was.queue (λ j i. kept j (fresh j i)) in
      let new = depth-push (store b') key was.queue in let here = ap live_qty stored in omega arith

  level : Level
  level = record { queue = was.queue ++ key ∷ []; total_qty = add_i64 was.total_qty o.qty_rem }

  levels' : TreeMap Level
  levels' = TreeMap.insert o.price level (levels o.side b)

  level_eq : level ≡ record {
    queue = was.queue ++ key ∷ [];
    total_qty = pos (depth (store b') (was.queue ++ key ∷ []));
  }
  unfolding level
  level_eq =
      ap (λ t. record { queue = was.queue ++ key ∷ []; total_qty = t })
        (add_exact (depth (store b) was.queue) was.total_qty o.qty_rem known.total p
            (omega (arith, known.bounded))
          ∙ ap pos (sym deeper))

  found : TreeMap.get o.price (levels o.side (set_levels o.side levels' b')) ≡ some level
  unfolding levels'
  found =
      ap (TreeMap.get o.price) (levels-set_levels o.side levels' b')
      ∙ get-insert o.price level (levels o.side b) o.price (h.sorted o.side)
      ∙ picked _ _ _ ((eqb_ℤ_iff o.price o.price).1 refl)

  placed : (j : ℕ) → In j (was.queue ++ key ∷ []) → Placed (store b') o.side o.price j
  placed j i = elim (In-push j key was.queue i) [
    | inr e ↦ record {
      order = o;
      stored = ap (store b') (sym e) ∙ stored;
      on_side = refl;
      at_price = refl;
    }
    | inl k ↦
        let a = known.placed j k in
        record {
          order = a.order;
          stored = kept j (fresh j k) ∙ a.stored;
          on_side = a.on_side;
          at_price = a.at_price;
        }
  ]

  change :
      Change most
        (store b)
        (store b')
        (ladder b)
        (ladder (set_levels o.side levels' b'))
        o.side
        o.price
        was.queue
        (was.queue ++ key ∷ [])
  unfolding levels' was b'
  change = record {
    before = λ lvl e. rw e refl;
    were = known.placed;
    old = λ j i. elim (In-push j key was.queue i) [
      | inl k ↦ inl k
      | inr e ↦ inr (ap (store b) (sym e) ∙ vacant)
    ];
    same = λ j _ out.
        kept j λ e. out (subst (λ x. In x (was.queue ++ key ∷ [])) e (pushed-In key was.queue));
    live = λ j i. inl (push-In j key was.queue i);
    placed = placed;
    single = push-Single key was.queue known.single λ i. fresh key i refl;
    bounded = omega (arith, deeper, known.bounded);
    off =
        get-Elsewhere b b' o.side o.price levels' (refl, refl)
          λ x ne.
            get-insert o.price level (levels o.side b) x (h.sorted o.side)
            ∙ passed _ _ _ (unequal_keys o.price x ne);
    at = inr (found ∙ ap some level_eq, omega (arith, deeper));
  }

  -- The levels fit the orders after an order has come to rest.
  pub resting-BookFits : BookFits most (insert_resting b o)
  unfolding insert_resting levels' level was b' key
  resting-BookFits =
      written-BookFits b b' levels' (refl, refl) (insert-IsSorted o.price level _ (h.sorted o.side))
        change (omega arith) h

-- ===== src/Engine/Book/Aggregate/Reduced.antt =====
-- What takes from a level of a book of crates/engine/src/order_book.rs, and the cancellation of an order.
use high_perf_trading.Base.{
  ℕ, ◌+◌, ◌≤◌, ◌<◌, ◌^◌, ℤ, pos, pos_part, true, false, some, none, List, ◌≡◌, ◌≢◌, refl, ap, sym,
  ◌∙◌, subst, inl, inr, ◌⊎◌, ◌<ℤ◌, ◌-ℤ◌, arith, int_laws, one_part, eqb_ℤ, ◌==◌, ==_iff, ==_refl,
  eqb_ℤ_iff, leb_ℤ, Bool-cases, picked, passed, is_some, some_injective,
}
use high_perf_trading.Base.Word.{sub_i64, sub_i64_lem}
use high_perf_trading.Base.HashMap
use high_perf_trading.Base.TreeMap.{TreeMap, IsSorted}
use high_perf_trading.Base.TreeMap
use high_perf_trading.Base.TreeMap.Lookup.{get-put, get-remove, unequal_keys}
use high_perf_trading.Types.{OrderId, Side, Price, Qty}
use high_perf_trading.Engine.Slab.{SlabApi, Order}
use high_perf_trading.Engine.Book.{OrderBook, Level, levels, set_levels, reduce_level, cancel_found}
use high_perf_trading.Engine.Book.Levels.{SameLevels, get-Elsewhere, levels-set_levels}
use high_perf_trading.Engine.Book.Queues.{In, Single, live_qty, depth, depth_change}
use high_perf_trading.Engine.Book.Aggregate.{Placed, LevelFits, Change}
use high_perf_trading.Engine.Book.Aggregate.Books.{store, ladder, BookFits, written-BookFits}
use high_perf_trading.Engine.Matching.{settle_level}
use high_perf_trading.Engine.Matching.Priority.{settle_level-IsSorted}

-- A difference within a word.
pub sub_exact :
    (d : ℕ) (x q : ℤ)
    → x ≡ pos (d + pos_part q)
    → pos 0 <ℤ q
    → d + pos_part q < 2 ^ 63
    → sub_i64 x q ≡ pos d
sub_exact d x q e p h = rw e (
    sub_i64_lem (pos (d + pos_part q)) q (omega (int_laws, one_part (pos (d + pos_part q) -ℤ q)))
    ∙ omega (int_laws, one_part q))

module _ ⦃slab : SlabApi⦄ (px total : ℤ) (queue : List ℕ) (m : TreeMap Level)
    (sorted : IsSorted m) where
  -- A level whose total is used up goes; another is written.
  settle_level_at :
      (d : ℕ) (lvl : Level)
      → TreeMap.get px m ≡ some lvl
      → total ≡ pos d
      → ((TreeMap.get px (settle_level px total queue m) ≡ none) × (d ≡ 0))
        ⊎ ((TreeMap.get px (settle_level px total queue m)
              ≡ some (record { queue = queue; total_qty = pos d }))
            × (0 < d))
  unfolding settle_level
  settle_level_at d lvl e t = elim (Bool-cases (leb_ℤ total (pos 0))) [
    | inl gone ↦ inl (
      ap (TreeMap.get px) (picked _ _ _ gone) ∙ get-remove px m px sorted ∙ picked _ _ _ here,
      omega (arith, empty (subst (λ x. leb_ℤ x (pos 0) ≡ true) t gone)),
    )
    | inr left ↦ inr (
      ap (TreeMap.get px) (passed _ _ _ left)
          ∙ get-put px _ lvl m px e
          ∙ picked _ _ _ here
          ∙ ap (λ x. some (record { queue = queue; total_qty = x })) t,
      more (subst (λ x. leb_ℤ x (pos 0) ≡ false) t left),
    )
  ]
    where
      here : eqb_ℤ px px ≡ true
      here = (eqb_ℤ_iff px px).1 refl

      empty : leb_ℤ (pos d) (pos 0) ≡ true → d ≡ 0
      empty h = ground arith

      more : leb_ℤ (pos d) (pos 0) ≡ false → 0 < d
      more h = ground arith

  settle_level_off :
      (lvl : Level)
      → TreeMap.get px m ≡ some lvl
      → (p : ℤ) → p ≢ px
      → TreeMap.get p (settle_level px total queue m) ≡ TreeMap.get p m
  unfolding settle_level
  settle_level_off lvl e p ne = elim (Bool-cases (leb_ℤ total (pos 0))) [
    | inl gone ↦
        ap (TreeMap.get p) (picked _ _ _ gone)
        ∙ get-remove px m p sorted
        ∙ passed _ _ _ (unequal_keys px p ne)
    | inr left ↦
        ap (TreeMap.get p) (passed _ _ _ left)
        ∙ get-put px _ lvl m p e
        ∙ passed _ _ _ (unequal_keys px p ne)
  ]

module _ ⦃slab : SlabApi⦄ where
  -- The order under one key of a level wants less: how the store and the queue change.
  pub record Shrinks (b b' : OrderBook) (side : Side) (px : Price) (lvl : Level) (key : ℕ)
      (q' : List ℕ) : Type 0 where
    pub same_levels : SameLevels b b'
    pub found : TreeMap.get px (levels side b) ≡ some lvl
    pub kept : (j : ℕ) → key ≢ j → store b' j ≡ store b j
    pub waits : In key lvl.queue
    pub within : (j : ℕ) → In j q' → In j lvl.queue
    pub left_out : (j : ℕ) → In j lvl.queue → In j q' ⊎ (live_qty (store b' j) ≡ 0)
    pub at_key : In key q' → Placed (store b') side px key
    pub single : Single q'
    pub less : depth (store b') q' ≤ depth (store b) lvl.queue

  module _ {most : ℕ} {b b' : OrderBook} {side : Side} {px : Price} {lvl : Level} {key : ℕ}
      {q' : List ℕ} (s : Shrinks b b' side px lvl key q') (h : BookFits most b) (total : Qty)
      (exact : total ≡ pos (depth (store b') q')) where
    level : LevelFits most (store b) side px lvl
    level = h.fits.level side px lvl s.found

    placed : (j : ℕ) → In j q' → Placed (store b') side px j
    placed j i = elim (Bool-cases (key == j)) [
      | inl same ↦
          let e = (==_iff key j).0 same in
          subst (Placed (store b') side px) e (s.at_key (subst (λ x. In x q') (sym e) i))
      | inr other ↦
          let a = level.placed j (s.within j i) in
          record {
            order = a.order;
            stored = s.kept j (λ e. cc (sym other ∙ (==_iff key j).1 e)) ∙ a.stored;
            on_side = a.on_side;
            at_price = a.at_price;
          }
    ]

    levels' : TreeMap Level
    levels' = settle_level px total q' (levels side b)

    change :
        Change most
          (store b)
          (store b')
          (ladder b)
          (ladder (set_levels side levels' b'))
          side
          px
          lvl.queue
          q'
    unfolding levels'
    change = record {
      before = λ x e. ap (λ l. l.queue) (some_same (sym e ∙ s.found));
      were = level.placed;
      old = λ j i. inl (s.within j i);
      same = λ j out _. s.kept j λ e. out (subst (λ x. In x lvl.queue) e s.waits);
      live = s.left_out;
      placed = placed;
      single = s.single;
      bounded = omega (arith, s.less, level.bounded);
      off =
          get-Elsewhere b b' side px levels' s.same_levels
            (settle_level_off px total q' (levels side b) (h.sorted side) lvl s.found);
      at =
          subst
            (λ m.
              ((TreeMap.get px m ≡ none) × (depth (store b') q' ≡ 0))
              ⊎ ((TreeMap.get px m
                    ≡ some (record { queue = q'; total_qty = pos (depth (store b') q') }))
                  × (0 < depth (store b') q')))
            (sym (levels-set_levels side levels' b'))
            (settle_level_at px total q' (levels side b) (h.sorted side) (depth (store b') q') lvl
              s.found exact);
    }
      where
        some_same : {x y : Level} → some x ≡ some y → x ≡ y
        some_same e = some_injective e

    -- The levels fit the orders after the level is settled.
    pub Shrinks-BookFits :
        BookFits most (set_levels side (settle_level px total q' (levels side b)) b')
    unfolding levels'
    Shrinks-BookFits =
        written-BookFits b b' levels' s.same_levels
          (settle_level-IsSorted px total q' (levels side b) (h.sorted side)) change (omega arith) h

module _ ⦃slab : SlabApi⦄ {most : ℕ} (b : OrderBook) (order_id : OrderId) (key : ℕ) (o : Order)
    (stored : slab.get b.orders key ≡ some o) (live : pos 0 <ℤ o.qty_rem) (word : most < 2 ^ 63)
    (h : BookFits most b) where
  b' : OrderBook
  b' = record b {
    orders = slab.put b.orders key (record o { qty_rem = pos 0 });
    index = HashMap.remove order_id b.index;
  }

  dead : store b' key ≡ some (record o { qty_rem = pos 0 })
  unfolding b'
  dead = slab.get-put b.orders key _ key (ap is_some stored) ∙ picked _ _ _ (==_refl key)

  others : (j : ℕ) → key ≢ j → store b' j ≡ store b j
  unfolding b'
  others j ne = slab.get-put b.orders key _ j (ap is_some stored) ∙ elim (Bool-cases (key == j)) [
    | inl same ↦ absurd (ne ((==_iff key j).0 same))
    | inr other ↦ passed _ _ _ other
  ]

  -- The levels fit the orders after an order is cancelled.
  pub cancelled-BookFits : BookFits most (cancel_found b order_id key o)
  unfolding cancel_found b' settle_level
  cancelled-BookFits =
      let w = h.fits.queued key o stored (omega (arith, live)) in
      let level = h.fits.level o.side o.price w.lvl w.found in
      let was = ap live_qty stored in
      let now = ap live_qty dead in
      let moved = depth_change (store b) (store b') key w.lvl.queue level.single w.waits others in
      rw (w.found, reduce_level)
        (Shrinks-BookFits
          (record {
            same_levels = (refl, refl);
            found = w.found;
            kept = others;
            waits = w.waits;
            within = λ j i. i;
            left_out = λ j i. inl i;
            at_key = λ _. record { order = _; stored = dead; on_side = refl; at_price = refl };
            single = level.single;
            less = omega arith;
          })
          h (sub_i64 w.lvl.total_qty o.qty_rem)
          (sub_exact (depth (store b') w.lvl.queue) w.lvl.total_qty o.qty_rem
            (level.total ∙ ap pos (omega arith)) live (omega (arith, level.bounded))))

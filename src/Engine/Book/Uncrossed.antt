-- ===== src/Engine/Book/Uncrossed.antt =====
-- When no buyer of a book of crates/engine/src/order_book.rs would pay what a seller asks.
use high_perf_trading.Base.{
  ℤ, true, false, Option, none, some, List, ◌≡◌, ◌≢◌, refl, ap, sym, ◌∙◌, subst, ◌⊎◌, inl, inr,
  arith, ◌<ℤ◌, ◌≤ℤ◌, leb_ℤ, eqb_ℤ, Option-cases, is_some, pos, if_cases, ℕ, min_ℤ,
}
use high_perf_trading.Base.TreeMap.{TreeMap, IsSorted}
use high_perf_trading.Base.TreeMap
use high_perf_trading.Base.TreeMap.Lookup.{
  no_first, no_last, Within, remove-Within, put-Within, insert-Within,
}
use high_perf_trading.Base.TreeMap.Sorted.{
  get-Keys, first-Keys, last-Keys, insert-IsSorted, remove-IsSorted,
}
use high_perf_trading.Types.{OrderId, Side, buy, sell, Price, Qty, SymbolId, opposite}
use high_perf_trading.Engine.Slab.{SlabApi, Order}
use high_perf_trading.Engine.Book.{
  OrderBook, Level, levels, set_levels, reduce_level, insert_resting, cancel_found, would_cross,
  best_bid, best_ask, quote, at_or_below, at_or_above, new,
}
use high_perf_trading.Engine.Book.Levels.{
  SameLevels, side_cases, levels-set_levels, other_levels, set_levels-IsSorted,
}
use high_perf_trading.Base.Word.{sub_i64}
use high_perf_trading.Engine.Matching.Priority.{settle_level-IsSorted}
use high_perf_trading.Engine.Matching.{trade, settle_queue, settle_level, settle_maker, drop_level}

module _ ⦃slab : SlabApi⦄ where
  -- Orders wait at a price.
  abbrev pub HasLevel : Side → Price → OrderBook → Type 0
  HasLevel side px b = is_some (TreeMap.get px (levels side b)) ≡ true

  -- Every bid is below every ask, and the levels of both sides are in order.
  pub record Uncrossed (b : OrderBook) : Type 0 where
    pub sorted : (side : Side) → IsSorted (levels side b)
    pub apart : (bid ask : Price) → HasLevel buy bid b → HasLevel sell ask b → bid <ℤ ask

  level_of :
      (px : ℤ) (m : TreeMap Level)
      → is_some (TreeMap.get px m) ≡ true
      → (lvl : Level) × (TreeMap.get px m ≡ some lvl)
  level_of px m h = elim (Option-cases (TreeMap.get px m)) [
    | inl e ↦ cc (sym (ap is_some e) ∙ h)
    | inr found ↦ found
  ]

  -- An order that does not cross is below every ask, or above every bid.
  AwayFrom : Side → Price → Price → Type 0
  AwayFrom buy px p = px <ℤ p
  AwayFrom sell px p = p <ℤ px

  would_cross-AwayFrom :
      (b : OrderBook) (side : Side) (px p : Price)
      → IsSorted (levels (opposite side) b)
      → would_cross b side px ≡ false
      → HasLevel (opposite side) p b
      → AwayFrom side px p
  unfolding would_cross best_ask best_bid AwayFrom
  would_cross-AwayFrom b buy px p s free h = go (TreeMap.first b.asks) refl free
    where
      go :
          (r : Option (ℤ × Level))
          → TreeMap.first b.asks ≡ r
          → at_or_below px (quote r) ≡ false
          → px <ℤ p
      go none e free =
          let (lvl, found) = level_of p b.asks h in absurd (no_first b.asks p lvl e found)
      go (some (ask, lvl)) e free =
          let least =
            get-Keys (λ i. ask ≤ℤ i) p b.asks _ (level_of p b.asks h).1 (first-Keys b.asks s e) in
          ground arith
  would_cross-AwayFrom b sell px p s free h = go (TreeMap.last b.bids) refl free
    where
      go :
          (r : Option (ℤ × Level))
          → TreeMap.last b.bids ≡ r
          → at_or_above px (quote r) ≡ false
          → p <ℤ px
      go none e free =
          let (lvl, found) = level_of p b.bids h in absurd (no_last b.bids p lvl e found)
      go (some (bid, lvl)) e free =
          let most =
            get-Keys (λ i. i ≤ℤ bid) p b.bids _ (level_of p b.bids h).1 (last-Keys b.bids s e) in
          ground arith

  module _ (side : Side) (b b' : OrderBook) (m : TreeMap Level) (same : SameLevels b b')
      (sorted : IsSorted m) (u : Uncrossed b) where
    levels_written :
        (P : TreeMap Level → Type 0) (s : Side)
        → (s ≡ side → P m)
        → (s ≢ side → P (levels s b))
        → P (levels s (set_levels side m b'))
    levels_written P s here there = elim (side_cases s side) [
      | inl e ↦
          subst (λ s. P (levels s (set_levels side m b'))) (sym e)
            (rw (levels-set_levels side) (here e))
      | inr ne ↦ subst P (sym (other_levels s side m b b' same ne)) (there ne)
    ]

    -- A side with fewer prices keeps a book uncrossed.
    fewer-Uncrossed : Within m (levels side b) → Uncrossed (set_levels side m b')
    fewer-Uncrossed within = record {
      sorted = set_levels-IsSorted b b' side m same sorted u.sorted;
      apart = λ bid ask hb ha. u.apart bid ask (was buy bid hb) (was sell ask ha);
    }
      where
        was : (s : Side) (p : Price) → HasLevel s p (set_levels side m b') → HasLevel s p b
        was s p =
            levels_written (λ l. is_some (TreeMap.get p l) ≡ true → HasLevel s p b) s
              (λ e h. subst (λ s. HasLevel s p b) (sym e) (within p h)) (λ _ h. h)

    -- So does one price more that is away from the other side.
    more-Uncrossed :
        (px : Price)
        → ((p : Price) → is_some (TreeMap.get p m) ≡ true → HasLevel side p b ⊎ (p ≡ px))
        → ((p : Price) → HasLevel (opposite side) p b → AwayFrom side px p)
        → Uncrossed (set_levels side m b')
    unfolding AwayFrom
    more-Uncrossed px within away = record {
      sorted = set_levels-IsSorted b b' side m same sorted u.sorted;
      apart = λ bid ask hb ha. go bid ask (was buy bid hb) (was sell ask ha);
    }
      where
        was :
            (s : Side) (p : Price)
            → HasLevel s p (set_levels side m b')
            → HasLevel s p b ⊎ ((s ≡ side) × (p ≡ px))
        was s p =
            levels_written
              (λ l. is_some (TreeMap.get p l) ≡ true → HasLevel s p b ⊎ ((s ≡ side) × (p ≡ px))) s
              (λ e h. elim (within p h) [
                | inl old ↦ inl (subst (λ s. HasLevel s p b) (sym e) old)
                | inr fresh ↦ inr (e, fresh)
              ])
              (λ _ h. inl h)

        away_of : (s : Side) → s ≡ side → (p : Price) → HasLevel (opposite s) p b → AwayFrom s px p
        away_of s e =
            subst (λ s. (p : Price) → HasLevel (opposite s) p b → AwayFrom s px p) (sym e) away

        go :
            (bid ask : Price)
            → HasLevel buy bid b ⊎ ((buy ≡ side) × (bid ≡ px))
            → HasLevel sell ask b ⊎ ((sell ≡ side) × (ask ≡ px))
            → bid <ℤ ask
        go bid ask (inl hb) (inl ha) = u.apart bid ask hb ha
        go bid ask (inr (e, eb)) (inl ha) = subst (λ x. x <ℤ ask) (sym eb) (away_of buy e ask ha)
        go bid ask (inl hb) (inr (e, ea)) = subst (λ x. bid <ℤ x) (sym ea) (away_of sell e bid hb)
        go bid ask (inr (e, _)) (inr (e', _)) = cc (e ∙ sym e')

  settle_level-Within :
      (px total : ℤ) (queue : List ℕ) (m : TreeMap Level) (lvl : Level)
      → TreeMap.get px m ≡ some lvl
      → IsSorted m
      → Within (settle_level px total queue m) m
  unfolding settle_level
  settle_level-Within px total queue m lvl e s =
      if_cases (λ x. Within x m) (leb_ℤ total (pos 0)) (λ _. remove-Within px m s)
        (λ _. put-Within px _ lvl m e)

  settle_maker-SameLevels :
      (b : OrderBook) (key : ℕ) (maker : Order) (left : Qty)
      → SameLevels b (settle_maker b key maker left)
  unfolding settle_maker
  settle_maker-SameLevels b key maker left =
      if_cases {A = OrderBook} (SameLevels b) (eqb_ℤ left (pos 0)) (λ _. (refl, refl))
        (λ _. (refl, refl))

  pub traded-Uncrossed :
      (b : OrderBook) (taker : OrderId) (side : Side) (px : Price) (qty : Qty) (lvl : Level)
      (queue : List ℕ) (key : ℕ) (maker : Order)
      → TreeMap.get px (levels (opposite side) b) ≡ some lvl
      → Uncrossed b
      → Uncrossed (trade b taker side px qty lvl queue key maker).1
  unfolding trade
  traded-Uncrossed b taker side px qty lvl queue key maker found u =
      fewer-Uncrossed (opposite side) b (settle_maker b key maker left) _
        (settle_maker-SameLevels b key maker left)
        (settle_level-IsSorted px total kept _ (u.sorted (opposite side))) u
        (settle_level-Within px total kept _ lvl found (u.sorted (opposite side)))
    where
      left : ℤ
      left = sub_i64 maker.qty_rem (min_ℤ qty maker.qty_rem)

      total : ℤ
      total = sub_i64 lvl.total_qty (min_ℤ qty maker.qty_rem)

      kept : List ℕ
      kept = settle_queue left key queue

  pub dropped-Uncrossed :
      (b : OrderBook) (side : Side) (px : Price) → Uncrossed b → Uncrossed (drop_level b side px)
  dropped-Uncrossed b side px u =
      fewer-Uncrossed side b b _ (refl, refl) (remove-IsSorted px _ (u.sorted side)) u
        (remove-Within px _ (u.sorted side))

  pub cancelled-Uncrossed :
      (b : OrderBook) (order_id : OrderId) (key : ℕ) (o : Order)
      → Uncrossed b
      → Uncrossed (cancel_found b order_id key o)
  unfolding cancel_found settle_level
  cancelled-Uncrossed b order_id key o u =
      elim (Option-cases (TreeMap.get o.price (levels o.side b))) [
        | inl e ↦
            rw (e, reduce_level)
              (fewer-Uncrossed o.side b _ _ (refl, refl) (u.sorted o.side) u (λ _ h. h))
        | inr (lvl, e) ↦
            rw (e, reduce_level)
              (fewer-Uncrossed o.side b _ _ (refl, refl)
                (settle_level-IsSorted o.price (sub_i64 lvl.total_qty o.qty_rem) lvl.queue _
                  (u.sorted o.side))
                u
                (settle_level-Within o.price (sub_i64 lvl.total_qty o.qty_rem) lvl.queue _ lvl e
                  (u.sorted o.side)))
      ]

  pub resting-Uncrossed :
      (b : OrderBook) (o : Order)
      → would_cross b o.side o.price ≡ false
      → Uncrossed b
      → Uncrossed (insert_resting b o)
  unfolding insert_resting
  resting-Uncrossed b o free u =
      more-Uncrossed o.side b _ _ (refl, refl) (insert-IsSorted o.price _ _ (u.sorted o.side)) u
        o.price (λ p. insert-Within o.price _ _ p (u.sorted o.side))
        (λ p. would_cross-AwayFrom b o.side o.price p (u.sorted (opposite o.side)) free)

  none_at : (symbol_id : SymbolId) (side : Side) (px : Price) → ¬ HasLevel side px (new symbol_id)
  unfolding new TreeMap.get
  none_at symbol_id buy px h = cc h
  none_at symbol_id sell px h = cc h

  empty-IsSorted : (symbol_id : SymbolId) (side : Side) → IsSorted (levels side (new symbol_id))
  unfolding new
  empty-IsSorted symbol_id buy = tt
  empty-IsSorted symbol_id sell = tt

  pub new-Uncrossed : (symbol_id : SymbolId) → Uncrossed (new symbol_id)
  new-Uncrossed symbol_id = record {
    sorted = empty-IsSorted symbol_id;
    apart = λ bid ask h _. absurd (none_at symbol_id buy bid h);
  }

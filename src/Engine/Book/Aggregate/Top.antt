-- ===== src/Engine/Book/Aggregate/Top.antt =====
-- What `best_bid` and `best_ask` of crates/engine/src/order_book.rs say of the orders.
use high_perf_trading.Base.{
  ℕ, ◌<◌, ℤ, pos, Option, none, some, List, ◌≡◌, refl, ap, sym, ◌∙◌, subst, ◌≤ℤ◌, some_injective,
}
use high_perf_trading.Base.TreeMap.{TreeMap, IsSorted}
use high_perf_trading.Base.TreeMap
use high_perf_trading.Base.TreeMap.Lookup.{first_found, last_found, no_first, no_last}
use high_perf_trading.Base.TreeMap.Sorted.{get-Keys, first-Keys, last-Keys}
use high_perf_trading.Types.{Side, buy, sell, Price, Qty}
use high_perf_trading.Engine.Slab.{SlabApi, Order}
use high_perf_trading.Engine.Book.{OrderBook, Level, levels, best_bid, best_ask, quote}
use high_perf_trading.Engine.Book.Queues.{In, Single, live_qty, depth}
use high_perf_trading.Engine.Book.Aggregate.{Placed}
use high_perf_trading.Engine.Book.Aggregate.Books.{store, ladder, BookFits}

module _ ⦃slab : SlabApi⦄ where
  abbrev pub best : Side → OrderBook → Option (Price × Qty)
  best buy b = best_bid b
  best sell b = best_ask b

  -- The first price is at least as good for those who trade with a side as the second.
  abbrev pub AtLeast : Side → Price → Price → Type 0
  AtLeast buy p q = q ≤ℤ p
  AtLeast sell p q = p ≤ℤ q

  -- A live order of a side.
  pub record LiveOn (b : OrderBook) (side : Side) (key : ℕ) (o : Order) : Type 0 where
    pub stored : slab.get b.orders key ≡ some o
    pub on_side : o.side ≡ side
    pub live : 0 < live_qty (some o)

  -- No live order of the side has a better price, those at the price are the ones in a queue and their
  -- quantities together, more than zero, are the one quoted.
  pub record Leads (b : OrderBook) (side : Side) (px : Price) (qty : Qty) : Type 0 where
    pub queue : List ℕ
    pub single : Single queue
    pub placed : (key : ℕ) → In key queue → Placed (store b) side px key
    pub ahead : (key : ℕ) (o : Order) → LiveOn b side key o → AtLeast side px o.price
    pub complete : (key : ℕ) (o : Order) → LiveOn b side key o → o.price ≡ px → In key queue
    pub total : qty ≡ pos (depth (store b) queue)
    pub positive : 0 < depth (store b) queue

  -- What a quote says of a side.
  abbrev pub Quotes : OrderBook → Side → Option (Price × Qty) → Type 0
  Quotes b side none = (key : ℕ) (o : Order) → ¬ LiveOn b side key o
  Quotes b side (some (px, qty)) = Leads b side px qty

  module _ {most : ℕ} (b : OrderBook) (h : BookFits most b) where
    waiting :
        (side : Side) (key : ℕ) (o : Order)
        → LiveOn b side key o
        → (lvl : Level) × (TreeMap.get o.price (levels side b) ≡ some lvl) × In key lvl.queue
    waiting side key o l =
        let w = h.fits.queued key o l.stored l.live in
        (
          w.lvl,
          subst (λ s. TreeMap.get o.price (levels s b) ≡ some w.lvl) l.on_side w.found,
          w.waits,
        )

    leads :
        (side : Side) (px : Price) (lvl : Level)
        → TreeMap.get px (levels side b) ≡ some lvl
        → ((p : Price) (l : Level) → TreeMap.get p (levels side b) ≡ some l → AtLeast side px p)
        → Leads b side px lvl.total_qty
    leads side px lvl found ahead =
        let f = h.fits.level side px lvl found in
        record {
          queue = lvl.queue;
          single = f.single;
          placed = f.placed;
          ahead = λ key o l. let (x, e, i) = waiting side key o l in ahead o.price x e;
          complete = λ key o l same.
              let (x, e, i) = waiting side key o l in
              subst (λ y. In key y.queue) (some_injective (sym e ∙ ap (ladder b side) same ∙ found))
                i;
          total = f.total;
          positive = f.positive;
        }

    bid-Quotes : (r : Option (ℤ × Level)) → TreeMap.last b.bids ≡ r → Quotes b buy (quote r)
    bid-Quotes none e =
        λ key o l. let (x, found, i) = waiting buy key o l in no_last b.bids o.price x e found
    bid-Quotes (some (px, lvl)) e =
        leads buy px lvl (last_found b.bids px lvl (h.sorted buy) e)
          λ p l found. get-Keys (λ i. i ≤ℤ px) p b.bids l found (last-Keys b.bids (h.sorted buy) e)

    ask-Quotes : (r : Option (ℤ × Level)) → TreeMap.first b.asks ≡ r → Quotes b sell (quote r)
    ask-Quotes none e =
        λ key o l. let (x, found, i) = waiting sell key o l in no_first b.asks o.price x e found
    ask-Quotes (some (px, lvl)) e =
        leads sell px lvl (first_found b.asks px lvl e) λ p l found.
          get-Keys (λ i. px ≤ℤ i) p b.asks l found (first-Keys b.asks (h.sorted sell) e)

    -- Where the levels of a book fit its orders: a side that quotes nothing has no live order; otherwise
    -- its best price is the best among its live orders, and the quantity quoted is, above zero, the sum of
    -- what the live orders at that price want, each counted once.
    pub best-Quotes : (side : Side) → Quotes b side (best side b)
    unfolding best_bid best_ask
    best-Quotes buy = bid-Quotes (TreeMap.last b.bids) refl
    best-Quotes sell = ask-Quotes (TreeMap.first b.asks) refl

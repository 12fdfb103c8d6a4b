-- ===== src/Engine/Book/Aggregate/Books.antt =====
-- A book of crates/engine/src/order_book.rs whose levels summarise its orders.
use high_perf_trading.Base.{
  ℕ, ◌≤◌, pos, none, List, ◌≡◌, refl, subst, sym, Option-cases, unwrap_or, inl, inr, ◌∙◌, arith,
}
use high_perf_trading.Base.TreeMap.{TreeMap, IsSorted}
use high_perf_trading.Base.TreeMap
use high_perf_trading.Types.{Side, Price, buy, sell, SymbolId}
use high_perf_trading.Engine.Slab.{SlabApi}
use high_perf_trading.Engine.Book.{OrderBook, Level, levels, set_levels, empty_level, new}
use high_perf_trading.Engine.Book.Levels.{SameLevels, set_levels-IsSorted, orders-set_levels}
use high_perf_trading.Engine.Book.Queues.{In, Single, Store, depth}
use high_perf_trading.Engine.Book.Aggregate.{Ladder, Placed, Fits, Change, Change-Fits}

module _ ⦃slab : SlabApi⦄ where
  abbrev pub store : OrderBook → Store
  store b = slab.get b.orders

  abbrev pub ladder : OrderBook → Ladder
  ladder b = λ side px. TreeMap.get px (levels side b)

  -- The levels of both sides are in order, and fit the orders.
  pub record BookFits (most : ℕ) (b : OrderBook) : Type 0 where
    pub sorted : (side : Side) → IsSorted (levels side b)
    pub fits : Fits most (store b) (ladder b)

  -- A book with one level written anew.
  pub written-BookFits :
      {most less : ℕ} {side : Side} {px : Price} {q q' : List ℕ} (b b' : OrderBook)
      (m : TreeMap Level)
      → SameLevels b b'
      → IsSorted m
      → Change most (store b) (store b') (ladder b) (ladder (set_levels side m b')) side px q q'
      → less ≤ most
      → BookFits less b
      → BookFits most (set_levels side m b')
  written-BookFits {most = most} {side = side} b b' m e sorted c le h = record {
    sorted = set_levels-IsSorted b b' side m e sorted h.sorted;
    fits =
        subst (λ s. Fits most (slab.get s) (ladder (set_levels side m b')))
          (sym (orders-set_levels side m b')) (Change-Fits c h.fits le);
  }

  pub BookFits-le :
      (b : OrderBook) (less most : ℕ) → less ≤ most → BookFits less b → BookFits most b
  BookFits-le b less most le h = record {
    sorted = h.sorted;
    fits = record {
      level = λ side px lvl e.
          let f = h.fits.level side px lvl e in
          record {
            placed = f.placed;
            single = f.single;
            total = f.total;
            positive = f.positive;
            bounded = omega (arith, f.bounded);
          };
      queued = h.fits.queued;
    };
  }

  empty-IsSorted : (symbol_id : SymbolId) (side : Side) → IsSorted (levels side (new symbol_id))
  unfolding new
  empty-IsSorted symbol_id buy = tt
  empty-IsSorted symbol_id sell = tt

  no_level :
      (symbol_id : SymbolId) (side : Side) (px : Price) → ladder (new symbol_id) side px ≡ none
  unfolding new TreeMap.get
  no_level symbol_id buy px = refl
  no_level symbol_id sell px = refl

  -- A new book has no level and no order.
  pub new-BookFits : (symbol_id : SymbolId) → BookFits 0 (new symbol_id)
  unfolding new
  new-BookFits symbol_id = record {
    sorted = empty-IsSorted symbol_id;
    fits = record {
      level = λ side px lvl e. cc (sym (no_level symbol_id side px) ∙ e);
      queued = λ key o e p. cc (sym (slab.get-new key) ∙ e);
    };
  }

-- What is known of the queue and the total of a level that may be missing.
pub record Known (most : ℕ) (g : Store) (side : Side) (px : Price) (lvl : Level) : Type 0 where
  pub placed : (key : ℕ) → In key lvl.queue → Placed g side px key
  pub single : Single lvl.queue
  pub total : lvl.total_qty ≡ pos (depth g lvl.queue)
  pub bounded : depth g lvl.queue ≤ most

pub level-Known :
    (most : ℕ) (g : Store) (l : Ladder) (side : Side) (px : Price)
    → Fits most g l
    → Known most g side px (unwrap_or (l side px) empty_level)
level-Known most g l side px h = elim (Option-cases (l side px)) [
  | inl e ↦
      rw e (record { placed = λ key i. absurd i; single = tt; total = refl; bounded = omega arith })
  | inr (lvl, e) ↦
      let f = h.level side px lvl e in
      rw e (record { placed = f.placed; single = f.single; total = f.total; bounded = f.bounded })
]

-- ===== src/Engine/Core/Consistent.antt =====
-- What every command of crates/engine/src/engine.rs keeps of the book: its index, its quantities, its symbol.
use high_perf_trading.Base.{
  ℕ, ◌^◌, ℤ, pos, true, none, some, ◌≡◌, refl, ap, sym, ◌∙◌, subst, min_ℤ, eqb_ℤ, arith, ◌==◌,
  ==_refl, inl, inr, Bool-cases, is_some, Holds, some_injective, picked, passed, List, if_cases,
}
use high_perf_trading.Base.Word.{IsI64, sub_i64, wrap-IsI64}
use high_perf_trading.Base.HashMap.{HashMap}
use high_perf_trading.Base.HashMap
use high_perf_trading.Base.TreeMap.{TreeMap}
use high_perf_trading.Types.{OrderId, SymbolId, Side, buy, sell, Price, Qty, opposite, Command}
use high_perf_trading.Engine.Slab.{SlabApi, Order}
use high_perf_trading.Engine.Book.{OrderBook, Level, set_levels, insert_resting, cancel_found, new}
use high_perf_trading.Engine.Book.Levels.{orders-set_levels}
use high_perf_trading.Engine.Matching.{trade, settle_maker}
use high_perf_trading.Engine.State.{Engine}
use high_perf_trading.Engine.Core.{process}
use high_perf_trading.Engine.Core.Books.{Preserved, HasWord, HasWord-AtMost, process_keeps}
use high_perf_trading.Engine.Core.Index.{
  Indexed, owned_parts, set_levels-Indexed, resting-Indexed, cancelled-Indexed,
}
use high_perf_trading.Engine.Core.Index.Trades.{traded-Indexed}

module _ ⦃slab : SlabApi⦄ where
  -- Every quantity in the slab is a machine word.
  abbrev pub Words : slab.Slab → Type 0
  Words s = (key : ℕ) (o : Order) → slab.get s key ≡ some o → IsI64 o.qty_rem

  insert-Words : (s : slab.Slab) (o : Order) → IsI64 o.qty_rem → Words s → Words (slab.insert s o).1
  insert-Words s o i h key x e = elim (Bool-cases ((slab.insert s o).0 == key)) [
    | inl same ↦
        subst (λ y. IsI64 y.qty_rem)
          (some_injective (sym (picked _ _ _ same) ∙ sym (slab.get-insert s o key) ∙ e)) i
    | inr other ↦ h key x (sym (passed _ _ _ other) ∙ sym (slab.get-insert s o key) ∙ e)
  ]

  put-Words :
      (s : slab.Slab) (j : ℕ) (o : Order)
      → is_some (slab.get s j) ≡ true
      → IsI64 o.qty_rem
      → Words s
      → Words (slab.put s j o)
  put-Words s j o there i h key x e = elim (Bool-cases (j == key)) [
    | inl same ↦
        subst (λ y. IsI64 y.qty_rem)
          (some_injective (sym (picked _ _ _ same) ∙ sym (slab.get-put s j o key there) ∙ e)) i
    | inr other ↦ h key x (sym (passed _ _ _ other) ∙ sym (slab.get-put s j o key there) ∙ e)
  ]

  remove-Words :
      (s : slab.Slab) (j : ℕ) → is_some (slab.get s j) ≡ true → Words s → Words (slab.remove s j)
  remove-Words s j there h key x e = elim (Bool-cases (j == key)) [
    | inl same ↦ cc (
        sym (picked (j == key) none (slab.get s key) same)
        ∙ sym (slab.get-remove s j key there)
        ∙ e)
    | inr other ↦ h key x (sym (passed _ _ _ other) ∙ sym (slab.get-remove s j key there) ∙ e)
  ]

  traded-Words :
      (b : OrderBook) (key : ℕ) (maker : Order) (left : ℤ)
      → slab.get b.orders key ≡ some maker
      → IsI64 left
      → Words b.orders
      → Words (settle_maker b key maker left).orders
  unfolding settle_maker
  traded-Words b key maker left stored i h =
      if_cases {A = OrderBook} (λ x. Words x.orders) (eqb_ℤ left (pos 0))
        (λ _. remove-Words written key present (put-Words b.orders key _ there i h))
        (λ _. put-Words b.orders key _ there i h)
    where
      written : slab.Slab
      written = slab.put b.orders key (record maker { qty_rem = left })

      there : is_some (slab.get b.orders key) ≡ true
      there = ap is_some stored

      present : is_some (slab.get written key) ≡ true
      present =
          ap is_some (slab.get-put b.orders key _ key there ∙ picked (key == key) _ _ (==_refl key))

  -- The index and the quantities of a book.
  abbrev pub Consistent : OrderBook → Type 0
  Consistent b = Words b.orders × Indexed b

  pub Consistent-Preserved : (most : ℕ) → Preserved most Consistent Consistent
  unfolding insert_resting cancel_found trade sub_i64
  Consistent-Preserved most = record {
    weaken = λ b h. h;
    resting = λ b o i p _ _ (w, h). (
      subst Words (sym (orders-set_levels o.side _ _)) (insert-Words b.orders o i w),
      resting-Indexed b o p h,
    );
    cancelled = λ b order_id account_id key o found (w, h). (
      subst Words (sym (orders-set_levels o.side _ _)) (
          put-Words b.orders key _ (ap is_some (owned_parts b order_id account_id key o found).1)
            (ground arith) w),
      cancelled-Indexed b order_id account_id key o found h,
    );
    dropped = λ b side px _ _ _ (w, h).
        (subst Words (sym (orders-set_levels side _ b)) w, set_levels-Indexed side _ b h);
    traded = λ b taker side px qty lvl queue key maker _ _ stored live wants (w, h). (
      subst Words (sym (orders-set_levels (opposite side) _ _))
          (traded-Words b key maker _ stored (wrap-IsI64 _) w),
      traded-Indexed b taker side px qty lvl queue key maker stored (w key maker stored) live wants
          h,
    );
  }

  -- If the quantity of a command is a machine word, each quantity of the slab is one, and each entry of
  -- the index leads to a stored order of that number with a positive quantity, then this holds after the
  -- command too.
  pub process-Consistent :
      (e : Engine) (cmd : Command)
      → HasWord cmd
      → Consistent e.book
      → Holds (λ (evs, e'). Consistent e'.book) (process e cmd)
  process-Consistent e cmd i h =
      process_keeps (Consistent-Preserved (2 ^ 63)) e cmd i (HasWord-AtMost cmd i) h

  pub new-Consistent : (symbol_id : SymbolId) → Consistent (new symbol_id)
  unfolding new HashMap.get
  new-Consistent symbol_id = (λ key o e. cc (sym (slab.get-new key) ∙ e), λ order_id key e. cc e)

  symbol-set_levels :
      (side : Side) (m : TreeMap Level) (b : OrderBook)
      → (set_levels side m b).symbol_id ≡ b.symbol_id
  symbol-set_levels buy m b = refl
  symbol-set_levels sell m b = refl

  symbol-settle_maker :
      (b : OrderBook) (key : ℕ) (maker : Order) (left : ℤ)
      → (settle_maker b key maker left).symbol_id ≡ b.symbol_id
  unfolding settle_maker
  symbol-settle_maker b key maker left =
      if_cases {A = OrderBook} (λ x. x.symbol_id ≡ b.symbol_id) (eqb_ℤ left (pos 0)) (λ _. refl)
        (λ _. refl)

  symbol-trade :
      (b : OrderBook) (taker : OrderId) (side : Side) (px : Price) (qty : Qty) (lvl : Level)
      (queue : List ℕ) (key : ℕ) (maker : Order)
      → (trade b taker side px qty lvl queue key maker).1.symbol_id ≡ b.symbol_id
  unfolding trade
  symbol-trade b taker side px qty lvl queue key maker =
      symbol-set_levels (opposite side) _ (settle_maker b key maker left)
      ∙ symbol-settle_maker b key maker left
    where
      left : ℤ
      left = sub_i64 maker.qty_rem (min_ℤ qty maker.qty_rem)

  symbol-Preserved :
      (s : SymbolId) → Preserved (2 ^ 63) (λ b. b.symbol_id ≡ s) (λ b. b.symbol_id ≡ s)
  unfolding insert_resting cancel_found
  symbol-Preserved s = record {
    weaken = λ b h. h;
    resting = λ b o _ _ _ _ h. symbol-set_levels o.side _ _ ∙ h;
    cancelled = λ b order_id account_id key o _ h. symbol-set_levels o.side _ _ ∙ h;
    dropped = λ b side px _ _ _ h. symbol-set_levels side _ b ∙ h;
    traded = λ b taker side px qty lvl queue key maker _ _ _ _ _ h.
        symbol-trade b taker side px qty lvl queue key maker ∙ h;
  }

  -- Every command keeps the symbol of the book.
  pub process-symbol :
      (e : Engine) (cmd : Command)
      → HasWord cmd
      → Holds (λ (evs, e'). e'.book.symbol_id ≡ e.book.symbol_id) (process e cmd)
  process-symbol e cmd i =
      process_keeps (symbol-Preserved e.book.symbol_id) e cmd i (HasWord-AtMost cmd i) refl

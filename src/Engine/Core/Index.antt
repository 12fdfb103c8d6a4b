-- ===== src/Engine/Core/Index.antt =====
-- The index of the order book of crates/engine/src/order_book.rs: every entry leads to a live order.
pub mod Trades
use high_perf_trading.Base.{
  ℕ, ℤ, pos, true, false, Option, none, some, ◌≡◌, ◌≢◌, refl, ap, sym, ◌∙◌, subst, ◌<ℤ◌, ◌≤ℤ◌, ◌-ℤ◌,
  pos_part, neg_part, -ℤ_parts, one_part, min_ℤ, eqb_ℤ, arith, ◌==◌, ==_refl, ==_iff, if◌then◌else◌,
  inl, inr, Bool-cases, is_some, ◌>>=◌, List, if_cases, some_injective, picked, passed,
}
use high_perf_trading.Base.Word.{IsI64, sub_i64, sub_i64_within}
use high_perf_trading.Base.HashMap.{HashMap}
use high_perf_trading.Base.HashMap
use high_perf_trading.Base.TreeMap.{TreeMap}
use high_perf_trading.Types.{OrderId, AccountId, Side, buy, sell, Price, Qty, opposite}
use high_perf_trading.Engine.Slab.{SlabApi, Order}
use high_perf_trading.Engine.Book.{
  OrderBook, Level, set_levels, insert_resting, cancel_found, find_owned,
}
use high_perf_trading.Engine.Matching.{trade, settle_maker}

module _ ⦃slab : SlabApi⦄ where
  -- What an entry of the index leads to.
  pub record Live (b : OrderBook) (order_id : OrderId) (key : ℕ) : Type 0 where
    pub order : Order
    pub stored : slab.get b.orders key ≡ some order
    pub named : order.order_id ≡ order_id
    pub positive : pos 0 <ℤ order.qty_rem

  abbrev pub Indexed : OrderBook → Type 0
  Indexed b =
      (order_id : OrderId) (key : ℕ) → HashMap.get order_id b.index ≡ some key → Live b order_id key

  pub set_levels-Indexed :
      (side : Side) (m : TreeMap Level) (b : OrderBook) → Indexed b → Indexed (set_levels side m b)
  set_levels-Indexed buy m b h id key e =
      let l = h id key e in
      record { order = l.order; stored = l.stored; named = l.named; positive = l.positive }
  set_levels-Indexed sell m b h id key e =
      let l = h id key e in
      record { order = l.order; stored = l.stored; named = l.named; positive = l.positive }

  -- An entry that was there leads to the same order where the slab has not changed under its key.
  pub carry :
      (b b' : OrderBook) (id : OrderId) (key : ℕ)
      → Live b id key
      → slab.get b'.orders key ≡ slab.get b.orders key
      → Live b' id key
  carry b b' id key l e = record {
    order = l.order;
    stored = e ∙ l.stored;
    named = l.named;
    positive = l.positive;
  }

  -- Entries of different orders lead to different keys.
  pub keys_differ :
      (b : OrderBook) (id : OrderId) (key : ℕ) (o : Order) (j : ℕ)
      → Live b id key
      → slab.get b.orders j ≡ some o
      → o.order_id ≢ id
      → (j == key) ≡ false
  keys_differ b id key o j l stored ne = elim (Bool-cases (j == key)) [
    | inr other ↦ other
    | inl same ↦ absurd (
        ne (
          ap (λ o. o.order_id)
            (some_injective
              (sym stored ∙ ap (slab.get b.orders) ((==_iff j key).0 same) ∙ l.stored))
          ∙ l.named))
  ]

  unequal : (a b : ℕ) → (a == b) ≡ false → a ≢ b
  unequal a b h = ground arith

  pub resting-Indexed :
      (b : OrderBook) (o : Order) → pos 0 <ℤ o.qty_rem → Indexed b → Indexed (insert_resting b o)
  unfolding insert_resting
  resting-Indexed b o p h = set_levels-Indexed o.side _ b' (λ id key e.
      elim (Bool-cases (o.order_id == id)) [
        | inl same ↦
            let here =
              some_injective (sym (picked (o.order_id == id) _ _ same) ∙ sym (entry id) ∙ e) in
            record {
              order = o;
              stored =
                  slab.get-insert b.orders o key
                  ∙ picked (new_key == key) _ _ ((==_iff new_key key).1 here);
              named = (==_iff o.order_id id).0 same;
              positive = p;
            }
        | inr other ↦
            let l = h id key (sym (passed (o.order_id == id) _ _ other) ∙ sym (entry id) ∙ e) in
            carry b b' id key l (
              slab.get-insert b.orders o key
              ∙ passed (new_key == key) _ _ (fresh key l.order l.stored))
      ])
    where
      new_key : ℕ
      new_key = (slab.insert b.orders o).0

      b' : OrderBook
      b' = record b {
        orders = (slab.insert b.orders o).1;
        index = HashMap.insert o.order_id new_key b.index;
      }

      entry :
          (id : OrderId)
          → HashMap.get id b'.index
            ≡ (if o.order_id == id then some new_key else HashMap.get id b.index)
      entry id = HashMap.get-insert o.order_id id new_key b.index

      fresh : (key : ℕ) (x : Order) → slab.get b.orders key ≡ some x → (new_key == key) ≡ false
      fresh key x stored = elim (Bool-cases (new_key == key)) [
        | inr other ↦ other
        | inl same ↦ cc (
            sym (slab.insert_vacant b.orders o)
            ∙ ap (slab.get b.orders) ((==_iff new_key key).0 same)
            ∙ stored)
      ]

  abbrev owned_by : AccountId → ℕ → Order → Option (ℕ × Order)
  owned_by account_id key ord = if ord.account_id == account_id then some (key, ord) else none

  -- What the checks of `cancel` find is what the index and the slab have.
  pub owned_parts :
      (b : OrderBook) (order_id : OrderId) (account_id : AccountId) (key : ℕ) (o : Order)
      → find_owned b order_id account_id ≡ some (key, o)
      → (HashMap.get order_id b.index ≡ some key) × (slab.get b.orders key ≡ some o)
  unfolding find_owned
  owned_parts b order_id account_id key o = at_key (HashMap.get order_id b.index)
    where
      at_order :
          (k : ℕ) (x : Option Order)
          → (x >>= owned_by account_id k) ≡ some (key, o)
          → (some k ≡ some key) × (x ≡ some o)
      at_order k none e = cc
      at_order k (some ord) e = elim (Bool-cases (ord.account_id == account_id)) [
        | inl mine ↦
            let same = some_injective (sym (picked _ _ _ mine) ∙ e) in
            (ap (λ r. some r.0) same, ap (λ r. some r.1) same)
        | inr other ↦
            cc (sym (passed (ord.account_id == account_id) (some (k, ord)) none other) ∙ e)
      ]

      at_key :
          (x : Option ℕ)
          → (x >>= λ k. slab.get b.orders k >>= owned_by account_id k) ≡ some (key, o)
          → (x ≡ some key) × (slab.get b.orders key ≡ some o)
      at_key none e = cc
      at_key (some k) e =
          let (same, stored) = at_order k (slab.get b.orders k) e in
          (same, subst (λ j. slab.get b.orders j ≡ some o) (some_injective same) stored)

  -- An entry left by a removal was there before it, under another order.
  pub kept_entry :
      (gone id : OrderId) (key : ℕ) (index : HashMap ℕ)
      → HashMap.get id (HashMap.remove gone index) ≡ some key
      → (gone ≢ id) × (HashMap.get id index ≡ some key)
  kept_entry gone id key index e = elim (Bool-cases (gone == id)) [
    | inl same ↦ cc (
        sym (picked (gone == id) none (HashMap.get id index) same)
        ∙ sym (HashMap.get-remove gone id index)
        ∙ e)
    | inr other ↦ (
      unequal gone id other,
      sym (passed (gone == id) none (HashMap.get id index) other)
          ∙ sym (HashMap.get-remove gone id index)
          ∙ e,
    )
  ]

  pub cancelled-Indexed :
      (b : OrderBook) (order_id : OrderId) (account_id : AccountId) (key : ℕ) (o : Order)
      → find_owned b order_id account_id ≡ some (key, o)
      → Indexed b
      → Indexed (cancel_found b order_id key o)
  unfolding cancel_found
  cancelled-Indexed b order_id account_id key o found h = set_levels-Indexed o.side _ b' λ id k e.
      let (other, entry) = kept_entry order_id id k b.index e in
      let l = h id k entry in
      let (was, stored) = owned_parts b order_id account_id key o found in
      let here = h order_id key was in
      carry b b' id k l (
        slab.get-put b.orders key (record o { qty_rem = pos 0 }) k (rw stored refl)
        ∙ passed (key == k) _ _ (
            keys_differ b id k o key l stored λ same. other (
              sym here.named
              ∙ ap (λ x. x.order_id) (some_injective (sym here.stored ∙ stored))
              ∙ same)))
    where
      b' : OrderBook
      b' = record b {
        orders = slab.put b.orders key (record o { qty_rem = pos 0 });
        index = HashMap.remove order_id b.index;
      }

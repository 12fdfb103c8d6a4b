-- ===== src/Engine/Core/Index/Trades.antt =====
-- The index of the order book of crates/engine/src/order_book.rs after a trade.
use high_perf_trading.Base.{
  ℕ, ℤ, pos, true, false, some, ◌≡◌, refl, ap, sym, ◌∙◌, ◌<ℤ◌, ◌≤ℤ◌, ◌-ℤ◌, pos_part, neg_part,
  -ℤ_parts, one_part, min_ℤ, eqb_ℤ, arith, ◌==◌, ==_refl, ==_iff, inl, inr, Bool-cases, is_some,
  List, if_cases, some_injective, picked, passed,
}
use high_perf_trading.Base.Word.{IsI64, sub_i64, sub_i64_within}
use high_perf_trading.Base.HashMap.{HashMap}
use high_perf_trading.Base.HashMap
use high_perf_trading.Types.{OrderId, Side, Price, Qty, opposite}
use high_perf_trading.Engine.Slab.{SlabApi, Order}
use high_perf_trading.Engine.Book.{OrderBook, Level}
use high_perf_trading.Engine.Matching.{trade, settle_maker}
use high_perf_trading.Engine.Core.Index.{
  Indexed, carry, keys_differ, kept_entry, set_levels-Indexed,
}

positive_difference :
    (m t d : ℤ) → IsI64 m → pos 0 ≤ℤ t → t ≤ℤ m → d ≡ m -ℤ t → eqb_ℤ d (pos 0) ≡ false → pos 0 <ℤ d
positive_difference m t d i p w e ne =
    let pe = ap pos_part e in
    let qe = ap neg_part e in
    let parts = -ℤ_parts m t in let one = one_part (m -ℤ t) in ground arith

-- What a trade leaves of a maker is positive, unless it leaves nothing.
left_positive :
    (q m : ℤ)
    → IsI64 m
    → pos 0 <ℤ m
    → pos 0 <ℤ q
    → eqb_ℤ (sub_i64 m (min_ℤ q m)) (pos 0) ≡ false
    → pos 0 <ℤ sub_i64 m (min_ℤ q m)
left_positive q m i p w ne =
    positive_difference m (min_ℤ q m) _ i (ground arith) (ground arith)
      (sub_i64_within m (min_ℤ q m) i (ground arith) (ground arith)) ne

module _ ⦃slab : SlabApi⦄ where
  written-Indexed :
      (b : OrderBook) (key : ℕ) (maker : Order) (left : ℤ)
      → slab.get b.orders key ≡ some maker
      → pos 0 <ℤ left
      → Indexed b
      → Indexed (record b { orders = slab.put b.orders key (record maker { qty_rem = left }) })
  written-Indexed b key maker left stored p h id k e =
      let l = h id k e in
      let law = slab.get-put b.orders key (record maker { qty_rem = left }) k (rw stored refl) in
      elim (Bool-cases (key == k)) [
        | inr other ↦ carry b _ id k l (law ∙ passed (key == k) _ _ other)
        | inl same ↦ record {
          order = record maker { qty_rem = left };
          stored = law ∙ picked (key == k) _ _ same;
          named =
              ap (λ x. x.order_id)
                (some_injective
                  (sym stored ∙ ap (slab.get b.orders) ((==_iff key k).0 same) ∙ l.stored))
              ∙ l.named;
          positive = p;
        }
      ]

  removed-Indexed :
      (b : OrderBook) (key : ℕ) (maker written : Order)
      → slab.get b.orders key ≡ some maker
      → Indexed b
      → Indexed (record b {
        orders = slab.remove (slab.put b.orders key written) key;
        index = HashMap.remove maker.order_id b.index;
      })
  removed-Indexed b key maker written stored h id k e =
      let (other, entry) = kept_entry maker.order_id id k b.index e in
      let l = h id k entry in
      let apart = keys_differ b id k maker key l stored other in
      carry b _ id k l (
        slab.get-remove (slab.put b.orders key written) key k present
        ∙ passed (key == k) _ _ apart
        ∙ slab.get-put b.orders key written k (rw stored refl)
        ∙ passed (key == k) _ _ apart)
    where
      present : is_some (slab.get (slab.put b.orders key written) key) ≡ true
      present = ap is_some (
          slab.get-put b.orders key written key (rw stored refl)
          ∙ picked (key == key) _ _ (==_refl key))

  pub traded-Indexed :
      (b : OrderBook) (taker : OrderId) (side : Side) (px : Price) (qty : Qty) (lvl : Level)
      (queue : List ℕ) (key : ℕ) (maker : Order)
      → slab.get b.orders key ≡ some maker
      → IsI64 maker.qty_rem
      → pos 0 <ℤ maker.qty_rem
      → pos 0 <ℤ qty
      → Indexed b
      → Indexed (trade b taker side px qty lvl queue key maker).1
  unfolding trade settle_maker
  traded-Indexed b taker side px qty lvl queue key maker stored word live wants h =
      set_levels-Indexed (opposite side) _ _ (
        if_cases Indexed (eqb_ℤ left (pos 0))
          (λ _. removed-Indexed b key maker (record maker { qty_rem = left }) stored h)
          (λ some_left.
            written-Indexed b key maker left stored
              (left_positive qty maker.qty_rem word live wants some_left) h))
    where
      left : ℤ
      left = sub_i64 maker.qty_rem (min_ℤ qty maker.qty_rem)

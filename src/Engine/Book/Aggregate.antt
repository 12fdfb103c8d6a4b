-- ===== src/Engine/Book/Aggregate.antt =====
-- The price levels of crates/engine/src/order_book.rs as a summary of the orders: what each level says of
-- its queue, and which orders the queues hold.
pub mod Books
pub mod Resting
pub mod Reduced
pub mod Trades
pub mod Top
use high_perf_trading.Base.{
  ℕ, ◌+◌, ◌≤◌, ◌<◌, ℤ, pos, pos_part, true, false, Option, none, some, List, ◌≡◌, ◌≢◌, refl, ap,
  sym, ◌∙◌, subst, ◌⊎◌, inl, inr, arith, eqb_ℤ, eqb_ℤ_iff, some_injective, Bool-cases,
}
use high_perf_trading.Types.{Side, buy, sell, Price}
use high_perf_trading.Engine.Slab.{Order}
use high_perf_trading.Engine.Book.{Level}
use high_perf_trading.Engine.Book.Levels.{side_cases, Elsewhere}
use high_perf_trading.Engine.Book.Queues.{
  In, In-cases, Single, Store, live_qty, depth, depth_congr, live_qty-depth,
}

abbrev pub Ladder : Type 0
Ladder = Side → Price → Option Level

-- A key under which an order of a side and a price is stored.
pub record Placed (g : Store) (side : Side) (px : Price) (key : ℕ) : Type 0 where
  pub order : Order
  pub stored : g key ≡ some order
  pub on_side : order.side ≡ side
  pub at_price : order.price ≡ px

-- What holds of a level: its queue holds keys of stored orders of its side and price, none twice; its
-- total is what they want together, which is positive and at most `most`.
pub record LevelFits (most : ℕ) (g : Store) (side : Side) (px : Price) (lvl : Level) : Type 0 where
  pub placed : (key : ℕ) → In key lvl.queue → Placed g side px key
  pub single : Single lvl.queue
  pub total : lvl.total_qty ≡ pos (depth g lvl.queue)
  pub positive : 0 < depth g lvl.queue
  pub bounded : depth g lvl.queue ≤ most

-- An order that waits in the queue of the level of its side and price.
pub record Queued (l : Ladder) (key : ℕ) (o : Order) : Type 0 where
  pub lvl : Level
  pub found : l o.side o.price ≡ some lvl
  pub waits : In key lvl.queue

pub record Fits (most : ℕ) (g : Store) (l : Ladder) : Type 0 where
  pub level :
      (side : Side) (px : Price) (lvl : Level) → l side px ≡ some lvl → LevelFits most g side px lvl
  pub queued : (key : ℕ) (o : Order) → g key ≡ some o → 0 < live_qty (some o) → Queued l key o

price_cases : (p px : Price) → (p ≡ px) ⊎ (p ≢ px)
price_cases p px = elim (Bool-cases (eqb_ℤ p px)) [
  | inl e ↦ inl ((eqb_ℤ_iff p px).0 e)
  | inr e ↦ inr λ same. cc (sym e ∙ (eqb_ℤ_iff p px).1 same)
]

pub place_cases :
    (s : Side) (p : Price) (side : Side) (px : Price)
    → ((s ≡ side) × (p ≡ px)) ⊎ Elsewhere s p side px
place_cases s p side px = elim (side_cases s side) [
  | inr other ↦ inr (inl other)
  | inl same ↦ elim (price_cases p px) [ inl e ↦ inl (same, e) | inr other ↦ inr (inr other) ]
]

-- A change of one level and of the orders on its queue: from the queue `q` to the queue `q'`.
pub record Change (most : ℕ) (g h : Store) (l m : Ladder) (side : Side) (px : Price) (q q' : List ℕ)
    : Type 0 where
  pub before : (lvl : Level) → l side px ≡ some lvl → lvl.queue ≡ q
  pub were : (j : ℕ) → In j q → Placed g side px j
  pub old : (j : ℕ) → In j q' → In j q ⊎ (g j ≡ none)
  pub same : (j : ℕ) → ¬ In j q → ¬ In j q' → h j ≡ g j
  pub live : (j : ℕ) → In j q → In j q' ⊎ (live_qty (h j) ≡ 0)
  pub placed : (j : ℕ) → In j q' → Placed h side px j
  pub single : Single q'
  pub bounded : depth h q' ≤ most
  pub off : (s : Side) (p : Price) → Elsewhere s p side px → m s p ≡ l s p
  pub at :
      ((m side px ≡ none) × (depth h q' ≡ 0))
      ⊎ ((m side px ≡ some (record { queue = q'; total_qty = pos (depth h q') }))
          × (0 < depth h q'))

module _ {most less : ℕ} {g h : Store} {l m : Ladder} {side : Side} {px : Price} {q q' : List ℕ}
    (c : Change most g h l m side px q q') (fits : Fits less g l) where
  apart :
      {s : Side} {p : Price} {j : ℕ} → Elsewhere s p side px → Placed g s p j → ¬ Placed g side px j
  apart {s} {p} other a b = elim other [
    | inl ne ↦ ne (sym a.on_side ∙ ap (λ o. o.side) one ∙ b.on_side)
    | inr ne ↦ ne (sym a.at_price ∙ ap (λ o. o.price) one ∙ b.at_price)
  ]
    where
      one : a.order ≡ b.order
      one = some_injective (sym a.stored ∙ b.stored)

  -- The orders of another level are as they were.
  unchanged : {s : Side} {p : Price} {j : ℕ} → Elsewhere s p side px → Placed g s p j → h j ≡ g j
  unchanged {j = j} other a =
      c.same j not_before
        λ i. elim (c.old j i) [ inl was ↦ not_before was | inr gone ↦ cc (sym gone ∙ a.stored) ]
    where
      not_before : ¬ In j q
      not_before i = apart other a (c.were j i)

  level_off :
      (s : Side) (p : Price) (lvl : Level)
      → less ≤ most
      → Elsewhere s p side px
      → LevelFits less g s p lvl
      → LevelFits most h s p lvl
  level_off s p lvl le other f = record {
    placed = λ j i.
        let a = f.placed j i in
        record {
          order = a.order;
          stored = unchanged other a ∙ a.stored;
          on_side = a.on_side;
          at_price = a.at_price;
        };
    single = f.single;
    total = f.total ∙ ap pos (sym same_depth);
    positive = subst (λ d. 0 < d) (sym same_depth) f.positive;
    bounded = omega (arith, same_depth, f.bounded);
  }
    where
      same_depth : depth h lvl.queue ≡ depth g lvl.queue
      same_depth = depth_congr g h lvl.queue λ j i. unchanged other (f.placed j i)

  level_at : (lvl : Level) → m side px ≡ some lvl → LevelFits most h side px lvl
  level_at lvl e = elim c.at [
    | inl (gone, _) ↦ cc (sym gone ∙ e)
    | inr (here, p) ↦ subst (LevelFits most h side px) (some_injective (sym here ∙ e)) (record {
      placed = c.placed;
      single = c.single;
      total = refl;
      positive = p;
      bounded = c.bounded;
    })
  ]

  queued_at :
      (j : ℕ)
      → In j q'
      → 0 < live_qty (h j)
      → (lvl : Level) × (m side px ≡ some lvl) × In j lvl.queue
  queued_at j i p = elim c.at [
    | inl (_, z) ↦ absurd (omega (arith, live_qty-depth h j q' i))
    | inr (here, _) ↦ (_, here, i)
  ]

  off-Queued : (j : ℕ) (o : Order) → h j ≡ some o → 0 < live_qty (some o) → ¬ In j q' → Queued m j o
  off-Queued j o e p out =
      let w = fits.queued j o (sym (c.same j not_before out) ∙ e) p in
      elim (place_cases o.side o.price side px) [
        | inr other ↦ record {
          lvl = w.lvl;
          found = c.off o.side o.price other ∙ w.found;
          waits = w.waits;
        }
        | inl (es, ep) ↦ absurd (
            not_before (
              subst (In j)
                (c.before w.lvl (sym (ap (λ s. l s o.price) es ∙ ap (l side) ep) ∙ w.found))
                w.waits))
      ]
    where
      not_before : ¬ In j q
      not_before i = elim (c.live j i) [
        | inl k ↦ out k
        | inr z ↦ absurd (omega (arith, ap live_qty e))
      ]

  -- A book fits after such a change.
  pub Change-Fits : less ≤ most → Fits most h m
  Change-Fits le = record {
    level = λ s p lvl e. elim (place_cases s p side px) [
      | inr other ↦ level_off s p lvl le other (fits.level s p lvl (sym (c.off s p other) ∙ e))
      | inl (es, ep) ↦
          subst (λ s. LevelFits most h s p lvl) (sym es)
            (subst (λ p. LevelFits most h side p lvl) (sym ep)
              (level_at lvl (sym (ap (λ s. m s p) es ∙ ap (m side) ep) ∙ e)))
    ];
    queued = λ j o e p. elim (In-cases j q') [
      | inr out ↦ off-Queued j o e p out
      | inl i ↦
          let a = c.placed j i in
          let one = some_injective (sym a.stored ∙ e) in
          let (lvl, found, waits) = queued_at j i (subst (λ x. 0 < live_qty x) (sym e) p) in
          record {
            lvl = lvl;
            found =
                ap (λ s. m s o.price) (sym (ap (λ o. o.side) one) ∙ a.on_side)
                ∙ ap (m side) (sym (ap (λ o. o.price) one) ∙ a.at_price)
                ∙ found;
            waits = waits;
          }
    ];
  }

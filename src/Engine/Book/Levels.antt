-- ===== src/Engine/Book/Levels.antt =====
-- Writing one side of the levels of a book.
use high_perf_trading.Base.{◌≡◌, ◌≢◌, refl, ap, ◌∙◌, subst, sym, inl, inr, ◌⊎◌}
use high_perf_trading.Base.TreeMap.{TreeMap, IsSorted}
use high_perf_trading.Base.TreeMap
use high_perf_trading.Types.{Side, buy, sell, Price}
use high_perf_trading.Engine.Slab.{SlabApi}
use high_perf_trading.Engine.Book.{OrderBook, Level, levels, set_levels}

pub side_cases : (s side : Side) → (s ≡ side) ⊎ (s ≢ side)
side_cases buy buy = inl refl
side_cases buy sell = inr λ e. cc e
side_cases sell buy = inr λ e. cc e
side_cases sell sell = inl refl

-- Another side, or another price.
abbrev pub Elsewhere : Side → Price → Side → Price → Type 0
Elsewhere s p side px = (s ≢ side) ⊎ (p ≢ px)

module _ ⦃slab : SlabApi⦄ where
  pub levels-set_levels :
      (side : Side) (m : TreeMap Level) (b : OrderBook) → levels side (set_levels side m b) ≡ m
  levels-set_levels buy m b = refl
  levels-set_levels sell m b = refl

  pub orders-set_levels :
      (side : Side) (m : TreeMap Level) (b : OrderBook) → (set_levels side m b).orders ≡ b.orders
  orders-set_levels buy m b = refl
  orders-set_levels sell m b = refl

  -- A book with the levels of another.
  abbrev pub SameLevels : OrderBook → OrderBook → Type 0
  SameLevels b b' = (b'.bids ≡ b.bids) × (b'.asks ≡ b.asks)

  pub other_levels :
      (s side : Side) (m : TreeMap Level) (b b' : OrderBook)
      → SameLevels b b'
      → s ≢ side
      → levels s (set_levels side m b') ≡ levels s b
  other_levels buy buy m b b' e ne = absurd (ne refl)
  other_levels buy sell m b b' (eb, ea) ne = eb
  other_levels sell buy m b b' (eb, ea) ne = ea
  other_levels sell sell m b b' e ne = absurd (ne refl)

  -- Where the written levels differ at one price only, nothing else changes.
  pub get-Elsewhere :
      (b b' : OrderBook) (side : Side) (px : Price) (m : TreeMap Level)
      → SameLevels b b'
      → ((p : Price) → p ≢ px → TreeMap.get p m ≡ TreeMap.get p (levels side b))
      → (s : Side) (p : Price) → Elsewhere s p side px
      → TreeMap.get p (levels s (set_levels side m b')) ≡ TreeMap.get p (levels s b)
  get-Elsewhere b b' side px m e keys s p other = elim (side_cases s side) [
    | inr ne ↦ ap (TreeMap.get p) (other_levels s side m b b' e ne)
    | inl same ↦ elim other [
      | inl ne ↦ absurd (ne same)
      | inr ne ↦
          subst (λ s. TreeMap.get p (levels s (set_levels side m b')) ≡ TreeMap.get p (levels s b))
            (sym same) (ap (TreeMap.get p) (levels-set_levels side m b') ∙ keys p ne)
    ]
  ]

  pub set_levels-IsSorted :
      (b b' : OrderBook) (side : Side) (m : TreeMap Level)
      → SameLevels b b'
      → IsSorted m
      → ((s : Side) → IsSorted (levels s b))
      → (s : Side) → IsSorted (levels s (set_levels side m b'))
  set_levels-IsSorted b b' side m e sorted all s = elim (side_cases s side) [
    | inr ne ↦ subst IsSorted (sym (other_levels s side m b b' e ne)) (all s)
    | inl same ↦
        subst (λ s. IsSorted (levels s (set_levels side m b'))) (sym same)
          (subst IsSorted (sym (levels-set_levels side m b')) sorted)
  ]

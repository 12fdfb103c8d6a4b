-- ===== src/Engine/Matching/Run.antt =====
-- What the loop of `match_taker` may do, as a relation: stop, drop a level whose queue is dead, or trade
-- with the first live maker of the best level. The loop follows it, and never panics or runs dry.
use high_perf_trading.Base.{
  ℕ, ◌<◌, ℤ, pos, Bool, true, false, ◌&&◌, Option, none, some, List, [], ◌∷◌, length, ltb_ℤ, ◌>>=◌,
  ◌≡◌, refl, ap, inl, inr, arith, Option-cases, Bool-cases, ◌<ℤ◌, not,
}
use high_perf_trading.Base.Word.{sub_i64}
use high_perf_trading.Base.TreeMap.{TreeMap}
use high_perf_trading.Base.TreeMap
use high_perf_trading.Types.{OrderId, Side, buy, sell, Price, Qty, opposite}
use high_perf_trading.Engine.Slab.{SlabApi, Order}
use high_perf_trading.Engine.Book.{OrderBook, Level, levels, would_cross}
use high_perf_trading.Engine.Matching.{
  MatchFill, beyond, pop_live_front, best_px, key_of, trade, drop_level, Round, finished, dropped,
  traded, match_level, match_round,
}

module _ ⦃slab : SlabApi⦄ where
  -- What comes off a queue is live in the slab, and shortens the queue.
  abbrev pub Popped : slab.Slab → List ℕ → Option ℕ × List ℕ → Type 0
  Popped orders queue (none, rest) = Unit
  Popped orders queue (some k, rest) =
      (o : Order) × (slab.get orders k ≡ some o)
      × (pos 0 <ℤ o.qty_rem)
      × (length rest < length queue)

  Popped-cons :
      (orders : slab.Slab) (k : ℕ) (queue : List ℕ) (r : Option ℕ × List ℕ)
      → Popped orders queue r
      → Popped orders (k ∷ queue) r
  Popped-cons orders k queue (none, rest) h = tt
  Popped-cons orders k queue (some j, rest) (o, e, l, s) = (o, e, l, omega arith)

  pub pop_live_front-Popped :
      (orders : slab.Slab) (queue : List ℕ) → Popped orders queue (pop_live_front orders queue)
  unfolding pop_live_front
  pop_live_front-Popped orders [] = tt
  pop_live_front-Popped orders (k ∷ queue) = elim (Option-cases (slab.get orders k)) [
    | inl e ↦
        rw (e, pop_live_front) (Popped-cons orders k queue _ (pop_live_front-Popped orders queue))
    | inr (o, e) ↦ elim (Bool-cases (ltb_ℤ (pos 0) o.qty_rem)) [
      | inl live ↦ rw (e, pop_live_front) (rw live (o, e, ground arith, omega arith))
      | inr dead ↦
          rw (e, pop_live_front)
            (rw dead (Popped-cons orders k queue _ (pop_live_front-Popped orders queue)))
    ]
  ]

  -- The loop ends where this is false.
  abbrev pub goes_on : OrderBook → Side → Price → Qty → Bool
  goes_on b side limit qty = ltb_ℤ (pos 0) qty && would_cross b side limit

  pub would_cross-best_px :
      (b : OrderBook) (side : Side) (limit px : Price)
      → best_px side b ≡ some px
      → would_cross b side limit ≡ not (beyond side px limit)
  unfolding would_cross best_px
  would_cross-best_px b buy limit px e = ground arith
  would_cross-best_px b sell limit px e = ground arith

  pub would_cross_empty :
      (b : OrderBook) (side : Side) (limit : Price)
      → best_px side b ≡ none
      → would_cross b side limit ≡ false
  unfolding would_cross best_px
  would_cross_empty b buy limit e = ground arith
  would_cross_empty b sell limit e = ground arith

  pub key_of-eq_some :
      (r : Option (ℤ × Level)) {px : Price}
      → key_of r ≡ some px
      → (lvl : Level) × (r ≡ some (px, lvl))
  key_of-eq_some none e = cc
  key_of-eq_some (some (p, lvl)) e = (lvl, ground arith)

  -- The level that the source expects is there.
  pub get-best_px :
      (b : OrderBook) (side : Side) (px : Price)
      → best_px side b ≡ some px
      → (lvl : Level) × (TreeMap.get px (levels (opposite side) b) ≡ some lvl)
  unfolding best_px
  get-best_px b buy px e = TreeMap.get-first b.asks (key_of-eq_some _ e).1
  get-best_px b sell px e = TreeMap.get-last b.bids (key_of-eq_some _ e).1

  -- A level at the best price, within the limit of a taker that wants more.
  pub record AtBest (b : OrderBook) (side : Side) (limit : Price) (qty : Qty) (px : Price)
      (lvl : Level) : Type 0 where
    pub best : best_px side b ≡ some px
    pub found : TreeMap.get px (levels (opposite side) b) ≡ some lvl
    pub within : beyond side px limit ≡ false
    pub wants : ltb_ℤ (pos 0) qty ≡ true

  pub record Dropped (b : OrderBook) (side : Side) (limit : Price) (qty : Qty) (b' : OrderBook)
      : Type 0 where
    pub px : Price
    pub lvl : Level
    pub at_best : AtBest b side limit qty px lvl
    pub dead : (pop_live_front b.orders lvl.queue).0 ≡ none
    pub after : b' ≡ drop_level b (opposite side) px

  pub record Traded (b : OrderBook) (taker : OrderId) (side : Side) (limit : Price) (qty : Qty)
      (f : MatchFill) (b' : OrderBook) : Type 0 where
    pub px : Price
    pub lvl : Level
    pub key : ℕ
    pub queue : List ℕ
    pub maker : Order
    pub at_best : AtBest b side limit qty px lvl
    pub popped : pop_live_front b.orders lvl.queue ≡ (some key, queue)
    pub shorter : length queue < length lvl.queue
    pub stored : slab.get b.orders key ≡ some maker
    pub live : pos 0 <ℤ maker.qty_rem
    pub after : trade b taker side px qty lvl queue key maker ≡ (f, b')

  pub data Run (taker : OrderId) (side : Side) (limit : Price) (end : OrderBook) (left : Qty)
      : OrderBook → Qty → List MatchFill → Type 0 where
    stop :
        {b : OrderBook} {qty : Qty} {fills : List MatchFill}
        → b ≡ end
        → qty ≡ left
        → fills ≡ []
        → goes_on b side limit qty ≡ false
        → Run taker side limit end left b qty fills
    skip :
        {b b' : OrderBook} {qty : Qty} {fills : List MatchFill}
        → Dropped b side limit qty b'
        → Run taker side limit end left b' qty fills
        → Run taker side limit end left b qty fills
    hit :
        {b b' : OrderBook} {qty : Qty} {f : MatchFill} {all fills : List MatchFill}
        → Traded b taker side limit qty f b'
        → all ≡ f ∷ fills
        → Run taker side limit end left b' (sub_i64 qty f.qty) fills
        → Run taker side limit end left b qty all

  -- What a round may be.
  abbrev pub Follows : OrderBook → OrderId → Side → Price → Qty → Option Round → Type 0
  Follows b taker side limit qty none = ⊥
  Follows b taker side limit qty (some finished) = goes_on b side limit qty ≡ false
  Follows b taker side limit qty (some (dropped b')) = Dropped b side limit qty b'
  Follows b taker side limit qty (some (traded f b')) = Traded b taker side limit qty f b'

  match_level-Follows :
      (b : OrderBook) (taker : OrderId) (side : Side) (limit px : Price) (qty : Qty) (lvl : Level)
      (r : Option ℕ × List ℕ)
      → AtBest b side limit qty px lvl
      → pop_live_front b.orders lvl.queue ≡ r
      → Popped b.orders lvl.queue r
      → Follows b taker side limit qty (match_level b taker side px qty lvl r)
  unfolding match_level
  match_level-Follows b taker side limit px qty lvl (none, queue) best e h = record {
    px = px;
    lvl = lvl;
    at_best = best;
    dead = ap (λ r. r.0) e;
    after = refl;
  }
  match_level-Follows b taker side limit px qty lvl (some key, queue) best e
        (maker, found, live, s) =
      rw (found, match_level)
        (record {
          px = px;
          lvl = lvl;
          key = key;
          queue = queue;
          maker = maker;
          at_best = best;
          popped = e;
          shorter = s;
          stored = found;
          live = live;
          after = refl;
        })

  -- A round stops, drops a dead level or trades; it does not panic.
  pub match_round-Follows :
      (b : OrderBook) (taker : OrderId) (side : Side) (limit : Price) (qty : Qty)
      → Follows b taker side limit qty (match_round b taker side limit qty)
  unfolding match_round
  match_round-Follows b taker side limit qty = elim (Bool-cases (ltb_ℤ (pos 0) qty)) [
    | inr full ↦ rw full (rw full refl)
    | inl wants ↦ rw wants (elim (Option-cases (best_px side b)) [
      | inl e ↦ rw (e, match_round) (rw (wants, would_cross_empty b side limit e) refl)
      | inr (px, e) ↦ elim (Bool-cases (beyond side px limit)) [
        | inl far ↦
            rw (e, match_round)
              (rw far (rw (wants, would_cross-best_px b side limit px e, far) refl))
        | inr near ↦
            let (lvl, found) = get-best_px b side px e in
            rw (e, match_round)
              (rw (near, found, ◌>>=◌)
                (match_level-Follows b taker side limit px qty lvl _
                  (record { best = e; found = found; within = near; wants = wants }) refl
                  (pop_live_front-Popped b.orders lvl.queue)))
      ]
    ])
  ]

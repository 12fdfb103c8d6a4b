-- ===== src/Engine/Core/Orders.antt =====
-- What becomes of an order in crates/engine/src/engine.rs, and how a command is answered.
use high_perf_trading.Base.{
  ℕ, false, some, List, [], ◌∷◌, ◌≡◌, refl, ap, sym, ◌∙◌, ◌⊎◌, inl, inr, arith, Holds, Holds-bind,
  Holds-any,
}
use high_perf_trading.Types.{
  NewOrder, Event, ack, reject, fill, book_top, OrderId, opposite, is_gtc, Command, new_order,
  cancel, replace, set_risk_limits, query_account, authenticate,
}
use high_perf_trading.Types
use high_perf_trading.Engine.Slab.{SlabApi}
use high_perf_trading.Engine.Matching.{MatchFill, match_taker}
use high_perf_trading.Engine.State.{Engine, Step, conclude, settle_fill, settle_fills, reject_event}
use high_perf_trading.Engine.Accounts.{apply_fill}
use high_perf_trading.Engine.Core.{
  handle_crossing, handle_passive, handle_new, refuse, rest_remainder,
}
use high_perf_trading.Engine.Core.Cases.{handle_new_cases}

module _ ⦃slab : SlabApi⦄ where
  abbrev Keeps : Engine → Event × Engine → Type 0
  Keeps e (ev, e') = e'.book ≡ e.book

  abbrev pub KeepsBook : Engine → Step → Type 0
  KeepsBook e (evs, e') = e'.book ≡ e.book

  settle_fill-Keeps :
      (e : Engine) (order : NewOrder) (f : MatchFill) → Holds (Keeps e) (settle_fill e order f)
  unfolding settle_fill
  settle_fill-Keeps e order f =
      Holds-bind (λ _. Unit {0}) (Keeps e)
        (apply_fill e.account_manager order.account_id order.side f.price f.qty) _
        (Holds-any _ _ (λ _. tt))
        λ taken _ _.
          Holds-bind (λ _. Unit {0}) (Keeps e)
            (apply_fill taken f.maker_account_id (opposite order.side) f.price f.qty) _
            (Holds-any _ _ (λ _. tt)) λ settled _ _. refl

  pub settle_fills-KeepsBook :
      (fills : List MatchFill) (e : Engine) (order : NewOrder)
      → Holds (KeepsBook e) (settle_fills e order fills)
  unfolding settle_fills
  settle_fills-KeepsBook [] e order = refl
  settle_fills-KeepsBook (f ∷ fills) e order =
      Holds-bind (Keeps e) (KeepsBook e) (settle_fill e order f) _ (settle_fill-Keeps e order f)
        λ (ev, e') _ first.
          Holds-bind (KeepsBook e') (KeepsBook e) (settle_fills e' order fills) _
            (settle_fills-KeepsBook fills e' order) λ (evs, e'') _ later. later ∙ first

  -- The book is as it was, or as matching the order left it.
  abbrev pub NeverRests : Engine → NewOrder → Step → Type 0
  NeverRests e order (evs, e') =
      (e'.book ≡ e.book)
      ⊎ ((fills : List MatchFill) × (match_taker e.book order.order_id order.side order.price
              order.qty
            ≡ some (e'.book, fills)))

  rest_remainder_ioc :
      (e : Engine) (order : NewOrder) (fills : List MatchFill)
      → is_gtc order.tif ≡ false
      → rest_remainder e order fills ≡ e
  unfolding rest_remainder
  rest_remainder_ioc e order fills h = ground arith

  pub conclude-book :
      (e : Engine) (client_seq : ℕ) (order_id : OrderId)
      → (conclude e client_seq order_id).1.book ≡ e.book
  unfolding conclude
  conclude-book e client_seq order_id = refl

  handle_crossing-NeverRests :
      (e : Engine) (order : NewOrder)
      → is_gtc order.tif ≡ false
      → Holds (NeverRests e order) (handle_crossing e order)
  unfolding handle_crossing
  handle_crossing-NeverRests e order h =
      Holds-bind (λ _. Unit {0}) (NeverRests e order)
        (match_taker e.book order.order_id order.side order.price order.qty) _
        (Holds-any _ _ (λ _. tt))
        λ (book, fills) matched _.
          Holds-bind (KeepsBook (record e { book = book })) (NeverRests e order)
            (settle_fills (record e { book = book }) order fills) _
            (settle_fills-KeepsBook fills (record e { book = book }) order)
            λ (evs, e') _ kept. inr (
              fills,
              matched
                  ∙ ap (λ b. some (b, fills))
                      (sym (
                        conclude-book (rest_remainder e' order fills) order.client_seq
                          order.order_id
                        ∙ ap (λ e. e.book) (rest_remainder_ioc e' order fills h)
                        ∙ kept)),
            )

  handle_passive-NeverRests :
      (e : Engine) (order : NewOrder)
      → is_gtc order.tif ≡ false
      → NeverRests e order (handle_passive e order)
  unfolding handle_passive
  handle_passive-NeverRests e order h = rw h (inl (conclude-book e order.client_seq order.order_id))

  pub refuse-book :
      (e : Engine) (order : NewOrder) (reason : Types.RejectReason)
      → (refuse e order.client_seq order.order_id reason).1.book ≡ e.book
  unfolding reject_event
  refuse-book e order reason = refl

  -- An immediate-or-cancel order that does not panic never rests: the book is as it was, or as `match_taker`
  -- returned it for the order.
  pub handle_new-NeverRests :
      (e : Engine) (order : NewOrder)
      → is_gtc order.tif ≡ false
      → Holds (NeverRests e order) (handle_new e order)
  handle_new-NeverRests e order h =
      handle_new_cases (Holds (NeverRests e order)) e order
        (λ reason. inl (refuse-book e order reason)) (λ _ _. handle_crossing-NeverRests e order h)
        (λ _ _. handle_passive-NeverRests e order h)

-- ===== src/Gateway/Pending/Named.antt =====
-- The shared table of orders of crates/gateway_server/src/client_handler.rs: each order is under the number
-- that its reservation names.
use high_perf_trading.Base.{
  ℕ, Bool, Option, none, some, ◌≡◌, refl, sym, ap, ◌∙◌, if◌then◌else◌, inl, inr, ◌==◌, ==_iff,
  Bool-cases, some_injective, picked, passed,
}
use high_perf_trading.Base.HashMap.{HashMap}
use high_perf_trading.Base.HashMap
use high_perf_trading.Types.{
  OrderId, Command, new_order, cancel, replace, set_risk_limits, query_account, authenticate,
}
use high_perf_trading.Gateway.Accounts.{ReservationToken}
use high_perf_trading.Gateway.Pending.{
  Local, OrderMetadata, PendingOperation, mark_globally, marked_globally, track, tracked_replace,
}

-- Every entry's token names the order that the entry is for.
abbrev pub Named : HashMap OrderMetadata → Type 0
Named pending =
    (id : OrderId) (metadata : OrderMetadata)
    → HashMap.get id pending ≡ some metadata
    → metadata.reservation_token.order_id ≡ id

pub insert-Named :
    (id : OrderId) (metadata : OrderMetadata) (pending : HashMap OrderMetadata)
    → metadata.reservation_token.order_id ≡ id
    → Named pending
    → Named (HashMap.insert id metadata pending)
insert-Named id metadata pending e h other x found = elim (Bool-cases (id == other)) [
  | inl same ↦
      ap (λ y. y.reservation_token.order_id)
        (some_injective (sym found ∙ law ∙ picked (id == other) _ _ same))
      ∙ e
      ∙ (==_iff id other).0 same
  | inr differ ↦ h other x (sym (passed (id == other) _ _ differ) ∙ sym law ∙ found)
]
  where
    law :
        HashMap.get other (HashMap.insert id metadata pending)
        ≡ (if id == other then some metadata else HashMap.get other pending)
    law = HashMap.get-insert id other metadata pending

pub mark_globally-Named :
    (op : PendingOperation) (id : OrderId) (pending : HashMap OrderMetadata)
    → Named pending
    → Named (mark_globally op id pending)
unfolding mark_globally
mark_globally-Named op id pending h = go (HashMap.get id pending) refl
  where
    go :
        (m : Option OrderMetadata)
        → HashMap.get id pending ≡ m
        → Named (marked_globally op id pending m)
    go none e = h
    go (some metadata) e =
        insert-Named id (record metadata { operation = op }) pending (h id metadata e) h

-- The number of the order that a command is for, which its token must name.
abbrev pub NamedBy : Command → ReservationToken → Type 0
NamedBy (new_order o) token = token.order_id ≡ o.order_id
NamedBy (replace r) token = token.order_id ≡ r.order_id
NamedBy _ token = Unit

pub track-Named :
    (conn_id : ℕ) (token : ReservationToken) (cmd : Command) (local : Local)
    (pending : HashMap OrderMetadata)
    → NamedBy cmd token
    → Named pending
    → Named (track conn_id token cmd local pending).1
unfolding track
track-Named conn_id token (new_order o) local pending e h = insert-Named o.order_id _ pending e h
track-Named conn_id token (replace r) local pending e h = go (HashMap.get r.order_id local)
  where
    go :
        (l : Option (ReservationToken × Bool × PendingOperation))
        → Named (tracked_replace conn_id r.order_id token local pending l).1
    go none = h
    go (some (t, buys, op)) = insert-Named r.order_id _ pending e h
track-Named conn_id token (cancel c) local pending e h = h
track-Named conn_id token (set_risk_limits s) local pending e h = h
track-Named conn_id token (query_account q) local pending e h = h
track-Named conn_id token (authenticate a) local pending e h = h

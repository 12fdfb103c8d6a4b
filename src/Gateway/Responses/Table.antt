-- ===== src/Gateway/Responses/Table.antt =====
-- What the messages of an engine, in crates/gateway_server/src/client_handler.rs, leave of the shared table.
use high_perf_trading.Base.{
  ℕ, Bool, true, false, Option, none, some, List, ◌≡◌, ◌≢◌, refl, ap, ◌∙◌, if_cases, ◌==◌, ◌||◌,
  ◌&&◌, if◌then◌else◌, Bool-cases, inl, inr, arith,
}
use high_perf_trading.Base.HashMap.{HashMap}
use high_perf_trading.Base.HashMap
use high_perf_trading.Types.{Command, OrderId, Event, fill, ack, reject}
use high_perf_trading.Types
use high_perf_trading.Protocol.{
  EngineToGateway, to_client, pong, to_market, all_orders, engine_ready,
}
use high_perf_trading.Gateway.DashMap.{DashMapApi}
use high_perf_trading.Gateway.Accounts.{AccountState}
use high_perf_trading.Gateway.Clients.{Gateway}
use high_perf_trading.Gateway.Pending.{OrderMetadata, PendingOperation, active, cancel_pending}
use high_perf_trading.Gateway.Responses.{
  ClientSenders, Delivery, deliver, delivered, fill_order, release_order, handle_fill, acked,
  acked_operation, rejected, rejected_order, settle, handle_event, respond, deliver_to_maker,
}

abbrev pub is_cancel : PendingOperation → Bool
is_cancel active = false
is_cancel cancel_pending = true

abbrev pub waits_for_cancel : Option OrderMetadata → Bool
waits_for_cancel none = false
waits_for_cancel (some metadata) = is_cancel metadata.operation

abbrev pub names : Option OrderId → OrderId → Bool
names none k = false
names (some id) k = id == k

-- Whether an event ends an order: a fill ends its maker and its taker, a reject the order that it names, and
-- an ack its order if that waits for its cancel.
abbrev pub ends : HashMap OrderMetadata → Event → OrderId → Bool
ends pending (fill f) k = (f.taker_order_id == k) || (f.maker_order_id == k)
ends pending (ack a) k = (a.order_id == k) && waits_for_cancel (HashMap.get k pending)
ends pending (reject r) k = names r.order_id k
ends pending _ k = false

abbrev pub ended : HashMap OrderMetadata → EngineToGateway → OrderId → Bool
ended pending (to_client conn_id ev token) k = ends pending ev k
ended pending _ k = false

module _ ⦃dash : DashMapApi AccountState⦄ where
  -- Delivering an event changes no account and no table.
  pub manager-deliver :
      (clients : ClientSenders) (g : Gateway) (conn_id : ℕ) (ev : Event)
      → ((deliver clients g conn_id ev).0.account_manager ≡ g.account_manager)
        × ((deliver clients g conn_id ev).0.pending_orders ≡ g.pending_orders)
  unfolding deliver
  manager-deliver clients g conn_id ev = go (HashMap.get conn_id clients)
    where
      go :
          (c : Option (Event → Bool))
          → ((delivered g conn_id ev c).0.account_manager ≡ g.account_manager)
            × ((delivered g conn_id ev c).0.pending_orders ≡ g.pending_orders)
      go none = (refl, refl)
      go (some test) =
          if_cases {A = Gateway × List Delivery}
            (λ r.
              (r.0.account_manager ≡ g.account_manager) × (r.0.pending_orders ≡ g.pending_orders))
            (test ev) (λ _. (refl, refl)) (λ _. (refl, refl))

  -- The table after a fill, whoever is told of it.
  pub pending-handle_fill :
      (clients : ClientSenders) (g : Gateway) (conn_id : ℕ) (f : Types.Fill)
      → (handle_fill clients g conn_id f).0.pending_orders
        ≡ (fill_order
            (fill_order g (fill f) f.maker_order_id (HashMap.get f.maker_order_id g.pending_orders))
            (fill f)
            f.taker_order_id
            (HashMap.get f.taker_order_id g.pending_orders)).pending_orders
  unfolding handle_fill
  pending-handle_fill clients g conn_id f =
      (manager-deliver clients _ conn_id (fill f)).1
      ∙ to_maker (HashMap.get f.maker_order_id g.pending_orders)
    where
      filled : Gateway
      filled =
          fill_order
            (fill_order g (fill f) f.maker_order_id (HashMap.get f.maker_order_id g.pending_orders))
            (fill f) f.taker_order_id (HashMap.get f.taker_order_id g.pending_orders)

      to_maker :
          (m : Option OrderMetadata)
          → (deliver_to_maker clients filled (fill f) m).0.pending_orders ≡ filled.pending_orders
      to_maker none = refl
      to_maker (some metadata) = (manager-deliver clients filled metadata.conn_id (fill f)).1

  get-fill_order :
      (g : Gateway) (ev : Event) (id k : OrderId) (m : Option OrderMetadata)
      → (m ≡ none → HashMap.get id g.pending_orders ≡ none)
      → HashMap.get k (fill_order g ev id m).pending_orders
        ≡ (if id == k then none else HashMap.get k g.pending_orders)
  unfolding fill_order
  get-fill_order g ev id k none absent = elim (Bool-cases (id == k)) [
    | inl same ↦ rw same (ap (λ x. HashMap.get x g.pending_orders) (ground arith) ∙ absent refl)
    | inr other ↦ rw other refl
  ]
  get-fill_order g ev id k (some metadata) absent = HashMap.get-remove id k g.pending_orders

  get-settle :
      (g : Gateway) (ev : Event) (k : OrderId)
      → ((f : Types.Fill) → ev ≢ fill f)
      → HashMap.get k (settle g ev).pending_orders
        ≡ (if ends g.pending_orders ev k then none else HashMap.get k g.pending_orders)
  unfolding settle release_order
  get-settle g (ack a) k other =
      found (HashMap.get a.order_id g.pending_orders)
      ∙ ap (λ t. if t then none else HashMap.get k g.pending_orders) same
    where
      never : (t : Bool) (x : Option OrderMetadata) → x ≡ (if t && false then none else x)
      never true x = refl
      never false x = refl

      always :
          (t : Bool) (x : Option OrderMetadata)
          → (if t then none else x) ≡ (if t && true then none else x)
      always true x = refl
      always false x = refl

      op :
          (metadata : OrderMetadata) (p : PendingOperation)
          → HashMap.get k (acked_operation g a.order_id metadata p).pending_orders
            ≡ (if (a.order_id == k) && is_cancel p then none else HashMap.get k g.pending_orders)
      op metadata active = never (a.order_id == k) _
      op metadata cancel_pending =
          HashMap.get-remove a.order_id k g.pending_orders ∙ always (a.order_id == k) _

      found :
          (m : Option OrderMetadata)
          → HashMap.get k (acked g a.order_id m).pending_orders ≡ (
              if (a.order_id == k) && waits_for_cancel m
              then none
              else HashMap.get k g.pending_orders)
      found none = never (a.order_id == k) _
      found (some metadata) = op metadata metadata.operation

      same :
          ((a.order_id == k) && waits_for_cancel (HashMap.get a.order_id g.pending_orders))
          ≡ ((a.order_id == k) && waits_for_cancel (HashMap.get k g.pending_orders))
      same = elim (Bool-cases (a.order_id == k)) [
        | inl e ↦
            ap (λ x. (a.order_id == k) && waits_for_cancel (HashMap.get x g.pending_orders))
              (ground arith)
        | inr e ↦ rw e refl
      ]
  get-settle g (reject r) k other = go r.order_id
    where
      found :
          (id : OrderId) (m : Option OrderMetadata)
          → HashMap.get id g.pending_orders ≡ m
          → HashMap.get k (rejected g id m).pending_orders
            ≡ (if id == k then none else HashMap.get k g.pending_orders)
      found id none e = elim (Bool-cases (id == k)) [
        | inl same ↦ rw same (ap (λ x. HashMap.get x g.pending_orders) (ground arith) ∙ e)
        | inr other ↦ rw other refl
      ]
      found id (some metadata) e = HashMap.get-remove id k g.pending_orders

      go :
          (id : Option OrderId)
          → HashMap.get k (rejected_order g id).pending_orders
            ≡ (if names id k then none else HashMap.get k g.pending_orders)
      go none = refl
      go (some id) = found id (HashMap.get id g.pending_orders) refl
  get-settle g (fill f) k other = absurd (other f refl)
  get-settle g (Types.book_top b) k other = refl
  get-settle g (Types.account_state s) k other = refl
  get-settle g (Types.auth_success s) k other = refl
  get-settle g (Types.auth_failure s) k other = refl

  get-handle_fill :
      (clients : ClientSenders) (g : Gateway) (conn_id : ℕ) (f : Types.Fill) (k : OrderId)
      → HashMap.get k (handle_fill clients g conn_id f).0.pending_orders
        ≡ (if ends g.pending_orders (fill f) k then none else HashMap.get k g.pending_orders)
  get-handle_fill clients g conn_id f k =
      ap (HashMap.get k) (pending-handle_fill clients g conn_id f)
      ∙ get-fill_order g' (fill f) f.taker_order_id k taker absent
      ∙ both (f.taker_order_id == k) (f.maker_order_id == k) _ _ (first k)
    where
      maker : Option OrderMetadata
      maker = HashMap.get f.maker_order_id g.pending_orders

      taker : Option OrderMetadata
      taker = HashMap.get f.taker_order_id g.pending_orders

      g' : Gateway
      g' = fill_order g (fill f) f.maker_order_id maker

      first :
          (k : OrderId)
          → HashMap.get k g'.pending_orders
            ≡ (if f.maker_order_id == k then none else HashMap.get k g.pending_orders)
      first k = get-fill_order g (fill f) f.maker_order_id k maker (λ e. e)

      none_anyway :
          (t : Bool) (m : Option OrderMetadata) → m ≡ none → (if t then none else m) ≡ none
      none_anyway true m e = refl
      none_anyway false m e = e

      absent : taker ≡ none → HashMap.get f.taker_order_id g'.pending_orders ≡ none
      absent e = first f.taker_order_id ∙ none_anyway (f.maker_order_id == f.taker_order_id) taker e

      both :
          (s t : Bool) (x y : Option OrderMetadata)
          → x ≡ (if t then none else y)
          → (if s then none else x) ≡ (if s || t then none else y)
      both true t x y e = refl
      both false t x y e = e

  -- After a message of an engine, the shared table has lost the orders that the message ends, and keeps every
  -- other order as it was: a fill ends its maker and its taker, a reject ends the order that it names, an ack
  -- ends its order if that waits for its cancel, and nothing else ends an order.
  pub get-respond :
      (clients : ClientSenders) (g : Gateway) (message : EngineToGateway) (k : OrderId)
      → HashMap.get k (respond clients g message).0.pending_orders
        ≡ (if ended g.pending_orders message k then none else HashMap.get k g.pending_orders)
  unfolding respond handle_event
  get-respond clients g (to_client conn_id ev token) k = go ev
    where
      settled :
          (ev : Event)
          → ((f : Types.Fill) → ev ≢ fill f)
          → HashMap.get k (deliver clients (settle g ev) conn_id ev).0.pending_orders
            ≡ (if ends g.pending_orders ev k then none else HashMap.get k g.pending_orders)
      settled ev other =
          ap (HashMap.get k) (manager-deliver clients (settle g ev) conn_id ev).1
          ∙ get-settle g ev k other

      go :
          (ev : Event)
          → HashMap.get k (handle_event clients g conn_id ev).0.pending_orders
            ≡ (if ends g.pending_orders ev k then none else HashMap.get k g.pending_orders)
      go (fill f) = get-handle_fill clients g conn_id f k
      go (ack a) = settled (ack a) (λ f e. cc e)
      go (reject r) = settled (reject r) (λ f e. cc e)
      go (Types.book_top b) = settled (Types.book_top b) (λ f e. cc e)
      go (Types.account_state s) = settled (Types.account_state s) (λ f e. cc e)
      go (Types.auth_success s) = settled (Types.auth_success s) (λ f e. cc e)
      go (Types.auth_failure s) = settled (Types.auth_failure s) (λ f e. cc e)
  get-respond clients g (pong s n) k = refl
  get-respond clients g (to_market s ev) k = refl
  get-respond clients g (all_orders os) k = refl
  get-respond clients g (engine_ready s os) k = refl

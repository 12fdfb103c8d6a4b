-- ===== src/Gateway/Responses.antt =====
-- `handle_engine_responses` of crates/gateway_server/src/client_handler.rs: what the gateway does with each
-- message of an engine. A registered client is the test by which its codec encodes an event.
pub mod Lifecycle
pub mod Table
pub mod Fills
use high_perf_trading.Base.{
  ℕ, Bool, true, false, Option, none, some, List, [], ◌∷◌, ◌++◌, if◌then◌else◌,
}
use high_perf_trading.Base.Word.{inc_u64}
use high_perf_trading.Base.HashMap.{HashMap}
use high_perf_trading.Base.HashMap
use high_perf_trading.Types.{OrderId, is_buy, Event, fill, ack, reject}
use high_perf_trading.Types
use high_perf_trading.Protocol.{EngineToGateway, to_client}
use high_perf_trading.Gateway.DashMap.{DashMapApi}
use high_perf_trading.Gateway.Accounts.{AccountState}
use high_perf_trading.Gateway.Manager.{AccountManager, apply_fill, release_reservation}
use high_perf_trading.Gateway.Clients.{Gateway}
use high_perf_trading.Gateway.Pending.{OrderMetadata, PendingOperation, active, cancel_pending}

abbrev pub ClientSenders : Type 0
ClientSenders = HashMap (Event → Bool)

-- An event with the connection that it goes to.
abbrev pub Delivery : Type 0
Delivery = ℕ × Event

module _ ⦃dash : DashMapApi AccountState⦄ where
  abbrev pub delivered : Gateway → ℕ → Event → Option (Event → Bool) → Gateway × List Delivery
  delivered g conn_id ev none = (g, [])
  delivered g conn_id ev (some encodes) =
      if encodes ev
      then (record g { frames_out = inc_u64 g.frames_out }, (conn_id, ev) ∷ [])
      else (g, [])

  unfoldable pub deliver : ClientSenders → Gateway → ℕ → Event → Gateway × List Delivery
  unfolding HashMap.get
  deliver clients g conn_id ev = delivered g conn_id ev (HashMap.get conn_id clients)

  -- One side of a fill: the account moves, and the order is forgotten.
  unfoldable pub fill_order : Gateway → Event → OrderId → Option OrderMetadata → Gateway
  unfolding apply_fill HashMap.remove
  fill_order g ev order_id none = g
  fill_order g ev order_id (some metadata) = record g {
    account_manager =
        apply_fill g.account_manager ev metadata.reservation_token (is_buy metadata.side);
    pending_orders = HashMap.remove order_id g.pending_orders;
  }

  -- The reservation goes back, and the order is forgotten.
  unfoldable pub release_order : Gateway → OrderId → OrderMetadata → Gateway
  unfolding release_reservation HashMap.remove
  release_order g order_id metadata = record g {
    account_manager = release_reservation g.account_manager metadata.reservation_token;
    pending_orders = HashMap.remove order_id g.pending_orders;
  }

  abbrev pub deliver_to_maker :
      ClientSenders → Gateway → Event → Option OrderMetadata → Gateway × List Delivery
  deliver_to_maker clients g ev none = (g, [])
  deliver_to_maker clients g ev (some metadata) = deliver clients g metadata.conn_id ev

  -- Both orders are looked up before either is changed.
  unfoldable pub handle_fill : ClientSenders → Gateway → ℕ → Types.Fill → Gateway × List Delivery
  unfolding HashMap.get fill_order deliver
  handle_fill clients g conn_id f =
      let maker = HashMap.get f.maker_order_id g.pending_orders in
      let taker = HashMap.get f.taker_order_id g.pending_orders in
      let filled =
        fill_order (fill_order g (fill f) f.maker_order_id maker) (fill f) f.taker_order_id taker in
      let (g', first) = deliver_to_maker clients filled (fill f) maker in
      let (g'', second) = deliver clients g' conn_id (fill f) in (g'', first ++ second)

  abbrev pub acked_operation : Gateway → OrderId → OrderMetadata → PendingOperation → Gateway
  acked_operation g order_id metadata active = g
  acked_operation g order_id metadata cancel_pending = release_order g order_id metadata

  -- An ack of an order that waits for its cancel is the ack of the cancel.
  abbrev pub acked : Gateway → OrderId → Option OrderMetadata → Gateway
  acked g order_id none = g
  acked g order_id (some metadata) = acked_operation g order_id metadata metadata.operation

  abbrev pub rejected : Gateway → OrderId → Option OrderMetadata → Gateway
  rejected g order_id none = g
  rejected g order_id (some metadata) = release_order g order_id metadata

  abbrev pub rejected_order : Gateway → Option OrderId → Gateway
  rejected_order g none = g
  rejected_order g (some order_id) = rejected g order_id (HashMap.get order_id g.pending_orders)

  -- What an event other than a fill changes.
  unfoldable pub settle : Gateway → Event → Gateway
  unfolding HashMap.get release_order
  settle g (ack a) = acked g a.order_id (HashMap.get a.order_id g.pending_orders)
  settle g (reject r) = rejected_order g r.order_id
  settle g _ = g

  unfoldable pub handle_event : ClientSenders → Gateway → ℕ → Event → Gateway × List Delivery
  unfolding handle_fill settle deliver
  handle_event clients g conn_id (fill f) = handle_fill clients g conn_id f
  handle_event clients g conn_id ev = deliver clients (settle g ev) conn_id ev

  -- Messages that are for no client are only logged.
  unfoldable pub respond : ClientSenders → Gateway → EngineToGateway → Gateway × List Delivery
  unfolding handle_event
  respond clients g (to_client conn_id event risk_token) = handle_event clients g conn_id event
  respond clients g _ = (g, [])

  unfoldable pub handle_engine_responses :
      ClientSenders → List EngineToGateway → Gateway → Gateway × List Delivery
  unfolding respond
  handle_engine_responses clients [] g = (g, [])
  handle_engine_responses clients (message ∷ messages) g =
      let (g', first) = respond clients g message in
      let (g'', more) = handle_engine_responses clients messages g' in (g'', first ++ more)

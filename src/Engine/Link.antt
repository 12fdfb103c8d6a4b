-- ===== src/Engine/Link.antt =====
-- crates/engine_server/src/gateway_connection.rs: the engine's end of the connection to the gateway, while its
-- own writing half is open.
pub mod Relay
use high_perf_trading.Base.{
  ◌&&◌, ℕ, Bool, true, Option, none, some, List, [], ◌∷◌, ◌++◌, if◌then◌else◌, length, ltb, ◌≡◌,
  refl, Bool-cases, inl, inr, if_cases, arith, length-append, ◌≤◌, ◌<◌,
}
use high_perf_trading.Base.HashMap
use high_perf_trading.Metrics.{Metrics, inc_frames_in, queue_inc, queue_dec}
use high_perf_trading.Types.{SymbolId, Command}
use high_perf_trading.Protocol.{
  GatewayToEngine, execute_command, ping, query_all_orders, EngineToGateway, OrderSnapshot,
  all_orders, client_event, execute, RiskToken,
}
use high_perf_trading.Journal.Postcard.{PostcardApi}
use high_perf_trading.Gateway.Router.{Senders, route_to_engine, route_to_engine-Routed}
use high_perf_trading.Engine.Server.{Inbound, Outbound}

-- The queue before the engine, what goes back to the gateway, and the metrics.
pub record Link : Type 0 where
  pub queue : List Inbound
  pub capacity : ℕ
  pub responses : List EngineToGateway
  pub metrics : Metrics

-- What surrounds the reading of one frame: whether the engine's end of the queue is open, and what the engine
-- thread answers to a query, if it does.
pub record Around : Type 0 where
  pub connected : Bool
  pub orders : Option (List OrderSnapshot)

-- `try_send`: the bounded channel refuses a command when it is full and when the engine's end is gone. A
-- command that is refused is dropped.
unfoldable pub enqueue : Bool → Link → Inbound → Link
unfolding queue_inc
enqueue connected l inbound =
    if connected && ltb (length l.queue) l.capacity
    then record l { queue = l.queue ++ inbound ∷ []; metrics = queue_inc l.metrics }
    else l

abbrev pub answer_query : Link → Option (List OrderSnapshot) → Link
answer_query l none = l
answer_query l (some orders) = record l { responses = l.responses ++ all_orders orders ∷ [] }

abbrev pub handle_message : Around → Link → Option GatewayToEngine → Link
handle_message around l none = l
handle_message around l (some (execute_command exec)) =
    enqueue around.connected l (record { conn_id = exec.conn_id; cmd = exec.command })
handle_message around l (some ping) = l
handle_message around l (some query_all_orders) = answer_query l around.orders

abbrev pub take_first : Link → List Inbound → Link × List Inbound
take_first l [] = (l, [])
take_first l (inbound ∷ rest) =
    (record l { queue = rest; metrics = queue_dec l.metrics }, inbound ∷ [])

-- The engine thread takes the first command of the queue, if there is one.
unfoldable pub take_command : Link → Link × List Inbound
unfolding queue_dec
take_command l = take_first l l.queue

-- A frame is read, or the engine takes a command in between.
pub data Turn : Type 0 where
  arrives : Around → List ℕ → Turn
  takes : Turn

module _ ⦃postcard : PostcardApi GatewayToEngine⦄ where
  -- One frame; what cannot be deserialized is skipped.
  unfoldable pub read_message : Around → Link → List ℕ → Link
  unfolding enqueue inc_frames_in
  read_message around l frame =
      handle_message around (record l { metrics = inc_frames_in l.metrics })
        (postcard.from_bytes frame)

  -- The link after the turns, and the commands that the engine has taken, in order.
  unfoldable pub gateway_read_loop : Link → List Turn → Link × List Inbound
  unfolding read_message take_command
  gateway_read_loop l [] = (l, [])
  gateway_read_loop l (arrives around frame ∷ turns) =
      gateway_read_loop (read_message around l frame) turns
  gateway_read_loop l (takes ∷ turns) =
      let (l', taken) = take_command l in
      let (l'', more) = gateway_read_loop l' turns in (l'', taken ++ more)

  -- A command that the gateway has routed is the last frame of the engine's connection. Reading that frame
  -- puts the command with its connection at the end of the queue, if the engine's end of it is open and it
  -- is not full, and leaves the queue alone otherwise.
  pub read_message-route_to_engine :
      (fed flushed : Bool) (senders : Senders) (cmd : Command) (conn_id : ℕ) (token : RiskToken)
      (symbol_id : SymbolId) (around : Around) (l : Link)
      → (route_to_engine fed flushed senders (execute cmd conn_id token) symbol_id).1 ≡ true
      → (frames : List (List ℕ)) × (frame : List ℕ) × (HashMap.get symbol_id
            (route_to_engine fed flushed senders (execute cmd conn_id token) symbol_id).0
          ≡ some (frames ++ frame ∷ []))
        × ((read_message around l frame).queue ≡ (
            if around.connected && ltb (length l.queue) l.capacity
            then l.queue ++ record { conn_id = conn_id; cmd = cmd } ∷ []
            else l.queue))
  unfolding read_message execute enqueue
  read_message-route_to_engine fed flushed senders cmd conn_id token symbol_id around l ok =
      let r = route_to_engine-Routed fed flushed senders (execute cmd conn_id token) symbol_id ok in
      (
        r.frames,
        r.bytes,
        r.written,
        rw (postcard.from-to (execute cmd conn_id token) r.bytes r.serialized)
            (elim (Bool-cases (around.connected && ltb (length l.queue) l.capacity)) [
              | inl room ↦ rw room refl
              | inr refused ↦ rw refused refl
            ]),
      )

module _ ⦃postcard : PostcardApi EngineToGateway⦄ where
  -- The frame of an event, if it can be serialized.
  unfoldable pub write_event : Outbound → Option (List ℕ)
  unfolding client_event
  write_event outbound = postcard.to_bytes (client_event outbound.conn_id outbound.ev none)

  -- The frames of the events that wait, in order; what cannot be serialized is left out.
  unfoldable pub write_events : List Outbound → List (List ℕ)
  unfolding write_event
  write_events [] = []
  write_events (outbound ∷ outbounds) = elim (write_event outbound) [
    | none ↦ write_events outbounds
    | some frame ↦ frame ∷ write_events outbounds
  ]

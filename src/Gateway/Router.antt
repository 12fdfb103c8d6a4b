-- ===== src/Gateway/Router.antt =====
-- crates/gateway_server/src/engine_router.rs: the connections to the engines, as the frames written to each
-- so far. `fed` and `flushed` say whether the calls of the socket succeed.
use high_perf_trading.Base.{
  ℕ, zero, suc, Bool, true, false, Option, none, some, List, [], ◌∷◌, ◌++◌, if◌then◌else◌, length,
  ◌≡◌, refl, sym, ap, ◌∙◌, ◌==◌, ==_refl, map, arith,
}
use mathlib.Core.List.{append_assoc, append-nil}
use high_perf_trading.Base.HashMap.{HashMap}
use high_perf_trading.Base.HashMap
use high_perf_trading.Types.{SymbolId}
use high_perf_trading.Protocol.{
  GatewayToEngine, EngineToGateway, OrderSnapshot, all_orders, query_all_orders,
}
use high_perf_trading.Journal.Postcard.{PostcardApi}

abbrev pub Senders : Type 0
Senders = HashMap (List (List ℕ))

-- What one wait for an event ends with.
pub data Received : Type 0 where
  arrived : EngineToGateway → Received
  closed timed_out : Received

unfoldable pub num_connections : Senders → ℕ
num_connections senders = length senders

-- The orders of an answer; any other message is ignored.
abbrev pub orders_of : EngineToGateway → List OrderSnapshot
orders_of (all_orders orders) = orders
orders_of _ = []

-- One wait for each engine asked. `none` is an error.
unfoldable pub collect_orders : ℕ → List Received → List OrderSnapshot → Option (List OrderSnapshot)
collect_orders zero events orders = some orders
collect_orders (suc engines) (arrived event ∷ events) orders =
    collect_orders engines events (orders ++ orders_of event)
collect_orders (suc engines) _ orders = none

module _ ⦃postcard : PostcardApi GatewayToEngine⦄ where
  abbrev pub feed :
      Bool → Bool → Senders → SymbolId → List ℕ → Option (List (List ℕ)) → Senders × Bool
  feed fed flushed senders symbol_id bytes none = (senders, false)
  feed true flushed senders symbol_id bytes (some frames) =
      (HashMap.insert symbol_id (frames ++ bytes ∷ []) senders, flushed)
  feed false flushed senders symbol_id bytes (some frames) = (senders, false)

  abbrev pub route_serialized : Bool → Bool → Senders → SymbolId → Option (List ℕ) → Senders × Bool
  route_serialized fed flushed senders symbol_id none = (senders, false)
  route_serialized fed flushed senders symbol_id (some bytes) =
      feed fed flushed senders symbol_id bytes (HashMap.get symbol_id senders)

  unfoldable pub route_to_engine :
      Bool → Bool → Senders → GatewayToEngine → SymbolId → Senders × Bool
  unfolding HashMap.get HashMap.insert
  route_to_engine fed flushed senders msg symbol_id =
      route_serialized fed flushed senders symbol_id (postcard.to_bytes msg)

  -- A message that was routed is the last frame of its symbol's engine, and no other engine gets it.
  pub record Routed (senders after : Senders) (msg : GatewayToEngine) (symbol_id : SymbolId)
      : Type 0 where
    pub bytes : List ℕ
    pub frames : List (List ℕ)
    pub serialized : postcard.to_bytes msg ≡ some bytes
    pub connected : HashMap.get symbol_id senders ≡ some frames
    pub written : HashMap.get symbol_id after ≡ some (frames ++ bytes ∷ [])
    pub others :
        (other : SymbolId)
        → (symbol_id == other) ≡ false
        → HashMap.get other after ≡ HashMap.get other senders

  pub route_to_engine-Routed :
      (fed flushed : Bool) (senders : Senders) (msg : GatewayToEngine) (symbol_id : SymbolId)
      → (route_to_engine fed flushed senders msg symbol_id).1 ≡ true
      → Routed senders (route_to_engine fed flushed senders msg symbol_id).0 msg symbol_id
  unfolding route_to_engine
  route_to_engine-Routed fed flushed senders msg symbol_id = serialized (postcard.to_bytes msg) refl
    where
      connected :
          (fed : Bool) (bytes : List ℕ)
          → postcard.to_bytes msg ≡ some bytes
          → (frames : Option (List (List ℕ))) → HashMap.get symbol_id senders ≡ frames
          → (feed fed flushed senders symbol_id bytes frames).1 ≡ true
          → Routed senders (feed fed flushed senders symbol_id bytes frames).0 msg symbol_id
      connected fed bytes e none h ok = cc
      connected false bytes e (some frames) h ok = cc
      connected true bytes e (some frames) h ok = record {
        bytes = bytes;
        frames = frames;
        serialized = e;
        connected = h;
        written =
            rw
              (
                HashMap.get-insert symbol_id symbol_id (frames ++ bytes ∷ []) senders,
                ==_refl symbol_id,
              )
              refl;
        others = λ other ne.
            rw (HashMap.get-insert symbol_id other (frames ++ bytes ∷ []) senders, ne) refl;
      }

      serialized :
          (o : Option (List ℕ))
          → postcard.to_bytes msg ≡ o
          → (route_serialized fed flushed senders symbol_id o).1 ≡ true
          → Routed senders (route_serialized fed flushed senders symbol_id o).0 msg symbol_id
      serialized none e ok = cc
      serialized (some bytes) e ok = connected fed bytes e (HashMap.get symbol_id senders) refl ok

  -- The query goes to each symbol in turn; the first failure ends it. `sockets` says how the calls of each
  -- connection end.
  unfoldable pub send_queries : (SymbolId → Bool × Bool) → List SymbolId → Senders → Senders × Bool
  unfolding route_to_engine
  send_queries sockets [] senders = (senders, true)
  send_queries sockets (symbol_id ∷ symbol_ids) senders =
      let (senders', ok) =
        route_to_engine (sockets symbol_id).0 (sockets symbol_id).1 senders query_all_orders
          symbol_id in
      if ok then send_queries sockets symbol_ids senders' else (senders', false)

  unfoldable pub query_all_engines_for_orders :
      (SymbolId → Bool × Bool) → Senders → List Received → Option (List OrderSnapshot)
  unfolding send_queries collect_orders
  query_all_engines_for_orders sockets senders events =
      let symbol_ids = map (λ e. e.0) senders in
      if (send_queries sockets symbol_ids senders).1
      then collect_orders (length symbol_ids) events []
      else none

-- The orders of the first messages, one after the other.
abbrev pub orders_in : ℕ → List EngineToGateway → List OrderSnapshot
orders_in zero events = []
orders_in (suc engines) [] = []
orders_in (suc engines) (event ∷ events) = orders_of event ++ orders_in engines events

-- With as many messages as engines, the query returns the orders of exactly the first ones, as many as
-- there are engines; a message of another kind takes the place of an answer and adds nothing.
pub collect_orders_lem :
    (engines : ℕ) (events : List EngineToGateway) (rest : List Received)
    (orders : List OrderSnapshot)
    → length events ≡ engines
    → collect_orders engines (map arrived events ++ rest) orders
      ≡ some (orders ++ orders_in engines events)
unfolding collect_orders
collect_orders_lem zero [] rest orders h = ap some (sym (append-nil orders))
collect_orders_lem zero (event ∷ events) rest orders h = absurd (omega arith)
collect_orders_lem (suc engines) [] rest orders h = absurd (omega arith)
collect_orders_lem (suc engines) (event ∷ events) rest orders h =
    collect_orders_lem engines events rest (orders ++ orders_of event) (omega arith)
    ∙ ap some (append_assoc orders (orders_of event) (orders_in engines events))

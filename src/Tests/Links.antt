-- ===== src/Tests/Links.antt =====
-- Runs of the connection between the gateway and an engine, in crates/gateway_server/src/engine_router.rs and
-- crates/engine_server/src/gateway_connection.rs.
use high_perf_trading.Base.{
  ℕ, pos, true, some, List, [], ◌∷◌, ◌++◌, ◌&&◌, map, ◌≡◌, refl, arith, if◌then◌else◌, ltb,
}
use high_perf_trading.Base.HashMap
use high_perf_trading.Metrics.{no_metrics}
use high_perf_trading.Types.{buy}
use high_perf_trading.Protocol.{
  OrderSnapshot, EngineToGateway, pong, all_orders, RiskToken, execute,
}
use high_perf_trading.Journal.Sample.{encode_message, sample_messages}
use high_perf_trading.Gateway.Router.{
  Senders, arrived, timed_out, collect_orders, orders_in, collect_orders_lem, route_to_engine,
}
use high_perf_trading.Engine.Link.{
  Link, Around, Turn, arrives, takes, read_message, gateway_read_loop, read_message-route_to_engine,
}
use high_perf_trading.Engine.Link.Relay.{InStep, commands, gateway_read_loop-commands}
use high_perf_trading.Tests.Journal.{first_command}

abbrev resting : OrderSnapshot
resting = record {
  order_id = 20;
  account_id = 3;
  symbol_id = 1;
  side = buy;
  price = pos 105;
  qty_rem = pos 6;
  reserved_amount = pos 630;
}

-- The first engine sends something else before its orders.
abbrev events : List EngineToGateway
events = pong 1 1 ∷ all_orders (resting ∷ []) ∷ []

collect_orders_lem_example :
    collect_orders 2 (map arrived events ++ timed_out ∷ []) [] ≡ some ([] ++ orders_in 2 events)
collect_orders_lem_example = collect_orders_lem 2 events (timed_out ∷ []) [] refl

-- The gateway is connected to the engine of symbol 1.
abbrev senders : Senders
senders = (1, []) ∷ []

abbrev token : RiskToken
token = record { account_id = 3; reserved_amount = pos 630; gateway_seq = 4 }

abbrev link : Link
link = record { queue = []; capacity = 2; responses = []; metrics = no_metrics }

-- The engine's end is open; the engine answers a query with an order.
abbrev ready : Around
ready = record { connected = true; orders = some (resting ∷ []) }

read_message-route_to_engine_example :
    (frames : List (List ℕ)) × (frame : List ℕ) × (HashMap.get 1
        (route_to_engine true true senders (execute first_command 8 token) 1).0
      ≡ some (frames ++ frame ∷ []))
    × ((read_message ready link frame).queue
        ≡ (if true && ltb 0 2 then [] ++ record { conn_id = 8; cmd = first_command } ∷ [] else []))
unfolding route_to_engine sample_messages execute HashMap.get HashMap.insert
read_message-route_to_engine_example =
    read_message-route_to_engine true true senders first_command 8 token 1 ready link refl

-- The frame of the command.
abbrev command_frame : List ℕ
unfolding execute
command_frame = encode_message (execute first_command 8 token)

-- A command, which the engine takes, then bytes that are no message.
abbrev turns : List Turn
turns = arrives ready command_frame ∷ takes ∷ arrives ready (7 ∷ 7 ∷ []) ∷ []

link-InStep : InStep link
unfolding no_metrics
link-InStep = record { depth = refl; bound = omega arith }

gateway_read_loop-commands_example :
    (let r = gateway_read_loop link turns in (r.1 ++ r.0.queue ≡ [] ++ commands turns) × InStep r.0)
unfolding sample_messages command_frame
gateway_read_loop-commands_example =
    gateway_read_loop-commands turns link link-InStep (omega arith) (refl, (tt, (refl, tt)))
      (omega arith)

-- ===== src/Lib.antt =====
-- An exchange of several processes: gateways take the commands of clients, reserve buying power for them and
-- pass them to engines, one to a symbol, which match orders and answer with events.
--
-- The parts and the files that model them:
--
-- crates/common/src/metrics.rs: Metrics, whose counters move one step at a time.
--
-- crates/common/src/types.rs and gateway_protocol.rs: the commands, events and messages. Types and Protocol
-- keep their names. An id or a sequence number is a natural number, a price or a quantity an integer, and the
-- wrap-around of 64 bits is written out in Base/Word, as the release build does it.
--
-- crates/engine/src/order_book.rs: Engine/Book is `OrderBook` with its operations, and Engine/Matching is
-- `match_taker`, whose two arms for buys and sells are one definition over the side. The slab that holds the
-- orders is the interface Engine/Slab, with its documented laws; Engine/Slab/Sample fills it. A `BTreeMap` is
-- a sorted list of entries (Base/TreeMap) and a `HashMap` a list of entries (Base/HashMap). The matching loop
-- runs on fuel: one more than the work of the side that it eats, which counts each level and each entry of
-- its queue. Every round takes something from that, so the fuel does not run out
-- (Engine/Matching/Termination). Engine/Matching/Greedy is the matching without levels, keys and a store, as the
-- reference. Engine/Book/Aggregate says how the levels of a book sum up its orders.
--
-- crates/engine/src/account_manager.rs: Engine/Accounts, with the risk check in Engine/Accounts/Risk and the
-- moves of positions in Engine/Accounts/Positions. The division of an average price can panic, which
-- `none` stands for here and in the engine.
--
-- crates/engine/src/engine.rs: Engine/State is `Engine` and the events it makes, Engine/Core its handlers,
-- `process`, and `replay`. An operation takes the engine and returns the events with the next engine;
-- `run_command` is what `run` does to it for one command. Engine/Server is the loop of `run` with its journal,
-- snapshots and rotation, where what the clock, the file system and the channel answer is an argument. Engine/Snapshot is
-- `take_snapshot` and `restore_from_persistence`; `none` is a panic, and a Boolean beside the engine says
-- whether the restoring succeeded.
--
-- crates/persistence/src/lib.rs: Journal/Frames is the format of the frames and `read_all`, Journal/Log the
-- `Journal` with its batch and counters, Engine/Snapshot/File the bytes of a snapshot, and
-- Engine/Snapshot/Directory the files of snapshots in their directory (Journal/Directory). The serializer
-- (the crate postcard) and the checksum are the interfaces Journal/Postcard, the file is Journal/File, and
-- Journal/Sample fills them. A round of the reading loop takes at least eight bytes, so one more than the
-- bytes is fuel enough (Journal/Frames/Reading).
--
-- crates/gateway_server/src/account_manager.rs: Gateway/Accounts is what happens to one account under its lock,
-- Gateway/Manager the operations over all accounts. The concurrent map is the interface Gateway/DashMap. A call
-- holds the lock of its entry while it checks and changes an account, so it is one step here.
--
-- crates/gateway_server/src/session.rs and auth.rs: Gateway/Sessions and Gateway/Auth.
--
-- crates/gateway_server/src/client_handler.rs: Gateway/Pending is the table of the orders of a connection and
-- the one that all share, Gateway/Clients what the gateway does with each command of a client, and
-- Gateway/Responses what it does with each message of an engine. What a codec encodes and what the router hands over are parameters. The steps of
-- different connections are not interleaved.
--
-- crates/gateway_server/src/engine_router.rs and crates/engine_server/src/gateway_connection.rs: Gateway/Router
-- and Engine/Link, the two ends of a connection, as the frames written to it. Between the frames that the
-- engine's end reads, the engine takes commands from its queue. Whether the other end of the queue is still open is
-- an argument.
--
-- crates/gateway_server/src/persistence.rs and main.rs: Gateway/Journal is the account journal, in the frames
-- of Journal/Frames, Gateway/Snapshots the files of account snapshots, and Gateway/Startup what the gateway makes of its snapshot and journal when it starts.
--
-- crates/gateway_server/src/reconciliation.rs: Gateway/Reconciliation, with the orders that the engines report
-- as the argument.
--
-- crates/codecs/src/binary.rs: Codec/Binary and Codec/Decode, over the interface Codec/Buffer of the byte
-- buffers. A reader takes the bytes and returns a value with the bytes that are left, or the error. The UTF-8
-- test of `String::from_utf8` is a parameter.
--
-- Tests runs the models on concrete inputs.
--
-- Not modelled: sockets, threads, start-up options and the admin page; the JSON codec, which only calls its
-- library; the benchmarks and the test client.
pub mod Base
pub mod Types
pub mod Metrics
pub mod Protocol
pub mod Engine
pub mod Gateway
pub mod Codec
pub mod Journal
pub mod Tests

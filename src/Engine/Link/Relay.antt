-- ===== src/Engine/Link/Relay.antt =====
-- What the engine's end of the connection, in crates/engine_server/src/gateway_connection.rs, relays to the
-- engine thread.
use high_perf_trading.Base.{
  ℕ, suc, ◌+◌, ◌≤◌, ◌<◌, ◌^◌, pos, true, Option, none, some, List, [], ◌∷◌, ◌++◌, length, ltb, ◌≡◌,
  refl, sym, ap, ◌∙◌, All, arith, length-append,
}
use high_perf_trading.Base.Int.{◌+ℤ◌, ◌-ℤ◌}
use mathlib.Core.List.{append_assoc, append-nil}
use high_perf_trading.Base.Word.{add_i64, sub_i64, add_i64_lem, sub_i64_lem}
use high_perf_trading.Metrics.{queue_inc, queue_dec, inc_frames_in}
use high_perf_trading.Journal.Postcard.{PostcardApi}
use high_perf_trading.Protocol.{
  GatewayToEngine, execute_command, ping, query_all_orders, OrderSnapshot,
}
use high_perf_trading.Engine.Server.{Inbound}
use high_perf_trading.Engine.Link.{
  Link, Around, Turn, arrives, takes, enqueue, answer_query, handle_message, take_first,
  take_command, read_message, gateway_read_loop,
}

-- The metric of the queue's depth shows its length, and the queue is within its capacity.
pub record InStep (l : Link) : Type 0 where
  pub depth : l.metrics.engine_in_queue_depth ≡ pos (length l.queue)
  pub bound : length l.queue ≤ l.capacity

abbrev pub Connected : Turn → Type 0
Connected (arrives around frame) = around.connected ≡ true
Connected takes = Unit

abbrev pub inbound_of : Option GatewayToEngine → List Inbound
inbound_of (some (execute_command exec)) =
    record { conn_id = exec.conn_id; cmd = exec.command } ∷ []
inbound_of _ = []

add_one : (n : ℕ) → n + 1 < 2 ^ 63 → add_i64 (pos n) (pos 1) ≡ pos (n + 1)
unfolding ◌+ℤ◌
add_one n h = add_i64_lem (pos n) (pos 1) (ground arith) ∙ ground arith

sub_one : (n : ℕ) → n + 1 < 2 ^ 63 → sub_i64 (pos (suc n)) (pos 1) ≡ pos n
unfolding ◌-ℤ◌
sub_one n h = sub_i64_lem (pos (suc n)) (pos 1) (ground arith) ∙ ground arith

room_at_end : (m n c : ℕ) → m + n ≤ c → n ≡ 1 → ltb m c ≡ true
room_at_end m n c h e = ground arith

-- A command put into a queue that is open and has room.
enqueue-InStep :
    (l : Link) (inbound : Inbound)
    → InStep l
    → l.capacity < 2 ^ 63
    → length l.queue + 1 ≤ l.capacity
    → InStep (enqueue true l inbound)
      × ((enqueue true l inbound).queue ≡ l.queue ++ inbound ∷ [])
      × ((enqueue true l inbound).capacity ≡ l.capacity)
unfolding enqueue queue_inc
enqueue-InStep l inbound h small room =
    let size = length-append l.queue (inbound ∷ []) in
    rw (room_at_end (length l.queue) 1 l.capacity room refl) (
      record {
        depth =
            ap (λ d. add_i64 d (pos 1)) h.depth
            ∙ add_one (length l.queue) (omega arith)
            ∙ ap pos (sym size);
        bound = omega (arith, size);
      },
      refl,
      refl,
    )

take_command-InStep :
    (l : Link)
    → InStep l
    → l.capacity < 2 ^ 63
    → (let r = take_command l in
        InStep r.0 × (r.1 ++ r.0.queue ≡ l.queue) × (r.0.capacity ≡ l.capacity))
unfolding take_command queue_dec
take_command-InStep l h small = go l.queue refl
  where
    go :
        (q : List Inbound)
        → q ≡ l.queue
        → (let r = take_first l q in
            InStep r.0 × (r.1 ++ r.0.queue ≡ l.queue) × (r.0.capacity ≡ l.capacity))
    go [] e = (h, refl, refl)
    go (inbound ∷ rest) e =
        let size : length l.queue ≡ suc (length rest) = ap length (sym e) in
        let bound = h.bound in
        (
          record {
            depth =
                ap (λ d. sub_i64 d (pos 1)) (h.depth ∙ ap pos size)
                ∙ sub_one (length rest) (omega arith);
            bound = omega arith;
          },
          e,
          refl,
        )

module _ ⦃postcard : PostcardApi GatewayToEngine⦄ where
  -- The commands that the frames hold, in order.
  abbrev pub commands : List Turn → List Inbound
  commands [] = []
  commands (arrives around frame ∷ turns) = inbound_of (postcard.from_bytes frame) ++ commands turns
  commands (takes ∷ turns) = commands turns

  read_message-InStep :
      (around : Around) (l : Link) (frame : List ℕ)
      → InStep l
      → l.capacity < 2 ^ 63
      → around.connected ≡ true
      → length l.queue + length (inbound_of (postcard.from_bytes frame)) ≤ l.capacity
      → (let l' = read_message around l frame in
          InStep l'
          × (l'.queue ≡ l.queue ++ inbound_of (postcard.from_bytes frame))
          × (l'.capacity ≡ l.capacity))
  unfolding read_message inc_frames_in
  read_message-InStep around l frame h small on room = go (postcard.from_bytes frame) room
    where
      counted : Link
      counted = record l { metrics = inc_frames_in l.metrics }

      steady : InStep counted
      steady = record { depth = h.depth; bound = h.bound }

      go :
          (m : Option GatewayToEngine)
          → length l.queue + length (inbound_of m) ≤ l.capacity
          → (let l' = handle_message around counted m in
              InStep l' × (l'.queue ≡ l.queue ++ inbound_of m) × (l'.capacity ≡ l.capacity))
      go none room = (steady, sym (append-nil l.queue), refl)
      go (some ping) room = (steady, sym (append-nil l.queue), refl)
      go (some query_all_orders) room = answered around.orders
        where
          answered :
              (o : Option (List OrderSnapshot))
              → (let l' = answer_query counted o in
                  InStep l' × (l'.queue ≡ l.queue ++ []) × (l'.capacity ≡ l.capacity))
          answered none = (steady, sym (append-nil l.queue), refl)
          answered (some orders) =
              (record { depth = h.depth; bound = h.bound }, sym (append-nil l.queue), refl)
      go (some (execute_command exec)) room = rw on (enqueue-InStep counted _ steady small room)

  -- If the metric of the depth shows the length of the queue, the engine's end of the queue stays open, and
  -- the queue has room for all commands of the frames, with a capacity below 2 ^ 63: then what the engine
  -- takes in between, followed by what waits at the end, is what waited at the start followed by the
  -- commands of the frames, none lost and none out of order, and the metric shows the length again.
  pub gateway_read_loop-commands :
      (turns : List Turn) (l : Link)
      → InStep l
      → l.capacity < 2 ^ 63
      → All Connected turns
      → length l.queue + length (commands turns) ≤ l.capacity
      → (let r = gateway_read_loop l turns in
          (r.1 ++ r.0.queue ≡ l.queue ++ commands turns) × InStep r.0)
  unfolding gateway_read_loop
  gateway_read_loop-commands [] l h small on room = (sym (append-nil l.queue), h)
  gateway_read_loop-commands (arrives around frame ∷ turns) l h small (this, on) room =
      let new = inbound_of (postcard.from_bytes frame) in
      let size = length-append new (commands turns) in
      let (h', queued, same) = read_message-InStep around l frame h small this (omega arith) in
      let grown = ap length queued ∙ length-append l.queue new in
      let (kept, h'') =
        gateway_read_loop-commands turns (read_message around l frame) h' (omega arith) on
          (omega arith) in
      (kept ∙ ap (λ q. q ++ commands turns) queued ∙ append_assoc l.queue new (commands turns), h'')
  gateway_read_loop-commands (takes ∷ turns) l h small (_, on) room =
      let r = take_command l in
      let (h', queued, same) = take_command-InStep l h small in
      let size = sym (length-append r.1 r.0.queue) ∙ ap length queued in
      let (kept, h'') = gateway_read_loop-commands turns r.0 h' (omega arith) on (omega arith) in
      let more = (gateway_read_loop r.0 turns).1 in
      (
        append_assoc r.1 more _
            ∙ ap (λ q. r.1 ++ q) kept
            ∙ sym (append_assoc r.1 r.0.queue (commands turns))
            ∙ ap (λ q. q ++ commands turns) queued,
        h'',
      )

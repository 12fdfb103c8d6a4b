-- ===== src/Engine/Core/Same.antt =====
-- The commands of crates/engine/src/engine.rs on engines that differ in their counters only.
use high_perf_trading.Base.{
  ℕ, ℤ, pos, Option, none, some, List, [], ◌∷◌, ◌≡◌, refl, ap, sym, inl, inr, ◌>>=◌, Bool-cases,
  Option-cases, not, ◌&&◌, ◌||◌, ◌==◌, leb_ℤ, ltb_ℤ, subst,
}
use high_perf_trading.Base.Word.{inc_u64, sub_i64}
use high_perf_trading.Types.{
  NewOrder, Replace, Command, new_order, cancel, replace, set_risk_limits, query_account,
  authenticate, opposite, is_gtc,
}
use high_perf_trading.Types
use high_perf_trading.Engine.Slab.{SlabApi}
use high_perf_trading.Engine.Book.{OrderBook, would_cross}
use high_perf_trading.Engine.Book
use high_perf_trading.Engine.Accounts.{check_risk, apply_fill}
use high_perf_trading.Engine.Matching.{MatchFill, match_taker}
use high_perf_trading.Engine.State.{
  Engine, Step, ack_event, settle_fill, settle_fills, conclude, filled_from, reject_event,
}
use high_perf_trading.Engine.Core.{
  handle_new, handle_crossing, handle_passive, handle_cancel, handle_replace,
  handle_set_risk_limits, handle_query_account, process, run_command, rest_remainder,
}
use high_perf_trading.Engine.Core.Replay.{SameState}

module _ ⦃slab : SlabApi⦄ where
  -- Both panic, or both end in the same state.
  abbrev pub SameStep : Option Step → Option Step → Type 0
  SameStep none none = Unit
  SameStep (some (evs, e)) (some (evs', f)) = SameState e f
  SameStep _ _ = ⊥

  -- The same engine with other counters.
  abbrev renumbered : ℕ → ℕ → ℕ → Engine → Engine
  renumbered seq fills rejects e = record e {
    server_seq = seq;
    fills_total = fills;
    rejects_total = rejects;
  }

  SameStep-bind :
      (r r' : Option Step) (k k' : Step → Option Step)
      → SameStep r r'
      → ((s s' : Step) → SameState s.1 s'.1 → SameStep (k s) (k' s'))
      → SameStep (r >>= k) (r' >>= k')
  SameStep-bind none none k k' h f = tt
  SameStep-bind (some s) (some s') k k' h f = f s s' h
  SameStep-bind none (some s) k k' h f = absurd h
  SameStep-bind (some s) none k k' h f = absurd h

  -- An engine in the same state is that engine with other counters.
  as_renumbered :
      (e f : Engine) → SameState e f → f ≡ renumbered f.server_seq f.fills_total f.rejects_total e
  as_renumbered e f (b, a, c) = cc (b, a, c)

  settle_fills_same :
      (fills : List MatchFill) (seq n m : ℕ) (e : Engine) (order : NewOrder)
      → SameStep (settle_fills e order fills) (settle_fills (renumbered seq n m e) order fills)
  unfolding settle_fills settle_fill
  settle_fills_same [] seq n m e order = (refl, refl, refl)
  settle_fills_same (f ∷ fills) seq n m e order =
      elim (Option-cases (apply_fill e.account_manager order.account_id order.side f.price f.qty)) [
        | inl panic ↦ rw panic tt
        | inr (taken, ok) ↦
            rw (ok)
              (elim (Option-cases
                (apply_fill taken f.maker_account_id (opposite order.side) f.price f.qty)) [
                  | inl panic ↦ rw panic tt
                  | inr (settled, ok') ↦ rw ok' (
                      SameStep-bind _ _ _ _
                        (settle_fills_same fills (inc_u64 seq) (inc_u64 n) m
                          (record e {
                            server_seq = inc_u64 e.server_seq;
                            account_manager = settled;
                            fills_total = inc_u64 e.fills_total;
                          })
                          order)
                        λ s s' h. h)
                ])
      ]

  rest_remainder_same :
      (e f : Engine) (order : NewOrder) (fills : List MatchFill)
      → SameState e f
      → SameState (rest_remainder e order fills) (rest_remainder f order fills)
  unfolding rest_remainder
  rest_remainder_same e f order fills h =
      rw (as_renumbered e f h) (elim (Bool-cases (ltb_ℤ (pos 0) rem && is_gtc order.tif)) [
        | inl more ↦ rw more (refl, refl, refl)
        | inr none_left ↦ rw none_left (refl, refl, refl)
      ])
    where
      rem : ℤ
      rem = sub_i64 order.qty (filled_from (pos 0) fills)

  handle_crossing_same :
      (seq n m : ℕ) (e : Engine) (order : NewOrder)
      → SameStep (handle_crossing e order) (handle_crossing (renumbered seq n m e) order)
  unfolding handle_crossing conclude
  handle_crossing_same seq n m e order =
      elim (Option-cases (match_taker e.book order.order_id order.side order.price order.qty)) [
        | inl panic ↦ rw panic tt
        | inr ((book, fills), ok) ↦ rw ok (
            SameStep-bind _ _ _ _ (settle_fills_same fills seq n m (record e { book = book }) order)
              λ s s' h. rest_remainder_same s.1 s'.1 order fills h)
      ]

  handle_passive_same :
      (seq n m : ℕ) (e : Engine) (order : NewOrder)
      → SameState (handle_passive e order).1 (handle_passive (renumbered seq n m e) order).1
  unfolding handle_passive conclude
  handle_passive_same seq n m e order = elim (Bool-cases (is_gtc order.tif)) [
    | inl keep ↦ rw keep (refl, refl, refl)
    | inr discard ↦ rw discard (refl, refl, refl)
  ]

  handle_new_same :
      (seq n m : ℕ) (e : Engine) (order : NewOrder)
      → SameStep (handle_new e order) (handle_new (renumbered seq n m e) order)
  unfolding handle_new reject_event
  handle_new_same seq n m e order =
      elim (Bool-cases (not (order.symbol_id == e.book.symbol_id) || leb_ℤ order.qty (pos 0))) [
        | inl bad ↦ rw bad (refl, refl, refl)
        | inr valid ↦
            rw valid
              (elim (Option-cases
                (check_risk e.account_manager order.account_id order.side order.qty)) [
                  | inr (reason, bad) ↦ rw bad (refl, refl, refl)
                  | inl fine ↦
                      rw (fine)
                        (elim (Bool-cases
                          (order.flags.post_only && would_cross e.book order.side order.price)) [
                            | inl bad ↦ rw bad (refl, refl, refl)
                            | inr free ↦
                                rw free
                                  (elim (Bool-cases (would_cross e.book order.side order.price)) [
                                    | inl crosses ↦
                                        rw crosses (handle_crossing_same seq n m e order)
                                    | inr apart ↦ rw apart (handle_passive_same seq n m e order)
                                  ])
                          ])
                ])
      ]

  handle_cancel_same :
      (seq n m : ℕ) (e : Engine) (c : Types.Cancel)
      → SameState (handle_cancel e c).1 (handle_cancel (renumbered seq n m e) c).1
  unfolding handle_cancel reject_event conclude
  handle_cancel_same seq n m e c = elim (Bool-cases (c.symbol_id == e.book.symbol_id)) [
    | inr foreign ↦ rw foreign (refl, refl, refl)
    | inl ours ↦ rw ours (elim (Bool-cases (Book.cancel e.book c.order_id c.account_id).0) [
      | inl found ↦ rw found (refl, refl, refl)
      | inr missing ↦ rw missing (refl, refl, refl)
    ])
  ]

  handle_replace_same :
      (seq n m : ℕ) (e : Engine) (r : Replace)
      → SameStep (handle_replace e r) (handle_replace (renumbered seq n m e) r)
  unfolding handle_replace reject_event
  handle_replace_same seq n m e r =
      elim (Bool-cases (not (r.symbol_id == e.book.symbol_id) || leb_ℤ r.new_qty (pos 0))) [
        | inl bad ↦ rw bad (refl, refl, refl)
        | inr valid ↦ rw valid (elim (Option-cases (Book.get e.book r.order_id)) [
          | inl missing ↦ rw missing (refl, refl, refl)
          | inr (o, there) ↦ rw there (elim (Bool-cases (o.account_id == r.account_id)) [
            | inr foreign ↦ rw foreign (refl, refl, refl)
            | inl ours ↦ rw ours (
                handle_new_same seq n m
                  (record e { book = (Book.cancel e.book r.order_id r.account_id).1 }) _)
          ])
        ])
      ]

  process_same :
      (seq n m : ℕ) (e : Engine) (cmd : Command)
      → SameStep (process e cmd) (process (renumbered seq n m e) cmd)
  unfolding process handle_set_risk_limits handle_query_account ack_event
  process_same seq n m e (new_order order) = handle_new_same seq n m e order
  process_same seq n m e (cancel c) = handle_cancel_same seq n m e c
  process_same seq n m e (replace r) = handle_replace_same seq n m e r
  process_same seq n m e (set_risk_limits s) = (refl, refl, refl)
  process_same seq n m e (query_account q) = (refl, refl, refl)
  process_same seq n m e (authenticate a) = (refl, refl, refl)

  -- Two engines with the same book, the same accounts and the same command number, whatever the number
  -- of their next event and their counts of fills and rejects, end a command with the same book,
  -- accounts and command number, and panic on the same commands.
  pub run_command-SameStep :
      (e f : Engine) (cmd : Command)
      → SameState e f
      → SameStep (run_command e cmd) (run_command f cmd)
  unfolding run_command
  run_command-SameStep e f cmd h =
      SameStep-bind _ _ _ _
        (subst (λ x. SameStep (process e cmd) (process x cmd)) (sym (as_renumbered e f h))
          (process_same f.server_seq f.fills_total f.rejects_total e cmd))
        λ s s' (b, a, n). (b, a, ap inc_u64 n)

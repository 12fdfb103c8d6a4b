-- ===== src/Metrics.antt =====
-- crates/common/src/metrics.rs: the counters and the text that shows them. An atomic addition is one step,
-- which wraps around.
use Prim.Native.Char.{code}
use Prim.Native.String.{String}
use high_perf_trading.Base.{ℕ, ◌+◌, ℤ, pos, negsuc, List, [], ◌∷◌, ◌++◌}
use high_perf_trading.Base.Word.{inc_u64, add_i64, sub_i64}
use high_perf_trading.Journal.Directory.{digits_from}

pub record Metrics : Type 0 where
  pub connections : ℕ
  pub frames_in : ℕ
  pub frames_out : ℕ
  pub fills_total : ℕ
  pub rejects_total : ℕ
  pub engine_in_queue_depth : ℤ
  pub journal_appends_total : ℕ
  pub journal_flushes_total : ℕ
  pub journal_errors_total : ℕ
  pub snapshots_total : ℕ
  pub journal_rotations_total : ℕ

-- `Metrics::default`.
unfoldable pub no_metrics : Metrics
no_metrics = record {
  connections = 0;
  frames_in = 0;
  frames_out = 0;
  fills_total = 0;
  rejects_total = 0;
  engine_in_queue_depth = pos 0;
  journal_appends_total = 0;
  journal_flushes_total = 0;
  journal_errors_total = 0;
  snapshots_total = 0;
  journal_rotations_total = 0;
}

unfoldable pub inc_connections : Metrics → Metrics
unfolding inc_u64
inc_connections m = record m { connections = inc_u64 m.connections }

unfoldable pub inc_frames_in : Metrics → Metrics
unfolding inc_u64
inc_frames_in m = record m { frames_in = inc_u64 m.frames_in }

unfoldable pub inc_frames_out : Metrics → Metrics
unfolding inc_u64
inc_frames_out m = record m { frames_out = inc_u64 m.frames_out }

unfoldable pub inc_fills : Metrics → Metrics
unfolding inc_u64
inc_fills m = record m { fills_total = inc_u64 m.fills_total }

unfoldable pub inc_rejects : Metrics → Metrics
unfolding inc_u64
inc_rejects m = record m { rejects_total = inc_u64 m.rejects_total }

unfoldable pub queue_inc : Metrics → Metrics
unfolding add_i64
queue_inc m = record m { engine_in_queue_depth = add_i64 m.engine_in_queue_depth (pos 1) }

unfoldable pub queue_dec : Metrics → Metrics
unfolding sub_i64
queue_dec m = record m { engine_in_queue_depth = sub_i64 m.engine_in_queue_depth (pos 1) }

unfoldable pub inc_journal_appends : Metrics → Metrics
unfolding inc_u64
inc_journal_appends m = record m { journal_appends_total = inc_u64 m.journal_appends_total }

unfoldable pub inc_journal_flushes : Metrics → Metrics
unfolding inc_u64
inc_journal_flushes m = record m { journal_flushes_total = inc_u64 m.journal_flushes_total }

unfoldable pub inc_journal_errors : Metrics → Metrics
unfolding inc_u64
inc_journal_errors m = record m { journal_errors_total = inc_u64 m.journal_errors_total }

unfoldable pub inc_snapshots : Metrics → Metrics
unfolding inc_u64
inc_snapshots m = record m { snapshots_total = inc_u64 m.snapshots_total }

unfoldable pub inc_journal_rotations : Metrics → Metrics
unfolding inc_u64
inc_journal_rotations m = record m { journal_rotations_total = inc_u64 m.journal_rotations_total }

-- The bytes of an ASCII text.
abbrev pub codes : String → List ℕ
codes String.[] = []
codes (String.◌∷◌ c s) = code c ∷ codes s

-- `{}` of a `u64`, which has at most twenty digits.
unfoldable pub decimal : ℕ → List ℕ
unfolding digits_from
decimal n = digits_from 19 1 n

-- `{}` of an `i64`.
unfoldable pub decimal_i64 : ℤ → List ℕ
unfolding decimal
decimal_i64 (pos n) = decimal n
decimal_i64 (negsuc n) = b'-' ∷ decimal (n + 1)

-- The end of a line and the indentation of the next one, which stands in the literal.
abbrev pub next_line : List ℕ
next_line = b'\n' ∷ codes "            "

-- A line with its name and its number.
unfoldable pub line : String → List ℕ → List ℕ
line name number = codes name ++ number ++ next_line

unfoldable pub render_prom_text : Metrics → List ℕ
unfolding line decimal decimal_i64
render_prom_text m =
    line "exchange_connections " (decimal m.connections)
    ++ line "exchange_frames_in " (decimal m.frames_in)
    ++ line "exchange_frames_out " (decimal m.frames_out)
    ++ line "exchange_fills_total " (decimal m.fills_total)
    ++ line "exchange_rejects_total " (decimal m.rejects_total)
    ++ line "exchange_engine_in_queue_depth " (decimal_i64 m.engine_in_queue_depth)
    ++ line "exchange_journal_appends_total " (decimal m.journal_appends_total)
    ++ line "exchange_journal_flushes_total " (decimal m.journal_flushes_total)
    ++ line "exchange_journal_errors_total " (decimal m.journal_errors_total)
    ++ line "exchange_snapshots_total " (decimal m.snapshots_total)
    ++ line "exchange_journal_rotations_total " (decimal m.journal_rotations_total)

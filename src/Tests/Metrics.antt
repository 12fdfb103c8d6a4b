-- ===== src/Tests/Metrics.antt =====
-- Counters that move, and the text of them.
use high_perf_trading.Base.{negsuc, ◌≡◌, refl, ◌++◌}
use high_perf_trading.Metrics.{
  Metrics, no_metrics, inc_fills, inc_frames_in, decimal, decimal_i64, codes, line, next_line,
}

-- Counters wrap around at 64 bits only.
counted : Metrics
unfolding no_metrics inc_fills inc_frames_in
counted = inc_fills (inc_frames_in (inc_fills no_metrics))

counted_fills : counted.fills_total ≡ 2
unfolding counted no_metrics inc_fills inc_frames_in
counted_fills = refl

negative_text : decimal_i64 (negsuc 11) ≡ codes "-12"
unfolding decimal decimal_i64
negative_text = refl

line_text :
    line "exchange_fills_total " (decimal counted.fills_total)
    ≡ codes "exchange_fills_total 2" ++ next_line
unfolding counted no_metrics inc_fills inc_frames_in line decimal
line_text = refl

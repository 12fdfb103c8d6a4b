-- ===== src/Tests/Codec.antt =====
-- Runs of the binary codec of crates/codecs/src/binary.rs.
use high_perf_trading.Base.{Bool, true, ◌≡◌, pos, negsuc, arith}
use high_perf_trading.Types.{Command, new_order, sell, ioc, Text}
use high_perf_trading.Codec.Buffer.Sample.{sample_buffer}
use high_perf_trading.Codec.Binary.{ok}
use high_perf_trading.Codec.Decode.{decode_command}
use high_perf_trading.Codec.RoundTrip.{encode_command, decode_command-encode_command}

abbrev any_text : Text → Bool
any_text s = true

abbrev command : Command
command = new_order (record {
  client_seq = 7;
  order_id = 300;
  account_id = 2;
  symbol_id = 1;
  side = sell;
  price = negsuc 4;
  qty = pos 1_000;
  tif = ioc;
  flags = record { post_only = true };
})

decode_command-encode_command_example :
    decode_command any_text (encode_command command) ≡ ok command
decode_command-encode_command_example = decode_command-encode_command any_text command (omega arith)

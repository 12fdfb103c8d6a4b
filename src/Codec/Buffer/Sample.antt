-- ===== src/Codec/Buffer/Sample.antt =====
-- Buffers that keep what the interface promises: the bytes of a number from the lowest up, and an integer
-- as its 64 bits.
use high_perf_trading.Base.{ℤ, pos, negsuc, ◌^◌, ◌<◌, ◌≡◌, ap, arith}
use high_perf_trading.Base.Bytes.{put_le, get_le, limit, length-put_le, get-put_le}
use high_perf_trading.Base.Word.{IsI64, bits_i64, signed_u64}
use high_perf_trading.Codec.Buffer.{BufferApi}

signed-bits : (x : ℤ) → IsI64 x → signed_u64 (bits_i64 x) ≡ x
signed-bits (pos n) h = ground arith
signed-bits (negsuc n) h = ground arith

bits_fit : (x : ℤ) → bits_i64 x < 2 ^ 64
bits_fit (pos n) = omega arith
bits_fit (negsuc n) = omega arith

instance pub sample_buffer : BufferApi
unfolding limit
sample_buffer = record {
  put_u8 = put_le 1;
  put_u16_le = put_le 2;
  put_u32_le = put_le 4;
  put_u64_le = put_le 8;
  put_i64_le = λ x. put_le 8 (bits_i64 x);
  get_u8 = get_le 1;
  get_u16_le = get_le 2;
  get_u32_le = get_le 4;
  get_u64_le = get_le 8;
  get_i64_le = λ b. let (n, rest) = get_le 8 b in (signed_u64 n, rest);
  length-put_u8 = length-put_le 1;
  length-put_u16_le = length-put_le 2;
  length-put_u32_le = length-put_le 4;
  length-put_u64_le = length-put_le 8;
  length-put_i64_le = λ x. length-put_le 8 (bits_i64 x);
  get-put_u8 = get-put_le 1;
  get-put_u16_le = get-put_le 2;
  get-put_u32_le = get-put_le 4;
  get-put_u64_le = get-put_le 8;
  get-put_i64_le = λ x rest h.
      rw (get-put_le 8 (bits_i64 x) rest (bits_fit x)) (ap (λ v. (v, rest)) (signed-bits x h));
}

-- ===== src/Codec/Buffer.antt =====
-- The byte buffers of the crate `bytes`, as an interface: what crates/codecs/src/binary.rs writes and reads
-- through them. A byte is a number below 256, and a buffer the list of those not yet read.
pub mod Sample
use high_perf_trading.Base.{ℕ, ℤ, List, ◌++◌, ◌<◌, ◌^◌, ◌≡◌, length}
use high_perf_trading.Base.Word.{IsI64}

pub record BufferApi : Type 0 where
  pub put_u8 : ℕ → List ℕ
  pub put_u16_le : ℕ → List ℕ
  pub put_u32_le : ℕ → List ℕ
  pub put_u64_le : ℕ → List ℕ
  pub put_i64_le : ℤ → List ℕ
  -- The value, and what is left. Only called where enough bytes remain.
  pub get_u8 : List ℕ → ℕ × List ℕ
  pub get_u16_le : List ℕ → ℕ × List ℕ
  pub get_u32_le : List ℕ → ℕ × List ℕ
  pub get_u64_le : List ℕ → ℕ × List ℕ
  pub get_i64_le : List ℕ → ℤ × List ℕ
  pub length-put_u8 : (n : ℕ) → length (put_u8 n) ≡ 1
  pub length-put_u16_le : (n : ℕ) → length (put_u16_le n) ≡ 2
  pub length-put_u32_le : (n : ℕ) → length (put_u32_le n) ≡ 4
  pub length-put_u64_le : (n : ℕ) → length (put_u64_le n) ≡ 8
  pub length-put_i64_le : (x : ℤ) → length (put_i64_le x) ≡ 8
  pub get-put_u8 : (n : ℕ) (rest : List ℕ) → n < 2 ^ 8 → get_u8 (put_u8 n ++ rest) ≡ (n, rest)
  pub get-put_u16_le :
      (n : ℕ) (rest : List ℕ) → n < 2 ^ 16 → get_u16_le (put_u16_le n ++ rest) ≡ (n, rest)
  pub get-put_u32_le :
      (n : ℕ) (rest : List ℕ) → n < 2 ^ 32 → get_u32_le (put_u32_le n ++ rest) ≡ (n, rest)
  pub get-put_u64_le :
      (n : ℕ) (rest : List ℕ) → n < 2 ^ 64 → get_u64_le (put_u64_le n ++ rest) ≡ (n, rest)
  pub get-put_i64_le :
      (x : ℤ) (rest : List ℕ) → IsI64 x → get_i64_le (put_i64_le x ++ rest) ≡ (x, rest)

-- ===== src/Journal/Postcard.antt =====
-- The serializer of the crate `postcard` and the checksum of the crate `crc32fast`, as interfaces.
use high_perf_trading.Base.{ℕ, Option, some, List, ◌≡◌, ◌<◌, ◌^◌}

pub record PostcardApi (A : Type 0) : Type 0 where
  pub to_bytes : A → Option (List ℕ)
  pub from_bytes : List ℕ → Option A
  -- What was serialized is read back.
  pub from-to : (a : A) (bytes : List ℕ) → to_bytes a ≡ some bytes → from_bytes bytes ≡ some a

pub record CrcApi : Type 0 where
  pub crc32 : List ℕ → ℕ
  pub crc32-IsU32 : (bytes : List ℕ) → crc32 bytes < 2 ^ 32

-- ===== src/Journal/File.antt =====
-- A file opened for appending (`std::fs::File`), as an interface. Each call returns the file after it, and
-- whether it succeeded; a write that fails may leave a part of its bytes.
use high_perf_trading.Base.{ℕ, Bool, true, List, [], ◌++◌, ◌≡◌}

pub record FileApi : Type 1 where
  pub File : Type 0
  -- What a reader finds from the start of the file on.
  pub contents : File → List ℕ
  -- A file that `open` creates.
  pub empty : File
  pub write_all : File → List ℕ → File × Bool
  pub sync_data : File → File × Bool
  pub contents-empty : contents empty ≡ []
  pub contents-write_all :
      (f : File) (bytes : List ℕ)
      → (write_all f bytes).1 ≡ true
      → contents (write_all f bytes).0 ≡ contents f ++ bytes
  pub contents-sync_data : (f : File) → contents (sync_data f).0 ≡ contents f

-- ===== src/Gateway/DashMap.antt =====
-- The concurrent map of the accounts (the crate `dashmap`), as an interface. A call holds the lock of its
-- entry, so each operation of the account manager is one step; a write through `get_mut` is an insert.
pub mod Sample
use high_perf_trading.Base.{ℕ, Option, none, some, List, ◌≡◌, ◌==◌, if◌then◌else◌}

pub record DashMapApi (V : Type 0) : Type 1 where
  pub Map : Type 0
  pub empty : Map
  pub get : Map → ℕ → Option V
  pub insert : Map → ℕ → V → Map
  pub entries : Map → List (ℕ × V)
  pub get-empty : (k : ℕ) → get empty k ≡ none
  pub get-insert :
      (m : Map) (j : ℕ) (v : V) (k : ℕ)
      → get (insert m j v) k ≡ (if j == k then some v else get m k)

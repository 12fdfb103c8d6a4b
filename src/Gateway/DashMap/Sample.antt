-- ===== src/Gateway/DashMap/Sample.antt =====
-- A map that keeps what the interface promises: a list of entries.
use high_perf_trading.Base.{ℕ, none, [], ◌≡◌, refl}
use high_perf_trading.Base.HashMap.{HashMap}
use high_perf_trading.Base.HashMap
use high_perf_trading.Gateway.DashMap.{DashMapApi}

get-empty : {V : Type 0} (k : ℕ) → HashMap.get {V = V} k [] ≡ none
unfolding HashMap.get
get-empty k = refl

instance unfoldable pub sample_map : {V : Type 0} → DashMapApi V
unfolding get-empty
sample_map {V = V} = record {
  Map = HashMap V;
  empty = [];
  get = λ m k. HashMap.get k m;
  insert = λ m k v. HashMap.insert k v m;
  entries = λ m. m;
  get-empty = get-empty;
  get-insert = λ m j v k. HashMap.get-insert j k v m;
}

-- ===== src/Tests/Snapshots.antt =====
-- Runs of the directories of snapshots, in crates/persistence/src/lib.rs.
use high_perf_trading.Base.{ℕ, ◌≤◌, true, none, some, [], ◌∷◌, ◌≡◌, refl, arith}
use high_perf_trading.Journal.Sample.{sample_crc}
use high_perf_trading.Journal.Directory.{Directory, file_name, snapshots, write_file}
use high_perf_trading.Journal.Directory.Written.{Numbered}
use high_perf_trading.Engine.Snapshot.{Snapshot}
use high_perf_trading.Engine.Snapshot.Directory.{
  whole, cut, snapshot_prefix, save, load_latest, cleanup_old, load_latest-save,
}

abbrev snapshot : ℕ → Snapshot
snapshot n = record { sequence = n; «data» = 7 ∷ 8 ∷ 9 ∷ [] }

-- Two snapshots, and a file that is none.
abbrev files : Directory
files = (save whole (snapshot 20) (save whole (snapshot 100) ((120 ∷ [], []) ∷ [])).1).1

test_load_latest : load_latest files ≡ some (some (snapshot 100))
unfolding load_latest save sample_crc
test_load_latest = refl

test_cleanup_old :
    cleanup_old (λ name. true) 1 files ≡ (1, (save whole (snapshot 100) ((120 ∷ [], []) ∷ [])).1)
unfolding cleanup_old save sample_crc
test_cleanup_old = refl

files-Numbered : Numbered snapshot_prefix (λ k. k ≤ 300) (snapshots snapshot_prefix files)
unfolding save sample_crc snapshots write_file file_name
files-Numbered = ((100, refl, omega arith), ((20, refl, omega arith), tt))

load_latest-save_example :
    (load_latest (save whole (snapshot 300) files).1 ≡ some (some (snapshot 300)))
    × (load_latest (save (cut 14) (snapshot 300) files).1 ≡ none)
load_latest-save_example =
    load_latest-save (snapshot 300) 14 files (omega arith) (omega arith) (omega arith)
      files-Numbered

-- ===== src/Gateway/Snapshots.antt =====
-- The directory of the gateway's account snapshots: `save`, `load_from_file`, `load_latest` and
-- `cleanup_old` of crates/gateway_server/src/persistence.rs. A file has the bytes that the engine's have,
-- with the serialized snapshot as its data.
use high_perf_trading.Base.{
  ℕ, ◌≤◌, ◌<◌, ◌^◌, Bool, true, false, Option, none, some, List, [], ◌∷◌, length, ◌>>=◌, ◌≡◌, refl,
  ap, ◌∙◌, arith,
}
use high_perf_trading.Journal.Postcard.{PostcardApi, CrcApi}
use high_perf_trading.Journal.Directory.{Name, Directory, file_name, snapshots, latest, cleanup}
use high_perf_trading.Journal.Directory.Written.{Numbered, latest-write_file}
use high_perf_trading.Engine.Snapshot.File.{snapshot_bytes, load_from_file-snapshot_bytes}
use high_perf_trading.Engine.Snapshot.File
use high_perf_trading.Engine.Snapshot.Directory.{Outcome, whole, snapshot_prefix, write_outcome}
use high_perf_trading.Gateway.Manager.{AccountSnapshot}

-- "account_snapshot_"
abbrev pub account_prefix : Name
account_prefix = b'a' ∷ b'c' ∷ b'c' ∷ b'o' ∷ b'u' ∷ b'n' ∷ b't' ∷ b'_' ∷ snapshot_prefix

module _ ⦃crc : CrcApi⦄ ⦃bytes : PostcardApi AccountSnapshot⦄ where
  -- The file is created before the snapshot is serialized, so that an error of the serializer leaves an
  -- empty one.
  unfoldable pub save : Outcome → AccountSnapshot → Directory → Bool × Directory
  unfolding write_outcome file_name snapshot_bytes
  save outcome s d = elim (bytes.to_bytes s) [
    | none ↦ (false, (write_outcome whole (file_name account_prefix s.sequence) [] d).1)
    | some payload ↦
        write_outcome outcome (file_name account_prefix s.sequence)
          (snapshot_bytes (record { sequence = s.sequence; «data» = payload })) d
  ]

  -- The snapshot comes out of the data alone; the number in front is only logged.
  unfoldable pub load_from_file : List ℕ → Option AccountSnapshot
  unfolding File.load_from_file
  load_from_file b = File.load_from_file b >>= λ s. bytes.from_bytes s.«data»

  abbrev pub load_found : Option (Name × List ℕ) → Option (Option AccountSnapshot)
  load_found none = some none
  load_found (some (name, b)) = load_from_file b >>= λ s. some (some s)

  unfoldable pub load_latest : Directory → Option (Option AccountSnapshot)
  unfolding latest load_from_file
  load_latest d = load_found (latest account_prefix d)

  unfoldable pub cleanup_old : (Name → Bool) → ℕ → Directory → ℕ × Directory
  unfolding cleanup
  cleanup_old removes keep d = cleanup account_prefix removes keep d

  -- Where the snapshot files of a directory have numbers up to that of a snapshot, which is below
  -- 10 ^ 12, and the snapshot is serialized to fewer than 2 ^ 32 bytes: once it is saved whole, it is the one
  -- that `load_latest` returns.
  pub load_latest-save_accounts :
      (s : AccountSnapshot) (payload : List ℕ) (d : Directory)
      → s.sequence < 10 ^ 12
      → bytes.to_bytes s ≡ some payload
      → length payload < 2 ^ 32
      → Numbered account_prefix (λ k. k ≤ s.sequence) (snapshots account_prefix d)
      → (save whole s d).0 ≡ true × load_latest (save whole s d).1 ≡ some (some s)
  unfolding save load_latest write_outcome
  load_latest-save_accounts s payload d small ok short h =
      rw (ok, save)
        (
          refl,
          ap load_found (latest-write_file account_prefix s.sequence _ d small h)
              ∙ ap found (
                  ap (λ r. r >>= λ x. bytes.from_bytes x.«data»)
                    (load_from_file-snapshot_bytes
                      (record { sequence = s.sequence; «data» = payload }) (omega arith) short).0
                  ∙ bytes.from-to s payload ok),
        )
    where
      found : Option AccountSnapshot → Option (Option AccountSnapshot)
      found r = r >>= λ x. some (some x)

-- ===== src/Engine/Snapshot/Directory.antt =====
-- The directory of the engine's snapshots: `save`, `load_latest` and `cleanup_old` of
-- crates/persistence/src/lib.rs.
use high_perf_trading.Base.{
  ℕ, zero, suc, ◌+◌, ◌-◌, ◌<◌, ◌≤◌, ◌^◌, ◌%◌, Bool, true, false, Option, none, some, List, [], ◌∷◌,
  ◌++◌, length, ◌>>=◌, ltb, ◌≡◌, ap, sym, ◌∙◌, inl, inr, ◌⊎◌, arith, Bool-cases,
}
use high_perf_trading.Base.Bytes.{put_le, get_le, length-put_le}
use high_perf_trading.Journal.Postcard.{CrcApi}
use high_perf_trading.Journal.Frames.Reading.{read_exact_short}
use high_perf_trading.Journal.Directory.{
  Name, Directory, file_name, snapshots, write_file, latest, cleanup,
}
use high_perf_trading.Journal.Directory.Written.{Numbered, latest-write_file}
use high_perf_trading.Engine.Snapshot.{Snapshot}
use high_perf_trading.Engine.Snapshot.File.{
  snapshot_bytes, load_from_file, load_sequence, load_length, load_data, headers,
  load_from_file-snapshot_bytes,
}

-- "snapshot_"
abbrev pub snapshot_prefix : Name
snapshot_prefix = b's' ∷ b'n' ∷ b'a' ∷ b'p' ∷ b's' ∷ b'h' ∷ b'o' ∷ b't' ∷ b'_' ∷ []

-- How far a write gets: to its end, or through so many bytes, or not even to a file.
pub data Outcome : Type 0 where
  whole : Outcome
  cut : ℕ → Outcome
  uncreated : Outcome

unfoldable pub first_bytes : ℕ → List ℕ → List ℕ
first_bytes zero b = []
first_bytes (suc n) [] = []
first_bytes (suc n) (x ∷ b) = x ∷ first_bytes n b

-- A write of a new file that gets so far, and whether it is an error.
unfoldable pub write_outcome : Outcome → Name → List ℕ → Directory → Bool × Directory
unfolding write_file first_bytes
write_outcome whole name bytes d = (true, write_file name bytes d)
write_outcome (cut n) name bytes d = (false, write_file name (first_bytes n bytes) d)
write_outcome uncreated name bytes d = (false, d)

length-first_bytes : (n : ℕ) (b : List ℕ) → length (first_bytes n b) ≤ n
unfolding first_bytes
length-first_bytes zero b = omega arith
length-first_bytes (suc n) [] = omega arith
length-first_bytes (suc n) (x ∷ b) = omega (arith, length-first_bytes n b)

first_bytes-append :
    (p b : List ℕ) (n : ℕ) → first_bytes (length p + n) (p ++ b) ≡ p ++ first_bytes n b
unfolding first_bytes
first_bytes-append [] b n = let e : 0 + n ≡ n = omega arith in ap (λ k. first_bytes k b) e
first_bytes-append (x ∷ p) b n =
    let e : length (x ∷ p) + n ≡ suc (length p + n) = omega arith in
    ap (λ k. first_bytes k (x ∷ p ++ b)) e ∙ ap (λ l. x ∷ l) (first_bytes-append p b n)

module _ ⦃crc : CrcApi⦄ where
  unfoldable pub save : Outcome → Snapshot → Directory → Bool × Directory
  unfolding write_outcome file_name snapshot_bytes
  save outcome s d =
      write_outcome outcome (file_name snapshot_prefix s.sequence) (snapshot_bytes s) d

  abbrev pub load_found : Option (Name × List ℕ) → Option (Option Snapshot)
  load_found none = some none
  load_found (some (name, bytes)) = load_from_file bytes >>= λ s. some (some s)

  -- `none` is an error; no directory is one without files.
  unfoldable pub load_latest : Directory → Option (Option Snapshot)
  unfolding latest load_from_file
  load_latest d = load_found (latest snapshot_prefix d)

  unfoldable pub cleanup_old : (Name → Bool) → ℕ → Directory → ℕ × Directory
  unfolding cleanup
  cleanup_old removes keep d = cleanup snapshot_prefix removes keep d

  no_number : (b : List ℕ) → length b < 8 → load_from_file b ≡ none
  unfolding load_from_file
  no_number b h = ap load_sequence (read_exact_short 8 b h)

  no_length :
      (sequence : ℕ) (b : List ℕ) → length b < 4 → load_from_file (put_le 8 sequence ++ b) ≡ none
  unfolding load_from_file put_le
  no_length sequence b h =
      ap (load_length (get_le 8 (put_le 8 sequence)).0) (read_exact_short 4 b h)

  no_data :
      (sequence n : ℕ) (b : List ℕ)
      → sequence < 2 ^ 64
      → n < 2 ^ 32
      → length b < n
      → load_from_file (put_le 8 sequence ++ (put_le 4 (n % 2 ^ 32) ++ b)) ≡ none
  no_data sequence n b hs hn short =
      headers sequence n b hs hn ∙ ap (load_data sequence) (read_exact_short n b short)

  -- A file that ends within the number, the length or the data is an error.
  load_from_file-first_bytes :
      (s : Snapshot) (n : ℕ)
      → s.sequence < 2 ^ 64
      → length s.«data» < 2 ^ 32
      → n < 12 + length s.«data»
      → load_from_file (first_bytes n (snapshot_bytes s)) ≡ none
  unfolding snapshot_bytes
  load_from_file-first_bytes s n hs hl short = elim (less_or n 8) [
    | inl less ↦ no_number _ (omega (arith, length-first_bytes n (snapshot_bytes s)))
    | inr (k, e) ↦
        ap (λ x. load_from_file (first_bytes x (snapshot_bytes s)))
          (e ∙ ap (λ l. l + k) (sym (length-put_le 8 s.sequence)))
        ∙ ap load_from_file (first_bytes-append (put_le 8 s.sequence) _ k)
        ∙ elim (less_or k 4) [
          | inl less ↦ no_length s.sequence _ (omega (arith, length-first_bytes k tail))
          | inr (m, f) ↦
              ap (λ x. load_from_file (put_le 8 s.sequence ++ first_bytes x tail))
                (f ∙ ap (λ l. l + m) (sym (length-put_le 4 (length s.«data» % 2 ^ 32))))
              ∙ ap (λ x. load_from_file (put_le 8 s.sequence ++ x))
                  (first_bytes-append (put_le 4 (length s.«data» % 2 ^ 32)) _ m)
              ∙ no_data s.sequence (length s.«data») _ hs hl
                  (omega (arith, length-first_bytes m (s.«data» ++ put_le 4 (crc.crc32 s.«data»))))
        ]
  ]
    where
      tail : List ℕ
      tail = put_le 4 (length s.«data» % 2 ^ 32) ++ (s.«data» ++ put_le 4 (crc.crc32 s.«data»))

      less_or : (a b : ℕ) → (a < b) ⊎ ((k : ℕ) × (a ≡ b + k))
      less_or a b = elim (Bool-cases (ltb a b)) [
        | inl h ↦ inl (ground arith)
        | inr h ↦ inr (a - b, ground arith)
      ]

  -- Where the snapshot files of a directory have numbers up to that of a snapshot, which is below
  -- 10 ^ 12, of fewer than 2 ^ 32 bytes: once it is saved whole, it is the one that `load_latest` returns; if
  -- its file ends within the number, the length or the data, `load_latest` is an error, whatever whole
  -- snapshots the directory has.
  pub load_latest-save :
      (s : Snapshot) (n : ℕ) (d : Directory)
      → s.sequence < 10 ^ 12
      → length s.«data» < 2 ^ 32
      → n < 12 + length s.«data»
      → Numbered snapshot_prefix (λ k. k ≤ s.sequence) (snapshots snapshot_prefix d)
      → (load_latest (save whole s d).1 ≡ some (some s)) × (load_latest (save (cut n) s d).1 ≡ none)
  unfolding save load_latest write_outcome
  load_latest-save s n d small hl short h = (
    ap load_found (latest-write_file snapshot_prefix s.sequence (snapshot_bytes s) d small h)
        ∙ ap found (load_from_file-snapshot_bytes s (omega arith) hl).0,
    ap load_found (
          latest-write_file snapshot_prefix s.sequence (first_bytes n (snapshot_bytes s)) d small h)
        ∙ ap found (load_from_file-first_bytes s n (omega arith) hl short),
  )
    where
      found : Option Snapshot → Option (Option Snapshot)
      found r = r >>= λ s. some (some s)

-- ===== src/Engine/Snapshot/File.antt =====
-- The file of a snapshot: `Snapshot::save` and `Snapshot::load_from_file` of crates/persistence/src/lib.rs.
use high_perf_trading.Base.{
  ℕ, Option, none, some, List, [], ◌++◌, ◌%◌, ◌^◌, ◌<◌, ◌≡◌, refl, sym, ap, ◌∙◌, ◌==◌, ==_refl,
  if◌then◌else◌, length, arith,
}
use mathlib.Core.List.{append-nil}
use high_perf_trading.Base.Bytes.{put_le, get_le, limit, get-put_le}
use high_perf_trading.Journal.Postcard.{CrcApi}
use high_perf_trading.Journal.Frames.{read_exact}
use high_perf_trading.Journal.Frames.Reading.{read_exact-append}
use high_perf_trading.Engine.Snapshot.{Snapshot}

module _ ⦃crc : CrcApi⦄ where
  -- `[u64 sequence][u32 len][data][u32 crc32]`; `len as u32` drops the higher bits.
  unfoldable pub snapshot_bytes : Snapshot → List ℕ
  unfolding put_le
  snapshot_bytes s =
      put_le 8 s.sequence
      ++ (put_le 4 (length s.«data» % 2 ^ 32) ++ (s.«data» ++ put_le 4 (crc.crc32 s.«data»)))

  -- A missing checksum is accepted; a wrong one is an error, which `none` stands for.
  abbrev pub check_sum : ℕ → List ℕ → Option (List ℕ × List ℕ) → Option Snapshot
  check_sum sequence bytes none = some (record { sequence = sequence; «data» = bytes })
  check_sum sequence bytes (some (sum, rest)) =
      if crc.crc32 bytes == (get_le 4 sum).0
      then some (record { sequence = sequence; «data» = bytes })
      else none

  abbrev pub load_data : ℕ → Option (List ℕ × List ℕ) → Option Snapshot
  load_data sequence none = none
  load_data sequence (some (bytes, rest)) = check_sum sequence bytes (read_exact 4 rest)

  abbrev pub load_length : ℕ → Option (List ℕ × List ℕ) → Option Snapshot
  load_length sequence none = none
  load_length sequence (some (len, rest)) = load_data sequence (read_exact (get_le 4 len).0 rest)

  abbrev pub load_sequence : Option (List ℕ × List ℕ) → Option Snapshot
  load_sequence none = none
  load_sequence (some (seq, rest)) = load_length (get_le 8 seq).0 (read_exact 4 rest)

  unfoldable pub load_from_file : List ℕ → Option Snapshot
  unfolding read_exact get_le
  load_from_file bytes = load_sequence (read_exact 8 bytes)

  value-put_le : (width n : ℕ) → n < limit width → (get_le width (put_le width n)).0 ≡ n
  value-put_le width n h =
      ap (λ b. (get_le width b).0) (sym (append-nil (put_le width n)))
      ∙ ap (λ r. r.0) (get-put_le width n [] h)

  small_length : (n : ℕ) → n < 2 ^ 32 → (get_le 4 (put_le 4 (n % 2 ^ 32))).0 ≡ n
  unfolding limit
  small_length n h = value-put_le 4 (n % 2 ^ 32) (omega arith) ∙ omega arith

  -- Both headers are read, whatever follows them.
  pub headers :
      (sequence n : ℕ) (tail : List ℕ)
      → sequence < 2 ^ 64
      → n < 2 ^ 32
      → load_from_file (put_le 8 sequence ++ (put_le 4 (n % 2 ^ 32) ++ tail))
        ≡ load_data sequence (read_exact n tail)
  unfolding load_from_file put_le limit
  headers sequence n tail hs hn =
      ap (λ k. load_data k (read_exact (get_le 4 (put_le 4 (n % 2 ^ 32))).0 tail))
        (value-put_le 8 sequence hs)
      ∙ ap (λ k. load_data sequence (read_exact k tail)) (small_length n hn)

  whole : (x : ℕ) → read_exact 4 (put_le 4 x) ≡ some (put_le 4 x, [])
  unfolding read_exact put_le
  whole x = refl

  good_sum :
      (sequence : ℕ) (bytes : List ℕ)
      → check_sum sequence bytes (read_exact 4 (put_le 4 (crc.crc32 bytes)))
        ≡ some (record { sequence = sequence; «data» = bytes })
  unfolding limit
  good_sum sequence bytes =
      rw
        (
          whole (crc.crc32 bytes),
          value-put_le 4 (crc.crc32 bytes) (omega (arith, crc.crc32-IsU32 bytes)),
          ==_refl (crc.crc32 bytes),
        )
        refl

  no_sum :
      (sequence : ℕ) (bytes : List ℕ)
      → check_sum sequence bytes (read_exact 4 [])
        ≡ some (record { sequence = sequence; «data» = bytes })
  unfolding read_exact
  no_sum sequence bytes = refl

  -- A saved snapshot, of a 64-bit sequence and fewer than 2 ^ 32 bytes, is loaded as it was; with its
  -- checksum cut off it is still accepted.
  pub load_from_file-snapshot_bytes :
      (s : Snapshot)
      → s.sequence < 2 ^ 64
      → length s.«data» < 2 ^ 32
      → (load_from_file (snapshot_bytes s) ≡ some s)
        × (load_from_file (put_le 8 s.sequence ++ (put_le 4 (length s.«data» % 2 ^ 32) ++ s.«data»))
            ≡ some s)
  unfolding snapshot_bytes
  load_from_file-snapshot_bytes s hs hl = (
    headers s.sequence (length s.«data») _ hs hl
        ∙ ap (load_data s.sequence) (read_exact-append s.«data» (put_le 4 (crc.crc32 s.«data»)))
        ∙ good_sum s.sequence s.«data»,
    headers s.sequence (length s.«data») s.«data» hs hl
        ∙ ap (load_data s.sequence) (
            ap (read_exact (length s.«data»)) (sym (append-nil s.«data»))
            ∙ read_exact-append s.«data» [])
        ∙ no_sum s.sequence s.«data»,
  )

-- ===== src/Journal/Log.antt =====
-- The journal of crates/persistence/src/lib.rs: a batch of commands before the file, and its counters. A
-- method returns the journal after it, and whether it succeeded. `elapsed` says whether the time since the
-- last sync has reached the interval.
pub mod Order
pub mod Success
use high_perf_trading.Base.{
  ℕ, zero, suc, Bool, true, false, Option, none, some, List, [], ◌∷◌, ◌++◌, ◌||◌, ◌&&◌, not,
  if◌then◌else◌, ltb, leb, length,
}
use high_perf_trading.Base.Word.{inc_u64}
use high_perf_trading.Journal.Postcard.{PostcardApi, CrcApi}
use high_perf_trading.Journal.File.{FileApi}
use high_perf_trading.Journal.Frames.{frame_parts, read_all, Read}

-- `JournalConfig`; the interval is looked at in `elapsed` only.
pub record JournalConfig : Type 0 where
  pub batch_size : ℕ
  pub rotation_threshold : ℕ

-- `JournalConfig::default`.
unfoldable pub default_config : JournalConfig
default_config = record { batch_size = 100; rotation_threshold = 1_000_000 }

pub record JournalStats : Type 0 where
  pub commands_written : ℕ
  pub commands_since_rotation : ℕ
  pub pending_batch_size : ℕ

pub record Journal (A : Type 0) ⦃fs : FileApi⦄ : Type 0 where
  pub file : fs.File
  pub batch_buffer : List A
  pub batch_size : ℕ
  pub commands_written : ℕ
  pub commands_since_rotation : ℕ
  pub rotation_threshold : ℕ

module _ {A : Type 0} ⦃fs : FileApi⦄ where
  -- `open_with_config`, once the file is open.
  unfoldable pub open_with_config : fs.File → JournalConfig → Journal A
  open_with_config file config = record {
    file = file;
    batch_buffer = [];
    batch_size = config.batch_size;
    commands_written = 0;
    commands_since_rotation = 0;
    rotation_threshold = config.rotation_threshold;
  }

  unfoldable pub should_rotate : Journal A → Bool
  should_rotate j = ltb 0 j.rotation_threshold && leb j.rotation_threshold j.commands_since_rotation

  unfoldable pub stats : Journal A → JournalStats
  stats j = record {
    commands_written = j.commands_written;
    commands_since_rotation = j.commands_since_rotation;
    pending_batch_size = length j.batch_buffer;
  }

  abbrev pub count : Journal A → fs.File → Journal A
  count j f = record j {
    file = f;
    commands_written = inc_u64 j.commands_written;
    commands_since_rotation = inc_u64 j.commands_since_rotation;
  }

  abbrev pub if_written :
      Journal A → (fs.File → Journal A × Bool) → fs.File × Bool → Journal A × Bool
  if_written j go (f, false) = (record j { file = f }, false)
  if_written j go (f, true) = go f

  abbrev pub sync : Journal A × Bool → Journal A × Bool
  sync (j, false) = (j, false)
  sync (j, true) = let (f, synced) = fs.sync_data j.file in (record j { file = f }, synced)

module _ ⦃crc : CrcApi⦄ ⦃fs : FileApi⦄ where
  abbrev pub then_write : List ℕ → fs.File × Bool → fs.File × Bool
  then_write bytes (f, true) = fs.write_all f bytes
  then_write bytes (f, false) = (f, false)

  abbrev pub write_payload : fs.File → List ℕ → fs.File × Bool
  write_payload f payload =
      let (len, body, sum) = frame_parts payload in
      then_write sum (then_write body (fs.write_all f len))

  -- A command that cannot be serialized leaves the file alone.
  abbrev pub write_serialized : fs.File → Option (List ℕ) → fs.File × Bool
  write_serialized f none = (f, false)
  write_serialized f (some payload) = write_payload f payload

module _ {A : Type 0} ⦃postcard : PostcardApi A⦄ ⦃crc : CrcApi⦄ ⦃fs : FileApi⦄ where
  unfoldable pub write_frame : fs.File → A → fs.File × Bool
  unfolding frame_parts
  write_frame f cmd = write_serialized f (postcard.to_bytes cmd)

  -- The first failure ends the loop over the drained batch.
  unfoldable pub write_frames : Journal A → List A → Journal A × Bool
  unfolding write_frame
  write_frames j [] = (j, true)
  write_frames j (cmd ∷ cmds) =
      if_written j (λ f. write_frames (count j f) cmds) (write_frame j.file cmd)

  abbrev pub flush_batch : Journal A → List A → Journal A × Bool
  flush_batch j [] = (j, true)
  flush_batch j (cmd ∷ cmds) = sync (write_frames (record j { batch_buffer = [] }) (cmd ∷ cmds))

  unfoldable pub flush : Journal A → Journal A × Bool
  unfolding write_frames
  flush j = flush_batch j j.batch_buffer

  unfoldable pub append : Bool → Journal A → A → Journal A × Bool
  unfolding flush
  append elapsed j cmd =
      let j' = record j { batch_buffer = j.batch_buffer ++ cmd ∷ [] } in
      if leb j'.batch_size (length j'.batch_buffer) || elapsed then flush j' else (j', true)

  abbrev pub move_on : Bool → Journal A × Bool → Journal A × Bool
  move_on moved (j, false) = (j, false)
  move_on false (j, true) = (j, false)
  move_on true (j, true) = (record j { file = fs.empty; commands_since_rotation = 0 }, true)

  -- `renamed` and `opened` say whether the calls of the file system succeed. After a failed `open` the
  -- handle is still that of the renamed file.
  unfoldable pub rotate : Bool → Bool → Journal A → Journal A × Bool
  unfolding flush
  rotate renamed opened j = move_on (renamed && opened) (flush j)

  -- What `Journal::read_all` returns; the journal is as it was.
  unfoldable pub read_journal : Journal A → Option (Read A)
  unfolding read_all
  read_journal j = read_all (fs.contents j.file)

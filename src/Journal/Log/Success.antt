-- ===== src/Journal/Log/Success.antt =====
-- The journal of crates/persistence/src/lib.rs where neither the file nor the serializer fails.
use high_perf_trading.Base.{
  ℕ, Bool, true, false, Option, none, some, List, [], ◌∷◌, ◌++◌, ◌||◌, leb, length, ◌≡◌, refl, ◌∙◌,
  is_some, if_cases,
}
use high_perf_trading.Journal.Postcard.{PostcardApi, CrcApi}
use high_perf_trading.Journal.File.{FileApi}
use high_perf_trading.Journal.Frames.{frame_parts}
use high_perf_trading.Journal.Log.{
  Journal, write_frame, write_frames, write_serialized, then_write, flush, flush_batch, append,
  sync, count, if_written,
}

-- The file takes every write and every sync.
pub record FileWorks ⦃fs : FileApi⦄ : Type 0 where
  pub written : (f : fs.File) (bytes : List ℕ) → (fs.write_all f bytes).1 ≡ true
  pub synced : (f : fs.File) → (fs.sync_data f).1 ≡ true

module _ (A : Type 0) ⦃postcard : PostcardApi A⦄ where
  -- Every value is serialized.
  abbrev pub Serializes : Type 0
  Serializes = (a : A) → is_some (postcard.to_bytes a) ≡ true

module _ ⦃crc : CrcApi⦄ ⦃fs : FileApi⦄ (works : FileWorks) where
  then_write_works :
      (bytes : List ℕ) (r : fs.File × Bool) → r.1 ≡ true → (then_write bytes r).1 ≡ true
  then_write_works bytes (f, true) h = works.written f bytes
  then_write_works bytes (f, false) h = h

  write_serialized_works :
      (f : fs.File) (bytes : Option (List ℕ))
      → is_some bytes ≡ true
      → (write_serialized f bytes).1 ≡ true
  write_serialized_works f none h = h
  write_serialized_works f (some payload) h =
      let (len, body, sum) = frame_parts payload in
      then_write_works sum _ (then_write_works body _ (works.written f len))

module _ {A : Type 0} ⦃postcard : PostcardApi A⦄ ⦃crc : CrcApi⦄ ⦃fs : FileApi⦄ (works : FileWorks)
    (total : Serializes A) where
  if_written_works :
      (j : Journal A) (go : fs.File → Journal A × Bool) (r : fs.File × Bool)
      → r.1 ≡ true
      → ((f : fs.File) → (go f).1 ≡ true)
      → (if_written j go r).1 ≡ true
  if_written_works j go (f, true) h k = k f
  if_written_works j go (f, false) h k = h

  write_frames_works : (j : Journal A) (cmds : List A) → (write_frames j cmds).1 ≡ true
  unfolding write_frames write_frame
  write_frames_works j [] = refl
  write_frames_works j (cmd ∷ cmds) =
      if_written_works j (λ f. write_frames (count j f) cmds) (write_frame j.file cmd)
        (write_serialized_works works j.file _ (total cmd)) λ f. write_frames_works (count j f) cmds

  sync_works : (r : Journal A × Bool) → r.1 ≡ true → (sync r).1 ≡ true
  sync_works (j, true) h = works.synced j.file
  sync_works (j, false) h = h

  pub flush_works : (j : Journal A) → (flush j).1 ≡ true
  unfolding flush
  flush_works j = go j.batch_buffer
    where
      go : (cmds : List A) → (flush_batch j cmds).1 ≡ true
      go [] = refl
      go (cmd ∷ cmds) =
          sync_works _ (write_frames_works (record j { batch_buffer = [] }) (cmd ∷ cmds))

  pub append_works : (elapsed : Bool) (j : Journal A) (cmd : A) → (append elapsed j cmd).1 ≡ true
  unfolding append
  append_works elapsed j cmd =
      if_cases {A = Journal A × Bool} (λ r. r.1 ≡ true)
        (leb j'.batch_size (length j'.batch_buffer) || elapsed) (λ _. flush_works j') (λ _. refl)
    where
      j' : Journal A
      j' = record j { batch_buffer = j.batch_buffer ++ cmd ∷ [] }

module _ {A : Type 0} ⦃postcard : PostcardApi A⦄ ⦃crc : CrcApi⦄ ⦃fs : FileApi⦄ where
  threshold-if_written :
      (j : Journal A) (go : fs.File → Journal A × Bool) (r : fs.File × Bool)
      → ((f : fs.File) → (go f).0.rotation_threshold ≡ j.rotation_threshold)
      → (if_written j go r).0.rotation_threshold ≡ j.rotation_threshold
  threshold-if_written j go (f, false) h = refl
  threshold-if_written j go (f, true) h = h f

  -- The threshold stays as it was configured.
  threshold-write_frames :
      (cmds : List A) (j : Journal A)
      → (write_frames j cmds).0.rotation_threshold ≡ j.rotation_threshold
  unfolding write_frames
  threshold-write_frames [] j = refl
  threshold-write_frames (cmd ∷ cmds) j =
      threshold-if_written j (λ f. write_frames (count j f) cmds) (write_frame j.file cmd)
        λ f. threshold-write_frames cmds (count j f)

  threshold-sync : (r : Journal A × Bool) → (sync r).0.rotation_threshold ≡ r.0.rotation_threshold
  threshold-sync (j, true) = refl
  threshold-sync (j, false) = refl

  threshold-flush : (j : Journal A) → (flush j).0.rotation_threshold ≡ j.rotation_threshold
  unfolding flush
  threshold-flush j = go j.batch_buffer
    where
      go : (cmds : List A) → (flush_batch j cmds).0.rotation_threshold ≡ j.rotation_threshold
      go [] = refl
      go (cmd ∷ cmds) =
          threshold-sync (write_frames (record j { batch_buffer = [] }) (cmd ∷ cmds))
          ∙ threshold-write_frames (cmd ∷ cmds) (record j { batch_buffer = [] })

  pub threshold-append :
      (elapsed : Bool) (j : Journal A) (cmd : A)
      → (append elapsed j cmd).0.rotation_threshold ≡ j.rotation_threshold
  unfolding append
  threshold-append elapsed j cmd =
      if_cases {A = Journal A × Bool} (λ r. r.0.rotation_threshold ≡ j.rotation_threshold)
        (leb j'.batch_size (length j'.batch_buffer) || elapsed) (λ _. threshold-flush j')
        (λ _. refl)
    where
      j' : Journal A
      j' = record j { batch_buffer = j.batch_buffer ++ cmd ∷ [] }

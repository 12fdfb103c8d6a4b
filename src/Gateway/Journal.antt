-- ===== src/Gateway/Journal.antt =====
-- crates/gateway_server/src/persistence.rs: the journal of the account updates, and the file of a snapshot of
-- the accounts. A method returns the journal after it, and whether it succeeded.
use high_perf_trading.Base.{
  ℕ, Bool, true, false, Option, some, List, [], ◌∷◌, ◌++◌, length, arith, ◌≡◌, refl, sym, ap, ◌∙◌,
  subst, All,
}
use mathlib.Core.List.{append_assoc, append-nil}
use high_perf_trading.Base.Word.{inc_u64}
use high_perf_trading.Journal.Postcard.{PostcardApi, CrcApi}
use high_perf_trading.Journal.File.{FileApi}
use high_perf_trading.Journal.Frames.{Read, all_of, read_exact}
use high_perf_trading.Journal.Frames
use high_perf_trading.Journal.Frames.Reading.{Framed, nothing}
use high_perf_trading.Journal.Frames.Damage.{read_all-Dropped, no_header}
use high_perf_trading.Journal.Log.{write_serialized, write_frame}
use high_perf_trading.Journal.Log.Order.{IsSmall, write_frame_ok}
use high_perf_trading.Gateway.Accounts.{AccountUpdate}

pub record JournalConfig : Type 0 where
  pub batch_size : ℕ

-- `JournalConfig::default`; its interval is never looked at.
unfoldable pub default_config : JournalConfig
default_config = record { batch_size = 100 }

pub record JournalStats : Type 0 where
  pub updates_written : ℕ
  pub pending_batch_size : ℕ

pub record AccountJournal ⦃fs : FileApi⦄ : Type 0 where
  pub file : fs.File
  pub batch_buffer : List AccountUpdate
  pub batch_size : ℕ
  pub updates_written : ℕ

module _ ⦃fs : FileApi⦄ where
  -- `open_with_config`, once the file is open.
  unfoldable pub open_with_config : fs.File → JournalConfig → AccountJournal
  open_with_config file config = record {
    file = file;
    batch_buffer = [];
    batch_size = config.batch_size;
    updates_written = 0;
  }

  unfoldable pub stats : AccountJournal → JournalStats
  stats j = record {
    updates_written = j.updates_written;
    pending_batch_size = length j.batch_buffer;
  }

  abbrev pub synced : AccountJournal × Bool → AccountJournal × Bool
  synced (j, false) = (j, false)
  synced (j, true) = let (f, ok) = fs.sync_data j.file in (record j { file = f }, ok)

  abbrev pub counted : AccountJournal → fs.File × Bool → AccountJournal × Bool
  counted j (f, false) = (record j { file = f }, false)
  counted j (f, true) = (record j { file = f; updates_written = inc_u64 j.updates_written }, true)

module _ ⦃postcard : PostcardApi AccountUpdate⦄ ⦃crc : CrcApi⦄ ⦃fs : FileApi⦄ where
  unfoldable pub write_update : fs.File → AccountUpdate → fs.File × Bool
  write_update f update = write_serialized f (postcard.to_bytes update)

  -- No batch: the frame is written and synced at once.
  unfoldable pub append : AccountJournal → AccountUpdate → AccountJournal × Bool
  unfolding write_update
  append j update = synced (counted j (write_update j.file update))

  abbrev pub and_then :
      (AccountJournal → AccountJournal × Bool) → AccountJournal × Bool → AccountJournal × Bool
  and_then f (j, false) = (j, false)
  and_then f (j, true) = f j

  unfoldable pub write_updates : AccountJournal → List AccountUpdate → AccountJournal × Bool
  unfolding write_update
  write_updates j [] = (j, true)
  write_updates j (update ∷ updates) =
      and_then (λ j'. write_updates j' updates) (counted j (write_update j.file update))

  abbrev pub flush_batch : AccountJournal → List AccountUpdate → AccountJournal × Bool
  flush_batch j [] = (j, true)
  flush_batch j (update ∷ updates) =
      synced (write_updates (record j { batch_buffer = [] }) (update ∷ updates))

  unfoldable pub flush : AccountJournal → AccountJournal × Bool
  unfolding write_updates
  flush j = flush_batch j j.batch_buffer

  -- The journal is as it was.
  unfoldable pub read_all : AccountJournal → Option (Read AccountUpdate)
  unfolding Frames.read_all
  read_all j = Frames.read_all (fs.contents j.file)

  -- One append after the other, as long as they succeed.
  abbrev pub append_all : AccountJournal → List AccountUpdate → AccountJournal × Bool
  append_all j [] = (j, true)
  append_all j (update ∷ updates) = and_then (λ j'. append_all j' updates) (append j update)

  append-Framed :
      (j : AccountJournal) (update : AccountUpdate) (done : List AccountUpdate)
      → IsSmall update
      → Framed done (fs.contents j.file)
      → (append j update).1 ≡ true
      → Framed (done ++ update ∷ []) (fs.contents (append j update).0.file)
  unfolding append write_update write_frame
  append-Framed j update done small framed ok =
      go (write_update j.file update) (write_frame_ok j.file update done small framed) ok
    where
      go :
          (r : fs.File × Bool)
          → (r.1 ≡ true → Framed (done ++ update ∷ []) (fs.contents r.0))
          → (synced (counted j r)).1 ≡ true
          → Framed (done ++ update ∷ []) (fs.contents (synced (counted j r)).0.file)
      go (f, false) h e = cc
      go (f, true) h e =
          subst (Framed (done ++ update ∷ [])) (sym (fs.contents-sync_data f)) (h refl)

  append_all-Framed :
      (updates done : List AccountUpdate) (j : AccountJournal)
      → All IsSmall updates
      → Framed done (fs.contents j.file)
      → (append_all j updates).1 ≡ true
      → Framed (done ++ updates) (fs.contents (append_all j updates).0.file)
  append_all-Framed [] done j small framed ok =
      subst (λ c. Framed c (fs.contents j.file)) (sym (append-nil done)) framed
  append_all-Framed (update ∷ updates) done j (small, rest) framed ok =
      first (append j update) (append-Framed j update done small framed)
        (λ j'. append_all-Framed updates (done ++ update ∷ []) j' rest) ok
    where
      first :
          (r : AccountJournal × Bool)
          → (r.1 ≡ true → Framed (done ++ update ∷ []) (fs.contents r.0.file))
          → ((j' : AccountJournal)
              → Framed (done ++ update ∷ []) (fs.contents j'.file)
              → (append_all j' updates).1 ≡ true
              → Framed
                  ((done ++ update ∷ []) ++ updates)
                  (fs.contents (append_all j' updates).0.file))
          → (and_then (λ j'. append_all j' updates) r).1 ≡ true
          → Framed
              (done ++ update ∷ updates)
              (fs.contents (and_then (λ j'. append_all j' updates) r).0.file)
      first (j', false) h ih e = cc
      first (j', true) h ih e =
          subst (λ c. Framed c (fs.contents (append_all j' updates).0.file))
            (append_assoc done (update ∷ []) updates) (ih j' (h refl) e)

  -- Reading the journal after appends that all succeeded, to a file that was empty, returns their updates
  -- in order, if each is serialized into a frame's size.
  pub read_all-append_all :
      (updates : List AccountUpdate) (j : AccountJournal)
      → fs.contents j.file ≡ []
      → All IsSmall updates
      → (append_all j updates).1 ≡ true
      → read_all (append_all j updates).0 ≡ some (all_of updates)
  unfolding read_all
  read_all-append_all updates j empty small ok =
      ap Frames.read_all (sym (append-nil (fs.contents (append_all j updates).0.file)))
      ∙ read_all-Dropped
          (append_all-Framed updates [] j small (subst (Framed []) (sym empty) nothing) ok)
          (no_header (omega arith))

-- ===== src/Tests/Journal.antt =====
-- Runs of the journals of crates/persistence/src/lib.rs and crates/gateway_server/src/persistence.rs.
use high_perf_trading.Base.{
  ℕ, pos, false, some, List, [], ◌∷◌, ◌++◌, ◌≡◌, refl, subst, ◌≤◌, ◌%◌, ◌^◌, length, All, arith,
  some_injective,
}
use high_perf_trading.Base.Bytes.{put_le}
use high_perf_trading.Types.{Command, new_order, cancel, NewOrder, buy, gtc}
use high_perf_trading.Journal.Sample.{sample_commands, sample_updates, sample_crc, sample_file}
use high_perf_trading.Journal.Frames.{max_frame, all_of, read_error, unexpected_eof, read_all, Read}
use high_perf_trading.Journal.Frames.Reading.{Framed, nothing, also, frame_bytes, read_all_returns}
use high_perf_trading.Journal.Frames.Damage.{no_header, read_all-Dropped, read_all_torn_payload}
use high_perf_trading.Journal.Log.{Journal, open_with_config, append, flush, read_journal}
use high_perf_trading.Journal.Log.Order.{
  IsSmall, Logged, Bounded, append-Logged, read_journal-flush,
}
use high_perf_trading.Gateway.Accounts.{AccountUpdate, create_account_update}
use high_perf_trading.Gateway.Journal.{AccountJournal, append_all, read_all-append_all}
use high_perf_trading.Gateway.Journal
use high_perf_trading.Engine.Snapshot.File.{
  snapshot_bytes, load_from_file, load_from_file-snapshot_bytes,
}

abbrev pub first_order : NewOrder
first_order = record {
  client_seq = 1;
  order_id = 20;
  account_id = 3;
  symbol_id = 1;
  side = buy;
  price = pos 105;
  qty = pos 6;
  tif = gtc;
  flags = record { post_only = false };
}

abbrev pub first_command : Command
first_command = new_order first_order

abbrev pub second_command : Command
second_command = cancel (record { client_seq = 2; order_id = 20; account_id = 3; symbol_id = 1 })

pub first-IsSmall : IsSmall first_command
unfolding sample_commands
first-IsSmall payload e = subst (λ p. length p ≤ max_frame) (some_injective e) (omega arith)

pub second-IsSmall : IsSmall second_command
unfolding sample_commands
second-IsSmall payload e = subst (λ p. length p ≤ max_frame) (some_injective e) (omega arith)

-- An open journal, over a new file, that writes each second command.
abbrev pub opened : Journal Command
opened = open_with_config sample_file.empty (record { batch_size = 2; rotation_threshold = 0 })

pub opened-Logged : Logged [] opened
unfolding open_with_config sample_file
opened-Logged = record { done = []; framed = nothing; in_order = refl; small = tt }

append-Logged_example :
    Logged (first_command ∷ []) (append false opened first_command).0
    × Bounded (append false opened first_command).0
unfolding append open_with_config sample_file
append-Logged_example = append-Logged false [] opened first_command opened-Logged first-IsSmall refl

-- One command in the batch.
batched-Logged : Logged (first_command ∷ []) (append false opened first_command).0
unfolding append open_with_config sample_file
batched-Logged = (append-Logged false [] opened first_command opened-Logged first-IsSmall refl).0

read_journal-flush_example :
    read_journal (flush (append false opened first_command).0).0
    ≡ some (all_of (first_command ∷ []))
unfolding append open_with_config sample_file flush sample_commands sample_crc
read_journal-flush_example =
    read_journal-flush (first_command ∷ []) (append false opened first_command).0 batched-Logged
      refl

-- The frame of a command that opens an account's book.
abbrev payload : List ℕ
payload = 1 ∷ 2 ∷ 20 ∷ 3 ∷ 1 ∷ []

one-Framed : Framed (second_command ∷ []) (frame_bytes payload ++ [])
unfolding sample_commands
one-Framed = also refl (omega arith) nothing

read_all-Dropped_example :
    read_all ((frame_bytes payload ++ []) ++ 5 ∷ 0 ∷ []) ≡ some (all_of (second_command ∷ []))
read_all-Dropped_example = read_all-Dropped one-Framed (no_header (omega arith))

read_all_torn_payload_example :
    read_all {A = Command}
      ((frame_bytes payload ++ []) ++ (put_le 4 (length payload % 2 ^ 32) ++ 1 ∷ 2 ∷ []))
    ≡ some (read_error unexpected_eof)
read_all_torn_payload_example =
    read_all_torn_payload one-Framed payload (1 ∷ 2 ∷ []) (omega arith) (omega arith)

test_read_all_returns : (r : Read Command) × (read_all (9 ∷ 9 ∷ 9 ∷ 9 ∷ 9 ∷ []) ≡ some r)
test_read_all_returns = read_all_returns Command (9 ∷ 9 ∷ 9 ∷ 9 ∷ 9 ∷ [])

test_load_from_file :
    (load_from_file (snapshot_bytes (record { sequence = 300; «data» = 7 ∷ 8 ∷ 9 ∷ [] }))
      ≡ some (record { sequence = 300; «data» = 7 ∷ 8 ∷ 9 ∷ [] }))
    × (load_from_file (put_le 8 300 ++ (put_le 4 (3 % 2 ^ 32) ++ 7 ∷ 8 ∷ 9 ∷ []))
        ≡ some (record { sequence = 300; «data» = 7 ∷ 8 ∷ 9 ∷ [] }))
test_load_from_file =
    load_from_file-snapshot_bytes (record { sequence = 300; «data» = 7 ∷ 8 ∷ 9 ∷ [] }) (omega arith)
      (omega arith)

abbrev updates : List AccountUpdate
updates = create_account_update 3 (pos 1_000) ∷ create_account_update 4 (pos 50) ∷ []

updates-small : All IsSmall updates
unfolding sample_updates
updates-small = (
  λ bytes e. subst (λ p. length p ≤ max_frame) (some_injective e) (omega arith),
  (λ bytes e. subst (λ p. length p ≤ max_frame) (some_injective e) (omega arith), tt),
)

abbrev account_journal : AccountJournal
account_journal = Journal.open_with_config sample_file.empty Journal.default_config

test_read_all : Journal.read_all (append_all account_journal updates).0 ≡ some (all_of updates)
unfolding Journal.open_with_config Journal.append sample_file sample_updates sample_crc
test_read_all = read_all-append_all updates account_journal refl updates-small refl

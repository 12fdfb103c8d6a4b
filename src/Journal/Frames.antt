-- ===== src/Journal/Frames.antt =====
-- The frames of both journals: `write_frame` and `read_all` of crates/persistence/src/lib.rs, which
-- crates/gateway_server/src/persistence.rs repeats for its own updates.
pub mod Reading
pub mod Damage
use high_perf_trading.Base.{
  ℕ, zero, suc, Bool, Option, none, some, List, [], ◌∷◌, ◌++◌, ◌*◌, ◌%◌, ◌^◌, ◌==◌, if◌then◌else◌,
  ltb, length,
}
use high_perf_trading.Base.Bytes.{put_le, get_le}
use high_perf_trading.Journal.Postcard.{PostcardApi, CrcApi}

-- `read_exact`; `none` is `UnexpectedEof`.
abbrev pub push_front : ℕ → Option (List ℕ × List ℕ) → Option (List ℕ × List ℕ)
push_front x none = none
push_front x (some (front, rest)) = some (x ∷ front, rest)

unfoldable pub read_exact : ℕ → List ℕ → Option (List ℕ × List ℕ)
read_exact zero b = some ([], b)
read_exact (suc n) [] = none
read_exact (suc n) (x ∷ b) = push_front x (read_exact n b)

abbrev pub max_frame : ℕ
max_frame = 10 * 1024 * 1024

pub data ReadError : Type 0 where
  frame_too_large unexpected_eof undecodable : ReadError

-- What the loop does with the bytes from an offset on.
pub data Frame (A : Type 0) : Type 0 where
  ended : Frame A
  failed : ReadError → Frame A
  got : A → List ℕ → Frame A

pub data Read (A : Type 0) : Type 0 where
  all_of : List A → Read A
  read_error : ReadError → Read A

abbrev pub cons_read : {A : Type 0} → A → Read A → Read A
cons_read a (all_of as') = all_of (a ∷ as')
cons_read a (read_error e) = read_error e

-- `[u32 len][payload][u32 crc32]`; `len as u32` drops the higher bits.
unfoldable pub frame_parts : ⦃crc : CrcApi⦄ → List ℕ → List ℕ × List ℕ × List ℕ
frame_parts ⦃crc⦄ payload =
    (put_le 4 (length payload % 2 ^ 32), payload, put_le 4 (crc.crc32 payload))

module _ {A : Type 0} ⦃postcard : PostcardApi A⦄ ⦃crc : CrcApi⦄ where
  abbrev pub decode : List ℕ → List ℕ → Frame A
  decode payload rest = elim (postcard.from_bytes payload) [
    | none ↦ failed undecodable
    | some a ↦ got a rest
  ]

  -- A checksum that is missing or does not match ends the reading.
  abbrev pub check : List ℕ → Option (List ℕ × List ℕ) → Frame A
  check payload none = ended
  check payload (some (sum, rest)) =
      if (get_le 4 sum).0 == crc.crc32 payload then decode payload rest else ended

  abbrev pub read_payload : Option (List ℕ × List ℕ) → Frame A
  read_payload none = failed unexpected_eof
  read_payload (some (payload, rest)) = check payload (read_exact 4 rest)

  abbrev pub read_body : ℕ → List ℕ → Frame A
  read_body len rest =
      if ltb max_frame len then failed frame_too_large else read_payload (read_exact len rest)

  abbrev pub read_header : Option (List ℕ × List ℕ) → Frame A
  read_header none = ended
  read_header (some (header, rest)) = read_body (get_le 4 header).0 rest

  -- One round of the loop.
  unfoldable pub read_frame : List ℕ → Frame A
  unfolding read_exact get_le
  read_frame b = read_header (read_exact 4 b)

  abbrev pub add_read : A → Option (Read A) → Option (Read A)
  add_read a none = none
  add_read a (some r) = some (cons_read a r)

  abbrev pub next : (List ℕ → Option (Read A)) → Frame A → Option (Read A)
  next loop ended = some (all_of [])
  next loop (failed e) = some (read_error e)
  next loop (got a rest) = add_read a (loop rest)

  -- `none` is out of fuel.
  unfoldable pub read_loop : ℕ → List ℕ → Option (Read A)
  unfolding read_frame
  read_loop zero b = none
  read_loop (suc fuel) b = next (λ rest. read_loop fuel rest) (read_frame b)

  -- A round takes at least the eight bytes around a payload.
  unfoldable pub read_all : List ℕ → Option (Read A)
  unfolding read_loop
  read_all b = read_loop (suc (length b)) b

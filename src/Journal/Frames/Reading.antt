-- ===== src/Journal/Frames/Reading.antt =====
-- Reading back the frames of a journal, in crates/persistence/src/lib.rs and the gateway's journal.
use high_perf_trading.Base.{
  ℕ, zero, suc, false, Option, none, some, List, [], ◌∷◌, ◌++◌, ◌+◌, ◌%◌, ◌^◌, ◌≤◌, ◌<◌, ◌≡◌, refl,
  sym, ap, ◌∙◌, subst, ◌==◌, ==_refl, if◌then◌else◌, ltb, length, length-append, arith, Bool-cases,
  inl, inr,
}
use mathlib.Core.List.{append_assoc, append-nil}
use high_perf_trading.Base.Bytes.{put_le, get_le, limit, length-put_le, get-put_le}
use high_perf_trading.Journal.Postcard.{PostcardApi, CrcApi}
use high_perf_trading.Journal.Frames
use high_perf_trading.Journal.Frames.{
  read_exact, push_front, max_frame, Frame, ended, failed, got, Read, all_of, read_error, cons_read,
  frame_parts, decode, check, read_payload, read_body, read_header, read_frame, read_loop, read_all,
  next, add_read,
}

pub read_exact-append : (p rest : List ℕ) → read_exact (length p) (p ++ rest) ≡ some (p, rest)
unfolding read_exact
read_exact-append [] rest = refl
read_exact-append (x ∷ p) rest = rw (read_exact-append p rest) refl

pub read_exact_short : (n : ℕ) (b : List ℕ) → length b < n → read_exact n b ≡ none
unfolding read_exact
read_exact_short zero b h = absurd (omega arith)
read_exact_short (suc n) [] h = refl
read_exact_short (suc n) (x ∷ b) h = rw (read_exact_short n b (omega arith)) refl

-- What is left after `n` bytes, if they were there.
abbrev Leaves : ℕ → ℕ → Option (List ℕ × List ℕ) → Type 0
Leaves n total none = Unit
Leaves n total (some (front, rest)) = n + length rest ≡ total

read_exact-Leaves : (n : ℕ) (b : List ℕ) → Leaves n (length b) (read_exact n b)
unfolding read_exact
read_exact-Leaves zero b = omega arith
read_exact-Leaves (suc n) [] = tt
read_exact-Leaves (suc n) (x ∷ b) = step (read_exact n b) (read_exact-Leaves n b)
  where
    step :
        (r : Option (List ℕ × List ℕ))
        → Leaves n (length b) r
        → Leaves (suc n) (suc (length b)) (push_front x r)
    step none h = tt
    step (some (front, rest)) h = omega (arith, h)

value-put_le : (n : ℕ) → n < 2 ^ 32 → (get_le 4 (put_le 4 n)).0 ≡ n
unfolding limit
value-put_le n h =
    ap (λ b. (get_le 4 b).0) (sym (append-nil (put_le 4 n))) ∙ ap (λ r. r.0) (get-put_le 4 n [] h)

abbrev pub frame_bytes : ⦃crc : CrcApi⦄ → List ℕ → List ℕ
frame_bytes ⦃crc⦄ payload =
    put_le 4 (length payload % 2 ^ 32) ++ (payload ++ put_le 4 (crc.crc32 payload))

module _ {A : Type 0} ⦃postcard : PostcardApi A⦄ ⦃crc : CrcApi⦄ where
  -- The bytes are the frames of the records, one after the other, each small enough to be read back.
  pub data Framed : List A → List ℕ → Type 0 where
    nothing : Framed [] []
    also :
        {a : A} {as' : List A} {payload b : List ℕ}
        → postcard.to_bytes a ≡ some payload
        → length payload ≤ max_frame
        → Framed as' b
        → Framed (a ∷ as') (frame_bytes payload ++ b)

read_exact_lem :
    (n : ℕ) (p rest : List ℕ) → length p ≡ n → read_exact n (p ++ rest) ≡ some (p, rest)
read_exact_lem n p rest e =
    subst (λ k. read_exact k (p ++ rest) ≡ some (p, rest)) e (read_exact-append p rest)

-- A frame whose checksum field holds `sum`.
abbrev pub frame_with : ℕ → List ℕ → List ℕ
frame_with sum payload = put_le 4 (length payload % 2 ^ 32) ++ (payload ++ put_le 4 sum)

module _ (A : Type 0) ⦃postcard : PostcardApi A⦄ ⦃crc : CrcApi⦄ where
  abbrev Shrinks : ℕ → Frame A → Type 0
  Shrinks n ended = Unit
  Shrinks n (failed e) = Unit
  Shrinks n (got a rest) = length rest < n

  read_frame-Shrinks : (b : List ℕ) → Shrinks (length b) (read_frame {A = A} b)
  unfolding read_frame
  read_frame-Shrinks b = header (read_exact 4 b) (read_exact-Leaves 4 b)
    where
      decoded :
          (payload rest : List ℕ) (o : Option A)
          → length rest < length b
          → Shrinks (length b) (elim o [ none ↦ failed Frames.undecodable | some a ↦ got a rest ])
      decoded payload rest none h = tt
      decoded payload rest (some a) h = h

      checked :
          (payload : List ℕ) (n : ℕ) (r : Option (List ℕ × List ℕ))
          → n < length b
          → Leaves 4 n r
          → Shrinks (length b) (check payload r)
      checked payload n none h k = tt
      checked payload n (some (sum, rest)) h k =
          elim (Bool-cases ((get_le 4 sum).0 == crc.crc32 payload)) [
            | inl e ↦ rw e (decoded payload rest (postcard.from_bytes payload) (omega arith))
            | inr e ↦ rw e tt
          ]

      payload_of :
          (len n : ℕ) (r : Option (List ℕ × List ℕ))
          → n < length b
          → Leaves len n r
          → Shrinks (length b) (read_payload r)
      payload_of len n none h k = tt
      payload_of len n (some (payload, rest)) h k =
          checked payload (length rest) (read_exact 4 rest) (omega arith) (read_exact-Leaves 4 rest)

      body :
          (len : ℕ) (rest : List ℕ)
          → length rest < length b
          → Shrinks (length b) (read_body len rest)
      body len rest h = elim (Bool-cases (ltb max_frame len)) [
        | inl e ↦ rw e tt
        | inr e ↦
            rw e (payload_of len (length rest) (read_exact len rest) h (read_exact-Leaves len rest))
      ]

      header :
          (r : Option (List ℕ × List ℕ))
          → Leaves 4 (length b) r
          → Shrinks (length b) (read_header r)
      header none k = tt
      header (some (front, rest)) k = body (get_le 4 front).0 rest (omega arith)

  -- Fuel beyond the length of the bytes changes nothing.
  pub read_loop_enough :
      (n m : ℕ) (b : List ℕ) → length b < n → length b < m → read_loop {A = A} n b ≡ read_loop m b
  unfolding read_loop
  read_loop_enough zero m b h k = absurd (omega arith)
  read_loop_enough (suc n) zero b h k = absurd (omega arith)
  read_loop_enough (suc n) (suc m) b h k =
      round (read_frame b) (read_frame-Shrinks b) (λ rest p q. read_loop_enough n m rest p q)
    where
      round :
          (r : Frame A)
          → Shrinks (length b) r
          → ((rest : List ℕ)
              → length rest < n
              → length rest < m
              → read_loop {A = A} n rest ≡ read_loop m rest)
          → next (λ rest. read_loop n rest) r ≡ next (λ rest. read_loop m rest) r
      round ended s ih = refl
      round (failed e) s ih = refl
      round (got a rest) s ih = ap (add_read a) (ih rest (omega arith) (omega arith))

  -- Fuel above the length of the bytes is enough.
  read_loop_returns : (n : ℕ) (b : List ℕ) → length b < n → (r : Read A) × (read_loop n b ≡ some r)
  unfolding read_loop
  read_loop_returns zero b h = absurd (omega arith)
  read_loop_returns (suc n) b h =
      round (read_frame b) (read_frame-Shrinks b) (λ rest p. read_loop_returns n rest p)
    where
      round :
          (f : Frame A)
          → Shrinks (length b) f
          → ((rest : List ℕ) → length rest < n → (r : Read A) × (read_loop n rest ≡ some r))
          → (r : Read A) × (next (λ rest. read_loop n rest) f ≡ some r)
      round ended s ih = (_, refl)
      round (failed e) s ih = (_, refl)
      round (got a rest) s ih = let (r, e) = ih rest (omega arith) in (_, ap (add_read a) e)

  -- Reading a journal always comes to an end, whatever bytes the file holds.
  pub read_all_returns : (b : List ℕ) → (r : Read A) × (read_all b ≡ some r)
  unfolding read_all
  read_all_returns b = read_loop_returns (suc (length b)) b (omega arith)

  pub read_frame-header :
      (n : ℕ) (rest : List ℕ)
      → n < 2 ^ 32
      → read_frame {A = A} (put_le 4 n ++ rest) ≡ read_body n rest
  unfolding read_frame
  read_frame-header n rest h =
      ap read_header (read_exact_lem 4 (put_le 4 n) rest (length-put_le 4 n))
      ∙ ap (λ len. read_body len rest) (value-put_le n h)

  pub read_body_fits :
      (n : ℕ) (rest : List ℕ)
      → n ≤ max_frame
      → read_body {A = A} n rest ≡ read_payload (read_exact n rest)
  read_body_fits n rest h =
      ap (λ t. if t then failed Frames.frame_too_large else read_payload (read_exact n rest))
        (fits n h)
    where
      fits : (n : ℕ) → n ≤ max_frame → ltb max_frame n ≡ false
      fits n h = ground arith

  pub read_body-payload :
      (p rest : List ℕ)
      → length p ≤ max_frame
      → read_body {A = A} (length p) (p ++ rest) ≡ check p (read_exact 4 rest)
  read_body-payload p rest h =
      read_body_fits (length p) (p ++ rest) h ∙ ap read_payload (read_exact-append p rest)

  -- A whole frame is taken if its checksum fits its payload, and ends the reading otherwise.
  pub read_frame-frame_with :
      (sum : ℕ) (p rest : List ℕ)
      → sum < 2 ^ 32
      → length p ≤ max_frame
      → read_frame {A = A} (frame_with sum p ++ rest)
        ≡ (if sum == crc.crc32 p then decode p rest else ended)
  read_frame-frame_with sum p rest s h =
      ap read_frame (
        append_assoc (put_le 4 (length p % 2 ^ 32)) (p ++ put_le 4 sum) rest
        ∙ ap (λ b. put_le 4 (length p % 2 ^ 32) ++ b) (append_assoc p (put_le 4 sum) rest))
      ∙ read_frame-header (length p % 2 ^ 32) (p ++ (put_le 4 sum ++ rest)) (omega arith)
      ∙ ap (λ len. read_body len (p ++ (put_le 4 sum ++ rest))) (small (length p) h)
      ∙ read_body-payload p (put_le 4 sum ++ rest) h
      ∙ ap (check p) (read_exact_lem 4 (put_le 4 sum) rest (length-put_le 4 sum))
      ∙ ap (λ v. if v == crc.crc32 p then decode p rest else ended) (value-put_le sum s)
    where
      small : (n : ℕ) → n ≤ max_frame → n % 2 ^ 32 ≡ n
      small n h = omega arith

  -- A frame that was written is read back, whatever follows it.
  pub read_frame-frame_bytes :
      (a : A) (payload rest : List ℕ)
      → postcard.to_bytes a ≡ some payload
      → length payload ≤ max_frame
      → read_frame (frame_bytes payload ++ rest) ≡ got a rest
  read_frame-frame_bytes a payload rest e h =
      read_frame-frame_with (crc.crc32 payload) payload rest (crc.crc32-IsU32 payload) h
      ∙ ap (λ t. if t then decode payload rest else ended) (==_refl (crc.crc32 payload))
      ∙ ap (λ o. elim o [ none ↦ failed Frames.undecodable | some a ↦ got a rest ])
          (postcard.from-to a payload e)

  -- What a reading adds to what was read before.
  abbrev pub prepend : List A → Option (Read A) → Option (Read A)
  prepend [] r = r
  prepend (a ∷ as') r = add_read a (prepend as' r)

  -- The frames that were written are read back in order, and then whatever follows them is read.
  pub read_all-append :
      {as' : List A} {b : List ℕ}
      → Framed as' b
      → (tail : List ℕ) → read_all (b ++ tail) ≡ prepend as' (read_all tail)
  unfolding read_all read_loop
  read_all-append nothing tail = refl
  read_all-append (also {a} {as'} {payload} {b} e h f) tail =
      ap read_all (append_assoc (frame_bytes payload) b tail)
      ∙ ap (next loop) (read_frame-frame_bytes a payload (b ++ tail) e h)
      ∙ ap (add_read a) (
          read_loop_enough (length whole) (suc (length (b ++ tail))) (b ++ tail)
            (omega (arith, shorter)) (omega arith)
          ∙ read_all-append f tail)
    where
      whole : List ℕ
      whole = frame_bytes payload ++ (b ++ tail)

      loop : List ℕ → Option (Read A)
      loop rest = read_loop (length whole) rest

      shorter : length (b ++ tail) + 4 ≤ length whole
      shorter = omega (
        arith,
        length-append (frame_bytes payload) (b ++ tail),
        length-append (put_le 4 (length payload % 2 ^ 32))
            (payload ++ put_le 4 (crc.crc32 payload)),
        length-put_le 4 (length payload % 2 ^ 32),
      )

-- ===== src/Journal/Frames/Damage.antt =====
-- What a crash or a damaged byte makes of a journal of crates/persistence/src/lib.rs when it is read.
use high_perf_trading.Base.{
  ℕ, false, some, List, [], ◌∷◌, ◌++◌, ◌%◌, ◌^◌, ◌≤◌, ◌<◌, ◌≡◌, refl, ap, ◌∙◌, ◌==◌, if◌then◌else◌,
  length, arith,
}
use high_perf_trading.Base.Bytes.{put_le}
use high_perf_trading.Journal.Postcard.{PostcardApi, CrcApi}
use high_perf_trading.Journal.Frames.{
  Frame, ended, unexpected_eof, ReadError, all_of, read_error, max_frame, read_frame, read_loop,
  read_all, read_body, check, read_payload, next, read_header, decode,
}
use high_perf_trading.Journal.Frames.Reading.{
  Framed, frame_with, prepend, read_all-append, read_frame-frame_with, read_frame-header,
  read_body-payload, read_exact_short, read_body_fits,
}

-- Bytes behind the last whole frame that reading leaves out: too few for a header, a payload without its
-- whole checksum, or a frame whose checksum does not fit, with whatever follows it.
pub data Dropped ⦃crc : CrcApi⦄ : List ℕ → Type 0 where
  no_header : {t : List ℕ} → length t < 4 → Dropped t
  no_checksum :
      (p front : List ℕ)
      → length p ≤ max_frame
      → length front < 4
      → Dropped (put_le 4 (length p % 2 ^ 32) ++ (p ++ front))
  mismatch :
      (sum : ℕ) (p rest : List ℕ)
      → sum < 2 ^ 32
      → length p ≤ max_frame
      → (sum == crc.crc32 p) ≡ false
      → Dropped (frame_with sum p ++ rest)

module _ {A : Type 0} ⦃postcard : PostcardApi A⦄ ⦃crc : CrcApi⦄ where
  prepend-all_of : (as' : List A) → prepend A as' (some (all_of [])) ≡ some (all_of as')
  prepend-all_of [] = refl
  prepend-all_of (a ∷ as') = rw (prepend-all_of as') refl

  prepend-read_error :
      (as' : List A) (e : ReadError) → prepend A as' (some (read_error e)) ≡ some (read_error e)
  prepend-read_error [] e = refl
  prepend-read_error (a ∷ as') e = rw (prepend-read_error as' e) refl

module _ (A : Type 0) ⦃postcard : PostcardApi A⦄ ⦃crc : CrcApi⦄ where
  small : (n : ℕ) → n ≤ max_frame → n % 2 ^ 32 ≡ n
  small n h = omega arith

  read_all-read_frame :
      (t : List ℕ) {f : Frame A}
      → read_frame t ≡ f
      → read_all t ≡ next (λ rest. read_loop (length t) rest) f
  unfolding read_all
  read_all-read_frame t e = ap (next (λ rest. read_loop (length t) rest)) e

  Dropped-ended : {t : List ℕ} → Dropped t → read_frame {A = A} t ≡ ended
  unfolding read_frame
  Dropped-ended (no_header {t} h) = ap read_header (read_exact_short 4 t h)
  Dropped-ended (no_checksum p front h k) =
      read_frame-header A (length p % 2 ^ 32) (p ++ front) (omega arith)
      ∙ ap (λ len. read_body len (p ++ front)) (small (length p) h)
      ∙ read_body-payload A p front h
      ∙ ap (check p) (read_exact_short 4 front k)
  Dropped-ended (mismatch sum p rest s h ne) =
      read_frame-frame_with A sum p rest s h ∙ ap (λ t. if t then decode p rest else ended) ne

module _ {A : Type 0} ⦃postcard : PostcardApi A⦄ ⦃crc : CrcApi⦄ where
  -- Whole frames are read back in order, and bytes behind them that hold too little for a header, lack a
  -- part of their checksum or do not fit it are left out, with all that follows.
  pub read_all-Dropped :
      {as' : List A} {b tail : List ℕ}
      → Framed as' b
      → Dropped tail
      → read_all (b ++ tail) ≡ some (all_of as')
  read_all-Dropped {as'} {b} {tail} f d =
      read_all-append A f tail
      ∙ ap (prepend A as') (read_all-read_frame A tail (Dropped-ended A d))
      ∙ prepend-all_of as'

  -- Where whole frames are followed by the header of a payload that a frame may have, and by only a part
  -- of that payload, reading the journal is an error: the whole frames are lost with it.
  pub read_all_torn_payload :
      {as' : List A} {b : List ℕ}
      → Framed as' b
      → (p front : List ℕ) → length p ≤ max_frame
      → length front < length p
      → read_all {A = A} (b ++ (put_le 4 (length p % 2 ^ 32) ++ front))
        ≡ some (read_error unexpected_eof)
  read_all_torn_payload {as'} {b} f p front h k =
      read_all-append A f (put_le 4 (length p % 2 ^ 32) ++ front)
      ∙ ap (prepend A as') (
          read_all-read_frame A (put_le 4 (length p % 2 ^ 32) ++ front) (
            read_frame-header A (length p % 2 ^ 32) front (omega arith)
            ∙ ap (λ len. read_body len front) (small A (length p) h)
            ∙ read_body_fits A (length p) front h
            ∙ ap read_payload (read_exact_short (length p) front k)))
      ∙ prepend-read_error as' unexpected_eof

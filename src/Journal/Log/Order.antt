-- ===== src/Journal/Log/Order.antt =====
-- What the journal of crates/persistence/src/lib.rs keeps: every command, in order, in the file or in the
-- batch.
use high_perf_trading.Base.{
  ℕ, Bool, true, false, Option, none, some, List, [], ◌∷◌, ◌++◌, ◌||◌, ◌&&◌, if◌then◌else◌, leb,
  length, All, ◌≤◌, ◌<◌, ◌≡◌, refl, sym, ap, ◌∙◌, subst, ◌⊎◌, inl, inr, arith,
}
use mathlib.Core.List.{append_assoc, append-nil}
use high_perf_trading.Journal.Postcard.{PostcardApi, CrcApi}
use high_perf_trading.Journal.File.{FileApi}
use high_perf_trading.Journal.Frames.{frame_parts, max_frame, all_of, read_all}
use high_perf_trading.Journal.Frames.Reading.{Framed, nothing, also, frame_bytes}
use high_perf_trading.Journal.Frames.Damage.{read_all-Dropped, no_header}
use high_perf_trading.Journal.Log.{
  Journal, write_frame, write_frames, write_serialized, write_payload, then_write, flush,
  flush_batch, append, sync, count, if_written, read_journal, rotate, move_on,
}

module _ ⦃crc : CrcApi⦄ ⦃fs : FileApi⦄ where
  then_write_ok :
      (bytes : List ℕ) (r : fs.File × Bool)
      → (then_write bytes r).1 ≡ true
      → (r.1 ≡ true) × (fs.contents (then_write bytes r).0 ≡ fs.contents r.0 ++ bytes)
  then_write_ok bytes (f, true) h = (refl, fs.contents-write_all f bytes h)
  then_write_ok bytes (f, false) h = cc

  write_payload_ok :
      (f : fs.File) (payload : List ℕ)
      → (write_payload f payload).1 ≡ true
      → fs.contents (write_payload f payload).0 ≡ fs.contents f ++ frame_bytes payload
  unfolding frame_parts
  write_payload_ok f payload h =
      let (len, body, sum) = frame_parts payload in
      let (ok, e) = then_write_ok sum (then_write body (fs.write_all f len)) h in
      let (ok', e') = then_write_ok body (fs.write_all f len) ok in
      e
      ∙ ap (λ b. b ++ sum) (e' ∙ ap (λ b. b ++ body) (fs.contents-write_all f len ok'))
      ∙ append_assoc (fs.contents f ++ len) body sum
      ∙ append_assoc (fs.contents f) len (body ++ sum)

module _ {A : Type 0} ⦃postcard : PostcardApi A⦄ ⦃crc : CrcApi⦄ where
  -- The command is serialized into no more bytes than a frame may have.
  abbrev pub IsSmall : A → Type 0
  IsSmall cmd =
      (payload : List ℕ) → postcard.to_bytes cmd ≡ some payload → length payload ≤ max_frame

  Framed-append :
      {as' bs : List A} {b c : List ℕ} → Framed as' b → Framed bs c → Framed (as' ++ bs) (b ++ c)
  Framed-append nothing g = g
  Framed-append {bs = bs} {c = c} (also {a} {as'} {payload} {b} e h f) g =
      subst (Framed (a ∷ (as' ++ bs))) (sym (append_assoc (frame_bytes payload) b c))
        (also e h (Framed-append f g))

module _ {A : Type 0} ⦃postcard : PostcardApi A⦄ ⦃crc : CrcApi⦄ ⦃fs : FileApi⦄ where
  -- The file holds the frames of the first commands, and the batch the others.
  pub record Logged (all : List A) (j : Journal A) : Type 0 where
    pub done : List A
    pub framed : Framed done (fs.contents j.file)
    pub in_order : done ++ j.batch_buffer ≡ all
    pub small : All IsSmall j.batch_buffer

  pub write_frame_ok :
      (f : fs.File) (cmd : A) (done : List A)
      → IsSmall cmd
      → Framed done (fs.contents f)
      → (write_frame f cmd).1 ≡ true
      → Framed (done ++ cmd ∷ []) (fs.contents (write_frame f cmd).0)
  unfolding write_frame
  write_frame_ok f cmd done small framed h = serialized (postcard.to_bytes cmd) refl h
    where
      serialized :
          (o : Option (List ℕ))
          → postcard.to_bytes cmd ≡ o
          → (write_serialized f o).1 ≡ true
          → Framed (done ++ cmd ∷ []) (fs.contents (write_serialized f o).0)
      serialized none e h = cc
      serialized (some payload) e h =
          subst (Framed (done ++ cmd ∷ []))
            (ap (λ b. fs.contents f ++ b) (append-nil (frame_bytes payload))
              ∙ sym (write_payload_ok f payload h))
            (Framed-append framed (also e (small payload e) nothing))

  -- After a write that succeeds the file has the commands too, and the batch is as it was.
  abbrev Wrote : List A → List A → List A → Journal A × Bool → Type 0
  Wrote done cmds buffer (j, ok) =
      ok ≡ true → Framed (done ++ cmds) (fs.contents j.file) × (j.batch_buffer ≡ buffer)

  write_frames-Wrote :
      (cmds done : List A) (j : Journal A)
      → All IsSmall cmds
      → Framed done (fs.contents j.file)
      → Wrote done cmds j.batch_buffer (write_frames j cmds)
  unfolding write_frames
  write_frames-Wrote [] done j small framed =
      λ ok. (subst (λ c. Framed c (fs.contents j.file)) (sym (append-nil done)) framed, refl)
  write_frames-Wrote (cmd ∷ cmds) done j (small, rest) framed =
      first (write_frame j.file cmd) (write_frame_ok j.file cmd done small framed)
        (λ f framed'. write_frames-Wrote cmds (done ++ cmd ∷ []) (count j f) rest framed')
    where
      first :
          (r : fs.File × Bool)
          → (r.1 ≡ true → Framed (done ++ cmd ∷ []) (fs.contents r.0))
          → ((f : fs.File)
              → Framed (done ++ cmd ∷ []) (fs.contents f)
              → Wrote (done ++ cmd ∷ []) cmds j.batch_buffer (write_frames (count j f) cmds))
          → Wrote done
              (cmd ∷ cmds)
              j.batch_buffer
              (if_written j (λ f. write_frames (count j f) cmds) r)
      first (f, false) h ih ok = cc
      first (f, true) h ih ok =
          let (framed', same) = ih f (h refl) ok in
          (
            subst (λ c. Framed c (fs.contents (write_frames (count j f) cmds).0.file))
                (append_assoc done (cmd ∷ []) cmds) framed',
            same,
          )

  abbrev Flushed : List A → Journal A × Bool → Type 0
  Flushed all (j, ok) = ok ≡ true → Framed all (fs.contents j.file) × (j.batch_buffer ≡ [])

  sync-Flushed :
      (done cmds : List A) (r : Journal A × Bool)
      → Wrote done cmds [] r
      → Flushed (done ++ cmds) (sync r)
  sync-Flushed done cmds (j, false) h ok = cc
  sync-Flushed done cmds (j, true) h ok =
      let (framed, empty) = h refl in
      (subst (Framed (done ++ cmds)) (sym (fs.contents-sync_data j.file)) framed, empty)

  flush-Flushed : (all : List A) (j : Journal A) → Logged all j → Flushed all (flush j)
  unfolding flush
  flush-Flushed all j l = batch j.batch_buffer refl
    where
      batch : (cmds : List A) → j.batch_buffer ≡ cmds → Flushed all (flush_batch j cmds)
      batch [] e = λ ok. (
        subst (λ c. Framed c (fs.contents j.file))
            (sym (append-nil l.done) ∙ ap (λ c. l.done ++ c) (sym e) ∙ l.in_order) l.framed,
        e,
      )
      batch (cmd ∷ cmds) e =
          subst (λ c. Flushed c (flush_batch j (cmd ∷ cmds)))
            (ap (λ c. l.done ++ c) (sym e) ∙ l.in_order)
            (sync-Flushed l.done (cmd ∷ cmds) _ (
              write_frames-Wrote (cmd ∷ cmds) l.done (record j { batch_buffer = [] })
                (subst (All IsSmall) e l.small) l.framed))

  -- Where the file holds the frames of the first commands and the batch the others, each small enough for
  -- a frame, reading the journal after a flush that succeeds returns every command, in order.
  pub read_journal-flush :
      (all : List A) (j : Journal A)
      → Logged all j
      → (flush j).1 ≡ true
      → read_journal (flush j).0 ≡ some (all_of all)
  unfolding read_journal
  read_journal-flush all j l ok =
      ap read_all (sym (append-nil (fs.contents (flush j).0.file)))
      ∙ read_all-Dropped (flush-Flushed all j l ok).0 (no_header (omega arith))

  Flushed-Logged :
      (all : List A) (r : Journal A × Bool) → Flushed all r → r.1 ≡ true → Logged all r.0
  Flushed-Logged all (j, ok) h e =
      let (framed, empty) = h e in
      record {
        done = all;
        framed = framed;
        in_order = ap (λ c. all ++ c) empty ∙ append-nil all;
        small = subst (All IsSmall) (sym empty) tt;
      }

  -- The batch is empty or below its size.
  abbrev pub Bounded : Journal A → Type 0
  Bounded j = (j.batch_buffer ≡ []) ⊎ (length j.batch_buffer < j.batch_size)

  small-append :
      (cmds : List A) (cmd : A) → All IsSmall cmds → IsSmall cmd → All IsSmall (cmds ++ cmd ∷ [])
  small-append [] cmd h k = (k, tt)
  small-append (c ∷ cmds) cmd (h, hs) k = (h, small-append cmds cmd hs k)

  push-Logged :
      (all : List A) (j : Journal A) (cmd : A)
      → Logged all j
      → IsSmall cmd
      → Logged (all ++ cmd ∷ []) (record j { batch_buffer = j.batch_buffer ++ cmd ∷ [] })
  push-Logged all j cmd l small = record {
    done = l.done;
    framed = l.framed;
    in_order =
        sym (append_assoc l.done j.batch_buffer (cmd ∷ [])) ∙ ap (λ c. c ++ cmd ∷ []) l.in_order;
    small = small-append j.batch_buffer cmd l.small small;
  }

  -- Where the file holds the frames of the first commands and the batch the others, each small enough for
  -- a frame, an append of another such command that succeeds leaves every command, the new one last, in
  -- the file or in the batch, in order, and the batch empty or below its size.
  pub append-Logged :
      (elapsed : Bool) (all : List A) (j : Journal A) (cmd : A)
      → Logged all j
      → IsSmall cmd
      → (append elapsed j cmd).1 ≡ true
      → Logged (all ++ cmd ∷ []) (append elapsed j cmd).0 × Bounded (append elapsed j cmd).0
  unfolding append
  append-Logged elapsed all j cmd l small =
      decide (leb j.batch_size (length j'.batch_buffer) || elapsed) refl
    where
      j' : Journal A
      j' = record j { batch_buffer = j.batch_buffer ++ cmd ∷ [] }

      below : (size n : ℕ) → (leb size n || elapsed) ≡ false → n < size
      below size n h = ground arith

      decide :
          (t : Bool)
          → (leb j.batch_size (length j'.batch_buffer) || elapsed) ≡ t
          → (if t then flush j' else (j', true)).1 ≡ true
          → Logged (all ++ cmd ∷ []) (if t then flush j' else (j', true)).0
            × Bounded (if t then flush j' else (j', true)).0
      decide false e ok =
          (push-Logged all j cmd l small, inr (below j.batch_size (length j'.batch_buffer) e))
      decide true e ok =
          let flushed = flush-Flushed (all ++ cmd ∷ []) j' (push-Logged all j cmd l small) in
          (Flushed-Logged (all ++ cmd ∷ []) (flush j') flushed ok, inl (flushed ok).1)

  -- After a rotation that succeeds the journal reads as empty: what was logged before is in the backup only.
  pub rotate-Logged :
      (renamed opened : Bool) (all : List A) (j : Journal A)
      → Logged all j
      → (rotate renamed opened j).1 ≡ true
      → Logged [] (rotate renamed opened j).0
        × ((rotate renamed opened j).0.commands_since_rotation ≡ 0)
  unfolding rotate
  rotate-Logged renamed opened all j l = moved (renamed && opened) (flush j) (flush-Flushed all j l)
    where
      moved :
          (m : Bool) (r : Journal A × Bool)
          → Flushed all r
          → (move_on m r).1 ≡ true
          → Logged [] (move_on m r).0 × ((move_on m r).0.commands_since_rotation ≡ 0)
      moved m (j', false) h ok = cc
      moved false (j', true) h ok = cc
      moved true (j', true) h ok =
          let empty = (h refl).1 in
          (
            record {
              done = [];
              framed = subst (Framed []) (sym fs.contents-empty) nothing;
              in_order = empty;
              small = subst (All IsSmall) (sym empty) tt;
            },
            refl,
          )

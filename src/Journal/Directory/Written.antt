-- ===== src/Journal/Directory/Written.antt =====
-- The file written last is the latest, where no other has a greater number.
use high_perf_trading.Base.{
  ℕ, ◌<◌, ◌≤◌, ◌^◌, true, false, some, List, [], ◌∷◌, ◌++◌, All, ◌≡◌, ◌≢◌, refl, ap, sym, ◌∙◌,
  subst, ◌⊎◌, inl, inr, arith, Bool-cases, picked, passed,
}
use high_perf_trading.Journal.Directory.{
  Name, Directory, same_name, leb_name, file_name, is_snapshot, snapshots, without_file, write_file,
  sort, last_file, latest,
}
use high_perf_trading.Journal.Directory.Names.{
  same_name_refl, file_name_greater, is_snapshot-file_name,
}
use high_perf_trading.Journal.Directory.Latest.{File, Latest, sort-Latest, Latest-All}

-- Files named for numbers that have a property.
abbrev pub Numbered : Name → (ℕ → Type 0) → Directory → Type 0
Numbered prefix P d = All (λ e. (k : ℕ) × (e.0 ≡ file_name prefix k) × P k) d

snoc-Latest : (d : Directory) (x : File) → Latest (d ++ x ∷ [])
snoc-Latest [] x = sort-Latest x []
snoc-Latest (e ∷ d) x = sort-Latest e (d ++ x ∷ [])

All-end : (P : File → Type 0) (d : Directory) (x : File) → All P (d ++ x ∷ []) → P x
All-end P [] x h = h.0
All-end P (e ∷ d) x h = All-end P d x h.1

snapshots-snoc :
    (prefix : Name) (d : Directory) (x : File)
    → is_snapshot prefix x.0 ≡ true
    → snapshots prefix (d ++ x ∷ []) ≡ snapshots prefix d ++ x ∷ []
unfolding snapshots
snapshots-snoc prefix [] x h = picked _ _ _ h
snapshots-snoc prefix (e ∷ d) x h = elim (Bool-cases (is_snapshot prefix e.0)) [
  | inl ours ↦
      picked _ _ _ ours
      ∙ ap (λ l. e ∷ l) (snapshots-snoc prefix d x h)
      ∙ ap (λ l. l ++ x ∷ []) (sym (picked _ _ _ ours))
  | inr foreign ↦
      passed _ _ _ foreign
      ∙ snapshots-snoc prefix d x h
      ∙ ap (λ l. l ++ x ∷ []) (sym (passed _ _ _ foreign))
]

-- The files that are left have smaller numbers.
left-Numbered :
    (prefix : Name) (n : ℕ) (d : Directory)
    → Numbered prefix (λ k. k ≤ n) (snapshots prefix d)
    → Numbered prefix (λ k. k < n) (snapshots prefix (without_file (file_name prefix n) d))
unfolding snapshots without_file
left-Numbered prefix n [] h = tt
left-Numbered prefix n (e ∷ d) h = elim (Bool-cases (is_snapshot prefix e.0)) [
  | inl ours ↦
      let (k, named, le) = (subst (Numbered prefix (λ k. k ≤ n)) (picked _ _ _ ours) h).0 in
      let rest =
        left-Numbered prefix n d (subst (Numbered prefix (λ k. k ≤ n)) (picked _ _ _ ours) h).1 in
      elim (Bool-cases (same_name e.0 (file_name prefix n))) [
        | inl gone ↦ rw gone rest
        | inr kept ↦ rw kept (rw ours ((k, named, smaller k named le kept), rest))
      ]
  | inr foreign ↦
      let rest =
        left-Numbered prefix n d (subst (Numbered prefix (λ k. k ≤ n)) (passed _ _ _ foreign) h) in
      elim (Bool-cases (same_name e.0 (file_name prefix n))) [
        | inl gone ↦ rw gone rest
        | inr kept ↦ rw kept (rw foreign rest)
      ]
]
  where
    other : (k : ℕ) → e.0 ≡ file_name prefix k → same_name e.0 (file_name prefix n) ≡ false → k ≢ n
    other k named kept same = cc (
        sym kept
        ∙ ap (λ a. same_name a (file_name prefix n)) (named ∙ ap (file_name prefix) same)
        ∙ same_name_refl (file_name prefix n))

    smaller :
        (k : ℕ)
        → e.0 ≡ file_name prefix k
        → k ≤ n
        → same_name e.0 (file_name prefix n) ≡ false
        → k < n
    smaller k named le kept = let ne = other k named kept in omega arith

-- If the snapshot files of a directory are named for numbers up to one below 10 ^ 12, then the file
-- written for that number is the latest.
pub latest-write_file :
    (prefix : Name) (n : ℕ) (bytes : List ℕ) (d : Directory)
    → n < 10 ^ 12
    → Numbered prefix (λ k. k ≤ n) (snapshots prefix d)
    → latest prefix (write_file (file_name prefix n) bytes d) ≡ some (file_name prefix n, bytes)
unfolding latest write_file
latest-write_file prefix n bytes d small h =
    let l = snoc-Latest others mine in
    let top = All-end (λ e. leb_name e.0 l.file.0 ≡ true) others mine l.greatest in
    let one =
      Latest-All Known (others ++ mine ∷ []) l (knows others (left-Numbered prefix n d h)) in
    ap (λ x. last_file (sort x))
      (snapshots-snoc prefix (without_file (file_name prefix n) d) mine
        (is_snapshot-file_name prefix n))
    ∙ l.is_last
    ∙ ap some (go l.file one top)
  where
    others : Directory
    others = snapshots prefix (without_file (file_name prefix n) d)

    mine : File
    mine = (file_name prefix n, bytes)

    Known : File → Type 0
    Known e = (e ≡ mine) ⊎ ((k : ℕ) × (e.0 ≡ file_name prefix k) × (k < n))

    knows : (es : Directory) → Numbered prefix (λ k. k < n) es → All Known (es ++ mine ∷ [])
    knows [] h = (inl refl, tt)
    knows (e ∷ es) (p, h) = (inr p, knows es h)

    go : (f : File) → Known f → leb_name (file_name prefix n) f.0 ≡ true → f ≡ mine
    go f (inl e) top = e
    go f (inr (k, named, less)) top = cc (
        sym (ap (leb_name (file_name prefix n)) named ∙ file_name_greater prefix k n less small)
        ∙ top)

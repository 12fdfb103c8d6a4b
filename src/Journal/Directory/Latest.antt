-- ===== src/Journal/Directory/Latest.antt =====
-- The file found last in the order of the names is the greatest.
use high_perf_trading.Base.{
  ℕ, true, some, List, [], ◌∷◌, All, ◌≡◌, refl, subst, inl, inr, Bool-cases, if_cases,
  some_injective,
}
use high_perf_trading.Journal.Directory.{Name, Directory, leb_name, place, sort, last_file}
use high_perf_trading.Journal.Directory.Names.{leb_name_refl, leb_name_total, leb_name_trans}

abbrev pub File : Type 0
File = Name × List ℕ

abbrev AtMost : Name → Directory → Type 0
AtMost top d = All (λ e. leb_name e.0 top ≡ true) d

-- The last file, which no other is greater than.
record Top (d : Directory) : Type 0 where
  pub file : File
  pub is_last : last_file d ≡ some file
  pub greatest : AtMost file.0 d

AtMost-le : (a b : Name) (d : Directory) → leb_name a b ≡ true → AtMost a d → AtMost b d
AtMost-le a b [] h t = tt
AtMost-le a b (e ∷ d) h (l, t) = (leb_name_trans e.0 a b l h, AtMost-le a b d h t)

-- A file put in its place leaves a last file that is greatest, no less than the one before.
place-Top :
    (e : File) (d : Directory) (t : Top d)
    → (u : Top (place e d)) × (leb_name t.file.0 u.file.0 ≡ true) × (leb_name e.0 u.file.0 ≡ true)
unfolding place last_file
place-Top e [] t = cc t.is_last
place-Top e (f ∷ []) t = elim (Bool-cases (leb_name e.0 f.0)) [
  | inl before ↦
      let same = some_injective t.is_last in
      rw before (
        record { file = f; is_last = refl; greatest = (before, (leb_name_refl f.0, tt)) },
        subst (λ x. leb_name x.0 f.0 ≡ true) same (leb_name_refl f.0),
        before,
      )
  | inr after ↦
      let same = some_injective t.is_last in
      rw after (
        record {
          file = e;
          is_last = refl;
          greatest = (leb_name_total e.0 f.0 after, (leb_name_refl e.0, tt));
        },
        subst (λ x. leb_name x.0 e.0 ≡ true) same (leb_name_total e.0 f.0 after),
        leb_name_refl e.0,
      )
]
place-Top e (f ∷ g ∷ d) t = elim (Bool-cases (leb_name e.0 f.0)) [
  | inl before ↦
      let (first, others) = t.greatest in
      rw before (
        record {
          file = t.file;
          is_last = t.is_last;
          greatest = (leb_name_trans e.0 f.0 t.file.0 before first, t.greatest);
        },
        leb_name_refl t.file.0,
        leb_name_trans e.0 f.0 t.file.0 before first,
      )
  | inr after ↦
      let (first, others) = t.greatest in
      let (u, le, here) =
        place-Top e (g ∷ d) (record { file = t.file; is_last = t.is_last; greatest = others }) in
      rw after (
        record {
          file = u.file;
          is_last = behind (place e (g ∷ d)) u.is_last;
          greatest = (leb_name_trans f.0 t.file.0 u.file.0 first le, u.greatest);
        },
        le,
        here,
      )
]
  where
    behind : (ds : Directory) {x : File} → last_file ds ≡ some x → last_file (f ∷ ds) ≡ some x
    behind [] h = cc h
    behind (c ∷ ds) h = h

place-All : (P : File → Type 0) (e : File) (d : Directory) → P e → All P d → All P (place e d)
unfolding place
place-All P e [] p h = (p, tt)
place-All P e (f ∷ d) p h =
    let rest = place-All P e d p h.1 in
    if_cases (All P) (leb_name e.0 f.0) (λ _. (p, h)) (λ _. (h.0, rest))

sort-All : (P : File → Type 0) (d : Directory) → All P d → All P (sort d)
unfolding sort
sort-All P [] h = tt
sort-All P (e ∷ d) h = place-All P e (sort d) h.0 (sort-All P d h.1)

-- What the latest of some files is: one of them, and none is greater.
pub record Latest (d : Directory) : Type 0 where
  pub file : File
  pub is_last : last_file (sort d) ≡ some file
  pub greatest : AtMost file.0 d

last-All : (P : File → Type 0) (d : Directory) {x : File} → last_file d ≡ some x → All P d → P x
unfolding last_file
last-All P [] e h = cc e
last-All P (f ∷ []) e h = subst P (some_injective e) h.0
last-All P (f ∷ g ∷ d) e h = last-All P (g ∷ d) e h.1

sort-Top : (e : File) (d : Directory) → (t : Top (sort (e ∷ d))) × AtMost t.file.0 (e ∷ d)
unfolding sort place last_file
sort-Top e [] = (
  record { file = e; is_last = refl; greatest = (leb_name_refl e.0, tt) },
  (leb_name_refl e.0, tt),
)
sort-Top e (f ∷ d) =
    let (t, all) = sort-Top f d in
    let (u, le, here) = place-Top e (sort (f ∷ d)) t in
    (u, (here, AtMost-le t.file.0 u.file.0 (f ∷ d) le all))

pub sort-Latest : (e : File) (d : Directory) → Latest (e ∷ d)
sort-Latest e d =
    let (t, all) = sort-Top e d in record { file = t.file; is_last = t.is_last; greatest = all }

-- What holds of all files holds of the latest.
pub Latest-All : (P : File → Type 0) (d : Directory) (l : Latest d) → All P d → P l.file
Latest-All P d l h = last-All P (sort d) l.is_last (sort-All P d h)

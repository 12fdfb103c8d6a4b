-- ===== src/Journal/Directory/Names.antt =====
-- The names of snapshot files in their order.
use high_perf_trading.Base.{
  ℕ, zero, suc, ◌+◌, ◌/◌, ◌%◌, ◌<◌, ◌≤◌, ◌^◌, true, false, [], ◌∷◌, ◌++◌, ltb, ==_refl, length,
  length-append, ◌≡◌, refl, ap, sym, ◌∙◌, inl, inr, arith, Bool-cases, picked,
}
use high_perf_trading.Journal.Directory.{
  Name, same_name, leb_name, starts_with, ends_with, pow10, fixed, digits_from, padded, suffix,
  file_name, is_snapshot,
}

pub same_name_refl : (a : Name) → same_name a a ≡ true
unfolding same_name
same_name_refl [] = refl
same_name_refl (x ∷ a) = rw (==_refl x, same_name_refl a) refl

pub leb_name_refl : (a : Name) → leb_name a a ≡ true
unfolding leb_name
leb_name_refl [] = refl
leb_name_refl (x ∷ a) = let rest = leb_name_refl a in ground arith

pub leb_name_total : (a b : Name) → leb_name a b ≡ false → leb_name b a ≡ true
unfolding leb_name
leb_name_total [] b h = cc h
leb_name_total (x ∷ a) [] h = refl
leb_name_total (x ∷ a) (y ∷ b) h = let rest = leb_name_total a b in ground arith

pub leb_name_trans :
    (a b c : Name) → leb_name a b ≡ true → leb_name b c ≡ true → leb_name a c ≡ true
unfolding leb_name
leb_name_trans [] b c h k = refl
leb_name_trans (x ∷ a) [] c h k = cc h
leb_name_trans (x ∷ a) (y ∷ b) [] h k = cc k
leb_name_trans (x ∷ a) (y ∷ b) (z ∷ c) h k = let rest = leb_name_trans a b c in ground arith

-- What two names begin with alike does not matter.
leb_name_prefix : (p a b : Name) → leb_name (p ++ a) (p ++ b) ≡ leb_name a b
unfolding leb_name
leb_name_prefix [] a b = refl
leb_name_prefix (x ∷ p) a b = let rest = leb_name_prefix p a b in ground arith

-- Names of one length that differ keep their order, whatever follows.
greater-append :
    (a b c d : Name)
    → length a ≡ length b
    → leb_name a b ≡ false
    → leb_name (a ++ c) (b ++ d) ≡ false
unfolding leb_name
greater-append [] b c d e h = cc h
greater-append (x ∷ a) [] c d e h = absurd (omega arith)
greater-append (x ∷ a) (y ∷ b) c d e h = let rest = greater-append a b c d in ground arith

length-fixed : (w n : ℕ) → length (fixed w n) ≡ w
unfolding fixed
length-fixed zero n = refl
length-fixed (suc w) n =
    omega (arith, length-append (fixed w (n / 10)) ((48 + n % 10) ∷ []), length-fixed w (n / 10))

-- Numbers of one width are in the order of their names.
fixed_greater : (w n m : ℕ) → n < m → m < pow10 w → leb_name (fixed w m) (fixed w n) ≡ false
unfolding fixed pow10 leb_name
fixed_greater zero n m h k = absurd (omega arith)
fixed_greater (suc w) n m h k = elim (Bool-cases (ltb (n / 10) (m / 10))) [
  | inl less ↦
      greater-append (fixed w (m / 10)) (fixed w (n / 10)) _ _
        (length-fixed w (m / 10) ∙ sym (length-fixed w (n / 10)))
        (fixed_greater w (n / 10) (m / 10) (below (n / 10) (m / 10) less) (omega arith))
  | inr not_less ↦
      let same : m / 10 ≡ n / 10 = tens not_less in
      ap (λ x. leb_name (fixed w x ++ (48 + m % 10) ∷ []) (fixed w (n / 10) ++ (48 + n % 10) ∷ []))
        same
      ∙ leb_name_prefix (fixed w (n / 10)) _ _
      ∙ digit (48 + m % 10) (48 + n % 10) (omega arith)
]
  where
    below : (a b : ℕ) → ltb a b ≡ true → a < b
    below a b h = ground arith

    tens : ltb (n / 10) (m / 10) ≡ false → m / 10 ≡ n / 10
    tens e = let apart = at_least (n / 10) (m / 10) e in omega arith
      where
        at_least : (a b : ℕ) → ltb a b ≡ false → b ≤ a
        at_least a b h = ground arith

    digit : (a b : ℕ) → b < a → leb_name (a ∷ []) (b ∷ []) ≡ false
    digit a b h = ground arith

padded_small : (n : ℕ) → n < 10 ^ 12 → padded n ≡ fixed 12 n
unfolding padded digits_from pow10
padded_small n h = picked _ _ _ (small n (10 ^ 12) h)
  where
    small : (a b : ℕ) → a < b → ltb a b ≡ true
    small a b h = ground arith

-- Of two sequences below 10 ^ 12 the greater has the greater name.
pub file_name_greater :
    (prefix : Name) (n m : ℕ)
    → n < m
    → m < 10 ^ 12
    → leb_name (file_name prefix m) (file_name prefix n) ≡ false
unfolding file_name pow10
file_name_greater prefix n m h k =
    leb_name_prefix prefix _ _
    ∙ ap (λ a. leb_name (a ++ suffix) (padded n ++ suffix)) (padded_small m k)
    ∙ ap (λ a. leb_name (fixed 12 m ++ suffix) (a ++ suffix)) (padded_small n (omega arith))
    ∙ greater-append (fixed 12 m) (fixed 12 n) suffix suffix
        (length-fixed 12 m ∙ sym (length-fixed 12 n)) (fixed_greater 12 n m h k)

starts_with-append : (p a : Name) → starts_with p (p ++ a) ≡ true
unfolding starts_with
starts_with-append [] a = refl
starts_with-append (x ∷ p) a = rw (==_refl x, starts_with-append p a) refl

ends_with-append : (s a : Name) → ends_with s (a ++ s) ≡ true
unfolding ends_with
ends_with-append [] [] = same_name_refl []
ends_with-append (x ∷ s) [] = rw (same_name_refl (x ∷ s)) refl
ends_with-append s (x ∷ a) = let rest = ends_with-append s a in ground arith

-- The name of a snapshot is one.
pub is_snapshot-file_name : (prefix : Name) (n : ℕ) → is_snapshot prefix (file_name prefix n) ≡ true
unfolding file_name
is_snapshot-file_name prefix n =
    let front = starts_with-append prefix (padded n ++ suffix) in
    let back : ends_with suffix (file_name prefix n) ≡ true =
      ap (ends_with suffix) (sym (append_assoc prefix (padded n) suffix))
      ∙ ends_with-append suffix (prefix ++ padded n) in
    rw (front, back) refl
  where
    append_assoc : (a b c : Name) → (a ++ b) ++ c ≡ a ++ (b ++ c)
    append_assoc [] b c = refl
    append_assoc (x ∷ a) b c = ap (λ l. x ∷ l) (append_assoc a b c)

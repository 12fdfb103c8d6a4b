-- ===== src/Base/Word.antt =====
-- Machine words. A `u64` is a number below 2 ^ 64, an `i64` an integer in [-2 ^ 63, 2 ^ 63), and the
-- release profile of the workspace wraps around.
use high_perf_trading.Base.Tests.{Bool-cases, ltb, if◌then◌else◌}
use high_perf_trading.Base.Int.{
  ℤ, pos, negsuc, pos_part, neg_part, ◌+ℤ◌, ◌-ℤ◌, ◌*ℤ◌, ◌≤ℤ◌, ◌<ℤ◌, ltb_ℤ, eqb_ℤ, sub_ℕ, -ℤ_parts,
  +ℤ_parts, eq_of_parts, one_part,
}
use Prim.Native.Nat.{ℕ, ◌+◌, ◌-◌, ◌/◌, ◌%◌, ◌^◌, ◌≤◌, ◌<◌}
use mathlib.Core.Path.{◌≡◌, refl, sym, ap, ◌∙◌}
use mathlib.Core.Bool.{false, ◌&&◌, ◌||◌}
use mathlib.Core.Logic.{inl, inr}
use mathlib.Core.Option.{Option, none, some}
use native.Mathlib.Omega.{arith}

abbrev pub IsI64 : ℤ → Type 0
IsI64 x = (pos_part x < 2 ^ 63) × (neg_part x ≤ 2 ^ 63)

-- The `u64` increment.
unfoldable pub inc_u64 : ℕ → ℕ
inc_u64 n = (n + 1) % 2 ^ 64

-- The integer that 64 bits stand for.
abbrev pub signed_u64 : ℕ → ℤ
signed_u64 w = if ltb w (2 ^ 63) then pos w else negsuc (2 ^ 64 - 1 - w)

-- The 64 bits of an integer.
abbrev pub bits_i64 : ℤ → ℕ
bits_i64 (pos n) = n % 2 ^ 64
bits_i64 (negsuc n) = 2 ^ 64 - 1 - n % 2 ^ 64

unfoldable pub wrap_i64 : ℤ → ℤ
wrap_i64 x = signed_u64 (bits_i64 x)

unfoldable pub add_i64 : ℤ → ℤ → ℤ
add_i64 a b = wrap_i64 (a +ℤ b)

unfoldable pub sub_i64 : ℤ → ℤ → ℤ
sub_i64 a b = wrap_i64 (a -ℤ b)

unfoldable pub mul_i64 : ℤ → ℤ → ℤ
mul_i64 a b = wrap_i64 (a *ℤ b)

unfoldable pub neg_i64 : ℤ → ℤ
unfolding sub_i64
neg_i64 a = sub_i64 (pos 0) a

unfoldable pub abs_i64 : ℤ → ℤ
unfolding neg_i64
abs_i64 a = if ltb_ℤ a (pos 0) then neg_i64 a else a

-- Division truncates toward zero; it panics on a zero divisor and on `i64::MIN / -1`.
unfoldable pub div_i64 : ℤ → ℤ → Option ℤ
div_i64 a b =
    if eqb_ℤ b (pos 0) || (eqb_ℤ a (negsuc (2 ^ 63 - 1)) && eqb_ℤ b (negsuc 0))
    then none
    else some (
        sub_ℕ (pos_part a / pos_part b + neg_part a / neg_part b)
          (pos_part a / neg_part b + neg_part a / pos_part b))

pub wrap_i64_lem : (x : ℤ) → IsI64 x → wrap_i64 x ≡ x
unfolding wrap_i64
wrap_i64_lem (pos n) h = ground arith
wrap_i64_lem (negsuc n) h = ground arith

pub wrap-IsI64 : (x : ℤ) → IsI64 (wrap_i64 x)
unfolding wrap_i64
wrap-IsI64 (pos n) = ground arith
wrap-IsI64 (negsuc n) = ground arith

pub add_i64_lem : (a b : ℤ) → IsI64 (a +ℤ b) → add_i64 a b ≡ a +ℤ b
unfolding add_i64
add_i64_lem a b h = wrap_i64_lem (a +ℤ b) h

pub sub_i64_lem : (a b : ℤ) → IsI64 (a -ℤ b) → sub_i64 a b ≡ a -ℤ b
unfolding sub_i64
sub_i64_lem a b h = wrap_i64_lem (a -ℤ b) h

-- Taking away no more than there is stays in range.
pub sub_i64_within : (a b : ℤ) → IsI64 a → pos 0 ≤ℤ b → b ≤ℤ a → sub_i64 a b ≡ a -ℤ b
sub_i64_within a b ha hb h = sub_i64_lem a b (omega (arith, -ℤ_parts a b, one_part (a -ℤ b)))

pub sub_i64_self : (a : ℤ) → sub_i64 a a ≡ pos 0
sub_i64_self a =
    sub_i64_lem a a (omega (arith, -ℤ_parts a a, one_part (a -ℤ a)))
    ∙ eq_of_parts (a -ℤ a) (pos 0) (omega (arith, -ℤ_parts a a))

-- A divisor other than 0 and -1 divides without a panic.
pub div_i64-some :
    (a b : ℤ)
    → eqb_ℤ b (pos 0) ≡ false
    → eqb_ℤ b (negsuc 0) ≡ false
    → (q : ℤ) × (div_i64 a b ≡ some q)
unfolding div_i64
div_i64-some a b h k =
    rw (h, k)
      (elim (Bool-cases (eqb_ℤ a (negsuc (2 ^ 63 - 1)))) [
        | inl least ↦ rw least (_, refl)
        | inr other ↦ rw other (_, refl)
      ])

-- The sum of two `i64`, of which neither is negative and one is positive, wraps to neither 0 nor -1.
pub add_i64_divides :
    (a b : ℤ)
    → IsI64 a
    → IsI64 b
    → pos 0 ≤ℤ a
    → pos 0 <ℤ b
    → (eqb_ℤ (add_i64 a b) (pos 0) ≡ false) × (eqb_ℤ (add_i64 a b) (negsuc 0) ≡ false)
unfolding add_i64 wrap_i64 ◌+ℤ◌
add_i64_divides (pos a) (pos b) ha hb p q = ground arith
add_i64_divides (negsuc a) (pos b) ha hb p q = absurd (omega arith)
add_i64_divides (pos a) (negsuc b) ha hb p q = absurd (omega arith)
add_i64_divides (negsuc a) (negsuc b) ha hb p q = absurd (omega arith)

pub neg_i64_nonneg :
    (a : ℤ) → IsI64 a → neg_part a < 2 ^ 63 → a ≤ℤ pos 0 → IsI64 (neg_i64 a) × (pos 0 ≤ℤ neg_i64 a)
unfolding neg_i64 wrap_i64 ◌-ℤ◌
neg_i64_nonneg a i h k = ground arith

-- Giving back what was added restores the word, whatever wraps.
pub sub_add_i64 : (a b : ℤ) → IsI64 a → IsI64 b → sub_i64 (add_i64 a b) b ≡ a
unfolding sub_i64 add_i64 wrap_i64 ◌+ℤ◌ ◌-ℤ◌
sub_add_i64 (pos a) (pos b) ha hb = ground arith
sub_add_i64 (negsuc a) (pos b) ha hb = ground arith
sub_add_i64 (pos a) (negsuc b) ha hb = ground arith
sub_add_i64 (negsuc a) (negsuc b) ha hb = ground arith

pub sub_zero_i64 : (a : ℤ) → IsI64 a → sub_i64 a (pos 0) ≡ a
unfolding sub_i64 wrap_i64 ◌-ℤ◌
sub_zero_i64 (pos a) ha = ground arith
sub_zero_i64 (negsuc a) ha = ground arith

-- Adding to a difference, and taking less away, are the same.
pub add-sub_i64 :
    (a b c : ℤ)
    → IsI64 a
    → pos 0 ≤ℤ c
    → c ≤ℤ b
    → b ≤ℤ a
    → add_i64 (sub_i64 a b) c ≡ sub_i64 a (sub_i64 b c)
add-sub_i64 a b c h k p q =
    let ab = -ℤ_parts a b in
    let bc = -ℤ_parts b c in
    let abc = +ℤ_parts (a -ℤ b) c in
    let left = one_part (a -ℤ b) in
    let mid = one_part (b -ℤ c) in
    let sum = one_part (a -ℤ b +ℤ c) in
    ap (λ x. add_i64 x c) (sub_i64_within a b h (omega arith) q)
    ∙ add_i64_lem (a -ℤ b) c (omega arith)
    ∙ eq_of_parts (a -ℤ b +ℤ c) (a -ℤ (b -ℤ c)) (omega (arith, -ℤ_parts a (b -ℤ c)))
    ∙ sym (sub_i64_within a (b -ℤ c) h (omega arith) (omega arith))
    ∙ ap (λ x. sub_i64 a x) (sym (sub_i64_within b c (omega (arith, one_part b)) k p))

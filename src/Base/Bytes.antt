-- ===== src/Base/Bytes.antt =====
-- `to_le_bytes` and `from_le_bytes` of the standard library: the bytes of a number from the lowest up.
use high_perf_trading.Base.Lists.{length}
use Prim.Native.Nat.{ℕ, zero, suc, ◌+◌, ◌*◌, ◌/◌, ◌%◌, ◌<◌}
use mathlib.Core.Path.{◌≡◌, refl, ap}
use mathlib.Core.List.{List, [], ◌∷◌, ◌++◌}
use native.Mathlib.Omega.{arith}

unfoldable pub put_le : ℕ → ℕ → List ℕ
put_le zero n = []
put_le (suc width) n = n % 256 ∷ put_le width (n / 256)

unfoldable pub get_le : ℕ → List ℕ → ℕ × List ℕ
get_le zero b = (0, b)
get_le (suc width) [] = (0, [])
get_le (suc width) (x ∷ b) = let (high, rest) = get_le width b in (x + 256 * high, rest)

unfoldable pub limit : ℕ → ℕ
limit zero = 1
limit (suc width) = 256 * limit width

pub length-put_le : (width n : ℕ) → length (put_le width n) ≡ width
unfolding put_le
length-put_le zero n = refl
length-put_le (suc width) n = ap suc (length-put_le width (n / 256))

pub get-put_le :
    (width n : ℕ) (rest : List ℕ)
    → n < limit width
    → get_le width (put_le width n ++ rest) ≡ (n, rest)
unfolding get_le put_le limit
get-put_le zero n rest h = ap (λ v. (v, rest)) (omega arith)
get-put_le (suc width) n rest h =
    rw (get-put_le width (n / 256) rest (omega arith)) (ap (λ v. (v, rest)) (omega arith))

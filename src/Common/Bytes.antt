-- ===== src/Common/Bytes.antt =====
-- Arrays of the same size and C strings, compared byte by byte.
use Prim.Native.Nat.{ℕ}
use mathlib.Core.Path.{◌≡◌, refl}
use mathlib.Core.Logic.{inl, inr}
use mathlib.Core.Bool.{Bool, true, false, ◌&&◌, false≢true}
use mathlib.Core.List.{List, [], ◌∷◌}
use native.Mathlib.Omega.{arith}
use cryptodev_chat.Common.Tests.{◌==◌, eq→==, Bool-cases}

-- memcmp(a, b, n) == 0 for two arrays of n bytes, strcmp(a, b) == 0 for two strings
unfoldable pub is_equal : List ℕ → List ℕ → Bool
is_equal [] [] = true
is_equal (x ∷ xs) (y ∷ ys) = (x == y) && is_equal xs ys
is_equal [] (y ∷ ys) = false
is_equal (x ∷ xs) [] = false

pub is_equal_refl : (xs : List ℕ) → is_equal xs xs ≡ true
unfolding is_equal
is_equal_refl [] = refl
is_equal_refl (x ∷ xs) = rw (eq→== x x refl, is_equal_refl xs) refl

pub is_equal→≡ : (xs ys : List ℕ) → is_equal xs ys ≡ true → xs ≡ ys
unfolding is_equal
is_equal→≡ [] [] h = refl
is_equal→≡ (x ∷ xs) (y ∷ ys) h = elim (Bool-cases (x == y)) [
  | inl e ↦
      let same : x ≡ y = ground arith in let rest : xs ≡ ys = is_equal→≡ xs ys (rw e at h) in cc
  | inr e ↦ absurd (false≢true (rw e at h))
]
is_equal→≡ [] (y ∷ ys) h = absurd (false≢true h)
is_equal→≡ (x ∷ xs) [] h = absurd (false≢true h)

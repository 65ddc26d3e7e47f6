-- ===== src/Common/Lists.antt =====
-- Lists measured and cut by native numbers, under the library's names.
use Prim.Native.Nat.{ℕ, zero, suc, ◌+◌, ◌-◌, ◌≤◌, min}
use mathlib.Core.Path.{◌≡◌, refl, ap, ◌∙◌}
use mathlib.Core.List.{List, [], ◌∷◌, ◌++◌}
use mathlib.Core.Option.{Option, none, some}
use native.Mathlib.Omega.{arith}
use native.Mathlib.Nat.{zero-add, suc-add}

module _ {ℓ} {A : Type ℓ} where
  abbrev pub length : List A → ℕ
  length [] = 0
  length (x ∷ xs) = suc (length xs)

  abbrev pub get_elem? : List A → ℕ → Option A
  get_elem? [] i = none
  get_elem? (x ∷ xs) zero = some x
  get_elem? (x ∷ xs) (suc i) = get_elem? xs i

  -- A write out of bounds changes nothing.
  abbrev pub set : List A → ℕ → A → List A
  set [] i v = []
  set (x ∷ xs) zero v = v ∷ xs
  set (x ∷ xs) (suc i) v = x ∷ set xs i v

  abbrev pub take : ℕ → List A → List A
  take zero xs = []
  take (suc n) [] = []
  take (suc n) (x ∷ xs) = x ∷ take n xs

  abbrev pub drop : ℕ → List A → List A
  drop zero xs = xs
  drop (suc n) [] = []
  drop (suc n) (x ∷ xs) = drop n xs

  abbrev pub replicate : ℕ → A → List A
  replicate zero a = []
  replicate (suc n) a = a ∷ replicate n a

take-empty {ℓ} : {A : Type ℓ} (n : ℕ) → take {A = A} n [] ≡ []
take-empty zero = refl
take-empty (suc n) = refl

drop-empty {ℓ} : {A : Type ℓ} (n : ℕ) → drop {A = A} n [] ≡ []
drop-empty zero = refl
drop-empty (suc n) = refl

module _ {ℓ} {A : Type ℓ} where
  pub length-append : (xs ys : List A) → length (xs ++ ys) ≡ length xs + length ys
  length-append [] ys = omega arith
  length-append (x ∷ xs) ys = omega (arith, length-append xs ys)

  pub take-append-drop : (n : ℕ) (xs : List A) → take n xs ++ drop n xs ≡ xs
  take-append-drop zero xs = refl
  take-append-drop (suc n) [] = refl
  take-append-drop (suc n) (x ∷ xs) = rw (take-append-drop n xs)

  pub length-take : (n : ℕ) (xs : List A) → length (take n xs) ≡ min n (length xs)
  length-take zero xs = omega arith
  length-take (suc n) [] = omega arith
  length-take (suc n) (x ∷ xs) = omega (arith, length-take n xs)

  pub length-drop : (n : ℕ) (xs : List A) → length (drop n xs) ≡ length xs - n
  length-drop zero xs = omega arith
  length-drop (suc n) [] = omega arith
  length-drop (suc n) (x ∷ xs) = omega (arith, length-drop n xs)

  pub length-replicate : (n : ℕ) (a : A) → length (replicate n a) ≡ n
  length-replicate zero a = refl
  length-replicate (suc n) a = ap suc (length-replicate n a)

  -- Cutting a list of two parts at the seam; the cut is a variable with an equation.
  pub take-append : (n : ℕ) (xs ys : List A) → length xs ≡ n → take n (xs ++ ys) ≡ xs
  take-append zero [] ys h = refl
  take-append zero (x ∷ xs) ys h = absurd (omega arith)
  take-append (suc n) [] ys h = absurd (omega arith)
  take-append (suc n) (x ∷ xs) ys h = rw (take-append n xs ys (omega arith))

  pub drop-append : (n : ℕ) (xs ys : List A) → length xs ≡ n → drop n (xs ++ ys) ≡ ys
  drop-append zero [] ys h = refl
  drop-append zero (x ∷ xs) ys h = absurd (omega arith)
  drop-append (suc n) [] ys h = absurd (omega arith)
  drop-append (suc n) (x ∷ xs) ys h = drop-append n xs ys (omega arith)

  pub take-all : (n : ℕ) (xs : List A) → length xs ≤ n → take n xs ≡ xs
  take-all zero [] h = refl
  take-all zero (x ∷ xs) h = absurd (omega arith)
  take-all (suc n) [] h = refl
  take-all (suc n) (x ∷ xs) h = rw (take-all n xs (omega arith))

  pub drop-all : (n : ℕ) (xs : List A) → length xs ≤ n → drop n xs ≡ []
  drop-all zero [] h = refl
  drop-all zero (x ∷ xs) h = absurd (omega arith)
  drop-all (suc n) [] h = refl
  drop-all (suc n) (x ∷ xs) h = drop-all n xs (omega arith)

  -- A cut in two steps.
  pub take-add : (k n : ℕ) (xs : List A) → take k xs ++ take n (drop k xs) ≡ take (k + n) xs
  take-add zero n xs = rw zero-add
  take-add (suc k) n [] = rw (suc-add, take-empty n)
  take-add (suc k) n (x ∷ xs) = rw (suc-add, take-add k n xs)

  pub drop-add : (k n : ℕ) (xs : List A) → drop n (drop k xs) ≡ drop (k + n) xs
  drop-add zero n xs = rw zero-add
  drop-add (suc k) n [] = rw (suc-add, drop-empty n)
  drop-add (suc k) n (x ∷ xs) = rw (suc-add) (drop-add k n xs)

  -- A cut past the end is a cut at the length of what it takes.
  pub take-clip : (k : ℕ) (xs : List A) → take k xs ≡ take (length (take k xs)) xs
  take-clip zero xs = refl
  take-clip (suc k) [] = refl
  take-clip (suc k) (x ∷ xs) = ap (λ r. x ∷ r) (take-clip k xs)

  pub drop-clip : (k : ℕ) (xs : List A) → drop k xs ≡ drop (length (take k xs)) xs
  drop-clip zero xs = refl
  drop-clip (suc k) [] = refl
  drop-clip (suc k) (x ∷ xs) = drop-clip k xs

  pub nil_of_length : (xs : List A) → length xs ≡ 0 → xs ≡ []
  nil_of_length [] h = refl
  nil_of_length (x ∷ xs) h = absurd (omega arith)

module _ {ℓ} {A : Type ℓ} where
  pub drop-replicate : (k n : ℕ) (a : A) → drop k (replicate n a) ≡ replicate (n - k) a
  drop-replicate zero n a = let e : n ≡ n - 0 = omega arith in ap (λ m. replicate m a) e
  drop-replicate (suc k) zero a = let e : 0 ≡ 0 - suc k = omega arith in ap (λ m. replicate m a) e
  drop-replicate (suc k) (suc n) a =
      let e : n - k ≡ suc n - suc k = omega arith in
      drop-replicate k n a ∙ ap (λ m. replicate m a) e

  pub take-append_le : (n : ℕ) (xs ys : List A) → n ≤ length xs → take n (xs ++ ys) ≡ take n xs
  take-append_le zero xs ys h = refl
  take-append_le (suc n) [] ys h = absurd (omega arith)
  take-append_le (suc n) (x ∷ xs) ys h = ap (λ r. x ∷ r) (take-append_le n xs ys (omega arith))

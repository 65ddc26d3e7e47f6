-- ===== src/Run.antt =====
-- How a run of the C code ends: with a value, by exit(1), by an access outside of an array, or
-- not at all (a loop that has used up its fuel).
use cryptodev_chat.Common.{ℕ, Bool, true, false, ◌≡◌, refl}

pub data Run {ℓ} (A : Type ℓ) : Type ℓ where
  ok : A → Run A
  exits : ℕ → Run A
  faults : Run A
  spins : Run A

infixl 5 ◌>>=◌ ◌>>◌
abbrev pub ◌>>=◌ {ℓ κ} : {A : Type ℓ} {B : Type κ} → Run A → (A → Run B) → Run B
ok a >>= f = f a
exits n >>= f = exits n
faults >>= f = faults
spins >>= f = spins

abbrev pub ◌>>◌ {ℓ} : {B : Type ℓ} → Run (Unit {0}) → Run B → Run B
m >> k = m >>= λ _. k

-- if (b) { perror(...); exit(1); }
abbrev pub exit_if : Bool → Run (Unit {0})
exit_if true = exits 1
exit_if false = ok tt

pub bind-ok :
    {A B : Type 0} (m : Run A) (f : A → Run B) {b : B}
    → (m >>= f) ≡ ok b
    → (a : A) × (m ≡ ok a) × (f a ≡ ok b)
bind-ok (ok a) f h = (a, refl, h)
bind-ok (exits n) f h = cc
bind-ok faults f h = cc
bind-ok spins f h = cc

-- A run that ends with a value.
pub data Returns {A : Type 0} : Run A → Type 0 where
  returns : {a : A} → Returns (ok a)

pub Returns-ok : {A : Type 0} {m : Run A} → Returns m → (a : A) × (m ≡ ok a)
Returns-ok (returns {a}) = (a, refl)

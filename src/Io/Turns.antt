-- ===== src/Io/Turns.antt =====
-- What a schedule of turns grants.
use cryptodev_chat.Common.{
  ℕ, suc, ◌≤◌, ◌<◌, min, ◌≡◌, refl, ◌⊎◌, inl, inr, List, [], ◌∷◌, none, some, arith,
}
use cryptodev_chat.Io.{Turn, upto, failing, Steady, next_grant, rest_turns}

-- A call that asks for a byte at least fails or transfers between one byte and all it asks for.
pub next_grant_bounds :
    (ts : List Turn) (cnt : ℕ)
    → 0 < cnt
    → ((next_grant ts cnt ≡ none) × (¬ Steady ts))
      ⊎ ((k : ℕ) × (next_grant ts cnt ≡ some k) × (0 < k) × (k ≤ cnt))
next_grant_bounds [] cnt h = inr (cnt, refl, h, omega arith)
next_grant_bounds (upto n ∷ ts) cnt h = inr (min (suc n) cnt, refl, omega arith, omega arith)
next_grant_bounds (failing ∷ ts) cnt h = inl (refl, λ s. s)

pub Steady-rest : (ts : List Turn) → Steady ts → Steady (rest_turns ts)
Steady-rest [] s = s
Steady-rest (upto n ∷ ts) s = s
Steady-rest (failing ∷ ts) s = absurd s

-- ===== src/Common/Update.antt =====
-- Functions from numbers, as tables: the change at one number.
use Prim.Native.Nat.{ℕ}
use mathlib.Core.Path.{◌≡◌, refl, sym, ◌∙◌, fun_ext}
use mathlib.Core.Logic.{◌≢◌, ◌⊎◌, inl, inr}
use native.Mathlib.Omega.{arith}
use cryptodev_chat.Common.Tests.{◌==◌, if◌then◌else◌, eq→==, ne→==-false, Bool-cases}

module _ {ℓ} {A : Type ℓ} where
  unfoldable pub update : (ℕ → A) → ℕ → A → ℕ → A
  update f i x j = if i == j then x else f j

  pub update_self : (f : ℕ → A) (i : ℕ) (x : A) → update f i x i ≡ x
  unfolding update
  update_self f i x = rw (eq→== i i refl) refl

  pub update_other : (f : ℕ → A) (i j : ℕ) (x : A) → i ≢ j → update f i x j ≡ f j
  unfolding update
  update_other f i j x h = rw (ne→==-false i j h) refl

  pub update-update : (f : ℕ → A) (i : ℕ) (x y : A) → update (update f i x) i y ≡ update f i y
  unfolding update
  update-update f i x y = fun_ext λ j. ground arith

  pub update_same : (f : ℕ → A) (i : ℕ) → update f i (f i) ≡ f
  unfolding update
  update_same f i = fun_ext λ j. elim (Bool-cases (i == j)) [
    | inl e ↦ let same : i ≡ j = ground arith in rw (e, same) refl
    | inr e ↦ rw e refl
  ]

  -- What stands at a number after a change.
  pub update_cases :
      (f : ℕ → A) (i j : ℕ) (x : A)
      → ((i ≡ j) × (update f i x j ≡ x)) ⊎ ((i ≢ j) × (update f i x j ≡ f j))
  unfolding update
  update_cases f i j x = elim (Bool-cases (i == j)) [
    | inl e ↦ let same : i ≡ j = ground arith in inl (same, rw e refl)
    | inr e ↦ let apart : i ≢ j = ground arith in inr (apart, rw e refl)
  ]

  pub update_was :
      (f : ℕ → A) (i j : ℕ) (x : A) {y : A}
      → update f i x j ≡ y
      → ((i ≡ j) × (x ≡ y)) ⊎ ((i ≢ j) × (f j ≡ y))
  update_was f i j x h = elim (update_cases f i j x) [
    | inl (same, e) ↦ inl (same, sym e ∙ h)
    | inr (apart, e) ↦ inr (apart, sym e ∙ h)
  ]

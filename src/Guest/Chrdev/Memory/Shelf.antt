-- ===== src/Guest/Chrdev/Memory/Shelf.antt =====
-- An allocator that keeps the promises of `Allocates`: addresses are given out in turn, and a block
-- that is not live cannot be freed.
use mathlib.Core.Logic.Or
use mathlib.Core.HLevel.{⊥_prop}
use mathlib.Core.List.{Perm, Mem, not-mem-nil, eq-or-mem_of_mem-cons, mem-cons_self}
use mathlib.Core.List.Perm
use cryptodev_chat.Common.{
  ℕ, zero, suc, ◌≤◌, ◌<◌, ◌≡◌, refl, sym, subst, List, [], ◌∷◌, Option, none, some, ◌==◌,
  if◌then◌else◌, Bool-cases, inl, inr, arith,
}
use cryptodev_chat.Run.{Run, ok, faults}
use cryptodev_chat.Guest.Chrdev.Memory.{Allocator, Allocates}

pub record Shelf : Type 0 where
  pub next : ℕ
  pub blocks : List ℕ

abbrev behind : ℕ → Option (List ℕ) → Option (List ℕ)
behind q none = none
behind q (some qs) = some (q ∷ qs)

unfoldable pub without : ℕ → List ℕ → Option (List ℕ)
without p [] = none
without p (q ∷ qs) = if q == p then some qs else behind q (without p qs)

abbrev pub shelved : ℕ → Option (List ℕ) → Run Shelf
shelved n none = faults
shelved n (some ps) = ok (record { next = n; blocks = ps })

abbrev pub shelf_malloc : ℕ → Shelf → Option ℕ × Shelf
shelf_malloc zero h = (none, h)
shelf_malloc (suc n) h = (some h.next, record { next = suc h.next; blocks = h.next ∷ h.blocks })

abbrev pub shelf_free : Option ℕ → Shelf → Run Shelf
shelf_free none h = ok h
shelf_free (some p) h = shelved h.next (without p h.blocks)

abbrev pub shelf : Allocator
shelf = record { Heap = Shelf; kmalloc = shelf_malloc; kfree = shelf_free }

abbrev pub Without : ℕ → List ℕ → Option (List ℕ) → Type 0
Without p qs none = Mem p qs → ⊥
Without p qs (some rest) = Perm qs (p ∷ rest)

behind-Without :
    (p q : ℕ) (qs : List ℕ) (r : Option (List ℕ))
    → (q ≡ p → ⊥)
    → Without p qs r
    → Without p (q ∷ qs) (behind q r)
behind-Without p q qs none apart w =
    λ m. Or.elim ⊥_prop (eq-or-mem_of_mem-cons m) (λ e. apart (sym e)) w
behind-Without p q qs (some rest) apart w = Perm.trans (Perm.cons q w) (Perm.swap p q rest)

pub without-Without : (p : ℕ) (qs : List ℕ) → Without p qs (without p qs)
unfolding without
without-Without p [] = λ m. not-mem-nil m
without-Without p (q ∷ qs) = elim (Bool-cases (q == p)) [
  | inl e ↦
      let same : q ≡ p = ground arith in rw e (subst (λ x. Perm (q ∷ qs) (x ∷ qs)) same Perm.rfl)
  | inr e ↦
      let apart : q ≡ p → ⊥ = ground arith in
      rw e (behind-Without p q qs (without p qs) apart (without-Without p qs))
]

pub shelved-frees :
    (p n : ℕ) (qs rest : List ℕ) (r : Option (List ℕ))
    → Without p qs r
    → Perm qs (p ∷ rest)
    → (h : Shelf) × (shelved n r ≡ ok h) × Perm h.blocks rest
shelved-frees p n qs rest none w l = absurd (w ((Perm.mem_iff l).1 mem-cons_self))
shelved-frees p n qs rest (some ps) w l =
    (record { next = n; blocks = ps }, refl, Perm.cons_inv (Perm.trans (Perm.symm w) l))

pub shelf_gives :
    (n : ℕ) (h : Shelf)
    → 0 < n
    → n ≤ 4096
    → (p : ℕ) × ((shelf_malloc n h).0 ≡ some p) × Perm (shelf_malloc n h).1.blocks (p ∷ h.blocks)
shelf_gives zero h low high = absurd (omega arith)
shelf_gives (suc n) h low high = (h.next, refl, Perm.rfl)

abbrev pub shelf_Allocates : Allocates shelf
shelf_Allocates = record {
  live = λ h. h.blocks;
  limit = 4096;
  gives = shelf_gives;
  gives_none = λ h. (refl, Perm.rfl);
  frees = λ p h rest l.
      shelved-frees p h.next h.blocks rest (without p h.blocks) (without-Without p h.blocks) l;
  frees_none = λ h. refl;
}

abbrev pub empty_shelf : Shelf
empty_shelf = record { next = 1; blocks = [] }

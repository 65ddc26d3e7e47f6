-- ===== src/Io/Write.antt =====
-- insist_write: all branches, for every schedule of partial and failing writes.
use cryptodev_chat.Common.{
  ℕ, zero, suc, ◌+◌, ◌≤◌, ◌<◌, ◌≡◌, refl, ◌∙◌, sym, inl, inr, List, [], ◌∷◌, ◌++◌, Option, some, ℤ,
  pos, negsuc, length, take, drop, arith, append_assoc, append-nil, take-append-drop, length-drop,
  take-add,
}
use cryptodev_chat.Io.{Port, Steady, write, insist_write_loop, insist_write}
use cryptodev_chat.Io.Turns.{next_grant_bounds, Steady-rest}

-- Every byte was written and the count is returned, or a write failed, which no steady schedule
-- has, and a strict prefix was written.
pub data Written (buf : List ℕ) (p : Port) (orig : ℕ) (r : Option ℤ × Port) : Type 0 where
  complete :
      r.0 ≡ some (pos orig)
      → r.1.outgoing ≡ p.outgoing ++ buf
      → r.1.incoming ≡ p.incoming
      → (Steady p.turns → Steady r.1.turns)
      → Written buf p orig r
  cut :
      (k : ℕ)
      → k < length buf
      → r.0 ≡ some (negsuc 0)
      → r.1.outgoing ≡ p.outgoing ++ take k buf
      → r.1.incoming ≡ p.incoming
      → ¬ Steady p.turns
      → Written buf p orig r

Written-step :
    (k orig : ℕ) (buf : List ℕ) (p q : Port) {r : Option ℤ × Port}
    → k ≤ length buf
    → q.outgoing ≡ p.outgoing ++ take k buf
    → q.incoming ≡ p.incoming
    → (Steady p.turns → Steady q.turns)
    → Written (drop k buf) q orig r
    → Written buf p orig r
Written-step k orig buf p q h out inc st (complete e o i t) =
    complete e (o ∙ rw (out, append_assoc, take-append-drop) refl) (i ∙ inc) (λ s. t (st s))
Written-step k orig buf p q h out inc st (cut j small e o i t) =
    cut (k + j) (omega (arith, length-drop k buf)) e (o ∙ rw (out, append_assoc, take-add) refl)
      (i ∙ inc) (λ s. t (st s))

insist_write_loop-Written :
    (fuel : ℕ) (buf : List ℕ) (orig : ℕ) (p : Port)
    → length buf ≤ fuel
    → Written buf p orig (insist_write_loop fuel buf orig p)
unfolding insist_write_loop write
insist_write_loop-Written fuel [] orig p h =
    complete refl (sym (append-nil p.outgoing)) refl (λ s. s)
insist_write_loop-Written zero (b ∷ bs) orig p h = absurd (omega arith)
insist_write_loop-Written (suc fuel) (b ∷ bs) orig p h =
    elim (next_grant_bounds p.turns (suc (length bs)) (omega arith)) [
      | inl (e, unsteady) ↦
          rw e (cut 0 (omega arith) refl (sym (append-nil p.outgoing)) refl unsteady)
      | inr (k, e, low, high) ↦ rw e (
          Written-step k orig (b ∷ bs) p _ high refl refl (Steady-rest p.turns) (
            insist_write_loop-Written fuel (drop k (b ∷ bs)) orig _
              (omega (arith, length-drop k (b ∷ bs)))))
    ]

-- Where each write of the schedule fails or transfers a byte at least, insist_write ends: either it returns the count,
-- has appended the whole buffer to what was written before and leaves the unread bytes alone, or
-- some write of the schedule fails, it returns -1 and has appended a strict prefix of the buffer.
pub insist_write-Written :
    (buf : List ℕ) (p : Port) → Written buf p (length buf) (insist_write buf p)
unfolding insist_write
insist_write-Written buf p = insist_write_loop-Written (length buf) buf (length buf) p (omega arith)

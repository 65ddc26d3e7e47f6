-- ===== src/Io/Read.antt =====
-- insist_read: all branches, for every way in which the stream is cut into reads.
use cryptodev_chat.Common.{
  min, nil_of_length, ℕ, zero, suc, ◌+◌, ◌-◌, ◌≤◌, ◌<◌, ◌≡◌, refl, ◌∙◌, sym, inl, inr, List, [],
  ◌++◌, Option, some, ℤ, pos, negsuc, length, take, drop, arith, append_assoc, append-nil,
  length-take, length-drop, take-add, drop-add, ap, take-clip, drop-clip, take-append-drop,
}
use cryptodev_chat.Io.{Port, Steady, read, insist_read_loop, insist_read, after_read, rest_turns}
use cryptodev_chat.Io.Turns.{next_grant_bounds, Steady-rest}

-- All that was asked for has arrived; or the stream ended before that, and the result is 0; or a
-- read failed, which no steady schedule has.
pub data Fetched (cnt orig : ℕ) (got : List ℕ) (p : Port) (r : Option ℤ × List ℕ × Port)
    : Type 0 where
  complete :
      cnt ≤ length p.incoming
      → r.0 ≡ some (pos orig)
      → r.1 ≡ got ++ take cnt p.incoming
      → r.2.incoming ≡ drop cnt p.incoming
      → r.2.outgoing ≡ p.outgoing
      → (Steady p.turns → Steady r.2.turns)
      → Fetched cnt orig got p r
  ended :
      length p.incoming < cnt
      → r.0 ≡ some (pos 0)
      → r.1 ≡ got ++ p.incoming
      → r.2.outgoing ≡ p.outgoing
      → (Steady p.turns → Steady r.2.turns)
      → Fetched cnt orig got p r
  broken :
      (k : ℕ)
      → k < cnt
      → r.0 ≡ some (negsuc 0)
      → r.1 ≡ got ++ take k p.incoming
      → r.2.outgoing ≡ p.outgoing
      → ¬ Steady p.turns
      → Fetched cnt orig got p r

module _ (cnt k orig : ℕ) (got : List ℕ) (p q : Port) {r : Option ℤ × List ℕ × Port} where
  Fetched-step :
      k ≤ cnt
      → k ≤ length p.incoming
      → q.incoming ≡ drop k p.incoming
      → q.outgoing ≡ p.outgoing
      → (Steady p.turns → Steady q.turns)
      → Fetched (cnt - k) orig (got ++ take k p.incoming) q r
      → Fetched cnt orig got p r
  Fetched-step h l inc out st (complete few e b i o t) =
      complete (omega (arith, ap length inc, length-drop k p.incoming)) e
        (b ∙ rw (inc, append_assoc, take-add, whole) refl) (i ∙ rw (inc, drop-add, whole) refl)
        (o ∙ out) (λ s. t (st s))
    where
      whole : k + (cnt - k) ≡ cnt
      whole = omega arith
  Fetched-step h l inc out st (ended few e b o t) =
      ended (omega (arith, ap length inc, length-drop k p.incoming)) e
        (b ∙ rw (inc, append_assoc, take-append-drop) refl) (o ∙ out) (λ s. t (st s))
  Fetched-step h l inc out st (broken j small e b o t) =
      broken (k + j) (omega arith) e (b ∙ rw (inc, append_assoc, take-add) refl) (o ∙ out)
        (λ s. t (st s))

-- One round, with what its read has returned: the first `m` bytes of `incoming`.
module _ (cnt orig : ℕ) (got : List ℕ) (p q : Port)
    (again : ℕ → List ℕ → Port → Option ℤ × List ℕ × Port) where
  after_read-Fetched :
      (m : ℕ) (bs : List ℕ)
      → 0 < cnt
      → m ≤ cnt
      → m ≤ length p.incoming
      → bs ≡ take m p.incoming
      → (m ≡ 0 → p.incoming ≡ [])
      → q.incoming ≡ drop m p.incoming
      → q.outgoing ≡ p.outgoing
      → (Steady p.turns → Steady q.turns)
      → (0 < m → Fetched (cnt - m) orig (got ++ bs) q (again m (got ++ bs) q))
      → Fetched cnt orig got p (after_read (pos m, bs, q) got again)
  after_read-Fetched zero bs more h l eb none_left inc out st ih =
      ended (omega (arith, ap length (none_left refl))) refl
        (rw (none_left refl) (sym (append-nil got))) out st
  after_read-Fetched (suc m) bs more h l eb none_left inc out st ih =
      rw eb (Fetched-step cnt (suc m) orig got p q h l inc out st (rw eb at (ih (omega arith))))

insist_read_loop-Fetched :
    (fuel cnt orig : ℕ) (got : List ℕ) (p : Port)
    → cnt ≤ fuel
    → Fetched cnt orig got p (insist_read_loop fuel cnt orig got p)
unfolding insist_read_loop read
insist_read_loop-Fetched fuel zero orig got p h =
    complete (omega arith) refl (sym (append-nil got)) refl refl (λ s. s)
insist_read_loop-Fetched zero (suc cnt) orig got p h = absurd (omega arith)
insist_read_loop-Fetched (suc fuel) (suc cnt) orig got p h =
    elim (next_grant_bounds p.turns (suc cnt) (omega arith)) [
      | inl (e, unsteady) ↦ rw e (broken 0 (omega arith) refl (sym (append-nil got)) refl unsteady)
      | inr (k, e, low, high) ↦ rw e (
          let inc = p.incoming in
          let m = length (take k inc) in
          let fits : m ≡ min k (length inc) = length-take k inc in
          let q : Port = record p { incoming = drop k inc; turns = rest_turns p.turns } in
          let got' : List ℕ = got ++ take k inc in
          after_read-Fetched (suc cnt) orig got p q
            (λ k' g r. insist_read_loop fuel (suc cnt - k') orig g r) m (take k inc) (omega arith)
            (omega arith) (omega arith) (take-clip k inc) (λ z. nil_of_length inc (omega arith))
            (drop-clip k inc) refl (Steady-rest p.turns)
            (λ some_read. insist_read_loop-Fetched fuel (suc cnt - m) orig got' q (omega arith)))
    ]

-- For every way in which the stream is cut into reads, insist_read ends in one of three ways: it
-- returns the count and has stored exactly the next `cnt` bytes, which it takes off the stream; the
-- stream holds fewer, and it returns 0; or a read of the schedule fails, and it returns -1. What was
-- written to the descriptor before stays as it was.
pub insist_read-Fetched : (cnt : ℕ) (p : Port) → Fetched cnt cnt [] p (insist_read cnt p)
unfolding insist_read
insist_read-Fetched cnt p = insist_read_loop-Fetched cnt cnt cnt [] p (omega arith)

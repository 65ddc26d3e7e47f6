-- ===== src/SelfTest/Insist.antt =====
-- The insist_read of crypto-test.c and that of socket-common.c.
use cryptodev_chat.Common.{
  ℕ, zero, suc, ◌-◌, ◌≤◌, ◌<◌, ◌≡◌, refl, inl, inr, List, [], ◌++◌, Option, none, ℤ, pos, length,
  take, drop, min, arith, length-take, length-drop,
}
use cryptodev_chat.Io.{Port, Steady, read, rest_turns}
use cryptodev_chat.Io.Turns.{next_grant_bounds, Steady-rest}
use cryptodev_chat.Io.{
  insist_read as io_insist_read, insist_read_loop as io_insist_read_loop,
  after_read as io_after_read,
}
use cryptodev_chat.SelfTest.CryptoTest.{insist_read, insist_read_loop, after_read}

-- After a read of some bytes the two loops go on alike.
after_read-after_read :
    (m : ℕ) (bs got : List ℕ) (q : Port)
    (again again' : ℕ → List ℕ → Port → Option ℤ × List ℕ × Port)
    → 0 < m
    → again m (got ++ bs) q ≡ again' m (got ++ bs) q
    → after_read (pos m, bs, q) got again ≡ io_after_read (pos m, bs, q) got again'
after_read-after_read zero bs got q again again' h e = absurd (omega arith)
after_read-after_read (suc m) bs got q again again' h e = e

insist_read_loop-Io :
    (fuel cnt orig : ℕ) (got : List ℕ) (p : Port)
    → cnt ≤ length p.incoming
    → insist_read_loop fuel cnt orig got p ≡ io_insist_read_loop fuel cnt orig got p
unfolding insist_read_loop io_insist_read_loop read
insist_read_loop-Io fuel zero orig got p h = refl
insist_read_loop-Io zero (suc cnt) orig got p h = refl
insist_read_loop-Io (suc fuel) (suc cnt) orig got p h =
    elim (next_grant_bounds p.turns (suc cnt) (omega arith)) [
      | inl (e, unsteady) ↦ rw e refl
      | inr (k, e, low, high) ↦ rw e (
          let inc = p.incoming in
          let m = length (take k inc) in
          let fits : m ≡ min k (length inc) = length-take k inc in
          let q : Port = record p { incoming = drop k inc; turns = rest_turns p.turns } in
          after_read-after_read m (take k inc) got q
            (λ k' g r. insist_read_loop fuel (suc cnt - k') orig g r)
            (λ k' g r. io_insist_read_loop fuel (suc cnt - k') orig g r) (omega arith)
            (insist_read_loop-Io fuel (suc cnt - m) orig (got ++ take k inc) q
              (omega (arith, length-drop k inc))))
    ]

-- Where the stream has as many bytes as are asked for, the insist_read of crypto-test.c does what that
-- of the chat does, for every schedule of partial and failing reads.
pub insist_read-Io :
    (cnt : ℕ) (p : Port) → cnt ≤ length p.incoming → insist_read cnt p ≡ io_insist_read cnt p
unfolding insist_read io_insist_read
insist_read-Io cnt p h = insist_read_loop-Io cnt cnt cnt [] p h

insist_read_loop-endless :
    (fuel cnt orig : ℕ) (got : List ℕ) (p : Port)
    → Steady p.turns
    → length p.incoming < cnt
    → (insist_read_loop fuel cnt orig got p).0 ≡ none
unfolding insist_read_loop read
insist_read_loop-endless fuel zero orig got p st h = absurd (omega arith)
insist_read_loop-endless zero (suc cnt) orig got p st h = refl
insist_read_loop-endless (suc fuel) (suc cnt) orig got p st h =
    elim (next_grant_bounds p.turns (suc cnt) (omega arith)) [
      | inl (e, unsteady) ↦ absurd (unsteady st)
      | inr (k, e, low, high) ↦ rw e (
          let inc = p.incoming in
          let m = length (take k inc) in
          let fits : m ≡ min k (length inc) = length-take k inc in
          let q : Port = record p { incoming = drop k inc; turns = rest_turns p.turns } in
          insist_read_loop-endless fuel (suc cnt - m) orig (got ++ take k inc) q
            (Steady-rest p.turns st) (omega (arith, length-drop k inc)))
    ]

-- Where no read fails and the stream ends before the count, the insist_read of crypto-test.c does not
-- return, however many rounds its loop is given.
pub insist_read-endless :
    (fuel cnt : ℕ) (p : Port)
    → Steady p.turns
    → length p.incoming < cnt
    → (insist_read_loop fuel cnt cnt [] p).0 ≡ none
insist_read-endless fuel cnt p st h = insist_read_loop-endless fuel cnt cnt [] p st h

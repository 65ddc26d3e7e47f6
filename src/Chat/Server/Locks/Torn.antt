-- ===== src/Chat/Server/Locks/Torn.antt =====
-- stdout has no lock.
use cryptodev_chat.Common.{ℕ, ◌≡◌, refl, List, [], ◌∷◌, arith, update}
use cryptodev_chat.Chat.Server.Locks.{
  Job, looping, System, receive, print, printed, move, accept, Reach, here, next,
}
use cryptodev_chat.Chat.Server.Locks.Whole.{start}

-- Two threads that print a text of two bytes each can leave the bytes in turns on stdout, whatever
-- the bytes and the blocks.
pub Reach-torn :
    (a b c d : ℕ) (block block' : ℕ → List ℕ)
    → (z : System) × Reach start z
      × (z.pc 0 ≡ looping (record { text = a ∷ b ∷ []; block = block }) 0)
      × (z.pc 1 ≡ looping (record { text = c ∷ d ∷ []; block = block' }) 0)
      × (z.shared.stdout ≡ a ∷ c ∷ b ∷ d ∷ [])
unfolding update
Reach-torn a b c d block block' =
    let job : Job = record { text = a ∷ b ∷ []; block = block } in
    let job' : Job = record { text = c ∷ d ∷ []; block = block' } in
    let r₂ = next (next here (accept (omega arith))) (accept (omega arith)) in
    let r₄ = next (next r₂ (move 0 (receive job))) (move 1 (receive job')) in
    let r₆ =
      next (next r₄ (move 0 (print 1 (omega arith) (omega arith))))
        (move 1 (print 1 (omega arith) (omega arith))) in
    let r₈ =
      next (next r₆ (move 0 (print 1 (omega arith) (omega arith))))
        (move 1 (print 1 (omega arith) (omega arith))) in
    (_, next (next r₈ (move 0 (printed refl))) (move 1 (printed refl)), refl, refl, refl)

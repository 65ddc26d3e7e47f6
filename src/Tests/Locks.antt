-- ===== src/Tests/Locks.antt =====
-- Two clients; the thread of client 1 forwards "hi" to client 0, byte by byte.
use cryptodev_chat.Common.{ℕ, ◌≡◌, ◌⊎◌, refl, [], ◌∷◌, some, true, arith, update}
use cryptodev_chat.Chat.Server.Locks.{
  Job, looping, System, receive, printed, wait, write, post, skip, move, accept, Reach, here, next,
}
use cryptodev_chat.Chat.Server.Locks.Invariant.{target}
use cryptodev_chat.Chat.Server.Locks.Whole.{start, Wire, Reach-whole}
use cryptodev_chat.Chat.Server.Locks.Progress.{CanMove, IsBlocked, Reach-progress}
use cryptodev_chat.Chat.Server.Locks.Torn.{Reach-torn}

abbrev job : Job
job = record { text = []; block = λ c. b'h' ∷ b'i' ∷ [] }

-- In the critical section with one byte written, and after the loop.
abbrev halfway : (z : System) × Reach start z
unfolding update
halfway = (
  _,
  next
      (next
        (next
          (next (next (next here (accept (omega arith))) (accept (omega arith)))
            (move 1 (receive job)))
          (move 1 (printed refl)))
        (move 1 (wait (omega arith) (λ e. omega arith) refl)))
      (move 1 (write 1 (omega arith) (omega arith))),
)

abbrev finished : (z : System) × Reach start z
unfolding update
finished = (
  _,
  next (next (next halfway.1 (move 1 (write 1 (omega arith) (omega arith)))) (move 1 (post refl)))
      (move 1 (skip (omega arith) refl)),
)

Reach-whole_example : Wire halfway.0 0
Reach-whole_example = Reach-whole halfway.1 0

-- The lock is held, and 'h' is on the wire.
halfway_streams : (halfway.0.shared.locks 0 ≡ true) × (halfway.0.shared.streams 0 ≡ b'h' ∷ [])
unfolding halfway update
halfway_streams = (refl, refl)

Reach-progress_example :
    CanMove 1 halfway.0.shared (halfway.0.pc 1)
    ⊎ ((c j : ℕ) × IsBlocked halfway.0.shared (halfway.0.pc 1) c
        × (target (halfway.0.pc j) ≡ some c)
        × CanMove j halfway.0.shared (halfway.0.pc j))
unfolding halfway update
Reach-progress_example = Reach-progress halfway.1 1 (λ e. cc)

Reach-torn_example :
    (z : System) × Reach start z
    × (z.pc 0 ≡ looping (record { text = b'h' ∷ b'i' ∷ []; block = λ c. [] }) 0)
    × (z.pc 1 ≡ looping (record { text = b'o' ∷ b'k' ∷ []; block = λ c. [] }) 0)
    × (z.shared.stdout ≡ b'h' ∷ b'o' ∷ b'i' ∷ b'k' ∷ [])
Reach-torn_example = Reach-torn b'h' b'i' b'o' b'k' (λ c. []) (λ c. [])

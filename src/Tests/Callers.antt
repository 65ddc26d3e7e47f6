-- ===== src/Tests/Callers.antt =====
-- Two callers of the driver: caller 0 opens a file and has its answer, caller 1 waits for the lock to
-- release one.
use cryptodev_chat.Common.{ℕ, ◌≡◌, refl, [], update, pos}
use cryptodev_chat.Cryptodev.Toy.{toy}
use cryptodev_chat.Virtio.Fifo.{fifo, fifo_Carries, no_requests}
use cryptodev_chat.Backend.{handle_elem, vq_handle_output}
use cryptodev_chat.Guest.Chrdev.Agree.{of_open, of_release}
use cryptodev_chat.Guest.Lock.{
  System, call, acquire, add, kick, take, move, handle, Reach, here, next, start,
}
use cryptodev_chat.Guest.Lock.Atomic.{View, Service, Acts, idle_service}
use cryptodev_chat.Guest.Lock.Serial.{Reach-serial}
use cryptodev_chat.Guest.Lock.Progress.{Progress, Reach-Progress}
use cryptodev_chat.Tests.Machine.{mapping}

abbrev answered_once :
    (z : System toy mapping fifo) × Reach toy mapping fifo (start toy mapping fifo no_requests []) z
unfolding update vq_handle_output handle_elem
answered_once = (
  _,
  next
      (next
        (next
          (next
            (next
              (next (next here (move 0 (call _ of_open))) (move 1 (call _ (of_release (pos 5)))))
              (move 0 (acquire refl)))
            (move 0 add))
          (move 0 kick))
        (handle _ _ refl refl))
      (move 0 (take _ _ refl)),
)

Reach-serial_example :
    (a : Service toy mapping) × Acts toy mapping (idle_service toy mapping []) a
    × (a.host ≡ answered_once.0.shared.host)
    × ((i : ℕ) → View (answered_once.0.pc i) (a.phase i))
Reach-serial_example =
    Reach-serial toy mapping fifo fifo_Carries no_requests [] refl answered_once.1

Reach-Progress_example :
    Progress toy mapping fifo fifo_Carries answered_once.0.shared answered_once.0.pc 1
unfolding answered_once update
Reach-Progress_example =
    Reach-Progress toy mapping fifo fifo_Carries no_requests [] 1 refl answered_once.1 (λ e. cc)

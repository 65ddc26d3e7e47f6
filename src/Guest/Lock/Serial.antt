-- ===== src/Guest/Lock/Serial.antt =====
-- The lock makes the calls one after the other.
use cryptodev_chat.Common.{ℕ, ◌≡◌, refl}
use cryptodev_chat.Cryptodev.{Cryptodev}
use cryptodev_chat.Virtio.{Virtqueue, Carries}
use cryptodev_chat.Backend.{Mapping}
use cryptodev_chat.Guest.Lock.{System, Step, move, handle, Reach, here, next, start}
use cryptodev_chat.Guest.Lock.Atomic.{View, Service, Acts, none_yet, then_act, idle_service}
use cryptodev_chat.Guest.Lock.Moves.{Follows, Move-Follows}
use cryptodev_chat.Guest.Lock.Host.{handle-Follows}
use cryptodev_chat.Guest.Lock.Invariant.{Stands-View, Inv, start-Inv}

module _ (d : Cryptodev) (m : Mapping) (t : Virtqueue) (k : Carries t) where
  open d use {State}
  open t use {Queue, add_sgs, get_buf}
  open k use {IsIdle}

  Acts-trans : {a b c : Service d m} → Acts d m a b → Acts d m b c → Acts d m a c
  Acts-trans ab none_yet = ab
  Acts-trans ab (then_act bc act) = then_act (Acts-trans ab bc) act

  Step-Follows :
      {y z : System d m t} {a : Service d m}
      → Inv d m t k y a
      → Step d m t y z
      → Follows d m t k a z
  Step-Follows inv (move i mv) = Move-Follows d m t k inv i mv refl
  Step-Follows inv (handle q s kicked handled) = handle-Follows d m t k inv q s kicked handled

  pub Reach-Follows :
      {y z : System d m t} {a : Service d m}
      → Inv d m t k y a
      → Reach d m t y z
      → Follows d m t k a z
  Reach-Follows {a = a} inv here = (a, none_yet, inv)
  Reach-Follows inv (next r st) =
      let (b, acts, inv₁) = Reach-Follows inv r in
      let (c, more, inv₂) = Step-Follows inv₁ st in (c, Acts-trans acts more, inv₂)

  -- In every order of the steps of any number of callers and of qemu, from an idle queue: what the
  -- callers have done and got is a run of the service that answers one request of the driver at a
  -- time, by one run of qemu's switch between the call and the return, from the same state of the
  -- host and to the same; a caller that holds an answer holds the one that this run gave its request.
  pub Reach-serial :
      {z : System d m t} (q : Queue) (s : State)
      → IsIdle q
      → Reach d m t (start d m t q s) z
      → (a : Service d m) × Acts d m (idle_service d m s) a
        × (a.host ≡ z.shared.host)
        × ((i : ℕ) → View (z.pc i) (a.phase i))
  Reach-serial {z} q s is_idle r =
      let (a, acts, inv) = Reach-Follows (start-Inv d m t k q s is_idle) r in
      (a, acts, inv.host, λ i. Stands-View d m t k z.shared i (z.pc i) (a.phase i) (inv.at_pc i))

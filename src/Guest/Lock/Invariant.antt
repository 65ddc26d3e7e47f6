-- ===== src/Guest/Lock/Invariant.antt =====
-- What holds of the callers, of the queue and of the lock between two steps.
use cryptodev_chat.Common.{ℕ, ◌≡◌, inl, inr, refl, Bool, true, false, some}
use cryptodev_chat.Cryptodev.{Cryptodev}
use cryptodev_chat.Virtio.{Elem, Virtqueue, Carries}
use cryptodev_chat.Backend.{Mapping}
use cryptodev_chat.Guest.Chrdev.{Request}
use cryptodev_chat.Guest.Chrdev.Agree.{IsRequest}
use cryptodev_chat.Guest.Lock.{
  Pc, outside, wanting, locked, added, polling, got, unlocked, Shared, System, start,
}
use cryptodev_chat.Guest.Lock.Atomic.{Phase, idle, calling, done, View, Service, idle_service}

-- Between spin_lock_irqsave and spin_unlock_irqrestore.
abbrev pub inside : Pc → Bool
inside outside = false
inside (wanting r) = false
inside (locked r) = true
inside (added r) = true
inside (polling r) = true
inside (got r e) = true
inside (unlocked r e) = false

module _ (d : Cryptodev) (m : Mapping) (t : Virtqueue) (k : Carries t) where
  open d use {State}
  open t use {Queue, add_sgs, get_buf}
  open k use {IsIdle}

  abbrev pub Holds : Shared Queue State → ℕ → Type 0
  Holds s i = (s.lock ≡ true) × (s.owner ≡ i)

  abbrev pub Queued : Request → Queue → Type 0
  Queued r q = (q' : Queue) × IsIdle q' × (q ≡ (add_sgs r.0 r.1 q').1)

  -- In the loop, before and after qemu has run.
  pub data Polled (s : Shared Queue State) (r : Request) (p : Phase) : Type 0 where
    pending : IsRequest r → s.kicked ≡ true → Queued r s.vq → p ≡ calling r → Polled s r p
    served :
        (e : Elem) (q : Queue)
        → s.kicked ≡ false
        → get_buf s.vq ≡ some (e, q)
        → IsIdle q
        → p ≡ done r e
        → Polled s r p

  abbrev pub Stands : Shared Queue State → ℕ → Pc → Phase → Type 0
  Stands s i outside p = p ≡ idle
  Stands s i (wanting r) p = (p ≡ calling r) × IsRequest r
  Stands s i (locked r) p =
      (p ≡ calling r) × IsRequest r × Holds s i × (s.kicked ≡ false) × IsIdle s.vq
  Stands s i (added r) p =
      (p ≡ calling r) × IsRequest r × Holds s i × (s.kicked ≡ false) × Queued r s.vq
  Stands s i (polling r) p = Holds s i × Polled s r p
  Stands s i (got r e) p = (p ≡ done r e) × Holds s i × (s.kicked ≡ false) × IsIdle s.vq
  Stands s i (unlocked r e) p = p ≡ done r e

  pub record Inv (z : System d m t) (a : Service d m) : Type 0 where
    pub host : a.host ≡ z.shared.host
    pub at_pc : (i : ℕ) → Stands z.shared i (z.pc i) (a.phase i)
    pub free : z.shared.lock ≡ false → (z.shared.kicked ≡ false) × IsIdle z.shared.vq
    pub owner : z.shared.lock ≡ true → inside (z.pc z.shared.owner) ≡ true

  pub Stands-Holds :
      (s : Shared Queue State) (i : ℕ) (p : Pc) (f : Phase)
      → inside p ≡ true
      → Stands s i p f
      → Holds s i
  Stands-Holds s i outside f e h = cc
  Stands-Holds s i (wanting r) f e h = cc
  Stands-Holds s i (locked r) f e (_, _, holds, _, _) = holds
  Stands-Holds s i (added r) f e (_, _, holds, _, _) = holds
  Stands-Holds s i (polling r) f e (holds, polled) = holds
  Stands-Holds s i (got r x) f e (_, holds, _, _) = holds
  Stands-Holds s i (unlocked r x) f e h = cc

  -- A caller that does not hold the lock knows nothing of what is shared.
  pub Stands-apart :
      (s s' : Shared Queue State) (i : ℕ) (p : Pc) (f : Phase)
      → (Holds s i → ⊥)
      → Stands s i p f
      → Stands s' i p f
  Stands-apart s s' i outside f other h = h
  Stands-apart s s' i (wanting r) f other h = h
  Stands-apart s s' i (locked r) f other (_, _, holds, _, _) = absurd (other holds)
  Stands-apart s s' i (added r) f other (_, _, holds, _, _) = absurd (other holds)
  Stands-apart s s' i (polling r) f other (holds, _) = absurd (other holds)
  Stands-apart s s' i (got r x) f other (_, holds, _, _) = absurd (other holds)
  Stands-apart s s' i (unlocked r x) f other h = h

  Polled-View :
      (s : Shared Queue State) (r : Request) (f : Phase) → Polled s r f → View (polling r) f
  Polled-View s r f (pending is_request kicked queued eq) = inl eq
  Polled-View s r f (served e q kicked has is_idle eq) = inr (e, eq)

  pub Stands-View :
      (s : Shared Queue State) (i : ℕ) (p : Pc) (f : Phase) → Stands s i p f → View p f
  Stands-View s i outside f h = h
  Stands-View s i (wanting r) f h = h.0
  Stands-View s i (locked r) f h = h.0
  Stands-View s i (added r) f h = h.0
  Stands-View s i (polling r) f h = Polled-View s r f h.1
  Stands-View s i (got r x) f h = h.0
  Stands-View s i (unlocked r x) f h = h

  pub start-Inv : (q : Queue) (s : State) → IsIdle q → Inv (start d m t q s) (idle_service d m s)
  start-Inv q s is_idle = record {
    host = refl;
    at_pc = λ i. refl;
    free = λ h. (refl, is_idle);
    owner = λ h. cc;
  }

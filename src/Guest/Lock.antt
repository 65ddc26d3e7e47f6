-- ===== src/Guest/Lock.antt =====
-- virtio-crypto/guest/crypto-chrdev.c, what open, release and ioctl do under crdrvdata.lock, for any
-- number of callers at once, and vq_handle_output in qemu, which runs when the guest has kicked the
-- queue. A step is one acquisition of the lock, one call on the queue, one release, or one run of
-- vq_handle_output.
--
-- A caller prepares its request before the lock and uses the answer after it, on memory of its own.
pub mod Atomic
pub mod Invariant
pub mod Moves
pub mod Host
pub mod Serial
pub mod Progress
use cryptodev_chat.Common.{
  ℕ, ◌≡◌, List, [], ◌∷◌, Option, none, some, Bool, true, false, update, ◌==◌, if◌then◌else◌,
}
use cryptodev_chat.Run.{Run, ok}
use cryptodev_chat.Cryptodev.{Cryptodev}
use cryptodev_chat.Virtio.{Elem, Virtqueue}
use cryptodev_chat.Backend.{Mapping, vq_handle_output}
use cryptodev_chat.Guest.Chrdev.{Request}
use cryptodev_chat.Guest.Chrdev.Agree.{IsRequest, elem_of}

-- Where a caller stands: before spin_lock_irqsave, behind it, behind virtqueue_add_sgs, in the loop of
-- virtqueue_get_buf, behind the loop with what the loop got, and behind spin_unlock_irqrestore.
pub data Pc : Type 0 where
  outside : Pc
  wanting : Request → Pc
  locked : Request → Pc
  added : Request → Pc
  polling : Request → Pc
  got : Request → Elem → Pc
  unlocked : Request → Elem → Pc

-- `owner` is not in the program: the caller that has taken the lock last.
pub record Shared (Queue State : Type 0) : Type 0 where
  pub lock : Bool
  pub vq : Queue
  pub kicked : Bool
  pub host : State
  pub owner : ℕ

pub data Move (t : Virtqueue) {State : Type 0} (me : ℕ) (s : Shared t.Queue State)
    : Pc → Shared t.Queue State → Pc → Type 0 where
  call : (r : Request) → IsRequest r → Move t me s outside s (wanting r)
  acquire :
      {r : Request}
      → s.lock ≡ false
      → Move t me s (wanting r) (record s { lock = true; owner = me }) (locked r)
  add :
      {r : Request}
      → Move t me s (locked r) (record s { vq = (t.add_sgs r.0 r.1 s.vq).1 }) (added r)
  kick : {r : Request} → Move t me s (added r) (record s { kicked = true }) (polling r)
  poll : {r : Request} → t.get_buf s.vq ≡ none → Move t me s (polling r) s (polling r)
  take :
      {r : Request} (e : Elem) (q : t.Queue)
      → t.get_buf s.vq ≡ some (e, q)
      → Move t me s (polling r) (record s { vq = q }) (got r e)
  release :
      {r : Request} {e : Elem} → Move t me s (got r e) (record s { lock = false }) (unlocked r e)
  return : {r : Request} {e : Elem} → Move t me s (unlocked r e) s outside

module _ (d : Cryptodev) (m : Mapping) (t : Virtqueue) where
  open d use {State}
  open t use {Queue}

  pub record System : Type 0 where
    pub shared : Shared Queue State
    pub pc : ℕ → Pc

  pub data Step (y : System) : System → Type 0 where
    move :
        (i : ℕ) {s' : Shared Queue State} {p' : Pc}
        → Move t i y.shared (y.pc i) s' p'
        → Step y (record { shared = s'; pc = update y.pc i p' })
    -- the notification of the kick reaches qemu
    handle :
        (q : Queue) (s : State)
        → y.shared.kicked ≡ true
        → vq_handle_output d m t y.shared.vq y.shared.host ≡ ok (q, s)
        → Step y (record y { shared = record y.shared { kicked = false; vq = q; host = s } })

  pub data Reach (y : System) : System → Type 0 where
    here : Reach y y
    next : {z u : System} → Reach y z → Step z u → Reach y u

  -- No caller is in the driver.
  abbrev pub start : Queue → State → System
  start q s = record {
    shared = record { lock = false; vq = q; kicked = false; host = s; owner = 0 };
    pc = λ i. outside;
  }

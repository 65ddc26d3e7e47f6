-- ===== src/Virtio.antt =====
-- The virtqueue between the guest driver and the qemu device. Both of its ends (virtqueue_add_sgs and
-- virtqueue_get_buf in Linux, virtqueue_pop and virtqueue_push in qemu) are not in the repository:
-- the queue is a record of these calls, and `Carries` states what they document of a queue that
-- carries one request at a time, which is how the driver's lock lets it be used.
pub mod Fifo
use cryptodev_chat.Common.{ℕ, ◌≡◌, List, Option, none, some, ℤ, pos}
use cryptodev_chat.Cryptodev.{SessionOp, CryptOp}

-- What the buffer of one scatter-gather entry holds.
pub data Cell : Type 0 where
  word : ℕ → Cell  -- unsigned int, __u32
  int : ℤ → Cell
  bytes : List ℕ → Cell
  session : SessionOp → Cell
  crypt : CryptOp → Cell

-- One request: the buffers that the device reads, and those that it writes.
pub record Elem : Type 0 where
  pub out_sg : List Cell
  pub in_sg : List Cell

pub record Virtqueue : Type 1 where
  pub Queue : Type 0
  pub add_sgs : List Cell → List Cell → Queue → ℤ × Queue
  pub get_buf : Queue → Option (Elem × Queue)
  pub pop : Queue → Option (Elem × Queue)
  pub push : Elem → Queue → Queue

-- What an idle queue promises: the request that the guest adds is the one that the device pops, the
-- guest gets nothing back before the device has pushed, and then it gets what was pushed.
pub record Carries (t : Virtqueue) : Type 1 where
  pub IsIdle : t.Queue → Type 0
  pub HasPopped : t.Queue → Type 0
  pub adds :
      (out_sg in_sg : List Cell) (q : t.Queue) → IsIdle q → (t.add_sgs out_sg in_sg q).0 ≡ pos 0
  pub waits :
      (out_sg in_sg : List Cell) (q : t.Queue)
      → IsIdle q
      → t.get_buf (t.add_sgs out_sg in_sg q).1 ≡ none
  pub pops :
      (out_sg in_sg : List Cell) (q : t.Queue)
      → IsIdle q
      → (q' : t.Queue) × (t.pop (t.add_sgs out_sg in_sg q).1
          ≡ some (record { out_sg = out_sg; in_sg = in_sg }, q'))
        × HasPopped q'
  pub returns :
      (e : Elem) (q : t.Queue)
      → HasPopped q
      → (q' : t.Queue) × (t.get_buf (t.push e q) ≡ some (e, q')) × IsIdle q'

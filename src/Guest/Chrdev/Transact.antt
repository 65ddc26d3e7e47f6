-- ===== src/Guest/Chrdev/Transact.antt =====
-- One request and its answer over an idle queue.
use cryptodev_chat.Common.{ℕ, zero, suc, ◌≡◌, refl, List, none, some}
use cryptodev_chat.Run.{ok}
use cryptodev_chat.Cryptodev.{Cryptodev}
use cryptodev_chat.Virtio.{Cell, Elem, Virtqueue, Carries}
use cryptodev_chat.Backend.{Mapping, handle_elem, vq_handle_output}
use cryptodev_chat.Guest.Chrdev.{busy_wait, transact}

module _ (d : Cryptodev) (m : Mapping) (t : Virtqueue) (k : Carries t) where
  open d use {State}
  open t use {Queue, add_sgs, get_buf, pop, push}
  open k use {IsIdle, HasPopped}

  busy_wait-answer :
      (polls : ℕ) (q q' q'' : Queue) (s s' : State) (elem elem' : Elem)
      → get_buf q ≡ none
      → pop q ≡ some (elem, q')
      → handle_elem d m elem s ≡ ok (elem', s')
      → get_buf (push elem' q') ≡ some (elem', q'')
      → busy_wait d m t polls q s ≡ ok (elem', q'', s')
  unfolding busy_wait vq_handle_output
  busy_wait-answer zero q q' q'' s s' elem elem' empty popped handled got =
      rw (popped, handled, got) refl
  busy_wait-answer (suc polls) q q' q'' s s' elem elem' empty popped handled got =
      rw (empty) (busy_wait-answer polls q q' q'' s s' elem elem' empty popped handled got)

  -- Over an idle queue, a request that the device can answer comes back to the guest as the device has
  -- answered it, however often the guest polls before qemu runs, and the queue is idle again.
  pub transact-answer :
      (polls : ℕ) (out_sg in_sg : List Cell) (q : Queue) (s s' : State) (elem' : Elem)
      → IsIdle q
      → handle_elem d m (record { out_sg = out_sg; in_sg = in_sg }) s ≡ ok (elem', s')
      → (q' : Queue) × (transact d m t polls (out_sg, in_sg) q s ≡ ok (elem', q', s')) × IsIdle q'
  unfolding transact
  transact-answer polls out_sg in_sg q s s' elem' idle handled =
      let (q₁, popped, has) = k.pops out_sg in_sg q idle in
      let (q₂, got, idle') = k.returns elem' q₁ has in
      (
        q₂,
        busy_wait-answer polls _ q₁ q₂ s s' _ elem' (k.waits out_sg in_sg q idle) popped handled
            got,
        idle',
      )

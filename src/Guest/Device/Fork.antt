-- ===== src/Guest/Device/Fork.antt =====
-- virtio-crypto/guest/test_fork_crypto.c in a virtual machine: its /dev/crypto is the guest's device.
use cryptodev_chat.Common.{ℕ, ◌≤◌, ◌≡◌, refl, List, some, length, Bool, true, false, inl, inr}
use cryptodev_chat.Cryptodev.{Cryptodev}
use cryptodev_chat.Cryptodev.Service.{BlockCipher, Service, Sharing}
use cryptodev_chat.Run.{ok}
use cryptodev_chat.Virtio.{Virtqueue, Carries}
use cryptodev_chat.Backend.{Mapping}
use cryptodev_chat.SelfTest.{Arrays}
use cryptodev_chat.Io.{Port, Steady}
use cryptodev_chat.SelfTest.TestCrypto.{Stack, data_size, key_size}
use cryptodev_chat.SelfTest.Exit.{read-fills}
use cryptodev_chat.SelfTest.Fork.{Data, getting, ended, begin, forked}
use cryptodev_chat.SelfTest.Fork.Apart.{IsData}
use cryptodev_chat.SelfTest.Fork.Pass.{turns_of, run-passes}
use cryptodev_chat.Guest.Device.{Files}
use cryptodev_chat.Guest.Device.Driver.{guest_device}
use cryptodev_chat.Guest.Device.Promises.{guest_device-Sharing}

-- A process whose array can be filled comes to its first call.
begin-getting :
    (stack : Stack) (p : Port)
    → length stack.input ≡ data_size
    → length stack.key ≡ key_size
    → Steady p.turns
    → (mine : Data) × (begin stack (some p) ≡ ok (getting, mine)) × IsData key_size data_size mine
unfolding begin
begin-getting stack p input_size keyed st =
    let (input, ret, p', filled, size, fine) = read-fills stack.input p input_size st in
    (
      record { key = stack.key; iv = stack.iv; input = input },
      rw (filled, fine) refl,
      record { key_size = keyed; input_size = size },
    )

-- In a virtual machine over a host on which no call fails and whose sessions do not disturb each other,
-- with a /dev/urandom that opens and whose reads do not fail for each process and arrays of the
-- declared sizes: after the open and the fork, in every order of their calls in which each process
-- has its five turns at least, both processes exit with 0.
pub run-guest :
    (d : Cryptodev) (c : BlockCipher) (v : Service d c)
    → Sharing d c v
    → (m : Mapping) (t : Virtqueue) (k : Carries t) (new_fd : Files → ℕ) (polls vdev minor : ℕ)
      (at_data : Arrays) (parent child : Stack) (p q : Port)
    → length parent.input ≡ data_size
    → length parent.key ≡ key_size
    → Steady p.turns
    → length child.input ≡ data_size
    → length child.key ≡ key_size
    → Steady q.turns
    → (turns : List Bool) (s : (guest_device d m t k new_fd polls vdev minor).State)
    → 5 ≤ turns_of true turns
    → 5 ≤ turns_of false turns
    → (s' : (guest_device d m t k new_fd polls vdev minor).State) × (forked
          (guest_device d m t k new_fd polls vdev minor)
          at_data
          ((guest_device d m t k new_fd polls vdev minor).open_dev s).0
          parent
          child
          (some p)
          (some q)
          turns
          ((guest_device d m t k new_fd polls vdev minor).open_dev s).1
        ≡ ok (record { dev = s'; parent = ended 0; child = ended 0 }))
unfolding forked
run-guest d c v sh m t k new_fd polls vdev minor at_data parent child p q size keyed st size' keyed'
      st' turns s enough enough' =
    let guest = guest_device d m t k new_fd polls vdev minor in
    let (w, shared) = guest_device-Sharing d c v m t k new_fd polls vdev minor sh in
    let (mine, begun, h) = begin-getting parent p size keyed st in
    let (other, begun', h') = begin-getting child q size' keyed' st' in
    let (s', done) =
      run-passes guest c w shared at_data key_size data_size refl (inr (inl refl))
        (guest.open_dev s).0 mine other h h' turns (guest.open_dev s).1 (w.opened s) enough
        enough' in
    (s', rw (begun, begun') done)

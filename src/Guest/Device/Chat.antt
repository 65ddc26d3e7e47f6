-- ===== src/Guest/Device/Chat.antt =====
-- The chat in a virtual machine: its /dev/crypto is the guest's device.
use cryptodev_chat.Common.{◌≡◌, ◌++◌, map, [], true, ℕ, ◌+◌, ◌≤◌, List, ◌∷◌, some, length}
use cryptodev_chat.Cryptodev.{Cryptodev}
use cryptodev_chat.Cryptodev.Service.{BlockCipher, Service}
use cryptodev_chat.Virtio.{Virtqueue, Carries}
use cryptodev_chat.Backend.{Mapping}
use cryptodev_chat.Chat.Cipher.{Frame, data_size}
use cryptodev_chat.Chat.Client.{World, my_rlhandler, get_and_print}
use cryptodev_chat.Chat.Client.Frames.{message_text}
use cryptodev_chat.Chat.Client.Delivery.{connect, AtRest, Delivered, delivery-sealed}
use cryptodev_chat.Chat.Client.Session.{rounds}
use cryptodev_chat.Chat.Client.Session.Rounds.{Line, typing, arriving, texts}
use cryptodev_chat.Chat.Client.Session.Sealed.{FitsBlock, rounds-Sealed}
use cryptodev_chat.Run.{ok}
use cryptodev_chat.Guest.Device.{Files}
use cryptodev_chat.Guest.Device.Driver.{guest_device}
use cryptodev_chat.Guest.Device.Promises.{guest_device-Service}

-- With --encrypted at both ends, each in a virtual machine, a line that is typed at one end is sent,
-- received and shown at the other behind the prompt and before a newline, and nothing stays on the
-- wire: from two ends at rest, where no call fails on the devices of the two hosts, their ciphers are
-- the same, and the line is not empty and fits 256 bytes with its prompt.
pub delivery-guest :
    (d : Cryptodev) (m : Mapping) (t : Virtqueue) (k : Carries t) (new_fd : Files → ℕ)
    (polls vdev minor : ℕ) (frame : Frame) (e : Cryptodev) (m' : Mapping) (t' : Virtqueue)
    (k' : Carries t') (new_fd' : Files → ℕ) (polls' vdev' minor' : ℕ) (frame' : Frame)
    (fresh prompt : List ℕ) (b : ℕ) (bs : List ℕ)
    (w : World (guest_device d m t k new_fd polls vdev minor).State)
    (u : World (guest_device e m' t' k' new_fd' polls' vdev' minor').State) (c : BlockCipher)
    → Service d c
    → Service e c
    → AtRest fresh w u
    → length (b ∷ bs) + length prompt + 5 ≤ data_size
    → Delivered
        (my_rlhandler
          (guest_device d m t k new_fd polls vdev minor)
          frame
          true
          fresh
          prompt
          (some (b ∷ bs)))
        (get_and_print (guest_device e m' t' k' new_fd' polls' vdev' minor') frame' true)
        (message_text prompt (b ∷ bs))
        w
        u
delivery-guest d m t k new_fd polls vdev minor frame e m' t' k' new_fd' polls' vdev' minor' frame'
      fresh prompt b bs w u c v v' rest fits =
    delivery-sealed (guest_device d m t k new_fd polls vdev minor) frame
      (guest_device e m' t' k' new_fd' polls' vdev' minor') frame' fresh prompt b bs w u rest c
      (guest_device-Service d c v m t k new_fd polls vdev minor)
      (guest_device-Service e c v' m' t' k' new_fd' polls' vdev' minor') fits

-- A conversation with --encrypted, each end in a virtual machine: any number of lines that are typed at
-- one end are shown at the other in this order, each behind the prompt and before a newline, and
-- nothing stays on the wire: from two ends at rest, where no call fails on the devices of the two
-- hosts, their ciphers are the same, and no line is empty and each fits 256 bytes with its prompt.
pub rounds-guest :
    (d : Cryptodev) (m : Mapping) (t : Virtqueue) (k : Carries t) (new_fd : Files → ℕ)
    (polls vdev minor : ℕ) (frame : Frame) (e : Cryptodev) (m' : Mapping) (t' : Virtqueue)
    (k' : Carries t') (new_fd' : Files → ℕ) (polls' vdev' minor' : ℕ) (frame' : Frame)
    (fresh prompt prompt' : List ℕ) (ls : List Line)
    (w : World (guest_device d m t k new_fd polls vdev minor).State)
    (u : World (guest_device e m' t' k' new_fd' polls' vdev' minor').State) (c : BlockCipher)
    → Service d c
    → Service e c
    → AtRest fresh w u
    → FitsBlock prompt ls
    → (w' : World (guest_device d m t k new_fd polls vdev minor).State) × (u' : World
        (guest_device e m' t' k' new_fd' polls' vdev' minor').State)
      × (rounds
            (guest_device d m t k new_fd polls vdev minor)
            frame
            true
            fresh
            prompt
            (map typing ls)
            w
          ≡ ok (0, w'))
      × (rounds
            (guest_device e m' t' k' new_fd' polls' vdev' minor')
            frame'
            true
            fresh
            prompt'
            (map arriving ls)
            (connect u w'.sock)
          ≡ ok (0, u'))
      × (u'.term.outgoing ≡ u.term.outgoing ++ texts prompt ls)
      × (u'.sock.incoming ≡ [])
rounds-guest d m t k new_fd polls vdev minor frame e m' t' k' new_fd' polls' vdev' minor' frame'
      fresh prompt prompt' ls w u c v v' rest fits =
    rounds-Sealed prompt (guest_device d m t k new_fd polls vdev minor) frame
      (guest_device e m' t' k' new_fd' polls' vdev' minor') frame' fresh prompt' ls w u c
      (guest_device-Service d c v m t k new_fd polls vdev minor)
      (guest_device-Service e c v' m' t' k' new_fd' polls' vdev' minor') rest fits

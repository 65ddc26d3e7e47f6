-- ===== src/Tests/Plugged.antt =====
-- A qemu that keeps of a device its id and its queues, and a crypto device from the command line.
use cryptodev_chat.Common.{ℕ, refl, List, [], ◌∷◌, ◌++◌, some, pos, Bool, false, eq→==, ◌==◌}
use cryptodev_chat.Run.{Run}
use cryptodev_chat.Cryptodev.Toy.{toy}
use cryptodev_chat.Virtio.Fifo.{Rings, fifo}
use cryptodev_chat.Backend.{vq_handle_output}
use cryptodev_chat.Backend.Device.{Qemu, Builds}
use cryptodev_chat.Backend.Pci.{PciClasses, CryptoPci, virtio_crypto_pci_init}
use cryptodev_chat.Guest.Setup.Plugged.{DeviceId, Matching, Plugged, virtio_crypto_pci_init-Plugged}
use cryptodev_chat.Tests.Machine.{mapping}

abbrev Handler : Type 0
Handler = Rings → List (List ℕ) → Run (Rings × List (List ℕ))

abbrev handler : Handler
handler = vq_handle_output toy mapping fifo

record Bare : Type 0 where
  device_id : ℕ
  queues : List (ℕ × Handler)

abbrev qemu : Qemu Handler
qemu = record {
  Device = Bare;
  virtio_init = λ id size dev. record { device_id = id; queues = [] };
  virtio_add_queue = λ size h dev. record dev { queues = dev.queues ++ (size, h) ∷ [] };
  virtio_device_set_child_bus_name = λ name dev. dev;
  qdev_set_parent_bus = λ dev. dev;
  qdev_init = λ realize dev. (pos 0, realize dev);
}

abbrev qemu_Builds : Builds qemu
qemu_Builds = record {
  device_id = λ dev. dev.device_id;
  queues = λ dev. dev.queues;
  init_id = λ id size dev. refl;
  init_queues = λ id size dev. refl;
  add_queue_id = λ size h dev. refl;
  add_queue_queues = λ size h dev. refl;
  inits = λ realize dev e. refl;
}

abbrev classes : PciClasses
classes = record { communication_other = 0x0780; display_other = 0x0380; others = 0x00ff }

-- The first entry alone.
abbrev first_matches : List DeviceId → ℕ → Bool
first_matches [] device = false
first_matches (entry ∷ rest) device = entry.device == device

first_matches-Matching : Matching first_matches
first_matches-Matching device rest ne = eq→== device device refl

abbrev crypto_pci : CryptoPci Bare
crypto_pci = record {
  class_code = 0;
  id = some (b'c' ∷ []);
  vdev = record { device_id = 0; queues = [] };
}

virtio_crypto_pci_init-Plugged_example :
    Plugged qemu qemu_Builds handler classes
      (λ id. id ++ b'.' ∷ b'0' ∷ [])
      first_matches
      first_matches-Matching
      (virtio_crypto_pci_init qemu handler classes (λ id. id ++ b'.' ∷ b'0' ∷ []) crypto_pci).1
unfolding virtio_crypto_pci_init
virtio_crypto_pci_init-Plugged_example =
    virtio_crypto_pci_init-Plugged qemu qemu_Builds handler classes (λ id. id ++ b'.' ∷ b'0' ∷ [])
      first_matches first_matches-Matching crypto_pci refl

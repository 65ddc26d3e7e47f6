-- ===== src/Guest/Setup/Plugged.antt =====
-- virtio-crypto/guest/crypto-module.c, the table of devices that the driver is for, and the device of
-- virtio-crypto/qemu that it is to find. How Linux looks a device up in the table is a parameter.
use cryptodev_chat.Common.{
  ℕ, ◌+◌, ◌≤◌, ◌≡◌, ◌≢◌, ◌∙◌, ◌⊎◌, refl, ap, List, [], ◌∷◌, ◌++◌, Option, none, some, ℤ, pos,
  negsuc, Bool, true, false, is_neg, length, if◌then◌else◌, arith,
}
use cryptodev_chat.Backend.Device.{Qemu, Builds, virtio_crypto_realize, virtio_crypto_class_init}
use cryptodev_chat.Guest.Chrdev.{UserArg, Request, request_sgs}
use cryptodev_chat.Guest.Chrdev.Bounds.{FitsSgs, fits, request_sgs-FitsSgs}
use cryptodev_chat.Backend.Pci.{
  named, PciClasses, CryptoPci, crypto_class_code, virtio_crypto_pci_init,
  virtio_crypto_pci_class_init,
}

-- VIRTIO_ID_CRYPTO
abbrev pub virtio_id_crypto : ℕ
virtio_id_crypto = 13

-- struct virtio_device_id: the vendor is any, or a number
pub record DeviceId : Type 0 where
  pub device : ℕ
  pub vendor : Option ℕ

abbrev pub id_table : List DeviceId
id_table =
    record { device = virtio_id_crypto; vendor = none }
    ∷ record { device = 0; vendor = some 0 }
    ∷ []

-- Linux: a device matches an entry with its id and any vendor. An entry with the id 0 ends the table.
abbrev pub Matching : (List DeviceId → ℕ → Bool) → Type 0
Matching matches =
    (device : ℕ) (rest : List DeviceId)
    → device ≢ 0
    → matches (record { device = device; vendor = none } ∷ rest) device ≡ true

-- -1 is not 0.
ready : (n : ℤ) → (if is_neg n then negsuc 0 else pos 0) ≡ pos 0 → is_neg n ≡ false
ready (pos n) e = refl
ready (negsuc n) e = cc

fits_queue :
    (fd : ℤ) (cmd : ℕ) (arg : UserArg) (r : Request)
    → request_sgs fd cmd arg ≡ some r
    → length r.0 + length r.1 ≤ 128
fits_queue fd cmd arg r h = within (rw h at (request_sgs-FitsSgs fd cmd arg))
  where
    within : FitsSgs (some r) → length r.0 + length r.1 ≤ 128
    within (fits front last few) = omega arith

module _ {Handler : Type 0} (q : Qemu Handler) (k : Builds q) (vq_handle_output : Handler)
    (c : PciClasses) (bus_name : List ℕ → List ℕ) (matches : List DeviceId → ℕ → Bool)
    (linux : Matching matches) where
  open q use {Device}

  virtio_crypto_realize-device :
      (dev : Device)
      → (k.device_id (virtio_crypto_realize q vq_handle_output dev) ≡ virtio_id_crypto)
        × (k.queues (virtio_crypto_realize q vq_handle_output dev) ≡ (128, vq_handle_output) ∷ [])
  unfolding virtio_crypto_realize
  virtio_crypto_realize-device dev = (
    k.add_queue_id _ _ _ ∙ k.init_id 13 0 dev,
    k.add_queue_queues _ _ _
        ∙ ap (λ qs. qs ++ (128, vq_handle_output) ∷ []) (k.init_queues 13 0 dev),
  )

  abbrev pub IsClass : ℕ → Type 0
  IsClass n = (n ≡ c.communication_other) ⊎ (n ≡ c.display_other) ⊎ (n ≡ c.others)

  crypto_class_code-IsClass : (n : ℕ) → IsClass (crypto_class_code c n)
  unfolding crypto_class_code
  crypto_class_code-IsClass n = ground arith

  -- What the guest finds on its bus.
  pub record Plugged (dev : CryptoPci Device) : Type 0 where
    pub matched : matches id_table (k.device_id dev.vdev) ≡ true
    pub queue : k.queues dev.vdev ≡ (128, vq_handle_output) ∷ []
    pub class : IsClass dev.class_code
    pub pci_id :
        (vendor revision : ℕ)
        → (0x1000 ≤ (virtio_crypto_pci_class_init c vendor revision).device_id)
          × ((virtio_crypto_pci_class_init c vendor revision).device_id ≤ 0x103f)
    pub room :
        (fd : ℤ) (cmd : ℕ) (arg : UserArg) (r : Request)
        → request_sgs fd cmd arg ≡ some r
        → length r.0 + length r.1 ≤ 128

  -- A crypto device that qemu has set up without an error is one that the table of the guest's driver
  -- is for; it has one queue, whose handler is the device's, with room for each request of ioctl; and
  -- its PCI class is the default or one of the two that older machines have, and its PCI id is one of
  -- those of virtio devices, 0x1000 to 0x103f.
  pub virtio_crypto_pci_init-Plugged :
      (dev : CryptoPci Device)
      → (virtio_crypto_pci_init q vq_handle_output c bus_name dev).0 ≡ pos 0
      → Plugged (virtio_crypto_pci_init q vq_handle_output c bus_name dev).1
  unfolding virtio_crypto_pci_init virtio_crypto_class_init
  virtio_crypto_pci_init-Plugged dev e =
      let realize = virtio_crypto_realize q vq_handle_output in
      let bare = q.qdev_set_parent_bus (named q vq_handle_output c bus_name dev.id dev.vdev) in
      let done = k.inits realize bare (ready _ e) in
      let (id, queues) = virtio_crypto_realize-device bare in
      record {
        matched =
            ap (λ x. matches id_table (k.device_id x)) done
            ∙ ap (matches id_table) id
            ∙ linux virtio_id_crypto _ (λ w. omega arith);
        queue = ap k.queues done ∙ queues;
        class = crypto_class_code-IsClass dev.class_code;
        pci_id = λ vendor revision. (omega arith, omega arith);
        room = λ fd cmd arg r h. fits_queue fd cmd arg r h;
      }

-- ===== src/Guest/Devices.antt =====
-- virtio-crypto/guest/crypto-module.c, virtcons_probe and virtcons_remove, and the lookup by minor
-- number of crypto-chrdev.c: the list of devices of the driver. `Queue` is the type of virtqueues.
pub mod Laws
pub mod Events
use cryptodev_chat.Common.{
  ℕ, zero, suc, ◌+◌, ◌%◌, ◌^◌, List, [], ◌∷◌, ◌++◌, Option, none, some, ℤ, pos, negsuc, Bool, true,
  false, ◌==◌, if◌then◌else◌,
}

pub record CryptoDevice (Queue : Type 0) : Type 0 where
  pub vdev : ℕ
  pub vq : Queue
  pub minor : ℕ

-- struct crypto_driver_data
pub record DriverData (Queue : Type 0) : Type 0 where
  pub devs : List (CryptoDevice Queue)
  pub next_minor : ℕ

-- -ENXIO, -ENOMEM, -ENODEV
abbrev pub enxio : ℤ
enxio = negsuc 5

abbrev pub enomem : ℤ
enomem = negsuc 11

abbrev pub enodev : ℤ
enodev = negsuc 18

module _ {Queue : Type 0} where
  -- list_for_each_entry with the test on the minor number
  pub find_minor : ℕ → List (CryptoDevice Queue) → Option (CryptoDevice Queue)
  find_minor minor [] = none
  find_minor minor (crdev ∷ devs) =
      if crdev.minor == minor then some crdev else find_minor minor devs

  unfoldable pub get_crypto_dev_by_minor : ℕ → DriverData Queue → Option (CryptoDevice Queue)
  unfolding find_minor
  get_crypto_dev_by_minor minor crdrvdata = find_minor minor crdrvdata.devs

  -- virtcons_probe(vdev): `has_memory` says whether kzalloc gives the device, and `vq` is what
  -- virtio_find_single_vq found.
  unfoldable pub virtcons_probe : Bool → ℕ → Option Queue → DriverData Queue → ℤ × DriverData Queue
  virtcons_probe false vdev vq crdrvdata = (enomem, crdrvdata)
  virtcons_probe true vdev none crdrvdata = (enxio, crdrvdata)
  virtcons_probe true vdev (some vq) crdrvdata = (
    pos 0,
    record {
      devs = crdrvdata.devs ++ record { vdev = vdev; vq = vq; minor = crdrvdata.next_minor } ∷ [];
      next_minor = (crdrvdata.next_minor + 1) % 2 ^ 32;
    },
  )

  -- list_del of the entry of a virtio device
  pub delete_vdev : ℕ → List (CryptoDevice Queue) → List (CryptoDevice Queue)
  delete_vdev vdev [] = []
  delete_vdev vdev (crdev ∷ devs) =
      if crdev.vdev == vdev then devs else crdev ∷ delete_vdev vdev devs

  unfoldable pub virtcons_remove : ℕ → DriverData Queue → DriverData Queue
  unfolding delete_vdev
  virtcons_remove vdev crdrvdata = record crdrvdata { devs = delete_vdev vdev crdrvdata.devs }

-- ===== src/Backend/Pci.antt =====
-- virtio-crypto/qemu/hw/virtio/virtio-pci.c, virtio-crypto-pci: the PCI device that carries the virtio
-- device, which is the repository's own part of that file. qemu's numbers of PCI classes are not in the
-- repository.
use cryptodev_chat.Common.{
  ℕ, List, Option, none, some, ℤ, pos, negsuc, ◌==◌, ◌||◌, is_neg, if◌then◌else◌,
}
use cryptodev_chat.Backend.Device.{Qemu, virtio_crypto_class_init}

pub record PciClasses : Type 0 where
  pub communication_other : ℕ
  pub display_other : ℕ
  pub others : ℕ

-- VirtIOCryptoPCI, with the id that the command line may have given
pub record CryptoPci (Device : Type 0) : Type 0 where
  pub class_code : ℕ
  pub id : Option (List ℕ)
  pub vdev : Device

-- PCIDeviceClass, the numbers by which the guest's bus knows the device
pub record PciIds : Type 0 where
  pub vendor_id : ℕ
  pub device_id : ℕ
  pub revision : ℕ
  pub class_id : ℕ

-- virtio_crypto_pci_class_init, with the vendor and the revision that qemu has for virtio
abbrev pub virtio_crypto_pci_class_init : PciClasses → ℕ → ℕ → PciIds
virtio_crypto_pci_class_init c vendor revision = record {
  vendor_id = vendor;
  device_id = 0x1013;
  revision = revision;
  class_id = c.communication_other;
}

-- The class code of qemu 0.10, that of qemu-kvm, and the default for all else.
unfoldable pub crypto_class_code : PciClasses → ℕ → ℕ
crypto_class_code c class_code =
    if class_code == c.communication_other
      || class_code == c.display_other
      || class_code == c.others
    then class_code
    else c.communication_other

module _ {Handler : Type 0} (q : Qemu Handler) (vq_handle_output : Handler) (c : PciClasses)
    (bus_name : List ℕ → List ℕ) where
  open q use {Device, virtio_device_set_child_bus_name, qdev_set_parent_bus, qdev_init}

  -- `bus_name id` is the text that g_strdup_printf makes of the id.
  abbrev pub named : Option (List ℕ) → Device → Device
  named none dev = dev
  named (some id) dev = virtio_device_set_child_bus_name (bus_name id) dev

  -- virtio_crypto_pci_init(vpci_dev)
  unfoldable pub virtio_crypto_pci_init : CryptoPci Device → ℤ × CryptoPci Device
  unfolding crypto_class_code virtio_crypto_class_init
  virtio_crypto_pci_init vpci_dev =
      let ready =
        qdev_init (virtio_crypto_class_init q vq_handle_output).realize
          (qdev_set_parent_bus (named vpci_dev.id vpci_dev.vdev)) in
      (
        if is_neg ready.0 then negsuc 0 else pos 0,
        record vpci_dev { class_code = crypto_class_code c vpci_dev.class_code; vdev = ready.1 },
      )

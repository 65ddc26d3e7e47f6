-- ===== src/Guest/Setup.antt =====
-- virtio-crypto/guest/crypto-module.c, init and fini, and crypto-chrdev.c, crypto_chrdev_init and
-- crypto_chrdev_destroy: what the driver registers with the kernel when its module is loaded. The
-- kernel's functions are not in the repository: they are the fields of `Kernel`.
pub mod Laws
pub mod Plugged
use cryptodev_chat.Common.{ℕ, List, [], ℤ, pos, is_neg, if◌then◌else◌}
use cryptodev_chat.Guest.Devices.{DriverData}

pub record Kernel : Type 1 where
  pub State : Type 0
  pub register_chrdev_region : State → ℤ × State
  pub unregister_chrdev_region : State → State
  pub cdev_add : State → ℤ × State
  pub cdev_del : State → State
  pub register_virtio_driver : State → ℤ × State
  pub unregister_virtio_driver : State → State

module _ (k : Kernel) where
  open k use {
    State, register_chrdev_region, unregister_chrdev_region, cdev_add, cdev_del,
    register_virtio_driver, unregister_virtio_driver,
  }

  unfoldable pub crypto_chrdev_init : State → ℤ × State
  crypto_chrdev_init s =
      let region = register_chrdev_region s in
      let added = cdev_add region.1 in
      if is_neg region.0
      then (region.0, region.1)
      else if is_neg added.0
      then (added.0, unregister_chrdev_region added.1)
      else (pos 0, added.1)

  unfoldable pub crypto_chrdev_destroy : State → State
  crypto_chrdev_destroy s = unregister_chrdev_region (cdev_del s)

  module _ {Queue : Type 0} where
    -- init(): the list of devices is set up once the character devices are there.
    unfoldable pub init : State → DriverData Queue → ℤ × State × DriverData Queue
    init s crdrvdata =
        let chrdev = crypto_chrdev_init s in
        let empty = record crdrvdata { devs = [] } in
        let driver = register_virtio_driver chrdev.1 in
        if is_neg chrdev.0
        then (chrdev.0, chrdev.1, crdrvdata)
        else if is_neg driver.0
        then (driver.0, crypto_chrdev_destroy driver.1, empty)
        else (driver.0, driver.1, empty)

  -- fini()
  unfoldable pub fini : State → State
  fini s = unregister_virtio_driver (crypto_chrdev_destroy s)

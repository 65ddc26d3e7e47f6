-- ===== src/Tests/Memory.antt =====
-- A file is opened, encrypts twice, the second time from memory that cannot be read, and is closed.
use cryptodev_chat.Common.{arith, [], ◌∷◌, none, some, true, pos}
use cryptodev_chat.Cryptodev.{cioccrypt}
use cryptodev_chat.Guest.Devices.{CryptoDevice}
use cryptodev_chat.Guest.Chrdev.{request_sgs}
use cryptodev_chat.Guest.Chrdev.Memory.{Call, file_heap}
use cryptodev_chat.Guest.Chrdev.Memory.Shelf.{shelf, shelf_Allocates, empty_shelf}
use cryptodev_chat.Guest.Chrdev.Memory.Account.{file_heap-Leaves}
use cryptodev_chat.Guest.Chrdev.Memory.Ioctl.{Leaves}
use cryptodev_chat.Tests.Guest.{arg}

abbrev crypto_device : CryptoDevice (Unit {0})
crypto_device = record { vdev = 1; vq = tt; minor = 0 }

abbrev readable : Call
readable = record { cmd = cioccrypt; arg = arg; keylen = 0; len = 3 }

abbrev unreadable : Call
unreadable = record { cmd = cioccrypt; arg = record arg { src = none }; keylen = 0; len = 3 }

file_heap-Leaves_example :
    Leaves shelf shelf_Allocates
      (file_heap shelf
        (pos 0)
        true
        (some crypto_device)
        (pos 3)
        (readable ∷ unreadable ∷ [])
        empty_shelf)
      11
      []
unfolding request_sgs
file_heap-Leaves_example =
    file_heap-Leaves shelf shelf_Allocates (omega arith) (pos 0) true (some crypto_device) (pos 3)
      (readable ∷ unreadable ∷ []) empty_shelf
      (omega arith, omega arith, (omega arith, omega arith, tt))

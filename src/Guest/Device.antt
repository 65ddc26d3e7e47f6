-- ===== src/Guest/Device.antt =====
-- virtio-crypto/guest/crypto-chrdev.c, crypto_chrdev_fops: the character device as a process of the
-- guest sees it, through open, close and ioctl. A process has a table of its open files; an open file
-- of the device holds the descriptor that the host gave (crypto_open_file).
--
-- Of the guest's kernel, `new_fd` is the choice of a descriptor. An error of the driver is -1 for the
-- process, and so is a call on a descriptor that is not open.
pub mod Idle
pub mod Driver
pub mod Promises
pub mod Chat
pub mod Fork
use cryptodev_chat.Common.{
  ℕ, Option, none, some, ℤ, pos, negsuc, true, is_neg, update, if◌then◌else◌,
}
use cryptodev_chat.Run.{Run, ok, ◌>>=◌}
use cryptodev_chat.Cryptodev.{Cryptodev}
use cryptodev_chat.Virtio.{Virtqueue}
use cryptodev_chat.Backend.{Mapping}
use cryptodev_chat.Guest.Devices.{CryptoDevice}
use cryptodev_chat.Guest.Chrdev.{UserArg, Reply, answer, crypto_chrdev_ioctl, crypto_chrdev_release}
use cryptodev_chat.Guest.Chrdev.Open.{Opened, crypto_chrdev_open}

abbrev pub Files : Type 0
Files = ℕ → Option ℤ

abbrev pub file_of : Files → ℤ → Option ℤ
file_of files (pos n) = files n
file_of files (negsuc n) = none

abbrev pub clear_file : Files → ℤ → Files
clear_file files (pos n) = update files n none
clear_file files (negsuc n) = files

-- What the process gets from the driver's result.
abbrev pub result_of : ℤ → ℤ
result_of ret = if is_neg ret then negsuc 0 else ret

-- The host's device, the queue to it, and the open files.
pub record Process (Queue State : Type 0) : Type 0 where
  pub host : State
  pub vq : Queue
  pub files : Files

module _ (d : Cryptodev) (m : Mapping) (t : Virtqueue) (new_fd : Files → ℕ) (polls : ℕ) where
  open d use {State}
  open t use {Queue}

  -- The open file that the driver has set gets a descriptor.
  abbrev install :
      Option (CryptoDevice Queue × ℤ) → State → Process Queue State → ℤ × Process Queue State
  install none s g = (negsuc 0, record g { host = s })
  install (some (crdev, host_fd)) s g = (
    pos (new_fd g.files),
    record { host = s; vq = crdev.vq; files = update g.files (new_fd g.files) (some host_fd) },
  )

  -- open of the device with this number, where there is memory
  unfoldable pub sys_open : ℕ → ℕ → Process Queue State → Run (ℤ × Process Queue State)
  sys_open vdev minor g = do
    (o, s) ←
        crypto_chrdev_open d m t polls (pos 0) true
          (some (record { vdev = vdev; vq = g.vq; minor = minor })) g.host
    ok (install o.private_data s g)

  -- The kernel ignores what release returns.
  unfoldable pub close_file : ℤ → Option ℤ → Process Queue State → Run (ℤ × Process Queue State)
  close_file fd none g = ok (negsuc 0, g)
  close_file fd (some host_fd) g = do
    (ret, q, s) ← crypto_chrdev_release d m t polls host_fd g.vq g.host
    ok (pos 0, record { host = s; vq = q; files = clear_file g.files fd })

  unfoldable pub sys_close : ℤ → Process Queue State → Run (ℤ × Process Queue State)
  unfolding close_file
  sys_close fd g = close_file fd (file_of g.files fd) g

  unfoldable pub ioctl_file :
      Option ℤ → ℕ → UserArg → Process Queue State → Run (Reply × Process Queue State)
  ioctl_file none cmd arg g = ok (answer (negsuc 0), g)
  ioctl_file (some host_fd) cmd arg g = do
    (reply, q, s) ← crypto_chrdev_ioctl d m t polls host_fd cmd arg g.vq g.host
    ok (record reply { ret = result_of reply.ret }, record g { host = s; vq = q })

  unfoldable pub sys_ioctl :
      ℤ → ℕ → UserArg → Process Queue State → Run (Reply × Process Queue State)
  unfolding ioctl_file
  sys_ioctl fd cmd arg g = ioctl_file (file_of g.files fd) cmd arg g

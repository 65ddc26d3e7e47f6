-- ===== src/Tests/Guest.antt =====
-- The guest's driver over a first-in first-out queue and a host with one session of number 0.
use mathlib.Core.Bool.{false≢true, false, true≢false}
use cryptodev_chat.Common.{ℕ, ◌+◌, ◌≡◌, refl, List, [], ◌∷◌, none, some, true, pos, negsuc, arith}
use cryptodev_chat.Run.{ok}
use cryptodev_chat.Cryptodev.{zero_crypt, cioccrypt}
use cryptodev_chat.Cryptodev.Toy.{toy}
use cryptodev_chat.Virtio.Fifo.{Rings, fifo, fifo_Carries, no_requests}
use cryptodev_chat.Backend.{Mapping}
use cryptodev_chat.Guest.Devices.{
  CryptoDevice, DriverData, virtcons_probe, virtcons_remove, get_crypto_dev_by_minor,
}
use cryptodev_chat.Guest.Devices.Laws.{IsValid}
use cryptodev_chat.Guest.Devices.Events.{Event, probe, remove, run, device_at, run-device_at}
use cryptodev_chat.Guest.Setup.{Kernel, init}
use cryptodev_chat.Guest.Setup.Laws.{
  Registered, nothing, everything, Registers, AllOrNothing, init-AllOrNothing,
}
use cryptodev_chat.Guest.Chrdev.{UserArg, crypto_chrdev_ioctl}
use cryptodev_chat.Guest.Chrdev.Refine.{spec_ioctl, crypto_chrdev_ioctl-spec_ioctl}
use cryptodev_chat.Guest.Chrdev.Open.{
  Opened, crypto_chrdev_open, OpenResult, crypto_chrdev_open-OpenResult,
}

abbrev mapping : Mapping
mapping = record { base = λ i. 0x7000 + i; in_base = 0x7100 }

abbrev keys : List (List ℕ)
keys = (1 ∷ 2 ∷ []) ∷ []

abbrev pub arg : UserArg
arg = record {
  session_op = none;
  session_key = none;
  ses_id = none;
  crypt_op = some (record zero_crypt { len = 3; src = 0x500; dst = 0x600; iv = 0x700 });
  src = some (5 ∷ 6 ∷ 7 ∷ []);
  iv = some [];
  session_writable = true;
  dst_writable = true;
}

crypto_chrdev_ioctl-spec_ioctl_example :
    (q' : Rings) × (crypto_chrdev_ioctl toy mapping fifo 2 (pos 3) cioccrypt arg no_requests keys
      ≡ ok (
        (spec_ioctl toy mapping (pos 3) cioccrypt arg keys).0,
        q',
        (spec_ioctl toy mapping (pos 3) cioccrypt arg keys).1,
      ))
    × (q' ≡ no_requests)
crypto_chrdev_ioctl-spec_ioctl_example =
    crypto_chrdev_ioctl-spec_ioctl toy mapping fifo fifo_Carries 2 (pos 3) cioccrypt arg no_requests
      keys refl

-- What the process finds at dst.
reversed : (spec_ioctl toy mapping (pos 3) cioccrypt arg keys).0.dst_out ≡ some (7 ∷ 6 ∷ 5 ∷ [])
unfolding spec_ioctl
reversed = refl

abbrev crdev : CryptoDevice Rings
crdev = record { vdev = 9; vq = no_requests; minor = 0 }

crypto_chrdev_open-OpenResult_example :
    (o : Opened Rings) × (s' : List (List ℕ)) × (crypto_chrdev_open toy mapping fifo 2
        (pos 0)
        true
        (some crdev)
        keys
      ≡ ok (o, s'))
    × OpenResult toy mapping fifo fifo_Carries keys (some crdev) o s'
crypto_chrdev_open-OpenResult_example =
    crypto_chrdev_open-OpenResult toy mapping fifo fifo_Carries 2 (pos 0) true (some crdev) keys
      refl

abbrev one_device : DriverData Rings
one_device = record { devs = crdev ∷ []; next_minor = 1 }

-- A second device comes, the first goes and comes back.
abbrev bus : List (Event Rings)
bus = probe true 8 (some no_requests) ∷ remove 9 ∷ probe true 9 (some no_requests) ∷ []

run-device_at_example :
    IsValid (run bus one_device)
    × ((minor : ℕ)
        → get_crypto_dev_by_minor minor (run bus one_device)
          ≡ device_at minor 1 (get_crypto_dev_by_minor minor one_device) bus)
unfolding virtcons_probe virtcons_remove
run-device_at_example =
    run-device_at bus one_device (omega arith, tt, tt)
      (((omega arith, tt), omega arith), (tt, (((omega arith, tt), omega arith), tt)))

-- The number of the device that has gone is free for ever, and the device has a new one.
gone : device_at 0 1 (get_crypto_dev_by_minor 0 one_device) bus ≡ none
unfolding get_crypto_dev_by_minor
gone = refl

-- A kernel that refuses the virtio driver.
abbrev kernel : Kernel
kernel = record {
  State = Registered;
  register_chrdev_region = λ s. (pos 0, record s { region = true });
  unregister_chrdev_region = λ s. record s { region = false };
  cdev_add = λ s. (pos 0, record s { chrdev = true });
  cdev_del = λ s. record s { chrdev = false };
  register_virtio_driver = λ s. (negsuc 15, s);
  unregister_virtio_driver = λ s. record s { driver = false };
}

abbrev kernel_Registers : Registers kernel
kernel_Registers = record {
  registered = λ s. s;
  region_added = λ s e. refl;
  region_refused = λ s e. absurd (false≢true e);
  region_removed = λ s. refl;
  chrdev_added = λ s e. refl;
  chrdev_refused = λ s e. absurd (false≢true e);
  chrdev_removed = λ s. refl;
  driver_added = λ s e. absurd (true≢false e);
  driver_refused = λ s e. refl;
  driver_removed = λ s. refl;
}

init-AllOrNothing_example :
    AllOrNothing kernel kernel_Registers everything
      (init kernel nothing one_device).0
      (init kernel nothing one_device).1
init-AllOrNothing_example = init-AllOrNothing kernel kernel_Registers nothing one_device refl

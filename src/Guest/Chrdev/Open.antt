-- ===== src/Guest/Chrdev/Open.antt =====
-- crypto-chrdev.c, crypto_chrdev_open.
use cryptodev_chat.Common.{
  ℕ, ◌≡◌, refl, [], ◌∷◌, Option, none, some, ℤ, negsuc, Bool, true, false, is_neg, get_elem?,
  if◌then◌else◌, Bool-cases, inl, inr,
}
use cryptodev_chat.Run.{Run, ok, ◌>>=◌}
use cryptodev_chat.Cryptodev.{Cryptodev}
use cryptodev_chat.Virtio.{word, int, Virtqueue, Carries}
use cryptodev_chat.Backend.{Mapping, as_int, handle_elem, syscall_open}
use cryptodev_chat.Guest.Devices.{CryptoDevice, enodev, enomem}
use cryptodev_chat.Guest.Chrdev.{transact}
use cryptodev_chat.Guest.Chrdev.Transact.{transact-answer}

-- What open returns, and filp->private_data where it was set: the device and the host's descriptor.
pub record Opened (Queue : Type 0) : Type 0 where
  pub ret : ℤ
  pub private_data : Option (CryptoDevice Queue × ℤ)

module _ (d : Cryptodev) (m : Mapping) (t : Virtqueue) where
  open d use {State}
  open t use {Queue}

  abbrev pub fails_with : ℤ → Opened Queue
  fails_with n = record { ret = n; private_data = none }

  -- The device is found and the open file allocated: the host opens. `host_fd < 0` of the source
  -- compares the pointer, which is never below 0, so no result of the host makes open fail.
  open_found : ℕ → ℤ → CryptoDevice Queue → State → Run (Opened Queue × State)
  open_found polls ret crdev s = do
    (elem, q', s') ← transact d m t polls (word syscall_open ∷ [], int (negsuc 0) ∷ []) crdev.vq s
    host_fd ← as_int (get_elem? elem.in_sg 0)
    ok (record { ret = ret; private_data = some (record crdev { vq = q' }, host_fd) }, s')

  unfoldable pub open_device :
      ℕ → ℤ → Bool → Option (CryptoDevice Queue) → State → Run (Opened Queue × State)
  unfolding open_found
  open_device polls ret has_memory none s = ok (fails_with enodev, s)
  open_device polls ret false (some crdev) s = ok (fails_with enomem, s)
  open_device polls ret true (some crdev) s = open_found polls ret crdev s

  -- crypto_chrdev_open(inode, filp): `seekable` is the result of nonseekable_open, `crdev` what
  -- get_crypto_dev_by_minor finds, `has_memory` whether kzalloc gives the open file.
  unfoldable pub crypto_chrdev_open :
      ℕ → ℤ → Bool → Option (CryptoDevice Queue) → State → Run (Opened Queue × State)
  unfolding open_device
  crypto_chrdev_open polls seekable has_memory crdev s =
      if is_neg seekable
      then ok (fails_with seekable, s)
      else open_device polls seekable has_memory crdev s

module _ (d : Cryptodev) (m : Mapping) (t : Virtqueue) (k : Carries t) where
  open d use {State}
  open t use {Queue}

  -- open returns an error, has made no call on the host and no open file; or it does not, the host was
  -- asked to open, and the open file holds the device with an idle queue and the host's result,
  -- whether that is a descriptor or an error.
  pub data OpenResult (s : State) (crdev : Option (CryptoDevice Queue)) (o : Opened Queue)
      (s' : State) : Type 0 where
    refused : is_neg o.ret ≡ true → o.private_data ≡ none → s' ≡ s → OpenResult s crdev o s'
    opened :
        (c : CryptoDevice Queue) (q' : Queue)
        → crdev ≡ some c
        → is_neg o.ret ≡ false
        → o.private_data ≡ some (record c { vq = q' }, (d.open_dev s).0)
        → s' ≡ (d.open_dev s).1
        → k.IsIdle q'
        → OpenResult s crdev o s'

  abbrev HasIdle : Option (CryptoDevice Queue) → Type 0
  HasIdle none = Unit {0}
  HasIdle (some c) = k.IsIdle c.vq

  -- Where the device is found and there is memory: the host's open, whatever it gave.
  pub open_device-opens :
      (polls : ℕ) (ret : ℤ) (c : CryptoDevice Queue) (s : State)
      → k.IsIdle c.vq
      → (q' : Queue) × (open_device d m t polls ret true (some c) s
          ≡ ok (
            record { ret = ret; private_data = some (record c { vq = q' }, (d.open_dev s).0) },
            (d.open_dev s).1,
          ))
        × k.IsIdle q'
  unfolding crypto_chrdev_open handle_elem
  open_device-opens polls ret c s idle =
      let (q', done, idle') =
        transact-answer d m t k polls (word syscall_open ∷ []) (int (negsuc 0) ∷ []) c.vq s
          (d.open_dev s).1
          (record { out_sg = word syscall_open ∷ []; in_sg = int (d.open_dev s).0 ∷ [] }) idle
          refl in
      (q', rw done refl, idle')

  open_device-OpenResult :
      (polls : ℕ) (ret : ℤ) (has_memory : Bool) (crdev : Option (CryptoDevice Queue)) (s : State)
      → is_neg ret ≡ false
      → HasIdle crdev
      → (o : Opened Queue) × (s' : State) × (open_device d m t polls ret has_memory crdev s
          ≡ ok (o, s'))
        × OpenResult s crdev o s'
  unfolding open_device
  open_device-OpenResult polls ret has_memory none s e idle = (_, _, refl, refused refl refl refl)
  open_device-OpenResult polls ret false (some c) s e idle = (_, _, refl, refused refl refl refl)
  open_device-OpenResult polls ret true (some c) s e idle =
      let (q', done, idle') = open_device-opens polls ret c s idle in
      (_, _, done, opened c q' refl e refl refl idle')

  -- Over an idle queue open always returns, and either it returns an error, has made no call on the
  -- host and set no open file, or it returns no error and the open file holds what the host's open
  -- gave; so it succeeds when the open on the host fails.
  pub crypto_chrdev_open-OpenResult :
      (polls : ℕ) (seekable : ℤ) (has_memory : Bool) (crdev : Option (CryptoDevice Queue))
      (s : State)
      → HasIdle crdev
      → (o : Opened Queue) × (s' : State) × (crypto_chrdev_open d m t polls seekable has_memory
            crdev s
          ≡ ok (o, s'))
        × OpenResult s crdev o s'
  unfolding crypto_chrdev_open
  crypto_chrdev_open-OpenResult polls seekable has_memory crdev s idle =
      elim (Bool-cases (is_neg seekable)) [
        | inl e ↦ (_, _, rw e refl, refused e refl refl)
        | inr e ↦ rw e (open_device-OpenResult polls seekable has_memory crdev s e idle)
      ]

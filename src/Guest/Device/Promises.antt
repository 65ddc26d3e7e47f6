-- ===== src/Guest/Device/Promises.antt =====
-- What the host's device promises, the guest's device promises.
use cryptodev_chat.Common.{
  ℕ, ◌≡◌, refl, sym, subst, ◌∙◌, List, Option, none, some, ℤ, pos, negsuc, length, update_self,
}
use cryptodev_chat.Cryptodev.{Cryptodev, SessionOp, CryptOp, crypto_aes_cbc}
use cryptodev_chat.Cryptodev.Service.{BlockCipher, Service, Sharing, IsKeySize}
use cryptodev_chat.Virtio.{Virtqueue, Carries}
use cryptodev_chat.Backend.{Mapping}
use cryptodev_chat.Guest.Chrdev.Refine.{spec_ioctl}
use cryptodev_chat.Guest.Device.{Files, file_of, result_of}
use cryptodev_chat.Guest.Device.Idle.{spec_device}
use cryptodev_chat.Guest.Device.Driver.{guest_device, guest_device-spec_device}

module _ (d : Cryptodev) (c : BlockCipher) (v : Service d c) (m : Mapping) (t : Virtqueue)
    (k : Carries t) (new_fd : Files → ℕ) (polls vdev minor : ℕ) where
  abbrev Guest : Cryptodev
  Guest = spec_device d m t k new_fd polls vdev minor

  -- The session that the host keeps for an open file of the guest.
  abbrev key_at : d.State → Option ℤ → ℕ → Option (List ℕ)
  key_at s none ses = none
  key_at s (some host_fd) ses = v.key_of s host_fd ses

  abbrev key_of : Guest.State → ℤ → ℕ → Option (List ℕ)
  key_of (g, idle) fd ses = key_at g.host (file_of g.files fd) ses

  abbrev IsOpen : Guest.State → ℤ → Type 0
  IsOpen (g, idle) fd =
      (host_fd : ℤ) × (file_of g.files fd ≡ some host_fd) × v.IsOpen g.host host_fd

  get_lem :
      (fd : ℤ) (op : SessionOp) (key : List ℕ) (s : Guest.State)
      → IsOpen s fd
      → op.cipher ≡ crypto_aes_cbc
      → IsKeySize op.keylen
      → length key ≡ op.keylen
      → ((Guest.get_session fd op key s).0 ≡ pos 0)
        × (key_of (Guest.get_session fd op key s).2 fd (Guest.get_session fd op key s).1.ses
            ≡ some key)
  unfolding spec_ioctl
  get_lem fd op key (g, idle) (h, e, is_open) aes size long =
      let op' = record op { key = m.base 3 } in
      rw (e, v.get_returns h op' key g.host is_open aes size long)
        (refl, v.get_binds h op' key g.host is_open aes size long)

  -- A session that is there is that of an open file.
  file_of_key :
      (s : d.State) (file : Option ℤ) (ses : ℕ) (key : List ℕ)
      → key_at s file ses ≡ some key
      → (h : ℤ) × (file ≡ some h) × (v.key_of s h ses ≡ some key)
  file_of_key s none ses key e = cc
  file_of_key s (some h) ses key e = (h, refl, e)

  abbrev host_op : CryptOp → CryptOp
  host_op op = record op { src = m.base 4; iv = m.base 5; dst = m.in_base }

  -- A call that returns 0 on the host.
  crypt_lem :
      (fd h : ℤ) (op : CryptOp) (src iv : List ℕ) (s : Guest.State)
      → file_of s.0.files fd ≡ some h
      → (d.crypt h (host_op op) src iv s.0.host).0 ≡ pos 0
      → ((Guest.crypt fd op src iv s).0 ≡ pos 0)
        × ((Guest.crypt fd op src iv s).1 ≡ (d.crypt h (host_op op) src iv s.0.host).1)
  unfolding spec_ioctl
  crypt_lem fd h op src iv (g, idle) e returns = rw (e, returns) (refl, refl)

  keeps_lem :
      (fd h : ℤ) (op : CryptOp) (src iv : List ℕ) (s : Guest.State) (ses : ℕ)
      → file_of s.0.files fd ≡ some h
      → key_of (Guest.crypt fd op src iv s).2 fd ses
        ≡ v.key_of (d.crypt h (host_op op) src iv s.0.host).2 h ses
  unfolding spec_ioctl
  keeps_lem fd h op src iv (g, idle) ses e = rw e refl

  free_lem :
      (fd h : ℤ) (ses : ℕ) (s : Guest.State)
      → file_of s.0.files fd ≡ some h
      → (d.free_session h ses s.0.host).0 ≡ pos 0
      → v.IsOpen (d.free_session h ses s.0.host).1 h
      → ((Guest.free_session fd ses s).0 ≡ pos 0) × IsOpen (Guest.free_session fd ses s).1 fd
  unfolding spec_ioctl
  free_lem fd h ses (g, idle) e returns still = rw (e, returns) (refl, (h, refl, still))

  close_lem : (fd : ℤ) (s : Guest.State) → IsOpen s fd → (Guest.close_dev fd s).0 ≡ pos 0
  close_lem fd (g, idle) (h, e, is_open) = rw e refl

  open_lem : (s : Guest.State) → IsOpen (Guest.open_dev s).1 (Guest.open_dev s).0
  open_lem (g, idle) = (
    (d.open_dev g.host).0,
    update_self g.files (new_fd g.files) (some (d.open_dev g.host).0),
    v.opened g.host,
  )

  pub spec_service : Service (spec_device d m t k new_fd polls vdev minor) c
  spec_service = record {
    IsOpen = IsOpen;
    key_of = key_of;
    opens = λ s. (new_fd s.0.files, refl);
    opened = open_lem;
    closes = close_lem;
    get_returns =
        λ fd op key s is_open aes size long. (get_lem fd op key s is_open aes size long).0;
    get_binds = λ fd op key s is_open aes size long. (get_lem fd op key s is_open aes size long).1;
    crypt_returns = λ fd op key src iv s bound long whole.
        let (h, e, there) = file_of_key s.0.host (file_of s.0.files fd) op.ses key bound in
        (crypt_lem fd h op src iv s e
          (v.crypt_returns h (host_op op) key src iv s.0.host there long whole)).0;
    crypt_seals = λ fd op key src iv s bound long whole enc.
        let (h, e, there) = file_of_key s.0.host (file_of s.0.files fd) op.ses key bound in
        (crypt_lem fd h op src iv s e
          (v.crypt_returns h (host_op op) key src iv s.0.host there long whole)).1
        ∙ v.crypt_seals h (host_op op) key src iv s.0.host there long whole enc;
    crypt_unseals = λ fd op key src iv s bound long whole dec.
        let (h, e, there) = file_of_key s.0.host (file_of s.0.files fd) op.ses key bound in
        (crypt_lem fd h op src iv s e
          (v.crypt_returns h (host_op op) key src iv s.0.host there long whole)).1
        ∙ v.crypt_unseals h (host_op op) key src iv s.0.host there long whole dec;
    crypt_keeps = λ fd op key src iv s ses bound.
        let (h, e, there) = file_of_key s.0.host (file_of s.0.files fd) ses key bound in
        keeps_lem fd h op src iv s ses e
        ∙ v.crypt_keeps h (host_op op) key src iv s.0.host ses there;
    frees = λ fd ses key s bound.
        let (h, e, there) = file_of_key s.0.host (file_of s.0.files fd) ses key bound in
        (free_lem fd h ses s e (v.frees h ses key s.0.host there)
          (v.free_keeps h ses key s.0.host there)).0;
    free_keeps = λ fd ses key s bound.
        let (h, e, there) = file_of_key s.0.host (file_of s.0.files fd) ses key bound in
        (free_lem fd h ses s e (v.frees h ses key s.0.host there)
          (v.free_keeps h ses key s.0.host there)).1;
  }

  result_of-zero : (r : ℤ) → result_of r ≡ pos 0 → r ≡ pos 0
  result_of-zero (pos n) e = e
  result_of-zero (negsuc n) e = cc

  pub spec_device-Sharing :
      Sharing d c v → Sharing (spec_device d m t k new_fd polls vdev minor) c spec_service
  unfolding spec_service spec_ioctl
  spec_device-Sharing sh = record {
    get_open = λ fd op key (g, idle) (h, e, is_open).
        rw e (h, refl, sh.get_open h (record op { key = m.base 3 }) key g.host is_open);
    crypt_open = λ fd op src iv (g, idle) (h, e, is_open).
        rw e (h, refl, sh.crypt_open h (host_op op) src iv g.host is_open);
    get_keeps = λ fd op key key' (g, idle) ses bound.
        let (h, e, there) = file_of_key g.host (file_of g.files fd) ses key' bound in
        rw e (sh.get_keeps h (record op { key = m.base 3 }) key key' g.host ses there);
    get_apart = λ fd op key key' (g, idle) ses bound returns.
        let (h, e, there) = file_of_key g.host (file_of g.files fd) ses key' bound in
        rw e (
          sh.get_apart h (record op { key = m.base 3 }) key key' g.host ses there
            (result_of-zero _ (rw e at returns)));
    free_apart = λ fd key (g, idle) ses ses' bound apart.
        let (h, e, there) = file_of_key g.host (file_of g.files fd) ses key bound in
        rw e (sh.free_apart h key g.host ses ses' there apart);
  }

  -- The guest's character device, which makes each call by the driver's open, release and ioctl over
  -- the queue, promises its processes all that the host's device promises qemu, whatever the number of
  -- polls, the addresses in qemu and the choice of descriptors.
  pub guest_device-Service : Service (guest_device d m t k new_fd polls vdev minor) c
  guest_device-Service =
      subst (λ x. Service x c) (sym (guest_device-spec_device d m t k new_fd polls vdev minor))
        spec_service

  -- Sessions of one descriptor do not disturb each other on the guest's device either, if they do not
  -- on the host's.
  pub guest_device-Sharing :
      Sharing d c v
      → (w : Service (guest_device d m t k new_fd polls vdev minor) c) × Sharing
          (guest_device d m t k new_fd polls vdev minor)
          c
          w
  guest_device-Sharing sh =
      subst (λ x. (w : Service x c) × Sharing x c w)
        (sym (guest_device-spec_device d m t k new_fd polls vdev minor))
        (spec_service, spec_device-Sharing sh)

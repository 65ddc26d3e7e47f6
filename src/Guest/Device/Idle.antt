-- ===== src/Guest/Device/Idle.antt =====
-- Between two calls the queue is idle: the calls always return, and the device of the guest is a
-- `Cryptodev`.
use cryptodev_chat.Common.{update, ℕ, ◌≡◌, refl, List, [], Option, none, some, ℤ, pos, negsuc, true}
use cryptodev_chat.Run.{ok}
use cryptodev_chat.Cryptodev.{Cryptodev, SessionOp, CryptOp, ciocgsession, ciocfsession, cioccrypt}
use cryptodev_chat.Virtio.{Virtqueue, Carries}
use cryptodev_chat.Backend.{Mapping}
use cryptodev_chat.Guest.Chrdev.{UserArg, Reply, answer}
use cryptodev_chat.Guest.Chrdev.Refine.{
  spec_ioctl, crypto_chrdev_ioctl-spec_ioctl, crypto_chrdev_release-close,
}
use cryptodev_chat.Guest.Chrdev.Open.{crypto_chrdev_open, open_device-opens}
use cryptodev_chat.Guest.Device.{
  Files, Process, file_of, clear_file, result_of, sys_open, close_file, sys_close, ioctl_file,
  sys_ioctl,
}

-- The argument of each command: the whole of it can be read and written.
abbrev pub session_arg : SessionOp → List ℕ → UserArg
session_arg op key = record {
  session_op = some op;
  session_key = some key;
  ses_id = none;
  crypt_op = none;
  src = none;
  iv = none;
  session_writable = true;
  dst_writable = true;
}

abbrev pub free_arg : ℕ → UserArg
free_arg ses = record {
  session_op = none;
  session_key = none;
  ses_id = some ses;
  crypt_op = none;
  src = none;
  iv = none;
  session_writable = true;
  dst_writable = true;
}

abbrev pub crypt_arg : CryptOp → List ℕ → List ℕ → UserArg
crypt_arg op src iv = record {
  session_op = none;
  session_key = none;
  ses_id = none;
  crypt_op = some op;
  src = some src;
  iv = some iv;
  session_writable = true;
  dst_writable = true;
}

abbrev pub or_else : {A : Type 0} → A → Option A → A
or_else a none = a
or_else a (some b) = b

-- A device whose calls are an open, a close and an ioctl, for a process with memory that is its own.
abbrev pub calls :
    {S : Type 0} → (S → ℤ × S) → (ℤ → S → ℤ × S) → (ℤ → ℕ → UserArg → S → Reply × S) → Cryptodev
calls {S} opens closes controls = record {
  State = S;
  open_dev = opens;
  close_dev = closes;
  get_session = λ fd op key s.
      let (reply, s') = controls fd ciocgsession (session_arg op key) s in
      (reply.ret, or_else op reply.session_out, s');
  free_session =
      λ fd ses s. let (reply, s') = controls fd ciocfsession (free_arg ses) s in (reply.ret, s');
  crypt = λ fd op src iv s.
      let (reply, s') = controls fd cioccrypt (crypt_arg op src iv) s in
      (reply.ret, or_else [] reply.dst_out, s');
}

module _ (d : Cryptodev) (m : Mapping) (t : Virtqueue) (k : Carries t) (new_fd : Files → ℕ)
    (polls vdev minor : ℕ) where
  open d use {State}
  open t use {Queue}

  pub sys_open-idle :
      (g : Process Queue State)
      → k.IsIdle g.vq
      → (q : Queue) × (sys_open d m t new_fd polls vdev minor g
          ≡ ok (
            pos (new_fd g.files),
            record {
              host = (d.open_dev g.host).1;
              vq = q;
              files = update g.files (new_fd g.files) (some (d.open_dev g.host).0);
            },
          ))
        × k.IsIdle q
  unfolding sys_open crypto_chrdev_open
  sys_open-idle g idle =
      let (q, done, idle') =
        open_device-opens d m t k polls (pos 0) (record { vdev = vdev; vq = g.vq; minor = minor })
          g.host idle in
      (q, rw done refl, idle')

  -- close by what it does on the host, where the file is open.
  abbrev pub spec_close : ℤ → Option ℤ → Files → State → ℤ × Files × State
  spec_close fd none files s = (negsuc 0, files, s)
  spec_close fd (some host_fd) files s = (pos 0, clear_file files fd, (d.close_dev host_fd s).1)

  pub close_file-idle :
      (fd : ℤ) (file : Option ℤ) (g : Process Queue State)
      → k.IsIdle g.vq
      → (q : Queue) × (close_file d m t new_fd polls fd file g
          ≡ ok (
            (spec_close fd file g.files g.host).0,
            record {
              host = (spec_close fd file g.files g.host).2;
              vq = q;
              files = (spec_close fd file g.files g.host).1;
            },
          ))
        × k.IsIdle q
  unfolding close_file
  close_file-idle fd none g idle = (g.vq, refl, idle)
  close_file-idle fd (some host_fd) g idle =
      let (q, done, idle') = crypto_chrdev_release-close d m t k polls host_fd g.vq g.host idle in
      (q, rw done refl, idle')

  -- ioctl by the specification, where the file is open.
  abbrev pub spec_file : Option ℤ → ℕ → UserArg → State → Reply × State
  spec_file none cmd arg s = (answer (negsuc 0), s)
  spec_file (some host_fd) cmd arg s =
      let (reply, s') = spec_ioctl d m host_fd cmd arg s in
      (record reply { ret = result_of reply.ret }, s')

  pub ioctl_file-idle :
      (file : Option ℤ) (cmd : ℕ) (arg : UserArg) (g : Process Queue State)
      → k.IsIdle g.vq
      → (q : Queue) × (ioctl_file d m t new_fd polls file cmd arg g
          ≡ ok (
            (spec_file file cmd arg g.host).0,
            record g { host = (spec_file file cmd arg g.host).1; vq = q },
          ))
        × k.IsIdle q
  unfolding ioctl_file
  ioctl_file-idle none cmd arg g idle = (g.vq, refl, idle)
  ioctl_file-idle (some host_fd) cmd arg g idle =
      let (q, done, idle') =
        crypto_chrdev_ioctl-spec_ioctl d m t k polls host_fd cmd arg g.vq g.host idle in
      (q, rw done refl, idle')

  pub sys_close-idle :
      (fd : ℤ) (g : Process Queue State)
      → k.IsIdle g.vq
      → (q : Queue) × (sys_close d m t new_fd polls fd g
          ≡ ok (
            (spec_close fd (file_of g.files fd) g.files g.host).0,
            record {
              host = (spec_close fd (file_of g.files fd) g.files g.host).2;
              vq = q;
              files = (spec_close fd (file_of g.files fd) g.files g.host).1;
            },
          ))
        × k.IsIdle q
  unfolding sys_close
  sys_close-idle fd g idle = close_file-idle fd (file_of g.files fd) g idle

  pub sys_ioctl-idle :
      (fd : ℤ) (cmd : ℕ) (arg : UserArg) (g : Process Queue State)
      → k.IsIdle g.vq
      → (q : Queue) × (sys_ioctl d m t new_fd polls fd cmd arg g
          ≡ ok (
            (spec_file (file_of g.files fd) cmd arg g.host).0,
            record g { host = (spec_file (file_of g.files fd) cmd arg g.host).1; vq = q },
          ))
        × k.IsIdle q
  unfolding sys_ioctl
  sys_ioctl-idle fd cmd arg g idle = ioctl_file-idle (file_of g.files fd) cmd arg g idle

  -- A process between two calls.
  abbrev pub Resting : Type 0
  Resting = (g : Process Queue State) × k.IsIdle g.vq

  abbrev pub opened : Resting → ℤ × Resting
  opened (g, idle) =
      let (q, done, idle') = sys_open-idle g idle in
      (
        pos (new_fd g.files),
        (
          record {
            host = (d.open_dev g.host).1;
            vq = q;
            files = update g.files (new_fd g.files) (some (d.open_dev g.host).0);
          },
          idle',
        ),
      )

  abbrev pub closed : ℤ → Resting → ℤ × Resting
  closed fd (g, idle) =
      let (q, done, idle') = sys_close-idle fd g idle in
      let (ret, files, s) = spec_close fd (file_of g.files fd) g.files g.host in
      (ret, (record { host = s; vq = q; files = files }, idle'))

  abbrev pub controlled : ℤ → ℕ → UserArg → Resting → Reply × Resting
  controlled fd cmd arg (g, idle) =
      let (q, done, idle') = sys_ioctl-idle fd cmd arg g idle in
      let (reply, s) = spec_file (file_of g.files fd) cmd arg g.host in
      (reply, (record g { host = s; vq = q }, idle'))

  -- What /dev/crypto of the guest is to do.
  abbrev pub spec_device : Cryptodev
  spec_device = calls opened closed controlled

  -- Over an idle queue, open, close and ioctl of the driver return, and they return and do what the
  -- specifications do with the host's device (`opened`, `closed`, `controlled`), for every descriptor,
  -- command and argument; the queue is idle afterwards.
  pub guest_device-sys :
      (g : Process Queue State) (idle : k.IsIdle g.vq)
      → (sys_open d m t new_fd polls vdev minor g
          ≡ ok ((opened (g, idle)).0, (opened (g, idle)).1.0))
        × ((fd : ℤ)
            → sys_close d m t new_fd polls fd g
              ≡ ok ((closed fd (g, idle)).0, (closed fd (g, idle)).1.0))
        × ((fd : ℤ) (cmd : ℕ) (arg : UserArg)
            → sys_ioctl d m t new_fd polls fd cmd arg g
              ≡ ok ((controlled fd cmd arg (g, idle)).0, (controlled fd cmd arg (g, idle)).1.0))
  guest_device-sys g idle = (
    (sys_open-idle g idle).1,
    λ fd. (sys_close-idle fd g idle).1,
    λ fd cmd arg. (sys_ioctl-idle fd cmd arg g idle).1,
  )

-- ===== src/Guest/Chrdev/Refine.antt =====
-- The guest's file operations are the host's calls.
use cryptodev_chat.Common.{
  ℕ, ◌≡◌, refl, List, [], ◌∷◌, Option, none, some, ℤ, pos, true, false, ◌==◌, if◌then◌else◌,
  Bool-cases, inl, inr, arith,
}
use cryptodev_chat.Run.{ok}
use cryptodev_chat.Cryptodev.{Cryptodev, SessionOp, CryptOp, ciocgsession, ciocfsession, cioccrypt}
use cryptodev_chat.Virtio.{Cell, Elem, Virtqueue, Carries, word, int, bytes, session, crypt}
use cryptodev_chat.Backend.{Mapping, handle_elem, syscall_close, syscall_ioctl}
use cryptodev_chat.Guest.Chrdev.{
  Request, ioctl_request, get_session_sgs, free_session_sgs, crypt_sgs, UserArg, Reply, answer,
  efault, request_sgs, reply_of, crypto_chrdev_ioctl, crypto_chrdev_release,
}
use cryptodev_chat.Guest.Chrdev.Transact.{transact-answer}

module _ (d : Cryptodev) (m : Mapping) where
  open d use {State}

  -- The specification: the call on the host's device with qemu's addresses in place of the pointers,
  -- and -EFAULT where the memory of the process cannot be read (no call) or written (after the call).
  abbrev pub spec_get_session :
      ℤ → UserArg → Option SessionOp → Option (List ℕ) → State → Reply × State
  spec_get_session fd arg (some op) (some key) s =
      let (r, op', s') = d.get_session fd (record op { key = m.base 3 }) key s in
      (
        if arg.session_writable
            then record { ret = r; session_out = some op'; dst_out = none }
            else answer efault,
        s',
      )
  spec_get_session fd arg none key s = (answer efault, s)
  spec_get_session fd arg (some op) none s = (answer efault, s)

  abbrev pub spec_free_session : ℤ → Option ℕ → State → Reply × State
  spec_free_session fd (some ses) s = let (r, s') = d.free_session fd ses s in (answer r, s')
  spec_free_session fd none s = (answer efault, s)

  abbrev pub spec_crypt :
      ℤ → UserArg → Option CryptOp → Option (List ℕ) → Option (List ℕ) → State → Reply × State
  spec_crypt fd arg (some op) (some src) (some iv) s =
      let (r, dst, s') =
        d.crypt fd (record op { src = m.base 4; iv = m.base 5; dst = m.in_base }) src iv s in
      (
        if arg.dst_writable
            then record { ret = r; session_out = none; dst_out = some dst }
            else answer efault,
        s',
      )
  spec_crypt fd arg none src iv s = (answer efault, s)
  spec_crypt fd arg (some op) none iv s = (answer efault, s)
  spec_crypt fd arg (some op) (some src) none s = (answer efault, s)

  unfoldable pub spec_ioctl : ℤ → ℕ → UserArg → State → Reply × State
  spec_ioctl fd cmd arg s =
      if cmd == ciocgsession
      then spec_get_session fd arg arg.session_op arg.session_key s
      else if cmd == ciocfsession
      then spec_free_session fd arg.ses_id s
      else if cmd == cioccrypt
      then spec_crypt fd arg arg.crypt_op arg.src arg.iv s
      else (answer (pos 0), s)

module _ (d : Cryptodev) (m : Mapping) (t : Virtqueue) (k : Carries t) where
  open d use {State}
  open t use {Queue}

  abbrev Does : ℕ → ℕ → UserArg → Option Request → Queue → State → Reply × State → Type 0
  Does polls cmd arg request q s (reply, s') =
      (q' : Queue) × (ioctl_request d m t polls cmd arg request q s ≡ ok (reply, q', s'))
      × k.IsIdle q'

  Does-answer :
      (polls cmd : ℕ) (arg : UserArg) (out_sg in_sg : List Cell) (q : Queue) (s s' : State)
      (elem : Elem) (reply : Reply)
      → k.IsIdle q
      → handle_elem d m (record { out_sg = out_sg; in_sg = in_sg }) s ≡ ok (elem, s')
      → reply_of cmd arg elem ≡ ok reply
      → Does polls cmd arg (some (out_sg, in_sg)) q s (reply, s')
  unfolding ioctl_request
  Does-answer polls cmd arg out_sg in_sg q s s' elem reply idle handled replied =
      let (q', done, idle') = transact-answer d m t k polls out_sg in_sg q s s' elem idle handled in
      (q', rw (done, replied) refl, idle')

  get_session-Does :
      (polls : ℕ) (fd : ℤ) (cmd : ℕ) (arg : UserArg) (so : Option SessionOp) (sk : Option (List ℕ))
      (q : Queue) (s : State)
      → (cmd == ciocgsession) ≡ true
      → k.IsIdle q
      → Does polls cmd arg (get_session_sgs fd cmd so sk) q s (spec_get_session d m fd arg so sk s)
  unfolding ioctl_request reply_of handle_elem
  get_session-Does polls fd cmd arg none sk q s e idle = (q, refl, idle)
  get_session-Does polls fd cmd arg (some op) none q s e idle = (q, refl, idle)
  get_session-Does polls fd cmd arg (some op) (some key) q s e idle =
      Does-answer polls cmd arg _ _ q s _
        (record {
          out_sg = word syscall_ioctl ∷ int fd ∷ word cmd ∷ bytes key ∷ [];
          in_sg = session got.1 ∷ int got.0 ∷ [];
        })
        _ idle (rw e refl) (rw e refl)
    where
      got : ℤ × SessionOp × State
      got = d.get_session fd (record op { key = m.base 3 }) key s

  free_session-Does :
      (polls : ℕ) (fd : ℤ) (cmd : ℕ) (arg : UserArg) (ses : Option ℕ) (q : Queue) (s : State)
      → (cmd == ciocgsession) ≡ false
      → (cmd == ciocfsession) ≡ true
      → (cmd == cioccrypt) ≡ false
      → k.IsIdle q
      → Does polls cmd arg (free_session_sgs fd cmd ses) q s (spec_free_session d m fd ses s)
  unfolding ioctl_request reply_of handle_elem
  free_session-Does polls fd cmd arg none q s e₁ e₂ e₃ idle = (q, refl, idle)
  free_session-Does polls fd cmd arg (some ses) q s e₁ e₂ e₃ idle =
      Does-answer polls cmd arg _ _ q s _
        (record {
          out_sg = word syscall_ioctl ∷ int fd ∷ word cmd ∷ word ses ∷ [];
          in_sg = int freed.0 ∷ [];
        })
        _ idle (rw (e₁, e₂) refl) (rw (e₁, e₃) refl)
    where
      freed : ℤ × State
      freed = d.free_session fd ses s

  crypt-Does :
      (polls : ℕ) (fd : ℤ) (cmd : ℕ) (arg : UserArg) (co : Option CryptOp)
      (src iv : Option (List ℕ)) (q : Queue) (s : State)
      → (cmd == ciocgsession) ≡ false
      → (cmd == ciocfsession) ≡ false
      → (cmd == cioccrypt) ≡ true
      → k.IsIdle q
      → Does polls cmd arg (crypt_sgs fd cmd co src iv) q s (spec_crypt d m fd arg co src iv s)
  unfolding ioctl_request reply_of handle_elem
  crypt-Does polls fd cmd arg none src iv q s e₁ e₂ e₃ idle = (q, refl, idle)
  crypt-Does polls fd cmd arg (some op) none iv q s e₁ e₂ e₃ idle = (q, refl, idle)
  crypt-Does polls fd cmd arg (some op) (some src) none q s e₁ e₂ e₃ idle = (q, refl, idle)
  crypt-Does polls fd cmd arg (some op) (some src) (some iv) q s e₁ e₂ e₃ idle =
      Does-answer polls cmd arg _ _ q s _
        (record {
          out_sg = word syscall_ioctl ∷ int fd ∷ word cmd ∷ crypt op' ∷ bytes src ∷ bytes iv ∷ [];
          in_sg = bytes done.1 ∷ int done.0 ∷ [];
        })
        _ idle (rw (e₁, e₂, e₃) refl) (rw (e₁, e₃) refl)
    where
      op' : CryptOp
      op' = record op { src = m.base 4; iv = m.base 5; dst = m.in_base }

      done : ℤ × List ℕ × State
      done = d.crypt fd op' src iv s

  other-Does :
      (polls : ℕ) (fd : ℤ) (cmd : ℕ) (arg : UserArg) (q : Queue) (s : State)
      → (cmd == ciocgsession) ≡ false
      → (cmd == ciocfsession) ≡ false
      → (cmd == cioccrypt) ≡ false
      → k.IsIdle q
      → Does polls cmd arg
          (some (word syscall_ioctl ∷ int fd ∷ word cmd ∷ [], int (pos 0) ∷ []))
          q
          s
          (answer (pos 0), s)
  unfolding ioctl_request reply_of handle_elem
  other-Does polls fd cmd arg q s e₁ e₂ e₃ idle =
      Does-answer polls cmd arg _ _ q s s
        (record { out_sg = word syscall_ioctl ∷ int fd ∷ word cmd ∷ []; in_sg = int (pos 0) ∷ [] })
        _ idle (rw (e₁, e₂, e₃) refl) (rw (e₁, e₃) refl)

  -- Over an idle queue, for every command, argument and number of polls, ioctl on the guest's device
  -- returns, and returns and stores what the specification does with the host's device; the queue is
  -- idle again. A command that is none of the three returns 0 and does nothing.
  pub crypto_chrdev_ioctl-spec_ioctl :
      (polls : ℕ) (fd : ℤ) (cmd : ℕ) (arg : UserArg) (q : Queue) (s : State)
      → k.IsIdle q
      → (q' : Queue) × (crypto_chrdev_ioctl d m t polls fd cmd arg q s
          ≡ ok ((spec_ioctl d m fd cmd arg s).0, q', (spec_ioctl d m fd cmd arg s).1))
        × k.IsIdle q'
  unfolding crypto_chrdev_ioctl request_sgs spec_ioctl
  crypto_chrdev_ioctl-spec_ioctl polls fd cmd arg q s idle =
      elim (Bool-cases (cmd == ciocgsession)) [
        | inl e₁ ↦
            rw e₁ (get_session-Does polls fd cmd arg arg.session_op arg.session_key q s e₁ idle)
        | inr e₁ ↦ rw e₁ (elim (Bool-cases (cmd == ciocfsession)) [
          | inl e₂ ↦
              rw e₂ (free_session-Does polls fd cmd arg arg.ses_id q s e₁ e₂ (ground arith) idle)
          | inr e₂ ↦ rw e₂ (elim (Bool-cases (cmd == cioccrypt)) [
            | inl e₃ ↦
                rw e₃ (crypt-Does polls fd cmd arg arg.crypt_op arg.src arg.iv q s e₁ e₂ e₃ idle)
            | inr e₃ ↦ rw e₃ (other-Does polls fd cmd arg q s e₁ e₂ e₃ idle)
          ])
        ])
      ]

  -- Over an idle queue, release closes the descriptor on the host, returns 0 whatever close said, and
  -- leaves the queue idle.
  pub crypto_chrdev_release-close :
      (polls : ℕ) (fd : ℤ) (q : Queue) (s : State)
      → k.IsIdle q
      → (q' : Queue) × (crypto_chrdev_release d m t polls fd q s
          ≡ ok (pos 0, q', (d.close_dev fd s).1))
        × k.IsIdle q'
  unfolding crypto_chrdev_release handle_elem
  crypto_chrdev_release-close polls fd q s idle =
      let (q', done, idle') =
        transact-answer d m t k polls (word syscall_close ∷ int fd ∷ []) [] q s (d.close_dev fd s).1
          (record { out_sg = word syscall_close ∷ int fd ∷ []; in_sg = [] }) idle refl in
      (q', rw done refl, idle')

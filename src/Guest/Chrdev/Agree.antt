-- ===== src/Guest/Chrdev/Agree.antt =====
-- The two ends of the queue agree on what each entry of a request holds.
use cryptodev_chat.Common.{
  ℕ, ◌≡◌, refl, [], ◌∷◌, Option, some, none, List, ℤ, pos, negsuc, true, false, Bool-cases, inl,
  inr, ◌==◌, arith,
}
use cryptodev_chat.Run.{Run, ok, ◌>>=◌, bind-ok, Returns, returns, Returns-ok}
use cryptodev_chat.Cryptodev.{Cryptodev, SessionOp, CryptOp, ciocgsession, ciocfsession, cioccrypt}
use cryptodev_chat.Virtio.{Elem, word, int}
use cryptodev_chat.Backend.{Mapping, syscall_open, syscall_close, syscall_ioctl, handle_elem}
use cryptodev_chat.Guest.Chrdev.{
  UserArg, Reply, Request, get_session_sgs, free_session_sgs, crypt_sgs, request_sgs, reply_of,
}

abbrev pub elem_of : Request → Elem
elem_of (out_sg, in_sg) = record { out_sg = out_sg; in_sg = in_sg }

-- A request of the driver: that of open, of release, or of ioctl.
pub data IsRequest : Request → Type 0 where
  of_open : IsRequest (word syscall_open ∷ [], int (negsuc 0) ∷ [])
  of_release : (host_fd : ℤ) → IsRequest (word syscall_close ∷ int host_fd ∷ [], [])
  of_ioctl :
      (host_fd : ℤ) (cmd : ℕ) (arg : UserArg) (r : Request)
      → request_sgs host_fd cmd arg ≡ some r
      → IsRequest r

module _ (d : Cryptodev) (m : Mapping) where
  open d use {State}

  -- The device answers, and the driver uses the answer.
  abbrev pub answered : ℕ → UserArg → Request → State → Run (Reply × State)
  answered cmd arg r s = do
    (elem, s') ← handle_elem d m (elem_of r) s
    reply ← reply_of cmd arg elem
    ok (reply, s')

  abbrev Agrees : ℕ → UserArg → State → Option Request → Type 0
  Agrees cmd arg s none = Unit {0}
  Agrees cmd arg s (some r) = Returns (answered cmd arg r s)

  get_session-Agrees :
      (fd : ℤ) (cmd : ℕ) (arg : UserArg) (op : Option SessionOp) (key : Option (List ℕ)) (s : State)
      → (cmd == ciocgsession) ≡ true
      → Agrees cmd arg s (get_session_sgs fd cmd op key)
  unfolding handle_elem reply_of
  get_session-Agrees fd cmd arg none key s e = tt
  get_session-Agrees fd cmd arg (some op) none s e = tt
  get_session-Agrees fd cmd arg (some op) (some key) s e = rw e returns

  free_session-Agrees :
      (fd : ℤ) (cmd : ℕ) (arg : UserArg) (ses : Option ℕ) (s : State)
      → (cmd == ciocgsession) ≡ false
      → (cmd == ciocfsession) ≡ true
      → (cmd == cioccrypt) ≡ false
      → Agrees cmd arg s (free_session_sgs fd cmd ses)
  unfolding handle_elem reply_of
  free_session-Agrees fd cmd arg none s e₁ e₂ e₃ = tt
  free_session-Agrees fd cmd arg (some ses) s e₁ e₂ e₃ = rw (e₁, e₂, e₃) returns

  crypt-Agrees :
      (fd : ℤ) (cmd : ℕ) (arg : UserArg) (op : Option CryptOp) (src iv : Option (List ℕ))
      (s : State)
      → (cmd == ciocgsession) ≡ false
      → (cmd == ciocfsession) ≡ false
      → (cmd == cioccrypt) ≡ true
      → Agrees cmd arg s (crypt_sgs fd cmd op src iv)
  unfolding handle_elem reply_of
  crypt-Agrees fd cmd arg none src iv s e₁ e₂ e₃ = tt
  crypt-Agrees fd cmd arg (some op) none iv s e₁ e₂ e₃ = tt
  crypt-Agrees fd cmd arg (some op) (some src) none s e₁ e₂ e₃ = tt
  crypt-Agrees fd cmd arg (some op) (some src) (some iv) s e₁ e₂ e₃ = rw (e₁, e₂, e₃) returns

  other-Agrees :
      (fd : ℤ) (cmd : ℕ) (arg : UserArg) (s : State)
      → (cmd == ciocgsession) ≡ false
      → (cmd == ciocfsession) ≡ false
      → (cmd == cioccrypt) ≡ false
      → Agrees cmd arg s (some (word syscall_ioctl ∷ int fd ∷ word cmd ∷ [], int (pos 0) ∷ []))
  unfolding handle_elem reply_of
  other-Agrees fd cmd arg s e₁ e₂ e₃ = rw (e₁, e₂, e₃) returns

  request_sgs-Agrees :
      (fd : ℤ) (cmd : ℕ) (arg : UserArg) (s : State) → Agrees cmd arg s (request_sgs fd cmd arg)
  unfolding request_sgs
  request_sgs-Agrees fd cmd arg s = elim (Bool-cases (cmd == ciocgsession)) [
    | inl e₁ ↦ rw e₁ (get_session-Agrees fd cmd arg arg.session_op arg.session_key s e₁)
    | inr e₁ ↦ rw e₁ (elim (Bool-cases (cmd == ciocfsession)) [
      | inl e₂ ↦ rw e₂ (free_session-Agrees fd cmd arg arg.ses_id s e₁ e₂ (ground arith))
      | inr e₂ ↦ rw e₂ (elim (Bool-cases (cmd == cioccrypt)) [
        | inl e₃ ↦ rw e₃ (crypt-Agrees fd cmd arg arg.crypt_op arg.src arg.iv s e₁ e₂ e₃)
        | inr e₃ ↦ rw e₃ (other-Agrees fd cmd arg s e₁ e₂ e₃)
      ])
    ])
  ]

  pub request_sgs-Returns :
      (fd : ℤ) (cmd : ℕ) (arg : UserArg) (r : Request) (s : State)
      → request_sgs fd cmd arg ≡ some r
      → Returns (answered cmd arg r s)
  request_sgs-Returns fd cmd arg r s e = rw e at (request_sgs-Agrees fd cmd arg s)

  -- Every request of the driver is answered.
  pub IsRequest-handled :
      (r : Request) (s : State)
      → IsRequest r
      → (e : Elem) × (s' : State) × (handle_elem d m (elem_of r) s ≡ ok (e, s'))
  unfolding handle_elem
  IsRequest-handled _ s of_open = (_, _, refl)
  IsRequest-handled _ s (of_release host_fd) = (_, _, refl)
  IsRequest-handled _ s (of_ioctl fd cmd arg r e) =
      let (a, done) = Returns-ok (request_sgs-Returns fd cmd arg r s e) in
      let ((elem, s'), handled, rest) = bind-ok (handle_elem d m (elem_of r) s) _ done in
      (elem, s', handled)

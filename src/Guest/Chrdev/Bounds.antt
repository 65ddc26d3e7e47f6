-- ===== src/Guest/Chrdev/Bounds.antt =====
-- How many entries a request has.
use cryptodev_chat.Common.{
  ℕ, ◌+◌, ◌≤◌, ◌≡◌, refl, List, [], ◌∷◌, ◌++◌, length, Option, none, some, ℤ, pos, arith, inl, inr,
  Bool-cases, ◌==◌,
}
use cryptodev_chat.Cryptodev.{SessionOp, CryptOp, ciocgsession, ciocfsession, cioccrypt}
use cryptodev_chat.Virtio.{Cell, int}
use cryptodev_chat.Guest.Chrdev.{
  UserArg, Request, get_session_sgs, free_session_sgs, crypt_sgs, request_sgs,
}

abbrev pub sgs_size : ℕ
sgs_size = 8

-- The last entry of a request is the word that host_return_val points to, which is 0 before the host
-- has answered, and its entries fit `sgs`.
pub data FitsSgs : Option Request → Type 0 where
  unread : FitsSgs none
  fits :
      {request : Request} (front : List Cell)
      → request.1 ≡ front ++ int (pos 0) ∷ []
      → length request.0 + length request.1 ≤ sgs_size
      → FitsSgs (some request)

get_session_sgs-FitsSgs :
    (host_fd : ℤ) (cmd : ℕ) (op : Option SessionOp) (key : Option (List ℕ))
    → FitsSgs (get_session_sgs host_fd cmd op key)
get_session_sgs-FitsSgs host_fd cmd (some op) (some key) = fits (_ ∷ []) refl (omega arith)
get_session_sgs-FitsSgs host_fd cmd none key = unread
get_session_sgs-FitsSgs host_fd cmd (some op) none = unread

free_session_sgs-FitsSgs :
    (host_fd : ℤ) (cmd : ℕ) (ses : Option ℕ) → FitsSgs (free_session_sgs host_fd cmd ses)
free_session_sgs-FitsSgs host_fd cmd (some ses) = fits [] refl (omega arith)
free_session_sgs-FitsSgs host_fd cmd none = unread

crypt_sgs-FitsSgs :
    (host_fd : ℤ) (cmd : ℕ) (op : Option CryptOp) (src iv : Option (List ℕ))
    → FitsSgs (crypt_sgs host_fd cmd op src iv)
crypt_sgs-FitsSgs host_fd cmd (some op) (some src) (some iv) = fits (_ ∷ []) refl (omega arith)
crypt_sgs-FitsSgs host_fd cmd none src iv = unread
crypt_sgs-FitsSgs host_fd cmd (some op) none iv = unread
crypt_sgs-FitsSgs host_fd cmd (some op) (some src) none = unread

pub request_sgs-FitsSgs :
    (host_fd : ℤ) (cmd : ℕ) (arg : UserArg) → FitsSgs (request_sgs host_fd cmd arg)
unfolding request_sgs
request_sgs-FitsSgs host_fd cmd arg = elim (Bool-cases (cmd == ciocgsession)) [
  | inl e ↦ rw e (get_session_sgs-FitsSgs host_fd cmd arg.session_op arg.session_key)
  | inr e ↦ elim (Bool-cases (cmd == ciocfsession)) [
    | inl f ↦ rw (e, f) (free_session_sgs-FitsSgs host_fd cmd arg.ses_id)
    | inr f ↦ elim (Bool-cases (cmd == cioccrypt)) [
      | inl g ↦ rw (e, f, g) (crypt_sgs-FitsSgs host_fd cmd arg.crypt_op arg.src arg.iv)
      | inr g ↦ rw (e, f, g) (fits [] refl (omega arith))
    ]
  ]
]

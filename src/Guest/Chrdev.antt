-- ===== src/Guest/Chrdev.antt =====
-- virtio-crypto/guest/crypto-chrdev.c: the file operations over one device's virtqueue.
--
-- What a process hands to ioctl is `UserArg`, a snapshot of the memory behind the argument in which a
-- part that copy_from_user cannot read is `none`. The driver reads some of it twice; the snapshot is
-- the same for both. The words at session_op_p->keylen and crypt_op_p->len, which the driver reads in
-- place before it copies anything, are taken to be readable: where they are not, the kernel faults.
-- kzalloc and kmalloc succeed where the source does not test them.
pub mod Bounds
pub mod Agree
pub mod Transact
pub mod Refine
pub mod Open
pub mod Memory
use cryptodev_chat.Common.{
  ℕ, zero, suc, List, [], ◌∷◌, ◌++◌, Option, none, some, ℤ, pos, negsuc, Bool, true, false,
  get_elem?, replicate, ◌==◌, if◌then◌else◌,
}
use cryptodev_chat.Run.{Run, ok, spins, faults, ◌>>=◌}
use cryptodev_chat.Cryptodev.{SessionOp, CryptOp, Cryptodev, ciocgsession, ciocfsession, cioccrypt}
use cryptodev_chat.Virtio.{Cell, word, int, bytes, session, crypt, Elem, Virtqueue}
use cryptodev_chat.Backend.{
  Mapping, as_int, as_bytes, as_session, syscall_open, syscall_close, syscall_ioctl,
  vq_handle_output,
}

-- -EFAULT
abbrev pub efault : ℤ
efault = negsuc 13

pub record UserArg : Type 0 where
  pub session_op : Option SessionOp
  pub session_key : Option (List ℕ)  -- the keylen bytes at session_op->key
  pub ses_id : Option ℕ
  pub crypt_op : Option CryptOp
  pub src : Option (List ℕ)  -- the len bytes at crypt_op->src
  pub iv : Option (List ℕ)
  pub session_writable : Bool
  pub dst_writable : Bool

-- What ioctl returns and what it has stored in the memory of the process.
pub record Reply : Type 0 where
  pub ret : ℤ
  pub session_out : Option SessionOp
  pub dst_out : Option (List ℕ)

abbrev pub answer : ℤ → Reply
answer n = record { ret = n; session_out = none; dst_out = none }

abbrev pub Request : Type 0
Request = List Cell × List Cell

-- The entries that all ioctl commands share, then those of one command; `none` where
-- copy_from_user fails.
abbrev common_sg : ℤ → ℕ → List Cell
common_sg host_fd cmd = word syscall_ioctl ∷ int host_fd ∷ word cmd ∷ []

abbrev pub get_session_sgs : ℤ → ℕ → Option SessionOp → Option (List ℕ) → Option Request
get_session_sgs host_fd cmd (some op) (some key) =
    some (common_sg host_fd cmd ++ bytes key ∷ [], session op ∷ int (pos 0) ∷ [])
get_session_sgs host_fd cmd none key = none
get_session_sgs host_fd cmd (some op) none = none

abbrev pub free_session_sgs : ℤ → ℕ → Option ℕ → Option Request
free_session_sgs host_fd cmd (some ses) =
    some (common_sg host_fd cmd ++ word ses ∷ [], int (pos 0) ∷ [])
free_session_sgs host_fd cmd none = none

abbrev pub crypt_sgs : ℤ → ℕ → Option CryptOp → Option (List ℕ) → Option (List ℕ) → Option Request
crypt_sgs host_fd cmd (some op) (some src) (some iv) = some (
  common_sg host_fd cmd ++ crypt op ∷ bytes src ∷ bytes iv ∷ [],
  bytes (replicate op.len 0) ∷ int (pos 0) ∷ [],
)
crypt_sgs host_fd cmd none src iv = none
crypt_sgs host_fd cmd (some op) none iv = none
crypt_sgs host_fd cmd (some op) (some src) none = none

unfoldable pub request_sgs : ℤ → ℕ → UserArg → Option Request
request_sgs host_fd cmd arg =
    if cmd == ciocgsession
    then get_session_sgs host_fd cmd arg.session_op arg.session_key
    else if cmd == ciocfsession
    then free_session_sgs host_fd cmd arg.ses_id
    else if cmd == cioccrypt
    then crypt_sgs host_fd cmd arg.crypt_op arg.src arg.iv
    else some (common_sg host_fd cmd, int (pos 0) ∷ [])

-- The use of the buffers that the host has filled: copy_to_user, and *host_return_val, which is the
-- last in entry.
unfoldable pub reply_of : ℕ → UserArg → Elem → Run Reply
reply_of cmd arg elem =
    if cmd == ciocgsession
    then (do
      op ← as_session (get_elem? elem.in_sg 0)
      host_return_val ← as_int (get_elem? elem.in_sg 1)
      ok (
          if arg.session_writable
          then record { ret = host_return_val; session_out = some op; dst_out = none }
          else answer efault))
    else if cmd == cioccrypt
    then (do
      dst ← as_bytes (get_elem? elem.in_sg 0)
      host_return_val ← as_int (get_elem? elem.in_sg 1)
      ok (
          if arg.dst_writable
          then record { ret = host_return_val; session_out = none; dst_out = some dst }
          else answer efault))
    else (do host_return_val ← as_int (get_elem? elem.in_sg 0); ok (answer host_return_val))

module _ (d : Cryptodev) (m : Mapping) (t : Virtqueue) where
  open d use {State}
  open t use {Queue, add_sgs, get_buf}

  -- What virtqueue_get_buf gave ends the loop; with NULL the loop goes on.
  abbrev unless_got :
      Option (Elem × Queue) → State → Run (Elem × Queue × State) → Run (Elem × Queue × State)
  unless_got none s again = again
  unless_got (some (elem, q)) s again = ok (elem, q, s)

  -- while (virtqueue_get_buf(vq, &len) == NULL): `polls` is the number of tries that the guest makes
  -- before qemu gets to run. A queue that is still empty after that stays so.
  busy_wait : ℕ → Queue → State → Run (Elem × Queue × State)
  busy_wait zero q s = do (q', s') ← vq_handle_output d m t q s; unless_got (get_buf q') s' spins
  busy_wait (suc polls) q s = unless_got (get_buf q) s (busy_wait polls q s)

  -- virtqueue_add_sgs, virtqueue_kick and the loop, under crdrvdata.lock
  unfoldable pub transact : ℕ → Request → Queue → State → Run (Elem × Queue × State)
  unfolding busy_wait
  transact polls (out_sg, in_sg) q s = busy_wait polls (add_sgs out_sg in_sg q).1 s

  ioctl_request : ℕ → ℕ → UserArg → Option Request → Queue → State → Run (Reply × Queue × State)
  ioctl_request polls cmd arg none q s = ok (answer efault, q, s)
  ioctl_request polls cmd arg (some request) q s = do
    (elem, q', s') ← transact polls request q s
    reply ← reply_of cmd arg elem
    ok (reply, q', s')

  -- crypto_chrdev_ioctl(filp, cmd, arg), where `host_fd` is that of the open file
  unfoldable pub crypto_chrdev_ioctl :
      ℕ → ℤ → ℕ → UserArg → Queue → State → Run (Reply × Queue × State)
  unfolding ioctl_request
  crypto_chrdev_ioctl polls host_fd cmd arg q s =
      ioctl_request polls cmd arg (request_sgs host_fd cmd arg) q s

  -- crypto_chrdev_release(inode, filp)
  unfoldable pub crypto_chrdev_release : ℕ → ℤ → Queue → State → Run (ℤ × Queue × State)
  crypto_chrdev_release polls host_fd q s = do
    (elem, q', s') ← transact polls (word syscall_close ∷ int host_fd ∷ [], []) q s
    ok (pos 0, q', s')

-- ===== src/Backend.antt =====
-- virtio-crypto/qemu/hw/char/virtio-crypto.c: the device in qemu, which makes the guest's calls on the
-- /dev/crypto of the host. `base` gives the address at which qemu sees the buffer of an entry: the
-- out entries are numbered from 0, and `in_base` is that of the first in entry.
pub mod Device
pub mod Pci
use cryptodev_chat.Common.{ℕ, List, Option, none, some, ℤ, get_elem?, set, ◌==◌, if◌then◌else◌}
use cryptodev_chat.Run.{Run, ok, faults, ◌>>=◌}
use cryptodev_chat.Cryptodev.{SessionOp, CryptOp, Cryptodev, ciocgsession, ciocfsession, cioccrypt}
use cryptodev_chat.Virtio.{Cell, word, int, bytes, session, crypt, Elem, Virtqueue}

abbrev pub syscall_open : ℕ
syscall_open = 0

abbrev pub syscall_close : ℕ
syscall_close = 1

abbrev pub syscall_ioctl : ℕ
syscall_ioctl = 2

-- iov_base of an entry, read at the type that the code gives it; another content is a fault.
abbrev pub as_word : Option Cell → Run ℕ
as_word (some (word n)) = ok n
as_word _ = faults

abbrev pub as_int : Option Cell → Run ℤ
as_int (some (int n)) = ok n
as_int _ = faults

abbrev pub as_bytes : Option Cell → Run (List ℕ)
as_bytes (some (bytes bs)) = ok bs
as_bytes _ = faults

abbrev pub as_session : Option Cell → Run SessionOp
as_session (some (session op)) = ok op
as_session _ = faults

abbrev pub as_crypt : Option Cell → Run CryptOp
as_crypt (some (crypt op)) = ok op
as_crypt _ = faults

-- The addresses of the buffers in qemu.
pub record Mapping : Type 0 where
  pub base : ℕ → ℕ
  pub in_base : ℕ

module _ (d : Cryptodev) (m : Mapping) where
  open d use {State, open_dev, close_dev, get_session, free_session}

  handle_open : Elem → State → Run (Elem × State)
  handle_open elem s = do
    _ ← as_int (get_elem? elem.in_sg 0)
    let opened = open_dev s
    ok (record elem { in_sg = set elem.in_sg 0 (int opened.0) }, opened.1)

  handle_close : Elem → State → Run (Elem × State)
  handle_close elem s = do
    host_fd ← as_int (get_elem? elem.out_sg 1)
    ok (elem, (close_dev host_fd s).1)

  handle_get_session : ℤ → Elem → State → Run (Elem × State)
  handle_get_session host_fd elem s = do
    session_key ← as_bytes (get_elem? elem.out_sg 3)
    session_op ← as_session (get_elem? elem.in_sg 0)
    _ ← as_int (get_elem? elem.in_sg 1)
    let got = get_session host_fd (record session_op { key = m.base 3 }) session_key s
    ok (record elem { in_sg = set (set elem.in_sg 0 (session got.1)) 1 (int got.0) }, got.2)

  handle_free_session : ℤ → Elem → State → Run (Elem × State)
  handle_free_session host_fd elem s = do
    ses_id ← as_word (get_elem? elem.out_sg 3)
    _ ← as_int (get_elem? elem.in_sg 0)
    let freed = free_session host_fd ses_id s
    ok (record elem { in_sg = set elem.in_sg 0 (int freed.0) }, freed.1)

  handle_crypt : ℤ → Elem → State → Run (Elem × State)
  handle_crypt host_fd elem s = do
    crypt_op ← as_crypt (get_elem? elem.out_sg 3)
    src ← as_bytes (get_elem? elem.out_sg 4)
    iv ← as_bytes (get_elem? elem.out_sg 5)
    _ ← as_bytes (get_elem? elem.in_sg 0)
    _ ← as_int (get_elem? elem.in_sg 1)
    let op = record crypt_op { src = m.base 4; iv = m.base 5; dst = m.in_base }
    let done = d.crypt host_fd op src iv s
    ok (
      record {
        out_sg = set elem.out_sg 3 (crypt op);
        in_sg = set (set elem.in_sg 0 (bytes done.1)) 1 (int done.0);
      },
      done.2,
    )

  handle_ioctl : Elem → State → Run (Elem × State)
  unfolding handle_get_session handle_free_session handle_crypt
  handle_ioctl elem s = do
    host_fd ← as_int (get_elem? elem.out_sg 1)
    cmd ← as_word (get_elem? elem.out_sg 2)
    if cmd == ciocgsession
        then handle_get_session host_fd elem s
        else if cmd == ciocfsession
        then handle_free_session host_fd elem s
        else if cmd == cioccrypt
        then handle_crypt host_fd elem s
        else ok (elem, s)

  -- The switch on the kind of call.
  unfoldable pub handle_elem : Elem → State → Run (Elem × State)
  unfolding handle_open handle_close handle_ioctl
  handle_elem elem s = do
    syscall_type ← as_word (get_elem? elem.out_sg 0)
    if syscall_type == syscall_open
        then handle_open elem s
        else if syscall_type == syscall_close
        then handle_close elem s
        else if syscall_type == syscall_ioctl
        then handle_ioctl elem s
        else ok (elem, s)

  module _ (t : Virtqueue) where
    -- What virtqueue_pop gave is answered and pushed; with no item nothing is done.
    serve : Option (Elem × t.Queue) → t.Queue → State → Run (t.Queue × State)
    serve none q s = ok (q, s)
    serve (some (elem, q')) q s = do (done, s') ← handle_elem elem s; ok (t.push done q', s')

    -- vq_handle_output(vdev, vq)
    unfoldable pub vq_handle_output : t.Queue → State → Run (t.Queue × State)
    unfolding serve
    vq_handle_output q s = serve (t.pop q) q s

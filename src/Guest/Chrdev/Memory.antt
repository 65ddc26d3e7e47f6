-- ===== src/Guest/Chrdev/Memory.antt =====
-- virtio-crypto/guest/crypto-chrdev.c: the blocks of kernel memory that open, ioctl and release
-- allocate and free. The allocator is Linux's (kzalloc, kmalloc and kfree, here a record). The sizes
-- are those of a 64-bit kernel; two of them are words in the memory of the process, which the driver
-- reads in place and which are taken to be readable.
pub mod Ioctl
pub mod Account
pub mod Shelf
use mathlib.Core.List.{Perm}
use cryptodev_chat.Common.{
  ℕ, ◌≤◌, ◌<◌, ◌≡◌, List, [], ◌∷◌, Option, none, some, ℤ, Bool, true, false, is_neg, ◌==◌,
  if◌then◌else◌,
}
use cryptodev_chat.Run.{Run, ok, ◌>>=◌}
use cryptodev_chat.Cryptodev.{ciocgsession, cioccrypt}
use cryptodev_chat.Guest.Devices.{CryptoDevice}
use cryptodev_chat.Guest.Chrdev.{UserArg, Request, request_sgs}

-- An address of a block, or `none`: an allocation of 0 bytes gives ZERO_SIZE_PTR, which is no block.
pub record Allocator : Type 1 where
  pub Heap : Type 0
  pub kmalloc : ℕ → Heap → Option ℕ × Heap
  pub kfree : Option ℕ → Heap → Run Heap

-- What Linux documents of it, while memory lasts and up to a largest size: an allocation gives a block
-- that is live until it is freed, one of 0 bytes gives none; a live block can be freed, and kfree of
-- no block does nothing. Nothing is promised of another kfree.
pub record Allocates (al : Allocator) : Type 0 where
  pub live : al.Heap → List ℕ
  pub limit : ℕ
  pub gives :
      (n : ℕ) (h : al.Heap)
      → 0 < n
      → n ≤ limit
      → (p : ℕ) × ((al.kmalloc n h).0 ≡ some p) × Perm (live (al.kmalloc n h).1) (p ∷ live h)
  pub gives_none :
      (h : al.Heap) → ((al.kmalloc 0 h).0 ≡ none) × Perm (live (al.kmalloc 0 h).1) (live h)
  pub frees :
      (p : ℕ) (h : al.Heap) (rest : List ℕ)
      → Perm (live h) (p ∷ rest)
      → (h' : al.Heap) × (al.kfree (some p) h ≡ ok h') × Perm (live h') rest
  pub frees_none : (h : al.Heap) → al.kfree none h ≡ ok h

-- sizeof of the integers, of struct session_op and struct crypt_op and of struct crypto_open_file, and
-- the size of an iv.
abbrev pub int_size : ℕ
int_size = 4

abbrev pub session_op_size : ℕ
session_op_size = 48

abbrev pub crypt_op_size : ℕ
crypt_op_size = 48

abbrev pub open_file_size : ℕ
open_file_size = 16

abbrev pub iv_size : ℕ
iv_size = 16

-- What ioctl allocates, in the order of the source.
pub record Buffers : Type 0 where
  pub syscall_type : Option ℕ
  pub host_fd : Option ℕ
  pub ioctl_cmd : Option ℕ
  pub host_return_val : Option ℕ
  pub session_op : Option ℕ
  pub session_key : Option ℕ
  pub ses_id : Option ℕ
  pub crypt_op : Option ℕ
  pub src : Option ℕ
  pub iv : Option ℕ
  pub dst : Option ℕ

-- Whether copy_to_user takes the answer.
abbrev pub copied_out : ℕ → UserArg → Bool
copied_out cmd arg =
    if cmd == ciocgsession
    then arg.session_writable
    else if cmd == cioccrypt
    then arg.dst_writable
    else true

-- One ioctl on an open file, with the words at session_op_p->keylen and crypt_op_p->len.
pub record Call : Type 0 where
  pub cmd : ℕ
  pub arg : UserArg
  pub keylen : ℕ
  pub len : ℕ

module _ (al : Allocator) where
  open al use {Heap, kmalloc, kfree}

  unfoldable pub ioctl_alloc : ℕ → ℕ → Heap → Buffers × Heap
  ioctl_alloc keylen len h =
      let syscall_type = kmalloc int_size h in
      let host_fd = kmalloc int_size syscall_type.1 in
      let ioctl_cmd = kmalloc int_size host_fd.1 in
      let host_return_val = kmalloc int_size ioctl_cmd.1 in
      let session_op = kmalloc session_op_size host_return_val.1 in
      let session_key = kmalloc keylen session_op.1 in
      let ses_id = kmalloc int_size session_key.1 in
      let crypt_op = kmalloc crypt_op_size ses_id.1 in
      let src = kmalloc len crypt_op.1 in
      let iv = kmalloc iv_size src.1 in
      let dst = kmalloc len iv.1 in
      (
        record {
          syscall_type = syscall_type.0;
          host_fd = host_fd.0;
          ioctl_cmd = ioctl_cmd.0;
          host_return_val = host_return_val.0;
          session_op = session_op.0;
          session_key = session_key.0;
          ses_id = ses_id.0;
          crypt_op = crypt_op.0;
          src = src.0;
          iv = iv.0;
          dst = dst.0;
        },
        dst.1,
      )

  unfoldable pub ioctl_free : Buffers → Heap → Run Heap
  ioctl_free b h = do
    h ← kfree b.syscall_type h
    h ← kfree b.host_fd h
    h ← kfree b.ioctl_cmd h
    h ← kfree b.session_key h
    h ← kfree b.session_op h
    h ← kfree b.ses_id h
    h ← kfree b.crypt_op h
    h ← kfree b.src h
    h ← kfree b.iv h
    kfree b.dst h

  -- The returns of -EFAULT, before the queue and behind it, and the end of the function.
  unfoldable pub ioctl_end : Option Request → Bool → Buffers → Heap → Run Heap
  unfolding ioctl_free
  ioctl_end none copied b h = ok h
  ioctl_end (some request) false b h = ok h
  ioctl_end (some request) true b h = ioctl_free b h

  -- crypto_chrdev_ioctl(filp, cmd, arg)
  unfoldable pub ioctl_heap : ℤ → Call → Heap → Run Heap
  unfolding ioctl_alloc ioctl_end
  ioctl_heap host_fd c h =
      let (b, h') = ioctl_alloc c.keylen c.len h in
      ioctl_end (request_sgs host_fd c.cmd c.arg) (copied_out c.cmd c.arg) b h'

  -- The device is found, and there is memory for the open file or not: what open does from the allocation of the open file on.
  unfoldable pub open_found_heap :
      Bool → Option ℕ → Option ℕ → Heap → Run (Option (Option ℕ) × Heap)
  open_found_heap false syscall_type host_fd h = ok (none, h)
  open_found_heap true syscall_type host_fd h = do
    let crof = kmalloc open_file_size h
    h ← kfree syscall_type crof.1
    h ← kfree host_fd h
    ok (some crof.0, h)

  unfoldable pub open_device_heap :
      {Queue : Type 0}
      → Bool
      → Option (CryptoDevice Queue)
      → Option ℕ
      → Option ℕ
      → Heap
      → Run (Option (Option ℕ) × Heap)
  unfolding open_found_heap
  open_device_heap has_memory none syscall_type host_fd h = ok (none, h)
  open_device_heap has_memory (some crdev) syscall_type host_fd h =
      open_found_heap has_memory syscall_type host_fd h

  -- crypto_chrdev_open(inode, filp), with the open file where it has set one
  unfoldable pub open_heap :
      {Queue : Type 0}
      → ℤ
      → Bool
      → Option (CryptoDevice Queue)
      → Heap
      → Run (Option (Option ℕ) × Heap)
  unfolding open_device_heap
  open_heap seekable has_memory crdev h =
      let syscall_type = kmalloc int_size h in
      let host_fd = kmalloc int_size syscall_type.1 in
      if is_neg seekable
      then ok (none, host_fd.1)
      else open_device_heap has_memory crdev syscall_type.0 host_fd.0 host_fd.1

  -- crypto_chrdev_release(inode, filp)
  unfoldable pub release_heap : Option ℕ → Heap → Run Heap
  release_heap crof h = do
    let syscall_type = kmalloc int_size h
    let host_fd = kmalloc int_size syscall_type.1
    h ← kfree crof host_fd.1
    h ← kfree syscall_type.0 h
    kfree host_fd.0 h

  -- The calls of a process on its open file, then release.
  unfoldable pub calls_heap : ℤ → Option ℕ → List Call → Heap → Run Heap
  unfolding release_heap
  calls_heap host_fd crof [] h = release_heap crof h
  calls_heap host_fd crof (c ∷ cs) h = do h' ← ioctl_heap host_fd c h; calls_heap host_fd crof cs h'

  abbrev pub left_open : ℤ → List Call → Option (Option ℕ) → Heap → Run Heap
  left_open host_fd cs none h = ok h
  left_open host_fd cs (some crof) h = calls_heap host_fd crof cs h

  -- open, and where it has set an open file the calls on it and release
  unfoldable pub file_heap :
      {Queue : Type 0} → ℤ → Bool → Option (CryptoDevice Queue) → ℤ → List Call → Heap → Run Heap
  unfolding open_heap calls_heap
  file_heap seekable has_memory crdev host_fd cs h = do
    (crof, h') ← open_heap seekable has_memory crdev h
    left_open host_fd cs crof h'

-- ===== src/Guest/Chrdev/Memory/Account.antt =====
-- open, the calls on the open file and release: every kfree is of a live block or of none, and what
-- stays live when the file has been closed.
use mathlib.Core.List.{Perm, perm_append_comm}
use mathlib.Core.List.Perm
use cryptodev_chat.Common.{
  ℕ, ◌+◌, ◌≤◌, ◌∙◌, refl, subst, List, [], ◌∷◌, ◌++◌, append_assoc, Option, none, some, ℤ, Bool,
  true, false, is_neg, Bool-cases, if◌then◌else◌, inl, inr, length-append, arith,
}
use cryptodev_chat.Run.{◌>>=◌}
use cryptodev_chat.Guest.Devices.{CryptoDevice}
use cryptodev_chat.Guest.Chrdev.Memory.{
  Allocator, Allocates, Call, open_found_heap, open_device_heap, open_heap, release_heap,
  calls_heap, left_open, file_heap, crypt_op_size, int_size, open_file_size,
}
use cryptodev_chat.Guest.Chrdev.Memory.Ioctl.{
  blocks, ioctl_leak, Leaves, Taken, free_at, more, none_taken, fixed, ioctl_heap-Leaves,
}

abbrev pub ioctl_leaks : ℤ → List Call → ℕ
ioctl_leaks host_fd [] = 0
ioctl_leaks host_fd (c ∷ cs) = ioctl_leak host_fd c + ioctl_leaks host_fd cs

abbrev device_leak : {Queue : Type 0} → Bool → Option (CryptoDevice Queue) → ℕ → ℕ
device_leak has_memory none n = 2
device_leak false (some crdev) n = 2
device_leak true (some crdev) n = n

abbrev pub file_leak : {Queue : Type 0} → ℤ → Bool → Option (CryptoDevice Queue) → ℤ → List Call → ℕ
file_leak seekable has_memory crdev host_fd cs =
    if is_neg seekable then 2 else device_leak has_memory crdev (ioctl_leaks host_fd cs)

-- The sizes that the calls ask for are within the limit.
abbrev pub Within : ℕ → List Call → Type 0
Within limit [] = Unit {0}
Within limit (c ∷ cs) = (c.keylen ≤ limit) × (c.len ≤ limit) × Within limit cs

module _ (al : Allocator) (k : Allocates al) (room : crypt_op_size ≤ k.limit) where
  open al use {Heap, kmalloc}
  open k use {live}

  release_heap-Leaves :
      (crof : Option ℕ) (h : Heap) (rest : List ℕ)
      → Perm (live h) (blocks (crof ∷ []) ++ rest)
      → Leaves al k (release_heap al crof h) 0 rest
  unfolding release_heap blocks
  release_heap-Leaves crof h rest l =
      let syscall_type = kmalloc int_size h in
      let host_fd = kmalloc int_size syscall_type.1 in
      let l0 =
        fixed al k room int_size _ _ rest (omega arith)
          (fixed al k room int_size h _ rest (omega arith) l) in
      let (h1, e1, l1) = free_at al k (host_fd.0 ∷ syscall_type.0 ∷ []) [] crof host_fd.1 rest l0 in
      let (h2, e2, l2) = free_at al k (host_fd.0 ∷ []) [] syscall_type.0 h1 rest l1 in
      let (h3, e3, l3) = free_at al k [] [] host_fd.0 h2 rest l2 in
      (h3, [], rw (e1, e2) e3, l3, refl)

  calls_heap-Leaves :
      (host_fd : ℤ) (crof : Option ℕ) (cs : List Call) (h : Heap) (rest : List ℕ)
      → Within k.limit cs
      → Perm (live h) (blocks (crof ∷ []) ++ rest)
      → Leaves al k (calls_heap al host_fd crof cs h) (ioctl_leaks host_fd cs) rest
  unfolding calls_heap
  calls_heap-Leaves host_fd crof [] h rest w l = release_heap-Leaves crof h rest l
  calls_heap-Leaves host_fd crof (c ∷ cs) h rest (key_fits, fits, w) l =
      let file = blocks (crof ∷ []) in
      let (h1, lost1, e1, l1, n1) = ioctl_heap-Leaves al k room host_fd c h key_fits fits in
      let moved : Perm (lost1 ++ (file ++ rest)) (file ++ (lost1 ++ rest)) =
        subst (λ x. Perm (lost1 ++ (file ++ rest)) x) (append_assoc file lost1 rest)
          (subst (λ x. Perm x ((file ++ lost1) ++ rest)) (append_assoc lost1 file rest)
            (Perm.append_right rest (perm_append_comm lost1 file))) in
      let (h2, lost2, e2, l2, n2) =
        calls_heap-Leaves host_fd crof cs h1 (lost1 ++ rest) w
          (Perm.trans l1 (Perm.trans (Perm.append_left lost1 l) moved)) in
      (
        h2,
        lost2 ++ lost1,
        rw e1 e2,
        rw (append_assoc lost2 lost1 rest) l2,
        length-append lost2 lost1 ∙ omega arith,
      )

  -- What open gives to the calls: no open file and two blocks left behind, or one with its block.
  opened-Leaves :
      {Queue : Type 0} (has_memory : Bool) (crdev : Option (CryptoDevice Queue)) (host_fd : ℤ)
      (cs : List Call) (syscall_type fd : Option ℕ) (h : Heap) (rest : List ℕ)
      → Within k.limit cs
      → Taken al k h (fd ∷ syscall_type ∷ []) rest 2
      → Leaves al k
          (open_device_heap al has_memory crdev syscall_type fd h >>= λ r.
            left_open al host_fd cs r.0 r.1)
          (device_leak has_memory crdev (ioctl_leaks host_fd cs))
          rest
  unfolding open_device_heap open_found_heap
  opened-Leaves has_memory none host_fd cs syscall_type fd h rest w (l, count) =
      (h, blocks (fd ∷ syscall_type ∷ []), refl, l, count)
  opened-Leaves false (some crdev) host_fd cs syscall_type fd h rest w (l, count) =
      (h, blocks (fd ∷ syscall_type ∷ []), refl, l, count)
  opened-Leaves true (some crdev) host_fd cs syscall_type fd h rest w (l, count) =
      let crof = kmalloc open_file_size h in
      let (h1, e1, l1) =
        free_at al k (crof.0 ∷ fd ∷ []) [] syscall_type crof.1 rest
          (fixed al k room open_file_size h _ rest (omega arith) l) in
      let (h2, e2, l2) = free_at al k (crof.0 ∷ []) [] fd h1 rest l1 in
      let (h3, lost, e3, l3, n3) = calls_heap-Leaves host_fd crof.0 cs h2 rest w l2 in
      (h3, lost, rw (e1, e2) e3, l3, n3)

  -- While memory lasts, with room for the largest structure and for the lengths that the calls ask
  -- for: a file is opened, any number of ioctl calls are made on it, and it is closed. No block is
  -- freed that is not live, and what stays live beyond what was is one block for every ioctl that
  -- returns the host's value, and for every one that returns -EFAULT all it has allocated: eight
  -- blocks, one for a key that is not empty, and two if its data is not empty. If open fails, two
  -- blocks stay.
  pub file_heap-Leaves :
      {Queue : Type 0} (seekable : ℤ) (has_memory : Bool) (crdev : Option (CryptoDevice Queue))
      (host_fd : ℤ) (cs : List Call) (h : Heap)
      → Within k.limit cs
      → Leaves al k
          (file_heap al seekable has_memory crdev host_fd cs h)
          (file_leak seekable has_memory crdev host_fd cs)
          (live h)
  unfolding file_heap open_heap
  file_heap-Leaves seekable has_memory crdev host_fd cs h w =
      let syscall_type = kmalloc int_size h in
      let fd = kmalloc int_size syscall_type.1 in
      let (l, count) =
        more al k int_size syscall_type.1 (syscall_type.0 ∷ []) (live h) (omega arith)
          (more al k int_size h [] (live h) (omega arith) (none_taken al k h)) in
      elim (Bool-cases (is_neg seekable)) [
        | inl e ↦ rw e (fd.1, blocks (fd.0 ∷ syscall_type.0 ∷ []), refl, l, count)
        | inr e ↦ rw e (
            opened-Leaves has_memory crdev host_fd cs syscall_type.0 fd.0 fd.1 (live h) w
              (l, count))
      ]

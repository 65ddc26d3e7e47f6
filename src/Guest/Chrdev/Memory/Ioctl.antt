-- ===== src/Guest/Chrdev/Memory/Ioctl.antt =====
-- ioctl: every kfree is of a live block or of none, and what stays live at its end.
use mathlib.Core.List.{Perm, perm_middle}
use mathlib.Core.List.Perm
use cryptodev_chat.Common.{
  ℕ, zero, suc, ◌+◌, ◌≤◌, ◌<◌, ◌≡◌, ◌∙◌, refl, sym, ap, subst, List, [], ◌∷◌, ◌++◌, append_assoc,
  Option, none, some, ℤ, Bool, true, false, length, arith,
}
use cryptodev_chat.Run.{Run, ok}
use cryptodev_chat.Guest.Chrdev.{Request, request_sgs}
use cryptodev_chat.Guest.Chrdev.Memory.{
  Allocator, Allocates, Buffers, Call, copied_out, ioctl_alloc, ioctl_free, ioctl_end, ioctl_heap,
  crypt_op_size, int_size, iv_size, session_op_size,
}

-- The number of blocks that an allocation of this size gives.
abbrev pub one : ℕ → ℕ
one zero = 0
one (suc n) = 1

-- The blocks that an ioctl leaves behind.
abbrev pub end_leak : ℕ → ℕ → Option Request → Bool → ℕ
end_leak keylen len none copied = 8 + one keylen + one len + one len
end_leak keylen len (some request) false = 8 + one keylen + one len + one len
end_leak keylen len (some request) true = 1

abbrev pub ioctl_leak : ℤ → Call → ℕ
ioctl_leak host_fd c =
    end_leak c.keylen c.len (request_sgs host_fd c.cmd c.arg) (copied_out c.cmd c.arg)

-- The blocks at these addresses.
unfoldable pub blocks : List (Option ℕ) → List ℕ
blocks [] = []
blocks (none ∷ ps) = blocks ps
blocks (some p ∷ ps) = p ∷ blocks ps

blocks-append : (ps qs : List (Option ℕ)) → blocks (ps ++ qs) ≡ blocks ps ++ blocks qs
unfolding blocks
blocks-append [] qs = refl
blocks-append (none ∷ ps) qs = blocks-append ps qs
blocks-append (some p ∷ ps) qs = ap (λ l. p ∷ l) (blocks-append ps qs)

module _ (al : Allocator) (k : Allocates al) where
  open al use {Heap, kmalloc, kfree}
  open k use {live}

  -- `m` has ended with `n` blocks more than `rest`.
  abbrev pub Leaves : Run Heap → ℕ → List ℕ → Type 0
  Leaves m n rest =
      (h : Heap) × (lost : List ℕ) × (m ≡ ok h) × Perm (live h) (lost ++ rest) × (length lost ≡ n)

  -- Beside `rest`, what is live is the `n` blocks at `ps`.
  abbrev pub Taken : Heap → List (Option ℕ) → List ℕ → ℕ → Type 0
  Taken h ps rest n = Perm (live h) (blocks ps ++ rest) × (length (blocks ps) ≡ n)

  pub free_at :
      (ps qs : List (Option ℕ)) (p : Option ℕ) (h : Heap) (rest : List ℕ)
      → Perm (live h) (blocks (ps ++ p ∷ qs) ++ rest)
      → (h' : Heap) × (kfree p h ≡ ok h') × Perm (live h') (blocks (ps ++ qs) ++ rest)
  unfolding blocks
  free_at ps qs none h rest l =
      let same : blocks (ps ++ none ∷ qs) ≡ blocks (ps ++ qs) =
        blocks-append ps (none ∷ qs) ∙ sym (blocks-append ps qs) in
      (h, k.frees_none h, subst (λ b. Perm (live h) (b ++ rest)) same l)
  free_at ps qs (some p) h rest l =
      let split : blocks (ps ++ some p ∷ qs) ++ rest ≡ blocks ps ++ (p ∷ (blocks qs ++ rest)) =
        ap (λ b. b ++ rest) (blocks-append ps (some p ∷ qs))
        ∙ append_assoc (blocks ps) (p ∷ blocks qs) rest in
      let others : blocks ps ++ (blocks qs ++ rest) ≡ blocks (ps ++ qs) ++ rest =
        sym (append_assoc (blocks ps) (blocks qs) rest)
        ∙ ap (λ b. b ++ rest) (sym (blocks-append ps qs)) in
      k.frees p h (blocks (ps ++ qs) ++ rest) (
        subst (λ b. Perm (live h) (p ∷ b)) others
          (Perm.trans (subst (Perm (live h)) split l)
            (perm_middle (blocks ps) (blocks qs ++ rest))))

  pub more :
      (n : ℕ) (h : Heap) (ps : List (Option ℕ)) (rest : List ℕ) {m : ℕ}
      → n ≤ k.limit
      → Taken h ps rest m
      → Taken (kmalloc n h).1 ((kmalloc n h).0 ∷ ps) rest (one n + m)
  unfolding blocks
  more zero h ps rest {m} le (l, count) =
      let (e, same) = k.gives_none h in
      subst (λ p. Taken (kmalloc 0 h).1 (p ∷ ps) rest (one 0 + m)) (sym e)
        (Perm.trans same l, omega (arith, count))
  more (suc n) h ps rest {m} le (l, count) =
      let (p, e, given) = k.gives (suc n) h (omega arith) le in
      subst (λ p. Taken (kmalloc (suc n) h).1 (p ∷ ps) rest (1 + m)) (sym e)
        (Perm.trans given (Perm.cons p l), omega (arith, count))

  pub none_taken : (h : Heap) → Taken h [] (live h) 0
  unfolding blocks
  none_taken h = (Perm.rfl, refl)

  abbrev all_of : Buffers → List (Option ℕ)
  all_of b =
      b.dst ∷ b.iv ∷ b.src ∷ b.crypt_op ∷ b.ses_id ∷ b.session_key ∷ b.session_op
      ∷ b.host_return_val ∷ b.ioctl_cmd ∷ b.host_fd ∷ b.syscall_type ∷ []

  module _ (room : crypt_op_size ≤ k.limit) where
    head_taken :
        (h : Heap) (n : ℕ) → 0 < n → n ≤ k.limit → length (blocks ((kmalloc n h).0 ∷ [])) ≡ 1
    head_taken h zero low le = absurd (omega arith)
    head_taken h (suc n) low le = (more (suc n) h [] (live h) le (none_taken h)).1

    -- What ioctl has after its allocations: all that it has asked for, and the block of the return value.
    ioctl_alloc-Taken :
        (keylen len : ℕ) (h : Heap)
        → keylen ≤ k.limit
        → len ≤ k.limit
        → Taken
            (ioctl_alloc al keylen len h).1
            (all_of (ioctl_alloc al keylen len h).0)
            (live h)
            (8 + one keylen + one len + one len)
          × (length (blocks ((ioctl_alloc al keylen len h).0.host_return_val ∷ [])) ≡ 1)
    unfolding ioctl_alloc
    ioctl_alloc-Taken keylen len h key_fits fits =
        let t1 = more int_size _ _ _ (omega arith) (none_taken h) in
        let t2 = more int_size _ _ _ (omega arith) t1 in
        let t3 = more int_size _ _ _ (omega arith) t2 in
        let t4 = more int_size _ _ _ (omega arith) t3 in
        let t5 = more session_op_size _ _ _ (omega arith) t4 in
        let t6 = more keylen _ _ _ key_fits t5 in
        let t7 = more int_size _ _ _ (omega arith) t6 in
        let t8 = more crypt_op_size _ _ _ (omega arith) t7 in
        let t9 = more len _ _ _ fits t8 in
        let t10 = more iv_size _ _ _ (omega arith) t9 in
        let t11 = more len _ _ _ fits t10 in
        ((t11.0, t11.1 ∙ omega arith), head_taken _ int_size (omega arith) (omega arith))

  ioctl_free-Leaves :
      (b : Buffers) (h : Heap) (rest : List ℕ)
      → length (blocks (b.host_return_val ∷ [])) ≡ 1
      → Perm (live h) (blocks (all_of b) ++ rest)
      → Leaves (ioctl_free al b h) 1 rest
  unfolding ioctl_free
  ioctl_free-Leaves b h rest one_block l =
      let (h1, e1, l1) =
        free_at
          (b.dst ∷ b.iv ∷ b.src ∷ b.crypt_op ∷ b.ses_id ∷ b.session_key ∷ b.session_op
            ∷ b.host_return_val ∷ b.ioctl_cmd ∷ b.host_fd ∷ [])
          [] b.syscall_type h rest l in
      let (h2, e2, l2) =
        free_at
          (b.dst ∷ b.iv ∷ b.src ∷ b.crypt_op ∷ b.ses_id ∷ b.session_key ∷ b.session_op
            ∷ b.host_return_val ∷ b.ioctl_cmd ∷ [])
          [] b.host_fd h1 rest l1 in
      let (h3, e3, l3) =
        free_at
          (b.dst ∷ b.iv ∷ b.src ∷ b.crypt_op ∷ b.ses_id ∷ b.session_key ∷ b.session_op
            ∷ b.host_return_val ∷ [])
          [] b.ioctl_cmd h2 rest l2 in
      let (h4, e4, l4) =
        free_at (b.dst ∷ b.iv ∷ b.src ∷ b.crypt_op ∷ b.ses_id ∷ [])
          (b.session_op ∷ b.host_return_val ∷ []) b.session_key h3 rest l3 in
      let (h5, e5, l5) =
        free_at (b.dst ∷ b.iv ∷ b.src ∷ b.crypt_op ∷ b.ses_id ∷ []) (b.host_return_val ∷ [])
          b.session_op h4 rest l4 in
      let (h6, e6, l6) =
        free_at (b.dst ∷ b.iv ∷ b.src ∷ b.crypt_op ∷ []) (b.host_return_val ∷ []) b.ses_id h5 rest
          l5 in
      let (h7, e7, l7) =
        free_at (b.dst ∷ b.iv ∷ b.src ∷ []) (b.host_return_val ∷ []) b.crypt_op h6 rest l6 in
      let (h8, e8, l8) = free_at (b.dst ∷ b.iv ∷ []) (b.host_return_val ∷ []) b.src h7 rest l7 in
      let (h9, e9, l9) = free_at (b.dst ∷ []) (b.host_return_val ∷ []) b.iv h8 rest l8 in
      let (h10, e10, l10) = free_at [] (b.host_return_val ∷ []) b.dst h9 rest l9 in
      (
        h10,
        blocks (b.host_return_val ∷ []),
        rw (e1, e2, e3, e4, e5, e6, e7, e8, e9) e10,
        l10,
        one_block,
      )

  ioctl_end-Leaves :
      (keylen len : ℕ) (request : Option Request) (copied : Bool) (b : Buffers) (h : Heap)
      (rest : List ℕ)
      → length (blocks (b.host_return_val ∷ [])) ≡ 1
      → Taken h (all_of b) rest (8 + one keylen + one len + one len)
      → Leaves (ioctl_end al request copied b h) (end_leak keylen len request copied) rest
  unfolding ioctl_end
  ioctl_end-Leaves keylen len none copied b h rest one_block (l, count) =
      (h, blocks (all_of b), refl, l, count)
  ioctl_end-Leaves keylen len (some request) false b h rest one_block (l, count) =
      (h, blocks (all_of b), refl, l, count)
  ioctl_end-Leaves keylen len (some request) true b h rest one_block (l, count) =
      ioctl_free-Leaves b h rest one_block l

  module _ (room : crypt_op_size ≤ k.limit) where
    pub ioctl_heap-Leaves :
        (host_fd : ℤ) (c : Call) (h : Heap)
        → c.keylen ≤ k.limit
        → c.len ≤ k.limit
        → Leaves (ioctl_heap al host_fd c h) (ioctl_leak host_fd c) (live h)
    unfolding ioctl_heap
    ioctl_heap-Leaves host_fd c h key_fits fits =
        let (taken, one_block) = ioctl_alloc-Taken room c.keylen c.len h key_fits fits in
        ioctl_end-Leaves c.keylen c.len (request_sgs host_fd c.cmd c.arg) (copied_out c.cmd c.arg)
          (ioctl_alloc al c.keylen c.len h).0 (ioctl_alloc al c.keylen c.len h).1 (live h) one_block
          taken

    -- One more block for a fixed size.
    pub fixed :
        (n : ℕ) (h : Heap) (ps : List (Option ℕ)) (rest : List ℕ)
        → n ≤ crypt_op_size
        → Perm (live h) (blocks ps ++ rest)
        → Perm (live (kmalloc n h).1) (blocks ((kmalloc n h).0 ∷ ps) ++ rest)
    fixed n h ps rest le l = (more n h ps rest (omega arith) (l, refl)).0

-- ===== src/Chat/Server/Locks/Progress.antt =====
-- No deadlock: a thread holds one lock at most, and what it does while it holds it needs no other.
use cryptodev_chat.Common.{
  ℕ, ◌≤◌, ◌≡◌, ◌≢◌, ◌⊎◌, inl, inr, refl, sym, subst, List, [], ◌∷◌, length, true, arith, Bool-cases,
  ltb, ◌==◌, some,
}
use cryptodev_chat.Chat.Server.Locks.{
  Job, Pc, reading, printing, looping, writing, Shared, Move, print, printed, skip, wait, write,
  post, finish, System, Reach,
}
use cryptodev_chat.Chat.Server.Locks.Invariant.{target, Local, Inv}
use cryptodev_chat.Chat.Server.Locks.Whole.{start, start-Inv, Reach-Inv, local, target-writing}

abbrev pub CanMove : ℕ → Shared → Pc → Type 0
CanMove i s p = (s' : Shared) × (p' : Pc) × Move i s p s' p'

-- In the critical section there is a byte to write, or the lock can be given back.
writing-CanMove :
    (i c n : ℕ) (job : Job) (s : Shared) → n ≤ length (job.block c) → CanMove i s (writing job c n)
writing-CanMove i c n job s h = elim (Bool-cases (ltb n (length (job.block c)))) [
  | inl more ↦ (_, _, write 1 (omega arith) (ground arith))
  | inr done ↦ (_, _, post (ground arith))
]

printing-CanMove :
    (i : ℕ) (job : Job) (rest : List ℕ) (s : Shared) → CanMove i s (printing job rest)
printing-CanMove i job [] s = (_, _, printed refl)
printing-CanMove i job (x ∷ rest) s = (_, _, print 1 (omega arith) (omega arith))

-- Thread `i` is before a sem_wait that does not pass, for recipient `c`.
abbrev pub IsBlocked : Shared → Pc → ℕ → Type 0
IsBlocked s (looping job client) c = (client ≡ c) × (s.locks c ≡ true)
IsBlocked s reading c = ⊥
IsBlocked s (printing job rest) c = ⊥
IsBlocked s (writing job client n) c = ⊥

module _ {z : System} (inv : Inv z.shared z.pc) (i : ℕ) where
  -- A thread can move, or waits for a lock whose holder, which is past this lock's sem_wait, can.
  abbrev pub Progress : Pc → Type 0
  Progress p =
      CanMove i z.shared p
      ⊎ ((c j : ℕ) × IsBlocked z.shared p c
          × (target (z.pc j) ≡ some c)
          × CanMove j z.shared (z.pc j))

  looping-Progress : (job : Job) (client : ℕ) → Progress (looping job client)
  looping-Progress job client = elim (Bool-cases (ltb client z.shared.no_client)) [
    | inl lt ↦ elim (Bool-cases (client == i)) [
      | inl own ↦ inl (_, _, skip (ground arith) (ground arith))
      | inr other ↦ elim (Bool-cases (z.shared.locks client)) [
        | inl held ↦
            let (j, there) = inv.owner client held in
            let (job', n, e) = target-writing (z.pc j) client there in
            let (low, in_block, locked, sent, served) = local inv j e in
            inr (
              client,
              j,
              (refl, held),
              there,
              subst (CanMove j z.shared) (sym e)
                  (writing-CanMove j client n job' z.shared in_block),
            )
        | inr is_free ↦ inl (_, _, wait (ground arith) (ground arith) is_free)
      ]
    ]
    | inr ge ↦ inl (_, _, finish (ground arith))
  ]

  progress_lem : (p : Pc) → Local z.shared i p → p ≢ reading → Progress p
  progress_lem reading h ne = absurd (ne refl)
  progress_lem (printing job rest) h ne = inl (printing-CanMove i job rest z.shared)
  progress_lem (looping job client) h ne = looping-Progress job client
  progress_lem (writing job client n) (low, in_block, locked, sent, served) ne =
      inl (writing-CanMove i client n job z.shared in_block)

-- Whatever the threads have done, a thread that is in the middle of forward can make a step, or it
-- waits for the lock of a recipient, and a thread that is in the critical section of this very
-- recipient can make one.
pub Reach-progress :
    {z : System} (r : Reach start z) (i : ℕ)
    → z.pc i ≢ reading
    → CanMove i z.shared (z.pc i)
      ⊎ ((c j : ℕ) × IsBlocked z.shared (z.pc i) c
          × (target (z.pc j) ≡ some c)
          × CanMove j z.shared (z.pc j))
Reach-progress {z} r i ne =
    let inv = Reach-Inv start-Inv r in progress_lem inv i (z.pc i) (inv.at_pc i) ne

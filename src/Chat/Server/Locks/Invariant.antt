-- ===== src/Chat/Server/Locks/Invariant.antt =====
-- What holds between two steps of the threads of forward.
use mathlib.Core.List.{Mem}
use cryptodev_chat.Common.{
  ℕ, ◌≤◌, ◌<◌, ◌≡◌, ◌≢◌, List, [], ◌∷◌, ◌++◌, true, false, take, length, Option, none, some,
  append_assoc, append-nil, refl, ap, sym, ◌∙◌, arith,
}
use cryptodev_chat.Chat.Server.Locks.{Job, Pc, reading, printing, looping, writing, Shared}

-- The blocks of these jobs for recipient `c`, one after the other.
unfoldable pub blocks : ℕ → List Job → List ℕ
blocks c [] = []
blocks c (job ∷ jobs) = job.block c ++ blocks c jobs

pub blocks-append :
    (c : ℕ) (jobs : List Job) (job : Job)
    → blocks c (jobs ++ job ∷ []) ≡ blocks c jobs ++ job.block c
unfolding blocks
blocks-append c [] job = append-nil (job.block c)
blocks-append c (j ∷ jobs) job = rw (blocks-append c jobs job, append_assoc) refl

-- The recipient in whose critical section a thread is.
abbrev pub target : Pc → Option ℕ
target reading = none
target (printing job rest) = none
target (looping job client) = none
target (writing job client n) = some client

-- The job has been written whole to every recipient before `client` but the thread's own client.
abbrev pub Served : Shared → ℕ → Job → ℕ → Type 0
Served s i job client = (c : ℕ) → c < client → c ≢ i → Mem job (s.log c)

-- What holds for thread `i` where it stands.
abbrev pub Local : Shared → ℕ → Pc → Type 0
Local s i reading = Unit {0}
Local s i (printing job rest) = Unit {0}
Local s i (looping job client) = (client ≤ s.no_client) × Served s i job client
Local s i (writing job client n) =
    (client < s.no_client)
    × (n ≤ length (job.block client))
    × (s.locks client ≡ true)
    × (s.streams client ≡ blocks client (s.log client) ++ take n (job.block client))
    × Served s i job client

-- A lock that is held is held by exactly one thread; the connection of a recipient whose lock is free
-- carries whole blocks only, and while a thread writes there, its first n bytes behind whole blocks.
pub record Inv (s : Shared) (pc : ℕ → Pc) : Type 0 where
  pub free : (c : ℕ) → s.locks c ≡ false → s.streams c ≡ blocks c (s.log c)
  pub at_pc : (i : ℕ) → Local s i (pc i)
  pub owner : (c : ℕ) → s.locks c ≡ true → (i : ℕ) × (target (pc i) ≡ some c)
  pub exclusive : (i j c : ℕ) → target (pc i) ≡ some c → target (pc j) ≡ some c → i ≡ j

-- `s'` differs from `s` at recipient `c` at most.
pub record Agrees (s s' : Shared) (c : ℕ) : Type 0 where
  pub grows : s.no_client ≤ s'.no_client
  pub streams : (x : ℕ) → c ≢ x → s'.streams x ≡ s.streams x
  pub locks : (x : ℕ) → c ≢ x → s'.locks x ≡ s.locks x
  pub log : (x : ℕ) → c ≢ x → s'.log x ≡ s.log x
  pub keeps : (x : ℕ) (job : Job) → x < s.no_client → Mem job (s.log x) → Mem job (s'.log x)

-- The target of a thread that is in no critical section, or in that of another recipient.
pub Local-keep :
    (s s' : Shared) (c j : ℕ) (p : Pc)
    → Agrees s s' c
    → target p ≢ some c
    → Local s j p
    → Local s' j p
Local-keep s s' c j reading a ne h = tt
Local-keep s s' c j (printing job rest) a ne h = tt
Local-keep s s' c j (looping job client) a ne (le, served) =
    (omega (arith, a.grows), λ x low apart. a.keeps x job (omega arith) (served x low apart))
Local-keep s s' c j (writing job client n) a ne (lt, in_block, held, sent, served) =
    let apart : c ≢ client = λ e. ne (ap some (sym e)) in
    (
      omega (arith, a.grows),
      in_block,
      a.locks client apart ∙ held,
      a.streams client apart ∙ sent ∙ rw (a.log client apart) refl,
      λ x low other. a.keeps x job (omega arith) (served x low other),
    )

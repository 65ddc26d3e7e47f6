-- ===== src/Chat/Server/Locks/Served.antt =====
-- What a thread has written when it comes to the end of the loop of forward.
use cryptodev_chat.Common.{ℕ, ◌≡◌, List, ◌++◌}
use cryptodev_chat.Chat.Server.Locks.{Job, System}
use cryptodev_chat.Chat.Server.Locks.Invariant.{blocks}

-- The connection of recipient `c` carries whole blocks, then the one of `job`, then more.
abbrev pub Carries : System → ℕ → Job → Type 0
Carries z c job = ∥ (
    (earlier : List Job) × (later : List ℕ) × (z.shared.streams c
      ≡ blocks c earlier ++ (job.block c ++ later))) ∥₁

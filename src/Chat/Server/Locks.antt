-- ===== src/Chat/Server/Locks.antt =====
-- socket-server-irc.c, forward by several threads at once, with the semaphores `locks`: thread `i`
-- forwards what client `i` has said, which it does where each thread has read its argument before the
-- next accept; Chat/Server/Threads has what happens otherwise. What a thread has read is its own (a
-- `Job`); what it shares with the other threads is stdout, the connections of the clients, the locks
-- and no_client, which main counts up meanwhile.
--
-- A step is one loop test, one sem_wait that passes, one sem_post, or one write(2) of some bytes. The
-- buffer is the thread's own, so `block c`, what recipient `c` is to be sent, is settled when the
-- message has been read, encryption in place included. No client goes away, no write fails, and main
-- accepts ten clients at most: what happens otherwise is the matter of Chat/Server/Threads.
pub mod Invariant
pub mod Moves
pub mod Whole
pub mod Served
pub mod Progress
pub mod Torn
pub mod Alone
pub mod Single
use cryptodev_chat.Common.{
  ℕ, suc, ◌+◌, ◌≤◌, ◌<◌, ◌≡◌, ◌≢◌, List, [], ◌∷◌, ◌++◌, Bool, true, false, length, take, drop,
  update,
}
use cryptodev_chat.Chat.Server.Threads.{max_clients}

pub record Job : Type 0 where
  pub text : List ℕ
  pub block : ℕ → List ℕ

-- Where a thread stands in forward: waiting for its client; in the write to stdout, with the bytes that
-- are left; at the test of the loop with `client`; in the critical section for `client`, with this
-- many bytes written.
pub data Pc : Type 0 where
  reading : Pc
  printing : Job → List ℕ → Pc
  looping : Job → ℕ → Pc
  writing : Job → ℕ → ℕ → Pc

-- A lock is true while it is held. `log c` is not in the program: the jobs whose block for `c` has
-- been written to its end, in order.
pub record Shared : Type 0 where
  pub no_client : ℕ
  pub stdout : List ℕ
  pub streams : ℕ → List ℕ
  pub locks : ℕ → Bool
  pub log : ℕ → List Job

pub data Move (me : ℕ) (s : Shared) : Pc → Shared → Pc → Type 0 where
  receive : (job : Job) → Move me s reading s (printing job job.text)
  print :
      {job : Job} {rest : List ℕ} (k : ℕ)
      → 0 < k
      → k ≤ length rest
      → Move me s
          (printing job rest)
          (record s { stdout = s.stdout ++ take k rest })
          (printing job (drop k rest))
  printed :
      {job : Job} {rest : List ℕ} → rest ≡ [] → Move me s (printing job rest) s (looping job 0)
  skip :
      {job : Job} {client : ℕ}
      → client < s.no_client
      → client ≡ me
      → Move me s (looping job client) s (looping job (suc client))
  -- sem_wait(&locks[client])
  wait :
      {job : Job} {client : ℕ}
      → client < s.no_client
      → client ≢ me
      → s.locks client ≡ false
      → Move me s
          (looping job client)
          (record s { locks = update s.locks client true })
          (writing job client 0)
  write :
      {job : Job} {client n : ℕ} (k : ℕ)
      → 0 < k
      → n + k ≤ length (job.block client)
      → Move me s
          (writing job client n)
          (record s {
            streams =
                update s.streams client (s.streams client ++ take k (drop n (job.block client)));
          })
          (writing job client (n + k))
  -- sem_post(&locks[client]), and client++
  post :
      {job : Job} {client n : ℕ}
      → n ≡ length (job.block client)
      → Move me s
          (writing job client n)
          (record s {
            locks = update s.locks client false;
            log = update s.log client (s.log client ++ job ∷ []);
          })
          (looping job (suc client))
  finish :
      {job : Job} {client : ℕ} → s.no_client ≤ client → Move me s (looping job client) s reading

pub record System : Type 0 where
  pub shared : Shared
  pub pc : ℕ → Pc

-- main has accepted one more client: its connection is new and sem_init sets its lock.
abbrev pub joined : Shared → Shared
joined s = record s {
  no_client = suc s.no_client;
  streams = update s.streams s.no_client [];
  locks = update s.locks s.no_client false;
  log = update s.log s.no_client [];
}

pub data Step (y : System) : System → Type 0 where
  move :
      (i : ℕ) {s' : Shared} {p' : Pc}
      → Move i y.shared (y.pc i) s' p'
      → Step y (record { shared = s'; pc = update y.pc i p' })
  accept : y.shared.no_client < max_clients → Step y (record y { shared = joined y.shared })

pub data Reach (y : System) : System → Type 0 where
  here : Reach y y
  next : {z u : System} → Reach y z → Step z u → Reach y u

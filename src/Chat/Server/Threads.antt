-- ===== src/Chat/Server/Threads.antt =====
-- socket-server-irc.c, main and client_service: the accept loop and one thread for each client, as
-- events that happen one after the other. An accept with all that main does up to the next one is one
-- event, and so is one call of forward by a thread.
--
-- A thread is handed the address of main's `client_id`, and reads it when it starts.
pub mod Slots
pub mod Leaving
use cryptodev_chat.Common.{
  update, ℕ, zero, suc, ◌+◌, List, [], ◌∷◌, ◌++◌, Option, none, some, Bool, true, false, get_elem?,
  set, replicate, length, ltb, ◌==◌, if◌then◌else◌,
}
use cryptodev_chat.Io.{Port}
use cryptodev_chat.Run.{Run, ok, exits, faults, ◌>>=◌}
use cryptodev_chat.Cryptodev.{Cryptodev}
use cryptodev_chat.Chat.Cipher.{Frame}
use cryptodev_chat.Chat.Server.{Server, slot_of, forward}

abbrev pub max_clients : ℕ
max_clients = 10

-- A running client_service: its `id` and its `client_sd`.
pub record Thread : Type 0 where
  pub id : ℕ
  pub client_sd : ℕ

-- `waiting` counts the threads that are created and have not read their argument; a thread that has
-- ended leaves `none` in `threads`.
pub record System (S : Type 0) : Type 0 where
  pub server : Server S
  pub client_id : ℕ
  pub waiting : ℕ
  pub threads : List (Option Thread)

pub data Event : Type 0 where
  -- accept gives this descriptor and connection; is the address printed, is the thread created?
  accepted : ℕ → Port → Bool → Bool → Event
  accept_failed : Event
  started : Event
  -- one call of forward by the thread at this place
  served : ℕ → Event

-- newsd_serve[no_client] = fd
abbrev pub store : List ℕ → ℕ → ℕ → Run (List ℕ)
store newsd_serve i fd = if ltb i (length newsd_serve) then ok (set newsd_serve i fd) else faults

-- close(newsd_serve[no_client]), at the end of client_service
abbrev pub end_service : {S : Type 0} → Server S → Run (Server S)
end_service s = do
  fd ← slot_of (get_elem? s.newsd_serve s.no_client)
  ok (record s { ports = update s.ports fd none })

-- The rest of main's round: the thread is created, and no_client++.
abbrev pub joined : {S : Type 0} → ℕ → Port → Bool → List ℕ → System S → System S
joined fd p created newsd_serve y = record y {
  server = record y.server {
    ports = update y.server.ports fd (some p);
    newsd_serve = newsd_serve;
    no_client = y.server.no_client + 1;
  };
  client_id = y.server.no_client;
  waiting = if created then suc y.waiting else y.waiting;
}

abbrev pub accept_client : {S : Type 0} → ℕ → Port → Bool → Bool → System S → Run (System S)
accept_client fd p printed created y = do
  newsd_serve ← store y.server.newsd_serve y.server.no_client fd
  if printed then ok (joined fd p created newsd_serve y) else exits 1

abbrev pub start_thread : {S : Type 0} → ℕ → System S → Run (System S)
start_thread zero y = ok y
start_thread (suc n) y = do
  client_sd ← slot_of (get_elem? y.server.newsd_serve y.client_id)
  ok (record y {
    waiting = n;
    threads = y.threads ++ some (record { id = y.client_id; client_sd = client_sd }) ∷ [];
  })

module _ (d : Cryptodev) (frame : Frame) (encrypted : Bool) (malloc : ℕ → Option (List ℕ)) where
  open d use {State}

  -- What the loop of client_service does with the result of forward.
  abbrev after_forward : ℕ → System State → ℕ × Server State → Run (System State)
  after_forward i y (result, s) =
      if result == 1
      then (do s' ← end_service s; ok (record y { server = s'; threads = set y.threads i none }))
      else ok (record y { server = s })

  abbrev serve_thread : ℕ → Option (Option Thread) → System State → Run (System State)
  serve_thread i none y = ok y
  serve_thread i (some none) y = ok y
  serve_thread i (some (some t)) y =
      forward d frame encrypted malloc t.client_sd t.id y.server >>= after_forward i y

  unfoldable pub step : Event → System State → Run (System State)
  step (accepted fd p printed created) y = accept_client fd p printed created y
  step accept_failed y = store y.server.newsd_serve y.server.no_client 0 >>= λ _. exits 1
  step started y = start_thread y.waiting y
  step (served i) y = serve_thread i (get_elem? y.threads i) y

  unfoldable pub run : List Event → System State → Run (System State)
  run [] y = ok y
  run (e ∷ es) y = step e y >>= run es

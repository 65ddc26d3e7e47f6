-- ===== src/Tests/Threads.antt =====
-- The server with two clients, on descriptors 4 and 5: the first has gone away, the second says "hi".
use cryptodev_chat.Common.{
  update, ℕ, zero, suc, ◌≤◌, ◌<◌, ◌≡◌, refl, List, [], ◌∷◌, ◌++◌, none, some, true, false, length,
  replicate, get_elem?, arith, length-replicate, Option,
}
use cryptodev_chat.Run.{ok, exits, faults}
use cryptodev_chat.Io.{Port, upto, insist_read}
use cryptodev_chat.Cryptodev.Toy.{toy}
use cryptodev_chat.Chat.Cipher.{Frame}
use cryptodev_chat.Chat.Client.Frames.{message}
use cryptodev_chat.Chat.Server.Threads.{
  max_clients, System, Thread, accepted, started, served, step, run,
}
use cryptodev_chat.Chat.Server.Threads.Slots.{Vacant, Joined, accepted-Vacant, started-started}
use cryptodev_chat.Chat.Server.Threads.Leaving.{Parting, served-exits}

abbrev frame : Frame
frame = record { input = 0x1000; output = 0x1100; iv = 0x1200; key = 0x1210 }

abbrev malloc : ℕ → Option (List ℕ)
malloc n = some (replicate n 7)

malloc_size : (n : ℕ) → (bs : List ℕ) × (malloc n ≡ some bs) × (length bs ≡ n)
malloc_size n = (replicate n 7, refl, length-replicate {A = ℕ} n 7)

abbrev port : List ℕ → Port
port incoming = record { incoming = incoming; outgoing = []; turns = upto 2 ∷ [] }

abbrev hello : List ℕ
hello = b'h' ∷ b'i' ∷ b'\n' ∷ []

abbrev first : Thread
first = record { id = 0; client_sd = 4 }

abbrev second : Thread
second = record { id = 1; client_sd = 5 }

abbrev system : System (List (List ℕ))
system = record {
  server = record {
    dev = [];
    ports = update (λ _. some (port (message hello ++ []))) 4 (some (port []));
    newsd_serve = 4 ∷ 5 ∷ 0 ∷ 0 ∷ 0 ∷ 0 ∷ 0 ∷ 0 ∷ 0 ∷ 0 ∷ [];
    no_client = 2;
  };
  client_id = 1;
  waiting = 2;
  threads = some first ∷ some second ∷ [];
}

-- Both threads have started.
abbrev calm : System (List (List ℕ))
calm = record system { waiting = 0 }

system_Vacant : Vacant system.server
system_Vacant = record { size = refl; vacant = slots }
  where
    slots :
        (j : ℕ)
        → 2 ≤ j
        → j < max_clients
        → get_elem? {A = ℕ} (4 ∷ 5 ∷ 0 ∷ 0 ∷ 0 ∷ 0 ∷ 0 ∷ 0 ∷ 0 ∷ 0 ∷ []) j ≡ some 0
    slots zero low high = absurd (omega arith)
    slots (suc zero) low high = absurd (omega arith)
    slots (suc (suc j)) low high = zeros 8 j (omega arith)
      where
        zeros : (n j : ℕ) → j < n → get_elem? {A = ℕ} (replicate n 0) j ≡ some 0
        zeros zero j h = absurd (omega arith)
        zeros (suc n) zero h = refl
        zeros (suc n) (suc j) h = zeros n j (omega arith)

parting : Parting system 0 1 first second (port []) (port (message hello ++ [])) hello []
unfolding update
parting = record {
  leaving = refl;
  speaking = refl;
  two_threads = λ e. omega arith;
  two_clients = λ e. omega arith;
  leaving_not_0 = λ e. omega arith;
  speaking_not_0 = λ e. omega arith;
  leaving_open = refl;
  ended = refl;
  leaving_steady = tt;
  speaking_open = refl;
  arrives = refl;
  speaking_steady = tt;
  has_text = omega arith;
  short = omega arith;
}

served-exits_example :
    (y' : System (List (List ℕ))) × (step toy frame false malloc (served 0) system ≡ ok y')
    × (y'.server.ports 4 ≡ some (insist_read 4 (port [])).2)
    × (y'.server.ports 0 ≡ none)
    × (run toy frame false malloc (served 0 ∷ served 1 ∷ []) system ≡ exits 1)
served-exits_example =
    served-exits toy frame malloc malloc_size system system_Vacant (omega arith) parting

accepted-Vacant_example :
    (system.server.no_client < max_clients
      → (y' : System (List (List ℕ))) × (step toy frame false malloc
            (accepted 6 (port []) true true)
            system
          ≡ ok y')
        × Joined 6 (port []) system y')
    × (max_clients ≤ system.server.no_client
        → step toy frame false malloc (accepted 6 (port []) true true) system ≡ faults)
accepted-Vacant_example =
    accepted-Vacant toy frame false malloc system 6 (port []) true system_Vacant

started-started_example :
    (y' : System (List (List ℕ))) × (run toy frame false malloc
        (accepted 6 (port []) true true ∷ accepted 7 (port []) true true ∷ started ∷ started ∷ [])
        calm
      ≡ ok y')
    × (y'.server.no_client ≡ 4)
    × (y'.threads
        ≡ (calm.threads ++ some (record { id = 3; client_sd = 7 }) ∷ [])
          ++ some (record { id = 3; client_sd = 7 }) ∷ [])
started-started_example =
    started-started toy frame false malloc calm 6 7 (port []) (port []) system_Vacant refl
      (omega arith)

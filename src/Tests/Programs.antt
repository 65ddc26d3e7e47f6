-- ===== src/Tests/Programs.antt =====
-- The programs of the chat for one server: bob's client says "hi" and the server's user says "yo".
use cryptodev_chat.Common.{
  ℕ, ◌≡◌, refl, List, [], ◌∷◌, ◌++◌, map, none, some, true, false, pos, negsuc, replicate, arith,
  is_equal,
}
use cryptodev_chat.Io.{Port, upto}
use cryptodev_chat.Chat.Buffer.{poke}
use cryptodev_chat.Run.{ok, exits, faults}
use cryptodev_chat.Cryptodev.Toy.{toy}
use cryptodev_chat.Chat.Cipher.{Frame}
use cryptodev_chat.Chat.Client.{World, buff_size}
use cryptodev_chat.Chat.Client.Session.Ending.{hang_up}
use cryptodev_chat.Chat.Client.Session.Rounds.{Line, typing, arriving, texts, messages, Fits}
use cryptodev_chat.Chat.Start.{
  Sockets, ClientArgs, prompt_size, server_option, scan_prompt, open_server, encrypted_option,
  one_start, client_start,
}
use cryptodev_chat.Chat.Start.Args.{ServerArgs, client_args, absent}
use cryptodev_chat.Chat.Start.Network.{Listens, Connects}
use cryptodev_chat.Chat.Start.Args.{IsClientArgs}
use cryptodev_chat.Chat.Start.Network.{Connects}
use cryptodev_chat.Chat.Start.Outcome.{Outcome, one_start-Outcome, client_start-Outcome}
use cryptodev_chat.Chat.Programs.{client_main}
use cryptodev_chat.Chat.Programs.Laws.{IsString, IsClient, client_main-Ended}
use cryptodev_chat.Chat.Programs.Visits.{Visitor}

abbrev net : Sockets
net = record {
  socket = pos 3;
  bind = λ sa. pos 0;
  listen = λ n. pos 0;
  gethostbyname = λ name. some (127 ∷ 0 ∷ 0 ∷ 1 ∷ []);
  connect = λ sa. pos 0;
  atoi = λ digits. pos 35001;
}

abbrev memory : List ℕ
memory = replicate prompt_size 7

abbrev client_argv : List (List ℕ)
client_argv = (b'c' ∷ []) ∷ (b'h' ∷ []) ∷ (b'1' ∷ []) ∷ []

abbrev client_args_read : ClientArgs
client_args_read = record { hostname = b'h' ∷ []; port = b'1' ∷ []; encrypted = false }

abbrev server_argv : List (List ℕ)
server_argv = (b's' ∷ []) ∷ []

one_start-Outcome_example :
    Outcome
      (ServerArgs server_argv)
      (λ e. Listens net)
      (λ e. e)
      memory
      (some (b'A' ∷ []))
      (one_start net server_argv memory (some (b'A' ∷ [])))
one_start-Outcome_example = one_start-Outcome net server_argv memory (some (b'A' ∷ [])) refl

-- The option, three arguments, an answer that is too long, a bind that fails.
with_option : one_start net (server_argv ++ encrypted_option ∷ []) memory none ≡ ok (true, memory)
unfolding one_start server_option scan_prompt open_server is_equal
with_option = refl

without_bind :
    one_start (record net { bind = λ sa. negsuc 0 }) server_argv memory (some (b'A' ∷ [])) ≡ exits 1
unfolding one_start server_option scan_prompt open_server poke
without_bind = refl

long_answer : one_start net server_argv memory (some (replicate prompt_size b'A')) ≡ faults
unfolding one_start server_option scan_prompt poke
long_answer = refl

abbrev frame : Frame
frame = record { input = 0x1000; output = 0x1100; iv = 0x1200; key = 0x1210 }

abbrev stream : List ℕ → Port
stream bytes = record { incoming = bytes; outgoing = []; turns = upto 2 ∷ upto 0 ∷ [] }

abbrev fresh : List ℕ
fresh = replicate buff_size 9

abbrev process : List ℕ → World toy.State
process bytes = record { dev = []; sock = stream bytes; term = stream []; buf = fresh }

abbrev hi : List Line
hi = (b'h', b'i' ∷ []) ∷ []

abbrev yo : List Line
yo = (b'y', b'o' ∷ []) ∷ (b'!', []) ∷ []

bob : IsClient net client_argv memory (b'B' ∷ []) client_args_read
unfolding IsString Connects
bob = record {
  memory_size = refl;
  fits = omega arith;
  no_nul = (omega arith, tt);
  arguments = client_args (b'c' ∷ []) (b'h' ∷ []) (b'1' ∷ []) [] false absent;
  in_clear = refl;
  connects = ((3, refl), (127 ∷ 0 ∷ 0 ∷ 1 ∷ [], refl, (0, refl)));
}

client_main-Ended_example :
    (w' : World toy.State) × (client_main toy frame fresh net client_argv memory
        (some (b'B' ∷ []))
        (map typing hi ++ (map arriving yo ++ hang_up ∷ []))
        (process (messages (b'A' ∷ []) yo))
      ≡ ok (some 0, w'))
    × (w'.sock.outgoing ≡ [] ++ messages (b'B' ∷ []) hi)
    × (w'.term.outgoing ≡ [] ++ texts (b'A' ∷ []) yo)
unfolding Fits
client_main-Ended_example =
    client_main-Ended net client_argv memory (b'B' ∷ []) client_args_read bob toy frame fresh refl
      hi (process (messages (b'A' ∷ []) yo)) (omega arith, tt) tt (b'A' ∷ []) yo
      (omega arith, (omega arith, tt)) refl refl tt

abbrev visitors : List (Visitor toy.State)
visitors =
    record {
      net = net;
      argv = client_argv;
      args = client_args_read;
      memory = memory;
      prompt = b'B' ∷ [];
      said = hi;
      world = process [];
      newsd = stream [];
    }
    ∷ record {
      net = net;
      argv = client_argv;
      args = client_args_read;
      memory = memory;
      prompt = b'B' ∷ [];
      said = yo;
      world = process [];
      newsd = stream [];
    }
    ∷ []

client_start-Outcome_example :
    Outcome
      (IsClientArgs client_argv)
      (Connects net)
      (λ args. args.encrypted)
      memory
      (some (b'B' ∷ []))
      (client_start net client_argv memory (some (b'B' ∷ [])))
client_start-Outcome_example = client_start-Outcome net client_argv memory (some (b'B' ∷ [])) refl

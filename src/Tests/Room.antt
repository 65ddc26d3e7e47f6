-- ===== src/Tests/Room.antt =====
-- Three clients; number 0 types two lines, and its thread is the first of the server.
use cryptodev_chat.Common.{
  ℕ, ◌<◌, ◌≡◌, ◌≢◌, refl, List, [], ◌∷◌, ◌++◌, map, some, false, replicate, update_self,
  update_other, arith, ◌+◌,
}
use cryptodev_chat.Run.{ok}
use cryptodev_chat.Io.{Port}
use cryptodev_chat.Cryptodev.Toy.{toy}
use cryptodev_chat.Chat.Client.{World}
use cryptodev_chat.Chat.Client.Delivery.{connect}
use cryptodev_chat.Chat.Client.Session.{rounds}
use cryptodev_chat.Chat.Client.Session.Rounds.{typing, arriving, texts, Fits}
use cryptodev_chat.Chat.Server.Forward.{Serving}
use cryptodev_chat.Chat.Server.Threads.{System, served, run}
use cryptodev_chat.Chat.Room.{hears, room-Shown}
use cryptodev_chat.Tests.Chat.{frame, world, fresh, prompt, at_rest, two_lines}
use cryptodev_chat.Tests.Server.{malloc, malloc_size, silent, server, recipients}

abbrev serving : Serving (server silent) 4 0 silent silent
serving = record {
  clients = recipients silent;
  mine = refl;
  in_range = omega arith;
  own_open = update_self (λ _. some silent) 4 (some silent);
  own_steady = tt;
  stdout_open = update_other (λ _. some silent) 4 0 (some silent) (omega arith);
  stdout_steady = tt;
  not_stdout = λ j high e. omega arith;
}

abbrev room : System (List (List ℕ))
room = record {
  server = server silent;
  client_id = 2;
  waiting = 0;
  threads = some (record { id = 0; client_sd = 4 }) ∷ [];
}

room-Shown_example :
    (w' : World (List (List ℕ))) × (y' : System (List (List ℕ))) × (rounds toy frame false fresh
        prompt
        (map typing two_lines)
        (world [])
      ≡ ok (0, w'))
    × (run toy frame false malloc (replicate 2 (served 0)) (hears 4 0 silent w'.sock room) ≡ ok y')
    × ((j : ℕ)
        → j < 3
        → j ≢ 0
        → (q : Port) × (u' : World (List (List ℕ))) × (y'.server.ports (j + 4) ≡ some q)
          × (rounds toy frame false fresh prompt (map arriving two_lines) (connect (world []) q)
              ≡ ok (0, u'))
          × (u'.term.outgoing ≡ [] ++ texts prompt two_lines)
          × (u'.sock.incoming ≡ []))
unfolding Fits
room-Shown_example =
    room-Shown toy frame malloc malloc_size prompt 0 4 0 toy toy frame frame fresh prompt two_lines
      (world []) (λ j. world []) room silent silent refl serving (λ j. refl) (λ j. at_rest)
      (omega arith, (omega arith, tt))

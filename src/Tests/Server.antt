-- ===== src/Tests/Server.antt =====
-- The server with three clients, on descriptors 4, 5 and 6, of which number 0 speaks.
use cryptodev_chat.Common.{
  update, update_other, update_self, ℕ, zero, suc, ◌+◌, ◌<◌, ◌≡◌, refl, List, [], ◌∷◌, ◌++◌, some,
  true, false, length, replicate, get_elem?, arith, length-replicate, Option,
}
use cryptodev_chat.Run.{ok}
use cryptodev_chat.Io.{Port, upto}
use cryptodev_chat.Cryptodev.Toy.{toy, reversing, toy_service}
use cryptodev_chat.Chat.Cipher.{Frame}
use cryptodev_chat.Chat.Client.Frames.{message}
use cryptodev_chat.Chat.Client.Sealed.{sealed_message}
use cryptodev_chat.Chat.Server.{Server, forward}
use cryptodev_chat.Chat.Server.Distribute.{Recipients}
use cryptodev_chat.Chat.Server.Forward.{Serving, Forwarded}
use cryptodev_chat.Chat.Server.Locks.{System, reading}
use cryptodev_chat.Chat.Server.Locks.Alone.{Turns}
use cryptodev_chat.Chat.Server.Locks.Single.{Mirrors, Added, forward-Mirrors}
use cryptodev_chat.Chat.Server.Clear.{forward-message}
use cryptodev_chat.Chat.Server.Sealed.{resealed, forward-resealed}

abbrev frame : Frame
frame = record { input = 0x1000; output = 0x1100; iv = 0x1200; key = 0x1210 }

abbrev pub malloc : ℕ → Option (List ℕ)
malloc n = some (replicate n 7)

pub malloc_size : (n : ℕ) → (bs : List ℕ) × (malloc n ≡ some bs) × (length bs ≡ n)
malloc_size n = (replicate n 7, refl, length-replicate {A = ℕ} n 7)

abbrev pub silent : Port
silent = record { incoming = []; outgoing = []; turns = upto 3 ∷ [] }

abbrev speaking : List ℕ → Port
speaking bytes = record { incoming = bytes; outgoing = []; turns = upto 1 ∷ upto 9 ∷ [] }

abbrev hello : List ℕ
hello = b'h' ∷ b'i' ∷ b'\n' ∷ []

abbrev pub server : Port → Server (List (List ℕ))
server own = record {
  dev = [];
  ports = update (λ _. some silent) 4 (some own);
  newsd_serve = 4 ∷ 5 ∷ 6 ∷ 0 ∷ [];
  no_client = 3;
}

pub slots : (j : ℕ) → j < 3 → get_elem? (4 ∷ 5 ∷ 6 ∷ 0 ∷ []) j ≡ some (j + 4)
slots zero h = refl
slots (suc zero) h = refl
slots (suc (suc zero)) h = refl
slots (suc (suc (suc j))) h = absurd (omega arith)

abbrev pub recipients : (own : Port) → Recipients (server own).newsd_serve (server own).ports 3 0 0
recipients own = record {
  fd_of = λ j. j + 4;
  in_array = λ j low high. slots j high;
  port_of = λ j. silent;
  is_open =
      λ j low high ne. update_other (λ _. some silent) 4 (j + 4) (some own) (λ e. ne (omega arith));
  steady = λ j low high ne. tt;
  distinct = λ i j low lt high e. omega arith;
}

abbrev clear_hello : Port
clear_hello = speaking (message hello ++ [])

abbrev sealed_hello : Port
sealed_hello = speaking (sealed_message toy reversing toy_service frame hello ++ [])

abbrev serving_clear : Serving (server clear_hello) 4 0 clear_hello silent
serving_clear = record {
  clients = recipients clear_hello;
  mine = refl;
  in_range = omega arith;
  own_open = update_self (λ _. some silent) 4 (some clear_hello);
  own_steady = tt;
  stdout_open = update_other (λ _. some silent) 4 0 (some clear_hello) (omega arith);
  stdout_steady = tt;
  not_stdout = λ j high e. omega arith;
}

abbrev serving_sealed : Serving (server sealed_hello) 4 0 sealed_hello silent
serving_sealed = record {
  clients = recipients sealed_hello;
  mine = refl;
  in_range = omega arith;
  own_open = update_self (λ _. some silent) 4 (some sealed_hello);
  own_steady = tt;
  stdout_open = update_other (λ _. some silent) 4 0 (some sealed_hello) (omega arith);
  stdout_steady = tt;
  not_stdout = λ j high e. omega arith;
}

forward-message_example :
    (s' : Server (List (List ℕ))) × (forward toy frame false malloc 4 0 (server clear_hello)
      ≡ ok (0, s'))
    × Forwarded serving_clear hello [] (λ _. message hello) s'
forward-message_example =
    forward-message toy frame malloc 0 (server clear_hello) 4 clear_hello silent hello []
      malloc_size serving_clear refl (omega arith) (omega arith)

forward-resealed_example :
    (s' : Server (List (List ℕ))) × (forward toy frame true malloc 4 0 (server sealed_hello)
      ≡ ok (0, s'))
    × Forwarded serving_sealed hello [] (resealed reversing 0 7 (message hello)) s'
forward-resealed_example =
    forward-resealed toy reversing toy_service frame malloc 0 (server sealed_hello) 4 sealed_hello
      silent hello [] malloc_size serving_sealed refl (omega arith)

-- The threads before the first message.
abbrev quiet : System
quiet = record {
  shared = record {
    no_client = 3;
    stdout = [];
    streams = λ c. [];
    locks = λ c. false;
    log = λ c. [];
  };
  pc = λ i. reading;
}

quiet-Mirrors : Mirrors (server clear_hello).ports (λ j. j + 4) 3 0 quiet
quiet-Mirrors = record {
  count = refl;
  waits = refl;
  free = λ c low. refl;
  stdout = (silent, serving_clear.stdout_open, refl);
  streams =
      λ j low apart. (silent, (recipients clear_hello).is_open j (omega arith) low apart, refl);
}

forward-Mirrors_example :
    (s' : Server (List (List ℕ))) × (forward toy frame false malloc 4 0 (server clear_hello)
      ≡ ok (0, s'))
    × ((z : System) × Turns 0 quiet z
        × Added 0 hello (λ j. message hello) quiet z
        × Mirrors s'.ports (λ j. j + 4) 3 0 z)
forward-Mirrors_example =
    forward-Mirrors toy frame malloc 0 (server clear_hello) 4 clear_hello silent hello []
      malloc_size serving_clear refl (omega arith) (omega arith) quiet quiet-Mirrors

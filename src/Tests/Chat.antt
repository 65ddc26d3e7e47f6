-- ===== src/Tests/Chat.antt =====
-- The chat between two ends: the prompt "A", the line "hi".
use cryptodev_chat.Common.{
  map, ℕ, ◌≡◌, refl, List, [], ◌∷◌, ◌++◌, some, true, false, replicate, arith,
}
use cryptodev_chat.Run.{ok, faults}
use cryptodev_chat.Io.{Port, upto}
use cryptodev_chat.Io.Calm.{Took}
use cryptodev_chat.Cryptodev.Toy.{toy, reversing, toy_service}
use cryptodev_chat.Chat.Cipher.{Frame}
use cryptodev_chat.Chat.Client.{World, buff_size, my_rlhandler, get_and_print}
use cryptodev_chat.Chat.Client.Frames.{message}
use cryptodev_chat.Chat.Client.Send.{my_rlhandler-faults}
use cryptodev_chat.Chat.Client.Receive.{get_and_print-faults, get_and_print-empty}
use cryptodev_chat.Chat.Client.Session.Sealed.{FitsBlock, rounds-Sealed}
use cryptodev_chat.Chat.Client.Session.{rounds}
use cryptodev_chat.Chat.Client.Overrun.{my_rlhandler-overruns}
use cryptodev_chat.Chat.Client.Session.Rounds.{
  Line, typing, arriving, texts, Fits, rounds-Delivered,
}
use cryptodev_chat.Chat.Client.Delivery.{connect, AtRest}

abbrev pub frame : Frame
frame = record { input = 0x1000; output = 0x1100; iv = 0x1200; key = 0x1210 }

abbrev pub port : List ℕ → Port
port incoming = record { incoming = incoming; outgoing = []; turns = upto 2 ∷ upto 0 ∷ [] }

abbrev pub fresh : List ℕ
fresh = replicate buff_size 7

abbrev pub world : List ℕ → World (List (List ℕ))
world incoming = record { dev = []; sock = port incoming; term = port []; buf = fresh }

abbrev pub prompt : List ℕ
prompt = b'A' ∷ []

pub at_rest : AtRest fresh (world []) (world [])
at_rest = record {
  malloc_size = refl;
  buf_size = refl;
  empty_wire = refl;
  sends = tt;
  receives = tt;
  shows = tt;
}

abbrev long_line : List ℕ
long_line = replicate 310 b'x'

my_rlhandler-faults_example :
    my_rlhandler toy frame true fresh prompt (some (b'h' ∷ long_line)) (world []) ≡ faults
my_rlhandler-faults_example =
    my_rlhandler-faults toy frame fresh prompt refl true b'h' long_line (world []) (omega arith)

get_and_print-faults_example :
    get_and_print toy frame false (world (message long_line ++ [])) ≡ faults
get_and_print-faults_example =
    get_and_print-faults toy frame (world (message long_line ++ [])) long_line [] refl refl tt
      (omega arith) (omega arith)

get_and_print-empty_example :
    (sock : Port) × (get_and_print toy frame false (world (message [] ++ b'z' ∷ []))
      ≡ ok (1, record (world (message [] ++ b'z' ∷ [])) { sock = sock }))
    × Took (port (message [] ++ b'z' ∷ [])) (b'z' ∷ []) sock
get_and_print-empty_example =
    get_and_print-empty toy frame (world (message [] ++ b'z' ∷ [])) [] (b'z' ∷ []) refl refl tt
      (omega arith) refl

-- "hi" and "ok", typed one after the other.
abbrev pub two_lines : List Line
two_lines = (b'h', b'i' ∷ []) ∷ (b'o', b'k' ∷ []) ∷ []

rounds-Delivered_example :
    (w' : World (List (List ℕ))) × (u' : World (List (List ℕ))) × (rounds toy frame false fresh
        prompt
        (map typing two_lines)
        (world [])
      ≡ ok (0, w'))
    × (rounds toy frame false fresh [] (map arriving two_lines) (connect (world []) w'.sock)
        ≡ ok (0, u'))
    × (u'.term.outgoing ≡ [] ++ texts prompt two_lines)
    × (u'.sock.incoming ≡ [])
unfolding Fits
rounds-Delivered_example =
    rounds-Delivered prompt toy frame toy frame fresh [] two_lines (world []) (world []) at_rest
      (omega arith, (omega arith, tt))

my_rlhandler-overruns_example :
    my_rlhandler toy frame true fresh prompt (some (b'h' ∷ replicate 259 b'x')) (world []) ≡ faults
my_rlhandler-overruns_example =
    my_rlhandler-overruns toy reversing toy_service frame fresh prompt b'h' (replicate 259 b'x')
      (world []) refl (omega arith) (omega arith)

rounds-Sealed_example :
    (w' : World (List (List ℕ))) × (u' : World (List (List ℕ))) × (rounds toy frame true fresh
        prompt
        (map typing two_lines)
        (world [])
      ≡ ok (0, w'))
    × (rounds toy frame true fresh [] (map arriving two_lines) (connect (world []) w'.sock)
        ≡ ok (0, u'))
    × (u'.term.outgoing ≡ [] ++ texts prompt two_lines)
    × (u'.sock.incoming ≡ [])
unfolding FitsBlock
rounds-Sealed_example =
    rounds-Sealed prompt toy frame toy frame fresh [] two_lines (world []) (world []) reversing
      toy_service toy_service at_rest (omega arith, (omega arith, tt))

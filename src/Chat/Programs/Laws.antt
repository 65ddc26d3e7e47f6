-- ===== src/Chat/Programs/Laws.antt =====
-- The client's program from its arguments to its end.
use cryptodev_chat.Common.{
  ℕ, zero, suc, ◌+◌, ◌<◌, ◌≡◌, refl, ap, ◌∙◌, List, [], ◌∷◌, ◌++◌, map, some, none, false, length,
  drop, arith,
}
use cryptodev_chat.Io.{Port, Steady}
use cryptodev_chat.Io.Calm.{Sent}
use cryptodev_chat.Run.{ok}
use cryptodev_chat.Cryptodev.{Cryptodev}
use cryptodev_chat.Chat.Cipher.{Frame}
use cryptodev_chat.Chat.Client.{World, buff_size}
use cryptodev_chat.Chat.Client.Session.Ending.{hang_up, rounds-talked}
use cryptodev_chat.Chat.Client.Session.Rounds.{
  Line, typing, arriving, texts, messages, Fits, rounds-typing,
}
use cryptodev_chat.Chat.Start.{Sockets, ClientArgs, c_string, client_start, prompt_size}
use cryptodev_chat.Chat.Start.Args.{IsClientArgs}
use cryptodev_chat.Chat.Start.Network.{Connects}
use cryptodev_chat.Chat.Start.Outcome.{client_start-ready}
use cryptodev_chat.Chat.Programs.{client_main}

-- The bytes of a word that has no NUL in it.
unfoldable pub IsString : List ℕ → Type 0
IsString [] = Unit {0}
IsString (b ∷ bs) = (0 < b) × IsString bs

pub c_string-word : (word rest : List ℕ) → IsString word → c_string (word ++ 0 ∷ rest) ≡ ok word
unfolding IsString c_string
c_string-word [] rest h = refl
c_string-word (zero ∷ bs) rest (h, hs) = absurd (omega arith)
c_string-word (suc b ∷ bs) rest (h, hs) = rw (c_string-word bs rest hs) refl

-- A process of socket-client.c without --encrypted: the answer to the question fits and has no NUL, the
-- option is not given, and no call of the start fails.
pub record IsClient (net : Sockets) (argv : List (List ℕ)) (memory prompt : List ℕ)
    (args : ClientArgs) : Type 0 where
  pub memory_size : length memory ≡ prompt_size
  pub fits : length prompt < prompt_size
  pub no_nul : IsString prompt
  pub arguments : IsClientArgs argv args
  pub in_clear : args.encrypted ≡ false
  pub connects : Connects net args

module _ (net : Sockets) (argv : List (List ℕ)) (memory prompt : List ℕ) (args : ClientArgs)
    (client : IsClient net argv memory prompt args) (d : Cryptodev) (frame : Frame)
    (malloc : List ℕ) (size : length malloc ≡ buff_size) (said : List Line) (w : World d.State)
    (says : Fits prompt said) (st : Steady w.sock.turns) where
  array : List ℕ
  array = prompt ++ 0 ∷ drop (length prompt + 1) memory

  started : client_start net argv memory (some prompt) ≡ ok (false, array)
  unfolding array
  started =
      client_start-ready net argv memory client.memory_size args prompt client.arguments
        client.connects client.fits
      ∙ ap (λ e. ok (e, array)) client.in_clear

  named : c_string array ≡ ok prompt
  unfolding array
  named = c_string-word prompt (drop (length prompt + 1) memory) client.no_nul

  -- Lines are typed and sent, and the program waits.
  pub client_main-Sent :
      (q : Port) × (client_main d frame malloc net argv memory (some prompt) (map typing said) w
        ≡ ok (none, record w { sock = q }))
      × Sent w.sock (messages prompt said) q
  unfolding client_main
  client_main-Sent =
      let (q, sent, wire) = rounds-typing prompt d frame malloc size said w says st in
      (q, rw (started, named, sent) refl, wire)

  -- In clear and where no call fails, with lines that are not empty and fit 300 bytes with their
  -- prompts and an answer of less than 100 bytes and no NUL: socket-client.c sends the lines that are
  -- typed, behind the answer to its question, shows those of the server, and returns 0 at the end of
  -- the stream.
  pub client_main-Ended :
      (server_prompt : List ℕ) (heard : List Line)
      → Fits server_prompt heard
      → length w.buf ≡ buff_size
      → w.sock.incoming ≡ messages server_prompt heard
      → Steady w.term.turns
      → (w' : World d.State) × (client_main d frame malloc net argv memory
            (some prompt)
            (map typing said ++ (map arriving heard ++ hang_up ∷ []))
            w
          ≡ ok (some 0, w'))
        × (w'.sock.outgoing ≡ w.sock.outgoing ++ messages prompt said)
        × (w'.term.outgoing ≡ w.term.outgoing ++ texts server_prompt heard)
  unfolding client_main
  client_main-Ended server_prompt heard fits buf_size arrives shows =
      let (w', ended, shown, out) =
        rounds-talked d frame malloc size prompt server_prompt heard said w says fits buf_size
          arrives st shows in
      (w', rw (started, named, ended) refl, out, shown.outgoing)

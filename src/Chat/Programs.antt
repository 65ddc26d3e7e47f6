-- ===== src/Chat/Programs.antt =====
-- socket-client.c, socket-server.c and socket-server-irc.c from their start on: main of each.
--
-- The connections that accept and connect give are streams, and what happens in a session is a list of
-- rounds. A run is over when these are used up, and the program then waits in select or accept.
pub mod Laws
pub mod Visits
use cryptodev_chat.Common.{
  ℕ, List, [], ◌∷◌, Option, none, some, Bool, true, false, ◌==◌, if◌then◌else◌,
}
use cryptodev_chat.Io.{Port}
use cryptodev_chat.Run.{Run, ok, exits, ◌>>=◌}
use cryptodev_chat.Cryptodev.{Cryptodev}
use cryptodev_chat.Chat.Cipher.{Frame}
use cryptodev_chat.Chat.Client.{World}
use cryptodev_chat.Chat.Client.Session.{Round, rounds}
use cryptodev_chat.Chat.Server.Threads.{System, Event, run}
use cryptodev_chat.Chat.Start.{Sockets, one_start, irc_start, client_start, c_string}

-- What accept of socket-server.c gives: a failure, a peer whose address cannot be printed, or a
-- connection, with the rounds of its session.
pub data Incoming : Type 0 where
  refused : Incoming
  unprintable : Incoming
  connection : Port → List Round → Incoming

module _ (d : Cryptodev) (frame : Frame) (malloc : List ℕ) where
  open d use {State}

  -- The end of socket-client.c: main returns 0 when the server has gone; `none` is a client that
  -- waits in select.
  abbrev left_by_server : ℕ × World State → Option ℕ × World State
  left_by_server (gone, w) = (if gone == 1 then some 0 else none, w)

  -- socket-client.c, where `w.sock` is the connection
  unfoldable pub client_main :
      Sockets
      → List (List ℕ)
      → List ℕ
      → Option (List ℕ)
      → List Round
      → World State
      → Run (Option ℕ × World State)
  client_main net argv memory word rs w = do
    (encrypted, array) ← client_start net argv memory word
    prompt ← c_string array
    result ← rounds d frame encrypted malloc prompt rs w
    ok (left_by_server result)

  -- When the client has gone away its connection is closed, and the next accept follows.
  abbrev after_session :
      ℕ × World State
      → (World State → Run (List Port × World State))
      → Run (List Port × World State)
  after_session (gone, w) next =
      if gone == 1 then (do (closed, w') ← next w; ok (w.sock ∷ closed, w')) else ok ([], w)

  -- The outer loop of socket-server.c: the connections it has closed, in order, and the process.
  unfoldable pub sessions :
      Bool → List ℕ → List Incoming → World State → Run (List Port × World State)
  sessions encrypted array [] w = ok ([], w)
  sessions encrypted array (refused ∷ incoming) w = exits 1
  sessions encrypted array (unprintable ∷ incoming) w = exits 1
  sessions encrypted array (connection newsd rs ∷ incoming) w = do
    prompt ← c_string array
    result ← rounds d frame encrypted malloc prompt rs (record w { sock = newsd })
    after_session result (sessions encrypted array incoming)

  -- socket-server.c
  unfoldable pub one_main :
      Sockets
      → List (List ℕ)
      → List ℕ
      → Option (List ℕ)
      → List Incoming
      → World State
      → Run (List Port × World State)
  one_main net argv memory word incoming w = do
    (encrypted, array) ← one_start net argv memory word
    sessions encrypted array incoming w

module _ (d : Cryptodev) (frame : Frame) (malloc : ℕ → Option (List ℕ)) where
  open d use {State}

  -- socket-server-irc.c, where `malloc` gives the array for a size
  unfoldable pub irc_main : Sockets → List (List ℕ) → List Event → System State → Run (System State)
  irc_main net argv events y = do
    encrypted ← irc_start net argv
    run d frame encrypted malloc events (record y { server = record y.server { no_client = 0 } })

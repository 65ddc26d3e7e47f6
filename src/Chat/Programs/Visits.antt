-- ===== src/Chat/Programs/Visits.antt =====
-- Clients that come one after the other to socket-server.c.
use cryptodev_chat.Common.{ℕ, ◌≡◌, List, [], ◌∷◌, ◌++◌, map, some}
use cryptodev_chat.Io.{Port, Steady}
use cryptodev_chat.Run.{Run, ok, ◌>>=◌}
use cryptodev_chat.Cryptodev.{Cryptodev}
use cryptodev_chat.Chat.Cipher.{Frame}
use cryptodev_chat.Chat.Client.{World}
use cryptodev_chat.Chat.Client.Session.Ending.{hang_up}
use cryptodev_chat.Chat.Client.Session.Rounds.{Line, typing, arriving, texts, Fits}
use cryptodev_chat.Chat.Start.{Sockets, ClientArgs}
use cryptodev_chat.Chat.Programs.{Incoming, connection, client_main}
use cryptodev_chat.Chat.Programs.Laws.{IsClient}

-- A process of socket-client.c, with the lines typed there, and the server's end of its connection.
pub record Visitor (S : Type 0) : Type 0 where
  pub net : Sockets
  pub argv : List (List ℕ)
  pub args : ClientArgs
  pub memory : List ℕ
  pub prompt : List ℕ
  pub said : List Line
  pub world : World S
  pub newsd : Port

pub record IsVisitor {S : Type 0} (v : Visitor S) : Type 0 where
  pub client : IsClient v.net v.argv v.memory v.prompt v.args
  pub fits : Fits v.prompt v.said
  pub empty_wire : v.world.sock.outgoing ≡ []
  pub sends : Steady v.world.sock.turns
  pub receives : Steady v.newsd.turns

unfoldable pub AllVisit : {S : Type 0} → List (Visitor S) → Type 0
AllVisit [] = Unit {0}
AllVisit (v ∷ vs) = IsVisitor v × AllVisit vs

-- What the server is to show.
pub all_texts : {S : Type 0} → List (Visitor S) → List ℕ
all_texts [] = []
all_texts (v ∷ vs) = texts v.prompt v.said ++ all_texts vs

-- A session of the server with these bytes on the wire, until the client hangs up.
abbrev session : {S : Type 0} → Visitor S → List ℕ → Incoming
session v wire =
    connection (record v.newsd { incoming = wire }) (map arriving v.said ++ hang_up ∷ [])

module _ (e : Cryptodev) (frame' : Frame) (malloc' : List ℕ) where
  -- Every client runs, and what it has sent is what the server is to read.
  unfoldable pub arrivals : List (Visitor e.State) → Run (List Incoming)
  arrivals [] = ok []
  arrivals (v ∷ vs) = do
    (status, w) ←
        client_main e frame' malloc' v.net v.argv v.memory (some v.prompt) (map typing v.said)
          v.world
    rest ← arrivals vs
    ok (session v w.sock.outgoing ∷ rest)

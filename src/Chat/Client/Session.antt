-- ===== src/Chat/Client/Session.antt =====
-- socket-client.c and socket-server.c, the loop of main over one connection: in each round select says
-- where there is input; a line that is complete goes out, and a message that has arrived is shown.
pub mod Rounds
pub mod Ending
pub mod Sealed
use cryptodev_chat.Common.{
  ℕ, List, [], ◌∷◌, Option, none, some, Bool, true, false, ◌==◌, if◌then◌else◌,
}
use cryptodev_chat.Run.{Run, ok, exits, ◌>>=◌}
use cryptodev_chat.Cryptodev.{Cryptodev}
use cryptodev_chat.Chat.Cipher.{Frame}
use cryptodev_chat.Chat.Client.{World, my_rlhandler, get_and_print}

-- What one select and rl_callback_read_char find: the terminal may be ready, and the character read
-- there may complete a line (`none` inside is the end of the input); the connection may be ready.
pub data Round : Type 0 where
  failed : Round
  ready : Option (Option (List ℕ)) → Bool → Round

module _ (d : Cryptodev) (frame : Frame) (encrypted : Bool) (malloc prompt : List ℕ) where
  open d use {State}

  abbrev read_char : Option (Option (List ℕ)) → World State → Run (World State)
  read_char none w = ok w
  read_char (some line) w = my_rlhandler d frame encrypted malloc prompt line w

  -- 1 is the break of the loop.
  abbrev read_message : Bool → World State → Run (ℕ × World State)
  read_message false w = ok (0, w)
  read_message true w = get_and_print d frame encrypted w

  unfoldable pub round : Round → World State → Run (ℕ × World State)
  round failed w = exits 1
  round (ready line newsd) w = do w' ← read_char line w; read_message newsd w'

  abbrev unless_gone :
      ℕ × World State → (World State → Run (ℕ × World State)) → Run (ℕ × World State)
  unless_gone (gone, w) next = if gone == 1 then ok (1, w) else next w

  -- The rounds that are over so far: 1 if the peer went away, 0 if the loop goes on.
  unfoldable pub rounds : List Round → World State → Run (ℕ × World State)
  rounds [] w = ok (0, w)
  rounds (r ∷ rs) w = round r w >>= λ result. unless_gone result (rounds rs)

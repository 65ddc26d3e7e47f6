-- ===== src/Chat/Client.antt =====
-- socket-common.c, my_rlhandler and get_and_print, as socket-client.c and socket-server.c use them on
-- their one connection: a typed line goes out as one message, and one message comes in.
--
-- Not modelled: readline's prompt and history, and a malloc that returns NULL, which the code does
-- not test for. A C string is the list of its bytes before the NUL.
pub mod Frames
pub mod Send
pub mod Receive
pub mod Sealed
pub mod Delivery
pub mod Overrun
pub mod Session
use cryptodev_chat.Common.{
  ℕ, ◌+◌, List, [], ◌∷◌, ◌++◌, Option, none, some, Bool, true, false, ℤ, pos, negsuc, is_count,
  length, if◌then◌else◌,
}
use cryptodev_chat.Io.{Port, insist_write, insist_read}
use cryptodev_chat.Cryptodev.{Cryptodev}
use cryptodev_chat.Run.{Run, ok, exits, spins, ◌>>=◌, ◌>>◌}
use cryptodev_chat.Chat.Buffer.{peek, poke}
use cryptodev_chat.Chat.Word.{htonl, ntohl}
use cryptodev_chat.Chat.Cipher.{Frame, data_size, encrypt, decrypt}

abbrev pub buff_size : ℕ
buff_size = 300

-- The process: the device /dev/crypto, the connection newsd, the terminal (descriptor 0), and the
-- array `buf` of main.
pub record World (S : Type 0) : Type 0 where
  pub dev : S
  pub sock : Port
  pub term : Port
  pub buf : List ℕ

-- if (insist_write(fd, ..., n) != n) { perror("write"); exit(1); }
abbrev pub all_written : ℕ → Option ℤ → Port → Run Port
all_written n none p = spins
all_written n (some r) p = if is_count r n then ok p else exits 1

unfoldable pub send : List ℕ → Port → Run Port
send bytes p = let r = insist_write bytes p in all_written (length bytes) r.0 r.1

-- if (n < 0) { perror("read"); exit(1); } if (n <= 0) return 1; -- true for the early return
abbrev pub went_away : Option ℤ → Run Bool
went_away none = spins
went_away (some (negsuc e)) = exits 1
went_away (some (pos n)) = ok (is_count (pos n) 0)

-- full_message before it is sent: the length, the prompt, the line and the newline. `full_message`
-- is what malloc(BUFF_SIZE) returned.
unfoldable pub format_message : List ℕ → List ℕ → List ℕ → Run (List ℕ)
format_message full_message prompt line = do
  with_length ← poke full_message 0 (htonl (length line + length prompt + 1))
  with_prompt ← poke with_length 4 (prompt ++ 0 ∷ [])
  with_line ← poke with_prompt (length prompt + 4) (line ++ 0 ∷ [])
  poke with_line (length line + length prompt + 4) (b'\n' ∷ [])

module _ (d : Cryptodev) (frame : Frame) (encrypted : Bool) where
  open d use {State}

  -- The message leaves through encrypt and 256 bytes of the buffer, or as it is.
  transmit : List ℕ → ℕ → World State → Run (World State)
  transmit full_message enc_s w =
      if encrypted
      then (do
        (sealed, dev) ← encrypt d frame full_message enc_s w.dev
        bytes ← peek sealed 0 data_size
        sock ← send bytes w.sock
        ok (record w { dev = dev; sock = sock }))
      else (do
        bytes ← peek full_message 0 enc_s
        sock ← send bytes w.sock
        ok (record w { sock = sock }))

  -- my_rlhandler(line): `none` is NULL
  unfoldable pub my_rlhandler : List ℕ → List ℕ → Option (List ℕ) → World State → Run (World State)
  unfolding transmit
  my_rlhandler fresh prompt none w = ok w
  my_rlhandler fresh prompt (some []) w = ok w
  my_rlhandler fresh prompt (some (b ∷ bs)) w = do
    full_message ← format_message fresh prompt (b ∷ bs)
    transmit full_message (length (b ∷ bs) + length prompt + 4 + 1) w

  -- Write message to stdout
  print_message : List ℕ → ℕ → ℕ → World State → Run (ℕ × World State)
  print_message buf off size w = do
    text ← peek buf off size
    term ← send text w.term
    ok (0, record w { term = term; buf = buf })

  print_sealed : List ℕ → World State → Run (ℕ × World State)
  print_sealed buf w = do
    (plain, dev) ← decrypt d frame buf w.dev
    head ← peek plain 0 4
    print_message plain 4 (ntohl head) (record w { dev = dev })

  get_sealed : World State → Run (ℕ × World State)
  get_sealed w = do
    let r = insist_read data_size w.sock
    buf ← poke w.buf 0 r.1
    gone ← went_away r.0
    let here = record w { sock = r.2; buf = buf }
    if gone then ok (1, here) else print_sealed buf here

  get_sized : ℕ → World State → Run (ℕ × World State)
  get_sized size w = do
    let r = insist_read size w.sock
    buf ← poke w.buf 0 r.1
    gone ← went_away r.0
    let here = record w { sock = r.2; buf = buf }
    if gone then ok (1, here) else print_message buf 0 size here

  get_clear : World State → Run (ℕ × World State)
  get_clear w = do
    let r = insist_read 4 w.sock
    gone ← went_away r.0
    let here = record w { sock = r.2 }
    if gone then ok (1, here) else get_sized (ntohl r.1) here

  -- get_and_print(buf, newsd): 1 if the peer went away
  unfoldable pub get_and_print : World State → Run (ℕ × World State)
  unfolding print_message print_sealed get_sealed get_sized get_clear
  get_and_print w = if encrypted then get_sealed w else get_clear w

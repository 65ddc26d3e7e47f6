-- ===== src/Chat/Server.antt =====
-- socket-server-irc.c: the server that forwards what one client says to all others. This file is
-- forward, run by the thread of one client as one step: each recipient's lock is held while its
-- message is written.
--
-- `ports` is the table of open descriptors. A read or write on a closed one fails. `malloc` gives the
-- bytes of a fresh allocation, or `none` for NULL.
pub mod Distribute
pub mod Forward
pub mod Clear
pub mod Sealed
pub mod Threads
pub mod Locks
use cryptodev_chat.Common.{
  ℕ, zero, suc, ◌+◌, ◌*◌, List, [], ◌∷◌, Option, none, some, Bool, true, false, get_elem?, ◌==◌,
  update, if◌then◌else◌, length,
}
use cryptodev_chat.Io.{Port, insist_read}
use cryptodev_chat.Run.{Run, ok, exits, faults, ◌>>=◌}
use cryptodev_chat.Cryptodev.{Cryptodev}
use cryptodev_chat.Chat.Buffer.{peek, poke}
use cryptodev_chat.Chat.Word.{htonl, ntohl}
use cryptodev_chat.Chat.Cipher.{Frame, data_size, encrypt, decrypt}
use cryptodev_chat.Chat.Client.{buff_size, send, went_away}

abbrev pub Ports : Type 0
Ports = ℕ → Option Port

pub record Server (S : Type 0) : Type 0 where
  pub dev : S
  pub ports : Ports
  pub newsd_serve : List ℕ
  pub no_client : ℕ

-- An array access, out of bounds a fault.
abbrev pub slot_of : Option ℕ → Run ℕ
slot_of none = faults
slot_of (some fd) = ok fd

-- The descriptor for a read of at least one byte; on a closed one the read fails and the server exits.
abbrev pub port_of : Option Port → Run Port
port_of none = exits 1
port_of (some p) = ok p

-- insist_write on a closed descriptor fails, unless there is nothing to write.
abbrev pub closed_write : List ℕ → Ports → Run Ports
closed_write [] ports = ok ports
closed_write (b ∷ bs) ports = exits 1

abbrev pub send_port : ℕ → List ℕ → Ports → Option Port → Run Ports
send_port fd bytes ports none = closed_write bytes ports
send_port fd bytes ports (some p) = do p' ← send bytes p; ok (update ports fd (some p'))

abbrev pub send_fd : ℕ → List ℕ → Ports → Run Ports
send_fd fd bytes ports = send_port fd bytes ports (ports fd)

-- The test of malloc's result: the server exits when memory is out.
abbrev pub allocated : Option (List ℕ) → Run (List ℕ)
allocated none = exits 1
allocated (some bytes) = ok bytes

module _ (d : Cryptodev) (frame : Frame) (encrypted : Bool) (malloc : ℕ → Option (List ℕ)) where
  open d use {State}

  -- One round of the loop of forward. encrypt works in place: the buffer comes back changed.
  unfoldable pub forward_one : ℕ → List ℕ → ℕ → Server State → Run (List ℕ × Server State)
  forward_one client buf size s =
      if encrypted
      then (do
        (sealed, dev) ← encrypt d frame buf (size + 4) s.dev
        fd ← slot_of (get_elem? s.newsd_serve client)
        bytes ← peek sealed 0 data_size
        ports ← send_fd fd bytes s.ports
        ok (sealed, record s { dev = dev; ports = ports }))
      else (do
        fd ← slot_of (get_elem? s.newsd_serve client)
        bytes ← peek buf 0 (size + 4)
        ports ← send_fd fd bytes s.ports
        ok (buf, record s { ports = ports }))

  -- for (client = 0; client < no_client; client++) if (client == me) continue; ...
  unfoldable pub distribute : ℕ → ℕ → List ℕ → ℕ → ℕ → Server State → Run (Server State)
  distribute zero client buf size me s = ok s
  distribute (suc rounds) client buf size me s = do
    (buf', s') ← if client == me then ok (buf, s) else forward_one client buf size s
    distribute rounds (suc client) buf' size me s'

  -- The message at buf + 4 to stdout, then the whole of it to the other clients.
  relay : List ℕ → ℕ → ℕ → Server State → Run (ℕ × Server State)
  relay buf size me s = do
    text ← peek buf 4 size
    ports ← send_fd 0 text s.ports
    s' ← distribute s.no_client 0 buf size me (record s { ports = ports })
    ok (0, s')

  forward_sealed_block : ℕ → List ℕ → Server State → Run (ℕ × Server State)
  unfolding relay
  forward_sealed_block me buf s = do
    (plain, dev) ← decrypt d frame buf s.dev
    head ← peek plain 0 4
    relay plain (ntohl head) me (record s { dev = dev })

  forward_sealed : ℕ → ℕ → Server State → Run (ℕ × Server State)
  unfolding forward_sealed_block
  forward_sealed sd me s = do
    p ← port_of (s.ports sd)
    fresh ← allocated (malloc (8 * buff_size))
    let r = insist_read data_size p
    buf ← poke fresh 0 r.1
    gone ← went_away r.0
    let here = record s { ports = update s.ports sd (some r.2) }
    if gone then ok (1, here) else forward_sealed_block me buf here

  forward_text : ℕ → ℕ → ℕ → Server State → Run (ℕ × Server State)
  unfolding relay
  forward_text sd me size s = do
    p ← port_of (s.ports sd)
    fresh ← allocated (malloc (8 * (size + 4)))
    with_length ← poke fresh 0 (htonl size)
    let r = insist_read size p
    buf ← poke with_length 4 r.1
    gone ← went_away r.0
    let here = record s { ports = update s.ports sd (some r.2) }
    if gone then ok (1, here) else relay buf size me here

  forward_clear : ℕ → ℕ → Server State → Run (ℕ × Server State)
  unfolding forward_text
  forward_clear sd me s = do
    p ← port_of (s.ports sd)
    let r = insist_read 4 p
    gone ← went_away r.0
    let here = record s { ports = update s.ports sd (some r.2) }
    if gone then ok (1, here) else forward_text sd me (ntohl r.1) here

  -- forward(sd, me): 1 if the client went away
  unfoldable pub forward : ℕ → ℕ → Server State → Run (ℕ × Server State)
  unfolding forward_sealed forward_clear
  forward sd me s = if encrypted then forward_sealed sd me s else forward_clear sd me s

-- ===== src/Chat/Client/Receive.antt =====
-- get_and_print: what a message on the wire shows on the terminal.
use cryptodev_chat.Common.{
  append_assoc, ne→==-false, eq→==, Bool, false, ℕ, ◌^◌, ◌≤◌, ◌<◌, ◌≡◌, refl, ap, ◌∙◌, List, [],
  ◌∷◌, ◌++◌, some, pos, length, drop, arith,
}
use native.Mathlib.Nat.{mod-eq_of_lt}
use cryptodev_chat.Io.{Port, Steady, insist_read, insist_write}
use cryptodev_chat.Io.Calm.{insist_read-short, Sent, Took, insist_read-front}
use cryptodev_chat.Cryptodev.{Cryptodev}
use cryptodev_chat.Run.{ok, faults}
use cryptodev_chat.Chat.Buffer.{peek, peek_front_append, poke_front, poke_overruns}
use cryptodev_chat.Chat.Word.{htonl, ntohl, ntohl-htonl, length-htonl}
use cryptodev_chat.Chat.Cipher.{Frame}
use cryptodev_chat.Chat.Client.{World, buff_size, get_and_print, print_message}
use cryptodev_chat.Chat.Client.Frames.{message}
use cryptodev_chat.Chat.Client.Send.{send-Sent}

-- What print_message does with a text that stands in the buffer at `off`.
module _ (d : Cryptodev) (frame : Frame) (encrypted : Bool) where
  open d use {State}

  print_message-Sent :
      (buf : List ℕ) (off size : ℕ) (text : List ℕ) (w : World State)
      → peek buf off size ≡ ok text
      → Steady w.term.turns
      → print_message d frame encrypted buf off size w
        ≡ ok (0, record w { term = (insist_write text w.term).1; buf = buf })
  unfolding print_message
  print_message-Sent buf off size text w e st = rw (e, (send-Sent text w.term st).0) refl

no_text : (text buf : List ℕ) → length text ≡ 0 → text ++ drop (length text) buf ≡ buf
no_text [] buf h = refl
no_text (x ∷ xs) buf h = absurd (omega arith)

-- The four bytes in front of a text give its length.
pub header-Took :
    (text rest : List ℕ) (p : Port)
    → p.incoming ≡ message text ++ rest
    → length text < 2 ^ 32
    → Steady p.turns
    → ((insist_read 4 p).0 ≡ some (pos 4))
      × (ntohl (insist_read 4 p).1 ≡ length text)
      × Took p (text ++ rest) (insist_read 4 p).2
header-Took text rest p e short st =
    let r =
      insist_read-front (htonl (length text)) (text ++ rest) 4 p (length-htonl _)
        (e ∙ append_assoc (htonl (length text)) text rest) st in
    (r.0, ap ntohl r.1 ∙ ntohl-htonl (length text) ∙ mod-eq_of_lt short, r.2)

module _ (d : Cryptodev) (frame : Frame) (w : World d.State) (text rest : List ℕ)
    (size : length w.buf ≡ buff_size) (arrives : w.sock.incoming ≡ message text ++ rest)
    (calm : Steady w.sock.turns) (short : length text < 2 ^ 32) where
  abbrev first : Port
  first = (insist_read 4 w.sock).2

  abbrev second : Port
  second = (insist_read (length text) first).2

  h₁ :
      ((insist_read 4 w.sock).0 ≡ some (pos 4))
      × (ntohl (insist_read 4 w.sock).1 ≡ length text)
      × Took w.sock (text ++ rest) first
  h₁ = header-Took text rest w.sock arrives short calm

  h₂ :
      ((insist_read (length text) first).0 ≡ some (pos (length text)))
      × ((insist_read (length text) first).1 ≡ text)
      × Took first rest second
  h₂ = insist_read-front text rest (length text) first refl h₁.2.incoming h₁.2.steady

  -- A message of 1 to 300 bytes is shown on the terminal as it is, and taken off the stream.
  pub get_and_print-message :
      0 < length text
      → length text ≤ buff_size
      → Steady w.term.turns
      → (sock term : Port) × (get_and_print d frame false w
          ≡ ok (0, record w { sock = sock; term = term; buf = text ++ drop (length text) w.buf }))
        × Took w.sock rest sock
        × Sent w.term text term
  unfolding get_and_print
  get_and_print-message some_text fits st = (
    second,
    (insist_write text w.term).1,
    rw
        (
          h₁.0,
          h₁.1,
          h₂.0,
          h₂.1,
          poke_front w.buf text (length text) refl (omega arith),
          ne→==-false (length text) 0 (omega arith),
        )
        (rw
          (
            peek_front_append text (drop (length text) w.buf) (length text) refl,
            (send-Sent text w.term st).0,
          )
          refl),
    record {
      incoming = h₂.2.incoming;
      outgoing = h₂.2.outgoing ∙ h₁.2.outgoing;
      steady = h₂.2.steady;
    },
    (send-Sent text w.term st).1,
  )

  -- Without encryption and where no read fails, a message of more than 300 and less than 2^32 bytes
  -- is stored behind the end of the array.
  pub get_and_print-faults : buff_size < length text → get_and_print d frame false w ≡ faults
  unfolding get_and_print
  get_and_print-faults long = rw (h₁.0, h₁.1, h₂.1, poke_overruns w.buf 0 text (omega arith)) refl

  -- Without encryption and where no read fails, a message with no text reads as if the peer had gone
  -- away: get_and_print returns 1, takes the message off the stream and changes nothing else.
  pub get_and_print-empty :
      length text ≡ 0
      → (sock : Port) × (get_and_print d frame false w ≡ ok (1, record w { sock = sock }))
        × Took w.sock rest sock
  unfolding get_and_print
  get_and_print-empty empty = (
    second,
    rw
        (
          h₁.0,
          h₁.1,
          h₂.0,
          h₂.1,
          poke_front w.buf text (length text) refl (omega arith),
          eq→== (length text) 0 empty,
        )
        (ap (λ b. ok (1, record w { sock = second; buf = b })) (no_text text w.buf empty)),
    record {
      incoming = h₂.2.incoming;
      outgoing = h₂.2.outgoing ∙ h₁.2.outgoing;
      steady = h₂.2.steady;
    },
  )

-- At the end of the stream get_and_print returns 1 and changes nothing but the connection, which has
-- been sent what it had been sent.
pub get_and_print-closed :
    (d : Cryptodev) (frame : Frame) (w : World d.State)
    → w.sock.incoming ≡ []
    → Steady w.sock.turns
    → (q : Port) × (get_and_print d frame false w ≡ ok (1, record w { sock = q }))
      × (q.outgoing ≡ w.sock.outgoing)
unfolding get_and_print
get_and_print-closed d frame w over st =
    let (e, b, o) = insist_read-short 4 w.sock st (omega (arith, ap length over)) in
    ((insist_read 4 w.sock).2, rw e refl, o)

-- ===== src/Chat/Client/Session/Sealed.antt =====
-- A conversation with --encrypted: any number of lines, one after the other.
use cryptodev_chat.Common.{
  ℕ, ◌+◌, ◌≤◌, ◌≡◌, refl, sym, ap, ◌∙◌, List, [], ◌∷◌, ◌++◌, map, true, length, arith, append_assoc,
  append-nil,
}
use cryptodev_chat.Io.{Steady}
use cryptodev_chat.Run.{ok}
use cryptodev_chat.Cryptodev.{Cryptodev}
use cryptodev_chat.Cryptodev.Service.{BlockCipher, Service}
use cryptodev_chat.Chat.Cipher.{Frame, data_size, fixed_key, fixed_iv}
use cryptodev_chat.Chat.Cipher.Laws.{padded}
use cryptodev_chat.Chat.Client.{World, buff_size}
use cryptodev_chat.Chat.Client.Frames.{message, message_text, length-message_text}
use cryptodev_chat.Chat.Client.Sealed.{my_rlhandler-sealed, get_and_print-sealed}
use cryptodev_chat.Chat.Client.Delivery.{connect, AtRest}
use cryptodev_chat.Chat.Client.Session.{round, rounds}
use cryptodev_chat.Chat.Client.Session.Rounds.{Line, typed, typing, arriving, texts}

module _ (prompt : List ℕ) where
  -- Each line fits a block of 256 bytes with its prompt.
  unfoldable pub FitsBlock : List Line → Type 0
  FitsBlock [] = Unit {0}
  FitsBlock (l ∷ ls) = (length (typed l) + length prompt + 5 ≤ data_size) × FitsBlock ls

  -- The blocks that carry the lines.
  sealed_messages : BlockCipher → List Line → List ℕ
  sealed_messages c [] = []
  sealed_messages c (l ∷ ls) =
      c.seal fixed_key fixed_iv (padded (message (message_text prompt (typed l))))
      ++ sealed_messages c ls

  module _ (d : Cryptodev) (c : BlockCipher) (v : Service d c) (frame : Frame)
      (fresh : List ℕ) where
    open d use {State}

    rounds-sealing :
        (ls : List Line) (w : World State)
        → length fresh ≡ buff_size
        → FitsBlock ls
        → Steady w.sock.turns
        → (w' : World State) × (rounds d frame true fresh prompt (map typing ls) w ≡ ok (0, w'))
          × (w'.sock.outgoing ≡ w.sock.outgoing ++ sealed_messages c ls)
    unfolding rounds sealed_messages FitsBlock round
    rounds-sealing [] w size fits st = (w, refl, sym (append-nil w.sock.outgoing))
    rounds-sealing (l ∷ ls) w size (fit, fits) st =
        let (dev, q, sent, wire) =
          my_rlhandler-sealed d c v frame fresh prompt l.0 l.1 w size st fit in
        let (w', rest, out) =
          rounds-sealing ls (record w { dev = dev; sock = q }) size fits wire.steady in
        (w', rw (sent, rest) refl, out ∙ rw (wire.outgoing, append_assoc) refl)

    rounds-unsealing :
        (own_prompt : List ℕ) (ls : List Line) (w : World State)
        → FitsBlock ls
        → length w.buf ≡ buff_size
        → w.sock.incoming ≡ sealed_messages c ls
        → Steady w.sock.turns
        → Steady w.term.turns
        → (w' : World State) × (rounds d frame true fresh own_prompt (map arriving ls) w
            ≡ ok (0, w'))
          × (w'.term.outgoing ≡ w.term.outgoing ++ texts prompt ls)
          × (w'.sock.incoming ≡ [])
    unfolding rounds sealed_messages texts FitsBlock round
    rounds-unsealing own_prompt [] w fits buf_size arrives st shows =
        (w, refl, sym (append-nil w.term.outgoing), arrives)
    rounds-unsealing own_prompt (l ∷ ls) w (fit, fits) buf_size arrives st shows =
        let text = message_text prompt (typed l) in
        let long = length-message_text prompt (typed l) in
        let (dev, sock, term, buf, received, took, shown, buf_size') =
          get_and_print-sealed d c v frame w text (sealed_messages c ls) buf_size arrives st
            (omega arith) shows in
        let (w', rest, out, left) =
          rounds-unsealing own_prompt ls (record { dev = dev; sock = sock; term = term; buf = buf })
            fits buf_size' took.incoming took.steady shown.steady in
        (w', rw (received, rest) refl, out ∙ rw (shown.outgoing, append_assoc) refl, left)

  -- With --encrypted at both ends, over devices on which no call fails and whose cipher is the same,
  -- and streams on which no call fails: any number of lines that are not empty and fit 256 bytes with
  -- the prompt are shown at the other end in the order in which they were typed, each behind the
  -- prompt and before a newline, and nothing stays on the wire.
  pub rounds-Sealed :
      (d : Cryptodev) (frame : Frame) (e : Cryptodev) (frame' : Frame) (fresh prompt' : List ℕ)
      (ls : List Line) (w : World d.State) (u : World e.State) (c : BlockCipher)
      → Service d c
      → Service e c
      → AtRest fresh w u
      → FitsBlock ls
      → (w' : World d.State) × (u' : World e.State) × (rounds d frame true fresh prompt
            (map typing ls)
            w
          ≡ ok (0, w'))
        × (rounds e frame' true fresh prompt' (map arriving ls) (connect u w'.sock) ≡ ok (0, u'))
        × (u'.term.outgoing ≡ u.term.outgoing ++ texts prompt ls)
        × (u'.sock.incoming ≡ [])
  rounds-Sealed d frame e frame' fresh prompt' ls w u c v v' rest fits =
      let (w', sent, out) =
        rounds-sealing d c v frame fresh ls w rest.malloc_size fits rest.sends in
      let (u', received, shown, left) =
        rounds-unsealing e c v' frame' fresh prompt' ls (connect u w'.sock) fits rest.buf_size
          (out ∙ ap (λ b. b ++ sealed_messages c ls) rest.empty_wire) rest.receives rest.shows in
      (w', u', sent, received, shown, left)

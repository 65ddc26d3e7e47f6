-- ===== src/Chat/Client/Session/Rounds.antt =====
-- A conversation without --encrypted: any number of lines, one after the other.
use cryptodev_chat.Common.{
  ℕ, ◌+◌, ◌≤◌, ◌≡◌, refl, sym, ap, ◌∙◌, List, [], ◌∷◌, ◌++◌, map, some, none, false, true, length,
  drop, arith, append_assoc, append-nil, length-append, length-drop,
}
use cryptodev_chat.Io.{Port, Steady}
use cryptodev_chat.Io.Calm.{Sent, Took}
use cryptodev_chat.Run.{ok}
use cryptodev_chat.Cryptodev.{Cryptodev}
use cryptodev_chat.Chat.Cipher.{Frame}
use cryptodev_chat.Chat.Client.{World, buff_size}
use cryptodev_chat.Chat.Client.Frames.{message, message_text, length-message_text}
use cryptodev_chat.Chat.Client.Send.{my_rlhandler-message}
use cryptodev_chat.Chat.Client.Receive.{get_and_print-message}
use cryptodev_chat.Chat.Client.Delivery.{connect, AtRest}
use cryptodev_chat.Chat.Client.Session.{Round, ready, round, rounds}

-- A line that was typed: its first byte and the others.
abbrev pub Line : Type 0
Line = ℕ × List ℕ

abbrev pub typed : Line → List ℕ
typed (c, cs) = c ∷ cs

abbrev pub typing : Line → Round
typing l = ready (some (some (typed l))) false

abbrev pub arriving : Line → Round
arriving l = ready none true

module _ (prompt : List ℕ) where
  -- The texts of the lines, one behind the other, and the messages that carry them.
  unfoldable pub texts : List Line → List ℕ
  texts [] = []
  texts (l ∷ ls) = message_text prompt (typed l) ++ texts ls

  unfoldable pub messages : List Line → List ℕ
  messages [] = []
  messages (l ∷ ls) = message (message_text prompt (typed l)) ++ messages ls

  unfoldable pub Fits : List Line → Type 0
  Fits [] = Unit {0}
  Fits (l ∷ ls) = (length (typed l) + length prompt + 5 ≤ buff_size) × Fits ls

  module _ (d : Cryptodev) (frame : Frame) (fresh : List ℕ) (size : length fresh ≡ buff_size) where
    open d use {State}

    pub rounds-typing :
        (ls : List Line) (w : World State)
        → Fits ls
        → Steady w.sock.turns
        → (q : Port) × (rounds d frame false fresh prompt (map typing ls) w
            ≡ ok (0, record w { sock = q }))
          × Sent w.sock (messages ls) q
    unfolding rounds messages Fits round
    rounds-typing [] w fits st = (
      w.sock,
      refl,
      record { outgoing = sym (append-nil w.sock.outgoing); incoming = refl; steady = st },
    )
    rounds-typing (l ∷ ls) w (fit, fits) st =
        let (q, sent, wire) = my_rlhandler-message d frame fresh prompt size l.0 l.1 w st fit in
        let (q', rest, wire') = rounds-typing ls (record w { sock = q }) fits wire.steady in
        (
          q',
          rw (sent, rest) refl,
          record {
            outgoing = wire'.outgoing ∙ rw (wire.outgoing, append_assoc) refl;
            incoming = wire'.incoming ∙ wire.incoming;
            steady = wire'.steady;
          },
        )

    pub rounds-arriving :
        (own_prompt : List ℕ) (ls : List Line) (w : World State)
        → Fits ls
        → length w.buf ≡ buff_size
        → w.sock.incoming ≡ messages ls
        → Steady w.sock.turns
        → Steady w.term.turns
        → (w' : World State) × (rounds d frame false fresh own_prompt (map arriving ls) w
            ≡ ok (0, w'))
          × Sent w.term (texts ls) w'.term
          × Took w.sock [] w'.sock
          × (length w'.buf ≡ buff_size)
    unfolding rounds messages texts Fits round
    rounds-arriving own_prompt [] w fits buf_size arrives st shows = (
      w,
      refl,
      record { outgoing = sym (append-nil w.term.outgoing); incoming = refl; steady = shows },
      record { incoming = arrives; outgoing = refl; steady = st },
      buf_size,
    )
    rounds-arriving own_prompt (l ∷ ls) w (fit, fits) buf_size arrives st shows =
        let text = message_text prompt (typed l) in
        let long = length-message_text prompt (typed l) in
        let (sock, term, received, took, shown) =
          get_and_print-message d frame w text (messages ls) buf_size arrives st (omega arith)
            (omega arith) (omega arith) shows in
        let buf : List ℕ = text ++ drop (length text) w.buf in
        let buf_size' : length buf ≡ buff_size =
          omega (
            arith,
            length-append text (drop (length text) w.buf),
            length-drop (length text) w.buf,
          ) in
        let (w', rest, out, left, long') =
          rounds-arriving own_prompt ls (record w { sock = sock; term = term; buf = buf }) fits
            buf_size' took.incoming took.steady shown.steady in
        (
          w',
          rw (received, rest) refl,
          record {
            outgoing = out.outgoing ∙ rw (shown.outgoing, append_assoc) refl;
            incoming = out.incoming ∙ shown.incoming;
            steady = out.steady;
          },
          record {
            incoming = left.incoming;
            outgoing = left.outgoing ∙ took.outgoing;
            steady = left.steady;
          },
          long',
        )

  -- In clear, over streams on which no call fails, any number of lines that are not empty and fit 300
  -- bytes with the prompt are shown at the other end in the order in which they were typed, each
  -- behind the prompt and before a newline, and nothing stays on the wire.
  pub rounds-Delivered :
      (d : Cryptodev) (frame : Frame) (e : Cryptodev) (frame' : Frame) (fresh prompt' : List ℕ)
      (ls : List Line) (w : World d.State) (u : World e.State)
      → AtRest fresh w u
      → Fits ls
      → (w' : World d.State) × (u' : World e.State) × (rounds d frame false fresh prompt
            (map typing ls)
            w
          ≡ ok (0, w'))
        × (rounds e frame' false fresh prompt' (map arriving ls) (connect u w'.sock) ≡ ok (0, u'))
        × (u'.term.outgoing ≡ u.term.outgoing ++ texts ls)
        × (u'.sock.incoming ≡ [])
  rounds-Delivered d frame e frame' fresh prompt' ls w u rest fits =
      let (q, sent, wire) = rounds-typing d frame fresh rest.malloc_size ls w fits rest.sends in
      let (u', received, shown, left, long) =
        rounds-arriving e frame' fresh rest.malloc_size prompt' ls (connect u q) fits rest.buf_size
          (wire.outgoing ∙ ap (λ b. b ++ messages ls) rest.empty_wire) rest.receives rest.shows in
      (_, u', sent, received, shown.outgoing, left.incoming)

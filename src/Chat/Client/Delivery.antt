-- ===== src/Chat/Client/Delivery.antt =====
-- A line typed at one end is what the other end shows.
use cryptodev_chat.Common.{
  true, false, ℕ, ◌+◌, ◌≤◌, ◌≡◌, sym, ◌∙◌, List, [], ◌∷◌, ◌++◌, some, length, arith, append-nil,
}
use cryptodev_chat.Io.{Port, Steady}
use cryptodev_chat.Cryptodev.{Cryptodev}
use cryptodev_chat.Cryptodev.Service.{BlockCipher, Service}
use cryptodev_chat.Run.{Run, ok}
use cryptodev_chat.Chat.Cipher.{Frame, data_size}
use cryptodev_chat.Chat.Client.{World, buff_size, my_rlhandler, get_and_print}
use cryptodev_chat.Chat.Client.Frames.{message, message_text, length-message_text}
use cryptodev_chat.Chat.Client.Send.{my_rlhandler-message}
use cryptodev_chat.Chat.Client.Receive.{get_and_print-message}
use cryptodev_chat.Chat.Client.Sealed.{my_rlhandler-sealed, get_and_print-sealed, sealed_message}

-- The receiver `u` once the bytes that the sender has written arrive on its connection.
abbrev pub connect : {S : Type 0} → World S → Port → World S
connect u p = record u { sock = record u.sock { incoming = p.outgoing } }

-- Both ends are at rest: nothing on the wire, arrays of the declared size, no call that fails.
pub record AtRest {S T : Type 0} (fresh : List ℕ) (w : World S) (u : World T) : Type 0 where
  pub malloc_size : length fresh ≡ buff_size
  pub buf_size : length u.buf ≡ buff_size
  pub empty_wire : w.sock.outgoing ≡ []
  pub sends : Steady w.sock.turns
  pub receives : Steady u.sock.turns
  pub shows : Steady u.term.turns

-- The sender returns, the receiver returns 0, its terminal shows the text and nothing is left over.
pub record Delivered {S T : Type 0} (send : World S → Run (World S))
    (receive : World T → Run (ℕ × World T)) (text : List ℕ) (w : World S) (u : World T)
    : Type 0 where
  pub sender : World S
  pub receiver : World T
  pub sent : send w ≡ ok sender
  pub received : receive (connect u sender.sock) ≡ ok (0, receiver)
  pub shown : receiver.term.outgoing ≡ u.term.outgoing ++ text
  pub consumed : receiver.sock.incoming ≡ []

module _ (d : Cryptodev) (frame : Frame) (e : Cryptodev) (frame' : Frame) (fresh prompt : List ℕ)
    (c : ℕ) (cs : List ℕ) (w : World d.State) (u : World e.State) (rest : AtRest fresh w u) where
  -- In clear, from two ends at rest, a line that is not empty and fits the buffer of 300 bytes with
  -- its prompt is sent, received and shown at the other end behind the prompt and before a newline,
  -- however the stream is cut; nothing stays on the wire.
  pub delivery-clear :
      length (c ∷ cs) + length prompt + 5 ≤ buff_size
      → Delivered
          (my_rlhandler d frame false fresh prompt (some (c ∷ cs)))
          (get_and_print e frame' false)
          (message_text prompt (c ∷ cs))
          w
          u
  delivery-clear fits =
      let text = message_text prompt (c ∷ cs) in
      let long = length-message_text prompt (c ∷ cs) in
      let (q, sent, wire) =
        my_rlhandler-message d frame fresh prompt rest.malloc_size c cs w rest.sends fits in
      let arrives : q.outgoing ≡ message text ++ [] =
        wire.outgoing ∙ rw rest.empty_wire (sym (append-nil (message text))) in
      let (sock, term, received, took, shown) =
        get_and_print-message e frame' (connect u q) text [] rest.buf_size arrives rest.receives
          (omega arith) (omega arith) (omega arith) rest.shows in
      record {
        sender = _;
        receiver = _;
        sent = sent;
        received = received;
        shown = shown.outgoing;
        consumed = took.incoming;
      }

  -- With --encrypted at both ends, from two ends at rest and over devices on which no call fails and
  -- whose cipher is the same, a line that is not empty and fits 256 bytes with its prompt is sent,
  -- received and shown at the other end behind the prompt and before a newline; nothing stays on
  -- the wire.
  pub delivery-sealed :
      (k : BlockCipher)
      → Service d k
      → Service e k
      → length (c ∷ cs) + length prompt + 5 ≤ data_size
      → Delivered
          (my_rlhandler d frame true fresh prompt (some (c ∷ cs)))
          (get_and_print e frame' true)
          (message_text prompt (c ∷ cs))
          w
          u
  delivery-sealed k v v' fits =
      let text = message_text prompt (c ∷ cs) in
      let long = length-message_text prompt (c ∷ cs) in
      let (dev, q, sent, wire) =
        my_rlhandler-sealed d k v frame fresh prompt c cs w rest.malloc_size rest.sends fits in
      let arrives : q.outgoing ≡ sealed_message e k v' frame' text ++ [] =
        wire.outgoing ∙ rw rest.empty_wire (sym (append-nil (sealed_message e k v' frame' text))) in
      let (dev', sock, term, buf, received, took, shown, long') =
        get_and_print-sealed e k v' frame' (connect u q) text [] rest.buf_size arrives rest.receives
          (omega arith) rest.shows in
      record {
        sender = _;
        receiver = _;
        sent = sent;
        received = received;
        shown = shown.outgoing;
        consumed = took.incoming;
      }

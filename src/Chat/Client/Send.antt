-- ===== src/Chat/Client/Send.antt =====
-- my_rlhandler: what a typed line puts on the wire.
use cryptodev_chat.Common.{
  Bool, false, ℕ, ◌+◌, ◌≤◌, ◌<◌, ◌≡◌, refl, List, ◌∷◌, some, length, arith, eq→==,
}
use cryptodev_chat.Io.{Port, Steady, insist_write}
use cryptodev_chat.Io.Calm.{Sent, insist_write-Sent}
use cryptodev_chat.Cryptodev.{Cryptodev}
use cryptodev_chat.Run.{ok, faults}
use cryptodev_chat.Chat.Buffer.{peek_front_append}
use cryptodev_chat.Chat.Cipher.{Frame}
use cryptodev_chat.Chat.Client.{World, buff_size, send, my_rlhandler}
use cryptodev_chat.Chat.Client.Frames.{
  message, message_text, length-message, length-message_text, format_message-message,
  format_message-faults,
}

-- Where no write fails, all the bytes are appended.
pub send-Sent :
    (bytes : List ℕ) (p : Port)
    → Steady p.turns
    → (send bytes p ≡ ok (insist_write bytes p).1) × Sent p bytes (insist_write bytes p).1
unfolding send
send-Sent bytes p st =
    let w = insist_write-Sent bytes p st in
    (rw (w.0, eq→== (length bytes) (length bytes) refl) refl, w.1)

module _ (d : Cryptodev) (frame : Frame) (fresh prompt : List ℕ)
    (size : length fresh ≡ buff_size) where
  -- Without encryption a line that fits the buffer puts its message on the wire, byte for byte, and
  -- changes nothing else.
  pub my_rlhandler-message :
      (c : ℕ) (cs : List ℕ) (w : World d.State)
      → Steady w.sock.turns
      → length (c ∷ cs) + length prompt + 5 ≤ buff_size
      → (q : Port) × (my_rlhandler d frame false fresh prompt (some (c ∷ cs)) w
          ≡ ok (record w { sock = q }))
        × Sent w.sock (message (message_text prompt (c ∷ cs))) q
  unfolding my_rlhandler
  my_rlhandler-message c cs w st fits =
      let line : List ℕ = c ∷ cs in
      let (rest, formatted, left) = format_message-message fresh prompt line size fits in
      let bytes = message (message_text prompt line) in
      (
        _,
        rw
            (
              formatted,
              peek_front_append bytes rest (length line + length prompt + 4 + 1) (
                  omega (
                    arith,
                    length-message (message_text prompt line),
                    length-message_text prompt line,
                  )),
              (send-Sent bytes w.sock st).0,
            )
            refl,
        (send-Sent bytes w.sock st).1,
      )

  -- A line that is not empty and does not fit the 300 bytes of the buffer with its prompt and the
  -- five bytes around them is stored behind the end of the buffer, encrypted or not.
  pub my_rlhandler-faults :
      (encrypted : Bool) (c : ℕ) (cs : List ℕ) (w : World d.State)
      → buff_size < length (c ∷ cs) + length prompt + 5
      → my_rlhandler d frame encrypted fresh prompt (some (c ∷ cs)) w ≡ faults
  unfolding my_rlhandler
  my_rlhandler-faults encrypted c cs w over =
      rw (format_message-faults fresh prompt (c ∷ cs) size over) refl

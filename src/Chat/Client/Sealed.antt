-- ===== src/Chat/Client/Sealed.antt =====
-- my_rlhandler and get_and_print with --encrypted, over a device on which no call fails.
use cryptodev_chat.Common.{
  true, ℕ, ◌+◌, ◌-◌, ◌≤◌, ◌≡◌, refl, ◌∙◌, List, ◌∷◌, ◌++◌, some, length, drop, replicate, arith,
  append_assoc, length-replicate, length-drop, length-append, take-append, drop-append,
}
use native.Mathlib.Nat.{mod-eq_of_lt}
use cryptodev_chat.Io.{Port, Steady, insist_read, insist_write}
use cryptodev_chat.Io.Calm.{Sent, Took, insist_read-front}
use cryptodev_chat.Cryptodev.{Cryptodev, cop_encrypt, cop_decrypt}
use cryptodev_chat.Cryptodev.Service.{BlockCipher, Service}
use cryptodev_chat.Run.{ok}
use cryptodev_chat.Chat.Buffer.{peek, peek_front_append, peek_middle, poke_front}
use cryptodev_chat.Chat.Word.{htonl, ntohl, ntohl-htonl, length-htonl}
use cryptodev_chat.Chat.Cipher.{Frame, data_size, fixed_key, fixed_iv}
use cryptodev_chat.Chat.Cipher.Laws.{closed, padded, length-padded, encrypt-seals, decrypt-unseals}
use cryptodev_chat.Chat.Client.{World, buff_size, my_rlhandler, get_and_print}
use cryptodev_chat.Chat.Client.Frames.{
  message, message_text, length-message, length-message_text, format_message-message,
}
use cryptodev_chat.Chat.Client.Send.{send-Sent}

module _ (d : Cryptodev) (c : BlockCipher) (v : Service d c) (frame : Frame) where
  -- The 256 bytes that stand for a text on the wire.
  abbrev pub sealed_message : List ℕ → List ℕ
  sealed_message text = c.seal fixed_key fixed_iv (padded (message text))

  pub length-sealed_message :
      (text : List ℕ) → length text + 4 ≤ data_size → length (sealed_message text) ≡ data_size
  length-sealed_message text h =
      let size : length (padded (message text)) ≡ data_size =
        length-padded (message text) (omega (arith, length-message text)) in
      c.length-seal fixed_key fixed_iv (padded (message text)) (omega arith) ∙ size

  -- With encryption a line whose message has at most 256 bytes leaves as one block of 256 bytes, the
  -- ciphertext of the message filled up with '0'.
  pub my_rlhandler-sealed :
      (fresh prompt : List ℕ) (b : ℕ) (bs : List ℕ) (w : World d.State)
      → length fresh ≡ buff_size
      → Steady w.sock.turns
      → length (b ∷ bs) + length prompt + 5 ≤ data_size
      → (dev : d.State) × (q : Port) × (my_rlhandler d frame true fresh prompt (some (b ∷ bs)) w
          ≡ ok (record w { dev = dev; sock = q }))
        × Sent w.sock (sealed_message (message_text prompt (b ∷ bs))) q
  unfolding my_rlhandler
  my_rlhandler-sealed fresh prompt b bs w size st fits =
      let line : List ℕ = b ∷ bs in
      let text : List ℕ = message_text prompt line in
      let n : ℕ = length line + length prompt + 4 + 1 in
      let (rest, formatted, left) = format_message-message fresh prompt line size (omega arith) in
      let long : length (message text) ≡ n =
        omega (arith, length-message text, length-message_text prompt line) in
      let block : List ℕ = sealed_message text in
      let whole : length block ≡ data_size =
        length-sealed_message text (omega (arith, length-message text)) in
      let sent = send-Sent block w.sock st in
      let roomy : data_size ≤ length (message text ++ rest) =
        omega (arith, length-append (message text) rest) in
      (
        (closed d frame cop_encrypt (padded (message text)) w.dev).1,
        (insist_write block w.sock).1,
        rw
            (
              formatted,
              encrypt-seals d c v frame (message text ++ rest) n w.dev (omega arith) roomy,
              take-append n (message text) rest long,
              peek_front_append block (drop data_size (message text ++ rest)) data_size whole,
              sent.0,
            )
            refl,
        sent.1,
      )

module _ (d : Cryptodev) (c : BlockCipher) (v : Service d c) (frame : Frame) (w : World d.State)
    (text rest : List ℕ) (size : length w.buf ≡ buff_size)
    (arrives : w.sock.incoming ≡ sealed_message d c v frame text ++ rest)
    (calm : Steady w.sock.turns) (fits : length text + 4 ≤ data_size) where
  -- With encryption a message of at most 256 bytes is deciphered and its text shown on the terminal.
  pub get_and_print-sealed :
      Steady w.term.turns
      → (dev : d.State) × (sock term : Port) × (buf : List ℕ) × (get_and_print d frame true w
          ≡ ok (0, record { dev = dev; sock = sock; term = term; buf = buf }))
        × Took w.sock rest sock
        × Sent w.term text term
        × (length buf ≡ buff_size)
  unfolding get_and_print
  get_and_print-sealed st =
      let block : List ℕ = sealed_message d c v frame text in
      let whole : length block ≡ data_size = length-sealed_message d c v frame text fits in
      let full : length (padded (message text)) ≡ data_size =
        length-padded (message text) (omega (arith, length-message text)) in
      let r = insist_read-front block rest data_size w.sock whole arrives calm in
      let tail : List ℕ = drop data_size w.buf in
      let sent = send-Sent text w.term st in
      let zeros : List ℕ = replicate (data_size - length (message text)) b'0' in
      let back : List ℕ = zeros ++ tail in
      let regroup : padded (message text) ++ tail ≡ htonl (length text) ++ text ++ back =
        simp append_assoc in
      let regroup' : htonl (length text) ++ text ++ back ≡ htonl (length text) ++ (text ++ back) =
        append_assoc (htonl (length text)) text back in
      let head : peek (htonl (length text) ++ text ++ back) 0 4 ≡ ok (htonl (length text)) =
        rw regroup' (peek_front_append (htonl (length text)) (text ++ back) 4 (length-htonl _)) in
      let length_read : ntohl (htonl (length text)) ≡ length text =
        ntohl-htonl (length text) ∙ mod-eq_of_lt (omega arith) in
      (
        (closed d frame cop_decrypt block w.dev).1,
        (insist_read data_size w.sock).2,
        (insist_write text w.term).1,
        htonl (length text) ++ text ++ back,
        rw
            (
              r.0,
              r.1,
              poke_front w.buf block data_size whole (omega arith),
              decrypt-unseals d c v frame (block ++ tail) w.dev
                  (omega (arith, length-append block tail)),
              take-append data_size block tail whole,
              drop-append data_size block tail whole,
              c.unseal-seal fixed_key fixed_iv (padded (message text)) (omega (arith, full)),
              regroup,
              head,
              length_read,
              peek_middle (htonl (length text)) text back 4 (length text) (length-htonl _) refl,
              sent.0,
            )
            refl,
        r.2,
        sent.1,
        omega (
          arith,
          size,
          length-append (htonl (length text) ++ text) back,
          length-append (htonl (length text)) text,
          length-htonl (length text),
          length-append zeros tail,
          length-replicate {A = ℕ} (data_size - length (message text)) b'0',
          length-message text,
          length-drop data_size w.buf,
        ),
      )

-- ===== src/Chat/Client/Overrun.antt =====
-- my_rlhandler with --encrypted: a message that fits the 300 bytes of full_message, and not the 256 of
-- data.in.
use cryptodev_chat.Common.{
  ℕ, ◌+◌, ◌≤◌, ◌<◌, ◌≡◌, refl, List, ◌∷◌, ◌++◌, some, true, length, take, replicate, arith,
  length-take, length-append, length-replicate,
}
use cryptodev_chat.Run.{faults}
use cryptodev_chat.Cryptodev.{Cryptodev}
use cryptodev_chat.Cryptodev.Service.{BlockCipher, Service}
use cryptodev_chat.Chat.Buffer.{peek_front, poke_overruns}
use cryptodev_chat.Chat.Cipher.{Frame, data_size, fill_input, encrypt}
use cryptodev_chat.Chat.Cipher.Laws.{passes}
use cryptodev_chat.Chat.Client.{World, buff_size, my_rlhandler}
use cryptodev_chat.Chat.Client.Frames.{
  message, message_text, length-message, length-message_text, format_message-message,
}

fill_input-faults :
    (buffer : List ℕ) (n : ℕ) → n ≤ length buffer → data_size < n → fill_input buffer n ≡ faults
unfolding fill_input
fill_input-faults buffer n fits over = rw (peek_front buffer n fits) (
    poke_overruns (replicate data_size b'0') 0 (take n buffer)
      (omega (arith, length-take n buffer, length-replicate {A = ℕ} data_size b'0')))

module _ (d : Cryptodev) (k : BlockCipher) (v : Service d k) (frame : Frame) where
  encrypt-faults :
      (buffer : List ℕ) (n : ℕ) (s : d.State)
      → n ≤ length buffer
      → data_size < n
      → encrypt d frame buffer n s ≡ faults
  unfolding encrypt
  encrypt-faults buffer n s fits over =
      let p =
        passes d k v frame 0 (replicate data_size 0) s (length-replicate {A = ℕ} data_size 0) in
      rw (p.opens, p.gets, fill_input-faults buffer n fits over) refl

  -- With --encrypted and a device on which no call fails, a line that fits the 300 bytes of the buffer
  -- with its prompt and makes a message of more than 256 bytes is copied behind the end of data.in.
  pub my_rlhandler-overruns :
      (fresh prompt : List ℕ) (c : ℕ) (cs : List ℕ) (w : World d.State)
      → length fresh ≡ buff_size
      → length (c ∷ cs) + length prompt + 5 ≤ buff_size
      → data_size < length (c ∷ cs) + length prompt + 5
      → my_rlhandler d frame true fresh prompt (some (c ∷ cs)) w ≡ faults
  unfolding my_rlhandler
  my_rlhandler-overruns fresh prompt c cs w size fits over =
      let line : List ℕ = c ∷ cs in
      let (rest, formatted, left) = format_message-message fresh prompt line size fits in
      let bytes = message (message_text prompt line) in
      rw
        (
          formatted,
          encrypt-faults (bytes ++ rest) (length line + length prompt + 4 + 1) w.dev
              (omega (
                arith,
                length-append bytes rest,
                length-message (message_text prompt line),
                length-message_text prompt line,
              ))
              (omega arith),
        )
        refl

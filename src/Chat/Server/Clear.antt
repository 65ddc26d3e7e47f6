-- ===== src/Chat/Server/Clear.antt =====
-- forward without --encrypted.
use cryptodev_chat.Common.{
  update-update, update_self, ℕ, ◌+◌, ◌*◌, ◌-◌, ◌^◌, ◌<◌, ◌≡◌, refl, ◌∙◌, List, ◌++◌, some, false,
  length, drop, arith, ne→==-false, length-drop, Option,
}
use cryptodev_chat.Io.{Port, insist_write, insist_read}
use cryptodev_chat.Io.Calm.{Took, insist_read-front}
use cryptodev_chat.Run.{ok}
use cryptodev_chat.Cryptodev.{Cryptodev}
use cryptodev_chat.Chat.Buffer.{poke_front, poke_seam, peek_front_append, peek_middle}
use cryptodev_chat.Chat.Word.{htonl, length-htonl}
use cryptodev_chat.Chat.Cipher.{Frame}
use cryptodev_chat.Chat.Client.Frames.{message, length-message}
use cryptodev_chat.Chat.Client.Send.{send-Sent}
use cryptodev_chat.Chat.Client.Receive.{header-Took}
use cryptodev_chat.Chat.Server.{Server, forward_one, forward}
use cryptodev_chat.Chat.Server.Distribute.{Round, distribute-Relayed}
use cryptodev_chat.Chat.Server.Forward.{
  Serving, Forwarded, after_print, Recipients-print, Forwarded-Relayed, stdout_after,
}

module _ (d : Cryptodev) (frame : Frame) (malloc : ℕ → Option (List ℕ)) (me : ℕ) where
  open d use {State}

  round-clear :
      (bytes back : List ℕ) (size : ℕ)
      → length bytes ≡ size + 4
      → Round d frame false malloc me size (λ _. bytes) (λ c buf. buf ≡ bytes ++ back)
  unfolding forward_one
  round-clear bytes back size long c fd buf s p ne slot open_fd st e = (
    buf,
    s.dev,
    rw (slot, e, peek_front_append bytes back (size + 4) long, open_fd, (send-Sent bytes p st).0)
        refl,
    e,
  )

  -- Without encryption, while all descriptors are open, different and have no failing call to come,
  -- a message of 1 to 2^32 - 1 bytes that a client has sent is shown on the server's stdout and is
  -- sent to every other client byte for byte, whatever the partial reads and writes; it is taken off
  -- the sender's stream, nothing is written there, and forward returns 0.
  pub forward-message :
      (s : Server State) (sd : ℕ) (own term : Port) (text rest : List ℕ)
      → ((n : ℕ) → (bs : List ℕ) × (malloc n ≡ some bs) × (length bs ≡ n))
      → (h : Serving s sd me own term) → own.incoming ≡ message text ++ rest
      → 0 < length text
      → length text < 2 ^ 32
      → (s' : Server State) × (forward d frame false malloc sd me s ≡ ok (0, s'))
        × Forwarded h text rest (λ _. message text) s'
  unfolding forward Recipients-print
  forward-message s sd own term text rest alloc h arrives some_text short =
      let size : ℕ = length text in
      let (n₁, head, took₁) = header-Took text rest own arrives short h.own_steady in
      let p₁ : Port = (insist_read 4 own).2 in
      let (n₂, body, took₂) =
        insist_read-front text rest size p₁ refl took₁.incoming took₁.steady in
      let p₂ : Port = (insist_read size p₁).2 in
      let (fresh, given, room) = alloc (8 * (size + 4)) in
      let back : List ℕ = drop 4 fresh in
      let back_room : length back ≡ length fresh - 4 = length-drop 4 fresh in
      let left : List ℕ = drop size back in
      let term' : Port = (insist_write text term).1 in
      let took : Took own rest p₂ = record {
        incoming = took₂.incoming;
        outgoing = took₂.outgoing ∙ took₁.outgoing;
        steady = took₂.steady;
      } in
      let sent = send-Sent text term h.stdout_steady in
      let (dev', ports', done, v) =
        distribute-Relayed d frame false malloc me size (λ _. message text)
          (λ c buf. buf ≡ message text ++ left)
          (round-clear (message text) left size (length-message text)) (λ buf e. e) s.no_client 0
          (message text ++ left) (record s { ports = after_print h p₂ term' }) (omega arith) refl
          (Recipients-print h p₂ term') in
      (
        record s { dev = dev'; ports = ports' },
        rw
            (
              h.own_open,
              n₁,
              head,
              update_self s.ports sd (some p₁),
              given,
              poke_front fresh (htonl size) 4 (length-htonl size) (omega arith),
              body,
              poke_seam 4 (htonl size) back text (length-htonl size) (omega arith),
              n₂,
              ne→==-false size 0 (omega arith),
            )
            (rw
              (
                update-update s.ports sd (some p₁) (some p₂),
                peek_middle (htonl size) text left 4 size (length-htonl size) refl,
                stdout_after h p₂,
                sent.0,
                done,
              )
              refl),
        Forwarded-Relayed h p₂ term' took sent.1 refl refl v,
      )

-- ===== src/Chat/Server/Sealed.antt =====
-- forward with --encrypted, over a device on which no call fails. encrypt works in place, so the loop
-- over the recipients encrypts again what it has encrypted for the one before.
use cryptodev_chat.Common.{
  ℕ, zero, suc, ◌+◌, ◌*◌, ◌-◌, ◌≤◌, ◌≡◌, ◌≢◌, refl, ap, sym, subst, ◌∙◌, List, ◌++◌, some, true,
  pos, length, take, drop, replicate, arith, ne→==-false, eq→==, length-append, length-take,
  append_assoc, take-append, take-append_le, drop-append, ◌==◌, if◌then◌else◌, Option,
}
use native.Mathlib.Nat.{mod-eq_of_lt}
use cryptodev_chat.Io.{Port, insist_write, insist_read}
use cryptodev_chat.Io.Calm.{Took, insist_read-front}
use cryptodev_chat.Run.{ok, ◌>>=◌}
use cryptodev_chat.Cryptodev.{Cryptodev, cop_encrypt, cop_decrypt}
use cryptodev_chat.Cryptodev.Service.{BlockCipher, Service}
use cryptodev_chat.Chat.Buffer.{peek, poke_front, peek_front_append, peek_middle}
use cryptodev_chat.Chat.Word.{htonl, ntohl-htonl, length-htonl}
use cryptodev_chat.Chat.Cipher.{Frame, data_size, fixed_key, fixed_iv}
use cryptodev_chat.Chat.Cipher.Laws.{closed, padded, length-padded, encrypt-seals, decrypt-unseals}
use cryptodev_chat.Chat.Client.{buff_size}
use cryptodev_chat.Chat.Client.Frames.{message, length-message}
use cryptodev_chat.Chat.Client.Send.{send-Sent}
use cryptodev_chat.Chat.Client.Sealed.{sealed_message, length-sealed_message}
use cryptodev_chat.Chat.Server.{Server, forward_one, distribute, forward}
use cryptodev_chat.Chat.Server.Distribute.{Round, distribute-Relayed}
use cryptodev_chat.Chat.Server.Forward.{
  Serving, Forwarded, after_print, Recipients-print, Forwarded-Relayed, stdout_after,
}

module _ (k : BlockCipher) (me n : ℕ) (first : List ℕ) where
  abbrev next_source : ℕ → List ℕ → List ℕ
  next_source c text = if c == me then text else take n (k.seal fixed_key fixed_iv (padded text))

  -- The first n bytes of the buffer when the loop reaches recipient `c`: the message, then n bytes of
  -- the ciphertext for the recipient before.
  pub source : ℕ → List ℕ
  source zero = first
  source (suc c) = next_source c (source c)

  -- What recipient `c` is sent.
  abbrev pub resealed : ℕ → List ℕ
  resealed c = k.seal fixed_key fixed_iv (padded (source c))

  length-block :
      (text : List ℕ)
      → length text ≡ n
      → n ≤ data_size
      → length (k.seal fixed_key fixed_iv (padded text)) ≡ data_size
  length-block text e small =
      let full : length (padded text) ≡ data_size = length-padded text (omega arith) in
      k.length-seal fixed_key fixed_iv (padded text) (omega (arith, full)) ∙ full

  length-next :
      (c : ℕ) (text : List ℕ) → length text ≡ n → n ≤ data_size → length (next_source c text) ≡ n
  length-next c text e small =
      ground
        (arith, length-block text e small, length-take n (k.seal fixed_key fixed_iv (padded text)))

  length-source : (c : ℕ) → length first ≡ n → n ≤ data_size → length (source c) ≡ n
  unfolding source
  length-source zero e small = e
  length-source (suc c) e small = length-next c (source c) (length-source c e small) small

  source-me : source (suc me) ≡ source me
  unfolding source
  source-me = rw (eq→== me me refl) refl

  source-next : (c : ℕ) → c ≢ me → source (suc c) ≡ take n (resealed c)
  unfolding source
  source-next c ne = rw (ne→==-false c me ne) refl

module _ (d : Cryptodev) (k : BlockCipher) (v : Service d k) (frame : Frame)
    (malloc : ℕ → Option (List ℕ)) (me : ℕ) where
  open d use {State}

  -- The buffer is as the loop needs it for recipient `c`.
  abbrev Ready : ℕ → List ℕ → ℕ → List ℕ → Type 0
  Ready n first c buf = (take n buf ≡ source k me n first c) × (data_size ≤ length buf)

  round-sealed :
      (first : List ℕ) (size : ℕ)
      → length first ≡ size + 4
      → size + 4 ≤ data_size
      → Round d frame true malloc me size (resealed k me (size + 4) first) (Ready (size + 4) first)
  unfolding forward_one
  round-sealed first size long small c fd buf s p ne slot open_fd st (e, large) =
      let n : ℕ = size + 4 in
      let block : List ℕ = resealed k me n first c in
      let whole : length block ≡ data_size =
        length-block k me n first (source k me n first c) (length-source k me n first c long small)
          small in
      let tail : List ℕ = drop data_size buf in
      (
        block ++ tail,
        (closed d frame cop_encrypt (padded (source k me n first c)) s.dev).1,
        rw
            (
              encrypt-seals d k v frame buf n s.dev small large,
              e,
              slot,
              peek_front_append block tail data_size whole,
              open_fd,
              (send-Sent block p st).0,
            )
            refl,
        (
          take-append_le n block tail (omega arith) ∙ sym (source-next k me n first c ne),
          omega (arith, length-append block tail),
        ),
      )

  module _ (s : Server State) (sd : ℕ) (own term : Port) (text rest : List ℕ)
      (alloc : (n : ℕ) → (bs : List ℕ) × (malloc n ≡ some bs) × (length bs ≡ n))
      (h : Serving s sd me own term)
      (arrives : own.incoming ≡ sealed_message d k v frame text ++ rest)
      (fits : length text + 4 ≤ data_size) where
    abbrev block : List ℕ
    block = sealed_message d k v frame text

    abbrev fresh : List ℕ
    fresh = (alloc (8 * buff_size)).0

    abbrev tail : List ℕ
    tail = drop data_size fresh

    -- The buffer of forward once the message is deciphered.
    abbrev plain_buf : List ℕ
    plain_buf = message text ++ (replicate (data_size - length (message text)) b'0' ++ tail)

    abbrev own' : Port
    own' = (insist_read data_size own).2

    abbrev term' : Port
    term' = (insist_write text term).1

    abbrev before_loop : Server State
    before_loop = record s {
      dev = (closed d frame cop_decrypt block s.dev).1;
      ports = after_print h own' term';
    }

    full : length (padded (message text)) ≡ data_size
    full = length-padded (message text) (omega (arith, length-message text))

    regroup : padded (message text) ++ tail ≡ plain_buf
    regroup = append_assoc (message text) (replicate (data_size - length (message text)) b'0') tail

    large : data_size ≤ length plain_buf
    large =
        subst (λ r. data_size ≤ length r) regroup
          (omega (arith, full, length-append (padded (message text)) tail))

    arrived :
        ((insist_read data_size own).0 ≡ some (pos data_size))
        × ((insist_read data_size own).1 ≡ block)
        × Took own rest own'
    arrived =
        insist_read-front block rest data_size own (length-sealed_message d k v frame text fits)
          arrives h.own_steady

    head : peek plain_buf 0 4 ≡ ok (htonl (length text))
    head =
        ap (λ b. peek b 0 4) (append_assoc (htonl (length text)) text back)
        ∙ peek_front_append (htonl (length text)) (text ++ back) 4 (length-htonl (length text))
      where
        back : List ℕ
        back = replicate (data_size - length (message text)) b'0' ++ tail

    -- All that forward does before its loop.
    forward-distribute : forward d frame true malloc sd me s ≡ (
        distribute d frame true malloc s.no_client 0 plain_buf (length text) me before_loop
        >>= λ s'. ok (0, s'))
    unfolding forward
    forward-distribute =
        rw
          (
            h.own_open,
            (alloc (8 * buff_size)).1,
            arrived.0,
            arrived.1,
            poke_front fresh block data_size whole (omega (arith, (alloc (8 * buff_size)).2)),
            decrypt-unseals d k v frame (block ++ tail) s.dev
                (omega (arith, whole, length-append block tail)),
            take-append data_size block tail whole,
            drop-append data_size block tail whole,
            k.unseal-seal fixed_key fixed_iv (padded (message text)) (omega (arith, full)),
            regroup,
            head,
            ntohl-htonl (length text) ∙ mod-eq_of_lt (omega arith),
            peek_middle (htonl (length text)) text
                (replicate (data_size - length (message text)) b'0' ++ tail) 4 (length text)
                (length-htonl (length text)) refl,
            stdout_after h own',
            (send-Sent text term h.stdout_steady).0,
          )
          refl
      where
        whole : length block ≡ data_size
        whole = length-sealed_message d k v frame text fits

    -- With encryption, over a device on which no call fails and while all descriptors are open,
    -- different and have no failing call to come, a message of at most 256 bytes is shown on the
    -- server's stdout, and recipient `c` is sent `resealed c`: the first recipient the ciphertext of
    -- the message, each later one the ciphertext of the first bytes of what the recipient before was
    -- sent. The message is taken off the sender's stream, and forward returns 0.
    pub forward-resealed :
        (s' : Server State) × (forward d frame true malloc sd me s ≡ ok (0, s'))
        × Forwarded h text rest (resealed k me (length text + 4) (message text)) s'
    unfolding Recipients-print source
    forward-resealed =
        let (dev', ports', done, w) =
          distribute-Relayed d frame true malloc me (length text)
            (resealed k me (length text + 4) (message text))
            (Ready (length text + 4) (message text))
            (round-sealed (message text) (length text) (length-message text) fits)
            (λ buf (e, big). (e ∙ sym (source-me k me (length text + 4) (message text)), big))
            s.no_client 0 plain_buf before_loop (omega arith)
            (
              take-append (length text + 4) (message text)
                  (replicate (data_size - length (message text)) b'0' ++ tail)
                  (length-message text),
              large,
            )
            (Recipients-print h own' term') in
        (
          record s { dev = dev'; ports = ports' },
          forward-distribute ∙ ap (λ r. r >>= λ s'. ok (0, s')) done,
          Forwarded-Relayed h own' term' arrived.2 (send-Sent text term h.stdout_steady).1 refl refl
              w,
        )

-- What the recipient after `c` deciphers is not the message: it is the start of the ciphertext that
-- recipient `c` was sent, filled up with '0', and its first four bytes pass for the length of a text.
pub unseal-resealed :
    (k : BlockCipher) (me c : ℕ) (text : List ℕ)
    → length text + 4 ≤ data_size
    → c ≢ me
    → k.unseal fixed_key fixed_iv (resealed k me (length text + 4) (message text) (suc c))
      ≡ padded (take (length text + 4) (resealed k me (length text + 4) (message text) c))
unseal-resealed k me c text fits ne =
    let n : ℕ = length text + 4 in
    let long = length-source k me n (message text) (suc c) (length-message text) fits in
    let full = length-padded (source k me n (message text) (suc c)) (omega (arith, long)) in
    k.unseal-seal fixed_key fixed_iv (padded (source k me n (message text) (suc c)))
      (omega (arith, full, long))
    ∙ ap padded (source-next k me n (message text) c ne)

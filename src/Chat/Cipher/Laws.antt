-- ===== src/Chat/Cipher/Laws.antt =====
-- encrypt and decrypt over a device on which no call fails.
use cryptodev_chat.Common.{
  true, drop-replicate, ℕ, ◌-◌, ◌≤◌, ◌≡◌, refl, ap, ◌∙◌, List, ◌++◌, length, take, drop, replicate,
  length-replicate, length-append, length-take, ℤ, some, arith, take-all, is_neg, is_zero, false,
  inl,
}
use cryptodev_chat.Cryptodev.{Cryptodev, SessionOp, cop_encrypt, cop_decrypt}
use cryptodev_chat.Cryptodev.Service.{BlockCipher, Service}
use cryptodev_chat.Run.{ok}
use cryptodev_chat.Chat.Buffer.{peek_front, poke_front}
use cryptodev_chat.Chat.Cipher.{
  Frame, data_size, fixed_key, fixed_iv, session_of, crypt_of, fill_input, encrypt, decrypt,
}

-- A text filled up with '0' to the size of data.in.
abbrev pub padded : List ℕ → List ℕ
padded text = text ++ replicate (data_size - length text) b'0'

pub length-padded : (text : List ℕ) → length text ≤ data_size → length (padded text) ≡ data_size
length-padded text h = omega (
  arith,
  length-append text (replicate (data_size - length text) b'0'),
  length-replicate {A = ℕ} (data_size - length text) b'0',
)

pub fill_input-padded :
    (buffer : List ℕ) (n : ℕ)
    → n ≤ length buffer
    → n ≤ data_size
    → fill_input buffer n ≡ ok (padded (take n buffer))
unfolding fill_input
fill_input-padded buffer n fits small = rw (peek_front buffer n fits) (
    poke_front (replicate data_size b'0') text (length text) refl (omega (arith, size))
    ∙ ap (λ r. ok (text ++ r)) (drop-replicate (length text) data_size b'0'))
  where
    text : List ℕ
    text = take n buffer

    size : length text ≡ n
    size = omega (arith, length-take n buffer)

module _ (d : Cryptodev) (frame : Frame) where
  open d use {State, open_dev, close_dev, get_session, free_session, crypt}

  -- The calls of one message, in order, each from the device that the one before left.
  abbrev pub opened : State → ℤ × State
  opened s = open_dev s

  abbrev pub got : State → ℤ × SessionOp × State
  got s = get_session (opened s).0 (session_of frame) fixed_key (opened s).1

  abbrev pub crypted : ℕ → List ℕ → State → ℤ × List ℕ × State
  crypted op text s = crypt (opened s).0 (crypt_of frame (got s).1.ses op) text fixed_iv (got s).2

  abbrev pub freed : ℕ → List ℕ → State → ℤ × State
  freed op text s = free_session (opened s).0 (got s).1.ses (crypted op text s).2

  abbrev pub closed : ℕ → List ℕ → State → ℤ × State
  closed op text s = close_dev (opened s).0 (freed op text s).1

  -- None of the calls makes the code exit.
  pub record Passes (op : ℕ) (text : List ℕ) (s : State) : Type 0 where
    pub opens : is_neg (opened s).0 ≡ false
    pub gets : is_zero (got s).0 ≡ true
    pub crypts : is_zero (crypted op text s).0 ≡ true
    pub frees : is_zero (freed op text s).0 ≡ true
    pub closes : is_neg (closed op text s).0 ≡ false

module _ (d : Cryptodev) (c : BlockCipher) (v : Service d c) (frame : Frame) where
  open c use {seal, unseal, length-seal, length-unseal}
  open d use {State}

  bound :
      (s : State)
      → v.key_of (got d frame s).2 (opened d frame s).0 (got d frame s).1.ses ≡ some fixed_key
  unfolding fixed_key
  bound s =
      v.get_binds (opened d frame s).0 (session_of frame) fixed_key (opened d frame s).1
        (v.opened s) refl (inl refl) refl

  pub passes :
      (op : ℕ) (text : List ℕ) (s : State) → length text ≡ data_size → Passes d frame op text s
  unfolding fixed_key
  passes op text s size = record {
    opens = rw (v.opens s).1 refl;
    gets =
        rw
          (v.get_returns (opened d frame s).0 (session_of frame) fixed_key (opened d frame s).1
            (v.opened s) refl (inl refl) refl)
          refl;
    crypts =
        rw
          (v.crypt_returns (opened d frame s).0 (crypt_of frame (got d frame s).1.ses op) fixed_key
            text fixed_iv (got d frame s).2 (bound s) size refl)
          refl;
    frees =
        rw
          (v.frees (opened d frame s).0 (got d frame s).1.ses fixed_key
            (crypted d frame op text s).2 (v.crypt_keeps _ _ fixed_key _ _ _ _ (bound s)))
          refl;
    closes =
        rw
          (v.closes (opened d frame s).0 (freed d frame op text s).1
            (v.free_keeps _ _ fixed_key _ (v.crypt_keeps _ _ fixed_key _ _ _ _ (bound s))))
          refl;
  }

  sealed :
      (text : List ℕ) (s : State)
      → length text ≡ data_size
      → (crypted d frame cop_encrypt text s).1 ≡ seal fixed_key fixed_iv text
  sealed text s size =
      v.crypt_seals _ _ fixed_key text fixed_iv (got d frame s).2 (bound s) size refl refl

  unsealed :
      (text : List ℕ) (s : State)
      → length text ≡ data_size
      → (crypted d frame cop_decrypt text s).1 ≡ unseal fixed_key fixed_iv text
  unsealed text s size =
      v.crypt_unseals _ _ fixed_key text fixed_iv (got d frame s).2 (bound s) size refl refl

  -- On a device on which no call fails, encrypt of at most 256 bytes returns, and replaces the first
  -- 256 bytes of the buffer by the ciphertext of the text filled up with '0'; its session is closed.
  pub encrypt-seals :
      (buffer : List ℕ) (n : ℕ) (s : State)
      → n ≤ data_size
      → data_size ≤ length buffer
      → encrypt d frame buffer n s
        ≡ ok (
          seal fixed_key fixed_iv (padded (take n buffer)) ++ drop data_size buffer,
          (closed d frame cop_encrypt (padded (take n buffer)) s).1,
        )
  unfolding encrypt
  encrypt-seals buffer n s small large =
      rw
        (
          p.opens,
          p.gets,
          fill_input-padded buffer n (omega arith) small,
          p.crypts,
          sealed text s size,
          peek_front output data_size (omega (arith, out_size)),
          take-all data_size output (omega (arith, out_size)),
          poke_front buffer output data_size out_size large,
          p.frees,
          p.closes,
        )
        refl
    where
      text : List ℕ
      text = padded (take n buffer)

      size : length text ≡ data_size
      size = length-padded (take n buffer) (omega (arith, length-take n buffer))

      output : List ℕ
      output = seal fixed_key fixed_iv text

      out_size : length output ≡ data_size
      out_size = length-seal fixed_key fixed_iv text (omega (arith, size)) ∙ size

      p : Passes d frame cop_encrypt text s
      p = passes cop_encrypt text s size

  -- On such a device decrypt returns, and replaces the first 256 bytes of the buffer by what they
  -- decipher to.
  pub decrypt-unseals :
      (buffer : List ℕ) (s : State)
      → data_size ≤ length buffer
      → decrypt d frame buffer s
        ≡ ok (
          unseal fixed_key fixed_iv (take data_size buffer) ++ drop data_size buffer,
          (closed d frame cop_decrypt (take data_size buffer) s).1,
        )
  unfolding decrypt
  decrypt-unseals buffer s large =
      rw
        (
          p.opens,
          p.gets,
          peek_front buffer data_size large,
          p.crypts,
          unsealed text s size,
          peek_front output data_size (omega (arith, out_size)),
          take-all data_size output (omega (arith, out_size)),
          poke_front buffer output data_size out_size large,
          p.frees,
          p.closes,
        )
        refl
    where
      text : List ℕ
      text = take data_size buffer

      size : length text ≡ data_size
      size = omega (arith, length-take data_size buffer)

      output : List ℕ
      output = unseal fixed_key fixed_iv text

      out_size : length output ≡ data_size
      out_size = length-unseal fixed_key fixed_iv text (omega (arith, size)) ∙ size

      p : Passes d frame cop_decrypt text s
      p = passes cop_decrypt text s size

-- ===== src/Chat/Cipher.antt =====
-- socket-common.c, encrypt and decrypt: one session of /dev/crypto for each message.
pub mod Laws
use cryptodev_chat.Common.{
  ℕ, zero, suc, ◌+◌, ◌-◌, List, [], ◌∷◌, ◌++◌, replicate, ℤ, is_neg, is_zero, Bool, not,
}
use cryptodev_chat.Cryptodev.{
  SessionOp, CryptOp, zero_session, zero_crypt, crypto_aes_cbc, cop_encrypt, cop_decrypt, Cryptodev,
}
use cryptodev_chat.Run.{Run, ok, ◌>>=◌, ◌>>◌, exit_if}
use cryptodev_chat.Chat.Buffer.{peek, poke}

abbrev pub data_size : ℕ
data_size = 256

abbrev pub block_size : ℕ
block_size = 16

abbrev pub key_size : ℕ
key_size = 16

-- The addresses of the arrays in the local `data` of encrypt and decrypt.
pub record Frame : Type 0 where
  pub input : ℕ
  pub output : ℕ
  pub iv : ℕ
  pub key : ℕ

-- for (i = 0; i < BLOCK_SIZE; i++) data.key[i] = '0' + i, from round `i` on
pub key_from : ℕ → ℕ → List ℕ
key_from zero i = []
key_from (suc n) i = (b'0' + i) ∷ key_from n (suc i)

unfoldable pub fixed_key : List ℕ
unfolding key_from
fixed_key = key_from block_size 0

-- the same loop: data.iv[i] = '1'
unfoldable pub fixed_iv : List ℕ
fixed_iv = replicate block_size b'1'

abbrev pub session_of : Frame → SessionOp
session_of frame = record zero_session {
  cipher = crypto_aes_cbc;
  keylen = key_size;
  key = frame.key;
}

abbrev pub crypt_of : Frame → ℕ → ℕ → CryptOp
crypt_of frame ses op = record zero_crypt {
  ses = ses;
  op = op;
  len = data_size;
  src = frame.input;
  dst = frame.output;
  iv = frame.iv;
}

-- The array data.in when encrypt hands it over: enc_s bytes of the buffer, then '0' to the end.
unfoldable pub fill_input : List ℕ → ℕ → Run (List ℕ)
fill_input buffer enc_s = do text ← peek buffer 0 enc_s; poke (replicate data_size b'0') 0 text

module _ (d : Cryptodev) (frame : Frame) where
  open d use {State, open_dev, close_dev, get_session, free_session, crypt}

  -- encrypt(buffer, enc_s): the buffer and the device afterwards
  unfoldable pub encrypt : List ℕ → ℕ → State → Run (List ℕ × State)
  encrypt buffer enc_s s₀ = do
    let opened = open_dev s₀
    exit_if (is_neg opened.0)
    let got = get_session opened.0 (session_of frame) fixed_key opened.1
    exit_if (not (is_zero got.0))
    input ← fill_input buffer enc_s
    let sealed = crypt opened.0 (crypt_of frame got.1.ses cop_encrypt) input fixed_iv got.2
    exit_if (not (is_zero sealed.0))
    output ← peek sealed.1 0 data_size
    buffer' ← poke buffer 0 output
    let freed = free_session opened.0 got.1.ses sealed.2
    exit_if (not (is_zero freed.0))
    let closed = close_dev opened.0 freed.1
    exit_if (is_neg closed.0)
    ok (buffer', closed.1)

  -- decrypt(buffer)
  unfoldable pub decrypt : List ℕ → State → Run (List ℕ × State)
  decrypt buffer s₀ = do
    let opened = open_dev s₀
    exit_if (is_neg opened.0)
    let got = get_session opened.0 (session_of frame) fixed_key opened.1
    exit_if (not (is_zero got.0))
    input ← peek buffer 0 data_size
    let plain = crypt opened.0 (crypt_of frame got.1.ses cop_decrypt) input fixed_iv got.2
    exit_if (not (is_zero plain.0))
    output ← peek plain.1 0 data_size
    buffer' ← poke buffer 0 output
    let freed = free_session opened.0 got.1.ses plain.2
    exit_if (not (is_zero freed.0))
    let closed = close_dev opened.0 freed.1
    exit_if (is_neg closed.0)
    ok (buffer', closed.1)

-- ===== src/SelfTest.antt =====
-- What the three test programs of /dev/crypto share (cryptodev/crypto-test.c,
-- virtio-crypto/guest/test_crypto.c, test_fork_crypto.c): from CIOCGSESSION to CIOCFSESSION, random
-- data is encrypted, decrypted and compared. The programs differ in their sizes and in how they
-- get their random data.
pub mod Laws
pub mod CryptoTest
pub mod TestCrypto
pub mod Exit
pub mod Insist
pub mod Fork
use cryptodev_chat.Common.{
  is_equal, ℕ, List, [], ◌∷◌, ℤ, is_zero, Bool, true, false, ◌&&◌, ◌==◌, if◌then◌else◌,
}
use cryptodev_chat.Cryptodev.{
  SessionOp, CryptOp, zero_session, zero_crypt, crypto_aes_cbc, cop_encrypt, cop_decrypt, Cryptodev,
}
use cryptodev_chat.Run.{Run, ok, ◌>>=◌}
use cryptodev_chat.Chat.Buffer.{peek}

-- The addresses of the arrays in the local `data` of test_crypto.
pub record Arrays : Type 0 where
  pub input : ℕ
  pub encrypted : ℕ
  pub decrypted : ℕ
  pub iv : ℕ
  pub key : ℕ

module _ (d : Cryptodev) (at_data : Arrays) (keylen size : ℕ) where
  open d use {State, get_session, free_session, crypt}

  abbrev pub session_of : SessionOp
  session_of = record zero_session { cipher = crypto_aes_cbc; keylen = keylen; key = at_data.key }

  abbrev pub sealing : ℕ → CryptOp
  sealing ses = record zero_crypt {
    ses = ses;
    op = cop_encrypt;
    len = size;
    src = at_data.input;
    dst = at_data.encrypted;
    iv = at_data.iv;
  }

  -- `cryp` as it is when the decryption is asked for
  abbrev pub unsealing : ℕ → CryptOp
  unsealing ses = record (sealing ses) {
    op = cop_decrypt;
    src = at_data.encrypted;
    dst = at_data.decrypted;
  }

  abbrev finish : ℤ → ℕ → State → ℕ × State
  finish cfd ses s =
      let freed = free_session cfd ses s in (if is_zero freed.0 then 0 else 1, freed.1)

  unfoldable pub decrypt_data : ℤ → ℕ → List ℕ → List ℕ → List ℕ → State → Run (ℕ × State)
  unfolding is_equal
  decrypt_data cfd ses iv input encrypted s = do
    let plain = crypt cfd (unsealing ses) encrypted iv s
    if is_zero plain.0
        then (do
          decrypted ← peek plain.1 0 size
          ok (if is_equal input decrypted then finish cfd ses plain.2 else (1, plain.2)))
        else ok (1, plain.2)

  unfoldable pub encrypt_data : ℤ → ℕ → List ℕ → List ℕ → State → Run (ℕ × State)
  encrypt_data cfd ses iv input s = do
    let sealed = crypt cfd (sealing ses) input iv s
    if is_zero sealed.0
        then (do encrypted ← peek sealed.1 0 size; decrypt_data cfd ses iv input encrypted sealed.2)
        else ok (1, sealed.2)

  -- The key, the initialization vector and the data are those of the arrays.
  unfoldable pub test_session : ℤ → List ℕ → List ℕ → List ℕ → State → Run (ℕ × State)
  test_session cfd key iv input s =
      let got = get_session cfd session_of key s in
      if is_zero got.0 then encrypt_data cfd got.1.ses iv input got.2 else ok (1, got.2)

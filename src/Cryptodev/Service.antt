-- ===== src/Cryptodev/Service.antt =====
-- What cryptodev documents of a device on which no call fails: a session is bound to its key until
-- it is freed, and AES-CBC decryption with the key and initialization vector of the encryption
-- gives whole blocks back.
use cryptodev_chat.Common.{ℕ, ◌≡◌, ◌≢◌, ◌⊎◌, ◌%◌, List, Option, some, ℤ, pos, length}
use cryptodev_chat.Cryptodev.{
  Cryptodev, SessionOp, CryptOp, crypto_aes_cbc, cop_encrypt, cop_decrypt,
}

pub record BlockCipher : Type 0 where
  pub seal : List ℕ → List ℕ → List ℕ → List ℕ
  pub unseal : List ℕ → List ℕ → List ℕ → List ℕ
  pub length-seal :
      (key iv text : List ℕ) → length text % 16 ≡ 0 → length (seal key iv text) ≡ length text
  pub length-unseal :
      (key iv text : List ℕ) → length text % 16 ≡ 0 → length (unseal key iv text) ≡ length text
  pub unseal-seal :
      (key iv text : List ℕ) → length text % 16 ≡ 0 → unseal key iv (seal key iv text) ≡ text

-- AES-128, AES-192 and AES-256
abbrev pub IsKeySize : ℕ → Type 0
IsKeySize n = (n ≡ 16) ⊎ (n ≡ 24) ⊎ (n ≡ 32)

module _ (d : Cryptodev) (c : BlockCipher) where
  open d use {State, open_dev, close_dev, get_session, free_session, crypt}
  open c use {seal, unseal}

  pub record Service : Type 1 where
    pub IsOpen : State → ℤ → Type 0
    -- the key of a live session of a descriptor
    pub key_of : State → ℤ → ℕ → Option (List ℕ)
    pub opens : (s : State) → (fd : ℕ) × ((open_dev s).0 ≡ pos fd)
    pub opened : (s : State) → IsOpen (open_dev s).1 (open_dev s).0
    pub closes : (fd : ℤ) (s : State) → IsOpen s fd → (close_dev fd s).0 ≡ pos 0
    pub get_returns :
        (fd : ℤ) (op : SessionOp) (key : List ℕ) (s : State)
        → IsOpen s fd
        → op.cipher ≡ crypto_aes_cbc
        → IsKeySize op.keylen
        → length key ≡ op.keylen
        → (get_session fd op key s).0 ≡ pos 0
    pub get_binds :
        (fd : ℤ) (op : SessionOp) (key : List ℕ) (s : State)
        → IsOpen s fd
        → op.cipher ≡ crypto_aes_cbc
        → IsKeySize op.keylen
        → length key ≡ op.keylen
        → key_of (get_session fd op key s).2 fd (get_session fd op key s).1.ses ≡ some key
    pub crypt_returns :
        (fd : ℤ) (op : CryptOp) (key src iv : List ℕ) (s : State)
        → key_of s fd op.ses ≡ some key
        → length src ≡ op.len
        → op.len % 16 ≡ 0
        → (crypt fd op src iv s).0 ≡ pos 0
    pub crypt_seals :
        (fd : ℤ) (op : CryptOp) (key src iv : List ℕ) (s : State)
        → key_of s fd op.ses ≡ some key
        → length src ≡ op.len
        → op.len % 16 ≡ 0
        → op.op ≡ cop_encrypt
        → (crypt fd op src iv s).1 ≡ seal key iv src
    pub crypt_unseals :
        (fd : ℤ) (op : CryptOp) (key src iv : List ℕ) (s : State)
        → key_of s fd op.ses ≡ some key
        → length src ≡ op.len
        → op.len % 16 ≡ 0
        → op.op ≡ cop_decrypt
        → (crypt fd op src iv s).1 ≡ unseal key iv src
    pub crypt_keeps :
        (fd : ℤ) (op : CryptOp) (key src iv : List ℕ) (s : State) (ses : ℕ)
        → key_of s fd ses ≡ some key
        → key_of (crypt fd op src iv s).2 fd ses ≡ some key
    pub frees :
        (fd : ℤ) (ses : ℕ) (key : List ℕ) (s : State)
        → key_of s fd ses ≡ some key
        → (free_session fd ses s).0 ≡ pos 0
    pub free_keeps :
        (fd : ℤ) (ses : ℕ) (key : List ℕ) (s : State)
        → key_of s fd ses ≡ some key
        → IsOpen (free_session fd ses s).1 fd

  -- Sessions of one descriptor do not disturb each other, and a session does not close it.
  pub record Sharing (v : Service) : Type 0 where
    pub get_open :
        (fd : ℤ) (op : SessionOp) (key : List ℕ) (s : State)
        → v.IsOpen s fd
        → v.IsOpen (get_session fd op key s).2 fd
    pub crypt_open :
        (fd : ℤ) (op : CryptOp) (src iv : List ℕ) (s : State)
        → v.IsOpen s fd
        → v.IsOpen (crypt fd op src iv s).2 fd
    pub get_keeps :
        (fd : ℤ) (op : SessionOp) (key key' : List ℕ) (s : State) (ses : ℕ)
        → v.key_of s fd ses ≡ some key'
        → v.key_of (get_session fd op key s).2 fd ses ≡ some key'
    pub get_apart :
        (fd : ℤ) (op : SessionOp) (key key' : List ℕ) (s : State) (ses : ℕ)
        → v.key_of s fd ses ≡ some key'
        → (get_session fd op key s).0 ≡ pos 0
        → (get_session fd op key s).1.ses ≢ ses
    pub free_apart :
        (fd : ℤ) (key : List ℕ) (s : State) (ses ses' : ℕ)
        → v.key_of s fd ses ≡ some key
        → ses' ≢ ses
        → v.key_of (free_session fd ses' s).1 fd ses ≡ some key

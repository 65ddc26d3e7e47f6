-- ===== src/Cryptodev.antt =====
-- virtio-crypto/guest/cryptodev.h: the structures of the /dev/crypto interface, and the device itself
-- as a record of its calls. The device is the cryptodev kernel module, which is not in the
-- repository: chat and backend are written over any device, and `Service` states what its
-- documentation promises of a device that has resources left.
--
-- A pointer is a number. The bytes behind the pointers of a structure are handed to a call beside
-- the structure, and the bytes that the call stores come back beside its result.
pub mod Service
pub mod Toy
use cryptodev_chat.Common.{ℕ, List, ℤ}

pub record SessionOp : Type 0 where
  pub cipher : ℕ
  pub mac : ℕ
  pub keylen : ℕ
  pub key : ℕ
  pub mackeylen : ℕ
  pub mackey : ℕ
  pub ses : ℕ

pub record CryptOp : Type 0 where
  pub ses : ℕ
  pub op : ℕ
  pub flags : ℕ
  pub len : ℕ
  pub src : ℕ
  pub dst : ℕ
  pub mac : ℕ
  pub iv : ℕ

-- after memset(&sess, 0, sizeof(sess))
abbrev pub zero_session : SessionOp
zero_session = record {
  cipher = 0;
  mac = 0;
  keylen = 0;
  key = 0;
  mackeylen = 0;
  mackey = 0;
  ses = 0;
}

abbrev pub zero_crypt : CryptOp
zero_crypt = record { ses = 0; op = 0; flags = 0; len = 0; src = 0; dst = 0; mac = 0; iv = 0 }

abbrev pub crypto_aes_cbc : ℕ
crypto_aes_cbc = 11

abbrev pub cop_encrypt : ℕ
cop_encrypt = 0

abbrev pub cop_decrypt : ℕ
cop_decrypt = 1

-- _IOWR('c', 102, struct session_op), _IOW('c', 103, __u32), _IOWR('c', 104, struct crypt_op), where
-- both structures have 48 bytes on a 64-bit machine
abbrev pub ciocgsession : ℕ
ciocgsession = 0xc030_6366

abbrev pub ciocfsession : ℕ
ciocfsession = 0x4004_6367

abbrev pub cioccrypt : ℕ
cioccrypt = 0xc030_6368

-- The calls of the device: open, close and the three ioctl commands, each with its result.
pub record Cryptodev : Type 1 where
  pub State : Type 0
  pub open_dev : State → ℤ × State
  pub close_dev : ℤ → State → ℤ × State
  -- the structure, and the `keylen` bytes at its `key`
  pub get_session : ℤ → SessionOp → List ℕ → State → ℤ × SessionOp × State
  pub free_session : ℤ → ℕ → State → ℤ × State
  -- the structure, the `len` bytes at `src`, the bytes at `iv`; the bytes stored at `dst` come back
  pub crypt : ℤ → CryptOp → List ℕ → List ℕ → State → ℤ × List ℕ × State

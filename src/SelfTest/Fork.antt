-- ===== src/SelfTest/Fork.antt =====
-- virtio-crypto/guest/test_fork_crypto.c: two processes that run the test of test_crypto.c at once, on
-- the descriptor that they share after fork. A step is one call of a process on the device.
--
-- `Data` is what fill_urandom_buff and the stack have left in the arrays of a process, which has
-- opened /dev/urandom for itself: each process does this before its first call. After fork the
-- kernel makes the driver's release when the last of the two processes closes the descriptor. The wait
-- of the parent and a fork that fails are not modelled.
pub mod Apart
pub mod Pass
use cryptodev_chat.Common.{
  ℕ, List, [], ◌∷◌, Option, Bool, true, false, ℤ, pos, is_neg, is_zero, is_equal, if◌then◌else◌,
}
use cryptodev_chat.Cryptodev.{Cryptodev}
use cryptodev_chat.Run.{Run, ok, ◌>>=◌}
use cryptodev_chat.Chat.Buffer.{peek}
use cryptodev_chat.Io.{Port}
use cryptodev_chat.SelfTest.TestCrypto.{Stack, key_size, data_size, fill_urandom_buff}
use cryptodev_chat.SelfTest.{Arrays, session_of, sealing, unsealing}

pub record Data : Type 0 where
  pub key : List ℕ
  pub iv : List ℕ
  pub input : List ℕ

-- The call that a process makes next, with its session and the encrypted data; or its exit status.
pub data Pc : Type 0 where
  getting : Pc
  encrypting : ℕ → Pc
  decrypting : ℕ → List ℕ → Pc
  finishing : ℕ → Pc
  closing : Pc
  ended : ℕ → Pc

module _ (d : Cryptodev) (at_data : Arrays) (keylen size : ℕ) (cfd : ℤ) where
  open d use {State}

  -- close(fd), which reaches the driver if the other process has ended
  abbrev pub close_shared : Pc → State → ℤ × State
  close_shared (ended n) s = d.close_dev cfd s
  close_shared getting s = (pos 0, s)
  close_shared (encrypting ses) s = (pos 0, s)
  close_shared (decrypting ses encrypted) s = (pos 0, s)
  close_shared (finishing ses) s = (pos 0, s)
  close_shared closing s = (pos 0, s)

  unfoldable pub advance : Data → Pc → Pc → State → Run (Pc × State)
  advance mine other getting s =
      let got = d.get_session cfd (session_of d at_data keylen size) mine.key s in
      ok (if is_zero got.0 then encrypting got.1.ses else ended 1, got.2)
  advance mine other (encrypting ses) s =
      let sealed = d.crypt cfd (sealing d at_data keylen size ses) mine.input mine.iv s in
      if is_zero sealed.0
      then (do encrypted ← peek sealed.1 0 size; ok (decrypting ses encrypted, sealed.2))
      else ok (ended 1, sealed.2)
  advance mine other (decrypting ses encrypted) s =
      let plain = d.crypt cfd (unsealing d at_data keylen size ses) encrypted mine.iv s in
      if is_zero plain.0
      then (do
        decrypted ← peek plain.1 0 size
        ok (if is_equal mine.input decrypted then finishing ses else ended 1, plain.2))
      else ok (ended 1, plain.2)
  advance mine other (finishing ses) s =
      let freed = d.free_session cfd ses s in
      ok (if is_zero freed.0 then closing else ended 1, freed.1)
  advance mine other closing s =
      let closed = close_shared other s in ok (ended (if is_zero closed.0 then 0 else 1), closed.1)
  advance mine other (ended n) s = ok (ended n, s)

  pub record System : Type 0 where
    pub dev : State
    pub parent : Pc
    pub child : Pc

  module _ (parent_data child_data : Data) where
    abbrev step : Bool → System → Run System
    step true y = do
      (p, s) ← advance parent_data y.child y.parent y.dev
      ok (record y { dev = s; parent = p })
    step false y = do
      (p, s) ← advance child_data y.parent y.child y.dev
      ok (record y { dev = s; child = p })

    -- The order in which the processes make their calls: true is the parent's turn.
    unfoldable pub run : List Bool → System → Run System
    run [] y = ok y
    run (who ∷ turns) y = step who y >>= run turns

-- A process up to its first call: its array is filled, or it returns 1.
unfoldable pub begin : Stack → Option Port → Run (Pc × Data)
begin stack urandom = do
  (ret, input, urandom') ← fill_urandom_buff stack.input urandom
  ok (
    if is_neg ret then ended 1 else getting,
    record { key = stack.key; iv = stack.iv; input = input },
  )

module _ (d : Cryptodev) (at_data : Arrays) (cfd : ℤ) where
  open d use {State}

  -- Both processes from the fork on, with the arrays of each and its /dev/urandom: the two copies of
  -- the arrays have the same addresses.
  unfoldable pub forked :
      Stack
      → Stack
      → Option Port
      → Option Port
      → List Bool
      → State
      → Run (System d at_data key_size data_size cfd)
  forked parent child urandom urandom' turns s = do
    (p, filled) ← begin parent urandom
    (c, filled') ← begin child urandom'
    run d at_data key_size data_size cfd filled filled' turns
        (record { dev = s; parent = p; child = c })

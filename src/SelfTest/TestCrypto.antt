-- ===== src/SelfTest/TestCrypto.antt =====
-- virtio-crypto/guest/test_crypto.c, with /dev/urandom as a descriptor that can be opened, or not.
use cryptodev_chat.Common.{
  ℕ, List, Option, none, some, ℤ, negsuc, is_neg, is_zero, if◌then◌else◌, ◌==◌,
}
use cryptodev_chat.Io.{Port, read}
use cryptodev_chat.Cryptodev.{Cryptodev}
use cryptodev_chat.Run.{Run, ok, ◌>>=◌}
use cryptodev_chat.Chat.Buffer.{poke}
use cryptodev_chat.SelfTest.{Arrays, test_session}

abbrev pub data_size : ℕ
data_size = 16384

abbrev pub key_size : ℕ
key_size = 24

-- The rest of the arrays is never set: the stack decides.
pub record Stack : Type 0 where
  pub input : List ℕ
  pub iv : List ℕ
  pub key : List ℕ

-- fill_urandom_buff(in): the result, the array and the descriptor; `none` is a failing open.
unfoldable pub fill_urandom_buff : List ℕ → Option Port → Run (ℤ × List ℕ × Option Port)
fill_urandom_buff input none = ok (negsuc 0, input, none)
fill_urandom_buff input (some p) = do
  let r = read data_size p
  input' ← poke input 0 r.1
  ok (r.0, input', some r.2)

module _ (d : Cryptodev) (at_data : Arrays) (stack : Stack) where
  open d use {State, open_dev, close_dev}

  -- test_crypto(cfd)
  unfoldable pub test_crypto : ℤ → Option Port → State → Run (ℕ × State)
  test_crypto cfd urandom s = do
    (ret, input, urandom') ← fill_urandom_buff stack.input urandom
    if is_neg ret
        then ok (1, s)
        else test_session d at_data key_size data_size cfd stack.key stack.iv input s

  abbrev after_test : ℤ → ℕ × State → Run (ℕ × State)
  after_test fd (result, s) =
      if result == 0
      then (let closed = close_dev fd s in ok (if is_zero closed.0 then 0 else 1, closed.1))
      else ok (1, s)

  -- main, with the file that it opens in `open_dev`: the exit status
  unfoldable pub main : Option Port → State → Run (ℕ × State)
  main urandom s = do
    let opened = open_dev s
    if is_neg opened.0
        then ok (1, opened.1)
        else test_crypto opened.0 urandom opened.1 >>= after_test opened.0

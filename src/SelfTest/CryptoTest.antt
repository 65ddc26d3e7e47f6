-- ===== src/SelfTest/CryptoTest.antt =====
-- cryptodev/crypto-test.c, with /dev/urandom as a descriptor that can be opened, or not.
use cryptodev_chat.Common.{
  ℕ, zero, suc, ◌-◌, List, [], ◌++◌, Option, none, some, ℤ, pos, negsuc, is_neg, if◌then◌else◌,
}
use cryptodev_chat.Io.{Port, read}
use cryptodev_chat.Cryptodev.{Cryptodev}
use cryptodev_chat.Run.{Run, ok, spins, ◌>>=◌}
use cryptodev_chat.SelfTest.{Arrays, test_session}

abbrev pub data_size : ℕ
data_size = 256

abbrev pub block_size : ℕ
block_size = 16

abbrev pub key_size : ℕ
key_size = 16

abbrev pub after_read :
    ℤ × List ℕ × Port
    → List ℕ
    → (ℕ → List ℕ → Port → Option ℤ × List ℕ × Port)
    → Option ℤ × List ℕ × Port
after_read (negsuc e, bs, p) got again = (some (negsuc e), got, p)
after_read (pos k, bs, p) got again = again k (got ++ bs) p

-- This insist_read does not stop at the end of the stream, where read returns 0 for ever: without a
-- byte to read, the loop uses up its fuel.
unfoldable pub insist_read_loop : ℕ → ℕ → ℕ → List ℕ → Port → Option ℤ × List ℕ × Port
insist_read_loop fuel zero orig_cnt got p = (some (pos orig_cnt), got, p)
insist_read_loop zero (suc cnt) orig_cnt got p = (none, got, p)
insist_read_loop (suc fuel) (suc cnt) orig_cnt got p =
    after_read (read (suc cnt) p) got
      (λ k got' q. insist_read_loop fuel (suc cnt - k) orig_cnt got' q)

unfoldable pub insist_read : ℕ → Port → Option ℤ × List ℕ × Port
insist_read cnt p = insist_read_loop cnt cnt cnt [] p

abbrev filled : Option ℤ × List ℕ × Port → Run (ℤ × List ℕ × Option Port)
filled (none, bs, p) = spins
filled (some ret, bs, p) = ok (ret, bs, some p)

-- fill_urandom_buf(buf, cnt): the result, what is stored at the start of buf, the descriptor
unfoldable pub fill_urandom_buf : ℕ → Option Port → Run (ℤ × List ℕ × Option Port)
fill_urandom_buf cnt none = ok (negsuc 0, [], none)
fill_urandom_buf cnt (some p) = filled (insist_read cnt p)

module _ (d : Cryptodev) (at_data : Arrays) where
  open d use {State, open_dev, close_dev}

  -- if (fill_urandom_buf(buf, cnt) < 0) return 1;
  filling : ℕ → Option Port → State → (List ℕ → Option Port → Run (ℕ × State)) → Run (ℕ × State)
  filling cnt urandom s next = do
    (ret, bs, urandom') ← fill_urandom_buf cnt urandom
    if is_neg ret then ok (1, s) else next bs urandom'

  -- test_crypto(cfd)
  unfoldable pub test_crypto : ℤ → Option Port → State → Run (ℕ × State)
  unfolding filling
  test_crypto cfd urandom s = filling data_size urandom s (λ input urandom₁.
      filling block_size urandom₁ s (λ iv urandom₂.
        filling key_size urandom₂ s
          (λ key urandom₃. test_session d at_data key_size data_size cfd key iv input s)))

  -- `test_crypto(fd) < 0` never holds, since test_crypto returns 0 or 1.
  abbrev after_test : ℤ → ℕ × State → Run (ℕ × State)
  after_test fd (result, s) =
      if is_neg (pos result)
      then ok (1, s)
      else (let closed = close_dev fd s in ok (if is_neg closed.0 then 1 else 0, closed.1))

  -- main: the exit status
  unfoldable pub main : Option Port → State → Run (ℕ × State)
  main urandom s = do
    let opened = open_dev s
    if is_neg opened.0
        then ok (1, opened.1)
        else test_crypto opened.0 urandom opened.1 >>= after_test opened.0

-- ===== src/Tests/SelfTest.antt =====
-- The test programs on the device whose cipher reverses.
use cryptodev_chat.Common.{
  arith, ℕ, ◌≡◌, refl, List, [], ◌∷◌, false, none, some, pos, replicate, length-replicate,
}
use cryptodev_chat.Run.{ok}
use cryptodev_chat.Io.{Port, upto}
use cryptodev_chat.Cryptodev.Toy.{toy, reversing, toy_service}
use cryptodev_chat.SelfTest.Insist.{insist_read-endless}
use cryptodev_chat.SelfTest.{Arrays}
use cryptodev_chat.SelfTest.CryptoTest
use cryptodev_chat.SelfTest.TestCrypto.{Stack, data_size, key_size, main}
use cryptodev_chat.SelfTest.Exit.{Verified, main-Verified, main-passes}

abbrev arrays : Arrays
arrays = record {
  input = 0x1000;
  encrypted = 0x5000;
  decrypted = 0x9000;
  iv = 0xd000;
  key = 0xd010;
}

abbrev stack : Stack
stack = record { input = replicate data_size 0; iv = []; key = replicate key_size 0 }

-- It gives three bytes at the first read.
abbrev urandom : Port
urandom = record { incoming = 4 ∷ 5 ∷ 6 ∷ []; outgoing = []; turns = upto 2 ∷ [] }

main-passes_example : (s' : List (List ℕ)) × (main toy arrays stack (some urandom) [] ≡ ok (0, s'))
main-passes_example =
    main-passes toy reversing toy_service arrays stack urandom []
      (length-replicate {A = ℕ} data_size 0) (length-replicate {A = ℕ} key_size 0) tt

main-Verified_example : (false ≡ false) × Verified toy arrays stack (pos 3) (some urandom) []
main-Verified_example = main-Verified toy arrays stack (some urandom) [] main-passes_example.1

-- Without /dev/urandom the test returns 1, and the program exits with 0.
failed_test : CryptoTest.main toy arrays none [] ≡ ok (0, [])
unfolding CryptoTest.main CryptoTest.test_crypto CryptoTest.fill_urandom_buf
failed_test = refl

insist_read-endless_example : (CryptoTest.insist_read_loop 1000 4 4 [] urandom).0 ≡ none
insist_read-endless_example = insist_read-endless 1000 4 urandom tt (omega arith)

-- ===== src/SelfTest/Exit.antt =====
-- What the exit status of the test programs says.
use cryptodev_chat.Common.{
  ℕ, ◌≡◌, refl, ap, ◌∙◌, List, ◌++◌, Option, some, ℤ, pos, is_neg, false, ◌==◌, length, take, drop,
  arith, Bool-cases, inl, inr, length-append, length-take, length-drop,
}
use cryptodev_chat.Io.{Port, Steady, rest_turns, read}
use cryptodev_chat.Io.Turns.{next_grant_bounds}
use cryptodev_chat.Cryptodev.{Cryptodev}
use cryptodev_chat.Cryptodev.Service.{BlockCipher, Service}
use cryptodev_chat.Run.{bind-ok, ok}
use cryptodev_chat.Chat.Buffer.{poke_front}
use cryptodev_chat.SelfTest.{Arrays}
use cryptodev_chat.SelfTest.Laws.{
  one_is_not_zero, Recovered, test_session-passes, test_session-Recovered,
}
use cryptodev_chat.SelfTest.TestCrypto.{
  Stack, data_size, key_size, fill_urandom_buff, test_crypto, main,
}

module _ (d : Cryptodev) (at_data : Arrays) (stack : Stack) where
  open d use {State}

  -- The array after one read from /dev/urandom that has not failed, whose bytes stand at its front, and
  -- what the device has made of it when asked by the test itself.
  pub record Verified (cfd : ℤ) (urandom : Option Port) (s : State) : Type 0 where
    pub ret : ℤ
    pub input : List ℕ
    pub urandom' : Option Port
    pub filled : fill_urandom_buff stack.input urandom ≡ ok (ret, input, urandom')
    pub is_filled : is_neg ret ≡ false
    pub recovered : Recovered d at_data key_size data_size cfd stack.key stack.iv input s

  test_crypto-Verified :
      (cfd : ℤ) (urandom : Option Port) (s : State) {s' : State}
      → test_crypto d at_data stack cfd urandom s ≡ ok (0, s')
      → Verified cfd urandom s
  unfolding test_crypto
  test_crypto-Verified cfd urandom s h =
      let ((ret, input, urandom'), e, rest) = bind-ok (fill_urandom_buff stack.input urandom) _ h in
      elim (Bool-cases (is_neg ret)) [
        | inl f ↦ absurd (one_is_not_zero (rw f at rest))
        | inr f ↦ record {
          ret = ret;
          input = input;
          urandom' = urandom';
          filled = e;
          is_filled = f;
          recovered =
              test_session-Recovered d at_data key_size data_size cfd stack.key stack.iv input s
                (rw f at rest);
        }
      ]

  -- test_crypto.c exits with 0 only if open did not fail, a read of /dev/urandom into its array did not
  -- fail, its CIOCGSESSION and its two CIOCCRYPT returned 0, and the device, whatever it is, gave in
  -- the second of these the whole array as it was given to the first.
  pub main-Verified :
      (urandom : Option Port) (s : State) {s' : State}
      → main d at_data stack urandom s ≡ ok (0, s')
      → (is_neg (d.open_dev s).0 ≡ false) × Verified (d.open_dev s).0 urandom (d.open_dev s).1
  unfolding main
  main-Verified urandom s h = elim (Bool-cases (is_neg (d.open_dev s).0)) [
    | inl e ↦ absurd (one_is_not_zero (rw e at h))
    | inr e ↦
        let ((found, t), tested, rest) =
          bind-ok (test_crypto d at_data stack (d.open_dev s).0 urandom (d.open_dev s).1) _
            (rw e at h) in
        elim (Bool-cases (found == 0)) [
          | inl f ↦
              let zero_found : found ≡ 0 = ground arith in
              (
                e,
                test_crypto-Verified (d.open_dev s).0 urandom (d.open_dev s).1
                    (tested ∙ ap (λ n. ok (n, t)) zero_found),
              )
          | inr f ↦ absurd (one_is_not_zero (rw f at rest))
        ]
  ]

-- A read into an array keeps its size and fails on no steady schedule.
pub read-fills :
    (bytes : List ℕ) (p : Port)
    → length bytes ≡ data_size
    → Steady p.turns
    → (input : List ℕ) × (ret : ℤ) × (p' : Port) × (fill_urandom_buff bytes (some p)
        ≡ ok (ret, input, some p'))
      × (length input ≡ data_size)
      × (is_neg ret ≡ false)
unfolding fill_urandom_buff read
read-fills bytes p size st = elim (next_grant_bounds p.turns data_size (omega arith)) [
  | inl (e, unsteady) ↦ absurd (unsteady st)
  | inr (k, e, low, high) ↦
      let got : List ℕ = take k p.incoming in
      let m : ℕ = length got in
      let few = length-take k p.incoming in
      (
        got ++ drop m bytes,
        pos m,
        record p { incoming = drop k p.incoming; turns = rest_turns p.turns },
        rw (e, poke_front bytes got m refl (omega arith)) refl,
        omega (arith, length-append got (drop m bytes), length-drop m bytes),
        refl,
      )
]

-- On a device on which no call fails, with a /dev/urandom that opens and whose reads do not fail and
-- arrays of the declared sizes, test_crypto.c exits with 0, even where a read gives less than it was
-- asked for.
pub main-passes :
    (d : Cryptodev) (c : BlockCipher) (v : Service d c) (at_data : Arrays) (stack : Stack)
    (p : Port) (s : d.State)
    → length stack.input ≡ data_size
    → length stack.key ≡ key_size
    → Steady p.turns
    → (s' : d.State) × (main d at_data stack (some p) s ≡ ok (0, s'))
unfolding main test_crypto
main-passes d c v at_data stack p s input_size stack_key st =
    let fd : ℤ = (d.open_dev s).0 in
    let (input, ret, p', filled, size, fine) = read-fills stack.input p input_size st in
    let (s₁, tested, still) =
      test_session-passes d c v at_data key_size data_size refl fd stack.key stack.iv input
        (d.open_dev s).1 (inr (inl refl)) stack_key size (v.opened s) in
    let opens : is_neg fd ≡ false = rw (v.opens s).1 refl in
    ((d.close_dev fd s₁).1, rw (opens, filled, fine, tested, v.closes fd s₁ still) refl)

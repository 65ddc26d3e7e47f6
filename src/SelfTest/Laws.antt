-- ===== src/SelfTest/Laws.antt =====
-- The test programs' core on a device on which no call fails.
use cryptodev_chat.Common.{
  is_equal, is_equal_refl, is_equal→≡, ℕ, ◌≡◌, ◌%◌, Bool-cases, inl, inr, is_zero, refl, ap, ◌∙◌,
  List, ℤ, some, true, length, arith, take-all,
}
use cryptodev_chat.Cryptodev.{Cryptodev, SessionOp}
use cryptodev_chat.Cryptodev.Service.{BlockCipher, Service, IsKeySize}
use cryptodev_chat.Run.{bind-ok, Run, ok}
use cryptodev_chat.Chat.Buffer.{peek, peek_front}
use cryptodev_chat.SelfTest.{
  Arrays, session_of, sealing, unsealing, decrypt_data, encrypt_data, test_session,
}

pub peek_whole : (bs : List ℕ) (n : ℕ) → length bs ≡ n → peek bs 0 n ≡ ok bs
peek_whole bs n e = peek_front bs n (omega arith) ∙ ap ok (take-all n bs (omega arith))

module _ (d : Cryptodev) (c : BlockCipher) (v : Service d c) (at_data : Arrays) (keylen size : ℕ)
    (whole : size % 16 ≡ 0) where
  open d use {State}

  decrypt_data-passes :
      (cfd : ℤ) (ses : ℕ) (key iv input : List ℕ) (s : State)
      → v.key_of s cfd ses ≡ some key
      → length input ≡ size
      → (s' : State) × (decrypt_data d at_data keylen size cfd ses iv input (c.seal key iv input) s
          ≡ ok (0, s'))
        × v.IsOpen s' cfd
  unfolding decrypt_data
  decrypt_data-passes cfd ses key iv input s bound long =
      let sealed : List ℕ = c.seal key iv input in
      let block : length sealed ≡ size = c.length-seal key iv input (omega (arith, long)) ∙ long in
      let op = unsealing d at_data keylen size ses in
      (
        (d.free_session cfd ses (d.crypt cfd op sealed iv s).2).1,
        rw
            (
              v.crypt_returns cfd op key sealed iv s bound block whole,
              v.crypt_unseals cfd op key sealed iv s bound block whole refl,
              c.unseal-seal key iv input (omega (arith, long)),
              peek_whole input size long,
              is_equal_refl input,
              v.frees cfd ses key (d.crypt cfd op sealed iv s).2
                  (v.crypt_keeps cfd op key sealed iv s ses bound),
            )
            refl,
        v.free_keeps cfd ses key (d.crypt cfd op sealed iv s).2
            (v.crypt_keeps cfd op key sealed iv s ses bound),
      )

  encrypt_data-passes :
      (cfd : ℤ) (ses : ℕ) (key iv input : List ℕ) (s : State)
      → v.key_of s cfd ses ≡ some key
      → length input ≡ size
      → (s' : State) × (encrypt_data d at_data keylen size cfd ses iv input s ≡ ok (0, s'))
        × v.IsOpen s' cfd
  unfolding encrypt_data
  encrypt_data-passes cfd ses key iv input s bound long =
      let op = sealing d at_data keylen size ses in
      let (s', done, still) =
        decrypt_data-passes cfd ses key iv input (d.crypt cfd op input iv s).2
          (v.crypt_keeps cfd op key input iv s ses bound) long in
      (
        s',
        rw
            (
              v.crypt_returns cfd op key input iv s bound long whole,
              v.crypt_seals cfd op key input iv s bound long whole refl,
              peek_whole (c.seal key iv input) size
                  (c.length-seal key iv input (omega (arith, long)) ∙ long),
            )
            done,
        still,
      )

  -- With a key of its size and whole blocks of data, the core returns 0.
  pub test_session-passes :
      (cfd : ℤ) (key iv input : List ℕ) (s : State)
      → IsKeySize keylen
      → length key ≡ keylen
      → length input ≡ size
      → v.IsOpen s cfd
      → (s' : State) × (test_session d at_data keylen size cfd key iv input s ≡ ok (0, s'))
        × v.IsOpen s' cfd
  unfolding test_session
  test_session-passes cfd key iv input s aes key_size long is_open =
      let op : SessionOp = session_of d at_data keylen size in
      let got = d.get_session cfd op key s in
      let (s', done, still) =
        encrypt_data-passes cfd got.1.ses key iv input got.2
          (v.get_binds cfd op key s is_open refl aes key_size) long in
      (s', rw (v.get_returns cfd op key s is_open refl aes key_size) done, still)

pub one_is_not_zero : {S : Type 0} {s s' : S} → ¬ (◌≡◌ {A = Run (ℕ × S)} (ok (1, s)) (ok (0, s')))
one_is_not_zero h = cc

module _ (d : Cryptodev) (at_data : Arrays) (keylen size : ℕ) (cfd : ℤ) (iv input : List ℕ) where
  open d use {State}

  decrypt_data-recovers :
      (ses : ℕ) (encrypted : List ℕ) (s : State) {s' : State}
      → decrypt_data d at_data keylen size cfd ses iv input encrypted s ≡ ok (0, s')
      → (is_zero (d.crypt cfd (unsealing d at_data keylen size ses) encrypted iv s).0 ≡ true)
        × (peek (d.crypt cfd (unsealing d at_data keylen size ses) encrypted iv s).1 0 size
            ≡ ok input)
  unfolding decrypt_data
  decrypt_data-recovers ses encrypted s h =
      let plain = d.crypt cfd (unsealing d at_data keylen size ses) encrypted iv s in
      elim (Bool-cases (is_zero plain.0)) [
        | inl e ↦
            let (decrypted, read, same) = bind-ok (peek plain.1 0 size) _ (rw e at h) in
            elim (Bool-cases (is_equal input decrypted)) [
              | inl f ↦ (e, rw (is_equal→≡ input decrypted f) read)
              | inr f ↦ absurd (one_is_not_zero (rw f at same))
            ]
        | inr e ↦ absurd (one_is_not_zero (rw e at h))
      ]

module _ (d : Cryptodev) (at_data : Arrays) (keylen size : ℕ) (cfd : ℤ) (key iv input : List ℕ)
    (s : d.State) where
  open d use {State}

  -- The number of the session that the test gets.
  abbrev test_ses : ℕ
  test_ses = (d.get_session cfd (session_of d at_data keylen size) key s).1.ses

  -- The test's first CIOCCRYPT: what it returns, gives and leaves.
  abbrev encrypting : ℤ × List ℕ × State
  encrypting =
      d.crypt cfd (sealing d at_data keylen size test_ses) input iv
        (d.get_session cfd (session_of d at_data keylen size) key s).2

  -- The calls of the test itself: CIOCGSESSION and both CIOCCRYPT return 0, and what the second, which
  -- is to decrypt what the first gave, gives is the data.
  pub record Recovered : Type 0 where
    pub encrypted : List ℕ
    pub gets : is_zero (d.get_session cfd (session_of d at_data keylen size) key s).0 ≡ true
    pub encrypts : is_zero encrypting.0 ≡ true
    pub sealed : peek encrypting.1 0 size ≡ ok encrypted
    pub decrypts :
        is_zero (d.crypt cfd (unsealing d at_data keylen size test_ses) encrypted iv encrypting.2).0
        ≡ true
    pub recovered :
        peek
          (d.crypt cfd (unsealing d at_data keylen size test_ses) encrypted iv encrypting.2).1
          0
          size
        ≡ ok input

  -- On any device at all: when the core returns 0, the device has recovered the data.
  pub test_session-Recovered :
      {s' : State} → test_session d at_data keylen size cfd key iv input s ≡ ok (0, s') → Recovered
  unfolding test_session encrypt_data
  test_session-Recovered h =
      elim (Bool-cases (is_zero (d.get_session cfd (session_of d at_data keylen size) key s).0)) [
        | inl e ↦
            let h₁ = rw e at h in
            elim (Bool-cases (is_zero encrypting.0)) [
              | inl f ↦
                  let (encrypted, stored, rest) =
                    bind-ok (peek encrypting.1 0 size) _ (rw f at h₁) in
                  let (zero_plain, plain) =
                    decrypt_data-recovers d at_data keylen size cfd iv input test_ses encrypted
                      encrypting.2 rest in
                  record {
                    encrypted = encrypted;
                    gets = e;
                    encrypts = f;
                    sealed = stored;
                    decrypts = zero_plain;
                    recovered = plain;
                  }
              | inr f ↦ absurd (one_is_not_zero (rw f at h₁))
            ]
        | inr e ↦ absurd (one_is_not_zero (rw e at h))
      ]

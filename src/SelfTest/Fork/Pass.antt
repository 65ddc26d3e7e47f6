-- ===== src/SelfTest/Fork/Pass.antt =====
-- Both processes of test_fork_crypto.c pass their test.
use cryptodev_chat.Common.{
  ℕ, suc, ◌+◌, ◌-◌, ◌≤◌, ◌<◌, ◌%◌, ◌≡◌, ◌≢◌, refl, ap, ◌∙◌, List, [], ◌∷◌, some, Bool, true, false,
  ℤ, arith,
}
use cryptodev_chat.Cryptodev.{Cryptodev}
use cryptodev_chat.Cryptodev.Service.{BlockCipher, Service, Sharing, IsKeySize}
use cryptodev_chat.Run.{ok}
use cryptodev_chat.SelfTest.{Arrays}
use cryptodev_chat.SelfTest.Fork.{
  Data, Pc, getting, encrypting, decrypting, finishing, closing, ended, advance, System, run,
}
use cryptodev_chat.SelfTest.Fork.Apart.{some_inj, session, left, IsData, Good, Call, advance-Call}

-- How many turns the process `who` has.
abbrev pub turns_of : Bool → List Bool → ℕ
turns_of who [] = 0
turns_of true (true ∷ turns) = suc (turns_of true turns)
turns_of true (false ∷ turns) = turns_of true turns
turns_of false (true ∷ turns) = turns_of false turns
turns_of false (false ∷ turns) = suc (turns_of false turns)

module _ (d : Cryptodev) (c : BlockCipher) (v : Service d c) (sh : Sharing d c v) (at_data : Arrays)
    (keylen size : ℕ) (whole : size % 16 ≡ 0) (aes : IsKeySize keylen) (cfd : ℤ) where
  open d use {State}

  abbrev Well : Data → State → Pc → Type 0
  Well mine s p = Good d c v sh at_data keylen size whole aes cfd mine s p

  -- Two processes in order, with different sessions.
  record Both (mine theirs : Data) (s : State) (p q : Pc) : Type 0 where
    good : Well mine s p
    other_good : Well theirs s q
    apart : (ses : ℕ) → session q ≡ some ses → session p ≢ some ses
    still : 0 < left p + left q → v.IsOpen s cfd

  Both-swap :
      {mine theirs : Data} {s : State} {p q : Pc} → Both mine theirs s p q → Both theirs mine s q p
  Both-swap both = record {
    good = both.other_good;
    other_good = both.good;
    apart = λ ses e f. both.apart ses f e;
    still = λ more. both.still (omega arith);
  }

  Well-keeps :
      {mine theirs : Data} {s : State} {p : Pc} (q : Pc)
      (call : Call d c v sh at_data keylen size whole aes cfd mine p q s)
      → Both mine theirs s p q
      → Well theirs call.s' q
  Well-keeps getting call both = tt
  Well-keeps (encrypting ses) call both =
      call.keeps ses _ refl (both.apart ses refl) both.other_good
  Well-keeps (decrypting ses e) call both =
      (call.keeps ses _ refl (both.apart ses refl) both.other_good.0, both.other_good.1)
  Well-keeps (finishing ses) call both = call.keeps ses _ refl (both.apart ses refl) both.other_good
  Well-keeps closing call both = tt
  Well-keeps (ended n) call both = both.other_good

  Well-bound :
      (mine : Data) (s : State) (p : Pc)
      → Well mine s p
      → (ses : ℕ) → session p ≡ some ses
      → v.key_of s cfd ses ≡ some mine.key
  Well-bound mine s getting good ses e = cc
  Well-bound mine s (encrypting x) good ses e = rw (some_inj e) at good
  Well-bound mine s (decrypting x b) good ses e = rw (some_inj e) at good.0
  Well-bound mine s (finishing x) good ses e = rw (some_inj e) at good
  Well-bound mine s closing good ses e = cc
  Well-bound mine s (ended n) good ses e = cc

  -- The turn of one process.
  record Turn (mine theirs : Data) (s : State) (p q : Pc) : Type 0 where
    p' : Pc
    s' : State
    done : advance d at_data keylen size cfd mine q p s ≡ ok (p', s')
    both : Both mine theirs s' p' q
    less : left p' ≡ left p - 1

  call-Turn :
      (mine theirs : Data) (s : State) (p q : Pc)
      → IsData keylen size mine
      → Both mine theirs s p q
      → 0 < left p
      → Turn mine theirs s p q
  call-Turn mine theirs s p q h both more =
      let call =
        advance-Call d c v sh at_data keylen size whole aes cfd mine p q s h both.good
          (both.still (omega arith)) more in
      record {
        p' = call.p';
        s' = call.s';
        done = call.done;
        both = record {
          good = call.good;
          other_good = Well-keeps q call both;
          apart = λ ses e.
              call.apart ses theirs.key e (both.apart ses e)
                (Well-bound theirs s q both.other_good ses e);
          still = call.still;
        };
        less = call.less;
      }

  turn :
      (mine theirs : Data) (s : State) (p q : Pc)
      → IsData keylen size mine
      → Both mine theirs s p q
      → Turn mine theirs s p q
  unfolding advance
  turn mine theirs s getting q h both = call-Turn mine theirs s getting q h both (omega arith)
  turn mine theirs s (encrypting x) q h both =
      call-Turn mine theirs s (encrypting x) q h both (omega arith)
  turn mine theirs s (decrypting x b) q h both =
      call-Turn mine theirs s (decrypting x b) q h both (omega arith)
  turn mine theirs s (finishing x) q h both =
      call-Turn mine theirs s (finishing x) q h both (omega arith)
  turn mine theirs s closing q h both = call-Turn mine theirs s closing q h both (omega arith)
  turn mine theirs s (ended n) q h both = record {
    p' = ended n;
    s' = s;
    done = refl;
    both = both;
    less = refl;
  }

  module _ (mine theirs : Data) (h : IsData keylen size mine) (h' : IsData keylen size theirs) where
    run-left :
        (turns : List Bool) (y : System d at_data keylen size cfd)
        → Both mine theirs y.dev y.parent y.child
        → (z : System d at_data keylen size cfd) × (run d at_data keylen size cfd mine theirs turns
              y
            ≡ ok z)
          × Both mine theirs z.dev z.parent z.child
          × (left z.parent ≡ left y.parent - turns_of true turns)
          × (left z.child ≡ left y.child - turns_of false turns)
    unfolding run
    run-left [] y both = (y, refl, both, omega arith, omega arith)
    run-left (true ∷ turns) y both =
        let t = turn mine theirs y.dev y.parent y.child h both in
        let (z, done, both', p, q) =
          run-left turns (record y { dev = t.s'; parent = t.p' }) t.both in
        (z, rw (t.done, done) refl, both', omega (arith, t.less), q)
    run-left (false ∷ turns) y both =
        let t = turn theirs mine y.dev y.child y.parent h' (Both-swap both) in
        let (z, done, both', p, q) =
          run-left turns (record y { dev = t.s'; child = t.p' }) (Both-swap t.both) in
        (z, rw (t.done, done) refl, both', p, omega (arith, t.less))

    ended-Well : (m : Data) (s : State) (p : Pc) → Well m s p → left p ≡ 0 → p ≡ ended 0
    ended-Well m s getting good none_left = absurd (omega arith)
    ended-Well m s (encrypting x) good none_left = absurd (omega arith)
    ended-Well m s (decrypting x b) good none_left = absurd (omega arith)
    ended-Well m s (finishing x) good none_left = absurd (omega arith)
    ended-Well m s closing good none_left = absurd (omega arith)
    ended-Well m s (ended n) good none_left = ap ended good

    -- On a device on which no call fails and whose sessions do not disturb each other, with keys of a
    -- size that AES has, whole blocks of data and a descriptor that is open: in every order of their
    -- calls in which each process has its five turns at least, both processes of test_fork_crypto.c
    -- exit with 0.
    pub run-passes :
        (turns : List Bool) (s : State)
        → v.IsOpen s cfd
        → 5 ≤ turns_of true turns
        → 5 ≤ turns_of false turns
        → (s' : State) × (run d at_data keylen size cfd mine theirs turns
              (record { dev = s; parent = getting; child = getting })
            ≡ ok (record { dev = s'; parent = ended 0; child = ended 0 }))
    run-passes turns s is_open enough enough' =
        let (z, done, both, p, q) =
          run-left turns (record { dev = s; parent = getting; child = getting })
            (record {
              good = tt;
              other_good = tt;
              apart = λ ses e f. cc;
              still = λ more. is_open;
            }) in
        let e = ended-Well mine z.dev z.parent both.good (omega arith) in
        let e' = ended-Well theirs z.dev z.child both.other_good (omega arith) in
        (
          z.dev,
          done
              ∙ ap (λ a. ok (record { dev = z.dev; parent = a; child = z.child })) e
              ∙ ap (λ b. ok (record { dev = z.dev; parent = ended 0; child = b })) e',
        )

-- ===== src/SelfTest/Fork/Apart.antt =====
-- Two processes on one descriptor do not disturb each other.
use cryptodev_chat.Common.{
  ℕ, ◌+◌, ◌-◌, ◌<◌, ◌%◌, ◌≡◌, ◌≢◌, refl, ap, ◌∙◌, List, Option, none, some, ℤ, length, arith,
  is_equal_refl,
}
use cryptodev_chat.Cryptodev.{Cryptodev, SessionOp}
use cryptodev_chat.Cryptodev.Service.{BlockCipher, Service, Sharing, IsKeySize}
use cryptodev_chat.Run.{ok}
use cryptodev_chat.SelfTest.{Arrays, session_of, sealing, unsealing}
use cryptodev_chat.SelfTest.Laws.{peek_whole}
use cryptodev_chat.SelfTest.Fork.{
  Data, Pc, getting, encrypting, decrypting, finishing, closing, ended, advance,
}

pub some_inj : {x y : ℕ} → ◌≡◌ {A = Option ℕ} (some x) (some y) → x ≡ y
some_inj e = cc

-- The live session of a process.
abbrev pub session : Pc → Option ℕ
session getting = none
session (encrypting ses) = some ses
session (decrypting ses encrypted) = some ses
session (finishing ses) = some ses
session closing = none
session (ended n) = none

-- The calls that a process has still to make.
abbrev pub left : Pc → ℕ
left getting = 5
left (encrypting ses) = 4
left (decrypting ses encrypted) = 3
left (finishing ses) = 2
left closing = 1
left (ended n) = 0

-- Arrays of the declared sizes.
pub record IsData (keylen size : ℕ) (mine : Data) : Type 0 where
  pub key_size : length mine.key ≡ keylen
  pub input_size : length mine.input ≡ size

module _ (d : Cryptodev) (c : BlockCipher) (v : Service d c) (sh : Sharing d c v) (at_data : Arrays)
    (keylen size : ℕ) (whole : size % 16 ≡ 0) (aes : IsKeySize keylen) (cfd : ℤ) where
  open d use {State}

  -- A process in order: its session is bound to its key, and what it has encrypted is right.
  abbrev pub Good : Data → State → Pc → Type 0
  Good mine s getting = Unit {0}
  Good mine s (encrypting ses) = v.key_of s cfd ses ≡ some mine.key
  Good mine s (decrypting ses encrypted) =
      (v.key_of s cfd ses ≡ some mine.key) × (encrypted ≡ c.seal mine.key mine.iv mine.input)
  Good mine s (finishing ses) = v.key_of s cfd ses ≡ some mine.key
  Good mine s closing = Unit {0}
  Good mine s (ended n) = n ≡ 0

  -- What a call of one process does for itself and for the sessions of the other.
  pub record Call (mine : Data) (p other : Pc) (s : State) : Type 0 where
    pub p' : Pc
    pub s' : State
    pub done : advance d at_data keylen size cfd mine other p s ≡ ok (p', s')
    pub good : Good mine s' p'
    pub less : left p' ≡ left p - 1
    pub still : 0 < left p' + left other → v.IsOpen s' cfd
    pub keeps :
        (ses : ℕ) (key : List ℕ)
        → session other ≡ some ses
        → session p ≢ some ses
        → v.key_of s cfd ses ≡ some key
        → v.key_of s' cfd ses ≡ some key
    pub apart :
        (ses : ℕ) (key : List ℕ)
        → session other ≡ some ses
        → session p ≢ some ses
        → v.key_of s cfd ses ≡ some key
        → session p' ≢ some ses

  module _ (mine : Data) (h : IsData keylen size mine) (other : Pc) (s : State) where
    pub getting-Call : v.IsOpen s cfd → Call mine getting other s
    unfolding advance
    getting-Call is_open =
        let op : SessionOp = session_of d at_data keylen size in
        let got = d.get_session cfd op mine.key s in
        let returns = v.get_returns cfd op mine.key s is_open refl aes h.key_size in
        record {
          p' = encrypting got.1.ses;
          s' = got.2;
          done = rw returns refl;
          good = v.get_binds cfd op mine.key s is_open refl aes h.key_size;
          less = refl;
          still = λ some_left. sh.get_open cfd op mine.key s is_open;
          keeps = λ ses key own no b. sh.get_keeps cfd op mine.key key s ses b;
          apart =
              λ ses key own no b e. sh.get_apart cfd op mine.key key s ses b returns (some_inj e);
        }

    pub encrypting-Call :
        (ses : ℕ)
        → v.key_of s cfd ses ≡ some mine.key
        → v.IsOpen s cfd
        → Call mine (encrypting ses) other s
    unfolding advance
    encrypting-Call ses bound is_open =
        let op = sealing d at_data keylen size ses in
        let block : List ℕ = c.seal mine.key mine.iv mine.input in
        record {
          p' = decrypting ses block;
          s' = (d.crypt cfd op mine.input mine.iv s).2;
          done =
              rw
                (
                  v.crypt_returns cfd op mine.key mine.input mine.iv s bound h.input_size whole,
                  v.crypt_seals cfd op mine.key mine.input mine.iv s bound h.input_size whole refl,
                  peek_whole block size (
                      c.length-seal mine.key mine.iv mine.input (omega (arith, h.input_size))
                      ∙ h.input_size),
                )
                refl;
          good = (v.crypt_keeps cfd op mine.key mine.input mine.iv s ses bound, refl);
          less = refl;
          still = λ some_left. sh.crypt_open cfd op mine.input mine.iv s is_open;
          keeps = λ ses' key own no b. v.crypt_keeps cfd op key mine.input mine.iv s ses' b;
          apart = λ ses' key own no b e. no e;
        }

    pub decrypting-Call :
        (ses : ℕ)
        → v.key_of s cfd ses ≡ some mine.key
        → v.IsOpen s cfd
        → Call mine (decrypting ses (c.seal mine.key mine.iv mine.input)) other s
    unfolding advance
    decrypting-Call ses bound is_open =
        let op = unsealing d at_data keylen size ses in
        let block : List ℕ = c.seal mine.key mine.iv mine.input in
        let long : length block ≡ size =
          c.length-seal mine.key mine.iv mine.input (omega (arith, h.input_size)) ∙ h.input_size in
        record {
          p' = finishing ses;
          s' = (d.crypt cfd op block mine.iv s).2;
          done =
              rw
                (
                  v.crypt_returns cfd op mine.key block mine.iv s bound long whole,
                  v.crypt_unseals cfd op mine.key block mine.iv s bound long whole refl,
                  c.unseal-seal mine.key mine.iv mine.input (omega (arith, h.input_size)),
                  peek_whole mine.input size h.input_size,
                  is_equal_refl mine.input,
                )
                refl;
          good = v.crypt_keeps cfd op mine.key block mine.iv s ses bound;
          less = refl;
          still = λ some_left. sh.crypt_open cfd op block mine.iv s is_open;
          keeps = λ ses' key own no b. v.crypt_keeps cfd op key block mine.iv s ses' b;
          apart = λ ses' key own no b e. no e;
        }

    pub finishing-Call :
        (ses : ℕ) → v.key_of s cfd ses ≡ some mine.key → Call mine (finishing ses) other s
    unfolding advance
    finishing-Call ses bound = record {
      p' = closing;
      s' = (d.free_session cfd ses s).1;
      done = rw (v.frees cfd ses mine.key s bound) refl;
      good = tt;
      less = refl;
      still = λ some_left. v.free_keeps cfd ses mine.key s bound;
      keeps = λ ses' key own no b. sh.free_apart cfd key s ses' ses b (λ e. no (ap some e));
      apart = λ ses' key own no b e. cc;
    }

  -- While the other process has not ended, close only leaves the descriptor to it.
  shared-Call :
      (mine : Data) (other : Pc) (s : State)
      → advance d at_data keylen size cfd mine other closing s ≡ ok (ended 0, s)
      → v.IsOpen s cfd
      → Call mine closing other s
  shared-Call mine other s done is_open = record {
    p' = ended 0;
    s' = s;
    done = done;
    good = refl;
    less = refl;
    still = λ some_left. is_open;
    keeps = λ ses key own no b. b;
    apart = λ ses key own no b e. cc;
  }

  closing-Call : (mine : Data) (other : Pc) (s : State) → v.IsOpen s cfd → Call mine closing other s
  unfolding advance
  closing-Call mine (ended n) s is_open = record {
    p' = ended 0;
    s' = (d.close_dev cfd s).1;
    done = rw (v.closes cfd s is_open) refl;
    good = refl;
    less = refl;
    still = λ some_left. absurd (omega arith);
    keeps = λ ses key own no b. cc;
    apart = λ ses key own no b e. cc;
  }
  closing-Call mine getting s is_open = shared-Call mine getting s refl is_open
  closing-Call mine (encrypting ses) s is_open = shared-Call mine (encrypting ses) s refl is_open
  closing-Call mine (decrypting ses e) s is_open =
      shared-Call mine (decrypting ses e) s refl is_open
  closing-Call mine (finishing ses) s is_open = shared-Call mine (finishing ses) s refl is_open
  closing-Call mine closing s is_open = shared-Call mine closing s refl is_open

  -- Every call of a process in order.
  pub advance-Call :
      (mine : Data) (p other : Pc) (s : State)
      → IsData keylen size mine
      → Good mine s p
      → v.IsOpen s cfd
      → 0 < left p
      → Call mine p other s
  advance-Call mine getting other s h good is_open more = getting-Call mine h other s is_open
  advance-Call mine (encrypting ses) other s h good is_open more =
      encrypting-Call mine h other s ses good is_open
  advance-Call mine (decrypting ses e) other s h (bound, right) is_open more =
      rw right (decrypting-Call mine h other s ses bound is_open)
  advance-Call mine (finishing ses) other s h good is_open more =
      finishing-Call mine h other s ses good
  advance-Call mine closing other s h good is_open more = closing-Call mine other s is_open
  advance-Call mine (ended n) other s h good is_open more = absurd (omega arith)

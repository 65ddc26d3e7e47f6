-- ===== src/Cryptodev/Toy.antt =====
-- A device that keeps the promises of `Service`: sessions are never dropped, and the cipher reverses
-- the text.
use mathlib.Core.List.{reverse, reverse-reverse, reverse_aux}
use cryptodev_chat.Common.{
  ℕ, zero, suc, ◌<◌, ◌+◌, ◌≡◌, refl, List, [], ◌∷◌, ◌++◌, Option, none, some, ℤ, pos, negsuc,
  length, get_elem?, arith,
}
use cryptodev_chat.Cryptodev.{Cryptodev}
use cryptodev_chat.Cryptodev.Service.{BlockCipher, Service, Sharing}

length-reverse_aux : (xs ys : List ℕ) → length (reverse_aux xs ys) ≡ length xs + length ys
length-reverse_aux [] ys = omega arith
length-reverse_aux (x ∷ xs) ys = omega (arith, length-reverse_aux xs (x ∷ ys))

pub length-reverse : (xs : List ℕ) → length (reverse xs) ≡ length xs
length-reverse xs = omega (arith, length-reverse_aux xs [])

abbrev pub reversing : BlockCipher
reversing = record {
  seal = λ key iv text. reverse text;
  unseal = λ key iv text. reverse text;
  length-seal = λ key iv text h. length-reverse text;
  length-unseal = λ key iv text h. length-reverse text;
  unseal-seal = λ key iv text h. reverse-reverse text;
}

abbrev pub crypt_with : Option (List ℕ) → List ℕ → List (List ℕ) → ℤ × List ℕ × List (List ℕ)
crypt_with none src s = (negsuc 21, [], s)
crypt_with (some key) src s = (pos 0, reverse src, s)

-- The state is the list of the keys of all sessions, a session's number its place.
abbrev pub toy : Cryptodev
toy = record {
  State = List (List ℕ);
  open_dev = λ s. (pos 3, s);
  close_dev = λ fd s. (pos 0, s);
  get_session = λ fd op key s. (pos 0, record op { ses = length s }, s ++ key ∷ []);
  free_session = λ fd ses s. (pos 0, s);
  crypt = λ fd op src iv s. crypt_with (get_elem? s op.ses) src s;
}

get_elem?-last :
    (s : List (List ℕ)) (key : List ℕ) → get_elem? (s ++ key ∷ []) (length s) ≡ some key
get_elem?-last [] key = refl
get_elem?-last (x ∷ s) key = get_elem?-last s key

crypt_with-keeps :
    (o : Option (List ℕ)) (src : List ℕ) (s : List (List ℕ)) → (crypt_with o src s).2 ≡ s
crypt_with-keeps none src s = refl
crypt_with-keeps (some key) src s = refl

pub toy_service : Service toy reversing
toy_service = record {
  IsOpen = λ s fd. Unit {0};
  key_of = λ s fd ses. get_elem? s ses;
  opens = λ s. (3, refl);
  opened = λ s. tt;
  closes = λ fd s h. refl;
  get_returns = λ fd op key s h c l n. refl;
  get_binds = λ fd op key s h c l n. get_elem?-last s key;
  crypt_returns = λ fd op key src iv s b l n. rw b refl;
  crypt_seals = λ fd op key src iv s b l n o. rw b refl;
  crypt_unseals = λ fd op key src iv s b l n o. rw b refl;
  crypt_keeps = λ fd op key src iv s ses b. rw (crypt_with-keeps (get_elem? s op.ses) src s) b;
  frees = λ fd ses key s b. refl;
  free_keeps = λ fd ses key s b. tt;
}

get_elem?-append :
    (s : List (List ℕ)) (key key' : List ℕ) (i : ℕ)
    → get_elem? s i ≡ some key'
    → get_elem? (s ++ key ∷ []) i ≡ some key'
get_elem?-append [] key key' i h = cc
get_elem?-append (x ∷ s) key key' zero h = h
get_elem?-append (x ∷ s) key key' (suc i) h = get_elem?-append s key key' i h

get_elem?_below :
    (s : List (List ℕ)) (key : List ℕ) (i : ℕ) → get_elem? s i ≡ some key → i < length s
get_elem?_below [] key i h = cc
get_elem?_below (x ∷ s) key zero h = omega arith
get_elem?_below (x ∷ s) key (suc i) h = omega (arith, get_elem?_below s key i h)

pub toy_Sharing : Sharing toy reversing toy_service
unfolding toy_service
toy_Sharing = record {
  get_open = λ fd op key s h. tt;
  crypt_open = λ fd op src iv s h. tt;
  get_keeps = λ fd op key key' s ses b. get_elem?-append s key key' ses b;
  get_apart = λ fd op key key' s ses b r e. let low = get_elem?_below s key' ses b in omega arith;
  free_apart = λ fd key s ses ses' b apart. b;
}

pub toy_open : (s : List (List ℕ)) (fd : ℤ) → toy_service.IsOpen s fd
unfolding toy_service
toy_open s fd = tt

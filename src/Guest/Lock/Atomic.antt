-- ===== src/Guest/Lock/Atomic.antt =====
-- What the lock of crypto-chrdev.c is to give its callers: the host's device as a service that answers
-- one request at a time, each between its call and its return.
use cryptodev_chat.Common.{ℕ, ◌≡◌, ◌⊎◌, update}
use cryptodev_chat.Run.{ok}
use cryptodev_chat.Cryptodev.{Cryptodev}
use cryptodev_chat.Virtio.{Elem}
use cryptodev_chat.Backend.{Mapping, handle_elem}
use cryptodev_chat.Guest.Chrdev.{Request}
use cryptodev_chat.Guest.Chrdev.Agree.{IsRequest, elem_of}
use cryptodev_chat.Guest.Lock.{Pc, outside, wanting, locked, added, polling, got, unlocked}

pub data Phase : Type 0 where
  idle : Phase
  calling : Request → Phase
  done : Request → Elem → Phase

-- What the code's places look like from there.
abbrev pub View : Pc → Phase → Type 0
View outside p = p ≡ idle
View (wanting r) p = p ≡ calling r
View (locked r) p = p ≡ calling r
View (added r) p = p ≡ calling r
View (polling r) p = (p ≡ calling r) ⊎ ((e : Elem) × (p ≡ done r e))
View (got r e) p = p ≡ done r e
View (unlocked r e) p = p ≡ done r e

module _ (d : Cryptodev) (m : Mapping) where
  open d use {State}

  pub record Service : Type 0 where
    pub host : State
    pub phase : ℕ → Phase

  pub data Act (a : Service) : Service → Type 0 where
    ask :
        (i : ℕ) (r : Request)
        → a.phase i ≡ idle
        → IsRequest r
        → Act a (record a { phase = update a.phase i (calling r) })
    -- One run of the switch on the request, all at once.
    serve :
        (i : ℕ) (r : Request) (e : Elem) (s : State)
        → a.phase i ≡ calling r
        → handle_elem d m (elem_of r) a.host ≡ ok (e, s)
        → Act a (record { host = s; phase = update a.phase i (done r e) })
    leave :
        (i : ℕ) (r : Request) (e : Elem)
        → a.phase i ≡ done r e
        → Act a (record a { phase = update a.phase i idle })

  pub data Acts (a : Service) : Service → Type 0 where
    none_yet : Acts a a
    then_act : {b c : Service} → Acts a b → Act b c → Acts a c

  abbrev pub idle_service : State → Service
  idle_service s = record { host = s; phase = λ i. idle }

-- ===== src/Virtio/Fifo.antt =====
-- A queue that keeps the promises of `Carries`: two lists, first in, first out.
use cryptodev_chat.Common.{◌≡◌, refl, List, [], ◌∷◌, ◌++◌, Option, none, some, pos}
use cryptodev_chat.Virtio.{Elem, Virtqueue, Carries}

pub record Rings : Type 0 where
  pub avail : List Elem
  pub used : List Elem

abbrev pub first_of {ℓ} : {A : Type ℓ} → List A → Option (A × List A)
first_of [] = none
first_of (x ∷ xs) = some (x, xs)

abbrev pub taken : Rings → Option (Elem × List Elem) → Option (Elem × Rings)
taken r none = none
taken r (some (e, es)) = some (e, record r { avail = es })

abbrev pub given : Rings → Option (Elem × List Elem) → Option (Elem × Rings)
given r none = none
given r (some (e, es)) = some (e, record r { used = es })

abbrev pub fifo : Virtqueue
fifo = record {
  Queue = Rings;
  add_sgs = λ o i r. (pos 0, record r { avail = r.avail ++ record { out_sg = o; in_sg = i } ∷ [] });
  get_buf = λ r. given r (first_of r.used);
  pop = λ r. taken r (first_of r.avail);
  push = λ e r. record r { used = r.used ++ e ∷ [] };
}

abbrev pub no_requests : Rings
no_requests = record { avail = []; used = [] }

abbrev pub fifo_Carries : Carries fifo
fifo_Carries = record {
  IsIdle = λ r. r ≡ no_requests;
  HasPopped = λ r. r ≡ no_requests;
  adds = λ o i q h. refl;
  waits = λ o i q h. rw h refl;
  pops = λ o i q h. (no_requests, rw h refl, refl);
  returns = λ e q h. (no_requests, rw h refl, refl);
}

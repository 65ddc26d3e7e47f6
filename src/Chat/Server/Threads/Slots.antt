-- ===== src/Chat/Server/Threads/Slots.antt =====
-- The slots of newsd_serve, and the argument that a thread reads when it starts.
use cryptodev_chat.Common.{
  ℕ, zero, suc, ◌+◌, ◌≤◌, ◌<◌, ◌≡◌, ◌≢◌, refl, sym, ◌∙◌, List, [], ◌∷◌, ◌++◌, some, Bool, true,
  false, get_elem?, set, length, arith, ltb, update_self, Option,
}
use cryptodev_chat.Io.{Port}
use cryptodev_chat.Run.{ok, faults}
use cryptodev_chat.Cryptodev.{Cryptodev}
use cryptodev_chat.Chat.Cipher.{Frame}
use cryptodev_chat.Chat.Server.{Server}
use cryptodev_chat.Chat.Server.Threads.{
  max_clients, Thread, System, accepted, started, joined, step, run,
}

module _ {A : Type 0} where
  length-set : (xs : List A) (i : ℕ) (x : A) → length (set xs i x) ≡ length xs
  length-set [] i x = refl
  length-set (y ∷ ys) zero x = refl
  length-set (y ∷ ys) (suc i) x = omega (arith, length-set ys i x)

  pub get_elem?-set_other :
      (xs : List A) (i j : ℕ) (x : A) → i ≢ j → get_elem? (set xs i x) j ≡ get_elem? xs j
  get_elem?-set_other [] i j x ne = refl
  get_elem?-set_other (y ∷ ys) zero zero x ne = absurd (ne refl)
  get_elem?-set_other (y ∷ ys) zero (suc j) x ne = refl
  get_elem?-set_other (y ∷ ys) (suc i) zero x ne = refl
  get_elem?-set_other (y ∷ ys) (suc i) (suc j) x ne =
      get_elem?-set_other ys i j x (λ e. ne (omega arith))

  get_elem?-set : (xs : List A) (i : ℕ) (x : A) → i < length xs → get_elem? (set xs i x) i ≡ some x
  get_elem?-set [] i x h = absurd (omega arith)
  get_elem?-set (y ∷ ys) zero x h = refl
  get_elem?-set (y ∷ ys) (suc i) x h = get_elem?-set ys i x (omega arith)

-- The array has its ten slots, and those that no client has been given hold 0.
pub record Vacant {S : Type 0} (s : Server S) : Type 0 where
  pub size : length s.newsd_serve ≡ max_clients
  pub vacant : (j : ℕ) → s.no_client ≤ j → j < max_clients → get_elem? s.newsd_serve j ≡ some 0

-- What the accept of a new client on descriptor `fd` does: the next slot is its descriptor and the other
-- slots are as they were, its connection is open, the next thread that starts is its own unless
-- another accept comes first, and the slots behind are vacant.
pub record Joined {S : Type 0} (fd : ℕ) (p : Port) (y y' : System S) : Type 0 where
  pub slot : get_elem? y'.server.newsd_serve y.server.no_client ≡ some fd
  pub others :
      (j : ℕ)
      → j ≢ y.server.no_client
      → get_elem? y'.server.newsd_serve j ≡ get_elem? y.server.newsd_serve j
  pub connection : y'.server.ports fd ≡ some p
  pub argument : y'.client_id ≡ y.server.no_client
  pub count : y'.server.no_client ≡ y.server.no_client + 1
  pub vacant : Vacant y'.server

module _ (d : Cryptodev) (frame : Frame) (encrypted : Bool) (malloc : ℕ → Option (List ℕ)) where
  open d use {State}

  in_range :
      {S : Type 0} (s : Server S)
      → Vacant s
      → s.no_client < max_clients
      → ltb s.no_client (length s.newsd_serve) ≡ true
  in_range s v room = ground (arith, v.size)

  stored-Joined :
      (y : System State) (fd : ℕ) (p : Port) (created : Bool)
      → Vacant y.server
      → y.server.no_client < max_clients
      → Joined fd p y (joined fd p created (set y.server.newsd_serve y.server.no_client fd) y)
  stored-Joined y fd p created v room =
      let slots = y.server.newsd_serve in
      let n = y.server.no_client in
      record {
        slot = get_elem?-set slots n fd (omega (arith, v.size));
        others = λ j ne. get_elem?-set_other slots n j fd (λ e. ne (sym e));
        connection = update_self y.server.ports fd (some p);
        argument = refl;
        count = refl;
        vacant = record {
          size = length-set slots n fd ∙ v.size;
          vacant = λ j low high.
              get_elem?-set_other slots n j fd (λ e. omega arith) ∙ v.vacant j (omega arith) high;
        };
      }

  -- An accept while there are fewer than ten clients puts the new client's descriptor in the next slot,
  -- opens its connection, hands its number to the next thread that starts, and leaves the slots
  -- before as they were and those behind vacant; the accept of an eleventh client, whether or not others have left, writes
  -- behind the array.
  pub accepted-Vacant :
      (y : System State) (fd : ℕ) (p : Port) (created : Bool)
      → Vacant y.server
      → (y.server.no_client < max_clients
          → (y' : System State) × (step d frame encrypted malloc (accepted fd p true created) y
              ≡ ok y')
            × Joined fd p y y')
        × (max_clients ≤ y.server.no_client
            → step d frame encrypted malloc (accepted fd p true created) y ≡ faults)
  unfolding step
  accepted-Vacant y fd p created v = (
    λ room. (
      joined fd p created (set y.server.newsd_serve y.server.no_client fd) y,
      rw (in_range y.server v room) refl,
      stored-Joined y fd p created v room,
    ),
    λ full.
        let out_of_range : ltb y.server.no_client (length y.server.newsd_serve) ≡ false =
          ground (arith, v.size) in
        rw out_of_range refl,
  )

  -- The threads of two clients that start when main has accepted both of them, with room for both and
  -- no other thread waiting, both serve the second one, with its number and its descriptor.
  pub started-started :
      (y : System State) (fd fd' : ℕ) (p p' : Port)
      → Vacant y.server
      → y.waiting ≡ 0
      → y.server.no_client + 1 < max_clients
      → (y' : System State) × (run d frame encrypted malloc
            (accepted fd p true true ∷ accepted fd' p' true true ∷ started ∷ started ∷ [])
            y
          ≡ ok y')
        × (y'.server.no_client ≡ y.server.no_client + 2)
        × (y'.threads
            ≡ (y.threads ++ some (record { id = y.server.no_client + 1; client_sd = fd' }) ∷ [])
              ++ some (record { id = y.server.no_client + 1; client_sd = fd' }) ∷ [])
  unfolding run step
  started-started y fd fd' p p' v none_waits room =
      let slots = y.server.newsd_serve in
      let n = y.server.no_client in
      let first = joined fd p true (set slots n fd) y in
      let v₁ = (stored-Joined y fd p true v (omega arith)).vacant in
      let j₂ = stored-Joined first fd' p' true v₁ (omega arith) in
      let both =
        joined fd' p' true (set first.server.newsd_serve first.server.no_client fd') first in
      let last : Thread = record { id = n + 1; client_sd = fd' } in
      (
        record both { waiting = 0; threads = (y.threads ++ some last ∷ []) ++ some last ∷ [] },
        rw (in_range y.server v (omega arith), in_range first.server v₁ (omega arith), none_waits)
            (rw (j₂.slot, j₂.slot) refl),
        omega arith,
        refl,
      )

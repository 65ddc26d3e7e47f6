-- ===== src/Chat/Server/Threads/Leaving.antt =====
-- What happens when a client goes away: client_service closes newsd_serve[no_client], the slot after
-- the last client's, which holds 0 as long as nothing has been stored there.
use cryptodev_chat.Common.{
  update, update-update, update_other, update_self, ℕ, ◌+◌, ◌-◌, ◌*◌, ◌<◌, ◌^◌, ◌≡◌, ◌≢◌, refl, sym,
  ◌∙◌, List, [], ◌∷◌, ◌++◌, Option, none, some, false, get_elem?, set, length, drop, arith,
  ne→==-false, length-drop,
}
use cryptodev_chat.Io.{Port, Steady, insist_read}
use cryptodev_chat.Io.Calm.{insist_read-short, insist_read-front}
use cryptodev_chat.Run.{ok, exits}
use cryptodev_chat.Cryptodev.{Cryptodev}
use cryptodev_chat.Chat.Cipher.{Frame}
use cryptodev_chat.Chat.Buffer.{poke_front, poke_seam, peek_middle}
use cryptodev_chat.Chat.Word.{htonl, length-htonl}
use cryptodev_chat.Chat.Client.Frames.{message}
use cryptodev_chat.Chat.Client.Receive.{header-Took}
use cryptodev_chat.Chat.Server.{Server, closed_write, forward}
use cryptodev_chat.Chat.Server.Threads.{max_clients, Thread, System, served, step, run}
use cryptodev_chat.Chat.Server.Threads.Slots.{get_elem?-set_other, Vacant}

module _ (d : Cryptodev) (frame : Frame) (malloc : ℕ → Option (List ℕ)) where
  open d use {State}

  -- In clear, forward of a stream that has ended returns 1.
  forward-ended :
      (s : Server State) (sd me : ℕ) (own : Port)
      → s.ports sd ≡ some own
      → own.incoming ≡ []
      → Steady own.turns
      → forward d frame false malloc sd me s
        ≡ ok (1, record s { ports = update s.ports sd (some (insist_read 4 own).2) })
  unfolding forward
  forward-ended s sd me own is_open ended st =
      rw (is_open, (insist_read-short 4 own st (rw ended (omega arith))).0) refl

  closed_write-exits :
      (text : List ℕ) (ports : ℕ → Option Port)
      → 0 < length text
      → closed_write text ports ≡ exits 1
  closed_write-exits [] ports h = absurd (omega arith)
  closed_write-exits (x ∷ xs) ports h = refl

  -- In clear, forward of a message that has a text makes the server exit when descriptor 0 is closed.
  forward-exits :
      (s : Server State) (sd me : ℕ) (own : Port) (text rest : List ℕ)
      → ((n : ℕ) → (bs : List ℕ) × (malloc n ≡ some bs) × (length bs ≡ n))
      → s.ports sd ≡ some own
      → s.ports 0 ≡ none
      → sd ≢ 0
      → own.incoming ≡ message text ++ rest
      → Steady own.turns
      → 0 < length text
      → length text < 2 ^ 32
      → forward d frame false malloc sd me s ≡ exits 1
  unfolding forward
  forward-exits s sd me own text rest alloc is_open closed ne arrives st some_text short =
      let size : ℕ = length text in
      let (n₁, head, took₁) = header-Took text rest own arrives short st in
      let p₁ : Port = (insist_read 4 own).2 in
      let (n₂, body, took₂) =
        insist_read-front text rest size p₁ refl took₁.incoming took₁.steady in
      let p₂ : Port = (insist_read size p₁).2 in
      let (fresh, given, room) = alloc (8 * (size + 4)) in
      let back : List ℕ = drop 4 fresh in
      let back_room : length back ≡ length fresh - 4 = length-drop 4 fresh in
      rw
        (
          is_open,
          n₁,
          head,
          update_self s.ports sd (some p₁),
          given,
          poke_front fresh (htonl size) 4 (length-htonl size) (omega arith),
          body,
          poke_seam 4 (htonl size) back text (length-htonl size) (omega arith),
          n₂,
          ne→==-false size 0 (omega arith),
        )
        (rw
          (
            update-update s.ports sd (some p₁) (some p₂),
            peek_middle (htonl size) text (drop size back) 4 size (length-htonl size) refl,
            update_other s.ports sd 0 (some p₂) ne ∙ closed,
            closed_write-exits text (update s.ports sd (some p₂)) some_text,
          )
          refl)

-- The client of the thread at `i` has closed its connection, that of the thread at `j` has sent a
-- message that has a text; no read of either fails.
pub record Parting {S : Type 0} (y : System S) (i j : ℕ) (t u : Thread) (own other : Port)
    (text rest : List ℕ) : Type 0 where
  pub leaving : get_elem? y.threads i ≡ some (some t)
  pub speaking : get_elem? y.threads j ≡ some (some u)
  pub two_threads : i ≢ j
  pub two_clients : t.client_sd ≢ u.client_sd
  pub leaving_not_0 : t.client_sd ≢ 0
  pub speaking_not_0 : u.client_sd ≢ 0
  pub leaving_open : y.server.ports t.client_sd ≡ some own
  pub ended : own.incoming ≡ []
  pub leaving_steady : Steady own.turns
  pub speaking_open : y.server.ports u.client_sd ≡ some other
  pub arrives : other.incoming ≡ message text ++ rest
  pub speaking_steady : Steady other.turns
  pub has_text : 0 < length text
  pub short : length text < 2 ^ 32

module _ (d : Cryptodev) (frame : Frame) (malloc : ℕ → Option (List ℕ))
    (alloc : (n : ℕ) → (bs : List ℕ) × (malloc n ≡ some bs) × (length bs ≡ n)) {i j : ℕ}
    {t u : Thread} {own other : Port} {text rest : List ℕ} (y : System d.State)
    (v : Vacant y.server) (room : y.server.no_client < max_clients)
    (h : Parting y i j t u own other text rest) where
  abbrev left_ports : ℕ → Option Port
  left_ports = update y.server.ports t.client_sd (some (insist_read 4 own).2)

  -- The server once the thread at `i` has ended.
  abbrev left : System d.State
  left = record y {
    server = record y.server { ports = update left_ports 0 none };
    threads = set y.threads i none;
  }

  served-left : step d frame false malloc (served i) y ≡ ok left
  unfolding step
  served-left =
      rw
        (
          h.leaving,
          forward-ended d frame malloc y.server t.client_sd t.id own h.leaving_open h.ended
              h.leaving_steady,
          v.vacant y.server.no_client (omega arith) room,
        )
        refl

  left-exits : step d frame false malloc (served j) left ≡ exits 1
  unfolding step
  left-exits =
      rw
        (
          get_elem?-set_other y.threads i j none h.two_threads,
          h.speaking,
          forward-exits d frame malloc left.server u.client_sd u.id other text rest alloc
              (update_other left_ports 0 u.client_sd none (λ e. h.speaking_not_0 (sym e))
                ∙ update_other y.server.ports t.client_sd u.client_sd (some (insist_read 4 own).2)
                    h.two_clients
                ∙ h.speaking_open)
              (update_self left_ports 0 none) h.speaking_not_0 h.arrives h.speaking_steady
              h.has_text h.short,
        )
        refl

  -- Without encryption and while there are fewer than ten clients: when a client goes away, its
  -- descriptor stays open and descriptor 0 is closed instead, and the next message of another
  -- client, having a text, makes the whole server exit.
  pub served-exits :
      (y' : System d.State) × (step d frame false malloc (served i) y ≡ ok y')
      × (y'.server.ports t.client_sd ≡ some (insist_read 4 own).2)
      × (y'.server.ports 0 ≡ none)
      × (run d frame false malloc (served i ∷ served j ∷ []) y ≡ exits 1)
  unfolding run
  served-exits = (
    left,
    served-left,
    update_other left_ports 0 t.client_sd none (λ e. h.leaving_not_0 (sym e))
        ∙ update_self y.server.ports t.client_sd (some (insist_read 4 own).2),
    update_self left_ports 0 none,
    rw (served-left, left-exits) refl,
  )

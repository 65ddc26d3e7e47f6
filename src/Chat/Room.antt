-- ===== src/Chat/Room.antt =====
-- socket-client.c at every client and socket-server-irc.c between them: what one client types, and what
-- the thread of that client does with it, round after round.
use cryptodev_chat.Common.{
  update, update_self, update_other, ℕ, ◌<◌, ◌≡◌, ◌≢◌, refl, sym, ap, subst, ◌∙◌, List, [], ◌∷◌,
  ◌++◌, map, Option, none, some, false, length, replicate, get_elem?, arith, append_assoc,
  append-nil,
}
use cryptodev_chat.Run.{ok}
use cryptodev_chat.Io.{Port, Steady}
use cryptodev_chat.Cryptodev.{Cryptodev}
use cryptodev_chat.Chat.Cipher.{Frame}
use cryptodev_chat.Chat.Client.{World}
use cryptodev_chat.Chat.Client.Frames.{message, message_text, length-message_text}
use cryptodev_chat.Chat.Client.Session.{rounds}
use cryptodev_chat.Chat.Client.Session.Rounds.{
  Line, typed, typing, arriving, texts, messages, Fits, rounds-typing, rounds-arriving,
}
use cryptodev_chat.Chat.Client.Delivery.{connect, AtRest}
use cryptodev_chat.Chat.Server.{Server}
use cryptodev_chat.Chat.Server.Forward.{Serving, Forwarded, other_fd, stdout_after}
use cryptodev_chat.Chat.Server.Clear.{forward-message}
use cryptodev_chat.Chat.Server.Threads.{System, served, step, run}

abbrev port_or : Port → Option Port → Port
port_or p none = p
port_or p (some q) = q

-- After one message the thread can serve the next.
module _ {S : Type 0} {s s' : Server S} {sd me : ℕ} {own term : Port} {text rest : List ℕ}
    {block : ℕ → List ℕ} (h : Serving s sd me own term) (f : Forwarded h text rest block s') where
  count : {j : ℕ} → j < s'.no_client → j < s.no_client
  count high = omega (arith, f.same_clients.1)

  unfoldable pub left_at : ℕ → Port
  left_at j = port_or own (s'.ports (h.clients.fd_of j))

  pub left_is : (j : ℕ) (high : j < s.no_client) (ne : j ≢ me) → (f.sent j high ne).0 ≡ left_at j
  unfolding left_at
  left_is j high ne = sym (ap (port_or own) (f.sent j high ne).1)

  Serving-next : Serving s' sd me f.taken.0 f.printed.0
  unfolding left_at
  Serving-next = record {
    clients = record {
      fd_of = h.clients.fd_of;
      in_array = λ j low high.
          ap (λ a. get_elem? a j) f.same_clients.0 ∙ h.clients.in_array j low (count high);
      port_of = left_at;
      is_open = λ j low high ne. (f.sent j (count high) ne).1 ∙ ap some (left_is j (count high) ne);
      steady = λ j low high ne.
          subst (λ p. Steady p.turns) (left_is j (count high) ne)
            (f.sent j (count high) ne).2.steady;
      distinct = λ i j low lt high. h.clients.distinct i j low lt (count high);
    };
    mine = h.mine;
    in_range = omega (arith, f.same_clients.1, h.in_range);
    own_open = f.taken.1;
    own_steady = f.taken.2.steady;
    stdout_open = f.printed.1;
    stdout_steady = f.printed.2.steady;
    not_stdout = λ j high. h.not_stdout j (count high);
  }

module _ {S : Type 0} (sd me : ℕ) where
  -- What has come over the wire from the client is on the server's connection.
  abbrev pub hears : Port → Port → System S → System S
  hears own p y = record y {
    server = record y.server {
      ports = update y.server.ports sd (some (record own { incoming = p.outgoing }));
    };
  }

  Serving-hears :
      (y : System S) (own term p : Port)
      → Serving y.server sd me own term
      → Serving (hears own p y).server sd me (record own { incoming = p.outgoing }) term
  Serving-hears y own term p h = record {
    clients = record {
      fd_of = h.clients.fd_of;
      in_array = h.clients.in_array;
      port_of = h.clients.port_of;
      is_open = λ j low high ne.
          update_other y.server.ports sd (h.clients.fd_of j)
            (some (record own { incoming = p.outgoing })) (λ e. other_fd h j high ne (sym e))
          ∙ h.clients.is_open j low high ne;
      steady = h.clients.steady;
      distinct = h.clients.distinct;
    };
    mine = h.mine;
    in_range = h.in_range;
    own_open = update_self y.server.ports sd (some (record own { incoming = p.outgoing }));
    own_steady = h.own_steady;
    stdout_open = stdout_after h (record own { incoming = p.outgoing });
    stdout_steady = h.stdout_steady;
    not_stdout = h.not_stdout;
  }

module _ (d : Cryptodev) (frame : Frame) (malloc : ℕ → Option (List ℕ))
    (alloc : (n : ℕ) → (bs : List ℕ) × (malloc n ≡ some bs) × (length bs ≡ n)) (prompt : List ℕ)
    (place sd me : ℕ) where
  open d use {State}

  -- The texts are on stdout, and each other client has been sent the messages.
  record Passed {s : Server State} {own term : Port} (h : Serving s sd me own term) (ls : List Line)
      (s' : Server State) : Type 0 where
    printed : (q : Port) × (s'.ports 0 ≡ some q) × (q.outgoing ≡ term.outgoing ++ texts prompt ls)
    passed :
        (j : ℕ)
        → j < s.no_client
        → j ≢ me
        → (q : Port) × (s'.ports (h.clients.fd_of j) ≡ some q)
          × (q.outgoing ≡ (h.clients.port_of j).outgoing ++ messages prompt ls)

  Passed-next :
      {s s' s'' : Server State} {own term : Port} {l : Line} {ls : List Line} {rest : List ℕ}
      (h : Serving s sd me own term)
      (f : Forwarded h
        (message_text prompt (typed l))
        rest
        (λ _. message (message_text prompt (typed l)))
        s')
      → Passed (Serving-next h f) ls s''
      → Passed h (l ∷ ls) s''
  unfolding texts messages Serving-next left_at
  Passed-next {l = l} {ls} h f p = record {
    printed =
        let (q, is_q, out) = p.printed in
        (q, is_q, out ∙ rw (f.printed.2.outgoing, append_assoc) refl);
    passed = λ j high ne.
        let (q, is_q, out) = p.passed j (omega (arith, f.same_clients.1)) ne in
        (
          q,
          is_q,
          out
              ∙ ap (λ x. x.outgoing ++ messages prompt ls) (sym (left_is h f j high ne))
              ∙ rw ((f.sent j high ne).2.outgoing, append_assoc) refl,
        );
  }

  served-Passed :
      (ls : List Line) (y : System State) (own term : Port)
      → get_elem? y.threads place ≡ some (some (record { id = me; client_sd = sd }))
      → (h : Serving y.server sd me own term) → own.incoming ≡ messages prompt ls
      → Fits prompt ls
      → (y' : System State) × (run d frame false malloc (replicate (length ls) (served place)) y
          ≡ ok y')
        × Passed h ls y'.server
  unfolding run step messages texts Fits
  served-Passed [] y own term thread h arrives fits = (
    y,
    refl,
    record {
      printed = (term, h.stdout_open, sym (append-nil term.outgoing));
      passed = λ j high ne. (
        h.clients.port_of j,
        h.clients.is_open j (omega arith) high ne,
        sym (append-nil (h.clients.port_of j).outgoing),
      );
    },
  )
  served-Passed (l ∷ ls) y own term thread h arrives (fit, fits) =
      let text = message_text prompt (typed l) in
      let long = length-message_text prompt (typed l) in
      let (s', done, f) =
        forward-message d frame malloc me y.server sd own term text (messages prompt ls) alloc h
          arrives (omega arith) (omega arith) in
      let (y', rest, p) =
        served-Passed ls (record y { server = s' }) f.taken.0 f.printed.0 thread (Serving-next h f)
          f.taken.2.incoming fits in
      (y', rw (thread, done) rest, Passed-next h f p)

  -- In clear and where no call fails: any number of lines that a client types, not empty and fitting
  -- 300 bytes with the prompt, are put on the wire; the client's thread on the server, with one call of
  -- forward for each, passes them on; and every other client, on a connection that has carried nothing
  -- before, shows all of them in the order in which they were typed, each behind the sender's prompt
  -- and before a newline, and nothing stays on its wire.
  pub room-Shown :
      (c e : Cryptodev) (own_frame frame' : Frame) (fresh own_prompt : List ℕ) (ls : List Line)
      (w : World c.State) (u : ℕ → World e.State) (y : System State) (own term : Port)
      → get_elem? y.threads place ≡ some (some (record { id = me; client_sd = sd }))
      → (h : Serving y.server sd me own term) → ((j : ℕ) → (h.clients.port_of j).outgoing ≡ [])
      → ((j : ℕ) → AtRest fresh w (u j))
      → Fits prompt ls
      → (w' : World c.State) × (y' : System State) × (rounds c own_frame false fresh prompt
            (map typing ls)
            w
          ≡ ok (0, w'))
        × (run d frame false malloc
              (replicate (length ls) (served place))
              (hears sd me own w'.sock y)
            ≡ ok y')
        × ((j : ℕ)
            → j < y.server.no_client
            → j ≢ me
            → (q : Port) × (u' : World e.State) × (y'.server.ports (h.clients.fd_of j) ≡ some q)
              × (rounds e frame' false fresh own_prompt (map arriving ls) (connect (u j) q)
                  ≡ ok (0, u'))
              × (u'.term.outgoing ≡ (u j).term.outgoing ++ texts prompt ls)
              × (u'.sock.incoming ≡ []))
  unfolding Serving-hears
  room-Shown c e own_frame frame' fresh own_prompt ls w u y own term thread h silent rest fits =
      let size = (rest 0).malloc_size in
      let (p, sent, wire) = rounds-typing prompt c own_frame fresh size ls w fits (rest 0).sends in
      let carried : p.outgoing ≡ messages prompt ls =
        wire.outgoing ∙ ap (λ b. b ++ messages prompt ls) (rest 0).empty_wire in
      let (y', served_all, passed) =
        served-Passed ls (hears sd me own p y) (record own { incoming = p.outgoing }) term thread
          (Serving-hears sd me y own term p h) carried fits in
      (
        record w { sock = p },
        y',
        sent,
        served_all,
        λ j high ne.
            let (q, is_q, out) = passed.passed j high ne in
            let (u', shown, text, left, long) =
              rounds-arriving prompt e frame' fresh size own_prompt ls (connect (u j) q) fits
                (rest j).buf_size (out ∙ ap (λ b. b ++ messages prompt ls) (silent j))
                (rest j).receives (rest j).shows in
            (q, u', is_q, shown, text.outgoing, left.incoming),
      )

-- ===== src/Chat/Server/Locks/Single.antt =====
-- forward as the code of one thread (Chat/Server) and as steps of a thread among others.
use cryptodev_chat.Common.{
  ℕ, ◌^◌, ◌<◌, ◌≡◌, ◌≢◌, sym, ap, subst, ◌∙◌, List, ◌++◌, Option, some, false, length, arith,
}
use cryptodev_chat.Run.{ok}
use cryptodev_chat.Cryptodev.{Cryptodev}
use cryptodev_chat.Io.{Port}
use cryptodev_chat.Chat.Cipher.{Frame}
use cryptodev_chat.Chat.Client.Frames.{message}
use cryptodev_chat.Chat.Server.{Ports, Server, forward}
use cryptodev_chat.Chat.Server.Forward.{Serving, Forwarded}
use cryptodev_chat.Chat.Server.Clear.{forward-message}
use cryptodev_chat.Chat.Server.Locks.{Job, reading, System}
use cryptodev_chat.Chat.Server.Locks.Alone.{Turns, IsFree, alone-Comes}

-- The system shows what has been written to stdout and to the clients other than `me`, whose thread
-- waits for its client while every lock is free.
pub record Mirrors (ports : Ports) (fd_of : ℕ → ℕ) (no_client me : ℕ) (z : System) : Type 0 where
  pub count : z.shared.no_client ≡ no_client
  pub waits : z.pc me ≡ reading
  pub free : IsFree z.shared
  pub stdout : (q : Port) × (ports 0 ≡ some q) × (z.shared.stdout ≡ q.outgoing)
  pub streams :
      (j : ℕ)
      → j < no_client
      → j ≢ me
      → (q : Port) × (ports (fd_of j) ≡ some q) × (z.shared.streams j ≡ q.outgoing)

-- The thread of client `me` has added this text to stdout, and its block to the connection of every
-- other client.
pub record Added (me : ℕ) (text : List ℕ) (block : ℕ → List ℕ) (z z' : System) : Type 0 where
  pub shown : z'.shared.stdout ≡ z.shared.stdout ++ text
  pub sent :
      (j : ℕ)
      → j < z.shared.no_client
      → j ≢ me
      → z'.shared.streams j ≡ z.shared.streams j ++ block j
  pub others : (j : ℕ) → me ≢ j → z'.pc j ≡ z.pc j

port_inj : {p q : Port} → ◌≡◌ {A = Option Port} (some p) (some q) → p ≡ q
port_inj e = cc

-- The steps of the thread for what forward has done with one message.
Forwarded-Mirrors :
    {S : Type 0} {s s' : Server S} {sd me : ℕ} {own term : Port} {text rest : List ℕ}
    {block : ℕ → List ℕ} (h : Serving s sd me own term)
    → Forwarded h text rest block s'
    → (z : System) → Mirrors s.ports h.clients.fd_of s.no_client me z
    → (z' : System) × Turns me z z'
      × Added me text block z z'
      × Mirrors s'.ports h.clients.fd_of s.no_client me z'
Forwarded-Mirrors {s} {me = me} {term = term} {text = text} {block = block} h f z m =
    let job : Job = record { text = text; block = block } in
    let (s₁, (z', r, same, there, others), b) = alone-Comes z me job m.free m.waits in
    (
      z',
      r,
      record {
        shown = ap (λ x. x.stdout) same ∙ b.stdout;
        sent = λ j low apart. ap (λ x. x.streams j) same ∙ b.sent j (omega arith) low apart;
        others = others;
      },
      record {
        count = ap (λ x. x.no_client) same ∙ b.count ∙ m.count;
        waits = there;
        free = subst IsFree (sym same) b.free;
        stdout =
            let (p, is_p, shows) = m.stdout in
            let (q, is_q, sent) = f.printed in
            let p_term : p ≡ term = port_inj (sym is_p ∙ h.stdout_open) in
            (
              q,
              is_q,
              ap (λ x. x.stdout) same
                  ∙ b.stdout
                  ∙ ap (λ x. x ++ text) (shows ∙ ap (λ x. x.outgoing) p_term)
                  ∙ sym sent.outgoing,
            );
        streams = λ j low apart.
            let (p, is_p, shows) = m.streams j low apart in
            let (q, is_q, sent) = f.sent j low apart in
            let old : p ≡ h.clients.port_of j =
              port_inj (sym is_p ∙ h.clients.is_open j (omega arith) low apart) in
            let in_count : j < z.shared.no_client = omega (arith, m.count) in
            (
              q,
              is_q,
              ap (λ x. x.streams j) same
                  ∙ b.sent j (omega arith) in_count apart
                  ∙ ap (λ x. x ++ block j) (shows ∙ ap (λ x. x.outgoing) old)
                  ∙ sym sent.outgoing,
            );
      },
    )

module _ (d : Cryptodev) (frame : Frame) (malloc : ℕ → Option (List ℕ)) (me : ℕ) where
  open d use {State}

  -- What the code of forward does for one thread with one message, in clear and where no call fails,
  -- the steps of the thread do among the others: from a system that shows the server's connections,
  -- with every lock free and the thread at its read, there are steps of this thread and no other that
  -- add the text to stdout and its message to the connection of every other client; the system they
  -- lead to shows the connections as forward has left them, with every lock free and the thread at
  -- its next read.
  pub forward-Mirrors :
      (s : Server State) (sd : ℕ) (own term : Port) (text rest : List ℕ)
      → ((n : ℕ) → (bs : List ℕ) × (malloc n ≡ some bs) × (length bs ≡ n))
      → (h : Serving s sd me own term) → own.incoming ≡ message text ++ rest
      → 0 < length text
      → length text < 2 ^ 32
      → (z : System) → Mirrors s.ports h.clients.fd_of s.no_client me z
      → (s' : Server State) × (forward d frame false malloc sd me s ≡ ok (0, s'))
        × ((z' : System) × Turns me z z'
            × Added me text (λ j. message text) z z'
            × Mirrors s'.ports h.clients.fd_of s.no_client me z')
  forward-Mirrors s sd own term text rest alloc h arrives some_text short z m =
      let (s', done, f) =
        forward-message d frame malloc me s sd own term text rest alloc h arrives some_text short in
      (s', done, Forwarded-Mirrors h f z m)

-- ===== src/Chat/Server/Forward.antt =====
-- forward: what becomes of one message of one client, in clear.
use cryptodev_chat.Common.{
  update, update_other, update_self, ℕ, ◌<◌, ◌≡◌, ◌≢◌, sym, ◌∙◌, Bool-cases, ltb, inl, inr, List,
  some, arith,
}
use cryptodev_chat.Io.{Port, Steady}
use cryptodev_chat.Io.Calm.{Sent, Took}
use cryptodev_chat.Chat.Server.{Ports, Server}
use cryptodev_chat.Chat.Server.Distribute.{Recipients, Relayed}

-- Client number `me` is served on descriptor `sd`, stdout and all clients' descriptors are open with no
-- failing call to come, and they are different.
pub record Serving {S : Type 0} (s : Server S) (sd me : ℕ) (own term : Port) : Type 0 where
  pub clients : Recipients s.newsd_serve s.ports s.no_client me 0
  pub mine : clients.fd_of me ≡ sd
  pub in_range : me < s.no_client
  pub own_open : s.ports sd ≡ some own
  pub own_steady : Steady own.turns
  pub stdout_open : s.ports 0 ≡ some term
  pub stdout_steady : Steady term.turns
  pub not_stdout : (j : ℕ) → j < s.no_client → clients.fd_of j ≢ 0

-- The text is on stdout, every other client has been sent its block, and the message is taken off the
-- sender's stream.
pub record Forwarded {S : Type 0} {s : Server S} {sd me : ℕ} {own term : Port}
    (h : Serving s sd me own term) (text rest : List ℕ) (block : ℕ → List ℕ) (s' : Server S)
    : Type 0 where
  pub printed : (q : Port) × (s'.ports 0 ≡ some q) × Sent term text q
  pub taken : (q : Port) × (s'.ports sd ≡ some q) × Took own rest q
  pub sent :
      (j : ℕ)
      → j < s.no_client
      → j ≢ me
      → (q : Port) × (s'.ports (h.clients.fd_of j) ≡ some q)
        × Sent (h.clients.port_of j) (block j) q
  pub same_clients : (s'.newsd_serve ≡ s.newsd_serve) × (s'.no_client ≡ s.no_client)

module _ {S : Type 0} {s : Server S} {sd me : ℕ} {own term : Port}
    (h : Serving s sd me own term) where
  open h use {clients}

  pub other_fd : (j : ℕ) → j < s.no_client → j ≢ me → clients.fd_of j ≢ sd
  other_fd j high ne same = elim (Bool-cases (ltb j me)) [
    | inl lt ↦ clients.distinct j me (omega arith) (ground arith) h.in_range (same ∙ sym h.mine)
    | inr ge ↦ clients.distinct me j (omega arith) (ground arith) high (h.mine ∙ sym same)
  ]

  -- The recipients once the sender's stream and stdout have moved on.
  abbrev pub after_print : Port → Port → Ports
  after_print own' term' = update (update s.ports sd (some own')) 0 (some term')

  unfoldable pub Recipients-print :
      (own' term' : Port) → Recipients s.newsd_serve (after_print own' term') s.no_client me 0
  Recipients-print own' term' = record {
    fd_of = clients.fd_of;
    in_array = clients.in_array;
    port_of = clients.port_of;
    is_open = λ j low high ne.
        update_other (update s.ports sd (some own')) 0 (clients.fd_of j) (some term')
          (λ z. h.not_stdout j high (sym z))
        ∙ update_other s.ports sd (clients.fd_of j) (some own') (λ z. other_fd j high ne (sym z))
        ∙ clients.is_open j low high ne;
    steady = clients.steady;
    distinct = clients.distinct;
  }

  sd_ne_stdout : sd ≢ 0
  sd_ne_stdout z = h.not_stdout me h.in_range (h.mine ∙ z)

  pub stdout_after : (own' : Port) → update s.ports sd (some own') 0 ≡ some term
  stdout_after own' = update_other s.ports sd 0 (some own') sd_ne_stdout ∙ h.stdout_open

  -- From what the loop has done to what the whole call has done.
  pub Forwarded-Relayed :
      {text rest : List ℕ} {block : ℕ → List ℕ} {s' : Server S} (own' term' : Port)
      → Took own rest own'
      → Sent term text term'
      → s'.newsd_serve ≡ s.newsd_serve
      → s'.no_client ≡ s.no_client
      → Relayed
          (after_print own' term')
          s.no_client
          me
          0
          clients.fd_of
          clients.port_of
          block
          s'.ports
      → Forwarded h text rest block s'
  Forwarded-Relayed own' term' took sent same same' v = record {
    printed = (
      term',
      v.spared 0 (λ j low high ne. h.not_stdout j high)
          ∙ update_self (update s.ports sd (some own')) 0 (some term'),
      sent,
    );
    taken = (
      own',
      v.spared sd (λ j low high ne. other_fd j high ne)
          ∙ update_other (update s.ports sd (some own')) 0 sd (some term')
              (λ z. sd_ne_stdout (sym z))
          ∙ update_self s.ports sd (some own'),
      took,
    );
    sent = λ j high ne. v.reached j (omega arith) high ne;
    same_clients = (same, same');
  }

-- ===== src/Chat/Server/Distribute.antt =====
-- The loop of forward over the recipients, once for both modes: `block c` is what the recipient
-- numbered `c` is sent, and `Holds c buf` what the buffer is like when the loop reaches `c`.
use cryptodev_chat.Common.{
  update_self, update_other, update, ℕ, zero, suc, ◌+◌, ◌≤◌, ◌<◌, ◌≡◌, ◌≢◌, refl, sym, ◌∙◌, List,
  Option, some, Bool, get_elem?, ◌==◌, Bool-cases, inl, inr, arith, subst,
}
use cryptodev_chat.Io.{Port, Steady, insist_write}
use cryptodev_chat.Io.Calm.{Sent, insist_write-Sent}
use cryptodev_chat.Run.{ok}
use cryptodev_chat.Cryptodev.{Cryptodev}
use cryptodev_chat.Chat.Cipher.{Frame}
use cryptodev_chat.Chat.Server.{Ports, Server, forward_one, distribute}

-- The recipients from number `from` on: distinct descriptors, each open with no failing call to come.
pub record Recipients (newsd_serve : List ℕ) (ports : Ports) (no_client me from : ℕ) : Type 0 where
  pub fd_of : ℕ → ℕ
  pub in_array : (j : ℕ) → from ≤ j → j < no_client → get_elem? newsd_serve j ≡ some (fd_of j)
  pub port_of : ℕ → Port
  pub is_open : (j : ℕ) → from ≤ j → j < no_client → j ≢ me → ports (fd_of j) ≡ some (port_of j)
  pub steady : (j : ℕ) → from ≤ j → j < no_client → j ≢ me → Steady (port_of j).turns
  pub distinct : (i j : ℕ) → from ≤ i → i < j → j < no_client → fd_of i ≢ fd_of j

-- Every recipient from `from` on but `me` has been sent its block, and no other descriptor is touched.
pub record Relayed (ports : Ports) (no_client me from : ℕ) (fd_of : ℕ → ℕ) (old : ℕ → Port)
    (block : ℕ → List ℕ) (ports' : Ports) : Type 0 where
  pub reached :
      (j : ℕ)
      → from ≤ j
      → j < no_client
      → j ≢ me
      → (p : Port) × (ports' (fd_of j) ≡ some p) × Sent (old j) (block j) p
  pub spared :
      (fd : ℕ) → ((j : ℕ) → from ≤ j → j < no_client → j ≢ me → fd_of j ≢ fd) → ports' fd ≡ ports fd

-- The recipients after the first one: the table may have changed at that one's descriptor.
module _ {newsd_serve : List ℕ} {no_client me from : ℕ} {ports : Ports}
    (r : Recipients newsd_serve ports no_client me from) where
  pub Recipients-skip : Recipients newsd_serve ports no_client me (suc from)
  Recipients-skip = record {
    fd_of = r.fd_of;
    in_array = λ j low high. r.in_array j (omega arith) high;
    port_of = r.port_of;
    is_open = λ j low high ne. r.is_open j (omega arith) high ne;
    steady = λ j low high ne. r.steady j (omega arith) high ne;
    distinct = λ i j low lt high. r.distinct i j (omega arith) lt high;
  }

  pub Recipients-next :
      (p : Option Port)
      → Recipients newsd_serve (update ports (r.fd_of from) p) no_client me (suc from)
  Recipients-next p = record {
    fd_of = r.fd_of;
    in_array = λ j low high. r.in_array j (omega arith) high;
    port_of = r.port_of;
    is_open = λ j low high ne.
        update_other ports (r.fd_of from) (r.fd_of j) p (r.distinct from j (omega arith) low high)
        ∙ r.is_open j (omega arith) high ne;
    steady = λ j low high ne. r.steady j (omega arith) high ne;
    distinct = λ i j low lt high. r.distinct i j (omega arith) lt high;
  }

  pub Relayed-skip :
      {block : ℕ → List ℕ} {ports' : Ports}
      → from ≡ me
      → Relayed ports no_client me (suc from) r.fd_of r.port_of block ports'
      → Relayed ports no_client me from r.fd_of r.port_of block ports'
  Relayed-skip e v = record {
    reached = λ j low high ne. let later : suc from ≤ j = grind arith in v.reached j later high ne;
    spared = λ fd apart. v.spared fd (λ j low high ne. apart j (omega arith) high ne);
  }

  pub Relayed-next :
      {block : ℕ → List ℕ} {ports' : Ports} (q : Port)
      → from < no_client
      → from ≢ me
      → Sent (r.port_of from) (block from) q
      → Relayed
          (update ports (r.fd_of from) (some q))
          no_client
          me
          (suc from)
          r.fd_of
          r.port_of
          block
          ports'
      → Relayed ports no_client me from r.fd_of r.port_of block ports'
  Relayed-next {block} {ports'} q small ne_me sent v = record {
    reached = λ j low high ne. elim (Bool-cases (from == j)) [
      | inl e ↦ first j (ground arith)
      | inr e ↦ v.reached j (ground arith) high ne
    ];
    spared = λ fd apart.
        v.spared fd (λ j low high ne. apart j (omega arith) high ne)
        ∙ update_other ports (r.fd_of from) fd (some q) (apart from (omega arith) small ne_me);
  }
    where
      first :
          (j : ℕ)
          → from ≡ j
          → (p : Port) × (ports' (r.fd_of j) ≡ some p) × Sent (r.port_of j) (block j) p
      first j e =
          subst (λ i. (p : Port) × (ports' (r.fd_of i) ≡ some p) × Sent (r.port_of i) (block i) p) e
            (
              q,
              v.spared (r.fd_of from)
                    (λ i low high ne same. r.distinct from i (omega arith) low high (sym same))
                  ∙ update_self ports (r.fd_of from) (some q),
              sent,
            )

module _ (d : Cryptodev) (frame : Frame) (encrypted : Bool) (malloc : ℕ → Option (List ℕ))
    (me size : ℕ) (block : ℕ → List ℕ) (Holds : ℕ → List ℕ → Type 0) where
  open d use {State}

  -- One round sends the block of its recipient and leaves the buffer as the next one needs it.
  abbrev pub Round : Type 0
  Round =
      (c fd : ℕ) (buf : List ℕ) (s : Server State) (p : Port)
      → c ≢ me
      → get_elem? s.newsd_serve c ≡ some fd
      → s.ports fd ≡ some p
      → Steady p.turns
      → Holds c buf
      → (buf' : List ℕ) × (dev' : State) × (forward_one d frame encrypted malloc c buf size s
          ≡ ok (
            buf',
            record s { dev = dev'; ports = update s.ports fd (some (insist_write (block c) p).1) },
          ))
        × Holds (suc c) buf'

  pub distribute-Relayed :
      Round
      → ((buf : List ℕ) → Holds me buf → Holds (suc me) buf)
      → (rounds c : ℕ) (buf : List ℕ) (s : Server State) → c + rounds ≡ s.no_client
      → Holds c buf
      → (r : Recipients s.newsd_serve s.ports s.no_client me c)
      → (dev' : State) × (ports' : Ports) × (distribute d frame encrypted malloc rounds c buf size
            me s
          ≡ ok (record s { dev = dev'; ports = ports' }))
        × Relayed s.ports s.no_client me c r.fd_of r.port_of block ports'
  unfolding distribute Recipients-skip Recipients-next
  distribute-Relayed round skip zero c buf s e h r = (
    s.dev,
    s.ports,
    refl,
    record { reached = λ j low high ne. absurd (omega arith); spared = λ fd apart. refl },
  )
  distribute-Relayed round skip (suc rounds) c buf s e h r = elim (Bool-cases (c == me)) [
    | inl self ↦
        let at_me : c ≡ me = ground arith in
        let (dev', ports', done, v) =
          distribute-Relayed round skip rounds (suc c) buf s (omega arith)
            (subst (λ i. Holds i buf → Holds (suc i) buf) (sym at_me) (skip buf) h)
            (Recipients-skip r) in
        (dev', ports', rw self done, Relayed-skip r at_me v)
    | inr other ↦
        let ne : c ≢ me = ground arith in
        let small : c < s.no_client = omega arith in
        let p = r.port_of c in
        let (buf', dev₁, sent, h') =
          round c (r.fd_of c) buf s p ne (r.in_array c (omega arith) small)
            (r.is_open c (omega arith) small ne) (r.steady c (omega arith) small ne) h in
        let q = (insist_write (block c) p).1 in
        let (dev', ports', done, v) =
          distribute-Relayed round skip rounds (suc c) buf'
            (record s { dev = dev₁; ports = update s.ports (r.fd_of c) (some q) }) (omega arith) h'
            (Recipients-next r (some q)) in
        (
          dev',
          ports',
          rw (other, sent) done,
          Relayed-next r q small ne
              (insist_write-Sent (block c) p (r.steady c (omega arith) small ne)).1 v,
        )
  ]

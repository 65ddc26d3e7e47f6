-- ===== src/Chat/Server/Locks/Whole.antt =====
-- What the threads of forward guarantee together, in every order of their steps.
use mathlib.Core.List.{Mem, mem-append_right, mem-cons_self}
use cryptodev_chat.Common.{
  ℕ, suc, ◌+◌, ◌<◌, ◌≡◌, ◌≢◌, ◌⊎◌, inl, inr, refl, sym, ap, subst, ◌∙◌, List, [], ◌∷◌, ◌++◌, some,
  true, false, take, drop, arith, append_assoc, append-nil, take-add, take-all, update, update_self,
  update_other, update_was, Bool-cases, ◌==◌,
}
use cryptodev_chat.Chat.Server.Locks.{
  Job, Pc, reading, printing, looping, writing, Shared, Move, receive, print, printed, skip, wait,
  write, post, finish, System, joined, Step, move, accept, Reach, here, next,
}
use cryptodev_chat.Chat.Server.Locks.Invariant.{
  blocks, target, Served, Local, Inv, Agrees, Local-keep,
}
use cryptodev_chat.Chat.Server.Locks.Moves.{
  some_inj, target-Local, quiet, entering, writes, posted, posted-keeps, leaving,
}

module _ {s : Shared} {pc : ℕ → Pc} (inv : Inv s pc) (i : ℕ) where
  pub local : {p : Pc} → pc i ≡ p → Local s i p
  local e = subst (Local s i) e (inv.at_pc i)

  Served-suc :
      (s' : Shared) (job : Job) (client : ℕ)
      → ((c : ℕ) → c < client → c ≢ i → Mem job (s'.log c))
      → ((c : ℕ) → c ≡ client → c ≢ i → Mem job (s'.log c))
      → Served s' i job (suc client)
  Served-suc s' job client before last c low apart = elim (Bool-cases (c == client)) [
    | inl same ↦ last c (ground arith) apart
    | inr other ↦ before c (ground arith) apart
  ]

  Move-Inv : {s' : Shared} {p p' : Pc} → Move i s p s' p' → pc i ≡ p → Inv s' (update pc i p')
  Move-Inv (receive job) e = quiet inv i (printing job job.text) e s.stdout refl refl tt
  Move-Inv (print {job} {rest} k low high) e =
      quiet inv i (printing job (drop k rest)) e (s.stdout ++ take k rest) refl refl tt
  Move-Inv (printed {job} done) e =
      quiet inv i (looping job 0) e s.stdout refl refl
        (omega arith, λ c low apart. absurd (omega arith))
  Move-Inv (skip {job} {client} lt own) e =
      let (le, served) = local e in
      quiet inv i (looping job (suc client)) e s.stdout refl refl
        (omega arith, Served-suc s job client served (λ c same apart. absurd (apart (same ∙ own))))
  Move-Inv (wait {job} {client} lt apart is_free) e =
      let (le, served) = local e in
      entering inv i (writing job client 0) e client is_free refl refl (
        lt,
        omega arith,
        update_self s.locks client true,
        inv.free client is_free ∙ sym (append-nil (blocks client (s.log client))),
        served,
      )
  Move-Inv (write {job} {client} {n} k low high) e =
      let (lt, in_block, held, sent, served) = local e in
      let block : List ℕ = job.block client in
      let bytes : List ℕ = s.streams client ++ take k (drop n block) in
      writes inv i (writing job client (n + k)) e client bytes held refl refl (
        lt,
        high,
        held,
        update_self s.streams client bytes
            ∙ rw sent
                (append_assoc (blocks client (s.log client)) (take n block) (take k (drop n block)))
            ∙ ap (λ b. blocks client (s.log client) ++ b) (take-add n k block),
        served,
      )
  Move-Inv (post {job} {client} {n} done) e =
      let (lt, in_block, held, sent, served) = local e in
      let whole =
        sent
        ∙ ap (λ b. blocks client (s.log client) ++ b)
            (take-all n (job.block client) (omega arith)) in
      leaving inv i (looping job (suc client)) e client job whole refl refl (
        omega arith,
        Served-suc (posted inv i (looping job (suc client)) e client job whole) job client
            (λ c low apart.
              posted-keeps inv i (looping job (suc client)) e client job whole c job
                (served c low apart))
            (λ c same apart.
              subst (Mem job)
                (sym (update_self s.log client (s.log client ++ job ∷ []))
                  ∙ ap (update s.log client (s.log client ++ job ∷ [])) (sym same))
                (mem-append_right (s.log client) mem-cons_self)),
      )
  Move-Inv (finish past) e = quiet inv i reading e s.stdout refl refl tt

joined-Inv : {s : Shared} {pc : ℕ → Pc} → Inv s pc → Inv (joined s) pc
unfolding blocks
joined-Inv {s} {pc} inv = record {
  free = λ x h. elim (update_was_not x) [
    | inl same ↦ subst (λ y. (joined s).streams y ≡ blocks y ((joined s).log y)) same new_slot
    | inr apart ↦
        update_other s.streams s.no_client x [] apart
        ∙ inv.free x (sym (update_other s.locks s.no_client x false apart) ∙ h)
        ∙ ap (blocks x) (sym (update_other s.log s.no_client x [] apart))
  ];
  at_pc = λ j. Local-keep s (joined s) s.no_client j (pc j) agrees (outside j) (inv.at_pc j);
  owner = λ x h. elim (update_was s.locks s.no_client x false h) [
    | inl (same, wrong) ↦ cc
    | inr (apart, h') ↦ inv.owner x h'
  ];
  exclusive = inv.exclusive;
}
  where
    update_was_not : (x : ℕ) → (s.no_client ≡ x) ⊎ (s.no_client ≢ x)
    update_was_not x = elim (Bool-cases (s.no_client == x)) [
      | inl same ↦ inl (ground arith)
      | inr other ↦ inr (ground arith)
    ]

    new_slot : (joined s).streams s.no_client ≡ blocks s.no_client ((joined s).log s.no_client)
    new_slot =
        update_self s.streams s.no_client []
        ∙ ap (blocks s.no_client) (sym (update_self s.log s.no_client []))

    agrees : Agrees s (joined s) s.no_client
    agrees = record {
      grows = omega arith;
      streams = λ x ne. update_other s.streams s.no_client x [] ne;
      locks = λ x ne. update_other s.locks s.no_client x false ne;
      log = λ x ne. update_other s.log s.no_client x [] ne;
      keeps = λ x job low m.
          subst (Mem job) (sym (update_other s.log s.no_client x [] (λ same. omega arith))) m;
    }

    outside : (j : ℕ) → target (pc j) ≢ some s.no_client
    outside j h =
        let (low, held) = target-Local s j s.no_client (pc j) h (inv.at_pc j) in omega arith

Step-Inv : {y z : System} → Step y z → Inv y.shared y.pc → Inv z.shared z.pc
Step-Inv (move i mv) inv = Move-Inv inv i mv refl
Step-Inv (accept room) inv = joined-Inv inv

pub Reach-Inv : {y z : System} → Inv y.shared y.pc → Reach y z → Inv z.shared z.pc
Reach-Inv inv here = inv
Reach-Inv inv (next r st) = Step-Inv st (Reach-Inv inv r)

-- The server before its first client.
abbrev pub start : System
start = record {
  shared = record {
    no_client = 0;
    stdout = [];
    streams = λ c. [];
    locks = λ c. false;
    log = λ c. [];
  };
  pc = λ i. reading;
}

pub start-Inv : Inv start.shared start.pc
unfolding blocks
start-Inv = record {
  free = λ c h. refl;
  at_pc = λ i. tt;
  owner = λ c h. cc;
  exclusive = λ i j c h h'. cc;
}

pub target-writing :
    (p : Pc) (c : ℕ) → target p ≡ some c → (job : Job) × (n : ℕ) × (p ≡ writing job c n)
target-writing reading c h = cc
target-writing (printing job rest) c h = cc
target-writing (looping job client) c h = cc
target-writing (writing job client n) c h =
    let same : client ≡ c = some_inj h in (job, n, ap (λ x. writing job x n) same)

-- The connection of recipient `c`: whole blocks, or whole blocks and a part of the one that the only
-- thread in the critical section writes.
pub data Wire (z : System) (c : ℕ) : Type 0 where
  free : z.shared.locks c ≡ false → z.shared.streams c ≡ blocks c (z.shared.log c) → Wire z c
  held :
      z.shared.locks c ≡ true
      → (i : ℕ) (job : Job) (n : ℕ) → z.pc i ≡ writing job c n
      → ((j : ℕ) → target (z.pc j) ≡ some c → j ≡ i)
      → z.shared.streams c ≡ blocks c (z.shared.log c) ++ take n (job.block c)
      → Wire z c

-- In every order of the steps of the threads and of accepts: the connection of a recipient whose lock
-- is free carries whole blocks, one after the other; where the lock is held, exactly one thread is in
-- the critical section, and the connection carries whole blocks and the first n bytes of its block.
pub Reach-whole : {z : System} → Reach start z → (c : ℕ) → Wire z c
Reach-whole {z} r c =
    let inv = Reach-Inv start-Inv r in
    elim (Bool-cases (z.shared.locks c)) [
      | inr is_free ↦ free is_free (inv.free c is_free)
      | inl is_held ↦
          let (i, there) = inv.owner c is_held in
          let (job, n, e) = target-writing (z.pc i) c there in
          let (lt, in_block, locked, sent, served) = local inv i e in
          held is_held i job n e (λ j h. inv.exclusive j i c h there) sent
    ]

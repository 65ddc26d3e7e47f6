-- ===== src/Chat/Server/Locks/Alone.antt =====
-- One thread while the others stand still: the steps of forward, one after the other.
use cryptodev_chat.Common.{
  ℕ, zero, suc, ◌+◌, ◌≤◌, ◌<◌, ◌≡◌, ◌≢◌, refl, sym, ap, subst, ◌∙◌, List, [], ◌∷◌, ◌++◌, false,
  true, length, take, drop, take-all, drop-all, append-nil, arith, update, update_self,
  update_other, update_same, Bool-cases, ltb, update_cases, ◌==◌, inl, inr,
}
use cryptodev_chat.Chat.Server.Locks.{
  Job, Pc, reading, printing, looping, writing, Shared, Move, receive, print, printed, skip, wait,
  write, post, finish, System,
}

-- Steps of thread `me` alone lead from `y` to this system.
pub data Turns (me : ℕ) (y : System) : System → Type 0 where
  stay : Turns me y y
  turn :
      {z : System} {s' : Shared} {p' : Pc}
      → Turns me y z
      → Move me z.shared (z.pc me) s' p'
      → Turns me y (record { shared = s'; pc = update z.pc me p' })

abbrev pub IsFree : Shared → Type 0
IsFree s = (c : ℕ) → c < s.no_client → s.locks c ≡ false

-- From `s` to `s'` the recipients from `low` on and below `high` have been sent their blocks, all but
-- `i`; nothing else has been written, and the locks are free.
pub record Between (i : ℕ) (job : Job) (low high : ℕ) (s s' : Shared) : Type 0 where
  pub count : s'.no_client ≡ s.no_client
  pub stdout : s'.stdout ≡ s.stdout
  pub free : IsFree s'
  pub sent : (c : ℕ) → low ≤ c → c < high → c ≢ i → s'.streams c ≡ s.streams c ++ job.block c
  pub spared : (c : ℕ) → (low ≤ c → c < high → c ≢ i → ⊥) → s'.streams c ≡ s.streams c

module _ (y : System) (i : ℕ) where
  -- `y` has come to a system whose shared state is `s`, with thread `i` at `p` and all others where they
  -- were.
  abbrev pub Comes : Shared → Pc → Type 0
  Comes s p =
      (z : System) × Turns i y z
      × (z.shared ≡ s)
      × (z.pc i ≡ p)
      × ((j : ℕ) → i ≢ j → z.pc j ≡ y.pc j)

  moved : {s s' : Shared} {p p' : Pc} → Comes s p → Move i s p s' p' → Comes s' p'
  moved {s} {s'} {p} {p'} (z, r, e, there, rest) mv =
      let from_z : Move i z.shared (z.pc i) s' p' =
        subst (λ x. Move i x (z.pc i) s' p') (sym e)
          (subst (λ x. Move i s x s' p') (sym there) mv) in
      (
        record { shared = s'; pc = update z.pc i p' },
        turn r from_z,
        refl,
        update_self z.pc i p',
        λ j apart. update_other z.pc i j p' apart ∙ rest j apart,
      )

  -- The write to stdout.
  printing-Comes :
      (s : Shared) (job : Job) (text : List ℕ)
      → Comes s (printing job text)
      → Comes (record s { stdout = s.stdout ++ text }) (looping job 0)
  printing-Comes s job [] c =
      subst (λ x. Comes (record s { stdout = x }) (looping job 0)) (sym (append-nil s.stdout))
        (moved c (printed refl))
  printing-Comes s job (x ∷ xs) c =
      let text : List ℕ = x ∷ xs in
      let k : ℕ = length text in
      moved
        (subst (λ b. Comes (record s { stdout = s.stdout ++ b }) (printing job (drop k text)))
          (take-all k text (omega arith)) (moved c (print k (omega arith) (omega arith))))
        (printed (drop-all k text (omega arith)))

  abbrev written : Shared → ℕ → List ℕ → Shared
  written s client b = record s { streams = update s.streams client (s.streams client ++ b) }

  -- The writes in the critical section.
  writing-Comes :
      (s : Shared) (job : Job) (client : ℕ) (b : List ℕ)
      → job.block client ≡ b
      → Comes s (writing job client 0)
      → Comes (written s client b) (writing job client (length b))
  writing-Comes s job client [] e c =
      subst (λ f. Comes (record s { streams = f }) (writing job client 0))
        (sym (
          ap (update s.streams client) (append-nil (s.streams client))
          ∙ update_same s.streams client))
        c
  writing-Comes s job client (x ∷ xs) e c =
      let b : List ℕ = x ∷ xs in
      let k : ℕ = length b in
      let long : length (job.block client) ≡ k = ap length e in
      let wrote : Comes (written s client (take k (drop 0 (job.block client))))
          (writing job client (0 + k)) =
        moved c (write k (omega arith) (omega arith)) in
      let sum : 0 + k ≡ k = omega arith in
      let whole : take k (drop 0 (job.block client)) ≡ b =
        take-all k (job.block client) (omega arith) ∙ e in
      subst (λ n. Comes (written s client b) (writing job client n)) sum
        (subst (λ w. Comes (written s client w) (writing job client (0 + k))) whole wrote)

  -- The state behind the critical section for `client`.
  abbrev after : Shared → Job → ℕ → Shared
  after s job client = record s {
    streams = update s.streams client (s.streams client ++ job.block client);
    locks = update (update s.locks client true) client false;
    log = update s.log client (s.log client ++ job ∷ []);
  }

  after-Between :
      (s : Shared) (job : Job) (client : ℕ)
      → IsFree s
      → client ≢ i
      → Between i job client (suc client) s (after s job client)
  after-Between s job client free apart = record {
    count = refl;
    stdout = refl;
    free = λ c low. elim (update_cases (update s.locks client true) client c false) [
      | inl (same, e) ↦ e
      | inr (other, e) ↦ e ∙ update_other s.locks client c true other ∙ free c low
    ];
    sent = λ c low high ne.
        let same : client ≡ c = omega arith in
        subst
          (λ x.
            update s.streams client (s.streams client ++ job.block client) x
            ≡ s.streams x ++ job.block x)
          same (update_self s.streams client (s.streams client ++ job.block client));
    spared = λ c no_turn.
        update_other s.streams client c (s.streams client ++ job.block client)
          (λ same. no_turn (omega arith) (omega arith) (λ own. apart (same ∙ own)));
  }

  turn-Comes :
      (s : Shared) (job : Job) (client : ℕ)
      → IsFree s
      → client < s.no_client
      → Comes s (looping job client)
      → (s' : Shared) × Comes s' (looping job (suc client)) × Between i job client (suc client) s s'
  turn-Comes s job client free low c = elim (Bool-cases (client == i)) [
    | inl own ↦ (
      s,
      moved c (skip low (ground arith)),
      record {
        count = refl;
        stdout = refl;
        free = free;
        sent = λ x ge lt ne. absurd (ground arith);
        spared = λ x h. refl;
      },
    )
    | inr other ↦
        let apart : client ≢ i = ground arith in
        let held : Shared = record s { locks = update s.locks client true } in
        let entered : Comes held (writing job client 0) =
          moved c (wait low apart (free client low)) in
        (
          after s job client,
          moved (writing-Comes held job client (job.block client) refl entered) (post refl),
          after-Between s job client free apart,
        )
  ]

  Between-trans :
      (job : Job) (low middle high : ℕ) (s s' s'' : Shared)
      → low ≤ middle
      → middle ≤ high
      → Between i job low middle s s'
      → Between i job middle high s' s''
      → Between i job low high s s''
  Between-trans job low middle high s s' s'' le le' a b = record {
    count = b.count ∙ a.count;
    stdout = b.stdout ∙ a.stdout;
    free = b.free;
    sent = λ c ge lt ne. elim (Bool-cases (ltb c middle)) [
      | inl early ↦ b.spared c (λ ge' lt' ne'. ground arith) ∙ a.sent c ge (ground arith) ne
      | inr late ↦
          b.sent c (ground arith) lt ne
          ∙ ap (λ x. x ++ job.block c) (a.spared c (λ ge' lt' ne'. ground arith))
    ];
    spared = λ c h.
        b.spared c (λ ge lt ne. h (omega arith) lt ne)
        ∙ a.spared c (λ ge lt ne. h ge (omega arith) ne);
  }

  loop-Comes :
      (rounds client : ℕ) (s : Shared) (job : Job)
      → IsFree s
      → client + rounds ≡ s.no_client
      → Comes s (looping job client)
      → (s' : Shared) × Comes s' (looping job (client + rounds))
        × Between i job client (client + rounds) s s'
  loop-Comes zero client s job free count c =
      let stop : client + 0 ≡ client = omega arith in
      (
        s,
        subst (λ n. Comes s (looping job n)) (sym stop) c,
        record {
          count = refl;
          stdout = refl;
          free = free;
          sent = λ x ge lt ne. absurd (omega arith);
          spared = λ x h. refl;
        },
      )
  loop-Comes (suc rounds) client s job free count c =
      let (s₁, c₁, b₁) = turn-Comes s job client free (omega arith) c in
      let more : suc client + rounds ≡ s₁.no_client = (omega arith) in
      let (s₂, c₂, b₂) = loop-Comes rounds (suc client) s₁ job b₁.free more c₁ in
      let stop : suc client + rounds ≡ client + suc rounds = omega arith in
      (
        s₂,
        subst (λ n. Comes s₂ (looping job n)) stop c₂,
        subst (λ n. Between i job client n s s₂) stop
            (Between-trans job client (suc client) (suc client + rounds) s s₁ s₂ (omega arith)
              (omega arith) b₁ b₂),
      )

  -- A thread that forwards one message while the others stand still comes to its end.
  pub alone-Comes :
      (job : Job)
      → IsFree y.shared
      → y.pc i ≡ reading
      → (s' : Shared) × Comes s' reading
        × Between i job 0 y.shared.no_client
            (record y.shared { stdout = y.shared.stdout ++ job.text })
            s'
  alone-Comes job free at_start =
      let n : ℕ = y.shared.no_client in
      let shown : Shared = record y.shared { stdout = y.shared.stdout ++ job.text } in
      let c₁ : Comes y.shared (printing job job.text) =
        moved (y, stay, refl, at_start, λ j apart. refl) (receive job) in
      let c₂ = printing-Comes y.shared job job.text c₁ in
      let all : 0 + n ≡ n = omega arith in
      let (s', c₃, b) = loop-Comes n 0 shown job free all c₂ in
      let past : s'.no_client ≤ 0 + n = omega arith in
      (s', moved c₃ (finish past), subst (λ k. Between i job 0 k shown s') all b)

-- ===== src/Chat/Server/Locks/Moves.antt =====
-- The invariant after one step of a thread, by what the step does to the locks.
use mathlib.Core.Bool.{true≢false}
use mathlib.Core.List.{Mem, mem-append_left}
use cryptodev_chat.Common.{
  ℕ, ◌<◌, ◌≡◌, ◌≢◌, ◌⊎◌, inl, inr, refl, sym, ap, subst, ◌∙◌, List, [], ◌∷◌, ◌++◌, Option, none,
  some, true, false, arith, update, update_self, update_other, update_cases, update_was, Bool-cases,
  ◌==◌,
}
use cryptodev_chat.Chat.Server.Locks.{Job, Pc, reading, printing, looping, writing, Shared}
use cryptodev_chat.Chat.Server.Locks.Invariant.{
  blocks, blocks-append, target, Local, Inv, Agrees, Local-keep,
}

pub some_inj : {x y : ℕ} → ◌≡◌ {A = Option ℕ} (some x) (some y) → x ≡ y
some_inj e = cc

-- A thread in a critical section holds that recipient's lock.
pub target-Local :
    (s : Shared) (j c : ℕ) (p : Pc)
    → target p ≡ some c
    → Local s j p
    → (c < s.no_client) × (s.locks c ≡ true)
target-Local s j c reading e h = cc
target-Local s j c (printing job rest) e h = cc
target-Local s j c (looping job client) e h = cc
target-Local s j c (writing job client n) e (lt, own, held, sent, served) =
    let same : client ≡ c = cc in
    subst (λ x. (x < s.no_client) × (s.locks x ≡ true)) same (lt, held)

module _ {s : Shared} {pc : ℕ → Pc} (inv : Inv s pc) (i : ℕ) {p : Pc} (p' : Pc)
    (at_p : pc i ≡ p) where
  target_was :
      (j c : ℕ)
      → target (update pc i p' j) ≡ some c
      → ((i ≡ j) × (target p' ≡ some c)) ⊎ ((i ≢ j) × (target (pc j) ≡ some c))
  target_was j c h = elim (update_cases pc i j p') [
    | inl (same, e) ↦ inl (same, ap target (sym e) ∙ h)
    | inr (apart, e) ↦ inr (apart, ap target (sym e) ∙ h)
  ]

  target_is : (j c : ℕ) → i ≢ j → target (pc j) ≡ some c → target (update pc i p' j) ≡ some c
  target_is j c apart h = ap target (update_other pc i j p' apart) ∙ h

  -- A thread that is in another place than thread `i` is not thread `i`.
  other_thread : (j c : ℕ) → target (pc j) ≡ some c → target p ≢ some c → i ≢ j
  other_thread j c h ne same = ne (ap target (sym at_p) ∙ ap (λ x. target (pc x)) same ∙ h)

  at_pc_after :
      (s' : Shared) (c : ℕ)
      → Agrees s s' c
      → ((j : ℕ) → i ≢ j → target (pc j) ≢ some c)
      → Local s' i p'
      → (j : ℕ) → Local s' j (update pc i p' j)
  at_pc_after s' c a alone own j = elim (update_cases pc i j p') [
    | inl (same, e) ↦ subst (Local s' j) (sym e) (subst (λ x. Local s' x p') same own)
    | inr (apart, e) ↦
        subst (Local s' j) (sym e) (Local-keep s s' c j (pc j) a (alone j apart) (inv.at_pc j))
  ]

  -- A step that enters and leaves no critical section.
  module _ (stays : target p ≡ target p') where
    target_stays : (j : ℕ) → target (update pc i p' j) ≡ target (pc j)
    target_stays j = elim (update_cases pc i j p') [
      | inl (same, e) ↦
          ap target e ∙ sym stays ∙ ap target (sym at_p) ∙ ap (λ x. target (pc x)) same
      | inr (apart, e) ↦ ap target e
    ]

    owner_stays : (c : ℕ) → s.locks c ≡ true → (j : ℕ) × (target (update pc i p' j) ≡ some c)
    owner_stays c h = let (j, e) = inv.owner c h in (j, target_stays j ∙ e)

    exclusive_stays :
        (j j' c : ℕ)
        → target (update pc i p' j) ≡ some c
        → target (update pc i p' j') ≡ some c
        → j ≡ j'
    exclusive_stays j j' c h h' =
        inv.exclusive j j' c (sym (target_stays j) ∙ h) (sym (target_stays j') ∙ h')

  -- A step outside of every critical section.
  pub quiet :
      (out : List ℕ)
      → target p ≡ none
      → target p' ≡ none
      → Local (record s { stdout = out }) i p'
      → Inv (record s { stdout = out }) (update pc i p')
  quiet out e e' own = record {
    free = inv.free;
    at_pc =
        at_pc_after (record s { stdout = out }) s.no_client
          (record {
            grows = omega arith;
            streams = λ x ne. refl;
            locks = λ x ne. refl;
            log = λ x ne. refl;
            keeps = λ x job low m. m;
          })
          (λ j apart h.
            let (low, held) = target-Local s j s.no_client (pc j) h (inv.at_pc j) in omega arith)
          own;
    owner = owner_stays (e ∙ sym e');
    exclusive = exclusive_stays (e ∙ sym e');
  }

  nobody : (c : ℕ) → s.locks c ≡ false → (j : ℕ) → target (pc j) ≢ some c
  nobody c is_free j h =
      let (low, held) = target-Local s j c (pc j) h (inv.at_pc j) in true≢false (sym held ∙ is_free)

  -- No other thread is in the critical section where thread `i` is.
  alone : (c : ℕ) → target p ≡ some c → (j : ℕ) → i ≢ j → target (pc j) ≢ some c
  alone c e j apart h = apart (inv.exclusive i j c (ap target at_p ∙ e) h)

  -- sem_wait
  pub entering :
      (c : ℕ)
      → s.locks c ≡ false
      → target p ≡ none
      → target p' ≡ some c
      → Local (record s { locks = update s.locks c true }) i p'
      → Inv (record s { locks = update s.locks c true }) (update pc i p')
  entering c is_free e e' own = record {
    free = λ x h. elim (update_was s.locks c x true h) [
      | inl (same, wrong) ↦ cc
      | inr (apart, h') ↦ inv.free x h'
    ];
    at_pc =
        at_pc_after (record s { locks = update s.locks c true }) c
          (record {
            grows = omega arith;
            streams = λ x ne. refl;
            locks = λ x ne. update_other s.locks c x true ne;
            log = λ x ne. refl;
            keeps = λ x job low m. m;
          })
          (λ j apart h. nobody c is_free j h) own;
    owner = λ x h. elim (update_was s.locks c x true h) [
      | inl (same, yes_held) ↦ (i, ap target (update_self pc i p') ∙ e' ∙ ap some same)
      | inr (apart, h') ↦
          let (j, there) = inv.owner x h' in
          (j, target_is j x (other_thread j x there (λ w. cc)) there)
    ];
    exclusive = λ j j' x h h'. elim (target_was j x h) [
      | inl (same, t) ↦ elim (target_was j' x h') [
        | inl (same', t') ↦ sym same ∙ same'
        | inr (apart', t') ↦ absurd (nobody c is_free j' (t' ∙ sym t ∙ e'))
      ]
      | inr (apart, t) ↦ elim (target_was j' x h') [
        | inl (same', t') ↦ absurd (nobody c is_free j (t ∙ sym t' ∙ e'))
        | inr (apart', t') ↦ inv.exclusive j j' x t t'
      ]
    ];
  }

  -- A write in the critical section of recipient `c`, whose connection then carries `bytes`.
  pub writes :
      (c : ℕ) (bytes : List ℕ)
      → s.locks c ≡ true
      → target p ≡ some c
      → target p' ≡ some c
      → Local (record s { streams = update s.streams c bytes }) i p'
      → Inv (record s { streams = update s.streams c bytes }) (update pc i p')
  writes c bytes held e e' own = record {
    free = λ x h. elim (Bool-cases (c == x)) [
      | inl same ↦
          let here_c : c ≡ x = ground arith in
          absurd (true≢false (sym held ∙ ap s.locks here_c ∙ h))
      | inr other ↦
          let apart : c ≢ x = ground arith in update_other s.streams c x bytes apart ∙ inv.free x h
    ];
    at_pc =
        at_pc_after (record s { streams = update s.streams c bytes }) c
          (record {
            grows = omega arith;
            streams = λ x ne. update_other s.streams c x bytes ne;
            locks = λ x ne. refl;
            log = λ x ne. refl;
            keeps = λ x job low m. m;
          })
          (alone c e) own;
    owner = owner_stays (e ∙ sym e');
    exclusive = exclusive_stays (e ∙ sym e');
  }

  -- sem_post after the whole block of `job`
  module _ (c : ℕ) (job : Job) (whole : s.streams c ≡ blocks c (s.log c) ++ job.block c) where
    abbrev pub posted : Shared
    posted = record s { locks = update s.locks c false; log = update s.log c (s.log c ++ job ∷ []) }

    -- What was in a log stays there.
    pub posted-keeps : (x : ℕ) (j : Job) → Mem j (s.log x) → Mem j (posted.log x)
    posted-keeps x j m = elim (update_cases s.log c x (s.log c ++ job ∷ [])) [
      | inl (same, e) ↦
          subst (Mem j) (sym e)
            (mem-append_left (job ∷ []) (subst (λ y. Mem j (s.log y)) (sym same) m))
      | inr (apart, e) ↦ subst (Mem j) (sym e) m
    ]

    pub leaving :
        target p ≡ some c → target p' ≡ none → Local posted i p' → Inv posted (update pc i p')
    leaving e e' own = record {
      free = λ x h. elim (Bool-cases (c == x)) [
        | inl same ↦
            let here_c : c ≡ x = ground arith in
            subst (λ y. s.streams y ≡ blocks y (posted.log y)) here_c
              (whole
                ∙ sym (blocks-append c (s.log c) job)
                ∙ ap (blocks c) (sym (update_self s.log c (s.log c ++ job ∷ []))))
        | inr other ↦
            let apart : c ≢ x = ground arith in
            inv.free x (sym (update_other s.locks c x false apart) ∙ h)
            ∙ ap (blocks x) (sym (update_other s.log c x (s.log c ++ job ∷ []) apart))
      ];
      at_pc =
          at_pc_after posted c
            (record {
              grows = omega arith;
              streams = λ x ne. refl;
              locks = λ x ne. update_other s.locks c x false ne;
              log = λ x ne. update_other s.log c x (s.log c ++ job ∷ []) ne;
              keeps = λ x j low m. posted-keeps x j m;
            })
            (alone c e) own;
      owner = λ x h. elim (update_was s.locks c x false h) [
        | inl (same, wrong) ↦ cc
        | inr (apart, h') ↦
            let (j, there) = inv.owner x h' in
            (j, target_is j x (other_thread j x there (λ w. apart (some_inj (sym e ∙ w)))) there)
      ];
      exclusive = λ j j' x h h'. elim (target_was j x h) [
        | inl (same, t) ↦ cc
        | inr (apart, t) ↦ elim (target_was j' x h') [
          | inl (same', t') ↦ cc
          | inr (apart', t') ↦ inv.exclusive j j' x t t'
        ]
      ];
    }

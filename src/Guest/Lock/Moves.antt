-- ===== src/Guest/Lock/Moves.antt =====
-- A step of a caller is a step of the service that the lock is to give, or none.
use mathlib.Core.Bool.{true≢false}
use cryptodev_chat.Common.{
  ℕ, ◌≡◌, ◌≢◌, Option, inl, inr, refl, sym, ap, subst, ◌∙◌, true, false, none, some, update,
  update_self, update_other, update_same, update_cases,
}
use cryptodev_chat.Cryptodev.{Cryptodev}
use cryptodev_chat.Virtio.{Elem, Virtqueue, Carries}
use cryptodev_chat.Backend.{Mapping}
use cryptodev_chat.Guest.Chrdev.{Request}
use cryptodev_chat.Guest.Lock.{
  Pc, outside, wanting, locked, added, polling, got, unlocked, Shared, Move, call, acquire, add,
  kick, poll, take, release, return, System,
}
use cryptodev_chat.Guest.Lock.Atomic.{
  Phase, idle, calling, done, Service, ask, leave, Acts, none_yet, then_act,
}
use cryptodev_chat.Guest.Lock.Invariant.{
  inside, Holds, Polled, pending, served, Stands, Stands-apart, Inv,
}

module _ (d : Cryptodev) (m : Mapping) (t : Virtqueue) (k : Carries t) where
  open d use {State}
  open t use {Queue, add_sgs, get_buf}
  open k use {IsIdle}

  module _ {z : System d m t} {a : Service d m} (inv : Inv d m t k z a) (i : ℕ) where
    at : {p : Pc} → z.pc i ≡ p → Stands d m t k z.shared i p (a.phase i)
    at e = subst (λ p. Stands d m t k z.shared i p (a.phase i)) e (inv.at_pc i)

    others :
        Holds d m t k z.shared i
        → (s' : Shared Queue State) (j : ℕ) → i ≢ j
        → Stands d m t k s' j (z.pc j) (a.phase j)
    others (held, mine) s' j apart =
        Stands-apart d m t k z.shared s' j (z.pc j) (a.phase j) (λ h. apart (sym mine ∙ h.1))
          (inv.at_pc j)

    -- The lock's holder is inside where callers outside of it have moved.
    owner_stays :
        {p : Pc} (p' : Pc)
        → z.pc i ≡ p
        → inside p ≡ false
        → z.shared.lock ≡ true
        → inside (update z.pc i p' z.shared.owner) ≡ true
    owner_stays {p} p' e out held = elim (update_cases z.pc i z.shared.owner p') [
      | inl (same, _) ↦ absurd (
          true≢false
            (sym (inv.owner held) ∙ ap (λ x. inside (z.pc x)) (sym same) ∙ ap inside e ∙ out))
      | inr (apart, e') ↦ ap inside e' ∙ inv.owner held
    ]

    owner_is :
        (p' : Pc)
        → z.shared.owner ≡ i
        → inside p' ≡ true
        → inside (update z.pc i p' z.shared.owner) ≡ true
    owner_is p' mine e = rw mine (rw (update_self z.pc i p') e)

    -- Caller `i` has moved.
    settle :
        (s' : Shared Queue State) (p' : Pc) (f : Phase)
        → a.host ≡ s'.host
        → ((j : ℕ) → i ≢ j → Stands d m t k s' j (z.pc j) (a.phase j))
        → Stands d m t k s' i p' f
        → (s'.lock ≡ false → (s'.kicked ≡ false) × IsIdle s'.vq)
        → (s'.lock ≡ true → inside (update z.pc i p' s'.owner) ≡ true)
        → Inv d m t k
            (record { shared = s'; pc = update z.pc i p' })
            (record a { phase = update a.phase i f })
    settle s' p' f host rest own free owner = record {
      host = host;
      at_pc = λ j. elim (update_cases z.pc i j p') [
        | inl (same, e) ↦
            subst (λ x. Stands d m t k s' x (update z.pc i p' x) (update a.phase i f x)) same
              (rw (update_self z.pc i p', update_self a.phase i f) own)
        | inr (apart, e) ↦ rw (e, update_other a.phase i j f apart) (rest j apart)
      ];
      free = free;
      owner = owner;
    }

    -- Caller `i` has moved to a place that the service does not tell apart.
    linger :
        (s' : Shared Queue State) (p' : Pc)
        → a.host ≡ s'.host
        → ((j : ℕ) → i ≢ j → Stands d m t k s' j (z.pc j) (a.phase j))
        → Stands d m t k s' i p' (a.phase i)
        → (s'.lock ≡ false → (s'.kicked ≡ false) × IsIdle s'.vq)
        → (s'.lock ≡ true → inside (update z.pc i p' s'.owner) ≡ true)
        → Inv d m t k (record { shared = s'; pc = update z.pc i p' }) a
    linger s' p' host rest own free owner =
        subst
          (λ g.
            Inv d m t k (record { shared = s'; pc = update z.pc i p' }) (record a { phase = g }))
          (update_same a.phase i) (settle s' p' (a.phase i) host rest own free owner)

  some_pair :
      {e e' : Elem} {q q' : Queue}
      → ◌≡◌ {A = Option (Elem × Queue)} (some (e, q)) (some (e', q'))
      → (e ≡ e') × (q ≡ q')
  some_pair h = (cc, cc)

  -- What the loop gets is the answer, and the queue is idle again.
  Polled-take :
      (s : Shared Queue State) (r : Request) (f : Phase)
      → Polled d m t k s r f
      → (x : Elem) (q : Queue) → get_buf s.vq ≡ some (x, q)
      → (f ≡ done r x) × (s.kicked ≡ false) × IsIdle q
  Polled-take s r f (pending is_request kicked (q', is_idle, eq) asked) x q has =
      let empty : get_buf s.vq ≡ none = ap get_buf eq ∙ k.waits r.0 r.1 q' is_idle in cc
  Polled-take s r f (served e q' quiet had is_idle eq) x q has =
      let (same, left) = some_pair (sym had ∙ has) in
      (eq ∙ ap (done r) same, quiet, subst IsIdle left is_idle)

  -- What the service has done since `a`, and where it stands.
  abbrev pub Follows : Service d m → System d m t → Type 0
  Follows a z = (b : Service d m) × Acts d m a b × Inv d m t k z b

  module _ {z : System d m t} {a : Service d m} (inv : Inv d m t k z a) (i : ℕ) where
    stay : {z' : System d m t} → Inv d m t k z' a → Follows a z'
    stay inv' = (a, none_yet, inv')

    pub Move-Follows :
        {s' : Shared Queue State} {p p' : Pc}
        → Move t i z.shared p s' p'
        → z.pc i ≡ p
        → Follows a (record { shared = s'; pc = update z.pc i p' })
    Move-Follows (call r is_request) e = (
      _,
      then_act none_yet (ask i r (at inv i e) is_request),
      settle inv i z.shared (wanting r) (calling r) inv.host (λ j apart. inv.at_pc j)
          (refl, is_request) inv.free (owner_stays inv i _ e refl),
    )
    Move-Follows (acquire {r} is_free) e =
        let (eq, is_request) = at inv i e in
        let (quiet, is_idle) = inv.free is_free in
        stay (
          linger inv i (record z.shared { lock = true; owner = i }) (locked r) inv.host
            (λ j apart.
              Stands-apart d m t k z.shared _ j (z.pc j) (a.phase j)
                (λ h. true≢false (sym h.0 ∙ is_free)) (inv.at_pc j))
            (eq, is_request, (refl, refl), quiet, is_idle) (λ h. cc)
            (λ h. rw (update_self z.pc i (locked r)) refl))
    Move-Follows (add {r}) e =
        let (eq, is_request, holds, quiet, is_idle) = at inv i e in
        stay (
          linger inv i _ (added r) inv.host (others inv i holds _)
            (eq, is_request, holds, quiet, (z.shared.vq, is_idle, refl))
            (λ h. absurd (true≢false (sym holds.0 ∙ h))) (λ h. owner_is inv i _ holds.1 refl))
    Move-Follows (kick {r}) e =
        let (eq, is_request, holds, quiet, queued) = at inv i e in
        stay (
          linger inv i _ (polling r) inv.host (others inv i holds _)
            (holds, pending is_request refl queued eq) (λ h. absurd (true≢false (sym holds.0 ∙ h)))
            (λ h. owner_is inv i _ holds.1 refl))
    Move-Follows (poll {r} empty) e =
        let stands = at inv i e in
        stay (
          linger inv i z.shared (polling r) inv.host (λ j apart. inv.at_pc j) stands inv.free
            (λ h. owner_is inv i _ stands.0.1 refl))
    Move-Follows (take {r} x q has) e =
        let (holds, polled) = at inv i e in
        let (eq, quiet, is_idle) = Polled-take z.shared r (a.phase i) polled x q has in
        stay (
          linger inv i _ (got r x) inv.host (others inv i holds _) (eq, holds, quiet, is_idle)
            (λ h. absurd (true≢false (sym holds.0 ∙ h))) (λ h. owner_is inv i _ holds.1 refl))
    Move-Follows (release {r} {e = x}) e =
        let (eq, holds, quiet, is_idle) = at inv i e in
        stay (
          linger inv i _ (unlocked r x) inv.host (others inv i holds _) eq (λ h. (quiet, is_idle))
            (λ h. cc))
    Move-Follows (return {r} {e = x}) e = (
      _,
      then_act none_yet (leave i r x (at inv i e)),
      settle inv i z.shared outside idle inv.host (λ j apart. inv.at_pc j) refl inv.free
          (owner_stays inv i _ e refl),
    )

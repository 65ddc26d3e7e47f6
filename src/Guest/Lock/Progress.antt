-- ===== src/Guest/Lock/Progress.antt =====
-- No deadlock: the holder of the lock waits for qemu only, and qemu only for the kick.
use cryptodev_chat.Common.{ℕ, ◌≡◌, ◌⊎◌, ◌≢◌, inl, inr, refl, sym, ap, subst, true, Bool-cases}
use cryptodev_chat.Run.{ok}
use cryptodev_chat.Cryptodev.{Cryptodev}
use cryptodev_chat.Virtio.{Virtqueue, Carries}
use cryptodev_chat.Backend.{Mapping, vq_handle_output}
use cryptodev_chat.Guest.Chrdev.{Request}
use cryptodev_chat.Guest.Chrdev.Agree.{IsRequest, IsRequest-handled}
use cryptodev_chat.Guest.Lock.{
  Pc, outside, wanting, locked, added, polling, got, unlocked, Shared, Move, acquire, add, kick,
  take, release, return, System, Reach, start,
}
use cryptodev_chat.Guest.Lock.Atomic.{Phase, Service}
use cryptodev_chat.Guest.Lock.Serial.{Reach-Follows}
use cryptodev_chat.Guest.Lock.Invariant.{inside, Queued, pending, served, Stands, Inv, start-Inv}

module _ (d : Cryptodev) (m : Mapping) (t : Virtqueue) (k : Carries t) where
  open d use {State}
  open t use {Queue, get_buf}

  -- A move to another place: one more turn of the loop of virtqueue_get_buf is none.
  abbrev pub CanMove : Shared Queue State → ℕ → Pc → Type 0
  CanMove s i p = (s' : Shared Queue State) × (p' : Pc) × Move t i s p s' p' × (p' ≢ p)

  abbrev pub CanHandle : Shared Queue State → Type 0
  CanHandle s =
      (q : Queue) × (s' : State) × (s.kicked ≡ true)
      × (vq_handle_output d m t s.vq s.host ≡ ok (q, s'))

  pub data Progress (s : Shared Queue State) (pc : ℕ → Pc) (i : ℕ) : Type 0 where
    moves : CanMove s i (pc i) → Progress s pc i
    -- The kick is on its way to qemu.
    awaits_host : CanHandle s → Progress s pc i
    -- It is before the lock, and the holder of the lock can move.
    awaits_lock :
        {r : Request} (j : ℕ)
        → pc i ≡ wanting r
        → s.lock ≡ true
        → inside (pc j) ≡ true
        → CanMove s j (pc j)
        → Progress s pc i

  Queued-CanHandle :
      (s : Shared Queue State) (r : Request)
      → s.kicked ≡ true
      → IsRequest r
      → Queued d m t k r s.vq
      → CanHandle s
  unfolding vq_handle_output
  Queued-CanHandle s r kicked is_request (q, is_idle, eq) =
      let (e, s', answer) = IsRequest-handled d m r s.host is_request in
      let (q', popped, has_popped) = k.pops r.0 r.1 q is_idle in
      (t.push e q', s', kicked, rw (eq, popped, answer) refl)

  -- The holder of the lock, wherever it stands.
  holder_lem :
      (s : Shared Queue State) (i : ℕ) (p : Pc) (f : Phase)
      → inside p ≡ true
      → Stands d m t k s i p f
      → CanMove s i p ⊎ CanHandle s
  holder_lem s i outside f e h = cc
  holder_lem s i (wanting r) f e h = cc
  holder_lem s i (locked r) f e h = inl (_, _, add, λ w. cc)
  holder_lem s i (added r) f e h = inl (_, _, kick, λ w. cc)
  holder_lem s i (polling r) f e (holds, pending is_request kicked queued eq) =
      inr (Queued-CanHandle s r kicked is_request queued)
  holder_lem s i (polling r) f e (holds, served x q quiet has is_idle eq) =
      inl (_, _, take x q has, λ w. cc)
  holder_lem s i (got r x) f e h = inl (_, _, release, λ w. cc)
  holder_lem s i (unlocked r x) f e h = cc

  module _ {z : System d m t} {a : Service d m} (inv : Inv d m t k z a) (i : ℕ) where
    inside_lem : inside (z.pc i) ≡ true → Progress z.shared z.pc i
    inside_lem e = elim (holder_lem z.shared i (z.pc i) (a.phase i) e (inv.at_pc i)) [
      | inl can ↦ moves can
      | inr can ↦ awaits_host can
    ]

    wanting_lem : (r : Request) → z.pc i ≡ wanting r → Progress z.shared z.pc i
    wanting_lem r e = elim (Bool-cases z.shared.lock) [
      | inr is_free ↦ moves (subst (CanMove z.shared i) (sym e) (_, _, acquire is_free, λ w. cc))
      | inl held ↦
          let j = z.shared.owner in
          let there = inv.owner held in
          elim (holder_lem z.shared j (z.pc j) (a.phase j) there (inv.at_pc j)) [
            | inl can ↦ awaits_lock j e held there can
            | inr can ↦ awaits_host can
          ]
    ]

    progress_lem : (p : Pc) → z.pc i ≡ p → p ≢ outside → Progress z.shared z.pc i
    progress_lem outside e ne = absurd (ne refl)
    progress_lem (wanting r) e ne = wanting_lem r e
    progress_lem (locked r) e ne = inside_lem (ap inside e)
    progress_lem (added r) e ne = inside_lem (ap inside e)
    progress_lem (polling r) e ne = inside_lem (ap inside e)
    progress_lem (got r x) e ne = inside_lem (ap inside e)
    progress_lem (unlocked r x) e ne =
        moves (subst (CanMove z.shared i) (sym e) (_, _, return, λ w. cc))

  -- In every order of the steps, from an idle queue: a caller that is in the driver can go on, or the
  -- kick is on its way to qemu, which can handle it, or the caller is before the lock and the one that
  -- holds the lock can go on.
  pub Reach-Progress :
      {z : System d m t} (q : Queue) (s : State) (i : ℕ)
      → k.IsIdle q
      → Reach d m t (start d m t q s) z
      → z.pc i ≢ outside
      → Progress z.shared z.pc i
  Reach-Progress {z} q s i is_idle r ne =
      let (a, acts, inv) = Reach-Follows d m t k (start-Inv d m t k q s is_idle) r in
      progress_lem inv i (z.pc i) refl ne

-- ===== src/Guest/Lock/Host.antt =====
-- A run of vq_handle_output is a step of the service.
use mathlib.Core.Bool.{true≢false}
use cryptodev_chat.Common.{
  ℕ, ◌≡◌, inl, inr, refl, sym, ap, subst, ◌∙◌, true, false, some, update, update_self, Bool-cases,
  update_cases,
}
use cryptodev_chat.Run.{Run, ok}
use cryptodev_chat.Cryptodev.{Cryptodev}
use cryptodev_chat.Virtio.{Elem, Virtqueue, Carries}
use cryptodev_chat.Backend.{Mapping, handle_elem, vq_handle_output}
use cryptodev_chat.Guest.Chrdev.{Request}
use cryptodev_chat.Guest.Chrdev.Agree.{IsRequest, IsRequest-handled, elem_of}
use cryptodev_chat.Guest.Lock.{
  Pc, outside, wanting, locked, added, polling, got, unlocked, Shared, System,
}
use cryptodev_chat.Guest.Lock.Atomic.{Phase, calling, done, Service, serve, none_yet, then_act}
use cryptodev_chat.Guest.Lock.Moves.{Follows}
use cryptodev_chat.Guest.Lock.Invariant.{
  inside, Holds, Queued, pending, served, Stands, Stands-apart, Inv,
}

module _ (d : Cryptodev) (m : Mapping) (t : Virtqueue) (k : Carries t) where
  open d use {State}
  open t use {Queue, add_sgs, get_buf}
  open k use {IsIdle}

  ok_pair :
      {s s' : State} {q q' : Queue}
      → ◌≡◌ {A = Run (Queue × State)} (ok (q, s)) (ok (q', s'))
      → (q ≡ q') × (s ≡ s')
  ok_pair h = (cc, cc)

  -- What qemu does when the kick reaches it.
  serving :
      (r : Request) (q q' : Queue) (s s' : State)
      → Queued d m t k r q
      → IsRequest r
      → vq_handle_output d m t q s ≡ ok (q', s')
      → (e : Elem) × (q'' : Queue) × (handle_elem d m (elem_of r) s ≡ ok (e, s'))
        × (get_buf q' ≡ some (e, q''))
        × IsIdle q''
  unfolding vq_handle_output
  serving r q q' s s' (idle_q, is_idle, eq) is_request handled =
      let (e, s₁, answer) = IsRequest-handled d m r s is_request in
      let (q₁, popped, has_popped) = k.pops r.0 r.1 idle_q is_idle in
      let (q₂, gotten, idle') = k.returns e q₁ has_popped in
      let result = rw (eq, popped, answer) at handled in
      let (left, after) = ok_pair result in
      (e, q₂, answer ∙ ap (λ x. ok (e, x)) after, ap get_buf (sym left) ∙ gotten, idle')

  -- Where a caller stands that holds the lock when the queue is kicked.
  Stands-kicked :
      (s : Shared Queue State) (i : ℕ) (p : Pc) (f : Phase)
      → inside p ≡ true
      → s.kicked ≡ true
      → Stands d m t k s i p f
      → (r : Request) × (p ≡ polling r)
        × Holds d m t k s i
        × IsRequest r
        × Queued d m t k r s.vq
        × (f ≡ calling r)
  Stands-kicked s i outside f e kicked h = cc
  Stands-kicked s i (wanting r) f e kicked h = cc
  Stands-kicked s i (locked r) f e kicked (_, _, _, quiet, _) = cc
  Stands-kicked s i (added r) f e kicked (_, _, _, quiet, _) = cc
  Stands-kicked s i (polling r) f e kicked (holds, pending is_request _ queued eq) =
      (r, refl, holds, is_request, queued, eq)
  Stands-kicked s i (polling r) f e kicked (holds, served x q quiet _ _ _) = cc
  Stands-kicked s i (got r x) f e kicked (_, _, quiet, _) = cc
  Stands-kicked s i (unlocked r x) f e kicked h = cc

  pub handle-Follows :
      {z : System d m t} {a : Service d m} (inv : Inv d m t k z a) (q : Queue) (s : State)
      → z.shared.kicked ≡ true
      → vq_handle_output d m t z.shared.vq z.shared.host ≡ ok (q, s)
      → Follows d m t k a
          (record z { shared = record z.shared { kicked = false; vq = q; host = s } })
  handle-Follows {z} {a} inv q s kicked handled =
      let held : z.shared.lock ≡ true = elim (Bool-cases z.shared.lock) [
        | inl yes_held ↦ yes_held
        | inr no_held ↦ absurd (true≢false (sym kicked ∙ (inv.free no_held).0))
      ] in
      let i = z.shared.owner in
      let (r, there, holds, is_request, queued, asked) =
        Stands-kicked z.shared i (z.pc i) (a.phase i) (inv.owner held) kicked (inv.at_pc i) in
      let (e, left, answer, gotten, is_idle) =
        serving r z.shared.vq q z.shared.host s queued is_request handled in
      let after : Shared Queue State = record z.shared { kicked = false; vq = q; host = s } in
      (
        record { host = s; phase = update a.phase i (done r e) },
        then_act none_yet (serve i r e s asked (rw (inv.host) answer)),
        record {
          host = refl;
          at_pc = λ j. elim (update_cases a.phase i j (done r e)) [
            | inl (same, now) ↦
                subst (λ x. Stands d m t k after x (z.pc x) (update a.phase i (done r e) x)) same
                  (subst (λ p. Stands d m t k after i p (update a.phase i (done r e) i)) (sym there)
                    (subst (Stands d m t k after i (polling r))
                      (sym (update_self a.phase i (done r e)))
                      (holds, served e left refl gotten is_idle refl)))
            | inr (apart, now) ↦ subst (Stands d m t k after j (z.pc j)) (sym now) (
                Stands-apart d m t k z.shared after j (z.pc j) (a.phase j) (λ h. apart h.1)
                  (inv.at_pc j))
          ];
          free = λ h. absurd (true≢false (sym held ∙ h));
          owner = inv.owner;
        },
      )

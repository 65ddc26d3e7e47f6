-- ===== src/Guest/Device/Driver.antt =====
-- /dev/crypto of the guest as a `Cryptodev`: each call is the driver's, over the queue to qemu.
use mathlib.Core.Path.{path_j', subst⁻¹, subst⁻¹_refl}
use cryptodev_chat.Common.{ℕ, ◌≡◌, ap, ◌∙◌, fun_ext, ℤ, negsuc}
use cryptodev_chat.Run.{Run, ok, exits, faults, spins}
use cryptodev_chat.Cryptodev.{Cryptodev}
use cryptodev_chat.Virtio.{Virtqueue, Carries}
use cryptodev_chat.Backend.{Mapping}
use cryptodev_chat.Guest.Chrdev.{UserArg, Reply, answer}
use cryptodev_chat.Guest.Device.{Files, Process, sys_open, sys_close, sys_ioctl}
use cryptodev_chat.Guest.Device.Idle.{
  sys_open-idle, sys_close-idle, sys_ioctl-idle, Resting, opened, closed, controlled, calls,
  spec_device,
}

-- What a run gives; `a` where it does not return, which over an idle queue it does.
abbrev pub given : {A : Type 0} → A → Run A → A
given a (ok b) = b
given a (exits n) = a
given a faults = a
given a spins = a

-- The result of a run, with what is known of its state.
module _ {A P : Type 0} (I : P → Type 0) where
  abbrev pub Rests : A × P → Run (A × P) → Type 0
  Rests x r = I (given x r).1

  abbrev pub result :
      (x : A × P) (r : Run (A × P)) {a : A} {g : P} → I g → r ≡ ok (a, g) → A × ((g : P) × I g)
  result x r i e = ((given x r).0, ((given x r).1, subst⁻¹ (Rests x) e i))

  -- A run that returns gives what it returns.
  pub result_lem :
      (x : A × P) (r : Run (A × P)) (a : A) (g : P) (i : I g) (e : r ≡ ok (a, g))
      → result x r i e ≡ (a, (g, i))
  result_lem x r a g i e =
      path_j' (λ r' e'. result x r' i e' ≡ (a, (g, i)))
        (ap (λ w. (a, (g, w))) (subst⁻¹_refl (Rests x) {x = ok (a, g)} i)) e

module _ (d : Cryptodev) (m : Mapping) (t : Virtqueue) (k : Carries t) (new_fd : Files → ℕ)
    (polls vdev minor : ℕ) where
  open d use {State}
  open t use {Queue}

  abbrev Rest : Type 0
  Rest = Resting d m t k new_fd polls vdev minor

  abbrev IsResting : Process Queue State → Type 0
  IsResting g = k.IsIdle g.vq

  -- The calls of a process between two calls; that the queue is idle behind them is known of each.
  abbrev pub driver_open : Rest → ℤ × Rest
  driver_open (g, idle) =
      let (q, done, idle') = sys_open-idle d m t k new_fd polls vdev minor g idle in
      result IsResting (negsuc 0, g) (sys_open d m t new_fd polls vdev minor g) idle' done

  abbrev pub driver_close : ℤ → Rest → ℤ × Rest
  driver_close fd (g, idle) =
      let (q, done, idle') = sys_close-idle d m t k new_fd polls vdev minor fd g idle in
      result IsResting (negsuc 0, g) (sys_close d m t new_fd polls fd g) idle' done

  abbrev pub driver_ioctl : ℤ → ℕ → UserArg → Rest → Reply × Rest
  driver_ioctl fd cmd arg (g, idle) =
      let (q, done, idle') = sys_ioctl-idle d m t k new_fd polls vdev minor fd cmd arg g idle in
      result IsResting (answer (negsuc 0), g) (sys_ioctl d m t new_fd polls fd cmd arg g) idle' done

  driver_open-opened : (s : Rest) → driver_open s ≡ opened d m t k new_fd polls vdev minor s
  driver_open-opened (g, idle) =
      let (q, done, idle') = sys_open-idle d m t k new_fd polls vdev minor g idle in
      result_lem IsResting (negsuc 0, g) (sys_open d m t new_fd polls vdev minor g) _ _ idle' done

  driver_close-closed :
      (fd : ℤ) (s : Rest) → driver_close fd s ≡ closed d m t k new_fd polls vdev minor fd s
  driver_close-closed fd (g, idle) =
      let (q, done, idle') = sys_close-idle d m t k new_fd polls vdev minor fd g idle in
      result_lem IsResting (negsuc 0, g) (sys_close d m t new_fd polls fd g) _ _ idle' done

  driver_ioctl-controlled :
      (fd : ℤ) (cmd : ℕ) (arg : UserArg) (s : Rest)
      → driver_ioctl fd cmd arg s ≡ controlled d m t k new_fd polls vdev minor fd cmd arg s
  driver_ioctl-controlled fd cmd arg (g, idle) =
      let (q, done, idle') = sys_ioctl-idle d m t k new_fd polls vdev minor fd cmd arg g idle in
      result_lem IsResting (answer (negsuc 0), g) (sys_ioctl d m t new_fd polls fd cmd arg g) _ _
        idle' done

  abbrev pub guest_device : Cryptodev
  guest_device = calls driver_open driver_close driver_ioctl

  pub guest_device-spec_device : guest_device ≡ spec_device d m t k new_fd polls vdev minor
  guest_device-spec_device =
      ap (λ o. calls o driver_close driver_ioctl) (fun_ext driver_open-opened)
      ∙ ap (λ c. calls (opened d m t k new_fd polls vdev minor) c driver_ioctl)
          (fun_ext λ fd. fun_ext (driver_close-closed fd))
      ∙ ap (calls (opened d m t k new_fd polls vdev minor) (closed d m t k new_fd polls vdev minor))
          (fun_ext λ fd. fun_ext λ cmd. fun_ext λ arg. fun_ext (driver_ioctl-controlled fd cmd arg))

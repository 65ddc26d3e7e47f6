-- ===== src/Guest/Devices/Laws.antt =====
-- Minor numbers: unique, found, and gone with their device.
use cryptodev_chat.Common.{
  ℕ, ◌+◌, ◌%◌, ◌^◌, ◌<◌, ◌≡◌, ◌≢◌, refl, List, [], ◌∷◌, ◌++◌, Option, none, some, pos, true, ◌==◌,
  if◌then◌else◌, Bool-cases, inl, inr, arith,
}
use cryptodev_chat.Guest.Devices.{
  CryptoDevice, DriverData, find_minor, get_crypto_dev_by_minor, virtcons_probe, delete_vdev,
  virtcons_remove,
}

module _ {Queue : Type 0} where
  -- Every device of the list differs from `crdev` in its minor number and in its virtio device.
  abbrev pub Apart : CryptoDevice Queue → List (CryptoDevice Queue) → Type 0
  Apart crdev [] = Unit {0}
  Apart crdev (other ∷ devs) =
      (crdev.minor ≢ other.minor) × (crdev.vdev ≢ other.vdev) × Apart crdev devs

  -- Minor numbers are below the bound and pairwise different, and so are the virtio devices.
  abbrev pub Distinct : ℕ → List (CryptoDevice Queue) → Type 0
  Distinct bound [] = Unit {0}
  Distinct bound (crdev ∷ devs) = (crdev.minor < bound) × Apart crdev devs × Distinct bound devs

  -- No virtio device of the list is `vdev`.
  abbrev pub IsNew : ℕ → List (CryptoDevice Queue) → Type 0
  IsNew vdev [] = Unit {0}
  IsNew vdev (crdev ∷ devs) = (crdev.vdev ≢ vdev) × IsNew vdev devs

  abbrev pub IsValid : DriverData Queue → Type 0
  IsValid crdrvdata = Distinct crdrvdata.next_minor crdrvdata.devs

  Apart-append :
      (crdev new : CryptoDevice Queue) (devs : List (CryptoDevice Queue))
      → crdev.minor ≢ new.minor
      → crdev.vdev ≢ new.vdev
      → Apart crdev devs
      → Apart crdev (devs ++ new ∷ [])
  Apart-append crdev new [] hm hv a = (hm, hv, tt)
  Apart-append crdev new (other ∷ devs) hm hv (am, av, a) =
      (am, av, Apart-append crdev new devs hm hv a)

  Distinct-append :
      (bound : ℕ) (new : CryptoDevice Queue) (devs : List (CryptoDevice Queue))
      → new.minor ≡ bound
      → IsNew new.vdev devs
      → Distinct bound devs
      → Distinct (bound + 1) (devs ++ new ∷ [])
  Distinct-append bound new [] e n u = (omega arith, tt, tt)
  Distinct-append bound new (crdev ∷ devs) e (n, ns) (low, a, u) = (
    omega arith,
    Apart-append crdev new devs (omega arith) n a,
    Distinct-append bound new devs e ns u,
  )

  find-append :
      (minor bound : ℕ) (new : CryptoDevice Queue) (devs : List (CryptoDevice Queue))
      → new.minor ≡ bound
      → Distinct bound devs
      → find_minor minor (devs ++ new ∷ [])
        ≡ (if bound == minor then some new else find_minor minor devs)
  unfolding find_minor
  find-append minor bound new [] e u = ground arith
  find-append minor bound new (crdev ∷ devs) e (low, a, u) =
      ground (arith, find-append minor bound new devs e u)

  -- A probe that has memory and finds its queue, before the last minor number is given out, returns 0
  -- and registers a device that was not there with the next minor number: minors stay distinct, the
  -- number finds the new device, and every other number what it found.
  pub virtcons_probe-registers :
      (vdev : ℕ) (vq : Queue) (crdrvdata : DriverData Queue)
      → IsValid crdrvdata
      → IsNew vdev crdrvdata.devs
      → crdrvdata.next_minor + 1 < 2 ^ 32
      → ((virtcons_probe true vdev (some vq) crdrvdata).0 ≡ pos 0)
        × IsValid (virtcons_probe true vdev (some vq) crdrvdata).1
        × ((minor : ℕ)
            → get_crypto_dev_by_minor minor (virtcons_probe true vdev (some vq) crdrvdata).1 ≡ (
                if crdrvdata.next_minor == minor
                then some (record { vdev = vdev; vq = vq; minor = crdrvdata.next_minor })
                else get_crypto_dev_by_minor minor crdrvdata))
  unfolding virtcons_probe get_crypto_dev_by_minor
  virtcons_probe-registers vdev vq crdrvdata valid new room =
      let new_dev : CryptoDevice Queue = record {
        vdev = vdev;
        vq = vq;
        minor = crdrvdata.next_minor;
      } in
      let next : (crdrvdata.next_minor + 1) % 2 ^ 32 ≡ crdrvdata.next_minor + 1 = omega arith in
      (
        refl,
        rw next (Distinct-append crdrvdata.next_minor new_dev crdrvdata.devs refl new valid),
        λ minor. find-append minor crdrvdata.next_minor new_dev crdrvdata.devs refl valid,
      )

  Apart-find :
      (crdev : CryptoDevice Queue) (devs : List (CryptoDevice Queue))
      → Apart crdev devs
      → find_minor crdev.minor devs ≡ none
  unfolding find_minor
  Apart-find crdev [] a = refl
  Apart-find crdev (other ∷ devs) (am, av, a) = ground (arith, Apart-find crdev devs a)

  Apart-delete :
      (crdev : CryptoDevice Queue) (vdev : ℕ) (devs : List (CryptoDevice Queue))
      → Apart crdev devs
      → Apart crdev (delete_vdev vdev devs)
  unfolding delete_vdev
  Apart-delete crdev vdev [] a = tt
  Apart-delete crdev vdev (other ∷ devs) (am, av, a) = elim (Bool-cases (other.vdev == vdev)) [
    | inl e ↦ rw e a
    | inr e ↦ rw e (am, av, Apart-delete crdev vdev devs a)
  ]

  Distinct-delete :
      (bound vdev : ℕ) (devs : List (CryptoDevice Queue))
      → Distinct bound devs
      → Distinct bound (delete_vdev vdev devs)
  unfolding delete_vdev
  Distinct-delete bound vdev [] u = tt
  Distinct-delete bound vdev (crdev ∷ devs) (low, a, u) = elim (Bool-cases (crdev.vdev == vdev)) [
    | inl e ↦ rw e u
    | inr e ↦ rw e (low, Apart-delete crdev vdev devs a, Distinct-delete bound vdev devs u)
  ]

  -- What a lookup finds after the device `vdev` has been taken out: nothing at its number, and at
  -- every other number what stood there.
  abbrev pub without_vdev : ℕ → Option (CryptoDevice Queue) → Option (CryptoDevice Queue)
  without_vdev vdev none = none
  without_vdev vdev (some crdev) = if crdev.vdev == vdev then none else some crdev

  find-new :
      (minor vdev : ℕ) (crdev : CryptoDevice Queue) (devs : List (CryptoDevice Queue))
      → crdev.vdev ≡ vdev
      → Apart crdev devs
      → find_minor minor devs ≡ without_vdev vdev (find_minor minor devs)
  unfolding find_minor
  find-new minor vdev crdev [] e a = refl
  find-new minor vdev crdev (other ∷ devs) e (am, av, a) =
      ground (arith, find-new minor vdev crdev devs e a)

  find-delete :
      (minor vdev bound : ℕ) (devs : List (CryptoDevice Queue))
      → Distinct bound devs
      → find_minor minor (delete_vdev vdev devs) ≡ without_vdev vdev (find_minor minor devs)
  unfolding find_minor delete_vdev
  find-delete minor vdev bound [] u = refl
  find-delete minor vdev bound (crdev ∷ devs) (low, a, u) = elim (Bool-cases (crdev.vdev == vdev)) [
    | inl e ↦ rw e (elim (Bool-cases (crdev.minor == minor)) [
      | inl f ↦ rw (f, e) (at_number minor (ground arith))
      | inr f ↦ rw f (find-new minor vdev crdev devs (ground arith) a)
    ])
    | inr e ↦ rw e (elim (Bool-cases (crdev.minor == minor)) [
      | inl f ↦ rw (f, e) refl
      | inr f ↦ rw f (find-delete minor vdev bound devs u)
    ])
  ]
    where
      at_number : (n : ℕ) → n ≡ crdev.minor → find_minor n devs ≡ none
      at_number n h = rw h (Apart-find crdev devs a)

  -- A removal keeps the minors distinct; a lookup then finds what it found before, unless that was
  -- the removed device.
  pub virtcons_remove-unregisters :
      (vdev : ℕ) (crdrvdata : DriverData Queue)
      → IsValid crdrvdata
      → IsValid (virtcons_remove vdev crdrvdata)
        × ((minor : ℕ)
            → get_crypto_dev_by_minor minor (virtcons_remove vdev crdrvdata)
              ≡ without_vdev vdev (get_crypto_dev_by_minor minor crdrvdata))
  unfolding virtcons_remove get_crypto_dev_by_minor
  virtcons_remove-unregisters vdev crdrvdata valid = (
    Distinct-delete crdrvdata.next_minor vdev crdrvdata.devs valid,
    λ minor. find-delete minor vdev crdrvdata.next_minor crdrvdata.devs valid,
  )

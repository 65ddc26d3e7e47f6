-- ===== src/Guest/Devices/Events.antt =====
-- crypto-module.c, virtcons_probe and virtcons_remove in any order, as the virtio bus makes the calls:
-- a device is probed while it is not in the list.
use cryptodev_chat.Common.{
  ℕ, ◌+◌, ◌%◌, ◌^◌, ◌<◌, ◌≡◌, ◌∙◌, refl, ap, List, [], ◌∷◌, Option, none, some, Bool, true, false,
  ◌==◌, if◌then◌else◌, arith,
}
use cryptodev_chat.Guest.Devices.{
  CryptoDevice, DriverData, get_crypto_dev_by_minor, virtcons_probe, virtcons_remove,
}
use cryptodev_chat.Guest.Devices.Laws.{
  IsNew, IsValid, without_vdev, virtcons_probe-registers, virtcons_remove-unregisters,
}

-- A probe with the results of kzalloc and virtio_find_single_vq, or a removal.
pub data Event (Queue : Type 0) : Type 0 where
  probe : Bool → ℕ → Option Queue → Event Queue
  remove : ℕ → Event Queue

module _ {Queue : Type 0} where
  abbrev pub step : Event Queue → DriverData Queue → DriverData Queue
  step (probe has_memory vdev vq) crdrvdata = (virtcons_probe has_memory vdev vq crdrvdata).1
  step (remove vdev) crdrvdata = virtcons_remove vdev crdrvdata

  abbrev pub run : List (Event Queue) → DriverData Queue → DriverData Queue
  run [] crdrvdata = crdrvdata
  run (e ∷ es) crdrvdata = run es (step e crdrvdata)

  -- What the bus does with one event, while there are minor numbers left.
  abbrev pub IsExpected : Event Queue → DriverData Queue → Type 0
  IsExpected (probe has_memory vdev vq) crdrvdata =
      IsNew vdev crdrvdata.devs × (crdrvdata.next_minor + 1 < 2 ^ 32)
  IsExpected (remove vdev) crdrvdata = Unit {0}

  abbrev pub IsOrderly : List (Event Queue) → DriverData Queue → Type 0
  IsOrderly [] crdrvdata = Unit {0}
  IsOrderly (e ∷ es) crdrvdata = IsExpected e crdrvdata × IsOrderly es (step e crdrvdata)

  -- The promise to one minor number: the probe that is given it brings its device, and the removal of
  -- that device takes it away; all other events leave it alone.
  abbrev pub device_at :
      ℕ → ℕ → Option (CryptoDevice Queue) → List (Event Queue) → Option (CryptoDevice Queue)
  device_at minor next found [] = found
  device_at minor next found (probe true vdev (some vq) ∷ es) =
      device_at minor (next + 1)
        (if next == minor then some (record { vdev = vdev; vq = vq; minor = next }) else found) es
  device_at minor next found (probe true vdev none ∷ es) = device_at minor next found es
  device_at minor next found (probe false vdev vq ∷ es) = device_at minor next found es
  device_at minor next found (remove vdev ∷ es) = device_at minor next (without_vdev vdev found) es

  -- After any sequence of probes and removals in which a device is probed only while it is not in the
  -- list, and before the minor numbers run out: minor numbers are distinct, and a lookup finds the
  -- device of the probe that was given this number, unless it has been removed since.
  pub run-device_at :
      (es : List (Event Queue)) (crdrvdata : DriverData Queue)
      → IsValid crdrvdata
      → IsOrderly es crdrvdata
      → IsValid (run es crdrvdata)
        × ((minor : ℕ)
            → get_crypto_dev_by_minor minor (run es crdrvdata)
              ≡ device_at minor crdrvdata.next_minor (get_crypto_dev_by_minor minor crdrvdata) es)
  unfolding virtcons_probe virtcons_remove
  run-device_at [] crdrvdata valid orderly = (valid, λ minor. refl)
  run-device_at (probe true vdev (some vq) ∷ es) crdrvdata valid ((new, room), orderly) =
      let (zero_ret, valid', finds) = virtcons_probe-registers vdev vq crdrvdata valid new room in
      let next : (crdrvdata.next_minor + 1) % 2 ^ 32 ≡ crdrvdata.next_minor + 1 = omega arith in
      let (valid'', found) =
        run-device_at es (virtcons_probe true vdev (some vq) crdrvdata).1 valid' orderly in
      (
        valid'',
        λ minor.
            let after : Option (CryptoDevice Queue) =
              if crdrvdata.next_minor == minor
              then some (record { vdev = vdev; vq = vq; minor = crdrvdata.next_minor })
              else get_crypto_dev_by_minor minor crdrvdata in
            found minor
            ∙ ap (λ f. device_at minor ((crdrvdata.next_minor + 1) % 2 ^ 32) f es) (finds minor)
            ∙ ap (λ n. device_at minor n after es) next,
      )
  run-device_at (probe true vdev none ∷ es) crdrvdata valid (expected, orderly) =
      run-device_at es crdrvdata valid orderly
  run-device_at (probe false vdev vq ∷ es) crdrvdata valid (expected, orderly) =
      run-device_at es crdrvdata valid orderly
  run-device_at (remove vdev ∷ es) crdrvdata valid (expected, orderly) =
      let (valid', finds) = virtcons_remove-unregisters vdev crdrvdata valid in
      let (valid'', found) = run-device_at es (virtcons_remove vdev crdrvdata) valid' orderly in
      (
        valid'',
        λ minor. found minor ∙ ap (λ f. device_at minor crdrvdata.next_minor f es) (finds minor),
      )

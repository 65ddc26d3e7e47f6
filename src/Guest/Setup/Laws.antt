-- ===== src/Guest/Setup/Laws.antt =====
-- Loading the module registers everything or nothing, and unloading it leaves nothing.
use cryptodev_chat.Common.{◌≡◌, refl, ◌⊎◌, inl, inr, ◌∙◌, ℤ, Bool, true, false, is_neg, Bool-cases}
use cryptodev_chat.Guest.Devices.{DriverData}
use cryptodev_chat.Guest.Setup.{Kernel, crypto_chrdev_init, crypto_chrdev_destroy, init, fini}

-- What is registered: the region of device numbers, the character device, the virtio driver.
pub record Registered : Type 0 where
  pub region : Bool
  pub chrdev : Bool
  pub driver : Bool

abbrev pub nothing : Registered
nothing = record { region = false; chrdev = false; driver = false }

abbrev pub everything : Registered
everything = record { region = true; chrdev = true; driver = true }

-- What the kernel documents: a registration that returns an error has registered nothing, any other
-- has, and each function leaves the other registrations alone.
module _ (k : Kernel) where
  open k use {State}

  pub record Registers : Type 0 where
    pub registered : State → Registered
    pub region_added :
        (s : State)
        → is_neg (k.register_chrdev_region s).0 ≡ false
        → registered (k.register_chrdev_region s).1 ≡ record (registered s) { region = true }
    pub region_refused :
        (s : State)
        → is_neg (k.register_chrdev_region s).0 ≡ true
        → registered (k.register_chrdev_region s).1 ≡ registered s
    pub region_removed :
        (s : State)
        → registered (k.unregister_chrdev_region s) ≡ record (registered s) { region = false }
    pub chrdev_added :
        (s : State)
        → is_neg (k.cdev_add s).0 ≡ false
        → registered (k.cdev_add s).1 ≡ record (registered s) { chrdev = true }
    pub chrdev_refused :
        (s : State) → is_neg (k.cdev_add s).0 ≡ true → registered (k.cdev_add s).1 ≡ registered s
    pub chrdev_removed :
        (s : State) → registered (k.cdev_del s) ≡ record (registered s) { chrdev = false }
    pub driver_added :
        (s : State)
        → is_neg (k.register_virtio_driver s).0 ≡ false
        → registered (k.register_virtio_driver s).1 ≡ record (registered s) { driver = true }
    pub driver_refused :
        (s : State)
        → is_neg (k.register_virtio_driver s).0 ≡ true
        → registered (k.register_virtio_driver s).1 ≡ registered s
    pub driver_removed :
        (s : State)
        → registered (k.unregister_virtio_driver s) ≡ record (registered s) { driver = false }

module _ (k : Kernel) (v : Registers k) where
  open k use {State}

  -- The result of a set-up, and what is registered after it: all that it sets up, or nothing.
  abbrev pub AllOrNothing : Registered → ℤ → State → Type 0
  AllOrNothing all ret s =
      ((is_neg ret ≡ false) × (v.registered s ≡ all))
      ⊎ ((is_neg ret ≡ true) × (v.registered s ≡ nothing))

  abbrev chrdev_only : Registered
  chrdev_only = record everything { driver = false }

  crypto_chrdev_init-AllOrNothing :
      (s : State)
      → v.registered s ≡ nothing
      → AllOrNothing chrdev_only (crypto_chrdev_init k s).0 (crypto_chrdev_init k s).1
  unfolding crypto_chrdev_init
  crypto_chrdev_init-AllOrNothing s none_yet =
      let s₁ : State = (k.register_chrdev_region s).1 in
      let s₂ : State = (k.cdev_add s₁).1 in
      elim (Bool-cases (is_neg (k.register_chrdev_region s).0)) [
        | inl e ↦ rw e (inr (e, v.region_refused s e ∙ none_yet))
        | inr e ↦ rw e (elim (Bool-cases (is_neg (k.cdev_add s₁).0)) [
          | inl f ↦ rw f (
              inr (
                f,
                rw (v.region_removed s₂, v.chrdev_refused s₁ f, v.region_added s e, none_yet) refl,
              ))
          | inr f ↦ rw f (inl (refl, rw (v.chrdev_added s₁ f, v.region_added s e, none_yet) refl))
        ])
      ]

  -- After crypto_chrdev_destroy and an attempt to register the driver that failed.
  destroyed :
      (s : State)
      → v.registered s ≡ chrdev_only
      → v.registered (crypto_chrdev_destroy k s) ≡ nothing
  unfolding crypto_chrdev_destroy
  destroyed s e = rw (v.region_removed (k.cdev_del s), v.chrdev_removed s, e) refl

  -- From a kernel where nothing is registered, init returns no error and everything is registered, or
  -- it returns an error and nothing is, whichever of the three registrations failed.
  pub init-AllOrNothing :
      {Queue : Type 0} (s : State) (crdrvdata : DriverData Queue)
      → v.registered s ≡ nothing
      → AllOrNothing everything (init k s crdrvdata).0 (init k s crdrvdata).1
  unfolding init
  init-AllOrNothing s crdrvdata none_yet =
      let s₁ : State = (crypto_chrdev_init k s).1 in
      elim (crypto_chrdev_init-AllOrNothing s none_yet) [
        | inr (e, n) ↦ rw e (inr (e, n))
        | inl (e, c) ↦ rw e (elim (Bool-cases (is_neg (k.register_virtio_driver s₁).0)) [
          | inl f ↦
              rw f (inr (f, destroyed (k.register_virtio_driver s₁).1 (v.driver_refused s₁ f ∙ c)))
          | inr f ↦ rw f (inl (f, rw (v.driver_added s₁ f, c) refl))
        ])
      ]

  -- After fini nothing is registered, whatever was.
  pub fini-nothing : (s : State) → v.registered (fini k s) ≡ nothing
  unfolding fini crypto_chrdev_destroy
  fini-nothing s =
      rw
        (
          v.driver_removed (k.unregister_chrdev_region (k.cdev_del s)),
          v.region_removed (k.cdev_del s),
          v.chrdev_removed s,
        )
        refl

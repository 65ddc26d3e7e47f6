-- ===== src/Backend/Device.antt =====
-- virtio-crypto/qemu/hw/char/virtio-crypto.c, how the device is set up and what its class offers qemu's
-- virtio core. The core itself is not in the repository: `Qemu` holds the calls that the device makes,
-- for queue handlers of type `Handler`.
use cryptodev_chat.Common.{ℕ, ◌≡◌, List, [], ◌∷◌, ◌++◌, ℤ, false, is_neg}

-- What qemu's core gives: a VirtIODevice is a `Device`.
pub record Qemu (Handler : Type 0) : Type 1 where
  pub Device : Type 0
  pub virtio_init : ℕ → ℕ → Device → Device  -- the device id and the size of the configuration
  pub virtio_add_queue : ℕ → Handler → Device → Device
  pub virtio_device_set_child_bus_name : List ℕ → Device → Device
  pub qdev_set_parent_bus : Device → Device
  -- With the realize of the device's class.
  pub qdev_init : (Device → Device) → Device → ℤ × Device

-- What the core documents of them: the id and the queues of a device.
pub record Builds {Handler : Type 0} (q : Qemu Handler) : Type 0 where
  pub device_id : q.Device → ℕ
  pub queues : q.Device → List (ℕ × Handler)
  pub init_id : (id size : ℕ) (dev : q.Device) → device_id (q.virtio_init id size dev) ≡ id
  pub init_queues : (id size : ℕ) (dev : q.Device) → queues (q.virtio_init id size dev) ≡ []
  pub add_queue_id :
      (size : ℕ) (handler : Handler) (dev : q.Device)
      → device_id (q.virtio_add_queue size handler dev) ≡ device_id dev
  pub add_queue_queues :
      (size : ℕ) (handler : Handler) (dev : q.Device)
      → queues (q.virtio_add_queue size handler dev) ≡ queues dev ++ (size, handler) ∷ []
  pub inits :
      (realize : q.Device → q.Device) (dev : q.Device)
      → is_neg (q.qdev_init realize dev).0 ≡ false
      → (q.qdev_init realize dev).1 ≡ realize dev

-- VirtioDeviceClass
pub record DeviceClass (Device : Type 0) : Type 0 where
  pub realize : Device → Device
  pub unrealize : Device → Device
  pub get_features : Device → ℕ → ℕ
  pub get_config : Device → List ℕ → List ℕ
  pub set_config : List ℕ → Device → Device
  pub set_status : ℕ → Device → Device
  pub reset : Device → Device

module _ {Handler : Type 0} (q : Qemu Handler) (vq_handle_output : Handler) where
  open q use {Device, virtio_init, virtio_add_queue}

  -- virtio_crypto_realize(dev, errp)
  unfoldable pub virtio_crypto_realize : Device → Device
  virtio_crypto_realize dev = virtio_add_queue 128 vq_handle_output (virtio_init 13 0 dev)

  -- The rest of the class prints a line, and leaves the device, the features and the configuration as
  -- they are.
  abbrev pub virtio_crypto_unrealize : Device → Device
  virtio_crypto_unrealize dev = dev

  abbrev pub get_features : Device → ℕ → ℕ
  get_features vdev features = features

  abbrev pub get_config : Device → List ℕ → List ℕ
  get_config vdev config_data = config_data

  abbrev pub set_config : List ℕ → Device → Device
  set_config config_data vdev = vdev

  abbrev pub set_status : ℕ → Device → Device
  set_status status vdev = vdev

  abbrev pub vser_reset : Device → Device
  vser_reset vdev = vdev

  unfoldable pub virtio_crypto_class_init : DeviceClass Device
  unfolding virtio_crypto_realize
  virtio_crypto_class_init = record {
    realize = virtio_crypto_realize;
    unrealize = virtio_crypto_unrealize;
    get_features = get_features;
    get_config = get_config;
    set_config = set_config;
    set_status = set_status;
    reset = vser_reset;
  }

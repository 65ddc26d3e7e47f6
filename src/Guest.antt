-- ===== src/Guest.antt =====
-- virtio-crypto/guest: the driver of the guest, which offers /dev/cryptodev files whose calls are made
-- on the host, one request on the virtqueue for each.
pub mod Devices
pub mod Chrdev
pub mod Setup
pub mod Device
pub mod Lock

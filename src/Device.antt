-- ===== src/Device.antt =====
-- `VfioDevice` and `VfioDeviceInfo` of crates/vfio-ioctls/src/vfio_device.rs.
pub mod Caps
pub mod Info
pub mod Irq
pub mod Region
pub mod Lifecycle
pub mod Quiet
pub mod Infallible
pub mod Operation
pub mod Careful
pub mod Named

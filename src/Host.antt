-- ===== src/Host.antt =====
-- What the crate runs on: the kernel and the hypervisor's driver as an oracle, the calls made so
-- far, the reference counts of `Arc<VfioGroup>`, and the `groups` map of a `VfioContainer`.
pub mod Call
pub mod Kernel
pub mod Action
pub mod Quiet
pub mod Calm
pub mod Careful
pub mod Ends
pub mod Resources

-- ===== src/Bindings.antt =====
-- crates/vfio-bindings/src/bindings_v5_0_0/vfio.rs, the generated kernel interface.
pub mod Constants
pub mod Layout
pub mod Fields
pub mod Structs
mod LayoutTests

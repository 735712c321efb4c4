-- ===== src/Tests.antt =====
-- The source's own tests on the model, and the theorems at concrete inputs.
pub mod Source
pub mod Device
pub mod Container
pub mod Session
pub mod Threads
pub mod Runs
pub mod Caps
pub mod Regions
pub mod FamWrappers

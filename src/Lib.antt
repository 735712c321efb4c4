-- ===== src/Lib.antt =====
-- The vfio-ioctls and vfio-bindings crates, which let a virtual machine monitor hand host devices
-- to a guest through Linux's VFIO interface.
--
-- A `VfioContainer` is one IOMMU context. It keeps a map from group ids to reference-counted
-- `VfioGroup`s. A `VfioDevice` is opened in a container: its group is looked up or opened, bound to
-- the container and made known to the hypervisor, then the device's regions, their capabilities and
-- its interrupts are read. Dropping the last device of a group releases the group. The container
-- also maps guest memory into the IOMMU. All of it ends in ioctls, whose structs are the bindings.
--
-- Bindings: crates/vfio-bindings/src/bindings_v5_0_0/vfio.rs. Constants has the constants, Fields
--   the structs and unions as lists of field layouts, Layout the rules of repr(C), LayoutTests the
--   generated layout tests, Structs the structs as records.
-- FamWrappers: crates/vfio-bindings/src/fam_wrappers.rs, `IrqSet` and its unit test for any
--   descriptors; FamWrappers.Same compares the sets that the test builds.
-- Error: `VfioError` of crates/vfio-ioctls/src/lib.rs, in Error.Text its texts, and what a call
--   ends with: a value, an error, or a fault (a panic, a read outside of a buffer, or no fuel left).
-- Fam: crates/vfio-ioctls/src/fam.rs. Fam.Bounds has its laws.
-- Host: what lies below the crate. Call is a system call with all its arguments, Kernel a parameter
--   that answers each call, given all the calls before it; Action passes a state: the record of
--   calls, the heap of `Arc<VfioGroup>` with their strong counts, and the container's map.
--   Resources reads the open files, open devices and attached groups off the record of calls.
--   Quiet is for actions that change only the record of calls, Calm for those that open, close,
--   attach and detach nothing either, Careful for those that only use one open descriptor, Ends
--   for those that never run out of fuel.
-- Syscall: the module `vfio_syscall` of crates/vfio-ioctls/src/vfio_ioctls.rs; Requests its ioctl
--   numbers. TestDouble is the module of the same name for tests, as a kernel.
-- DeviceFd, Group, Container, Dma, Device: crates/vfio-ioctls/src/vfio_device.rs. DeviceFd has
--   `VfioDeviceFd` and `device_set_group`; Group has `VfioGroup` and, in Text, the use of paths and
--   strings; Container has `VfioContainer`; Dma its mappings; Device.Caps the capability chain,
--   Device.Info `VfioDeviceInfo`, Device.Irq and Device.Region the operations of `VfioDevice`,
--   Device.Lifecycle `VfioDevice::new` and the drop. Group.Text.Decimal and Device.Named are about
--   group ids in decimal, Device.Caps.Ends about the end of the loop over capabilities.
-- Session: devices opened in a container, used and dropped again, and memory mapped, in any order,
--   one call after another; Device.Operation has the uses of a device.
--   Registry is the abstract container, which counts the devices of each group; Opening and Leak
--   are about one open, Ends about whether it ends, Restore about an open and its drop, Drain about
--   the drops of all devices. Effects tells what one open and one drop can do to the state; Files
--   is about the descriptors that devices and groups hold, Usage about the calls made on them,
--   Forgotten about a release that fails half way. Race has the steps of two drops in two threads.
--   Threads has any number of threads that open and drop devices, as a step relation: what holds
--   the container's mutex is one step, each clone or drop of an `Arc` is one, and system calls
--   stand between them.
-- Prelude: what the files share. Tests.Source: the unit tests of crates/vfio-ioctls, as actions
--   that run against the test double. The other Tests: the theorems at concrete inputs.
--
-- Functions keep the source's names; a function that is long in the source is several here, each
-- said to be a part of it. A struct's method is a function of the struct; `new` carries the name of
-- what it makes. Descriptors stand for `File`s. Numbers are natural numbers, and where a sum of u64
-- or usize can wrap its modulus is written out, as a release build computes it. `usize` has 64 bits
-- and numbers in memory are little-endian.
--
-- The only fuel is that of the loop over a region's capabilities: two rounds more than there are
-- bytes behind the header. Each round of a chain that goes forward begins at another byte, so this
-- is enough for such a chain; a chain that comes back to where it was runs forever in the source,
-- and out of every fuel here.
--
-- Not modelled: logging; the container's mutex, but what holds it is one step; threads, but in
--   Session.Race and Session.Threads; what a panic unwinds; the generated structs that no ioctl of
--   the crate uses, but for their layouts; the expansion of `generate_fam_struct_impl`, a macro of
--   vmm-sys-util. The kernel, the hypervisor's crates, byteorder's `write_u32`, vmm-sys-util's
--   `FamStructWrapper` and vm-memory's regions are parameters.
pub mod Prelude
pub mod Bindings
pub mod Error
pub mod Fam
pub mod FamWrappers
pub mod Host
pub mod Syscall
pub mod DeviceFd
pub mod Group
pub mod Container
pub mod Dma
pub mod Device
pub mod Session
pub mod TestDouble
pub mod Tests

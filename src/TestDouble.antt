-- ===== src/TestDouble.antt =====
-- The test double of `vfio_syscall` in crates/vfio-ioctls/src/vfio_ioctls.rs, as a kernel: an `Err`
-- of the double is the negative answer that the real module turns into an error, and so are the
-- panics on an index that the tests never ask for. Files get new descriptors.
use vfio.Prelude.{
  ℕ, ◌+◌, ◌*◌, ℤ, pos, negsuc, none, some, List, [], ◌∷◌, ◌++◌, length, drop, ltb, ◌==◌, ◌&&◌,
  if◌then◌else◌, bit_or, replicate,
}
use vfio.Bindings.Constants.{
  vfio_type1v2_iommu, vfio_group_flags_viable, vfio_device_flags_pci, vfio_pci_config_region_index,
  vfio_pci_msix_irq_index, vfio_irq_set_data_eventfd, vfio_irq_set_data_none,
  vfio_irq_set_action_trigger, vfio_irq_set_action_unmask, vfio_region_info_flag_caps,
  vfio_irq_info_maskable, vfio_irq_info_eventfd,
}
use vfio.Bindings.Structs.{
  VfioDeviceInfo, VfioRegionInfo, VfioIrqInfo, VfioIrqSet, VfioIommuType1DmaUnmap,
}
use vfio.Host.Call.{
  Call, opened, closed, dup, ioctl, set_device_attr, read_exact_at, write_all_at, Arg, nothing,
  value, raw_fd, c_str, group_status, device_info, region_info, region_info_with_cap, irq_info,
  irq_set, dma_map, dma_unmap, Trace, VfioRegionInfoWithCap,
}
use vfio.Host.Kernel.{Kernel}
use vfio.Host.Action.{State}
use vfio.Syscall.Requests
use vfio.Device.Caps.{VfioRegionInfoCap, sparse_mmap, cap_type, msix_mappable}
use vfio.Device.Caps.Bytes.{encode_cap}

-- -EINVAL
abbrev refused : ℤ
refused = negsuc 21

abbrev test_set_device_irqs : VfioIrqSet → ℤ
test_set_device_irqs s =
    if s.flags == bit_or vfio_irq_set_data_eventfd vfio_irq_set_action_trigger
      && (s.index == 0 && s.count == 0)
    then refused
    else if s.flags == bit_or vfio_irq_set_data_none vfio_irq_set_action_trigger
        && (s.index == 0 && s.count == 0)
    then refused
    else if s.flags == bit_or vfio_irq_set_data_none vfio_irq_set_action_unmask
        && (s.index == 1 && s.count == 1)
    then refused
    else pos 0

-- The answer to an ioctl.
abbrev test_ioctl : ℕ → Arg → ℤ
test_ioctl request nothing = pos 0
test_ioctl request (value v) =
    if request == Requests.vfio_check_extension
    then (if v == vfio_type1v2_iommu then pos 1 else refused)
    else pos 0
test_ioctl request (raw_fd fd) = pos 0
test_ioctl request (c_str path) = pos 9
test_ioctl request (group_status i) = pos 0
test_ioctl request (device_info i) = pos 0
test_ioctl request (region_info i) = if ltb i.index 7 then pos 0 else refused
test_ioctl request (region_info_with_cap i) = if i.region_info.index == 1 then pos 0 else refused
test_ioctl request (irq_info i) = if ltb i.index 3 then pos 0 else refused
test_ioctl request (irq_set header bytes) = test_set_device_irqs header
test_ioctl request (dma_map m) = if m.iova == 0x1000 then pos 0 else refused
test_ioctl request (dma_unmap m) = if m.iova == 0x1000 then pos 0 else refused

abbrev test_ret : Trace → Call → ℤ
test_ret t (opened p) = pos (10 + length t)
test_ret t (closed fd) = pos 0
test_ret t (dup fd) = pos (10 + length t)
test_ret t (ioctl fd request arg) = test_ioctl request arg
test_ret t (set_device_attr d a) = pos 0
test_ret t (read_exact_at fd n o) = pos 0
test_ret t (write_all_at fd bs o) = pos 0

abbrev test_device_info : VfioDeviceInfo → VfioDeviceInfo
test_device_info i = record i {
  flags = vfio_device_flags_pci;
  num_regions = vfio_pci_config_region_index + 1;
  num_irqs = vfio_pci_msix_irq_index + 1;
}

abbrev test_region_info : VfioRegionInfo → VfioRegionInfo
test_region_info i =
    if i.index == 0
    then record i { flags = 0; size = 0x1000; offset = 0x10000 }
    else if i.index == 1
    then record i {
      argsz = 88;
      flags = vfio_region_info_flag_caps;
      size = 0x2000;
      offset = 0x20000;
    }
    else record i { flags = 0; size = (i.index + 1) * 0x1000; offset = (i.index + 1) * 0x10000 }

-- The three capabilities that the double writes behind the first 32 bytes.
abbrev pub test_caps : List VfioRegionInfoCap
test_caps = msix_mappable ∷ cap_type 5 6 ∷ sparse_mmap (record { offset = 4; size = 3 } ∷ []) ∷ []

abbrev pub test_cap_bytes : List ℕ
test_cap_bytes =
    encode_cap msix_mappable 0 40
    ++ (encode_cap (cap_type 5 6) 0 56
        ++ encode_cap (sparse_mmap (record { offset = 4; size = 3 } ∷ [])) 0 4)

abbrev test_region_info_cap : VfioRegionInfoWithCap → VfioRegionInfoWithCap
test_region_info_cap r = record {
  region_info = record r.region_info { cap_offset = 32 };
  cap_info = test_cap_bytes ++ drop (length test_cap_bytes) r.cap_info;
}

abbrev test_irq_info : VfioIrqInfo → VfioIrqInfo
test_irq_info i =
    if i.index == 0
    then record i { flags = vfio_irq_info_maskable; count = 1 }
    else if i.index == 1
    then record i { flags = vfio_irq_info_eventfd; count = 32 }
    else record i { flags = vfio_irq_info_eventfd; count = 2048 }

abbrev test_dma_unmap : VfioIommuType1DmaUnmap → VfioIommuType1DmaUnmap
test_dma_unmap m = if m.iova == 0x1000 && m.size == 0x2000 then record m { size = 0x1000 } else m

-- The kernel of the tests. Every path is in group 3, as in the tests of vfio_device.rs.
abbrev pub test_kernel : Kernel
test_kernel = record {
  ret = test_ret;
  errno = λ t. pos 22;
  group_status = λ t fd i. record i { flags = vfio_group_flags_viable };
  device_info = λ t fd i. test_device_info i;
  region_info = λ t fd i. test_region_info i;
  region_info_with_cap = λ t fd i. test_region_info_cap i;
  irq_info = λ t fd i. test_irq_info i;
  dma_unmap = λ t fd i. test_dma_unmap i;
  bytes_at = λ t fd n o. replicate n 0;
  read_link = λ p. some ((b'3' ∷ []) ∷ []);
  kvm_dev_vfio_group = 1;
  kvm_dev_vfio_group_add = 1;
  kvm_dev_vfio_group_del = 2;
  mshv_dev_vfio_group = 1;
  mshv_dev_vfio_group_add = 1;
  mshv_dev_vfio_group_del = 2;
}

-- No call made, and no group open.
abbrev pub idle_state : State
idle_state = record { trace = []; heap = λ h. none; next = 0; groups = [] }

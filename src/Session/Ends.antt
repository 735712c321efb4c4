-- ===== src/Session/Ends.antt =====
-- Opening a device comes to an end: `VfioDevice::new` with all that it calls.
use vfio.Prelude.{
  ℕ, zero, suc, ◌≢◌, ◌-◌, ◌*◌, replicate, arith, length, Option, none, some, Dict, List, [], ◌∷◌,
  ◌++◌, Option-cases, inl, inr, lookup, insert,
}
use vfio.Error.{VfioError, fault, out_of_fuel}
use vfio.Bindings.Structs.{VfioRegionInfo, size_of_region_info}
use vfio.Fam.{vec_with_array_field}
use vfio.Host.Action.{
  State, VfioGroup, arc_group, pure, arc_drop, arc_new, arc_clone, modify, raise, ◌>>◌,
}
use vfio.Host.Call.{Fd, Trace, SysPath, VfioRegionInfoWithCap}
use vfio.Host.Ends.{Ends, pure-Ends, gets-Ends, if-Ends, >>=-Ends, on_err-Ends}
use vfio.Host.Kernel.{Kernel}
use vfio.Syscall
use vfio.Syscall.{
  get_device_irq_info, get_device_region_info, get_device_region_info_cap, get_group_status,
  get_device_info, get_group_device_fd,
}
use vfio.DeviceFd.{device_add_group, device_set_group}
use vfio.Container.{VfioContainer, set_iommu, bind_group, install_group, create_group, get_group}
use vfio.Group.{open_group_file, new_group, get_device}
use vfio.Device.Caps.Ends.{IsForwardFrom, walk_from-ne-out_of_fuel}
use vfio.Device.Info.{
  fetch_caps, with_header, default_region_info, has_no_caps, from_region_info, region_request,
  region_of, VfioIrq, VfioRegion, irq_step, irqs_from, get_irqs, get_region_map, region_step,
  regions_from, get_regions,
}
use vfio.Device.Lifecycle.{get_group_id_from_path, open_device, open_in, new_device}

module _ (k : Kernel) where
  -- In every answer of the kernel to a request with cleared bytes, the chain of capabilities that
  -- begins at the answer's offset goes forward: each of its headers points further on, or ends it.
  abbrev pub AnswersForward : Type 0
  AnswersForward =
      (t : Trace) (fd : Fd) (info : VfioRegionInfo) (n : ℕ)
      → let a : VfioRegionInfoWithCap =
          k.region_info_with_cap t fd
            (record { region_info = info; cap_info = replicate (n * 32) 0 }) in
        IsForwardFrom a.region_info.cap_offset a.cap_info

  irqs_from-Ends : (fd : Fd) (n i : ℕ) (irqs : Dict VfioIrq) → Ends (irqs_from k fd n i irqs)
  unfolding irqs_from irq_step get_device_irq_info
  irqs_from-Ends fd zero i irqs = pure-Ends irqs
  irqs_from-Ends fd (suc n) i irqs =
      >>=-Ends (record { apply = λ s. ground arith }) (irqs_from-Ends fd n (suc i))

  fetch_caps-Ends :
      (fd : Fd) (region : VfioRegion) (info : VfioRegionInfo) (o : Option (List VfioRegionInfo))
      → AnswersForward
      → Ends (fetch_caps k fd region (with_header info o))
  unfolding fetch_caps get_device_region_info_cap
  fetch_caps-Ends fd region info none forward = record { apply = λ s. ground arith }
  fetch_caps-Ends fd region info (some []) forward = record { apply = λ s. ground arith }
  fetch_caps-Ends fd region info (some (x ∷ v)) forward = record {
    apply = λ s.
        let a : VfioRegionInfoWithCap =
          k.region_info_with_cap s.trace fd
            (record { region_info = info; cap_info = replicate (length v * 32) 0 }) in
        ground (
          arith,
          walk_from-ne-out_of_fuel a.cap_info a.region_info.cap_offset []
              (forward s.trace fd info (length v)),
        );
  }

  get_device_region_info-Ends :
      (fd : Fd) (info : VfioRegionInfo) → Ends (get_device_region_info k fd info)
  unfolding get_device_region_info
  get_device_region_info-Ends fd info = record { apply = λ s. ground arith }

  get_region_map-Ends :
      (fd : Fd) (region : VfioRegion) (info : VfioRegionInfo)
      → AnswersForward
      → Ends (get_region_map k fd region info)
  unfolding get_region_map from_region_info
  get_region_map-Ends fd region info forward = if-Ends (has_no_caps info) (pure-Ends region) (
      fetch_caps-Ends fd region
        (record default_region_info { argsz = info.argsz; index = info.index })
        (vec_with_array_field size_of_region_info default_region_info 1
          (info.argsz - size_of_region_info))
        forward)

  region_step-Ends :
      (fd : Fd) (i : ℕ) (regions : List VfioRegion)
      → AnswersForward
      → Ends (region_step k fd i regions)
  unfolding region_step
  region_step-Ends fd i regions forward =
      on_err-Ends
        (>>=-Ends (get_device_region_info-Ends fd (region_request i)) (λ info.
          >>=-Ends (get_region_map-Ends fd (region_of info) info forward)
            (λ region. pure-Ends (regions ++ region ∷ []))))
        (λ e. pure-Ends regions)

  regions_from-Ends :
      (fd : Fd) (n i : ℕ) (regions : List VfioRegion)
      → AnswersForward
      → Ends (regions_from k fd n i regions)
  unfolding regions_from
  regions_from-Ends fd zero i regions forward = pure-Ends regions
  regions_from-Ends fd (suc n) i regions forward =
      >>=-Ends (region_step-Ends fd i regions forward)
        (λ rs. regions_from-Ends fd n (suc i) rs forward)

  get_device-Ends : (value : VfioGroup) (path : SysPath) → Ends (get_device k value path)
  unfolding get_device get_group_device_fd get_device_info
  get_device-Ends value path = record { apply = λ s. ground arith }

  open_device-Ends :
      (value : VfioGroup) (h : ℕ) (path : SysPath)
      → AnswersForward
      → Ends (open_device k value h path)
  unfolding open_device get_regions get_irqs
  open_device-Ends value h path forward = >>=-Ends (get_device-Ends value path) (λ info.
      >>=-Ends (regions_from-Ends info.device _ _ [] forward)
        (λ regions. >>=-Ends (irqs_from-Ends info.device info.num_irqs 0 []) (λ irqs. pure-Ends _)))

  open_in-Ends :
      (value : Option VfioGroup) (h : ℕ) (path : SysPath)
      → AnswersForward
      → Ends (open_in k value h path)
  open_in-Ends none h path forward = record { apply = λ s. ground arith }
  open_in-Ends (some value) h path forward = open_device-Ends value h path forward

  dropped-Ends : {A : Type 0} (h : ℕ) (e : VfioError) → Ends (arc_drop h >> raise {A = A} e)
  dropped-Ends h e = record { apply = λ s. ground arith }

  get_group_id_from_path-Ends : (path : SysPath) → Ends (get_group_id_from_path k path)
  unfolding get_group_id_from_path
  get_group_id_from_path-Ends path = record { apply = λ s. ground arith }

  new_group-Ends : (id : ℕ) → Ends (new_group k id)
  unfolding new_group open_group_file get_group_status
  new_group-Ends id = record { apply = λ s. ground arith }

  arc_new-Ends : (g : VfioGroup) → Ends (arc_new g)
  arc_new-Ends g = record { apply = λ s. ground arith }

  listed-Ends :
      (id h : ℕ)
      → Ends (arc_clone h >> (modify (λ s. record s { groups = insert id h s.groups }) >> pure h))
  listed-Ends id h = record { apply = λ s. ground arith }

  module _ (c : VfioContainer) where
    bind_group-Ends : (g : VfioGroup) → Ends (bind_group k c g)
    unfolding bind_group set_iommu device_add_group device_set_group Syscall.set_group_container
        Syscall.unset_group_container Syscall.set_iommu
    bind_group-Ends g = record { apply = λ s. ground arith }

    install_group-Ends : (id : ℕ) (g : VfioGroup) → Ends (install_group k c id g)
    unfolding install_group
    install_group-Ends id g =
        >>=-Ends (arc_new-Ends g)
          (λ h. >>=-Ends (on_err-Ends (bind_group-Ends g) (dropped-Ends h)) (λ u. listed-Ends id h))

    get_group-Ends : (id : ℕ) → Ends (get_group k c id)
    unfolding get_group create_group
    get_group-Ends id = record {
      apply = λ s. elim (Option-cases (lookup id s.groups)) [
        | inl free ↦ ground (arith, (>>=-Ends (new_group-Ends id) (install_group-Ends id)).apply s)
        | inr (h, at) ↦ ground arith
      ];
    }

    new_device-Ends : (path : SysPath) → AnswersForward → Ends (new_device k c path)
    unfolding new_device
    new_device-Ends path forward = >>=-Ends (get_group_id_from_path-Ends path) (λ id.
        >>=-Ends (get_group-Ends id) (λ h.
          >>=-Ends (gets-Ends (λ s. arc_group s h))
            (λ value. on_err-Ends (open_in-Ends value h path forward) (dropped-Ends h))))

    -- Where in every answer of the kernel to a request for a region's capabilities the chain of
    -- headers that begins at the answer's offset goes forward, each header that can be read
    -- pointing further on or below the header of the struct, opening a device by VfioDevice::new
    -- never runs out of the fuel given to the loop over the capabilities, whatever else the kernel
    -- answers and whatever the state.
    pub new_device-ne-out_of_fuel :
        (path : SysPath) (s : State)
        → AnswersForward
        → (new_device k c path s).0 ≢ fault out_of_fuel
    new_device-ne-out_of_fuel path s forward = (new_device-Ends path forward).apply s

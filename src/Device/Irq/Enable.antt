-- ===== src/Device/Irq/Enable.antt =====
-- `enable_irq`: the descriptors as the kernel reads them.
use vfio.Prelude.{
  ℕ, ◌+◌, ◌*◌, ◌^◌, ◌≤◌, ◌<◌, ◌≡◌, refl, true, some, List, [], ◌∷◌, ◌++◌, arith, ℤ, as_u32, ltb,
  ◌&&◌, length, take, drop, replicate, length-take, length-replicate, leb,
}
use vfio.Error.{VfioError}
use vfio.Fam.{vec_with_array_field}
use vfio.Fam.Bounds.{vec_with_array_field_fits}
use vfio.Host.Call.{Fd}
use vfio.Host.Kernel.{Kernel}
use vfio.Host.Action.{State, map_err}
use vfio.Syscall.{set_device_irqs}
use vfio.Bindings.Structs.{VfioIrqSet}
use vfio.Device.Caps.Bytes.{to_le}
use vfio.Device.Irq.{
  VfioDevice, enable_irq, write_fds, send, send_irq_set, default_irq_set, eventfd_irq_set,
}
use vfio.Device.Irq.Requests.{has_irq, one_request}

-- What `byteorder` documents of `LittleEndian::write_u32`: the four bytes hold the number, the
-- lowest byte first.
abbrev pub WritesU32 : (List ℕ → ℕ → List ℕ) → Type 0
WritesU32 write_u32 = (a b c d n : ℕ) → n < 2 ^ 32 → write_u32 (a ∷ b ∷ c ∷ d ∷ []) n ≡ to_le 4 n

-- The descriptors one after another, as four bytes each.
abbrev pub fd_bytes : List Fd → List ℕ
fd_bytes [] = []
fd_bytes (fd ∷ fds) = to_le 4 (as_u32 fd) ++ fd_bytes fds

as_u32-lt : (fd : Fd) → as_u32 fd < 2 ^ 32
as_u32-lt (ℤ.pos n) = omega arith
as_u32-lt (ℤ.negsuc n) = omega arith

module _ (write_u32 : List ℕ → ℕ → List ℕ) (writes : WritesU32 write_u32) where
  write_fds-fd_bytes :
      (fds : List Fd) (bytes : List ℕ)
      → length bytes ≡ 4 * length fds
      → write_fds write_u32 fds bytes ≡ fd_bytes fds
  unfolding write_fds
  write_fds-fd_bytes [] [] h = refl
  write_fds-fd_bytes [] (b ∷ bytes) h = absurd (omega arith)
  write_fds-fd_bytes (fd ∷ fds) [] h = absurd (omega arith)
  write_fds-fd_bytes (fd ∷ fds) (a ∷ []) h = absurd (omega arith)
  write_fds-fd_bytes (fd ∷ fds) (a ∷ b ∷ []) h = absurd (omega arith)
  write_fds-fd_bytes (fd ∷ fds) (a ∷ b ∷ c ∷ []) h = absurd (omega arith)
  write_fds-fd_bytes (fd ∷ fds) (a ∷ b ∷ c ∷ d ∷ bytes) h =
      rw (writes a b c d (as_u32 fd) (as_u32-lt fd), write_fds-fd_bytes fds bytes (omega arith))

  module _ (k : Kernel) (d : VfioDevice) (irq_index : ℕ) (fds : List Fd) where
    -- The header that the kernel's interface wants: DATA_EVENTFD and ACTION_TRIGGER are 4 and 32.
    abbrev pub eventfds : VfioIrqSet
    eventfds = record {
      argsz = 20 + 4 * length fds;
      flags = 36;
      index = irq_index;
      start = 0;
      count = length fds;
    }

    send-one_request :
        (v : VfioIrqSet) (vs : List VfioIrqSet) (s : State)
        → 20 + 4 * length fds < 2 ^ 32
        → 20 + length fds * 4 ≤ length (v ∷ vs) * 20
        → (rest : List ℕ) × (map_err
              (send k d
                (length fds)
                (eventfd_irq_set irq_index (length fds))
                (write_fds write_u32 fds)
                (some (v ∷ vs)))
              VfioError.vfio_device_enable_irq
              s
            ≡ one_request k d true eventfds
                (fd_bytes fds ++ rest)
                VfioError.vfio_device_enable_irq
                s)
    unfolding set_device_irqs
    send-one_request v vs s small room =
        let zeros : List ℕ = replicate (length vs * 20) 0 in
        let filled : write_fds write_u32 fds (take (length fds * 4) zeros) ≡ fd_bytes fds =
          write_fds-fd_bytes fds (take (length fds * 4) zeros) (
            omega (
              arith,
              length-take (length fds * 4) zeros,
              length-replicate {A = ℕ} (length vs * 20) 0,
            )) in
        (drop (length fds * 4) zeros, ground (arith, filled))

    enable_with :
        (s : State)
        → 20 + 4 * length fds < 2 ^ 32
        → (vs : List VfioIrqSet) → vec_with_array_field 20 default_irq_set 4 (length fds) ≡ some vs
        → 20 + length fds * 4 ≤ length vs * 20
        → (rest : List ℕ) × (enable_irq k write_u32 d irq_index fds s
            ≡ one_request k d
                (has_irq d irq_index (λ irq. ltb 0 irq.count && leb (length fds) irq.count))
                eventfds
                (fd_bytes fds ++ rest)
                VfioError.vfio_device_enable_irq
                s)
    unfolding enable_irq send_irq_set
    enable_with s small [] made room = absurd (omega arith)
    enable_with s small (v ∷ vs) made room =
        let (rest, e) = send-one_request v vs s small room in (rest, ground (arith, made, e))

    -- For write_u32 as documented and descriptors whose request fits u32: enable_irq makes one
    -- request if the device has the index with at least one interrupt and no fewer than the
    -- descriptors, and else none; the request has the eventfd and trigger flags, the exact size and
    -- count, and its data begins with the descriptors as four little-endian bytes each.
    pub enable_irq_lem :
        (s : State)
        → 20 + 4 * length fds < 2 ^ 32
        → (rest : List ℕ) × (enable_irq k write_u32 d irq_index fds s
            ≡ one_request k d
                (has_irq d irq_index (λ irq. ltb 0 irq.count && leb (length fds) irq.count))
                eventfds
                (fd_bytes fds ++ rest)
                VfioError.vfio_device_enable_irq
                s)
    enable_irq_lem s small =
        let (vs, made, room, _) =
          vec_with_array_field_fits 20 default_irq_set 4 (length fds) (omega arith) (omega arith) in
        enable_with s small vs made room

-- ===== src/Pci/Init.antt =====
-- src/virtio_pci/virtio_pci.c: `virtio_pci_init`. What its steps have changed when one fails is
-- unwound through the labels of the source.
use qnx_virtio.Common.{
  ℕ, ◌+◌, Bool, true, false, Option, none, some, List, [], Errno, einval, enomem, enodev, is_ok,
  Result, ok, err, if◌then◌else◌, ◌==◌, ltb, get_or, replicate, u16, u64,
}
use qnx_virtio.Spinlock.{Spinlock}
use qnx_virtio.Virtio.{Device, destroy}
use qnx_virtio.Pci.{Region, PciDevice, PciCap}
use qnx_virtio.Pci.Caps.{PciServer, find_caps, map_bars}
use qnx_virtio.Pci.Address.{pci_ops}

-- What the call leaves behind: a device with its transport, or its code and what is left of the
-- device after `virtio_destroy`.
pub data Initialised (L Hw : Type 0) : Type 0 where
  ready : Device L (PciDevice × Hw) → Initialised L Hw
  failed : (rc : Errno) → Option (Device L Hw) → Hw → Initialised L Hw

abbrev pub zero_cap : PciCap
zero_cap = record { cfg_type = 0; bar = 0; id = 0; offset = 0; len = 0 }

-- The block that `calloc` grants.
abbrev pub zero_pci_device : PciDevice
zero_pci_device = record {
  bdf = 0;
  pci = 0;
  msix = 0;
  msix_vector_count = 0;
  common_cfg_cap = zero_cap;
  notify_cfg_cap = record { cap = zero_cap; notify_off_multiplier = 0 };
  isr_cfg_cap = zero_cap;
  device_cfg_cap = zero_cap;
  pci_cfg_cap = zero_cap;
  common_cfg = 0;
  notify_cfg = 0;
  device_cfg = 0;
  bars = [];
  mapped_bars = replicate 6 0;
}

-- Where a capability's structure lies.
abbrev pub locate : List ℕ → PciCap → ℕ
locate mapped cap = u64 (get_or mapped cap.bar 0 + cap.offset)

-- The three structures of the regions that the capabilities name.
unfoldable pub locate_cfgs : PciDevice → PciDevice
locate_cfgs pdev = record pdev {
  common_cfg = locate pdev.mapped_bars pdev.common_cfg_cap;
  device_cfg = locate pdev.mapped_bars pdev.device_cfg_cap;
  notify_cfg = locate pdev.mapped_bars pdev.notify_cfg_cap.cap;
}

module _ {Hw : Type 0} (server : PciServer Hw) where
  open server use {
    msix_get_nirq, msix_set_nirq, msix_set_irq_entry, cap_enable, read_irq, msix_unmask_irq_entry,
  }

  unfoldable pub read_msix_vector_count :
      (dev : Option PciDevice) → (out : Bool) → Hw → Result ℕ × Hw
  read_msix_vector_count none out hw = (err einval, hw)
  read_msix_vector_count (some dev) out hw =
      if out
      then (if dev.msix == 0
          then (ok 0, hw)
          else (let (count, hw') = msix_get_nirq dev.msix hw in (ok count, hw')))
      else (err einval, hw)

  -- A step that returns a code, and the steps behind it.
  abbrev and_then : Errno × Hw → (Hw → Result ℕ × Hw) → Result ℕ × Hw
  and_then (rc, hw) k = if is_ok rc then k hw else (err rc, hw)

  -- The calls that set up one interrupt: the code of the first that fails, or the interrupt.
  unfoldable pub set_up_msix : PciDevice → (count : ℕ) → Hw → Result ℕ × Hw
  set_up_msix pdev count hw = and_then (msix_set_nirq pdev.pci pdev.msix count hw) λ hw1.
      and_then (msix_set_irq_entry pdev.pci pdev.msix 0 0 hw1) λ hw2.
        and_then (cap_enable pdev.pci pdev.msix hw2) λ hw3.
          (let (irq, hw4) = read_irq pdev.pci hw3 in
            elim irq as (λ _. Result ℕ × Hw) [
              | err rc ↦ (err rc, hw4)
              | ok n ↦ and_then (msix_unmask_irq_entry pdev.pci pdev.msix 0 hw4) λ hw5. (ok n, hw5)
            ])

  -- The tests of the requested number of vectors, and the set-up: the interrupt, if there is one.
  unfoldable pub choose_msix : PciDevice → (requested : ℕ) → Hw → Result (Option ℕ) × PciDevice × Hw
  unfolding read_msix_vector_count set_up_msix
  choose_msix pdev requested hw =
      let (count, hw1) = read_msix_vector_count (some pdev) true hw in
      let available = u16 (elim count as (λ _. ℕ) [ ok n ↦ n | err _ ↦ pdev.msix_vector_count ]) in
      let (irq, hw2) = set_up_msix pdev requested hw1 in
      let counted = record pdev { msix_vector_count = requested } in
      if pdev.msix == 0
      then (if ltb 0 requested then (err einval, pdev, hw) else (ok none, pdev, hw))
      else if ltb available requested
      then (err einval, record pdev { msix_vector_count = available }, hw1)
      else (
        elim irq as (λ _. Result (Option ℕ)) [ err rc ↦ err rc | ok n ↦ ok (some n) ],
        counted,
        hw2,
      )

module _ (s : Spinlock) {Hw : Type 0} (server : PciServer Hw) (region : Region Hw) where
  open s use {Lock}
  open server use {device_find, attach, detach}

  -- From the label `free_vdev` on. An interrupt that was read by then is not kept.
  unfoldable pub fail : Errno → Device Lock Hw → Hw → Initialised Lock Hw
  unfolding destroy
  fail rc dev hw = failed rc (destroy s (some (record dev { priv = hw }))).1 hw

  -- The device with its transport.
  abbrev pub equipped : Device Lock Hw → (irq : ℕ) → PciDevice → Hw → Device Lock (PciDevice × Hw)
  equipped dev irq pdev hw = record {
    lock = dev.lock;
    leagcy = dev.leagcy;
    ops = pci_ops region;
    device_reset_timeout_ms = dev.device_reset_timeout_ms;
    device_reset_poll_interval_ms = dev.device_reset_poll_interval_ms;
    queue_reset_timeout_ms = dev.queue_reset_timeout_ms;
    queue_reset_poll_interval_ms = dev.queue_reset_poll_interval_ms;
    irq = irq;
    priv = (pdev, hw);
  }

  -- `virtio_pci_init` once the device is attached; `fuel` is that of the capability walk.
  unfoldable pub init_attached :
      (fuel : ℕ)
      → (msix_vector_count : ℕ) → PciDevice
      → Device Lock Hw
      → Hw
      → Option (Initialised Lock Hw)
  unfolding find_caps map_bars locate_cfgs choose_msix fail
  init_attached fuel requested pdev dev hw = elim (find_caps server fuel pdev hw) [
    | none ↦ none
    | some (rc, pdev1, hw1) ↦ some (
        let (rc', pdev2, hw2) = map_bars server pdev1 hw1 in
        let (chosen, pdev3, hw3) = choose_msix server (locate_cfgs pdev2) requested hw2 in
        if is_ok rc
        then (if is_ok rc'
            then (elim chosen as (λ _. Initialised Lock Hw) [
              | err rc'' ↦ fail rc'' dev (detach pdev3.pci hw3)
              | ok none ↦ ready (equipped dev dev.irq pdev3 hw3)
              | ok (some irq) ↦ ready (equipped dev irq pdev3 hw3)
            ])
            else fail rc' dev (detach pdev2.pci hw2))
        else fail rc dev (detach pdev1.pci hw1))
  ]

  -- `block` says whether `calloc` grants the private data. A failed attachment is not detached.
  unfoldable pub init :
      (fuel : ℕ)
      → (block : Bool) → (type index msix_vector_count : ℕ) → Device Lock Hw
      → Hw
      → Option (Initialised Lock Hw)
  unfolding init_attached fail
  init fuel block type index requested dev hw =
      let dev' = record dev { leagcy = false } in
      let (found, hw1) = device_find index 0x1af4 (u16 (0x1040 + u16 type)) hw in
      let attached = λ (bdf : ℕ).
        (let (handle, hw2) = attach bdf hw1 in
          elim handle as (λ _. Option (Initialised Lock Hw)) [
            | err rc ↦ some (fail rc dev' hw2)
            | ok pci ↦
                init_attached fuel requested (record zero_pci_device { bdf = bdf; pci = pci }) dev'
                  hw2
          ]) in
      if block
      then (elim found as (λ _. Option (Initialised Lock Hw)) [
        | none ↦ some (fail enodev dev' hw1)
        | some bdf ↦ attached bdf
      ])
      else some (fail enomem dev hw)

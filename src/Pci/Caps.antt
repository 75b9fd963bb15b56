-- ===== src/Pci/Caps.antt =====
-- src/virtio_pci/virtio_pci.c: the capabilities and the mapped regions of a PCI device. The PCI
-- server's library is a parameter, `PciServer`.
use qnx_virtio.Common.{
  ℕ, zero, suc, ◌+◌, ◌*◌, Option, none, some, List, [], ◌∷◌, Errno, eok, is_ok, Result, ok, err,
  if◌then◌else◌, ◌==◌, get_or, set,
}
use qnx_virtio.Pci.{PciDevice, PciCap, NotifyCap, BaseAddr}

-- The calls of <pci/pci.h> and of the capability modules, and `mmap64` of physical memory. They
-- return an error code, or EOK and what they write. No device and no capability are `none`.
pub record PciServer (Hw : Type 0) : Type 0 where
  pub device_find : (index vid did : ℕ) → Hw → Option ℕ × Hw
  pub attach : (bdf : ℕ) → Hw → Result ℕ × Hw
  pub detach : (pci : ℕ) → Hw → Hw
  pub find_capid : (bdf capid : ℕ) → Hw → Option ℕ × Hw
  pub find_capid_next : (bdf capid index : ℕ) → Hw → Option ℕ × Hw
  pub read_cap : (bdf index : ℕ) → Hw → Result ℕ × Hw
  pub vend_read_bytes : (cap count : ℕ) → Hw → Result (List ℕ) × Hw
  pub read_ba : (pci count : ℕ) → Hw → Result (List BaseAddr) × Hw
  pub msix_get_nirq : (cap : ℕ) → Hw → ℕ × Hw
  pub msix_set_nirq : (pci cap count : ℕ) → Hw → Errno × Hw
  pub msix_set_irq_entry : (pci cap irq entry : ℕ) → Hw → Errno × Hw
  pub cap_enable : (pci cap : ℕ) → Hw → Errno × Hw
  pub read_irq : (pci : ℕ) → Hw → Result ℕ × Hw
  pub msix_unmask_irq_entry : (pci cap entry : ℕ) → Hw → Errno × Hw
  -- The address, which for `MAP_FAILED` is 2 ^ 64 - 1.
  pub mmap_phys : (size addr : ℕ) → Hw → ℕ × Hw

-- `CAPID_VEND` and `CAPID_MSIX`
abbrev pub capid_vend : ℕ
capid_vend = 9

abbrev pub capid_msix : ℕ
capid_msix = 17

-- `VIRTIO_PCI_CAP_…_CFG`
abbrev pub cap_common_cfg : ℕ
cap_common_cfg = 1

abbrev pub cap_notify_cfg : ℕ
cap_notify_cfg = 2

abbrev pub cap_isr_cfg : ℕ
cap_isr_cfg = 3

abbrev pub cap_device_cfg : ℕ
cap_device_cfg = 4

abbrev pub cap_pci_cfg : ℕ
cap_pci_cfg = 5

-- A `uint32_t` in the bytes of a capability.
abbrev pub le32 : List ℕ → (at : ℕ) → ℕ
le32 bytes at =
    get_or bytes at 0
    + 256 * get_or bytes (at + 1) 0
    + 65536 * get_or bytes (at + 2) 0
    + 16777216 * get_or bytes (at + 3) 0

-- The structure of the bytes from `cfg_type` on.
unfoldable pub cap_of : List ℕ → PciCap
cap_of bytes = record {
  cfg_type = get_or bytes 0 0;
  bar = get_or bytes 1 0;
  id = get_or bytes 2 0;
  offset = le32 bytes 5;
  len = le32 bytes 9;
}

unfoldable pub notify_cap_of : List ℕ → NotifyCap
unfolding cap_of
notify_cap_of bytes = record { cap = cap_of bytes; notify_off_multiplier = le32 bytes 13 }

module _ {Hw : Type 0} (server : PciServer Hw) where
  open server use {find_capid, find_capid_next, read_cap, vend_read_bytes, read_ba, mmap_phys}

  -- The reads of a capability from its `cfg_type` on, and what `keep` makes of it.
  unfoldable pub read_pci_cap :
      (cap : ℕ) → (keep : PciCap → PciDevice) → PciDevice → Hw → Errno × PciDevice × Hw
  unfolding cap_of
  read_pci_cap cap keep dev hw =
      let (read, hw') = vend_read_bytes cap 13 hw in
      elim read [ err rc ↦ (rc, dev, hw') | ok bytes ↦ (eok, keep (cap_of bytes), hw') ]

  unfoldable pub read_pci_notify_cap : (cap : ℕ) → PciDevice → Hw → Errno × PciDevice × Hw
  unfolding notify_cap_of
  read_pci_notify_cap cap dev hw =
      let (read, hw') = vend_read_bytes cap 17 hw in
      elim read [
        | err rc ↦ (rc, dev, hw')
        | ok bytes ↦ (eok, record dev { notify_cfg_cap = notify_cap_of bytes }, hw')
      ]

  -- The `switch` over the type of a capability.
  unfoldable pub read_typed_cap : (cfg_type cap : ℕ) → PciDevice → Hw → Errno × PciDevice × Hw
  unfolding read_pci_cap read_pci_notify_cap
  read_typed_cap cfg_type cap dev hw =
      if cfg_type == cap_common_cfg
      then read_pci_cap cap (λ c. record dev { common_cfg_cap = c }) dev hw
      else if cfg_type == cap_notify_cfg
      then read_pci_notify_cap cap dev hw
      else if cfg_type == cap_isr_cfg
      then read_pci_cap cap (λ c. record dev { isr_cfg_cap = c }) dev hw
      else if cfg_type == cap_device_cfg
      then read_pci_cap cap (λ c. record dev { device_cfg_cap = c }) dev hw
      else if cfg_type == cap_pci_cfg
      then read_pci_cap cap (λ c. record dev { pci_cfg_cap = c }) dev hw
      else (eok, dev, hw)

  -- One capability: its bytes are read for the type, and again for the structure.
  unfoldable pub read_one_cap : (index : ℕ) → PciDevice → Hw → Errno × PciDevice × Hw
  unfolding read_typed_cap
  read_one_cap index dev hw =
      let (found, hw1) = read_cap dev.bdf index hw in
      elim found [
        | err rc ↦ (rc, dev, hw1)
        | ok cap ↦
            (let (type, hw2) = vend_read_bytes cap 1 hw1 in
              elim type [
                | err rc ↦ (rc, dev, hw2)
                | ok bytes ↦ read_typed_cap (get_or bytes 0 0) cap dev hw2
              ])
      ]

  -- The loop over the vendor capabilities. It runs on fuel, and `none` means that it ran out.
  unfoldable pub walk_caps :
      (fuel : ℕ) → (index : Option ℕ) → PciDevice → Hw → Option (Errno × PciDevice × Hw)
  unfolding read_one_cap
  walk_caps zero index dev hw = none
  walk_caps (suc fuel) none dev hw = some (eok, dev, hw)
  walk_caps (suc fuel) (some index) dev hw =
      let (rc, dev', hw1) = read_one_cap index dev hw in
      let (index', hw2) = find_capid_next dev'.bdf capid_vend index hw1 in
      let rest = walk_caps fuel index' dev' hw2 in if is_ok rc then rest else some (rc, dev', hw1)

  unfoldable pub find_msix : PciDevice → Hw → Errno × PciDevice × Hw
  find_msix dev hw =
      let (found, hw1) = find_capid dev.bdf capid_msix hw in
      elim found [
        | none ↦ (eok, dev, hw1)
        | some index ↦
            (let (read, hw2) = read_cap dev.bdf index hw1 in
              elim read [
                | err rc ↦ (rc, dev, hw2)
                | ok cap ↦ (eok, record dev { msix = cap }, hw2)
              ])
      ]

  unfoldable pub find_caps : (fuel : ℕ) → PciDevice → Hw → Option (Errno × PciDevice × Hw)
  unfolding walk_caps find_msix
  find_caps fuel dev hw =
      let (first, hw1) = find_capid dev.bdf capid_vend hw in
      elim (walk_caps fuel first dev hw1) [
        | none ↦ none
        | some (rc, dev', hw2) ↦ some (if is_ok rc then find_msix dev' hw2 else (rc, dev', hw2))
      ]

  -- The loop of `virtio_pci_map_bars`. A mapping that fails is not noticed.
  unfoldable pub map_each : List BaseAddr → (mapped : List ℕ) → Hw → List ℕ × Hw
  map_each [] mapped hw = (mapped, hw)
  map_each (bar ∷ bars) mapped hw =
      let (addr, hw') = mmap_phys bar.bar_size bar.bar_addr hw in
      let skip = bar.bar_size == 0 in
      map_each bars (if skip then mapped else set mapped bar.bar_num addr)
        (if skip then hw else hw')

  unfoldable pub map_bars : PciDevice → Hw → Errno × PciDevice × Hw
  unfolding map_each
  map_bars dev hw =
      let (read, hw1) = read_ba dev.pci 6 hw in
      elim read [
        | err rc ↦ (rc, dev, hw1)
        | ok bars ↦
            (let (mapped, hw2) = map_each bars dev.mapped_bars hw1 in
              (eok, record dev { bars = bars; mapped_bars = mapped }, hw2))
      ]

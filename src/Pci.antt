-- ===== src/Pci.antt =====
-- src/virtio_pci/virtio_pci.c: the transport over the registers of a PCI device. They lie in mapped
-- regions, which a `Region` reads and writes over the state `Hw` of the hardware.
pub mod Caps
pub mod Config
pub mod Address
pub mod Callback
pub mod Init
pub mod Laws
pub mod Strays
pub mod Found
pub mod Detached
mod Tests
mod InitTests
use qnx_virtio.Common.{
  ℕ, zero, suc, ◌+◌, ◌*◌, ◌^◌, ◌%◌, Bool, Option, none, some, List, [], ◌∷◌, Errno, eok, einval,
  Result, ok, err, if◌then◌else◌, ◌==◌, u8, u16, u32, u64,
}

-- Accesses of `bytes` bytes.
pub record Region (Hw : Type 0) : Type 0 where
  pub read : (bytes addr : ℕ) → Hw → ℕ × Hw
  pub write : (bytes addr value : ℕ) → Hw → Hw

-- `struct virtio_pci_cap` from `cfg_type` on.
pub record PciCap : Type 0 where
  pub cfg_type : ℕ
  pub bar : ℕ
  pub id : ℕ
  pub offset : ℕ
  pub len : ℕ

-- `struct virtio_pci_notify_cap`
pub record NotifyCap : Type 0 where
  pub cap : PciCap
  pub notify_off_multiplier : ℕ

-- The members of `pci_ba_t` that are read.
pub record BaseAddr : Type 0 where
  pub bar_num : ℕ
  pub bar_size : ℕ
  pub bar_addr : ℕ

-- `struct virtio_pci_device`. A null pointer and an absent capability are 0.
pub record PciDevice : Type 0 where
  pub bdf : ℕ
  pub pci : ℕ
  pub msix : ℕ
  pub msix_vector_count : ℕ
  pub common_cfg_cap : PciCap
  pub notify_cfg_cap : NotifyCap
  pub isr_cfg_cap : PciCap
  pub device_cfg_cap : PciCap
  pub pci_cfg_cap : PciCap
  pub common_cfg : ℕ
  pub notify_cfg : ℕ
  pub device_cfg : ℕ
  pub bars : List BaseAddr
  pub mapped_bars : List ℕ

-- The offsets in `struct virtio_pci_common_cfg`.
abbrev pub at_device_feature_select : ℕ
at_device_feature_select = 0

abbrev pub at_device_feature : ℕ
at_device_feature = 4

abbrev pub at_driver_feature_select : ℕ
at_driver_feature_select = 8

abbrev pub at_driver_feature : ℕ
at_driver_feature = 12

abbrev pub at_device_status : ℕ
at_device_status = 20

abbrev pub at_queue_select : ℕ
at_queue_select = 22

abbrev pub at_queue_size : ℕ
at_queue_size = 24

abbrev pub at_queue_msix_vector : ℕ
at_queue_msix_vector = 26

abbrev pub at_queue_enable : ℕ
at_queue_enable = 28

abbrev pub at_queue_notify_off : ℕ
at_queue_notify_off = 30

abbrev pub at_queue_desc : ℕ
at_queue_desc = 32

abbrev pub at_queue_driver : ℕ
at_queue_driver = 40

abbrev pub at_queue_device : ℕ
at_queue_device = 48

abbrev pub at_queue_reset : ℕ
at_queue_reset = 58

-- The private data of a device pointer: no device, a device without any, or the data.
abbrev pub Handle : Type 0
Handle = Option (Option PciDevice)

-- The checks that most operations start with.
abbrev pub with_pdev :
    {Hw A : Type 0} → Handle → (refused : A) → (PciDevice → Hw → A × Hw) → Hw → A × Hw
with_pdev none refused f hw = (refused, hw)
with_pdev (some none) refused f hw = (refused, hw)
with_pdev (some (some pdev)) refused f hw =
    if pdev.common_cfg == 0 then (refused, hw) else f pdev hw

module _ {Hw : Type 0} (region : Region Hw) where
  -- Accesses to the fields of the common configuration.
  unfoldable pub write8 : PciDevice → (field value : ℕ) → Hw → Hw
  write8 dev field value = region.write 1 (dev.common_cfg + field) (u8 value)

  unfoldable pub write16 : PciDevice → (field value : ℕ) → Hw → Hw
  write16 dev field value = region.write 2 (dev.common_cfg + field) (u16 value)

  unfoldable pub write32 : PciDevice → (field value : ℕ) → Hw → Hw
  write32 dev field value = region.write 4 (dev.common_cfg + field) (u32 value)

  unfoldable pub read_field : (bytes : ℕ) → PciDevice → (field : ℕ) → Hw → ℕ × Hw
  read_field bytes dev field = region.read bytes (dev.common_cfg + field)

  -- An operation that returns one field.
  unfoldable pub get_field : Handle → (out : Bool) → (bytes field : ℕ) → Hw → Result ℕ × Hw
  unfolding read_field
  get_field dev out bytes field hw =
      if out
      then (with_pdev dev (err einval)
          (λ pdev hw'. (let (v, hw'') = read_field bytes pdev field hw' in (ok v, hw''))) hw)
      else (err einval, hw)

  -- An operation that writes the fields of `f`.
  unfoldable pub set_fields : Handle → (PciDevice → Hw → Hw) → Hw → Errno × Hw
  set_fields dev f = with_pdev dev einval λ pdev hw. (eok, f pdev hw)

  unfoldable pub get_device_status : Handle → (out : Bool) → Hw → Result ℕ × Hw
  unfolding get_field
  get_device_status dev out = get_field dev out 1 at_device_status

  unfoldable pub set_device_status : Handle → (status : ℕ) → Hw → Errno × Hw
  unfolding set_fields write8
  set_device_status dev status = set_fields dev λ pdev. write8 pdev at_device_status status

  unfoldable pub reset_device : Handle → Hw → Errno × Hw
  unfolding set_fields write8
  reset_device dev = set_fields dev λ pdev. write8 pdev at_device_status 0

  unfoldable pub select_queue : Handle → (index : ℕ) → Hw → Errno × Hw
  unfolding set_fields write16
  select_queue dev index = set_fields dev λ pdev. write16 pdev at_queue_select index

  -- One byte, at an offset that is an `unsigned int`.
  unfoldable pub notify_queue : Handle → (index : ℕ) → Hw → Errno × Hw
  unfolding read_field
  notify_queue dev index = with_pdev dev einval λ pdev hw.
      (let (off, hw') = read_field 2 pdev at_queue_notify_off hw in
        let addr = pdev.notify_cfg + u32 (off * pdev.notify_cfg_cap.notify_off_multiplier) in
        if pdev.notify_cfg == 0 then (einval, hw) else (eok, region.write 1 addr (u8 index) hw'))

  unfoldable pub enable_queue : Handle → (enable : Bool) → Hw → Errno × Hw
  unfolding set_fields write16
  enable_queue dev enable = set_fields dev λ pdev hw.
      write16 pdev at_queue_enable (if enable then 1 else 0)
        (write16 pdev at_queue_msix_vector 0 hw)

  unfoldable pub set_queue_reset : Handle → Hw → Errno × Hw
  unfolding set_fields write16
  set_queue_reset dev = set_fields dev λ pdev. write16 pdev at_queue_reset 1

  unfoldable pub get_queue_reset : Handle → (out : Bool) → Hw → Result ℕ × Hw
  unfolding get_field
  get_queue_reset dev out = get_field dev out 2 at_queue_reset

  unfoldable pub queue_size : Handle → (out : Bool) → Hw → Result ℕ × Hw
  unfolding get_field
  queue_size dev out = get_field dev out 2 at_queue_size

  unfoldable pub set_queue_size : Handle → (size : ℕ) → Hw → Errno × Hw
  unfolding set_fields write16
  set_queue_size dev size = set_fields dev λ pdev. write16 pdev at_queue_size size

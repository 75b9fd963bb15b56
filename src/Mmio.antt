-- ===== src/Mmio.antt =====
-- src/virtio_mmio/virtio_mmio.c: the transport over memory-mapped registers. The registers are a
-- `Bus` over the state `Hw` of the hardware, in which a read may have an effect too.
pub mod Config
pub mod Address
pub mod Callback
pub mod Init
pub mod Laws
pub mod Rings
pub mod Words
pub mod Queues
mod Tests
use qnx_virtio.Common.{
  ℕ, zero, suc, ◌+◌, ◌≡◌, Bool, true, Option, none, some, List, [], ◌∷◌, Errno, eok, einval, Result,
  ok, err, if◌then◌else◌, bit_and, u8, u32, u16, length,
}

-- Volatile accesses of 32 bits.
pub record Bus (Hw : Type 0) : Type 0 where
  pub read : (addr : ℕ) → Hw → ℕ × Hw
  pub write : (addr value : ℕ) → Hw → Hw

-- `struct virtio_mmio_device`
pub record MmioDevice : Type 0 where
  pub paddr : ℕ
  pub vaddr : ℕ
  pub pagesize : ℕ

-- `VIRTIO_MMIO_…`: the offsets of the registers.
abbrev pub reg_magic_value : ℕ
reg_magic_value = 0

abbrev pub reg_version : ℕ
reg_version = 4

abbrev pub reg_device_id : ℕ
reg_device_id = 8

abbrev pub reg_device_features : ℕ
reg_device_features = 16

abbrev pub reg_device_features_sel : ℕ
reg_device_features_sel = 20

abbrev pub reg_driver_features : ℕ
reg_driver_features = 32

abbrev pub reg_driver_features_sel : ℕ
reg_driver_features_sel = 36

abbrev pub reg_guest_page_size : ℕ
reg_guest_page_size = 40

abbrev pub reg_queue_sel : ℕ
reg_queue_sel = 48

abbrev pub reg_queue_size_max : ℕ
reg_queue_size_max = 52

abbrev pub reg_queue_size : ℕ
reg_queue_size = 56

abbrev pub reg_queue_pfn : ℕ
reg_queue_pfn = 64

abbrev pub reg_queue_ready : ℕ
reg_queue_ready = 68

abbrev pub reg_queue_notify : ℕ
reg_queue_notify = 80

abbrev pub reg_interrupt_status : ℕ
reg_interrupt_status = 96

abbrev pub reg_interrupt_ack : ℕ
reg_interrupt_ack = 100

abbrev pub reg_status : ℕ
reg_status = 112

abbrev pub reg_queue_desc_low : ℕ
reg_queue_desc_low = 128

abbrev pub reg_queue_driver_low : ℕ
reg_queue_driver_low = 144

abbrev pub reg_queue_device_low : ℕ
reg_queue_device_low = 160

abbrev pub reg_queue_reset : ℕ
reg_queue_reset = 192

abbrev pub reg_config : ℕ
reg_config = 256

-- The private data of a device pointer: no device, a device without any, or the data.
abbrev pub Handle : Type 0
Handle = Option (Option MmioDevice)

-- The checks that each operation starts with.
abbrev pub with_mdev :
    {Hw A : Type 0} → Handle → (refused : A) → (MmioDevice → Hw → A × Hw) → Hw → A × Hw
with_mdev none refused f hw = (refused, hw)
with_mdev (some none) refused f hw = (refused, hw)
with_mdev (some (some mdev)) refused f hw = f mdev hw

module _ {Hw : Type 0} (bus : Bus Hw) where
  unfoldable pub write32 : MmioDevice → (offset value : ℕ) → Hw → Hw
  write32 dev offset value hw = bus.write (dev.vaddr + offset) (u32 value) hw

  unfoldable pub read32 : MmioDevice → (offset : ℕ) → Hw → ℕ × Hw
  read32 dev offset hw = bus.read (dev.vaddr + offset) hw

  -- An operation that writes one register, and one that reads one.
  unfoldable pub write_reg : Handle → (offset value : ℕ) → Hw → Errno × Hw
  unfolding write32
  write_reg dev offset value = with_mdev dev einval λ mdev hw. (eok, write32 mdev offset value hw)

  unfoldable pub read_reg : Handle → (out : Bool) → (offset : ℕ) → (ℕ → ℕ) → Hw → Result ℕ × Hw
  unfolding read32
  read_reg dev out offset cast hw =
      if out
      then (with_mdev dev (err einval)
          (λ mdev hw'. (let (v, hw'') = read32 mdev offset hw' in (ok (cast v), hw''))) hw)
      else (err einval, hw)

  unfoldable pub read_features : MmioDevice → (select count : ℕ) → Hw → List ℕ × Hw
  unfolding read32 write32
  read_features mdev select zero hw = ([], hw)
  read_features mdev select (suc count) hw =
      let selected = write32 mdev reg_device_features_sel select hw in
      let (feature, hw') = read32 mdev reg_device_features selected in
      let (features, hw'') = read_features mdev (suc select) count hw' in (feature ∷ features, hw'')

  unfoldable pub read_device_features :
      Handle → (out : Bool) → (count : ℕ) → Hw → Result (List ℕ) × Hw
  unfolding read_features
  read_device_features dev out count hw =
      if out
      then (with_mdev dev (err einval)
          (λ mdev hw'. (let (fs, hw'') = read_features mdev 0 count hw' in (ok fs, hw''))) hw)
      else (err einval, hw)

  -- `features` holds the `count` words that are written.
  unfoldable pub write_features : MmioDevice → (select : ℕ) → List ℕ → Hw → Hw
  unfolding write32
  write_features mdev select [] hw = hw
  write_features mdev select (feature ∷ features) hw =
      let selected = write32 mdev reg_driver_features_sel select hw in
      write_features mdev (suc select) features (write32 mdev reg_driver_features feature selected)

  unfoldable pub write_driver_features : Handle → Option (List ℕ) → Hw → Errno × Hw
  unfolding write_features
  write_driver_features dev none hw = (einval, hw)
  write_driver_features dev (some features) hw =
      with_mdev dev einval (λ mdev hw'. (eok, write_features mdev 0 features hw')) hw

  unfoldable pub get_device_status : Handle → (out : Bool) → Hw → Result ℕ × Hw
  unfolding read_reg
  get_device_status dev out = read_reg dev out reg_status λ v. bit_and v 255

  unfoldable pub set_device_status : Handle → ℕ → Hw → Errno × Hw
  unfolding write_reg
  set_device_status dev status = write_reg dev reg_status (u8 status)

  unfoldable pub reset_device : Handle → Hw → Errno × Hw
  unfolding write_reg
  reset_device dev = write_reg dev reg_status 0

  unfoldable pub select_queue : Handle → ℕ → Hw → Errno × Hw
  unfolding write_reg
  select_queue dev index = write_reg dev reg_queue_sel index

  unfoldable pub notify_queue : Handle → ℕ → Hw → Errno × Hw
  unfolding write_reg
  notify_queue dev index = write_reg dev reg_queue_notify index

  unfoldable pub enable_queue : Handle → Bool → Hw → Errno × Hw
  unfolding write_reg
  enable_queue dev enable = write_reg dev reg_queue_ready (if enable then 1 else 0)

  unfoldable pub set_queue_reset : Handle → Hw → Errno × Hw
  unfolding write_reg
  set_queue_reset dev = write_reg dev reg_queue_reset 1

  unfoldable pub get_queue_reset : Handle → (out : Bool) → Hw → Result ℕ × Hw
  unfolding read_reg
  get_queue_reset dev out = read_reg dev out reg_queue_reset λ v. v

  unfoldable pub max_queue_size : Handle → (out : Bool) → Hw → Result ℕ × Hw
  unfolding read_reg
  max_queue_size dev out = read_reg dev out reg_queue_size_max u16

  unfoldable pub set_queue_size : Handle → ℕ → Hw → Errno × Hw
  unfolding write_reg
  set_queue_size dev size = write_reg dev reg_queue_size size

  unfoldable pub get_interrupt_status : Handle → (out : Bool) → Hw → Result ℕ × Hw
  unfolding read_reg
  get_interrupt_status dev out = read_reg dev out reg_interrupt_status λ v. v

  unfoldable pub set_interrupt_ack : Handle → ℕ → Hw → Errno × Hw
  unfolding write_reg
  set_interrupt_ack dev status = write_reg dev reg_interrupt_ack status

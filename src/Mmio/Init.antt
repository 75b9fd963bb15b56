-- ===== src/Mmio/Init.antt =====
-- src/virtio_mmio/virtio_mmio.c: `virtio_mmio_init`. A device that fails is destroyed; what it has
-- mapped is not unmapped.
use qnx_virtio.Common.{
  ℕ, Bool, Option, some, Errno, enomem, enodev, Result, ok, err, if◌then◌else◌, ◌==◌, u16,
}
use qnx_virtio.Spinlock.{Spinlock}
use qnx_virtio.Virtio.{Device, destroy}
use qnx_virtio.Mmio.{
  Bus, MmioDevice, write32, read32, reg_magic_value, reg_version, reg_device_id,
  reg_guest_page_size,
}
use qnx_virtio.Mmio.Address.{mmio_ops}

-- What the call leaves behind: a device with its transport, or its code and what is left of the
-- device after `virtio_destroy`.
pub data Initialised (L Hw : Type 0) : Type 0 where
  ready : Device L (MmioDevice × Hw) → Initialised L Hw
  failed : (rc : Errno) → Option (Device L Hw) → Hw → Initialised L Hw

module _ (s : Spinlock) {Hw : Type 0} (bus : Bus Hw) where
  open s use {Lock}

  fail : Errno → Device Lock Hw → Hw → Initialised Lock Hw
  unfolding destroy
  fail rc dev hw = failed rc (destroy s (some (record dev { priv = hw }))).1 hw

  -- The checks of the registers, and the operations.
  unfoldable pub probe : MmioDevice → (type : ℕ) → Device Lock Hw → Hw → Initialised Lock Hw
  unfolding fail read32 write32
  probe mdev type dev hw =
      let (magic, hw1) = read32 bus mdev reg_magic_value hw in
      let (version, hw2) = read32 bus mdev reg_version hw1 in
      let leagcy = version == 1 in
      let (device_id, hw3) = read32 bus mdev reg_device_id hw2 in
      let hw4 = if leagcy then write32 bus mdev reg_guest_page_size mdev.pagesize hw3 else hw3 in
      if magic == 0x74726976
      then (if device_id == type
          then ready record {
            lock = dev.lock;
            leagcy = leagcy;
            ops = mmio_ops bus;
            device_reset_timeout_ms = dev.device_reset_timeout_ms;
            device_reset_poll_interval_ms = dev.device_reset_poll_interval_ms;
            queue_reset_timeout_ms = dev.queue_reset_timeout_ms;
            queue_reset_poll_interval_ms = dev.queue_reset_poll_interval_ms;
            irq = dev.irq;
            priv = (mdev, hw4);
          }
          else fail enodev (record dev { leagcy = leagcy }) hw3)
      else fail enodev dev hw1

  -- `block` says whether `calloc` grants the private data, `mapping` is what `mmap64` returns, and
  -- `pagesize` what `getpagesize` does.
  unfoldable pub init :
      (block : Bool)
      → (mapping : Result ℕ) → (pagesize : ℕ) → (address type irq : ℕ) → Device Lock Hw
      → Hw
      → Initialised Lock Hw
  unfolding fail probe
  init block mapping pagesize address type irq dev hw =
      if block
      then (elim mapping as (λ _. Initialised Lock Hw) [
        | err errno ↦ fail errno dev hw
        | ok vaddr ↦
            probe record { paddr = address; vaddr = vaddr; pagesize = u16 pagesize } type
              (record dev { irq = irq }) hw
      ])
      else fail enomem dev hw

-- ===== src/Mmio/Address.antt =====
-- src/virtio_mmio/virtio_mmio.c: `virtio_mmio_set_queue_addr`, and the table of operations.
use qnx_virtio.Common.{
  ℕ, ◌+◌, ◌/◌, ◌%◌, ◌^◌, Bool, true, Option, some, Errno, eok, ok, err, if◌then◌else◌,
}
use qnx_virtio.Virtq.{Virtq, desc_paddr, avail_paddr, used_paddr}
use qnx_virtio.Virtio.{Ops}
use qnx_virtio.Mmio.{
  Bus, MmioDevice, Handle, write32, reg_queue_pfn, reg_queue_desc_low, reg_queue_driver_low,
  reg_queue_device_low,
}
use qnx_virtio.Mmio
use qnx_virtio.Mmio.Config

module _ {Hw : Type 0} (bus : Bus Hw) where
  -- The two halves of an address: the high register follows the low one.
  unfoldable pub write_addr : MmioDevice → (low paddr : ℕ) → Hw → Hw
  unfolding write32
  write_addr mdev low paddr hw =
      write32 bus mdev (low + 4) (paddr / 2 ^ 32) (write32 bus mdev low (paddr % 2 ^ 32) hw)

  -- As it is built with `NDEBUG`: otherwise a legacy page frame number of more than 32 bits stops the
  -- program. The private data is not checked.
  unfoldable pub set_queue_addr :
      {L : Type 0} → MmioDevice → (leagcy : Bool) → Option (Virtq L) → Hw → Errno × Hw
  unfolding write_addr write32 desc_paddr avail_paddr used_paddr
  set_queue_addr mdev leagcy vq hw = elim (desc_paddr vq true) as (λ _. Errno × Hw) [
    | err rc ↦ (rc, hw)
    | ok desc ↦
        if leagcy
        then (eok, write32 bus mdev reg_queue_pfn (desc / 2 ^ 12) hw)
        else (let hw1 = write_addr mdev reg_queue_desc_low desc hw in
            elim (avail_paddr vq true) as (λ _. Errno × Hw) [
              | err rc ↦ (rc, hw1)
              | ok avail ↦
                  (let hw2 = write_addr mdev reg_queue_driver_low avail hw1 in
                    elim (used_paddr vq true) as (λ _. Errno × Hw) [
                      | err rc ↦ (rc, hw2)
                      | ok used ↦ (eok, write_addr mdev reg_queue_device_low used hw2)
                    ])
            ])
  ]

  -- An operation on a device that has its private data, on the transport's state.
  abbrev lift : {A : Type 0} → (Handle → Hw → A × Hw) → MmioDevice × Hw → A × (MmioDevice × Hw)
  lift f (mdev, hw) = let (a, hw') = f (some (some mdev)) hw in (a, (mdev, hw'))

  -- The operations that `virtio_mmio_init` puts in the device.
  unfoldable pub mmio_ops : {L : Type 0} → Ops L (MmioDevice × Hw)
  mmio_ops = record {
    read_device_features = λ count. lift λ dev. Mmio.read_device_features bus dev true count;
    write_driver_features =
        λ features. lift λ dev. Mmio.write_driver_features bus dev (some features);
    set_device_status = λ status. lift λ dev. Mmio.set_device_status bus dev status;
    get_device_status = lift λ dev. Mmio.get_device_status bus dev true;
    reset_device = lift λ dev. Mmio.reset_device bus dev;
    read_device_config =
        λ len offset. lift λ dev. Config.read_device_config bus dev true len offset;
    set_queue_addr = λ leagcy vq (mdev, hw).
        (let (rc, hw') = set_queue_addr mdev leagcy vq hw in (rc, (mdev, hw')));
    select_queue = λ index. lift λ dev. Mmio.select_queue bus dev index;
    notify_queue = λ index. lift λ dev. Mmio.notify_queue bus dev index;
    enable_queue = λ enable. lift λ dev. Mmio.enable_queue bus dev enable;
    set_queue_reset = lift λ dev. Mmio.set_queue_reset bus dev;
    get_queue_reset = lift λ dev. Mmio.get_queue_reset bus dev true;
    max_queue_size = lift λ dev. Mmio.max_queue_size bus dev true;
    set_queue_size = λ size. lift λ dev. Mmio.set_queue_size bus dev size;
  }

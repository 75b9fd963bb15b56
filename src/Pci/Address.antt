-- ===== src/Pci/Address.antt =====
-- src/virtio_pci/virtio_pci.c: `virtio_pci_set_queue_addr`, and the table of operations.
use qnx_virtio.Common.{
  ℕ, ◌+◌, ◌/◌, true, Option, some, List, Errno, eok, Result, ok, err, replicate, u64,
}
use qnx_virtio.Virtq.{Virtq, desc_paddr, avail_paddr, used_paddr}
use qnx_virtio.Virtio.{Ops}
use qnx_virtio.Pci.{Region, PciDevice, Handle, at_queue_desc, at_queue_driver, at_queue_device}
use qnx_virtio.Pci
use qnx_virtio.Pci.Config
use qnx_virtio.Pci.Config.{stored}

module _ {Hw : Type 0} (region : Region Hw) where
  unfoldable pub write_addr : PciDevice → (field paddr : ℕ) → Hw → Hw
  write_addr pdev field paddr = region.write 8 (pdev.common_cfg + field) (u64 paddr)

  -- Neither the private data nor its common configuration is checked.
  unfoldable pub set_queue_addr : {L : Type 0} → PciDevice → Option (Virtq L) → Hw → Errno × Hw
  unfolding write_addr desc_paddr avail_paddr used_paddr
  set_queue_addr pdev vq hw = elim (desc_paddr vq true) as (λ _. Errno × Hw) [
    | err rc ↦ (rc, hw)
    | ok desc ↦
        (let hw1 = write_addr pdev at_queue_desc desc hw in
          elim (avail_paddr vq true) as (λ _. Errno × Hw) [
            | err rc ↦ (rc, hw1)
            | ok avail ↦
                (let hw2 = write_addr pdev at_queue_driver avail hw1 in
                  elim (used_paddr vq true) as (λ _. Errno × Hw) [
                    | err rc ↦ (rc, hw2)
                    | ok used ↦ (eok, write_addr pdev at_queue_device used hw2)
                  ])
          ])
  ]

  -- An operation on a device that has its private data, on the transport's state.
  abbrev lift : {A : Type 0} → (Handle → Hw → A × Hw) → PciDevice × Hw → A × (PciDevice × Hw)
  lift f (pdev, hw) = let (a, hw') = f (some (some pdev)) hw in (a, (pdev, hw'))

  -- What a buffer of `len` bytes, zero before the call, holds after it.
  abbrev read_config : (len offset : ℕ) → PciDevice → Hw → Result (List ℕ) × Hw
  read_config len offset pdev hw =
      let (read, hw') = Config.read_device_config region (some pdev) true len offset hw in
      (elim read [ err rc ↦ err rc | ok stores ↦ ok (stored (replicate (len / 4) 0) stores) ], hw')

  -- The operations that `virtio_pci_init` puts in the device.
  unfoldable pub pci_ops : {L : Type 0} → Ops L (PciDevice × Hw)
  pci_ops = record {
    read_device_features = λ count. lift λ dev. Config.read_device_features region dev true count;
    write_driver_features =
        λ features. lift λ dev. Config.write_driver_features region dev (some features);
    set_device_status = λ status. lift λ dev. Pci.set_device_status region dev status;
    get_device_status = lift λ dev. Pci.get_device_status region dev true;
    reset_device = lift λ dev. Pci.reset_device region dev;
    read_device_config = λ len offset (pdev, hw).
        (let (a, hw') = read_config len offset pdev hw in (a, (pdev, hw')));
    set_queue_addr =
        λ leagcy vq (pdev, hw). (let (rc, hw') = set_queue_addr pdev vq hw in (rc, (pdev, hw')));
    select_queue = λ index. lift λ dev. Pci.select_queue region dev index;
    notify_queue = λ index. lift λ dev. Pci.notify_queue region dev index;
    enable_queue = λ enable. lift λ dev. Pci.enable_queue region dev enable;
    set_queue_reset = lift λ dev. Pci.set_queue_reset region dev;
    get_queue_reset = lift λ dev. Pci.get_queue_reset region dev true;
    max_queue_size = lift λ dev. Pci.queue_size region dev true;
    set_queue_size = λ size. lift λ dev. Pci.set_queue_size region dev size;
  }

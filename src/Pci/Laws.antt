-- ===== src/Pci/Laws.antt =====
-- What the transport relies on of its registers, the device status and the addresses of the rings.
use qnx_virtio.Common.{
  ℕ, ◌+◌, ◌^◌, ◌≤◌, ◌<◌, ◌≡◌, ◌≢◌, refl, ◌∙◌, ◌⊎◌, inl, some, eok, is_ok, is_ok→eq, arith,
  if◌then◌else◌, bit_or, u8, u64,
}
use qnx_virtio.Spinlock.{Spinlock}
use qnx_virtio.Virtq.{Virtq, desc_paddr, avail_paddr, used_paddr}
use qnx_virtio.Virtio.{Device, add_device_status}
use qnx_virtio.Virtio.Laws.{priv_of}
use qnx_virtio.Pci.{
  Region, PciDevice, at_device_status, at_queue_desc, at_queue_driver, at_queue_device,
  get_device_status, set_device_status,
}
use qnx_virtio.Pci.Address.{pci_ops, write_addr, set_queue_addr}

-- Registers that hold what is written to them. A read gives what a register holds and changes none.
pub record Fields {Hw : Type 0} (region : Region Hw) : Type 0 where
  pub field : (bytes addr : ℕ) → Hw → ℕ
  pub field-write : (b a v : ℕ) (hw : Hw) → field b a (region.write b a v hw) ≡ v
  -- A write keeps the registers in front of it and behind it.
  pub field-write_apart :
      (b a b' a' v : ℕ) (hw : Hw)
      → 0 < b
      → 0 < b'
      → (a + b ≤ a') ⊎ (a' + b' ≤ a)
      → field b a (region.write b' a' v hw) ≡ field b a hw
  pub field-read : (b a b' a' : ℕ) (hw : Hw) → field b a (region.read b' a' hw).1 ≡ field b a hw
  pub read-field : (b a : ℕ) (hw : Hw) → (region.read b a hw).0 ≡ field b a hw

module _ {Hw : Type 0} (region : Region Hw) (fields : Fields region) where
  open fields use {field, field-write, field-write_apart, field-read, read-field}

  -- On a device of this transport whose common configuration is mapped and whose registers hold what
  -- is written to them, `virtio_add_device_status` returns the lock's code, and leaves in the status
  -- register the lowest byte of its bits and the new ones together; if the lock cannot be taken, it
  -- leaves the register as it was.
  pub add_device_status-pci_ops :
      (s : Spinlock) (dev : Device s.Lock (PciDevice × Hw)) (bits : ℕ)
      → dev.priv.0.common_cfg ≢ 0
      → let status = λ (t : PciDevice × Hw). field 1 (t.0.common_cfg + at_device_status) t.1 in
        let (rc, dev') = add_device_status s (some (record dev { ops = pci_ops region })) bits in
        (rc ≡ (s.spin_lock dev.lock).0)
        × (status (priv_of dev' dev.priv) ≡ (
            if is_ok (s.spin_lock dev.lock).0
            then u8 (bit_or (status dev.priv) bits)
            else status dev.priv))
  unfolding add_device_status pci_ops get_device_status set_device_status
  add_device_status-pci_ops s dev bits mapped =
      let a = dev.priv.0.common_cfg + at_device_status in
      let hw' = (region.read 1 a dev.priv.1).1 in
      ground (
        arith,
        is_ok→eq (s.spin_lock dev.lock).0,
        read-field 1 a dev.priv.1,
        field-read 1 a 1 a dev.priv.1,
        field-write 1 a (u8 (bit_or (field 1 a dev.priv.1) bits)) hw',
      )

  module _ (pdev : PciDevice) where
    field64-write :
        (f v : ℕ) (hw : Hw)
        → v < 2 ^ 64
        → field 8 (pdev.common_cfg + f) (write_addr region pdev f v hw) ≡ v
    unfolding write_addr
    field64-write f v hw h = field-write 8 (pdev.common_cfg + f) (u64 v) hw ∙ omega arith

    field64-write_before :
        (f g v : ℕ) (hw : Hw)
        → f + 8 ≤ g
        → field 8 (pdev.common_cfg + f) (write_addr region pdev g v hw)
          ≡ field 8 (pdev.common_cfg + f) hw
    unfolding write_addr
    field64-write_before f g v hw h =
        field-write_apart 8 (pdev.common_cfg + f) 8 (pdev.common_cfg + g) (u64 v) hw (omega arith)
          (omega arith) (inl (omega arith))

    -- On a device whose registers hold what is written to them, `virtio_pci_set_queue_addr` returns
    -- EOK and leaves the physical addresses of the three rings in their registers, if each fits 64
    -- bits.
    pub set_queue_addr-fields :
        {L : Type 0} (vq : Virtq L) (hw : Hw)
        → vq.place.desc_paddr < 2 ^ 64
        → vq.place.avail_paddr < 2 ^ 64
        → vq.place.used_paddr < 2 ^ 64
        → let (rc, hw') = set_queue_addr region pdev (some vq) hw in
          (rc ≡ eok)
          × (field 8 (pdev.common_cfg + at_queue_desc) hw' ≡ vq.place.desc_paddr)
          × (field 8 (pdev.common_cfg + at_queue_driver) hw' ≡ vq.place.avail_paddr)
          × (field 8 (pdev.common_cfg + at_queue_device) hw' ≡ vq.place.used_paddr)
    unfolding set_queue_addr desc_paddr avail_paddr used_paddr
    set_queue_addr-fields vq hw hd ha hu =
        let hw1 = write_addr region pdev at_queue_desc vq.place.desc_paddr hw in
        let hw2 = write_addr region pdev at_queue_driver vq.place.avail_paddr hw1 in
        (
          refl,
          field64-write_before at_queue_desc at_queue_device vq.place.used_paddr hw2 (omega arith)
              ∙ field64-write_before at_queue_desc at_queue_driver vq.place.avail_paddr hw1
                  (omega arith)
              ∙ field64-write at_queue_desc vq.place.desc_paddr hw hd,
          field64-write_before at_queue_driver at_queue_device vq.place.used_paddr hw2 (omega arith)
              ∙ field64-write at_queue_driver vq.place.avail_paddr hw1 ha,
          field64-write at_queue_device vq.place.used_paddr hw2 hu,
        )

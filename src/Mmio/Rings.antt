-- ===== src/Mmio/Rings.antt =====
-- The addresses of the rings, as the device finds them in its registers.
use qnx_virtio.Common.{
  ℕ, ◌+◌, ◌*◌, ◌%◌, ◌/◌, ◌^◌, ◌<◌, ◌≡◌, ◌≢◌, refl, ◌∙◌, true, false, some, eok, arith, u32,
}
use qnx_virtio.Virtq.{Virtq, desc_paddr, avail_paddr, used_paddr}
use qnx_virtio.Mmio.{
  Bus, MmioDevice, write32, reg_queue_pfn, reg_queue_desc_low, reg_queue_driver_low,
  reg_queue_device_low,
}
use qnx_virtio.Mmio.Address.{write_addr, set_queue_addr}
use qnx_virtio.Mmio.Laws.{RegisterFile}

module _ {Hw : Type 0} (bus : Bus Hw) (file : RegisterFile bus) (mdev : MmioDevice) where
  open file use {reg, reg-write}

  -- A register of the device, and a register pair, the low word first.
  abbrev reg32 : (offset : ℕ) → Hw → ℕ
  reg32 offset hw = reg (mdev.vaddr + offset) hw

  abbrev reg64 : (low : ℕ) → Hw → ℕ
  reg64 low hw = reg32 (low + 4) hw * 2 ^ 32 + reg32 low hw

  write32-same : (o v : ℕ) (hw : Hw) → reg32 o (write32 bus mdev o v hw) ≡ u32 v
  unfolding write32
  write32-same o v hw = ground (arith, reg-write (mdev.vaddr + o) (mdev.vaddr + o) (u32 v) hw)

  write32-other :
      (a o v : ℕ) (hw : Hw) → a ≢ mdev.vaddr + o → reg a (write32 bus mdev o v hw) ≡ reg a hw
  unfolding write32
  write32-other a o v hw ne = ground (arith, ne, reg-write a (mdev.vaddr + o) (u32 v) hw)

  write_addr-same :
      (low p : ℕ) (hw : Hw) → p < 2 ^ 64 → reg64 low (write_addr bus mdev low p hw) ≡ p
  unfolding write_addr
  write_addr-same low p hw h = omega (
    arith,
    write32-same (low + 4) (p / 2 ^ 32) (write32 bus mdev low (p % 2 ^ 32) hw),
    write32-other (mdev.vaddr + low) (low + 4) (p / 2 ^ 32) (write32 bus mdev low (p % 2 ^ 32) hw)
        (λ e. omega arith),
    write32-same low (p % 2 ^ 32) hw,
  )

  write_addr-other :
      (a low p : ℕ) (hw : Hw)
      → a ≢ mdev.vaddr + low
      → a ≢ mdev.vaddr + (low + 4)
      → reg a (write_addr bus mdev low p hw) ≡ reg a hw
  unfolding write_addr
  write_addr-other a low p hw ne ne' =
      write32-other a (low + 4) (p / 2 ^ 32) (write32 bus mdev low (p % 2 ^ 32) hw) ne'
      ∙ write32-other a low (p % 2 ^ 32) hw ne

  write_addr-pair :
      (o low p : ℕ) (hw : Hw) → o + 4 < low → reg64 o (write_addr bus mdev low p hw) ≡ reg64 o hw
  write_addr-pair o low p hw h = omega (
    arith,
    write_addr-other (mdev.vaddr + o) low p hw (λ e. omega arith) (λ e. omega arith),
    write_addr-other (mdev.vaddr + (o + 4)) low p hw (λ e. omega arith) (λ e. omega arith),
  )

  module _ {L : Type 0} (vq : Virtq L) (hw : Hw) where
    -- On a modern device whose registers hold what is written to them, `virtio_mmio_set_queue_addr`
    -- returns EOK and leaves the physical addresses of the three rings in their register pairs, if
    -- each fits 64 bits.
    pub set_queue_addr-modern :
        vq.place.desc_paddr < 2 ^ 64
        → vq.place.avail_paddr < 2 ^ 64
        → vq.place.used_paddr < 2 ^ 64
        → let (rc, hw') = set_queue_addr bus mdev false (some vq) hw in
          (rc ≡ eok)
          × (reg64 reg_queue_desc_low hw' ≡ vq.place.desc_paddr)
          × (reg64 reg_queue_driver_low hw' ≡ vq.place.avail_paddr)
          × (reg64 reg_queue_device_low hw' ≡ vq.place.used_paddr)
    unfolding set_queue_addr desc_paddr avail_paddr used_paddr
    set_queue_addr-modern hd ha hu =
        let hw1 = write_addr bus mdev reg_queue_desc_low vq.place.desc_paddr hw in
        let hw2 = write_addr bus mdev reg_queue_driver_low vq.place.avail_paddr hw1 in
        (
          refl,
          write_addr-pair reg_queue_desc_low reg_queue_device_low vq.place.used_paddr hw2
                (omega arith)
              ∙ write_addr-pair reg_queue_desc_low reg_queue_driver_low vq.place.avail_paddr hw1
                  (omega arith)
              ∙ write_addr-same reg_queue_desc_low vq.place.desc_paddr hw hd,
          write_addr-pair reg_queue_driver_low reg_queue_device_low vq.place.used_paddr hw2
                (omega arith)
              ∙ write_addr-same reg_queue_driver_low vq.place.avail_paddr hw1 ha,
          write_addr-same reg_queue_device_low vq.place.used_paddr hw2 hu,
        )

    -- On a legacy device whose registers hold what is written to them, `virtio_mmio_set_queue_addr`
    -- returns EOK and leaves the page frame number of the queue, if the queue starts at a multiple
    -- of 4096 and the number fits 32 bits.
    pub set_queue_addr-legacy :
        vq.place.desc_paddr % 2 ^ 12 ≡ 0
        → vq.place.desc_paddr < 2 ^ 44
        → let (rc, hw') = set_queue_addr bus mdev true (some vq) hw in
          (rc ≡ eok) × (reg32 reg_queue_pfn hw' * 2 ^ 12 ≡ vq.place.desc_paddr)
    unfolding set_queue_addr desc_paddr
    set_queue_addr-legacy page h =
        (refl, omega (arith, write32-same reg_queue_pfn (vq.place.desc_paddr / 2 ^ 12) hw))

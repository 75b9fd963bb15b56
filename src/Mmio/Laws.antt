-- ===== src/Mmio/Laws.antt =====
-- What the transport relies on: the registers as a file of values that its accesses read and write,
-- and the device status that stands in it.
use qnx_virtio.Common.{
  ℕ, is_ok, bit_or, some, ◌+◌, ◌≡◌, refl, ap, ◌∙◌, u32, ok, arith, if◌then◌else◌, ◌==◌,
  bit_and-byte, u8,
}
use qnx_virtio.Spinlock.{Spinlock}
use qnx_virtio.Virtio.{Device, add_device_status}
use qnx_virtio.Virtio.Laws.{StatusRegister, priv_of, add_device_status-or}
use qnx_virtio.Mmio.{Bus, MmioDevice, reg_status, get_device_status, set_device_status}
use qnx_virtio.Mmio.Address.{mmio_ops}

-- A device whose registers hold what is written to them. A read gives what the register holds and
-- changes none.
pub record RegisterFile {Hw : Type 0} (bus : Bus Hw) : Type 0 where
  pub reg : (addr : ℕ) → Hw → ℕ
  pub reg-write :
      (a b v : ℕ) (hw : Hw) → reg a (bus.write b v hw) ≡ (if a == b then v else reg a hw)
  pub reg-read : (a b : ℕ) (hw : Hw) → reg a (bus.read b hw).1 ≡ reg a hw
  pub read-reg : (a : ℕ) (hw : Hw) → (bus.read a hw).0 ≡ reg a hw

module _ {Hw : Type 0} (bus : Bus Hw) (file : RegisterFile bus) where
  open file use {reg, reg-write}

  -- The lowest byte of what is written to the status register.
  pub written_status :
      (mdev : MmioDevice) (n : ℕ) (hw : Hw)
      → u8 (reg (mdev.vaddr + reg_status) (bus.write (mdev.vaddr + reg_status) (u32 (u8 n)) hw))
        ≡ u8 n
  written_status mdev n hw =
      ground (arith, reg-write (mdev.vaddr + reg_status) (mdev.vaddr + reg_status) (u32 (u8 n)) hw)

module _ {L Hw : Type 0} (bus : Bus Hw) (file : RegisterFile bus) where
  open file use {reg, reg-read, read-reg}

  -- The transport has the status register that `virtio_add_device_status` relies on: the lowest byte
  -- of the register.
  unfoldable pub mmio_status : StatusRegister (mmio_ops bus {L = L})
  unfolding mmio_ops get_device_status set_device_status
  mmio_status = record {
    status = λ (mdev, hw). u8 (reg (mdev.vaddr + reg_status) hw);
    get-status =
        λ (mdev, hw). ap ok (bit_and-byte _ ∙ ap u8 (read-reg (mdev.vaddr + reg_status) hw));
    get-same =
        λ (mdev, hw). ap u8 (reg-read (mdev.vaddr + reg_status) (mdev.vaddr + reg_status) hw);
    set-rc = λ n (mdev, hw). refl;
    set-status = λ n (mdev, hw). written_status bus file mdev n hw;
  }

module _ (s : Spinlock) {Hw : Type 0} (bus : Bus Hw) (file : RegisterFile bus) where
  open s use {Lock, spin_lock}
  open file use {reg}

  -- On a device of this transport whose registers hold what is written to them,
  -- `virtio_add_device_status` returns the lock's code, and leaves in the lowest byte of the status
  -- register its bits and the new ones together; if the lock cannot be taken, it leaves them as they
  -- were.
  pub add_device_status-mmio_ops :
      (dev : Device Lock (MmioDevice × Hw)) (bits : ℕ)
      → let status = λ (t : MmioDevice × Hw). u8 (reg (t.0.vaddr + reg_status) t.1) in
        let (rc, dev') = add_device_status s (some (record dev { ops = mmio_ops bus })) bits in
        (rc ≡ (spin_lock dev.lock).0)
        × (status (priv_of dev' dev.priv) ≡ (
            if is_ok (spin_lock dev.lock).0
            then u8 (bit_or (status dev.priv) bits)
            else status dev.priv))
  unfolding mmio_status
  add_device_status-mmio_ops dev bits =
      add_device_status-or s (record dev { ops = mmio_ops bus }) bits (mmio_status bus file)

-- ===== src/Mmio/Queues.antt =====
-- src/virtio_mmio/virtio_mmio.c: the registers of the queues, which show those of the queue selected
-- last.
use qnx_virtio.Common.{
  ℕ, ◌+◌, ◌^◌, ◌<◌, ◌≡◌, refl, ◌∙◌, Bool, true, false, some, is_ok, arith, if◌then◌else◌, ◌==◌,
  ◌&&◌,
}
use qnx_virtio.Spinlock.{Spinlock}
use qnx_virtio.Virtio.{Device}
use qnx_virtio.Virtio
use qnx_virtio.Virtio.Laws.{QueueRegisters, priv_of, enable_queue-enabled}
use qnx_virtio.Mmio.{Bus, MmioDevice, select_queue, enable_queue, reg_queue_sel, reg_queue_ready}
use qnx_virtio.Mmio.Address.{mmio_ops}

-- The queues of a device at the address `vaddr`, as the VirtIO specification describes them: QueueSel
-- selects a queue, and a write of 1 or 0 to QueueReady enables or disables the selected one.
pub record QueueBank {Hw : Type 0} (bus : Bus Hw) : Type 0 where
  pub selected : (vaddr : ℕ) → Hw → ℕ
  pub ready : (vaddr queue : ℕ) → Hw → Bool
  pub sel-selected :
      (vaddr v : ℕ) (hw : Hw) → selected vaddr (bus.write (vaddr + reg_queue_sel) v hw) ≡ v
  pub sel-ready :
      (vaddr v j : ℕ) (hw : Hw)
      → ready vaddr j (bus.write (vaddr + reg_queue_sel) v hw) ≡ ready vaddr j hw
  pub ready-ready :
      (vaddr j : ℕ) (b : Bool) (hw : Hw)
      → ready vaddr j (bus.write (vaddr + reg_queue_ready) (if b then 1 else 0) hw)
        ≡ (if selected vaddr hw == j then b else ready vaddr j hw)

module _ {Hw : Type 0} (bus : Bus Hw) (bank : QueueBank bus) where
  enable-ready :
      (mdev : MmioDevice) (b : Bool) (j : ℕ) (hw : Hw)
      → bank.ready mdev.vaddr j (enable_queue bus (some (some mdev)) b hw).1
        ≡ (if bank.selected mdev.vaddr hw == j then b else bank.ready mdev.vaddr j hw)
  unfolding enable_queue
  enable-ready mdev true j hw = bank.ready-ready mdev.vaddr j true hw
  enable-ready mdev false j hw = bank.ready-ready mdev.vaddr j false hw

  -- The transport has the queue registers that `virtio_enable_queue` relies on.
  unfoldable mmio_queues : {L : Type 0} → QueueRegisters (mmio_ops bus {L = L})
  unfolding mmio_ops select_queue
  mmio_queues = record {
    selected = λ (mdev, hw). bank.selected mdev.vaddr hw;
    enabled = λ j (mdev, hw). bank.ready mdev.vaddr j hw;
    select-rc = λ i (mdev, hw). refl;
    select-selected =
        λ i (mdev, hw) small. (bank.sel-selected mdev.vaddr _ hw ∙ omega (arith, small));
    select-enabled = λ i j (mdev, hw). bank.sel-ready mdev.vaddr _ j hw;
    enable-enabled = λ b j (mdev, hw). enable-ready mdev b j hw;
  }

module _ (s : Spinlock) {Hw : Type 0} (bus : Bus Hw) (bank : QueueBank bus) where
  open s use {Lock, spin_lock}

  -- On a device of this transport whose registers of the queues behave as the VirtIO specification
  -- says, `virtio_enable_queue` with an index of 16 bits enables or disables the queue that it is
  -- given and no other, whatever queue was selected before; if the lock cannot be taken, none.
  pub enable_queue-mmio_ops :
      (dev : Device Lock (MmioDevice × Hw)) (i j : ℕ) (b : Bool)
      → i < 2 ^ 16
      → let ready = λ (t : MmioDevice × Hw). bank.ready t.0.vaddr j t.1 in
        let dev' = (Virtio.enable_queue s (some (record dev { ops = mmio_ops bus })) i b).1 in
        ready (priv_of dev' dev.priv)
        ≡ (if is_ok (spin_lock dev.lock).0 && (i == j) then b else ready dev.priv)
  unfolding mmio_queues
  enable_queue-mmio_ops dev i j b small =
      enable_queue-enabled s (record dev { ops = mmio_ops bus }) i j b (mmio_queues bus bank) small

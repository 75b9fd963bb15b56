-- ===== src/Mmio/Callback.antt =====
-- src/virtio_mmio/virtio_mmio.c: `virtio_mmio_virtq_callback`, the work of an interrupt. `Hw` is all
-- the state that the driver's callback works on. The loop runs on fuel, and `none` means that it ran
-- out.
use qnx_virtio.Common.{
  ℕ, zero, suc, Bool, true, Option, none, some, Errno, eok, einval, is_ok, ok, err, if◌then◌else◌,
  ◌==◌, bit_and,
}
use qnx_virtio.Mmio.{Bus, Handle, get_interrupt_status, set_interrupt_ack}

-- `do rc = callback(dev, vq); while (rc == EOK);`
unfoldable pub drain : {Hw : Type 0} → (fuel : ℕ) → (Hw → Errno × Hw) → Hw → Option (Errno × Hw)
drain zero callback hw = none
drain (suc fuel) callback hw =
    let (rc, hw') = callback hw in
    let rest = drain fuel callback hw' in if is_ok rc then rest else some (rc, hw')

module _ {Hw : Type 0} (bus : Bus Hw) where
  -- The flag `VIRTIO_MMIO_INT_VIRTQ` is acknowledged when it is set.
  unfoldable pub acknowledge : Handle → (status : ℕ) → Hw → Errno × Hw
  unfolding set_interrupt_ack
  acknowledge dev status hw =
      if bit_and status 1 == 0 then (eok, hw) else set_interrupt_ack bus dev 1 hw

  -- `vq` says whether the queue is there; a callback is none where the pointer is null.
  unfoldable pub virtq_callback :
      (fuel : ℕ) → Handle → (vq : Bool) → Option (Hw → Errno × Hw) → Hw → Option (Errno × Hw)
  unfolding acknowledge get_interrupt_status drain
  virtq_callback fuel dev vq none hw = some (einval, hw)
  virtq_callback fuel dev vq (some callback) hw =
      let (read, hw1) = get_interrupt_status bus dev true hw in
      let work = elim read as (λ _. Option (Errno × Hw)) [
        | err rc ↦ some (rc, hw1)
        | ok status ↦
            (let (rc, hw2) = acknowledge dev status hw1 in
              if is_ok rc then drain fuel callback hw2 else some (rc, hw2))
      ] in
      if vq then work else some (einval, hw)
